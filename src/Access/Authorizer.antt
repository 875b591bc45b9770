-- ===== src/Access/Authorizer.antt =====
-- pkg/accesspolicy/authorizer.go. The store is a parameter: what its Get returns for a namespace and
-- a name.
use kube_ssh.Base.{
  Bool, true, false, not, List, [], ◌∷◌, Option, none, some, Result, ok, err, if◌then◌else◌, ◌||◌,
  ◌&&◌,
}
use kube_ssh.Text.{Str, codes, ◌==◌, elem, is_empty, join_host_port}
use kube_ssh.Dict.{get_extra}
use kube_ssh.Wildcard.{match_any}
use kube_ssh.Authz.{
  Answer, Authorizer, Attributes, Request, Reason, answer, allow, deny, no_opinion, empty,
  access_gone, credential_gone, container_not_allowed, capability_not_allowed,
  destination_not_allowed, bind_not_allowed, capability_local_forward, capability_remote_forward,
}
use kube_ssh.Authz.Sar.{resource_value}
use kube_ssh.Access.{
  Access, AccessCredential, CapabilityPolicy, extra_access_namespace, extra_access_name,
  extra_credential_user, container_allowed, find_credential,
}
pub mod Capable
pub mod Granted

-- The interface AccessGetter.
abbrev pub AccessGetter : Type 0
AccessGetter = Str → Str → Result Access

pub record CapabilityDefaults : Type 0 where
  pub allowed : List Str
  pub local_forward_destinations : List Str
  pub remote_forward_binds : List Str

-- The policy's own list, or the default one where that is empty.
abbrev pub effective : List Str → List Str → List Str
effective own default = if is_empty own then default else own

abbrev pub forward_list : Option (List Str) → List Str → List Str
forward_list none default = default
forward_list (some own) default = effective own default

abbrev pub destination : Attributes → Str
destination attrs =
    join_host_port (get_extra attrs.extra (codes "destination_host"))
      (get_extra attrs.extra (codes "destination_port"))

abbrev pub bind : Attributes → Str
bind attrs =
    join_host_port (get_extra attrs.extra (codes "bind_host"))
      (get_extra attrs.extra (codes "bind_port"))

-- The switch of capabilityAllowed; `none` is "allowed".
unfoldable pub forward_refusal : CapabilityPolicy → CapabilityDefaults → Attributes → Option Reason
unfolding ◌==◌
forward_refusal policy defaults attrs =
    let locals = forward_list policy.local_forward defaults.local_forward_destinations in
    let remotes = forward_list policy.remote_forward defaults.remote_forward_binds in
    if attrs.action == capability_local_forward
    then (if not (is_empty locals) && not (match_any locals (destination attrs))
        then some destination_not_allowed
        else none)
    else if attrs.action == capability_remote_forward
    then (if not (is_empty remotes) && not (match_any remotes (bind attrs))
        then some bind_not_allowed
        else none)
    else none

-- capabilityAllowed; `none` is "allowed".
unfoldable pub capability_refusal :
    CapabilityPolicy → CapabilityDefaults → Attributes → Option Reason
unfolding forward_refusal
capability_refusal policy defaults attrs =
    let allowed = effective policy.allowed defaults.allowed in
    if not (is_empty allowed) && (not (elem attrs.action allowed) && not (elem (codes "*") allowed))
    then some capability_not_allowed
    else forward_refusal policy defaults attrs

-- The part of Authorize behind the credential.
unfoldable pub decide : CapabilityDefaults → Access → AccessCredential → Attributes → Answer
decide defaults access credential attrs =
    let container = resource_value attrs.resources (codes "containers") in
    if not (is_empty container)
      && (not (container_allowed access.spec.containers container)
          || not (container_allowed credential.containers container))
    then answer deny container_not_allowed
    else elim (capability_refusal credential.capabilities defaults attrs) [
      | some reason ↦ answer deny reason
      | none ↦ answer allow empty
    ]

-- The part of Authorize behind the store.
unfoldable pub decide_for : CapabilityDefaults → Result Access → Str → Attributes → Answer
decide_for defaults (err e) username attrs = answer deny access_gone
decide_for defaults (ok access) username attrs = elim (find_credential access username) [
  | none ↦ answer deny credential_gone
  | some credential ↦ decide defaults access credential attrs
]

unfoldable pub authorize : AccessGetter → CapabilityDefaults → Authorizer
authorize store defaults req =
    let namespace = get_extra req.auth_extra extra_access_namespace in
    let name = get_extra req.auth_extra extra_access_name in
    let username = get_extra req.auth_extra extra_credential_user in
    if is_empty namespace || (is_empty name || is_empty username)
    then answer no_opinion empty
    else decide_for defaults (store namespace name) username req.attributes
