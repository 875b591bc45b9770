-- ===== src/Authz/Limits.antt =====
-- pkg/authz/policy.go: the guard around the configured authorizers.
use kube_ssh.Base.{
  List, [], ◌∷◌, ◌≡◌, ◌≢◌, ◌↔◌, ◌⊎◌, inl, inr, Bool, true, false, none, arith, In, Bool-cases,
  if◌then◌else◌, ◌||◌, ◌&&◌, not,
}
use kube_ssh.Text.{Str, codes, elem, is_empty, ◌==◌, join_host_port}
use kube_ssh.Text.Laws.{elem_iff, ==_iff}
use kube_ssh.Dict.{lookup, get_extra}
use kube_ssh.Wildcard.{match_any}
use kube_ssh.Wildcard.Relation.{Matches}
use kube_ssh.Wildcard.Correct.{match_any_iff}
use kube_ssh.Authz.{
  Authorizer, Request, answer, no_opinion, deny, allow, empty, capability_exceeds_limits,
  destination_exceeds_limits, bind_exceeds_limits, capability_local_forward,
  capability_remote_forward,
}
use kube_ssh.Authz.Deciding.{Passes}

pub record PolicyLimits : Type 0 where
  pub capabilities : List Str
  pub local_forward_destinations : List Str
  pub remote_forward_binds : List Str
  pub skip_access : Bool

unfoldable pub contains_or_wildcard : List Str → Str → Bool
unfolding elem
contains_or_wildcard values value = elem (codes "*") values || elem value values

-- len(req.AuthExtra["kube-ssh/access.name"]) > 0
unfoldable pub is_access : Request → Bool
unfolding lookup
is_access req = elim (lookup (codes "kube-ssh/access.name") req.auth_extra) [
  | none ↦ false
  | kube_ssh.Base.some names ↦ not (is_empty names)
]

abbrev pub destination : Request → Str
destination req =
    join_host_port (get_extra req.attributes.extra (codes "destination_host"))
      (get_extra req.attributes.extra (codes "destination_port"))

abbrev pub bind : Request → Str
bind req =
    join_host_port (get_extra req.attributes.extra (codes "bind_host"))
      (get_extra req.attributes.extra (codes "bind_port"))

-- The switch on the capability.
unfoldable pub forward_limits : PolicyLimits → Authorizer
unfolding match_any ◌==◌ join_host_port get_extra
forward_limits p req =
    let capability = req.attributes.action in
    if capability == capability_local_forward
    then (if not (match_any p.local_forward_destinations (destination req))
        then answer deny destination_exceeds_limits
        else answer no_opinion empty)
    else if capability == capability_remote_forward
    then (if not (match_any p.remote_forward_binds (bind req))
        then answer deny bind_exceeds_limits
        else answer no_opinion empty)
    else answer no_opinion empty

unfoldable pub authorize : PolicyLimits → Authorizer
unfolding forward_limits contains_or_wildcard is_access
authorize p req =
    if p.skip_access && is_access req
    then answer no_opinion empty
    else if not (contains_or_wildcard p.capabilities req.attributes.action)
    then answer deny capability_exceeds_limits
    else forward_limits p req

-- Some pattern of the list matches the value.
abbrev pub SomeMatches : List Str → Str → Type 0
SomeMatches patterns v = (p : Str) × In p patterns × Matches p v

-- What the limits permit, with no order of tests in it.
pub record Within (p : PolicyLimits) (req : Request) : Type 0 where
  pub capability : In (codes "*") p.capabilities ⊎ In req.attributes.action p.capabilities
  pub local :
      req.attributes.action ≡ capability_local_forward
      → SomeMatches p.local_forward_destinations (destination req)
  pub remote :
      req.attributes.action ≡ capability_remote_forward
      → SomeMatches p.remote_forward_binds (bind req)

abbrev pub Skips : PolicyLimits → Request → Type 0
Skips p req = (p.skip_access ≡ true) × (is_access req ≡ true)

pub local_ne_remote : {a : Str} → a ≡ capability_local_forward → a ≢ capability_remote_forward
local_ne_remote e f = cc

pub Passes-Within :
    (p : PolicyLimits) (req : Request) → Passes req (authorize p) → Skips p req ⊎ Within p req
unfolding authorize forward_limits contains_or_wildcard
Passes-Within p req h = elim (Bool-cases (p.skip_access && is_access req)) [
  | inl skips ↦ inl (ground arith, ground arith)
  | inr holds ↦ inr (record {
    capability =
        ground (
          arith,
          elem_iff (codes "*") p.capabilities,
          elem_iff req.attributes.action p.capabilities,
        );
    local = λ e.
        (match_any_iff p.local_forward_destinations (destination req)).0
          (ground (arith, ==_iff req.attributes.action capability_local_forward));
    remote = λ e. (match_any_iff p.remote_forward_binds (bind req)).0 (
        ground (
          arith,
          ==_iff req.attributes.action capability_local_forward,
          ==_iff req.attributes.action capability_remote_forward,
          local_ne_remote {a = req.attributes.action},
        ));
  })
]

pub Within-Passes :
    (p : PolicyLimits) (req : Request) → Skips p req ⊎ Within p req → Passes req (authorize p)
unfolding authorize forward_limits contains_or_wildcard
Within-Passes p req (inl skips) = ground arith
Within-Passes p req (inr w) =
    let capability_ok : contains_or_wildcard p.capabilities req.attributes.action ≡ true =
      ground (
        arith,
        elem_iff (codes "*") p.capabilities,
        elem_iff req.attributes.action p.capabilities,
      ) in
    let local_ok : (req.attributes.action == capability_local_forward) ≡ true
        → match_any p.local_forward_destinations (destination req) ≡ true =
      λ e.
        (match_any_iff p.local_forward_destinations (destination req)).1
          (w.local ((==_iff req.attributes.action capability_local_forward).0 e)) in
    let remote_ok : (req.attributes.action == capability_remote_forward) ≡ true
        → match_any p.remote_forward_binds (bind req) ≡ true =
      λ e.
        (match_any_iff p.remote_forward_binds (bind req)).1
          (w.remote ((==_iff req.attributes.action capability_remote_forward).0 e)) in
    ground arith

-- The guard never allows and never fails.
pub authorize-ne_allow :
    (p : PolicyLimits) (req : Request)
    → ((authorize p req).decision ≢ allow) × ((authorize p req).error ≡ none)
unfolding authorize forward_limits
authorize-ne_allow p req = ground arith
