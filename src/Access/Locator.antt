-- ===== src/Access/Locator.antt =====
-- pkg/accesspolicy/resolver.go: which Access an SSH user name asks for. The store is a parameter.
use kube_ssh.Base.{
  ℕ, suc, Bool, true, false, not, List, [], ◌∷◌, ◌++◌, Option, none, some, Error, access_not_found,
  bad_request, Result, ok, err, ◌>>=◌, length, take, drop, nat_eq, if◌then◌else◌, ◌||◌, ◌&&◌,
}
use kube_ssh.Text.{Str, ◌==◌, is_empty, contains, cut, last_index, has_prefix}
use kube_ssh.Dict.{Dict, get_extra}
use kube_ssh.Access.{Access, extra_access_namespace, extra_access_name}
use kube_ssh.Access.Authorizer.{AccessGetter}
pub mod Spelled
pub mod Finds
pub mod Addresses

-- accessLocator
pub record Locator : Type 0 where
  pub namespace : Str
  pub access : Str
  pub pod : Str
  pub container : Str

-- The locator and the Access; `none` is provided = false.
abbrev pub Located : Type 0
Located = Result (Option (Locator × Access))

-- The branches on the result of store.Get.
unfoldable pub located : Locator → Result Access → Located
located l (ok access) = ok (some (l, access))
located l (err access_not_found) = ok none
located l (err e) = err e

-- parseAccessLocatorFor
unfoldable pub parse_access_locator_for : Str → Str → Str → Option Locator
unfolding ◌==◌ has_prefix contains
parse_access_locator_for ssh_user namespace name =
    let prefix = namespace ++ (b'.' ∷ name) in
    let pod = drop (length (prefix ++ (b'~' ∷ []))) ssh_user in
    let container = drop (length (prefix ++ (b'.' ∷ []))) ssh_user in
    if ssh_user == prefix
    then some (record { namespace = namespace; access = name; pod = []; container = [] })
    else if has_prefix ssh_user (prefix ++ (b'~' ∷ []))
    then (if is_empty pod
        then none
        else some (record { namespace = namespace; access = name; pod = pod; container = [] }))
    else if has_prefix ssh_user (prefix ++ (b'.' ∷ []))
    then (if is_empty container || contains b'.' container
        then none
        else some
            (record { namespace = namespace; access = name; pod = []; container = container }))
    else none

-- resolveAccessContainerLocator, where the last dot is at index i.
unfoldable pub locate_container : AccessGetter → Str → Str → ℕ → Located
unfolding located
locate_container store namespace remainder i =
    let name = take i remainder in
    let container = drop (suc i) remainder in
    if nat_eq i 0 || is_empty container
    then ok none
    else located (record { namespace = namespace; access = name; pod = []; container = container })
        (store namespace name)

unfoldable pub resolve_access_container_locator : AccessGetter → Str → Str → Located
unfolding locate_container last_index
resolve_access_container_locator store namespace remainder = elim (last_index b'.' remainder) [
  | none ↦ ok none
  | some i ↦ locate_container store namespace remainder i
]

-- The part of resolveAccessLocator for a name without a Pod.
unfoldable pub locate_exact : AccessGetter → Str → Str → Result Access → Located
unfolding resolve_access_container_locator
locate_exact store namespace remainder (ok access) =
    ok (
      some (record { namespace = namespace; access = remainder; pod = []; container = [] }, access))
locate_exact store namespace remainder (err access_not_found) =
    resolve_access_container_locator store namespace remainder
locate_exact store namespace remainder (err e) = err e

unfoldable pub locate_remainder : AccessGetter → Str → Str → Located
unfolding locate_exact located cut
locate_remainder store namespace remainder = elim (cut b'~' remainder) [
  | some (name, pod) ↦
      if is_empty name || is_empty pod
      then ok none
      else located (record { namespace = namespace; access = name; pod = pod; container = [] })
          (store namespace name)
  | none ↦ locate_exact store namespace remainder (store namespace remainder)
]

-- resolveAccessLocator
unfoldable pub resolve_access_locator : AccessGetter → Str → Located
unfolding locate_remainder cut
resolve_access_locator store ssh_user = elim (cut b'.' ssh_user) [
  | none ↦ ok none
  | some (namespace, remainder) ↦
      if is_empty namespace || is_empty remainder
      then ok none
      else locate_remainder store namespace remainder
]

-- The part of resolveRequestedAccess for an authenticated Access.
unfoldable pub locate_identity : AccessGetter → Str → Str → Str → Located
unfolding parse_access_locator_for located
locate_identity store ssh_user namespace name =
    elim (parse_access_locator_for ssh_user namespace name) [
      | none ↦ err bad_request
      | some l ↦ located l (store namespace name)
    ]

-- resolveRequestedAccess
unfoldable pub resolve_requested_access : AccessGetter → Str → Dict (List Str) → Located
unfolding locate_identity
resolve_requested_access store ssh_user extra =
    let namespace = get_extra extra extra_access_namespace in
    let name = get_extra extra extra_access_name in
    if not (is_empty namespace) || not (is_empty name)
    then (if is_empty namespace || is_empty name
        then err bad_request
        else locate_identity store ssh_user namespace name)
    else resolve_access_locator store ssh_user
