-- ===== src/Authz/Static.antt =====
-- pkg/authz/static.go
use kube_ssh.Base.{List, ◌≡◌, ◌≢◌, ◌↔◌, ◌⊎◌, [], arith, if◌then◌else◌}
use kube_ssh.Text.{Str, elem, is_empty}
use kube_ssh.Text.Laws.{elem_iff}
use kube_ssh.Base.{In}
use kube_ssh.Authz.{
  Authorizer, Request, answer, no_opinion, deny, allow, empty, capability_denied,
  capability_not_allowed,
}

unfoldable pub allow_all : Authorizer
allow_all req = answer allow empty

unfoldable pub deny_all : Authorizer
deny_all req = answer deny empty

pub record StaticCapabilities : Type 0 where
  pub allowed : List Str
  pub denied : List Str

unfoldable pub authorize : StaticCapabilities → Authorizer
unfolding elem
authorize a req =
    let capability = req.attributes.action in
    if elem capability a.denied
    then answer deny capability_denied
    else if elem capability a.allowed
    then answer no_opinion empty
    else if is_empty a.allowed
    then answer no_opinion empty
    else answer deny capability_not_allowed

-- The static policy denies exactly the capabilities that are on its deny list, or missing from a
-- non-empty allow list.
pub deny_iff :
    (a : StaticCapabilities) (req : Request)
    → ((authorize a req).decision ≡ deny) ↔ (
        In req.attributes.action a.denied
        ⊎ ((a.allowed ≢ []) × ¬ In req.attributes.action a.allowed))
unfolding authorize
deny_iff a req =
    ground
      (arith, elem_iff req.attributes.action a.denied, elem_iff req.attributes.action a.allowed)
