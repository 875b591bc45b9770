-- ===== src/SshProxy/Bound.antt =====
-- A bound target leads back to the Access that it was made of.
use Prim.Native.Nat.{◌^◌}
use kube_ssh.Base.{
  ◌<◌, ◌≡◌, refl, ◌∙◌, sym, ap, ◌↔◌, false, Option, none, some, ok, ok_inj, >>=-eq-ok, ◌>>=◌, arith,
  pos,
}
use kube_ssh.Text.{Str, codes, is_empty, ◌==◌}
use kube_ssh.Text.Laws.{==_iff}
use kube_ssh.Text.Numbers.Printed.{parse_int64-format}
use kube_ssh.Dict.{get_or, lookup}
use kube_ssh.Target.{option, option_in}
use kube_ssh.Access.{Access, AccessEndpoint}
use kube_ssh.Access.Authorizer.{AccessGetter}
use kube_ssh.Access.Resolver.{new_ssh_target}
use kube_ssh.SshProxy.{
  BoundTarget, with_generation, parse_bound, parse_target, find_endpoint, existing,
  current_endpoint, with_access, bound_endpoint,
}

abbrev pub bound_to : Access → Str → BoundTarget
bound_to access endpoint = record {
  namespace = access.namespace;
  access = access.name;
  endpoint = endpoint;
  access_uid = access.uid;
  generation = pos access.generation;
}

-- The Access that the source has is the same, unchanged and external, and has the endpoint.
abbrev pub Current : AccessGetter → Access → Str → Access → AccessEndpoint → Type 0
Current get access name now endpoint =
    (get access.namespace access.name ≡ ok now)
    × (now.uid ≡ access.uid)
    × (now.generation ≡ access.generation)
    × (now.spec.type ≡ codes "External")
    × (find_endpoint now.spec.endpoints name ≡ some endpoint)

module _ (access : Access) (name : Str) (namespaced : is_empty access.namespace ≡ false)
    (has_name : is_empty access.name ≡ false) (has_endpoint : is_empty name ≡ false)
    (has_uid : is_empty access.uid ≡ false) (fits : access.generation < 2 ^ 63) where
  parse_target-new_ssh_target :
      parse_target (some (new_ssh_target access name)) ≡ ok (bound_to access name)
  unfolding parse_target parse_bound new_ssh_target option option_in get_or lookup with_generation
      ◌==◌
  parse_target-new_ssh_target =
      rw (namespaced, has_name, has_endpoint, has_uid, parse_int64-format access.generation fits)
        refl

existing-ok :
    (found : Option AccessEndpoint) (endpoint : AccessEndpoint)
    → existing found ≡ ok endpoint
    → found ≡ some endpoint
unfolding existing
existing-ok none endpoint h = cc
existing-ok (some e) endpoint h = ap some (ok_inj h)

current_endpoint_iff :
    (access now : Access) (name : Str) (endpoint : AccessEndpoint)
    → (current_endpoint (bound_to access name) now ≡ ok endpoint) ↔ (
        (now.uid ≡ access.uid)
        × (now.generation ≡ access.generation)
        × (now.spec.type ≡ codes "External")
        × (find_endpoint now.spec.endpoints name ≡ some endpoint))
unfolding current_endpoint existing
current_endpoint_iff access now name endpoint = ground (
  arith,
  ==_iff now.uid access.uid,
  ==_iff now.spec.type (codes "External"),
  existing-ok (find_endpoint now.spec.endpoints name) endpoint,
)

module _ (get : AccessGetter) (access : Access) (name : Str)
    (namespaced : is_empty access.namespace ≡ false) (has_name : is_empty access.name ≡ false)
    (has_endpoint : is_empty name ≡ false) (has_uid : is_empty access.uid ≡ false)
    (fits : access.generation < 2 ^ 63) where
  -- For a target that NewTarget makes of an Access with a namespace, a name, a UID and a generation below
  -- 2^63, and of the non-empty name of an endpoint, Connect goes on exactly when the source has an Access
  -- of that namespace and name, with the same UID and generation and the type External, and with an
  -- endpoint of that name; and then with this Access and with the first such endpoint.
  pub bound_endpoint_iff :
      (now : Access) (endpoint : AccessEndpoint)
      → (bound_endpoint get (some (new_ssh_target access name)) ≡ ok (now, endpoint))
        ↔ Current get access name now endpoint
  unfolding bound_endpoint
  bound_endpoint_iff now endpoint =
      rw (parse_target-new_ssh_target access name namespaced has_name has_endpoint has_uid fits) (
        goes_on,
        λ (has, uid, generation, external, found).
            let goes = current_endpoint_iff access now name endpoint in
            rw (has, goes.1 (uid, generation, external, found)) refl,
      )
    where
      goes_on :
          ((get access.namespace access.name >>= with_access (bound_to access name))
            ≡ ok (now, endpoint))
          → Current get access name now endpoint
      goes_on h =
          let (own, has, rest) = >>=-eq-ok (get access.namespace access.name) _ h in
          let (e, found, last) = >>=-eq-ok (current_endpoint (bound_to access name) own) _ rest in
          let same : (own, e) ≡ (now, endpoint) = ok_inj last in
          let own_now : own ≡ now = ap (λ p. p.0) same in
          let e_endpoint : e ≡ endpoint = ap (λ p. p.1) same in
          let current : current_endpoint (bound_to access name) now ≡ ok endpoint =
            ap (current_endpoint (bound_to access name)) (sym own_now) ∙ found ∙ ap ok e_endpoint in
          let (uid, generation, external, has_it) =
            (current_endpoint_iff access now name endpoint).0 current in
          (has ∙ ap ok own_now, uid, generation, external, has_it)
