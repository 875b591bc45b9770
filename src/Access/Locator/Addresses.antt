-- ===== src/Access/Locator/Addresses.antt =====
-- pkg/accesspolicy/resolver.go: the target of an authenticated Access.
use kube_ssh.Base.{
  ◌≡◌, refl, sym, ap, ◌∙◌, ◌≢◌, ◌↔◌, inl, inr, false, List, [], ◌∷◌, some, Result, ok, arith,
  Option-cases,
}
use kube_ssh.Text.{Str, is_empty}
use kube_ssh.Dict.{Dict, get_extra}
use kube_ssh.Access.{Access, extra_access_namespace, extra_access_name}
use kube_ssh.Access.Authorizer.{AccessGetter}
use kube_ssh.Access.Locator.{
  Locator, located, parse_access_locator_for, locate_identity, resolve_requested_access,
}
use kube_ssh.Access.Locator.Spelled.{Addresses, parse-Addresses, Addresses-parse}
use kube_ssh.Access.Locator.Finds.{located-ok}

not_empty : (s : Str) → s ≢ [] → is_empty s ≡ false
not_empty [] h = absurd (h refl)
not_empty (c ∷ s) h = refl

located-found :
    (l : Locator) (a : Access) (r : Result Access) → r ≡ ok a → located l r ≡ ok (some (l, a))
unfolding located
located-found l a r e = rw (e) refl

locate_identity_iff :
    (store : AccessGetter) (ssh_user namespace name : Str) (l : Locator) (a : Access)
    → (locate_identity store ssh_user namespace name ≡ ok (some (l, a))) ↔ (
        (l.namespace ≡ namespace)
        × (l.access ≡ name)
        × Addresses ssh_user l
        × (store l.namespace l.access ≡ ok a))
unfolding locate_identity
locate_identity_iff store ssh_user namespace name l a = (find, found)
  where
    find :
        locate_identity store ssh_user namespace name ≡ ok (some (l, a))
        → (l.namespace ≡ namespace)
          × (l.access ≡ name)
          × Addresses ssh_user l
          × (store l.namespace l.access ≡ ok a)
    find h = elim (Option-cases (parse_access_locator_for ssh_user namespace name)) [
      | inl n ↦ ground arith
      | inr (m, e) ↦
          let looked : located m (store namespace name) ≡ ok (some (l, a)) = ground arith in
          let (same, at) = located-ok m l (store namespace name) a looked in
          let parsed = parse-Addresses ssh_user namespace name l (e ∙ ap some same) in
          (parsed.0, parsed.1, parsed.2, rw (parsed.0, parsed.1) at)
    ]

    found :
        (l.namespace ≡ namespace)
          × (l.access ≡ name)
          × Addresses ssh_user l
          × (store l.namespace l.access ≡ ok a)
        → locate_identity store ssh_user namespace name ≡ ok (some (l, a))
    found (e, f, named, at) =
        rw
          (
            locate_identity,
            sym (ap (λ n. parse_access_locator_for ssh_user n name) e),
            sym (ap (parse_access_locator_for ssh_user l.namespace) f),
            Addresses-parse ssh_user l named,
          )
          (located-found l a (store namespace name) (rw (sym e, sym f) at))

requested-identity :
    (store : AccessGetter) (ssh_user : Str) (extra : Dict (List Str))
    → get_extra extra extra_access_namespace ≢ []
    → get_extra extra extra_access_name ≢ []
    → resolve_requested_access store ssh_user extra
      ≡ locate_identity store ssh_user
          (get_extra extra extra_access_namespace)
          (get_extra extra extra_access_name)
unfolding resolve_requested_access
requested-identity store ssh_user extra ns nn =
    rw
      (
        not_empty (get_extra extra extra_access_namespace) ns,
        not_empty (get_extra extra extra_access_name) nn,
      )
      refl

-- For a request whose login came through an Access, with its namespace and name not empty: the target
-- is that Access with a locator exactly where the store has the Access and the user name is the
-- Access, alone or with a Pod or a container.
pub resolve_requested_access_iff :
    (store : AccessGetter) (ssh_user : Str) (extra : Dict (List Str)) (l : Locator) (a : Access)
    → get_extra extra extra_access_namespace ≢ []
    → get_extra extra extra_access_name ≢ []
    → (resolve_requested_access store ssh_user extra ≡ ok (some (l, a))) ↔ (
        (l.namespace ≡ get_extra extra extra_access_namespace)
        × (l.access ≡ get_extra extra extra_access_name)
        × Addresses ssh_user l
        × (store l.namespace l.access ≡ ok a))
resolve_requested_access_iff store ssh_user extra l a ns nn =
    rw (requested-identity store ssh_user extra ns nn) (
      locate_identity_iff store ssh_user (get_extra extra extra_access_namespace)
        (get_extra extra extra_access_name) l a)
