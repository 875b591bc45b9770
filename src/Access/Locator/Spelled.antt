-- ===== src/Access/Locator/Spelled.antt =====
-- pkg/accesspolicy/resolver.go: parseAccessLocatorFor reads the user names of a locator.
use kube_ssh.Base.{
  ℕ, ◌≡◌, refl, ◌≢◌, ◌⊎◌, inl, inr, false, [], ◌∷◌, ◌++◌, some, arith, drop-length-append,
}
use kube_ssh.Text.{Str, ◌==◌, contains, has_prefix}
use kube_ssh.Text.Laws.{==_iff, ==_refl, has_prefix-eq, has_prefix-append}
use kube_ssh.Access.Locator.{Locator, parse_access_locator_for}

abbrev pub prefix_of : Locator → Str
prefix_of l = l.namespace ++ (b'.' ∷ l.access)

-- The user name is the Access, the Access and a Pod, or the Access and a container.
abbrev pub Addresses : Str → Locator → Type 0
Addresses ssh_user l =
    ((ssh_user ≡ prefix_of l) × (l.pod ≡ []) × (l.container ≡ []))
    ⊎ ((ssh_user ≡ (prefix_of l ++ (b'~' ∷ [])) ++ l.pod) × (l.pod ≢ []) × (l.container ≡ []))
    ⊎ ((ssh_user ≡ (prefix_of l ++ (b'.' ∷ [])) ++ l.container)
        × (l.pod ≡ [])
        × (l.container ≢ [])
        × (contains b'.' l.container ≡ false))

pub parse-Addresses :
    (ssh_user namespace name : Str) (l : Locator)
    → parse_access_locator_for ssh_user namespace name ≡ some l
    → (l.namespace ≡ namespace) × (l.access ≡ name) × Addresses ssh_user l
unfolding parse_access_locator_for
parse-Addresses ssh_user namespace name l h =
    let prefix = namespace ++ (b'.' ∷ name) in
    ground (
      arith,
      ==_iff ssh_user prefix,
      has_prefix-eq ssh_user (prefix ++ (b'~' ∷ [])),
      has_prefix-eq ssh_user (prefix ++ (b'.' ∷ [])),
    )

longer : (p r : Str) (c : ℕ) → ((p ++ (c ∷ [])) ++ r == p) ≡ false
unfolding ◌==◌
longer [] r c = refl
longer (d ∷ p) r c = ground (arith, longer p r c)

has_prefix-common :
    (p q r : Str) → has_prefix ((p ++ q) ++ r) (p ++ (b'~' ∷ [])) ≡ has_prefix (q ++ r) (b'~' ∷ [])
unfolding has_prefix
has_prefix-common [] q r = refl
has_prefix-common (d ∷ p) q r = ground (arith, has_prefix-common p q r)

pub Addresses-parse :
    (ssh_user : Str) (l : Locator)
    → Addresses ssh_user l
    → parse_access_locator_for ssh_user l.namespace l.access ≡ some l
unfolding parse_access_locator_for has_prefix
Addresses-parse ssh_user l (inl (e, np, nc)) = ground (arith, ==_refl ssh_user)
Addresses-parse ssh_user l (inr (inl (e, pod, nc))) =
    let prefix = prefix_of l in
    rw
      (
        e,
        longer prefix l.pod b'~',
        has_prefix-append (prefix ++ (b'~' ∷ [])) l.pod,
        drop-length-append (prefix ++ (b'~' ∷ [])) l.pod,
      )
      (ground arith)
Addresses-parse ssh_user l (inr (inr (e, np, container, plain))) =
    let prefix = prefix_of l in
    rw
      (
        e,
        longer prefix l.container b'.',
        has_prefix-common prefix (b'.' ∷ []) l.container,
        has_prefix-append (prefix ++ (b'.' ∷ [])) l.container,
        drop-length-append (prefix ++ (b'.' ∷ [])) l.container,
        plain,
      )
      (ground arith)
