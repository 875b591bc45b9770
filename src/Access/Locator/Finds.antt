-- ===== src/Access/Locator/Finds.antt =====
-- pkg/accesspolicy/resolver.go: what resolveAccessLocator finds.
use kube_ssh.Base.{
  ℕ, suc, ◌≡◌, refl, sym, ap, subst, ◌∙◌, ◌≢◌, inl, inr, Bool, true, false, [], ◌∷◌, ◌++◌, Option,
  none, some, Result, ok, err, access_not_found, take, drop, nat_eq, if◌then◌else◌, ◌||◌, arith,
  Option-cases,
}
use kube_ssh.Text.{Str, is_empty, contains, cut, last_index}
use kube_ssh.Text.Laws.{cut-eq}
use kube_ssh.Access.{Access}
use kube_ssh.Access.Authorizer.{AccessGetter}
use kube_ssh.Access.Locator.{
  Locator, located, locate_container, resolve_access_container_locator, locate_exact,
  locate_remainder, resolve_access_locator,
}
use kube_ssh.Access.Locator.Spelled.{prefix_of, Addresses}

pub located-ok :
    (l l' : Locator) (r : Result Access) (a : Access)
    → located l r ≡ ok (some (l', a))
    → (l ≡ l') × (r ≡ ok a)
unfolding located
located-ok l l' (ok b) a h = (ground arith, ground arith)
located-ok l l' (err access_not_found) a h = cc
located-ok l l' (err _) a h = cc

-- A separated name, grouped from the left.
regroup :
    (namespace name rest : Str) (c : ℕ)
    → namespace ++ (b'.' ∷ (name ++ (c ∷ rest)))
      ≡ ((namespace ++ (b'.' ∷ name)) ++ (c ∷ [])) ++ rest
regroup [] [] rest c = refl
regroup [] (d ∷ name) rest c = ground (arith, regroup [] name rest c)
regroup (d ∷ namespace) name rest c = ground (arith, regroup namespace name rest c)

last_index-none : (c : ℕ) (s : Str) → last_index c s ≡ none → contains c s ≡ false
unfolding last_index contains
last_index-none c [] h = refl
last_index-none c (d ∷ s) h = ground (arith, last_index-none c s)

last_index-head :
    (c d : ℕ) (s : Str) (i : ℕ)
    → last_index c s ≡ none
    → last_index c (d ∷ s) ≡ some i
    → (d ≡ c) × (i ≡ 0)
unfolding last_index
last_index-head c d s i n h = (ground arith, ground arith)

last_index-parts :
    (c : ℕ) (s : Str) (i : ℕ)
    → last_index c s ≡ some i
    → (s ≡ take i s ++ (c ∷ drop (suc i) s)) × (contains c (drop (suc i) s) ≡ false)
unfolding last_index contains
last_index-parts c [] i h = cc
last_index-parts c (d ∷ s) i h = elim (Option-cases (last_index c s)) [
  | inl n ↦ let (e, z) = last_index-head c d s i n h in rw (z, e) (refl, last_index-none c s n)
  | inr (j, e) ↦ ground (arith, last_index-parts c s j e)
]

-- The Access that the store has for the locator, which stands for the user name.
abbrev pub Finds : AccessGetter → Str → Locator → Access → Type 0
Finds store ssh_user l a = Addresses ssh_user l × (store l.namespace l.access ≡ ok a)

located-Finds :
    (store : AccessGetter) (ssh_user : Str) (l l' : Locator) (a : Access)
    → Addresses ssh_user l
    → located l (store l.namespace l.access) ≡ ok (some (l', a))
    → Finds store ssh_user l' a
located-Finds store ssh_user l l' a named h =
    let (same, found) = located-ok l l' (store l.namespace l.access) a h in
    subst (λ m. Finds store ssh_user m a) same (named, found)

-- A test that fails before the result.
guarded {ℓ} :
    {A : Type ℓ} {b : Bool} {r : Result (Option A)} {x : A}
    → (if b then ok none else r) ≡ ok (some x)
    → (b ≡ false) × (r ≡ ok (some x))
guarded {b = true} h = cc
guarded {b = false} h = (refl, h)

non_empty : (s : Str) (b : Bool) → (b || is_empty s) ≡ false → s ≢ []
non_empty [] true h = cc
non_empty [] false h = cc
non_empty (c ∷ s) b h = λ e. cc

locate_container-Finds :
    (store : AccessGetter) (namespace remainder : Str) (i : ℕ) (l : Locator) (a : Access)
    → last_index b'.' remainder ≡ some i
    → locate_container store namespace remainder i ≡ ok (some (l, a))
    → Finds store (namespace ++ (b'.' ∷ remainder)) l a
unfolding locate_container
locate_container-Finds store namespace remainder i l a at h =
    let (parts, plain) = last_index-parts b'.' remainder i at in
    let (fine, found) = guarded h in
    let container = drop (suc i) remainder in
    let m : Locator = record {
      namespace = namespace;
      access = take i remainder;
      pod = [];
      container = container;
    } in
    let user : namespace ++ (b'.' ∷ remainder) ≡ (prefix_of m ++ (b'.' ∷ [])) ++ container =
      ap (λ r. namespace ++ (b'.' ∷ r)) parts
      ∙ regroup namespace (take i remainder) container b'.' in
    located-Finds store (namespace ++ (b'.' ∷ remainder)) m l a
      (inr (inr (user, refl, non_empty (drop (suc i) remainder) (nat_eq i 0) fine, plain))) found

locate_exact-Finds :
    (store : AccessGetter) (namespace remainder : Str) (r : Result Access) (l : Locator)
    (a : Access)
    → store namespace remainder ≡ r
    → locate_exact store namespace remainder r ≡ ok (some (l, a))
    → Finds store (namespace ++ (b'.' ∷ remainder)) l a
unfolding locate_exact resolve_access_container_locator
locate_exact-Finds store namespace remainder (ok b) l a e h =
    located-Finds store (namespace ++ (b'.' ∷ remainder))
      (record { namespace = namespace; access = remainder; pod = []; container = [] }) l a
      (inl (refl, refl, refl)) (rw e h)
locate_exact-Finds store namespace remainder (err access_not_found) l a e h =
    elim (Option-cases (last_index b'.' remainder)) [
      | inl n ↦ ground arith
      | inr (i, at) ↦ ground (arith, locate_container-Finds store namespace remainder i l a at)
    ]
locate_exact-Finds store namespace remainder (err _) l a e h = cc

locate_remainder-pod :
    (store : AccessGetter) (namespace remainder name pod : Str)
    → cut b'~' remainder ≡ some (name, pod)
    → locate_remainder store namespace remainder ≡ (
        if is_empty name || is_empty pod
        then ok none
        else located
            (record { namespace = namespace; access = name; pod = pod; container = [] })
            (store namespace name))
unfolding locate_remainder
locate_remainder-pod store namespace remainder name pod parts = rw (locate_remainder, parts) refl

locate_remainder-Finds :
    (store : AccessGetter) (namespace remainder : Str) (l : Locator) (a : Access)
    → locate_remainder store namespace remainder ≡ ok (some (l, a))
    → Finds store (namespace ++ (b'.' ∷ remainder)) l a
unfolding locate_remainder
locate_remainder-Finds store namespace remainder l a h = elim (Option-cases (cut b'~' remainder)) [
  | inl whole ↦
      locate_exact-Finds store namespace remainder (store namespace remainder) l a refl
        (ground arith)
  | inr ((name, pod), parts) ↦
      let (e, plain) = cut-eq b'~' remainder name pod parts in
      let (fine, found) =
        guarded (sym (locate_remainder-pod store namespace remainder name pod parts) ∙ h) in
      let m : Locator = record {
        namespace = namespace;
        access = name;
        pod = pod;
        container = [];
      } in
      let user : namespace ++ (b'.' ∷ remainder) ≡ (prefix_of m ++ (b'~' ∷ [])) ++ pod =
        ap (λ r. namespace ++ (b'.' ∷ r)) e ∙ regroup namespace name pod b'~' in
      located-Finds store (namespace ++ (b'.' ∷ remainder)) m l a
        (inr (inl (user, non_empty pod (is_empty name) fine, refl))) found
]

access_locator-remainder :
    (store : AccessGetter) (ssh_user namespace remainder : Str)
    → cut b'.' ssh_user ≡ some (namespace, remainder)
    → resolve_access_locator store ssh_user ≡ (
        if is_empty namespace || is_empty remainder
        then ok none
        else locate_remainder store namespace remainder)
unfolding resolve_access_locator
access_locator-remainder store ssh_user namespace remainder parts =
    rw (resolve_access_locator, parts) refl

-- What resolveAccessLocator returns is in the store under the locator's namespace and name, and the
-- user name is that Access, or it and a Pod, or it and a container.
pub resolve_access_locator-Finds :
    (store : AccessGetter) (ssh_user : Str) (l : Locator) (a : Access)
    → resolve_access_locator store ssh_user ≡ ok (some (l, a))
    → Addresses ssh_user l × (store l.namespace l.access ≡ ok a)
unfolding resolve_access_locator
resolve_access_locator-Finds store ssh_user l a h = elim (Option-cases (cut b'.' ssh_user)) [
  | inl n ↦ ground arith
  | inr ((namespace, remainder), parts) ↦
      let (e, plain) = cut-eq b'.' ssh_user namespace remainder parts in
      let (fine, found) =
        guarded (sym (access_locator-remainder store ssh_user namespace remainder parts) ∙ h) in
      subst (λ u. Finds store u l a) (sym e)
        (locate_remainder-Finds store namespace remainder l a found)
]
