-- ===== src/Text/Laws.antt =====
-- Laws of the string functions.
use native.Mathlib.Nat.{zero-add, suc-add}
use kube_ssh.Base.{
  All, In, append_assoc, drop-append_le, some_inj, ℕ, zero, suc, ◌+◌, ◌-◌, ◌≤◌, ◌≡◌, refl, ap,
  subst, ◌∙◌, ◌≢◌, ◌↔◌, ◌⊎◌, inl, inr, true, false, List, [], ◌∷◌, ◌++◌, none, some, arith, length,
  drop, length-append, drop-length-append, Bool-cases, if◌then◌else◌, Option-cases, nat_eq,
}
use mathlib.Core.Option
use kube_ssh.Text.{join, elem, Str, ◌==◌, has_prefix, has_suffix, index, contains, cut, split}

pub ==_iff : (s t : Str) → ((s == t) ≡ true) ↔ (s ≡ t)
unfolding ◌==◌
==_iff [] [] = (λ _. refl, λ _. refl)
==_iff [] (d ∷ t) = (λ h. cc, λ h. cc)
==_iff (c ∷ s) [] = (λ h. cc, λ h. cc)
==_iff (c ∷ s) (d ∷ t) = ground (arith, ==_iff s t)

pub ==_refl : (s : Str) → (s == s) ≡ true
==_refl s = (==_iff s s).1 refl

pub ==_false : (s t : Str) → s ≢ t → (s == t) ≡ false
==_false s t n = ground (arith, ==_iff s t)

pub has_prefix-eq : (s p : Str) → has_prefix s p ≡ true → s ≡ p ++ drop (length p) s
unfolding has_prefix
has_prefix-eq s [] h = refl
has_prefix-eq [] (d ∷ p) h = cc
has_prefix-eq (c ∷ s) (d ∷ p) h = ground (arith, has_prefix-eq s p)

pub has_prefix-append : (p r : Str) → has_prefix (p ++ r) p ≡ true
unfolding has_prefix
has_prefix-append [] r = refl
has_prefix-append (c ∷ p) r = ground (arith, has_prefix-append p r)

pub drop-split : (n : ℕ) (s : Str) → n ≤ length s → (g : Str) × (s ≡ g ++ drop n s) × (length g ≡ n)
drop-split zero s h = ([], refl, refl)
drop-split (suc n) [] h = elim h [ ]
drop-split (suc n) (c ∷ s) h =
    let (g, e, l) = drop-split n s (omega arith) in (c ∷ g, ap (◌∷◌ c) e, ap suc l)

pub has_suffix_iff : (s p : Str) → (has_suffix s p ≡ true) ↔ ((g : Str) × (s ≡ g ++ p))
unfolding has_suffix
has_suffix_iff s p = (split_off, join)
  where
    split_off : has_suffix s p ≡ true → (g : Str) × (s ≡ g ++ p)
    split_off h =
        let (g, e, _) = drop-split (length s - length p) s (omega arith) in
        (g, e ∙ ap (◌++◌ g) ((==_iff _ p).0 (ground arith)))

    join : (g : Str) × (s ≡ g ++ p) → has_suffix s p ≡ true
    join (g, e) =
        let len = length-append g p in
        let gap : length (g ++ p) - length p ≡ length g = omega (arith, len) in
        rw (e, gap, drop-length-append g p, ==_refl p) (ground (arith, len))

index-prefix : (s p : Str) → has_prefix s p ≡ true → index s p ≡ some 0
unfolding index
index-prefix [] p h = rw h
index-prefix (c ∷ s) p h = rw h

drop-middle :
    (n : ℕ) (g p r : Str) → n ≤ length (g ++ p) → drop n (g ++ (p ++ r)) ≡ drop n (g ++ p) ++ r
drop-middle n g p r h = rw (← append_assoc g p r) (drop-append_le n (g ++ p) r h)

-- Where a part occurs, `index` finds an occurrence at least as far to the left: what it leaves
-- behind the part ends in what that occurrence leaves.
pub index_leftmost :
    (g p r : Str)
    → (i : ℕ) × (h : Str) × (index (g ++ (p ++ r)) p ≡ some i)
      × (drop (i + length p) (g ++ (p ++ r)) ≡ h ++ r)
unfolding index
index_leftmost [] p r =
    (0, [], index-prefix (p ++ r) p (has_prefix-append p r), rw zero-add (drop-length-append p r))
index_leftmost (c ∷ g) p r = elim (Bool-cases (has_prefix (c ∷ g ++ (p ++ r)) p)) [
  | inl at ↦ (
    0,
    drop (length p) (c ∷ g ++ p),
    rw at,
    rw zero-add (drop-middle (length p) (c ∷ g) p r (omega (arith, length-append g p))),
  )
  | inr later ↦
      let (i, h, found, left) = index_leftmost g p r in
      (suc i, h, rw (later, found), rw suc-add left)
]

at_start : (s p : Str) (i : ℕ) → has_prefix s p ≡ true → 0 ≡ i → s ≡ p ++ drop (i + length p) s
at_start s p i at zero_at =
    subst (λ k. s ≡ p ++ drop (k + length p) s) zero_at (rw zero-add (has_prefix-eq s p at))

pub index-eq :
    (s p : Str) (i : ℕ) → index s p ≡ some i → (g : Str) × (s ≡ g ++ (p ++ drop (i + length p) s))
unfolding index
index-eq [] p i h = elim (Bool-cases (has_prefix [] p)) [
  | inl at ↦ ([], at_start [] p i at (some_inj (rw at at h)))
  | inr never ↦ absurd (ground arith)
]
index-eq (c ∷ s) p i h = elim (Bool-cases (has_prefix (c ∷ s) p)) [
  | inl at ↦ ([], at_start (c ∷ s) p i at (some_inj (rw at at h)))
  | inr later ↦ shifted (index-eq s p) (Option-cases (index s p)) (rw later at h)
]
  where
    shifted :
        ((j : ℕ) → index s p ≡ some j → (g : Str) × (s ≡ g ++ (p ++ drop (j + length p) s)))
        → (index s p ≡ none) ⊎ ((j : ℕ) × (index s p ≡ some j))
        → Option.map suc (index s p) ≡ some i
        → (g : Str) × (c ∷ s ≡ g ++ (p ++ drop (i + length p) (c ∷ s)))
    shifted ih (inl e) k = absurd (ground arith)
    shifted ih (inr (j, e)) k =
        let (g, eq) = ih j e in
        let step : suc j ≡ i = ground arith in (c ∷ g, rw (← step, suc-add) (ap (◌∷◌ c) eq))

module _ (c : ℕ) where
  pub contains-append_false :
      (s t : Str) → contains c s ≡ false → contains c t ≡ false → contains c (s ++ t) ≡ false
  unfolding contains
  contains-append_false [] t h k = k
  contains-append_false (d ∷ s) t h k = ground (arith, contains-append_false s t)

  -- `cut` splits at the first separator.
  pub cut-eq : (s a b : Str) → cut c s ≡ some (a, b) → (s ≡ a ++ c ∷ b) × (contains c a ≡ false)
  unfolding cut contains
  cut-eq [] a b h = cc
  cut-eq (d ∷ s) [] b h = ground arith
  cut-eq (d ∷ s) (x ∷ a) b h = ground (arith, cut-eq s a b)

  pub cut-append : (a b : Str) → contains c a ≡ false → cut c (a ++ c ∷ b) ≡ some (a, b)
  unfolding cut contains
  cut-append [] b h = ground arith
  cut-append (d ∷ a) b h = ground (arith, cut-append a b)

  pub cut-none : (s : Str) → (cut c s ≡ none) ↔ (contains c s ≡ false)
  unfolding cut contains
  cut-none [] = (λ _. refl, λ _. refl)
  cut-none (d ∷ s) = ground (arith, cut-none s)

  pub split-last : (a : Str) → contains c a ≡ false → split c a ≡ (a, [])
  unfolding split contains
  split-last [] h = refl
  split-last (d ∷ a) h = ground (arith, split-last a)

  pub split-append :
      (a b : Str) → contains c a ≡ false → split c (a ++ c ∷ b) ≡ (a, (split c b).0 ∷ (split c b).1)
  unfolding split contains
  split-append [] b h = ground arith
  split-append (d ∷ a) b h = ground (arith, split-append a b)

  pub split-cons :
      (d : ℕ) (s : Str)
      → split c (d ∷ s) ≡ (
          if nat_eq d c
          then ([], (split c s).0 ∷ (split c s).1)
          else (d ∷ (split c s).0, (split c s).1))
  unfolding split
  split-cons d s = refl

  -- The separator occurs exactly where there is a second part.
  pub split-contains :
      (s : Str) → contains c s ≡ true → (p : Str) × (ps : List Str) × ((split c s).1 ≡ p ∷ ps)
  unfolding split contains
  split-contains [] h = cc
  split-contains (d ∷ s) h = elim (Bool-cases (nat_eq d c)) [
    | inl at ↦ ((split c s).0, (split c s).1, rw at)
    | inr later ↦ let (p, ps, e) = split-contains s (rw later at h) in (p, ps, rw (later, e))
  ]

pub elem_iff : (a : Str) (xs : List Str) → (elem a xs ≡ true) ↔ In a xs
unfolding elem
elem_iff a [] = (λ h. cc, λ h. absurd h)
elem_iff a (x ∷ xs) = ground (arith, ==_iff x a, elem_iff a xs)

module _ (c : ℕ) where
  abbrev pub Unseparated : Str × List Str → Type 0
  Unseparated (first, rest) = (contains c first ≡ false) × All (λ p. contains c p ≡ false) rest

  join-cons : (d : ℕ) (q : Str × List Str) → join c (d ∷ q.0, q.1) ≡ d ∷ join c q
  join-cons d (first, []) = refl
  join-cons d (first, next ∷ more) = refl

  -- `split` is undone by `join`, and leaves no separator in the parts.
  pub join-split : (s : Str) → (join c (split c s) ≡ s) × Unseparated (split c s)
  unfolding split contains
  join-split [] = (refl, (refl, tt))
  join-split (d ∷ s) = elim (Bool-cases (nat_eq d c)) [
    | inl at ↦
        let (e, (f, r)) = join-split s in
        let same : d ≡ c = ground arith in rw at (rw same (ap (◌∷◌ c) e), (refl, (f, r)))
    | inr other ↦
        let (e, (f, r)) = join-split s in
        rw other (join-cons d (split c s) ∙ ap (◌∷◌ d) e, (rw other f, r))
  ]
