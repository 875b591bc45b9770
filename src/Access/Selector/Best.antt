-- ===== src/Access/Selector/Best.antt =====
-- pkg/accesspolicy/strategy.go: what leastConnections, newest and oldest choose.
use kube_ssh.Base.{
  ℕ, suc, ◌+◌, ◌<◌, ◌≡◌, refl, ◌⊎◌, inl, inr, Bool, true, false, List, [], ◌∷◌, some, ltb,
  get_elem?, arith, Bool-cases, All, length,
}
use kube_ssh.Text.{Str, str_lt}
use kube_ssh.Access.Selector.{Candidate, best_from, best_index, newer, older}

-- A test that orders strictly the candidates with a property.
pub record IsStrict (Fine : Candidate → Type 0) (better : Candidate → Candidate → Bool)
    : Type 0 where
  pub irreflexive : (c : Candidate) → better c c ≡ false
  pub transitive :
      (a b c : Candidate)
      → Fine a
      → Fine b
      → Fine c
      → better a b ≡ true
      → better b c ≡ true
      → better a c ≡ true

module _ (Fine : Candidate → Type 0) (better : Candidate → Candidate → Bool)
    (strict : IsStrict Fine better) where
  abbrev Unbeaten : Candidate → List Candidate → Type 0
  Unbeaten b cs = All (λ d. better d b ≡ false) cs

  unbeaten_trans :
      (a b c : Candidate)
      → Fine a
      → Fine b
      → Fine c
      → better a c ≡ false
      → better b c ≡ true
      → better a b ≡ false
  unbeaten_trans a b c fa fb fc h g = elim (Bool-cases (better a b)) [
    | inl beats ↦ ground (arith, strict.transitive a b c fa fb fc beats g)
    | inr weak ↦ weak
  ]

  abbrev Chosen : Candidate → ℕ → ℕ → List Candidate → ℕ → Type 0
  Chosen b best i cs r =
      ((r ≡ best) × Unbeaten b cs)
      ⊎ ((k : ℕ) × (c : Candidate) × (r ≡ i + k)
          × (get_elem? cs k ≡ some c)
          × (better c b ≡ true)
          × Fine c
          × Unbeaten c cs)

  best_from-Chosen :
      (b : Candidate) (best i : ℕ) (cs : List Candidate)
      → Fine b
      → All Fine cs
      → Chosen b best i cs (best_from better b best i cs)
  unfolding best_from
  best_from-Chosen b best i [] fb fs = inl (refl, tt)
  best_from-Chosen b best i (c ∷ cs) fb (fc, fs) = elim (Bool-cases (better c b)) [
    | inl beats ↦ rw (beats) (elim (best_from-Chosen c i (suc i) cs fc fs) [
      | inl (e, all) ↦ inr (0, c, omega (arith, e), refl, beats, fc, (strict.irreflexive c, all))
      | inr (k, d, e, at, over, fd, all) ↦ inr (
        suc k,
        d,
        omega (arith, e),
        at,
        strict.transitive d c b fd fc fb over beats,
        fd,
        (unbeaten_trans c d c fc fd fc (strict.irreflexive c) over, all),
      )
    ])
    | inr weak ↦ rw (weak) (elim (best_from-Chosen b best (suc i) cs fb fs) [
      | inl (e, all) ↦ inl (e, (refl, all))
      | inr (k, d, e, at, over, fd, all) ↦
          inr (
            suc k,
            d,
            omega (arith, e),
            at,
            over,
            fd,
            (unbeaten_trans c d b fc fd fb weak over, all),
          )
    ])
  ]

  pub best_index-Unbeaten :
      (cs : List Candidate)
      → 0 < length cs
      → All Fine cs
      → (c : Candidate) × (get_elem? cs (best_index better cs) ≡ some c)
        × Fine c
        × All (λ d. better d c ≡ false) cs
  unfolding best_index
  best_index-Unbeaten [] h fs = elim h [ ]
  best_index-Unbeaten (b ∷ cs) h (fb, fs) = elim (best_from-Chosen b 0 1 cs fb fs) [
    | inl (e, all) ↦ (b, rw (e) refl, fb, (strict.irreflexive b, all))
    | inr (k, d, e, at, over, fd, all) ↦
        let place : best_from better b 0 1 cs ≡ suc k = omega (arith, e) in
        (d, rw (place) at, fd, (unbeaten_trans b d b fb fd fb (strict.irreflexive b) over, all))
  ]

pub str_lt-irreflexive : (s : Str) → str_lt s s ≡ false
unfolding str_lt
str_lt-irreflexive [] = refl
str_lt-irreflexive (c ∷ s) = ground (arith, str_lt-irreflexive s)

pub str_lt_trans : (r s t : Str) → str_lt r s ≡ true → str_lt s t ≡ true → str_lt r t ≡ true
unfolding str_lt
str_lt_trans [] [] t h g = ground arith
str_lt_trans [] (b ∷ s) [] h g = ground arith
str_lt_trans [] (b ∷ s) (c ∷ t) h g = ground arith
str_lt_trans (a ∷ r) [] t h g = ground arith
str_lt_trans (a ∷ r) (b ∷ s) [] h g = ground arith
str_lt_trans (a ∷ r) (b ∷ s) (c ∷ t) h g = ground (arith, str_lt_trans r s t)

abbrev Any : Candidate → Type 0
Any c = Unit {0}

newer-IsStrict : IsStrict Any newer
unfolding newer
newer-IsStrict = record {
  irreflexive = λ c. ground (arith, str_lt-irreflexive c.key);
  transitive = λ a b c fa fb fc h g. ground (arith, str_lt_trans a.key b.key c.key);
}

older-IsStrict : IsStrict Any older
unfolding older
older-IsStrict = record {
  irreflexive = λ c. ground (arith, str_lt-irreflexive c.key);
  transitive = λ a b c fa fb fc h g. ground (arith, str_lt_trans a.key b.key c.key);
}

anything : (cs : List Candidate) → All Any cs
anything [] = tt
anything (c ∷ cs) = (tt, anything cs)

pub All-map :
    {P Q : Candidate → Type 0} (f : (c : Candidate) → P c → Q c) (cs : List Candidate)
    → All P cs
    → All Q cs
All-map f [] h = tt
All-map f (c ∷ cs) (h, hs) = (f c h, All-map f cs hs)

-- Created before the candidate, or with it and not before it in the order of the keys.
abbrev pub NotNewer : Candidate → Candidate → Type 0
NotNewer c d =
    (d.created_at < c.created_at) ⊎ ((d.created_at ≡ c.created_at) × (str_lt d.key c.key ≡ false))

newer-NotNewer : (c d : Candidate) → newer d c ≡ false → NotNewer c d
unfolding newer
newer-NotNewer c d h = elim (Bool-cases (ltb d.created_at c.created_at)) [
  | inl earlier ↦ inl (ground arith)
  | inr later ↦ inr (ground arith, ground arith)
]

-- Of at least one candidate, Newest selects one such that each was created before it, or at its time
-- and has no smaller key.
pub newest-last :
    (cs : List Candidate)
    → 0 < length cs
    → (c : Candidate) × (get_elem? cs (best_index newer cs) ≡ some c) × All (NotNewer c) cs
newest-last cs h =
    let (c, at, fine, all) = best_index-Unbeaten Any newer newer-IsStrict cs h (anything cs) in
    (c, at, All-map (newer-NotNewer c) cs all)

-- Created behind the candidate, or with it and not before it in the order of the keys.
abbrev pub NotOlder : Candidate → Candidate → Type 0
NotOlder c d =
    (c.created_at < d.created_at) ⊎ ((d.created_at ≡ c.created_at) × (str_lt d.key c.key ≡ false))

older-NotOlder : (c d : Candidate) → older d c ≡ false → NotOlder c d
unfolding older
older-NotOlder c d h = elim (Bool-cases (ltb c.created_at d.created_at)) [
  | inl later ↦ inl (ground arith)
  | inr earlier ↦ inr (ground arith, ground arith)
]

-- Of at least one candidate, Oldest selects one such that each was created behind it, or at its time
-- and has no smaller key.
pub oldest-first :
    (cs : List Candidate)
    → 0 < length cs
    → (c : Candidate) × (get_elem? cs (best_index older cs) ≡ some c) × All (NotOlder c) cs
oldest-first cs h =
    let (c, at, fine, all) = best_index-Unbeaten Any older older-IsStrict cs h (anything cs) in
    (c, at, All-map (older-NotOlder c) cs all)
