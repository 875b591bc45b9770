-- ===== src/Wildcard/Correct.antt =====
-- `Match` answers the question that the relation `Matches` asks.
use kube_ssh.Base.{
  ℕ, ◌≡◌, refl, sym, ap, subst, ◌∙◌, ◌≢◌, ◌↔◌, inl, inr, true, false, List, In, [], ◌∷◌, ◌++◌,
  length, drop, arith, drop-length-append, nat_eq, Bool-cases,
}
use mathlib.Core.Bool.{false≢true}
use kube_ssh.Text.{Str, ◌==◌, has_prefix, split, contains}
use kube_ssh.Text.Laws.{
  ==_iff, has_prefix-eq, has_prefix-append, split-cons, split-contains, split-last,
}
use kube_ssh.Wildcard.{star, match_parts, match, match_any}
use kube_ssh.Wildcard.Relation.{Matches, empty, byte, leave, take, Matches-self, Matches-star}
use kube_ssh.Wildcard.Greedy.{Placed, Placed-extend, match_tail_sound, match_tail_complete}

-- The first part at the start of the value and the others placed behind it.
abbrev Laid : Str × List Str → Str → Type 0
Laid (first, []) s = s ≡ first
Laid (first, next ∷ more) s = (r : Str) × (s ≡ first ++ r) × Placed (next ∷ more) r

Laid-cons : (c : ℕ) (q : Str × List Str) (s : Str) → Laid q s → Laid (c ∷ q.0, q.1) (c ∷ s)
Laid-cons c (first, []) s e = ap (◌∷◌ c) e
Laid-cons c (first, next ∷ more) s (r, e, d) = (r, ap (◌∷◌ c) e, d)

Laid-uncons :
    (c : ℕ) (q : Str × List Str) (s : Str)
    → Laid (c ∷ q.0, q.1) s
    → (t : Str) × (s ≡ c ∷ t) × Laid q t
Laid-uncons c (first, []) s e = (first, e, refl)
Laid-uncons c (first, next ∷ more) s (r, e, d) = (first ++ r, e, (r, refl, d))

Placed-of_Laid : (q : Str × List Str) (s : Str) → Laid q s → Placed (q.0 ∷ q.1) s
Placed-of_Laid (first, []) s e = ([], e)
Placed-of_Laid (first, next ∷ more) s (r, e, d) = ([], r, e, d)

Laid-of_Placed :
    (q : Str × List Str) (s : Str)
    → Placed (q.0 ∷ q.1) s
    → (g : Str) × (t : Str) × (s ≡ g ++ t) × Laid q t
Laid-of_Placed (first, []) s (g, e) = (g, first, e, refl)
Laid-of_Placed (first, next ∷ more) s (g, r, e, d) = (g, first ++ r, e, (r, refl, d))

module _ {c : ℕ} (p : Str) where
  split-star : c ≡ star → split star (c ∷ p) ≡ ([], (split star p).0 ∷ (split star p).1)
  split-star e = rw (split-cons star c p) (ground arith)

  split-other : c ≢ star → split star (c ∷ p) ≡ (c ∷ (split star p).0, (split star p).1)
  split-other n = rw (split-cons star c p) (ground arith)

  Matches-gap : {s : Str} (g : Str) → c ≡ star → Matches p s → Matches (c ∷ p) (g ++ s)
  Matches-gap [] e d = leave e d
  Matches-gap (x ∷ g) e d = take e (Matches-gap g e d)

Laid-of_Matches : {p s : Str} → Matches p s → Laid (split star p) s
unfolding split
Laid-of_Matches empty = refl
Laid-of_Matches {s = c ∷ s} (byte {p = p} n d) =
    rw (split-other p n) (Laid-cons c (split star p) s (Laid-of_Matches d))
Laid-of_Matches {s} (leave {p = p} e d) =
    rw (split-star p e) (s, refl, Placed-of_Laid (split star p) s (Laid-of_Matches d))
Laid-of_Matches (take {d = x} {p = p} {s = s} e d) =
    let (r, eq, placed) = rw (split-star p e) at (Laid-of_Matches d) in
    rw (split-star p e)
      (x ∷ r, ap (◌∷◌ x) eq, Placed-extend ((split star p).0 ∷ (split star p).1) (x ∷ []) r placed)

Matches-of_Laid : (p s : Str) → Laid (split star p) s → Matches p s
unfolding split
Matches-of_Laid [] s e = rw e empty
Matches-of_Laid (c ∷ p) s h = elim (Bool-cases (nat_eq c star)) [
  | inl at ↦
      let e : c ≡ star = ground arith in
      let (r, eq, placed) = rw (split-star p e) at h in
      let (g, t, gap, laid) = Laid-of_Placed (split star p) r placed in
      rw (eq ∙ gap) (Matches-gap p g e (Matches-of_Laid p t laid))
  | inr other ↦
      let n : c ≢ star = ground arith in
      let (t, eq, laid) = Laid-uncons c (split star p) s (rw (split-other p n) at h) in
      rw eq (byte n (Matches-of_Laid p t laid))
]

match_parts_iff :
    (first next : Str) (more : List Str) (value : Str)
    → (match_parts (first, next ∷ more) value ≡ true) ↔ Laid (first, next ∷ more) value
unfolding match_parts
match_parts_iff [] next more value = (
  λ h. (value, refl, match_tail_sound (next ∷ more) value h),
  λ l. match_tail_complete (next ∷ more) value (rw (l.1) l.2),
)
match_parts_iff (c ∷ first) next more value = (
  λ h. elim (Bool-cases (has_prefix value (c ∷ first))) [
    | inl at ↦ (
      drop (length (c ∷ first)) value,
      has_prefix-eq value (c ∷ first) at,
      match_tail_sound (next ∷ more) _ (rw at at h),
    )
    | inr other ↦ absurd (ground arith)
  ],
  λ l. rw (
    l.1,
    has_prefix-append (c ∷ first) l.0,
    drop-length-append (c ∷ first) l.0,
    match_tail_complete (next ∷ more) l.0 l.2,
  ),
)

match_parts-Laid :
    (q : Str × List Str) (part : Str) (parts : List Str) (v : Str)
    → q.1 ≡ part ∷ parts
    → (match_parts q v ≡ true) ↔ Laid q v
match_parts-Laid (first, rest) part parts v e =
    subst (λ (r : List Str). (match_parts (first, r) v ≡ true) ↔ Laid (first, r) v) (sym e)
      (match_parts_iff first part parts v)

-- Without an asterisk only the pattern itself is laid out.
Laid-literal : (p v : Str) → contains star p ≡ false → Laid (split star p) v → v ≡ p
Laid-literal p v none_in laid = rw (split-last star p none_in) at laid

-- `Match` reports true exactly on the values that match the pattern.
pub match_iff : (p v : Str) → (match p v ≡ true) ↔ Matches p v
unfolding match
match_iff p v = elim (Bool-cases (p == v)) [
  | inl same ↦ (λ _. subst (Matches p) ((==_iff p v).0 same) (Matches-self p), λ _. rw same)
  | inr differ ↦ elim (Bool-cases (p == (star ∷ []))) [
    | inl any ↦
        (λ _. rw ((==_iff p (star ∷ [])).0 any) (Matches-star v refl), λ _. rw (differ, any))
    | inr other ↦ elim (Bool-cases (contains star p)) [
      | inl has ↦
          let (part, parts, e) = split-contains star p has in
          let answer = match_parts-Laid (split star p) part parts v e in
          rw (differ, other, has)
            (λ h. Matches-of_Laid p v (answer.0 h), λ m. answer.1 (Laid-of_Matches m))
      | inr has_not ↦
          rw (differ, other, has_not)
            (
              λ h. cc,
              λ m. absurd (
                  false≢true (
                    sym differ
                    ∙ (==_iff p v).1 (sym (Laid-literal p v has_not (Laid-of_Matches m))))),
            )
    ]
  ]
]

In-tail :
    (p q : Str) (ps : List Str) (v : Str)
    → match p v ≡ false
    → In q (p ∷ ps)
    → Matches q v
    → In q ps
In-tail p q ps v miss (inl e) m =
    absurd (false≢true (sym miss ∙ (match_iff p v).1 (subst (λ r. Matches r v) e m)))
In-tail p q ps v miss (inr at) m = at

-- `MatchAny` reports true exactly when one of the patterns matches the value.
pub match_any_iff :
    (ps : List Str) (v : Str) → (match_any ps v ≡ true) ↔ ((p : Str) × In p ps × Matches p v)
unfolding match_any
match_any_iff [] v = (λ h. cc, λ h. absurd h.1)
match_any_iff (p ∷ ps) v = elim (Bool-cases (match p v)) [
  | inl hit ↦ (λ _. (p, inl refl, (match_iff p v).0 hit), λ _. rw hit)
  | inr miss ↦ (
    λ h. let (q, at, m) = (match_any_iff ps v).0 (rw miss at h) in (q, inr at, m),
    λ h. rw miss ((match_any_iff ps v).1 (h.0, In-tail p h.0 ps v miss h.1 h.2, h.2)),
  )
]
