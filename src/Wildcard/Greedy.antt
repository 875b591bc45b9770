-- ===== src/Wildcard/Greedy.antt =====
-- The greedy search over the parts finds a placement of the parts whenever there is one.
use kube_ssh.Base.{
  ℕ, ◌+◌, ◌≡◌, refl, sym, ap, ◌∙◌, ◌↔◌, ◌⊎◌, inl, inr, true, List, [], ◌∷◌, ◌++◌, some_inj, ◌||◌,
  none, some, length, drop, arith, append_assoc, append-nil, Option-cases,
}
use kube_ssh.Text.{Str, is_empty, has_suffix, index}
use kube_ssh.Text.Laws.{has_suffix_iff, index_leftmost, index-eq}
use kube_ssh.Wildcard.{skip_part, match_tail}

-- The parts behind the first, placed one after another with any gaps, the last one at the end.
abbrev pub Placed : List Str → Str → Type 0
Placed [] s = Unit
Placed (last ∷ []) s = (g : Str) × (s ≡ g ++ last)
Placed (part ∷ next ∷ more) s =
    (g : Str) × (r : Str) × (s ≡ g ++ (part ++ r)) × Placed (next ∷ more) r

-- A longer value has the placement too: the first gap grows.
pub Placed-extend : (parts : List Str) (h s : Str) → Placed parts s → Placed parts (h ++ s)
Placed-extend [] h s d = tt
Placed-extend (last ∷ []) h s (g, e) = (h ++ g, ap (◌++◌ h) e ∙ sym (append_assoc h g last))
Placed-extend (part ∷ next ∷ more) h s (g, r, e, d) =
    (h ++ g, r, ap (◌++◌ h) e ∙ sym (append_assoc h g (part ++ r)), d)

skip_part-eq : (part s r : Str) → skip_part part s ≡ some r → (g : Str) × (s ≡ g ++ (part ++ r))
unfolding skip_part
skip_part-eq [] s r h = ([], some_inj h)
skip_part-eq (c ∷ part) s r h = found (Option-cases (index s (c ∷ part)))
  where
    found :
        (index s (c ∷ part) ≡ none) ⊎ ((i : ℕ) × (index s (c ∷ part) ≡ some i))
        → (g : Str) × (s ≡ g ++ (c ∷ part ++ r))
    found (inl e) = absurd (ground arith)
    found (inr (i, e)) =
        let (g, eq) = index-eq s (c ∷ part) i e in
        let left : drop (i + length (c ∷ part)) s ≡ r = ground arith in (g, rw left at eq)

skip_part_leftmost :
    (part g r : Str) → (h : Str) × (skip_part part (g ++ (part ++ r)) ≡ some (h ++ r))
unfolding skip_part
skip_part_leftmost [] g r = (g, refl)
skip_part_leftmost (c ∷ part) g r =
    let (i, h, found, left) = index_leftmost g (c ∷ part) r in (h, rw (found, left))

last-Placed : (last s : Str) → ((is_empty last || has_suffix s last) ≡ true) ↔ Placed (last ∷ []) s
last-Placed [] s = (λ _. (s, sym (append-nil s)), λ _. refl)
last-Placed (c ∷ last) s = has_suffix_iff s (c ∷ last)

pub match_tail_sound : (parts : List Str) (s : Str) → match_tail parts s ≡ true → Placed parts s
unfolding match_tail
match_tail_sound [] s h = tt
match_tail_sound (last ∷ []) s h = (last-Placed last s).0 h
match_tail_sound (part ∷ next ∷ more) s h = elim (Option-cases (skip_part part s)) [
  | inl e ↦ absurd (ground arith)
  | inr (r, e) ↦
      let (g, eq) = skip_part-eq part s r e in
      (g, r, eq, match_tail_sound (next ∷ more) r (rw (e, match_tail) at h))
]

pub match_tail_complete : (parts : List Str) (s : Str) → Placed parts s → match_tail parts s ≡ true
unfolding match_tail
match_tail_complete [] s d = refl
match_tail_complete (last ∷ []) s d = (last-Placed last s).1 d
match_tail_complete (part ∷ next ∷ more) s (g, r, e, d) =
    let (h, at) = skip_part_leftmost part g r in
    rw (e, at, match_tail)
      (match_tail_complete (next ∷ more) (h ++ r) (Placed-extend (next ∷ more) h r d))
