-- ===== src/Wildcard/Relation.antt =====
-- What it means for a value to match a pattern, with no search in it.
use kube_ssh.Base.{ℕ, ◌≡◌, ◌≢◌, inl, inr, [], ◌∷◌, Bool-cases, nat_eq, arith}
use kube_ssh.Text.{Str}
use kube_ssh.Wildcard.{star}

-- An asterisk stands for any bytes, none included; any other byte for itself.
pub data Matches : Str → Str → Type 0 where
  empty : Matches [] []
  byte : {c : ℕ} {p s : Str} → c ≢ star → Matches p s → Matches (c ∷ p) (c ∷ s)
  leave : {c : ℕ} {p s : Str} → c ≡ star → Matches p s → Matches (c ∷ p) s
  take : {c d : ℕ} {p s : Str} → c ≡ star → Matches (c ∷ p) s → Matches (c ∷ p) (d ∷ s)

pub Matches-self : (p : Str) → Matches p p
Matches-self [] = empty
Matches-self (c ∷ p) = elim (Bool-cases (nat_eq c star)) [
  | inl at ↦ let e : c ≡ star = ground arith in take e (leave e (Matches-self p))
  | inr other ↦ byte (ground arith) (Matches-self p)
]

pub Matches-star : {c : ℕ} (s : Str) → c ≡ star → Matches (c ∷ []) s
Matches-star [] e = leave e empty
Matches-star (d ∷ s) e = take e (Matches-star s e)
