-- ===== src/Dict.antt =====
-- Go maps with string keys, as association lists. A read of a missing key is the caller's zero value.
use mathlib.Core.Option
use kube_ssh.Base.{◌≡◌, List, [], ◌∷◌, Option, none, some, arith, if◌then◌else◌}
use kube_ssh.Text.{Str, ◌==◌}
use kube_ssh.Text.Laws.{==_iff}

abbrev pub Dict {ℓ} : Type ℓ → Type ℓ
Dict V = List (Str × V)

module _ {ℓ} {V : Type ℓ} where
  -- m[k], with found = false as `none`
  unfoldable pub lookup : Str → Dict V → Option V
  unfolding ◌==◌
  lookup key [] = none
  lookup key ((own, value) ∷ rest) = if own == key then some value else lookup key rest

  -- m[k], with a value for a missing key
  unfoldable pub get_or : Str → Dict V → V → V
  unfolding lookup
  get_or k m d = Option.get_or (lookup k m) d

  -- delete(m, k)
  unfoldable pub delete : Str → Dict V → Dict V
  unfolding ◌==◌
  delete k [] = []
  delete k ((j, v) ∷ m) = if j == k then delete k m else (j, v) ∷ delete k m

  -- m[k] = v
  unfoldable pub insert : Str → V → Dict V → Dict V
  unfolding delete
  insert k v m = (k, v) ∷ delete k m

  pub lookup-delete :
      (k j : Str) (m : Dict V) → lookup j (delete k m) ≡ (if k == j then none else lookup j m)
  unfolding lookup delete
  lookup-delete k j [] = ground arith
  lookup-delete k j ((i, v) ∷ m) =
      ground (arith, ==_iff i k, ==_iff i j, ==_iff k j, lookup-delete k j m)

  pub lookup-insert :
      (k j : Str) (v : V) (m : Dict V)
      → lookup j (insert k v m) ≡ (if k == j then some v else lookup j m)
  unfolding lookup insert
  lookup-insert k j v m = ground (arith, ==_iff k j, lookup-delete k j m)

-- `extra[key]` of a map[string][]string, and the first of its values or "": GetExtra, extraValue
-- and firstExtraValue are this one function.
unfoldable pub get_extra : Dict (List Str) → Str → Str
unfolding lookup
get_extra extra key = elim (lookup key extra) [ none ↦ [] | some values ↦ first values ]
  where
    first : List Str → Str
    first [] = []
    first (v ∷ vs) = v
