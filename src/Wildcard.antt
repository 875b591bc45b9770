-- ===== src/Wildcard.antt =====
-- pkg/wildcard/pattern.go: policy-neutral asterisk matching.
use kube_ssh.Base.{
  ℕ, ◌+◌, Bool, true, false, not, ◌||◌, List, [], ◌∷◌, Option, none, some, length, drop,
  if◌then◌else◌,
}
use mathlib.Core.Option
use kube_ssh.Text.{Str, ◌==◌, is_empty, has_prefix, has_suffix, index, contains, split}
pub mod Relation
pub mod Greedy
pub mod Correct

-- '*'
abbrev pub star : ℕ
star = 42

-- One round of the loop over the middle parts: what is left of the value behind the part.
unfoldable pub skip_part : Str → Str → Option Str
skip_part part rest =
    if is_empty part
    then some rest
    else Option.map (λ i. drop (i + length part) rest) (index rest part)

-- The loop over the middle parts and the test of the last one. `Split` returns two parts at least
-- where the separator occurs, so the parts behind the first are never none.
unfoldable pub match_tail : List Str → Str → Bool
unfolding skip_part
match_tail [] rest = true
match_tail (last ∷ []) rest = is_empty last || has_suffix rest last
match_tail (part ∷ next ∷ more) rest = elim (skip_part part rest) [
  | none ↦ false
  | some rest' ↦ match_tail (next ∷ more) rest'
]

-- The part of `Match` behind `Split`.
unfoldable pub match_parts : Str × List Str → Str → Bool
unfolding match_tail
match_parts (first, rest) value =
    if is_empty first
    then match_tail rest value
    else if has_prefix value first
    then match_tail rest (drop (length first) value)
    else false

unfoldable pub match : Str → Str → Bool
unfolding match_parts ◌==◌ has_prefix has_suffix index contains split
match pattern value =
    if (pattern == value) || (pattern == (star ∷ []))
    then true
    else if not (contains star pattern)
    then false
    else match_parts (split star pattern) value

unfoldable pub match_any : List Str → Str → Bool
unfolding match
match_any [] value = false
match_any (candidate ∷ patterns) value =
    if match candidate value then true else match_any patterns value
