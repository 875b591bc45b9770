-- ===== src/Target/Hints.antt =====
-- What a target that comes from an authentication hint looks like.
use kube_ssh.Base.{
  List, [], ◌∷◌, ◌≡◌, refl, ◌≢◌, ◌⊎◌, inl, inr, some, ok, In, All, true, arith, Bool-cases,
  Option-cases, ◌||◌,
}
use kube_ssh.Text.{Str, elem, is_empty}
use kube_ssh.Text.Laws.{elem_iff}
use kube_ssh.Target.{
  Target, TargetOption, Hint, ResolveInput, options_complete, new_target_from_hint, hint_with_alias,
  resolve_hint, only_hint,
}

abbrev pub IsComplete : TargetOption → Type 0
IsComplete o = (o.key ≢ []) × (o.value ≢ [])

options_complete-All :
    (options : List TargetOption) → options_complete options ≡ true → All IsComplete options
unfolding options_complete
options_complete-All [] h = tt
options_complete-All (o ∷ options) h = elim (Bool-cases (is_empty o.key || is_empty o.value)) [
  | inl missing ↦ absurd (ground arith)
  | inr there ↦ ((ground arith, ground arith), options_complete-All options (rw there at h))
]

-- The target is that of a hint which the SSH user's name selects, or of the only hint.
pub record FromHint (input : ResolveInput) (tgt : Target) : Type 0 where
  pub hint : Hint
  pub listed : In hint input.hints
  pub chosen : In input.ssh_user hint.aliases ⊎ (input.hints ≡ hint ∷ [])
  pub kind : (tgt.kind ≡ hint.kind) × (tgt.kind ≢ [])
  pub options : (tgt.options ≡ hint.options) × (tgt.options ≢ []) × All IsComplete tgt.options
  pub unbound : tgt.runtime ≡ []

abbrev TargetOf : Hint → Target → Type 0
TargetOf hint tgt =
    ((tgt.kind ≡ hint.kind) × (tgt.kind ≢ []))
    × ((tgt.options ≡ hint.options) × (tgt.options ≢ []) × All IsComplete tgt.options)
    × (tgt.runtime ≡ [])

new_target_from_hint-eq :
    (hint : Hint) (tgt : Target) → new_target_from_hint hint ≡ ok tgt → TargetOf hint tgt
unfolding new_target_from_hint
new_target_from_hint-eq hint tgt h = elim (Bool-cases (options_complete hint.options)) [
  | inl complete ↦
      let same : tgt.options ≡ hint.options = ground arith in
      (
        (ground arith, ground arith),
        (same, ground arith, rw same (options_complete-All hint.options complete)),
        ground arith,
      )
  | inr missing ↦ absurd (ground arith)
]

hint_with_alias-In :
    (user : Str) (hints : List Hint) {hint : Hint}
    → hint_with_alias user hints ≡ some hint
    → In hint hints × In user hint.aliases
unfolding hint_with_alias
hint_with_alias-In user [] h = absurd (ground arith)
hint_with_alias-In user (x ∷ hints) {hint} h = elim (Bool-cases (elem user x.aliases)) [
  | inl at ↦
      let same : hint ≡ x = ground arith in (inl same, rw same ((elem_iff user x.aliases).0 at))
  | inr later ↦
      let (there, alias) = hint_with_alias-In user hints (rw later at h) in (inr there, alias)
]

abbrev Only : List Hint → Target → Type 0
Only hints tgt = (hint : Hint) × (hints ≡ hint ∷ []) × TargetOf hint tgt

only_hint-eq : (hints : List Hint) (tgt : Target) → only_hint hints ≡ ok tgt → Only hints tgt
unfolding only_hint
only_hint-eq [] tgt h = absurd (ground arith)
only_hint-eq (hint ∷ []) tgt h = (hint, refl, new_target_from_hint-eq hint tgt h)
only_hint-eq (hint ∷ _ ∷ _) tgt h = absurd (ground arith)

from_Only : (input : ResolveInput) (tgt : Target) → Only input.hints tgt → FromHint input tgt
from_Only input tgt (hint, e, (k, o, r)) = record {
  hint = hint;
  listed = rw e (inl refl);
  chosen = inr e;
  kind = k;
  options = o;
  unbound = r;
}

-- A target that the hint resolver returns is that of one of the hints: the one that has the SSH
-- user's name among its aliases, or the only one. It has a kind and options, each with a key and a
-- value, and is not bound to a Pod.
pub resolve_hint-FromHint :
    (input : ResolveInput) (tgt : Target) → resolve_hint input ≡ ok tgt → FromHint input tgt
unfolding resolve_hint
resolve_hint-FromHint input tgt h =
    elim (Bool-cases (is_empty input.hints || is_empty input.ssh_user)) [
      | inl e ↦ from_Only input tgt (only_hint-eq input.hints tgt (ground arith))
      | inr e ↦ elim (Option-cases (hint_with_alias input.ssh_user input.hints)) [
        | inl n ↦ from_Only input tgt (only_hint-eq input.hints tgt (ground arith))
        | inr (hint, at) ↦
            let (there, alias) = hint_with_alias-In input.ssh_user input.hints at in
            let (k, o, r) = new_target_from_hint-eq hint tgt (ground arith) in
            record {
              hint = hint;
              listed = there;
              chosen = inl alias;
              kind = k;
              options = o;
              unbound = r;
            }
      ]
    ]
