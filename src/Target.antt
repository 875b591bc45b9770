-- ===== src/Target.antt =====
-- pkg/target/target.go: targets, hints, the resolver chain and the hint resolver.
use kube_ssh.Base.{
  Bool, true, false, List, [], ◌∷◌, ◌++◌, Option, none, some, Error, target_not_provided,
  bad_request, Result, ok, err, if◌then◌else◌, ◌||◌, not,
}
use kube_ssh.Text.{Str, codes, ◌==◌, elem, is_empty}
use kube_ssh.Dict.{Dict}
pub mod Chains
pub mod Hints

abbrev pub kind_pod : Str
kind_pod = codes "kube"

abbrev pub kind_external_ssh : Str
kind_external_ssh = codes "ssh"

-- The struct `Option`.
pub record TargetOption : Type 0 where
  pub key : Str
  pub value : Str

pub record Target : Type 0 where
  pub kind : Str
  pub options : List TargetOption
  pub runtime : Dict Str

pub record Hint : Type 0 where
  pub kind : Str
  pub options : List TargetOption
  pub aliases : List Str

pub record ResolveInput : Type 0 where
  pub ssh_user : Str
  pub user_name : Str
  pub auth_extra : Dict (List Str)
  pub source_ip : Str
  pub hints : List Hint

-- The interface. A resolver may keep state between calls.
abbrev pub Resolver : Type 0 → Type 0
Resolver S = S → ResolveInput → S × Result Target

-- errors.Is(err, ErrNotProvided)
abbrev pub is_not_provided : Error → Bool
is_not_provided target_not_provided = true
is_not_provided _ = false

abbrev pub ending : Option Error → Error
ending none = target_not_provided
ending (some last) = last

module _ {S : Type 0} where
  -- The loop of Chain.Resolve with its variable lastErr. `Next` is the rest of the loop.
  unfoldable pub step :
      S × Result Target → (S → Option Error → S × Result Target) → S × Result Target
  step (s, ok tgt) next = (s, ok tgt)
  step (s, err e) next = if not (is_not_provided e) then (s, err e) else next s (some e)

  unfoldable pub chain_from : List (Resolver S) → Option Error → Resolver S
  unfolding step
  chain_from [] last s input = (s, err (ending last))
  chain_from (resolver ∷ rest) last s input =
      step (resolver s input) (λ s' last'. chain_from rest last' s' input)

  unfoldable pub chain : List (Resolver S) → Resolver S
  unfolding chain_from
  chain resolvers = chain_from resolvers none

unfoldable pub options_complete : List TargetOption → Bool
options_complete [] = true
options_complete (option ∷ options) =
    if is_empty option.key || is_empty option.value then false else options_complete options

unfoldable pub new_target_from_hint : Hint → Result Target
unfolding options_complete
new_target_from_hint hint =
    if is_empty hint.kind
    then err bad_request
    else if not (options_complete hint.options)
    then err bad_request
    else if is_empty hint.options
    then err bad_request
    else ok (record { kind = hint.kind; options = hint.options; runtime = [] })

-- The first hint that has the alias.
unfoldable pub hint_with_alias : Str → List Hint → Option Hint
unfolding elem
hint_with_alias user [] = none
hint_with_alias user (hint ∷ hints) =
    if elem user hint.aliases then some hint else hint_with_alias user hints

only_hint : List Hint → Result Target
only_hint (hint ∷ []) = new_target_from_hint hint
only_hint _ = err bad_request

-- HintResolver.Resolve
unfoldable pub resolve_hint : ResolveInput → Result Target
unfolding hint_with_alias only_hint new_target_from_hint
resolve_hint input =
    if is_empty input.hints
    then err target_not_provided
    else if is_empty input.ssh_user
    then only_hint input.hints
    else elim (hint_with_alias input.ssh_user input.hints) [
      | some hint ↦ new_target_from_hint hint
      | none ↦ only_hint input.hints
    ]

unfoldable pub option_in : List TargetOption → Str → Str
unfolding ◌==◌
option_in [] key = []
option_in (option ∷ options) key = if option.key == key then option.value else option_in options key

-- Target.Option
unfoldable pub option : Target → Str → Str
unfolding option_in
option t key = option_in t.options key

unfoldable pub options_path : List TargetOption → Str
options_path [] = []
options_path (o ∷ os) = (b'/' ∷ o.key) ++ ((b'/' ∷ o.value) ++ options_path os)

-- Target.String
unfoldable pub to_string : Target → Str
unfolding options_path
to_string t = t.kind ++ options_path t.options
