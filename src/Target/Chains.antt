-- ===== src/Target/Chains.antt =====
-- What the resolver chain returns, with its state.
use kube_ssh.Base.{
  List, [], ◌∷◌, ◌≡◌, refl, ◌≢◌, ◌⊎◌, inl, inr, Option, none, some, Error, target_not_provided,
  Result, ok, err, false,
}
use mathlib.Core.Bool.{false≢true}
use kube_ssh.Target.{
  Target, ResolveInput, Resolver, ending, step, chain_from, chain, is_not_provided,
}

pub provided_or : (e : Error) → (e ≡ target_not_provided) ⊎ (is_not_provided e ≡ false)
provided_or target_not_provided = inl refl
provided_or _ = inr refl

module _ {S : Type 0} (input : ResolveInput) where
  -- `Resolves s resolvers s' r`: from state `s` the resolvers are asked in order, each in the state
  -- that the one before left; `r` is the first result that is not "not provided".
  pub data Resolves : S → List (Resolver S) → S → Result Target → Type 0 where
    unprovided : {s : S} → Resolves s [] s (err target_not_provided)
    answered :
        {s s' : S} {resolver : Resolver S} {rest : List (Resolver S)} {r : Result Target}
        → resolver s input ≡ (s', r)
        → r ≢ err target_not_provided
        → Resolves s (resolver ∷ rest) s' r
    asked :
        {s s' t : S} {resolver : Resolver S} {rest : List (Resolver S)} {r : Result Target}
        → resolver s input ≡ (s', err target_not_provided)
        → Resolves s' rest t r
        → Resolves s (resolver ∷ rest) t r

  -- The state and the result of the chain.
  abbrev pub Outcome : S → List (Resolver S) → S × Result Target → Type 0
  Outcome s resolvers (t, r) = Resolves s resolvers t r

  step-Resolves :
      (s : S) (resolver : Resolver S) (rest : List (Resolver S)) (q : S × Result Target)
      (next : S → Option Error → S × Result Target)
      → resolver s input ≡ q
      → ((t : S) (last : Option Error)
          → ending last ≡ target_not_provided
          → Outcome t rest (next t last))
      → Outcome s (resolver ∷ rest) (step q next)
  unfolding step
  step-Resolves s resolver rest (t, ok tgt) next e ih = answered e (λ h. cc)
  step-Resolves s resolver rest (t, err x) next e ih = elim (provided_or x) [
    | inl skipped ↦ rw skipped (asked (rw skipped at e) (ih t (some target_not_provided) refl))
    | inr failed ↦ rw failed (answered e (λ h. false≢true (cc failed)))
  ]

  chain_from-Resolves :
      (resolvers : List (Resolver S)) (last : Option Error) (s : S)
      → ending last ≡ target_not_provided
      → Outcome s resolvers (chain_from resolvers last s input)
  unfolding chain_from
  chain_from-Resolves [] last s e = rw e unprovided
  chain_from-Resolves (resolver ∷ rest) last s e =
      step-Resolves s resolver rest (resolver s input) _ refl
        (λ t last'. chain_from-Resolves rest last' t)

  -- The chain asks its resolvers in order, threading the state, and returns the first result that is
  -- not "not provided"; if there is none it returns "not provided".
  pub chain-Resolves :
      (resolvers : List (Resolver S)) (s : S) → Outcome s resolvers (chain resolvers s input)
  unfolding chain
  chain-Resolves resolvers s = chain_from-Resolves resolvers none s refl
