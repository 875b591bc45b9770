-- ===== src/Authz/Deciding.antt =====
-- What the chain answers: the first authorizer that decides or fails.
use kube_ssh.Base.{
  List, [], ◌∷◌, ◌≡◌, refl, ◌≢◌, ◌↔◌, inl, inr, none, false, arith, Bool-cases, All, ◌∙◌, sym,
}
use mathlib.Core.Bool.{false≢true}
use kube_ssh.Authz.{Authorizer, Request, Answer, answer, no_opinion, allow, empty, returns, chain}

-- An authorizer passes a request on when it has no opinion and no error.
abbrev pub Passes : Request → Authorizer → Type 0
Passes req a = ((a req).decision ≡ no_opinion) × ((a req).error ≡ none)

pub Passes-returns : (req : Request) (a : Authorizer) → returns (a req) ≡ false → Passes req a
unfolding returns
Passes-returns req a h = ground arith

pub returns-Passes : (req : Request) (a : Authorizer) → Passes req a → returns (a req) ≡ false
unfolding returns
returns-Passes req a h = ground arith

-- `Decides req chained r`: the answer `r` comes from the first of `chained` that does not pass the request on.
pub data Decides (req : Request) : List Authorizer → Answer → Type 0 where
  none_left : Decides req [] (answer no_opinion empty)
  first :
      {a : Authorizer} {rest : List Authorizer} → ¬ Passes req a → Decides req (a ∷ rest) (a req)
  later :
      {a : Authorizer} {rest : List Authorizer} {r : Answer}
      → Passes req a
      → Decides req rest r
      → Decides req (a ∷ rest) r

-- `Chain.Authorize` answers by the first authorizer that decides or fails, and by "no opinion" when
-- all of them pass the request on.
pub chain-Decides :
    (chained : List Authorizer) (req : Request) → Decides req chained (chain chained req)
unfolding chain
chain-Decides [] req = none_left
chain-Decides (a ∷ rest) req = elim (Bool-cases (returns (a req))) [
  | inl stops ↦ rw stops (first (λ p. false≢true (sym (returns-Passes req a p) ∙ stops)))
  | inr goes ↦ rw goes (later (Passes-returns req a goes) (chain-Decides rest req))
]

-- No other answer has such a derivation.
pub Decides-unique :
    {req : Request} {chained : List Authorizer} {r : Answer}
    → Decides req chained r
    → chain chained req ≡ r
unfolding chain
Decides-unique none_left = refl
Decides-unique {req} (first {a = a} n) = elim (Bool-cases (returns (a req))) [
  | inl stops ↦ rw stops
  | inr goes ↦ absurd (n (Passes-returns req a goes))
]
Decides-unique {req} (later {a = a} p d) = rw (returns-Passes req a p) (Decides-unique d)

pub chain-cons-Passes :
    (a : Authorizer) (rest : List Authorizer) (req : Request)
    → Passes req a
    → chain (a ∷ rest) req ≡ chain rest req
unfolding chain
chain-cons-Passes a rest req p = rw (returns-Passes req a p)

module _ (a : Authorizer) (req : Request) where
  -- An authorizer that does not allow the request guards those behind it.
  pub chain-guard :
      (rest : List Authorizer)
      → (a req).decision ≢ allow
      → ((chain (a ∷ rest) req).decision ≡ allow)
        ↔ (Passes req a × ((chain rest req).decision ≡ allow))
  unfolding chain
  chain-guard rest never = elim (Bool-cases (returns (a req))) [
    | inl stops ↦ (
      λ h. absurd (never (rw stops at h)),
      λ h. absurd (false≢true (sym (returns-Passes req a h.0) ∙ stops)),
    )
    | inr goes ↦ rw goes (λ h. (Passes-returns req a goes, h), λ h. h.1)
  ]

  pub chain-single : (chain (a ∷ []) req).decision ≡ (a req).decision
  unfolding chain
  chain-single = elim (Bool-cases (returns (a req))) [
    | inl stops ↦ rw stops
    | inr goes ↦ rw goes (sym (Passes-returns req a goes).0)
  ]

-- What the chain allows, one of its authorizers allows.
pub chain-allow {ℓ} :
    (P : Authorizer → Type ℓ) (chained : List Authorizer) (req : Request)
    → All P chained
    → (chain chained req).decision ≡ allow
    → (a : Authorizer) × P a × ((a req).decision ≡ allow)
unfolding chain
chain-allow P [] req ps h = absurd (ground arith)
chain-allow P (a ∷ rest) req ps h = elim (Bool-cases (returns (a req))) [
  | inl stops ↦ (a, ps.0, rw stops at h)
  | inr goes ↦ chain-allow P rest req ps.1 (rw goes at h)
]
