-- ===== src/Authn/Chain.antt =====
-- pkg/authn/chain.go and anonymous.go. `Credential` is what a method is called with: the SSH user
-- name and a password or a public key; AuthenticateBasic and AuthenticatePublicKey are one loop.
use kube_ssh.Base.{
  List, [], ◌∷◌, ◌≡◌, refl, ◌≢◌, ◌⊎◌, inl, inr, Bool, true, false, not, Error, auth_not_provided,
  Result, ok, err, if◌then◌else◌,
}
use mathlib.Core.Bool.{false≢true}
use kube_ssh.Text.{codes}
use kube_ssh.Authn.{AuthenticateInfo}

-- errors.Is(err, ErrNotProvided)
abbrev pub is_not_provided : Error → Bool
is_not_provided auth_not_provided = true
is_not_provided _ = false

pub provided_or : (e : Error) → (e ≡ auth_not_provided) ⊎ (is_not_provided e ≡ false)
provided_or auth_not_provided = inl refl
provided_or _ = inr refl

-- The interface, for one of its methods.
abbrev pub Authenticator : Type 0 → Type 0
Authenticator Credential = Credential → Result AuthenticateInfo

unfoldable pub step : Result AuthenticateInfo → Result AuthenticateInfo → Result AuthenticateInfo
step (ok info) rest = ok info
step (err e) rest = if not (is_not_provided e) then err e else rest

unfoldable pub chain :
    {Credential : Type 0} → List (Authenticator Credential) → Authenticator Credential
unfolding step
chain [] credential = err auth_not_provided
chain (authenticator ∷ rest) credential = step (authenticator credential) (chain rest credential)

unfoldable pub anonymous : {Credential : Type 0} → Credential → Result AuthenticateInfo
anonymous credential = ok (record {
  user = record {
    id = [];
    name = codes "anonymous";
    email = [];
    email_verified = false;
    groups = [];
    extra = [];
  };
  method = codes "anonymous";
  target_hints = [];
  extra = [];
})

module _ {Credential : Type 0} (credential : Credential) where
  abbrev pub Declines : Authenticator Credential → Type 0
  Declines a = a credential ≡ err auth_not_provided

  -- The authenticators before the deciding one decline; the one that decides gives the result.
  pub data Authenticates : List (Authenticator Credential) → Result AuthenticateInfo → Type 0 where
    nobody : Authenticates [] (err auth_not_provided)
    decides :
        {a : Authenticator Credential} {rest : List (Authenticator Credential)}
        {r : Result AuthenticateInfo}
        → a credential ≡ r
        → r ≢ err auth_not_provided
        → Authenticates (a ∷ rest) r
    declines :
        {a : Authenticator Credential} {rest : List (Authenticator Credential)}
        {r : Result AuthenticateInfo}
        → Declines a
        → Authenticates rest r
        → Authenticates (a ∷ rest) r

  step-Authenticates :
      (a : Authenticator Credential) (rest : List (Authenticator Credential))
      (q r : Result AuthenticateInfo)
      → a credential ≡ q
      → Authenticates rest r
      → Authenticates (a ∷ rest) (step q r)
  unfolding step
  step-Authenticates a rest (ok info) r e d = decides e (λ h. cc)
  step-Authenticates a rest (err x) r e d = elim (provided_or x) [
    | inl skipped ↦ rw skipped (declines (rw skipped at e) d)
    | inr failed ↦ rw failed (decides e (λ h. false≢true (cc failed)))
  ]

  -- The chain returns what its first authenticator returns that does not decline, be it an identity or
  -- an error; later authenticators are not asked.
  pub chain-Authenticates :
      (chained : List (Authenticator Credential)) → Authenticates chained (chain chained credential)
  unfolding chain
  chain-Authenticates [] = nobody
  chain-Authenticates (a ∷ rest) =
      step-Authenticates a rest (a credential) (chain rest credential) refl
        (chain-Authenticates rest)
