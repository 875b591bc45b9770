-- ===== src/Base/Errors.antt =====
-- Go errors as values. A message is not modelled; what the callers tell apart is.
use mathlib.Core.Path.{◌≡◌, refl}
use mathlib.Core.Logic.{◌⊎◌, inl, inr}
use Prim.Native.Nat.{ℕ}

pub data Error : Type 0 where
  -- `authn.ErrNotProvided`, `target.ErrNotProvided`, `accesspolicy.ErrAccessNotFound`, wrapped or not.
  auth_not_provided target_not_provided access_not_found : Error
  -- The `apierrors` constructors that the code calls.
  bad_request unavailable forbidden conflict : Error
  -- Any other error that this code makes by `fmt.Errorf`, and an error of code outside it.
  internal : Error
  external : ℕ → Error
  -- `io.EOF` and `context.Canceled`, wrapped or not.
  eof canceled : Error
  -- A run-time panic: a division by zero or an index out of range.
  panic : Error

-- A value and a nil error, or an error.
pub data Result {ℓ} (Value : Type ℓ) : Type ℓ where
  err : Error → Result Value
  ok : Value → Result Value

pub Result-cases {ℓ} :
    {Value : Type ℓ} (given : Result Value)
    → ((value : Value) × (given ≡ ok value)) ⊎ ((error : Error) × (given ≡ err error))
Result-cases (err error) = inr (error, refl)
Result-cases (ok value) = inl (value, refl)

pub ok_inj {ℓ} : {Value : Type ℓ} {left right : Value} → ok left ≡ ok right → left ≡ right
ok_inj same = cc

-- `if err != nil { return err }` behind a call.
infixl 5 ◌>>=◌
abbrev pub ◌>>=◌ {ℓ κ} :
    {Value : Type ℓ} {Next : Type κ} → Result Value → (Value → Result Next) → Result Next
err error >>= next = err error
ok value >>= next = next value

pub >>=-eq-ok {ℓ κ} :
    {Value : Type ℓ} {Next : Type κ} (call : Result Value) (next : Value → Result Next)
    {last : Next}
    → (call >>= next) ≡ ok last
    → (value : Value) × (call ≡ ok value) × (next value ≡ ok last)
>>=-eq-ok (err error) next h = cc
>>=-eq-ok (ok value) next h = (value, refl, h)
