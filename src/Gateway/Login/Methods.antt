-- ===== src/Gateway/Login/Methods.antt =====
-- Which configurations of the authentication methods are accepted.
use kube_ssh.Base.{
  ◌≡◌, refl, ◌≢◌, ◌↔◌, ◌⊎◌, inl, inr, true, List, [], ◌∷◌, Option, ok, err, internal, ◌>>=◌, In,
  if◌then◌else◌, Bool-cases, arith, ok_inj, ap, >>=-eq-ok,
}
use kube_ssh.Text.{Str, elem, is_empty}
use kube_ssh.Text.Laws.{==_iff, elem_iff}
use kube_ssh.Gateway.Login.{
  public_key_method, password_method, is_supported, check_methods, given_methods,
  enabled_authentication_methods,
}

abbrev pub Supported : Str → Type 0
Supported method = (method ≡ public_key_method) ⊎ (method ≡ password_method)

-- Supported methods, none of which stands twice or was seen before.
abbrev pub Distinct : List Str → List Str → Type 0
Distinct seen [] = Unit
Distinct seen (method ∷ methods) =
    Supported method × ¬ (In method seen) × Distinct (method ∷ seen) methods

is_supported_iff : (method : Str) → (is_supported method ≡ true) ↔ Supported method
unfolding is_supported
is_supported_iff method =
    ground (arith, ==_iff method public_key_method, ==_iff method password_method)

check-Distinct :
    (methods seen : List Str) → check_methods seen methods ≡ ok tt → Distinct seen methods
unfolding check_methods
check-Distinct [] seen h = tt
check-Distinct (method ∷ methods) seen h = elim (Bool-cases (is_supported method)) [
  | inl known ↦ elim (Bool-cases (elem method seen)) [
    | inl again ↦ absurd (ground arith)
    | inr fresh ↦ (
      (is_supported_iff method).0 known,
      λ seen_before. absurd (ground (arith, elem_iff method seen)),
      check-Distinct methods (method ∷ seen) (rw (known, fresh) at h),
    )
  ]
  | inr unknown ↦ absurd (ground arith)
]

Distinct-check :
    (methods seen : List Str) → Distinct seen methods → check_methods seen methods ≡ ok tt
unfolding check_methods
Distinct-check [] seen h = refl
Distinct-check (method ∷ methods) seen (known, fresh, rest) = elim (Bool-cases (elem method seen)) [
  | inl again ↦ absurd (fresh ((elem_iff method seen).0 again))
  | inr new ↦
      let supported = (is_supported_iff method).1 known in
      rw (supported, new) (Distinct-check methods (method ∷ seen) rest)
]

enabled-Distinct :
    (all methods : List Str)
    → (if is_empty all then err internal else check_methods [] all >>= λ _. ok all) ≡ ok methods
    → (all ≡ methods) × (all ≢ []) × Distinct [] all
enabled-Distinct [] methods h = cc
enabled-Distinct (first ∷ rest) methods h =
    let (_, checked, e) = >>=-eq-ok (check_methods [] (first ∷ rest)) _ h in
    (ok_inj e, λ empty. cc, check-Distinct (first ∷ rest) [] checked)

Distinct-enabled :
    (all methods : List Str)
    → (all ≡ methods) × (all ≢ []) × Distinct [] all
    → (if is_empty all then err internal else check_methods [] all >>= λ _. ok all) ≡ ok methods
Distinct-enabled [] methods (e, some_given, distinct) = absurd (some_given refl)
Distinct-enabled (first ∷ rest) methods (e, some_given, distinct) =
    rw (Distinct-check (first ∷ rest) [] distinct) (ap ok e)

-- The configuration of the methods is accepted exactly when the methods, both where none are given, are
-- at least one, each the public key or the password method, and none stands twice; and then they are what
-- is enabled.
pub enabled_iff :
    (given : Option (List Str)) (methods : List Str)
    → (enabled_authentication_methods given ≡ ok methods) ↔ (
        (given_methods given ≡ methods)
        × (given_methods given ≢ [])
        × Distinct [] (given_methods given))
unfolding enabled_authentication_methods
enabled_iff given methods =
    (enabled-Distinct (given_methods given) methods, Distinct-enabled (given_methods given) methods)
