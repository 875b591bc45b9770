-- ===== src/Access/Methods.antt =====
-- pkg/accesspolicy/authentication_methods.go: the methods that an Access offers.
use kube_ssh.Base.{
  Bool, true, false, not, ◌||◌, List, [], ◌∷◌, ◌++◌, Option, none, some, Result, ok, ◌>>=◌,
  if◌then◌else◌, ℕ, zero, suc, ◌≡◌, ◌≢◌, refl, sym, subst, ◌⊎◌, inl, inr, In, >>=-eq-ok, ok_inj,
  get_elem?, keep, arith, Bool-cases, some_inj,
}
use kube_ssh.Text.{Str, codes, is_empty, elem}
use kube_ssh.Access.{Access, AccessCredential, LocalSecretKeyRef}
use kube_ssh.Access.Authorizer.{AccessGetter}
use kube_ssh.Access.Locator.{Locator, resolve_access_locator}
use kube_ssh.Access.Credentials.{
  PolicyCache, CredentialMatch, get, match_password, credential_passwords, referenced, secret_value,
  split_secret_lines,
}
use kube_ssh.Access.Credentials.Matching.{Holds}
use kube_ssh.Access.Credentials.Matched.{match_password-Holds, match_password-located}

-- The inner loops: some value is not empty.
unfoldable pub some_filled : List Str → Bool
some_filled [] = false
some_filled (value ∷ values) = not (is_empty value) || some_filled values

unfoldable pub takes_public_key : List AccessCredential → Bool
unfolding some_filled
takes_public_key [] = false
takes_public_key (c ∷ cs) =
    (not (is_empty c.public_keys_from) || some_filled c.public_keys) || takes_public_key cs

unfoldable pub takes_password : List AccessCredential → Bool
unfolding some_filled
takes_password [] = false
takes_password (c ∷ cs) =
    (not (is_empty c.passwords_from) || some_filled c.passwords) || takes_password cs

unfoldable pub methods_of : Option (Locator × Access) → Option (List Str)
unfolding takes_public_key takes_password
methods_of none = none
methods_of (some (l, access)) = some (
    (if takes_public_key access.spec.credentials then codes "publickey" ∷ [] else [])
    ++ (if takes_password access.spec.credentials then codes "password" ∷ [] else []))

-- AuthenticationMethods; `none` is found = false.
unfoldable pub authentication_methods : AccessGetter → Str → Result (Option (List Str))
unfolding methods_of resolve_access_locator
authentication_methods store ssh_user =
    resolve_access_locator store ssh_user >>= (λ found. ok (methods_of found))

kept-filled :
    (token : Str) (values from : List Str)
    → elem token (keep (λ value. not (is_empty value)) values ++ from) ≡ true
    → (some_filled values ≡ true) ⊎ (from ≢ [])
unfolding some_filled elem
kept-filled token [] [] h = cc
kept-filled token [] (f ∷ from) h = inr (λ e. cc)
kept-filled token ([] ∷ values) from h = kept-filled token values from h
kept-filled token ((b ∷ value) ∷ values) from h = inl refl

referenced-none :
    (read : Str → Result (List Str)) (refs : List LocalSecretKeyRef)
    (value_of : LocalSecretKeyRef → Result Str) (from : List Str)
    → referenced read refs value_of ≡ ok from
    → from ≢ []
    → is_empty refs ≡ false
unfolding referenced
referenced-none read [] value_of from h n = absurd (n (sym (ok_inj h)))
referenced-none read (r ∷ refs) value_of from h n = refl

Holds-takes :
    (c : PolicyCache) (namespace token : Str) (d : AccessCredential)
    → Holds (credential_passwords c namespace) token d
    → (not (is_empty d.passwords_from) || some_filled d.passwords) ≡ true
unfolding credential_passwords
Holds-takes c namespace token d (values, e, holds) =
    let (from, given, made) =
      >>=-eq-ok
        (referenced (λ value. ok (split_secret_lines value)) d.passwords_from
          (secret_value c namespace))
        _ e in
    elim (kept-filled token d.passwords from
      (subst (λ v. elem token v ≡ true) (sym (ok_inj made)) holds)) [
        | inl filled ↦ ground arith
        | inr some_ ↦ ground (
          arith,
          referenced-none (λ value. ok (split_secret_lines value)) d.passwords_from
              (secret_value c namespace) from given some_,
        )
      ]

takes_password-at :
    (cs : List AccessCredential) (i : ℕ) (d : AccessCredential)
    → get_elem? cs i ≡ some d
    → (not (is_empty d.passwords_from) || some_filled d.passwords) ≡ true
    → takes_password cs ≡ true
unfolding takes_password
takes_password-at [] i d h t = cc
takes_password-at (c ∷ cs) zero d h t = rw (some_inj h) (ground arith)
takes_password-at (c ∷ cs) (suc i) d h t = ground (arith, takes_password-at cs i d h t)

methods_of-password :
    (l : Locator) (a : Access)
    → takes_password a.spec.credentials ≡ true
    → (methods : List Str) × (methods_of (some (l, a)) ≡ some methods)
      × In (codes "password") methods
unfolding methods_of
methods_of-password l a h = elim (Bool-cases (takes_public_key a.spec.credentials)) [
  | inl both ↦ (codes "publickey" ∷ codes "password" ∷ [], rw (h, both) refl, inr (inl refl))
  | inr one ↦ (codes "password" ∷ [], rw (h, one) refl, inl refl)
]

-- Where a password login of a user name matches, the methods that the Access of that name offers are
-- found and have the password among them.
pub match_password-offered :
    (c : PolicyCache) (ssh_user token : Str) (m : CredentialMatch)
    → match_password c ssh_user token ≡ ok m
    → (methods : List Str) × (authentication_methods (get c) ssh_user ≡ ok (some methods))
      × In (codes "password") methods
unfolding authentication_methods
match_password-offered c ssh_user token m h =
    let (given, l', named, stored, i, place, holds) = match_password-Holds c ssh_user token m h in
    let (l, at) = match_password-located c ssh_user token m h in
    let takes =
      takes_password-at m.access.spec.credentials i m.credential place
        (Holds-takes c m.access.namespace token m.credential holds) in
    let (methods, e, offered) = methods_of-password l m.access takes in
    (methods, rw (at, e) refl, offered)
