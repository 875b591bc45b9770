-- ===== src/Access/Credentials/Matched.antt =====
-- pkg/accesspolicy/policy_cache.go: which credential a login matches.
use kube_ssh.Base.{
  ℕ, ◌≡◌, refl, sym, ap, subst, ◌∙◌, ◌≢◌, List, [], ◌∷◌, Option, none, some, Result, ok, ◌>>=◌,
  >>=-eq-ok, get_elem?,
}
use kube_ssh.Text.{Str}
use kube_ssh.Access.{Access, AccessCredential}
use kube_ssh.Access.Locator.{Locator, resolve_access_locator}
use kube_ssh.Access.Locator.Spelled.{Addresses}
use kube_ssh.Access.Locator.Finds.{resolve_access_locator-Finds}
use kube_ssh.Access.Credentials.{
  PolicyCache, CredentialMatch, get, match_in, match_password, credential_passwords,
  match_public_key, credential_public_keys,
}
use kube_ssh.Access.Credentials.Matching.{Holds, Only, credentials-Only}

match_in-Only :
    (values_of : Str → AccessCredential → Result (List Str)) (secret : Str)
    (found : Option (Locator × Access)) (m : CredentialMatch)
    → match_in values_of secret found ≡ ok m
    → (l : Locator) × (found ≡ some (l, m.access))
      × Only (values_of m.access.namespace) secret m.access m.credential
unfolding match_in
match_in-Only values_of secret none m h = cc
match_in-Only values_of secret (some (l, a)) m h =
    let (same, only) = credentials-Only (values_of a.namespace) secret a m h in
    (
      l,
      ap (λ b. some (l, b)) (sym same),
      subst (λ b. Only (values_of b.namespace) secret b m.credential) (sym same) only,
    )

located-match :
    (c : PolicyCache) (ssh_user secret : Str) (m : CredentialMatch)
    (values_of : Str → AccessCredential → Result (List Str))
    → (resolve_access_locator (get c) ssh_user >>= match_in values_of secret) ≡ ok m
    → (l : Locator) × (resolve_access_locator (get c) ssh_user ≡ ok (some (l, m.access)))
      × Only (values_of m.access.namespace) secret m.access m.credential
located-match c ssh_user secret m values_of h =
    let (found, e, h1) = >>=-eq-ok (resolve_access_locator (get c) ssh_user) _ h in
    let (l, at, only) = match_in-Only values_of secret found m h1 in (l, e ∙ ap ok at, only)

password-parts :
    (c : PolicyCache) (ssh_user token : Str) (m : CredentialMatch)
    → match_password c ssh_user token ≡ ok m
    → (token ≢ [])
      × ((resolve_access_locator (get c) ssh_user >>= match_in (credential_passwords c) token)
          ≡ ok m)
unfolding match_password
password-parts c ssh_user [] m h = cc
password-parts c ssh_user (b ∷ token) m h = ((λ n. cc), h)

-- The Access of a password match is the one that the user name stands for.
pub match_password-located :
    (c : PolicyCache) (ssh_user token : Str) (m : CredentialMatch)
    → match_password c ssh_user token ≡ ok m
    → (l : Locator) × (resolve_access_locator (get c) ssh_user ≡ ok (some (l, m.access)))
match_password-located c ssh_user token m h =
    let (l, e, only) =
      located-match c ssh_user token m (credential_passwords c)
        (password-parts c ssh_user token m h).1 in
    (l, e)

-- Where a password login matches, the password is not empty, the user name stands for the matched
-- Access, which the cache has, and the matched credential is one of that Access, whose passwords, with
-- those of its Secrets, hold the password.
pub match_password-Holds :
    (c : PolicyCache) (ssh_user token : Str) (m : CredentialMatch)
    → match_password c ssh_user token ≡ ok m
    → (token ≢ [])
      × (l : Locator) × Addresses ssh_user l
      × (get c l.namespace l.access ≡ ok m.access)
      × (i : ℕ) × (get_elem? m.access.spec.credentials i ≡ some m.credential)
      × Holds (credential_passwords c m.access.namespace) token m.credential
match_password-Holds c ssh_user token m h =
    let (given, h1) = password-parts c ssh_user token m h in
    let (l, e, (i, place, holds, only)) =
      located-match c ssh_user token m (credential_passwords c) h1 in
    let (named, stored) = resolve_access_locator-Finds (get c) ssh_user l m.access e in
    (given, l, named, stored, i, place, holds)

-- Where a password login matches, two credentials of the matched Access that hold the password stand
-- at the same index of its list.
pub match_password_unique :
    (c : PolicyCache) (ssh_user token : Str) (m : CredentialMatch) (i j : ℕ)
    (one other : AccessCredential)
    → match_password c ssh_user token ≡ ok m
    → get_elem? m.access.spec.credentials i ≡ some one
    → get_elem? m.access.spec.credentials j ≡ some other
    → Holds (credential_passwords c m.access.namespace) token one
    → Holds (credential_passwords c m.access.namespace) token other
    → i ≡ j
match_password_unique c ssh_user token m i j one other h pi pj hi hj =
    let (l, e, (k, place, holds, only)) =
      located-match c ssh_user token m (credential_passwords c)
        (password-parts c ssh_user token m h).1 in
    only i one pi hi ∙ sym (only j other pj hj)

-- Where a public key login matches, a key is given, the user name stands for the matched Access, which
-- the cache has, and the matched credential is one of that Access, whose keys, with those of its
-- Secrets, have the key's fingerprint.
pub match_public_key-Holds :
    (parse : Str → Result Str) (c : PolicyCache) (ssh_user : Str) (key : Option Str)
    (m : CredentialMatch)
    → match_public_key parse c ssh_user key ≡ ok m
    → (fingerprint : Str) × (key ≡ some fingerprint)
      × (l : Locator) × Addresses ssh_user l
      × (get c l.namespace l.access ≡ ok m.access)
      × (i : ℕ) × (get_elem? m.access.spec.credentials i ≡ some m.credential)
      × Holds (credential_public_keys parse c m.access.namespace) fingerprint m.credential
unfolding match_public_key
match_public_key-Holds parse c ssh_user none m h = cc
match_public_key-Holds parse c ssh_user (some fingerprint) m h =
    let (l, e, (i, place, holds, only)) =
      located-match c ssh_user fingerprint m (credential_public_keys parse c) h in
    let (named, stored) = resolve_access_locator-Finds (get c) ssh_user l m.access e in
    (fingerprint, refl, l, named, stored, i, place, holds)
