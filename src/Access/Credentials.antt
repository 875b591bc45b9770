-- ===== src/Access/Credentials.antt =====
-- pkg/accesspolicy/policy_cache.go, context.go and authenticator.go: the cache of the policies and
-- the login through an Access. The informer's indexers are parameters: what GetByKey returns for a
-- key. So is the parsing of a public key, whose result is the fingerprint. A set of strings is a list.
-- strings.TrimSpace trims ASCII white space here.
use kube_ssh.Base.{
  ℕ, zero, suc, Bool, true, false, not, List, [], ◌∷◌, ◌++◌, map, keep, Option, none, some,
  auth_not_provided, access_not_found, internal, panic, Result, ok, err, ◌>>=◌, get_elem?, nat_eq,
  leb, if◌then◌else◌, ◌||◌, ◌&&◌,
}
use kube_ssh.Text.{Str, codes, ◌==◌, is_empty, elem, split}
use kube_ssh.Dict.{Dict, lookup}
use kube_ssh.Authn.{UserInfo, AuthenticateInfo}
use kube_ssh.Access.{
  Access, AccessCredential, LocalSecretKeyRef, access_key, gateway_class_name,
  extra_access_namespace, extra_access_name, extra_credential_user, extra_credential_type,
}
use kube_ssh.Access.Authorizer.{AccessGetter}
use kube_ssh.Access.Locator.{Locator, resolve_access_locator}
pub mod Matching
pub mod Matched
pub mod Login

-- An object of a cache: of the expected type, or of another.
pub data Cached (A : Type 0) : Type 0 where
  missing alien : Cached A
  object : A → Cached A

abbrev pub Indexer : Type 0 → Type 0
Indexer A = Str → Result (Cached A)

-- An indexer that is nil is `none`; a Secret is its Data.
pub record PolicyCache : Type 0 where
  pub access_indexer : Option (Indexer Access)
  pub secret_indexer : Option (Indexer (Dict Str))
  pub namespace : Str
  pub gateway_class_name : Str

unfoldable pub accept_access : PolicyCache → Access → Bool
unfolding gateway_class_name ◌==◌
accept_access c access =
    if not (is_empty c.namespace) && not (access.namespace == c.namespace)
    then false
    else gateway_class_name access == c.gateway_class_name

unfoldable pub accepted : PolicyCache → Cached Access → Result Access
unfolding accept_access
accepted c missing = err access_not_found
accepted c alien = err internal
accepted c (object access) =
    if not (accept_access c access) then err access_not_found else ok access

-- PolicyCache.Get
unfoldable pub get : PolicyCache → AccessGetter
unfolding accepted access_key
get c namespace name = elim c.access_indexer [
  | none ↦ err internal
  | some indexer ↦
      if not (is_empty c.namespace) && not (namespace == c.namespace)
      then err access_not_found
      else indexer (access_key namespace name) >>= accepted c
]

abbrev is_space : ℕ → Bool
is_space c = nat_eq c 32 || (leb 9 c && leb c 13)

unfoldable pub trim_left : Str → Str
trim_left [] = []
trim_left (c ∷ s) = if is_space c then trim_left s else c ∷ s

unfoldable pub trim_right : Str → Str
trim_right [] = []
trim_right (c ∷ s) = let rest = trim_right s in if is_space c && is_empty rest then [] else c ∷ rest

abbrev trim_space : Str → Str
trim_space s = trim_left (trim_right s)

unfoldable pub split_secret_lines : Str → List Str
unfolding split trim_left trim_right
split_secret_lines value =
    let (first, rest) = split 10 value in
    keep (λ line. not (is_empty line)) (map trim_space (first ∷ rest))

unfoldable pub secret_key : Str → Cached (Dict Str) → Result Str
unfolding lookup
secret_key key missing = err internal
secret_key key alien = err internal
secret_key key (object data_) = elim (lookup key data_) [
  | none ↦ err internal
  | some value ↦ ok value
]

unfoldable pub secret_value : PolicyCache → Str → LocalSecretKeyRef → Result Str
unfolding secret_key access_key
secret_value c namespace ref =
    if is_empty ref.name || is_empty ref.key then err internal else elim c.secret_indexer [
      | none ↦ err internal
      | some indexer ↦ indexer (access_key namespace ref.name) >>= secret_key ref.key
    ]

-- The loops over the references of credentialPasswords and credentialPublicKeys: the lines of the
-- values, each line mapped by `read`.
unfoldable pub referenced :
    (Str → Result (List Str))
    → List LocalSecretKeyRef
    → (LocalSecretKeyRef → Result Str)
    → Result (List Str)
referenced read [] value_of = ok []
referenced read (ref ∷ refs) value_of = do
  value ← value_of ref
  here ← read value
  rest ← referenced read refs value_of
  ok (here ++ rest)

unfoldable pub credential_passwords : PolicyCache → Str → AccessCredential → Result (List Str)
unfolding referenced secret_value split_secret_lines
credential_passwords c namespace credential = do
  from ←
      referenced (λ value. ok (split_secret_lines value)) credential.passwords_from
        (secret_value c namespace)
  ok (keep (λ value. not (is_empty value)) credential.passwords ++ from)

-- The loops of credentialPublicKeys on some lines: an invalid key is an error.
unfoldable pub fingerprints : (Str → Str) → List Str → Result (List Str)
fingerprints key_fingerprint [] = ok []
fingerprints key_fingerprint (line ∷ lines) =
    if is_empty (key_fingerprint line)
    then err internal
    else (fingerprints key_fingerprint lines >>= (λ rest. ok (key_fingerprint line ∷ rest)))

-- keyFingerprint, on the parameter `parse`: the fingerprint of an authorized-keys line.
unfoldable pub key_fingerprint : (Str → Result Str) → Str → Str
unfolding trim_left trim_right
key_fingerprint parse line =
    let trimmed = trim_space line in
    if is_empty trimmed
    then []
    else elim (parse trimmed) [ ok fingerprint ↦ fingerprint | err e ↦ [] ]

unfoldable pub credential_public_keys :
    (Str → Result Str) → PolicyCache → Str → AccessCredential → Result (List Str)
unfolding referenced secret_value split_secret_lines fingerprints key_fingerprint
credential_public_keys parse c namespace credential = do
  own ← fingerprints (key_fingerprint parse) credential.public_keys
  from ←
      referenced (λ value. fingerprints (key_fingerprint parse) (split_secret_lines value))
        credential.public_keys_from (secret_value c namespace)
  ok (own ++ from)

pub record CredentialMatch : Type 0 where
  pub access : Access
  pub credential : AccessCredential

-- The loop over the credentials from index i: those whose values hold the secret.
unfoldable pub matching_from :
    (AccessCredential → Result (List Str)) → Str → ℕ → List AccessCredential → Result (List ℕ)
unfolding elem
matching_from values_of secret i [] = ok []
matching_from values_of secret i (credential ∷ credentials) = do
  values ← values_of credential
  rest ← matching_from values_of secret (suc i) credentials
  ok (if elem secret values then i ∷ rest else rest)

unfoldable pub credential_match : Access → List ℕ → Result CredentialMatch
credential_match access [] = err auth_not_provided
credential_match access (i ∷ []) = elim (get_elem? access.spec.credentials i) [
  | none ↦ err panic
  | some credential ↦ ok (record { access = access; credential = credential })
]
credential_match access (i ∷ j ∷ more) = err internal

-- The parts of MatchPassword and MatchPublicKey behind the first test, with the secret or the
-- fingerprint: they differ in the values of a credential only.
unfoldable pub match_in :
    (Str → AccessCredential → Result (List Str))
    → Str
    → Option (Locator × Access)
    → Result CredentialMatch
unfolding matching_from credential_match
match_in values_of secret none = err auth_not_provided
match_in values_of secret (some (l, access)) =
    matching_from (values_of access.namespace) secret 0 access.spec.credentials
    >>= credential_match access

unfoldable pub match_password : PolicyCache → Str → Str → Result CredentialMatch
unfolding match_in credential_passwords get resolve_access_locator
match_password c ssh_user token =
    if is_empty token
    then err auth_not_provided
    else (resolve_access_locator (get c) ssh_user >>= match_in (credential_passwords c) token)

-- The public key is its fingerprint; a nil key is `none`.
unfoldable pub match_public_key :
    (Str → Result Str) → PolicyCache → Str → Option Str → Result CredentialMatch
unfolding match_in credential_public_keys get resolve_access_locator
match_public_key parse c ssh_user none = err auth_not_provided
match_public_key parse c ssh_user (some fingerprint) =
    resolve_access_locator (get c) ssh_user
    >>= match_in (credential_public_keys parse c) fingerprint

unfoldable pub auth_extra : CredentialMatch → Str → Dict (List Str)
auth_extra match type =
    (extra_access_namespace, match.access.namespace ∷ [])
    ∷ (extra_access_name, match.access.name ∷ [])
    ∷ (extra_credential_user, match.credential.username ∷ [])
    ∷ (extra_credential_type, type ∷ [])
    ∷ []

unfoldable pub match_user : CredentialMatch → UserInfo
match_user match = record {
  id = match.credential.uid;
  name = match.credential.username;
  email = [];
  email_verified = false;
  groups = match.credential.groups;
  extra = match.credential.extra;
}

-- Authenticator.AuthenticateBasic
unfoldable pub authenticate_basic : PolicyCache → Str → Str → Result AuthenticateInfo
unfolding match_password match_user auth_extra
authenticate_basic c ssh_user password = do
  match ← match_password c ssh_user password
  ok (record {
    user = match_user match;
    method = codes "crd-password";
    target_hints = [];
    extra = auth_extra match (codes "password");
  })

-- Authenticator.AuthenticatePublicKey
unfoldable pub authenticate_public_key :
    (Str → Result Str) → PolicyCache → Str → Option Str → Result AuthenticateInfo
unfolding match_public_key match_user auth_extra
authenticate_public_key parse c ssh_user key = do
  match ← match_public_key parse c ssh_user key
  ok (record {
    user = match_user match;
    method = codes "crd-publickey";
    target_hints = [];
    extra = auth_extra match (codes "publickey");
  })
