-- ===== src/Access.antt =====
-- apis/ssh/v1/access_types.go: the Access resource, and the helpers of pkg/accesspolicy on it
-- (store.go, resolver.go, authorizer.go, policy_cache.go). Absent optional values are `none`, times are
-- numbers, and the map keys of the authentication context are those of context.go.
use kube_ssh.Base.{
  ℤ, ℕ, Bool, true, false, List, [], ◌∷◌, ◌++◌, Option, none, some, if◌then◌else◌, ◌||◌,
}
use kube_ssh.Text.{Str, codes, ◌==◌, is_empty}
use kube_ssh.Dict.{Dict}
use kube_ssh.Wildcard.{match_any}
pub mod Authorizer
pub mod Locator
pub mod Credentials
pub mod Methods
pub mod Selector
pub mod Resolver

pub record LocalSecretKeyRef : Type 0 where
  pub name : Str
  pub key : Str

pub record AccessEndpoint : Type 0 where
  pub name : Str
  pub address : Str
  pub port : ℕ
  pub username : Str
  pub weight : Option ℕ

pub record AccessStrategyWeight : Type 0 where
  pub selector : Dict Str
  pub weight : ℕ

pub record AccessSessionAffinity : Type 0 where
  pub type : Str
  pub timeout_seconds : Option ℕ

pub record AccessStrategy : Type 0 where
  pub type : Str
  pub weights : List AccessStrategyWeight
  pub session_affinity : Option AccessSessionAffinity

pub record SessionPolicy : Type 0 where
  pub default_shell : Str
  pub env_allowlist : Option (List Str)
  pub idle_timeout : Option ℤ
  pub max_duration : Option ℤ

-- LocalForwardPolicy.AllowDestinations and RemoteForwardPolicy.AllowBinds stand for their structs.
pub record CapabilityPolicy : Type 0 where
  pub allowed : List Str
  pub local_forward : Option (List Str)
  pub remote_forward : Option (List Str)

pub record AccessCredential : Type 0 where
  pub username : Str
  pub uid : Str
  pub groups : List Str
  pub extra : Dict (List Str)
  pub passwords : List Str
  pub passwords_from : List LocalSecretKeyRef
  pub public_keys : List Str
  pub public_keys_from : List LocalSecretKeyRef
  pub containers : List Str
  pub capabilities : CapabilityPolicy

pub record AccessSpec : Type 0 where
  pub gateway_class_name : Option Str
  pub type : Str
  pub selector : Dict Str
  pub endpoints : List AccessEndpoint
  pub strategy : Option AccessStrategy
  pub session : Option SessionPolicy
  pub containers : List Str
  pub credentials : List AccessCredential

pub record Access : Type 0 where
  pub namespace : Str
  pub name : Str
  pub uid : Str
  pub generation : ℕ
  pub creation : ℕ
  pub spec : AccessSpec

abbrev pub extra_access_namespace : Str
extra_access_namespace = codes "kube-ssh/access.namespace"

abbrev pub extra_access_name : Str
extra_access_name = codes "kube-ssh/access.name"

abbrev pub extra_credential_user : Str
extra_credential_user = codes "kube-ssh/access.credential.username"

abbrev pub extra_credential_type : Str
extra_credential_type = codes "kube-ssh/access.credential.type"

unfoldable pub access_key : Str → Str → Str
access_key namespace name = namespace ++ (b'/' ∷ name)

unfoldable pub is_pod_access : Access → Bool
unfolding ◌==◌
is_pod_access access = is_empty access.spec.type || (access.spec.type == codes "Pod")

unfoldable pub gateway_class_name : Access → Str
gateway_class_name access = elim access.spec.gateway_class_name [ none ↦ [] | some name ↦ name ]

unfoldable pub container_allowed : List Str → Str → Bool
unfolding match_any
container_allowed allow container = is_empty allow || match_any allow container

find_in : List AccessCredential → Str → Option AccessCredential
unfolding ◌==◌
find_in [] username = none
find_in (c ∷ cs) username = if c.username == username then some c else find_in cs username

unfoldable pub find_credential : Access → Str → Option AccessCredential
unfolding find_in
find_credential access username = find_in access.spec.credentials username
