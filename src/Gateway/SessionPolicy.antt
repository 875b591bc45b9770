-- ===== src/Gateway/SessionPolicy.antt =====
-- pkg/gateway/session_policy.go: the limits and defaults that a session runs under.
pub mod Bounded
pub mod Environment
use kube_ssh.Base.{
  ℕ, zero, suc, min, Bool, true, false, ◌&&◌, ◌||◌, not, List, [], ◌∷◌, Option, none, some, Result,
  ok, err, internal, length, take, ◌-◌, ltb, nat_eq, if◌then◌else◌, ◌>>=◌, ℤ, pos, negsuc,
}
use kube_ssh.Text.{Str, codes, ◌==◌, has_prefix, has_suffix, cut, is_empty, to_upper}
use kube_ssh.Dict.{Dict, get_extra}
use kube_ssh.Wildcard.{match_any}
use kube_ssh.Access.{Access, SessionPolicy, extra_access_namespace, extra_access_name}
use kube_ssh.Access.Authorizer.{AccessGetter}

-- opts.Policy.Limits and opts.Policy.Defaults, as far as sessions read them; durations are in
-- nanoseconds.
pub record PolicyRuleOptions : Type 0 where
  pub env_allowlist : List Str
  pub default_shell : Str
  pub shells : List Str
  pub idle_timeout : ℤ
  pub max_duration : ℤ

pub record SessionOptions : Type 0 where
  pub defaults : PolicyRuleOptions
  pub limits : PolicyRuleOptions

-- The durations are never below 0.
pub record EffectiveSessionPolicy : Type 0 where
  pub default_shell : Str
  pub global_env_allowlist : List Str
  pub access_env_allowlist : List Str
  pub access_env_configured : Bool
  pub idle_timeout : ℕ
  pub max_duration : ℕ

abbrev pub positive_duration : ℤ → ℕ
positive_duration (pos n) = n
positive_duration (negsuc n) = 0

unfoldable pub bounded_duration : ℤ → ℤ → ℕ
bounded_duration value limit =
    if nat_eq (positive_duration value) 0
    then positive_duration limit
    else if nat_eq (positive_duration limit) 0
    then positive_duration value
    else min (positive_duration value) (positive_duration limit)

unfoldable pub build_global_session_policy : SessionOptions → EffectiveSessionPolicy
unfolding bounded_duration
build_global_session_policy opts = record {
  default_shell = opts.defaults.default_shell;
  global_env_allowlist = opts.limits.env_allowlist;
  access_env_allowlist = opts.defaults.env_allowlist;
  access_env_configured = true;
  idle_timeout = bounded_duration opts.defaults.idle_timeout opts.limits.idle_timeout;
  max_duration = bounded_duration opts.defaults.max_duration opts.limits.max_duration;
}

-- A duration of the Access where it is above 0, within the limit, or else the one before.
replaced : Option ℤ → ℤ → ℕ → ℕ
unfolding bounded_duration
replaced none limit before = before
replaced (some value) limit before =
    if ltb 0 (positive_duration value) then bounded_duration value limit else before

listed : Option (List Str) → List Str → List Str
listed none before = before
listed (some allowlist) before = allowlist

configured : Option (List Str) → Bool → Bool
configured none before = before
configured (some allowlist) before = true

with_session : SessionOptions → EffectiveSessionPolicy → SessionPolicy → EffectiveSessionPolicy
unfolding replaced listed configured
with_session opts policy session = record policy {
  default_shell =
      if is_empty session.default_shell then policy.default_shell else session.default_shell;
  access_env_configured = configured session.env_allowlist policy.access_env_configured;
  access_env_allowlist = listed session.env_allowlist policy.access_env_allowlist;
  idle_timeout = replaced session.idle_timeout opts.limits.idle_timeout policy.idle_timeout;
  max_duration = replaced session.max_duration opts.limits.max_duration policy.max_duration;
}

of_session : SessionOptions → Option SessionPolicy → EffectiveSessionPolicy
unfolding with_session build_global_session_policy
of_session opts none = build_global_session_policy opts
of_session opts (some session) = with_session opts (build_global_session_policy opts) session

unfoldable pub build_access_session_policy : SessionOptions → Option Access → EffectiveSessionPolicy
unfolding of_session build_global_session_policy
build_access_session_policy opts none = build_global_session_policy opts
build_access_session_policy opts (some access) = of_session opts access.spec.session

-- One pattern of an allowlist, in upper case as the key is.
unfoldable pub env_pattern_allows : Str → Str → Bool
unfolding ◌==◌ has_suffix has_prefix
env_pattern_allows p upper =
    if p == codes "*"
    then true
    else if has_suffix p (codes "*")
    then has_prefix upper (take (length p - 1) p)
    else upper == p

unfoldable pub env_allowlist_allows : List Str → Str → Bool
unfolding env_pattern_allows to_upper
env_allowlist_allows [] key = false
env_allowlist_allows (pattern ∷ allowlist) key =
    if env_pattern_allows (to_upper pattern) (to_upper key)
    then true
    else env_allowlist_allows allowlist key

unfoldable pub env_allowed : EffectiveSessionPolicy → Str → Bool
unfolding env_allowlist_allows
env_allowed p key =
    if not (env_allowlist_allows p.global_env_allowlist key)
    then false
    else if p.access_env_configured && not (env_allowlist_allows p.access_env_allowlist key)
    then false
    else true

named_parts : Option (Str × Str) → Option (Str × Str)
named_parts none = none
named_parts (some (namespace, name)) =
    if is_empty namespace || is_empty name then none else some (namespace, name)

unfoldable pub parse_access_ssh_user : Str → Option (Str × Str)
unfolding cut named_parts
parse_access_ssh_user ssh_user = named_parts (cut b'.' ssh_user)

-- A user name that is no Access, or that of one which is not found, has none.
by_user : AccessGetter → Option (Str × Str) → Option Access
by_user store none = none
by_user store (some (namespace, name)) = found (store namespace name)
  where
    found : Result {0} Access → Option {0} Access
    found (err error) = none
    found (ok access) = some access

by_identity : AccessGetter → Str → Str → Result (Option Access)
by_identity store namespace name =
    if is_empty namespace || is_empty name
    then err internal
    else store namespace name >>= λ access. ok (some access)

unfoldable pub session_policy_access :
    Option AccessGetter → Str → Dict (List Str) → Result (Option Access)
unfolding by_user by_identity parse_access_ssh_user get_extra
session_policy_access none ssh_user extra = ok none
session_policy_access (some store) ssh_user extra =
    let namespace = get_extra extra extra_access_namespace in
    let name = get_extra extra extra_access_name in
    if not (is_empty namespace) || not (is_empty name)
    then by_identity store namespace name
    else ok (by_user store (parse_access_ssh_user ssh_user))

unfoldable pub string_allowed : List Str → Str → Bool
unfolding match_any
string_allowed patterns value = match_any patterns value

within_shells : SessionOptions → EffectiveSessionPolicy → Result EffectiveSessionPolicy
unfolding string_allowed
within_shells opts policy =
    if not (string_allowed opts.limits.shells policy.default_shell) then err internal else ok policy

unfoldable pub resolve_session_policy :
    SessionOptions → Option AccessGetter → Str → Dict (List Str) → Result EffectiveSessionPolicy
unfolding session_policy_access build_access_session_policy within_shells
resolve_session_policy opts store ssh_user extra =
    session_policy_access store ssh_user extra >>= λ access.
    within_shells opts (build_access_session_policy opts access)
