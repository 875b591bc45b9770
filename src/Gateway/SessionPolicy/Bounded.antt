-- ===== src/Gateway/SessionPolicy/Bounded.antt =====
-- No session policy exceeds the global limits.
use kube_ssh.Base.{
  ℕ, ◌<◌, ◌≤◌, ◌≡◌, refl, inl, inr, true, List, Option, none, some, ok, >>=-eq-ok, ok_inj, ltb,
  Bool-cases, arith, subst, ℤ,
}
use kube_ssh.Text.{Str}
use kube_ssh.Dict.{Dict}
use kube_ssh.Access.{Access, SessionPolicy}
use kube_ssh.Access.Authorizer.{AccessGetter}
use kube_ssh.Gateway.SessionPolicy.{
  SessionOptions, EffectiveSessionPolicy, positive_duration, bounded_duration,
  build_global_session_policy, replaced, configured, with_session, of_session,
  build_access_session_policy, string_allowed, within_shells, session_policy_access,
  resolve_session_policy,
}

-- A duration is there and within the limit, where the limit is above 0.
abbrev pub IsLimited : ℤ → ℕ → Type 0
IsLimited limit duration =
    0 < positive_duration limit → (0 < duration) × (duration ≤ positive_duration limit)

bounded-IsLimited : (value limit : ℤ) → IsLimited limit (bounded_duration value limit)
unfolding bounded_duration
bounded-IsLimited value limit h = ground arith

replaced-IsLimited :
    (value : Option ℤ) (limit : ℤ) (before : ℕ)
    → IsLimited limit before
    → IsLimited limit (replaced value limit before)
unfolding replaced
replaced-IsLimited none limit before h = h
replaced-IsLimited (some value) limit before h =
    elim (Bool-cases (ltb 0 (positive_duration value))) [
      | inl given ↦ rw given (bounded-IsLimited value limit)
      | inr nothing ↦ rw nothing h
    ]

-- What the global limits are to a policy.
pub record Bounded (opts : SessionOptions) (p : EffectiveSessionPolicy) : Type 0 where
  pub idle : IsLimited opts.limits.idle_timeout p.idle_timeout
  pub duration : IsLimited opts.limits.max_duration p.max_duration
  pub environment : p.global_env_allowlist ≡ opts.limits.env_allowlist
  pub configured : p.access_env_configured ≡ true

global-Bounded : (opts : SessionOptions) → Bounded opts (build_global_session_policy opts)
unfolding build_global_session_policy
global-Bounded opts = record {
  idle = bounded-IsLimited opts.defaults.idle_timeout opts.limits.idle_timeout;
  duration = bounded-IsLimited opts.defaults.max_duration opts.limits.max_duration;
  environment = refl;
  configured = refl;
}

still-configured : (allowlist : Option (List Str)) → configured allowlist true ≡ true
unfolding configured
still-configured none = refl
still-configured (some allowlist) = refl

session-Bounded :
    (opts : SessionOptions) (session : Option SessionPolicy)
    → Bounded opts (of_session opts session)
unfolding of_session with_session build_global_session_policy
session-Bounded opts none = global-Bounded opts
session-Bounded opts (some session) =
    let global = global-Bounded opts in
    record {
      idle = replaced-IsLimited session.idle_timeout opts.limits.idle_timeout _ global.idle;
      duration = replaced-IsLimited session.max_duration opts.limits.max_duration _ global.duration;
      environment = refl;
      configured = still-configured session.env_allowlist;
    }

access-Bounded :
    (opts : SessionOptions) (access : Option Access)
    → Bounded opts (build_access_session_policy opts access)
unfolding build_access_session_policy
access-Bounded opts none = global-Bounded opts
access-Bounded opts (some access) = session-Bounded opts access.spec.session

within-Bounded :
    (opts : SessionOptions) (policy p : EffectiveSessionPolicy)
    → within_shells opts policy ≡ ok p
    → Bounded opts policy
    → Bounded opts p × (string_allowed opts.limits.shells p.default_shell ≡ true)
unfolding within_shells
within-Bounded opts policy p e h =
    elim (Bool-cases (string_allowed opts.limits.shells policy.default_shell)) [
      | inl allowed ↦
          let same : policy ≡ p = ok_inj (rw allowed at e) in
          subst (λ q. Bounded opts q × (string_allowed opts.limits.shells q.default_shell ≡ true))
            same (h, allowed)
      | inr refused ↦ absurd (ground arith)
    ]

-- A policy that resolves has a shell that the limits permit, the environment list of the limits, and,
-- for each duration that has a limit above 0, a value above 0 that is at most the limit.
pub resolve_session_policy-Bounded :
    (opts : SessionOptions) (store : Option AccessGetter) (ssh_user : Str) (extra : Dict (List Str))
    (p : EffectiveSessionPolicy)
    → resolve_session_policy opts store ssh_user extra ≡ ok p
    → Bounded opts p × (string_allowed opts.limits.shells p.default_shell ≡ true)
unfolding resolve_session_policy
resolve_session_policy-Bounded opts store ssh_user extra p h =
    let (access, _, e) = >>=-eq-ok (session_policy_access store ssh_user extra) _ h in
    within-Bounded opts (build_access_session_policy opts access) p e (access-Bounded opts access)
