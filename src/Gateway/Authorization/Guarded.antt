-- ===== src/Gateway/Authorization/Guarded.antt =====
-- The policy guards cannot be bypassed.
use kube_ssh.Base.{
  All, List, [], ◌∷◌, ◌++◌, ◌≡◌, refl, sym, ◌∙◌, ◌↔◌, ◌⊎◌, inl, inr, true, false, Option, none,
  some, arith, Bool-cases, if◌then◌else◌, Result, ok, >>=-eq-ok, Result-cases, append-nil,
}
use mathlib.Core.Bool.{false≢true}
use kube_ssh.Text.{Str, codes, elem, ◌==◌}
use kube_ssh.Authz.{Authorizer, Request, allow, chain, parse_capability, capabilities}
use kube_ssh.Authz.Static.{allow_all}
use kube_ssh.Authz.Deciding.{Passes, chain-guard, chain-single, chain-allow}
use kube_ssh.Authz.Limits
use kube_ssh.Authz.Limits.{
  PolicyLimits, Within, is_access, Skips, Passes-Within, Within-Passes, authorize-ne_allow,
}
use kube_ssh.Gateway.Authorization.{
  AuthorizationOptions, parse_capabilities, guard, with_policy_guards, optional, build_authorizer,
}

parse_capability-eq : (v : Str) {c : Str} → parse_capability v ≡ ok c → c ≡ v
unfolding parse_capability
parse_capability-eq v h = elim (Bool-cases (elem v capabilities)) [
  | inl known ↦ ground arith
  | inr unknown ↦ absurd (ground arith)
]

parse_capabilities-eq :
    (values : List Str) {cs : List Str} → parse_capabilities values ≡ ok cs → cs ≡ values
unfolding parse_capabilities
parse_capabilities-eq [] h = ground arith
parse_capabilities-eq (v ∷ vs) h =
    let (c, e, h') = >>=-eq-ok (if v == codes "*" then ok v else parse_capability v) _ h in
    let (rest, e', h'') = >>=-eq-ok (parse_capabilities vs) _ h' in
    ground (arith, parse_capabilities-eq vs e', parse_capability-eq v {c = c})

-- A request that the guards let through.
abbrev pub Permitted : AuthorizationOptions → Request → Type 0
Permitted opts req =
    Within (guard opts.limits opts.limits.capabilities false) req
    × ((is_access req ≡ true) ⊎ Within (guard opts.defaults opts.defaults.capabilities true) req)

module _ (first second : PolicyLimits) (next : Authorizer) (req : Request) where
  guards-allow :
      ((chain (Limits.authorize first ∷ Limits.authorize second ∷ next ∷ []) req).decision ≡ allow)
      ↔ (Passes req (Limits.authorize first)
          × Passes req (Limits.authorize second)
          × ((next req).decision ≡ allow))
  guards-allow =
      let outer = chain-guard (Limits.authorize first) req _ (authorize-ne_allow first req).0 in
      let inner = chain-guard (Limits.authorize second) req _ (authorize-ne_allow second req).0 in
      (
        λ h.
            let (p, h') = outer.0 h in
            let (q, h'') = inner.0 h' in (p, q, sym (chain-single next req) ∙ h''),
        λ h. outer.1 (h.0, inner.1 (h.1, chain-single next req ∙ h.2)),
      )

abbrev pub guards : AuthorizationOptions → Authorizer → Authorizer
guards opts next = chain (
    Limits.authorize (guard opts.limits opts.limits.capabilities false)
    ∷ Limits.authorize (guard opts.defaults opts.defaults.capabilities true)
    ∷ next
    ∷ [])

with_policy_guards-eq :
    (opts : AuthorizationOptions) (next : Authorizer) {a : Authorizer}
    → with_policy_guards opts next ≡ ok a
    → a ≡ guards opts next
unfolding with_policy_guards
with_policy_guards-eq opts next h =
    let (limits, e, h') = >>=-eq-ok (parse_capabilities opts.limits.capabilities) _ h in
    let (defaults, e', h'') = >>=-eq-ok (parse_capabilities opts.defaults.capabilities) _ h' in
    cc (
      parse_capabilities-eq opts.limits.capabilities e,
      parse_capabilities-eq opts.defaults.capabilities e',
    )

Permitted-guards :
    (opts : AuthorizationOptions) (next : Authorizer) (req : Request)
    → ((guards opts next req).decision ≡ allow)
      ↔ (Permitted opts req × ((next req).decision ≡ allow))
Permitted-guards opts next req =
    let first = guard opts.limits opts.limits.capabilities false in
    let second = guard opts.defaults opts.defaults.capabilities true in
    let through = guards-allow first second next req in
    (
      λ h.
          let (p, q, allowed) = through.0 h in
          ((unskipped (Passes-Within first req p), inner (Passes-Within second req q)), allowed),
      λ (permitted, allowed). through.1 (
        Within-Passes first req (inr permitted.0),
        Within-Passes second req (outer permitted.1),
        allowed,
      ),
    )
  where
    unskipped :
        Skips (guard opts.limits opts.limits.capabilities false) req
          ⊎ Within (guard opts.limits opts.limits.capabilities false) req
        → Within (guard opts.limits opts.limits.capabilities false) req
    unskipped (inl skips) = absurd (false≢true skips.0)
    unskipped (inr w) = w

    inner :
        Skips (guard opts.defaults opts.defaults.capabilities true) req
          ⊎ Within (guard opts.defaults opts.defaults.capabilities true) req
        → (is_access req ≡ true) ⊎ Within (guard opts.defaults opts.defaults.capabilities true) req
    inner (inl skips) = inl skips.1
    inner (inr w) = inr w

    outer :
        (is_access req ≡ true) ⊎ Within (guard opts.defaults opts.defaults.capabilities true) req
        → Skips (guard opts.defaults opts.defaults.capabilities true) req
          ⊎ Within (guard opts.defaults opts.defaults.capabilities true) req
    outer (inl through) = inl (refl, through)
    outer (inr w) = inr w

-- With the policy guards, a request is allowed exactly when the global limits permit it, the
-- defaults permit it too unless it comes through an Access, and the guarded authorizer allows it.
pub with_policy_guards-allow :
    (opts : AuthorizationOptions) (next : Authorizer) {a : Authorizer}
    → with_policy_guards opts next ≡ ok a
    → (req : Request)
    → ((a req).decision ≡ allow) ↔ (Permitted opts req × ((next req).decision ≡ allow))
with_policy_guards-allow opts next h req =
    rw (with_policy_guards-eq opts next h) (Permitted-guards opts next req)

module _ (opts : AuthorizationOptions) (access : Option Authorizer) (sar : Authorizer)
    (webhook : Result Authorizer) where
  -- The authorizers that the options bring in. `allow_all` stands in for SAR and webhook only.
  pub data Source (a : Authorizer) : Type 0 where
    from_access : access ≡ some a → Source a
    from_sar : opts.kubernetes_sar ≡ true → a ≡ sar → Source a
    from_webhook : opts.webhook_enabled ≡ true → webhook ≡ ok a → Source a
    from_allow_all :
        opts.kubernetes_sar ≡ false
        → opts.webhook_enabled ≡ false
        → opts.allow_all ≡ true
        → a ≡ allow_all
        → Source a

  Sources-optional :
      (o : Option Authorizer) (rest : List Authorizer)
      → access ≡ o
      → All Source rest
      → All Source (optional o ++ rest)
  Sources-optional none rest e ps = ps
  Sources-optional (some a) rest e ps = (from_access e, ps)

  abbrev Configured : Authorizer → Type 0
  Configured a =
      (chained : List Authorizer) × All Source chained
      × (with_policy_guards opts (chain chained) ≡ ok a)

  build_authorizer-Configured :
      {a : Authorizer} → build_authorizer opts access sar webhook ≡ ok a → Configured a
  unfolding build_authorizer
  build_authorizer-Configured {a} h = elim (Bool-cases opts.kubernetes_sar) [
    | inl s ↦ elim (Bool-cases opts.webhook_enabled) [
      | inl w ↦ elim (Result-cases webhook) [
        | inl (hook, e) ↦ (
          optional access ++ (hook ∷ sar ∷ []),
          Sources-optional access _ refl (from_webhook w e, (from_sar s refl, tt)),
          ground arith,
        )
        | inr (x, e) ↦ absurd (ground arith)
      ]
      | inr n ↦ (
        optional access ++ (sar ∷ []),
        Sources-optional access _ refl (from_sar s refl, tt),
        ground arith,
      )
    ]
    | inr u ↦ elim (Bool-cases opts.webhook_enabled) [
      | inl w ↦ elim (Result-cases webhook) [
        | inl (hook, e) ↦ (
          optional access ++ (hook ∷ []),
          Sources-optional access _ refl (from_webhook w e, tt),
          ground arith,
        )
        | inr (x, e) ↦ absurd (ground arith)
      ]
      | inr n ↦ elim (Bool-cases opts.allow_all) [
        | inl l ↦ (
          optional access ++ (allow_all ∷ []),
          Sources-optional access _ refl (from_allow_all u n l refl, tt),
          ground arith,
        )
        | inr k ↦
            (optional access, rw append-nil at (Sources-optional access [] refl tt), ground arith)
      ]
    ]
  ]

  -- No configuration bypasses the policy guards: what the built authorizer allows, the limits permit,
  -- the defaults permit too unless the request comes through an Access, and one of the configured
  -- authorizers allows.
  pub build_authorizer-allow :
      {a : Authorizer}
      → build_authorizer opts access sar webhook ≡ ok a
      → (req : Request) → (a req).decision ≡ allow
      → Permitted opts req × ((b : Authorizer) × Source b × ((b req).decision ≡ allow))
  build_authorizer-allow h req allowed =
      let (chained, sources, guarded) = build_authorizer-Configured h in
      let (permitted, inner) =
        (with_policy_guards-allow opts (chain chained) guarded req).0 allowed in
      (permitted, chain-allow Source chained req sources inner)
