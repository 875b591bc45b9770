-- ===== src/Gateway/Authorization.antt =====
-- pkg/gateway/dependencies.go: the authorizer that the options describe, behind its policy guards.
-- The Access authorizer, the SAR authorizer and the webhook (whose construction may fail) are given.
use kube_ssh.Base.{
  All, List, [], ◌∷◌, ◌++◌, ◌≡◌, refl, sym, ◌∙◌, ◌↔◌, ◌⊎◌, inl, inr, Bool, true, false, Option,
  none, some, arith, Bool-cases, if◌then◌else◌, Result, ok, err, internal, ◌>>=◌, >>=-eq-ok,
  Result-cases, append-nil,
}
use mathlib.Core.Bool.{false≢true}
use kube_ssh.Text.{Str, codes, is_empty, elem, ◌==◌}
use kube_ssh.Authz.{Authorizer, Request, allow, chain, parse_capability, capabilities, returns}
use kube_ssh.Authz.Static.{allow_all}
use kube_ssh.Authz.Deciding.{Passes, chain-guard, chain-single, chain-allow}
use kube_ssh.Authz.Limits
use kube_ssh.Authz.Limits.{
  PolicyLimits, Within, is_access, Skips, Passes-Within, Within-Passes, authorize-ne_allow,
}
pub mod Guarded

-- opts.Policy.Limits and opts.Policy.Defaults, as far as authorization reads them
pub record PolicyOptions : Type 0 where
  pub capabilities : List Str
  pub local_forward_destinations : List Str
  pub remote_forward_binds : List Str

pub record AuthorizationOptions : Type 0 where
  pub kubernetes_sar : Bool
  pub webhook_enabled : Bool
  pub allow_all : Bool
  pub limits : PolicyOptions
  pub defaults : PolicyOptions

unfoldable pub parse_capabilities : List Str → Result (List Str)
unfolding parse_capability ◌==◌
parse_capabilities [] = ok []
parse_capabilities (value ∷ values) = do
  capability ← (if value == codes "*" then ok value else parse_capability value)
  rest ← parse_capabilities values
  ok (capability ∷ rest)

abbrev pub guard : PolicyOptions → List Str → Bool → PolicyLimits
guard o capabilities skip = record {
  capabilities = capabilities;
  local_forward_destinations = o.local_forward_destinations;
  remote_forward_binds = o.remote_forward_binds;
  skip_access = skip;
}

unfoldable pub with_policy_guards : AuthorizationOptions → Authorizer → Result Authorizer
unfolding parse_capabilities
with_policy_guards opts next = do
  limits ← parse_capabilities opts.limits.capabilities
  defaults ← parse_capabilities opts.defaults.capabilities
  ok (
      chain (
        Limits.authorize (guard opts.limits limits false)
        ∷ Limits.authorize (guard opts.defaults defaults true)
        ∷ next
        ∷ []))

-- `chain` with one more authorizer, where it is configured
abbrev pub optional : Option Authorizer → List Authorizer
optional none = []
optional (some a) = a ∷ []

-- `webhook` is the outcome of NewWebhookAuthorizer.
unfoldable pub build_authorizer :
    AuthorizationOptions → Option Authorizer → Authorizer → Result Authorizer → Result Authorizer
unfolding with_policy_guards
build_authorizer opts access sar webhook =
    let configured = optional access in
    if opts.kubernetes_sar
    then (if opts.webhook_enabled
        then (do hook ← webhook; with_policy_guards opts (chain (configured ++ (hook ∷ sar ∷ []))))
        else with_policy_guards opts (chain (configured ++ (sar ∷ []))))
    else if opts.webhook_enabled
    then (do hook ← webhook; with_policy_guards opts (chain (configured ++ (hook ∷ []))))
    else if opts.allow_all
    then with_policy_guards opts (chain (configured ++ (allow_all ∷ [])))
    else if is_empty configured
    then err internal
    else with_policy_guards opts (chain configured)
