-- ===== src/Samples/Gateways.antt =====
-- The theorems on the policies, the methods and the operations of the gateway at concrete inputs.
use kube_ssh.Base.{
  ◌≡◌, refl, ◌≢◌, ◌↔◌, ◌⊎◌, true, false, [], ◌∷◌, none, ok, err, internal, pos, arith, some_inj,
}
use kube_ssh.Text.{codes, join_host_port}
use kube_ssh.Text.Numbers.{format_uint}
use kube_ssh.Target.{Target}
use kube_ssh.Authn.{AuthenticateInfo}
use kube_ssh.Authz.{Authorizer}
use kube_ssh.Authz.Static.{allow_all}
use kube_ssh.Authz.Limits.{SomeMatches}
use kube_ssh.Gateway.Authorization.{AuthorizationOptions, PolicyOptions, build_authorizer}
use kube_ssh.Gateway.SessionPolicy.{
  PolicyRuleOptions, SessionOptions, EffectiveSessionPolicy, build_global_session_policy,
  env_allowed, string_allowed,
}
use kube_ssh.Gateway.SessionPolicy.Bounded.{Bounded, resolve_session_policy-Bounded}
use kube_ssh.Gateway.SessionPolicy.Environment.{Listed, env_allowed_iff}
use kube_ssh.Gateway.SessionConn.{SessionPolicyConn, new_session_policy_conn, touch}
use kube_ssh.Gateway.SessionConn.Timed
use kube_ssh.Gateway.SessionConn.Timed.{InTime, run-InTime}
use kube_ssh.Gateway.Login.{
  ServerAuthCallbacks, public_key_method, password_method, given_methods,
  enabled_authentication_methods, no_client_auth_callback,
}
use kube_ssh.Gateway.Login.Methods.{Distinct, enabled_iff}
use kube_ssh.Gateway.Login.Offered.{Offers, no_client_auth_callback-Offers}
use kube_ssh.Gateway.Operation.{Operation, channel_direct_tcpip, begin_connection_operation}
use kube_ssh.Gateway.Operation.Forwards.{begin-destination}
use kube_ssh.Samples.{alice}

abbrev rules : PolicyRuleOptions
rules = record {
  env_allowlist = codes "LC_*" ∷ [];
  default_shell = codes "sh";
  shells = codes "*" ∷ [];
  idle_timeout = pos 60;
  max_duration = pos 3600;
}

abbrev session_options : SessionOptions
session_options = record { defaults = rules; limits = rules }

abbrev global_policy : EffectiveSessionPolicy
global_policy = build_global_session_policy session_options

resolve_session_policy-Bounded_example :
    Bounded session_options global_policy
    × (string_allowed session_options.limits.shells global_policy.default_shell ≡ true)
unfolding kube_ssh.Gateway.SessionPolicy.resolve_session_policy
resolve_session_policy-Bounded_example =
    resolve_session_policy-Bounded session_options none (codes "dev.app") [] global_policy refl

env_allowed_iff_example : (env_allowed global_policy (codes "lc_all") ≡ true) ↔ (
    Listed global_policy.global_env_allowlist (codes "lc_all")
    × Listed global_policy.access_env_allowlist (codes "lc_all"))
unfolding build_global_session_policy
env_allowed_iff_example = env_allowed_iff global_policy (codes "lc_all") refl

abbrev connection : SessionPolicyConn
connection = touch 30 (new_session_policy_conn 10 global_policy)

run-InTime_example : InTime 40 connection
unfolding touch new_session_policy_conn build_global_session_policy
run-InTime_example =
    run-InTime connection 40
      (Timed.elapsed connection 30 40
        (Timed.touched (new_session_policy_conn 10 global_policy) 30 (
          Timed.elapsed (new_session_policy_conn 10 global_policy) 10 30
            (Timed.start 10 global_policy) (omega arith)
            (λ fires armed. let at : 70 ≡ fires = some_inj armed in omega (arith, at))))
        (omega arith) (λ fires armed. let at : 70 ≡ fires = some_inj armed in omega (arith, at)))
      refl

enabled_iff_example :
    (enabled_authentication_methods none ≡ ok (public_key_method ∷ password_method ∷ [])) ↔ (
      (given_methods none ≡ public_key_method ∷ password_method ∷ [])
      × (given_methods none ≢ [])
      × Distinct [] (given_methods none))
enabled_iff_example = enabled_iff none (public_key_method ∷ password_method ∷ [])

abbrev keys_only : ServerAuthCallbacks
keys_only = record { public_key_callback = true; password_callback = false }

no_client_auth_callback-Offers_example :
    ((keys_only.public_key_callback ≡ true) ⊎ (keys_only.password_callback ≡ true))
    × (keys_only.public_key_callback ≡ true
        → Offers (public_key_method ∷ []) none (codes "dev.app") public_key_method)
    × (keys_only.password_callback ≡ true
        → Offers (public_key_method ∷ []) none (codes "dev.app") password_method)
unfolding no_client_auth_callback
no_client_auth_callback-Offers_example =
    no_client_auth_callback-Offers (public_key_method ∷ []) none (codes "dev.app") keys_only refl

abbrev everything : PolicyOptions
everything = record {
  capabilities = codes "*" ∷ [];
  local_forward_destinations = codes "*" ∷ [];
  remote_forward_binds = codes "*" ∷ [];
}

abbrev open_options : AuthorizationOptions
open_options = record {
  kubernetes_sar = false;
  webhook_enabled = false;
  allow_all = true;
  limits = everything;
  defaults = everything;
}

abbrev alice_login : AuthenticateInfo
alice_login = record { user = alice; method = codes "password"; target_hints = []; extra = [] }

abbrev web_target : Target
web_target = record { kind = codes "kube"; options = []; runtime = [] }

abbrev web_forward : Operation
web_forward = record {
  channel_type = channel_direct_tcpip;
  request_type = [];
  command = [];
  subsystem = [];
  destination_host = codes "web";
  destination_port = 80;
  origin_host = [];
  origin_port = 0;
  bind_host = [];
  bind_port = 0;
}

begin-destination_example :
    SomeMatches (codes "*" ∷ []) (join_host_port (codes "web") (format_uint 10 80))
unfolding build_authorizer begin_connection_operation kube_ssh.Authz.chain
    kube_ssh.Authz.Limits.authorize allow_all
begin-destination_example =
    begin-destination open_options none allow_all (err internal) refl (λ command. []) alice_login
      web_target web_forward refl refl
