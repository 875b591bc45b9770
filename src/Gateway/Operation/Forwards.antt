-- ===== src/Gateway/Operation/Forwards.antt =====
-- The forwards that the gateway's own authorizer allows.
use kube_ssh.Base.{◌≡◌, refl, sym, ◌∙◌, subst, true, false, List, [], Option, Result, ok}
use kube_ssh.Text.{Str, ◌==◌, join_host_port}
use kube_ssh.Text.Laws.{==_iff, ==_false}
use kube_ssh.Text.Numbers.{format_uint}
use kube_ssh.Dict.{get_extra, lookup}
use kube_ssh.Target.{Target}
use kube_ssh.Authn.{AuthenticateInfo}
use kube_ssh.Authz.{Authorizer, Decision, allow, deny, no_opinion}
use kube_ssh.Authz.Limits.{SomeMatches, Within}
use kube_ssh.Gateway.Authorization.{AuthorizationOptions, build_authorizer, guard}
use kube_ssh.Gateway.Authorization.Guarded.{build_authorizer-allow}
use kube_ssh.Gateway.Operation.{
  Operation, OperationSpec, channel_direct_tcpip, request_tcpip_forward,
  local_forward_operation_spec, connection_remote_forward_operation_spec, connection_operation_spec,
  request_of, is_allow, authorize_operation, begin_connection_operation,
}

is_allow-eq : (decision : Decision) → is_allow decision ≡ true → decision ≡ allow
unfolding is_allow
is_allow-eq allow h = refl
is_allow-eq deny h = absurd (cc)
is_allow-eq no_opinion h = absurd (cc)

spec-local :
    (words : Str → List Str) (tgt : Target) (op : Operation)
    → op.channel_type ≡ channel_direct_tcpip
    → connection_operation_spec words tgt op ≡ local_forward_operation_spec tgt op
unfolding connection_operation_spec
spec-local words tgt op e = let at = (==_iff op.channel_type channel_direct_tcpip).1 e in rw at refl

spec-remote :
    (words : Str → List Str) (tgt : Target) (op : Operation)
    → op.channel_type ≡ []
    → op.request_type ≡ request_tcpip_forward
    → connection_operation_spec words tgt op ≡ connection_remote_forward_operation_spec tgt op
unfolding connection_operation_spec
spec-remote words tgt op global e =
    let not_local =
      ==_false op.channel_type channel_direct_tcpip
        (λ f. let g : [] ≡ channel_direct_tcpip = sym global ∙ f in cc) in
    let at = (==_iff op.request_type request_tcpip_forward).1 e in rw (not_local, at) refl

module _ (opts : AuthorizationOptions) (access : Option Authorizer) (sar : Authorizer)
    (webhook : Result Authorizer) {a : Authorizer}
    (built : build_authorizer opts access sar webhook ≡ ok a) (words : Str → List Str)
    (info : AuthenticateInfo) (tgt : Target) (op : Operation) where
  allowed-Within :
      (spec : OperationSpec)
      → connection_operation_spec words tgt op ≡ spec
      → begin_connection_operation words a info tgt op ≡ true
      → Within (guard opts.limits opts.limits.capabilities false) (request_of info spec)
  unfolding begin_connection_operation authorize_operation
  allowed-Within spec e h =
      let allowed = is_allow-eq _ h in
      let permitted = (build_authorizer-allow opts access sar webhook built _ allowed).0 in
      subst (λ s. Within (guard opts.limits opts.limits.capabilities false) (request_of info s)) e
        permitted.0

  -- With the authorizer that buildAuthorizer returns, a local forward may begin only to a destination
  -- that a pattern of the global limits matches.
  pub begin-destination :
      op.channel_type ≡ channel_direct_tcpip
      → begin_connection_operation words a info tgt op ≡ true
      → SomeMatches opts.limits.local_forward_destinations
          (join_host_port op.destination_host (format_uint 10 op.destination_port))
  unfolding local_forward_operation_spec request_of get_extra lookup ◌==◌
  begin-destination local h =
      let within =
        allowed-Within (local_forward_operation_spec tgt op) (spec-local words tgt op local) h in
      within.local refl

  -- A remote forward may begin only on an address that a pattern of the global limits matches.
  pub begin-bind :
      op.channel_type ≡ []
      → op.request_type ≡ request_tcpip_forward
      → begin_connection_operation words a info tgt op ≡ true
      → SomeMatches opts.limits.remote_forward_binds
          (join_host_port op.bind_host (format_uint 10 op.bind_port))
  unfolding connection_remote_forward_operation_spec request_of get_extra lookup ◌==◌
  begin-bind global remote h =
      let within =
        allowed-Within (connection_remote_forward_operation_spec tgt op)
          (spec-remote words tgt op global remote) h in
      within.remote refl
