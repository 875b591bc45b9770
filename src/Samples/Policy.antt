-- ===== src/Samples/Policy.antt =====
-- The theorems on authorization and patterns at concrete inputs.
use kube_ssh.Base.{◌≡◌, refl, ◌↔◌, true, false, List, [], ◌∷◌, none, ok, err, internal}
use kube_ssh.Text.{Str, codes}
use kube_ssh.Wildcard.{match}
use kube_ssh.Wildcard.Relation.{Matches}
use kube_ssh.Wildcard.Correct.{match_iff}
use kube_ssh.Authz.{Authorizer, Request, chain, allow, deny, answer, no_opinion, empty}
use kube_ssh.Authz.Static.{allow_all, deny_all, StaticCapabilities}
use kube_ssh.Authz.Deciding.{Decides, chain-Decides}
use kube_ssh.Authz.Sar
use kube_ssh.Authz.Sar.{Client, Reviewed, allow-Reviewed}
use kube_ssh.Authz.Webhook.{WebhookResponse}
use kube_ssh.Gateway.Authorization.{AuthorizationOptions, PolicyOptions, build_authorizer}
use kube_ssh.Gateway.Authorization.Guarded.{Permitted, Source, guards, build_authorizer-allow}
use kube_ssh.Access.Authorizer.{CapabilityDefaults}
use kube_ssh.Access.Authorizer
use kube_ssh.Access.Authorizer.Granted.{Granted, authorize_iff}
use kube_ssh.Samples.{plain_request, access_request, one_access}

match_iff_example : (match (codes "a*") (codes "abc") ≡ true) ↔ Matches (codes "a*") (codes "abc")
match_iff_example = match_iff (codes "a*") (codes "abc")

abbrev chained : List Authorizer
chained = (λ req. answer no_opinion empty) ∷ deny_all ∷ allow_all ∷ []

chain-Decides_example : Decides plain_request chained (chain chained plain_request)
chain-Decides_example = chain-Decides chained plain_request

abbrev no_sftp : StaticCapabilities
no_sftp = record { allowed = []; denied = codes "sftp" ∷ [] }

abbrev everybody : Client
everybody review = ok (record { allowed = true; reason = []; evaluation_error = [] })

allow-Reviewed_example : Reviewed everybody plain_request
unfolding Sar.authorize Sar.conclude kube_ssh.Text.◌==◌ Sar.resource_value Sar.subresource_of
allow-Reviewed_example = allow-Reviewed everybody plain_request refl

abbrev said_allow : WebhookResponse
said_allow = record { decision = codes "Allow"; reason = []; error = [] }

abbrev anything : PolicyOptions
anything = record {
  capabilities = codes "*" ∷ [];
  local_forward_destinations = [];
  remote_forward_binds = [];
}

abbrev open_options : AuthorizationOptions
open_options = record {
  kubernetes_sar = false;
  webhook_enabled = false;
  allow_all = true;
  limits = anything;
  defaults = anything;
}

build_authorizer-allow_example :
    Permitted open_options plain_request
    × ((b : Authorizer) × Source open_options none deny_all (err internal) b
        × ((b plain_request).decision ≡ allow))
unfolding build_authorizer chain kube_ssh.Authz.Limits.authorize allow_all
build_authorizer-allow_example =
    build_authorizer-allow open_options none deny_all (err internal)
      {a = guards open_options (chain (allow_all ∷ []))} refl plain_request refl

abbrev no_defaults : CapabilityDefaults
no_defaults = record { allowed = []; local_forward_destinations = []; remote_forward_binds = [] }

authorize_iff_example :
    ((Authorizer.authorize one_access no_defaults access_request).decision ≡ allow)
    ↔ Granted one_access no_defaults access_request
authorize_iff_example = authorize_iff one_access no_defaults access_request
