-- ===== src/Samples/Targets.antt =====
-- The theorems on targets and Pods at concrete inputs.
use kube_ssh.Base.{
  ℕ, suc, ◌≡◌, refl, ◌↔◌, List, [], ◌∷◌, none, some, arith, Result, ok, err, target_not_provided,
}
use kube_ssh.Text.{codes}
use kube_ssh.Target.{Target, Hint, ResolveInput, Resolver, chain, resolve_hint}
use kube_ssh.Target.Chains.{Outcome, chain-Resolves}
use kube_ssh.Target.Hints.{FromHint, resolve_hint-FromHint}
use kube_ssh.PodTarget.{new, parse, parse-new, bind}
use kube_ssh.PodTarget.Resolve.{BindingOptions, resolve_username, resolve_binding}
use kube_ssh.PodTarget.Username.{Locates, resolve_username_iff}
use kube_ssh.PodTarget.Binding.{Settled, resolve_binding_iff}
use kube_ssh.Access.{Access, AccessEndpoint}
use kube_ssh.Access.Resolver.{new_ssh_target}
use kube_ssh.SshProxy.{bound_endpoint}
use kube_ssh.SshProxy.Bound.{Current, bound_endpoint_iff}
use kube_ssh.Samples.{app, web, input_of}

abbrev counting : Result Target → Resolver ℕ
counting r n input = (suc n, r)

abbrev asked : List (Resolver ℕ)
asked = counting (err target_not_provided) ∷ counting (ok (new (codes "dev") (codes "web") [])) ∷ []

chain-Resolves_example :
    Outcome (input_of (codes "dev.web")) 0 asked (chain asked 0 (input_of (codes "dev.web")))
chain-Resolves_example = chain-Resolves (input_of (codes "dev.web")) asked 0

abbrev hint : Hint
hint = record {
  kind = codes "kube";
  options = record { key = codes "pods"; value = codes "web" } ∷ [];
  aliases = codes "w" ∷ [];
}

abbrev hinted : ResolveInput
hinted = record (input_of (codes "w")) { hints = hint ∷ [] }

abbrev hinted_target : Target
hinted_target = record { kind = hint.kind; options = hint.options; runtime = [] }

resolve_hint-FromHint_example : FromHint hinted hinted_target
unfolding resolve_hint
resolve_hint-FromHint_example = resolve_hint-FromHint hinted hinted_target refl

parse-new_example :
    parse (some (new (codes "dev") (codes "web") (codes "main")))
    ≡ ok (record { namespace = codes "dev"; pod = codes "web"; container = codes "main" })
parse-new_example = parse-new (codes "dev") (codes "web") (codes "main") (λ e. cc) (λ e. cc)

resolve_username_iff_example :
    (resolve_username (input_of (codes "dev.web")) ≡ ok (new (codes "dev") (codes "web") []))
    ↔ Locates (codes "dev.web") (new (codes "dev") (codes "web") [])
resolve_username_iff_example =
    resolve_username_iff (input_of (codes "dev.web")) (new (codes "dev") (codes "web") [])

abbrev binding : BindingOptions
binding = record {
  pods = λ namespace name. ok web;
  default_mode = codes "KubernetesDefault";
  limit_mode = codes "All";
}

abbrev found : Resolver ℕ
found n input = (suc n, ok (new (codes "dev") (codes "web") []))

resolve_binding_iff_example :
    (resolve_binding found binding 0 (input_of (codes "dev.web"))
      ≡ (1, ok (bind web (codes "main"))))
    ↔ Settled binding (new (codes "dev") (codes "web") []) (bind web (codes "main"))
unfolding new
resolve_binding_iff_example =
    resolve_binding_iff found binding 0 1 (input_of (codes "dev.web"))
      (new (codes "dev") (codes "web") []) (bind web (codes "main")) refl
      (((λ e. cc), (λ e. cc)), (((λ e. cc), (λ e. cc)), tt))

abbrev node : AccessEndpoint
node = record {
  name = codes "node";
  address = codes "10.0.0.1";
  port = 22;
  username = codes "root";
  weight = none;
}

abbrev upstream : Access
upstream = record app { spec = record app.spec { type = codes "External"; endpoints = node ∷ [] } }

bound_endpoint_iff_example :
    (bound_endpoint (λ namespace name. ok upstream) (some (new_ssh_target upstream (codes "node")))
      ≡ ok (upstream, node))
    ↔ Current (λ namespace name. ok upstream) upstream (codes "node") upstream node
bound_endpoint_iff_example =
    bound_endpoint_iff (λ namespace name. ok upstream) upstream (codes "node") refl refl refl refl
      (omega arith) upstream node
