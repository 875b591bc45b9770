-- ===== src/PodTarget/Resolve.antt =====
-- pkg/podtarget/resolver.go: the operations.
use kube_ssh.Base.{
  Bool, true, false, List, [], ◌∷◌, ◌++◌, Option, none, some, bad_request, forbidden,
  target_not_provided, Result, ok, err, ◌>>=◌, if◌then◌else◌, ◌||◌, not,
}
use kube_ssh.Text.{Str, codes, ◌==◌, elem, is_empty, contains, split}
use kube_ssh.Dict.{get_or}
use kube_ssh.Target.{Target, ResolveInput, Resolver, kind_pod}
use kube_ssh.PodTarget.{Pod, new, identity_of, parse, bound_identity, option_containers}

-- The switch on the number of parts of the user name.
unfoldable pub target_of_parts : Str × List Str → Result Target
unfolding new
target_of_parts (namespace, pod ∷ []) =
    if is_empty namespace || is_empty pod then err bad_request else ok (new namespace pod [])
target_of_parts (namespace, pod ∷ container ∷ []) =
    if is_empty namespace || (is_empty pod || is_empty container)
    then err bad_request
    else ok (new namespace pod container)
target_of_parts _ = err bad_request

-- UsernameResolver.Resolve
unfoldable pub resolve_username : ResolveInput → Result Target
unfolding target_of_parts split contains
resolve_username input =
    if not (contains b'.' input.ssh_user)
    then err target_not_provided
    else target_of_parts (split b'.' input.ssh_user)

abbrev first_container : List Str → Str
first_container [] = []
first_container (c ∷ cs) = c

unfoldable pub default_container : Pod → Str
unfolding get_or
default_container pod =
    let annotated = get_or (codes "kubectl.kubernetes.io/default-container") pod.annotations [] in
    if is_empty annotated then first_container pod.containers else annotated

unfoldable pub resolve_container : Option Pod → Str → Result (Str × Str)
unfolding default_container elem
resolve_container none requested = err bad_request
resolve_container (some pod) requested =
    let chosen = if is_empty requested then default_container pod else requested in
    if is_empty chosen
    then err bad_request
    else if elem chosen pod.containers
    then ok (chosen, default_container pod)
    else err bad_request

unfoldable pub container_allowed : Str → Bool → Str → Str → Bool
unfolding ◌==◌
container_allowed mode explicit container default =
    if is_empty mode || (mode == codes "All")
    then true
    else if mode == codes "KubernetesDefault"
    then not explicit || (container == default)
    else false

-- The interface PodGetter: the current Pod of a namespace and a name.
abbrev pub PodGetter : Type 0
PodGetter = Str → Str → Result Pod

pub record BindingOptions : Type 0 where
  pub pods : PodGetter
  pub default_mode : Str
  pub limit_mode : Str

-- The last checks of BindingResolver.Resolve, and the target that it returns.
unfoldable pub permit_and_bind : BindingOptions → Target → Pod → Bool → Str × Str → Result Target
permit_and_bind r tgt pod explicit (container, default) =
    if not (container_allowed r.default_mode explicit container default)
      || not (container_allowed r.limit_mode explicit container default)
    then err forbidden
    else ok (record tgt {
      options =
          if explicit
          then tgt.options
          else tgt.options ++ (record { key = option_containers; value = container } ∷ []);
      runtime = identity_of pod;
    })

-- The part of BindingResolver.Resolve for a Pod target that is not bound yet.
unfoldable pub bind_live : BindingOptions → Target → Result Target
unfolding permit_and_bind
bind_live r tgt = do
  ref ← parse (some tgt)
  pod ← r.pods ref.namespace ref.pod
  chosen ← resolve_container (some pod) ref.container
  permit_and_bind r tgt pod (not (is_empty ref.container)) chosen

-- BindingResolver.Resolve behind the inner resolver.
unfoldable pub bind_target : BindingOptions → Target → Result Target
unfolding ◌==◌ bind_live
bind_target r tgt =
    if not (tgt.kind == kind_pod)
    then ok tgt
    else if not (is_empty (bound_identity tgt).uid)
    then ok tgt
    else bind_live r tgt

unfoldable pub resolve_binding : {S : Type 0} → Resolver S → BindingOptions → Resolver S
unfolding bind_target
resolve_binding resolver r s input =
    let (t, result) = resolver s input in (t, result >>= bind_target r)
