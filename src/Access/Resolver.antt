-- ===== src/Access/Resolver.antt =====
-- pkg/accesspolicy/resolver.go: Resolver.Resolve. The Pod lister is a parameter. A result carries the
-- lease that context.AfterFunc releases when the connection ends; on an error none is open.
use kube_ssh.Base.{
  ℕ, zero, suc, ◌+◌, ◌/◌, ◌%◌, take, drop, ltb, Bool, true, false, not, List, [], ◌∷◌, ◌++◌, Option,
  none, some, Error, bad_request, unavailable, forbidden, internal, target_not_provided, panic,
  Result, ok, err, ◌>>=◌, if◌then◌else◌, ◌||◌, ◌&&◌,
}
use kube_ssh.Text.{Str, codes, ◌==◌, is_empty, contains, cut, last_index}
use kube_ssh.Text.Numbers.{format_uint}
use kube_ssh.Dict.{Dict, get_extra}
use kube_ssh.Target.{Target, ResolveInput, kind_external_ssh}
use kube_ssh.PodTarget.{Pod, bind}
use kube_ssh.PodTarget.Resolve.{resolve_container, container_allowed}
use kube_ssh.Access.{
  Access, AccessCredential, AccessEndpoint, is_pod_access, find_credential, extra_credential_user,
}
use kube_ssh.Access.Authorizer.{AccessGetter}
use kube_ssh.Access.Locator.{Locator, resolve_requested_access}
use kube_ssh.Access.Selector.{Selector, Lease, release}
use kube_ssh.Access.Selector.Targets.{
  Moment, active_pods, pod_by_name, select_endpoint, select_pod, select_pod_by_name,
}
pub mod Kept
pub mod Released

pub record ContainerPolicy : Type 0 where
  pub default_mode : Str
  pub limit_mode : Str

-- The interface PodLister; a nil lister is `none`.
abbrev pub PodLister : Type 0
PodLister = Str → Dict Str → Result (List Pod)

-- sshproxy.NewTarget
unfoldable pub new_ssh_target : Access → Str → Target
unfolding format_uint
new_ssh_target access endpoint = record {
  kind = kind_external_ssh;
  options =
      record { key = codes "namespaces"; value = access.namespace }
      ∷ record { key = codes "accesses"; value = access.name }
      ∷ record { key = codes "endpoints"; value = endpoint }
      ∷ [];
  runtime =
      (codes "ssh.accessUID", access.uid)
      ∷ (codes "ssh.accessGeneration", format_uint 10 access.generation)
      ∷ [];
}

-- The Pod and container that a dot separates: the first one, or the last of several.
unfoldable pub separated : Str → Str × Str → Str × Str
unfolding contains last_index
separated locator (pod, container) =
    if contains b'.' container
    then elim (last_index b'.' locator) [
      | none ↦ (pod, container)
      | some i ↦ (take i locator, drop (suc i) locator)
    ]
    else (pod, container)

unfoldable pub active_separated : List Pod → Str × Str → Option (Str × Str)
unfolding pod_by_name
active_separated active (pod, container) =
    if is_empty pod || is_empty container
    then none
    else elim (pod_by_name active pod) [ none ↦ none | some found ↦ some (pod, container) ]

-- resolveExplicitPodLocator
unfoldable pub resolve_explicit_pod_locator : List Pod → Str → Option (Str × Str)
unfolding pod_by_name separated active_separated cut
resolve_explicit_pod_locator pods locator = elim (pod_by_name (active_pods pods) locator) [
  | some found ↦ some (locator, [])
  | none ↦ elim (cut b'.' locator) [
    | none ↦ none
    | some (pod, container) ↦
        if is_empty pod || is_empty container
        then none
        else active_separated (active_pods pods) (separated locator (pod, container))
  ]
]

-- What Resolve returns: the new state of the selector, and the target with its open lease or an error.
abbrev pub Outcome : Type 0
Outcome = Selector × Result (Target × Lease)

-- An error behind a selection: the lease is released first.
unfoldable pub give_up : Selector → Lease → Error → Outcome
unfolding release
give_up s lease e = ((release s lease).0, err e)

-- The test on the container.
unfoldable pub container_permitted :
    ContainerPolicy → Access → Option AccessCredential → Bool → Str → Str → Bool
unfolding container_allowed kube_ssh.Access.container_allowed
container_permitted policy access credential explicit container default =
    let by_access : Bool =
      if not (is_empty access.spec.containers)
      then kube_ssh.Access.container_allowed access.spec.containers container
      else container_allowed policy.default_mode explicit container default in
    let by_credential : Bool = elim credential [
      | none ↦ true
      | some c ↦ kube_ssh.Access.container_allowed c.containers container
    ] in
    by_access && (container_allowed policy.limit_mode explicit container default && by_credential)

-- The part of Resolve behind ResolveContainer.
unfoldable pub finish :
    ContainerPolicy
    → Access
    → Option AccessCredential
    → Selector
    → Pod
    → Lease
    → Str
    → Result (Str × Str)
    → Outcome
unfolding give_up container_permitted bind
finish policy access credential s pod lease requested (err e) = give_up s lease e
finish policy access credential s pod lease requested (ok (container, default)) =
    if not
      (container_permitted policy access credential (not (is_empty requested)) container default)
    then give_up s lease forbidden
    else (s, ok (bind pod container, lease))

-- The part of Resolve behind the selection of a Pod.
unfoldable pub with_pod :
    ContainerPolicy → Access → ResolveInput → Str → Selector × Pod × Lease → Outcome
unfolding finish resolve_container find_credential
with_pod policy access input requested (s, pod, lease) =
    finish policy access (find_credential access (get_extra input.auth_extra extra_credential_user))
      s pod lease requested (resolve_container (some pod) requested)

unfoldable pub with_selected :
    ContainerPolicy
    → Access
    → ResolveInput
    → Str
    → Selector
    → Option (Result (Selector × Pod × Lease))
    → Outcome
unfolding with_pod
with_selected policy access input requested s none = (s, err unavailable)
with_selected policy access input requested s (some (err e)) = (s, err e)
with_selected policy access input requested s (some (ok selection)) =
    with_pod policy access input requested selection

unfoldable pub with_endpoint :
    Access → Selector → Option (Result (Selector × AccessEndpoint × Lease)) → Outcome
unfolding new_ssh_target
with_endpoint access s none = (s, err unavailable)
with_endpoint access s (some (err e)) = (s, err e)
with_endpoint access s (some (ok (s', endpoint, lease))) =
    (s', ok (new_ssh_target access endpoint.name, lease))

unfoldable pub with_named :
    ContainerPolicy
    → Access
    → ResolveInput
    → Str
    → Selector
    → Option (Selector × Pod × Lease)
    → Outcome
unfolding with_pod
with_named policy access input requested s none = (s, err unavailable)
with_named policy access input requested s (some selection) =
    with_pod policy access input requested selection

-- An explicit Pod, resolved against the active ones.
unfoldable pub with_explicit :
    ContainerPolicy → Access → ResolveInput → Selector → List Pod → Option (Str × Str) → Outcome
unfolding with_named select_pod_by_name
with_explicit policy access input s pods none = (s, err unavailable)
with_explicit policy access input s pods (some (pod, container)) =
    with_named policy access input container s (select_pod_by_name s access pods pod)

module _ (selects : Dict Str → Dict Str → Bool) (policy : ContainerPolicy) where
  -- The part of Resolve for a Pod Access behind the list of Pods.
  unfoldable pub resolve_in_pods :
      Moment → Selector → ResolveInput → Locator → Access → Result (List Pod) → Outcome
  unfolding with_selected with_explicit resolve_explicit_pod_locator select_pod
  resolve_in_pods m s input l access (err e) = (s, err e)
  resolve_in_pods m s input l access (ok pods) =
      if is_empty l.pod
      then with_selected policy access input l.container s
          (select_pod selects m s access pods input)
      else with_explicit policy access input s pods (resolve_explicit_pod_locator pods l.pod)

  unfoldable pub resolve_listed :
      Option PodLister → Moment → Selector → ResolveInput → Locator → Access → Outcome
  unfolding resolve_in_pods
  resolve_listed none m s input l access = (s, err internal)
  resolve_listed (some pods) m s input l access =
      resolve_in_pods m s input l access (pods l.namespace access.spec.selector)

  -- The part of Resolve behind resolveRequestedAccess.
  unfoldable pub resolve_in :
      Option PodLister
      → Moment
      → Selector
      → ResolveInput
      → Result (Option (Locator × Access))
      → Outcome
  unfolding with_endpoint select_endpoint resolve_listed ◌==◌ is_pod_access
  resolve_in lister m s input (err e) = (s, err e)
  resolve_in lister m s input (ok none) = (s, err target_not_provided)
  resolve_in lister m s input (ok (some (l, access))) =
      if access.spec.type == codes "External"
      then (if not (is_empty l.pod) || not (is_empty l.container)
          then (s, err bad_request)
          else with_endpoint access s (select_endpoint m s access input))
      else if not (is_pod_access access)
      then (s, err bad_request)
      else resolve_listed lister m s input l access

  -- Resolver.Resolve
  unfoldable pub resolve :
      AccessGetter → Option PodLister → Moment → Selector → ResolveInput → Outcome
  unfolding resolve_in resolve_requested_access
  resolve store lister m s input =
      resolve_in lister m s input (resolve_requested_access store input.ssh_user input.auth_extra)
