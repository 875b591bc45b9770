-- ===== src/Access/Selector/Targets.antt =====
-- pkg/accesspolicy/strategy.go: the Pods and the endpoints as candidates. Whether a label selector
-- matches labels is the API machinery's answer, the parameter `selects`. sort.Slice sorts by insertion
-- here: the order is strict on the names, which are unique in a namespace.
use kube_ssh.Base.{
  ℕ, ◌*◌, Bool, false, not, List, [], ◌∷◌, ◌++◌, map, keep, Option, none, some, Result, ok, err,
  panic, ◌>>=◌, ltb, get_elem?, if◌then◌else◌, ◌||◌, ◌&&◌,
}
use kube_ssh.Text.{Str, codes, ◌==◌, str_lt, is_empty}
use kube_ssh.Dict.{Dict, get_extra}
use kube_ssh.Target.{ResolveInput}
use kube_ssh.PodTarget.{Pod, PodCondition}
use kube_ssh.Access.{
  Access, AccessEndpoint, AccessStrategyWeight, AccessSessionAffinity, access_key,
  extra_credential_user,
}
use kube_ssh.Access.Selector.{Selector, Candidate, Choice, Situation, Lease, track, select_target}

-- The insertion of sort.Slice's model.
insert_by : {A : Type 0} → (A → A → Bool) → A → List A → List A
insert_by less x [] = x ∷ []
insert_by less x (y ∷ ys) = if less y x then y ∷ insert_by less x ys else x ∷ (y ∷ ys)

unfoldable pub sort_by : {A : Type 0} → (A → A → Bool) → List A → List A
unfolding insert_by
sort_by less [] = []
sort_by less (x ∷ xs) = insert_by less x (sort_by less xs)

unfoldable pub pod_less : Pod → Pod → Bool
unfolding ◌==◌ str_lt
pod_less a b =
    if not (a.namespace == b.namespace)
    then str_lt a.namespace b.namespace
    else str_lt a.name b.name

unfoldable pub is_active : Pod → Bool
unfolding ◌==◌
is_active pod = elim pod.deletion [
  | some at ↦ false
  | none ↦ not ((pod.phase == codes "Succeeded") || (pod.phase == codes "Failed"))
]

unfoldable pub active_pods : List Pod → List Pod
unfolding sort_by pod_less
active_pods pods = sort_by pod_less (keep is_active pods)

ready_in : List PodCondition → Bool
unfolding ◌==◌
ready_in [] = false
ready_in (c ∷ cs) = ((c.type == codes "Ready") && (c.status == codes "True")) || ready_in cs

unfoldable pub pod_ready : Pod → Bool
unfolding ready_in
pod_ready pod = ready_in pod.conditions

unfoldable pub candidate_pods : List Pod → List Pod
unfolding active_pods
candidate_pods pods =
    let active = active_pods pods in
    let ready = keep pod_ready active in sort_by pod_less (if is_empty ready then active else ready)

unfoldable pub pod_target_key : Str → Pod → Str
pod_target_key namespace pod =
    (if is_empty pod.namespace then namespace else pod.namespace) ++ (b'/' ∷ pod.name)

unfoldable pub strategy_type : Access → Str
strategy_type access = elim access.spec.strategy [
  | none ↦ codes "Random"
  | some strategy ↦ if is_empty strategy.type then codes "Random" else strategy.type
]

unfoldable pub endpoint_strategy_type : Access → Str
unfolding strategy_type ◌==◌
endpoint_strategy_type access =
    let strategy = strategy_type access in
    if (strategy == codes "RoundRobin") || (strategy == codes "LeastConnections")
    then strategy
    else codes "Random"

-- The value that the affinity type selects; a type that is none of these gives no key.
affinity_value : AccessSessionAffinity → ResolveInput → Str
unfolding ◌==◌ get_extra
affinity_value affinity input =
    if affinity.type == codes "User"
    then input.user_name
    else if affinity.type == codes "Credential"
    then get_extra input.auth_extra extra_credential_user
    else if affinity.type == codes "SourceIP"
    then input.source_ip
    else if (affinity.type == codes "SSHUser") || is_empty affinity.type
    then input.ssh_user
    else []

session_affinity : Access → Option AccessSessionAffinity
session_affinity access = elim access.spec.strategy [ none ↦ none | some s ↦ s.session_affinity ]

unfoldable pub access_affinity_key : Access → ResolveInput → Str
unfolding affinity_value session_affinity access_key
access_affinity_key access input = elim (session_affinity access) [
  | none ↦ []
  | some affinity ↦
      if is_empty (affinity_value affinity input)
      then []
      else access_key access.namespace access.name
        ++ (0 ∷ (affinity.type ++ (0 ∷ affinity_value affinity input)))
]

-- In nanoseconds; an hour where none is set.
unfoldable pub affinity_timeout : Access → ℕ
unfolding session_affinity
affinity_timeout access = elim (session_affinity access) [
  | none ↦ 3600 * 1000000000
  | some affinity ↦ elim affinity.timeout_seconds [
    | none ↦ 3600 * 1000000000
    | some seconds ↦ seconds * 1000000000
  ]
]

unfoldable pub endpoint_weight : AccessEndpoint → ℕ
endpoint_weight endpoint = elim endpoint.weight [ none ↦ 1 | some w ↦ w ]

-- The clock and the random source at the time of the call.
pub record Moment : Type 0 where
  pub now : ℕ
  pub draw : ℕ → ℕ

unfoldable pub situation : Access → ResolveInput → Str → Moment → Situation
unfolding access_key access_affinity_key affinity_timeout
situation access input strategy m = record {
  access_key = access_key access.namespace access.name;
  affinity_key = access_affinity_key access input;
  timeout = affinity_timeout access;
  strategy = strategy;
  now = m.now;
  draw = m.draw;
}

-- The selected element and its choice; an index out of range panics.
unfoldable pub chosen : {A : Type 0} → List A → Selector × Choice → Result (Selector × A × Lease)
chosen xs (s, choice) = elim (get_elem? xs choice.index) [
  | none ↦ err panic
  | some x ↦ ok (s, x, choice.lease)
]

unfoldable pub endpoint_less : AccessEndpoint → AccessEndpoint → Bool
endpoint_less a b = str_lt a.name b.name

unfoldable pub endpoint_candidate : AccessEndpoint → Candidate
endpoint_candidate e = record { key = e.name; weight = endpoint_weight e; created_at = 0 }

-- selectEndpoint; `none` is "not selected".
unfoldable pub select_endpoint :
    Moment → Selector → Access → ResolveInput → Option (Result (Selector × AccessEndpoint × Lease))
unfolding situation chosen endpoint_less endpoint_candidate endpoint_weight select_target sort_by
select_endpoint m s access input =
    if is_empty access.spec.endpoints
    then none
    else some (
        let endpoints = sort_by endpoint_less access.spec.endpoints in
        select_target (situation access input (endpoint_strategy_type access) m) s
          (map endpoint_candidate endpoints)
        >>= chosen endpoints)

-- selectPodByName
unfoldable pub pod_by_name : List Pod → Str → Option Pod
unfolding ◌==◌
pod_by_name [] name = none
pod_by_name (pod ∷ pods) name = if pod.name == name then some pod else pod_by_name pods name

unfoldable pub select_pod_by_name :
    Selector → Access → List Pod → Str → Option (Selector × Pod × Lease)
unfolding pod_by_name
select_pod_by_name s access pods name = elim (pod_by_name (active_pods pods) name) [
  | none ↦ none
  | some pod ↦
      let (s', lease) =
        track s (access_key access.namespace access.name) (pod_target_key access.namespace pod) in
      some (s', pod, lease)
]

module _ (selects : Dict Str → Dict Str → Bool) where
  -- The loop over the weights of the strategy.
  weight_in : List AccessStrategyWeight → Dict Str → ℕ
  weight_in [] labels = 1
  weight_in (w ∷ ws) labels =
      if is_empty w.selector || selects w.selector labels
      then (if ltb 0 w.weight then w.weight else 1)
      else weight_in ws labels

  unfoldable pub pod_weight : Access → Pod → ℕ
  unfolding weight_in
  pod_weight access pod = elim access.spec.strategy [
    | none ↦ 1
    | some strategy ↦ weight_in strategy.weights pod.labels
  ]

  unfoldable pub pod_candidate : Access → Pod → Candidate
  unfolding pod_target_key
  pod_candidate access pod = record {
    key = pod_target_key access.namespace pod;
    weight = pod_weight access pod;
    created_at = pod.creation;
  }

  -- selectPod; `none` is "not selected".
  unfoldable pub select_pod :
      Moment
      → Selector
      → Access
      → List Pod
      → ResolveInput
      → Option (Result (Selector × Pod × Lease))
  unfolding situation chosen pod_candidate pod_weight select_target
  select_pod m s access pods input =
      let candidates = candidate_pods pods in
      if is_empty candidates
      then none
      else some (
          select_target (situation access input (strategy_type access) m) s
            (map (pod_candidate access) candidates)
          >>= chosen candidates)
