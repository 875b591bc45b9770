-- ===== src/PodTarget.antt =====
-- pkg/podtarget/target.go: the Pod target and its binding to a live Pod.
use kube_ssh.Base.{
  ℕ, Bool, List, [], ◌∷◌, ◌++◌, Option, none, some, bad_request, Result, ok, err, if◌then◌else◌,
  ◌||◌, not, ◌≡◌, ◌≢◌, refl, arith,
}
use kube_ssh.Text.{Str, codes, ◌==◌, is_empty}
use kube_ssh.Dict.{Dict, get_or}
use kube_ssh.Target.{Target, TargetOption, kind_pod, option}
pub mod Resolve
pub mod Container
pub mod Username
pub mod Binding

abbrev pub option_namespaces : Str
option_namespaces = codes "namespaces"

abbrev pub option_pods : Str
option_pods = codes "pods"

abbrev pub option_containers : Str
option_containers = codes "containers"

abbrev pub runtime_pod_uid : Str
runtime_pod_uid = codes "pod.uid"

abbrev pub runtime_node_name : Str
runtime_node_name = codes "pod.nodeName"

abbrev pub runtime_host_ip : Str
runtime_host_ip = codes "pod.hostIP"

-- corev1.PodCondition and corev1.Pod, as far as the code reads them. Times are numbers.
pub record PodCondition : Type 0 where
  pub type : Str
  pub status : Str

pub record Pod : Type 0 where
  pub namespace : Str
  pub name : Str
  pub uid : Str
  pub annotations : Dict Str
  pub labels : Dict Str
  pub creation : ℕ
  pub deletion : Option ℕ
  pub containers : List Str
  pub node_name : Str
  pub phase : Str
  pub conditions : List PodCondition
  pub host_ip : Str

unfoldable pub new : Str → Str → Str → Target
new namespace pod container = record {
  kind = kind_pod;
  options =
      record { key = option_namespaces; value = namespace }
      ∷ record { key = option_pods; value = pod }
      ∷ (if is_empty container
          then []
          else record { key = option_containers; value = container } ∷ []);
  runtime = [];
}

-- The function `bind`.
abbrev pub identity_of : Pod → Dict Str
identity_of pod =
    (runtime_pod_uid, pod.uid)
    ∷ (runtime_node_name, pod.node_name)
    ∷ (runtime_host_ip, pod.host_ip)
    ∷ []

-- The function `Bind`.
unfoldable pub bind : Pod → Str → Target
unfolding new
bind pod container = record (new pod.namespace pod.name container) { runtime = identity_of pod }

pub record Reference : Type 0 where
  pub namespace : Str
  pub pod : Str
  pub container : Str

unfoldable pub parse : Option Target → Result Reference
unfolding option ◌==◌
parse none = err bad_request
parse (some tgt) =
    let namespace = option tgt option_namespaces in
    let pod = option tgt option_pods in
    if not (tgt.kind == kind_pod)
    then err bad_request
    else if is_empty namespace || is_empty pod
    then err bad_request
    else ok (record { namespace = namespace; pod = pod; container = option tgt option_containers })

-- The struct `Binding`.
pub record Identity : Type 0 where
  pub uid : Str
  pub node_name : Str
  pub host_ip : Str

unfoldable pub bound_identity : Target → Identity
unfolding get_or
bound_identity tgt = record {
  uid = get_or runtime_pod_uid tgt.runtime [];
  node_name = get_or runtime_node_name tgt.runtime [];
  host_ip = get_or runtime_host_ip tgt.runtime [];
}

-- What `New` writes, `Parse` reads back, wherever the namespace and the Pod have a name.
pub parse-new :
    (namespace pod container : Str)
    → namespace ≢ []
    → pod ≢ []
    → parse (some (new namespace pod container))
      ≡ ok (record { namespace = namespace; pod = pod; container = container })
unfolding parse new
parse-new namespace pod [] n p = ground arith
parse-new namespace pod (c ∷ container) n p = ground arith

-- A target that `Bind` makes carries the identity of its Pod.
pub bound_identity-bind :
    (pod : Pod) (container : Str)
    → bound_identity (bind pod container)
      ≡ record { uid = pod.uid; node_name = pod.node_name; host_ip = pod.host_ip }
unfolding bound_identity bind
bound_identity-bind pod container = refl
