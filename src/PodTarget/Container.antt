-- ===== src/PodTarget/Container.antt =====
-- Which container a Pod target names.
use kube_ssh.Base.{Bool, true, false, [], ◌∷◌, ◌≡◌, refl, ◌≢◌, ◌↔◌, ◌⊎◌, some, ok, In, arith}
use kube_ssh.Text.{Str, codes}
use kube_ssh.Text.Laws.{elem_iff, ==_iff}
use kube_ssh.PodTarget.{Pod}
use kube_ssh.PodTarget.Resolve.{default_container, resolve_container, container_allowed}

pub record Resolved (pod : Pod) (requested chosen default : Str) : Type 0 where
  pub regular : In chosen pod.containers
  pub named : chosen ≢ []
  pub explicit : requested ≢ [] → chosen ≡ requested
  pub implicit : requested ≡ [] → chosen ≡ default
  pub default_of : default ≡ default_container pod

pub resolve_container-Resolved :
    (pod : Pod) (requested : Str) {chosen default : Str}
    → resolve_container (some pod) requested ≡ ok (chosen, default)
    → Resolved pod requested chosen default
unfolding resolve_container
resolve_container-Resolved pod [] h = record {
  regular = ground (arith, elem_iff (default_container pod) pod.containers);
  named = ground arith;
  explicit = ground arith;
  implicit = ground arith;
  default_of = ground arith;
}
resolve_container-Resolved pod (c ∷ requested) h = record {
  regular = ground (arith, elem_iff (c ∷ requested) pod.containers);
  named = ground arith;
  explicit = ground arith;
  implicit = ground arith;
  default_of = ground arith;
}

Resolved-resolve_container :
    (pod : Pod) (requested : Str) {chosen default : Str}
    → Resolved pod requested chosen default
    → resolve_container (some pod) requested ≡ ok (chosen, default)
unfolding resolve_container
Resolved-resolve_container pod [] {chosen} w =
    let e = w.implicit refl in ground (arith, elem_iff chosen pod.containers)
Resolved-resolve_container pod (c ∷ requested) {chosen} w =
    let e = w.explicit (λ h. cc) in ground (arith, elem_iff chosen pod.containers)

-- The container that is chosen, where one is, is the one that the request names, or the Pod's default
-- container where it names none; it is chosen exactly when it is one of the Pod's regular containers.
pub resolve_container_iff :
    (pod : Pod) (requested chosen default : Str)
    → (resolve_container (some pod) requested ≡ ok (chosen, default))
      ↔ Resolved pod requested chosen default
resolve_container_iff pod requested chosen default =
    (resolve_container-Resolved pod requested, Resolved-resolve_container pod requested)

-- A mode permits a container under these conditions and no others.
pub container_allowed_iff :
    (mode : Str) (explicit : Bool) (container default : Str)
    → (container_allowed mode explicit container default ≡ true) ↔ (
        (mode ≡ [])
        ⊎ (mode ≡ codes "All")
        ⊎ ((mode ≡ codes "KubernetesDefault") × ((explicit ≡ false) ⊎ (container ≡ default))))
unfolding container_allowed
container_allowed_iff mode explicit container default = ground (
  arith,
  ==_iff mode (codes "All"),
  ==_iff mode (codes "KubernetesDefault"),
  ==_iff container default,
)
