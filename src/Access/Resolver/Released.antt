-- ===== src/Access/Resolver/Released.antt =====
-- pkg/accesspolicy/resolver.go: the lease of a selection, on every way through Resolve.
use kube_ssh.Base.{◌≡◌, refl, Bool, List, ◌∷◌, Option, none, some, Result, ok, err, not, ◌||◌}
use kube_ssh.Text.{Str, is_empty, codes, ◌==◌}
use kube_ssh.Dict.{Dict}
use kube_ssh.Target.{ResolveInput}
use kube_ssh.PodTarget.{Pod}
use kube_ssh.Access.{Access, AccessEndpoint, is_pod_access}
use kube_ssh.Access.Authorizer.{AccessGetter}
use kube_ssh.Access.Locator.{Locator, resolve_requested_access}
use kube_ssh.Access.Selector.{Selector, Lease}
use kube_ssh.Access.Selector.Tracked.{Run}
use kube_ssh.Access.Selector.Targets.{Moment, select_endpoint, select_pod, select_pod_by_name}
use kube_ssh.Access.Resolver.{
  ContainerPolicy, PodLister, with_selected, with_named, with_explicit, with_endpoint,
  resolve_explicit_pod_locator, resolve_in_pods, resolve_listed, resolve_in, resolve,
}
use kube_ssh.Access.Resolver.Kept.{
  opened, Kept, unchanged, if-Kept, with_pod-Kept, select_pod-Run, select_endpoint-Run,
  select_pod_by_name-Run,
}

with_selected-Kept :
    (policy : ContainerPolicy) (access : Access) (input : ResolveInput) (requested : Str)
    (s : Selector) (r : Option (Result (Selector × Pod × Lease))) (ls : List Lease)
    → Run s ls
    → ((s' : Selector) (pod : Pod) (lease : Lease)
        → r ≡ some (ok (s', pod, lease))
        → Run s' (lease ∷ ls))
    → Kept ls (with_selected policy access input requested s r)
unfolding with_selected
with_selected-Kept policy access input requested s none ls run h = unchanged s ls _ run
with_selected-Kept policy access input requested s (some (err e)) ls run h = unchanged s ls e run
with_selected-Kept policy access input requested s (some (ok (s', pod, lease))) ls run h =
    with_pod-Kept policy access input requested s' pod lease ls (h s' pod lease refl)

with_named-Kept :
    (policy : ContainerPolicy) (access : Access) (input : ResolveInput) (requested : Str)
    (s : Selector) (r : Option (Selector × Pod × Lease)) (ls : List Lease)
    → Run s ls
    → ((s' : Selector) (pod : Pod) (lease : Lease)
        → r ≡ some (s', pod, lease)
        → Run s' (lease ∷ ls))
    → Kept ls (with_named policy access input requested s r)
unfolding with_named
with_named-Kept policy access input requested s none ls run h = unchanged s ls _ run
with_named-Kept policy access input requested s (some (s', pod, lease)) ls run h =
    with_pod-Kept policy access input requested s' pod lease ls (h s' pod lease refl)

with_explicit-Kept :
    (policy : ContainerPolicy) (access : Access) (input : ResolveInput) (s : Selector)
    (pods : List Pod) (r : Option (Str × Str)) (ls : List Lease)
    → Run s ls
    → Kept ls (with_explicit policy access input s pods r)
unfolding with_explicit
with_explicit-Kept policy access input s pods none ls run = unchanged s ls _ run
with_explicit-Kept policy access input s pods (some (pod, container)) ls run =
    with_named-Kept policy access input container s (select_pod_by_name s access pods pod) ls run
      (λ s' p lease e. select_pod_by_name-Run s s' access pods pod p lease ls run e)

with_endpoint-Kept :
    (access : Access) (s : Selector) (r : Option (Result (Selector × AccessEndpoint × Lease)))
    (ls : List Lease)
    → Run s ls
    → ((s' : Selector) (endpoint : AccessEndpoint) (lease : Lease)
        → r ≡ some (ok (s', endpoint, lease))
        → Run s' (lease ∷ ls))
    → Kept ls (with_endpoint access s r)
unfolding with_endpoint
with_endpoint-Kept access s none ls run h = unchanged s ls _ run
with_endpoint-Kept access s (some (err e)) ls run h = unchanged s ls e run
with_endpoint-Kept access s (some (ok (s', endpoint, lease))) ls run h =
    opened s' _ lease (h s' endpoint lease refl)

module _ (selects : Dict Str → Dict Str → Bool) (policy : ContainerPolicy) where
  resolve_in_pods-Kept :
      (m : Moment) (s : Selector) (input : ResolveInput) (l : Locator) (access : Access)
      (r : Result (List Pod)) (ls : List Lease)
      → Run s ls
      → Kept ls (resolve_in_pods selects policy m s input l access r)
  unfolding resolve_in_pods
  resolve_in_pods-Kept m s input l access (err e) ls run = unchanged s ls e run
  resolve_in_pods-Kept m s input l access (ok pods) ls run =
      if-Kept (is_empty l.pod) ls
        (with_selected-Kept policy access input l.container s
          (select_pod selects m s access pods input) ls run
          (λ s' p lease e. select_pod-Run selects m s s' access pods input p lease ls run e))
        (with_explicit-Kept policy access input s pods (resolve_explicit_pod_locator pods l.pod) ls
          run)

  resolve_listed-Kept :
      (lister : Option PodLister) (m : Moment) (s : Selector) (input : ResolveInput) (l : Locator)
      (access : Access) (ls : List Lease)
      → Run s ls
      → Kept ls (resolve_listed selects policy lister m s input l access)
  unfolding resolve_listed
  resolve_listed-Kept none m s input l access ls run = unchanged s ls _ run
  resolve_listed-Kept (some pods) m s input l access ls run =
      resolve_in_pods-Kept m s input l access (pods l.namespace access.spec.selector) ls run

  resolve_in-Kept :
      (lister : Option PodLister) (m : Moment) (s : Selector) (input : ResolveInput)
      (r : Result (Option (Locator × Access))) (ls : List Lease)
      → Run s ls
      → Kept ls (resolve_in selects policy lister m s input r)
  unfolding resolve_in
  resolve_in-Kept lister m s input (err e) ls run = unchanged s ls e run
  resolve_in-Kept lister m s input (ok none) ls run = unchanged s ls _ run
  resolve_in-Kept lister m s input (ok (some (l, access))) ls run =
      if-Kept (access.spec.type == codes "External") ls
        (if-Kept (not (is_empty l.pod) || not (is_empty l.container)) ls (unchanged s ls _ run) (
          with_endpoint-Kept access s (select_endpoint m s access input) ls run
            (λ s' endpoint lease e.
              select_endpoint-Run m s s' access input endpoint lease ls run e)))
        (if-Kept (not (is_pod_access access)) ls (unchanged s ls _ run)
          (resolve_listed-Kept lister m s input l access ls run))

  -- From any state that selections and releases lead to, whatever the Access, the Pods and the
  -- request: a target comes with the lease that is given last, and after an error as many leases as
  -- before are unreleased, under any key.
  pub resolve-Kept :
      (store : AccessGetter) (lister : Option PodLister) (m : Moment) (s : Selector)
      (input : ResolveInput) (ls : List Lease)
      → Run s ls
      → Kept ls (resolve selects policy store lister m s input)
  unfolding resolve
  resolve-Kept store lister m s input ls run =
      resolve_in-Kept lister m s input
        (resolve_requested_access store input.ssh_user input.auth_extra) ls run
