-- ===== src/Access/Resolver/Kept.antt =====
-- pkg/accesspolicy/resolver.go: the outcomes that keep the leases, and the states behind a selection.
use kube_ssh.Base.{
  ◌≡◌, refl, subst, inl, inr, Bool, true, false, List, [], ◌∷◌, Option, none, some, Error,
  forbidden, Result, ok, err, ◌>>=◌, >>=-eq-ok, some_inj, Option-cases, get_elem?, arith,
  if◌then◌else◌, map,
}
use kube_ssh.Text.{Str, is_empty}
use kube_ssh.Dict.{Dict}
use kube_ssh.Target.{Target, ResolveInput}
use kube_ssh.PodTarget.{Pod}
use kube_ssh.Access.{Access, AccessCredential, AccessEndpoint, access_key}
use kube_ssh.Access.Selector.{Selector, Situation, Candidate, Lease, Choice, release, select_target}
use kube_ssh.Access.Selector.Tracked.{Run, live, named, selected, released}
use kube_ssh.Access.Selector.Targets.{
  Moment, chosen, situation, select_endpoint, select_pod, select_pod_by_name, active_pods,
  candidate_pods, strategy_type, endpoint_strategy_type, pod_candidate, endpoint_candidate,
  endpoint_less, sort_by, pod_by_name, pod_target_key,
}
use kube_ssh.Access.Resolver.{ContainerPolicy, Outcome, give_up, finish, with_pod}

-- An outcome on a selector that has given some leases: a target with one more lease, or an error with
-- as many unreleased leases as before.
pub data Kept (ls : List Lease) : Outcome → Type 0 where
  opened :
      (s : Selector) (target : Target) (lease : Lease)
      → Run s (lease ∷ ls)
      → Kept ls (s, ok (target, lease))
  closed :
      (s : Selector) (e : Error) (after : List Lease)
      → Run s after
      → ((k : Str) → live k after ≡ live k ls)
      → Kept ls (s, err e)

pub unchanged : (s : Selector) (ls : List Lease) (e : Error) → Run s ls → Kept ls (s, err e)
unchanged s ls e run = closed s e ls run (λ k. refl)

release-live :
    (s : Selector) (lease : Lease) (ls : List Lease) (k : Str)
    → live k ((release s lease).1 ∷ ls) ≡ live k ls
unfolding live release
release-live s lease ls k = ground arith

give_up-Kept :
    (s : Selector) (lease : Lease) (ls : List Lease) (e : Error)
    → Run s (lease ∷ ls)
    → Kept ls (give_up s lease e)
unfolding give_up
give_up-Kept s lease ls e run =
    closed (release s lease).0 e ((release s lease).1 ∷ ls)
      (released s (release s lease).0 [] ls lease (release s lease).1 run refl)
      (release-live s lease ls)

pub if-Kept :
    (b : Bool) (ls : List Lease) {o o' : Outcome}
    → Kept ls o
    → Kept ls o'
    → Kept ls (if b then o else o')
if-Kept true ls h g = h
if-Kept false ls h g = g

finish-Kept :
    (policy : ContainerPolicy) (access : Access) (credential : Option AccessCredential)
    (s : Selector) (pod : Pod) (lease : Lease) (requested : Str) (r : Result (Str × Str))
    (ls : List Lease)
    → Run s (lease ∷ ls)
    → Kept ls (finish policy access credential s pod lease requested r)
unfolding finish
finish-Kept policy access credential s pod lease requested (err e) ls run =
    give_up-Kept s lease ls e run
finish-Kept policy access credential s pod lease requested (ok (container, default)) ls run =
    if-Kept _ ls (give_up-Kept s lease ls forbidden run) (opened s _ lease run)

pub with_pod-Kept :
    (policy : ContainerPolicy) (access : Access) (input : ResolveInput) (requested : Str)
    (s : Selector) (pod : Pod) (lease : Lease) (ls : List Lease)
    → Run s (lease ∷ ls)
    → Kept ls (with_pod policy access input requested (s, pod, lease))
unfolding with_pod
with_pod-Kept policy access input requested s pod lease ls run =
    finish-Kept policy access _ s pod lease requested _ ls run

chosen-lease :
    {A : Type 0} (xs : List A) (p : Selector × Choice) (s : Selector) (x : A) (lease : Lease)
    → chosen xs p ≡ ok (s, x, lease)
    → (p.0 ≡ s) × (p.1.lease ≡ lease)
unfolding chosen
chosen-lease xs (s', c) s x lease h = elim (Option-cases (get_elem? xs c.index)) [
  | inl n ↦ ground arith
  | inr (y, e) ↦ (ground arith, ground arith)
]

chosen-Run :
    {A : Type 0} (w : Situation) (s s' : Selector) (cs : List Candidate) (xs : List A) (x : A)
    (lease : Lease) (ls : List Lease)
    → Run s ls
    → (select_target w s cs >>= chosen xs) ≡ ok (s', x, lease)
    → Run s' (lease ∷ ls)
chosen-Run w s s' cs xs x lease ls run h =
    let ((s1, c), e, h1) = >>=-eq-ok (select_target w s cs) (chosen xs) h in
    let (es, el) = chosen-lease xs (s1, c) s' x lease h1 in
    subst (λ z. Run z (lease ∷ ls)) es
      (subst (λ j. Run s1 (j ∷ ls)) el (selected s s1 ls w cs c run e))

some_if : {A : Type 0} (b : Bool) (r q : A) → (if b then none else some r) ≡ some q → r ≡ q
some_if true r q h = cc
some_if false r q h = some_inj h

pub select_pod-Run :
    (selects : Dict Str → Dict Str → Bool) (m : Moment) (s s' : Selector) (access : Access)
    (pods : List Pod) (input : ResolveInput) (pod : Pod) (lease : Lease) (ls : List Lease)
    → Run s ls
    → select_pod selects m s access pods input ≡ some (ok (s', pod, lease))
    → Run s' (lease ∷ ls)
unfolding select_pod
select_pod-Run selects m s s' access pods input pod lease ls run h =
    let candidates = candidate_pods pods in
    let w = situation access input (strategy_type access) m in
    let cs = map (pod_candidate selects access) candidates in
    chosen-Run w s s' cs candidates pod lease ls run (
      some_if (is_empty candidates) (select_target w s cs >>= chosen candidates)
        (ok (s', pod, lease)) h)

pub select_endpoint-Run :
    (m : Moment) (s s' : Selector) (access : Access) (input : ResolveInput)
    (endpoint : AccessEndpoint) (lease : Lease) (ls : List Lease)
    → Run s ls
    → select_endpoint m s access input ≡ some (ok (s', endpoint, lease))
    → Run s' (lease ∷ ls)
unfolding select_endpoint
select_endpoint-Run m s s' access input endpoint lease ls run h =
    let endpoints = sort_by endpoint_less access.spec.endpoints in
    let w = situation access input (endpoint_strategy_type access) m in
    let cs = map endpoint_candidate endpoints in
    chosen-Run w s s' cs endpoints endpoint lease ls run (
      some_if (is_empty access.spec.endpoints) (select_target w s cs >>= chosen endpoints)
        (ok (s', endpoint, lease)) h)

pub select_pod_by_name-Run :
    (s s' : Selector) (access : Access) (pods : List Pod) (name : Str) (pod : Pod) (lease : Lease)
    (ls : List Lease)
    → Run s ls
    → select_pod_by_name s access pods name ≡ some (s', pod, lease)
    → Run s' (lease ∷ ls)
unfolding select_pod_by_name
select_pod_by_name-Run s s' access pods name pod lease ls run h =
    elim (Option-cases (pod_by_name (active_pods pods) name)) [
      | inl none_ ↦ ground arith
      | inr (p, e) ↦
          named s s' ls (access_key access.namespace access.name)
            (pod_target_key access.namespace p) lease run (ground arith)
    ]
