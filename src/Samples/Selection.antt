-- ===== src/Samples/Selection.antt =====
-- The theorems on the selector and the resolver at concrete inputs.
use kube_ssh.Base.{
  ℕ, ◌*◌, ◌≤◌, ◌<◌, ◌≡◌, refl, inl, true, false, [], ◌∷◌, some, ok, get_elem?, All, pos, arith,
}
use kube_ssh.Text.{Str, codes}
use kube_ssh.Dict.{lookup, get_or}
use kube_ssh.Access.Selector.{
  Selector, Candidate, Situation, Choice, Lease, new, select_target, track, release, best_index,
  newer, older, less_loaded, target_connection_key,
}
use kube_ssh.Access.Selector.Tracked.{Run, start, named, live, counted}
use kube_ssh.Access.Selector.Leases.{connections-counted}
use kube_ssh.Access.Selector.Load.{load_of, least_connections-lightest}
use kube_ssh.Access.Selector.Affinity.{select_target-sticky}
use kube_ssh.Access.Selector.Total.{select_target-total}
use kube_ssh.Access.Selector.Weights.{rounds, round_robin_index-cycle}
use kube_ssh.Access.Selector.Targets.{Moment}
use kube_ssh.Access.Resolver.{ContainerPolicy, resolve}
use kube_ssh.Access.Resolver.Kept.{Kept}
use kube_ssh.Access.Resolver.Released.{resolve-Kept}
use kube_ssh.Samples.{two, one_access, web, input_of}

abbrev tracked : Selector × Lease
tracked = track new (codes "dev/app") (codes "dev/b")

one_lease : Run tracked.0 (tracked.1 ∷ [])
one_lease = named new tracked.0 [] (codes "dev/app") (codes "dev/b") tracked.1 start refl

connections-counted_example :
    lookup (codes "k") tracked.0.connections ≡ counted (live (codes "k") (tracked.1 ∷ []))
connections-counted_example = connections-counted tracked.0 (tracked.1 ∷ []) one_lease (codes "k")

least_connections-lightest_example :
    (c : Candidate) × (get_elem? two (best_index (less_loaded tracked.0 (codes "dev/app")) two)
      ≡ some c)
    × All
        (λ d.
          load_of (tracked.1 ∷ []) (codes "dev/app") c * d.weight
          ≤ load_of (tracked.1 ∷ []) (codes "dev/app") d * c.weight)
        two
least_connections-lightest_example =
    least_connections-lightest tracked.0 (tracked.1 ∷ []) (codes "dev/app") two one_lease
      (omega arith) (omega arith, (omega arith, tt))

round_robin_index-cycle_example : rounds 3 new (codes "dev/app") two ≡ ok (0 ∷ 1 ∷ 1 ∷ [])
unfolding kube_ssh.Access.Selector.total_weight get_or
round_robin_index-cycle_example = round_robin_index-cycle 0 new (codes "dev/app") two refl

abbrev sticky : Str → Situation
sticky strategy = record {
  access_key = codes "dev/app";
  affinity_key = codes "alice";
  timeout = 10;
  strategy = strategy;
  now = 5;
  draw = λ n. 0;
}

draw-lt : (n : ℕ) → 0 < n → 0 < n
draw-lt n h = h

select_target-total_example :
    (s' : Selector) × (c : Choice) × (x : Candidate) × (select_target
        (sticky (codes "RoundRobin"))
        new
        two
      ≡ ok (s', c))
    × (get_elem? two c.index ≡ some x)
select_target-total_example =
    select_target-total (sticky (codes "RoundRobin")) new two (omega arith)
      (omega arith, (omega arith, tt)) draw-lt

abbrev lease_a : Choice
lease_a = record {
  index = 0;
  lease = record { key = target_connection_key (codes "dev/app") (codes "dev/a"); done = false };
}

abbrev after_first : Selector
after_first = record {
  round_robin = (codes "dev/app", 1) ∷ [];
  connections = (lease_a.lease.key, pos 1) ∷ [];
  affinity = (codes "alice", record { target_key = codes "dev/a"; expires_at = 15 }) ∷ [];
}

abbrev after_second : Selector
after_second = record after_first { connections = (lease_a.lease.key, pos 2) ∷ [] }

select_target-sticky_example :
    (y : Candidate) × (get_elem? two 0 ≡ some y) × (y.key ≡ codes "dev/a")
unfolding select_target lookup kube_ssh.Access.Selector.affinity_index
    kube_ssh.Access.Selector.strategy_index kube_ssh.Access.Selector.round_robin_index get_or track
    kube_ssh.Dict.insert kube_ssh.Access.Selector.index_of_key
select_target-sticky_example =
    select_target-sticky (sticky (codes "RoundRobin")) (sticky (codes "Newest")) new after_first
      after_second two two lease_a lease_a
      (record { key = codes "dev/a"; weight = 1; created_at = 5 }) refl refl refl refl refl
      (omega arith) (inl refl) refl

abbrev all_containers : ContainerPolicy
all_containers = record { default_mode = []; limit_mode = [] }

abbrev noon : Moment
noon = record { now = 12; draw = λ n. 0 }

resolve-Kept_example : Kept (tracked.1 ∷ []) (
    resolve
      (λ selector labels. true)
      all_containers
      one_access
      (some (λ namespace selector. ok (web ∷ [])))
      noon
      tracked.0
      (input_of (codes "dev.app")))
resolve-Kept_example =
    resolve-Kept (λ selector labels. true) all_containers one_access
      (some (λ namespace selector. ok (web ∷ []))) noon tracked.0 (input_of (codes "dev.app"))
      (tracked.1 ∷ []) one_lease
