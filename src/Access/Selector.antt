-- ===== src/Access/Selector.antt =====
-- pkg/accesspolicy/strategy.go: the strategy selector. Its three maps are the state; the mutex makes
-- each operation one step. The clock and the random draw are arguments, and the closure `release` of a
-- selection is the record Lease, with `done` for its sync.Once. Weights are at least 0 (the resource
-- definition requires 1); the round-robin counter stays below 2^63.
use kube_ssh.Base.{
  ℕ, zero, suc, ◌+◌, ◌-◌, ◌*◌, ◌%◌, ℤ, pos, increment, decrement, scale, ltb_ℤ, eqb_ℤ, Bool, true,
  false, not, List, [], ◌∷◌, ◌++◌, Option, none, some, Result, ok, err, panic, ◌>>=◌, ltb, nat_eq,
  get_elem?, if◌then◌else◌, ◌||◌, ◌&&◌,
}
use kube_ssh.Text.{Str, codes, ◌==◌, str_lt, is_empty}
use kube_ssh.Dict.{Dict, lookup, insert, delete, get_or}
pub mod Targets
pub mod Weights
pub mod Tracked
pub mod Leases
pub mod Best
pub mod Load
pub mod Total
pub mod Affinity

pub record AffinityEntry : Type 0 where
  pub target_key : Str
  pub expires_at : ℕ

pub record Selector : Type 0 where
  pub round_robin : Dict ℕ
  pub connections : Dict ℤ
  pub affinity : Dict AffinityEntry

pub record Candidate : Type 0 where
  pub key : Str
  pub weight : ℕ
  pub created_at : ℕ

pub record Lease : Type 0 where
  pub key : Str
  pub done : Bool

-- newStrategySelector
abbrev pub new : Selector
new = record { round_robin = []; connections = []; affinity = [] }

-- targetConnectionKey: the zero byte is in neither key
unfoldable pub target_connection_key : Str → Str → Str
target_connection_key access_key target_key = access_key ++ (0 ∷ target_key)

-- s.connections[key], 0 where the key is missing
abbrev pub load : Selector → Str → ℤ
load s key = get_or key s.connections (pos 0)

-- trackTargetLocked
unfoldable pub track : Selector → Str → Str → Selector × Lease
unfolding target_connection_key
track s access_key target_key =
    let key = target_connection_key access_key target_key in
    (
      record s { connections = insert key (increment (load s key)) s.connections },
      record { key = key; done = false },
    )

-- The closure's body under the lock.
unfoldable pub untrack : Selector → Str → Selector
untrack s key =
    if eqb_ℤ (load s key) (pos 1)
    then record s { connections = delete key s.connections }
    else record s { connections = insert key (decrement (load s key)) s.connections }

-- A call of the closure: sync.Once runs its body at the first call only.
unfoldable pub release : Selector → Lease → Selector × Lease
unfolding untrack
release s l = if l.done then (s, l) else (untrack s l.key, record l { done = true })

unfoldable pub total_weight : List Candidate → ℕ
total_weight [] = 0
total_weight (c ∷ cs) = c.weight + total_weight cs

-- The loop of weightedCandidateIndex from index i.
unfoldable pub weighted_from : ℕ → List Candidate → ℕ → ℕ
weighted_from i [] w = 0
weighted_from i (c ∷ cs) w = elim (ltb w c.weight) [
  | true ↦ i
  | false ↦ weighted_from (suc i) cs (w - c.weight)
]

unfoldable pub weighted_index : List Candidate → ℕ → ℕ
unfolding weighted_from
weighted_index cs w = weighted_from 0 cs w

-- roundRobinCandidateIndex; a remainder by zero panics.
unfoldable pub round_robin_index : Selector → Str → List Candidate → Result (Selector × ℕ)
unfolding weighted_index total_weight
round_robin_index s key cs =
    let counter = get_or key s.round_robin 0 in
    if nat_eq (total_weight cs) 0
    then err panic
    else ok (
      record s { round_robin = insert key (suc counter) s.round_robin },
      weighted_index cs (counter % total_weight cs),
    )

-- randomCandidateIndex; rand.Intn(n) is `draw n`, and panics at zero.
unfoldable pub random_index : (ℕ → ℕ) → List Candidate → Result ℕ
unfolding weighted_index total_weight
random_index draw cs =
    if nat_eq (total_weight cs) 0
    then err panic
    else ok (weighted_index cs (draw (total_weight cs)))

-- The loop that leastConnections, newest and oldest share: `better c b` is their test on candidate i
-- and the best one.
unfoldable pub best_from : (Candidate → Candidate → Bool) → Candidate → ℕ → ℕ → List Candidate → ℕ
best_from better b best i [] = best
best_from better b best i (c ∷ cs) =
    best_from better (if better c b then c else b) (if better c b then i else best) (suc i) cs

unfoldable pub best_index : (Candidate → Candidate → Bool) → List Candidate → ℕ
unfolding best_from
best_index better [] = 0
best_index better (c ∷ cs) = best_from better c 0 1 cs

unfoldable pub less_loaded : Selector → Str → Candidate → Candidate → Bool
less_loaded s access_key c b =
    let left = scale (load s (target_connection_key access_key c.key)) b.weight in
    let right = scale (load s (target_connection_key access_key b.key)) c.weight in
    ltb_ℤ left right || (eqb_ℤ left right && str_lt c.key b.key)

unfoldable pub newer : Candidate → Candidate → Bool
newer c b =
    ltb b.created_at c.created_at || (nat_eq c.created_at b.created_at && str_lt c.key b.key)

unfoldable pub older : Candidate → Candidate → Bool
older c b =
    ltb c.created_at b.created_at || (nat_eq c.created_at b.created_at && str_lt c.key b.key)

-- The index of the first candidate with a key.
unfoldable pub index_of_key : Str → List Candidate → Option ℕ
index_of_key key [] = none
index_of_key key (c ∷ cs) =
    if c.key == key
    then some 0
    else elim (index_of_key key cs) [ none ↦ none | some i ↦ some (suc i) ]

-- affinityCandidateIndex
unfoldable pub affinity_index : Selector → Str → List Candidate → ℕ → Selector × Option ℕ
affinity_index s affinity_key cs now =
    if is_empty affinity_key then (s, none) else elim (lookup affinity_key s.affinity) [
      | none ↦ (s, none)
      | some entry ↦
          if not (nat_eq entry.expires_at 0) && ltb entry.expires_at now
          then (record s { affinity = delete affinity_key s.affinity }, none)
          else elim (index_of_key entry.target_key cs) [
            | some i ↦ (s, some i)
            | none ↦ (record s { affinity = delete affinity_key s.affinity }, none)
          ]
    ]

-- The switch on the strategy.
unfoldable pub strategy_index :
    Str → Selector → Str → List Candidate → (ℕ → ℕ) → Result (Selector × ℕ)
strategy_index strategy s access_key cs draw =
    if strategy == codes "RoundRobin"
    then round_robin_index s access_key cs
    else if strategy == codes "LeastConnections"
    then ok (s, best_index (less_loaded s access_key) cs)
    else if strategy == codes "Newest"
    then ok (s, best_index newer cs)
    else if strategy == codes "Oldest"
    then ok (s, best_index older cs)
    else elim (random_index draw cs) [ ok i ↦ ok (s, i) | err e ↦ err e ]

pub record Choice : Type 0 where
  pub index : ℕ
  pub lease : Lease

-- trackTargetLocked at candidates[index]; an index out of range panics.
unfoldable pub track_candidate : Selector → Str → List Candidate → ℕ → Result (Selector × Choice)
track_candidate s access_key cs i = elim (get_elem? cs i) [
  | none ↦ err panic
  | some c ↦
      let (s', lease) = track s access_key c.key in ok (s', record { index = i; lease = lease })
]

-- s.affinity[affinityKey] = … behind the switch.
unfoldable pub remember : Selector → Str → List Candidate → ℕ → ℕ → Result Selector
remember s affinity_key cs i expires = elim (get_elem? cs i) [
  | none ↦ err panic
  | some c ↦ ok (record s {
    affinity = insert affinity_key (record { target_key = c.key; expires_at = expires }) s.affinity;
  })
]

-- The arguments of selectTarget that it reads from the Access, the request and the clock.
pub record Situation : Type 0 where
  pub access_key : Str
  pub affinity_key : Str
  pub timeout : ℕ
  pub strategy : Str
  pub now : ℕ
  pub draw : ℕ → ℕ

-- The part of selectTarget behind the affinity lookup.
unfoldable pub select_fresh : Situation → Selector → List Candidate → Result (Selector × Choice)
unfolding track_candidate remember
select_fresh w s cs = do
  (s', i) ← strategy_index w.strategy s w.access_key cs w.draw
  s'' ←
      (if is_empty w.affinity_key
        then ok s'
        else remember s' w.affinity_key cs i (w.now + w.timeout))
  track_candidate s'' w.access_key cs i

unfoldable pub select_found :
    Situation → Selector × Option ℕ → List Candidate → Result (Selector × Choice)
unfolding select_fresh
select_found w (s, some i) cs = track_candidate s w.access_key cs i
select_found w (s, none) cs = select_fresh w s cs

-- selectTarget
unfoldable pub select_target : Situation → Selector → List Candidate → Result (Selector × Choice)
unfolding select_found
select_target w s cs = select_found w (affinity_index s w.affinity_key cs w.now) cs
