-- ===== src/Access/Selector/Total.antt =====
-- pkg/accesspolicy/strategy.go: a selection among weighted candidates never panics.
use kube_ssh.Base.{
  ℕ, zero, suc, ◌+◌, ◌-◌, ◌%◌, ◌<◌, ◌≡◌, refl, inl, inr, Bool, true, false, List, [], ◌∷◌, Option,
  none, some, Result, ok, err, nat_eq, get_elem?, get_elem?-lt, length, All, arith, Bool-cases,
  Option-cases, if◌then◌else◌,
}
use native.Mathlib.Nat.{mod-lt}
use kube_ssh.Text.{Str, codes, ◌==◌, is_empty}
use kube_ssh.Dict.{lookup, get_or, insert}
use kube_ssh.Access.Selector.{
  Selector, Candidate, Choice, AffinityEntry, Situation, index_of_key, affinity_index,
  strategy_index, round_robin_index, random_index, remember, track, total_weight, weighted_from,
  weighted_index, best_from, best_index, track_candidate, select_fresh, select_found, select_target,
}

weighted_from-lt :
    (i : ℕ) (cs : List Candidate) (w : ℕ)
    → w < total_weight cs
    → weighted_from i cs w < i + length cs
unfolding total_weight weighted_from
weighted_from-lt i [] w h = elim h [ ]
weighted_from-lt i (c ∷ cs) w h = ground (arith, weighted_from-lt (suc i) cs (w - c.weight))

weighted_index-lt :
    (cs : List Candidate) (w : ℕ) → w < total_weight cs → weighted_index cs w < length cs
unfolding weighted_index
weighted_index-lt cs w h = omega (arith, weighted_from-lt 0 cs w h)

best_from-lt :
    (better : Candidate → Candidate → Bool) (b : Candidate) (best i : ℕ) (cs : List Candidate)
    → best < i
    → best_from better b best i cs < i + length cs
unfolding best_from
best_from-lt better b best i [] h = omega arith
best_from-lt better b best i (c ∷ cs) h = elim (Bool-cases (better c b)) [
  | inl beats ↦ rw (beats) (ground (arith, best_from-lt better c i (suc i) cs))
  | inr weak ↦ rw (weak) (ground (arith, best_from-lt better b best (suc i) cs))
]

best_index-lt :
    (better : Candidate → Candidate → Bool) (cs : List Candidate)
    → 0 < length cs
    → best_index better cs < length cs
unfolding best_index
best_index-lt better [] h = elim h [ ]
best_index-lt better (c ∷ cs) h = ground (arith, best_from-lt better c 0 1 cs)

index_of_key-lt :
    (key : Str) (cs : List Candidate) (i : ℕ) → index_of_key key cs ≡ some i → i < length cs
unfolding index_of_key
index_of_key-lt key [] i h = ground arith
index_of_key-lt key (c ∷ cs) zero h = omega arith
index_of_key-lt key (c ∷ cs) (suc i) h = ground (arith, index_of_key-lt key cs i)

abbrev Weighted : Candidate → Type 0
Weighted c = 0 < c.weight

total_weight-pos : (cs : List Candidate) → 0 < length cs → All Weighted cs → 0 < total_weight cs
unfolding total_weight
total_weight-pos [] h weights = elim h [ ]
total_weight-pos (c ∷ cs) h (weight, weights) = omega arith

-- A draw as rand.Intn makes it.
abbrev pub Draws : (ℕ → ℕ) → Type 0
Draws draw = (n : ℕ) → 0 < n → draw n < n

abbrev Placed : List Candidate → Result (Selector × ℕ) → Type 0
Placed cs r = (s' : Selector) × (i : ℕ) × (r ≡ ok (s', i)) × (i < length cs)

if-Placed :
    (b : Bool) (cs : List Candidate) {r r' : Result (Selector × ℕ)}
    → Placed cs r
    → Placed cs r'
    → Placed cs (if b then r else r')
if-Placed true cs p q = p
if-Placed false cs p q = q

round_robin_index-Placed :
    (s : Selector) (key : Str) (cs : List Candidate)
    → 0 < total_weight cs
    → Placed cs (round_robin_index s key cs)
unfolding round_robin_index
round_robin_index-Placed s key cs heavy =
    let positive : nat_eq (total_weight cs) 0 ≡ false = ground arith in
    let key_count = get_or key s.round_robin 0 in
    (
      record s { round_robin = insert key (suc key_count) s.round_robin },
      weighted_index cs (key_count % total_weight cs),
      rw (positive) refl,
      weighted_index-lt cs (get_or key s.round_robin 0 % total_weight cs)
          (mod-lt (get_or key s.round_robin 0) heavy),
    )

random-Placed :
    (s : Selector) (cs : List Candidate) (draw : ℕ → ℕ)
    → 0 < total_weight cs
    → Draws draw
    → Placed cs (elim (random_index draw cs) [ ok i ↦ ok (s, i) | err e ↦ err e ])
unfolding random_index
random-Placed s cs draw heavy draws =
    let positive : nat_eq (total_weight cs) 0 ≡ false = ground arith in
    (
      s,
      weighted_index cs (draw (total_weight cs)),
      rw (positive) refl,
      weighted_index-lt cs (draw (total_weight cs)) (draws (total_weight cs) heavy),
    )

strategy_index-Placed :
    (strategy : Str) (s : Selector) (key : Str) (cs : List Candidate) (draw : ℕ → ℕ)
    → 0 < length cs
    → 0 < total_weight cs
    → Draws draw
    → Placed cs (strategy_index strategy s key cs draw)
unfolding strategy_index
strategy_index-Placed strategy s key cs draw some_ heavy draws =
    if-Placed (strategy == codes "RoundRobin") cs (round_robin_index-Placed s key cs heavy) (
      if-Placed (strategy == codes "LeastConnections") cs (s, _, refl, best_index-lt _ cs some_)
        (if-Placed (strategy == codes "Newest") cs (s, _, refl, best_index-lt _ cs some_)
          (if-Placed (strategy == codes "Oldest") cs (s, _, refl, best_index-lt _ cs some_)
            (random-Placed s cs draw heavy draws))))

-- An operation returns a candidate of the list.
abbrev pub Selects : List Candidate → Result (Selector × Choice) → Type 0
Selects cs r =
    (s' : Selector) × (c : Choice) × (x : Candidate) × (r ≡ ok (s', c))
    × (get_elem? cs c.index ≡ some x)

track_candidate-Selects :
    (s : Selector) (access_key : Str) (cs : List Candidate) (i : ℕ)
    → i < length cs
    → Selects cs (track_candidate s access_key cs i)
unfolding track_candidate
track_candidate-Selects s access_key cs i h =
    let (x, at) = get_elem?-lt cs i h in
    let (s', l) = track s access_key x.key in
    (s', record { index = i; lease = l }, x, rw (track_candidate, at) refl, at)

remember-ok :
    (s : Selector) (key : Str) (cs : List Candidate) (i expires : ℕ)
    → i < length cs
    → (s' : Selector) × (remember s key cs i expires ≡ ok s')
unfolding remember
remember-ok s key cs i expires h =
    let (x, at) = get_elem?-lt cs i h in
    let entry : AffinityEntry = record { target_key = x.key; expires_at = expires } in
    (record s { affinity = insert key entry s.affinity }, rw (remember, at) refl)

select_fresh-Selects :
    (w : Situation) (s : Selector) (cs : List Candidate)
    → 0 < length cs
    → 0 < total_weight cs
    → Draws w.draw
    → Selects cs (select_fresh w s cs)
unfolding select_fresh
select_fresh-Selects w s cs some_ heavy draws =
    let (s1, i, e, below) =
      strategy_index-Placed w.strategy s w.access_key cs w.draw some_ heavy draws in
    elim (Bool-cases (is_empty w.affinity_key)) [
      | inl plain ↦ rw (e, plain) (track_candidate-Selects s1 w.access_key cs i below)
      | inr named ↦
          let (s2, kept) = remember-ok s1 w.affinity_key cs i (w.now + w.timeout) below in
          rw (e, named, kept) (track_candidate-Selects s2 w.access_key cs i below)
    ]

affinity_index-lt :
    (s : Selector) (key : Str) (cs : List Candidate) (now i : ℕ)
    → (affinity_index s key cs now).1 ≡ some i
    → i < length cs
unfolding affinity_index
affinity_index-lt s key cs now i h = elim (Option-cases (lookup key s.affinity)) [
  | inl missing ↦ ground arith
  | inr (entry, found) ↦ ground (arith, index_of_key-lt entry.target_key cs i)
]

select_found-Selects :
    (w : Situation) (p : Selector × Option ℕ) (cs : List Candidate)
    → ((i : ℕ) → p.1 ≡ some i → i < length cs)
    → 0 < length cs
    → 0 < total_weight cs
    → Draws w.draw
    → Selects cs (select_found w p cs)
unfolding select_found
select_found-Selects w (s, some i) cs below some_ heavy draws =
    track_candidate-Selects s w.access_key cs i (below i refl)
select_found-Selects w (s, none) cs below some_ heavy draws =
    select_fresh-Selects w s cs some_ heavy draws

-- Among at least one candidate, all of weight at least 1, a selection in any state and with any
-- strategy does not panic: it returns an index of the list, where a draw is below its bound.
pub select_target-total :
    (w : Situation) (s : Selector) (cs : List Candidate)
    → 0 < length cs
    → All Weighted cs
    → Draws w.draw
    → (s' : Selector) × (c : Choice) × (x : Candidate) × (select_target w s cs ≡ ok (s', c))
      × (get_elem? cs c.index ≡ some x)
unfolding select_target
select_target-total w s cs some_ weights draws =
    select_found-Selects w (affinity_index s w.affinity_key cs w.now) cs
      (affinity_index-lt s w.affinity_key cs w.now) some_ (total_weight-pos cs some_ weights) draws
