-- ===== src/Access/Selector/Affinity.antt =====
-- pkg/accesspolicy/strategy.go: session affinity, over two selections.
use kube_ssh.Base.{
  ℕ, suc, ◌+◌, ◌≤◌, ◌≡◌, refl, sym, ap, ◌∙◌, inl, inr, false, List, [], ◌∷◌, none, some, ok,
  >>=-eq-ok, ltb, nat_eq, get_elem?, In, not, arith, Bool-cases, if◌then◌else◌, ◌&&◌,
}
use kube_ssh.Text.{Str, ◌==◌, is_empty}
use kube_ssh.Text.Laws.{==_iff, ==_refl}
use kube_ssh.Dict.{lookup, insert, lookup-insert}
use kube_ssh.Access.Selector.{
  Selector, Candidate, Choice, AffinityEntry, Situation, index_of_key, affinity_index,
  strategy_index, round_robin_index, remember, track, track_candidate, select_fresh, select_found,
  select_target,
}

-- The keys of some candidates.
abbrev pub keys : List Candidate → List Str
keys [] = []
keys (c ∷ cs) = c.key ∷ keys cs

index_of_key-In :
    (key : Str) (cs : List Candidate)
    → In key (keys cs)
    → (i : ℕ) × (c : Candidate) × (index_of_key key cs ≡ some i)
      × (get_elem? cs i ≡ some c)
      × (c.key ≡ key)
unfolding index_of_key
index_of_key-In key [] h = elim h [ ]
index_of_key-In key (c ∷ cs) h = elim (Bool-cases (c.key == key)) [
  | inl at ↦ (0, c, rw (at) refl, refl, ground (arith, ==_iff c.key key))
  | inr away ↦
      let behind : In key (keys cs) = ground (arith, ==_iff c.key key) in
      let (i, d, e, found, same) = index_of_key-In key cs behind in
      (suc i, d, rw (away, e) refl, found, same)
]

track_candidate-index :
    (s s' : Selector) (access_key : Str) (cs : List Candidate) (i : ℕ) (c : Choice)
    → track_candidate s access_key cs i ≡ ok (s', c)
    → c.index ≡ i
unfolding track_candidate
track_candidate-index s s' access_key cs i c h = ground arith

-- A selection by an affinity entry that has not expired and whose target is a candidate.
affinity_index-hit :
    (s : Selector) (key : Str) (cs : List Candidate) (now : ℕ) (entry : AffinityEntry)
    → is_empty key ≡ false
    → lookup key s.affinity ≡ some entry
    → now ≤ entry.expires_at
    → In entry.target_key (keys cs)
    → (i : ℕ) × (c : Candidate) × (affinity_index s key cs now ≡ (s, some i))
      × (get_elem? cs i ≡ some c)
      × (c.key ≡ entry.target_key)
unfolding affinity_index
affinity_index-hit s key cs now entry named found fresh present =
    let (i, c, e, at, same) = index_of_key-In entry.target_key cs present in
    let current : (not (nat_eq entry.expires_at 0) && ltb entry.expires_at now) ≡ false =
      ground arith in
    (i, c, rw (named, found, current, e) refl, at, same)

affinity_index-miss :
    (s : Selector) (key : Str) (cs : List Candidate) (now : ℕ)
    → lookup key s.affinity ≡ none
    → affinity_index s key cs now ≡ (s, none)
unfolding affinity_index
affinity_index-miss s key cs now missing = ground arith

round_robin_index-affinity :
    (s s' : Selector) (key : Str) (cs : List Candidate) (i : ℕ)
    → round_robin_index s key cs ≡ ok (s', i)
    → s'.affinity ≡ s.affinity
unfolding round_robin_index
round_robin_index-affinity s s' key cs i h = ground arith

track_candidate-affinity :
    (s s' : Selector) (access_key : Str) (cs : List Candidate) (i : ℕ) (c : Choice)
    → track_candidate s access_key cs i ≡ ok (s', c)
    → s'.affinity ≡ s.affinity
unfolding track_candidate track
track_candidate-affinity s s' access_key cs i c h = ground arith

remember-entry :
    (s s1 s2 : Selector) (key : Str) (cs : List Candidate) (i expires : ℕ) (x : Candidate)
    → get_elem? cs i ≡ some x
    → remember s key cs i expires ≡ ok s1
    → s2.affinity ≡ s1.affinity
    → lookup key s2.affinity ≡ some (record { target_key = x.key; expires_at = expires })
unfolding remember
remember-entry s s1 s2 key cs i expires x at h same =
    let entry : AffinityEntry = record { target_key = x.key; expires_at = expires } in
    let stored : insert key entry s.affinity ≡ s1.affinity = ground arith in
    rw (same, sym stored, lookup-insert key key entry s.affinity, ==_refl key) refl

-- A selection by the strategy remembers the candidate.
select_fresh-remembers :
    (w : Situation) (s s' : Selector) (cs : List Candidate) (c : Choice) (x : Candidate)
    → is_empty w.affinity_key ≡ false
    → select_fresh w s cs ≡ ok (s', c)
    → get_elem? cs c.index ≡ some x
    → lookup w.affinity_key s'.affinity
      ≡ some (record { target_key = x.key; expires_at = w.now + w.timeout })
unfolding select_fresh
select_fresh-remembers w s s' cs c x named h at =
    let ((s1, i), e1, rest) = >>=-eq-ok (strategy_index w.strategy s w.access_key cs w.draw) _ h in
    let (s2, e2, e3) =
      >>=-eq-ok
        (if is_empty w.affinity_key
          then ok s1
          else remember s1 w.affinity_key cs i (w.now + w.timeout))
        _ rest in
    let place : get_elem? cs i ≡ some x =
      rw (sym (track_candidate-index s2 s' w.access_key cs i c e3)) at in
    let remembered : remember s1 w.affinity_key cs i (w.now + w.timeout) ≡ ok s2 = ground arith in
    remember-entry s1 s2 s' w.affinity_key cs i (w.now + w.timeout) x place remembered
      (track_candidate-affinity s2 s' w.access_key cs i c e3)

-- A first selection with an affinity key that has no entry, and a second one on the state it leaves,
-- not later than the timeout behind it and with the selected key among the candidates: the second
-- selects a candidate of the same key, whatever its strategy.
pub select_target-sticky :
    (w w' : Situation) (s s1 s2 : Selector) (cs cs' : List Candidate) (c c' : Choice)
    (x : Candidate)
    → is_empty w.affinity_key ≡ false
    → lookup w.affinity_key s.affinity ≡ none
    → select_target w s cs ≡ ok (s1, c)
    → get_elem? cs c.index ≡ some x
    → w'.affinity_key ≡ w.affinity_key
    → w'.now ≤ w.now + w.timeout
    → In x.key (keys cs')
    → select_target w' s1 cs' ≡ ok (s2, c')
    → (y : Candidate) × (get_elem? cs' c'.index ≡ some y) × (y.key ≡ x.key)
unfolding select_target select_found
select_target-sticky w w' s s1 s2 cs cs' c c' x named missing h at same soon present h' =
    let fresh : select_fresh w s cs ≡ ok (s1, c) =
      sym (ap (λ p. select_found w p cs) (affinity_index-miss s w.affinity_key cs w.now missing))
      ∙ h in
    let entry = select_fresh-remembers w s s1 cs c x named fresh at in
    let (i, y, hit, place, key) =
      affinity_index-hit s1 w.affinity_key cs' w'.now _ named entry soon present in
    let tracked : track_candidate s1 w'.access_key cs' i ≡ ok (s2, c') =
      sym (ap (λ p. select_found w' p cs') (ap (λ k. affinity_index s1 k cs' w'.now) same ∙ hit))
      ∙ h' in
    (y, rw (track_candidate-index s1 s2 w'.access_key cs' i c' tracked) place, key)
