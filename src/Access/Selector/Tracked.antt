-- ===== src/Access/Selector/Tracked.antt =====
-- pkg/accesspolicy/strategy.go: what a selection does to the connections.
use kube_ssh.Base.{
  ℕ, zero, suc, ◌+◌, ◌≡◌, sym, ap, subst, ◌∙◌, inl, inr, false, List, [], ◌∷◌, ◌++◌, Option, none,
  some, ok, >>=-eq-ok, get_elem?, arith, Option-cases, if◌then◌else◌, pos, increment, ℤ, not, ◌&&◌,
}
use kube_ssh.Text.{Str, ◌==◌, is_empty}
use kube_ssh.Dict.{Dict, insert, get_or}
use kube_ssh.Access.Selector.{
  Selector, Candidate, Lease, Choice, Situation, new, track, release, target_connection_key,
  affinity_index, strategy_index, round_robin_index, remember, track_candidate, select_fresh,
  select_found, select_target,
}

-- The leases of a key that are not released.
unfoldable pub live : Str → List Lease → ℕ
live k [] = 0
live k (l ∷ ls) = let rest = live k ls in if not l.done && (l.key == k) then suc rest else rest

-- A selector and the leases it has given, in any order of selections and releases.
pub data Run : Selector → List Lease → Type 0 where
  start : Run new []
  selected :
      (s s' : Selector) (ls : List Lease) (w : Situation) (cs : List Candidate) (c : Choice)
      → Run s ls
      → select_target w s cs ≡ ok (s', c)
      → Run s' (c.lease ∷ ls)
  named :
      (s s' : Selector) (ls : List Lease) (access_key target_key : Str) (l : Lease)
      → Run s ls
      → track s access_key target_key ≡ (s', l)
      → Run s' (l ∷ ls)
  released :
      (s s' : Selector) (before after : List Lease) (l l' : Lease)
      → Run s (before ++ (l ∷ after))
      → release s l ≡ (s', l')
      → Run s' (before ++ (l' ∷ after))

-- What the map holds for a number of leases.
unfoldable pub counted : ℕ → Option ℤ
counted zero = none
counted (suc n) = some (pos (suc n))

affinity_index-connections :
    (s : Selector) (key : Str) (cs : List Candidate) (now : ℕ)
    → (affinity_index s key cs now).0.connections ≡ s.connections
unfolding affinity_index
affinity_index-connections s key cs now = ground arith

round_robin_index-connections :
    (s s' : Selector) (key : Str) (cs : List Candidate) (i : ℕ)
    → round_robin_index s key cs ≡ ok (s', i)
    → s'.connections ≡ s.connections
unfolding round_robin_index
round_robin_index-connections s s' key cs i h = ground arith

strategy_index-connections :
    (strategy : Str) (s s' : Selector) (key : Str) (cs : List Candidate) (draw : ℕ → ℕ) (i : ℕ)
    → strategy_index strategy s key cs draw ≡ ok (s', i)
    → s'.connections ≡ s.connections
unfolding strategy_index
strategy_index-connections strategy s s' key cs draw i h =
    ground (arith, round_robin_index-connections s s' key cs i)

abbrev pub key_of : Situation → Candidate → Str
key_of w x = target_connection_key w.access_key x.key

abbrev pub one_more : Str → Dict ℤ → Dict ℤ
one_more k m = insert k (increment (get_or k m (pos 0))) m

-- What a selection does to the connections.
abbrev Tracked : Situation → Dict ℤ → List Candidate → Selector → Choice → Type 0
Tracked w m cs s' c =
    (x : Candidate) × (get_elem? cs c.index ≡ some x)
    × (c.lease ≡ record { key = key_of w x; done = false })
    × (s'.connections ≡ one_more (key_of w x) m)

track_candidate-found :
    (w : Situation) (s s' : Selector) (cs : List Candidate) (i : ℕ) (c : Choice) (x : Candidate)
    → get_elem? cs i ≡ some x
    → track_candidate s w.access_key cs i ≡ ok (s', c)
    → ((track s w.access_key x.key).0 ≡ s')
      × (record { index = i; lease = (track s w.access_key x.key).1 } ≡ c)
unfolding track_candidate
track_candidate-found w s s' cs i c x found h = (ground arith, ground arith)

track_candidate-Tracked :
    (w : Situation) (s s' : Selector) (cs : List Candidate) (i : ℕ) (c : Choice)
    → track_candidate s w.access_key cs i ≡ ok (s', c)
    → Tracked w s.connections cs s' c
unfolding track_candidate track
track_candidate-Tracked w s s' cs i c h = elim (Option-cases (get_elem? cs i)) [
  | inl missing ↦ ground arith
  | inr (x, found) ↦
      let (es, ec) = track_candidate-found w s s' cs i c x found h in
      (x, ground arith, sym (ap (λ j. j.lease) ec), sym (ap (λ z. z.connections) es))
]

remember-connections :
    (s s' : Selector) (key : Str) (cs : List Candidate) (i expires : ℕ)
    → remember s key cs i expires ≡ ok s'
    → s'.connections ≡ s.connections
unfolding remember
remember-connections s s' key cs i expires h = ground arith

select_fresh-Tracked :
    (w : Situation) (s s' : Selector) (cs : List Candidate) (c : Choice)
    → select_fresh w s cs ≡ ok (s', c)
    → Tracked w s.connections cs s' c
unfolding select_fresh
select_fresh-Tracked w s s' cs c h =
    let ((s1, i), e1, rest) = >>=-eq-ok (strategy_index w.strategy s w.access_key cs w.draw) _ h in
    let (s2, e2, e3) =
      >>=-eq-ok
        (if is_empty w.affinity_key
          then ok s1
          else remember s1 w.affinity_key cs i (w.now + w.timeout))
        _ rest in
    let first : s1.connections ≡ s.connections =
      strategy_index-connections w.strategy s s1 w.access_key cs w.draw i e1 in
    let second : s2.connections ≡ s1.connections =
      ground (arith, remember-connections s1 s2 w.affinity_key cs i (w.now + w.timeout)) in
    subst (λ m. Tracked w m cs s' c) (second ∙ first) (track_candidate-Tracked w s2 s' cs i c e3)

select_found-Tracked :
    (w : Situation) (p : Selector × Option ℕ) (s' : Selector) (cs : List Candidate) (c : Choice)
    → select_found w p cs ≡ ok (s', c)
    → Tracked w p.0.connections cs s' c
unfolding select_found
select_found-Tracked w (s, some i) s' cs c h = track_candidate-Tracked w s s' cs i c h
select_found-Tracked w (s, none) s' cs c h = select_fresh-Tracked w s s' cs c h

pub select_target-Tracked :
    (w : Situation) (s s' : Selector) (cs : List Candidate) (c : Choice)
    → select_target w s cs ≡ ok (s', c)
    → Tracked w s.connections cs s' c
unfolding select_target
select_target-Tracked w s s' cs c h =
    subst (λ m. Tracked w m cs s' c) (affinity_index-connections s w.affinity_key cs w.now)
      (select_found-Tracked w (affinity_index s w.affinity_key cs w.now) s' cs c h)
