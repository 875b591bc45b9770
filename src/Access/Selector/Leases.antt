-- ===== src/Access/Selector/Leases.antt =====
-- pkg/accesspolicy/strategy.go: the connection counts of a selector, over any sequence of selections
-- and releases.
use kube_ssh.Base.{
  ℕ, zero, suc, ◌≡◌, refl, sym, ap, subst, ◌∙◌, inl, inr, true, false, List, [], ◌∷◌, ◌++◌, arith,
  Bool-cases, pos, increment, decrement, eqb_ℤ, ℤ,
}
use kube_ssh.Text.{Str, ◌==◌}
use kube_ssh.Text.Laws.{==_iff, ==_refl}
use kube_ssh.Dict.{Dict, lookup, get_or, lookup-insert, lookup-delete}
use kube_ssh.Access.Selector.{Selector, Lease, track, untrack, release, target_connection_key, load}
use kube_ssh.Access.Selector.Tracked.{
  start, selected, named, released, live, Run, counted, key_of, one_more, select_target-Tracked,
}

live-middle :
    (k : Str) (before after : List Lease) (l : Lease)
    → live k (before ++ (l ∷ after)) ≡ live k (l ∷ (before ++ after))
unfolding live
live-middle k [] after l = ground arith
live-middle k (b ∷ before) after l = ground (arith, live-middle k before after l)

one_more-same :
    (k : Str) (m : Dict ℤ) (n : ℕ)
    → lookup k m ≡ counted n
    → lookup k (one_more k m) ≡ counted (suc n)
unfolding counted get_or
one_more-same k m zero h =
    rw (lookup-insert k k (increment (get_or k m (pos 0))) m, ==_refl k, h) refl
one_more-same k m (suc n) h =
    rw (lookup-insert k k (increment (get_or k m (pos 0))) m, ==_refl k, h) refl

one_more-other : (k j : Str) (m : Dict ℤ) → (k == j) ≡ false → lookup j (one_more k m) ≡ lookup j m
one_more-other k j m h = rw (lookup-insert k j (increment (get_or k m (pos 0))) m, h) refl

-- The counts agree: the map holds the number of live leases of each key, and no key without one.
abbrev Counts : Selector → List Lease → Type 0
Counts s ls = (k : Str) → lookup k s.connections ≡ counted (live k ls)

selected-Counts :
    (k : Str) (s s' : Selector) (ls : List Lease)
    → s'.connections ≡ one_more k s.connections
    → Counts s ls
    → Counts s' (record { key = k; done = false } ∷ ls)
unfolding live
selected-Counts k s s' ls e h j = elim (Bool-cases (k == j)) [
  | inl at ↦
      let same : k ≡ j = ground (arith, ==_iff k j) in
      subst
        (λ i. lookup i s'.connections ≡ counted (live i (record { key = k; done = false } ∷ ls)))
        same (rw (e, ==_refl k) (one_more-same k s.connections (live k ls) (h k)))
  | inr away ↦ rw (e, one_more-other k j s.connections away, away) (h j)
]

untrack-same :
    (s : Selector) (k : Str) (n : ℕ)
    → lookup k s.connections ≡ counted (suc n)
    → lookup k (untrack s k).connections ≡ counted n
unfolding untrack counted get_or
untrack-same s k zero h = rw (h) (rw (lookup-delete k k s.connections, ==_refl k) refl)
untrack-same s k (suc n) h =
    let some_left : eqb_ℤ (pos (suc (suc n))) (pos 1) ≡ false = ground arith in
    rw (h, some_left) (rw (lookup-insert k k (pos (suc n)) s.connections, ==_refl k) refl)

untrack-other :
    (s : Selector) (k j : Str)
    → (k == j) ≡ false
    → lookup j (untrack s k).connections ≡ lookup j s.connections
unfolding untrack
untrack-other s k j h = elim (Bool-cases (eqb_ℤ (load s k) (pos 1))) [
  | inl last ↦ rw (last, lookup-delete k j s.connections, h) refl
  | inr more ↦ rw (more, lookup-insert k j (decrement (load s k)) s.connections, h) refl
]

untrack-Counts :
    (s : Selector) (before after : List Lease) (l : Lease)
    → l.done ≡ false
    → Counts s (before ++ (l ∷ after))
    → Counts (untrack s l.key) (before ++ (record l { done = true } ∷ after))
unfolding live
untrack-Counts s before after l open_ h j = elim (Bool-cases (l.key == j)) [
  | inl at ↦
      let same : l.key ≡ j = ground (arith, ==_iff l.key j) in
      let had : live j (before ++ (l ∷ after)) ≡ suc (live j (before ++ after)) =
        rw (live-middle j before after l, open_, at) refl in
      rw (live-middle j before after (record l { done = true }), same)
        (untrack-same s j (live j (before ++ after)) (h j ∙ ap counted had))
  | inr away ↦
      let had : live j (before ++ (l ∷ after)) ≡ live j (before ++ after) =
        rw (live-middle j before after l, open_, away) refl in
      rw (live-middle j before after (record l { done = true }), untrack-other s l.key j away)
        (h j ∙ ap counted had)
]

released-Counts :
    (s s' : Selector) (before after : List Lease) (l l' : Lease)
    → release s l ≡ (s', l')
    → Counts s (before ++ (l ∷ after))
    → Counts s' (before ++ (l' ∷ after))
unfolding release
released-Counts s s' before after l l' e h = elim (Bool-cases l.done) [
  | inl released_ ↦
      let same : ◌≡◌ {A = Selector × Lease} (s, l) (s', l') = ground arith in
      subst (λ p. Counts p.0 (before ++ (p.1 ∷ after))) same h
  | inr open_ ↦
      let same : ◌≡◌ {A = Selector × Lease} (untrack s l.key, record l { done = true }) (s', l') =
        ground arith in
      subst (λ p. Counts p.0 (before ++ (p.1 ∷ after))) same
        (untrack-Counts s before after l open_ h)
]

track-tracked :
    (s s' : Selector) (access_key target_key : Str) (l : Lease)
    → track s access_key target_key ≡ (s', l)
    → (l ≡ record { key = target_connection_key access_key target_key; done = false })
      × (s'.connections ≡ one_more (target_connection_key access_key target_key) s.connections)
unfolding track
track-tracked s s' access_key target_key l h =
    (sym (ap (λ p. p.1) h), sym (ap (λ p. p.0.connections) h))

-- After any sequence of selections and releases, repeated releases included, the connection map of
-- the selector holds at each key the number of leases of that key that are not released, and has no
-- entry where there is none.
pub connections-counted :
    (s : Selector) (ls : List Lease)
    → Run s ls
    → (k : Str) → lookup k s.connections ≡ counted (live k ls)
unfolding live counted lookup
connections-counted s ls start k = refl
connections-counted _ _ (selected s s' ms w cs c run h) k =
    let (x, found, lease, tracked) = select_target-Tracked w s s' cs c h in
    subst (λ l. lookup k s'.connections ≡ counted (live k (l ∷ ms))) (sym lease)
      (selected-Counts (key_of w x) s s' ms tracked (connections-counted s ms run) k)
connections-counted _ _ (named s s' ms access_key target_key l run h) k =
    let (lease, tracked) = track-tracked s s' access_key target_key l h in
    subst (λ l. lookup k s'.connections ≡ counted (live k (l ∷ ms))) (sym lease)
      (selected-Counts (target_connection_key access_key target_key) s s' ms tracked
        (connections-counted s ms run) k)
connections-counted _ _ (released s s' before after l l' run h) k =
    released-Counts s s' before after l l' h (connections-counted s (before ++ (l ∷ after)) run) k
