-- ===== src/Access/Selector/Weights.antt =====
-- Weighted and round-robin selection.
use kube_ssh.Base.{
  ℕ, zero, suc, ◌+◌, ◌-◌, ◌*◌, ◌%◌, ◌<◌, ◌≡◌, refl, inl, inr, true, false, List, [], ◌∷◌, ◌++◌,
  some, Result, ok, ◌>>=◌, ltb, nat_eq, length, get_elem?, drop, arith, Bool-cases, if◌then◌else◌,
  ltb-false→le, length-append,
}
use native.Mathlib.Nat.{mul-add-mod_self_right, mod-eq_of_lt}
use kube_ssh.Text.{Str}
use kube_ssh.Text.Laws.{==_refl}
use kube_ssh.Dict.{insert, get_or, lookup-insert}
use kube_ssh.Access.Selector.{
  Selector, Candidate, total_weight, weighted_from, weighted_index, round_robin_index,
}

-- An index, as often as its weight says.
abbrev pub repeat : ℕ → ℕ → List ℕ
repeat zero i = []
repeat (suc n) i = i ∷ repeat n i

-- Each candidate's index as often as its weight says, in the order of the candidates.
abbrev pub expand_from : ℕ → List Candidate → List ℕ
expand_from i [] = []
expand_from i (c ∷ cs) = repeat c.weight i ++ expand_from (suc i) cs

abbrev pub expand : List Candidate → List ℕ
expand cs = expand_from 0 cs

get_elem?-repeat :
    (n i w : ℕ) (xs : List ℕ)
    → get_elem? (repeat n i ++ xs) w ≡ (if ltb w n then some i else get_elem? xs (w - n))
get_elem?-repeat zero i w xs = ground arith
get_elem?-repeat (suc n) i zero xs = ground arith
get_elem?-repeat (suc n) i (suc w) xs = ground (arith, get_elem?-repeat n i w xs)

weighted_from-inside :
    (i : ℕ) (c : Candidate) (cs : List Candidate) (w : ℕ)
    → ltb w c.weight ≡ true
    → weighted_from i (c ∷ cs) w ≡ i
unfolding weighted_from
weighted_from-inside i c cs w h = ground arith

weighted_from-behind :
    (i : ℕ) (c : Candidate) (cs : List Candidate) (w : ℕ)
    → ltb w c.weight ≡ false
    → weighted_from i (c ∷ cs) w ≡ weighted_from (suc i) cs (w - c.weight)
unfolding weighted_from
weighted_from-behind i c cs w h = ground arith

get_elem?-expand_from :
    (i : ℕ) (cs : List Candidate) (w : ℕ)
    → w < total_weight cs
    → get_elem? (expand_from i cs) w ≡ some (weighted_from i cs w)
unfolding total_weight
get_elem?-expand_from i [] w h = elim h [ ]
get_elem?-expand_from i (c ∷ cs) w h = elim (Bool-cases (ltb w c.weight)) [
  | inl inside ↦ rw (
    get_elem?-repeat c.weight i w (expand_from (suc i) cs),
    weighted_from-inside i c cs w inside,
    inside,
  )
  | inr behind ↦
      rw
        (
          get_elem?-repeat c.weight i w (expand_from (suc i) cs),
          weighted_from-behind i c cs w behind,
          behind,
        )
        (get_elem?-expand_from (suc i) cs (w - c.weight)
          (omega (arith, ltb-false→le w c.weight behind)))
]

-- A draw below the total weight selects the candidate at that place of the expanded list, so of the
-- draws each candidate takes as many as its weight says.
pub get_elem?-expand :
    (cs : List Candidate) (w : ℕ)
    → w < total_weight cs
    → get_elem? (expand cs) w ≡ some (weighted_index cs w)
unfolding weighted_index
get_elem?-expand cs w h = get_elem?-expand_from 0 cs w h

-- n selections in turn.
unfoldable pub rounds : ℕ → Selector → Str → List Candidate → Result (List ℕ)
rounds zero s key cs = ok []
rounds (suc n) s key cs = do
  (s', i) ← round_robin_index s key cs
  rest ← rounds n s' key cs
  ok (i ∷ rest)

abbrev counter : Selector → Str → ℕ
counter s key = get_or key s.round_robin 0

nonzero : (n : ℕ) → 0 < n → nat_eq n 0 ≡ false
nonzero zero h = elim h [ ]
nonzero (suc n) h = ground arith

round_robin_index-step :
    (s : Selector) (key : Str) (cs : List Candidate)
    → 0 < total_weight cs
    → (s' : Selector) × (round_robin_index s key cs
        ≡ ok (s', weighted_index cs (counter s key % total_weight cs)))
      × (counter s' key ≡ suc (counter s key))
unfolding round_robin_index get_or
round_robin_index-step s key cs h = (
  record s { round_robin = insert key (suc (counter s key)) s.round_robin },
  rw (nonzero (total_weight cs) h) refl,
  rw (lookup-insert key key (suc (counter s key)) s.round_robin, ==_refl key) refl,
)

drop-step {ℓ} :
    {A : Type ℓ} (xs : List A) (m : ℕ) (x : A)
    → get_elem? xs m ≡ some x
    → drop m xs ≡ x ∷ drop (suc m) xs
drop-step [] m x h = ground arith
drop-step (y ∷ ys) zero x h = ground arith
drop-step (y ∷ ys) (suc m) x h = ground (arith, drop-step ys m x)

drop-all {ℓ} : {A : Type ℓ} (xs : List A) → drop (length xs) xs ≡ []
drop-all [] = refl
drop-all (y ∷ ys) = ground (arith, drop-all ys)

length-repeat : (n i : ℕ) → length (repeat n i) ≡ n
length-repeat zero i = refl
length-repeat (suc n) i = ground (arith, length-repeat n i)

length-expand_from : (i : ℕ) (cs : List Candidate) → length (expand_from i cs) ≡ total_weight cs
unfolding total_weight
length-expand_from i [] = refl
length-expand_from i (c ∷ cs) =
    rw
      (
        length-append (repeat c.weight i) (expand_from (suc i) cs),
        length-repeat c.weight i,
        length-expand_from (suc i) cs,
      )
      refl

counter-mod : (a m n : ℕ) → m < n → (a * n + m) % n ≡ m
counter-mod a m n h = rw (mul-add-mod_self_right a n m) (mod-eq_of_lt h)

rounds-from :
    (k a m : ℕ) (s : Selector) (key : Str) (cs : List Candidate)
    → counter s key ≡ a * total_weight cs + m
    → m + k ≡ total_weight cs
    → rounds k s key cs ≡ ok (drop m (expand cs))
unfolding rounds
rounds-from zero a m s key cs at ends =
    let whole : m ≡ length (expand cs) = omega (arith, length-expand_from 0 cs, ends) in
    rw (whole, drop-all (expand cs)) refl
rounds-from (suc k) a m s key cs at ends =
    let (s', step, next) = round_robin_index-step s key cs (omega arith) in
    rw
      (
        step,
        rounds-from k a (suc m) s' key cs (omega (arith, next, at)) (omega arith),
        at,
        counter-mod a m (total_weight cs) (omega arith),
        drop-step (expand cs) m (weighted_index cs m) (get_elem?-expand cs m (omega arith)),
      )
      refl

-- When the counter stands at a multiple of the total weight, that many round-robin selections in turn are
-- the indices of the candidates in order, each as often as its weight says.
pub round_robin_index-cycle :
    (a : ℕ) (s : Selector) (key : Str) (cs : List Candidate)
    → get_or key s.round_robin 0 ≡ a * total_weight cs
    → rounds (total_weight cs) s key cs ≡ ok (expand cs)
round_robin_index-cycle a s key cs at =
    rounds-from (total_weight cs) a 0 s key cs (omega (arith, at)) (omega arith)
