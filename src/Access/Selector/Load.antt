-- ===== src/Access/Selector/Load.antt =====
-- pkg/accesspolicy/strategy.go: leastConnections, on the counts that a selector reaches.
use native.Mathlib.Nat.{
  mul-le-mul_right, mul-lt-mul_of_pos_right, lt_of_mul-lt-mul_right, mul_assoc, mul_comm,
}
use mathlib.Core.Option
use kube_ssh.Base.{
  ℕ, zero, suc, ◌*◌, ◌<◌, ◌≤◌, ◌≡◌, refl, sym, ap, ◌∙◌, inl, inr, Bool, false, List, some, pos,
  nat_eq, ltb, ltb→lt, ltb-false→le, get_elem?, arith, Bool-cases, All, ◌||◌, ◌&&◌, length,
}
use kube_ssh.Text.{Str, str_lt}
use kube_ssh.Dict.{get_or}
use kube_ssh.Access.Selector.{
  Selector, Candidate, Lease, best_index, less_loaded, load, target_connection_key,
}
use kube_ssh.Access.Selector.Best.{
  IsStrict, best_index-Unbeaten, All-map, str_lt-irreflexive, str_lt_trans,
}
use kube_ssh.Access.Selector.Tracked.{Run, live, counted}
use kube_ssh.Access.Selector.Leases.{connections-counted}

-- a / x against b / y and c / z, by cross products.
swap_products : (a x b : ℕ) → a * x * b ≡ a * b * x
swap_products a x b = mul_assoc a x b ∙ ap (λ n. a * n) (mul_comm x b) ∙ sym (mul_assoc a b x)

ratio_lt-le : (a x b y c z : ℕ) → 0 < y → 0 < z → a * y < b * x → b * z ≤ c * y → a * z < c * x
ratio_lt-le a x b y c z hy hz h g = lt_of_mul-lt-mul_right y (
    omega (
      arith,
      swap_products a y z,
      swap_products b x z,
      swap_products c y x,
      mul-lt-mul_of_pos_right h hz,
      mul-le-mul_right x g,
    ))

ratio_le-lt : (a x b y c z : ℕ) → 0 < y → 0 < x → a * y ≤ b * x → b * z < c * y → a * z < c * x
ratio_le-lt a x b y c z hy hx h g = lt_of_mul-lt-mul_right y (
    omega (
      arith,
      swap_products a y z,
      swap_products b x z,
      swap_products c y x,
      mul-lt-mul_of_pos_right g hx,
      mul-le-mul_right z h,
    ))

ratio_le-le : (a x b y c z : ℕ) → 0 < y → a * y ≤ b * x → b * z ≤ c * y → a * z ≤ c * x
ratio_le-le a x b y c z hy h g = elim (Bool-cases (ltb (c * x) (a * z))) [
  | inl above ↦
      let lt : c * x * y < a * z * y = mul-lt-mul_of_pos_right (ltb→lt (c * x) (a * z) above) hy in
      omega (
        arith,
        lt,
        swap_products a y z,
        swap_products b x z,
        swap_products c y x,
        mul-le-mul_right x g,
        mul-le-mul_right z h,
      )
  | inr below ↦ ltb-false→le (c * x) (a * z) below
]

abbrev Weighted : Candidate → Type 0
Weighted c = 0 < c.weight

-- The connections of a candidate.
abbrev pub load_of : List Lease → Str → Candidate → ℕ
load_of ls access_key c = live (target_connection_key access_key c.key) ls

unfoldable lighter : (Candidate → ℕ) → Candidate → Candidate → Bool
lighter f c b =
    ltb (f c * b.weight) (f b * c.weight)
    || (nat_eq (f c * b.weight) (f b * c.weight) && str_lt c.key b.key)

lighter-IsStrict : (f : Candidate → ℕ) → IsStrict Weighted (lighter f)
unfolding lighter
lighter-IsStrict f = record {
  irreflexive = λ c. ground (arith, str_lt-irreflexive c.key);
  transitive = λ a b c fa fb fc h g. ground (
    arith,
    str_lt_trans a.key b.key c.key,
    ratio_lt-le (f a) a.weight (f b) b.weight (f c) c.weight fb fc,
    ratio_le-lt (f a) a.weight (f b) b.weight (f c) c.weight fb fa,
    ratio_le-le (f a) a.weight (f b) b.weight (f c) c.weight fb,
  );
}

counted-get_or : (n : ℕ) → Option.get_or (counted n) (pos 0) ≡ pos n
unfolding counted
counted-get_or zero = refl
counted-get_or (suc n) = refl

load-live : (s : Selector) (ls : List Lease) (k : Str) → Run s ls → load s k ≡ pos (live k ls)
unfolding get_or
load-live s ls k run = rw (connections-counted s ls run k) (counted-get_or (live k ls))

less_loaded-lighter :
    (s : Selector) (ls : List Lease) (access_key : Str) (c b : Candidate)
    → Run s ls
    → less_loaded s access_key c b ≡ lighter (load_of ls access_key) c b
unfolding less_loaded lighter
less_loaded-lighter s ls access_key c b run =
    rw
      (
        load-live s ls (target_connection_key access_key c.key) run,
        load-live s ls (target_connection_key access_key b.key) run,
      )
      refl

less_loaded-IsStrict :
    (s : Selector) (ls : List Lease) (access_key : Str)
    → Run s ls
    → IsStrict Weighted (less_loaded s access_key)
less_loaded-IsStrict s ls access_key run = record {
  irreflexive = λ c. less_loaded-lighter s ls access_key c c run ∙ strict.irreflexive c;
  transitive = λ a b c fa fb fc h g.
      less_loaded-lighter s ls access_key a c run
      ∙ strict.transitive a b c fa fb fc (sym (less_loaded-lighter s ls access_key a b run) ∙ h)
          (sym (less_loaded-lighter s ls access_key b c run) ∙ g);
}
  where
    strict : IsStrict Weighted (lighter (load_of ls access_key))
    strict = lighter-IsStrict (load_of ls access_key)

not-lighter :
    (f : Candidate → ℕ) (c d : Candidate) → lighter f d c ≡ false → f c * d.weight ≤ f d * c.weight
unfolding lighter
not-lighter f c d h = ground (arith, ltb-false→le (f d * c.weight) (f c * d.weight))

-- Of at least one candidate, all of weight at least 1, LeastConnections selects one such that no
-- other has fewer unreleased leases for its weight, whatever selections and releases led to the
-- selector's state.
pub least_connections-lightest :
    (s : Selector) (ls : List Lease) (access_key : Str) (cs : List Candidate)
    → Run s ls
    → 0 < length cs
    → All Weighted cs
    → (c : Candidate) × (get_elem? cs (best_index (less_loaded s access_key) cs) ≡ some c)
      × All (λ d. load_of ls access_key c * d.weight ≤ load_of ls access_key d * c.weight) cs
least_connections-lightest s ls access_key cs run h weights =
    let (c, at, fine, all) =
      best_index-Unbeaten Weighted (less_loaded s access_key)
        (less_loaded-IsStrict s ls access_key run) cs h weights in
    (
      c,
      at,
      All-map
          (λ d beaten.
            not-lighter (load_of ls access_key) c d
              (sym (less_loaded-lighter s ls access_key d c run) ∙ beaten))
          cs all,
    )
