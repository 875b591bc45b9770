-- ===== src/Text/Numbers/Printed.antt =====
-- What is printed in a base reads back.
use kube_ssh.Base.{
  ℕ, zero, suc, ◌+◌, ◌-◌, ◌*◌, ◌/◌, ◌%◌, ◌<◌, ◌≤◌, ◌≡◌, refl, ◌∙◌, ap, true, false, inl, inr, [],
  ◌∷◌, ◌++◌, some, arith, length, length-append, nat_eq, leb, ltb, pos, Bool-cases, lt→ltb,
}
use Prim.Native.Nat.{◌^◌}
use mathlib.Core.Option
use kube_ssh.Text.{Str, contains, is_empty}
use kube_ssh.Text.Numbers.{
  digits, format_uint, padded, read_digits, parse_uint, parse_int64, zeros, fits, plus, minus,
}

module _ (base : ℕ) where
  read_digits-append :
      (s : Str) (high d : ℕ)
      → d < base
      → read_digits base high (s ++ ((48 + d) ∷ []))
        ≡ Option.map (λ v. v * base + d) (read_digits base high s)
  unfolding read_digits
  read_digits-append [] high d h = ground arith
  read_digits-append (c ∷ s) high d h =
      ground (arith, read_digits-append s (high * base + (c - 48)) d h)

  read_digits-zeros :
      (k : ℕ) (s : Str) → 0 < base → read_digits base 0 (zeros k ++ s) ≡ read_digits base 0 s
  unfolding read_digits zeros
  read_digits-zeros zero s h = refl
  read_digits-zeros (suc k) s h = ground (arith, read_digits-zeros k s h)

  pub read_digits-padded :
      (width : ℕ) (s : Str) → 0 < base → read_digits base 0 (padded width s) ≡ read_digits base 0 s
  unfolding padded
  read_digits-padded width s h = read_digits-zeros (width - length s) s h

  -- No byte below the digits occurs in what reads as a number.
  pub read_digits-contains :
      (s : Str) (high n c : ℕ) → read_digits base high s ≡ some n → c < 48 → contains c s ≡ false
  unfolding read_digits contains
  read_digits-contains [] high n c h k = refl
  read_digits-contains (d ∷ s) high n c h k =
      ground (arith, read_digits-contains s (high * base + (d - 48)) n c)

  pub parse_uint-eq :
      (bound n : ℕ) (s : Str)
      → is_empty s ≡ false
      → read_digits base 0 s ≡ some n
      → n < bound
      → parse_uint base bound s ≡ some n
  unfolding parse_uint fits
  parse_uint-eq bound n [] e h k = cc
  parse_uint-eq bound n (c ∷ s) e h k = rw (h, lt→ltb n bound k) refl

  -- With a base of at least two, division by it goes down.
  module _ (shrinks : (n : ℕ) → base ≤ n → n / base < n) (remains : (n : ℕ) → n % base < base)
      (divides : (n : ℕ) → n / base * base + n % base ≡ n) where
    read_digits-digits : (fuel n : ℕ) → n < fuel → read_digits base 0 (digits base fuel n) ≡ some n
    unfolding read_digits digits
    read_digits-digits zero n h = elim h [ ]
    read_digits-digits (suc fuel) n h = elim (Bool-cases (ltb n base)) [
      | inl small ↦ rw small (ground arith)
      | inr large ↦ rw large (
          read_digits-append (digits base fuel (n / base)) 0 (n % base) (remains n)
          ∙ rw (read_digits-digits fuel (n / base) (ground (arith, shrinks n)))
              (ap some (divides n)))
    ]

    read_digits-format : (n : ℕ) → read_digits base 0 (format_uint base n) ≡ some n
    unfolding format_uint
    read_digits-format n = read_digits-digits (suc n) n (omega arith)

is_empty-append : (s : Str) (c : ℕ) → is_empty (s ++ (c ∷ [])) ≡ false
is_empty-append [] c = refl
is_empty-append (d ∷ s) c = refl

pub is_empty-format : (base n : ℕ) → is_empty (format_uint base n) ≡ false
unfolding format_uint digits
is_empty-format base n = elim (Bool-cases (ltb n base)) [
  | inl small ↦ rw small refl
  | inr large ↦ rw large (is_empty-append (digits base n (n / base)) (48 + n % base))
]

pub read-decimal : (n : ℕ) → read_digits 10 0 (format_uint 10 n) ≡ some n
read-decimal = read_digits-format 10 (λ n h. omega arith) (λ n. omega arith) (λ n. omega arith)

pub read-octal : (n : ℕ) → read_digits 8 0 (format_uint 8 n) ≡ some n
read-octal = read_digits-format 8 (λ n h. omega arith) (λ n. omega arith) (λ n. omega arith)

length-zeros : (k : ℕ) → length (zeros k) ≡ k
unfolding zeros
length-zeros zero = refl
length-zeros (suc k) = ap suc (length-zeros k)

pub length-padded : (width : ℕ) (s : Str) → width ≤ length (padded width s)
unfolding padded
length-padded width s =
    omega (arith, length-append (zeros (width - length s)) s, length-zeros (width - length s))

read_digits-first : (c n : ℕ) (s : Str) → read_digits 10 0 (c ∷ s) ≡ some n → leb 48 c ≡ true
unfolding read_digits
read_digits-first c n s r = ground arith

parse_int64-unsigned :
    (n : ℕ) (s : Str)
    → n < 2 ^ 63
    → is_empty s ≡ false
    → read_digits 10 0 s ≡ some n
    → parse_int64 s ≡ some (pos n)
unfolding parse_int64 parse_uint fits plus minus
parse_int64-unsigned n [] h e r = cc
parse_int64-unsigned n (c ∷ s) h e r =
    let at_least = read_digits-first c n s r in
    let no_minus : nat_eq c b'-' ≡ false = ground arith in
    let no_plus : nat_eq c b'+' ≡ false = ground arith in
    rw (no_minus, no_plus, r, lt→ltb n (2 ^ 63) h) refl

-- A number below 2^63 that is printed in decimal is read as itself.
pub parse_int64-format : (n : ℕ) → n < 2 ^ 63 → parse_int64 (format_uint 10 n) ≡ some (pos n)
parse_int64-format n h =
    parse_int64-unsigned n (format_uint 10 n) h (is_empty-format 10 n) (read-decimal n)
