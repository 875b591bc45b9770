-- ===== src/Text/Numbers.antt =====
-- Numbers in text: package strconv and the verbs %d and %o of package fmt, on ASCII digits.
use kube_ssh.Base.{
  ℕ, zero, suc, ◌+◌, ◌-◌, ◌*◌, ◌/◌, ◌%◌, ◌<◌, ◌≤◌, ◌≡◌, refl, sym, ◌∙◌, ap, Bool, true, false, ◌&&◌,
  ◌||◌, List, [], ◌∷◌, ◌++◌, Option, none, some, arith, length, nat_eq, leb, ltb, if◌then◌else◌, ℤ,
  pos, negsuc, Bool-cases,
}
pub mod Printed
pub mod Fields
use Prim.Native.Nat.{◌^◌}
use kube_ssh.Text.{Str, contains}

-- The digits of a number in a base up to ten, on fuel: there are at most as many as its successor
-- counts.
unfoldable pub digits : ℕ → ℕ → ℕ → Str
digits base zero n = []
digits base (suc fuel) n =
    let rest = digits base fuel (n / base) in
    if ltb n base then (48 + n) ∷ [] else rest ++ ((48 + n % base) ∷ [])

-- strconv.FormatUint(n, base)
unfoldable pub format_uint : ℕ → ℕ → Str
unfolding digits
format_uint base n = digits base (suc n) n

zeros : ℕ → Str
zeros zero = []
zeros (suc n) = 48 ∷ zeros n

-- A minimal width of `n` digits: fmt pads with zeros in front.
unfoldable pub padded : ℕ → Str → Str
unfolding zeros
padded width s = zeros (width - length s) ++ s

-- The value of digits read behind those of value `high`; `none` at a byte that is no digit.
unfoldable pub read_digits : ℕ → ℕ → Str → Option ℕ
read_digits base high [] = some high
read_digits base high (c ∷ s) =
    let rest = read_digits base (high * base + (c - 48)) s in
    if leb 48 c && ltb c (48 + base) then rest else none

fits : ℕ → Option ℕ → Option ℕ
fits bound none = none
fits bound (some n) = if ltb n bound then some n else none

-- strconv.ParseUint(s, base, bits), `bound` being 2 to the power of bits; `none` is any error. That Go
-- stops at the first digit with which the value passes the bound makes no other difference.
unfoldable pub parse_uint : ℕ → ℕ → Str → Option ℕ
unfolding fits read_digits
parse_uint base bound [] = none
parse_uint base bound (c ∷ s) = fits bound (read_digits base 0 (c ∷ s))

minus : Option ℕ → Option ℤ
minus none = none
minus (some zero) = some (pos 0)
minus (some (suc n)) = some (negsuc n)

plus : Option ℕ → Option ℤ
plus none = none
plus (some n) = some (pos n)

-- strconv.ParseInt(s, 10, 64)
unfoldable pub parse_int64 : Str → Option ℤ
unfolding parse_uint minus plus
parse_int64 [] = none
parse_int64 (c ∷ s) =
    if nat_eq c b'-'
    then minus (parse_uint 10 (2 ^ 63 + 1) s)
    else if nat_eq c b'+'
    then plus (parse_uint 10 (2 ^ 63) s)
    else plus (parse_uint 10 (2 ^ 63) (c ∷ s))

unfoldable pub is_space : ℕ → Bool
is_space c = nat_eq c 32 || (leb 9 c && leb c 13)

-- strings.Fields on ASCII: the part before the first space, and the later parts that are not empty.
named : Str × List Str → List Str
named ([], rest) = rest
named (d ∷ t, rest) = (d ∷ t) ∷ rest

field_parts : Str → Str × List Str
unfolding is_space named
field_parts [] = ([], [])
field_parts (c ∷ s) =
    let (first, rest) = field_parts s in
    if is_space c then ([], named (first, rest)) else (c ∷ first, rest)

unfoldable pub fields : Str → List Str
unfolding field_parts named
fields s = named (field_parts s)
