-- ===== src/Text.antt =====
-- Go strings and the functions of package `strings` that the code calls. A string is its bytes;
-- a separator is one byte wherever the code splits or cuts.
use Prim.Native.Char.{code}
use Prim.Native.String.{String}
use kube_ssh.Base.{
  ℕ, zero, suc, ◌+◌, ◌-◌, Bool, true, false, ◌&&◌, ◌||◌, List, [], ◌∷◌, ◌++◌, Option, none, some,
  length, drop, take, nat_eq, leb, ltb, if◌then◌else◌,
}
use mathlib.Core.Option
pub mod Laws
pub mod Numbers

abbrev pub Str : Type 0
Str = List ℕ

-- The bytes of an ASCII literal.
abbrev pub codes : String → Str
codes String.[] = []
codes (String.◌∷◌ c s) = code c ∷ codes s

infix 50 ◌==◌
unfoldable pub ◌==◌ : Str → Str → Bool
[] == [] = true
[] == (d ∷ t) = false
(c ∷ s) == [] = false
(c ∷ s) == (d ∷ t) = nat_eq c d && (s == t)

abbrev pub is_empty {ℓ} : {A : Type ℓ} → List A → Bool
is_empty [] = true
is_empty (c ∷ s) = false

-- strings.HasPrefix(s, prefix)
unfoldable pub has_prefix : Str → Str → Bool
has_prefix s [] = true
has_prefix [] (d ∷ p) = false
has_prefix (c ∷ s) (d ∷ p) = nat_eq c d && has_prefix s p

-- strings.HasSuffix(s, suffix)
unfoldable pub has_suffix : Str → Str → Bool
unfolding ◌==◌
has_suffix s p = leb (length p) (length s) && (drop (length s - length p) s == p)

-- strings.Index(s, part)
unfoldable pub index : Str → Str → Option ℕ
unfolding has_prefix
index [] p = if has_prefix [] p then some 0 else none
index (c ∷ s) p = if has_prefix (c ∷ s) p then some 0 else Option.map suc (index s p)

-- strings.Contains(s, sep) for a separator of one byte
unfoldable pub contains : ℕ → Str → Bool
contains c [] = false
contains c (d ∷ s) = nat_eq d c || contains c s

-- strings.Cut(s, sep) for a separator of one byte; `none` is found = false
unfoldable pub cut : ℕ → Str → Option (Str × Str)
cut c [] = none
cut c (d ∷ s) =
    if nat_eq d c then some ([], s) else Option.map (λ (p : Str × Str). (d ∷ p.0, p.1)) (cut c s)

-- strings.Split(s, sep) for a separator of one byte: the first part and those after it
unfoldable pub split : ℕ → Str → Str × List Str
split c [] = ([], [])
split c (d ∷ s) =
    let (first, rest) = split c s in if nat_eq d c then ([], first ∷ rest) else (d ∷ first, rest)

-- strings.LastIndexByte(s, sep)
unfoldable pub last_index : ℕ → Str → Option ℕ
last_index c [] = none
last_index c (d ∷ s) = elim (last_index c s) [
  | some i ↦ some (suc i)
  | none ↦ if nat_eq d c then some 0 else none
]

-- slices.Contains on a slice of strings
unfoldable pub elem : Str → List Str → Bool
unfolding ◌==◌
elem a [] = false
elem a (x ∷ xs) = (x == a) || elem a xs

-- net.JoinHostPort(host, port)
unfoldable pub join_host_port : Str → Str → Str
unfolding contains
join_host_port host port =
    if contains b':' host then b'[' ∷ (host ++ (b']' ∷ b':' ∷ port)) else host ++ (b':' ∷ port)

lower_byte : ℕ → ℕ
lower_byte c = if leb b'A' c && leb c b'Z' then c + 32 else c

-- strings.ToLower on ASCII. Outside ASCII only the Kelvin sign and the dotted capital I have an ASCII
-- lower case, `k` and `i`.
unfoldable pub to_lower : Str → Str
unfolding lower_byte
to_lower [] = []
to_lower (c ∷ s) = lower_byte c ∷ to_lower s

upper_byte : ℕ → ℕ
upper_byte c = if leb b'a' c && leb c b'z' then c - 32 else c

-- strings.ToUpper on ASCII
unfoldable pub to_upper : Str → Str
unfolding upper_byte
to_upper [] = []
to_upper (c ∷ s) = upper_byte c ∷ to_upper s

-- strings.Join(parts, sep) for a separator of one byte, the parts as `split` returns them
abbrev pub join : ℕ → Str × List Str → Str
join c (first, []) = first
join c (first, next ∷ more) = first ++ (c ∷ join c (next, more))

-- a < b on strings: by bytes
unfoldable pub str_lt : Str → Str → Bool
str_lt [] [] = false
str_lt [] (d ∷ t) = true
str_lt (c ∷ s) [] = false
str_lt (c ∷ s) (d ∷ t) = ltb c d || (nat_eq c d && str_lt s t)
