-- ===== src/Text/Numbers/Fields.antt =====
-- The fields of a text whose words and single spaces are known.
use kube_ssh.Base.{ℕ, ◌+◌, ◌*◌, ◌-◌, ◌≡◌, refl, false, [], ◌∷◌, ◌++◌, some, All, arith}
use kube_ssh.Text.{Str, is_empty}
use kube_ssh.Text.Numbers.{fields, field_parts, named, is_space, read_digits, format_uint}
use kube_ssh.Text.Numbers.Printed.{read-decimal}

-- A text with no space in it.
abbrev pub Word : Str → Type 0
Word = All (λ c. is_space c ≡ false)

field_parts-space :
    (word rest : Str) → Word word → field_parts (word ++ 32 ∷ rest) ≡ (word, fields rest)
unfolding field_parts fields is_space
field_parts-space [] rest h = refl
field_parts-space (c ∷ word) rest h = rw (h.0, field_parts-space word rest h.1) refl

field_parts-Word : (word : Str) → Word word → field_parts word ≡ (word, [])
unfolding field_parts is_space
field_parts-Word [] h = refl
field_parts-Word (c ∷ word) h = rw (h.0, field_parts-Word word h.1) refl

-- The first of several words.
pub fields-space :
    (word rest : Str)
    → is_empty word ≡ false
    → Word word
    → fields (word ++ 32 ∷ rest) ≡ word ∷ fields rest
unfolding fields named
fields-space [] rest some_byte h = cc
fields-space (c ∷ word) rest some_byte h = rw (field_parts-space (c ∷ word) rest h) refl

pub fields-Word : (word : Str) → is_empty word ≡ false → Word word → fields word ≡ word ∷ []
unfolding fields named
fields-Word [] some_byte h = cc
fields-Word (c ∷ word) some_byte h = rw (field_parts-Word (c ∷ word) h) refl

read_digits-Word : (s : Str) (high n : ℕ) → read_digits 10 high s ≡ some n → Word s
unfolding read_digits is_space
read_digits-Word [] high n h = tt
read_digits-Word (c ∷ s) high n h =
    (ground arith, read_digits-Word s (high * 10 + (c - 48)) n (ground arith))

pub format-Word : (n : ℕ) → Word (format_uint 10 n)
format-Word n = read_digits-Word (format_uint 10 n) 0 n (read-decimal n)
