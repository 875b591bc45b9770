-- ===== src/Scp/Header/Printed.antt =====
-- The header lines that the sender prints, read by the receiver.
use Prim.Native.Nat.{◌^◌}
use kube_ssh.Base.{
  ℕ, ◌<◌, ◌≤◌, ◌≡◌, refl, ◌∙◌, false, [], ◌∷◌, ◌++◌, some, ok, arith, length, ltb, nat_eq,
}
use kube_ssh.Text.{Str, contains, is_empty}
use kube_ssh.Text.Laws.{cut-append, contains-append_false}
use kube_ssh.Text.Numbers.{format_uint, padded, read_digits}
use kube_ssh.Text.Numbers.Printed.{
  read-octal, read-decimal, read_digits-padded, read_digits-contains, parse_uint-eq, length-padded,
  parse_int64-format,
}
use kube_ssh.Scp.Header.{
  three_parts, later_parts, third_part, header_parts, with_mode, with_size, parse_scp_file,
  parse_scp_entry, file_header, directory_header, or_invalid, not_negative,
}

three_parts-eq :
    (a b c : Str)
    → contains 32 a ≡ false
    → contains 32 b ≡ false
    → three_parts (a ++ (32 ∷ (b ++ (32 ∷ c)))) ≡ some (a, b, c)
unfolding three_parts later_parts third_part
three_parts-eq a b c h k = rw (cut-append 32 a (b ++ (32 ∷ c)) h, cut-append 32 b c k) refl

module _ (mode : ℕ) where
  abbrev octal : Str
  octal = padded 4 (format_uint 8 mode)

  octal-reads : read_digits 8 0 octal ≡ some mode
  octal-reads = read_digits-padded 8 4 (format_uint 8 mode) (omega arith) ∙ read-octal mode

  octal-contains : (letter : ℕ) → (nat_eq letter 32 ≡ false) → contains 32 (letter ∷ octal) ≡ false
  unfolding contains
  octal-contains letter h = rw h (read_digits-contains 8 octal 0 mode 32 octal-reads (omega arith))

  long-enough : (letter : ℕ) → ltb (length (letter ∷ octal)) 5 ≡ false
  long-enough letter = ground (arith, length-padded 4 (format_uint 8 mode))

  with_mode-octal :
      (letter : ℕ) (b c : Str) → mode < 2 ^ 32 → with_mode (letter ∷ octal, b, c) ≡ ok (mode, b, c)
  unfolding with_mode or_invalid
  with_mode-octal letter b c h =
      rw
        (
          long-enough letter,
          parse_uint-eq 8 (2 ^ 32) mode octal
              (nonempty octal (length-padded 4 (format_uint 8 mode))) octal-reads h,
        )
        refl
    where
      nonempty : (s : Str) → 4 ≤ length s → is_empty s ≡ false
      nonempty [] k = absurd (omega arith)
      nonempty (c ∷ s) k = refl

  header_parts-octal :
      (letter : ℕ) (b c : Str)
      → nat_eq letter 32 ≡ false
      → contains 32 b ≡ false
      → mode < 2 ^ 32
      → header_parts (letter ∷ (octal ++ (32 ∷ (b ++ (32 ∷ c))))) ≡ ok (mode, b, c)
  unfolding header_parts or_invalid
  header_parts-octal letter b c l k h =
      rw (three_parts-eq (letter ∷ octal) b c (octal-contains letter l) k)
        (with_mode-octal letter b c h)

decimal-contains : (n : ℕ) (c : ℕ) → c < 48 → contains c (format_uint 10 n) ≡ false
decimal-contains n c h = read_digits-contains 10 (format_uint 10 n) 0 n c (read-decimal n) h

-- The header that sendSCPFile prints for a mode below 2^32, a size below 2^63 and any name, read by
-- parseSCPFile, gives them back.
pub parse_scp_file-header :
    (mode size : ℕ) (name : Str)
    → mode < 2 ^ 32
    → size < 2 ^ 63
    → parse_scp_file (file_header mode size name) ≡ ok (mode, size, name)
unfolding parse_scp_file file_header with_size or_invalid not_negative
parse_scp_file-header mode size name h k =
    rw
      (
        header_parts-octal mode b'C' (format_uint 10 size) name refl
            (decimal-contains size 32 (omega arith)) h,
        parse_int64-format size k,
      )
      refl

-- The header that sendSCPDir prints for a mode below 2^32, read by parseSCPEntry, gives mode and name.
pub parse_scp_entry-header :
    (mode : ℕ) (name : Str)
    → mode < 2 ^ 32
    → parse_scp_entry (directory_header mode name) ≡ ok (mode, name)
unfolding parse_scp_entry directory_header contains
parse_scp_entry-header mode name h =
    rw (header_parts-octal mode b'D' (b'0' ∷ []) name refl refl h) refl

-- A header is one line, where the name has no line break.
pub file_header-contains :
    (mode size : ℕ) (name : Str)
    → contains 10 name ≡ false
    → contains 10 (file_header mode size name) ≡ false
unfolding file_header contains
file_header-contains mode size name h =
    contains-append_false 10 (octal mode) _
      (read_digits-contains 8 (octal mode) 0 mode 10 (octal-reads mode) (omega arith))
      (contains-append_false 10 (format_uint 10 size) (32 ∷ name)
        (decimal-contains size 10 (omega arith)) h)
