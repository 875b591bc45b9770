-- ===== src/Scp/Header.antt =====
-- The header lines of the scp protocol, read and written: parseSCPFile, parseSCPEntry, parseSCPTimes and
-- cleanSCPName of pkg/podssh/backend/helper/scp.go, and the lines that its senders print.
pub mod Printed
pub mod Times
use Prim.Native.Nat.{◌^◌}
use kube_ssh.Base.{
  ◌+◌, ℕ, Bool, ◌||◌, List, [], ◌∷◌, ◌++◌, Option, none, some, Result, ok, err, internal, ◌>>=◌, ℤ,
  pos, negsuc, length, drop, ltb, if◌then◌else◌, get_elem?, nat_eq,
}
use kube_ssh.Text.{Str, codes, ◌==◌, cut, contains, is_empty}
use kube_ssh.Text.Numbers.{parse_uint, parse_int64, fields, format_uint, padded}

or_invalid : {A : Type 0} → Option A → Result A
or_invalid none = err internal
or_invalid (some a) = ok a

third_part : Str → Option (Str × Str) → Option (Str × Str × Str)
third_part a none = none
third_part a (some (b, c)) = some (a, b, c)

later_parts : Option (Str × Str) → Option (Str × Str × Str)
unfolding cut third_part
later_parts none = none
later_parts (some (a, rest)) = third_part a (cut 32 rest)

-- strings.SplitN(line, " ", 3) where it has three parts
unfoldable pub three_parts : Str → Option (Str × Str × Str)
unfolding cut later_parts
three_parts line = later_parts (cut 32 line)

with_mode : Str × Str × Str → Result (ℕ × Str × Str)
unfolding parse_uint or_invalid
with_mode (a, b, c) =
    if ltb (length a) 5
    then err internal
    else or_invalid (parse_uint 8 (2 ^ 32) (drop 1 a)) >>= λ mode. ok (mode, b, c)

-- The parts of a header line, of which the first has at least five bytes, and its mode.
unfoldable pub header_parts : Str → Result (ℕ × Str × Str)
unfolding three_parts or_invalid with_mode
header_parts line = or_invalid (three_parts line) >>= with_mode

-- A size below 0 is rejected.
not_negative : ℤ → Result ℕ
not_negative (pos n) = ok n
not_negative (negsuc n) = err internal

with_size : ℕ × Str × Str → Result (ℕ × ℕ × Str)
unfolding parse_int64 or_invalid not_negative
with_size (mode, b, name) =
    or_invalid (parse_int64 b) >>= not_negative >>= λ size. ok (mode, size, name)

unfoldable pub parse_scp_file : Str → Result (ℕ × ℕ × Str)
unfolding header_parts with_size
parse_scp_file line = header_parts line >>= with_size

unfoldable pub parse_scp_entry : Str → Result (ℕ × Str)
unfolding header_parts
parse_scp_entry line = header_parts line >>= λ (mode, _, name). ok (mode, name)

-- Seconds since 1970
pub record ScpTimes : Type 0 where
  pub mtime : ℤ
  pub atime : ℤ

unfoldable pub parse_scp_times : Str → Result ScpTimes
unfolding or_invalid
parse_scp_times line = of_fields (fields line)
  where
    of_fields : List Str → Result ScpTimes
    of_fields (a ∷ b ∷ c ∷ d ∷ e ∷ []) = or_invalid (parse_int64 (drop 1 a)) >>= λ mtime.
        or_invalid (parse_int64 c) >>= λ atime. ok (record { mtime = mtime; atime = atime })
    of_fields _ = err internal

unfoldable pub is_rejected : Str → Bool
unfolding ◌==◌ contains
is_rejected name = is_empty name || name == codes "." || name == codes ".." || contains b'/' name

unfoldable pub clean_scp_name : Str → Result Str
unfolding is_rejected
clean_scp_name name = if is_rejected name then err internal else ok name

-- "C%04o %d %s\n" and "D%04o 0 %s\n" without the line break
unfoldable pub file_header : ℕ → ℕ → Str → Str
unfolding format_uint padded
file_header mode size name =
    b'C' ∷ (padded 4 (format_uint 8 mode) ++ (32 ∷ (format_uint 10 size ++ (32 ∷ name))))

unfoldable pub directory_header : ℕ → Str → Str
unfolding format_uint padded
directory_header mode name = b'D' ∷ (padded 4 (format_uint 8 mode) ++ (32 ∷ b'0' ∷ 32 ∷ name))

format_int : ℤ → Str
unfolding format_uint
format_int (pos n) = format_uint 10 n
format_int (negsuc n) = b'-' ∷ format_uint 10 (n + 1)

-- "T%d 0 %d 0\n" without the line break
unfoldable pub times_header : ℤ → Str
unfolding format_int
times_header mtime = b'T' ∷ (format_int mtime ++ (codes " 0 " ++ (format_int mtime ++ codes " 0")))
