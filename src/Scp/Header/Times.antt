-- ===== src/Scp/Header/Times.antt =====
-- The line of times that the sender prints has four fields, and the receiver wants five.
use kube_ssh.Base.{
  ◌≡◌, refl, ◌∙◌, ap, false, [], ◌∷◌, ◌++◌, err, internal, ℤ, pos, negsuc, ◌+◌, arith,
}
use kube_ssh.Text.{Str, codes, contains, is_empty}
use kube_ssh.Text.Laws.{contains-append_false}
use kube_ssh.Text.Numbers.{fields, is_space}
use kube_ssh.Text.Numbers.Printed.{is_empty-format}
use kube_ssh.Text.Numbers.Fields.{Word, fields-space, fields-Word, format-Word}
use kube_ssh.Scp.Header.{format_int, times_header, parse_scp_times}

format_int-Word : (n : ℤ) → Word (format_int n)
unfolding format_int is_space
format_int-Word (pos n) = format-Word n
format_int-Word (negsuc n) = (refl, format-Word (n + 1))

is_empty-format_int : (n : ℤ) → is_empty (format_int n) ≡ false
unfolding format_int
is_empty-format_int (pos n) = is_empty-format 10 n
is_empty-format_int (negsuc n) = refl

fields-times_header :
    (mtime : ℤ)
    → fields (times_header mtime)
      ≡ (b'T' ∷ format_int mtime) ∷ codes "0" ∷ format_int mtime ∷ codes "0" ∷ []
unfolding times_header is_space
fields-times_header mtime =
    let word = format_int-Word mtime in
    let some_byte = is_empty-format_int mtime in
    fields-space (b'T' ∷ format_int mtime) _ refl (refl, word)
    ∙ ap (λ rest. (b'T' ∷ format_int mtime) ∷ rest)
        (fields-space (codes "0") (format_int mtime ++ codes " 0") refl (refl, tt)
          ∙ ap (λ rest. codes "0" ∷ rest)
              (fields-space (format_int mtime) (codes "0") some_byte word
                ∙ ap (λ rest. format_int mtime ∷ rest) (fields-Word (codes "0") refl (refl, tt))))

-- Of any modification time, parseSCPTimes rejects the line that sendSCPTimes prints.
pub parse_scp_times-times_header : (mtime : ℤ) → parse_scp_times (times_header mtime) ≡ err internal
unfolding parse_scp_times
parse_scp_times-times_header mtime = rw (fields-times_header mtime) refl

Word-contains : (s : Str) → Word s → contains 10 s ≡ false
unfolding contains is_space
Word-contains [] h = refl
Word-contains (c ∷ s) h = ground (arith, Word-contains s h.1)

-- The line of times is one line.
pub times_header-contains : (mtime : ℤ) → contains 10 (times_header mtime) ≡ false
unfolding times_header contains
times_header-contains mtime =
    let number = Word-contains (format_int mtime) (format_int-Word mtime) in
    contains-append_false 10 (format_int mtime) _ number
      (contains-append_false 10 (format_int mtime) (codes " 0") number refl)
