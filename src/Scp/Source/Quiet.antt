-- ===== src/Scp/Source/Quiet.antt =====
-- The sender makes no call that changes files.
use kube_ssh.Base.{
  ℕ, zero, suc, ◌≡◌, Bool, true, false, List, [], ◌∷◌, Option, none, some, Error, internal, Result,
  ok, err, Bool-cases, inl, inr, nat_eq, leb, length,
}
use kube_ssh.Text.{Str, cut}
use kube_ssh.Scp.Wire.{
  Call, Wire, Io, ◌>>◌, put, write, first_byte, taken, read_byte, read_line, read_size,
  read_scp_response, answered, checked,
}
use kube_ssh.Scp.Options.{ScpOptions}
use kube_ssh.Scp.Paths.{filepath_join}
use kube_ssh.Scp.Sink.Kept.{
  Post, Keeps, Any, Invariant, bind-Keeps, then-Keeps, refuse-Keeps, reported-Keeps, checked-Keeps,
}
use kube_ssh.Scp.Source.{
  Node, file, directory, Entries, no_entries, entry, FileInfo, Contents, returned, write_bytes,
  exchange, send_scp_times, times_first, send_scp_file, open_directory, send_scp_entry,
  send_scp_entries, send_target, run_scp_source,
}

abbrev IsQuiet : Wire → Type 0
IsQuiet w = w.calls ≡ []

put-IsQuiet : (writes : ℕ) (s : Str) → Keeps IsQuiet Any (put writes s)
unfolding put
put-IsQuiet zero s w h = h
put-IsQuiet (suc left) s w h = (h, tt)

write-IsQuiet : (s : Str) → Keeps IsQuiet Any (write s)
unfolding write
write-IsQuiet s w h = put-IsQuiet w.writes s w h

taken-IsQuiet :
    {A : Type 0} (w : Wire) (got : Option (A × Str)) → IsQuiet w → Post IsQuiet Any (taken w got)
unfolding taken
taken-IsQuiet w none h = h
taken-IsQuiet w (some (value, rest)) h = (h, tt)

read_byte-IsQuiet : Keeps IsQuiet Any read_byte
unfolding read_byte
read_byte-IsQuiet w h = taken-IsQuiet w (first_byte w.incoming) h

read_size-IsQuiet : (size : ℕ) (w : Wire) → IsQuiet w → IsQuiet (read_size size w).1
unfolding read_size
read_size-IsQuiet size w h = elim (Bool-cases (leb size (length w.incoming))) [
  | inl enough ↦ rw enough h
  | inr short ↦ rw short h
]

module _ (outcome : List Call → Call → Option Error) (message : Error → Str) where
  quiet : Invariant outcome
  quiet = record {
    I = IsQuiet;
    Allowed = λ path. ⊥;
    write-Keeps = write-IsQuiet;
    read_byte-Keeps = read_byte-IsQuiet;
    read_size-Keeps = read_size-IsQuiet;
    perform-Keeps = λ call w none_allowed h. absurd none_allowed;
    join-Allowed = λ dir name none_allowed clean. none_allowed;
  }

  wire-IsQuiet : {A : Type 0} (done : Result A × Wire) → Post IsQuiet Any done → IsQuiet done.1
  wire-IsQuiet (err error, w) h = h
  wire-IsQuiet (ok value, w) h = h.0

  line-IsQuiet : (w : Wire) → IsQuiet w → IsQuiet (read_line w).1
  unfolding read_line
  line-IsQuiet w h =
      wire-IsQuiet (taken w (cut 10 w.incoming)) (taken-IsQuiet w (cut 10 w.incoming) h)

  answered-IsQuiet : (status : ℕ) → Keeps IsQuiet Any (answered status)
  unfolding answered
  answered-IsQuiet status w h = elim (Bool-cases (nat_eq status 0)) [
    | inl fine ↦ rw fine (h, tt)
    | inr failed ↦ elim (Bool-cases (leb status 2)) [
      | inl told ↦ rw (failed, told) (line-IsQuiet w h)
      | inr unknown ↦ rw (failed, unknown) h
    ]
  ]

  response-IsQuiet : Keeps IsQuiet Any read_scp_response
  unfolding read_scp_response quiet
  response-IsQuiet =
      bind-Keeps outcome message quiet Any Any read_byte answered read_byte-IsQuiet
        (λ status _. answered-IsQuiet status)

  and_then :
      (first next : Io Unit)
      → Keeps IsQuiet Any first
      → Keeps IsQuiet Any next
      → Keeps IsQuiet Any (first >> next)
  unfolding quiet
  and_then first next = then-Keeps outcome message quiet Any first next

  checked-IsQuiet : (error : Option Error) → Keeps IsQuiet Any (checked message error)
  unfolding quiet
  checked-IsQuiet = checked-Keeps outcome message quiet

  exchange-IsQuiet : (s : Str) → Keeps IsQuiet Any (exchange s)
  unfolding exchange
  exchange-IsQuiet s = and_then (write s) read_scp_response (write-IsQuiet s) response-IsQuiet

  returned-IsQuiet : (error : Option Error) → Keeps IsQuiet Any (returned error)
  unfolding returned
  returned-IsQuiet none w h = (h, tt)
  returned-IsQuiet (some error) w h = h

  bytes-IsQuiet : (s : Str) → Keeps IsQuiet Any (write_bytes s)
  unfolding write_bytes
  bytes-IsQuiet [] w h = (h, tt)
  bytes-IsQuiet (c ∷ s) w h = write-IsQuiet (c ∷ s) w h

  times-IsQuiet :
      (preserve : Bool) (info : FileInfo) → Keeps IsQuiet Any (times_first message preserve info)
  unfolding times_first send_scp_times
  times-IsQuiet true info w h = exchange-IsQuiet _ w h
  times-IsQuiet false info w h = (h, tt)

  module _ (preserve : Bool) where
    file-IsQuiet :
        (path : Str) (info : FileInfo) (contents : Contents)
        → Keeps IsQuiet Any (send_scp_file message preserve path info contents)
    unfolding send_scp_file
    file-IsQuiet path info contents =
        and_then _ _
          (and_then _ _
            (and_then _ _
              (and_then _ _
                (and_then _ _ (and_then _ _ (times-IsQuiet preserve info) (exchange-IsQuiet _))
                  (checked-IsQuiet contents.open_error))
                (bytes-IsQuiet contents.bytes))
              (returned-IsQuiet contents.read_error))
            (returned-IsQuiet contents.close_error))
          (exchange-IsQuiet _)

    open-IsQuiet :
        (path : Str) (info : FileInfo) (read_error : Option Error)
        → Keeps IsQuiet Any (open_directory message preserve path info read_error)
    unfolding open_directory
    open-IsQuiet path info read_error =
        and_then _ _ (and_then _ _ (times-IsQuiet preserve info) (exchange-IsQuiet _))
          (checked-IsQuiet read_error)

    mutual
      unfolding send_scp_entry send_scp_entries

      entry-IsQuiet :
          (path : Str) (node : Node) → Keeps IsQuiet Any (send_scp_entry message preserve path node)
      entry-IsQuiet path (file true info contents) = file-IsQuiet path info contents
      entry-IsQuiet path (file false info contents) = λ w h. (h, tt)
      entry-IsQuiet path (directory info read_error listed) =
          and_then _ _
            (and_then _ _ (open-IsQuiet path info read_error) (entries-IsQuiet path listed))
            (exchange-IsQuiet _)

      entries-IsQuiet :
          (path : Str) (listed : Entries)
          → Keeps IsQuiet Any (send_scp_entries message preserve path listed)
      entries-IsQuiet path no_entries = λ w h. (h, tt)
      entries-IsQuiet path (entry name info_error node rest) =
          and_then _ _
            (and_then _ _ (checked-IsQuiet info_error)
              (entry-IsQuiet (filepath_join path name) node))
            (entries-IsQuiet path rest)

    target-IsQuiet :
        (recursive : Bool) (path : Str) (node : Node)
        → Keeps IsQuiet Any (send_target message preserve recursive path node)
    unfolding send_target quiet
    target-IsQuiet recursive path (file is_regular info contents) = file-IsQuiet path info contents
    target-IsQuiet true path (directory info read_error listed) =
        entry-IsQuiet path (directory info read_error listed)
    target-IsQuiet false path (directory info read_error listed) =
        refuse-Keeps outcome message quiet (Any {A = Unit}) internal

  pub run_scp_source-IsQuiet :
      (stat : Str → Result Node) (opts : ScpOptions) (w : Wire)
      → w.calls ≡ []
      → (run_scp_source message stat opts w).1.calls ≡ []
  unfolding run_scp_source quiet
  run_scp_source-IsQuiet stat opts w h = wire-IsQuiet (run_scp_source message stat opts w) (
      bind-Keeps outcome message quiet Any Any _ _
        (bind-Keeps outcome message quiet Any Any read_scp_response _ response-IsQuiet
          (λ _ _. reported-Keeps outcome message quiet Any (stat opts.target) (λ _ _. tt)))
        (λ node _. target-IsQuiet opts.preserve opts.recursive opts.target node) w h)
