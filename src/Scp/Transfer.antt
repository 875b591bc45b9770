-- ===== src/Scp/Transfer.antt =====
-- A regular file that the sender writes to the receiver.
use Prim.Native.Nat.{◌^◌}
use kube_ssh.Base.{
  ℕ, suc, ◌<◌, ◌≡◌, refl, ap, Bool, true, false, List, [], ◌∷◌, ◌++◌, Option, none, some, Error, ok,
  err, internal, arith, length, length-append, take-length-append, leb, append_assoc,
  drop-length-append, if◌then◌else◌, ℤ,
}
use kube_ssh.Text.{Str, contains}
use kube_ssh.Text.Laws.{cut-append}
use kube_ssh.Scp.Wire.{
  Call, open_file, copy_to, close_file, chtimes, Wire, ◌>>=◌, continue, pure, put, write,
  first_byte, taken, read_byte, read_line, read_size, perform, write_scp_ack, refuse, reported,
  checked,
}
use kube_ssh.Scp.Header.{ScpTimes, times_header, file_header, clean_scp_name}
use kube_ssh.Scp.Header.Printed.{parse_scp_file-header, file_header-contains}
use kube_ssh.Scp.Header.Times.{parse_scp_times-times_header, times_header-contains}
use kube_ssh.Scp.Paths.{filepath_base}
use kube_ssh.Scp.Sink.{
  Sink, more, destination, last_dir, act, copy_size, first_error, terminated, set_times,
  receive_scp_file, handle_times, handle_file, handle_line, with_line, sink_round,
}
use kube_ssh.Scp.Source.{FileInfo}
use kube_ssh.Scp.Sent.{file_text, sender, sent-eq}

-- The variables of a receiver in a directory.
abbrev pub at : Bool → Str → List Str → Option ScpTimes → Sink
at is_dir dir outer times = record {
  target_is_dir = is_dir;
  dirs = dir ∷ outer;
  pending_times = times;
}

abbrev pub stamped : Str → Option ScpTimes → List Call → List Call
stamped dest none calls = calls
stamped dest (some times) calls = chtimes dest times.atime times.mtime ∷ calls

-- What the receiver has done behind a file that it took: two acknowledgements, and the calls for the file.
abbrev pub took : Wire → Str → Option ScpTimes → Str → ℕ → Str → ℕ → Wire
took w dest times bytes mode rest writes = record w {
  incoming = rest;
  outgoing = (w.outgoing ++ (0 ∷ [])) ++ (0 ∷ []);
  writes = writes;
  calls = stamped dest times (close_file dest ∷ copy_to dest bytes ∷ open_file dest mode ∷ w.calls);
}

-- What it has done behind a line that it rejects.
abbrev pub rejected : (Error → Str) → Wire → Str → ℕ → Wire
rejected message w rest writes = record w {
  incoming = rest;
  outgoing = w.outgoing ++ (1 ∷ (message internal ++ (10 ∷ [])));
  writes = suc writes;
}

-- A receiver whose connection has `given` to read and takes two more writes at least.
abbrev pub reading : Wire → Str → ℕ → Wire
reading w given writes = record w { incoming = given; writes = suc (suc writes) }

module _ (message : Error → Str) (outcome : List Call → Call → Option Error)
    (works : (calls : List Call) (call : Call) → outcome calls call ≡ none) (is_dir : Bool)
    (dir : Str) (outer : List Str) (times : Option ScpTimes) (w : Wire) (writes : ℕ) where
  set_times-stamped :
      (given : Option ScpTimes) (dest : Str) (now : Wire)
      → set_times outcome message dest given now
        ≡ (ok tt, record now { calls = stamped dest given now.calls })
  unfolding set_times perform
  set_times-stamped none dest now = refl
  set_times-stamped (some stamps) dest now = refl

  receive-bytes :
      (given : Option ScpTimes) (dest bytes rest : Str) (mode : ℕ)
      → receive_scp_file outcome message dest mode
          (length bytes)
          given
          (reading w (bytes ++ (0 ∷ rest)) writes)
        ≡ (ok tt, took w dest given bytes mode rest writes)
  unfolding receive_scp_file act copy_size first_error terminated perform checked ◌>>=◌ continue
      write_scp_ack write put read_byte first_byte taken read_size
  receive-bytes given dest bytes rest mode =
      let enough : leb (length bytes) (length (bytes ++ (0 ∷ rest))) ≡ true =
        ground (arith, length-append bytes (0 ∷ rest)) in
      rw
        (
          works w.calls (open_file dest mode),
          enough,
          take-length-append bytes (0 ∷ rest),
          drop-length-append bytes (0 ∷ rest),
          works,
          works,
          set_times-stamped given dest,
        )
        refl

  handle-bytes :
      (name bytes rest : Str) (mode : ℕ)
      → clean_scp_name name ≡ ok name
      → mode < 2 ^ 32
      → length bytes < 2 ^ 63
      → handle_line outcome message
          (at is_dir dir outer times)
          (file_header mode (length bytes) name)
          (reading w (bytes ++ (0 ∷ rest)) writes)
        ≡ (
          ok (more (at is_dir dir outer none)),
          took w (destination (at is_dir dir outer times) dir name) times bytes mode rest writes,
        )
  unfolding handle_line handle_file ◌>>=◌ continue reported last_dir file_header
  handle-bytes name bytes rest mode clean small fits =
      let dest = destination (at is_dir dir outer times) dir name in
      rw (parse_scp_file-header mode (length bytes) name small fits, clean)
        (ap (λ done. continue done (λ _. pure (more (at is_dir dir outer none))))
          (receive-bytes times dest bytes rest mode))

  round-bytes :
      (name bytes rest : Str) (mode : ℕ)
      → clean_scp_name name ≡ ok name
      → contains 10 name ≡ false
      → mode < 2 ^ 32
      → length bytes < 2 ^ 63
      → sink_round outcome message
          (at is_dir dir outer times)
          (reading w (file_header mode (length bytes) name ++ (10 ∷ (bytes ++ (0 ∷ rest)))) writes)
        ≡ (
          ok (more (at is_dir dir outer none)),
          took w (destination (at is_dir dir outer times) dir name) times bytes mode rest writes,
        )
  unfolding sink_round with_line read_line taken
  round-bytes name bytes rest mode clean one_line small fits =
      rw
        (cut-append 10 (file_header mode (length bytes) name) (bytes ++ (0 ∷ rest))
          (file_header-contains mode (length bytes) name one_line))
        (handle-bytes name bytes rest mode clean small fits)

  handle-times :
      (mtime : ℤ) (rest : Str)
      → handle_line outcome message
          (at is_dir dir outer times)
          (times_header mtime)
          (reading w rest writes)
        ≡ (err internal, rejected message w rest writes)
  unfolding handle_line handle_times reported refuse write_scp_ack write put ◌>>=◌ continue
      times_header
  handle-times mtime rest = rw (parse_scp_times-times_header mtime) refl

  round-times :
      (mtime : ℤ) (rest : Str)
      → sink_round outcome message
          (at is_dir dir outer times)
          (reading w (times_header mtime ++ (10 ∷ rest)) writes)
        ≡ (err internal, rejected message w rest writes)
  unfolding sink_round with_line read_line taken
  round-times mtime rest =
      rw (cut-append 10 (times_header mtime) rest (times_header-contains mtime))
        (handle-times mtime rest)

  -- The sender writes a regular file to a peer that acknowledges: the file's size is that of its bytes and
  -- below 2^63, its permissions are below 2^32, its name is clean and has no line break, and it opens,
  -- reads and closes without error. Then the sender returns without error. A receiver that reads what it
  -- wrote, whatever follows, whose system calls succeed and whose next two writes do, in any directory,
  -- then does this in one round. Without -p, it opens its destination with the same mode, writes the same
  -- bytes to it, closes it, sets the times that it was told before, acknowledges twice, has read just what
  -- was sent, and stays where it is with no times pending. With -p, where the sender writes a line of
  -- times first, it rejects that line with an error that it writes to the peer, and makes no call.
  pub sink_round-send_scp_file :
      (ending write_error : Error) (preserve : Bool) (path bytes rest : Str) (info : FileInfo)
      (sends : ℕ)
      → clean_scp_name (filepath_base path) ≡ ok (filepath_base path)
      → contains 10 (filepath_base path) ≡ false
      → info.permissions < 2 ^ 32
      → info.size ≡ length bytes
      → length bytes < 2 ^ 63
      → let sent = sender message ending write_error preserve path info bytes sends in
        let dest = destination (at is_dir dir outer times) dir (filepath_base path) in
        (sent.0 ≡ ok tt)
        × (sink_round outcome message
              (at is_dir dir outer times)
              (reading w (sent.1.outgoing ++ rest) writes)
            ≡ (if preserve
                then (err internal, rejected message w (file_text path info bytes ++ rest) writes)
                else (
                  ok (more (at is_dir dir outer none)),
                  took w dest times bytes info.permissions rest writes,
                )))
  sink_round-send_scp_file ending write_error false path bytes rest info sends clean one_line small
        exact fits =
      let (returns, text) = sent-eq message ending write_error false path info bytes sends in
      (
        returns,
        rw
            (
              text,
              exact,
              append_assoc (file_header info.permissions (length bytes) (filepath_base path)) _
                  rest,
              append_assoc bytes (0 ∷ []) rest,
            )
            (round-bytes (filepath_base path) bytes rest info.permissions clean one_line small
              fits),
      )
  sink_round-send_scp_file ending write_error true path bytes rest info sends clean one_line small
        exact fits =
      let (returns, text) = sent-eq message ending write_error true path info bytes sends in
      (
        returns,
        rw (text, append_assoc (times_header info.modified) _ rest)
            (round-times info.modified (file_text path info bytes ++ rest)),
      )
