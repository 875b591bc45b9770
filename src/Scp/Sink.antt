-- ===== src/Scp/Sink.antt =====
-- runSCPSink and receiveSCPFile of pkg/podssh/backend/helper/scp.go: what an scp process does that
-- receives files.
use kube_ssh.Base.{
  ℕ, zero, suc, Bool, true, false, ◌||◌, List, [], ◌∷◌, Option, none, some, Error, eof, internal,
  panic, Result, ok, err, length, nat_eq, if◌then◌else◌, leb,
}
use kube_ssh.Text.{Str}
use kube_ssh.Scp.Wire.{
  Call, mkdir_all, open_file, copy_to, close_file, chtimes, Wire, Io, ◌>>=◌, ◌>>◌, pure, fail, lift,
  read_byte, read_line, read_size, perform, write_scp_ack, refuse, reported, checked,
}
use kube_ssh.Scp.Header.{ScpTimes, parse_scp_file, parse_scp_entry, parse_scp_times, clean_scp_name}
pub mod Kept
pub mod Commands
pub mod Inside
pub mod Below
use kube_ssh.Scp.Paths.{filepath_join}

-- The variables of the loop. `dirs` has the last directory first.
pub record Sink : Type 0 where
  pub target_is_dir : Bool
  pub dirs : List Str
  pub pending_times : Option ScpTimes

pub data Progress : Type 0 where
  more : Sink → Progress
  finished : Progress

-- What a run returns, and `none` where the fuel is used up.
abbrev pub Outcome : Type 0
Outcome = Option (Result Unit × Wire)

-- dirs[len(dirs)-1]
unfoldable pub last_dir : List Str → Result Str
last_dir [] = err panic
last_dir (dir ∷ _) = ok dir

-- len(dirs) > 1
unfoldable pub is_nested : List Str → Bool
is_nested (dir ∷ parent ∷ _) = true
is_nested _ = false

-- The path of an entry: in the last directory under its name, or the target itself.
unfoldable pub destination : Sink → Str → Str → Str
unfolding is_nested filepath_join
destination s dir name = if s.target_is_dir || is_nested s.dirs then filepath_join dir name else dir

unfoldable pub pop_dir : List Str → List Str
pop_dir (dir ∷ parent ∷ rest) = parent ∷ rest
pop_dir dirs = dirs

is_eof : Error → Bool
is_eof eof = true
is_eof _ = false

start : (Str → Bool) → Str → Sink
start is_dir root = record { target_is_dir = is_dir root; dirs = root ∷ []; pending_times = none }

-- What the system answers to a call, after the earlier calls; the text of an error.
module _ (outcome : List Call → Call → Option Error) (message : Error → Str) where
  unfoldable pub set_times : Str → Option ScpTimes → Io Unit
  unfolding perform
  set_times path none w = (ok tt, w)
  set_times path (some times) w =
      (ok tt, (perform outcome (chtimes path times.atime times.mtime) w).1)

  unfoldable pub act : Call → Io Unit
  unfolding perform checked
  act call w = let (error, w') = perform outcome call w in checked message error w'

  unfoldable pub first_error : Option Error → Option Error → Option Error
  first_error (some error) _ = some error
  first_error none error = error

  -- An error of the disk comes before one of the reader, where both stop the copying.
  unfoldable pub copy_size : Str → ℕ → Io Unit
  unfolding read_size perform checked first_error
  copy_size dest size w =
      let ((bytes, short), w₁) = read_size size w in
      let (copy_error, w₂) = perform outcome (copy_to dest bytes) w₁ in
      let (close_error, w₃) = perform outcome (close_file dest) w₂ in
      checked message (first_error (first_error copy_error short) close_error) w₃

  unfoldable pub terminated : ℕ → Io Unit
  terminated status = if nat_eq status 0 then pure tt else fail internal

  unfoldable pub receive_scp_file : Str → ℕ → ℕ → Option ScpTimes → Io Unit
  unfolding act copy_size terminated ◌>>=◌ read_byte write_scp_ack set_times
  receive_scp_file dest mode size times =
      write_scp_ack message none
      >> act (open_file dest mode)
      >> copy_size dest size
      >> read_byte
      >>= terminated
      >> set_times dest times
      >> write_scp_ack message none

  -- Each command ends by an acknowledgement and leaves the variables as given.
  unfoldable pub acknowledged : Sink → Io Progress
  unfolding ◌>>=◌ write_scp_ack
  acknowledged s = write_scp_ack message none >> pure (more s)

  unfoldable pub handle_times : Sink → Str → Io Progress
  unfolding acknowledged reported ◌>>=◌
  handle_times s line = reported message (parse_scp_times line) >>= λ times.
      acknowledged (record s { pending_times = some times })

  enter : Sink → Str → ℕ → Io Progress
  unfolding act set_times acknowledged ◌>>=◌
  enter s dir mode =
      act (mkdir_all dir mode)
      >> set_times dir s.pending_times
      >> acknowledged (record s { dirs = dir ∷ s.dirs; pending_times = none })

  handle_directory : Sink → Str → Io Progress
  unfolding enter reported ◌>>=◌ last_dir destination
  handle_directory s line = reported message (parse_scp_entry line) >>= λ (mode, given).
      reported message (clean_scp_name given) >>= λ name.
      lift (last_dir s.dirs) >>= λ dir. enter s (destination s dir name) mode

  unfoldable pub handle_file : Sink → Str → Io Progress
  unfolding receive_scp_file reported ◌>>=◌ last_dir destination
  handle_file s line = reported message (parse_scp_file line) >>= λ (mode, size, given).
      reported message (clean_scp_name given) >>= λ name. lift (last_dir s.dirs) >>= λ dir.
      receive_scp_file (destination s dir name) mode size s.pending_times
      >> pure (more (record s { pending_times = none }))

  unfoldable pub handle_line : Sink → Str → Io Progress
  unfolding handle_times handle_directory handle_file acknowledged refuse pop_dir
  handle_line s [] = pure (more s)
  handle_line s (c ∷ rest) =
      if nat_eq c b'T'
      then handle_times s (c ∷ rest)
      else if nat_eq c b'D'
      then handle_directory s (c ∷ rest)
      else if nat_eq c b'E'
      then acknowledged (record s { dirs = pop_dir s.dirs })
      else if nat_eq c b'C'
      then handle_file s (c ∷ rest)
      else refuse message internal

  unfoldable pub with_line : Sink → Result Str × Wire → Result Progress × Wire
  unfolding handle_line is_eof
  with_line s (err error, w) = if is_eof error then (ok finished, w) else (err error, w)
  with_line s (ok line, w) = handle_line s line w

  -- One round of the loop.
  unfoldable pub sink_round : Sink → Io Progress
  unfolding with_line read_line
  sink_round s w = with_line s (read_line w)

  unfoldable pub after : (Sink → Wire → Outcome) → Result Progress × Wire → Outcome
  after again (err error, w) = some (err error, w)
  after again (ok finished, w) = some (ok tt, w)
  after again (ok (more s), w) = again s w

  -- The loop, on fuel for its rounds.
  unfoldable pub sink_loop : ℕ → Sink → Wire → Outcome
  unfolding sink_round after
  sink_loop zero s w = none
  sink_loop (suc fuel) s w = after (sink_loop fuel) (sink_round s w)

  begin : Sink → Result {0} Unit × Wire → Outcome
  unfolding sink_loop
  begin s (err error, w) = some (err error, w)
  begin s (ok _, w) = sink_loop (suc (length w.incoming)) s w

  -- `is_dir` is what os.Stat tells when the sink starts.
  unfoldable pub run_scp_sink : (Str → Bool) → Str → Wire → Outcome
  unfolding begin start write_scp_ack
  run_scp_sink is_dir root w = begin (start is_dir root) (write_scp_ack message none w)
