-- ===== src/Scp/Sink/Inside.antt =====
-- Every run of the sink ends, and every file that it touches is the target or lies below it.
use kube_ssh.Base.{
  ℕ, zero, suc, ◌≤◌, ◌<◌, ◌≡◌, refl, inl, inr, Bool, List, [], ◌∷◌, Option, none, some, Error,
  Result, ok, err, All, arith, length, length-append, leb, drop, Bool-cases, ap,
}
use kube_ssh.Text.{Str, cut}
use kube_ssh.Text.Laws.{cut-eq}
use kube_ssh.Scp.Wire.{
  Call, Wire, write, put, read_byte, first_byte, taken, read_line, read_size, perform,
  write_scp_ack,
}
use kube_ssh.Scp.Header.{clean_scp_name}
use kube_ssh.Scp.Paths.{filepath_join}
use kube_ssh.Scp.Sink.{
  Sink, Progress, more, finished, Outcome, sink_round, with_line, sink_loop, after, run_scp_sink,
  handle_line, start, is_eof, begin,
}
use kube_ssh.Scp.Sink.Kept.{path_of, Post, Keeps, Any, Invariant}
use kube_ssh.Scp.Sink.Commands.{Standing, Proceeds, handle_line-Keeps}

-- The paths that joining clean names to the target reaches.
pub data Inside (root : Str) : Str → Type 0 where
  here : Inside root root
  below :
      {dir name : Str}
      → Inside root dir
      → clean_scp_name name ≡ ok name
      → Inside root (filepath_join dir name)

-- The files of the calls lie inside, and at most `n` bytes are left to read.
abbrev Contained : Str → ℕ → Wire → Type 0
Contained root n w = All (λ call. Inside root (path_of call)) w.calls × (length w.incoming ≤ n)

module _ (root : Str) (n : ℕ) where
  put-Contained : (writes : ℕ) (s : Str) → Keeps (Contained root n) Any (put writes s)
  unfolding put
  put-Contained zero s w h = h
  put-Contained (suc left) s w h = (h, tt)

  write-Contained : (s : Str) → Keeps (Contained root n) Any (write s)
  unfolding write
  write-Contained s w h = put-Contained w.writes s w h

  first-Contained :
      (s : Str) (w : Wire)
      → length s ≤ n
      → Contained root n w
      → Post (Contained root n) Any (taken w (first_byte s))
  unfolding first_byte taken
  first-Contained [] w l h = (h.0, omega arith)
  first-Contained (c ∷ s) w l h = ((h.0, omega arith), tt)

  read_byte-Contained : Keeps (Contained root n) Any read_byte
  unfolding read_byte
  read_byte-Contained w h = first-Contained w.incoming w h.1 h

  length-drop : (k : ℕ) (s : Str) → length (drop k s) ≤ length s
  length-drop zero s = omega arith
  length-drop (suc k) [] = omega arith
  length-drop (suc k) (c ∷ s) = omega (arith, length-drop k s)

  read_size-Contained :
      (size : ℕ) (w : Wire) → Contained root n w → Contained root n (read_size size w).1
  unfolding read_size
  read_size-Contained size w (h, l) = elim (Bool-cases (leb size (length w.incoming))) [
    | inl enough ↦ rw enough (h, omega (arith, length-drop size w.incoming))
    | inr short ↦ rw short (h, omega arith)
  ]

module _ (outcome : List Call → Call → Option Error) (message : Error → Str) (root : Str) where
  perform-Contained :
      (n : ℕ) (call : Call) (w : Wire)
      → Inside root (path_of call)
      → Contained root n w
      → Contained root n (perform outcome call w).1
  unfolding perform
  perform-Contained n call w inside (h, l) = ((inside, h), l)

  contained : ℕ → Invariant outcome
  contained n = record {
    I = Contained root n;
    Allowed = Inside root;
    write-Keeps = write-Contained root n;
    read_byte-Keeps = read_byte-Contained root n;
    read_size-Keeps = read_size-Contained root n;
    perform-Keeps = perform-Contained n;
    join-Allowed = λ dir name. below;
  }

  command-Contained :
      (n : ℕ) (s : Sink) (line : Str)
      → Standing (Inside root) s
      → Keeps (Contained root n) (Proceeds (Inside root)) (handle_line outcome message s line)
  unfolding contained
  command-Contained n = handle_line-Keeps outcome message (contained n)

  abbrev Held : Wire → Type 0
  Held w = All (λ call. Inside root (path_of call)) w.calls

  abbrev Ends : Outcome → Type 0
  Ends run = (done : Result Unit × Wire) × (run ≡ some done) × Held done.1

  -- A line that is read leaves fewer bytes; without one the calls are the same, too.
  abbrev Shorter : ℕ → Result Str × Wire → Type 0
  Shorter n (err error, w) = Held w
  Shorter n (ok line, w) = Held w × (length w.incoming < n)

  taken-Shorter :
      (w : Wire) (n : ℕ) (parted : Option (Str × Str))
      → cut 10 w.incoming ≡ parted
      → Contained root n w
      → Shorter n (taken w parted)
  unfolding taken
  taken-Shorter w n none at (h, l) = h
  taken-Shorter w n (some (a, b)) at (h, l) =
      let split = (cut-eq 10 w.incoming a b at).0 in
      (h, omega (arith, length-append a (10 ∷ b), ap length split))

  read_line-Shorter : (w : Wire) (n : ℕ) → Contained root n w → Shorter n (read_line w)
  unfolding read_line
  read_line-Shorter w n h = taken-Shorter w n (cut 10 w.incoming) refl h

  module _ (fuel : ℕ)
      (again : (n : ℕ) (s : Sink) (w : Wire)
        → n < fuel
        → Standing (Inside root) s
        → Contained root n w
        → Ends (sink_loop outcome message fuel s w)) where
    abbrev Continues : Result Progress × Wire → Type 0
    Continues done = Ends (after outcome message (sink_loop outcome message fuel) done)

    command-Ends :
        (m : ℕ) (done : Result Progress × Wire)
        → m < fuel
        → Post (Contained root m) (Proceeds (Inside root)) done
        → Continues done
    unfolding after
    command-Ends m (err error, w) l h = ((err error, w), refl, h.0)
    command-Ends m (ok finished, w) l h = ((ok tt, w), refl, h.0.0)
    command-Ends m (ok (more s), w) l h = again m s w l h.1 h.0

    with_line-Ends :
        (n : ℕ) (s : Sink) (got : Result Str × Wire)
        → n ≤ fuel
        → Standing (Inside root) s
        → Shorter n got
        → Continues (with_line outcome message s got)
    unfolding after with_line
    with_line-Ends n s (err error, w) l h held = elim (Bool-cases (is_eof error)) [
      | inl at_end ↦ rw at_end ((ok tt, w), refl, held)
      | inr broken ↦ rw broken ((err error, w), refl, held)
    ]
    with_line-Ends n s (ok line, w) l h (held, short) =
        command-Ends (length w.incoming) (handle_line outcome message s line w) (omega arith)
          (command-Contained (length w.incoming) s line h w (held, omega arith))

  sink_loop-Ends :
      (fuel n : ℕ) (s : Sink) (w : Wire)
      → n < fuel
      → Standing (Inside root) s
      → Contained root n w
      → Ends (sink_loop outcome message fuel s w)
  unfolding sink_loop sink_round
  sink_loop-Ends zero n s w l h c = absurd (omega arith)
  sink_loop-Ends (suc fuel) n s w l h c =
      with_line-Ends fuel (sink_loop-Ends fuel) n s (read_line w) (omega arith) h
        (read_line-Shorter w n c)

  begin-Ends :
      (s : Sink) (done : Result Unit × Wire)
      → Standing (Inside root) s
      → Held done.1
      → Ends (begin outcome message s done)
  unfolding begin
  begin-Ends s (err error, w) h held = ((err error, w), refl, held)
  begin-Ends s (ok done, w) h held =
      sink_loop-Ends (suc (length w.incoming)) (length w.incoming) s w (omega arith) h
        (held, omega arith)

  pub run_scp_sink-Inside :
      (is_dir : Str → Bool) (w : Wire)
      → w.calls ≡ []
      → (done : Result Unit × Wire) × (run_scp_sink outcome message is_dir root w ≡ some done)
        × All (λ call. Inside root (path_of call)) done.1.calls
  unfolding run_scp_sink start write_scp_ack
  run_scp_sink-Inside is_dir w e =
      begin-Ends (start is_dir root) (write (0 ∷ []) w) ((here, tt), λ e. cc)
        (Post-I (write (0 ∷ []) w)
          (write-Contained root (length w.incoming) (0 ∷ []) w (rw e tt, omega arith)))
    where
      Post-I :
          (done : Result {0} Unit × Wire)
          → Post (Contained root (length w.incoming)) Any done
          → Held done.1
      Post-I (err error, w') h = h.0
      Post-I (ok _, w') h = h.0.0
