-- ===== src/Scp/Wire.antt =====
-- The connection of an scp process and the system calls that it makes: the state that the routines of
-- pkg/podssh/backend/helper/scp.go pass on, kept when they fail.
use kube_ssh.Base.{
  ℤ, ℕ, zero, suc, List, [], ◌∷◌, ◌++◌, Option, none, some, Error, Result, ok, err, internal,
  length, leb, take, drop, nat_eq, if◌then◌else◌,
}
use kube_ssh.Text.{Str, cut}

-- A call that changes files.
pub data Call : Type 0 where
  mkdir_all : Str → ℕ → Call
  open_file : Str → ℕ → Call
  copy_to : Str → Str → Call
  close_file : Str → Call
  -- os.Chtimes with the access and the modification time
  chtimes : Str → ℤ → ℤ → Call

-- `ending` is the error of reading behind the last byte: io.EOF, or that of a broken or canceled
-- reader. The writer takes `writes` more writes and fails from then on with `write_error`. `calls` has
-- the last call first.
pub record Wire : Type 0 where
  pub incoming : Str
  pub ending : Error
  pub outgoing : Str
  pub writes : ℕ
  pub write_error : Error
  pub calls : List Call

abbrev pub Io : Type 0 → Type 0
Io A = Wire → Result A × Wire

unfoldable pub continue : {A B : Type 0} → Result A × Wire → (A → Io B) → Result B × Wire
continue (err error, w) next = (err error, w)
continue (ok value, w) next = next value w

infixl 5 ◌>>=◌ ◌>>◌
unfoldable pub ◌>>=◌ : {A B : Type 0} → Io A → (A → Io B) → Io B
unfolding continue
(call >>= next) w = continue (call w) next

abbrev pub ◌>>◌ : {A B : Type 0} → Io A → Io B → Io B
first >> next = first >>= λ _. next

abbrev pub pure : {A : Type 0} → A → Io A
pure value w = (ok value, w)

abbrev pub fail : {A : Type 0} → Error → Io A
fail error w = (err error, w)

-- `if err != nil { return err }` on a value that is there already
abbrev pub lift : {A : Type 0} → Result A → Io A
lift result w = (result, w)

-- out.Write and fmt.Fprintf
unfoldable pub put : ℕ → Str → Io Unit
put zero s w = (err w.write_error, w)
put (suc left) s w = (ok tt, record w { outgoing = w.outgoing ++ s; writes = left })

unfoldable pub write : Str → Io Unit
unfolding put
write s w = put w.writes s w

-- What follows the bytes read so far, and the error of a reader that has no more.
unfoldable pub taken : {A : Type 0} → Wire → Option (A × Str) → Result A × Wire
taken w none = (err w.ending, record w { incoming = [] })
taken w (some (value, rest)) = (ok value, record w { incoming = rest })

unfoldable pub first_byte : Str → Option (ℕ × Str)
first_byte [] = none
first_byte (c ∷ s) = some (c, s)

-- reader.ReadByte()
unfoldable pub read_byte : Io ℕ
unfolding first_byte taken
read_byte w = taken w (first_byte w.incoming)

-- reader.ReadString('\n') behind strings.TrimSuffix(line, "\n")
unfoldable pub read_line : Io Str
unfolding taken
read_line w = taken w (cut 10 w.incoming)

-- The bytes that io.CopyN reads, with its error where there are fewer than `size`.
unfoldable pub read_size : ℕ → Wire → (Str × Option Error) × Wire
read_size size w =
    if leb size (length w.incoming)
    then ((take size w.incoming, none), record w { incoming = drop size w.incoming })
    else ((w.incoming, some w.ending), record w { incoming = [] })

-- A system call that changes files: its error may depend on the calls before it.
unfoldable pub perform : (List Call → Call → Option Error) → Call → Wire → Option Error × Wire
perform outcome call w = (outcome w.calls call, record w { calls = call ∷ w.calls })

module _ (message : Error → Str) where
  -- writeSCPAck
  unfoldable pub write_scp_ack : Option Error → Io Unit
  unfolding write
  write_scp_ack (some error) = write (1 ∷ (message error ++ (10 ∷ [])))
  write_scp_ack none = write (0 ∷ [])

  -- `_ = writeSCPAck(out, err); return err`
  unfoldable pub refuse : {A : Type 0} → Error → Io A
  unfolding write_scp_ack
  refuse error w = (err error, (write_scp_ack (some error) w).1)

  -- A failing call is reported to the peer before its error is returned.
  unfoldable pub reported : {A : Type 0} → Result A → Io A
  unfolding refuse
  reported (err error) = refuse error
  reported (ok value) = pure value

  unfoldable pub checked : Option Error → Io Unit
  unfolding refuse
  checked (some error) = refuse error
  checked none = pure tt

-- What a response means: after a byte 1 or 2 the message is read.
unfoldable pub answered : ℕ → Io Unit
unfolding read_line
answered status w =
    if nat_eq status 0
    then (ok tt, w)
    else if leb status 2
    then (err internal, (read_line w).1)
    else (err internal, w)

-- readSCPResponse
unfoldable pub read_scp_response : Io Unit
unfolding read_byte answered ◌>>=◌
read_scp_response = read_byte >>= answered
