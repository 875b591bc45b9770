-- ===== src/Scp/Sink/Kept.antt =====
-- What every command of the sink keeps: an invariant of the connection and of the calls, and a
-- property of the paths that it writes to.
use kube_ssh.Base.{
  ℕ, ◌≡◌, refl, List, Option, none, some, Error, Result, ok, err, nat_eq, Bool-cases, inl, inr,
}
use kube_ssh.Text.{Str}
use kube_ssh.Scp.Wire.{
  Call, mkdir_all, open_file, copy_to, close_file, chtimes, Wire, Io, ◌>>=◌, ◌>>◌, read_byte, write,
  read_size, perform, write_scp_ack, refuse, reported, checked, continue,
}
use kube_ssh.Scp.Header.{ScpTimes, clean_scp_name}
use kube_ssh.Scp.Paths.{filepath_join}
use kube_ssh.Scp.Sink.{set_times, receive_scp_file, act, copy_size, terminated}

abbrev pub path_of : Call → Str
path_of (mkdir_all path mode) = path
path_of (open_file path mode) = path
path_of (copy_to path bytes) = path
path_of (close_file path) = path
path_of (chtimes path atime mtime) = path

-- What holds behind a call of type Io.
abbrev pub Post : {A : Type 0} → (Wire → Type 0) → (A → Type 0) → Result A × Wire → Type 0
Post I Q (err error, w) = I w
Post I Q (ok value, w) = I w × Q value

abbrev pub Keeps : {A : Type 0} → (Wire → Type 0) → (A → Type 0) → Io A → Type 0
Keeps I Q io = (w : Wire) → I w → Post I Q (io w)

abbrev pub Any : {A : Type 0} → A → Type 0
Any value = Unit

-- What the system calls and the connection keep, and what every path has that the sink writes to.
pub record Invariant (outcome : List Call → Call → Option Error) : Type 1 where
  pub I : Wire → Type 0
  pub Allowed : Str → Type 0
  pub write-Keeps : (s : Str) → Keeps I Any (write s)
  pub read_byte-Keeps : Keeps I Any read_byte
  pub read_size-Keeps : (size : ℕ) (w : Wire) → I w → I (read_size size w).1
  pub perform-Keeps :
      (call : Call) (w : Wire) → Allowed (path_of call) → I w → I (perform outcome call w).1
  pub join-Allowed :
      (dir name : Str)
      → Allowed dir
      → clean_scp_name name ≡ ok name
      → Allowed (filepath_join dir name)

module _ (outcome : List Call → Call → Option Error) (message : Error → Str)
    (v : Invariant outcome) where
  module _ {A B : Type 0} where
    continue-Keeps :
        (Q : A → Type 0) (R : B → Type 0) (done : Result A × Wire) (next : A → Io B)
        → Post v.I Q done
        → ((a : A) → Q a → Keeps v.I R (next a))
        → Post v.I R (continue done next)
    unfolding continue
    continue-Keeps Q R (err error, w) next h k = h
    continue-Keeps Q R (ok a, w) next h k = k a h.1 w h.0

    pub bind-Keeps :
        (Q : A → Type 0) (R : B → Type 0) (io : Io A) (next : A → Io B)
        → Keeps v.I Q io
        → ((a : A) → Q a → Keeps v.I R (next a))
        → Keeps v.I R (io >>= next)
    unfolding ◌>>=◌
    bind-Keeps Q R io next h k w i = continue-Keeps Q R (io w) next (h w i) k

  pub then-Keeps :
      {B : Type 0} (R : B → Type 0) (io : Io Unit) (next : Io B)
      → Keeps v.I Any io
      → Keeps v.I R next
      → Keeps v.I R (io >> next)
  then-Keeps R io next h k = bind-Keeps Any R io (λ _. next) h (λ _ _. k)

  post-wire : {A : Type 0} (Q : A → Type 0) (done : Result A × Wire) → Post v.I Q done → v.I done.1
  post-wire Q (err error, w) h = h
  post-wire Q (ok a, w) h = h.0

  pub ack-Keeps : (error : Option Error) → Keeps v.I Any (write_scp_ack message error)
  unfolding write_scp_ack
  ack-Keeps none = v.write-Keeps _
  ack-Keeps (some error) = v.write-Keeps _

  pub refuse-Keeps :
      {A : Type 0} (Q : A → Type 0) (error : Error) → Keeps v.I Q (refuse message error)
  unfolding refuse
  refuse-Keeps Q error w i =
      post-wire Any (write_scp_ack message (some error) w) (ack-Keeps (some error) w i)

  pub reported-Keeps :
      {A : Type 0} (Q : A → Type 0) (result : Result A)
      → ((a : A) → result ≡ ok a → Q a)
      → Keeps v.I Q (reported message result)
  unfolding reported
  reported-Keeps Q (err error) h = refuse-Keeps Q error
  reported-Keeps Q (ok a) h = λ w i. (i, h a refl)

  pub checked-Keeps : (error : Option Error) → Keeps v.I Any (checked message error)
  unfolding checked
  checked-Keeps none w i = (i, tt)
  checked-Keeps (some error) w i = refuse-Keeps (Any {A = Unit}) error w i

  pub act-Keeps :
      (call : Call) → v.Allowed (path_of call) → Keeps v.I Any (act outcome message call)
  unfolding act
  act-Keeps call a w i = checked-Keeps (perform outcome call w).0 _ (v.perform-Keeps call w a i)

  pub set_times-Keeps :
      (path : Str) (times : Option ScpTimes)
      → v.Allowed path
      → Keeps v.I Any (set_times outcome message path times)
  unfolding set_times
  set_times-Keeps path none a w i = (i, tt)
  set_times-Keeps path (some times) a w i =
      (v.perform-Keeps (chtimes path times.atime times.mtime) w a i, tt)

  copy_size-Keeps :
      (dest : Str) (size : ℕ) → v.Allowed dest → Keeps v.I Any (copy_size outcome message dest size)
  unfolding copy_size
  copy_size-Keeps dest size a w i = checked-Keeps _ _ (
      v.perform-Keeps (close_file dest) _ a
        (v.perform-Keeps (copy_to dest (read_size size w).0.0) _ a (v.read_size-Keeps size w i)))

  terminated-Keeps : (status : ℕ) → Keeps v.I Any (terminated outcome message status)
  unfolding terminated
  terminated-Keeps status w i = elim (Bool-cases (nat_eq status 0)) [
    | inl zero ↦ rw zero (i, tt)
    | inr other ↦ rw other i
  ]

  pub receive-Keeps :
      (dest : Str) (mode size : ℕ) (times : Option ScpTimes)
      → v.Allowed dest
      → Keeps v.I Any (receive_scp_file outcome message dest mode size times)
  unfolding receive_scp_file
  receive-Keeps dest mode size times a =
      then-Keeps Any _ _
        (then-Keeps Any _ _
          (bind-Keeps Any Any _ _
            (then-Keeps Any _ _
              (then-Keeps Any _ _
                (then-Keeps Any _ _ (ack-Keeps none) (act-Keeps (open_file dest mode) a))
                (copy_size-Keeps dest size a))
              v.read_byte-Keeps)
            (λ status _. terminated-Keeps status))
          (set_times-Keeps dest times a))
        (ack-Keeps none)
