-- ===== src/Scp/Command/Confined.antt =====
-- What a whole scp command may change.
use kube_ssh.Base.{◌≡◌, refl, true, List, [], ◌∷◌, some, Result, ok, err, All, Bool-cases, inl, inr}
use kube_ssh.Text.{Str}
use kube_ssh.Scp.Wire.{Call, Wire}
use kube_ssh.Scp.Options.{ScpOptions, parse_scp_options}
use kube_ssh.Scp.Sink.Kept.{path_of}
use kube_ssh.Scp.Sink.Below.{Below, run_scp_sink-Below}
use kube_ssh.Scp.Source.{run_scp_source}
use kube_ssh.Scp.Source.Quiet.{run_scp_source-IsQuiet}
use kube_ssh.Scp.Command.{Host, dispatch, run_scp}

-- A call of a command whose options parse and ask for the sink, at or below its target.
abbrev pub Confined : Result ScpOptions → Call → Type 0
Confined (err error) call = ⊥
Confined (ok opts) call = (opts.sink ≡ true) × Below opts.target (path_of call)

none-Confined :
    (given : Result ScpOptions) (calls : List Call) → calls ≡ [] → All (Confined given) calls
none-Confined given [] h = tt
none-Confined given (call ∷ calls) h = absurd (cc)

all-Confined :
    (opts : ScpOptions) (calls : List Call)
    → opts.sink ≡ true
    → All (λ call. Below opts.target (path_of call)) calls
    → All (Confined (ok opts)) calls
all-Confined opts [] s h = tt
all-Confined opts (call ∷ calls) s h = ((s, h.0), all-Confined opts calls s h.1)

module _ (host : Host) (w : Wire) (fresh : w.calls ≡ []) where
  abbrev IsConfined : Result ScpOptions → Type 0
  IsConfined given =
      (done : Result Unit × Wire) × (dispatch host w given ≡ some done)
      × All (Confined given) done.1.calls

  dispatch-IsConfined : (given : Result ScpOptions) → IsConfined given
  unfolding dispatch
  dispatch-IsConfined (err error) = ((err error, w), refl, none-Confined (err error) w.calls fresh)
  dispatch-IsConfined (ok opts) = elim (Bool-cases opts.sink) [
    | inl sink ↦
        let (done, ends, inside) =
          run_scp_sink-Below host.outcome host.message host.is_dir opts.target w fresh in
        (done, rw sink ends, all-Confined opts done.1.calls sink inside)
    | inr source ↦
        let done = run_scp_source host.message host.stat opts w in
        (
          done,
          rw source refl,
          none-Confined (ok opts) done.1.calls
              (run_scp_source-IsQuiet host.outcome host.message host.stat opts w fresh),
        )
  ]

-- On a connection on which no call was made, RunSCP returns on all arguments, and each call that changes
-- files is one of a command whose arguments parse and ask for the sink; the file that it names leads to
-- the place of the target, or from there down by names none of which is empty, "." or "..", or has a
-- slash.
pub run_scp-Confined :
    (host : Host) (args : List Str) (w : Wire)
    → w.calls ≡ []
    → (done : Result Unit × Wire) × (run_scp host args w ≡ some done)
      × All (Confined (parse_scp_options args)) done.1.calls
unfolding run_scp
run_scp-Confined host args w fresh = dispatch-IsConfined host w fresh (parse_scp_options args)
