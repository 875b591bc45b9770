-- ===== src/Samples/Transfers.antt =====
-- The theorems on scp and on the audit recorder at concrete inputs.
use kube_ssh.Base.{
  ◌≡◌, refl, true, false, List, [], ◌∷◌, ◌++◌, Option, none, some, Error, Result, ok, err, internal,
  eof, external, All, pos, arith,
}
use kube_ssh.Text.{Str, codes}
use kube_ssh.Scp.Wire.{Call, Wire}
use kube_ssh.Scp.Options.{parse_scp_options}
use kube_ssh.Scp.Sink.{sink_round, destination, more}
use kube_ssh.Scp.Source.{FileInfo}
use kube_ssh.Scp.Command.{Host, run_scp}
use kube_ssh.Scp.Command.Confined.{Confined, run_scp-Confined}
use kube_ssh.Scp.Sent.{wire, sender}
use kube_ssh.Scp.Transfer.{at, took, reading, sink_round-send_scp_file}
use kube_ssh.Audit.Event.{Event, prepare}
use kube_ssh.Audit.Recorder.{AsyncRecorder, new_async_recorder, record_event, close_queue}
use kube_ssh.Audit.Recorder.Runs.{Run, start, recorded, accepted}
use kube_ssh.Audit.Recorder.Accounted.{Accounts, run-Accounts}
use kube_ssh.Audit.Recorder.Drained.{run, close_queue-Drained}

abbrev told : Error → Str
told error = codes "failed"

abbrev works : List Call → Call → Option Error
works calls call = none

abbrev host : Host
host = record {
  outcome = works;
  is_dir = λ path. true;
  stat = λ path. err internal;
  message = told;
}

-- A client that sends a file of two bytes.
abbrev sending : Wire
sending = wire eof (external 1) (codes "C0644 2 a" ++ (10 ∷ 104 ∷ 105 ∷ 0 ∷ [])) [] 8 []

run_scp-Confined_example :
    (done : Result Unit × Wire) × (run_scp host (codes "-t" ∷ codes "/tmp" ∷ []) sending
      ≡ some done)
    × All (Confined (parse_scp_options (codes "-t" ∷ codes "/tmp" ∷ []))) done.1.calls
run_scp-Confined_example = run_scp-Confined host (codes "-t" ∷ codes "/tmp" ∷ []) sending refl

abbrev info : FileInfo
info = record { permissions = 420; size = 2; modified = pos 0 }

abbrev receiving : Wire
receiving = wire eof (external 1) [] [] 0 []

abbrev of_a : Result {0} Unit × Wire
of_a = sender told eof (external 1) false (codes "/etc/a") info (104 ∷ 105 ∷ []) 0

sink_round-send_scp_file_example :
    (of_a.0 ≡ ok tt)
    × (sink_round works told
          (at true (codes "/tmp") [] none)
          (reading receiving (of_a.1.outgoing ++ codes "next") 0)
        ≡ (
          ok (more (at true (codes "/tmp") [] none)),
          took receiving
              (destination (at true (codes "/tmp") [] none) (codes "/tmp") (codes "a"))
              none
              (104 ∷ 105 ∷ [])
              420
              (codes "next")
              0,
        ))
unfolding kube_ssh.Scp.Header.clean_scp_name kube_ssh.Scp.Paths.filepath_base
sink_round-send_scp_file_example =
    sink_round-send_scp_file told works (λ calls call. refl) true (codes "/tmp") [] none receiving 0
      eof (external 1) false (codes "/etc/a") (104 ∷ 105 ∷ []) (codes "next") info 0 refl refl
      (omega arith) refl (omega arith)

abbrev login_event : Event
login_event = record {
  schema_version = [];
  id = [];
  time = 0;
  type_name = codes "login";
  correlation = record { connection_id = codes "c1"; operation_id = [] };
  connection = none;
  actor = none;
  access = none;
  target = none;
  operation = none;
  authorization = none;
  outcome = none;
  fields = [];
}

abbrev recorder : AsyncRecorder
recorder = record_event 5 (codes "e1") login_event (new_async_recorder (pos 2))

abbrev events : List Event
events = [] ++ accepted (new_async_recorder (pos 2)) (prepare 5 (codes "e1") login_event)

one_run : Run (pos 2) recorder events 1
unfolding new_async_recorder
one_run = recorded (new_async_recorder (pos 2)) [] 0 5 (codes "e1") login_event start

run-Accounts_example : Accounts recorder events 1
run-Accounts_example = run-Accounts (pos 2) recorder events 1 one_run

close_queue-Drained_example :
    ((run (λ step. none) 4 (close_queue recorder)).done ≡ true)
    × ((run (λ step. none) 4 (close_queue recorder)).sent ≡ events)
unfolding record_event new_async_recorder
close_queue-Drained_example =
    close_queue-Drained (λ step. none) (pos 2) recorder events 1 4 one_run (omega arith)
