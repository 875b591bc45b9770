-- ===== src/Scp/Command.antt =====
-- RunSCP of pkg/podssh/backend/helper/scp.go: the scp command as a whole.
pub mod Confined
use kube_ssh.Base.{List, Option, some, Error, Result, ok, err, Bool, if◌then◌else◌}
use kube_ssh.Text.{Str}
use kube_ssh.Scp.Wire.{Call, Wire}
use kube_ssh.Scp.Options.{ScpOptions, parse_scp_options}
use kube_ssh.Scp.Sink.{Outcome, run_scp_sink}
use kube_ssh.Scp.Source.{Node, run_scp_source}

-- The program around scp: the answers of the system and the texts of errors.
pub record Host : Type 0 where
  pub outcome : List Call → Call → Option Error
  pub is_dir : Str → Bool
  pub stat : Str → Result Node
  pub message : Error → Str

dispatch : Host → Wire → Result ScpOptions → Outcome
unfolding run_scp_sink run_scp_source
dispatch host w (err error) = some (err error, w)
dispatch host w (ok opts) =
    if opts.sink
    then run_scp_sink host.outcome host.message host.is_dir opts.target w
    else some (run_scp_source host.message host.stat opts w)

-- RunSCP
unfoldable pub run_scp : Host → List Str → Wire → Outcome
unfolding parse_scp_options dispatch
run_scp host args w = dispatch host w (parse_scp_options args)
