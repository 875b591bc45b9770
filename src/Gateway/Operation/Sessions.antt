-- ===== src/Gateway/Operation/Sessions.antt =====
-- What a session runs is what was authorized.
use kube_ssh.Base.{Bool, true, false, [], if◌then◌else◌}
use kube_ssh.Text.{Str}
use kube_ssh.Target.{Target}
use kube_ssh.Authz.{capability_shell, capability_exec, capability_scp}
use kube_ssh.PodSsh.Session.{StartType, shell, exec}
use kube_ssh.PodSsh.Launch.{BackendRequest, exec_request, scp_request, sftp_request}
use kube_ssh.PodSsh.Launch
use kube_ssh.Gateway.Operation
use kube_ssh.Gateway.Operation.{Operation, channel_session, request_shell, request_exec}

-- sessionOperation of pkg/podssh/session.go, for the requests shell and exec.
abbrev pub session_operation : Bool → Str → Operation
session_operation is_exec command = record {
  channel_type = channel_session;
  request_type = if is_exec then request_exec else request_shell;
  command = command;
  subsystem = [];
  destination_host = [];
  destination_port = 0;
  origin_host = [];
  origin_port = 0;
  bind_host = [];
  bind_port = 0;
}

abbrev pub started_as : Bool → StartType
started_as true = exec
started_as false = shell

-- The capability that a request to the backend wants.
abbrev pub wanted : Bool → BackendRequest → Str
wanted is_exec (scp_request args) = capability_scp
wanted false (exec_request command tty initial) = capability_shell
wanted true (exec_request command tty initial) = capability_exec
wanted is_exec sftp_request = []
