-- ===== src/Gateway/Operation.antt =====
-- pkg/gateway/protocol.go and operation.go: which capability and attributes an SSH operation asks for, and
-- how it is authorized and ends. The split of a command into words, which shlex does, is a parameter.
pub mod Forwards
pub mod Sessions
use kube_ssh.Base.{
  ℕ, Bool, true, false, ◌&&◌, ◌||◌, not, List, [], ◌∷◌, ◌++◌, Option, none, some, Error, canceled,
  if◌then◌else◌, map, ℤ, pos, eqb_ℤ,
}
use kube_ssh.Text.{Str, codes, ◌==◌, is_empty, has_prefix}
use kube_ssh.Text.Numbers.{format_uint}
use kube_ssh.Dict.{Dict}
use kube_ssh.Target.{Target, TargetOption, to_string}
use kube_ssh.Authn.{AuthenticateInfo}
use kube_ssh.Authz.{
  Decision, allow, deny, no_opinion, Reason, empty, Answer, Attributes, AttributeResource, Request,
  Authorizer, capability_shell, capability_exec, capability_scp, capability_sftp,
  capability_local_forward, capability_remote_forward, capability_agent_forward,
  capability_ssh_extension,
}
use kube_ssh.Scp.Paths.{filepath_base}

-- sshprotocol.Operation
pub record Operation : Type 0 where
  pub channel_type : Str
  pub request_type : Str
  pub command : Str
  pub subsystem : Str
  pub destination_host : Str
  pub destination_port : ℕ
  pub origin_host : Str
  pub origin_port : ℕ
  pub bind_host : Str
  pub bind_port : ℕ

abbrev pub channel_session : Str
channel_session = codes "session"

abbrev pub channel_direct_tcpip : Str
channel_direct_tcpip = codes "direct-tcpip"

abbrev pub request_shell : Str
request_shell = codes "shell"

abbrev pub request_exec : Str
request_exec = codes "exec"

abbrev pub request_subsystem : Str
request_subsystem = codes "subsystem"

abbrev pub request_tcpip_forward : Str
request_tcpip_forward = codes "tcpip-forward"

abbrev pub request_agent_forward : Str
request_agent_forward = codes "auth-agent-req@openssh.com"

pub record OperationSpec : Type 0 where
  pub name : Str
  pub capability : Str
  pub attrs : Attributes
  pub audit_fields : Dict Str

unfoldable pub target_resources : Target → List AttributeResource
target_resources tgt =
    record { resource = codes "targets"; name = tgt.kind }
    ∷ map (λ (option : TargetOption). record { resource = option.key; name = option.value })
        tgt.options

resource : Str → Str → AttributeResource
resource kind value = record { resource = kind; name = value }

single : Str → Str → Str × List Str
single key value = (key, value ∷ [])

unfoldable pub local_forward_operation_spec : Target → Operation → OperationSpec
unfolding target_resources resource single to_string format_uint
local_forward_operation_spec tgt op =
    let destination_port = format_uint 10 op.destination_port in
    let origin_port = format_uint 10 op.origin_port in
    record {
      name = codes "portforward";
      capability = capability_local_forward;
      attrs = record {
        action = capability_local_forward;
        resources =
            target_resources tgt
            ++ (resource (codes "hosts") op.destination_host
                ∷ resource (codes "ports") destination_port
                ∷ []);
        path =
            to_string tgt
            ++ (codes "/hosts/" ++ (op.destination_host ++ (codes "/ports/" ++ destination_port)));
        extra =
            single (codes "destination_host") op.destination_host
            ∷ single (codes "destination_port") destination_port
            ∷ single (codes "origin_host") op.origin_host
            ∷ single (codes "origin_port") origin_port
            ∷ [];
      };
      audit_fields =
          (codes "destination_host", op.destination_host)
          ∷ (codes "destination_port", destination_port)
          ∷ (codes "origin_host", op.origin_host)
          ∷ (codes "origin_port", origin_port)
          ∷ [];
    }

unfoldable pub connection_remote_forward_operation_spec : Target → Operation → OperationSpec
unfolding target_resources resource single to_string format_uint
connection_remote_forward_operation_spec tgt op =
    let port = format_uint 10 op.bind_port in
    record {
      name = codes "remote_forward";
      capability = capability_remote_forward;
      attrs = record {
        action = capability_remote_forward;
        resources =
            target_resources tgt
            ++ (resource (codes "bind_hosts") op.bind_host
                ∷ resource (codes "bind_ports") port
                ∷ []);
        path = to_string tgt ++ (codes "/remote-forwards/" ++ (op.bind_host ++ (b'/' ∷ port)));
        extra = single (codes "bind_host") op.bind_host ∷ single (codes "bind_port") port ∷ [];
      };
      audit_fields = (codes "bind_host", op.bind_host) ∷ (codes "bind_port", port) ∷ [];
    }

-- A spec without extra attributes: of the agent forwarding, and of SFTP.
plain_spec : Str → Str → Str → Target → OperationSpec
unfolding target_resources to_string
plain_spec name capability suffix tgt = record {
  name = name;
  capability = capability;
  attrs = record {
    action = capability;
    resources = target_resources tgt;
    path = to_string tgt ++ suffix;
    extra = [];
  };
  audit_fields = [];
}

unfoldable pub connection_agent_forward_operation_spec : Target → OperationSpec
unfolding plain_spec
connection_agent_forward_operation_spec tgt =
    plain_spec (codes "agent_forward") capability_agent_forward (codes "/agent-forward") tgt

unfoldable pub connection_sftp_operation_spec : Target → OperationSpec
unfolding plain_spec
connection_sftp_operation_spec tgt = plain_spec (codes "sftp") capability_sftp [] tgt

-- isSCPCommand of the gateway; path.Base is filepath.Base here.
is_scp_flag : Str → Bool
unfolding has_prefix ◌==◌
is_scp_flag arg =
    arg == codes "-t"
    || arg == codes "-f"
    || has_prefix arg (codes "-t")
    || has_prefix arg (codes "-f")

any_scp_flag : List Str → Bool
unfolding is_scp_flag
any_scp_flag [] = false
any_scp_flag (arg ∷ args) = if is_scp_flag arg then true else any_scp_flag args

unfoldable pub is_scp_command : List Str → Bool
unfolding any_scp_flag filepath_base ◌==◌
is_scp_command [] = false
is_scp_command (name ∷ args) =
    if not (filepath_base name == codes "scp") then false else any_scp_flag args

unfoldable pub session_capability : Str → List Str → Str
unfolding ◌==◌ is_scp_command
session_capability request_type argv =
    if request_type == request_shell
    then capability_shell
    else if request_type == request_exec && is_scp_command argv
    then capability_scp
    else capability_exec

unfoldable pub connection_session_operation_spec : Target → Str → List Str → Str → OperationSpec
unfolding session_capability target_resources single to_string ◌==◌
connection_session_operation_spec tgt request_type argv command =
    let capability = session_capability request_type argv in
    record {
      name = if capability == capability_scp then codes "scp" else codes "session";
      capability = capability;
      attrs = record {
        action = capability;
        resources = target_resources tgt;
        path = to_string tgt;
        extra = if is_empty command then [] else single (codes "command") command ∷ [];
      };
      audit_fields = (codes "command", command) ∷ [];
    }

added : {A : Type 0} → Str → A → List A
added value item = if is_empty value then [] else item ∷ []

unfoldable pub connection_extension_operation_spec : Target → Operation → OperationSpec
unfolding target_resources single to_string added
connection_extension_operation_spec tgt op = record {
  name = codes "ssh_extension";
  capability = capability_ssh_extension;
  attrs = record {
    action = capability_ssh_extension;
    resources = target_resources tgt;
    path =
        to_string tgt
        ++ ((if is_empty op.channel_type then [] else codes "/channels/" ++ op.channel_type)
            ++ (if is_empty op.request_type then [] else codes "/requests/" ++ op.request_type));
    extra =
        added op.channel_type (single (codes "channel_type") op.channel_type)
        ++ (added op.request_type (single (codes "request_type") op.request_type)
            ++ added op.subsystem (single (codes "subsystem") op.subsystem));
  };
  audit_fields =
      added op.channel_type (codes "channel_type", op.channel_type)
      ++ (added op.request_type (codes "request_type", op.request_type)
          ++ added op.subsystem (codes "subsystem", op.subsystem));
}

unfoldable pub connection_operation_spec : (Str → List Str) → Target → Operation → OperationSpec
unfolding local_forward_operation_spec connection_remote_forward_operation_spec
    connection_agent_forward_operation_spec connection_session_operation_spec
    connection_sftp_operation_spec connection_extension_operation_spec ◌==◌
connection_operation_spec words tgt op =
    if op.channel_type == channel_direct_tcpip
    then local_forward_operation_spec tgt op
    else if op.request_type == request_tcpip_forward
    then connection_remote_forward_operation_spec tgt op
    else if op.request_type == request_agent_forward
    then connection_agent_forward_operation_spec tgt
    else if op.channel_type == channel_session
        && (op.request_type == request_shell || op.request_type == request_exec)
    then connection_session_operation_spec tgt op.request_type (words op.command) op.command
    else if op.channel_type == channel_session
        && (op.request_type == request_subsystem && op.subsystem == codes "sftp")
    then connection_sftp_operation_spec tgt
    else connection_extension_operation_spec tgt op

request_of : AuthenticateInfo → OperationSpec → Request
request_of info spec = record {
  user = info.user;
  auth_method = info.method;
  auth_extra = info.extra;
  attributes = spec.attrs;
}

unfoldable pub is_allow : Decision → Bool
is_allow allow = true
is_allow _ = false

-- authorizeOperation: whether the operation is allowed. An answer with an error counts by its decision.
unfoldable pub authorize_operation : Authorizer → AuthenticateInfo → OperationSpec → Bool
unfolding is_allow request_of
authorize_operation authorizer info spec = is_allow (authorizer (request_of info spec)).decision

-- metrics.Result* of an operation
pub data OperationResult : Type 0 where
  success denied canceled_result error_result nonzero_exit : OperationResult

is_canceled : Error → Bool
is_canceled canceled = true
is_canceled _ = false

unfoldable pub result_from_error : Option Error → OperationResult
unfolding is_canceled
result_from_error none = success
result_from_error (some error) = if is_canceled error then canceled_result else error_result

unfoldable pub result_from_exit : ℤ → Option Error → OperationResult
unfolding result_from_error
result_from_exit exit_code (some error) = result_from_error (some error)
result_from_exit exit_code none = if not (eqb_ℤ exit_code (pos 0)) then nonzero_exit else success

-- What `complete` finishes an operation with.
unfoldable pub complete : Bool → Option ℤ → Option Error → OperationResult
unfolding result_from_exit result_from_error
complete false exit_code error = denied
complete true (some exit_code) error = result_from_exit exit_code error
complete true none error = result_from_error error

-- beginConnectionOperation: whether the operation may run.
unfoldable pub begin_connection_operation :
    (Str → List Str) → Authorizer → AuthenticateInfo → Target → Operation → Bool
unfolding authorize_operation connection_operation_spec
begin_connection_operation words authorizer info tgt op =
    authorize_operation authorizer info (connection_operation_spec words tgt op)
