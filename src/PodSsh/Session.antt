-- ===== src/PodSsh/Session.antt =====
-- The requests of a session channel: pkg/podssh/session_handler.go. The request loop handles one request
-- after the other; a started operation runs beside it and reads the parameters.
pub mod Frozen
pub mod Sound
use kube_ssh.Base.{
  ℕ, Bool, true, false, ◌||◌, not, List, [], ◌∷◌, ◌++◌, Option, none, some, ltb, if◌then◌else◌,
}
use kube_ssh.Text.{Str, codes, ◌==◌}

pub record Window : Type 0 where
  pub width : ℕ
  pub height : ℕ

pub record Pty : Type 0 where
  pub term : Str
  pub window : Window

-- handleSession and handleSFTP of pkg/podssh/session.go
pub data Handler : Type 0 where
  handle_session handle_sftp : Handler

-- RequestShell, RequestExec and RequestSubsystem
pub data StartType : Type 0 where
  shell exec subsystem : StartType

-- `winch` is the queue of window changes, which holds at most one. `agent_forward` is the socket path of
-- the forwarding that was accepted. `launched` are the handlers that run or have run.
pub record ServerSession : Type 0 where
  pub started : Bool
  pub pty : Option Pty
  pub winch : Option Window
  pub env : List Str
  pub raw_cmd : Str
  pub request_type : Option StartType
  pub agent_forward : Option Str
  pub launched : List Handler
  pub canceled : Bool

abbrev pub new_server_session : ServerSession
new_server_session = record {
  started = false;
  pty = none;
  winch = none;
  env = [];
  raw_cmd = [];
  request_type = none;
  agent_forward = none;
  launched = [];
  canceled = false;
}

abbrev pub max_uint16 : ℕ
max_uint16 = 65535

-- A request with its payload as cryptossh.Unmarshal reads it, `none` where it does not parse. Whether the
-- payload is empty is all that a shell and an agent request have. `sent` is whether the reply to a start
-- request was sent; `accepted` is what acceptAgentForward returns.
pub data Request : Type 0 where
  start_shell : (empty sent : Bool) → Request
  start_exec start_subsystem : (payload : Option Str) → (sent : Bool) → Request
  environment : (payload : Option (Str × Str)) → Request
  pty_request : (payload : Option (Str × ℕ × ℕ)) → Request
  window_change : (payload : Option (ℕ × ℕ)) → Request
  agent_forward_request : (empty : Bool) → (accepted : Option Str) → Request
  other_request : Request

-- Each handler returns what it replies.
abbrev pub Reply : Type 0
Reply = Bool × ServerSession

launch : StartType → Str → Handler → Bool → ServerSession → Reply
launch request_type raw_cmd handler sent s = (
  true,
  if sent
      then record s {
        started = true;
        request_type = some request_type;
        raw_cmd = raw_cmd;
        launched = handler ∷ s.launched;
      }
      else record s {
        started = true;
        request_type = some request_type;
        raw_cmd = raw_cmd;
        canceled = true;
      },
)

start_exec_with : Option Str → Bool → ServerSession → Reply
unfolding launch
start_exec_with none sent s = (false, s)
start_exec_with (some command) sent s = launch exec command handle_session sent s

start_subsystem_with : Option Str → Bool → ServerSession → Reply
unfolding launch ◌==◌
start_subsystem_with none sent s = (false, s)
start_subsystem_with (some name) sent s =
    if name == codes "sftp" then launch subsystem s.raw_cmd handle_sftp sent s else (false, s)

-- handleStartRequest behind its test whether the session is started.
handle_start_request : Request → ServerSession → Reply
unfolding launch start_exec_with start_subsystem_with
handle_start_request (start_shell empty sent) s =
    if empty then launch shell s.raw_cmd handle_session sent s else (false, s)
handle_start_request (start_exec payload sent) s = start_exec_with payload sent s
handle_start_request (start_subsystem payload sent) s = start_subsystem_with payload sent s
handle_start_request _ s = (false, s)

-- fmt.Sprintf("%s=%s", key, value)
handle_env_request : Option (Str × Str) → ServerSession → Reply
handle_env_request none s = (false, s)
handle_env_request (some (key, value)) s =
    (true, record s { env = s.env ++ ((key ++ (b'=' ∷ value)) ∷ []) })

unfoldable pub parse_session_pty_request : Option (Str × ℕ × ℕ) → Option Pty
parse_session_pty_request none = none
parse_session_pty_request (some (term, width, height)) =
    if ltb max_uint16 width || ltb max_uint16 height
    then none
    else some (record { term = term; window = record { width = width; height = height } })

opened : Option Pty → ServerSession → Reply
opened none s = (false, s)
opened (some pty) s = (true, record s { pty = some pty; winch = none })

handle_pty_request : Option Pty → Option (Str × ℕ × ℕ) → ServerSession → Reply
unfolding opened parse_session_pty_request
handle_pty_request (some before) payload s = (false, s)
handle_pty_request none payload s = opened (parse_session_pty_request payload) s

unfoldable pub parse_session_window_change_request : Option (ℕ × ℕ) → Option Window
parse_session_window_change_request none = none
parse_session_window_change_request (some (width, height)) =
    if ltb width 1 || ltb height 1 || ltb max_uint16 width || ltb max_uint16 height
    then none
    else some (record { width = width; height = height })

-- A window in the queue is replaced.
resized : Option Window → ServerSession → Reply
resized none s = (false, s)
resized (some window) s = (true, record s { winch = some window })

handle_window_change_request : Option Pty → Option (ℕ × ℕ) → ServerSession → Reply
unfolding resized parse_session_window_change_request
handle_window_change_request none payload s = (false, s)
handle_window_change_request (some pty) payload s =
    resized (parse_session_window_change_request payload) s

forwarding : Option Str → ServerSession → Reply
forwarding none s = (false, s)
forwarding (some socket) s = (true, record s { agent_forward = some socket })

handle_agent_forward_request : Option Str → Bool → Option Str → ServerSession → Reply
unfolding forwarding
handle_agent_forward_request (some before) empty accepted s = (false, s)
handle_agent_forward_request none empty accepted s =
    if empty then forwarding accepted s else (false, s)

-- The switch of the request loop. All but a window change are refused once the session is started.
unfoldable pub handle_request : Request → ServerSession → Reply
unfolding handle_start_request handle_env_request handle_pty_request handle_window_change_request
    handle_agent_forward_request
handle_request other_request s = (false, s)
handle_request (window_change payload) s = handle_window_change_request s.pty payload s
handle_request (environment payload) s =
    if s.started then (false, s) else handle_env_request payload s
handle_request (pty_request payload) s =
    if s.started then (false, s) else handle_pty_request s.pty payload s
handle_request (agent_forward_request empty accepted) s =
    if s.started then (false, s) else handle_agent_forward_request s.agent_forward empty accepted s
handle_request start s = if s.started then (false, s) else handle_start_request start s

-- windowSizeQueue.Next behind the initial size: the operation takes the window of the queue.
unfoldable pub next_window : ServerSession → Option Window × ServerSession
next_window s = (s.winch, record s { winch = none })
