-- ===== src/PodSsh/Launch.antt =====
-- What a session channel runs: pkg/podssh/session.go and operation.go. The split of a command into words,
-- which shlex does, and the answers of the operation's beginning and of the backend are parameters.
pub mod Environment
use kube_ssh.Base.{
  ℕ, Bool, true, false, ◌||◌, ◌&&◌, not, List, [], ◌∷◌, ◌++◌, Option, none, some, Error, Result, ok,
  err, drop, keep, if◌then◌else◌, nat_eq, ℤ, pos,
}
use kube_ssh.Text.{Str, codes, ◌==◌, has_prefix, cut, is_empty, to_lower}
use kube_ssh.Scp.Paths.{filepath_base}
use kube_ssh.PodSsh.Session.{ServerSession, Pty, Window, StartType, shell, exec, subsystem}

-- path.Base is filepath.Base here.
unfoldable pub is_scp_flag : Str → Bool
unfolding has_prefix ◌==◌
is_scp_flag arg =
    arg == codes "-t"
    || arg == codes "-f"
    || has_prefix arg (codes "-t")
    || has_prefix arg (codes "-f")

unfoldable pub any_scp_flag : List Str → Bool
unfolding is_scp_flag
any_scp_flag [] = false
any_scp_flag (arg ∷ args) = if is_scp_flag arg then true else any_scp_flag args

unfoldable pub is_scp_command : List Str → Bool
unfolding any_scp_flag filepath_base ◌==◌
is_scp_command [] = false
is_scp_command (name ∷ args) =
    if not (filepath_base name == codes "scp") then false else any_scp_flag args

abbrev pub ssh_auth_sock : Str
ssh_auth_sock = codes "SSH_AUTH_SOCK"

-- A byte before others: the long s, U+017F, is the letter s then, and the Kelvin sign, U+212A, is k.
letter_before : ℕ → Str → Str
unfolding has_prefix
letter_before c rest =
    if nat_eq c 197 && has_prefix rest (191 ∷ [])
    then b's' ∷ drop 1 rest
    else if nat_eq c 226 && has_prefix rest (132 ∷ 170 ∷ [])
    then b'k' ∷ drop 2 rest
    else c ∷ rest

-- The two characters outside ASCII that simple case folding makes ASCII letters, in UTF-8, as letters.
unfoldable pub ascii_letters : Str → Str
unfolding letter_before
ascii_letters [] = []
ascii_letters (c ∷ s) = letter_before c (ascii_letters s)

-- strings.EqualFold(s, t) for a text `t` in ASCII
unfoldable pub equal_fold : Str → Str → Bool
unfolding to_lower ascii_letters ◌==◌
equal_fold s t = to_lower (ascii_letters s) == to_lower t

keeps_key : (Str → Bool) → Option (Str × Str) → Bool
unfolding equal_fold
keeps_key env_allowed none = false
keeps_key env_allowed (some (key, value)) = not (equal_fold key ssh_auth_sock) && env_allowed key

unfoldable pub filter_env : (Str → Bool) → List Str → List Str
unfolding keeps_key cut
filter_env env_allowed envs = keep (λ env. keeps_key env_allowed (cut b'=' env)) envs

unfoldable pub append_env_override : List Str → Str → Str → List Str
unfolding has_prefix
append_env_override env key value =
    keep (λ item. not (has_prefix item (key ++ codes "="))) env ++ ((key ++ (b'=' ∷ value)) ∷ [])

unfoldable pub build_command : Bool → Str → List Str → Str → List Str
build_command is_exec raw_cmd env default_shell =
    (if is_empty env then [] else codes "env" ∷ env)
    ++ (if is_exec then default_shell ∷ codes "-c" ∷ raw_cmd ∷ [] else default_shell ∷ [])

with_socket : Option Str → List Str → List Str
unfolding append_env_override
with_socket none env = env
with_socket (some socket) env =
    if is_empty socket then env else append_env_override env ssh_auth_sock socket

with_term : Option Pty → List Str → List Str
with_term none env = env
with_term (some pty) env =
    if is_empty pty.term then env else env ++ ((codes "TERM=" ++ pty.term) ∷ [])

-- The environment of resolveSession.
unfoldable pub session_env : (Str → Bool) → ServerSession → List Str
unfolding with_term with_socket filter_env
session_env env_allowed s =
    with_term s.pty (with_socket s.agent_forward (filter_env env_allowed s.env))

-- backend.ExecRequest and SCPRequest with what is chosen here; the streams are those of the session.
pub data BackendRequest : Type 0 where
  exec_request : (command : List Str) → (tty : Bool) → (initial : Option Window) → BackendRequest
  scp_request : (args : List Str) → BackendRequest
  sftp_request : BackendRequest

unfoldable pub is_exec_type : Option StartType → Bool
is_exec_type (some exec) = true
is_exec_type _ = false

is_tty : Option Pty → Bool
is_tty none = false
is_tty (some pty) = true

initial_window : Option Pty → Option Window
initial_window none = none
initial_window (some pty) = some pty.window

unfoldable pub resolve_session : (Str → Bool) → Str → ServerSession → BackendRequest
unfolding build_command is_exec_type is_tty session_env initial_window
resolve_session env_allowed default_shell s =
    exec_request
      (build_command (is_exec_type s.request_type) s.raw_cmd (session_env env_allowed s)
        default_shell)
      (is_tty s.pty) (initial_window s.pty)

-- handleSession, and handleSFTP for the subsystem; `words` is what shlex makes of the command.
unfoldable pub session_request :
    (Str → Bool) → Str → (Str → List Str) → ServerSession → BackendRequest
unfolding is_scp_command is_exec_type resolve_session
session_request env_allowed default_shell words s =
    if is_exec_type s.request_type && is_scp_command (words s.raw_cmd)
    then scp_request (drop 1 (words s.raw_cmd))
    else resolve_session env_allowed default_shell s

-- How an operation ended: its exit status, what was written to the session as an error, whether the
-- backend was called, and the results that it was finished with.
pub record OperationRun : Type 0 where
  pub exit_code : ℤ
  pub shown : Option Error
  pub executed : Bool
  pub finishes : List (Option Error × ℤ)

-- p.begin: the operation began, or it was refused with an error, with a function to finish it or without.
pub data Beginning : Type 0 where
  began : Beginning
  denied : (with_finish : Bool) → Error → Beginning

unfoldable pub run_session_operation : Beginning → ℤ × Option Error → OperationRun
run_session_operation (denied with_finish error) execution = record {
  exit_code = pos 1;
  shown = some error;
  executed = false;
  finishes = if with_finish then (none, pos 1) ∷ [] else [];
}
run_session_operation began (exit_code, exec_error) = record {
  exit_code = exit_code;
  shown = exec_error;
  executed = true;
  finishes = (exec_error, exit_code) ∷ [];
}
