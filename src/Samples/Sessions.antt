-- ===== src/Samples/Sessions.antt =====
-- The theorems on Pod SSH sessions and forwards at concrete inputs.
use kube_ssh.Base.{ℕ, ◌+◌, ◌≡◌, refl, true, List, [], ◌∷◌, some, ok, All, length, length}
use kube_ssh.Text.{Str, codes}
use kube_ssh.Target.{Target}
use kube_ssh.PodSsh.Forwards.{
  Forward, Connection, new_connection, handle_tcpip_forward, close_protocol,
}
use kube_ssh.PodSsh.Forwards.Counts.{count}
use kube_ssh.PodSsh.Forwards.Released
use kube_ssh.PodSsh.Forwards.Released.{run-released}
use kube_ssh.PodSsh.Session.{
  ServerSession, new_server_session, start_exec, pty_request, environment, handle_request,
}
use kube_ssh.PodSsh.Session.Frozen.{here, requested, SameParameters, run-SameParameters}
use kube_ssh.PodSsh.Session.Sound.{IsSound, run-IsSound}
use kube_ssh.PodSsh.Launch.{session_env}
use kube_ssh.PodSsh.Launch.Environment.{Sourced, session_env-Sourced}

abbrev forward : Forward
forward = record { identity = 7; actual_port = 8080 }

abbrev forwarding : Connection
forwarding =
    (handle_tcpip_forward (some (codes "localhost", 0)) (ok tt) (ok forward) new_connection).1

run-released_example :
    ((i : ℕ) → count i (forward ∷ []) ≡ count i (close_protocol forwarding).released)
    × ((close_protocol forwarding).begun
        ≡ (close_protocol forwarding).finished + length (close_protocol forwarding).serving)
unfolding close_protocol handle_tcpip_forward
run-released_example =
    run-released (close_protocol forwarding) (forward ∷ [])
      (Released.was_closed forwarding (forward ∷ []) (
        Released.requested new_connection [] (some (codes "localhost", 0)) (ok tt) (ok forward)
          Released.start))
      refl

-- A session with a PTY and a variable that runs a command.
abbrev with_pty : ServerSession
with_pty = (handle_request (pty_request (some (codes "xterm", 80, 24))) new_server_session).1

abbrev with_env : ServerSession
with_env = (handle_request (environment (some (codes "LANG", codes "C"))) with_pty).1

abbrev running : ServerSession
running = (handle_request (start_exec (some (codes "scp -t /tmp")) true) with_env).1

abbrev later : ServerSession
later = (handle_request (environment (some (codes "LANG", codes "D"))) running).1

run-SameParameters_example : SameParameters running later
unfolding handle_request
run-SameParameters_example =
    run-SameParameters running later refl
      (requested running (environment (some (codes "LANG", codes "D"))) here)

run-IsSound_example : IsSound with_pty
run-IsSound_example =
    run-IsSound with_pty
      (requested new_server_session (pty_request (some (codes "xterm", 80, 24))) here)

session_env-Sourced_example :
    All (Sourced (λ key. true) running) (session_env (λ key. true) running)
session_env-Sourced_example = session_env-Sourced (λ key. true) running

abbrev pod_target : Target
pod_target = record { kind = codes "kube"; options = []; runtime = [] }

abbrev words : Str → List Str
words command = codes "scp" ∷ codes "-t" ∷ codes "/tmp" ∷ []
