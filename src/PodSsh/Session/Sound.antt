-- ===== src/PodSsh/Session/Sound.antt =====
-- The sizes and the handlers of a session are within bounds.
use kube_ssh.Base.{
  ℕ, ◌≤◌, ◌≡◌, refl, ap, Bool, true, false, ◌||◌, [], Option, none, some, length, ltb,
  if◌then◌else◌, arith,
}
use kube_ssh.Text.{Str, codes, ◌==◌}
use kube_ssh.PodSsh.Session.{
  Window, Pty, Handler, handle_session, handle_sftp, StartType, ServerSession, new_server_session,
  max_uint16, Request, start_shell, start_exec, start_subsystem, environment, pty_request,
  window_change, agent_forward_request, other_request, Reply, launch, start_exec_with,
  start_subsystem_with, handle_start_request, handle_env_request, parse_session_pty_request, opened,
  handle_pty_request, parse_session_window_change_request, resized, handle_window_change_request,
  forwarding, handle_agent_forward_request, handle_request, next_window,
}
use kube_ssh.PodSsh.Session.Frozen.{Run, here, requested, resize_taken}

abbrev pub PtyFits : Option Pty → Type 0
PtyFits none = Unit
PtyFits (some pty) = (pty.window.width ≤ max_uint16) × (pty.window.height ≤ max_uint16)

abbrev pub WindowFits : Option Window → Type 0
WindowFits none = Unit
WindowFits (some window) =
    (1 ≤ window.width)
    × (window.width ≤ max_uint16)
    × (1 ≤ window.height)
    × (window.height ≤ max_uint16)

-- The sizes fit in 16 bits, no more than one handler was launched, and none before the start.
pub record IsSound (s : ServerSession) : Type 0 where
  pub pty_fits : PtyFits s.pty
  pub winch_fits : WindowFits s.winch
  pub launched_once : length s.launched ≤ 1
  pub not_before : s.started ≡ false → s.launched ≡ []

new-IsSound : IsSound new_server_session
new-IsSound = record {
  pty_fits = tt;
  winch_fits = tt;
  launched_once = omega arith;
  not_before = λ _. refl;
}

module _ (s : ServerSession) (h : IsSound s) where
  launch-IsSound :
      (request_type : StartType) (raw_cmd : Str) (handler : Handler) (sent : Bool)
      → s.started ≡ false
      → IsSound (launch request_type raw_cmd handler sent s).1
  unfolding launch
  launch-IsSound request_type raw_cmd handler true idle = record {
    pty_fits = h.pty_fits;
    winch_fits = h.winch_fits;
    launched_once =
        let bare : length s.launched ≡ 0 = ap length (h.not_before idle) in omega (arith, bare);
    not_before = λ e. absurd (cc);
  }
  launch-IsSound request_type raw_cmd handler false idle = record {
    pty_fits = h.pty_fits;
    winch_fits = h.winch_fits;
    launched_once = h.launched_once;
    not_before = λ e. absurd (cc);
  }

  exec-IsSound :
      (payload : Option Str) (sent : Bool)
      → s.started ≡ false
      → IsSound (start_exec_with payload sent s).1
  unfolding start_exec_with
  exec-IsSound none sent idle = h
  exec-IsSound (some command) sent idle =
      launch-IsSound StartType.exec command handle_session sent idle

  if-IsSound :
      (test : Bool) (reply : Reply)
      → IsSound reply.1
      → IsSound (if test then reply else (false, s)).1
  if-IsSound true reply k = k
  if-IsSound false reply k = h

  subsystem-IsSound :
      (payload : Option Str) (sent : Bool)
      → s.started ≡ false
      → IsSound (start_subsystem_with payload sent s).1
  unfolding start_subsystem_with
  subsystem-IsSound none sent idle = h
  subsystem-IsSound (some name) sent idle =
      if-IsSound (name == codes "sftp") (launch StartType.subsystem s.raw_cmd handle_sftp sent s)
        (launch-IsSound StartType.subsystem s.raw_cmd handle_sftp sent idle)

  start-IsSound :
      (request : Request) → s.started ≡ false → IsSound (handle_start_request request s).1
  unfolding handle_start_request
  start-IsSound (start_shell empty sent) idle =
      if-IsSound empty (launch StartType.shell s.raw_cmd handle_session sent s)
        (launch-IsSound StartType.shell s.raw_cmd handle_session sent idle)
  start-IsSound (start_exec payload sent) idle = exec-IsSound payload sent idle
  start-IsSound (start_subsystem payload sent) idle = subsystem-IsSound payload sent idle
  start-IsSound (environment payload) idle = h
  start-IsSound (pty_request payload) idle = h
  start-IsSound (window_change payload) idle = h
  start-IsSound (agent_forward_request empty accepted) idle = h
  start-IsSound other_request idle = h

  env-IsSound : (payload : Option (Str × Str)) → IsSound (handle_env_request payload s).1
  unfolding handle_env_request
  env-IsSound none = h
  env-IsSound (some (key, value)) = record {
    pty_fits = h.pty_fits;
    winch_fits = h.winch_fits;
    launched_once = h.launched_once;
    not_before = h.not_before;
  }

  parsed-PtyFits : (payload : Option (Str × ℕ × ℕ)) → PtyFits (parse_session_pty_request payload)
  unfolding parse_session_pty_request
  parsed-PtyFits none = tt
  parsed-PtyFits (some (term, width, height)) =
      by (ltb max_uint16 width || ltb max_uint16 height) refl
    where
      by :
          (large : Bool)
          → (ltb max_uint16 width || ltb max_uint16 height) ≡ large
          → PtyFits (
              if large
              then none
              else some
                  (record { term = term; window = record { width = width; height = height } }))
      by true e = tt
      by false e = (ground arith, ground arith)

  opened-IsSound : (pty : Option Pty) → PtyFits pty → IsSound (opened pty s).1
  unfolding opened
  opened-IsSound none fits = h
  opened-IsSound (some pty) fits = record {
    pty_fits = fits;
    winch_fits = tt;
    launched_once = h.launched_once;
    not_before = h.not_before;
  }

  pty-IsSound :
      (before : Option Pty) (payload : Option (Str × ℕ × ℕ))
      → IsSound (handle_pty_request before payload s).1
  unfolding handle_pty_request
  pty-IsSound (some pty) payload = h
  pty-IsSound none payload =
      opened-IsSound (parse_session_pty_request payload) (parsed-PtyFits payload)

  parsed-WindowFits :
      (payload : Option (ℕ × ℕ)) → WindowFits (parse_session_window_change_request payload)
  unfolding parse_session_window_change_request
  parsed-WindowFits none = tt
  parsed-WindowFits (some (width, height)) =
      by (ltb width 1 || ltb height 1 || ltb max_uint16 width || ltb max_uint16 height) refl
    where
      by :
          (wrong : Bool)
          → (ltb width 1 || ltb height 1 || ltb max_uint16 width || ltb max_uint16 height) ≡ wrong
          → WindowFits (if wrong then none else some (record { width = width; height = height }))
      by true e = tt
      by false e = (ground arith, ground arith, ground arith, ground arith)

  winch-IsSound :
      (window : Option Window) → WindowFits window → IsSound (record s { winch = window })
  winch-IsSound window fits = record {
    pty_fits = h.pty_fits;
    winch_fits = fits;
    launched_once = h.launched_once;
    not_before = h.not_before;
  }

  resized-IsSound : (window : Option Window) → WindowFits window → IsSound (resized window s).1
  unfolding resized
  resized-IsSound none fits = h
  resized-IsSound (some window) fits = winch-IsSound (some window) fits

  window-IsSound :
      (pty : Option Pty) (payload : Option (ℕ × ℕ))
      → IsSound (handle_window_change_request pty payload s).1
  unfolding handle_window_change_request
  window-IsSound none payload = h
  window-IsSound (some pty) payload =
      resized-IsSound (parse_session_window_change_request payload) (parsed-WindowFits payload)

  agent-IsSound :
      (before : Option Str) (empty : Bool) (accepted : Option Str)
      → IsSound (handle_agent_forward_request before empty accepted s).1
  unfolding handle_agent_forward_request forwarding
  agent-IsSound (some before) empty accepted = h
  agent-IsSound none false accepted = h
  agent-IsSound none true none = h
  agent-IsSound none true (some socket) = record {
    pty_fits = h.pty_fits;
    winch_fits = h.winch_fits;
    launched_once = h.launched_once;
    not_before = h.not_before;
  }

  unless-IsSound :
      (started : Bool) (reply : Reply)
      → s.started ≡ started
      → (s.started ≡ false → IsSound reply.1)
      → IsSound (if started then (false, s) else reply).1
  unless-IsSound true reply e k = h
  unless-IsSound false reply e k = k e

  request-IsSound : (request : Request) → IsSound (handle_request request s).1
  unfolding handle_request
  request-IsSound other_request = h
  request-IsSound (window_change payload) = window-IsSound s.pty payload
  request-IsSound (environment payload) =
      unless-IsSound s.started (handle_env_request payload s) refl (λ _. env-IsSound payload)
  request-IsSound (pty_request payload) =
      unless-IsSound s.started (handle_pty_request s.pty payload s) refl
        (λ _. pty-IsSound s.pty payload)
  request-IsSound (agent_forward_request empty accepted) =
      unless-IsSound s.started (handle_agent_forward_request s.agent_forward empty accepted s) refl
        (λ _. agent-IsSound s.agent_forward empty accepted)
  request-IsSound (start_shell empty sent) =
      unless-IsSound s.started (handle_start_request (start_shell empty sent) s) refl
        (start-IsSound (start_shell empty sent))
  request-IsSound (start_exec payload sent) =
      unless-IsSound s.started (handle_start_request (start_exec payload sent) s) refl
        (start-IsSound (start_exec payload sent))
  request-IsSound (start_subsystem payload sent) =
      unless-IsSound s.started (handle_start_request (start_subsystem payload sent) s) refl
        (start-IsSound (start_subsystem payload sent))

-- After any requests of a channel, the size of the terminal and a queued window fit in 16 bits, a queued
-- window is not empty, and at most one handler was launched, none before the session is started.
pub run-IsSound : (s : ServerSession) → Run new_server_session s → IsSound s
unfolding next_window
run-IsSound s here = new-IsSound
run-IsSound s (requested t request run) = request-IsSound t (run-IsSound t run) request
run-IsSound s (resize_taken t run) = winch-IsSound t (run-IsSound t run) none tt
