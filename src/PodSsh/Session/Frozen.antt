-- ===== src/PodSsh/Session/Frozen.antt =====
-- What the requests of a session can change, and within what bounds.
use kube_ssh.Base.{ℕ, ◌≡◌, refl, ◌∙◌, Bool, true, false, Option, none, some, if◌then◌else◌}
use kube_ssh.PodSsh.Session.{
  Window, Pty, ServerSession, Request, start_shell, start_exec, start_subsystem, environment,
  pty_request, window_change, agent_forward_request, other_request, Reply,
  parse_session_window_change_request, resized, handle_window_change_request, handle_request,
  next_window,
}

-- The requests of a channel, and the windows that the operation takes meanwhile, in any order.
pub data Run (s : ServerSession) : ServerSession → Type 0 where
  here : Run s s
  requested : (t : ServerSession) (request : Request) → Run s t → Run s (handle_request request t).1
  resize_taken : (t : ServerSession) → Run s t → Run s (next_window t).1

-- The parameters of the operation.
pub record SameParameters (s t : ServerSession) : Type 0 where
  pub started : t.started ≡ s.started
  pub pty : t.pty ≡ s.pty
  pub env : t.env ≡ s.env
  pub raw_cmd : t.raw_cmd ≡ s.raw_cmd
  pub request_type : t.request_type ≡ s.request_type
  pub agent_forward : t.agent_forward ≡ s.agent_forward
  pub launched : t.launched ≡ s.launched

same : (s : ServerSession) → SameParameters s s
same s = record {
  started = refl;
  pty = refl;
  env = refl;
  raw_cmd = refl;
  request_type = refl;
  agent_forward = refl;
  launched = refl;
}

windowed :
    (s : ServerSession) (window : Option Window) → SameParameters s (record s { winch = window })
windowed s window = record {
  started = refl;
  pty = refl;
  env = refl;
  raw_cmd = refl;
  request_type = refl;
  agent_forward = refl;
  launched = refl;
}

guarded :
    (s : ServerSession) (started : Bool) (reply : Reply)
    → started ≡ true
    → SameParameters s (if started then (false, s) else reply).1
guarded s true reply h = same s
guarded s false reply h = absurd (cc)

window_change-SameParameters :
    (s : ServerSession) (pty : Option Pty) (payload : Option (ℕ × ℕ))
    → SameParameters s (handle_window_change_request pty payload s).1
unfolding handle_window_change_request resized
window_change-SameParameters s none payload = same s
window_change-SameParameters s (some pty) payload = by (parse_session_window_change_request payload)
  where
    by : (window : Option Window) → SameParameters s (resized window s).1
    by none = same s
    by (some window) = windowed s (some window)

request-SameParameters :
    (request : Request) (s : ServerSession)
    → s.started ≡ true
    → SameParameters s (handle_request request s).1
unfolding handle_request
request-SameParameters other_request s h = same s
request-SameParameters (window_change payload) s h = window_change-SameParameters s s.pty payload
request-SameParameters (environment payload) s h = guarded s s.started _ h
request-SameParameters (pty_request payload) s h = guarded s s.started _ h
request-SameParameters (agent_forward_request empty accepted) s h = guarded s s.started _ h
request-SameParameters (start_shell empty sent) s h = guarded s s.started _ h
request-SameParameters (start_exec payload sent) s h = guarded s s.started _ h
request-SameParameters (start_subsystem payload sent) s h = guarded s s.started _ h

followed : (s t u : ServerSession) → SameParameters s t → SameParameters t u → SameParameters s u
followed s t u h k = record {
  started = k.started ∙ h.started;
  pty = k.pty ∙ h.pty;
  env = k.env ∙ h.env;
  raw_cmd = k.raw_cmd ∙ h.raw_cmd;
  request_type = k.request_type ∙ h.request_type;
  agent_forward = k.agent_forward ∙ h.agent_forward;
  launched = k.launched ∙ h.launched;
}

-- Once a session is started, no sequence of requests changes the terminal, the environment, the command,
-- the request type, the agent forwarding or the handlers that were launched.
pub run-SameParameters : (s t : ServerSession) → s.started ≡ true → Run s t → SameParameters s t
unfolding next_window
run-SameParameters s t h here = same s
run-SameParameters s t h (requested t₀ request run) =
    let before = run-SameParameters s t₀ h run in
    followed s t₀ t before (request-SameParameters request t₀ (before.started ∙ h))
run-SameParameters s t h (resize_taken t₀ run) =
    followed s t₀ t (run-SameParameters s t₀ h run) (windowed t₀ none)
