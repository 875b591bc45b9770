-- ===== src/Gateway/SessionConn.antt =====
-- pkg/gateway/session_policy_conn.go: the connection that is closed when its session policy says so.
-- Times are in nanoseconds; a method that takes the lock is one step, and so is a touch. A step reads the
-- clock once.
pub mod Timed
use kube_ssh.Base.{ℕ, ◌+◌, ◌-◌, Bool, true, false, Option, none, some, ltb, leb, if◌then◌else◌}
use kube_ssh.Gateway.SessionPolicy.{EffectiveSessionPolicy}

-- `timer` is when the pending timer fires; a timer that is stopped or has fired is not pending. The time
-- of the last activity counts from `started`.
pub record SessionPolicyConn : Type 0 where
  pub started : ℕ
  pub last_activity : ℕ
  pub closed : Bool
  pub policy : EffectiveSessionPolicy
  pub timer : Option ℕ

earliest : Option ℕ → ℕ → Option ℕ
earliest none idle = some idle
earliest (some deadline) idle = if ltb idle deadline then some idle else some deadline

-- The zero time is `none`.
unfoldable pub next_deadline : SessionPolicyConn → Option ℕ
unfolding earliest
next_deadline c =
    let by_duration =
      if ltb 0 c.policy.max_duration then some (c.started + c.policy.max_duration) else none in
    if ltb 0 c.policy.idle_timeout
    then earliest by_duration (c.started + (c.last_activity + c.policy.idle_timeout))
    else by_duration

-- Whether the policy has expired, and the connection with its timer.
unfoldable pub schedule_at : ℕ → Option ℕ → SessionPolicyConn → Bool × SessionPolicyConn
schedule_at now none c = (false, record c { timer = none })
schedule_at now (some deadline) c =
    if leb deadline now then (true, c) else (false, record c { timer = some deadline })

unfoldable pub schedule_locked : ℕ → SessionPolicyConn → Bool × SessionPolicyConn
unfolding schedule_at next_deadline
schedule_locked now c = schedule_at now (next_deadline c) c

unfoldable pub close : SessionPolicyConn → SessionPolicyConn
close c = if c.closed then c else record c { closed = true; timer = none }

unfoldable pub close_expired : Bool × SessionPolicyConn → SessionPolicyConn
unfolding close
close_expired (expired, c) = if expired then close c else c

unfoldable pub apply_policy : ℕ → EffectiveSessionPolicy → SessionPolicyConn → SessionPolicyConn
unfolding schedule_locked close_expired
apply_policy now policy c =
    if c.closed then c else close_expired (schedule_locked now (record c { policy = policy }))

unfoldable pub new_session_policy_conn : ℕ → EffectiveSessionPolicy → SessionPolicyConn
unfolding apply_policy
new_session_policy_conn now policy =
    apply_policy now policy
      (record { started = now; last_activity = 0; closed = false; policy = policy; timer = none })

-- Read and Write, where they moved bytes.
unfoldable pub touch : ℕ → SessionPolicyConn → SessionPolicyConn
touch now c = record c { last_activity = now - c.started }

-- The timer that fires is no longer pending.
unfoldable pub on_timer : ℕ → SessionPolicyConn → SessionPolicyConn
unfolding schedule_locked close_expired
on_timer now c =
    if c.closed then c else close_expired (schedule_locked now (record c { timer = none }))
