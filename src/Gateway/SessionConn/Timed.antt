-- ===== src/Gateway/SessionConn/Timed.antt =====
-- No session outlives its policy, where timers fire on time.
use kube_ssh.Base.{
  ℕ, ◌+◌, ◌-◌, ◌<◌, ◌≤◌, ◌≡◌, refl, ◌⊎◌, inl, inr, Bool, true, false, Option, none, some, ltb, leb,
  if◌then◌else◌, arith,
}
use kube_ssh.Gateway.SessionPolicy.{EffectiveSessionPolicy}
use kube_ssh.Gateway.SessionConn.{
  SessionPolicyConn, earliest, next_deadline, schedule_at, schedule_locked, close, close_expired,
  apply_policy, new_session_policy_conn, touch, on_timer,
}

-- A connection at a time. The clock does not pass the time of a pending timer before it fires.
pub data Run : SessionPolicyConn → ℕ → Type 0 where
  start : (now : ℕ) (policy : EffectiveSessionPolicy) → Run (new_session_policy_conn now policy) now
  applied :
      (c : SessionPolicyConn) (now : ℕ) (policy : EffectiveSessionPolicy)
      → Run c now
      → Run (apply_policy now policy c) now
  touched : (c : SessionPolicyConn) (now : ℕ) → Run c now → Run (touch now c) now
  was_closed : (c : SessionPolicyConn) (now : ℕ) → Run c now → Run (close c) now
  fired :
      (c : SessionPolicyConn) (now : ℕ) → Run c now → c.timer ≡ some now → Run (on_timer now c) now
  elapsed :
      (c : SessionPolicyConn) (now later : ℕ)
      → Run c now
      → now ≤ later
      → ((fires : ℕ) → c.timer ≡ some fires → later ≤ fires)
      → Run c later

-- A time that neither limit forbids.
abbrev pub InTime : ℕ → SessionPolicyConn → Type 0
InTime time c =
    (0 < c.policy.max_duration → time ≤ c.started + c.policy.max_duration)
    × (0 < c.policy.idle_timeout → time ≤ c.started + (c.last_activity + c.policy.idle_timeout))

abbrev Unlimited : SessionPolicyConn → Type 0
Unlimited c = (c.policy.max_duration ≡ 0) × (c.policy.idle_timeout ≡ 0)

-- An open connection has a timer that fires in time, unless nothing limits it.
abbrev Watched : ℕ → SessionPolicyConn → Type 0
Watched now c =
    c.closed ≡ false
    → (c.started + c.last_activity ≤ now)
      × (Unlimited c ⊎ ((fires : ℕ) × (c.timer ≡ some fires) × (now ≤ fires) × InTime fires c))

abbrev IsDeadline : Option ℕ → SessionPolicyConn → Type 0
IsDeadline none c = Unlimited c
IsDeadline (some deadline) c = InTime deadline c

close-closed : (c : SessionPolicyConn) → (close c).closed ≡ true
unfolding close
close-closed c = by c.closed refl
  where
    by :
        (closed : Bool)
        → c.closed ≡ closed
        → (if closed then c else record c { closed = true; timer = none }).closed ≡ true
    by true closed = closed
    by false still_open = refl

next_deadline-IsDeadline : (c : SessionPolicyConn) → IsDeadline (next_deadline c) c
unfolding next_deadline earliest
next_deadline-IsDeadline c =
    by (ltb 0 c.policy.max_duration) (ltb 0 c.policy.idle_timeout) refl refl
  where
    sooner :
        (idle_first : Bool)
        → ltb
            (c.started + (c.last_activity + c.policy.idle_timeout))
            (c.started + c.policy.max_duration)
          ≡ idle_first
        → IsDeadline
            (if idle_first
              then some (c.started + (c.last_activity + c.policy.idle_timeout))
              else some (c.started + c.policy.max_duration))
            c
    sooner true first = (λ _. ground arith, λ _. omega arith)
    sooner false first = (λ _. omega arith, λ _. ground arith)

    by :
        (lasting idling : Bool)
        → ltb 0 c.policy.max_duration ≡ lasting
        → ltb 0 c.policy.idle_timeout ≡ idling
        → IsDeadline
            (if idling
              then earliest
                  (if lasting then some (c.started + c.policy.max_duration) else none)
                  (c.started + (c.last_activity + c.policy.idle_timeout))
              else if lasting
              then some (c.started + c.policy.max_duration)
              else none)
            c
    by true true m i =
        sooner
          (ltb (c.started + (c.last_activity + c.policy.idle_timeout))
            (c.started + c.policy.max_duration))
          refl
    by false true m i = (λ h. ground arith, λ _. omega arith)
    by true false m i = (λ _. omega arith, λ h. ground arith)
    by false false m i = (ground arith, ground arith)

schedule-Watched :
    (now : ℕ) (deadline : Option ℕ) (c : SessionPolicyConn)
    → c.started + c.last_activity ≤ now
    → IsDeadline deadline c
    → Watched now (close_expired (schedule_at now deadline c))
unfolding schedule_at close_expired
schedule-Watched now none c past h = λ _. (past, inl h)
schedule-Watched now (some deadline) c past h = by (leb deadline now) refl
  where
    by :
        (expired : Bool)
        → leb deadline now ≡ expired
        → Watched now (
            close_expired
              (if expired then (true, c) else (false, record c { timer = some deadline })))
    by true expired = λ still_open. let shut = close-closed c in absurd (cc)
    by false later = λ _. (past, inr (deadline, refl, ground arith, h))

locked-Watched :
    (now : ℕ) (c : SessionPolicyConn)
    → c.started + c.last_activity ≤ now
    → Watched now (close_expired (schedule_locked now c))
unfolding schedule_locked
locked-Watched now c past =
    schedule-Watched now (next_deadline c) c past (next_deadline-IsDeadline c)

applied-Watched :
    (now : ℕ) (policy : EffectiveSessionPolicy) (c : SessionPolicyConn)
    → (c.closed ≡ false → c.started + c.last_activity ≤ now)
    → Watched now (apply_policy now policy c)
unfolding apply_policy
applied-Watched now policy c h = by c.closed refl
  where
    by :
        (closed : Bool)
        → c.closed ≡ closed
        → Watched now (
            if closed
            then c
            else close_expired (schedule_locked now (record c { policy = policy })))
    by true closed = λ still_open. absurd (cc)
    by false still_open = locked-Watched now (record c { policy = policy }) (h still_open)

fired-Watched : (now : ℕ) (c : SessionPolicyConn) → Watched now c → Watched now (on_timer now c)
unfolding on_timer
fired-Watched now c h = by c.closed refl
  where
    by :
        (closed : Bool)
        → c.closed ≡ closed
        → Watched now
            (if closed then c else close_expired (schedule_locked now (record c { timer = none })))
    by true closed = λ still_open. absurd (cc)
    by false still_open = locked-Watched now (record c { timer = none }) (h still_open).0

-- An activity only moves the idle deadline on.
touched-Watched : (now : ℕ) (c : SessionPolicyConn) → Watched now c → Watched now (touch now c)
unfolding touch
touched-Watched now c h still_open =
    let (past, watch) = h still_open in (omega arith, later past watch)
  where
    later :
        c.started + c.last_activity ≤ now
        → Unlimited c ⊎ ((fires : ℕ) × (c.timer ≡ some fires) × (now ≤ fires) × InTime fires c)
        → Unlimited c
          ⊎ ((fires : ℕ) × (c.timer ≡ some fires)
              × (now ≤ fires)
              × InTime fires (record c { last_activity = now - c.started }))
    later past (inl free) = inl free
    later past (inr (fires, armed, ahead, (duration, idle))) =
        inr (fires, armed, ahead, (duration, λ set. let before = idle set in omega (arith, before)))

elapsed-Watched :
    (now time : ℕ) (c : SessionPolicyConn)
    → now ≤ time
    → ((fires : ℕ) → c.timer ≡ some fires → time ≤ fires)
    → Watched now c
    → Watched time c
elapsed-Watched now time c forward waits h still_open =
    let (past, watch) = h still_open in (omega arith, kept watch)
  where
    kept :
        Unlimited c ⊎ ((fires : ℕ) × (c.timer ≡ some fires) × (now ≤ fires) × InTime fires c)
        → Unlimited c ⊎ ((fires : ℕ) × (c.timer ≡ some fires) × (time ≤ fires) × InTime fires c)
    kept (inl free) = inl free
    kept (inr (fires, armed, ahead, in_time)) = inr (fires, armed, waits fires armed, in_time)

run-Watched : (c : SessionPolicyConn) (now : ℕ) → Run c now → Watched now c
unfolding new_session_policy_conn
run-Watched c now (start time policy) =
    applied-Watched time policy
      (record { started = time; last_activity = 0; closed = false; policy = policy; timer = none })
      (λ _. omega arith)
run-Watched c now (applied c₀ time policy run) =
    let h = run-Watched c₀ time run in
    applied-Watched time policy c₀ (λ still_open. (h still_open).0)
run-Watched c now (touched c₀ time run) = touched-Watched time c₀ (run-Watched c₀ time run)
run-Watched c now (was_closed c₀ time run) = λ still_open. let shut = close-closed c₀ in absurd (cc)
run-Watched c now (fired c₀ time run armed) = fired-Watched time c₀ (run-Watched c₀ time run)
run-Watched c now (elapsed c₀ before time run forward waits) =
    elapsed-Watched before time c₀ forward waits (run-Watched c₀ before run)

-- In every run, where a timer fires at its time and the policy may change, a connection that is open is
-- not older than the maximal duration of its policy, where that is above 0, and not longer without
-- activity than the idle timeout, where that is above 0.
pub run-InTime : (c : SessionPolicyConn) (now : ℕ) → Run c now → c.closed ≡ false → InTime now c
run-InTime c now run still_open = by (run-Watched c now run still_open).1
  where
    by :
        Unlimited c ⊎ ((fires : ℕ) × (c.timer ≡ some fires) × (now ≤ fires) × InTime fires c)
        → InTime now c
    by (inl (no_duration, no_idle)) = (λ set. omega arith, λ set. omega arith)
    by (inr (fires, armed, ahead, (duration, idle))) = (
      λ set. let before = duration set in omega (arith, before),
      λ set. let before = idle set in omega (arith, before),
    )
