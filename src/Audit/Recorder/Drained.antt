-- ===== src/Audit/Recorder/Drained.antt =====
-- Behind Close the worker gives every accepted event to the sink, and ends.
use kube_ssh.Base.{
  ℕ, zero, suc, ◌+◌, ◌*◌, ◌≤◌, ◌≡◌, refl, sym, ◌∙◌, subst, Bool, true, false, List, [], ◌∷◌, ◌++◌,
  Option, none, some, Error, length, append_assoc, append-nil, arith, ℤ,
}
use kube_ssh.Audit.Event.{Event}
use kube_ssh.Audit.Recorder.{AsyncRecorder, close_queue, run_step, act, receive, observe, result_of}
use kube_ssh.Audit.Recorder.Runs.{Run}
use kube_ssh.Audit.Recorder.Accounted.{held, Accounts, run-Accounts}

again : (AsyncRecorder → AsyncRecorder) → AsyncRecorder → Option AsyncRecorder → AsyncRecorder
again rest r none = r
again rest r (some r') = rest r'

-- The loop of run for at most so many steps, with what the sink answers in each.
unfoldable pub run : (ℕ → Option Error) → ℕ → AsyncRecorder → AsyncRecorder
unfolding again run_step
run answers zero r = r
run answers (suc steps) r = again (run answers steps) r (run_step (answers steps) r)

module _ (answers : ℕ → Option Error) where
  abbrev Drained : List Event → AsyncRecorder → Type 0
  Drained events r = (r.done ≡ true) × (r.sent ≡ events)

  run-done :
      (steps : ℕ) (r : AsyncRecorder)
      → run answers steps (record r { done = true }) ≡ record r { done = true }
  unfolding run again run_step
  run-done zero r = refl
  run-done (suc steps) r = refl

  abbrev idle : AsyncRecorder → List Event → AsyncRecorder
  idle r queue = record r { queue = queue; closed = true; in_hand = none; done = false }

  idle-Drained :
      (queue : List Event) (steps : ℕ) (r : AsyncRecorder)
      → 2 * length queue + 1 ≤ steps
      → Drained (r.sent ++ queue) (run answers steps (idle r queue))
  unfolding run again run_step act receive observe
  idle-Drained queue zero r h = absurd (omega arith)
  idle-Drained [] (suc steps) r h = rw (run-done steps (idle r [])) (refl, sym (append-nil r.sent))
  idle-Drained (event ∷ queue) (suc zero) r h = absurd (omega arith)
  idle-Drained (event ∷ queue) (suc (suc steps)) r h =
      let sent = r.sent ++ (event ∷ []) in
      let observed = r.observed ++ (result_of (answers steps) ∷ []) in
      subst
        (λ all.
          Drained all
            (run answers steps (idle (record r { sent = sent; observed = observed }) queue)))
        (append_assoc r.sent (event ∷ []) queue)
        (idle-Drained queue steps (record r { sent = sent; observed = observed }) (omega arith))

  busy-Drained :
      (in_hand : Option Event) (steps : ℕ) (r : AsyncRecorder)
      → 2 * length r.queue + 2 ≤ steps
      → Drained
          (r.sent ++ (held in_hand ++ r.queue))
          (run answers steps (record r { closed = true; in_hand = in_hand; done = false }))
  unfolding run again run_step act observe
  busy-Drained none steps r h = idle-Drained r.queue steps r (omega arith)
  busy-Drained (some event) zero r h = absurd (omega arith)
  busy-Drained (some event) (suc steps) r h =
      let sent = r.sent ++ (event ∷ []) in
      let observed = r.observed ++ (result_of (answers steps) ∷ []) in
      subst
        (λ all.
          Drained all
            (run answers steps (idle (record r { sent = sent; observed = observed }) r.queue)))
        (append_assoc r.sent (event ∷ []) r.queue)
        (idle-Drained r.queue steps (record r { sent = sent; observed = observed }) (omega arith))

  closed-Drained :
      (done : Bool) (steps : ℕ) (r : AsyncRecorder) (events : List Event) (given : ℕ)
      → 2 * length r.queue + 2 ≤ steps
      → r.done ≡ done
      → Accounts r events given
      → Drained events (run answers steps (record r { closed = true; done = done }))
  closed-Drained true steps r events given h e accounts =
      let order = accounts.in_order in
      let (c, q, i) = accounts.ended e in
      let all : events ≡ r.sent = order ∙ rw (i, q) (append-nil r.sent) in
      rw (run-done steps (record r { closed = true })) (refl, sym all)
  closed-Drained false steps r events given h e accounts =
      subst (λ all. Drained all (run answers steps (record r { closed = true; done = false })))
        (sym accounts.in_order) (busy-Drained r.in_hand steps r h)

  -- From any state that calls of Record and Close and steps of the worker lead to, the worker ends after
  -- the queue is closed, within two steps for each queued event and two more, whatever the sink answers;
  -- and then the sink got every event that was put in the queue, in order.
  pub close_queue-Drained :
      (queue_size : ℤ) (r : AsyncRecorder) (events : List Event) (given steps : ℕ)
      → Run queue_size r events given
      → 2 * length r.queue + 2 ≤ steps
      → let last = run answers steps (close_queue r) in (last.done ≡ true) × (last.sent ≡ events)
  unfolding close_queue
  close_queue-Drained queue_size r events given steps reached h =
      closed-Drained r.done steps r events given h refl
        (run-Accounts queue_size r events given reached)
