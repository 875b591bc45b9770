-- ===== src/Audit/Recorder/Accounted.antt =====
-- No event is lost, repeated or reordered on the way to the sink.
use kube_ssh.Base.{
  ℕ, suc, ◌+◌, ◌≤◌, ◌<◌, ◌≡◌, refl, sym, ◌∙◌, ap, subst, ◌⊎◌, inl, inr, Bool, true, false, not,
  ◌&&◌, List, [], ◌∷◌, ◌++◌, Option, none, some, some_inj, Error, length, length-append,
  append_assoc, append-nil, ltb, arith, if◌then◌else◌, ℤ,
}
use kube_ssh.Text.{Str}
use kube_ssh.Audit.Event.{Event, prepare}
use kube_ssh.Audit.Recorder.{
  AsyncRecorder, AuditResult, written, dropped, sink_error, new_async_recorder, observe, enqueue,
  record_event, close_queue, close_sink, run_step, act, receive, result_of,
}
use kube_ssh.Audit.Recorder.Runs.{Run, start, recorded, queue_closed, sink_closed, worked, accepted}

abbrev pub held : Option Event → List Event
held none = []
held (some event) = event ∷ []

abbrev pub drops : List AuditResult → ℕ
drops [] = 0
drops (dropped ∷ results) = suc (drops results)
drops (_ ∷ results) = drops results

drops-append : (left right : List AuditResult) → drops (left ++ right) ≡ drops left + drops right
drops-append [] right = omega arith
drops-append (written ∷ left) right = drops-append left right
drops-append (dropped ∷ left) right = omega (arith, drops-append left right)
drops-append (sink_error ∷ left) right = drops-append left right

-- What the state keeps of the events: those accepted are the ones given to the sink, the one in hand and
-- the queue, in this order; each event given before the recorder was closed is accepted or reported as
-- dropped; the queue is within its capacity; and the worker has ended only with nothing left, the sink
-- is closed at most once, and only behind the worker's end.
pub record Accounts (r : AsyncRecorder) (events : List Event) (given : ℕ) : Type 0 where
  pub in_order : events ≡ r.sent ++ (held r.in_hand ++ r.queue)
  pub none_lost : given ≡ length events + drops r.observed
  pub within : length r.queue ≤ r.capacity
  pub ended : r.done ≡ true → (r.closed ≡ true) × (r.queue ≡ []) × (r.in_hand ≡ none)
  pub once :
      (r.sink_closed ≡ 0) × (r.sink_closing ≡ false)
      ⊎ (r.sink_closed ≡ 1) × (r.sink_closing ≡ true) × (r.done ≡ true)

start-Accounts : (queue_size : ℤ) → Accounts (new_async_recorder queue_size) [] 0
unfolding new_async_recorder
start-Accounts queue_size = record {
  in_order = refl;
  none_lost = refl;
  within = omega arith;
  ended = λ e. cc;
  once = inl (refl, refl);
}

closed-Accounts :
    (r : AsyncRecorder) (events : List Event) (given : ℕ)
    → Accounts r events given
    → Accounts (close_queue r) events given
unfolding close_queue
closed-Accounts r events given h = record {
  in_order = h.in_order;
  none_lost = h.none_lost;
  within = h.within;
  ended = λ e. let (c, q, i) = h.ended e in (refl, q, i);
  once = h.once;
}

-- A send where there is room, and one that is dropped.
added-Accounts :
    (r : AsyncRecorder) (events : List Event) (given : ℕ) (event : Event)
    → r.closed ≡ false
    → length r.queue < r.capacity
    → Accounts r events given
    → Accounts (record r { queue = r.queue ++ (event ∷ []) }) (events ++ (event ∷ [])) (suc given)
added-Accounts r events given event still_open room h = record {
  in_order =
      ap (λ all. all ++ (event ∷ [])) h.in_order
      ∙ append_assoc r.sent (held r.in_hand ++ r.queue) (event ∷ [])
      ∙ ap (λ tail. r.sent ++ tail) (append_assoc (held r.in_hand) r.queue (event ∷ []));
  none_lost = let whole = h.none_lost in omega (arith, whole, length-append events (event ∷ []));
  within = omega (arith, length-append r.queue (event ∷ []));
  ended = λ e. let (c, q, i) = h.ended e in absurd (cc);
  once = h.once;
}

dropped-Accounts :
    (r : AsyncRecorder) (events : List Event) (given : ℕ)
    → Accounts r events given
    → Accounts (observe dropped r) (events ++ []) (suc given)
unfolding observe
dropped-Accounts r events given h = record {
  in_order = append-nil events ∙ h.in_order;
  none_lost =
      let whole = h.none_lost in
      let same = length-append events [] in
      omega (arith, whole, same, drops-append r.observed (dropped ∷ []));
  within = h.within;
  ended = h.ended;
  once = h.once;
}

module _ (r : AsyncRecorder) (events : List Event) (given : ℕ) (h : Accounts r events given) where
  enqueued-Accounts :
      (event : Event) (room : Bool)
      → r.closed ≡ false
      → ltb (length r.queue) r.capacity ≡ room
      → Accounts
          (if room then record r { queue = r.queue ++ (event ∷ []) } else observe dropped r)
          (events ++ (if room then event ∷ [] else []))
          (suc given)
  enqueued-Accounts event true still_open at =
      added-Accounts r events given event still_open (ground arith) h
  enqueued-Accounts event false still_open at = dropped-Accounts r events given h

  given-Accounts :
      (event : Event) (closed : Bool)
      → r.closed ≡ closed
      → Accounts
          (if closed then r else enqueue event r)
          (events ++ (if not closed && ltb (length r.queue) r.capacity then event ∷ [] else []))
          (if closed then given else suc given)
  unfolding enqueue
  given-Accounts event true closed = subst (λ all. Accounts r all given) (sym (append-nil events)) h
  given-Accounts event false still_open =
      enqueued-Accounts event (ltb (length r.queue) r.capacity) still_open refl

  recorded-Accounts :
      (now : ℕ) (new_id : Str) (event : Event)
      → Accounts
          (record_event now new_id event r)
          (events ++ accepted r (prepare now new_id event))
          (if r.closed then given else suc given)
  unfolding record_event accepted
  recorded-Accounts now new_id event = given-Accounts (prepare now new_id event) r.closed refl

  module _ (r' : AsyncRecorder) where
    closing-by :
        (done closing : Bool)
        → r.done ≡ done
        → r.sink_closing ≡ closing
        → (if done
            then some (
                if closing
                then r
                else record r { sink_closing = true; sink_closed = suc r.sink_closed })
            else none)
          ≡ some r'
        → Accounts r' events given
    closing-by false closing running c e = cc
    closing-by true true done c e = subst (λ s. Accounts s events given) (some_inj e) h
    closing-by true false done fresh e =
        subst (λ s. Accounts s events given) (some_inj e)
          (record {
            in_order = h.in_order;
            none_lost = h.none_lost;
            within = h.within;
            ended = h.ended;
            once = let first = h.once in inr (ground arith);
          })

    closing-Accounts : close_sink r ≡ some r' → Accounts r' events given
    unfolding close_sink
    closing-Accounts = closing-by r.done r.sink_closing refl refl

    ended-by :
        (closed : Bool)
        → r.closed ≡ closed
        → r.queue ≡ []
        → r.in_hand ≡ none
        → (if closed then some (record r { done = true }) else none) ≡ some r'
        → Accounts r' events given
    ended-by false waiting q idle e = cc
    ended-by true closed q idle e =
        subst (λ s. Accounts s events given) (some_inj e)
          (record {
            in_order = h.in_order;
            none_lost = h.none_lost;
            within = h.within;
            ended = λ _. (closed, q, idle);
            once = let first = h.once in ground arith;
          })

received-Accounts :
    (r r' : AsyncRecorder) (queue : List Event) (events : List Event) (given : ℕ)
    → r.queue ≡ queue
    → r.done ≡ false
    → r.in_hand ≡ none
    → receive queue r ≡ some r'
    → Accounts r events given
    → Accounts r' events given
unfolding receive
received-Accounts r r' [] events given q running idle e h =
    ended-by r events given h r' r.closed refl q idle e
received-Accounts r r' (event ∷ rest) events given q running idle e h =
    let same : record r { queue = rest; in_hand = some event } ≡ r' = some_inj e in
    subst (λ s. Accounts s events given) same
      (record {
        in_order = rw (h.in_order, idle, q) refl;
        none_lost = h.none_lost;
        within =
            let fits = h.within in
            let size : length r.queue ≡ suc (length rest) = rw q refl in omega (arith, fits, size);
        ended = λ done. absurd (cc);
        once = h.once;
      })

undropped : (answer : Option Error) → drops (result_of answer ∷ []) ≡ 0
unfolding result_of
undropped none = refl
undropped (some error) = refl

acted-Accounts :
    (r r' : AsyncRecorder) (in_hand : Option Event) (answer : Option Error) (events : List Event)
    (given : ℕ)
    → r.in_hand ≡ in_hand
    → r.done ≡ false
    → act in_hand answer r ≡ some r'
    → Accounts r events given
    → Accounts r' events given
unfolding act observe result_of
acted-Accounts r r' none answer events given idle running e h =
    received-Accounts r r' r.queue events given refl running idle e h
acted-Accounts r r' (some event) answer events given busy running e h =
    let same = some_inj e in
    subst (λ s. Accounts s events given) same
      (record {
        in_order =
            let order = h.in_order in
            let all : events ≡ r.sent ++ (event ∷ r.queue) = order ∙ rw busy refl in
            all ∙ sym (append_assoc r.sent (event ∷ []) r.queue);
        none_lost =
            let whole = h.none_lost in
            omega (arith, whole, drops-append r.observed (result_of answer ∷ []), undropped answer);
        within = h.within;
        ended = λ done. absurd (cc);
        once = h.once;
      })

worked-Accounts :
    (r r' : AsyncRecorder) (answer : Option Error) (events : List Event) (given : ℕ)
    → run_step answer r ≡ some r'
    → Accounts r events given
    → Accounts r' events given
unfolding run_step
worked-Accounts r r' answer events given e h = by r.done refl e
  where
    by :
        (done : Bool)
        → r.done ≡ done
        → (if done then none else act r.in_hand answer r) ≡ some r'
        → Accounts r' events given
    by true done e = cc
    by false running e = acted-Accounts r r' r.in_hand answer events given refl running e h

-- After any order of calls of Record, of both parts of Close and of steps of the worker: the events that
-- were put in the queue are, in order, those that the sink got, the one in hand and those still queued;
-- the records given before the close are these events and the drops that the observer was told; the
-- queue is within its capacity; where the worker has ended, the recorder is closed with nothing queued or
-- in hand; and the sink is closed at most once, and then behind the end of the worker.
pub run-Accounts :
    (queue_size : ℤ) (r : AsyncRecorder) (events : List Event) (given : ℕ)
    → Run queue_size r events given
    → Accounts r events given
run-Accounts queue_size r events given start = start-Accounts queue_size
run-Accounts queue_size r events given (recorded r₀ events₀ given₀ now new_id event run) =
    recorded-Accounts r₀ events₀ given₀ (run-Accounts queue_size r₀ events₀ given₀ run) now new_id
      event
run-Accounts queue_size r events given (queue_closed r₀ events₀ given₀ run) =
    closed-Accounts r₀ events₀ given₀ (run-Accounts queue_size r₀ events₀ given₀ run)
run-Accounts queue_size r events given (sink_closed r₀ r₁ events₀ given₀ run e) =
    closing-Accounts r₀ events₀ given₀ (run-Accounts queue_size r₀ events₀ given₀ run) r₁ e
run-Accounts queue_size r events given (worked r₀ r₁ events₀ given₀ answer run e) =
    worked-Accounts r₀ r₁ answer events₀ given₀ e (run-Accounts queue_size r₀ events₀ given₀ run)
