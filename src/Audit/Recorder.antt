-- ===== src/Audit/Recorder.antt =====
-- AsyncRecorder of pkg/audit/async.go. Record and the parts of Close that take the lock or run once are
-- one step each, and so are the receiving and the writing of the worker; any order of them may occur.
pub mod Runs
pub mod Accounted
pub mod Drained
use kube_ssh.Base.{
  ℕ, zero, suc, Bool, true, false, List, [], ◌∷◌, ◌++◌, Option, none, some, Error, Result, ok, err,
  length, ltb, if◌then◌else◌, ℤ, pos, negsuc,
}
use kube_ssh.Text.{Str}
use kube_ssh.Audit.Event.{Event, prepare}

-- ResultWritten, ResultDropped and ResultSinkError
pub data AuditResult : Type 0 where
  written dropped sink_error : AuditResult

-- `sent` are the events that sink.Write was called with, `observed` the results that the observer was
-- told, both in order; `in_hand` is the event of the loop's round. `sink_closed` counts the calls of
-- sink.Close.
pub record AsyncRecorder : Type 0 where
  pub capacity : ℕ
  pub queue : List Event
  pub closed : Bool
  pub in_hand : Option Event
  pub done : Bool
  pub sent : List Event
  pub observed : List AuditResult
  pub sink_closing : Bool
  pub sink_closed : ℕ

abbrev pub default_queue_size : ℕ
default_queue_size = 4096

queue_capacity : ℤ → ℕ
queue_capacity (pos zero) = default_queue_size
queue_capacity (pos (suc n)) = suc n
queue_capacity (negsuc n) = default_queue_size

unfoldable pub new_async_recorder : ℤ → AsyncRecorder
unfolding queue_capacity
new_async_recorder queue_size = record {
  capacity = queue_capacity queue_size;
  queue = [];
  closed = false;
  in_hand = none;
  done = false;
  sent = [];
  observed = [];
  sink_closing = false;
  sink_closed = 0;
}

unfoldable pub observe : AuditResult → AsyncRecorder → AsyncRecorder
observe result r = record r { observed = r.observed ++ (result ∷ []) }

-- A send to the channel that gives up where the buffer is full.
enqueue : Event → AsyncRecorder → AsyncRecorder
unfolding observe
enqueue event r =
    if ltb (length r.queue) r.capacity
    then record r { queue = r.queue ++ (event ∷ []) }
    else observe dropped r

-- Record: once closed, the recorder stays so, and both tests of it are the second one.
unfoldable pub record_event : ℕ → Str → Event → AsyncRecorder → AsyncRecorder
unfolding enqueue prepare
record_event now new_id event r = if r.closed then r else enqueue (prepare now new_id event) r

-- The first part of Close, which runs once: closing again would be the same.
unfoldable pub close_queue : AsyncRecorder → AsyncRecorder
close_queue r = record r { closed = true }

-- Where `done` is closed, Close closes the sink, once; it waits before that.
unfoldable pub close_sink : AsyncRecorder → Option AsyncRecorder
close_sink r =
    if r.done
    then some (
        if r.sink_closing
        then r
        else record r { sink_closing = true; sink_closed = suc r.sink_closed })
    else none

result_of : Option Error → AuditResult
result_of none = written
result_of (some _) = sink_error

receive : List Event → AsyncRecorder → Option AsyncRecorder
receive [] r = if r.closed then some (record r { done = true }) else none
receive (event ∷ rest) r = some (record r { queue = rest; in_hand = some event })

act : Option Event → Option Error → AsyncRecorder → Option AsyncRecorder
unfolding receive observe result_of
act none answer r = receive r.queue r
act (some event) answer r =
    some (observe (result_of answer) (record r { sent = r.sent ++ (event ∷ []); in_hand = none }))

-- A step of the worker, with what sink.Write answers where it is called; `none` where it waits for an
-- event or has ended.
unfoldable pub run_step : Option Error → AsyncRecorder → Option AsyncRecorder
unfolding act
run_step answer r = if r.done then none else act r.in_hand answer r
