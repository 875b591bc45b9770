-- ===== src/Audit/Recorder/Runs.antt =====
-- The runs of an asynchronous recorder: any order of its steps.
use kube_ssh.Base.{
  ℕ, suc, ◌≡◌, List, [], ◌∷◌, ◌++◌, Option, some, Error, length, ltb, not, ◌&&◌, if◌then◌else◌, ℤ,
}
use kube_ssh.Text.{Str}
use kube_ssh.Audit.Event.{Event, prepare}
use kube_ssh.Audit.Recorder.{
  AsyncRecorder, new_async_recorder, record_event, close_queue, close_sink, run_step,
}

-- The events that a call of Record adds to the queue.
unfoldable pub accepted : AsyncRecorder → Event → List Event
accepted r event = if not r.closed && ltb (length r.queue) r.capacity then event ∷ [] else []

-- A recorder, the events that it accepted, in order, and how many it was given before it was closed.
pub data Run (queue_size : ℤ) : AsyncRecorder → List Event → ℕ → Type 0 where
  start : Run queue_size (new_async_recorder queue_size) [] 0
  recorded :
      (r : AsyncRecorder) (events : List Event) (given now : ℕ) (new_id : Str) (event : Event)
      → Run queue_size r events given
      → Run queue_size
          (record_event now new_id event r)
          (events ++ accepted r (prepare now new_id event))
          (if r.closed then given else suc given)
  queue_closed :
      (r : AsyncRecorder) (events : List Event) (given : ℕ)
      → Run queue_size r events given
      → Run queue_size (close_queue r) events given
  sink_closed :
      (r r' : AsyncRecorder) (events : List Event) (given : ℕ)
      → Run queue_size r events given
      → close_sink r ≡ some r'
      → Run queue_size r' events given
  worked :
      (r r' : AsyncRecorder) (events : List Event) (given : ℕ) (answer : Option Error)
      → Run queue_size r events given
      → run_step answer r ≡ some r'
      → Run queue_size r' events given
