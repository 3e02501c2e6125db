-- ===== src/Sched/Loop.antt =====
-- events.c: how the handler starts, and how the event loop takes the events that are due.
pub mod Take
pub mod Runs
use libproc.Prelude.{ℕ, Bool, true, false, Option, none, some, List, [], ◌∷◌, if◌then◌else◌}
use libproc.Prelude.Int.{pos}
use libproc.Timeval.{Timeval, timercmp, zero_time, gt}
use libproc.Sched.Memory.{ScheduleCb, QueueName, main_queue, idle, load}
use libproc.Sched.QueueApi.{PQueue}
use libproc.Sched.Process.{process_timed_event}
use libproc.Sched.{Sched, null_evt, get_pri, queue_of, set_queue, put}

-- `memset(&res->null_evt, 0, ...)`, which also makes its queue NULL. No queue is asked about it.
abbrev pub null_event : ScheduleCb
null_event = record {
  schedule_time = zero_time;
  next_awake = zero_time;
  callback = 0;
  arg = 0;
  pos_max = false;
  time_step = zero_time;
  queue = main_queue;
  count = 0;
  breakpoint = false;
  critical = false;
  in_callback = idle;
}

-- Where the loop over the events that are due ended: at one that is not due, at a breakpoint, or at the
-- end of the readings of the clock that are looked at.
pub data Outcome : Type 0 where
  quiet held unfinished : Outcome

module _ {pq : PQueue} where
  -- EVT_initWithSize, for the state of the timed events.
  unfoldable pub sched_init : Sched pq
  sched_init = record {
    heap = (null_evt, null_event) ∷ [];
    fresh = 1;
    queue = pq.init;
    dbg = pq.init;
    critical_sched_count = pos 0;
    next_timed_event = none;
    timed_event_counter = 0;
    break_on_next = false;
    steps_to_break = pos 0;
    stopped = false;
  }

  unfoldable pub take_loaded :
      Sched pq → QueueName → Timeval → ℕ → Option ScheduleCb → Option (Sched pq × Option ℕ)
  take_loaded s name cur p none = none
  take_loaded s name cur p (some e) =
      if timercmp e.next_awake cur gt
      then some (s, none)
      else some (
        put (set_queue s name (pq.pop (get_pri s.heap) (queue_of s name))) p
            (record e { pos_max = true }),
        some p,
      )

  unfoldable pub take_front :
      Sched pq → QueueName → Timeval → Option ℕ → Option (Sched pq × Option ℕ)
  unfolding take_loaded
  take_front s name cur none = some (s, none)
  take_front s name cur (some p) = take_loaded s name cur p (load p s.heap)

  -- The head of a loop over timed events: the front of the queue, popped if it is due.
  unfoldable pub take : Sched pq → QueueName → Timeval → Option (Sched pq × Option ℕ)
  unfolding take_front
  take s name cur = take_front s name cur (pq.peek (queue_of s name))

  -- `while (... (curProc = ps_pqueue_peek(ctx->queue)))`, where the time is not paused. `callbacks` is
  -- what the callback of each event does; each round reads the clock once.
  unfoldable pub timed_events :
      (ℕ → Sched pq → Option (Sched pq × Bool))
      → List Timeval
      → Sched pq
      → Option (Sched pq × Outcome)
  timed_events callbacks [] s = some (s, unfinished)
  timed_events callbacks (cur ∷ readings) s = elim (take s main_queue cur) [
    | none ↦ none
    | some (s₁, none) ↦ some (s₁, quiet)
    | some (s₁, some p) ↦ elim (process_timed_event s₁ p cur false (callbacks p)) [
      | none ↦ none
      | some (s₂, true) ↦ timed_events callbacks readings s₂
      | some (s₂, false) ↦ some (s₂, held)
    ]
  ]
