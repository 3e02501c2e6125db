-- ===== src/Sched.antt =====
-- events.c: the timed events (ScheduleCB), their two queues and the functions on them.
-- `now` is the reading of the loop's event timer and `mono` that of CLOCK_MONOTONIC, where the code
-- takes one. A result `none` is a fault: a pointer that is not allocated, or a call of the queue on
-- an entry whose position is SIZE_MAX, which indexes its array out of bounds.
pub mod QueueApi
pub mod Memory
pub mod Change
pub mod Process
pub mod Invariant
pub mod Remove
pub mod Reinsert
pub mod Order
pub mod Update
pub mod Loop
pub mod Move
use libproc.Prelude.{
  ℕ, zero, suc, ◌+◌, ◌%◌, ◌^◌, ◌==◌, Bool, true, false, not, ◌&&◌, ◌||◌, Option, none, some, List,
  [], ◌∷◌, if◌then◌else◌,
}
use libproc.Prelude.Int.{ℤ, pos, ◌+ℤ◌, ◌-ℤ◌, leb_ℤ}
use libproc.Timeval.{Timeval, timeradd, timercmp, zero_time, gt, le}
use Memory.{
  Heap, ScheduleCb, QueueName, main_queue, dbg_queue, InCallback, idle, running, updated, load,
  store, free,
}
use QueueApi.{PQueue, Priorities}

-- The part of struct EventState that timed events use. The structure `null_evt` is the heap's entry
-- at `null_evt`.
pub record Sched (pq : PQueue) : Type 0 where
  pub heap : Heap
  pub fresh : ℕ
  pub queue : pq.Queue
  pub dbg : pq.Queue
  pub critical_sched_count : ℤ
  pub next_timed_event : Option ℕ
  pub timed_event_counter : ℕ
  pub break_on_next : Bool
  pub steps_to_break : ℤ
  pub stopped : Bool

abbrev pub null_evt : ℕ
null_evt = 0

abbrev pub awake : Option ScheduleCb → Timeval
awake none = zero_time
awake (some e) = e.next_awake

-- get_pri
abbrev pub get_pri : Heap → Priorities
get_pri h p = awake (load p h)

abbrev pub is_idle : InCallback → Bool
is_idle idle = true
is_idle running = false
is_idle updated = false

abbrev pub is_running : InCallback → Bool
is_running idle = false
is_running running = true
is_running updated = false

abbrev pub is_main : QueueName → Bool
is_main main_queue = true
is_main dbg_queue = false

unfoldable pub new_event : Timeval → Timeval → Timeval → ℕ → ℕ → ScheduleCb
new_event now time timestep cb arg = record {
  schedule_time = now;
  next_awake = timeradd now time;
  callback = cb;
  arg = arg;
  pos_max = false;
  time_step = timestep;
  queue = main_queue;
  count = 0;
  breakpoint = false;
  critical = true;
  in_callback = idle;
}

-- The counter, as EVT_sched_set_critical changes it with the event's flag.
unfoldable pub recount : Bool → Bool → ℤ → ℤ
recount was critical count =
    if was && not critical
    then count -ℤ pos 1
    else if not was && critical
    then count +ℤ pos 1
    else count

module _ {pq : PQueue} where
  abbrev pub queue_of : Sched pq → QueueName → pq.Queue
  queue_of s main_queue = s.queue
  queue_of s dbg_queue = s.dbg

  abbrev pub set_queue : Sched pq → QueueName → pq.Queue → Sched pq
  set_queue s main_queue q = record s { queue = q }
  set_queue s dbg_queue q = record s { dbg = q }

  abbrev pub put : Sched pq → ℕ → ScheduleCb → Sched pq
  put s p e = record s { heap = store p e s.heap }

  -- ps_pqueue_insert(evt->queue, evt), which stores the position through set_pos.
  unfoldable pub inserted : Sched pq → ℕ → ScheduleCb → Option pq.Queue → Sched pq
  inserted s p e none = s
  inserted s p e (some q) = put (set_queue s e.queue q) p (record e { pos_max = false })

  -- The result of the insertion is ignored.
  unfoldable pub reinsert : Sched pq → ℕ → ScheduleCb → Sched pq
  unfolding inserted
  reinsert s p e =
      let s' = put s p e in inserted s' p e (pq.insert (get_pri s'.heap) (queue_of s' e.queue) p)

  unfoldable pub added : Sched pq → ℕ → ScheduleCb → Option pq.Queue → Sched pq × Option ℕ
  added s p e none = (record s { fresh = suc s.fresh }, none)
  added s p e (some q) = (
    record s {
      heap = (p, e) ∷ s.heap;
      fresh = suc s.fresh;
      queue = q;
      critical_sched_count = s.critical_sched_count +ℤ pos 1;
    },
    some p,
  )

  -- EVT_sched_add_with_timestep; `none` is the pointer NULL.
  unfoldable pub sched_add_with_timestep :
      Sched pq → Timeval → Timeval → Timeval → ℕ → ℕ → Bool → Sched pq × Option ℕ
  unfolding added new_event
  sched_add_with_timestep s now time timestep cb arg false = (s, none)
  sched_add_with_timestep s now time timestep cb arg true =
      let e = new_event now time timestep cb arg in
      added s s.fresh e (pq.insert (get_pri ((s.fresh, e) ∷ s.heap)) s.queue s.fresh)

  -- EVT_sched_add: the time is the step too.
  unfoldable pub sched_add : Sched pq → Timeval → Timeval → ℕ → ℕ → Bool → Sched pq × Option ℕ
  unfolding sched_add_with_timestep
  sched_add s now time cb arg malloc_ok = sched_add_with_timestep s now time time cb arg malloc_ok

  unfoldable pub set_critical : Sched pq → ℕ → Bool → Option ScheduleCb → Option (Sched pq)
  unfolding recount
  set_critical s p critical none = none
  set_critical s p critical (some e) = some (record (put s p (record e { critical = critical })) {
    critical_sched_count = recount e.critical critical s.critical_sched_count;
  })

  -- EVT_sched_set_critical
  unfoldable pub sched_set_critical : Sched pq → Option ℕ → Bool → Option (Sched pq)
  unfolding set_critical
  sched_set_critical s none critical = some s
  sched_set_critical s (some p) critical = set_critical s p critical (load p s.heap)

  -- `if (evt->critical) handler->critical_sched_count--`
  unfoldable pub drop_critical : Sched pq → ScheduleCb → Sched pq
  drop_critical s e =
      if e.critical then record s { critical_sched_count = s.critical_sched_count -ℤ pos 1 } else s

  -- `if (handler->next_timed_event == evt) handler->next_timed_event = &handler->null_evt`
  unfoldable pub forget_next : Sched pq → ℕ → Sched pq
  forget_next s p = elim s.next_timed_event [
    | none ↦ s
    | some q ↦ if q == p then record s { next_timed_event = some null_evt } else s
  ]

  unfoldable pub release : Sched pq → ℕ → Sched pq
  release s p = if p == null_evt then s else record s { heap = free p s.heap }

  unfoldable pub unqueue : Sched pq → ℕ → ScheduleCb → Sched pq
  unqueue s p e =
      if e.pos_max
      then s
      else set_queue s e.queue (pq.remove (get_pri s.heap) (queue_of s e.queue) p)

  unfoldable pub remove_loaded : Sched pq → ℕ → Option ScheduleCb → Option (Sched pq × Option ℕ)
  unfolding drop_critical forget_next release unqueue
  remove_loaded s p none = none
  remove_loaded s p (some e) =
      if is_idle e.in_callback
      then some (release (unqueue (forget_next (drop_critical s e) p) p e) p, some e.arg)
      else some (s, none)

  -- EVT_sched_remove; it returns the event's argument.
  unfoldable pub sched_remove : Sched pq → Option ℕ → Option (Sched pq × Option ℕ)
  unfolding remove_loaded
  sched_remove s none = some (s, none)
  sched_remove s (some p) = remove_loaded s p (load p s.heap)
