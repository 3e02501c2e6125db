-- ===== src/Sched/Change.antt =====
-- events.c: new times for an event that is there, and the move to the debugger's queue.
use libproc.Prelude.{ℕ, true, false, Option, none, some, if◌then◌else◌}
use libproc.Timeval.{Timeval, timeradd, timersub, timercmp, le}
use libproc.Sched.Memory.{ScheduleCb, dbg_queue, updated, load}
use libproc.Sched.QueueApi.{PQueue}
use libproc.Sched.{
  Sched, get_pri, is_idle, is_main, queue_of, set_queue, put, reinsert, drop_critical,
}

module _ {pq : PQueue} where
  -- The end of EVT_sched_update and of EVT_sched_update_partial_credit: `e` holds the new time, which
  -- is written before the queue is asked to change the priority.
  unfoldable pub requeue : Sched pq → ℕ → ScheduleCb → Option (Sched pq)
  requeue s p e =
      let s' = put s p e in
      if is_idle e.in_callback
      then if e.pos_max
        then none
        else some (
            set_queue s' e.queue
              (pq.change_priority (get_pri s'.heap) (queue_of s' e.queue) e.next_awake p))
      else some (put s p (record e { in_callback = updated }))

  -- EVT_sched_remaining
  unfoldable pub sched_remaining : Sched pq → Timeval → ℕ → Option Timeval
  unfolding timersub
  sched_remaining s now p = elim (load p s.heap) [
    | none ↦ none
    | some e ↦ some (timersub e.next_awake now)
  ]

  unfoldable pub update_loaded :
      Sched pq → Timeval → Timeval → ℕ → Timeval → Option ScheduleCb → Option (Sched pq)
  unfolding requeue
  update_loaded s now mono p time none = none
  update_loaded s now mono p time (some e) =
      let start = if is_main e.queue then now else mono in
      requeue s p
        (record e { schedule_time = start; next_awake = timeradd start time; time_step = time })

  -- EVT_sched_update, where the pointer is not NULL; it returns 0.
  unfoldable pub sched_update : Sched pq → Timeval → Timeval → ℕ → Timeval → Option (Sched pq)
  unfolding update_loaded
  sched_update s now mono p time = update_loaded s now mono p time (load p s.heap)

  unfoldable pub credit_loaded :
      Sched pq → Timeval → Timeval → ℕ → Timeval → Option ScheduleCb → Option (Sched pq)
  unfolding requeue
  credit_loaded s now mono p time none = none
  credit_loaded s now mono p time (some e) =
      let next = timeradd e.schedule_time time in
      let cur = if is_main e.queue then now else mono in
      requeue s p
        (record e { next_awake = if timercmp next cur le then cur else next; time_step = time })

  -- EVT_sched_update_partial_credit, where the pointer is not NULL; it returns 0.
  unfoldable pub sched_update_partial_credit :
      Sched pq → Timeval → Timeval → ℕ → Timeval → Option (Sched pq)
  unfolding credit_loaded
  sched_update_partial_credit s now mono p time = credit_loaded s now mono p time (load p s.heap)

  -- EVT_sched_make_breakpoint
  unfoldable pub sched_make_breakpoint : Sched pq → ℕ → Option (Sched pq)
  sched_make_breakpoint s p = elim (load p s.heap) [
    | none ↦ none
    | some e ↦ some (put s p (record e { breakpoint = true }))
  ]

  unfoldable pub move_loaded : Sched pq → Timeval → ℕ → Option ScheduleCb → Option (Sched pq)
  unfolding reinsert drop_critical
  move_loaded s mono p none = none
  move_loaded s mono p (some e) =
      if e.pos_max
      then none
      else let s₁ = set_queue s e.queue (pq.remove (get_pri s.heap) (queue_of s e.queue) p) in
        some (
          drop_critical
            (reinsert s₁ p (record e {
              schedule_time = mono;
              next_awake = timeradd mono e.time_step;
              queue = dbg_queue;
              critical = false;
            }))
            e)

  -- EVT_sched_move_to_mono, where the pointer is not NULL. The flag `critical` is cleared with the
  -- times, before the insertion, which does not read it.
  unfoldable pub sched_move_to_mono : Sched pq → Timeval → ℕ → Option (Sched pq)
  unfolding move_loaded
  sched_move_to_mono s mono p = move_loaded s mono p (load p s.heap)
