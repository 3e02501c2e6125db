-- ===== src/Sched/Process.antt =====
-- events.c: evt_process_timed_event.
pub mod Laws
use libproc.Prelude.{
  ℕ, ◌+◌, ◌%◌, ◌^◌, Bool, true, false, not, ◌&&◌, ◌||◌, Option, none, some, if◌then◌else◌,
}
use libproc.Prelude.Int.{pos, ◌-ℤ◌, leb_ℤ}
use libproc.Timeval.{Timeval, timeradd}
use libproc.Sched.Memory.{ScheduleCb, idle, running, load}
use libproc.Sched.QueueApi.{PQueue}
use libproc.Sched.{Sched, is_running, put, reinsert, drop_critical, release}

module _ {pq : PQueue} where
  -- edbg_breakpoint, without its report to the debugger's clients.
  unfoldable pub edbg_breakpoint : Sched pq → Sched pq
  edbg_breakpoint s = record s { stopped = true; break_on_next = false }

  unfoldable pub started : Sched pq → ℕ → ScheduleCb → Sched pq
  started s p e =
      record (put s p (record e { count = (e.count + 1) % 2 ^ 32; in_callback = running })) {
        timed_event_counter = (s.timed_event_counter + 1) % 2 ^ 64;
      }

  unfoldable pub keep_event : Sched pq → ℕ → ScheduleCb → Timeval → Sched pq
  unfolding reinsert
  keep_event s p e cur =
      if is_running e.in_callback
      then reinsert s p (record e {
        schedule_time = cur;
        next_awake = timeradd e.next_awake e.time_step;
        in_callback = idle;
      })
      else reinsert s p (record e { in_callback = idle })

  -- After the callback: whether it returned EVENT_KEEP decides.
  unfoldable pub finished : Sched pq → ℕ → Timeval → Bool → Option ScheduleCb → Option (Sched pq)
  unfolding keep_event drop_critical release
  finished s p cur keep none = none
  finished s p cur true (some e) = some (keep_event s p e cur)
  finished s p cur false (some e) = some (release (drop_critical s e) p)

  unfoldable pub call_back :
      Sched pq
      → ℕ
      → Timeval
      → (Sched pq → Option (Sched pq × Bool))
      → ScheduleCb
      → Option (Sched pq × Bool)
  call_back s p cur callback e = elim (callback (started s p e)) [
    | none ↦ none
    | some (s', keep) ↦ elim (finished s' p cur keep (load p s'.heap)) [
      | none ↦ none
      | some s'' ↦ some (s'', true)
    ]
  ]

  unfoldable pub process_loaded :
      Sched pq
      → ℕ
      → Timeval
      → Bool
      → (Sched pq → Option (Sched pq × Bool))
      → Option ScheduleCb
      → Option (Sched pq × Bool)
  unfolding call_back edbg_breakpoint
  process_loaded s p cur stepping callback none = none
  process_loaded s p cur stepping callback (some e) =
      let steps = s.steps_to_break -ℤ pos 1 in
      if not stepping && (s.break_on_next || e.breakpoint)
      then if leb_ℤ steps (pos 0)
        then some (
          edbg_breakpoint (record s { steps_to_break = steps; next_timed_event = some p }),
          false,
        )
        else call_back (record s { steps_to_break = steps }) p cur callback e
      else call_back s p cur callback e

  -- evt_process_timed_event. The callback is what it does to the state, with whether it returned
  -- EVENT_KEEP.
  unfoldable pub process_timed_event :
      Sched pq
      → ℕ
      → Timeval
      → Bool
      → (Sched pq → Option (Sched pq × Bool))
      → Option (Sched pq × Bool)
  unfolding process_loaded
  process_timed_event s p cur stepping callback =
      process_loaded s p cur stepping callback (load p s.heap)
