-- ===== src/Tests/Events.antt =====
-- Two timed events on a list queue, at 10 seconds: event 1 is due at 15, event 2 at 19.
use libproc.Prelude.{
  ℕ, ◌+◌, ◌%◌, ◌^◌, ◌<◌, ◌≡◌, ◌≢◌, ◌==◌, refl, Bool, true, false, ◌||◌, ◌&&◌, Option, none, some,
  [], ◌∷◌, if◌then◌else◌, arith, ◌⊎◌,
}
use libproc.Prelude.Int.{pos, ◌+ℤ◌}
use mathlib.Core.Path.{subst}
use native.Mathlib.Decide.{ℕ_discrete}
use libproc.Timeval.{Timeval, timeradd, timercmp, gt, le}
use libproc.Sched.Memory.{dbg_queue, ScheduleCb, main_queue, running, load, store}
use libproc.Sched.QueueApi.{HasNoTie, cmp_pri}
use libproc.Sched.Invariant.{IsSched, sched_add_with_timestep-IsSched}
use libproc.Sched.Remove.{sched_remove_lem}
use libproc.Sched.Update.{sched_update_lem}
use libproc.Sched.Change.{sched_move_to_mono, sched_update}
use libproc.Sched.Move.{sched_move_to_mono_lem}
use libproc.Sched.Order.{sched_add_with_timestep-IsOrdered}
use libproc.Sched.Process.{process_timed_event, started}
use libproc.Sched.Process.Laws.{
  process_timed_event_keep, started-IsSched, process_timed_event_remove, kept,
}
use libproc.Sched.Loop.{sched_init, take, timed_events, Outcome}
use libproc.Sched.Loop.Take.{sched_init-IsSched, take_due, taken, taken-IsSched, taken-load}
use libproc.Sched.Loop.Runs.{timed_events-IsSched, Behave}
use libproc.Sched.{
  Sched, null_evt, get_pri, new_event, sched_add_with_timestep, added, sched_remove,
}
use libproc.Tests.ListQueue.{
  list_queue, list_queue-IsPQueue, list_queue-IsOrdering, count, peek, promote, Ordered,
}

abbrev at : ℕ → Timeval
at n = record { tv_sec = pos n; tv_usec = pos 0 }

abbrev first : ScheduleCb
first = new_event (at 10) (at 5) (at 5) 100 7

abbrev one : Sched list_queue
one = (sched_add_with_timestep sched_init (at 10) (at 5) (at 5) 100 7 true).0

abbrev two : Sched list_queue
two = (sched_add_with_timestep one (at 10) (at 9) (at 9) 200 8 true).0

program : Unit {0}
unfolding sched_init sched_add_with_timestep added new_event promote load store timeradd ◌+ℤ◌ count
    peek Ordered
program = tt

one-IsSched : IsSched one
one-IsSched =
    sched_add_with_timestep-IsSched list_queue-IsPQueue sched_init (at 10) (at 5) (at 5) 100 7 true
      (sched_init-IsSched list_queue-IsPQueue)

two-IsSched : IsSched two
two-IsSched =
    sched_add_with_timestep-IsSched list_queue-IsPQueue one (at 10) (at 9) (at 9) 200 8 true
      one-IsSched

sched_add_with_timestep-IsSched_example :
    IsSched (sched_add_with_timestep two (at 11) (at 1) (at 2) 300 9 true).0
sched_add_with_timestep-IsSched_example =
    sched_add_with_timestep-IsSched list_queue-IsPQueue two (at 11) (at 1) (at 2) 300 9 true
      two-IsSched

at_first : load 1 two.heap ≡ some first
unfolding program
at_first = refl

not_null : 1 ≢ null_evt
not_null e = omega arith

two-IsOrdered : Ordered (get_pri two.heap) two.queue
unfolding sched_init
two-IsOrdered =
    sched_add_with_timestep-IsOrdered list_queue-IsPQueue list_queue-IsOrdering one (at 10) (at 9)
      (at 9) 200 8 true one-IsSched
      (sched_add_with_timestep-IsOrdered list_queue-IsPQueue list_queue-IsOrdering sched_init
        (at 10) (at 5) (at 5) 100 7 true (sched_init-IsSched list_queue-IsPQueue)
        (list_queue-IsOrdering.ordered-init (get_pri (sched_init {pq = list_queue}).heap)))

dbg-IsOrdered : Ordered (get_pri two.heap) two.dbg
unfolding program
dbg-IsOrdered = tt

two_absent : (z : ℕ) → z ≢ 1 → 2 ≢ z → list_queue.count z two.queue ≡ 0
unfolding program
two_absent z h k = ground arith

-- Event 2 has another time, and the debugger's queue is empty.
two_alone : HasNoTie list_queue (get_pri two.heap) two.queue 1
unfolding program
two_alone z c other = elim (ℕ_discrete 2 z) [
  | yes e ↦
      subst
        (λ x.
          (cmp_pri (get_pri two.heap x) (get_pri two.heap 1)
            && cmp_pri (get_pri two.heap 1) (get_pri two.heap x))
          ≡ false)
        e refl
  | no ne ↦ absurd (omega (arith, two_absent z other ne))
]

dbg_alone : HasNoTie list_queue (get_pri two.heap) two.dbg 1
unfolding program
dbg_alone z c other = absurd (omega arith)

sched_remove_lem_example :
    (r : Sched list_queue) × (sched_remove two (some 1) ≡ some (r, some 7))
    × IsSched r
    × ((q : ℕ) → load q r.heap ≡ (if 1 == q then none else load q two.heap))
    × (list_queue.count 1 r.queue ≡ 0)
    × (list_queue.count 1 r.dbg ≡ 0)
    × (r.next_timed_event ≢ some 1)
unfolding new_event
sched_remove_lem_example =
    sched_remove_lem list_queue-IsPQueue two-IsSched 1 first at_first not_null two-IsOrdered
      two_alone dbg-IsOrdered dbg_alone refl

sched_update_lem_example :
    (r : Sched list_queue) × (f : ScheduleCb) × (sched_update two (at 12) (at 99) 1 (at 3) ≡ some r)
    × IsSched r
    × (load 1 r.heap ≡ some f)
    × (f.schedule_time ≡ at 12)
    × (f.next_awake ≡ timeradd (at 12) (at 3))
    × (f.time_step ≡ at 3)
unfolding new_event
sched_update_lem_example =
    sched_update_lem two-IsSched 1 first at_first list_queue-IsPQueue (at 12) (at 99) (at 3)
      not_null refl

front : list_queue.peek two.queue ≡ some 1
unfolding program
front = refl

waits : 0 < list_queue.count 2 two.queue
unfolding program
waits = omega arith

take_due_example :
    ((take two main_queue (at 16) ≡ some (two, none))
      × (timercmp (get_pri two.heap 2) (at 16) gt ≡ true))
    ⊎ ((r : Sched list_queue) × (p : ℕ) × (e : ScheduleCb) × (take two main_queue (at 16)
          ≡ some (r, some p))
        × IsSched r
        × (load p two.heap ≡ some e)
        × (load p r.heap ≡ some (record e { pos_max = true }))
        × (timercmp e.next_awake (at 16) gt ≡ false)
        × (timercmp e.next_awake (get_pri two.heap 2) le ≡ true))
take_due_example =
    take_due list_queue-IsPQueue two-IsSched (at 16) list_queue-IsOrdering two-IsOrdered 2 waits

-- Callbacks that change nothing and keep their event.
abbrev keep_all : ℕ → Sched list_queue → Option (Sched list_queue × Bool)
keep_all p s = some (s, true)

keep_all-Behave : Behave keep_all
keep_all-Behave p s e v l o = (v, e, l, o)

timed_events-IsSched_example :
    (r : Sched list_queue) × (o : Outcome) × (timed_events keep_all (at 16 ∷ at 17 ∷ []) two
      ≡ some (r, o))
    × IsSched r
timed_events-IsSched_example =
    timed_events-IsSched list_queue-IsPQueue keep_all keep_all-Behave (at 16 ∷ at 17 ∷ [])
      two-IsSched

-- Event 1 once the loop has taken it.
abbrev due : Sched list_queue
due = taken list_queue-IsPQueue two-IsSched 1 first at_first front

abbrev out : ScheduleCb
out = record first { pos_max = true }

due-IsSched : IsSched due
due-IsSched = taken-IsSched list_queue-IsPQueue two-IsSched 1 first at_first front

at_due : load 1 due.heap ≡ some out
at_due = taken-load list_queue-IsPQueue two-IsSched 1 first at_first front

abbrev busy : Sched list_queue
busy = started due 1 out

abbrev runs : ScheduleCb
runs = record out { count = (out.count + 1) % 2 ^ 32; in_callback = running }

busy-IsSched : IsSched busy
busy-IsSched = started-IsSched list_queue-IsPQueue due-IsSched 1 out at_due refl not_null

at_busy : load 1 busy.heap ≡ some runs
unfolding program started taken
at_busy = refl

going : (due.break_on_next || out.breakpoint) ≡ false
unfolding program taken
going = refl

process_timed_event_keep_example :
    (r : Sched list_queue) × (b : Bool) × (process_timed_event due 1 (at 16) false (keep_all 1)
      ≡ some (r, true))
    × IsSched r
    × (load 1 r.heap ≡ some (record (kept runs (at 16)) { pos_max = b }))
process_timed_event_keep_example =
    process_timed_event_keep list_queue-IsPQueue due-IsSched 1 out at_due refl not_null (at 16)
      false (keep_all 1) going runs busy-IsSched at_busy refl refl

process_timed_event_remove_example :
    (r : Sched list_queue) × (process_timed_event due 1 (at 16) true (λ s. some (s, false))
      ≡ some (r, true))
    × IsSched r
    × ((q : ℕ) → load q r.heap ≡ (if 1 == q then none else load q busy.heap))
process_timed_event_remove_example =
    process_timed_event_remove list_queue-IsPQueue due-IsSched 1 out at_due refl not_null (at 16)
      true (λ s. some (s, false)) refl runs busy-IsSched at_busy refl refl

sched_move_to_mono_lem_example :
    (r : Sched list_queue) × (sched_move_to_mono two (at 50) 1 ≡ some r)
    × IsSched r
    × (load 1 r.heap
        ≡ some (record first {
          schedule_time = at 50;
          next_awake = timeradd (at 50) first.time_step;
          queue = dbg_queue;
          critical = false;
          pos_max = false;
        }))
    × (list_queue.count 1 r.queue ≡ 0)
    × (list_queue.count 1 r.dbg ≡ 1)
unfolding new_event
sched_move_to_mono_lem_example =
    sched_move_to_mono_lem list_queue-IsPQueue two-IsSched 1 first at_first not_null two-IsOrdered
      two_alone dbg-IsOrdered dbg_alone refl (at 50) (λ pri q e. cc)
