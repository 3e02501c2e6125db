-- ===== src/Tests/Clocks.antt =====
-- Processes that share a clock.
use libproc.Prelude.{ℕ, ◌≡◌, refl, ◌⊎◌, true, false, some, [], ◌∷◌}
use libproc.Prelude.Int.{pos}
use libproc.Timeval.{Timeval}
use libproc.GlobalTimer.{
  running, at_barrier, gone, Process, SharedState, new_state, moves, waits, faults, modify,
  live_count, smallest_of, enter_block, Action, joins, blocks, goes_on, pauses, leaves, step, Reach,
  here, later,
}
use libproc.GlobalTimer.Exclusion.{mutual_exclusion}
use libproc.GlobalTimer.Deadlock.{perform, two_processes_deadlock}
use libproc.GlobalTimer.Jumps.{AllOrdinary, blocks_to_own_time}
use libproc.GlobalTimer.Unlinked.{removed_while_waiting}
use libproc.GlobalTimer.Theft.{thief_returns}

abbrev at : ℕ → Timeval
at n = record { tv_sec = pos n; tv_usec = pos 0 }

-- A process that has just joined.
abbrev joined : ℕ → Timeval → Process
joined pid now = record {
  next_time = now;
  active = true;
  holds_mutex = true;
  thief = false;
  pid = pid;
  place = running;
  paused = 0;
  time = at 0;
}

abbrev one : SharedState
one = record {
  evt_mutex = 0;
  barrier = 0;
  curr_time = at 3;
  time_thief = 0;
  linked = true;
  procs = joined 10 (at 3) ∷ [];
}

one-Reach : Reach (new_state (at 3)) one
unfolding step
one-Reach = later (joins 10 0) here refl

mutual_exclusion_example : (◌≡◌ {A = ℕ} 0 0) × (one.evt_mutex ≡ 0)
mutual_exclusion_example =
    mutual_exclusion (at 3) one 0 0 (joined 10 (at 3)) (joined 10 (at 3)) one-Reach refl refl refl
      refl

two_processes_deadlock_example :
    (s : SharedState) × (p : Process) × (q : Process) × (perform (new_state (at 3)) (
        joins 10 0
        ∷ blocks 0 (some (at 7)) false
        ∷ joins 11 0
        ∷ blocks 1 (some (at 5)) false
        ∷ goes_on 0
        ∷ goes_on 0
        ∷ goes_on 0
        ∷ goes_on 0
        ∷ [])
      ≡ moves s)
    × (s.procs ≡ p ∷ q ∷ [])
    × (p.place ≡ at_barrier (at 7))
    × (q.place ≡ at_barrier (at 5))
    × (s.curr_time ≡ at 5)
    × (s.evt_mutex ≡ 1)
    × (s.barrier ≡ 0)
    × ((act : Action) → ((pid : ℕ) × (mode : ℕ) × (act ≡ joins pid mode)) ⊎ (step s act ≡ waits))
two_processes_deadlock_example = two_processes_deadlock (at 3) (at 7) (at 5) 9 10 refl

abbrev thief : SharedState
thief = record one { time_thief = 10; procs = record (joined 10 (at 3)) { paused = 2 } ∷ [] }

thief_returns_example :
    (t : SharedState) × (u : SharedState) × (v : SharedState) × (step thief
        (blocks 0 (some (at 4)) false)
      ≡ moves t)
    × (step t (goes_on 0) ≡ moves u)
    × (step u (blocks 0 (some (at 5)) false) ≡ faults)
    × (step u (pauses 0 0) ≡ moves u)
    × (step u (leaves 0) ≡ moves v)
    × (v.evt_mutex ≡ 0)
thief_returns_example =
    thief_returns thief 0 9 (record (joined 10 (at 3)) { paused = 2 }) (at 4) refl (at 5) 0

-- The second process blocks until 4, though the first one waits for 20.
abbrev both : SharedState
both = record {
  evt_mutex = 0;
  barrier = 1;
  curr_time = at 20;
  time_thief = 0;
  linked = true;
  procs =
      record (joined 10 (at 3)) {
        next_time = at 20;
        active = false;
        holds_mutex = false;
        place = at_barrier (at 20);
      }
      ∷ joined 11 (at 20)
      ∷ [];
}

abbrev both-Reach : Reach (new_state (at 3)) both
unfolding step enter_block smallest_of modify live_count
both-Reach =
    later (joins 11 0) (later (blocks 0 (some (at 20)) false) (later (joins 10 0) here refl) refl)
      refl

blocks_to_own_time_example :
    (t : SharedState) × (step both (blocks 1 (some (at 4)) false) ≡ moves t)
    × (t.curr_time ≡ at 4)
    × (t.evt_mutex ≡ 1)
unfolding AllOrdinary step enter_block smallest_of modify live_count
blocks_to_own_time_example =
    blocks_to_own_time (at 3) (at 4) both 1 (joined 11 (at 20)) both-Reach (((tt, refl), tt), refl)
      refl refl refl

removed_while_waiting_example :
    (s : SharedState) × (p : Process) × (q : Process) × (t : SharedState) × (r : Process) × (perform
        (new_state (at 3))
        (joins 10 0
          ∷ blocks 0 (some (at 7)) false
          ∷ joins 11 0
          ∷ leaves 1
          ∷ goes_on 0
          ∷ goes_on 0
          ∷ [])
      ≡ moves s)
    × (s.linked ≡ false)
    × (s.procs ≡ p ∷ q ∷ [])
    × (p.place ≡ running)
    × (q.place ≡ gone)
    × (step (new_state (at 8)) (joins 12 0) ≡ moves t)
    × (t.procs ≡ r ∷ [])
    × (r.place ≡ running)
removed_while_waiting_example = removed_while_waiting (at 3) (at 7) 9 10 (at 8) 12 0
