-- ===== src/GlobalTimer/Deadlock.antt =====
-- globalTimer.c: a process that goes through the barrier twice leaves the other one behind.
use libproc.Prelude.{
  ℕ, zero, suc, ◌≡◌, refl, inl, inr, ◌⊎◌, Bool, true, false, ltb, some, List, [], ◌∷◌, arith,
  if◌then◌else◌,
}
use libproc.Prelude.Int.{eq_ℤ}
use libproc.Timeval.{Timeval, zero_time, timercmp, lt, gt}
use libproc.GlobalTimer.{
  Place, running, at_barrier, at_mutex, Process, SharedState, new_state, enter_block, smallest_of,
  modify, live_count, moves, waits, Action, joins, blocks, goes_on, pauses, leaves, step, Result,
  faults,
}

pub timercmp_eq_refl : (t : Timeval) → timercmp t t eq_ℤ ≡ true
timercmp_eq_refl t = ground arith

timercmp_swap : (t u : Timeval) → timercmp t u lt ≡ true → timercmp u t gt ≡ true
timercmp_swap t u h = ground arith

-- The state after some actions, one after the other.
unfoldable pub perform : SharedState → List Action → Result
perform s [] = moves s
perform s (a ∷ actions) = elim (step s a) [
  | moves t ↦ perform t actions
  | waits ↦ waits
  | faults ↦ faults
]

pub performs :
    (s t u : SharedState) (a : Action) (actions : List Action)
    → step s a ≡ moves t
    → perform t actions ≡ moves u
    → perform s (a ∷ actions) ≡ moves u
unfolding perform
performs s t u a actions h k = rw (h, perform) k

pub performs_none : (s : SharedState) → perform s [] ≡ moves s
unfolding perform
performs_none s = refl

pub positive : (n : ℕ) → ltb 0 (suc n) ≡ true
positive n = ground arith

module _ (now next wait : Timeval) (a b : ℕ) where
  -- The process that comes first, and the one that comes second.
  abbrev pub first_process : Bool → Place → Timeval → Process
  first_process runs place time = record {
    next_time = if runs then now else next;
    active = runs;
    holds_mutex = runs;
    thief = false;
    pid = suc a;
    place = place;
    paused = 0;
    time = time;
  }

  abbrev pub second_process : Bool → Place → Process
  second_process runs place = record {
    next_time = if runs then next else wait;
    active = runs;
    holds_mutex = runs;
    thief = false;
    pid = suc b;
    place = place;
    paused = 0;
    time = zero_time;
  }

  abbrev alone : SharedState
  alone = record {
    evt_mutex = 0;
    barrier = 0;
    curr_time = now;
    time_thief = 0;
    linked = true;
    procs = first_process true running zero_time ∷ [];
  }

  abbrev first_waits : SharedState
  first_waits = record {
    evt_mutex = 1;
    barrier = 1;
    curr_time = next;
    time_thief = 0;
    linked = true;
    procs = first_process false (at_barrier next) zero_time ∷ [];
  }

  abbrev pub second_runs : SharedState
  second_runs = record {
    evt_mutex = 0;
    barrier = 1;
    curr_time = next;
    time_thief = 0;
    linked = true;
    procs = first_process false (at_barrier next) zero_time ∷ second_process true running ∷ [];
  }

  abbrev both_wait : ℕ → Place → Timeval → SharedState
  both_wait barrier place time = record {
    evt_mutex = 1;
    barrier = barrier;
    curr_time = wait;
    time_thief = 0;
    linked = true;
    procs = first_process false place time ∷ second_process false (at_barrier wait) ∷ [];
  }

  pub first_joins : step (new_state now) (joins (suc a) 0) ≡ moves alone
  unfolding step
  first_joins = refl

  pub first_blocks : step alone (blocks 0 (some next) false) ≡ moves first_waits
  unfolding step enter_block smallest_of modify live_count
  first_blocks = rw (positive a) (rw (positive a) refl)

  pub second_joins : step first_waits (joins (suc b) 0) ≡ moves second_runs
  unfolding step
  second_joins = refl

  second_blocks :
      step second_runs (blocks 1 (some wait) false)
      ≡ moves (both_wait 2 (at_barrier next) zero_time)
  unfolding step enter_block smallest_of modify live_count
  second_blocks = rw (positive a, positive b) (rw (positive a, positive b) refl)

  passes_two :
      step (both_wait 2 (at_barrier next) zero_time) (goes_on 0)
      ≡ moves (both_wait 1 (at_mutex next) zero_time)
  unfolding step modify
  passes_two = refl

  passes_one :
      step (both_wait 1 (at_barrier next) wait) (goes_on 0)
      ≡ moves (both_wait 0 (at_mutex next) wait)
  unfolding step modify
  passes_one = refl

  all_wait :
      (act : Action)
      → ((pid : ℕ) × (mode : ℕ) × (act ≡ joins pid mode))
        ⊎ (step (both_wait 0 (at_barrier next) wait) act ≡ waits)
  unfolding step
  all_wait (joins pid mode) = inl (pid, mode, refl)
  all_wait (blocks zero n pause) = inr refl
  all_wait (blocks (suc zero) n pause) = inr refl
  all_wait (blocks (suc (suc i)) n pause) = inr refl
  all_wait (goes_on zero) = inr refl
  all_wait (goes_on (suc zero)) = inr refl
  all_wait (goes_on (suc (suc i))) = inr refl
  all_wait (pauses zero mode) = inr refl
  all_wait (pauses (suc zero) mode) = inr refl
  all_wait (pauses (suc (suc i)) mode) = inr refl
  all_wait (leaves zero) = inr refl
  all_wait (leaves (suc zero)) = inr refl
  all_wait (leaves (suc (suc i))) = inr refl

  module _ (earlier : timercmp wait next lt ≡ true) where
    turns_back :
        (barrier : ℕ) (time : Timeval)
        → step (both_wait barrier (at_mutex next) time) (goes_on 0)
          ≡ moves (both_wait barrier (at_barrier next) wait)
    unfolding step modify
    turns_back barrier time = rw (timercmp_eq_refl next, timercmp_swap wait next earlier) refl

    abbrev both_blocked : SharedState
    both_blocked = both_wait 0 (at_barrier next) wait

    four_more :
        perform
          (both_wait 2 (at_barrier next) zero_time)
          (goes_on 0 ∷ goes_on 0 ∷ goes_on 0 ∷ goes_on 0 ∷ [])
        ≡ moves both_blocked
    four_more = performs _ _ _ _ _ passes_two (
        performs _ _ _ _ _ (turns_back 1 zero_time) (
          performs _ _ _ _ _ passes_one (
            performs _ _ _ _ _ (turns_back 0 wait)
              (performs_none (both_wait 0 (at_barrier next) wait)))))

    eight_actions :
        perform (new_state now) (
          joins (suc a) 0
          ∷ blocks 0 (some next) false
          ∷ joins (suc b) 0
          ∷ blocks 1 (some wait) false
          ∷ goes_on 0
          ∷ goes_on 0
          ∷ goes_on 0
          ∷ goes_on 0
          ∷ [])
        ≡ moves both_blocked
    eight_actions = performs _ _ _ _ _ first_joins (
        performs _ _ _ _ _ first_blocks
          (performs _ _ _ _ _ second_joins (performs _ _ _ _ _ second_blocks four_more)))

    -- From a new shared file: a process joins and blocks until some time, and a second process
    -- joins and blocks until an earlier time. The first one can then go on four times, twice
    -- through the barrier and twice through the mutex behind it. Afterwards the global time is the
    -- second process's time and the mutex is free, but both processes wait at the barrier, whose
    -- count is 0, and no action is possible but that another process joins.
    pub two_processes_deadlock :
        (s : SharedState) × (p : Process) × (q : Process) × (perform (new_state now) (
            joins (suc a) 0
            ∷ blocks 0 (some next) false
            ∷ joins (suc b) 0
            ∷ blocks 1 (some wait) false
            ∷ goes_on 0
            ∷ goes_on 0
            ∷ goes_on 0
            ∷ goes_on 0
            ∷ [])
          ≡ moves s)
        × (s.procs ≡ p ∷ q ∷ [])
        × (p.place ≡ at_barrier next)
        × (q.place ≡ at_barrier wait)
        × (s.curr_time ≡ wait)
        × (s.evt_mutex ≡ 1)
        × (s.barrier ≡ 0)
        × ((act : Action)
            → ((pid : ℕ) × (mode : ℕ) × (act ≡ joins pid mode)) ⊎ (step s act ≡ waits))
    two_processes_deadlock = (
      both_wait 0 (at_barrier next) wait,
      first_process false (at_barrier next) wait,
      second_process false (at_barrier wait),
      eight_actions,
      refl,
      refl,
      refl,
      refl,
      refl,
      refl,
      all_wait,
    )
