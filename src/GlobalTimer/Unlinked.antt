-- ===== src/GlobalTimer/Unlinked.antt =====
-- globalTimer.c: a process that leaves removes the shared file of one that waits.
use libproc.Prelude.{ℕ, suc, ◌≡◌, refl, arith, true, false, some, [], ◌∷◌}
use libproc.Timeval.{Timeval, zero_time, timercmp, gt}
use libproc.GlobalTimer.{
  Place, running, at_barrier, at_mutex, gone, Process, SharedState, new_state, modify, leave,
  live_count, cleanup_shared_state, moves, joins, blocks, goes_on, leaves, step,
}
use libproc.GlobalTimer.Deadlock.{
  perform, performs, performs_none, positive, timercmp_eq_refl, first_joins, first_blocks,
  second_joins, second_runs, first_process, second_process,
}

not_after : (t : Timeval) → timercmp t t gt ≡ false
not_after t = ground arith

module _ (now next : Timeval) (a b : ℕ) where
  abbrev first_at : Place → Timeval → Process
  first_at place time = first_process now next next a b false place time

  abbrev one_left : ℕ → Process → ℕ → SharedState
  one_left barrier p evt_mutex = record {
    evt_mutex = evt_mutex;
    barrier = barrier;
    curr_time = next;
    time_thief = 0;
    procs = p ∷ leave (second_process now next next a b true running) ∷ [];
    linked = false;
  }

  -- The first process, once it has taken its turn.
  abbrev resumed : Process
  resumed = record (first_at running next) { active = true; holds_mutex = true }

  second_leaves :
      step (second_runs now next next a b) (leaves 1)
      ≡ moves (one_left 1 (first_at (at_barrier next) zero_time) 1)
  unfolding step cleanup_shared_state modify live_count
  second_leaves = rw (positive a) refl

  passes :
      step (one_left 1 (first_at (at_barrier next) zero_time) 1) (goes_on 0)
      ≡ moves (one_left 0 (first_at (at_mutex next) zero_time) 1)
  unfolding step modify
  passes = refl

  resumes :
      step (one_left 0 (first_at (at_mutex next) zero_time) 1) (goes_on 0)
      ≡ moves (one_left 0 resumed 0)
  unfolding step modify
  resumes = rw (timercmp_eq_refl next, not_after next) refl

  joins_new :
      (later : Timeval) (pid mode : ℕ)
      → (t : SharedState) × (r : Process) × (step (new_state later) (joins pid mode) ≡ moves t)
        × (t.procs ≡ r ∷ [])
        × (r.place ≡ running)
  unfolding step
  joins_new later pid mode = (_, _, refl, refl, refl)

  -- A process joins a new shared file and blocks until some time; a second process joins the file,
  -- runs, and leaves. Then the file is removed, but the first process can go through the barrier
  -- and the mutex and runs; and a process that joins meanwhile does so on another new file and
  -- runs too, at the same time.
  pub removed_while_waiting :
      (later : Timeval) (pid mode : ℕ)
      → (s : SharedState) × (p : Process) × (q : Process) × (t : SharedState) × (r : Process)
        × (perform (new_state now) (
              joins (suc a) 0
              ∷ blocks 0 (some next) false
              ∷ joins (suc b) 0
              ∷ leaves 1
              ∷ goes_on 0
              ∷ goes_on 0
              ∷ [])
            ≡ moves s)
        × (s.linked ≡ false)
        × (s.procs ≡ p ∷ q ∷ [])
        × (p.place ≡ running)
        × (q.place ≡ gone)
        × (step (new_state later) (joins pid mode) ≡ moves t)
        × (t.procs ≡ r ∷ [])
        × (r.place ≡ running)
  removed_while_waiting later pid mode =
      let (t, r, joined, only, runs) = joins_new later pid mode in
      (
        one_left 0 resumed 0,
        resumed,
        leave (second_process now next next a b true running),
        t,
        r,
        performs _ _ _ _ _ (first_joins now next next a b) (
            performs _ _ _ _ _ (first_blocks now next next a b) (
              performs _ _ _ _ _ (second_joins now next next a b) (
                performs _ _ _ _ _ second_leaves (
                  performs _ _ _ _ _ passes
                    (performs _ _ _ _ _ resumes (performs_none (one_left 0 resumed 0))))))),
        refl,
        refl,
        refl,
        refl,
        joined,
        only,
        runs,
      )
