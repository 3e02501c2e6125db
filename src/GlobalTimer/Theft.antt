-- ===== src/GlobalTimer/Theft.antt =====
-- globalTimer.c: a process that has stolen time does not hold the mutex afterwards, by its own account.
use libproc.Prelude.{
  ℕ, zero, suc, ◌+◌, ◌-◌, ◌≡◌, refl, sym, ap, ◌∙◌, inl, inr, Bool, true, false, ◌==◌, ltb, none,
  some, List, [], ◌∷◌, get_elem?, arith, Bool-cases,
}
use mathlib.Core.Path.{subst}
use libproc.Timeval.{Timeval, timercmp, lt}
use libproc.GlobalTimer.{
  running, stealing, Process, SharedState, moves, faults, live, modify, change_at, smallest_of,
  entered, released, give_back, leave, act, by_chosen, actor, enter_block, gvirt_block, set_pause,
  cleanup_shared_state, Action, blocks, goes_on, pauses, leaves, step,
}

get_elem?-modify :
    (ps : List Process) (i : ℕ) (p : Process) (f : Process → Process)
    → get_elem? ps i ≡ some p
    → get_elem? (modify ps i f) i ≡ some (f p)
unfolding modify
get_elem?-modify [] i p f h = cc
get_elem?-modify (q ∷ ps) zero p f h = ground arith
get_elem?-modify (q ∷ ps) (suc i) p f h = get_elem?-modify ps i p f h

smallest_of-some :
    (ps : List Process) (k : ℕ) (best : ℕ × Timeval)
    → (r : ℕ × Timeval) × (smallest_of ps k (some best) ≡ some r)
unfolding smallest_of
smallest_of-some [] k best = (best, refl)
smallest_of-some (p ∷ ps) k (j, t) = elim (Bool-cases (live p)) [
  | inr dead ↦ rw dead (smallest_of-some ps (suc k) (j, t))
  | inl alive ↦ elim (Bool-cases (timercmp p.next_time t lt)) [
    | inl less ↦ rw (alive, less) (smallest_of-some ps (suc k) (k, p.next_time))
    | inr more ↦ rw (alive, more) (smallest_of-some ps (suc k) (j, t))
  ]
]

smallest_of-live :
    (ps : List Process) (k i : ℕ) (p : Process)
    → get_elem? ps i ≡ some p
    → live p ≡ true
    → (r : ℕ × Timeval) × (smallest_of ps k none ≡ some r)
unfolding smallest_of
smallest_of-live [] k i p h alive = cc
smallest_of-live (q ∷ ps) k zero p h alive =
    let first : live q ≡ true =
      subst (λ o. elim o as (λ x. Bool) [ none ↦ false | some x ↦ live x ] ≡ true) (sym h) alive in
    rw first (smallest_of-some ps (suc k) (k, q.next_time))
smallest_of-live (q ∷ ps) k (suc i) p h alive = elim (Bool-cases (live q)) [
  | inl first ↦ rw first (smallest_of-some ps (suc k) (k, q.next_time))
  | inr dead ↦ rw dead (smallest_of-live ps (suc k) i p h alive)
]

positive : (n : ℕ) → ltb 0 (suc n) ≡ true
positive n = ground arith

not_zero : (n : ℕ) → (suc n == 0) ≡ false
not_zero n = ground arith

same_number : (n : ℕ) → (n == n) ≡ true
same_number n = ground arith

chosen_lem :
    (s : SharedState) (a : Action) (p : Process)
    → get_elem? s.procs (actor a) ≡ some p
    → act s a (actor a) p p.place ≡ by_chosen s a (get_elem? s.procs (actor a))
chosen_lem s a p h = ap (by_chosen s a) (sym h)

module _ (s : SharedState) (i n : ℕ) (q : Process) (next : Timeval) where
  -- The process that runs and has stolen time.
  abbrev pub thief : Process
  thief = record q { active = true; holds_mutex = true; pid = suc n; place = running; paused = 2 }

  abbrev pub stolen_time : SharedState
  stolen_time = record s { time_thief = suc n }

  module _ (at_i : get_elem? s.procs i ≡ some thief) where
    abbrev waiting : SharedState
    waiting = change_at stolen_time i (λ p. record p { next_time = next })

    abbrev away : SharedState
    away = give_back waiting i next

    waiting-get_elem? : get_elem? waiting.procs i ≡ some (record thief { next_time = next })
    waiting-get_elem? = get_elem?-modify s.procs i thief (λ p. record p { next_time = next }) at_i

    away-get_elem? :
        get_elem? away.procs i
        ≡ some (record thief {
          next_time = next;
          thief = true;
          holds_mutex = false;
          place = stealing next;
        })
    away-get_elem? =
        get_elem?-modify waiting.procs i (record thief { next_time = next }) (released waiting next)
          waiting-get_elem?
        ∙ rw (positive n, same_number (suc n)) refl

    entered_lem : (best : ℕ × Timeval) → entered waiting i next (some best) ≡ moves away
    entered_lem (j, t) = rw (not_zero n) refl

    blocks_lem : step stolen_time (blocks i (some next) false) ≡ moves away
    unfolding step gvirt_block enter_block
    blocks_lem =
        let (best, found) =
          smallest_of-live waiting.procs 0 i (record thief { next_time = next }) waiting-get_elem?
            (rw (positive n) refl) in
        sym (chosen_lem stolen_time (blocks i (some next) false) thief at_i)
        ∙ ap (entered waiting i next) found
        ∙ entered_lem best

    abbrev returned : SharedState
    returned = record (change_at away i (λ p. record p { place = running })) {
      evt_mutex = s.evt_mutex + 1 - 1;
    }

    abbrev back : Process
    back = record thief { next_time = next; thief = true; holds_mutex = false; place = running }

    returned-get_elem? : get_elem? returned.procs i ≡ some back
    returned-get_elem? =
        get_elem?-modify away.procs i (record back { place = stealing next })
          (λ p. record p { place = running }) away-get_elem?

    relocks_lem : step away (goes_on i) ≡ moves returned
    unfolding step
    relocks_lem =
        let open_mutex : (s.evt_mutex + 1 == 0) ≡ false = ground arith in
        sym (chosen_lem away (goes_on i) (record back { place = stealing next }) away-get_elem?)
        ∙ rw open_mutex refl

    -- A process that runs, holds the mutex, is active and has stolen the time blocks until some
    -- time; when its blocking function has returned and it has taken the mutex again, its next
    -- such block fails the assertion that it holds the mutex, its requests for another pause state
    -- change nothing, and when it leaves, the mutex has the count that it had while the process
    -- ran.
    pub thief_returns :
        (again : Timeval) (mode : ℕ)
        → (t : SharedState) × (u : SharedState) × (v : SharedState) × (step stolen_time
              (blocks i (some next) false)
            ≡ moves t)
          × (step t (goes_on i) ≡ moves u)
          × (step u (blocks i (some again) false) ≡ faults)
          × (step u (pauses i mode) ≡ moves u)
          × (step u (leaves i) ≡ moves v)
          × (v.evt_mutex ≡ s.evt_mutex)
    unfolding step gvirt_block enter_block set_pause cleanup_shared_state
    thief_returns again mode = (
      away,
      returned,
      change_at returned i leave,
      blocks_lem,
      relocks_lem,
      sym (chosen_lem returned (blocks i (some again) false) back returned-get_elem?),
      sym (chosen_lem returned (pauses i mode) back returned-get_elem?),
      sym (chosen_lem returned (leaves i) back returned-get_elem?),
      omega arith,
    )
