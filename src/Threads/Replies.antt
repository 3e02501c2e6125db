-- ===== src/Threads/Replies.antt =====
-- pseudo_threads.c: each call, made by the thread that runs.
use libproc.Prelude.{
  ℕ, ◌+◌, ◌*◌, ◌≤◌, ◌≡◌, refl, ◌∙◌, ap, inl, inr, ◌⊎◌, Option, none, some, arith, Option-cases,
}
use libproc.Threads.State.{
  Context, PtQueue, PThread, PseudoThreadState, ready_queue, blocked_queue, store, move_to,
  dequeue_thread,
}
use libproc.Threads.Queues.{
  Placed, Changes, Changes-again, Changes-live, move_to-Changes, store-Placed,
}
use libproc.Threads.Weight.{Fresh, weight, weight-Changes, thread_weight, context_size}
use libproc.Threads.Invariant.{
  on_curr, Running, Away, Same, Running-Same, Running-Changes, Away-leaves,
}
use libproc.Threads.{
  Reply, swaps, replies, faults, Outside, with_thread, with_timer, pt_unblock, swap_out, set_timer,
  drop_timer,
}

-- A swap leaves no current thread and a weight of at most `a`; a result leaves the thread running
-- and a weight of at most `b`.
unfoldable pub Good : ℕ → ℕ → ℕ → Reply → Type 0
Good t a b (swaps s) = Away s × (weight s ≤ a)
Good t a b (replies r s) = Running t s × (weight s ≤ b)
Good t a b faults = Unit

pub faults-Good : (t a b : ℕ) → Good t a b faults
unfolding Good
faults-Good t a b = tt

pub weight-Same : (a b : PseudoThreadState) → Same a b → weight a ≡ weight b
unfolding weight
weight-Same a b (c, r, k, th, n) = rw (th, n) refl

move_to_freed :
    (st : PseudoThreadState) (u : ℕ) (q : PtQueue) → st.threads u ≡ none → move_to st u q ≡ none
unfolding move_to dequeue_thread
move_to_freed st u q d = rw (d, dequeue_thread, move_to) refl

-- The thread to move is live, or the call is a fault.
module _ (t : ℕ) (st : PseudoThreadState) (running : Running t st) where
  placed : Placed st
  unfolding Running
  placed = running.0

  fresh : Fresh st
  unfolding Running
  fresh = running.1

  unblock-weight :
      (s : PseudoThreadState) (u : ℕ) (th : PThread)
      → st.threads u ≡ some th
      → Changes st s u (some (record th { head = some ready_queue }))
      → weight s ≤ weight st + 2
  unfolding thread_weight
  unblock-weight s u th live c = ground (arith, weight-Changes st s u th _ c fresh live)

  pub pt_unblock-Good : (arg : Option ℕ) → Good t 0 (weight st + 2) (pt_unblock st arg)
  unfolding pt_unblock Good
  pt_unblock-Good none = (running, omega arith)
  pt_unblock-Good (some u) = elim (Option-cases (st.threads u)) [
    | inl d ↦ rw (move_to_freed st u ready_queue d, pt_unblock) tt
    | inr (th, live) ↦
        let (s, eq, c) = move_to-Changes st u th ready_queue placed live in
        rw (eq, pt_unblock)
          (
            Running-Changes t st s u th _ running live c (λ h. absurd (cc h)),
            unblock-weight s u th live c,
          )
  ]

  module _ (th : PThread) (live : st.threads t ≡ some th) (k : Context) where
    out-weight :
        (s : PseudoThreadState)
        → Changes st s t (some (record th { head = some blocked_queue; ctx = k }))
        → weight s ≤ weight st + 2 * context_size k
    unfolding thread_weight
    out-weight s c = ground (arith, weight-Changes st s t th _ c fresh live)

    swap_out_live : (b : ℕ) → Good t (weight st + 2 * context_size k) b (swap_out st t k)
    unfolding swap_out Good
    swap_out_live b =
        let (s, eq, c) = move_to-Changes st t th blocked_queue placed live in
        let here = Changes-live st s t _ c in
        let d = Changes-again st s _ t _ _ c (
          store-Placed s t (some (record th { head = some blocked_queue; ctx = k })) c.0
            (rw here refl)) in
        rw (eq, here, with_thread, swap_out)
          (Away-leaves t st _ th _ running live d refl, out-weight _ d)

  pub swap_out-Good :
      (k : Context) (b : ℕ) → Good t (weight st + 2 * context_size k) b (swap_out st t k)
  unfolding Running
  swap_out-Good k b = swap_out_live (running.4.0) (running.4.1) k b

  sched_evt-Running :
      (u : ℕ) (th : PThread)
      → st.threads u ≡ some th
      → (v : Option ℕ)
      → let s = store st u (some (record th { sched_evt = v })) in
        Running t s × (weight s ≡ weight st)
  unfolding Running thread_weight
  sched_evt-Running u th live v =
      let c = store-Placed st u (some (record th { sched_evt = v })) placed (rw live refl) in
      (
        Running-Changes t st _ u th _ running live c (λ h. running.3 u (ap on_curr live ∙ h)),
        omega (arith, weight-Changes st _ u th _ c fresh live),
      )

  pub set_timer-Running :
      (out : Outside) (msecs : ℕ)
      → (set_timer out st t msecs ≡ none)
        ⊎ ((s : PseudoThreadState) × (set_timer out st t msecs ≡ some s)
            × Running t s
            × (weight s ≡ weight st))
  unfolding Running set_timer
  set_timer-Running out msecs =
      let (th, live) = running.4 in
      let r = sched_evt-Running t th live (out.handle st.scheds) in
      elim (Option-cases th.sched_evt) [
        | inl e ↦ inr (
          with_timer out st t msecs th,
          rw (live, e, with_thread, set_timer) refl,
          Running-Same t _ _ (refl, refl, refl, refl, refl) refl r.0,
          weight-Same _ _ (refl, refl, refl, refl, refl) ∙ r.1,
        )
        | inr (h, e) ↦ inl (rw (live, e, with_thread, set_timer) refl)
      ]

  pub drop_timer-Running :
      (u : ℕ) (th : PThread)
      → st.threads u ≡ some th
      → Running t (drop_timer st u th) × (weight (drop_timer st u th) ≡ weight st)
  unfolding drop_timer
  drop_timer-Running u th live = elim (Option-cases th.sched_evt) [
    | inl e ↦ rw (e, drop_timer) (running, refl)
    | inr (h, e) ↦
        let r = sched_evt-Running u th live none in
        rw (e, drop_timer)
          (
            Running-Same t _ _ (refl, refl, refl, refl, refl) refl r.0,
            weight-Same _ _ (refl, refl, refl, refl, refl) ∙ r.1,
          )
  ]
