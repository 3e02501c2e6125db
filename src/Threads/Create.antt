-- ===== src/Threads/Create.antt =====
-- pseudo_threads.c: PT_create.
use libproc.Prelude.{
  ℕ, suc, ◌+◌, ◌*◌, ◌<◌, ◌≤◌, ◌≡◌, refl, sym, ◌∙◌, ap, ◌≢◌, inl, inr, Bool, true, false, ◌==◌, none,
  some, arith, Bool-cases, ==_iff, ne→==,
}
use libproc.Threads.State.{
  Program, PThread, PseudoThreadState, at_start, ready_queue, curr_queue, blocked_queue, pt_init,
  store,
}
use libproc.Threads.Queues.{
  count, Placed, Changes, Changes-here, Changes-else, Changes-live, store-Placed,
  enqueue_thread-Changes,
}
use libproc.Threads.Weight.{
  Fresh, Fresh-Changes, live-old, other, weight, total, total_same, size, weight-Changes,
  thread_weight,
}
use libproc.Threads.Invariant.{on_curr, Resting, Running, Running-Changes, Placed-same}
use libproc.Threads.{pt_create}

abbrev pub newborn : Program → PThread
newborn main = record { ctx = at_start main; head = none; sched_evt = none }

-- The new thread before it is put in its queue.
abbrev pub created : PseudoThreadState → Program → PseudoThreadState
created st main = record (store st st.next_thread (some (newborn main))) {
  next_thread = suc st.next_thread;
}

module _ (st : PseudoThreadState) (placed : Placed st) (fresh : Fresh st) (main : Program) where
  here : (i : ℕ) → (i == st.next_thread) ≡ true → (created st main).threads i ≡ some (newborn main)
  here i e = rw e refl

  there : (i : ℕ) → (i == st.next_thread) ≡ false → (created st main).threads i ≡ st.threads i
  there i e = rw e refl

  unborn : st.threads st.next_thread ≡ none
  unfolding Fresh
  unborn = fresh st.next_thread (omega arith)

  created-Placed : Placed (created st main)
  created-Placed =
      Placed-same (store st st.next_thread (some (newborn main))) _ refl refl refl refl
        ((store-Placed st st.next_thread (some (newborn main)) placed (rw unborn refl)).0)

  created-Fresh : Fresh (created st main)
  unfolding Fresh
  created-Fresh i le =
      other st.next_thread (some (newborn main)) (st.threads i) (λ eq. absurd (omega arith))
      ∙ fresh i (omega arith)

  created-weight : weight (created st main) ≡ weight st + 2 * size main
  unfolding weight total thread_weight
  created-weight = omega (
    arith,
    ap thread_weight {y = some (newborn main)} (here st.next_thread ((==_iff _ _).1 refl)),
    total_same st.next_thread st.threads (created st main).threads (λ i lt.
        other st.next_thread (some (newborn main)) (st.threads i) (λ eq. absurd (omega arith))),
  )

  pt_create-Changes :
      (s : PseudoThreadState) × (pt_create st main ≡ some s)
      × Changes
          (created st main)
          s
          st.next_thread
          (some (record (newborn main) { head = some ready_queue }))
      × (weight s ≤ weight st + 2 * size main + 1)
  unfolding pt_create thread_weight
  pt_create-Changes =
      let live = here st.next_thread ((==_iff _ _).1 refl) in
      let (s, eq, c) =
        enqueue_thread-Changes (created st main) created-Placed st.next_thread (newborn main) live
          refl ready_queue in
      (
        s,
        eq,
        c,
        omega (
          arith,
          created-weight,
          weight-Changes (created st main) s st.next_thread (newborn main) _ c created-Fresh live,
        ),
      )

module _ (t : ℕ) (st : PseudoThreadState) (running : Running t st) (main : Program) where
  old : t < st.next_thread
  unfolding Running
  old = live-old st t (running.4.0) (running.1) (running.4.1)

  created-Running : Running t (created st main)
  unfolding Running
  created-Running = (
    created-Placed st (running.0) (running.1) main,
    created-Fresh st (running.0) (running.1) main,
    running.2,
    λ i h. elim (Bool-cases (i == st.next_thread)) [
      | inl e ↦ absurd (cc (h, ap on_curr (here st (running.0) (running.1) main i e)))
      | inr e ↦ running.3 i (ap on_curr (sym (there st (running.0) (running.1) main i e)) ∙ h)
    ],
    (
      running.4.0,
      other st.next_thread (some (newborn main)) (st.threads t) (λ eq. absurd (omega (arith, old)))
          ∙ running.4.1,
    ),
  )

  pub pt_create-Running :
      (s : PseudoThreadState) × (pt_create st main ≡ some s)
      × Running t s
      × (weight s ≤ weight st + 2 * size main + 1)
  unfolding Running
  pt_create-Running =
      let (s, eq, c, w) = pt_create-Changes st (running.0) (running.1) main in
      (
        s,
        eq,
        Running-Changes t (created st main) s st.next_thread (newborn main) _ created-Running
            (here st (running.0) (running.1) main st.next_thread ((==_iff _ _).1 refl)) c
            (λ h. absurd (cc h)),
        w,
      )

-- Between two runs of PT_run_all, with the threads' invariant, PT_create with memory makes a
-- thread at a new address that is ready and at the start of its function, changes no other thread,
-- and keeps the invariant.
pub pt_create-Resting :
    (st : PseudoThreadState) (main : Program)
    → Resting st
    → (s : PseudoThreadState) × (pt_create st main ≡ some s)
      × Resting s
      × (s.threads st.next_thread ≡ some (record (newborn main) { head = some ready_queue }))
      × ((i : ℕ) → i ≢ st.next_thread → s.threads i ≡ st.threads i)
      × (weight s ≤ weight st + 2 * size main + 1)
unfolding Resting
pt_create-Resting st main (placed, fresh, gone, nobody) =
    let (s, eq, c, w) = pt_create-Changes st placed fresh main in
    let live = here st placed fresh main st.next_thread ((==_iff _ _).1 refl) in
    (
      s,
      eq,
      (
        c.0,
        Fresh-Changes (created st main) s st.next_thread (newborn main) _ c
            (created-Fresh st placed fresh main) live,
        c.2 ∙ gone,
        λ i. elim (Bool-cases (i == st.next_thread)) [
          | inl e ↦ ap on_curr (Changes-here (created st main) s st.next_thread _ c i e)
          | inr e ↦
              ap on_curr (
                Changes-else (created st main) s st.next_thread _ c i e
                ∙ there st placed fresh main i e)
              ∙ nobody i
        ],
      ),
      Changes-live (created st main) s st.next_thread _ c,
      λ i ne.
          Changes-else (created st main) s st.next_thread _ c i (ne→== i st.next_thread ne)
          ∙ there st placed fresh main i (ne→== i st.next_thread ne),
      w,
    )

pt_init-Placed : (has_evt : Bool) → Placed (pt_init has_evt)
unfolding Placed count
pt_init-Placed has_evt t curr_queue = refl
pt_init-Placed has_evt t ready_queue = refl
pt_init-Placed has_evt t blocked_queue = refl

pub pt_init-Resting : (has_evt : Bool) → Resting (pt_init has_evt)
unfolding Resting Fresh
pt_init-Resting has_evt = (pt_init-Placed has_evt, λ i le. refl, refl, λ i. refl)
