-- ===== src/Threads/Lifetime.antt =====
-- pseudo_threads.c: tmain_wrapper.
use libproc.Prelude.{
  ℕ, ◌≤◌, ◌≡◌, refl, sym, ◌∙◌, ap, inl, inr, ◌==◌, Option, none, some, arith, Bool-cases,
  Option-cases, ==_iff,
}
use libproc.Threads.State.{PThread, PseudoThreadState, curr_queue, store, put_at}
use libproc.Threads.Queues.{
  Changes, Changes-here, Changes-live, head_of, in_queue, store-Placed, dequeue_thread-Changes,
}
use libproc.Threads.Weight.{Fresh-Changes, weight, weight-Changes, thread_weight}
use libproc.Threads.Invariant.{Running, Away, Placed-same, Fresh-Same, Same, leaves-Nobody}
use libproc.Threads.Replies.{weight-Same}
use libproc.Threads.{with_thread, drop_timer, tmain_wrapper}

-- The thread has been swapped out, or there was a fault.
unfoldable pub Ends : ℕ → Option PseudoThreadState → Type 0
Ends bound none = Unit
Ends bound (some s) = Away s × (weight s ≤ bound)

-- A change that leaves a thread where it is.
sched_evt-heads :
    (st : PseudoThreadState) (u : ℕ) (th : PThread)
    → st.threads u ≡ some th
    → (i : ℕ)
    → head_of (put_at st.threads u (some (record th { sched_evt = none })) i)
      ≡ head_of (st.threads i)
sched_evt-heads st u th live i = elim (Bool-cases (i == u)) [
  | inl e ↦ rw (e, (==_iff i u).0 e, live) refl
  | inr e ↦ rw e refl
]

sched_evt-Away :
    (st : PseudoThreadState) (u : ℕ) (th : PThread)
    → Away st
    → st.threads u ≡ some th
    → let s = store st u (some (record th { sched_evt = none })) in Away s × (weight s ≡ weight st)
unfolding Away thread_weight
sched_evt-Away st u th (placed, fresh, gone, nobody) live =
    let c = store-Placed st u (some (record th { sched_evt = none })) placed (rw live refl) in
    (
      (
        c.0,
        Fresh-Changes st _ u th _ c fresh live,
        λ g h. sched_evt-heads st u th live g ∙ gone g h,
        λ i. ap (λ q. in_queue q curr_queue) (sched_evt-heads st u th live i) ∙ nobody i,
      ),
      omega (arith, weight-Changes st _ u th _ c fresh live),
    )

Away-Same : (a b : PseudoThreadState) → Same a b → a.goner ≡ b.goner → Away a → Away b
unfolding Away
Away-Same a b same g (placed, fresh, gone, nobody) = (
  Placed-same a b (same.0) (same.1) (same.2) (same.3) placed,
  Fresh-Same a b same fresh,
  rw (sym (same.3), sym g) gone,
  rw (sym (same.3)) nobody,
)

drop_timer-Away :
    (st : PseudoThreadState) (u : ℕ) (th : PThread)
    → Away st
    → st.threads u ≡ some th
    → Away (drop_timer st u th) × (weight (drop_timer st u th) ≡ weight st)
unfolding drop_timer
drop_timer-Away st u th away live = elim (Option-cases th.sched_evt) [
  | inl e ↦ rw (e, drop_timer) (away, refl)
  | inr (h, e) ↦
      let r = sched_evt-Away st u th away live in
      rw (e, drop_timer)
        (
          Away-Same _ _ (refl, refl, refl, refl, refl) refl (r.0),
          weight-Same _ _ (refl, refl, refl, refl, refl) ∙ r.1,
        )
]

-- The thread that runs has left its queue and waits to be freed.
pub gone-Away :
    (t : ℕ) (st s : PseudoThreadState) (th : PThread)
    → Running t st
    → st.threads t ≡ some th
    → Changes st s t (some (record th { head = none }))
    → let gone = record s { goner = some t } in Away gone × (weight gone ≤ weight st)
unfolding Running Away thread_weight
gone-Away t st s th r live c = (
  (
    Placed-same s _ refl refl refl refl c.0,
    Fresh-Same s _ (refl, refl, refl, refl, refl) (Fresh-Changes st s t th _ c (r.1) live),
    λ g h. ap head_of (Changes-here st s t _ c g (ground (arith, h))),
    leaves-Nobody t st s _ r c refl,
  ),
  ground (
    arith,
    weight-Changes st s t th _ c (r.1) live,
    weight-Same s (record s { goner = some t }) (refl, refl, refl, refl, refl),
  ),
)

module _ (t : ℕ) (st : PseudoThreadState) (running : Running t st) where
  Ends-live : (th : PThread) → st.threads t ≡ some th → Ends (weight st) (tmain_wrapper st t)
  unfolding tmain_wrapper Ends Running
  Ends-live th live =
      let (s, eq, c) = dequeue_thread-Changes st (running.0) t th live in
      let here = Changes-live st s t _ c in
      let (away, w) = gone-Away t st s th running live c in
      let r = drop_timer-Away (record s { goner = some t }) t _ away here in
      rw (eq, here, with_thread, tmain_wrapper) (r.0, omega (arith, r.1, w))

  pub tmain_wrapper-Ends : Ends (weight st) (tmain_wrapper st t)
  unfolding Running
  tmain_wrapper-Ends = Ends-live (running.4.0) (running.4.1)
