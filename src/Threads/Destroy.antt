-- ===== src/Threads/Destroy.antt =====
-- pseudo_threads.c: PT_destroy, called by the thread that runs.
use libproc.Prelude.{
  ℕ, ◌≤◌, ◌≡◌, refl, sym, ◌∙◌, ap, ◌≢◌, inl, inr, ◌==◌, Option, none, some, if◌then◌else◌, arith,
  Bool-cases, Option-cases, ==_iff, ==→ne, if_intro,
}
use libproc.Prelude.Int.{pos}
use libproc.Threads.State.{PThread, PseudoThreadState, first}
use libproc.Threads.Queues.{
  Changes, Changes-here, Changes-else, Changes-live, store-Placed, dequeue_thread-Changes,
}
use libproc.Threads.Weight.{Fresh-Changes, other, weight, weight-Changes, thread_weight}
use libproc.Threads.Invariant.{on_curr, Running, Running-Changes, first-curr}
use libproc.Threads.Replies.{Good, faults-Good, drop_timer-Running}
use libproc.Threads.Blocking.{same_pointer-eq}
use libproc.Threads.Lifetime.{gone-Away}
use libproc.Threads.{
  replies, faults, swaps, with_thread, same_pointer, drop_timer, pt_destroy, freed,
}

drop_timer-live :
    (st : PseudoThreadState) (u : ℕ) (th : PThread)
    → st.threads u ≡ some th
    → (th' : PThread) × ((drop_timer st u th).threads u ≡ some th')
unfolding drop_timer
drop_timer-live st u th live = elim (Option-cases th.sched_evt) [
  | inl e ↦
      (th, ap (λ s. s.threads u) {x = drop_timer st u th} {y = st} (rw (e, drop_timer) refl) ∙ live)
  | inr (h, e) ↦ (record th { sched_evt = none }, rw (e, drop_timer, (==_iff u u).1 refl) refl)
]

-- Another thread, in no queue, is freed.
freed-Running :
    (t u : ℕ) (st : PseudoThreadState) (th : PThread)
    → Running t st
    → u ≢ t
    → st.threads u ≡ some th
    → th.head ≡ none
    → Running t (freed st u) × (weight (freed st u) ≤ weight st)
unfolding Running thread_weight
freed-Running t u st th running ne live off =
    let c = store-Placed st u none (running.0) (rw (live, off) refl) in
    (
      (
        c.0,
        Fresh-Changes st _ u th none c (running.1) live,
        running.2,
        λ i h. elim (Bool-cases (i == u)) [
          | inl e ↦ absurd (cc (h, ap on_curr (Changes-here st _ u none c i e)))
          | inr e ↦ running.3 i (ap on_curr (sym (Changes-else st _ u none c i e)) ∙ h)
        ],
        (running.4.0, other u none (st.threads t) (λ e. ne (sym e)) ∙ running.4.1),
      ),
      omega (arith, weight-Changes st _ u th none c (running.1) live),
    )

-- From the state `s` that dequeue_thread leaves of `m`.
module _ (t : ℕ) (m : PseudoThreadState) (running : Running t m) (u : ℕ) (th : PThread)
    (live : m.threads u ≡ some th) (s : PseudoThreadState)
    (c : Changes m s u (some (record th { head = none }))) where
  parted : Running t s × (weight s ≤ weight m)
  unfolding Running thread_weight
  parted = (
    Running-Changes t m s u th _ running live c (λ h. absurd (cc h)),
    ground (arith, weight-Changes m s u th _ c (running.1) live),
  )

  own-Good : (b : ℕ) → u ≡ t → Good t (weight m) b (swaps (record s { goner = some u }))
  unfolding Good
  own-Good b e = gone-Away u m s th (rw e running) live c

  other-Good : (a : ℕ) → u ≢ t → Good t a (weight m) (replies (pos 0) (freed s u))
  unfolding Good
  other-Good a ne =
      let r = freed-Running t u s _ (parted.0) ne (Changes-live m s u _ c) refl in
      (r.0, omega (arith, r.1, parted.1))

  parted-Good :
      (curr : Option ℕ)
      → (curr ≡ some u → u ≡ t)
      → Good t (weight m) (weight m) (
          if same_pointer (some u) curr
          then swaps (record s { goner = some u })
          else if same_pointer (some u) (some t)
          then faults
          else replies (pos 0) (freed s u))
  parted-Good curr own =
      if_intro (Good t (weight m) (weight m)) (same_pointer (some u) curr)
        (λ h. own-Good _ (own (same_pointer-eq (some u) curr h)))
        (λ h.
          if_intro (Good t (weight m) (weight m)) (u == t) (λ e. faults-Good _ _ _)
            (λ e. other-Good _ (==→ne u t e)))

module _ (t : ℕ) (st : PseudoThreadState) (running : Running t st) (u : ℕ) (th : PThread)
    (live : st.threads u ≡ some th) where
  timeless-Running : Running t (drop_timer st u th) × (weight (drop_timer st u th) ≡ weight st)
  timeless-Running = drop_timer-Running t st running u th live

  destroy_live : Good t (weight st) (weight st) (pt_destroy st (some t) (some u))
  unfolding pt_destroy Running
  destroy_live =
      let (th', live') = drop_timer-live st u th live in
      let (r, w) = timeless-Running in
      let (s, eq, c) = dequeue_thread-Changes (drop_timer st u th) (r.0) u th' live' in
      rw (live, with_thread, eq, pt_destroy, sym w)
        (parted-Good t (drop_timer st u th) r u th' live' s c (first st.curr)
          (λ e. first-curr t u st running e))

module _ (t : ℕ) (st : PseudoThreadState) (running : Running t st) where
  pub pt_destroy-Good :
      (arg : Option ℕ) → Good t (weight st) (weight st) (pt_destroy st (some t) arg)
  unfolding pt_destroy Good
  pt_destroy-Good none = (running, omega arith)
  pt_destroy-Good (some u) = elim (Option-cases (st.threads u)) [
    | inl d ↦ rw (d, with_thread, pt_destroy) tt
    | inr (th, live) ↦ destroy_live t st running u th live
  ]
