-- ===== src/Threads/Runs.antt =====
-- pseudo_threads.c: PT_run_all.
use libproc.Prelude.{
  ℕ, zero, suc, ◌+◌, ◌*◌, ◌<◌, ◌≤◌, ◌≡◌, refl, sym, ◌∙◌, ap, inl, inr, ◌⊎◌, true, false, Option,
  none, some, List, [], ◌∷◌, arith, Bool-cases, Option-cases, ==_iff, if_intro, ◌==◌,
}
use libproc.Prelude.Int.{ℤ, pos, negsuc}
use libproc.Threads.State.{
  Program, Context, PtQueue, blocked_queue, PThread, PseudoThreadState, first, at_start, after_wait,
  in_transfer, not_saved, curr_queue, ready_queue, returns, blocks, waits, transfers, unblocks,
  creates, destroys, store,
}
use libproc.Threads.Queues.{
  Placed, Changes, Changes-else, Changes-live, Changes-again, move_to-Changes, store-Placed,
  in_queue, count,
}
use libproc.Threads.Weight.{
  Fresh, weight, freed-weight, size, context_size, thread_weight, weight-Changes, Fresh-Changes,
}
use libproc.Threads.Invariant.{Resting, Running, Placed-same, Away, Away-curr, on_curr}
use libproc.Threads.Replies.{Good, pt_unblock-Good}
use libproc.Threads.Blocking.{pt_block-Good, pt_wait-Good, pt_rw_int-Good, pt_rw_woken-Good}
use libproc.Threads.Lifetime.{Ends, tmain_wrapper-Ends}
use libproc.Threads.Create.{pt_create-Running}
use libproc.Threads.Destroy.{pt_destroy-Good}
use libproc.Threads.Run.{
  go_on, by_result, run_thread, swap_in, bury, checked, Turn, turned, broken, still_current,
  after_turn, run_next, Outcome, ran, faulted, assertion_failed, out_of_fuel, pt_run_all,
}
use libproc.Threads.{Reply, swaps, replies, faults, Outside, with_thread, same_pointer}

Ends-mono : (a b : ℕ) (o : Option PseudoThreadState) → a ≤ b → Ends a o → Ends b o
unfolding Ends
Ends-mono a b none h e = tt
Ends-mono a b (some s) h (away, w) = (away, omega arith)

go_on-Ends :
    (t a b bound : ℕ) (r : Reply) (rest : ℤ → PseudoThreadState → Option PseudoThreadState)
    → Good t a b r
    → a ≤ bound
    → ((i : ℤ) (s : PseudoThreadState) → Running t s → weight s ≤ b → Ends bound (rest i s))
    → Ends bound (go_on r rest)
unfolding Good Ends
go_on-Ends t a b bound (swaps s) rest (away, w) le h = (away, omega arith)
go_on-Ends t a b bound (replies i s) rest (running, w) le h = h i s running w
go_on-Ends t a b bound faults rest g le h = tt

by_result-Ends :
    (bound : ℕ) (i : ℤ) (s : PseudoThreadState)
    (x y z : PseudoThreadState → Option PseudoThreadState)
    → Ends bound (x s)
    → Ends bound (y s)
    → Ends bound (z s)
    → Ends bound (by_result i x y z s)
by_result-Ends bound (pos n) s x y z a b c = a
by_result-Ends bound (negsuc zero) s x y z a b c = c
by_result-Ends bound (negsuc (suc n)) s x y z a b c = b

module _ (out : Outside) (t : ℕ) where
  -- A thread that runs comes back to PT_run_all.
  pub run_thread-Ends :
      (p : Program) (st : PseudoThreadState)
      → Running t st
      → Ends (weight st + 2 * size p) (run_thread out t p st)
  unfolding run_thread size context_size
  run_thread-Ends returns st running =
      Ends-mono (weight st) _ _ (omega arith) (tmain_wrapper-Ends t st running)
  run_thread-Ends (blocks arg p) st running =
      go_on-Ends t _ _ _ _ _ (pt_block-Good t (at_start p) out st arg running) (omega arith)
        (λ i s r w. Ends-mono _ _ _ (omega arith) (run_thread-Ends p s r))
  run_thread-Ends (waits msecs p) st running =
      go_on-Ends t _ _ _ _ _ (pt_wait-Good t (after_wait p) out st msecs running) (omega arith)
        (λ i s r w. Ends-mono _ _ _ (omega arith) (run_thread-Ends p s r))
  run_thread-Ends (transfers w fd timeout a b c) st running =
      go_on-Ends t _ _ _ _ _
        (pt_rw_int-Good t (in_transfer w fd timeout a b c) out st fd timeout running) (omega arith)
        (λ i s r w.
          by_result-Ends _ i s _ _ _ (Ends-mono _ _ _ (omega arith) (run_thread-Ends a s r))
            (Ends-mono _ _ _ (omega arith) (run_thread-Ends b s r))
            (Ends-mono _ _ _ (omega arith) (run_thread-Ends c s r)))
  run_thread-Ends (unblocks arg p) st running =
      go_on-Ends t _ _ _ _ _ (pt_unblock-Good t st running arg) (omega arith)
        (λ i s r w. Ends-mono _ _ _ (omega arith) (run_thread-Ends p s r))
  run_thread-Ends (creates main p) st running =
      let (s, eq, r, w) = pt_create-Running t st running main in
      rw (eq, run_thread) (Ends-mono _ _ _ (omega arith) (run_thread-Ends p s r))
  run_thread-Ends (destroys arg p) st running =
      go_on-Ends t _ _ _ _ _ (pt_destroy-Good t st running arg) (omega arith)
        (λ i s r w. Ends-mono _ _ _ (omega arith) (run_thread-Ends p s r))

  swap_in-Ends :
      (k : Context) (st : PseudoThreadState)
      → Running t st
      → Ends (weight st + 2 * context_size k) (swap_in out t k st)
  unfolding swap_in context_size Ends
  swap_in-Ends (at_start p) st running = run_thread-Ends p st running
  swap_in-Ends (after_wait p) st running =
      if_intro (Ends (weight st + 2 * size p)) (same_pointer (first st.curr) (some t))
        (λ h. run_thread-Ends p st running) (λ h. tt)
  swap_in-Ends (in_transfer w fd timeout a b c) st running =
      go_on-Ends t _ _ _ _ _
        (pt_rw_woken-Good t (in_transfer w fd timeout a b c) out st w fd timeout running)
        (omega arith)
        (λ i s r w.
          by_result-Ends _ i s _ _ _ (Ends-mono _ _ _ (omega arith) (run_thread-Ends a s r))
            (Ends-mono _ _ _ (omega arith) (run_thread-Ends b s r))
            (Ends-mono _ _ _ (omega arith) (run_thread-Ends c s r)))
  swap_in-Ends not_saved st running = tt

bury-Resting :
    (st : PseudoThreadState) → Away st → Resting (bury st) × (weight (bury st) ≤ weight st)
unfolding bury Away Resting Fresh weight
bury-Resting st (placed, fresh, gone, nobody) = elim (Option-cases st.goner) [
  | inl e ↦ simp (e, bury) ((placed, fresh, refl, nobody), omega arith)
  | inr (g, e) ↦
      rw (e, bury)
        (
          (
            Placed-same (store st g none) _ refl refl refl refl
                ((store-Placed st g none placed (sym (gone g e))).0),
            λ i le. if_intro (λ o. o ≡ none) (i == g) (λ h. refl) (λ h. fresh i le),
            refl,
            λ i. if_intro (λ o. on_curr o ≡ false) (i == g) (λ h. refl) (λ h. nobody i),
          ),
          freed-weight st g,
        )
]

on_ready : (q : Option PtQueue) → in_queue q ready_queue ≡ true → q ≡ some ready_queue
on_ready none h = absurd (cc h)
on_ready (some curr_queue) h = absurd (cc h)
on_ready (some ready_queue) h = refl
on_ready (some blocked_queue) h = absurd (cc h)

ready-live :
    (st : PseudoThreadState)
    → Placed st
    → (t : ℕ) (l : List ℕ) → st.ready ≡ t ∷ l
    → (th : PThread) × (st.threads t ≡ some th) × (th.head ≡ some ready_queue)
unfolding Placed count
ready-live st placed t l e = elim (Option-cases (st.threads t)) [
  | inl d ↦ absurd (ground (arith, d, e, placed t ready_queue))
  | inr (th, live) ↦ (th, live, on_ready th.head (ground (arith, e, live, placed t ready_queue)))
]

List-cases : (l : List ℕ) → (l ≡ []) ⊎ ((t : ℕ) × (m : List ℕ) × (l ≡ t ∷ m))
List-cases [] = inl refl
List-cases (t ∷ m) = inr (t, m, refl)

no_current : (st : PseudoThreadState) → Resting st → st.curr ≡ []
unfolding Resting Away
no_current st (placed, fresh, gone, nobody) =
    Away-curr st (placed, fresh, λ g h. absurd (cc (h, gone)), nobody)

-- A turn leaves less than it found.
unfoldable Lighter : ℕ → Turn → Type 0
Lighter before (turned s) = Resting s × (weight s < before)
Lighter before broken = Unit
Lighter before still_current = ⊥

checked-Lighter :
    (before bound : ℕ) (o : Option PseudoThreadState)
    → bound < before
    → Ends bound o
    → Lighter before (checked o)
unfolding Ends Lighter
checked-Lighter before bound none lt e = tt
checked-Lighter before bound (some s) lt (away, w) =
    let (r, w') = bury-Resting s away in rw (Away-curr s away) (r, omega arith)

current-Running :
    (t : ℕ) (st s : PseudoThreadState) (th th' : PThread)
    → Resting st
    → st.threads t ≡ some th
    → Changes st s t (some th')
    → Running t s
unfolding Resting Running
current-Running t st s th th' (placed, fresh, gone, nobody) live d = (
  d.0,
  Fresh-Changes st s t th _ d fresh live,
  d.2 ∙ gone,
  λ i h. elim (Bool-cases (i == t)) [
    | inl e ↦ (==_iff i t).0 e
    | inr e ↦ absurd (cc (h, ap on_curr (Changes-else st s t _ d i e), nobody i))
  ],
  (th', Changes-live st s t _ d),
)

current-weight :
    (t : ℕ) (st s : PseudoThreadState) (th : PThread)
    → Resting st
    → st.threads t ≡ some th
    → th.head ≡ some ready_queue
    → Changes st s t (some (record th { head = some curr_queue; ctx = not_saved }))
    → weight s + 2 * context_size th.ctx < weight st
unfolding Resting thread_weight
current-weight t st s th (placed, fresh, gone, nobody) live ready d =
    ground (arith, weight-Changes st s t th _ d fresh live, ready)

moved-weight :
    (t : ℕ) (st s : PseudoThreadState) (th : PThread)
    → Resting st
    → st.threads t ≡ some th
    → th.head ≡ some ready_queue
    → Changes st s t (some (record th { head = some curr_queue }))
    → weight s < weight st
unfolding Resting thread_weight
moved-weight t st s th (placed, fresh, gone, nobody) live ready c =
    ground (arith, weight-Changes st s t th _ c fresh live, ready)

module _ (out : Outside) where
  turn_live :
      (t : ℕ) (st : PseudoThreadState) (th : PThread)
      → Resting st
      → st.threads t ≡ some th
      → th.head ≡ some ready_queue
      → Lighter (weight st) (run_next out st t)
  unfolding run_next Resting
  turn_live t st th resting live ready =
      let (s, eq, c) = move_to-Changes st t th curr_queue (resting.0) live in
      let here = Changes-live st s t _ c in
      let d = Changes-again st s _ t _ _ c (
        store-Placed s t (some (record th { head = some curr_queue; ctx = not_saved })) c.0
          (rw here refl)) in
      rw (eq, here, with_thread, run_next)
        (checked-Lighter (weight st) _ _ (current-weight t st _ th resting live ready d)
          (swap_in-Ends out t th.ctx _ (current-Running t st _ th _ resting live d)))

  -- The first of the ready queue is a live thread.
  turn_lem :
      (t : ℕ) (l : List ℕ) (st : PseudoThreadState)
      → Resting st
      → st.ready ≡ t ∷ l
      → Lighter (weight st) (run_next out st t)
  unfolding Resting
  turn_lem t l st resting e =
      let (th, live, ready) = ready-live st (resting.0) t l e in
      turn_live t st th resting live ready

heavy :
    (t : ℕ) (l : List ℕ) (st : PseudoThreadState) → Resting st → st.ready ≡ t ∷ l → 0 < weight st
unfolding Resting
heavy t l st resting e =
    let (th, live, ready) = ready-live st (resting.0) t l e in
    let (s, eq, c) = move_to-Changes st t th curr_queue (resting.0) live in
    omega (arith, moved-weight t st s th resting live ready c)

-- PT_run_all has come to its end.
unfoldable pub Settled : Outcome → Type 0
Settled (ran s) = Resting s × (s.ready ≡ []) × (s.curr ≡ [])
Settled faulted = Unit
Settled assertion_failed = ⊥
Settled out_of_fuel = ⊥

Settled-end : (st : PseudoThreadState) → Resting st → st.ready ≡ [] → Settled (ran st)
unfolding Settled Resting
Settled-end st resting e = (resting, e, no_current st resting)

module _ (out : Outside) where
  after_turn-Settled :
      (before : ℕ) (turn : Turn) (rest : PseudoThreadState → Outcome)
      → Lighter before turn
      → ((s : PseudoThreadState) → Resting s → weight s < before → Settled (rest s))
      → Settled (after_turn turn rest)
  unfolding Lighter Settled
  after_turn-Settled before (turned s) rest (r, w) h = h s r w
  after_turn-Settled before broken rest g h = tt
  after_turn-Settled before still_current rest g h = absurd g

  -- From a state in which every thread is once in the queue that its `head` names and in no other,
  -- in which no thread has an address that malloc has yet to return, none is the current one and
  -- none waits to be freed, and with fuel for the weight of the threads' programs: PT_run_all
  -- ends. Unless a call was a fault, it ends in such a state, with no thread ready and none
  -- current, and its assertion that state.curr is NULL never fails, whatever calls the threads
  -- make, whatever read and write give, and which handles EVT_sched_add returns.
  pub pt_run_all-Settled :
      (fuel : ℕ) (st : PseudoThreadState)
      → Resting st
      → weight st ≤ fuel
      → Settled (pt_run_all out fuel st)
  unfolding pt_run_all
  pt_run_all-Settled zero st resting le = elim (List-cases st.ready) [
    | inl e ↦ rw (e, pt_run_all) (Settled-end st resting e)
    | inr (t, l, e) ↦ absurd (omega (arith, heavy t l st resting e))
  ]
  pt_run_all-Settled (suc fuel) st resting le = elim (List-cases st.ready) [
    | inl e ↦ rw (e, pt_run_all) (Settled-end st resting e)
    | inr (t, l, e) ↦
        rw (e, pt_run_all)
          (after_turn-Settled (weight st) _ _ (turn_lem out t l st resting e)
            (λ s r w. pt_run_all-Settled fuel s r (omega arith)))
  ]
