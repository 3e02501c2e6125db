-- ===== src/Threads/Wakes.antt =====
-- pseudo_threads.c: the callbacks that make a thread ready, and what a woken call does.
use libproc.Prelude.{
  ℕ, ◌+◌, ◌<◌, ◌≡◌, refl, ◌∙◌, ap, inl, inr, Bool, true, false, none, some, List, ◌∷◌, arith,
  Bool-cases, ◌==◌, lt→ltb, ==_iff,
}
use libproc.Prelude.Int.{ℤ, pos, negsuc}
use libproc.Threads.State.{
  Context, PtQueue, PThread, PseudoThreadState, called_fd_add, curr_queue, ready_queue,
  blocked_queue, first, store, set_queue, queue_of, dequeue_thread, enqueue_thread, move_to,
}
use libproc.Threads.Queues.{
  Placed, Changes, Changes-live, Changes-here, Changes-else, Changes-again, move_to-Changes,
  store-Placed,
}
use libproc.Threads.Invariant.{Placed-same, Resting, on_curr}
use libproc.Threads.Weight.{Fresh-Changes}
use libproc.Threads.{
  swaps, replies, faults, Outside, would_block, timed_out, with_thread, with_timer, fd_evt_cb,
  timed_evt_cb, pt_unblock, swap_out, set_timer, drop_timer, watch, pt_wait, pt_rw_woken,
}

set_queue-has_evt :
    (st : PseudoThreadState) (q : PtQueue) (l : List ℕ) → (set_queue st q l).has_evt ≡ st.has_evt
set_queue-has_evt st q l = ground arith

move_to-has_evt :
    (st s : PseudoThreadState) (t : ℕ) (q : PtQueue)
    → move_to st t q ≡ some s
    → s.has_evt ≡ st.has_evt
unfolding move_to dequeue_thread enqueue_thread
move_to-has_evt st s t q e = ground (arith, e, set_queue-has_evt s q (t ∷ queue_of s q))

move_to-first :
    (st s : PseudoThreadState) (t : ℕ) → move_to st t curr_queue ≡ some s → first s.curr ≡ some t
unfolding move_to dequeue_thread enqueue_thread
move_to-first st s t e = ground (arith, e)

-- What a call relies on when it follows the thread.
abbrev Finds : PseudoThreadState → ℕ → PThread → Bool → Type 0
Finds st t th has_evt = Placed st × (st.threads t ≡ some th) × (st.has_evt ≡ has_evt)

module _ (t : ℕ) (b : Bool) where
  move_to-Finds :
      (st : PseudoThreadState) (th : PThread) (q : PtQueue)
      → Finds st t th b
      → (s : PseudoThreadState) × (move_to st t q ≡ some s)
        × Finds s t (record th { head = some q }) b
  move_to-Finds st th q (placed, live, has) =
      let (s, eq, c) = move_to-Changes st t th q placed live in
      (s, eq, (c.0, Changes-live st s t _ c, move_to-has_evt st s t q eq ∙ has))

  swap_out-Finds :
      (st : PseudoThreadState) (th : PThread) (k : Context)
      → Finds st t th b
      → (s : PseudoThreadState) × (swap_out st t k ≡ swaps s)
        × Finds s t (record th { head = some blocked_queue; ctx = k }) b
  unfolding swap_out
  swap_out-Finds st th k found =
      let (s, eq, (placed, live, has)) = move_to-Finds st th blocked_queue found in
      let c =
        store-Placed s t (some (record th { head = some blocked_queue; ctx = k })) placed
          (rw live refl) in
      (
        store s t (some (record th { head = some blocked_queue; ctx = k })),
        rw (eq, live, with_thread, swap_out) refl,
        (c.0, Changes-live s _ t _ c, has),
      )

  -- PT_unblock and fd_evt_cb leave the timed event.
  pt_unblock-Finds :
      (st : PseudoThreadState) (th : PThread)
      → Finds st t th b
      → (s : PseudoThreadState) × (pt_unblock st (some t) ≡ replies (pos 0) s)
        × (fd_evt_cb st (some t) ≡ some s)
        × Finds s t (record th { head = some ready_queue }) b
  unfolding pt_unblock fd_evt_cb
  pt_unblock-Finds st th found =
      let (s, eq, f) = move_to-Finds st th ready_queue found in
      (s, rw (eq, pt_unblock) refl, rw (eq, fd_evt_cb) refl, f)

  set_timer-Finds :
      (out : Outside) (st : PseudoThreadState) (th : PThread) (msecs : ℕ)
      → Finds st t th b
      → th.sched_evt ≡ none
      → (s : PseudoThreadState) × (set_timer out st t msecs ≡ some s)
        × Finds s t (record th { sched_evt = out.handle st.scheds }) b
  unfolding set_timer
  set_timer-Finds out st th msecs (placed, live, has) idle =
      let c =
        store-Placed st t (some (record th { sched_evt = out.handle st.scheds })) placed
          (rw live refl) in
      (
        with_timer out st t msecs th,
        rw (live, idle, with_thread, set_timer) refl,
        (
          Placed-same (store st t (some (record th { sched_evt = out.handle st.scheds }))) _ refl
              refl refl refl c.0,
          Changes-live st _ t _ c,
          has,
        ),
      )

  watch-Finds :
      (st : PseudoThreadState) (th : PThread) (fd : ℤ) (k : Context)
      → Finds st t th b
      → (s : PseudoThreadState) × (watch st t fd k ≡ swaps s)
        × Finds s t (record th { head = some blocked_queue; ctx = k }) b
  unfolding watch
  watch-Finds st th fd k (placed, live, has) =
      swap_out-Finds (record st { calls = called_fd_add fd t ∷ st.calls }) th k
        (Placed-same st _ refl refl refl refl placed, live, has)

  -- The timed event is removed, and the call is tried.
  tried-Finds :
      (st : PseudoThreadState) (th : PThread) (h : ℕ)
      → Finds st t th b
      → th.sched_evt ≡ some h
      → Finds
          (record (drop_timer st t th) { attempts = st.attempts + 1 })
          t
          (record th { sched_evt = none })
          b
  unfolding drop_timer
  tried-Finds st th h (placed, live, has) pending =
      let c = store-Placed st t (some (record th { sched_evt = none })) placed (rw live refl) in
      rw (pending, drop_timer)
        (
          Placed-same (store st t (some (record th { sched_evt = none }))) _ refl refl refl refl
              c.0,
          Changes-live st _ t _ c,
          has,
        )

  -- assert(self->sched_evt == NULL) fails.
  set_timer-pending :
      (out : Outside) (st : PseudoThreadState) (th : PThread) (msecs h : ℕ)
      → st.threads t ≡ some th
      → th.sched_evt ≡ some h
      → set_timer out st t msecs ≡ none
  unfolding set_timer
  set_timer-pending out st th msecs h live e = rw (live, e, with_thread, set_timer) refl

waits-run :
    (out : Outside) (st : PseudoThreadState) (t msecs : ℕ) (k : Context)
    → first st.curr ≡ some t
    → st.has_evt ≡ true
    → 0 < msecs
    → pt_wait out st msecs k
      ≡ (elim (set_timer out st t msecs) [ none ↦ faults | some s ↦ swap_out s t k ])
unfolding pt_wait
waits-run out st t msecs k current has positive = ground (arith, current, has)

module _ (out : Outside) (t : ℕ) (st : PseudoThreadState) (th : PThread) (k k' : Context)
    (msecs again h : ℕ) (placed : Placed st) (live : st.threads t ≡ some th)
    (idle : th.sched_evt ≡ none) (current : first st.curr ≡ some t) (has : st.has_evt ≡ true)
    (handle : out.handle st.scheds ≡ some h) (some_time : 0 < msecs) (more_time : 0 < again) where
  -- The current thread has no timed event and calls PT_wait with a time that is not 0, where the
  -- state has an event handler, EVT_sched_add returns a handle, and every thread is once in the
  -- queue that its `head` names and in no other. Then it is swapped out; PT_unblock of it
  -- succeeds; and once it is swapped in, its next PT_wait with a time that is not 0 stops at the
  -- assertion that it has no timed event.
  pub pt_wait-pt_unblock-pt_wait :
      (s s₁ s₂ : PseudoThreadState) × (pt_wait out st msecs k ≡ swaps s)
      × (pt_unblock s (some t) ≡ replies (pos 0) s₁)
      × (move_to s₁ t curr_queue ≡ some s₂)
      × (pt_wait out s₂ again k' ≡ faults)
  pt_wait-pt_unblock-pt_wait =
      let (m, eq₀, f₀) = set_timer-Finds t true out st th msecs (placed, live, has) idle in
      let (s, eq₁, f₁) = swap_out-Finds t true m _ k f₀ in
      let (s₁, eq₂, _, f₂) = pt_unblock-Finds t true s _ f₁ in
      let (s₂, eq₃, f₃) = move_to-Finds t true s₁ _ curr_queue f₂ in
      (
        s,
        s₁,
        s₂,
        waits-run out st t msecs k current has some_time ∙ rw (eq₀, eq₁) refl,
        eq₂,
        eq₃,
        waits-run out s₂ t again k' (move_to-first s₁ s₂ t eq₃) (f₃.2) more_time
            ∙ rw (set_timer-pending t true out s₂ _ again h (f₃.1) handle) refl,
      )

module _ (out : Outside) (t : ℕ) (st : PseudoThreadState) (th : PThread) (writing : Bool) (fd : ℤ)
    (timeout : ℕ) (k : Context) (live : st.threads t ≡ some th)
    (current : first st.curr ≡ some t) where
  tried-run :
      (h : ℕ)
      → th.sched_evt ≡ some h
      → out.io st.attempts writing fd ≡ would_block
      → pt_rw_woken out st writing fd timeout t k
        ≡ watch (record (drop_timer st t th) { attempts = st.attempts + 1 }) t fd k
  unfolding pt_rw_woken
  tried-run h pending blocks =
      simp
        (live, pending, blocks, current, (==_iff t t).1 refl, with_thread, timed_out, pt_rw_woken)
        refl

  late-run :
      th.sched_evt ≡ none
      → 0 < timeout
      → pt_rw_woken out st writing fd timeout t k ≡ replies (negsuc 1) st
  unfolding pt_rw_woken
  late-run idle timed =
      rw
        (
          live,
          idle,
          lt→ltb 0 timeout timed,
          current,
          (==_iff t t).1 refl,
          with_thread,
          timed_out,
          pt_rw_woken,
        )
        refl

module _ (out : Outside) (t : ℕ) (st : PseudoThreadState) (th : PThread) (writing : Bool) (fd : ℤ)
    (timeout h : ℕ) (k : Context) (placed : Placed st) (live : st.threads t ≡ some th)
    (pending : th.sched_evt ≡ some h) (timed : 0 < timeout)
    (blocks : out.io st.attempts writing fd ≡ would_block) (current : first st.curr ≡ some t) where
  -- In PT_read or PT_write with a timeout: the thread is woken while its timed event is pending,
  -- it is the current one, every thread is once in the queue that its `head` names and in no
  -- other, and the call gives EWOULDBLOCK. Then the thread is blocked again, and when fd_evt_cb
  -- makes it ready and it is swapped in, pt_rw_int returns -2, the value for a timeout, without
  -- another call.
  pub pt_rw_woken_again :
      (s s₁ s₂ : PseudoThreadState) × (pt_rw_woken out st writing fd timeout t k ≡ swaps s)
      × (fd_evt_cb s (some t) ≡ some s₁)
      × (move_to s₁ t curr_queue ≡ some s₂)
      × (pt_rw_woken out s₂ writing fd timeout t k ≡ replies (negsuc 1) s₂)
  pt_rw_woken_again =
      let (s, eq₁, f₁) =
        watch-Finds t st.has_evt (record (drop_timer st t th) { attempts = st.attempts + 1 }) _ fd k
          (tried-Finds t st.has_evt st th h (placed, live, refl) pending) in
      let (s₁, _, eq₂, f₂) = pt_unblock-Finds t st.has_evt s _ f₁ in
      let (s₂, eq₃, f₃) = move_to-Finds t st.has_evt s₁ _ curr_queue f₂ in
      (
        s,
        s₁,
        s₂,
        tried-run out t st th writing fd timeout k live current h pending blocks ∙ eq₁,
        eq₂,
        eq₃,
        late-run out t s₂ _ writing fd timeout k (f₃.1) (move_to-first s₁ s₂ t eq₃) refl timed,
      )

-- EVT's callbacks between two runs of PT_run_all.
module _ (st : PseudoThreadState) (t : ℕ) (th : PThread) (resting : Resting st)
    (live : st.threads t ≡ some th) where
  woken-Resting :
      (s : PseudoThreadState) (th' : PThread)
      → Changes st s t (some th')
      → on_curr (some th') ≡ false
      → Resting s
  unfolding Resting
  woken-Resting s th' c off = (
    c.0,
    Fresh-Changes st s t th (some th') c (resting.1) live,
    c.2 ∙ resting.2,
    λ i. elim (Bool-cases (i == t)) [
      | inl e ↦ ap on_curr (Changes-here st s t (some th') c i e) ∙ off
      | inr e ↦ ap on_curr (Changes-else st s t (some th') c i e) ∙ resting.3 i
    ],
  )

  -- Between two runs of PT_run_all, with the threads' invariant, fd_evt_cb and timed_evt_cb of a
  -- live thread succeed, whatever queue the thread is in: it is ready afterwards, timed_evt_cb has
  -- forgotten its timed event and fd_evt_cb has not, nothing else of it and no other thread
  -- changes, and the invariant is kept.
  pub evt_cb-Resting :
      (s s' : PseudoThreadState) × (fd_evt_cb st (some t) ≡ some s)
      × (timed_evt_cb st (some t) ≡ some s')
      × Resting s
      × Resting s'
      × Changes st s t (some (record th { head = some ready_queue }))
      × Changes st s' t (some (record th { head = some ready_queue; sched_evt = none }))
  unfolding fd_evt_cb timed_evt_cb Resting
  evt_cb-Resting =
      let (s, eq, c) = move_to-Changes st t th ready_queue (resting.0) live in
      let d =
        store-Placed st t (some (record th { sched_evt = none })) (resting.0) (rw live refl) in
      let (s', eq', c') =
        move_to-Changes (store st t (some (record th { sched_evt = none }))) t
          (record th { sched_evt = none }) ready_queue (d.0) (Changes-live st _ t _ d) in
      let e = Changes-again st _ s' t _ _ d c' in
      (
        s,
        s',
        rw (eq, fd_evt_cb) refl,
        rw (live, eq', with_thread, timed_evt_cb) refl,
        woken-Resting s _ c refl,
        woken-Resting s' _ e refl,
        c,
        e,
      )
