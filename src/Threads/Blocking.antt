-- ===== src/Threads/Blocking.antt =====
-- pseudo_threads.c: PT_block, PT_wait, PT_read and PT_write, made by the thread that runs.
use libproc.Prelude.{
  ℕ, ◌+◌, ◌*◌, ◌≡◌, refl, sym, ap, inl, inr, Bool, true, false, not, ◌==◌, ◌||◌, ltb, Option, none,
  some, ◌∷◌, if◌then◌else◌, arith, ==_iff, if_intro,
}
use libproc.Prelude.Int.{ℤ, pos, negsuc, ltb_ℤ}
use libproc.Threads.State.{Context, PThread, PseudoThreadState, first, called_fd_add}
use libproc.Threads.Weight.{weight, context_size}
use libproc.Threads.Invariant.{Running, Running-Same, first-curr}
use libproc.Threads.Replies.{
  Good, faults-Good, swap_out-Good, set_timer-Running, drop_timer-Running,
}
use libproc.Threads.{
  Reply, replies, faults, Outside, IoResult, moved, would_block, failed, with_thread, same_pointer,
  timed_out, swap_out, set_timer, drop_timer, watch, pt_block, pt_wait, pt_rw_int, pt_rw_woken,
}

pub same_pointer-eq : (a b : Option ℕ) → same_pointer a b ≡ true → b ≡ a
same_pointer-eq none none h = refl
same_pointer-eq none (some b) h = absurd (cc h)
same_pointer-eq (some a) none h = absurd (cc h)
same_pointer-eq (some a) (some b) h = ap some (sym ((==_iff a b).0 h))

not-false : (b : Bool) → not b ≡ false → b ≡ true
not-false b h = ground arith

module _ (t : ℕ) (k : Context) (out : Outside) where
  -- A call that has not changed the state.
  stays-Good :
      (st : PseudoThreadState) (a : ℕ) (r : ℤ) → Running t st → Good t a (weight st) (replies r st)
  unfolding Good
  stays-Good st a r running = (running, omega arith)

  watch-Good :
      (st : PseudoThreadState) (fd : ℤ) (b : ℕ)
      → Running t st
      → Good t (weight st + 2 * context_size k) b (watch st t fd k)
  unfolding watch weight
  watch-Good st fd b running =
      swap_out-Good t (record st { calls = called_fd_add fd t ∷ st.calls })
        (Running-Same t st _ (refl, refl, refl, refl, refl) refl running) k b

  pub pt_block-Good :
      (st : PseudoThreadState) (arg : Option ℕ)
      → Running t st
      → Good t (weight st + 2 * context_size k) (weight st) (pt_block st arg k)
  unfolding pt_block
  pt_block-Good st none running =
      if_intro (Good t _ _) (not (same_pointer none (first st.curr)))
        (λ h. stays-Good st _ _ running) (λ h. faults-Good _ _ _)
  pt_block-Good st (some u) running =
      if_intro (Good t _ _) (not (same_pointer (some u) (first st.curr)))
        (λ h. stays-Good st _ _ running)
        (λ h.
          rw (first-curr t u st running (same_pointer-eq (some u) (first st.curr) (not-false _ h)))
            (swap_out-Good t st running k (weight st)))

  -- What follows set_timer, in the state that it leaves.
  timed-Good :
      (st : PseudoThreadState) (u msecs : ℕ) (f : PseudoThreadState → Reply)
      → u ≡ t
      → Running t st
      → ((s : PseudoThreadState)
          → Running t s
          → weight st ≡ weight s
          → Good t (weight st + 2 * context_size k) (weight st) (f s))
      → Good t
          (weight st + 2 * context_size k)
          (weight st)
          (elim (set_timer out st u msecs) [ none ↦ faults | some s ↦ f s ])
  timed-Good st u msecs f own running h = elim (set_timer-Running t st running out msecs) [
    | inl e ↦ rw (own, e) (faults-Good _ _ _)
    | inr (s, e, r, w) ↦ rw (own, e) (h s r (sym w))
  ]

  waits-Good :
      (st : PseudoThreadState) (msecs : ℕ) (o : Option ℕ)
      → Running t st
      → ((u : ℕ) → o ≡ some u → u ≡ t)
      → Good t (weight st + 2 * context_size k) (weight st) (elim o [
        | none ↦ replies (pos 0) st
        | some u ↦
            if not st.has_evt
            then replies (pos 0) st
            else elim (set_timer out st u msecs) [ none ↦ faults | some s ↦ swap_out s u k ]
      ])
  waits-Good st msecs none running own = stays-Good st _ _ running
  waits-Good st msecs (some u) running own =
      if_intro (Good t _ _) (not st.has_evt) (λ h. stays-Good st _ _ running)
        (λ h.
          timed-Good st u msecs (λ s. swap_out s u k) (own u refl) running
            (λ s r w. rw (w, own u refl) (swap_out-Good t s r k (weight s))))

  pub pt_wait-Good :
      (st : PseudoThreadState) (msecs : ℕ)
      → Running t st
      → Good t (weight st + 2 * context_size k) (weight st) (pt_wait out st msecs k)
  unfolding pt_wait
  pt_wait-Good st msecs running =
      if_intro (Good t _ _) (msecs == 0) (λ h. stays-Good st _ _ running)
        (λ h. waits-Good st msecs (first st.curr) running (λ u e. first-curr t u st running e))

  reads-Good :
      (st : PseudoThreadState) (fd : ℤ) (timeout : ℕ) (o : Option ℕ)
      → Running t st
      → ((u : ℕ) → o ≡ some u → u ≡ t)
      → Good t (weight st + 2 * context_size k) (weight st) (elim o [
        | none ↦ replies (negsuc 0) st
        | some u ↦
            if ltb 0 timeout
            then elim (set_timer out st u timeout) [ none ↦ faults | some s ↦ watch s u fd k ]
            else watch st u fd k
      ])
  reads-Good st fd timeout none running own = stays-Good st _ _ running
  reads-Good st fd timeout (some u) running own =
      if_intro (Good t _ _) (ltb 0 timeout)
        (λ h.
          timed-Good st u timeout (λ s. watch s u fd k) (own u refl) running
            (λ s r w. rw (w, own u refl) (watch-Good s fd (weight s) r)))
        (λ h. rw (own u refl) (watch-Good st fd (weight st) running))

  pub pt_rw_int-Good :
      (st : PseudoThreadState) (fd : ℤ) (timeout : ℕ)
      → Running t st
      → Good t (weight st + 2 * context_size k) (weight st) (pt_rw_int out st fd timeout k)
  unfolding pt_rw_int
  pt_rw_int-Good st fd timeout running =
      if_intro (Good t _ _) (ltb_ℤ fd (pos 0) || not st.has_evt) (λ h. stays-Good st _ _ running)
        (λ h. reads-Good st fd timeout (first st.curr) running (λ u e. first-curr t u st running e))

  result-Good :
      (st s : PseudoThreadState) (fd : ℤ) (r : IoResult)
      → Running t s
      → weight st ≡ weight s
      → Good t (weight st + 2 * context_size k) (weight st) (elim r [
        | moved n ↦ replies (pos n) s
        | would_block ↦ watch s t fd k
        | failed ↦ replies (negsuc 0) s
      ])
  result-Good st s fd (moved n) r w = rw w (stays-Good s _ _ r)
  result-Good st s fd would_block r w = rw w (watch-Good s fd (weight s) r)
  result-Good st s fd failed r w = rw w (stays-Good s _ _ r)

  woken-Good :
      (st : PseudoThreadState) (writing : Bool) (fd : ℤ) (timeout : ℕ) (th : PThread)
      → Running t st
      → st.threads t ≡ some th
      → Good t
          (weight st + 2 * context_size k)
          (weight st)
          (pt_rw_woken out st writing fd timeout t k)
  unfolding pt_rw_woken weight
  woken-Good st writing fd timeout th running live =
      let (r, w) = drop_timer-Running t st running t th live in
      rw (live, with_thread, pt_rw_woken)
        (if_intro (Good t _ _) (not (same_pointer (first st.curr) (some t)))
          (λ h. faults-Good _ _ _)
          (λ h.
            if_intro (Good t _ _) (timed_out timeout th) (λ h. stays-Good st _ _ running)
              (λ h.
                result-Good st (record (drop_timer st t th) { attempts = st.attempts + 1 }) fd
                  (out.io st.attempts writing fd)
                  (Running-Same t _ _ (refl, refl, refl, refl, refl) refl r) (sym w))))

  pub pt_rw_woken-Good :
      (st : PseudoThreadState) (writing : Bool) (fd : ℤ) (timeout : ℕ)
      → Running t st
      → Good t
          (weight st + 2 * context_size k)
          (weight st)
          (pt_rw_woken out st writing fd timeout t k)
  unfolding Running
  pt_rw_woken-Good st writing fd timeout running =
      woken-Good st writing fd timeout (running.4.0) running (running.4.1)
