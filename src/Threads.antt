-- ===== src/Threads.antt =====
-- pseudo_threads.c: the calls that threads and the event loop make. A call that ends in swapcontext
-- has its result before the swap; what follows the swap is a definition of its own.
pub mod State
pub mod Run
pub mod Queues
pub mod Weight
pub mod Invariant
pub mod Replies
pub mod Blocking
pub mod Lifetime
pub mod Create
pub mod Destroy
pub mod Runs
pub mod Wakes
use libproc.Prelude.{
  ℕ, suc, ◌+◌, Bool, true, false, not, ◌&&◌, ◌||◌, ◌==◌, ltb, Option, none, some, List, [], ◌∷◌,
  if◌then◌else◌,
}
use libproc.Prelude.Int.{ℤ, pos, negsuc, ltb_ℤ}
use State.{
  Program, Context, PtQueue, PThread, EventCall, PseudoThreadState, at_start, in_transfer,
  not_saved, curr_queue, ready_queue, blocked_queue, called_sched_add, called_sched_remove,
  called_fd_add, store, first, move_to, dequeue_thread, enqueue_thread,
}

-- How a call comes out: the thread is swapped out, it has a result, or the process has stopped at an
-- assertion or a pointer that it must not follow.
pub data Reply : Type 0 where
  swaps : PseudoThreadState → Reply
  replies : ℤ → PseudoThreadState → Reply
  faults : Reply

-- What read and write return: a count, -1 with EWOULDBLOCK, or -1 with another error.
pub data IoResult : Type 0 where
  moved : ℕ → IoResult
  would_block : IoResult
  failed : IoResult

-- The code that this file calls: the handle that the n-th EVT_sched_add returns, and what the n-th
-- call of read or write does on a descriptor.
pub record Outside : Type 0 where
  pub handle : ℕ → Option ℕ
  pub io : ℕ → Bool → ℤ → IoResult

-- To follow a pointer to a thread.
abbrev pub with_thread {ℓ} : {A : Type ℓ} → PseudoThreadState → ℕ → A → (PThread → A) → A
with_thread st t d f = elim (st.threads t) [ none ↦ d | some th ↦ f th ]

-- PT_unblock
unfoldable pub pt_unblock : PseudoThreadState → Option ℕ → Reply
unfolding move_to
pt_unblock st none = replies (negsuc 0) st
pt_unblock st (some t) = elim (move_to st t ready_queue) [
  | none ↦ faults
  | some s ↦ replies (pos 0) s
]

-- timed_evt_cb; it always returns EVENT_REMOVE.
unfoldable pub timed_evt_cb : PseudoThreadState → Option ℕ → Option PseudoThreadState
unfolding move_to
timed_evt_cb st none = some st
timed_evt_cb st (some t) =
    with_thread st t none
      (λ th. move_to (store st t (some (record th { sched_evt = none }))) t ready_queue)

-- fd_evt_cb; it always returns EVENT_REMOVE.
unfoldable pub fd_evt_cb : PseudoThreadState → Option ℕ → Option PseudoThreadState
unfolding move_to
fd_evt_cb st none = some st
fd_evt_cb st (some t) = move_to st t ready_queue

-- The thread goes to the blocked queue, and swapcontext saves what it will go on with.
unfoldable pub swap_out : PseudoThreadState → ℕ → Context → Reply
unfolding move_to
swap_out st t k = elim (move_to st t blocked_queue) [
  | none ↦ faults
  | some s ↦ with_thread s t faults (λ th. swaps (store s t (some (record th { ctx = k }))))
]

abbrev pub same_pointer : Option ℕ → Option ℕ → Bool
same_pointer none none = true
same_pointer none (some b) = false
same_pointer (some a) none = false
same_pointer (some a) (some b) = a == b

-- PT_block; enqueue_thread writes through its pointer, which is NULL where both are.
unfoldable pub pt_block : PseudoThreadState → Option ℕ → Context → Reply
unfolding swap_out
pt_block st arg k =
    if not (same_pointer arg (first st.curr))
    then replies (negsuc 0) st
    else elim arg [ none ↦ faults | some t ↦ swap_out st t k ]

-- EVT_sched_add for the thread.
abbrev pub with_timer : Outside → PseudoThreadState → ℕ → ℕ → PThread → PseudoThreadState
with_timer out st t msecs th =
    record (store st t (some (record th { sched_evt = out.handle st.scheds }))) {
      calls = called_sched_add (out.handle st.scheds) msecs t ∷ st.calls;
      scheds = st.scheds + 1;
    }

-- assert(self->sched_evt == NULL), and the new timed event.
unfoldable pub set_timer : Outside → PseudoThreadState → ℕ → ℕ → Option PseudoThreadState
set_timer out st t msecs =
    with_thread st t none
      (λ th. elim th.sched_evt [ some h ↦ none | none ↦ some (with_timer out st t msecs th) ])

-- EVT_sched_remove of a timed event that is pending.
unfoldable pub drop_timer : PseudoThreadState → ℕ → PThread → PseudoThreadState
drop_timer st t th = elim th.sched_evt [
  | none ↦ st
  | some h ↦ record (store st t (some (record th { sched_evt = none }))) {
    calls = called_sched_remove h ∷ st.calls;
  }
]

-- The head of the loop in pt_rw_int, which asks for EVENT_FD_READ for a write too.
unfoldable pub watch : PseudoThreadState → ℕ → ℤ → Context → Reply
unfolding swap_out
watch st t fd k = swap_out (record st { calls = called_fd_add fd t ∷ st.calls }) t k

-- pt_rw_int up to its first swapcontext.
unfoldable pub pt_rw_int : Outside → PseudoThreadState → ℤ → ℕ → Context → Reply
unfolding set_timer watch
pt_rw_int out st fd timeout k =
    if ltb_ℤ fd (pos 0) || not st.has_evt then replies (negsuc 0) st else elim (first st.curr) [
      | none ↦ replies (negsuc 0) st
      | some t ↦
          if ltb 0 timeout
          then elim (set_timer out st t timeout) [ none ↦ faults | some s ↦ watch s t fd k ]
          else watch st t fd k
    ]

abbrev pub timed_out : ℕ → PThread → Bool
timed_out timeout th = elim th.sched_evt [ none ↦ ltb 0 timeout | some h ↦ false ]

-- pt_rw_int after swapcontext: assert(state.curr == self), the test for a timeout, the call, and the
-- condition of the loop.
unfoldable pub pt_rw_woken : Outside → PseudoThreadState → Bool → ℤ → ℕ → ℕ → Context → Reply
unfolding drop_timer watch
pt_rw_woken out st writing fd timeout t k = with_thread st t faults (λ th.
    if not (same_pointer (first st.curr) (some t))
    then faults
    else if timed_out timeout th
    then replies (negsuc 1) st
    else let s = record (drop_timer st t th) { attempts = st.attempts + 1 } in
      elim (out.io st.attempts writing fd) [
        | moved n ↦ replies (pos n) s
        | would_block ↦ watch s t fd k
        | failed ↦ replies (negsuc 0) s
      ])

-- PT_wait
unfoldable pub pt_wait : Outside → PseudoThreadState → ℕ → Context → Reply
unfolding set_timer swap_out
pt_wait out st msecs k = if msecs == 0 then replies (pos 0) st else elim (first st.curr) [
  | none ↦ replies (pos 0) st
  | some t ↦
      if not st.has_evt
      then replies (pos 0) st
      else elim (set_timer out st t msecs) [ none ↦ faults | some s ↦ swap_out s t k ]
]

-- tmain_wrapper after the thread's function has returned.
unfoldable pub tmain_wrapper : PseudoThreadState → ℕ → Option PseudoThreadState
unfolding dequeue_thread drop_timer
tmain_wrapper st t = elim (dequeue_thread st t) [
  | none ↦ none
  | some s ↦ with_thread s t none (λ th. some (drop_timer (record s { goner = some t }) t th))
]

-- PT_create, where malloc returns memory; the handle is the address.
unfoldable pub pt_create : PseudoThreadState → Program → Option PseudoThreadState
unfolding enqueue_thread
pt_create st main =
    let t = st.next_thread in
    enqueue_thread
      (record (store st t (some (record { ctx = at_start main; head = none; sched_evt = none }))) {
        next_thread = suc t;
      })
      t ready_queue

abbrev pub freed : PseudoThreadState → ℕ → PseudoThreadState
freed st t = store st t none

-- PT_destroy, called by the thread `caller`, or outside of every thread. A thread whose stack is freed
-- under it goes on nowhere.
unfoldable pub pt_destroy : PseudoThreadState → Option ℕ → Option ℕ → Reply
unfolding dequeue_thread drop_timer
pt_destroy st caller none = replies (pos 0) st
pt_destroy st caller (some t) = with_thread st t faults (λ th.
    elim (dequeue_thread (drop_timer st t th) t) [
      | none ↦ faults
      | some s ↦
          if same_pointer (some t) (first st.curr)
          then swaps (record s { goner = some t })
          else if same_pointer (some t) caller
          then faults
          else replies (pos 0) (freed s t)
    ])
