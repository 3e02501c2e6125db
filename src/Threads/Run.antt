-- ===== src/Threads/Run.antt =====
-- pseudo_threads.c: a thread from one swapcontext to the next, and PT_run_all.
use libproc.Prelude.{ℕ, zero, suc, Option, none, some, if◌then◌else◌, [], ◌∷◌}
use libproc.Prelude.Int.{ℤ, pos, negsuc}
use libproc.Threads.State.{
  Program, Context, PseudoThreadState, first, at_start, after_wait, in_transfer, not_saved,
  curr_queue, returns, blocks, waits, transfers, unblocks, creates, destroys, store, move_to,
}
use libproc.Threads.{
  Reply, swaps, replies, faults, Outside, with_thread, same_pointer, pt_unblock, pt_block, pt_wait,
  pt_rw_int, pt_rw_woken, pt_create, pt_destroy, tmain_wrapper, freed,
}

-- What follows a call that has returned.
abbrev pub go_on :
    Reply → (ℤ → PseudoThreadState → Option PseudoThreadState) → Option PseudoThreadState
go_on (swaps st) rest = some st
go_on (replies r st) rest = rest r st
go_on faults rest = none

-- By the result of pt_rw_int: a count, -1, or -2.
abbrev pub by_result {ℓ} : {A : Type ℓ} → ℤ → A → A → A → A
by_result (pos n) moves late fails = moves
by_result (negsuc zero) moves late fails = fails
by_result (negsuc (suc n)) moves late fails = late

unfoldable pub run_thread : Outside → ℕ → Program → PseudoThreadState → Option PseudoThreadState
unfolding pt_unblock pt_block pt_wait pt_rw_int pt_create pt_destroy tmain_wrapper
run_thread out t returns st = tmain_wrapper st t
run_thread out t (blocks arg p) st = go_on (pt_block st arg (at_start p)) (λ r. run_thread out t p)
run_thread out t (waits msecs p) st =
    go_on (pt_wait out st msecs (after_wait p)) (λ r. run_thread out t p)
run_thread out t (transfers w fd timeout moves late fails) st =
    go_on (pt_rw_int out st fd timeout (in_transfer w fd timeout moves late fails))
      (λ r. by_result r (run_thread out t moves) (run_thread out t late) (run_thread out t fails))
run_thread out t (unblocks arg p) st = go_on (pt_unblock st arg) (λ r. run_thread out t p)
run_thread out t (creates main p) st = elim (pt_create st main) [
  | none ↦ none
  | some s ↦ run_thread out t p s
]
run_thread out t (destroys arg p) st = go_on (pt_destroy st (some t) arg) (λ r. run_thread out t p)

-- swapcontext to a thread; PT_wait has assert(self == state.curr) behind it.
unfoldable pub swap_in : Outside → ℕ → Context → PseudoThreadState → Option PseudoThreadState
unfolding run_thread pt_rw_woken
swap_in out t (at_start p) st = run_thread out t p st
swap_in out t (after_wait p) st =
    if same_pointer (first st.curr) (some t) then run_thread out t p st else none
swap_in out t (in_transfer w fd timeout moves late fails) st =
    go_on (pt_rw_woken out st w fd timeout t (in_transfer w fd timeout moves late fails))
      (λ r. by_result r (run_thread out t moves) (run_thread out t late) (run_thread out t fails))
swap_in out t not_saved st = none

-- `if (state.goner)`
unfoldable pub bury : PseudoThreadState → PseudoThreadState
bury st = elim st.goner [ none ↦ st | some g ↦ record (freed st g) { goner = none } ]

-- How a turn of the loop ends: with a state, with a fault, or where assert(state.curr == NULL) fails.
pub data Turn : Type 0 where
  turned : PseudoThreadState → Turn
  broken : Turn
  still_current : Turn

abbrev pub checked : Option PseudoThreadState → Turn
checked none = broken
checked (some s) = elim s.curr [ [] ↦ turned (bury s) | (u ∷ l) ↦ still_current ]

-- One turn of the loop of PT_run_all.
unfoldable pub run_next : Outside → PseudoThreadState → ℕ → Turn
unfolding swap_in bury move_to
run_next out st t = elim (move_to st t curr_queue) [
  | none ↦ broken
  | some s ↦
      with_thread s t broken
        (λ th. checked (swap_in out t th.ctx (store s t (some (record th { ctx = not_saved })))))
]

pub data Outcome : Type 0 where
  ran : PseudoThreadState → Outcome
  faulted : Outcome
  assertion_failed : Outcome
  out_of_fuel : Outcome

abbrev pub after_turn : Turn → (PseudoThreadState → Outcome) → Outcome
after_turn (turned s) rest = rest s
after_turn broken rest = faulted
after_turn still_current rest = assertion_failed

-- PT_run_all
unfoldable pub pt_run_all : Outside → ℕ → PseudoThreadState → Outcome
unfolding run_next
pt_run_all out zero st = elim st.ready [ [] ↦ ran st | (t ∷ l) ↦ out_of_fuel ]
pt_run_all out (suc fuel) st = elim st.ready [
  | [] ↦ ran st
  | (t ∷ l) ↦ after_turn (run_next out st t) (pt_run_all out fuel)
]
