-- ===== src/Tests/Coroutines.antt =====
-- Threads that wait, wake each other, and read.
use libproc.Prelude.{◌≡◌, ◌≤◌, refl, ap, true, false, Option, none, some, arith}
use libproc.Prelude.Int.{pos, negsuc}
use libproc.Threads.State.{
  Program, PThread, PseudoThreadState, pt_init, after_wait, in_transfer, returns, blocks, waits,
  unblocks, creates, curr_queue, ready_queue, first, store, move_to, dequeue_thread, enqueue_thread,
}
use libproc.Threads.Queues.{Placed, Changes, move_to-Changes, store-Placed}
use libproc.Threads.Weight.{weight, size, total}
use libproc.Threads.Invariant.{Resting}
use libproc.Threads.Create.{newborn, pt_init-Resting, pt_create-Resting}
use libproc.Threads.Run.{pt_run_all}
use libproc.Threads.Runs.{Settled, pt_run_all-Settled}
use libproc.Threads.Wakes.{evt_cb-Resting, pt_wait-pt_unblock-pt_wait, pt_rw_woken_again}
use libproc.Threads.{
  Outside, swaps, replies, faults, would_block, pt_create, pt_wait, pt_unblock, pt_rw_woken,
  fd_evt_cb, timed_evt_cb,
}

abbrev numbered : Outside
numbered = record { handle = λ n. some n; io = λ n writing fd. would_block }

abbrev unwrap : Option PseudoThreadState → PseudoThreadState
unwrap none = pt_init true
unwrap (some s) = s

abbrev sleeper : Program
sleeper = waits 5 (waits 7 returns)

abbrev waker : Program
waker = unblocks (some 0) (creates returns (blocks (some 1) returns))

abbrev one : PseudoThreadState
one = unwrap (pt_create (pt_init true) sleeper)

abbrev two : PseudoThreadState
two = unwrap (pt_create one waker)

one-Resting : Resting one × (weight one ≤ 1)
unfolding weight total size
one-Resting =
    let (s, eq, r, _, _, w) = pt_create-Resting (pt_init true) sleeper (pt_init-Resting true) in
    rw eq (r, omega (arith, w))

two-Resting : Resting two × (weight two ≤ 20)
unfolding size
two-Resting =
    let (s, eq, r, _, _, w) = pt_create-Resting one waker (one-Resting.0) in
    rw eq (r, omega (arith, w, one-Resting.1))

pt_run_all-Settled_example : Settled (pt_run_all numbered 20 two)
pt_run_all-Settled_example = pt_run_all-Settled numbered 20 two (two-Resting.0) (two-Resting.1)

abbrev sleeping : PThread
sleeping = record (newborn sleeper) { head = some ready_queue }

one-live : one.threads 0 ≡ some sleeping
unfolding pt_create enqueue_thread
one-live = refl

evt_cb-Resting_example :
    (s s' : PseudoThreadState) × (fd_evt_cb one (some 0) ≡ some s)
    × (timed_evt_cb one (some 0) ≡ some s')
    × Resting s
    × Resting s'
    × Changes one s 0 (some (record sleeping { head = some ready_queue }))
    × Changes one s' 0 (some (record sleeping { head = some ready_queue; sched_evt = none }))
evt_cb-Resting_example = evt_cb-Resting one 0 sleeping (one-Resting.0) one-live

-- The sleeper runs.
abbrev current : PseudoThreadState
current = unwrap (move_to one 0 curr_queue)

current-Placed : Placed current
unfolding Resting
current-Placed =
    let (s, eq, c) = move_to-Changes one 0 sleeping curr_queue (one-Resting.0.0) one-live in
    rw eq (c.0)

abbrev running : PThread
running = record sleeping { head = some curr_queue }

current-live :
    (current.threads 0 ≡ some running)
    × (first current.curr ≡ some 0)
    × (current.has_evt ≡ true)
    × (current.scheds ≡ 0)
unfolding pt_create enqueue_thread move_to dequeue_thread
current-live = (refl, refl, refl, refl)

pt_wait-pt_unblock-pt_wait_example :
    (s s₁ s₂ : PseudoThreadState) × (pt_wait numbered current 5 (after_wait (waits 7 returns))
      ≡ swaps s)
    × (pt_unblock s (some 0) ≡ replies (pos 0) s₁)
    × (move_to s₁ 0 curr_queue ≡ some s₂)
    × (pt_wait numbered s₂ 7 (after_wait returns) ≡ faults)
pt_wait-pt_unblock-pt_wait_example =
    pt_wait-pt_unblock-pt_wait numbered 0 current running (after_wait (waits 7 returns))
      (after_wait returns) 5 7 0 current-Placed (current-live.0) refl (current-live.1)
      (current-live.2) (ap some (current-live.3)) (omega arith) (omega arith)

-- The thread is woken by the descriptor, with its timed event pending.
abbrev pending : PThread
pending = record running { sched_evt = some 4 }

abbrev woken : PseudoThreadState
woken = store current 0 (some pending)

woken-Placed : Placed woken
woken-Placed = (store-Placed current 0 (some pending) current-Placed (rw (current-live.0) refl)).0

pt_rw_woken_again_example :
    let k = in_transfer false (pos 3) 9 returns returns returns in
    (s s₁ s₂ : PseudoThreadState) × (pt_rw_woken numbered woken false (pos 3) 9 0 k ≡ swaps s)
    × (fd_evt_cb s (some 0) ≡ some s₁)
    × (move_to s₁ 0 curr_queue ≡ some s₂)
    × (pt_rw_woken numbered s₂ false (pos 3) 9 0 k ≡ replies (negsuc 1) s₂)
pt_rw_woken_again_example =
    pt_rw_woken_again numbered 0 woken pending false (pos 3) 9 4
      (in_transfer false (pos 3) 9 returns returns returns) woken-Placed refl refl (omega arith)
      refl (current-live.1)
