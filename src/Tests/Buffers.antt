-- ===== src/Tests/Buffers.antt =====
-- A buffer of a running client, with a callback that consumes bytes by two.
use libproc.Prelude.{
  ℕ, ◌+◌, ◌≤◌, ◌≡◌, refl, true, false, some, List, [], ◌∷◌, length, replicate, length-replicate,
  arith,
}
use libproc.Prelude.Int.{pos, negsuc}
use libproc.Ipc.{IpcBuffer, gives, overrun, ipc_alloc_buffer, ipc_append_buffer}
use libproc.Ipc.Invariant.{IsBlock, IsAllocated}
use libproc.Ipc.Append.{ipc_append_buffer-no_memory}
use libproc.Ipc.Write.{
  takes, eagain, ipc_write_buffer_sync, Suffices, ipc_write_buffer_sync-contents,
}
use libproc.Ipc.Stream.{Op, append, process, appended_bytes, RunsTo, run-appended_bytes}

-- The state counts the calls.
by_two : ℕ → List ℕ → ℕ × ℕ
by_two s (x ∷ y ∷ text) = (s + 1, 2)
by_two s text = (s + 1, 0)

by_two-within : (s : ℕ) (text : List ℕ) → (by_two s text).1 ≤ length text
unfolding by_two
by_two-within s [] = omega arith
by_two-within s (x ∷ []) = omega arith
by_two-within s (x ∷ y ∷ text) = omega arith

ipc_alloc_buffer-IsAllocated : IsAllocated ipc_alloc_buffer
unfolding IsAllocated IsBlock
ipc_alloc_buffer-IsAllocated = refl

abbrev calls : List Op
calls = append (1 ∷ 2 ∷ 3 ∷ []) ∷ process ∷ append (4 ∷ []) ∷ process ∷ append (5 ∷ []) ∷ []

run-appended_bytes_example : RunsTo by_two (1 ∷ 2 ∷ 3 ∷ 4 ∷ 5 ∷ []) 9 0 ipc_alloc_buffer calls
unfolding appended_bytes
run-appended_bytes_example =
    run-appended_bytes by_two by_two-within 9 0 ipc_alloc_buffer calls ipc_alloc_buffer-IsAllocated
      (omega arith) (omega arith)

ipc_append_buffer-no_memory_example :
    (b : IpcBuffer) × (ipc_append_buffer 1600
        (record { alloc_len = 1500; data_len = 1500; memory = some (replicate 1500 7) })
        (1 ∷ [])
        true
        false
      ≡ gives (negsuc 0) b)
    × (ipc_append_buffer 1 b (2 ∷ []) true true ≡ overrun)
unfolding IsAllocated IsBlock
ipc_append_buffer-no_memory_example =
    ipc_append_buffer-no_memory 1600 1 1500 1500 1 2 (replicate 1500 7) [] [] true true
      (omega (arith, length-replicate {A = ℕ} 1500 7), omega arith, omega arith, omega arith)
      (omega arith) (omega arith) (omega arith) (omega arith) (omega arith)

-- A write of one byte, a full socket, and a write that takes the rest.
ipc_write_buffer_sync-contents_example :
    let r =
      ipc_write_buffer_sync
        (record { alloc_len = 4; data_len = 3; memory = some (7 ∷ 8 ∷ 9 ∷ 0 ∷ []) })
        (takes 1 ∷ eagain ∷ takes 2 ∷ []) in
    (r.result ≡ some (pos 0)) × (r.out ≡ 7 ∷ 8 ∷ 9 ∷ [])
unfolding IsAllocated IsBlock Suffices
ipc_write_buffer_sync-contents_example =
    ipc_write_buffer_sync-contents
      (record { alloc_len = 4; data_len = 3; memory = some (7 ∷ 8 ∷ 9 ∷ 0 ∷ []) })
      (takes 1 ∷ eagain ∷ takes 2 ∷ []) (refl, omega arith, omega arith, omega arith) refl
