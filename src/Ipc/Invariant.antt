-- ===== src/Ipc/Invariant.antt =====
-- ipc.c: what a buffer's sizes say of its block.
use libproc.Prelude.{ℕ, ◌<◌, ◌≤◌, ◌≡◌, ◌^◌, Option, none, some, List, length, length-take, arith}
use libproc.Ipc.{IpcBuffer, stored_in, contents}

unfoldable pub IsBlock : ℕ → ℕ → Option (List ℕ) → Type 0
IsBlock alloc_len data_len none = data_len ≡ 0
IsBlock alloc_len data_len (some block) =
    (alloc_len ≡ length block) × (data_len ≤ alloc_len) × (1 ≤ alloc_len) × (alloc_len < 2 ^ 62)

-- `allocLen` is the size of the block, if there is one, and what is held fits.
unfoldable pub IsAllocated : IpcBuffer → Type 0
unfolding IsBlock
IsAllocated b = IsBlock b.alloc_len b.data_len b.memory

-- The block has room for what is held.
IsBlock-stored :
    (alloc_len data_len : ℕ) (memory : Option (List ℕ))
    → IsBlock alloc_len data_len memory
    → data_len ≤ length (stored_in memory)
unfolding IsBlock
IsBlock-stored a d none h = omega (arith, h)
IsBlock-stored a d (some block) h = omega (arith, h.0, h.1)

pub length-contents : (b : IpcBuffer) → IsAllocated b → length (contents b) ≡ b.data_len
unfolding IsAllocated
length-contents b ok = omega (
  arith,
  length-take b.data_len (stored_in b.memory),
  IsBlock-stored b.alloc_len b.data_len b.memory ok,
)
