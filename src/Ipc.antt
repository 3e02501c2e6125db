-- ===== src/Ipc.antt =====
-- ipc.c: the buffer that grows, ipc_append_buffer and ipc_process_buffer.
pub mod Append
pub mod Drain
pub mod Invariant
pub mod Stream
pub mod Write
use libproc.Prelude.{
  ℕ, zero, suc, ◌+◌, ◌-◌, ◌*◌, ◌^◌, ◌%◌, Bool, true, false, ◌||◌, ◌==◌, leb, Option, none, some,
  List, [], ◌∷◌, ◌++◌, length, take, drop, replicate, if◌then◌else◌,
}
use libproc.Prelude.Int.{ℤ, pos, negsuc}

-- struct IPCBuffer; `memory` has the bytes of the block that `data` points to.
pub record IpcBuffer : Type 0 where
  pub alloc_len : ℕ
  pub data_len : ℕ
  pub memory : Option (List ℕ)

-- ipc_alloc_buffer, with memory.
abbrev pub ipc_alloc_buffer : IpcBuffer
ipc_alloc_buffer = record { alloc_len = 0; data_len = 0; memory = none }

-- ipc_reset_buffer
abbrev pub ipc_reset_buffer : IpcBuffer → IpcBuffer
ipc_reset_buffer b = record b { data_len = 0 }

-- What a call returns with the buffer; or it has written past the block, or its loop has not ended.
pub data Call : Type 0 where
  gives : ℤ → IpcBuffer → Call
  overrun : Call
  unfinished : Call

-- `allocLen - dataLen`, as a size_t.
abbrev pub room : ℕ → ℕ → ℕ
room alloc_len data_len = (alloc_len + (2 ^ 64 - data_len)) % 2 ^ 64

-- The loop that doubles `allocLen`.
unfoldable pub doubled : ℕ → ℕ → ℕ → ℕ → Option ℕ
doubled zero len alloc_len data_len =
    if leb (room alloc_len data_len) len then none else some alloc_len
doubled (suc fuel) len alloc_len data_len =
    let rest = doubled fuel len (alloc_len * 2 % 2 ^ 64) data_len in
    if leb (room alloc_len data_len) len then rest else some alloc_len

-- The last test, and memcpy behind the first `data_len` bytes.
abbrev pub copied : IpcBuffer → List ℕ → List ℕ → Call
copied b block bytes =
    if leb (room b.alloc_len b.data_len) (length bytes)
    then gives (negsuc 0) b
    else if leb (b.data_len + length bytes) (length block)
    then gives (pos (length bytes)) (record b {
      data_len = b.data_len + length bytes;
      memory = some (take b.data_len block ++ bytes ++ drop (b.data_len + length bytes) block);
    })
    else overrun

-- realloc; what it leaves in the new bytes is zero here.
abbrev pub reallocated : ℕ → List ℕ → List ℕ
reallocated n block = take n block ++ replicate (n - length block) 0

abbrev pub after_doubling : IpcBuffer → List ℕ → List ℕ → Bool → Option ℕ → Call
after_doubling b block bytes realloc_ok none = unfinished
after_doubling b block bytes realloc_ok (some n) =
    if realloc_ok
    then copied (record b { alloc_len = n; memory = some (reallocated n block) })
        (reallocated n block) bytes
    else gives (negsuc 0) (record b { alloc_len = 0; memory = none })

-- Where there is a block.
unfoldable pub append_to : ℕ → IpcBuffer → List ℕ → List ℕ → Bool → Call
unfolding doubled
append_to fuel b block bytes realloc_ok =
    if leb (room b.alloc_len b.data_len) (length bytes)
    then after_doubling b block bytes realloc_ok
        (doubled fuel (length bytes) b.alloc_len b.data_len)
    else copied b block bytes

-- ipc_append_buffer, where the length is that of the bytes, and whether malloc and realloc succeed.
unfoldable pub ipc_append_buffer : ℕ → IpcBuffer → List ℕ → Bool → Bool → Call
unfolding append_to
ipc_append_buffer fuel b [] malloc_ok realloc_ok = gives (pos 0) b
ipc_append_buffer fuel b (c ∷ bytes) malloc_ok realloc_ok = elim b.memory [
  | none ↦
      if malloc_ok
      then append_to fuel (record b { alloc_len = 1024; memory = some (replicate 1024 0) })
          (replicate 1024 0) (c ∷ bytes) realloc_ok
      else gives (negsuc 0) (record b { alloc_len = 1024 })
  | some block ↦ append_to fuel b block (c ∷ bytes) realloc_ok
]

-- The bytes that the buffer holds.
abbrev pub stored_in : Option (List ℕ) → List ℕ
stored_in none = []
stored_in (some block) = block

abbrev pub contents : IpcBuffer → List ℕ
contents b = take b.data_len (stored_in b.memory)

-- The bytes that were not consumed are moved to the front.
abbrev pub shifted : IpcBuffer → ℕ → IpcBuffer
shifted b zero = b
shifted b (suc n) = if suc n == b.data_len then ipc_reset_buffer b else record b {
  data_len = b.data_len - suc n;
  memory = some (drop (suc n) (contents b) ++ drop (b.data_len - suc n) (stored_in b.memory));
}

abbrev pub is_null : Option (List ℕ) → Bool
is_null none = true
is_null (some block) = false

module _ {S : Type 0} where
  -- The loop of ipc_process_buffer: the callback's state, and the bytes consumed.
  unfoldable pub consumed : (S → List ℕ → S × ℕ) → ℕ → S → List ℕ → ℕ → Option (S × ℕ)
  consumed cb zero s text n = none
  consumed cb (suc fuel) s text n =
      let (s₁, len) = cb s (drop n text) in
      let rest = consumed cb fuel s₁ text (n + len) in if len == 0 then some (s₁, n) else rest

  -- ipc_process_buffer, with a callback; the count is the size_t that the code returns as an int.
  unfoldable pub ipc_process_buffer :
      (S → List ℕ → S × ℕ) → ℕ → S → IpcBuffer → Option (S × ℕ × IpcBuffer)
  unfolding consumed
  ipc_process_buffer cb fuel s b =
      if is_null b.memory || b.data_len == 0
      then some (s, 0, b)
      else elim (consumed cb fuel s (contents b) 0) [
        | none ↦ none
        | some (s₁, n) ↦ some (s₁, n, shifted b n)
      ]
