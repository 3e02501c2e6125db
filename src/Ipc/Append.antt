-- ===== src/Ipc/Append.antt =====
-- ipc.c: ipc_append_buffer.
use libproc.Prelude.{
  ℕ, zero, suc, ◌+◌, ◌-◌, ◌*◌, ◌^◌, ◌%◌, ◌<◌, ◌≤◌, ◌≡◌, refl, sym, ◌∙◌, ap, inl, inr, Bool, true,
  false, Option, none, some, List, [], ◌∷◌, ◌++◌, length, take, drop, replicate, length-append,
  length-drop, length-take, length-replicate, take-append, append-nil, arith, Bool-cases, leb,
  leb→le,
}
use mathlib.Core.Path.{subst}
use libproc.Prelude.Int.{pos, negsuc}
use libproc.Ipc.Invariant.{IsBlock, IsAllocated}
use libproc.Ipc.{
  IpcBuffer, Call, gives, overrun, room, doubled, copied, reallocated, append_to, ipc_append_buffer,
  stored_in, contents,
}

leb→gt : (a b : ℕ) → leb a b ≡ false → b < a
leb→gt a b h = ground arith

le→leb : (a b : ℕ) → a ≤ b → leb a b ≡ true
le→leb a b h = ground arith

gt→leb : (a b : ℕ) → b < a → leb a b ≡ false
gt→leb a b h = ground arith

room_fits : (a d : ℕ) → d ≤ a → a < 2 ^ 62 → room a d ≡ a - d
room_fits a d le small = omega arith

doubled_ends :
    (fuel len a d : ℕ)
    → 1 ≤ a
    → d ≤ a
    → a < 2 ^ 62
    → d + len < 2 ^ 61
    → d + len < fuel + a
    → (n : ℕ) × (doubled fuel len a d ≡ some n) × (a ≤ n) × (d + len < n) × (n < 2 ^ 62)
unfolding doubled
doubled_ends zero len a d one le small sum enough = elim (Bool-cases (leb (room a d) len)) [
  | inl e ↦ absurd (omega (arith, room_fits a d le small, leb→le _ _ e))
  | inr e ↦ (a, rw e refl, omega arith, omega arith, small)
]
doubled_ends (suc fuel) len a d one le small sum enough = elim (Bool-cases (leb (room a d) len)) [
  | inl e ↦
      let h = leb→le (room a d) len e in
      let (n, eq, more, fits, below) =
        doubled_ends fuel len (a * 2 % 2 ^ 64) d (omega arith) (omega arith)
          (omega (arith, room_fits a d le small, h)) sum
          (omega (arith, room_fits a d le small, h)) in
      (n, rw e eq, omega (arith, room_fits a d le small, h), fits, below)
  | inr e ↦ (a, rw e refl, omega arith, omega (arith, room_fits a d le small, leb→gt _ _ e), small)
]

take-take-append :
    (d n : ℕ) (s t : List ℕ) → d ≤ length s → d ≤ n → take d (take n s ++ t) ≡ take d s
take-take-append zero n s t h k = refl
take-take-append (suc d) n [] t h k = absurd (omega arith)
take-take-append (suc d) zero (x ∷ s) t h k = absurd (omega arith)
take-take-append (suc d) (suc n) (x ∷ s) t h k =
    ap (λ r. x ∷ r) (take-take-append d n s t (omega arith) (omega arith))

length-reallocated : (n : ℕ) (s : List ℕ) → length s ≤ n → length (reallocated n s) ≡ n
length-reallocated n s h = omega (
  arith,
  length-append (take n s) (replicate (n - length s) 0),
  length-take n s,
  length-replicate {A = ℕ} (n - length s) 0,
)

-- The call has added the bytes behind the others.
unfoldable pub IsAppended : List ℕ → List ℕ → Call → Type 0
IsAppended held bytes call =
    (b : IpcBuffer) × (call ≡ gives (pos (length bytes)) b)
    × (contents b ≡ held ++ bytes)
    × IsAllocated b

copied-contents :
    (b : IpcBuffer) (block bytes : List ℕ)
    → b.alloc_len ≡ length block
    → b.data_len + length bytes < b.alloc_len
    → b.alloc_len < 2 ^ 62
    → IsAppended (take b.data_len block) bytes (copied b block bytes)
unfolding IsAppended IsAllocated IsBlock
copied-contents b block bytes whole fits small =
    let held = take b.data_len block in
    let rest = drop (b.data_len + length bytes) block in
    let sizes : (length held ≡ b.data_len) × (length (held ++ bytes) ≡ b.data_len + length bytes) =
      (
        omega (arith, length-take b.data_len block),
        omega (arith, length-take b.data_len block, length-append held bytes),
      ) in
    (
      record b { data_len = b.data_len + length bytes; memory = some (held ++ bytes ++ rest) },
      rw
          (
            gt→leb (room b.alloc_len b.data_len) (length bytes)
                (omega (arith, room_fits b.alloc_len b.data_len)),
            le→leb (b.data_len + length bytes) (length block) (omega arith),
          )
          refl,
      ap (λ k. take k (held ++ bytes ++ rest)) (sym sizes.1) ∙ take-append (held ++ bytes) rest,
      (
        omega (
          arith,
          sizes.1,
          length-append (held ++ bytes) rest,
          length-drop (b.data_len + length bytes) block,
        ),
        omega arith,
        omega arith,
        small,
      ),
    )

append_to_fits :
    (fuel : ℕ) (b : IpcBuffer) (block bytes : List ℕ) (realloc_ok : Bool)
    → leb (room b.alloc_len b.data_len) (length bytes) ≡ false
    → copied b block bytes ≡ append_to fuel b block bytes realloc_ok
unfolding append_to
append_to_fits fuel b block bytes realloc_ok e = rw e refl

append_to-contents :
    (fuel : ℕ) (b : IpcBuffer) (block bytes : List ℕ)
    → IsBlock b.alloc_len b.data_len (some block)
    → b.data_len + length bytes < 2 ^ 61
    → b.data_len + length bytes < fuel + b.alloc_len
    → IsAppended (take b.data_len block) bytes (append_to fuel b block bytes true)
unfolding IsBlock append_to
append_to-contents fuel b block bytes (whole, le, one, small) sum enough =
    elim (Bool-cases (leb (room b.alloc_len b.data_len) (length bytes))) [
      | inr e ↦
          subst (IsAppended (take b.data_len block) bytes)
            (append_to_fits fuel b block bytes true e)
            (copied-contents b block bytes whole
              (omega (arith, room_fits b.alloc_len b.data_len le small, leb→gt _ _ e)) small)
      | inl e ↦
          let (n, eq, more, fits, below) =
            doubled_ends fuel (length bytes) b.alloc_len b.data_len one le small sum enough in
          let r =
            copied-contents (record b { alloc_len = n; memory = some (reallocated n block) })
              (reallocated n block) bytes (sym (length-reallocated n block (omega arith))) fits
              below in
          rw (e, eq)
            (subst
              (λ t. IsAppended t bytes (
                copied (record b { alloc_len = n; memory = some (reallocated n block) })
                  (reallocated n block) bytes))
              (take-take-append b.data_len n block (replicate (n - length block) 0) (omega arith)
                (omega arith))
              r)
    ]

append_nonempty :
    (fuel a d : ℕ) (memory : Option (List ℕ)) (c : ℕ) (bytes : List ℕ)
    → IsBlock a d memory
    → d + length (c ∷ bytes) < 2 ^ 61
    → d + length (c ∷ bytes) < fuel
    → IsAppended (take d (stored_in memory)) (c ∷ bytes) (
        ipc_append_buffer fuel
          (record { alloc_len = a; data_len = d; memory = memory })
          (c ∷ bytes)
          true
          true)
unfolding IsBlock ipc_append_buffer
append_nonempty fuel a d (some block) c bytes ok sum enough =
    append_to-contents fuel (record { alloc_len = a; data_len = d; memory = some block }) block
      (c ∷ bytes) ok sum (omega arith)
append_nonempty fuel a d none c bytes ok sum enough =
    let fresh : IpcBuffer = record {
      alloc_len = 1024;
      data_len = 0;
      memory = some (replicate 1024 0);
    } in
    rw ok (
      append_to-contents fuel fresh (replicate 1024 0) (c ∷ bytes)
        (sym (length-replicate {A = ℕ} 1024 0), omega arith, omega arith, omega arith) (omega arith)
        (omega arith))

pub ipc_append_buffer-contents :
    (fuel : ℕ) (b : IpcBuffer) (bytes : List ℕ)
    → IsAllocated b
    → b.data_len + length bytes < 2 ^ 61
    → b.data_len + length bytes < fuel
    → IsAppended (contents b) bytes (ipc_append_buffer fuel b bytes true true)
unfolding IsAllocated IsBlock ipc_append_buffer IsAppended
ipc_append_buffer-contents fuel b [] ok sum enough = (b, refl, sym (append-nil (contents b)), ok)
ipc_append_buffer-contents fuel b (c ∷ bytes) ok sum enough =
    append_nonempty fuel b.alloc_len b.data_len b.memory c bytes ok sum enough

room_wraps : (d : ℕ) → 1024 < d → d < 2 ^ 61 → room 1024 d ≡ 2 ^ 64 + 1024 - d
room_wraps d big small = omega arith

append_to_overruns :
    (fuel d : ℕ) (bytes : List ℕ) (realloc_ok : Bool)
    → 1024 < d
    → d < 2 ^ 61
    → length bytes < 2 ^ 61
    → append_to fuel
        (record { alloc_len = 1024; data_len = d; memory = some (replicate 1024 0) })
        (replicate 1024 0)
        bytes
        realloc_ok
      ≡ overrun
unfolding append_to
append_to_overruns fuel d bytes realloc_ok big small short =
    rw
      (
        gt→leb (room 1024 d) (length bytes) (omega (arith, room_wraps d big small)),
        gt→leb (d + length bytes) (length (replicate {A = ℕ} 1024 0))
            (omega (arith, length-replicate {A = ℕ} 1024 0)),
      )
      refl

-- On a buffer with a block of allocLen bytes that has no room for the new bytes and holds more
-- than 1024, with sizes below 2 ^ 61 and with fuel for the bytes: where realloc fails,
-- ipc_append_buffer returns -1; and the next call with at least one byte, if malloc succeeds,
-- writes past its new block.
pub ipc_append_buffer-no_memory :
    (fuel next_fuel a d x y : ℕ) (block bytes more : List ℕ) (malloc_ok realloc_ok : Bool)
    → IsAllocated (record { alloc_len = a; data_len = d; memory = some block })
    → d + length (x ∷ bytes) < 2 ^ 61
    → d + length (x ∷ bytes) < fuel
    → a ≤ d + length (x ∷ bytes)
    → 1024 < d
    → length (y ∷ more) < 2 ^ 61
    → (b : IpcBuffer) × (ipc_append_buffer fuel
          (record { alloc_len = a; data_len = d; memory = some block })
          (x ∷ bytes)
          malloc_ok
          false
        ≡ gives (negsuc 0) b)
      × (ipc_append_buffer next_fuel b (y ∷ more) true realloc_ok ≡ overrun)
unfolding IsAllocated IsBlock ipc_append_buffer append_to
ipc_append_buffer-no_memory fuel next_fuel a d x y block bytes more malloc_ok realloc_ok
      (whole, le, one, small) sum enough full big short =
    let (n, eq, more_room, fits, below) =
      doubled_ends fuel (length (x ∷ bytes)) a d one le small sum (omega arith) in
    (
      record { alloc_len = 0; data_len = d; memory = none },
      rw (le→leb (room a d) (length (x ∷ bytes)) (omega (arith, room_fits a d le small)), eq) refl,
      append_to_overruns next_fuel d (y ∷ more) realloc_ok big (omega arith) short,
    )
