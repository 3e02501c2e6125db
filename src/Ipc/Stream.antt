-- ===== src/Ipc/Stream.antt =====
-- ipc.c: a client that appends to a buffer and processes it, in any order.
use libproc.Prelude.{
  ℕ, ◌+◌, ◌^◌, ◌-◌, ◌<◌, ◌≤◌, ◌≡◌, refl, sym, ◌∙◌, ap, true, Option, none, some, List, [], ◌∷◌,
  ◌++◌, length, take, drop, length-append, length-drop, append_assoc, append-nil, take-append-drop,
  arith,
}
use libproc.Prelude.Int.{ℤ}
use libproc.Ipc.{
  IpcBuffer, gives, overrun, unfinished, contents, ipc_append_buffer, ipc_process_buffer,
}
use libproc.Ipc.Invariant.{IsAllocated, length-contents}
use libproc.Ipc.Append.{IsAppended, ipc_append_buffer-contents}
use libproc.Ipc.Drain.{ipc_process_buffer-contents}

pub data Op : Type 0 where
  append : List ℕ → Op
  process : Op

unfoldable pub appended_bytes : List Op → List ℕ
appended_bytes [] = []
appended_bytes (append bytes ∷ ops) = bytes ++ appended_bytes ops
appended_bytes (process ∷ ops) = appended_bytes ops

module _ {S : Type 0} (cb : S → List ℕ → S × ℕ) where
  -- The calls one after the other: the bytes that were consumed, and the buffer that is left.
  unfoldable pub run : ℕ → S → IpcBuffer → List Op → Option (S × List ℕ × IpcBuffer)
  unfolding ipc_append_buffer ipc_process_buffer
  run fuel s b [] = some (s, [], b)
  run fuel s b (append bytes ∷ ops) = elim (ipc_append_buffer fuel b bytes true true) [
    | gives len b₁ ↦ run fuel s b₁ ops
    | overrun ↦ none
    | unfinished ↦ none
  ]
  run fuel s b (process ∷ ops) = elim (ipc_process_buffer cb fuel s b) [
    | none ↦ none
    | some (s₁, n, b₁) ↦ elim (run fuel s₁ b₁ ops) [
      | none ↦ none
      | some (s₂, taken, b₂) ↦ some (s₂, take n (contents b) ++ taken, b₂)
    ]
  ]

join_taken :
    (n : ℕ) (held taken left rest : List ℕ)
    → taken ++ left ≡ drop n held ++ rest
    → take n held ++ taken ++ left ≡ held ++ rest
join_taken n held taken left rest h =
    append_assoc (take n held) taken left
    ∙ ap (λ t. take n held ++ t) h
    ∙ sym (append_assoc (take n held) (drop n held) rest)
    ∙ ap (λ t. t ++ rest) (take-append-drop n held)

size_of :
    (b : IpcBuffer) (text : List ℕ) → IsAllocated b → contents b ≡ text → b.data_len ≡ length text
size_of b text ok held = sym (length-contents b ok) ∙ ap length held

module _ {S : Type 0} (cb : S → List ℕ → S × ℕ) where
  -- The calls end, and what was consumed and what is left are together the text.
  unfoldable pub RunsTo : List ℕ → ℕ → S → IpcBuffer → List Op → Type 0
  RunsTo text fuel s b ops =
      (s₁ : S) × (taken : List ℕ) × (b₁ : IpcBuffer) × (run cb fuel s b ops ≡ some (s₁, taken, b₁))
      × (taken ++ contents b₁ ≡ text)
      × IsAllocated b₁

  append_step :
      (fuel : ℕ) (s : S) (b b₁ : IpcBuffer) (len : ℤ) (bytes rest : List ℕ) (ops : List Op)
      → ipc_append_buffer fuel b bytes true true ≡ gives len b₁
      → contents b₁ ≡ contents b ++ bytes
      → RunsTo (contents b₁ ++ rest) fuel s b₁ ops
      → RunsTo (contents b ++ (bytes ++ rest)) fuel s b (append bytes ∷ ops)
  unfolding run RunsTo
  append_step fuel s b b₁ len bytes rest ops eq held (s₂, taken, b₂, eq₂, joined, ok) = (
    s₂,
    taken,
    b₂,
    rw (eq, run) eq₂,
    joined ∙ ap (λ t. t ++ rest) held ∙ append_assoc (contents b) bytes rest,
    ok,
  )

  process_step :
      (fuel : ℕ) (s s₁ : S) (b b₁ : IpcBuffer) (n : ℕ) (rest : List ℕ) (ops : List Op)
      → ipc_process_buffer cb fuel s b ≡ some (s₁, n, b₁)
      → contents b₁ ≡ drop n (contents b)
      → RunsTo (contents b₁ ++ rest) fuel s₁ b₁ ops
      → RunsTo (contents b ++ rest) fuel s b (process ∷ ops)
  unfolding run RunsTo
  process_step fuel s s₁ b b₁ n rest ops eq held (s₂, taken, b₂, eq₂, joined, ok) = (
    s₂,
    take n (contents b) ++ taken,
    b₂,
    rw (eq, eq₂, run) refl,
    join_taken n (contents b) taken (contents b₂) rest (joined ∙ ap (λ t. t ++ rest) held),
    ok,
  )

module _ {S : Type 0} (cb : S → List ℕ → S × ℕ)
    (within : (s : S) (text : List ℕ) → (cb s text).1 ≤ length text) where
  -- For a callback that never consumes more bytes than it is given, a buffer whose allocLen is the
  -- size of its block, and sizes below 2 ^ 61, with memory, and with fuel for the bytes that are
  -- held and the bytes to come: any sequence of calls of ipc_append_buffer and ipc_process_buffer
  -- ends without a write past the block, and what the callback consumed, in order, followed by
  -- what is left in the buffer, is what the buffer held followed by what was appended, in order.
  pub run-appended_bytes :
      (fuel : ℕ) (s : S) (b : IpcBuffer) (ops : List Op)
      → IsAllocated b
      → b.data_len + length (appended_bytes ops) < 2 ^ 61
      → b.data_len + length (appended_bytes ops) < fuel
      → RunsTo cb (contents b ++ appended_bytes ops) fuel s b ops
  unfolding run appended_bytes IsAppended RunsTo
  run-appended_bytes fuel s b [] ok sum enough = (s, [], b, refl, sym (append-nil (contents b)), ok)
  run-appended_bytes fuel s b (append bytes ∷ ops) ok sum enough =
      let rest = appended_bytes ops in
      let all = length-append bytes rest in
      let (b₁, eq, held, ok₁) =
        ipc_append_buffer-contents fuel b bytes ok (omega (arith, all)) (omega (arith, all)) in
      let size : b₁.data_len ≡ b.data_len + length bytes =
        size_of b₁ (contents b ++ bytes) ok₁ held
        ∙ omega (arith, length-append (contents b) bytes, length-contents b ok) in
      append_step cb fuel s b b₁ _ bytes rest ops eq held
        (run-appended_bytes fuel s b₁ ops ok₁ (omega (arith, size, all)) (omega (arith, size, all)))
  run-appended_bytes fuel s b (process ∷ ops) ok sum enough =
      let rest = appended_bytes ops in
      let (s₁, n, b₁, eq, le, held, ok₁) =
        ipc_process_buffer-contents cb within fuel s b ok (omega arith) in
      let size : b₁.data_len ≡ b.data_len - n =
        size_of b₁ (drop n (contents b)) ok₁ held
        ∙ omega (arith, length-drop n (contents b), length-contents b ok) in
      process_step cb fuel s s₁ b b₁ n rest ops eq held
        (run-appended_bytes fuel s₁ b₁ ops ok₁ (omega (arith, size)) (omega (arith, size)))
