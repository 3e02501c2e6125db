-- ===== src/Ipc/Write.antt =====
-- ipc.c: ipc_write_buffer_sync.
use libproc.Prelude.{
  ℕ, zero, suc, ◌-◌, ◌≡◌, ◌↔◌, refl, sym, ◌∙◌, ap, inl, inr, true, ◌||◌, ◌==◌, Option, none, some,
  List, [], ◌∷◌, ◌++◌, length, take, drop, length-drop, append_assoc, take-append-drop,
  if◌then◌else◌, arith, Bool-cases, ==_iff, append-nil,
}
use libproc.Prelude.Int.{ℤ, pos, negsuc}
use libproc.Ipc.{IpcBuffer, contents, stored_in, is_null}
use libproc.Ipc.Invariant.{IsAllocated, length-contents}

-- What a call of write does: it takes at most so many bytes, or it fails with EAGAIN or otherwise.
pub data WriteResult : Type 0 where
  takes : ℕ → WriteResult
  eagain : WriteResult
  fails : WriteResult

-- What the call returns, or that it has not ended, with the bytes that the file has got.
pub record Written : Type 0 where
  pub result : Option ℤ
  pub out : List ℕ

abbrev pub behind : List ℕ → Written → Written
behind bytes r = record r { out = bytes ++ r.out }

-- The loop, with the bytes that are not sent yet.
unfoldable pub send_rest : List ℕ → List WriteResult → Written
send_rest [] results = record { result = some (pos 0); out = [] }
send_rest (x ∷ text) [] = record { result = none; out = [] }
send_rest (x ∷ text) (takes n ∷ results) =
    behind (take n (x ∷ text)) (send_rest (drop n (x ∷ text)) results)
send_rest (x ∷ text) (eagain ∷ results) = send_rest (x ∷ text) results
send_rest (x ∷ text) (fails ∷ results) = record { result = some (negsuc 0); out = [] }

-- ipc_write_buffer_sync
unfoldable pub ipc_write_buffer_sync : IpcBuffer → List WriteResult → Written
unfolding send_rest
ipc_write_buffer_sync b results =
    if is_null b.memory || b.data_len == 0
    then record { result = some (pos 0); out = [] }
    else send_rest (contents b) results

-- What the file has got is the text up to some position, and all of it exactly if the call returns 0.
IsPrefix : List ℕ → Written → Type 0
IsPrefix text r =
    (rest : List ℕ) × (r.out ++ rest ≡ text) × ((r.result ≡ some (pos 0)) ↔ (rest ≡ []))

behind-IsPrefix :
    (n : ℕ) (text : List ℕ) (r : Written)
    → IsPrefix (drop n text) r
    → IsPrefix text (behind (take n text) r)
unfolding IsPrefix
behind-IsPrefix n text r (rest, eq, all) = (
  rest,
  append_assoc (take n text) r.out rest ∙ ap (λ t. take n text ++ t) eq ∙ take-append-drop n text,
  all,
)

send_rest-IsPrefix :
    (text : List ℕ) (results : List WriteResult) → IsPrefix text (send_rest text results)
unfolding send_rest IsPrefix
send_rest-IsPrefix [] results = ([], refl, (λ h. refl, λ h. refl))
send_rest-IsPrefix (x ∷ text) [] = (x ∷ text, refl, (λ h. ground arith, λ h. ground arith))
send_rest-IsPrefix (x ∷ text) (takes n ∷ results) =
    behind-IsPrefix n (x ∷ text) (send_rest (drop n (x ∷ text)) results)
      (send_rest-IsPrefix (drop n (x ∷ text)) results)
send_rest-IsPrefix (x ∷ text) (eagain ∷ results) = send_rest-IsPrefix (x ∷ text) results
send_rest-IsPrefix (x ∷ text) (fails ∷ results) =
    (x ∷ text, refl, (λ h. ground arith, λ h. ground arith))

-- No call fails but with EAGAIN, and together they take at least so many bytes.
unfoldable pub Suffices : ℕ → List WriteResult → Type 0
Suffices size [] = size ≡ 0
Suffices size (takes n ∷ results) = Suffices (size - n) results
Suffices size (eagain ∷ results) = Suffices size results
Suffices size (fails ∷ results) = size ≡ 0

send_rest_ends :
    (text : List ℕ) (results : List WriteResult)
    → Suffices (length text) results
    → (send_rest text results).result ≡ some (pos 0)
unfolding send_rest Suffices
send_rest_ends [] results h = refl
send_rest_ends (x ∷ text) [] h = absurd (omega (arith, h))
send_rest_ends (x ∷ text) (takes n ∷ results) h =
    send_rest_ends (drop n (x ∷ text)) results (rw (length-drop n (x ∷ text)) h)
send_rest_ends (x ∷ text) (eagain ∷ results) h = send_rest_ends (x ∷ text) results h
send_rest_ends (x ∷ text) (fails ∷ results) h = absurd (omega (arith, h))

none_held :
    (size : ℕ) (memory : Option (List ℕ))
    → (is_null memory || size == 0) ≡ true
    → take size (stored_in memory) ≡ []
none_held zero none e = refl
none_held (suc n) none e = refl
none_held zero (some block) e = refl
none_held (suc n) (some block) e = absurd (omega (arith, (==_iff (suc n) 0).0 e))

-- On a buffer whose allocLen is the size of its block, or that has no block and no bytes: where
-- the calls of write fail, before all is sent, only with EAGAIN, and together take as many bytes
-- as are held, ipc_write_buffer_sync returns 0, and the file has got the bytes that are held, in
-- their order and no others.
pub ipc_write_buffer_sync-contents :
    (b : IpcBuffer) (results : List WriteResult)
    → IsAllocated b
    → Suffices b.data_len results
    → ((ipc_write_buffer_sync b results).result ≡ some (pos 0))
      × ((ipc_write_buffer_sync b results).out ≡ contents b)
unfolding ipc_write_buffer_sync IsPrefix
ipc_write_buffer_sync-contents b results ok enough =
    elim (Bool-cases (is_null b.memory || b.data_len == 0)) [
      | inl e ↦ rw e (refl, sym (none_held b.data_len b.memory e))
      | inr e ↦
          let ends = send_rest_ends (contents b) results (rw (length-contents b ok) enough) in
          let (rest, eq, all) = send_rest-IsPrefix (contents b) results in
          rw e (
            ends,
            sym (append-nil _)
                ∙ ap (λ t. (send_rest (contents b) results).out ++ t) (sym (all.0 ends))
                ∙ eq,
          )
    ]
