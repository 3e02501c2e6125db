-- ===== src/Critical/Recover.antt =====
-- critical.c: what PROC_read_critical_state gives after a save, when the memory may have changed.
use libproc.Prelude.{
  ℕ, ◌+◌, ◌^◌, ◌<◌, ◌≤◌, ◌≡◌, refl, sym, ap, ◌∙◌, inl, inr, Bool, true, false, List, [], ◌∷◌, ◌++◌,
  replicate, ◌-◌, length, arith, Bool-cases, take, ltb, if◌then◌else◌, length-append,
  length-replicate, take-length,
}
use libproc.Prelude.Int.{ℤ, pos}
use libproc.Critical.{Current, CsState, FileState, Outcome, same_bytes}
use libproc.Critical.Loading.{load_critical_state}
use libproc.Critical.Saving.{
  ReadResult, gives, copied_out, if_intact, save_critical_state, read_critical_state,
}
use libproc.Critical.Stored.{succeeds}
use libproc.Critical.Entry.{same_bytes_refl, IsBehind}
use libproc.Critical.Atomic.{save_critical_state-reload}

same_bytes-eq : (s t : List ℕ) → same_bytes s t ≡ true → s ≡ t
unfolding same_bytes
same_bytes-eq [] [] h = refl
same_bytes-eq [] (b ∷ t) h = cc
same_bytes-eq (a ∷ s) [] h = cc
same_bytes-eq (a ∷ s) (b ∷ t) h = ground (arith, same_bytes-eq s t)

padded_whole :
    (bytes : List ℕ)
    → length bytes ≤ 224
    → let text = bytes ++ replicate (224 - length bytes) 0 in take 224 text ≡ text
padded_whole bytes short =
    let text = bytes ++ replicate (224 - length bytes) 0 in
    let size : 224 ≡ length text = omega (
      arith,
      length-append bytes (replicate (224 - length bytes) 0),
      length-replicate {A = ℕ} (224 - length bytes) 0,
    ) in
    ap (λ n. take n text) size ∙ take-length text

not_both : true ≡ false → ⊥
not_both h = cc

module _ (digest : List ℕ → List ℕ) where
  intact :
      (cs : CsState) (len : ℤ) (other : ReadResult × CsState) (good : Current)
      → good.md5 ≡ digest good.state
      → cs.current ≡ good
      → (if_intact digest cs len other).0 ≡ copied_out len good.state
  intact cs len other good sum eq =
      let test : same_bytes (digest cs.current.state) cs.current.md5 ≡ true =
        ap (λ c. same_bytes (digest c.state) c.md5) eq
        ∙ ap (λ t. same_bytes (digest good.state) t) sum
        ∙ same_bytes_refl (digest good.state) in
      rw test (ap (λ c. copied_out len c.state) eq)

  module _ (c good : Current) (files : List FileState) (len : ℤ) (opens : ℕ → Bool)
      (sum : good.md5 ≡ digest good.state)
      (loaded : (load_critical_state digest
          (record { current = c; dirty = false; files = files })
          opens).current
        ≡ good) where
    abbrev memory : Bool → CsState
    memory dirty = record { current = c; dirty = dirty; files = files }

    loaded_dirty : (load_critical_state digest (memory true) opens).current ≡ good
    unfolding load_critical_state
    loaded_dirty = loaded

    read_dirty :
        (again : ℕ → Bool)
        → (read_critical_state digest (memory true) len opens again).0 ≡ copied_out len good.state
    unfolding read_critical_state
    read_dirty again =
        intact (load_critical_state digest (memory true) opens) len _ good sum loaded_dirty

    read_clean :
        (unused : ℕ → Bool)
        → c.md5 ≡ good.md5
        → (digest c.state ≡ digest good.state → c.state ≡ good.state)
        → (read_critical_state digest (memory false) len unused opens).0 ≡ copied_out len good.state
    unfolding read_critical_state
    read_clean unused md5 differs = elim (Bool-cases (same_bytes (digest c.state) c.md5)) [
      | inl right ↦
          rw right
            (ap (copied_out len) (differs (same_bytes-eq (digest c.state) c.md5 right ∙ md5 ∙ sum)))
      | inr wrong ↦
          rw wrong (intact (load_critical_state digest (memory false) opens) len _ good sum loaded)
    ]

    read_either :
        (dirty : Bool)
        → c.md5 ≡ good.md5
        → (digest c.state ≡ digest good.state → c.state ≡ good.state)
        → (read_critical_state digest (memory dirty) len opens opens).0 ≡ copied_out len good.state
    read_either true md5 differs = read_dirty opens
    read_either false md5 differs = read_clean opens md5 differs

  -- After a save of 1 to 224 bytes whose first file could be written, under the conditions of that
  -- save, and where the first directory can be opened: whatever bytes have replaced the state in
  -- memory, if their checksum differs from the saved state's, or they are that state,
  -- PROC_read_critical_state with a length that is not negative gives the saved state, filled up
  -- with zeros to 224 bytes: all of it if more than 224 bytes were asked for, and otherwise the
  -- first ones, as many as were asked for.
  pub read-save_critical_state :
      (fs : FileState) (files : List FileState) (c : Current) (dirty : Bool) (bytes : List ℕ)
      (outcomes : ℕ → Outcome) (opens : ℕ → Bool) (memory : List ℕ) (len : ℕ)
      → IsBehind digest c.state_version (fs ∷ files)
      → c.state_version + 1 < 2 ^ 64
      → 1 ≤ length bytes
      → length bytes ≤ 224
      → opens 0 ≡ true
      → succeeds (outcomes 0) ≡ true
      → (digest memory ≡ digest (bytes ++ replicate (224 - length bytes) 0)
          → memory ≡ bytes ++ replicate (224 - length bytes) 0)
      → let cs : CsState = record { current = c; dirty = dirty; files = fs ∷ files } in
        let saved = (save_critical_state digest cs bytes outcomes).1 in
        let changed = record saved { current = record (saved.current) { state = memory } } in
        let text = bytes ++ replicate (224 - length bytes) 0 in
        (read_critical_state digest changed (pos len) opens opens).0
        ≡ (if ltb 224 len then gives (pos 224) text else gives (pos len) (take len text))
  read-save_critical_state fs files c dirty bytes outcomes opens memory len behind small one short
        first ok differs =
      let cs : CsState = record { current = c; dirty = dirty; files = fs ∷ files } in
      let saved = (save_critical_state digest cs bytes outcomes).1 in
      let changed = record (saved.current) { state = memory } in
      let text = bytes ++ replicate (224 - length bytes) 0 in
      let good : Current = record {
        state_version = c.state_version + 1;
        state = text;
        md5 = digest text;
      } in
      let (either, behind') =
        save_critical_state-reload digest fs files c dirty bytes outcomes opens changed behind small
          one short first in
      elim either [
        | inl (yes_ok, code, now, reloaded) ↦
            read_either changed good saved.files (pos len) opens refl reloaded saved.dirty
              (ap (λ k. k.md5) now) differs
            ∙ ap
                (λ all.
                  if ltb 224 len then gives (pos 224) all else gives (pos len) (take len text))
                (padded_whole bytes short)
        | inr (no_ok, code, reloaded) ↦ absurd (not_both (sym ok ∙ no_ok))
      ]
