-- ===== src/Critical/Atomic.antt =====
-- critical.c: PROC_save_critical_state, and what is loaded after it.
use libproc.Prelude.{
  ℕ, ◌+◌, ◌-◌, ◌%◌, ◌^◌, ◌<◌, ◌≤◌, ◌≡◌, refl, sym, ap, ◌∙◌, inl, inr, ◌⊎◌, Bool, true, false, ◌||◌,
  ◌==◌, ltb, List, ◌∷◌, ◌++◌, length, replicate, arith,
}
use mathlib.Core.Path.{subst}
use libproc.Prelude.Int.{pos, negsuc}
use libproc.Critical.{CriticalEntry, FileState, Current, CsState, Outcome, seq_num}
use libproc.Critical.Loading.{load_critical_state}
use libproc.Critical.Saving.{sealed_entry, save_entry, save_critical_state}
use libproc.Critical.Newest.{IsSealed, held}
use libproc.Critical.Stored.{EachStored, succeeds}
use libproc.Critical.Entry.{
  EachStored-map, OldOrNew, OldOrNew-le, IsBehind, Saves, save_entry-Saves, sealed_entry-IsSealed,
  sealed_entry-seq_num,
}

module _ (digest : List ℕ → List ℕ) where
  not_refused : (n : ℕ) → 1 ≤ n → n ≤ 224 → (ltb 224 n || n == 0) ≡ false
  not_refused n one short = ground arith

  module _ (fs : FileState) (files : List FileState) (c : Current) (dirty : Bool) (bytes : List ℕ)
      (outcomes : ℕ → Outcome) (opens : ℕ → Bool) (now : Current) where
    abbrev pub started_from : CsState
    started_from = record { current = c; dirty = dirty; files = fs ∷ files }

    -- What load_critical_state makes of the files, whatever is in memory.
    abbrev pub from_files : List FileState → Current
    from_files files =
        (load_critical_state digest (record { current = now; dirty = false; files = files })
          opens).current

    abbrev pub padded : List ℕ
    padded = bytes ++ replicate (224 - length bytes) 0

    abbrev entry_to_save : CriticalEntry
    entry_to_save = sealed_entry digest (c.state_version + 1) bytes

    saves_entry :
        c.state_version + 1 < 2 ^ 64
        → 1 ≤ length bytes
        → length bytes ≤ 224
        → save_entry digest started_from entry_to_save
            (c.state_version + 1)
            outcomes
            (pos (length bytes))
          ≡ save_critical_state digest started_from bytes outcomes
    unfolding save_critical_state
    saves_entry small one short =
        let same_version : (c.state_version + 1) % 2 ^ 64 ≡ c.state_version + 1 = omega arith in
        rw (not_refused (length bytes) one short, same_version) refl

    new_current :
        c.state_version + 1 < 2 ^ 64
        → held digest entry_to_save
          ≡ record { state_version = c.state_version + 1; state = padded; md5 = digest padded }
    new_current small =
        ap (λ n. record { state_version = n; state = padded; md5 = digest padded })
          (sealed_entry-seq_num digest (c.state_version + 1) bytes small)

    -- Where no sealed entry on disk is newer than the version in memory, which is below 2 ^ 64 -
    -- 1, for a state of 1 to 224 bytes, and where the first directory can be opened when the files
    -- are loaded again, into whatever memory: if the first file can be written,
    -- PROC_save_critical_state returns the length, and loading gives the new state, filled up with
    -- zeros, under the next version, whether or not the other files could be written; if it
    -- cannot, the call returns -3, and loading gives what it gave before. In both cases again no
    -- sealed entry is newer than the version in memory.
    pub save_critical_state-reload :
        IsBehind digest c.state_version (fs ∷ files)
        → c.state_version + 1 < 2 ^ 64
        → 1 ≤ length bytes
        → length bytes ≤ 224
        → opens 0 ≡ true
        → let r = save_critical_state digest started_from bytes outcomes in
          let new : Current = record {
            state_version = c.state_version + 1;
            state = padded;
            md5 = digest padded;
          } in
          (((succeeds (outcomes 0) ≡ true)
              × (r.0 ≡ pos (length bytes))
              × (r.1.current ≡ new)
              × (from_files r.1.files ≡ new))
            ⊎ ((succeeds (outcomes 0) ≡ false)
                × (r.0 ≡ negsuc 2)
                × (from_files r.1.files ≡ from_files (fs ∷ files))))
          × IsBehind digest r.1.current.state_version r.1.files
    unfolding IsBehind Saves
    save_critical_state-reload behind small one short first =
        let e = entry_to_save in
        let v = c.state_version in
        let good = sealed_entry-IsSealed digest (v + 1) bytes in
        let next = sealed_entry-seq_num digest (v + 1) bytes small in
        let r = save_critical_state digest started_from bytes outcomes in
        let old : EachStored (OldOrNew digest e v good next) (fs ∷ files) =
          EachStored-map (λ x. IsSealed digest x → seq_num x ≤ v) (OldOrNew digest e v good next)
            (fs ∷ files) (λ x h k. inl (h k)) behind in
        let saves : Saves digest e v good next fs files c dirty outcomes opens now
            (pos (length bytes)) old refl first r =
          subst
            (Saves digest e v good next fs files c dirty outcomes opens now (pos (length bytes)) old
              refl first)
            (saves_entry small one short)
            (save_entry-Saves digest e v good next fs files c dirty outcomes opens now
              (pos (length bytes)) old refl first) in
        let new = new_current small in
        (
          elim (saves.0) [
            | inl (ok, code, now, reloaded) ↦ inl (ok, code, now ∙ new, reloaded ∙ new)
            | inr failure ↦ inr failure
          ],
          subst (λ n. IsBehind digest n r.1.files) (sym (saves.2))
              (EachStored-map (OldOrNew digest e v good next)
                (λ x. IsSealed digest x → seq_num x ≤ v + 1) r.1.files
                (OldOrNew-le digest e v good next) (saves.1)),
        )
