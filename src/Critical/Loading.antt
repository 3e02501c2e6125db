-- ===== src/Critical/Loading.antt =====
-- critical.c: process_critical_entry, the functions that load, and critical_state_init.
use libproc.Prelude.{
  ℕ, suc, Bool, true, false, not, ◌||◌, ◌==◌, ltb, Option, none, some, List, [], ◌∷◌, replicate,
  if◌then◌else◌,
}
use libproc.Xdr.{htonl}
use libproc.Critical.{
  CriticalEntry, Reads, end, short, broken, entry, CsFile, FileState, Current, CsState, same_bytes,
  summed, seq_num, cleaned_up,
}

-- The result of load_critical_state_file, if it is above 0.
abbrev pub above_zero : Current × Option Bool → Current × Bool
above_zero (c, none) = (c, false)
above_zero (c, some res) = (c, res)

module _ (digest : List ℕ → List ℕ) where
  -- process_critical_entry
  unfoldable pub process_critical_entry : Current → CriticalEntry → Current × Bool
  unfolding same_bytes htonl
  process_critical_entry c e =
      if not (same_bytes e.md5 (digest (summed e)))
      then (c, false)
      else if ltb (seq_num e) c.state_version
      then (c, false)
      else if seq_num e == c.state_version
      then (c, true)
      else (record { state_version = seq_num e; state = e.state; md5 = digest e.state }, true)

  -- The loop of load_critical_state_file: `none` is its negative result.
  unfoldable pub load_entries : Current → Reads → Bool → Current × Option Bool
  unfolding process_critical_entry
  load_entries c end res = (c, some res)
  load_entries c short res = (c, some res)
  load_entries c broken res = (c, none)
  load_entries c (entry e reads) res =
      let (c₁, taken) = process_critical_entry c e in load_entries c₁ reads (taken || res)

  -- load_critical_state_file: whether its result is above 0.
  abbrev pub load_critical_state_file : Current → CsFile → Current × Bool
  load_critical_state_file c f = elim f.content [
    | none ↦ (c, false)
    | some reads ↦ above_zero (load_entries c reads false)
  ]

  -- The loop of load_critical_state_directory, with `curr_file`.
  unfoldable pub load_files : Current → Option ℕ → List CsFile → Current × Option ℕ
  unfolding load_entries
  load_files c curr [] = (c, curr)
  load_files c curr (f ∷ fs) =
      let (c₁, loaded) = load_critical_state_file c f in
      load_files c₁ (if loaded then some f.path else curr) fs

  -- load_critical_state_directory, where the directory can be opened or not.
  unfoldable pub load_critical_state_directory : Current → FileState → Bool → Current × FileState
  unfolding load_files
  load_critical_state_directory c fs opens =
      if opens
      then (let (c₁, curr) = load_files c fs.curr_file fs.listing in
          (c₁, record fs { curr_file = curr }))
      else (c, fs)

  unfoldable pub load_directories : Current → List FileState → (ℕ → Bool) → Current × List FileState
  unfolding load_critical_state_directory
  load_directories c [] opens = (c, [])
  load_directories c (fs ∷ files) opens =
      let (c₁, fs₁) = load_critical_state_directory c fs (opens 0) in
      let (c₂, files₂) = load_directories c₁ files (λ i. opens (suc i)) in (c₂, fs₁ ∷ files₂)

  -- load_critical_state; it always returns 0.
  unfoldable pub load_critical_state : CsState → (ℕ → Bool) → CsState
  unfolding load_directories
  load_critical_state cs opens =
      let (c, files) =
        load_directories (record (cs.current) { state_version = 0 }) cs.files opens in
      record { current = c; dirty = false; files = files }

  -- critical_state_init, with memory for the two directories' names.
  unfoldable pub critical_state_init : List FileState → (ℕ → Bool) → (ℕ → Bool) → CsState
  unfolding load_critical_state cleaned_up
  critical_state_init files opens opens_again =
      let zeros = replicate 224 0 in
      let cs =
        load_critical_state
          (record {
            current = record { state_version = 0; state = zeros; md5 = replicate 16 0 };
            dirty = false;
            files = files;
          })
          opens in
      record cs { files = cleaned_up cs.files opens_again }
