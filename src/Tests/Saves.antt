-- ===== src/Tests/Saves.antt =====
-- A process that has saved one state, saves another one, and reads it; the checksum is a sum.
use libproc.Prelude.{
  ℕ, zero, suc, ◌+◌, ◌%◌, ◌≤◌, ◌<◌, ◌≡◌, refl, true, false, ◌⊎◌, none, some, List, [], ◌∷◌, ◌++◌,
  replicate, Bool, arith,
}
use libproc.Prelude.Int.{pos, negsuc}
use libproc.Critical.{Current, CsState, FileState, Outcome, CriticalEntry, end, entry, seq_num}
use libproc.Critical.Loading.{load_critical_state, critical_state_init}
use libproc.Critical.Saving.{gives, sealed_entry, save_critical_state, read_critical_state}
use libproc.Critical.Newest.{
  Any, Each, IsSealed, held, readable, file_entries, stored_entries, SameListings,
  load_critical_state-newest,
}
use libproc.Critical.Stored.{succeeds}
use libproc.Critical.Entry.{IsBehind}
use libproc.Critical.Atomic.{save_critical_state-reload}
use libproc.Critical.Recover.{read-save_critical_state}
use libproc.Critical.Start.{critical_state_init-IsBehind}

total : List ℕ → ℕ
total [] = 0
total (b ∷ s) = b + total s

digest : List ℕ → List ℕ
digest s = total s % 256 ∷ []

abbrev old : CriticalEntry
old = sealed_entry digest 1 (7 ∷ [])

abbrev first_family : FileState
first_family = record {
  curr_file = some 10;
  generation = 6;
  listing = record { path = 10; content = some (entry old end) } ∷ [];
}

abbrev second_family : FileState
second_family = record { curr_file = none; generation = 0; listing = [] }

abbrev now : Current
now = record { state_version = 1; state = 7 ∷ replicate 223 0; md5 = 7 ∷ [] }

abbrev zeros : Current
zeros = record { state_version = 0; state = replicate 224 0; md5 = replicate 16 0 }

-- The second write fails.
abbrev outcomes : ℕ → Outcome
outcomes zero = record { created = some 11; place = 1; written = true; opens = true }
outcomes (suc i) = record { created = none; place = 0; written = true; opens = true }

abbrev opens : ℕ → Bool
opens i = true

old-IsBehind : IsBehind digest 1 (first_family ∷ second_family ∷ [])
unfolding IsBehind Each file_entries readable
old-IsBehind = (((λ h. omega arith, tt), tt), (tt, tt))

load_critical_state-newest_example :
    let cs : CsState = record {
      current = zeros;
      dirty = true;
      files = first_family ∷ second_family ∷ [];
    } in
    let r = load_critical_state digest cs opens in
    let entries = stored_entries (first_family ∷ second_family ∷ []) opens in
    Each (λ e. IsSealed digest e → seq_num e ≤ r.current.state_version) entries
    × ((r.current ≡ zeros)
        ⊎ Any (λ e. IsSealed digest e × (0 < seq_num e) × (r.current ≡ held digest e)) entries)
    × SameListings r.files (first_family ∷ second_family ∷ [])
    × (r.dirty ≡ false)
load_critical_state-newest_example =
    load_critical_state-newest digest
      (record { current = zeros; dirty = true; files = first_family ∷ second_family ∷ [] }) opens

critical_state_init-IsBehind_example :
    let r = critical_state_init digest (first_family ∷ second_family ∷ []) opens opens in
    IsBehind digest r.current.state_version r.files
critical_state_init-IsBehind_example =
    critical_state_init-IsBehind digest (first_family ∷ second_family ∷ []) opens opens (λ i. refl)

save_critical_state-reload_example :
    let cs : CsState = record {
      current = now;
      dirty = false;
      files = first_family ∷ second_family ∷ [];
    } in
    let r = save_critical_state digest cs (8 ∷ 9 ∷ []) outcomes in
    let new : Current = record {
      state_version = 2;
      state = (8 ∷ 9 ∷ []) ++ replicate 222 0;
      md5 = digest ((8 ∷ 9 ∷ []) ++ replicate 222 0);
    } in
    let from = λ (files : List FileState).
      (load_critical_state digest
        (record { current = zeros; dirty = false; files = files })
        opens).current in
    (((succeeds (outcomes 0) ≡ true) × (r.0 ≡ pos 2) × (r.1.current ≡ new) × (from r.1.files ≡ new))
      ⊎ ((succeeds (outcomes 0) ≡ false)
          × (r.0 ≡ negsuc 2)
          × (from r.1.files ≡ from (first_family ∷ second_family ∷ []))))
    × IsBehind digest r.1.current.state_version r.1.files
save_critical_state-reload_example =
    save_critical_state-reload digest first_family (second_family ∷ []) now false (8 ∷ 9 ∷ [])
      outcomes opens zeros old-IsBehind (omega arith) (omega arith) (omega arith) refl

read-save_critical_state_example :
    let cs : CsState = record {
      current = now;
      dirty = false;
      files = first_family ∷ second_family ∷ [];
    } in
    let saved = (save_critical_state digest cs (8 ∷ 9 ∷ []) outcomes).1 in
    let changed = record saved { current = record (saved.current) { state = 1 ∷ [] } } in
    (read_critical_state digest changed (pos 2) opens opens).0 ≡ gives (pos 2) (8 ∷ 9 ∷ [])
unfolding digest total
read-save_critical_state_example =
    read-save_critical_state digest first_family (second_family ∷ []) now false (8 ∷ 9 ∷ [])
      outcomes opens (1 ∷ []) 2 old-IsBehind (omega arith) (omega arith) (omega arith) refl refl
      (λ h. ground arith)
