-- ===== src/Critical/Saving.antt =====
-- critical.c: PROC_save_critical_state and PROC_read_critical_state.
use libproc.Prelude.{
  ℕ, suc, ◌+◌, ◌-◌, ◌/◌, ◌%◌, ◌^◌, Bool, ◌||◌, ◌==◌, ltb, List, [], ◌∷◌, ◌++◌, length, take,
  replicate, if◌then◌else◌,
}
use libproc.Prelude.Int.{ℤ, pos, negsuc}
use libproc.Critical.{
  CriticalEntry, FileState, CsState, same_bytes, summed, write_cs_file, write_rest, Outcome,
}
use libproc.Xdr.{htonl}
use libproc.Critical.Loading.{load_critical_state}

pub data ReadResult : Type 0 where
  gives : ℤ → List ℕ → ReadResult
  overrun : ReadResult

-- memcpy to the caller; a negative length is a large size_t.
abbrev pub copied_out : ℤ → List ℕ → ReadResult
copied_out (pos len) state =
    if ltb 224 len then gives (pos 224) (take 224 state) else gives (pos len) (take len state)
copied_out (negsuc n) state = overrun

module _ (digest : List ℕ → List ℕ) where
  -- The entry that is written.
  abbrev pub sealed_entry : ℕ → List ℕ → CriticalEntry
  sealed_entry version bytes =
      let e : CriticalEntry = record {
        seq_num_high = version / 2 ^ 32 % 2 ^ 32;
        seq_num_low = version % 2 ^ 32;
        reserved = replicate 8 0;
        state = bytes ++ replicate (224 - length bytes) 0;
        md5 = [];
      } in
      record e { md5 = digest (summed e) }

  abbrev pub saved : CsState → CriticalEntry → ℕ → Bool → List FileState → CsState
  saved cs e version dirty files = record {
    current = record { state_version = version; state = e.state; md5 = digest e.state };
    dirty = dirty;
    files = files;
  }

  -- What PROC_save_critical_state does with the entry.
  abbrev pub save_entry : CsState → CriticalEntry → ℕ → (ℕ → Outcome) → ℤ → ℤ × CsState
  save_entry cs e version outcomes len = elim cs.files [
    | [] ↦ (len, saved cs e version cs.dirty [])
    | fs ∷ files ↦
        let (fs₁, ok) = write_cs_file fs e (outcomes 0) in
        let (files₁, failed) = write_rest files e (λ i. outcomes (suc i)) in
        if ok
        then (len, saved cs e version (cs.dirty || failed) (fs₁ ∷ files₁))
        else (negsuc 2, record cs { current = record (cs.current) { state_version = version } })
  ]

  -- PROC_save_critical_state; the length is that of the bytes.
  unfoldable pub save_critical_state : CsState → List ℕ → (ℕ → Outcome) → ℤ × CsState
  unfolding write_rest write_cs_file htonl
  save_critical_state cs bytes outcomes =
      if ltb 224 (length bytes) || length bytes == 0
      then (negsuc 0, cs)
      else (let version = (cs.current.state_version + 1) % 2 ^ 64 in
          save_entry cs (sealed_entry version bytes) version outcomes (pos (length bytes)))

  -- The state for the caller, if its checksum is right.
  abbrev pub if_intact : CsState → ℤ → ReadResult × CsState → ReadResult × CsState
  if_intact cs len other =
      if same_bytes (digest cs.current.state) cs.current.md5
      then (copied_out len cs.current.state, cs)
      else other

  -- PROC_read_critical_state, where the directories can be opened or not, when it loads and when it loads again.
  unfoldable pub read_critical_state : CsState → ℤ → (ℕ → Bool) → (ℕ → Bool) → ReadResult × CsState
  read_critical_state cs len opens again =
      let cs₁ = if cs.dirty then load_critical_state digest cs opens else cs in
      let cs₂ = load_critical_state digest cs₁ again in
      if_intact cs₁ len (if_intact cs₂ len (gives (negsuc 3) [], cs₂))
