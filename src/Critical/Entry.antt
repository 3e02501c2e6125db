-- ===== src/Critical/Entry.antt =====
-- critical.c: what PROC_save_critical_state does with the entry that it has made.
use libproc.Prelude.{
  ℕ, suc, ◌+◌, ◌^◌, ◌<◌, ◌≤◌, ◌≡◌, refl, sym, ap, ◌∙◌, inl, inr, ◌⊎◌, Bool, true, false, ◌||◌, List,
  [], ◌∷◌, arith,
}
use mathlib.Core.Path.{subst}
use libproc.Prelude.Int.{ℤ, negsuc}
use libproc.Critical.{
  CriticalEntry, CsFile, FileState, Current, CsState, Outcome, same_bytes, seq_num, write_cs_file,
  write_rest,
}
use libproc.Critical.Loading.{load_critical_state}
use libproc.Critical.Saving.{sealed_entry, saved, save_entry}
use libproc.Critical.Newest.{
  Any, Each, IsSealed, held, readable, file_entries, stored_entries, listed_entries,
  load_critical_state-newest,
}
use libproc.Critical.Stored.{
  Each-map, Each-Any, Any-append_left, EachStored, EachStored-entries, succeeds, written_file,
  Each-write_cs_file, Each-write_rest, write_cs_file_lem,
}

pub same_bytes_refl : (s : List ℕ) → same_bytes s s ≡ true
unfolding same_bytes
same_bytes_refl [] = refl
same_bytes_refl (a ∷ s) = ground (arith, same_bytes_refl s)

pub EachStored-map :
    (P Q : CriticalEntry → Type 0) (files : List FileState)
    → ((e : CriticalEntry) → P e → Q e)
    → EachStored P files
    → EachStored Q files
unfolding Each file_entries
EachStored-map P Q files f h =
    Each-map (λ fs. Each (λ g. Each P (file_entries g)) fs.listing)
      (λ fs. Each (λ g. Each Q (file_entries g)) fs.listing) files
      (λ fs.
        Each-map (λ g. Each P (file_entries g)) (λ g. Each Q (file_entries g)) fs.listing
          (λ g. Each-map P Q (file_entries g) f))
      h

module _ (digest : List ℕ → List ℕ) where
  -- No sealed entry in a file has a number above the version.
  unfoldable pub IsBehind : ℕ → List FileState → Type 0
  unfolding IsSealed Each file_entries
  IsBehind version files = EachStored (λ e. IsSealed digest e → seq_num e ≤ version) files

  module _ (e : CriticalEntry) (version : ℕ) (good : IsSealed digest e)
      (next : seq_num e ≡ version + 1) where
    -- The sealed entries are old, or are the one that was written.
    abbrev pub OldOrNew : CriticalEntry → Type 0
    OldOrNew x = IsSealed digest x → (seq_num x ≤ version) ⊎ (x ≡ e)

    new_bound :
        (n : ℕ) (x : CriticalEntry) → (IsSealed digest x → seq_num x ≤ n) → x ≡ e → version + 1 ≤ n
    new_bound n x bound q =
        let at_e = subst (λ y. IsSealed digest y → seq_num y ≤ n) q bound in
        omega (arith, at_e good, next)

    newest_is_new :
        (cs : CsState) (opens : ℕ → Bool)
        → Each OldOrNew (stored_entries cs.files opens)
        → Any (λ x. x ≡ e) (stored_entries cs.files opens)
        → (load_critical_state digest cs opens).current ≡ held digest e
    newest_is_new cs opens each any =
        let r = (load_critical_state digest cs opens).current in
        let entries = stored_entries cs.files opens in
        let (bounds, one, same, clean) = load_critical_state-newest digest cs opens in
        let reached : version + 1 ≤ r.state_version =
          Each-Any (λ x. IsSealed digest x → seq_num x ≤ r.state_version) (λ x. x ≡ e)
            (version + 1 ≤ r.state_version) entries bounds any (new_bound r.state_version) in
        elim one [
          | inl before ↦ absurd (omega (arith, ap (λ c. c.state_version) before))
          | inr taken ↦
              Each-Any OldOrNew (λ x. IsSealed digest x × (0 < seq_num x) × (r ≡ held digest x))
                (r ≡ held digest e) entries each taken
                (λ x either found. elim (either found.0) [
                  | inl old ↦ absurd (omega (arith, old, ap (λ c. c.state_version) found.2))
                  | inr q ↦ found.2 ∙ ap (held digest) q
                ])
        ]

    written-EachStored : (p : ℕ) → Each OldOrNew (file_entries (written_file p e))
    unfolding Each file_entries readable
    written-EachStored p =
        let new = λ (h : IsSealed digest e). inr refl in (new, (new, (new, (new, tt))))

    pub OldOrNew-le : (x : CriticalEntry) → OldOrNew x → IsSealed digest x → seq_num x ≤ version + 1
    OldOrNew-le x either h = elim (either h) [
      | inl old ↦ omega (arith, old)
      | inr q ↦ omega (arith, ap seq_num q, next)
    ]

    module _ (fs : FileState) (files : List FileState) (c : Current) (dirty : Bool)
        (outcomes : ℕ → Outcome) (opens : ℕ → Bool) (now : Current) (len : ℤ)
        (behind : EachStored OldOrNew (fs ∷ files)) (number : c.state_version ≡ version)
        (first : opens 0 ≡ true) where
      abbrev pub before : CsState
      before = record { current = c; dirty = dirty; files = fs ∷ files }

      abbrev pub after : ℤ × CsState
      after = save_entry digest before e (version + 1) outcomes len

      abbrev pub out : FileState × Bool
      out = write_cs_file fs e (outcomes 0)

      abbrev pub reloaded : List FileState → Current
      reloaded files =
          (load_critical_state digest (record { current = now; dirty = false; files = files })
            opens).current

      unfoldable pub Saves : ℤ × CsState → Type 0
      Saves r =
          (((succeeds (outcomes 0) ≡ true)
              × (r.0 ≡ len)
              × (r.1.current ≡ held digest e)
              × (reloaded r.1.files ≡ held digest e))
            ⊎ ((succeeds (outcomes 0) ≡ false)
                × (r.0 ≡ negsuc 2)
                × (reloaded r.1.files ≡ reloaded (fs ∷ files))))
          × EachStored OldOrNew r.1.files
          × (r.1.current.state_version ≡ version + 1)

      abbrev pub rest : List FileState × Bool
      rest = write_rest files e (λ i. outcomes (suc i))

      abbrev pub kept : CsState
      kept = saved digest before e (version + 1) (dirty || rest.1) (out.0 ∷ rest.0)

      abbrev pub failed : CsState
      failed = record before { current = record c { state_version = version + 1 } }

      rest-EachStored : EachStored OldOrNew (out.0 ∷ rest.0)
      unfolding Each
      rest-EachStored =
          let o = outcomes 0 in
          let R = λ (f : CsFile). Each OldOrNew (file_entries f) in
          (
            Each-write_cs_file R e fs o.created o.place o.written o.opens written-EachStored
                (behind.0),
            Each-write_rest R e files (λ i. outcomes (suc i)) written-EachStored (behind.1),
          )

      kept-reload :
          Any (λ x. x ≡ e) (listed_entries out.0.listing) → reloaded kept.files ≡ held digest e
      unfolding stored_entries
      kept-reload any =
          newest_is_new (record { current = now; dirty = false; files = kept.files }) opens
            (EachStored-entries OldOrNew (out.0 ∷ rest.0) opens rest-EachStored)
            (rw first (Any-append_left (λ x. x ≡ e) (listed_entries out.0.listing) _ any))

      after_write : out.1 ≡ true → (len, kept) ≡ after
      after_write wrote = rw wrote refl

      after_failure : out.1 ≡ false → (negsuc 2, failed) ≡ after
      after_failure wrote = rw wrote refl

      pub save_entry-Saves : Saves after
      unfolding Saves
      save_entry-Saves =
          let o = outcomes 0 in
          elim (write_cs_file_lem e fs o.created o.place o.written o.opens) [
            | inl (ok, wrote, any) ↦ subst Saves (after_write wrote) (
              inl (
                ok,
                refl,
                ap (λ n. record { state_version = n; state = e.state; md5 = digest e.state })
                    (sym next),
                kept-reload any,
              ),
              rest-EachStored,
              refl,
            )
            | inr (ok, same) ↦
                subst Saves (after_failure (ap (λ x. x.1) same))
                  (inr (ok, refl, refl), behind, refl)
          ]

  pub sealed_entry-IsSealed :
      (version : ℕ) (bytes : List ℕ) → IsSealed digest (sealed_entry digest version bytes)
  unfolding IsSealed
  sealed_entry-IsSealed version bytes = same_bytes_refl _

  pub sealed_entry-seq_num :
      (version : ℕ) (bytes : List ℕ)
      → version < 2 ^ 64
      → seq_num (sealed_entry digest version bytes) ≡ version
  sealed_entry-seq_num version bytes h = omega arith
