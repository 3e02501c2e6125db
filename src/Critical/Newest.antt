-- ===== src/Critical/Newest.antt =====
-- critical.c: what load_critical_state leaves of the entries that it reads.
use libproc.Prelude.{
  ℕ, suc, ◌<◌, ◌≤◌, ◌≡◌, refl, sym, ◌∙◌, ap, inl, inr, ◌⊎◌, Bool, true, false, ◌==◌, ltb, Option,
  none, some, List, [], ◌∷◌, ◌++◌, if◌then◌else◌, arith, Bool-cases, ltb→lt, ==_iff,
}
use libproc.Critical.{
  CriticalEntry, Reads, end, short, broken, entry, CsFile, FileState, Current, CsState, same_bytes,
  summed, seq_num,
}
use libproc.Critical.Loading.{
  above_zero, process_critical_entry, load_entries, load_critical_state_file, load_files,
  load_critical_state_directory, load_directories, load_critical_state,
}

-- The entries before the end of a file, or before the first one that cannot be read.
unfoldable pub readable : Reads → List CriticalEntry
readable end = []
readable short = []
readable broken = []
readable (entry e reads) = e ∷ readable reads

unfoldable pub file_entries : CsFile → List CriticalEntry
unfolding readable
file_entries f = elim f.content [ none ↦ [] | some reads ↦ readable reads ]

unfoldable pub listed_entries : List CsFile → List CriticalEntry
unfolding file_entries
listed_entries [] = []
listed_entries (f ∷ fs) = file_entries f ++ listed_entries fs

-- The entries of the directories that can be opened.
unfoldable pub stored_entries : List FileState → (ℕ → Bool) → List CriticalEntry
unfolding listed_entries
stored_entries [] opens = []
stored_entries (fs ∷ files) opens =
    (if opens 0 then listed_entries fs.listing else []) ++ stored_entries files (λ i. opens (suc i))

unfoldable pub Any {ℓ} : {A : Type ℓ} → (A → Type 0) → List A → Type 0
Any P [] = ⊥
Any P (x ∷ xs) = P x ⊎ Any P xs

unfoldable pub Each {ℓ} : {A : Type ℓ} → (A → Type 0) → List A → Type 0
Each P [] = Unit
Each P (x ∷ xs) = P x × Each P xs

above_zero-current : (r : Current × Option Bool) → (above_zero r).0 ≡ r.0
above_zero-current (c, none) = refl
above_zero-current (c, some res) = refl

abbrev pub SameListings : List FileState → List FileState → Type 0
SameListings [] [] = Unit
SameListings [] (g ∷ gs) = ⊥
SameListings (f ∷ fs) [] = ⊥
SameListings (f ∷ fs) (g ∷ gs) = (f.listing ≡ g.listing) × SameListings fs gs

newer : (a b : ℕ) → ltb a b ≡ false → (a == b) ≡ false → b ≤ a
newer a b h k = ground arith

newer_lt : (a b : ℕ) → ltb a b ≡ false → (a == b) ≡ false → b < a
newer_lt a b h k = ground arith

Any-map {ℓ} :
    {A : Type ℓ} (P Q : A → Type 0) (xs : List A) → ((x : A) → P x → Q x) → Any P xs → Any Q xs
unfolding Any
Any-map P Q [] f h = h
Any-map P Q (x ∷ xs) f (inl p) = inl (f x p)
Any-map P Q (x ∷ xs) f (inr q) = inr (Any-map P Q xs f q)

module _ (digest : List ℕ → List ℕ) where
  -- The entry's checksum is right.
  unfoldable pub IsSealed : CriticalEntry → Type 0
  IsSealed e = same_bytes e.md5 (digest (summed e)) ≡ true

  abbrev pub held : CriticalEntry → Current
  held e = record { state_version = seq_num e; state = e.state; md5 = digest e.state }

  absorbed : Current → List CriticalEntry → Current
  absorbed c [] = c
  absorbed c (e ∷ es) = absorbed (process_critical_entry digest c e).0 es

  absorbed-append :
      (c : Current) (s t : List CriticalEntry) → absorbed c (s ++ t) ≡ absorbed (absorbed c s) t
  unfolding absorbed
  absorbed-append c [] t = refl
  absorbed-append c (e ∷ s) t = absorbed-append (process_critical_entry digest c e).0 s t

  load_entries-absorbed :
      (c : Current) (reads : Reads) (res : Bool)
      → (load_entries digest c reads res).0 ≡ absorbed c (readable reads)
  unfolding load_entries absorbed readable
  load_entries-absorbed c end res = refl
  load_entries-absorbed c short res = refl
  load_entries-absorbed c broken res = refl
  load_entries-absorbed c (entry e reads) res =
      load_entries-absorbed (process_critical_entry digest c e).0 reads _

  load_file-absorbed :
      (c : Current) (path : ℕ) (content : Option Reads)
      → let f : CsFile = record { path = path; content = content } in
        (load_critical_state_file digest c f).0 ≡ absorbed c (file_entries f)
  unfolding file_entries absorbed
  load_file-absorbed c path none = refl
  load_file-absorbed c path (some reads) =
      above_zero-current (load_entries digest c reads false) ∙ load_entries-absorbed c reads false

  load_files-absorbed :
      (c : Current) (curr : Option ℕ) (fs : List CsFile)
      → (load_files digest c curr fs).0 ≡ absorbed c (listed_entries fs)
  unfolding load_files listed_entries absorbed
  load_files-absorbed c curr [] = refl
  load_files-absorbed c curr (f ∷ fs) =
      load_files-absorbed (load_critical_state_file digest c f).0 _ fs
      ∙ ap (λ k. absorbed k (listed_entries fs)) (load_file-absorbed c f.path f.content)
      ∙ sym (absorbed-append c (file_entries f) (listed_entries fs))

  load_directory-absorbed :
      (c : Current) (fs : FileState) (opens : Bool)
      → ((load_critical_state_directory digest c fs opens).0
          ≡ absorbed c (if opens then listed_entries fs.listing else []))
        × ((load_critical_state_directory digest c fs opens).1.listing ≡ fs.listing)
  unfolding load_critical_state_directory absorbed
  load_directory-absorbed c fs true = (load_files-absorbed c fs.curr_file fs.listing, refl)
  load_directory-absorbed c fs false = (refl, refl)

  load_directories-absorbed :
      (c : Current) (files : List FileState) (opens : ℕ → Bool)
      → ((load_directories digest c files opens).0 ≡ absorbed c (stored_entries files opens))
        × SameListings (load_directories digest c files opens).1 files
  unfolding load_directories stored_entries absorbed
  load_directories-absorbed c [] opens = (refl, tt)
  load_directories-absorbed c (fs ∷ files) opens =
      let one = load_directory-absorbed c fs (opens 0) in
      let rest =
        load_directories-absorbed (load_critical_state_directory digest c fs (opens 0)).0 files
          (λ i. opens (suc i)) in
      (
        rest.0
            ∙ ap (λ k. absorbed k (stored_entries files (λ i. opens (suc i)))) one.0
            ∙ sym (
                absorbed-append c (if opens 0 then listed_entries fs.listing else [])
                  (stored_entries files (λ i. opens (suc i)))),
        (one.1, rest.1),
      )

  -- The entry becomes the current one if it is sealed and newer.
  abbrev Taken : Current → Current → CriticalEntry → Type 0
  Taken c r e = IsSealed e × (c.state_version < seq_num e) × (r ≡ held e)

  step_lem :
      (c : Current) (e : CriticalEntry)
      → let r = (process_critical_entry digest c e).0 in
        (c.state_version ≤ r.state_version)
        × (IsSealed e → seq_num e ≤ r.state_version)
        × ((r ≡ c) ⊎ Taken c r e)
  unfolding process_critical_entry IsSealed
  step_lem c e = elim (Bool-cases (same_bytes e.md5 (digest (summed e)))) [
    | inr bad ↦ rw bad (omega arith, λ h. cc, inl refl)
    | inl good ↦ elim (Bool-cases (ltb (seq_num e) c.state_version)) [
      | inl old ↦ rw (good, old) (omega arith, λ h. omega (arith, ltb→lt _ _ old), inl refl)
      | inr new ↦ elim (Bool-cases (seq_num e == c.state_version)) [
        | inl same ↦
            rw (good, new, same) (omega arith, λ h. omega (arith, (==_iff _ _).0 same), inl refl)
        | inr other ↦
            rw (good, new, other)
              (
                newer (seq_num e) c.state_version new other,
                λ h. omega arith,
                inr (refl, newer_lt (seq_num e) c.state_version new other, refl),
              )
      ]
    ]
  ]

  absorbed-newest :
      (c : Current) (es : List CriticalEntry)
      → let r = absorbed c es in
        (c.state_version ≤ r.state_version)
        × Each (λ e. IsSealed e → seq_num e ≤ r.state_version) es
        × ((r ≡ c) ⊎ Any (Taken c r) es)
  unfolding absorbed Each Any
  absorbed-newest c [] = (omega arith, tt, inl refl)
  absorbed-newest c (e ∷ es) =
      let c₁ = (process_critical_entry digest c e).0 in
      let r = absorbed c₁ es in
      let (up, bound, one) = step_lem c e in
      let (ups, bounds, rest) = absorbed-newest c₁ es in
      (
        omega arith,
        (λ h. omega (arith, bound h), bounds),
        elim rest [
          | inr later ↦ inr (
              inr (
                Any-map (Taken c₁ r) (Taken c r) es (λ x t. (t.0, omega (arith, t.1, up), t.2))
                  later))
          | inl same ↦ elim one [
            | inl kept ↦ inl (same ∙ kept)
            | inr t ↦ inr (inl (t.0, t.1, same ∙ t.2))
          ]
        ],
      )

  -- After load_critical_state, no sealed entry that it could read is newer than the version in
  -- memory; the state in memory is that of such an entry, under its number and with its checksum,
  -- or there is no change but that the version is 0; the files are the same, and the state is not
  -- dirty.
  pub load_critical_state-newest :
      (cs : CsState) (opens : ℕ → Bool)
      → let r = load_critical_state digest cs opens in
        let before = record (cs.current) { state_version = 0 } in
        let entries = stored_entries cs.files opens in
        Each (λ e. IsSealed e → seq_num e ≤ r.current.state_version) entries
        × ((r.current ≡ before)
            ⊎ Any (λ e. IsSealed e × (0 < seq_num e) × (r.current ≡ held e)) entries)
        × SameListings r.files cs.files
        × (r.dirty ≡ false)
  unfolding load_critical_state
  load_critical_state-newest cs opens =
      let before : Current = record (cs.current) { state_version = 0 } in
      let (eq, same) = load_directories-absorbed before cs.files opens in
      let (up, bounds, one) = absorbed-newest before (stored_entries cs.files opens) in
      (rw eq bounds, rw eq one, same, refl)
