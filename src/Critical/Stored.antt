-- ===== src/Critical/Stored.antt =====
-- critical.c: what write_cs_file leaves in the directories.
use libproc.Prelude.{
  ℕ, zero, suc, ◌+◌, ◌≡◌, refl, ap, inl, inr, ◌⊎◌, Bool, true, false, ◌==◌, ltb, Option, none, some,
  List, [], ◌∷◌, ◌++◌, if◌then◌else◌, if_intro, ==_iff,
}
use libproc.Critical.{
  CriticalEntry, CsFile, FileState, Outcome, four_copies, inserted_at, kept_files, with_file,
  cleanup_old_state, write_cs_file, write_rest,
}
use libproc.Critical.Newest.{readable, file_entries, listed_entries, stored_entries, Any, Each}

pub Each-append {ℓ} :
    {A : Type ℓ} (P : A → Type 0) (s t : List A) → Each P s → Each P t → Each P (s ++ t)
unfolding Each
Each-append P [] t h k = k
Each-append P (x ∷ s) t h k = (h.0, Each-append P s t h.1 k)

pub Each-map {ℓ} :
    {A : Type ℓ} (P Q : A → Type 0) (xs : List A) → ((x : A) → P x → Q x) → Each P xs → Each Q xs
unfolding Each
Each-map P Q [] f h = tt
Each-map P Q (x ∷ xs) f h = (f x h.0, Each-map P Q xs f h.1)

pub Any-append_left {ℓ} : {A : Type ℓ} (P : A → Type 0) (s t : List A) → Any P s → Any P (s ++ t)
unfolding Any
Any-append_left P [] t h = absurd h
Any-append_left P (x ∷ s) t (inl h) = inl h
Any-append_left P (x ∷ s) t (inr h) = inr (Any-append_left P s t h)

Any-append_right {ℓ} : {A : Type ℓ} (P : A → Type 0) (s t : List A) → Any P t → Any P (s ++ t)
unfolding Any
Any-append_right P [] t h = h
Any-append_right P (x ∷ s) t h = inr (Any-append_right P s t h)

pub Each-Any {ℓ} :
    {A : Type ℓ} (P Q : A → Type 0) (D : Type 0) (xs : List A)
    → Each P xs
    → Any Q xs
    → ((x : A) → P x → Q x → D)
    → D
unfolding Each Any
Each-Any P Q D [] h k f = absurd k
Each-Any P Q D (x ∷ xs) h (inl q) f = f x h.0 q
Each-Any P Q D (x ∷ xs) h (inr q) f = Each-Any P Q D xs h.1 q f

Each-inserted_at :
    (R : CsFile → Type 0) (n : ℕ) (f : CsFile) (fs : List CsFile)
    → R f
    → Each R fs
    → Each R (inserted_at n f fs)
unfolding Each inserted_at
Each-inserted_at R zero f fs r h = (r, h)
Each-inserted_at R (suc n) f [] r h = (r, tt)
Each-inserted_at R (suc n) f (g ∷ fs) r h = (h.0, Each-inserted_at R n f fs r h.1)

pub Each-kept_files :
    (R : CsFile → Type 0) (p : ℕ) (fs : List CsFile) → Each R fs → Each R (kept_files (some p) fs)
unfolding Each kept_files
Each-kept_files R p [] h = tt
Each-kept_files R p (f ∷ fs) h =
    let rest = Each-kept_files R p fs h.1 in
    if_intro (Each R) (f.path == p) (λ e. (h.0, rest)) (λ e. rest)

Any-inserted_at : (n : ℕ) (f : CsFile) (fs : List CsFile) → Any (λ g. g ≡ f) (inserted_at n f fs)
unfolding Any inserted_at
Any-inserted_at zero f fs = inl refl
Any-inserted_at (suc n) f [] = inl refl
Any-inserted_at (suc n) f (g ∷ fs) = inr (Any-inserted_at n f fs)

Any-kept_files :
    (f : CsFile) (fs : List CsFile)
    → Any (λ g. g ≡ f) fs
    → Any (λ g. g ≡ f) (kept_files (some f.path) fs)
unfolding Any kept_files
Any-kept_files f [] h = absurd h
Any-kept_files f (g ∷ fs) (inl e) = rw ((==_iff g.path f.path).1 (ap (λ x. x.path) e)) (inl e)
Any-kept_files f (g ∷ fs) (inr h) =
    let rest = Any-kept_files f fs h in
    if_intro (Any (λ x. x ≡ f)) (g.path == f.path) (λ e. inr rest) (λ e. rest)

-- The file that is written, at any path.
abbrev pub written_file : ℕ → CriticalEntry → CsFile
written_file p e = record { path = p; content = some (four_copies e) }

abbrev pub succeeds : Outcome → Bool
succeeds o = elim o.created [ none ↦ false | some p ↦ o.written ]

module _ (R : CsFile → Type 0) (e : CriticalEntry) where
  Each-cleanup_old_state :
      (fs : FileState) (p : ℕ) (opens : Bool)
      → fs.curr_file ≡ some p
      → Each R fs.listing
      → Each R (cleanup_old_state fs opens).listing
  unfolding cleanup_old_state
  Each-cleanup_old_state fs p true eq h =
      rw (eq, cleanup_old_state) (Each-kept_files R p fs.listing h)
  Each-cleanup_old_state fs p false eq h = rw (eq, cleanup_old_state) h

  Each-after_write :
      (fs : FileState) (p place : ℕ) (opens clean : Bool)
      → R (written_file p e)
      → Each R fs.listing
      → Each R
          (if clean
            then cleanup_old_state (with_file fs place p e) opens
            else with_file fs place p e).listing
  Each-after_write fs p place opens true r h =
      Each-cleanup_old_state (with_file fs place p e) p opens refl
        (Each-inserted_at R place (written_file p e) fs.listing r h)
  Each-after_write fs p place opens false r h =
      Each-inserted_at R place (written_file p e) fs.listing r h

  pub Each-write_cs_file :
      (fs : FileState) (created : Option ℕ) (place : ℕ) (written opens : Bool)
      → ((p : ℕ) → R (written_file p e))
      → Each R fs.listing
      → let o : Outcome = record {
        created = created;
        place = place;
        written = written;
        opens = opens;
      } in
        Each R (write_cs_file fs e o).0.listing
  unfolding write_cs_file
  Each-write_cs_file fs none place written opens r h = h
  Each-write_cs_file fs (some p) place false opens r h = h
  Each-write_cs_file fs (some p) place true opens r h =
      Each-after_write fs p place opens (ltb 6 (fs.generation + 1)) (r p) h

  pub Each-write_rest :
      (files : List FileState) (outcomes : ℕ → Outcome)
      → ((p : ℕ) → R (written_file p e))
      → Each (λ fs. Each R fs.listing) files
      → Each (λ fs. Each R fs.listing) (write_rest files e outcomes).0
  unfolding write_rest Each
  Each-write_rest [] outcomes r h = tt
  Each-write_rest (fs ∷ files) outcomes r h =
      let o = outcomes 0 in
      (
        Each-write_cs_file fs o.created o.place o.written o.opens r h.0,
        Each-write_rest files (λ i. outcomes (suc i)) r h.1,
      )

Any-after_write :
    (e : CriticalEntry) (fs : FileState) (p place : ℕ) (opens clean : Bool)
    → Any
        (λ f. f ≡ written_file p e)
        (if clean
          then cleanup_old_state (with_file fs place p e) opens
          else with_file fs place p e).listing
unfolding cleanup_old_state
Any-after_write e fs p place true true =
    Any-kept_files (written_file p e) _ (Any-inserted_at place (written_file p e) fs.listing)
Any-after_write e fs p place false true = Any-inserted_at place (written_file p e) fs.listing
Any-after_write e fs p place opens false = Any-inserted_at place (written_file p e) fs.listing

Any-listed_entries :
    (e : CriticalEntry) (p : ℕ) (fs : List CsFile)
    → Any (λ f. f ≡ written_file p e) fs
    → Any (λ x. x ≡ e) (listed_entries fs)
unfolding Any listed_entries file_entries readable
Any-listed_entries e p [] h = absurd h
Any-listed_entries e p (f ∷ fs) (inl eq) =
    Any-append_left (λ x. x ≡ e) (file_entries f) (listed_entries fs) (rw eq (inl refl))
Any-listed_entries e p (f ∷ fs) (inr h) =
    Any-append_right (λ x. x ≡ e) (file_entries f) (listed_entries fs) (Any-listed_entries e p fs h)

-- A write that succeeds leaves the entry in the directory; one that fails leaves the directory as it was.
pub write_cs_file_lem :
    (e : CriticalEntry) (fs : FileState) (created : Option ℕ) (place : ℕ) (written opens : Bool)
    → let o : Outcome = record {
      created = created;
      place = place;
      written = written;
      opens = opens;
    } in
      ((succeeds o ≡ true)
        × ((write_cs_file fs e o).1 ≡ true)
        × Any (λ x. x ≡ e) (listed_entries (write_cs_file fs e o).0.listing))
      ⊎ ((succeeds o ≡ false) × (write_cs_file fs e o ≡ (fs, false)))
unfolding write_cs_file
write_cs_file_lem e fs none place written opens = inr (refl, refl)
write_cs_file_lem e fs (some p) place false opens = inr (refl, refl)
write_cs_file_lem e fs (some p) place true opens = inl (
  refl,
  refl,
  Any-listed_entries e p _ (Any-after_write e fs p place opens (ltb 6 (fs.generation + 1))),
)

Each-listed_entries :
    (P : CriticalEntry → Type 0) (fs : List CsFile)
    → Each (λ f. Each P (file_entries f)) fs
    → Each P (listed_entries fs)
unfolding Each listed_entries
Each-listed_entries P [] h = tt
Each-listed_entries P (f ∷ fs) h =
    Each-append P (file_entries f) (listed_entries fs) h.0 (Each-listed_entries P fs h.1)

-- Every entry in every file of the directories.
abbrev pub EachStored : (CriticalEntry → Type 0) → List FileState → Type 0
EachStored P files = Each (λ fs. Each (λ f. Each P (file_entries f)) fs.listing) files

pub EachStored-entries :
    (P : CriticalEntry → Type 0) (files : List FileState) (opens : ℕ → Bool)
    → EachStored P files
    → Each P (stored_entries files opens)
unfolding Each stored_entries
EachStored-entries P [] opens h = tt
EachStored-entries P (fs ∷ files) opens h =
    Each-append P (if opens 0 then listed_entries fs.listing else [])
      (stored_entries files (λ i. opens (suc i)))
      (if_intro (Each P) (opens 0) (λ e. Each-listed_entries P fs.listing h.0) (λ e. tt))
      (EachStored-entries P files (λ i. opens (suc i)) h.1)
