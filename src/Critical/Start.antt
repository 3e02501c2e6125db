-- ===== src/Critical/Start.antt =====
-- critical.c: critical_state_init.
use libproc.Prelude.{
  ℕ, suc, ◌≤◌, ◌≡◌, sym, Bool, true, false, Option, none, some, List, [], ◌∷◌, ◌++◌, replicate,
  if◌then◌else◌,
}
use mathlib.Core.Path.{subst}
use libproc.Critical.{
  CriticalEntry, CsFile, FileState, CsState, seq_num, cleanup_old_state, cleaned_up,
}
use libproc.Critical.Loading.{load_critical_state, critical_state_init}
use libproc.Critical.Newest.{
  Each, IsSealed, file_entries, listed_entries, stored_entries, SameListings,
  load_critical_state-newest,
}
use libproc.Critical.Stored.{EachStored, Each-kept_files}
use libproc.Critical.Entry.{IsBehind}

Each-split {ℓ} :
    {A : Type ℓ} (P : A → Type 0) (s t : List A) → Each P (s ++ t) → Each P s × Each P t
unfolding Each
Each-split P [] t h = (tt, h)
Each-split P (x ∷ s) t h = let (left, right) = Each-split P s t h.1 in ((h.0, left), right)

listed-Each :
    (P : CriticalEntry → Type 0) (fs : List CsFile)
    → Each P (listed_entries fs)
    → Each (λ f. Each P (file_entries f)) fs
unfolding Each listed_entries
listed-Each P [] h = tt
listed-Each P (f ∷ fs) h =
    let (here, rest) = Each-split P (file_entries f) (listed_entries fs) h in
    (here, listed-Each P fs rest)

stored-EachStored :
    (P : CriticalEntry → Type 0) (files : List FileState) (opens : ℕ → Bool)
    → ((i : ℕ) → opens i ≡ true)
    → Each P (stored_entries files opens)
    → EachStored P files
unfolding Each stored_entries
stored-EachStored P [] opens all h = tt
stored-EachStored P (fs ∷ files) opens all h =
    let rest = stored_entries files (λ i. opens (suc i)) in
    let opened : Each P (listed_entries fs.listing ++ rest) =
      subst (λ b. Each P ((if b then listed_entries fs.listing else []) ++ rest)) (all 0) h in
    let (here, later) = Each-split P (listed_entries fs.listing) rest opened in
    (
      listed-Each P fs.listing here,
      stored-EachStored P files (λ i. opens (suc i)) (λ i. all (suc i)) later,
    )

SameListings-EachStored :
    (P : CriticalEntry → Type 0) (fs gs : List FileState)
    → SameListings fs gs
    → EachStored P gs
    → EachStored P fs
unfolding Each
SameListings-EachStored P [] [] same h = tt
SameListings-EachStored P [] (g ∷ gs) same h = absurd same
SameListings-EachStored P (f ∷ fs) [] same h = absurd same
SameListings-EachStored P (f ∷ fs) (g ∷ gs) same h = (
  subst (Each (λ x. Each P (file_entries x))) (sym same.0) (h.0),
  SameListings-EachStored P fs gs same.1 h.1,
)

cleanup-Each :
    (R : CsFile → Type 0) (curr : Option ℕ) (generation : ℕ) (listing : List CsFile) (opens : Bool)
    → Each R listing
    → let fs : FileState = record {
      curr_file = curr;
      generation = generation;
      listing = listing;
    } in
      Each R (cleanup_old_state fs opens).listing
unfolding cleanup_old_state
cleanup-Each R none generation listing opens h = h
cleanup-Each R (some p) generation listing true h = Each-kept_files R p listing h
cleanup-Each R (some p) generation listing false h = h

cleaned_up-EachStored :
    (P : CriticalEntry → Type 0) (files : List FileState) (opens : ℕ → Bool)
    → EachStored P files
    → EachStored P (cleaned_up files opens)
unfolding Each cleaned_up
cleaned_up-EachStored P [] opens h = tt
cleaned_up-EachStored P (fs ∷ files) opens h = (
  cleanup-Each (λ f. Each P (file_entries f)) fs.curr_file fs.generation fs.listing (opens 0) h.0,
  cleaned_up-EachStored P files (λ i. opens (suc i)) h.1,
)

module _ (digest : List ℕ → List ℕ) where
  loaded-IsBehind :
      (cs : CsState) (opens : ℕ → Bool)
      → ((i : ℕ) → opens i ≡ true)
      → let r = load_critical_state digest cs opens in
        IsBehind digest r.current.state_version r.files
  unfolding IsBehind
  loaded-IsBehind cs opens all =
      let r = load_critical_state digest cs opens in
      let (bounds, one, same, clean) = load_critical_state-newest digest cs opens in
      let P = λ (e : CriticalEntry). IsSealed digest e → seq_num e ≤ r.current.state_version in
      SameListings-EachStored P r.files cs.files same
        (stored-EachStored P cs.files opens all bounds)

  -- Where the directories can be opened when they are loaded, critical_state_init leaves no file
  -- with a sealed entry that is newer than the version in memory, whether or not they can be
  -- opened for the cleanup.
  pub critical_state_init-IsBehind :
      (files : List FileState) (opens again : ℕ → Bool)
      → ((i : ℕ) → opens i ≡ true)
      → let r = critical_state_init digest files opens again in
        IsBehind digest r.current.state_version r.files
  unfolding critical_state_init IsBehind
  critical_state_init-IsBehind files opens again all =
      let cs : CsState = record {
        current = record { state_version = 0; state = replicate 224 0; md5 = replicate 16 0 };
        dirty = false;
        files = files;
      } in
      let r = load_critical_state digest cs opens in
      cleaned_up-EachStored (λ e. IsSealed digest e → seq_num e ≤ r.current.state_version) r.files
        again (loaded-IsBehind cs opens all)
