-- ===== src/Critical.antt =====
-- critical.c: the state that a process saves in two families of files, each with four copies.
pub mod Atomic
pub mod Entry
pub mod Loading
pub mod Newest
pub mod Start
pub mod Stored
pub mod Recover
pub mod Saving
use libproc.Prelude.{
  ℕ, zero, suc, ◌+◌, ◌-◌, ◌*◌, ◌/◌, ◌%◌, ◌^◌, Bool, true, false, not, ◌&&◌, ◌||◌, ◌==◌, ltb, leb,
  Option, none, some, List, [], ◌∷◌, ◌++◌, length, take, replicate, if◌then◌else◌,
}
use libproc.Prelude.Int.{ℤ, pos, negsuc}
use libproc.Xdr.{htonl}

-- struct CriticalEntry; the two words are in the host's order.
pub record CriticalEntry : Type 0 where
  pub seq_num_high : ℕ
  pub seq_num_low : ℕ
  pub reserved : List ℕ
  pub state : List ℕ
  pub md5 : List ℕ

-- What read gives from a file, entry by entry.
pub data Reads : Type 0 where
  end : Reads
  short : Reads
  broken : Reads
  entry : CriticalEntry → Reads → Reads

-- A file of the directory whose name has the prefix: a number for its path, and what it holds, if it can be opened.
pub record CsFile : Type 0 where
  pub path : ℕ
  pub content : Option Reads

-- struct CSFileState, with the files that have its prefix.
pub record FileState : Type 0 where
  pub curr_file : Option ℕ
  pub generation : ℕ
  pub listing : List CsFile

-- The part of struct CSState that loading changes.
pub record Current : Type 0 where
  pub state_version : ℕ
  pub state : List ℕ
  pub md5 : List ℕ

pub record CsState : Type 0 where
  pub current : Current
  pub dirty : Bool
  pub files : List FileState

-- !memcmp
unfoldable pub same_bytes : List ℕ → List ℕ → Bool
same_bytes [] [] = true
same_bytes [] (b ∷ t) = false
same_bytes (a ∷ s) [] = false
same_bytes (a ∷ s) (b ∷ t) = a == b && same_bytes s t

-- The bytes of an entry before its checksum.
abbrev pub summed : CriticalEntry → List ℕ
summed e = htonl e.seq_num_high ++ htonl e.seq_num_low ++ e.reserved ++ e.state

abbrev pub seq_num : CriticalEntry → ℕ
seq_num e = e.seq_num_high * 2 ^ 32 + e.seq_num_low

unfoldable pub kept_files : Option ℕ → List CsFile → List CsFile
kept_files curr [] = []
kept_files none (f ∷ fs) = kept_files none fs
kept_files (some p) (f ∷ fs) =
    let rest = kept_files (some p) fs in if f.path == p then f ∷ rest else rest

-- cleanup_old_state, where the directory can be opened or not.
unfoldable pub cleanup_old_state : FileState → Bool → FileState
unfolding kept_files
cleanup_old_state fs opens = elim fs.curr_file [
  | none ↦ fs
  | some p ↦
      if opens then record fs { generation = 0; listing = kept_files (some p) fs.listing } else fs
]

-- What happens to a write: the path that mkstemp makes, its place in the directory, whether the writes
-- succeed, and whether the directory can be opened afterwards.
pub record Outcome : Type 0 where
  pub created : Option ℕ
  pub place : ℕ
  pub written : Bool
  pub opens : Bool

-- The file that write_cs_file leaves.
abbrev pub four_copies : CriticalEntry → Reads
four_copies e = entry e (entry e (entry e (entry e end)))

unfoldable pub inserted_at : ℕ → CsFile → List CsFile → List CsFile
inserted_at zero f fs = f ∷ fs
inserted_at (suc n) f [] = f ∷ []
inserted_at (suc n) f (g ∷ fs) = g ∷ inserted_at n f fs

abbrev pub with_file : FileState → ℕ → ℕ → CriticalEntry → FileState
with_file fs place p e = record {
  curr_file = some p;
  generation = fs.generation + 1;
  listing = inserted_at place (record { path = p; content = some (four_copies e) }) fs.listing;
}

-- write_cs_file: the state, and whether it returns 0.
unfoldable pub write_cs_file : FileState → CriticalEntry → Outcome → FileState × Bool
unfolding cleanup_old_state inserted_at
write_cs_file fs e o = elim o.created [
  | none ↦ (fs, false)
  | some p ↦
      if o.written
      then (
        if ltb 6 (fs.generation + 1)
            then cleanup_old_state (with_file fs o.place p e) o.opens
            else with_file fs o.place p e,
        true,
      )
      else (fs, false)
]

-- The files after the first one: whether one of them could not be written.
unfoldable pub write_rest : List FileState → CriticalEntry → (ℕ → Outcome) → List FileState × Bool
unfolding write_cs_file
write_rest [] e outcomes = ([], false)
write_rest (fs ∷ files) e outcomes =
    let (fs₁, ok) = write_cs_file fs e (outcomes 0) in
    let (files₁, failed) = write_rest files e (λ i. outcomes (suc i)) in
    (fs₁ ∷ files₁, not ok || failed)

unfoldable pub cleaned_up : List FileState → (ℕ → Bool) → List FileState
unfolding cleanup_old_state
cleaned_up [] opens = []
cleaned_up (fs ∷ files) opens =
    cleanup_old_state fs (opens 0) ∷ cleaned_up files (λ i. opens (suc i))
