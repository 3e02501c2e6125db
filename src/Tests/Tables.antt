-- ===== src/Tests/Tables.antt =====
-- A table of pairs under their first components, with three buckets.
use libproc.Prelude.{
  ℕ, zero, suc, ◌+◌, ◌<◌, ◌≡◌, ◌==◌, refl, Bool, true, false, Option, none, some, [], length, arith,
}
use libproc.Hash.{
  add_new, insert_data, HashTable, create_table, bucket, slot, find_key, add_data, remove_key,
  extract,
}
use libproc.Hash.Chain.{find_chain}
use libproc.Hash.Valid.{IsLawful, IsValid}
use libproc.Hash.Update.{
  create_table-IsValid, add_data-spec_add, remove_key-update, spec_add, update,
}
use libproc.Hash.Iterate.{foldl}
use libproc.Hash.Extract.{extract-empties, fed, entries_from}

abbrev Pair : Type 0
Pair = ℕ × ℕ

abbrev same : Option ℕ → Option ℕ → Bool
same none none = true
same none (some b) = false
same (some a) none = false
same (some a) (some b) = a == b

abbrev hash : Option ℕ → ℕ
hash none = 0
hash (some a) = a

abbrev key : Pair → Option ℕ
key (a, b) = some a

abbrev fresh : HashTable ℕ Pair
fresh = create_table 3 hash same key

same-reflexive : (a : Option ℕ) → same a a ≡ true
same-reflexive none = refl
same-reflexive (some a) = ground arith

same-symmetric : (a b : Option ℕ) → same a b ≡ same b a
same-symmetric none none = refl
same-symmetric none (some b) = refl
same-symmetric (some a) none = refl
same-symmetric (some a) (some b) = ground arith

same-transitive : (a b c : Option ℕ) → same a b ≡ true → same b c ≡ true → same a c ≡ true
same-transitive none none c h k = k
same-transitive none (some b) c h k = cc
same-transitive (some a) none c h k = cc
same-transitive (some a) (some b) none h k = k
same-transitive (some a) (some b) (some c) h k = ground arith

hash-equal : (a b : Option ℕ) → same a b ≡ true → hash a ≡ hash b
hash-equal none none h = refl
hash-equal none (some b) h = cc
hash-equal (some a) none h = cc
hash-equal (some a) (some b) h = ground arith

fresh-IsLawful : IsLawful fresh
unfolding create_table
fresh-IsLawful = record {
  equivalence = record {
    reflexive = same-reflexive;
    symmetric = same-symmetric;
    transitive = same-transitive;
  };
  hash-equal = hash-equal;
}

fresh-IsValid : IsValid fresh
fresh-IsValid = (create_table-IsValid 3 hash same key (omega arith) fresh-IsLawful).0

program : Unit {0}
unfolding create_table add_data add_new insert_data find_key find_chain slot
program = tt

-- Entries 4 and 7, which share a bucket.
abbrev four : HashTable ℕ Pair
four = (add_data fresh (some (4, 40)) true).1

abbrev seven : HashTable ℕ Pair
seven = (add_data four (some (7, 70)) true).1

four-IsValid : IsValid four
unfolding program
four-IsValid = (add_data-spec_add fresh fresh-IsValid (some (4, 40)) true (λ x. refl)).2

seven-IsValid : IsValid seven
unfolding program
seven-IsValid = (add_data-spec_add four four-IsValid (some (7, 70)) true (λ x. refl)).2

add_data-spec_add_example :
    let r = add_data seven (some (7, 71)) true in
    let s = spec_add seven.key_cmp seven.key_for_data (find_key seven) (some (7, 71)) true in
    (r.0 ≡ s.0) × ((q : Option ℕ) → find_key r.1 q ≡ s.1 q) × IsValid r.1
unfolding program
add_data-spec_add_example = add_data-spec_add seven seven-IsValid (some (7, 71)) true (λ x. refl)

remove_key-update_example :
    let r = remove_key seven (some 4) in
    (r.0 ≡ find_key seven (some 4))
    × ((q : Option ℕ) → find_key r.1 q ≡ update seven.key_cmp (find_key seven) (some 4) none q)
    × IsValid r.1
remove_key-update_example = remove_key-update seven seven-IsValid (some 4)

short : (j : ℕ) → length (bucket seven j) < 3
unfolding program
short zero = omega arith
short (suc zero) = omega arith
short (suc (suc zero)) = omega arith
short (suc (suc (suc j))) = omega arith

extract-empties_example :
    (r : ℕ × HashTable ℕ Pair) × (extract 3 (λ n d. n + 1) 0 seven ≡ some r)
    × (r.0 ≡ foldl (fed λ n d. n + 1) 0 (entries_from seven 0 seven.hash_size))
    × ((j : ℕ) → bucket r.1 j ≡ [])
extract-empties_example = extract-empties (λ n d. n + 1) 3 0 seven seven-IsValid short

-- A table whose pairs have NULL for a key at 0.
abbrev nullable : Pair → Option ℕ
nullable (zero, b) = none
nullable (suc a, b) = some (suc a)

abbrev loose : HashTable ℕ Pair
loose = create_table 3 hash same nullable
