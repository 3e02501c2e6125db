-- ===== src/Hash/Extract.antt =====
-- HASH_extract (hashtable.c): its loops and what they hand over.
use libproc.Prelude.{
  ℕ, zero, suc, ◌+◌, ◌<◌, ◌≡◌, ◌==◌, refl, Option, some, List, [], ◌∷◌, ◌++◌, length, set, arith,
  ap, ◌∙◌, get_or-set, length-set, set-set, set-get_or, sym, ==_iff, ne→==, ==→ne, get_or_past,
  if_intro, Bool-cases, ltb, ltb→lt, inl, inr,
}
use libproc.Hash.{
  HashTable, slot, bucket, set_bucket, remove_key, search_internal, extract, extract_from,
  extract_bucket,
}
use libproc.Hash.Chain.{HashNode, search_chain, unlink, node_data}
use libproc.Hash.Valid.{IsValid, Distinct, All, HasKeys}
use libproc.Hash.Update.{set_bucket-IsValid, bucket-set_bucket}
use libproc.Hash.Iterate.{foldl, data_of, foldl-append}

-- With a well-formed table, removing the first key of a bucket removes its node.
remove_key-head {ℓ} :
    {K D : Type ℓ} (t : HashTable K D) (i : ℕ) (n : HashNode K D) (c : List (HashNode K D))
    → IsValid t
    → bucket t i ≡ n ∷ c
    → remove_key t n.key ≡ (some n.data', set_bucket t i c)
unfolding remove_key search_internal search_chain unlink node_data
remove_key-head t i n c v e =
    let home : All (λ m. slot t m.key ≡ i) (n ∷ c) = rw e at (v.home i) in
    let keyed : HasKeys (n ∷ c) = rw e at (v.keyed i) in
    rw (home.0, e, keyed.0, v.lawful.equivalence.reflexive n.key) (rw (home.0, e))

tail-IsValid {ℓ} :
    {K D : Type ℓ} (t : HashTable K D) (i : ℕ) (n : HashNode K D) (c : List (HashNode K D))
    → IsValid t
    → i < length t.buckets
    → bucket t i ≡ n ∷ c
    → IsValid (set_bucket t i c)
tail-IsValid t i n c v lt e =
    let home : All (λ m. slot t m.key ≡ i) (n ∷ c) = rw e at (v.home i) in
    let keyed : HasKeys (n ∷ c) = rw e at (v.keyed i) in
    let distinct : Distinct t.key_cmp (n ∷ c) = rw e at (v.distinct i) in
    set_bucket-IsValid t v i c lt distinct.1 keyed.1 home.1

-- What the extractor's state becomes: it is given every entry, and never NULL.
abbrev pub fed {ℓ κ} : {D : Type ℓ} {S : Type κ} → (S → Option D → S) → S → D → S
fed ex s d = ex s (some d)

module _ {ℓ} {K D : Type ℓ} where
  -- The entries of the buckets from `i` on, `left` of them.
  abbrev pub entries_from : HashTable K D → ℕ → ℕ → List D
  entries_from t i zero = []
  entries_from t i (suc left) = data_of (bucket t i) ++ entries_from t (suc i) left

module _ {ℓ κ} {K D : Type ℓ} {S : Type κ} (ex : S → Option D → S) where
  extract_bucket-empties :
      (fuel i : ℕ) (s : S) (t : HashTable K D) (c : List (HashNode K D))
      → IsValid t
      → i < length t.buckets
      → bucket t i ≡ c
      → length c < fuel
      → extract_bucket fuel ex i s t ≡ some (foldl (fed ex) s (data_of c), set_bucket t i [])
  unfolding extract_bucket
  extract_bucket-empties zero i s t c v h e lt = absurd (omega arith)
  extract_bucket-empties (suc fuel) i s t [] v h e lt =
      rw (e, extract_bucket)
        (ap (λ bs. some (s, record t { buckets = bs }))
          (sym (ap (set t.buckets i) (sym e) ∙ set-get_or t.buckets i [])))
  extract_bucket-empties (suc fuel) i s t (n ∷ c) v h e lt =
      rw (e, extract_bucket, remove_key-head t i n c v e)
        (extract_bucket-empties fuel i (fed ex s n.data') (set_bucket t i c) c
            (tail-IsValid t i n c v h e) (rw length-set h)
            (rw (get_or-set t.buckets i i c [] h, (==_iff i i).1 refl)) (omega arith)
          ∙ ap (λ bs. some (foldl (fed ex) s (data_of (n ∷ c)), record t { buckets = bs }))
              (set-set t.buckets i c []))

  entries_from-set_bucket :
      (t : HashTable K D) (i j left : ℕ)
      → i < length t.buckets
      → i < j
      → entries_from (set_bucket t i []) j left ≡ entries_from t j left
  entries_from-set_bucket t i j zero h lt = refl
  entries_from-set_bucket t i j (suc left) h lt = rw (
    get_or-set t.buckets i j [] [] h,
    ne→== i j (omega arith),
    entries_from-set_bucket t i (suc j) left h (omega arith),
  )

  extract_from-empties :
      (fuel left i : ℕ) (s : S) (t : HashTable K D)
      → IsValid t
      → i + left ≡ length t.buckets
      → ((j : ℕ) → length (bucket t j) < fuel)
      → ((j : ℕ) → j < i → bucket t j ≡ [])
      → (r : S × HashTable K D) × (extract_from fuel ex i left s t ≡ some r)
        × (r.0 ≡ foldl (fed ex) s (entries_from t i left))
        × ((j : ℕ) → bucket r.1 j ≡ [])
  unfolding extract_from
  extract_from-empties fuel zero i s t v w short done = (
    (s, t),
    refl,
    refl,
    λ j. elim (Bool-cases (ltb j (length t.buckets))) [
      | inl e ↦ done j (omega (arith, ltb→lt j _ e))
      | inr e ↦ get_or_past t.buckets j [] (ground arith)
    ],
  )
  extract_from-empties fuel (suc left) i s t v w short done =
      let lt : i < length t.buckets = omega arith in
      let step = extract_bucket-empties fuel i s t (bucket t i) v lt refl (short i) in
      let (r, run, fold, empty) =
        extract_from-empties fuel left (suc i) (foldl (fed ex) s (data_of (bucket t i)))
          (set_bucket t i []) (set_bucket-IsValid t v i [] lt tt tt tt)
          (rw length-set (omega arith))
          (λ j. rw (bucket-set_bucket t v i [] j lt) (
            if_intro (λ c. length c < fuel) (i == j) {x = []} {y = bucket t j}
              (λ _. omega (arith, short j)) (λ _. short j)))
          (λ j h. rw (bucket-set_bucket t v i [] j lt) (
            if_intro (λ c. c ≡ []) (i == j) (λ _. refl)
              (λ e. done j (omega (arith, ==→ne i j e))))) in
      (
        r,
        rw (step, extract_from) run,
        rw (foldl-append, ← entries_from-set_bucket t i (suc i) left lt (omega arith)) fold,
        empty,
      )

  -- On a well-formed table, HASH_extract ends once the fuel exceeds the length of every bucket.
  -- The extractor has then been given each entry once, in the order of the buckets, and never
  -- NULL, and every bucket is empty.
  pub extract-empties :
      (fuel : ℕ) (s : S) (t : HashTable K D)
      → IsValid t
      → ((j : ℕ) → length (bucket t j) < fuel)
      → (r : S × HashTable K D) × (extract fuel ex s t ≡ some r)
        × (r.0 ≡ foldl (fed ex) s (entries_from t 0 t.hash_size))
        × ((j : ℕ) → bucket r.1 j ≡ [])
  unfolding extract
  extract-empties fuel s t v short =
      extract_from-empties fuel t.hash_size 0 s t v (omega (arith, v.width)) short
        (λ j h. absurd (omega arith))
