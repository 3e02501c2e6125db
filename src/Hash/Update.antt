-- ===== src/Hash/Update.antt =====
-- HASH_create_table, HASH_add_data and HASH_remove_key (hashtable.c), seen as operations on a map from
-- keys to data, which is what HASH_find_key shows of a table.
use libproc.Prelude.{
  length-replicate, get_or-replicate, ◌<◌, ℕ, ◌<◌, ◌≡◌, ◌==◌, refl, Bool, true, false, Option, none,
  some, List, [], length, length-set, get_or-set, arith, if◌then◌else◌, Option-cases, inl, inr,
  Bool-cases, sym, if_intro, ==_iff, ap, ◌∙◌,
}
use mathlib.Core.Option
use mathlib.Core.Path.{subst}
use libproc.Prelude.Int.{ℤ, pos, negsuc}
use libproc.Hash.{
  create_table, HashTable, slot, bucket, set_bucket, find_key, add_data, add_new, insert_data,
  remove_key, search_internal, unlink_at,
}
use libproc.Hash.Chain.{HashNode, is_some, find_chain, unlink, node_data}
use libproc.Hash.Valid.{
  IsLawful, IsValid, All, All-unlink, All-absent, Distinct, HasKeys, find_chain-search,
  find_chain_congr, find_chain-unlink, Distinct-unlink,
}

-- The abstract table: what is stored under each key.
abbrev pub KeyMap {ℓ} : Type ℓ → Type ℓ → Type ℓ
KeyMap K D = Option K → Option D

module _ {ℓ} {K D : Type ℓ} where
  abbrev pub update : (Option K → Option K → Bool) → KeyMap K D → Option K → Option D → KeyMap K D
  update cmp f k v q = if cmp k q then v else f q

  -- Adding refuses a key that is there (-3), and may run out of memory (-4); there is no data at
  -- NULL (-1).
  abbrev pub spec_add :
      (Option K → Option K → Bool) → (D → Option K) → KeyMap K D → Option D → Bool → ℤ × KeyMap K D
  spec_add cmp key f none malloc_ok = (negsuc 0, f)
  spec_add cmp key f (some d) malloc_ok =
      if is_some (f (key d))
      then (negsuc 2, f)
      else if malloc_ok
      then (pos 0, update cmp f (key d) (some d))
      else (negsuc 3, f)

module _ {ℓ} {K D : Type ℓ} (t : HashTable K D) (valid : IsValid t) where
  pub slot-lt : (k : Option K) → slot t k < length t.buckets
  unfolding slot
  slot-lt k = let p = valid.positive in rw valid.width (grind arith)

  slot_congr : (a b : Option K) → t.key_cmp a b ≡ true → slot t a ≡ slot t b
  unfolding slot
  slot_congr a b e = rw (valid.lawful.hash-equal a b e)

  pub bucket-set_bucket :
      (i : ℕ) (c : List (HashNode K D)) (j : ℕ)
      → i < length t.buckets
      → bucket (set_bucket t i c) j ≡ (if i == j then c else bucket t j)
  bucket-set_bucket i c j h = get_or-set t.buckets i j c [] h

  pub set_bucket-IsValid :
      (i : ℕ) (c : List (HashNode K D))
      → i < length t.buckets
      → Distinct t.key_cmp c
      → HasKeys c
      → All (λ n. slot t n.key ≡ i) c
      → IsValid (set_bucket t i c)
  unfolding slot
  set_bucket-IsValid i c lt d h p = record {
    lawful = record {
      equivalence = valid.lawful.equivalence;
      hash-equal = valid.lawful.hash-equal;
    };
    positive = valid.positive;
    width = rw length-set valid.width;
    distinct = λ j.
        rw (bucket-set_bucket i c j lt)
          (if_intro (Distinct t.key_cmp) (i == j) (λ _. d) (λ _. valid.distinct j));
    keyed = λ j.
        rw (bucket-set_bucket i c j lt) (if_intro HasKeys (i == j) (λ _. h) (λ _. valid.keyed j));
    home = λ j. rw (bucket-set_bucket i c j lt) (
        if_intro (All (λ n. slot t n.key ≡ j)) (i == j)
          (λ e. subst (λ m. All (λ n. slot t n.key ≡ m) c) ((==_iff _ _).0 e) p)
          (λ _. valid.home j));
  }

  find_key_congr : (a b : Option K) → t.key_cmp a b ≡ true → find_key t a ≡ find_key t b
  unfolding find_key
  find_key_congr a b e =
      rw (slot_congr a b e) (find_chain_congr t.key_cmp valid.lawful.equivalence a b _ e)

  -- Writing a chain into the home bucket of `k` changes what is found as the chain says.
  find_key-set_bucket :
      (k : Option K) (v : Option D) (c : List (HashNode K D))
      → ((q : Option K)
          → find_chain t.key_cmp q c
            ≡ (if t.key_cmp k q then v else find_chain t.key_cmp q (bucket t (slot t k))))
      → (q : Option K)
      → find_key (set_bucket t (slot t k) c) q ≡ update t.key_cmp (find_key t) k v q
  unfolding find_key slot
  find_key-set_bucket k v c reads q =
      rw (bucket-set_bucket (slot t k) c (slot t q) (slot-lt k))
        (elim (Bool-cases (slot t k == slot t q)) [
          | inl e ↦ rw e (
              reads q
              ∙ ap (λ j. if t.key_cmp k q then v else find_chain t.key_cmp q (bucket t j))
                  ((==_iff _ _).0 e))
          | inr e ↦ rw e (elim (Bool-cases (t.key_cmp k q)) [
            | inl f ↦ cc (e, (==_iff _ _).1 (slot_congr k q f))
            | inr f ↦ rw f
          ])
        ])

  insert_data-IsValid :
      (d : D)
      → is_some (t.key_for_data d) ≡ true
      → find_key t (t.key_for_data d) ≡ none
      → IsValid (insert_data t d (t.key_for_data d))
  unfolding insert_data find_key slot
  insert_data-IsValid d h absent =
      let key = t.key_for_data d in
      set_bucket-IsValid (slot t key) _ (slot-lt key)
        (All-absent t.key_cmp valid.lawful.equivalence key _ absent, valid.distinct _)
        (h, valid.keyed _) (refl, valid.home _)

  find_key-insert_data :
      (d : D) (q : Option K)
      → find_key (insert_data t d (t.key_for_data d)) q
        ≡ update t.key_cmp (find_key t) (t.key_for_data d) (some d) q
  unfolding insert_data find_chain slot
  find_key-insert_data d q = find_key-set_bucket (t.key_for_data d) (some d) _ (λ q. refl) q

  -- On a well-formed table whose key function never returns NULL, HASH_add_data returns what the
  -- specification on maps says, for NULL data, for a key that is there, for a failed malloc and
  -- for success; afterwards HASH_find_key shows the specification's map, and the table is well
  -- formed.
  pub add_data-spec_add :
      (d : Option D) (malloc_ok : Bool)
      → ((x : D) → is_some (t.key_for_data x) ≡ true)
      → let r = add_data t d malloc_ok in
        let s = spec_add t.key_cmp t.key_for_data (find_key t) d malloc_ok in
        (r.0 ≡ s.0) × ((q : Option K) → find_key r.1 q ≡ s.1 q) × IsValid r.1
  unfolding add_data
  add_data-spec_add none malloc_ok keyed = (refl, λ q. refl, valid)
  add_data-spec_add (some d) true keyed = elim (Option-cases (find_key t (t.key_for_data d))) [
    | inr (old, e) ↦ rw (e, add_new) (refl, λ q. refl, valid)
    | inl e ↦ rw (e, add_new) (refl, find_key-insert_data d, insert_data-IsValid d (keyed d) e)
  ]
  add_data-spec_add (some d) false keyed = elim (Option-cases (find_key t (t.key_for_data d))) [
    | inr (old, e) ↦ rw (e, add_new) (refl, λ q. refl, valid)
    | inl e ↦ rw (e, add_new) (refl, λ q. refl, valid)
  ]

  find_of_search :
      (k : Option K) (i : Option ℕ)
      → search_internal t k ≡ i
      → find_key t k ≡ Option.bind i (node_data (bucket t (slot t k)))
  unfolding find_key search_internal
  find_of_search k i e = rw (find_chain-search t.key_cmp k _ (valid.keyed _), e)

  update_absent :
      (k : Option K)
      → find_key t k ≡ none
      → (q : Option K) → find_key t q ≡ update t.key_cmp (find_key t) k none q
  update_absent k e q = ground (arith, find_key_congr k q)

  unlink-IsValid :
      (k : Option K) (i : ℕ) → IsValid (set_bucket t (slot t k) (unlink (bucket t (slot t k)) i))
  unlink-IsValid k i =
      let c = bucket t (slot t k) in
      set_bucket-IsValid (slot t k) _ (slot-lt k) (Distinct-unlink t.key_cmp c i (valid.distinct _))
        (All-unlink _ c i (valid.keyed _)) (All-unlink _ c i (valid.home _))

  find_key-unlink :
      (k : Option K) (i : ℕ)
      → search_internal t k ≡ some i
      → (q : Option K)
      → find_key (set_bucket t (slot t k) (unlink (bucket t (slot t k)) i)) q
        ≡ update t.key_cmp (find_key t) k none q
  unfolding search_internal
  find_key-unlink k i e = find_key-set_bucket k none _ (λ q.
      find_chain-unlink t.key_cmp valid.lawful.equivalence k q _ i (valid.distinct _)
        (valid.keyed _) e)

  -- On a well-formed table, HASH_remove_key returns what HASH_find_key finds for the key;
  -- afterwards nothing is found for that key, every other key is found as before, and the table is
  -- well formed.
  pub remove_key-update :
      (k : Option K)
      → let r = remove_key t k in
        (r.0 ≡ find_key t k)
        × ((q : Option K) → find_key r.1 q ≡ update t.key_cmp (find_key t) k none q)
        × IsValid r.1
  unfolding remove_key Option.bind
  remove_key-update k = elim (Option-cases (search_internal t k)) [
    | inl e ↦
        let gone = find_of_search k none e in
        rw (e, unlink_at) (sym gone, update_absent k gone, valid)
    | inr (i, e) ↦
        rw (e, unlink_at)
          (sym (find_of_search k (some i) e), find_key-unlink k i e, unlink-IsValid k i)
  ]

-- HASH_create_table with at least one bucket and lawful callbacks gives a well-formed table in
-- which nothing is found.
pub create_table-IsValid {ℓ} :
    {K D : Type ℓ} (n : ℕ) (hash : Option K → ℕ) (cmp : Option K → Option K → Bool)
    (key : D → Option K)
    → 0 < n
    → IsLawful (create_table n hash cmp key)
    → IsValid (create_table n hash cmp key)
      × ((q : Option K) → find_key (create_table n hash cmp key) q ≡ none)
unfolding create_table find_key find_chain
create_table-IsValid {K} {D} n hash cmp key h law = (
  record {
    lawful = law;
    positive = h;
    width = length-replicate n [];
    distinct = λ i. rw (get_or-replicate {A = List (HashNode K D)} n i []) tt;
    keyed = λ i. rw (get_or-replicate {A = List (HashNode K D)} n i []) tt;
    home = λ i. rw (get_or-replicate {A = List (HashNode K D)} n i []) tt;
  },
  λ q. rw (get_or-replicate {A = List (HashNode K D)} n _ []),
)
