-- ===== src/Hash.antt =====
-- hashtable.c and hashtable.h: a chained table with the caller's hash, comparison and key functions.
-- A key is a `void *`, so it may be NULL: `none`. The table pointer itself is not NULL here; a table
-- is created before it is used. The functions that an iterator calls on the same table are not
-- modelled: an iterator has a state of its own.
pub mod Chain
pub mod Valid
pub mod Update
pub mod Iterate
pub mod Extract
pub mod NullKey
use libproc.Prelude.{
  ℕ, zero, suc, ◌%◌, Bool, true, false, Option, none, some, List, [], ◌∷◌, get_or, set, replicate,
  if◌then◌else◌, ◌≡◌, ◌<◌, length,
}
use libproc.Prelude.Int.{ℤ, pos, negsuc}
use Chain.{HashNode, search_chain, find_chain, node_data, unlink, iterate_chain}

-- struct HashTable
pub record HashTable {ℓ} (K D : Type ℓ) : Type ℓ where
  pub hash_size : ℕ
  pub hash_func : Option K → ℕ
  pub key_cmp : Option K → Option K → Bool
  pub key_for_data : D → Option K
  pub buckets : List (List (HashNode K D))

module _ {ℓ} {K D : Type ℓ} where
  -- `hash % table->hashSize`
  unfoldable pub slot : HashTable K D → Option K → ℕ
  slot t k = t.hash_func k % t.hash_size

  abbrev pub bucket : HashTable K D → ℕ → List (HashNode K D)
  bucket t i = get_or t.buckets i []

  abbrev pub set_bucket : HashTable K D → ℕ → List (HashNode K D) → HashTable K D
  set_bucket t i c = record t { buckets = set t.buckets i c }

  -- HASH_create_table, where malloc succeeds.
  unfoldable pub create_table :
      ℕ → (Option K → ℕ) → (Option K → Option K → Bool) → (D → Option K) → HashTable K D
  create_table hash_size hash_func key_cmp key_for_data = record {
    hash_size = hash_size;
    hash_func = hash_func;
    key_cmp = key_cmp;
    key_for_data = key_for_data;
    buckets = replicate hash_size [];
  }

  -- HASH_find_key
  unfoldable pub find_key : HashTable K D → Option K → Option D
  unfolding slot
  find_key t k = find_chain t.key_cmp k (bucket t (slot t k))

  unfoldable pub find_data : HashTable K D → Option D → Option D
  unfolding find_key
  find_data t none = none
  find_data t (some d) = find_key t (t.key_for_data d)

  -- HASH_search_internal: where in the bucket the key's node is.
  unfoldable pub search_internal : HashTable K D → Option K → Option ℕ
  unfolding slot
  search_internal t k = search_chain t.key_cmp k (bucket t (slot t k))

  unfoldable pub unlink_at : HashTable K D → Option K → Option ℕ → Option D × HashTable K D
  unfolding slot
  unlink_at t k none = (none, t)
  unlink_at t k (some n) =
      let c = bucket t (slot t k) in (node_data c n, set_bucket t (slot t k) (unlink c n))

  -- HASH_remove_key, with HASH_remove_key_internal.
  unfoldable pub remove_key : HashTable K D → Option K → Option D × HashTable K D
  unfolding unlink_at
  remove_key t k = unlink_at t k (search_internal t k)

  unfoldable pub remove_data : HashTable K D → Option D → Option D × HashTable K D
  unfolding remove_key
  remove_data t none = (none, t)
  remove_data t (some d) = remove_key t (t.key_for_data d)

  unfoldable pub insert_data : HashTable K D → D → Option K → HashTable K D
  insert_data t d key =
      let hash = t.hash_func key in
      let node : HashNode K D = record { hash = hash; key = key; data' = d } in
      set_bucket t (hash % t.hash_size) (node ∷ bucket t (hash % t.hash_size))

  unfoldable pub add_new : HashTable K D → D → Option K → Bool → Option D → ℤ × HashTable K D
  unfolding insert_data
  add_new t d key malloc_ok (some _) = (negsuc 2, t)
  add_new t d key malloc_ok none = if malloc_ok then (pos 0, insert_data t d key) else (negsuc 3, t)

  -- HASH_add_data: -1 for no data, -3 for a key that is there, -4 where malloc fails.
  unfoldable pub add_data : HashTable K D → Option D → Bool → ℤ × HashTable K D
  unfolding add_new
  add_data t none malloc_ok = (negsuc 0, t)
  add_data t (some d) malloc_ok =
      let key = t.key_for_data d in add_new t d key malloc_ok (find_key t key)

module _ {ℓ κ} {K D : Type ℓ} {S : Type κ} where
  iterate_buckets :
      (S → D → S × Bool) → S → List (List (HashNode K D)) → S × List (List (HashNode K D))
  unfolding iterate_chain
  iterate_buckets it s [] = (s, [])
  iterate_buckets it s (c ∷ cs) =
      let (s₁, c') = iterate_chain it s c in
      let (s₂, cs') = iterate_buckets it s₁ cs in (s₂, c' ∷ cs')

  -- HASH_iterate_arg_table: the iterator says of each entry whether to drop it.
  unfoldable pub iterate_arg_table : (S → D → S × Bool) → S → HashTable K D → S × HashTable K D
  unfolding iterate_buckets
  iterate_arg_table it s t =
      let (s', bs) = iterate_buckets it s t.buckets in (s', record t { buckets = bs })

  -- `while (table->buckets[i]) (*extractor)(HASH_remove_key(table, table->buckets[i]->key))`, with
  -- fuel: none means that it ran out.
  pub extract_bucket : ℕ → (S → Option D → S) → ℕ → S → HashTable K D → Option (S × HashTable K D)
  unfolding remove_key
  extract_bucket zero ex i s t = none
  extract_bucket (suc fuel) ex i s t = elim (bucket t i) [
    | [] ↦ some (s, t)
    | n ∷ _ ↦ let (d, t') = remove_key t n.key in extract_bucket fuel ex i (ex s d) t'
  ]

  -- The loop over the buckets from `i` on, `left` of them.
  extract_from : ℕ → (S → Option D → S) → ℕ → ℕ → S → HashTable K D → Option (S × HashTable K D)
  unfolding extract_bucket
  extract_from fuel ex i zero s t = some (s, t)
  extract_from fuel ex i (suc left) s t = elim (extract_bucket fuel ex i s t) [
    | none ↦ none
    | some (s', t') ↦ extract_from fuel ex (suc i) left s' t'
  ]

  -- HASH_extract
  unfoldable pub extract : ℕ → (S → Option D → S) → S → HashTable K D → Option (S × HashTable K D)
  unfolding extract_from
  extract fuel ex s t = extract_from fuel ex 0 t.hash_size s t
