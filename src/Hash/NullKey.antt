-- ===== src/Hash/NullKey.antt =====
-- Entries of a hash table (hashtable.c) whose key is NULL.
use libproc.Prelude.{
  ℕ, zero, suc, ◌<◌, ◌&&◌, ◌≡◌, refl, Bool, true, false, Option, none, some, List, [], ◌∷◌, arith,
  length, get_or-set, ==_iff, ap, ◌∙◌,
}
use libproc.Prelude.Int.{pos}
use libproc.Hash.{
  HashTable, slot, bucket, find_key, add_data, add_new, insert_data, remove_key, search_internal,
  extract_bucket,
}
use libproc.Hash.Chain.{HashNode, search_chain, find_chain, is_some}

module _ {ℓ} {K : Type ℓ} (cmp : Option K → Option K → Bool)
    (apart : (a : K) → cmp (some a) none ≡ false) where
  null_miss : (k : Option K) → (is_some k && cmp k none) ≡ false
  null_miss none = refl
  null_miss (some a) = apart a

  search_chain-null : {D : Type ℓ} (c : List (HashNode K D)) → search_chain cmp none c ≡ none
  unfolding search_chain
  search_chain-null [] = refl
  search_chain-null (n ∷ c) = rw (null_miss n.key, search_chain-null c)

remove_key-null {ℓ} :
    {K D : Type ℓ} (t : HashTable K D)
    → ((a : K) → t.key_cmp (some a) none ≡ false)
    → remove_key t none ≡ (none, t)
unfolding remove_key search_internal
remove_key-null t apart = rw (search_chain-null t.key_cmp apart)

-- A round of the loop of HASH_extract at an entry with a NULL key changes nothing in the table.
extract_bucket-null {ℓ κ} :
    {K D : Type ℓ} {S : Type κ} (t : HashTable K D) (i : ℕ) (n : HashNode K D)
    (c : List (HashNode K D))
    → ((a : K) → t.key_cmp (some a) none ≡ false)
    → bucket t i ≡ n ∷ c
    → n.key ≡ none
    → (fuel : ℕ) (ex : S → Option D → S) (s : S) → extract_bucket fuel ex i s t ≡ none
unfolding extract_bucket
extract_bucket-null t i n c apart e null zero ex s = refl
extract_bucket-null t i n c apart e null (suc fuel) ex s =
    rw (e, extract_bucket, null, remove_key-null t apart)
      (extract_bucket-null t i n c apart e null fuel ex (ex s none))

bucket-insert_data {ℓ} :
    {K D : Type ℓ} (t : HashTable K D) (d : D) (k : Option K)
    → slot t k < length t.buckets
    → bucket (insert_data t d k) (slot t k)
      ≡ record { hash = t.hash_func k; key = k; data' = d } ∷ bucket t (slot t k)
unfolding insert_data slot
bucket-insert_data t d k h =
    rw (get_or-set t.buckets (slot t k) (slot t k) _ [] h, (==_iff (slot t k) (slot t k)).1 refl)

find_key-insert_null {ℓ} :
    {K D : Type ℓ} (t : HashTable K D) (d : D)
    → slot t none < length t.buckets
    → t.key_cmp none none ≡ true
    → find_key (insert_data t d none) none ≡ some d
unfolding find_key find_chain insert_data slot
find_key-insert_null t d h same =
    ap (find_chain t.key_cmp none) (bucket-insert_data t d none h) ∙ rw same

add_data-insert_null {ℓ} :
    {K D : Type ℓ} (t : HashTable K D) (d : D)
    → t.key_for_data d ≡ none
    → find_key t none ≡ none
    → add_data t (some d) true ≡ (pos 0, insert_data t d none)
unfolding add_data
add_data-insert_null t d null absent = rw (null, absent, add_new) (rw null)

-- On a table with buckets, with a comparison that holds of NULL and NULL but not of any other key
-- and NULL: an entry whose key is NULL, added where none is found under NULL, is found under NULL;
-- HASH_remove_key of NULL returns NULL and changes nothing; and HASH_extract's loop at that
-- entry's bucket uses up any fuel.
pub add_data_null_key {ℓ κ} :
    {K D : Type ℓ} {S : Type κ} (t : HashTable K D) (d : D)
    → 0 < t.hash_size
    → length t.buckets ≡ t.hash_size
    → t.key_for_data d ≡ none
    → t.key_cmp none none ≡ true
    → ((a : K) → t.key_cmp (some a) none ≡ false)
    → find_key t none ≡ none
    → (fuel : ℕ) (ex : S → Option D → S) (s : S)
    → let t' = (add_data t (some d) true).1 in
      (find_key t' none ≡ some d)
      × (remove_key t' none ≡ (none, t'))
      × (extract_bucket fuel ex (slot t none) s t' ≡ none)
unfolding slot insert_data
add_data_null_key t d h width null same apart absent fuel ex s =
    let lt : slot t none < length t.buckets = rw width (grind arith) in
    rw (add_data-insert_null t d null absent) (
      find_key-insert_null t d lt same,
      remove_key-null _ apart,
      extract_bucket-null _ (slot t none) _ _ apart (bucket-insert_data t d none lt) refl fuel ex s,
    )
