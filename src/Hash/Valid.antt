-- ===== src/Hash/Valid.antt =====
-- What a hash table (hashtable.c) asks of its callbacks, and when it is well formed.
mod Bucket
pub use Bucket.{
  IsEquivalence, All, Distinct, HasKeys, find_chain-search, find_chain_congr, find_chain-unlink,
  Distinct-unlink, All-unlink, All-absent, find_chain_absent, search_chain-none,
}
use libproc.Prelude.{
  ℕ, ◌%◌, ◌<◌, ◌≡◌, refl, true, Option, List, [], length, get_or, length-replicate, arith,
}
use libproc.Hash.{HashTable, bucket, slot, create_table}
use libproc.Hash.Chain.{HashNode}

module _ {ℓ} {K D : Type ℓ} where
  -- The comparison is an equivalence, and equal keys have one hash.
  pub record IsLawful (t : HashTable K D) : Type ℓ where
    pub equivalence : IsEquivalence t.key_cmp
    pub hash-equal : (a b : Option K) → t.key_cmp a b ≡ true → t.hash_func a ≡ t.hash_func b

  -- Every bucket is there, no key is NULL or stands twice, and each stands in its home bucket.
  pub record IsValid (t : HashTable K D) : Type ℓ where
    pub lawful : IsLawful t
    pub positive : 0 < t.hash_size
    pub width : length t.buckets ≡ t.hash_size
    pub distinct : (i : ℕ) → Distinct t.key_cmp (bucket t i)
    pub keyed : (i : ℕ) → HasKeys (bucket t i)
    pub home : (i : ℕ) → All (λ n. slot t n.key ≡ i) (bucket t i)
