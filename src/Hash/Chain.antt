-- ===== src/Hash/Chain.antt =====
-- One bucket of a hash table: a linked list of nodes, as a list. A `struct HashNode **` into it is a
-- position.
use libproc.Prelude.{
  ℕ, zero, suc, Bool, true, false, ◌&&◌, Option, none, some, List, [], ◌∷◌, if◌then◌else◌,
  get_elem?,
}
use mathlib.Core.Option

-- struct HashNode
pub record HashNode {ℓ} (K D : Type ℓ) : Type ℓ where
  pub hash : ℕ
  pub key : Option K
  pub data' : D

abbrev pub is_some {ℓ} : {A : Type ℓ} → Option A → Bool
is_some none = false
is_some (some _) = true

module _ {ℓ} {K D : Type ℓ} where
  -- The loop of HASH_search_internal, which passes over NULL keys.
  unfoldable pub search_chain :
      (Option K → Option K → Bool) → Option K → List (HashNode K D) → Option ℕ
  search_chain cmp k [] = none
  search_chain cmp k (n ∷ c) =
      if is_some n.key && cmp n.key k then some 0 else Option.map suc (search_chain cmp k c)

  -- The loop of HASH_find_key, which compares every key.
  unfoldable pub find_chain :
      (Option K → Option K → Bool) → Option K → List (HashNode K D) → Option D
  find_chain cmp k [] = none
  find_chain cmp k (n ∷ c) = if cmp n.key k then some n.data' else find_chain cmp k c

  -- `(*nodePtr)->data`
  unfoldable pub node_data : List (HashNode K D) → ℕ → Option D
  node_data c i = Option.map (λ n. n.data') (get_elem? c i)

  -- `*nodePtr = node->next`
  unfoldable pub unlink : List (HashNode K D) → ℕ → List (HashNode K D)
  unlink [] i = []
  unlink (n ∷ c) zero = c
  unlink (n ∷ c) (suc i) = n ∷ unlink c i

module _ {ℓ κ} {K D : Type ℓ} {S : Type κ} where
  -- The inner loop of HASH_iterate_arg_table.
  unfoldable pub iterate_chain :
      (S → D → S × Bool) → S → List (HashNode K D) → S × List (HashNode K D)
  iterate_chain it s [] = (s, [])
  iterate_chain it s (n ∷ c) =
      let (s₁, drop) = it s n.data' in
      let (s₂, c') = iterate_chain it s₁ c in (s₂, if drop then c' else n ∷ c')
