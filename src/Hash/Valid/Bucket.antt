-- ===== src/Hash/Valid/Bucket.antt =====
-- Laws of one bucket of a hash table (hashtable.c).
use mathlib.Core.Option
use libproc.Prelude.{
  ℕ, zero, suc, ◌≡◌, refl, Bool, true, false, Option, none, some, List, [], ◌∷◌, arith,
  if◌then◌else◌,
}
use libproc.Hash.Chain.{HashNode, is_some, search_chain, find_chain, node_data, unlink}

pub record IsEquivalence {ℓ} {A : Type ℓ} (cmp : A → A → Bool) : Type ℓ where
  pub reflexive : (a : A) → cmp a a ≡ true
  pub symmetric : (a b : A) → cmp a b ≡ cmp b a
  pub transitive : (a b c : A) → cmp a b ≡ true → cmp b c ≡ true → cmp a c ≡ true

abbrev pub All {ℓ κ} : {A : Type ℓ} → (A → Type κ) → List A → Type κ
All P [] = Unit
All P (x ∷ xs) = P x × All P xs

module _ {ℓ} {K D : Type ℓ} where
  -- No two nodes have equal keys.
  abbrev pub Distinct : (Option K → Option K → Bool) → List (HashNode K D) → Type 0
  Distinct cmp [] = Unit
  Distinct cmp (n ∷ c) = All (λ m. cmp n.key m.key ≡ false) c × Distinct cmp c

  abbrev pub HasKeys : List (HashNode K D) → Type 0
  HasKeys c = All (λ n. is_some n.key ≡ true) c

  pub All-unlink {κ} :
      (P : HashNode K D → Type κ) (c : List (HashNode K D)) (i : ℕ) → All P c → All P (unlink c i)
  unfolding unlink
  All-unlink P [] i h = h
  All-unlink P (n ∷ c) zero h = h.1
  All-unlink P (n ∷ c) (suc i) h = (h.0, All-unlink P c i h.1)

  module _ (cmp : Option K → Option K → Bool) where
    -- With keys that are not NULL, both searches stop at one node.
    pub find_chain-search :
        (k : Option K) (c : List (HashNode K D))
        → HasKeys c
        → find_chain cmp k c ≡ Option.bind (search_chain cmp k c) (node_data c)
    unfolding find_chain search_chain node_data Option.bind
    find_chain-search k [] h = refl
    find_chain-search k (n ∷ c) h = ground (arith, find_chain-search k c h.1)

    pub search_chain-none :
        (k : Option K) (c : List (HashNode K D))
        → HasKeys c
        → find_chain cmp k c ≡ none
        → search_chain cmp k c ≡ none
    unfolding find_chain search_chain
    search_chain-none k [] h e = refl
    search_chain-none k (n ∷ c) h e = ground (arith, search_chain-none k c h.1)

    module _ (eqv : IsEquivalence cmp) where
      pub find_chain_congr :
          (k q : Option K) (c : List (HashNode K D))
          → cmp k q ≡ true
          → find_chain cmp k c ≡ find_chain cmp q c
      unfolding find_chain
      find_chain_congr k q [] e = refl
      find_chain_congr k q (n ∷ c) e = ground (
        arith,
        find_chain_congr k q c,
        eqv.transitive n.key k q,
        eqv.transitive n.key q k,
        eqv.symmetric k q,
      )

      pub find_chain_absent :
          (k q : Option K) (c : List (HashNode K D))
          → All (λ m. cmp k m.key ≡ false) c
          → cmp k q ≡ true
          → find_chain cmp q c ≡ none
      unfolding find_chain
      find_chain_absent k q [] h e = refl
      find_chain_absent k q (n ∷ c) h e =
          ground (arith, find_chain_absent k q c, eqv.transitive k q n.key, eqv.symmetric n.key q)

      pub All-absent :
          (k : Option K) (c : List (HashNode K D))
          → find_chain cmp k c ≡ none
          → All (λ m. cmp k m.key ≡ false) c
      unfolding find_chain
      All-absent k [] e = tt
      All-absent k (n ∷ c) e = ground (arith, All-absent k c, eqv.symmetric n.key k)

      -- Once its node is out, a key is gone; the others are found as before.
      pub find_chain-unlink :
          (k q : Option K) (c : List (HashNode K D)) (i : ℕ)
          → Distinct cmp c
          → HasKeys c
          → search_chain cmp k c ≡ some i
          → find_chain cmp q (unlink c i) ≡ (if cmp k q then none else find_chain cmp q c)
      unfolding find_chain search_chain unlink
      find_chain-unlink k q [] i d h e = cc
      find_chain-unlink k q (n ∷ c) zero d h e = ground (
        arith,
        find_chain_absent n.key q c d.0,
        eqv.transitive n.key k q,
        eqv.transitive k n.key q,
        eqv.symmetric n.key k,
      )
      find_chain-unlink k q (n ∷ c) (suc i) d h e =
          ground
            (arith, find_chain-unlink k q c i d.1 h.1, eqv.transitive n.key q k, eqv.symmetric k q)

    pub Distinct-unlink :
        (c : List (HashNode K D)) (i : ℕ) → Distinct cmp c → Distinct cmp (unlink c i)
    unfolding unlink
    Distinct-unlink [] i d = d
    Distinct-unlink (n ∷ c) zero d = d.1
    Distinct-unlink (n ∷ c) (suc i) d = (All-unlink _ c i d.0, Distinct-unlink c i d.1)
