-- ===== src/Hash/Iterate.antt =====
-- HASH_iterate_arg_table (hashtable.c): its loops over the buckets.
use libproc.Prelude.{
  ℕ, zero, suc, ◌≡◌, refl, Bool, Option, none, some, List, [], ◌∷◌, ◌++◌, get_or, map, arith,
  if◌then◌else◌, ◌∙◌, if_intro, length-map,
}
use libproc.Hash.{HashTable, slot, find_key, iterate_buckets, iterate_arg_table}
use libproc.Hash.Chain.{HashNode, find_chain, iterate_chain}
use libproc.Hash.Valid.{IsValid, IsEquivalence, All, Distinct, find_chain_absent}

abbrev pub foldl {ℓ κ} : {A : Type ℓ} {S : Type κ} → (S → A → S) → S → List A → S
foldl f s [] = s
foldl f s (x ∷ xs) = foldl f (f s x) xs

-- The data of the nodes of a chain.
abbrev pub data_of {ℓ} : {K D : Type ℓ} → List (HashNode K D) → List D
data_of = map λ n. n.data'

abbrev pub entries {ℓ} : {K D : Type ℓ} → List (List (HashNode K D)) → List D
entries [] = []
entries (c ∷ cs) = data_of c ++ entries cs

abbrev pub drop_if {ℓ} : {D : Type ℓ} → (D → Bool) → Option D → Option D
drop_if p none = none
drop_if p (some d) = if p d then none else some d

kept {ℓ} : {K D : Type ℓ} → (D → Bool) → List (HashNode K D) → List (HashNode K D)
kept p [] = []
kept p (n ∷ c) = if p n.data' then kept p c else n ∷ kept p c

pub foldl-append {ℓ κ} :
    {A : Type ℓ} {S : Type κ} (f : S → A → S) (s : S) (xs ys : List A)
    → foldl f s (xs ++ ys) ≡ foldl f (foldl f s xs) ys
foldl-append f s [] ys = refl
foldl-append f s (x ∷ xs) ys = foldl-append f (f s x) xs ys

All-kept {ℓ κ} :
    {K D : Type ℓ} (P : HashNode K D → Type κ) (p : D → Bool) (c : List (HashNode K D))
    → All P c
    → All P (kept p c)
unfolding kept
All-kept P p [] h = h
All-kept P p (n ∷ c) h =
    if_intro (All P) (p n.data') (λ _. All-kept P p c h.1) (λ _. (h.0, All-kept P p c h.1))

Distinct-kept {ℓ} :
    {K D : Type ℓ} (cmp : Option K → Option K → Bool) (p : D → Bool) (c : List (HashNode K D))
    → Distinct cmp c
    → Distinct cmp (kept p c)
unfolding kept
Distinct-kept cmp p [] h = h
Distinct-kept cmp p (n ∷ c) h =
    if_intro (Distinct cmp) (p n.data') (λ _. Distinct-kept cmp p c h.1)
      (λ _. (All-kept _ p c h.0, Distinct-kept cmp p c h.1))

find_chain-kept {ℓ} :
    {K D : Type ℓ} (cmp : Option K → Option K → Bool) (eqv : IsEquivalence cmp) (p : D → Bool)
    (q : Option K) (c : List (HashNode K D))
    → Distinct cmp c
    → find_chain cmp q (kept p c) ≡ drop_if p (find_chain cmp q c)
unfolding kept find_chain
find_chain-kept cmp eqv p q [] d = refl
find_chain-kept cmp eqv p q (n ∷ c) d =
    ground (arith, find_chain-kept cmp eqv p q c d.1, find_chain_absent cmp eqv n.key q c d.0)

get_or-kept {ℓ} :
    {K D : Type ℓ} (p : D → Bool) (bs : List (List (HashNode K D))) (i : ℕ)
    → get_or (map (kept p) bs) i [] ≡ kept p (get_or bs i [])
unfolding kept
get_or-kept p [] i = refl
get_or-kept p (c ∷ bs) zero = refl
get_or-kept p (c ∷ bs) (suc i) = get_or-kept p bs i

-- An iterator that changes its state by `f`, and drops what `p` holds of.
abbrev pub iterator {ℓ κ} : {D : Type ℓ} {S : Type κ} → (S → D → S) → (D → Bool) → S → D → S × Bool
iterator f p s d = (f s d, p d)

module _ {ℓ κ} {K D : Type ℓ} {S : Type κ} (f : S → D → S) (p : D → Bool) where
  iterate_chain-kept :
      (s : S) (c : List (HashNode K D))
      → iterate_chain (iterator f p) s c ≡ (foldl f s (data_of c), kept p c)
  unfolding iterate_chain kept
  iterate_chain-kept s [] = refl
  iterate_chain-kept s (n ∷ c) = rw (iterate_chain-kept (f s n.data') c)

  iterate_buckets-kept :
      (s : S) (bs : List (List (HashNode K D)))
      → iterate_buckets (iterator f p) s bs ≡ (foldl f s (entries bs), map (kept p) bs)
  unfolding iterate_buckets
  iterate_buckets-kept s [] = refl
  iterate_buckets-kept s (c ∷ bs) =
      rw (iterate_chain-kept s c, iterate_buckets-kept (foldl f s (data_of c)) bs, foldl-append)

  -- On a well-formed table, with an iterator that decides by the entry alone whether to drop it,
  -- HASH_iterate_arg_table leaves the iterator's state as a fold over the list of all entries
  -- does; every key is found as before, unless its entry was dropped, and the table stays well
  -- formed.
  pub iterate_arg_table-drop_if :
      (s : S) (t : HashTable K D)
      → IsValid t
      → let r = iterate_arg_table (iterator f p) s t in
        (r.0 ≡ foldl f s (entries t.buckets))
        × ((q : Option K) → find_key r.1 q ≡ drop_if p (find_key t q))
        × IsValid r.1
  unfolding iterate_arg_table find_key slot
  iterate_arg_table-drop_if s t v = rw (iterate_buckets-kept s t.buckets) (
    refl,
    λ q.
        rw (get_or-kept p t.buckets (slot t q))
          (find_chain-kept t.key_cmp v.lawful.equivalence p q _ (v.distinct _)),
    record {
      lawful = record { equivalence = v.lawful.equivalence; hash-equal = v.lawful.hash-equal };
      positive = v.positive;
      width = length-map t.buckets (kept p) ∙ v.width;
      distinct = λ i. rw (get_or-kept p t.buckets i) (Distinct-kept t.key_cmp p _ (v.distinct i));
      keyed = λ i. rw (get_or-kept p t.buckets i) (All-kept _ p _ (v.keyed i));
      home = λ i. rw (get_or-kept p t.buckets i) (All-kept _ p _ (v.home i));
    },
  )
