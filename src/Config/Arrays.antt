-- ===== src/Config/Arrays.antt =====
-- config.c: CFG_PtrArrayAppendCB.
use libproc.Prelude.{
  ℕ, zero, suc, ◌+◌, ◌-◌, ◌<◌, ◌≤◌, ◌≡◌, refl, ◌∙◌, ap, inl, inr, Bool, true, false, ◌==◌, ltb,
  some, List, [], ◌∷◌, ◌++◌, length, set, take, replicate, length-append, length-take,
  length-replicate, length-set, arith, Bool-cases, lt→ltb, ==_iff, ==→ne, ne→==,
}
use libproc.Config.Values.{
  CfgArray, entries, appended, no_memory, overrun, put_last, enlarged, ptr_array_append,
}

-- The entries that are in use, in their order.
abbrev pub contents : CfgArray → List ℕ
contents a = take a.len (entries a.slots)

-- The capacity is the number of allocated entries, and at least `len`.
unfoldable pub IsArray : CfgArray → Type 0
IsArray a = (length (entries a.slots) ≡ a.capacity) × (a.len ≤ a.capacity)

not_below : (m n : ℕ) → n ≤ m → ltb m n ≡ false
not_below m n h = ground arith

take-set : (n v : ℕ) (s : List ℕ) → n < length s → take (suc n) (set s n v) ≡ take n s ++ v ∷ []
take-set zero v [] h = absurd (omega arith)
take-set zero v (x ∷ []) h = refl
take-set zero v (x ∷ y ∷ s) h = refl
take-set (suc n) v [] h = absurd (omega arith)
take-set (suc n) v (x ∷ s) h = ap (λ r. x ∷ r) (take-set n v s (omega arith))

take-append_le : (n : ℕ) (s t : List ℕ) → n ≤ length s → take n (s ++ t) ≡ take n s
take-append_le zero s t h = refl
take-append_le (suc n) [] t h = absurd (omega arith)
take-append_le (suc n) (x ∷ s) t h = ap (λ r. x ∷ r) (take-append_le n s t (omega arith))

take-take_same : (n : ℕ) (s : List ℕ) → take n (take n s) ≡ take n s
take-take_same zero s = refl
take-take_same (suc n) [] = refl
take-take_same (suc n) (x ∷ s) = ap (λ r. x ∷ r) (take-take_same n s)

-- One more entry, where there is room.
put_last-contents :
    (a : CfgArray) (v : ℕ)
    → IsArray a
    → a.len < a.capacity
    → (b : CfgArray) × (put_last a v ≡ some b) × IsArray b × (contents b ≡ contents a ++ v ∷ [])
unfolding IsArray
put_last-contents a v (exact, le) lt = (
  record a { len = suc a.len; slots = some (set (entries a.slots) a.len v) },
  rw (lt→ltb a.len (length (entries a.slots)) (omega (arith, exact))) refl,
  (length-set (entries a.slots) a.len v ∙ exact, omega arith),
  take-set a.len v (entries a.slots) (omega (arith, exact)),
)

enlarged-IsArray : (a : CfgArray) → IsArray a → a.len ≡ a.capacity → IsArray (enlarged a)
unfolding IsArray
enlarged-IsArray a (exact, le) full = (
  omega (
    arith,
    length-append (take a.len (entries a.slots)) (replicate (a.capacity + 5 - a.len) 0),
    length-take a.len (entries a.slots),
    length-replicate {A = ℕ} (a.capacity + 5 - a.len) 0,
  ),
  omega arith,
)

enlarged-contents : (a : CfgArray) → IsArray a → contents (enlarged a) ≡ contents a
unfolding IsArray
enlarged-contents a (exact, le) =
    take-append_le a.len (take a.len (entries a.slots)) (replicate (a.capacity + 5 - a.len) 0)
      (omega (arith, length-take a.len (entries a.slots)))
    ∙ take-take_same a.len (entries a.slots)

module _ (a : CfgArray) (v : ℕ) (valid : IsArray a) where
  -- On an array whose capacity is the number of its allocated entries and at least its length,
  -- CFG_PtrArrayAppendCB with memory appends the value behind the entries that are in use, also
  -- where the array has to grow, and keeps the array so.
  pub ptr_array_append-contents :
      (b : CfgArray) × (ptr_array_append a v true ≡ appended b)
      × IsArray b
      × (contents b ≡ contents a ++ v ∷ [])
  unfolding ptr_array_append IsArray
  ptr_array_append-contents = elim (Bool-cases (a.len == a.capacity)) [
    | inl e ↦
        let (b, eq, w, c) =
          put_last-contents (enlarged a) v (enlarged-IsArray a valid ((==_iff _ _).0 e))
            (omega (arith, valid.1)) in
        (
          b,
          rw (e, eq, ptr_array_append) refl,
          w,
          c ∙ ap (λ s. s ++ v ∷ []) (enlarged-contents a valid),
        )
    | inr e ↦
        let (b, eq, w, c) =
          put_last-contents a v valid (omega (arith, valid.1, ==→ne a.len a.capacity e)) in
        (b, rw (e, eq, ptr_array_append) refl, w, c)
  ]

  -- On a full array whose capacity is the number of its allocated entries: where malloc fails,
  -- CFG_PtrArrayAppendCB returns NULL and keeps the entries, and its next call, whether or not
  -- malloc succeeds, writes past the allocated entries.
  pub ptr_array_append-no_memory :
      (w : ℕ) (malloc_ok : Bool)
      → a.len ≡ a.capacity
      → (b : CfgArray) × (ptr_array_append a v false ≡ no_memory b)
        × (contents b ≡ contents a)
        × (ptr_array_append b w malloc_ok ≡ overrun)
  unfolding ptr_array_append IsArray
  ptr_array_append-no_memory w malloc_ok full = (
    record a { capacity = a.capacity + 5 },
    rw ((==_iff a.len a.capacity).1 full, ptr_array_append) refl,
    refl,
    rw
        (
          ne→== a.len (a.capacity + 5) (λ e. absurd (omega arith)),
          not_below a.len (length (entries a.slots)) (omega (arith, valid.0)),
          ptr_array_append,
        )
        refl,
  )
