-- ===== src/Ipc/Drain.antt =====
-- ipc.c: ipc_process_buffer.
use libproc.Prelude.{
  ℕ, zero, suc, ◌+◌, ◌-◌, ◌<◌, ◌≤◌, ◌≡◌, refl, sym, ◌∙◌, ap, inl, inr, ◌==◌, ◌||◌, Option, none,
  some, List, [], ◌∷◌, ◌++◌, length, take, drop, length-append, length-drop, length-take,
  take-append, arith, Bool-cases, ==_iff, ==→ne,
}
use libproc.Ipc.Invariant.{IsBlock, IsAllocated, length-contents}
use libproc.Ipc.{IpcBuffer, stored_in, contents, consumed, shifted, is_null, ipc_process_buffer}

drop-all : (n : ℕ) (s : List ℕ) → length s ≤ n → drop n s ≡ []
drop-all zero [] h = refl
drop-all zero (x ∷ s) h = absurd (omega arith)
drop-all (suc n) [] h = refl
drop-all (suc n) (x ∷ s) h = drop-all n s (omega arith)

take-front : (n : ℕ) (s t : List ℕ) → n ≡ length s → take n (s ++ t) ≡ s
take-front n s t h = ap (λ k. take k (s ++ t)) h ∙ take-append s t

shifted-contents :
    (b : IpcBuffer) (n : ℕ)
    → IsAllocated b
    → n ≤ b.data_len
    → contents (shifted b n) ≡ drop n (contents b)
shifted-contents b zero ok le = refl
shifted-contents b (suc n) ok le = elim (Bool-cases (suc n == b.data_len)) [
  | inl e ↦
      rw e (
        sym (drop-all (suc n) (contents b) (omega (arith, length-contents b ok, (==_iff _ _).0 e))))
  | inr e ↦ rw e (
      take-front (b.data_len - suc n) (drop (suc n) (contents b))
        (drop (b.data_len - suc n) (stored_in b.memory))
        (omega (arith, length-drop (suc n) (contents b), length-contents b ok)))
]

shifted-IsAllocated :
    (a d n : ℕ) (memory : Option (List ℕ))
    → IsBlock a d memory
    → n ≤ d
    → IsAllocated (shifted (record { alloc_len = a; data_len = d; memory = memory }) n)
unfolding IsAllocated IsBlock
shifted-IsAllocated a d zero memory ok le = ok
shifted-IsAllocated a d (suc n) none ok le = absurd (omega (arith, ok))
shifted-IsAllocated a d (suc n) (some block) (whole, fits, one, small) le =
    elim (Bool-cases (suc n == d)) [
      | inl e ↦ rw e (whole, omega arith, one, small)
      | inr e ↦ rw e (
        omega (
          arith,
          length-append (drop (suc n) (take d block)) (drop (d - suc n) block),
          length-drop (suc n) (take d block),
          length-drop (d - suc n) block,
          length-take d block,
        ),
        omega arith,
        one,
        small,
      )
    ]

module _ {S : Type 0} (cb : S → List ℕ → S × ℕ)
    (within : (s : S) (text : List ℕ) → (cb s text).1 ≤ length text) where
  consumed-ends :
      (fuel : ℕ) (s : S) (text : List ℕ) (n : ℕ)
      → n ≤ length text
      → length text - n < fuel
      → (s₁ : S) × (m : ℕ) × (consumed cb fuel s text n ≡ some (s₁, m)) × (m ≤ length text)
  unfolding consumed
  consumed-ends zero s text n le lt = absurd (omega arith)
  consumed-ends (suc fuel) s text n le lt = elim (Bool-cases ((cb s (drop n text)).1 == 0)) [
    | inl e ↦ ((cb s (drop n text)).0, n, rw e refl, le)
    | inr e ↦
        let w = within s (drop n text) in
        let (s₁, m, eq, le') =
          consumed-ends fuel (cb s (drop n text)).0 text (n + (cb s (drop n text)).1)
            (omega (arith, w, length-drop n text))
            (omega (arith, w, length-drop n text, ==→ne _ _ e)) in
        (s₁, m, rw e eq, le')
  ]

  pub ipc_process_buffer-contents :
      (fuel : ℕ) (s : S) (b : IpcBuffer)
      → IsAllocated b
      → b.data_len < fuel
      → (s₁ : S) × (n : ℕ) × (b₁ : IpcBuffer) × (ipc_process_buffer cb fuel s b ≡ some (s₁, n, b₁))
        × (n ≤ b.data_len)
        × (contents b₁ ≡ drop n (contents b))
        × IsAllocated b₁
  unfolding ipc_process_buffer IsAllocated
  ipc_process_buffer-contents fuel s b ok lt =
      elim (Bool-cases (is_null b.memory || b.data_len == 0)) [
        | inl e ↦ (s, 0, b, rw (e, ipc_process_buffer) refl, omega arith, refl, ok)
        | inr e ↦
            let (s₁, n, eq, le) =
              consumed-ends fuel s (contents b) 0 (omega arith)
                (omega (arith, length-contents b ok)) in
            let le' : n ≤ b.data_len = omega (arith, length-contents b ok) in
            (
              s₁,
              n,
              shifted b n,
              rw (e, eq, ipc_process_buffer) refl,
              le',
              shifted-contents b n ok le',
              shifted-IsAllocated b.alloc_len b.data_len n b.memory ok le',
            )
      ]
