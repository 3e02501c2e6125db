-- ===== src/Threads/Weight.antt =====
-- pseudo_threads.c: a bound on the swaps that the threads have left.
use libproc.Prelude.{
  ℕ, zero, suc, ◌+◌, ◌*◌, ◌<◌, ◌≤◌, ◌≡◌, refl, ◌∙◌, ap, ◌≢◌, ne→==, ==→ne, ltb, ltb→lt, ◌==◌,
  Option, none, some, if◌then◌else◌, arith, Bool-cases, inl, inr, ==_iff, if_intro,
}
use libproc.Threads.State.{
  Program, Context, PThread, PseudoThreadState, at_start, after_wait, in_transfer, not_saved,
  ready_queue, returns, blocks, waits, transfers, unblocks, creates, destroys, put_at, store,
}
use libproc.Threads.Queues.{in_queue, Changes}

unfoldable pub size : Program → ℕ
size returns = 0
size (blocks arg p) = size p
size (waits msecs p) = size p
size (transfers w fd timeout moves late fails) = size moves + size late + size fails
size (unblocks arg p) = 1 + size p
size (creates main p) = 1 + size main + size p
size (destroys arg p) = size p

unfoldable pub context_size : Context → ℕ
unfolding size
context_size (at_start p) = size p
context_size (after_wait p) = size p
context_size (in_transfer w fd timeout moves late fails) = size moves + size late + size fails
context_size not_saved = 0

unfoldable pub thread_weight : Option PThread → ℕ
unfolding context_size
thread_weight none = 0
thread_weight (some th) = 2 * context_size th.ctx + (if in_queue th.head ready_queue then 1 else 0)

unfoldable pub total : ℕ → (ℕ → Option PThread) → ℕ
unfolding thread_weight
total zero threads = 0
total (suc n) threads = thread_weight (threads n) + total n threads

unfoldable pub weight : PseudoThreadState → ℕ
unfolding total
weight st = total st.next_thread st.threads

pub total_same :
    (n : ℕ) (f g : ℕ → Option PThread) → ((i : ℕ) → i < n → g i ≡ f i) → total n g ≡ total n f
unfolding total
total_same zero f g h = refl
total_same (suc n) f g h = rw (h n (omega arith), total_same n f g (λ i lt. h i (omega arith))) refl

pub other : {i : ℕ} (t : ℕ) (a b : Option PThread) → i ≢ t → (if i == t then a else b) ≡ b
other t a b ne = rw (ne→== _ t ne) refl

total-put_at :
    (n t : ℕ) (f g : ℕ → Option PThread) (o : Option PThread)
    → ((i : ℕ) → g i ≡ put_at f t o i)
    → t < n
    → total n g + thread_weight (f t) ≡ total n f + thread_weight o
unfolding total
total-put_at zero t f g o h lt = absurd (omega arith)
total-put_at (suc n) t f g o h lt = elim (Bool-cases (n == t)) [
  | inl e ↦ omega (
    arith,
    total_same n f g
        (λ i lt'. h i ∙ other t o (f i) (λ eq. absurd (omega (arith, (==_iff n t).0 e)))),
    ap thread_weight {y = o} (h n ∙ rw e refl),
    ap (λ j. thread_weight (f j)) ((==_iff n t).0 e),
  )
  | inr e ↦ omega (
    arith,
    total-put_at n t f g o h (omega (arith, ==→ne n t e)),
    ap thread_weight {y = f n} (h n ∙ rw e refl),
  )
]

total-freed : (n g : ℕ) (f : ℕ → Option PThread) → total n (put_at f g none) ≤ total n f
unfolding total thread_weight
total-freed zero g f = omega arith
total-freed (suc n) g f =
    if_intro (λ o. thread_weight o + total n (put_at f g none) ≤ thread_weight (f n) + total n f)
      (n == g) (λ e. omega (arith, total-freed n g f)) (λ e. omega (arith, total-freed n g f))

pub freed-weight :
    (st : PseudoThreadState) (g : ℕ)
    → weight (record (store st g none) { goner = none }) ≤ weight st
unfolding weight
freed-weight st g = total-freed st.next_thread g st.threads

-- No thread has an address that malloc has yet to return.
unfoldable pub Fresh : PseudoThreadState → Type 0
Fresh st = (i : ℕ) → st.next_thread ≤ i → st.threads i ≡ none

pub live-old :
    (st : PseudoThreadState) (t : ℕ) (th : PThread)
    → Fresh st
    → st.threads t ≡ some th
    → t < st.next_thread
unfolding Fresh
live-old st t th fresh live = elim (Bool-cases (ltb t st.next_thread)) [
  | inl e ↦ ltb→lt t st.next_thread e
  | inr e ↦ absurd (cc (live, fresh t (ground (arith, e))))
]

pub weight-Changes :
    (st s : PseudoThreadState) (t : ℕ) (th : PThread) (o : Option PThread)
    → Changes st s t o
    → Fresh st
    → st.threads t ≡ some th
    → weight s + thread_weight (some th) ≡ weight st + thread_weight o
unfolding weight
weight-Changes st s t th o (_, n, _, f) fresh live = omega (
  arith,
  total-put_at st.next_thread t st.threads s.threads o f (live-old st t th fresh live),
  ap thread_weight live,
  ap (λ k. total k s.threads) n,
)

pub Fresh-Changes :
    (st s : PseudoThreadState) (t : ℕ) (th : PThread) (o : Option PThread)
    → Changes st s t o
    → Fresh st
    → st.threads t ≡ some th
    → Fresh s
unfolding Fresh
Fresh-Changes st s t th o (_, n, _, f) fresh live i le =
    f i
    ∙ other t o (st.threads i) (λ eq. absurd (omega (arith, live-old st t th fresh live)))
    ∙ fresh i (omega arith)
