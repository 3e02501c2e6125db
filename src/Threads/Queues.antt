-- ===== src/Threads/Queues.antt =====
-- pseudo_threads.c: the queues and the `head` of a thread.
use libproc.Prelude.{
  ℕ, suc, ◌+◌, ◌<◌, ◌≡◌, refl, sym, ◌∙◌, inl, inr, Bool, true, false, ◌==◌, Option, none, some,
  List, [], ◌∷◌, if◌then◌else◌, arith, Bool-cases, Option-cases, ==_iff,
}
use libproc.Threads.State.{
  PtQueue, PThread, PseudoThreadState, curr_queue, ready_queue, blocked_queue, same_queue, queue_of,
  set_queue, put_at, store, unlink_thread, dequeue_from, dequeue_thread, enqueue_thread, move_to,
}

unfoldable pub count : ℕ → List ℕ → ℕ
count t [] = 0
count t (u ∷ l) = let rest = count t l in if u == t then suc rest else rest

abbrev pub in_queue : Option PtQueue → PtQueue → Bool
in_queue none q = false
in_queue (some p) q = same_queue p q

-- A freed thread is in no queue.
abbrev pub head_of : Option PThread → Option PtQueue
head_of none = none
head_of (some th) = th.head

-- A thread is once in the queue that its `head` names and in no other.
unfoldable pub Placed : PseudoThreadState → Type 0
Placed st =
    (t : ℕ) (q : PtQueue)
    → count t (queue_of st q) ≡ (if in_queue (head_of (st.threads t)) q then 1 else 0)

-- The thread has changed, and no other has.
abbrev pub Changes : PseudoThreadState → PseudoThreadState → ℕ → Option PThread → Type 0
Changes st s t th =
    Placed s
    × (s.next_thread ≡ st.next_thread)
    × (s.goner ≡ st.goner)
    × ((i : ℕ) → s.threads i ≡ put_at st.threads t th i)

unlink_thread-count :
    (t : ℕ) (l : List ℕ)
    → 0 < count t l
    → (l' : List ℕ) × (unlink_thread t l ≡ some l')
      × ((i : ℕ) → count i l' + (if t == i then 1 else 0) ≡ count i l)
unfolding unlink_thread count
unlink_thread-count t [] h = absurd (omega arith)
unlink_thread-count t (u ∷ l) h = elim (Bool-cases (u == t)) [
  | inl e ↦ (l, rw e refl, λ i. ground (arith, (==_iff u t).0 e))
  | inr e ↦
      let (l', eq, c) = unlink_thread-count t l (ground (arith, e)) in
      (u ∷ l', rw (e, eq) refl, λ i. ground (arith, c i))
]

set_queue-count :
    (st : PseudoThreadState) (q p : PtQueue) (l : List ℕ) (i : ℕ)
    → count i (queue_of (set_queue st q l) p)
      ≡ (if same_queue q p then count i l else count i (queue_of st p))
set_queue-count st curr_queue curr_queue l i = refl
set_queue-count st curr_queue ready_queue l i = refl
set_queue-count st curr_queue blocked_queue l i = refl
set_queue-count st ready_queue curr_queue l i = refl
set_queue-count st ready_queue ready_queue l i = refl
set_queue-count st ready_queue blocked_queue l i = refl
set_queue-count st blocked_queue curr_queue l i = refl
set_queue-count st blocked_queue ready_queue l i = refl
set_queue-count st blocked_queue blocked_queue l i = refl

same_queue-eq : (q p : PtQueue) → same_queue q p ≡ true → q ≡ p
same_queue-eq q p h = ground arith

set_queue-threads :
    (st : PseudoThreadState) (q : PtQueue) (l : List ℕ) → (set_queue st q l).threads ≡ st.threads
set_queue-threads st q l = ground arith

store-count :
    (st : PseudoThreadState) (q p : PtQueue) (l : List ℕ) (t i : ℕ) (o : Option PThread)
    → count i (queue_of (store (set_queue st q l) t o) p)
      ≡ (if same_queue q p then count i l else count i (queue_of st p))
store-count st q curr_queue l t i o = set_queue-count st q curr_queue l i
store-count st q ready_queue l t i o = set_queue-count st q ready_queue l i
store-count st q blocked_queue l t i o = set_queue-count st q blocked_queue l i

queue_of-store :
    (st : PseudoThreadState) (t : ℕ) (o : Option PThread) (i : ℕ) (q : PtQueue)
    → count i (queue_of (store st t o) q) ≡ count i (queue_of st q)
queue_of-store st t o i curr_queue = refl
queue_of-store st t o i ready_queue = refl
queue_of-store st t o i blocked_queue = refl

same_queue_refl : (q : PtQueue) → same_queue q q ≡ true
same_queue_refl q = ground arith

module _ (st : PseudoThreadState) (placed : Placed st) (t : ℕ) (q : PtQueue) (l : List ℕ)
    (o : Option PThread) (others : (i : ℕ) → (i == t) ≡ false → count i l ≡ count i (queue_of st q))
    (own : count t l ≡ (if in_queue (head_of o) q then 1 else 0))
    (rest : (p : PtQueue)
      → same_queue q p ≡ false
      → in_queue (head_of o) p ≡ in_queue (head_of (st.threads t)) p) where
  queue-count :
      (i : ℕ) → count i l ≡ (if in_queue (head_of (put_at st.threads t o i)) q then 1 else 0)
  unfolding Placed
  queue-count i = elim (Bool-cases (i == t)) [
    | inl e ↦ rw (e, (==_iff i t).0 e) own
    | inr e ↦ rw e (others i e ∙ placed i q)
  ]

  other-count :
      (i : ℕ) (p : PtQueue)
      → same_queue q p ≡ false
      → count i (queue_of st p) ≡ (if in_queue (head_of (put_at st.threads t o i)) p then 1 else 0)
  unfolding Placed
  other-count i p d = elim (Bool-cases (i == t)) [
    | inl e ↦ rw (e, rest p d, (==_iff i t).0 e) (placed t p)
    | inr e ↦ rw e (placed i p)
  ]

  store-Changes : Changes st (store (set_queue st q l) t o) t o
  unfolding Placed
  store-Changes = (
    λ i p.
        store-count st q p l t i o
        ∙ rw (set_queue-threads st q l) (elim (Bool-cases (same_queue q p)) [
          | inl s ↦ rw (s, sym (same_queue-eq q p s)) (queue-count i)
          | inr s ↦ rw s (other-count i p s)
        ]),
    ground arith,
    ground arith,
    λ i. rw (set_queue-threads st q l) refl,
  )

module _ (st : PseudoThreadState) (placed : Placed st) (t : ℕ) (th : PThread)
    (live : st.threads t ≡ some th) where
  here : (q : PtQueue) → th.head ≡ some q → count t (queue_of st q) ≡ 1
  unfolding Placed
  here q h = placed t q ∙ rw (live, h, same_queue_refl q) refl

  nowhere : th.head ≡ none → (q : PtQueue) → count t (queue_of st q) ≡ 0
  unfolding Placed
  nowhere h q = placed t q ∙ rw (live, h) refl

  dequeue_from-Changes :
      (q : PtQueue)
      → th.head ≡ some q
      → Changes st (dequeue_from st t th q) t (some (record th { head = none }))
  unfolding dequeue_from
  dequeue_from-Changes q h =
      let (l', eq, c) = unlink_thread-count t (queue_of st q) (omega (arith, here q h)) in
      rw (eq, dequeue_from)
        (store-Changes st placed t q l' (some (record th { head = none }))
          (λ i e. ground (arith, c i, ==_iff t i, ==_iff i t)) (ground (arith, c t, here q h))
          (λ p d. rw (live, h, d) refl))

  unchanged : th.head ≡ none → Changes st st t (some (record th { head = none }))
  unchanged h = (
    placed,
    refl,
    refl,
    λ i. elim (Bool-cases (i == t)) [
      | inl e ↦ rw (e, (==_iff i t).0 e, live, sym h) refl
      | inr e ↦ rw e refl
    ],
  )

  pub dequeue_thread-Changes :
      (s : PseudoThreadState) × (dequeue_thread st t ≡ some s)
      × Changes st s t (some (record th { head = none }))
  unfolding dequeue_thread
  dequeue_thread-Changes = elim (Option-cases th.head) [
    | inl h ↦ (st, rw (live, h, dequeue_thread) refl, unchanged h)
    | inr (q, h) ↦
        (dequeue_from st t th q, rw (live, h, dequeue_thread) refl, dequeue_from-Changes q h)
  ]

  pub enqueue_thread-Changes :
      th.head ≡ none
      → (q : PtQueue)
      → (s : PseudoThreadState) × (enqueue_thread st t q ≡ some s)
        × Changes st s t (some (record th { head = some q }))
  unfolding enqueue_thread count
  enqueue_thread-Changes h q = (
    store (set_queue st q (t ∷ queue_of st q)) t (some (record th { head = some q })),
    rw (live, enqueue_thread) refl,
    store-Changes st placed t q (t ∷ queue_of st q) (some (record th { head = some q }))
        (λ i e. ground (arith, e, ==_iff t i, ==_iff i t))
        (rw (same_queue_refl q) (ground (arith, nowhere h q))) (λ p d. rw (live, h, d) refl),
  )

-- The second change of the same thread counts.
pub Changes-again :
    (st s u : PseudoThreadState) (t : ℕ) (a b : Option PThread)
    → Changes st s t a
    → Changes s u t b
    → Changes st u t b
Changes-again st s u t a b (_, n, g, f) (placed, n', g', f') = (
  placed,
  n' ∙ n,
  g' ∙ g,
  λ i. f' i ∙ elim (Bool-cases (i == t)) [ inl e ↦ rw e refl | inr e ↦ rw (e, f i, e) refl ],
)

pub Changes-live :
    (st s : PseudoThreadState) (t : ℕ) (o : Option PThread) → Changes st s t o → s.threads t ≡ o
Changes-live st s t o (_, n, g, f) = f t ∙ rw ((==_iff t t).1 refl) refl

pub Changes-here :
    (st s : PseudoThreadState) (t : ℕ) (o : Option PThread)
    → Changes st s t o
    → (i : ℕ) → (i == t) ≡ true
    → s.threads i ≡ o
Changes-here st s t o (_, n, g, f) i e = f i ∙ rw e refl

pub Changes-else :
    (st s : PseudoThreadState) (t : ℕ) (o : Option PThread)
    → Changes st s t o
    → (i : ℕ) → (i == t) ≡ false
    → s.threads i ≡ st.threads i
Changes-else st s t o (_, n, g, f) i e = f i ∙ rw e refl

-- A live thread moves from the queue that it is in to the one asked for.
pub move_to-Changes :
    (st : PseudoThreadState) (t : ℕ) (th : PThread) (q : PtQueue)
    → Placed st
    → st.threads t ≡ some th
    → (s : PseudoThreadState) × (move_to st t q ≡ some s)
      × Changes st s t (some (record th { head = some q }))
unfolding move_to
move_to-Changes st t th q placed live =
    let (s, eq, c) = dequeue_thread-Changes st placed t th live in
    let (u, eq', d) =
      enqueue_thread-Changes s c.0 t (record th { head = none }) (Changes-live st s t _ c) refl q in
    (u, rw (eq, eq', move_to) refl, Changes-again st s u t _ _ c d)

-- A change of a thread's other fields moves nothing.
pub store-Placed :
    (st : PseudoThreadState) (t : ℕ) (o : Option PThread)
    → Placed st
    → head_of o ≡ head_of (st.threads t)
    → Changes st (store st t o) t o
unfolding Placed
store-Placed st t o placed h = (
  λ i q.
      queue_of-store st t o i q
      ∙ placed i q
      ∙ elim (Bool-cases (i == t)) [ inl e ↦ rw (e, h, (==_iff i t).0 e) refl | inr e ↦ rw e refl ],
  refl,
  refl,
  λ i. refl,
)
