-- ===== src/Threads/Invariant.antt =====
-- pseudo_threads.c: what holds while a thread runs, and what holds once it has been swapped out.
use libproc.Prelude.{
  ℕ, ◌<◌, ◌≡◌, refl, sym, ◌∙◌, ap, inl, inr, Bool, true, false, ◌==◌, Option, none, some, List, [],
  ◌∷◌, arith, Bool-cases, Option-cases, ==_iff, ==→ne,
}
use libproc.Threads.State.{
  PThread, PseudoThreadState, curr_queue, ready_queue, blocked_queue, first,
}
use libproc.Threads.Queues.{in_queue, head_of, count, Placed, Changes, Changes-here, Changes-else}
use libproc.Threads.Weight.{Fresh, Fresh-Changes}

abbrev pub on_curr : Option PThread → Bool
on_curr o = in_queue (head_of o) curr_queue

-- While thread `t` runs: no other thread is the current one, and none waits to be freed.
unfoldable pub Running : ℕ → PseudoThreadState → Type 0
Running t st =
    Placed st
    × Fresh st
    × (st.goner ≡ none)
    × ((i : ℕ) → on_curr (st.threads i) ≡ true → i ≡ t)
    × ((th : PThread) × (st.threads t ≡ some th))

-- After a swap: no thread is the current one, and one that waits to be freed is in no queue.
unfoldable pub Away : PseudoThreadState → Type 0
Away st =
    Placed st
    × Fresh st
    × ((g : ℕ) → st.goner ≡ some g → head_of (st.threads g) ≡ none)
    × ((i : ℕ) → on_curr (st.threads i) ≡ false)

-- Between two turns of PT_run_all: no thread is the current one or waits to be freed.
unfoldable pub Resting : PseudoThreadState → Type 0
Resting st = Placed st × Fresh st × (st.goner ≡ none) × ((i : ℕ) → on_curr (st.threads i) ≡ false)

count-first : (u : ℕ) (l : List ℕ) → first l ≡ some u → 0 < count u l
unfolding count
count-first u [] h = absurd (cc h)
count-first u (v ∷ l) h = ground (arith, h)

first-none : (l : List ℕ) → first l ≡ none → l ≡ []
first-none [] h = refl
first-none (u ∷ l) h = absurd (cc h)

on_curr-count :
    (st : PseudoThreadState)
    → Placed st
    → (u : ℕ) → 0 < count u st.curr
    → on_curr (st.threads u) ≡ true
unfolding Placed
on_curr-count st placed u h = ground (arith, placed u curr_queue)

-- States with the same queues and threads.
abbrev pub Same : PseudoThreadState → PseudoThreadState → Type 0
Same a b =
    (a.curr ≡ b.curr)
    × (a.ready ≡ b.ready)
    × (a.blocked ≡ b.blocked)
    × (a.threads ≡ b.threads)
    × (a.next_thread ≡ b.next_thread)

pub Placed-same :
    (a b : PseudoThreadState)
    → a.curr ≡ b.curr
    → a.ready ≡ b.ready
    → a.blocked ≡ b.blocked
    → a.threads ≡ b.threads
    → Placed a
    → Placed b
unfolding Placed
Placed-same a b c r k th placed i curr_queue = rw (sym c, sym th) (placed i curr_queue)
Placed-same a b c r k th placed i ready_queue = rw (sym r, sym th) (placed i ready_queue)
Placed-same a b c r k th placed i blocked_queue = rw (sym k, sym th) (placed i blocked_queue)

pub Fresh-Same : (a b : PseudoThreadState) → Same a b → Fresh a → Fresh b
unfolding Fresh
Fresh-Same a b (c, r, k, th, n) fresh = rw (sym th, sym n) fresh

pub Running-Same :
    (t : ℕ) (a b : PseudoThreadState) → Same a b → a.goner ≡ b.goner → Running t a → Running t b
unfolding Running
Running-Same t a b same g (placed, fresh, gone, only, live) = (
  Placed-same a b (same.0) (same.1) (same.2) (same.3) placed,
  Fresh-Same a b same fresh,
  sym g ∙ gone,
  rw (sym (same.3)) only,
  rw (sym (same.3)) live,
)

-- A change of a thread, which becomes the current one only if it is the one that runs.
pub Running-Changes :
    (t : ℕ) (st s : PseudoThreadState) (u : ℕ) (th th' : PThread)
    → Running t st
    → st.threads u ≡ some th
    → Changes st s u (some th')
    → (on_curr (some th') ≡ true → u ≡ t)
    → Running t s
unfolding Running
Running-Changes t st s u th th' (placed, fresh, gone, only, (self, live)) live_u c own = (
  c.0,
  Fresh-Changes st s u th (some th') c fresh live_u,
  c.2 ∙ gone,
  λ i h. elim (Bool-cases (i == u)) [
    | inl e ↦ (==_iff i u).0 e ∙ own (ap on_curr (sym (Changes-here st s u (some th') c i e)) ∙ h)
    | inr e ↦ only i (ap on_curr (sym (Changes-else st s u (some th') c i e)) ∙ h)
  ],
  elim (Bool-cases (t == u)) [
    | inl e ↦ (th', Changes-here st s u (some th') c t e)
    | inr e ↦ (self, Changes-else st s u (some th') c t e ∙ live)
  ],
)

-- The thread that runs leaves the current queue.
pub leaves-Nobody :
    (t : ℕ) (st s : PseudoThreadState) (th' : PThread)
    → Running t st
    → Changes st s t (some th')
    → on_curr (some th') ≡ false
    → (i : ℕ) → on_curr (s.threads i) ≡ false
unfolding Running
leaves-Nobody t st s th' (placed, fresh, gone, only, live) c off i = elim (Bool-cases (i == t)) [
  | inl e ↦ ap on_curr (Changes-here st s t (some th') c i e) ∙ off
  | inr e ↦
      ap on_curr (Changes-else st s t (some th') c i e)
      ∙ elim (Bool-cases (on_curr (st.threads i))) [
        | inl h ↦ absurd (==→ne i t e (only i h))
        | inr h ↦ h
      ]
]

pub Away-leaves :
    (t : ℕ) (st s : PseudoThreadState) (th th' : PThread)
    → Running t st
    → st.threads t ≡ some th
    → Changes st s t (some th')
    → on_curr (some th') ≡ false
    → Away s
unfolding Running Away
Away-leaves t st s th th' r live c off = (
  c.0,
  Fresh-Changes st s t th (some th') c r.1 live,
  λ g h. absurd (cc (h, c.2, r.2)),
  leaves-Nobody t st s th' r c off,
)

-- The current thread is the one that runs.
pub first-curr : (t u : ℕ) (st : PseudoThreadState) → Running t st → first st.curr ≡ some u → u ≡ t
unfolding Running Placed
first-curr t u st (placed, fresh, gone, only, live) h =
    only u (on_curr-count st placed u (count-first u st.curr h))

-- Without a current thread the assertion of PT_run_all holds.
pub Away-curr : (st : PseudoThreadState) → Away st → st.curr ≡ []
unfolding Away Placed
Away-curr st (placed, fresh, gone, nobody) = elim (Option-cases (first st.curr)) [
  | inl h ↦ first-none st.curr h
  | inr (u, h) ↦ absurd (cc (nobody u, on_curr-count st placed u (count-first u st.curr h)))
]
