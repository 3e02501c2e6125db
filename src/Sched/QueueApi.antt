-- ===== src/Sched/QueueApi.antt =====
-- The priority queue that the event loop keeps its timed events in. It is the vendored libpqueue
-- (priorityQueue.c), so its operations are parameters, with what its documentation promises.
-- An entry is a pointer. Its priority is read through a callback whenever the queue compares, so an
-- operation is given the priorities as they are stored at the call.
use libproc.Prelude.{
  ℕ, ◌+◌, ◌<◌, ◌≡◌, ◌==◌, ◌≢◌, true, false, Bool, ◌&&◌, Option, none, some, if◌then◌else◌,
}
use libproc.Timeval.{Timeval, timercmp, ge, le}

abbrev pub Priorities : Type 0
Priorities = ℕ → Timeval

abbrev pub update_pri : Priorities → ℕ → Timeval → Priorities
update_pri pri x t y = if x == y then t else pri y

pub record PQueue : Type 1 where
  pub Queue : Type 0
  pub init : Queue
  -- `none` for a result other than 0: out of memory, the queue is as it was.
  pub insert : Priorities → Queue → ℕ → Option Queue
  pub pop : Priorities → Queue → Queue
  pub peek : Queue → Option ℕ
  pub remove : Priorities → Queue → ℕ → Queue
  pub change_priority : Priorities → Queue → Timeval → ℕ → Queue
  -- How often a pointer is in the queue, and that it is arranged by these priorities.
  pub count : ℕ → Queue → ℕ
  pub IsOrdered : Priorities → Queue → Type 0

-- The order that EVT_create_context gives the queue: an entry may stay below one that is as late.
abbrev pub cmp_pri : Timeval → Timeval → Bool
cmp_pri next curr = timercmp next curr ge

-- By that order, no other entry is as early as this one and as late.
abbrev pub HasNoTie : (pq : PQueue) → Priorities → pq.Queue → ℕ → Type 0
HasNoTie pq pri q x =
    (z : ℕ)
    → 0 < pq.count z q
    → z ≢ x
    → (cmp_pri (pri z) (pri x) && cmp_pri (pri x) (pri z)) ≡ false

-- What holds of the entries. With `cmp_pri`, a removal takes another entry than the one it was asked
-- for when that one is the heap's last and its parent is as late; so the law of the removal is for an
-- ordered queue in which the entry's priority is its own.
pub record IsPQueue (pq : PQueue) : Type 1 where
  pub count-init : (y : ℕ) → pq.count y pq.init ≡ 0
  pub count-insert :
      (pri : Priorities) (q : pq.Queue) (x : ℕ) {q' : pq.Queue} (y : ℕ)
      → pq.insert pri q x ≡ some q'
      → pq.count y q' ≡ (if x == y then 1 else 0) + pq.count y q
  pub peek-none : (q : pq.Queue) (y : ℕ) → pq.peek q ≡ none → pq.count y q ≡ 0
  pub peek-some : (q : pq.Queue) (x : ℕ) → pq.peek q ≡ some x → 0 < pq.count x q
  pub count-pop :
      (pri : Priorities) (q : pq.Queue) (x y : ℕ)
      → pq.peek q ≡ some x
      → (if x == y then 1 else 0) + pq.count y (pq.pop pri q) ≡ pq.count y q
  pub count-remove :
      (pri : Priorities) (q : pq.Queue) (x y : ℕ)
      → pq.IsOrdered pri q
      → HasNoTie pq pri q x
      → 0 < pq.count x q
      → (if x == y then 1 else 0) + pq.count y (pq.remove pri q x) ≡ pq.count y q
  pub count-change_priority :
      (pri : Priorities) (q : pq.Queue) (t : Timeval) (x y : ℕ)
      → 0 < pq.count x q
      → pq.count y (pq.change_priority pri q t x) ≡ pq.count y q

-- What holds of the order. Its own record, since one caller does not keep to its conditions.
pub record IsOrdering (pq : PQueue) : Type 1 where
  pub peek-le :
      (pri : Priorities) (q : pq.Queue) (x y : ℕ)
      → pq.IsOrdered pri q
      → pq.peek q ≡ some x
      → 0 < pq.count y q
      → timercmp (pri x) (pri y) le ≡ true
  pub ordered-congr :
      (pri pri' : Priorities) (q : pq.Queue)
      → ((y : ℕ) → 0 < pq.count y q → pri y ≡ pri' y)
      → pq.IsOrdered pri q
      → pq.IsOrdered pri' q
  pub ordered-init : (pri : Priorities) → pq.IsOrdered pri pq.init
  pub ordered-insert :
      (pri : Priorities) (q : pq.Queue) (x : ℕ) {q' : pq.Queue}
      → pq.IsOrdered pri q
      → pq.insert pri q x ≡ some q'
      → pq.IsOrdered pri q'
  pub ordered-pop :
      (pri : Priorities) (q : pq.Queue) → pq.IsOrdered pri q → pq.IsOrdered pri (pq.pop pri q)
  pub ordered-remove :
      (pri : Priorities) (q : pq.Queue) (x : ℕ)
      → 0 < pq.count x q
      → pq.IsOrdered pri q
      → pq.IsOrdered pri (pq.remove pri q x)
  -- The entry's old priority must still be stored when the change is asked for.
  pub ordered-change_priority :
      (pri : Priorities) (q : pq.Queue) (t : Timeval) (x : ℕ)
      → 0 < pq.count x q
      → pq.IsOrdered pri q
      → pq.IsOrdered (update_pri pri x t) (pq.change_priority pri q t x)
