-- ===== src/Sched/Loop/Take.antt =====
-- How the event loop (events.c) takes the front of the queue.
use libproc.Prelude.{
  ℕ, ◌<◌, ◌≡◌, ◌≢◌, refl, true, false, none, some, arith, Option-cases, inl, inr, Bool-cases, ◌⊎◌,
}
use libproc.Timeval.{Timeval, timercmp, gt, le}
use libproc.Sched.Memory.{
  ScheduleCb, main_queue, load, criticals, load-store, store-Below, criticals-store,
}
use libproc.Sched.QueueApi.{PQueue, IsPQueue, IsOrdering}
use libproc.Sched.Invariant.{IsSched}
use libproc.Sched.Loop.{sched_init, take, take_front, take_loaded}
use libproc.Sched.{Sched, null_evt, get_pri, is_main, put}

-- The handler starts well formed.
pub sched_init-IsSched : {pq : PQueue} → IsPQueue pq → IsSched {pq = pq} sched_init
unfolding sched_init load criticals
sched_init-IsSched law = record {
  below = (omega arith, tt);
  null = refl;
  counted = refl;
  queued = λ p. ground (arith, law.count-init p);
  debugged = λ p. ground (arith, law.count-init p);
}

module _ {pq : PQueue} (law : IsPQueue pq) {s : Sched pq} (v : IsSched s) (p : ℕ) where
  -- A pointer in the main queue is an event that is allocated, queued there, and not the null event.
  pub queued_event :
      0 < pq.count p s.queue
      → (e : ScheduleCb) × (load p s.heap ≡ some e)
        × (is_main e.queue ≡ true)
        × (e.pos_max ≡ false)
        × (p ≢ null_evt)
  queued_event c = elim (Option-cases (load p s.heap)) [
    | inl n ↦ absurd (ground (arith, v.queued p))
    | inr (e, l) ↦ (
      e,
      l,
      ground (arith, v.queued p),
      ground (arith, v.queued p),
      λ z. ground (arith, v.queued p),
    )
  ]

  module _ (e : ScheduleCb) (allocated : load p s.heap ≡ some e)
      (front : pq.peek s.queue ≡ some p) where
    unfoldable pub taken : Sched pq
    taken =
        put (record s { queue = pq.pop (get_pri s.heap) s.queue }) p (record e { pos_max = true })

    pub taken-IsSched : IsSched taken
    unfolding taken
    taken-IsSched =
        let f : ScheduleCb = record e { pos_max = true } in
        record {
          below = store-Below p s.fresh f s.heap v.below;
          null = ground (arith, v.null, load-store p null_evt f e s.heap);
          counted = ground (arith, v.counted, criticals-store p f e s.heap);
          queued = λ q. ground (
            arith,
            v.queued q,
            v.queued p,
            load-store p q f e s.heap,
            law.count-pop (get_pri s.heap) s.queue p q,
            law.peek-some s.queue p,
          );
          debugged = λ q.
              ground (
                arith,
                v.debugged q,
                v.queued p,
                load-store p q f e s.heap,
                law.peek-some s.queue p,
              );
        }

    pub taken-load : load p taken.heap ≡ some (record e { pos_max = true })
    unfolding taken
    taken-load = ground (arith, load-store p p (record e { pos_max = true }) e s.heap)

    pub take-early :
        (cur : Timeval)
        → timercmp e.next_awake cur gt ≡ true
        → take s main_queue cur ≡ some (s, none)
    unfolding take
    take-early cur early = rw (front, take_front) (rw (allocated, take_loaded) (rw early refl))

    pub take-taken :
        (cur : Timeval)
        → timercmp e.next_awake cur gt ≡ false
        → take s main_queue cur ≡ some (taken, some p)
    unfolding take taken
    take-taken cur due = rw (front, take_front) (rw (allocated, take_loaded) (rw due refl))

module _ {pq : PQueue} (law : IsPQueue pq) {s : Sched pq} (v : IsSched s) (cur : Timeval) where
  pub take-empty : pq.peek s.queue ≡ none → take s main_queue cur ≡ some (s, none)
  unfolding take
  take-empty e = rw (e, take_front) refl

  -- From a state with the invariant whose main queue is in order and holds an event `y`, the
  -- loop's step does not fault. It takes nothing only if `y` is not due at the clock's reading.
  -- Otherwise it takes an allocated event that is due and not later than `y`, marks that event as
  -- out of its queue, and keeps the invariant.
  pub take_due :
      IsOrdering pq
      → pq.IsOrdered (get_pri s.heap) s.queue
      → (y : ℕ) → 0 < pq.count y s.queue
      → ((take s main_queue cur ≡ some (s, none)) × (timercmp (get_pri s.heap y) cur gt ≡ true))
        ⊎ ((r : Sched pq) × (p : ℕ) × (e : ScheduleCb) × (take s main_queue cur ≡ some (r, some p))
            × IsSched r
            × (load p s.heap ≡ some e)
            × (load p r.heap ≡ some (record e { pos_max = true }))
            × (timercmp e.next_awake cur gt ≡ false)
            × (timercmp e.next_awake (get_pri s.heap y) le ≡ true))
  unfolding taken
  take_due ord o y waits = elim (Option-cases (pq.peek s.queue)) [
    | inl n ↦ absurd (ground (arith, law.peek-none s.queue y n))
    | inr (p, front) ↦
        let (e, allocated, _, _, _) = queued_event law v p (law.peek-some s.queue p front) in
        let least : timercmp e.next_awake (get_pri s.heap y) le ≡ true =
          ground (arith, ord.peek-le (get_pri s.heap) s.queue p y o front waits) in
        elim (Bool-cases (timercmp e.next_awake cur gt)) [
          | inl early ↦ inl (take-early law v p e allocated front cur early, ground arith)
          | inr due ↦ inr (
            taken law v p e allocated front,
            p,
            e,
            take-taken law v p e allocated front cur due,
            taken-IsSched law v p e allocated front,
            allocated,
            taken-load law v p e allocated front,
            due,
            least,
          )
        ]
  ]
