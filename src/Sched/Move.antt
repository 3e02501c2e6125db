-- ===== src/Sched/Move.antt =====
-- EVT_sched_move_to_mono (events.c).
use libproc.Prelude.{
  ℕ, ◌+◌, ◌≡◌, ◌≢◌, ◌==◌, refl, Bool, false, none, some, if◌then◌else◌, arith, Option-cases, inl,
  inr, ne→==, ap, ◌∙◌,
}
use libproc.Prelude.Int.{pos, ◌-ℤ◌}
use libproc.Timeval.{Timeval, timeradd}
use libproc.Sched.Memory.{
  ScheduleCb, main_queue, dbg_queue, load, store, criticals, to_ℕ, load-store, store-Below,
  criticals-store,
}
use libproc.Sched.QueueApi.{Priorities, PQueue, IsPQueue, HasNoTie}
use libproc.Sched.Invariant.{IsSched, expected}
use libproc.Sched.Change.{sched_move_to_mono, move_loaded}
use libproc.Sched.{
  Sched, null_evt, get_pri, queue_of, set_queue, put, inserted, reinsert, drop_critical,
}

if_false {ℓ} : {A : Type ℓ} (b : Bool) (x y : A) → b ≡ false → (if b then x else y) ≡ y
if_false b x y e = rw e refl

module _ {pq : PQueue} (law : IsPQueue pq) {s : Sched pq} (v : IsSched s) (p : ℕ) (e : ScheduleCb)
    (allocated : load p s.heap ≡ some e) (real : p ≢ null_evt)
    (in_order : pq.IsOrdered (get_pri s.heap) s.queue)
    (alone : HasNoTie pq (get_pri s.heap) s.queue p)
    (dbg_in_order : pq.IsOrdered (get_pri s.heap) s.dbg)
    (dbg_alone : HasNoTie pq (get_pri s.heap) s.dbg p) (queued : e.pos_max ≡ false)
    (mono : Timeval) where
  -- The event's structure when it is inserted, and when the queue has set its position.
  abbrev pub f : ScheduleCb
  f = record e {
    schedule_time = mono;
    next_awake = timeradd mono e.time_step;
    queue = dbg_queue;
    critical = false;
  }

  abbrev pub g : ScheduleCb
  g = record f { pos_max = false }

  out : Sched pq
  out = set_queue s e.queue (pq.remove (get_pri s.heap) (queue_of s e.queue) p)

  out_heap : out.heap ≡ s.heap
  unfolding out
  out_heap = ground arith

  out_fresh : out.fresh ≡ s.fresh
  unfolding out
  out_fresh = ground arith

  out_count : out.critical_sched_count ≡ s.critical_sched_count
  unfolding out
  out_count = ground arith

  out_queue : (q : ℕ) → pq.count q out.queue ≡ (if p == q then 0 else expected q s.heap main_queue)
  unfolding out
  out_queue q =
      ground (
        arith,
        v.queued q,
        v.queued p,
        law.count-remove (get_pri s.heap) s.queue p q in_order alone,
      )

  out_dbg : (q : ℕ) → pq.count q out.dbg ≡ (if p == q then 0 else expected q s.heap dbg_queue)
  unfolding out
  out_dbg q = ground (
    arith,
    v.debugged q,
    v.debugged p,
    law.count-remove (get_pri s.heap) s.dbg p q dbg_in_order dbg_alone,
  )

  moved : pq.Queue → Sched pq
  unfolding drop_critical
  moved q = drop_critical (put (record (put out p f) { dbg = q }) p g) e

  moved_heap : (q : pq.Queue) → (moved q).heap ≡ store p g (store p f s.heap)
  unfolding moved
  moved_heap q = ground (arith, out_heap)

  stored : load p (store p f s.heap) ≡ some f
  stored = ground (arith, load-store p p f e s.heap)

  moved_load :
      (r : ℕ) → load r (store p g (store p f s.heap)) ≡ (if p == r then some g else load r s.heap)
  moved_load r =
      ground (arith, load-store p r g f (store p f s.heap), load-store p r f e s.heap, stored)

  moved_critical : criticals (store p g (store p f s.heap)) + to_ℕ e.critical ≡ criticals s.heap
  moved_critical =
      ground (arith, criticals-store p g f (store p f s.heap), criticals-store p f e s.heap, stored)

  module _ (q : pq.Queue)
      (inserts : pq.insert (get_pri (store p f out.heap)) out.dbg p ≡ some q) where
    moved_queue : (moved q).queue ≡ out.queue
    unfolding moved
    moved_queue = ground arith

    moved_dbg : (moved q).dbg ≡ q
    unfolding moved
    moved_dbg = ground arith

    moved_fresh : (moved q).fresh ≡ s.fresh
    unfolding moved
    moved_fresh = ground (arith, out_fresh)

    moved_count : (moved q).critical_sched_count ≡ pos (criticals (store p g (store p f s.heap)))
    unfolding moved ◌-ℤ◌
    moved_count = ground (arith, out_count, v.counted, moved_critical)

    moved-IsSched : IsSched (moved q)
    moved-IsSched = record {
      below =
          rw (moved_fresh, moved_heap)
            (store-Below p s.fresh g (store p f s.heap) (store-Below p s.fresh f s.heap v.below));
      null = rw (moved_heap, moved_load null_evt, ne→== p null_evt real) v.null;
      counted = rw moved_heap moved_count;
      queued = λ r. rw (moved_heap, moved_queue) (ground (arith, out_queue r, moved_load r));
      debugged = λ r.
          rw (moved_heap, moved_dbg)
            (ground (
              arith,
              out_dbg r,
              moved_load r,
              law.count-insert (get_pri (store p f out.heap)) out.dbg p {q' = q} r,
            ));
    }

    reinserted : reinsert out p f ≡ put (record (put out p f) { dbg = q }) p g
    unfolding reinsert
    reinserted = rw (inserts, inserted) refl

    moved-run : sched_move_to_mono s mono p ≡ some (moved q)
    unfolding sched_move_to_mono moved out
    moved-run =
        rw (allocated, move_loaded)
          (if_false e.pos_max _ _ queued ∙ ap (λ r. some (drop_critical r e)) reinserted)

  -- From a state with the invariant and with both queues in order, with memory for the queue,
  -- EVT_sched_move_to_mono of an allocated, queued event other than the null event, whose time no
  -- other event of the queues has, succeeds and keeps the invariant: the event is once in the
  -- debugger's queue and not in the main queue, is no longer critical, and is due its step after
  -- CLOCK_MONOTONIC's reading; its other fields stay.
  pub sched_move_to_mono_lem :
      ((pri : Priorities) (q : pq.Queue) → pq.insert pri q p ≢ none)
      → (r : Sched pq) × (sched_move_to_mono s mono p ≡ some r)
        × IsSched r
        × (load p r.heap ≡ some g)
        × (pq.count p r.queue ≡ 0)
        × (pq.count p r.dbg ≡ 1)
  sched_move_to_mono_lem memory =
      elim (Option-cases (pq.insert (get_pri (store p f out.heap)) out.dbg p)) [
        | inl n ↦ absurd (memory _ _ n)
        | inr (q, i) ↦
            let w = moved-IsSched q i in
            (
              moved q,
              moved-run q i,
              w,
              rw moved_heap (ground (arith, moved_load p)),
              ground (arith, w.queued p, moved_heap q, moved_load p),
              ground (arith, w.debugged p, moved_heap q, moved_load p),
            )
      ]
