-- ===== src/Sched/Reinsert.antt =====
-- The insertion of an event that is out of the queues, in evt_process_timed_event (events.c).
use libproc.Prelude.{
  ℕ, ◌≡◌, ◌≢◌, ◌==◌, Bool, true, false, some, if◌then◌else◌, arith, Option-cases, inl, inr,
}
use libproc.Sched.Memory.{ScheduleCb, load, store, load-store, store-Below, criticals-store}
use libproc.Sched.QueueApi.{PQueue, IsPQueue}
use libproc.Sched.Invariant.{IsSched}
use libproc.Sched.{Sched, null_evt, get_pri, queue_of, set_queue, put, inserted, reinsert}

module _ {pq : PQueue} {s : Sched pq} (v : IsSched s) (p : ℕ) (e f : ScheduleCb)
    (allocated : load p s.heap ≡ some e) (out : e.pos_max ≡ true) (f_out : f.pos_max ≡ true)
    (same : f.critical ≡ e.critical) where
  stored : load p (store p f s.heap) ≡ some f
  stored = ground (arith, load-store p p f e s.heap)

  put_out-IsSched : IsSched (put s p f)
  put_out-IsSched = record {
    below = store-Below p s.fresh f s.heap v.below;
    null = ground (arith, v.null, load-store p null_evt f e s.heap);
    counted = ground (arith, v.counted, criticals-store p f e s.heap);
    queued = λ q. ground (arith, v.queued q, load-store p q f e s.heap);
    debugged = λ q. ground (arith, v.debugged q, load-store p q f e s.heap);
  }

  module _ (law : IsPQueue pq) (real : p ≢ null_evt) where
    g : ScheduleCb
    g = record f { pos_max = false }

    back : pq.Queue → Sched pq
    back q = put (set_queue (put s p f) f.queue q) p g

    back_heap : (q : pq.Queue) → (back q).heap ≡ store p g (store p f s.heap)
    unfolding back
    back_heap q = ground arith

    back_load :
        (r : ℕ) → load r (store p g (store p f s.heap)) ≡ (if p == r then some g else load r s.heap)
    back_load r =
        ground (arith, load-store p r g f (store p f s.heap), load-store p r f e s.heap, stored)

    back-IsSched :
        (q : pq.Queue)
        → pq.insert (get_pri (store p f s.heap)) (queue_of (put s p f) f.queue) p ≡ some q
        → IsSched (back q)
    unfolding back g
    back-IsSched q i =
        let w = put_out-IsSched in
        record {
          below = ground (arith, store-Below p s.fresh g (store p f s.heap) w.below);
          null = ground (arith, v.null, back_load null_evt);
          counted = ground (arith, w.counted, criticals-store p g f (store p f s.heap), stored);
          queued = λ r. ground (
            arith,
            v.queued r,
            back_load r,
            law.count-insert (get_pri (store p f s.heap)) s.queue p {q' = q} r,
          );
          debugged = λ r. ground (
            arith,
            v.debugged r,
            back_load r,
            law.count-insert (get_pri (store p f s.heap)) s.dbg p {q' = q} r,
          );
        }

    -- The invariant holds after the insertion, also where it ran out of memory and the event stays out.
    pub reinsert-IsSched : IsSched (reinsert s p f)
    unfolding reinsert back g
    reinsert-IsSched =
        elim (Option-cases
          (pq.insert (get_pri (store p f s.heap)) (queue_of (put s p f) f.queue) p)) [
            | inl n ↦ rw (n, inserted) put_out-IsSched
            | inr (q, i) ↦ rw (i, inserted) (back-IsSched q i)
          ]

    pub reinsert-load :
        (b : Bool) × (load p (reinsert s p f).heap ≡ some (record f { pos_max = b }))
    unfolding reinsert back g
    reinsert-load =
        elim (Option-cases
          (pq.insert (get_pri (store p f s.heap)) (queue_of (put s p f) f.queue) p)) [
            | inl n ↦ (true, rw (n, inserted) (ground (arith, stored)))
            | inr (q, i) ↦ (false, rw (i, inserted) (ground (arith, back_load p, back_heap q)))
          ]
