-- ===== src/Sched/Remove.antt =====
-- EVT_sched_remove (events.c).
use libproc.Prelude.{ℕ, ◌≡◌, ◌≢◌, ◌==◌, true, none, some, if◌then◌else◌, arith, ne→==}
use libproc.Prelude.Int.{pos, ◌-ℤ◌}
use libproc.Sched.Memory.{
  ScheduleCb, main_queue, dbg_queue, load, free, criticals, load-free, free-Below, criticals-free,
}
use libproc.Sched.QueueApi.{PQueue, IsPQueue, HasNoTie}
use libproc.Sched.Invariant.{IsSched, expected}
use libproc.Sched.{
  Sched, null_evt, get_pri, is_idle, drop_critical, forget_next, release, unqueue, sched_remove,
  remove_loaded,
}

module _ {pq : PQueue} (law : IsPQueue pq) {s : Sched pq} (v : IsSched s) (p : ℕ) (e : ScheduleCb)
    (allocated : load p s.heap ≡ some e) (real : p ≢ null_evt)
    (in_order : pq.IsOrdered (get_pri s.heap) s.queue)
    (alone : HasNoTie pq (get_pri s.heap) s.queue p)
    (dbg_in_order : pq.IsOrdered (get_pri s.heap) s.dbg)
    (dbg_alone : HasNoTie pq (get_pri s.heap) s.dbg p) where
  pub removed : Sched pq
  unfolding release unqueue forget_next drop_critical
  removed = release (unqueue (forget_next (drop_critical s e) p) p e) p

  pub removed_heap : removed.heap ≡ free p s.heap
  unfolding removed
  removed_heap = ground arith

  removed_queue : (q : ℕ) → pq.count q removed.queue ≡ expected q (free p s.heap) main_queue
  unfolding removed
  removed_queue q = ground (
    arith,
    v.queued q,
    v.queued p,
    law.count-remove (get_pri s.heap) s.queue p q in_order alone,
    load-free p q s.fresh s.heap v.below,
  )

  removed_dbg : (q : ℕ) → pq.count q removed.dbg ≡ expected q (free p s.heap) dbg_queue
  unfolding removed
  removed_dbg q = ground (
    arith,
    v.debugged q,
    v.debugged p,
    law.count-remove (get_pri s.heap) s.dbg p q dbg_in_order dbg_alone,
    load-free p q s.fresh s.heap v.below,
  )

  removed_count : removed.critical_sched_count ≡ pos (criticals (free p s.heap))
  unfolding removed ◌-ℤ◌
  removed_count = ground (arith, v.counted, criticals-free p e s.heap)

  removed_fresh : removed.fresh ≡ s.fresh
  unfolding removed
  removed_fresh = ground arith

  removed_next : removed.next_timed_event ≢ some p
  unfolding removed
  removed_next h = ground arith

  removed-IsSched : IsSched removed
  removed-IsSched = record {
    below = rw (removed_fresh, removed_heap) (free-Below p s.fresh s.heap v.below);
    null =
        rw (removed_heap, load-free p null_evt s.fresh s.heap v.below, ne→== p null_evt real)
          v.null;
    counted = rw removed_heap removed_count;
    queued = λ q. rw removed_heap (removed_queue q);
    debugged = λ q. rw removed_heap (removed_dbg q);
  }

  -- From a state with the invariant and with both queues in order, EVT_sched_remove of an
  -- allocated event other than the null event, whose callback is not running and whose time no
  -- other event of the queues has, returns the event's argument and frees it: both queues and the
  -- debugger's pending step no longer hold it, every other event is stored as before, and the
  -- invariant is kept.
  pub sched_remove_lem :
      is_idle e.in_callback ≡ true
      → (r : Sched pq) × (sched_remove s (some p) ≡ some (r, some e.arg))
        × IsSched r
        × ((q : ℕ) → load q r.heap ≡ (if p == q then none else load q s.heap))
        × (pq.count p r.queue ≡ 0)
        × (pq.count p r.dbg ≡ 0)
        × (r.next_timed_event ≢ some p)
  unfolding sched_remove removed
  sched_remove_lem free_to_go =
      let gone = load-free p p s.fresh s.heap v.below in
      (
        removed,
        rw (allocated, remove_loaded, free_to_go),
        removed-IsSched,
        (λ q. rw removed_heap (load-free p q s.fresh s.heap v.below)),
        ground (arith, removed_queue p, gone),
        ground (arith, removed_dbg p, gone),
        removed_next,
      )
