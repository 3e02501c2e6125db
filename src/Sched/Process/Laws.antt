-- ===== src/Sched/Process/Laws.antt =====
-- evt_process_timed_event (events.c), with the callback and at a breakpoint.
use libproc.Prelude.{
  ℕ, ◌+◌, ◌%◌, ◌^◌, ◌≡◌, ◌≢◌, ◌==◌, refl, Bool, true, false, not, ◌&&◌, ◌||◌, Option, none, some,
  if◌then◌else◌, arith, inl, inr, Bool-cases,
}
use libproc.Prelude.Int.{◌-ℤ◌}
use libproc.Timeval.{Timeval, timeradd}
use libproc.Sched.Memory.{
  ScheduleCb, idle, running, load, free, load-free, free-Below, criticals-free,
}
use libproc.Sched.QueueApi.{PQueue, IsPQueue}
use libproc.Sched.Invariant.{IsSched}
use libproc.Sched.Update.{put-IsSched}
use libproc.Sched.Reinsert.{reinsert-IsSched, reinsert-load}
use libproc.Sched.Process.{
  process_timed_event, process_loaded, call_back, started, finished, keep_event,
}
use libproc.Sched.{Sched, null_evt, drop_critical, release, is_running}

-- The event's structure once the callback returned EVENT_KEEP: the step is added to the time that it
-- was due, unless the callback set a new time.
abbrev pub kept : ScheduleCb → Timeval → ScheduleCb
kept e cur =
    if is_running e.in_callback
    then record e {
      schedule_time = cur;
      next_awake = timeradd e.next_awake e.time_step;
      in_callback = idle;
    }
    else record e { in_callback = idle }

module _ {pq : PQueue} (law : IsPQueue pq) {s : Sched pq} (v : IsSched s) (p : ℕ) (e : ScheduleCb)
    (allocated : load p s.heap ≡ some e) (out : e.pos_max ≡ true) (real : p ≢ null_evt) where
  pub keep_event-IsSched : (cur : Timeval) → IsSched (keep_event s p e cur)
  unfolding keep_event
  keep_event-IsSched cur = elim (Bool-cases (is_running e.in_callback)) [
    | inl r ↦ rw r (reinsert-IsSched v p e _ allocated out out refl law real)
    | inr r ↦ rw r (reinsert-IsSched v p e _ allocated out out refl law real)
  ]

  pub keep_event-load :
      (cur : Timeval)
      → (b : Bool) × (load p (keep_event s p e cur).heap
          ≡ some (record (kept e cur) { pos_max = b }))
  unfolding keep_event
  keep_event-load cur = elim (Bool-cases (is_running e.in_callback)) [
    | inl r ↦
        let (b, l) =
          reinsert-load v p e
            (record e {
              schedule_time = cur;
              next_awake = timeradd e.next_awake e.time_step;
              in_callback = idle;
            })
            allocated out out refl law real in
        (b, rw r l)
    | inr r ↦
        let (b, l) =
          reinsert-load v p e (record e { in_callback = idle }) allocated out out refl law real in
        (b, rw r l)
  ]

  unfoldable pub dropped : Sched pq
  unfolding release drop_critical
  dropped = release (drop_critical s e) p

  dropped_heap : dropped.heap ≡ free p s.heap
  unfolding dropped
  dropped_heap = ground arith

  pub dropped-IsSched : IsSched dropped
  unfolding dropped ◌-ℤ◌
  dropped-IsSched = record {
    below = ground (arith, free-Below p s.fresh s.heap v.below);
    null = ground (arith, v.null, load-free p null_evt s.fresh s.heap v.below);
    counted = ground (arith, v.counted, criticals-free p e s.heap);
    queued = λ q. ground (arith, v.queued q, v.queued p, load-free p q s.fresh s.heap v.below);
    debugged =
        λ q. ground (arith, v.debugged q, v.debugged p, load-free p q s.fresh s.heap v.below);
  }

module _ {pq : PQueue} (law : IsPQueue pq) {s : Sched pq} (v : IsSched s) (p : ℕ) (e : ScheduleCb)
    (allocated : load p s.heap ≡ some e) (out : e.pos_max ≡ true) (real : p ≢ null_evt) where
  -- The state that the callback is run in.
  pub started-IsSched : IsSched (started s p e)
  unfolding started
  started-IsSched =
      let f : ScheduleCb = record e { count = (e.count + 1) % 2 ^ 32; in_callback = running } in
      let w =
        put-IsSched v p e allocated f
          (record { same_queue = refl; same_pos = refl; same_critical = refl }) in
      record {
        below = w.below;
        null = w.null;
        counted = w.counted;
        queued = w.queued;
        debugged = w.debugged;
      }

  pub call_back_lem :
      (cur : Timeval) (callback : Sched pq → Option (Sched pq × Bool)) (s' r : Sched pq)
      (keep : Bool)
      → callback (started s p e) ≡ some (s', keep)
      → finished s' p cur keep (load p s'.heap) ≡ some r
      → call_back s p cur callback e ≡ some (r, true)
  unfolding call_back
  call_back_lem cur callback s' r keep ran fin = rw (ran, call_back) (rw (fin, call_back))

  module _ (cur : Timeval) (stepping : Bool) (callback : Sched pq → Option (Sched pq × Bool))
      (going : (not stepping && (s.break_on_next || e.breakpoint)) ≡ false) {s' : Sched pq}
      (e' : ScheduleCb) (v' : IsSched s') (allocated' : load p s'.heap ≡ some e')
      (out' : e'.pos_max ≡ true) where
    -- From a state with the invariant, for an allocated event that is out of its queue and is not
    -- the null event, and where no breakpoint applies: if the callback returns EVENT_KEEP in a
    -- state that has the invariant and the event still out of its queue, the event ends with its
    -- step added to the time that it was due, or, if the callback gave it a new time, with that
    -- time; its callback is marked as over, and the invariant holds, whether or not the insertion
    -- into the queue succeeds.
    pub process_timed_event_keep :
        callback (started s p e) ≡ some (s', true)
        → (r : Sched pq) × (b : Bool) × (process_timed_event s p cur stepping callback
            ≡ some (r, true))
          × IsSched r
          × (load p r.heap ≡ some (record (kept e' cur) { pos_max = b }))
    unfolding process_timed_event finished keep_event
    process_timed_event_keep ran =
        let (b, l) = keep_event-load law v' p e' allocated' out' real cur in
        (
          keep_event s' p e' cur,
          b,
          rw (allocated, process_loaded, going)
              (call_back_lem cur callback s' _ true ran (rw (allocated', finished))),
          keep_event-IsSched law v' p e' allocated' out' real cur,
          l,
        )

    -- From a state with the invariant, for an allocated event that is out of its queue and is not
    -- the null event, and where no breakpoint applies: if the callback returns EVENT_REMOVE in a
    -- state that has the invariant and the event still out of its queue, the event is freed, the
    -- other events stay as the callback left them, and the invariant holds.
    pub process_timed_event_remove :
        callback (started s p e) ≡ some (s', false)
        → (r : Sched pq) × (process_timed_event s p cur stepping callback ≡ some (r, true))
          × IsSched r
          × ((q : ℕ) → load q r.heap ≡ (if p == q then none else load q s'.heap))
    unfolding process_timed_event finished dropped
    process_timed_event_remove ran = (
      dropped law v' p e' allocated' out' real,
      rw (allocated, process_loaded, going)
          (call_back_lem cur callback s' _ false ran (rw (allocated', finished))),
      dropped-IsSched law v' p e' allocated' out' real,
      λ q. rw dropped_heap (load-free p q s'.fresh s'.heap v'.below),
    )
