-- ===== src/Sched/Update.antt =====
-- EVT_sched_update, EVT_sched_update_partial_credit and EVT_sched_set_critical (events.c).
use libproc.Prelude.{
  ℕ, ◌≡◌, ◌≢◌, refl, Bool, false, ◌&&◌, some, if◌then◌else◌, arith, inl, inr, Bool-cases,
}
use libproc.Prelude.Int.{◌+ℤ◌, ◌-ℤ◌}
use libproc.Timeval.{Timeval, timeradd, timercmp, le}
use libproc.Sched.Memory.{
  ScheduleCb, QueueName, main_queue, dbg_queue, updated, load, store, load-store, store-Below,
  criticals-store,
}
use libproc.Sched.QueueApi.{PQueue, IsPQueue}
use libproc.Sched.Invariant.{IsSched, IsNull, expected}
use libproc.Sched.Change.{
  requeue, sched_update, update_loaded, sched_update_partial_credit, credit_loaded,
}
use libproc.Sched.{
  Sched, null_evt, get_pri, is_idle, is_main, queue_of, set_queue, put, sched_set_critical,
  set_critical, recount,
}

-- Two structures that the queues and the counter do not tell apart.
pub record SameStanding (e f : ScheduleCb) : Type 0 where
  pub same_queue : f.queue ≡ e.queue
  pub same_pos : f.pos_max ≡ e.pos_max
  pub same_critical : f.critical ≡ e.critical

-- What is stored of the event's new state `f`: a running callback is told of the new time.
abbrev marked : ScheduleCb → ScheduleCb → ScheduleCb
marked e f = if is_idle e.in_callback then f else record f { in_callback = updated }

module _ {pq : PQueue} {s : Sched pq} (v : IsSched s) (p : ℕ) (e : ScheduleCb)
    (allocated : load p s.heap ≡ some e) where
  expected-store :
      (f : ScheduleCb) (q : ℕ) (name : QueueName)
      → SameStanding e f
      → expected q (store p f s.heap) name ≡ expected q s.heap name
  expected-store f q main_queue same = ground (arith, load-store p q f e s.heap)
  expected-store f q dbg_queue same = ground (arith, load-store p q f e s.heap)

  IsNull-store :
      (f : ScheduleCb) → f.critical ≡ e.critical → IsNull (load null_evt (store p f s.heap))
  IsNull-store f same = ground (arith, v.null, load-store p null_evt f e s.heap)

  load_stored : (f : ScheduleCb) → load p (store p f s.heap) ≡ some f
  load_stored f = ground (arith, load-store p p f e s.heap)

  pub put-IsSched : (f : ScheduleCb) → SameStanding e f → IsSched (put s p f)
  put-IsSched f same = record {
    below = store-Below p s.fresh f s.heap v.below;
    null = IsNull-store f same.same_critical;
    counted = ground (arith, v.counted, criticals-store p f e s.heap);
    queued = λ q. rw (expected-store f q main_queue same) (v.queued q);
    debugged = λ q. rw (expected-store f q dbg_queue same) (v.debugged q);
  }

  module _ (law : IsPQueue pq) where
    module _ (f : ScheduleCb) (same : SameStanding e f) (real : p ≢ null_evt) where
      changed : Sched pq
      changed =
          let s' = put s p f in
          set_queue s' f.queue
            (pq.change_priority (get_pri s'.heap) (queue_of s' f.queue) f.next_awake p)

      changed_heap : changed.heap ≡ store p f s.heap
      unfolding changed
      changed_heap = ground arith

      changed-IsSched : e.pos_max ≡ false → IsSched changed
      unfolding changed
      changed-IsSched queued =
          let w = put-IsSched f same in
          record {
            below = ground (arith, w.below);
            null = ground (arith, w.null);
            counted = ground (arith, w.counted);
            queued = λ q. ground (
              arith,
              w.queued q,
              v.queued p,
              v.queued q,
              law.count-change_priority (get_pri (store p f s.heap)) s.queue f.next_awake p q,
            );
            debugged = λ q. ground (
              arith,
              w.debugged q,
              v.debugged p,
              v.debugged q,
              law.count-change_priority (get_pri (store p f s.heap)) s.dbg f.next_awake p q,
            );
          }

      requeue-IsSched :
          f.in_callback ≡ e.in_callback
          → (is_idle e.in_callback && e.pos_max) ≡ false
          → (r : Sched pq) × (requeue s p f ≡ some r)
            × IsSched r
            × (load p r.heap ≡ some (marked e f))
      unfolding requeue changed
      requeue-IsSched cb ready = elim (Bool-cases (is_idle e.in_callback)) [
        | inl i ↦
            let queued : e.pos_max ≡ false = ground arith in
            (
              changed,
              rw (cb, i, same.same_pos, queued),
              changed-IsSched queued,
              rw (changed_heap, i) (load_stored f),
            )
        | inr b ↦ (
          put s p (record f { in_callback = updated }),
          rw (cb, b),
          put-IsSched (record f { in_callback = updated })
              (record {
                same_queue = same.same_queue;
                same_pos = same.same_pos;
                same_critical = same.same_critical;
              }),
          rw b (load_stored (record f { in_callback = updated })),
        )
      ]

    module _ (now mono time : Timeval) (real : p ≢ null_evt)
        (ready : (is_idle e.in_callback && e.pos_max) ≡ false) where
      -- The clock that the event's queue goes by.
      abbrev pub clock : Timeval
      clock = if is_main e.queue then now else mono

      -- From a state with the invariant, EVT_sched_update of an allocated event other than the
      -- null event, which is queued unless its callback runs or has set a time already, succeeds:
      -- the event has the clock of its queue as the time it was scheduled, is due the given time
      -- after it and has that time as its step, and the invariant is kept.
      pub sched_update_lem :
          (r : Sched pq) × (f : ScheduleCb) × (sched_update s now mono p time ≡ some r)
          × IsSched r
          × (load p r.heap ≡ some f)
          × (f.schedule_time ≡ clock)
          × (f.next_awake ≡ timeradd clock time)
          × (f.time_step ≡ time)
      unfolding sched_update
      sched_update_lem =
          let f : ScheduleCb = record e {
            schedule_time = clock;
            next_awake = timeradd clock time;
            time_step = time;
          } in
          let (r, run, inv, stored) =
            requeue-IsSched f (record { same_queue = refl; same_pos = refl; same_critical = refl })
              real refl ready in
          (
            r,
            marked e f,
            rw (allocated, update_loaded) run,
            inv,
            stored,
            ground arith,
            ground arith,
            ground arith,
          )

      -- From a state with the invariant, EVT_sched_update_partial_credit of an allocated event
      -- other than the null event, which is queued unless its callback runs or has set a time
      -- already, succeeds: the event is due the given time after it was scheduled, but not before
      -- the present of its queue's clock, has that time as its step, keeps the time it was
      -- scheduled, and the invariant is kept.
      pub sched_update_partial_credit_lem :
          (r : Sched pq) × (f : ScheduleCb) × (sched_update_partial_credit s now mono p time
            ≡ some r)
          × IsSched r
          × (load p r.heap ≡ some f)
          × (f.schedule_time ≡ e.schedule_time)
          × (f.next_awake ≡ (
              if timercmp (timeradd e.schedule_time time) clock le
              then clock
              else timeradd e.schedule_time time))
          × (f.time_step ≡ time)
      unfolding sched_update_partial_credit
      sched_update_partial_credit_lem =
          let next = timeradd e.schedule_time time in
          let f : ScheduleCb = record e {
            next_awake = if timercmp next clock le then clock else next;
            time_step = time;
          } in
          let (r, run, inv, stored) =
            requeue-IsSched f (record { same_queue = refl; same_pos = refl; same_critical = refl })
              real refl ready in
          (
            r,
            marked e f,
            rw (allocated, credit_loaded) run,
            inv,
            stored,
            ground arith,
            ground arith,
            ground arith,
          )

  -- From a state with the invariant, EVT_sched_set_critical of an allocated event other than the
  -- null event sets the event's flag and nothing else of it, and keeps the invariant, so the count
  -- of critical events is still right.
  pub sched_set_critical_lem :
      (critical : Bool)
      → p ≢ null_evt
      → (r : Sched pq) × (sched_set_critical s (some p) critical ≡ some r)
        × IsSched r
        × (load p r.heap ≡ some (record e { critical = critical }))
  unfolding sched_set_critical ◌-ℤ◌ ◌+ℤ◌
  sched_set_critical_lem critical real =
      let f : ScheduleCb = record e { critical = critical } in
      (
        record (put s p f) {
          critical_sched_count = recount e.critical critical s.critical_sched_count;
        },
        rw (allocated, set_critical) refl,
        record {
          below = store-Below p s.fresh f s.heap v.below;
          null = ground (arith, v.null, load-store p null_evt f e s.heap);
          counted = ground (arith, v.counted, criticals-store p f e s.heap);
          queued = λ q. ground (arith, v.queued q, load-store p q f e s.heap);
          debugged = λ q. ground (arith, v.debugged q, load-store p q f e s.heap);
        },
        load_stored f,
      )
