-- ===== src/Sched/Loop/Runs.antt =====
-- The loop of EVT_start_loop (events.c) over the timed events that are due.
use libproc.Prelude.{
  ℕ, ◌+◌, ◌%◌, ◌^◌, ◌≡◌, ◌≢◌, refl, Bool, true, false, ◌||◌, Option, none, some, List, [], ◌∷◌,
  arith, Option-cases, inl, inr, Bool-cases,
}
use libproc.Prelude.Int.{ℤ, pos, ◌-ℤ◌, leb_ℤ}
use libproc.Timeval.{Timeval, timercmp, gt}
use libproc.Sched.Memory.{ScheduleCb, load, load-store, running}
use libproc.Sched.QueueApi.{PQueue, IsPQueue}
use libproc.Sched.Invariant.{IsSched}
use libproc.Sched.Process.{
  process_timed_event, process_loaded, call_back, started, finished, edbg_breakpoint, keep_event,
}
use libproc.Sched.Process.Laws.{
  keep_event-IsSched, dropped, dropped-IsSched, started-IsSched, call_back_lem,
}
use libproc.Sched.Loop.{timed_events, Outcome, quiet, held, unfinished}
use libproc.Sched.Loop.Take.{
  queued_event, taken-IsSched, taken-load, take-early, take-taken, take-empty,
}
use libproc.Sched.{Sched, null_evt}

module _ {pq : PQueue} where
  -- What a callback leaves behind: a result, the invariant, and its own event, still out of its queue,
  -- since EVT_sched_remove refuses an event whose callback runs.
  abbrev pub Leaves : ℕ → Option (Sched pq × Bool) → Type 0
  Leaves p none = ⊥
  Leaves p (some (s, keep)) =
      IsSched s × (e : ScheduleCb) × (load p s.heap ≡ some e) × (e.pos_max ≡ true)

  -- Callbacks that do so wherever their event is out of its queue.
  abbrev pub Behave : (ℕ → Sched pq → Option (Sched pq × Bool)) → Type 0
  Behave callbacks =
      (p : ℕ) (s : Sched pq) (e : ScheduleCb)
      → IsSched s
      → load p s.heap ≡ some e
      → e.pos_max ≡ true
      → Leaves p (callbacks p s)

module _ {pq : PQueue} (law : IsPQueue pq) (callbacks : ℕ → Sched pq → Option (Sched pq × Bool))
    (behave : Behave callbacks) where
  module _ {s : Sched pq} (v : IsSched s) (p : ℕ) (e : ScheduleCb)
      (allocated : load p s.heap ≡ some e) (out : e.pos_max ≡ true) (real : p ≢ null_evt)
      (cur : Timeval) where
    started-load : (f : ScheduleCb) × (load p (started s p e).heap ≡ some f) × (f.pos_max ≡ true)
    unfolding started
    started-load =
        let f : ScheduleCb = record e { count = (e.count + 1) % 2 ^ 32; in_callback = running } in
        (f, ground (arith, load-store p p f e s.heap), out)

    after :
        (o : Option (Sched pq × Bool))
        → callbacks p (started s p e) ≡ o
        → Leaves p o
        → (r : Sched pq) × (call_back s p cur (callbacks p) e ≡ some (r, true)) × IsSched r
    unfolding finished dropped
    after none ran l = absurd l
    after (some (s', true)) ran (v', e', l', out') = (
      keep_event s' p e' cur,
      call_back_lem law v p e allocated out real cur (callbacks p) s' _ true ran
          (rw (l', finished)),
      keep_event-IsSched law v' p e' l' out' real cur,
    )
    after (some (s', false)) ran (v', e', l', out') = (
      dropped law v' p e' l' out' real,
      call_back_lem law v p e allocated out real cur (callbacks p) s' _ false ran
          (rw (l', finished, dropped)),
      dropped-IsSched law v' p e' l' out' real,
    )

    call_back-IsSched :
        (r : Sched pq) × (call_back s p cur (callbacks p) e ≡ some (r, true)) × IsSched r
    call_back-IsSched =
        let (f, l, o) = started-load in
        after _ refl (behave p (started s p e) f (started-IsSched law v p e allocated out real) l o)

  module _ {s : Sched pq} (v : IsSched s) (p : ℕ) (e : ScheduleCb)
      (allocated : load p s.heap ≡ some e) (out : e.pos_max ≡ true) (real : p ≢ null_evt)
      (cur : Timeval) where
    -- The debugger's fields have no part in the invariant.
    stepped-IsSched : (n : ℤ) → IsSched (record s { steps_to_break = n })
    stepped-IsSched n = record {
      below = v.below;
      null = v.null;
      counted = v.counted;
      queued = v.queued;
      debugged = v.debugged;
    }

    broken : Sched pq
    broken =
        edbg_breakpoint
          (record s { steps_to_break = s.steps_to_break -ℤ pos 1; next_timed_event = some p })

    broken-IsSched : IsSched broken
    unfolding broken edbg_breakpoint
    broken-IsSched = record {
      below = v.below;
      null = v.null;
      counted = v.counted;
      queued = v.queued;
      debugged = v.debugged;
    }

    process-IsSched :
        (r : Sched pq) × (b : Bool) × (process_timed_event s p cur false (callbacks p)
          ≡ some (r, b))
        × IsSched r
    unfolding process_timed_event broken
    process-IsSched = elim (Bool-cases (s.break_on_next || e.breakpoint)) [
      | inr going ↦
          let (r, run, inv) = call_back-IsSched v p e allocated out real cur in
          (r, true, rw (allocated, process_loaded) (rw going run), inv)
      | inl armed ↦ elim (Bool-cases (leb_ℤ (s.steps_to_break -ℤ pos 1) (pos 0))) [
        | inl last ↦
            (broken, false, rw (allocated, process_loaded) (rw (armed, last) refl), broken-IsSched)
        | inr more ↦
            let (r, run, inv) =
              call_back-IsSched (stepped-IsSched (s.steps_to_break -ℤ pos 1)) p e allocated out real
                cur in
            (r, true, rw (allocated, process_loaded) (rw (armed, more) run), inv)
      ]
    ]

  -- With callbacks that return a result, keep the invariant of the timed events and leave their
  -- own event allocated and out of its queue, the event loop's pass over the events that are due
  -- never faults from a state that has the invariant, for any sequence of clock readings and also
  -- where the queue's insertion fails, and it ends in a state that has the invariant.
  pub timed_events-IsSched :
      (readings : List Timeval) {s : Sched pq}
      → IsSched s
      → (r : Sched pq) × (o : Outcome) × (timed_events callbacks readings s ≡ some (r, o))
        × IsSched r
  unfolding timed_events
  timed_events-IsSched [] {s} v = (s, unfinished, refl, v)
  timed_events-IsSched (cur ∷ readings) {s} v = elim (Option-cases (pq.peek s.queue)) [
    | inl n ↦ (s, quiet, rw (take-empty law v cur n, timed_events) refl, v)
    | inr (p, front) ↦
        let (e, allocated, _, _, real) = queued_event law v p (law.peek-some s.queue p front) in
        elim (Bool-cases (timercmp e.next_awake cur gt)) [
          | inl early ↦
              (s, quiet, rw (take-early law v p e allocated front cur early, timed_events) refl, v)
          | inr due ↦
              let (s₂, b, run, inv) =
                process-IsSched (taken-IsSched law v p e allocated front) p
                  (record e { pos_max = true }) (taken-load law v p e allocated front) refl real
                  cur in
              elim (Bool-cases b) [
                | inl more ↦
                    let (r, o, rest, kept) = timed_events-IsSched readings inv in
                    (
                      r,
                      o,
                      rw (take-taken law v p e allocated front cur due, timed_events)
                          (rw (run, more) rest),
                      kept,
                    )
                | inr stop ↦ (
                  s₂,
                  held,
                  rw (take-taken law v p e allocated front cur due, timed_events)
                      (rw (run, stop) refl),
                  inv,
                )
              ]
        ]
  ]
