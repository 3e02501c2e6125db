-- ===== src/Sched/Invariant.antt =====
-- The invariant of the timed events (events.c), and EVT_sched_add_with_timestep.
use libproc.Prelude.{
  ℕ, zero, suc, ◌<◌, ◌≡◌, ◌==◌, Bool, true, false, not, ◌&&◌, Option, none, some, ◌∷◌,
  if◌then◌else◌, arith, Option-cases, inl, inr,
}
use libproc.Prelude.Int.{pos, ◌+ℤ◌}
use mathlib.Core.Path.{subst}
use libproc.Timeval.{Timeval}
use libproc.Sched.Memory.{
  Heap, ScheduleCb, QueueName, main_queue, dbg_queue, load, criticals, to_ℕ, Below, Below-mono,
  load_above,
}
use libproc.Sched.QueueApi.{PQueue, IsPQueue}
use libproc.Sched.{Sched, null_evt, get_pri, is_main, new_event, sched_add_with_timestep}

-- How often an event belongs in a queue: once in its own, unless it is out of it.
abbrev pub place : Option ScheduleCb → QueueName → ℕ
place none name = 0
place (some e) main_queue = to_ℕ (is_main e.queue && not e.pos_max)
place (some e) dbg_queue = to_ℕ (not (is_main e.queue) && not e.pos_max)

abbrev pub expected : ℕ → Heap → QueueName → ℕ
expected p h name = if p == null_evt then 0 else place (load p h) name

abbrev pub IsNull : Option ScheduleCb → Type 0
IsNull none = ⊥
IsNull (some e) = e.critical ≡ false

module _ {pq : PQueue} where
  -- The counter of critical events is right; every event is once in the queue that it names, unless
  -- its position is SIZE_MAX, and never in the other; nothing that was freed is in a queue.
  pub record IsSched (s : Sched pq) : Type 0 where
    pub below : Below s.fresh s.heap
    pub null : IsNull (load null_evt s.heap)
    pub counted : s.critical_sched_count ≡ pos (criticals s.heap)
    pub queued : (p : ℕ) → pq.count p s.queue ≡ expected p s.heap main_queue
    pub debugged : (p : ℕ) → pq.count p s.dbg ≡ expected p s.heap dbg_queue

  -- NULL is never given out.
  pub fresh_pos : {s : Sched pq} → IsSched s → 0 < s.fresh
  fresh_pos {s} v = above s.fresh s.heap v.below v.null
    where
      above : (n : ℕ) (h : Heap) → Below n h → IsNull (load null_evt h) → 0 < n
      above zero h b k = absurd (subst IsNull (load_above 0 0 h b (omega arith)) k)
      above (suc n) h b k = omega arith

  module _ (law : IsPQueue pq) where
    -- EVT_sched_add_with_timestep keeps the invariant of the timed events, also where malloc or
    -- the insertion into the queue fails.
    pub sched_add_with_timestep-IsSched :
        (s : Sched pq) (now time timestep : Timeval) (cb arg : ℕ) (ok : Bool)
        → IsSched s
        → IsSched (sched_add_with_timestep s now time timestep cb arg ok).0
    unfolding sched_add_with_timestep load criticals ◌+ℤ◌
    sched_add_with_timestep-IsSched s now time timestep cb arg false v = v
    sched_add_with_timestep-IsSched s now time timestep cb arg true v =
        elim (Option-cases (pq.insert (get_pri ((s.fresh, e) ∷ s.heap)) s.queue s.fresh)) [
          | inl n ↦ rw n (record {
            below = Below-mono _ _ s.heap (omega arith) v.below;
            null = v.null;
            counted = v.counted;
            queued = v.queued;
            debugged = v.debugged;
          })
          | inr (q, i) ↦ rw i (record {
            below = (omega arith, v.below);
            null = ground (arith, v.null, fresh_pos v);
            counted = ground (arith, v.counted);
            queued = λ p. ground (
              arith,
              v.queued p,
              law.count-insert _ s.queue s.fresh p i,
              load_above s.fresh s.fresh s.heap v.below,
              fresh_pos v,
            );
            debugged = λ p.
                ground
                  (arith, v.debugged p, load_above s.fresh s.fresh s.heap v.below, fresh_pos v);
          })
        ]
      where
        e : ScheduleCb
        e = new_event now time timestep cb arg
