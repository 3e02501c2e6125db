-- ===== src/Sched/Order.antt =====
-- The order of the timed events (events.c) in their queue.
use libproc.Prelude.{ℕ, ◌<◌, ◌≡◌, Bool, true, false, ◌∷◌, arith, Option-cases, inl, inr}
use libproc.Timeval.{Timeval}
use libproc.Sched.Memory.{Heap, load, load_above}
use libproc.Sched.QueueApi.{PQueue, IsPQueue, IsOrdering}
use libproc.Sched.Invariant.{IsSched}
use libproc.Sched.{Sched, get_pri, sched_add_with_timestep, new_event}

module _ {pq : PQueue} (law : IsPQueue pq) (ord : IsOrdering pq) where
  pub sched_add_with_timestep-IsOrdered :
      (s : Sched pq) (now time timestep : Timeval) (cb arg : ℕ) (ok : Bool)
      → IsSched s
      → pq.IsOrdered (get_pri s.heap) s.queue
      → let r = (sched_add_with_timestep s now time timestep cb arg ok).0 in
        pq.IsOrdered (get_pri r.heap) r.queue
  unfolding sched_add_with_timestep load
  sched_add_with_timestep-IsOrdered s now time timestep cb arg false v o = o
  sched_add_with_timestep-IsOrdered s now time timestep cb arg true v o =
      elim (Option-cases (pq.insert (get_pri h) s.queue s.fresh)) [
        | inl n ↦ rw n o
        | inr (q, i) ↦ rw i (
            ord.ordered-insert (get_pri h) s.queue s.fresh
              (ord.ordered-congr (get_pri s.heap) (get_pri h) s.queue old o) i)
      ]
    where
      h : Heap
      h = (s.fresh, new_event now time timestep cb arg) ∷ s.heap

      old : (y : ℕ) → 0 < pq.count y s.queue → get_pri s.heap y ≡ get_pri h y
      old y c = ground (arith, v.queued y, load_above s.fresh s.fresh s.heap v.below)
