-- ===== src/Clock/Laws.antt =====
-- The time limit of the blocking operation (eventTimer.c).
use libproc.Prelude.{◌≡◌, arith, inl, inr, Bool-cases, ◌||◌}
use libproc.Prelude.Int.{pos, ltb_ℤ, ◌≤ℤ◌, ◌-ℤ◌, -ℤ_parts}
use libproc.Timeval.{Timeval, IsNormal, timersub, zero_time, micros}
use libproc.Timeval.Laws.{timersub-IsNormal, micros-timersub}
use libproc.Timeval.Order.{micros_parts}
use libproc.Clock.{remaining}

pub remaining-IsNormal :
    (next now : Timeval) → IsNormal next → IsNormal now → IsNormal (remaining next now)
unfolding remaining
remaining-IsNormal next now h k = ground (arith, timersub-IsNormal next now h k)

-- For normal times where the next event is not in the past, the limit given to the blocking
-- operation is exactly the microseconds from now to the event.
pub micros-remaining :
    (next now : Timeval)
    → IsNormal next
    → IsNormal now
    → micros now ≤ℤ micros next
    → micros (remaining next now) ≡ micros next -ℤ micros now
unfolding remaining
micros-remaining next now h k le =
    elim (Bool-cases (ltb_ℤ diff.tv_sec (pos 0) || ltb_ℤ diff.tv_usec (pos 0))) [
      | inl e ↦ absurd (
          ground (
            arith,
            micros_parts diff,
            timersub-IsNormal next now h k,
            micros-timersub next now,
            -ℤ_parts (micros next) (micros now),
          ))
      | inr e ↦ rw e (micros-timersub next now)
    ]
  where
    diff : Timeval
    diff = timersub next now

-- For normal times where the next event is due, the limit given to the blocking operation is zero.
pub remaining_late :
    (next now : Timeval)
    → IsNormal next
    → IsNormal now
    → micros next ≤ℤ micros now
    → remaining next now ≡ zero_time
unfolding remaining
remaining_late next now h k le = ground (
  arith,
  micros_parts (timersub next now),
  timersub-IsNormal next now h k,
  micros-timersub next now,
  -ℤ_parts (micros next) (micros now),
)
