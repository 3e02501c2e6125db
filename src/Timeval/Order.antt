-- ===== src/Timeval/Order.antt =====
-- timercmp (events.c) on times whose microseconds are in range.
use libproc.Prelude.{◌≡◌, arith, ◌+◌, ◌*◌}
use libproc.Prelude.Int.{pos_part, neg_part, ltb_ℤ, leb_ℤ, int_laws, +ℤ_cancel}
use libproc.Timeval.{Timeval, IsNormal, timeradd, timersub, timercmp, ge, gt, lt, micros}
use libproc.Timeval.Laws.{
  micros-timeradd, micros-timersub, timeradd-IsNormal, timersub-IsNormal, *million_parts,
}

pub micros_parts :
    (t : Timeval)
    → pos_part (micros t) + neg_part t.tv_sec * 1000000 + neg_part t.tv_usec
      ≡ neg_part (micros t) + pos_part t.tv_sec * 1000000 + pos_part t.tv_usec
unfolding micros
micros_parts t = omega (int_laws, *million_parts)

-- For normal times, timercmp with >= compares the microseconds that they stand for.
pub timercmp-ge :
    (t u : Timeval) → IsNormal t → IsNormal u → timercmp t u ge ≡ leb_ℤ (micros u) (micros t)
timercmp-ge t u h k = ground (arith, micros_parts t, micros_parts u)

pub timercmp-lt :
    (t u : Timeval) → IsNormal t → IsNormal u → timercmp t u lt ≡ ltb_ℤ (micros t) (micros u)
timercmp-lt t u h k = ground (arith, micros_parts t, micros_parts u)

pub timercmp-gt :
    (t u : Timeval) → IsNormal t → IsNormal u → timercmp t u gt ≡ ltb_ℤ (micros u) (micros t)
timercmp-gt t u h k = ground (arith, micros_parts t, micros_parts u)

pub micros_injective : (t u : Timeval) → IsNormal t → IsNormal u → micros t ≡ micros u → t ≡ u
micros_injective t u h k e = ground (arith, micros_parts t, micros_parts u)

-- For normal times, timersub of what timeradd added gives back the first time, field by field.
pub timersub-timeradd : (t u : Timeval) → IsNormal t → IsNormal u → timersub (timeradd t u) u ≡ t
timersub-timeradd t u h k =
    micros_injective _ t (timersub-IsNormal _ u (timeradd-IsNormal t u h k) k) h
      (rw (micros-timersub, micros-timeradd) (+ℤ_cancel (micros t) (micros u)))
