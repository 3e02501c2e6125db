-- ===== src/Timeval/Laws.antt =====
-- timeradd, timersub and EVT_ms2tv (events.c) on the microseconds that a time stands for.
use libproc.Prelude.{◌≡◌, arith, ◌*◌, ◌+◌, Bool-cases, inl, inr}
use libproc.Prelude.Int.{ℤ, pos, pos_part, neg_part, ◌+ℤ◌, ◌-ℤ◌, ◌*ℤ◌, ltb_ℤ, leb_ℤ, quot, int_laws}
use libproc.Timeval.{Timeval, IsNormal, timeradd, timersub, micros, million, evt_ms2tv}

pub *million_parts :
    (a : ℤ)
    → pos_part (a *ℤ million) + neg_part a * 1000000
      ≡ neg_part (a *ℤ million) + pos_part a * 1000000
unfolding ◌*ℤ◌
*million_parts a = ground arith

ruleset micros_laws = (int_laws, *million_parts)

pub timeradd-IsNormal : (t u : Timeval) → IsNormal t → IsNormal u → IsNormal (timeradd t u)
unfolding timeradd ◌+ℤ◌ ◌-ℤ◌
timeradd-IsNormal t u h k = ground arith

pub timersub-IsNormal : (t u : Timeval) → IsNormal t → IsNormal u → IsNormal (timersub t u)
unfolding timersub ◌+ℤ◌ ◌-ℤ◌
timersub-IsNormal t u h k = ground arith

-- timeradd adds the microseconds that two times stand for, normal or not.
pub micros-timeradd : (t u : Timeval) → micros (timeradd t u) ≡ micros t +ℤ micros u
unfolding timeradd micros
micros-timeradd t u = elim (Bool-cases (leb_ℤ million (t.tv_usec +ℤ u.tv_usec))) [
  | inl e ↦ rw e (omega micros_laws)
  | inr e ↦ rw e (omega micros_laws)
]

pub micros-timersub : (t u : Timeval) → micros (timersub t u) ≡ micros t -ℤ micros u
unfolding timersub micros
micros-timersub t u = elim (Bool-cases (ltb_ℤ (t.tv_usec -ℤ u.tv_usec) (pos 0))) [
  | inl e ↦ rw e (omega micros_laws)
  | inr e ↦ rw e (omega micros_laws)
]

-- EVT_ms2tv converts milliseconds exactly, a negative number of them too.
pub micros-evt_ms2tv : (ms : ℤ) → micros (evt_ms2tv ms) ≡ ms *ℤ pos 1000
unfolding micros evt_ms2tv quot ◌*ℤ◌ ◌-ℤ◌ ◌+ℤ◌
micros-evt_ms2tv ms = ground arith
