-- ===== src/Tests/Times.antt =====
-- Times and clocks at concrete readings.
use libproc.Prelude.{◌≡◌, refl, true}
use libproc.Prelude.Int.{pos, ◌+ℤ◌, ◌*ℤ◌, ltb_ℤ}
use libproc.Timeval.{Timeval, IsNormal, micros}
use libproc.Clock.Virt.{Virt, active}

abbrev ten : Timeval
ten = record { tv_sec = pos 10; tv_usec = pos 700000 }

abbrev two : Timeval
two = record { tv_sec = pos 2; tv_usec = pos 900000 }

ten-IsNormal : IsNormal ten
ten-IsNormal = (refl, refl)

two-IsNormal : IsNormal two
two-IsNormal = (refl, refl)

abbrev clock : Virt
clock = record { time = ten; pause = active }

passed : ltb_ℤ (micros two) (micros ten) ≡ true
unfolding micros ◌+ℤ◌ ◌*ℤ◌
passed = refl
