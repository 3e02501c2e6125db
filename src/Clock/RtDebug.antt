-- ===== src/Clock/RtDebug.antt =====
-- The debugger's real-time clock (eventTimer.c).
use libproc.Prelude.{Bool, true, Option, if◌then◌else◌, ◌≡◌}
use libproc.Prelude.Int.{◌≤ℤ◌, int_laws}
use libproc.Timeval.{Timeval, timeradd, timersub, zero_time, micros, IsNormal}
use libproc.Timeval.Laws.{micros-timeradd, micros-timersub, timersub-IsNormal, timeradd-IsNormal}
use libproc.Timeval.Order.{micros_injective}
use libproc.Clock.System.{Kernel, default_monotonic}
use libproc.Clock.{remaining, block_time}
use libproc.Clock.Laws.{remaining-IsNormal, micros-remaining}

-- struct RTDebugEventTimer
pub record RtDebug : Type 0 where
  pub offset : Timeval

-- ET_rtdebug_init
abbrev pub rtdebug_init : RtDebug
rtdebug_init = record { offset = zero_time }

unfoldable pub rtdebug_gmt : RtDebug → Kernel → Timeval
rtdebug_gmt et k = timersub k.time_of_day et.offset

unfoldable pub rtdebug_monotonic : RtDebug → Kernel → Timeval
unfolding default_monotonic timersub
rtdebug_monotonic et k = timersub (default_monotonic k) et.offset

-- The time that the blocking operation took is added to the offset, if the loop is paused.
unfoldable pub rtdebug_paused : RtDebug → Timeval → Kernel → RtDebug
unfolding rtdebug_monotonic remaining timeradd
rtdebug_paused et cur after = record {
  offset = timeradd (remaining (rtdebug_monotonic et after) cur) et.offset;
}

-- ET_rtdebug_block. The blocking operation returns its result and the clocks at its end.
unfoldable pub rtdebug_block {ℓ} :
    {R : Type ℓ}
    → RtDebug
    → Kernel
    → Option Timeval
    → Bool
    → (Option Timeval → R × Kernel)
    → R × RtDebug × Kernel
unfolding rtdebug_paused block_time
rtdebug_block et k next pause blockcb =
    let cur = rtdebug_monotonic et k in
    let (res, after) = blockcb (block_time next cur) in
    (res, (if pause then rtdebug_paused et cur after else et), after)

-- With normal readings, a clock that has not run backwards is still at its old time.
rtdebug_paused_still :
    (et : RtDebug) (k after : Kernel)
    → IsNormal et.offset
    → IsNormal (default_monotonic k)
    → IsNormal (default_monotonic after)
    → micros (default_monotonic k) ≤ℤ micros (default_monotonic after)
    → rtdebug_monotonic (rtdebug_paused et (rtdebug_monotonic et k) after) after
      ≡ rtdebug_monotonic et k
unfolding rtdebug_monotonic rtdebug_paused
rtdebug_paused_still et k after ho hk ha le =
    micros_injective _ _
      (timersub-IsNormal _ _ ha (timeradd-IsNormal _ _ (remaining-IsNormal _ _ later sooner) ho))
      sooner
      (rw
        (
          micros-timersub,
          micros-timeradd,
          micros-remaining _ _ later sooner advanced,
          micros-timersub,
          micros-timersub,
        )
        (omega int_laws))
  where
    later : IsNormal (timersub (default_monotonic after) et.offset)
    later = timersub-IsNormal _ _ ha ho

    sooner : IsNormal (timersub (default_monotonic k) et.offset)
    sooner = timersub-IsNormal _ _ hk ho

    advanced :
        micros (timersub (default_monotonic k) et.offset)
        ≤ℤ micros (timersub (default_monotonic after) et.offset)
    advanced = rw (micros-timersub, micros-timersub) (omega int_laws)

-- Where the readings of the monotonic clock before and after are normal and do not fall, and the
-- offset is normal: while the loop is paused, the debugger's clock shows after ET_rtdebug_block
-- what it showed before, whatever the blocking operation does and however long it takes.
pub rtdebug_block_still {ℓ} :
    {R : Type ℓ} (et : RtDebug) (k : Kernel) (next : Option Timeval)
    (blockcb : Option Timeval → R × Kernel)
    → IsNormal et.offset
    → IsNormal (default_monotonic k)
    → IsNormal (default_monotonic (rtdebug_block et k next true blockcb).2)
    → micros (default_monotonic k)
      ≤ℤ micros (default_monotonic (rtdebug_block et k next true blockcb).2)
    → rtdebug_monotonic
        (rtdebug_block et k next true blockcb).1
        (rtdebug_block et k next true blockcb).2
      ≡ rtdebug_monotonic et k
unfolding rtdebug_block
rtdebug_block_still et k next blockcb ho hk ha le =
    rtdebug_paused_still et k (blockcb (block_time next (rtdebug_monotonic et k))).1 ho hk ha le
