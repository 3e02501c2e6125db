-- ===== src/Clock/System.antt =====
-- clock_gettime and gettimeofday, and the default clock's readings of them.
use libproc.Prelude.{ℕ, ◌+◌, ◌/◌, ◌<◌, arith, ◌↔◌}
use libproc.Prelude.Int.{pos}
use libproc.Timeval.{Timeval, IsNormal}

-- `struct timespec`: CLOCK_MONOTONIC never is negative, and `tv_nsec` is below 10 ^ 9.
pub record Timespec : Type 0 where
  pub tv_sec : ℕ
  pub tv_nsec : ℕ

pub record Kernel : Type 0 where
  pub monotonic : Timespec
  pub time_of_day : Timeval

-- ET_default_gmt
unfoldable pub default_gmt : Kernel → Timeval
default_gmt k = k.time_of_day

-- ET_default_monotonic rounds to the nearest microsecond, and carries nothing into the seconds.
unfoldable pub default_monotonic : Kernel → Timeval
default_monotonic k = record {
  tv_sec = pos k.monotonic.tv_sec;
  tv_usec = pos ((k.monotonic.tv_nsec + 500) / 1000);
}

-- ET_default_monotonic returns a time whose microseconds are below a million exactly when the
-- kernel's nanoseconds are below 999999500: the rounding is not carried into the seconds.
pub default_monotonic-IsNormal_iff :
    (k : Kernel) → IsNormal (default_monotonic k) ↔ (k.monotonic.tv_nsec < 999999500)
unfolding default_monotonic
default_monotonic-IsNormal_iff k = (λ h. ground arith, λ h. ground arith)
