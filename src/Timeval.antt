-- ===== src/Timeval.antt =====
-- struct timeval with its macros and EVT_ms2tv (events.c).
-- The seconds and microseconds are integers without bound: a signed overflow is undefined in C, and
-- no clock comes near it.
pub mod Laws
pub mod Order
use libproc.Prelude.{ℕ, ◌≡◌, Bool, true, if◌then◌else◌}
use libproc.Prelude.Int.{ℤ, pos, quot, ◌+ℤ◌, ◌-ℤ◌, ◌*ℤ◌, ltb_ℤ, leb_ℤ, eq_ℤ}

pub record Timeval : Type 0 where
  pub tv_sec : ℤ
  pub tv_usec : ℤ

abbrev pub million : ℤ
million = pos 1000000

abbrev pub zero_time : Timeval
zero_time = record { tv_sec = pos 0; tv_usec = pos 0 }

-- `timercmp(a, b, CMP)`, for an operator on the fields.
abbrev pub timercmp : Timeval → Timeval → (ℤ → ℤ → Bool) → Bool
timercmp a b cmp = if eq_ℤ a.tv_sec b.tv_sec then cmp a.tv_usec b.tv_usec else cmp a.tv_sec b.tv_sec

abbrev pub ge : ℤ → ℤ → Bool
ge a b = leb_ℤ b a

abbrev pub gt : ℤ → ℤ → Bool
gt a b = ltb_ℤ b a

abbrev pub lt : ℤ → ℤ → Bool
lt a b = ltb_ℤ a b

abbrev pub le : ℤ → ℤ → Bool
le a b = leb_ℤ a b

unfoldable pub timeradd : Timeval → Timeval → Timeval
timeradd t u =
    let sec = t.tv_sec +ℤ u.tv_sec in
    let usec = t.tv_usec +ℤ u.tv_usec in
    if leb_ℤ million usec
    then record { tv_sec = sec +ℤ pos 1; tv_usec = usec -ℤ million }
    else record { tv_sec = sec; tv_usec = usec }

unfoldable pub timersub : Timeval → Timeval → Timeval
timersub t u =
    let sec = t.tv_sec -ℤ u.tv_sec in
    let usec = t.tv_usec -ℤ u.tv_usec in
    if ltb_ℤ usec (pos 0)
    then record { tv_sec = sec -ℤ pos 1; tv_usec = usec +ℤ million }
    else record { tv_sec = sec; tv_usec = usec }

unfoldable pub evt_ms2tv : ℤ → Timeval
evt_ms2tv ms =
    let sec = quot ms 1000 in record { tv_sec = sec; tv_usec = (ms -ℤ sec *ℤ pos 1000) *ℤ pos 1000 }

-- The time as one number of microseconds, and the range that the system keeps `tv_usec` in.
unfoldable pub micros : Timeval → ℤ
micros t = t.tv_sec *ℤ million +ℤ t.tv_usec

abbrev pub IsNormal : Timeval → Type 0
IsNormal t = (leb_ℤ (pos 0) t.tv_usec ≡ true) × (ltb_ℤ t.tv_usec million ≡ true)
