-- ===== src/Clock.antt =====
-- eventTimer.c and eventTimer.h: the clocks behind the event loop.
-- A clock is its state; `block` takes the blocking operation (select, for the event loop) as a
-- function from the time limit to a result. The kernel's clocks are readings, given as arguments;
-- `Kernel` is what both of them show at one moment.
pub mod System
pub mod RtDebug
pub mod Virt
pub mod Laws
use libproc.Prelude.{Bool, true, false, Option, none, some, ◌||◌, if◌then◌else◌}
use libproc.Prelude.Int.{pos, ltb_ℤ}
use libproc.Timeval.{Timeval, timersub, zero_time}
use System.{Kernel, default_monotonic}

-- The time from `now` to `next`, or none if `next` has passed.
unfoldable pub remaining : Timeval → Timeval → Timeval
unfolding timersub
remaining next now =
    let diff = timersub next now in
    if ltb_ℤ diff.tv_sec (pos 0) || ltb_ℤ diff.tv_usec (pos 0) then zero_time else diff

-- The limit that is handed to the blocking operation: none, if there is no event to wait for.
unfoldable pub block_time : Option Timeval → Timeval → Option Timeval
unfolding remaining
block_time none now = none
block_time (some next) now = some (remaining next now)

-- ET_default_block. The pause flag has no effect.
unfoldable pub default_block {ℓ} :
    {R : Type ℓ} → Kernel → Option Timeval → Bool → (Option Timeval → R) → R
unfolding default_monotonic block_time
default_block kernel next pause blockcb = blockcb (block_time next (default_monotonic kernel))
