-- ===== src/Clock/Virt.antt =====
-- The virtual clock (eventTimer.c).
use libproc.Prelude.{Bool, true, false, Option, none, some, ◌≡◌, ◌∙◌}
use libproc.Prelude.Int.{ltb_ℤ}
use libproc.Timeval.{Timeval, timeradd, timercmp, lt, zero_time, micros, IsNormal}
use libproc.Timeval.Order.{timercmp-lt}
use libproc.Clock.{block_time}

-- VIRT_CLK_ACTIVE, VIRT_CLK_PAUSED and VIRT_CLK_STOLEN.
pub data ClkState : Type 0 where
  active paused stolen : ClkState

-- struct VirtualEventTimer
pub record Virt : Type 0 where
  pub time : Timeval
  pub pause : ClkState

-- ET_virt_init
unfoldable pub virt_init : Timeval → Virt
virt_init init_time = record { time = init_time; pause = active }

unfoldable pub virt_inc_time : Virt → Timeval → Virt
unfolding timeradd
virt_inc_time clk t = record clk { time = timeradd t clk.time }

unfoldable pub virt_set_time : Virt → Timeval → Virt
virt_set_time clk t = record clk { time = t }

unfoldable pub virt_get_time : Virt → Timeval
virt_get_time clk = clk.time

-- A request for the stolen state is ignored.
unfoldable pub virt_set_pause : Virt → ClkState → Virt
virt_set_pause clk stolen = clk
virt_set_pause clk active = record clk { pause = active }
virt_set_pause clk paused = record clk { pause = paused }

unfoldable pub virt_get_pause : Virt → ClkState
virt_get_pause clk = clk.pause

-- ET_virt_block up to its call of the blocking operation: the clock, and the limit handed over.
virt_jump : Virt → ClkState → Timeval → Virt × Option Timeval
unfolding virt_set_time
virt_jump et active next = (virt_set_time et next, some zero_time)
virt_jump et paused next = (et, none)
virt_jump et stolen next = (et, none)

virt_limit : Virt → Option Timeval → Bool → Virt × Option Timeval
unfolding virt_jump virt_get_pause virt_get_time block_time
virt_limit et none pause = (et, none)
virt_limit et (some next) true = (et, block_time (some next) (virt_get_time et))
virt_limit et (some next) false = virt_jump et (virt_get_pause et) next

-- ET_virt_block
unfoldable pub virt_block {ℓ} :
    {R : Type ℓ} → Virt → Option Timeval → Bool → (Virt → Option Timeval → R) → R
unfolding virt_limit
virt_block et next pause blockcb = let (et', limit) = virt_limit et next pause in blockcb et' limit

-- A running virtual clock with a normal time that is already past the next event, whose time is
-- normal too, is turned back by ET_virt_block: the time that the blocking operation sees is less
-- than before.
pub virt_block_back :
    (et : Virt) (next : Timeval)
    → IsNormal et.time
    → IsNormal next
    → et.pause ≡ active
    → ltb_ℤ (micros next) (micros et.time) ≡ true
    → timercmp (virt_get_time (virt_block et (some next) false (λ et' _. et'))) et.time lt ≡ true
unfolding virt_block
virt_block_back et next h k e back = rw (e, virt_block) (timercmp-lt next et.time k h ∙ back)
