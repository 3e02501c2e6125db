-- ===== src/Fds/State.antt =====
-- events.c: the nodes of file descriptors and the state of the handler that they are kept in.
use libproc.Prelude.{
  ℕ, zero, suc, ◌%◌, Bool, true, false, ◌&&◌, ◌||◌, ◌==◌, ltb, Option, none, some, List, [], ◌∷◌,
  get_or, set, if◌then◌else◌,
}
use libproc.Prelude.Int.{ℤ, pos, ltb_ℤ}

-- EVENT_FD_READ, EVENT_FD_WRITE and EVENT_FD_ERROR.
pub data FdEvent : Type 0 where
  fd_read fd_write fd_error : FdEvent

abbrev pub same_event : FdEvent → FdEvent → Bool
same_event fd_read fd_read = true
same_event fd_read fd_write = false
same_event fd_read fd_error = false
same_event fd_write fd_read = false
same_event fd_write fd_write = true
same_event fd_write fd_error = false
same_event fd_error fd_read = false
same_event fd_error fd_write = false
same_event fd_error fd_error = true

-- An array with an entry for each event.
abbrev pub PerEvent {ℓ} : Type ℓ → Type ℓ
PerEvent A = FdEvent → A

abbrev pub assign {ℓ} : {A : Type ℓ} → PerEvent A → FdEvent → A → PerEvent A
assign f event v k = if same_event event k then v else f k

-- `inCallback[event]`: 0, 1, 2 once EVT_fd_add has been called again, and 3 once EVT_fd_force_remove has.
pub data FdCallback : Type 0 where
  at_rest in_call added_again forced_out : FdCallback

abbrev pub rests : FdCallback → Bool
rests at_rest = true
rests in_call = false
rests added_again = false
rests forced_out = false

-- struct EventCB, without its name.
pub record EventCb : Type 0 where
  pub cb : PerEvent (Option ℕ)
  pub cleanup : PerEvent (Option ℕ)
  pub arg : PerEvent ℕ
  pub counts : PerEvent ℕ
  pub breakpoint : PerEvent Bool
  pub in_callback : PerEvent FdCallback
  pub pausable : Bool
  pub critical : Bool
  pub fd : ℕ

-- The part of struct EventState that file descriptors use; `stopped` is debuggerState == EDBG_STOPPED,
-- and `next_fd_event` names its node by the descriptor. `cleanups` has the calls of cleanup
-- callbacks, newest first.
pub record FdEvents : Type 0 where
  pub events : List (List EventCb)
  pub hash_size : ℕ
  pub event_set : PerEvent (ℕ → Bool)
  pub blocked_set : PerEvent (ℕ → Bool)
  pub max_fd : ℕ
  pub max_fds : PerEvent ℕ
  pub event_cnt : PerEvent ℤ
  pub critical_fd_count : ℤ
  pub stopped : Bool
  pub break_on_next : Bool
  pub steps_to_break : ℤ
  pub next_fd_event : Option (ℕ × FdEvent)
  pub fd_event_counter : ℕ
  pub cleanups : List (ℕ × FdEvent × ℕ)

-- FD_SET and FD_CLR.
abbrev pub fd_assign : (ℕ → Bool) → ℕ → Bool → ℕ → Bool
fd_assign fds fd v i = if fd == i then v else fds i

abbrev pub is_set : Option ℕ → Bool
is_set none = false
is_set (some c) = true

-- The last `i` from 1 on, below `fd`, that is in the set; 0 if there is none.
unfoldable pub next_highest : (ℕ → Bool) → ℕ → ℕ
next_highest fds zero = 0
next_highest fds (suc fd) = if ltb 0 fd && fds fd then fd else next_highest fds fd

abbrev pub larger : ℕ → ℕ → ℕ
larger a b = if ltb a b then b else a

-- `ctx->maxFd = ctx->maxFds[0]`, and the loop over the others.
unfoldable pub max_of : PerEvent ℕ → ℕ
max_of m = larger (larger (m fd_read) (m fd_write)) (m fd_error)

unfoldable pub lowered : FdEvents → ℕ → FdEvent → FdEvents
unfolding next_highest max_of
lowered ctx fd event =
    let fds = assign ctx.max_fds event (next_highest (ctx.event_set event) fd) in
    record ctx { max_fds = fds; max_fd = max_of fds }

unfoldable pub lower_max : FdEvents → ℕ → FdEvent → FdEvents
unfolding lowered
lower_max ctx fd event =
    if fd == ctx.max_fds event
    then if ltb_ℤ (pos 0) (ctx.event_cnt event)
      then lowered ctx fd event
      else record ctx { max_fds = assign ctx.max_fds event 0 }
    else ctx

unfoldable pub call_cleanup : FdEvents → FdEvent → Option ℕ → ℕ → FdEvents
call_cleanup ctx event none arg = ctx
call_cleanup ctx event (some c) arg = record ctx { cleanups = (c, event, arg) ∷ ctx.cleanups }

abbrev pub in_use : EventCb → Bool
in_use n = is_set (n.cb fd_read) || is_set (n.cb fd_write) || is_set (n.cb fd_error)

abbrev pub bucket_of : FdEvents → ℕ → List EventCb
bucket_of ctx fd = get_or ctx.events (fd % ctx.hash_size) []

abbrev pub put_bucket : FdEvents → ℕ → List EventCb → FdEvents
put_bucket ctx fd c = record ctx { events = set ctx.events (fd % ctx.hash_size) c }

-- The callback that the loop finds for an event: that of the descriptor's first node.
unfoldable pub find_cb : ℕ → FdEvent → List EventCb → Option ℕ
find_cb fd event [] = none
find_cb fd event (n ∷ c) = if n.fd == fd then n.cb event else find_cb fd event c

abbrev pub callback_of : FdEvents → ℕ → FdEvent → Option ℕ
callback_of ctx fd event = find_cb fd event (bucket_of ctx fd)
