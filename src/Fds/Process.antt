-- ===== src/Fds/Process.antt =====
-- events.c: evt_process_fd_event, as the loop of EVT_start_loop calls it for a descriptor; single steps
-- are left out. What a callback does is a parameter.
use libproc.Prelude.{
  ℕ, ◌+◌, ◌%◌, ◌^◌, Bool, true, false, not, ◌&&◌, ◌||◌, ◌==◌, Option, none, some, List, [], ◌∷◌,
  if◌then◌else◌,
}
use libproc.Prelude.Int.{pos, ◌-ℤ◌, leb_ℤ}
use libproc.Fds.State.{
  FdEvents, FdEvent, EventCb, FdCallback, at_rest, in_call, added_again, forced_out, assign,
  bucket_of, put_bucket,
}
use libproc.Fds.{remove_internal, keep_node}

-- A callback gets its number, the descriptor, the event and its argument; it returns whether it is
-- to be kept.
abbrev pub FdCb : Type 0
FdCb = FdEvents → ℕ → ℕ → FdEvent → ℕ → FdEvents × Bool

unfoldable pub node_of : ℕ → List EventCb → Option EventCb
node_of fd [] = none
node_of fd (n ∷ c) = if n.fd == fd then some n else node_of fd c

-- The node before that of the descriptor: `evtCurr` is its `next`, or the list's head.
unfoldable pub predecessor : Option ℕ → ℕ → List EventCb → Option ℕ
predecessor p fd [] = p
predecessor p fd (n ∷ c) = if n.fd == fd then p else predecessor (some n.fd) fd c

abbrev pub starts_with : ℕ → List EventCb → Bool
starts_with fd [] = false
starts_with fd (n ∷ c) = n.fd == fd

unfoldable pub follows : ℕ → ℕ → List EventCb → Bool
follows p fd [] = false
follows p fd (n ∷ c) = if n.fd == p then starts_with fd c else follows p fd c

-- Whether `*evtCurr` is still the node. It is not where the callback has freed the node before it, in
-- which the pointer lies.
abbrev pub still_there : Option ℕ → ℕ → List EventCb → Bool
still_there none fd c = starts_with fd c
still_there (some p) fd c = follows p fd c

-- The count, and `inCallback[event] = 1`.
unfoldable pub started_in : ℕ → FdEvent → List EventCb → List EventCb
started_in fd event [] = []
started_in fd event (n ∷ c) =
    let rest = started_in fd event c in
    if n.fd == fd
    then record n {
      counts = assign n.counts event ((n.counts event + 1) % 2 ^ 32);
      in_callback = assign n.in_callback event in_call;
    }
      ∷ c
    else n ∷ rest

-- The condition under which the event is removed after its callback.
abbrev pub ends : FdCallback → Bool → Bool
ends at_rest keep = false
ends in_call keep = not keep
ends added_again keep = false
ends forced_out keep = true

abbrev pub rested : EventCb → FdEvent → EventCb
rested n event = record n { in_callback = assign n.in_callback event at_rest }

unfoldable pub settle_node : FdEvents → FdEvent → Bool → EventCb → FdEvents × Option EventCb
unfolding remove_internal
settle_node ctx event keep n =
    if ends (n.in_callback event) keep
    then remove_internal ctx event (rested n event)
    else (ctx, some (rested n event))

unfoldable pub settle_in : FdEvents → ℕ → FdEvent → Bool → List EventCb → FdEvents × List EventCb
unfolding settle_node
settle_in ctx fd event keep [] = (ctx, [])
settle_in ctx fd event keep (n ∷ c) =
    let (ctx₁, left) = settle_node ctx event keep n in
    let (ctx₂, c₂) = settle_in ctx fd event keep c in
    if n.fd == fd then (ctx₁, keep_node left c) else (ctx₂, n ∷ c₂)

unfoldable pub settle : FdEvents → ℕ → FdEvent → Bool → FdEvents
unfolding settle_in
settle ctx fd event keep =
    let (ctx₁, c) = settle_in ctx fd event keep (bucket_of ctx fd) in put_bucket ctx₁ fd c

abbrev pub counted : FdEvents → FdEvents
counted ctx = record ctx { fd_event_counter = (ctx.fd_event_counter + 1) % 2 ^ 64 }

unfoldable pub after_callback : Option ℕ → ℕ → FdEvent → FdEvents × Bool → Option (FdEvents × Bool)
unfolding settle
after_callback p fd event (ctx, keep) =
    if still_there p fd (bucket_of ctx fd)
    then some (settle (counted ctx) fd event keep, true)
    else none

unfoldable pub call_fd : FdCb → FdEvents → ℕ → FdEvent → EventCb → Option (FdEvents × Bool)
unfolding started_in after_callback predecessor
call_fd callback ctx fd event n = elim (n.cb event) [
  | none ↦ some (settle ctx fd event true, true)
  | some cb ↦ after_callback (predecessor none fd (bucket_of ctx fd)) fd event (
      callback (put_bucket ctx fd (started_in fd event (bucket_of ctx fd))) cb fd event
        (n.arg event))
]

abbrev pub pauses : FdEvents → FdEvent → EventCb → Bool
pauses ctx event n = n.pausable && (ctx.break_on_next || n.breakpoint event)

abbrev pub one_step_less : FdEvents → FdEvents
one_step_less ctx = record ctx { steps_to_break = ctx.steps_to_break -ℤ pos 1 }

-- edbg_breakpoint without its report, and the event that the debugger's next step is to run.
abbrev pub fd_breakpoint : FdEvents → ℕ → FdEvent → FdEvents
fd_breakpoint ctx fd event = record ctx {
  next_fd_event = some (fd, event);
  stopped = true;
  break_on_next = false;
}

-- evt_process_fd_event, with whether the loop goes on; `none` is a use of freed memory.
unfoldable pub process_fd_event : FdCb → FdEvents → ℕ → FdEvent → Option (FdEvents × Bool)
unfolding node_of call_fd
process_fd_event callback ctx fd event = elim (node_of fd (bucket_of ctx fd)) [
  | none ↦ some (ctx, true)
  | some n ↦
      if pauses ctx event n
      then if leb_ℤ (ctx.steps_to_break -ℤ pos 1) (pos 0)
        then some (fd_breakpoint (one_step_less ctx) fd event, false)
        else call_fd callback (one_step_less ctx) fd event n
      else call_fd callback ctx fd event n
]
