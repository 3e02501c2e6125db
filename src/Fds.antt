-- ===== src/Fds.antt =====
-- events.c: the callbacks of file descriptors, in lists under the remainder of the descriptor. A
-- descriptor is not negative and below FD_SETSIZE. The calls of cleanup callbacks are recorded; what they
-- do is not modelled.
pub mod State
pub mod Add
pub mod Remove
pub mod Process
pub mod Settle
use libproc.Prelude.{
  ℕ, zero, suc, ◌+◌, ◌%◌, Bool, true, false, not, ◌&&◌, ◌||◌, ◌==◌, ltb, Option, none, some, List,
  [], ◌∷◌, ◌++◌, get_or, set, if◌then◌else◌,
}
use libproc.Prelude.Int.{ℤ, pos, negsuc, ◌+ℤ◌, ◌-ℤ◌, ltb_ℤ}
use libproc.Sched.{recount}
use State.{
  same_event, PerEvent, assign, rests, fd_assign, is_set, next_highest, larger, max_of, lowered,
  lower_max, call_cleanup, in_use, bucket_of, put_bucket, find_cb, callback_of, FdEvent, FdCallback,
  EventCb, FdEvents, fd_read, fd_write, fd_error, at_rest, in_call, added_again, forced_out,
}

unfoldable pub cleared : FdEvents → FdEvent → ℕ → FdEvents
cleared ctx event fd = record ctx {
  event_cnt = assign ctx.event_cnt event (ctx.event_cnt event -ℤ pos 1);
  event_set = assign ctx.event_set event (fd_assign (ctx.event_set event) fd false);
  blocked_set = assign ctx.blocked_set event (fd_assign (ctx.blocked_set event) fd false);
}

abbrev pub without : EventCb → FdEvent → EventCb
without n event = record n {
  cb = assign n.cb event none;
  cleanup = assign n.cleanup event none;
  arg = assign n.arg event 0;
}

unfoldable pub drop_node : FdEvents → EventCb → FdEvents × Option EventCb
drop_node ctx n =
    if in_use n
    then (ctx, some n)
    else if n.critical
    then (record ctx { critical_fd_count = ctx.critical_fd_count -ℤ pos 1 }, none)
    else (ctx, none)

-- EVT_remove_internal. No node is left where it has freed it.
unfoldable pub remove_internal : FdEvents → FdEvent → EventCb → FdEvents × Option EventCb
unfolding lower_max call_cleanup cleared drop_node
remove_internal ctx event tmp =
    if is_set (tmp.cb event)
    then drop_node
        (lower_max
          (cleared (call_cleanup ctx event (tmp.cleanup event) (tmp.arg event)) event tmp.fd) tmp.fd
          event)
        (without tmp event)
    else (ctx, some tmp)

-- One node of the loops of EVT_fd_remove and, with `force`, of EVT_fd_force_remove.
unfoldable pub remove_node : Bool → FdEvents → ℕ → FdEvent → EventCb → FdEvents × Option EventCb
unfolding remove_internal
remove_node force ctx fd event n =
    if n.fd == fd
    then if rests (n.in_callback event) then remove_internal ctx event n else (
      ctx,
      some (if force then record n { in_callback = assign n.in_callback event forced_out } else n),
    )
    else (ctx, some n)

abbrev pub keep_node : Option EventCb → List EventCb → List EventCb
keep_node none c = c
keep_node (some n) c = n ∷ c

unfoldable pub remove_from : Bool → FdEvents → ℕ → FdEvent → List EventCb → FdEvents × List EventCb
unfolding remove_node
remove_from force ctx fd event [] = (ctx, [])
remove_from force ctx fd event (n ∷ c) =
    let (ctx₁, left) = remove_node force ctx fd event n in
    let (ctx₂, c') = remove_from force ctx₁ fd event c in (ctx₂, keep_node left c')

-- EVT_fd_remove
unfoldable pub fd_remove : FdEvents → ℕ → FdEvent → FdEvents
unfolding remove_from
fd_remove ctx fd event =
    let (ctx₁, c) = remove_from false ctx fd event (bucket_of ctx fd) in put_bucket ctx₁ fd c

-- EVT_fd_force_remove
unfoldable pub fd_force_remove : FdEvents → ℕ → FdEvent → FdEvents
unfolding remove_from
fd_force_remove ctx fd event =
    let (ctx₁, c) = remove_from true ctx fd event (bucket_of ctx fd) in put_bucket ctx₁ fd c

abbrev pub new_node : ℕ → EventCb
new_node fd = record {
  cb = λ _. none;
  cleanup = λ _. none;
  arg = λ _. 0;
  counts = λ _. 0;
  breakpoint = λ _. false;
  in_callback = λ _. at_rest;
  pausable = true;
  critical = true;
  fd = fd;
}

unfoldable pub has_fd : ℕ → List EventCb → Bool
has_fd fd [] = false
has_fd fd (n ∷ c) = n.fd == fd || has_fd fd c

-- Whether the entry is overwritten by another callback or argument.
abbrev pub differs : Option ℕ → ℕ → ℕ → ℕ → Bool
differs none arg cb p = false
differs (some old) arg cb p = not (old == cb) || not (arg == p)

-- The count of the event, and the cleanup of an entry that is overwritten.
unfoldable pub replaced : FdEvents → FdEvent → EventCb → ℕ → ℕ → FdEvents
unfolding call_cleanup
replaced ctx event n cb p =
    if is_set (n.cb event)
    then if differs (n.cb event) (n.arg event) cb p && not (n.arg event == p)
      then call_cleanup ctx event (n.cleanup event) (n.arg event)
      else ctx
    else record ctx { event_cnt = assign ctx.event_cnt event (ctx.event_cnt event +ℤ pos 1) }

unfoldable pub watched : FdEvents → FdEvent → EventCb → FdEvents
unfolding max_of
watched ctx event n =
    let fds = assign ctx.max_fds event (larger (ctx.max_fds event) n.fd) in
    record ctx {
      event_set = assign ctx.event_set event (fd_assign (ctx.event_set event) n.fd true);
      blocked_set =
          if not n.pausable || not (n.breakpoint event)
          then assign ctx.blocked_set event (fd_assign (ctx.blocked_set event) n.fd true)
          else ctx.blocked_set;
      max_fds = fds;
      max_fd = max_of fds;
    }

unfoldable pub register : FdEvents → FdEvent → EventCb → ℕ → Option ℕ → ℕ → FdEvents × EventCb
unfolding replaced watched
register ctx event n cb cleanup p =
    let ctx₁ = replaced ctx event n cb p in
    let n₁ : EventCb = record n {
      cb = assign n.cb event (some cb);
      cleanup = assign n.cleanup event cleanup;
      arg = assign n.arg event p;
    } in
    if rests (n.in_callback event)
    then (watched ctx₁ event n₁, n₁)
    else (ctx₁, record n₁ { in_callback = assign n.in_callback event added_again })

-- The first node of the descriptor is changed.
unfoldable pub register_in :
    FdEvents → ℕ → FdEvent → ℕ → Option ℕ → ℕ → List EventCb → FdEvents × List EventCb
unfolding register
register_in ctx fd event cb cleanup p [] = (ctx, [])
register_in ctx fd event cb cleanup p (n ∷ c) =
    let (ctx₁, n₁) = register ctx event n cb cleanup p in
    let (ctx₂, c₂) = register_in ctx fd event cb cleanup p c in
    if n.fd == fd then (ctx₁, n₁ ∷ c) else (ctx₂, n ∷ c₂)

unfoldable pub add_node : FdEvents → ℕ → List EventCb → FdEvents × List EventCb
add_node ctx fd c =
    if has_fd fd c
    then (ctx, c)
    else (record ctx { critical_fd_count = ctx.critical_fd_count +ℤ pos 1 }, c ++ new_node fd ∷ [])

-- EVT_fd_add_with_cleanup; a NULL callback removes the event.
unfoldable pub fd_add_with_cleanup :
    FdEvents → ℕ → FdEvent → Option ℕ → Option ℕ → ℕ → Bool → FdEvents × ℤ
unfolding fd_remove add_node register_in has_fd
fd_add_with_cleanup ctx fd event none cleanup p malloc_ok = (fd_remove ctx fd event, pos 0)
fd_add_with_cleanup ctx fd event (some cb) cleanup p malloc_ok =
    if not (has_fd fd (bucket_of ctx fd)) && not malloc_ok
    then (ctx, negsuc 0)
    else let (ctx₁, c) = add_node ctx fd (bucket_of ctx fd) in
      let (ctx₂, c₂) = register_in ctx₁ fd event cb cleanup p c in (put_bucket ctx₂ fd c₂, pos 1)

-- EVT_fd_add
unfoldable pub fd_add : FdEvents → ℕ → FdEvent → Option ℕ → ℕ → Bool → FdEvents × ℤ
unfolding fd_add_with_cleanup
fd_add ctx fd event cb p malloc_ok = fd_add_with_cleanup ctx fd event cb none p malloc_ok

-- The loop of EVT_fd_set_critical.
unfoldable pub set_critical_in : ℤ → ℕ → Bool → List EventCb → ℤ × List EventCb
unfolding recount
set_critical_in count fd critical [] = (count, [])
set_critical_in count fd critical (n ∷ c) =
    let (count₁, c₁) =
      set_critical_in (if n.fd == fd then recount n.critical critical count else count) fd critical
        c in
    (count₁, (if n.fd == fd then record n { critical = critical } else n) ∷ c₁)

-- EVT_fd_set_critical
unfoldable pub fd_set_critical : FdEvents → ℕ → Bool → FdEvents
unfolding set_critical_in
fd_set_critical ctx fd critical =
    let (count, c) = set_critical_in ctx.critical_fd_count fd critical (bucket_of ctx fd) in
    record (put_bucket ctx fd c) { critical_fd_count = count }
