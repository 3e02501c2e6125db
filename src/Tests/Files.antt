-- ===== src/Tests/Files.antt =====
-- Descriptors 3 and 22, which share a list of the nineteen.
use libproc.Prelude.{
  ℕ, ◌≡◌, refl, true, false, ◌&&◌, ◌==◌, none, some, [], replicate, if◌then◌else◌, arith,
}
use libproc.Prelude.Int.{pos}
use libproc.Fds.State.{
  FdEvents, FdEvent, EventCb, fd_read, fd_write, same_event, callback_of, bucket_of, put_bucket,
  assign,
}
use libproc.Fds.Remove.{Distinct, resting, fd_remove_lem}
use libproc.Fds.Process.{FdCb, started_in, predecessor, follows, node_of, process_fd_event}
use libproc.Fds.Settle.{callback_state, found_after, process_fd_event_lem}
use libproc.Fds.{fd_add_with_cleanup, fd_remove, fd_force_remove, new_node}
use libproc.Fds.Add.{fd_add_with_cleanup_lem}

abbrev empty : FdEvents
empty = record {
  events = replicate 19 [];
  hash_size = 19;
  event_set = λ e i. false;
  blocked_set = λ e i. false;
  max_fd = 0;
  max_fds = λ e. 0;
  event_cnt = λ e. pos 0;
  critical_fd_count = pos 0;
  stopped = false;
  break_on_next = false;
  steps_to_break = pos 0;
  next_fd_event = none;
  fd_event_counter = 0;
  cleanups = [];
}

fd_add_with_cleanup_lem_example :
    let r = fd_add_with_cleanup empty 22 fd_write (some 5) none 7 true in
    (r.1 ≡ pos 1)
    × ((i : ℕ) (e : FdEvent)
        → callback_of r.0 i e
          ≡ (if i == 22 && same_event e fd_write then some 5 else callback_of empty i e))
fd_add_with_cleanup_lem_example =
    fd_add_with_cleanup_lem empty 22 fd_write 5 none 7 (omega arith) refl

abbrev registered : FdEvents
registered =
    (fd_add_with_cleanup (fd_add_with_cleanup empty 3 fd_read (some 4) none 6 true).0 22 fd_write
      (some 5) none 7 true).0

registered-Distinct : Distinct (bucket_of registered 22)
unfolding Distinct fd_add_with_cleanup
registered-Distinct = (refl, (refl, tt))

fd_remove_lem_example : callback_of (fd_remove registered 22 fd_write) 22 fd_write ≡ (
    if (22 == 22 && same_event fd_write fd_write) && resting 22 fd_write (bucket_of registered 22)
    then none
    else callback_of registered 22 fd_write)
unfolding fd_add_with_cleanup
fd_remove_lem_example =
    fd_remove_lem registered 22 fd_write (omega arith) refl registered-Distinct 22 fd_write

-- A callback that asks for its own removal.
abbrev resigns : FdCb
resigns s cb fd event arg = (fd_force_remove s fd event, true)

abbrev called : FdEvents
called =
    fd_force_remove (put_bucket registered 22 (started_in 22 fd_write (bucket_of registered 22))) 22
      fd_write

abbrev node : EventCb
node = record (new_node 22) {
  cb = assign (λ _. none) fd_write (some 5);
  cleanup = assign (λ _. none) fd_write none;
  arg = assign (λ _. 0) fd_write 7;
}

process_fd_event_lem_example :
    (r : FdEvents) × (process_fd_event resigns registered 22 fd_write ≡ some (r, true))
    × ((i : ℕ) (e : FdEvent)
        → callback_of r i e ≡ (
            if i == 22 && same_event e fd_write
            then found_after
                (callback_state 22 fd_write (bucket_of called 22))
                true
                (callback_of called i e)
            else callback_of called i e))
    × (resting 22 fd_write (bucket_of r 22) ≡ true)
unfolding fd_add_with_cleanup fd_force_remove started_in node_of predecessor follows Distinct
process_fd_event_lem_example =
    process_fd_event_lem resigns registered 22 fd_write node 5 called true refl refl refl refl refl
      (omega arith) refl (refl, (refl, tt))
