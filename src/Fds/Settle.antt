-- ===== src/Fds/Settle.antt =====
-- evt_process_fd_event (events.c) and the callbacks that the loop finds.
use libproc.Prelude.{
  ℕ, ◌%◌, ◌<◌, ◌≡◌, refl, true, false, Bool, ◌&&◌, ◌==◌, Option, none, some, List, [], ◌∷◌, get_or,
  length, if◌then◌else◌, arith, Bool-cases, inl, inr, ap, sym, ◌∙◌, ==_iff, get_or-set,
}
use libproc.Fds.State.{
  FdEvents, FdEvent, EventCb, FdCallback, at_rest, in_call, added_again, forced_out, same_event,
  bucket_of, put_bucket, find_cb, callback_of, rests,
}
use libproc.Fds.{has_fd, drop_node, remove_internal, keep_node}
use libproc.Fds.Add.{Keeps, put_bucket-finds, apart}
use libproc.Fds.Remove.{Distinct, remove_internal-Keeps, remove_internal-finds, resting}
use libproc.Fds.Process.{
  FdCb, node_of, predecessor, still_there, started_in, ends, rested, settle_node, settle_in, settle,
  counted, after_callback, call_fd, pauses, process_fd_event,
}

-- The state of the descriptor's node for the event.
unfoldable pub callback_state : ℕ → FdEvent → List EventCb → FdCallback
callback_state fd event [] = at_rest
callback_state fd event (n ∷ c) =
    if n.fd == fd then n.in_callback event else callback_state fd event c

-- The callback that the loop finds after the call, by the node's mark, whether the callback asked to be
-- kept, and what it left.
abbrev pub found_after : FdCallback → Bool → Option ℕ → Option ℕ
found_after forced_out keep left = none
found_after in_call false left = none
found_after in_call true left = left
found_after added_again keep left = left
found_after at_rest keep left = left

ends_table :
    (own : Bool) (mark : FdCallback) (keep : Bool) (left : Option ℕ)
    → (if own && ends mark keep then none else left)
      ≡ (if own then found_after mark keep left else left)
ends_table false mark keep left = refl
ends_table true forced_out keep left = refl
ends_table true in_call false left = refl
ends_table true in_call true left = refl
ends_table true added_again keep left = refl
ends_table true at_rest keep left = refl

-- How the node of the descriptor, or another node, and the rest of a list are put together.
picks_own :
    (here same for_it over : Bool) (a b : Option ℕ)
    → here ≡ same
    → (if here then if for_it && over then none else a else b)
      ≡ (if (same && for_it) && over then none else if here then a else b)
picks_own true same f o a b h = rw (sym h) refl
picks_own false same f o a b h = rw (sym h) refl

picks_other :
    (here same for_it over : Bool) (a b : Option ℕ)
    → (here ≡ true → same ≡ false)
    → (if here then a else if (same && for_it) && over then none else b)
      ≡ (if (same && for_it) && over then none else if here then a else b)
picks_other true same f o a b h = rw (h refl) refl
picks_other false same f o a b h = refl

and-true :
    (here for_it : Bool) (a b : Option ℕ)
    → (if here then if for_it then none else a else b)
      ≡ (if here then if for_it && true then none else a else b)
and-true here true a b = refl
and-true here false a b = refl

same_event_refl : (e : FdEvent) → same_event e e ≡ true
same_event_refl e = ground arith

flips : (a b i : ℕ) → (a == b) ≡ true → (a == i) ≡ (i == b)
flips a b i s = rw ((==_iff a b).0 s) (ground arith)

module _ (fd : ℕ) (event : FdEvent) (keep : Bool) where
  settle_node-finds :
      (ctx : FdEvents) (n : EventCb) (c : List EventCb) (i : ℕ) (e : FdEvent)
      → has_fd n.fd c ≡ false
      → find_cb i e (keep_node (settle_node ctx event keep n).1 c) ≡ (
          if n.fd == i
          then if same_event e event && ends (n.in_callback event) keep then none else n.cb e
          else find_cb i e c)
  unfolding settle_node find_cb
  settle_node-finds ctx n c i e h = elim (Bool-cases (ends (n.in_callback event) keep)) [
    | inl s ↦
        rw (s, settle_node)
          (remove_internal-finds ctx event (rested n event) c i e h
            ∙ and-true (n.fd == i) (same_event e event) (n.cb e) (find_cb i e c))
    | inr s ↦ rw (s, settle_node) (ground arith)
  ]

  settle_node-Keeps : (ctx : FdEvents) (n : EventCb) → Keeps ctx (settle_node ctx event keep n).0
  unfolding settle_node
  settle_node-Keeps ctx n = elim (Bool-cases (ends (n.in_callback event) keep)) [
    | inl s ↦ rw (s, settle_node) (remove_internal-Keeps ctx event (rested n event))
    | inr s ↦ rw (s, settle_node) (refl, refl)
  ]

  settle_in-Keeps :
      (ctx : FdEvents) (c : List EventCb) → Keeps ctx (settle_in ctx fd event keep c).0
  unfolding settle_in
  settle_in-Keeps ctx [] = (refl, refl)
  settle_in-Keeps ctx (n ∷ c) = ground (arith, settle_node-Keeps ctx n, settle_in-Keeps ctx c)

  settle_in-finds :
      (ctx : FdEvents) (c : List EventCb) (i : ℕ) (e : FdEvent)
      → Distinct c
      → find_cb i e (settle_in ctx fd event keep c).1 ≡ (
          if (i == fd && same_event e event) && ends (callback_state fd event c) keep
          then none
          else find_cb i e c)
  unfolding settle_in Distinct callback_state find_cb
  settle_in-finds ctx [] i e d = ground arith
  settle_in-finds ctx (n ∷ c) i e d = elim (Bool-cases (n.fd == fd)) [
    | inl s ↦ rw s (
        settle_node-finds ctx n c i e (d.0)
        ∙ picks_own (n.fd == i) (i == fd) (same_event e event) (ends (n.in_callback event) keep)
            (n.cb e) (find_cb i e c) (flips n.fd fd i s))
    | inr s ↦ rw s (
        ap (λ o. if n.fd == i then n.cb e else o) (settle_in-finds ctx c i e (d.1))
        ∙ picks_other (n.fd == i) (i == fd) (same_event e event)
            (ends (callback_state fd event c) keep) (n.cb e) (find_cb i e c)
            (λ h. ap (λ j. j == fd) (sym ((==_iff n.fd i).0 h)) ∙ s))
  ]

  missing-rests : (c : List EventCb) → has_fd fd c ≡ false → resting fd event c ≡ true
  unfolding has_fd resting
  missing-rests [] h = refl
  missing-rests (n ∷ c) h = ground (arith, missing-rests c, h)

  remove_internal-rests :
      (ctx : FdEvents) (n : EventCb) (c : List EventCb)
      → has_fd fd c ≡ false
      → rests (n.in_callback event) ≡ true
      → resting fd event (keep_node (remove_internal ctx event n).1 c) ≡ true
  unfolding remove_internal drop_node resting
  remove_internal-rests ctx n c h r = ground (arith, missing-rests c h, r)

  settle_node-rests :
      (ctx : FdEvents) (n : EventCb) (c : List EventCb)
      → has_fd fd c ≡ false
      → resting fd event (keep_node (settle_node ctx event keep n).1 c) ≡ true
  unfolding settle_node resting
  settle_node-rests ctx n c h = elim (Bool-cases (ends (n.in_callback event) keep)) [
    | inl s ↦
        rw (s, settle_node)
          (remove_internal-rests ctx (rested n event) c h
            (ap (λ b. rests (if b then at_rest else n.in_callback event)) (same_event_refl event)))
    | inr s ↦ rw (s, settle_node, same_event_refl event, missing-rests c h) (ground arith)
  ]

  other-rests :
      (n : EventCb) (c : List EventCb)
      → (n.fd == fd) ≡ false
      → resting fd event (n ∷ c) ≡ resting fd event c
  unfolding resting
  other-rests n c s = rw s refl

  -- Afterwards the node is not called for the event.
  settle_in-rests :
      (ctx : FdEvents) (c : List EventCb)
      → Distinct c
      → resting fd event (settle_in ctx fd event keep c).1 ≡ true
  unfolding settle_in Distinct resting
  settle_in-rests ctx [] d = refl
  settle_in-rests ctx (n ∷ c) d = elim (Bool-cases (n.fd == fd)) [
    | inl s ↦
        rw s (settle_node-rests ctx n c (ap (λ j. has_fd j c) (sym ((==_iff n.fd fd).0 s)) ∙ d.0))
    | inr s ↦ rw s (other-rests n (settle_in ctx fd event keep c).1 s ∙ settle_in-rests ctx c (d.1))
  ]

module _ (ctx : FdEvents) (fd : ℕ) (event : FdEvent) (keep : Bool) (positive : 0 < ctx.hash_size)
    (wide : length ctx.events ≡ ctx.hash_size) (distinct : Distinct (bucket_of ctx fd)) where
  abbrev settled : FdEvents × List EventCb
  settled = settle_in ctx fd event keep (bucket_of ctx fd)

  settled-Keeps : Keeps ctx settled.0
  settled-Keeps = settle_in-Keeps fd event keep ctx (bucket_of ctx fd)

  home : fd % settled.0.hash_size < length settled.0.events
  home = rw (settled-Keeps.0, settled-Keeps.1, wide) (grind arith)

  settle-finds :
      (i : ℕ) (e : FdEvent)
      → callback_of (settle ctx fd event keep) i e ≡ (
          if (i == fd && same_event e event)
            && ends (callback_state fd event (bucket_of ctx fd)) keep
          then none
          else callback_of ctx i e)
  unfolding settle
  settle-finds i e =
      put_bucket-finds settled.0 fd settled.1 i e home
      ∙ rw (settled-Keeps.0, settled-Keeps.1)
          (elim (Bool-cases (fd % ctx.hash_size == i % ctx.hash_size)) [
            | inl s ↦ rw s (
                settle_in-finds fd event keep ctx (bucket_of ctx fd) i e distinct
                ∙ ap
                    (λ j.
                      if (i == fd && same_event e event)
                        && ends (callback_state fd event (bucket_of ctx fd)) keep
                      then none
                      else find_cb i e (get_or ctx.events j []))
                    ((==_iff _ _).0 s))
            | inr s ↦ rw (s, apart ctx.hash_size fd i s) refl
          ])

  settle-rests : resting fd event (bucket_of (settle ctx fd event keep) fd) ≡ true
  unfolding settle
  settle-rests =
      rw
        (
          get_or-set settled.0.events (fd % settled.0.hash_size) (fd % settled.0.hash_size)
              settled.1 [] home,
          (==_iff (fd % settled.0.hash_size) (fd % settled.0.hash_size)).1 refl,
        )
        (settle_in-rests fd event keep ctx (bucket_of ctx fd) distinct)

module _ (callback : FdCb) (ctx : FdEvents) (fd : ℕ) (event : FdEvent) (n : EventCb) (cb : ℕ)
    (after : FdEvents) (keep : Bool) (here : node_of fd (bucket_of ctx fd) ≡ some n)
    (runs : pauses ctx event n ≡ false) (has_cb : n.cb event ≡ some cb)
    (called : callback
        (put_bucket ctx fd (started_in fd event (bucket_of ctx fd)))
        cb
        fd
        event
        (n.arg event)
      ≡ (after, keep))
    (there : still_there (predecessor none fd (bucket_of ctx fd)) fd (bucket_of after fd) ≡ true)
    (positive : 0 < after.hash_size) (wide : length after.events ≡ after.hash_size)
    (distinct : Distinct (bucket_of after fd)) where
  process-run :
      process_fd_event callback ctx fd event ≡ some (settle (counted after) fd event keep, true)
  unfolding process_fd_event call_fd after_callback
  process-run =
      rw (here, runs, has_cb, called, there, process_fd_event, call_fd, after_callback) refl

  -- For a descriptor that has a node with a callback for the event, and where no breakpoint
  -- applies: if the callback ends in a state with as many lists as its hash size, and at least
  -- one, in which no descriptor has two nodes in the descriptor's list and evtCurr still points to
  -- the node, then evt_process_fd_event returns 1, and afterwards no callback is marked as running
  -- for the descriptor and event. The loop then finds no callback for them if the node's mark is
  -- that of an EVT_fd_force_remove that no EVT_fd_add has followed, or if it is still that of a
  -- running callback and the callback returned EVENT_REMOVE; with another mark, or where the
  -- callback returned EVENT_KEEP without an EVT_fd_force_remove, and for every other descriptor or
  -- event, it finds what the callback left.
  pub process_fd_event_lem :
      (r : FdEvents) × (process_fd_event callback ctx fd event ≡ some (r, true))
      × ((i : ℕ) (e : FdEvent)
          → callback_of r i e ≡ (
              if i == fd && same_event e event
              then found_after
                  (callback_state fd event (bucket_of after fd))
                  keep
                  (callback_of after i e)
              else callback_of after i e))
      × (resting fd event (bucket_of r fd) ≡ true)
  process_fd_event_lem = (
    settle (counted after) fd event keep,
    process-run,
    (λ i e.
        settle-finds (counted after) fd event keep positive wide distinct i e
        ∙ ends_table (i == fd && same_event e event) (callback_state fd event (bucket_of after fd))
            keep (callback_of after i e)),
    settle-rests (counted after) fd event keep positive wide distinct,
  )
