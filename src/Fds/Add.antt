-- ===== src/Fds/Add.antt =====
-- EVT_fd_add_with_cleanup (events.c) and the callbacks that the loop finds.
use libproc.Prelude.{
  ℕ, ◌%◌, ◌<◌, ◌≡◌, refl, true, false, ◌&&◌, ◌==◌, Option, none, some, List, [], ◌∷◌, ◌++◌, get_or,
  length, if◌then◌else◌, arith, Bool-cases, inl, inr, get_or-set, ap, sym, ◌∙◌, ==_iff,
}
use libproc.Prelude.Int.{pos}
use libproc.Fds.State.{
  FdEvents, FdEvent, EventCb, same_event, bucket_of, put_bucket, find_cb, callback_of, call_cleanup,
}
use libproc.Fds.{
  has_fd, register, register_in, replaced, watched, add_node, new_node, fd_add_with_cleanup,
}

-- The lists are not touched.
abbrev pub Keeps : FdEvents → FdEvents → Type 0
Keeps a b = (b.events ≡ a.events) × (b.hash_size ≡ a.hash_size)

pub call_cleanup-Keeps :
    (ctx : FdEvents) (event : FdEvent) (c : Option ℕ) (a : ℕ)
    → Keeps ctx (call_cleanup ctx event c a)
unfolding call_cleanup
call_cleanup-Keeps ctx event none a = (refl, refl)
call_cleanup-Keeps ctx event (some c) a = (refl, refl)

module _ (event : FdEvent) (cb : ℕ) (cleanup : Option ℕ) (p : ℕ) where
  replaced-Keeps : (ctx : FdEvents) (n : EventCb) → Keeps ctx (replaced ctx event n cb p)
  unfolding replaced
  replaced-Keeps ctx n =
      ground (arith, call_cleanup-Keeps ctx event (n.cleanup event) (n.arg event))

  register-Keeps : (ctx : FdEvents) (n : EventCb) → Keeps ctx (register ctx event n cb cleanup p).0
  unfolding register watched
  register-Keeps ctx n = ground (arith, replaced-Keeps ctx n)

  register-fd : (ctx : FdEvents) (n : EventCb) → (register ctx event n cb cleanup p).1.fd ≡ n.fd
  unfolding register
  register-fd ctx n = ground arith

  register-cb :
      (ctx : FdEvents) (n : EventCb) (e : FdEvent)
      → (register ctx event n cb cleanup p).1.cb e
        ≡ (if same_event e event then some cb else n.cb e)
  unfolding register
  register-cb ctx n e = ground arith

  module _ (fd : ℕ) where
    register_in-Keeps :
        (ctx : FdEvents) (c : List EventCb) → Keeps ctx (register_in ctx fd event cb cleanup p c).0
    unfolding register_in
    register_in-Keeps ctx [] = (refl, refl)
    register_in-Keeps ctx (n ∷ c) = ground (arith, register_in-Keeps ctx c, register-Keeps ctx n)

    register_in-finds :
        (ctx : FdEvents) (c : List EventCb) (i : ℕ) (e : FdEvent)
        → find_cb i e (register_in ctx fd event cb cleanup p c).1
          ≡ (if (i == fd && same_event e event) && has_fd fd c then some cb else find_cb i e c)
    unfolding register_in find_cb has_fd
    register_in-finds ctx [] i e = ground arith
    register_in-finds ctx (n ∷ c) i e =
        ground (arith, register_in-finds ctx c i e, register-fd ctx n, register-cb ctx n e)

append-finds :
    (fd : ℕ) (c : List EventCb) (i : ℕ) (e : FdEvent)
    → find_cb i e (c ++ new_node fd ∷ []) ≡ find_cb i e c
unfolding find_cb
append-finds fd [] i e = ground arith
append-finds fd (n ∷ c) i e = ground (arith, append-finds fd c i e)

append-has : (fd : ℕ) (c : List EventCb) → has_fd fd (c ++ new_node fd ∷ []) ≡ true
unfolding has_fd
append-has fd [] = ground arith
append-has fd (n ∷ c) = ground (arith, append-has fd c)

add_node-Keeps : (ctx : FdEvents) (fd : ℕ) (c : List EventCb) → Keeps ctx (add_node ctx fd c).0
unfolding add_node
add_node-Keeps ctx fd c = ground arith

add_node-finds :
    (ctx : FdEvents) (fd : ℕ) (c : List EventCb) (i : ℕ) (e : FdEvent)
    → find_cb i e (add_node ctx fd c).1 ≡ find_cb i e c
unfolding add_node
add_node-finds ctx fd c i e = ground (arith, append-finds fd c i e)

add_node-has : (ctx : FdEvents) (fd : ℕ) (c : List EventCb) → has_fd fd (add_node ctx fd c).1 ≡ true
unfolding add_node
add_node-has ctx fd c = ground (arith, append-has fd c)

pub put_bucket-finds :
    (ctx : FdEvents) (fd : ℕ) (c : List EventCb) (i : ℕ) (e : FdEvent)
    → fd % ctx.hash_size < length ctx.events
    → callback_of (put_bucket ctx fd c) i e
      ≡ (if fd % ctx.hash_size == i % ctx.hash_size then find_cb i e c else callback_of ctx i e)
put_bucket-finds ctx fd c i e lt =
    rw (get_or-set ctx.events (fd % ctx.hash_size) (i % ctx.hash_size) c [] lt)
      (elim (Bool-cases (fd % ctx.hash_size == i % ctx.hash_size)) [
        | inl s ↦ rw s refl
        | inr s ↦ rw s refl
      ])

pub apart : (k fd i : ℕ) → (fd % k == i % k) ≡ false → (i == fd) ≡ false
apart k fd i s = elim (Bool-cases (i == fd)) [
  | inl e ↦ absurd (cc (s, (==_iff (fd % k) (i % k)).1 (ap (λ j. j % k) (sym ((==_iff i fd).0 e)))))
  | inr e ↦ e
]

module _ (ctx : FdEvents) (fd : ℕ) (event : FdEvent) (cb : ℕ) (cleanup : Option ℕ) (p : ℕ)
    (positive : 0 < ctx.hash_size) (wide : length ctx.events ≡ ctx.hash_size) where
  first : FdEvents × List EventCb
  first = add_node ctx fd (bucket_of ctx fd)

  second : FdEvents × List EventCb
  second = register_in first.0 fd event cb cleanup p first.1

  second-Keeps : Keeps ctx second.0
  unfolding second first
  second-Keeps = ground (
    arith,
    register_in-Keeps event cb cleanup p fd first.0 first.1,
    add_node-Keeps ctx fd (bucket_of ctx fd),
  )

  second-finds :
      (i : ℕ) (e : FdEvent)
      → find_cb i e second.1
        ≡ (if i == fd && same_event e event then some cb else find_cb i e (bucket_of ctx fd))
  unfolding second first
  second-finds i e = ground (
    arith,
    register_in-finds event cb cleanup p fd first.0 first.1 i e,
    add_node-finds ctx fd (bucket_of ctx fd) i e,
    add_node-has ctx fd (bucket_of ctx fd),
  )

  fd_add-run :
      fd_add_with_cleanup ctx fd event (some cb) cleanup p true
      ≡ (put_bucket second.0 fd second.1, pos 1)
  unfolding fd_add_with_cleanup second first
  fd_add-run = ground arith

  home : fd % second.0.hash_size < length second.0.events
  home = rw (second-Keeps.0, second-Keeps.1, wide) (grind arith)

  finds :
      (i : ℕ) (e : FdEvent)
      → callback_of (put_bucket second.0 fd second.1) i e
        ≡ (if i == fd && same_event e event then some cb else callback_of ctx i e)
  finds i e =
      put_bucket-finds second.0 fd second.1 i e home
      ∙ rw (second-Keeps.0, second-Keeps.1)
          (elim (Bool-cases (fd % ctx.hash_size == i % ctx.hash_size)) [
            | inl s ↦ rw s (
                second-finds i e
                ∙ ap
                    (λ j.
                      if i == fd && same_event e event
                      then some cb
                      else find_cb i e (get_or ctx.events j []))
                    ((==_iff _ _).0 s))
            | inr s ↦ rw (s, apart ctx.hash_size fd i s) refl
          ])

  -- On a handler with as many lists as its hash size, and at least one, EVT_fd_add_with_cleanup
  -- with a callback and with memory returns 1; afterwards the loop finds that callback for the
  -- descriptor and event, and for every other descriptor or event the callback that it found
  -- before.
  pub fd_add_with_cleanup_lem :
      let r = fd_add_with_cleanup ctx fd event (some cb) cleanup p true in
      (r.1 ≡ pos 1)
      × ((i : ℕ) (e : FdEvent)
          → callback_of r.0 i e
            ≡ (if i == fd && same_event e event then some cb else callback_of ctx i e))
  fd_add_with_cleanup_lem = rw fd_add-run (refl, finds)
