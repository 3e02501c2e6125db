-- ===== src/Fds/Remove.antt =====
-- EVT_remove_internal and EVT_fd_remove (events.c) and the callbacks that the loop finds.
use libproc.Prelude.{
  ℕ, ◌%◌, ◌<◌, ◌≡◌, refl, true, false, Bool, ◌&&◌, ◌==◌, Option, none, List, [], ◌∷◌, get_or,
  length, if◌then◌else◌, arith, Bool-cases, inl, inr, ap, sym, ◌∙◌, ==_iff, ne→==, ==→ne,
}
use libproc.Fds.State.{
  FdEvents, FdEvent, fd_read, fd_write, fd_error, EventCb, same_event, bucket_of, find_cb,
  callback_of, call_cleanup, rests, is_set, in_use, lower_max, lowered,
}
use libproc.Fds.{
  has_fd, cleared, without, drop_node, remove_internal, remove_node, keep_node, remove_from,
  fd_remove,
}
use libproc.Fds.Add.{Keeps, call_cleanup-Keeps, put_bucket-finds, apart}

-- No descriptor has two nodes.
unfoldable pub Distinct : List EventCb → Type 0
Distinct [] = Unit
Distinct (n ∷ c) = (has_fd n.fd c ≡ false) × Distinct c

pub missing-finds :
    (i : ℕ) (e : FdEvent) (c : List EventCb) → has_fd i c ≡ false → find_cb i e c ≡ none
unfolding has_fd find_cb
missing-finds i e [] h = refl
missing-finds i e (n ∷ c) h = ground (arith, missing-finds i e c, h)

drop_node-Keeps : (ctx : FdEvents) (n : EventCb) → Keeps ctx (drop_node ctx n).0
unfolding drop_node
drop_node-Keeps ctx n = ground arith

lower_max-Keeps : (ctx : FdEvents) (fd : ℕ) (event : FdEvent) → Keeps ctx (lower_max ctx fd event)
unfolding lower_max lowered
lower_max-Keeps ctx fd event = ground arith

cleared-Keeps : (ctx : FdEvents) (event : FdEvent) (fd : ℕ) → Keeps ctx (cleared ctx event fd)
unfolding cleared
cleared-Keeps ctx event fd = (refl, refl)

pub Keeps-trans : (a b c : FdEvents) → Keeps a b → Keeps b c → Keeps a c
Keeps-trans a b c (e, h) (e', h') = (e' ∙ e, h' ∙ h)

unused-cb : (n : EventCb) → in_use n ≡ false → (e : FdEvent) → n.cb e ≡ none
unused-cb n h fd_read = ground (arith, h)
unused-cb n h fd_write = ground (arith, h)
unused-cb n h fd_error = ground (arith, h)

-- A node without any callback shows none.
drop_node-finds :
    (ctx : FdEvents) (n : EventCb) (c : List EventCb) (i : ℕ) (e : FdEvent)
    → has_fd n.fd c ≡ false
    → find_cb i e (keep_node (drop_node ctx n).1 c) ≡ (if n.fd == i then n.cb e else find_cb i e c)
unfolding drop_node find_cb
drop_node-finds ctx n c i e h = elim (Bool-cases (in_use n)) [
  | inl u ↦ ground (arith, u)
  | inr u ↦ ground (arith, u, unused-cb n u e, missing-finds i e c, ==_iff n.fd i)
]

same_event_sym : (a b : FdEvent) → same_event a b ≡ same_event b a
same_event_sym a b = ground arith

module _ (ctx : FdEvents) (event : FdEvent) (n : EventCb) where
  abbrev left_by : FdEvents
  left_by =
      lower_max (cleared (call_cleanup ctx event (n.cleanup event) (n.arg event)) event n.fd) n.fd
        event

  left_by-Keeps : Keeps ctx left_by
  left_by-Keeps =
      let a = call_cleanup ctx event (n.cleanup event) (n.arg event) in
      let b = cleared a event n.fd in
      Keeps-trans ctx a left_by (call_cleanup-Keeps ctx event (n.cleanup event) (n.arg event))
        (Keeps-trans a b left_by (cleared-Keeps a event n.fd) (lower_max-Keeps b n.fd event))

  pub remove_internal-Keeps : Keeps ctx (remove_internal ctx event n).0
  unfolding remove_internal
  remove_internal-Keeps = elim (Bool-cases (is_set (n.cb event))) [
    | inl h ↦
        rw (h, remove_internal)
          (Keeps-trans ctx left_by (drop_node left_by (without n event)).0 left_by-Keeps
            (drop_node-Keeps left_by (without n event)))
    | inr h ↦ rw (h, remove_internal) (refl, refl)
  ]

  unset-cb :
      (e : FdEvent)
      → is_set (n.cb event) ≡ false
      → (if same_event e event then none else n.cb e) ≡ n.cb e
  unset-cb e s = ground (arith, s)

  pub remove_internal-finds :
      (c : List EventCb) (i : ℕ) (e : FdEvent)
      → has_fd n.fd c ≡ false
      → find_cb i e (keep_node (remove_internal ctx event n).1 c)
        ≡ (if n.fd == i then if same_event e event then none else n.cb e else find_cb i e c)
  unfolding remove_internal find_cb
  remove_internal-finds c i e h = elim (Bool-cases (is_set (n.cb event))) [
    | inl s ↦
        rw (s, remove_internal)
          (drop_node-finds left_by (without n event) c i e h
            ∙ ap (λ b. if n.fd == i then if b then none else n.cb e else find_cb i e c)
                (same_event_sym event e))
    | inr s ↦ rw (s, remove_internal, unset-cb e s) refl
  ]

-- The node of the descriptor is not called for the event.
unfoldable pub resting : ℕ → FdEvent → List EventCb → Bool
resting fd event [] = true
resting fd event (n ∷ c) = if n.fd == fd then rests (n.in_callback event) else resting fd event c

remove_internal-has :
    (ctx : FdEvents) (event : FdEvent) (n : EventCb) (c : List EventCb) (j : ℕ)
    → has_fd j c ≡ false
    → (n.fd == j) ≡ false
    → has_fd j (keep_node (remove_internal ctx event n).1 c) ≡ false
unfolding remove_internal drop_node has_fd
remove_internal-has ctx event n c j h ne = ground (arith, h, ne)

-- How the first node and the rest of a list are put together.
picks :
    (here its same rest_here for_it others : Bool) (a b : Option ℕ)
    → (here ≡ true → its ≡ same)
    → (here ≡ false → its ≡ true → same ≡ false)
    → (if here
        then if (its && rest_here) && for_it then none else a
        else if (same && for_it) && others
        then none
        else b)
      ≡ (if (same && for_it) && (if its then rest_here else others)
          then none
          else if here
          then a
          else b)
picks true its same r f o a b h k = rw (h refl) (ground arith)
picks false true same r f o a b h k = rw (k refl refl) refl
picks false false same r f o a b h k = refl

module _ (fd : ℕ) (event : FdEvent) where
  remove_node-has :
      (ctx : FdEvents) (n : EventCb) (c : List EventCb) (j : ℕ)
      → has_fd j c ≡ false
      → (n.fd == j) ≡ false
      → has_fd j (keep_node (remove_node false ctx fd event n).1 c) ≡ false
  unfolding remove_node has_fd
  remove_node-has ctx n c j h ne = ground (arith, remove_internal-has ctx event n c j h ne, h, ne)

  remove_node-finds :
      (ctx : FdEvents) (n : EventCb) (c : List EventCb) (i : ℕ) (e : FdEvent)
      → has_fd n.fd c ≡ false
      → find_cb i e (keep_node (remove_node false ctx fd event n).1 c) ≡ (
          if n.fd == i
          then if (n.fd == fd && rests (n.in_callback event)) && same_event e event
            then none
            else n.cb e
          else find_cb i e c)
  unfolding remove_node find_cb
  remove_node-finds ctx n c i e h = ground (arith, remove_internal-finds ctx event n c i e h)

  remove_node-Keeps :
      (ctx : FdEvents) (n : EventCb) → Keeps ctx (remove_node false ctx fd event n).0
  unfolding remove_node
  remove_node-Keeps ctx n = ground (arith, remove_internal-Keeps ctx event n)

  remove_from-has :
      (ctx : FdEvents) (c : List EventCb) (j : ℕ)
      → has_fd j c ≡ false
      → has_fd j (remove_from false ctx fd event c).1 ≡ false
  unfolding remove_from has_fd
  remove_from-has ctx [] j h = refl
  remove_from-has ctx (n ∷ c) j h =
      remove_node-has ctx n _ j
        (remove_from-has (remove_node false ctx fd event n).0 c j (ground (arith, h)))
        (ground (arith, h))

  remove_from-Keeps :
      (c : List EventCb) (ctx : FdEvents) → Keeps ctx (remove_from false ctx fd event c).0
  unfolding remove_from
  remove_from-Keeps [] ctx = (refl, refl)
  remove_from-Keeps (n ∷ c) ctx =
      Keeps-trans ctx (remove_node false ctx fd event n).0
        (remove_from false (remove_node false ctx fd event n).0 fd event c).0
        (remove_node-Keeps ctx n) (remove_from-Keeps c (remove_node false ctx fd event n).0)

  remove_from-finds :
      (ctx : FdEvents) (c : List EventCb) (i : ℕ) (e : FdEvent)
      → Distinct c
      → find_cb i e (remove_from false ctx fd event c).1
        ≡ (if (i == fd && same_event e event) && resting fd event c then none else find_cb i e c)
  unfolding remove_from Distinct resting find_cb
  remove_from-finds ctx [] i e d = ground arith
  remove_from-finds ctx (n ∷ c) i e d =
      let ctx₁ = (remove_node false ctx fd event n).0 in
      remove_node-finds ctx n (remove_from false ctx₁ fd event c).1 i e
        (remove_from-has ctx₁ c n.fd (d.0))
      ∙ ap
          (λ o.
            if n.fd == i
            then if (n.fd == fd && rests (n.in_callback event)) && same_event e event
              then none
              else n.cb e
            else o)
          (remove_from-finds ctx₁ c i e (d.1))
      ∙ picks (n.fd == i) (n.fd == fd) (i == fd) (rests (n.in_callback event)) (same_event e event)
          (resting fd event c) (n.cb e) (find_cb i e c)
          (λ h. ap (λ j. j == fd) ((==_iff n.fd i).0 h))
          (λ h g. ne→== i fd (λ q. ==→ne n.fd i h ((==_iff n.fd fd).0 g ∙ sym q)))

module _ (ctx : FdEvents) (fd : ℕ) (event : FdEvent) (positive : 0 < ctx.hash_size)
    (wide : length ctx.events ≡ ctx.hash_size) (distinct : Distinct (bucket_of ctx fd)) where
  abbrev removed : FdEvents × List EventCb
  removed = remove_from false ctx fd event (bucket_of ctx fd)

  -- On a handler with as many lists as its hash size, and at least one, where no descriptor has
  -- two nodes in the descriptor's list: after EVT_fd_remove the loop finds no callback for the
  -- descriptor and event, unless one is running for them, and for every other descriptor or event,
  -- or if one is running, the callback that it found before.
  pub fd_remove_lem :
      (i : ℕ) (e : FdEvent)
      → callback_of (fd_remove ctx fd event) i e ≡ (
          if (i == fd && same_event e event) && resting fd event (bucket_of ctx fd)
          then none
          else callback_of ctx i e)
  unfolding fd_remove
  fd_remove_lem i e =
      let k = remove_from-Keeps fd event (bucket_of ctx fd) ctx in
      put_bucket-finds removed.0 fd removed.1 i e (rw (k.0, k.1, wide) (grind arith))
      ∙ rw (k.0, k.1)
          (elim (Bool-cases (fd % ctx.hash_size == i % ctx.hash_size)) [
            | inl s ↦ rw s (
                remove_from-finds fd event ctx (bucket_of ctx fd) i e distinct
                ∙ ap
                    (λ j.
                      if (i == fd && same_event e event) && resting fd event (bucket_of ctx fd)
                      then none
                      else find_cb i e (get_or ctx.events j []))
                    ((==_iff _ _).0 s))
            | inr s ↦ rw (s, apart ctx.hash_size fd i s) refl
          ])
