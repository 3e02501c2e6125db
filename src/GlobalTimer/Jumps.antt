-- ===== src/GlobalTimer/Jumps.antt =====
-- globalTimer.c: where no time is stolen, only the process that runs is live.
use libproc.Prelude.{
  ℕ, ◌+◌, ◌≤◌, ◌≡◌, refl, sym, ap, ◌∙◌, Bool, true, false, not, ◌&&◌, ◌||◌, ◌==◌, ltb, leb, Option,
  none, some, List, length, get_elem?, if◌then◌else◌, if_intro, arith,
}
use mathlib.Core.Path.{subst}
use libproc.Prelude.Int.{eq_ℤ}
use libproc.Timeval.{Timeval, timercmp, gt}
use libproc.GlobalTimer.{
  Place, running, at_barrier, at_mutex, stealing, gone, Process, SharedState, new_state, max_procs,
  Result, moves, waits, faults, live, smallest_of, modify, change_at, advance, give_back, leave,
  entered, enter_block, gvirt_block, cleanup_shared_state, set_pause, Action, joins, blocks,
  goes_on, pauses, leaves, act, actor, by_chosen, step, Reach, here, later,
}
use libproc.GlobalTimer.Counts.{runs, total}
use libproc.GlobalTimer.Exclusion.{IsExclusive, Reach-IsExclusive}
use libproc.GlobalTimer.Plain.{
  PlainAt, AllPlain, AllPlain-get_elem?, AllPlain-modify, AllPlain-append, modify-modify,
  smallest_of-own, until,
}

-- No process has stolen time, and every process is plain.
IsPlain : SharedState → Type 0
IsPlain s = (s.time_thief ≡ 0) × AllPlain s.procs

abbrev Keeps : Result → Type 0
Keeps (moves t) = IsPlain t
Keeps waits = Unit
Keeps faults = Unit

-- What the process is once it has blocked.
abbrev blocked : Timeval → Process → Process
blocked next p = record p {
  next_time = next;
  active = false;
  thief = false;
  holds_mutex = false;
  place = at_barrier next;
}

module _ (l : Bool) (m b i : ℕ) (c next : Timeval) (ps : List Process) (p : Process)
    (plain : AllPlain ps) (one : m + total ps ≤ 1) (at_i : get_elem? ps i ≡ some p)
    (run : p.place ≡ running) where
  abbrev plain_state : SharedState
  plain_state = record {
    evt_mutex = m;
    barrier = b;
    curr_time = c;
    time_thief = 0;
    procs = ps;
    linked = l;
  }

  facts : (p.active ≡ true) × (p.holds_mutex ≡ true) × (ltb 0 p.pid ≡ true)
  facts = subst (λ x. PlainAt x p) run (AllPlain-get_elem? ps i p plain at_i)

  alive : live p ≡ true
  alive = ap (λ x. x && p.active) (facts.2) ∙ facts.0

  smallest_lem : smallest_of (modify ps i (until next)) 0 none ≡ some (i, next)
  smallest_lem =
      smallest_of-own ps 0 i p next plain (omega arith) at_i (ap runs run) alive
      ∙ ap (λ n. some (n, next)) (omega arith)

  abbrev blocked_state : SharedState
  blocked_state =
      let s₁ = change_at plain_state i (until next) in give_back (advance s₁ i next) i next

  enter_block-plain : enter_block plain_state i p next ≡ moves blocked_state
  unfolding enter_block
  enter_block-plain =
      rw (facts.1) (ap (entered (change_at plain_state i (until next)) i next) smallest_lem)

  blocked_state-procs : blocked_state.procs ≡ modify ps i (blocked next)
  blocked_state-procs =
      ap
        (λ l.
          modify l i
            (λ q. record q { thief = false; holds_mutex = false; place = at_barrier next }))
        (modify-modify ps i (until next) (λ q. record q { active = false }))
      ∙ modify-modify ps i (λ q. record q { next_time = next; active = false })
          (λ q. record q { thief = false; holds_mutex = false; place = at_barrier next })

  blocked_state-IsPlain : IsPlain blocked_state
  unfolding IsPlain
  blocked_state-IsPlain = (
    refl,
    subst AllPlain (sym blocked_state-procs)
        (AllPlain-modify ps i p (blocked next) plain at_i (refl, facts.2)),
  )

  gvirt_block-Keeps : (pause : Bool) → Keeps (gvirt_block plain_state i p (some next) pause)
  unfolding gvirt_block IsPlain
  gvirt_block-Keeps pause =
      if_intro Keeps pause (λ e. (refl, plain))
        (λ e.
          if_intro Keeps (p.paused == 0 || p.paused == 2)
            (λ e'. subst Keeps (sym enter_block-plain) blocked_state-IsPlain) (λ e'. (refl, plain)))

-- A process has a number above 0, and none asks for the stolen state.
abbrev pub IsOrdinary : Action → Type 0
IsOrdinary (joins pid mode) = ltb 0 pid ≡ true
IsOrdinary (pauses i mode) = (mode == 2) ≡ false
IsOrdinary a = Unit

thief_stays : (b : Bool) (n : ℕ) → n ≡ 0 → (if b then 0 else n) ≡ 0
thief_stays true n h = refl
thief_stays false n h = h

module _ (s : SharedState) (i : ℕ) (p : Process) (ok : IsPlain s) (one : IsExclusive s)
    (at_i : get_elem? s.procs i ≡ some p) where
  own_facts : PlainAt p.place p
  unfolding IsPlain
  own_facts = AllPlain-get_elem? s.procs i p (ok.1) at_i

  changed : (f : Process → Process) → PlainAt (f p).place (f p) → AllPlain (modify s.procs i f)
  unfolding IsPlain
  changed f h = AllPlain-modify s.procs i p f (ok.1) at_i h

  act-IsPlain :
      (a : Action) (place : Place)
      → p.place ≡ place
      → PlainAt place p
      → IsOrdinary a
      → Keeps (act s a i p place)
  unfolding IsPlain IsExclusive set_pause cleanup_shared_state gvirt_block
  act-IsPlain (blocks j none pause) running e h k = ok
  act-IsPlain (blocks j (some next) pause) running e h k =
      subst (λ n. Keeps (gvirt_block (record s { time_thief = n }) i p (some next) pause))
        (sym (ok.0))
        (gvirt_block-Keeps s.linked s.evt_mutex s.barrier i s.curr_time next s.procs p (ok.1) one
          at_i e pause)
  act-IsPlain (pauses j mode) running e h k =
      let kept : AllPlain (modify s.procs i (λ q. record q { paused = mode })) =
        changed (λ q. record q { paused = mode })
          (subst (λ x. PlainAt x (record p { paused = mode })) (sym e) h) in
      if_intro IsPlain (not p.holds_mutex) (λ e'. ok) (λ e'. rw k (thief_stays _ _ (ok.0), kept))
  act-IsPlain (leaves j) running e h k =
      if_intro IsPlain p.holds_mutex (λ e'. (thief_stays _ _ (ok.0), changed leave refl))
        (λ e'. (ok.0, changed leave refl))
  act-IsPlain (goes_on j) (at_barrier next) e h k =
      if_intro Keeps (s.barrier == 0) (λ e'. tt)
        (λ e'. (ok.0, changed (λ q. record q { place = at_mutex next }) h))
  act-IsPlain (goes_on j) (at_mutex next) e h k =
      if_intro Keeps (s.evt_mutex == 0) (λ e'. tt)
        (λ f.
          if_intro Keeps (not (timercmp next p.next_time eq_ℤ)) (λ e'. tt)
            (λ g.
              if_intro Keeps (timercmp next s.curr_time gt)
                (λ wait.
                  (ok.0, changed (λ q. record q { time = s.curr_time; place = at_barrier next }) h))
                (λ due. (
                  ok.0,
                  changed
                      (λ q. record q {
                        time = s.curr_time;
                        active = true;
                        holds_mutex = true;
                        place = running;
                      })
                      (refl, refl, h.1),
                ))))
  act-IsPlain (goes_on j) (stealing next) e h k = absurd h
  act-IsPlain (goes_on j) running e h k = tt
  act-IsPlain (goes_on j) gone e h k = tt
  act-IsPlain (joins pid mode) place e h k = tt
  act-IsPlain (blocks j next pause) (at_barrier t) e h k = tt
  act-IsPlain (blocks j next pause) (at_mutex t) e h k = tt
  act-IsPlain (blocks j next pause) (stealing t) e h k = tt
  act-IsPlain (blocks j next pause) gone e h k = tt
  act-IsPlain (pauses j mode) (at_barrier t) e h k = tt
  act-IsPlain (pauses j mode) (at_mutex t) e h k = tt
  act-IsPlain (pauses j mode) (stealing t) e h k = tt
  act-IsPlain (pauses j mode) gone e h k = tt
  act-IsPlain (leaves j) (at_barrier t) e h k = tt
  act-IsPlain (leaves j) (at_mutex t) e h k = tt
  act-IsPlain (leaves j) (stealing t) e h k = tt
  act-IsPlain (leaves j) gone e h k = tt

chosen-IsPlain :
    (s : SharedState) (a : Action) (chosen : Option Process)
    → get_elem? s.procs (actor a) ≡ chosen
    → IsExclusive s
    → IsPlain s
    → IsOrdinary a
    → Keeps (by_chosen s a chosen)
chosen-IsPlain s a none e one ok k = tt
chosen-IsPlain s a (some p) e one ok k =
    act-IsPlain s (actor a) p ok one e a p.place refl (own_facts s (actor a) p ok one e) k

step-IsPlain :
    (s : SharedState) (a : Action) → IsExclusive s → IsPlain s → IsOrdinary a → Keeps (step s a)
unfolding step IsPlain
step-IsPlain s (joins pid mode) one ok k =
    if_intro Keeps (not s.linked || s.evt_mutex == 0) (λ e. tt)
      (λ e.
        if_intro Keeps (leb max_procs (length s.procs)) (λ f. tt)
          (λ f. (ok.0, AllPlain-append s.procs _ (ok.1) (refl, refl, k))))
step-IsPlain s (blocks i next pause) one ok k =
    chosen-IsPlain s (blocks i next pause) _ refl one ok k
step-IsPlain s (goes_on i) one ok k = chosen-IsPlain s (goes_on i) _ refl one ok k
step-IsPlain s (pauses i mode) one ok k = chosen-IsPlain s (pauses i mode) _ refl one ok k
step-IsPlain s (leaves i) one ok k = chosen-IsPlain s (leaves i) _ refl one ok k

-- All the actions are ordinary.
unfoldable pub AllOrdinary : {s t : SharedState} → Reach s t → Type 0
AllOrdinary here = Unit
AllOrdinary (later a r e) = AllOrdinary r × IsOrdinary a

new_state-IsExclusive : (now : Timeval) → IsExclusive (new_state now)
unfolding IsExclusive total
new_state-IsExclusive now = omega arith

Reach-IsPlain :
    (now : Timeval) {s : SharedState} (r : Reach (new_state now) s) → AllOrdinary r → IsPlain s
unfolding AllOrdinary IsPlain AllPlain
Reach-IsPlain now here h = (refl, tt)
Reach-IsPlain now (later {t} a r e) h = subst Keeps e (
    step-IsPlain t a (Reach-IsExclusive (new_state-IsExclusive now) r) (Reach-IsPlain now r h.0)
      h.1)

chosen_eq :
    (s : SharedState) (i : ℕ) (p : Process) (next : Timeval)
    → get_elem? s.procs i ≡ some p
    → p.place ≡ running
    → (p.paused == 0) ≡ true
    → step s (blocks i (some next) false) ≡ enter_block s i p next
unfolding step gvirt_block
chosen_eq s i p next at_i run mode =
    ap (by_chosen s (blocks i (some next) false)) at_i
    ∙ ap (act s (blocks i (some next) false) i p) run
    ∙ rw mode refl

-- Where processes with numbers above 0 have reached a state from a new shared file and none has
-- asked for the stolen state: when the process that runs blocks with an active clock until some
-- time, the call reaches its wait with the mutex given back, and the global time becomes that
-- time, whatever earlier times the other processes wait for.
pub blocks_to_own_time :
    (now next : Timeval) (s : SharedState) (i : ℕ) (p : Process) (r : Reach (new_state now) s)
    → AllOrdinary r
    → get_elem? s.procs i ≡ some p
    → p.place ≡ running
    → (p.paused == 0) ≡ true
    → (t : SharedState) × (step s (blocks i (some next) false) ≡ moves t)
      × (t.curr_time ≡ next)
      × (t.evt_mutex ≡ s.evt_mutex + 1)
unfolding IsPlain IsExclusive
blocks_to_own_time now next s i p r ordinary at_i run mode =
    let ok = Reach-IsPlain now r ordinary in
    let one = Reach-IsExclusive (new_state-IsExclusive now) r in
    let t =
      blocked_state s.linked s.evt_mutex s.barrier i s.curr_time next s.procs p (ok.1) one at_i
        run in
    (
      t,
      chosen_eq s i p next at_i run mode
          ∙ subst (λ n. enter_block (record s { time_thief = n }) i p next ≡ moves t) (sym (ok.0))
              (enter_block-plain s.linked s.evt_mutex s.barrier i s.curr_time next s.procs p (ok.1)
                one at_i run),
      refl,
      refl,
    )
