-- ===== src/GlobalTimer/Exclusion.antt =====
-- globalTimer.c: at most one process runs.
use libproc.Prelude.{
  ℕ, ◌+◌, ◌≤◌, ◌≡◌, refl, ap, ◌∙◌, Bool, true, false, not, ◌||◌, ◌==◌, ltb, leb, Option, none, some,
  List, length, get_elem?, if◌then◌else◌, if_intro, arith, ==→ne,
}
use mathlib.Core.Path.{subst}
use native.Mathlib.Decide.{ℕ_discrete}
use libproc.Timeval.{Timeval, timercmp, gt}
use libproc.Prelude.Int.{eq_ℤ}
use libproc.GlobalTimer.{
  Place, running, at_barrier, at_mutex, stealing, gone, Process, SharedState, new_state, max_procs,
  Result, moves, waits, faults, modify, change_at, advance, released, give_back, leave, entered,
  is_thief, live_count, enter_block, gvirt_block, pass_barrier, take_turn, relock,
  setup_shared_state, cleanup_shared_state, set_pause, Action, joins, blocks, goes_on, pauses,
  leaves, act, actor, by_chosen, step, Reach, here, later,
}
use libproc.GlobalTimer.Counts.{
  runs, total, runs_at, total-append, runs_at-get_elem?, total-modify_same, runs_at-modify_same,
  total-modify_stops, total-modify_le, total-one, total-two,
}

or-false : (a b : Bool) → (a || b) ≡ false → b ≡ false
or-false a b h = ground arith

-- The mutex and the processes that run.
unfoldable pub IsExclusive : SharedState → Type 0
IsExclusive s = s.evt_mutex + total s.procs ≤ 1

abbrev Keeps : Result → Type 0
Keeps (moves t) = IsExclusive t
Keeps waits = Unit
Keeps faults = Unit

abbrev advanced : Bool → SharedState → ℕ → Timeval → SharedState
advanced alone s j t =
    if alone
    then record s {
      curr_time = t;
      barrier = s.barrier + live_count s.procs;
      procs = modify s.procs j (λ p. record p { active = false });
    }
    else s

advanced_same :
    (alone : Bool) (s : SharedState) (j i : ℕ) (t : Timeval)
    → let u = advanced alone s j t in
      (u.evt_mutex ≡ s.evt_mutex)
      × (total u.procs ≡ total s.procs)
      × (runs_at u.procs i ≡ runs_at s.procs i)
advanced_same true s j i t = (
  refl,
  total-modify_same (λ p. record p { active = false }) (λ p. refl) s.procs j,
  runs_at-modify_same (λ p. record p { active = false }) (λ p. refl) s.procs j i,
)
advanced_same false s j i t = (refl, refl, refl)

give_back-IsExclusive :
    (s : SharedState) (i : ℕ) (next : Timeval)
    → runs_at s.procs i ≡ 1
    → IsExclusive s
    → IsExclusive (give_back s i next)
unfolding IsExclusive
give_back-IsExclusive s i next own ok =
    let stops = λ (p : Process).
      if_intro (λ x. runs x ≡ 0) (is_thief s p) {x = stealing next} {y = at_barrier next}
        (λ e. refl) (λ e. refl) in
    omega (arith, total-modify_stops (released s next) stops s.procs i)

entered-Keeps :
    (s : SharedState) (i : ℕ) (next : Timeval) (best : Option (ℕ × Timeval))
    → runs_at s.procs i ≡ 1
    → IsExclusive s
    → Keeps (entered s i next best)
unfolding IsExclusive
entered-Keeps s i next none own ok = tt
entered-Keeps s i next (some (j, t)) own ok =
    let (mutex, count, at_i) = advanced_same (s.time_thief == 0) s j i t in
    give_back-IsExclusive (advance s j t) i next (at_i ∙ own) (omega (arith, mutex, count))

enter_block-Keeps :
    (s : SharedState) (i : ℕ) (p : Process) (next : Timeval)
    → runs_at s.procs i ≡ 1
    → IsExclusive s
    → Keeps (enter_block s i p next)
unfolding enter_block IsExclusive
enter_block-Keeps s i p next own ok =
    let f = λ (q : Process). record q { next_time = next } in
    if_intro Keeps (not p.holds_mutex) (λ e. tt)
      (λ e.
        entered-Keeps (change_at s i f) i next _
          (runs_at-modify_same f (λ q. refl) s.procs i i ∙ own)
          (omega (arith, total-modify_same f (λ q. refl) s.procs i)))

gvirt_block-Keeps :
    (s : SharedState) (i : ℕ) (p : Process) (next : Option Timeval) (pause : Bool)
    → runs_at s.procs i ≡ 1
    → IsExclusive s
    → Keeps (gvirt_block s i p next pause)
unfolding gvirt_block
gvirt_block-Keeps s i p none pause own ok = ok
gvirt_block-Keeps s i p (some next) pause own ok =
    if_intro Keeps pause (λ e. ok)
      (λ e.
        if_intro Keeps (p.paused == 0 || p.paused == 2) (λ e'. enter_block-Keeps s i p next own ok)
          (λ e'. ok))

take_turn-Keeps :
    (s : SharedState) (i : ℕ) (p : Process) (next : Timeval)
    → IsExclusive s
    → Keeps (take_turn s i p next)
unfolding IsExclusive
take_turn-Keeps s i p next ok =
    if_intro Keeps (s.evt_mutex == 0) (λ e. tt)
      (λ free.
        if_intro Keeps (not (timercmp next p.next_time eq_ℤ)) (λ e. tt)
          (λ e.
            if_intro Keeps (timercmp next s.curr_time gt)
              (λ wait.
                let f = λ (q : Process). record q { time = s.curr_time; place = at_barrier next } in
                omega (arith, total-modify_stops f (λ q. refl) s.procs i))
              (λ due. omega (
                arith,
                total-modify_le
                    (λ q. record q {
                      time = s.curr_time;
                      active = true;
                      holds_mutex = true;
                      place = running;
                    })
                    s.procs i,
                ==→ne _ _ free,
              ))))

pass_barrier-Keeps :
    (s : SharedState) (i : ℕ) (next : Timeval) → IsExclusive s → Keeps (pass_barrier s i next)
unfolding IsExclusive
pass_barrier-Keeps s i next ok =
    let f = λ (q : Process). record q { place = at_mutex next } in
    if_intro Keeps (s.barrier == 0) (λ e. tt)
      (λ e. omega (arith, total-modify_stops f (λ q. refl) s.procs i))

relock-Keeps : (s : SharedState) (i : ℕ) → IsExclusive s → Keeps (relock s i)
unfolding IsExclusive
relock-Keeps s i ok =
    let f = λ (q : Process). record q { place = running } in
    if_intro Keeps (s.evt_mutex == 0) (λ e. tt)
      (λ free. omega (arith, total-modify_le f s.procs i, ==→ne _ _ free))

setup-Keeps :
    (s : SharedState) (pid mode : ℕ) → IsExclusive s → Keeps (setup_shared_state s pid mode)
unfolding IsExclusive
setup-Keeps s pid mode ok =
    if_intro Keeps (not s.linked || s.evt_mutex == 0) (λ e. tt)
      (λ free.
        if_intro Keeps (leb max_procs (length s.procs)) (λ e. tt)
          (λ e. omega (arith, total-append s.procs _, ==→ne _ _ (or-false (not s.linked) _ free))))

cleanup-IsExclusive :
    (s : SharedState) (i : ℕ) (p : Process)
    → runs_at s.procs i ≡ 1
    → IsExclusive s
    → IsExclusive (cleanup_shared_state s i p)
unfolding cleanup_shared_state IsExclusive
cleanup-IsExclusive s i p own ok =
    let count = total-modify_stops leave (λ q. refl) s.procs i in
    if_intro IsExclusive p.holds_mutex (λ e. omega (arith, count)) (λ e. omega (arith, count))

set_pause-IsExclusive :
    (s : SharedState) (i : ℕ) (p : Process) (mode : ℕ)
    → IsExclusive s
    → IsExclusive (set_pause s i p mode)
unfolding set_pause IsExclusive
set_pause-IsExclusive s i p mode ok =
    let count = total-modify_same (λ q. record q { paused = mode }) (λ q. refl) s.procs i in
    if_intro IsExclusive (not p.holds_mutex) (λ e. ok)
      (λ e.
        if_intro IsExclusive (mode == 2)
          (λ e'. if_intro IsExclusive (ltb 0 s.time_thief) (λ f. ok) (λ f. omega (arith, count)))
          (λ e'. omega (arith, count)))

act-Keeps :
    (s : SharedState) (a : Action) (i : ℕ) (p : Process) (place : Place)
    → runs_at s.procs i ≡ runs place
    → IsExclusive s
    → Keeps (act s a i p place)
act-Keeps s (blocks j next pause) i p running own ok = gvirt_block-Keeps s i p next pause own ok
act-Keeps s (pauses j mode) i p running own ok = set_pause-IsExclusive s i p mode ok
act-Keeps s (leaves j) i p running own ok = cleanup-IsExclusive s i p own ok
act-Keeps s (goes_on j) i p (at_barrier next) own ok = pass_barrier-Keeps s i next ok
act-Keeps s (goes_on j) i p (at_mutex next) own ok = take_turn-Keeps s i p next ok
act-Keeps s (goes_on j) i p (stealing next) own ok = relock-Keeps s i ok
act-Keeps s (goes_on j) i p running own ok = tt
act-Keeps s (goes_on j) i p gone own ok = tt
act-Keeps s (joins pid mode) i p place own ok = tt
act-Keeps s (blocks j next pause) i p (at_barrier t) own ok = tt
act-Keeps s (blocks j next pause) i p (at_mutex t) own ok = tt
act-Keeps s (blocks j next pause) i p (stealing t) own ok = tt
act-Keeps s (blocks j next pause) i p gone own ok = tt
act-Keeps s (pauses j mode) i p (at_barrier t) own ok = tt
act-Keeps s (pauses j mode) i p (at_mutex t) own ok = tt
act-Keeps s (pauses j mode) i p (stealing t) own ok = tt
act-Keeps s (pauses j mode) i p gone own ok = tt
act-Keeps s (leaves j) i p (at_barrier t) own ok = tt
act-Keeps s (leaves j) i p (at_mutex t) own ok = tt
act-Keeps s (leaves j) i p (stealing t) own ok = tt
act-Keeps s (leaves j) i p gone own ok = tt

chosen-Keeps :
    (s : SharedState) (a : Action) (chosen : Option Process)
    → get_elem? s.procs (actor a) ≡ chosen
    → IsExclusive s
    → Keeps (by_chosen s a chosen)
chosen-Keeps s a none e ok = tt
chosen-Keeps s a (some p) e ok =
    act-Keeps s a (actor a) p p.place (runs_at-get_elem? s.procs (actor a) p e) ok

step-Keeps : (s : SharedState) (a : Action) → IsExclusive s → Keeps (step s a)
unfolding step
step-Keeps s (joins pid mode) ok = setup-Keeps s pid mode ok
step-Keeps s (blocks i next pause) ok = chosen-Keeps s (blocks i next pause) _ refl ok
step-Keeps s (goes_on i) ok = chosen-Keeps s (goes_on i) _ refl ok
step-Keeps s (pauses i mode) ok = chosen-Keeps s (pauses i mode) _ refl ok
step-Keeps s (leaves i) ok = chosen-Keeps s (leaves i) _ refl ok

pub Reach-IsExclusive : {s t : SharedState} → IsExclusive s → Reach s t → IsExclusive t
Reach-IsExclusive ok here = ok
Reach-IsExclusive ok (later {t} a r e) = subst Keeps e (step-Keeps t a (Reach-IsExclusive ok r))

pub runs_at-running :
    (ps : List Process) (i : ℕ) (p : Process)
    → get_elem? ps i ≡ some p
    → p.place ≡ running
    → runs_at ps i ≡ 1
runs_at-running ps i p at_i e = runs_at-get_elem? ps i p at_i ∙ ap runs e

-- In every state that processes reach from a new shared file, in whatever order they join it,
-- block, go on, steal time and leave, two processes of the file that run are the same one, and its
-- event mutex is taken while one runs. A process that comes once the file has been removed uses
-- another file, and is not among them.
pub mutual_exclusion :
    (now : Timeval) (s : SharedState) (i j : ℕ) (p q : Process)
    → Reach (new_state now) s
    → get_elem? s.procs i ≡ some p
    → get_elem? s.procs j ≡ some q
    → p.place ≡ running
    → q.place ≡ running
    → (i ≡ j) × (s.evt_mutex ≡ 0)
unfolding IsExclusive total
mutual_exclusion now s i j p q r at_i at_j run_i run_j =
    let ok = Reach-IsExclusive {s = new_state now} (omega arith) r in
    let one = runs_at-running s.procs i p at_i run_i in
    let other = runs_at-running s.procs j q at_j run_j in
    (
      elim (ℕ_discrete i j) [
        | yes e ↦ e
        | no ne ↦ absurd (omega (arith, total-two s.procs i j ne, one, other))
      ],
      omega (arith, total-one s.procs i, one),
    )
