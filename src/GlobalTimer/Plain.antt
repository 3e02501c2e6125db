-- ===== src/GlobalTimer/Plain.antt =====
-- globalTimer.c: where no time is stolen, only the process that runs is live.
use libproc.Prelude.{
  ℕ, zero, suc, ◌+◌, ◌≤◌, ◌≡◌, refl, sym, ap, ◌∙◌, true, false, ltb, Option, none, some, List, [],
  ◌∷◌, ◌++◌, get_elem?, arith,
}
use mathlib.Core.Path.{subst}
use libproc.Timeval.{Timeval}
use libproc.GlobalTimer.{
  Place, running, at_barrier, at_mutex, stealing, gone, Process, live, smallest_of, modify,
}
use libproc.GlobalTimer.Counts.{runs, total}

-- A process that runs is active and has the mutex; no other one is active, and none steals time.
abbrev pub PlainAt : Place → Process → Type 0
PlainAt running p = (p.active ≡ true) × (p.holds_mutex ≡ true) × (ltb 0 p.pid ≡ true)
PlainAt (at_barrier t) p = (p.active ≡ false) × (ltb 0 p.pid ≡ true)
PlainAt (at_mutex t) p = (p.active ≡ false) × (ltb 0 p.pid ≡ true)
PlainAt (stealing t) p = ⊥
PlainAt gone p = p.active ≡ false

unfoldable pub AllPlain : List Process → Type 0
AllPlain [] = Unit
AllPlain (p ∷ ps) = PlainAt p.place p × AllPlain ps

unwrapped : {p q : Process} → some p ≡ some q → p ≡ q
unwrapped h = ground arith

pub AllPlain-get_elem? :
    (ps : List Process) (i : ℕ) (p : Process)
    → AllPlain ps
    → get_elem? ps i ≡ some p
    → PlainAt p.place p
unfolding AllPlain
AllPlain-get_elem? [] i p h e = cc
AllPlain-get_elem? (q ∷ ps) zero p h e = subst (λ x. PlainAt x.place x) (unwrapped e) h.0
AllPlain-get_elem? (q ∷ ps) (suc i) p h e = AllPlain-get_elem? ps i p h.1 e

pub AllPlain-modify :
    (ps : List Process) (i : ℕ) (p : Process) (f : Process → Process)
    → AllPlain ps
    → get_elem? ps i ≡ some p
    → PlainAt (f p).place (f p)
    → AllPlain (modify ps i f)
unfolding AllPlain modify
AllPlain-modify [] i p f h e k = tt
AllPlain-modify (q ∷ ps) zero p f h e k =
    (subst (λ x. PlainAt (f x).place (f x)) (sym (unwrapped e)) k, h.1)
AllPlain-modify (q ∷ ps) (suc i) p f h e k = (h.0, AllPlain-modify ps i p f h.1 e k)

pub AllPlain-append :
    (ps : List Process) (p : Process) → AllPlain ps → PlainAt p.place p → AllPlain (ps ++ p ∷ [])
unfolding AllPlain
AllPlain-append [] p h k = (k, tt)
AllPlain-append (q ∷ ps) p h k = (h.0, AllPlain-append ps p h.1 k)

pub modify-modify :
    (ps : List Process) (i : ℕ) (f g : Process → Process)
    → modify (modify ps i f) i g ≡ modify ps i (λ p. g (f p))
unfolding modify
modify-modify [] i f g = refl
modify-modify (p ∷ ps) zero f g = refl
modify-modify (p ∷ ps) (suc i) f g = ap (λ l. p ∷ l) (modify-modify ps i f g)

dead : (p : Process) → p.active ≡ false → live p ≡ false
dead p h = ground arith

dead_at : (place : Place) (p : Process) → PlainAt place p → runs place ≡ 0 → live p ≡ false
dead_at running p h none_runs = absurd (omega (arith, none_runs))
dead_at (at_barrier t) p h none_runs = dead p h.0
dead_at (at_mutex t) p h none_runs = dead p h.0
dead_at (stealing t) p h none_runs = absurd h
dead_at gone p h none_runs = dead p h

smallest_of-idle :
    (ps : List Process) (k : ℕ) (best : Option (ℕ × Timeval))
    → AllPlain ps
    → total ps ≡ 0
    → smallest_of ps k best ≡ best
unfolding AllPlain total smallest_of
smallest_of-idle [] k best h idle = refl
smallest_of-idle (p ∷ ps) k best h idle =
    rw (dead_at p.place p h.0 (omega (arith, idle)))
      (smallest_of-idle ps (suc k) best h.1 (omega (arith, idle)))

-- The next time is written before the smallest one is looked for.
abbrev pub until : Timeval → Process → Process
until next p = record p { next_time = next }

runs-total :
    (ps : List Process) (i : ℕ) (p : Process) → get_elem? ps i ≡ some p → runs p.place ≤ total ps
unfolding total
runs-total [] i p h = cc
runs-total (q ∷ ps) zero p h = omega (arith, ap (λ x. runs x.place) (unwrapped h))
runs-total (q ∷ ps) (suc i) p h = omega (arith, runs-total ps i p h)

pub smallest_of-own :
    (ps : List Process) (k i : ℕ) (p : Process) (next : Timeval)
    → AllPlain ps
    → total ps ≤ 1
    → get_elem? ps i ≡ some p
    → runs p.place ≡ 1
    → live p ≡ true
    → smallest_of (modify ps i (until next)) k none ≡ some (k + i, next)
unfolding AllPlain total smallest_of modify
smallest_of-own [] k i p next h one e run alive = cc
smallest_of-own (q ∷ ps) k zero p next h one e run alive =
    let first : live q ≡ true = ap live (unwrapped e) ∙ alive in
    let own : runs q.place ≡ 1 = ap (λ x. runs x.place) (unwrapped e) ∙ run in
    rw (first, smallest_of)
      (smallest_of-idle ps (suc k) (some (k, next)) h.1 (omega (arith, one, own))
        ∙ ap (λ n. some (n, next)) (omega arith))
smallest_of-own (q ∷ ps) k (suc i) p next h one e run alive =
    rw (dead_at q.place q h.0 (omega (arith, one, run, runs-total ps i p e)), smallest_of)
      (smallest_of-own ps (suc k) i p next h.1 (omega (arith, one)) e run alive
        ∙ ap (λ n. some (n, next)) (omega arith))
