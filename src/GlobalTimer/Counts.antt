-- ===== src/GlobalTimer/Counts.antt =====
-- globalTimer.c: how many processes run.
use libproc.Prelude.{
  ℕ, zero, suc, ◌+◌, ◌≤◌, ◌≡◌, ◌≢◌, refl, ap, some, List, [], ◌∷◌, ◌++◌, get_elem?, arith,
}
use libproc.GlobalTimer.{Place, running, at_barrier, at_mutex, stealing, gone, Process, modify}

abbrev pub runs : Place → ℕ
runs running = 1
runs (at_barrier t) = 0
runs (at_mutex t) = 0
runs (stealing t) = 0
runs gone = 0

pub runs-le : (p : Place) → runs p ≤ 1
runs-le running = omega arith
runs-le (at_barrier t) = omega arith
runs-le (at_mutex t) = omega arith
runs-le (stealing t) = omega arith
runs-le gone = omega arith

-- How many processes run, and whether the one at an index does.
unfoldable pub total : List Process → ℕ
total [] = 0
total (p ∷ ps) = runs p.place + total ps

unfoldable pub runs_at : List Process → ℕ → ℕ
runs_at [] i = 0
runs_at (p ∷ ps) zero = runs p.place
runs_at (p ∷ ps) (suc i) = runs_at ps i

pub total-append :
    (ps : List Process) (p : Process) → total (ps ++ p ∷ []) ≡ total ps + runs p.place
unfolding total
total-append [] p = omega arith
total-append (q ∷ ps) p = omega (arith, total-append ps p)

pub runs_at-get_elem? :
    (ps : List Process) (i : ℕ) (p : Process)
    → get_elem? ps i ≡ some p
    → runs_at ps i ≡ runs p.place
unfolding runs_at
runs_at-get_elem? [] i p h = cc
runs_at-get_elem? (q ∷ ps) zero p h = ground arith
runs_at-get_elem? (q ∷ ps) (suc i) p h = runs_at-get_elem? ps i p h

module _ (f : Process → Process) where
  pub total-modify_same :
      ((p : Process) → (f p).place ≡ p.place)
      → (ps : List Process) (i : ℕ) → total (modify ps i f) ≡ total ps
  unfolding total modify
  total-modify_same same [] i = refl
  total-modify_same same (p ∷ ps) zero = ap (λ x. runs x + total ps) (same p)
  total-modify_same same (p ∷ ps) (suc i) = omega (arith, total-modify_same same ps i)

  pub runs_at-modify_same :
      ((p : Process) → (f p).place ≡ p.place)
      → (ps : List Process) (j i : ℕ) → runs_at (modify ps j f) i ≡ runs_at ps i
  unfolding runs_at modify
  runs_at-modify_same same [] j i = refl
  runs_at-modify_same same (p ∷ ps) zero zero = ap runs (same p)
  runs_at-modify_same same (p ∷ ps) zero (suc i) = refl
  runs_at-modify_same same (p ∷ ps) (suc j) zero = refl
  runs_at-modify_same same (p ∷ ps) (suc j) (suc i) = runs_at-modify_same same ps j i

  pub total-modify_stops :
      ((p : Process) → runs (f p).place ≡ 0)
      → (ps : List Process) (i : ℕ) → total (modify ps i f) + runs_at ps i ≡ total ps
  unfolding total runs_at modify
  total-modify_stops stops [] i = refl
  total-modify_stops stops (p ∷ ps) zero = omega (arith, stops p)
  total-modify_stops stops (p ∷ ps) (suc i) = omega (arith, total-modify_stops stops ps i)

  pub total-modify_le : (ps : List Process) (i : ℕ) → total (modify ps i f) ≤ total ps + 1
  unfolding total modify
  total-modify_le [] i = omega arith
  total-modify_le (p ∷ ps) zero = omega (arith, runs-le (f p).place)
  total-modify_le (p ∷ ps) (suc i) = omega (arith, total-modify_le ps i)

pub total-one : (ps : List Process) (i : ℕ) → runs_at ps i ≤ total ps
unfolding total runs_at
total-one [] i = omega arith
total-one (p ∷ ps) zero = omega arith
total-one (p ∷ ps) (suc i) = omega (arith, total-one ps i)

pub total-two : (ps : List Process) (i j : ℕ) → i ≢ j → runs_at ps i + runs_at ps j ≤ total ps
unfolding total runs_at
total-two [] i j ne = omega arith
total-two (p ∷ ps) zero zero ne = absurd (ne refl)
total-two (p ∷ ps) zero (suc j) ne = omega (arith, total-one ps j)
total-two (p ∷ ps) (suc i) zero ne = omega (arith, total-one ps i)
total-two (p ∷ ps) (suc i) (suc j) ne = omega (arith, total-two ps i j (λ e. ne (ap suc e)))
