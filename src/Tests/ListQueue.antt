-- ===== src/Tests/ListQueue.antt =====
-- A priority queue on a list, for the runs: an event with the earliest time in front, the others in
-- any order.
use libproc.Prelude.{
  ℕ, ◌+◌, ◌<◌, ◌≡◌, ◌==◌, refl, true, ◌&&◌, Option, none, some, List, [], ◌∷◌, arith, if◌then◌else◌,
  inl, inr, Bool-cases,
}
use mathlib.Core.Path.{subst}
use libproc.Timeval.{Timeval, timercmp, le, ge}
use libproc.Sched.QueueApi.{Priorities, PQueue, IsPQueue, IsOrdering, update_pri}

unfoldable pub count : ℕ → List ℕ → ℕ
count y [] = 0
count y (x ∷ q) = (if x == y then 1 else 0) + count y q

unfoldable pub peek : List ℕ → Option ℕ
peek [] = none
peek (x ∷ q) = some x

-- The new entry goes in front, or just behind the front.
unfoldable pub promote : Priorities → ℕ → List ℕ → List ℕ
promote pri x [] = x ∷ []
promote pri x (y ∷ q) = if timercmp (pri x) (pri y) le then x ∷ y ∷ q else y ∷ x ∷ q

unfoldable pub select : Priorities → List ℕ → List ℕ
unfolding promote
select pri [] = []
select pri (x ∷ q) = promote pri x (select pri q)

unfoldable pub erase : ℕ → List ℕ → List ℕ
erase x [] = []
erase x (y ∷ q) = if y == x then q else y ∷ erase x q

unfoldable pub pop : Priorities → List ℕ → List ℕ
unfolding select
pop pri [] = []
pop pri (x ∷ q) = select pri q

unfoldable pub change : Priorities → List ℕ → Timeval → ℕ → List ℕ
unfolding select
change pri [] t x = []
change pri (y ∷ q) t x =
    if y == x && timercmp (pri x) t ge then y ∷ q else select (update_pri pri x t) (y ∷ q)

Least : Priorities → ℕ → List ℕ → Type 0
unfolding count
Least pri x q = (y : ℕ) → 0 < count y q → timercmp (pri x) (pri y) le ≡ true

unfoldable pub Ordered : Priorities → List ℕ → Type 0
unfolding Least
Ordered pri [] = Unit {0}
Ordered pri (x ∷ q) = Least pri x q

abbrev pub list_queue : PQueue
list_queue = record {
  Queue = List ℕ;
  init = [];
  insert = λ pri q x. some (promote pri x q);
  pop = pop;
  peek = peek;
  remove = λ pri q x. select pri (erase x q);
  change_priority = change;
  count = count;
  IsOrdered = Ordered;
}

count-promote :
    (pri : Priorities) (x : ℕ) (q : List ℕ) (y : ℕ)
    → count y (promote pri x q) ≡ (if x == y then 1 else 0) + count y q
unfolding count promote
count-promote pri x [] y = ground arith
count-promote pri x (z ∷ q) y = ground arith

count-select : (pri : Priorities) (q : List ℕ) (y : ℕ) → count y (select pri q) ≡ count y q
unfolding count select
count-select pri [] y = refl
count-select pri (x ∷ q) y =
    ground (arith, count-promote pri x (select pri q) y, count-select pri q y)

count-erase :
    (x : ℕ) (q : List ℕ) (y : ℕ)
    → 0 < count x q
    → (if x == y then 1 else 0) + count y (erase x q) ≡ count y q
unfolding count erase
count-erase x [] y h = absurd (omega arith)
count-erase x (z ∷ q) y h = ground (arith, count-erase x q y)

promote-Ordered :
    (pri : Priorities) (x : ℕ) (q : List ℕ) → Ordered pri q → Ordered pri (promote pri x q)
unfolding Ordered Least promote count
promote-Ordered pri x [] o = λ y c. absurd (omega arith)
promote-Ordered pri x (y ∷ q) o = elim (Bool-cases (timercmp (pri x) (pri y) le)) [
  | inl e ↦ rw e (λ z c. ground (arith, o z))
  | inr e ↦ rw e (λ z c. ground (arith, o z))
]

select-Ordered : (pri : Priorities) (q : List ℕ) → Ordered pri (select pri q)
unfolding Ordered select
select-Ordered pri [] = tt
select-Ordered pri (x ∷ q) = promote-Ordered pri x (select pri q) (select-Ordered pri q)

peek-none : (q : List ℕ) (y : ℕ) → peek q ≡ none → count y q ≡ 0
unfolding peek count
peek-none [] y e = refl
peek-none (x ∷ q) y e = cc

peek-some : (q : List ℕ) (x : ℕ) → peek q ≡ some x → 0 < count x q
unfolding peek count
peek-some [] x e = cc
peek-some (z ∷ q) x e = ground arith

count-pop :
    (pri : Priorities) (q : List ℕ) (x y : ℕ)
    → peek q ≡ some x
    → (if x == y then 1 else 0) + count y (pop pri q) ≡ count y q
unfolding peek pop count
count-pop pri [] x y e = cc
count-pop pri (z ∷ q) x y e = ground (arith, count-select pri q y)

count-change :
    (pri : Priorities) (q : List ℕ) (t : Timeval) (x y : ℕ) → count y (change pri q t x) ≡ count y q
unfolding change
count-change pri [] t x y = refl
count-change pri (z ∷ q) t x y = elim (Bool-cases (z == x && timercmp (pri x) t ge)) [
  | inl e ↦ rw e refl
  | inr e ↦ rw e (count-select (update_pri pri x t) (z ∷ q) y)
]

pub list_queue-IsPQueue : IsPQueue list_queue
unfolding count
list_queue-IsPQueue = record {
  count-init = λ y. refl;
  count-insert = λ pri q x y e. ground (arith, count-promote pri x q y);
  peek-none = peek-none;
  peek-some = peek-some;
  count-pop = count-pop;
  count-remove =
      λ pri q x y o a h. ground (arith, count-select pri (erase x q) y, count-erase x q y h);
  count-change_priority = λ pri q t x y h. count-change pri q t x y;
}

peek-le :
    (pri : Priorities) (q : List ℕ) (x y : ℕ)
    → Ordered pri q
    → peek q ≡ some x
    → 0 < count y q
    → timercmp (pri x) (pri y) le ≡ true
unfolding peek count Ordered Least
peek-le pri [] x y o e c = cc
peek-le pri (z ∷ q) x y o e c = ground (arith, o y)

Ordered-congr :
    (pri pri' : Priorities) (q : List ℕ)
    → ((y : ℕ) → 0 < count y q → pri y ≡ pri' y)
    → Ordered pri q
    → Ordered pri' q
unfolding count Ordered Least
Ordered-congr pri pri' [] h o = tt
Ordered-congr pri pri' (z ∷ q) h o = λ y c. ground (arith, h y, h z, o y)

Ordered-change :
    (pri : Priorities) (q : List ℕ) (t : Timeval) (x : ℕ)
    → Ordered pri q
    → Ordered (update_pri pri x t) (change pri q t x)
unfolding change Ordered Least count
Ordered-change pri [] t x o = tt
Ordered-change pri (z ∷ q) t x o = elim (Bool-cases (z == x && timercmp (pri x) t ge)) [
  | inl e ↦ rw e (λ y c. ground (arith, o y))
  | inr e ↦ rw e (select-Ordered (update_pri pri x t) (z ∷ q))
]

Ordered-insert :
    (pri : Priorities) (q : List ℕ) (x : ℕ) {q' : List ℕ}
    → Ordered pri q
    → some (promote pri x q) ≡ some q'
    → Ordered pri q'
Ordered-insert pri q x o e = subst (Ordered pri) (cc e) (promote-Ordered pri x q o)

Ordered-pop : (pri : Priorities) (q : List ℕ) → Ordered pri (pop pri q)
unfolding pop Ordered
Ordered-pop pri [] = tt
Ordered-pop pri (x ∷ q) = select-Ordered pri q

pub list_queue-IsOrdering : IsOrdering list_queue
unfolding Ordered
list_queue-IsOrdering = record {
  peek-le = peek-le;
  ordered-congr = Ordered-congr;
  ordered-init = λ pri. tt;
  ordered-insert = λ pri q x o e. Ordered-insert pri q x o e;
  ordered-pop = λ pri q o. Ordered-pop pri q;
  ordered-remove = λ pri q x h o. select-Ordered pri (erase x q);
  ordered-change_priority = λ pri q t x h o. Ordered-change pri q t x o;
}
