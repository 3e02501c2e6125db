-- ===== src/Sched/Memory.antt =====
-- The ScheduleCB structures that malloc has given out and free has not taken back, newest first. A
-- pointer is a number; it is never given out twice.
use libproc.Prelude.{
  ℕ, ◌+◌, ◌<◌, ◌≤◌, ◌≡◌, ◌==◌, refl, Bool, true, false, Option, none, some, List, [], ◌∷◌, arith,
  if◌then◌else◌,
}
use libproc.Timeval.{Timeval}

-- `evt->queue`: handler->queue or handler->dbg_queue.
pub data QueueName : Type 0 where
  main_queue dbg_queue : QueueName

-- `inCallback`: 0, 1 while its callback runs, 2 once the callback has given it a new time.
pub data InCallback : Type 0 where
  idle running updated : InCallback

-- ScheduleCB, without its name. `pos_max` is `pos == SIZE_MAX`; the queue sets `pos` otherwise.
pub record ScheduleCb : Type 0 where
  pub schedule_time : Timeval
  pub next_awake : Timeval
  pub callback : ℕ
  pub arg : ℕ
  pub pos_max : Bool
  pub time_step : Timeval
  pub queue : QueueName
  pub count : ℕ
  pub breakpoint : Bool
  pub critical : Bool
  pub in_callback : InCallback

abbrev pub Heap : Type 0
Heap = List (ℕ × ScheduleCb)

unfoldable pub load : ℕ → Heap → Option ScheduleCb
load p [] = none
load p ((q, e) ∷ h) = if q == p then some e else load p h

unfoldable pub store : ℕ → ScheduleCb → Heap → Heap
store p e [] = []
store p e ((q, f) ∷ h) = if q == p then (q, e) ∷ h else (q, f) ∷ store p e h

unfoldable pub free : ℕ → Heap → Heap
free p [] = []
free p ((q, f) ∷ h) = if q == p then h else (q, f) ∷ free p h

abbrev pub to_ℕ : Bool → ℕ
to_ℕ true = 1
to_ℕ false = 0

-- How many events are critical.
unfoldable pub criticals : Heap → ℕ
criticals [] = 0
criticals ((q, e) ∷ h) = to_ℕ e.critical + criticals h

-- Pointers fall along the list, and stay under the bound.
abbrev pub Below : ℕ → Heap → Type 0
Below n [] = Unit {0}
Below n ((q, e) ∷ h) = (q < n) × Below q h

pub Below-mono : (m n : ℕ) (h : Heap) → m ≤ n → Below m h → Below n h
Below-mono m n [] le b = tt
Below-mono m n ((q, e) ∷ h) le b = (omega arith, b.1)

pub load_above : (p n : ℕ) (h : Heap) → Below n h → n ≤ p → load p h ≡ none
unfolding load
load_above p n [] b le = refl
load_above p n ((q, e) ∷ h) b le = ground (arith, load_above p q h b.1)

pub load-store :
    (p q : ℕ) (e f : ScheduleCb) (h : Heap)
    → load p h ≡ some f
    → load q (store p e h) ≡ (if p == q then some e else load q h)
unfolding load store
load-store p q e f [] l = cc
load-store p q e f ((r, g) ∷ h) l = ground (arith, load-store p q e f h)

pub load-free :
    (p q n : ℕ) (h : Heap) → Below n h → load q (free p h) ≡ (if p == q then none else load q h)
unfolding load free
load-free p q n [] b = ground arith
load-free p q n ((r, g) ∷ h) b = ground (arith, load-free p q r h b.1, load_above q r h b.1)

pub store-Below : (p n : ℕ) (e : ScheduleCb) (h : Heap) → Below n h → Below n (store p e h)
unfolding store
store-Below p n e [] b = tt
store-Below p n e ((q, f) ∷ h) b = ground (arith, store-Below p q e h b.1)

pub free-Below : (p n : ℕ) (h : Heap) → Below n h → Below n (free p h)
unfolding free
free-Below p n [] b = tt
free-Below p n ((q, f) ∷ h) b = ground (arith, free-Below p q h b.1, Below-mono q n h)

pub criticals-store :
    (p : ℕ) (e f : ScheduleCb) (h : Heap)
    → load p h ≡ some f
    → criticals (store p e h) + to_ℕ f.critical ≡ criticals h + to_ℕ e.critical
unfolding load store criticals
criticals-store p e f [] l = cc
criticals-store p e f ((q, g) ∷ h) l = ground (arith, criticals-store p e f h)

pub criticals-free :
    (p : ℕ) (f : ScheduleCb) (h : Heap)
    → load p h ≡ some f
    → criticals (free p h) + to_ℕ f.critical ≡ criticals h
unfolding load free criticals
criticals-free p f [] l = cc
criticals-free p f ((q, g) ∷ h) l = ground (arith, criticals-free p f h)
