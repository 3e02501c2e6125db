-- ===== src/GlobalTimer.antt =====
-- globalTimer.c: processes that share a virtual clock by a mutex and a barrier in shared memory.
pub mod Counts
pub mod Deadlock
pub mod Exclusion
pub mod Jumps
pub mod Plain
pub mod Theft
pub mod Unlinked
use libproc.Prelude.{
  ℕ, zero, suc, ◌+◌, ◌-◌, Bool, true, false, not, ◌&&◌, ◌||◌, ◌==◌, ltb, leb, Option, none, some,
  List, [], ◌∷◌, ◌++◌, ◌≡◌, length, get_elem?, if◌then◌else◌,
}
use libproc.Prelude.Int.{ℤ, eq_ℤ}
use libproc.Timeval.{Timeval, zero_time, timercmp, lt, gt}

-- Where a process is: in its event loop with the event mutex, or where it waits.
pub data Place : Type 0 where
  running : Place
  at_barrier : Timeval → Place
  at_mutex : Timeval → Place
  stealing : Timeval → Place
  gone : Place

-- struct SharedProcessState, and the clock and the pause state of the process's own timer.
pub record Process : Type 0 where
  pub next_time : Timeval
  pub active : Bool
  pub holds_mutex : Bool
  pub thief : Bool
  pub pid : ℕ
  pub place : Place
  pub paused : ℕ
  pub time : Timeval

-- struct SharedState, with the counts of its semaphores; `num_procs` is the length of `procs`. `linked`
-- says whether the file that holds it still has its name.
pub record SharedState : Type 0 where
  pub evt_mutex : ℕ
  pub barrier : ℕ
  pub curr_time : Timeval
  pub time_thief : ℕ
  pub procs : List Process
  pub linked : Bool

abbrev pub max_procs : ℕ
max_procs = 128

abbrev pub virt_clk_active : ℕ
virt_clk_active = 0

abbrev pub virt_clk_stolen : ℕ
virt_clk_stolen = 2

-- What a process does next: it goes on, it has to wait, or an assertion or an array's bound fails.
pub data Result : Type 0 where
  moves : SharedState → Result
  waits : Result
  faults : Result

abbrev pub live : Process → Bool
live p = ltb 0 p.pid && p.active

unfoldable pub live_count : List Process → ℕ
live_count [] = 0
live_count (p ∷ ps) = let rest = live_count ps in if live p then suc rest else rest

abbrev pub smaller : Process → ℕ → Option (ℕ × Timeval) → Option (ℕ × Timeval)
smaller p i none = some (i, p.next_time)
smaller p i (some (j, t)) = if timercmp p.next_time t lt then some (i, p.next_time) else some (j, t)

-- The live process whose next time is the smallest, and that time.
unfoldable pub smallest_of : List Process → ℕ → Option (ℕ × Timeval) → Option (ℕ × Timeval)
smallest_of [] i best = best
smallest_of (p ∷ ps) i best = smallest_of ps (suc i) (if live p then smaller p i best else best)

unfoldable pub modify : List Process → ℕ → (Process → Process) → List Process
modify [] i f = []
modify (p ∷ ps) zero f = f p ∷ ps
modify (p ∷ ps) (suc i) f = p ∷ modify ps i f

abbrev pub change_at : SharedState → ℕ → (Process → Process) → SharedState
change_at s i f = record s { procs = modify s.procs i f }

-- The new global time, and the barrier's release, unless a process steals time.
abbrev pub advance : SharedState → ℕ → Timeval → SharedState
advance s j t =
    if s.time_thief == 0
    then record s {
      curr_time = t;
      barrier = s.barrier + live_count s.procs;
      procs = modify s.procs j (λ p. record p { active = false });
    }
    else s

abbrev pub is_thief : SharedState → Process → Bool
is_thief s p = ltb 0 s.time_thief && s.time_thief == p.pid

abbrev pub released : SharedState → Timeval → Process → Process
released s next p = record p {
  thief = is_thief s p;
  holds_mutex = false;
  place = if is_thief s p then stealing next else at_barrier next;
}

-- The mutex is given back, and the process goes to the barrier, or on with its theft.
abbrev pub give_back : SharedState → ℕ → Timeval → SharedState
give_back s i next = record (change_at s i (released s next)) { evt_mutex = s.evt_mutex + 1 }

-- With the smallest of the next times, which is there.
abbrev pub entered : SharedState → ℕ → Timeval → Option (ℕ × Timeval) → Result
entered s i next none = faults
entered s i next (some (j, t)) = moves (give_back (advance s j t) i next)

-- The branch of ET_gvirt_block for an active or a stolen clock, up to the first wait.
unfoldable pub enter_block : SharedState → ℕ → Process → Timeval → Result
unfolding smallest_of modify live_count
enter_block s i p next =
    if not p.holds_mutex
    then faults
    else (let s₁ = change_at s i (λ p. record p { next_time = next }) in
        entered s₁ i next (smallest_of s₁.procs 0 none))

-- ET_gvirt_block up to its first wait; otherwise it calls the blocking function, and the state is the same.
unfoldable pub gvirt_block : SharedState → ℕ → Process → Option Timeval → Bool → Result
unfolding enter_block
gvirt_block s i p none pause_while_blocking = moves s
gvirt_block s i p (some next) pause_while_blocking =
    if pause_while_blocking
    then moves s
    else if p.paused == virt_clk_active || p.paused == virt_clk_stolen
    then enter_block s i p next
    else moves s

-- sem_wait at the barrier.
abbrev pub pass_barrier : SharedState → ℕ → Timeval → Result
pass_barrier s i next =
    if s.barrier == 0
    then waits
    else moves (record (change_at s i (λ p. record p { place = at_mutex next })) {
      barrier = s.barrier - 1;
    })

-- sem_wait for the mutex behind the barrier: the process takes its turn, or goes back to the barrier.
abbrev pub take_turn : SharedState → ℕ → Process → Timeval → Result
take_turn s i p next =
    if s.evt_mutex == 0
    then waits
    else if not (timercmp next p.next_time eq_ℤ)
    then faults
    else if timercmp next s.curr_time gt
    then moves (change_at s i (λ p. record p { time = s.curr_time; place = at_barrier next }))
    else moves
        (record (change_at s i (λ p. record p {
          time = s.curr_time;
          active = true;
          holds_mutex = true;
          place = running;
        })) { evt_mutex = s.evt_mutex - 1 })

-- The thief's blocking function has returned, and it takes the mutex again.
abbrev pub relock : SharedState → ℕ → Result
relock s i =
    if s.evt_mutex == 0
    then waits
    else moves
        (record (change_at s i (λ p. record p { place = running })) { evt_mutex = s.evt_mutex - 1 })

-- setup_shared_state on a file that is initialized, with the pause mode of ET_gvirt_init. Once the file
-- has been removed, no process comes to this state any more: it makes another file.
abbrev pub setup_shared_state : SharedState → ℕ → ℕ → Result
setup_shared_state s pid mode =
    if not s.linked || s.evt_mutex == 0
    then waits
    else if leb max_procs (length s.procs)
    then faults
    else moves (record s {
      evt_mutex = s.evt_mutex - 1;
      procs =
          s.procs
          ++ record {
            next_time = s.curr_time;
            active = true;
            holds_mutex = true;
            thief = false;
            pid = pid;
            place = running;
            paused = mode;
            time = zero_time;
          }
            ∷ [];
    })

abbrev pub leave : Process → Process
leave p = record p { active = false; holds_mutex = false; pid = 0; place = gone }

-- cleanup_shared_state of a process that runs. One that holds the mutex and finds no live process removes
-- the file; the others that have mapped it keep the mapping, and sem_destroy changes no count.
unfoldable pub cleanup_shared_state : SharedState → ℕ → Process → SharedState
unfolding modify live_count
cleanup_shared_state s i p =
    let s₁ = change_at s i leave in
    if p.holds_mutex
    then record s₁ {
      time_thief = if is_thief s p then 0 else s.time_thief;
      barrier = s.barrier + live_count s₁.procs;
      evt_mutex = s.evt_mutex + 1;
      linked = s.linked && not (live_count s₁.procs == 0);
    }
    else s₁

-- et_gvirt_set_pause
unfoldable pub set_pause : SharedState → ℕ → Process → ℕ → SharedState
unfolding modify
set_pause s i p mode =
    let s₁ = change_at s i (λ p. record p { paused = mode }) in
    if not p.holds_mutex
    then s
    else if mode == virt_clk_stolen
    then (if ltb 0 s.time_thief then s else record s₁ { time_thief = p.pid })
    else record s₁ { time_thief = if is_thief s p then 0 else s.time_thief }

pub data Action : Type 0 where
  joins : ℕ → ℕ → Action
  blocks : ℕ → Option Timeval → Bool → Action
  goes_on : ℕ → Action
  pauses : ℕ → ℕ → Action
  leaves : ℕ → Action

-- A process that runs does what it likes; one that waits does what it waits for.
abbrev pub act : SharedState → Action → ℕ → Process → Place → Result
act s (blocks j next pause) i p running = gvirt_block s i p next pause
act s (pauses j mode) i p running = moves (set_pause s i p mode)
act s (leaves j) i p running = moves (cleanup_shared_state s i p)
act s (goes_on j) i p (at_barrier next) = pass_barrier s i next
act s (goes_on j) i p (at_mutex next) = take_turn s i p next
act s (goes_on j) i p (stealing next) = relock s i
act s a i p place = waits

abbrev pub actor : Action → ℕ
actor (joins pid mode) = 0
actor (blocks i next pause) = i
actor (goes_on i) = i
actor (pauses i mode) = i
actor (leaves i) = i

abbrev pub by_chosen : SharedState → Action → Option Process → Result
by_chosen s a none = waits
by_chosen s a (some p) = act s a (actor a) p p.place

unfoldable pub step : SharedState → Action → Result
unfolding gvirt_block set_pause cleanup_shared_state
step s (joins pid mode) = setup_shared_state s pid mode
step s a = by_chosen s a (get_elem? s.procs (actor a))

-- What setup_shared_state makes of a new file.
abbrev pub new_state : Timeval → SharedState
new_state now = record {
  evt_mutex = 1;
  barrier = 0;
  curr_time = now;
  time_thief = 0;
  procs = [];
  linked = true;
}

-- The states that the processes can reach, in any order of their actions.
pub data Reach (s : SharedState) : SharedState → Type 0 where
  here : Reach s s
  later : {t u : SharedState} (a : Action) → Reach s t → step t a ≡ moves u → Reach s u
