-- ===== src/Threads/State.antt =====
-- pseudo_threads.c: the threads, the queues that link them, and the two operations on a queue. A
-- thread is named by its address; an address that holds no thread has been freed, and a use of it is
-- a fault, `none`.
use libproc.Prelude.{ℕ, Bool, true, false, ◌==◌, Option, none, some, List, [], ◌∷◌, if◌then◌else◌}
use libproc.Prelude.Int.{ℤ}

-- What a thread's function does between its calls of this file, up to its return. `moves`, `late` and
-- `fails` are what follows PT_read or PT_write that returned a count, -2 and -1.
pub data Program : Type 0 where
  returns : Program
  blocks : Option ℕ → Program → Program
  waits : ℕ → Program → Program
  transfers : Bool → ℤ → ℕ → (moves late fails : Program) → Program
  unblocks : Option ℕ → Program → Program
  creates : Program → Program → Program
  destroys : Option ℕ → Program → Program

-- The saved context: at the start of a program, inside PT_wait or pt_rw_int, or none while the thread
-- runs.
pub data Context : Type 0 where
  at_start : Program → Context
  after_wait : Program → Context
  in_transfer : Bool → ℤ → ℕ → (moves late fails : Program) → Context
  not_saved : Context

-- `head` points at one of three fields of the state.
pub data PtQueue : Type 0 where
  curr_queue ready_queue blocked_queue : PtQueue

abbrev pub same_queue : PtQueue → PtQueue → Bool
same_queue curr_queue curr_queue = true
same_queue curr_queue ready_queue = false
same_queue curr_queue blocked_queue = false
same_queue ready_queue curr_queue = false
same_queue ready_queue ready_queue = true
same_queue ready_queue blocked_queue = false
same_queue blocked_queue curr_queue = false
same_queue blocked_queue ready_queue = false
same_queue blocked_queue blocked_queue = true

-- struct PThread; `next` is the order of the queue it is in.
pub record PThread : Type 0 where
  pub ctx : Context
  pub head : Option PtQueue
  pub sched_evt : Option ℕ

-- The calls of events.c.
pub data EventCall : Type 0 where
  called_sched_add : (handle : Option ℕ) → (msecs thread : ℕ) → EventCall
  called_sched_remove : (handle : ℕ) → EventCall
  called_fd_add : (fd : ℤ) → (thread : ℕ) → EventCall

-- struct PseudoThreadState, with the heap of threads. `calls` has the calls of events.c, newest first;
-- `scheds` and `attempts` count those of EVT_sched_add and those of read and write.
pub record PseudoThreadState : Type 0 where
  pub curr : List ℕ
  pub ready : List ℕ
  pub blocked : List ℕ
  pub goner : Option ℕ
  pub has_evt : Bool
  pub threads : ℕ → Option PThread
  pub next_thread : ℕ
  pub calls : List EventCall
  pub scheds : ℕ
  pub attempts : ℕ

-- PT_init
abbrev pub pt_init : Bool → PseudoThreadState
pt_init has_evt = record {
  curr = [];
  ready = [];
  blocked = [];
  goner = none;
  has_evt = has_evt;
  threads = λ t. none;
  next_thread = 0;
  calls = [];
  scheds = 0;
  attempts = 0;
}

abbrev pub queue_of : PseudoThreadState → PtQueue → List ℕ
queue_of st curr_queue = st.curr
queue_of st ready_queue = st.ready
queue_of st blocked_queue = st.blocked

abbrev pub set_queue : PseudoThreadState → PtQueue → List ℕ → PseudoThreadState
set_queue st curr_queue l = record st { curr = l }
set_queue st ready_queue l = record st { ready = l }
set_queue st blocked_queue l = record st { blocked = l }

abbrev pub put_at : (ℕ → Option PThread) → ℕ → Option PThread → ℕ → Option PThread
put_at threads t th i = if i == t then th else threads i

abbrev pub store : PseudoThreadState → ℕ → Option PThread → PseudoThreadState
store st t th = record st { threads = put_at st.threads t th }

abbrev pub first : List ℕ → Option ℕ
first [] = none
first (t ∷ l) = some t

-- The loop of dequeue_thread: the queue without the thread, if it is there.
unfoldable pub unlink_thread : ℕ → List ℕ → Option (List ℕ)
unlink_thread t [] = none
unlink_thread t (u ∷ l) =
    let rest = unlink_thread t l in
    if u == t then some l else elim rest [ none ↦ none | some l' ↦ some (u ∷ l') ]

unfoldable pub dequeue_from : PseudoThreadState → ℕ → PThread → PtQueue → PseudoThreadState
unfolding unlink_thread
dequeue_from st t th q = elim (unlink_thread t (queue_of st q)) [
  | none ↦ st
  | some l ↦ store (set_queue st q l) t (some (record th { head = none }))
]

-- dequeue_thread
unfoldable pub dequeue_thread : PseudoThreadState → ℕ → Option PseudoThreadState
unfolding dequeue_from
dequeue_thread st t = elim (st.threads t) [
  | none ↦ none
  | some th ↦ elim th.head [ none ↦ some st | some q ↦ some (dequeue_from st t th q) ]
]

-- enqueue_thread
unfoldable pub enqueue_thread : PseudoThreadState → ℕ → PtQueue → Option PseudoThreadState
enqueue_thread st t q = elim (st.threads t) [
  | none ↦ none
  | some th ↦
      some (store (set_queue st q (t ∷ queue_of st q)) t (some (record th { head = some q })))
]

-- The two calls that follow each other wherever a thread changes its queue.
unfoldable pub move_to : PseudoThreadState → ℕ → PtQueue → Option PseudoThreadState
unfolding dequeue_thread enqueue_thread
move_to st t q = elim (dequeue_thread st t) [ none ↦ none | some s ↦ enqueue_thread s t q ]
