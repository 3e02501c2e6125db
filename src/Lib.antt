-- ===== src/Lib.antt =====
-- libproc, a library for processes that are driven by an event loop.
--
-- The event loop (events.c) keeps timed events in a priority queue (priorityQueue.c, a copy of another
-- library) and file descriptor events in lists. It reads the time and blocks through an event timer
-- (eventTimer.c), which is real, paused by the debugger, or virtual. Hash tables (hashtable.c) serve
-- the other parts of the library. Paths are from the repository's root.
--
-- Prelude holds what the modules share: the integers over the native naturals, lists with an index,
-- and Boolean tests.
--
-- Timeval models struct timeval with timercmp, timeradd, timersub and EVT_ms2tv of events.c. The
-- fields are integers without bound. `micros` is the number of microseconds that a time stands for, and
-- a time is normal (`IsNormal`) if its tv_usec is at least 0 and below a million.
--
-- Clock models eventTimer.c: System the clocks of the kernel and the default timer, RtDebug the
-- debugger's timer, Virt the virtual one. The readings of the kernel's clocks are arguments; the blocking
-- operation is a parameter. Allocation and cleanup of the timers are not modelled.
--
-- Hash models hashtable.c. A table is its callbacks and a list of buckets; a bucket is a list of nodes,
-- and a `struct HashNode **` into it is a position. A `void *` that may be NULL is an option. The table
-- pointer is taken not to be NULL. HASH_extract has fuel for each bucket; one more than the bucket's
-- length is enough. HASH_free_table is not modelled.
--
-- Sched models the timed events of events.c. The state `Sched` has the fields of struct EventState that
-- timed events use, and the heap of ScheduleCB structures, from pointers to contents. A result `none` is
-- a fault: a pointer that is not allocated, or a queue operation on an event whose position is SIZE_MAX.
--   Sched.Memory    the structures and the heap
--   Sched.QueueApi  the priority queue, a parameter: its operations as functions of the priorities that
--                   its callback reads, and its laws as hypotheses. ps_pqueue_remove always returns 0. The
--                   law of the removal is for an ordered queue in which no other entry has the
--                   entry's time, since with cmp_pri it may otherwise take another entry.
--   Sched           EVT_sched_add, EVT_sched_add_with_timestep, EVT_sched_set_critical, EVT_sched_remove
--   Sched.Change    EVT_sched_update, EVT_sched_update_partial_credit, EVT_sched_make_breakpoint,
--                   EVT_sched_move_to_mono
--   Sched.Process   evt_process_timed_event; what a callback does to the state is a parameter
--   Sched.Loop      EVT_initWithSize, and the loop of EVT_start_loop over the events that are due. It
--                   recurs on the list of clock readings, one for each round, so that every finite run is
--                   a list, and a list that is too short ends in the outcome `unfinished`.
-- Sched.Invariant has the invariant `IsSched`: the count of critical events is right, every event is
-- once in the queue that it names unless its position is SIZE_MAX and never in the other one, and nothing
-- that was freed is in a queue. Whether malloc succeeds is an argument; the insertion may fail by itself.
--
-- Fds models the file descriptor events of events.c: Fds.State the lists of struct EventCB and the part of
-- struct EventState that they use, Fds the functions EVT_fd_add, EVT_fd_add_with_cleanup, EVT_fd_remove,
-- EVT_fd_force_remove and EVT_fd_set_critical, and Fds.Process evt_process_fd_event, with what a callback
-- does as a parameter. An array over the events is a function of the event. Calls of cleanup callbacks are
-- recorded in the state. A single step of the debugger over such an event is left out.
--
-- Xdr models the encoders and decoders of integers, strings and byte arrays of xdr.c; Xdr.Signed has the
-- signed integers, as words of the two's complement. Xdr.Array and Xdr.Array.Numbers model arrays, for
-- any element whose codec fills the record Xdr.Array.Laws.IsCodec, and Xdr.Struct structures, for fields
-- that fill Xdr.Struct.Laws.IsField, by a value that is read from a structure and stored into one. A buffer
-- is the list of its bytes from the pointer on, apart from the caller's bound `max`; a result `none` is an
-- access past the end of the buffer or through NULL. Lengths of byte arrays are not negative. malloc
-- succeeds.
--
-- Threads models pseudo_threads.c: Threads.State the threads and their queues, Threads the calls, and
-- Threads.Run what PT_run_all and the swaps of contexts do. A thread is named by its address, and its
-- function is a tree of calls (`Program`), of which a saved context is the rest. A call that ends in
-- swapcontext gives the state at the swap. Calls of events.c are recorded; the handles of EVT_sched_add and
-- the results of read and write are parameters. PT_run_all recurs on fuel: twice the calls of PT_unblock and
-- PT_create in the threads' programs, and one for each ready thread, is enough (Threads.Weight). malloc
-- succeeds; stacks and the bytes that are read or written are not modelled.
--
-- Config models config.c: Config the lines of a file (NextLine on a file and on a buffer) and the buffer of
-- an object's lines (accumulate_line), Config.Values processKeyValueLine, CFG_PtrArrayAppendCB and
-- CFG_freeArray. A file is the list of the pieces that fgets reads. `written` gives `none`, and the array
-- `overrun`, where the code writes past its allocated memory. The length and the capacity of the array, ints
-- in the code, have no bound here. Objects (ParseObject) are not modelled.
--
-- Ipc models the growable buffers of ipc.c: ipc_alloc_buffer, ipc_reset_buffer, ipc_append_buffer and
-- ipc_process_buffer; Ipc.Write ipc_write_buffer_sync, where what each call of write does is a parameter,
-- and a list of calls that is too short gives no result. Ipc.Stream is a client that appends and processes
-- in any order. A callback gets the bytes from its position on and its own state, and does not use the
-- buffer. The loop that doubles allocLen and the loop over the callback have fuel; one more than the number
-- of bytes is enough. Whether malloc and realloc succeed are arguments, and the result `overrun` is a write
-- past the block. The length that is passed is that of the bytes, so it is within an int in the code; the
-- count that ipc_process_buffer returns is its size_t, before the conversion to an int.
--
-- Critical models critical.c: Critical the files and what is written to them, Critical.Loading the functions
-- that load and critical_state_init, Critical.Saving PROC_save_critical_state and PROC_read_critical_state. A
-- family of files is the list of those whose names have its prefix, in the order of readdir; a file is the
-- entries that read gives, up to its end, a short read or an error. An entry is sealed if its checksum is
-- right; the checksum is a parameter. unlink and malloc succeed.
--
-- GlobalTimer models the shared memory of globalTimer.c, by which processes share a virtual clock. A process
-- is its entry in the shared array with its own timer and the place where it is. Each action of a process goes
-- from one wait for a semaphore to the next (`step`), and the actions of the processes come in any order
-- (`Reach`). A result says that the process has to wait, or that an assertion or the array's bound fails.
-- Of the file, only its removal is modelled: from then on no process joins the state, and those that have
-- mapped it go on. sem_destroy, which the code calls then, is taken to leave the counts as they are. Processes
-- that die without leaving are not modelled.
--
-- Tests holds runs on concrete states: ListQueue is a priority queue on a list that has all the laws
-- of Sched.QueueApi.
--
-- Not modelled: the rest of EVT_start_loop, deferred events, the debugger's commands and reports, GPIO
-- interrupts, and the other components of the library (the rest of the XDR codec, the sockets of
-- ipc.c, commands and the rest), as well as pure input and output.
pub mod Prelude
pub mod Timeval
pub mod Clock
pub mod Hash
pub mod Sched
pub mod Threads
pub mod Config
pub mod Critical
pub mod Ipc
pub mod GlobalTimer
pub mod Xdr
pub mod Fds
mod Tests
