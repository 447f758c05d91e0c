-- ===== src/Lib.antt =====
-- The core of libunvmed, the user-space NVMe driver library behind unvme-cli (lib/). A daemon and an
-- fio engine call it; below it stand libvfn, which owns the hardware queues, and the IOMMU.
--
-- The parts and how they meet. A controller has a state that threads move under one lock, and
-- tables of reference-counted queues, which a reset sweeps. Its submission queues each have a
-- bitmap of command identifiers, an array of commands by identifier, and one extra slot for a
-- command whose identifier collides on purpose. A command holds a request of libvfn and its
-- buffers, and is freed with its last reference. A thread that waits for completions owns a
-- virtual completion queue, a ring with an identifier from a pool, into which the threads that
-- reap the hardware queues push.
--
-- The files:
--   Prelude       shared names: tests on numbers, lists over native numbers, `int` counters, errno;
--                 Bits and Windows for `&`, `|` and shifts
--   Ctrl          lib/libunvmed.h `enum unvme_state`; lib/libunvmed.c `____unvmed_ctrl_set_state`,
--                 its callers, and the `unvmed_vf_*` calls of an invalidation; Ctrl/Setter,
--                 Ctrl/Paths (histories of calls), Ctrl/Vf
--   Vcq/Ring      lib/libunvmed-vcq.c `__unvmed_vcq_push`, `unvmed_vcq_pop`; the invariant in Inv,
--                 the FIFO that a ring stands for in Refine
--   Vcq/Pool      lib/libunvmed-vcq.c `unvmed_vcq_pool_init` to `unvmed_vcq_free`; the invariant in
--                 Inv, the life of an identifier in Life, interleaved threads in Race
--   Vcq/Run       lib/libunvmed-vcq.c `unvmed_vcq_run_n`; Poll, Fifo
--   Cid           lib/libunvmed-cmds.c `unvmed_cid_alloc`, `unvmed_cid_alloc_n`, `unvmed_cid_free`,
--                 lib/libunvmed.c `unvmed_cid_init`; Bytes, Inv, Laws, Init
--   Cmd           lib/libunvmed-cmds.c `__unvmed_cmd_alloc` to `unvmed_cmd_put`; the invariant of a
--                 queue's commands in Inv, then Life, Alloc and Conflict,
--                 and Refs, a reference taken and given back
--   Cmd/Buffers   lib/libunvmed-cmds.c `unvmed_buf_init`, `__unvmed_cmd_init` and the public calls that
--                 allocate; Setup, and Trace for what is done to memory
--   Queue         lib/libunvmed.c `__unvmed_find_and_get_sq`, `unvmed_sq_put`, `unvmed_disable_sq_all`,
--                 `__unvmed_delete_sq_all` and their twins for completion queues; Refs, Sweep (any
--                 sweep, from what it does to one queue), All
--   Queue/Create  lib/libunvmed.c `unvmed_init_usq`, `unvmed_init_ucq`; InitSq, Init
--   Cmpl          lib/libunvmed.c `unvmed_get_cmd_on_reaper`, `unvmed_cmd_cmpl`, `__unvmed_reap_cqe`, and
--                 lib/libunvmed-vcq.c `unvmed_vcq_push`, `unvmed_vcq_push_to_other`; Lookup, Deliver
--   Cmpl/Cancel   lib/libunvmed.c `unvmed_cancel_sq`; Complete (a completion that cannot get stuck), Slots,
--                 Drain, Ends; it uses Vcq/Ring/Room, that a popped ring takes another entry
--   Ns            lib/libunvmed.c `__unvmed_find_and_get_ns`, `unvmed_ns_put`, `unvmed_init_ns`,
--                 `unvmed_free_ns_all`, `unvmed_get_nslist`; the invariant of the list in Inv, then Init,
--                 Free, and Meta for `unvmed_init_meta_ns`
--   Prep          lib/libunvmed-cmds.c `unvmed_sqe_set_tags`, with Space for the bits that two tags share;
--                 Prep/Rw `unvmed_cmd_prep_read` and `unvmed_cmd_prep_write`, with Refs and Written;
--                 Prep/Admin the other `unvmed_cmd_prep_*` calls, with Manage, Queues and Fields
--   Timer         lib/libunvmed.c `unvmed_timer_handler` and `unvmed_cmd_timeout`, lib/libunvmed-cmds.c
--                 `unvmed_cmd_expired`; Turn and Scan (the first pass), Handler (nothing has expired),
--                 Expire (a turn of the second pass), Freeze
--   Mem           lib/libunvmed.c `unvmed_mem_alloc` to `unvmed_mem_free`, `unvmed_free_mem_all`; Registry;
--                 Mem/Hmb `unvmed_hmb_init` and `unvmed_hmb_free`, with Cycle
--   Tests modules hold the theorems at concrete states.
--
-- How state and calls correspond. A structure is a record with the fields that the modelled code
-- reads or writes; a call is a function from the state before to the state after and the result;
-- `errno` is a field of the state. A `true` stands for 0 and a `false` for -1 where nothing else
-- is returned. Counters are natural numbers with the wrap-around of their width written out; an
-- `int` is its 32-bit pattern. Where a lock spans a call it is one step. Calls that take no lock, or
-- one for parts of what they do, run undisturbed unless a module takes them apart (Vcq/Pool/Race,
-- Vcq/Run, Ctrl/Vf): there other threads' steps are explicit arguments, lists of what they do or leave
-- behind.
--
-- Loops. Spinning loops run along the list of what they find, so `none` says that they still
-- spin when it ends; results say when they do not. `unvmed_vcq_pool_init` and the scans of the
-- bitmap are recursions on the number of rounds in the source. The drain of a hardware queue runs on
-- fuel, and one read more than the queue has entries is enough.
--
-- Parameters. libvfn's requests (`nvme_rq_acquire_atomic`, `nvme_rq_release_atomic`), `pci_is_vf`,
-- the bits of CSTS, the allocator and the IOMMU are arguments about which nothing is assumed, and
-- so are the mapping of memory into an entry, the data that Identify commands return, and libvfn's
-- constants, except where a theorem names the one that it needs.
--
-- Not modelled: register access, logging, JSON, the daemon, the command line and the fio engine,
-- which are I/O or glue; argtable3 and ccan, which are copies of other libraries; the commands
-- that create and delete queues, the reaping by an application without interrupts, the posting of
-- commands with the start of the timer, and the interrupts, threads and contexts of a controller.
pub mod Prelude
pub mod Ctrl
pub mod Vcq
pub mod Cid
pub mod Cmd
pub mod Queue
pub mod Cmpl
pub mod Ns
pub mod Prep
pub mod Timer
pub mod Mem
