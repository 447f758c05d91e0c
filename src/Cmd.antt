-- ===== src/Cmd.antt =====
-- lib/libunvmed-cmds.c, the life of a command: its slot, its identifier, its request of libvfn and
-- its buffers. The calls run undisturbed, so a compare-and-swap succeeds at once.
pub mod Inv
pub mod Life
pub mod Alloc
pub mod Conflict
pub mod Buffers
pub mod Refs
pub mod Tests
use unvme_cli.Prelude.{
  ℕ, zero, suc, ◌+◌, ◌%◌, ◌^◌, Bool, true, false, not, ◌&&◌, ◌||◌, Option, none, some, List, [],
  ◌∷◌, ◌++◌, ◌==◌, if◌then◌else◌, get_or, set, eexist, ebusy, einval, inc32, dec32, is_pos32,
}
use unvme_cli.Vcq.Ring.{Cqe}
use unvme_cli.Cid.{Bitmap, cid_alloc, cid_alloc_n, cid_free}

-- `enum unvme_cmd_state`
pub data CmdState : Type 0 where
  init allocated submitted completed to_be_completed : CmdState

abbrev pub is_init : CmdState → Bool
is_init init = true
is_init _ = false

-- `struct unvme_buf`; `flags` as its two bits.
pub record Buf : Type 0 where
  pub va : Option ℕ
  pub len : ℕ
  pub va_unmap : Bool
  pub iova_unmap : Bool

abbrev pub no_buf : Buf
no_buf = record { va = none; len = 0; va_unmap = false; iova_unmap = false }

-- `struct timespec`
pub record Timespec : Type 0 where
  pub tv_sec : ℕ
  pub tv_nsec : ℕ

-- `struct unvme_cmd`, without the pointers to its controller and queue. `refcnt` is the pattern of
-- an `int`, `rq` the request of libvfn, `injected` the test for UNVMED_CMD_INJECT_CONFLICT.
pub record Cmd : Type 0 where
  pub refcnt : ℕ
  pub state : CmdState
  pub flags : ℕ
  pub vcq : ℕ
  pub cid : ℕ
  pub rq : Option ℕ
  pub buf : Buf
  pub mbuf : Buf
  pub completed : Bool
  pub opcode : ℕ
  pub cqe : Cqe
  pub injected : Bool
  pub timeout : Timespec

abbrev pub no_cqe : Cqe
no_cqe = record { sqid = 0; cid = 0; sfp = 0 }

-- After `memset`.
abbrev pub no_cmd : Cmd
no_cmd = record {
  refcnt = 0;
  state = init;
  flags = 0;
  vcq = 0;
  cid = 0;
  rq = none;
  buf = no_buf;
  mbuf = no_buf;
  completed = false;
  opcode = 0;
  cqe = no_cqe;
  injected = false;
  timeout = record { tv_sec = 0; tv_nsec = 0 };
}

-- What is done to memory: `posix_memalign` and `unvmed_map_vaddr` that succeed, and the calls of
-- `unvmed_unmap_vaddr` and `unvmed_pgunmap`, each with the address.
pub data Effect : Type 0 where
  grab map_in unmap free : Option ℕ → Effect

-- The parts of `struct unvme_sq` that commands go by, libvfn's requests of the queue, the calling
-- thread's `errno` (in `cids`), and what has been done to memory so far.
pub record Sq (R : Type 0) : Type 0 where
  pub cids : Bitmap
  pub cmds : List Cmd
  pub conflict_cmds : Cmd
  pub nr_cmds : ℕ
  pub rqs : R
  pub log : List Effect

-- A pointer to a command of the queue: a slot of `cmds`, or the conflict slot.
pub data Slot : Type 0 where
  regular : ℕ → Slot
  conflict : Slot

module _ {R : Type 0} where
  abbrev pub read : Sq R → Slot → Cmd
  read q (regular c) = get_or q.cmds c no_cmd
  read q conflict = q.conflict_cmds

  abbrev pub write : Sq R → Slot → Cmd → Sq R
  write q (regular c) x = record q { cmds = set q.cmds c x }
  write q conflict x = record q { conflict_cmds = x }

  abbrev pub fail : Sq R → ℕ → Sq R
  fail q e = record q { cids = record q.cids { errno = e } }

  -- `unvmed_buf_free`
  pub buf_free : Sq R → Buf → Sq R
  buf_free q b = record q {
    log =
        q.log
        ++ ((if b.iova_unmap then unmap b.va ∷ [] else [])
            ++ (if b.va_unmap then free b.va ∷ [] else []));
  }

  -- `unvmed_cmd_get`
  pub cmd_get : Sq R → ℕ → Sq R × Option Slot
  cmd_get q cid =
      let cmd = read q (regular cid) in
      if cmd.refcnt == 0
      then (q, none)
      else if is_pos32 cmd.refcnt
      then (write q (regular cid) (record cmd { refcnt = inc32 cmd.refcnt }), some (regular cid))
      else (q, some (regular cid))

-- `nvme_rq_acquire_atomic` and `nvme_rq_release_atomic` are libvfn's.
module _ {R : Type 0} (rq_acquire : R → Option (ℕ × R)) (rq_release : ℕ → R → R) where
  pub conflict_with : Sq R → ℕ → ℕ → Option (ℕ × R) → Sq R × Option Slot
  conflict_with q cid vcq_id none = (q, none)
  conflict_with q cid vcq_id (some (rq, rqs)) = (
    record q {
      rqs = rqs;
      nr_cmds = inc32 q.nr_cmds;
      conflict_cmds = record no_cmd {
        refcnt = 1;
        state = allocated;
        vcq = vcq_id;
        cid = cid;
        rq = some rq;
        injected = true;
      };
    },
    some conflict,
  )

  -- `__unvmed_conflict_cmd_alloc`. When libvfn has no request, the state goes back to INIT.
  pub conflict_cmd_alloc : Sq R → ℕ → ℕ → Sq R × Option Slot
  unfolding conflict_with
  conflict_cmd_alloc q cid vcq_id =
      if not (is_init q.conflict_cmds.state)
      then (fail q ebusy, none)
      else conflict_with q cid vcq_id (rq_acquire q.rqs)

  pub alloc_with : Sq R → ℕ → ℕ → Option (ℕ × R) → Sq R × Option Slot
  alloc_with q cid vcq_id none = (record q { cids = (cid_free q.cids cid).0 }, none)
  alloc_with q cid vcq_id (some (rq, rqs)) = (
    record q {
      rqs = rqs;
      nr_cmds = inc32 q.nr_cmds;
      cmds =
          set q.cmds cid (record no_cmd {
            cid = cid;
            rq = some rq;
            refcnt = 1;
            state = allocated;
            vcq = vcq_id;
          });
    },
    some (regular cid),
  )

  pub alloc_pinned : Sq R → ℕ → ℕ → Sq R × Option Slot
  alloc_pinned q cid vcq_id =
      let (cids, done) = cid_alloc_n q.cids cid in
      let q' = record q { cids = cids } in
      if not done
      then (if cids.errno == eexist then conflict_cmd_alloc q' cid vcq_id else (q', none))
      else alloc_with q' cid vcq_id (rq_acquire q.rqs)

  pub alloc_any : Sq R → ℕ → Bitmap × Option ℕ → Sq R × Option Slot
  alloc_any q vcq_id (cids, none) = (record q { cids = cids }, none)
  alloc_any q vcq_id (cids, some cid) =
      alloc_with (record q { cids = cids }) cid vcq_id (rq_acquire q.rqs)

  -- `__unvmed_cmd_alloc`: `none` is a NULL `cid`.
  pub cmd_alloc : Sq R → Option ℕ → ℕ → Sq R × Option Slot
  unfolding alloc_pinned alloc_any
  cmd_alloc q (some cid) vcq_id = alloc_pinned q cid vcq_id
  cmd_alloc q none vcq_id = alloc_any q vcq_id (cid_alloc q.cids)

  abbrev release_rq : Option ℕ → R → R
  release_rq none rqs = rqs
  release_rq (some rq) rqs = rq_release rq rqs

  -- `__unvmed_cmd_free`
  pub cmd_release : Sq R → Slot → Sq R
  cmd_release q s =
      let cmd = read q s in
      let q' = record (write q s no_cmd) {
        nr_cmds = dec32 q.nr_cmds;
        rqs = release_rq cmd.rq q.rqs;
      } in
      if cmd.injected then q' else record q' { cids = (cid_free q.cids cmd.cid).0 }

  -- `unvmed_cmd_free`
  pub cmd_free : Sq R → Slot → Sq R
  unfolding cmd_release
  cmd_free q s = let cmd = read q s in cmd_release (buf_free (buf_free q cmd.buf) cmd.mbuf) s

  -- `unvmed_cmd_put`: the count after the decrement.
  pub cmd_put : Sq R → Slot → Sq R × ℕ
  unfolding cmd_free
  cmd_put q s =
      let cmd = read q s in
      let refcnt = dec32 cmd.refcnt in
      let q' = write q s (record cmd { refcnt = refcnt }) in
      (if refcnt == 0 then cmd_free q' s else q', refcnt)
