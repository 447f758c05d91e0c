-- ===== src/Cmpl.antt =====
-- lib/libunvmed.c and lib/libunvmed-vcq.c, the way of a completion entry: from the hardware queue to its
-- command, and to the thread that waits for it.
pub mod Lookup
pub mod Deliver
pub mod Cancel
mod Tests
use Prim.Native.Nat.{bit_and}
use unvme_cli.Prelude.{
  ℕ, zero, suc, ◌+◌, ◌-◌, ◌%◌, ◌^◌, Bool, true, false, not, ◌&&◌, ◌||◌, Option, none, some, List,
  [], ◌∷◌, ◌==◌, leb, if◌then◌else◌, inc32, dec32, eagain, enoent, enodev, eperm, ebade,
}
use unvme_cli.Vcq.Ring.{Cqe, Vcq, push, pop}
use unvme_cli.Vcq.Pool.{Pool, store, vcq_get}
use unvme_cli.Cmd.{
  CmdState, init, allocated, submitted, completed, to_be_completed, is_init, Cmd, Sq, Slot, regular,
  conflict, read, write,
}

-- `CMD_COUNT_RANGE`
abbrev pub cmd_count_range : ℕ
cmd_count_range = 255

abbrev pub is_submitted : CmdState → Bool
is_submitted submitted = true
is_submitted _ = false

-- `__unvmed_cmd_cmpl`
abbrev pub cmd_cmpl_mark : Cmd → Cqe → Cmd
cmd_cmpl_mark x cqe = record x { cqe = cqe; state = completed }

-- `UNVMED_CMD_F_WAKEUP_ON_CQE`
abbrev pub wakes : Cmd → Bool
wakes x = not (bit_and x.flags (2 ^ 2) == 0)

abbrev pub injected_of : Cmd → ℕ
injected_of x = if x.injected then 1 else 0

-- What completions work on: the submission queues by identifier, as `unvmed_sq_find` gives them, the
-- virtual completion queues, `u->nr_cmds`, `u->u_bdf`, and the counters of completed commands by
-- queue and opcode. `overrun` tells that a counter beyond the array has been written.
pub record Host (R : Type 0) : Type 0 where
  pub sqs : ℕ → Option (Sq R)
  pub pool : Pool
  pub nr_cmds : ℕ
  pub u_bdf : ℕ
  pub cmd_count : ℕ → ℕ → ℕ
  pub overrun : Bool

module _ {R : Type 0} where
  -- The slot that an entry with `cid` belongs to. Beyond the array the source reads out of bounds; here
  -- such a slot reads as INIT, so that the conflict slot is tried.
  pub lookup : Sq R → ℕ → Option Slot
  lookup q cid =
      if not (is_submitted (read q (regular cid)).state)
      then (if not (is_submitted q.conflict_cmds.state) || not (q.conflict_cmds.cid == cid)
          then none
          else some conflict)
      else some (regular cid)

  pub with_queue : Sq R → Option Slot → Option (Sq R × Slot)
  with_queue q none = none
  with_queue q (some s) = some (q, s)

  lookup_in : Option (Sq R) → ℕ → Option (Sq R × Slot)
  unfolding with_queue
  lookup_in none cid = none
  lookup_in (some q) cid = with_queue q (lookup q cid)

  -- `unvmed_get_cmd_on_reaper`, `unvmed_get_cmd_from_cqe`: the command with its queue.
  pub get_cmd_on_reaper : Host R → Cqe → Option (Sq R × Slot)
  unfolding lookup_in
  get_cmd_on_reaper u cqe = lookup_in (u.sqs cqe.sqid) cqe.cid

  -- `unvmed_get_cmd`
  pub get_cmd : Sq R → ℕ → Option Slot
  get_cmd q cid = if is_init (read q (regular cid)).state then none else some (regular cid)

  abbrev pub set_cmd : Host R → ℕ → Sq R → Slot → Cmd → Host R
  set_cmd u sqid q s x = record u { sqs = store u.sqs sqid (some (write q s x)) }

  -- `unvmed_cmd_cmpl_wakeup` for the command `x` in a slot of `q`, the queue `sqid`.
  pub cmd_cmpl_wakeup : Host R → ℕ → Sq R → Slot → Cqe → Host R × Bool
  cmd_cmpl_wakeup u sqid q s cqe =
      let x = record (read q s) { state = to_be_completed } in
      if wakes x
      then (
        record (set_cmd u sqid q s (record (cmd_cmpl_mark x cqe) { completed = true })) {
          nr_cmds = dec32 u.nr_cmds;
        },
        true,
      )
      else (set_cmd u sqid q s x, false)

-- The owner of a ring pops `n` entries.
pub pop_n : ℕ → Vcq → Vcq
pop_n zero q = q
pop_n (suc n) q = elim (pop (some q)).0 [ none ↦ q | some q' ↦ pop_n n q' ]

-- The loop of `unvmed_vcq_push`: before each attempt the owner has popped some entries. `none` means
-- that the loop still spins after all of them.
pub push_loop : ℕ → Cqe → ℕ → List ℕ → Vcq → Option Vcq
push_loop u_bdf cqe injected [] q = none
push_loop u_bdf cqe injected (n ∷ pops) q =
    let (q', ret) = push (pop_n n q) u_bdf cqe injected in
    let again = push_loop u_bdf cqe injected pops q' in if ret == eagain then again else some q'

-- `unvmed_cmd_get_vcq`: the address of the queue.
pub cmd_get_vcq : Pool → Cmd → Option ℕ
cmd_get_vcq p x = if x.vcq == 0 then none else vcq_get p x.vcq

module _ {R : Type 0} where
  pushed : Host R → ℕ → Option Vcq → Option (Host R × ℕ)
  pushed u vcq none = none
  pushed u vcq (some q) =
      some (record u { pool = record u.pool { heap = store u.pool.heap vcq q } }, 0)

  push_at : Host R → Cmd → Cqe → List ℕ → Option ℕ → Option (Host R × ℕ)
  unfolding pushed
  push_at u x cqe pops none = some (u, enodev)
  push_at u x cqe pops (some vcq) =
      pushed u vcq (push_loop u.u_bdf cqe (injected_of x) pops (u.pool.heap vcq))

  -- `unvmed_vcq_push` of a command; its result is 0, or the number after the sign.
  pub vcq_push : Host R → Cmd → Cqe → List ℕ → Option (Host R × ℕ)
  unfolding push_at
  vcq_push u x cqe pops = push_at u x cqe pops (cmd_get_vcq u.pool x)

  -- `atomic_inc(&cmd->usq->cmd_count[cmd->sqe.opcode])`
  pub count_cmd : Host R → ℕ → ℕ → Host R
  count_cmd u sqid opcode =
      if leb cmd_count_range opcode then record u { overrun = true } else record u {
        cmd_count =
            store u.cmd_count sqid (store (u.cmd_count sqid) opcode (u.cmd_count sqid opcode + 1));
      }

  -- The result of the push is not looked at.
  regardless : Option (Host R × ℕ) → Option (Host R)
  regardless none = none
  regardless (some r) = some r.0

  cmpl_rest : Host R × Bool → Cmd → Cqe → List ℕ → Option (Host R)
  unfolding regardless
  cmpl_rest (u, true) x cqe pops = some u
  cmpl_rest (u, false) x cqe pops = regardless (vcq_push u x cqe pops)

  -- `unvmed_cmd_cmpl`
  pub cmd_cmpl : Host R → ℕ → Sq R → Slot → Cqe → List ℕ → Option (Host R)
  unfolding cmpl_rest
  cmd_cmpl u sqid q s cqe pops =
      cmpl_rest (cmd_cmpl_wakeup (count_cmd u sqid (read q s).opcode) sqid q s cqe) (read q s) cqe
        pops

  -- One round of the loop of `__unvmed_reap_cqe`: an entry without a command is dropped.
  reap_found : Host R → Cqe → List ℕ → Option (Sq R × Slot) → Option (Host R)
  unfolding cmd_cmpl
  reap_found u cqe pops none = some u
  reap_found u cqe pops (some (q, s)) = cmd_cmpl u cqe.sqid q s cqe pops

  pub reap_one : Host R → Cqe → List ℕ → Option (Host R)
  unfolding reap_found
  reap_one u cqe pops = reap_found u cqe pops (get_cmd_on_reaper u cqe)

  reap_loop : Host R → List (Cqe × List ℕ) → Option (Host R)
  unfolding reap_one
  reap_loop u [] = some u
  reap_loop u ((cqe, pops) ∷ cqes) = elim (reap_one u cqe pops) [
    | none ↦ none
    | some u' ↦ reap_loop u' cqes
  ]

  -- `__unvmed_reap_cqe`, for the entries that `nvme_cq_get_cqe` gives until it gives none, each with
  -- what the owner of its ring does meanwhile; `q` tells if the queue of libvfn is attached.
  pub reap_cqe : Host R → Bool → List (Cqe × List ℕ) → Option (Host R)
  unfolding reap_loop
  reap_cqe u q cqes = if not q then some u else reap_loop u cqes

  other_found : Host R → Cqe → List ℕ → Option (Sq R × Slot) → Option (Host R × ℕ)
  unfolding vcq_push
  other_found u cqe pops none = some (u, enoent)
  other_found u cqe pops (some (q, s)) =
      let x = read q s in
      if not (u.pool.vcq_qid == 2 ^ 32 - 1) && u.pool.vcq_qid == x.vcq
      then some (u, eperm)
      else if not (is_submitted x.state)
      then some (u, ebade)
      else vcq_push (set_cmd u cqe.sqid q s (record x { state = to_be_completed })) x cqe pops

  -- `unvmed_vcq_push_to_other`
  pub vcq_push_to_other : Host R → Cqe → List ℕ → Option (Host R × ℕ)
  unfolding other_found
  vcq_push_to_other u cqe pops = other_found u cqe pops (get_cmd_on_reaper u cqe)

  -- `__unvmed_put_cqe` with `unvmed_put_cqe`; `sfp` is the status of a command that is cancelled, made of
  -- constants of libvfn.
  pub put_cqe : ℕ → Host R → ℕ → Sq R → Slot → List ℕ → Option (Host R)
  unfolding cmd_cmpl
  put_cqe sfp u sqid q s pops =
      let x = read q s in
      let cqe : Cqe = record { sqid = sqid; cid = x.cid; sfp = sfp } in
      let done = cmd_cmpl u sqid q s cqe pops in
      elim x.state [ submitted ↦ done | allocated ↦ done | _ ↦ some u ]
