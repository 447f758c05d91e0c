-- ===== src/Cmpl/Deliver.antt =====
-- A completion entry reaches its command, and the thread that waits for it, once.
use unvme_cli.Prelude.{
  ℕ, ◌+◌, true, false, Option, none, some, List, [], ◌∷◌, ◌++◌, ◌≡◌, ◌≢◌, inl, inr, refl, arith, ap,
  sym, ◌∙◌, leb, dec32, length, Bool-cases,
}
use unvme_cli.Vcq.Ring.{Cqe, Vcq, push}
use unvme_cli.Vcq.Ring.Inv.{IsRing}
use unvme_cli.Vcq.Ring.Refine.{contents, push_refines}
use unvme_cli.Vcq.Pool.{store}
use unvme_cli.Cmd.{completed, to_be_completed, Cmd, Sq, Slot, read, write}
use unvme_cli.Cmd.Inv.{IsSq, Holds}
use unvme_cli.Cmd.Life.{read-write, write_others}
use unvme_cli.Cmpl.{
  cmd_count_range, is_submitted, Host, lookup, with_queue, lookup_in, get_cmd_on_reaper, set_cmd,
  cmd_cmpl_mark, wakes, cmd_cmpl_wakeup, pop_n, push_loop, cmd_get_vcq, injected_of, pushed,
  push_at, vcq_push, regardless, count_cmd, cmpl_rest, cmd_cmpl, reap_found, reap_one,
}
use unvme_cli.Cmpl.Lookup.{some_inj, with_queue_inv, true_not_false, live_of, lookup_submitted}

module _ {R : Type 0} (u : Host R) (cqe : Cqe) (q : Sq R) (s : Slot) where
  -- The command that the entry finds.
  abbrev pub Finds : Type 0
  Finds = (u.sqs cqe.sqid ≡ some q) × (lookup q cqe.cid ≡ some s)

  found-cmd : Finds → get_cmd_on_reaper u cqe ≡ some (q, s)
  unfolding get_cmd_on_reaper lookup_in with_queue
  found-cmd (e, f) = ap (λ o. lookup_in o cqe.cid) e ∙ ap (with_queue q) f

  -- The counters beside, a count is nothing but a count.
  abbrev counted : ℕ → Host R
  counted opcode = record u {
    cmd_count = (count_cmd u cqe.sqid opcode).cmd_count;
    overrun = (count_cmd u cqe.sqid opcode).overrun;
  }

  count-frame : (opcode : ℕ) → count_cmd u cqe.sqid opcode ≡ counted opcode
  unfolding count_cmd
  count-frame opcode = elim (Bool-cases (leb cmd_count_range opcode)) [
    | inl h ↦ rw h refl
    | inr h ↦ rw h refl
  ]

  abbrev marked : Cmd
  marked = record (read q s) { state = to_be_completed }

  reap-steps :
      (pops : List ℕ)
      → Finds
      → reap_one u cqe pops
        ≡ cmpl_rest
            (cmd_cmpl_wakeup (counted (read q s).opcode) cqe.sqid q s cqe)
            (read q s)
            cqe
            pops
  unfolding reap_one reap_found cmd_cmpl
  reap-steps pops f =
      ap (reap_found u cqe pops) (found-cmd f)
      ∙ ap (λ c. cmpl_rest (cmd_cmpl_wakeup c cqe.sqid q s cqe) (read q s) cqe pops)
          (count-frame (read q s).opcode)

  abbrev woken : Host R
  woken =
      record (set_cmd (counted (read q s).opcode) cqe.sqid q s
        (record (cmd_cmpl_mark marked cqe) { completed = true })) { nr_cmds = dec32 u.nr_cmds }

  reap-wakes : (pops : List ℕ) → Finds → wakes (read q s) ≡ true → reap_one u cqe pops ≡ some woken
  unfolding cmd_cmpl_wakeup cmpl_rest
  reap-wakes pops f w = reap-steps pops f ∙ rw w refl

  abbrev handed : Host R
  handed = set_cmd (counted (read q s).opcode) cqe.sqid q s marked

  reap-hands :
      (pops : List ℕ)
      → Finds
      → wakes (read q s) ≡ false
      → reap_one u cqe pops ≡ cmpl_rest (handed, false) (read q s) cqe pops
  unfolding cmd_cmpl_wakeup
  reap-hands pops f w = reap-steps pops f ∙ rw w refl

  holds : Finds → Holds q s
  holds f = live_of (read q s) (lookup_submitted q cqe.cid s f.1)

  stored_at : (x : Cmd) → store u.sqs cqe.sqid (some (write q s x)) cqe.sqid ≡ some (write q s x)
  stored_at x = ground arith

  not_at : (x : Cmd) (c : ℕ) → c ≢ cqe.sqid → store u.sqs cqe.sqid (some (write q s x)) c ≡ u.sqs c
  not_at x c ne = ground arith

  filled : Cmd → Host R → ℕ → Vcq → Host R
  filled x h vcq ring = record h { pool = record h.pool { heap = store h.pool.heap vcq ring } }

  push_first :
      (vcq : ℕ) (pops : List ℕ)
      → cmd_get_vcq u.pool (read q s) ≡ some vcq
      → (push (u.pool.heap vcq) u.u_bdf cqe (injected_of (read q s))).1 ≡ 0
      → cmpl_rest (handed, false) (read q s) cqe (0 ∷ pops)
        ≡ some (
            filled
              (read q s)
              handed
              vcq
              (push (u.pool.heap vcq) u.u_bdf cqe (injected_of (read q s))).0)
  unfolding cmpl_rest regardless vcq_push push_at pushed filled push_loop pop_n
  push_first vcq pops at done =
      ap (λ o. regardless (push_at handed (read q s) cqe (0 ∷ pops) o)) at ∙ rw done refl

  -- An entry that finds a command on a queue whose bitmap, slots and `nr_cmds` agree, which a
  -- thread waits for by itself (`UNVMED_CMD_F_WAKEUP_ON_CQE`): the reaping returns, whatever the
  -- owners of the rings do. The command is COMPLETED and holds the entry, its waiter is released,
  -- `nr_cmds` counts one less, and no ring and no other queue changes.
  pub reap_wakes :
      IsSq q
      → Finds
      → wakes (read q s) ≡ true
      → (pops : List ℕ)
      → (u' : Host R) × (q' : Sq R) × (reap_one u cqe pops ≡ some u')
        × (u'.sqs cqe.sqid ≡ some q')
        × (read q' s ≡ record (read q s) { state = completed; cqe = cqe; completed = true })
        × ((t : Slot) → t ≢ s → read q' t ≡ read q t)
        × (u'.pool ≡ u.pool)
        × (u'.nr_cmds ≡ dec32 u.nr_cmds)
        × ((c : ℕ) → c ≢ cqe.sqid → u'.sqs c ≡ u.sqs c)
  reap_wakes v f w pops = (
    woken,
    write q s y,
    reap-wakes pops f w,
    stored_at y,
    read-write q v s y (holds f),
    λ t ne. write_others q s y t ne,
    refl,
    refl,
    not_at y,
  )
    where
      y : Cmd
      y = record (cmd_cmpl_mark marked cqe) { completed = true }

  -- An entry that finds a command on a queue whose bitmap, slots and `nr_cmds` agree, that does not have
  -- UNVMED_CMD_F_WAKEUP_ON_CQE set and belongs to a thread with a virtual completion queue, whose ring
  -- is well-formed and has room: the reaping returns at its first attempt. The command is
  -- TO_BE_COMPLETED, the entry stands behind the others of that ring, with the mark of a conflict
  -- command, and no other ring or queue changes.
  pub reap_pushes :
      (vcq : ℕ)
      → IsSq q
      → Finds
      → wakes (read q s) ≡ false
      → cmd_get_vcq u.pool (read q s) ≡ some vcq
      → IsRing (u.pool.heap vcq)
      → length (contents (u.pool.heap vcq)) + 1 ≢ (u.pool.heap vcq).qsize
      → (pops : List ℕ)
      → (u' : Host R) × (q' : Sq R) × (reap_one u cqe (0 ∷ pops) ≡ some u')
        × (u'.sqs cqe.sqid ≡ some q')
        × (read q' s ≡ record (read q s) { state = to_be_completed })
        × ((t : Slot) → t ≢ s → read q' t ≡ read q t)
        × (contents (u'.pool.heap vcq)
            ≡ contents (u.pool.heap vcq)
              ++ record { cqe = cqe; bdf = u.u_bdf; injected = injected_of (read q s) } ∷ [])
        × ((a : ℕ) → a ≢ vcq → u'.pool.heap a ≡ u.pool.heap a)
        × ((c : ℕ) → c ≢ cqe.sqid → u'.sqs c ≡ u.sqs c)
  unfolding filled
  reap_pushes vcq v f w at ring room pops =
      let added = (push_refines u.u_bdf cqe (injected_of (read q s)) ring).1 room in
      (
        filled (read q s) handed vcq next,
        write q s marked,
        reap-hands (0 ∷ pops) f w ∙ push_first vcq pops at added.1,
        stored_at marked,
        read-write q v s marked (holds f),
        λ t ne. write_others q s marked t ne,
        ap contents here ∙ added.0,
        λ a ne. ground arith,
        not_at marked,
      )
    where
      next : Vcq
      next = (push (u.pool.heap vcq) u.u_bdf cqe (injected_of (read q s))).0

      here : store u.pool.heap vcq next vcq ≡ next
      here = ground arith

  pushed-sqs :
      (h u' : Host R) (vcq : ℕ) (r : Option Vcq)
      → regardless (pushed h vcq r) ≡ some u'
      → u'.sqs ≡ h.sqs
  unfolding regardless pushed
  pushed-sqs h u' vcq none e = cc
  pushed-sqs h u' vcq (some ring) e = sym (ap Host.sqs (some_inj _ u' e))

  push_at-sqs :
      (h u' : Host R) (pops : List ℕ) (o : Option ℕ)
      → regardless (push_at h (read q s) cqe pops o) ≡ some u'
      → u'.sqs ≡ h.sqs
  unfolding regardless push_at
  push_at-sqs h u' pops none e = sym (ap Host.sqs (some_inj h u' e))
  push_at-sqs h u' pops (some vcq) e =
      pushed-sqs h u' vcq (push_loop h.u_bdf cqe (injected_of (read q s)) pops (h.pool.heap vcq)) e

  rest-sqs :
      (u' : Host R) (pops : List ℕ)
      → cmpl_rest (handed, false) (read q s) cqe pops ≡ some u'
      → u'.sqs ≡ handed.sqs
  unfolding cmpl_rest vcq_push
  rest-sqs u' pops e = push_at-sqs handed u' pops (cmd_get_vcq u.pool (read q s)) e

  -- A command that is not submitted is not found.
  spent :
      IsSq q
      → Finds
      → (u' : Host R) (y : Cmd) → is_submitted y.state ≡ false
      → u'.sqs cqe.sqid ≡ some (write q s y)
      → (q' : Sq R) → get_cmd_on_reaper u' cqe ≢ some (q', s)
  unfolding get_cmd_on_reaper lookup_in
  spent v f u' y idle e q' g =
      let Q = write q s y in
      let at : with_queue Q (lookup Q cqe.cid) ≡ some (q', s) =
        sym (ap (λ o. lookup_in o cqe.cid) e) ∙ g in
      let sub = lookup_submitted Q cqe.cid s (with_queue_inv Q (lookup Q cqe.cid) q' s at) in
      true_not_false
        (sym sub ∙ ap (λ k. is_submitted k.state) (read-write q v s y (holds f)) ∙ idle)

  -- On a queue whose bitmap, slots and `nr_cmds` agree, an entry that has been reaped does not
  -- find its command again: the same entry once more finds no command, or one in another slot.
  pub reap_once :
      IsSq q
      → Finds
      → (pops : List ℕ) (u' : Host R) → reap_one u cqe pops ≡ some u'
      → (q' : Sq R) → get_cmd_on_reaper u' cqe ≢ some (q', s)
  reap_once v f pops u' e = elim (Bool-cases (wakes (read q s))) [
    | inl w ↦
        let same : woken ≡ u' = some_inj woken u' (sym (reap-wakes pops f w) ∙ e) in
        spent v f u' (record (cmd_cmpl_mark marked cqe) { completed = true }) refl
          (ap (λ h. h.sqs cqe.sqid) (sym same)
            ∙ stored_at (record (cmd_cmpl_mark marked cqe) { completed = true }))
    | inr w ↦
        spent v f u' marked refl (
          ap (λ h. h cqe.sqid) (rest-sqs u' pops (sym (reap-hands pops f w) ∙ e))
          ∙ stored_at marked)
  ]
