-- ===== src/Cmpl/Cancel/Ends.antt =====
-- `unvmed_cancel_sq` as a whole.
use unvme_cli.Prelude.{
  arith, true, ℕ, ◌-◌, ◌≤◌, ◌<◌, false, Option, none, some, List, ◌≡◌, ap, ◌∙◌, length,
}
use unvme_cli.Cmd.{Sq, regular, conflict, read}
use unvme_cli.Cmpl.{Host}
use unvme_cli.Cmpl.Cancel.{and_then, put_slot, put_all, HwCq, fresh, after_drain, cancel_sq}
use unvme_cli.Cmpl.Cancel.Complete.{idle, Roomy}
use unvme_cli.Cmpl.Cancel.Slots.{popping, put_slots-Passed, put_slot-Turned}
use unvme_cli.Cmpl.Cancel.Drain.{IsHwCq, drain_ends}

module _ {R : Type 0} where
  -- No command of the queue waits for the controller: the slots that the pass visits and the conflict
  -- slot are idle.
  pub record Cancelled (u : Host R) (sqid n : ℕ) : Type 0 where
    pub queue : Sq R
    pub at : u.sqs sqid ≡ some queue
    pub quiet : (j : ℕ) → j < n → idle (read queue (regular j)).state ≡ true
    pub conflict_quiet : idle queue.conflict_cmds.state ≡ true
    pub roomy : Roomy u

  pub put_all-Cancelled :
      (sfp sqid qsize : ℕ) (n_of : ℕ → ℕ) (rest : ℕ → List ℕ) (u : Host R) (q : Sq R)
      → u.sqs sqid ≡ some q
      → qsize - 1 ≤ length q.cmds
      → Roomy u
      → (u' : Host R) × (put_all sfp sqid qsize (popping n_of rest) u ≡ some u')
        × Cancelled u' sqid (qsize - 1)
  unfolding put_all
  put_all-Cancelled sfp sqid qsize n_of rest u q at h roomy =
      let owner = popping n_of rest in
      let (u1, first, p) =
        put_slots-Passed sfp sqid n_of rest (qsize - 1) 0 u q at (omega arith) roomy in
      let (u', last, t) =
        put_slot-Turned sfp sqid u1 p.queue conflict (n_of qsize) (rest qsize) p.at tt p.roomy in
      (
        u',
        ap (λ o. and_then o (λ v. put_slot sfp v sqid conflict (owner qsize))) first ∙ last,
        record {
          queue = t.queue;
          at = t.at;
          quiet =
              λ j l. rw (t.others (regular j) (λ e. cc)) (p.all_idle j (omega arith) (omega arith));
          conflict_quiet = t.now_idle;
          roomy = t.roomy;
        },
      )

-- A reset's cancellation of a submission queue ends, within one read more than the completion queue
-- has entries, when the head and the phase of that queue are in range, the submission queue exists
-- with its array of commands, every ring has at least two slots, and the owner of a ring pops an entry
-- before each push: afterwards the entry under the head of the completion queue is not new, and none
-- of the commands of the submission queue, the conflict slot included, is ALLOCATED or SUBMITTED.
pub cancel_sq-Cancelled :
    {R : Type 0} (fuel sfp sqid qsize : ℕ) (n m : ℕ → ℕ) (entries slots : ℕ → List ℕ) (u : Host R)
    (cq : HwCq) (q : Sq R)
    → IsHwCq cq
    → u.sqs sqid ≡ some q
    → qsize - 1 ≤ length q.cmds
    → Roomy u
    → cq.qsize < fuel
    → (u' : Host R) × (cq' : HwCq) × (cancel_sq fuel sfp sqid qsize
          (popping n entries)
          (popping m slots)
          u
          cq
        ≡ some (u', cq'))
      × (fresh cq' ≡ false)
      × Cancelled u' sqid (qsize - 1)
unfolding cancel_sq after_drain
cancel_sq-Cancelled fuel sfp sqid qsize n m entries slots u cq q v at size roomy l =
    let (u1, cq', ends, r, stop) =
      drain_ends sqid (qsize - 1) n entries fuel u cq v
        (record { queue = q; at = at; size = size; roomy = roomy }) l in
    let (u', all, c) = put_all-Cancelled sfp sqid qsize m slots u1 r.queue r.at r.size r.roomy in
    (
      u',
      cq',
      ap (after_drain sfp sqid qsize (popping m slots)) ends
          ∙ ap
              (λ (o : Option (Host _)). elim o as (λ x. Option (Host _ × HwCq)) [
                | none ↦ none
                | some w ↦ some (w, cq')
              ])
              all,
      stop,
      c,
    )
