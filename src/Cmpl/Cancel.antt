-- ===== src/Cmpl/Cancel.antt =====
-- lib/libunvmed.c `unvmed_cancel_sq`: a reset completes the commands of a submission queue by itself.
-- It runs under the lock of the completion queue, with the controller disabled, so that no entry
-- of the hardware queue changes meanwhile.
pub mod Complete
pub mod Slots
pub mod Drain
pub mod Ends
use unvme_cli.Prelude.{
  ℕ, zero, suc, ◌+◌, ◌-◌, ◌%◌, Bool, true, false, not, Option, none, some, List, ◌==◌,
  if◌then◌else◌,
}
use unvme_cli.Vcq.Ring.{Cqe}
use unvme_cli.Cmd.{Sq, Slot, regular, conflict}
use unvme_cli.Cmpl.{Host, reap_one, put_cqe}

-- The completion queue of libvfn: its entries by position, `qsize`, `head` and `phase`.
pub record HwCq : Type 0 where
  pub entries : ℕ → Cqe
  pub qsize : ℕ
  pub head : ℕ
  pub phase : ℕ

-- `(le16_to_cpu(cqe->sfp) & 0x1) != phase`
abbrev pub fresh : HwCq → Bool
fresh cq = not ((cq.entries cq.head).sfp % 2 == cq.phase)

-- `if (++head == ucq->q->qsize)` and what follows
abbrev pub advance : HwCq → HwCq
advance cq =
    if cq.head + 1 == cq.qsize
    then record cq { head = 0; phase = 1 - cq.phase }
    else record cq { head = cq.head + 1 }

module _ {R : Type 0} where
  -- The loop over the entries. The fuel is the number of entries that may be read; `owner` tells what
  -- the owner of a ring pops while the code tries to push into it, for each completion.
  pub drain : ℕ → (ℕ → List ℕ) → Host R → HwCq → Option (Host R × HwCq)
  drain zero owner u cq = none
  drain (suc fuel) owner u cq = elim (fresh cq) [
    | false ↦ some (u, cq)
    | true ↦ elim (reap_one u (cq.entries cq.head) (owner fuel)) [
      | none ↦ none
      | some u' ↦ drain fuel owner u' (advance cq)
    ]
  ]

  put_at : ℕ → Host R → ℕ → Slot → List ℕ → Option (Sq R) → Option (Host R)
  unfolding put_cqe
  put_at sfp u sqid s pops none = some u
  put_at sfp u sqid s pops (some q) = put_cqe sfp u sqid q s pops

  -- `__unvmed_put_cqe` of a slot of the queue `sqid` as it stands.
  pub put_slot : ℕ → Host R → ℕ → Slot → List ℕ → Option (Host R)
  unfolding put_at
  put_slot sfp u sqid s pops = put_at sfp u sqid s pops (u.sqs sqid)

  pub and_then : Option (Host R) → (Host R → Option (Host R)) → Option (Host R)
  and_then none f = none
  and_then (some u) f = f u

  -- The loop over `n` slots from slot `i` on.
  pub put_slots : ℕ → ℕ → ℕ → (ℕ → List ℕ) → ℕ → Host R → Option (Host R)
  unfolding put_slot and_then
  put_slots sfp sqid i owner zero u = some u
  put_slots sfp sqid i owner (suc n) u =
      and_then (put_slot sfp u sqid (regular i) (owner i)) (put_slots sfp sqid (i + 1) owner n)

  -- The two steps after the drain: all slots but the last of the array, then the conflict slot.
  pub put_all : ℕ → ℕ → ℕ → (ℕ → List ℕ) → Host R → Option (Host R)
  unfolding put_slots
  put_all sfp sqid qsize owner u =
      and_then (put_slots sfp sqid 0 owner (qsize - 1) u)
        (λ u'. put_slot sfp u' sqid conflict (owner qsize))

  after_drain : ℕ → ℕ → ℕ → (ℕ → List ℕ) → Option (Host R × HwCq) → Option (Host R × HwCq)
  after_drain sfp sqid qsize owner none = none
  after_drain sfp sqid qsize owner (some (u, cq)) = elim (put_all sfp sqid qsize owner u) [
    | none ↦ none
    | some u' ↦ some (u', cq)
  ]

  -- `unvmed_cancel_sq` of the queue `sqid` with `usq->qsize`; `entries` is what the owners do while the
  -- hardware queue is drained, `slots` while the commands are cancelled.
  pub cancel_sq :
      ℕ → ℕ → ℕ → ℕ → (ℕ → List ℕ) → (ℕ → List ℕ) → Host R → HwCq → Option (Host R × HwCq)
  unfolding drain after_drain put_all
  cancel_sq fuel sfp sqid qsize entries slots u cq =
      after_drain sfp sqid qsize slots (drain fuel entries u cq)
