-- ===== src/Cmpl/Cancel/Drain.antt =====
-- The loop over the hardware queue ends: it stops where it began at the latest, because there the
-- phase bit of the entry is the old one.
use unvme_cli.Prelude.{
  ℕ, zero, suc, ◌+◌, ◌-◌, ◌%◌, ◌≤◌, ◌<◌, Bool, true, false, not, Option, none, some, List, ◌∷◌, ◌≡◌,
  refl, sym, ap, subst, ◌∙◌, arith, ◌==◌, ==_iff, length, Bool-cases, inl, inr,
}
use unvme_cli.Vcq.Ring.{Cqe}
use unvme_cli.Cmd.{Sq, Slot, write}
use unvme_cli.Cmpl.{Host, with_queue, lookup, lookup_in, reap_found, reap_one, get_cmd_on_reaper}
use unvme_cli.Cmpl.Lookup.{some_inj}
use unvme_cli.Cmpl.Cancel.{HwCq, fresh, advance, drain}
use unvme_cli.Cmpl.Cancel.Complete.{Roomy, Completes, cmd_cmpl-Completes}
use unvme_cli.Cmpl.Cancel.Slots.{popping, length-write}

module _ {R : Type 0} (sqid n : ℕ) where
  -- The queue `sqid` stands with `n` slots at least, and no ring is too small.
  pub record Ready (u : Host R) : Type 0 where
    pub queue : Sq R
    pub at : u.sqs sqid ≡ some queue
    pub size : n ≤ length queue.cmds
    pub roomy : Roomy u

  store-Ready :
      (u u' : Host R) (id : ℕ) (q : Sq R) (s : Slot)
      → u.sqs id ≡ some q
      → Completes u u' id q s
      → Ready u
      → Ready u'
  store-Ready u u' id q s e c r = elim (Bool-cases (id == sqid)) [
    | inl same ↦ record {
      queue = write q s c.cmd;
      at = ap (λ (f : ℕ → Option (Sq R)). f sqid) c.sqs ∙ rw same refl;
      size =
          let i : id ≡ sqid = (==_iff id sqid).0 same in
          let k : q ≡ r.queue = some_inj q r.queue (sym e ∙ ap u.sqs i ∙ r.at) in
          rw (length-write q s c.cmd, k) r.size;
      roomy = c.roomy;
    }
    | inr other ↦ record {
      queue = r.queue;
      at = ap (λ (f : ℕ → Option (Sq R)). f sqid) c.sqs ∙ rw other r.at;
      size = r.size;
      roomy = c.roomy;
    }
  ]

  abbrev ReadyBy : Option (Host R) → Type 0
  ReadyBy o = (u' : Host R) × (o ≡ some u') × Ready u'

  found-Ready :
      (u : Host R) (cqe : Cqe) (k : ℕ) (pops : List ℕ) (q : Sq R) (o : Option Slot)
      → u.sqs cqe.sqid ≡ some q
      → Ready u
      → ReadyBy (reap_found u cqe (suc k ∷ pops) (with_queue q o))
  unfolding with_queue reap_found
  found-Ready u cqe k pops q none e r = (u, refl, r)
  found-Ready u cqe k pops q (some s) e r =
      let (u', ends, c) = cmd_cmpl-Completes u cqe.sqid q s cqe k pops r.roomy in
      (u', ends, store-Ready u u' cqe.sqid q s e c r)

  queue-Ready :
      (u : Host R) (cqe : Cqe) (k : ℕ) (pops : List ℕ) (o : Option (Sq R))
      → u.sqs cqe.sqid ≡ o
      → Ready u
      → ReadyBy (reap_found u cqe (suc k ∷ pops) (lookup_in o cqe.cid))
  unfolding lookup_in reap_found
  queue-Ready u cqe k pops none e r = (u, refl, r)
  queue-Ready u cqe k pops (some q) e r = found-Ready u cqe k pops q (lookup q cqe.cid) e r

  pub reap_one-Ready :
      (u : Host R) (cqe : Cqe) (k : ℕ) (pops : List ℕ)
      → Ready u
      → ReadyBy (reap_one u cqe (suc k ∷ pops))
  unfolding reap_one get_cmd_on_reaper
  reap_one-Ready u cqe k pops r = queue-Ready u cqe k pops (u.sqs cqe.sqid) refl r

-- The hardware queue as the controller leaves it: the head stands on an entry, and the phase is a bit.
abbrev pub IsHwCq : HwCq → Type 0
IsHwCq cq = (cq.head < cq.qsize) × (cq.phase < 2)

-- `fresh` of another position.
abbrev fresh_at : HwCq → ℕ → Bool
fresh_at cq i = not ((cq.entries i).sfp % 2 == cq.phase)

advance_within :
    (cq : HwCq) → cq.head + 1 < cq.qsize → advance cq ≡ record cq { head = cq.head + 1 }
advance_within cq h = let e : (cq.head + 1 == cq.qsize) ≡ false = ground arith in rw e refl

advance_wraps :
    (cq : HwCq) → cq.head + 1 ≡ cq.qsize → advance cq ≡ record cq { head = 0; phase = 1 - cq.phase }
advance_wraps cq h = let e : (cq.head + 1 == cq.qsize) ≡ true = ground arith in rw e refl

-- The bit that was new in one lap is old in the next.
flipped :
    (bit phase : ℕ)
    → phase < 2
    → bit < 2
    → not (bit == phase) ≡ true
    → not (bit == 1 - phase) ≡ false
flipped bit phase h l e = ground arith

module _ {R : Type 0} (sqid n : ℕ) (n_of : ℕ → ℕ) (rest : ℕ → List ℕ) where
  -- The loop ends on an entry that is not fresh.
  abbrev pub Drained : ℕ → Host R → HwCq → Type 0
  Drained fuel u cq =
      (u' : Host R) × (cq' : HwCq) × (drain fuel (popping n_of rest) u cq ≡ some (u', cq'))
      × Ready sqid n u'
      × (fresh cq' ≡ false)

  drain_by :
      (fuel : ℕ) (u : Host R) (cq : HwCq) (b : Bool) (o : Option (Host R))
      → fresh cq ≡ b
      → reap_one u (cq.entries cq.head) (popping n_of rest fuel) ≡ o
      → drain (suc fuel) (popping n_of rest) u cq ≡ elim b [
        | false ↦ some (u, cq)
        | true ↦ elim o [ none ↦ none | some v ↦ drain fuel (popping n_of rest) v (advance cq) ]
      ]
  unfolding drain
  drain_by fuel u cq b o e one =
      ap
        (λ (c : Bool). elim c as (λ x. Option (Host R × HwCq)) [
          | false ↦ some (u, cq)
          | true ↦ elim (reap_one u (cq.entries cq.head) (popping n_of rest fuel)) [
            | none ↦ none
            | some v ↦ drain fuel (popping n_of rest) v (advance cq)
          ]
        ])
        e
      ∙ ap
          (λ (p : Option (Host R)). elim b as (λ x. Option (Host R × HwCq)) [
            | false ↦ some (u, cq)
            | true ↦ elim p [ none ↦ none | some v ↦ drain fuel (popping n_of rest) v (advance cq) ]
          ])
          one

  drain_stops :
      (fuel : ℕ) (u : Host R) (cq : HwCq)
      → fresh cq ≡ false
      → Ready sqid n u
      → 0 < fuel
      → Drained fuel u cq
  drain_stops zero u cq e r l = absurd (omega arith)
  drain_stops (suc fuel) u cq e r l = (
    u,
    cq,
    drain_by fuel u cq false (reap_one u (cq.entries cq.head) (popping n_of rest fuel)) e refl,
    r,
    e,
  )

  drain_goes :
      (fuel : ℕ) (u : Host R) (cq : HwCq)
      → fresh cq ≡ true
      → Ready sqid n u
      → ((u' : Host R) → Ready sqid n u' → Drained fuel u' (advance cq))
      → Drained (suc fuel) u cq
  drain_goes fuel u cq e r go =
      let (u1, one, r1) = reap_one-Ready sqid n u (cq.entries cq.head) (n_of fuel) (rest fuel) r in
      let (u', cq', ends, r', stop) = go u1 r1 in
      (u', cq', drain_by fuel u cq true (some u1) e one ∙ ends, r', stop)

  -- Up to an entry `d` steps ahead that is not fresh.
  drain_to :
      (d fuel : ℕ) (u : Host R) (cq : HwCq)
      → Ready sqid n u
      → cq.head + d < cq.qsize
      → fresh_at cq (cq.head + d) ≡ false
      → d < fuel
      → Drained fuel u cq
  drain_to d zero u cq r h stop l = absurd (omega arith)
  drain_to zero (suc fuel) u cq r h stop l =
      let here : cq.head + 0 ≡ cq.head = omega arith in
      drain_stops (suc fuel) u cq (sym (ap (fresh_at cq) here) ∙ stop) r (omega arith)
  drain_to (suc d) (suc fuel) u cq r h stop l = elim (Bool-cases (fresh cq)) [
    | inr e ↦ drain_stops (suc fuel) u cq e r (omega arith)
    | inl e ↦ drain_goes fuel u cq e r (λ u1 r1.
        let there : cq.head + 1 + d ≡ cq.head + suc d = omega arith in
        subst (Drained fuel u1) (sym (advance_within cq (omega arith))) (
          drain_to d fuel u1 (record cq { head = cq.head + 1 }) r1 (omega arith)
            (ap (fresh_at cq) there ∙ stop) (omega arith)))
  ]

  -- To the end of the array, and from its start to an entry `back` that was fresh in this lap.
  drain_round :
      (d fuel back : ℕ) (u : Host R) (cq : HwCq)
      → Ready sqid n u
      → cq.head + d + 1 ≡ cq.qsize
      → back < cq.qsize
      → cq.phase < 2
      → fresh_at cq back ≡ true
      → d + back + 1 < fuel
      → Drained fuel u cq
  drain_round d zero back u cq r h b p e l = absurd (omega arith)
  drain_round zero (suc fuel) back u cq r h b p e l = elim (Bool-cases (fresh cq)) [
    | inr stop ↦ drain_stops (suc fuel) u cq stop r (omega arith)
    | inl f ↦ drain_goes fuel u cq f r (λ u1 r1.
        let start : 0 + back ≡ back = omega arith in
        subst (Drained fuel u1) (sym (advance_wraps cq (omega arith))) (
          drain_to back fuel u1 (record cq { head = 0; phase = 1 - cq.phase }) r1 (omega arith)
            (ap (fresh_at (record cq { head = 0; phase = 1 - cq.phase })) start
              ∙ flipped ((cq.entries back).sfp % 2) cq.phase p (ground arith) e)
            (omega arith)))
  ]
  drain_round (suc d) (suc fuel) back u cq r h b p e l = elim (Bool-cases (fresh cq)) [
    | inr stop ↦ drain_stops (suc fuel) u cq stop r (omega arith)
    | inl f ↦ drain_goes fuel u cq f r (λ u1 r1.
        subst (Drained fuel u1) (sym (advance_within cq (omega arith))) (
          drain_round d fuel back u1 (record cq { head = cq.head + 1 }) r1 (omega arith) b p e
            (omega arith)))
  ]

  -- One entry more than the queue has is enough.
  pub drain_ends :
      (fuel : ℕ) (u : Host R) (cq : HwCq)
      → IsHwCq cq
      → Ready sqid n u
      → cq.qsize < fuel
      → Drained fuel u cq
  drain_ends fuel u cq v r l = elim (Bool-cases (fresh cq)) [
    | inr stop ↦ drain_stops fuel u cq stop r (omega arith)
    | inl f ↦
        drain_round (cq.qsize - cq.head - 1) fuel cq.head u cq r (omega (arith, v.0)) v.0 v.1 f
          (omega (arith, v.0))
  ]
