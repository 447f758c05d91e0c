-- ===== src/Cmpl/Cancel/Slots.antt =====
-- The pass over the slots of a queue: afterwards none of them is ALLOCATED or SUBMITTED.
use unvme_cli.Prelude.{
  ℕ, zero, suc, ◌+◌, ◌≤◌, ◌<◌, true, Option, some, List, ◌∷◌, ◌≡◌, ◌≢◌, refl, sym, ap, subst, ◌∙◌,
  arith, length, length-set, get_or-set_self,
}
use native.Mathlib.Decide.{dec_lt}
use unvme_cli.Cmd.{
  CmdState, init, allocated, submitted, completed, to_be_completed, no_cmd, Cmd, Sq, Slot, regular,
  conflict, read, write,
}
use unvme_cli.Cmd.Life.{write_others}
use unvme_cli.Cmpl.{Host, cmd_cmpl, put_cqe}
use unvme_cli.Cmpl.Cancel.{put_at, put_slot, and_then, put_slots}
use unvme_cli.Cmpl.Cancel.Complete.{idle, Roomy, Completes, cmd_cmpl-Completes}

-- The owner of a ring, who always pops an entry first.
abbrev pub popping : (ℕ → ℕ) → (ℕ → List ℕ) → ℕ → List ℕ
popping n_of rest k = suc (n_of k) ∷ rest k

module _ {R : Type 0} where
  -- A slot of the array, or the conflict slot.
  abbrev pub In : Sq R → Slot → Type 0
  In q (regular c) = c < length q.cmds
  In q conflict = Unit {0}

  pub read-write_In : (q : Sq R) (s : Slot) (x : Cmd) → In q s → read (write q s x) s ≡ x
  read-write_In q (regular c) x h = get_or-set_self q.cmds c x no_cmd h
  read-write_In q conflict x h = refl

  pub length-write : (q : Sq R) (s : Slot) (x : Cmd) → length (write q s x).cmds ≡ length q.cmds
  length-write q (regular c) x = length-set q.cmds c x
  length-write q conflict x = refl

  -- What one slot's turn leaves behind.
  pub record Turned (u u' : Host R) (sqid : ℕ) (q : Sq R) (s : Slot) : Type 0 where
    pub queue : Sq R
    pub at : u'.sqs sqid ≡ some queue
    pub now_idle : idle (read queue s).state ≡ true
    pub others : (t : Slot) → t ≢ s → read queue t ≡ read q t
    pub size : length queue.cmds ≡ length q.cmds
    pub roomy : Roomy u'

  Completes-Turned :
      (u u' : Host R) (sqid : ℕ) (q : Sq R) (s : Slot)
      → In q s
      → Completes u u' sqid q s
      → Turned u u' sqid q s
  Completes-Turned u u' sqid q s h c = record {
    queue = write q s c.cmd;
    at = ap (λ (f : ℕ → Option (Sq R)). f sqid) c.sqs ∙ ground arith;
    now_idle = rw (read-write_In q s c.cmd h) c.done;
    others = λ t ne. write_others q s c.cmd t ne;
    size = length-write q s c.cmd;
    roomy = c.roomy;
  }

  module _ (sfp sqid : ℕ) where
    -- The branch that a command's state takes.
    put_cqe_by :
        (u : Host R) (q : Sq R) (s : Slot) (pops : List ℕ) (k : CmdState)
        → (read q s).state ≡ k
        → put_cqe sfp u sqid q s pops ≡ (
            let done =
              cmd_cmpl u sqid q s (record { sqid = sqid; cid = (read q s).cid; sfp = sfp }) pops in
            elim k [ submitted ↦ done | allocated ↦ done | _ ↦ some u ])
    unfolding put_cqe
    put_cqe_by u q s pops k e =
        let done =
          cmd_cmpl u sqid q s (record { sqid = sqid; cid = (read q s).cid; sfp = sfp }) pops in
        ap
          (λ (j : CmdState). elim j as (λ x. Option (Host R)) [
            | submitted ↦ done
            | allocated ↦ done
            | _ ↦ some u
          ])
          e

    abbrev TurnedBy : Host R → Sq R → Slot → Option (Host R) → Type 0
    TurnedBy u q s o = (u' : Host R) × (o ≡ some u') × Turned u u' sqid q s

    kept-Turned :
        (u : Host R) (q : Sq R) (s : Slot)
        → u.sqs sqid ≡ some q
        → idle (read q s).state ≡ true
        → Roomy u
        → Turned u u sqid q s
    kept-Turned u q s at quiet h = record {
      queue = q;
      at = at;
      now_idle = quiet;
      others = λ t ne. refl;
      size = refl;
      roomy = h;
    }

    -- A completion of the slot.
    posted-Turned :
        (u : Host R) (q : Sq R) (s : Slot) (n : ℕ) (pops : List ℕ)
        → In q s
        → Roomy u
        → TurnedBy u q s (
            cmd_cmpl u sqid q s
              (record { sqid = sqid; cid = (read q s).cid; sfp = sfp })
              (suc n ∷ pops))
    posted-Turned u q s n pops h roomy =
        let (u', ends, c) =
          cmd_cmpl-Completes u sqid q s (record { sqid = sqid; cid = (read q s).cid; sfp = sfp }) n
            pops roomy in
        (u', ends, Completes-Turned u u' sqid q s h c)

    put_cqe-Turned :
        (u : Host R) (q : Sq R) (s : Slot) (n : ℕ) (pops : List ℕ) (k : CmdState)
        → (read q s).state ≡ k
        → u.sqs sqid ≡ some q
        → In q s
        → Roomy u
        → TurnedBy u q s (put_cqe sfp u sqid q s (suc n ∷ pops))
    put_cqe-Turned u q s n pops submitted e at h roomy =
        subst (TurnedBy u q s) (sym (put_cqe_by u q s (suc n ∷ pops) submitted e))
          (posted-Turned u q s n pops h roomy)
    put_cqe-Turned u q s n pops allocated e at h roomy =
        subst (TurnedBy u q s) (sym (put_cqe_by u q s (suc n ∷ pops) allocated e))
          (posted-Turned u q s n pops h roomy)
    put_cqe-Turned u q s n pops init e at h roomy = (
      u,
      put_cqe_by u q s (suc n ∷ pops) init e,
      kept-Turned u q s at (ap (λ (k : CmdState). idle k) e) roomy,
    )
    put_cqe-Turned u q s n pops completed e at h roomy = (
      u,
      put_cqe_by u q s (suc n ∷ pops) completed e,
      kept-Turned u q s at (ap (λ (k : CmdState). idle k) e) roomy,
    )
    put_cqe-Turned u q s n pops to_be_completed e at h roomy = (
      u,
      put_cqe_by u q s (suc n ∷ pops) to_be_completed e,
      kept-Turned u q s at (ap (λ (k : CmdState). idle k) e) roomy,
    )

    pub put_slot-Turned :
        (u : Host R) (q : Sq R) (s : Slot) (n : ℕ) (pops : List ℕ)
        → u.sqs sqid ≡ some q
        → In q s
        → Roomy u
        → TurnedBy u q s (put_slot sfp u sqid s (suc n ∷ pops))
    unfolding put_slot put_at
    put_slot-Turned u q s n pops at h roomy =
        subst (TurnedBy u q s) (ap (put_at sfp u sqid s (suc n ∷ pops)) (sym at))
          (put_cqe-Turned u q s n pops (read q s).state refl at h roomy)

    -- The pass over `n` slots from slot `i` on.
    pub record Passed (u' : Host R) (q : Sq R) (i n : ℕ) : Type 0 where
      pub queue : Sq R
      pub at : u'.sqs sqid ≡ some queue
      pub all_idle : (j : ℕ) → i ≤ j → j < i + n → idle (read queue (regular j)).state ≡ true
      pub before : (j : ℕ) → j < i → read queue (regular j) ≡ read q (regular j)
      pub size : length queue.cmds ≡ length q.cmds
      pub roomy : Roomy u'

    module _ (n_of : ℕ → ℕ) (rest : ℕ → List ℕ) where
      pub put_slots-Passed :
          (n i : ℕ) (u : Host R) (q : Sq R)
          → u.sqs sqid ≡ some q
          → i + n ≤ length q.cmds
          → Roomy u
          → (u' : Host R) × (put_slots sfp sqid i (popping n_of rest) n u ≡ some u')
            × Passed u' q i n
      unfolding put_slots
      put_slots-Passed zero i u q at h roomy = (
        u,
        refl,
        record {
          queue = q;
          at = at;
          all_idle = λ j l r. absurd (omega arith);
          before = λ j l. refl;
          size = refl;
          roomy = roomy;
        },
      )
      put_slots-Passed (suc n) i u q at h roomy =
          let (u1, one, t) =
            put_slot-Turned u q (regular i) (n_of i) (rest i) at (omega arith) roomy in
          let (u', ends, p) =
            put_slots-Passed n (i + 1) u1 t.queue t.at (omega (arith, t.size)) t.roomy in
          (
            u',
            ap (λ o. and_then o (put_slots sfp sqid (i + 1) (popping n_of rest) n)) one ∙ ends,
            record {
              queue = p.queue;
              at = p.at;
              all_idle = λ j l r. elim (dec_lt i j) [
                | yes later ↦ p.all_idle j (omega arith) (omega arith)
                | no here ↦
                    let same : j ≡ i = omega arith in rw (same, p.before i (omega arith)) t.now_idle
              ];
              before = λ j l.
                  p.before j (omega arith)
                  ∙ t.others (regular j) (λ e.
                    let same : j ≡ i = ap (λ s. elim s [ regular c ↦ c | conflict ↦ j ]) e in
                    absurd (omega arith));
              size = p.size ∙ t.size;
              roomy = p.roomy;
            },
          )
