-- ===== src/Cmpl/Cancel/Complete.antt =====
-- A completion that cannot get stuck: what `unvmed_cmd_cmpl` does to the commands and the rings when
-- every ring has two slots or more and its owner keeps popping.
use unvme_cli.Prelude.{
  ℕ, zero, suc, ◌<◌, Bool, true, false, Option, none, some, List, ◌∷◌, ◌≡◌, refl, sym, ap, subst,
  ◌∙◌, ◌==◌, leb, Bool-cases, inl, inr, dec32,
}
use unvme_cli.Vcq.Ring.{Cqe, Vcq, push}
use unvme_cli.Vcq.Ring.Inv.{IsRing, push-IsRing}
use unvme_cli.Vcq.Ring.Room.{
  HasRoom, pop_step, pop_step_lem, pop_step-IsRing, pop_step-size, pop_step-HasRoom, push-HasRoom,
}
use unvme_cli.Vcq.Pool.{Pool, store}
use unvme_cli.Cmd.{CmdState, allocated, submitted, to_be_completed, Cmd, Sq, Slot, read, write}
use unvme_cli.Cmpl.{
  Host, wakes, injected_of, pop_n, push_loop, cmd_get_vcq, pushed, push_at, vcq_push, regardless,
  cmd_cmpl_mark, set_cmd, cmd_cmpl_wakeup, count_cmd, cmpl_rest, cmd_cmpl, cmd_count_range,
}

-- A ring with two slots or more.
abbrev pub Wide : Vcq → Type 0
Wide q = IsRing q × (1 < q.qsize)

pop_n-suc : (n : ℕ) (q : Vcq) → pop_n (suc n) q ≡ pop_n n (pop_step q)
unfolding pop_n
pop_n-suc n q = ap (λ (o : Option Vcq). elim o [ none ↦ q | some q' ↦ pop_n n q' ]) (pop_step_lem q)

pop_n-keeps : (n : ℕ) (q : Vcq) → Wide q → HasRoom q → Wide (pop_n n q) × HasRoom (pop_n n q)
unfolding pop_n
pop_n-keeps zero q w room = (w, room)
pop_n-keeps (suc n) q w room =
    subst (λ (r : Vcq). Wide r × HasRoom r) (sym (pop_n-suc n q))
      (pop_n-keeps n (pop_step q) (pop_step-IsRing q w.0, rw (pop_step-size q) w.1)
        (pop_step-HasRoom q w.0 w.1))

pop_n-room : (n : ℕ) (q : Vcq) → Wide q → Wide (pop_n (suc n) q) × HasRoom (pop_n (suc n) q)
pop_n-room n q w =
    subst (λ (r : Vcq). Wide r × HasRoom r) (sym (pop_n-suc n q))
      (pop_n-keeps n (pop_step q) (pop_step-IsRing q w.0, rw (pop_step-size q) w.1)
        (pop_step-HasRoom q w.0 w.1))

-- The push succeeds at its first attempt.
pub push_loop_ends :
    (u_bdf : ℕ) (cqe : Cqe) (injected n : ℕ) (pops : List ℕ) (q : Vcq)
    → Wide q
    → (q' : Vcq) × (push_loop u_bdf cqe injected (suc n ∷ pops) q ≡ some q') × Wide q'
unfolding push_loop
push_loop_ends u_bdf cqe injected n pops q w =
    let r = pop_n-room n q w in
    let done = push-HasRoom (pop_n (suc n) q) u_bdf cqe injected r.0.0 r.1 in
    (
      (push (pop_n (suc n) q) u_bdf cqe injected).0,
      rw done.0 refl,
      (push-IsRing u_bdf cqe injected r.0.0, subst (λ (k : ℕ). 1 < k) (sym done.1) r.0.1),
    )

-- A state in which a command is left alone by a cancellation.
abbrev pub idle : CmdState → Bool
idle submitted = false
idle allocated = false
idle _ = true

Wide-store :
    (heap : ℕ → Vcq) (p : ℕ) (q : Vcq)
    → Wide q
    → ((a : ℕ) → Wide (heap a))
    → (a : ℕ) → Wide (store heap p q a)
Wide-store heap p q w h a = elim (Bool-cases (p == a)) [ inl e ↦ rw e w | inr n ↦ rw n (h a) ]

module _ {R : Type 0} where
  -- Every ring is wide.
  abbrev pub Roomy : Host R → Type 0
  Roomy u = (a : ℕ) → Wide (u.pool.heap a)

  -- What a completion comes to: the queue has one command less to wait for, and the rings stay wide.
  pub record Completes (u u' : Host R) (sqid : ℕ) (q : Sq R) (s : Slot) : Type 0 where
    pub cmd : Cmd
    pub sqs : u'.sqs ≡ store u.sqs sqid (some (write q s cmd))
    pub done : idle cmd.state ≡ true
    pub roomy : Roomy u'

  pushed_ends :
      (u : Host R) (x : Cmd) (cqe : Cqe) (n : ℕ) (pops : List ℕ) (o : Option ℕ)
      → Roomy u
      → (u' : Host R) × (regardless (push_at u x cqe (suc n ∷ pops) o) ≡ some u')
        × (u'.sqs ≡ u.sqs)
        × Roomy u'
  unfolding push_at pushed regardless
  pushed_ends u x cqe n pops none h = (u, refl, refl, h)
  pushed_ends u x cqe n pops (some vcq) h =
      let (q', e, w) =
        push_loop_ends u.u_bdf cqe (injected_of x) n pops (u.pool.heap vcq) (h vcq) in
      (
        record u { pool = record u.pool { heap = store u.pool.heap vcq q' } },
        rw e refl,
        refl,
        Wide-store u.pool.heap vcq q' w h,
      )

  count_keeps :
      (u : Host R) (sqid opcode : ℕ)
      → ((count_cmd u sqid opcode).sqs ≡ u.sqs) × ((count_cmd u sqid opcode).pool ≡ u.pool)
  unfolding count_cmd
  count_keeps u sqid opcode = elim (Bool-cases (leb cmd_count_range opcode)) [
    | inl h ↦ rw h (refl, refl)
    | inr h ↦ rw h (refl, refl)
  ]

  wakeup_case :
      (u : Host R) (sqid : ℕ) (q : Sq R) (s : Slot) (cqe : Cqe) (n : ℕ) (pops : List ℕ) (b : Bool)
      → Roomy u
      → wakes (record (read q s) { state = to_be_completed }) ≡ b
      → (u' : Host R) × (cmpl_rest (cmd_cmpl_wakeup u sqid q s cqe) (read q s) cqe (suc n ∷ pops)
          ≡ some u')
        × Completes u u' sqid q s
  unfolding cmpl_rest cmd_cmpl_wakeup vcq_push
  wakeup_case u sqid q s cqe n pops true h e =
      let x : Cmd = record (cmd_cmpl_mark (record (read q s) { state = to_be_completed }) cqe) {
        completed = true;
      } in
      (
        record (set_cmd u sqid q s x) { nr_cmds = dec32 u.nr_cmds },
        rw e refl,
        record { cmd = x; sqs = refl; done = refl; roomy = h },
      )
  wakeup_case u sqid q s cqe n pops false h e =
      let x : Cmd = record (read q s) { state = to_be_completed } in
      let (u', ends, sqs, roomy) =
        pushed_ends (set_cmd u sqid q s x) (read q s) cqe n pops (cmd_get_vcq u.pool (read q s))
          h in
      (u', rw e ends, record { cmd = x; sqs = sqs; done = refl; roomy = roomy })

  -- `unvmed_cmd_cmpl` returns when the owner of the ring pops at least one entry first.
  pub cmd_cmpl-Completes :
      (u : Host R) (sqid : ℕ) (q : Sq R) (s : Slot) (cqe : Cqe) (n : ℕ) (pops : List ℕ)
      → Roomy u
      → (u' : Host R) × (cmd_cmpl u sqid q s cqe (suc n ∷ pops) ≡ some u') × Completes u u' sqid q s
  unfolding cmd_cmpl
  cmd_cmpl-Completes u sqid q s cqe n pops h =
      let v : Host R = count_cmd u sqid (read q s).opcode in
      let k = count_keeps u sqid (read q s).opcode in
      let (u', ends, c) =
        wakeup_case v sqid q s cqe n pops (wakes (read q s))
          (subst (λ (p : Pool). (a : ℕ) → Wide (p.heap a)) (sym k.1) h) refl in
      (
        u',
        ends,
        record {
          cmd = c.cmd;
          sqs = c.sqs ∙ ap (λ (f : ℕ → Option (Sq R)). store f sqid (some (write q s c.cmd))) k.0;
          done = c.done;
          roomy = c.roomy;
        },
      )
