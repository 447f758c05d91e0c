-- ===== src/Timer/Handler.antt =====
-- The handler when no command that it visits has expired: it only sets the timer anew. It visits the
-- slots `cmds[0]` to `cmds[qsize - 2]`; the conflict slot is none of them.
use unvme_cli.Prelude.{
  ℕ, ◌↔◌, sym, ◌+◌, ◌-◌, ◌≤◌, ◌<◌, Bool, true, false, Option, some, List, ◌≡◌, ◌⊎◌, refl, ap, ◌∙◌,
  arith, ◌==◌, Bool-cases, inl, inr,
}
use unvme_cli.Cmd.{Timespec, Sq, regular, read}
use unvme_cli.Cmd.Refs.{Countable}
use unvme_cli.Cmpl.{Host}
use unvme_cli.Timer.{
  timer_after, no_time, first_pass, Timer, timer_update, set_sq, rearm, timer_handler,
}
use unvme_cli.Timer.Turn.{pending}
use unvme_cli.Timer.Scan.{Scanned, first_pass-Scanned}

module _ {R : Type 0} where
  -- No command in a slot that the handler visits is referenced and SUBMITTED.
  abbrev pub Quiet : Sq R → ℕ → Type 0
  Quiet q qsize = (j : ℕ) → j < qsize - 1 → pending (read q (regular j)) ≡ false

module _ {R : Type 0} (now : Timespec) where
  -- No command in a visited slot that takes part in the pass has expired.
  abbrev pub AllWait : Sq R → ℕ → Type 0
  AllWait q qsize =
      (j : ℕ)
      → j < qsize - 1
      → pending (read q (regular j)) ≡ true
      → timer_after now (read q (regular j)).timeout ≡ false

  -- `s` seconds from now is the earliest deadline of such commands in the visited slots, in whole seconds.
  abbrev pub Earliest : Sq R → ℕ → ℕ → Type 0
  Earliest q qsize s =
      ((j : ℕ)
        → j < qsize - 1
        → pending (read q (regular j)) ≡ true
        → now.tv_sec + s ≤ (read q (regular j)).timeout.tv_sec)
      × ((j : ℕ) × (j < qsize - 1)
          × (pending (read q (regular j)) ≡ true)
          × (now.tv_sec + s ≡ (read q (regular j)).timeout.tv_sec))

  -- Some referenced and SUBMITTED command in a visited slot has its deadline in the second of the clock.
  abbrev pub DueThisSecond : Sq R → ℕ → Type 0
  DueThisSecond q qsize =
      (j : ℕ) × (j < qsize - 1)
      × (pending (read q (regular j)) ≡ true)
      × ((read q (regular j)).timeout.tv_sec ≡ now.tv_sec)

module _ {R : Type 0} (rq_acquire : R → Option (ℕ × R)) (rq_release : ℕ → R → R)
    (now : Timespec) where
  none_hit :
      (q : Sq R) (n : ℕ) (next : Timespec) (r : Sq R × Bool × Timespec)
      → Scanned rq_acquire rq_release now q 0 n next r
      → ((j : ℕ)
          → j < n
          → pending (read q (regular j)) ≡ true
          → timer_after now (read q (regular j)).timeout ≡ false)
      → r.1 ≡ false
  none_hit q n next r s h = elim (Bool-cases r.1) [
    | inr e ↦ e
    | inl e ↦ let (j, l, m, p, d) = s.due e in let w = h j (omega arith) p in cc
  ]

  handler_case :
      (sec_now sfp sqid qsize : ℕ) (owner : ℕ → List ℕ) (u : Host R) (q : Sq R) (t : Timer)
      (r : Sq R × Bool × Timespec)
      → t.active ≡ true
      → first_pass rq_acquire rq_release now (qsize - 1) 0 q no_time ≡ r
      → r.1 ≡ false
      → timer_handler rq_acquire rq_release now sec_now sfp sqid qsize owner u q t
        ≡ some (set_sq u sqid r.0, rearm now sec_now t r.2)
  unfolding timer_handler
  handler_case sec_now sfp sqid qsize owner u q t r a e m = rw (a, e, m) refl

  -- The timer goes off while it is active, the clock stands after second 0, and no count of references
  -- in the array of commands is about to overflow. Of the commands in the slots that the handler
  -- visits, `cmds[0]` to `cmds[qsize - 2]`, those that are referenced and SUBMITTED have not expired.
  -- Then the handler leaves all commands as they are and sets the timer: to the earliest deadline of
  -- such a command in these slots, counted in whole seconds, and to the time-out of the controller when
  -- there is none in them. A command in the conflict slot, whatever its deadline, plays no part.
  pub handler_waits :
      (sec_now sfp sqid qsize : ℕ) (owner : ℕ → List ℕ) (u : Host R) (q : Sq R) (t : Timer)
      → t.active ≡ true
      → 0 < now.tv_sec
      → ((j : ℕ) → Countable (read q (regular j)))
      → AllWait now q qsize
      → (s : ℕ) × (timer_handler rq_acquire rq_release now sec_now sfp sqid qsize owner u q t
          ≡ some (set_sq u sqid q, timer_update sec_now t s))
        × (((s ≡ t.timeout) × Quiet q qsize) ⊎ Earliest now q qsize s)
  handler_waits sec_now sfp sqid qsize owner u q t a pos k w =
      let r = first_pass rq_acquire rq_release now (qsize - 1) 0 q no_time in
      let s =
        first_pass-Scanned rq_acquire rq_release now (qsize - 1) 0 q no_time pos (λ e. refl) k in
      let m = none_hit q (qsize - 1) no_time r s w in
      let run =
        handler_case sec_now sfp sqid qsize owner u q t r a refl m
        ∙ ap (λ (p : Sq R). some (set_sq u sqid p, rearm now sec_now t r.2)) s.kept in
      elim (Bool-cases (r.2.tv_sec == 0)) [
        | inl z ↦ (
          t.timeout,
          run ∙ rw z refl,
          inl (
            refl,
            λ j l. elim (Bool-cases (pending (read q (regular j)))) [
              | inr n ↦ n
              | inl p ↦
                  let b = s.waits m j (omega arith) (omega arith) p in
                  absurd (ground (arith, b.2, z))
            ],
          ),
        )
        | inr z ↦ (
          r.2.tv_sec - now.tv_sec,
          run ∙ rw z refl,
          inr (
            λ j l p. let b = s.waits m j (omega arith) (omega arith) p in ground (arith, b.0, b.1),
            elim (s.source m) [
              | inl e ↦ absurd (ground (arith, ap (λ v. v.tv_sec) e, z))
              | inr (j, l, h, p, e) ↦
                  let b = s.waits m j l h p in
                  (j, omega arith, p, ground (arith, b.0, ap (λ v. v.tv_sec) e))
            ],
          ),
        )
      ]

  -- The timer goes off while it is active, the clock stands after second 0, and no count of references
  -- in the array of commands is about to overflow. Of the commands in the slots that the handler
  -- visits, `cmds[0]` to `cmds[qsize - 2]`, those that are referenced and SUBMITTED have not expired.
  -- Then the handler leaves all commands as they are and sets the timer to some number of seconds,
  -- which is 0 exactly in two cases: such a command in these slots has its deadline in the second that
  -- the clock stands at, or there is no such command and the controller's time-out is 0.
  pub handler_disarms :
      (sec_now sfp sqid qsize : ℕ) (owner : ℕ → List ℕ) (u : Host R) (q : Sq R) (t : Timer)
      → t.active ≡ true
      → 0 < now.tv_sec
      → ((i : ℕ) → Countable (read q (regular i)))
      → AllWait now q qsize
      → (s : ℕ) × (timer_handler rq_acquire rq_release now sec_now sfp sqid qsize owner u q t
          ≡ some (set_sq u sqid q, timer_update sec_now t s))
        × ((s ≡ 0) ↔ (DueThisSecond now q qsize ⊎ ((t.timeout ≡ 0) × Quiet q qsize)))
  handler_disarms sec_now sfp sqid qsize owner u q t a pos k w =
      let (s, run, c) = handler_waits sec_now sfp sqid qsize owner u q t a pos k w in
      (
        s,
        run,
        (
          λ z. elim c [
            | inl (same, quiet) ↦ inr (sym same ∙ z, quiet)
            | inr (before, (j, l, p, e)) ↦ inl (j, l, p, omega (arith, e, z))
          ],
          λ d. elim d [
            | inl (j, l, p, e) ↦ elim c [
              | inl (same, quiet) ↦ let n = quiet j l in cc
              | inr (before, at) ↦ omega (arith, before j l p, e)
            ]
            | inr (z, quiet) ↦ elim c [
              | inl (same, none) ↦ same ∙ z
              | inr (before, (j, l, p, e)) ↦ let n = quiet j l in cc
            ]
          ],
        ),
      )
