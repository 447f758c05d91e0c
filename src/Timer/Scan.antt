-- ===== src/Timer/Scan.antt =====
-- The first pass of the handler: it leaves the commands as they are, finds an expired one when there is
-- one, and else the earliest deadline.
use unvme_cli.Prelude.{
  ℕ, zero, suc, ◌+◌, ◌≤◌, ◌<◌, Bool, true, false, Option, ◌≡◌, ◌⊎◌, refl, sym, ap, subst, ◌∙◌,
  arith, if◌then◌else◌, Bool-cases, inl, inr, inc32,
}
use native.Mathlib.Decide.{dec_lt}
use unvme_cli.Cmd.{Timespec, Cmd, Sq, regular, read}
use unvme_cli.Cmd.Refs.{
  Countable, held, taken, read-taken, cmd_get_free, cmd_get_held, cmd_put_taken,
}
use unvme_cli.Timer.{timer_after, cmd_expired, peek_found, peek, first_pass}
use unvme_cli.Timer.Turn.{pending, view, Valid, Turn, view_held, view_idle, view-Turn, after_trans}

module _ {R : Type 0} (rq_acquire : R → Option (ℕ × R)) (rq_release : ℕ → R → R)
    (now : Timespec) where
  peek_lem :
      (q : Sq R) (c : ℕ) (next : Timespec)
      → Countable (read q (regular c))
      → peek rq_acquire rq_release now q c next
        ≡ (q, (view now (read q (regular c)) next).0, (view now (read q (regular c)) next).1)
  unfolding peek peek_found cmd_expired
  peek_lem q c next k =
      let x = read q (regular c) in
      elim (Bool-cases (held x)) [
        | inr h ↦
            let idle : pending x ≡ false = rw h refl in
            ap (λ p. peek_found rq_acquire rq_release now p.0 next p.1) (cmd_get_free q c h)
            ∙ ap (λ (w : Bool × Timespec). (q, w.0, w.1)) (sym (view_idle now x next idle))
        | inl h ↦
            ap (λ p. peek_found rq_acquire rq_release now p.0 next p.1) (cmd_get_held q c k h)
            ∙ ap
                (λ (z : Sq R). (
                  z,
                  (cmd_expired (read (taken q c) (regular c)) now next).0,
                  (cmd_expired (read (taken q c) (regular c)) now next).1,
                ))
                (cmd_put_taken rq_acquire rq_release q c k h)
            ∙ ap (λ (y : Cmd). (q, (cmd_expired y now next).0, (cmd_expired y now next).1))
                (read-taken q.cmds c (record x { refcnt = inc32 x.refcnt }) h)
            ∙ ap (λ (w : Bool × Timespec). (q, w.0, w.1)) (sym (view_held now x next h))
      ]

  -- What the pass over `n` commands from `from` on says, with the earliest deadline so far.
  pub record Scanned (q : Sq R) (from n : ℕ) (next : Timespec) (r : Sq R × Bool × Timespec)
      : Type 0 where
    pub kept : r.0 ≡ q
    pub due :
        r.1 ≡ true
        → (j : ℕ) × (from ≤ j)
          × (j < from + n)
          × (pending (read q (regular j)) ≡ true)
          × (timer_after now (read q (regular j)).timeout ≡ true)
    pub waits :
        r.1 ≡ false
        → (j : ℕ) → from ≤ j
        → j < from + n
        → pending (read q (regular j)) ≡ true
        → (timer_after now (read q (regular j)).timeout ≡ false)
          × (timer_after r.2 (read q (regular j)).timeout ≡ false)
          × (0 < r.2.tv_sec)
    pub earlier : r.1 ≡ false → 0 < next.tv_sec → (timer_after r.2 next ≡ false) × (0 < r.2.tv_sec)
    pub source :
        r.1 ≡ false
        → (r.2 ≡ next)
          ⊎ ((j : ℕ) × (from ≤ j)
              × (j < from + n)
              × (pending (read q (regular j)) ≡ true)
              × (r.2 ≡ (read q (regular j)).timeout))

  hit_case :
      (n c : ℕ) (q : Sq R) (next : Timespec) (hit : Bool) (next' : Timespec)
      → peek rq_acquire rq_release now q c next ≡ (q, hit, next')
      → first_pass rq_acquire rq_release now (suc n) c q next
        ≡ (if hit then (q, true, next') else first_pass rq_acquire rq_release now n (c + 1) q next')
  unfolding first_pass
  hit_case n c q next hit next' e =
      ap
        (λ (r : Sq R × Bool × Timespec).
          if r.1 then (r.0, true, r.2) else first_pass rq_acquire rq_release now n (c + 1) r.0 r.2)
        e

  hit-Scanned :
      (n from : ℕ) (q : Sq R) (next next' : Timespec)
      → Turn now (read q (regular from)) next (true, next')
      → Scanned q from (suc n) next (q, true, next')
  hit-Scanned n from q next next' t = record {
    kept = refl;
    due = λ e. (from, omega arith, omega arith, (t.due refl).0, (t.due refl).1);
    waits = λ e. cc;
    earlier = λ e p. cc;
    source = λ e. cc;
  }

  miss-Scanned :
      (n from : ℕ) (q : Sq R) (next next' : Timespec) (r : Sq R × Bool × Timespec)
      → Turn now (read q (regular from)) next (false, next')
      → Scanned q (from + 1) n next' r
      → Scanned q from (suc n) next r
  miss-Scanned n from q next next' r t s = record {
    kept = s.kept;
    due = λ e. let (j, l, h, p, d) = s.due e in (j, omega arith, omega arith, p, d);
    waits = λ e j l h p. elim (dec_lt from j) [
      | yes later ↦ s.waits e j (omega arith) (omega arith) p
      | no here ↦
          let same : j ≡ from = omega arith in
          let w = t.waits refl (subst (λ i. pending (read q (regular i)) ≡ true) same p) in
          let b = s.earlier e w.2 in
          subst
            (λ i.
              (timer_after now (read q (regular i)).timeout ≡ false)
              × (timer_after r.2 (read q (regular i)).timeout ≡ false)
              × (0 < r.2.tv_sec))
            (sym same) (w.0, after_trans r.2 next' (read q (regular from)).timeout b.0 w.1, b.1)
    ];
    earlier = λ e p.
        let w = t.earlier refl p in
        let b = s.earlier e w.1 in (after_trans r.2 next' next b.0 w.0, b.1);
    source = λ e. elim (s.source e) [
      | inl a ↦ elim (t.source refl) [
        | inl b ↦ inl (a ∙ b)
        | inr (p, b) ↦ inr (from, omega arith, omega arith, p, a ∙ b)
      ]
      | inr (j, l, h, p, b) ↦ inr (j, omega arith, omega arith, p, b)
    ];
  }

  -- The pass as a whole.
  pub first_pass-Scanned :
      (n from : ℕ) (q : Sq R) (next : Timespec)
      → 0 < now.tv_sec
      → Valid next
      → ((j : ℕ) → Countable (read q (regular j)))
      → Scanned q from n next (first_pass rq_acquire rq_release now n from q next)
  unfolding first_pass
  first_pass-Scanned zero from q next pos v k = record {
    kept = refl;
    due = λ e. cc;
    waits = λ e j l r. absurd (omega arith);
    earlier = λ e p. (ground arith, p);
    source = λ e. inl refl;
  }
  first_pass-Scanned (suc n) from q next pos v k =
      let x = read q (regular from) in
      let w = view now x next in
      let t = view-Turn now x next pos v in
      let step = hit_case n from q next w.0 w.1 (peek_lem q from next (k from)) in
      elim (Bool-cases w.0) [
        | inl h ↦
            subst (Scanned q from (suc n) next) (sym (step ∙ rw h refl))
              (hit-Scanned n from q next w.1 (subst (λ b. Turn now x next (b, w.1)) h t))
        | inr h ↦ subst (Scanned q from (suc n) next) (sym (step ∙ rw h refl)) (
            miss-Scanned n from q next w.1 (first_pass rq_acquire rq_release now n (from + 1) q w.1)
              (subst (λ b. Turn now x next (b, w.1)) h t)
              (first_pass-Scanned n (from + 1) q w.1 pos t.valid k))
      ]
