-- ===== src/Timer/Turn.antt =====
-- One command's turn in the first pass: whether it has expired, and the earlier of the deadlines.
use unvme_cli.Prelude.{
  ◌<◌, Bool, true, false, ◌&&◌, ◌||◌, ◌≡◌, ◌⊎◌, refl, sym, subst, ◌∙◌, arith, ◌==◌, if◌then◌else◌,
  Bool-cases, inl, inr,
}
use unvme_cli.Cmd.{Timespec, Cmd}
use unvme_cli.Cmd.Refs.{held}
use unvme_cli.Cmpl.{is_submitted}
use unvme_cli.Timer.{timer_after, cmd_expired}

-- The command takes part in the pass: it is referenced and SUBMITTED.
abbrev pub pending : Cmd → Bool
pending x = held x && is_submitted x.state

-- What a turn makes of a command.
pub view : Timespec → Cmd → Timespec → Bool × Timespec
view now x next = if held x then cmd_expired x now next else (false, next)

-- A point in time, or none.
abbrev pub Valid : Timespec → Type 0
Valid t = t.tv_sec ≡ 0 → t.tv_nsec ≡ 0

-- What a turn says of the command and of the earliest deadline so far.
pub record Turn (now : Timespec) (x : Cmd) (next : Timespec) (r : Bool × Timespec) : Type 0 where
  pub due : r.0 ≡ true → (pending x ≡ true) × (timer_after now x.timeout ≡ true)
  pub waits :
      r.0 ≡ false
      → pending x ≡ true
      → (timer_after now x.timeout ≡ false) × (timer_after r.1 x.timeout ≡ false) × (0 < r.1.tv_sec)
  pub earlier : r.0 ≡ false → 0 < next.tv_sec → (timer_after r.1 next ≡ false) × (0 < r.1.tv_sec)
  pub source : r.0 ≡ false → (r.1 ≡ next) ⊎ ((pending x ≡ true) × (r.1 ≡ x.timeout))
  pub valid : Valid r.1

-- The earlier of the deadline so far and another.
sooner : Timespec → Timespec → Timespec
sooner next t =
    if ((next.tv_sec == 0) && (next.tv_nsec == 0)) || timer_after next t then t else next

pub both_true : (a b : Bool) → (a && b) ≡ true → (a ≡ true) × (b ≡ true)
both_true true b h = (refl, h)
both_true false b h = cc

pub view_held :
    (now : Timespec) (x : Cmd) (next : Timespec)
    → held x ≡ true
    → view now x next ≡ cmd_expired x now next
unfolding view
view_held now x next h = rw h refl

pub view_idle :
    (now : Timespec) (x : Cmd) (next : Timespec)
    → pending x ≡ false
    → view now x next ≡ (false, next)
unfolding view cmd_expired
view_idle now x next h = elim (Bool-cases (held x)) [
  | inr n ↦ rw n refl
  | inl n ↦ let s : is_submitted x.state ≡ false = (sym (rw n refl) ∙ h) in rw (n, s) refl
]

view_due :
    (now : Timespec) (x : Cmd) (next : Timespec)
    → held x ≡ true
    → is_submitted x.state ≡ true
    → timer_after now x.timeout ≡ true
    → view now x next ≡ (true, next)
unfolding view cmd_expired
view_due now x next h s d = rw (h, s, d) refl

view_waits :
    (now : Timespec) (x : Cmd) (next : Timespec)
    → held x ≡ true
    → is_submitted x.state ≡ true
    → timer_after now x.timeout ≡ false
    → view now x next ≡ (false, sooner next x.timeout)
unfolding view cmd_expired sooner
view_waits now x next h s d = rw (h, s, d) ground arith

pub after_trans :
    (a b c : Timespec) → timer_after a b ≡ false → timer_after b c ≡ false → timer_after a c ≡ false
after_trans a b c h k = ground arith

idle-Turn :
    (now : Timespec) (x : Cmd) (next : Timespec)
    → Valid next
    → pending x ≡ false
    → Turn now x next (false, next)
idle-Turn now x next v h = record {
  due = λ e. cc;
  waits = λ e p. cc;
  earlier = λ e p. (ground arith, p);
  source = λ e. inl refl;
  valid = v;
}

due-Turn :
    (now : Timespec) (x : Cmd) (next : Timespec)
    → Valid next
    → pending x ≡ true
    → timer_after now x.timeout ≡ true
    → Turn now x next (true, next)
due-Turn now x next v h d = record {
  due = λ e. (h, d);
  waits = λ e p. cc;
  earlier = λ e p. cc;
  source = λ e. cc;
  valid = v;
}

waits-Turn :
    (now : Timespec) (x : Cmd) (next : Timespec)
    → 0 < now.tv_sec
    → Valid next
    → pending x ≡ true
    → timer_after now x.timeout ≡ false
    → Turn now x next (false, sooner next x.timeout)
unfolding sooner
waits-Turn now x next pos v h d =
    let t = x.timeout in
    let later : 0 < t.tv_sec = ground (arith, d) in
    record {
      due = λ e. cc;
      waits = λ e p. (d, ground (arith, v, later), ground (arith, v, later));
      earlier = λ e p. (ground (arith, later), ground (arith, later));
      source = λ e.
          elim (Bool-cases (((next.tv_sec == 0) && (next.tv_nsec == 0)) || timer_after next t)) [
            | inl b ↦ inr (h, rw b refl)
            | inr b ↦ inl (rw b refl)
          ];
      valid = ground (arith, v, later);
    }

pub view-Turn :
    (now : Timespec) (x : Cmd) (next : Timespec)
    → 0 < now.tv_sec
    → Valid next
    → Turn now x next (view now x next)
view-Turn now x next pos v = elim (Bool-cases (pending x)) [
  | inr p ↦ subst (Turn now x next) (sym (view_idle now x next p)) (idle-Turn now x next v p)
  | inl p ↦
      let (h, s) : (held x ≡ true) × (is_submitted x.state ≡ true) =
        both_true (held x) (is_submitted x.state) p in
      elim (Bool-cases (timer_after now x.timeout)) [
        | inl d ↦
            subst (Turn now x next) (sym (view_due now x next h s d)) (due-Turn now x next v p d)
        | inr d ↦
            subst (Turn now x next) (sym (view_waits now x next h s d))
              (waits-Turn now x next pos v p d)
      ]
]
