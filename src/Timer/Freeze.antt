-- ===== src/Timer/Freeze.antt =====
-- The handler when a command has expired: all that have are completed, and the queue is frozen.
use Prim.Native.Nat.{bit_or}
use native.Mathlib.Decide.{dec_lt}
use unvme_cli.Prelude.{
  ℕ, zero, suc, ◌+◌, ◌-◌, ◌≤◌, ◌<◌, Bool, true, false, ◌||◌, Option, none, some, List, ◌≡◌, ◌≢◌,
  refl, sym, ap, subst, ◌∙◌, arith, ◌==◌, Bool-cases, inl, inr,
}
use unvme_cli.Cmd.{Timespec, Cmd, Sq, regular, conflict, read}
use unvme_cli.Cmpl.{Host}
use unvme_cli.Cmpl.Cancel.Complete.{idle, Roomy}
use unvme_cli.Cmpl.Cancel.Slots.{popping}
use unvme_cli.Timer.Turn.{pending, both_true}
use unvme_cli.Timer.{
  timer_after, no_time, first_pass, Timer, set_sq, expire_in, expire_all, finish, finish_with,
  timer_handler,
}
use unvme_cli.Timer.Expire.{due, Sound, turn_ends}
use unvme_cli.Timer.Scan.{first_pass-Scanned}

regular_inj : (i j : ℕ) → regular i ≡ regular j → i ≡ j
regular_inj i j e = ap (λ s. elim s [ regular c ↦ c | conflict ↦ i ]) e

or_left : (a b : Bool) → a ≡ true → (a || b) ≡ true
or_left true b h = refl
or_left false b h = cc

or_right : (a b : Bool) → b ≡ true → (a || b) ≡ true
or_right true b h = refl
or_right false b h = h

-- Every command in a visited slot that had expired has been completed.
abbrev pub AllDone : {R : Type 0} → Timespec → Sq R → ℕ → ℕ → Host R → Type 0
AllDone now q qsize sqid u =
    (q' : Sq _) × (u.sqs sqid ≡ some q')
    × ((i : ℕ)
        → i < qsize - 1
        → due now (read q (regular i)) ≡ true
        → idle (read q' (regular i)).state ≡ true)

module _ {R : Type 0} (rq_acquire : R → Option (ℕ × R)) (rq_release : ℕ → R → R) (now : Timespec)
    (sfp sqid : ℕ) (n_of : ℕ → ℕ) (rest : ℕ → List ℕ) where
  -- What the turns for `n` slots from `c` on leave.
  record Swept (q : Sq R) (c n : ℕ) (u : Host R) : Type 0 where
    pub queue : Sq R
    pub at : u.sqs sqid ≡ some queue
    pub before : (j : ℕ) → j < c → read queue (regular j) ≡ read q (regular j)
    pub done :
        (j : ℕ)
        → c ≤ j
        → j < c + n
        → due now (read q (regular j)) ≡ true
        → idle (read queue (regular j)).state ≡ true
    pub roomy : Roomy u

  -- The second pass ends, and knows of each command that had expired.
  record Passes (q : Sq R) (c n : ℕ) (u : Host R) (b : Bool) (next : Timespec) : Type 0 where
    pub host : Host R
    pub hit : Bool
    pub last : Timespec
    pub ends :
        expire_all rq_acquire rq_release now sfp sqid (popping n_of rest) n c u b next
        ≡ some (host, hit, last)
    pub swept : Swept q c n host
    pub kept : b ≡ true → hit ≡ true
    pub found : (j : ℕ) → c ≤ j → j < c + n → due now (read q (regular j)) ≡ true → hit ≡ true

  step_case :
      (n c : ℕ) (u u1 : Host R) (q : Sq R) (b d : Bool) (next next1 : Timespec)
      → u.sqs sqid ≡ some q
      → expire_in rq_acquire rq_release now sfp u sqid c next (popping n_of rest c) (some q)
        ≡ some (u1, d, next1)
      → expire_all rq_acquire rq_release now sfp sqid (popping n_of rest) (suc n) c u b next
        ≡ expire_all rq_acquire rq_release now sfp sqid
            (popping n_of rest)
            n
            (c + 1)
            u1
            (d || b)
            next1
  unfolding expire_all
  step_case n c u u1 q b d next next1 at e =
      ap
        (λ (o : Option (Host R × Bool × Timespec)).
          elim o as (λ x. Option (Host R × Bool × Timespec)) [
            | none ↦ none
            | some (w, hit, t) ↦
                expire_all rq_acquire rq_release now sfp sqid (popping n_of rest) n (c + 1) w
                  (hit || b) t
          ])
        (ap (expire_in rq_acquire rq_release now sfp u sqid c next (popping n_of rest c)) at ∙ e)

  all_ends :
      (n c : ℕ) (u : Host R) (q : Sq R) (b : Bool) (next : Timespec)
      → u.sqs sqid ≡ some q
      → ((j : ℕ) → c ≤ j → Sound j (read q (regular j)))
      → Roomy u
      → Passes q c n u b next
  unfolding expire_all
  all_ends zero c u q b next at v roomy = record {
    host = u;
    hit = b;
    last = next;
    ends = refl;
    swept = record {
      queue = q;
      at = at;
      before = λ j l. refl;
      done = λ j l r. absurd (omega arith);
      roomy = roomy;
    };
    kept = λ e. e;
    found = λ j l r. absurd (omega arith);
  }
  all_ends (suc n) c u q b next at v roomy =
      let (u1, next1, e, g) =
        turn_ends rq_acquire rq_release now sfp sqid u q c (n_of c) (rest c) next at
          (v c (omega arith)) roomy in
      let d = due now (read q (regular c)) in
      let apart = λ (j : ℕ) (l : j ≢ c) (k : regular j ≡ regular c). l (regular_inj j c k) in
      let same : (j : ℕ) → j ≢ c → read g.queue (regular j) ≡ read q (regular j) =
        λ j l. g.others (regular j) (apart j l) in
      let p =
        all_ends n (c + 1) u1 g.queue (d || b) next1 g.at
          (λ j l. subst (Sound j) (sym (same j (λ k. absurd (omega arith)))) (v j (omega arith)))
          g.roomy in
      record {
        host = p.host;
        hit = p.hit;
        last = p.last;
        ends = step_case n c u u1 q b d next next1 at e ∙ p.ends;
        swept = record {
          queue = p.swept.queue;
          at = p.swept.at;
          before = λ j l. p.swept.before j (omega arith) ∙ same j (λ k. absurd (omega arith));
          done = λ j l r x. elim (dec_lt c j) [
            | yes later ↦
                p.swept.done j (omega arith) (omega arith)
                  (ap (due now) (same j (λ k. absurd (omega arith))) ∙ x)
            | no here ↦
                let i : j ≡ c = omega arith in
                subst (λ k. idle (read p.swept.queue (regular k)).state ≡ true) (sym i)
                  (ap (λ (y : Cmd). idle y.state) (p.swept.before c (omega arith))
                    ∙ g.done (ap (λ k. due now (read q (regular k))) (sym i) ∙ x))
          ];
          roomy = p.swept.roomy;
        };
        kept = λ t. p.kept (or_right d b t);
        found = λ j l r x. elim (dec_lt c j) [
          | yes later ↦
              p.found j (omega arith) (omega arith)
                (ap (due now) (same j (λ k. absurd (omega arith))) ∙ x)
          | no here ↦
              let i : j ≡ c = omega arith in
              p.kept (or_left d b (ap (λ k. due now (read q (regular k))) (sym i) ∙ x))
        ];
      }

  hit_case :
      (sec_now qsize : ℕ) (u : Host R) (q : Sq R) (t : Timer) (r : Sq R × Bool × Timespec)
      → t.active ≡ true
      → first_pass rq_acquire rq_release now (qsize - 1) 0 q no_time ≡ r
      → r.1 ≡ true
      → timer_handler rq_acquire rq_release now sec_now sfp sqid qsize (popping n_of rest) u q t
        ≡ finish_with now sec_now t (
            expire_all rq_acquire rq_release now sfp sqid
              (popping n_of rest)
              (qsize - 1)
              0
              (set_sq u sqid r.0)
              false
              no_time)
  unfolding timer_handler
  hit_case sec_now qsize u q t r a e m = rw (a, e, m) refl

  finish_flags :
      (sec_now : ℕ) (t : Timer) (next : Timespec)
      → (finish now sec_now t true next).flags ≡ bit_or t.flags 1
  finish_flags sec_now t next = elim (Bool-cases (next.tv_sec == 0)) [
    | inl e ↦ rw e refl
    | inr e ↦ rw e refl
  ]

  finish_case :
      (sec_now : ℕ) (t : Timer) (u : Host R) (b : Bool) (next : Timespec)
      → b ≡ true
      → finish_with now sec_now t (some (u, b, next)) ≡ some (u, finish now sec_now t true next)
  unfolding finish_with
  finish_case sec_now t u b next e = ap (λ c. some (u, finish now sec_now t c next)) e

  -- The timer goes off while it is active and the clock stands after second 0; in the slots that the
  -- handler visits, `cmds[0]` to `cmds[qsize - 2]`, a command that is referenced and SUBMITTED has
  -- expired. Each such command of the array stands under its own identifier, no count of references in
  -- the array is about to overflow, every ring has at least two slots and its owner pops an entry
  -- before each push. Then the handler ends, the queue is flagged as frozen, and none of the commands
  -- in the visited slots that had expired is ALLOCATED or SUBMITTED any more. The conflict slot is not
  -- visited.
  pub handler_freezes :
      (sec_now qsize : ℕ) (u : Host R) (q : Sq R) (t : Timer) (j : ℕ)
      → t.active ≡ true
      → 0 < now.tv_sec
      → ((i : ℕ) → Sound i (read q (regular i)))
      → Roomy u
      → j < qsize - 1
      → due now (read q (regular j)) ≡ true
      → (u' : Host R) × (t' : Timer) × (timer_handler rq_acquire rq_release now sec_now sfp sqid
            qsize
            (popping n_of rest)
            u
            q
            t
          ≡ some (u', t'))
        × (t'.flags ≡ bit_or t.flags 1)
        × AllDone now q qsize sqid u'
  handler_freezes sec_now qsize u q t j a pos v roomy l d =
      let r = first_pass rq_acquire rq_release now (qsize - 1) 0 q no_time in
      let s =
        first_pass-Scanned rq_acquire rq_release now (qsize - 1) 0 q no_time pos (λ e. refl)
          (λ i. omega (arith, (v i).0)) in
      let (pend, late) =
        both_true (pending (read q (regular j))) (timer_after now (read q (regular j)).timeout) d in
      let m : r.1 ≡ true = elim (Bool-cases r.1) [
        | inl e ↦ e
        | inr e ↦ let w = s.waits e j (omega arith) (omega arith) pend in let f = w.0 in cc
      ] in
      let p =
        all_ends (qsize - 1) 0 (set_sq u sqid q) q false no_time (ground arith) (λ i h. v i)
          roomy in
      let all : p.hit ≡ true = p.found j (omega arith) (omega arith) d in
      (
        p.host,
        finish now sec_now t true p.last,
        hit_case sec_now qsize u q t r a refl m
            ∙ ap
                (λ (w : Sq R). finish_with now sec_now t (
                  expire_all rq_acquire rq_release now sfp sqid (popping n_of rest) (qsize - 1) 0
                    (set_sq u sqid w) false no_time))
                s.kept
            ∙ ap (finish_with now sec_now t) p.ends
            ∙ finish_case sec_now t p.host p.hit p.last all,
        finish_flags sec_now t p.last,
        (p.swept.queue, p.swept.at, λ i h e. p.swept.done i (omega arith) (omega arith) e),
      )
