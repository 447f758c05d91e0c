-- ===== src/Timer/Tests.antt =====
-- The theorems on the timer at a queue with one submitted command.
use unvme_cli.Vcq.Ring.Inv.{IsRing}
use unvme_cli.Timer.Expire.{Sound}
use unvme_cli.Timer.Freeze.{handler_freezes}
use unvme_cli.Prelude.{
  inl, replicate, ℕ, zero, suc, true, false, none, some, List, [], ◌∷◌, ◌≡◌, ◌≤◌, refl, arith, ◌==◌,
  if◌then◌else◌,
}
use unvme_cli.Cmd.{no_cqe, Timespec, submitted, Sq, regular, read}
use unvme_cli.Cmd.Tests.{take_rq, give_rq, in_one, one}
use unvme_cli.Cmd.Refs.{Countable}
use unvme_cli.Cmpl.{Host}
use unvme_cli.Vcq.Ring.{Vcqe, Vcq}
use unvme_cli.Timer.{Timer, timer_update, set_sq, timer_handler}
use unvme_cli.Timer.Handler.{AllWait, handler_waits, handler_disarms}

abbrev at : ℕ → ℕ → Timespec
at s n = record { tv_sec = s; tv_nsec = n }

-- The deadline of the command is second `s` and a half.
abbrev posted : ℕ → Sq (List ℕ)
posted s = record one {
  cmds = record in_one { cid = 0; state = submitted; timeout = at s 500 } ∷ [];
}

abbrev slot : Vcqe
slot = record { cqe = no_cqe; bdf = 0; injected = 0 }

abbrev ring : Vcq
ring = record { qid = 5; qsize = 4; head = 0; tail = 0; slots = replicate 4 slot }

ring-IsRing : IsRing ring
ring-IsRing = ground arith

abbrev host : ℕ → Host (List ℕ)
host s = record {
  sqs = λ i. if i == 3 then some (posted s) else none;
  pool = record {
    slots = λ i. record { qid = i; next = none };
    free_top = none;
    vcq_map = λ i. none;
    heap = λ a. ring;
    vcq_qid = 7;
    errno = 0;
  };
  nr_cmds = 1;
  u_bdf = 256;
  cmd_count = λ i op. 0;
  overrun = false;
}

abbrev armed : Timer
armed = record { active = true; expire = 10; flags = 0; timeout = 30; set = [] }

posted-Countable : (s j : ℕ) → Countable (read (posted s) (regular j))
posted-Countable s zero = omega arith
posted-Countable s (suc j) = omega arith

abbrev now : Timespec
now = at 10 400

posted-AllWait : (s : ℕ) → 10 ≤ s → AllWait now (posted s) 2
posted-AllWait s h zero l p = ground (arith, h)
posted-AllWait s h (suc j) l p = absurd (omega arith)

handler_waits_example :
    (s : ℕ) × (timer_handler take_rq give_rq now 10 15 3 2 (λ i. []) (host 12) (posted 12) armed
      ≡ some (set_sq (host 12) 3 (posted 12), timer_update 10 armed s))
handler_waits_example =
    let r =
      handler_waits take_rq give_rq now 10 15 3 2 (λ i. []) (host 12) (posted 12) armed refl
        (omega arith) (posted-Countable 12) (posted-AllWait 12 (omega arith)) in
    (r.0, r.1)

handler_disarms_example :
    (s : ℕ) × (timer_handler take_rq give_rq now 10 15 3 2 (λ i. []) (host 10) (posted 10) armed
      ≡ some (set_sq (host 10) 3 (posted 10), timer_update 10 armed s))
    × (s ≡ 0)
handler_disarms_example =
    let r =
      handler_disarms take_rq give_rq now 10 15 3 2 (λ i. []) (host 10) (posted 10) armed refl
        (omega arith) (posted-Countable 10) (posted-AllWait 10 (omega arith)) in
    (r.0, r.1, r.2.1 (inl (0, omega arith, refl, refl)))

posted-Sound : (s i : ℕ) → Sound i (read (posted s) (regular i))
posted-Sound s zero = (omega arith, λ p. refl)
posted-Sound s (suc i) = (omega arith, λ p. cc)

handler_freezes_example :
    (u' : Host (List ℕ)) × (t' : Timer) × (timer_handler take_rq give_rq
        (at 20 0)
        20
        15
        3
        2
        (λ i. 1 ∷ [])
        (host 12)
        (posted 12)
        armed
      ≡ some (u', t'))
    × (t'.flags ≡ 1)
handler_freezes_example =
    let r =
      handler_freezes take_rq give_rq (at 20 0) 15 3 (λ i. 0) (λ i. []) 20 2 (host 12) (posted 12)
        armed 0 refl (omega arith) (posted-Sound 12) (λ a. (ring-IsRing, omega arith)) (omega arith)
        refl in
    (r.0, r.1, r.2, r.3)
