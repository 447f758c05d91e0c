-- ===== src/Cmpl/Tests.antt =====
-- The theorems on completions at a queue with one submitted command.
use unvme_cli.Prelude.{
  ℕ, false, none, some, List, [], ◌∷◌, ◌≡◌, ◌≢◌, refl, arith, ◌==◌, if◌then◌else◌, replicate,
}
use unvme_cli.Vcq.Ring.{Cqe, Vcqe, Vcq}
use unvme_cli.Vcq.Ring.Inv.{IsRing}
use unvme_cli.Vcq.Ring.Refine.{contents, walk}
use unvme_cli.Vcq.Pool.{Pool, vcq_get}
use unvme_cli.Cmd.{Cmd, submitted, Sq, regular, write}
use unvme_cli.Cmd.Inv.{IsSq, write-IsSq}
use unvme_cli.Cmd.Tests.{one, one-IsSq, in_one}
use unvme_cli.Cmpl.{Host, lookup, get_cmd_on_reaper, cmd_get_vcq, reap_one}
use unvme_cli.Cmpl.Cancel.{HwCq, cancel_sq}
use unvme_cli.Cmpl.Cancel.Ends.{cancel_sq-Cancelled}
use unvme_cli.Cmpl.Deliver.{reap_wakes, reap_pushes, reap_once}

abbrev out : ℕ → Cmd
out flags = record in_one { state = submitted; flags = flags }

-- The queue with its command submitted, with the flags given.
abbrev sent : ℕ → Sq (List ℕ)
sent flags = write one (regular 1) (out flags)

sent-IsSq : (flags : ℕ) → IsSq (sent flags)
sent-IsSq flags = write-IsSq one-IsSq (regular 1) (out flags) refl refl refl refl

abbrev cqe : Cqe
cqe = record { sqid = 3; cid = 1; sfp = 1 }

abbrev slot : Vcqe
slot = record { cqe = cqe; bdf = 0; injected = 0 }

abbrev ring : Vcq
ring = record { qid = 5; qsize = 4; head = 2; tail = 2; slots = replicate 4 slot }

ring-IsRing : IsRing ring
ring-IsRing = ground arith

abbrev pool : Pool
pool = record {
  slots = λ i. record { qid = i; next = none };
  free_top = some 6;
  vcq_map = λ i. if i == 5 then some 900 else none;
  heap = λ a. ring;
  vcq_qid = 7;
  errno = 0;
}

abbrev host : ℕ → Host (List ℕ)
host flags = record {
  sqs = λ i. if i == 3 then some (sent flags) else none;
  pool = pool;
  nr_cmds = 1;
  u_bdf = 256;
  cmd_count = λ i op. 0;
  overrun = false;
}

found : (flags : ℕ) → lookup (sent flags) 1 ≡ some (regular 1)
unfolding lookup
found flags = refl

reap_wakes_example :
    (u' : Host (List ℕ)) × (q' : Sq (List ℕ)) × (reap_one (host 4) cqe [] ≡ some u')
reap_wakes_example =
    let r = reap_wakes (host 4) cqe (sent 4) (regular 1) (sent-IsSq 4) (refl, found 4) refl [] in
    (r.0, r.1, r.2)

reap_pushes_example :
    (u' : Host (List ℕ)) × (q' : Sq (List ℕ)) × (reap_one (host 0) cqe (0 ∷ []) ≡ some u')
unfolding cmd_get_vcq vcq_get contents walk
reap_pushes_example =
    let r =
      reap_pushes (host 0) cqe (sent 0) (regular 1) 900 (sent-IsSq 0) (refl, found 0) refl refl
        ring-IsRing (λ e. absurd (omega (arith, e))) [] in
    (r.0, r.1, r.2)

-- The host after the entry has woken its waiter.
done : (u' : Host (List ℕ)) × (reap_one (host 4) cqe [] ≡ some u')
done =
    let r = reap_wakes (host 4) cqe (sent 4) (regular 1) (sent-IsSq 4) (refl, found 4) refl [] in
    (r.0, r.2)

reap_once_example : get_cmd_on_reaper done.0 cqe ≢ some (sent 4, regular 1)
reap_once_example =
    reap_once (host 4) cqe (sent 4) (regular 1) (sent-IsSq 4) (refl, found 4) [] done.0 done.1
      (sent 4)

-- A completion queue of two entries whose head is at the last one; the entry there is new.
abbrev hw : HwCq
hw = record { entries = λ i. cqe; qsize = 2; head = 1; phase = 0 }

abbrev pops : ℕ → List ℕ
pops k = 1 ∷ []

cancel_sq-Cancelled_example :
    (u' : Host (List ℕ)) × (cq' : HwCq) × (cancel_sq 3 15 3 3 pops pops (host 0) hw
      ≡ some (u', cq'))
cancel_sq-Cancelled_example =
    let r =
      cancel_sq-Cancelled 3 15 3 3 (λ i. 0) (λ i. 0) (λ i. []) (λ i. []) (host 0) hw (sent 0)
        (omega arith, omega arith) refl (omega arith) (λ a. (ring-IsRing, omega arith))
        (omega arith) in
    (r.0, r.1, r.2)
