-- ===== src/Vcq/Tests.antt =====
-- The theorems on the virtual completion queues at concrete rings and pools.
use unvme_cli.Prelude.{
  ℕ, ◌≤◌, ◌&&◌, ltb, none, some, [], ◌∷◌, ◌≡◌, ◌⊎◌, refl, arith, length, eagain, sub32,
  if◌then◌else◌,
}
use unvme_cli.Vcq.Ring.{Cqe, Vcqe, Vcq, push, pop}
use unvme_cli.Vcq.Ring.Inv.{IsRing}
use unvme_cli.Vcq.Ring.Refine.{contents, walk, push_refines, pop_refines}
use unvme_cli.Vcq.Pool.{Pool, pool_init}
use unvme_cli.Vcq.Pool.Inv.{IsPool, ids_from, pool_init_lem}
use unvme_cli.Vcq.Pool.Race.{acquire_load, acquire_aba}
use unvme_cli.Vcq.Run.{Reaped, run_n}
use unvme_cli.Vcq.Run.Poll.{IsFifo}
use unvme_cli.Vcq.Run.Fifo.{run_n_lem}

abbrev cqe_of : ℕ → Cqe
cqe_of cid = record { sqid = 1; cid = cid; sfp = 0 }

abbrev entry : ℕ → Vcqe
entry cid = record { cqe = cqe_of cid; bdf = 256; injected = 0 }

-- Two entries, the second in slot 0.
abbrev wrapped : Vcq
wrapped = record {
  qid = 1;
  qsize = 3;
  head = 2;
  tail = 1;
  slots = entry 8 ∷ entry 0 ∷ entry 7 ∷ [];
}

wrapped-IsRing : IsRing wrapped
wrapped-IsRing = ground arith

contents-wrapped : contents wrapped ≡ entry 7 ∷ entry 8 ∷ []
unfolding contents walk
contents-wrapped = refl

push-full : push wrapped 256 (cqe_of 9) 0 ≡ (wrapped, eagain)
unfolding push
push-full = refl

push_refines_example : (push wrapped 256 (cqe_of 9) 0).1 ≡ eagain
unfolding contents walk
push_refines_example = ((push_refines 256 (cqe_of 9) 0 wrapped-IsRing).0 refl).1

pop_refines_example :
    (q : Vcq) × (pop (some wrapped) ≡ (some q, some (entry 7), 0))
    × (contents q ≡ entry 8 ∷ [])
    × IsRing q
pop_refines_example = (pop_refines wrapped-IsRing).1 (entry 7) (entry 8 ∷ []) contents-wrapped

-- No queue in use.
abbrev unused : Pool
unused = record {
  slots = λ i. record { qid = 0; next = none };
  free_top = none;
  vcq_map = λ i. none;
  heap = λ i. wrapped;
  vcq_qid = 0xffff_ffff;
  errno = 0;
}

abbrev fresh : IsPool (pool_init unused)
fresh = (pool_init_lem unused (λ i. refl)).0

fresh_free : fresh.free ≡ 1 ∷ 2 ∷ ids_from 4093 3
unfolding ids_from
fresh_free = (pool_init_lem unused (λ i. refl)).1

-- Every identifier in use, each by the queue at the same address.
abbrev crowded : Pool
crowded = record {
  slots = λ i. record { qid = i; next = none };
  free_top = none;
  vcq_map = λ i. if ltb 0 i && ltb i 4096 then some i else none;
  heap = λ i. record wrapped { qid = i };
  vcq_qid = 1;
  errno = 0;
}

abbrev crowded-IsPool : IsPool crowded
crowded-IsPool = record {
  free = [];
  chain = refl;
  distinct = tt;
  bounded = λ i h. ground arith;
  ids = λ i r. refl;
  split = λ i r. ground arith;
  owner = λ i vcq h. ground arith;
}

acquire_aba_example : acquire_load (pool_init unused) ≡ some (1, some 2)
acquire_aba_example = (acquire_aba fresh 1 2 (ids_from 4093 3) fresh_free).0

run_n_lem_example :
    (r : Reaped) × (n : ℕ) × (run_n 5 wrapped 1 2
        ((record { u_bdf = 256; cqe = cqe_of 9; injected = 0 } ∷ []) ∷ [])
      ≡ some (r, n))
    × IsFifo wrapped r
    × (1 ≤ length r.taken)
    × (length r.taken ≤ 2)
    × ((length r.taken ≡ 2) ⊎ (contents r.ring ≡ []))
    × (n ≡ sub32 5 (length r.taken))
run_n_lem_example =
    run_n_lem 5 1 2 ((record { u_bdf = 256; cqe = cqe_of 9; injected = 0 } ∷ []) ∷ [])
      wrapped-IsRing (rw contents-wrapped (omega arith)) (omega arith)
