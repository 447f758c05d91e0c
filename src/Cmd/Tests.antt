-- ===== src/Cmd/Tests.antt =====
-- The theorems on commands at a queue of two identifiers.
use unvme_cli.Prelude.{
  ℕ, zero, suc, false, Option, none, some, List, [], ◌∷◌, ◌≡◌, refl, arith, get_or, subst,
}
use unvme_cli.Cid.{Bitmap, bit, cid_alloc_n, cid_init}
use unvme_cli.Cid.Inv.{used, IsBitmap}
use unvme_cli.Cid.Init.{cid_init_lem}
use unvme_cli.Cmd.{
  Cmd, allocated, no_cmd, Sq, regular, conflict, alloc_with, alloc_pinned, cmd_alloc, cmd_put,
}
use unvme_cli.Cmd.Inv.{live, IsSq, Resident}
use unvme_cli.Cmd.Life.{cmd_put-IsSq}
use unvme_cli.Cmd.Alloc.{Allotted, cmd_alloc-Allotted}
use unvme_cli.Cmd.Conflict.{conflict_roundtrip}

-- libvfn's requests: a stack of their numbers.
abbrev pub take_rq : List ℕ → Option (ℕ × List ℕ)
take_rq [] = none
take_rq (x ∷ xs) = some (x, xs)

abbrev pub give_rq : ℕ → List ℕ → List ℕ
give_rq x xs = x ∷ xs

abbrev zeroed : Bitmap
zeroed = record { size = 0; nr_bytes = 0; bits = []; top = 0; errno = 0 }

abbrev two : Bitmap
two = record { size = 2; nr_bytes = 1; bits = 0xfc ∷ []; top = 0; errno = 0 }

two-IsBitmap : IsBitmap two
unfolding cid_init
two-IsBitmap = (cid_init_lem zeroed 2 refl (omega arith) (omega arith)).2

abbrev pub idle : Sq (List ℕ)
idle = record {
  cids = two;
  cmds = no_cmd ∷ no_cmd ∷ [];
  conflict_cmds = no_cmd;
  nr_cmds = 0;
  rqs = 70 ∷ 71 ∷ 72 ∷ [];
  log = [];
}

idle_slots : (c : ℕ) → live (get_or idle.cmds c no_cmd) ≡ false
idle_slots zero = refl
idle_slots (suc zero) = refl
idle_slots (suc (suc c)) = refl

idle-Resident : (c : ℕ) → Resident idle.cids c (get_or idle.cmds c no_cmd)
unfolding used bit
idle-Resident zero h = refl
idle-Resident (suc zero) h = refl
idle-Resident (suc (suc c)) h = absurd (omega arith)

pub idle-IsSq : IsSq idle
idle-IsSq = record {
  bitmap = two-IsBitmap;
  slots = omega arith;
  resident = idle-Resident;
  plain = λ c l. absurd (ground (arith, idle_slots c, l));
  special = λ l. absurd (ground (arith, l));
  counted = refl;
}

cmd_alloc-Allotted_example : Allotted idle (cmd_alloc take_rq give_rq idle (some 1) 5)
cmd_alloc-Allotted_example = cmd_alloc-Allotted take_rq give_rq idle-IsSq (some 1) 5

abbrev pub in_one : Cmd
in_one = record no_cmd { refcnt = 1; state = allocated; vcq = 5; cid = 1; rq = some 70 }

-- The queue with identifier 1 in use.
abbrev pub one : Sq (List ℕ)
one = record {
  cids = record two { bits = 0xfe ∷ [] };
  cmds = no_cmd ∷ in_one ∷ [];
  conflict_cmds = no_cmd;
  nr_cmds = 1;
  rqs = 71 ∷ 72 ∷ [];
  log = [];
}

pub one_taken : cmd_alloc take_rq give_rq idle (some 1) 5 ≡ (one, some (regular 1))
unfolding cmd_alloc alloc_pinned alloc_with cid_alloc_n bit
one_taken = refl

pub one-IsSq : IsSq one
one-IsSq =
    (subst (Allotted idle) one_taken (cmd_alloc-Allotted take_rq give_rq idle-IsSq (some 1) 5)).0

cmd_put-IsSq_example : IsSq (cmd_put take_rq give_rq one (regular 1)).0
cmd_put-IsSq_example = cmd_put-IsSq take_rq give_rq one-IsSq (regular 1) refl

conflict_roundtrip_example : (cmd_alloc take_rq give_rq one (some 1) 6).1 ≡ some conflict
unfolding used bit
conflict_roundtrip_example =
    (conflict_roundtrip take_rq give_rq one-IsSq 1 6 (omega arith) refl 71 (72 ∷ []) refl refl).0
