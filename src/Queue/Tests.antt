-- ===== src/Queue/Tests.antt =====
-- The theorems on queue tables at a table of three identifiers.
use unvme_cli.Prelude.{
  ℕ, zero, suc, ◌<◌, Bool, true, Option, none, some, [], ◌≡◌, ◌≢◌, refl, arith, ◌==◌, if◌then◌else◌,
}
use unvme_cli.Queue.{Queue, Table, disable_all, delete_all}
use unvme_cli.Queue.Create.{CqRest, SqRest, SqArgs, no_sq, init_ucq}
use unvme_cli.Queue.Refs.{view, IsTable}
use unvme_cli.Queue.All.{delete_all_lem}
use unvme_cli.Queue.Create.Init.{init_ucq_again, reset_keeps_references}

abbrev cq : ℕ → Bool → ℕ → Queue CqRest
cq id enabled refcnt = record {
  id = id;
  q = true;
  enabled = enabled;
  refcnt = refcnt;
  rest = record { qsize = 8; vector = 1; pc = 1; usq = none };
}

abbrev slots : ℕ → Option ℕ
slots zero = some 100
slots (suc zero) = some 101
slots (suc (suc c)) = none

abbrev heap : ℕ → Queue CqRest
heap p = if p == 100 then cq 0 true 1 else cq 1 true 2

-- The admin queue, one queue that an application holds too, and one free identifier.
abbrev three : Table CqRest
three = record { nr = 3; slots = slots; heap = heap; admin = some 100; freed = [] }

three-IsTable : IsTable three
three-IsTable zero r = (refl, omega arith, omega arith)
three-IsTable (suc zero) r = (refl, omega arith, omega arith)
three-IsTable (suc (suc zero)) r = tt
three-IsTable (suc (suc (suc c))) r = absurd (omega arith)

delete_all_lem_example : view (delete_all three) 0 ≡ none
delete_all_lem_example = (delete_all_lem three three-IsTable).2 0 (omega arith)

init_ucq_again_example : (init_ucq three none 1 16 2 1).1 ≡ none
init_ucq_again_example =
    ((init_ucq_again three three-IsTable 1 (omega arith) 16 2 1 101 refl none).0 refl).0

some_apart : (a b : ℕ) → a < b → ¬ (some a ≡ some b)
some_apart a b l e = let same : a ≡ b = cc in absurd (omega arith)

unused : (c : ℕ) → slots c ≢ some 102
unused zero e = some_apart 100 102 (omega arith) e
unused (suc zero) e = some_apart 101 102 (omega arith) e
unused (suc (suc c)) e = cc

reset_keeps_references_example :
    (init_ucq (delete_all (disable_all three)) none 1 16 2 1).1 ≡ some 101
reset_keeps_references_example =
    (reset_keeps_references three three-IsTable 1 (omega arith) 101 refl none 16 2 1
      (omega arith)).0

-- One submission queue that has been disabled, and its set-up with twice the size.
abbrev sqs : Table SqRest
sqs = record {
  nr = 1;
  slots = λ c. some 200;
  heap = λ a. record no_sq { refcnt = 2; rest = record no_sq.rest { qsize = 8 } };
  admin = some 200;
  freed = [];
}

sqs-IsTable : IsTable sqs
sqs-IsTable zero r = (refl, omega arith, omega arith)
sqs-IsTable (suc c) r = absurd (omega arith)

abbrev twice : SqArgs
twice = record { qsize = 16; ucq = 100; qprio = 0; pc = 1; nvmsetid = 0 }
