-- ===== src/Queue/Create.antt =====
-- lib/libunvmed.c, `unvmed_init_ucq` and `unvmed_init_usq`: a queue is set up anew, or again after a
-- reset while somebody still holds it. What the calls store for libvfn itself is left out, and the
-- arrays of commands, whose allocation they do not check, are taken to be there.
pub mod Init
pub mod InitSq
use unvme_cli.Prelude.{
  ℕ, ◌+◌, ◌-◌, ◌%◌, ◌^◌, Bool, true, false, not, ◌||◌, Option, none, some, List, [], ◌∷◌, ◌==◌,
  if◌then◌else◌,
}
use unvme_cli.Cid.{Bitmap, cid_init}
use unvme_cli.Vcq.Pool.{store}
use unvme_cli.Queue.{Queue, Table, set_queue, queue_get, queue_put}

-- The fields of a submission queue only; `cmds` is left to `Cmd`.
pub record SqRest : Type 0 where
  pub qsize : ℕ
  pub qprio : ℕ
  pub pc : ℕ
  pub nvmsetid : ℕ
  pub flags : ℕ
  pub nr_cmds : ℕ
  pub ucq : Option ℕ
  pub cids : Bitmap

-- The fields of a completion queue only.
pub record CqRest : Type 0 where
  pub qsize : ℕ
  pub vector : ℕ
  pub pc : ℕ
  pub usq : Option ℕ

-- After `calloc`.
abbrev pub no_sq : Queue SqRest
no_sq = record {
  id = 0;
  q = false;
  enabled = false;
  refcnt = 0;
  rest = record {
    qsize = 0;
    qprio = 0;
    pc = 0;
    nvmsetid = 0;
    flags = 0;
    nr_cmds = 0;
    ucq = none;
    cids = record { size = 0; nr_bytes = 0; bits = []; top = 0; errno = 0 };
  };
}

abbrev pub no_cq : Queue CqRest
no_cq = record {
  id = 0;
  q = false;
  enabled = false;
  refcnt = 0;
  rest = record { qsize = 0; vector = 0; pc = 0; usq = none };
}

module _ {X : Type 0} where
  -- A new queue is entered into the table with the reference of its creator.
  pub enter : Table X → ℕ → ℕ → Queue X → Table X
  enter t p qid x = record t {
    heap = store t.heap p (record x { id = qid; refcnt = 1 });
    slots = store t.slots qid (some p);
    admin = if qid == 0 then some p else t.admin;
  }

-- The fields that `unvmed_init_ucq` sets on each call.
set_cq : Table CqRest → ℕ → ℕ → ℕ → ℕ → Table CqRest
set_cq t p qsize vector pc =
    let x = t.heap p in
    set_queue t p
      (record x { q = true; rest = record x.rest { qsize = qsize; vector = vector; pc = pc } })

init_ucq_at : Table CqRest × Option ℕ → Option ℕ → ℕ → ℕ → ℕ → ℕ → Table CqRest × Option ℕ
unfolding set_cq enter queue_put
init_ucq_at (t, some p) memory qid qsize vector pc =
    if (t.heap p).enabled then ((queue_put t p).0, none) else (set_cq t p qsize vector pc, some p)
init_ucq_at (t, none) none qid qsize vector pc = (t, none)
init_ucq_at (t, none) (some p) qid qsize vector pc =
    (set_cq (enter t p qid no_cq) p qsize vector pc, some p)

-- `unvmed_init_ucq`: `memory` is what `calloc` answers.
pub init_ucq : Table CqRest → Option ℕ → ℕ → ℕ → ℕ → ℕ → Table CqRest × Option ℕ
unfolding init_ucq_at
init_ucq t memory qid qsize vector pc = init_ucq_at (queue_get t qid) memory qid qsize vector pc

-- The arguments of `unvmed_init_usq`.
pub record SqArgs : Type 0 where
  pub qsize : ℕ
  pub ucq : ℕ
  pub qprio : ℕ
  pub pc : ℕ
  pub nvmsetid : ℕ

-- The fields that `unvmed_init_usq` sets on each call, in both queues.
set_sq : Table SqRest × Table CqRest → ℕ → SqArgs → Table SqRest × Table CqRest
set_sq (t, c) p a =
    let x = t.heap p in
    let y = c.heap a.ucq in
    (
      set_queue t p (record x {
        q = true;
        rest = record x.rest {
          nr_cmds = 0;
          qsize = a.qsize;
          qprio = a.qprio;
          pc = a.pc;
          nvmsetid = a.nvmsetid;
          ucq = some a.ucq;
          flags = 0;
        };
      }),
      set_queue c a.ucq (record y { rest = record y.rest { usq = some p } }),
    )

init_usq_at :
    Table SqRest × Option ℕ
    → Table CqRest
    → Option ℕ
    → Bool
    → Bool
    → ℕ
    → SqArgs
    → (Table SqRest × Table CqRest) × Option ℕ
unfolding set_sq enter queue_put
init_usq_at (t, some p) c memory bits timer qid a =
    if (t.heap p).enabled then (((queue_put t p).0, c), none) else (set_sq (t, c) p a, some p)
init_usq_at (t, none) c none bits timer qid a = ((t, c), none)
init_usq_at (t, none) c (some p) bits timer qid a =
    let (cids, done) = cid_init no_sq.rest.cids ((a.qsize + 2 ^ 32 - 1) % 2 ^ 32) bits in
    let x = record no_sq { rest = record no_sq.rest { cids = cids } } in
    if not done || not timer
    then ((record t { freed = p ∷ t.freed }, c), none)
    else (set_sq (enter t p qid x, c) p a, some p)

-- `unvmed_init_usq`: `memory` is what `calloc` of the queue answers, `bits` tells if the one of the
-- bitmap succeeds, `timer` if `unvmed_timer_init` does.
pub init_usq :
    Table SqRest
    → Table CqRest
    → Option ℕ
    → Bool
    → Bool
    → ℕ
    → SqArgs
    → (Table SqRest × Table CqRest) × Option ℕ
unfolding init_usq_at
init_usq t c memory bits timer qid a = init_usq_at (queue_get t qid) c memory bits timer qid a
