-- ===== src/Queue/Create/InitSq.antt =====
-- What `unvmed_init_usq` does with a submission queue that is in the table.
use unvme_cli.Prelude.{
  ℕ, ◌+◌, ◌<◌, Bool, true, false, Option, none, some, ◌≡◌, ◌≢◌, refl, ap, subst, ◌∙◌, if◌then◌else◌,
}
use unvme_cli.Queue.{Queue, Table, set_queue, queue_put}
use unvme_cli.Queue.Create.{SqRest, CqRest, SqArgs, set_sq, init_usq_at, init_usq}
use unvme_cli.Queue.Refs.{view, IsTable, with_refs, store_self, get-At, get_put}
use unvme_cli.Queue.Sweep.{Like, Like-again, view-Like, look-Like}
use unvme_cli.Queue.All.{up, t1, t1-Like, now1}

-- The queue that a caller is given. The bitmap of identifiers is the one from before.
abbrev pub configured_sq : SqArgs → Queue SqRest → Queue SqRest
configured_sq a x = record x {
  q = true;
  rest = record {
    qsize = a.qsize;
    qprio = a.qprio;
    pc = a.pc;
    nvmsetid = a.nvmsetid;
    flags = 0;
    nr_cmds = 0;
    ucq = some a.ucq;
    cids = x.rest.cids;
  };
}

module _ (t : Table SqRest) (v : IsTable t) (c : Table CqRest) (qid : ℕ) (r : qid < t.nr) (p : ℕ)
    (e : t.slots qid ≡ some p) where
  -- The completion queue that is told its submission queue.
  abbrev told : SqArgs → Table CqRest
  told a =
      set_queue c a.ucq
        (record (c.heap a.ucq) { rest = record (c.heap a.ucq).rest { usq = some p } })

  abbrev again : SqArgs → Table SqRest
  again a = set_queue (t1 t qid v r p e) p (configured_sq a (up t qid v r p e))

  abbrev branch : SqArgs → Bool → (Table SqRest × Table CqRest) × Option ℕ
  branch a b =
      if b then (((queue_put (t1 t qid v r p e) p).0, c), none) else ((again a, told a), some p)

  init_found :
      (memory : Option ℕ) (bits timer : Bool) (a : SqArgs)
      → init_usq t c memory bits timer qid a ≡ branch a (t.heap p).enabled
  unfolding init_usq init_usq_at set_sq
  init_found memory bits timer a =
      ap (λ k. init_usq_at k c memory bits timer qid a) (get-At t v qid p (r, e))
      ∙ ap
          (λ x.
            if x.enabled
            then (((queue_put (t1 t qid v r p e) p).0, c), none)
            else ((set_queue (t1 t qid v r p e) p (configured_sq a x), told a), some p))
          (now1 t qid v r p e)

  -- `unvmed_init_usq` of a queue that is in the table, all of whose queues carry their identifiers
  -- and have between one and 2 ^ 31 - 2 references. If it is enabled the call returns NULL and
  -- every queue is as before. If not, the call returns that queue, with the parameters of the
  -- call, one reference more, no commands and no flags, and the completion queue points to it. Its
  -- bitmap of identifiers keeps its size whatever the new size of the queue is.
  pub init_usq_again :
      (memory : Option ℕ) (bits timer : Bool) (a : SqArgs)
      → let (tables, o) = init_usq t c memory bits timer qid a in
        ((t.heap p).enabled ≡ true
          → (o ≡ none) × (tables.1 ≡ c) × ((d : ℕ) → d < t.nr → view tables.0 d ≡ view t d))
        × ((t.heap p).enabled ≡ false
            → (o ≡ some p)
              × (view tables.0 qid
                  ≡ some (p, configured_sq a (with_refs ((t.heap p).refcnt + 1) (t.heap p))))
              × ((tables.1.heap a.ucq).rest.usq ≡ some p)
              × ((d : ℕ) → d < t.nr → d ≢ qid → view tables.0 d ≡ view t d))
  init_usq_again memory bits timer a = (
    λ on.
        let eq = init_found memory bits timer a ∙ ap (branch a) on in
        rw eq (
          refl,
          refl,
          λ d l.
              subst (λ k. view (queue_put k.0 p).0 d ≡ view t d) (get-At t v qid p (r, e))
                ((get_put t v qid p (r, e)).3 d l),
        ),
    λ idle.
        let eq = init_found memory bits timer a ∙ ap (branch a) idle in
        rw eq (
          refl,
          view-Like t v qid p (r, e) (again a) y like,
          ap (λ x. x.rest.usq)
              (store_self c.heap a.ucq
                (record (c.heap a.ucq) { rest = record (c.heap a.ucq).rest { usq = some p } })),
          λ d l ne. look-Like t v qid p (r, e) (again a) y d like l ne,
        ),
  )
    where
      y : Queue SqRest
      y = configured_sq a (up t qid v r p e)

      like : Like t (again a) p y
      like =
          Like-again t v qid p (r, e) (t1 t qid v r p e) (up t qid v r p e) y
            (t1-Like t qid v r p e)
