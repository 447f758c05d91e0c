-- ===== src/Queue/Create/Init.antt =====
-- What `unvmed_init_ucq` does, with a queue in the table and without one, and over a reset.
use unvme_cli.Prelude.{
  ℕ, ◌+◌, ◌-◌, ◌<◌, Bool, true, false, Option, none, some, ◌≡◌, ◌≢◌, refl, arith, ap, sym, ◌∙◌,
  ◌==◌, if◌then◌else◌, subst,
}
use unvme_cli.Vcq.Pool.{store}
use unvme_cli.Queue.{Queue, Table, set_queue, queue_put, disable_all, delete_all}
use unvme_cli.Queue.Create.{CqRest, no_cq, enter, set_cq, init_ucq_at, init_ucq}
use unvme_cli.Queue.Refs.{look, view, IsTable, with_refs, get-At, get_put}
use unvme_cli.Queue.Sweep.{Like, Like-again, view-Like, look-Like}
use unvme_cli.Queue.All.{
  up, t1, t1-Like, now1, get_none, off, detached, disabled, deleted, disable_all_lem,
  delete_all_lem,
}

look-apart :
    {X : Type 0} (h : ℕ → Queue X) (p : ℕ) (x y : Queue X) (o : Option ℕ)
    → o ≢ some p
    → look (store (store h p x) p y) o ≡ look h o
look-apart h p x y none ne = refl
look-apart h p x y (some d) ne =
    let apart : p ≢ d = λ e. ne (ap some (sym e)) in
    let other : (p == d) ≡ false = ground (arith, apart) in rw other refl

-- The queue that a caller is given: attached to libvfn, with the parameters of the call.
abbrev pub configured : ℕ → ℕ → ℕ → Queue CqRest → Queue CqRest
configured qsize vector pc x = record x {
  q = true;
  rest = record x.rest { qsize = qsize; vector = vector; pc = pc };
}

module _ (t : Table CqRest) (v : IsTable t) (qid : ℕ) (r : qid < t.nr) (qsize vector pc : ℕ) where
  module _ (p : ℕ) (e : t.slots qid ≡ some p) where
    init_found :
        (memory : Option ℕ)
        → init_ucq t memory qid qsize vector pc ≡ (
            if (t.heap p).enabled then ((queue_put (t1 t qid v r p e) p).0, none) else (
              set_queue (t1 t qid v r p e) p (configured qsize vector pc (up t qid v r p e)),
              some p,
            ))
    unfolding init_ucq init_ucq_at set_cq
    init_found memory =
        ap (λ k. init_ucq_at k memory qid qsize vector pc) (get-At t v qid p (r, e))
        ∙ ap
            (λ x.
              if x.enabled
              then ((queue_put (t1 t qid v r p e) p).0, none)
              else (set_queue (t1 t qid v r p e) p (configured qsize vector pc x), some p))
            (now1 t qid v r p e)

    -- `unvmed_init_ucq` of a queue that is in the table, all of whose queues carry their
    -- identifiers and have between one and 2 ^ 31 - 2 references. If it is enabled the call
    -- returns NULL and every queue is as before. If not, the call returns that queue, with the new
    -- parameters, one reference more, and attached to libvfn; the other queues are as before.
    pub init_ucq_again :
        (memory : Option ℕ)
        → let (t', o) = init_ucq t memory qid qsize vector pc in
          ((t.heap p).enabled ≡ true → (o ≡ none) × ((c : ℕ) → c < t.nr → view t' c ≡ view t c))
          × ((t.heap p).enabled ≡ false
              → (o ≡ some p)
                × (view t' qid
                    ≡ some (
                      p,
                      configured qsize vector pc (with_refs ((t.heap p).refcnt + 1) (t.heap p)),
                    ))
                × ((c : ℕ) → c < t.nr → c ≢ qid → view t' c ≡ view t c))
    init_ucq_again memory = (
      λ on.
          let eq = init_found memory ∙ ap branch on in
          rw eq (
            refl,
            λ c l.
                subst (λ k. view (queue_put k.0 p).0 c ≡ view t c) (get-At t v qid p (r, e))
                  ((get_put t v qid p (r, e)).3 c l),
          ),
      λ idle.
          let eq = init_found memory ∙ ap branch idle in
          rw eq (
            refl,
            view-Like t v qid p (r, e) t2 y t2-Like,
            λ c l ne. look-Like t v qid p (r, e) t2 y c t2-Like l ne,
          ),
    )
      where
        y : Queue CqRest
        y = configured qsize vector pc (up t qid v r p e)

        t2 : Table CqRest
        t2 = set_queue (t1 t qid v r p e) p y

        t2-Like : Like t t2 p y
        t2-Like =
            Like-again t v qid p (r, e) (t1 t qid v r p e) (up t qid v r p e) y
              (t1-Like t qid v r p e)

        branch : Bool → Table CqRest × Option ℕ
        branch b = if b then ((queue_put (t1 t qid v r p e) p).0, none) else (t2, some p)

  -- `unvmed_init_ucq` of an identifier of the table that has no queue, with memory at an address
  -- that no queue of the table has: the call returns a new queue there, disabled, with one
  -- reference and the parameters of the call; the other queues are as before.
  pub init_ucq_new :
      (p : ℕ)
      → t.slots qid ≡ none
      → ((c : ℕ) → t.slots c ≢ some p)
      → let (t', o) = init_ucq t (some p) qid qsize vector pc in
        (o ≡ some p)
        × (view t' qid
            ≡ some (p, configured qsize vector pc (record no_cq { id = qid; refcnt = 1 })))
        × ((c : ℕ) → c < t.nr → c ≢ qid → view t' c ≡ view t c)
  unfolding init_ucq init_ucq_at set_cq enter
  init_ucq_new p e fresh = rw (get_none t qid v r e) (
    refl,
    rw (self qid, self p) refl,
    λ c l ne.
        let other : (qid == c) ≡ false = ground (arith, ne) in
        rw other (
          look-apart t.heap p blank (configured qsize vector pc (store t.heap p blank p))
            (t.slots c) (fresh c)),
  )
    where
      self : (n : ℕ) → (n == n) ≡ true
      self n = ground arith

      blank : Queue CqRest
      blank = record no_cq { id = qid; refcnt = 1 }

-- What a view says of the table.
look_inv :
    {X : Type 0} (h : ℕ → Queue X) (o : Option ℕ) (p : ℕ) (y : Queue X)
    → look h o ≡ some (p, y)
    → (o ≡ some p) × (h p ≡ y)
look_inv h none p y e = cc
look_inv h (some d) p y e = let same : d ≡ p = cc in (ap some same, subst (λ k. h k ≡ y) same cc)

module _ (t : Table CqRest) (v : IsTable t) (qid : ℕ) (r : qid < t.nr) (p : ℕ)
    (e : t.slots qid ≡ some p) where
  -- On a table whose queues carry their identifiers and have between one and 2 ^ 31 - 2
  -- references, a reset that discards the queues (`unvmed_disable_cq_all`,
  -- `__unvmed_delete_cq_all`) and the set-up of a completion queue of the same identifier
  -- afterwards, while somebody else holds a reference to the one from before: the call returns the
  -- same queue, at the same address, with the new parameters and as many references as before the
  -- reset.
  pub reset_keeps_references :
      (memory : Option ℕ) (qsize vector pc : ℕ)
      → 1 < (t.heap p).refcnt
      → let (t', o) = init_ucq (delete_all (disable_all t)) memory qid qsize vector pc in
        (o ≡ some p) × (view t' qid ≡ some (p, configured qsize vector pc (off (t.heap p))))
  reset_keeps_references memory qsize vector pc held =
      let again =
        (init_ucq_again t2 l.0 qid (rw (l.1 ∙ d.1) r) qsize vector pc p inv.0 memory).1
          (ap Queue.enabled inv.1) in
      (
        again.0,
        again.1
            ∙ ap (λ k. some (p, configured qsize vector pc (with_refs (k.refcnt + 1) k))) inv.1
            ∙ ap (λ n. some (p, configured qsize vector pc (with_refs n (off x)))) (omega arith),
      )
    where
      x : Queue CqRest
      x = t.heap p

      t2 : Table CqRest
      t2 = delete_all (disable_all t)

      d :
          IsTable (disable_all t)
          × ((disable_all t).nr ≡ t.nr)
          × ((c : ℕ) → c < t.nr → view (disable_all t) c ≡ disabled (view t c))
      d = disable_all_lem t v

      l :
          IsTable t2
          × (t2.nr ≡ (disable_all t).nr)
          × ((c : ℕ) → c < (disable_all t).nr → view t2 c ≡ deleted (view (disable_all t) c))
      l = delete_all_lem (disable_all t) d.0

      left : Queue CqRest
      left = with_refs (x.refcnt - 1) (detached (off x))

      several : (x.refcnt == 1) ≡ false
      several = ground arith

      seen : view t2 qid ≡ some (p, left)
      seen =
          l.2 qid (rw d.1 r)
          ∙ ap deleted (d.2 qid r)
          ∙ ap (λ o. deleted (disabled (look t.heap o))) e
          ∙ rw several refl

      inv : (t2.slots qid ≡ some p) × (t2.heap p ≡ left)
      inv = look_inv t2.heap (t2.slots qid) p left seen
