-- ===== src/Queue/All.antt =====
-- What `unvmed_disable_sq_all` and `__unvmed_delete_sq_all`, and their twins for completion queues,
-- make of each queue.
use native.Mathlib.Decide.{ℕ_discrete}
use unvme_cli.Prelude.{
  ℕ, ◌+◌, ◌-◌, ◌<◌, false, Option, none, some, ◌≡◌, refl, arith, ap, ◌∙◌, ◌==◌, leb, Bool-cases,
  inl, inr, subst,
}
use unvme_cli.Queue.{
  Queue, Table, set_queue, find_in, find_and_get, queue_get, queue_put, disable_found, disable_one,
  disable_all, discard, discard_at, delete_found, delete_one, delete_all,
}
use unvme_cli.Queue.Refs.{
  view, Counted, IsTable, with_refs, store_self, At-Counted, get-At, put_shared,
}
use unvme_cli.Queue.Sweep.{
  Local, Keeps, sweep_lem, Like, Like-self, Like-again, after_put, put-Local,
}

module _ {X : Type 0} where
  abbrev pub off : Queue X → Queue X
  off x = record x { enabled = false }

  abbrev pub detached : Queue X → Queue X
  detached x = record x { q = false }

  -- Each queue disabled.
  abbrev pub disabled : Option (ℕ × Queue X) → Option (ℕ × Queue X)
  disabled none = none
  disabled (some (p, x)) = some (p, off x)

  -- Each queue detached from libvfn and short of one reference; gone if that was the last.
  abbrev pub deleted : Option (ℕ × Queue X) → Option (ℕ × Queue X)
  deleted none = none
  deleted (some (p, x)) = after_put p (detached x)

  disabled-Keeps : Keeps disabled
  disabled-Keeps c none g = g
  disabled-Keeps c (some (p, x)) g = g

  deleted-Keeps : Keeps deleted
  deleted-Keeps c none g = g
  deleted-Keeps c (some (p, x)) g = elim (ℕ_discrete x.refcnt 1) [
    | yes one ↦ rw one tt
    | no more ↦
        let several : (x.refcnt == 1) ≡ false = ground (arith, more) in
        rw several (g.0, omega (arith, g.1, more), omega (arith, g.2))
  ]

  module _ (t : Table X) (qid : ℕ) (v : IsTable t) (r : qid < t.nr) where
    pub get_none : t.slots qid ≡ none → queue_get t qid ≡ (t, none)
    unfolding find_and_get find_in
    get_none e = let in_table : leb t.nr qid ≡ false = ground arith in rw (in_table, e) refl

    untouched :
        (f : Option (ℕ × Queue X) → Option (ℕ × Queue X))
        → f none ≡ none
        → t.slots qid ≡ none
        → Local f t t qid
    untouched f fixed e = record { own = rw (e, fixed) refl; others = λ c r ne. refl; size = refl }

    disable_none : t.slots qid ≡ none → Local disabled t (disable_one t qid) qid
    unfolding disable_one disable_found
    disable_none e = rw (get_none e) (untouched disabled refl e)

    delete_none : t.slots qid ≡ none → Local deleted t (delete_one t qid) qid
    unfolding delete_one delete_found
    delete_none e = rw (get_none e) (untouched deleted refl e)

    relocal :
        (f g : Option (ℕ × Queue X) → Option (ℕ × Queue X)) (t' : Table X)
        → g (view t qid) ≡ f (view t qid)
        → Local g t t' qid
        → Local f t t' qid
    relocal f g t' e l = record { own = l.own ∙ e; others = l.others; size = l.size }

    module _ (p : ℕ) (e : t.slots qid ≡ some p) where
      counted : Counted qid (some (p, t.heap p))
      counted = At-Counted t v qid p (r, e)

      -- The queue with the reference of the sweep.
      abbrev pub up : Queue X
      up = with_refs ((t.heap p).refcnt + 1) (t.heap p)

      abbrev pub t1 : Table X
      t1 = set_queue t p up

      pub t1-Like : Like t t1 p up
      t1-Like = record { slots = λ c. refl; heap = λ z. refl; size = refl }

      pub now1 : t1.heap p ≡ up
      now1 = store_self t.heap p up

      disable_steps : disable_one t qid ≡ (queue_put (set_queue t1 p (off up)) p).0
      unfolding disable_one disable_found
      disable_steps =
          ap disable_found (get-At t v qid p (r, e))
          ∙ ap (λ x. (queue_put (set_queue t1 p (off x)) p).0) now1

      disable_at : Local disabled t (disable_one t qid) qid
      disable_at = rw disable_steps (
          relocal disabled (λ o. after_put p (off up)) (queue_put (set_queue t1 p (off up)) p).0
            same
            (put-Local t v qid p (r, e) (set_queue t1 p (off up)) (off up)
              (Like-again t v qid p (r, e) t1 up (off up) t1-Like) counted.0 (omega arith)
              (omega (arith, counted.2))))
        where
          several : ((t.heap p).refcnt + 1 == 1) ≡ false
          several = ground (arith, counted)

          back : (t.heap p).refcnt + 1 - 1 ≡ (t.heap p).refcnt
          back = omega arith

          same : after_put p (off up) ≡ disabled (view t qid)
          same = rw (e, several, back) refl

      discard-Like :
          (t' : Table X) (x : Queue X) → Like t t' p x → Like t (discard t' qid) p (detached x)
      unfolding discard discard_at
      discard-Like t' x l =
          rw (l.slots qid, e, now)
            (elim (Bool-cases x.q) [
              | inl on ↦ rw on (Like-again t v qid p (r, e) t' x (detached x) l)
              | inr idle ↦ rw idle (subst (Like t t' p) (ap (λ b. record x { q = b }) idle) l)
            ])
        where
          now : t'.heap p ≡ x
          now = Like-self t v qid p (r, e) t' x l

      get_put_back : (queue_put t1 p).0 ≡ set_queue t1 p (t.heap p)
      get_put_back =
          ap (λ k. k.0)
            (put_shared t1 p (rw now1 (omega (arith, counted.1)))
              (rw now1 (omega (arith, counted.2))))
          ∙ ap (λ y. set_queue t1 p (with_refs (y.refcnt - 1) y)) now1
          ∙ ap (λ n. set_queue t1 p (with_refs n (t.heap p))) (omega arith)

      delete_steps : delete_one t qid ≡ (queue_put (discard (set_queue t1 p (t.heap p)) qid) p).0
      unfolding delete_one delete_found
      delete_steps =
          ap (λ k. delete_found k qid) (get-At t v qid p (r, e))
          ∙ ap (λ k. (queue_put (discard k qid) p).0) get_put_back

      delete_at : Local deleted t (delete_one t qid) qid
      delete_at = rw delete_steps (
          relocal deleted (λ o. after_put p (detached x)) (queue_put (discard t2 qid) p).0
            (rw e refl)
            (put-Local t v qid p (r, e) (discard t2 qid) (detached x)
              (discard-Like t2 x (Like-again t v qid p (r, e) t1 up x t1-Like)) counted.0 counted.1
              (omega (arith, counted.2))))
        where
          x : Queue X
          x = t.heap p

          t2 : Table X
          t2 = set_queue t1 p x

  disable_one-Local :
      (t : Table X) (qid : ℕ) → IsTable t → qid < t.nr → Local disabled t (disable_one t qid) qid
  disable_one-Local t qid v r = go (t.slots qid) refl
    where
      go : (o : Option ℕ) → t.slots qid ≡ o → Local disabled t (disable_one t qid) qid
      go none e = disable_none t qid v r e
      go (some p) e = disable_at t qid v r p e

  delete_one-Local :
      (t : Table X) (qid : ℕ) → IsTable t → qid < t.nr → Local deleted t (delete_one t qid) qid
  delete_one-Local t qid v r = go (t.slots qid) refl
    where
      go : (o : Option ℕ) → t.slots qid ≡ o → Local deleted t (delete_one t qid) qid
      go none e = delete_none t qid v r e
      go (some p) e = delete_at t qid v r p e

  -- `unvmed_disable_sq_all` and `unvmed_disable_cq_all` on a table whose queues carry their
  -- identifiers and have between one and 2 ^ 31 - 2 references, which stays so: each queue of the
  -- table is disabled, with its address, its references and all else as before, and no other queue
  -- appears.
  pub disable_all_lem :
      (t : Table X)
      → IsTable t
      → IsTable (disable_all t)
        × ((disable_all t).nr ≡ t.nr)
        × ((qid : ℕ) → qid < t.nr → view (disable_all t) qid ≡ disabled (view t qid))
  unfolding disable_all
  disable_all_lem t v =
      let s =
        sweep_lem disabled disabled-Keeps disable_one disable_one-Local t.nr 0 t v (omega arith) in
      (s.0, s.1, λ qid r. s.2 qid (omega arith) (omega arith))

  -- The loops of `__unvmed_delete_sq_all` and `__unvmed_delete_cq_all` on a table whose queues
  -- carry their identifiers and have between one and 2 ^ 31 - 2 references, which stays so: each
  -- queue of the table is detached from libvfn and has one reference less. It keeps its address
  -- while somebody else holds a reference, and is gone from the table otherwise.
  pub delete_all_lem :
      (t : Table X)
      → IsTable t
      → IsTable (delete_all t)
        × ((delete_all t).nr ≡ t.nr)
        × ((qid : ℕ) → qid < t.nr → view (delete_all t) qid ≡ deleted (view t qid))
  unfolding delete_all
  delete_all_lem t v =
      let s =
        sweep_lem deleted deleted-Keeps delete_one delete_one-Local t.nr 0 t v (omega arith) in
      (s.0, s.1, λ qid r. s.2 qid (omega arith) (omega arith))
