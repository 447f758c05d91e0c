-- ===== src/Queue/Sweep.antt =====
-- The sweeps over all queues of a table, seen as one change of each queue that is there.
use native.Mathlib.Decide.{ℕ_discrete}
use unvme_cli.Prelude.{
  ℕ, zero, suc, ◌+◌, ◌-◌, ◌^◌, ◌≤◌, ◌<◌, true, false, Option, none, some, ◌≡◌, ◌≢◌, refl, arith, ap,
  sym, ◌∙◌, ◌==◌, if◌then◌else◌, Bool-cases, inl, inr, subst,
}
use unvme_cli.Vcq.Pool.{store}
use unvme_cli.Queue.{Queue, Table, set_queue, queue_put, sweep}
use unvme_cli.Queue.Refs.{
  look, look-ext, view, Counted, IsTable, At, with_refs, store_self, view-store, put_shared,
  put_only, free-erased,
}

module _ {X : Type 0} where
  -- One queue is changed by `f`; the table is as it was otherwise.
  pub record Local (f : Option (ℕ × Queue X) → Option (ℕ × Queue X)) (t t' : Table X) (qid : ℕ)
      : Type 0 where
    pub own : view t' qid ≡ f (view t qid)
    pub others : (c : ℕ) → c < t.nr → c ≢ qid → view t' c ≡ view t c
    pub size : t'.nr ≡ t.nr

  -- A change under which a queue stays counted.
  abbrev pub Keeps : (Option (ℕ × Queue X) → Option (ℕ × Queue X)) → Type 0
  Keeps f = (c : ℕ) (o : Option (ℕ × Queue X)) → Counted c o → Counted c (f o)

  module _ (f : Option (ℕ × Queue X) → Option (ℕ × Queue X)) (keeps : Keeps f) where
    Local-IsTable : (t t' : Table X) (qid : ℕ) → IsTable t → Local f t t' qid → IsTable t'
    Local-IsTable t t' qid v l c r = elim (ℕ_discrete c qid) [
      | yes e ↦ rw (e, l.own) (keeps qid (view t qid) (v qid (rw (← e, ← l.size) r)))
      | no ne ↦ rw (l.others c (rw (← l.size) r) ne) (v c (rw (← l.size) r))
    ]

    module _ (step : Table X → ℕ → Table X)
        (step_local : (t : Table X) (qid : ℕ)
          → IsTable t
          → qid < t.nr
          → Local f t (step t qid) qid) where
      pub sweep_lem :
          (k qid : ℕ) (t : Table X)
          → IsTable t
          → qid + k ≤ t.nr
          → let t' = sweep step k qid t in
            IsTable t'
            × (t'.nr ≡ t.nr)
            × ((c : ℕ) → qid ≤ c → c < qid + k → view t' c ≡ f (view t c))
            × ((c : ℕ) → c < t.nr → c < qid → view t' c ≡ view t c)
      unfolding sweep
      sweep_lem zero qid t v h = (v, refl, λ c a b. absurd (omega arith), λ c r b. refl)
      sweep_lem (suc k) qid t v h =
          let l = step_local t qid v (omega arith) in
          let t1 = step t qid in
          let w = Local-IsTable t t1 qid v l in
          let ih = sweep_lem k (qid + 1) t1 w (rw l.size (omega arith)) in
          (
            ih.0,
            ih.1 ∙ l.size,
            λ c a b. elim (ℕ_discrete c qid) [
              | yes e ↦
                  ih.3 c (rw l.size (omega arith)) (omega arith)
                  ∙ subst (λ k. view t1 k ≡ f (view t k)) (sym e) l.own
              | no ne ↦ ih.2 c (omega arith) (omega arith) ∙ ap f (l.others c (omega arith) ne)
            ],
            λ c r b. ih.3 c (rw l.size r) (omega arith) ∙ l.others c r (λ e. absurd (omega arith)),
          )

  -- `t'` is `t` with another queue at address `p`.
  pub record Like (t t' : Table X) (p : ℕ) (x : Queue X) : Type 0 where
    pub slots : (c : ℕ) → t'.slots c ≡ t.slots c
    pub heap : (z : ℕ) → t'.heap z ≡ store t.heap p x z
    pub size : t'.nr ≡ t.nr

  abbrev pub after_put : ℕ → Queue X → Option (ℕ × Queue X)
  after_put p x = if x.refcnt == 1 then none else some (p, with_refs (x.refcnt - 1) x)

  module _ (t : Table X) (v : IsTable t) (qid p : ℕ) (at : At t qid p) where
    pub Like-self : (t' : Table X) (x : Queue X) → Like t t' p x → t'.heap p ≡ x
    Like-self t' x l = l.heap p ∙ store_self t.heap p x

    -- A further store at the same address.
    pub Like-again : (t' : Table X) (x y : Queue X) → Like t t' p x → Like t (set_queue t' p y) p y
    Like-again t' x y l = record {
      slots = l.slots;
      heap = λ z. elim (Bool-cases (p == z)) [
        | inl e ↦ rw e refl
        | inr e ↦ rw e (l.heap z ∙ rw e refl)
      ];
      size = l.size;
    }

    pub look-Like :
        (t' : Table X) (x : Queue X) (c : ℕ)
        → Like t t' p x
        → c < t.nr
        → c ≢ qid
        → look t'.heap (t'.slots c) ≡ view t c
    look-Like t' x c l r ne =
        ap (look t'.heap) (l.slots c)
        ∙ look-ext t'.heap (store t.heap p x) l.heap (t.slots c)
        ∙ view-store t v qid p at c x r ne

    pub view-Like : (t' : Table X) (x : Queue X) → Like t t' p x → view t' qid ≡ some (p, x)
    view-Like t' x l =
        ap (look t'.heap) (l.slots qid ∙ at.1) ∙ ap (λ y. some (p, y)) (Like-self t' x l)

    pub put-Local :
        (t' : Table X) (x : Queue X)
        → Like t t' p x
        → x.id ≡ qid
        → 0 < x.refcnt
        → x.refcnt < 2 ^ 31
        → Local (λ o. after_put p x) t (queue_put t' p).0 qid
    put-Local t' x l own pos small = elim (ℕ_discrete x.refcnt 1) [
      | yes one ↦
          rw
            (
              put_only t' p (ap Queue.refcnt now ∙ one),
              free-erased t' qid p (with_refs 0 (t'.heap p)) (ap Queue.id now ∙ own),
            )
            (record {
              own = rw (one, self) refl;
              others = λ c r ne.
                  let other : (qid == c) ≡ false = ground (arith, ne) in
                  rw other (
                    look-Like (set_queue t' p (with_refs 0 (t'.heap p))) (with_refs 0 (t'.heap p)) c
                      (Like-again t' x (with_refs 0 (t'.heap p)) l) r ne);
              size = l.size;
            })
      | no more ↦
          let several : (x.refcnt == 1) ≡ false = ground (arith, more) in
          rw (put_shared t' p (rw now (omega (arith, more))) (rw now small), several, now)
            (record {
              own = rw (l.slots qid, at.1, store_self t'.heap p (with_refs (x.refcnt - 1) x)) refl;
              others = λ c r ne.
                  look-Like (set_queue t' p (with_refs (x.refcnt - 1) x))
                    (with_refs (x.refcnt - 1) x) c (Like-again t' x (with_refs (x.refcnt - 1) x) l)
                    r ne;
              size = l.size;
            })
    ]
      where
        now : t'.heap p ≡ x
        now = Like-self t' x l

        self : (qid == qid) ≡ true
        self = ground arith
