-- ===== src/Queue/Refs.antt =====
-- What the calls on one queue do to a table, seen as a map from identifiers to queues.
use native.Mathlib.Decide.{ℕ_discrete}
use unvme_cli.Prelude.{
  ℕ, ◌+◌, ◌-◌, ◌^◌, ◌<◌, true, false, Option, none, some, ◌∷◌, ◌≡◌, ◌≢◌, refl, arith, ap, sym, ◌∙◌,
  ◌==◌, leb, if◌then◌else◌, inc32, dec32, is_pos32, Bool-cases, inl, inr, subst,
}
use unvme_cli.Vcq.Pool.{store}
use unvme_cli.Queue.{
  Queue, Table, set_queue, take_ref, find_in, find_and_get, queue_find, queue_get, free_queue,
  queue_put,
}

module _ {X : Type 0} where
  abbrev pub look : (ℕ → Queue X) → Option ℕ → Option (ℕ × Queue X)
  look heap none = none
  look heap (some p) = some (p, heap p)

  -- The queue that an identifier stands for, with its address.
  abbrev pub view : Table X → ℕ → Option (ℕ × Queue X)
  view t qid = look t.heap (t.slots qid)

  -- A queue in a table carries its identifier, and has at least one reference and room for one more.
  abbrev pub Counted : ℕ → Option (ℕ × Queue X) → Type 0
  Counted qid none = Unit
  Counted qid (some (p, x)) = (x.id ≡ qid) × (0 < x.refcnt) × (x.refcnt + 1 < 2 ^ 31)

  abbrev pub IsTable : Table X → Type 0
  IsTable t = (qid : ℕ) → qid < t.nr → Counted qid (view t qid)

  abbrev pub with_refs : ℕ → Queue X → Queue X
  with_refs n x = record x { refcnt = n }

  pub look-ext : (f g : ℕ → Queue X) → ((z : ℕ) → f z ≡ g z) → (o : Option ℕ) → look f o ≡ look g o
  look-ext f g h none = refl
  look-ext f g h (some p) = ap (λ x. some (p, x)) (h p)

  pub store_twice :
      (f : ℕ → Queue X) (p : ℕ) (x y : Queue X) (z : ℕ) → store (store f p x) p y z ≡ store f p y z
  store_twice f p x y z = elim (Bool-cases (p == z)) [ inl e ↦ rw e refl | inr e ↦ rw e refl ]

  store_same : (f : ℕ → Queue X) (p z : ℕ) → store f p (f p) z ≡ f z
  store_same f p z = ground arith

  pub store_self : (f : ℕ → Queue X) (p : ℕ) (x : Queue X) → store f p x p ≡ x
  store_self f p x = ground arith

  -- The queue at address `p` is the one of `qid`.
  abbrev pub At : Table X → ℕ → ℕ → Type 0
  At t qid p = (qid < t.nr) × (t.slots qid ≡ some p)

  module _ (t : Table X) (v : IsTable t) where
    pub At-Counted : (qid p : ℕ) → At t qid p → Counted qid (some (p, t.heap p))
    At-Counted qid p (r, e) = subst (λ o. Counted qid (look t.heap o)) e (v qid r)

    -- Storing at the address of one queue is not seen through another identifier.
    pub view-store :
        (qid p : ℕ) (at : At t qid p) (c : ℕ) (y : Queue X)
        → c < t.nr
        → c ≢ qid
        → look (store t.heap p y) (t.slots c) ≡ view t c
    view-store qid p at c y r ne = go (t.slots c) refl
      where
        go : (o : Option ℕ) → t.slots c ≡ o → look (store t.heap p y) o ≡ look t.heap o
        go none e = refl
        go (some d) e = elim (ℕ_discrete p d) [
          | yes same ↦ absurd (
              ne (
                sym (At-Counted c d (r, e)).0
                ∙ ap (λ k. (t.heap k).id) (sym same)
                ∙ (At-Counted qid p at).0))
          | no other ↦ ground arith
        ]

    -- `unvmed_sq_get` of a queue in the table.
    pub get-At :
        (qid p : ℕ)
        → At t qid p
        → queue_get t qid ≡ (set_queue t p (with_refs ((t.heap p).refcnt + 1) (t.heap p)), some p)
    unfolding find_and_get find_in take_ref
    get-At qid p (r, e) =
        let g = At-Counted qid p (r, e) in
        let in_table : leb t.nr qid ≡ false = ground arith in
        let alive : ((t.heap p).refcnt == 0) ≡ false = ground (arith, g) in
        let positive : is_pos32 (t.heap p).refcnt ≡ true = ground (arith, g) in
        let up : inc32 (t.heap p).refcnt ≡ (t.heap p).refcnt + 1 = omega (arith, g.1, g.2) in
        rw (in_table, e, alive, positive, up) refl

    found-At : (qid p : ℕ) → At t qid p → find_and_get t qid false ≡ (t, some p)
    unfolding find_and_get find_in take_ref
    found-At qid p (r, e) =
        let g = At-Counted qid p (r, e) in
        let in_table : leb t.nr qid ≡ false = ground arith in
        let alive : ((t.heap p).refcnt == 0) ≡ false = ground (arith, g) in
        rw (in_table, e, alive) refl

  module _ (t : Table X) (p : ℕ) where
    -- A put that leaves references.
    pub put_shared :
        1 < (t.heap p).refcnt
        → (t.heap p).refcnt < 2 ^ 31
        → queue_put t p
          ≡ (set_queue t p (with_refs ((t.heap p).refcnt - 1) (t.heap p)), (t.heap p).refcnt - 1)
    unfolding queue_put
    put_shared many small =
        let down : dec32 (t.heap p).refcnt ≡ (t.heap p).refcnt - 1 = omega arith in
        let alive : ((t.heap p).refcnt - 1 == 0) ≡ false = ground arith in rw (down, alive) refl

    -- The put of the last reference.
    pub put_only :
        (t.heap p).refcnt ≡ 1
        → queue_put t p ≡ (free_queue (set_queue t p (with_refs 0 (t.heap p))) p, 0)
    unfolding queue_put
    put_only one = rw one refl

  module _ (t : Table X) (qid p : ℕ) where
    -- The table after the queue has been freed.
    abbrev pub erased : Queue X → Table X
    erased y = record t {
      heap = store t.heap p y;
      slots = store t.slots qid none;
      admin = if qid == 0 then none else t.admin;
      freed = p ∷ t.freed;
    }

    pub free-erased : (y : Queue X) → y.id ≡ qid → free_queue (set_queue t p y) p ≡ erased y
    unfolding free_queue
    free-erased y e = rw (store_self t.heap p y, e) refl

  module _ (t : Table X) (v : IsTable t) (qid p : ℕ) (at : At t qid p) where
    -- On a table whose queues carry their identifiers and have between one and 2 ^ 31 - 2
    -- references, a get of a queue in the table and a put of the queue that it returns: the get
    -- returns the queue's address and counts one reference more, and the put leaves the count, and
    -- every queue of the table, as they were.
    pub get_put :
        let (t', o) = queue_get t qid in
        let (t'', n) = queue_put t' p in
        (o ≡ some p)
        × ((t'.heap p).refcnt ≡ (t.heap p).refcnt + 1)
        × (n ≡ (t.heap p).refcnt)
        × ((c : ℕ) → c < t.nr → view t'' c ≡ view t c)
    get_put =
        rw
          (
            get-At t v qid p at,
            put_shared t' p (rw e (ground (arith, g))) (rw e (ground (arith, g))),
            e,
          )
          (
            refl,
            refl,
            omega arith,
            λ c r.
                look-ext (set_queue t' p (with_refs (x.refcnt + 1 - 1) x)).heap t.heap back
                  (t.slots c),
          )
      where
        x : Queue X
        x = t.heap p

        t' : Table X
        t' = set_queue t p (with_refs (x.refcnt + 1) x)

        e : t'.heap p ≡ with_refs (x.refcnt + 1) x
        e = store_self t.heap p (with_refs (x.refcnt + 1) x)

        g : Counted qid (some (p, x))
        g = At-Counted t v qid p at

        back : (z : ℕ) → store t'.heap p (with_refs (x.refcnt + 1 - 1) x) z ≡ t.heap z
        back z =
            store_twice t.heap p (with_refs (x.refcnt + 1) x) (with_refs (x.refcnt + 1 - 1) x) z
            ∙ ap (λ n. store t.heap p (with_refs n x) z) (omega arith)
            ∙ store_same t.heap p z

    gone : (y : Queue X) → find_and_get (erased t qid p y) qid false ≡ (erased t qid p y, none)
    unfolding find_and_get find_in
    gone y =
        let in_table : leb t.nr qid ≡ false = ground (arith, at.0) in
        let own : (qid == qid) ≡ true = ground arith in rw (in_table, own) refl

    stays :
        (y : Queue X)
        → (y.refcnt == 0) ≡ false
        → find_and_get (set_queue t p y) qid false ≡ (set_queue t p y, some p)
    unfolding find_and_get find_in take_ref
    stays y alive =
        let in_table : leb t.nr qid ≡ false = ground (arith, at.0) in
        rw (in_table, at.1, store_self t.heap p y, alive) refl

    pub view-erased :
        (c : ℕ) (y : Queue X) → c < t.nr → c ≢ qid → view (erased t qid p y) c ≡ view t c
    view-erased c y r ne =
        let other : (qid == c) ≡ false = ground (arith, ne) in
        rw other (view-store t v qid p at c y r ne)

    -- A put of a queue in a table all of whose queues carry their identifiers and have between one
    -- and 2 ^ 31 - 2 references. The last one frees it: its identifier finds no queue any more.
    -- Any other one takes one reference, and the queue is still found. Either way the put returns
    -- the references that are left, and other identifiers stand for the queues that they did.
    pub queue_put_lem :
        let (t', n) = queue_put t p in
        (n + 1 ≡ (t.heap p).refcnt)
        × ((t.heap p).refcnt ≡ 1 → (t'.freed ≡ p ∷ t.freed) × (queue_find t' qid ≡ none))
        × ((t.heap p).refcnt ≢ 1 → (t'.freed ≡ t.freed) × (queue_find t' qid ≡ some p))
        × ((c : ℕ) → c < t.nr → c ≢ qid → view t' c ≡ view t c)
    queue_put_lem = elim (ℕ_discrete (t.heap p).refcnt 1) [
      | yes one ↦
          rw (put_only t p one, free-erased t qid p (with_refs 0 (t.heap p)) g.0)
            (
              sym one,
              λ o. (refl, ap (λ r. r.1) (gone (with_refs 0 (t.heap p)))),
              λ ne. absurd (ne one),
              λ c r ne. view-erased c (with_refs 0 (t.heap p)) r ne,
            )
      | no more ↦ rw (put_shared t p (omega (arith, g.1)) (omega (arith, g.2))) (
        omega (arith, g.1),
        λ o. absurd (more o),
        λ ne. (
          refl,
          ap (λ r. r.1) (stays (with_refs ((t.heap p).refcnt - 1) (t.heap p)) (ground (arith, g))),
        ),
        λ c r ne. view-store t v qid p at c (with_refs ((t.heap p).refcnt - 1) (t.heap p)) r ne,
      )
    ]
      where
        g : Counted qid (some (p, t.heap p))
        g = At-Counted t v qid p at
