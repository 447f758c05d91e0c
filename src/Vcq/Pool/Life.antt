-- ===== src/Vcq/Pool/Life.antt =====
-- The life of an identifier: `unvmed_vcq_init` takes it, `unvmed_vcq_get` finds its queue, and
-- `unvmed_vcq_free` gives it back.
use unvme_cli.Prelude.{
  ℕ, false, Option, none, some, List, [], ◌∷◌, ◌≡◌, ◌≢◌, refl, arith, enospc, enomem, ◌∙◌, ap,
}
use unvme_cli.Vcq.Ring.{Vcqe}
use unvme_cli.Vcq.Pool.{
  Slot, Pool, store, take_slot, acquire, release, vcq_get, init_with, vcq_init, vcq_free,
}
use unvme_cli.Vcq.Pool.Inv.{Chain, member, Distinct, is_none, InRange, IsPool}

-- Storing into a slot that is not on the stack does not change the stack.
Chain-store :
    (is : List ℕ) (slots : ℕ → Slot) (top : Option ℕ) (i : ℕ) (v : Slot)
    → member i is ≡ false
    → Chain slots top is
    → Chain (store slots i v) top is
Chain-store [] slots top i v h c = c
Chain-store (j ∷ js) slots top i v h c =
    (c.0, rw e (Chain-store js slots (slots j).next i v (ground arith) c.1))
  where
    e : store slots i v j ≡ slots j
    e = ground arith

store_self {ℓ} : {A : Type ℓ} (f : ℕ → A) (i : ℕ) (a : A) → store f i a i ≡ a
store_self f i a = ground arith

-- Pushing a slot that is not on the stack.
Chain-push :
    (is : List ℕ) (slots : ℕ → Slot) (top : Option ℕ) (i qid : ℕ)
    → member i is ≡ false
    → Chain slots top is
    → Chain (store slots i (record { qid = qid; next = top })) (some i) (i ∷ is)
Chain-push is slots top i qid h c = (
  refl,
  rw (store_self slots i (record { qid = qid; next = top }))
      (Chain-store is slots top i (record { qid = qid; next = top }) h c),
)

-- An address at which no queue is in use.
abbrev pub Unused : Pool → ℕ → Type 0
Unused s vcq = (i : ℕ) → s.vcq_map i ≢ some vcq

module _ {s : Pool} (v : IsPool s) where
  -- `unvmed_vcq_acquire` fails only if no identifier is free.
  acquire-empty : v.free ≡ [] → acquire s ≡ (record s { errno = enospc }, 0)
  unfolding acquire take_slot
  acquire-empty e = let top : s.free_top ≡ none = rw e at v.chain in rw top

  acquire-some :
      (id : ℕ) (rest : List ℕ)
      → v.free ≡ id ∷ rest
      → acquire s ≡ (record s { free_top = (s.slots id).next }, id)
  unfolding acquire take_slot
  acquire-some id rest e =
      let c : Chain s.slots s.free_top (id ∷ rest) = rw e at v.chain in
      rw (c.0, v.ids id (v.bounded id (rw e (ground arith))))

  -- The state in which `unvmed_vcq_init` has taken `id` and set the fields of the queue.
  abbrev taken : ℕ → ℕ → ℕ → Pool
  taken vcq qsize id = record s {
    free_top = (s.slots id).next;
    heap = store s.heap vcq (record { qid = id; qsize = qsize; head = 0; tail = 0; slots = [] });
  }

  init-taken :
      (vcq qsize : ℕ) (mem : Option (List Vcqe)) (id : ℕ) (rest : List ℕ)
      → v.free ≡ id ∷ rest
      → vcq_init s vcq qsize mem ≡ init_with (taken vcq qsize id) vcq id mem
  unfolding vcq_init
  init-taken vcq qsize mem id rest e =
      let r : InRange id = v.bounded id (rw e (ground arith)) in
      rw (acquire-some id rest e) (ground arith)

  -- On a well-formed pool, `unvmed_vcq_init` with no free identifier returns -1 with ENOSPC, and
  -- changes nothing else. It happens only when each of 1 to 4095 names a queue.
  pub init_exhausted :
      (vcq qsize : ℕ) (mem : Option (List Vcqe))
      → v.free ≡ []
      → (vcq_init s vcq qsize mem ≡ (record s { errno = enospc }, none))
        × ((i : ℕ) → InRange i → s.vcq_map i ≢ none)
  unfolding vcq_init
  init_exhausted vcq qsize mem e =
      (rw (acquire-empty e), λ i r n. cc (ap (member i) e, v.split i r, ap is_none n))

  -- On a well-formed pool with a free identifier, and without memory for the ring,
  -- `unvmed_vcq_init` returns -1 with ENOMEM; the identifier that it had taken is free again, and
  -- the first to be handed out.
  pub init_no_memory :
      (vcq qsize id : ℕ) (rest : List ℕ)
      → v.free ≡ id ∷ rest
      → Unused s vcq
      → let (s', ret) = vcq_init s vcq qsize none in
        (ret ≡ none) × (s'.errno ≡ enomem) × (w : IsPool s') × (w.free ≡ v.free)
  unfolding init_with
  init_no_memory vcq qsize id rest e unused =
      rw (init-taken vcq qsize none id rest e) (refl, refl, back, refl)
    where
      c : Chain s.slots s.free_top (id ∷ rest)
      c = rw e at v.chain

      d : Distinct (id ∷ rest)
      d = rw e at v.distinct

      back : IsPool (init_with (taken vcq qsize id) vcq id none).0
      back = record {
        free = v.free;
        chain = rw e (Chain-push rest s.slots (s.slots id).next id (s.slots id).qid d.0 c.1);
        distinct = v.distinct;
        bounded = v.bounded;
        ids = λ i r. ground (arith, v.ids i r, v.ids id);
        split = v.split;
        owner = λ i w h. ground (arith, v.owner i w h, unused i);
      }

  -- On a well-formed pool with a free identifier, at an address where no queue is in use and with
  -- memory for the ring, `unvmed_vcq_init` takes the first free identifier and returns 0. The
  -- queue is empty and carries the identifier, `unvmed_vcq_get` finds it by that, and finds every
  -- other queue as before; the identifiers left are the rest.
  pub init_succeeds :
      (vcq qsize id : ℕ) (mem : List Vcqe) (rest : List ℕ)
      → v.free ≡ id ∷ rest
      → Unused s vcq
      → let (s', ret) = vcq_init s vcq qsize (some mem) in
        (ret ≡ some id)
        × (s'.heap vcq ≡ record { qid = id; qsize = qsize; head = 0; tail = 0; slots = mem })
        × (vcq_get s' id ≡ some vcq)
        × ((i : ℕ) → i ≢ id → vcq_get s' i ≡ vcq_get s i)
        × (w : IsPool s') × (w.free ≡ rest)
  unfolding init_with vcq_get
  init_succeeds vcq qsize id mem rest e unused =
      rw (init-taken vcq qsize (some mem) id rest e)
        (refl, ground arith, ground (arith, r), λ i ne. ground arith, live, refl)
    where
      c : Chain s.slots s.free_top (id ∷ rest)
      c = rw e at v.chain

      d : Distinct (id ∷ rest)
      d = rw e at v.distinct

      r : InRange id
      r = v.bounded id (rw e (ground arith))

      live : IsPool (init_with (taken vcq qsize id) vcq id (some mem)).0
      live = record {
        free = rest;
        chain = c.1;
        distinct = d.1;
        bounded = λ i h. v.bounded i (rw e (ground arith));
        ids = v.ids;
        split = λ i q. ground (arith, v.split i q, ap (member i) e, d.0);
        owner = λ i w h. ground (arith, v.owner i w, unused i, r);
      }

  abbrev freed : ℕ → ℕ → Pool
  freed vcq id = record s {
    slots = store s.slots id (record { qid = (s.slots id).qid; next = s.free_top });
    free_top = some id;
    vcq_map = store s.vcq_map id none;
    heap = store s.heap vcq (record { qid = 0; qsize = 0; head = 0; tail = 0; slots = [] });
  }

  vcq_free-freed : (vcq id : ℕ) → (s.heap vcq).qid ≡ id → vcq_free s vcq ≡ freed vcq id
  unfolding vcq_free release
  vcq_free-freed vcq id own = ap (freed vcq) own

  -- `unvmed_vcq_free` of a queue in use, on a well-formed pool: its identifier is free again and
  -- no longer finds a queue, every other one finds what it did, and the freed one is the first
  -- that will be handed out.
  pub free_releases :
      (vcq id : ℕ)
      → s.vcq_map id ≡ some vcq
      → let s' = vcq_free s vcq in
        (vcq_get s' id ≡ none)
        × ((i : ℕ) → i ≢ id → vcq_get s' i ≡ vcq_get s i)
        × (w : IsPool s') × (w.free ≡ id ∷ v.free)
  unfolding vcq_get
  free_releases vcq id m =
      rw (vcq_free-freed vcq id (v.owner id vcq m).1)
        (ground arith, λ i ne. ground arith, gone, refl)
    where
      r : InRange id
      r = (v.owner id vcq m).0

      used : member id v.free ≡ false
      used = v.split id r ∙ ap is_none m

      gone : IsPool (freed vcq id)
      gone = record {
        free = id ∷ v.free;
        chain = Chain-push v.free s.slots s.free_top id (s.slots id).qid used v.chain;
        distinct = (used, v.distinct);
        bounded = λ i h. ground (arith, r, v.bounded i);
        ids = λ i q. ground (arith, v.ids i q, v.ids id r);
        split = λ i q. ground (arith, v.split i q);
        owner = λ i w h. ground (arith, v.owner i w, v.owner id vcq m);
      }
