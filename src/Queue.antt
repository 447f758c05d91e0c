-- ===== src/Queue.antt =====
-- lib/libunvmed.c, the submission and completion queues of a controller: their tables, reference
-- counts, and the sweeps over them. The calls for the two kinds are the same text but for names, so
-- a table is generic in the fields that only one kind has. A pointer to a queue is an address of
-- `heap`. The calls run undisturbed, so a compare-and-swap succeeds at once.
pub mod Refs
pub mod Sweep
pub mod All
pub mod Create
mod Tests
use unvme_cli.Prelude.{
  ℕ, zero, suc, ◌+◌, ◌-◌, ◌%◌, ◌^◌, Bool, true, false, not, ◌&&◌, ◌||◌, Option, none, some, List,
  [], ◌∷◌, ◌==◌, leb, if◌then◌else◌, inc32, dec32, is_pos32, einval, replicate,
}
use unvme_cli.Cid.{Bitmap, cid_init}
use unvme_cli.Vcq.Pool.{store}

-- The fields that `struct unvme_sq` and `struct unvme_cq` share; `q` tells if the queue of libvfn is
-- attached, `refcnt` is the pattern of an `int`.
pub record Queue (X : Type 0) : Type 0 where
  pub id : ℕ
  pub q : Bool
  pub enabled : Bool
  pub refcnt : ℕ
  pub rest : X

-- `u->nr_sqs`, `u->sqs`, the queues in memory, `u->asq`, and the addresses that were freed; likewise
-- for completion queues.
pub record Table (X : Type 0) : Type 0 where
  pub nr : ℕ
  pub slots : ℕ → Option ℕ
  pub heap : ℕ → Queue X
  pub admin : Option ℕ
  pub freed : List ℕ

module _ {X : Type 0} where
  abbrev pub set_queue : Table X → ℕ → Queue X → Table X
  set_queue t p x = record t { heap = store t.heap p x }

  take_ref : Table X → ℕ → Bool → Table X × Option ℕ
  take_ref t p get =
      let x = t.heap p in
      if x.refcnt == 0
      then (t, none)
      else if get && is_pos32 x.refcnt
      then (set_queue t p (record x { refcnt = inc32 x.refcnt }), some p)
      else (t, some p)

  find_in : Table X → Option ℕ → Bool → Table X × Option ℕ
  unfolding take_ref
  find_in t none get = (t, none)
  find_in t (some p) get = take_ref t p get

  -- `__unvmed_find_and_get_sq`, `__unvmed_find_and_get_cq`
  pub find_and_get : Table X → ℕ → Bool → Table X × Option ℕ
  unfolding find_in
  find_and_get t qid get = if leb t.nr qid then (t, none) else find_in t (t.slots qid) get

  -- `unvmed_sq_find`, `unvmed_cq_find`
  abbrev pub queue_find : Table X → ℕ → Option ℕ
  queue_find t qid = (find_and_get t qid false).1

  -- `unvmed_sq_get`, `unvmed_cq_get`
  abbrev pub queue_get : Table X → ℕ → Table X × Option ℕ
  queue_get t qid = find_and_get t qid true

  -- `__unvmed_free_usq`, `__unvmed_free_ucq`
  pub free_queue : Table X → ℕ → Table X
  free_queue t p =
      let qid = (t.heap p).id in
      record t {
        slots = store t.slots qid none;
        freed = p ∷ t.freed;
        admin = if qid == 0 then none else t.admin;
      }

  -- `unvmed_sq_put`, `unvmed_cq_put`
  pub queue_put : Table X → ℕ → Table X × ℕ
  unfolding free_queue
  queue_put t p =
      let x = t.heap p in
      let refcnt = dec32 x.refcnt in
      let t' = set_queue t p (record x { refcnt = refcnt }) in
      (if refcnt == 0 then free_queue t' p else t', refcnt)

  -- `unvmed_enable_sq`, `unvmed_enable_cq`
  pub queue_enable : Table X → ℕ → Table X
  queue_enable t p = set_queue t p (record (t.heap p) { enabled = true })

  -- `unvmed_disable_sq`, `unvmed_disable_cq`
  pub queue_disable : Table X → ℕ → Table X
  queue_disable t p = set_queue t p (record (t.heap p) { enabled = false })

  disable_found : Table X × Option ℕ → Table X
  unfolding queue_put
  disable_found (t, none) = t
  disable_found (t, some p) =
      (queue_put (set_queue t p (record (t.heap p) { enabled = false })) p).0

  pub disable_one : Table X → ℕ → Table X
  unfolding disable_found
  disable_one t qid = disable_found (queue_get t qid)

  -- A loop over `k` identifiers from `qid` on.
  pub sweep : (Table X → ℕ → Table X) → ℕ → ℕ → Table X → Table X
  sweep step zero qid t = t
  sweep step (suc k) qid t = sweep step k (qid + 1) (step t qid)

  -- `unvmed_disable_sq_all`, `unvmed_disable_cq_all`
  pub disable_all : Table X → Table X
  unfolding sweep disable_one
  disable_all t = sweep disable_one t.nr 0 t

  discard_at : Table X → Option ℕ → Table X
  discard_at t none = t
  discard_at t (some p) =
      if (t.heap p).q then set_queue t p (record (t.heap p) { q = false }) else t

  -- `unvmed_discard_sq`, `unvmed_discard_cq`, with the effect on libvfn left out
  pub discard : Table X → ℕ → Table X
  unfolding discard_at
  discard t qid = discard_at t (t.slots qid)

  -- `__unvmed_delete_sq`
  pub delete_queue : Table X → ℕ → Table X
  unfolding discard queue_put
  delete_queue t p = (queue_put (discard t (t.heap p).id) p).0

  -- The `assert` that the first put leaves a reference is left out.
  delete_found : Table X × Option ℕ → ℕ → Table X
  unfolding discard queue_put
  delete_found (t, none) qid = t
  delete_found (t, some p) qid = (queue_put (discard (queue_put t p).0 qid) p).0

  pub delete_one : Table X → ℕ → Table X
  unfolding delete_found
  delete_one t qid = delete_found (queue_get t qid) qid

  -- The loops of `__unvmed_delete_sq_all` and `__unvmed_delete_cq_all`; the second also calls
  -- `unvmed_reaper_del_cq` for each queue, which is left out: it changes the reaper of the queue's
  -- interrupt and no field of this model.
  pub delete_all : Table X → Table X
  unfolding sweep delete_one
  delete_all t = sweep delete_one t.nr 0 t

  -- Is the queue at this address one that callers are shown?
  shown : Table X → Option ℕ → List ℕ → List ℕ
  shown t none rest = rest
  shown t (some p) rest = if not (t.heap p).enabled || not (t.heap p).q then rest else p ∷ rest

  list_from : Table X → ℕ → ℕ → List ℕ
  unfolding shown
  list_from t zero qid = []
  list_from t (suc k) qid = shown t (queue_find t qid) (list_from t k (qid + 1))

  -- `unvmed_get_sqs`, `unvmed_get_cqs` with memory for the array
  pub list_queues : Table X → List ℕ
  unfolding list_from
  list_queues t = list_from t t.nr 0
