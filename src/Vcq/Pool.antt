-- ===== src/Vcq/Pool.antt =====
-- lib/libunvmed-vcq.c, the pool of queue identifiers: a stack of free slots, and a map from each
-- identifier in use to its queue. A pointer to a slot is the slot's index, a pointer to a queue is
-- an address of `heap`. The calls here run undisturbed, so a compare-and-swap succeeds at once;
-- `Pool.Race` takes `unvmed_vcq_acquire` apart for threads that interleave.
pub mod Inv
pub mod Life
pub mod Race
use unvme_cli.Prelude.{
  ℕ, zero, suc, ◌+◌, ◌-◌, ◌^◌, Bool, Option, none, some, List, [], ◌∷◌, ◌||◌, ◌==◌, ltb, leb,
  if◌then◌else◌, enospc, enomem,
}
use unvme_cli.Vcq.Ring.{Vcqe, Vcq}

-- `UNVME_VCQ_MAX`
abbrev pub vcq_max : ℕ
vcq_max = 4096

-- `struct unvme_vcq_slot`
pub record Slot : Type 0 where
  pub qid : ℕ
  pub next : Option ℕ

-- The static data of the file, the queues in memory, and the calling thread's `__vcq_qid` (the
-- pattern of an `int`) and `errno`.
pub record Pool : Type 0 where
  pub slots : ℕ → Slot
  pub free_top : Option ℕ
  pub vcq_map : ℕ → Option ℕ
  pub heap : ℕ → Vcq
  pub vcq_qid : ℕ
  pub errno : ℕ

-- An array or the heap with one entry stored anew.
abbrev pub store {ℓ} : {A : Type ℓ} → (ℕ → A) → ℕ → A → ℕ → A
store f i a j = if i == j then a else f j

-- The loop of `unvmed_vcq_pool_init` for `k` more rounds, from `i` on.
link : ℕ → ℕ → (ℕ → Slot) → ℕ → Slot
link zero i slots = slots
link (suc k) i slots =
    link k (i + 1) (
      store slots i (record { qid = i; next = if ltb (i + 1) vcq_max then some (i + 1) else none }))

unfoldable pub pool_init : Pool → Pool
unfolding link
pool_init s = record s { slots = link (vcq_max - 1) 1 s.slots; free_top = some 1 }

take_slot : Pool → Option ℕ → Pool × ℕ
take_slot s none = (record s { errno = enospc }, 0)
take_slot s (some i) = (record s { free_top = (s.slots i).next }, (s.slots i).qid)

-- `unvmed_vcq_acquire`
pub acquire : Pool → Pool × ℕ
unfolding take_slot
acquire s = take_slot s s.free_top

-- `unvmed_vcq_release`
pub release : Pool → ℕ → Pool
release s qid = record s {
  slots = store s.slots qid (record { qid = (s.slots qid).qid; next = s.free_top });
  free_top = some qid;
}

-- `unvmed_vcq_get`
unfoldable pub vcq_get : Pool → ℕ → Option ℕ
vcq_get s qid = if qid == 0 || leb vcq_max qid then none else s.vcq_map qid

-- `unvmed_vcq_init` once the fields of the queue are set.
init_with : Pool → ℕ → ℕ → Option (List Vcqe) → Pool × Option ℕ
unfolding release
init_with s vcq id none = (record (release s id) { errno = enomem }, none)
init_with s vcq id (some mem) = (
  record s {
    heap = store s.heap vcq (record (s.heap vcq) { slots = mem });
    vcq_map = store s.vcq_map id (some vcq);
    vcq_qid = id;
  },
  some id,
)

-- `unvmed_vcq_init` of the queue at address `vcq`: the identifier that it stores in `*qid` beside
-- a 0, or `none` for -1. `mem` is what `malloc` gives: the slots of the ring with whatever they
-- hold, or NULL, which is a ring with no slots.
pub vcq_init : Pool → ℕ → ℕ → Option (List Vcqe) → Pool × Option ℕ
vcq_init s vcq qsize mem =
    let (s', id) = acquire s in
    let fresh : Vcq = record { qid = id; qsize = qsize; head = 0; tail = 0; slots = [] } in
    if id == 0
    then (s', none)
    else init_with (record s' { heap = store s'.heap vcq fresh }) vcq id mem

-- `unvmed_vcq_free`: `memset` clears the queue.
pub vcq_free : Pool → ℕ → Pool
unfolding release
vcq_free s vcq =
    let qid = (s.heap vcq).qid in
    let s' = release (record s { vcq_map = store s.vcq_map qid none }) qid in
    record s' {
      heap = store s'.heap vcq (record { qid = 0; qsize = 0; head = 0; tail = 0; slots = [] });
    }
