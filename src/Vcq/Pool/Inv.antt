-- ===== src/Vcq/Pool/Inv.antt =====
-- The invariant of the identifier pool, which `unvmed_vcq_pool_init` establishes.
use unvme_cli.Prelude.{
  ℕ, zero, suc, ◌+◌, ◌≤◌, ◌<◌, Bool, true, false, ◌||◌, Option, none, some, List, [], ◌∷◌, ◌≡◌,
  refl, arith, ◌==◌, ltb, leb, ◌&&◌, if◌then◌else◌,
}
use unvme_cli.Vcq.Pool.{Slot, Pool, vcq_max, store, link, pool_init}

-- The stack that starts at a pointer.
abbrev pub Chain : (ℕ → Slot) → Option ℕ → List ℕ → Type 0
Chain slots top [] = top ≡ none
Chain slots top (i ∷ is) = (top ≡ some i) × Chain slots (slots i).next is

abbrev pub member : ℕ → List ℕ → Bool
member i [] = false
member i (j ∷ js) = j == i || member i js

abbrev pub Distinct : List ℕ → Type 0
Distinct [] = Unit
Distinct (i ∷ is) = (member i is ≡ false) × Distinct is

abbrev pub is_none {ℓ} : {A : Type ℓ} → Option A → Bool
is_none none = true
is_none (some a) = false

abbrev pub InRange : ℕ → Type 0
InRange i = (0 < i) × (i < vcq_max)

-- Every identifier from 1 to 4095 is either on the stack, once, or names one queue, which carries
-- it.
pub record IsPool (s : Pool) : Type 0 where
  pub free : List ℕ
  pub chain : Chain s.slots s.free_top free
  pub distinct : Distinct free
  pub bounded : (i : ℕ) → member i free ≡ true → InRange i
  pub ids : (i : ℕ) → InRange i → (s.slots i).qid ≡ i
  pub split : (i : ℕ) → InRange i → member i free ≡ is_none (s.vcq_map i)
  pub owner : (i vcq : ℕ) → s.vcq_map i ≡ some vcq → InRange i × ((s.heap vcq).qid ≡ i)

-- The identifiers of `k` slots from `i` on.
unfoldable pub ids_from : ℕ → ℕ → List ℕ
ids_from zero i = []
ids_from (suc k) i = i ∷ ids_from k (i + 1)

member-ids_from : (k i j : ℕ) → member j (ids_from k i) ≡ (leb i j && ltb j (i + k))
unfolding ids_from
member-ids_from zero i j = ground arith
member-ids_from (suc k) i j = ground (arith, member-ids_from k (i + 1) j)

Distinct-ids_from : (k i : ℕ) → Distinct (ids_from k i)
unfolding ids_from
Distinct-ids_from zero i = tt
Distinct-ids_from (suc k) i =
    (ground (arith, member-ids_from k (i + 1) i), Distinct-ids_from k (i + 1))

-- What the loop has stored.
link_lem :
    (k i j : ℕ) (slots : ℕ → Slot)
    → link k i slots j ≡ (
        if leb i j && ltb j (i + k)
        then record { qid = j; next = if ltb (j + 1) vcq_max then some (j + 1) else none }
        else slots j)
unfolding link
link_lem zero i j slots = ground arith
link_lem (suc k) i j slots =
    rw
      (link_lem k (i + 1) j (
        store slots i
          (record { qid = i; next = if ltb (i + 1) vcq_max then some (i + 1) else none })))
      (ground arith)

abbrev start : ℕ → Option ℕ
start i = if ltb i vcq_max then some i else none

Chain-ids_from :
    (slots : ℕ → Slot) (k i : ℕ)
    → ((j : ℕ) → i ≤ j → j < vcq_max → (slots j).next ≡ start (j + 1))
    → i + k ≡ vcq_max
    → Chain slots (start i) (ids_from k i)
unfolding ids_from
Chain-ids_from slots zero i h e = ground arith
Chain-ids_from slots (suc k) i h e = (
  ground arith,
  rw (h i (omega arith) (omega arith))
      (Chain-ids_from slots k (i + 1) (λ j p q. h j (omega arith) q) (omega arith)),
)

module _ (slots : ℕ → Slot) where
  linked :
      (j : ℕ) → 0 < j → j < vcq_max → link 4095 1 slots j ≡ record { qid = j; next = start (j + 1) }
  linked j p q = rw (link_lem 4095 1 j slots) (ground arith)

-- `unvmed_vcq_pool_init` with no queue in use gives a well-formed pool: all of 1 to 4095 are free,
-- in that order.
pub pool_init_lem :
    (s : Pool)
    → ((i : ℕ) → s.vcq_map i ≡ none)
    → (w : IsPool (pool_init s)) × (w.free ≡ ids_from 4095 1)
unfolding pool_init
pool_init_lem s unused = (all_free, refl)
  where
    all_free : IsPool (pool_init s)
    all_free = record {
      free = ids_from 4095 1;
      chain = Chain-ids_from (link 4095 1 s.slots) 4095 1 (λ j p q. rw (linked s.slots j p q)) refl;
      distinct = Distinct-ids_from 4095 1;
      bounded = λ i h. ground (arith, member-ids_from 4095 1 i);
      ids = λ i r. rw (linked s.slots i r.0 r.1);
      split = λ i r. rw (unused i) (ground (arith, member-ids_from 4095 1 i));
      owner = λ i vcq e. cc (unused i);
    }
