-- ===== src/Vcq/Pool/Race.antt =====
-- `unvmed_vcq_acquire` of lib/libunvmed-vcq.c in its two atomic steps, with other threads between.
use unvme_cli.Prelude.{ℕ, Option, none, some, List, ◌∷◌, ◌≡◌, refl, arith, ◌==◌, if◌then◌else◌}
use unvme_cli.Vcq.Pool.{Pool, take_slot, acquire, release}
use unvme_cli.Vcq.Pool.Inv.{Chain, Distinct, IsPool}

-- The load of the top, with the `slot->next` that the swap is called with.
pub acquire_load : Pool → Option (ℕ × Option ℕ)
acquire_load s = elim s.free_top [ none ↦ none | some i ↦ some (i, (s.slots i).next) ]

-- The compare-and-swap: it succeeds if the top is still the slot that was loaded.
pub acquire_swap : Pool → ℕ × Option ℕ → Pool × Option ℕ
acquire_swap s (i, next) = elim s.free_top [
  | none ↦ (s, none)
  | some j ↦ if j == i then (record s { free_top = next }, some (s.slots i).qid) else (s, none)
]

module _ {s : Pool} (v : IsPool s) (a : ℕ) where
  -- Undisturbed, on a well-formed pool with a free identifier, the two steps are
  -- `unvmed_vcq_acquire`.
  pub acquire_steps :
      (rest : List ℕ)
      → v.free ≡ a ∷ rest
      → (acquire_load s ≡ some (a, (s.slots a).next))
        × (acquire_swap s (a, (s.slots a).next) ≡ ((acquire s).0, some (acquire s).1))
  unfolding acquire_load acquire_swap acquire take_slot
  acquire_steps rest e =
      let c : Chain s.slots s.free_top (a ∷ rest) = rw e at v.chain in rw c.0 (refl, ground arith)

  -- A well-formed pool with at least two free identifiers. A thread has loaded the top `a` and its
  -- successor `b`, and is held up. Others take `a` and `b` and free `a`. The held-up swap
  -- succeeds, for the top is `a` again, and makes `b` the top although its owner still holds it:
  -- the next call hands `b` out a second time.
  pub acquire_aba :
      (b : ℕ) (rest : List ℕ)
      → v.free ≡ a ∷ b ∷ rest
      → let (s₁, x) = acquire s in
        let (s₂, y) = acquire s₁ in
        let (s₃, z) = acquire_swap (release s₂ x) (a, (s.slots a).next) in
        (acquire_load s ≡ some (a, some b))
        × (x ≡ a)
        × (y ≡ b)
        × (z ≡ some a)
        × ((acquire s₃).1 ≡ b)
  unfolding acquire_load acquire_swap acquire take_slot release
  acquire_aba b rest e =
      let c : Chain s.slots s.free_top (a ∷ b ∷ rest) = rw e at v.chain in
      let d : Distinct (a ∷ b ∷ rest) = rw e at v.distinct in
      let ia : (s.slots a).qid ≡ a = v.ids a (v.bounded a (rw e (ground arith))) in
      let ib : (s.slots b).qid ≡ b = v.ids b (v.bounded b (rw e (ground arith))) in
      rw (c.0, c.1.0, ia) (refl, refl, ib, ground arith, ground (arith, ib, d.0))
