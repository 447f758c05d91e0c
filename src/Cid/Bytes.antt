-- ===== src/Cid/Bytes.antt =====
-- The bits of one byte, by evaluation over all bytes.
use Prim.Native.Nat.{bit_and, bit_or}
use native.Mathlib.Decide.{dec_lt}
use unvme_cli.Prelude.{
  ℕ, zero, suc, ◌-◌, ◌*◌, ◌%◌, ◌^◌, ◌<◌, Bool, true, false, not, ◌&&◌, ◌||◌, Option, none, some,
  ◌≡◌, refl, arith, ◌==◌, ltb, leb,
}
use unvme_cli.Cid.{bit, find_first_zero}

-- A test of the first `k` numbers.
passes : ℕ → (ℕ → Bool) → Bool
passes zero test = true
passes (suc k) test = passes k test && test k

passes_at : (test : ℕ → Bool) {j : ℕ} (k : ℕ) → j < k → passes k test ≡ true → test j ≡ true
unfolding passes
passes_at test {j = j} zero small all = absurd (omega arith)
passes_at test {j = j} (suc k) small all = elim (dec_lt j k) [
  | yes l ↦ passes_at test k l (ground arith)
  | no ge ↦ let last : j ≡ k = omega arith in rw last (ground arith)
]

-- Two tests that agree.
abbrev iff : Bool → Bool → Bool
iff true b = b
iff false b = not b

iff→eq : (a b : Bool) → iff a b ≡ true → a ≡ b
iff→eq a b h = ground arith

-- A law of all bytes and two positions.
byte_law :
    (p : ℕ → ℕ → ℕ → Bool)
    → passes 256 (λ x. passes 8 (λ i. passes 8 (p x i))) ≡ true
    → (x i j : ℕ) → x < 256
    → i < 8
    → j < 8
    → p x i j ≡ true
byte_law p table x i j hx hi hj = passes_at (p x i) 8 hj (
    passes_at (λ i. passes 8 (p x i)) 8 hi
      (passes_at (λ x. passes 8 (λ i. passes 8 (p x i))) 256 hx table))

set_table :
    passes 256
      (λ x. passes 8 (λ i. passes 8 (λ j. iff (bit (bit_or x (2 ^ i)) j) (i == j || bit x j))))
    ≡ true
unfolding passes bit
set_table = refl

clear_table :
    passes 256 (λ x.
      passes 8
        (λ i. passes 8 (λ j. iff (bit (bit_and x (255 - 2 ^ i)) j) (not (i == j) && bit x j))))
    ≡ true
unfolding passes bit
clear_table = refl

range_table :
    passes 256 (λ x.
      passes 8
        (λ i. passes 8 (λ j. ltb (bit_or x (2 ^ i)) 256 && ltb (bit_and x (255 - 2 ^ i)) 256)))
    ≡ true
unfolding passes
range_table = refl

module _ (x i : ℕ) (hx : x < 256) (hi : i < 8) where
  pub bit-set : (j : ℕ) → j < 8 → bit (bit_or x (2 ^ i)) j ≡ (i == j || bit x j)
  bit-set j hj = iff→eq _ _ (byte_law _ set_table x i j hx hi hj)

  pub bit-clear : (j : ℕ) → j < 8 → bit (bit_and x (255 - 2 ^ i)) j ≡ (not (i == j) && bit x j)
  bit-clear j hj = iff→eq _ _ (byte_law _ clear_table x i j hx hi hj)

  pub byte_range : (bit_or x (2 ^ i) < 256) × (bit_and x (255 - 2 ^ i) < 256)
  byte_range = ground (
    arith,
    byte_law (λ x i j. ltb (bit_or x (2 ^ i)) 256 && ltb (bit_and x (255 - 2 ^ i)) 256) range_table
        x i 0 hx hi,
  )

-- What `__find_first_zero` finds: a clear bit, with all lower ones set, or nothing if all are set.
abbrev found : Option ℕ → ℕ → ℕ → Bool
found none x j = bit x j
found (some p) x j = ltb p 8 && not (bit x p) && (leb p j || bit x j)

find_table : passes 256 (λ x. passes 8 (λ i. passes 8 (λ j. found (find_first_zero x) x j))) ≡ true
unfolding passes bit find_first_zero
find_table = refl

pub find_none : (x : ℕ) → x < 256 → find_first_zero x ≡ none → (j : ℕ) → j < 8 → bit x j ≡ true
find_none x hx e j hj =
    let f : found (find_first_zero x) x j ≡ true =
      byte_law (λ x i j. found (find_first_zero x) x j) find_table x 0 j hx (omega arith) hj in
    rw e at f

pub find_some :
    (x p : ℕ)
    → x < 256
    → find_first_zero x ≡ some p
    → (p < 8) × (bit x p ≡ false) × ((j : ℕ) → j < p → bit x j ≡ true)
find_some x p hx e = (ground (arith, at 0), ground (arith, at 0), λ j h. ground (arith, at j, at 0))
  where
    at : (j : ℕ) → j < 8 → (ltb p 8 && not (bit x p) && (leb p j || bit x j)) ≡ true
    at j hj =
        let f : found (find_first_zero x) x j ≡ true =
          byte_law (λ x i j. found (find_first_zero x) x j) find_table x 0 j hx (omega arith) hj in
        rw e at f

edge_table :
    passes 256 (λ x. passes 8 (λ i.
      passes 8 (λ j. iff (bit (0xff * 2 ^ i % 256) j) (leb i j) && bit 255 j && not (bit 0 j))))
    ≡ true
unfolding passes bit
edge_table = refl

-- The byte of the unused trailing bits, the full byte, and the empty one.
pub edge_bytes :
    (i j : ℕ)
    → i < 8
    → j < 8
    → (bit (0xff * 2 ^ i % 256) j ≡ leb i j) × (bit 255 j ≡ true) × (bit 0 j ≡ false)
edge_bytes i j hi hj = ground (
  arith,
  byte_law (λ x i j. iff (bit (0xff * 2 ^ i % 256) j) (leb i j) && bit 255 j && not (bit 0 j))
      edge_table 0 i j (omega arith) hi hj,
)
