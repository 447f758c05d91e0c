-- ===== src/Cid/Inv.antt =====
-- Which identifiers a bitmap holds as used, and the invariant of a bitmap.
use Prim.Native.Nat.{bit_and, bit_or}
use unvme_cli.Prelude.{
  ℕ, ◌+◌, ◌-◌, ◌*◌, ◌/◌, ◌%◌, ◌^◌, ◌≤◌, ◌<◌, Bool, true, not, ◌&&◌, ◌||◌, List, ◌≡◌, arith, ◌==◌,
  get_or, set, length, get_or-set_self, get_or-set_ne,
}
use native.Mathlib.Decide.{ℕ_discrete}
use unvme_cli.Cid.{Bitmap, bit}
use unvme_cli.Cid.Bytes.{bit-set, bit-clear}

-- Identifier `c` in a list of bytes.
unfoldable pub used : List ℕ → ℕ → Bool
used bits c = bit (get_or bits (c / 8) 0) (c % 8)

-- The bytes cover `size` identifiers, `top` is one of them, and what lies beyond counts as used.
pub record IsBitmap (b : Bitmap) : Type 0 where
  pub covers : b.nr_bytes ≡ (b.size + 7) / 8
  pub allocated : length b.bits ≡ b.nr_bytes
  pub bytes : (i : ℕ) → get_or b.bits i 0 < 256
  pub top_in : b.top < b.nr_bytes
  pub small : b.size ≤ 2 ^ 16 - 1
  pub beyond : (c : ℕ) → b.size ≤ c → c < 8 * b.nr_bytes → used b.bits c ≡ true

module _ (bits : List ℕ) (bytes : (i : ℕ) → get_or bits i 0 < 256) (c : ℕ)
    (inside : c / 8 < length bits) where
  -- Setting the bit of `c` makes `c` used, and changes no other identifier.
  pub used-set :
      (d : ℕ)
      → used (set bits (c / 8) (bit_or (get_or bits (c / 8) 0) (2 ^ (c % 8)))) d
        ≡ (c == d || used bits d)
  unfolding used
  used-set d = elim (ℕ_discrete (c / 8) (d / 8)) [
    | yes e ↦
        rw
          (
            ← e,
            get_or-set_self bits (c / 8) (bit_or (get_or bits (c / 8) 0) (2 ^ (c % 8))) 0 inside,
            bit-set (get_or bits (c / 8) 0) (c % 8) (bytes (c / 8)) (omega arith) (d % 8)
                (omega arith),
          )
          (ground arith)
    | no ne ↦
        rw (get_or-set_ne bits (c / 8) (d / 8) (bit_or (get_or bits (c / 8) 0) (2 ^ (c % 8))) 0 ne)
          (ground arith)
  ]

  -- Clearing it makes `c` free, and changes no other identifier.
  pub used-clear :
      (d : ℕ)
      → used (set bits (c / 8) (bit_and (get_or bits (c / 8) 0) (255 - 2 ^ (c % 8)))) d
        ≡ (not (c == d) && used bits d)
  unfolding used
  used-clear d = elim (ℕ_discrete (c / 8) (d / 8)) [
    | yes e ↦
        rw
          (
            ← e,
            get_or-set_self bits (c / 8) (bit_and (get_or bits (c / 8) 0) (255 - 2 ^ (c % 8))) 0
                inside,
            bit-clear (get_or bits (c / 8) 0) (c % 8) (bytes (c / 8)) (omega arith) (d % 8)
                (omega arith),
          )
          (ground arith)
    | no ne ↦
        rw
          (get_or-set_ne bits (c / 8) (d / 8) (bit_and (get_or bits (c / 8) 0) (255 - 2 ^ (c % 8)))
            0 ne)
          (ground arith)
  ]

  pub bytes-set : (x i : ℕ) → x < 256 → get_or (set bits (c / 8) x) i 0 < 256
  bytes-set x i h = elim (ℕ_discrete (c / 8) i) [
    | yes e ↦ rw (← e, get_or-set_self bits (c / 8) x 0 inside) h
    | no ne ↦ rw (get_or-set_ne bits (c / 8) i x 0 ne) (bytes i)
  ]
