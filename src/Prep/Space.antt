-- ===== src/Prep/Space.antt =====
-- The protection information of a read or a write: how the storage tag and the reference tag share
-- the bits of the entry.
use Prim.Native.Nat.{bit_and, bit_or}
use native.Mathlib.Nat.{mod-eq_of_lt, mul-le-mul_right}
use unvme_cli.Prelude.{
  ℕ, ◌+◌, ◌-◌, ◌*◌, ◌/◌, ◌%◌, ◌^◌, ◌≤◌, ◌<◌, true, false, none, some, ◌≡◌, refl, ap, ◌∙◌, arith,
  leb, ltb, if◌then◌else◌, Bool-cases, inl, inr, bit_and-mask, or_mod, zero-bit_or, window_across,
  window_above, high_mask, two_pow_split, two_pow_pos,
}
use unvme_cli.Prep.{
  Tags, shl64, shr64, one_shift, two_shifts, three_shifts, guard16, guard32, guard64,
}

-- The storage tag above the reference tag, in `width` bits.
abbrev pub space : ℕ → ℕ → ℕ → ℕ → ℕ
space width sts rtag stag = stag * 2 ^ (width - sts) + rtag

-- The shifts are defined.
shl64-some : (x a b : ℕ) → b ≤ a → a - b < 64 → shl64 x a b ≡ some (x * 2 ^ (a - b) % 2 ^ 64)
shl64-some x a b h k = ground arith

shr64-some : (x a b : ℕ) → b ≤ a → a - b < 64 → shr64 x a b ≡ some (x / 2 ^ (a - b))
shr64-some x a b h k = ground arith

-- The three cases, field by field.
guard16_lem :
    (sts rtag stag : ℕ)
    → sts ≤ 32
    → rtag < 2 ^ (32 - sts)
    → guard16 sts rtag stag
      ≡ some (record { cdw2 = 0; cdw3 = 0; cdw14 = space 32 sts rtag stag % 2 ^ 32 })
unfolding guard16 one_shift
guard16_lem sts rtag stag h small =
    let s : ℕ = stag * 2 ^ (32 - sts) in
    let cut : s % 2 ^ 64 % 2 ^ 32 ≡ s % 2 ^ 32 = omega arith in
    rw
      (
        shl64-some stag 32 sts h (omega arith),
        bit_and-mask 32 rtag,
        bit_and-mask 32 (s % 2 ^ 64),
        cut,
        or_mod 32 (32 - sts) stag rtag small,
      )
      refl

-- The storage tag as the code aligns it with bit 32, above a reference tag of `m` bits.
abbrev aligned : ℕ → ℕ → ℕ
aligned m stag = if leb m 32 then stag / 2 ^ (32 - m) else stag * 2 ^ (m - 32) % 2 ^ 64

aligned_lem :
    (base sts stag : ℕ)
    → base ≤ 48
    → sts ≤ base + 32
    → sts ≤ 64
    → (if leb base sts then shr64 stag sts base else shl64 stag base sts)
      ≡ some (aligned (base + 32 - sts) stag)
aligned_lem base sts stag hb h h64 = elim (Bool-cases (leb base sts)) [
  | inl wide ↦
      let low : leb (base + 32 - sts) 32 ≡ true = ground arith in
      let amount : 32 - (base + 32 - sts) ≡ sts - base = omega arith in
      let few : ltb (sts - base) 64 ≡ true = ground arith in rw (wide, low, amount, few) refl
  | inr narrow ↦
      let lt : sts < base = ground arith in
      let high : leb (base + 32 - sts) 32 ≡ false = ground arith in
      let amount : base + 32 - sts - 32 ≡ base - sts = omega arith in
      rw (narrow, high, amount) (shl64-some stag base sts (omega arith) (omega arith))
]

-- The field of `w` bits from bit 32 on.
middle_field :
    (m w rtag stag : ℕ)
    → rtag < 2 ^ m
    → ((x : ℕ) → x % 2 ^ 64 % 2 ^ w ≡ x % 2 ^ w)
    → bit_or (rtag / 2 ^ 32 % 2 ^ w) (aligned m stag % 2 ^ w)
      ≡ (stag * 2 ^ m + rtag) / 2 ^ 32 % 2 ^ w
middle_field m w rtag stag small cut = elim (Bool-cases (leb m 32)) [
  | inl low ↦
      let above = window_above m 32 stag rtag (ground arith) small in
      let zero_mod : 0 % 2 ^ w ≡ 0 = mod-eq_of_lt (two_pow_pos w) in
      rw (low, above.1, above.0, zero_mod) (zero-bit_or (stag / 2 ^ (32 - m) % 2 ^ w))
  | inr high ↦
      rw (high, cut (stag * 2 ^ (m - 32))) (window_across m 32 w stag rtag (ground arith) small)
]

guard64_lem :
    (sts rtag stag : ℕ)
    → sts ≤ 48
    → rtag < 2 ^ (48 - sts)
    → guard64 sts rtag stag
      ≡ some (record {
        cdw2 = 0;
        cdw3 = space 48 sts rtag stag / 2 ^ 32 % 2 ^ 16;
        cdw14 = space 48 sts rtag stag % 2 ^ 32;
      })
unfolding guard64 two_shifts one_shift
guard64_lem sts rtag stag h small =
    let s : ℕ = stag * 2 ^ (48 - sts) in
    let cut : s % 2 ^ 64 % 2 ^ 32 ≡ s % 2 ^ 32 = omega arith in
    rw
      (
        shl64-some stag 48 sts h (omega arith),
        aligned_lem 16 sts stag (omega arith) h (omega arith),
        bit_and-mask 32 rtag,
        bit_and-mask 32 (s % 2 ^ 64),
        cut,
        or_mod 32 (48 - sts) stag rtag small,
        bit_and-mask 16 (rtag / 2 ^ 32),
        bit_and-mask 16 (aligned (48 - sts) stag),
        middle_field (48 - sts) 16 rtag stag small (λ x. omega arith),
      )
      refl

guard32_lem :
    (sts rtag stag : ℕ)
    → 16 < sts
    → sts ≤ 64
    → rtag < 2 ^ (80 - sts)
    → guard32 sts rtag stag
      ≡ some (record {
        cdw2 = space 80 sts rtag stag / 2 ^ 64 % 2 ^ 16;
        cdw3 = space 80 sts rtag stag / 2 ^ 32 % 2 ^ 32;
        cdw14 = space 80 sts rtag stag % 2 ^ 32;
      })
unfolding guard32 three_shifts two_shifts one_shift
guard32_lem sts rtag stag more h small =
    let s : ℕ = stag * 2 ^ (80 - sts) in
    let z : ℕ = stag * 2 ^ (64 - sts) in
    let sixteen : s ≡ z * 2 ^ 16 =
      let rest : 80 - sts - 16 ≡ 64 - sts = omega arith in
      let split : 2 ^ (80 - sts) ≡ 2 ^ (64 - sts) * 2 ^ 16 =
        two_pow_split 16 (80 - sts) (omega arith) ∙ ap (λ (t : ℕ). 2 ^ t * 2 ^ 16) rest in
      omega (arith, ap (λ (t : ℕ). stag * t) split) in
    let low : bit_and (s % 2 ^ 64) 0xffff0000 ≡ s % 2 ^ 32 =
      let high : s % 2 ^ 64 ≡ z % 2 ^ 48 * 2 ^ 16 = omega arith in
      ap (λ (t : ℕ). bit_and t 0xffff0000) high ∙ high_mask (z % 2 ^ 48) ∙ omega arith in
    let top = window_above (80 - sts) 64 stag rtag (omega arith) small in
    let amount : 64 - (80 - sts) ≡ sts - 16 = omega arith in
    rw
      (
        shr64-some stag sts 16 (omega arith) (omega arith),
        shl64-some stag 80 sts (omega arith) (omega arith),
        aligned_lem 48 sts stag (omega arith) (omega arith) h,
        bit_and-mask 32 rtag,
        low,
        or_mod 32 (80 - sts) stag rtag small,
        bit_and-mask 32 (rtag / 2 ^ 32),
        bit_and-mask 32 (aligned (80 - sts) stag),
        middle_field (80 - sts) 32 rtag stag small (λ x. omega arith),
        bit_and-mask 16 (stag / 2 ^ (sts - 16)),
        top.0,
        amount,
      )
      refl

-- The fields as one number, and the number that both tags make.
abbrev pub joined : Tags → ℕ
joined t = t.cdw2 * 2 ^ 64 + t.cdw3 * 2 ^ 32 + t.cdw14

-- No field holds more than its bits.
abbrev pub Fits : Tags → Type 0
Fits t = (t.cdw2 < 2 ^ 16) × (t.cdw3 < 2 ^ 32) × (t.cdw14 < 2 ^ 32)

space_lt :
    (width sts rtag stag : ℕ)
    → sts ≤ width
    → stag < 2 ^ sts
    → rtag < 2 ^ (width - sts)
    → space width sts rtag stag < 2 ^ width
space_lt width sts rtag stag h ht hr =
    let room : (stag + 1) * 2 ^ (width - sts) ≤ 2 ^ sts * 2 ^ (width - sts) =
      mul-le-mul_right (2 ^ (width - sts)) (omega arith) in
    let back : width - (width - sts) ≡ sts = omega arith in
    let whole : 2 ^ width ≡ 2 ^ sts * 2 ^ (width - sts) =
      two_pow_split (width - sts) width (omega arith)
      ∙ ap (λ (t : ℕ). 2 ^ t * 2 ^ (width - sts)) back in
    omega (arith, room)

-- With a 16-bit guard, a storage tag of `sts` bits, at most 32, and a reference tag of the other
-- bits are stored whole: CDW14 is the one above the other.
pub guard16-space :
    (sts rtag stag : ℕ)
    → sts ≤ 32
    → stag < 2 ^ sts
    → rtag < 2 ^ (32 - sts)
    → (t : Tags) × (guard16 sts rtag stag ≡ some t) × Fits t × (joined t ≡ space 32 sts rtag stag)
guard16-space sts rtag stag h ht hr =
    let lt = space_lt 32 sts rtag stag h ht hr in
    (_, guard16_lem sts rtag stag h hr, (omega arith, omega arith, omega arith), omega arith)

-- With a 32-bit guard, a storage tag of `sts` bits, 17 to 64, and a reference tag of the other bits
-- of 80 are stored whole: CDW2, CDW3 and CDW14 in a row are the one above the other.
pub guard32-space :
    (sts rtag stag : ℕ)
    → 16 < sts
    → sts ≤ 64
    → stag < 2 ^ sts
    → rtag < 2 ^ (80 - sts)
    → (t : Tags) × (guard32 sts rtag stag ≡ some t) × Fits t × (joined t ≡ space 80 sts rtag stag)
guard32-space sts rtag stag more h ht hr =
    let lt = space_lt 80 sts rtag stag (omega arith) ht hr in
    (_, guard32_lem sts rtag stag more h hr, (omega arith, omega arith, omega arith), omega arith)

-- With a 64-bit guard, a storage tag of `sts` bits, at most 48, and a reference tag of the other
-- bits of 48 are stored whole, in CDW3 and CDW14.
pub guard64-space :
    (sts rtag stag : ℕ)
    → sts ≤ 48
    → stag < 2 ^ sts
    → rtag < 2 ^ (48 - sts)
    → (t : Tags) × (guard64 sts rtag stag ≡ some t) × Fits t × (joined t ≡ space 48 sts rtag stag)
guard64-space sts rtag stag h ht hr =
    let lt = space_lt 48 sts rtag stag h ht hr in
    (_, guard64_lem sts rtag stag h hr, (omega arith, omega arith, omega arith), omega arith)

-- A storage tag of 16 bits, the least that a 32-bit guard allows, has the code shift a 64-bit number
-- by 64.
pub guard32_undefined : (rtag stag : ℕ) → guard32 16 rtag stag ≡ none
unfolding guard32 three_shifts two_shifts one_shift
guard32_undefined rtag stag = refl
