-- ===== src/Prelude/Windows.antt =====
-- Fields of a number that is made of a high and a low part, at any width: what a shift, a mask and an
-- `|` pick out of the two parts is what they pick out of the whole.
use Prim.Native.Nat.{ℕ, zero, suc, ◌+◌, ◌-◌, ◌*◌, ◌/◌, ◌%◌, ◌^◌, ◌≤◌, ◌<◌, bit_and, bit_or}
use mathlib.Core.Path.{◌≡◌, sym, ap, subst, ◌∙◌}
use native.Mathlib.Nat.{
  pow-suc, one-le-pow, div-add-mod', mod-lt, div-eq_of_lt, mul-le-mul_right, div-lt_iff_lt-mul,
  mul-add-div_right, add-mul-div_right,
}
use native.Mathlib.Decide.{dec_lt}
use native.Mathlib.Omega.{arith}
use unvme_cli.Prelude.Bits.{bit_or-zero, fields_bit_or, bit_and-split, bit_and-mask, mod_of}

pub two_pow_add : (a b : ℕ) → 2 ^ (a + b) ≡ 2 ^ a * 2 ^ b
two_pow_add zero b = let none : 0 + b ≡ b = omega arith in rw none (omega arith)
two_pow_add (suc a) b =
    let next : suc a + b ≡ suc (a + b) = omega arith in
    ap (λ (t : ℕ). 2 ^ t) next
    ∙ pow-suc 2 (a + b)
    ∙ omega
        (arith, ap (λ (t : ℕ). t * 2) (two_pow_add a b), ap (λ (t : ℕ). t * 2 ^ b) (pow-suc 2 a))

-- A power split at a smaller one.
pub two_pow_split : (j m : ℕ) → j ≤ m → 2 ^ m ≡ 2 ^ (m - j) * 2 ^ j
two_pow_split j m h =
    let parts : m ≡ m - j + j = omega arith in ap (λ (t : ℕ). 2 ^ t) parts ∙ two_pow_add (m - j) j

pub two_pow_pos : (k : ℕ) → 0 < 2 ^ k
two_pow_pos k = one-le-pow k 2 (omega arith)

-- A quotient, from a remainder.
pub div_of : (m q t : ℕ) {a : ℕ} → a ≡ t + q * m → t < m → a / m ≡ q
div_of m q t e h = rw e (add-mul-div_right t q (omega arith) ∙ omega (arith, div-eq_of_lt h))

-- `|` of two remainders by `2 ^ w`, where the high part starts at a bit above `w` or below it.
low_or :
    (e w q t : ℕ)
    → bit_or (t % 2 ^ w) (q * (2 ^ e * 2 ^ w) % 2 ^ w) ≡ (q * (2 ^ e * 2 ^ w) + t) % 2 ^ w
low_or e w q t =
    let W : ℕ = 2 ^ w in
    let pos : 0 < W = two_pow_pos w in
    let parts : t / W * W + t % W ≡ t = div-add-mod' t W in
    let small : t % W < W = mod-lt t pos in
    let gone : q * (2 ^ e * W) % W ≡ 0 = mod_of W (q * 2 ^ e) 0 (grind arith) pos in
    let left : (q * (2 ^ e * W) + t) % W ≡ t % W =
      mod_of W (q * 2 ^ e + t / W) (t % W) (grind arith) small in
    rw (gone, left) (bit_or-zero (t % W))

high_or :
    (e d q t : ℕ)
    → t < 2 ^ d
    → bit_or (t % (2 ^ e * 2 ^ d)) (q * 2 ^ d % (2 ^ e * 2 ^ d)) ≡ (q * 2 ^ d + t) % (2 ^ e * 2 ^ d)
high_or e d q t h =
    let E : ℕ = 2 ^ e in
    let D : ℕ = 2 ^ d in
    let parts : q / E * E + q % E ≡ q = div-add-mod' q E in
    let small : q % E < E = mod-lt q (two_pow_pos e) in
    let room : (q % E + 1) * D ≤ E * D = mul-le-mul_right D (omega arith) in
    let fits : q % E * D + t < E * D = omega (arith, room) in
    let high : q * D % (E * D) ≡ q % E * D =
      mod_of (E * D) (q / E) (q % E * D) (omega (arith, ap (λ (x : ℕ). x * D) parts))
        (omega arith) in
    let low : t % (E * D) ≡ t = mod_of (E * D) 0 t (omega arith) (omega arith) in
    let both : (q * D + t) % (E * D) ≡ q % E * D + t =
      mod_of (E * D) (q / E) (q % E * D + t) (omega (arith, ap (λ (x : ℕ). x * D) parts)) fits in
    rw (high, low, both) (fields_bit_or d (q % E) t h)

pub or_mod :
    (w d q t : ℕ) → t < 2 ^ d → bit_or (t % 2 ^ w) (q * 2 ^ d % 2 ^ w) ≡ (q * 2 ^ d + t) % 2 ^ w
or_mod w d q t h = elim (dec_lt d w) [
  | yes below ↦
      subst (λ (W : ℕ). bit_or (t % W) (q * 2 ^ d % W) ≡ (q * 2 ^ d + t) % W)
        (sym (two_pow_split d w (omega arith))) (high_or (w - d) d q t h)
  | no above ↦
      subst (λ (D : ℕ). bit_or (t % 2 ^ w) (q * D % 2 ^ w) ≡ (q * D + t) % 2 ^ w)
        (sym (two_pow_split w d (omega arith))) (low_or (d - w) w q t)
]

-- The window of `w` bits from bit `j` on, where the low part reaches beyond `j`.
pub window_across :
    (m j w q r : ℕ)
    → j ≤ m
    → r < 2 ^ m
    → bit_or (r / 2 ^ j % 2 ^ w) (q * 2 ^ (m - j) % 2 ^ w) ≡ (q * 2 ^ m + r) / 2 ^ j % 2 ^ w
window_across m j w q r h small =
    let J : ℕ = 2 ^ j in
    let D : ℕ = 2 ^ (m - j) in
    let pos : 0 < J = two_pow_pos j in
    let split : 2 ^ m ≡ D * J = two_pow_split j m h in
    let low : r / J < D = (div-lt_iff_lt-mul pos).1 (omega arith) in
    let whole : (q * 2 ^ m + r) / J ≡ q * D + r / J =
      ap (λ (t : ℕ). t / J) (omega (arith, ap (λ (t : ℕ). q * t) split))
      ∙ mul-add-div_right pos (q * D) r in
    rw whole (or_mod w (m - j) q (r / J) low)

-- The window that starts above the low part.
pub window_above :
    (m j q r : ℕ)
    → m ≤ j
    → r < 2 ^ m
    → ((q * 2 ^ m + r) / 2 ^ j ≡ q / 2 ^ (j - m)) × (r / 2 ^ j ≡ 0)
window_above m j q r h small =
    let M : ℕ = 2 ^ m in
    let E : ℕ = 2 ^ (j - m) in
    let split : 2 ^ j ≡ E * M = two_pow_split m j h in
    let parts : q / E * E + q % E ≡ q = div-add-mod' q E in
    let rest : q % E < E = mod-lt q (two_pow_pos (j - m)) in
    let room : (q % E + 1) * M ≤ E * M = mul-le-mul_right M (omega arith) in
    (
      rw split (
          div_of (E * M) (q / E) (q % E * M + r) (omega (arith, ap (λ (x : ℕ). x * M) parts))
            (omega (arith, room))),
      div-eq_of_lt (omega (arith, room)),
    )

-- A mask of sixteen ones above sixteen zeros.
pub high_mask : (z : ℕ) → bit_and (z * 2 ^ 16) 0xffff0000 ≡ z * 2 ^ 16 % 2 ^ 32
high_mask z =
    let zeros : z * 2 ^ 16 ≡ z * 2 ^ 16 + 0 = omega arith in
    ap (λ (t : ℕ). bit_and t 0xffff0000) zeros
    ∙ bit_and-split 16 z 0xffff 0 0 (omega arith) (omega arith)
    ∙ omega (arith, bit_and-mask 16 z)
