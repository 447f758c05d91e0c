-- ===== src/Prelude/Bits.antt =====
-- `&` and `|` of words, for two numbers that are split at the same bit. The native operations are
-- recursions on binary digits.
use Prim.Native.Nat.{
  ℕ, zero, suc, ◌+◌, ◌*◌, ◌/◌, ◌%◌, ◌^◌, ◌-◌, ◌≤◌, ◌<◌, min, max, digits, bit_and, bit_or,
  bit_and-bitwise, bit_or-bitwise,
}
use mathlib.Core.Path.{◌≡◌, refl, sym, ap, ap₂, ◌∙◌}
use native.Mathlib.Nat.{
  pow-suc, one-le-pow, div-add-mod', mod-lt, mod-eq_of_lt, add-mul-mod_self_right,
}
use native.Mathlib.Omega.{arith}

-- An operation on digits, `last` for when the first number has run out. Fuel beyond what is needed
-- changes nothing.
module _ (last : ℕ → ℕ) (digit : ℕ → ℕ → ℕ) where
  abbrev on_digits : ℕ → ℕ → ℕ
  on_digits a b = digits last digit a a b

  none_left : (fuel b : ℕ) → digits last digit fuel 0 b ≡ last b
  none_left zero b = refl
  none_left (suc fuel) b = refl

  enough :
      (x fuel more y : ℕ)
      → x ≤ fuel
      → x ≤ more
      → digits last digit fuel x y ≡ digits last digit more x y
  enough zero fuel more y h h' = none_left fuel y ∙ sym (none_left more y)
  enough (suc x) zero more y h h' = absurd (omega arith)
  enough (suc x) (suc fuel) zero y h h' = absurd (omega arith)
  enough (suc x) (suc fuel) (suc more) y h h' =
      let half = enough (suc x / 2) fuel more (y / 2) (omega arith) (omega arith) in
      ap (λ (t : ℕ). t * 2 + digit (suc x % 2) (y % 2)) half

  lowest : (a b : ℕ) → 0 < a → on_digits a b ≡ on_digits (a / 2) (b / 2) * 2 + digit (a % 2) (b % 2)
  lowest zero b h = absurd (omega arith)
  lowest (suc a) b h =
      ap (λ (t : ℕ). t * 2 + digit (suc a % 2) (b % 2))
        (enough (suc a / 2) a (suc a / 2) (b / 2) (omega arith) (omega arith))

halves :
    (k x t : ℕ) → ((x * 2 ^ suc k + t) / 2 ≡ x * 2 ^ k + t / 2) × ((x * 2 ^ suc k + t) % 2 ≡ t % 2)
halves k x t =
    let e : x * 2 ^ suc k ≡ x * 2 ^ k * 2 = omega (arith, ap (λ (t : ℕ). x * t) (pow-suc 2 k)) in
    (omega arith, omega arith)

half_lt : (k t : ℕ) → t < 2 ^ suc k → t / 2 < 2 ^ k
half_lt k t h = omega (arith, pow-suc 2 k)

-- From the equation for the lowest digit to one for a split at any bit.
module _ (op digit : ℕ → ℕ → ℕ) (op-zero : op 0 0 ≡ 0)
    (step : (x y : ℕ) → op x y ≡ digit (x % 2) (y % 2) + 2 * op (x / 2) (y / 2)) where
  split_at :
      (k q p r s : ℕ)
      → r < 2 ^ k
      → s < 2 ^ k
      → op (q * 2 ^ k + r) (p * 2 ^ k + s) ≡ op q p * 2 ^ k + op r s
  split_at zero q p r s hr hs =
      let er : r ≡ 0 = omega arith in
      let es : s ≡ 0 = omega arith in
      let one : (x : ℕ) → x * 2 ^ 0 + 0 ≡ x = λ x. omega arith in
      rw (er, es, one q, one p, op-zero) (omega arith)
  split_at (suc k) q p r s hr hs =
      step (q * 2 ^ suc k + r) (p * 2 ^ suc k + s)
      ∙ rw
          (
            (halves k q r).0,
            (halves k q r).1,
            (halves k p s).0,
            (halves k p s).1,
            split_at k q p (r / 2) (s / 2) (half_lt k r hr) (half_lt k s hs),
          )
          (omega (arith, step r s, ap (λ (t : ℕ). op q p * t) (pow-suc 2 k)))

  -- What a number becomes against 0, from what its digits become.
  against_zero :
      (g : ℕ → ℕ)
      → g 0 ≡ 0
      → ((x : ℕ) → g x ≡ digit (x % 2) 0 + 2 * g (x / 2))
      → (bound x : ℕ) → x ≤ bound
      → op x 0 ≡ g x
  against_zero g e rule zero x h = let none : x ≡ 0 = omega arith in rw (none, op-zero, e) refl
  against_zero g e rule (suc bound) x h =
      step x 0
      ∙ ap (λ (t : ℕ). digit (x % 2) 0 + 2 * t) (against_zero g e rule bound (x / 2) (omega arith))
      ∙ sym (rule x)

-- The lowest digit of both operations, and the rest.
or_lowest : (x y : ℕ) → bit_or x y ≡ max (x % 2) (y % 2) + 2 * bit_or (x / 2) (y / 2)
or_lowest zero y =
    let whole : bit_or 0 y ≡ y = bit_or-bitwise 0 y in omega (arith, bit_or-bitwise 0 (y / 2))
or_lowest (suc x) y =
    let digits_of : bit_or (suc x) y ≡ bit_or (suc x / 2) (y / 2) * 2 + max (suc x % 2) (y % 2) =
      bit_or-bitwise (suc x) y
      ∙ lowest (λ t. t) max (suc x) y (omega arith)
      ∙ ap (λ (t : ℕ). t * 2 + max (suc x % 2) (y % 2))
          (sym (bit_or-bitwise (suc x / 2) (y / 2))) in
    omega arith

and_lowest : (x y : ℕ) → bit_and x y ≡ min (x % 2) (y % 2) + 2 * bit_and (x / 2) (y / 2)
and_lowest zero y =
    let none : bit_and 0 y ≡ 0 = bit_and-bitwise 0 y in omega (arith, bit_and-bitwise 0 (y / 2))
and_lowest (suc x) y =
    let digits_of : bit_and (suc x) y ≡ bit_and (suc x / 2) (y / 2) * 2 + min (suc x % 2) (y % 2) =
      bit_and-bitwise (suc x) y
      ∙ lowest (λ t. 0) min (suc x) y (omega arith)
      ∙ ap (λ (t : ℕ). t * 2 + min (suc x % 2) (y % 2))
          (sym (bit_and-bitwise (suc x / 2) (y / 2))) in
    omega arith

-- `|` and `&` act on the two parts of their arguments, split above the lowest `k` bits.
pub bit_or-split :
    (k q p r s : ℕ)
    → r < 2 ^ k
    → s < 2 ^ k
    → bit_or (q * 2 ^ k + r) (p * 2 ^ k + s) ≡ bit_or q p * 2 ^ k + bit_or r s
bit_or-split = split_at bit_or max refl or_lowest

pub bit_and-split :
    (k q p r s : ℕ)
    → r < 2 ^ k
    → s < 2 ^ k
    → bit_and (q * 2 ^ k + r) (p * 2 ^ k + s) ≡ bit_and q p * 2 ^ k + bit_and r s
bit_and-split = split_at bit_and min refl and_lowest

-- A remainder, from a quotient.
pub mod_of : (m q t : ℕ) {a : ℕ} → a ≡ t + q * m → t < m → a % m ≡ t
mod_of m q t e h = rw e (add-mul-mod_self_right t q m ∙ mod-eq_of_lt h)

pub bit_and-zero : (a : ℕ) → bit_and a 0 ≡ 0
bit_and-zero a =
    against_zero bit_and min refl and_lowest (λ x. 0) refl (λ x. omega arith) a a (omega arith)

shifted_mod : (k a : ℕ) → a / 2 % 2 ^ k * 2 + a % 2 ≡ a % 2 ^ suc k
shifted_mod k a =
    let m : ℕ = 2 ^ k in
    let pos : 0 < m = one-le-pow k 2 (omega arith) in
    let q : ℕ = a / 2 / m in
    let r : ℕ = a / 2 % m in
    let e : q * m + r ≡ a / 2 = div-add-mod' (a / 2) m in
    let small : r < m = mod-lt (a / 2) pos in
    sym (
      mod_of (2 ^ suc k) q (r * 2 + a % 2) (omega (arith, ap (λ (t : ℕ). q * t) (pow-suc 2 k)))
        (omega (arith, pow-suc 2 k)))

pub bit_and-mask : (k a : ℕ) → bit_and a (2 ^ k - 1) ≡ a % 2 ^ k
bit_and-mask zero a = omega (arith, bit_and-zero a)
bit_and-mask (suc k) a =
    let half : (2 ^ suc k - 1) / 2 ≡ 2 ^ k - 1 = omega (arith, pow-suc 2 k) in
    let odd : (2 ^ suc k - 1) % 2 ≡ 1 = omega (arith, pow-suc 2 k, one-le-pow k 2 (omega arith)) in
    and_lowest a (2 ^ suc k - 1)
    ∙ rw (half, odd, bit_and-mask k (a / 2)) (omega (arith, shifted_mod k a))

pub zero-bit_or : (a : ℕ) → bit_or 0 a ≡ a
zero-bit_or a = bit_or-bitwise 0 a

pub bit_or-zero : (a : ℕ) → bit_or a 0 ≡ a
bit_or-zero a =
    against_zero bit_or max refl or_lowest (λ x. x) refl (λ x. omega arith) a a (omega arith)

-- `|` of a multiple of `2 ^ k` and a number of `k` bits is their sum, in both orders.
pub bit_or_fields : (k q r : ℕ) → r < 2 ^ k → bit_or (q * 2 ^ k) r ≡ q * 2 ^ k + r
bit_or_fields k q r h =
    let e : q * 2 ^ k ≡ q * 2 ^ k + 0 = omega arith in
    let e' : r ≡ 0 * 2 ^ k + r = omega arith in
    ap₂ bit_or e e'
    ∙ bit_or-split k q 0 0 r (omega arith) h
    ∙ rw (bit_or-zero q, zero-bit_or r) refl

pub fields_bit_or : (k q r : ℕ) → r < 2 ^ k → bit_or r (q * 2 ^ k) ≡ q * 2 ^ k + r
fields_bit_or k q r h =
    let e : q * 2 ^ k ≡ q * 2 ^ k + 0 = omega arith in
    let e' : r ≡ 0 * 2 ^ k + r = omega arith in
    ap₂ bit_or e' e
    ∙ bit_or-split k 0 q r 0 h (omega arith)
    ∙ rw (bit_or-zero r, zero-bit_or q) refl
