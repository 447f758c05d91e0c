-- ===== src/Vcq/Ring/Inv.antt =====
-- The invariant of a ring, and that its operations keep it.
use native.Mathlib.Nat.{mod-eq_of_lt}
use unvme_cli.Prelude.{
  ℕ, ◌+◌, ◌-◌, ◌%◌, ◌^◌, ◌≤◌, ◌<◌, ◌≡◌, arith, length, length-set, ◌==◌, leb, ◌≢◌, suc,
  if◌then◌else◌,
}
use unvme_cli.Vcq.Ring.{Cqe, Vcq, push, after}

-- At least one slot, indices that `uint16_t` can hold, and both of them inside the slots.
pub record IsRing (q : Vcq) : Type 0 where
  pub nonempty : 0 < q.qsize
  pub small : q.qsize ≤ 2 ^ 16
  pub allocated : length q.slots ≡ q.qsize
  pub head_in : q.head < q.qsize
  pub tail_in : q.tail < q.qsize

-- One step round a ring of `n` slots.
abbrev pub turn : ℕ → ℕ → ℕ
turn n i = if i + 1 == n then 0 else i + 1

-- How many steps lead from `i` to `j`.
abbrev pub gap : ℕ → ℕ → ℕ → ℕ
gap n i j = if leb i j then j - i else j + n - i

pub mod-turn : (n i : ℕ) → i < n → (i + 1) % n ≡ turn n i
mod-turn n i h = grind (arith, mod-eq_of_lt)

pub after-turn : (n i : ℕ) → n ≤ 2 ^ 16 → i < n → after n i ≡ turn n i
after-turn n i k h = rw (mod-turn n i h) (ground arith)

-- `__unvmed_vcq_push` keeps a ring well-formed: at least one and at most 2 ^ 16 slots, and both
-- indices inside them.
pub push-IsRing :
    {q : Vcq} (u_bdf : ℕ) (cqe : Cqe) (injected : ℕ)
    → IsRing q
    → IsRing (push q u_bdf cqe injected).0
unfolding push
push-IsRing {q} u_bdf cqe injected v = ground (
  arith,
  after-turn q.qsize q.tail,
  length-set q.slots q.tail (record { cqe = cqe; bdf = u_bdf; injected = injected }),
)

-- The ring is full when one more entry would close the circle.
pub full_lem : (n i j : ℕ) → i < n → j < n → (turn n j == i) ≡ (gap n i j + 1 == n)
full_lem n i j hi hj = ground arith

pub gap-turn : (n i j : ℕ) → i < n → j < n → turn n j ≢ i → gap n i (turn n j) ≡ suc (gap n i j)
gap-turn n i j hi hj ne = ground arith

pub gap-pos : (n i j : ℕ) → i < n → j < n → i ≢ j → gap n i j ≡ suc (gap n (turn n i) j)
gap-pos n i j hi hj ne = ground arith
