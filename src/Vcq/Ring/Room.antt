-- ===== src/Vcq/Ring/Room.antt =====
-- Room in a ring: once its owner has popped, a push succeeds.
use unvme_cli.Prelude.{
  ℕ, ◌+◌, ◌<◌, some, ◌≡◌, refl, arith, ◌==◌, if◌then◌else◌, Bool-cases, inl, inr,
}
use unvme_cli.Vcq.Ring.{Cqe, Vcq, after, push, pop}
use unvme_cli.Vcq.Ring.Inv.{IsRing, gap, mod-turn, after-turn, full_lem, gap-pos}

-- At least one entry more would fit.
abbrev pub HasRoom : Vcq → Type 0
HasRoom q = gap q.qsize q.head q.tail + 1 < q.qsize

-- What the owner leaves behind with one pop.
pub pop_step : Vcq → Vcq
pop_step q = if q.head == q.tail then q else record q { head = after q.qsize q.head }

pub pop_step_lem : (q : Vcq) → (pop (some q)).0 ≡ some (pop_step q)
unfolding pop pop_step
pop_step_lem q = elim (Bool-cases (q.head == q.tail)) [ inl e ↦ rw e refl | inr e ↦ rw e refl ]

pub pop_step-IsRing : (q : Vcq) → IsRing q → IsRing (pop_step q)
unfolding pop_step
pop_step-IsRing q v = ground (arith, after-turn q.qsize q.head)

pub pop_step-size : (q : Vcq) → (pop_step q).qsize ≡ q.qsize
unfolding pop_step
pop_step-size q = ground arith

-- A pop makes room in a ring of two slots or more, and keeps it.
pub pop_step-HasRoom : (q : Vcq) → IsRing q → 1 < q.qsize → HasRoom (pop_step q)
unfolding pop_step
pop_step-HasRoom q v two = ground (arith, after-turn q.qsize q.head, gap-pos q.qsize q.head q.tail)

-- With room a push succeeds.
pub push-HasRoom :
    (q : Vcq) (u_bdf : ℕ) (cqe : Cqe) (injected : ℕ)
    → IsRing q
    → HasRoom q
    → ((push q u_bdf cqe injected).1 ≡ 0) × ((push q u_bdf cqe injected).0.qsize ≡ q.qsize)
unfolding push
push-HasRoom q u_bdf cqe injected v room =
    ground (arith, mod-turn q.qsize q.tail, full_lem q.qsize q.head q.tail)
