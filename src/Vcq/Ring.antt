-- ===== src/Vcq/Ring.antt =====
-- lib/libunvmed.h, `struct unvme_vcq`, and the ring operations of lib/libunvmed-vcq.c.
pub mod Inv
pub mod Refine
pub mod Room
use unvme_cli.Prelude.{
  ℕ, ◌+◌, ◌%◌, ◌^◌, Option, none, some, List, ◌==◌, if◌then◌else◌, get_elem?, set, replicate,
  eagain, enoent,
}

-- The parts of a completion entry that the library reads: `sqid`, `cid`, `sfp`.
pub record Cqe : Type 0 where
  pub sqid : ℕ
  pub cid : ℕ
  pub sfp : ℕ

-- `struct unvme_vcqe`
pub record Vcqe : Type 0 where
  pub cqe : Cqe
  pub bdf : ℕ
  pub injected : ℕ

-- `struct unvme_vcq`. `head` and `tail` are `uint16_t`; the slots are what `vcqe` points to.
pub record Vcq : Type 0 where
  pub qid : ℕ
  pub qsize : ℕ
  pub head : ℕ
  pub tail : ℕ
  pub slots : List Vcqe

-- The ring index behind `i`, as it is stored into a `uint16_t`.
abbrev pub after : ℕ → ℕ → ℕ
after qsize i = (i + 1) % qsize % 2 ^ 16

-- `__unvmed_vcq_push`; its result is 0, or the number after the sign.
unfoldable pub push : Vcq → ℕ → Cqe → ℕ → Vcq × ℕ
push q u_bdf cqe injected = if (q.tail + 1) % q.qsize == q.head then (q, eagain) else (
  record q {
    slots = set q.slots q.tail (record { cqe = cqe; bdf = u_bdf; injected = injected });
    tail = after q.qsize q.tail;
  },
  0,
)

-- `unvmed_vcq_pop`. The middle part is what it leaves in `*vcqe`; a read beyond the slots gives
-- `none` there.
unfoldable pub pop : Option Vcq → Option Vcq × Option Vcqe × ℕ
pop none = (none, none, enoent)
pop (some q) =
    if q.head == q.tail
    then (some q, none, enoent)
    else (some (record q { head = after q.qsize q.head }), get_elem? q.slots q.head, 0)
