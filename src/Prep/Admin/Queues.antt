-- ===== src/Prep/Admin/Queues.antt =====
-- lib/libunvmed-cmds.c, the commands that create and delete queues: sizes, identifiers and flags.
use Prim.Native.Nat.{bit_and, bit_or}
use unvme_cli.Prelude.{
  ℕ, ◌+◌, ◌-◌, ◌*◌, ◌%◌, ◌^◌, ◌≤◌, ◌<◌, Bool, true, false, Option, none, some, ◌≡◌, refl, arith,
  if◌then◌else◌, bit_and-mask, bit_or_fields,
}
use unvme_cli.Prep.Admin.{Entry, Codes}

-- The flags and the interrupt vector of a completion queue; `none` is a negative vector.
vector_flags : Codes → ℕ → Option ℕ → ℕ
vector_flags c qflags none = qflags
vector_flags c qflags (some vector) = bit_or qflags c.cq_ien

vector_iv : Option ℕ → ℕ
vector_iv none = 0
vector_iv (some vector) = vector % 2 ^ 16

module _ {D : Type 0} (c : Codes) where
  -- `unvmed_cmd_prep_create_sq`: `iova` is where the queue's memory is, by the queue's identifier.
  pub prep_create_sq : Entry D → ℕ → (ℕ → ℕ) → ℕ → ℕ → ℕ → ℕ → Bool → ℕ → Entry D
  prep_create_sq x cid iova qid qsize cqid qprio pc nvmsetid =
      let prio = bit_and qprio 0x3 * 2 ^ 1 in
      record x {
        opcode = c.create_sq;
        qid = qid % 2 ^ 16;
        prp1 = iova qid;
        qsize = (qsize + 2 ^ 32 - 1) % 2 ^ 16;
        qflags = if pc then bit_or prio c.q_pc else prio;
        rsvd12 = nvmsetid;
        cqid = cqid % 2 ^ 16;
        cid = cid;
      }

  -- `unvmed_cmd_prep_delete_sq`
  pub prep_delete_sq : Entry D → ℕ → ℕ → Entry D
  prep_delete_sq x cid qid = record x { opcode = c.delete_sq; qid = qid % 2 ^ 16; cid = cid }

  -- `unvmed_cmd_prep_create_cq`: `none` is a negative vector.
  pub prep_create_cq : Entry D → ℕ → (ℕ → ℕ) → ℕ → ℕ → Option ℕ → Bool → Entry D
  unfolding vector_flags vector_iv
  prep_create_cq x cid iova qid qsize vector pc = record x {
    opcode = c.create_cq;
    qid = qid % 2 ^ 16;
    prp1 = iova qid;
    qsize = (qsize + 2 ^ 32 - 1) % 2 ^ 16;
    qflags = vector_flags c (if pc then bit_or 0 c.q_pc else 0) vector;
    iv = vector_iv vector;
    cid = cid;
  }

  -- `unvmed_cmd_prep_delete_cq`
  pub prep_delete_cq : Entry D → ℕ → ℕ → Entry D
  prep_delete_cq x cid qid = record x { opcode = c.delete_cq; qid = qid % 2 ^ 16; cid = cid }

-- A flag as a number.
abbrev pub bit_of : Bool → ℕ
bit_of b = if b then 1 else 0

module _ {D : Type 0} (c : Codes) (x : Entry D) (cid : ℕ) (iova : ℕ → ℕ) (qid qsize : ℕ) where
  -- The entry that creates a submission queue, where libvfn's flag of contiguous memory is bit 0: it
  -- says one less than the size, for a size of 1 to 65536; the identifiers come through when they
  -- have 16 bits; and the flags hold contiguity and the two bits of priority and nothing else.
  pub create_sq_fields :
      (cqid qprio nvmsetid : ℕ) (pc : Bool)
      → c.q_pc ≡ 1
      → 0 < qsize
      → qsize ≤ 2 ^ 16
      → qid < 2 ^ 16
      → cqid < 2 ^ 16
      → let e = prep_create_sq c x cid iova qid qsize cqid qprio pc nvmsetid in
        (e.qsize + 1 ≡ qsize)
        × (e.qid ≡ qid)
        × (e.cqid ≡ cqid)
        × (e.prp1 ≡ iova qid)
        × (e.qflags ≡ qprio % 4 * 2 + bit_of pc)
  unfolding prep_create_sq
  create_sq_fields cqid qprio nvmsetid true bit pos small hq hc =
      rw (bit, bit_and-mask 2 qprio, bit_or_fields 1 (qprio % 2 ^ 2) 1 (omega arith))
        (omega arith, omega arith, omega arith, refl, omega arith)
  create_sq_fields cqid qprio nvmsetid false bit pos small hq hc =
      rw (bit_and-mask 2 qprio) (omega arith, omega arith, omega arith, refl, omega arith)

  -- The entry that creates a completion queue, where libvfn's flags are bits 0 and 1: likewise its
  -- size and identifier; interrupts are on exactly when there is a vector, which comes through when
  -- it has 16 bits.
  pub create_cq_fields :
      (vector : ℕ) (pc : Bool)
      → c.q_pc ≡ 1
      → c.cq_ien ≡ 2
      → 0 < qsize
      → qsize ≤ 2 ^ 16
      → qid < 2 ^ 16
      → vector < 2 ^ 16
      → let e = prep_create_cq c x cid iova qid qsize (some vector) pc in
        let e' = prep_create_cq c x cid iova qid qsize none pc in
        (e.qsize + 1 ≡ qsize)
        × (e.qid ≡ qid)
        × (e.qflags ≡ 2 + bit_of pc)
        × (e.iv ≡ vector)
        × (e'.qsize + 1 ≡ qsize)
        × (e'.qid ≡ qid)
        × (e'.qflags ≡ bit_of pc)
        × (e'.iv ≡ 0)
  unfolding prep_create_cq vector_flags vector_iv
  create_cq_fields vector true pc ien pos small hq hv =
      rw (pc, ien)
        (omega arith, omega arith, refl, omega arith, omega arith, omega arith, refl, refl)
  create_cq_fields vector false pc ien pos small hq hv =
      rw ien (omega arith, omega arith, refl, omega arith, omega arith, omega arith, refl, refl)
