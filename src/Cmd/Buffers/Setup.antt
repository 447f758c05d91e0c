-- ===== src/Cmd/Buffers/Setup.antt =====
-- What the set-up of a command leaves behind, on its success and on each of its failures.
use native.Mathlib.Decide.{ℕ_discrete}
use unvme_cli.Prelude.{
  ℕ, Option, none, some, ◌++◌, ◌≡◌, ◌≢◌, refl, ap, ◌∙◌, sym, ◌⊎◌, inl, inr, Bool-cases, ◌%◌, ◌^◌,
}
use unvme_cli.Cmd.{
  is_init, Cmd, no_cmd, Buf, Sq, Slot, regular, conflict, read, write, fail, buf_free, cmd_alloc,
  cmd_put,
}
use unvme_cli.Cmd.Inv.{live, IsSq, write-IsSq}
use unvme_cli.Cmd.Life.{
  reads, read-write, write_others, log-IsSq, buf_free-IsSq, read-buf_free, cmd_put-IsSq,
  cmd_put_last,
}
use unvme_cli.Cmd.Alloc.{Fresh, Allotted, fail-Kept, cmd_alloc-Allotted}
use unvme_cli.Cmd.Buffers.{
  Memory, Outcome, buf_init, noted, note, init_mbuf, init_buf, init_with, cmd_init,
}

slot_cases : (t s : Slot) → (t ≡ s) ⊎ (t ≢ s)
slot_cases (regular c) (regular d) = elim (ℕ_discrete c d) [
  | yes e ↦ inl (ap regular e)
  | no ne ↦ inr (λ e. ne (ap number e))
]
  where
    number : Slot → ℕ
    number (regular k) = k
    number conflict = 0
slot_cases (regular c) conflict = inr (λ e. cc)
slot_cases conflict (regular d) = inr (λ e. cc)
slot_cases conflict conflict = inl refl

-- The command in `s` is the only change to which slots are in use.
abbrev pub Taken : {R : Type 0} → Sq R → Sq R → Slot → Type 0
Taken q q' s = IsSq q' × Fresh q q' s

-- A command that is returned is the only change to the slots; after a NULL no slot has changed
-- hands.
abbrev pub Settled : {R : Type 0} → Sq R → Sq R × Option Slot → Type 0
Settled q (q', none) = IsSq q' × ((t : Slot) → live (read q' t) ≡ live (read q t))
Settled q (q', some s) = Taken q q' s

module _ {R : Type 0} (rq_acquire : R → Option (ℕ × R)) (rq_release : ℕ → R → R) (q : Sq R) where
  -- A queue whose slots read the same.
  pub alike :
      (q1 q2 : Sq R) (s : Slot)
      → IsSq q2
      → ((t : Slot) → read q2 t ≡ read q1 t)
      → Taken q q1 s
      → Taken q q2 s
  alike q1 q2 s w same (v, (was, now, one, others)) =
      (w, (was, ap live (same s) ∙ now, ap Cmd.refcnt (same s) ∙ one, λ t ne. same t ∙ others t ne))

  pub rewrite-Taken :
      (q1 : Sq R) (s : Slot) (x : Cmd)
      → x.state ≡ (read q1 s).state
      → x.cid ≡ (read q1 s).cid
      → x.injected ≡ (read q1 s).injected
      → x.refcnt ≡ (read q1 s).refcnt
      → Taken q q1 s
      → Taken q (write q1 s x) s
  rewrite-Taken q1 s x st ci inj rc (v, (was, now, one, others)) =
      let e = read-write q1 v s x now in
      (
        write-IsSq v s x now (ap is_init st) ci inj,
        (
          was,
          ap live e ∙ ap (λ k. live (record no_cmd { state = k })) st ∙ now,
          ap Cmd.refcnt e ∙ rc ∙ one,
          λ t ne. write_others q1 s x t ne ∙ others t ne,
        ),
      )

  pub note-Taken : (q1 : Sq R) (s : Slot) (o : Outcome) → Taken q q1 s → Taken q (note q1 o) s
  unfolding note noted
  note-Taken q1 s o (v, f) = go o.error
    where
      q2 : Sq R
      q2 = record q1 { log = q1.log ++ o.done }

      go : (e : Option ℕ) → Taken q (noted e q2) s
      go none = alike q1 q2 s (log-IsSq q1 (q1.log ++ o.done) v) (reads q1 q2 refl refl) (v, f)
      go (some e) =
          alike q1 (fail q2 e) s
            (fail-Kept rq_acquire rq_release (log-IsSq q1 (q1.log ++ o.done) v) e).0
            (reads q1 (fail q2 e) refl refl) (v, f)

  pub buf_free-Taken : (q1 : Sq R) (s : Slot) (b : Buf) → Taken q q1 s → Taken q (buf_free q1 b) s
  buf_free-Taken q1 s b (v, f) =
      alike q1 (buf_free q1 b) s (buf_free-IsSq q1 b v) (read-buf_free q1 b) (v, f)

  put-Taken :
      (q1 : Sq R) (s : Slot)
      → Taken q q1 s
      → Settled q ((cmd_put rq_acquire rq_release q1 s).0, none)
  put-Taken q1 s (v, (was, now, one, others)) =
      let p = cmd_put_last rq_acquire rq_release v s now one in
      (
        cmd_put-IsSq rq_acquire rq_release v s now,
        λ t. elim (slot_cases t s) [
          | inl e ↦ rw e (p.0 ∙ sym was)
          | inr ne ↦ ap live (p.1 t ne ∙ others t ne)
        ],
      )

  module _ (m : Memory) where
    mbuf-Settled :
        (q1 : Sq R) (s : Slot) (o : Outcome)
        → Taken q q1 s
        → Settled q (init_mbuf rq_acquire rq_release m q1 s o)
    unfolding init_mbuf
    mbuf-Settled q1 s o t =
        let x = record (read q1 s) { mbuf = o.buf } in
        let q2 = note (write q1 s x) o in
        let t2 = note-Taken (write q1 s x) s o (rewrite-Taken q1 s x refl refl refl refl t) in
        elim (Bool-cases o.failed) [
          | inl bad ↦
              rw bad
                (put-Taken (buf_free q2 (read q2 s).buf) s (buf_free-Taken q2 s (read q2 s).buf t2))
          | inr good ↦ rw good t2
        ]

    buf-Settled :
        (q1 : Sq R) (s : Slot) (o mo : Outcome)
        → Taken q q1 s
        → Settled q (init_buf rq_acquire rq_release m q1 s o mo)
    unfolding init_buf
    buf-Settled q1 s o mo t =
        let x = record (read q1 s) { buf = o.buf } in
        let q2 = note (write q1 s x) o in
        let t2 = note-Taken (write q1 s x) s o (rewrite-Taken q1 s x refl refl refl refl t) in
        elim (Bool-cases o.failed) [
          | inl bad ↦ rw bad (put-Taken q2 s t2)
          | inr good ↦ rw good (mbuf-Settled q2 s mo t2)
        ]

    with-Settled :
        (r : Sq R × Option Slot) (o mo : Outcome)
        → Allotted q r
        → Settled q (init_with rq_acquire rq_release m r o mo)
    unfolding init_with
    with-Settled (q1, none) o mo (v, k) = (v, λ t. ap live (k.0 t))
    with-Settled (q1, some s) o mo (v, blank, f) = buf-Settled q1 s o mo (v, f)

    -- `__unvmed_cmd_init` on a queue whose bitmap, slots and `nr_cmds` agree, whatever libvfn, the
    -- allocator and the IOMMU answer: they agree afterwards. If it returns a command, that has one
    -- reference, its slot was free, and every other slot is as it was. If it returns NULL, because
    -- of the command or of either buffer, the slots in use are the ones from before.
    pub cmd_init_lem :
        (v : IsSq q) (want va : Option ℕ) (len : ℕ) (mva : Option ℕ) (mlen vcq_id : ℕ)
        → Settled q (cmd_init rq_acquire rq_release m q want va len mva mlen vcq_id)
    unfolding cmd_init
    cmd_init_lem v want va len mva mlen vcq_id =
        with-Settled (cmd_alloc rq_acquire rq_release q want vcq_id) (buf_init m va (len % 2 ^ 32))
          (buf_init m mva (mlen % 2 ^ 32)) (cmd_alloc-Allotted rq_acquire rq_release v want vcq_id)
