-- ===== src/Cmd/Buffers/Trace.antt =====
-- What the set-up of a command does to memory, in order.
use unvme_cli.Prelude.{
  ℕ, Option, none, some, List, [], ◌∷◌, ◌++◌, append-nil, append_assoc, ◌≡◌, refl, ap, ap₂, ◌∙◌,
  sym, subst, inl, inr, Bool-cases, ◌%◌, ◌^◌, if◌then◌else◌,
}
use unvme_cli.Cmd.{
  Cmd, no_buf, no_cmd, Buf, Sq, Slot, regular, conflict, read, write, fail, buf_free, cmd_alloc,
  cmd_put, cmd_free, cmd_release, Effect, unmap, free,
}
use unvme_cli.Cmd.Inv.{IsSq, Holds}
use unvme_cli.Cmd.Life.{reads, read-write, read-buf_free, put_frees, dropped}
use unvme_cli.Cmd.Alloc.{Allotted, cmd_alloc-Allotted}
use unvme_cli.Cmd.Buffers.{
  Memory, Outcome, buf_init, noted, note, init_mbuf, init_buf, init_with, cmd_init,
}
use unvme_cli.Cmd.Buffers.Setup.{Taken, note-Taken, rewrite-Taken, buf_free-Taken}

-- What the clean-up of a buffer does.
abbrev pub clean : Buf → List Effect
clean b =
    (if b.iova_unmap then unmap b.va ∷ [] else []) ++ (if b.va_unmap then free b.va ∷ [] else [])

-- The effects of the two set-ups, and of the clean-up that follows if one fails.
abbrev pub effects : Outcome → Outcome → List Effect
effects o mo =
    if o.failed
    then o.done ++ clean o.buf
    else o.done
      ++ (mo.done ++ (if mo.failed then clean o.buf ++ (clean o.buf ++ clean mo.buf) else []))

regroup :
    (l done b c : List Effect) → (((l ++ done) ++ b) ++ b) ++ c ≡ l ++ (done ++ (b ++ (b ++ c)))
regroup l done b c =
    append_assoc ((l ++ done) ++ b) b c
    ∙ append_assoc (l ++ done) b (b ++ c)
    ∙ append_assoc l done (b ++ (b ++ c))

module _ {R : Type 0} where
  log-buf_free : (q : Sq R) (b : Buf) → (buf_free q b).log ≡ q.log ++ clean b
  unfolding buf_free
  log-buf_free q b = refl

  log-write : (q : Sq R) (s : Slot) (x : Cmd) → (write q s x).log ≡ q.log
  log-write q (regular c) x = refl
  log-write q conflict x = refl

  log-note : (q : Sq R) (o : Outcome) → (note q o).log ≡ q.log ++ o.done
  unfolding note noted
  log-note q o = go o.error
    where
      go : (e : Option ℕ) → (noted e (record q { log = q.log ++ o.done })).log ≡ q.log ++ o.done
      go none = refl
      go (some e) = refl

  read-note : (q : Sq R) (o : Outcome) (t : Slot) → read (note q o) t ≡ read q t
  unfolding note noted
  read-note q o t = go o.error
    where
      q2 : Sq R
      q2 = record q { log = q.log ++ o.done }

      go : (e : Option ℕ) → read (noted e q2) t ≡ read q t
      go none = reads q q2 refl refl t
      go (some e) = reads q (fail q2 e) refl refl t

module _ {R : Type 0} (rq_acquire : R → Option (ℕ × R)) (rq_release : ℕ → R → R) where
  log-release : (q : Sq R) (s : Slot) → (cmd_release rq_acquire rq_release q s).log ≡ q.log
  unfolding cmd_release
  log-release q s = elim (Bool-cases (read q s).injected) [
    | inl e ↦ rw e (log-write q s no_cmd)
    | inr e ↦ rw e (log-write q s no_cmd)
  ]

  log-free :
      (q : Sq R) (s : Slot)
      → (cmd_free rq_acquire rq_release q s).log
        ≡ (q.log ++ clean (read q s).buf) ++ clean (read q s).mbuf
  unfolding cmd_free
  log-free q s =
      log-release (buf_free (buf_free q (read q s).buf) (read q s).mbuf) s
      ∙ log-buf_free (buf_free q (read q s).buf) (read q s).mbuf
      ∙ ap (λ l. l ++ clean (read q s).mbuf) (log-buf_free q (read q s).buf)

  log-put :
      {q : Sq R} (v : IsSq q) (s : Slot)
      → Holds q s
      → (read q s).refcnt ≡ 1
      → (cmd_put rq_acquire rq_release q s).0.log
        ≡ (q.log ++ clean (read q s).buf) ++ clean (read q s).mbuf
  log-put {q = q} v s h one =
      let e = read-write q v s (dropped q s) h in
      ap Sq.log (put_frees rq_acquire rq_release v s one)
      ∙ log-free (write q s (dropped q s)) s
      ∙ ap₂ (λ l x. (l ++ clean x.buf) ++ clean x.mbuf) (log-write q s (dropped q s)) e

  module _ (m : Memory) (q q1 : Sq R) (s : Slot) where
    log-init_mbuf :
        (o : Outcome)
        → Taken q q1 s
        → (init_mbuf rq_acquire rq_release m q1 s o).0.log
          ≡ q1.log
            ++ (o.done
                ++ (if o.failed
                    then clean (read q1 s).buf ++ (clean (read q1 s).buf ++ clean o.buf)
                    else []))
    unfolding init_mbuf
    log-init_mbuf o t = elim (Bool-cases o.failed) [
      | inl bad ↦ rw bad (
          log-put f.0 s f.1.1 f.1.2
          ∙ ap₂ (λ l k. (l ++ clean k.buf) ++ clean k.mbuf)
              (log-buf_free q2 (read q2 s).buf ∙ ap₂ (λ l k. l ++ clean k.buf) so_far now)
              (read-buf_free q2 (read q2 s).buf s ∙ now)
          ∙ regroup q1.log o.done (clean (read q1 s).buf) (clean o.buf))
      | inr good ↦ rw good (so_far ∙ ap (λ l. q1.log ++ l) (sym (append-nil o.done)))
    ]
      where
        x : Cmd
        x = record (read q1 s) { mbuf = o.buf }

        q2 : Sq R
        q2 = note (write q1 s x) o

        t2 : Taken q q2 s
        t2 =
            note-Taken rq_acquire rq_release q (write q1 s x) s o
              (rewrite-Taken rq_acquire rq_release q q1 s x refl refl refl refl t)

        f : Taken q (buf_free q2 (read q2 s).buf) s
        f = buf_free-Taken rq_acquire rq_release q q2 s (read q2 s).buf t2

        so_far : q2.log ≡ q1.log ++ o.done
        so_far = log-note (write q1 s x) o ∙ ap (λ l. l ++ o.done) (log-write q1 s x)

        now : read q2 s ≡ x
        now = read-note (write q1 s x) o s ∙ read-write q1 t.0 s x t.1.1

  module _ (m : Memory) (q q1 : Sq R) (s : Slot) where
    log-init_buf :
        (o mo : Outcome)
        → Taken q q1 s
        → (read q1 s).mbuf ≡ no_buf
        → (init_buf rq_acquire rq_release m q1 s o mo).0.log ≡ q1.log ++ effects o mo
    unfolding init_buf
    log-init_buf o mo t blank = elim (Bool-cases o.failed) [
      | inl bad ↦ rw bad (
          log-put t2.0 s t2.1.1 t2.1.2
          ∙ ap₂ (λ l k. (l ++ clean k.buf) ++ clean k.mbuf) so_far now
          ∙ ap (λ k. ((q1.log ++ o.done) ++ clean o.buf) ++ clean k) blank
          ∙ append-nil ((q1.log ++ o.done) ++ clean o.buf)
          ∙ append_assoc q1.log o.done (clean o.buf))
      | inr good ↦ rw good (
          log-init_mbuf m q q2 s mo t2
          ∙ ap₂
              (λ l k.
                l ++ (mo.done ++ (if mo.failed then clean k ++ (clean k ++ clean mo.buf) else [])))
              so_far (ap Cmd.buf now)
          ∙ append_assoc q1.log o.done
              (mo.done ++ (if mo.failed then clean o.buf ++ (clean o.buf ++ clean mo.buf) else [])))
    ]
      where
        x : Cmd
        x = record (read q1 s) { buf = o.buf }

        q2 : Sq R
        q2 = note (write q1 s x) o

        t2 : Taken q q2 s
        t2 =
            note-Taken rq_acquire rq_release q (write q1 s x) s o
              (rewrite-Taken rq_acquire rq_release q q1 s x refl refl refl refl t)

        so_far : q2.log ≡ q1.log ++ o.done
        so_far = log-note (write q1 s x) o ∙ ap (λ l. l ++ o.done) (log-write q1 s x)

        now : read q2 s ≡ x
        now = read-note (write q1 s x) o s ∙ read-write q1 t.0 s x t.1.1

  module _ (m : Memory) {q : Sq R} (v : IsSq q) where
    trace_of :
        (r : Sq R × Option Slot) (o mo : Outcome) (q1 : Sq R) (s : Slot)
        → Allotted q r
        → r ≡ (q1, some s)
        → (init_with rq_acquire rq_release m r o mo).0.log ≡ q1.log ++ effects o mo
    unfolding init_with
    trace_of r o mo q1 s al e =
        let t = subst (Allotted q) e al in rw e (log-init_buf m q q1 s o mo (t.0, t.2) t.1)

    -- What `__unvmed_cmd_init` does to memory once it has its command, on a queue whose bitmap,
    -- slots and `nr_cmds` agree. If both set-ups succeed, just what they do. If the data buffer
    -- fails, that and the clean-up of what its structure then says. If the metadata buffer fails,
    -- the clean-up of the data buffer, which is then done a second time with the last reference to
    -- the command, and the one of the metadata buffer.
    pub cmd_init_trace :
        (want va : Option ℕ) (len : ℕ) (mva : Option ℕ) (mlen vcq_id : ℕ) (q1 : Sq R) (s : Slot)
        → cmd_alloc rq_acquire rq_release q want vcq_id ≡ (q1, some s)
        → (cmd_init rq_acquire rq_release m q want va len mva mlen vcq_id).0.log
          ≡ q1.log ++ effects (buf_init m va (len % 2 ^ 32)) (buf_init m mva (mlen % 2 ^ 32))
    unfolding cmd_init
    cmd_init_trace want va len mva mlen vcq_id q1 s e =
        trace_of (cmd_alloc rq_acquire rq_release q want vcq_id) (buf_init m va (len % 2 ^ 32))
          (buf_init m mva (mlen % 2 ^ 32)) q1 s
          (cmd_alloc-Allotted rq_acquire rq_release v want vcq_id) e
