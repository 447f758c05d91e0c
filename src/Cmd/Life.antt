-- ===== src/Cmd/Life.antt =====
-- Release of a command keeps the bitmap, the slots and the count in agreement.
use unvme_cli.Prelude.{
  ℕ, zero, suc, false, Option, List, [], ◌∷◌, ◌≡◌, ◌≢◌, refl, arith, ap, ◌∙◌, sym, ◌==◌, get_or,
  set, length-set, get_or-set_self, get_or-set_ne, Bool-cases, inl, inr, dec32,
}
use unvme_cli.Cid.{cid_free}
use unvme_cli.Cid.Laws.{cid_free_lem, size-cid_free}
use unvme_cli.Cmd.{
  Cmd, no_cmd, Buf, Effect, Sq, Slot, regular, conflict, read, write, buf_free, release_rq,
  cmd_release, cmd_free, cmd_put,
}
use unvme_cli.Cmd.Inv.{live, count-set, Resident, Plain, set-all, IsSq, Holds, in_range, write-IsSq}

module _ {R : Type 0} (rq_acquire : R → Option (ℕ × R)) (rq_release : ℕ → R → R) where
  module _ {q : Sq R} (v : IsSq q) where
    release_regular :
        (c : ℕ)
        → Holds q (regular c)
        → cmd_release rq_acquire rq_release q (regular c) ≡ record q {
          cmds = set q.cmds c no_cmd;
          nr_cmds = dec32 q.nr_cmds;
          rqs = release_rq rq_acquire rq_release (get_or q.cmds c no_cmd).rq q.rqs;
          cids = (cid_free q.cids c).0;
        }
    unfolding cmd_release
    release_regular c h = let p = v.plain c h in rw (p.2, p.1)

    -- `__unvmed_cmd_free` keeps the invariant.
    pub release-IsSq : (s : Slot) → Holds q s → IsSq (cmd_release rq_acquire rq_release q s)
    unfolding cmd_release
    release-IsSq (regular c) h =
        let r = (v.plain c h).0 in
        let f = (cid_free_lem v.bitmap c).1 r in
        let sz = size-cid_free q.cids c in
        rw (release_regular c h) (record {
          bitmap = f.2;
          slots = rw (sz, length-set q.cmds c no_cmd) v.slots;
          resident =
              set-all (Resident (cid_free q.cids c).0) q.cmds c no_cmd (in_range v c h)
                (λ p. f.1 c ∙ ground arith) (λ d ne p. f.1 d ∙ ground (arith, v.resident d));
          plain =
              set-all (Plain (cid_free q.cids c).0.size) q.cmds c no_cmd (in_range v c h) (λ l. cc)
                (λ d ne l. rw sz (v.plain d l));
          special = v.special;
          counted = ground (arith, v.counted, count-set q.cmds c no_cmd (in_range v c h));
        })
    release-IsSq conflict h = rw (v.special h) (record {
      bitmap = v.bitmap;
      slots = v.slots;
      resident = v.resident;
      plain = v.plain;
      special = λ l. cc;
      counted = ground (arith, v.counted);
    })

get_or-set_default : (xs : List Cmd) (c : ℕ) → get_or (set xs c no_cmd) c no_cmd ≡ no_cmd
get_or-set_default [] c = refl
get_or-set_default (x ∷ xs) zero = refl
get_or-set_default (x ∷ xs) (suc c) = get_or-set_default xs c

module _ {R : Type 0} (q : Sq R) where
  read-write_blank : (s : Slot) → read (write q s no_cmd) s ≡ no_cmd
  read-write_blank (regular c) = get_or-set_default q.cmds c
  read-write_blank conflict = refl

  -- What is done to memory is no part of the invariant.
  pub log-IsSq : (l : List Effect) → IsSq q → IsSq (record q { log = l })
  log-IsSq l v = record {
    bitmap = v.bitmap;
    slots = v.slots;
    resident = v.resident;
    plain = v.plain;
    special = v.special;
    counted = v.counted;
  }

  read-log : (l : List Effect) (s : Slot) → read (record q { log = l }) s ≡ read q s
  read-log l (regular c) = refl
  read-log l conflict = refl

  buf_free-log : (b : Buf) → buf_free q b ≡ record q { log = (buf_free q b).log }
  unfolding buf_free
  buf_free-log b = refl

  pub read-buf_free : (b : Buf) (s : Slot) → read (buf_free q b) s ≡ read q s
  read-buf_free b s = rw (buf_free-log b) (read-log (buf_free q b).log s)

  pub buf_free-IsSq : (b : Buf) → IsSq q → IsSq (buf_free q b)
  buf_free-IsSq b v = rw (buf_free-log b) (log-IsSq (buf_free q b).log v)

  abbrev pub dropped : Slot → Cmd
  dropped s = record (read q s) { refcnt = dec32 (read q s).refcnt }

  pub read-write : IsSq q → (s : Slot) (x : Cmd) → Holds q s → read (write q s x) s ≡ x
  read-write v (regular c) x h = get_or-set_self q.cmds c x no_cmd (in_range v c h)
  read-write v conflict x h = refl

  pub reads :
      (q' : Sq R)
      → q'.cmds ≡ q.cmds
      → q'.conflict_cmds ≡ q.conflict_cmds
      → (t : Slot) → read q' t ≡ read q t
  reads q' e f (regular d) = ap (λ l. get_or l d no_cmd) e
  reads q' e f conflict = f

  pub write_others : (s : Slot) (x : Cmd) (t : Slot) → t ≢ s → read (write q s x) t ≡ read q t
  write_others (regular c) x (regular d) ne =
      get_or-set_ne q.cmds c d x no_cmd (λ k. ne (ap regular (sym k)))
  write_others (regular c) x conflict ne = refl
  write_others conflict x (regular d) ne = refl
  write_others conflict x conflict ne = absurd (ne refl)

module _ {R : Type 0} (rq_acquire : R → Option (ℕ × R)) (rq_release : ℕ → R → R) where
  read-release :
      (q : Sq R) (s t : Slot)
      → read (cmd_release rq_acquire rq_release q s) t ≡ read (write q s no_cmd) t
  unfolding cmd_release
  read-release q s t = elim (Bool-cases (read q s).injected) [
    | inl e ↦ rw e (
        reads (write q s no_cmd)
          (record (write q s no_cmd) {
            nr_cmds = dec32 q.nr_cmds;
            rqs = release_rq rq_acquire rq_release (read q s).rq q.rqs;
          })
          refl refl t)
    | inr e ↦ rw e (
        reads (write q s no_cmd)
          (record (write q s no_cmd) {
            nr_cmds = dec32 q.nr_cmds;
            rqs = release_rq rq_acquire rq_release (read q s).rq q.rqs;
            cids = (cid_free q.cids (read q s).cid).0;
          })
          refl refl t)
  ]

  pub freed_reads :
      (q0 : Sq R) (s t : Slot) → t ≢ s → read (cmd_free rq_acquire rq_release q0 s) t ≡ read q0 t
  unfolding cmd_free
  freed_reads q0 s t ne =
      let q1 = buf_free q0 (read q0 s).buf in
      let q2 = buf_free q1 (read q0 s).mbuf in
      read-release q2 s t
      ∙ write_others q2 s no_cmd t ne
      ∙ read-buf_free q1 (read q0 s).mbuf t
      ∙ read-buf_free q0 (read q0 s).buf t

  pub freed_own : (q0 : Sq R) (s : Slot) → read (cmd_free rq_acquire rq_release q0 s) s ≡ no_cmd
  unfolding cmd_free
  freed_own q0 s =
      let q2 = buf_free (buf_free q0 (read q0 s).buf) (read q0 s).mbuf in
      read-release q2 s s ∙ read-write_blank q2 s

  cmd_free-IsSq :
      (q : Sq R) (s : Slot) → IsSq q → Holds q s → IsSq (cmd_free rq_acquire rq_release q s)
  unfolding cmd_free
  cmd_free-IsSq q s v h =
      let q1 = buf_free q (read q s).buf in
      let q2 = buf_free q1 (read q s).mbuf in
      release-IsSq rq_acquire rq_release
        (buf_free-IsSq q1 (read q s).mbuf (buf_free-IsSq q (read q s).buf v)) s
        (ap live (read-buf_free q1 (read q s).mbuf s ∙ read-buf_free q (read q s).buf s) ∙ h)

  module _ {q : Sq R} (v : IsSq q) where
    put-IsSq : (s : Slot) → Holds q s → IsSq (write q s (dropped q s))
    put-IsSq s h = write-IsSq v s (dropped q s) h refl refl refl

    -- `unvmed_cmd_put` of a command that the queue holds, on a queue whose bitmap, slots and
    -- `nr_cmds` agree: they agree afterwards, whether or not it drops the last reference.
    pub cmd_put-IsSq : (s : Slot) → Holds q s → IsSq (cmd_put rq_acquire rq_release q s).0
    unfolding cmd_put
    cmd_put-IsSq s h = elim (Bool-cases (dec32 (read q s).refcnt == 0)) [
      | inl last ↦ rw last (
          cmd_free-IsSq (write q s (dropped q s)) s (put-IsSq s h)
            (ap live (read-write q v s (dropped q s) h) ∙ h))
      | inr more ↦ rw more (put-IsSq s h)
    ]

    pub put_frees :
        (s : Slot)
        → (read q s).refcnt ≡ 1
        → (cmd_put rq_acquire rq_release q s).0
          ≡ cmd_free rq_acquire rq_release (write q s (dropped q s)) s
    unfolding cmd_put
    put_frees s one = rw one refl

    -- `unvmed_cmd_put` of a command that the queue holds and that has one reference, on a queue
    -- whose bitmap, slots and `nr_cmds` agree, leaves its slot free and every other slot as it
    -- was.
    pub cmd_put_last :
        (s : Slot)
        → Holds q s
        → (read q s).refcnt ≡ 1
        → (live (read (cmd_put rq_acquire rq_release q s).0 s) ≡ false)
          × ((t : Slot) → t ≢ s → read (cmd_put rq_acquire rq_release q s).0 t ≡ read q t)
    cmd_put_last s h one = rw (put_frees s one) (
      ap live (freed_own (write q s (dropped q s)) s),
      λ t ne. freed_reads (write q s (dropped q s)) s t ne ∙ write_others q s (dropped q s) t ne,
    )
