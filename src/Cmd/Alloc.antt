-- ===== src/Cmd/Alloc.antt =====
-- Allocation of a command keeps the bitmap, the slots and the count in agreement.
use native.Mathlib.Decide.{dec_lt}
use unvme_cli.Prelude.{
  ℕ, ◌≤◌, ◌<◌, true, false, not, Option, none, some, ◌≡◌, ◌≢◌, refl, arith, ap, ◌∙◌, sym, get_or,
  set, length, length-set, get_or-set_self, get_or-set_ne, Bool-cases, inl, inr, eexist, einval,
  ebusy,
}
use unvme_cli.Cid.{Bitmap, cid_alloc, cid_alloc_n, cid_free}
use unvme_cli.Cid.Inv.{used, IsBitmap}
use unvme_cli.Cid.Laws.{
  Took, Allocated, cid_alloc_lem, cid_alloc_n_lem, cid_free_lem, size-cid_free, size-cid_alloc_n,
}
use unvme_cli.Cmd.{
  Cmd, allocated, is_init, no_buf, no_cmd, Sq, Slot, regular, conflict, read, fail, conflict_with,
  conflict_cmd_alloc, alloc_with, alloc_pinned, alloc_any, cmd_alloc,
}
use unvme_cli.Cmd.Inv.{live, count-set, Resident, Plain, set-all, IsSq}

errno-IsBitmap : {b : Bitmap} (e : ℕ) → IsBitmap b → IsBitmap (record b { errno = e })
errno-IsBitmap e v = record {
  covers = v.covers;
  allocated = v.allocated;
  bytes = v.bytes;
  top_in = v.top_in;
  small = v.small;
  beyond = v.beyond;
}

-- The slot that an allocation has taken: it was free, it holds a command with one reference, and
-- every other slot is as it was.
abbrev pub Fresh : {R : Type 0} → Sq R → Sq R → Slot → Type 0
Fresh q q' s =
    (live (read q s) ≡ false)
    × (live (read q' s) ≡ true)
    × ((read q' s).refcnt ≡ 1)
    × ((t : Slot) → t ≢ s → read q' t ≡ read q t)

-- Nothing has been taken.
abbrev pub Kept : {R : Type 0} → Sq R → Sq R → Type 0
Kept q q' =
    ((t : Slot) → read q' t ≡ read q t)
    × (q'.nr_cmds ≡ q.nr_cmds)
    × ((d : ℕ) → used q'.cids.bits d ≡ used q.cids.bits d)

abbrev pub Allotted : {R : Type 0} → Sq R → Sq R × Option Slot → Type 0
Allotted q (q', none) = IsSq q' × Kept q q'
Allotted q (q', some s) = IsSq q' × ((read q' s).mbuf ≡ no_buf) × Fresh q q' s

module _ {R : Type 0} (q q' : Sq R) where
  all_same :
      q'.cmds ≡ q.cmds → q'.conflict_cmds ≡ q.conflict_cmds → (t : Slot) → read q' t ≡ read q t
  all_same e f (regular d) = ap (λ l. get_or l d no_cmd) e
  all_same e f conflict = f

  others_regular :
      (c : ℕ) (x : Cmd)
      → q'.cmds ≡ set q.cmds c x
      → q'.conflict_cmds ≡ q.conflict_cmds
      → (t : Slot) → t ≢ regular c
      → read q' t ≡ read q t
  others_regular c x e f (regular d) ne =
      ap (λ l. get_or l d no_cmd) e
      ∙ get_or-set_ne q.cmds c d x no_cmd (λ k. ne (ap regular (sym k)))
  others_regular c x e f conflict ne = f

  others_conflict : q'.cmds ≡ q.cmds → (t : Slot) → t ≢ conflict → read q' t ≡ read q t
  others_conflict e (regular d) ne = ap (λ l. get_or l d no_cmd) e
  others_conflict e conflict ne = absurd (ne refl)

module _ {R : Type 0} (rq_acquire : R → Option (ℕ × R)) (rq_release : ℕ → R → R) where
  module _ {q : Sq R} (v : IsSq q) where
    -- A new bitmap in which the same identifiers are in use.
    rebits :
        (b : Bitmap)
        → IsBitmap b
        → b.size ≡ q.cids.size
        → ((d : ℕ) → used b.bits d ≡ used q.cids.bits d)
        → IsSq (record q { cids = b }) × Kept q (record q { cids = b })
    rebits b w sz same = (
      record {
        bitmap = w;
        slots = rw sz v.slots;
        resident = λ c p. same c ∙ v.resident c (rw (← sz) p);
        plain = λ c l. rw sz (v.plain c l);
        special = v.special;
        counted = v.counted;
      },
      (all_same q (record q { cids = b }) refl refl, refl, same),
    )

    pub fail-Kept : (e : ℕ) → IsSq (fail q e) × Kept q (fail q e)
    fail-Kept e = rebits (record q.cids { errno = e }) (errno-IsBitmap e v.bitmap) refl (λ d. refl)

    conflict_with-Allotted :
        (cid vcq_id : ℕ) (o : Option (ℕ × R))
        → live q.conflict_cmds ≡ false
        → Allotted q (conflict_with rq_acquire rq_release q cid vcq_id o)
    unfolding conflict_with
    conflict_with-Allotted cid vcq_id none h = (v, (λ t. refl, refl, λ d. refl))
    conflict_with-Allotted cid vcq_id (some (rq, rqs)) h = (
      record {
        bitmap = v.bitmap;
        slots = v.slots;
        resident = v.resident;
        plain = v.plain;
        special = λ l. refl;
        counted = ground (arith, v.counted);
      },
      refl,
      (
        h,
        refl,
        refl,
        others_conflict q (conflict_with rq_acquire rq_release q cid vcq_id (some (rq, rqs))).0
            refl,
      ),
    )

    alloc_with-Allotted :
        (b : Bitmap) (c vcq_id : ℕ) (o : Option (ℕ × R))
        → Took q.cids b c
        → Allotted q (alloc_with rq_acquire rq_release (record q { cids = b }) c vcq_id o)
    unfolding alloc_with
    alloc_with-Allotted b c vcq_id none (r, free, marks, w, sz) =
        let f = (cid_free_lem w c).1 (rw sz r) in
        rebits (cid_free b c).0 f.2 (size-cid_free b c ∙ sz)
          (λ d. f.1 d ∙ ground (arith, marks d, free))
    alloc_with-Allotted b c vcq_id (some (rq, rqs)) (r, free, marks, w, sz) = (
      record {
        bitmap = w;
        slots = rw (sz, length-set q.cmds c fresh) v.slots;
        resident =
            set-all (Resident b) q.cmds c fresh inside (λ p. marks c ∙ ground arith)
              (λ d ne p. marks d ∙ ground (arith, v.resident d (rw (← sz) p)));
        plain =
            set-all (Plain b.size) q.cmds c fresh inside (λ l. (rw sz r, refl, refl))
              (λ d ne l. rw sz (v.plain d l));
        special = v.special;
        counted = ground (arith, v.counted, count-set q.cmds c fresh inside, was);
      },
      rw at refl,
      (was, rw at refl, rw at refl, others_regular q q' c fresh refl refl),
    )
      where
        q' : Sq R
        q' = (alloc_with rq_acquire rq_release (record q { cids = b }) c vcq_id (some (rq, rqs))).0

        fresh : Cmd
        fresh = record no_cmd { cid = c; rq = some rq; refcnt = 1; state = allocated; vcq = vcq_id }

        inside : c < length q.cmds
        inside = omega (arith, v.slots)

        was : live (get_or q.cmds c no_cmd) ≡ false
        was = sym (v.resident c r) ∙ free

        at : get_or (set q.cmds c fresh) c no_cmd ≡ fresh
        at = get_or-set_self q.cmds c fresh no_cmd inside

    conflict-Allotted :
        (cid vcq_id : ℕ) → Allotted q (conflict_cmd_alloc rq_acquire rq_release q cid vcq_id)
    unfolding conflict_cmd_alloc
    conflict-Allotted cid vcq_id = elim (Bool-cases (is_init q.conflict_cmds.state)) [
      | inl idle ↦ rw idle (conflict_with-Allotted cid vcq_id (rq_acquire q.rqs) (ap not idle))
      | inr busy ↦ rw busy (fail-Kept ebusy)
    ]

-- The view of a queue does not depend on `errno`.
rebase :
    {R : Type 0} (q : Sq R) (e : ℕ) (r : Sq R × Option Slot) → Allotted (fail q e) r → Allotted q r
rebase q e (q', none) (w, (same, n, u)) =
    (w, (λ t. same t ∙ all_same q (fail q e) refl refl t, n, u))
rebase q e (q', some (regular c)) (w, blank, (was, now, one, others)) =
    (w, blank, (was, now, one, λ t ne. others t ne ∙ all_same q (fail q e) refl refl t))
rebase q e (q', some conflict) (w, blank, (was, now, one, others)) =
    (w, blank, (was, now, one, λ t ne. others t ne ∙ all_same q (fail q e) refl refl t))

module _ {R : Type 0} (rq_acquire : R → Option (ℕ × R)) (rq_release : ℕ → R → R) where
  module _ {q : Sq R} (v : IsSq q) where
    pinned_out :
        (cid vcq_id : ℕ)
        → q.cids.size ≤ cid
        → alloc_pinned rq_acquire rq_release q cid vcq_id ≡ (fail q einval, none)
    unfolding alloc_pinned
    pinned_out cid vcq_id h = let (e, d) = (cid_alloc_n_lem v.bitmap cid).0 h in rw (d, e)

    pub pinned_used :
        (cid vcq_id : ℕ)
        → cid < q.cids.size
        → used q.cids.bits cid ≡ true
        → alloc_pinned rq_acquire rq_release q cid vcq_id
          ≡ conflict_cmd_alloc rq_acquire rq_release (fail q eexist) cid vcq_id
    unfolding alloc_pinned
    pinned_used cid vcq_id h u = let (e, d) = (cid_alloc_n_lem v.bitmap cid).1 h u in rw (d, e)

    pinned_free :
        (cid vcq_id : ℕ)
        → cid < q.cids.size
        → used q.cids.bits cid ≡ false
        → alloc_pinned rq_acquire rq_release q cid vcq_id
          ≡ alloc_with rq_acquire rq_release
              (record q { cids = (cid_alloc_n q.cids cid).0 })
              cid
              vcq_id
              (rq_acquire q.rqs)
    unfolding alloc_pinned
    pinned_free cid vcq_id h u = let (d, marks, w) = (cid_alloc_n_lem v.bitmap cid).2 h u in rw d

    pinned-Allotted :
        (cid vcq_id : ℕ) → Allotted q (alloc_pinned rq_acquire rq_release q cid vcq_id)
    pinned-Allotted cid vcq_id = elim (dec_lt cid q.cids.size) [
      | no out ↦ rw (pinned_out cid vcq_id (omega arith)) (fail-Kept rq_acquire rq_release v einval)
      | yes h ↦ elim (Bool-cases (used q.cids.bits cid)) [
        | inl u ↦ rw (pinned_used cid vcq_id h u) (
            rebase q eexist (conflict_cmd_alloc rq_acquire rq_release (fail q eexist) cid vcq_id) (
              conflict-Allotted rq_acquire rq_release (fail-Kept rq_acquire rq_release v eexist).0
                cid vcq_id))
        | inr u ↦
            let (d, marks, w) = (cid_alloc_n_lem v.bitmap cid).2 h u in
            rw (pinned_free cid vcq_id h u) (
              alloc_with-Allotted rq_acquire rq_release v (cid_alloc_n q.cids cid).0 cid vcq_id
                (rq_acquire q.rqs) (h, u, marks, w, size-cid_alloc_n q.cids cid))
      ]
    ]

    any-Allotted :
        (vcq_id : ℕ) (r : Bitmap × Option ℕ)
        → Allocated q.cids r
        → Allotted q (alloc_any rq_acquire rq_release q vcq_id r)
    unfolding alloc_any
    any-Allotted vcq_id (b, some c) t =
        alloc_with-Allotted rq_acquire rq_release v b c vcq_id (rq_acquire q.rqs) t
    any-Allotted vcq_id (b, none) (e, full) = rw e (fail-Kept rq_acquire rq_release v ebusy)

    -- `__unvmed_cmd_alloc` on a queue whose bitmap, slots and `nr_cmds` agree, with or without an
    -- identifier, whatever libvfn answers. If it returns a command, that is in a slot that was
    -- free and has one reference, and every other slot is as it was. If it returns NULL, the
    -- slots, `nr_cmds` and the identifiers in use are as they were. Either way bitmap, slots and
    -- `nr_cmds` agree.
    pub cmd_alloc-Allotted :
        (want : Option ℕ) (vcq_id : ℕ) → Allotted q (cmd_alloc rq_acquire rq_release q want vcq_id)
    unfolding cmd_alloc
    cmd_alloc-Allotted (some cid) vcq_id = pinned-Allotted cid vcq_id
    cmd_alloc-Allotted none vcq_id = any-Allotted vcq_id (cid_alloc q.cids) (cid_alloc_lem v.bitmap)
