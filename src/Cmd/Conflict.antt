-- ===== src/Cmd/Conflict.antt =====
-- The conflict command: the second command with an identifier that is in use.
use unvme_cli.Prelude.{
  ℕ, ◌<◌, true, false, Option, some, ◌≡◌, refl, arith, ◌∙◌, eexist, Bool-cases, inl, inr,
}
use unvme_cli.Cid.Inv.{used}
use unvme_cli.Cmd.{
  Sq, conflict, fail, is_init, buf_free, conflict_with, conflict_cmd_alloc, cmd_alloc, cmd_free,
  cmd_release, cmd_put,
}
use unvme_cli.Cmd.Inv.{live, IsSq}
use unvme_cli.Cmd.Alloc.{pinned_used}

module _ {R : Type 0} (rq_acquire : R → Option (ℕ × R)) (rq_release : ℕ → R → R) where
  module _ {q : Sq R} (v : IsSq q) (cid vcq_id : ℕ) (r : cid < q.cids.size)
      (u : used q.cids.bits cid ≡ true) where
    as_conflict :
        (rq : ℕ) (rqs : R)
        → live q.conflict_cmds ≡ false
        → rq_acquire q.rqs ≡ some (rq, rqs)
        → cmd_alloc rq_acquire rq_release q (some cid) vcq_id
          ≡ conflict_with rq_acquire rq_release (fail q eexist) cid vcq_id (some (rq, rqs))
    unfolding cmd_alloc conflict_cmd_alloc
    as_conflict rq rqs idle got = elim (Bool-cases (is_init q.conflict_cmds.state)) [
      | inl e ↦ pinned_used rq_acquire rq_release v cid vcq_id r u ∙ rw (e, got) refl
      | inr e ↦ absurd (ground (arith, idle, e))
    ]

    -- On a queue whose bitmap, slots and `nr_cmds` agree, an identifier in use, an idle conflict
    -- slot and a request of libvfn: the allocation returns the conflict slot, with one reference,
    -- and neither it nor the put of that command changes the bitmap or the regular slots, the one
    -- of the same identifier included. The put makes the conflict slot idle again and restores
    -- `nr_cmds`.
    pub conflict_roundtrip :
        (rq : ℕ) (rqs : R)
        → live q.conflict_cmds ≡ false
        → rq_acquire q.rqs ≡ some (rq, rqs)
        → let (q', s) = cmd_alloc rq_acquire rq_release q (some cid) vcq_id in
          let q'' = (cmd_put rq_acquire rq_release q' conflict).0 in
          (s ≡ some conflict)
          × (q'.conflict_cmds.refcnt ≡ 1)
          × (q'.conflict_cmds.cid ≡ cid)
          × (q'.cids.bits ≡ q.cids.bits)
          × (q'.cmds ≡ q.cmds)
          × (q''.cids.bits ≡ q.cids.bits)
          × (q''.cmds ≡ q.cmds)
          × (live q''.conflict_cmds ≡ false)
          × (q''.nr_cmds ≡ q.nr_cmds)
    unfolding conflict_with cmd_put cmd_free cmd_release buf_free
    conflict_roundtrip rq rqs idle got =
        rw (as_conflict rq rqs idle got)
          (refl, refl, refl, refl, refl, refl, refl, refl, omega (arith, v.counted))
