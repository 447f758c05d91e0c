-- ===== src/Prep/Rw/Refs.antt =====
-- The namespace that a read or a write asks for its tags: its reference is given back on every path.
use unvme_cli.Prelude.{
  ℕ, Bool, false, Option, none, some, ◌≡◌, refl, sym, ap, ap₂, ◌∙◌, ◌==◌, if_either, inc32,
  Option-cases, inl, inr, einval,
}
use unvme_cli.Ns.{Nss, Ns, find_in, ns_find}
use unvme_cli.Ns.Inv.{
  IsNss, Held, find-All, ns_find_lem, ns_get_found, ns_get_missing, get_put_self, store_at,
}
use unvme_cli.Prep.{Tags, guard16, guard32, guard64}
use unvme_cli.Prep.Rw.{
  Sqe, RwCodes, Job, write_tags, tags_by, tags_found, set_tags, RwArgs, Mapping, uses_sgl,
  rw_finish, rw_mptr, rw_meta, meta_of, rw_mapped, prep_rw, prep_read, prep_write,
}

module _ {D : Type 0} where
  abbrev Same : Job D → Job D → Type 0
  Same j j' = j'.nss ≡ j.nss

  write_tags-Same :
      (j : Job D) (atag mask : ℕ) (t : Option Tags) → Same j (write_tags j atag mask t).0
  unfolding write_tags
  write_tags-Same j atag mask none = refl
  write_tags-Same j atag mask (some t) = refl

  tags_by-Same :
      (c : RwCodes) (j : Job D) (pif sts atag mask rtag stag : ℕ)
      → Same j (tags_by c j pif sts atag mask rtag stag).0
  unfolding tags_by
  tags_by-Same c j pif sts atag mask rtag stag =
      let P : Job D × Bool → Type 0 = λ r. Same j r.0 in
      if_either P (pif == c.pif16) (write_tags-Same j atag mask (guard16 sts rtag stag)) (
        if_either P (pif == c.pif32) (write_tags-Same j atag mask (guard32 sts rtag stag))
          (if_either P (pif == c.pif64) (write_tags-Same j atag mask (guard64 sts rtag stag)) refl))

  pub set_tags_missing :
      (c : RwCodes) (j : Job D) (nsid atag mask rtag stag : ℕ)
      → ns_find j.nss nsid ≡ none
      → set_tags c j nsid atag mask rtag stag ≡ (record j { errno = einval }, false)
  unfolding set_tags tags_found
  set_tags_missing c j nsid atag mask rtag stag e =
      ap (λ (r : Nss × Option ℕ). tags_found c j r atag mask rtag stag)
        (ns_get_missing j.nss nsid (sym (ns_find_lem j.nss nsid) ∙ e))

  -- The tags are set by the namespace, and its reference is given back.
  pub set_tags_found :
      (c : RwCodes) (j : Job D) (nsid atag mask rtag stag : ℕ) {p : ℕ}
      → IsNss j.nss
      → ns_find j.nss nsid ≡ some p
      → set_tags c j nsid atag mask rtag stag
        ≡ tags_by c j (j.nss.heap p).pif (j.nss.heap p).sts atag mask rtag stag
  unfolding set_tags
  set_tags_found c j nsid atag mask rtag stag {p = p} h found =
      let e : find_in j.nss.heap nsid j.nss.list ≡ some p = sym (ns_find_lem j.nss nsid) ∙ found in
      let held : Held (j.nss.heap p) = find-All Held j.nss.heap nsid j.nss.list e h.held in
      let x : Ns = record (j.nss.heap p) { refcnt = inc32 (j.nss.heap p).refcnt } in
      ap (λ (r : Nss × Option ℕ). tags_found c j r atag mask rtag stag) (ns_get_found j.nss nsid e)
      ∙ ap₂ (λ (t : Nss) (y : Ns). tags_by c (record j { nss = t }) y.pif y.sts atag mask rtag stag)
          (ap (λ (r : Nss × ℕ). r.0) (get_put_self j.nss p held)) (store_at j.nss.heap p x)

  set_tags-Same :
      (c : RwCodes) (j : Job D) (nsid atag mask rtag stag : ℕ)
      → IsNss j.nss
      → Same j (set_tags c j nsid atag mask rtag stag).0
  set_tags-Same c j nsid atag mask rtag stag h = elim (Option-cases (ns_find j.nss nsid)) [
    | inl e ↦ rw (set_tags_missing c j nsid atag mask rtag stag e) refl
    | inr (p, e) ↦
        rw (set_tags_found c j nsid atag mask rtag stag h e)
          (tags_by-Same c j (j.nss.heap p).pif (j.nss.heap p).sts atag mask rtag stag)
  ]

module _ {D : Type 0} (c : RwCodes) (m : Mapping D) where
  rw_finish-Same : (j : Job D) (a : RwArgs) → IsNss j.nss → Same j (rw_finish c m j a).0
  unfolding rw_finish
  rw_finish-Same j a h = set_tags-Same c j a.nsid a.atag a.atag_mask a.rtag a.stag h

  rw_meta-Same :
      (j : Job D) (a : RwArgs) (mbuf : Option ℕ) → IsNss j.nss → Same j (rw_meta c m j a mbuf).0
  unfolding rw_meta rw_mptr
  rw_meta-Same j a none h = rw_finish-Same j a h
  rw_meta-Same j a (some mbuf) h = go (m.to_iova mbuf)
    where
      go : (o : Option ℕ) → Same j (rw_mptr c m j a o).0
      go none = refl
      go (some iova) = rw_finish-Same (record j { sqe = record j.sqe { mptr = iova } }) a h

  rw_mapped-Same :
      (j : Job D) (a : RwArgs) (sgl : Bool) (own : Option ℕ) (x : Option (Sqe D))
      → IsNss j.nss
      → Same j (rw_mapped c m j a sgl own x).0
  unfolding rw_mapped
  rw_mapped-Same j a sgl own none h = refl
  rw_mapped-Same j a sgl own (some x) h = rw_meta-Same _ a (meta_of a.mbuf own) h

  -- However a read or a write ends, and whatever it does about the tags, the namespaces and their
  -- references are as before.
  pub prep_rw_keeps :
      (j : Job D) (cid flags : ℕ) (own : Option ℕ) (a : RwArgs)
      → IsNss j.nss
      → ((prep_read c m j cid flags own a).0.nss ≡ j.nss)
        × ((prep_write c m j cid flags own a).0.nss ≡ j.nss)
  unfolding prep_read prep_write prep_rw
  prep_rw_keeps j cid flags own a h =
      (rw_mapped-Same _ a (uses_sgl flags) own _ h, rw_mapped-Same _ a (uses_sgl flags) own _ h)
