-- ===== src/Prep/Rw/Written.antt =====
-- When a read or a write can be prepared, and what the entry of a write holds.
use Prim.Native.Nat.{bit_or}
use unvme_cli.Prelude.{
  ℕ, ◌-◌, ◌*◌, ◌&&◌, ◌||◌, is_some, ◌%◌, ◌^◌, ◌≤◌, ◌<◌, Bool, true, false, Option, none, some, ◌≡◌,
  ◌≢◌, refl, ap, ap₂, ◌∙◌, arith, ◌==◌, if◌then◌else◌,
}
use unvme_cli.Ns.{ns_find}
use unvme_cli.Ns.Inv.{IsNss}
use unvme_cli.Prep.Space.{space, joined, guard32-space}
use unvme_cli.Prep.{Tags, guard32}
use unvme_cli.Prep.Rw.{
  mapped_prp, Sqe, RwCodes, Job, write_tags, tags_by, set_tags, RwArgs, mapv_prp, mapv_sgl, Mapping,
  uses_sgl, rw_map, rw_finish, rw_mptr, rw_meta, meta_of, rw_mapped, prep_rw, prep_write,
}
use unvme_cli.Prep.Rw.Refs.{set_tags_found}

module _ {D : Type 0} (c : RwCodes) (m : Mapping D) where
  -- Is a metadata buffer known to the IOMMU, where there is one?
  abbrev pub reachable : Option ℕ → Bool
  reachable none = true
  reachable (some mbuf) = is_some (m.to_iova mbuf)

  rw_meta_result :
      (j : Job D) (a : RwArgs) (mbuf : Option ℕ) → (rw_meta c m j a mbuf).1 ≡ reachable mbuf
  unfolding rw_meta rw_mptr rw_finish
  rw_meta_result j a none = refl
  rw_meta_result j a (some mbuf) = go (m.to_iova mbuf)
    where
      go : (o : Option ℕ) → (rw_mptr c m j a o).1 ≡ is_some o
      go none = refl
      go (some iova) = refl

  rw_mapped_result :
      (j : Job D) (a : RwArgs) (sgl : Bool) (own : Option ℕ) (o : Option (Sqe D))
      → (rw_mapped c m j a sgl own o).1 ≡ (is_some o && reachable (meta_of a.mbuf own))
  unfolding rw_mapped
  rw_mapped_result j a sgl own none = refl
  rw_mapped_result j a sgl own (some x) = rw_meta_result _ a (meta_of a.mbuf own)

  rw_map_result :
      (x : Sqe D) (nr_iov : ℕ) (sgl : Bool)
      → is_some (rw_map c m x nr_iov sgl)
        ≡ (if sgl then is_some m.sgl else (nr_iov == 0 || is_some m.prp))
  unfolding rw_map mapv_prp mapv_sgl mapped_prp
  rw_map_result x nr_iov true = go m.sgl
    where
      go : (o : Option (D × ℕ)) → is_some (mapv_sgl x o) ≡ is_some o
      go none = refl
      go (some (d, f)) = refl
  rw_map_result x nr_iov false = go m.prp (nr_iov == 0)
    where
      go :
          (o : Option D) (b : Bool)
          → is_some (if b then some x else mapped_prp x o) ≡ (b || is_some o)
      go o true = refl
      go none false = refl
      go (some d) false = refl

  -- A write fails exactly when its buffers cannot be mapped: when libvfn refuses the data, by PRP or
  -- by SGL as the command's flags say, or when a metadata buffer, the caller's or else the command's,
  -- is not known to the IOMMU. What becomes of the tags does not count.
  pub prep_write_result :
      (j : Job D) (cid flags : ℕ) (own : Option ℕ) (a : RwArgs)
      → (prep_write c m j cid flags own a).1 ≡ (
          (if uses_sgl flags then is_some m.sgl else (a.nr_iov == 0 || is_some m.prp))
          && reachable (meta_of a.mbuf own))
  unfolding prep_write prep_rw
  prep_write_result j cid flags own a =
      rw_mapped_result _ a (uses_sgl flags) own _
      ∙ ap (λ (b : Bool). b && reachable (meta_of a.mbuf own))
          (rw_map_result _ a.nr_iov (uses_sgl flags))

  tags32 :
      (j : Job D) (nsid atag mask rtag stag : ℕ) {p : ℕ} {t : Tags}
      → IsNss j.nss
      → ns_find j.nss nsid ≡ some p
      → (j.nss.heap p).pif ≡ c.pif32
      → c.pif32 ≢ c.pif16
      → guard32 (j.nss.heap p).sts rtag stag ≡ some t
      → set_tags c j nsid atag mask rtag stag
        ≡ (record j { sqe = record j.sqe { apptag = atag; appmask = mask; tags = t } }, true)
  unfolding tags_by write_tags
  tags32 j nsid atag mask rtag stag {p = p} h found kind other eq =
      let first : (c.pif32 == c.pif16) ≡ false = ground arith in
      let second : (c.pif32 == c.pif32) ≡ true = ground arith in
      set_tags_found c j nsid atag mask rtag stag h found
      ∙ rw (kind, first, second) (ap (λ (o : Option Tags). write_tags j atag mask o) eq)

  -- The entry of a write without metadata to a namespace whose protection type is that of a 32-bit
  -- guard, with data mapped by PRP and a storage tag of 17 to 64 bits: it is prepared, the plain
  -- fields are the arguments, the data pointer is libvfn's, and the tags are stored whole.
  pub prep_write32 :
      (j : Job D) (cid flags : ℕ) (a : RwArgs) {p : ℕ} {d : D}
      → IsNss j.nss
      → ns_find j.nss a.nsid ≡ some p
      → (j.nss.heap p).pif ≡ c.pif32
      → c.pif32 ≢ c.pif16
      → 16 < (j.nss.heap p).sts
      → (j.nss.heap p).sts ≤ 64
      → a.stag < 2 ^ (j.nss.heap p).sts
      → a.rtag < 2 ^ (80 - (j.nss.heap p).sts)
      → uses_sgl flags ≡ false
      → m.prp ≡ some d
      → (a.nr_iov == 0) ≡ false
      → a.mbuf ≡ none
      → (r : Job D) × (prep_write c m j cid flags none a ≡ (r, true))
        × ((r.sqe.opcode ≡ c.write)
            × (r.sqe.cid ≡ cid)
            × (r.sqe.nsid ≡ a.nsid)
            × (r.sqe.slba ≡ a.slba)
            × (r.sqe.nlb ≡ a.nlb))
        × ((r.sqe.dptr ≡ d)
            × (r.sqe.apptag ≡ a.atag)
            × (r.sqe.appmask ≡ a.atag_mask)
            × (r.opaque ≡ a.opaque))
        × (joined r.sqe.tags ≡ space 80 (j.nss.heap p).sts a.rtag a.stag)
  unfolding prep_write prep_rw rw_map rw_mapped rw_meta rw_finish tags_by write_tags mapv_prp
      mapped_prp
  prep_write32 j cid flags a {p = p} {d = d} h found kind other more most ht hr plain prp some_data
        none_given =
      let x : Sqe D = record j.sqe {
        opcode = c.write;
        nsid = a.nsid;
        slba = a.slba;
        nlb = a.nlb;
        cid = cid;
      } in
      let y : Sqe D = record x { dptr = d } in
      let (t, eq, fits, whole) = guard32-space (j.nss.heap p).sts a.rtag a.stag more most ht hr in
      let map : rw_map c m x a.nr_iov (uses_sgl flags) ≡ some y = rw (plain, some_data, prp) refl in
      let tagged =
        tags32 (record j { sqe = y }) a.nsid a.atag a.atag_mask a.rtag a.stag h found kind other
          eq in
      let finish : Job D → Job D = λ j'. record j' {
        sqe = record j'.sqe {
          control =
              (let control = bit_or j'.sqe.control (a.prinfo * 2 ^ 10 % 2 ^ 16) in
                if a.stag_check then bit_or control c.io_stc else control);
        };
        opaque = a.opaque;
      } in
      (
        finish (record j { sqe = record y { apptag = a.atag; appmask = a.atag_mask; tags = t } }),
        ap₂ (λ (b : Bool) (o : Option (Sqe D)). rw_mapped c m (record j { sqe = x }) a b none o)
              plain map
            ∙ ap (λ (o : Option ℕ). rw_meta c m (record j { sqe = y }) a (meta_of o none))
                none_given
            ∙ ap (λ (w : Job D × Bool). (finish w.0, true)) tagged,
        (refl, refl, refl, refl, refl),
        (refl, refl, refl, refl),
        whole,
      )
