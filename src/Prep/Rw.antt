-- ===== src/Prep/Rw.antt =====
-- lib/libunvmed-cmds.c `unvmed_sqe_set_tags`, `unvmed_cmd_prep_read` and `unvmed_cmd_prep_write`.
pub mod Refs
pub mod Written
use Prim.Native.Nat.{bit_and, bit_or}
use unvme_cli.Prelude.{
  ℕ, ◌+◌, ◌-◌, ◌*◌, ◌/◌, ◌%◌, ◌^◌, Bool, true, false, not, ◌&&◌, Option, none, some, ◌==◌,
  if◌then◌else◌, einval,
}
use unvme_cli.Ns.{Ns, Nss, ns_get, ns_put}
use unvme_cli.Prep.{Tags, guard16, guard32, guard64}

-- A submission entry: what the calls set of it. `D` is the data pointer, which libvfn's mapping sets.
pub record Sqe (D : Type 0) : Type 0 where
  pub opcode : ℕ
  pub flags : ℕ
  pub cid : ℕ
  pub nsid : ℕ
  pub mptr : ℕ
  pub dptr : D
  pub tags : Tags
  pub slba : ℕ
  pub nlb : ℕ
  pub control : ℕ
  pub apptag : ℕ
  pub appmask : ℕ

-- Constants of libvfn that reads and writes go by: two opcodes, the bits of the flags for metadata
-- beside an SGL, the bit that has the storage tag checked, and the three guard types.
pub record RwCodes : Type 0 where
  pub read : ℕ
  pub write : ℕ
  pub psdt_mptr : ℕ
  pub io_stc : ℕ
  pub pif16 : ℕ
  pub pif32 : ℕ
  pub pif64 : ℕ

-- The command and its surroundings: the entry, `cmd->opaque`, the namespaces, `errno`, and whether an
-- undefined shift was made.
pub record Job (D : Type 0) : Type 0 where
  pub sqe : Sqe D
  pub opaque : Option ℕ
  pub nss : Nss
  pub errno : ℕ
  pub undefined : Bool

-- `EFAULT`
abbrev pub efault : ℕ
efault = 14

module _ {D : Type 0} where
  write_tags : Job D → ℕ → ℕ → Option Tags → Job D × Bool
  write_tags j atag mask none = (record j { undefined = true }, true)
  write_tags j atag mask (some t) =
      (record j { sqe = record j.sqe { apptag = atag; appmask = mask; tags = t } }, true)

  pub tags_by : RwCodes → Job D → ℕ → ℕ → ℕ → ℕ → ℕ → ℕ → Job D × Bool
  unfolding write_tags guard16 guard32 guard64
  tags_by c j pif sts atag mask rtag stag =
      if pif == c.pif16
      then write_tags j atag mask (guard16 sts rtag stag)
      else if pif == c.pif32
      then write_tags j atag mask (guard32 sts rtag stag)
      else if pif == c.pif64
      then write_tags j atag mask (guard64 sts rtag stag)
      else (j, false)

  tags_found : RwCodes → Job D → Nss × Option ℕ → ℕ → ℕ → ℕ → ℕ → Job D × Bool
  unfolding tags_by
  tags_found c j (u, none) atag mask rtag stag = (record j { nss = u; errno = einval }, false)
  tags_found c j (u, some p) atag mask rtag stag =
      tags_by c (record j { nss = (ns_put u p).0 }) (u.heap p).pif (u.heap p).sts atag mask rtag
        stag

  -- `unvmed_sqe_set_tags`, without its `assert` that the namespace keeps a reference.
  pub set_tags : RwCodes → Job D → ℕ → ℕ → ℕ → ℕ → ℕ → Job D × Bool
  unfolding tags_found
  set_tags c j nsid atag mask rtag stag = tags_found c j (ns_get j.nss nsid) atag mask rtag stag

-- What a read or a write is called with; `mbuf` is the address of a metadata buffer.
pub record RwArgs : Type 0 where
  pub nsid : ℕ
  pub slba : ℕ
  pub nlb : ℕ
  pub prinfo : ℕ
  pub atag : ℕ
  pub atag_mask : ℕ
  pub rtag : ℕ
  pub stag : ℕ
  pub stag_check : Bool
  pub nr_iov : ℕ
  pub mbuf : Option ℕ
  pub opaque : Option ℕ

-- `__unvmed_mapv_prp`: `prp` is the data pointer that libvfn makes of the vector, `none` for an error;
-- `nr_iov` is 0 when there is no vector.
module _ {D : Type 0} where
  mapped_prp : Sqe D → Option D → Option (Sqe D)
  mapped_prp x none = none
  mapped_prp x (some d) = some (record x { dptr = d })

  pub mapv_prp : Sqe D → ℕ → Option D → Option (Sqe D)
  unfolding mapped_prp
  mapv_prp x nr_iov prp = if nr_iov == 0 then some x else mapped_prp x prp

  -- `__unvmed_mapv_sgl`: libvfn sets the data pointer, and the flags that say it is an SGL.
  pub mapv_sgl : Sqe D → Option (D × ℕ) → Option (Sqe D)
  mapv_sgl x none = none
  mapv_sgl x (some (d, flags)) = some (record x { dptr = d; flags = flags })

-- What libvfn's mappings give, and the IOMMU's address of a buffer.
pub record Mapping (D : Type 0) : Type 0 where
  pub prp : Option D
  pub sgl : Option (D × ℕ)
  pub to_iova : ℕ → Option ℕ

-- `UNVMED_CMD_F_SGL`
abbrev pub uses_sgl : ℕ → Bool
uses_sgl flags = not (bit_and flags (2 ^ 1) == 0)

-- The caller's metadata buffer, or else the command's own.
abbrev pub meta_of : Option ℕ → Option ℕ → Option ℕ
meta_of (some mbuf) own = some mbuf
meta_of none own = own

module _ {D : Type 0} (c : RwCodes) (m : Mapping D) where
  rw_map : Sqe D → ℕ → Bool → Option (Sqe D)
  unfolding mapv_prp mapv_sgl
  rw_map x nr_iov true = mapv_sgl x m.sgl
  rw_map x nr_iov false = mapv_prp x nr_iov m.prp

  -- The end of a read or a write, once the metadata pointer is set. The result of setting the tags
  -- is not looked at.
  rw_finish : Job D → RwArgs → Job D × Bool
  unfolding set_tags
  rw_finish j a =
      let j' = (set_tags c j a.nsid a.atag a.atag_mask a.rtag a.stag).0 in
      let control = bit_or j'.sqe.control (a.prinfo * 2 ^ 10 % 2 ^ 16) in
      (
        record j' {
          sqe = record j'.sqe {
            control = if a.stag_check then bit_or control c.io_stc else control;
          };
          opaque = a.opaque;
        },
        true,
      )

  rw_mptr : Job D → RwArgs → Option ℕ → Job D × Bool
  unfolding rw_finish
  rw_mptr j a none = (record j { errno = efault }, false)
  rw_mptr j a (some iova) = rw_finish (record j { sqe = record j.sqe { mptr = iova } }) a

  rw_meta : Job D → RwArgs → Option ℕ → Job D × Bool
  unfolding rw_finish rw_mptr
  rw_meta j a none = rw_finish j a
  rw_meta j a (some mbuf) = rw_mptr j a (m.to_iova mbuf)

  rw_mapped : Job D → RwArgs → Bool → Option ℕ → Option (Sqe D) → Job D × Bool
  unfolding rw_meta
  rw_mapped j a sgl own none = (j, false)
  rw_mapped j a sgl own (some x) =
      let x' = if sgl then record x { flags = bit_or x.flags c.psdt_mptr } else x in
      rw_meta (record j { sqe = x' }) a (meta_of a.mbuf own)

  -- The text that `unvmed_cmd_prep_read` and `unvmed_cmd_prep_write` share: `cid`, `flags` and `own` are
  -- `cmd->cid`, `cmd->flags` and `cmd->mbuf.va`. When the mapping fails libvfn may have written into the
  -- entry, which then is not sent.
  prep_rw : ℕ → Job D → ℕ → ℕ → Option ℕ → RwArgs → Job D × Bool
  unfolding rw_map rw_mapped
  prep_rw opcode j cid flags own a =
      let x = record j.sqe {
        opcode = opcode;
        nsid = a.nsid;
        slba = a.slba;
        nlb = a.nlb;
        cid = cid;
      } in
      rw_mapped (record j { sqe = x }) a (uses_sgl flags) own (rw_map x a.nr_iov (uses_sgl flags))

  -- `unvmed_cmd_prep_read`
  pub prep_read : Job D → ℕ → ℕ → Option ℕ → RwArgs → Job D × Bool
  unfolding prep_rw
  prep_read j cid flags own a = prep_rw c.read j cid flags own a

  -- `unvmed_cmd_prep_write`
  pub prep_write : Job D → ℕ → ℕ → Option ℕ → RwArgs → Job D × Bool
  unfolding prep_rw
  prep_write j cid flags own a = prep_rw c.write j cid flags own a
