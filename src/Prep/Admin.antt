-- ===== src/Prep/Admin.antt =====
-- lib/libunvmed-cmds.c, the preparation of admin commands. Values are those of the arguments' C types;
-- what a field is too narrow for is cut off.
pub mod Manage
pub mod Queues
pub mod Fields
use Prim.Native.Nat.{bit_and, bit_or}
use unvme_cli.Prelude.{
  ℕ, ◌+◌, ◌-◌, ◌*◌, ◌/◌, ◌%◌, ◌^◌, Bool, true, false, Option, none, some, List, [], ◌∷◌, map,
  length, ◌==◌, if◌then◌else◌,
}

-- An admin entry: the fields that the calls set, by their names in libvfn's structures.
pub record Entry (D : Type 0) : Type 0 where
  pub opcode : ℕ
  pub nsid : ℕ
  pub cid : ℕ
  pub dptr : D
  pub cdw10 : ℕ
  pub cdw11 : ℕ
  pub cdw12 : ℕ
  pub cdw13 : ℕ
  pub cdw14 : ℕ
  pub cdw15 : ℕ
  pub fid : ℕ
  pub sel : ℕ
  pub rsvd42 : ℕ
  pub lid : ℕ
  pub numdl : ℕ
  pub numdu : ℕ
  pub ctrlid : ℕ
  pub cns : ℕ
  pub qid : ℕ
  pub prp1 : ℕ
  pub qsize : ℕ
  pub qflags : ℕ
  pub rsvd12 : ℕ
  pub cqid : ℕ
  pub iv : ℕ

-- Constants of libvfn: opcodes, identify selectors, the host memory buffer's feature, the bits of
-- queue flags, and the selectors of namespace management and attachment.
pub record Codes : Type 0 where
  pub identify : ℕ
  pub set_features : ℕ
  pub get_features : ℕ
  pub get_log_page : ℕ
  pub abort_cmd : ℕ
  pub format_nvm : ℕ
  pub virtual_mgmt : ℕ
  pub ns_mgmt : ℕ
  pub ns_attach : ℕ
  pub create_sq : ℕ
  pub delete_sq : ℕ
  pub create_cq : ℕ
  pub delete_cq : ℕ
  pub cns_ctrl : ℕ
  pub cns_csi_ns : ℕ
  pub cns_primary : ℕ
  pub cns_secondary : ℕ
  pub fid_hmb : ℕ
  pub q_pc : ℕ
  pub cq_ien : ℕ
  pub mgmt_create : ℕ
  pub mgmt_delete : ℕ
  pub attach : ℕ
  pub detach : ℕ

module _ {D : Type 0} where
  -- `__unvmed_mapv_prp` at the end of a call: `nr_iov` is 0 when there is no vector, `prp` is what
  -- libvfn makes of it.
  with_prp : Entry D → Option D → Entry D × Bool
  with_prp x none = (x, false)
  with_prp x (some d) = (record x { dptr = d }, true)

  map_last : Entry D → ℕ → Option D → Entry D × Bool
  unfolding with_prp
  map_last x nr_iov prp = if nr_iov == 0 then (x, true) else with_prp x prp

module _ {D : Type 0} (c : Codes) where
  -- `unvmed_cmd_prep_id_ns`
  pub prep_id_ns : Entry D → ℕ → ℕ → ℕ → Option D → Entry D × Bool
  unfolding map_last
  prep_id_ns x cid nsid nr_iov prp =
      map_last (record x { opcode = c.identify; nsid = nsid; cns = 0; cid = cid }) nr_iov prp

  -- `unvmed_cmd_prep_id_ctrl`
  pub prep_id_ctrl : Entry D → ℕ → ℕ → Option D → Entry D × Bool
  unfolding map_last
  prep_id_ctrl x cid nr_iov prp =
      map_last (record x { opcode = c.identify; cns = c.cns_ctrl; cid = cid }) nr_iov prp

  -- `unvmed_cmd_prep_id_active_nslist`
  pub prep_id_active_nslist : Entry D → ℕ → ℕ → ℕ → Option D → Entry D × Bool
  unfolding map_last
  prep_id_active_nslist x cid nsid nr_iov prp =
      map_last (record x { opcode = c.identify; nsid = nsid; cns = 2; cid = cid }) nr_iov prp

  -- `unvmed_cmd_prep_nvm_id_ns`
  pub prep_nvm_id_ns : Entry D → ℕ → ℕ → ℕ → Option D → Entry D × Bool
  unfolding map_last
  prep_nvm_id_ns x cid nsid nr_iov prp =
      map_last (record x { opcode = c.identify; nsid = nsid; cns = c.cns_csi_ns; cid = cid }) nr_iov
        prp

  -- `unvmed_cmd_prep_id_primary_ctrl_caps`
  pub prep_id_primary_ctrl_caps : Entry D → ℕ → ℕ → ℕ → Option D → Entry D × Bool
  unfolding map_last
  prep_id_primary_ctrl_caps x cid cntlid nr_iov prp =
      map_last
        (record x { opcode = c.identify; ctrlid = cntlid % 2 ^ 16; cns = c.cns_primary; cid = cid })
        nr_iov prp

  -- `unvmed_cmd_prep_id_secondary_ctrl_list`
  pub prep_id_secondary_ctrl_list : Entry D → ℕ → ℕ → ℕ → Option D → Entry D × Bool
  unfolding map_last
  prep_id_secondary_ctrl_list x cid cntlid nr_iov prp =
      map_last
        (record x {
          opcode = c.identify;
          ctrlid = cntlid % 2 ^ 16;
          cns = c.cns_secondary;
          cid = cid;
        })
        nr_iov prp

  -- `unvmed_cmd_prep_set_features`
  pub prep_set_features : Entry D → ℕ → ℕ → ℕ → Bool → ℕ → ℕ → ℕ → Option D → Entry D × Bool
  unfolding map_last
  prep_set_features x cid nsid fid save cdw11 cdw12 nr_iov prp =
      map_last
        (record x {
          opcode = c.set_features;
          nsid = nsid;
          fid = fid;
          rsvd42 = (if save then 1 else 0) * 2 ^ 15;
          cdw11 = cdw11;
          cdw12 = cdw12;
          cid = cid;
        })
        nr_iov prp

  -- `unvmed_cmd_prep_set_features_hmb`
  pub prep_set_features_hmb : Entry D → ℕ → ℕ → ℕ → ℕ → Bool → Bool → Entry D
  prep_set_features_hmb x cid hsize descs_addr nr_descs mr on = record x {
    opcode = c.set_features;
    fid = c.fid_hmb;
    cdw11 = bit_or ((if mr then 1 else 0) * 2 ^ 1) (if on then 1 else 0);
    cdw12 = hsize;
    cdw13 = bit_and descs_addr 0xffffffff;
    cdw14 = descs_addr / 2 ^ 32;
    cdw15 = nr_descs;
    cid = cid;
  }

  -- `unvmed_cmd_prep_get_features`
  pub prep_get_features : Entry D → ℕ → ℕ → ℕ → ℕ → ℕ → ℕ → ℕ → Option D → Entry D × Bool
  unfolding map_last
  prep_get_features x cid nsid fid sel cdw11 cdw14 nr_iov prp =
      map_last
        (record x {
          opcode = c.get_features;
          nsid = nsid;
          fid = fid;
          sel = sel;
          cdw11 = cdw11;
          cdw14 = cdw14;
          cid = cid;
        })
        nr_iov prp

  -- `unvmed_cmd_prep_get_log_page`
  pub prep_get_log_page : Entry D → ℕ → ℕ → ℕ → ℕ → ℕ → Option D → Entry D × Bool
  unfolding map_last
  prep_get_log_page x cid nsid lid len nr_iov prp =
      let numd = (len / 2 ^ 2 + 2 ^ 32 - 1) % 2 ^ 32 in
      map_last
        (record x {
          opcode = c.get_log_page;
          nsid = nsid;
          lid = lid;
          numdl = bit_and numd 0xffff;
          numdu = numd / 2 ^ 16 % 2 ^ 16;
          cid = cid;
        })
        nr_iov prp

  -- `unvmed_cmd_prep_abort`
  pub prep_abort : Entry D → ℕ → ℕ → ℕ → Entry D
  prep_abort x cid sqid aborted = record x {
    opcode = c.abort_cmd;
    cdw10 = bit_or (aborted * 2 ^ 16 % 2 ^ 32) sqid;
    cid = cid;
  }
