-- ===== src/Prep/Admin/Manage.antt =====
-- lib/libunvmed-cmds.c, the preparation of Format, Virtualization Management and the management and
-- attachment of namespaces.
use Prim.Native.Nat.{bit_and, bit_or}
use unvme_cli.Prelude.{ℕ, ◌*◌, ◌/◌, ◌%◌, ◌^◌, Bool, Option, List, ◌∷◌, length}
use unvme_cli.Prep.Admin.{Entry, Codes, map_last}

-- The words that `unvmed_cmd_prep_attach_ns` and `unvmed_cmd_prep_detach_ns` write into the command's
-- buffer: the number of controllers, then each.
pub ctrl_list : List ℕ → List ℕ
ctrl_list ctrlids = (length ctrlids % 2 ^ 16) ∷ ctrlids

-- What `unvmed_cmd_prep_create_ns` copies into the command's buffer, field by field.
pub record HostNs : Type 0 where
  pub nsze : ℕ
  pub ncap : ℕ
  pub flbas : ℕ
  pub dps : ℕ
  pub nmic : ℕ
  pub anagrpid : ℕ
  pub nvmsetid : ℕ
  pub endgid : ℕ
  pub lbstm : ℕ
  pub nphndls : ℕ
  pub phndl : List ℕ

module _ {D : Type 0} (c : Codes) where
  -- `unvmed_cmd_prep_format`
  unfoldable pub prep_format : Entry D → ℕ → ℕ → ℕ → ℕ → ℕ → ℕ → ℕ → Entry D
  prep_format x cid nsid lbaf ses pil pi mset = record x {
    opcode = c.format_nvm;
    nsid = nsid;
    cdw10 =
        bit_or
          (bit_or
            (bit_or
              (bit_or (bit_or (bit_and (lbaf / 2 ^ 4) 3 * 2 ^ 12) (bit_and ses 0x7 * 2 ^ 9))
                (bit_and pil 0x1 * 2 ^ 8))
              (bit_and pi 0x7 * 2 ^ 5))
            (bit_and mset 0x1 * 2 ^ 4))
          (bit_and lbaf 0xf);
    cid = cid;
  }

  -- `unvmed_cmd_prep_virt_mgmt`
  unfoldable pub prep_virt_mgmt : Entry D → ℕ → ℕ → ℕ → ℕ → ℕ → Entry D
  prep_virt_mgmt x cid cntlid rt act nr = record x {
    opcode = c.virtual_mgmt;
    cdw10 =
        bit_or (bit_or (bit_and act 0xf) (bit_and rt 0x7 * 2 ^ 8)) (bit_and cntlid 0xffff * 2 ^ 16);
    cdw11 = bit_and nr 0xffff;
    cid = cid;
  }

  -- `unvmed_cmd_prep_delete_ns`
  pub prep_delete_ns : Entry D → ℕ → ℕ → Entry D
  prep_delete_ns x cid nsid = record x {
    opcode = c.ns_mgmt;
    cdw10 = c.mgmt_delete;
    nsid = nsid;
    cid = cid;
  }

  -- `unvmed_cmd_prep_create_ns`, with what it leaves in the buffer; `phndls` are the placement handles.
  pub prep_create_ns : Entry D → ℕ → HostNs → ℕ → List ℕ → ℕ → Option D → (Entry D × Bool) × HostNs
  unfolding map_last
  prep_create_ns x cid host csi phndls nr_iov prp = (
    map_last
        (record x {
          opcode = c.ns_mgmt;
          cdw10 = c.mgmt_create;
          cdw11 = csi * 2 ^ 24 % 2 ^ 32;
          cid = cid;
        })
        nr_iov prp,
    record host { nphndls = length phndls % 2 ^ 16; phndl = phndls },
  )

  -- `unvmed_cmd_prep_attach_ns`, with what it leaves in the buffer
  pub prep_attach_ns : Entry D → ℕ → ℕ → List ℕ → ℕ → Option D → (Entry D × Bool) × List ℕ
  unfolding map_last ctrl_list
  prep_attach_ns x cid nsid ctrlids nr_iov prp = (
    map_last (record x { opcode = c.ns_attach; nsid = nsid; cdw10 = c.attach; cid = cid }) nr_iov
        prp,
    ctrl_list ctrlids,
  )

  -- `unvmed_cmd_prep_detach_ns`
  pub prep_detach_ns : Entry D → ℕ → ℕ → List ℕ → ℕ → Option D → (Entry D × Bool) × List ℕ
  unfolding map_last ctrl_list
  prep_detach_ns x cid nsid ctrlids nr_iov prp = (
    map_last (record x { opcode = c.ns_attach; nsid = nsid; cdw10 = c.detach; cid = cid }) nr_iov
        prp,
    ctrl_list ctrlids,
  )
