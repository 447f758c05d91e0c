-- ===== src/Prep/Tests.antt =====
-- The theorems on submission entries at concrete arguments, with libvfn's constants as NVMe has them.
use unvme_cli.Prelude.{
  ℕ, ◌+◌, ◌*◌, ◌/◌, ◌%◌, ◌^◌, ◌<◌, true, false, none, some, [], ◌∷◌, ◌≡◌, refl, arith, ◌==◌,
  if◌then◌else◌,
}
use unvme_cli.Ns.{no_ns, Nss, find_and_get, got, find_in}
use unvme_cli.Ns.Inv.{IsNss}
use unvme_cli.Prep.{Tags, guard32, guard64}
use unvme_cli.Prep.Space.{space, Fits, joined, guard32-space, guard64-space}
use unvme_cli.Prep.Rw.{Sqe, RwCodes, Job, RwArgs, Mapping, prep_read, prep_write}
use unvme_cli.Prep.Rw.Refs.{prep_rw_keeps}
use unvme_cli.Prep.Rw.Written.{prep_write_result, prep_write32}
use unvme_cli.Prep.Admin.{Entry, Codes, prep_get_log_page}
use unvme_cli.Prep.Admin.Manage.{prep_format}
use unvme_cli.Prep.Admin.Fields.{format_fields, log_page_dwords}
use unvme_cli.Prep.Admin.Queues.{create_cq_fields, prep_create_cq}

-- A storage tag of 32 bits and a reference tag of 48.
guard32-space_example :
    (t : Tags) × (guard32 32 0x1122_3344_5566 0xaabb_ccdd ≡ some t)
    × Fits t
    × (joined t ≡ space 80 32 0x1122_3344_5566 0xaabb_ccdd)
guard32-space_example =
    guard32-space 32 0x1122_3344_5566 0xaabb_ccdd (omega arith) (omega arith) (omega arith)
      (omega arith)

guard64-space_example :
    (t : Tags) × (guard64 20 0xabcdef 0x12345 ≡ some t)
    × Fits t
    × (joined t ≡ space 48 20 0xabcdef 0x12345)
guard64-space_example = guard64-space 20 0xabcdef 0x12345 (omega arith) (omega arith) (omega arith)

abbrev codes : RwCodes
codes = record {
  read = 2;
  write = 1;
  psdt_mptr = 0x40;
  io_stc = 0x100;
  pif16 = 0;
  pif32 = 1;
  pif64 = 2;
}

abbrev no_tags : Tags
no_tags = record { cdw2 = 0; cdw3 = 0; cdw14 = 0 }

abbrev zero_sqe : Sqe ℕ
zero_sqe = record {
  opcode = 0;
  flags = 0;
  cid = 0;
  nsid = 0;
  mptr = 0;
  dptr = 0;
  tags = no_tags;
  slba = 0;
  nlb = 0;
  control = 0;
  apptag = 0;
  appmask = 0;
}

abbrev one_ns : Nss
one_ns = record {
  list = 4 ∷ [];
  heap = λ p. record no_ns { refcnt = 1; nsid = 1; enabled = true; pif = 1; sts = 32 };
  nr_ns = 1;
  freed = [];
}

one_ns-IsNss : IsNss one_ns
one_ns-IsNss = record { unique = omega arith; held = omega arith; counted = omega arith }

abbrev job : Job ℕ
job = record { sqe = zero_sqe; opaque = none; nss = one_ns; errno = 0; undefined = false }

-- Data at 0x1000, a buffer at 7 for the IOMMU only.
abbrev mapping : Mapping ℕ
mapping = record {
  prp = some 0x1000;
  sgl = none;
  to_iova = λ b. if b == 7 then some 0x7000 else none;
}

abbrev args : RwArgs
args = record {
  nsid = 1;
  slba = 100;
  nlb = 7;
  prinfo = 0;
  atag = 3;
  atag_mask = 0xffff;
  rtag = 100;
  stag = 0xaabb_ccdd;
  stag_check = true;
  nr_iov = 1;
  mbuf = none;
  opaque = some 9;
}

prep_rw_keeps_example :
    ((prep_read codes mapping job 5 0 (some 8) args).0.nss ≡ one_ns)
    × ((prep_write codes mapping job 5 0 (some 8) args).0.nss ≡ one_ns)
prep_rw_keeps_example = prep_rw_keeps codes mapping job 5 0 (some 8) args one_ns-IsNss

-- The command's own metadata buffer is not mapped.
prep_write_result_example : (prep_write codes mapping job 5 0 (some 8) args).1 ≡ false
prep_write_result_example = prep_write_result codes mapping job 5 0 (some 8) args

prep_write32_example :
    (r : Job ℕ) × (prep_write codes mapping job 5 0 none args ≡ (r, true))
    × ((r.sqe.opcode ≡ 1)
        × (r.sqe.cid ≡ 5)
        × (r.sqe.nsid ≡ 1)
        × (r.sqe.slba ≡ 100)
        × (r.sqe.nlb ≡ 7))
    × ((r.sqe.dptr ≡ 0x1000) × (r.sqe.apptag ≡ 3) × (r.sqe.appmask ≡ 0xffff) × (r.opaque ≡ some 9))
    × (joined r.sqe.tags ≡ space 80 32 100 0xaabb_ccdd)
unfolding find_and_get got find_in
prep_write32_example =
    prep_write32 codes mapping job 5 0 args one_ns-IsNss refl refl (omega arith) (omega arith)
      (omega arith) (omega arith) (omega arith) refl refl refl refl

abbrev admin : Codes
admin = record {
  identify = 6;
  set_features = 9;
  get_features = 10;
  get_log_page = 2;
  abort_cmd = 8;
  format_nvm = 0x80;
  virtual_mgmt = 0x1c;
  ns_mgmt = 0x0d;
  ns_attach = 0x15;
  create_sq = 1;
  delete_sq = 0;
  create_cq = 5;
  delete_cq = 4;
  cns_ctrl = 1;
  cns_csi_ns = 5;
  cns_primary = 0x14;
  cns_secondary = 0x15;
  fid_hmb = 0x0d;
  q_pc = 1;
  cq_ien = 2;
  mgmt_create = 0;
  mgmt_delete = 1;
  attach = 0;
  detach = 1;
}

abbrev blank : Entry ℕ
blank = record {
  opcode = 0;
  nsid = 0;
  cid = 0;
  dptr = 0;
  cdw10 = 0;
  cdw11 = 0;
  cdw12 = 0;
  cdw13 = 0;
  cdw14 = 0;
  cdw15 = 0;
  fid = 0;
  sel = 0;
  rsvd42 = 0;
  lid = 0;
  numdl = 0;
  numdu = 0;
  ctrlid = 0;
  cns = 0;
  qid = 0;
  prp1 = 0;
  qsize = 0;
  qflags = 0;
  rsvd12 = 0;
  cqid = 0;
  iv = 0;
}

-- Format 37 with secure erase 1 and protection type 2.
format_word : (prep_format admin blank 1 1 37 1 0 2 1).cdw10 ≡ 0x2255
unfolding prep_format
format_word = refl

format_fields_example :
    let w = (prep_format admin blank 1 1 37 1 0 2 1).cdw10 in
    (w < 2 ^ 14)
    × (w / 2 ^ 12 % 4 * 16 + w % 16 ≡ 37)
    × (w / 2 ^ 9 % 8 ≡ 1)
    × (w / 2 ^ 8 % 2 ≡ 0)
    × (w / 2 ^ 5 % 8 ≡ 2)
    × (w / 2 ^ 4 % 2 ≡ 1)
format_fields_example = format_fields admin blank 1 1 37 1 0 2 1

-- 512 KiB and two bytes.
log_page_dwords_example :
    let e = (prep_get_log_page admin blank 1 1 2 524290 1 (some 0x2000)).0 in
    (e.numdl < 2 ^ 16) × (e.numdu < 2 ^ 16) × (e.numdu * 2 ^ 16 + e.numdl + 1 ≡ 131072)
log_page_dwords_example =
    log_page_dwords admin blank 1 1 2 524290 1 (some 0x2000) (omega arith) (omega arith)

create_cq_fields_example :
    let e = prep_create_cq admin blank 1 (λ q. q * 0x1000) 3 1024 (some 3) true in
    let e' = prep_create_cq admin blank 1 (λ q. q * 0x1000) 3 1024 none true in
    (e.qsize + 1 ≡ 1024)
    × (e.qid ≡ 3)
    × (e.qflags ≡ 3)
    × (e.iv ≡ 3)
    × (e'.qsize + 1 ≡ 1024)
    × (e'.qid ≡ 3)
    × (e'.qflags ≡ 1)
    × (e'.iv ≡ 0)
create_cq_fields_example =
    create_cq_fields admin blank 1 (λ q. q * 0x1000) 3 1024 3 true refl refl (omega arith)
      (omega arith) (omega arith) (omega arith)
