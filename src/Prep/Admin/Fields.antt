-- ===== src/Prep/Admin/Fields.antt =====
-- What the packed words of an admin entry read back as.
use Prim.Native.Nat.{bit_and, bit_or}
use unvme_cli.Prelude.{
  ℕ, ◌+◌, ◌-◌, ◌*◌, ◌/◌, ◌%◌, ◌^◌, ◌≤◌, ◌<◌, Bool, Option, none, some, ◌≡◌, refl, arith, if_either,
  ◌==◌, bit_and-mask, bit_or_fields, fields_bit_or,
}
use unvme_cli.Prep.Admin.Manage.{prep_format, prep_virt_mgmt}
use unvme_cli.Prep.Admin.{
  Entry, Codes, with_prp, map_last, prep_get_log_page, prep_abort, prep_set_features_hmb,
}

-- `|` of a further field below what is there.
below : (k q r : ℕ) {x : ℕ} → x ≡ q * 2 ^ k → r < 2 ^ k → bit_or x r ≡ x + r
below k q r e h = rw e (bit_or_fields k q r h)

-- The format word as a sum.
format_sum :
    (a b c d e f : ℕ)
    → b < 8
    → c < 2
    → d < 8
    → e < 2
    → f < 16
    → bit_or
        (bit_or
          (bit_or (bit_or (bit_or (a * 2 ^ 12) (b * 2 ^ 9)) (c * 2 ^ 8)) (d * 2 ^ 5))
          (e * 2 ^ 4))
        f
      ≡ a * 2 ^ 12 + b * 2 ^ 9 + c * 2 ^ 8 + d * 2 ^ 5 + e * 2 ^ 4 + f
format_sum a b c d e f hb hc hd he hf =
    let s1 = below 12 a (b * 2 ^ 9) {x = a * 2 ^ 12} refl (omega arith) in
    let s2 =
      below 9 (a * 8 + b) (c * 2 ^ 8) {x = a * 2 ^ 12 + b * 2 ^ 9} (omega arith) (omega arith) in
    let s3 =
      below 8 ((a * 8 + b) * 2 + c) (d * 2 ^ 5) {x = a * 2 ^ 12 + b * 2 ^ 9 + c * 2 ^ 8}
        (omega arith) (omega arith) in
    let s4 =
      below 5 (((a * 8 + b) * 2 + c) * 8 + d) (e * 2 ^ 4)
        {x = a * 2 ^ 12 + b * 2 ^ 9 + c * 2 ^ 8 + d * 2 ^ 5} (omega arith) (omega arith) in
    let s5 =
      below 4 ((((a * 8 + b) * 2 + c) * 8 + d) * 2 + e) f
        {x = a * 2 ^ 12 + b * 2 ^ 9 + c * 2 ^ 8 + d * 2 ^ 5 + e * 2 ^ 4} (omega arith) hf in
    rw (s1, s2, s3, s4) s5

-- What does not read the data pointer holds after the mapping if it held before.
map_last_keeps :
    {D : Type 0} (P : Entry D → Type 0) (y : Entry D) (nr_iov : ℕ) (prp : Option D)
    → P y
    → ((d : D) → P (record y { dptr = d }))
    → P (map_last y nr_iov prp).0
unfolding map_last with_prp
map_last_keeps {D} P y nr_iov none h k = if_either (λ (r : Entry D × Bool). P r.0) (nr_iov == 0) h h
map_last_keeps {D} P y nr_iov (some d) h k =
    if_either (λ (r : Entry D × Bool). P r.0) (nr_iov == 0) h (k d)

module _ {D : Type 0} (c : Codes) (x : Entry D) where
  -- The word of a Format command has 14 bits, and each field, where the specification puts it, is
  -- the argument cut to the field's width; a format index is stored in two parts.
  pub format_fields :
      (cid nsid lbaf ses pil pi mset : ℕ)
      → let w = (prep_format c x cid nsid lbaf ses pil pi mset).cdw10 in
        (w < 2 ^ 14)
        × (w / 2 ^ 12 % 4 * 16 + w % 16 ≡ lbaf % 64)
        × (w / 2 ^ 9 % 8 ≡ ses % 8)
        × (w / 2 ^ 8 % 2 ≡ pil % 2)
        × (w / 2 ^ 5 % 8 ≡ pi % 8)
        × (w / 2 ^ 4 % 2 ≡ mset % 2)
  unfolding prep_format
  format_fields cid nsid lbaf ses pil pi mset =
      rw
        (
          bit_and-mask 2 (lbaf / 2 ^ 4),
          bit_and-mask 3 ses,
          bit_and-mask 1 pil,
          bit_and-mask 3 pi,
          bit_and-mask 1 mset,
          bit_and-mask 4 lbaf,
          format_sum (lbaf / 2 ^ 4 % 2 ^ 2) (ses % 2 ^ 3) (pil % 2 ^ 1) (pi % 2 ^ 3) (mset % 2 ^ 1)
              (lbaf % 2 ^ 4) (omega arith) (omega arith) (omega arith) (omega arith) (omega arith),
        )
        (omega arith)

  -- A log page of `len` bytes, at least 4 and below 2 ^ 32: the two halves of the count are words of 16
  -- bits, and they ask for as many dwords, counted from zero, as `len` holds whole ones.
  pub log_page_dwords :
      (cid nsid lid len nr_iov : ℕ) (prp : Option D)
      → 4 ≤ len
      → len < 2 ^ 32
      → let e = (prep_get_log_page c x cid nsid lid len nr_iov prp).0 in
        (e.numdl < 2 ^ 16) × (e.numdu < 2 ^ 16) × (e.numdu * 2 ^ 16 + e.numdl + 1 ≡ len / 4)
  unfolding prep_get_log_page
  log_page_dwords cid nsid lid len nr_iov prp h small =
      let numd : ℕ = (len / 2 ^ 2 + 2 ^ 32 - 1) % 2 ^ 32 in
      let y : Entry D = record x {
        opcode = c.get_log_page;
        nsid = nsid;
        lid = lid;
        numdl = bit_and numd 0xffff;
        numdu = numd / 2 ^ 16 % 2 ^ 16;
        cid = cid;
      } in
      let good : (y.numdl < 2 ^ 16)
          × (y.numdu < 2 ^ 16)
          × (y.numdu * 2 ^ 16 + y.numdl + 1 ≡ len / 4) =
        rw (bit_and-mask 16 numd) (omega arith, omega arith, omega arith) in
      map_last_keeps
        (λ e. (e.numdl < 2 ^ 16) × (e.numdu < 2 ^ 16) × (e.numdu * 2 ^ 16 + e.numdl + 1 ≡ len / 4))
        y nr_iov prp good (λ d. good)

  -- The word of an Abort command gives back the queue and the identifier of the command to abort.
  pub abort_fields :
      (cid sqid aborted : ℕ)
      → sqid < 2 ^ 16
      → aborted < 2 ^ 16
      → let w = (prep_abort c x cid sqid aborted).cdw10 in
        (w < 2 ^ 32) × (w / 2 ^ 16 ≡ aborted) × (w % 2 ^ 16 ≡ sqid)
  unfolding prep_abort
  abort_fields cid sqid aborted hs ha =
      let cut : aborted * 2 ^ 16 % 2 ^ 32 ≡ aborted * 2 ^ 16 = omega arith in
      rw (cut, bit_or_fields 16 aborted sqid hs) (omega arith)

  -- The words of a Virtualization Management command give back the action, the resource type and the
  -- controller, each cut to its width, and nothing else.
  pub virt_mgmt_fields :
      (cid cntlid rt act nr : ℕ)
      → let e = prep_virt_mgmt c x cid cntlid rt act nr in
        (e.cdw10 < 2 ^ 32)
        × (e.cdw10 % 16 ≡ act % 16)
        × (e.cdw10 / 2 ^ 4 % 16 ≡ 0)
        × (e.cdw10 / 2 ^ 8 % 256 ≡ rt % 8)
        × (e.cdw10 / 2 ^ 16 ≡ cntlid % 2 ^ 16)
        × (e.cdw11 ≡ nr % 2 ^ 16)
  unfolding prep_virt_mgmt
  virt_mgmt_fields cid cntlid rt act nr =
      rw
        (
          bit_and-mask 4 act,
          bit_and-mask 3 rt,
          bit_and-mask 16 cntlid,
          bit_and-mask 16 nr,
          fields_bit_or 8 (rt % 2 ^ 3) (act % 2 ^ 4) (omega arith),
          fields_bit_or 16 (cntlid % 2 ^ 16) (rt % 2 ^ 3 * 2 ^ 8 + act % 2 ^ 4) (omega arith),
        )
        (omega arith)

  -- The address of the descriptors of a host memory buffer is split into two dwords that give it back.
  pub hmb_address :
      (cid hsize addr nr_descs : ℕ) (mr on : Bool)
      → addr < 2 ^ 64
      → let e = prep_set_features_hmb c x cid hsize addr nr_descs mr on in
        (e.cdw13 < 2 ^ 32) × (e.cdw14 < 2 ^ 32) × (e.cdw14 * 2 ^ 32 + e.cdw13 ≡ addr)
  unfolding prep_set_features_hmb
  hmb_address cid hsize addr nr_descs mr on h = rw (bit_and-mask 32 addr) (omega arith)
