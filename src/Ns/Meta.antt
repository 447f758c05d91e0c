-- ===== src/Ns/Meta.antt =====
-- `unvmed_init_meta_ns`: the reference that it takes for the time of the call is given back on every path.
use Prim.Native.Nat.{bit_and}
use unvme_cli.Prelude.{
  if◌then◌else◌, ◌==◌, Bool, true, false, ◌^◌, ◌%◌, ◌/◌, not, ◌&&◌, ℕ, Option, none, some, ◌≡◌, sym,
  subst, ap, ◌∙◌, ◌==◌, Bool-cases, inl, inr, inc32,
}
use unvme_cli.Vcq.Pool.{store}
use unvme_cli.Ns.{Ns, Nss, find_in, ns_find, ns_get, ns_put, set_ns}
use unvme_cli.Ns.Inv.{
  Held, IsNss, ns_find_lem, ns_get_found, find-All, store_at, store_last, get_put_self,
}

-- Constants of libvfn: the attribute bit of extended LBA formats, the masks of such a format's word,
-- and the value of the protection type that says to read the qualified one.
pub record Elba : Type 0 where
  pub elbas : ℕ
  pub sts_mask : ℕ
  pub pif_mask : ℕ
  pub qpif_mask : ℕ
  pub qtype : ℕ

-- The part of the NVM command set's Identify Namespace data that is read.
pub record NvmIdNs : Type 0 where
  pub lbstm : ℕ
  pub pic : ℕ
  pub elbaf : ℕ → ℕ

-- What `unvmed_init_meta_ns` writes; `sts` and `pif` are bytes.
pub describe_meta : Elba → Ns → NvmIdNs → Ns
describe_meta c x id =
    let elbaf = id.elbaf x.format_idx in
    let pif = bit_and elbaf c.pif_mask / 2 ^ 7 % 2 ^ 8 in
    record x {
      lbstm = id.lbstm;
      sts = bit_and elbaf c.sts_mask % 2 ^ 8;
      pif =
          if pif == c.qtype && not (bit_and id.pic 0x8 == 0)
          then bit_and elbaf c.qpif_mask / 2 ^ 9 % 2 ^ 8
          else pif;
    }

pub meta_known : Elba → Nss → ℕ → Option ℕ → Option NvmIdNs → Nss × Bool
unfolding describe_meta
meta_known c u p none id = (u, false)
meta_known c u p (some ctratt) none = (u, bit_and ctratt c.elbas == 0)
meta_known c u p (some ctratt) (some id) =
    (if bit_and ctratt c.elbas == 0 then u else set_ns u p (describe_meta c (u.heap p) id), true)

pub put_after : Nss × Bool → ℕ → Nss × Bool
unfolding ns_put
put_after (u, done) p = ((ns_put u p).0, done)

pub meta_found : Elba → Nss × Option ℕ → Option ℕ → Option NvmIdNs → Nss × Bool
unfolding meta_known put_after
meta_found c (u, none) ctratt id = (u, false)
meta_found c (u, some p) ctratt id = put_after (meta_known c u p ctratt id) p

-- `unvmed_init_meta_ns`: `ctratt` is that of the Identify Controller data, `none` when they are not
-- known and cannot be had; `id` is the caller's data or what the Identify command gives.
pub init_meta_ns : Elba → Nss → ℕ → Option ℕ → Option NvmIdNs → Nss × Bool
unfolding meta_found
init_meta_ns c u nsid ctratt id = meta_found c (ns_get u nsid) ctratt id

abbrev held_once_more : Nss → ℕ → Nss
held_once_more u p = set_ns u p (record (u.heap p) { refcnt = inc32 (u.heap p).refcnt })

describe_meta-Held : (c : Elba) (x : Ns) (id : NvmIdNs) → Held x → Held (describe_meta c x id)
unfolding describe_meta
describe_meta-Held c x id h = h

-- The write and the taking of the reference, in either order.
write_held :
    (c : Elba) (u : Nss) (p : ℕ) (id : NvmIdNs)
    → set_ns (held_once_more u p) p (describe_meta c ((held_once_more u p).heap p) id)
      ≡ held_once_more (set_ns u p (describe_meta c (u.heap p) id)) p
unfolding describe_meta
write_held c u p id =
    let x : Ns = record (u.heap p) { refcnt = inc32 (u.heap p).refcnt } in
    let d : Ns = describe_meta c (u.heap p) id in
    let here : store u.heap p d p ≡ d = store_at u.heap p d in
    ap (λ (f : ℕ → Ns). record u { heap = f })
      (ap (λ (y : Ns). store (store u.heap p x) p (describe_meta c y id)) (store_at u.heap p x)
        ∙ store_last u.heap p x (describe_meta c x id)
        ∙ sym (store_last u.heap p d (describe_meta c x id))
        ∙ ap (λ (y : Ns). store (store u.heap p d) p (record y { refcnt = inc32 y.refcnt }))
            (sym here))

write_put :
    (c : Elba) (u : Nss) (p : ℕ) (id : NvmIdNs)
    → Held (u.heap p)
    → (ns_put
        (set_ns (held_once_more u p) p (describe_meta c ((held_once_more u p).heap p) id))
        p).0
      ≡ set_ns u p (describe_meta c (u.heap p) id)
write_put c u p id h =
    let t : Nss = set_ns u p (describe_meta c (u.heap p) id) in
    ap (λ (s : Nss). (ns_put s p).0) (write_held c u p id)
    ∙ ap (λ (r : Nss × ℕ). r.0)
        (get_put_self t p (
          subst Held (sym (store_at u.heap p (describe_meta c (u.heap p) id)))
            (describe_meta-Held c (u.heap p) id h)))

plain_put : (u : Nss) (p : ℕ) → Held (u.heap p) → (ns_put (held_once_more u p) p).0 ≡ u
plain_put u p h = ap (λ (r : Nss × ℕ). r.0) (get_put_self u p h)

known_put :
    (c : Elba) (u : Nss) (p : ℕ) (ctratt : Option ℕ) (id : Option NvmIdNs)
    → Held (u.heap p)
    → put_after (meta_known c (held_once_more u p) p ctratt id) p ≡ meta_known c u p ctratt id
unfolding put_after meta_known
known_put c u p none id h = ap (λ (t : Nss). (t, false)) (plain_put u p h)
known_put c u p (some a) none h = ap (λ (t : Nss). (t, bit_and a c.elbas == 0)) (plain_put u p h)
known_put c u p (some a) (some id) h = elim (Bool-cases (bit_and a c.elbas == 0)) [
  | inl without ↦ rw without (ap (λ (t : Nss). (t, true)) (plain_put u p h))
  | inr has ↦ rw has (ap (λ (t : Nss). (t, true)) (write_put c u p id h))
]

-- For a registered namespace the call ends as if it had taken no reference, on every path: when the
-- Identify commands fail, when the controller has no extended LBA formats, and when the
-- namespace is written.
pub init_meta_ns_lem :
    (c : Elba) (u : Nss) (nsid : ℕ) (ctratt : Option ℕ) (id : Option NvmIdNs) {p : ℕ}
    → IsNss u
    → ns_find u nsid ≡ some p
    → init_meta_ns c u nsid ctratt id ≡ meta_known c u p ctratt id
unfolding init_meta_ns meta_found
init_meta_ns_lem c u nsid ctratt id {p = p} h found =
    let e : find_in u.heap nsid u.list ≡ some p = sym (ns_find_lem u nsid) ∙ found in
    ap (λ (r : Nss × Option ℕ). meta_found c r ctratt id) (ns_get_found u nsid e)
    ∙ known_put c u p ctratt id (find-All Held u.heap nsid u.list e h.held)
