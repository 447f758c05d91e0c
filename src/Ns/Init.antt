-- ===== src/Ns/Init.antt =====
-- `unvmed_init_ns` on a namespace that is new or known, the sizes of what it stores, and the list that
-- is copied out.
use unvme_cli.Prelude.{
  ℕ, if◌then◌else◌, ◌%◌, ◌*◌, ◌+◌, ◌/◌, ◌^◌, ◌≤◌, ◌<◌, true, false, Option, none, some, List, [],
  ◌∷◌, ◌++◌, map, ◌≡◌, ◌≢◌, ◌⊎◌, refl, subst, sym, ap, ◌∙◌, arith, length, length-append, All,
  All-map, All-append, All-both, append-nil, append_assoc, ◌==◌, ltb, Bool-cases, Option-cases, inl,
  inr, bit_and-mask, inc32,
}
use unvme_cli.Vcq.Pool.{store}
use unvme_cli.Ns.{
  Ns, no_ns, Nss, find_in, ns_find, ns_put, IdNs, format_index, describe, enable, register, renew,
  init_found, init_ns, init_with, set_ns, copied, copy_from, get_nslist,
}
use unvme_cli.Ns.Inv.{
  ns_find_lem, ns_get_found, ns_get_missing, Unique, Held, IsNss, found_lem, missing_lem,
  set_ns-IsNss, find-All, store_at, store_last, All-store, get_put_self,
}

-- The format that FLBAS names: its four low bits, and bits 5 and 6 above them when the namespace has
-- more than sixteen formats.
abbrev pub format_of : IdNs → ℕ
format_of id = if ltb id.nlbaf 16 then id.flbas % 16 else id.flbas % 16 + id.flbas / 32 % 4 * 16

format_of_lem : (id : IdNs) → format_index id ≡ format_of id
unfolding format_index
format_of_lem id =
    rw (bit_and-mask 4 id.flbas, bit_and-mask 2 (id.flbas / 2 ^ 5))
      (elim (Bool-cases (ltb id.nlbaf 16)) [
        | inl few ↦ rw few refl
        | inr many ↦ rw many (omega arith)
      ])

-- A namespace as it stands after `unvmed_init_ns`: the fields that the Identify data give, and the
-- rest as it was.
abbrev pub described : Ns → ℕ → IdNs → Ns
described x nsid id = record {
  refcnt = x.refcnt;
  enabled = true;
  nsid = nsid;
  format_idx = format_of id;
  lba_size = 2 ^ id.ds (format_of id) % 2 ^ 32;
  nr_lbas = id.nsze;
  ms = id.lbaf_ms (format_of id);
  mset = id.flbas / 16 % 2;
  pif = x.pif;
  dps = id.dps;
  sts = x.sts;
  lbstm = x.lbstm;
}

described_lem :
    (x : Ns) (nsid : ℕ) (id : IdNs)
    → record (describe x nsid id) { enabled = true } ≡ described x nsid id
unfolding describe
described_lem x nsid id = rw (format_of_lem id, bit_and-mask 1 (id.flbas / 2 ^ 4)) refl

renew_lem :
    (u : Nss) (p nsid : ℕ) (id : IdNs)
    → renew u p nsid id ≡ set_ns u p (described (u.heap p) nsid id)
unfolding renew enable
renew_lem u p nsid id =
    let x : Ns = describe (u.heap p) nsid id in
    rw (store_at u.heap p x) (
      ap (λ (f : ℕ → Ns). record u { heap = f })
        (store_last u.heap p x (record x { enabled = true })))
    ∙ ap (set_ns u p) (described_lem (u.heap p) nsid id)

found_case :
    (u : Nss) (p nsid : ℕ) (id : IdNs) (new : Option ℕ)
    → init_found (u, some p) nsid id new ≡ (renew (ns_put u p).0 p nsid id, true)
unfolding init_found
found_case u p nsid id new = refl

-- Identify data for a namespace that is registered already are written into it, on a well-formed list:
-- its identifier, the format that FLBAS names (four bits, or six with more than sixteen formats), the
-- block size and the metadata size of that format, the number of blocks, the metadata setting and the
-- protection settings. It is enabled; its reference count, its other fields, the list and all other
-- namespaces are as they were.
pub init_ns_again :
    (u : Nss) (nsid : ℕ) (id : IdNs) (new : Option ℕ) {p : ℕ}
    → IsNss u
    → ns_find u nsid ≡ some p
    → init_ns u nsid (some id) new ≡ (set_ns u p (described (u.heap p) nsid id), true)
unfolding init_ns init_with
init_ns_again u nsid id new {p = p} h found =
    let e : find_in u.heap nsid u.list ≡ some p = sym (ns_find_lem u nsid) ∙ found in
    let held : Held (u.heap p) = find-All Held u.heap nsid u.list e h.held in
    let x : Ns = record (u.heap p) { refcnt = inc32 (u.heap p).refcnt } in
    ap (λ (r : Nss × Option ℕ). init_found r nsid id new) (ns_get_found u nsid e)
    ∙ found_case (set_ns u p x) p nsid id new
    ∙ ap (λ (r : Nss × ℕ). (renew r.0 p nsid id, true)) (get_put_self u p held)
    ∙ ap (λ (t : Nss). (t, true)) (renew_lem u p nsid id)

-- A namespace that is not registered is put at the end of the list, in the memory that is given,
-- with one reference and enabled.
pub init_ns_new :
    (u : Nss) (nsid : ℕ) (id : IdNs) (p : ℕ)
    → ns_find u nsid ≡ none
    → init_ns u nsid (some id) (some p) ≡ (
      record u {
        list = u.list ++ p ∷ [];
        heap = store u.heap p (record (described no_ns nsid id) { refcnt = 1 });
        nr_ns = u.nr_ns + 1;
      },
      true,
    )
unfolding init_ns init_with init_found register enable
init_ns_new u nsid id p missing =
    let e : find_in u.heap nsid u.list ≡ none = sym (ns_find_lem u nsid) ∙ missing in
    let x : Ns = record (describe no_ns nsid id) { refcnt = 1 } in
    rw
      (
        ns_get_missing u nsid e,
        store_at u.heap p x,
        store_last u.heap p x (record x { enabled = true }),
      )
      (ap
        (λ (y : Ns). (
          record u { list = u.list ++ p ∷ []; heap = store u.heap p y; nr_ns = u.nr_ns + 1 },
          true,
        ))
        (ap (λ (y : Ns). record y { refcnt = 1 }) (described_lem no_ns nsid id)))

-- Without Identify data, or without memory for a new namespace, nothing is changed.
init_ns_no_data : (u : Nss) (nsid : ℕ) (new : Option ℕ) → init_ns u nsid none new ≡ (u, false)
unfolding init_ns init_with
init_ns_no_data u nsid new = refl

init_ns_no_memory :
    (u : Nss) (nsid : ℕ) (id : IdNs)
    → ns_find u nsid ≡ none
    → init_ns u nsid (some id) none ≡ (u, false)
unfolding init_ns init_with init_found
init_ns_no_memory u nsid id missing =
    rw (ns_get_missing u nsid (sym (ns_find_lem u nsid) ∙ missing)) refl

-- An address that the list does not hold.
abbrev pub Unused : Nss → Option ℕ → Type 0
Unused u none = Unit {0}
Unused u (some p) = All (λ q. q ≢ p) u.list

pub kept_elsewhere : (heap : ℕ → Ns) (p : ℕ) (x : Ns) {q : ℕ} → q ≢ p → store heap p x q ≡ heap q
kept_elsewhere heap p x n = ground arith

Unique-append :
    (heap : ℕ → Ns) (p : ℕ) (x : Ns) (ps : List ℕ)
    → All (λ q. q ≢ p) ps
    → All (λ q. (heap q).nsid ≢ x.nsid) ps
    → Unique heap ps
    → Unique (store heap p x) (ps ++ p ∷ [])
Unique-append heap p x [] un new h = (tt, tt)
Unique-append heap p x (q ∷ ps) un new h =
    let here : (store heap p x p).nsid ≡ x.nsid = ap (λ (y : Ns). y.nsid) (store_at heap p x) in
    let there : (z : ℕ) → z ≢ p → (store heap p x z).nsid ≡ (heap z).nsid =
      λ z n. ap (λ (y : Ns). y.nsid) (kept_elsewhere heap p x n) in
    (
      All-append (λ (z : ℕ). (store heap p x z).nsid ≢ (store heap p x q).nsid) ps (p ∷ [])
          (All-map (λ (z : ℕ). (z ≢ p) × ((heap z).nsid ≢ (heap q).nsid))
            (λ (z : ℕ). (store heap p x z).nsid ≢ (store heap p x q).nsid)
            (λ z k e. k.1 (sym (there z k.0) ∙ e ∙ there q un.0)) ps
            (All-both (λ (z : ℕ). z ≢ p) (λ (z : ℕ). (heap z).nsid ≢ (heap q).nsid) ps un.1 h.0))
          ((λ e. new.0 (sym (there q un.0) ∙ sym e ∙ here)), tt),
      Unique-append heap p x ps un.1 new.1 h.1,
    )

register-IsNss :
    (u : Nss) (p nsid : ℕ) (x : Ns)
    → x.nsid ≡ nsid
    → Held x
    → All (λ q. q ≢ p) u.list
    → find_in u.heap nsid u.list ≡ none
    → IsNss u
    → IsNss (record u { list = u.list ++ p ∷ []; heap = store u.heap p x; nr_ns = u.nr_ns + 1 })
register-IsNss u p nsid x named held unused missing h = record {
  unique =
      Unique-append u.heap p x u.list unused (rw named (missing_lem u.heap nsid u.list missing))
        h.unique;
  held =
      All-append (λ (q : ℕ). Held (store u.heap p x q)) u.list (p ∷ [])
        (All-store Held u.heap p x held u.list h.held)
        (subst Held (sym (store_at u.heap p x)) held, tt);
  counted = omega (arith, length-append u.list (p ∷ []), h.counted);
}

-- Whatever the Identify data, the command's success and the allocator, `unvmed_init_ns` keeps the list
-- well formed: each identifier once, every namespace held, and no more of them than `nr_ns`.
pub init_ns-IsNss :
    (u : Nss) (nsid : ℕ) (id : Option IdNs) (new : Option ℕ)
    → IsNss u
    → Unused u new
    → IsNss (init_ns u nsid id new).0
init_ns-IsNss u nsid none new h unused = rw (init_ns_no_data u nsid new) h
init_ns-IsNss u nsid (some id) new h unused = go new unused (Option-cases (ns_find u nsid))
  where
    go :
        (o : Option ℕ)
        → Unused u o
        → (ns_find u nsid ≡ none) ⊎ ((p : ℕ) × (ns_find u nsid ≡ some p))
        → IsNss (init_ns u nsid (some id) o).0
    go none un (inl e) = rw (init_ns_no_memory u nsid id e) h
    go (some p) un (inl e) = rw (init_ns_new u nsid id p e) (
        register-IsNss u p nsid (record (described no_ns nsid id) { refcnt = 1 }) refl (omega arith)
          un (sym (ns_find_lem u nsid) ∙ e) h)
    go o un (inr (p, e)) =
        let found : find_in u.heap nsid u.list ≡ some p = sym (ns_find_lem u nsid) ∙ e in
        rw (init_ns_again u nsid id o h e) (
          set_ns-IsNss u p (described (u.heap p) nsid id) (sym (found_lem u.heap nsid u.list found))
            (find-All Held u.heap nsid u.list found h.held) h)

-- The format index stays below the 64 formats that a namespace can have, and is that of one of the
-- first sixteen when the namespace has no more.
pub format_index_bounds :
    (id : IdNs) → (format_index id < 64) × ((16 ≤ id.nlbaf) ⊎ (format_index id < 16))
unfolding format_index
format_index_bounds id = elim (Bool-cases (ltb id.nlbaf 16)) [
  | inl few ↦ rw (few, bit_and-mask 4 id.flbas) (omega arith, inr (omega arith))
  | inr many ↦
      rw (many, bit_and-mask 4 id.flbas, bit_and-mask 2 (id.flbas / 2 ^ 5))
        (omega arith, inl (ground arith))
]

copy_from_lem :
    (u : Nss) (ps : List ℕ) (nr : ℕ) (done : List Ns)
    → nr + length ps ≤ u.nr_ns
    → copy_from u nr done ps ≡ copied (done ++ map u.heap ps)
unfolding copy_from
copy_from_lem u [] nr done h = rw (append-nil done) refl
copy_from_lem u (p ∷ ps) nr done h =
    let room : ltb nr u.nr_ns ≡ true = ground arith in
    rw room (
      copy_from_lem u ps (nr + 1) (done ++ u.heap p ∷ []) (omega arith)
      ∙ ap copied (append_assoc done (u.heap p ∷ []) (map u.heap ps)))

-- In a well-formed state the copy has room for every namespace, so the `assert` holds, and the result
-- is the whole list in order.
pub get_nslist_lem : (u : Nss) → IsNss u → get_nslist u true ≡ copied (map u.heap u.list)
unfolding get_nslist
get_nslist_lem u h = elim (Bool-cases (u.nr_ns == 0)) [
  | inl e ↦ rw e (empty u.list (ground (arith, h.counted)))
  | inr e ↦ rw e (copy_from_lem u u.list 0 [] (omega (arith, h.counted)))
]
  where
    empty : (ps : List ℕ) → length ps ≤ 0 → copied [] ≡ copied (map u.heap ps)
    empty [] l = refl
    empty (p ∷ ps) l = absurd (omega arith)
