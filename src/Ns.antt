-- ===== src/Ns.antt =====
-- lib/libunvmed.c, the namespaces of a controller: the list that they are registered in, their
-- reference counts, and what Identify data says of one. A pointer to a namespace is an address of
-- `heap`. Calls run undisturbed. Most hold the lock of the list from end to end; `unvmed_init_ns` takes
-- it several times and counts `nr_ns` outside it, so that its model is the call of a single thread.
pub mod Inv
pub mod Init
pub mod Free
pub mod Meta
mod Tests
use Prim.Native.Nat.{bit_and}
use unvme_cli.Prelude.{
  ℕ, zero, suc, ◌+◌, ◌-◌, ◌*◌, ◌/◌, ◌%◌, ◌^◌, Bool, true, false, not, ◌&&◌, ◌||◌, Option, none,
  some, List, [], ◌∷◌, ◌++◌, map, ◌==◌, ltb, if◌then◌else◌, inc32, dec32, einval,
}
use unvme_cli.Vcq.Pool.{store}

-- `struct unvme_ns`; `refcnt` is the pattern of an `int`.
pub record Ns : Type 0 where
  pub refcnt : ℕ
  pub enabled : Bool
  pub nsid : ℕ
  pub format_idx : ℕ
  pub lba_size : ℕ
  pub nr_lbas : ℕ
  pub ms : ℕ
  pub mset : ℕ
  pub pif : ℕ
  pub dps : ℕ
  pub sts : ℕ
  pub lbstm : ℕ

-- After `zmalloc`.
abbrev pub no_ns : Ns
no_ns = record {
  refcnt = 0;
  enabled = false;
  nsid = 0;
  format_idx = 0;
  lba_size = 0;
  nr_lbas = 0;
  ms = 0;
  mset = 0;
  pif = 0;
  dps = 0;
  sts = 0;
  lbstm = 0;
}

-- `u->ns_list`, the namespaces in memory, `u->nr_ns`, and the addresses that were freed.
pub record Nss : Type 0 where
  pub list : List ℕ
  pub heap : ℕ → Ns
  pub nr_ns : ℕ
  pub freed : List ℕ

-- The first namespace of a list with the identifier.
unfoldable pub find_in : (ℕ → Ns) → ℕ → List ℕ → Option ℕ
find_in heap nsid [] = none
find_in heap nsid (p ∷ ps) = if (heap p).nsid == nsid then some p else find_in heap nsid ps

abbrev pub set_ns : Nss → ℕ → Ns → Nss
set_ns u p x = record u { heap = store u.heap p x }

unfoldable pub got : Nss → Option ℕ → Bool → Nss × Option ℕ
got u none get = (u, none)
got u (some p) get =
    (if get then set_ns u p (record (u.heap p) { refcnt = inc32 (u.heap p).refcnt }) else u, some p)

-- `__unvmed_find_and_get_ns`
unfoldable pub find_and_get : Nss → ℕ → Bool → Nss × Option ℕ
unfolding got
find_and_get u nsid get = got u (find_in u.heap nsid u.list) get

-- `unvmed_ns_find`
abbrev pub ns_find : Nss → ℕ → Option ℕ
ns_find u nsid = (find_and_get u nsid false).1

-- `unvmed_ns_get`
abbrev pub ns_get : Nss → ℕ → Nss × Option ℕ
ns_get u nsid = find_and_get u nsid true

-- `list_del`
pub list_del : ℕ → List ℕ → List ℕ
list_del p [] = []
list_del p (x ∷ xs) = if x == p then xs else x ∷ list_del p xs

-- `__unvmed_free_ns`
pub free_ns : Nss → ℕ → Nss
unfolding list_del
free_ns u p = record u { list = list_del p u.list; freed = p ∷ u.freed }

-- `__unvmed_ns_put`, and `unvmed_ns_put` under the lock
pub ns_put : Nss → ℕ → Nss × ℕ
unfolding free_ns
ns_put u p =
    let x = u.heap p in
    let refcnt = dec32 x.refcnt in
    let u' = set_ns u p (record x { refcnt = refcnt }) in
    (if refcnt == 0 then free_ns u' p else u', refcnt)

-- The part of Identify Namespace data that is read; `ds` and `ms` of the LBA formats.
pub record IdNs : Type 0 where
  pub nsze : ℕ
  pub nlbaf : ℕ
  pub flbas : ℕ
  pub dps : ℕ
  pub ds : ℕ → ℕ
  pub lbaf_ms : ℕ → ℕ

-- The format index: the low four bits of FLBAS, and two more when there are more formats.
pub format_index : IdNs → ℕ
format_index id =
    if ltb id.nlbaf 16
    then bit_and id.flbas 0xf
    else (bit_and id.flbas 0xf + bit_and (id.flbas / 2 ^ 5) 0x3 * 2 ^ 4) % 2 ^ 8

-- What `unvmed_init_ns` writes; `1 << ds` as the 32 bits of `lba_size`, defined in C for `ds` below 31.
pub describe : Ns → ℕ → IdNs → Ns
unfolding format_index
describe x nsid id =
    let f = format_index id in
    record x {
      nsid = nsid;
      lba_size = 2 ^ id.ds f % 2 ^ 32;
      nr_lbas = id.nsze;
      format_idx = f;
      mset = bit_and (id.flbas / 2 ^ 4) 0x1;
      ms = id.lbaf_ms f;
      dps = id.dps;
    }

enable : Nss → ℕ → Nss
enable u p = set_ns u p (record (u.heap p) { enabled = true })

register : Nss → ℕ → ℕ → IdNs → Nss
unfolding describe enable
register u p nsid id =
    let u' = set_ns u p (record (describe no_ns nsid id) { refcnt = 1 }) in
    enable (record u' { list = u.list ++ p ∷ []; nr_ns = u.nr_ns + 1 }) p

renew : Nss → ℕ → ℕ → IdNs → Nss
unfolding describe enable
renew u p nsid id = enable (set_ns u p (describe (u.heap p) nsid id)) p

pub init_found : Nss × Option ℕ → ℕ → IdNs → Option ℕ → Nss × Bool
unfolding register renew ns_put
init_found (u, none) nsid id none = (u, false)
init_found (u, none) nsid id (some p) = (register u p nsid id, true)
init_found (u, some p) nsid id new = (renew (ns_put u p).0 p nsid id, true)

init_with : Nss → ℕ → Option IdNs → Option ℕ → Nss × Bool
unfolding init_found
init_with u nsid none new = (u, false)
init_with u nsid (some id) new = init_found (ns_get u nsid) nsid id new

-- `unvmed_init_ns`: `id` is the caller's data, or what its Identify command gives, `none` when the
-- buffer or the command fails; `new` is what `zmalloc` gives.
pub init_ns : Nss → ℕ → Option IdNs → Option ℕ → Nss × Bool
unfolding init_with
init_ns u nsid id new = init_with u nsid id new

disable_each : List ℕ → (ℕ → Ns) → ℕ → Ns
disable_each [] heap = heap
disable_each (p ∷ ps) heap = disable_each ps (store heap p (record (heap p) { enabled = false }))

-- `unvmed_disable_ns_all`
pub disable_ns_all : Nss → Nss
unfolding disable_each
disable_ns_all u = record u { heap = disable_each u.list u.heap }

pub put_each : List ℕ → Nss → Nss
unfolding ns_put
put_each [] u = u
put_each (p ∷ ps) u = put_each ps (ns_put u p).0

-- `unvmed_free_ns_all`
pub free_ns_all : Nss → Nss
unfolding put_each
free_ns_all u = put_each u.list u

-- What `unvmed_get_nslist` ends with: `errno` on an error, or the namespaces that it copied, whose
-- number it returns. `overflow` is its `assert` failing.
pub data Listing : Type 0 where
  failed overflow : Listing
  copied : List Ns → Listing

copy_from : Nss → ℕ → List Ns → List ℕ → Listing
copy_from u nr done [] = copied done
copy_from u nr done (p ∷ ps) =
    let more = copy_from u (nr + 1) (done ++ u.heap p ∷ []) ps in
    if ltb nr u.nr_ns then more else overflow

-- `unvmed_get_nslist` with an array to fill; `memory` tells if `calloc` succeeds.
pub get_nslist : Nss → Bool → Listing
unfolding copy_from
get_nslist u memory =
    if u.nr_ns == 0 then copied [] else if not memory then failed else copy_from u 0 [] u.list
