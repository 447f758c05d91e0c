-- ===== src/Cid.antt =====
-- lib/libunvmed-cmds.c and lib/libunvmed.c: the bitmap of the command identifiers that a submission
-- queue has in use. The calls run undisturbed, so a compare-and-swap succeeds at once.
pub mod Bytes
pub mod Inv
pub mod Laws
pub mod Init
mod Tests
use Prim.Native.Nat.{bit_and, bit_or}
use unvme_cli.Prelude.{
  ℕ, zero, suc, ◌+◌, ◌-◌, ◌*◌, ◌/◌, ◌%◌, ◌^◌, Bool, true, false, not, Option, none, some, List, [],
  ◌∷◌, ◌==◌, leb, if◌then◌else◌, get_or, set, replicate, ebusy, einval, eexist, enomem,
}

-- `struct unvme_bitmap`, a byte to each entry of `bits`, and the caller's `errno`.
pub record Bitmap : Type 0 where
  pub size : ℕ
  pub nr_bytes : ℕ
  pub bits : List ℕ
  pub top : ℕ
  pub errno : ℕ

-- `byte & (1 << i)`, read as a condition.
unfoldable pub bit : ℕ → ℕ → Bool
bit byte i = not (bit_and byte (2 ^ i) == 0)

-- The loop of `__find_first_zero` for `k` more rounds, from `i` on; `none` is -1.
pub find_zero_from : ℕ → ℕ → ℕ → Option ℕ
unfolding bit
find_zero_from zero i byte = none
find_zero_from (suc k) i byte =
    let rest = find_zero_from k (i + 1) byte in if not (bit byte i) then some i else rest

-- `__find_first_zero`. A `uint8_t` is never equal to -1, so the first test does not pass.
pub find_first_zero : ℕ → Option ℕ
unfolding find_zero_from
find_first_zero byte = find_zero_from 8 0 byte

-- One attempt at byte `i`: the bitmap with the first free bit of the byte set, and the identifier,
-- as it is stored into a `uint16_t`.
pub try_byte : Bitmap → ℕ → Option (Bitmap × ℕ)
try_byte b i =
    let old = get_or b.bits i 0 in
    if old == 0xff then none else elim (find_first_zero old) [
      | none ↦ none
      | some pos ↦
          some (record b { bits = set b.bits i (bit_or old (2 ^ pos)) }, (i * 8 + pos) % 2 ^ 16)
    ]

-- The `for` loop of `unvmed_cid_alloc` for `k` more bytes, from `i` on.
pub scan : ℕ → ℕ → Bitmap → Option (Bitmap × ℕ)
scan zero i b = none
scan (suc k) i b =
    let rest = scan k (i + 1) b in
    elim (try_byte b i) [ none ↦ rest | some (b', cid) ↦ some (record b' { top = i }, cid) ]

-- `unvmed_cid_alloc`: the identifier beside 0, or `none` for -1.
pub cid_alloc : Bitmap → Bitmap × Option ℕ
cid_alloc b = elim (try_byte b b.top) [
  | some (b', cid) ↦ (b', some cid)
  | none ↦ elim (scan b.nr_bytes 0 b) [
    | some (b', cid) ↦ (b', some cid)
    | none ↦ (record b { errno = ebusy }, none)
  ]
]

-- `unvmed_cid_alloc_n`: `true` for 0, `false` for -1.
unfoldable pub cid_alloc_n : Bitmap → ℕ → Bitmap × Bool
cid_alloc_n b cid =
    let old = get_or b.bits (cid / 8) 0 in
    if leb b.size cid
    then (record b { errno = einval }, false)
    else if bit old (cid % 8)
    then (record b { errno = eexist }, false)
    else (record b { bits = set b.bits (cid / 8) (bit_or old (2 ^ (cid % 8))) }, true)

-- `unvmed_cid_free`
pub cid_free : Bitmap → ℕ → Bitmap × Bool
cid_free b cid =
    let old = get_or b.bits (cid / 8) 0 in
    if leb b.size cid
    then (record b { errno = einval }, false)
    else (record b { bits = set b.bits (cid / 8) (bit_and old (255 - 2 ^ (cid % 8))) }, true)

-- `unvmed_cid_init` of a zeroed bitmap; `memory` is false where `calloc` fails.
unfoldable pub cid_init : Bitmap → ℕ → Bool → Bitmap × Bool
cid_init b size memory =
    let n = (size + 8 - 1) / 8 in
    let zeroed = replicate n 0 in
    if not memory
    then (record b { size = size; nr_bytes = n; bits = []; errno = enomem }, false)
    else if size % 8 == 0
    then (record b { size = size; nr_bytes = n; bits = zeroed }, true)
    else (
      record b {
        size = size;
        nr_bytes = n;
        bits = set zeroed (n - 1) (0xff * 2 ^ (size % 8) % 256);
      },
      true,
    )
