-- ===== src/Prep.antt =====
-- lib/libunvmed-cmds.c, the submission entries that the `unvmed_cmd_prep_*` calls fill in. A field is
-- named as in the structure of libvfn that a call writes through; how these lie over one another
-- is libvfn's. Little-endian conversions are left out.
pub mod Space
pub mod Rw
pub mod Admin
mod Tests
use Prim.Native.Nat.{bit_and, bit_or}
use unvme_cli.Prelude.{
  ℕ, ◌+◌, ◌-◌, ◌*◌, ◌/◌, ◌%◌, ◌^◌, Bool, true, false, not, ◌&&◌, Option, none, some, ◌==◌, leb, ltb,
  if◌then◌else◌, einval,
}
use unvme_cli.Ns.{Ns, Nss, ns_get, ns_put}

-- `x << (a - b)` and `x >> (a - b)` of a `uint64_t`: `none` where C leaves the shift undefined, for
-- an amount that is negative or not below 64.
abbrev pub shl64 : ℕ → ℕ → ℕ → Option ℕ
shl64 x a b = if leb b a && ltb (a - b) 64 then some (x * 2 ^ (a - b) % 2 ^ 64) else none

abbrev pub shr64 : ℕ → ℕ → ℕ → Option ℕ
shr64 x a b = if leb b a && ltb (a - b) 64 then some (x / 2 ^ (a - b)) else none

-- `cdw2`, `cdw3` and `cdw14` of an entry.
pub record Tags : Type 0 where
  pub cdw2 : ℕ
  pub cdw3 : ℕ
  pub cdw14 : ℕ

one_shift : (ℕ → Tags) → Option ℕ → Option Tags
one_shift f none = none
one_shift f (some a) = some (f a)

two_shifts : (ℕ → ℕ → Tags) → Option ℕ → Option ℕ → Option Tags
unfolding one_shift
two_shifts f none b = none
two_shifts f (some a) b = one_shift (f a) b

three_shifts : (ℕ → ℕ → ℕ → Tags) → Option ℕ → Option ℕ → Option ℕ → Option Tags
unfolding two_shifts
three_shifts f none b c = none
three_shifts f (some a) b c = two_shifts (f a) b c

-- The three cases of `unvmed_sqe_set_tags`: a storage tag of `sts` bits and a reference tag.
pub guard16 : ℕ → ℕ → ℕ → Option Tags
unfolding one_shift
guard16 sts rtag stag =
    one_shift
      (λ s. record {
        cdw2 = 0;
        cdw3 = 0;
        cdw14 = bit_or (bit_and rtag 0xffffffff) (bit_and s 0xffffffff);
      })
      (shl64 stag 32 sts)

pub guard32 : ℕ → ℕ → ℕ → Option Tags
unfolding three_shifts
guard32 sts rtag stag =
    three_shifts
      (λ top low mid. record {
        cdw2 = bit_and top 0xffff;
        cdw3 = bit_or (bit_and (rtag / 2 ^ 32) 0xffffffff) (bit_and mid 0xffffffff);
        cdw14 = bit_or (bit_and rtag 0xffffffff) (bit_and low 0xffff0000);
      })
      (shr64 stag sts 16) (shl64 stag 80 sts)
      (if leb 48 sts then shr64 stag sts 48 else shl64 stag 48 sts)

pub guard64 : ℕ → ℕ → ℕ → Option Tags
unfolding two_shifts
guard64 sts rtag stag =
    two_shifts
      (λ low mid. record {
        cdw2 = 0;
        cdw3 = bit_or (bit_and (rtag / 2 ^ 32) 0xffff) (bit_and mid 0xffff);
        cdw14 = bit_or (bit_and rtag 0xffffffff) (bit_and low 0xffffffff);
      })
      (shl64 stag 48 sts) (if leb 16 sts then shr64 stag sts 16 else shl64 stag 16 sts)
