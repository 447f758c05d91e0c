-- ===== src/Cid/Tests.antt =====
-- The theorems on the identifier bitmap at a queue of eleven identifiers.
use unvme_cli.Prelude.{true, none, some, [], ◌∷◌, ◌≡◌, refl, arith, ebusy}
use unvme_cli.Cid.{Bitmap, bit, find_first_zero, try_byte, scan, cid_alloc, cid_free, cid_init}
use unvme_cli.Cid.Inv.{IsBitmap}
use unvme_cli.Cid.Laws.{Allocated, cid_alloc_lem, cid_free_lem}
use unvme_cli.Cid.Init.{cid_init_lem}

abbrev zeroed : Bitmap
zeroed = record { size = 0; nr_bytes = 0; bits = []; top = 0; errno = 0 }

-- What `unvmed_cid_init` makes of it for eleven identifiers.
abbrev eleven : Bitmap
eleven = record { size = 11; nr_bytes = 2; bits = 0 ∷ 0xf8 ∷ []; top = 0; errno = 0 }

init_eleven : cid_init zeroed 11 true ≡ (eleven, true)
unfolding cid_init
init_eleven = refl

full_byte :
    cid_alloc (record eleven { bits = 0xff ∷ 0xf9 ∷ [] })
    ≡ (record eleven { bits = 0xff ∷ 0xfb ∷ []; top = 1 }, some 9)
unfolding cid_alloc try_byte scan bit find_first_zero
full_byte = refl

exhausted :
    cid_alloc (record eleven { bits = 0xff ∷ 0xff ∷ [] })
    ≡ (record eleven { bits = 0xff ∷ 0xff ∷ []; errno = ebusy }, none)
unfolding cid_alloc try_byte scan bit find_first_zero
exhausted = refl

eleven-IsBitmap : IsBitmap eleven
unfolding cid_init
eleven-IsBitmap = (cid_init_lem zeroed 11 refl (omega arith) (omega arith)).2

cid_alloc_lem_example : Allocated eleven (cid_alloc eleven)
cid_alloc_lem_example = cid_alloc_lem eleven-IsBitmap

cid_free_lem_example : (cid_free eleven 10).1 ≡ true
cid_free_lem_example = ((cid_free_lem eleven-IsBitmap 10).1 (omega arith)).0
