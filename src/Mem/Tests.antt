-- ===== src/Mem/Tests.antt =====
-- The theorems on buffers at an empty registry.
use unvme_cli.Prelude.{true, false, none, some, [], ◌∷◌, ◌≡◌, refl, arith}
use unvme_cli.Mem.{Mem, mem_alloc, mem_get, find, free_mem_all}
use unvme_cli.Mem.Registry.{mem_alloc_lem, alloc_roundtrip, Emptied, free_mem_all_lem}
use unvme_cli.Mem.Hmb.{no_hmb, Owner, hmb_init, hmb_free}
use unvme_cli.Mem.Hmb.Cycle.{chunks, hmb_cycle}

abbrev empty : Mem
empty = record { list = []; bdf = true; errno = 0; log = [] }

mem_alloc_lem_example : (mem_alloc empty (some (4096, 8192)) none true).0.list ≡ []
unfolding mem_alloc
mem_alloc_lem_example = (mem_alloc_lem empty (some (4096, 8192)) none true refl).0

alloc_roundtrip_example :
    (mem_get (mem_alloc empty (some (4096, 8192)) (some 65536) true).0 70000).1
    ≡ some (record { vaddr = 4096; iova = 65536; len = 8192 })
unfolding find
alloc_roundtrip_example =
    (alloc_roundtrip empty 4096 8192 65536 70000 refl refl (omega arith) (omega arith)
      (omega arith)).0

abbrev owner : Owner
owner = record { hmb = no_hmb; mem = empty; arrays = 0 }

hmb_cycle_example :
    (hmb_free
      (hmb_init owner
        (chunks ((2, 65536, 4096) ∷ []))
        (some (8192, 4096))
        (some 131072)
        true).0).0.hmb
    ≡ no_hmb
hmb_cycle_example =
    (hmb_cycle owner ((2, 65536, 4096) ∷ []) 8192 4096 131072 refl refl
      ((λ e. absurd (omega (arith, e))), tt)).3

-- A registry of one buffer, with the device gone.
abbrev left : Mem
left = record {
  list = record { vaddr = 4096; iova = 65536; len = 8192 } ∷ [];
  bdf = false;
  errno = 0;
  log = [];
}

free_mem_all_lem_example : Emptied left.list false left (free_mem_all left)
free_mem_all_lem_example = free_mem_all_lem left
