-- ===== src/Mem/Hmb.antt =====
-- lib/libunvmed.c `unvmed_hmb_init` and `unvmed_hmb_free`, the buffers that a controller borrows.
pub mod Cycle
use unvme_cli.Prelude.{
  ℕ, ◌+◌, ◌-◌, ◌%◌, ◌^◌, Bool, true, false, not, Option, none, some, List, [], ◌∷◌, ◌++◌, ◌==◌,
  if◌then◌else◌, eexist, enomem, length,
}
use unvme_cli.Cmd.{Effect, grab, map_in, unmap, free}
use unvme_cli.Mem.{Mem, unmap_vaddr, pgunmap}

-- `struct unvme_hmb`: `descs` with its I/O address and size, the entries written so far, each with its
-- size, its I/O address and its pointer in `descs_vaddr`, whether that array is there, and the sizes.
-- The entries beyond are zero, as fresh pages are.
pub record Hmb : Type 0 where
  pub descs : Option ℕ
  pub descs_iova : ℕ
  pub descs_size : ℕ
  pub entries : List (ℕ × ℕ × ℕ)
  pub descs_vaddr : Bool
  pub nr_descs : ℕ
  pub hsize : ℕ

abbrev pub no_hmb : Hmb
no_hmb = record {
  descs = none;
  descs_iova = 0;
  descs_size = 0;
  entries = [];
  descs_vaddr = false;
  nr_descs = 0;
  hsize = 0;
}

-- The controller's buffer, memory, and how many arrays for `descs_vaddr` have been allocated and not
-- freed.
pub record Owner : Type 0 where
  pub hmb : Hmb
  pub mem : Mem
  pub arrays : ℕ

abbrev pub did : Owner → Effect → Owner
did u e = record u { mem = record u.mem { log = u.mem.log ++ e ∷ [] } }

-- One buffer of a request: its size, the pages that `unvmed_pgmap` gives, and the address of the IOMMU.
abbrev pub Chunk : Type 0
Chunk = ℕ × Option ℕ × Option ℕ

-- The loop over the buffers; `false` is its `goto free`.
pub fill : List Chunk → Owner → Owner × Bool
fill [] u = (u, true)
fill ((size, none, iova) ∷ cs) u = (u, false)
fill ((size, some v, none) ∷ cs) u = (did u (grab (some v)), false)
fill ((size, some v, some iova) ∷ cs) u =
    let u' = did (did u (grab (some v))) (map_in (some v)) in
    fill cs (record u' { hmb = record u.hmb { entries = u.hmb.entries ++ (size, iova, v) ∷ [] } })

-- The loop that unmaps the entries whose address is not 0.
pub release_all : List (ℕ × ℕ × ℕ) → Mem → Mem
release_all [] u = u
release_all ((size, iova, v) ∷ ds) u =
    let u' = if not (iova == 0) then pgunmap (unmap_vaddr u v) v else u in release_all ds u'

-- The end of `unvmed_hmb_init` behind `free:`; `descs` is its local variable.
pub undo : Owner → ℕ → Owner
unfolding release_all
undo u descs =
    let m : Mem = elim u.hmb.descs [ none ↦ u.mem | some d ↦ release_all u.hmb.entries u.mem ] in
    record {
      hmb = no_hmb;
      mem = record (pgunmap (unmap_vaddr m descs) descs) { errno = enomem };
      arrays = if u.hmb.descs_vaddr then u.arrays - 1 else u.arrays;
    }

sum_of : List Chunk → ℕ
sum_of [] = 0
sum_of ((size, page, iova) ∷ cs) = size + sum_of cs

filled : List Chunk → ℕ → Owner × Bool → Owner × Bool
unfolding sum_of undo
filled cs descs (u, false) = (undo u descs, false)
filled cs descs (u, true) =
    (record u { hmb = record u.hmb { hsize = sum_of cs % 2 ^ 64 % 2 ^ 32 } }, true)

init_mapped : Owner → ℕ → ℕ → List Chunk → Bool → Option ℕ → Owner × Bool
unfolding fill filled
init_mapped u v len cs node none = (undo u v, false)
init_mapped u v len cs node (some iova) =
    let u' = did u (map_in (some v)) in
    if not node
    then (undo u' v, false)
    else filled cs v (
        fill cs (record u' {
          arrays = u.arrays + 1;
          hmb = record u.hmb {
            descs = some v;
            descs_iova = iova;
            descs_size = len;
            descs_vaddr = true;
            nr_descs = length cs;
          };
        }))

init_paged : Owner → List Chunk → Option (ℕ × ℕ) → Option ℕ → Bool → Owner × Bool
unfolding init_mapped
init_paged u cs none iova node = (u, false)
init_paged u cs (some (v, len)) iova node = init_mapped (did u (grab (some v))) v len cs node iova

init_new : Owner → List Chunk → Option (ℕ × ℕ) → Option ℕ → Bool → Option ℕ → Owner × Bool
unfolding init_paged
init_new u cs page iova node none = init_paged u cs page iova node
init_new u cs page iova node (some d) = (record u { mem = record u.mem { errno = eexist } }, false)

-- `unvmed_hmb_init` of the buffers `cs`: `page` and `iova` are what the array of descriptors gets,
-- `node` tells if `calloc` gives memory for `descs_vaddr`.
pub hmb_init : Owner → List Chunk → Option (ℕ × ℕ) → Option ℕ → Bool → Owner × Bool
unfolding init_new
hmb_init u cs page iova node = init_new u cs page iova node u.hmb.descs

free_at : Owner → Option ℕ → Owner × Bool
unfolding release_all
free_at u none = (record u { mem = record u.mem { errno = enomem } }, false)
free_at u (some d) = (
  record u { hmb = no_hmb; mem = pgunmap (unmap_vaddr (release_all u.hmb.entries u.mem) d) d },
  true,
)

-- `unvmed_hmb_free`
pub hmb_free : Owner → Owner × Bool
unfolding free_at
hmb_free u = free_at u u.hmb.descs
