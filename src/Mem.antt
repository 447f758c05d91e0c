-- ===== src/Mem.antt =====
-- lib/libunvmed.c, the registry of buffers that the library has mapped for its users.
pub mod Registry
pub mod Hmb
mod Tests
use unvme_cli.Prelude.{
  ℕ, ◌+◌, ◌%◌, ◌^◌, Bool, true, false, not, ◌&&◌, Option, none, some, List, [], ◌∷◌, ◌++◌, ltb, leb,
  if◌then◌else◌, enodev, einval,
}
use unvme_cli.Cmd.{Effect, grab, map_in, unmap, free}

-- The parts of libvfn's `struct iommu_dmabuf` that the library keeps, beside the context.
pub record Dmabuf : Type 0 where
  pub vaddr : ℕ
  pub iova : ℕ
  pub len : ℕ

-- What the calls work on: `u->mem_list`, whether the device is still there (`u->ctrl.pci.bdf`), `errno`,
-- and what has been done to memory so far.
pub record Mem : Type 0 where
  pub list : List Dmabuf
  pub bdf : Bool
  pub errno : ℕ
  pub log : List Effect

-- The test of `unvmed_mem_get` and `__unvmed_mem_free`; the end of the buffer is a `uint64_t`.
abbrev pub within : ℕ → Dmabuf → Bool
within iova b = leb b.iova iova && ltb iova ((b.iova + b.len) % 2 ^ 64)

-- `unvmed_unmap_vaddr`: nothing is done to memory once the device is gone.
abbrev pub unmap_vaddr : Mem → ℕ → Mem
unmap_vaddr u v =
    if not u.bdf
    then record u { errno = enodev }
    else record u { log = u.log ++ unmap (some v) ∷ [] }

-- `unvmed_pgunmap`
abbrev pub pgunmap : Mem → ℕ → Mem
pgunmap u v = record u { log = u.log ++ free (some v) ∷ [] }

alloc_mapped : Mem → ℕ → ℕ → Option ℕ → Mem × Option Dmabuf
alloc_mapped u v len none = (pgunmap u v, none)
alloc_mapped u v len (some iova) = (
  record u { log = u.log ++ map_in (some v) ∷ [] },
  some (record { vaddr = v; iova = iova; len = len }),
)

alloc_paged : Mem → Option (ℕ × ℕ) → Option ℕ → Mem × Option Dmabuf
unfolding alloc_mapped
alloc_paged u none iova = (u, none)
alloc_paged u (some (v, len)) iova =
    alloc_mapped (record u { log = u.log ++ grab (some v) ∷ [] }) v len iova

-- `__unvmed_mem_alloc`: `page` is what `unvmed_pgmap_aligned` gives, `iova` what the IOMMU does.
pub mem_map : Mem → Option (ℕ × ℕ) → Option ℕ → Mem × Option Dmabuf
unfolding alloc_paged
mem_map u page iova =
    if not u.bdf then (record u { errno = enodev }, none) else alloc_paged u page iova

-- `unvmed_mem_add`; `node` tells if `calloc` gives memory.
pub mem_add : Mem → Bool → Dmabuf → Mem × Bool
mem_add u node b = if not node then (u, false) else (record u { list = u.list ++ b ∷ [] }, true)

added : Mem × Bool → Dmabuf → Mem × Option Dmabuf
added (u, true) b = (u, some b)
added (u, false) b = (pgunmap (unmap_vaddr u b.vaddr) b.vaddr, none)

alloc_added : Mem × Option Dmabuf → Bool → Mem × Option Dmabuf
unfolding mem_add added
alloc_added (u, none) node = (u, none)
alloc_added (u, some b) node = added (mem_add u node b) b

-- `unvmed_mem_alloc`: the buffer that it fills in.
pub mem_alloc : Mem → Option (ℕ × ℕ) → Option ℕ → Bool → Mem × Option Dmabuf
unfolding mem_map alloc_added
mem_alloc u page iova node = alloc_added (mem_map u page iova) node

pub find : ℕ → List Dmabuf → Option Dmabuf
find iova [] = none
find iova (b ∷ bs) = if within iova b then some b else find iova bs

-- `list_del` of the buffer that the loop stops at.
pub remove : ℕ → List Dmabuf → List Dmabuf
remove iova [] = []
remove iova (b ∷ bs) = if within iova b then bs else b ∷ remove iova bs

got : Mem → Option Dmabuf → Mem × Option Dmabuf
got u none = (record u { errno = einval }, none)
got u (some b) = (u, some b)

-- `unvmed_mem_get`
pub mem_get : Mem → ℕ → Mem × Option Dmabuf
unfolding find got
mem_get u iova = got u (find iova u.list)

freed : Mem → ℕ → Option Dmabuf → Mem × Bool
unfolding remove
freed u iova none = (record u { errno = einval }, false)
freed u iova (some b) =
    (pgunmap (unmap_vaddr (record u { list = remove iova u.list }) b.vaddr) b.vaddr, true)

-- `unvmed_mem_free`
pub mem_free : Mem → ℕ → Mem × Bool
unfolding freed find
mem_free u iova = freed u iova (find iova u.list)

-- The loop of `unvmed_free_mem_all`, along the registry.
free_each : List Dmabuf → Mem → Mem
free_each [] u = u
free_each (b ∷ bs) u = free_each bs (pgunmap (unmap_vaddr (record u { list = bs }) b.vaddr) b.vaddr)

-- `unvmed_free_mem_all`
pub free_mem_all : Mem → Mem
unfolding free_each
free_mem_all u = free_each u.list u
