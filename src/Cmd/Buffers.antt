-- ===== src/Cmd/Buffers.antt =====
-- lib/libunvmed-cmds.c, the commands with their buffers: `unvmed_buf_init`, `__unvmed_cmd_init` and
-- the public calls that allocate a command. Memory is what the allocator and the IOMMU answer.
pub mod Setup
pub mod Trace
mod Tests
use unvme_cli.Prelude.{
  ℕ, ◌+◌, ◌-◌, ◌*◌, ◌/◌, ◌%◌, ◌^◌, Bool, true, false, not, ◌||◌, Option, none, some, List, [], ◌∷◌,
  ◌++◌, ◌==◌, if◌then◌else◌, einval, enodev,
}
use unvme_cli.Cmd.{
  is_init, no_buf, Buf, Effect, grab, map_in, free, Sq, Slot, conflict, read, write, fail, buf_free,
  cmd_alloc, cmd_put,
}

-- What the allocator and the IOMMU answer to the calls for one command, as functions of the arguments:
-- equal calls, as for two buffers of the same length or address, get equal answers.
-- `memalign` is `posix_memalign` of a length, `translates` is `iommu_translate_vaddr`, `map_align` is
-- `iommu_map_vaddr_align`, which answers the `errno` it fails with; `bdf` tells if the controller has
-- a PCI address.
pub record Memory : Type 0 where
  pub pagesize : ℕ
  pub memalign : ℕ → Option ℕ
  pub translates : ℕ → Bool
  pub map_align : ℕ → ℕ → Option ℕ
  pub bdf : Bool

-- The outcome of a buffer's set-up: `failed` if it returns -1, then with the `errno` it sets.
pub record Outcome : Type 0 where
  pub buf : Buf
  pub done : List Effect
  pub failed : Bool
  pub error : Option ℕ

module _ (m : Memory) where
  -- `ALIGN_UP` in `unvmed_pgmap_aligned`
  abbrev pub align_up : ℕ → ℕ
  align_up len = (len + m.pagesize - 1) / m.pagesize * m.pagesize

  -- `unvmed_map_vaddr`
  pub map_vaddr : ℕ → ℕ → Option ℕ
  map_vaddr va len = if not m.bdf then some enodev else m.map_align va len

  abbrev kept : Bool → Bool → ℕ → ℕ → List Effect → Outcome
  kept own mapped va len done = record {
    buf = record { va = some va; len = len; va_unmap = own; iova_unmap = mapped };
    done = done;
    failed = false;
    error = none;
  }

  mapped_with : Bool → ℕ → ℕ → Option ℕ → Outcome
  mapped_with own va len none =
      kept own true va len ((if own then grab (some va) ∷ [] else []) ++ map_in (some va) ∷ [])
  mapped_with own va len (some e) = record {
    buf = record no_buf { va_unmap = own };
    done = if own then grab (some va) ∷ free (some va) ∷ [] else [];
    failed = true;
    error = some e;
  }

  map_buf : Bool → ℕ → ℕ → Outcome
  unfolding mapped_with map_vaddr
  map_buf own va len =
      if len == 0 || m.translates va
      then kept own false va len (if own then grab (some va) ∷ [] else [])
      else mapped_with own va len (map_vaddr va len)

  own_buf : ℕ → Option ℕ → Outcome
  unfolding map_buf
  own_buf len (some va) = map_buf true va (align_up len % 2 ^ 32)
  own_buf len none = record { buf = no_buf; done = []; failed = true; error = none }

  -- `unvmed_buf_init`: a NULL buffer with a length is allocated.
  pub buf_init : Option ℕ → ℕ → Outcome
  unfolding own_buf
  buf_init (some va) len = map_buf false va len
  buf_init none len =
      if len == 0
      then record { buf = no_buf; done = []; failed = false; error = none }
      else own_buf len (m.memalign (align_up len))

module _ {R : Type 0} where
  noted : Option ℕ → Sq R → Sq R
  noted none q = q
  noted (some e) q = fail q e

  pub note : Sq R → Outcome → Sq R
  unfolding noted
  note q o = noted o.error (record q { log = q.log ++ o.done })

  -- `unvmed_get_conflict_cmd`
  pub get_conflict_cmd : Sq R → Option Slot
  get_conflict_cmd q = if is_init q.conflict_cmds.state then none else some conflict

module _ {R : Type 0} (rq_acquire : R → Option (ℕ × R)) (rq_release : ℕ → R → R) (m : Memory) where
  init_mbuf : Sq R → Slot → Outcome → Sq R × Option Slot
  unfolding note
  init_mbuf q s o =
      let q' = note (write q s (record (read q s) { mbuf = o.buf })) o in
      if o.failed
      then ((cmd_put rq_acquire rq_release (buf_free q' (read q' s).buf) s).0, none)
      else (q', some s)

  init_buf : Sq R → Slot → Outcome → Outcome → Sq R × Option Slot
  unfolding init_mbuf
  init_buf q s o mo =
      let q' = note (write q s (record (read q s) { buf = o.buf })) o in
      if o.failed then ((cmd_put rq_acquire rq_release q' s).0, none) else init_mbuf q' s mo

  init_with : Sq R × Option Slot → Outcome → Outcome → Sq R × Option Slot
  unfolding init_buf
  init_with (q, none) o mo = (q, none)
  init_with (q, some s) o mo = init_buf q s o mo

  -- `__unvmed_cmd_init`: a `size_t` length becomes a `uint32_t` one.
  pub cmd_init : Sq R → Option ℕ → Option ℕ → ℕ → Option ℕ → ℕ → ℕ → Sq R × Option Slot
  unfolding init_with
  cmd_init q want va len mva mlen vcq_id =
      init_with (cmd_alloc rq_acquire rq_release q want vcq_id) (buf_init m va (len % 2 ^ 32))
        (buf_init m mva (mlen % 2 ^ 32))

  no_data : Option ℕ → ℕ → Bool
  no_data none len = true
  no_data (some va) len = len == 0

  -- `unvmed_alloc_cmd_meta`
  pub alloc_cmd_meta : Sq R → Option ℕ → Option ℕ → ℕ → Option ℕ → ℕ → Sq R × Option Slot
  unfolding no_data cmd_init
  alloc_cmd_meta q want va len mva mlen =
      if no_data va len then (fail q einval, none) else cmd_init q want va len mva mlen 0

  -- `unvmed_alloc_cmd`
  pub alloc_cmd : Sq R → Option ℕ → Option ℕ → ℕ → Sq R × Option Slot
  unfolding no_data cmd_init
  alloc_cmd q want va len =
      if no_data va len then (fail q einval, none) else cmd_init q want va len none 0 0

  -- `unvmed_alloc_cmd_nodata`
  pub alloc_cmd_nodata : Sq R → Option ℕ → Sq R × Option Slot
  unfolding cmd_init
  alloc_cmd_nodata q want = cmd_init q want none 0 none 0 0

  -- `unvmed_alloc_cmd_cid`
  pub alloc_cmd_cid : Sq R → Option ℕ → ℕ → Sq R × Option Slot
  unfolding cmd_init
  alloc_cmd_cid q want vcq_id = cmd_init q want none 0 none 0 vcq_id
