-- ===== src/Cmd/Buffers/Tests.antt =====
-- The theorems on the set-up of commands at a queue of two identifiers.
use unvme_cli.Prelude.{true, false, none, some, [], ◌∷◌, ◌≡◌, refl, ◌==◌, if◌then◌else◌}
use unvme_cli.Cmd.{regular, grab, map_in, unmap, free}
use unvme_cli.Cmd.Tests.{take_rq, give_rq, idle, idle-IsSq, one, one_taken}
use unvme_cli.Cmd.Buffers.{Memory, cmd_init, buf_init, map_buf, mapped_with, own_buf, map_vaddr}
use unvme_cli.Cmd.Buffers.Setup.{Settled, cmd_init_lem}
use unvme_cli.Cmd.Buffers.Trace.{effects, cmd_init_trace}

-- The allocator answers one address and the IOMMU maps no buffer of the caller's.
abbrev memory : Memory
memory = record {
  pagesize = 4096;
  memalign = λ len. some 40960;
  translates = λ va. false;
  map_align = λ va len. if va == 40960 then none else some 12;
  bdf = true;
}

cmd_init_lem_example :
    Settled idle (cmd_init take_rq give_rq memory idle (some 1) none 512 (some 7) 8 5)
cmd_init_lem_example =
    cmd_init_lem take_rq give_rq idle memory idle-IsSq (some 1) none 512 (some 7) 8 5

-- The metadata buffer cannot be mapped: the data buffer is unmapped and freed twice.
twice :
    effects (buf_init memory none 512) (buf_init memory (some 7) 8)
    ≡ grab (some 40960)
      ∷ map_in (some 40960)
      ∷ unmap (some 40960)
      ∷ free (some 40960)
      ∷ unmap (some 40960)
      ∷ free (some 40960)
      ∷ []
unfolding buf_init map_buf own_buf mapped_with map_vaddr
twice = refl

cmd_init_trace_example :
    (cmd_init take_rq give_rq memory idle (some 1) none 512 (some 7) 8 5).0.log
    ≡ effects (buf_init memory none 512) (buf_init memory (some 7) 8)
cmd_init_trace_example =
    cmd_init_trace take_rq give_rq memory idle-IsSq (some 1) none 512 (some 7) 8 5 one (regular 1)
      one_taken
