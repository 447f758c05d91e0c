-- ===== src/Ns/Tests.antt =====
-- The theorems on namespaces at a controller with two of them, one held by another thread too.
use unvme_cli.Prelude.{
  ◌-◌, ◌<◌, ◌≤◌, ◌⊎◌, true, none, some, [], ◌∷◌, ◌≡◌, refl, arith, All, ◌==◌, if◌then◌else◌,
}
use unvme_cli.Ns.{
  Ns, no_ns, Nss, find_and_get, got, find_in, set_ns, IdNs, format_index, init_ns, free_ns_all,
  get_nslist, copied,
}
use unvme_cli.Ns.Inv.{IsNss, with_refs}
use unvme_cli.Ns.Init.{described, init_ns_again, init_ns-IsNss, format_index_bounds, get_nslist_lem}
use unvme_cli.Ns.Free.{remaining, dropped, free_ns_all_lem}
use unvme_cli.Ns.Meta.{Elba}

abbrev first : Ns
first = record no_ns { refcnt = 1; nsid = 1 }

abbrev second : Ns
second = record no_ns { refcnt = 2; nsid = 5; enabled = true }

abbrev two : Nss
two = record {
  list = 10 ∷ 11 ∷ [];
  heap = λ p. if p == 10 then first else second;
  nr_ns = 2;
  freed = [];
}

two-IsNss : IsNss two
two-IsNss = record { unique = omega arith; held = omega arith; counted = omega arith }

-- Formats of 512 bytes, and of 4096 bytes with 8 of metadata from index 17 on.
abbrev id : IdNs
id = record {
  nsze = 1000;
  nlbaf = 20;
  flbas = 0x31;
  dps = 0;
  ds = λ f. if f == 17 then 12 else 9;
  lbaf_ms = λ f. if f == 17 then 8 else 0;
}

index : format_index id ≡ 17
unfolding format_index
index = refl

format_index_bounds_example : (format_index id < 64) × ((16 ≤ 20) ⊎ (format_index id < 16))
format_index_bounds_example = format_index_bounds id

init_ns_again_example : init_ns two 5 (some id) none ≡ (set_ns two 11 (described second 5 id), true)
unfolding find_and_get got find_in
init_ns_again_example = init_ns_again two 5 id none two-IsNss refl

init_ns-IsNss_example : IsNss (init_ns two 7 (some id) (some 12)).0
init_ns-IsNss_example = init_ns-IsNss two 7 (some id) (some 12) two-IsNss (omega arith)

get_nslist_lem_example : get_nslist two true ≡ copied (first ∷ second ∷ [])
get_nslist_lem_example = get_nslist_lem two two-IsNss

free_ns_all_lem_example :
    ((free_ns_all two).list ≡ 11 ∷ [])
    × ((free_ns_all two).freed ≡ 10 ∷ [])
    × All
        (λ p. (free_ns_all two).heap p ≡ with_refs ((two.heap p).refcnt - 1) (two.heap p))
        (10 ∷ 11 ∷ [])
unfolding remaining dropped
free_ns_all_lem_example = free_ns_all_lem two two-IsNss

abbrev bits : Elba
bits = record { elbas = 0x8000; sts_mask = 0x7f; pif_mask = 0x180; qpif_mask = 0x1e00; qtype = 3 }
