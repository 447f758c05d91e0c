-- ===== src/Mem/Hmb/Cycle.antt =====
-- A host memory buffer set up and given back.
use unvme_cli.Prelude.{
  ℕ, ◌+◌, ◌%◌, ◌^◌, Bool, true, false, not, some, List, [], ◌∷◌, ◌++◌, ◌≡◌, ◌≢◌, refl, sym, ap,
  subst, ◌∙◌, arith, ◌==◌, if◌then◌else◌, length,
}
use unvme_cli.Cmd.{Effect, grab, map_in, unmap, free}
use unvme_cli.Mem.{Mem, unmap_vaddr, pgunmap}
use unvme_cli.Mem.Registry.{is_grab, is_free, is_map, is_unmap, one_at, tally_two, Keeps}
use unvme_cli.Mem.Hmb.{
  Hmb, no_hmb, Owner, did, Chunk, fill, release_all, sum_of, filled, init_mapped, init_paged,
  init_new, hmb_init, free_at, hmb_free,
}

-- A request whose buffers all get pages `v` and an address `iova`, each as (size, iova, v), and the
-- entries that are written for them are the same triples.
abbrev pub chunks : List (ℕ × ℕ × ℕ) → List Chunk
chunks [] = []
chunks ((size, iova, v) ∷ rs) = (size, some v, some iova) ∷ chunks rs

-- No address is 0, which the code takes for an entry that is not there.
abbrev pub NonZero : List (ℕ × ℕ × ℕ) → Type 0
NonZero [] = Unit {0}
NonZero ((size, iova, v) ∷ rs) = (iova ≢ 0) × NonZero rs

-- How many of the buffers are at an address.
entries_at : ℕ → List (ℕ × ℕ × ℕ) → ℕ
entries_at a [] = 0
entries_at a ((size, iova, v) ∷ rs) = one_at v a + entries_at a rs

Keeps-step :
    (a n : ℕ) (l l' : List Effect) (v : ℕ)
    → Keeps a n ((l ++ grab (some v) ∷ []) ++ map_in (some v) ∷ []) l'
    → Keeps a (one_at v a + n) l l'
Keeps-step a n l l' v h = (
  omega (
    arith,
    h.0,
    tally_two (is_grab a) l (grab (some v)) (map_in (some v)),
    tally_two (is_free a) l (grab (some v)) (map_in (some v)),
  ),
  omega (
    arith,
    h.1,
    tally_two (is_map a) l (grab (some v)) (map_in (some v)),
    tally_two (is_unmap a) l (grab (some v)) (map_in (some v)),
  ),
)

drops_step :
    (a n : ℕ) (l l' : List Effect) (v : ℕ)
    → Keeps a n l' ((l ++ unmap (some v) ∷ []) ++ free (some v) ∷ [])
    → Keeps a (one_at v a + n) l' l
drops_step a n l l' v h = (
  omega (
    arith,
    h.0,
    tally_two (is_grab a) l (unmap (some v)) (free (some v)),
    tally_two (is_free a) l (unmap (some v)) (free (some v)),
  ),
  omega (
    arith,
    h.1,
    tally_two (is_map a) l (unmap (some v)) (free (some v)),
    tally_two (is_unmap a) l (unmap (some v)) (free (some v)),
  ),
)

Keeps-back :
    (a n : ℕ) (l l' l'' : List Effect) → Keeps a n l l' → Keeps a n l'' l' → Keeps a 0 l l''
Keeps-back a n l l' l'' h k = (omega (arith, h.0, k.0), omega (arith, h.1, k.1))

append_one : {A : Type 0} (xs : List A) (y : A) (ys : List A) → (xs ++ y ∷ []) ++ ys ≡ xs ++ y ∷ ys
append_one [] y ys = refl
append_one (x ∷ xs) y ys = ap (λ zs. x ∷ zs) (append_one xs y ys)

-- What the loop over the buffers comes to.
record Filled (rs : List (ℕ × ℕ × ℕ)) (u : Owner) : Type 0 where
  pub owner : Owner
  pub ends : fill (chunks rs) u ≡ (owner, true)
  pub hmb : owner.hmb ≡ record u.hmb { entries = u.hmb.entries ++ rs }
  pub arrays : owner.arrays ≡ u.arrays
  pub bdf : owner.mem.bdf ≡ u.mem.bdf
  pub keeps : (a : ℕ) → Keeps a (entries_at a rs) u.mem.log owner.mem.log

append_none : {A : Type 0} (xs : List A) → xs ++ [] ≡ xs
append_none [] = refl
append_none (x ∷ xs) = ap (λ ys. x ∷ ys) (append_none xs)

fill-Filled : (rs : List (ℕ × ℕ × ℕ)) (u : Owner) → Filled rs u
unfolding fill entries_at
fill-Filled [] u = record {
  owner = u;
  ends = refl;
  hmb = ap (λ es. record u.hmb { entries = es }) (sym (append_none u.hmb.entries));
  arrays = refl;
  bdf = refl;
  keeps = λ a. (omega arith, omega arith);
}
fill-Filled ((size, iova, v) ∷ rs) u =
    let u' = did (did u (grab (some v))) (map_in (some v)) in
    let f =
      fill-Filled rs
        (record u' { hmb = record u.hmb { entries = u.hmb.entries ++ (size, iova, v) ∷ [] } }) in
    record {
      owner = f.owner;
      ends = f.ends;
      hmb =
          f.hmb
          ∙ ap (λ es. record u.hmb { entries = es }) (append_one u.hmb.entries (size, iova, v) rs);
      arrays = f.arrays;
      bdf = f.bdf;
      keeps = λ a. Keeps-step a (entries_at a rs) u.mem.log f.owner.mem.log v (f.keeps a);
    }

entry_goes :
    (m : Mem) (iova v : ℕ)
    → m.bdf ≡ true
    → iova ≢ 0
    → (if not (iova == 0) then pgunmap (unmap_vaddr m v) v else m)
      ≡ record m { log = (m.log ++ unmap (some v) ∷ []) ++ free (some v) ∷ [] }
entry_goes m iova v d n = let here : (iova == 0) ≡ false = ground (arith, n) in simp (here, d) refl

release-Keeps :
    (rs : List (ℕ × ℕ × ℕ)) (m : Mem)
    → m.bdf ≡ true
    → NonZero rs
    → ((release_all rs m).bdf ≡ true)
      × ((a : ℕ) → Keeps a (entries_at a rs) (release_all rs m).log m.log)
unfolding release_all entries_at
release-Keeps [] m d n = (d, λ a. (omega arith, omega arith))
release-Keeps ((size, iova, v) ∷ rs) m d n =
    let m' = record m { log = (m.log ++ unmap (some v) ∷ []) ++ free (some v) ∷ [] } in
    let w = release-Keeps rs m' d n.1 in
    subst
      (λ (z : Mem).
        ((release_all rs z).bdf ≡ true)
        × ((a : ℕ) → Keeps a (one_at v a + entries_at a rs) (release_all rs z).log m.log))
      (sym (entry_goes m iova v d n.0))
      (w.0, λ a. drops_step a (entries_at a rs) m.log (release_all rs m').log v (w.1 a))

drops_last :
    (a n : ℕ) (l l' : List Effect) (v : ℕ)
    → Keeps a n l' l
    → Keeps a (one_at v a + n) ((l' ++ unmap (some v) ∷ []) ++ free (some v) ∷ []) l
drops_last a n l l' v h = (
  omega (
    arith,
    h.0,
    tally_two (is_grab a) l' (unmap (some v)) (free (some v)),
    tally_two (is_free a) l' (unmap (some v)) (free (some v)),
  ),
  omega (
    arith,
    h.1,
    tally_two (is_map a) l' (unmap (some v)) (free (some v)),
    tally_two (is_unmap a) l' (unmap (some v)) (free (some v)),
  ),
)

-- What a request that succeeds and a release of it come to.
abbrev pub Cycles : Owner → List (ℕ × ℕ × ℕ) → Owner × Bool → Type 0
Cycles u rs r =
    (r.1 ≡ true)
    × (r.0.hmb.entries ≡ rs)
    × ((hmb_free r.0).1 ≡ true)
    × ((hmb_free r.0).0.hmb ≡ no_hmb)
    × ((a : ℕ) → Keeps a 0 u.mem.log (hmb_free r.0).0.mem.log)
    × ((hmb_free r.0).0.arrays ≡ u.arrays + 1)

free_case :
    (w : Owner) (d : ℕ) (rs : List (ℕ × ℕ × ℕ))
    → w.hmb.descs ≡ some d
    → w.hmb.entries ≡ rs
    → w.mem.bdf ≡ true
    → NonZero rs
    → hmb_free w ≡ (
      record w {
        hmb = no_hmb;
        mem = record (release_all rs w.mem) {
          log = ((release_all rs w.mem).log ++ unmap (some d) ∷ []) ++ free (some d) ∷ [];
        };
      },
      true,
    )
unfolding hmb_free free_at
free_case w d rs e f b n =
    let k = (release-Keeps rs w.mem b n).0 in
    ap (free_at w) e
    ∙ ap
        (λ (es : List (ℕ × ℕ × ℕ)).
          (record w { hmb = no_hmb; mem = pgunmap (unmap_vaddr (release_all es w.mem) d) d }, true))
        f
    ∙ ap (λ (m : Mem). (record w { hmb = no_hmb; mem = m }, true)) (simp k refl)

-- With the device in place and no host memory buffer yet, a request whose allocations and mappings all
-- succeed, with I/O addresses other than 0, records its buffers in order; a release after it succeeds,
-- clears the record, and leaves at every address as many page ranges and mappings as there were. The
-- array `descs_vaddr` stays allocated.
pub hmb_cycle :
    (u : Owner) (rs : List (ℕ × ℕ × ℕ)) (v len iova : ℕ)
    → u.hmb ≡ no_hmb
    → u.mem.bdf ≡ true
    → NonZero rs
    → Cycles u rs (hmb_init u (chunks rs) (some (v, len)) (some iova) true)
unfolding hmb_init init_new init_paged init_mapped filled
hmb_cycle u rs v len iova e d n =
    let u' = did (did u (grab (some v))) (map_in (some v)) in
    let start : Owner = record u' {
      arrays = u.arrays + 1;
      hmb = record u.hmb {
        descs = some v;
        descs_iova = iova;
        descs_size = len;
        descs_vaddr = true;
        nr_descs = length (chunks rs);
      };
    } in
    let f = fill-Filled rs start in
    let w : Owner = record f.owner {
      hmb = record f.owner.hmb { hsize = sum_of (chunks rs) % 2 ^ 64 % 2 ^ 32 };
    } in
    let run =
      ap (λ o. init_new u (chunks rs) (some (v, len)) (some iova) true o)
        (ap (λ (h : Hmb). h.descs) e)
      ∙ ap (filled (chunks rs) v) f.ends in
    let rows : w.hmb.entries ≡ rs =
      ap (λ (h : Hmb). h.entries) f.hmb ∙ ap (λ (h : Hmb). h.entries ++ rs) e in
    let out = free_case w v rs (ap (λ (h : Hmb). h.descs) f.hmb) rows (f.bdf ∙ d) n in
    let back = release-Keeps rs w.mem (f.bdf ∙ d) n in
    let all = λ (a : ℕ). Keeps-step a (entries_at a rs) u.mem.log w.mem.log v (f.keeps a) in
    subst (Cycles u rs) (sym run) (
      refl,
      rows,
      ap (λ r. r.1) out,
      ap (λ r. r.0.hmb) out,
      λ a. subst (Keeps a 0 u.mem.log) (sym (ap (λ r. r.0.mem.log) out)) (
          Keeps-back a (one_at v a + entries_at a rs) u.mem.log w.mem.log
            (((release_all rs w.mem).log ++ unmap (some v) ∷ []) ++ free (some v) ∷ []) (all a)
            (drops_last a (entries_at a rs) w.mem.log (release_all rs w.mem).log v (back.1 a))),
      ap (λ r. r.0.arrays) out ∙ f.arrays,
    )
