-- ===== src/Mem/Registry.antt =====
-- What is registered is found, and what is released leaves the registry.
use unvme_cli.Prelude.{
  ℕ, ◌+◌, ◌^◌, ◌≤◌, ◌<◌, Bool, true, false, Option, none, some, List, [], ◌∷◌, ◌++◌, ◌≡◌, refl, sym,
  ap, subst, ◌∙◌, arith, ◌==◌, if◌then◌else◌, Bool-cases, inl, inr, enodev,
}
use unvme_cli.Cmd.{Effect, grab, map_in, unmap, free}
use unvme_cli.Mem.{
  Dmabuf, Mem, within, unmap_vaddr, pgunmap, alloc_mapped, alloc_paged, mem_map, mem_add, added,
  alloc_added, mem_alloc, find, remove, got, mem_get, freed, mem_free, free_each, free_mem_all,
}

-- No buffer of the registry covers the address.
abbrev pub Clear : ℕ → List Dmabuf → Type 0
Clear iova bs = find iova bs ≡ none

find-append :
    (iova : ℕ) (bs : List Dmabuf) (b : Dmabuf)
    → Clear iova bs
    → within iova b ≡ true
    → find iova (bs ++ b ∷ []) ≡ some b
unfolding find
find-append iova [] b c h = rw h refl
find-append iova (x ∷ xs) b c h = elim (Bool-cases (within iova x)) [
  | inl e ↦ let f : (if within iova x then some x else find iova xs) ≡ some x = rw e refl in cc
  | inr e ↦ rw e (find-append iova xs b (sym (rw e refl) ∙ c) h)
]

remove-append :
    (iova : ℕ) (bs : List Dmabuf) (b : Dmabuf)
    → Clear iova bs
    → within iova b ≡ true
    → remove iova (bs ++ b ∷ []) ≡ bs
unfolding find remove
remove-append iova [] b c h = rw h refl
remove-append iova (x ∷ xs) b c h = elim (Bool-cases (within iova x)) [
  | inl e ↦ let f : (if within iova x then some x else find iova xs) ≡ some x = rw e refl in cc
  | inr e ↦ rw e (ap (λ ys. x ∷ ys) (remove-append iova xs b (sym (rw e refl) ∙ c) h))
]

-- Whether a call was for the address `a`: 1 if its address `v` is that one.
pub one_at : ℕ → ℕ → ℕ
one_at v a = if v == a then 1 else 0

-- The calls of each kind, by their address.
abbrev pub is_grab : ℕ → Effect → ℕ
is_grab a (grab (some v)) = one_at v a
is_grab a _ = 0

abbrev pub is_free : ℕ → Effect → ℕ
is_free a (free (some v)) = one_at v a
is_free a _ = 0

abbrev pub is_map : ℕ → Effect → ℕ
is_map a (map_in (some v)) = one_at v a
is_map a _ = 0

abbrev pub is_unmap : ℕ → Effect → ℕ
is_unmap a (unmap (some v)) = one_at v a
is_unmap a _ = 0

-- How many such calls a log holds.
pub tally : (Effect → ℕ) → List Effect → ℕ
tally f [] = 0
tally f (x ∷ xs) = f x + tally f xs

tally-append :
    (f : Effect → ℕ) (l : List Effect) (x : Effect) → tally f (l ++ x ∷ []) ≡ tally f l + f x
unfolding tally
tally-append f [] x = omega arith
tally-append f (y ∷ ys) x = omega (arith, tally-append f ys x)

pub tally_two :
    (f : Effect → ℕ) (l : List Effect) (x y : Effect)
    → tally f ((l ++ x ∷ []) ++ y ∷ []) ≡ tally f l + f x + f y
tally_two f l x y = omega (arith, tally-append f (l ++ x ∷ []) y, tally-append f l x)

tally_four :
    (f : Effect → ℕ) (l : List Effect) (x y z w : Effect)
    → tally f ((((l ++ x ∷ []) ++ y ∷ []) ++ z ∷ []) ++ w ∷ []) ≡ tally f l + f x + f y + f z + f w
tally_four f l x y z w = omega (arith, tally_two f ((l ++ x ∷ []) ++ y ∷ []) z w, tally_two f l x y)

-- Page ranges at the address `a` taken and given back, and mappings of it made and removed, between
-- two logs: `n` more of each stay.
abbrev pub Keeps : ℕ → ℕ → List Effect → List Effect → Type 0
Keeps a n l l' =
    (tally (is_grab a) l' + tally (is_free a) l ≡ tally (is_grab a) l + tally (is_free a) l' + n)
    × (tally (is_map a) l' + tally (is_unmap a) l ≡ tally (is_map a) l + tally (is_unmap a) l' + n)

abbrev pub Kept : Mem → Mem × Option Dmabuf → Type 0
Kept u (u', none) = (u'.list ≡ u.list) × ((a : ℕ) → Keeps a 0 u.log u'.log)
Kept u (u', some b) =
    (u'.list ≡ u.list ++ b ∷ []) × ((a : ℕ) → Keeps a (one_at b.vaddr a) u.log u'.log)

-- The registry after an allocation: with the device in place, an allocation that fails, at whatever
-- step, leaves the registry as it was and, at every address, no page range and no mapping behind;
-- one that succeeds adds its buffer to the end of the registry, with one page range and one mapping
-- more at the address of that buffer and none at any other.
pub mem_alloc_lem :
    (u : Mem) (page : Option (ℕ × ℕ)) (iova : Option ℕ) (node : Bool)
    → u.bdf ≡ true
    → Kept u (mem_alloc u page iova node)
unfolding mem_alloc mem_map alloc_paged alloc_mapped mem_add added alloc_added
mem_alloc_lem u none iova node d = rw d (refl, λ x. (omega arith, omega arith))
mem_alloc_lem u (some (v, len)) none node d = rw d (
  refl,
  λ x. (
    omega (
      arith,
      tally_two (is_grab x) u.log (grab (some v)) (free (some v)),
      tally_two (is_free x) u.log (grab (some v)) (free (some v)),
    ),
    omega (
      arith,
      tally_two (is_map x) u.log (grab (some v)) (free (some v)),
      tally_two (is_unmap x) u.log (grab (some v)) (free (some v)),
    ),
  ),
)
mem_alloc_lem u (some (v, len)) (some a) true d = rw d (
  refl,
  λ x. (
    omega (
      arith,
      tally_two (is_grab x) u.log (grab (some v)) (map_in (some v)),
      tally_two (is_free x) u.log (grab (some v)) (map_in (some v)),
    ),
    omega (
      arith,
      tally_two (is_map x) u.log (grab (some v)) (map_in (some v)),
      tally_two (is_unmap x) u.log (grab (some v)) (map_in (some v)),
    ),
  ),
)
mem_alloc_lem u (some (v, len)) (some a) false d = rw d (
  refl,
  λ x. (
    omega (
      arith,
      tally_four (is_grab x) u.log (grab (some v)) (map_in (some v)) (unmap (some v))
          (free (some v)),
      tally_four (is_free x) u.log (grab (some v)) (map_in (some v)) (unmap (some v))
          (free (some v)),
    ),
    omega (
      arith,
      tally_four (is_map x) u.log (grab (some v)) (map_in (some v)) (unmap (some v))
          (free (some v)),
      tally_four (is_unmap x) u.log (grab (some v)) (map_in (some v)) (unmap (some v))
          (free (some v)),
    ),
  ),
)

-- The registry after an allocation that succeeds.
abbrev after : Mem → ℕ → ℕ → ℕ → Mem
after u v len a = record u {
  list = u.list ++ record { vaddr = v; iova = a; len = len } ∷ [];
  log = (u.log ++ grab (some v) ∷ []) ++ map_in (some v) ∷ [];
}

alloc_ok :
    (u : Mem) (v len a : ℕ)
    → u.bdf ≡ true
    → mem_alloc u (some (v, len)) (some a) true
      ≡ (after u v len a, some (record { vaddr = v; iova = a; len = len }))
unfolding mem_alloc mem_map alloc_paged alloc_mapped mem_add added alloc_added
alloc_ok u v len a d = simp d refl

-- What the two calls on the registry say of the buffer.
abbrev Returns : Mem → ℕ → ℕ → ℕ → ℕ → Mem → Type 0
Returns u v len a iova w =
    ((mem_get w iova).1 ≡ some (record { vaddr = v; iova = a; len = len }))
    × ((mem_free w iova).0.list ≡ u.list)
    × ((mem_free w iova).0.log ≡ (w.log ++ unmap (some v) ∷ []) ++ free (some v) ∷ [])

after-Returns :
    (u : Mem) (v len a iova : ℕ)
    → u.bdf ≡ true
    → Clear iova u.list
    → within iova (record { vaddr = v; iova = a; len = len }) ≡ true
    → Returns u v len a iova (after u v len a)
unfolding mem_get mem_free got freed
after-Returns u v len a iova d c inside =
    let b : Dmabuf = record { vaddr = v; iova = a; len = len } in
    let there = find-append iova u.list b c inside in
    let gone = remove-append iova u.list b c inside in
    (
      ap (λ o. (got (after u v len a) o).1) there,
      ap (λ o. (freed (after u v len a) iova o).0.list) there ∙ simp d gone,
      ap (λ o. (freed (after u v len a) iova o).0.log) there ∙ simp d refl,
    )

-- With the device in place, a buffer that has been allocated is found by every address inside it that
-- no older buffer covers, provided that it does not reach past the end of the address space, and a
-- release by such an address takes it out of the registry again, with its mapping and its pages.
pub alloc_roundtrip :
    (u : Mem) (v len a iova : ℕ)
    → u.bdf ≡ true
    → Clear iova u.list
    → a ≤ iova
    → iova < a + len
    → a + len < 2 ^ 64
    → Returns u v len a iova (mem_alloc u (some (v, len)) (some a) true).0
alloc_roundtrip u v len a iova d c l h m =
    subst (Returns u v len a iova) (ap (λ r. r.0) (sym (alloc_ok u v len a d)))
      (after-Returns u v len a iova d c (ground arith))

-- How many buffers of a list are at an address.
pub buffers_at : ℕ → List Dmabuf → ℕ
buffers_at a [] = 0
buffers_at a (b ∷ bs) = one_at b.vaddr a + buffers_at a bs

-- What giving up a list of buffers does, when it is all of the registry, at every address; `there`
-- tells if the device is.
abbrev pub Emptied : List Dmabuf → Bool → Mem → Mem → Type 0
Emptied bs there u u' =
    (u'.list ≡ [])
    × ((a : ℕ)
        → (tally (is_free a) u'.log ≡ tally (is_free a) u.log + buffers_at a bs)
          × (tally (is_unmap a) u'.log
              ≡ tally (is_unmap a) u.log + (if there then buffers_at a bs else 0))
          × (tally (is_grab a) u'.log ≡ tally (is_grab a) u.log)
          × (tally (is_map a) u'.log ≡ tally (is_map a) u.log))

each-Emptied :
    (bs : List Dmabuf) (u : Mem) (b : Bool)
    → u.bdf ≡ b
    → u.list ≡ bs
    → Emptied bs b u (free_each bs u)
unfolding free_each buffers_at
each-Emptied [] u true d e = (e, λ a. (omega arith, omega arith, refl, refl))
each-Emptied [] u false d e = (e, λ a. (omega arith, omega arith, refl, refl))
each-Emptied (x ∷ xs) u true d e =
    let w : Mem = record u {
      list = xs;
      log = (u.log ++ unmap (some x.vaddr) ∷ []) ++ free (some x.vaddr) ∷ [];
    } in
    let step : pgunmap (unmap_vaddr (record u { list = xs }) x.vaddr) x.vaddr ≡ w = simp d refl in
    let h = each-Emptied xs w true d refl in
    let two = λ (f : Effect → ℕ). tally_two f u.log (unmap (some x.vaddr)) (free (some x.vaddr)) in
    subst (λ z. Emptied (x ∷ xs) true u (free_each xs z)) (sym step)
      (
        h.0,
        λ a. (
          omega (arith, (h.1 a).0, two (is_free a)),
          omega (arith, (h.1 a).1, two (is_unmap a)),
          omega (arith, (h.1 a).2, two (is_grab a)),
          omega (arith, (h.1 a).3, two (is_map a)),
        ),
      )
each-Emptied (x ∷ xs) u false d e =
    let w : Mem = record u { list = xs; errno = enodev; log = u.log ++ free (some x.vaddr) ∷ [] } in
    let step : pgunmap (unmap_vaddr (record u { list = xs }) x.vaddr) x.vaddr ≡ w = simp d refl in
    let h = each-Emptied xs w false d refl in
    let one = λ (f : Effect → ℕ). tally-append f u.log (free (some x.vaddr)) in
    subst (λ z. Emptied (x ∷ xs) false u (free_each xs z)) (sym step)
      (
        h.0,
        λ a. (
          omega (arith, (h.1 a).0, one (is_free a)),
          omega (arith, (h.1 a).1, one (is_unmap a)),
          omega (arith, (h.1 a).2, one (is_grab a)),
          omega (arith, (h.1 a).3, one (is_map a)),
        ),
      )

-- Giving up all buffers empties the registry. At every address it frees as many page ranges as there
-- were buffers at that address, and takes none; it removes as many mappings there, if the device is
-- still in place, and none otherwise, and makes none.
pub free_mem_all_lem : (u : Mem) → Emptied u.list u.bdf u (free_mem_all u)
unfolding free_mem_all
free_mem_all_lem u = each-Emptied u.list u u.bdf refl refl
