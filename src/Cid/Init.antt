-- ===== src/Cid/Init.antt =====
-- `unvmed_cid_init` of lib/libunvmed.c: a new bitmap has all its identifiers free.
use unvme_cli.Prelude.{
  ℕ, ◌+◌, ◌-◌, ◌*◌, ◌/◌, ◌%◌, ◌^◌, ◌≤◌, ◌<◌, true, false, List, ◌≡◌, ◌≢◌, refl, arith, ◌==◌, leb,
  get_or, set, replicate, length-set, length-replicate, get_or-set_self, get_or-set_ne,
  get_or-replicate, Bool-cases, inl, inr, ◌∙◌,
}
use native.Mathlib.Decide.{ℕ_discrete}
use unvme_cli.Cid.{Bitmap, cid_init}
use unvme_cli.Cid.Bytes.{edge_bytes}
use unvme_cli.Cid.Inv.{used, IsBitmap}

module _ (n : ℕ) where
  blank_unused : (c : ℕ) → used (replicate n 0) c ≡ false
  unfolding used
  blank_unused c =
      rw (get_or-replicate {A = ℕ} n (c / 8) 0) (edge_bytes 0 (c % 8) (omega arith) (omega arith)).2

  module _ (x : ℕ) where
    edge_other : (i : ℕ) → n - 1 ≢ i → get_or (set (replicate n 0) (n - 1) x) i 0 ≡ 0
    edge_other i ne =
        get_or-set_ne (replicate n 0) (n - 1) i x 0 ne ∙ get_or-replicate {A = ℕ} n i 0

    edge_self : 0 < n → get_or (set (replicate n 0) (n - 1) x) (n - 1) 0 ≡ x
    edge_self h =
        get_or-set_self (replicate n 0) (n - 1) x 0 (omega (arith, length-replicate {A = ℕ} n 0))

    edge_bytes-lt : 0 < n → x < 256 → (i : ℕ) → get_or (set (replicate n 0) (n - 1) x) i 0 < 256
    edge_bytes-lt h k i = elim (ℕ_discrete (n - 1) i) [
      | yes e ↦ rw (← e, edge_self h) k
      | no ne ↦ rw (edge_other i ne) (omega arith)
    ]

module _ (size : ℕ) (part : size % 8 ≢ 0) where
  abbrev edge : List ℕ
  edge =
      set (replicate ((size + 8 - 1) / 8) 0) ((size + 8 - 1) / 8 - 1) (0xff * 2 ^ (size % 8) % 256)

  edge-used : (c : ℕ) → c < 8 * ((size + 8 - 1) / 8) → used edge c ≡ leb size c
  unfolding used
  edge-used c h = elim (ℕ_discrete ((size + 8 - 1) / 8 - 1) (c / 8)) [
    | yes e ↦
        rw
          (
            ← e,
            edge_self ((size + 8 - 1) / 8) (0xff * 2 ^ (size % 8) % 256) (omega arith),
            (edge_bytes (size % 8) (c % 8) (omega arith) (omega arith)).0,
          )
          (ground arith)
    | no ne ↦
        rw
          (
            edge_other ((size + 8 - 1) / 8) (0xff * 2 ^ (size % 8) % 256) (c / 8) ne,
            (edge_bytes 0 (c % 8) (omega arith) (omega arith)).2,
          )
          (ground arith)
  ]

-- `unvmed_cid_init` with memory gives a well-formed bitmap in which every identifier in range is
-- free, for the sizes that a 16-bit identifier and a zeroed `top` allow.
pub cid_init_lem :
    (b : Bitmap) (size : ℕ)
    → b.top ≡ 0
    → 0 < size
    → size ≤ 2 ^ 16 - 1
    → let (b', done) = cid_init b size true in
      (done ≡ true) × (b'.size ≡ size) × IsBitmap b' × ((c : ℕ) → c < size → used b'.bits c ≡ false)
unfolding cid_init
cid_init_lem b size top pos small = elim (Bool-cases (size % 8 == 0)) [
  | inl whole ↦ rw whole (
    refl,
    refl,
    record {
      covers = omega arith;
      allocated = length-replicate {A = ℕ} _ 0;
      bytes = λ i. rw (get_or-replicate {A = ℕ} ((size + 8 - 1) / 8) i 0) (omega arith);
      top_in = omega arith;
      small = small;
      beyond = λ c p q. absurd (ground arith);
    },
    λ c h. blank_unused ((size + 8 - 1) / 8) c,
  )
  | inr part ↦
      let odd : size % 8 ≢ 0 = ground arith in
      rw part (
        refl,
        refl,
        record {
          covers = omega arith;
          allocated =
              length-set (replicate ((size + 8 - 1) / 8) 0) ((size + 8 - 1) / 8 - 1)
                (0xff * 2 ^ (size % 8) % 256)
              ∙ length-replicate {A = ℕ} _ 0;
          bytes =
              edge_bytes-lt ((size + 8 - 1) / 8) (0xff * 2 ^ (size % 8) % 256) (omega arith)
                (omega arith);
          top_in = omega arith;
          small = small;
          beyond = λ c p q. edge-used size odd c q ∙ ground arith;
        },
        λ c h. edge-used size odd c (omega arith) ∙ ground arith,
      )
]
