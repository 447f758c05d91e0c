-- ===== src/Cid/Laws.antt =====
-- The identifiers that a queue hands out: fresh ones while there are any, each only once until it
-- is freed.
use Prim.Native.Nat.{bit_and, bit_or}
use native.Mathlib.Decide.{ℕ_discrete}
use native.Mathlib.Decide.{dec_lt}
use mathlib.Core.Path.{subst₂}
use mathlib.Core.Bool.{false≢true}
use unvme_cli.Prelude.{
  ℕ, zero, suc, ◌+◌, ◌-◌, ◌*◌, ◌/◌, ◌%◌, ◌^◌, ◌≤◌, ◌<◌, true, false, not, ◌&&◌, ◌||◌, Option, none,
  some, ◌≡◌, refl, arith, ◌==◌, get_or, set, length, length-set, Bool-cases, Option-cases, inl, inr,
  einval, eexist, ebusy, ◌∙◌, sym,
}
use unvme_cli.Cid.{Bitmap, bit, find_first_zero, try_byte, scan, cid_alloc, cid_alloc_n, cid_free}
use unvme_cli.Cid.Bytes.{byte_range, edge_bytes, find_none, find_some}
use unvme_cli.Cid.Inv.{used, IsBitmap, used-set, used-clear, bytes-set}

-- The bitmap with the bit of `c` set, and with it cleared.
abbrev marked : Bitmap → ℕ → Bitmap
marked b c = record b { bits = set b.bits (c / 8) (bit_or (get_or b.bits (c / 8) 0) (2 ^ (c % 8))) }

abbrev cleared : Bitmap → ℕ → Bitmap
cleared b c = record b {
  bits = set b.bits (c / 8) (bit_and (get_or b.bits (c / 8) 0) (255 - 2 ^ (c % 8)));
}

module _ {b : Bitmap} (v : IsBitmap b) (c : ℕ) (h : c < b.size) where
  inside : c / 8 < length b.bits
  inside = omega (arith, v.covers, v.allocated)

  marked-IsBitmap : IsBitmap (marked b c)
  marked-IsBitmap = record {
    covers = v.covers;
    allocated = length-set b.bits _ _ ∙ v.allocated;
    bytes = λ i.
        bytes-set b.bits v.bytes c inside _ i
          (byte_range _ (c % 8) (v.bytes (c / 8)) (omega arith)).0;
    top_in = v.top_in;
    small = v.small;
    beyond = λ d p q. rw (used-set b.bits v.bytes c inside d, v.beyond d p q) (ground arith);
  }

  cleared-IsBitmap : IsBitmap (cleared b c)
  cleared-IsBitmap = record {
    covers = v.covers;
    allocated = length-set b.bits _ _ ∙ v.allocated;
    bytes = λ i.
        bytes-set b.bits v.bytes c inside _ i
          (byte_range _ (c % 8) (v.bytes (c / 8)) (omega arith)).1;
    top_in = v.top_in;
    small = v.small;
    beyond = λ d p q. rw (used-clear b.bits v.bytes c inside d, v.beyond d p q) (ground arith);
  }

-- `unvmed_cid_alloc_n` of a well-formed bitmap. An identifier out of range is refused with EINVAL
-- and one in use with EEXIST, and the bits stay as they are. A free one is taken: it is in use
-- after the call, every other identifier is in use as before, and the bitmap is well-formed.
pub cid_alloc_n_lem :
    {b : Bitmap}
    → IsBitmap b
    → (c : ℕ)
    → let (b', done) = cid_alloc_n b c in
      (b.size ≤ c → (b' ≡ record b { errno = einval }) × (done ≡ false))
      × (c < b.size → used b.bits c ≡ true → (b' ≡ record b { errno = eexist }) × (done ≡ false))
      × (c < b.size
          → used b.bits c ≡ false
          → (done ≡ true) × ((d : ℕ) → used b'.bits d ≡ (c == d || used b.bits d)) × IsBitmap b')
unfolding cid_alloc_n used
cid_alloc_n_lem {b} v c = (λ out. ground arith, λ h u. ground arith, λ h u. taken h u)
  where
    taken :
        c < b.size
        → used b.bits c ≡ false
        → ((cid_alloc_n b c).1 ≡ true)
          × ((d : ℕ) → used (cid_alloc_n b c).0.bits d ≡ (c == d || used b.bits d))
          × IsBitmap (cid_alloc_n b c).0
    taken h u =
        let e : cid_alloc_n b c ≡ (marked b c, true) = ground arith in
        rw e (refl, used-set b.bits v.bytes c (inside v c h), marked-IsBitmap v c h)

-- `unvmed_cid_free` of a well-formed bitmap. An identifier out of range is refused with EINVAL and
-- nothing else changes. Any other is free after the call, every other identifier is in use as
-- before, and the bitmap is well-formed.
pub cid_free_lem :
    {b : Bitmap}
    → IsBitmap b
    → (c : ℕ)
    → let (b', done) = cid_free b c in
      (b.size ≤ c → (b' ≡ record b { errno = einval }) × (done ≡ false))
      × (c < b.size
          → (done ≡ true)
            × ((d : ℕ) → used b'.bits d ≡ (not (c == d) && used b.bits d))
            × IsBitmap b')
unfolding cid_free
cid_free_lem {b} v c = (
  λ out. ground arith,
  λ h.
      let e : cid_free b c ≡ (cleared b c, true) = ground arith in
      rw e (refl, used-clear b.bits v.bytes c (inside v c h), cleared-IsBitmap v c h),
)

pub size-cid_free : (b : Bitmap) (c : ℕ) → (cid_free b c).0.size ≡ b.size
unfolding cid_free
size-cid_free b c = ground arith

pub size-cid_alloc_n : (b : Bitmap) (c : ℕ) → (cid_alloc_n b c).0.size ≡ b.size
unfolding cid_alloc_n
size-cid_alloc_n b c = ground arith

-- What an allocation has done.
abbrev pub Took : Bitmap → Bitmap → ℕ → Type 0
Took b b' c =
    (c < b.size)
    × (used b.bits c ≡ false)
    × ((d : ℕ) → used b'.bits d ≡ (c == d || used b.bits d))
    × IsBitmap b'
    × (b'.size ≡ b.size)

abbrev Tried : Bitmap → ℕ → Option (Bitmap × ℕ) → Type 0
Tried b i none = (c : ℕ) → c / 8 ≡ i → used b.bits c ≡ true
Tried b i (some (b', c)) = Took b b' c × (b'.nr_bytes ≡ b.nr_bytes)

abbrev Scanned : Bitmap → ℕ → Option (Bitmap × ℕ) → Type 0
Scanned b i none = (c : ℕ) → i ≤ c / 8 → c / 8 < b.nr_bytes → used b.bits c ≡ true
Scanned b i (some (b', c)) = Took b b' c

-- `top` remembers the byte in which an identifier was found.
at_top : {b : Bitmap} (i : ℕ) → IsBitmap b → i < b.nr_bytes → IsBitmap (record b { top = i })
at_top i v h = record {
  covers = v.covers;
  allocated = v.allocated;
  bytes = v.bytes;
  top_in = h;
  small = v.small;
  beyond = v.beyond;
}

module _ {b : Bitmap} (v : IsBitmap b) where
  free_in_range : (c : ℕ) → c / 8 < b.nr_bytes → used b.bits c ≡ false → c < b.size
  free_in_range c h free = elim (dec_lt c b.size) [
    | yes p ↦ p
    | no p ↦ absurd (false≢true (sym free ∙ v.beyond c (omega arith) (omega arith)))
  ]

  at_free :
      (c : ℕ)
      → c / 8 < b.nr_bytes
      → used b.bits c ≡ false
      → Tried b (c / 8) (some (marked b c, c % 2 ^ 16))
  at_free c h free =
      let r : c < b.size = free_in_range c h free in
      let wide : c % 2 ^ 16 ≡ c = omega (arith, v.small) in
      rw wide
        ((r, free, used-set b.bits v.bytes c (inside v c r), marked-IsBitmap v c r, refl), refl)

  -- The identifier that an attempt finds in byte `i`.
  at_pos :
      (i p : ℕ)
      → i < b.nr_bytes
      → p < 8
      → bit (get_or b.bits i 0) p ≡ false
      → Tried b i (
          some (
            record b { bits = set b.bits i (bit_or (get_or b.bits i 0) (2 ^ p)) },
            (i * 8 + p) % 2 ^ 16,
          ))
  unfolding used
  at_pos i p hi hp free =
      let row : (i * 8 + p) / 8 ≡ i = omega arith in
      let column : (i * 8 + p) % 8 ≡ p = omega arith in
      subst₂
        (λ x y. Tried b x (
          some (
            record b { bits = set b.bits x (bit_or (get_or b.bits x 0) (2 ^ y)) },
            (i * 8 + p) % 2 ^ 16,
          )))
        row column (at_free (i * 8 + p) (rw row hi) (rw (row, column) free))

  full_byte : (i : ℕ) → (get_or b.bits i 0 == 0xff) ≡ true → get_or b.bits i 0 ≡ 255
  full_byte i h = ground arith

  try_byte_lem : (i : ℕ) → i < b.nr_bytes → Tried b i (try_byte b i)
  unfolding try_byte used
  try_byte_lem i hi = elim (Bool-cases (get_or b.bits i 0 == 0xff)) [
    | inl full ↦
        rw full
          (λ c e. rw (e, full_byte i full) (edge_bytes 0 (c % 8) (omega arith) (omega arith)).1)
    | inr part ↦ elim (Option-cases (find_first_zero (get_or b.bits i 0))) [
      | inl no_zero ↦
          rw (part, no_zero) (λ c e. rw e (find_none _ (v.bytes i) no_zero (c % 8) (omega arith)))
      | inr (p, at) ↦
          let (hp, free, _) = find_some (get_or b.bits i 0) p (v.bytes i) at in
          rw (part, at) (at_pos i p hi hp free)
    ]
  ]

  scan_back :
      (i : ℕ) (o : Option (Bitmap × ℕ)) → Tried b i none → Scanned b (i + 1) o → Scanned b i o
  scan_back i none t s =
      λ c p q. elim (ℕ_discrete (c / 8) i) [ yes e ↦ t c e | no ne ↦ s c (omega arith) q ]
  scan_back i (some (b', c)) t s = s

  scan_step :
      (k i : ℕ) (o : Option (Bitmap × ℕ))
      → i < b.nr_bytes
      → Tried b i o
      → Scanned b (i + 1) (scan k (i + 1) b)
      → Scanned b i
          (elim o [ none ↦ scan k (i + 1) b | some (b', cid) ↦ some (record b' { top = i }, cid) ])
  scan_step k i none h t s = scan_back i (scan k (i + 1) b) t s
  scan_step k i (some (b', c)) h (t, n) s = (t.0, t.1, t.2, at_top i t.3 (omega (arith, n)), t.4)

  scan_lem : (k i : ℕ) → i + k ≡ b.nr_bytes → Scanned b i (scan k i b)
  unfolding scan
  scan_lem zero i e = λ c p q. absurd (omega arith)
  scan_lem (suc k) i e =
      scan_step k i (try_byte b i) (omega arith) (try_byte_lem i (omega arith))
        (scan_lem k (i + 1) (omega arith))

-- What `unvmed_cid_alloc` has done.
abbrev pub Allocated : Bitmap → Bitmap × Option ℕ → Type 0
Allocated b (b', some c) = Took b b' c
Allocated b (b', none) =
    (b' ≡ record b { errno = ebusy }) × ((c : ℕ) → c < b.size → used b.bits c ≡ true)

full_lem :
    {b : Bitmap} (o : Option (Bitmap × ℕ))
    → IsBitmap b
    → Scanned b 0 o
    → Allocated b
        (elim o [ some (b', cid) ↦ (b', some cid) | none ↦ (record b { errno = ebusy }, none) ])
full_lem none v s = (refl, λ c h. s c (omega arith) (omega (arith, v.covers)))
full_lem (some (b', c)) v s = s

-- `unvmed_cid_alloc` of a well-formed bitmap always decides. If it returns an identifier, that is
-- in range and was free; it is in use after the call, every other identifier is in use as before,
-- and the bitmap is well-formed. If it fails with EBUSY, every identifier in range is in use, and
-- nothing else has changed.
pub cid_alloc_lem : {b : Bitmap} → IsBitmap b → Allocated b (cid_alloc b)
unfolding cid_alloc
cid_alloc_lem {b} v = first (try_byte b b.top) (try_byte_lem v b.top v.top_in)
  where
    first :
        (o : Option (Bitmap × ℕ))
        → Tried b b.top o
        → Allocated b (elim o [
          | some (b', cid) ↦ (b', some cid)
          | none ↦ elim (scan b.nr_bytes 0 b) [
            | some (b', cid) ↦ (b', some cid)
            | none ↦ (record b { errno = ebusy }, none)
          ]
        ])
    first none t = full_lem (scan b.nr_bytes 0 b) v (scan_lem v b.nr_bytes 0 (omega arith))
    first (some (b', c)) t = t.0
