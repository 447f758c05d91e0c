-- ===== src/Ns/Inv.antt =====
-- The list of namespaces: each identifier once, each namespace held, and never more of them than
-- `nr_ns` counts.
use unvme_cli.Prelude.{
  ℕ, ◌+◌, ◌-◌, ◌^◌, ◌≤◌, ◌<◌, false, Option, none, some, List, [], ◌∷◌, ◌≡◌, ◌≢◌, refl, sym, ap,
  ap₂, subst, arith, length, All, All-map, ◌∙◌, ◌==◌, ==_iff, Bool-cases, inl, inr, inc32, dec32,
}
use mathlib.Core.Path.{fun_ext}
use unvme_cli.Vcq.Pool.{store}
use unvme_cli.Ns.{Ns, Nss, find_in, find_and_get, ns_find, ns_get, got, ns_put, set_ns}

-- Each identifier stands once.
abbrev pub Unique : (ℕ → Ns) → List ℕ → Type 0
Unique heap [] = Unit {0}
Unique heap (p ∷ ps) = All (λ q. (heap q).nsid ≢ (heap p).nsid) ps × Unique heap ps

abbrev pub Held : Ns → Type 0
Held x = (0 < x.refcnt) × (x.refcnt < 2 ^ 31)

pub record IsNss (u : Nss) : Type 0 where
  pub unique : Unique u.heap u.list
  pub held : All (λ p. Held (u.heap p)) u.list
  pub counted : length u.list ≤ u.nr_ns

-- Heaps with the same identifiers.
abbrev pub SameIds : (ℕ → Ns) → (ℕ → Ns) → Type 0
SameIds heap heap' = (p : ℕ) → (heap' p).nsid ≡ (heap p).nsid

pub SameIds-store :
    (heap : ℕ → Ns) (p : ℕ) (x : Ns) → x.nsid ≡ (heap p).nsid → SameIds heap (store heap p x)
SameIds-store heap p x h q = elim (Bool-cases (p == q)) [
  | inl e ↦ rw (e, h) (ap (λ (t : ℕ). (heap t).nsid) ((==_iff p q).0 e))
  | inr n ↦ rw n refl
]

pub find_in-SameIds :
    (heap heap' : ℕ → Ns)
    → SameIds heap heap'
    → (n : ℕ) (ps : List ℕ) → find_in heap' n ps ≡ find_in heap n ps
unfolding find_in
find_in-SameIds heap heap' same n [] = refl
find_in-SameIds heap heap' same n (p ∷ ps) = rw (same p, find_in-SameIds heap heap' same n ps) refl

pub Unique-SameIds :
    (heap heap' : ℕ → Ns) → SameIds heap heap' → (ps : List ℕ) → Unique heap ps → Unique heap' ps
Unique-SameIds heap heap' same [] h = tt
Unique-SameIds heap heap' same (p ∷ ps) h = (
  All-map (λ (q : ℕ). (heap q).nsid ≢ (heap p).nsid) _ (λ q n. rw (same p, same q) n) ps h.0,
  Unique-SameIds heap heap' same ps h.1,
)

-- What is found has the identifier; a namespace that is not found has it nowhere.
pub found_lem :
    (heap : ℕ → Ns) (n : ℕ) (ps : List ℕ) {p : ℕ} → find_in heap n ps ≡ some p → (heap p).nsid ≡ n
unfolding find_in
found_lem heap n [] h = cc
found_lem heap n (q ∷ ps) {p = p} h = ground (arith, found_lem heap n ps {p = p})

pub missing_lem :
    (heap : ℕ → Ns) (n : ℕ) (ps : List ℕ)
    → find_in heap n ps ≡ none
    → All (λ q. (heap q).nsid ≢ n) ps
unfolding find_in
missing_lem heap n [] h = tt
missing_lem heap n (q ∷ ps) h = elim (Bool-cases ((heap q).nsid == n)) [
  | inl e ↦ ground arith
  | inr other ↦ (λ e. ground arith, missing_lem heap n ps (sym (rw other refl) ∙ h))
]

pub All-store :
    (P : Ns → Type 0) (heap : ℕ → Ns) (p : ℕ) (x : Ns)
    → P x
    → (ps : List ℕ) → All (λ q. P (heap q)) ps
    → All (λ q. P (store heap p x q)) ps
All-store P heap p x hx ps h =
    All-map (λ q. P (heap q)) (λ q. P (store heap p x q))
      (λ q hq. elim (Bool-cases (p == q)) [ inl e ↦ rw e hx | inr n ↦ rw n hq ]) ps h

-- A write that keeps the identifier and leaves the namespace held.
pub set_ns-IsNss :
    (u : Nss) (p : ℕ) (x : Ns) → x.nsid ≡ (u.heap p).nsid → Held x → IsNss u → IsNss (set_ns u p x)
set_ns-IsNss u p x same hx h = record {
  unique = Unique-SameIds u.heap (store u.heap p x) (SameIds-store u.heap p x same) u.list h.unique;
  held = All-store Held u.heap p x hx u.list h.held;
  counted = h.counted;
}

pub find-All :
    (P : Ns → Type 0) (heap : ℕ → Ns) (n : ℕ) (ps : List ℕ) {p : ℕ}
    → find_in heap n ps ≡ some p
    → All (λ q. P (heap q)) ps
    → P (heap p)
unfolding find_in
find-All P heap n [] {p = p} e h = cc
find-All P heap n (q ∷ ps) {p = p} e h = elim (Bool-cases ((heap q).nsid == n)) [
  | inl here ↦
      let same : some q ≡ some p = sym (rw here refl) ∙ e in subst (λ (t : ℕ). P (heap t)) (cc) h.0
  | inr other ↦ find-All P heap n ps (sym (rw other refl) ∙ e) h.1
]

-- Writes at one address: the last one stands, and writing what is there changes nothing.
pub store_at : (heap : ℕ → Ns) (p : ℕ) (x : Ns) → store heap p x p ≡ x
store_at heap p x = ground arith

pub store_last : (heap : ℕ → Ns) (p : ℕ) (x y : Ns) → store (store heap p x) p y ≡ store heap p y
store_last heap p x y = fun_ext (λ q. ground arith)

store_same : (heap : ℕ → Ns) (p : ℕ) → store heap p (heap p) ≡ heap
store_same heap p = fun_ext (λ q. elim (Bool-cases (p == q)) [
  | inl e ↦ rw e (ap heap ((==_iff p q).0 e))
  | inr n ↦ rw n refl
])

abbrev pub with_refs : ℕ → Ns → Ns
with_refs n x = record x { refcnt = n }

-- Putting a reference that is not the last one.
pub ns_put_lem :
    (u : Nss) (p : ℕ)
    → 1 < (u.heap p).refcnt
    → (u.heap p).refcnt < 2 ^ 32
    → ns_put u p
      ≡ (set_ns u p (with_refs ((u.heap p).refcnt - 1) (u.heap p)), (u.heap p).refcnt - 1)
unfolding ns_put
ns_put_lem u p more small =
    let down : dec32 (u.heap p).refcnt ≡ (u.heap p).refcnt - 1 = omega arith in
    let left : ((u.heap p).refcnt - 1 == 0) ≡ false = ground arith in rw (down, left) refl

-- Taking a reference and giving it back leaves everything as it was.
pub get_put_self :
    (u : Nss) (p : ℕ)
    → Held (u.heap p)
    → ns_put (set_ns u p (record (u.heap p) { refcnt = inc32 (u.heap p).refcnt })) p
      ≡ (u, (u.heap p).refcnt)
get_put_self u p h =
    let r : ℕ = (u.heap p).refcnt in
    let up : inc32 r ≡ r + 1 = omega arith in
    let x : Ns = with_refs (r + 1) (u.heap p) in
    let t : Nss = set_ns u p x in
    let at : t.heap p ≡ x = store_at u.heap p x in
    let back : store t.heap p (with_refs (r + 1 - 1) x) ≡ u.heap =
      store_last u.heap p x (with_refs (r + 1 - 1) x)
      ∙ ap (λ (n : ℕ). store u.heap p (with_refs n (u.heap p))) (omega arith)
      ∙ store_same u.heap p in
    ap (λ (n : ℕ). ns_put (set_ns u p (with_refs n (u.heap p))) p) up
    ∙ ns_put_lem t p (rw at (omega arith)) (rw at (omega arith))
    ∙ rw at (ap₂ (λ (f : ℕ → Ns) (n : ℕ). (record u { heap = f }, n)) back (omega arith))

-- What the lookup gives.
pub ns_find_lem : (u : Nss) (nsid : ℕ) → ns_find u nsid ≡ find_in u.heap nsid u.list
unfolding find_and_get got
ns_find_lem u nsid = got_same (find_in u.heap nsid u.list)
  where
    got_same : (o : Option ℕ) → (got u o false).1 ≡ o
    got_same none = refl
    got_same (some p) = refl

pub ns_get_found :
    (u : Nss) (nsid : ℕ) {p : ℕ}
    → find_in u.heap nsid u.list ≡ some p
    → ns_get u nsid ≡ (set_ns u p (record (u.heap p) { refcnt = inc32 (u.heap p).refcnt }), some p)
unfolding find_and_get
ns_get_found u nsid e = rw e refl

pub ns_get_missing :
    (u : Nss) (nsid : ℕ) → find_in u.heap nsid u.list ≡ none → ns_get u nsid ≡ (u, none)
unfolding find_and_get
ns_get_missing u nsid e = rw e refl
