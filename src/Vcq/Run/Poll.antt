-- ===== src/Vcq/Run/Poll.antt =====
-- One poll of a ring, and the loop of polls until an entry is there.
use mathlib.Core.Option
use native.Mathlib.Decide.{ℕ_discrete}
use unvme_cli.Prelude.{
  ℕ, ◌+◌, Bool, true, false, not, ◌&&◌, Option, none, some, List, [], ◌∷◌, ◌++◌, ◌==◌, enoent,
  eagain, length, ◌≡◌, ◌≢◌, refl, sym, ap, ◌∙◌, ◌⊎◌, inl, inr, arith, append-nil, append_assoc,
  Bool-cases,
}
use unvme_cli.Vcq.Ring.{Vcqe, Vcq, push}
use unvme_cli.Vcq.Ring.Inv.{IsRing, push-IsRing}
use unvme_cli.Vcq.Ring.Refine.{contents, push_refines, pop_refines}
use unvme_cli.Vcq.Run.{Arrival, arrive, Reaped, followed_by, popped_to, entries, poll, pop_wait}

-- What was taken and what is left are what was there and what has come, in order.
pub record IsFifo (q : Vcq) (r : Reaped) : Type 0 where
  pub valid : IsRing r.ring
  pub order : r.taken ++ contents r.ring ≡ contents q ++ r.added

pub followed_by-IsFifo :
    {q : Vcq} {r x : Reaped} → IsFifo q r → IsFifo r.ring x → IsFifo q (followed_by r x)
followed_by-IsFifo {q} {r} {x} f g = record {
  valid = g.valid;
  order =
      append_assoc r.taken x.taken (contents x.ring)
      ∙ ap (◌++◌ r.taken) g.order
      ∙ sym (append_assoc r.taken (contents r.ring) x.added)
      ∙ ap (λ l. l ++ x.added) f.order
      ∙ append_assoc (contents q) r.added x.added;
}

-- Other threads' pushes add their entries behind those that are there.
pub arrive_lem :
    (xs : List Arrival) {q : Vcq}
    → IsRing q
    → IsRing (arrive q xs).0 × (contents (arrive q xs).0 ≡ contents q ++ (arrive q xs).1)
unfolding arrive
arrive_lem [] {q} v = (v, sym (append-nil (contents q)))
arrive_lem (a ∷ xs) {q} v =
    let ih = arrive_lem xs (push-IsRing a.u_bdf a.cqe a.injected v) in
    elim (ℕ_discrete (length (contents q) + 1) q.qsize) [
      | yes full ↦
          let (same, ret) = p.0 full in rw ret (ih.0, ih.1 ∙ ap (λ c. contents c ++ more) same)
      | no room ↦
          let (longer, ret) = p.1 room in
          rw ret (ih.0, ih.1 ∙ ap (λ l. l ++ more) longer ∙ append_assoc (contents q) _ more)
    ]
  where
    p :
        let (q', ret) = push q a.u_bdf a.cqe a.injected in
        (length (contents q) + 1 ≡ q.qsize → (q' ≡ q) × (ret ≡ eagain))
        × (length (contents q) + 1 ≢ q.qsize
            → (contents q'
                ≡ contents q ++ record { cqe = a.cqe; bdf = a.u_bdf; injected = a.injected } ∷ [])
              × (ret ≡ 0))
    p = push_refines a.u_bdf a.cqe a.injected v

    more : List Vcqe
    more = (arrive (push q a.u_bdf a.cqe a.injected).0 xs).1

-- A poll takes one entry, or finds the ring empty.
abbrev pub Took : Reaped × ℕ → Type 0
Took (r, ret) =
    ((ret ≡ 0) × (length r.taken ≡ 1)) ⊎ ((ret ≡ enoent) × (r.taken ≡ []) × (contents r.ring ≡ []))

pub List-cases : (l : List Vcqe) → (l ≡ []) ⊎ ((x : Vcqe) × (xs : List Vcqe) × (l ≡ x ∷ xs))
List-cases [] = inl refl
List-cases (x ∷ xs) = inr (x, xs, refl)

pub poll_lem :
    (xs : List Arrival) (events : List (List Arrival)) {q : Vcq}
    → IsRing q
    → IsFifo q (poll q xs events).0 × Took (poll q xs events)
unfolding poll popped_to entries
poll_lem xs events {q} v =
    let (w, e) = arrive_lem xs v in
    elim (List-cases (contents (arrive q xs).0)) [
      | inl empty ↦
          rw ((pop_refines w).0 empty) (record { valid = w; order = e }, inr (refl, refl, empty))
      | inr (x, rest, full) ↦
          let (q', got, left, w') = (pop_refines w).1 x rest full in
          rw got
            (record { valid = w'; order = ap (λ l. x ∷ l) left ∙ sym full ∙ e }, inl (refl, refl))
    ]

-- A property of the result, if there is one.
abbrev pub Ensures {ℓ} : {A : Type ℓ} → (A → Type 0) → Option A → Type 0
Ensures P none = Unit
Ensures P (some a) = P a

pub Ensures-map {ℓ κ} :
    {A : Type ℓ} {B : Type κ} (f : A → B) (P : A → Type 0) (Q : B → Type 0)
    → ((a : A) → P a → Q (f a))
    → (o : Option A) → Ensures P o
    → Ensures Q (Option.map f o)
Ensures-map f P Q h none p = tt
Ensures-map f P Q h (some a) p = h a p

pub map-ne-none {ℓ κ} :
    {A : Type ℓ} {B : Type κ} (f : A → B) (o : Option A) → o ≢ none → Option.map f o ≢ none
map-ne-none f none h e = h refl
map-ne-none f (some a) h e = cc

-- What `unvmed_vcq_pop` in a loop returns: one entry, or an empty ring if it need not wait.
abbrev pub Popped : Bool → Vcq → Reaped × ℕ → Type 0
Popped nowait q x = IsFifo q x.0 × Took x × (nowait ≡ false → x.1 ≡ 0)

pub after_empty :
    {nowait : Bool} {q : Vcq} {r : Reaped} {ret : ℕ}
    → IsFifo q r
    → Took (r, ret)
    → ret ≡ enoent
    → (x : Reaped × ℕ) → Popped nowait r.ring x
    → Popped nowait q (followed_by r x.0, x.1)
after_empty {r = r} f t e x p =
    let none_taken : r.taken ≡ [] = ground arith in
    (followed_by-IsFifo f p.0, rw none_taken p.1, p.2)

pub pop_wait_lem :
    (events : List (List Arrival)) (nowait : Bool) {q : Vcq}
    → IsRing q
    → Ensures (Popped nowait q) (pop_wait nowait q events)
unfolding pop_wait
pop_wait_lem [] nowait {q} v =
    let (f, t) = poll_lem [] [] v in
    elim (Bool-cases ((poll q [] []).1 == enoent && not nowait)) [
      | inl again ↦ rw again tt
      | inr done ↦ rw done (f, t, λ n. ground arith)
    ]
pop_wait_lem (xs ∷ events) nowait {q} v =
    let (f, t) = poll_lem xs events v in
    let ih = pop_wait_lem events nowait f.valid in
    elim (Bool-cases ((poll q xs events).1 == enoent && not nowait)) [
      | inl again ↦ rw again (
          Ensures-map (λ x. (followed_by (poll q xs events).0 x.0, x.1))
            (Popped nowait (poll q xs events).0.ring) (Popped nowait q)
            (after_empty f t (ground arith)) (pop_wait nowait (poll q xs events).0.ring events) ih)
      | inr done ↦ rw done (f, t, λ n. ground arith)
    ]

pub append-eq-nil : (xs ys : List Vcqe) → xs ++ ys ≡ [] → xs ≡ []
append-eq-nil [] ys e = refl
append-eq-nil (x ∷ xs) ys e = cc

-- When no further poll is needed.
abbrev pub Ready : Bool → Vcq → Type 0
Ready nowait q = (nowait ≡ true) ⊎ (contents q ≢ [])

pub poll_decides :
    (xs : List Arrival) (events : List (List Arrival)) (nowait : Bool) {q : Vcq}
    → IsRing q
    → Ready nowait q
    → ((poll q xs events).1 == enoent && not nowait) ≡ false
poll_decides xs events nowait v (inl e) = ground arith
poll_decides xs events nowait {q} v (inr ne) = by_took (poll_lem xs events v).1
  where
    by_took : Took (poll q xs events) → ((poll q xs events).1 == enoent && not nowait) ≡ false
    by_took (inl t) = ground arith
    by_took (inr (_, taken, left)) = absurd (
        ne (
          append-eq-nil (contents q) _ (
            sym (poll_lem xs events v).0.order
            ∙ ap (λ l. l ++ contents (poll q xs events).0.ring) taken
            ∙ left)))

-- It returns if it need not wait, or if the ring holds an entry.
pub pop_wait_total :
    (events : List (List Arrival)) (nowait : Bool) {q : Vcq}
    → IsRing q
    → Ready nowait q
    → pop_wait nowait q events ≢ none
unfolding pop_wait
pop_wait_total [] nowait {q} v h = rw (poll_decides [] [] nowait v h) (λ e. cc)
pop_wait_total (xs ∷ events) nowait {q} v h = rw (poll_decides xs events nowait v h) (λ e. cc)
