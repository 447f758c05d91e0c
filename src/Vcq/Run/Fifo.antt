-- ===== src/Vcq/Run/Fifo.antt =====
-- The owner of a ring reaps every entry once, in the order in which they came, and as many as it
-- asks for.
use mathlib.Core.Option
use unvme_cli.Prelude.{
  ℕ, zero, suc, ◌+◌, ◌-◌, ◌≤◌, Bool, true, false, Option, none, some, List, [], ◌==◌, leb,
  if◌then◌else◌, sub32, length, length-append, ◌≡◌, ◌≢◌, refl, sym, ap, ◌∙◌, ◌⊎◌, inl, inr, arith,
  append-nil, Bool-cases,
}
use unvme_cli.Vcq.Ring.{Vcq}
use unvme_cli.Vcq.Ring.Inv.{IsRing}
use unvme_cli.Vcq.Ring.Refine.{contents}
use unvme_cli.Vcq.Run.{Arrival, Reaped, followed_by, pop_wait, run_loop, run_part, run_n}
use unvme_cli.Vcq.Run.Poll.{
  IsFifo, followed_by-IsFifo, Ensures, Ensures-map, map-ne-none, Popped, pop_wait_lem, Ready,
  pop_wait_total,
}

-- What the outer loop does in at most `k` rounds.
abbrev Looped : ℕ → Bool → Vcq → Reaped → Type 0
Looped k nowait q r =
    IsFifo q r
    × (length r.taken ≤ k)
    × (nowait ≡ false → length r.taken ≡ k)
    × ((length r.taken ≡ k) ⊎ (contents r.ring ≡ []))

run_loop_lem :
    (k : ℕ) (nowait : Bool) (events : List (List Arrival)) {q : Vcq}
    → IsRing q
    → Ensures (Looped k nowait q) (run_loop k nowait q events)
unfolding run_loop
run_loop_lem zero nowait events {q} v =
    (record { valid = v; order = sym (append-nil (contents q)) }, omega arith, λ n. refl, inl refl)
run_loop_lem (suc k) nowait events {q} v =
    round (λ evs q' w. run_loop_lem k nowait evs {q = q'} w) (pop_wait nowait q events)
      (pop_wait_lem events nowait v)
  where
    more :
        (r : Reaped)
        → IsFifo q r
        → length r.taken ≡ 1
        → (x : Reaped) → Looped k nowait r.ring x
        → Looped (suc k) nowait q (followed_by r x)
    more r f one x l = (
      followed_by-IsFifo f l.0,
      omega (arith, length-append r.taken x.taken),
      λ n. omega (arith, length-append r.taken x.taken, l.2 n),
      ground (arith, length-append r.taken x.taken),
    )

    round :
        ((evs : List (List Arrival)) (q' : Vcq)
          → IsRing q'
          → Ensures (Looped k nowait q') (run_loop k nowait q' evs))
        → (o : Option (Reaped × ℕ)) → Ensures (Popped nowait q) o
        → Ensures (Looped (suc k) nowait q) (elim o [
          | none ↦ none
          | some (r, ret) ↦
              let rest = run_loop k nowait r.ring r.events in
              if ret == 0 then Option.map (followed_by r) rest else some r
        ])
    round rec none p = tt
    round rec (some (r, ret)) (f, inl (e, one), w) = rw e (
        Ensures-map (followed_by r) (Looped k nowait r.ring) (Looped (suc k) nowait q)
          (more r f one) (run_loop k nowait r.ring r.events) (rec r.events r.ring f.valid))
    round rec (some (r, ret)) (f, inr (e, none_taken, empty), w) =
        rw e (f, omega (arith, ap length none_taken), λ n. absurd (omega (arith, w n)), inr empty)

run_loop_total :
    (k : ℕ) (nowait : Bool) (events : List (List Arrival)) {q : Vcq}
    → IsRing q
    → (nowait ≡ true) ⊎ (k ≤ length (contents q))
    → run_loop k nowait q events ≢ none
unfolding run_loop
run_loop_total zero nowait events {q} v h = λ e. cc
run_loop_total (suc k) nowait events {q} v h =
    round (λ evs q' w g. run_loop_total k nowait evs {q = q'} w g) (pop_wait nowait q events)
      (pop_wait_total events nowait v ready) (pop_wait_lem events nowait v)
  where
    ready : Ready nowait q
    ready = ground arith

    left :
        (r : Reaped)
        → IsFifo q r
        → length r.taken ≡ 1
        → (nowait ≡ true) ⊎ (k ≤ length (contents r.ring))
    left r f one = ground (
      arith,
      ap length f.order,
      length-append r.taken (contents r.ring),
      length-append (contents q) r.added,
    )

    round :
        ((evs : List (List Arrival)) (q' : Vcq)
          → IsRing q'
          → (nowait ≡ true) ⊎ (k ≤ length (contents q'))
          → run_loop k nowait q' evs ≢ none)
        → (o : Option (Reaped × ℕ)) → o ≢ none
        → Ensures (Popped nowait q) o
        → (elim o [
          | none ↦ none
          | some (r, ret) ↦
              let rest = run_loop k nowait r.ring r.events in
              if ret == 0 then Option.map (followed_by r) rest else some r
        ])
          ≢ none
    round rec none n p = absurd (n refl)
    round rec (some (r, ret)) n (f, inl (e, one), w) = rw e (
        map-ne-none (followed_by r) (run_loop k nowait r.ring r.events)
          (rec r.events r.ring f.valid (left r f one)))
    round rec (some (r, ret)) n (f, inr (e, _, _), w) = rw e (λ z. cc)

-- A run that must give a result gives one with its properties.
run_loop_ok :
    (k : ℕ) (nowait : Bool) (events : List (List Arrival)) {q : Vcq}
    → IsRing q
    → (nowait ≡ true) ⊎ (k ≤ length (contents q))
    → (r : Reaped) × (run_loop k nowait q events ≡ some r) × Looped k nowait q r
run_loop_ok k nowait events {q} v h =
    known (run_loop k nowait q events) (run_loop_total k nowait events v h)
      (run_loop_lem k nowait events v)
  where
    known :
        (o : Option Reaped)
        → o ≢ none
        → Ensures (Looped k nowait q) o
        → (r : Reaped) × (o ≡ some r) × Looped k nowait q r
    known none n p = absurd (n refl)
    known (some r) n p = (r, refl, p)

sub32-sub32 : (x a b : ℕ) → sub32 (sub32 x a) b ≡ sub32 x (a + b)
sub32-sub32 x a b = omega arith

run_part-some :
    (k n : ℕ) (nowait : Bool) (ev : List (List Arrival)) (q : Vcq) (x : Reaped)
    → run_loop k nowait q ev ≡ some x
    → run_part n q k nowait ev ≡ some (x, sub32 n (length x.taken))
unfolding run_part
run_part-some k n nowait ev q x e = rw e

module _ (nr_cmds min max : ℕ) (events : List (List Arrival)) (q : Vcq) (r : Reaped) where
  run_n-stop :
      run_loop min false q events ≡ some r
      → leb max (length r.taken) ≡ true
      → run_n nr_cmds q min max events ≡ some (r, sub32 nr_cmds (length r.taken))
  unfolding run_n
  run_n-stop e stop = rw (run_part-some min nr_cmds false events q r e, run_n, stop)

  run_n-go :
      (x : Reaped)
      → run_loop min false q events ≡ some r
      → leb max (length r.taken) ≡ false
      → run_loop (max - length r.taken) true r.ring r.events ≡ some x
      → run_n nr_cmds q min max events
        ≡ some (followed_by r x, sub32 (sub32 nr_cmds (length r.taken)) (length x.taken))
  unfolding run_n
  run_n-go x e go e' =
      rw (run_part-some min nr_cmds false events q r e, run_n)
        (rw (
          go,
          run_part-some (max - length r.taken) (sub32 nr_cmds (length r.taken)) true r.events r.ring
              x e',
        ))

-- `unvmed_vcq_run_n` on a ring that holds at least `min` entries, whatever other threads push
-- meanwhile: it returns, with at least `min` and at most `max` entries. Those and what the ring
-- holds then are the entries that it held and the ones that were added, in order. It stops below
-- `max` only at an empty ring, and takes from `nr_cmds` (an `int`) the number that it returns.
pub run_n_lem :
    (nr_cmds min max : ℕ) (events : List (List Arrival)) {q : Vcq}
    → IsRing q
    → min ≤ length (contents q)
    → min ≤ max
    → (r : Reaped) × (n : ℕ) × (run_n nr_cmds q min max events ≡ some (r, n))
      × IsFifo q r
      × (min ≤ length r.taken)
      × (length r.taken ≤ max)
      × ((length r.taken ≡ max) ⊎ (contents r.ring ≡ []))
      × (n ≡ sub32 nr_cmds (length r.taken))
run_n_lem nr_cmds min max events {q} v enough le =
    let (r, e, l) = run_loop_ok min false events v (inr enough) in
    elim (Bool-cases (leb max (length r.taken))) [
      | inl stop ↦ (
        r,
        sub32 nr_cmds (length r.taken),
        run_n-stop nr_cmds min max events q r e stop,
        l.0,
        omega (arith, l.2 refl),
        omega (arith, l.2 refl),
        inl (ground (arith, l.2 refl)),
        refl,
      )
      | inr go ↦
          let (x, e', l') = run_loop_ok (max - length r.taken) true r.events l.0.valid (inl refl) in
          let sum = length-append r.taken x.taken in
          (
            followed_by r x,
            sub32 (sub32 nr_cmds (length r.taken)) (length x.taken),
            run_n-go nr_cmds min max events q r x e go e',
            followed_by-IsFifo l.0 l'.0,
            omega (arith, sum, l.2 refl),
            ground (arith, sum),
            ground (arith, sum, l'.3),
            sub32-sub32 nr_cmds (length r.taken) (length x.taken) ∙ ap (sub32 nr_cmds) (sym sum),
          )
    ]
