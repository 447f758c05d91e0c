-- ===== src/Vcq/Run.antt =====
-- lib/libunvmed-vcq.c, `__unvmed_vcq_run_n` and `unvmed_vcq_run_n`: the owner of a ring takes entries
-- from it while other threads push.
pub mod Poll
pub mod Fifo
use mathlib.Core.Option
use unvme_cli.Prelude.{
  ℕ, zero, suc, ◌+◌, ◌-◌, Bool, true, false, not, ◌&&◌, Option, none, some, List, [], ◌∷◌, ◌++◌,
  ◌==◌, leb, if◌then◌else◌, enoent, sub32, length,
}
use unvme_cli.Vcq.Ring.{Cqe, Vcqe, Vcq, push, pop}

-- A call of `__unvmed_vcq_push` by another thread.
pub record Arrival : Type 0 where
  pub u_bdf : ℕ
  pub cqe : Cqe
  pub injected : ℕ

-- Other threads' calls, one after the other, since `tail_lock` orders them. Beside the ring, the
-- entries that they have added; a call that finds the ring full adds none (its thread goes on
-- trying).
pub arrive : Vcq → List Arrival → Vcq × List Vcqe
arrive q [] = (q, [])
arrive q (a ∷ xs) =
    let (q', ret) = push q a.u_bdf a.cqe a.injected in
    let (q'', added) = arrive q' xs in
    (
      q'',
      if ret == 0
          then record { cqe = a.cqe; bdf = a.u_bdf; injected = a.injected } ∷ added
          else added,
    )

-- What a series of polls has done: the ring after it, the entries taken from it, the entries that
-- others have added meanwhile, and the events still to come.
pub record Reaped : Type 0 where
  pub ring : Vcq
  pub taken : List Vcqe
  pub added : List Vcqe
  pub events : List (List Arrival)

-- One series of polls, then another.
abbrev pub followed_by : Reaped → Reaped → Reaped
followed_by r x = record x { taken = r.taken ++ x.taken; added = r.added ++ x.added }

-- The entry that `unvmed_vcq_pop` gives, with its queue.
popped_to : Option Vcq → Vcq → Vcq
popped_to none q = q
popped_to (some q') q = q'

entries : Option Vcqe → List Vcqe
entries none = []
entries (some e) = e ∷ []

-- One poll: what has arrived, and a call of `unvmed_vcq_pop`.
pub poll : Vcq → List Arrival → List (List Arrival) → Reaped × ℕ
unfolding popped_to entries
poll q xs events =
    let (q', added) = arrive q xs in
    let (q'', e, ret) = pop (some q') in
    (record { ring = popped_to q'' q'; taken = entries e; added = added; events = events }, ret)

-- The inner `do` loop. Each event is what arrives before a poll; after the last one nothing more
-- arrives, and a poll of an empty ring goes on for ever: `none`.
pub pop_wait : Bool → Vcq → List (List Arrival) → Option (Reaped × ℕ)
pop_wait nowait q [] =
    let (r, ret) = poll q [] [] in if ret == enoent && not nowait then none else some (r, ret)
pop_wait nowait q (xs ∷ events) =
    let (r, ret) = poll q xs events in
    let again = Option.map (λ x. (followed_by r x.0, x.1)) (pop_wait nowait r.ring events) in
    if ret == enoent && not nowait then again else some (r, ret)

-- The outer loop of `__unvmed_vcq_run_n` for `k` more entries. A poll that fails ends it.
pub run_loop : ℕ → Bool → Vcq → List (List Arrival) → Option Reaped
run_loop zero nowait q events = some (record { ring = q; taken = []; added = []; events = events })
run_loop (suc k) nowait q events = elim (pop_wait nowait q events) [
  | none ↦ none
  | some (r, ret) ↦
      let rest = run_loop k nowait r.ring r.events in
      if ret == 0 then Option.map (followed_by r) rest else some r
]

-- `__unvmed_vcq_run_n`: what it has reaped, whose number it returns, and `u->nr_cmds` after it.
pub run_part : ℕ → Vcq → ℕ → Bool → List (List Arrival) → Option (Reaped × ℕ)
run_part nr_cmds q nr_vcqes nowait events =
    Option.map (λ r. (r, sub32 nr_cmds (length r.taken))) (run_loop nr_vcqes nowait q events)

-- `unvmed_vcq_run_n`, for `min` and `max` that are not negative.
pub run_n : ℕ → Vcq → ℕ → ℕ → List (List Arrival) → Option (Reaped × ℕ)
run_n nr_cmds q min max events = elim (run_part nr_cmds q min false events) [
  | none ↦ none
  | some (r, nr) ↦
      if leb max (length r.taken)
      then some (r, nr)
      else Option.map (λ x. (followed_by r x.0, x.1))
          (run_part nr r.ring (max - length r.taken) true r.events)
]
