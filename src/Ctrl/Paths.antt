-- ===== src/Ctrl/Paths.antt =====
-- Which states a controller can pass through, whatever threads call the setters of
-- lib/libunvmed.c in whatever order. Each setter holds `u->lock`, so a history is a sequence.
use unvme_cli.Prelude.{ℕ, true, ◌≡◌, ◌≢◌, ◌⊎◌, inl, inr, refl, arith}
use unvme_cli.Ctrl.{
  State, disabled, resetting, teardown, vf_invalidated, vf_recovering, vf_recovered, Ctrl, change,
  set_state_locked, set_state, cmp_set_state, apply_fallback, set_state_fallback,
}

-- One call of a setter by any thread, or a store to that thread's own `errno`.
pub data Step (u : Ctrl) : Ctrl → Type 0 where
  sets : (s : State) → Step u (set_state u s).0
  compares : (mask : ℕ) (s : State) → Step u (cmp_set_state u mask s).0
  falls_back : (s : State) (mask : ℕ) (f : State) → Step u (set_state_fallback u s mask f).0
  stores : (e : ℕ) → Step u (record u { errno = e })

-- A history after which only states in `P` have been entered.
pub data Run (P : State → Type 0) (u : Ctrl) : Ctrl → Type 0 where
  start : Run P u u
  next : {v w : Ctrl} → Run P u v → Step v w → P w.state → Run P u w

-- What a call may do to the state.
abbrev pub Moves : State → State → Type 0
Moves a b = (b ≡ a) ⊎ (change b a ≡ true)

locked-Moves : (u : Ctrl) (s : State) → Moves u.state (set_state_locked u s).0.state
unfolding set_state_locked
locked-Moves u s = ground arith

cmp_set-Moves : (u : Ctrl) (mask : ℕ) (s : State) → Moves u.state (cmp_set_state u mask s).0.state
unfolding cmp_set_state
cmp_set-Moves u mask s = ground (arith, locked-Moves u s)

fallback-Moves :
    (u : Ctrl) (s : State) (mask : ℕ) (f : State)
    → Moves u.state (set_state_fallback u s mask f).0.state
unfolding set_state_fallback apply_fallback set_state_locked
fallback-Moves u s mask f = ground arith

pub Step-Moves : {u v : Ctrl} → Step u v → Moves u.state v.state
unfolding set_state
Step-Moves {u} (sets s) = locked-Moves u s
Step-Moves {u} (compares mask s) = cmp_set-Moves u mask s
Step-Moves {u} (falls_back s mask f) = fallback-Moves u s mask f
Step-Moves (stores e) = inl refl

-- A set of states that no move leaves but to states outside `P` bounds every run in `P`.
pub Run-closed :
    {P Q : State → Type 0}
    → ((a b : State) → Q a → P b → change b a ≡ true → Q b)
    → {u v : Ctrl} → Q u.state
    → Run P u v
    → Q v.state
Run-closed closed q start = q
Run-closed {P} {Q} closed q (next {v} {w} r st p) = after (Run-closed closed q r) (Step-Moves st)
  where
    after : Q v.state → Moves v.state w.state → Q w.state
    after q (inl e) = rw e q
    after q (inr c) = closed v.state w.state q p c

-- Gone: invalidated, or on the way to recovery.
abbrev pub Quarantined : State → Type 0
Quarantined s = (s ≡ vf_invalidated) ⊎ ((s ≡ teardown) ⊎ (s ≡ vf_recovering))

quarantine_closed :
    (a b : State) → Quarantined a → b ≢ vf_recovered → change b a ≡ true → Quarantined b
unfolding change
quarantine_closed a b q p c = ground arith

-- An invalidated VF stays invalidated, in teardown or recovering for as long as no call has taken
-- it to VF_RECOVERED: no sequence of calls brings it back into service by another way.
pub quarantine :
    {u v : Ctrl} → u.state ≡ vf_invalidated → Run (λ s. s ≢ vf_recovered) u v → Quarantined v.state
quarantine e r = Run-closed {Q = Quarantined} quarantine_closed (inl e) r

running_closed :
    (a b : State)
    → (a ≢ disabled) × (a ≢ resetting)
    → b ≢ resetting
    → change b a ≡ true
    → (b ≢ disabled) × (b ≢ resetting)
unfolding change
running_closed a b q p c = ground arith

-- A controller that is neither DISABLED nor RESETTING becomes DISABLED only after some call has
-- taken it to RESETTING.
pub disabled_by_reset :
    {u v : Ctrl}
    → u.state ≢ disabled
    → u.state ≢ resetting
    → Run (λ s. s ≢ resetting) u v
    → v.state ≢ disabled
disabled_by_reset n m r =
    (Run-closed {Q = λ s. (s ≢ disabled) × (s ≢ resetting)} running_closed (n, m) r).0
