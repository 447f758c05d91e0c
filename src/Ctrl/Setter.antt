-- ===== src/Ctrl/Setter.antt =====
-- What the setters of lib/libunvmed.c do to the state, to `errno`, and return.
use unvme_cli.Prelude.{
  ℕ, Bool, true, false, ◌||◌, ◌&&◌, List, [], ◌∷◌, ◌≡◌, if◌then◌else◌, arith, enodev, ealready,
  einval,
}
use unvme_cli.Ctrl.{
  State, disabled, enabling, enabled, resetting, teardown, fatal, vf_invalidating, vf_invalidated,
  vf_recovering, vf_recovered, vf_enabled, Ctrl, same, is_in, change, set_state_locked, set_state,
  apply_fallback, set_state_fallback,
}

-- The states that may follow each state, as the lifecycle of a controller has them: a view by the
-- old state, where the code goes by the new one.
abbrev pub next_states : State → List State
next_states disabled = enabling ∷ teardown ∷ vf_invalidating ∷ vf_invalidated ∷ vf_enabled ∷ []
next_states enabling = enabled ∷ fatal ∷ vf_invalidating ∷ []
next_states enabled = resetting ∷ teardown ∷ fatal ∷ vf_invalidating ∷ vf_invalidated ∷ []
next_states resetting = disabled ∷ teardown ∷ fatal ∷ vf_invalidating ∷ vf_invalidated ∷ []
next_states teardown = vf_recovering ∷ []
next_states fatal = resetting ∷ teardown ∷ vf_invalidating ∷ vf_invalidated ∷ []
next_states vf_invalidating = fatal ∷ vf_invalidated ∷ []
next_states vf_invalidated = teardown ∷ []
next_states vf_recovering = teardown ∷ vf_recovered ∷ []
next_states vf_recovered = vf_enabled ∷ []
next_states vf_enabled = enabled ∷ vf_invalidating ∷ vf_invalidated ∷ []

abbrev pub member : State → List State → Bool
member s [] = false
member s (t ∷ ts) = same s t || member s ts

pub change-next_states : (new old : State) → change new old ≡ member new (next_states old)
unfolding change same
change-next_states new old = ground arith

pub same→eq : (a b : State) → same a b ≡ true → a ≡ b
unfolding same
same→eq a b h = ground arith

-- No state follows itself.
pub change_irrefl : (a b : State) → same a b ≡ true → change b a ≡ false
unfolding change same
change_irrefl a b h = ground arith

-- `unvmed_ctrl_set_state` succeeds exactly when the new state may follow the old one. Then the
-- state is the new one and `errno` is untouched. Otherwise the state stays, and `errno` is
-- EALREADY if the state was the requested one already, and EINVAL if not.
pub set_state_lem :
    (u : Ctrl) (s : State)
    → let (u', done) = set_state u s in
      let may = member s (next_states u.state) in
      (done ≡ may)
      × (u'.state ≡ (if may then s else u.state))
      × (u'.errno ≡ (if may then u.errno else if same u.state s then ealready else einval))
      × (u'.bdf ≡ u.bdf)
unfolding set_state set_state_locked
set_state_lem u s = rw (← change-next_states s u.state) (ground (arith, change_irrefl u.state s))

-- `unvmed_ctrl_set_state_fallback` returns true exactly when the controller ends in the requested
-- state by the first attempt or was there already. When it returns false, either the current state
-- is in the mask and the fallback state is reached (or held), with `errno` ENODEV, or the state
-- has not changed.
pub set_state_fallback_lem :
    (u : Ctrl) (s : State) (mask : ℕ) (f : State)
    → let (u', done) = set_state_fallback u s mask f in
      let may = same u.state s || member s (next_states u.state) in
      let falls = is_in u.state mask && (same u.state f || member f (next_states u.state)) in
      (done ≡ may)
      × (u'.state ≡ (if may then s else if falls then f else u.state))
      × (may ≡ false → falls ≡ true → u'.errno ≡ enodev)
      × (may ≡ false → falls ≡ false → u'.errno ≡ einval)
unfolding set_state_fallback apply_fallback set_state_locked
set_state_fallback_lem u s mask f =
    rw (← change-next_states s u.state, ← change-next_states f u.state)
      (ground (
        arith,
        change_irrefl u.state s,
        change_irrefl u.state f,
        same→eq u.state s,
        same→eq u.state f,
      ))
