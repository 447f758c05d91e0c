-- ===== src/Ctrl/Tests.antt =====
-- The theorems on the state machine at concrete controllers.
use Prim.Native.Nat.{bit_and}
use unvme_cli.Prelude.{ℕ, Bool, true, not, ◌==◌, some, [], ◌∷◌, ◌≡◌, ◌≢◌, refl, eagain}
use unvme_cli.Ctrl.{
  State, disabled, enabling, enabled, resetting, teardown, vf_invalidating, vf_invalidated,
  vf_recovered, vf_enabled, Ctrl, same, is_in, change, set_state_locked, set_state,
  set_state_fallback, previous, invalidate_loop, vf_start_invalidating, cmp_set_state,
}
use unvme_cli.Ctrl.Setter.{set_state_lem, set_state_fallback_lem}
use unvme_cli.Ctrl.Paths.{start, next, sets, Quarantined, quarantine}
use unvme_cli.Ctrl.Vf.{start_invalidating_total}

-- A VF at bus 1, in a given state.
abbrev vf : State → Ctrl
vf s = record { state = s; errno = 0; bdf = some 256 }

abbrev any_vf : ℕ → Bool
any_vf bdf = true

-- Bit 0 and bit 1, as the registers of the specification have them.
abbrev rdy : ℕ → Bool
rdy c = not (bit_and c 1 == 0)

abbrev cfs : ℕ → Bool
cfs c = not (bit_and c 2 == 0)

waits_then_commits :
    vf_start_invalidating any_vf (vf resetting) (resetting ∷ vf_enabled ∷ enabled ∷ [])
    ≡ some (record (vf vf_invalidating) { errno = eagain }, previous resetting)
unfolding vf_start_invalidating invalidate_loop cmp_set_state set_state_locked change same is_in
waits_then_commits = refl

set_state_lem_example : (set_state (vf disabled) enabling).1 ≡ true
unfolding same
set_state_lem_example = (set_state_lem (vf disabled) enabling).0

set_state_fallback_lem_example :
    (set_state_fallback (vf vf_invalidating) disabled 64 vf_invalidated).0.state ≡ vf_invalidated
unfolding same is_in
set_state_fallback_lem_example =
    (set_state_fallback_lem (vf vf_invalidating) disabled 64 vf_invalidated).1

quarantine_example : Quarantined (set_state (vf vf_invalidated) teardown).0.state
unfolding set_state set_state_locked change same
quarantine_example =
    quarantine {u = vf vf_invalidated} refl (next start (sets teardown) to_teardown)
  where
    to_teardown : (set_state (vf vf_invalidated) teardown).0.state ≢ vf_recovered
    to_teardown e = cc

start_invalidating_total_example :
    vf_start_invalidating any_vf (vf resetting) (resetting ∷ vf_enabled ∷ disabled ∷ [])
    ≡ some (record (vf vf_invalidating) { errno = eagain }, previous resetting)
start_invalidating_total_example =
    start_invalidating_total any_vf (resetting ∷ vf_enabled ∷ []) [] (vf resetting) disabled refl
      (refl, (refl, tt)) refl
