-- ===== src/Ctrl.antt =====
-- lib/libunvmed.h, `enum unvme_state`, and the functions of lib/libunvmed.c that move a controller
-- between its states. A function that takes `u->lock` for its whole body is one atomic step.
pub mod Setter
pub mod Paths
pub mod Vf
mod Tests
use Prim.Native.Nat.{bit_and, bit_or}
use unvme_cli.Prelude.{
  ℕ, ◌-◌, ◌^◌, Bool, true, false, not, ◌||◌, ◌&&◌, Option, none, some, List, [], ◌∷◌, ◌==◌,
  if◌then◌else◌, enodev, eagain, ealready, einval, ebusy,
}

pub data State : Type 0 where
  disabled enabling enabled resetting teardown fatal : State
  vf_invalidating vf_invalidated vf_recovering vf_recovered vf_enabled : State

-- The flag of each state.
abbrev pub flag : State → ℕ
flag disabled = 1
flag enabling = 2
flag enabled = 4
flag resetting = 8
flag teardown = 16
flag fatal = 32
flag vf_invalidating = 64
flag vf_invalidated = 128
flag vf_recovering = 256
flag vf_recovered = 512
flag vf_enabled = 1024

-- `old == state`
unfoldable pub same : State → State → Bool
same a b = flag a == flag b

-- `old & states`, read as a condition.
unfoldable pub is_in : State → ℕ → Bool
is_in s mask = not (bit_and (flag s) mask == 0)

-- What a controller's state machine reads and writes: `u->state`, the caller's `errno`, and
-- `u->ctrl.pci.bdf`.
pub record Ctrl : Type 0 where
  pub state : State
  pub errno : ℕ
  pub bdf : Option ℕ

-- The nested `switch`: new state first, then old state.
unfoldable pub change : State → State → Bool
change disabled resetting = true
change disabled _ = false
change enabling disabled = true
change enabling _ = false
change enabled enabling = true
change enabled vf_enabled = true
change enabled _ = false
change resetting enabled = true
change resetting fatal = true
change resetting _ = false
change teardown disabled = true
change teardown enabled = true
change teardown resetting = true
change teardown fatal = true
change teardown vf_invalidated = true
change teardown vf_recovering = true
change teardown _ = false
change fatal enabling = true
change fatal resetting = true
change fatal vf_invalidating = true
change fatal enabled = true
change fatal _ = false
change vf_invalidating enabled = true
change vf_invalidating disabled = true
change vf_invalidating resetting = true
change vf_invalidating enabling = true
change vf_invalidating fatal = true
change vf_invalidating vf_enabled = true
change vf_invalidating _ = false
change vf_invalidated enabled = true
change vf_invalidated fatal = true
change vf_invalidated disabled = true
change vf_invalidated resetting = true
change vf_invalidated vf_invalidating = true
change vf_invalidated vf_enabled = true
change vf_invalidated _ = false
change vf_recovering teardown = true
change vf_recovering _ = false
change vf_recovered vf_recovering = true
change vf_recovered _ = false
change vf_enabled disabled = true
change vf_enabled vf_recovered = true
change vf_enabled _ = false

-- `____unvmed_ctrl_set_state`, with its `switch` above.
pub set_state_locked : Ctrl → State → Ctrl × Bool
set_state_locked u state =
    if same u.state state
    then (record u { errno = ealready }, false)
    else if change state u.state
    then (record u { state = state }, true)
    else (record u { errno = einval }, false)

pub cmp_set_state : Ctrl → ℕ → State → Ctrl × Bool
cmp_set_state u old_states state =
    if not (is_in u.state old_states)
    then (record u { errno = eagain }, false)
    else set_state_locked u state

pub set_state : Ctrl → State → Ctrl × Bool
set_state u state = set_state_locked u state

pub ctrl_enabled : Ctrl → Bool
ctrl_enabled u = same u.state enabled

-- The second part of `unvmed_ctrl_set_state_fallback`, when the first request has failed.
pub apply_fallback : Ctrl → State → Ctrl × Bool
apply_fallback u fallback =
    let (u', done) = set_state_locked u fallback in
    if done || u'.errno == ealready then (record u' { errno = enodev }, false) else (u', false)

pub set_state_fallback : Ctrl → State → ℕ → State → Ctrl × Bool
set_state_fallback u state cur_states fallback =
    let (u', done) = set_state_locked u state in
    if done || u'.errno == ealready
    then (u', true)
    else if not (is_in u.state cur_states)
    then (u', false)
    else apply_fallback u' fallback

-- What an `int` function returns: -1, 0, or the state that it read.
pub data Return : Type 0 where
  failed success : Return
  previous : State → Return

-- `!u->ctrl.pci.bdf || !pci_is_vf(u->ctrl.pci.bdf)`, negated; `pci_is_vf` is libvfn's.
abbrev pub is_vf : (ℕ → Bool) → Option ℕ → Bool
is_vf pci_is_vf none = false
is_vf pci_is_vf (some bdf) = pci_is_vf bdf

-- `UNVME_VF_INVALIDATING | UNVME_FATAL`
abbrev pub finalize_from : ℕ
finalize_from = bit_or (flag vf_invalidating) (flag fatal)

-- `~(UNVME_VF_ENABLED | UNVME_RESETTING) & ((1U << 11) - 1)`
abbrev pub allowed : ℕ
allowed = bit_and (2 ^ 32 - 1 - bit_or (flag vf_enabled) (flag resetting)) (2 ^ 11 - 1)

abbrev pub exit_state : ℕ
exit_state =
    bit_or
      (bit_or (bit_or (flag vf_invalidated) (flag fatal)) (bit_or (flag enabled) (flag disabled)))
      (bit_or (flag resetting) (flag vf_enabled))

module _ (pci_is_vf : ℕ → Bool) where
  -- `at_lock` is the state that other threads have left when the compare-and-set takes the lock.
  pub vf_check_reset_allowed : Ctrl → State → Ctrl × Return
  vf_check_reset_allowed u at_lock =
      if not (is_vf pci_is_vf u.bdf)
      then (record u { errno = enodev }, failed)
      else if same u.state enabled
      then (u, success)
      else let (u', done) =
          cmp_set_state (record u { state = at_lock }) finalize_from vf_invalidated in
        if not done && not (u'.errno == eagain) && not (u'.errno == ealready)
        then (u', failed)
        else (record u' { errno = ebusy }, failed)

  -- The `while` loop. Each entry of the list is the state that one attempt finds under the lock;
  -- `none` means that the loop still spins after all of them.
  pub invalidate_loop : Ctrl → State → List State → Option (Ctrl × Return)
  invalidate_loop u cur [] = none
  invalidate_loop u cur (s ∷ seen) =
      let (u', done) = cmp_set_state (record u { state = s }) allowed vf_invalidating in
      let again = invalidate_loop u' cur seen in
      if done
      then some (u', previous cur)
      else if not (u'.errno == eagain)
      then some (u', failed)
      else again

  pub vf_start_invalidating : Ctrl → List State → Option (Ctrl × Return)
  vf_start_invalidating u seen =
      if not (is_vf pci_is_vf u.bdf)
      then some (record u { errno = enodev }, failed)
      else invalidate_loop u u.state seen

-- The first loop of `unvmed_vf_finish_invalidated`: whether one of the states that it reads ends it.
pub wait_exit : List State → Bool
wait_exit [] = false
wait_exit (s ∷ seen) = is_in s exit_state || wait_exit seen

pub data Poll : Type 0 where
  polling gone settled : Poll

-- `NVME_CSTS_RDY` and `NVME_CSTS_CFS` are libvfn's.
module _ (csts_rdy csts_cfs : ℕ → Bool) where
  -- The `for (;;)` loop over the values that it reads from the CSTS register.
  pub poll_csts : List ℕ → Poll
  poll_csts [] = polling
  poll_csts (csts ∷ regs) =
      let rest = poll_csts regs in
      if csts == 0xffff_ffff
      then gone
      else if not (csts_rdy csts) || csts_cfs csts
      then settled
      else rest

  finish_from : Ctrl → State → Poll → Option (Ctrl × Return)
  finish_from u last polling = none
  finish_from u last gone = some (record u { errno = enodev }, failed)
  finish_from u last settled =
      let (u', done) = set_state (record u { state = last }) vf_invalidated in
      if not done && not (u'.errno == ealready) then some (u', failed) else some (u', success)

  -- `seen` are the states that the first loop reads, `regs` the values of CSTS, and `last` the
  -- state under the lock at the end; `none` means that one of the loops still spins.
  pub vf_finish_invalidated :
      (ℕ → Bool) → Ctrl → State → List State → List ℕ → State → Option (Ctrl × Return)
  unfolding finish_from
  vf_finish_invalidated pci_is_vf u old seen regs last =
      if not (is_vf pci_is_vf u.bdf)
      then some (record u { errno = enodev }, failed)
      else if is_in old exit_state || wait_exit seen
      then finish_from u last (poll_csts regs)
      else none
