-- ===== src/Ctrl/Vf.antt =====
-- The VF invalidation calls of lib/libunvmed.c, among threads that move the state meanwhile.
use unvme_cli.Prelude.{
  All, ℕ, Bool, true, false, not, ◌||◌, some, List, [], ◌∷◌, ◌++◌, ◌≡◌, ◌≢◌, ◌⊎◌, refl,
  if◌then◌else◌, arith, enodev, eagain, ealready, einval, ebusy,
}
use unvme_cli.Ctrl.Setter.{next_states, member, change-next_states}
use unvme_cli.Ctrl.{
  State, disabled, enabling, enabled, resetting, fatal, vf_invalidating, vf_invalidated, vf_enabled,
  Ctrl, same, is_in, change, set_state_locked, set_state, cmp_set_state, Return, failed, success,
  previous, is_vf, allowed, exit_state, finalize_from, vf_check_reset_allowed, invalidate_loop,
  vf_start_invalidating, wait_exit, settled, poll_csts, finish_from, vf_finish_invalidated,
}

-- The states in which `unvmed_vf_start_invalidating` waits.
abbrev pub waits : State → Bool
waits resetting = true
waits vf_enabled = true
waits _ = false

waits-is_in : (s : State) → not (is_in s allowed) ≡ waits s
unfolding is_in
waits-is_in s = ground arith

-- The states from which it succeeds.
abbrev pub accepts : State → Bool
accepts disabled = true
accepts enabling = true
accepts enabled = true
accepts fatal = true
accepts _ = false

-- The result of the loop when an attempt finds `s`.
abbrev pub committed : Ctrl → State → State → Ctrl × Return
committed u cur s = if accepts s then (record u { state = vf_invalidating }, previous cur) else (
  record u { state = s; errno = if same s vf_invalidating then ealready else einval },
  failed,
)

-- `errno` after attempts that all waited.
abbrev pub errno_after : List State → ℕ → ℕ
errno_after [] e = e
errno_after (w ∷ ws) e = errno_after ws eagain

attempt-waits :
    (u : Ctrl) (s : State)
    → waits s ≡ true
    → cmp_set_state (record u { state = s }) allowed vf_invalidating
      ≡ (record u { state = s; errno = eagain }, false)
unfolding cmp_set_state
attempt-waits u s w = rw (waits-is_in s, w)

attempt-commits :
    (u : Ctrl) (s : State)
    → waits s ≡ false
    → cmp_set_state (record u { state = s }) allowed vf_invalidating ≡ (
        if accepts s then (record u { state = vf_invalidating }, true) else (
          record u { state = s; errno = if same s vf_invalidating then ealready else einval },
          false,
        ))
unfolding cmp_set_state set_state_locked change same
attempt-commits u s w = rw (waits-is_in s, w) (ground arith)

attempt-finalizes :
    (u : Ctrl) (s : State)
    → cmp_set_state (record u { state = s }) finalize_from vf_invalidated ≡ (
        if same s fatal || same s vf_invalidating
        then (record u { state = vf_invalidated }, true)
        else (record u { state = s; errno = eagain }, false))
unfolding cmp_set_state set_state_locked change same is_in
attempt-finalizes u s = ground arith

module _ (pci_is_vf : ℕ → Bool) where
  loop-waits :
      (seen : List State) (u : Ctrl) (cur s : State)
      → waits s ≡ true
      → invalidate_loop pci_is_vf u cur (s ∷ seen)
        ≡ invalidate_loop pci_is_vf (record u { state = s; errno = eagain }) cur seen
  unfolding invalidate_loop
  loop-waits seen u cur s w = rw (attempt-waits u s w)

  -- A final attempt decides, whatever errno the earlier ones have left.
  loop-commits :
      (seen : List State) (u : Ctrl) (cur s : State)
      → waits s ≡ false
      → invalidate_loop pci_is_vf u cur (s ∷ seen) ≡ some (committed u cur s)
  unfolding invalidate_loop
  loop-commits seen u cur s w = rw (attempt-commits u s w) (ground arith)

  loop_total :
      (ws rest : List State) (u : Ctrl) (cur s : State)
      → All (λ w. waits w ≡ true) ws
      → waits s ≡ false
      → invalidate_loop pci_is_vf u cur (ws ++ s ∷ rest)
        ≡ some (committed (record u { errno = errno_after ws u.errno }) cur s)
  loop_total [] rest u cur s all w = loop-commits rest u cur s w
  loop_total (x ∷ ws) rest u cur s all w =
      rw (loop-waits (ws ++ s ∷ rest) u cur x all.0)
        (loop_total ws rest (record u { state = x; errno = eagain }) cur s all.1 w)

  -- `unvmed_vf_start_invalidating` on a VF: it waits while it finds RESETTING or VF_ENABLED. The
  -- first other state `s` decides. From DISABLED, ENABLING, ENABLED and FATAL it commits
  -- VF_INVALIDATING and returns the state read before the loop. From any other state it fails,
  -- leaves the state, and `errno` is EALREADY for VF_INVALIDATING and EINVAL for the rest. The header
  -- counts VF_ENABLED among the accepted source states; the code waits on it as on RESETTING.
  pub start_invalidating_total :
      (ws rest : List State) (u : Ctrl) (s : State)
      → is_vf pci_is_vf u.bdf ≡ true
      → All (λ w. waits w ≡ true) ws
      → waits s ≡ false
      → vf_start_invalidating pci_is_vf u (ws ++ s ∷ rest)
        ≡ some (committed (record u { errno = errno_after ws u.errno }) u.state s)
  unfolding vf_start_invalidating
  start_invalidating_total ws rest u s vf all w = rw vf (loop_total ws rest u u.state s all w)

  -- `unvmed_vf_check_reset_allowed` returns 0 exactly on a VF that it reads as ENABLED, and then
  -- changes nothing. Otherwise it returns -1, with ENODEV if the controller is no VF and EBUSY if
  -- it is one; in the second case a VF found FATAL or VF_INVALIDATING has become VF_INVALIDATED
  -- and any other state is kept.
  pub check_reset_allowed_lem :
      (u : Ctrl) (at_lock : State)
      → vf_check_reset_allowed pci_is_vf u at_lock ≡ (
          if not (is_vf pci_is_vf u.bdf)
          then (record u { errno = enodev }, failed)
          else if same u.state enabled
          then (u, success)
          else (
            record u {
              state =
                  if same at_lock fatal || same at_lock vf_invalidating
                  then vf_invalidated
                  else at_lock;
              errno = ebusy;
            },
            failed,
          ))
  unfolding vf_check_reset_allowed
  check_reset_allowed_lem u at_lock = rw (attempt-finalizes u at_lock) (ground arith)

module _ (csts_rdy csts_cfs : ℕ → Bool) where
  -- A value of CSTS at which the polling goes on.
  abbrev pub Busy : ℕ → Type 0
  Busy c = (c ≢ 0xffff_ffff) × (csts_rdy c ≡ true) × (csts_cfs c ≡ false)

  poll-Busy :
      (bs rest : List ℕ)
      → All Busy bs
      → poll_csts csts_rdy csts_cfs (bs ++ rest) ≡ poll_csts csts_rdy csts_cfs rest
  unfolding poll_csts
  poll-Busy [] rest all = refl
  poll-Busy (b ∷ bs) rest all = ground (arith, poll-Busy bs rest)

  -- The last step, once both loops have ended.
  finish-settled :
      (u : Ctrl) (last : State)
      → finish_from csts_rdy csts_cfs u last settled
        ≡ some (
            if same last vf_invalidated
            then (record u { state = last; errno = ealready }, success)
            else if member vf_invalidated (next_states last)
            then (record u { state = vf_invalidated }, success)
            else (record u { state = last; errno = einval }, failed))
  unfolding finish_from set_state set_state_locked
  finish-settled u last = rw (← change-next_states vf_invalidated last) (ground arith)

  -- `unvmed_vf_finish_invalidated` on a VF, when `old` or a state that it reads ends its first
  -- loop, and CSTS reads busy for any number of times and then `c`. If `c` is all ones it fails
  -- with ENODEV and leaves the state. If `c` is not ready or has a fatal status, it succeeds with
  -- the VF in VF_INVALIDATED if `last` is that state or one that it may follow; else it fails with
  -- EINVAL and leaves `last`.
  pub finish_invalidated_lem :
      (pci_is_vf : ℕ → Bool) (u : Ctrl) (old : State) (seen : List State) (bs : List ℕ) (c : ℕ)
      (rest : List ℕ) (last : State)
      → is_vf pci_is_vf u.bdf ≡ true
      → (is_in old exit_state || wait_exit seen) ≡ true
      → All Busy bs
      → let r =
          vf_finish_invalidated csts_rdy csts_cfs pci_is_vf u old seen (bs ++ c ∷ rest) last in
        (c ≡ 0xffff_ffff → r ≡ some (record u { errno = enodev }, failed))
        × (c ≢ 0xffff_ffff
            → (csts_rdy c ≡ false) ⊎ (csts_cfs c ≡ true)
            → r
              ≡ some (
                  if same last vf_invalidated
                  then (record u { state = last; errno = ealready }, success)
                  else if member vf_invalidated (next_states last)
                  then (record u { state = vf_invalidated }, success)
                  else (record u { state = last; errno = einval }, failed)))
  unfolding vf_finish_invalidated poll_csts
  finish_invalidated_lem pci_is_vf u old seen bs c rest last vf ex all =
      rw (vf, ex, poll-Busy bs (c ∷ rest) all)
        (λ e. rw e refl, λ ne h. ground (arith, finish-settled u last))
