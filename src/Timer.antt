-- ===== src/Timer.antt =====
-- lib/libunvmed.c and lib/libunvmed-cmds.c, the timer of a submission queue: which commands have
-- expired, and what its handler does to them and to the queue.
pub mod Turn
pub mod Scan
pub mod Handler
pub mod Expire
pub mod Freeze
mod Tests
use Prim.Native.Nat.{bit_or}
use unvme_cli.Prelude.{
  ℕ, zero, suc, ◌+◌, ◌-◌, ◌%◌, ◌^◌, Bool, true, false, not, ◌&&◌, ◌||◌, Option, none, some, List,
  [], ◌∷◌, ◌==◌, ltb, if◌then◌else◌,
}
use unvme_cli.Vcq.Ring.{Cqe}
use unvme_cli.Vcq.Pool.{store}
use unvme_cli.Cmd.{Timespec, Cmd, Sq, Slot, regular, read, write, cmd_get, cmd_put}
use unvme_cli.Cmpl.{is_submitted, Host, cmd_cmpl}

-- `unvmed_timer_after`
abbrev pub timer_after : Timespec → Timespec → Bool
timer_after a b =
    if not (a.tv_sec == b.tv_sec) then ltb b.tv_sec a.tv_sec else ltb b.tv_nsec a.tv_nsec

-- `unvmed_cmd_expired`: its result, and `*next` after it.
unfoldable pub cmd_expired : Cmd → Timespec → Timespec → Bool × Timespec
cmd_expired x start next =
    if not (is_submitted x.state)
    then (false, next)
    else if timer_after start x.timeout
    then (true, next)
    else if ((next.tv_sec == 0) && (next.tv_nsec == 0)) || timer_after next x.timeout
    then (false, x.timeout)
    else (false, next)

abbrev pub no_time : Timespec
no_time = record { tv_sec = 0; tv_nsec = 0 }

-- `struct unvme_timer` and the parts of a queue that the handler goes by: `expire.tv_sec`, the queue's
-- flags, `u->timeout`, and the seconds given to each `timer_settime` so far, the last one first.
pub record Timer : Type 0 where
  pub active : Bool
  pub expire : ℕ
  pub flags : ℕ
  pub timeout : ℕ
  pub set : List ℕ

-- `unvmed_timer_update`, when the clock says `sec_now`.
abbrev pub timer_update : ℕ → Timer → ℕ → Timer
timer_update sec_now t sec = record t { expire = sec_now + sec; set = sec ∷ t.set }

-- The end of the handler after the second pass.
abbrev pub finish : Timespec → ℕ → Timer → Bool → Timespec → Timer
finish now sec_now t timedout next =
    let t' = if timedout then record t { flags = bit_or t.flags 1 } else t in
    if not (next.tv_sec == 0)
    then timer_update sec_now t'
        (if ltb now.tv_sec next.tv_sec then next.tv_sec - now.tv_sec else 1)
    else record t' { active = false }

-- The end of the handler when the first pass has found nothing. The difference is not below 0:
-- `next` is no earlier than `now`.
abbrev pub rearm : Timespec → ℕ → Timer → Timespec → Timer
rearm now sec_now t next =
    if next.tv_sec == 0
    then timer_update sec_now t t.timeout
    else timer_update sec_now t (next.tv_sec - now.tv_sec)

module _ {R : Type 0} where
  abbrev pub set_sq : Host R → ℕ → Sq R → Host R
  set_sq u sqid q = record u { sqs = store u.sqs sqid (some q) }

  finish_with : Timespec → ℕ → Timer → Option (Host R × Bool × Timespec) → Option (Host R × Timer)
  finish_with now sec_now t none = none
  finish_with now sec_now t (some (u, timedout, next)) =
      some (u, finish now sec_now t timedout next)

-- The requests are libvfn's, as for all commands; `now` is what the clock says at the start.
module _ {R : Type 0} (rq_acquire : R → Option (ℕ × R)) (rq_release : ℕ → R → R)
    (now : Timespec) where
  -- One turn of the first pass.
  peek_found : Sq R → Timespec → Option Slot → Sq R × Bool × Timespec
  peek_found q next none = (q, false, next)
  peek_found q next (some s) =
      let (hit, next') = cmd_expired (read q s) now next in
      ((cmd_put rq_acquire rq_release q s).0, hit, next')

  pub peek : Sq R → ℕ → Timespec → Sq R × Bool × Timespec
  unfolding peek_found
  peek q cid next = let (q', s) = cmd_get q cid in peek_found q' next s

  -- The first pass over `n` commands from `cid` on: it stops at one that has expired.
  pub first_pass : ℕ → ℕ → Sq R → Timespec → Sq R × Bool × Timespec
  unfolding peek
  first_pass zero cid q next = (q, false, next)
  first_pass (suc n) cid q next =
      let (q', hit, next') = peek q cid next in
      let rest = first_pass n (cid + 1) q' next' in if hit then (q', true, next') else rest

  put_in : Host R → ℕ → Slot → Option (Sq R) → Host R
  put_in u sqid s none = u
  put_in u sqid s (some q) = set_sq u sqid (cmd_put rq_acquire rq_release q s).0

  -- `unvmed_cmd_put` of a command of the queue `sqid` as it stands.
  pub put_ref : Host R → ℕ → Slot → Host R
  unfolding put_in
  put_ref u sqid s = put_in u sqid s (u.sqs sqid)

  put_after : ℕ → Slot → Option (Host R) → Option (Host R)
  unfolding put_ref
  put_after sqid s none = none
  put_after sqid s (some u) = some (put_ref u sqid s)

  -- `cmd->flags | UNVMED_CMD_F_TIMEDOUT`, and the completion with the status `sfp`.
  timeout_with : ℕ → Host R → ℕ → Sq R → List ℕ → Option Slot → Option (Host R)
  unfolding put_after
  timeout_with sfp u sqid q pops none = none
  timeout_with sfp u sqid q pops (some s) =
      let x = read q s in
      let cqe : Cqe = record { sqid = sqid; cid = x.cid; sfp = sfp } in
      put_after sqid s
        (cmd_cmpl u sqid (write q s (record x { flags = bit_or x.flags (2 ^ 3) })) s cqe pops)

  -- `unvmed_cmd_timeout`; `none` where the assertion fails or the push of the entry spins.
  pub cmd_timeout : ℕ → Host R → ℕ → Sq R → Slot → List ℕ → Option (Host R)
  unfolding timeout_with
  cmd_timeout sfp u sqid q s pops =
      let (q', found) = cmd_get q (read q s).cid in timeout_with sfp u sqid q' pops found

  hit_then : Option (Host R) → Timespec → Option (Host R × Bool × Timespec)
  hit_then none next = none
  hit_then (some u) next = some (u, true, next)

  -- One turn of the second pass.
  expire_found :
      ℕ → Host R → ℕ → Sq R → Timespec → List ℕ → Option Slot → Option (Host R × Bool × Timespec)
  unfolding cmd_timeout hit_then put_after
  expire_found sfp u sqid q next pops none = some (u, false, next)
  expire_found sfp u sqid q next pops (some s) =
      let (hit, next') = cmd_expired (read q s) now next in
      if hit
      then hit_then (put_after sqid s (cmd_timeout sfp u sqid q s pops)) next'
      else some (set_sq u sqid (cmd_put rq_acquire rq_release q s).0, false, next')

  pub expire_in :
      ℕ → Host R → ℕ → ℕ → Timespec → List ℕ → Option (Sq R) → Option (Host R × Bool × Timespec)
  unfolding expire_found
  expire_in sfp u sqid cid next pops none = some (u, false, next)
  expire_in sfp u sqid cid next pops (some q) =
      let (q', s) = cmd_get q cid in expire_found sfp u sqid q' next pops s

  -- The second pass over `n` commands from `cid` on, with `timedout` so far; `owner` is what the owners
  -- of the rings pop for each command.
  pub expire_all :
      ℕ → ℕ → (ℕ → List ℕ) → ℕ → ℕ → Host R → Bool → Timespec → Option (Host R × Bool × Timespec)
  unfolding expire_in
  expire_all sfp sqid owner zero cid u timedout next = some (u, timedout, next)
  expire_all sfp sqid owner (suc n) cid u timedout next =
      elim (expire_in sfp u sqid cid next (owner cid) (u.sqs sqid)) [
        | none ↦ none
        | some (u', hit, next') ↦ expire_all sfp sqid owner n (cid + 1) u' (hit || timedout) next'
      ]

  -- `unvmed_timer_handler` of the queue `q`, whose identifier is `sqid`. Both passes run over the first
  -- `qsize - 1` slots of the array; `usq->conflict_cmds` is in neither.
  pub timer_handler : ℕ → ℕ → ℕ → ℕ → (ℕ → List ℕ) → Host R → Sq R → Timer → Option (Host R × Timer)
  unfolding first_pass expire_all finish_with
  timer_handler sec_now sfp sqid qsize owner u q t =
      if not t.active
      then some (u, t)
      else let (q', hit, next) = first_pass (qsize - 1) 0 q no_time in
        let u' = set_sq u sqid q' in
        if hit
        then finish_with now sec_now t (expire_all sfp sqid owner (qsize - 1) 0 u' false no_time)
        else some (u', rearm now sec_now t next)
