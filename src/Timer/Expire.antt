-- ===== src/Timer/Expire.antt =====
-- One turn of the second pass: a command that has expired is completed with the time-out status, and
-- every other command stays as it is.
use Prim.Native.Nat.{bit_or}
use unvme_cli.Prelude.{
  ℕ, suc, ◌+◌, ◌^◌, ◌<◌, Bool, true, false, ◌&&◌, Option, none, some, List, ◌∷◌, ◌≡◌, ◌≢◌, refl,
  sym, ap, ◌∙◌, arith, if◌then◌else◌, Bool-cases, inl, inr, inc32,
}
use unvme_cli.Cmd.{Timespec, Cmd, Sq, Slot, regular, read, write, cmd_get, cmd_put}
use unvme_cli.Cmd.Life.{write_others}
use unvme_cli.Cmd.Refs.{
  Countable, held, taken, read-taken, cmd_get_free, cmd_get_held, cmd_put_taken, cmd_put_reads,
  cmd_put_own, own_state,
}
use unvme_cli.Cmpl.{Host, is_submitted}
use unvme_cli.Cmpl.Cancel.Complete.{idle, Roomy, cmd_cmpl-Completes}
use unvme_cli.Timer.{
  timer_after, cmd_expired, set_sq, put_in, put_ref, put_after, timeout_with, cmd_timeout, hit_then,
  expire_found, expire_in,
}
use unvme_cli.Timer.Turn.{pending, both_true}

-- The command takes part in the pass and has expired.
abbrev pub due : Timespec → Cmd → Bool
due now x = pending x && timer_after now x.timeout

expired-due :
    (now : Timespec) (x : Cmd) (next : Timespec)
    → held x ≡ true
    → (cmd_expired x now next).0 ≡ due now x
unfolding cmd_expired
expired-due now x next h = elim (Bool-cases (is_submitted x.state)) [
  | inr s ↦ rw (h, s) refl
  | inl s ↦ elim (Bool-cases (timer_after now x.timeout)) [
    | inl d ↦ rw (h, s, d) refl
    | inr d ↦ rw (h, s, d) ground arith
  ]
]

raised :
    (now : Timespec) (x : Cmd)
    → x.refcnt + 2 < 2 ^ 31
    → held x ≡ true
    → due now (record x { refcnt = inc32 x.refcnt }) ≡ due now x
raised now x v h =
    let more : held (record x { refcnt = inc32 x.refcnt }) ≡ true = ground (arith, v) in
    rw (h, more) refl

due-pending : (now : Timespec) (x : Cmd) → due now x ≡ true → pending x ≡ true
due-pending now x d = (both_true (pending x) (timer_after now x.timeout) d).0

-- No count of references is about to overflow, and a command's identifier is its place.
abbrev pub Sound : ℕ → Cmd → Type 0
Sound c x = (x.refcnt + 2 < 2 ^ 31) × (pending x ≡ true → x.cid ≡ c)

module _ {R : Type 0} (rq_acquire : R → Option (ℕ × R)) (rq_release : ℕ → R → R) (now : Timespec)
    (sfp sqid : ℕ) where
  put_ref_at :
      (u : Host R) (s : Slot) (q : Sq R)
      → u.sqs sqid ≡ some q
      → put_ref rq_acquire rq_release now u sqid s
        ≡ set_sq u sqid (cmd_put rq_acquire rq_release q s).0
  unfolding put_ref put_in
  put_ref_at u s q e = ap (put_in rq_acquire rq_release now u sqid s) e

  stored : (u : Host R) (q : Sq R) → (set_sq u sqid q).sqs sqid ≡ some q
  stored u q = ground arith

  -- What a turn for slot `c` leaves.
  pub record Gone (q : Sq R) (c : ℕ) (u : Host R) : Type 0 where
    pub queue : Sq R
    pub at : u.sqs sqid ≡ some queue
    pub others : (t : Slot) → t ≢ regular c → read queue t ≡ read q t
    pub done : due now (read q (regular c)) ≡ true → idle (read queue (regular c)).state ≡ true
    pub roomy : Roomy u

  -- The completion of an expired command, up to the two references given back.
  timeout_ends :
      (u : Host R) (q : Sq R) (c n : ℕ) (pops : List ℕ)
      → Sound c (read q (regular c))
      → pending (read q (regular c)) ≡ true
      → held (read q (regular c)) ≡ true
      → Roomy u
      → (u' : Host R) × (put_after rq_acquire rq_release now sqid (regular c) (
            cmd_timeout rq_acquire rq_release now sfp u sqid (taken q c) (regular c) (suc n ∷ pops))
          ≡ some u')
        × Gone q c u'
  unfolding put_after cmd_timeout timeout_with
  timeout_ends u q c n pops v p h roomy =
      let s = regular c in
      let x = read q s in
      let q1 = taken q c in
      let got = read-taken q.cmds c (record x { refcnt = inc32 x.refcnt }) h in
      let same : (read q1 s).cid ≡ c = ap (λ (y : Cmd). y.cid) got ∙ v.1 p in
      let more : Countable (read q1 s) = rw got omega (arith, v.0) in
      let still : held (read q1 s) ≡ true = rw got ground (arith, v.0) in
      let get = ap (cmd_get q1) same ∙ cmd_get_held q1 c more still in
      let q2 = taken q1 c in
      let q3 = write q2 s (record (read q2 s) { flags = bit_or (read q2 s).flags (2 ^ 3) }) in
      let (u1, ends, k) =
        cmd_cmpl-Completes u sqid q3 s (record { sqid = sqid; cid = (read q2 s).cid; sfp = sfp }) n
          pops roomy in
      let q4 = write q3 s k.cmd in
      let at1 : u1.sqs sqid ≡ some q4 =
        ap (λ (f : ℕ → Option (Sq R)). f sqid) k.sqs ∙ ground arith in
      let q5 = (cmd_put rq_acquire rq_release q4 s).0 in
      let u2 = set_sq u1 sqid q5 in
      let q6 = (cmd_put rq_acquire rq_release q5 s).0 in
      (
        set_sq u2 sqid q6,
        ap
              (λ (g : Sq R × Option Slot).
                put_after rq_acquire rq_release now sqid s
                  (timeout_with rq_acquire rq_release now sfp u sqid g.0 (suc n ∷ pops) g.1))
              get
            ∙ ap
                (λ (o : Option (Host R)).
                  put_after rq_acquire rq_release now sqid s
                    (put_after rq_acquire rq_release now sqid s o))
                ends
            ∙ ap (λ (w : Host R). some (put_ref rq_acquire rq_release now w sqid s))
                (put_ref_at u1 s q4 at1)
            ∙ ap some (put_ref_at u2 s q5 (stored u1 q5)),
        record {
          queue = q6;
          at = stored u2 q6;
          others = λ t ne.
              cmd_put_reads rq_acquire rq_release q5 s t ne
              ∙ cmd_put_reads rq_acquire rq_release q4 s t ne
              ∙ write_others q3 s k.cmd t ne
              ∙ write_others q2 s (record (read q2 s) { flags = bit_or (read q2 s).flags (2 ^ 3) })
                  t ne
              ∙ write_others q1 s (record (read q1 s) { refcnt = inc32 (read q1 s).refcnt }) t ne
              ∙ write_others q s (record x { refcnt = inc32 x.refcnt }) t ne;
          done = λ d.
              cmd_put_own rq_acquire rq_release q5 c (λ b. idle b) refl
                (cmd_put_own rq_acquire rq_release q4 c (λ b. idle b) refl
                  (own_state q3.cmds c k.cmd (λ b. idle b) refl k.done));
          roomy = k.roomy;
        },
      )

  found_case :
      (u : Host R) (q : Sq R) (s : Slot) (next : Timespec) (pops : List ℕ) (b : Bool)
      → (cmd_expired (read q s) now next).0 ≡ b
      → expire_found rq_acquire rq_release now sfp u sqid q next pops (some s) ≡ (
          if b
          then hit_then rq_acquire rq_release now
              (put_after rq_acquire rq_release now sqid s
                (cmd_timeout rq_acquire rq_release now sfp u sqid q s pops))
              (cmd_expired (read q s) now next).1
          else some (
            set_sq u sqid (cmd_put rq_acquire rq_release q s).0,
            false,
            (cmd_expired (read q s) now next).1,
          ))
  unfolding expire_found
  found_case u q s next pops b e = rw e refl

  none_case :
      (u : Host R) (q : Sq R) (next : Timespec) (pops : List ℕ)
      → expire_found rq_acquire rq_release now sfp u sqid q next pops none ≡ some (u, false, next)
  unfolding expire_found
  none_case u q next pops = refl

  hit_case :
      (u : Host R) (next : Timespec)
      → hit_then rq_acquire rq_release now (some u) next ≡ some (u, true, next)
  unfolding hit_then
  hit_case u next = refl

  -- A turn ends, and tells whether the command had expired.
  pub turn_ends :
      (u : Host R) (q : Sq R) (c n : ℕ) (pops : List ℕ) (next : Timespec)
      → u.sqs sqid ≡ some q
      → Sound c (read q (regular c))
      → Roomy u
      → (u' : Host R) × (next' : Timespec) × (expire_in rq_acquire rq_release now sfp u sqid c next
            (suc n ∷ pops)
            (some q)
          ≡ some (u', due now (read q (regular c)), next'))
        × Gone q c u'
  unfolding expire_in
  turn_ends u q c n pops next at v roomy =
      let s = regular c in
      let x = read q s in
      let go = λ (g : Sq R × Option Slot).
        expire_found rq_acquire rq_release now sfp u sqid g.0 next (suc n ∷ pops) g.1 in
      elim (Bool-cases (held x)) [
        | inr h ↦
            let idle_turn : due now x ≡ false = rw h refl in
            (
              u,
              next,
              ap go (cmd_get_free q c h)
                  ∙ none_case u q next (suc n ∷ pops)
                  ∙ ap (λ b. some (u, b, next)) (sym idle_turn),
              record { queue = q; at = at; others = λ t ne. refl; done = λ d. cc; roomy = roomy },
            )
        | inl h ↦
            let q1 = taken q c in
            let k : Countable x = omega (arith, v.0) in
            let next' = (cmd_expired (read q1 s) now next).1 in
            let got = read-taken q.cmds c (record x { refcnt = inc32 x.refcnt }) h in
            let still : held (read q1 s) ≡ true = rw got ground (arith, v.0) in
            let same : due now (read q1 s) ≡ due now x = ap (due now) got ∙ raised now x v.0 h in
            let was = expired-due now (read q1 s) next still ∙ same in
            elim (Bool-cases (due now x)) [
              | inl d ↦
                  let (u', ends, g) = timeout_ends u q c n pops v (due-pending now x d) h roomy in
                  (
                    u',
                    next',
                    ap go (cmd_get_held q c k h)
                        ∙ found_case u q1 s next (suc n ∷ pops) true (was ∙ d)
                        ∙ ap (λ o. hit_then rq_acquire rq_release now o next') ends
                        ∙ hit_case u' next'
                        ∙ ap (λ b. some (u', b, next')) (sym d),
                    g,
                  )
              | inr d ↦
                  let q' = (cmd_put rq_acquire rq_release q1 s).0 in
                  (
                    set_sq u sqid q',
                    next',
                    ap go (cmd_get_held q c k h)
                        ∙ found_case u q1 s next (suc n ∷ pops) false (was ∙ d)
                        ∙ ap (λ b. some (set_sq u sqid q', b, next')) (sym d),
                    record {
                      queue = q;
                      at = stored u q' ∙ ap some (cmd_put_taken rq_acquire rq_release q c k h);
                      others = λ t ne. refl;
                      done = λ e. cc;
                      roomy = roomy;
                    },
                  )
            ]
      ]
