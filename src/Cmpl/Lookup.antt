-- ===== src/Cmpl/Lookup.antt =====
-- Which command a completion entry belongs to.
use native.Mathlib.Decide.{ℕ_discrete}
use unvme_cli.Prelude.{
  ℕ, true, false, not, Option, none, some, ◌≡◌, ◌≢◌, ◌⊎◌, inl, inr, refl, arith, ap, sym, subst,
  ◌∙◌, ◌==◌, Bool-cases,
}
use unvme_cli.Cmd.{
  CmdState, submitted, completed, to_be_completed, is_init, Cmd, Sq, Slot, regular, conflict, read,
}
use unvme_cli.Cmd.Inv.{live, IsSq}
use unvme_cli.Cmpl.{is_submitted, lookup, with_queue}

pub some_inj {ℓ} : {A : Type ℓ} (a b : A) → some a ≡ some b → a ≡ b
some_inj a b e = cc

pub with_queue_inv :
    {R : Type 0} (q : Sq R) (o : Option Slot) (q' : Sq R) (s : Slot)
    → with_queue q o ≡ some (q', s)
    → o ≡ some s
unfolding with_queue
with_queue_inv q none q' s e = cc
with_queue_inv q (some d) q' s e = ap some (ap (λ p. p.1) (some_inj (q, d) (q', s) e))

pub true_not_false : true ≢ false
true_not_false e = cc

state-live : (st : CmdState) → is_submitted st ≡ true → is_init st ≡ false
state-live submitted h = refl
state-live CmdState.init h = cc
state-live CmdState.allocated h = cc
state-live completed h = cc
state-live to_be_completed h = cc

pub live_of : (x : Cmd) → is_submitted x.state ≡ true → live x ≡ true
live_of x h = ap not (state-live x.state h)

module _ {R : Type 0} (q : Sq R) (cid : ℕ) where
  lookup_regular :
      is_submitted (read q (regular cid)).state ≡ true → lookup q cid ≡ some (regular cid)
  unfolding lookup
  lookup_regular h = rw h refl

  lookup_conflict :
      is_submitted (read q (regular cid)).state ≡ false
      → is_submitted q.conflict_cmds.state ≡ true
      → q.conflict_cmds.cid ≡ cid
      → lookup q cid ≡ some conflict
  unfolding lookup
  lookup_conflict h c e =
      let same : (q.conflict_cmds.cid == cid) ≡ true = ground arith in rw (h, c, same) refl

  lookup_idle :
      is_submitted (read q (regular cid)).state ≡ false
      → is_submitted q.conflict_cmds.state ≡ false
      → lookup q cid ≡ none
  unfolding lookup
  lookup_idle h c = rw (h, c) refl

  lookup_other :
      is_submitted (read q (regular cid)).state ≡ false
      → q.conflict_cmds.cid ≢ cid
      → lookup q cid ≡ none
  unfolding lookup
  lookup_other h ne =
      let other : (q.conflict_cmds.cid == cid) ≡ false = ground (arith, ne) in
      elim (Bool-cases (is_submitted q.conflict_cmds.state)) [
        | inl c ↦ rw (h, c, other) refl
        | inr c ↦ rw (h, c) refl
      ]

  pub lookup_submitted : (s : Slot) → lookup q cid ≡ some s → is_submitted (read q s).state ≡ true
  lookup_submitted s e = elim (Bool-cases (is_submitted (read q (regular cid)).state)) [
    | inl h ↦ let f = lookup_regular h in let same : s ≡ regular cid = cc in rw same h
    | inr h ↦ elim (ℕ_discrete q.conflict_cmds.cid cid) [
      | no ne ↦ let f = lookup_other h ne in cc
      | yes k ↦ elim (Bool-cases (is_submitted q.conflict_cmds.state)) [
        | inl c ↦ let f = lookup_conflict h c k in let same : s ≡ conflict = cc in rw same c
        | inr c ↦ let f = lookup_idle h c in cc
      ]
    ]
  ]

module _ {R : Type 0} {q : Sq R} (v : IsSq q) (cid : ℕ) where
  -- The lookup of the command for an entry, on a queue whose bitmap and slots agree. If it finds a
  -- command, that is submitted, carries the identifier of the entry, and is the regular one unless
  -- the regular one is not submitted. If it finds none, no submitted command of the queue has the
  -- identifier.
  pub lookup_lem :
      ((s : Slot)
        → lookup q cid ≡ some s
        → (is_submitted (read q s).state ≡ true)
          × ((read q s).cid ≡ cid)
          × ((s ≡ regular cid) ⊎ (is_submitted (read q (regular cid)).state ≡ false)))
      × (lookup q cid ≡ none
          → (s : Slot) → is_submitted (read q s).state ≡ true
          → (read q s).cid ≢ cid)
  lookup_lem = elim (Bool-cases (is_submitted (read q (regular cid)).state)) [
    | inl h ↦
        let f = lookup_regular q cid h in
        (
          λ s e.
              let same : s ≡ regular cid = cc in
              rw same (h, (v.plain cid (live_of (read q (regular cid)) h)).1, inl refl),
          λ e. cc,
        )
    | inr h ↦ elim (ℕ_discrete q.conflict_cmds.cid cid) [
      | no ne ↦ let f = lookup_other q cid h ne in (λ s e. cc, λ e s. apart h (inr ne) s)
      | yes k ↦ elim (Bool-cases (is_submitted q.conflict_cmds.state)) [
        | inl c ↦
            let f = lookup_conflict q cid h c k in
            (λ s e. let same : s ≡ conflict = cc in rw same (c, k, inr h), λ e. cc)
        | inr c ↦ let f = lookup_idle q cid h c in (λ s e. cc, λ e s. apart h (inl c) s)
      ]
    ]
  ]
    where
      apart :
          is_submitted (read q (regular cid)).state ≡ false
          → (is_submitted q.conflict_cmds.state ≡ false) ⊎ (q.conflict_cmds.cid ≢ cid)
          → (s : Slot) → is_submitted (read q s).state ≡ true
          → (read q s).cid ≢ cid
      apart h c (regular d) sub e =
          let own = (v.plain d (live_of (read q (regular d)) sub)).1 in
          let same : d ≡ cid = sym own ∙ e in
          let sub' = subst (λ k. is_submitted (read q (regular k)).state ≡ true) same sub in
          absurd (true_not_false (sym sub' ∙ h))
      apart h (inl c) conflict sub e = absurd (true_not_false (sym sub ∙ c))
      apart h (inr ne) conflict sub e = ne e
