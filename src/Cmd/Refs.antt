-- ===== src/Cmd/Refs.antt =====
-- A reference that is taken and given back leaves the queue as it was.
use unvme_cli.Prelude.{
  Bool-cases, inl, inr, ℕ, zero, suc, ◌+◌, ◌^◌, ◌<◌, Bool, true, false, not, Option, none, some,
  List, [], ◌∷◌, ◌≡◌, ◌≢◌, refl, ap, ◌∙◌, arith, ◌==◌, set, get_or, inc32, dec32, is_pos32,
}
use unvme_cli.Cmd.Life.{write_others, freed_reads, freed_own}
use unvme_cli.Cmd.{CmdState, init, Cmd, no_cmd, Sq, Slot, regular, read, write, cmd_get, cmd_put}

set-undo : {A : Type 0} (xs : List A) (i : ℕ) (v d : A) → set (set xs i v) i (get_or xs i d) ≡ xs
set-undo [] i v d = refl
set-undo (x ∷ xs) zero v d = refl
set-undo (x ∷ xs) (suc i) v d = ap (λ (ys : List _). x ∷ ys) (set-undo xs i v d)

-- The bound that keeps a count from becoming negative.
abbrev pub Countable : Cmd → Type 0
Countable x = x.refcnt + 1 < 2 ^ 31

-- The command has a reference.
abbrev pub held : Cmd → Bool
held x = not (x.refcnt == 0)

pub read-taken :
    (xs : List Cmd) (c : ℕ) (y : Cmd)
    → held (get_or xs c no_cmd) ≡ true
    → get_or (set xs c y) c no_cmd ≡ y
read-taken [] c y h = cc
read-taken (x ∷ xs) zero y h = refl
read-taken (x ∷ xs) (suc c) y h = read-taken xs c y h

-- What is written to a slot is read from it, if the slot exists at all.
pub own_state :
    (xs : List Cmd) (c : ℕ) (x : Cmd) (f : CmdState → Bool)
    → f init ≡ true
    → f x.state ≡ true
    → f (get_or (set xs c x) c no_cmd).state ≡ true
own_state [] c x f i h = i
own_state (y ∷ ys) zero x f i h = h
own_state (y ∷ ys) (suc c) x f i h = own_state ys c x f i h

module _ {R : Type 0} where
  -- The queue with one more reference on a command.
  abbrev pub taken : Sq R → ℕ → Sq R
  taken q c =
      write q (regular c)
        (record (read q (regular c)) { refcnt = inc32 (read q (regular c)).refcnt })

  pub cmd_get_free :
      (q : Sq R) (c : ℕ) → held (read q (regular c)) ≡ false → cmd_get q c ≡ (q, none)
  unfolding cmd_get
  cmd_get_free q c h =
      let e : ((read q (regular c)).refcnt == 0) ≡ true = ground (arith, h) in rw e refl

  pub cmd_get_held :
      (q : Sq R) (c : ℕ)
      → Countable (read q (regular c))
      → held (read q (regular c)) ≡ true
      → cmd_get q c ≡ (taken q c, some (regular c))
  unfolding cmd_get
  cmd_get_held q c k h =
      let e : ((read q (regular c)).refcnt == 0) ≡ false = ground (arith, h) in
      let p : is_pos32 (read q (regular c)).refcnt ≡ true = ground (arith, h) in rw (e, p) refl

  module _ (rq_acquire : R → Option (ℕ × R)) (rq_release : ℕ → R → R) where
    put_shared :
        (q : Sq R) (c : ℕ)
        → (dec32 (read q (regular c)).refcnt == 0) ≡ false
        → (cmd_put rq_acquire rq_release q (regular c)).0
          ≡ write q
              (regular c)
              (record (read q (regular c)) { refcnt = dec32 (read q (regular c)).refcnt })
    unfolding cmd_put
    put_shared q c n = rw n refl

    pub cmd_put_taken :
        (q : Sq R) (c : ℕ)
        → Countable (read q (regular c))
        → held (read q (regular c)) ≡ true
        → (cmd_put rq_acquire rq_release (taken q c) (regular c)).0 ≡ q
    cmd_put_taken q c k h =
        let x = read q (regular c) in
        let q1 = taken q c in
        let y : read q1 (regular c) ≡ record x { refcnt = inc32 x.refcnt } =
          read-taken q.cmds c (record x { refcnt = inc32 x.refcnt }) h in
        let back : dec32 (inc32 x.refcnt) ≡ x.refcnt = ground (arith, h) in
        let shared : (dec32 (read q1 (regular c)).refcnt == 0) ≡ false =
          rw (y, back) ground (arith, h) in
        put_shared q1 c shared
        ∙ ap (λ z. write q1 (regular c) (record z { refcnt = dec32 z.refcnt })) y
        ∙ ap (λ n. write q1 (regular c) (record x { refcnt = n })) back
        ∙ ap (λ xs. record q { cmds = xs })
            (set-undo q.cmds c (record x { refcnt = inc32 x.refcnt }) no_cmd)

    -- Giving back a reference changes no other command.
    pub cmd_put_reads :
        (q : Sq R) (s t : Slot) → t ≢ s → read (cmd_put rq_acquire rq_release q s).0 t ≡ read q t
    unfolding cmd_put
    cmd_put_reads q s t ne =
        let x : Cmd = record (read q s) { refcnt = dec32 (read q s).refcnt } in
        elim (Bool-cases (dec32 (read q s).refcnt == 0)) [
          | inl last ↦
              rw last
                (freed_reads rq_acquire rq_release (write q s x) s t ne ∙ write_others q s x t ne)
          | inr more ↦ rw more (write_others q s x t ne)
        ]

    -- The command itself keeps its state, or is free.
    pub cmd_put_own :
        (q : Sq R) (c : ℕ) (f : CmdState → Bool)
        → f init ≡ true
        → f (read q (regular c)).state ≡ true
        → f (read (cmd_put rq_acquire rq_release q (regular c)).0 (regular c)).state ≡ true
    unfolding cmd_put
    cmd_put_own q c f i h =
        let x : Cmd = record (read q (regular c)) { refcnt = dec32 (read q (regular c)).refcnt } in
        elim (Bool-cases (dec32 (read q (regular c)).refcnt == 0)) [
          | inl last ↦
              rw (last, freed_own rq_acquire rq_release (write q (regular c) x) (regular c)) i
          | inr more ↦ rw more (own_state q.cmds c x f i h)
        ]
