-- ===== src/Cmd/Inv.antt =====
-- The invariant of a submission queue's commands: the bitmap, the slots and the count agree.
use native.Mathlib.Decide.{ℕ_discrete}
use unvme_cli.Prelude.{
  ℕ, zero, suc, ◌+◌, ◌%◌, ◌^◌, ◌≤◌, ◌<◌, Bool, true, false, not, List, [], ◌∷◌, ◌≡◌, ◌≢◌, arith, ap,
  subst, ◌∙◌, sym, get_or, set, length, length-set, get_or-set_self, get_or-set_ne,
}
use unvme_cli.Cid.{Bitmap}
use unvme_cli.Cid.Inv.{used, IsBitmap}
use unvme_cli.Cmd.{Cmd, is_init, no_cmd, Sq, Slot, regular, conflict, read, write}

abbrev pub live : Cmd → Bool
live x = not (is_init x.state)

abbrev pub one_if : Bool → ℕ
one_if true = 1
one_if false = 0

-- How many commands are in use.
abbrev pub count : List Cmd → ℕ
count [] = 0
count (x ∷ xs) = one_if (live x) + count xs

pub count-set :
    (xs : List Cmd) (i : ℕ) (x : Cmd)
    → i < length xs
    → count (set xs i x) + one_if (live (get_or xs i no_cmd)) ≡ count xs + one_if (live x)
count-set [] i x h = absurd (omega arith)
count-set (y ∷ ys) zero x h = omega arith
count-set (y ∷ ys) (suc i) x h = omega (arith, count-set ys i x (omega arith))

abbrev pub Resident : Bitmap → ℕ → Cmd → Type 0
Resident b c x = c < b.size → used b.bits c ≡ live x

abbrev pub Plain : ℕ → ℕ → Cmd → Type 0
Plain size c x = live x ≡ true → (c < size) × (x.cid ≡ c) × (x.injected ≡ false)

-- A property of every slot, after a write to one.
pub set-all :
    (P : ℕ → Cmd → Type 0) (xs : List Cmd) (c : ℕ) (x : Cmd)
    → c < length xs
    → P c x
    → ((d : ℕ) → c ≢ d → P d (get_or xs d no_cmd))
    → (d : ℕ) → P d (get_or (set xs c x) d no_cmd)
set-all P xs c x h p others d = elim (ℕ_discrete c d) [
  | yes e ↦
      subst (λ k. P k (get_or (set xs c x) k no_cmd)) e (rw (get_or-set_self xs c x no_cmd h) p)
  | no ne ↦ rw (get_or-set_ne xs c d x no_cmd ne) (others d ne)
]

-- An identifier is in use exactly if its slot holds a command, which carries it and is no
-- conflict command; a command in the conflict slot is one; `nr_cmds` counts all of them.
pub record IsSq {R : Type 0} (q : Sq R) : Type 0 where
  pub bitmap : IsBitmap q.cids
  pub slots : q.cids.size ≤ length q.cmds
  pub resident : (c : ℕ) → Resident q.cids c (get_or q.cmds c no_cmd)
  pub plain : (c : ℕ) → Plain q.cids.size c (get_or q.cmds c no_cmd)
  pub special : live q.conflict_cmds ≡ true → q.conflict_cmds.injected ≡ true
  pub counted : q.nr_cmds ≡ (count q.cmds + one_if (live q.conflict_cmds)) % 2 ^ 32

-- A slot that holds a command.
abbrev pub Holds : {R : Type 0} → Sq R → Slot → Type 0
Holds q s = live (read q s) ≡ true

module _ {R : Type 0} {q : Sq R} (v : IsSq q) where
  pub in_range : (c : ℕ) → Holds q (regular c) → c < length q.cmds
  in_range c h = let p = v.plain c h in omega (arith, p.0, v.slots)

  -- Rewriting a command in place, without freeing it, and with its identifier and kind.
  pub write-IsSq :
      (s : Slot) (x : Cmd)
      → Holds q s
      → is_init x.state ≡ is_init (read q s).state
      → x.cid ≡ (read q s).cid
      → x.injected ≡ (read q s).injected
      → IsSq (write q s x)
  write-IsSq (regular c) x h st ci inj = record {
    bitmap = v.bitmap;
    slots = rw (length-set q.cmds c x) v.slots;
    resident =
        set-all (Resident q.cids) q.cmds c x (in_range c h) (λ p. v.resident c p ∙ ap not (sym st))
          (λ d ne. v.resident d);
    plain =
        set-all (Plain q.cids.size) q.cmds c x (in_range c h)
          (λ l. let p = v.plain c h in (p.0, ci ∙ p.1, inj ∙ p.2)) (λ d ne. v.plain d);
    special = v.special;
    counted = ground (arith, v.counted, count-set q.cmds c x (in_range c h), st);
  }
  write-IsSq conflict x h st ci inj = record {
    bitmap = v.bitmap;
    slots = v.slots;
    resident = v.resident;
    plain = v.plain;
    special = λ l. inj ∙ v.special h;
    counted = ground (arith, v.counted, st);
  }
