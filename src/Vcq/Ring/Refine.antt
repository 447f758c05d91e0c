-- ===== src/Vcq/Ring/Refine.antt =====
-- A ring holds a queue of entries, oldest first: `unvmed_vcq_push` adds at its end and
-- `unvmed_vcq_pop` takes from its front.
use native.Mathlib.Decide.{ℕ_discrete}
use unvme_cli.Prelude.{
  ℕ, zero, suc, ◌+◌, ◌≤◌, ◌<◌, none, some, List, [], ◌∷◌, ◌++◌, ◌≡◌, ◌≢◌, refl, arith, ap, ap₂, ◌∙◌,
  length, get_or, set, get_elem?-eq-get_or, get_or-set_self, get_or-set_ne, eagain, enoent,
}
use unvme_cli.Vcq.Ring.{Cqe, Vcqe, Vcq, push, pop}
use unvme_cli.Vcq.Ring.Inv.{IsRing, turn, gap, mod-turn, after-turn, full_lem, gap-turn, gap-pos}

abbrev blank : Vcqe
blank = record { cqe = record { sqid = 0; cid = 0; sfp = 0 }; bdf = 0; injected = 0 }

-- The `k` entries from slot `i` on.
unfoldable pub walk : List Vcqe → ℕ → ℕ → ℕ → List Vcqe
walk slots n zero i = []
walk slots n (suc k) i = get_or slots i blank ∷ walk slots n k (turn n i)

-- What a ring holds.
unfoldable pub contents : Vcq → List Vcqe
contents q = walk q.slots q.qsize (gap q.qsize q.head q.tail) q.head

length-walk : (slots : List Vcqe) (n k i : ℕ) → length (walk slots n k i) ≡ k
unfolding walk
length-walk slots n zero i = refl
length-walk slots n (suc k) i = ap suc (length-walk slots n k (turn n i))

-- A write at least `k` steps ahead is not seen by the walk.
walk-set :
    (slots : List Vcqe) (n k i j : ℕ) (v : Vcqe)
    → i < n
    → j < n
    → k ≤ gap n i j
    → walk (set slots j v) n k i ≡ walk slots n k i
unfolding walk
walk-set slots n zero i j v hi hj h = refl
walk-set slots n (suc k) i j v hi hj h =
    ap₂ ◌∷◌ (get_or-set_ne slots j i v blank (ground arith))
      (walk-set slots n k (turn n i) j v (ground arith) hj (ground arith))

-- A walk of one more step ends at the slot that it leads to.
walk-snoc :
    (slots : List Vcqe) (n k i j : ℕ)
    → i < n
    → j < n
    → gap n i j ≡ k
    → walk slots n (suc k) i ≡ walk slots n k i ++ get_or slots j blank ∷ []
unfolding walk
walk-snoc slots n zero i j hi hj h = rw e refl
  where
    e : i ≡ j
    e = ground arith
walk-snoc slots n (suc k) i j hi hj h =
    ap (◌∷◌ (get_or slots i blank))
      (walk-snoc slots n k (turn n i) j (ground arith) hj (ground arith))

-- The capacity of a ring is one entry less than its slots.
pub length-contents : {q : Vcq} → IsRing q → length (contents q) < q.qsize
unfolding contents
length-contents {q} v =
    ground (arith, length-walk q.slots q.qsize (gap q.qsize q.head q.tail) q.head)

walk-push :
    (slots : List Vcqe) (n i j : ℕ) (v : Vcqe)
    → i < n
    → j < n
    → length slots ≡ n
    → turn n j ≢ i
    → walk (set slots j v) n (gap n i (turn n j)) i ≡ walk slots n (gap n i j) i ++ v ∷ []
walk-push slots n i j v hi hj hl ne = rw (gap-turn n i j hi hj ne) (
    walk-snoc (set slots j v) n (gap n i j) i j hi hj refl
    ∙ ap₂ (λ xs x. xs ++ x ∷ []) (walk-set slots n (gap n i j) i j v hi hj (omega arith))
        (get_or-set_self slots j v blank (omega arith)))

walk-pop :
    (slots : List Vcqe) (n i j : ℕ)
    → i < n
    → j < n
    → i ≢ j
    → walk slots n (gap n i j) i
      ≡ get_or slots i blank ∷ walk slots n (gap n (turn n i) j) (turn n i)
unfolding walk
walk-pop slots n i j hi hj ne = rw (gap-pos n i j hi hj ne)

module _ {q : Vcq} (u_bdf : ℕ) (cqe : Cqe) (injected : ℕ) (v : IsRing q) where
  abbrev pub stored : Vcqe
  stored = record { cqe = cqe; bdf = u_bdf; injected = injected }

  push-full : gap q.qsize q.head q.tail + 1 ≡ q.qsize → push q u_bdf cqe injected ≡ (q, eagain)
  unfolding push
  push-full e = ground (arith, mod-turn q.qsize q.tail, full_lem q.qsize q.head q.tail)

  push-room :
      turn q.qsize q.tail ≢ q.head
      → push q u_bdf cqe injected
        ≡ (record q { slots = set q.slots q.tail stored; tail = turn q.qsize q.tail }, 0)
  unfolding push
  push-room ne = ground (arith, mod-turn q.qsize q.tail, after-turn q.qsize q.tail)

  -- `__unvmed_vcq_push` of a well-formed ring returns -EAGAIN exactly when the ring holds `qsize -
  -- 1` entries, and then changes nothing. Otherwise it returns 0, and the new entry stands behind
  -- the others.
  pub push_refines :
      let (q', ret) = push q u_bdf cqe injected in
      (length (contents q) + 1 ≡ q.qsize → (q' ≡ q) × (ret ≡ eagain))
      × (length (contents q) + 1 ≢ q.qsize → (contents q' ≡ contents q ++ stored ∷ []) × (ret ≡ 0))
  unfolding contents
  push_refines = rw (length-walk q.slots q.qsize (gap q.qsize q.head q.tail) q.head) (
    λ full. rw (push-full full) (refl, refl),
    λ room. rw (push-room (apart room)) (more (apart room), refl),
  )
    where
      apart : gap q.qsize q.head q.tail + 1 ≢ q.qsize → turn q.qsize q.tail ≢ q.head
      apart room = ground (arith, full_lem q.qsize q.head q.tail)

      more :
          turn q.qsize q.tail ≢ q.head
          → walk
              (set q.slots q.tail stored)
              q.qsize
              (gap q.qsize q.head (turn q.qsize q.tail))
              q.head
            ≡ walk q.slots q.qsize (gap q.qsize q.head q.tail) q.head ++ stored ∷ []
      more ne = walk-push q.slots q.qsize q.head q.tail stored v.head_in v.tail_in v.allocated ne

-- The ring that a successful `unvmed_vcq_pop` leaves.
abbrev pub popped : Vcq → Vcq
popped q = record q { head = turn q.qsize q.head }

pop-empty : (q : Vcq) → q.head ≡ q.tail → pop (some q) ≡ (some q, none, enoent)
unfolding pop
pop-empty q e = ground arith

pop-some :
    {q : Vcq}
    → IsRing q
    → q.head ≢ q.tail
    → pop (some q) ≡ (some (popped q), some (get_or q.slots q.head blank), 0)
unfolding pop
pop-some {q} v ne =
    ground (arith, after-turn q.qsize q.head, get_elem?-eq-get_or q.slots q.head blank)

pub popped-IsRing : {q : Vcq} → IsRing q → IsRing (popped q)
popped-IsRing v = ground arith

contents-popped :
    {q : Vcq}
    → IsRing q
    → q.head ≢ q.tail
    → contents q ≡ get_or q.slots q.head blank ∷ contents (popped q)
unfolding contents
contents-popped {q} v ne = walk-pop q.slots q.qsize q.head q.tail v.head_in v.tail_in ne

contents-empty : (q : Vcq) → q.head ≡ q.tail → contents q ≡ []
unfolding contents walk
contents-empty q e = let z : gap q.qsize q.head q.tail ≡ 0 = ground arith in rw z refl

-- `unvmed_vcq_pop` of a well-formed ring returns -ENOENT exactly if the ring is empty, and then
-- changes nothing. Otherwise it returns 0 with the oldest entry, and the ring holds the rest and
-- is well-formed.
pub pop_refines :
    {q : Vcq}
    → IsRing q
    → (contents q ≡ [] → pop (some q) ≡ (some q, none, enoent))
      × ((x : Vcqe) (xs : List Vcqe)
          → contents q ≡ x ∷ xs
          → (q' : Vcq) × (pop (some q) ≡ (some q', some x, 0)) × (contents q' ≡ xs) × IsRing q')
pop_refines {q} v = elim (ℕ_discrete q.head q.tail) [
  | yes e ↦ (λ _. pop-empty q e, λ x xs c. cc (contents-empty q e))
  | no ne ↦ (
    λ c. cc (contents-popped v ne),
    λ x xs c. (
      popped q,
      ground (arith, pop-some v ne, contents-popped v ne),
      ground (arith, contents-popped v ne),
      popped-IsRing v,
    ),
  )
]
