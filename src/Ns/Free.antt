-- ===== src/Ns/Free.antt =====
-- `unvmed_free_ns_all`: the last reference that a controller gives up.
use unvme_cli.Prelude.{
  ℕ, ◌-◌, false, List, [], ◌∷◌, ◌++◌, ◌≡◌, ◌≢◌, refl, sym, ap, subst, ◌∙◌, arith, All, All-map,
  All-both, All-append, append_assoc, ◌==◌, if◌then◌else◌, Bool-cases, inl, inr, dec32,
}
use unvme_cli.Vcq.Pool.{store}
use unvme_cli.Ns.{Ns, Nss, ns_put, list_del, free_ns, put_each, free_ns_all, set_ns}
use unvme_cli.Ns.Inv.{Unique, Held, IsNss, with_refs, store_at}
use unvme_cli.Ns.Init.{kept_elsewhere}

-- The namespaces with more than one reference, and those with one before what has been freed.
unfoldable pub remaining : (ℕ → Ns) → List ℕ → List ℕ
remaining heap [] = []
remaining heap (p ∷ ps) = if (heap p).refcnt == 1 then remaining heap ps else p ∷ remaining heap ps

unfoldable pub dropped : (ℕ → Ns) → List ℕ → List ℕ → List ℕ
dropped heap [] done = done
dropped heap (p ∷ ps) done = dropped heap ps (if (heap p).refcnt == 1 then p ∷ done else done)

abbrev lowered : Ns → Ns
lowered x = with_refs (x.refcnt - 1) x

abbrev Agree : (ℕ → Ns) → (ℕ → Ns) → List ℕ → Type 0
Agree heap heap' ps = All (λ q. heap' q ≡ heap q) ps

remaining-Agree :
    (heap heap' : ℕ → Ns) (ps : List ℕ)
    → Agree heap heap' ps
    → remaining heap' ps ≡ remaining heap ps
unfolding remaining
remaining-Agree heap heap' [] a = refl
remaining-Agree heap heap' (p ∷ ps) a = rw (a.0, remaining-Agree heap heap' ps a.1) refl

dropped-Agree :
    (heap heap' : ℕ → Ns) (ps done : List ℕ)
    → Agree heap heap' ps
    → dropped heap' ps done ≡ dropped heap ps done
unfolding dropped
dropped-Agree heap heap' [] done a = refl
dropped-Agree heap heap' (p ∷ ps) done a =
    rw a.0 (dropped-Agree heap heap' ps (if (heap p).refcnt == 1 then p ∷ done else done) a.1)

list_del_first :
    (p : ℕ) (pre ps : List ℕ) → All (λ q. q ≢ p) pre → list_del p (pre ++ p ∷ ps) ≡ pre ++ ps
unfolding list_del
list_del_first p [] ps h = ground arith
list_del_first p (x ∷ pre) ps h =
    let other : (x == p) ≡ false = ground arith in
    rw other (ap (λ (l : List ℕ). x ∷ l) (list_del_first p pre ps h.1))

-- One step: the last reference frees, another one only counts.
after_put : Nss → ℕ → Nss
after_put u p =
    let u' = set_ns u p (lowered (u.heap p)) in if (u.heap p).refcnt == 1 then free_ns u' p else u'

ns_put-Held : (u : Nss) (p : ℕ) → Held (u.heap p) → (ns_put u p).0 ≡ after_put u p
unfolding ns_put after_put
ns_put-Held u p h =
    let down : dec32 (u.heap p).refcnt ≡ (u.heap p).refcnt - 1 = omega arith in
    let same : ((u.heap p).refcnt - 1 == 0) ≡ ((u.heap p).refcnt == 1) = ground arith in
    rw (down, same) refl

-- Addresses that stand once.
abbrev Once : List ℕ → Type 0
Once [] = Unit {0}
Once (p ∷ ps) = All (λ q. q ≢ p) ps × Once ps

Unique-Once : (heap : ℕ → Ns) (ps : List ℕ) → Unique heap ps → Once ps
Unique-Once heap [] h = tt
Unique-Once heap (p ∷ ps) h = (
  All-map (λ (q : ℕ). (heap q).nsid ≢ (heap p).nsid) (λ (q : ℕ). q ≢ p)
      (λ q n e. n (ap (λ (t : ℕ). (heap t).nsid) e)) ps h.0,
  Unique-Once heap ps h.1,
)

after_put_heap : (u : Nss) (p : ℕ) → (after_put u p).heap ≡ store u.heap p (lowered (u.heap p))
unfolding after_put free_ns
after_put_heap u p = elim (Bool-cases ((u.heap p).refcnt == 1)) [
  | inl e ↦ rw e refl
  | inr e ↦ rw e refl
]

after_put-Agree :
    (u : Nss) (p : ℕ) (ps : List ℕ) → All (λ q. q ≢ p) ps → Agree u.heap (after_put u p).heap ps
after_put-Agree u p ps h = rw (after_put_heap u p) (
    All-map (λ (q : ℕ). q ≢ p) (λ (q : ℕ). store u.heap p (lowered (u.heap p)) q ≡ u.heap q)
      (λ q n. kept_elsewhere u.heap p _ n) ps h)

after_put_list :
    (u : Nss) (p : ℕ) (pre ps : List ℕ)
    → u.list ≡ pre ++ p ∷ ps
    → All (λ q. q ≢ p) pre
    → (after_put u p).list ≡ (if (u.heap p).refcnt == 1 then pre ++ ps else pre ++ p ∷ ps)
unfolding after_put free_ns
after_put_list u p pre ps e h = elim (Bool-cases ((u.heap p).refcnt == 1)) [
  | inl last ↦ rw (last, e) (list_del_first p pre ps h)
  | inr more ↦ rw (more, e) refl
]

after_put_freed :
    (u : Nss) (p : ℕ)
    → (after_put u p).freed ≡ (if (u.heap p).refcnt == 1 then p ∷ u.freed else u.freed)
unfolding after_put free_ns
after_put_freed u p = elim (Bool-cases ((u.heap p).refcnt == 1)) [
  | inl e ↦ rw e refl
  | inr e ↦ rw e refl
]

-- What has come of a sweep over `ps`: the list, what was freed, and the namespaces.
abbrev Swept : Nss → Nss → List ℕ → List ℕ → Type 0
Swept u u' pre ps =
    (u'.list ≡ pre ++ remaining u.heap ps)
    × (u'.freed ≡ dropped u.heap ps u.freed)
    × All (λ p. u'.heap p ≡ lowered (u.heap p)) ps
    × ((q : ℕ) → All (λ p. p ≢ q) ps → u'.heap q ≡ u.heap q)

apart_more :
    (p : ℕ) (pre ps : List ℕ)
    → All (λ q. q ≢ p) ps
    → All (λ x. All (λ q. q ≢ x) pre) ps
    → All (λ x. All (λ q. q ≢ x) (pre ++ p ∷ [])) ps
apart_more p pre ps far apart =
    All-map (λ (x : ℕ). (x ≢ p) × All (λ q. q ≢ x) pre)
      (λ (x : ℕ). All (λ q. q ≢ x) (pre ++ p ∷ []))
      (λ x h. All-append (λ (q : ℕ). q ≢ x) pre (p ∷ []) h.1 ((λ e. h.0 (sym e)), tt)) ps
      (All-both (λ (x : ℕ). x ≢ p) (λ (x : ℕ). All (λ q. q ≢ x) pre) ps far apart)

apart_nil : (ps : List ℕ) → All (λ x. All (λ (q : ℕ). q ≢ x) []) ps
apart_nil [] = tt
apart_nil (p ∷ ps) = (tt, apart_nil ps)

-- One namespace more in front of a sweep.
Swept-after_put :
    (u v : Nss) (p : ℕ) (pre pre' ps : List ℕ)
    → All (λ q. q ≢ p) ps
    → pre' ++ remaining u.heap ps ≡ pre ++ remaining u.heap (p ∷ ps)
    → Swept (after_put u p) v pre' ps
    → Swept u v pre (p ∷ ps)
unfolding dropped
Swept-after_put u v p pre pre' ps apart lists r =
    let t : Nss = after_put u p in
    let same : Agree u.heap t.heap ps = after_put-Agree u p ps apart in
    let here : t.heap p ≡ lowered (u.heap p) =
      ap (λ (f : ℕ → Ns). f p) (after_put_heap u p) ∙ store_at u.heap p (lowered (u.heap p)) in
    (
      r.0 ∙ ap (λ (l : List ℕ). pre' ++ l) (remaining-Agree u.heap t.heap ps same) ∙ lists,
      r.1
          ∙ dropped-Agree u.heap t.heap ps t.freed same
          ∙ ap (dropped u.heap ps) (after_put_freed u p),
      (
        r.3 p apart ∙ here,
        All-map (λ (q : ℕ). (v.heap q ≡ lowered (t.heap q)) × (t.heap q ≡ u.heap q))
            (λ (q : ℕ). v.heap q ≡ lowered (u.heap q)) (λ q e. e.0 ∙ ap lowered e.1) ps
            (All-both (λ (q : ℕ). v.heap q ≡ lowered (t.heap q)) (λ (q : ℕ). t.heap q ≡ u.heap q) ps
              r.2 same),
      ),
      λ q n.
          r.3 q n.1
          ∙ ap (λ (f : ℕ → Ns). f q) (after_put_heap u p)
          ∙ kept_elsewhere u.heap p _ (λ e. n.0 (sym e)),
    )

put_each_lem :
    (u : Nss) (pre ps : List ℕ)
    → u.list ≡ pre ++ ps
    → All (λ p. All (λ q. q ≢ p) pre) ps
    → Once ps
    → All (λ p. Held (u.heap p)) ps
    → Swept u (put_each ps u) pre ps
unfolding put_each remaining dropped
put_each_lem u pre [] e apart once held = (e, refl, tt, λ q n. refl)
put_each_lem u pre (p ∷ ps) e apart once held =
    subst (λ (t : Nss). Swept u (put_each ps t) pre (p ∷ ps)) (sym (ns_put-Held u p held.0))
      (elim (Bool-cases ((u.heap p).refcnt == 1)) [
        | inl last ↦ Swept-after_put u (put_each ps t) p pre pre ps once.0 (rw last refl) (
            put_each_lem t pre ps (after_put_list u p pre ps e apart.0 ∙ rw last refl) apart.1
              once.1 held')
        | inr more ↦
            Swept-after_put u (put_each ps t) p pre (pre ++ p ∷ []) ps once.0
              (rw more (append_assoc pre (p ∷ []) (remaining u.heap ps)))
              (put_each_lem t (pre ++ p ∷ []) ps
                (after_put_list u p pre ps e apart.0 ∙ rw more (sym (append_assoc pre (p ∷ []) ps)))
                (apart_more p pre ps once.0 apart.1) once.1 held')
      ])
  where
    t : Nss
    t = after_put u p

    held' : All (λ q. Held (t.heap q)) ps
    held' =
        All-map (λ (q : ℕ). Held (u.heap q) × (t.heap q ≡ u.heap q)) (λ (q : ℕ). Held (t.heap q))
          (λ q h. subst Held (sym h.1) h.0) ps
          (All-both (λ (q : ℕ). Held (u.heap q)) (λ (q : ℕ). t.heap q ≡ u.heap q) ps held.1
            (after_put-Agree u p ps once.0))

-- When the last owner lets go of a well-formed list, exactly the namespaces that nobody else holds
-- are freed, each once, the others stay in order, and each namespace has lost one reference.
pub free_ns_all_lem :
    (u : Nss)
    → IsNss u
    → ((free_ns_all u).list ≡ remaining u.heap u.list)
      × ((free_ns_all u).freed ≡ dropped u.heap u.list u.freed)
      × All (λ p. (free_ns_all u).heap p ≡ with_refs ((u.heap p).refcnt - 1) (u.heap p)) u.list
unfolding free_ns_all
free_ns_all_lem u h =
    let r =
      put_each_lem u [] u.list refl (apart_nil u.list) (Unique-Once u.heap u.list h.unique)
        h.held in
    (r.0, r.1, r.2)
