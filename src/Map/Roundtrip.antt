-- ===== src/Map/Roundtrip.antt =====
-- A value that is added to a tree (src/mulle-rbtree.h) is found, and removing it undoes the addition.
use mulle_rbtree.Base.{
  false, true, ◌&&◌, ℕ, ◌+◌, ◌<◌, Bool, ◌≡◌, ◌≢◌, refl, sym, ◌∙◌, ap, subst, inl, inr, some, List,
  [], ◌∷◌, ◌++◌, length, Ordering, arith,
}
use mulle_rbtree.Storage.{Storage, IsPool}
use mulle_rbtree.Order.{All, All-part, All-split, IsComparison, sign}
use mulle_rbtree.Sides.{lower, here, upper, side}
use mulle_rbtree.RbTree.{RbTree}
use mulle_rbtree.RbTree.Rest.{Returns, Returns-mono}
use mulle_rbtree.Map.{Callbacks}
use mulle_rbtree.Map.Model.{
  Request, add_value, remove_value, find_value, Response, code, found, Lacks, Step, accept, reject,
  take, miss, hit, lack, Steps, stop, step, reports, session,
}
use mulle_rbtree.Map.Reports.{Tells}
use mulle_rbtree.Map.Holds.{Holds}
use mulle_rbtree.Map.Session.{session-Played}

-- equal to itself
comparison_refl :
    {V : Type 0} (comp : V → V → Ordering) → IsComparison comp → (v : V) → comp v v ≡ Ordering.eq
comparison_refl comp law v = elim (sign (comp v v)) [
  | inl e ↦ e
  | inr (inl e) ↦ absurd (ground (arith, e, law.gt_of_lt v v e))
  | inr (inr e) ↦ absurd (ground (arith, e, law.lt_of_gt v v e))
]

module _ {V W : Type 0} (callbacks : Callbacks V W) (kept : V → V)
    (law : IsComparison callbacks.comparison) where
  -- the one value that is equal to a key that the other values lack
  only_equal :
      (key v u : V) (ys zs ys' zs' : List V)
      → Lacks callbacks key (ys ++ zs)
      → ys ++ v ∷ zs ≡ ys' ++ u ∷ zs'
      → callbacks.comparison key u ≡ Ordering.eq
      → (u ≡ v) × (ys' ++ zs' ≡ ys ++ zs)
  only_equal key v u ys zs ys' zs' lacks e q =
      let different : V → Type 0 = λ u. callbacks.comparison key u ≢ Ordering.eq in
      let parts = All-part different ys zs lacks in
      elim (side ys zs v u ys' zs' e) [
        | lower ws f g ↦
            absurd ((All-split different ys' ws u (subst (All different) f parts.0)).1 q)
        | here a f g ↦ (sym a, ap (λ us. us ++ zs') (sym f) ∙ ap (λ us. ys ++ us) (sym g))
        | upper ws f g ↦
            absurd ((All-split different ws zs' u (subst (All different) f parts.1)).1 q)
      ]

  module _ (d : Bool) (key v : V) (ys zs : List V) (lacks : Lacks callbacks key (ys ++ zs))
      (equal : callbacks.comparison key v ≡ Ordering.eq) where
    find_one :
        {xs ys' : List V} {w w' : W} {a : Response V}
        → xs ≡ ys ++ v ∷ zs
        → Step callbacks kept d xs w (find_value key) a ys' w'
        → (a ≡ found (some v)) × (ys' ≡ xs) × (w' ≡ w)
    find_one e (hit key u ls rs f q) = (
      ap (λ u. found (some u)) (only_equal key v u ys zs ls rs lacks (sym e ∙ f) q).0,
      refl,
      refl,
    )
    find_one {xs} e (lack key h) =
        let there = subst (Lacks callbacks key) e h in
        absurd ((All-split (λ u. callbacks.comparison key u ≢ Ordering.eq) ys zs v there).1 equal)

    take_one :
        {xs ys' : List V} {w w' : W} {a : Response V}
        → xs ≡ ys ++ v ∷ zs
        → Step callbacks kept d xs w (remove_value key) a ys' w'
        → (a ≡ code 0) × (ys' ≡ ys ++ zs) × (w' ≡ callbacks.release v w)
    take_one {w} e (take key u ls rs f q) =
        let same = only_equal key v u ys zs ls rs lacks (sym e ∙ f) q in
        (refl, same.1, ap (λ u. callbacks.release u w) same.0)
    take_one e (miss key h) =
        let there = subst (Lacks callbacks key) e h in
        absurd ((All-split (λ u. callbacks.comparison key u ≢ Ordering.eq) ys zs v there).1 equal)

  abbrev pub there_and_back : V → W → List (Request V)
  there_and_back v w =
      let u = (callbacks.retain v w).0 in add_value v ∷ find_value u ∷ remove_value u ∷ []

  Tells-false : (r : Bool) (w w' : W) → r ≡ false → Tells callbacks r w w' → w' ≡ w
  Tells-false false w w' e t = t
  Tells-false true w w' e t = absurd (ground (arith, e))

  Steps-back :
      {d r : Bool} {xs zs : List V} {v : V} {w w' : W} {answers : List (Response V)}
      → kept (callbacks.retain v w).0 ≡ (callbacks.retain v w).0
      → Lacks callbacks (callbacks.retain v w).0 xs
      → Steps callbacks kept d r xs w (there_and_back v w) answers zs w'
      → (answers ≡ code 0 ∷ found (some (callbacks.retain v w).0) ∷ code 0 ∷ [])
        × (zs ≡ xs)
        × (r ≡ false → w' ≡ callbacks.release (callbacks.retain v w).0 (callbacks.retain v w).1)
  Steps-back {d} {r} {w} whole lacks
        (step
          (accept v ys zs e low high)
          t
          (step f t' (step {a = third} {w₁ = wa} {w₂ = wb} out t'' stop))) =
      let u = (callbacks.retain v w).0 in
      let others = subst (Lacks callbacks u) e lacks in
      let self = comparison_refl callbacks.comparison law u in
      let a = find_one d u u ys zs others self (ap (λ x. ys ++ x ∷ zs) whole) f in
      let b = take_one d u u ys zs others self (a.1 ∙ ap (λ x. ys ++ x ∷ zs) whole) out in
      let last =
        subst (λ x. Tells callbacks (reports callbacks (remove_value u) x && r) wa wb) b.0 t'' in
      (
        ap (λ x. code 0 ∷ x ∷ third ∷ []) a.0 ∙ ap (λ x. code 0 ∷ found (some u) ∷ x ∷ []) b.0,
        b.1 ∙ sym e,
        λ n.
            Tells-false r wa wb n last
            ∙ b.2
            ∙ ap (callbacks.release u) (t' ∙ a.2 ∙ Tells-false r _ _ n t),
      )
  Steps-back whole lacks (step (reject v u ys zs n e q) t rest) =
      let there = subst (Lacks callbacks _) e lacks in
      absurd (
        (All-split (λ u. callbacks.comparison _ u ≢ Ordering.eq) ys zs u there).1
          (ap (λ x. callbacks.comparison x u) (sym whole) ∙ q))

module _ {V S W : Type 0} (storage : Storage V S) (pool : IsPool storage)
    (callbacks : Callbacks V W) (law : IsComparison callbacks.comparison) (kept : V → V) where
  -- the results of the three calls, and what is left of them
  pub record Undone (d r : Bool) (v : V) (w : W) (xs : List V)
      (o : List (Response V) × RbTree V S × W) : Type 0 where
    pub answers : o.0 ≡ code 0 ∷ found (some (callbacks.retain v w).0) ∷ code 0 ∷ []
    pub holds : Holds storage pool callbacks law kept d r o.1 xs
    pub released :
        r ≡ false → o.2 ≡ callbacks.release (callbacks.retain v w).0 (callbacks.retain v w).1

  -- Adding a value, finding it and removing it, in a tree that holds values none of which is equal
  -- to it and that keeps the whole of the retained value, with a pool that keeps its promises and
  -- with enough fuel: the addition and the removal result in 0, the search in the value as it was
  -- retained, and the tree then holds the values that it held before; without dirty flags, the
  -- state of the callbacks is that after one retain and one release.
  pub session-Undone :
      (fuel : ℕ) (d r : Bool) (v : V) (s : RbTree V S) (w : W) (xs : List V)
      → Holds storage pool callbacks law kept d r s xs
      → kept (callbacks.retain v w).0 ≡ (callbacks.retain v w).0
      → Lacks callbacks (callbacks.retain v w).0 xs
      → length xs + 3 < fuel
      → Returns
          (Undone d r v w xs)
          (session storage callbacks fuel (there_and_back callbacks kept law v w) (s, w))
  session-Undone fuel d r v s w xs h whole lacks f =
      Returns-mono
        (session-Played storage pool callbacks law kept fuel d r
          (there_and_back callbacks kept law v w) s w xs h f)
        (λ o a.
          let back = Steps-back callbacks kept law whole lacks a.steps in
          record {
            answers = back.0;
            holds = subst (Holds storage pool callbacks law kept d r o.1) back.1 a.holds;
            released = back.2;
          })
