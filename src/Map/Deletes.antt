-- ===== src/Map/Deletes.antt =====
-- `mulle_rbtree_remove` (src/mulle-rbtree.h) is a step on the contents.
use mulle_rbtree.Base.{
  ◌==◌, ◌+◌, ℕ, ◌<◌, ◌≤◌, Bool, ◌≡◌, ◌≢◌, refl, sym, ◌∙◌, ap, subst, some, List, ◌∷◌, ◌++◌, map,
  Ordering, arith,
}
use mulle_rbtree.Storage.{Ptr, Storage, IsPool}
use mulle_rbtree.Order.{IsComparison, Sorted}
use mulle_rbtree.RbTree.Value.{values, stored-same, values-payload}
use mulle_rbtree.RbTree.{RbTree, use_dirty, allow_duplicates}
use mulle_rbtree.RbTree.Rest.{Returns, returns, Returns-some}
use mulle_rbtree.RbTree.Navigate.Steps.{Position}
use mulle_rbtree.Map.{Callbacks, remove}
use mulle_rbtree.Map.Absent.{Position-inorder}
use mulle_rbtree.Map.Told.{remove-Told}
use mulle_rbtree.Map.Remove.{Taken, taken, absent, TakenOut}
use mulle_rbtree.Map.Freed.{has_option-options}
use mulle_rbtree.Map.Model.{remove_value, code, Lacks, take, miss, respond}
use mulle_rbtree.Shape.{Shape, one_if, count, inorder, size}
use mulle_rbtree.Map.Fresh.{occurs, occurs-inorder, occurs-append}
use mulle_rbtree.Shape.Refocus.{one_if-eq}
use mulle_rbtree.Map.Holds.{
  Performed, Performed-Answered, map-append, All-map, Holds, Answered, Position-values,
}

module _ {V S W : Type 0} (storage : Storage V S) (pool : IsPool storage)
    (callbacks : Callbacks V W) (law : IsComparison callbacks.comparison) (kept : V → V) where
  respond-remove_lem :
      (fuel : ℕ) (key : V) (s : RbTree V S) (w : W) (o : ℕ × RbTree V S × W)
      → remove storage callbacks fuel key (s, w) ≡ some o
      → respond storage callbacks fuel (remove_value key) (s, w) ≡ some (code o.0, o.1, o.2)
  unfolding respond
  respond-remove_lem fuel key s w o e = rw e refl

  -- the nodes that are left, and the removed one
  left_over :
      (t t' : Shape) (b p : Ptr) (ys zs : List Ptr)
      → inorder t ≡ ys ++ p ∷ zs
      → inorder t' ≡ ys ++ zs
      → ((b : Ptr) → count b t + 0 ≤ 1)
      → count b t' ≢ 0
      → (count b t ≢ 0) × (b ≢ p)
  left_over t t' b p ys zs e e' once m =
      let before_ = ap (occurs b) e in
      let after_ = ap (occurs b) e' in
      let total : count b t ≡ occurs b ys + (one_if (b == p) + occurs b zs) =
        sym (occurs-inorder b t) ∙ ap (occurs b) e ∙ occurs-append b ys (p ∷ zs) in
      let rest : count b t' ≡ occurs b ys + occurs b zs =
        sym (occurs-inorder b t') ∙ ap (occurs b) e' ∙ occurs-append b ys zs in
      (omega (arith, total, rest, m), λ q. m (omega (arith, total, rest, once b, one_if-eq b p q)))

  taken-Holds :
      (d r : Bool) (s : RbTree V S) (w : W) (xs : List V)
      (h : Holds storage pool callbacks law kept d r s xs) (p : Ptr) (ys zs : List Ptr)
      (o : RbTree V S × W)
      → Position s h.shape p ys zs
      → TakenOut storage callbacks s p w (ys ++ zs) o
      → Sorted callbacks.comparison (values o.0) (ys ++ zs)
      → Holds storage pool callbacks law kept d r o.0 (map (values s) ys ++ map (values s) zs)
  taken-Holds d r s w xs h p ys zs o at out sorted =
      let e = out.removed in
      record {
        shape = e.shape;
        tree = e.tree;
        red_black = e.red_black;
        sorted = subst (Sorted callbacks.comparison (values o.0)) (sym e.order) sorted;
        listed =
            ap (map (values o.0)) e.order
            ∙ ap (λ f. map f (ys ++ zs)) (values-payload s o.0 e.payload e.options)
            ∙ map-append (values s) ys zs;
        owned = λ b m.
            let (there, apart) =
              left_over h.shape e.shape b p ys zs (Position-inorder s h.shape p ys zs at) e.order
                h.tree.distinct m in
            subst (λ n. pool.live n b) (sym e.nodes)
              (pool.free_keeps s.nodes p b apart (h.owned b there));
        keeps = λ v.
            stored-same storage s o.0 v e.options
              (ap storage.element_size e.nodes ∙ pool.free_size s.nodes p)
            ∙ h.keeps v;
        dirty_flags = has_option-options use_dirty o.0 s e.options ∙ h.dirty_flags;
        duplicates = has_option-options allow_duplicates o.0 s e.options ∙ h.duplicates;
      }

  Taken-Performed :
      (d r : Bool) (key : V) (s : RbTree V S) (w : W) (xs : List V)
      (h : Holds storage pool callbacks law kept d r s xs) (o : ℕ × RbTree V S × W)
      → Taken storage callbacks law s h.shape key w o
      → Performed storage pool callbacks law kept d r xs w (remove_value key) (code o.0, o.1, o.2)
  Taken-Performed d r key s w xs h o (taken p ys zs at q out sorted c) = record {
    contents = map (values s) ys ++ map (values s) zs;
    holds = taken-Holds d r s w xs h p ys zs (o.1, o.2) at out sorted;
    step =
        rw (c, out.released)
          (take key (values s p) (map (values s) ys) (map (values s) zs)
            (Position-values s h.shape p ys zs xs at h.listed) q);
  }
  Taken-Performed d r key s w xs h o (absent lacks c same state) = record {
    contents = xs;
    holds = rw same h;
    step =
        rw (c, state)
          (miss key (
            subst (Lacks callbacks key) h.listed (
              All-map (λ v. callbacks.comparison key v ≢ Ordering.eq) (values s) (inorder h.shape)
                lacks)));
  }

  pub respond-remove :
      (fuel : ℕ) (d r : Bool) (key : V) (s : RbTree V S) (w : W) (xs : List V)
      → (h : Holds storage pool callbacks law kept d r s xs) → size h.shape < fuel
      → Returns
          (Answered storage pool callbacks law kept d r xs w (remove_value key))
          (respond storage callbacks fuel (remove_value key) (s, w))
  respond-remove fuel d r key s w xs h f =
      let (o, e, t) = Returns-some (
        remove-Told storage callbacks law fuel key s w h.shape r h.tree h.red_black h.sorted f
          h.dirty_flags) in
      rw (respond-remove_lem fuel key s w o e, t.code)
        (returns (
          Performed-Answered storage pool callbacks law kept d r xs w (remove_value key)
            (code t.before.0) t.before.1 o.1 t.before.2 o.2
            (Taken-Performed d r key s w xs h t.before t.holds) t.links t.tells))
