-- ===== src/Map/Absent.antt =====
-- `_mulle_rbtree_remove` (src/mulle-rbtree.c) of a value that is not in the tree.
use mulle_rbtree.Base.{ℕ, ◌<◌, ◌≡◌, ◌≢◌, refl, sym, ◌∙◌, ap, subst, some, List, ◌∷◌, ◌++◌, Ordering}
use mulle_rbtree.Storage.{Ptr, nil, Storage}
use mulle_rbtree.Order.{All, All-split, IsComparison, Sorted}
use mulle_rbtree.RbTree.Value.{values}
use mulle_rbtree.RbTree.{RbTree}
use mulle_rbtree.RbTree.Rest.{Returns-some}
use mulle_rbtree.RbTree.Navigate.Steps.{Position}
use mulle_rbtree.RbTree.Find.{find_node}
use mulle_rbtree.RbTree.Find.Exact.{Found, hit, miss, find_node-Found}
use mulle_rbtree.Map.{Callbacks, remove, enoent}
use mulle_rbtree.Shape.{Shape, node, before, after, inorder, size}
use mulle_rbtree.Shape.Balance.{inorder-plug, list_laws}
use mulle_rbtree.Shape.Zipper.{IsTree}

module _ {V S : Type 0} (s : RbTree V S) (t : Shape) where
  -- the nodes of the tree around one of them
  pub Position-inorder :
      (p : Ptr) (ys zs : List Ptr) → Position s t p ys zs → inorder t ≡ ys ++ p ∷ zs
  Position-inorder p ys zs h =
      let whole = node h.lower h.color p h.upper in
      let e : before h.context ++ inorder whole ++ after h.context
          ≡ (before h.context ++ inorder h.lower) ++ p ∷ (inorder h.upper ++ after h.context) =
        simp list_laws in
      ap inorder (sym h.whole)
      ∙ inorder-plug h.context whole
      ∙ e
      ∙ ap (λ ys. ys ++ p ∷ (inorder h.upper ++ after h.context)) h.behind
      ∙ ap (λ zs. ys ++ p ∷ zs) h.ahead

module _ {V S W : Type 0} (storage : Storage V S) (callbacks : Callbacks V W)
    (law : IsComparison callbacks.comparison) (fuel : ℕ) (key : V) (s : RbTree V S) (w : W)
    (t : Shape)
    (absent : All (λ q. callbacks.comparison key (values s q) ≢ Ordering.eq) (inorder t)) where
  Found-nil : (p : Ptr) → Found callbacks.comparison law key s t p → p ≡ nil
  Found-nil p (hit {ys} {zs} at e) =
      let parts =
        All-split (λ q. callbacks.comparison key (values s q) ≢ Ordering.eq) ys zs p
          (subst (All (λ q. callbacks.comparison key (values s q) ≢ Ordering.eq))
            (Position-inorder s t p ys zs at) absent) in
      absurd (parts.1 e)
  Found-nil p (miss e h) = e

  remove-nil :
      find_node callbacks.comparison fuel key s ≡ some nil
      → remove storage callbacks fuel key (s, w) ≡ some (enoent, s, w)
  unfolding remove
  remove-nil e = rw e refl

  -- Removing a value from a sorted tree none of whose nodes has an equal value, with more fuel
  -- than nodes, results in ENOENT and leaves the tree and the state of the callbacks as they are.
  pub remove-enoent :
      IsTree s t
      → Sorted callbacks.comparison (values s) (inorder t)
      → size t < fuel
      → remove storage callbacks fuel key (s, w) ≡ some (enoent, s, w)
  remove-enoent h sorted f =
      let (p, e, found) =
        Returns-some (find_node-Found callbacks.comparison law key s fuel t h sorted f) in
      remove-nil (e ∙ ap some (Found-nil p found))
