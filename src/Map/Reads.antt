-- ===== src/Map/Reads.antt =====
-- The two searches of a tree of values (src/mulle-rbtree.h) are steps on its contents.
use mulle_rbtree.Base.{
  ℕ, ◌<◌, Bool, false, ◌≡◌, ◌≢◌, refl, subst, Option, some, List, map, Ordering,
}
use mulle_rbtree.Storage.{Storage, IsPool}
use mulle_rbtree.Order.{All, IsComparison, Low}
use mulle_rbtree.RbTree.Value.{values}
use mulle_rbtree.RbTree.{RbTree}
use mulle_rbtree.RbTree.Rest.{Returns, returns, Returns-some}
use mulle_rbtree.Map.{Callbacks, find, find_equal_or_greater}
use mulle_rbtree.Map.Values.{
  FoundValue, hit_value, miss_value, find-FoundValue, ValueAtLeast, equal_value, greater_value,
  no_value, find_equal_or_greater-ValueAtLeast,
}
use mulle_rbtree.Map.Model.{
  find_value, find_value_at_least, found, Lacks, Step, hit, lack, equal_one, next_one, past_all,
  respond,
}
use mulle_rbtree.Shape.{Shape, inorder, size}
use mulle_rbtree.Map.Holds.{All-map, Holds, Answered, Position-values}

module _ {V S W : Type 0} (storage : Storage V S) (pool : IsPool storage)
    (callbacks : Callbacks V W) (law : IsComparison callbacks.comparison) (kept : V → V) where
  respond-find_lem :
      (fuel : ℕ) (key : V) (s : RbTree V S) (w : W) (o : Option V)
      → find callbacks fuel key s ≡ some o
      → respond storage callbacks fuel (find_value key) (s, w) ≡ some (found o, s, w)
  unfolding respond
  respond-find_lem fuel key s w o e = rw e refl

  FoundValue-Step :
      (d : Bool) (key : V) (s : RbTree V S) (w : W) (xs : List V) (t : Shape) (o : Option V)
      → map (values s) (inorder t) ≡ xs
      → FoundValue callbacks law key s t o
      → Step callbacks kept d xs w (find_value key) (found o) xs w
  FoundValue-Step d key s w xs t o e (hit_value {p} {ys} {zs} at q n) = rw n (
      hit key (values s p) (map (values s) ys) (map (values s) zs)
        (Position-values s t p ys zs xs at e) q)
  FoundValue-Step d key s w xs t o e (miss_value n h) = rw n (
      lack key (
        subst (Lacks callbacks key) e
          (All-map (λ v. callbacks.comparison key v ≢ Ordering.eq) (values s) (inorder t) h)))

  pub respond-find :
      (fuel : ℕ) (d r : Bool) (key : V) (s : RbTree V S) (w : W) (xs : List V)
      → (h : Holds storage pool callbacks law kept d r s xs) → size h.shape < fuel
      → Returns
          (Answered storage pool callbacks law kept d r xs w (find_value key))
          (respond storage callbacks fuel (find_value key) (s, w))
  respond-find fuel d r key s w xs h f =
      let (o, e, u) =
        Returns-some (find-FoundValue callbacks law key s h.shape fuel h.tree h.sorted f) in
      rw (respond-find_lem fuel key s w o e) (
        returns (record {
          contents = xs;
          holds = h;
          unreported = w;
          tells = refl;
          step = FoundValue-Step d key s w xs h.shape o h.listed u;
        }))

  respond-at_least_lem :
      (fuel : ℕ) (key : V) (s : RbTree V S) (w : W) (o : Option V)
      → find_equal_or_greater callbacks fuel key s ≡ some o
      → respond storage callbacks fuel (find_value_at_least key) (s, w) ≡ some (found o, s, w)
  unfolding respond
  respond-at_least_lem fuel key s w o e = rw e refl

  ValueAtLeast-Step :
      (d : Bool) (key : V) (s : RbTree V S) (w : W) (xs : List V) (t : Shape) (o : Option V)
      → map (values s) (inorder t) ≡ xs
      → ValueAtLeast callbacks law key s t o
      → Step callbacks kept d xs w (find_value_at_least key) (found o) xs w
  ValueAtLeast-Step d key s w xs t o e (equal_value {p} {ys} {zs} at q n) = rw n (
      equal_one key (values s p) (map (values s) ys) (map (values s) zs)
        (Position-values s t p ys zs xs at e) q)
  ValueAtLeast-Step d key s w xs t o e (greater_value {p} {ys} {zs} at q low n) = rw n (
      next_one key (values s p) (map (values s) ys) (map (values s) zs)
        (Position-values s t p ys zs xs at e)
        (All-map (λ v. callbacks.comparison key v ≡ Ordering.gt) (values s) ys low) q)
  ValueAtLeast-Step d key s w xs t o e (no_value n low) = rw n (
      past_all key (
        subst (All (Low callbacks.comparison (λ v. v) false key)) e
          (All-map (λ v. callbacks.comparison key v ≡ Ordering.gt) (values s) (inorder t) low)))

  pub respond-at_least :
      (fuel : ℕ) (d r : Bool) (key : V) (s : RbTree V S) (w : W) (xs : List V)
      → (h : Holds storage pool callbacks law kept d r s xs) → size h.shape < fuel
      → Returns
          (Answered storage pool callbacks law kept d r xs w (find_value_at_least key))
          (respond storage callbacks fuel (find_value_at_least key) (s, w))
  respond-at_least fuel d r key s w xs h f =
      let (o, e, u) =
        Returns-some
          (find_equal_or_greater-ValueAtLeast callbacks law key s h.shape fuel h.tree h.sorted f) in
      rw (respond-at_least_lem fuel key s w o e) (
        returns (record {
          contents = xs;
          holds = h;
          unreported = w;
          tells = refl;
          step = ValueAtLeast-Step d key s w xs h.shape o h.listed u;
        }))
