-- ===== src/Examples/Removals.antt =====
-- The theorems on removals, applied to small trees.
use mulle_rbtree.Base.{
  true, ◌≡◌, ◌&&◌, ◌*◌, ℕ, false, refl, [], ◌∷◌, ◌==◌, ◌||◌, if◌then◌else◌, arith, compare,
}
use mulle_rbtree.RbTree.Value.{values}
use mulle_rbtree.RbTree.{
  RbTree, has_option, use_dirty, node_value, get_payload, get_extra, get_extra_size,
}
use mulle_rbtree.Order.{Sorted}
use mulle_rbtree.RbTree.Rest.{Returns}
use mulle_rbtree.RbTree.Fixup.{black_black_fixup}
use mulle_rbtree.RbTree.Fixup.Short.{Short}
use mulle_rbtree.RbTree.Fixup.Blacken.{Rebalanced}
use mulle_rbtree.RbTree.Fixup.BlackBlack.{black_black_fixup-Rebalanced}
use mulle_rbtree.RbTree.Remove.{remove_node}
use mulle_rbtree.RbTree.Remove.Finish.{Removed}
use mulle_rbtree.RbTree.Remove.Whole.{remove_node-Removed}
use mulle_rbtree.Map.{add, remove, remove_value_node}
use mulle_rbtree.Map.Remove.{Taken}
use mulle_rbtree.Map.Unreported.{Added}
use mulle_rbtree.Map.Reports.{Told}
use mulle_rbtree.Map.AddTold.{add-Told}
use mulle_rbtree.Map.Told.{ToldOut, remove-Told, remove_value_node-ToldOut}
use mulle_rbtree.RbTree.Navigate.Steps.{Position}
use mulle_rbtree.Shape.{leaf, node, Context, top, in_left}
use mulle_rbtree.Shape.Zipper.{At, IsTree}
use mulle_rbtree.Examples.Trees.{
  three, three_shape, three-IsTree, three-IsRedBlack, three-Sorted, compare-IsComparison, counter,
  middle,
}
use mulle_rbtree.Examples.Values.{callbacks}

-- the black nodes 2 and 3, after a black left child of 2 was unlinked
abbrev lopsided : RbTree ℕ ℕ
lopsided = record {
  root = 2;
  parent = λ p. if p == 0 || p == 3 then 2 else 0;
  left = λ p. 0;
  right = λ p. if p == 2 then 3 else 0;
  red = λ p. false;
  dirty = λ p. false;
  marked = λ p. false;
  payload = λ p. record { word = 10 * p; bytes = 0 };
  nodes = 5;
  options = 0;
}

abbrev left_way : Context
left_way = in_left false 2 (node leaf false 3 leaf) top

lopsided-At : At lopsided left_way leaf
lopsided-At = record {
  focus = tt;
  path = (omega arith, refl, refl, refl, refl, (omega arith, refl, refl, refl, refl, tt, tt), refl);
  distinct = λ b. ground arith;
  nil_node = record { black = refl; left = refl; right = refl };
}

left_way-Short : Short left_way leaf
left_way-Short = record {
  calm = tt;
  above = (refl, refl, (refl, refl, tt, tt), tt);
  balanced = tt;
  level = (refl, (refl, tt, tt), tt);
  black_root = refl;
}

black_black_fixup-Rebalanced_example :
    Returns (Rebalanced lopsided (2 ∷ 3 ∷ [])) (black_black_fixup 2 0 lopsided)
black_black_fixup-Rebalanced_example =
    black_black_fixup-Rebalanced 2 left_way leaf lopsided (2 ∷ 3 ∷ []) lopsided-At refl
      left_way-Short refl (omega arith)

remove_node-Removed_example :
    Returns (Removed counter 2 three (1 ∷ 3 ∷ [])) (remove_node counter 4 2 three)
remove_node-Removed_example =
    remove_node-Removed counter 4 three three_shape 2 (1 ∷ []) (3 ∷ []) middle three-IsRedBlack
      (omega arith)

-- the tree with dirty flags
abbrev reporting : RbTree ℕ ℕ
reporting = record three { options = 4 }

reporting-IsTree : IsTree reporting three_shape
reporting-IsTree = record {
  focus = three-IsTree.focus;
  path = refl;
  distinct = three-IsTree.distinct;
  nil_node = record { black = refl; left = refl; right = refl };
}

reporting-Sorted : Sorted compare (values reporting) (1 ∷ 2 ∷ 3 ∷ [])
unfolding node_value get_payload get_extra has_option
reporting-Sorted = three-Sorted

reports_dirty : has_option use_dirty reporting ≡ true
unfolding has_option
reports_dirty = refl

-- node 2
abbrev inner : Position reporting three_shape 2 (1 ∷ []) (3 ∷ [])
inner = record {
  context = top;
  lower = node leaf true 1 leaf;
  color = false;
  upper = node leaf true 3 leaf;
  at = reporting-IsTree;
  whole = refl;
  behind = refl;
  ahead = refl;
}

remove_value_node-ToldOut_example :
    Returns
      (ToldOut counter callbacks 4 true reporting 2 3 (1 ∷ 3 ∷ []))
      (remove_value_node counter callbacks 4 2 (reporting, 3))
remove_value_node-ToldOut_example =
    remove_value_node-ToldOut counter callbacks 4 reporting 3 three_shape 2 (1 ∷ []) (3 ∷ []) true
      inner three-IsRedBlack (omega arith) reports_dirty

remove-Told_example :
    Returns
      (Told callbacks 4
        (λ n. (n == 0) && true)
        (Taken counter callbacks compare-IsComparison reporting three_shape 20 3))
      (remove counter callbacks 4 20 (reporting, 3))
remove-Told_example =
    remove-Told counter callbacks compare-IsComparison 4 20 reporting 3 three_shape true
      reporting-IsTree three-IsRedBlack reporting-Sorted (omega arith) reports_dirty

add-Told_example :
    Returns
      (Told callbacks 5
        (λ _. true)
        (Added counter callbacks compare-IsComparison reporting three_shape 5 25 25 4))
      (add counter callbacks 5 25 (reporting, 3))
unfolding node_value has_option get_extra_size
add-Told_example =
    add-Told counter callbacks compare-IsComparison 5 25 reporting 3 three_shape true
      reporting-IsTree three-IsRedBlack reporting-Sorted (omega arith) reports_dirty (omega arith)
      refl
