-- ===== src/Examples/Values.antt =====
-- The theorems on trees of values, applied to small trees.
use mulle_rbtree.Base.{ℕ, ◌+◌, ◌-◌, true, false, ◌≡◌, refl, some, [], ◌∷◌, compare, arith}
use mulle_rbtree.RbTree.{
  has_option, use_dirty, done, node_value, get_payload, get_extra, get_extra_size,
}
use mulle_rbtree.RbTree.Rest.{Returns}
use mulle_rbtree.Map.{remove, enoent}
use mulle_rbtree.Map.Absent.{remove-enoent}
use mulle_rbtree.Map.{
  Callbacks, find, find_equal_or_greater, add, for_values, reversefor_values, done_tree,
}
use mulle_rbtree.Map.Values.{
  FoundValue, ValueAtLeast, find-FoundValue, find_equal_or_greater-ValueAtLeast,
}
use mulle_rbtree.Map.Unreported.{Added}
use mulle_rbtree.Map.Add.{add-Added}
use mulle_rbtree.Map.Enumerate.{for_values-inorder, reversefor_values-inorder}
use mulle_rbtree.Map.Done.{done_tree-release_all}
use mulle_rbtree.Examples.Trees.{
  three, three_shape, three-IsTree, three-IsRedBlack, three-Sorted, compare-IsComparison, counter,
}

-- the caller counts the values that it holds
abbrev pub callbacks : Callbacks ℕ ℕ
callbacks = record {
  comparison = compare;
  retain = λ value held. (value, held + 1);
  release = λ value held. held - 1;
  releases = true;
  dirty = λ a l r held. held;
}

find-FoundValue_example :
    Returns
      (FoundValue callbacks compare-IsComparison 30 three three_shape)
      (find callbacks 4 30 three)
find-FoundValue_example =
    find-FoundValue callbacks compare-IsComparison 30 three three_shape 4 three-IsTree three-Sorted
      (omega arith)

find_equal_or_greater-ValueAtLeast_example :
    Returns
      (ValueAtLeast callbacks compare-IsComparison 25 three three_shape)
      (find_equal_or_greater callbacks 4 25 three)
find_equal_or_greater-ValueAtLeast_example =
    find_equal_or_greater-ValueAtLeast callbacks compare-IsComparison 25 three three_shape 4
      three-IsTree three-Sorted (omega arith)

pub not_dirty : has_option use_dirty three ≡ false
unfolding has_option
not_dirty = refl

add-Added_example :
    Returns
      (Added counter callbacks compare-IsComparison three three_shape 5 25 25 4)
      (add counter callbacks 4 25 (three, 3))
unfolding has_option get_extra_size
add-Added_example =
    add-Added counter callbacks compare-IsComparison 4 25 three 3 three_shape three-IsTree
      three-IsRedBlack three-Sorted (omega arith) not_dirty (omega arith) refl

for_values-inorder_example : for_values 4 three ≡ some (10 ∷ 20 ∷ 30 ∷ [])
unfolding node_value get_payload get_extra has_option
for_values-inorder_example = for_values-inorder 4 three three_shape three-IsTree (omega arith)

reversefor_values-inorder_example : reversefor_values 4 three ≡ some (30 ∷ 20 ∷ 10 ∷ [])
unfolding node_value get_payload get_extra has_option
reversefor_values-inorder_example =
    reversefor_values-inorder 4 three three_shape three-IsTree (omega arith)

done_tree-release_all_example :
    done_tree counter callbacks 4 (three, 3) ≡ some (done counter three, 0)
unfolding node_value get_payload get_extra has_option
done_tree-release_all_example =
    done_tree-release_all counter callbacks 4 three 3 three_shape three-IsTree (omega arith)

remove-enoent_example : remove counter callbacks 4 25 (three, 3) ≡ some (enoent, three, 3)
unfolding node_value get_payload get_extra has_option
remove-enoent_example =
    remove-enoent counter callbacks compare-IsComparison 4 25 three 3 three_shape
      ((λ e. ground (arith, e)), ((λ e. ground (arith, e)), ((λ e. ground (arith, e)), tt)))
      three-IsTree three-Sorted (omega arith)
