-- ===== src/Examples/Nodes.antt =====
-- The theorems on trees of nodes, applied to small trees.
use mulle_rbtree.Base.{
  ℕ, Bool, true, false, ◌≡◌, refl, ltb, Option, some, List, [], ◌∷◌, ◌==◌, Ordering, compare,
  if◌then◌else◌, arith,
}
use mulle_rbtree.Storage.{Ptr}
use mulle_rbtree.RbTree.{RbTree, Config, init_with_config, mark_node_as_dirty}
use mulle_rbtree.RbTree.Rest.{Returns}
use mulle_rbtree.RbTree.Rotate.{left_rotate_node, right_rotate_node}
use mulle_rbtree.RbTree.Rotate.LeftTurn.{left_rotate-At}
use mulle_rbtree.RbTree.Rotate.RightTurn.{right_rotate-At}
use mulle_rbtree.RbTree.Fixup.{red_red_fixup}
use mulle_rbtree.RbTree.Fixup.Strained.{Strained}
use mulle_rbtree.RbTree.Navigate.{
  find_leftmost_node, find_rightmost_node, next_node, previous_node, walk, walk_reverse, get_count,
}
use mulle_rbtree.RbTree.Navigate.Ends.{
  LeftEnd, RightEnd, find_leftmost_node-LeftEnd, find_rightmost_node-RightEnd,
}
use mulle_rbtree.RbTree.Navigate.Steps.{Position, Ahead, Behind, next_node-Ahead}
use mulle_rbtree.RbTree.Navigate.Back.{previous_node-Behind}
use mulle_rbtree.RbTree.Navigate.Walks.{walk-visit, walk_reverse-visit}
use mulle_rbtree.RbTree.Navigate.Count.{get_count-size}
use mulle_rbtree.RbTree.Find.{find_node, find_node_equal_or_greater}
use mulle_rbtree.RbTree.Find.Exact.{Found, find_node-Found, find_node-Found_log}
use mulle_rbtree.RbTree.Find.LowerBound.{AtLeast, find_node_equal_or_greater-AtLeast}
use mulle_rbtree.RbTree.Insert.{
  attach_node, insert_node, insert_node_before_node, insert_node_after_node,
}
use mulle_rbtree.RbTree.Fixup.Blacken.{Rebalanced}
use mulle_rbtree.RbTree.Insert.Rebalance.{red_red_fixup-Rebalanced}
use mulle_rbtree.RbTree.Insert.Attach.{attach_node-Rebalanced}
use mulle_rbtree.RbTree.Insert.Place.{
  insert_node_before_node-Rebalanced, insert_node_after_node-Rebalanced,
}
use mulle_rbtree.RbTree.Insert.Sorted.{Inserted, insert_node-Inserted}
use mulle_rbtree.RbTree.Dirty.{walk_dirty}
use mulle_rbtree.RbTree.Dirty.Settled.{Settled, clean, stained}
use mulle_rbtree.RbTree.Dirty.Mark.{Marked, mark_node_as_dirty-Settled}
use mulle_rbtree.RbTree.Dirty.Walk.{Walked, walk_dirty-Walked}
use mulle_rbtree.Color.{
  is_red, is_black, get_color, is_marked, is_dirty, set_color, set_red, set_black, set_marker,
  clear_marker, set_dirty, clear_dirty,
}
use mulle_rbtree.Color.Flags.{encode, encode-tests, encode-updates}
use mulle_rbtree.Shape.{leaf, node, Context, top, in_left, in_right}
use mulle_rbtree.Shape.Zipper.{At, down_left}
use mulle_rbtree.Examples.Trees.{
  three, three_shape, three-IsTree, three-IsRedBlack, four-IsNew, right_way, three-free, middle,
  three-Sorted, compare-IsComparison, counter,
}

find_node-Found_example :
    Returns (Found compare compare-IsComparison 30 three three_shape) (find_node compare 4 30 three)
find_node-Found_example =
    find_node-Found compare compare-IsComparison 30 three 4 three_shape three-IsTree three-Sorted
      (omega arith)

find_node-Found_log_example :
    Returns (Found compare compare-IsComparison 30 three three_shape) (find_node compare 6 30 three)
find_node-Found_log_example =
    find_node-Found_log compare compare-IsComparison 30 three 6 3 three_shape three-IsTree
      three-IsRedBlack three-Sorted (omega arith) (omega arith)

find_node_equal_or_greater-AtLeast_example :
    Returns
      (AtLeast compare compare-IsComparison 25 three three_shape)
      (find_node_equal_or_greater compare 4 25 three)
find_node_equal_or_greater-AtLeast_example =
    find_node_equal_or_greater-AtLeast compare compare-IsComparison 25 three 4 three_shape
      three-IsTree three-Sorted (omega arith)

insert_node-Inserted_example :
    Returns
      (Inserted compare compare-IsComparison three three_shape 4)
      (insert_node compare 4 4 three)
insert_node-Inserted_example =
    insert_node-Inserted compare compare-IsComparison 4 4 three three_shape three-IsTree four-IsNew
      refl three-IsRedBlack (omega arith) three-Sorted

insert_node_before_node-Rebalanced_example :
    Returns (Rebalanced three (1 ∷ 4 ∷ 2 ∷ 3 ∷ [])) (insert_node_before_node 4 4 2 three)
insert_node_before_node-Rebalanced_example =
    insert_node_before_node-Rebalanced three 4 three_shape four-IsNew refl three-IsRedBlack 4
      (omega arith) 2 (1 ∷ []) (3 ∷ []) middle

insert_node_after_node-Rebalanced_example :
    Returns (Rebalanced three (1 ∷ 2 ∷ 4 ∷ 3 ∷ [])) (insert_node_after_node 4 4 2 three)
insert_node_after_node-Rebalanced_example =
    insert_node_after_node-Rebalanced three 4 three_shape four-IsNew refl three-IsRedBlack 4
      (omega arith) 2 (1 ∷ []) (3 ∷ []) middle

attach_node-Rebalanced_example :
    Returns (Rebalanced three (1 ∷ 2 ∷ 3 ∷ 4 ∷ [])) (attach_node 4 4 3 Ordering.gt three)
attach_node-Rebalanced_example =
    attach_node-Rebalanced 4 (in_right leaf true 3 right_way) 4 Ordering.gt three three-free
      four-IsNew refl (λ e. ground (arith, e)) three-IsRedBlack (omega arith)

next_node-Ahead_example :
    Returns (Ahead three three_shape (1 ∷ 2 ∷ []) (3 ∷ [])) (next_node 4 2 three)
next_node-Ahead_example =
    next_node-Ahead 4 three three_shape 2 (1 ∷ []) (3 ∷ []) middle (omega arith)

previous_node-Behind_example :
    Returns (Behind three three_shape (1 ∷ []) (2 ∷ 3 ∷ [])) (previous_node 4 2 three)
previous_node-Behind_example =
    previous_node-Behind 4 three three_shape 2 (1 ∷ []) (3 ∷ []) middle (omega arith)

find_leftmost_node-LeftEnd_example :
    Returns (LeftEnd three top three_shape) (find_leftmost_node 4 2 three)
find_leftmost_node-LeftEnd_example =
    find_leftmost_node-LeftEnd 4 three top (node leaf true 1 leaf) false 2 (node leaf true 3 leaf)
      three-IsTree (omega arith)

find_rightmost_node-RightEnd_example :
    Returns (RightEnd three top three_shape) (find_rightmost_node 4 2 three)
find_rightmost_node-RightEnd_example =
    find_rightmost_node-RightEnd 4 three top (node leaf true 3 leaf) false 2 (node leaf true 1 leaf)
      three-IsTree (omega arith)

-- a callback that stops after the node 2
abbrev until_two : Ptr → List Ptr → Bool × List Ptr
until_two p seen = (ltb p 2, p ∷ seen)

walk-visit_example : walk until_two 4 three [] ≡ some (2 ∷ 1 ∷ [])
walk-visit_example = walk-visit until_two 4 three three_shape [] three-IsTree (omega arith)

walk_reverse-visit_example : walk_reverse until_two 4 three [] ≡ some (3 ∷ [])
walk_reverse-visit_example =
    walk_reverse-visit until_two 4 three three_shape [] three-IsTree (omega arith)

get_count-size_example : get_count 4 three ≡ some 3
get_count-size_example = get_count-size 4 three three_shape three-IsTree (omega arith)

left_rotate-At_example :
    At
      (left_rotate_node 1 2 three)
      top
      (node (node (node leaf true 1 leaf) false 2 leaf) true 3 leaf)
left_rotate-At_example = left_rotate-At 1 three-IsTree

right_rotate-At_example :
    At
      (right_rotate_node 1 2 three)
      top
      (node leaf true 1 (node leaf false 2 (node leaf true 3 leaf)))
right_rotate-At_example = right_rotate-At 1 three-IsTree

three-Settled : Settled three three_shape
three-Settled = stained refl (clean (refl, tt, tt)) (clean (refl, tt, tt))

abbrev tell : Option ℕ → Option ℕ → Option ℕ → List (Option ℕ) → List (Option ℕ)
tell a l r seen = a ∷ seen

walk_dirty-Walked_example :
    Returns (Walked tell three three_shape []) (walk_dirty tell 4 (three, []))
walk_dirty-Walked_example =
    walk_dirty-Walked tell 4 three three_shape [] three-IsTree three-Settled refl (omega arith)

abbrev large : Config
large = record { node_extra = 16; options = 2; capacity = 70000 }

abbrev empty : RbTree ℕ ℕ
empty = init_with_config counter 0 large

-- the tree after the link of the node 4
abbrev linked : RbTree ℕ ℕ
linked = record three {
  parent = λ p. if p == 4 then 3 else three.parent p;
  right = λ p. if p == 3 then 4 else three.right p;
}

abbrev last_way : Context
last_way = in_right leaf true 3 right_way

linked-At : At linked last_way (node leaf true 4 leaf)
linked-At = record {
  focus = (omega arith, refl, refl, refl, refl, tt, tt);
  path = (
    omega arith,
    refl,
    refl,
    refl,
    refl,
    tt,
    (omega arith, refl, refl, refl, refl, (omega arith, refl, refl, refl, refl, tt, tt), refl),
  );
  distinct = λ b. ground arith;
  nil_node = record { black = refl; left = refl; right = refl };
}

linked-Strained : Strained last_way (node leaf true 4 leaf)
linked-Strained = record {
  calm = (refl, refl, tt, tt);
  above = (refl, refl, tt, (refl, refl, (refl, refl, tt, tt), tt));
  balanced = (refl, tt, tt);
  level = (refl, tt, (refl, (refl, tt, tt), tt));
  black_root = refl;
}

red_red_fixup-Rebalanced_example :
    Returns (Rebalanced linked (1 ∷ 2 ∷ 3 ∷ 4 ∷ [])) (red_red_fixup 3 4 linked)
red_red_fixup-Rebalanced_example =
    red_red_fixup-Rebalanced 3 last_way leaf leaf linked 4 (1 ∷ 2 ∷ 3 ∷ 4 ∷ []) linked-At
      linked-Strained refl (omega arith)

-- the first node
first : Position three three_shape 1 [] (2 ∷ 3 ∷ [])
first = record {
  context = in_left false 2 (node leaf true 3 leaf) top;
  lower = leaf;
  color = true;
  upper = leaf;
  at = down_left three-IsTree;
  whole = refl;
  behind = refl;
  ahead = refl;
}

mark_node_as_dirty-Settled_example : Marked three three_shape 1 (mark_node_as_dirty 4 1 three)
mark_node_as_dirty-Settled_example =
    mark_node_as_dirty-Settled 4 three three_shape 1 [] (2 ∷ 3 ∷ []) first three-Settled
      (omega arith)

encode-tests_example :
    let w = encode true false true in
    (is_red w ≡ true)
    × (is_black w ≡ false)
    × (get_color w ≡ 1)
    × (is_marked w ≡ false)
    × (is_dirty w ≡ true)
encode-tests_example = encode-tests true false true

encode-updates_example :
    let w = encode true false true in
    (set_color w 0 ≡ encode false false true)
    × (set_red w ≡ encode true false true)
    × (set_black w ≡ encode false false true)
    × (set_marker w ≡ encode true true true)
    × (clear_marker w ≡ encode true false true)
    × (set_dirty w ≡ encode true false true)
    × (clear_dirty w ≡ encode true false false)
encode-updates_example = encode-updates true false true false
