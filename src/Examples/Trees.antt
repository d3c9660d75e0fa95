-- ===== src/Examples/Trees.antt =====
-- Small trees, and the callbacks on them.
use mulle_rbtree.Base.{
  ℕ, ◌+◌, ◌*◌, true, false, refl, [], ◌∷◌, ◌==◌, ◌||◌, compare, if◌then◌else◌, arith, ltb,
}
use mulle_rbtree.Storage.{Storage}
use mulle_rbtree.Order.{IsComparison, Sorted}
use mulle_rbtree.RbTree.Value.{values}
use mulle_rbtree.RbTree.{RbTree, node_value, get_payload, get_extra, has_option}
use mulle_rbtree.RbTree.Navigate.Steps.{Position}
use mulle_rbtree.RbTree.Insert.Link.{IsNew}
use mulle_rbtree.Shape.{Shape, leaf, node, Context, top, in_right}
use mulle_rbtree.Shape.Balance.{IsRedBlack}
use mulle_rbtree.Shape.Zipper.{At, IsTree}

-- the black node 2 above the red nodes 1 and 3, and the new node 4
abbrev pub three : RbTree ℕ ℕ
three = record {
  root = 2;
  parent = λ p. if p == 1 || p == 3 then 2 else 0;
  left = λ p. if p == 2 then 1 else 0;
  right = λ p. if p == 2 then 3 else 0;
  red = λ p. p == 1 || p == 3 || p == 4;
  dirty = λ p. p == 2;
  marked = λ p. false;
  payload = λ p. record { word = 10 * p; bytes = 0 };
  nodes = 5;
  options = 0;
}

abbrev pub three_shape : Shape
three_shape = node (node leaf true 1 leaf) false 2 (node leaf true 3 leaf)

pub three-IsTree : IsTree three three_shape
three-IsTree = record {
  focus = (
    omega arith,
    refl,
    refl,
    refl,
    refl,
    (omega arith, refl, refl, refl, refl, tt, tt),
    (omega arith, refl, refl, refl, refl, tt, tt),
  );
  path = refl;
  distinct = λ b. ground arith;
  nil_node = record { black = refl; left = refl; right = refl };
}

pub three-IsRedBlack : IsRedBlack three_shape
three-IsRedBlack = record {
  black_root = refl;
  calm = (refl, refl, (refl, refl, tt, tt), (refl, refl, tt, tt));
  balanced = (refl, (refl, tt, tt), (refl, tt, tt));
}

pub four-IsNew : IsNew three 4
four-IsNew = record { ne_nil = omega arith; left = refl; right = refl; red = refl }

-- node 3, the last one
abbrev pub right_way : Context
right_way = in_right (node leaf true 1 leaf) false 2 top

three-right : At three right_way (node leaf true 3 leaf)
three-right = record {
  focus = (omega arith, refl, refl, refl, refl, tt, tt);
  path = (omega arith, refl, refl, refl, refl, (omega arith, refl, refl, refl, refl, tt, tt), refl);
  distinct = λ b. ground arith;
  nil_node = record { black = refl; left = refl; right = refl };
}

-- the free place to its right
pub three-free : At three (in_right leaf true 3 right_way) leaf
three-free = record {
  focus = tt;
  path = (omega arith, refl, refl, refl, refl, tt, three-right.path);
  distinct = λ b. ground arith;
  nil_node = record { black = refl; left = refl; right = refl };
}

pub middle : Position three three_shape 2 (1 ∷ []) (3 ∷ [])
middle = record {
  context = top;
  lower = node leaf true 1 leaf;
  color = false;
  upper = node leaf true 3 leaf;
  at = three-IsTree;
  whole = refl;
  behind = refl;
  ahead = refl;
}

pub three-Sorted : Sorted compare (values three) (1 ∷ 2 ∷ 3 ∷ [])
unfolding node_value get_payload get_extra has_option
three-Sorted = (
  ((λ e. ground (arith, e)), ((λ e. ground (arith, e)), tt)),
  (((λ e. ground (arith, e)), tt), (tt, tt)),
)

pub compare-IsComparison : IsComparison compare
compare-IsComparison = record {
  gt_of_lt = λ a b h. ground arith;
  lt_of_gt = λ a b h. ground arith;
  trans = λ a b c h g. ground arith;
}

abbrev pub counter : Storage ℕ ℕ
counter = record {
  init = λ size alignment capacity. 1;
  done = λ n. n;
  malloc = λ n. (n, n + 1);
  free = λ p n. n;
  element_size = λ n. 48;
  memcpy = λ n v. if ltb n 8 then 0 else v;
}
