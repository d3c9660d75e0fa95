-- ===== src/Shape/Length.antt =====
-- How many nodes a tree has, in order.
use mulle_rbtree.Base.{◌+◌, ◌≡◌, refl, List, [], ◌∷◌, ◌++◌, map, length, arith}
use mulle_rbtree.Shape.{Shape, leaf, node, inorder, size}

pub length-append : {A : Type 0} (xs ys : List A) → length (xs ++ ys) ≡ length xs + length ys
length-append [] ys = omega arith
length-append (x ∷ xs) ys = omega (arith, length-append xs ys)

pub length-map : {A B : Type 0} (f : A → B) (xs : List A) → length (map f xs) ≡ length xs
length-map f [] = refl
length-map f (x ∷ xs) = omega (arith, length-map f xs)

pub length-inorder : (t : Shape) → length (inorder t) ≡ size t
length-inorder leaf = refl
length-inorder (node l c a r) =
    omega (arith, length-append (inorder l) (a ∷ inorder r), length-inorder l, length-inorder r)
