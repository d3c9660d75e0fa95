-- ===== src/RbTree/Navigate/Count.antt =====
-- The number of nodes of a tree (`_mulle__rbtree_get_count` in src/mulle--rbtree.c).
use mulle_rbtree.Base.{ℕ, zero, suc, ◌+◌, ◌%◌, ◌<◌, ◌≡◌, ◌≢◌, refl, ◌∙◌, ap, some, arith}
use mulle_rbtree.Storage.{Ptr, nil}
use mulle_rbtree.RbTree.{RbTree}
use mulle_rbtree.RbTree.Navigate.{walk_count, get_count}
use mulle_rbtree.Shape.{Shape, leaf, node, size, root_of}
use mulle_rbtree.Shape.Rep.{Rep}
use mulle_rbtree.Shape.Zipper.{IsTree}

module _ {V S : Type 0} where
  walk_count-node :
      (fuel : ℕ) (s : RbTree V S) (a b d : Ptr) (m n : ℕ)
      → a ≢ nil
      → s.left a ≡ b
      → s.right a ≡ d
      → walk_count fuel b s ≡ some m
      → walk_count fuel d s ≡ some n
      → walk_count (suc fuel) a s ≡ some (((m + n) % 0x10000000000000000 + 1) % 0x10000000000000000)
  unfolding walk_count
  walk_count-node fuel s a b d m n ne left right e f = ground arith

  walk_count-size :
      (fuel : ℕ) (s : RbTree V S) (q : Ptr) (t : Shape)
      → Rep s q t
      → size t < fuel
      → walk_count fuel (root_of t) s ≡ some (size t % 0x10000000000000000)
  walk_count-size zero s q t h f = absurd (omega arith)
  walk_count-size (suc fuel) s q leaf h f = unfold walk_count in refl
  walk_count-size (suc fuel) s q (node l c a r) h f =
      walk_count-node fuel s a (root_of l) (root_of r) _ _ h.0 h.2 h.3
        (walk_count-size fuel s a l h.5 (omega arith))
        (walk_count-size fuel s a r h.6 (omega arith))
      ∙ ap some (omega arith)

  -- The count of a tree, with more fuel than nodes, is the number of its nodes, as a `size_t`.
  pub get_count-size :
      (fuel : ℕ) (s : RbTree V S) (t : Shape)
      → IsTree s t
      → size t < fuel
      → get_count fuel s ≡ some (size t % 0x10000000000000000)
  unfolding get_count
  get_count-size fuel s t h f =
      ap (λ q. walk_count fuel q s) h.path ∙ walk_count-size fuel s nil t h.focus f
