-- ===== src/Map/Freed.antt =====
-- A node given back to the pool (`_mulle__rbtree_free_node` in src/mulle--rbtree.h).
use mulle_rbtree.Base.{ℕ, ◌≡◌, refl, List}
use mulle_rbtree.Storage.{Ptr, Storage}
use mulle_rbtree.RbTree.{RbTree, has_option, free_node}
use mulle_rbtree.RbTree.Navigate.Steps.{Position}
use mulle_rbtree.Shape.{Shape}

module _ {V S : Type 0} where
  pub has_option-options :
      (option : ℕ) (s₁ s₂ : RbTree V S)
      → s₁.options ≡ s₂.options
      → has_option option s₁ ≡ has_option option s₂
  unfolding has_option
  has_option-options option s₁ s₂ e = rw e refl

module _ {V S : Type 0} (storage : Storage V S) (p : Ptr) where
  pub free_node-Position :
      (s' : RbTree V S) (t : Shape) (b : Ptr) (ys zs : List Ptr)
      → Position s' t b ys zs
      → Position (free_node storage p s') t b ys zs
  unfolding free_node
  free_node-Position s' t b ys zs h = record {
    context = h.context;
    lower = h.lower;
    color = h.color;
    upper = h.upper;
    at = record {
      focus = h.at.focus;
      path = h.at.path;
      distinct = h.at.distinct;
      nil_node = record {
        black = h.at.nil_node.black;
        left = h.at.nil_node.left;
        right = h.at.nil_node.right;
      };
    };
    whole = h.whole;
    behind = h.behind;
    ahead = h.ahead;
  }

  pub free_node-payload : (s' : RbTree V S) → (free_node storage p s').payload ≡ s'.payload
  unfolding free_node
  free_node-payload s' = refl

  pub free_node-nodes : (s' : RbTree V S) → (free_node storage p s').nodes ≡ storage.free p s'.nodes
  unfolding free_node
  free_node-nodes s' = refl

  pub free_node-options : (s' : RbTree V S) → (free_node storage p s').options ≡ s'.options
  unfolding free_node
  free_node-options s' = refl
