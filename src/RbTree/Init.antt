-- ===== src/RbTree/Init.antt =====
-- What `_mulle__rbtree_init_with_config` (src/mulle--rbtree.c) makes.
use mulle_rbtree.Base.{ℕ, ◌+◌, ◌<◌, ◌≤◌, ◌≡◌, refl, arith, ◌⊎◌}
use mulle_rbtree.Storage.{Storage}
use mulle_rbtree.RbTree.{RbTree, Config, init_with_config}
use mulle_rbtree.Shape.{leaf}
use mulle_rbtree.Shape.Zipper.{IsTree}

-- the capacity of the pool, for the one that is asked for: the default, the same, or the greatest
-- `unsigned short`
pub data Capacity (asked : ℕ) : ℕ → Type 0 where
  unset : asked ≡ 0 → Capacity asked 32
  as_asked : 1 ≤ asked → asked ≤ 65535 → Capacity asked asked
  clamped : 65535 < asked → Capacity asked 65535

module _ {V S : Type 0} (storage : Storage V S) where
  -- an empty tree with a node pool
  pub record Ready (config : Config) (s : RbTree V S) : Type 0 where
    pub empty : IsTree s leaf
    pub options : s.options ≡ config.options
    pub element_size : ℕ
    pub capacity : ℕ
    pub pool : s.nodes ≡ storage.init element_size 8 capacity
    pub holds_node : 40 ≤ element_size
    pub holds_extra : 32 + config.node_extra ≤ element_size
    pub no_more : (element_size ≡ 40) ⊎ (element_size ≡ 32 + config.node_extra)
    pub asked : Capacity config.capacity capacity

  pub init_with_config-empty :
      (null_value : V) (config : Config) → IsTree (init_with_config storage null_value config) leaf
  unfolding init_with_config
  init_with_config-empty null_value config = record {
    focus = tt;
    path = refl;
    distinct = λ b. ground arith;
    nil_node = record { black = refl; left = refl; right = refl };
  }

  pub init_with_config-options :
      (null_value : V) (config : Config)
      → (init_with_config storage null_value config).options ≡ config.options
  unfolding init_with_config
  init_with_config-options null_value config = refl
