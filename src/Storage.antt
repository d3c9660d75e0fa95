-- ===== src/Storage.antt =====
-- The memory of the nodes: the node pool of a tree, a `struct mulle_storage` of mulle-container, whose
-- operations are parameters of the model, and `memcpy` of the C library into a node. This record names
-- them.
use mulle_rbtree.Base.{ℕ, ◌≡◌, ◌≢◌}

-- The address of a node. Address 0 is the tree's own `_nil`.
abbrev pub Ptr : Type 0
Ptr = ℕ

abbrev pub nil : Ptr
nil = 0

pub record Storage (V S : Type 0) : Type 0 where
  -- element size, alignment and capacity
  pub init : ℕ → ℕ → ℕ → S
  pub done : S → S
  pub malloc : S → Ptr × S
  pub free : Ptr → S → S
  pub element_size : S → ℕ
  -- what the first bytes of a value are as a value, where a node has room for no more than these
  pub memcpy : ℕ → V → V

-- What the pool promises: `live` are the elements that it has handed out and not taken back.
pub record IsPool {V S : Type 0} (storage : Storage V S) : Type 1 where
  pub live : S → Ptr → Type 0
  pub malloc_ne_nil : (s : S) → (storage.malloc s).0 ≢ nil
  pub malloc_fresh : (s : S) → live s (storage.malloc s).0 → ⊥
  pub malloc_live : (s : S) → live (storage.malloc s).1 (storage.malloc s).0
  pub malloc_keeps : (s : S) (q : Ptr) → live s q → live (storage.malloc s).1 q
  pub malloc_size : (s : S) → storage.element_size (storage.malloc s).1 ≡ storage.element_size s
  pub free_size :
      (s : S) (p : Ptr) → storage.element_size (storage.free p s) ≡ storage.element_size s
  pub free_keeps : (s : S) (p q : Ptr) → q ≢ p → live s q → live (storage.free p s) q
