-- ===== src/RbTree.antt =====
-- `struct mulle__rbtree` and the small functions on it (src/mulle--rbtree.h, src/mulle--rbtree.c).
-- The nodes lie in a store with one map for each field, so `p->_left` is `s.left p`; the three
-- bits of the `_color` word (Color.antt) are three maps. The address 0 is `&a_tree->_nil`.
pub mod Value
pub mod Init
pub mod Rotate
pub mod Marks
pub mod Reparent
pub mod Rest
pub mod Recolor
pub mod Fixup
pub mod Navigate
pub mod Find
pub mod Insert
pub mod Remove
pub mod Dirty
use mulle_rbtree.Base.{
  ℕ, ◌%◌, zero, suc, ◌+◌, ◌-◌, Bool, true, false, not, Option, none, some, bit_and, bit_or, ◌==◌,
  ltb, if◌then◌else◌,
}
use mulle_rbtree.Storage.{Ptr, nil, Storage}

-- The memory from `&a_node->payload` on: read as a pointer, and read in place. The options of a tree
-- say for all its nodes which reading it uses.
pub record Cell (V : Type 0) : Type 0 where
  pub word : V
  pub bytes : V

pub record RbTree (V S : Type 0) : Type 0 where
  pub root : Ptr
  pub parent : Ptr → Ptr
  pub left : Ptr → Ptr
  pub right : Ptr → Ptr
  pub red : Ptr → Bool
  pub dirty : Ptr → Bool
  pub marked : Ptr → Bool
  pub payload : Ptr → Cell V
  pub nodes : S
  pub options : ℕ

-- the enumerators of the options
abbrev pub allow_duplicates : ℕ
allow_duplicates = 0x1

abbrev pub use_extra : ℕ
use_extra = 0x2

abbrev pub use_dirty : ℕ
use_dirty = 0x4

abbrev pub use_marker : ℕ
use_marker = 0x8

-- MULLE__RBTREE_DEFAULT_CAPACITY
abbrev pub default_capacity : ℕ
default_capacity = 32

pub record Config : Type 0 where
  pub node_extra : ℕ
  pub options : ℕ
  pub capacity : ℕ

unfoldable pub update {ℓ} : {A : Type ℓ} → (Ptr → A) → Ptr → A → Ptr → A
update f p v q = if q == p then v else f q

abbrev pub is_nil_node : Ptr → Bool
is_nil_node p = nil == p

module _ {V S : Type 0} where
  -- `a_tree->_options & option`
  unfoldable pub has_option : ℕ → RbTree V S → Bool
  has_option option s = not (bit_and s.options option == 0)

  -- the assignments `a_tree->_root = v`, `p->_parent = v` and so on
  abbrev pub set_root : Ptr → RbTree V S → RbTree V S
  set_root v s = record s { root = v }

  abbrev pub set_parent : Ptr → Ptr → RbTree V S → RbTree V S
  set_parent p v s = record s { parent = update s.parent p v }

  abbrev pub set_left : Ptr → Ptr → RbTree V S → RbTree V S
  set_left p v s = record s { left = update s.left p v }

  abbrev pub set_right : Ptr → Ptr → RbTree V S → RbTree V S
  set_right p v s = record s { right = update s.right p v }

  abbrev pub set_color : Ptr → Bool → RbTree V S → RbTree V S
  set_color p v s = record s { red = update s.red p v }

  abbrev pub set_dirty : Ptr → RbTree V S → RbTree V S
  set_dirty p s = record s { dirty = update s.dirty p true }

  abbrev pub clear_dirty : Ptr → RbTree V S → RbTree V S
  clear_dirty p s = record s { dirty = update s.dirty p false }

  abbrev pub set_marker : Ptr → RbTree V S → RbTree V S
  set_marker p s = record s { marked = update s.marked p true }

  unfoldable pub set_node_marked : Ptr → RbTree V S → RbTree V S
  set_node_marked p s =
      if has_option use_marker s then (if p == nil then s else set_marker p s) else s

  unfoldable pub enable_marking : RbTree V S → RbTree V S
  enable_marking s = record s { options = bit_or s.options use_marker }

  -- The loop climbs by `_parent` to the nil node. `fuel` bounds the climb.
  unfoldable pub mark_node_as_dirty : ℕ → Ptr → RbTree V S → RbTree V S
  mark_node_as_dirty zero node s = s
  mark_node_as_dirty (suc fuel) node s =
      if node == nil then s else mark_node_as_dirty fuel (s.parent node) (set_dirty node s)

  unfoldable pub is_dirty : RbTree V S → Bool
  is_dirty s = s.dirty s.root

  unfoldable pub get_payload : Ptr → RbTree V S → V
  get_payload p s = (s.payload p).word

  -- what is at `&p->payload`
  unfoldable pub get_extra : Ptr → RbTree V S → V
  get_extra p s = (s.payload p).bytes

  -- the value of a node that is not nil
  unfoldable pub node_value : Ptr → RbTree V S → V
  unfolding get_payload get_extra
  node_value p s = if has_option use_extra s then get_extra p s else get_payload p s

  -- `none` is the `NULL` that the nil node has for a value
  unfoldable pub get_node_value : Ptr → RbTree V S → Option V
  unfolding node_value
  get_node_value p s = if is_nil_node p then none else some (node_value p s)

  module _ (storage : Storage V S) where
    -- `offsetof( struct mulle_rbnode, payload)` is 32 and the struct has 40 bytes
    unfoldable pub get_extra_size : RbTree V S → ℕ
    get_extra_size s = storage.element_size s.nodes - 32

    -- `_mulle__rbtree_init_node` writes a pointer, or copies as many bytes as the node has room for.
    unfoldable pub init_node : Ptr → V → RbTree V S → RbTree V S
    unfolding get_extra_size
    init_node p value s =
        let cell =
          if has_option use_extra s
          then (record (s.payload p) { bytes = storage.memcpy (get_extra_size s) value })
          else (record (s.payload p) { word = value }) in
        record s {
          parent = update s.parent p nil;
          left = update s.left p nil;
          right = update s.right p nil;
          red = update s.red p true;
          dirty = update s.dirty p (has_option use_dirty s);
          marked = update s.marked p false;
          payload = update s.payload p cell;
        }

    -- the pool's answer, with the node set up
    unfoldable pub new_node : V → RbTree V S → Ptr × RbTree V S
    unfolding init_node
    new_node value s =
        let (p, pool) = storage.malloc s.nodes in (p, init_node p value (record s { nodes = pool }))

    unfoldable pub free_node : Ptr → RbTree V S → RbTree V S
    free_node p s = record s { nodes = storage.free p s.nodes }

    -- The tree is zeroed first. `null_value` is the zeroed payload of the nil node.
    unfoldable pub init_with_config : (null_value : V) → Config → RbTree V S
    init_with_config null_value config =
        let wanted = (32 + config.node_extra) % 18446744073709551616 in
        let extra = if ltb wanted 40 then 40 else wanted in
        let asked = if config.capacity == 0 then default_capacity else config.capacity in
        let capacity = if ltb 65535 asked then 65535 else asked in
        record {
          root = nil;
          parent = λ _. nil;
          left = λ _. nil;
          right = λ _. nil;
          red = λ _. false;
          dirty = λ _. false;
          marked = λ _. false;
          payload = λ _. record { word = null_value; bytes = null_value };
          nodes = storage.init extra 8 capacity;
          options = config.options;
        }

    unfoldable pub init_with_options : (null_value : V) → (node_extra options : ℕ) → RbTree V S
    unfolding init_with_config
    init_with_options null_value node_extra options =
        init_with_config null_value
          (record { node_extra = node_extra; options = options; capacity = 0 })

    unfoldable pub init : (null_value : V) → RbTree V S
    unfolding init_with_options
    init null_value = init_with_options null_value 0 0

    unfoldable pub done : RbTree V S → RbTree V S
    done s = record s { nodes = storage.done s.nodes }
