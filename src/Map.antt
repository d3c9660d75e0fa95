-- ===== src/Map.antt =====
-- The tree of values `struct mulle_rbtree` (src/mulle-rbtree.c, src/mulle-rbtree.h): it owns the
-- nodes, retains and releases the values and runs the dirty callback after each change.
pub mod Absent
pub mod Null
pub mod Start
pub mod Told
pub mod AddTold
pub mod Reports
pub mod Roundtrip
pub mod Session
pub mod Holds
pub mod Reads
pub mod Deletes
pub mod Adds
pub mod Model
pub mod Remove
pub mod Add
pub mod Unreported
pub mod Prepared
pub mod Freed
pub mod Fresh
pub mod Done
pub mod Enumerate
pub mod Values
use mulle_rbtree.Base.{
  ℕ, zero, suc, Bool, true, false, not, Option, none, some, List, [], ◌∷◌, Ordering, ◌==◌,
  if◌then◌else◌, ◌>>=◌,
}
use mulle_rbtree.Storage.{Ptr, nil, Storage}
use mulle_rbtree.RbTree.{
  RbTree, Config, has_option, use_dirty, is_nil_node, node_value, get_node_value, new_node,
  free_node, mark_node_as_dirty, init_with_config, done,
}
use mulle_rbtree.RbTree.Navigate.{
  find_leftmost_node, find_rightmost_node, next_node, previous_node, walk,
}
use mulle_rbtree.RbTree.Find.{find_node, find_node_equal_or_greater}
use mulle_rbtree.RbTree.Insert.{insert_node}
use mulle_rbtree.RbTree.Remove.{remove_node}
use mulle_rbtree.RbTree.Dirty.{walk_dirty}

-- errno.h
abbrev pub enoent : ℕ
enoent = 2

abbrev pub einval : ℕ
einval = 22

-- The caller's functions. `W` is all that they may change.
pub record Callbacks (V W : Type 0) : Type 0 where
  pub comparison : V → V → Ordering
  pub retain : V → W → V × W
  pub release : V → W → W
  -- `_mulle_container_valuecallback_releases`
  pub releases : Bool
  pub dirty : Option V → Option V → Option V → W → W

-- Where an enumerator stands: `none` is the `NULL` of an enumerator without a tree.
pub record Enumerator : Type 0 where
  pub node : Option Ptr

module _ {V S W : Type 0} (callbacks : Callbacks V W) where
  unfoldable pub walk_dirty_values : ℕ → RbTree V S × W → Option (RbTree V S × W)
  walk_dirty_values fuel (s, w) = walk_dirty callbacks.dirty fuel (s, w)

  unfoldable pub find : ℕ → V → RbTree V S → Option (Option V)
  find fuel key s = do
    node ← find_node callbacks.comparison fuel key s
    some (get_node_value node s)

  unfoldable pub find_equal_or_greater : ℕ → V → RbTree V S → Option (Option V)
  find_equal_or_greater fuel key s = do
    node ← find_node_equal_or_greater callbacks.comparison fuel key s
    some (get_node_value node s)

module _ {V S W : Type 0} (storage : Storage V S) (callbacks : Callbacks V W) where
  unfoldable pub init_tree : (null_value : V) → Config → RbTree V S
  init_tree null_value config = init_with_config storage null_value config

  -- the loop of `done`, from `node` on
  unfoldable pub release_from : (climb fuel : ℕ) → Ptr → RbTree V S → W → Option W
  release_from climb zero node s w = none
  release_from climb (suc fuel) node s w =
      let rest = do
        next ← next_node climb node s
        release_from climb fuel next s (callbacks.release (node_value node s) w)
      in if not (node == nil) then rest else some w

  unfoldable pub done_tree : ℕ → RbTree V S × W → Option (RbTree V S × W)
  unfolding release_from
  done_tree fuel (s, w) =
      let released = do first ← find_leftmost_node fuel s.root s; release_from fuel fuel first s w
      in do w' ← if callbacks.releases then released else some w; some (done storage s, w')

  -- a rejected value is released, and its node is freed
  unfoldable pub given_back : ℕ → Ptr → V → RbTree V S × W → RbTree V S × W
  given_back rval node value (s, w) =
      if rval == 0 then (s, w) else (free_node storage node s, callbacks.release value w)

  -- 0 or EEXIST
  unfoldable pub add : ℕ → V → RbTree V S × W → Option (ℕ × RbTree V S × W)
  unfolding walk_dirty_values given_back
  add fuel value (s, w) =
      let (retained, w₁) = callbacks.retain value w in
      let (node, s₁) = new_node storage retained s in
      do
        (rval, s₂) ← insert_node callbacks.comparison fuel node s₁
        let (s₃, w₂) = given_back rval node retained (s₂, w₁)
        let walked = do (s₄, w₄) ← walk_dirty_values callbacks fuel (s₃, w₂); some (rval, s₄, w₄)
        if has_option use_dirty s₃ then walked else some (rval, s₃, w₂)

  unfoldable pub remove_value_node : ℕ → Ptr → RbTree V S × W → Option (RbTree V S × W)
  unfolding walk_dirty_values
  remove_value_node fuel node (s, w) =
      let w₁ = callbacks.release (node_value node s) w in
      let s₁ = if has_option use_dirty s then mark_node_as_dirty fuel node s else s in
      do
        s₂ ← remove_node storage fuel node s₁
        if has_option use_dirty s₂ then walk_dirty_values callbacks fuel (s₂, w₁) else some (s₂, w₁)

  -- 0 or ENOENT
  unfoldable pub remove : ℕ → V → RbTree V S × W → Option (ℕ × RbTree V S × W)
  unfolding remove_value_node
  remove fuel key (s, w) = do
    node ← find_node callbacks.comparison fuel key s
    let removed = do (s', w') ← remove_value_node fuel node (s, w); some (0, s', w')
    if is_nil_node node then some (enoent, s, w) else removed

  -- `mulle_rbtree_add`: the tree may be `NULL`
  unfoldable pub add_to : ℕ → V → Option (RbTree V S) × W → Option (ℕ × Option (RbTree V S) × W)
  unfolding add
  add_to fuel value (none, w) = some (einval, none, w)
  add_to fuel value (some s, w) = do
    (rval, s', w') ← add fuel value (s, w)
    some (rval, some s', w')

  -- `mulle_rbtree_remove`
  unfoldable pub remove_from :
      ℕ → V → Option (RbTree V S) × W → Option (ℕ × Option (RbTree V S) × W)
  unfolding remove
  remove_from fuel key (none, w) = some (einval, none, w)
  remove_from fuel key (some s, w) = do
    (rval, s', w') ← remove fuel key (s, w)
    some (rval, some s', w')

module _ {V S : Type 0} where
  unfoldable pub is_empty : RbTree V S → Bool
  is_empty s = s.root == nil

  -- the loop of `mulle_rbtree_walk`: as for nodes, with the values
  unfoldable pub walk_values :
      {U : Type 0} → (Option V → U → Bool × U) → ℕ → RbTree V S → U → Option U
  walk_values callback fuel s u = walk (λ node. callback (get_node_value node s)) fuel s u

  unfoldable pub enumerate : ℕ → RbTree V S → Option Enumerator
  enumerate fuel s = do
    first ← find_leftmost_node fuel s.root s
    some (record { node = some first })

  -- the item, if the C function returns 1, and the enumerator
  unfoldable pub enumerator_next : ℕ → Enumerator → RbTree V S → Option (Option V × Enumerator)
  enumerator_next fuel rover s = elim rover.node [
    | none ↦ some (none, rover)
    | some node ↦
        let rest = do
          next ← next_node fuel node s
          some (get_node_value node s, record { node = some next })
        in if node == nil then some (none, rover) else rest
  ]

  -- the items of the loop `mulle_rbtree_for`
  unfoldable pub for_loop : (climb fuel : ℕ) → Enumerator → RbTree V S → Option (List V)
  for_loop climb zero rover s = none
  for_loop climb (suc fuel) rover s = elim (enumerator_next climb rover s) [
    | none ↦ none
    | some (none, next) ↦ some []
    | some (some item, next) ↦ do items ← for_loop climb fuel next s; some (item ∷ items)
  ]

  unfoldable pub for_values : ℕ → RbTree V S → Option (List V)
  unfolding for_loop
  for_values fuel s = do rover ← enumerate fuel s; for_loop fuel fuel rover s

  unfoldable pub reverseenumerate : ℕ → RbTree V S → Option Enumerator
  reverseenumerate fuel s = do
    last ← find_rightmost_node fuel s.root s
    some (record { node = some last })

  unfoldable pub reverseenumerator_next :
      ℕ → Enumerator → RbTree V S → Option (Option V × Enumerator)
  reverseenumerator_next fuel rover s = elim rover.node [
    | none ↦ some (none, rover)
    | some node ↦
        let rest = do
          previous ← previous_node fuel node s
          some (get_node_value node s, record { node = some previous })
        in if node == nil then some (none, rover) else rest
  ]

  -- the items of the loop `mulle_rbtree_reversefor`
  unfoldable pub reversefor_loop : (climb fuel : ℕ) → Enumerator → RbTree V S → Option (List V)
  reversefor_loop climb zero rover s = none
  reversefor_loop climb (suc fuel) rover s = elim (reverseenumerator_next climb rover s) [
    | none ↦ none
    | some (none, next) ↦ some []
    | some (some item, next) ↦ do items ← reversefor_loop climb fuel next s; some (item ∷ items)
  ]

  unfoldable pub reversefor_values : ℕ → RbTree V S → Option (List V)
  unfolding reversefor_loop
  reversefor_values fuel s = do rover ← reverseenumerate fuel s; reversefor_loop fuel fuel rover s
