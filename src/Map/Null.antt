-- ===== src/Map/Null.antt =====
-- The functions of src/mulle-rbtree.h that accept a `NULL` for the tree, here `none`.
use mulle_rbtree.Base.{suc, ℕ, Bool, true, ◌≡◌, refl, Option, none, some, [], ◌>>=◌}
use mulle_rbtree.Storage.{Ptr, Storage}
use mulle_rbtree.RbTree.{RbTree}
use mulle_rbtree.Map.{
  Callbacks, Enumerator, find, find_equal_or_greater, done_tree, is_empty, remove_value_node,
  walk_values, enumerate, reverseenumerate, enumerator_next, reverseenumerator_next, for_loop,
  reversefor_loop,
}

module _ {V S W : Type 0} (callbacks : Callbacks V W) where
  unfoldable pub find_in : ℕ → V → Option (RbTree V S) → Option (Option V)
  unfolding find
  find_in fuel key none = some none
  find_in fuel key (some s) = find callbacks fuel key s

  unfoldable pub find_equal_or_greater_in : ℕ → V → Option (RbTree V S) → Option (Option V)
  unfolding find_equal_or_greater
  find_equal_or_greater_in fuel key none = some none
  find_equal_or_greater_in fuel key (some s) = find_equal_or_greater callbacks fuel key s

module _ {V S W : Type 0} (storage : Storage V S) (callbacks : Callbacks V W) where
  unfoldable pub done_in : ℕ → Option (RbTree V S) × W → Option (Option (RbTree V S) × W)
  unfolding done_tree
  done_in fuel (none, w) = some (none, w)
  done_in fuel (some s, w) = do
    (s', w') ← done_tree storage callbacks fuel (s, w)
    some (some s', w')

  unfoldable pub remove_node_in :
      ℕ → Ptr → Option (RbTree V S) × W → Option (Option (RbTree V S) × W)
  unfolding remove_value_node
  remove_node_in fuel node (none, w) = some (none, w)
  remove_node_in fuel node (some s, w) = do
    (s', w') ← remove_value_node storage callbacks fuel node (s, w)
    some (some s', w')

module _ {V S : Type 0} where
  unfoldable pub is_empty_in : Option (RbTree V S) → Bool
  unfolding is_empty
  is_empty_in none = true
  is_empty_in (some s) = is_empty s

  unfoldable pub walk_in :
      {U : Type 0} → (Option V → U → Bool × U) → ℕ → Option (RbTree V S) → U → Option U
  unfolding walk_values
  walk_in callback fuel none u = some u
  walk_in callback fuel (some s) u = walk_values callback fuel s u

  -- a zeroed enumerator
  unfoldable pub enumerate_in : ℕ → Option (RbTree V S) → Option Enumerator
  unfolding enumerate
  enumerate_in fuel none = some (record { node = none })
  enumerate_in fuel (some s) = enumerate fuel s

  unfoldable pub reverseenumerate_in : ℕ → Option (RbTree V S) → Option Enumerator
  unfolding reverseenumerate
  reverseenumerate_in fuel none = some (record { node = none })
  reverseenumerate_in fuel (some s) = reverseenumerate fuel s

  -- Both loops over a `NULL` tree end at once, whatever store the enumerator is asked with.
  zeroed-for_loop :
      (climb fuel : ℕ) (s : RbTree V S)
      → (for_loop climb (suc fuel) (record { node = none }) s ≡ some [])
        × (reversefor_loop climb (suc fuel) (record { node = none }) s ≡ some [])
  unfolding for_loop reversefor_loop enumerator_next reverseenumerator_next
  zeroed-for_loop climb fuel s = (refl, refl)
