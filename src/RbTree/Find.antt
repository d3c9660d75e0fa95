-- ===== src/RbTree/Find.antt =====
-- The searches of src/mulle--rbtree.h. The sign of the `int` that a comparison returns is an
-- `Ordering`: `lt` below 0, `eq` at 0, `gt` above.
pub mod Exact
pub mod LowerBound
use mulle_rbtree.Base.{ℕ, zero, suc, Option, none, some, ◌==◌, if◌then◌else◌, Ordering}
use mulle_rbtree.Storage.{Ptr, nil}
use mulle_rbtree.RbTree.{RbTree, has_option, use_extra, get_payload, get_extra}
use mulle_rbtree.RbTree.Navigate.{climb_right}

module _ {V S : Type 0} (comp : V → V → Ordering) where
  -- both loops, over the way to read the key of a node
  unfoldable pub find_loop : (Ptr → RbTree V S → V) → V → ℕ → Ptr → RbTree V S → Option Ptr
  find_loop read key zero p s = none
  find_loop read key (suc fuel) p s =
      let lower = find_loop read key fuel (s.left p) s in
      let upper = find_loop read key fuel (s.right p) s in
      if p == nil then some p else elim (comp key (read p s)) [
        | Ordering.eq ↦ some p
        | Ordering.lt ↦ lower
        | Ordering.gt ↦ upper
      ]

  unfoldable pub find_node_with_payload : ℕ → V → RbTree V S → Option Ptr
  unfolding find_loop
  find_node_with_payload fuel key s = find_loop get_payload key fuel s.root s

  unfoldable pub find_node_with_extra : ℕ → V → RbTree V S → Option Ptr
  unfolding find_loop
  find_node_with_extra fuel key s = find_loop get_extra key fuel s.root s

  unfoldable pub find_node : ℕ → V → RbTree V S → Option Ptr
  unfolding find_node_with_payload find_node_with_extra
  find_node fuel key s =
      if has_option use_extra s
      then find_node_with_extra fuel key s
      else find_node_with_payload fuel key s

  -- With no right child the next greater node is the first ancestor that the path leaves leftwards.
  unfoldable pub equal_or_greater_loop :
      (Ptr → RbTree V S → V) → V → (climb fuel : ℕ) → Ptr → RbTree V S → Option Ptr
  equal_or_greater_loop read key climb zero p s = none
  equal_or_greater_loop read key climb (suc fuel) p s =
      let lower = equal_or_greater_loop read key climb fuel (s.left p) s in
      let upper = equal_or_greater_loop read key climb fuel (s.right p) s in
      if p == nil then some p else elim (comp key (read p s)) [
        | Ordering.eq ↦ some p
        | Ordering.lt ↦ if s.left p == nil then some p else lower
        | Ordering.gt ↦ if s.right p == nil then climb_right climb p s else upper
      ]

  unfoldable pub find_node_with_equal_or_greater_payload : ℕ → V → RbTree V S → Option Ptr
  unfolding equal_or_greater_loop
  find_node_with_equal_or_greater_payload fuel key s =
      equal_or_greater_loop get_payload key fuel fuel s.root s

  unfoldable pub find_node_with_equal_or_greater_extra : ℕ → V → RbTree V S → Option Ptr
  unfolding equal_or_greater_loop
  find_node_with_equal_or_greater_extra fuel key s =
      equal_or_greater_loop get_extra key fuel fuel s.root s

  unfoldable pub find_node_equal_or_greater : ℕ → V → RbTree V S → Option Ptr
  unfolding find_node_with_equal_or_greater_payload find_node_with_equal_or_greater_extra
  find_node_equal_or_greater fuel key s =
      if has_option use_extra s
      then find_node_with_equal_or_greater_extra fuel key s
      else find_node_with_equal_or_greater_payload fuel key s
