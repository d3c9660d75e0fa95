-- ===== src/Examples/Sessions.antt =====
-- The theorems on the contents of a tree of values, applied to small trees.
use mulle_rbtree.Base.{
  compare, none, true, ℕ, ◌+◌, ◌≤◌, false, refl, [], ◌∷◌, arith, ltb, if◌then◌else◌,
}
use mulle_rbtree.Storage.{Storage, IsPool}
use mulle_rbtree.RbTree.{
  Config, has_option, node_value, get_payload, get_extra, get_extra_size, init_with_config,
}
use mulle_rbtree.RbTree.Rest.{Returns}
use mulle_rbtree.Map.{init_tree}
use mulle_rbtree.Map.Model.{add_value, remove_value, find_value, find_value_at_least, session}
use mulle_rbtree.Map.Holds.{Holds}
use mulle_rbtree.Map.Session.{Played, session-Played, session-init}
use mulle_rbtree.Map.Start.{ValueCallback, ValuesConfig, init_values, Quietly, session-Quietly}
use mulle_rbtree.Map.Roundtrip.{Undone, session-Undone}
use mulle_rbtree.Examples.Trees.{
  three, three_shape, three-IsTree, three-IsRedBlack, three-Sorted, compare-IsComparison,
}
use mulle_rbtree.Examples.Values.{callbacks, not_dirty}

-- a pool that hands out 1, 2, 3 and so on
abbrev serial : Storage ℕ ℕ
serial = record {
  init = λ size alignment capacity. 0;
  done = λ n. n;
  malloc = λ n. (n + 1, n + 1);
  free = λ p n. n;
  element_size = λ n. 48;
  memcpy = λ n v. if ltb n 8 then 0 else v;
}

abbrev serial_pool : IsPool serial
serial_pool = record {
  live = λ n p. p ≤ n;
  malloc_ne_nil = λ n e. omega (arith, e);
  malloc_fresh = λ n l. omega (arith, l);
  malloc_live = λ n. omega arith;
  malloc_keeps = λ n q l. omega (arith, l);
  malloc_size = λ n. refl;
  free_size = λ n p. refl;
  free_keeps = λ n p q m l. l;
}

three-Holds :
    Holds serial serial_pool callbacks compare-IsComparison
      (λ v. v)
      false
      false
      three
      (10 ∷ 20 ∷ 30 ∷ [])
unfolding node_value get_payload get_extra has_option get_extra_size
three-Holds = record {
  shape = three_shape;
  tree = three-IsTree;
  red_black = three-IsRedBlack;
  sorted = three-Sorted;
  listed = refl;
  keeps = λ v. refl;
  owned = λ b m. ground (arith, m);
  dirty_flags = not_dirty;
  duplicates = refl;
}

session-Played_example :
    Returns
      (Played serial serial_pool callbacks compare-IsComparison
        (λ v. v)
        false
        false
        (10 ∷ 20 ∷ 30 ∷ [])
        3
        (add_value 25 ∷ find_value_at_least 21 ∷ remove_value 20 ∷ []))
      (session serial callbacks 7
        (add_value 25 ∷ find_value_at_least 21 ∷ remove_value 20 ∷ [])
        (three, 3))
session-Played_example =
    session-Played serial serial_pool callbacks compare-IsComparison (λ v. v) 7 false false
      (add_value 25 ∷ find_value_at_least 21 ∷ remove_value 20 ∷ []) three 3 (10 ∷ 20 ∷ 30 ∷ [])
      three-Holds (omega arith)

abbrev in_extra_bytes : Config
in_extra_bytes = record { node_extra = 16; options = 6; capacity = 0 }

session-init_example :
    Returns
      (Played serial serial_pool callbacks compare-IsComparison
        (λ v. v)
        false
        true
        []
        0
        (add_value 5 ∷ add_value 7 ∷ add_value 5 ∷ find_value 7 ∷ []))
      (session serial callbacks 5
        (add_value 5 ∷ add_value 7 ∷ add_value 5 ∷ find_value 7 ∷ [])
        (init_tree serial callbacks 0 in_extra_bytes, 0))
unfolding init_tree init_values has_option init_with_config get_extra_size
session-init_example =
    session-init serial serial_pool callbacks compare-IsComparison (λ v. v) 5 0 in_extra_bytes
      (add_value 5 ∷ add_value 7 ∷ add_value 5 ∷ find_value 7 ∷ []) 0 (λ v. refl) (omega arith)

session-Undone_example :
    Returns
      (Undone serial serial_pool callbacks compare-IsComparison
        (λ v. v)
        false
        false
        25
        3
        (10 ∷ 20 ∷ 30 ∷ []))
      (session serial callbacks 7 (add_value 25 ∷ find_value 25 ∷ remove_value 25 ∷ []) (three, 3))
session-Undone_example =
    session-Undone serial serial_pool callbacks compare-IsComparison (λ v. v) 7 false false 25 three
      3 (10 ∷ 20 ∷ 30 ∷ []) three-Holds refl
      ((λ e. ground (arith, e)), ((λ e. ground (arith, e)), ((λ e. ground (arith, e)), tt)))
      (omega arith)

-- values that nobody owns
abbrev unowned : ValueCallback ℕ ℕ
unowned = record {
  retain = λ value held. (value, held);
  release = λ value held. held;
  releases = false;
}

abbrev without_callbacks : ValuesConfig ℕ ℕ
without_callbacks = record {
  base = in_extra_bytes;
  comparison = compare;
  dirty = none;
  callback = none;
}

session-Quietly_example :
    Returns
      (Quietly unowned serial serial_pool without_callbacks compare-IsComparison
        (λ v. v)
        (add_value 5 ∷ remove_value 5 ∷ [])
        0)
      (session serial
        (init_values unowned serial 0 without_callbacks).0
        3
        (add_value 5 ∷ remove_value 5 ∷ [])
        ((init_values unowned serial 0 without_callbacks).1, 0))
unfolding init_tree init_values has_option init_with_config get_extra_size
session-Quietly_example =
    session-Quietly unowned serial serial_pool without_callbacks compare-IsComparison (λ v. v) 3 0
      (add_value 5 ∷ remove_value 5 ∷ []) 0 (λ v. refl) refl (omega arith)
