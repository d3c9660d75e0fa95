-- ===== src/RbTree/Value.antt =====
-- The value of a node (`_mulle__rbtree_get_node_value` in src/mulle--rbtree.h).
use mulle_rbtree.Base.{if◌then◌else◌, true, false, refl, ◌≡◌, ◌≢◌, none, some, arith}
use mulle_rbtree.Storage.{Ptr, nil, Storage}
use mulle_rbtree.RbTree.{
  RbTree, has_option, use_extra, get_payload, get_extra, get_extra_size, node_value, get_node_value,
}

module _ {V S : Type 0} where
  -- the values of the nodes: by payload or by extra bytes, as the options say
  abbrev pub values : RbTree V S → Ptr → V
  values s p = node_value p s

  pub values-payload :
      (s s' : RbTree V S) → s'.payload ≡ s.payload → s'.options ≡ s.options → values s' ≡ values s
  unfolding node_value get_payload get_extra has_option
  values-payload s s' e g = rw (e, g) refl

  pub get_extra-values :
      (s : RbTree V S) (p : Ptr) → has_option use_extra s ≡ true → get_extra p s ≡ values s p
  unfolding node_value
  get_extra-values s p e = rw e refl

  pub get_payload-values :
      (s : RbTree V S) (p : Ptr) → has_option use_extra s ≡ false → get_payload p s ≡ values s p
  unfolding node_value
  get_payload-values s p e = rw e refl

  pub get_node_value-some :
      (p : Ptr) (s : RbTree V S) → p ≢ nil → get_node_value p s ≡ some (values s p)
  unfolding get_node_value
  get_node_value-some p s n = ground arith

  pub get_node_value-none : (p : Ptr) (s : RbTree V S) → p ≡ nil → get_node_value p s ≡ none
  unfolding get_node_value
  get_node_value-none p s e = ground arith

-- what a node of the tree keeps of a value: the pointer, or as many bytes as an element has room for
abbrev pub stored : {V S : Type 0} → Storage V S → RbTree V S → V → V
stored storage s v =
    if has_option use_extra s then storage.memcpy (get_extra_size storage s) v else v

pub stored-same :
    {V S : Type 0} (storage : Storage V S) (s s' : RbTree V S) (v : V)
    → s'.options ≡ s.options
    → storage.element_size s'.nodes ≡ storage.element_size s.nodes
    → stored storage s' v ≡ stored storage s v
unfolding get_extra_size has_option
stored-same storage s s' v e g = rw (e, g) refl
