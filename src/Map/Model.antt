-- ===== src/Map/Model.antt =====
-- What a tree of values promises its caller (src/mulle-rbtree.h): its contents are a list of values,
-- and each call is a step on that list and on the state of the callbacks.
use mulle_rbtree.Base.{
  true, ◌==◌, ◌&&◌, ◌>>=◌, ℕ, Bool, false, ◌≡◌, ◌≢◌, Option, none, some, List, [], ◌∷◌, ◌++◌,
  Ordering,
}
use mulle_rbtree.Order.{All, Low, High}
use mulle_rbtree.RbTree.{RbTree}
use mulle_rbtree.RbTree.Insert.{eexist}
use mulle_rbtree.Map.Reports.{Tells}
use mulle_rbtree.Storage.{Storage}
use mulle_rbtree.Map.{Callbacks, add, remove, find, find_equal_or_greater, enoent}

-- a call
pub data Request (V : Type 0) : Type 0 where
  add_value : V → Request V
  remove_value : V → Request V
  find_value : V → Request V
  find_value_at_least : V → Request V

-- its result
pub data Response (V : Type 0) : Type 0 where
  code : ℕ → Response V
  found : Option V → Response V

module _ {V W : Type 0} (callbacks : Callbacks V W) where
  -- no value of the list is equal to the key
  abbrev pub Lacks : V → List V → Type 0
  Lacks key xs = All (λ v. callbacks.comparison key v ≢ Ordering.eq) xs

  -- the results after which a tree with dirty flags reports the dirty nodes
  abbrev pub reports : Request V → Response V → Bool
  reports (add_value v) a = true
  reports (remove_value key) (code n) = n == 0
  reports (remove_value key) (found o) = false
  reports (find_value key) a = false
  reports (find_value_at_least key) a = false

module _ {V W : Type 0} (callbacks : Callbacks V W) (kept : V → V) where
  -- One call: from the contents and the state before it to the result and those after it, before
  -- any report of dirty nodes. `d` says whether duplicates are allowed, and `kept` is what the tree
  -- keeps of a value.
  pub data Step (d : Bool) (xs : List V) (w : W)
      : Request V → Response V → List V → W → Type 0 where
    accept :
        (v : V) (ys zs : List V)
        → xs ≡ ys ++ zs
        → All (Low callbacks.comparison (λ u. u) d (kept (callbacks.retain v w).0)) ys
        → All (High callbacks.comparison (λ u. u) (kept (callbacks.retain v w).0)) zs
        → Step d xs w
            (add_value v)
            (code 0)
            (ys ++ kept (callbacks.retain v w).0 ∷ zs)
            (callbacks.retain v w).1
    reject :
        (v u : V) (ys zs : List V)
        → d ≡ false
        → xs ≡ ys ++ u ∷ zs
        → callbacks.comparison (kept (callbacks.retain v w).0) u ≡ Ordering.eq
        → Step d xs w
            (add_value v)
            (code eexist)
            xs
            (callbacks.release (callbacks.retain v w).0 (callbacks.retain v w).1)
    take :
        (key u : V) (ys zs : List V)
        → xs ≡ ys ++ u ∷ zs
        → callbacks.comparison key u ≡ Ordering.eq
        → Step d xs w (remove_value key) (code 0) (ys ++ zs) (callbacks.release u w)
    miss : (key : V) → Lacks callbacks key xs → Step d xs w (remove_value key) (code enoent) xs w
    hit :
        (key u : V) (ys zs : List V)
        → xs ≡ ys ++ u ∷ zs
        → callbacks.comparison key u ≡ Ordering.eq
        → Step d xs w (find_value key) (found (some u)) xs w
    lack : (key : V) → Lacks callbacks key xs → Step d xs w (find_value key) (found none) xs w
    equal_one :
        (key u : V) (ys zs : List V)
        → xs ≡ ys ++ u ∷ zs
        → callbacks.comparison key u ≡ Ordering.eq
        → Step d xs w (find_value_at_least key) (found (some u)) xs w
    next_one :
        (key u : V) (ys zs : List V)
        → xs ≡ ys ++ u ∷ zs
        → All (Low callbacks.comparison (λ v. v) false key) ys
        → callbacks.comparison key u ≡ Ordering.lt
        → Step d xs w (find_value_at_least key) (found (some u)) xs w
    past_all :
        (key : V)
        → All (Low callbacks.comparison (λ v. v) false key) xs
        → Step d xs w (find_value_at_least key) (found none) xs w

  -- A sequence of calls. With `r` the dirty callback may run at the end of a call.
  pub data Steps (d r : Bool)
      : List V → W → List (Request V) → List (Response V) → List V → W → Type 0 where
    stop : {xs : List V} {w : W} → Steps d r xs w [] [] xs w
    step :
        {q : Request V} {a : Response V} {xs ys zs : List V} {w w₁ w₂ w₃ : W}
        {qs : List (Request V)} {answers : List (Response V)}
        → Step d xs w q a ys w₁
        → Tells callbacks (reports callbacks q a && r) w₁ w₂
        → Steps d r ys w₂ qs answers zs w₃
        → Steps d r xs w (q ∷ qs) (a ∷ answers) zs w₃

module _ {V S W : Type 0} (storage : Storage V S) (callbacks : Callbacks V W) where
  -- the call on a tree
  unfoldable pub respond : ℕ → Request V → RbTree V S × W → Option (Response V × RbTree V S × W)
  respond fuel (add_value v) (s, w) = do
    (rval, s', w') ← add storage callbacks fuel v (s, w)
    some (code rval, s', w')
  respond fuel (remove_value key) (s, w) = do
    (rval, s', w') ← remove storage callbacks fuel key (s, w)
    some (code rval, s', w')
  respond fuel (find_value key) (s, w) = do
    value ← find callbacks fuel key s
    some (found value, s, w)
  respond fuel (find_value_at_least key) (s, w) = do
    value ← find_equal_or_greater callbacks fuel key s
    some (found value, s, w)

  -- the calls one after the other, on one tree
  unfoldable pub session :
      ℕ → List (Request V) → RbTree V S × W → Option (List (Response V) × RbTree V S × W)
  session fuel [] (s, w) = some ([], s, w)
  session fuel (q ∷ qs) (s, w) = do
    (a, s₁, w₁) ← respond fuel q (s, w)
    (answers, s₂, w₂) ← session fuel qs (s₁, w₁)
    some (a ∷ answers, s₂, w₂)
