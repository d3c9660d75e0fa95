-- ===== src/Order.antt =====
-- What a comparison function promises, and lists in its order. `int (*a_comp)( void *, void *)` is a
-- parameter of the trees; the sign of its result is an `Ordering`.
use mulle_rbtree.Base.{
  Bool, true, false, ◌≡◌, ◌≢◌, refl, ◌⊎◌, inl, inr, List, [], ◌∷◌, ◌++◌, Ordering, arith,
}

-- the three signs of a comparison
pub sign : (o : Ordering) → (o ≡ Ordering.eq) ⊎ ((o ≡ Ordering.lt) ⊎ (o ≡ Ordering.gt))
sign Ordering.eq = inl refl
sign Ordering.lt = inr (inl refl)
sign Ordering.gt = inr (inr refl)

abbrev pub All : {A : Type 0} → (A → Type 0) → List A → Type 0
All P [] = Unit {0}
All P (x ∷ xs) = P x × All P xs

pub All-append :
    {A : Type 0} (P : A → Type 0) (xs ys : List A) → All P xs → All P ys → All P (xs ++ ys)
All-append P [] ys a b = b
All-append P (x ∷ xs) ys a b = (a.0, All-append P xs ys a.1 b)

pub All-imp :
    {A : Type 0} (P Q : A → Type 0) (xs : List A) → ((x : A) → P x → Q x) → All P xs → All Q xs
All-imp P Q [] f a = tt
All-imp P Q (x ∷ xs) f a = (f x a.0, All-imp P Q xs f a.1)

pub All-part :
    {A : Type 0} (P : A → Type 0) (xs ys : List A) → All P (xs ++ ys) → All P xs × All P ys
All-part P [] ys h = (tt, h)
All-part P (x ∷ xs) ys h = let rest = All-part P xs ys h.1 in ((h.0, rest.0), rest.1)

pub All-split :
    {A : Type 0} (P : A → Type 0) (xs ys : List A) (a : A)
    → All P (xs ++ a ∷ ys)
    → All P xs × P a × All P ys
All-split P xs ys a h = let parts = All-part P xs (a ∷ ys) h in (parts.0, parts.1.0, parts.1.1)

-- A total preorder: `a` is at most `b` when the sign is not above 0.
pub record IsComparison {V : Type 0} (comp : V → V → Ordering) : Type 0 where
  pub gt_of_lt : (a b : V) → comp a b ≡ Ordering.lt → comp b a ≡ Ordering.gt
  pub lt_of_gt : (a b : V) → comp a b ≡ Ordering.gt → comp b a ≡ Ordering.lt
  pub trans : (a b c : V) → comp a b ≢ Ordering.gt → comp b c ≢ Ordering.gt → comp a c ≢ Ordering.gt

module _ {V A : Type 0} (comp : V → V → Ordering) (value : A → V) where
  abbrev pub Le : A → A → Type 0
  Le p q = comp (value p) (value q) ≢ Ordering.gt

  abbrev pub Sorted : List A → Type 0
  Sorted [] = Unit {0}
  Sorted (x ∷ xs) = All (Le x) xs × Sorted xs

  -- `x` stands on the lower side of the key: strictly, unless equal keys are allowed
  abbrev pub Low : Bool → V → A → Type 0
  Low true key x = comp key (value x) ≢ Ordering.lt
  Low false key x = comp key (value x) ≡ Ordering.gt

  abbrev pub High : V → A → Type 0
  High key x = comp key (value x) ≡ Ordering.lt

  module _ (law : IsComparison comp) where
    pub Low-le : (d : Bool) (key : V) (x y : A) → Low d key y → Le x y → Low d key x
    Low-le true key x y h le = ground (
      arith,
      law.gt_of_lt key (value x),
      law.lt_of_gt (value y) key,
      law.trans (value x) (value y) key,
    )
    Low-le false key x y h le = ground (arith, law.trans key (value x) (value y))

    pub High-le : (key : V) (x y : A) → High key x → Le x y → High key y
    High-le key x y h le = ground (
      arith,
      law.gt_of_lt key (value x),
      law.lt_of_gt (value y) key,
      law.trans (value x) (value y) key,
    )

    pub Low-Le : (d : Bool) (key : V) (x : A) → Low d key x → comp (value x) key ≢ Ordering.gt
    Low-Le true key x h = ground (arith, law.lt_of_gt (value x) key)
    Low-Le false key x h = ground (arith, law.lt_of_gt (value x) key)

  -- what stands in the middle bounds both sides
  pub Sorted-split :
      (xs ys : List A) (a : A)
      → Sorted (xs ++ a ∷ ys)
      → All (λ x. Le x a) xs × All (Le a) ys × Sorted xs × Sorted ys
  Sorted-split [] ys a h = (tt, h.0, tt, h.1)
  Sorted-split (x ∷ xs) ys a h =
      let rest = Sorted-split xs ys a h.1 in
      let first = All-split (Le x) xs ys a h.0 in
      ((first.1, rest.0), rest.1, (first.0, rest.2), rest.3)

  -- a node between the lower and the higher ones keeps the order
  pub Sorted-insert :
      (xs ys : List A) (a : A)
      → Sorted (xs ++ ys)
      → All (λ x. Le x a) xs
      → All (Le a) ys
      → Sorted (xs ++ a ∷ ys)
  Sorted-insert [] ys a h low high = (high, h)
  Sorted-insert (x ∷ xs) ys a h low high =
      let first = All-part (Le x) xs ys h.0 in
      (All-append (Le x) xs (a ∷ ys) first.0 (low.0, first.1), Sorted-insert xs ys a h.1 low.1 high)

  -- without one of its nodes
  pub Sorted-remove : (xs ys : List A) (a : A) → Sorted (xs ++ a ∷ ys) → Sorted (xs ++ ys)
  Sorted-remove [] ys a h = h.1
  Sorted-remove (x ∷ xs) ys a h =
      let first = All-split (Le x) xs ys a h.0 in
      (All-append (Le x) xs ys first.0 first.2, Sorted-remove xs ys a h.1)
