-- ===== src/Sides.antt =====
-- Two elements of the same list: nodes of a tree in order, or values of its contents.
use mathlib.Core.List.{head-eq_of_cons-eq, tail-eq_of_cons-eq}
use mulle_rbtree.Base.{◌≡◌, refl, sym, ◌∙◌, ap, List, [], ◌∷◌, ◌++◌}

-- where `a` stands in the list `xs ++ b ∷ us`
pub data Side {A : Type 0} (xs us : List A) (b a : A) (ys zs : List A) : Type 0 where
  lower : (ws : List A) → xs ≡ ys ++ a ∷ ws → zs ≡ ws ++ b ∷ us → Side xs us b a ys zs
  here : b ≡ a → xs ≡ ys → us ≡ zs → Side xs us b a ys zs
  upper : (ws : List A) → us ≡ ws ++ a ∷ zs → ys ≡ xs ++ b ∷ ws → Side xs us b a ys zs

pub side :
    {A : Type 0} (xs us : List A) (b a : A) (ys zs : List A)
    → xs ++ b ∷ us ≡ ys ++ a ∷ zs
    → Side xs us b a ys zs
side [] us b a [] zs e = here (head-eq_of_cons-eq e) refl (tail-eq_of_cons-eq e)
side [] us b a (y ∷ ys) zs e =
    upper ys (tail-eq_of_cons-eq e) (ap (λ q. q ∷ ys) (sym (head-eq_of_cons-eq e)))
side (x ∷ xs) us b a [] zs e =
    lower xs (ap (λ q. q ∷ xs) (head-eq_of_cons-eq e)) (sym (tail-eq_of_cons-eq e))
side (x ∷ xs) us b a (y ∷ ys) zs e = elim (side xs us b a ys zs (tail-eq_of_cons-eq e)) [
  | lower ws f g ↦ lower ws (ap (λ q. q ∷ xs) (head-eq_of_cons-eq e) ∙ ap (λ q. y ∷ q) f) g
  | here q f g ↦ here q (ap (λ q. q ∷ xs) (head-eq_of_cons-eq e) ∙ ap (λ q. y ∷ q) f) g
  | upper ws f g ↦ upper ws f (ap (λ q. q ∷ ys) (sym (head-eq_of_cons-eq e)) ∙ ap (λ q. x ∷ q) g)
]
