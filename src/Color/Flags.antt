-- ===== src/Color/Flags.antt =====
-- The `_color` word of src/mulle--rbtree.h against three independent flags.
use mulle_rbtree.Base.{ℕ, ◌+◌, ◌*◌, Bool, true, false, not, ◌≡◌, refl, ◌∙◌, if◌then◌else◌}
use mulle_rbtree.Color.{
  complement, is_dirty, set_dirty, clear_dirty, is_marked, set_marker, clear_marker, get_color,
  is_black, is_red, set_color, set_red, set_black,
}

abbrev pub bit : Bool → ℕ
bit true = 1
bit false = 0

-- the word of a node that is red or not, marked or not, and dirty or not
abbrev pub encode : (r m d : Bool) → ℕ
encode r m d = bit r + 64 * bit m + 128 * bit d

-- Each test of a `_color` word of three flags reads its own flag.
pub encode-tests :
    (r m d : Bool)
    → let w = encode r m d in
      (is_red w ≡ r)
      × (is_black w ≡ not r)
      × (get_color w ≡ bit r)
      × (is_marked w ≡ m)
      × (is_dirty w ≡ d)
unfolding is_red is_black get_color is_marked is_dirty
encode-tests true true true = (refl, refl, refl, refl, refl)
encode-tests true true false = (refl, refl, refl, refl, refl)
encode-tests true false true = (refl, refl, refl, refl, refl)
encode-tests true false false = (refl, refl, refl, refl, refl)
encode-tests false true true = (refl, refl, refl, refl, refl)
encode-tests false true false = (refl, refl, refl, refl, refl)
encode-tests false false true = (refl, refl, refl, refl, refl)
encode-tests false false false = (refl, refl, refl, refl, refl)

encode-flags :
    (r m d : Bool)
    → let w = encode r m d in
      (set_red w ≡ encode true m d)
      × (set_black w ≡ encode false m d)
      × (set_marker w ≡ encode r true d)
      × (clear_marker w ≡ encode r false d)
      × (set_dirty w ≡ encode r m true)
      × (clear_dirty w ≡ encode r m false)
unfolding set_red set_black set_marker clear_marker set_dirty clear_dirty complement
encode-flags true true true = (refl, refl, refl, refl, refl, refl)
encode-flags true true false = (refl, refl, refl, refl, refl, refl)
encode-flags true false true = (refl, refl, refl, refl, refl, refl)
encode-flags true false false = (refl, refl, refl, refl, refl, refl)
encode-flags false true true = (refl, refl, refl, refl, refl, refl)
encode-flags false true false = (refl, refl, refl, refl, refl, refl)
encode-flags false false true = (refl, refl, refl, refl, refl, refl)
encode-flags false false false = (refl, refl, refl, refl, refl, refl)

set_color-bit : (w : ℕ) (c : Bool) → set_color w (bit c) ≡ (if c then set_red w else set_black w)
unfolding set_color set_red set_black
set_color-bit w true = refl
set_color-bit w false = refl

set_color-encode : (r m d c : Bool) → set_color (encode r m d) (bit c) ≡ encode c m d
set_color-encode r m d true = set_color-bit (encode r m d) true ∙ (encode-flags r m d).0
set_color-encode r m d false = set_color-bit (encode r m d) false ∙ (encode-flags r m d).1

-- Each assignment to a `_color` word of three flags writes its own flag and leaves the other two
-- as they are.
pub encode-updates :
    (r m d c : Bool)
    → let w = encode r m d in
      (set_color w (bit c) ≡ encode c m d)
      × (set_red w ≡ encode true m d)
      × (set_black w ≡ encode false m d)
      × (set_marker w ≡ encode r true d)
      × (clear_marker w ≡ encode r false d)
      × (set_dirty w ≡ encode r m true)
      × (clear_dirty w ≡ encode r m false)
encode-updates r m d c =
    let f = encode-flags r m d in (set_color-encode r m d c, f.0, f.1, f.2, f.3, f.4, f.5)
