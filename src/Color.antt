-- ===== src/Color.antt =====
-- The `_color` word of a node (src/mulle--rbtree.h): one bit for the colour, one for the marker and
-- one for the dirty flag, with the functions that test and set them.
pub mod Flags
use mulle_rbtree.Base.{ℕ, Bool, true, bit_and, bit_or, ◌==◌, ◌-◌, not, if◌then◌else◌}

-- the enumerators of the anonymous enum
abbrev pub black : ℕ
black = 0

abbrev pub red : ℕ
red = 1

abbrev pub marker : ℕ
marker = 0x40

abbrev pub dirty : ℕ
dirty = 0x80

-- `~m` on a 32-bit int, as a bit pattern
unfoldable pub complement : ℕ → ℕ
complement m = 0xffffffff - m

unfoldable pub is_dirty : ℕ → Bool
is_dirty w = not (bit_and w dirty == 0)

unfoldable pub set_dirty : ℕ → ℕ
set_dirty w = bit_or w dirty

unfoldable pub clear_dirty : ℕ → ℕ
unfolding complement
clear_dirty w = bit_and w (complement dirty)

unfoldable pub is_marked : ℕ → Bool
is_marked w = not (bit_and w marker == 0)

unfoldable pub clear_marker : ℕ → ℕ
unfolding complement
clear_marker w = bit_and w (complement marker)

unfoldable pub set_marker : ℕ → ℕ
set_marker w = bit_or w marker

unfoldable pub get_color : ℕ → ℕ
get_color w = bit_and w 0x1

unfoldable pub is_black : ℕ → Bool
is_black w = bit_and w 0x1 == black

unfoldable pub is_red : ℕ → Bool
is_red w = bit_and w 0x1 == red

unfoldable pub set_color : ℕ → ℕ → ℕ
unfolding complement
set_color w color = bit_or (bit_and w (complement 0x1)) color

unfoldable pub set_red : ℕ → ℕ
unfolding complement
set_red w = bit_or (bit_and w (complement 0x1)) red

unfoldable pub set_black : ℕ → ℕ
unfolding complement
set_black w = bit_or (bit_and w (complement 0x1)) black
