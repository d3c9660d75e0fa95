-- ===== src/Shape/Depth.antt =====
-- How long the paths of a red-black tree are.
use mulle_rbtree.Base.{
  ℕ, zero, suc, ◌+◌, ◌-◌, ◌*◌, ◌≤◌, ◌<◌, Bool, true, false, ◌≡◌, ap, ◌⊎◌, inl, inr, arith,
}
use mulle_rbtree.Shape.{Shape, leaf, node, is_red, one_if, size}
use mulle_rbtree.Shape.Balance.{height, Balanced, Calm, IsRedBlack}

-- no path from the root has more than `n` nodes
abbrev pub Within : Shape → ℕ → Type 0
Within leaf n = Unit {0}
Within (node l c a r) n = (1 ≤ n) × Within l (n - 1) × Within r (n - 1)

-- 2 ^ n
abbrev pub pow2 : ℕ → ℕ
pow2 zero = 1
pow2 (suc n) = 2 * pow2 n

pub Within-size : (t : Shape) (n : ℕ) → size t ≤ n → Within t n
Within-size leaf n f = tt
Within-size (node l c a r) n f =
    (omega arith, Within-size l (n - 1) (omega arith), Within-size r (n - 1) (omega arith))

pub Within-mono : (t : Shape) (m n : ℕ) → m ≤ n → Within t m → Within t n
Within-mono leaf m n f w = tt
Within-mono (node l c a r) m n f w = (
  omega (arith, f, w.0),
  Within-mono l (m - 1) (n - 1) (omega arith) w.1,
  Within-mono r (m - 1) (n - 1) (omega arith) w.2,
)

-- the exponent is not 0
pub exponent_positive : (t : Shape) (n : ℕ) → size t + 1 < pow2 n → 1 ≤ n
exponent_positive t zero f = absurd (omega arith)
exponent_positive t (suc n) f = omega arith

pow2_positive : (n : ℕ) → 1 ≤ pow2 n
pow2_positive zero = omega arith
pow2_positive (suc n) = omega (arith, pow2_positive n)

pow2_mono : (m n : ℕ) → m ≤ n → pow2 m ≤ pow2 n
pow2_mono zero n f = pow2_positive n
pow2_mono (suc m) zero f = absurd (omega arith)
pow2_mono (suc m) (suc n) f = omega (arith, pow2_mono m n (omega arith))

pow2-step : (n : ℕ) → pow2 (n + 1) ≡ 2 * pow2 n
pow2-step n = let e : n + 1 ≡ suc n = omega arith in ap pow2 e

pow2-same : (n : ℕ) → pow2 (n + 0) ≡ pow2 n
pow2-same n = ap pow2 (omega arith)

-- a black node of height h carries at least 2 ^ h - 1 nodes
pow2-height : (t : Shape) → Balanced t → pow2 (height t) ≤ size t + 1
pow2-height leaf b = omega arith
pow2-height (node l true a r) b = omega (arith, pow2-same (height l), pow2-height l b.1)
pow2-height (node l false a r) b =
    omega (arith, pow2-step (height l), pow2-height l b.1, pow2-height r b.2, ap pow2 b.0)

split_le : (m n : ℕ) → (m ≤ n) ⊎ (n < m)
split_le m n = ground arith

one_if_bound : (b : Bool) → one_if b ≤ 1
one_if_bound true = omega arith
one_if_bound false = omega arith

Within-height :
    (t : Shape) (n : ℕ) → Balanced t → Calm t → 2 * height t + one_if (is_red t) ≤ n → Within t n
Within-height leaf n b c f = tt
Within-height (node l true a r) n b c f = (
  omega arith,
  Within-height l (n - 1) b.1 c.2 (omega (arith, f, ap one_if c.0)),
  Within-height r (n - 1) b.2 c.3 (omega (arith, f, b.0, ap one_if c.1)),
)
Within-height (node l false a r) n b c f = (
  omega arith,
  Within-height l (n - 1) b.1 c.2 (omega (arith, f, one_if_bound (is_red l))),
  Within-height r (n - 1) b.2 c.3 (omega (arith, f, b.0, one_if_bound (is_red r))),
)

height_small : (t : Shape) (n : ℕ) → Balanced t → size t + 1 < pow2 n → height t < n
height_small t n b f = elim (split_le n (height t)) [
  | inl g ↦ absurd (omega (arith, f, pow2-height t b, pow2_mono n (height t) g))
  | inr g ↦ g
]

-- a red-black tree with less than 2 ^ n - 1 nodes has paths of less than 2 * n nodes
pub Within-IsRedBlack :
    (t : Shape) (n : ℕ) → IsRedBlack t → size t + 1 < pow2 n → Within t (2 * n - 1)
Within-IsRedBlack t n rb f =
    Within-height t (2 * n - 1) rb.balanced rb.calm
      (omega (arith, ap one_if rb.black_root, height_small t n rb.balanced f))
