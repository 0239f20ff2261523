-- ===== src/Damage/Rects.antt =====
-- studio/src/rencache.c: rectangles. An `int` is an integer that does not overflow.
use boggart.Base.{subst, sym, Bool, ◌&&◌, arith}
use boggart.Base.Int.{ℤ, pos, leb_ℤ, Le, Lt, add_ℤ, subtract_ℤ, max_ℤ, min_ℤ, add-subtract}

-- `RenRect`
pub record Rect : Type 0 where
  pub x : ℤ
  pub y : ℤ
  pub width : ℤ
  pub height : ℤ

unfoldable pub rects_overlap : Rect → Rect → Bool
rects_overlap a b =
    (leb_ℤ a.x (add_ℤ b.x b.width) && leb_ℤ b.x (add_ℤ a.x a.width))
    && (leb_ℤ a.y (add_ℤ b.y b.height) && leb_ℤ b.y (add_ℤ a.y a.height))

unfoldable pub intersect_rects : Rect → Rect → Rect
intersect_rects a b =
    let x₁ = max_ℤ a.x b.x in
    let y₁ = max_ℤ a.y b.y in
    let x₂ = min_ℤ (add_ℤ a.x a.width) (add_ℤ b.x b.width) in
    let y₂ = min_ℤ (add_ℤ a.y a.height) (add_ℤ b.y b.height) in
    record {
      x = x₁;
      y = y₁;
      width = max_ℤ (pos 0) (subtract_ℤ x₂ x₁);
      height = max_ℤ (pos 0) (subtract_ℤ y₂ y₁);
    }

unfoldable pub merge_rects : Rect → Rect → Rect
merge_rects a b =
    let x₁ = min_ℤ a.x b.x in
    let y₁ = min_ℤ a.y b.y in
    let x₂ = max_ℤ (add_ℤ a.x a.width) (add_ℤ b.x b.width) in
    let y₂ = max_ℤ (add_ℤ a.y a.height) (add_ℤ b.y b.height) in
    record { x = x₁; y = y₁; width = subtract_ℤ x₂ x₁; height = subtract_ℤ y₂ y₁ }

-- `p` is one of the `n` places from `a` on.
abbrev pub Within : ℤ → ℤ → ℤ → Type 0
Within a n p = Le a p × Lt p (add_ℤ a n)

-- The rectangle has the place (p, q).
abbrev pub Has : Rect → ℤ → ℤ → Type 0
Has r p q = Within r.x r.width p × Within r.y r.height q

merge_left :
    (a m b n p : ℤ)
    → Within a m p
    → Within (min_ℤ a b) (subtract_ℤ (max_ℤ (add_ℤ a m) (add_ℤ b n)) (min_ℤ a b)) p
merge_left a m b n p (h, k) = (
  ground arith,
  subst (Lt p) (sym (add-subtract (min_ℤ a b) (max_ℤ (add_ℤ a m) (add_ℤ b n)))) (ground arith),
)

merge_right :
    (a m b n p : ℤ)
    → Within b n p
    → Within (min_ℤ a b) (subtract_ℤ (max_ℤ (add_ℤ a m) (add_ℤ b n)) (min_ℤ a b)) p
merge_right a m b n p (h, k) = (
  ground arith,
  subst (Lt p) (sym (add-subtract (min_ℤ a b) (max_ℤ (add_ℤ a m) (add_ℤ b n)))) (ground arith),
)

pub merge_rects-left : (a b : Rect) (p q : ℤ) → Has a p q → Has (merge_rects a b) p q
unfolding merge_rects
merge_rects-left a b p q (h, k) =
    (merge_left a.x a.width b.x b.width p h, merge_left a.y a.height b.y b.height q k)

pub merge_rects-right : (a b : Rect) (p q : ℤ) → Has b p q → Has (merge_rects a b) p q
unfolding merge_rects
merge_rects-right a b p q (h, k) =
    (merge_right a.x a.width b.x b.width p h, merge_right a.y a.height b.y b.height q k)
