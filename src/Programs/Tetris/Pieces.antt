-- ===== src/Programs/Tetris/Pieces.antt =====
-- Rotation of the pieces.
use electric_os.Base.{
  ℕ, zero, suc, ◌+◌, ◌*◌, ◌%◌, ◌≡◌, ◌⊎◌, inl, inr, refl, sym, ap, ◌∙◌, arith, map, List, [], ◌∷◌,
  Option, none, some,
}
use electric_os.Base.Int.{ℤ, negsuc, ◌*ℤ◌}
use electric_os.Stl.Point.{Point, point}
use electric_os.Programs.Tetris.{BlockType, rotate_point, rotated, get_shape, piece}

neg_neg : (a : ℤ) → (a *ℤ negsuc 0) *ℤ negsuc 0 ≡ a
unfolding ◌*ℤ◌
neg_neg a = ground arith

four_first :
    (p : Point) (steps : ℕ) → rotate_point p (suc (suc (suc (suc steps)))) ≡ rotate_point p steps
unfolding rotate_point
four_first p steps = λ i. rotate_point (point (neg_neg p.x i) (neg_neg p.y i)) steps

rounds : (p : Point) (steps k : ℕ) → rotate_point p (k * 4 + steps) ≡ rotate_point p steps
rounds p steps zero = ap (rotate_point p) (omega arith)
rounds p steps (suc k) =
    ap (rotate_point p) (omega arith) ∙ four_first p (k * 4 + steps) ∙ rounds p steps k

wrapped :
    (steps : ℕ)
    → ((steps + 4) % 256 ≡ 1 * 4 + steps % 256) ⊎ (steps % 256 ≡ 63 * 4 + (steps + 4) % 256)
wrapped steps = omega arith

period : (p : Point) (steps : ℕ) → rotate_point p ((steps + 4) % 256) ≡ rotate_point p (steps % 256)
period p steps = elim (wrapped steps) [
  | inl e ↦ ap (rotate_point p) e ∙ rounds p (steps % 256) 1
  | inr e ↦ sym (ap (rotate_point p) e ∙ rounds p ((steps + 4) % 256) 63)
]

map_ext : {A B : Type 0} {f g : A → B} → ((x : A) → f x ≡ g x) → (xs : List A) → map f xs ≡ map g xs
map_ext h [] = refl
map_ext h (x ∷ xs) = λ i. h x i ∷ map_ext h xs i

rotated-period :
    (steps : ℕ) (shape : Option (List Point))
    → rotated ((steps + 4) % 256) shape ≡ rotated (steps % 256) shape
rotated-period steps none = refl
rotated-period steps (some ps) = ap some (map_ext (λ p. period p steps) ps)

-- Four more rotation steps give the same shape, also where the step count wraps at 256.
pub get_shape-period :
    (type : BlockType) (steps : ℕ) → get_shape type (steps + 4) ≡ get_shape type steps
unfolding get_shape
get_shape-period type steps = rotated-period steps (piece type)
