-- ===== src/Memory/Paging/MapAddress/Paths.antt =====
-- Paths of indices, root first, and which extend which.
use electric_os.Base.{
  ℕ, ◌≡◌, ◌≢◌, refl, Bool, true, false, ◌&&◌, arith, ◌==◌, List, [], ◌∷◌, ◌++◌, some,
}

pub some-eq : {p q : List ℕ} → some p ≡ some q → p ≡ q
some-eq e = cc

abbrev pub extends : List ℕ → List ℕ → Bool
extends q [] = true
extends [] (x ∷ p) = false
extends (y ∷ q) (x ∷ p) = (y == x) && extends q p

pub extends-append : (q p r : List ℕ) → extends q p ≡ true → extends (q ++ r) p ≡ true
extends-append q [] r h = refl
extends-append [] (x ∷ p) r h = cc
extends-append (y ∷ q) (x ∷ p) r h = ground (arith, extends-append q p r)

pub not_extends : (p : List ℕ) (i : ℕ) → extends p (p ++ i ∷ []) ≡ false
not_extends [] i = refl
not_extends (x ∷ p) i = ground (arith, not_extends p i)

-- paths that part at `i` and `j` have no common extension
pub apart :
    (q p : List ℕ) (i j : ℕ)
    → i ≢ j
    → extends q (p ++ i ∷ []) ≡ true
    → extends q (p ++ j ∷ []) ≡ false
apart [] [] i j d h = refl
apart [] (x ∷ p) i j d h = cc
apart (y ∷ q) [] i j d h = ground arith
apart (y ∷ q) (x ∷ p) i j d h = ground (arith, apart q p i j d)

pub extends_prefix : (q p : List ℕ) (i : ℕ) → extends q (p ++ i ∷ []) ≡ true → extends q p ≡ true
extends_prefix q [] i h = refl
extends_prefix [] (x ∷ p) i h = cc
extends_prefix (y ∷ q) (x ∷ p) i h = ground (arith, extends_prefix q p i)

pub extends_self : (p : List ℕ) → extends p p ≡ true
extends_self [] = refl
extends_self (x ∷ p) = ground (arith, extends_self p)
