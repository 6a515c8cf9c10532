-- ===== src/Memory/Paging/MapAddress/Agree.antt =====
-- Walks of two states that agree on a subtree.
use electric_os.Base.{
  ℕ, ◌+◌, ◌≤◌, ◌≡◌, true, arith, Option-cases, inl, inr, List, [], ◌∷◌, ◌++◌, length, some, sym,
  ◌∙◌, length-append,
}
use electric_os.Memory.Paging.{Machine}
use electric_os.Memory.Paging.Walk.{child, walk, walk-nil, walk-some, walk-none}
use electric_os.Memory.Paging.Tree.{Owner, IsTree}
use electric_os.Memory.Paging.MapAddress.Paths.{extends, extends-append}

-- Two states that agree on the tables at and below `g` walk alike from there.
module _ (s s' : Machine) (owner : Owner) (tree : IsTree s owner) (r : List ℕ)
    (same : (h j : ℕ) (q : List ℕ)
      → owner h ≡ some q
      → extends q r ≡ true
      → child s' h j ≡ child s h j) where
  pub walk-agree :
      (rest : List ℕ) (g : ℕ) (q : List ℕ)
      → owner g ≡ some q
      → extends q r ≡ true
      → length q + length rest ≤ 4
      → walk s' g rest ≡ walk s g rest
  walk-agree [] g q e x len = walk-nil s' g ∙ sym (walk-nil s g)
  walk-agree (i ∷ []) g q e x len = elim (Option-cases (child s g i)) [
    | inl absent ↦ walk-none s' g i [] (same g i q e x ∙ absent) ∙ sym (walk-none s g i [] absent)
    | inr (h, c) ↦
        walk-some s' g i [] (same g i q e x ∙ c)
        ∙ walk-nil s' h
        ∙ sym (walk-nil s h)
        ∙ sym (walk-some s g i [] c)
  ]
  walk-agree (i ∷ j ∷ rest) g q e x len = elim (Option-cases (child s g i)) [
    | inl absent ↦
        walk-none s' g i (j ∷ rest) (same g i q e x ∙ absent)
        ∙ sym (walk-none s g i (j ∷ rest) absent)
    | inr (h, c) ↦
        walk-some s' g i (j ∷ rest) (same g i q e x ∙ c)
        ∙ walk-agree (j ∷ rest) h (q ++ i ∷ []) (tree.below g i h q e (omega arith) c)
            (extends-append q r (i ∷ []) x) (omega (arith, length-append q (i ∷ [])))
        ∙ sym (walk-some s g i (j ∷ rest) c)
  ]
