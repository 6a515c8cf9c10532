-- ===== src/Memory/Paging/MapAddress/Step.antt =====
-- An upper level of `MapAddress`, given what the levels below it do.
use electric_os.Base.{
  ℕ, suc, ◌+◌, ◌≡◌, ◌≢◌, true, false, arith, ◌==◌, Bool-cases, Option-cases, inl, inr, ◌⊎◌, List,
  [], ◌∷◌, ◌++◌, length, none, some, ==_iff, sym, ◌∙◌, length-append, ap,
}
use electric_os.Memory.Paging.{Machine}
use electric_os.Memory.Paging.Walk.{child, walk, walk-some, walk-none}
use electric_os.Memory.Paging.Tree.{Owner, IsTree, Next}
use electric_os.Memory.Paging.MapAddress.Paths.{some-eq, extends, not_extends, apart, extends_self}
use electric_os.Memory.Paging.MapAddress.Agree.{walk-agree}
use electric_os.Memory.Paging.MapAddress.Leaf.{Mapped, longer}

-- one level above: the step to `g`, and what `map_path` does from there
module _ (s s1 s' : Machine) (owner owner1 owner' : Owner) (f i j g target : ℕ) (rest p : List ℕ)
    (tree : IsTree s owner) (owns : owner f ≡ some p)
    (depth : length p + suc (suc (length rest)) ≡ 4) (n : Next s owner f i p s1 g owner1)
    (m : Mapped s1 owner1 g j rest (p ++ i ∷ []) target s' owner') where
  ne_below : (h : ℕ) (q : List ℕ) → owner h ≡ some q → extends q (p ++ i ∷ []) ≡ false → h ≢ g
  ne_below h q e x same = cc (x, ap (λ r. extends r (p ++ i ∷ [])) path, extends_self (p ++ i ∷ []))
    where
      path : q ≡ p ++ i ∷ []
      path = some-eq (sym (n.kept h q e) ∙ ap owner1 same ∙ n.owned)

  beside :
      (h k : ℕ) (q : List ℕ)
      → owner h ≡ some q
      → extends q (p ++ i ∷ []) ≡ false
      → (h ≢ f) ⊎ (k ≢ i)
      → child s' h k ≡ child s h k
  beside h k q e x d =
      m.outside h k q (n.kept h q e) (longer q p i j x) (inl (ne_below h q e x)) ∙ n.same h k q e d

  -- `f` itself has another path than its tables
  f_beside : extends p (p ++ i ∷ []) ≡ false
  f_beside = not_extends p i

  beside-f : (k : ℕ) → k ≢ i → child s' f k ≡ child s f k
  beside-f k d = beside f k p owns f_beside (inr d)

  still-linked : child s' f i ≡ some g
  still-linked =
      m.outside f i p (n.kept f p owns) (longer p p i j f_beside) (inl (ne_below f p owns f_beside))
      ∙ n.linked

  -- the subtree behind another entry of `f`
  other-subtree :
      (k h : ℕ) (path : List ℕ)
      → k ≢ i
      → length path ≡ suc (length rest)
      → child s f k ≡ some h
      → walk s' h path ≡ walk s h path
  other-subtree k h path d len c =
      walk-agree s s' owner tree (p ++ k ∷ [])
        (λ x l q e y. beside x l q e (apart q p k i d y) (inl (not_f x q e y))) path h (p ++ k ∷ [])
        (tree.below f k h p owns (omega arith) c) (extends_self (p ++ k ∷ []))
        (omega (arith, length-append p (k ∷ [])))
    where
      not_f : (x : ℕ) (q : List ℕ) → owner x ≡ some q → extends q (p ++ k ∷ []) ≡ true → x ≢ f
      not_f x q e y same = cc (
        y,
        not_extends p k,
        ap (λ r. extends r (p ++ k ∷ [])) (some-eq (sym e ∙ ap owner same ∙ owns)),
      )

  -- the walk from the new or old table `g`, compared with the walk from `f` before
  through-g :
      (path : List ℕ) → length path ≡ suc (length rest) → walk s1 g path ≡ walk s f (i ∷ path)
  through-g path len = go n.origin path len
    where
      not_f : (x : ℕ) (q : List ℕ) → owner x ≡ some q → extends q (p ++ i ∷ []) ≡ true → x ≢ f
      not_f x q e y same = cc (
        y,
        not_extends p i,
        ap (λ r. extends r (p ++ i ∷ [])) (some-eq (sym e ∙ ap owner same ∙ owns)),
      )

      go :
          ((child s f i ≡ some g) ⊎ ((child s f i ≡ none) × ((k : ℕ) → child s1 g k ≡ none)))
          → (path : List ℕ) → length path ≡ suc (length rest)
          → walk s1 g path ≡ walk s f (i ∷ path)
      go (inl c) path len =
          walk-agree s s1 owner tree (p ++ i ∷ [])
            (λ x l q e y. n.same x l q e (inl (not_f x q e y))) path g (p ++ i ∷ [])
            (tree.below f i g p owns (omega arith) c) (extends_self (p ++ i ∷ []))
            (omega (arith, length-append p (i ∷ [])))
          ∙ sym (walk-some s f i path c)
      go (inr c) [] len = absurd (omega arith)
      go (inr c) (k ∷ path) len =
          walk-none s1 g k path (c.1 k) ∙ sym (walk-none s f i (k ∷ path) c.0)

  miss-cons :
      (k : ℕ) (path : List ℕ)
      → length path ≡ suc (length rest)
      → (k ∷ path) ≢ (i ∷ j ∷ rest)
      → walk s' f (k ∷ path) ≡ walk s f (k ∷ path)
  miss-cons k path len d = elim (Bool-cases (k == i)) [
    | inl e ↦
        let same : k ≡ i = (==_iff k i).0 e in
        ap (λ (x : ℕ). walk s' f (x ∷ path)) same
        ∙ walk-some s' f i path still-linked
        ∙ m.miss path len (λ r. d (ap (λ (x : ℕ). x ∷ path) same ∙ ap (λ (l : List ℕ). i ∷ l) r))
        ∙ through-g path len
        ∙ ap (λ (x : ℕ). walk s f (x ∷ path)) (sym same)
    | inr ne ↦ other k path (λ r. cc (ne, (==_iff k i).1 r)) len
  ]
    where
      other :
          (k : ℕ) (path : List ℕ)
          → k ≢ i
          → length path ≡ suc (length rest)
          → walk s' f (k ∷ path) ≡ walk s f (k ∷ path)
      other k path ne len = elim (Option-cases (child s f k)) [
        | inl absent ↦
            walk-none s' f k path (beside-f k ne ∙ absent) ∙ sym (walk-none s f k path absent)
        | inr (h, c) ↦
            walk-some s' f k path (beside-f k ne ∙ c)
            ∙ other-subtree k h path ne len c
            ∙ sym (walk-some s f k path c)
      ]

  pub step-Mapped : Mapped s owner f i (j ∷ rest) p target s' owner'
  step-Mapped = record {
    tree = m.tree;
    same_root = m.same_root ∙ n.same_root;
    kept = λ h q e. m.kept h q (n.kept h q e);
    hit = walk-some s' f i (j ∷ rest) still-linked ∙ m.hit;
    miss = miss;
    outside = beside;
  }
    where
      miss :
          (path : List ℕ)
          → length path ≡ suc (suc (length rest))
          → path ≢ i ∷ j ∷ rest
          → walk s' f path ≡ walk s f path
      miss [] len d = absurd (omega arith)
      miss (k ∷ path) len d = miss-cons k path (omega arith) d
