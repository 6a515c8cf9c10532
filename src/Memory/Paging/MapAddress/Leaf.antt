-- ===== src/Memory/Paging/MapAddress/Leaf.antt =====
-- The last level of `MapAddress`, and what is claimed of every level.
use electric_os.Base.{
  ℕ, suc, ◌*◌, ◌/◌, ◌<◌, ◌≡◌, ◌≢◌, refl, false, ◌&&◌, arith, ◌==◌, if◌then◌else◌, u64, Option-cases,
  inl, inr, ◌⊎◌, List, [], ◌∷◌, ◌++◌, length, some, sym, ◌∙◌, ap,
}
use electric_os.Memory.Paging.{Machine, store, link_entry}
use electric_os.Memory.Paging.Walk.{child, walk, walk-nil, walk-some, walk-none}
use electric_os.Memory.Paging.Tree.{Owner, IsTree}
use electric_os.Memory.Paging.MapAddress.Paths.{some-eq, extends, extends_prefix}

-- What `map_path` does from a table `f` on: the walk along its path now ends at the target's page,
-- every other walk is as before, and no entry outside its subtree has changed.
pub record Mapped (s : Machine) (owner : Owner) (f i : ℕ) (rest p : List ℕ) (target : ℕ)
    (s' : Machine) (owner' : Owner) : Type 0 where
  pub tree : IsTree s' owner'
  pub same_root : s'.pml4 ≡ s.pml4
  pub kept : (h : ℕ) (q : List ℕ) → owner h ≡ some q → owner' h ≡ some q
  pub hit : walk s' f (i ∷ rest) ≡ some (u64 (target / 4096 * 4096))
  pub miss :
      (path : List ℕ)
      → length path ≡ suc (length rest)
      → path ≢ i ∷ rest
      → walk s' f path ≡ walk s f path
  pub outside :
      (h j : ℕ) (q : List ℕ)
      → owner h ≡ some q
      → extends q (p ++ i ∷ []) ≡ false
      → (h ≢ f) ⊎ (j ≢ i)
      → child s' h j ≡ child s h j

store-child :
    (s : Machine) (f i target h j : ℕ)
    → child (store s f i (link_entry (s.tables f i) target)) h j
      ≡ (if (h == f) && (j == i) then some (u64 (target / 4096 * 4096)) else child s h j)
unfolding child store link_entry
store-child s f i target h j = ground arith

pub longer :
    (q p : List ℕ) (i j : ℕ)
    → extends q (p ++ i ∷ []) ≡ false
    → extends q ((p ++ i ∷ []) ++ j ∷ []) ≡ false
longer q p i j h = ground (arith, extends_prefix q (p ++ i ∷ []) j)

-- the last level: the entry itself is written
pub store-Mapped :
    (s : Machine) (owner : Owner) (f i : ℕ) (p : List ℕ) (target : ℕ)
    → IsTree s owner
    → owner f ≡ some p
    → length p ≡ 3
    → Mapped s owner f i [] p target (store s f i (link_entry (s.tables f i) target)) owner
unfolding store
store-Mapped s owner f i p target tree owns deep = record {
  tree = record {
    root = tree.root;
    below = λ h j g q e short c.
        tree.below h j g q e short (sym (other h j (inl (not_last h q e short))) ∙ c);
    locked = tree.locked;
    allocator_valid = tree.allocator_valid;
  };
  same_root = refl;
  kept = λ h q e. e;
  hit = walk-some s' f i [] (store-child s f i target f i ∙ ground arith) ∙ walk-nil s' _;
  miss = miss;
  outside = λ h j q e x d. other h j d;
}
  where
    s' : Machine
    s' = store s f i (link_entry (s.tables f i) target)

    other : (h j : ℕ) → (h ≢ f) ⊎ (j ≢ i) → child s' h j ≡ child s h j
    other h j d = ground (arith, store-child s f i target h j)

    not_last : (h : ℕ) (q : List ℕ) → owner h ≡ some q → length q < 3 → h ≢ f
    not_last h q e short same =
        absurd (omega (arith, ap length (some-eq (sym e ∙ ap owner same ∙ owns))))

    miss : (path : List ℕ) → length path ≡ 1 → path ≢ i ∷ [] → walk s' f path ≡ walk s f path
    miss [] len d = absurd (omega arith)
    miss (j ∷ []) len d = elim (Option-cases (child s f j)) [
      | inl absent ↦
          walk-none s' f j [] (other f j (inr ne) ∙ absent) ∙ sym (walk-none s f j [] absent)
      | inr (h, c) ↦
          walk-some s' f j [] (other f j (inr ne) ∙ c)
          ∙ walk-nil s' h
          ∙ sym (walk-nil s h)
          ∙ sym (walk-some s f j [] c)
    ]
      where
        ne : j ≢ i
        ne e = d (ap (λ k. k ∷ []) e)
    miss (j ∷ k ∷ path) len d = absurd (omega arith)
