-- ===== src/Memory/Paging/Tree.antt =====
-- The page tables form a tree: every table belongs to one path of indices from the root.
use electric_os.Base.{
  ℕ, ◌+◌, ◌*◌, ◌/◌, ◌≤◌, ◌<◌, ◌≡◌, ◌≢◌, refl, true, false, ◌&&◌, arith, ◌==◌, if◌then◌else◌,
  Bool-cases, Option-cases, inl, inr, ◌⊎◌, List, [], ◌∷◌, ◌++◌, length, Option, none, some, sym,
  ◌∙◌,
}
use electric_os.Memory.PageAllocator.{get_page_status, request_page, get_free_pages}
use electric_os.Memory.PageAllocator.Request.{Granted, Addressable}
use electric_os.Memory.PageAllocator.Valid.{IsValid, request_page-IsValid}
use electric_os.Memory.PageAllocator.Counts.{request_page-grants, get_free_pages-Granted}
use electric_os.Memory.Paging.{Machine, new_table, next_table}
use electric_os.Memory.Paging.Walk.{child}

-- Which path, root first, a frame is the table of.
abbrev pub Owner : Type 0
Owner = ℕ → Option (List ℕ)

abbrev pub own : Owner → ℕ → List ℕ → Owner
own owner g p f = if f == g then some p else owner f

-- Tables above the last level lead to the tables of the longer paths, and tables are locked pages.
pub record IsTree (s : Machine) (owner : Owner) : Type 0 where
  pub root : owner s.pml4 ≡ some []
  pub below :
      (f i g : ℕ) (p : List ℕ)
      → owner f ≡ some p
      → length p < 3
      → child s f i ≡ some g
      → owner g ≡ some (p ++ i ∷ [])
  pub locked :
      (f : ℕ) (p : List ℕ) → owner f ≡ some p → get_page_status s.allocator (f / 4096) ≡ true
  pub allocator_valid : IsValid s.allocator

-- `s'` is `s` with the empty table `g` linked at entry `i` of `f`.
record Linked (s : Machine) (f i : ℕ) (s' : Machine) (g : ℕ) : Type 0 where
  linked : child s' f i ≡ some g
  empty : (j : ℕ) → child s' g j ≡ none
  others : (h j : ℕ) → h ≢ g → (h ≢ f) ⊎ (j ≢ i) → child s' h j ≡ child s h j
  same_root : s'.pml4 ≡ s.pml4
  taken : s'.allocator ≡ (request_page s.allocator).0

module _ (s : Machine) (f i k : ℕ) (fits : Addressable s.allocator)
    (g : Granted s.allocator k (request_page s.allocator).0 (request_page s.allocator).1)
    (apart : f ≢ k * 4096) where
  new_table-Linked : Linked s f i (new_table s f i).0 (k * 4096)
  unfolding new_table child
  new_table-Linked = record {
    linked = ground (arith, g.returned, g.inside);
    empty = λ j. ground (arith, g.returned);
    others = λ h j n d. ground (arith, g.returned);
    same_root = refl;
    taken = refl;
  }

  new_table-frame : (new_table s f i).1 ≡ k * 4096
  unfolding new_table
  new_table-frame = g.returned

-- One level of `MapAddress`: the table `g` is behind entry `i` of `f`, and no other entry of a
-- table has changed.
pub record Next (s : Machine) (owner : Owner) (f i : ℕ) (p : List ℕ) (s' : Machine) (g : ℕ)
    (owner' : Owner) : Type 0 where
  pub tree : IsTree s' owner'
  pub owned : owner' g ≡ some (p ++ i ∷ [])
  pub linked : child s' f i ≡ some g
  pub kept : (h : ℕ) (q : List ℕ) → owner h ≡ some q → owner' h ≡ some q
  pub same :
      (h j : ℕ) (q : List ℕ) → owner h ≡ some q → (h ≢ f) ⊎ (j ≢ i) → child s' h j ≡ child s h j
  pub origin : (child s f i ≡ some g) ⊎ ((child s f i ≡ none) × ((j : ℕ) → child s' g j ≡ none))
  pub same_root : s'.pml4 ≡ s.pml4
  pub pages : get_free_pages s.allocator ≤ get_free_pages s'.allocator + 1

child-absent : (s : Machine) (f i : ℕ) → child s f i ≡ none → next_table s f i ≡ new_table s f i
unfolding child next_table
child-absent s f i e = rw absent refl
  where
    absent : (s.tables f i).present ≡ false
    absent = ground arith

child-present : (s : Machine) (f i g : ℕ) → child s f i ≡ some g → next_table s f i ≡ (s, g)
unfolding child next_table
child-present s f i g e = ground arith

module _ (s : Machine) (owner : Owner) (tree : IsTree s owner) (f i k : ℕ) (p : List ℕ)
    (owns : owner f ≡ some p) (short : length p < 3) (missing : child s f i ≡ none)
    (granted : Granted s.allocator k
      (request_page s.allocator).0
      (request_page s.allocator).1) where
  -- a page that was free is no table
  fresh : (h : ℕ) (q : List ℕ) → owner h ≡ some q → h ≢ k * 4096
  fresh h q e same = ground (arith, tree.locked h q e, granted.was_free, page)
    where
      page : h / 4096 ≡ k
      page = omega arith

  link : Linked s f i (new_table s f i).0 (k * 4096)
  link = new_table-Linked s f i k tree.allocator_valid.addressable granted (fresh f p owns)

  owner' : Owner
  owner' = own owner (k * 4096) (p ++ i ∷ [])

  kept' : (h : ℕ) (q : List ℕ) → owner h ≡ some q → owner' h ≡ some q
  unfolding owner'
  kept' h q e = ground (arith, fresh h q e)

  old_of : (h : ℕ) (q : List ℕ) → (h == k * 4096) ≡ false → owner' h ≡ some q → owner h ≡ some q
  unfolding owner'
  old_of h q off e = ground arith

  same' :
      (h j : ℕ) (q : List ℕ)
      → owner h ≡ some q
      → (h ≢ f) ⊎ (j ≢ i)
      → child (new_table s f i).0 h j ≡ child s h j
  same' h j q e d = link.others h j (fresh h q e) d

  below_old :
      (h j g : ℕ) (q : List ℕ)
      → owner h ≡ some q
      → length q < 3
      → child (new_table s f i).0 h j ≡ some g
      → owner' g ≡ some (q ++ j ∷ [])
  unfolding owner'
  below_old h j g q e short' c = elim (Bool-cases ((h == f) && (j == i))) [
    | inl at ↦ ground (arith, link.linked)
    | inr off ↦
        kept' g (q ++ j ∷ []) (tree.below h j g q e short' (sym (same' h j q e (ground arith)) ∙ c))
  ]

  below' :
      (h j g : ℕ) (q : List ℕ)
      → owner' h ≡ some q
      → length q < 3
      → child (new_table s f i).0 h j ≡ some g
      → owner' g ≡ some (q ++ j ∷ [])
  below' h j g q e short' c = elim (Bool-cases (h == k * 4096)) [
    | inl at ↦ ground (arith, link.empty j)
    | inr off ↦ below_old h j g q (old_of h q off e) short' c
  ]

  locked' :
      (h : ℕ) (q : List ℕ)
      → owner' h ≡ some q
      → get_page_status (new_table s f i).0.allocator (h / 4096) ≡ true
  locked' h q e = elim (Bool-cases (h == k * 4096)) [
    | inl at ↦ rw link.taken (ground (arith, granted.status (h / 4096)))
    | inr off ↦
        rw link.taken
          (ground (arith, granted.status (h / 4096), tree.locked h q (old_of h q off e)))
  ]

  new_table-Next : Next s owner f i p (new_table s f i).0 (k * 4096) owner'
  unfolding owner'
  new_table-Next = record {
    tree = record {
      root = rw link.same_root (kept' s.pml4 [] tree.root);
      below = below';
      locked = locked';
      allocator_valid = rw link.taken (request_page-IsValid s.allocator tree.allocator_valid);
    };
    owned = ground arith;
    linked = link.linked;
    kept = kept';
    same = same';
    origin = inr (missing, link.empty);
    same_root = link.same_root;
    pages = rw link.taken (omega (arith, get_free_pages-Granted granted));
  }

  absent-Next : Next s owner f i p (next_table s f i).0 (next_table s f i).1 owner'
  absent-Next =
      rw
        (
          child-absent s f i missing,
          new_table-frame s f i k tree.allocator_valid.addressable granted (fresh f p owns),
        )
        new_table-Next

-- Whether the level is there or has to be made, one step leaves a tree.
pub next_table-Next :
    (s : Machine) (owner : Owner) (f i : ℕ) (p : List ℕ)
    → IsTree s owner
    → owner f ≡ some p
    → length p < 3
    → 0 < get_free_pages s.allocator
    → (owner' : Owner) × Next s owner f i p (next_table s f i).0 (next_table s f i).1 owner'
next_table-Next s owner f i p tree owns short room = elim (Option-cases (child s f i)) [
  | inl missing ↦
      let (k, granted) = request_page-grants s.allocator tree.allocator_valid room in
      (
        own owner (k * 4096) (p ++ i ∷ []),
        unfold owner' in absent-Next s owner tree f i k p owns short missing granted,
      )
  | inr (g, present) ↦ (
    owner,
    rw (child-present s f i g present) (record {
      tree = tree;
      owned = tree.below f i g p owns short present;
      linked = present;
      kept = λ h q e. e;
      same = λ h j q e d. refl;
      origin = inl present;
      same_root = refl;
      pages = omega arith;
    }),
  )
]
