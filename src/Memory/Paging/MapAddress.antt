-- ===== src/Memory/Paging/MapAddress.antt =====
-- `MapAddress` refines the update of the translation at one page.
mod Paths
mod Agree
mod Leaf
mod Step
use electric_os.Base.{
  ℕ, zero, suc, ◌+◌, ◌-◌, ◌*◌, ◌/◌, ◌%◌, ◌^◌, ◌≤◌, ◌<◌, ◌≡◌, ◌≢◌, refl, Bool, true, false, ◌&&◌,
  arith, ltb, leb, ◌==◌, if◌then◌else◌, u64, Bool-cases, Option-cases, inl, inr, ◌⊎◌, List, [], ◌∷◌,
  ◌++◌, length, Option, none, some, ==_iff, sym, ◌∙◌, length-append, ap,
}
use electric_os.Memory.PageAllocator.{Allocator, get_page_status, request_page, get_free_pages}
use electric_os.Memory.Paging.{
  page_indexer, PageDirEntry, Machine, store, link_entry, next_table, map_address,
}
use electric_os.Memory.Paging.Walk.{
  child, walk, walk-nil, walk-some, walk-none, path_of, translate, map_path, map_address-map_path,
  translate-walk, translate-hit,
}
use electric_os.Memory.Paging.Tree.{Owner, IsTree, Next, next_table-Next}
use Leaf.{Mapped, store-Mapped}
use Step.{step-Mapped}

map_path-Mapped :
    (rest : List ℕ) (s : Machine) (owner : Owner) (f i target : ℕ) (p : List ℕ)
    → IsTree s owner
    → owner f ≡ some p
    → length p + suc (length rest) ≡ 4
    → length rest ≤ get_free_pages s.allocator
    → (owner' : Owner) × Mapped s owner f i rest p target (map_path s f i rest target) owner'
unfolding map_path
map_path-Mapped [] s owner f i target p tree owns depth room =
    (owner, store-Mapped s owner f i p target tree owns (omega arith))
map_path-Mapped (j ∷ rest) s owner f i target p tree owns depth room =
    let (owner1, n) = next_table-Next s owner f i p tree owns (omega arith) (omega arith) in
    let (owner', m) =
      map_path-Mapped rest (next_table s f i).0 owner1 (next_table s f i).1 j target (p ++ i ∷ [])
        n.tree n.owned (omega (arith, length-append p (i ∷ []))) (omega (arith, n.pages)) in
    (
      owner',
      step-Mapped s (next_table s f i).0 (map_path s f i (j ∷ rest) target) owner owner1 owner' f i
          j (next_table s f i).1 target rest p tree owns (omega arith) n m,
    )

-- The pages that the four 9-bit indices tell apart.
abbrev pub same_page : ℕ → ℕ → Bool
same_page v w = (v / 4096) % 2 ^ 36 == (w / 4096) % 2 ^ 36

same_page-path_of : (v w : ℕ) → same_page v w ≡ true → path_of v ≡ path_of w
unfolding page_indexer
same_page-path_of v w h = ground (arith, (==_iff ((v / 4096) % 2 ^ 36) ((w / 4096) % 2 ^ 36)).0 h)

path_of-same_page : (v w : ℕ) → path_of v ≡ path_of w → same_page v w ≡ true
unfolding page_indexer
path_of-same_page v w e = ground arith

-- On tables that form a tree, with three free pages, `MapAddress` makes the page of
-- `virtual_address` lead to the page of `physical_address` (its address as a 64-bit number) and
-- leaves the translation of every address of another page as it was.
pub translate-map_address :
    (s : Machine) (owner : Owner) (virtual_address physical_address v : ℕ)
    → IsTree s owner
    → 3 ≤ get_free_pages s.allocator
    → translate (map_address s virtual_address physical_address) v ≡ (
        if same_page v virtual_address
        then some (u64 (physical_address / 4096 * 4096) + v % 4096)
        else translate s v)
translate-map_address s owner va pa v tree room =
    rw (map_address-map_path s va pa)
      (go (map_path-Mapped _ s owner s.pml4 (page_indexer va).pdp pa [] tree tree.root refl room))
  where
    x : List ℕ
    x = (page_indexer va).pd ∷ (page_indexer va).pt ∷ (page_indexer va).p ∷ []

    s' : Machine
    s' = map_path s s.pml4 (page_indexer va).pdp x pa

    go :
        (owner' : Owner) × Mapped s owner s.pml4 (page_indexer va).pdp x [] pa s' owner'
        → translate s' v
          ≡ (if same_page v va then some (u64 (pa / 4096 * 4096) + v % 4096) else translate s v)
    go (owner', m) = elim (Bool-cases (same_page v va)) [
      | inl e ↦ rw e (
          translate-hit s' v _ (
            ap (λ (r : ℕ). walk s' r (path_of v)) m.same_root
            ∙ ap (λ (l : List ℕ). walk s' s.pml4 l) (same_page-path_of v va e)
            ∙ m.hit))
      | inr e ↦ rw e (
          translate-walk s s' v (
            ap (λ (r : ℕ). walk s' r (path_of v)) m.same_root
            ∙ m.miss (path_of v) refl (λ q. cc (e, path_of-same_page v va q))))
    ]

-- On tables that form a tree, with three free pages, the tables form a tree again after
-- `MapAddress`: each table belongs to one path of indices and is a locked page, and the page
-- allocator is valid.
pub map_address-IsTree :
    (s : Machine) (owner : Owner) (virtual_address physical_address : ℕ)
    → IsTree s owner
    → 3 ≤ get_free_pages s.allocator
    → (owner' : Owner) × IsTree (map_address s virtual_address physical_address) owner'
map_address-IsTree s owner va pa tree room =
    rw (map_address-map_path s va pa)
      (go (map_path-Mapped x s owner s.pml4 (page_indexer va).pdp pa [] tree tree.root refl room))
  where
    x : List ℕ
    x = (page_indexer va).pd ∷ (page_indexer va).pt ∷ (page_indexer va).p ∷ []

    go :
        (owner' : Owner) × Mapped s owner s.pml4
            (page_indexer va).pdp
            x
            []
            pa
            (map_path s s.pml4 (page_indexer va).pdp x pa)
            owner'
        → (owner' : Owner) × IsTree (map_path s s.pml4 (page_indexer va).pdp x pa) owner'
    go (owner', m) = (owner', m.tree)
