-- ===== src/Memory/Paging/Init/Pages.antt =====
-- Pages that are mapped to themselves one after the other, as a list of their addresses.
use electric_os.Base.{
  ℕ, ◌+◌, ◌*◌, ◌/◌, ◌%◌, ◌^◌, ◌≤◌, ◌<◌, ◌≡◌, refl, arith, ◌⊎◌, inl, inr, List, [], ◌∷◌, some, u64,
  true, Bool-cases, ◌∙◌, ==_iff,
}
use electric_os.Memory.PageAllocator.{get_free_pages}
use electric_os.Memory.Paging.{Machine, map_address}
use electric_os.Memory.Paging.Walk.{translate}
use electric_os.Memory.Paging.Tree.{Owner, IsTree}
use electric_os.Memory.Paging.MapAddress.{same_page, translate-map_address, map_address-IsTree}

unfoldable pub map_all : List ℕ → Machine → Machine
map_all [] s = s
map_all (w ∷ ws) s = map_all ws (map_address s w w)

-- Each call of `MapAddress` finds three free pages.
abbrev pub HasRoom : List ℕ → Machine → Type 0
HasRoom [] s = Unit {0}
HasRoom (w ∷ ws) s = (3 ≤ get_free_pages s.allocator) × HasRoom ws (map_address s w w)

-- Addresses that the four indices tell apart.
abbrev pub Canonical : List ℕ → Type 0
Canonical [] = Unit {0}
Canonical (w ∷ ws) = (w < 2 ^ 48) × Canonical ws

abbrev pub Covers : List ℕ → ℕ → Type 0
Covers [] v = ⊥
Covers (w ∷ ws) v = (v / 4096 ≡ w / 4096) ⊎ Covers ws v

page_number : (v w : ℕ) → v < 2 ^ 48 → w < 2 ^ 48 → same_page v w ≡ true → v / 4096 ≡ w / 4096
page_number v w hv hw e =
    let same = (==_iff ((v / 4096) % 2 ^ 36) ((w / 4096) % 2 ^ 36)).0 e in omega arith

on_page :
    (v w : ℕ) → v < 2 ^ 48 → w < 2 ^ 48 → v / 4096 ≡ w / 4096 → u64 (w / 4096 * 4096) + v % 4096 ≡ v
on_page v w hv hw e = omega arith

same_of_page : (v w : ℕ) → v / 4096 ≡ w / 4096 → same_page v w ≡ true
same_of_page v w e = (==_iff ((v / 4096) % 2 ^ 36) ((w / 4096) % 2 ^ 36)).1 (omega arith)

module _ (v : ℕ) (hv : v < 2 ^ 48) where
  hit :
      (s : Machine) (owner : Owner) (w : ℕ)
      → IsTree s owner
      → 3 ≤ get_free_pages s.allocator
      → w < 2 ^ 48
      → v / 4096 ≡ w / 4096
      → translate (map_address s w w) v ≡ some v
  hit s owner w tree room hw e =
      translate-map_address s owner w w v tree room
      ∙ rw (same_of_page v w e, on_page v w hv hw e) refl

  kept :
      (s : Machine) (owner : Owner) (w : ℕ)
      → IsTree s owner
      → 3 ≤ get_free_pages s.allocator
      → w < 2 ^ 48
      → translate s v ≡ some v
      → translate (map_address s w w) v ≡ some v
  kept s owner w tree room hw old = elim (Bool-cases (same_page v w)) [
    | inl e ↦ hit s owner w tree room hw (page_number v w hv hw e)
    | inr e ↦ translate-map_address s owner w w v tree room ∙ rw e old
  ]

  map_all-kept :
      (ws : List ℕ) (s : Machine) (owner : Owner)
      → IsTree s owner
      → HasRoom ws s
      → Canonical ws
      → translate s v ≡ some v
      → translate (map_all ws s) v ≡ some v
  unfolding map_all
  map_all-kept [] s owner tree room small old = old
  map_all-kept (w ∷ ws) s owner tree room small old =
      let (owner', tree') = map_address-IsTree s owner w w tree room.0 in
      map_all-kept ws (map_address s w w) owner' tree' room.1 small.1
        (kept s owner w tree room.0 small.0 old)

  -- A page of the list is mapped to itself, and stays so.
  pub map_all-covered :
      (ws : List ℕ) (s : Machine) (owner : Owner)
      → IsTree s owner
      → HasRoom ws s
      → Canonical ws
      → Covers ws v
      → translate (map_all ws s) v ≡ some v
  unfolding map_all
  map_all-covered [] s owner tree room small c = absurd c
  map_all-covered (w ∷ ws) s owner tree room small c =
      let (owner', tree') = map_address-IsTree s owner w w tree room.0 in
      elim c [
        | inl e ↦
            map_all-kept ws (map_address s w w) owner' tree' room.1 small.1
              (hit s owner w tree room.0 small.0 e)
        | inr later ↦ map_all-covered ws (map_address s w w) owner' tree' room.1 small.1 later
      ]
