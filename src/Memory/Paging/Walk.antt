-- ===== src/Memory/Paging/Walk.antt =====
-- What the processor does with the tables: the four-level walk that translates an address.
use electric_os.Base.{
  ℕ, ◌+◌, ◌*◌, ◌%◌, if◌then◌else◌, u64, List, [], ◌∷◌, Option, none, some, ◌≡◌, refl,
}
use electric_os.Memory.Paging.{page_indexer, Machine, store, link_entry, next_table, map_address}

-- The frame behind an entry, if it is present.
unfoldable pub child : Machine → ℕ → ℕ → Option ℕ
child s frame index =
    if (s.tables frame index).present
    then some (u64 ((s.tables frame index).address * 4096))
    else none

pub walk : Machine → ℕ → List ℕ → Option ℕ
walk s frame [] = some frame
walk s frame (i ∷ path) = elim (child s frame i) [ none ↦ none | some g ↦ walk s g path ]

pub walk-nil : (s : Machine) (frame : ℕ) → walk s frame [] ≡ some frame
unfolding walk
walk-nil s frame = refl

module _ (s : Machine) (frame i : ℕ) (path : List ℕ) where
  pub walk-some : {g : ℕ} → child s frame i ≡ some g → walk s frame (i ∷ path) ≡ walk s g path
  unfolding walk
  walk-some e = rw (walk, e) refl

  pub walk-none : child s frame i ≡ none → walk s frame (i ∷ path) ≡ none
  unfolding walk
  walk-none e = rw (walk, e) refl

-- The indices of an address, from the root down.
abbrev pub path_of : ℕ → List ℕ
path_of v = let x = page_indexer v in x.pdp ∷ x.pd ∷ x.pt ∷ x.p ∷ []

-- The physical address that a virtual address stands for.
pub translate : Machine → ℕ → Option ℕ
unfolding walk
translate s v = elim (walk s s.pml4 (path_of v)) [ none ↦ none | some g ↦ some (g + v % 4096) ]

-- `MapAddress` over a path of any length.
unfoldable pub map_path : Machine → ℕ → ℕ → List ℕ → ℕ → Machine
map_path s frame i [] target = store s frame i (link_entry (s.tables frame i) target)
map_path s frame i (j ∷ rest) target =
    let r = next_table s frame i in map_path r.0 r.1 j rest target

pub map_address-map_path :
    (s : Machine) (v target : ℕ)
    → let x = page_indexer v in
      map_address s v target ≡ map_path s s.pml4 x.pdp (x.pd ∷ x.pt ∷ x.p ∷ []) target
unfolding map_address map_path
map_address-map_path s v target = refl

abbrev at_offset : Option ℕ → ℕ → Option ℕ
at_offset none v = none
at_offset (some g) v = some (g + v % 4096)

pub translate-walk :
    (s s' : Machine) (v : ℕ)
    → walk s' s'.pml4 (path_of v) ≡ walk s s.pml4 (path_of v)
    → translate s' v ≡ translate s v
unfolding translate
translate-walk s s' v e = rw (e, translate) refl

pub translate-hit :
    (s : Machine) (v g : ℕ)
    → walk s s.pml4 (path_of v) ≡ some g
    → translate s v ≡ some (g + v % 4096)
unfolding translate
translate-hit s v g e = rw (e, translate) refl
