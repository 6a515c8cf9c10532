-- ===== src/Memory/Paging/Init/Identity.antt =====
-- What `Init` of PageTable.cpp leaves in the tables.
use native.Mathlib.Decide.{ℕ_discrete}
use electric_os.Base.{
  ℕ, zero, suc, ◌+◌, ◌*◌, ◌/◌, ◌^◌, ◌≤◌, ◌<◌, ◌≡◌, refl, arith, ◌⊎◌, inl, inr, List, [], ◌∷◌, ◌++◌,
  none, some, u64, ◌==◌, if◌then◌else◌, ◌∙◌, ap,
}
use electric_os.Memory.PageAllocator.{Allocator, get_free_pages, request_page}
use electric_os.Memory.PageAllocator.Request.{Granted}
use electric_os.Memory.PageAllocator.Valid.{IsValid, request_page-IsValid}
use electric_os.Memory.PageAllocator.Counts.{request_page-grants}
use electric_os.Memory.PageAllocator.Init.{ScreenBuffer}
use electric_os.Memory.Paging.{PageDirEntry, Machine, clear_table}
use electric_os.Memory.Paging.Walk.{child, translate}
use electric_os.Memory.Paging.Tree.{IsTree}
use electric_os.Memory.Paging.Init.{root_table, map_screen, map_memory, screen_rounds, init}
use electric_os.Memory.Paging.Init.Pages.{map_all, HasRoom, Canonical, Covers, map_all-covered}

-- The addresses of the two loops.
abbrev pub screen_pages : ℕ → ℕ → ℕ → List ℕ
screen_pages zero base i = []
screen_pages (suc left) base i = u64 (base + i) ∷ screen_pages left base (u64 (i + 4096))

abbrev pub memory_pages : ℕ → ℕ → List ℕ
memory_pages zero i = []
memory_pages (suc left) i = u64 (i * 4096) ∷ memory_pages left (i + 1)

abbrev pub pages : Allocator → ScreenBuffer → List ℕ
pages a screen = screen_pages (screen_rounds screen) screen.base 0 ++ memory_pages a.page_amount 0

map_memory-map_all :
    (left : ℕ) (s : Machine) (i : ℕ) → map_memory left s i ≡ map_all (memory_pages left i) s
unfolding map_memory map_all
map_memory-map_all zero s i = refl
map_memory-map_all (suc left) s i = map_memory-map_all left _ (i + 1)

both-map_all :
    (left : ℕ) (s : Machine) (base i amount : ℕ)
    → map_memory amount (map_screen left s base i) 0
      ≡ map_all (screen_pages left base i ++ memory_pages amount 0) s
unfolding map_screen map_all
both-map_all zero s base i amount = map_memory-map_all amount s 0
both-map_all (suc left) s base i amount = both-map_all left _ base (u64 (i + 4096)) amount

memory-Canonical : (left i : ℕ) → (i + left) * 4096 ≤ 2 ^ 48 → Canonical (memory_pages left i)
memory-Canonical zero i h = tt
memory-Canonical (suc left) i h = (omega arith, memory-Canonical left (i + 1) (omega arith))

both-Canonical :
    (left base i amount : ℕ)
    → base + i + left * 4096 ≤ 2 ^ 48
    → amount * 4096 ≤ 2 ^ 48
    → Canonical (screen_pages left base i ++ memory_pages amount 0)
both-Canonical zero base i amount h k = memory-Canonical amount 0 (omega arith)
both-Canonical (suc left) base i amount h k =
    (omega arith, both-Canonical left base (u64 (i + 4096)) amount (omega arith) k)

memory-Covers :
    (left i v : ℕ)
    → (i + left) * 4096 ≤ 2 ^ 48
    → i * 4096 ≤ v
    → v < (i + left) * 4096
    → Covers (memory_pages left i) v
memory-Covers zero i v h low high = absurd (omega arith)
memory-Covers (suc left) i v h low high = elim (ℕ_discrete (v / 4096) i) [
  | yes e ↦ inl (omega arith)
  | no n ↦ inr (memory-Covers left (i + 1) v (omega arith) (omega arith) (omega arith))
]

Covers-append : (xs ys : List ℕ) (v : ℕ) → Covers ys v → Covers (xs ++ ys) v
Covers-append [] ys v c = c
Covers-append (x ∷ xs) ys v c = inr (Covers-append xs ys v c)

screen-Covers :
    (left base i v : ℕ) (rest : List ℕ)
    → base + i + left * 4096 ≤ 2 ^ 48
    → (base + i) / 4096 ≤ v / 4096
    → v / 4096 < (base + i) / 4096 + left
    → Covers (screen_pages left base i ++ rest) v
screen-Covers zero base i v rest h low high = absurd (omega arith)
screen-Covers (suc left) base i v rest h low high =
    elim (ℕ_discrete (v / 4096) ((base + i) / 4096)) [
      | yes e ↦ inl (omega arith)
      | no n ↦ inr (
          screen-Covers left base (u64 (i + 4096)) v rest (omega arith) (omega arith) (omega arith))
    ]

-- The root table alone, after it is cleared.
root_table-IsTree :
    (tables : ℕ → ℕ → PageDirEntry) (a : Allocator)
    → IsValid a
    → 0 < get_free_pages a
    → IsTree (root_table tables a) (λ f. if f == (request_page a).1 then some [] else none)
unfolding root_table clear_table child
root_table-IsTree tables a valid free = go (request_page-grants a valid free)
  where
    go :
        (k : ℕ) × Granted a k (request_page a).0 (request_page a).1
        → IsTree (root_table tables a) (λ f. if f == (request_page a).1 then some [] else none)
    go (k, g) = record {
      root = ground arith;
      below = λ f i t p o short linked. ground arith;
      locked = λ f p o. ground (arith, g.returned, g.status k);
      allocator_valid = request_page-IsValid a valid;
    }

-- From a valid page allocator with a free page, where memory and the frame buffer end in 48 bits
-- of address and each call of `MapAddress` finds three free pages: after `Init` of the page
-- tables each address of memory and of the frame buffer is translated to itself.
pub init-identity :
    (tables : ℕ → ℕ → PageDirEntry) (a : Allocator) (screen : ScreenBuffer) (v : ℕ)
    → IsValid a
    → 0 < get_free_pages a
    → a.page_amount * 4096 ≤ 2 ^ 48
    → screen.base + screen.size + 8192 ≤ 2 ^ 48
    → HasRoom (pages a screen) (root_table tables a)
    → (v < a.page_amount * 4096) ⊎ ((screen.base ≤ v) × (v < screen.base + screen.size))
    → translate (init tables a screen) v ≡ some v
unfolding init
init-identity tables a screen v valid free small below room at =
    ap (λ s. translate s v)
      (both-map_all (screen_rounds screen) (root_table tables a) screen.base 0 a.page_amount)
    ∙ map_all-covered v (in_space at) (pages a screen) (root_table tables a) _
        (root_table-IsTree tables a valid free) room
        (both-Canonical (screen_rounds screen) screen.base 0 a.page_amount (omega arith) small)
        (covered at)
  where
    in_space :
        (v < a.page_amount * 4096) ⊎ ((screen.base ≤ v) × (v < screen.base + screen.size))
        → v < 2 ^ 48
    in_space (inl h) = omega arith
    in_space (inr h) = omega arith

    covered :
        (v < a.page_amount * 4096) ⊎ ((screen.base ≤ v) × (v < screen.base + screen.size))
        → Covers (pages a screen) v
    covered (inl h) =
        Covers-append (screen_pages (screen_rounds screen) screen.base 0)
          (memory_pages a.page_amount 0) v
          (memory-Covers a.page_amount 0 v (omega arith) (omega arith) (omega arith))
    covered (inr h) =
        screen-Covers (screen_rounds screen) screen.base 0 v (memory_pages a.page_amount 0)
          (omega arith) (omega arith) (omega arith)
