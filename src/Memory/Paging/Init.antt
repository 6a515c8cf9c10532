-- ===== src/Memory/Paging/Init.antt =====
-- `Init` of PageTable.cpp: an empty root table, then the pages of the screen's frame buffer and of
-- all memory, each mapped to itself. Loading the root into CR3 is left to the processor.
mod Pages
pub mod Identity
mod Tests
use electric_os.Base.{ℕ, zero, suc, ◌+◌, ◌*◌, ◌/◌, ◌^◌, u64}
use electric_os.Memory.PageAllocator.{Allocator, request_page}
use electric_os.Memory.PageAllocator.Init.{ScreenBuffer}
use electric_os.Memory.Paging.{PageDirEntry, Machine, clear_table, map_address}

-- `PML4 = RequestPage(); SetMemory(PML4, 0, 4096);`, where `tables` is what memory held.
pub root_table : (ℕ → ℕ → PageDirEntry) → Allocator → Machine
root_table tables a =
    let granted = request_page a in
    clear_table (record { pml4 = granted.1; tables = tables; allocator = granted.0 }) granted.1

-- The loop over the frame buffer: `left` pages, from `base + i` on.
pub map_screen : ℕ → Machine → ℕ → ℕ → Machine
map_screen zero s base i = s
map_screen (suc left) s base i =
    map_screen left (map_address s (u64 (base + i)) (u64 (base + i))) base (u64 (i + 4096))

-- The loop over memory: `left` pages, from page `i` on.
pub map_memory : ℕ → Machine → ℕ → Machine
map_memory zero s i = s
map_memory (suc left) s i =
    map_memory left (map_address s (u64 (i * 4096)) (u64 (i * 4096))) (i + 1)

-- How often `i < ScreenBuffer->Size + 4096` holds, as `i` goes up by 4096 from 0.
abbrev pub screen_rounds : ScreenBuffer → ℕ
screen_rounds screen = (u64 (screen.size + 4096) + 4095) / 4096

pub init : (ℕ → ℕ → PageDirEntry) → Allocator → ScreenBuffer → Machine
unfolding root_table map_screen map_memory
init tables a screen =
    let mapped = map_screen (screen_rounds screen) (root_table tables a) screen.base 0 in
    map_memory a.page_amount mapped 0
