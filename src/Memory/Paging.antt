-- ===== src/Memory/Paging.antt =====
-- src/Memory/Paging/PageIndexer.cpp and PageTable.cpp: page tables in memory, and `MapAddress`.
-- A table is named by the address of its frame.
pub mod Walk
pub mod Tree
pub mod MapAddress
pub mod Init
mod Tests
use electric_os.Base.{
  ℕ, zero, suc, ◌+◌, ◌*◌, ◌/◌, ◌%◌, Bool, true, false, ◌&&◌, ◌==◌, if◌then◌else◌, u64,
}
use electric_os.Memory.PageAllocator.{Allocator, request_page}

-- `PageIndexer`: the index at each level, each of 9 bits (`& 0x1ff`).
pub record PageIndexer : Type 0 where
  pub pdp : ℕ
  pub pd : ℕ
  pub pt : ℕ
  pub p : ℕ

-- The constructor, with its four shifts.
pub page_indexer : ℕ → PageIndexer
page_indexer virtual_address =
    let v0 = virtual_address / 4096 in
    let v1 = v0 / 512 in
    let v2 = v1 / 512 in
    let v3 = v2 / 512 in record { pdp = v3 % 512; pd = v2 % 512; pt = v1 % 512; p = v0 % 512 }

-- `PageDirEntry`, field by field.
pub record PageDirEntry : Type 0 where
  pub present : Bool
  pub read_write : Bool
  pub user_super : Bool
  pub write_through : Bool
  pub cache_disabled : Bool
  pub accessed : Bool
  pub ignore0 : Bool
  pub larger_pages : Bool
  pub ignore1 : Bool
  pub available : ℕ
  pub address : ℕ

-- Eight bytes of zeros.
abbrev pub zero_entry : PageDirEntry
zero_entry = record {
  present = false;
  read_write = false;
  user_super = false;
  write_through = false;
  cache_disabled = false;
  accessed = false;
  ignore0 = false;
  larger_pages = false;
  ignore1 = false;
  available = 0;
  address = 0;
}

-- `PML4`, the tables in memory by frame address and index, and the allocator.
pub record Machine : Type 0 where
  pub pml4 : ℕ
  pub tables : ℕ → ℕ → PageDirEntry
  pub allocator : Allocator

-- `Table->Entries[Index] = Entry`
pub store : Machine → ℕ → ℕ → PageDirEntry → Machine
store s frame index entry = record s {
  tables = λ g j. if (g == frame) && (j == index) then entry else s.tables g j;
}

-- `SetMemory(Table, 0, 0x1000)`
pub clear_table : Machine → ℕ → Machine
clear_table s frame = record s { tables = λ g j. if g == frame then zero_entry else s.tables g j }

-- `PDE` as `MapAddress` leaves it: only three of its fields are written.
pub link_entry : PageDirEntry → ℕ → PageDirEntry
link_entry entry target = record entry {
  address = target / 4096;
  present = true;
  read_write = true;
}

-- A level that is missing: a page is requested, cleared and linked.
pub new_table : Machine → ℕ → ℕ → Machine × ℕ
unfolding store clear_table link_entry
new_table s frame index =
    let granted = request_page s.allocator in
    let s1 = record s { allocator = granted.0 } in
    (
      store (clear_table s1 granted.1) frame index (link_entry (s.tables frame index) granted.1),
      granted.1,
    )

-- One level of `MapAddress`: the table behind an entry, made if it is missing.
pub next_table : Machine → ℕ → ℕ → Machine × ℕ
unfolding new_table
next_table s frame index =
    if (s.tables frame index).present
    then (s, u64 ((s.tables frame index).address * 4096))
    else new_table s frame index

pub map_address : Machine → ℕ → ℕ → Machine
unfolding page_indexer next_table
map_address s virtual_address physical_address =
    let indexer = page_indexer virtual_address in
    let (s1, pdp) = next_table s s.pml4 indexer.pdp in
    let (s2, pd) = next_table s1 pdp indexer.pd in
    let (s3, pt) = next_table s2 pd indexer.pt in
    store s3 pt indexer.p (link_entry (s3.tables pt indexer.p) physical_address)
