-- ===== src/Memory/PageAllocator/Init.antt =====
-- `Init` of PageAllocator.cpp over the firmware's memory map (efiMemory.h), and which pages are
-- locked when it returns.
pub mod Covers
mod Tests
use electric_os.Base.{
  ℕ, zero, suc, ◌+◌, ◌-◌, ◌*◌, ◌/◌, ◌%◌, ◌^◌, Bool, true, false, not, ◌&&◌, ltb, ◌==◌,
  if◌then◌else◌, u64, sub64,
}
use electric_os.Memory.PageAllocator.{Allocator, update, lock_pages}

-- `EFI_MEMORY_DESCRIPTOR`; the type is the number of its `EFI_MEMORY_TYPE`.
pub record MemoryDescriptor : Type 0 where
  pub type : ℕ
  pub physical_start : ℕ
  pub virtual_start : ℕ
  pub number_of_pages : ℕ
  pub attribute : ℕ

-- `EFI_MEMORY_MAP`: `descriptor i` is the one at `Base + i * DescSize`.
pub record MemoryMap : Type 0 where
  pub descriptor : ℕ → MemoryDescriptor
  pub size : ℕ
  pub desc_size : ℕ

-- `EfiConventionalMemory`
abbrev pub conventional_memory : ℕ
conventional_memory = 7

abbrev pub descriptor_count : MemoryMap → ℕ
descriptor_count m = m.size / m.desc_size

-- the two fields of the screen's frame buffer that `Init` reads
pub record ScreenBuffer : Type 0 where
  pub base : ℕ
  pub size : ℕ

pub sum_pages : MemoryMap → ℕ → ℕ → ℕ → ℕ
sum_pages m amount i zero = amount
sum_pages m amount i (suc left) =
    sum_pages m (u64 (amount + (m.descriptor i).number_of_pages)) (i + 1) left

-- The largest free segment so far, and its size in bytes.
pub larger_segment : MemoryDescriptor → ℕ × ℕ → ℕ × ℕ
larger_segment d best =
    if (d.type == conventional_memory) && ltb best.1 (u64 (d.number_of_pages * 4096))
    then (d.physical_start, u64 (d.number_of_pages * 4096))
    else best

pub largest_segment : MemoryMap → ℕ × ℕ → ℕ → ℕ → ℕ × ℕ
unfolding larger_segment
largest_segment m best i zero = best
largest_segment m best i (suc left) =
    largest_segment m (larger_segment (m.descriptor i) best) (i + 1) left

-- `PageStatusMap[i] = false` for `left` bytes from `i` on.
pub clear_map : (ℕ → ℕ) → ℕ → ℕ → ℕ → ℕ
clear_map bytes i zero = bytes
clear_map bytes i (suc left) = clear_map (update bytes i 0) (i + 1) left

pub lock_reserved : Allocator → MemoryMap → ℕ → ℕ → Allocator
lock_reserved a m i zero = a
lock_reserved a m i (suc left) =
    lock_reserved
      (if not ((m.descriptor i).type == conventional_memory)
        then lock_pages a (m.descriptor i).physical_start (m.descriptor i).number_of_pages
        else a)
      m (i + 1) left

-- The address that `Init` gives to `PageStatusMap`.
pub map_address : MemoryMap → ℕ
unfolding largest_segment
map_address m = (largest_segment m (0, 0) 0 (descriptor_count m)).0

abbrev pub map_pages : MemoryMap → ℕ
map_pages m = sum_pages m 0 0 (descriptor_count m) / 4096 / 8 + 1

-- The globals after the map is placed and cleared; `memory` is what the memory held before.
pub cleared : (ℕ → ℕ) → Allocator → MemoryMap → Allocator
unfolding map_address sum_pages clear_map
cleared memory a m =
    let amount = sum_pages m 0 0 (descriptor_count m) in
    record a {
      page_status_map = clear_map (λ i. memory (map_address m + i)) 0 (amount / 8);
      page_amount = amount;
    }

pub init : (ℕ → ℕ) → Allocator → MemoryMap → ScreenBuffer → ℕ → ℕ → Allocator
unfolding cleared lock_reserved
init memory a m screen kernel_start kernel_end =
    let mapped = lock_pages (cleared memory a m) (map_address m) (map_pages m) in
    let reserved = lock_reserved mapped m 0 (descriptor_count m) in
    let kernel = lock_pages reserved kernel_start (sub64 kernel_end kernel_start / 4096 + 1) in
    lock_pages kernel screen.base (screen.size / 4096 + 1)
