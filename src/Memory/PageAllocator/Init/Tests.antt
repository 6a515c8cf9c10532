-- ===== src/Memory/PageAllocator/Init/Tests.antt =====
-- The theorems on `Init` at a concrete memory map.
use electric_os.Base.{◌≡◌, refl, arith, ◌==◌, if◌then◌else◌, true, false, ltb, ◌/◌, ◌%◌}
use electric_os.Base.Bits.{bit_at}
use electric_os.Memory.PageAllocator.{Allocator, get_page_status}
use electric_os.Memory.PageAllocator.Init.{
  MemoryMap, ScreenBuffer, sum_pages, map_address, map_pages, largest_segment, larger_segment,
  descriptor_count, cleared, init,
}
use electric_os.Memory.PageAllocator.Init.Covers.{Fits, Fresh, is_kept, get_page_status-init}

-- 256 pages for the programs behind 256 pages of the firmware.
abbrev two_segments : MemoryMap
two_segments = record {
  descriptor = λ i.
      if i == 0
      then record {
        type = 0;
        physical_start = 0;
        virtual_start = 0;
        number_of_pages = 256;
        attribute = 0;
      }
      else record {
        type = 7;
        physical_start = 0x100000;
        virtual_start = 0;
        number_of_pages = 256;
        attribute = 0;
      };
  size = 96;
  desc_size = 48;
}

abbrev two_screen : ScreenBuffer
two_screen = record { base = 0x1000000; size = 8192 }

two_segments-Fits : Fits two_segments two_screen 0x110000 0x112000
unfolding sum_pages map_address map_pages largest_segment larger_segment
two_segments-Fits = record {
  total = omega arith;
  status_map = omega arith;
  descriptors = λ i. ground arith;
  kernel = omega arith;
  frame_buffer = omega arith;
}

abbrev blank : Allocator
blank = record { page_status_map = λ i. 255; page_amount = 0; first_free_page = 0 }

-- Memory that is full of ones.
full-Fresh : Fresh (λ i. 255) blank
full-Fresh = record { bytes = λ i. omega arith; hint = refl }

get_page_status-init_example :
    get_page_status (init (λ i. 255) blank two_segments two_screen 0x110000 0x112000) 300 ≡ (
      if is_kept
        (cleared (λ i. 255) blank two_segments)
        two_segments
        two_screen
        0x110000
        0x112000
        300
      then true
      else if ltb (300 / 8) (sum_pages two_segments 0 0 (descriptor_count two_segments) / 8)
      then false
      else bit_at 255 (300 % 8))
get_page_status-init_example =
    get_page_status-init (λ i. 255) blank two_segments two_screen 0x110000 0x112000 full-Fresh
      two_segments-Fits 300
