-- ===== src/Memory/PageAllocator/Tests.antt =====
-- The theorems on the page allocator at concrete allocators.
use electric_os.Base.{ℕ, ◌⊎◌, ◌+◌, ◌<◌, ◌≡◌, refl, arith, ◌==◌, if◌then◌else◌, true, false}
use electric_os.Memory.PageAllocator.{
  Allocator, get_page_status, lock_pages, free_pages, request_page, get_free_pages,
  get_locked_pages, get_total_pages,
}
use electric_os.Memory.PageAllocator.Status.{Bytes}
use electric_os.Memory.PageAllocator.Request.{
  HintHolds, Granted, Answer, request_page-Answer, request_page-lowest,
}
use electric_os.Memory.PageAllocator.Valid.{IsValid, allocator-IsValid}
use electric_os.Memory.PageAllocator.Ranges.{in_range, ranges_lem}
use electric_os.Memory.PageAllocator.Counts.{request_page-counts}

-- Sixteen pages, of which 0 and 2 are locked.
abbrev sixteen : Allocator
sixteen = record {
  page_status_map = λ i. if i == 0 then 5 else 0;
  page_amount = 16;
  first_free_page = 1;
}

sixteen-Bytes : Bytes sixteen
sixteen-Bytes i = ground arith

sixteen-HintHolds : HintHolds sixteen
unfolding get_page_status
sixteen-HintHolds j h = ground arith

sixteen-IsValid : IsValid sixteen
sixteen-IsValid = record {
  bytes = sixteen-Bytes;
  hint_holds = sixteen-HintHolds;
  addressable = omega arith;
}

request_page-Answer_example : Answer sixteen (request_page sixteen)
request_page-Answer_example =
    request_page-Answer sixteen sixteen-Bytes sixteen-HintHolds (omega arith)

allocator-IsValid_example :
    IsValid (request_page sixteen).0
    × IsValid (lock_pages sixteen 0x2000 2)
    × IsValid (free_pages sixteen 0x2000 2)
allocator-IsValid_example = allocator-IsValid sixteen 0x2000 2 sixteen-IsValid

ranges_lem_example :
    (get_page_status (lock_pages sixteen 0x3000 2) 4
      ≡ (if in_range sixteen 0x3000 2 4 then true else get_page_status sixteen 4))
    × (get_page_status (free_pages sixteen 0x3000 2) 4
        ≡ (if in_range sixteen 0x3000 2 4 then false else get_page_status sixteen 4))
ranges_lem_example = ranges_lem sixteen 0x3000 2 4 sixteen-Bytes (omega arith)

request_page-counts_example :
    let r = request_page sixteen in
    let taken : ℕ = if get_free_pages sixteen == 0 then 0 else 1 in
    (get_free_pages r.0 + taken ≡ get_free_pages sixteen)
    × (get_locked_pages r.0 ≡ get_locked_pages sixteen + taken)
    × (get_free_pages r.0 + get_locked_pages r.0 ≡ get_total_pages sixteen)
    × ((get_free_pages sixteen ≡ 0) ⊎ ((k : ℕ) × Granted sixteen k r.0 r.1))
request_page-counts_example = request_page-counts sixteen sixteen-IsValid

sixteen-Granted : Granted sixteen 1 (request_page sixteen).0 (request_page sixteen).1
sixteen-Granted =
    request_page-lowest sixteen 1 sixteen-Bytes sixteen-HintHolds (omega arith) (omega arith)
      first_free first_locked
  where
    first_free : get_page_status sixteen 1 ≡ false
    first_free = unfold get_page_status in refl

    first_locked : (j : ℕ) → j < 1 → get_page_status sixteen j ≡ true
    first_locked = sixteen-HintHolds
