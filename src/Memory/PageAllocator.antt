-- ===== src/Memory/PageAllocator.antt =====
-- The operations of src/Memory/Paging/PageAllocator.cpp on the allocator's global state. A `void*`
-- is its address, and `nullptr` is 0. `Init` is in the child module `Init`.
pub mod Status
pub mod Valid
pub mod Ranges
pub mod Counts
pub mod Init
mod Tests
pub mod Request
use electric_os.Base.{
  ℕ, zero, suc, ◌+◌, ◌-◌, ◌*◌, ◌/◌, ◌%◌, Bool, true, false, Option, none, some, ltb, ◌==◌,
  if◌then◌else◌, u64,
}
use electric_os.Base.Bits.{bit_at, set_bit, clear_bit}

-- The three globals. `PageStatusMap` points into raw memory, which reaches past the map's own
-- bytes: it is the function from an offset to the byte there.
pub record Allocator : Type 0 where
  pub page_status_map : ℕ → ℕ
  pub page_amount : ℕ
  pub first_free_page : ℕ

abbrev pub null : ℕ
null = 0

pub update : (ℕ → ℕ) → ℕ → ℕ → ℕ → ℕ
update m i v j = if j == i then v else m j

unfoldable pub get_page_status : Allocator → ℕ → Bool
get_page_status a i = bit_at (a.page_status_map (i / 8)) (i % 8)

unfoldable pub set_page_status : Allocator → ℕ → Bool → Allocator
unfolding update
set_page_status a i status =
    let byte = a.page_status_map (i / 8) in
    record a {
      page_status_map =
          update a.page_status_map (i / 8)
            (if status then set_bit byte (i % 8) else clear_bit byte (i % 8));
    }

-- `LockPage`, with the address that it returns.
unfoldable pub lock_page : Allocator → ℕ → Allocator × ℕ
lock_page a address =
    if ltb a.page_amount (address / 4096)
    then (a, null)
    else (set_page_status a (address / 4096) true, address)

-- The hint falls back to a page that is freed below it.
pub lower_hint : Allocator → ℕ → Allocator
lower_hint a i = record a {
  first_free_page = if ltb i a.first_free_page then i else a.first_free_page;
}

pub free_page : Allocator → ℕ → Allocator × ℕ
unfolding lower_hint
free_page a address =
    if ltb a.page_amount (address / 4096)
    then (a, null)
    else (lower_hint (set_page_status a (address / 4096) false) (address / 4096), address)

-- The loop of `LockPages` from round `i` on, with `left` rounds to go.
pub lock_pages_loop : Allocator → ℕ → ℕ → ℕ → Allocator
lock_pages_loop a address i zero = a
lock_pages_loop a address i (suc left) =
    lock_pages_loop (lock_page a (u64 (address + i * 4096))).0 address (i + 1) left

pub lock_pages : Allocator → ℕ → ℕ → Allocator
unfolding lock_pages_loop
lock_pages a address count = lock_pages_loop a address 0 count

pub free_pages_loop : Allocator → ℕ → ℕ → ℕ → Allocator
free_pages_loop a address i zero = a
free_pages_loop a address i (suc left) =
    free_pages_loop (free_page a (u64 (address + i * 4096))).0 address (i + 1) left

pub free_pages : Allocator → ℕ → ℕ → Allocator
unfolding free_pages_loop
free_pages a address count = free_pages_loop a address 0 count

-- The scan of `RequestPage` over `left` pages from page `i` on.
pub request_loop : Allocator → ℕ → ℕ → Allocator × ℕ
request_loop a i zero = (a, null)
request_loop a i (suc left) =
    let rest = request_loop a (i + 1) left in
    if get_page_status a i
    then rest
    else lock_page (record a { first_free_page = i + 1 }) (u64 (i * 4096))

unfoldable pub request_page : Allocator → Allocator × ℕ
unfolding request_loop
request_page a = request_loop a a.first_free_page (a.page_amount - a.first_free_page)

-- How many of the `n` pages from page `i` on have the given status.
unfoldable pub count_status : Allocator → Bool → ℕ → ℕ → ℕ
count_status a status i zero = 0
count_status a status i (suc n) =
    (if get_page_status a i then (if status then 1 else 0) else (if status then 0 else 1))
    + count_status a status (i + 1) n

unfoldable pub get_free_pages : Allocator → ℕ
unfolding count_status
get_free_pages a = count_status a false 0 a.page_amount

pub get_locked_pages : Allocator → ℕ
unfolding count_status
get_locked_pages a = count_status a true 0 a.page_amount

pub get_total_pages : Allocator → ℕ
get_total_pages a = a.page_amount
