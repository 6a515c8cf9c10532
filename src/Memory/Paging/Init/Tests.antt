-- ===== src/Memory/Paging/Init/Tests.antt =====
-- `Init` on eight free pages, with a frame buffer of one page's bytes above them.
use electric_os.Base.{◌<◌, ◌≡◌, arith, inr, some}
use electric_os.Memory.PageAllocator.{
  Allocator, get_page_status, get_free_pages, count_status, request_page, lock_page,
  set_page_status,
}
use electric_os.Memory.PageAllocator.Valid.{IsValid}
use electric_os.Memory.PageAllocator.Init.{ScreenBuffer}
use electric_os.Memory.Paging.{zero_entry, clear_table, map_address}
use electric_os.Memory.Paging.Walk.{translate}
use electric_os.Memory.Paging.Init.{root_table, init}
use electric_os.Memory.Paging.Init.Pages.{HasRoom}
use electric_os.Memory.Paging.Init.Identity.{pages, init-identity}

abbrev eight_pages : Allocator
eight_pages = record { page_status_map = λ i. 0; page_amount = 8; first_free_page = 0 }

abbrev small_screen : ScreenBuffer
small_screen = record { base = 0x9000; size = 4096 }

eight_pages-IsValid : IsValid eight_pages
eight_pages-IsValid = record {
  bytes = λ i. omega arith;
  hint_holds = λ j h. absurd (omega arith);
  addressable = omega arith;
}

some_free : 0 < get_free_pages eight_pages
unfolding get_free_pages count_status get_page_status
some_free = omega arith

room : HasRoom (pages eight_pages small_screen) (root_table (λ f i. zero_entry) eight_pages)
unfolding get_free_pages count_status get_page_status root_table clear_table map_address
    request_page lock_page set_page_status
room = omega arith

init-identity_example :
    translate (init (λ f i. zero_entry) eight_pages small_screen) 0x9123 ≡ some 0x9123
init-identity_example =
    init-identity (λ f i. zero_entry) eight_pages small_screen 0x9123 eight_pages-IsValid some_free
      (omega arith) (omega arith) room (inr (omega arith))
