-- ===== src/Memory/Paging/Tests.antt =====
-- The theorems on the page tables at an empty root table.
use electric_os.Base.{
  ◌+◌, ◌*◌, ◌/◌, ◌%◌, ◌≤◌, ◌≡◌, refl, arith, ◌==◌, if◌then◌else◌, u64, [], none, some,
}
use electric_os.Memory.PageAllocator.{get_page_status, get_free_pages, count_status}
use electric_os.Memory.PageAllocator.Valid.{IsValid}
use electric_os.Memory.Paging.{Machine, zero_entry, map_address}
use electric_os.Memory.Paging.Walk.{child, translate}
use electric_os.Memory.Paging.Tree.{Owner, IsTree}
use electric_os.Memory.Paging.MapAddress.{same_page, translate-map_address, map_address-IsTree}

-- Sixteen pages, of which page 5 is locked: the root table.
abbrev root_only : Machine
root_only = record {
  pml4 = 0x5000;
  tables = λ f i. zero_entry;
  allocator = record {
    page_status_map = λ i. if i == 0 then 32 else 0;
    page_amount = 16;
    first_free_page = 0;
  };
}

abbrev root_owner : Owner
root_owner f = if f == 0x5000 then some [] else none

root_only-IsValid : IsValid root_only.allocator
root_only-IsValid = record {
  bytes = λ i. ground arith;
  hint_holds = λ j h. absurd (omega arith);
  addressable = omega arith;
}

root_only-IsTree : IsTree root_only root_owner
unfolding child get_page_status
root_only-IsTree = record {
  root = refl;
  below = λ f i g p o short linked. ground arith;
  locked = λ f p o. ground arith;
  allocator_valid = root_only-IsValid;
}

root_only-room : 3 ≤ get_free_pages root_only.allocator
unfolding get_free_pages count_status get_page_status
root_only-room = omega arith

translate-map_address_example : translate (map_address root_only 0x40201000 0x9000) 0x40201008 ≡ (
    if same_page 0x40201008 0x40201000
    then some (u64 (0x9000 / 4096 * 4096) + 0x40201008 % 4096)
    else translate root_only 0x40201008)
translate-map_address_example =
    translate-map_address root_only root_owner 0x40201000 0x9000 0x40201008 root_only-IsTree
      root_only-room

map_address-IsTree_example :
    (owner : Owner) × IsTree (map_address root_only 0x40201000 0x9000) owner
map_address-IsTree_example =
    map_address-IsTree root_only root_owner 0x40201000 0x9000 root_only-IsTree root_only-room
