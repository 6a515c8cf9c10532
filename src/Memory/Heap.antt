-- ===== src/Memory/Heap.antt =====
-- src/Memory/Heap.cpp: the chain of segments that the kernel's heap is cut into. A segment is named
-- by the address of its header; loops over the chain run on fuel.
pub mod Chain
pub mod FirstFit
pub mod Allocate
pub mod Free
pub mod Sizes
pub mod Split
mod Tests
use electric_os.Base.{
  ℕ, zero, suc, ◌+◌, ◌-◌, ◌*◌, ◌/◌, ◌%◌, ◌^◌, Bool, true, false, ◌&&◌, ◌||◌, Option, none, some,
  ltb, ◌==◌, if◌then◌else◌, u64, sub64,
}
use electric_os.Memory.PageAllocator.{request_page}
use electric_os.Memory.Paging.{Machine, map_address}

-- `Heap::Segment`
pub record Segment : Type 0 where
  pub next : ℕ
  pub size : ℕ
  pub free : Bool

abbrev pub sizeof_segment : ℕ
sizeof_segment = 24

-- The globals, the segment headers in memory, and the page tables that `Reserve` extends.
pub record Heap : Type 0 where
  pub first_segment : ℕ
  pub last_segment : ℕ
  pub segments : ℕ → Segment
  pub machine : Machine

abbrev pub heap_start : ℕ
heap_start = 0x100000000000

-- `HEAP_STARTSIZE`; every use of the macro survives its missing parentheses.
abbrev pub heap_startsize : ℕ
heap_startsize = 0x10 * 4096

abbrev pub null : ℕ
null = 0

pub write : Heap → ℕ → Segment → Heap
write h p s = record h { segments = λ q. if q == p then s else h.segments q }

-- `Segment::GetStart`
abbrev pub get_start : ℕ → ℕ
get_start p = u64 (p + sizeof_segment)

-- `Segment::GetEnd`
abbrev pub get_end : Heap → ℕ → ℕ
get_end h p = u64 (p + sizeof_segment + (h.segments p).size)

-- `Segment::Split`; the subtraction is that of `uint64_t`, and wraps.
pub split : Heap → ℕ → ℕ → Heap
unfolding write
split h p new_size =
    let this = h.segments p in
    let split_size = sub64 (sub64 this.size new_size) sizeof_segment in
    if ltb this.size 64 || ltb split_size 4096
    then h
    else (let new_segment = u64 (get_start p + new_size) in
        let h1 =
          write h new_segment (record { next = this.next; size = split_size; free = true }) in
        write h1 p
          (record (h1.segments p) { next = new_segment; size = sub64 new_size sizeof_segment }))

-- `Segment->Free = Value`
pub set_free : Heap → ℕ → Bool → Heap
unfolding write
set_free h p value = write h p (record (h.segments p) { free = value })

pub data Walk (A : Type 0) : Type 0 where
  done : A → Walk A
  out_of_fuel : Walk A

-- The three sums over the chain.
pub used_size_loop : ℕ → Heap → ℕ → ℕ → Walk ℕ
used_size_loop zero h p acc = out_of_fuel
used_size_loop (suc fuel) h p acc =
    let acc' = if (h.segments p).free then acc else u64 (acc + (h.segments p).size) in
    let rest = used_size_loop fuel h (h.segments p).next acc' in
    if (h.segments p).next == null then done acc' else rest

pub get_used_size : ℕ → Heap → Walk ℕ
unfolding used_size_loop
get_used_size fuel h = used_size_loop fuel h h.first_segment 0

pub free_size_loop : ℕ → Heap → ℕ → ℕ → Walk ℕ
free_size_loop zero h p acc = out_of_fuel
free_size_loop (suc fuel) h p acc =
    let acc' = if (h.segments p).free then u64 (acc + (h.segments p).size) else acc in
    let rest = free_size_loop fuel h (h.segments p).next acc' in
    if (h.segments p).next == null then done acc' else rest

pub get_free_size : ℕ → Heap → Walk ℕ
unfolding free_size_loop
get_free_size fuel h = free_size_loop fuel h h.first_segment 0

pub segment_amount_loop : ℕ → Heap → ℕ → ℕ → Walk ℕ
segment_amount_loop zero h p acc = out_of_fuel
segment_amount_loop (suc fuel) h p acc =
    let rest = segment_amount_loop fuel h (h.segments p).next (u64 (acc + 1)) in
    if (h.segments p).next == null then done (u64 (acc + 1)) else rest

pub get_segment_amount : ℕ → Heap → Walk ℕ
unfolding segment_amount_loop
get_segment_amount fuel h = segment_amount_loop fuel h h.first_segment 0

-- `Size + (64 - Size % 64)`
abbrev pub round_size : ℕ → ℕ
round_size size = u64 (size + (64 - size % 64))

-- The search of `Allocate`: `none` when no free segment is large enough.
pub search_fit : ℕ → Heap → ℕ → ℕ → Walk (Option (Heap × ℕ))
search_fit zero h p size = out_of_fuel
search_fit (suc fuel) h p size =
    let rest = search_fit fuel h (h.segments p).next size in
    if (h.segments p).free && ((h.segments p).size == size)
    then done (some (set_free h p false, get_start p))
    else if (h.segments p).free && ltb size (h.segments p).size
    then done (some (set_free (split h p size) p false, get_start p))
    else if (h.segments p).next == null
    then done none
    else rest

-- `MapAddress(Address, RequestPage())` for `left` pages.
pub map_pages : Machine → ℕ → ℕ → Machine
map_pages s address zero = s
map_pages s address (suc left) =
    let granted = request_page s.allocator in
    map_pages (map_address (record s { allocator = granted.0 }) address granted.1)
      (u64 (address + 4096)) left

abbrev pub page_rounds : ℕ → ℕ
page_rounds size = u64 (size + sizeof_segment) / 4096 + 1

pub reserve : Heap → ℕ → Heap
unfolding map_pages write
reserve h size =
    let rounded = u64 (size + (4096 - size % 4096)) in
    let new_segment = get_end h h.last_segment in
    let h1 = record h { machine = map_pages h.machine new_segment (page_rounds rounded) } in
    let h2 = write h1 new_segment (record { next = null; size = rounded; free = true }) in
    let h3 =
      write h2 h2.last_segment (record (h2.segments h2.last_segment) { next = new_segment }) in
    record h3 { last_segment = new_segment }

-- `Allocate`, with `tries` for its recursion and `fuel` for each search.
pub allocate : ℕ → ℕ → Heap → ℕ → Walk (Heap × ℕ)
allocate zero fuel h size = out_of_fuel
allocate (suc tries) fuel h size =
    if size == 0
    then done (h, null)
    else elim (search_fit fuel h h.first_segment (round_size size)) [
      | out_of_fuel ↦ out_of_fuel
      | done (some r) ↦ done r
      | done none ↦ allocate tries fuel (reserve h (round_size size)) (round_size size)
    ]

-- The pass of `Free` that joins free neighbours.
pub join_loop : ℕ → Heap → ℕ → Walk Heap
unfolding write
join_loop zero h p = out_of_fuel
join_loop (suc fuel) h p =
    let this = h.segments p in
    let other = h.segments this.next in
    let joined =
      write h p (record this {
        size = u64 (this.size + (other.size + sizeof_segment));
        next = other.next;
      }) in
    let rest = join_loop fuel h this.next in
    let rest_joined = join_loop fuel joined other.next in
    if (p == null) || (this.next == null)
    then done h
    else if this.free && other.free
    then rest_joined
    else rest

pub free : ℕ → Heap → ℕ → Walk Heap
free fuel h address =
    join_loop fuel (set_free h (sub64 address sizeof_segment) true) h.first_segment

-- `Init`, over what memory and the globals held before.
pub init : Heap → Heap
unfolding map_pages write
init h =
    let h1 = record h {
      first_segment = heap_start;
      machine = map_pages h.machine heap_start (page_rounds heap_startsize);
    } in
    let h2 = write h1 heap_start (record { next = null; size = heap_startsize; free = true }) in
    record h2 { last_segment = heap_start }
