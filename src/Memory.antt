-- ===== src/Memory.antt =====
-- src/Memory: the page allocator, the page tables and the heap.
pub mod PageAllocator
pub mod Paging
pub mod Heap
