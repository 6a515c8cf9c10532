-- ===== src/Memory/PageAllocator/Ranges.antt =====
-- What `LockPages` and `FreePages` do to a range of pages.
use electric_os.Base.{
  ℕ, zero, suc, ◌+◌, ◌*◌, ◌/◌, ◌^◌, ◌≤◌, ◌<◌, ◌≡◌, refl, Bool, true, false, ◌&&◌, arith, ltb, leb,
  if◌then◌else◌, u64,
}
use electric_os.Memory.PageAllocator.{
  Allocator, get_page_status, lock_page, free_page, lock_pages_loop, lock_pages, free_pages_loop,
  free_pages,
}
use electric_os.Memory.PageAllocator.Status.{
  Bytes, lock_page-Bytes, free_page-Bytes, get_page_status-lock_page, get_page_status-free_page,
  page_amount-lock_page, page_amount-free_page,
}

-- Index `j` is one of the `n` from address `p` on, up to the amount of pages, which the source's
-- tests let pass although it is one past the last page.
abbrev pub in_range : Allocator → ℕ → ℕ → ℕ → Bool
in_range a p n j = leb (p / 4096) j && ltb j (p / 4096 + n) && leb j a.page_amount

abbrev from_round : Allocator → ℕ → ℕ → ℕ → ℕ → Bool
from_round a p i n j = leb (p / 4096 + i) j && ltb j (p / 4096 + i + n) && leb j a.page_amount

round_page : (p i : ℕ) → p + i * 4096 < 2 ^ 64 → u64 (p + i * 4096) / 4096 ≡ p / 4096 + i
round_page p i h = omega arith

lock_pages_loop-status :
    (a : Allocator) (p i n j : ℕ)
    → Bytes a
    → p + (i + n) * 4096 ≤ 2 ^ 64
    → get_page_status (lock_pages_loop a p i n) j
      ≡ (if from_round a p i n j then true else get_page_status a j)
unfolding lock_pages_loop
lock_pages_loop-status a p i zero j h fits = ground arith
lock_pages_loop-status a p i (suc n) j h fits = ground (
  arith,
  lock_pages_loop-status (lock_page a q).0 p (i + 1) n j (lock_page-Bytes a q h) (omega arith),
  get_page_status-lock_page a q j h,
  page_amount-lock_page a q,
  round_page p i (omega arith),
)
  where
    q : ℕ
    q = u64 (p + i * 4096)

-- On a map of bytes, for a range that ends in the 64-bit address space, the pages locked after
-- `LockPages` are those of the range, up to the amount of pages, and those locked before.
pub get_page_status-lock_pages :
    (a : Allocator) (p n j : ℕ)
    → Bytes a
    → p + n * 4096 ≤ 2 ^ 64
    → get_page_status (lock_pages a p n) j
      ≡ (if in_range a p n j then true else get_page_status a j)
unfolding lock_pages
get_page_status-lock_pages a p n j h fits =
    ground (arith, lock_pages_loop-status a p 0 n j h (omega arith))

free_pages_loop-status :
    (a : Allocator) (p i n j : ℕ)
    → Bytes a
    → p + (i + n) * 4096 ≤ 2 ^ 64
    → get_page_status (free_pages_loop a p i n) j
      ≡ (if from_round a p i n j then false else get_page_status a j)
unfolding free_pages_loop
free_pages_loop-status a p i zero j h fits = ground arith
free_pages_loop-status a p i (suc n) j h fits = ground (
  arith,
  free_pages_loop-status (free_page a q).0 p (i + 1) n j (free_page-Bytes a q h) (omega arith),
  get_page_status-free_page a q j h,
  page_amount-free_page a q,
  round_page p i (omega arith),
)
  where
    q : ℕ
    q = u64 (p + i * 4096)

-- On a map of bytes, for a range that ends in the 64-bit address space, the indices of the range,
-- up to the amount of pages, are free after `FreePages`, and every other one is as before.
get_page_status-free_pages :
    (a : Allocator) (p n j : ℕ)
    → Bytes a
    → p + n * 4096 ≤ 2 ^ 64
    → get_page_status (free_pages a p n) j
      ≡ (if in_range a p n j then false else get_page_status a j)
unfolding free_pages
get_page_status-free_pages a p n j h fits =
    ground (arith, free_pages_loop-status a p 0 n j h (omega arith))

-- On a map of bytes, for a range that ends in the 64-bit address space: the indices of the
-- range, up to the amount of pages, which is one past the last page, are locked after
-- `LockPages` and free after `FreePages`, and every other index is as before.
pub ranges_lem :
    (a : Allocator) (p n j : ℕ)
    → Bytes a
    → p + n * 4096 ≤ 2 ^ 64
    → (get_page_status (lock_pages a p n) j
        ≡ (if in_range a p n j then true else get_page_status a j))
      × (get_page_status (free_pages a p n) j
          ≡ (if in_range a p n j then false else get_page_status a j))
ranges_lem a p n j h fits =
    (get_page_status-lock_pages a p n j h fits, get_page_status-free_pages a p n j h fits)

page_amount-lock_pages_loop :
    (a : Allocator) (p i n : ℕ) → (lock_pages_loop a p i n).page_amount ≡ a.page_amount
unfolding lock_pages_loop
page_amount-lock_pages_loop a p i zero = refl
page_amount-lock_pages_loop a p i (suc n) = omega (
  arith,
  page_amount-lock_pages_loop (lock_page a (u64 (p + i * 4096))).0 p (i + 1) n,
  page_amount-lock_page a (u64 (p + i * 4096)),
)

pub page_amount-lock_pages :
    (a : Allocator) (p n : ℕ) → (lock_pages a p n).page_amount ≡ a.page_amount
unfolding lock_pages
page_amount-lock_pages a p n = page_amount-lock_pages_loop a p 0 n
