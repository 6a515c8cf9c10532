-- ===== src/Memory/PageAllocator/Status.antt =====
-- The status map of PageAllocator.cpp as a set of locked pages.
use electric_os.Base.{
  ℕ, ◌/◌, ◌%◌, ◌<◌, ◌≡◌, Bool, true, false, ◌&&◌, arith, leb, ◌==◌, if◌then◌else◌,
}
use electric_os.Base.Bits.{bit_at-set_bit, bit_at-clear_bit, set_bit-lt, clear_bit-lt}
use electric_os.Memory.PageAllocator.{
  Allocator, get_page_status, set_page_status, lock_page, free_page,
}

-- Every entry of the map is a byte.
abbrev pub Bytes : Allocator → Type 0
Bytes a = (i : ℕ) → a.page_status_map i < 256

pub set_page_status-Bytes :
    (a : Allocator) (i : ℕ) (b : Bool) → Bytes a → Bytes (set_page_status a i b)
unfolding set_page_status
set_page_status-Bytes a i b h j = ground (
  arith,
  h (i / 8),
  h j,
  set_bit-lt (a.page_status_map (i / 8)) (i % 8),
  clear_bit-lt (a.page_status_map (i / 8)) (i % 8),
)

index_eq : (i j : ℕ) → i / 8 ≡ j / 8 → i % 8 ≡ j % 8 → i ≡ j
index_eq i j p q = omega arith

-- A write to the status of page `i` is read back at `i`, and changes no other page.
pub get_page_status-set_page_status :
    (a : Allocator) (i j : ℕ) (b : Bool)
    → Bytes a
    → get_page_status (set_page_status a i b) j ≡ (if j == i then b else get_page_status a j)
unfolding get_page_status set_page_status
get_page_status-set_page_status a i j b h = ground (
  arith,
  h (i / 8),
  index_eq i j,
  bit_at-set_bit (a.page_status_map (i / 8)) (i % 8) (j % 8),
  bit_at-clear_bit (a.page_status_map (i / 8)) (i % 8) (j % 8),
)

module _ (a : Allocator) (p : ℕ) where
  pub lock_page-Bytes : Bytes a → Bytes (lock_page a p).0
  unfolding lock_page
  lock_page-Bytes h i = ground (arith, h i, set_page_status-Bytes a (p / 4096) true h i)

  pub free_page-Bytes : Bytes a → Bytes (free_page a p).0
  unfolding free_page
  free_page-Bytes h i = ground (arith, h i, set_page_status-Bytes a (p / 4096) false h i)

  -- The page that `lock_page` names is locked unless it lies beyond the memory.
  pub get_page_status-lock_page :
      (j : ℕ)
      → Bytes a
      → get_page_status (lock_page a p).0 j
        ≡ (if (j == p / 4096) && leb (p / 4096) a.page_amount then true else get_page_status a j)
  unfolding lock_page
  get_page_status-lock_page j h =
      ground (arith, get_page_status-set_page_status a (p / 4096) j true h)

  pub get_page_status-free_page :
      (j : ℕ)
      → Bytes a
      → get_page_status (free_page a p).0 j
        ≡ (if (j == p / 4096) && leb (p / 4096) a.page_amount then false else get_page_status a j)
  unfolding free_page get_page_status
  get_page_status-free_page j h =
      ground (arith, get_page_status-set_page_status a (p / 4096) j false h)

  pub page_amount-lock_page : (lock_page a p).0.page_amount ≡ a.page_amount
  unfolding lock_page set_page_status
  page_amount-lock_page = ground arith

  pub page_amount-free_page : (free_page a p).0.page_amount ≡ a.page_amount
  unfolding free_page set_page_status
  page_amount-free_page = ground arith
