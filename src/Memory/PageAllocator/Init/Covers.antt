-- ===== src/Memory/PageAllocator/Init/Covers.antt =====
-- Which pages `Init` leaves locked.
use electric_os.Base.{
  ℕ, zero, suc, ◌+◌, ◌*◌, ◌/◌, ◌%◌, ◌^◌, ◌≤◌, ◌<◌, ◌≡◌, refl, Bool, true, false, not, ◌&&◌, ◌||◌,
  arith, ltb, leb, ◌==◌, if◌then◌else◌, sub64, Bool-cases, inl, inr, ◌∙◌, sym,
}
use native.Mathlib.Nat.{zero-div}
use electric_os.Base.Bits.{bit_at}
use electric_os.Memory.PageAllocator.{Allocator, update, get_page_status, lock_pages}
use electric_os.Memory.PageAllocator.Valid.{IsValid, lock_pages-IsValid}
use electric_os.Memory.PageAllocator.Ranges.{
  in_range, get_page_status-lock_pages, page_amount-lock_pages,
}
use electric_os.Memory.PageAllocator.Init.{
  MemoryMap, conventional_memory, descriptor_count, ScreenBuffer, sum_pages, clear_map,
  lock_reserved, map_address, map_pages, cleared, init,
}

-- No range of the boot information runs past the 64-bit address space.
pub record Fits (m : MemoryMap) (screen : ScreenBuffer) (kernel_start kernel_end : ℕ) : Type 0 where
  pub total : sum_pages m 0 0 (descriptor_count m) * 4096 ≤ 2 ^ 64
  pub status_map : map_address m + map_pages m * 4096 ≤ 2 ^ 64
  pub descriptors :
      (i : ℕ) → (m.descriptor i).physical_start + (m.descriptor i).number_of_pages * 4096 ≤ 2 ^ 64
  pub kernel : kernel_start + (sub64 kernel_end kernel_start / 4096 + 1) * 4096 ≤ 2 ^ 64
  pub frame_buffer : screen.base + (screen.size / 4096 + 1) * 4096 ≤ 2 ^ 64

-- Page `j` belongs to one of `left` descriptors from `i` on that is not conventional memory.
abbrev pub is_reserved : Allocator → MemoryMap → ℕ → ℕ → ℕ → Bool
is_reserved a m j i zero = false
is_reserved a m j i (suc left) =
    (not ((m.descriptor i).type == conventional_memory)
      && in_range a (m.descriptor i).physical_start (m.descriptor i).number_of_pages j)
    || is_reserved a m j (i + 1) left

clear_map_lem :
    (b : ℕ → ℕ) (i n j : ℕ) → clear_map b i n j ≡ (if leb i j && ltb j (i + n) then 0 else b j)
unfolding clear_map update
clear_map_lem b i zero j = ground arith
clear_map_lem b i (suc n) j = ground (arith, clear_map_lem (update b i 0) (i + 1) n j)

in_range-amount :
    (a b : Allocator) (p n j : ℕ)
    → a.page_amount ≡ b.page_amount
    → in_range a p n j ≡ in_range b p n j
in_range-amount a b p n j e = rw e refl

is_reserved-amount :
    (a b : Allocator) (m : MemoryMap) (j i n : ℕ)
    → a.page_amount ≡ b.page_amount
    → is_reserved a m j i n ≡ is_reserved b m j i n
is_reserved-amount a b m j i n e = rw e refl

abbrev reserve : Allocator → MemoryMap → ℕ → Allocator
reserve a m i =
    if not ((m.descriptor i).type == conventional_memory)
    then lock_pages a (m.descriptor i).physical_start (m.descriptor i).number_of_pages
    else a

reserve-IsValid : (a : Allocator) (m : MemoryMap) (i : ℕ) → IsValid a → IsValid (reserve a m i)
reserve-IsValid a m i v = elim (Bool-cases ((m.descriptor i).type == conventional_memory)) [
  | inl e ↦ rw e v
  | inr e ↦
      rw e (lock_pages-IsValid a (m.descriptor i).physical_start (m.descriptor i).number_of_pages v)
]

amount-reserve :
    (a : Allocator) (m : MemoryMap) (i : ℕ) → (reserve a m i).page_amount ≡ a.page_amount
amount-reserve a m i = ground (
  arith,
  page_amount-lock_pages a (m.descriptor i).physical_start (m.descriptor i).number_of_pages,
)

lock_reserved-IsValid :
    (a : Allocator) (m : MemoryMap) (i n : ℕ) → IsValid a → IsValid (lock_reserved a m i n)
unfolding lock_reserved
lock_reserved-IsValid a m i zero v = v
lock_reserved-IsValid a m i (suc n) v =
    lock_reserved-IsValid (reserve a m i) m (i + 1) n (reserve-IsValid a m i v)

amount-lock_reserved :
    (a : Allocator) (m : MemoryMap) (i n : ℕ) → (lock_reserved a m i n).page_amount ≡ a.page_amount
unfolding lock_reserved
amount-lock_reserved a m i zero = refl
amount-lock_reserved a m i (suc n) =
    amount-lock_reserved (reserve a m i) m (i + 1) n ∙ amount-reserve a m i

module _ (m : MemoryMap) (j : ℕ)
    (fits : (i : ℕ)
      → (m.descriptor i).physical_start + (m.descriptor i).number_of_pages * 4096 ≤ 2 ^ 64) where
  status-lock_reserved :
      (a : Allocator) (i n : ℕ)
      → IsValid a
      → get_page_status (lock_reserved a m i n) j
        ≡ (if is_reserved a m j i n then true else get_page_status a j)
  unfolding lock_reserved
  status-lock_reserved a i zero v = refl
  status-lock_reserved a i (suc n) v = ground (
    arith,
    status-lock_reserved (reserve a m i) (i + 1) n (reserve-IsValid a m i v),
    is_reserved-amount (reserve a m i) a m j (i + 1) n (amount-reserve a m i),
    get_page_status-lock_pages a (m.descriptor i).physical_start (m.descriptor i).number_of_pages j
        v.bytes (fits i),
  )

-- What `Init` starts from: the hint is still 0, and memory holds bytes.
pub record Fresh (memory : ℕ → ℕ) (a : Allocator) : Type 0 where
  pub bytes : (i : ℕ) → memory i < 256
  pub hint : a.first_free_page ≡ 0

cleared-IsValid :
    (memory : ℕ → ℕ) (a : Allocator) (m : MemoryMap)
    → Fresh memory a
    → sum_pages m 0 0 (descriptor_count m) * 4096 ≤ 2 ^ 64
    → IsValid (cleared memory a m)
unfolding cleared
cleared-IsValid memory a m fresh total = record {
  bytes = λ i. ground (
    arith,
    fresh.bytes (map_address m + i),
    clear_map_lem (λ k. memory (map_address m + k)) 0 (sum_pages m 0 0 (descriptor_count m) / 8) i,
  );
  hint_holds = λ j h. absurd (omega (arith, fresh.hint));
  addressable = total;
}

zero_bit : (k : ℕ) → bit_at 0 k ≡ false
zero_bit k = ground (arith, zero-div (2 ^ k))

status-cleared :
    (memory : ℕ → ℕ) (a : Allocator) (m : MemoryMap) (j : ℕ)
    → get_page_status (cleared memory a m) j ≡ (
        if ltb (j / 8) (sum_pages m 0 0 (descriptor_count m) / 8)
        then false
        else bit_at (memory (map_address m + j / 8)) (j % 8))
unfolding cleared get_page_status
status-cleared memory a m j = ground (
  arith,
  clear_map_lem (λ k. memory (map_address m + k)) 0 (sum_pages m 0 0 (descriptor_count m) / 8)
      (j / 8),
  zero_bit (j % 8),
)

-- The pages that must never be handed out: those of the status map, of every descriptor that is
-- not conventional memory, of the kernel and of the screen.
abbrev pub is_kept : Allocator → MemoryMap → ScreenBuffer → ℕ → ℕ → ℕ → Bool
is_kept a m screen kernel_start kernel_end j =
    in_range a (map_address m) (map_pages m) j
    || is_reserved a m j 0 (descriptor_count m)
    || in_range a kernel_start (sub64 kernel_end kernel_start / 4096 + 1) j
    || in_range a screen.base (screen.size / 4096 + 1) j

module _ (memory : ℕ → ℕ) (a : Allocator) (m : MemoryMap) (screen : ScreenBuffer)
    (kernel_start kernel_end : ℕ) (fresh : Fresh memory a)
    (fits : Fits m screen kernel_start kernel_end) where
  mapped : Allocator
  mapped = lock_pages (cleared memory a m) (map_address m) (map_pages m)

  mapped-IsValid : IsValid mapped
  unfolding mapped
  mapped-IsValid =
      lock_pages-IsValid (cleared memory a m) (map_address m) (map_pages m)
        (cleared-IsValid memory a m fresh fits.total)

  reserved : Allocator
  reserved = lock_reserved mapped m 0 (descriptor_count m)

  reserved-IsValid : IsValid reserved
  unfolding reserved
  reserved-IsValid = lock_reserved-IsValid mapped m 0 (descriptor_count m) mapped-IsValid

  kernel : Allocator
  kernel = lock_pages reserved kernel_start (sub64 kernel_end kernel_start / 4096 + 1)

  kernel-IsValid : IsValid kernel
  unfolding kernel
  kernel-IsValid =
      lock_pages-IsValid reserved kernel_start (sub64 kernel_end kernel_start / 4096 + 1)
        reserved-IsValid

  -- From memory of bytes and a hint of 0, with no range past the 64-bit address space, `Init`
  -- establishes the allocator's invariant: bytes in the map, only locked pages below the hint,
  -- and 64-bit addresses.
  init-IsValid : IsValid (init memory a m screen kernel_start kernel_end)
  unfolding init kernel reserved mapped
  init-IsValid = lock_pages-IsValid kernel screen.base (screen.size / 4096 + 1) kernel-IsValid

  amount-mapped : mapped.page_amount ≡ (cleared memory a m).page_amount
  unfolding mapped
  amount-mapped = page_amount-lock_pages (cleared memory a m) (map_address m) (map_pages m)

  amount-reserved : reserved.page_amount ≡ (cleared memory a m).page_amount
  unfolding reserved
  amount-reserved = amount-lock_reserved mapped m 0 (descriptor_count m) ∙ amount-mapped

  amount-kernel : kernel.page_amount ≡ (cleared memory a m).page_amount
  unfolding kernel
  amount-kernel =
      page_amount-lock_pages reserved kernel_start (sub64 kernel_end kernel_start / 4096 + 1)
      ∙ amount-reserved

  status-mapped :
      (j : ℕ)
      → get_page_status mapped j ≡ (
          if in_range (cleared memory a m) (map_address m) (map_pages m) j
          then true
          else get_page_status (cleared memory a m) j)
  unfolding mapped
  status-mapped j =
      get_page_status-lock_pages (cleared memory a m) (map_address m) (map_pages m) j
        (cleared-IsValid memory a m fresh fits.total).bytes fits.status_map

  status-reserved :
      (j : ℕ)
      → get_page_status reserved j ≡ (
          if is_reserved (cleared memory a m) m j 0 (descriptor_count m)
          then true
          else get_page_status mapped j)
  unfolding reserved
  status-reserved j =
      rw
        (is_reserved-amount (cleared memory a m) mapped m j 0 (descriptor_count m)
          (sym amount-mapped))
        (status-lock_reserved m j fits.descriptors mapped 0 (descriptor_count m) mapped-IsValid)

  status-kernel :
      (j : ℕ)
      → get_page_status kernel j ≡ (
          if in_range (cleared memory a m) kernel_start (sub64 kernel_end kernel_start / 4096 + 1) j
          then true
          else get_page_status reserved j)
  unfolding kernel
  status-kernel j =
      rw
        (in_range-amount (cleared memory a m) reserved kernel_start
          (sub64 kernel_end kernel_start / 4096 + 1) j (sym amount-reserved))
        (get_page_status-lock_pages reserved kernel_start (sub64 kernel_end kernel_start / 4096 + 1)
          j reserved-IsValid.bytes fits.kernel)

  -- From memory of bytes and a hint of 0, with no range past the 64-bit address space, a page
  -- is locked after `Init` if it must be kept, or if its status bit is in no complete byte of
  -- the map and was set in memory before; every other page is free.
  pub get_page_status-init :
      (j : ℕ)
      → get_page_status (init memory a m screen kernel_start kernel_end) j ≡ (
          if is_kept (cleared memory a m) m screen kernel_start kernel_end j
          then true
          else if ltb (j / 8) (sum_pages m 0 0 (descriptor_count m) / 8)
          then false
          else bit_at (memory (map_address m + j / 8)) (j % 8))
  unfolding init
  get_page_status-init j = ground (
    arith,
    final,
    status-kernel j,
    status-reserved j,
    status-mapped j,
    status-cleared memory a m j,
  )
    where
      final : get_page_status (init memory a m screen kernel_start kernel_end) j ≡ (
          if in_range (cleared memory a m) screen.base (screen.size / 4096 + 1) j
          then true
          else get_page_status kernel j)
      final =
          rw
            (in_range-amount (cleared memory a m) kernel screen.base (screen.size / 4096 + 1) j
              (sym amount-kernel))
            (unfold kernel reserved mapped in
              get_page_status-lock_pages kernel screen.base (screen.size / 4096 + 1) j
                kernel-IsValid.bytes fits.frame_buffer)
