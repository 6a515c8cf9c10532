-- ===== src/Memory/PageAllocator/Counts.antt =====
-- The page counts of PageAllocator.cpp.
use electric_os.Base.{
  ℕ, zero, suc, ◌+◌, ◌<◌, ◌≡◌, refl, true, false, ◌&&◌, arith, ltb, leb, ◌==◌, if◌then◌else◌, ◌⊎◌,
  inl, inr,
}
use electric_os.Memory.PageAllocator.{
  Allocator, get_page_status, count_status, get_free_pages, get_locked_pages, get_total_pages,
  request_page,
}
use electric_os.Memory.PageAllocator.Request.{
  Granted, Answer, granted, exhausted, request_page-Answer,
}
use electric_os.Memory.PageAllocator.Valid.{IsValid}

count_status-add :
    (a : Allocator) (i n : ℕ) → count_status a false i n + count_status a true i n ≡ n
unfolding count_status
count_status-add a i zero = refl
count_status-add a i (suc n) = ground (arith, count_status-add a (i + 1) n)

-- The free and the locked pages are all pages.
pub get_free_pages-add-get_locked_pages :
    (a : Allocator) → get_free_pages a + get_locked_pages a ≡ get_total_pages a
unfolding get_free_pages get_locked_pages get_total_pages
get_free_pages-add-get_locked_pages a = count_status-add a 0 a.page_amount

-- where page `k` is locked and was free, the count from `i` on falls by one if `k` is in it
count_status-lock :
    (a a' : Allocator) (k i n : ℕ)
    → get_page_status a k ≡ false
    → ((j : ℕ) → get_page_status a' j ≡ (if j == k then true else get_page_status a j))
    → count_status a' false i n + (if leb i k && ltb k (i + n) then 1 else 0)
      ≡ count_status a false i n
unfolding count_status
count_status-lock a a' k i zero free h = ground arith
count_status-lock a a' k i (suc n) free h =
    ground (arith, h i, count_status-lock a a' k (i + 1) n free h)

-- Where an allocator is another one after a page was granted, it counts one free page less.
pub get_free_pages-Granted :
    {a : Allocator} {k : ℕ} {a' : Allocator} {p : ℕ}
    → Granted a k a' p
    → get_free_pages a' + 1 ≡ get_free_pages a
unfolding get_free_pages
get_free_pages-Granted {a} {k} {a'} g =
    ground (arith, g.amount, g.inside, count_status-lock a a' k 0 a.page_amount g.was_free g.status)

count_status-all_locked :
    (a : Allocator) (i n : ℕ)
    → ((j : ℕ) → j < i + n → get_page_status a j ≡ true)
    → count_status a false i n ≡ 0
unfolding count_status
count_status-all_locked a i zero h = refl
count_status-all_locked a i (suc n) h =
    rw (h i (omega arith))
      (omega (arith, count_status-all_locked a (i + 1) n (λ j x. h j (omega arith))))

-- In a valid state with a free page, `RequestPage` grants a page.
pub request_page-grants :
    (a : Allocator)
    → IsValid a
    → 0 < get_free_pages a
    → (k : ℕ) × Granted a k (request_page a).0 (request_page a).1
unfolding get_free_pages
request_page-grants a v some_free = go (request_page-Answer a v.bytes v.hint_holds v.addressable)
  where
    go : {r : Allocator × ℕ} → Answer a r → (k : ℕ) × Granted a k r.0 r.1
    go (granted k g below) = (k, g)
    go (exhausted all e) =
        absurd
          (omega (arith, count_status-all_locked a 0 a.page_amount (λ j x. all j (omega arith))))

no_free :
    (a : Allocator)
    → ((j : ℕ) → j < a.page_amount → get_page_status a j ≡ true)
    → get_free_pages a ≡ 0
unfolding get_free_pages
no_free a all = count_status-all_locked a 0 a.page_amount (λ j x. all j (omega arith))

total : (a a' : Allocator) → a'.page_amount ≡ a.page_amount → get_total_pages a' ≡ get_total_pages a
unfolding get_total_pages
total a a' e = e

-- In a valid state, where there is a free page by `GetFreePages`, `RequestPage` grants one,
-- `GetFreePages` falls by one and `GetLockedPages` rises by one; where there is none, both stay.
-- Afterwards they add up to `GetTotalPages`.
pub request_page-counts :
    (a : Allocator)
    → IsValid a
    → let r = request_page a in
      let taken : ℕ = if get_free_pages a == 0 then 0 else 1 in
      (get_free_pages r.0 + taken ≡ get_free_pages a)
      × (get_locked_pages r.0 ≡ get_locked_pages a + taken)
      × (get_free_pages r.0 + get_locked_pages r.0 ≡ get_total_pages a)
      × ((get_free_pages a ≡ 0) ⊎ ((k : ℕ) × Granted a k r.0 r.1))
request_page-counts a v =
    counts (request_page a) (request_page-Answer a v.bytes v.hint_holds v.addressable)
  where
    counts :
        (r : Allocator × ℕ)
        → Answer a r
        → let taken : ℕ = if get_free_pages a == 0 then 0 else 1 in
          (get_free_pages r.0 + taken ≡ get_free_pages a)
          × (get_locked_pages r.0 ≡ get_locked_pages a + taken)
          × (get_free_pages r.0 + get_locked_pages r.0 ≡ get_total_pages a)
          × ((get_free_pages a ≡ 0) ⊎ ((k : ℕ) × Granted a k r.0 r.1))
    counts r (granted k g below) =
        let fewer = get_free_pages-Granted g in
        let before = get_free_pages-add-get_locked_pages a in
        let after = get_free_pages-add-get_locked_pages r.0 in
        let some_free : (get_free_pages a == 0) ≡ false = ground arith in
        let same : get_total_pages r.0 ≡ get_total_pages a = total a r.0 g.amount in
        rw some_free (fewer, omega arith, omega arith, inr (k, g))
    counts r (exhausted all e) =
        let none_free = no_free a all in
        let full : (get_free_pages a == 0) ≡ true = ground arith in
        rw (e, full)
          (omega arith, omega arith, get_free_pages-add-get_locked_pages a, inl none_free)
