-- ===== src/Memory/PageAllocator/Request.antt =====
-- `RequestPage` of PageAllocator.cpp, and the hint `FirstFreePage` that its scan starts from.
use electric_os.Base.{
  ℕ, zero, suc, ◌+◌, ◌-◌, ◌*◌, ◌/◌, ◌^◌, ◌≤◌, ◌<◌, ◌≡◌, refl, true, false, arith, ltb, ◌==◌,
  if◌then◌else◌, u64, Bool-cases, inl, inr, ltb→lt,
}
use electric_os.Memory.PageAllocator.{
  Allocator, null, get_page_status, set_page_status, lock_page, request_loop, request_page,
}
use electric_os.Memory.PageAllocator.Status.{Bytes, get_page_status-set_page_status}

-- No page below the hint is free.
abbrev pub HintHolds : Allocator → Type 0
HintHolds a = (j : ℕ) → j < a.first_free_page → get_page_status a j ≡ true

-- Every page has an address.
abbrev pub Addressable : Allocator → Type 0
Addressable a = a.page_amount * 4096 ≤ 2 ^ 64

-- `a'` is `a` after its page `k` has been handed out.
pub record Granted (a : Allocator) (k : ℕ) (a' : Allocator) (address : ℕ) : Type 0 where
  pub inside : k < a.page_amount
  pub was_free : get_page_status a k ≡ false
  pub returned : address ≡ k * 4096
  pub status : (j : ℕ) → get_page_status a' j ≡ (if j == k then true else get_page_status a j)
  pub hint : a'.first_free_page ≡ k + 1
  pub amount : a'.page_amount ≡ a.page_amount

grant : (a : Allocator) (k : ℕ) → Allocator × ℕ
grant a k = lock_page (record a { first_free_page = k + 1 }) (u64 (k * 4096))

grant-Granted :
    (a : Allocator) (k : ℕ)
    → Bytes a
    → Addressable a
    → k < a.page_amount
    → get_page_status a k ≡ false
    → Granted a k (grant a k).0 (grant a k).1
unfolding grant lock_page
grant-Granted a k h fits inside free = record {
  inside = inside;
  was_free = free;
  returned = ground arith;
  status = λ j. status j;
  hint = ground (arith, hint_lem);
  amount = ground (arith, amount_lem);
}
  where
    a' : Allocator
    a' = record a { first_free_page = k + 1 }

    page : u64 (k * 4096) / 4096 ≡ k
    page = omega arith

    moved : (j : ℕ) → get_page_status a' j ≡ get_page_status a j
    moved j = unfold get_page_status in refl

    status :
        (j : ℕ)
        → get_page_status (lock_page a' (u64 (k * 4096))).0 j
          ≡ (if j == k then true else get_page_status a j)
    status j = ground (arith, page, moved j, get_page_status-set_page_status a' k j true h)

    hint_lem : (set_page_status a' (u64 (k * 4096) / 4096) true).first_free_page ≡ k + 1
    hint_lem = unfold set_page_status in refl

    amount_lem : (set_page_status a' (u64 (k * 4096) / 4096) true).page_amount ≡ a.page_amount
    amount_lem = unfold set_page_status in refl

request_loop-grant :
    (a : Allocator) (i n k : ℕ)
    → i ≤ k
    → k < i + n
    → ((j : ℕ) → i ≤ j → j < k → get_page_status a j ≡ true)
    → get_page_status a k ≡ false
    → request_loop a i n ≡ grant a k
unfolding request_loop grant
request_loop-grant a i zero k p q locked free = absurd (omega arith)
request_loop-grant a i (suc n) k p q locked free = elim (Bool-cases (i == k)) [
  | inl e ↦ ground arith
  | inr e ↦ rw (locked i (omega arith) (ground arith)) (
      request_loop-grant a (i + 1) n k (ground arith) (omega arith)
        (λ j x y. locked j (omega arith) y) free)
]

request_loop-none :
    (a : Allocator) (i n : ℕ)
    → ((j : ℕ) → i ≤ j → j < i + n → get_page_status a j ≡ true)
    → request_loop a i n ≡ (a, null)
unfolding request_loop
request_loop-none a i zero locked = refl
request_loop-none a i (suc n) locked =
    rw (locked i (omega arith) (omega arith))
      (request_loop-none a (i + 1) n (λ j x y. locked j (omega arith) (omega arith)))

-- If page `k` is the lowest free page of the memory, `RequestPage` hands out exactly that page:
-- it returns its address, locks it and no other page, and moves the hint behind it.
pub request_page-lowest :
    (a : Allocator) (k : ℕ)
    → Bytes a
    → HintHolds a
    → Addressable a
    → k < a.page_amount
    → get_page_status a k ≡ false
    → ((j : ℕ) → j < k → get_page_status a j ≡ true)
    → Granted a k (request_page a).0 (request_page a).1
unfolding request_page
request_page-lowest a k h hint fits inside free below = elim (Bool-cases (ltb k first)) [
  | inl low ↦ cc (hint k (ltb→lt k first low), free)
  | inr high ↦
      rw
        (request_loop-grant a first (a.page_amount - first) k (ground arith) (ground arith)
          (λ j x y. below j y) free)
        (grant-Granted a k h fits inside free)
]
  where
    first : ℕ
    first = a.first_free_page

-- If every page of the memory is locked, `RequestPage` returns `nullptr` and changes nothing.
pub request_page-exhausted :
    (a : Allocator)
    → ((j : ℕ) → j < a.page_amount → get_page_status a j ≡ true)
    → request_page a ≡ (a, null)
unfolding request_page
request_page-exhausted a locked =
    request_loop-none a a.first_free_page (a.page_amount - a.first_free_page)
      (λ j x y. locked j (omega arith))

-- the lowest free page among the first `n`, if there is one
data Lowest (a : Allocator) (n : ℕ) : Type 0 where
  found :
      (k : ℕ)
      → k < n
      → get_page_status a k ≡ false
      → ((j : ℕ) → j < k → get_page_status a j ≡ true)
      → Lowest a n
  all_locked : ((j : ℕ) → j < n → get_page_status a j ≡ true) → Lowest a n

lowest : (a : Allocator) (n : ℕ) → Lowest a n
lowest a zero = all_locked (λ j h. absurd (omega arith))
lowest a (suc n) = go (lowest a n)
  where
    go : Lowest a n → Lowest a (suc n)
    go (found k p q r) = found k (omega arith) q r
    go (all_locked h) = elim (Bool-cases (get_page_status a n)) [
      | inl e ↦
          all_locked (λ j x. elim (Bool-cases (j == n)) [
            | inl s ↦ ground arith
            | inr d ↦ h j (ground arith)
          ])
      | inr e ↦ found n (omega arith) e h
    ]

-- What `RequestPage` answers: a page, or nothing because every page is locked.
pub data Answer (a : Allocator) : Allocator × ℕ → Type 0 where
  granted :
      (k : ℕ) {r : Allocator × ℕ}
      → Granted a k r.0 r.1
      → ((j : ℕ) → j < k → get_page_status a j ≡ true)
      → Answer a r
  exhausted :
      {r : Allocator × ℕ}
      → ((j : ℕ) → j < a.page_amount → get_page_status a j ≡ true)
      → r ≡ (a, null)
      → Answer a r

-- On a map of bytes with a true hint and addresses of 64 bits, `RequestPage` grants the lowest
-- free page, or, if every page is locked, returns null and changes nothing.
pub request_page-Answer :
    (a : Allocator) → Bytes a → HintHolds a → Addressable a → Answer a (request_page a)
request_page-Answer a h hint fits = go (lowest a a.page_amount)
  where
    go : Lowest a a.page_amount → Answer a (request_page a)
    go (found k p q r) = granted k (request_page-lowest a k h hint fits p q r) r
    go (all_locked all) = exhausted all (request_page-exhausted a all)
