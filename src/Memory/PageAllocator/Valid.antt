-- ===== src/Memory/PageAllocator/Valid.antt =====
-- The invariant of the allocator's globals, and the operations that keep it.
use electric_os.Base.{ℕ, zero, suc, ◌+◌, ◌-◌, ◌*◌, ◌/◌, ◌≤◌, ◌≡◌, arith, u64, Bool-cases, inl, inr}
use electric_os.Memory.PageAllocator.{
  Allocator, get_page_status, set_page_status, lock_page, free_page, request_page, lock_pages_loop,
  lock_pages, free_pages_loop, free_pages, request_loop,
}
use electric_os.Memory.PageAllocator.Status.{
  Bytes, lock_page-Bytes, free_page-Bytes, get_page_status-lock_page, get_page_status-free_page,
  page_amount-lock_page, page_amount-free_page,
}
use electric_os.Memory.PageAllocator.Request.{
  HintHolds, Addressable, Answer, granted, exhausted, request_page-Answer,
}

pub record IsValid (a : Allocator) : Type 0 where
  pub bytes : Bytes a
  pub hint_holds : HintHolds a
  pub addressable : Addressable a

first_free_page-lock_page :
    (a : Allocator) (p : ℕ) → (lock_page a p).0.first_free_page ≡ a.first_free_page
unfolding lock_page set_page_status
first_free_page-lock_page a p = ground arith

pub lock_page-IsValid : (a : Allocator) (p : ℕ) → IsValid a → IsValid (lock_page a p).0
lock_page-IsValid a p v = record {
  bytes = lock_page-Bytes a p v.bytes;
  hint_holds = λ j h. ground (
    arith,
    first_free_page-lock_page a p,
    get_page_status-lock_page a p j v.bytes,
    v.hint_holds j,
  );
  addressable = ground (arith, page_amount-lock_page a p, v.addressable);
}

first_free_page-free_page :
    (a : Allocator) (p : ℕ)
    → ((free_page a p).0.first_free_page ≤ a.first_free_page)
      × (p / 4096 ≤ a.page_amount → (free_page a p).0.first_free_page ≤ p / 4096)
unfolding free_page set_page_status
first_free_page-free_page a p = ground arith

pub free_page-IsValid : (a : Allocator) (p : ℕ) → IsValid a → IsValid (free_page a p).0
free_page-IsValid a p v = record {
  bytes = free_page-Bytes a p v.bytes;
  hint_holds = λ j h. ground (
    arith,
    first_free_page-free_page a p,
    get_page_status-free_page a p j v.bytes,
    v.hint_holds j,
  );
  addressable = ground (arith, page_amount-free_page a p, v.addressable);
}

lock_pages_loop-IsValid :
    (a : Allocator) (p i n : ℕ) → IsValid a → IsValid (lock_pages_loop a p i n)
unfolding lock_pages_loop
lock_pages_loop-IsValid a p i zero v = v
lock_pages_loop-IsValid a p i (suc n) v =
    lock_pages_loop-IsValid (lock_page a (u64 (p + i * 4096))).0 p (i + 1) n
      (lock_page-IsValid a (u64 (p + i * 4096)) v)

-- `LockPages` keeps the allocator's invariant, for each address and count.
pub lock_pages-IsValid : (a : Allocator) (p n : ℕ) → IsValid a → IsValid (lock_pages a p n)
unfolding lock_pages
lock_pages-IsValid a p n = lock_pages_loop-IsValid a p 0 n

free_pages_loop-IsValid :
    (a : Allocator) (p i n : ℕ) → IsValid a → IsValid (free_pages_loop a p i n)
unfolding free_pages_loop
free_pages_loop-IsValid a p i zero v = v
free_pages_loop-IsValid a p i (suc n) v =
    free_pages_loop-IsValid (free_page a (u64 (p + i * 4096))).0 p (i + 1) n
      (free_page-IsValid a (u64 (p + i * 4096)) v)

-- `FreePages` keeps the allocator's invariant, for each address and count: the hint goes down
-- where a page below it becomes free.
pub free_pages-IsValid : (a : Allocator) (p n : ℕ) → IsValid a → IsValid (free_pages a p n)
unfolding free_pages
free_pages-IsValid a p n = free_pages_loop-IsValid a p 0 n

request_loop-Bytes : (a : Allocator) (i n : ℕ) → Bytes a → Bytes (request_loop a i n).0
unfolding request_loop
request_loop-Bytes a i zero h = h
request_loop-Bytes a i (suc n) h = elim (Bool-cases (get_page_status a i)) [
  | inl e ↦ rw e (request_loop-Bytes a (i + 1) n h)
  | inr e ↦ rw e (lock_page-Bytes (record a { first_free_page = i + 1 }) (u64 (i * 4096)) h)
]

Answer-IsValid :
    {a : Allocator} {r : Allocator × ℕ} → Answer a r → Bytes r.0 → IsValid a → IsValid r.0
Answer-IsValid (granted k g below) b v = record {
  bytes = b;
  hint_holds = λ j h. ground (arith, g.hint, g.status j, below j);
  addressable = ground (arith, g.amount, v.addressable);
}
Answer-IsValid (exhausted all e) b v = rw e v

-- `RequestPage` keeps the allocator's invariant.
pub request_page-IsValid : (a : Allocator) → IsValid a → IsValid (request_page a).0
unfolding request_page
request_page-IsValid a v =
    Answer-IsValid (request_page-Answer a v.bytes v.hint_holds v.addressable)
      (request_loop-Bytes a a.first_free_page (a.page_amount - a.first_free_page) v.bytes) v

-- `RequestPage`, `LockPages` and `FreePages` keep the allocator's invariant, for each address
-- and count.
pub allocator-IsValid :
    (a : Allocator) (p n : ℕ)
    → IsValid a
    → IsValid (request_page a).0 × IsValid (lock_pages a p n) × IsValid (free_pages a p n)
allocator-IsValid a p n v =
    (request_page-IsValid a v, lock_pages-IsValid a p n v, free_pages-IsValid a p n v)
