-- ===== src/ProcessHandler/Requests.antt =====
-- The requests of a process are a stack of 16 at most.
use electric_os.Base.{◌≤◌, ◌<◌, true, false, List, [], ◌∷◌, length, ltb, ◌≡◌, refl, arith, if_both}
use electric_os.ProcessHandler.{
  Process, Request, is_minimized, is_success, pop_top, pop_request, push_request,
}

-- A request that is not SUCCESS, pushed on a process that is not minimized and has room for it,
-- is the one popped next, and the process is then as before.
pub pop_request-push_request :
    (p : Process) (r : Request)
    → is_minimized p.type ≡ false
    → is_success r ≡ false
    → length p.requests < 16
    → pop_request (push_request p r) ≡ (p, r)
unfolding push_request pop_request
pop_request-push_request p r shown real room =
    let fits : ltb (length p.requests) 16 ≡ true = ground arith in
    rw (shown, real, fits, shown) refl

-- From 16 requests at most, a push and a pop leave 16 at most.
pub requests_bound :
    (p : Process) (r : Request)
    → length p.requests ≤ 16
    → (length (push_request p r).requests ≤ 16) × (length (pop_request p).0.requests ≤ 16)
unfolding push_request pop_request
requests_bound p r bound = (
  ground arith,
  if_both {A = Process × Request} (λ r. length r.0.requests ≤ 16) (is_minimized p.type) bound
      (popped p.requests bound),
)
  where
    popped : (rs : List Request) → length rs ≤ 16 → length (pop_top p rs).0.requests ≤ 16
    popped [] h = bound
    popped (r ∷ rs) h = omega arith
