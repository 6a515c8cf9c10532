-- ===== src/Stl/Tests.antt =====
-- The theorems on numbers and their texts at concrete numbers.
use electric_os.Base.{ℕ, ◌+◌, ◌^◌, ◌≡◌, u32, List, some}
use electric_os.Stl.Cstr.{to_string, to_int}
use electric_os.Stl.Cstr.RoundTrip.{to_int-to_string}

to_int-to_string_example :
    (s : List ℕ) × (to_string (2 ^ 32 + 5) ≡ some s) × (to_int s ≡ u32 (2 ^ 32 + 5))
to_int-to_string_example = to_int-to_string (2 ^ 32 + 5)
