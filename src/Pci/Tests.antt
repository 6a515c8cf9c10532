-- ===== src/Pci/Tests.antt =====
-- The enumeration of one entry of two buses, with three functions.
use electric_os.Base.{ℕ, ◌+◌, ◌*◌, ◌^◌, ◌==◌, if◌then◌else◌, ◌||◌, ◌≡◌, arith, some}
use electric_os.Memory.Paging.{zero_entry}
use electric_os.Pci.{Mcfg, Enumeration, reset_enumeration, drain}
use electric_os.Pci.Functions.{all_functions}
use electric_os.Pci.Drain.{drain-all_functions}

abbrev table : Mcfg
table = record { size = 60; config = λ i. record { base = 0xB0000000; start_bus = 0; end_bus = 2 } }

-- Devices 0 and 31 of bus 0, the second of them with a function 2.
abbrev ids : ℕ → ℕ
ids a =
    if (a == 0xB0000000)
      || (a == 0xB0000000 + 31 * 2 ^ 15)
      || (a == 0xB0000000 + 31 * 2 ^ 15 + 0x2000)
    then 0x1234
    else 0xFFFF

abbrev begun : Enumeration
begun = record {
  entry = 0;
  bus = 0;
  device = 7;
  func = 3;
  machine = record {
    pml4 = 0x5000;
    tables = λ f i. zero_entry;
    allocator = record { page_status_map = λ i. 0; page_amount = 0; first_free_page = 0 };
  };
}

drain-all_functions_example :
    (t : Enumeration) × (drain ids 9 table (reset_enumeration begun)
      ≡ some (t, all_functions ids table))
    × (reset_enumeration t ≡ t)
unfolding all_functions
drain-all_functions_example = drain-all_functions ids table 9 begun (omega arith) (omega arith)
