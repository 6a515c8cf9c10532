-- ===== src/Acpi/Tests.antt =====
-- The search for MCFG among three tables, of which the last two have the name.
use electric_os.Base.{ℕ, ◌+◌, ◌==◌, if◌then◌else◌, ◌≡◌, refl, some}
use electric_os.Acpi.{Xsdt, entries, find_table, First, find_table-First}

abbrev mcfg_name : ℕ → ℕ
mcfg_name j = if j == 0 then b'M' else if j == 1 then b'C' else if j == 2 then b'F' else b'G'

abbrev headers : ℕ → ℕ → ℕ
headers a j = if a == 0x1000 then b'A' else mcfg_name j

abbrev three_tables : Xsdt
three_tables = record { size = 60; pointer = λ i. 0x1000 + i }

find_table-First_example :
    First headers mcfg_name
      (entries three_tables)
      three_tables
      0
      (find_table headers mcfg_name three_tables)
find_table-First_example = find_table-First headers mcfg_name three_tables

second_table : find_table headers mcfg_name three_tables ≡ some 0x1001
unfolding find_table entries
second_table = refl
