-- ===== src/Ahci/Tests.antt =====
-- The controller among two devices, and the kinds of a port.
use electric_os.Base.{ℕ, ◌+◌, ◌*◌, ◌^◌, ◌==◌, if◌then◌else◌, ◌||◌, ◌≡◌, refl}
use electric_os.Memory.Paging.{zero_entry}
use electric_os.Pci.{Mcfg}
use electric_os.Ahci.{Class, Ahci, get_port_type, no_port, sata}

abbrev table : Mcfg
table = record { size = 60; config = λ i. record { base = 0xB0000000; start_bus = 0; end_bus = 1 } }

-- Devices 0 and 31 of bus 0; the second one is the controller.
abbrev ids : ℕ → ℕ
ids a = if (a == 0xB0000000) || (a == 0xB0000000 + 31 * 2 ^ 15) then 0x1234 else 0xFFFF

abbrev classes : ℕ → Class
classes a =
    if a == 0xB0000000
    then record { class = 6; subclass = 0; prog_if = 0 }
    else record { class = 1; subclass = 6; prog_if = 1 }

abbrev before : Ahci
before = record {
  achi_device = 0;
  abar = 0;
  devices = record {
    entry = 0;
    bus = 0;
    device = 0;
    func = 0;
    machine = record {
      pml4 = 0x5000;
      tables = λ f i. zero_entry;
      allocator = record { page_status_map = λ i. 0; page_amount = 0; first_free_page = 0 };
    };
  };
}

active_sata : get_port_type 0x123 0x00000101 ≡ sata
unfolding get_port_type
active_sata = refl

sleeping_sata : get_port_type 0x223 0x00000101 ≡ no_port
unfolding get_port_type
sleeping_sata = refl
