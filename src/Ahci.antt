-- ===== src/Ahci.antt =====
-- src/AHCI/AHCI.cpp and HBAPort.cpp: which device is the controller, and what is behind a port.
-- The headers' fields are the hardware's.
pub mod Controller
mod Tests
use electric_os.Base.{
  ℕ, zero, suc, ◌/◌, ◌%◌, ◌^◌, Bool, ◌&&◌, not, ◌==◌, if◌then◌else◌, Option, none, some,
}
use electric_os.Pci.{Mcfg, Enumeration, reset_enumeration, enumerate, mapped}

-- The fields of `DeviceHeader` that `Init` compares, by the header's address.
pub record Class : Type 0 where
  pub class : ℕ
  pub subclass : ℕ
  pub prog_if : ℕ

abbrev pub is_controller : (ℕ → Class) → ℕ → Bool
is_controller read a = ((read a).class == 1) && ((read a).subclass == 6) && ((read a).prog_if == 1)

-- `ACHIDevice` and `ABAR`; 0 is the null pointer.
pub record Ahci : Type 0 where
  pub achi_device : ℕ
  pub abar : ℕ
  pub devices : Enumeration

module _ (device_id : ℕ → ℕ) (read : ℕ → Class) (bar5 : ℕ → ℕ) (mcfg : Mcfg) where
  -- The loop: the device at which it breaks; the outer `none` is a lack of fuel.
  pub find_controller : ℕ → Enumeration → Option (Enumeration × Option ℕ)
  find_controller zero s = none
  find_controller (suc fuel) s =
      let r = enumerate device_id mcfg s in
      let rest = find_controller fuel r.0 in
      elim r.1 [
        | none ↦ some (r.0, none)
        | some a ↦ if is_controller read a then some (r.0, some a) else rest
      ]

  -- What follows the loop. Without a controller `ACHIDevice` stays, and is read all the same.
  abbrev pub take_controller : Ahci → Enumeration × Option ℕ → Ahci
  take_controller s r =
      let device : ℕ = elim r.1 [ none ↦ s.achi_device | some a ↦ a ] in
      record { achi_device = device; abar = bar5 device; devices = mapped r.0 (bar5 device) }

  pub init : ℕ → Ahci → Option Ahci
  unfolding find_controller
  init fuel s = elim (find_controller fuel (reset_enumeration s.devices)) [
    | none ↦ none
    | some r ↦ some (take_controller s r)
  ]

-- `HBAPortType`
pub data PortType : Type 0 where
  no_port sata semb pm satapi : PortType

-- `GetPortType`, of the fields `SATAStatus` and `Signature`.
unfoldable pub get_port_type : ℕ → ℕ → PortType
get_port_type status signature =
    if not (status % 2 ^ 3 == 3)
    then no_port
    else if not ((status / 2 ^ 8) % 2 ^ 3 == 1)
    then no_port
    else if signature == 0xEB140101
    then satapi
    else if signature == 0x00000101
    then sata
    else if signature == 0x96690101
    then pm
    else if signature == 0xC33C0101
    then semb
    else no_port
