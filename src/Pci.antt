-- ===== src/Pci.antt =====
-- src/PCI/PCI.cpp: the enumeration of the devices, which goes on where the call before it stopped.
-- `device_id` reads a header's `DeviceID` at an address; the bytes are the hardware's.
pub mod Functions
pub mod Resume
pub mod Buses
pub mod Drain
mod Tests
use electric_os.Base.{
  ℕ, zero, suc, ◌+◌, ◌-◌, ◌*◌, ◌/◌, ◌%◌, ◌^◌, Bool, not, ◌||◌, ◌==◌, if◌then◌else◌, u64, sub64,
  Option, none, some, List, [], ◌∷◌,
}
use electric_os.Memory.Paging.{Machine, map_address}

-- `DeviceConfig`, the fields that `Enumerate` reads.
pub record DeviceConfig : Type 0 where
  pub base : ℕ
  pub start_bus : ℕ
  pub end_bus : ℕ

-- `MCFG`: its length in bytes, and `config i` at `sizeof(SDTHeader) + 8 + i * sizeof(DeviceConfig)`.
pub record Mcfg : Type 0 where
  pub size : ℕ
  pub config : ℕ → DeviceConfig

-- `Entry`, `Bus`, `Device`, `Func`, and the page tables that `MapAddress` changes.
pub record Enumeration : Type 0 where
  pub entry : ℕ
  pub bus : ℕ
  pub device : ℕ
  pub func : ℕ
  pub machine : Machine

pub reset_enumeration : Enumeration → Enumeration
reset_enumeration s = record s { entry = 0; bus = 0; device = 0; func = 0 }

abbrev pub bus_address : DeviceConfig → ℕ → ℕ
bus_address c bus = u64 (c.base + bus * 2 ^ 20)

abbrev pub device_address : ℕ → ℕ → ℕ
device_address b device = u64 (b + device * 2 ^ 15)

abbrev pub function_address : ℕ → ℕ → ℕ
function_address d func = u64 (d + func * 2 ^ 12)

-- `Entries`
abbrev pub entries : Mcfg → ℕ
entries mcfg = sub64 mcfg.size 44 / 16

-- `MapAddress((void*)Address, (void*)Address)`
abbrev pub mapped : Enumeration → ℕ → Enumeration
mapped s address = record s { machine = map_address s.machine address address }

-- `if (Bus == 0) Bus = StartBus;`
abbrev pub at_start : Enumeration → DeviceConfig → Enumeration
at_start s c = record s { bus = if s.bus == 0 then c.start_bus else s.bus }

module _ (device_id : ℕ → ℕ) where
  -- The negation of `DeviceID == 0 || DeviceID == 0xFFFF`.
  abbrev pub is_there : ℕ → Bool
  is_there address = not ((device_id address == 0) || (device_id address == 0xFFFF))

  -- The loop over functions, with `left` of the eight to go, and `Func = 0` behind it.
  pub scan_functions : ℕ → Enumeration → ℕ → Enumeration × Option ℕ
  scan_functions zero s d = (record s { func = 0 }, none)
  scan_functions (suc left) s d =
      let a = function_address d s.func in
      let m = mapped s a in
      let rest = scan_functions left (record m { func = m.func + 1 }) d in
      if is_there a then (record m { func = m.func + 1 }, some a) else rest

  -- The loop over devices, with `left` of the 32 to go, and `Device = 0` behind it.
  pub scan_devices : ℕ → Enumeration → ℕ → Enumeration × Option ℕ
  scan_devices zero s b = (record s { device = 0 }, none)
  scan_devices (suc left) s b =
      let d = device_address b s.device in
      let m = mapped s d in
      let absent = scan_devices left (record m { device = m.device + 1 }) b in
      let found = scan_functions (8 - m.func) m d in
      let rest = scan_devices left (record (found.0) { device = found.0.device + 1 }) b in
      if is_there d then elim found.1 [ some a ↦ (found.0, some a) | none ↦ rest ] else absent

  -- The loop over buses, with `left` up to `EndBus`, and `Bus = 0` behind it.
  pub scan_buses : ℕ → Enumeration → DeviceConfig → Enumeration × Option ℕ
  scan_buses zero s c = (record s { bus = 0 }, none)
  scan_buses (suc left) s c =
      let b = bus_address c s.bus in
      let m = mapped s b in
      let absent = scan_buses left (record m { bus = m.bus + 1 }) c in
      let found = scan_devices (32 - m.device) m b in
      let rest = scan_buses left (record (found.0) { bus = found.0.bus + 1 }) c in
      if is_there b then elim found.1 [ some a ↦ (found.0, some a) | none ↦ rest ] else absent

  -- The loop over entries, with `left` of them to go, and `Entry = 0` behind it. `Entry` has 8 bits.
  pub scan_entries : ℕ → Mcfg → Enumeration → Enumeration × Option ℕ
  scan_entries zero mcfg s = (record s { entry = 0 }, none)
  scan_entries (suc left) mcfg s =
      let c = mcfg.config s.entry in
      let t = at_start s c in
      let found = scan_buses (c.end_bus - t.bus) t c in
      let rest = scan_entries left mcfg (record (found.0) { entry = (found.0.entry + 1) % 256 }) in
      elim found.1 [ some a ↦ (found.0, some a) | none ↦ rest ]

  -- `Enumerate`: the header's address, or `none` for false.
  pub enumerate : Mcfg → Enumeration → Enumeration × Option ℕ
  unfolding scan_functions scan_devices scan_buses scan_entries
  enumerate mcfg s = scan_entries (entries mcfg - s.entry) mcfg s

  -- `while (PCI::Enumerate(Device))`, with the addresses in order; `none` without fuel.
  pub drain : ℕ → Mcfg → Enumeration → Option (Enumeration × List ℕ)
  drain zero mcfg s = none
  drain (suc fuel) mcfg s =
      let r = enumerate mcfg s in
      let rest = drain fuel mcfg r.0 in
      elim r.1 [
        | none ↦ some (r.0, [])
        | some a ↦ elim rest [ none ↦ none | some (s', l) ↦ some (s', a ∷ l) ]
      ]
