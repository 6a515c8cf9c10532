-- ===== src/Pci/Functions.antt =====
-- The functions that an enumeration should find, in the order of their places.
use electric_os.Base.{ℕ, zero, suc, ◌+◌, ◌-◌, if◌then◌else◌, List, [], ◌∷◌, ◌++◌}
use electric_os.Pci.{
  DeviceConfig, Mcfg, bus_address, device_address, function_address, entries, is_there,
}

module _ (device_id : ℕ → ℕ) where
  -- Of the device at `d`, `n` functions from `f` on.
  unfoldable pub functions : ℕ → ℕ → ℕ → List ℕ
  functions zero f d = []
  functions (suc n) f d =
      if is_there device_id (function_address d f)
      then function_address d f ∷ functions n (f + 1) d
      else functions n (f + 1) d

  unfoldable pub devices : ℕ → ℕ → ℕ → List ℕ
  devices zero i b = []
  devices (suc n) i b =
      (if is_there device_id (device_address b i) then functions 8 0 (device_address b i) else [])
      ++ devices n (i + 1) b

  unfoldable pub buses : ℕ → ℕ → DeviceConfig → List ℕ
  buses zero j c = []
  buses (suc n) j c =
      (if is_there device_id (bus_address c j) then devices 32 0 (bus_address c j) else [])
      ++ buses n (j + 1) c

  unfoldable pub segments : ℕ → Mcfg → ℕ → List ℕ
  segments zero mcfg e = []
  segments (suc n) mcfg e =
      let c = mcfg.config e in
      buses (c.end_bus - c.start_bus) c.start_bus c ++ segments n mcfg (e + 1)

  -- Of each entry, the buses from `StartBus` up to, and without, `EndBus`; a bus without a device 0
  -- and a device without a function 0 are left out.
  unfoldable pub all_functions : Mcfg → List ℕ
  unfolding functions devices buses segments
  all_functions mcfg = segments (entries mcfg) mcfg 0
