-- ===== src/Ahci/Controller.antt =====
-- Which device `Init` of AHCI.cpp takes.
use electric_os.Base.{ℕ, ◌<◌, if◌then◌else◌, List, [], ◌∷◌, Option, none, some}
use electric_os.Pci.{Mcfg, entries}
use electric_os.Pci.Resume.{Result}
use electric_os.Ahci.{Class, Ahci, is_controller, find_controller}

-- The first controller of a list.
unfoldable pub first_controller : (ℕ → Class) → List ℕ → Option ℕ
first_controller read [] = none
first_controller read (a ∷ l) = if is_controller read a then some a else first_controller read l

module _ (device_id : ℕ → ℕ) (read : ℕ → Class) (bar5 : ℕ → ℕ) (mcfg : Mcfg)
    (few : entries mcfg < 256) where
  -- What is behind the first call of `Enumerate`.
  abbrev decided : ℕ → Result → Option Result
  decided fuel r = elim r.1 [
    | none ↦ some (r.0, none)
    | some a ↦
        if is_controller read a
        then some (r.0, some a)
        else find_controller device_id read bar5 mcfg fuel r.0
  ]
