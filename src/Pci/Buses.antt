-- ===== src/Pci/Buses.antt =====
-- The loop over the buses of an entry, where it goes on.
use electric_os.Base.{
  ℕ, zero, suc, ◌+◌, ◌-◌, ◌≤◌, ◌<◌, if◌then◌else◌, true, false, List, [], ◌∷◌, ◌++◌, ◌≡◌, refl, ap,
  ◌∙◌, sym, subst, arith, Option, none, some, ◌⊎◌, inl, inr, Bool-cases,
}
use electric_os.Pci.{
  DeviceConfig, Enumeration, bus_address, is_there, mapped, scan_devices, scan_buses,
}
use electric_os.Pci.Functions.{buses}
use electric_os.Pci.Resume.{
  Result, found_or, after_devices, after_devices-fresh, GoesOn, DevicesOut, scan_devices-Out,
}

module _ (device_id : ℕ → ℕ) where
  unfoldable pub after_buses : ℕ → ℕ → ℕ → ℕ → DeviceConfig → List ℕ
  after_buses zero j i f c = []
  after_buses (suc n) j i f c =
      if is_there device_id (bus_address c j)
      then after_devices device_id (32 - i) i f (bus_address c j) ++ buses device_id n (j + 1) c
      else after_buses n (j + 1) i f c

  pub after_buses-fresh :
      (n j : ℕ) (c : DeviceConfig) → after_buses n j 0 0 c ≡ buses device_id n j c
  unfolding after_buses buses
  after_buses-fresh zero j c = refl
  after_buses-fresh (suc n) j c =
      ground
        (arith, after_buses-fresh n (j + 1) c, after_devices-fresh device_id 32 0 (bus_address c j))

  abbrev pub BusGoesOn : DeviceConfig → Enumeration → Type 0
  BusGoesOn c s =
      GoesOn device_id (bus_address c s.bus) s
      × (s.bus < c.end_bus)
      × (is_there device_id (bus_address c s.bus) ≡ true)

  abbrev pub BusesOut : Enumeration → List ℕ → DeviceConfig → Enumeration → Option ℕ → Type 0
  BusesOut s l c t none =
      (l ≡ []) × (t.func ≡ 0) × (t.device ≡ 0) × (t.bus ≡ 0) × (t.entry ≡ s.entry)
  BusesOut s l c t (some a) =
      (l ≡ a ∷ after_buses (c.end_bus - t.bus) t.bus t.device t.func c)
      × BusGoesOn c t
      × (s.bus ≤ t.bus)
      × (t.entry ≡ s.entry)

  after_buses-at :
      (left j i f : ℕ) (c : DeviceConfig)
      → c.end_bus - j ≡ suc left
      → is_there device_id (bus_address c j) ≡ true
      → after_buses (c.end_bus - j) j i f c
        ≡ after_devices device_id (32 - i) i f (bus_address c j) ++ buses device_id left (j + 1) c
  unfolding after_buses
  after_buses-at left j i f c h e = rw (h, e) refl

  module _ (left : ℕ) (s : Enumeration) (c : DeviceConfig) (h : c.end_bus - s.bus ≡ suc left)
      (e : is_there device_id (bus_address c s.bus) ≡ true) (l : List ℕ) where
    buses_choice :
        (found rest : Result)
        → DevicesOut device_id s l (bus_address c s.bus) found.0 found.1
        → (found.1 ≡ none → BusesOut s (buses device_id left (s.bus + 1) c) c rest.0 rest.1)
        → BusesOut s
            (l ++ buses device_id left (s.bus + 1) c)
            c
            (found_or found rest).0
            (found_or found rest).1
    buses_choice (t, none) rest d b = rw (d.0) (b refl)
    buses_choice (t, some a) rest d b = (
      ap (λ k. k ++ buses device_id left (s.bus + 1) c) d.0
          ∙ ap (λ k. a ∷ k)
              (sym (
                ap (λ j. after_buses (c.end_bus - j) j t.device t.func c) d.2
                ∙ after_buses-at left s.bus t.device t.func c h e)),
      (
        subst (λ j. GoesOn device_id (bus_address c j) t) (sym d.2) d.1,
        omega arith,
        subst (λ j. is_there device_id (bus_address c j) ≡ true) (sym d.2) e,
      ),
      omega arith,
      d.3,
    )

  BusesOut-move :
      (s s' : Enumeration) (l l' : List ℕ) (c : DeviceConfig) (t : Enumeration) (o : Option ℕ)
      → s.bus ≤ s'.bus
      → s'.entry ≡ s.entry
      → l ≡ l'
      → BusesOut s' l c t o
      → BusesOut s l' c t o
  BusesOut-move s s' l l' c t none p q e d = (sym e ∙ d.0, d.1, d.2, d.3, omega arith)
  BusesOut-move s s' l l' c t (some a) p q e d = (sym e ∙ d.0, d.1, omega arith, omega arith)

  abbrev next_bus : Enumeration → Enumeration
  next_bus t = record t { bus = t.bus + 1 }

  abbrev Good : DeviceConfig → Enumeration → Type 0
  Good c s = ((s.device ≡ 0) × (s.func ≡ 0)) ⊎ BusGoesOn c s

  -- The round behind a bus with no function left.
  buses_rest :
      (left : ℕ) (s : Enumeration) (c : DeviceConfig) (l : List ℕ) (b : ℕ) (found : Result)
      → c.end_bus - s.bus ≡ suc left
      → DevicesOut device_id s l b found.0 found.1
      → ((t : Enumeration)
          → c.end_bus - t.bus ≡ left
          → Good c t
          → let r = scan_buses device_id left t c in
            BusesOut t (after_buses left t.bus t.device t.func c) c r.0 r.1)
      → found.1 ≡ none
      → let r = scan_buses device_id left (next_bus found.0) c in
        BusesOut s (buses device_id left (s.bus + 1) c) c r.0 r.1
  buses_rest left s c l b (t, none) h d ih e =
      BusesOut-move s (next_bus t) _ _ c (scan_buses device_id left (next_bus t) c).0 _
        (omega arith) d.4
        (ap (λ i. after_buses left (t.bus + 1) i t.func c) d.2
          ∙ ap (λ f. after_buses left (t.bus + 1) 0 f c) d.1
          ∙ ap (λ j. after_buses left (j + 1) 0 0 c) d.3
          ∙ after_buses-fresh left (s.bus + 1) c)
        (ih (next_bus t) (omega arith) (inl (d.2, d.1)))
  buses_rest left s c l b (t, some a) h d ih e = cc

  pub scan_buses-Out :
      (left : ℕ) (s : Enumeration) (c : DeviceConfig)
      → c.end_bus - s.bus ≡ left
      → ((s.device ≡ 0) × (s.func ≡ 0)) ⊎ BusGoesOn c s
      → let r = scan_buses device_id left s c in
        BusesOut s (after_buses left s.bus s.device s.func c) c r.0 r.1
  unfolding scan_buses after_buses
  scan_buses-Out zero s c h (inl e) = (refl, e.1, e.0, refl, refl)
  scan_buses-Out zero s c h (inr g) = absurd (omega arith)
  scan_buses-Out (suc left) s c h good =
      let b = bus_address c s.bus in
      let m = mapped s b in
      let found = scan_devices device_id (32 - s.device) m b in
      elim (Bool-cases (is_there device_id b)) [
        | inl e ↦
            let d = scan_devices-Out device_id (32 - s.device) m b (fits good) (on good) in
            rw e (
              buses_choice left s c h e _ found _ d
                (buses_rest left s c _ b found h d (λ t. scan_buses-Out left t c)))
        | inr e ↦
            let z = fresh e good in
            rw e (
              BusesOut-move s (next_bus m) _ _ c (scan_buses device_id left (next_bus m) c).0 _
                (omega arith) refl refl (scan_buses-Out left (next_bus m) c (omega arith) (inl z)))
      ]
    where
      fits : Good c s → (32 - s.device) + s.device ≡ 32
      fits (inl z) = omega arith
      fits (inr g) = omega arith

      on : Good c s → (s.func ≡ 0) ⊎ GoesOn device_id (bus_address c s.bus) s
      on (inl z) = inl z.1
      on (inr g) = inr g.0

      fresh :
          is_there device_id (bus_address c s.bus) ≡ false
          → Good c s
          → (s.device ≡ 0) × (s.func ≡ 0)
      fresh e (inl z) = z
      fresh e (inr g) = cc (e, g.2)
