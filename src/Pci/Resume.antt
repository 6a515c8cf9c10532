-- ===== src/Pci/Resume.antt =====
-- The loops over the devices of a bus and their functions, where they go on: what is left to be
-- found goes down by the function that is returned.
use electric_os.Base.{
  ℕ, zero, suc, ◌+◌, ◌-◌, ◌≤◌, ◌<◌, if◌then◌else◌, true, false, List, [], ◌∷◌, ◌++◌, ◌≡◌, refl, ap,
  ap₂, ◌∙◌, sym, subst, arith, Option, none, some, ◌⊎◌, inl, inr, Bool-cases,
}
use electric_os.Pci.{
  Enumeration, device_address, function_address, is_there, mapped, scan_functions, scan_devices,
}
use electric_os.Pci.Functions.{functions, devices}

abbrev pub Result : Type 0
Result = Enumeration × Option ℕ

-- The choice that ends each round.
abbrev pub found_or : Result → Result → Result
found_or found rest = elim found.1 [ some a ↦ (found.0, some a) | none ↦ rest ]

module _ (device_id : ℕ → ℕ) where
  -- What is left where the first device goes on at function `f`.
  unfoldable pub after_devices : ℕ → ℕ → ℕ → ℕ → List ℕ
  after_devices zero i f b = []
  after_devices (suc n) i f b =
      if is_there device_id (device_address b i)
      then functions device_id (8 - f) f (device_address b i) ++ devices device_id n (i + 1) b
      else after_devices n (i + 1) f b

  pub after_devices-fresh : (n i b : ℕ) → after_devices n i 0 b ≡ devices device_id n i b
  unfolding after_devices devices
  after_devices-fresh zero i b = refl
  after_devices-fresh (suc n) i b = ground (arith, after_devices-fresh n (i + 1) b)

  abbrev FunctionsOut : Enumeration → List ℕ → ℕ → Enumeration → Option ℕ → Type 0
  FunctionsOut s l d t none =
      (l ≡ []) × (t.func ≡ 0) × (t.device ≡ s.device) × (t.bus ≡ s.bus) × (t.entry ≡ s.entry)
  FunctionsOut s l d t (some a) =
      (l ≡ a ∷ functions device_id (8 - t.func) t.func d)
      × (t.func ≤ 8)
      × (t.device ≡ s.device)
      × (t.bus ≡ s.bus)
      × (t.entry ≡ s.entry)

  scan_functions-Out :
      (left : ℕ) (s : Enumeration) (d : ℕ)
      → left + s.func ≡ 8
      → let r = scan_functions device_id left s d in
        FunctionsOut s (functions device_id left s.func d) d r.0 r.1
  unfolding scan_functions functions
  scan_functions-Out zero s d h = (refl, refl, refl, refl, refl)
  scan_functions-Out (suc left) s d h =
      let a = function_address d s.func in
      let ih =
        scan_functions-Out left (record (mapped s a) { func = s.func + 1 }) d (omega arith) in
      elim (Bool-cases (is_there device_id a)) [
        | inl e ↦ rw e (
          ap (λ n. a ∷ functions device_id n (s.func + 1) d) (omega arith),
          omega arith,
          refl,
          refl,
          refl,
        )
        | inr e ↦ rw e ih
      ]

  -- A device that an enumeration goes on with is there.
  abbrev pub GoesOn : ℕ → Enumeration → Type 0
  GoesOn b s =
      (s.func ≤ 8) × (s.device < 32) × (is_there device_id (device_address b s.device) ≡ true)

  abbrev pub DevicesOut : Enumeration → List ℕ → ℕ → Enumeration → Option ℕ → Type 0
  DevicesOut s l b t none =
      (l ≡ []) × (t.func ≡ 0) × (t.device ≡ 0) × (t.bus ≡ s.bus) × (t.entry ≡ s.entry)
  DevicesOut s l b t (some a) =
      (l ≡ a ∷ after_devices (32 - t.device) t.device t.func b)
      × GoesOn b t
      × (t.bus ≡ s.bus)
      × (t.entry ≡ s.entry)

  after_devices-at :
      (left i f b : ℕ)
      → left + i + 1 ≡ 32
      → is_there device_id (device_address b i) ≡ true
      → after_devices (32 - i) i f b
        ≡ functions device_id (8 - f) f (device_address b i) ++ devices device_id left (i + 1) b
  unfolding after_devices
  after_devices-at left i f b h e = let n : 32 - i ≡ suc left = omega arith in rw (n, e) refl

  devices_choice :
      (left : ℕ) (s : Enumeration) (b : ℕ) (found rest : Result)
      → left + s.device + 1 ≡ 32
      → is_there device_id (device_address b s.device) ≡ true
      → FunctionsOut s
          (functions device_id (8 - s.func) s.func (device_address b s.device))
          (device_address b s.device)
          found.0
          found.1
      → (found.1 ≡ none → DevicesOut s (devices device_id left (s.device + 1) b) b rest.0 rest.1)
      → DevicesOut s
          (functions device_id (8 - s.func) s.func (device_address b s.device)
            ++ devices device_id left (s.device + 1) b)
          b
          (found_or found rest).0
          (found_or found rest).1
  devices_choice left s b (t, none) rest h e f d = rw (f.0) (d refl)
  devices_choice left s b (t, some a) rest h e f d = (
    ap (λ l. l ++ devices device_id left (s.device + 1) b) f.0
        ∙ ap (λ l. a ∷ l)
            (sym (
              ap (λ i. after_devices (32 - i) i t.func b) f.2
              ∙ after_devices-at left s.device t.func b h e)),
    (f.1, omega arith, subst (λ i. is_there device_id (device_address b i) ≡ true) (sym f.2) e),
    f.3,
    f.4,
  )

  DevicesOut-move :
      (s s' : Enumeration) (l l' : List ℕ) (b : ℕ) (t : Enumeration) (o : Option ℕ)
      → s'.bus ≡ s.bus
      → s'.entry ≡ s.entry
      → l ≡ l'
      → DevicesOut s' l b t o
      → DevicesOut s l' b t o
  DevicesOut-move s s' l l' b t none p q e d = (sym e ∙ d.0, d.1, d.2, omega arith, omega arith)
  DevicesOut-move s s' l l' b t (some a) p q e d = (sym e ∙ d.0, d.1, omega arith, omega arith)

  abbrev next_device : Enumeration → Enumeration
  next_device t = record t { device = t.device + 1 }

  -- The round behind a device with no function left.
  devices_rest :
      (left : ℕ) (s : Enumeration) (b : ℕ) (l : List ℕ) (d : ℕ) (found : Result)
      → left + s.device + 1 ≡ 32
      → FunctionsOut s l d found.0 found.1
      → ((t : Enumeration)
          → left + t.device ≡ 32
          → (t.func ≡ 0) ⊎ GoesOn b t
          → let r = scan_devices device_id left t b in
            DevicesOut t (after_devices left t.device t.func b) b r.0 r.1)
      → found.1 ≡ none
      → let r = scan_devices device_id left (next_device found.0) b in
        DevicesOut s (devices device_id left (s.device + 1) b) b r.0 r.1
  devices_rest left s b l d (t, none) h f ih e =
      DevicesOut-move s (next_device t) _ _ b (scan_devices device_id left (next_device t) b).0 _
        f.3 f.4
        (ap₂ (λ i n. after_devices left (i + 1) n b) f.2 f.1
          ∙ after_devices-fresh left (s.device + 1) b)
        (ih (next_device t) (omega arith) (inl f.1))
  devices_rest left s b l d (t, some a) h f ih e = cc

  pub scan_devices-Out :
      (left : ℕ) (s : Enumeration) (b : ℕ)
      → left + s.device ≡ 32
      → (s.func ≡ 0) ⊎ GoesOn b s
      → let r = scan_devices device_id left s b in
        DevicesOut s (after_devices left s.device s.func b) b r.0 r.1
  unfolding scan_devices after_devices
  scan_devices-Out zero s b h (inl e) = (refl, e, refl, refl, refl)
  scan_devices-Out zero s b h (inr g) = absurd (omega arith)
  scan_devices-Out (suc left) s b h good =
      let d = device_address b s.device in
      let m = mapped s d in
      elim (Bool-cases (is_there device_id d)) [
        | inl e ↦
            let f = scan_functions-Out (8 - s.func) m d (fits good) in
            rw e (
              devices_choice left s b (scan_functions device_id (8 - s.func) m d) _ (omega arith) e
                f
                (devices_rest left s b _ d (scan_functions device_id (8 - s.func) m d) (omega arith)
                  f (λ t. scan_devices-Out left t b)))
        | inr e ↦ rw e (scan_devices-Out left (next_device m) b (omega arith) (inl (fresh e good)))
      ]
    where
      fits : (s.func ≡ 0) ⊎ GoesOn b s → (8 - s.func) + s.func ≡ 8
      fits (inl z) = omega arith
      fits (inr g) = omega arith

      fresh :
          is_there device_id (device_address b s.device) ≡ false
          → (s.func ≡ 0) ⊎ GoesOn b s
          → s.func ≡ 0
      fresh e (inl z) = z
      fresh e (inr g) = cc (e, g.2)
