-- ===== src/Pci/Drain.antt =====
-- `Enumerate`, called until it returns false, finds each function that is there, in order.
use electric_os.Base.{
  ℕ, zero, suc, ◌+◌, ◌-◌, ◌%◌, ◌≤◌, ◌<◌, ◌==◌, if◌then◌else◌, List, [], ◌∷◌, ◌++◌, ◌≡◌, refl, ap,
  ◌∙◌, sym, subst, arith, Option, none, some, ◌⊎◌, inl, inr, length,
}
use electric_os.Pci.{
  DeviceConfig, Mcfg, Enumeration, reset_enumeration, entries, at_start, scan_buses, scan_entries,
  enumerate, drain,
}
use electric_os.Pci.Functions.{segments, all_functions}
use electric_os.Pci.Resume.{Result, found_or}
use electric_os.Pci.Buses.{after_buses, after_buses-fresh, BusGoesOn, BusesOut, scan_buses-Out}

module _ (device_id : ℕ → ℕ) (mcfg : Mcfg) where
  abbrev pub first_bus : DeviceConfig → ℕ → ℕ
  first_bus c j = if j == 0 then c.start_bus else j

  pub after_segments : ℕ → ℕ → ℕ → ℕ → ℕ → List ℕ
  after_segments zero e j i f = []
  after_segments (suc n) e j i f =
      let c = mcfg.config e in
      after_buses device_id (c.end_bus - first_bus c j) (first_bus c j) i f c
      ++ segments device_id n mcfg (e + 1)

  pub after_segments-fresh : (n e : ℕ) → after_segments n e 0 0 0 ≡ segments device_id n mcfg e
  unfolding after_segments segments
  after_segments-fresh zero e = refl
  after_segments-fresh (suc n) e =
      let c = mcfg.config e in
      ap (λ l. l ++ segments device_id n mcfg (e + 1))
        (after_buses-fresh device_id (c.end_bus - c.start_bus) c.start_bus c)

  abbrev pub remaining : Enumeration → List ℕ
  remaining s = after_segments (entries mcfg - s.entry) s.entry s.bus s.device s.func

  abbrev pub EntryGoesOn : Enumeration → Type 0
  EntryGoesOn s =
      BusGoesOn device_id (mcfg.config s.entry) s
      × ((mcfg.config s.entry).start_bus ≤ s.bus)
      × (s.entry < entries mcfg)

  abbrev pub IsReset : Enumeration → Type 0
  IsReset s = (s.func ≡ 0) × (s.device ≡ 0) × (s.bus ≡ 0)

  abbrev pub Good : Enumeration → Type 0
  Good s = IsReset s ⊎ EntryGoesOn s

  abbrev pub Out : List ℕ → Enumeration → Option ℕ → Type 0
  Out l t none = (l ≡ []) × IsReset t × (t.entry ≡ 0)
  Out l t (some a) = (l ≡ a ∷ remaining t) × EntryGoesOn t

  first_bus-GoesOn : (c : DeviceConfig) (j : ℕ) → c.start_bus ≤ j → first_bus c j ≡ j
  first_bus-GoesOn c j h = ground arith

  remaining-at :
      (left : ℕ) (t : Enumeration)
      → entries mcfg - t.entry ≡ suc left
      → (mcfg.config t.entry).start_bus ≤ t.bus
      → remaining t
        ≡ after_buses device_id
            ((mcfg.config t.entry).end_bus - t.bus)
            t.bus
            t.device
            t.func
            (mcfg.config t.entry)
          ++ segments device_id left mcfg (t.entry + 1)
  unfolding after_segments
  remaining-at left t h e = rw (h, first_bus-GoesOn (mcfg.config t.entry) t.bus e) refl

  -- the entry of `t` is that of `s`
  entries_choice :
      (left : ℕ) (s : Enumeration) (e : ℕ) (l : List ℕ) (found rest : Result)
      → entries mcfg - e ≡ suc left
      → s.entry ≡ e
      → (mcfg.config e).start_bus ≤ s.bus
      → BusesOut device_id s l (mcfg.config e) found.0 found.1
      → (found.1 ≡ none → Out (segments device_id left mcfg (e + 1)) rest.0 rest.1)
      → Out
          (l ++ segments device_id left mcfg (e + 1))
          (found_or found rest).0
          (found_or found rest).1
  entries_choice left s e l (t, none) rest h at low b o = rw (b.0) (o refl)
  entries_choice left s e l (t, some a) rest h at low b o =
      let same : t.entry ≡ e = b.3 ∙ at in
      let above : (mcfg.config t.entry).start_bus ≤ t.bus =
        subst (λ e'. (mcfg.config e').start_bus ≤ t.bus) (sym same) (omega arith) in
      (
        ap (λ k. k ++ segments device_id left mcfg (e + 1)) b.0
            ∙ ap (λ k. a ∷ k)
                (ap
                    (λ e'.
                      after_buses device_id ((mcfg.config e').end_bus - t.bus) t.bus t.device t.func
                        (mcfg.config e')
                      ++ segments device_id left mcfg (e' + 1))
                    (sym same)
                  ∙ sym (remaining-at left t (omega arith) above)),
        (subst (λ e'. BusGoesOn device_id (mcfg.config e') t) (sym same) b.1, above, omega arith),
      )

  Out-move : (l l' : List ℕ) (t : Enumeration) (o : Option ℕ) → l ≡ l' → Out l t o → Out l' t o
  Out-move l l' t none e d = (sym e ∙ d.0, d.1, d.2)
  Out-move l l' t (some a) e d = (sym e ∙ d.0, d.1)

  abbrev next_entry : Enumeration → Enumeration
  next_entry t = record t { entry = (t.entry + 1) % 256 }

  -- The round behind an entry with no function left.
  entries_rest :
      (left : ℕ) (s : Enumeration) (e : ℕ) (c : DeviceConfig) (l : List ℕ) (found : Result)
      → entries mcfg < 256
      → entries mcfg - e ≡ suc left
      → s.entry ≡ e
      → BusesOut device_id s l c found.0 found.1
      → ((t : Enumeration)
          → entries mcfg - t.entry ≡ left
          → Good t
          → let r = scan_entries device_id left mcfg t in
            Out (after_segments left t.entry t.bus t.device t.func) r.0 r.1)
      → found.1 ≡ none
      → let r = scan_entries device_id left mcfg (next_entry found.0) in
        Out (segments device_id left mcfg (e + 1)) r.0 r.1
  entries_rest left s e c l (t, none) few h at b ih n =
      let next : (t.entry + 1) % 256 ≡ e + 1 = omega arith in
      Out-move _ _ (scan_entries device_id left mcfg (next_entry t)).0 _
        (ap (λ i. after_segments left ((t.entry + 1) % 256) t.bus i t.func) b.2
          ∙ ap (λ f. after_segments left ((t.entry + 1) % 256) t.bus 0 f) b.1
          ∙ ap (λ j. after_segments left ((t.entry + 1) % 256) j 0 0) b.3
          ∙ ap (λ k. after_segments left k 0 0 0) next
          ∙ after_segments-fresh left (e + 1))
        (ih (next_entry t) (omega arith) (inl (b.1, b.2, b.3)))
  entries_rest left s e c l (t, some a) few h at b ih n = cc

  scan_entries-Out :
      (left : ℕ) (s : Enumeration)
      → entries mcfg < 256
      → entries mcfg - s.entry ≡ left
      → Good s
      → let r = scan_entries device_id left mcfg s in
        Out (after_segments left s.entry s.bus s.device s.func) r.0 r.1
  unfolding scan_entries after_segments
  scan_entries-Out zero s few h (inl e) = (refl, e, refl)
  scan_entries-Out zero s few h (inr g) = absurd (omega arith)
  scan_entries-Out (suc left) s few h good =
      let c = mcfg.config s.entry in
      let t = at_start s c in
      let found = scan_buses device_id (c.end_bus - t.bus) t c in
      let b = scan_buses-Out device_id (c.end_bus - t.bus) t c refl (on good) in
      entries_choice left t s.entry _ found _ h refl (low good) b
        (entries_rest left t s.entry c _ found few h refl b (λ u. scan_entries-Out left u few))
    where
      at_bus : Enumeration
      at_bus = at_start s (mcfg.config s.entry)

      on :
          Good s
          → ((s.device ≡ 0) × (s.func ≡ 0)) ⊎ BusGoesOn device_id (mcfg.config s.entry) at_bus
      on (inl z) = inl (z.1, z.0)
      on (inr g) = inr (
          subst (λ j. BusGoesOn device_id (mcfg.config s.entry) (record s { bus = j }))
            (sym (first_bus-GoesOn (mcfg.config s.entry) s.bus g.1)) g.0)

      low : Good s → (mcfg.config s.entry).start_bus ≤ at_bus.bus
      low (inl z) = ground arith
      low (inr g) = ground arith

  pub enumerate-Out :
      (s : Enumeration)
      → entries mcfg < 256
      → Good s
      → Out (remaining s) (enumerate device_id mcfg s).0 (enumerate device_id mcfg s).1
  unfolding enumerate
  enumerate-Out s few good = scan_entries-Out (entries mcfg - s.entry) s few refl good

  -- Where every call of `Enumerate` has been made, and what they returned.
  abbrev Drained : Enumeration → List ℕ → ℕ → Type 0
  Drained s l fuel =
      (t : Enumeration) × (drain device_id fuel mcfg s ≡ some (t, l)) × IsReset t × (t.entry ≡ 0)

  -- The rest of `drain` behind its first call of `Enumerate`.
  abbrev collected : ℕ → Result → Option (Enumeration × List ℕ)
  collected fuel r = elim r.1 [
    | none ↦ some (r.0, [])
    | some a ↦ elim (drain device_id fuel mcfg r.0) [ none ↦ none | some (t, k) ↦ some (t, a ∷ k) ]
  ]

  drain-Drained :
      (fuel : ℕ) (l : List ℕ) (s : Enumeration)
      → entries mcfg < 256
      → Good s
      → remaining s ≡ l
      → length l < fuel
      → Drained s l fuel
  unfolding drain
  drain-Drained zero l s few good e h = elim h [ ]
  drain-Drained (suc fuel) l s few good e h =
      go (enumerate device_id mcfg s) (enumerate-Out s few good)
        (λ t on. drain-Drained fuel (remaining t) t few (inr on) refl)
    where
      go :
          (r : Result)
          → Out (remaining s) r.0 r.1
          → ((t : Enumeration)
              → EntryGoesOn t
              → length (remaining t) < fuel
              → Drained t (remaining t) fuel)
          → (t : Enumeration) × (collected fuel r ≡ some (t, l)) × IsReset t × (t.entry ≡ 0)
      go (t, none) o ih = (t, ap (λ k. some (t, k)) (sym o.0 ∙ e), o.1, o.2)
      go (t, some a) o ih =
          let shorter : length (remaining t) < fuel = omega (arith, ap length (sym e ∙ o.0)) in
          let (u, q, z, first) = ih t o.1 shorter in
          (u, rw (q, collected) (ap (λ k. some (u, k)) (sym o.0 ∙ e)), z, first)

  pub remaining-reset :
      (s : Enumeration) → remaining (reset_enumeration s) ≡ all_functions device_id mcfg
  unfolding all_functions reset_enumeration
  remaining-reset s =
      let whole : entries mcfg - 0 ≡ entries mcfg = omega arith in
      ap (λ n. after_segments n 0 0 0 0) whole ∙ after_segments-fresh (entries mcfg) 0

  pub reset-Good : (s : Enumeration) → Good (reset_enumeration s)
  unfolding reset_enumeration
  reset-Good s = inl (refl, refl, refl)

  -- With fewer than 256 entries and more fuel than there are functions: from a reset
  -- enumeration, calling `Enumerate` until it returns false finds, in the order of their
  -- places, exactly the functions that are there of devices whose function 0 is there, on
  -- buses whose device 0 is there, up to and without the last bus of each entry, and leaves
  -- the enumeration reset.
  pub drain-all_functions :
      (fuel : ℕ) (s : Enumeration)
      → entries mcfg < 256
      → length (all_functions device_id mcfg) < fuel
      → (t : Enumeration) × (drain device_id fuel mcfg (reset_enumeration s)
          ≡ some (t, all_functions device_id mcfg))
        × (reset_enumeration t ≡ t)
  unfolding reset_enumeration
  drain-all_functions fuel s few enough =
      let (t, q, z, first) =
        drain-Drained fuel (all_functions device_id mcfg) (reset_enumeration s) few (reset-Good s)
          (remaining-reset s) enough in
      (t, q, ground (arith, z, first))
