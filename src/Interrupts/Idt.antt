-- ===== src/Interrupts/Idt.antt =====
-- src/Interrupts/IDT.cpp: the table of interrupt descriptors. The addresses of the handlers are
-- parameters; the protocol that sets up the controllers is left out.
use electric_os.Base.{
  ℕ, ◌+◌, ◌*◌, ◌/◌, ◌%◌, ◌^◌, ◌<◌, Bool, true, false, List, [], ◌∷◌, ◌==◌, if◌then◌else◌, ◌≡◌, refl,
  arith, ap, sym, subst, ◌∙◌, ==_iff,
}

-- `IDTEntry`
pub record IdtEntry : Type 0 where
  pub offset_0 : ℕ
  pub selector : ℕ
  pub ist : ℕ
  pub type_attributes : ℕ
  pub offset_1 : ℕ
  pub offset_2 : ℕ
  pub zero_field : ℕ

abbrev pub empty_entry : IdtEntry
empty_entry = record {
  offset_0 = 0;
  selector = 0;
  ist = 0;
  type_attributes = 0;
  offset_1 = 0;
  offset_2 = 0;
  zero_field = 0;
}

-- `SetOffset`: the masks and shifts on a `uint64_t`.
pub set_offset : IdtEntry → ℕ → IdtEntry
set_offset e offset = record e {
  offset_0 = offset % 2 ^ 16;
  offset_1 = (offset / 2 ^ 16) % 2 ^ 16;
  offset_2 = (offset / 2 ^ 32) % 2 ^ 32;
}

-- `GetOffset`: the three parts have no bit in common.
pub get_offset : IdtEntry → ℕ
get_offset e = e.offset_0 + e.offset_1 * 2 ^ 16 + e.offset_2 * 2 ^ 32

-- IDT_TA_InterruptGate
abbrev pub interrupt_gate : ℕ
interrupt_gate = 0x8E

-- `SetHandler`, on a table of 256 entries.
pub set_handler : (ℕ → IdtEntry) → ℕ → ℕ → ℕ → IdtEntry
set_handler table vector offset v =
    if v == vector
    then record (set_offset (table vector) offset) {
      type_attributes = interrupt_gate;
      selector = 0x08;
    }
    else table v

-- The vectors that `SetupInterrupts` sets, in its order.
abbrev pub vectors : List ℕ
vectors =
    0x0 ∷ 0x2 ∷ 0x3 ∷ 0x4 ∷ 0x5 ∷ 0x6 ∷ 0x7 ∷ 0x8 ∷ 0xA ∷ 0xB ∷ 0xC ∷ 0xD ∷ 0xE ∷ 0x10 ∷ 0x20 ∷ 0x21
    ∷ 0x2C ∷ []

pub set_handlers : (ℕ → IdtEntry) → List ℕ → (ℕ → ℕ) → ℕ → IdtEntry
set_handlers table [] address = table
set_handlers table (v ∷ vs) address = set_handlers (set_handler table v (address v)) vs address

-- `SetupInterrupts`, where the handler of each vector has an address.
pub setup_interrupts : (ℕ → ℕ) → ℕ → IdtEntry
setup_interrupts address = set_handlers (λ v. empty_entry) vectors address

pub get_offset-set_offset :
    (e : IdtEntry) (offset : ℕ) → offset < 2 ^ 64 → get_offset (set_offset e offset) ≡ offset
unfolding get_offset set_offset
get_offset-set_offset e offset h = omega arith

abbrev pub is_member : ℕ → List ℕ → Bool
is_member v [] = false
is_member v (w ∷ ws) = if v == w then true else is_member v ws

-- A gate to the handler's address in the kernel's code segment.
pub record IsGate (e : IdtEntry) (address : ℕ) : Type 0 where
  pub target : get_offset e ≡ address
  pub kind : e.type_attributes ≡ interrupt_gate
  pub segment : e.selector ≡ 0x08

-- An entry is a gate to the vector's handler, or what it was.
abbrev pub IsGated : IdtEntry → IdtEntry → ℕ → Bool → Type 0
IsGated old new address true = IsGate new address
IsGated old new address false = new ≡ old

module _ (address : ℕ → ℕ) (fits : (v : ℕ) → address v < 2 ^ 64) where
  set_handler-IsGated :
      (table : ℕ → IdtEntry) (w v : ℕ)
      → IsGated (table v) (set_handler table w (address w) v) (address v) (v == w)
  unfolding set_handler set_offset get_offset
  set_handler-IsGated table w v = at (v == w) refl
    where
      at :
          (b : Bool)
          → (v == w) ≡ b
          → IsGated
              (table v)
              (if b
                then record (set_offset (table w) (address w)) {
                  type_attributes = interrupt_gate;
                  selector = 0x08;
                }
                else table v)
              (address v)
              b
      at true e =
          let same = (==_iff v w).0 e in
          record {
            target = get_offset-set_offset (table w) (address w) (fits w) ∙ ap address (sym same);
            kind = refl;
            segment = refl;
          }
      at false e = refl

  set_handlers-IsGated :
      (table : ℕ → IdtEntry) (ws : List ℕ) (v : ℕ)
      → IsGated (table v) (set_handlers table ws address v) (address v) (is_member v ws)
  unfolding set_handlers
  set_handlers-IsGated table [] v = refl
  set_handlers-IsGated table (w ∷ ws) v =
      join (v == w) (is_member v ws) _ _ _ (set_handler-IsGated table w v)
        (set_handlers-IsGated (set_handler table w (address w)) ws v)
    where
      join :
          (b c : Bool) (old middle new : IdtEntry)
          → IsGated old middle (address v) b
          → IsGated middle new (address v) c
          → IsGated old new (address v) (if b then true else c)
      join true true old middle new first later = later
      join true false old middle new first later =
          subst (λ e. IsGate e (address v)) (sym later) first
      join false true old middle new first later = later
      join false false old middle new first later = later ∙ first

  -- Where the handlers have addresses of 64 bits, after `SetupInterrupts` each of its vectors
  -- has an interrupt gate to its handler in segment 8, and every other vector is as it was.
  setup_interrupts-IsGated :
      (v : ℕ) → IsGated empty_entry (setup_interrupts address v) (address v) (is_member v vectors)
  unfolding setup_interrupts
  setup_interrupts-IsGated v = set_handlers-IsGated (λ v. empty_entry) vectors v
