-- ===== src/Config/Slots.antt =====
-- core/svs_config.h: the infrared codes' slots in the EEPROM.
use svs_bridge.Base.{
  ℕ, zero, suc, ◌+◌, ◌*◌, ◌/◌, ◌%◌, ◌≤◌, ◌<◌, ◌≡◌, ◌≢◌, ◌⊎◌, inl, inr, refl, ap, subst, ◌∙◌, List,
  [], ◌∷◌, false, some, none, arith, ltb, ◌==◌, Bool-cases, length, All,
}
use native.Mathlib.Nat.{div-mul-le_self}
use svs_bridge.Config.{
  Eeprom, get_byte, set_byte, ir_slots, ir_address_addr, ir_command_addr, IrCode, codes_from,
  code_at, empty_slot, put_codes, read_slot, ir_empty,
}
use svs_bridge.Config.Bytes.{
  size, get_byte-set_byte, get_byte-set_byte_ne, size-set_byte, AreBytes, set_byte-AreBytes, NoLoss,
  set_byte-NoLoss,
}

-- An address of the region belongs to one input and one slot.
slot_unique : (w n m k j : ℕ) → n < w → m < w → n + k * w ≡ m + j * w → (n ≡ m) × (k ≡ j)
slot_unique w n m zero zero p q e = (omega arith, refl)
slot_unique w n m zero (suc j) p q e = absurd (omega arith)
slot_unique w n m (suc k) zero p q e = absurd (omega arith)
slot_unique w n m (suc k) (suc j) p q e =
    let (a, b) = slot_unique w n m k j p q (omega arith) in (a, omega arith)

mul_mono : (k q w : ℕ) → k ≤ q → k * w ≤ q * w
mul_mono zero q w h = omega arith
mul_mono (suc k) zero w h = absurd (omega arith)
mul_mono (suc k) (suc q) w h = omega (arith, mul_mono k q w (omega arith))

slot_inside : (w n k : ℕ) → n < w → k < 250 / w → n + k * w < 250
slot_inside w n k p h = omega (arith, mul_mono (suc k) (250 / w) w h, div-mul-le_self 250 w)

-- An infrared code that the SVS can hold: two bytes, and the first is not the mark of an empty slot.
abbrev pub IsCode : IrCode → Type 0
IsCode c = (c.address < 256) × (c.command < 256) × (c.address ≢ ir_empty)

code_at-lt :
    (ir : List IrCode) (k : ℕ)
    → All IsCode ir
    → (IrCode.address (code_at ir k) < 256) × (IrCode.command (code_at ir k) < 256)
unfolding code_at
code_at-lt [] k codes = (omega arith, omega arith)
code_at-lt (c ∷ ir) zero ((a, b, d), codes) = (a, b)
code_at-lt (c ∷ ir) (suc k) (d, codes) = code_at-lt ir k codes

module _ (inputs : ℕ) where
  pub address-lt : (n k : ℕ) → n ≤ inputs → k < ir_slots inputs → ir_address_addr n k inputs < 250
  unfolding ir_slots ir_address_addr
  address-lt n k p h = elim (Bool-cases (ltb 0 inputs)) [
    | inl e ↦ slot_inside (inputs + 1) n k (omega arith) (rw e at h)
    | inr e ↦ absurd (omega (arith, rw e at h))
  ]

  pub address_unique :
      (n m k j : ℕ)
      → n ≤ inputs
      → m ≤ inputs
      → ir_address_addr n k inputs ≡ ir_address_addr m j inputs
      → (n ≡ m) × (k ≡ j)
  unfolding ir_address_addr
  address_unique n m k j p q e = slot_unique (inputs + 1) n m k j (omega arith) (omega arith) e

  command_at : (n k : ℕ) → ir_command_addr n k inputs ≡ ir_address_addr n k inputs + 250
  unfolding ir_command_addr
  command_at n k = refl

  pub command-lt : (n k : ℕ) → n ≤ inputs → k < ir_slots inputs → ir_command_addr n k inputs < 500
  command-lt n k p h = omega (arith, command_at n k, address-lt n k p h)

  -- An address that none of an input's slots has.
  abbrev pub IsOutside : ℕ → ℕ → Type 0
  IsOutside n a =
      (j : ℕ)
      → j < ir_slots inputs
      → (ir_address_addr n j inputs ≢ a) × (ir_command_addr n j inputs ≢ a)

  pub past-IsOutside : (n a : ℕ) → n ≤ inputs → 500 ≤ a → IsOutside n a
  past-IsOutside n a p far j h =
      let below = address-lt n j p h in ((λ e. omega arith), λ e. omega (arith, command_at n j))

  pub slot-IsOutside :
      (n m k : ℕ)
      → n ≤ inputs
      → m ≤ inputs
      → n ≢ m
      → k < ir_slots inputs
      → IsOutside n (ir_address_addr m k inputs) × IsOutside n (ir_command_addr m k inputs)
  slot-IsOutside n m k p q differ h = (
    λ j i. (
      λ e. differ ((address_unique n m j k p q e).0),
      λ e. omega (arith, command_at n j, address-lt m k q h),
    ),
    λ j i. (
      λ e. omega (arith, command_at m k, address-lt n j p i),
      λ e. differ ((address_unique n m j k p q (omega (arith, command_at n j, command_at m k))).0),
    ),
  )

  abbrev put_slot : Eeprom → ℕ → List IrCode → ℕ → Eeprom
  put_slot out n ir k =
      set_byte (set_byte out (ir_address_addr n k inputs) (IrCode.address (code_at ir k)))
        (ir_command_addr n k inputs) (IrCode.command (code_at ir k))

  pub size-put_codes :
      (out : Eeprom) (n : ℕ) (ir : List IrCode) (k left : ℕ)
      → size (put_codes out n inputs ir k left) ≡ size out
  unfolding put_codes
  size-put_codes out n ir k zero = refl
  size-put_codes out n ir k (suc left) =
      size-put_codes (put_slot out n ir k) n ir (suc k) left
      ∙ size-set_byte _ (ir_command_addr n k inputs) (IrCode.command (code_at ir k))
      ∙ size-set_byte out (ir_address_addr n k inputs) (IrCode.address (code_at ir k))

  pub put_codes-AreBytes :
      (out : Eeprom) (n : ℕ) (ir : List IrCode) (k left : ℕ)
      → All IsCode ir
      → AreBytes out
      → AreBytes (put_codes out n inputs ir k left)
  unfolding put_codes
  put_codes-AreBytes out n ir k zero codes bytes = bytes
  put_codes-AreBytes out n ir k (suc left) codes bytes =
      let (a, c) = code_at-lt ir k codes in
      put_codes-AreBytes (put_slot out n ir k) n ir (suc k) left codes (
        set_byte-AreBytes _ (ir_command_addr n k inputs) (IrCode.command (code_at ir k)) c (
          set_byte-AreBytes out (ir_address_addr n k inputs) (IrCode.address (code_at ir k)) a
            bytes))

  pub put_codes-NoLoss :
      (out : Eeprom) (n : ℕ) (ir : List IrCode) (k left : ℕ)
      → NoLoss out (put_codes out n inputs ir k left)
  unfolding put_codes
  put_codes-NoLoss out n ir k zero a h = h
  put_codes-NoLoss out n ir k (suc left) a h =
      set_byte-NoLoss out (ir_address_addr n k inputs) (IrCode.address (code_at ir k)) a (
        set_byte-NoLoss _ (ir_command_addr n k inputs) (IrCode.command (code_at ir k)) a
          (put_codes-NoLoss (put_slot out n ir k) n ir (suc k) left a h))

  put_codes_other :
      (out : Eeprom) (n : ℕ) (ir : List IrCode) (k left a : ℕ)
      → ((j : ℕ)
          → k ≤ j
          → j < k + left
          → (ir_address_addr n j inputs ≢ a) × (ir_command_addr n j inputs ≢ a))
      → get_byte (put_codes out n inputs ir k left) a ≡ get_byte out a
  unfolding put_codes
  put_codes_other out n ir k zero a away = refl
  put_codes_other out n ir k (suc left) a away =
      let (first, second) = away k (omega arith) (omega arith) in
      put_codes_other (put_slot out n ir k) n ir (suc k) left a
        (λ j low high. away j (omega arith) (omega arith))
      ∙ get_byte-set_byte_ne _ (ir_command_addr n k inputs) a (IrCode.command (code_at ir k)) second
      ∙ get_byte-set_byte_ne out (ir_address_addr n k inputs) a (IrCode.address (code_at ir k))
          first

  pub put_codes_outside :
      (out : Eeprom) (n : ℕ) (ir : List IrCode) (left a : ℕ)
      → left ≤ ir_slots inputs
      → IsOutside n a
      → get_byte (put_codes out n inputs ir 0 left) a ≡ get_byte out a
  put_codes_outside out n ir left a fits away =
      put_codes_other out n ir 0 left a (λ j low high. away j (omega arith))

  -- Slot `k` of input `n` holds a code.
  abbrev pub HasCode : Eeprom → ℕ → ℕ → IrCode → Type 0
  HasCode e n k c =
      (get_byte e (ir_address_addr n k inputs) ≡ some c.address)
      × (get_byte e (ir_command_addr n k inputs) ≡ some c.command)

  -- The slots of an input from `k` on hold a list's codes, and a mark of its end if there is room.
  abbrev pub Holds : Eeprom → ℕ → ℕ → ℕ → List IrCode → Type 0
  Holds e n k left ir =
      (j s : ℕ) → s ≡ k + j → j ≤ length ir → j < left → HasCode e n s (code_at ir j)

  size-put_slot :
      (out : Eeprom) (n : ℕ) (ir : List IrCode) (k : ℕ) → size (put_slot out n ir k) ≡ size out
  size-put_slot out n ir k =
      size-set_byte _ (ir_command_addr n k inputs) (IrCode.command (code_at ir k))
      ∙ size-set_byte out (ir_address_addr n k inputs) (IrCode.address (code_at ir k))

  -- The first slot that is written keeps what it was given.
  put_codes_first :
      (out : Eeprom) (n : ℕ) (ir : List IrCode) (k left : ℕ)
      → n ≤ inputs
      → k + suc left ≤ ir_slots inputs
      → 500 ≤ size out
      → HasCode (put_codes out n inputs ir k (suc left)) n k (code_at ir k)
  unfolding put_codes
  put_codes_first out n ir k left p fits room =
      let below = address-lt n k p (omega arith) in
      let first : Eeprom =
        set_byte out (ir_address_addr n k inputs) (IrCode.address (code_at ir k)) in
      let same = size-set_byte out (ir_address_addr n k inputs) (IrCode.address (code_at ir k)) in
      (
        put_codes_other (put_slot out n ir k) n ir (suc k) left (ir_address_addr n k inputs)
              (λ j low high. (
                λ e. omega (arith, (address_unique n n j k p p e).1),
                λ e. omega (arith, command_at n j),
              ))
            ∙ get_byte-set_byte_ne first (ir_command_addr n k inputs) (ir_address_addr n k inputs)
                (IrCode.command (code_at ir k)) (λ e. omega (arith, command_at n k))
            ∙ get_byte-set_byte out (ir_address_addr n k inputs) (IrCode.address (code_at ir k))
                (omega arith),
        put_codes_other (put_slot out n ir k) n ir (suc k) left (ir_command_addr n k inputs)
              (λ j low high. (
                λ e. omega (arith, command_at n k, address-lt n j p (omega arith)),
                λ e. omega (
                  arith,
                  (address_unique n n j k p p (omega (arith, command_at n j, command_at n k))).1,
                ),
              ))
            ∙ get_byte-set_byte first (ir_command_addr n k inputs) (IrCode.command (code_at ir k))
                (omega (arith, command_at n k, same)),
      )

  put_codes_slot :
      (out : Eeprom) (n : ℕ) (ir : List IrCode) (k left d j : ℕ)
      → j ≡ k + d
      → n ≤ inputs
      → k + left ≤ ir_slots inputs
      → 500 ≤ size out
      → d < left
      → HasCode (put_codes out n inputs ir k left) n j (code_at ir j)
  unfolding put_codes
  put_codes_slot out n ir k zero d j e p fits room high = absurd (omega arith)
  put_codes_slot out n ir k (suc left) zero j e p fits room high =
      let same : k ≡ j = omega arith in
      subst (λ j. HasCode (put_codes out n inputs ir k (suc left)) n j (code_at ir j)) same
        (put_codes_first out n ir k left p fits room)
  put_codes_slot out n ir k (suc left) (suc d) j e p fits room high =
      put_codes_slot (put_slot out n ir k) n ir (suc k) left d j (omega arith) p (omega arith)
        (omega (arith, size-put_slot out n ir k)) (omega arith)

  -- What is written is held, if it is as many slots as the codes and the mark of their end.
  pub put_codes-Holds :
      (out : Eeprom) (n : ℕ) (ir : List IrCode) (left : ℕ)
      → n ≤ inputs
      → left ≤ ir_slots inputs
      → 500 ≤ size out
      → (left ≡ ir_slots inputs) ⊎ (length ir < left)
      → Holds (put_codes out n inputs ir 0 left) n 0 (ir_slots inputs) ir
  put_codes-Holds out n ir left p fits room enough j s e within inside =
      let same : s ≡ j = omega arith in
      rw same (put_codes_slot out n ir 0 left j j (omega arith) p (omega arith) room (last enough))
    where
      last : (left ≡ ir_slots inputs) ⊎ (length ir < left) → j < left
      last (inl e) = omega arith
      last (inr l) = omega arith

  slot_code-empty :
      (e : Eeprom) (n k : ℕ) → HasCode e n k empty_slot → read_slot e n k inputs ≡ none
  slot_code-empty e n k (a, b) = rw (a, b) refl

  slot_code-used :
      (e : Eeprom) (n k : ℕ) (c : IrCode)
      → HasCode e n k c
      → c.address < 256
      → c.command < 256
      → c.address ≢ ir_empty
      → read_slot e n k inputs ≡ some c
  slot_code-used e n k c (a, b) low high used =
      let test : (c.address == ir_empty) ≡ false = ground arith in
      let first : c.address % 256 ≡ c.address = omega arith in
      let second : c.command % 256 ≡ c.command = omega arith in rw (a, b, test, first, second) refl

  -- Slots that hold codes are read back as these codes.
  pub codes_from-Holds :
      (e : Eeprom) (n k left : ℕ) (ir : List IrCode)
      → All IsCode ir
      → length ir ≤ left
      → Holds e n k left ir
      → codes_from e n inputs k left ≡ ir
  unfolding codes_from code_at
  codes_from-Holds e n k zero [] codes fits holds = refl
  codes_from-Holds e n k zero (c ∷ ir) codes fits holds = absurd (omega arith)
  codes_from-Holds e n k (suc left) [] codes fits holds =
      rw (slot_code-empty e n k (holds 0 k (omega arith) (omega arith) (omega arith))) refl
  codes_from-Holds e n k (suc left) (c ∷ ir) ((low, high, used), codes) fits holds =
      let (a, b) = holds 0 k (omega arith) (omega arith) (omega arith) in
      rw (slot_code-used e n k c (a, b) low high used) (
        ap (◌∷◌ c) (
          codes_from-Holds e n (suc k) left ir codes (omega arith)
            (λ j s t i l. holds (suc j) s (omega arith) (omega arith) (omega arith))))
