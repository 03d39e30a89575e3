-- ===== src/Settings/Decoded.antt =====
-- core/svs_config.h on what svs_settings.cpp read: it decodes to what the whole EEPROM decodes to.
use svs_bridge.Base.{
  ℕ, zero, suc, ◌+◌, ◌≤◌, ◌<◌, ◌≡◌, inl, inr, refl, sym, ap, ◌∙◌, List, [], ◌∷◌, Option, none, some,
  arith, length, get_elem?, All,
}
use svs_bridge.Config.{
  Eeprom, InputSettings, get_byte, ir_slots, ir_address_addr, ir_command_addr, codes_from,
  push_code, slot_code, IrCode, ir_empty, decode_input, decode_hardware, scart_v3_base, vga_v3_base,
}
use svs_bridge.Config.Addresses.{Covered, bitmap_addresses-Covered, bitmap_addresses-lt}
use svs_bridge.Config.Commands.{bitmap_addresses}
use svs_bridge.Config.Flags.{auto, rgsb, bypass, flag_ext}
use svs_bridge.Config.Plans.{some-inj}
use svs_bridge.Config.Slots.{address-lt, command-lt}
use svs_bridge.Config.Writes.{bits_from_ext}
use svs_bridge.Settings.Law.{Agrees, dump, Agrees-dump}
use svs_bridge.Settings.Grown.{IsKnown, SlotsRead}
use svs_bridge.Settings.Reading.{decode_inputs}

-- The byte at `a` is as in the whole EEPROM.
abbrev AsIn : (ℕ → ℕ) → Eeprom → ℕ → Type 0
AsIn m e a = get_byte e a ≡ get_byte (dump m) a

-- At an empty slot the codes end, whatever stands past it.
codes_end :
    (c : Option ℕ) (codes codes' : List IrCode)
    → push_code (slot_code (some ir_empty) c) codes ≡ push_code (slot_code (some ir_empty) c) codes'
codes_end none codes codes' = refl
codes_end (some c) codes codes' = refl

module _ (m : ℕ → ℕ) (e : Eeprom) (inputs : ℕ) (agrees : Agrees m e) where
  All-AsIn :
      (addrs : List ℕ) → All (λ a. a < 1024) addrs → All (IsKnown e) addrs → All (AsIn m e) addrs
  All-AsIn [] low known = tt
  All-AsIn (a ∷ addrs) (low, lows) (known, rest) =
      (Agrees-dump m e agrees a low known, All-AsIn addrs lows rest)

  covered : inputs ≤ 32 → All (IsKnown e) (bitmap_addresses inputs) → Covered (AsIn m e) inputs
  covered few known =
      bitmap_addresses-Covered (AsIn m e) inputs
        (All-AsIn (bitmap_addresses inputs) (bitmap_addresses-lt inputs few) known)

  pub decode_hardware-dump :
      inputs ≤ 32
      → All (IsKnown e) (bitmap_addresses inputs)
      → decode_hardware e inputs ≡ decode_hardware (dump m) inputs
  unfolding decode_hardware
  decode_hardware-dump few known =
      let at = covered few known in
      rw
        (
          at.rgb,
          at.ypbpr,
          sym (
              bits_from_ext e (dump m) scart_v3_base 1 inputs
                (λ n a b. sym (at.scart n a (omega arith)))),
          sym (
              bits_from_ext e (dump m) vga_v3_base 1 inputs
                (λ n a b. sym (at.vga n a (omega arith)))),
        )
        refl

  codes_from-dump :
      (n k left : ℕ)
      → n ≤ inputs
      → k + left ≡ ir_slots inputs
      → SlotsRead e inputs n k left
      → codes_from e n inputs k left ≡ codes_from (dump m) n inputs k left
  unfolding codes_from
  codes_from-dump n k zero high count slots = refl
  codes_from-dump n k (suc left) high count (a, c, rest) =
      let low : ir_address_addr n k inputs < 1024 =
        omega (arith, address-lt inputs n k high (omega arith)) in
      let low' : ir_command_addr n k inputs < 1024 =
        omega (arith, command-lt inputs n k high (omega arith)) in
      let same = Agrees-dump m e agrees (ir_address_addr n k inputs) low a in
      let same' = Agrees-dump m e agrees (ir_command_addr n k inputs) low' c in
      elim rest [
        | inl last ↦
            rw (same', sym same ∙ last, last)
              (codes_end (get_byte (dump m) (ir_command_addr n k inputs)) _ _)
        | inr slots ↦
            rw (same, same')
              (ap (push_code _) (codes_from-dump n (suc k) left high (omega arith) slots))
      ]

  -- An input's settings.
  pub decode_input-dump :
      (n : ℕ) (s : InputSettings)
      → 1 ≤ n
      → n ≤ inputs
      → inputs ≤ 32
      → All (IsKnown e) (bitmap_addresses inputs)
      → SlotsRead e inputs n 0 (ir_slots inputs)
      → decode_input e n inputs s ≡ decode_input (dump m) n inputs s
  unfolding decode_input
  decode_input-dump n s low high few known slots =
      let at = covered few known in
      rw
        (
          flag_ext (dump m) e auto n (at.flags auto n low high),
          flag_ext (dump m) e rgsb n (at.flags rgsb n low high),
          flag_ext (dump m) e bypass n (at.flags bypass n low high),
          codes_from-dump n 0 (ir_slots inputs) high (omega arith) slots,
        )
        refl

pub decode_input_idem :
    (e : Eeprom) (n inputs : ℕ) (s : InputSettings)
    → decode_input e n inputs (decode_input e n inputs s) ≡ decode_input e n inputs s
unfolding decode_input
decode_input_idem e n inputs s = refl

pub length-decode_inputs :
    (e : Eeprom) (inputs n : ℕ) (settings : List InputSettings)
    → length (decode_inputs e inputs n settings) ≡ length settings
unfolding decode_inputs
length-decode_inputs e inputs n [] = refl
length-decode_inputs e inputs n (s ∷ settings) =
    omega (arith, length-decode_inputs e inputs (suc n) settings)

-- Each of the settings is what was decoded for its input.
pub get_elem?-decode_inputs :
    (e : Eeprom) (inputs n : ℕ) (settings : List InputSettings) (i : ℕ) (s : InputSettings)
    → get_elem? (decode_inputs e inputs n settings) i ≡ some s
    → (old : InputSettings) × (get_elem? settings i ≡ some old)
      × (s ≡ decode_input e (n + i) inputs old)
unfolding decode_inputs
get_elem?-decode_inputs e inputs n [] i s got = absurd (ground (arith, got))
get_elem?-decode_inputs e inputs n (old ∷ settings) zero s got =
    (old, refl, sym (some-inj got) ∙ ap (λ k. decode_input e k inputs old) (omega arith))
get_elem?-decode_inputs e inputs n (old ∷ settings) (suc i) s got =
    let (before, h, same) = get_elem?-decode_inputs e inputs (suc n) settings i s got in
    (before, h, same ∙ ap (λ k. decode_input e k inputs before) (omega arith))
