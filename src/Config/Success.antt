-- ===== src/Config/Success.antt =====
-- core/svs_config.h: when `plan_writes` succeeds.
use svs_bridge.Base.{
  ℕ, suc, ◌+◌, ◌≤◌, ◌≡◌, ◌≢◌, refl, ◌∙◌, true, false, List, [], ◌∷◌, none, arith, ltb, ◌==◌, length,
  All,
}
use svs_bridge.Config.{
  Eeprom, get_byte, ir_slots, InputSettings, ok, plan_bits, plan_codes, plan_input, plan_inputs,
  plan_writes, changes, max_inputs, put_codes, slots_written,
}
use svs_bridge.Config.Bytes.{size, AreBytes}
use svs_bridge.Config.Flags.{Flag, auto, rgsb, bypass, flag_addr, put_bit-Flagged, put_bit_known}
use svs_bridge.Config.Plans.{AreSettings, plan_input-Set}

-- The bytes of every flag of the SVS's inputs were read.
abbrev pub IsRead : Eeprom → ℕ → Type 0
IsRead e inputs = (f : Flag) (m : ℕ) → 1 ≤ m → m ≤ inputs → get_byte e (flag_addr f m) ≢ none

module _ (read : Eeprom) (inputs n : ℕ) (s : InputSettings) (low : 1 ≤ n) (high : n ≤ inputs)
    (few : inputs ≤ 32) (fits : length s.ir ≤ ir_slots inputs) where
  plan_bits_known :
      (e : Eeprom) → AreBytes e → IsRead e inputs → (e' : Eeprom) × (plan_bits n s e ≡ ok e')
  unfolding plan_bits
  plan_bits_known e small known =
      let (e1, run1) =
        put_bit_known e auto n s.auto_profile low (omega arith) small (known auto n low high) in
      let w1 = put_bit-Flagged e auto n s.auto_profile low (omega arith) small run1 in
      let (e2, run2) =
        put_bit_known e1 rgsb n s.rgsb low (omega arith) w1.bytes
          (λ h. known rgsb n low high (w1.no_loss _ h)) in
      let w2 = put_bit-Flagged e1 rgsb n s.rgsb low (omega arith) w1.bytes run2 in
      let (e3, run3) =
        put_bit_known e2 bypass n s.sync_bypass low (omega arith) w2.bytes
          (λ h. known bypass n low high (w1.no_loss _ (w2.no_loss _ h))) in
      (e3, rw (run1, run2) run3)

  plan_codes_fits : (e : Eeprom) → (e' : Eeprom) × (plan_codes read inputs n s e ≡ ok e')
  unfolding plan_codes
  plan_codes_fits e =
      let test : ltb (ir_slots inputs) (length s.ir) ≡ false = ground arith in
      (put_codes e n inputs s.ir 0 (slots_written read n inputs s.ir), rw test refl)

  plan_input_known :
      (e : Eeprom)
      → AreBytes e
      → IsRead e inputs
      → (e' : Eeprom) × (plan_input read inputs n s e ≡ ok e')
  plan_input_known e small known =
      let (e1, run1) = plan_bits_known e small known in
      let (e2, run2) = plan_codes_fits e1 in (e2, rw run1 run2)

abbrev pub Fit : ℕ → List InputSettings → Type 0
Fit inputs want = All (λ s. length (InputSettings.ir s) ≤ ir_slots inputs) want

plan_inputs_known :
    (read : Eeprom) (inputs n : ℕ) (want : List InputSettings) (e : Eeprom)
    → inputs ≤ 32
    → 1 ≤ n
    → n + length want ≡ inputs + 1
    → AreBytes e
    → size e ≡ 1024
    → AreSettings want
    → Fit inputs want
    → IsRead e inputs
    → (e' : Eeprom) × (plan_inputs read inputs n want e ≡ ok e')
unfolding plan_inputs
plan_inputs_known read inputs n [] e few low count small full codes fit known = (e, refl)
plan_inputs_known read inputs n (s ∷ want) e few low count small full (code, codes) (fits, fit)
      known =
    let high : n ≤ inputs = omega arith in
    let (e1, run1) = plan_input_known read inputs n s low high few fits e small known in
    let (kept, held) = plan_input-Set inputs n s low high few read e small full code run1 in
    let (e2, run2) =
      plan_inputs_known read inputs (suc n) want e1 few (omega arith) (omega arith) kept.bytes
        (kept.same_size ∙ full) codes fit (λ f m a b h. known f m a b (kept.no_loss _ h)) in
    (e2, rw run1 run2)

-- `plan_writes` succeeds for 1 to 32 inputs, as many settings, codes that are bytes and whose address
-- is not the mark of an empty slot, no more of them than an input's slots hold, and an EEPROM of
-- 1024 bytes of which every byte that holds a flag of an input was read.
pub plan_writes_succeeds :
    (read : Eeprom) (want : List InputSettings) (inputs : ℕ)
    → size read ≡ 1024
    → AreBytes read
    → AreSettings want
    → 1 ≤ inputs
    → inputs ≤ 32
    → length want ≡ inputs
    → Fit inputs want
    → IsRead read inputs
    → (writes : List (ℕ × ℕ)) × (plan_writes read want inputs ≡ ok writes)
unfolding plan_writes
plan_writes_succeeds read want inputs full small settings some_inputs few count fit known =
    let (out, run) =
      plan_inputs_known read inputs 1 want read few (omega arith) (omega arith) small full settings
        fit known in
    let a : (length want == inputs) ≡ true = ground arith in
    let b : ltb inputs 1 ≡ false = ground arith in
    let c : ltb max_inputs inputs ≡ false = ground arith in
    (changes 0 out.bytes read.bytes, rw (a, b, c, run) refl)
