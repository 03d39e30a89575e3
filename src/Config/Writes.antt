-- ===== src/Config/Writes.antt =====
-- core/svs_config.h: `plan_writes`, `decode_input` and `decode_hardware` together.
use svs_bridge.Base.{
  ℕ, zero, suc, ◌+◌, ◌-◌, ◌/◌, ◌≤◌, ◌<◌, ◌≡◌, ◌≢◌, inl, inr, refl, ap, subst, ◌∙◌, true, List, [],
  ◌∷◌, some, arith, ltb, ◌==◌, Bool-cases, length, get_elem?, All,
}
use svs_bridge.Config.{
  Eeprom, get_byte, get_bit, ir_slots, InputSettings, codes_from, decode_input, decode_hardware, ok,
  ◌>>=◌, plan_inputs, plan_writes, changes, max_inputs, bits_from, tx_rgb_to_ypbpr, tx_ypbpr_to_rgb,
  scart_v3_base, vga_v3_base,
}
use svs_bridge.Config.Bytes.{size, AreBytes}
use svs_bridge.Config.Flags.{Flag, auto, rgsb, bypass, flag, flag_addr, flag_ext}
use svs_bridge.Config.Slots.{IsCode, address-lt, command-lt, codes_from-Holds}
use svs_bridge.Config.Changes.{write_all, changes_all}
use svs_bridge.Config.Plans.{AreSettings, Planned, plan_inputs-Planned, Set, bind_ok, some-inj}

flag_within : (f : Flag) (m : ℕ) {inputs : ℕ} → m ≤ inputs → inputs ≤ 32 → flag_addr f m < 600
flag_within auto m a b = omega arith
flag_within rgsb m a b = omega arith
flag_within bypass m a b = omega arith

pub bits_from_ext :
    (e e' : Eeprom) (base n left : ℕ)
    → ((m : ℕ)
        → n ≤ m
        → m < n + left
        → get_byte e' (base + (m - 1) / 8) ≡ get_byte e (base + (m - 1) / 8))
    → bits_from e' base n left ≡ bits_from e base n left
unfolding get_bit
bits_from_ext e e' base n zero same = refl
bits_from_ext e e' base n (suc left) same = rw (same n (omega arith) (omega arith)) (
    ap (◌∷◌ (get_bit e base n true))
      (bits_from_ext e e' base (suc n) left (λ m a b. same m (omega arith) (omega arith))))

-- A plan that went through, and what it makes of the EEPROM that was read.
record Applied (read : Eeprom) (want : List InputSettings) (inputs : ℕ) (writes : List (ℕ × ℕ))
    : Type 0 where
  out : Eeprom
  count : length want ≡ inputs
  few : inputs ≤ 32
  some_inputs : 1 ≤ inputs
  planned : Planned inputs 1 want read out
  same : (a : ℕ) → a < 1024 → get_byte (write_all writes read) a ≡ get_byte out a

pub checked :
    (inputs : ℕ) (read : Eeprom) (want : List InputSettings) {writes : List (ℕ × ℕ)}
    → plan_writes read want inputs ≡ ok writes
    → (length want ≡ inputs)
      × (1 ≤ inputs)
      × (inputs ≤ 32)
      × (plan_inputs read inputs 1 want read >>= (λ out. ok (changes 0 out.bytes read.bytes))
          ≡ ok writes)
unfolding plan_writes
checked inputs read want run = elim (Bool-cases (length want == inputs)) [
  | inr a ↦ absurd (ground (arith, rw a at run))
  | inl a ↦ elim (Bool-cases (ltb inputs 1)) [
    | inl b ↦ absurd (ground (arith, rw (a, b) at run))
    | inr b ↦ elim (Bool-cases (ltb max_inputs inputs)) [
      | inl c ↦ absurd (ground (arith, rw (a, b, c) at run))
      | inr c ↦ (ground arith, ground arith, ground arith, rw (a, b, c) at run)
    ]
  ]
]

plan_writes-Applied :
    (read : Eeprom) (want : List InputSettings) (inputs : ℕ) {writes : List (ℕ × ℕ)}
    → size read ≡ 1024
    → AreBytes read
    → AreSettings want
    → plan_writes read want inputs ≡ ok writes
    → Applied read want inputs writes
plan_writes-Applied read want inputs {writes} full small settings run =
    let (count, some_inputs, few, done) = checked inputs read want run in
    let (out, planned, collected) = bind_ok (plan_inputs read inputs 1 want read) _ done in
    let p =
      plan_inputs-Planned read inputs 1 want read few (omega arith) (omega arith) small full
        settings planned in
    record {
      out = out;
      count = count;
      few = few;
      some_inputs = some_inputs;
      planned = p;
      same = λ a h.
          subst (λ ws. get_byte (write_all ws read) a ≡ get_byte out a) (writes-inj collected)
            (changes_all out read p.same_size p.no_loss p.bytes a (omega arith));
    }
  where
    writes-inj : {a b : List (ℕ × ℕ)} → ok a ≡ ok b → a ≡ b
    writes-inj h = cc

flag_low : (f : Flag) (m : ℕ) → m ≤ 288 → flag_addr f m < 1024
flag_low auto m h = omega arith
flag_low rgsb m h = omega arith
flag_low bypass m h = omega arith

pub get_elem?-lt :
    (xs : List InputSettings) (i : ℕ) {s : InputSettings} → get_elem? xs i ≡ some s → i < length xs
get_elem?-lt [] i h = absurd (ground (arith, h))
get_elem?-lt (x ∷ xs) zero h = omega arith
get_elem?-lt (x ∷ xs) (suc i) h = omega (arith, get_elem?-lt xs i h)

module _ {read : Eeprom} {want : List InputSettings} {inputs : ℕ} {writes : List (ℕ × ℕ)}
    (applied : Applied read want inputs writes) where
  flag_written :
      (f : Flag) (m : ℕ) → m ≤ 288 → flag (write_all writes read) f m ≡ flag applied.out f m
  flag_written f m h =
      flag_ext applied.out (write_all writes read) f m
        (applied.same (flag_addr f m) (flag_low f m h))

  codes_written :
      (m : ℕ) (s : InputSettings)
      → m ≤ inputs
      → All IsCode s.ir
      → Set inputs m s applied.out
      → codes_from (write_all writes read) m inputs 0 (ir_slots inputs) ≡ s.ir
  codes_written m s high codes held =
      codes_from-Holds inputs (write_all writes read) m 0 (ir_slots inputs) s.ir codes held.fits
        (λ j k t i l.
          let (a, c) = held.codes j k t i l in
          (
            applied.same _ (omega (arith, address-lt inputs m k high (omega arith))) ∙ a,
            applied.same _ (omega (arith, command-lt inputs m k high (omega arith))) ∙ c,
          ))

All-get_elem? :
    (want : List InputSettings) (i : ℕ) {s : InputSettings}
    → AreSettings want
    → get_elem? want i ≡ some s
    → All IsCode s.ir
All-get_elem? [] i settings got = absurd (ground (arith, got))
All-get_elem? (x ∷ want) zero (code, codes) got =
    subst (λ s. All IsCode (InputSettings.ir s)) (some-inj got) code
All-get_elem? (x ∷ want) (suc i) (code, codes) got = All-get_elem? want i codes got

-- The settings of an input as `decode_input` gives them: what the EEPROM does not hold stays.
abbrev pub stored : InputSettings → InputSettings → InputSettings
stored s old = record s { rgb_to_ypbpr = old.rgb_to_ypbpr; ypbpr_to_rgb = old.ypbpr_to_rgb }

-- Where `plan_writes` succeeds on an EEPROM of 1024 bytes, for codes that are bytes and whose
-- address is not the mark of an empty slot, the EEPROM after these writes decodes, for each input,
-- to the settings that were asked for it.
pub decode_input-plan_writes :
    (read : Eeprom) (want : List InputSettings) (inputs : ℕ) {writes : List (ℕ × ℕ)}
    → size read ≡ 1024
    → AreBytes read
    → AreSettings want
    → plan_writes read want inputs ≡ ok writes
    → (i : ℕ) (s old : InputSettings) → get_elem? want i ≡ some s
    → decode_input (write_all writes read) (suc i) inputs old ≡ stored s old
unfolding decode_input
decode_input-plan_writes read want inputs {writes} full small settings run i s old got =
    let applied = plan_writes-Applied read want inputs full small settings run in
    let high : suc i ≤ inputs = omega (arith, get_elem?-lt want i got, applied.count) in
    let held = applied.planned.now i (suc i) s (omega arith) got in
    let near : suc i ≤ 288 = omega (arith, applied.few) in
    rw
      (
        flag_written applied auto (suc i) near ∙ held.flags auto,
        flag_written applied rgsb (suc i) near ∙ held.flags rgsb,
        flag_written applied bypass (suc i) near ∙ held.flags bypass,
        codes_written applied (suc i) s high (All-get_elem? want i settings got) held,
      )
      refl

-- Where `plan_writes` succeeds on an EEPROM of 1024 bytes, for codes that are bytes and whose
-- address is not the mark of an empty slot, its writes leave the flags of the inputs past the SVS's
-- as they were, and every byte past the infrared codes that holds no flag of an input of the SVS.
pub plan_writes_keeps :
    (read : Eeprom) (want : List InputSettings) (inputs : ℕ) {writes : List (ℕ × ℕ)}
    → size read ≡ 1024
    → AreBytes read
    → AreSettings want
    → plan_writes read want inputs ≡ ok writes
    → ((f : Flag) (m : ℕ) → inputs < m → m ≤ 288 → flag (write_all writes read) f m ≡ flag read f m)
      × ((a : ℕ)
          → 500 ≤ a
          → a < 1024
          → ((f : Flag) (m : ℕ) → 1 ≤ m → m ≤ inputs → flag_addr f m ≢ a)
          → get_byte (write_all writes read) a ≡ get_byte read a)
plan_writes_keeps read want inputs full small settings run =
    let applied = plan_writes-Applied read want inputs full small settings run in
    (
      λ f m a b. flag_written applied f m b ∙ applied.planned.flags f m a b,
      λ a far near away. applied.same a near ∙ applied.planned.others a far away,
    )

-- Where `plan_writes` succeeds on an EEPROM of 1024 bytes, for codes that are bytes and whose
-- address is not the mark of an empty slot, its writes do not change what `decode_hardware` reads.
pub decode_hardware-plan_writes :
    (read : Eeprom) (want : List InputSettings) (inputs : ℕ) {writes : List (ℕ × ℕ)}
    → size read ≡ 1024
    → AreBytes read
    → AreSettings want
    → plan_writes read want inputs ≡ ok writes
    → decode_hardware (write_all writes read) inputs ≡ decode_hardware read inputs
unfolding decode_hardware
decode_hardware-plan_writes read want inputs {writes} full small settings run =
    let applied = plan_writes-Applied read want inputs full small settings run in
    let kept : (a : ℕ) → 600 ≤ a → a < 1024 → get_byte (write_all writes read) a ≡ get_byte read a =
      λ a far near.
        applied.same a near
        ∙ applied.planned.others a (omega arith)
            (λ f m x y e. omega (arith, flag_within f m y applied.few)) in
    rw
      (
        kept tx_rgb_to_ypbpr (omega arith) (omega arith),
        kept tx_ypbpr_to_rgb (omega arith) (omega arith),
        bits_from_ext read (write_all writes read) scart_v3_base 1 inputs
            (λ m a b. kept _ (omega arith) (omega (arith, applied.few))),
        bits_from_ext read (write_all writes read) vga_v3_base 1 inputs
            (λ m a b. kept _ (omega arith) (omega (arith, applied.few))),
      )
      refl
