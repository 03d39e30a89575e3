-- ===== src/Config/Plans.antt =====
-- core/svs_config.h: `plan_writes`, one input at a time and over all of them.
use svs_bridge.Base.{
  ℕ, zero, suc, ◌+◌, ◌≤◌, ◌<◌, ◌≡◌, ◌≢◌, ◌⊎◌, inl, inr, refl, subst, ◌∙◌, true, false, List, [],
  ◌∷◌, some, arith, ltb, Bool-cases, length, get_elem?, All,
}
use svs_bridge.Config.{
  Eeprom, get_byte, ir_slots, IrCode, InputSettings, Plan, ok, refused, ◌>>=◌, put_bit, put_codes,
  slots_written, plan_bits, plan_codes, plan_input, plan_inputs, auto_profile_base, rgsb_base,
}
use svs_bridge.Config.Bytes.{size, AreBytes, NoLoss}
use svs_bridge.Config.Flags.{
  Flag, auto, rgsb, bypass, wanted, flag, flag_addr, flag_ext, put_bit-Flagged, ok-inj,
}
use svs_bridge.Config.Slots.{
  IsCode, address-lt, command-lt, IsOutside, past-IsOutside, slot-IsOutside, Holds, size-put_codes,
  put_codes-AreBytes, put_codes-NoLoss, put_codes_outside, put_codes-Holds,
}

-- A chain of steps that went through, step by step.
pub bind_ok :
    {A B : Type 0} (p : Plan A) (f : A → Plan B) {b : B}
    → p >>= f ≡ ok b
    → (a : A) × (p ≡ ok a) × (f a ≡ ok b)
bind_ok (ok a) f run = (a, refl, run)
bind_ok (refused e) f run = absurd (ground (arith, run))

pub some-inj {ℓ} : {A : Type ℓ} {s t : A} → some s ≡ some t → s ≡ t
some-inj h = cc

-- What the plan for input `n` leaves as it was.
pub record Kept (inputs n : ℕ) (e e' : Eeprom) : Type 0 where
  pub flags : (g : Flag) (m : ℕ) → 1 ≤ m → m ≤ 288 → n ≢ m → flag e' g m ≡ flag e g m
  pub others :
      (a : ℕ)
      → IsOutside inputs n a
      → ((f : Flag) → flag_addr f n ≢ a)
      → get_byte e' a ≡ get_byte e a
  pub bytes : AreBytes e'
  pub same_size : size e' ≡ size e
  pub no_loss : NoLoss e e'

-- The EEPROM holds an input's settings.
pub record Set (inputs n : ℕ) (s : InputSettings) (e : Eeprom) : Type 0 where
  pub flags : (f : Flag) → flag e f n ≡ wanted f s
  pub fits : length s.ir ≤ ir_slots inputs
  pub codes : Holds inputs e n 0 (ir_slots inputs) s.ir

flag_high : (f : Flag) (n : ℕ) → 500 ≤ flag_addr f n
flag_high auto n = omega arith
flag_high rgsb n = omega arith
flag_high bypass n = omega arith

module _ (inputs n : ℕ) (s : InputSettings) (low : 1 ≤ n) (high : n ≤ inputs)
    (few : inputs ≤ 32) where
  plan_bits-Kept :
      {e e' : Eeprom}
      → AreBytes e
      → plan_bits n s e ≡ ok e'
      → Kept inputs n e e' × ((f : Flag) → flag e' f n ≡ wanted f s)
  unfolding plan_bits
  plan_bits-Kept {e} {e'} small run =
      let (e1, run1, rest) = bind_ok (put_bit e auto_profile_base n s.auto_profile false) _ run in
      let (e2, run2, run3) = bind_ok (put_bit e1 rgsb_base n s.rgsb true) _ rest in
      let w1 = put_bit-Flagged e auto n s.auto_profile low (omega arith) small run1 in
      let w2 = put_bit-Flagged e1 rgsb n s.rgsb low (omega arith) w1.bytes run2 in
      let w3 = put_bit-Flagged e2 bypass n s.sync_bypass low (omega arith) w2.bytes run3 in
      (
        record {
          flags = λ g m a b differ.
              w3.flags g m a b (inr differ)
              ∙ w2.flags g m a b (inr differ)
              ∙ w1.flags g m a b (inr differ);
          others = λ a outside away.
              w3.others a (away bypass) ∙ w2.others a (away rgsb) ∙ w1.others a (away auto);
          bytes = w3.bytes;
          same_size = w3.same_size ∙ w2.same_size ∙ w1.same_size;
          no_loss = λ a h. w1.no_loss a (w2.no_loss a (w3.no_loss a h));
        },
        λ f. elim f as (λ f. flag e' f n ≡ wanted f s) [
          | auto ↦
              w3.flags auto n low (omega arith) (inl (λ t. ground (arith, t)))
              ∙ w2.flags auto n low (omega arith) (inl (λ t. ground (arith, t)))
              ∙ w1.itself
          | rgsb ↦ w3.flags rgsb n low (omega arith) (inl (λ t. ground (arith, t))) ∙ w2.itself
          | bypass ↦ w3.itself
        ],
      )

  codes_run :
      (read e : Eeprom) {e' : Eeprom}
      → plan_codes read inputs n s e ≡ ok e'
      → (length s.ir ≤ ir_slots inputs)
        × (put_codes e n inputs s.ir 0 (slots_written read n inputs s.ir) ≡ e')
  unfolding plan_codes
  codes_run read e run = elim (Bool-cases (ltb (ir_slots inputs) (length s.ir))) [
    | inl t ↦ absurd (ground (arith, rw t at run))
    | inr t ↦ (ground arith, ok-inj (rw t at run))
  ]

  written_bounds :
      (read : Eeprom) (ir : List IrCode)
      → (slots_written read n inputs ir ≤ ir_slots inputs)
        × ((slots_written read n inputs ir ≡ ir_slots inputs)
            ⊎ (length ir < slots_written read n inputs ir))
  unfolding slots_written
  written_bounds read ir = ground arith

  plan_codes-Kept :
      (read e : Eeprom) {e' : Eeprom}
      → AreBytes e
      → size e ≡ 1024
      → All IsCode s.ir
      → plan_codes read inputs n s e ≡ ok e'
      → Kept inputs n e e'
        × ((f : Flag) → flag e' f n ≡ flag e f n)
        × (length s.ir ≤ ir_slots inputs)
        × Holds inputs e' n 0 (ir_slots inputs) s.ir
  plan_codes-Kept read e small full codes run =
      let (fits, done) = codes_run read e run in
      let (within, enough) = written_bounds read s.ir in
      let left = slots_written read n inputs s.ir in
      let flag_kept : (f : Flag) (m : ℕ)
          → flag (put_codes e n inputs s.ir 0 left) f m ≡ flag e f m =
        λ f m. flag_ext e (put_codes e n inputs s.ir 0 left) f m (
          put_codes_outside inputs e n s.ir left (flag_addr f m) within
            (past-IsOutside inputs n (flag_addr f m) high (flag_high f m))) in
      subst
        (λ e'.
          Kept inputs n e e'
          × ((f : Flag) → flag e' f n ≡ flag e f n)
          × (length s.ir ≤ ir_slots inputs)
          × Holds inputs e' n 0 (ir_slots inputs) s.ir)
        done
        (
          record {
            flags = λ g m a b differ. flag_kept g m;
            others = λ a outside away. put_codes_outside inputs e n s.ir left a within outside;
            bytes = put_codes-AreBytes inputs e n s.ir 0 left codes small;
            same_size = size-put_codes inputs e n s.ir 0 left;
            no_loss = put_codes-NoLoss inputs e n s.ir 0 left;
          },
          λ f. flag_kept f n,
          fits,
          put_codes-Holds inputs e n s.ir left high within (omega arith) enough,
        )

  -- The plan for one input sets what is asked for it and leaves all else.
  pub plan_input-Set :
      (read e : Eeprom) {e' : Eeprom}
      → AreBytes e
      → size e ≡ 1024
      → All IsCode s.ir
      → plan_input read inputs n s e ≡ ok e'
      → Kept inputs n e e' × Set inputs n s e'
  plan_input-Set read e small full codes run =
      let (e1, run1, run2) = bind_ok (plan_bits n s e) (plan_codes read inputs n s) run in
      let (kept1, set1) = plan_bits-Kept small run1 in
      let (kept2, same, fits, holds) =
        plan_codes-Kept read e1 kept1.bytes (kept1.same_size ∙ full) codes run2 in
      (
        record {
          flags = λ g m a b differ. kept2.flags g m a b differ ∙ kept1.flags g m a b differ;
          others = λ a outside away. kept2.others a outside away ∙ kept1.others a outside away;
          bytes = kept2.bytes;
          same_size = kept2.same_size ∙ kept1.same_size;
          no_loss = λ a h. kept1.no_loss a (kept2.no_loss a h);
        },
        record { flags = λ f. same f ∙ set1 f; fits = fits; codes = holds },
      )

-- What is set for one input stays so through another's plan.
Set-Kept :
    (inputs n m : ℕ) (s : InputSettings) {e e' : Eeprom}
    → inputs ≤ 32
    → n ≤ inputs
    → 1 ≤ m
    → m ≤ inputs
    → n ≢ m
    → Kept inputs n e e'
    → Set inputs m s e
    → Set inputs m s e'
Set-Kept inputs n m s few a b c differ kept held = record {
  flags = λ f. kept.flags f m b (omega arith) differ ∙ held.flags f;
  fits = held.fits;
  codes = λ j k t i l.
      let (address_out, command_out) = slot-IsOutside inputs n m k a c differ (omega arith) in
      let (address_held, command_held) = held.codes j k t i l in
      (
        kept.others _ address_out
              (λ f e. omega (arith, address-lt inputs m k c (omega arith), flag_high f n))
            ∙ address_held,
        kept.others _ command_out
              (λ f e. omega (arith, command-lt inputs m k c (omega arith), flag_high f n))
            ∙ command_held,
      );
}

-- Every input's codes are codes that the SVS can hold.
abbrev pub AreSettings : List InputSettings → Type 0
AreSettings want = All (λ s. All IsCode (InputSettings.ir s)) want

-- What the plans of the inputs from `n` on leave and set.
pub record Planned (inputs n : ℕ) (want : List InputSettings) (e e' : Eeprom) : Type 0 where
  pub before : (m : ℕ) (s : InputSettings) → 1 ≤ m → m < n → Set inputs m s e → Set inputs m s e'
  pub now :
      (i m : ℕ) (s : InputSettings) → m ≡ n + i → get_elem? want i ≡ some s → Set inputs m s e'
  pub flags : (g : Flag) (m : ℕ) → inputs < m → m ≤ 288 → flag e' g m ≡ flag e g m
  pub others :
      (a : ℕ)
      → 500 ≤ a
      → ((f : Flag) (m : ℕ) → 1 ≤ m → m ≤ inputs → flag_addr f m ≢ a)
      → get_byte e' a ≡ get_byte e a
  pub bytes : AreBytes e'
  pub same_size : size e' ≡ size e
  pub no_loss : NoLoss e e'

pub plan_inputs-Planned :
    (read : Eeprom) (inputs n : ℕ) (want : List InputSettings) (e : Eeprom) {e' : Eeprom}
    → inputs ≤ 32
    → 1 ≤ n
    → n + length want ≡ inputs + 1
    → AreBytes e
    → size e ≡ 1024
    → AreSettings want
    → plan_inputs read inputs n want e ≡ ok e'
    → Planned inputs n want e e'
unfolding plan_inputs
plan_inputs-Planned read inputs n [] e few low count small full codes run =
    subst (Planned inputs n [] e) (ok-inj run) (record {
      before = λ m s a b held. held;
      now = λ i m s t got. absurd (ground (arith, got));
      flags = λ g m a b. refl;
      others = λ a b c. refl;
      bytes = small;
      same_size = refl;
      no_loss = λ a h. h;
    })
plan_inputs-Planned read inputs n (s ∷ want) e {e' = e'} few low count small full (code, codes)
      run =
    let (e1, run1, run2) =
      bind_ok (plan_input read inputs n s e) (plan_inputs read inputs (suc n) want) run in
    let high : n ≤ inputs = omega arith in
    let (kept, held) = plan_input-Set inputs n s low high few read e small full code run1 in
    let rest =
      plan_inputs-Planned read inputs (suc n) want e1 few (omega arith) (omega arith) kept.bytes
        (kept.same_size ∙ full) codes run2 in
    record {
      before = λ m t a b was.
          rest.before m t a (omega arith)
            (Set-Kept inputs n m t few high a (omega arith) (λ x. omega arith) kept was);
      now = λ i.
          elim i
            as (λ i.
              (m : ℕ) (t : InputSettings)
              → m ≡ n + i
              → get_elem? (s ∷ want) i ≡ some t
              → Set inputs m t e') [
                | zero ↦ λ m t place got.
                    let here : m ≡ n = omega arith in
                    let same : s ≡ t = some-inj got in
                    rw here
                      (subst (λ t. Set inputs n t e') same (rest.before n s low (omega arith) held))
                | suc j ↦ λ m t place got. rest.now j m t (omega arith) got
              ];
      flags = λ g m a b. rest.flags g m a b ∙ kept.flags g m (omega arith) b (λ x. omega arith);
      others = λ a far away.
          rest.others a far away
          ∙ kept.others a (past-IsOutside inputs n a high far) (λ f. away f n low high);
      bytes = rest.bytes;
      same_size = rest.same_size ∙ kept.same_size;
      no_loss = λ a h. kept.no_loss a (rest.no_loss a h);
    }
