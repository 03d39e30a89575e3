-- ===== src/Config.antt =====
-- core/svs_config.h: the settings of the SVS in its EEPROM. A byte that was not read, -1 in the code,
-- is `none`; addresses are natural numbers, as every input is at least 1.
pub mod Bytes
pub mod Flags
pub mod Slots
pub mod Changes
pub mod Plans
pub mod Success
pub mod Writes
pub mod Commands
pub mod Addresses
mod Tests
use svs_bridge.Base.{
  ℕ, zero, suc, max, min, ◌+◌, ◌-◌, ◌*◌, ◌/◌, ◌%◌, ◌^◌, bit_and, bit_or, Bool, true, false, not,
  ◌&&◌, ◌||◌, List, [], ◌∷◌, Option, none, some, ltb, leb, ◌==◌, if◌then◌else◌, length, get_elem?,
  set,
}

abbrev pub ir_command_offset : ℕ
ir_command_offset = 250

abbrev pub ir_region : ℕ
ir_region = 250

abbrev pub ir_empty : ℕ
ir_empty = 0xFF

abbrev pub auto_profile_base : ℕ
auto_profile_base = 513

abbrev pub rgsb_base : ℕ
rgsb_base = 550

abbrev pub sync_bypass_base : ℕ
sync_bypass_base = 590

abbrev pub scart_v3_base : ℕ
scart_v3_base = 630

abbrev pub vga_v3_base : ℕ
vga_v3_base = 670

abbrev pub tx_rgb_to_ypbpr : ℕ
tx_rgb_to_ypbpr = 710

abbrev pub tx_ypbpr_to_rgb : ℕ
tx_ypbpr_to_rgb = 711

abbrev pub max_inputs : ℕ
max_inputs = 32

pub record Bit : Type 0 where
  pub addr : ℕ
  pub mask : ℕ

-- `input` is 1-based.
abbrev pub bit_of : ℕ → ℕ → Bit
bit_of base input = record { addr = base + (input - 1) / 8; mask = 2 ^ ((input - 1) % 8) }

unfoldable pub with_bit : ℕ → ℕ → Bool → ℕ
with_bit byte mask on = if on then bit_or byte mask else bit_and byte (255 - mask)

unfoldable pub ir_slots : ℕ → ℕ
ir_slots inputs = if ltb 0 inputs then ir_region / (inputs + 1) else 0

unfoldable pub ir_address_addr : ℕ → ℕ → ℕ → ℕ
ir_address_addr input slot inputs = input + slot * (inputs + 1)

unfoldable pub ir_command_addr : ℕ → ℕ → ℕ → ℕ
ir_command_addr input slot inputs = ir_address_addr input slot inputs + ir_command_offset

pub record IrCode : Type 0 where
  pub address : ℕ
  pub command : ℕ

pub record InputSettings : Type 0 where
  pub auto_profile : Bool
  pub rgsb : Bool
  pub sync_bypass : Bool
  pub rgb_to_ypbpr : Bool
  pub ypbpr_to_rgb : Bool
  pub ir : List IrCode

pub record Hardware : Type 0 where
  pub tx_rgb : Bool
  pub tx_ypbpr : Bool
  pub scart_v3 : List Bool
  pub vga_v3 : List Bool

pub record Eeprom : Type 0 where
  pub bytes : List (Option ℕ)

abbrev known : Option (Option ℕ) → Option ℕ
known none = none
known (some v) = v

unfoldable pub get_byte : Eeprom → ℕ → Option ℕ
get_byte e addr = known (get_elem? e.bytes addr)

unfoldable pub set_byte : Eeprom → ℕ → ℕ → Eeprom
set_byte e addr v = record { bytes = set e.bytes addr (some v) }

abbrev pub is_set : Option ℕ → ℕ → Bool
is_set none mask = false
is_set (some v) mask = not (bit_and v mask == 0)

abbrev pub flip_if : Bool → Bool → Bool
flip_if active_low on = if active_low then not on else on

unfoldable pub get_bit : Eeprom → ℕ → ℕ → Bool → Bool
get_bit e base input active_low =
    flip_if active_low
      (is_set (get_byte e (Bit.addr (bit_of base input))) (Bit.mask (bit_of base input)))

abbrev is_zero : Option ℕ → Bool
is_zero none = false
is_zero (some v) = v == 0

-- The flags of the inputs from `n` on.
abbrev pub bits_from : Eeprom → ℕ → ℕ → ℕ → List Bool
bits_from e base n zero = []
bits_from e base n (suc left) = get_bit e base n true ∷ bits_from e base (suc n) left

unfoldable pub decode_hardware : Eeprom → ℕ → Hardware
decode_hardware e inputs = record {
  tx_rgb = is_zero (get_byte e tx_rgb_to_ypbpr);
  tx_ypbpr = is_zero (get_byte e tx_ypbpr_to_rgb);
  scart_v3 = bits_from e scart_v3_base 1 inputs;
  vga_v3 = bits_from e vga_v3_base 1 inputs;
}

-- What one slot holds: nothing where the code's loop breaks.
abbrev pub slot_code : Option ℕ → Option ℕ → Option IrCode
slot_code none c = none
slot_code (some a) none = none
slot_code (some a) (some c) =
    if a == ir_empty then none else some (record { address = a % 256; command = c % 256 })

abbrev pub read_slot : Eeprom → ℕ → ℕ → ℕ → Option IrCode
read_slot e input k inputs =
    slot_code (get_byte e (ir_address_addr input k inputs))
      (get_byte e (ir_command_addr input k inputs))

abbrev pub push_code : Option IrCode → List IrCode → List IrCode
push_code none rest = []
push_code (some code) rest = code ∷ rest

-- The codes from slot `k` on, `left` slots at most.
unfoldable pub codes_from : Eeprom → ℕ → ℕ → ℕ → ℕ → List IrCode
codes_from e input inputs k zero = []
codes_from e input inputs k (suc left) =
    let rest = codes_from e input inputs (suc k) left in push_code (read_slot e input k inputs) rest

unfoldable pub decode_input : Eeprom → ℕ → ℕ → InputSettings → InputSettings
decode_input e input inputs s = record s {
  auto_profile = get_bit e auto_profile_base input false;
  rgsb = get_bit e rgsb_base input true;
  sync_bypass = get_bit e sync_bypass_base input false;
  ir = codes_from e input inputs 0 (ir_slots inputs);
}

pub data PlanError : Type 0 where
  mismatch : ℕ → PlanError
  not_read : PlanError
  too_many : ℕ → ℕ → ℕ → ℕ → PlanError

pub data Plan {ℓ} (A : Type ℓ) : Type ℓ where
  ok : A → Plan A
  refused : PlanError → Plan A

infixl 5 ◌>>=◌
abbrev pub ◌>>=◌ {ℓ κ} : {A : Type ℓ} {B : Type κ} → Plan A → (A → Plan B) → Plan B
ok a >>= f = f a
refused e >>= f = refused e

abbrev pub put_at : Eeprom → Bit → Bool → Option ℕ → Plan Eeprom
put_at out b on none = refused not_read
put_at out b on (some v) = ok (set_byte out b.addr (with_bit (v % 256) b.mask on))

unfoldable pub put_bit : Eeprom → ℕ → ℕ → Bool → Bool → Plan Eeprom
put_bit out base input on active_low =
    put_at out (bit_of base input) (flip_if active_low on)
      (get_byte out (Bit.addr (bit_of base input)))

abbrev pub empty_slot : IrCode
empty_slot = record { address = ir_empty; command = ir_empty }

abbrev pub code_or_empty : Option IrCode → IrCode
code_or_empty none = empty_slot
code_or_empty (some code) = code

unfoldable pub code_at : List IrCode → ℕ → IrCode
code_at ir k = code_or_empty (get_elem? ir k)

-- The slots from `k` on, `left` of them.
unfoldable pub put_codes : Eeprom → ℕ → ℕ → List IrCode → ℕ → ℕ → Eeprom
put_codes out n inputs ir k zero = out
put_codes out n inputs ir k (suc left) =
    put_codes
      (set_byte (set_byte out (ir_address_addr n k inputs) (IrCode.address (code_at ir k)))
        (ir_command_addr n k inputs) (IrCode.command (code_at ir k)))
      n inputs ir (suc k) left

-- How many slots of input `n` are written: its codes and one more, or as many as were read.
unfoldable pub slots_written : Eeprom → ℕ → ℕ → List IrCode → ℕ
slots_written read n inputs ir =
    min (max (length ir + 1) (length (codes_from read n inputs 0 (ir_slots inputs)) + 1))
      (ir_slots inputs)

unfoldable pub plan_bits : ℕ → InputSettings → Eeprom → Plan Eeprom
plan_bits n s out = put_bit out auto_profile_base n s.auto_profile false >>= (λ out1.
    put_bit out1 rgsb_base n s.rgsb true
    >>= (λ out2. put_bit out2 sync_bypass_base n s.sync_bypass false))

unfoldable pub plan_codes : Eeprom → ℕ → ℕ → InputSettings → Eeprom → Plan Eeprom
plan_codes read inputs n s out =
    if ltb (ir_slots inputs) (length s.ir)
    then refused (too_many n (length s.ir) inputs (ir_slots inputs))
    else ok (put_codes out n inputs s.ir 0 (slots_written read n inputs s.ir))

abbrev pub plan_input : Eeprom → ℕ → ℕ → InputSettings → Eeprom → Plan Eeprom
plan_input read inputs n s out = plan_bits n s out >>= plan_codes read inputs n s

unfoldable pub plan_inputs : Eeprom → ℕ → ℕ → List InputSettings → Eeprom → Plan Eeprom
plan_inputs read inputs n [] out = ok out
plan_inputs read inputs n (s ∷ want) out =
    plan_input read inputs n s out >>= plan_inputs read inputs (suc n) want

abbrev pub differs : Option ℕ → Option ℕ → Bool
differs none r = false
differs (some v) none = true
differs (some v) (some r) = not (v == r)

abbrev pub value : Option ℕ → ℕ
value none = 0
value (some v) = v % 256

-- The bytes that changed, from address `a` on.
unfoldable pub changes : ℕ → List (Option ℕ) → List (Option ℕ) → List (ℕ × ℕ)
changes a [] read = []
changes a (o ∷ out) [] = []
changes a (o ∷ out) (r ∷ read) =
    let rest = changes (suc a) out read in if differs o r then (a, value o) ∷ rest else rest

unfoldable pub plan_writes : Eeprom → List InputSettings → ℕ → Plan (List (ℕ × ℕ))
plan_writes read want inputs =
    if not (length want == inputs) || ltb inputs 1 || ltb max_inputs inputs
    then refused (mismatch inputs)
    else plan_inputs read inputs 1 want read >>= (λ out. ok (changes 0 out.bytes read.bytes))
