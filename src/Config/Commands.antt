-- ===== src/Config/Commands.antt =====
-- core/svs_config.h: the serial commands that read and write the EEPROM, the SVS's answer to a read,
-- and the addresses that are read.
use svs_bridge.Base.{
  ℕ, zero, suc, ◌+◌, ◌-◌, ◌*◌, ◌/◌, ◌%◌, ◌≤◌, ◌<◌, ◌≡◌, refl, sym, ap, ◌∙◌, ◌⊎◌, Bool, true, false,
  inl, inr, List, [], ◌∷◌, ◌++◌, Option, none, some, arith, ltb, ◌==◌, if◌then◌else◌, Bool-cases,
  length, take, drop, replicate,
}
use svs_bridge.Base.Bits.{below_all, below_all-true}
use svs_bridge.Base.Text.{codes}
use svs_bridge.Protocol.{is_digit, digits_value, starts_with}
use svs_bridge.Config.{
  auto_profile_base, rgsb_base, sync_bypass_base, scart_v3_base, vga_v3_base, tx_rgb_to_ypbpr,
  tx_ypbpr_to_rgb,
}

-- The decimal digits of `n`, before `acc`: `n + 1` rounds are enough.
unfoldable pub decimal_from : ℕ → ℕ → List ℕ → List ℕ
decimal_from zero n acc = acc
decimal_from (suc fuel) n acc =
    let rest = decimal_from fuel (n / 10) ((b'0' + n % 10) ∷ acc) in
    if ltb n 10 then (b'0' + n) ∷ acc else rest

abbrev pub decimal : ℕ → List ℕ
decimal n = decimal_from (n + 1) n []

-- `%03u`
abbrev pub three_digits : ℕ → List ℕ
three_digits n = replicate (3 - length (decimal n)) b'0' ++ decimal n

unfoldable pub read_command : ℕ → List ℕ
read_command addr = b'R' ∷ decimal addr

unfoldable pub write_command : ℕ → ℕ → List ℕ
write_command addr value = b'W' ∷ three_digits value ++ three_digits addr

-- The number so far and whether it has a digit, after one more byte: none past 255.
abbrev pub reply_step : ℕ → Bool → ℕ → Option (ℕ × Bool)
reply_step value any c =
    if is_digit c
    then (if ltb 255 (value * 10 + (c - b'0')) then none else some (value * 10 + (c - b'0'), true))
    else some (value, any)

abbrev go_on : Option (ℕ × Bool) → (ℕ → Bool → Option ℕ) → Option ℕ
go_on none f = none
go_on (some (value, any)) f = f value any

unfoldable pub reply_from : ℕ → Bool → List ℕ → Option ℕ
reply_from value any [] = if any then some value else none
reply_from value any (c ∷ cs) =
    go_on (reply_step value any c) (λ value' any'. reply_from value' any' cs)

unfoldable pub parse_byte_reply : List ℕ → Option ℕ
parse_byte_reply line = if starts_with (codes "SVS") line then none else reply_from 0 false line

abbrev pub bytes_from : ℕ → ℕ → List ℕ
bytes_from addr zero = []
bytes_from addr (suc left) = addr ∷ bytes_from (suc addr) left

abbrev pub bitmap_bytes : ℕ → ℕ
bitmap_bytes inputs = (inputs + 7) / 8

unfoldable pub bitmap_addresses : ℕ → List ℕ
bitmap_addresses inputs =
    bytes_from auto_profile_base (bitmap_bytes inputs)
    ++ (bytes_from rgsb_base (bitmap_bytes inputs)
        ++ (bytes_from sync_bypass_base (bitmap_bytes inputs)
            ++ (bytes_from scart_v3_base (bitmap_bytes inputs)
                ++ (bytes_from vga_v3_base (bitmap_bytes inputs)
                    ++ (tx_rgb_to_ypbpr ∷ tx_ypbpr_to_rgb ∷ [])))))

pub digits_value-decimal_from :
    (fuel n : ℕ) (acc : List ℕ)
    → n < fuel
    → digits_value 0 (decimal_from fuel n acc) ≡ digits_value n acc
unfolding decimal_from digits_value
digits_value-decimal_from zero n acc h = absurd (omega arith)
digits_value-decimal_from (suc fuel) n acc h = elim (Bool-cases (ltb n 10)) [
  | inl t ↦ rw t (ap (λ k. digits_value k acc) (omega arith))
  | inr t ↦ rw t (
      digits_value-decimal_from fuel (n / 10) ((b'0' + n % 10) ∷ acc) (ground arith)
      ∙ ap (λ k. digits_value k acc) (omega arith))
]

digits_value-zeros :
    (k : ℕ) (ds : List ℕ) → digits_value 0 (replicate k b'0' ++ ds) ≡ digits_value 0 ds
unfolding digits_value
digits_value-zeros zero ds = refl
digits_value-zeros (suc k) ds = digits_value-zeros k ds

digits_value-three_digits : (n : ℕ) → digits_value 0 (three_digits n) ≡ n
unfolding digits_value
digits_value-three_digits n =
    digits_value-zeros (3 - length (decimal n)) (decimal n)
    ∙ digits_value-decimal_from (n + 1) n [] (omega arith)

three_table : below_all 256 (λ n. length (three_digits n) == 3) ≡ true
unfolding below_all decimal_from
three_table = refl

length-three_digits : (n : ℕ) → n < 256 → length (three_digits n) ≡ 3
length-three_digits n h =
    ground (arith, below_all-true 256 (λ n. length (three_digits n) == 3) n h three_table)

take_first : (bs cs : List ℕ) → length bs ≡ 3 → (take 3 (bs ++ cs) ≡ bs) × (drop 3 (bs ++ cs) ≡ cs)
take_first [] cs h = absurd (omega arith)
take_first (a ∷ []) cs h = absurd (omega arith)
take_first (a ∷ b ∷ []) cs h = absurd (omega arith)
take_first (a ∷ b ∷ c ∷ []) cs h = (refl, refl)
take_first (a ∷ b ∷ c ∷ d ∷ bs) cs h = absurd (omega arith)

-- The SVS takes the first three digits after the W as the value and the rest as the address:
-- from the command that writes a byte, it takes that byte and that address, whatever the address.
pub write_command_fields :
    (addr value : ℕ)
    → value < 256
    → (take 1 (write_command addr value) ≡ b'W' ∷ [])
      × (digits_value 0 (take 3 (drop 1 (write_command addr value))) ≡ value)
      × (digits_value 0 (drop 3 (drop 1 (write_command addr value))) ≡ addr)
unfolding write_command
write_command_fields addr value small =
    let (first, rest) =
      take_first (three_digits value) (three_digits addr) (length-three_digits value small) in
    (
      refl,
      ap (digits_value 0) first ∙ digits_value-three_digits value,
      ap (digits_value 0) rest ∙ digits_value-three_digits addr,
    )

abbrev pub digits_in : List ℕ → List ℕ
digits_in [] = []
digits_in (c ∷ cs) = let rest = digits_in cs in if is_digit c then c ∷ rest else rest

-- A number as an answer: none past a byte.
abbrev pub as_byte : ℕ → Option ℕ
as_byte n = if ltb 255 n then none else some n

digits_value_grows : (n : ℕ) (ds : List ℕ) → n ≤ digits_value n ds
unfolding digits_value
digits_value_grows n [] = omega arith
digits_value_grows n (d ∷ ds) = omega (arith, digits_value_grows (n * 10 + (d - b'0')) ds)

-- The digits of a line, all of them, as one number, if there are any.
abbrev pub answer : ℕ → Bool → List ℕ → Option ℕ
answer n any [] = if any then as_byte n else none
answer n any (d ∷ ds) = as_byte (digits_value n (d ∷ ds))

answer_number : (n : ℕ) (ds : List ℕ) → answer n true ds ≡ as_byte (digits_value n ds)
unfolding digits_value
answer_number n [] = refl
answer_number n (d ∷ ds) = refl

reply_from-answer :
    (n : ℕ) (any : Bool) (cs : List ℕ) → n ≤ 255 → reply_from n any cs ≡ answer n any (digits_in cs)
unfolding reply_from digits_value
reply_from-answer n true [] small = let test : ltb 255 n ≡ false = ground arith in rw test refl
reply_from-answer n false [] small = refl
reply_from-answer n any (c ∷ cs) small = elim (Bool-cases (is_digit c)) [
  | inr f ↦ rw f (reply_from-answer n any cs small)
  | inl t ↦
      let m : ℕ = n * 10 + (c - b'0') in
      elim (Bool-cases (ltb 255 m)) [
        | inl e ↦
            let past : ltb 255 (digits_value m (digits_in cs)) ≡ true =
              ground (arith, digits_value_grows m (digits_in cs)) in
            rw (t, e)
              (ap (λ b. if b then none else some (digits_value m (digits_in cs))) (sym past))
        | inr e ↦
            rw (t, e) (reply_from-answer m true cs (ground arith) ∙ answer_number m (digits_in cs))
      ]
]

-- `parse_byte_reply` takes no status line for an answer; of any other line it takes all the digits,
-- wherever they stand, as one number, and refuses it if there is none or it is not a byte.
pub parse_byte_reply-answer :
    (line : List ℕ)
    → ((starts_with (codes "SVS") line ≡ true) × (parse_byte_reply line ≡ none))
      ⊎ ((starts_with (codes "SVS") line ≡ false)
          × (parse_byte_reply line ≡ answer 0 false (digits_in line)))
unfolding parse_byte_reply
parse_byte_reply-answer line = elim (Bool-cases (starts_with (codes "SVS") line)) [
  | inl t ↦ inl (t, rw t refl)
  | inr f ↦ inr (f, rw f (reply_from-answer 0 false line (omega arith)))
]
