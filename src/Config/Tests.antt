-- ===== src/Config/Tests.antt =====
-- Settings of two inputs, after tests/test_svs_config.cpp, and the theorems at inputs that meet their hypotheses.
use svs_bridge.Base.{
  ℕ, zero, suc, ◌≤◌, ◌<◌, ◌≡◌, ◌≢◌, refl, true, false, List, [], ◌∷◌, none, some, arith, replicate,
}
use svs_bridge.Config.{
  Eeprom, get_byte, set_byte, with_bit, ir_slots, ir_address_addr, ir_command_addr, InputSettings,
  ok, refused, put_bit, put_codes, code_at, slots_written, plan_bits, plan_codes, plan_inputs,
  plan_writes, changes, codes_from, decode_input, not_read, mismatch,
}
use svs_bridge.Base.{◌⊎◌}
use svs_bridge.Base.Text.{codes}
use svs_bridge.Protocol.{is_digit, starts_with}
use svs_bridge.Config.Commands.{
  decimal_from, write_command, parse_byte_reply, reply_from, answer, digits_in,
  parse_byte_reply-answer,
}
use svs_bridge.Config.Bytes.{AreBytes}
use svs_bridge.Config.Flags.{Flag, flag, flag_addr}
use svs_bridge.Config.Changes.{write_all}
use svs_bridge.Config.Plans.{AreSettings}
use svs_bridge.Config.Success.{IsRead, plan_writes_succeeds}
use svs_bridge.Config.Writes.{stored, decode_input-plan_writes, plan_writes_keeps}

-- An EEPROM that holds no codes and every flag at 1.
abbrev fresh : Eeprom
fresh = record { bytes = replicate 1024 (some 255) }

abbrev first : InputSettings
first = record {
  auto_profile = false;
  rgsb = false;
  sync_bypass = true;
  rgb_to_ypbpr = false;
  ypbpr_to_rgb = false;
  ir = record { address = 4; command = 8 } ∷ [];
}

abbrev second : InputSettings
second = record {
  auto_profile = true;
  rgsb = false;
  sync_bypass = false;
  rgb_to_ypbpr = true;
  ypbpr_to_rgb = false;
  ir = [];
}

abbrev want : List InputSettings
want = first ∷ second ∷ []

abbrev writes : List (ℕ × ℕ)
writes = (1, 4) ∷ (251, 8) ∷ (513, 254) ∷ (590, 253) ∷ []

plan_writes-fresh : plan_writes fresh want 2 ≡ ok writes
unfolding plan_writes plan_inputs plan_bits plan_codes slots_written put_codes code_at put_bit
    set_byte get_byte with_bit ir_slots ir_address_addr ir_command_addr codes_from changes
plan_writes-fresh = refl

plan_writes_unread : plan_writes (record { bytes = replicate 1024 none }) want 2 ≡ refused not_read
unfolding plan_writes plan_inputs plan_bits put_bit get_byte
plan_writes_unread = refl

plan_writes_mismatch : plan_writes fresh want 3 ≡ refused (mismatch 3)
unfolding plan_writes
plan_writes_mismatch = refl

replicate-known :
    (n v a w : ℕ) → get_byte (record { bytes = replicate n (some v) }) a ≡ some w → v ≡ w
unfolding get_byte
replicate-known zero v a w h = absurd (ground (arith, h))
replicate-known (suc n) v zero w h = ground (arith, h)
replicate-known (suc n) v (suc a) w h = replicate-known n v a w h

fresh-AreBytes : AreBytes fresh
fresh-AreBytes a v h = omega (arith, replicate-known 1024 255 a v h)

replicate-inside : (n v a : ℕ) → a < n → get_byte (record { bytes = replicate n (some v) }) a ≢ none
unfolding get_byte
replicate-inside zero v a h e = absurd (omega arith)
replicate-inside (suc n) v zero h e = ground (arith, e)
replicate-inside (suc n) v (suc a) h e = replicate-inside n v a (omega arith) e

fresh-IsRead : IsRead fresh 2
fresh-IsRead Flag.auto m a b = replicate-inside 1024 255 (flag_addr Flag.auto m) (omega arith)
fresh-IsRead Flag.rgsb m a b = replicate-inside 1024 255 (flag_addr Flag.rgsb m) (omega arith)
fresh-IsRead Flag.bypass m a b = replicate-inside 1024 255 (flag_addr Flag.bypass m) (omega arith)

want-AreSettings : AreSettings want
want-AreSettings = (((omega arith, omega arith, λ e. omega arith), tt), (tt, tt))

decode_input-plan_writes_example :
    decode_input (write_all writes fresh) (suc 0) 2 second ≡ stored first second
decode_input-plan_writes_example =
    decode_input-plan_writes fresh want 2 refl fresh-AreBytes want-AreSettings plan_writes-fresh 0
      first second refl

plan_writes_keeps_example :
    ((f : Flag) (m : ℕ) → 2 < m → m ≤ 288 → flag (write_all writes fresh) f m ≡ flag fresh f m)
    × ((a : ℕ)
        → 500 ≤ a
        → a < 1024
        → ((f : Flag) (m : ℕ) → 1 ≤ m → m ≤ 2 → flag_addr f m ≢ a)
        → get_byte (write_all writes fresh) a ≡ get_byte fresh a)
plan_writes_keeps_example =
    plan_writes_keeps fresh want 2 refl fresh-AreBytes want-AreSettings plan_writes-fresh

plan_writes_succeeds_example : (ws : List (ℕ × ℕ)) × (plan_writes fresh want 2 ≡ ok ws)
unfolding ir_slots
plan_writes_succeeds_example =
    plan_writes_succeeds fresh want 2 refl fresh-AreBytes want-AreSettings (omega arith)
      (omega arith) refl (omega arith, (omega arith, tt)) fresh-IsRead

command-fresh : write_command 513 8 ≡ codes "W008513"
unfolding write_command decimal_from
command-fresh = refl

reply-digits : parse_byte_reply (codes " 1 2\r") ≡ some 12
unfolding parse_byte_reply reply_from is_digit starts_with
reply-digits = refl

reply-status : parse_byte_reply (codes "SVS CURRENT INPUT=1") ≡ none
unfolding parse_byte_reply reply_from is_digit starts_with
reply-status = refl

parse_byte_reply-answer_example :
    ((starts_with (codes "SVS") (codes "a4") ≡ true) × (parse_byte_reply (codes "a4") ≡ none))
    ⊎ ((starts_with (codes "SVS") (codes "a4") ≡ false)
        × (parse_byte_reply (codes "a4") ≡ answer 0 false (digits_in (codes "a4"))))
parse_byte_reply-answer_example = parse_byte_reply-answer (codes "a4")
