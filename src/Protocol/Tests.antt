-- ===== src/Protocol/Tests.antt =====
-- Lines of the SVS, after tests/test_svs_protocol.cpp, and the theorems at lines that meet their hypotheses.
use svs_bridge.Base.{same_bytes, ℕ, ◌≡◌, ◌↔◌, refl, true, false, List, [], ◌∷◌}
use svs_bridge.Base.Text.{codes}
use svs_bridge.Protocol.{
  is_digit, find_last, digits_value, atoi, number, absent, undefined, trailing_number, starts_with,
  firmware, input_change, parse_svs_line, only_control_chars, is_repeated,
}
use svs_bridge.Protocol.History.{after, Repeats, is_repeated_iff}

abbrev total_line : List ℕ
total_line = codes "SVS TOTAL INPUTS=8"

abbrev new_line : List ℕ
new_line = codes "SVS NEW INPUT=4"

parse-new : parse_svs_line new_line ≡ record { kind = input_change; value = number 4 }
unfolding parse_svs_line starts_with trailing_number find_last is_digit atoi digits_value
parse-new = refl

parse-banner : parse_svs_line (codes "SVS_FW_1.21") ≡ record { kind = firmware; value = absent }
unfolding parse_svs_line starts_with trailing_number find_last is_digit atoi digits_value
parse-banner = refl

trailing-overflow : trailing_number (codes "n=2147483648") ≡ undefined
unfolding trailing_number find_last is_digit atoi digits_value
trailing-overflow = refl

control-lone : only_control_chars (codes "<1A>") ≡ true
unfolding only_control_chars
control-lone = refl

repeated-total : (is_repeated (after (new_line ∷ total_line ∷ [])) total_line).0 ≡ true
unfolding is_repeated starts_with same_bytes
repeated-total = refl

repeated_past_banner :
    (is_repeated (after (codes "SVS_FW_1.21" ∷ total_line ∷ [])) total_line).0 ≡ false
unfolding is_repeated starts_with same_bytes
repeated_past_banner = refl

is_repeated_iff_example :
    ((is_repeated (after (new_line ∷ total_line ∷ [])) total_line).0 ≡ true)
    ↔ Repeats (new_line ∷ total_line ∷ []) total_line
is_repeated_iff_example = is_repeated_iff (new_line ∷ total_line ∷ []) total_line
