-- ===== src/Settings/Asking.antt =====
-- platform/esp32/main/svs_settings.cpp: the questions to the SVS, and why a read cannot start; of
-- core/svs_config.h what a firmware's banner and the answers of a transcoder say.
use svs_bridge.Base.{
  ℕ, zero, suc, ◌+◌, ◌-◌, ◌*◌, Bool, true, false, not, ◌&&◌, ◌||◌, List, [], ◌∷◌, Option, none,
  some, ltb, leb, ◌==◌, if◌then◌else◌, length, drop,
}
use svs_bridge.Base.Int.{ℤ, pos, negsuc}
use svs_bridge.Base.Text.{codes}
use svs_bridge.Protocol.{is_digit, starts_with}
use svs_bridge.Config.{max_inputs}
use svs_bridge.Config.Commands.{parse_byte_reply}
use svs_bridge.Flasher.{EspErr, is_ok}
use svs_bridge.Settings.{
  Port, Ctx, Outcome, done, gave_up, no_answer, answer_timeout_ms, attempts, tx_settle_line_ms,
}

-- What one question gives: a byte, where it was answered with one.
abbrev pub answer_of : EspErr × List ℕ → Option ℕ
answer_of (err, answer) = if is_ok err then parse_byte_reply answer else none

abbrev pub or_again : {W : Type 0} → Option ℕ → W → (W → Option ℕ × W) → Option ℕ × W
or_again none w again = again w
or_again (some v) w again = (some v, w)

-- `left` attempts of the question `ask`.
unfoldable pub ask_left : {W : Type 0} → (W → (EspErr × List ℕ) × W) → ℕ → W → Option ℕ × W
ask_left ask zero w = (none, w)
ask_left ask (suc left) w = or_again (answer_of (ask w).0) (ask w).1 (ask_left ask left)

module _ {W : Type 0} (port : Port W) where
  abbrev pub ask_byte : List ℕ → W → Option ℕ × W
  ask_byte cmd = ask_left (port.query cmd answer_timeout_ms) attempts

  abbrev pub ask_transcoder : List ℕ → W → Option ℕ × W
  ask_transcoder cmd = ask_left (port.query_last cmd answer_timeout_ms tx_settle_line_ms) attempts

-- A question whose answer the task cannot do without.
abbrev pub needed : {W : Type 0} → List ℕ → Option ℕ × W → Ctx W → Outcome W ℕ
needed cmd (none, w) c = gave_up (no_answer cmd) (record c { world = w })
needed cmd (some v, w) c = done v (record c { world = w })

unfoldable pub need_byte : {W : Type 0} → Port W → List ℕ → Ctx W → Outcome W ℕ
need_byte port cmd c = needed cmd (ask_byte port cmd c.world) c

unfoldable pub need_transcoder : {W : Type 0} → Port W → List ℕ → Ctx W → Outcome W ℕ
need_transcoder port cmd c = needed cmd (ask_transcoder port cmd c.world) c

-- The number of a firmware from what sscanf found in its banner.
abbrev pub version_of : Option (ℤ × ℕ × ℤ) → Option ℕ
version_of none = none
version_of (some (pos major, dot, pos minor)) =
    if not (dot == b'.') || ltb 99 minor then none else some (major * 100 + minor)
version_of (some (pos major, dot, negsuc minor)) = none
version_of (some (negsuc major, dot, minor)) = none

-- -1 is `none`; the version's numbers do not overflow an `int`.
unfoldable pub firmware_number : (List ℕ → Option (ℤ × ℕ × ℤ)) → List ℕ → Option ℕ
firmware_number scan banner =
    if starts_with (codes "SVS_FW_") banner then version_of (scan (drop 7 banner)) else none

abbrev pub min_firmware : ℕ
min_firmware = 120

pub data Blocker : Type 0 where
  clear not_connected no_firmware old_firmware no_inputs updating : Blocker

abbrev pub is_clear : Blocker → Bool
is_clear Blocker.clear = true
is_clear Blocker.not_connected = false
is_clear Blocker.no_firmware = false
is_clear Blocker.old_firmware = false
is_clear Blocker.no_inputs = false
is_clear Blocker.updating = false

-- `fw < MIN_FIRMWARE`
abbrev pub is_old : Option ℕ → Bool
is_old none = true
is_old (some fw) = ltb fw min_firmware

abbrev pub in_range : Option ℕ → Bool
in_range none = false
in_range (some n) = leb 1 n && leb n max_inputs

unfoldable pub read_blocker : {W : Type 0} → Port W → W → Blocker
read_blocker port w =
    let i = port.info w in
    if not (port.is_connected w)
    then Blocker.not_connected
    else if length i.firmware == 0
    then Blocker.no_firmware
    else if is_old (firmware_number port.scan_version i.firmware)
    then Blocker.old_firmware
    else if not (in_range i.total_inputs)
    then Blocker.no_inputs
    else if port.flasher_busy w
    then Blocker.updating
    else Blocker.clear

abbrev tenfold : Option ℕ → ℕ
tenfold none = 0
tenfold (some v) = v * 10

-- One character of a line of numbers: the number so far, and whether something else was in it. The
-- number does not overflow an `int`.
abbrev pub line_step : Option ℕ × Bool → ℕ → Option ℕ × Bool
line_step (v, other) c =
    if is_digit c
    then (some (tenfold v + (c - b'0')), other)
    else (v, other || not (c == b' ' || (c == 13 || c == 10)))

unfoldable pub line_value : Option ℕ × Bool → List ℕ → Option ℕ × Bool
line_value acc [] = acc
line_value acc (c ∷ cs) = line_value (line_step acc c) cs

abbrev pub newer : Option ℕ × Bool → Option ℕ → Option ℕ
newer (none, other) value = value
newer (some v, true) value = value
newer (some v, false) value = if leb v 255 then some v else value

unfoldable pub last_value : Option ℕ → List (List ℕ) → Option ℕ
last_value value [] = value
last_value value (l ∷ lines) = last_value (newer (line_value (none, false) l) value) lines

abbrev pub transcoder_value : List (List ℕ) → Option ℕ
transcoder_value = last_value none
