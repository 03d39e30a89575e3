-- ===== src/Settings/Tests.antt =====
-- svs_settings.cpp at work on the SVS of Svs.antt: its settings are read, a write is started, and carried
-- out.
use svs_bridge.Base.{ℕ, ◌≤◌, ◌≡◌, refl, true, false, List, [], ◌∷◌, some, arith}
use svs_bridge.Base.Text.{codes}
use svs_bridge.Protocol.{digits_value, starts_with, is_digit}
use svs_bridge.Config.{
  InputSettings, get_byte, set_byte, get_bit, ir_slots, ir_address_addr, ir_command_addr,
  decode_hardware, decode_input, ok, plan_writes,
}
use svs_bridge.Config.Commands.{
  decimal_from, parse_byte_reply, reply_from, read_command, bitmap_addresses,
}
use svs_bridge.Config.Plans.{AreSettings}
use svs_bridge.Flasher.{EspErr}
use svs_bridge.Settings.{Port}
use svs_bridge.Settings.Writing.{
  tx_changes, send_write, send_writes, check_write, check_writes, wait_for_input, set_transcoder,
  put_at, set_transcoders, change_transcoders, write_rest, write_settings,
}
use svs_bridge.Config.{
  with_bit, codes_from, put_bit, code_at, put_codes, slots_written, plan_bits, plan_codes,
  plan_inputs, changes,
}
use svs_bridge.Config.Commands.{write_command}
use svs_bridge.Settings.{
  Task, Read, State, initial, Ctx, Info, no_read, new_settings, set_phase, finish, keep_read,
}
use svs_bridge.Settings.Asking.{
  ask_left, need_byte, need_transcoder, firmware_number, read_blocker, line_value, last_value,
  transcoder_value,
}
use svs_bridge.Settings.Reading.{
  count, read_byte, read_bytes, log_transcoder, log_transcoders, read_transcoder, read_input_tx,
  read_transcoders, read_slots, read_codes, decode_inputs, read_rest, read_settings, read_task,
}
use svs_bridge.Settings.Writing.{write_task}
use svs_bridge.Settings.Api.{
  claim, start_task, snapshot, start_read, keep_inputs, begin_write, start_write,
}
use svs_bridge.Settings.Law.{Contents, dump}
use svs_bridge.Settings.Truth.{ReadEnd, read_task-IsReadOf}
use svs_bridge.Settings.Started.{IsStarted, start_write-IsStarted}
use svs_bridge.Settings.Reachable.{
  Reachable, start, step, call_read, call_write, run_read, Reachable-IsCoherent,
  Reachable-plan_writes,
}
use svs_bridge.Settings.Snapshots.{IsSnapshot}
use svs_bridge.Settings.Calls.{IsCoherent}
use svs_bridge.Settings.Svs.{Svs, contents, svs_port, svs_port-IsSvs, svs_port-IsAnswering}
use svs_bridge.Base.{same_bytes, Option, none, length}
use svs_bridge.Flasher.{is_ok}
use svs_bridge.Settings.Layout.{
  Entry, Doc, Layout, no_layout, max_layout, set_layout_json, load_layout, normalize, check_doc,
  check_list, check_entries, check_entry, place, place_tx, valid_device, valid_kind, is_one_of,
  input_name,
}
use svs_bridge.Settings.Restart.{load_layout-set_layout_json}
use svs_bridge.Settings.Answered.{read_task_succeeds}
use svs_bridge.Settings.Codec.{encode, decode, reads_back}

-- "1" then "0": the value is the last line.
last_line : transcoder_value (codes "4" ∷ codes "0" ∷ []) ≡ some 0
unfolding last_value line_value is_digit
last_line = refl

-- An erased EEPROM: no hardware but the plain modules, and no codes.
abbrev svs : Svs
svs = record { cells = λ a. 255; input = 1; tx = λ rgb n. false }

abbrev ctx : Ctx Svs
ctx = record { state = record initial { task = Task.reading }; world = svs }

read_task-IsReadOf_example :
    (c' : Ctx Svs) × (read_task svs_port ctx ≡ some c')
    × (contents c'.world ≡ contents svs)
    × (State.task c'.state ≡ Task.idle)
    × ReadEnd svs_port-IsSvs ctx 2 c'
read_task-IsReadOf_example = read_task-IsReadOf svs_port-IsSvs ctx 2 refl (omega arith)

-- Input 1 gets sync on green off and a code, input 2 stays as it is.
abbrev wish : List InputSettings
wish = record new_settings { ir = record { address = 4; command = 8 } ∷ [] } ∷ new_settings ∷ []

-- The same, and the transcoder from RGB on for input 1.
abbrev wish_on : List InputSettings
wish_on =
    record new_settings { rgb_to_ypbpr = true; ir = record { address = 4; command = 8 } ∷ [] }
    ∷ new_settings
    ∷ []

-- The task that has to write it, from a snapshot of the whole EEPROM.
abbrev to_write : Ctx Svs
to_write = record {
  state = record initial {
    task = Task.writing;
    want = wish_on;
    last_read = record no_read {
      valid = true;
      inputs = 2;
      eeprom = dump (Contents.eeprom (contents svs));
      settings = new_settings ∷ new_settings ∷ [];
    };
  };
  world = svs;
}

wish-AreSettings : AreSettings wish
wish-AreSettings = (((omega arith, omega arith, λ e. omega (arith, e)), tt), (tt, tt))

-- It is the first of the three, and the transcoder is then on.
writes_all :
    (State.result_ok (write_task svs_port to_write).state ≡ true)
    × (Contents.transcoder (contents (write_task svs_port to_write).world) true 1 ≡ true)
unfolding tx_changes send_write send_writes check_write check_writes wait_for_input set_transcoder
    put_at set_transcoders change_transcoders write_rest write_settings write_task with_bit ir_slots
    ir_address_addr ir_command_addr get_byte set_byte get_bit codes_from decode_input put_bit
    code_at put_codes slots_written plan_bits plan_codes plan_inputs changes plan_writes
    decimal_from read_command write_command reply_from parse_byte_reply bitmap_addresses ask_left
    need_byte line_value last_value dump decode_inputs set_phase finish keep_read starts_with
    is_digit digits_value same_bytes
writes_all = (refl, refl)

abbrev begun : Ctx Svs
begun = record { state = (start_read svs_port svs true initial).1; world = svs }

-- An SVS that says how many inputs it has does not make the device abort.
abbrev or_begun : Option (Ctx Svs) → Ctx Svs
or_begun none = begun
or_begun (some c) = c

abbrev after_read : Ctx Svs
after_read = or_begun (read_task svs_port begun)

reads : read_task svs_port begun ≡ some after_read
unfolding start_read claim start_task read_blocker firmware_number read_task read_settings read_rest
    read_bytes read_byte need_byte ask_left need_transcoder log_transcoders log_transcoder
    read_transcoders read_input_tx read_transcoder read_codes read_slots set_phase finish keep_read
    bitmap_addresses read_command decimal_from parse_byte_reply reply_from starts_with is_digit
    digits_value decode_hardware ir_slots ir_address_addr ir_command_addr get_byte set_byte
reads = refl

abbrev after_call : Ctx Svs
after_call = record after_read {
  state = (start_write svs_port after_read.world true wish after_read.state).1;
}

few : (w : Svs) → count (Info.total_inputs (svs_port.info w)) ≤ 32
few w = omega arith

reading : State.task begun.state ≡ Task.reading
unfolding start_read claim start_task read_blocker firmware_number starts_with
reading = refl

read_path : Reachable svs_port after_read
read_path = step (step (start svs) (call_read true)) (run_read reading reads)

write_path : Reachable svs_port after_call
write_path = step read_path (call_write true wish)

Reachable-IsCoherent_example : IsCoherent after_call.state
Reachable-IsCoherent_example = Reachable-IsCoherent svs_port-IsSvs few after_call write_path

starts : (start_write svs_port after_read.world true wish after_read.state).0.0 ≡ EspErr.esp_ok
unfolding start_write start_read claim start_task read_blocker firmware_number snapshot begin_write
    keep_inputs get_bit decode_inputs decode_input read_task read_settings read_rest read_bytes
    read_byte need_byte ask_left need_transcoder log_transcoders log_transcoder read_transcoders
    read_input_tx read_transcoder read_codes read_slots set_phase finish keep_read bitmap_addresses
    read_command decimal_from parse_byte_reply reply_from starts_with is_digit digits_value
    decode_hardware ir_slots ir_address_addr ir_command_addr get_byte set_byte
starts = refl

start_write-IsStarted_example :
    IsStarted svs_port after_read.world wish after_read.state after_call.state
start_write-IsStarted_example =
    start_write-IsStarted svs_port after_read.world true wish after_read.state
      (λ v.
        IsSnapshot.shaped
          (IsCoherent.snapshot (Reachable-IsCoherent svs_port-IsSvs few after_read read_path) v))
      starts

writing : State.task after_call.state ≡ Task.writing
unfolding start_write start_read claim start_task read_blocker firmware_number snapshot begin_write
    keep_inputs get_bit decode_inputs decode_input read_task read_settings read_rest read_bytes
    read_byte need_byte ask_left need_transcoder log_transcoders log_transcoder read_transcoders
    read_input_tx read_transcoder read_codes read_slots set_phase finish keep_read bitmap_addresses
    read_command decimal_from parse_byte_reply reply_from starts_with is_digit digits_value
    decode_hardware ir_slots ir_address_addr ir_command_addr get_byte set_byte
writing = refl

to_write-AreSettings : AreSettings after_call.state.want
unfolding start_write start_read claim start_task read_blocker firmware_number snapshot begin_write
    keep_inputs get_bit decode_inputs decode_input read_task read_settings read_rest read_bytes
    read_byte need_byte ask_left need_transcoder log_transcoders log_transcoder read_transcoders
    read_input_tx read_transcoder read_codes read_slots set_phase finish keep_read bitmap_addresses
    read_command decimal_from parse_byte_reply reply_from starts_with is_digit digits_value
    decode_hardware ir_slots ir_address_addr ir_command_addr get_byte set_byte
to_write-AreSettings = wish-AreSettings

Reachable-plan_writes_example :
    (writes : List (ℕ × ℕ)) × (plan_writes
        (Read.eeprom after_call.state.last_read)
        after_call.state.want
        (Read.inputs after_call.state.last_read)
      ≡ ok writes)
Reachable-plan_writes_example =
    Reachable-plan_writes svs_port-IsSvs few after_call write_path writing to_write-AreSettings

abbrev console : Entry
console = record { kind = codes "scart"; name = codes "SNES"; device = codes "snes" }

abbrev switch : Doc
switch = record {
  inputs = console ∷ [];
  outputs = record { kind = codes "tx_rgb_to_ypbpr"; name = codes "x"; device = [] } ∷ [];
}

abbrev save : List ℕ → Option (List ℕ) → EspErr × Option (List ℕ)
save text nvs = (EspErr.esp_ok, some text)

takes_switch : is_ok (set_layout_json decode encode save (encode switch) none no_layout).0.0 ≡ true
unfolding set_layout_json normalize check_doc check_list check_entries check_entry place place_tx
    valid_device valid_kind is_one_of same_bytes starts_with
takes_switch = refl

short :
    length (Layout.text (set_layout_json decode encode save (encode switch) none no_layout).2)
    ≤ max_layout
unfolding set_layout_json normalize check_doc check_list check_entries check_entry place place_tx
    valid_device valid_kind is_one_of same_bytes starts_with
short = omega arith

load_layout-set_layout_json_example :
    load_layout decode encode
      (set_layout_json decode encode save (encode switch) none no_layout).1
      no_layout
    ≡ (set_layout_json decode encode save (encode switch) none no_layout).2
load_layout-set_layout_json_example =
    load_layout-set_layout_json decode encode reads_back save (λ text nvs h. refl) (encode switch)
      none no_layout takes_switch short

-- The name that input 1 then has.
named :
    input_name 1 (set_layout_json decode encode save (encode switch) none no_layout).2
    ≡ codes "SNES"
unfolding input_name set_layout_json normalize check_doc check_list check_entries check_entry place
    place_tx valid_device valid_kind is_one_of same_bytes starts_with
named = refl

read_task_succeeds_example :
    (c' : Ctx Svs) × (read_task svs_port begun ≡ some c') × (State.result_ok c'.state ≡ true)
read_task_succeeds_example = read_task_succeeds svs_port-IsAnswering begun 2 refl

-- An SVS that was unplugged after the read was started: the device aborts.
abbrev unplugged : Port Svs
unplugged = record svs_port {
  info = λ w. record { firmware = []; current_input = none; total_inputs = none; connections = 1 };
}

aborts : read_task unplugged begun ≡ none
unfolding start_read claim start_task read_blocker firmware_number read_task read_settings read_rest
    read_bytes read_byte need_byte ask_left set_phase bitmap_addresses read_command decimal_from
    parse_byte_reply reply_from starts_with is_digit digits_value get_byte set_byte
aborts = refl
