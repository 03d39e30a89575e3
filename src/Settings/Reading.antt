-- ===== src/Settings/Reading.antt =====
-- platform/esp32/main/svs_settings.cpp: `read_task`.
use svs_bridge.Base.{
  ℕ, zero, suc, ◌+◌, ◌-◌, ◌*◌, ◌/◌, ◌%◌, Bool, true, List, [], ◌∷◌, Option, none, some, ◌==◌,
  if◌then◌else◌, length,
}
use svs_bridge.Config.{
  Eeprom, Hardware, InputSettings, set_byte, ir_slots, ir_address_addr, ir_command_addr, ir_empty,
  decode_hardware, decode_input,
}
use svs_bridge.Config.Commands.{read_command, bitmap_addresses, decimal}
use svs_bridge.Settings.{
  Port, Info, Phase, Read, Ctx, Outcome, done, gave_up, ◌>>=◌, read_done, no_bytes, no_read,
  new_settings, set_phase, settle, keep_read, tx_answer_window_ms,
}
use svs_bridge.Settings.Asking.{need_byte, need_transcoder}

-- The number of inputs, for their bitmaps: a number that is not known, -1, has none, as 0 has.
abbrev pub count : Option ℕ → ℕ
count none = 0
count (some n) = n

abbrev pub rgb_letter : ℕ
rgb_letter = b'Y'

abbrev pub ypbpr_letter : ℕ
ypbpr_letter = b'G'

abbrev pub tx_query : ℕ → ℕ → List ℕ
tx_query letter n = letter ∷ decimal n

-- One byte, asked for and kept.
unfoldable pub read_byte : {W : Type 0} → Port W → Eeprom → ℕ → Ctx W → Outcome W (ℕ × Eeprom)
read_byte port e addr c =
    need_byte port (read_command addr) c >>= (λ v. done (v, set_byte e addr (v % 256)))

-- The addresses from the `i`th of `total` on.
unfoldable pub read_bytes :
    {W : Type 0} → Port W → ℕ → ℕ → List ℕ → Eeprom → Ctx W → Outcome W Eeprom
read_bytes port total i [] e c = done e c
read_bytes port total i (addr ∷ addrs) e c =
    read_byte port e addr (set_phase Phase.reading_settings (40 * i / total) c)
    >>= (λ r. read_bytes port total (suc i) addrs r.1)

-- What a fitted transcoder answers on input 1, for the log.
unfoldable pub log_transcoder : {W : Type 0} → Port W → Bool → ℕ → Ctx W → Ctx W
log_transcoder port fitted letter c =
    if fitted
    then record c { world = (port.query_all (tx_query letter 1) tx_answer_window_ms c.world).1 }
    else c

unfoldable pub log_transcoders : {W : Type 0} → Port W → Hardware → Ctx W → Ctx W
log_transcoders port hw c =
    log_transcoder port hw.tx_ypbpr ypbpr_letter (log_transcoder port hw.tx_rgb rgb_letter c)

-- Whether a transcoder is on for input `n`; `on` where it is not fitted.
unfoldable pub read_transcoder :
    {W : Type 0} → Port W → Bool → ℕ → ℕ → Bool → Ctx W → Outcome W Bool
read_transcoder port fitted letter n on c =
    if fitted
    then need_transcoder port (tx_query letter n) c >>= (λ v. done (v == 0))
    else done on c

abbrev pub with_tx : Bool → Bool → InputSettings → InputSettings
with_tx rgb ypbpr s = record s { rgb_to_ypbpr = rgb; ypbpr_to_rgb = ypbpr }

-- The settings of input `n`, as far as the transcoders say.
unfoldable pub read_input_tx :
    {W : Type 0} → Port W → Hardware → ℕ → Ctx W → Outcome W InputSettings
read_input_tx port hw n c =
    read_transcoder port hw.tx_rgb rgb_letter n new_settings.rgb_to_ypbpr c >>= (λ rgb c'.
      read_transcoder port hw.tx_ypbpr ypbpr_letter n new_settings.ypbpr_to_rgb c'
      >>= (λ ypbpr. done (with_tx rgb ypbpr new_settings)))

-- The inputs from `n` on, `left` of them.
unfoldable pub read_transcoders :
    {W : Type 0} → Port W → Hardware → ℕ → ℕ → ℕ → Ctx W → Outcome W (List InputSettings)
read_transcoders port hw inputs n zero c = done [] c
read_transcoders port hw inputs n (suc left) c =
    read_input_tx port hw n (set_phase Phase.reading_transcoders (40 + 15 * (n - 1) / inputs) c)
    >>= (λ s c'. read_transcoders port hw inputs (suc n) left c' >>= (λ rest. done (s ∷ rest)))

-- The slots of input `n` from `k` on, `left` of them, up to the first empty one.
unfoldable pub read_slots :
    {W : Type 0} → Port W → ℕ → ℕ → ℕ → ℕ → Eeprom → Ctx W → Outcome W Eeprom
read_slots port inputs n k zero e c = done e c
read_slots port inputs n k (suc left) e c =
    read_byte port e (ir_address_addr n k inputs) c >>= (λ a c1.
      read_byte port a.1 (ir_command_addr n k inputs) c1 >>= (λ r c2.
        if a.0 == ir_empty then done r.1 c2 else read_slots port inputs n (suc k) left r.1 c2))

-- The codes of the inputs from `n` on, `left` of them.
unfoldable pub read_codes : {W : Type 0} → Port W → ℕ → ℕ → ℕ → Eeprom → Ctx W → Outcome W Eeprom
read_codes port inputs n zero e c = done e c
read_codes port inputs n (suc left) e c =
    read_slots port inputs n 0 (ir_slots inputs) e
      (set_phase Phase.reading_codes (55 + 45 * (n - 1) / inputs) c)
    >>= read_codes port inputs (suc n) left

-- The settings of the inputs from `n` on, as the EEPROM has them.
unfoldable pub decode_inputs : Eeprom → ℕ → ℕ → List InputSettings → List InputSettings
decode_inputs e inputs n [] = []
decode_inputs e inputs n (s ∷ settings) =
    decode_input e n inputs s ∷ decode_inputs e inputs (suc n) settings

abbrev pub read_of : Info → ℕ → Hardware → Eeprom → List InputSettings → Read
read_of i inputs hw e settings = record no_read {
  valid = true;
  connection = i.connections;
  firmware = i.firmware;
  inputs = inputs;
  eeprom = e;
  hardware = hw;
  settings = settings;
}

-- What follows the bitmaps: the hardware, the transcoders, the codes. `settings.assign` of -1 entries
-- throws, which nothing catches: there is no read, and the device aborts.
unfoldable pub read_rest :
    {W : Type 0} → Port W → Info → Option ℕ → Eeprom → Ctx W → Outcome W (Option Read)
read_rest port i none e c = done none c
read_rest port i (some inputs) e c =
    let hw = decode_hardware e inputs in
    read_transcoders port hw inputs 1 inputs (log_transcoders port hw c) >>= (λ settings c2.
      read_codes port inputs 1 inputs e c2
      >>= (λ e'. done (some (read_of i inputs hw e' (decode_inputs e' inputs 1 settings)))))

-- What is read, for the SVS that `i` tells of.
unfoldable pub read_settings :
    {W : Type 0} → Port W → Info → Option ℕ → Ctx W → Outcome W (Option Read)
read_settings port i inputs c =
    let addrs = bitmap_addresses (count inputs) in
    read_bytes port (length addrs) 0 addrs no_bytes c >>= read_rest port i inputs

abbrev pub start_session : {W : Type 0} → Port W → Ctx W → Ctx W
start_session port c = record c { world = port.session_begin c.world }

-- The end of the task, which the device does not reach where it aborts.
abbrev pub end_read : {W : Type 0} → Port W → Outcome W (Option Read) → Option (Ctx W)
end_read port (done none c) = none
end_read port (done (some r) c) =
    some (settle port (done (read_done r.inputs, true) (keep_read port r c)))
end_read port (gave_up why c) = some (settle port (gave_up why c))

-- Nothing where the device aborts.
unfoldable pub read_task : {W : Type 0} → Port W → Ctx W → Option (Ctx W)
read_task port c =
    let i = port.info c.world in
    end_read port (read_settings port i i.total_inputs (start_session port c))
