-- ===== src/Settings/Writing.antt =====
-- platform/esp32/main/svs_settings.cpp: `write_task`.
use svs_bridge.Base.{
  ℕ, zero, suc, ◌+◌, ◌-◌, ◌*◌, ◌/◌, Bool, true, false, not, ◌&&◌, List, [], ◌∷◌, ◌++◌, Option, none,
  some, ◌==◌, if◌then◌else◌, length,
}
use svs_bridge.Base.Text.{codes}
use svs_bridge.Config.{Eeprom, InputSettings, Plan, ok, refused, plan_writes, set_byte}
use svs_bridge.Config.Commands.{read_command, write_command, decimal}
use svs_bridge.Flasher.{is_ok}
use svs_bridge.Settings.{
  Port, Phase, setting_transcoder, TxFailure, not_switched, not_sent, Report, not_planned,
  could_not_send, kept_other, tx_failed, nothing_to_save, saved, Read, Ctx, Outcome, done, gave_up,
  ◌>>=◌, set_phase, settle, keep_read, write_gap_ms, input_change_timeout_ms, tx_settle_ms,
  tx_answer_window_ms,
}
use svs_bridge.Settings.Asking.{need_byte, transcoder_value}
use svs_bridge.Settings.Reading.{
  count, rgb_letter, ypbpr_letter, tx_query, decode_inputs, start_session,
}

-- `TxChange`; `rgb` is which of the two transcoders.
pub record TxChange : Type 0 where
  pub input : ℕ
  pub rgb : Bool
  pub on : Bool

abbrev pub differ : Bool → Bool → Bool
differ a b = if a then not b else b

abbrev pub tx_change : ℕ → Bool → Bool → Bool → List TxChange
tx_change n rgb new old =
    if differ new old then record { input = n; rgb = rgb; on = new } ∷ [] else []

-- The changes of the inputs from `n` on.
unfoldable pub tx_changes : ℕ → List InputSettings → List InputSettings → List TxChange
tx_changes n [] old = []
tx_changes n (w ∷ want) [] = []
tx_changes n (w ∷ want) (s ∷ old) =
    tx_change n true w.rgb_to_ypbpr s.rgb_to_ypbpr
    ++ (tx_change n false w.ypbpr_to_rgb s.ypbpr_to_rgb ++ tx_changes (suc n) want old)

unfoldable pub send_write : {W : Type 0} → Port W → ℕ × ℕ → Ctx W → Outcome W Unit
send_write port (addr, v) c =
    let r = port.send_quiet (write_command addr v) c.world in
    if is_ok r.0
    then done tt (record c { world = port.delay write_gap_ms r.1 })
    else gave_up (could_not_send r.0) (record c { world = r.1 })

unfoldable pub send_writes : {W : Type 0} → Port W → ℕ → ℕ → List (ℕ × ℕ) → Ctx W → Outcome W Unit
send_writes port steps step [] c = done tt c
send_writes port steps step (w ∷ writes) c =
    send_write port w (set_phase Phase.saving (100 * step / steps) c)
    >>= (λ u. send_writes port steps (suc step) writes)

-- One byte read back, and kept where it is what was written.
unfoldable pub check_write : {W : Type 0} → Port W → ℕ × ℕ → Eeprom → Ctx W → Outcome W Eeprom
check_write port (addr, v) e c =
    need_byte port (read_command addr) c
    >>= (λ u c'. if u == v then done (set_byte e addr v) c' else gave_up (kept_other u addr v) c')

unfoldable pub check_writes :
    {W : Type 0} → Port W → ℕ → ℕ → List (ℕ × ℕ) → Eeprom → Ctx W → Outcome W Eeprom
check_writes port steps step [] e c = done e c
check_writes port steps step (w ∷ writes) e c =
    check_write port w e (set_phase Phase.checking (100 * step / steps) c)
    >>= check_writes port steps (suc step) writes

abbrev pub is_input : Option ℕ → ℕ → Bool
is_input none n = false
is_input (some m) n = m == n

-- A round every 50 ms.
abbrev pub input_rounds : ℕ
input_rounds = input_change_timeout_ms / 50

unfoldable pub wait_for_input : {W : Type 0} → Port W → ℕ → ℕ → W → Bool × W
wait_for_input port zero n w = (false, w)
wait_for_input port (suc left) n w =
    let rest = wait_for_input port left n (port.delay 50 w) in
    if is_input (port.info w).current_input n then (true, w) else rest

abbrev pub change_input : ℕ → List ℕ
change_input n = codes "SVS_Change_Input_" ++ decimal n

abbrev pub tx_command : TxChange → List ℕ
tx_command t =
    if t.rgb
    then (if t.on then codes "SVS_RGB_Comp_ON" else codes "SVS_RGB_Comp_OFF")
    else (if t.on then codes "SVS_Comp_RGB_ON" else codes "SVS_Comp_RGB_OFF")

abbrev pub tx_letter : TxChange → ℕ
tx_letter t = if t.rgb then rgb_letter else ypbpr_letter

abbrev pub is_confirmed : Option ℕ → Bool → Bool
is_confirmed none on = false
is_confirmed (some v) on = not (differ (v == 0) on)

-- One transcoder: why it was not set, if it was not, and whether the SVS confirmed it.
unfoldable pub set_transcoder : {W : Type 0} → Port W → TxChange → W → (Option TxFailure × Bool) × W
set_transcoder port t w =
    let w1 = port.send_quiet (change_input t.input) w in
    let w2 = wait_for_input port input_rounds t.input w1.1 in
    let w3 = port.send_quiet (tx_command t) w2.1 in
    let w4 =
      port.query_all (tx_query (tx_letter t) t.input) tx_answer_window_ms
        (port.delay tx_settle_ms w3.1) in
    if not (is_ok w1.0)
    then ((some (not_switched t.input), false), w1.1)
    else if not w2.0
    then ((some (not_switched t.input), false), w2.1)
    else if not (is_ok w3.0)
    then ((some (not_sent (tx_command t)), false), w3.1)
    else ((none, is_confirmed (transcoder_value w4.0.1) t.on), w4.1)

abbrev pub put_tx : TxChange → InputSettings → InputSettings
put_tx t s = if t.rgb then record s { rgb_to_ypbpr = t.on } else record s { ypbpr_to_rgb = t.on }

-- The settings with a change of the transcoder of input `n + 1`.
unfoldable pub put_at : ℕ → TxChange → List InputSettings → List InputSettings
put_at n t [] = []
put_at zero t (s ∷ settings) = put_tx t s ∷ settings
put_at (suc n) t (s ∷ settings) = s ∷ put_at n t settings

-- The settings so far, the inputs that were not confirmed, and why the loop stopped.
pub record TxRun : Type 0 where
  pub settings : List InputSettings
  pub unconfirmed : List ℕ
  pub failed : Option TxFailure

abbrev pub after_tx : TxChange → Bool → TxRun → TxRun
after_tx t confirmed run = record run {
  settings = put_at (t.input - 1) t run.settings;
  unconfirmed = if confirmed then run.unconfirmed else run.unconfirmed ++ (t.input ∷ []);
}

abbrev pub go_on :
    {W : Type 0}
    → (Option TxFailure × Bool) × W
    → TxChange
    → TxRun
    → Ctx W
    → (TxRun → Ctx W → TxRun × Ctx W)
    → TxRun × Ctx W
go_on ((some f, confirmed), w) t run c next =
    (record run { failed = some f }, record c { world = w })
go_on ((none, confirmed), w) t run c next = next (after_tx t confirmed run) (record c { world = w })

unfoldable pub set_transcoders :
    {W : Type 0} → Port W → ℕ → ℕ → List TxChange → TxRun → Ctx W → TxRun × Ctx W
set_transcoders port steps step [] run c = (run, c)
set_transcoders port steps step (t ∷ tx) run c =
    let c' = set_phase (setting_transcoder t.input) (100 * step / steps) c in
    go_on (set_transcoder port t c'.world) t run c' (set_transcoders port steps (suc step) tx)

-- All of them, and back to the input that was on screen.
unfoldable pub change_transcoders :
    {W : Type 0} → Port W → ℕ → ℕ → List TxChange → List InputSettings → Ctx W → TxRun × Ctx W
change_transcoders port steps step [] settings c =
    (record { settings = settings; unconfirmed = []; failed = none }, c)
change_transcoders port steps step (t ∷ tx) settings c =
    let r =
      set_transcoders port steps step (t ∷ tx)
        (record { settings = settings; unconfirmed = []; failed = none }) c in
    let back = change_input (count (port.info c.world).current_input) in
    (r.0, record (r.1) { world = (port.send_quiet back (r.1).world).1 })

abbrev pub planned : {W : Type 0} → Plan (List (ℕ × ℕ)) → Ctx W → Outcome W (List (ℕ × ℕ))
planned (ok writes) c = done writes c
planned (refused e) c = gave_up (not_planned e) c

abbrev pub is_empty : {A : Type 0} → List A → Bool
is_empty [] = true
is_empty (a ∷ rest) = false

abbrev pub write_report : List (ℕ × ℕ) → List TxChange → TxRun → Option TxFailure → Report × Bool
write_report writes tx run (some f) = (tx_failed f, false)
write_report writes tx run none = (
  if is_empty writes && is_empty tx
      then nothing_to_save run.unconfirmed
      else saved (length writes) (length tx) run.unconfirmed,
  true,
)

-- The end of the task: the transcoders, and the new snapshot.
unfoldable pub write_rest :
    {W : Type 0}
    → Port W
    → ℕ
    → Read
    → List (ℕ × ℕ)
    → List TxChange
    → Eeprom
    → Ctx W
    → Outcome W (Report × Bool)
write_rest port steps r writes tx e c =
    let (run, c') = change_transcoders port steps (length writes * 2) tx r.settings c in
    done (write_report writes tx run run.failed) (
      keep_read port (record r { eeprom = e; settings = decode_inputs e r.inputs 1 run.settings })
        c')

unfoldable pub write_settings :
    {W : Type 0} → Port W → Read → List InputSettings → Ctx W → Outcome W (Report × Bool)
write_settings port r want c = planned (plan_writes r.eeprom want r.inputs) c >>= (λ writes c1.
    let tx = tx_changes 1 want r.settings in
    let steps = length writes * 2 + length tx + 1 in
    send_writes port steps 0 writes c1
    >>= (λ u. check_writes port steps (length writes) writes r.eeprom)
    >>= write_rest port steps r writes tx)

unfoldable pub write_task : {W : Type 0} → Port W → Ctx W → Ctx W
write_task port c =
    settle port (write_settings port c.state.last_read c.state.want (start_session port c))
