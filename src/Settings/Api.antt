-- ===== src/Settings/Api.antt =====
-- platform/esp32/main/svs_settings.cpp: the interface. `created` is whether FreeRTOS could create a task.
use svs_bridge.Base.{
  ℕ, suc, Bool, true, false, not, ◌-◌, ◌&&◌, List, [], ◌∷◌, Option, none, some, ltb, ◌==◌,
  if◌then◌else◌, length,
}
use svs_bridge.Config.{Hardware, InputSettings, ir_slots}
use svs_bridge.Flasher.{EspErr}
use svs_bridge.Settings.{Port, Task, is_idle, Phase, Report, no_report, Read, State, no_hardware}
use svs_bridge.Settings.Asking.{Blocker, is_clear, read_blocker}

-- False if a task runs.
unfoldable pub claim : Task → State → Bool × State
claim task s =
    if is_idle s.task
    then (
      true,
      record s {
        task = task;
        phase = Phase.starting;
        progress = 0;
        result = no_report;
        result_of = Task.idle;
      },
    )
    else (false, s)

unfoldable pub start_task : Bool → State → EspErr × State
start_task created s =
    if created then (EspErr.esp_ok, s) else (EspErr.no_mem, record s { task = Task.idle })

unfoldable pub busy : State → Bool
busy s = not (is_idle s.task)

pub record Snapshot : Type 0 where
  pub valid : Bool
  pub seq : ℕ
  pub age_ms : ℕ
  pub firmware : List ℕ
  pub inputs : ℕ
  pub ir_slots : ℕ
  pub hardware : Hardware
  pub settings : List InputSettings

pub record Status : Type 0 where
  pub task : Task
  pub phase : Phase
  pub progress : ℕ
  pub result : Report
  pub result_ok : Bool
  pub result_of : Task
  pub blocker : Blocker
  pub snapshot : Snapshot

-- `s_read` holds what the SVS that is plugged in now was read to have.
abbrev pub is_current : {W : Type 0} → Port W → W → Read → Bool
is_current port w r = r.valid && (port.is_connected w && r.connection == (port.info w).connections)

unfoldable pub snapshot : {W : Type 0} → Port W → W → Read → Snapshot
snapshot port w r =
    if is_current port w r
    then record {
      valid = true;
      seq = r.seq;
      age_ms = port.now_ms w - r.at_ms;
      firmware = r.firmware;
      inputs = r.inputs;
      ir_slots = ir_slots r.inputs;
      hardware = r.hardware;
      settings = r.settings;
    }
    else record {
      valid = false;
      seq = r.seq;
      age_ms = 0;
      firmware = [];
      inputs = 0;
      ir_slots = 0;
      hardware = no_hardware;
      settings = [];
    }

unfoldable pub status : {W : Type 0} → Port W → W → State → Status
status port w s = record {
  task = s.task;
  phase = s.phase;
  progress = s.progress;
  result = s.result;
  result_ok = s.result_ok;
  result_of = s.result_of;
  blocker = if is_idle s.task then read_blocker port w else Blocker.clear;
  snapshot = snapshot port w s.last_read;
}

-- `*error`, the text of why a task did not start.
pub data Refusal : Type 0 where
  no_refusal in_use not_read other_inputs : Refusal
  blocked : Blocker → Refusal
  too_many_codes : ℕ → Refusal

abbrev pub refuse : Refusal → State → (EspErr × Refusal) × State
refuse why s = ((EspErr.invalid_state, why), s)

abbrev pub started : EspErr × State → (EspErr × Refusal) × State
started (e, s) = ((e, no_refusal), s)

unfoldable pub start_read : {W : Type 0} → Port W → W → Bool → State → (EspErr × Refusal) × State
start_read port w created s =
    let c = claim Task.reading s in
    if not (is_clear (read_blocker port w))
    then refuse (blocked (read_blocker port w)) s
    else if c.0
    then started (start_task created c.1)
    else refuse in_use s

-- What a module or a missing transcoder cannot have stays as it was read.
abbrev pub keep_input : Bool → Bool → Bool → Bool → InputSettings → InputSettings → InputSettings
keep_input rgb ypbpr scart vga old w = record w {
  rgsb = if not scart && not vga then old.rgsb else w.rgsb;
  sync_bypass = if scart then w.sync_bypass else old.sync_bypass;
  rgb_to_ypbpr = if rgb then w.rgb_to_ypbpr else old.rgb_to_ypbpr;
  ypbpr_to_rgb = if ypbpr then w.ypbpr_to_rgb else old.ypbpr_to_rgb;
}

-- What is to be written, or the first input with too many codes.
pub data Kept : Type 0 where
  fits : List InputSettings → Kept
  too_many : ℕ → Kept

abbrev pub keep_first : InputSettings → Kept → Kept
keep_first w (fits want) = fits (w ∷ want)
keep_first w (too_many n) = too_many n

-- The inputs from `n` on: the settings that were read, and the flags of their modules.
unfoldable pub keep_inputs :
    Hardware → ℕ → ℕ → List InputSettings → List InputSettings → List Bool → List Bool → Kept
keep_inputs hw slots n (w ∷ want) (old ∷ settings) (scart ∷ scarts) (vga ∷ vgas) =
    let rest = keep_inputs hw slots (suc n) want settings scarts vgas in
    if ltb slots (length w.ir)
    then too_many n
    else keep_first (keep_input hw.tx_rgb hw.tx_ypbpr scart vga old w) rest
keep_inputs hw slots n want settings scarts vgas = fits []

abbrev pub same_count : Option ℕ → ℕ → Bool
same_count none n = false
same_count (some m) n = m == n

-- The task is claimed, and `s_want` set.
unfoldable pub begin_write : Bool → Kept → State → (EspErr × Refusal) × State
begin_write created (too_many n) s = ((EspErr.invalid_arg, too_many_codes n), s)
begin_write created (fits want) s =
    let c = claim Task.writing s in
    if c.0 then started (start_task created (record (c.1) { want = want })) else refuse in_use s

unfoldable pub start_write :
    {W : Type 0} → Port W → W → Bool → List InputSettings → State → (EspErr × Refusal) × State
start_write port w created want s =
    let sn = snapshot port w s.last_read in
    if not (is_clear (read_blocker port w))
    then refuse (blocked (read_blocker port w)) s
    else if not sn.valid
    then refuse not_read s
    else if not (length want == sn.inputs && same_count (port.info w).total_inputs sn.inputs)
    then refuse other_inputs s
    else begin_write created
        (keep_inputs sn.hardware sn.ir_slots 1 want sn.settings (Hardware.scart_v3 sn.hardware)
          (Hardware.vga_v3 sn.hardware))
        s
