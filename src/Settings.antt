-- ===== src/Settings.antt =====
-- platform/esp32/main/svs_settings.cpp: the tasks that read the SVS's settings and write them. Its static
-- variables are the record `State`; the texts it shows are data. What svs_usb.cpp gives it is a `Port`
-- over a world `W`; the serial log is left out.
mod Asking
mod Reading
mod Writing
mod Api
mod Law
mod Grown
mod Answers
mod Codes
mod Decoded
mod Truth
mod Answered
mod Sent
mod Transcoders
mod Wanted
mod Switched
mod Saved
mod Started
mod Shape
mod Snapshots
mod Calls
mod Reachable
mod Svs
mod Layout
mod Restart
mod Codec
mod Tests
use svs_bridge.Base.{ℕ, ◌+◌, ◌%◌, ◌^◌, Bool, true, false, List, [], Option, none, replicate}
use svs_bridge.Base.Int.{ℤ}
use svs_bridge.Config.{Eeprom, Hardware, InputSettings, PlanError}
use svs_bridge.Flasher.{EspErr}

abbrev pub answer_timeout_ms : ℕ
answer_timeout_ms = 800

abbrev pub attempts : ℕ
attempts = 2

abbrev pub tx_settle_line_ms : ℕ
tx_settle_line_ms = 80

abbrev pub write_gap_ms : ℕ
write_gap_ms = 60

abbrev pub input_change_timeout_ms : ℕ
input_change_timeout_ms = 3000

abbrev pub tx_settle_ms : ℕ
tx_settle_ms = 300

abbrev pub tx_answer_window_ms : ℕ
tx_answer_window_ms = 600

-- `svs_usb::Info`, the fields read here; -1, a number not known, is `none`.
pub record Info : Type 0 where
  pub firmware : List ℕ
  pub current_input : Option ℕ
  pub total_inputs : Option ℕ
  pub connections : ℕ

-- The calls of svs_usb, svs_flasher and the clock. `scan_version` is sscanf with "%d%c%d": its three
-- results, where it has them all.
pub record Port (W : Type 0) : Type 0 where
  pub query : List ℕ → ℕ → W → (EspErr × List ℕ) × W
  pub query_last : List ℕ → ℕ → ℕ → W → (EspErr × List ℕ) × W
  pub query_all : List ℕ → ℕ → W → (EspErr × List (List ℕ)) × W
  pub send_quiet : List ℕ → W → EspErr × W
  pub session_begin : W → W
  pub session_end : W → W
  pub delay : ℕ → W → W
  pub info : W → Info
  pub is_connected : W → Bool
  pub flasher_busy : W → Bool
  pub now_ms : W → ℕ
  pub scan_version : List ℕ → Option (ℤ × ℕ × ℤ)

pub data Task : Type 0 where
  idle reading writing : Task

abbrev pub is_idle : Task → Bool
is_idle Task.idle = true
is_idle Task.reading = false
is_idle Task.writing = false

pub data Phase : Type 0 where
  no_phase starting reading_settings reading_transcoders reading_codes saving checking : Phase
  setting_transcoder : ℕ → Phase

-- Why the transcoders were not all set.
pub data TxFailure : Type 0 where
  not_switched : ℕ → TxFailure
  not_sent : List ℕ → TxFailure

-- `s_result`, the text of how a task ended.
pub data Report : Type 0 where
  no_report : Report
  no_answer : List ℕ → Report
  read_done : ℕ → Report
  not_planned : PlanError → Report
  could_not_send : EspErr → Report
  kept_other : ℕ → ℕ → ℕ → Report
  tx_failed : TxFailure → Report
  nothing_to_save : List ℕ → Report
  saved : ℕ → ℕ → List ℕ → Report

pub record Read : Type 0 where
  pub valid : Bool
  pub seq : ℕ
  pub connection : ℕ
  pub at_ms : ℕ
  pub firmware : List ℕ
  pub inputs : ℕ
  pub eeprom : Eeprom
  pub hardware : Hardware
  pub settings : List InputSettings

pub record State : Type 0 where
  pub task : Task
  pub phase : Phase
  pub progress : ℕ
  pub result : Report
  pub result_ok : Bool
  pub result_of : Task
  pub last_read : Read
  pub seq : ℕ
  pub want : List InputSettings

abbrev pub no_bytes : Eeprom
no_bytes = record { bytes = replicate 1024 none }

abbrev pub no_hardware : Hardware
no_hardware = record { tx_rgb = false; tx_ypbpr = false; scart_v3 = []; vga_v3 = [] }

abbrev pub new_settings : InputSettings
new_settings = record {
  auto_profile = true;
  rgsb = false;
  sync_bypass = false;
  rgb_to_ypbpr = false;
  ypbpr_to_rgb = false;
  ir = [];
}

abbrev pub no_read : Read
no_read = record {
  valid = false;
  seq = 0;
  connection = 0;
  at_ms = 0;
  firmware = [];
  inputs = 0;
  eeprom = no_bytes;
  hardware = no_hardware;
  settings = [];
}

abbrev pub initial : State
initial = record {
  task = Task.idle;
  phase = no_phase;
  progress = 0;
  result = no_report;
  result_ok = false;
  result_of = Task.idle;
  last_read = no_read;
  seq = 0;
  want = [];
}

-- A task's view: the variables and the world.
pub record Ctx (W : Type 0) : Type 0 where
  pub state : State
  pub world : W

-- How a part of a task ends: with a value, or with the report of why it gave up.
pub data Outcome (W A : Type 0) : Type 0 where
  done : A → Ctx W → Outcome W A
  gave_up : Report → Ctx W → Outcome W A

infixl 5 ◌>>=◌
abbrev pub ◌>>=◌ : {W A B : Type 0} → Outcome W A → (A → Ctx W → Outcome W B) → Outcome W B
done a c >>= f = f a c
gave_up r c >>= f = gave_up r c

unfoldable pub set_phase : {W : Type 0} → Phase → ℕ → Ctx W → Ctx W
set_phase phase progress c = record c {
  state = record c.state { phase = phase; progress = progress };
}

unfoldable pub finish : {W : Type 0} → Port W → Report → Bool → Ctx W → Ctx W
finish port result ok c = record {
  state = record c.state {
    result = result;
    result_ok = ok;
    result_of = c.state.task;
    task = Task.idle;
    phase = no_phase;
    progress = 0;
  };
  world = port.session_end c.world;
}

-- A task that gave up has finished with its report.
abbrev pub settle : {W : Type 0} → Port W → Outcome W (Report × Bool) → Ctx W
settle port (done (result, ok) c) = finish port result ok c
settle port (gave_up result c) = finish port result false c

-- The end of either task: what was read or written is the new snapshot.
unfoldable pub keep_read : {W : Type 0} → Port W → Read → Ctx W → Ctx W
keep_read port r c = record c {
  state = record c.state {
    seq = (c.state.seq + 1) % 2 ^ 32;
    last_read = record r { at_ms = port.now_ms c.world; seq = (c.state.seq + 1) % 2 ^ 32 };
  };
}
