-- ===== src/Flasher.antt =====
-- platform/esp32/main/svs_flasher.cpp: the SVS's firmware is written over USB by the urclock protocol.
-- Its static variables are the record `State`; the texts it shows are data. The serial line, which
-- svs_usb.cpp gives it, is a `Port` over a world `W`.
mod Line
mod Boot
mod Jobs
mod Api
mod Law
mod Pages
mod Sent
mod Outcomes
mod Recovery
mod Invariant
mod Reachable
mod Chip
mod Tests
use svs_bridge.Base.{
  ℕ, ◌≤◌, ◌*◌, ◌/◌, ◌+◌, Bool, true, false, not, ◌&&◌, ◌||◌, List, [], ◌∷◌, ◌++◌, Option, none,
  some, ltb, ◌==◌, if◌then◌else◌, length, drop, replicate,
}
use svs_bridge.Vectors.{PatchError}

abbrev pub mcu_id : ℕ
mcu_id = 119

abbrev pub flash_size : ℕ
flash_size = 32768

abbrev pub page_size : ℕ
page_size = 128

abbrev pub flash_baud : ℕ
flash_baud = 115200

abbrev pub stk_insync : ℕ
stk_insync = 0x14

abbrev pub stk_ok : ℕ
stk_ok = 0x10

abbrev pub eop : ℕ
eop = 0x20

abbrev pub cmd_get_sync : ℕ
cmd_get_sync = 0x30

abbrev pub cmd_leave_progmode : ℕ
cmd_leave_progmode = 0x51

abbrev pub ur_prog_page_fl : ℕ
ur_prog_page_fl = 0x02

abbrev pub ur_read_page_fl : ℕ
ur_read_page_fl = 0x03

abbrev pub ub_n_mcu : ℕ
ub_n_mcu = 2040

abbrev pub sync_timeout : ℕ
sync_timeout = 80

abbrev pub drain_quiet : ℕ
drain_quiet = 20

abbrev pub cmd_timeout : ℕ
cmd_timeout = 500

abbrev pub max_sync_attempts : ℕ
max_sync_attempts = 20

abbrev pub banner_wait_ms : ℕ
banner_wait_ms = 8000

-- `esp_err_t`, as far as this code tells its values apart.
pub data EspErr : Type 0 where
  esp_ok invalid_arg invalid_state invalid_response timed_out no_mem other : EspErr

abbrev pub is_ok : EspErr → Bool
is_ok EspErr.esp_ok = true
is_ok EspErr.invalid_arg = false
is_ok EspErr.invalid_state = false
is_ok EspErr.invalid_response = false
is_ok EspErr.timed_out = false
is_ok EspErr.no_mem = false
is_ok EspErr.other = false

-- `svs_usb::Info`, the fields read here.
pub record Info : Type 0 where
  pub boots_seen : ℕ
  pub connections : ℕ
  pub firmware : List ℕ

-- The calls of svs_usb and of the clock. `raw_read n t` gives the bytes that came, n at most.
pub record Port (W : Type 0) : Type 0 where
  pub raw_begin : ℕ → W → EspErr × W
  pub raw_end : W → W
  pub raw_set_lines : Bool → Bool → W → EspErr × W
  pub raw_write : List ℕ → W → EspErr × W
  pub raw_read : ℕ → ℕ → W → List ℕ × W
  pub raw_drain : ℕ → W → W
  pub delay : ℕ → W → W
  pub info : W → Info
  pub is_connected : W → Bool

-- The sync bytes of the current bootloader session.
pub record Sync : Type 0 where
  pub insync : ℕ
  pub ok : ℕ

pub record ResetTiming : Type 0 where
  pub pulse_ms : ℕ
  pub wait_ms : ℕ

abbrev pub reset_timings : List ResetTiming
reset_timings =
    record { pulse_ms = 50; wait_ms = 30 } ∷ record { pulse_ms = 100; wait_ms = 150 } ∷ []

pub record BootInfo : Type 0 where
  pub insync : ℕ
  pub ok : ℕ
  pub table : List ℕ
  pub table_read : Bool

abbrev pub no_boot : BootInfo
no_boot = record { insync = 0; ok = 0; table = replicate 6 0; table_read = false }

pub data Task : Type 0 where
  idle checking flashing probing previewing : Task

abbrev pub is_idle : Task → Bool
is_idle Task.idle = true
is_idle Task.checking = false
is_idle Task.flashing = false
is_idle Task.probing = false
is_idle Task.previewing = false

abbrev pub is_flashing : Task → Bool
is_flashing Task.flashing = true
is_flashing Task.idle = false
is_flashing Task.checking = false
is_flashing Task.probing = false
is_flashing Task.previewing = false

-- `Device::summary`
pub data Summary : Type 0 where
  no_summary stk500 no_flash_read no_page_erase no_information unrecognized : Summary
  unexpected_mcu : ℕ → Summary
  urboot : ℕ → ℕ → Bool → Summary

-- `Device::problem`
pub data Problem : Type 0 where
  no_problem classic not_atmega cannot_read cannot_erase unread not_urboot preview_first : Problem

pub record Device : Type 0 where
  pub checked : Bool
  pub compatible : Bool
  pub vector : Bool
  pub vector_verified : Bool
  pub summary : Summary
  pub problem : Problem
  pub app_space : ℕ
  pub vector_num : ℕ

abbrev pub no_device : Device
no_device = record {
  checked = false;
  compatible = false;
  vector = false;
  vector_verified = false;
  summary = no_summary;
  problem = no_problem;
  app_space = 0;
  vector_num = 0;
}

pub record Image : Type 0 where
  pub staged : Bool
  pub source : List ℕ
  pub size : ℕ
  pub sha256 : List ℕ

abbrev pub no_image : Image
no_image = record { staged = false; source = []; size = 0; sha256 = [] }

pub data Phase : Type 0 where
  no_phase starting entering reading_vector writing verifying waiting : Phase

-- Why a flash failed. Of the first four the code says that nothing was written.
pub data FlashError : Type 0 where
  no_answer not_same does_not_fit : FlashError
  not_patched : PatchError → FlashError
  write_failed read_failed differs_at : ℕ → FlashError

-- What `finish` is told.
pub data Report : Type 0 where
  no_report not_available could_not_start : Report
  check_unanswered : Report
  check_done : Option Problem → Bool → Report
  preview_unanswered preview_changed preview_unread : Report
  preview_compared : Bool → Report
  flash_failed : FlashError → Bool → Report
  flashed : List ℕ → Report

pub record State : Type 0 where
  pub image : List ℕ
  pub image_info : Image
  pub device : Device
  pub checked_boot : BootInfo
  pub checked_connection : ℕ
  pub task : Task
  pub phase : Phase
  pub progress : ℕ
  pub result : Report
  pub result_ok : Bool
  pub result_of : Task
  pub sync : Sync

-- The static variables at the start.
abbrev pub initial : State
initial = record {
  image = [];
  image_info = no_image;
  device = no_device;
  checked_boot = no_boot;
  checked_connection = 0;
  task = Task.idle;
  phase = no_phase;
  progress = 0;
  result = no_report;
  result_ok = false;
  result_of = Task.idle;
  sync = record { insync = 0; ok = 0 };
}

abbrev pub set_phase : Phase → ℕ → State → State
set_phase phase progress s = record s { phase = phase; progress = progress }

unfoldable pub finish : Report → Bool → State → State
finish result ok s = record s {
  result_of = s.task;
  task = Task.idle;
  phase = no_phase;
  result = result;
  result_ok = ok;
}
