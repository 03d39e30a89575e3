-- ===== src/Flasher/Api.antt =====
-- platform/esp32/main/svs_flasher.cpp: the interface. SHA-256, which PSA computes, is a parameter: its
-- text, empty where it fails.
use svs_bridge.Base.{
  ℕ, Bool, true, false, not, ◌&&◌, ◌||◌, List, [], ltb, ◌==◌, if◌then◌else◌, length,
}
use svs_bridge.Hex.{Decoded, ok, err, fault, decode_hex}
use svs_bridge.Flasher.{
  EspErr, Device, no_device, Image, no_image, Task, is_idle, is_flashing, State, starting, Problem,
  no_report, could_not_start, finish, flash_size,
}

-- `Status::blocker`
pub data Blocker : Type 0 where
  no_blocker busy not_connected not_checked not_staged no_room not_previewed : Blocker
  incompatible : Problem → Blocker

-- A check only holds for the SVS that was plugged in at the time.
abbrev pub device_now : State → Bool → ℕ → Device
device_now s connected connections =
    if s.device.checked && (not connected || not (connections == s.checked_connection))
    then no_device
    else s.device

-- `problem` is not the empty text.
abbrev pub is_problem : Problem → Bool
is_problem Problem.no_problem = false
is_problem Problem.classic = true
is_problem Problem.not_atmega = true
is_problem Problem.cannot_read = true
is_problem Problem.cannot_erase = true
is_problem Problem.unread = true
is_problem Problem.not_urboot = true
is_problem Problem.preview_first = true

-- The chain of tests of `status`.
unfoldable pub blocker_of : Bool → Bool → Device → Image → Blocker
blocker_of idle connected d image =
    if not idle
    then busy
    else if not connected
    then not_connected
    else if not d.checked
    then not_checked
    else if not d.compatible
    then incompatible d.problem
    else if not image.staged
    then not_staged
    else if ltb d.app_space image.size
    then no_room
    else if d.vector && not d.vector_verified
    then not_previewed
    else no_blocker

-- `status().blocker`; `connected` and `connections` are what svs_usb says.
unfoldable pub blocker : State → Bool → ℕ → Blocker
blocker s connected connections =
    blocker_of (is_idle s.task) connected (device_now s connected connections) s.image_info

-- `blocker.empty()`: an incompatible device with no problem stated would be empty too.
abbrev pub is_clear : Blocker → Bool
is_clear no_blocker = true
is_clear busy = false
is_clear not_connected = false
is_clear not_checked = false
is_clear not_staged = false
is_clear no_room = false
is_clear not_previewed = false
is_clear (incompatible p) = not (is_problem p)

unfoldable pub can_flash : State → Bool → ℕ → Bool
can_flash s connected connections = is_clear (blocker s connected connections)

-- `start_task`; `created` is whether FreeRTOS could create the task.
unfoldable pub start_task : Task → Bool → Bool → State → EspErr × State
start_task task connected created s =
    let s' = record s {
      task = task;
      phase = starting;
      progress = 0;
      result = no_report;
      result_of = Task.idle;
    } in
    if not (is_idle s.task && connected)
    then (EspErr.invalid_state, s)
    else if created
    then (EspErr.esp_ok, s')
    else (EspErr.no_mem, finish could_not_start false s')

abbrev pub start_check : Bool → Bool → State → EspErr × State
start_check = start_task Task.checking

abbrev pub start_probe : Bool → Bool → State → EspErr × State
start_probe = start_task Task.probing

unfoldable pub start_flash : Bool → ℕ → Bool → State → EspErr × State
start_flash connected connections created s =
    if can_flash s connected connections
    then start_task Task.flashing connected created s
    else (EspErr.invalid_state, s)

unfoldable pub start_preview : Bool → Bool → State → EspErr × State
start_preview connected created s =
    if is_idle s.task && (s.device.checked && s.device.vector)
    then start_task Task.previewing connected created s
    else (EspErr.invalid_state, s)

unfoldable pub clear : State → State
clear s = if is_idle s.task then record s { image = []; image_info = no_image } else s

-- The end of `stage_hex`, with the decoded image.
unfoldable pub stage : List ℕ → List ℕ → List ℕ → State → State
stage image source sha s = record s {
  image = image;
  image_info = record { staged = true; source = source; size = length image; sha256 = sha };
  result = if is_flashing s.result_of then no_report else s.result;
  result_of = if is_flashing s.result_of then Task.idle else s.result_of;
}

abbrev pub staged : (List ℕ → List ℕ) → List ℕ → Decoded (List ℕ) → State → Decoded (EspErr × State)
staged sha256 source (ok image) s = ok (EspErr.esp_ok, stage image source (sha256 image) s)
staged sha256 source (err e) s = ok (EspErr.invalid_arg, clear s)
staged sha256 source fault s = fault

-- `stage_hex`, with no other call between its two looks at the task.
unfoldable pub stage_hex : (List ℕ → List ℕ) → List ℕ → List ℕ → State → Decoded (EspErr × State)
stage_hex sha256 hex source s =
    if is_idle s.task
    then staged sha256 source (decode_hex flash_size hex) s
    else ok (EspErr.invalid_state, s)
