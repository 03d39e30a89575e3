-- ===== src/Flasher/Tests.antt =====
-- svs_flasher.cpp at work on the chip of Chip.antt: its bootloader is checked, a small firmware staged,
-- previewed and flashed.
use svs_bridge.Base.{
  ℕ, ◌≢◌, same_bytes, ◌≡◌, refl, ◌≤◌, true, false, List, [], ◌∷◌, arith, get_or, ltb, ◌-◌,
  if◌then◌else◌, length,
}
use svs_bridge.Flasher.{EspErr, State, initial, BootInfo, flash_size}
use svs_bridge.Flasher.{finish, flash_failed, not_same}
use svs_bridge.Base.Int.{pos, ◌+ℤ◌, ◌-ℤ◌}
use svs_bridge.Vectors.{
  patch_vectors, is_jmp, is_rjmp, patch_at, jmp_target, buf2u32, rjmp_to_bootloader,
  rjmp_reset_target, patched, u32tobuf, jmp_opcode,
}
use svs_bridge.Flasher.Line.{
  read_ok, read_rest, command, read_flash, write_page, leave_bootloader, reset_into_bootloader,
  on_reply, attempt, sync_loop, settle, get_sync, enter_by, enter_bootloader, wait_for,
}
use svs_bridge.Flasher.Boot.{
  sync_info, mcuid_of, features_of, read_boot_info, same_bootloader, evaluate_table, evaluate,
}
use svs_bridge.Flasher.Jobs.{
  check_answered, check_held, check_task, preview_read, preview_task, padded, prepare, write_pages,
  verify_pages, flash_end, flash_image, flash_prepared, flash_held, flash_task,
}
use svs_bridge.Flasher.Api.{
  start_task, start_check, blocker_of, blocker, can_flash, start_flash, start_preview, stage,
  stage_hex,
}
use svs_bridge.Flasher.Sent.{sent}
use svs_bridge.Flasher.Outcomes.{
  overwrite, flash_task_verified, flash_task_keeps_bootloader, flash_task-Unwritten,
}
use svs_bridge.Flasher.Recovery.{chip_word, flash_task_reaches_bootloader}
use svs_bridge.Base.{take}
use svs_bridge.Vectors.Patching.{IsRjmp, entry}
use svs_bridge.Flasher.Invariant.{IsValid}
use svs_bridge.Hex.{ok, decode_hex, parse_line, check_rec, hex_bytes, trim_end, apply}
use svs_bridge.Base.Text.{codes}
use svs_bridge.Flasher.Reachable.{
  checked, previewed, check_started, hex_staged, preview_started, at_start, by_step, Reachable,
  Reachable-IsValid, CanFlash, start_flash-CanFlash,
}
use svs_bridge.Flasher.Chip.{Chip, chip_port, chip-IsUrboot}

-- Two pages, vector 25, an rjmp, version 077.
abbrev table : List ℕ
table = 2 ∷ 25 ∷ 0x7F ∷ 0xCF ∷ 0x0C ∷ 77 ∷ []

-- Blank but for an rjmp to the bootloader at the reset.
abbrev chip : Chip
chip = record {
  memory = λ a.
      if ltb a 2
      then get_or (0x7F ∷ 0xCF ∷ []) a 0
      else if ltb a 32762
      then 0xFF
      else get_or table (a - 32762) 0;
  pending = [];
  boots = 0;
}

abbrev known : State
known = (check_task chip_port (start_check true true initial).1 chip).0

known_device : known.device.app_space ≡ 0x7F00
unfolding check_task start_task check_held check_answered finish enter_bootloader enter_by
    reset_into_bootloader get_sync sync_loop attempt on_reply settle read_boot_info read_flash
    command read_rest read_ok mcuid_of sync_info features_of evaluate evaluate_table
    leave_bootloader wait_for
known_device = refl

-- A jmp to 0x68, as a file and as the bytes of it.
abbrev firmware : List ℕ
firmware = 0x0C ∷ 0x94 ∷ 0x34 ∷ 0x00 ∷ []

abbrev ready : State
ready = record known {
  image = firmware;
  image_info = record { staged = true; source = []; size = 4; sha256 = [] };
}

abbrev run : State × Chip
run = flash_task chip_port ready chip

-- The device is read, staged for and flashed.
run_ok : run.0.result_ok ≡ true
unfolding check_task start_task check_held check_answered finish enter_bootloader enter_by
    reset_into_bootloader get_sync sync_loop attempt on_reply settle read_boot_info read_flash
    command read_rest read_ok mcuid_of sync_info features_of evaluate evaluate_table
    leave_bootloader wait_for same_bootloader flash_task flash_held flash_prepared flash_image
    flash_end prepare padded write_pages verify_pages write_page patch_vectors is_jmp patch_at
    jmp_target buf2u32 rjmp_to_bootloader rjmp_reset_target ◌+ℤ◌ ◌-ℤ◌ same_bytes is_rjmp patched
    u32tobuf jmp_opcode
run_ok = refl

device_space : ready.device.app_space ≡ 0x7F00
unfolding check_task start_task check_held check_answered finish enter_bootloader enter_by
    reset_into_bootloader get_sync sync_loop attempt on_reply settle read_boot_info read_flash
    command read_rest read_ok mcuid_of sync_info features_of evaluate evaluate_table
    leave_bootloader wait_for
device_space = refl

device_vector : (ready.device.vector ≡ true) × (ready.device.vector_num ≡ 25)
unfolding check_task start_task check_held check_answered finish enter_bootloader enter_by
    reset_into_bootloader get_sync sync_loop attempt on_reply settle read_boot_info read_flash
    command read_rest read_ok mcuid_of sync_info features_of evaluate evaluate_table
    leave_bootloader wait_for
device_vector = (refl, refl)

small : ready.device.app_space ≤ flash_size
small = omega (arith, device_space)

flash_task_verified_example :
    (Chip.memory run.1 ≡ overwrite (sent ready) (Chip.memory chip))
    × (length (sent ready) ≤ ready.device.app_space)
flash_task_verified_example = flash_task_verified chip-IsUrboot ready chip small run_ok

flash_task_keeps_bootloader_example : Chip.memory run.1 0x7FFA ≡ Chip.memory chip 0x7FFA
flash_task_keeps_bootloader_example =
    flash_task_keeps_bootloader chip-IsUrboot ready chip small 0x7FFA (omega (arith, device_space))

-- A state that no check has filled: the bootloader is another.
abbrev unchecked : State
unchecked = record initial { image = firmware }

abbrev refused_run : State × Chip
refused_run = flash_task chip_port unchecked chip

refused_result : refused_run.0.result ≡ flash_failed not_same false
unfolding check_task start_task check_held check_answered finish enter_bootloader enter_by
    reset_into_bootloader get_sync sync_loop attempt on_reply settle read_boot_info read_flash
    command read_rest read_ok mcuid_of sync_info features_of evaluate evaluate_table
    leave_bootloader wait_for same_bootloader flash_task flash_held flash_prepared flash_image
    flash_end prepare padded write_pages verify_pages write_page patch_vectors is_jmp patch_at
    jmp_target buf2u32 rjmp_to_bootloader rjmp_reset_target ◌+ℤ◌ ◌-ℤ◌ same_bytes is_rjmp patched
    u32tobuf jmp_opcode
refused_result = refl

flash_task-Unwritten_example : Chip.memory refused_run.1 ≡ Chip.memory chip
flash_task-Unwritten_example =
    flash_task-Unwritten chip-IsUrboot unchecked chip (omega arith) (rw refused_result refl)

fresh : entry (padded ready.image) ≢ pos ready.device.app_space
unfolding padded is_jmp jmp_target buf2u32
fresh e = absurd (ground (arith, device_space, e))

flash_task_reaches_bootloader_example :
    IsRjmp (chip_word (Chip.memory run.1))
    × (rjmp_reset_target (chip_word (Chip.memory run.1)) flash_size ≡ pos ready.device.app_space)
flash_task_reaches_bootloader_example =
    flash_task_reaches_bootloader chip-IsUrboot ready chip (omega (arith, device_space))
      (omega (arith, device_vector.1)) device_vector.0 fresh run_ok

abbrev found : BootInfo
found = record { insync = 32; ok = 120; table = table; table_read = true }

found_ok : (evaluate found).compatible ≡ true
unfolding evaluate evaluate_table mcuid_of sync_info features_of
found_ok = refl

-- The calls that lead to a flash: the check, the file, the preview.
abbrev hex : List ℕ
hex = codes ":040000000C94340028\n:00000001FF\n"

-- Any function stands for SHA-256.
abbrev digest : List ℕ → List ℕ
digest bytes = take 2 bytes

abbrev loaded : State
loaded = stage firmware [] (digest firmware) known

loaded_ok : stage_hex digest hex [] known ≡ ok (EspErr.esp_ok, loaded)
unfolding check_task start_task check_held check_answered finish enter_bootloader enter_by
    reset_into_bootloader get_sync sync_loop attempt on_reply settle read_boot_info read_flash
    command read_rest read_ok mcuid_of sync_info features_of evaluate evaluate_table
    leave_bootloader wait_for stage_hex stage decode_hex parse_line check_rec hex_bytes trim_end
    apply
loaded_ok = refl

abbrev matched : State
matched = (preview_task chip_port (start_preview true true loaded).1 chip).0

matched-Reachable : Reachable chip_port digest matched
matched-Reachable =
    let begun = by_step initial _ at_start (check_started true true initial) in
    let read = by_step _ known begun (checked (start_check true true initial).1 chip) in
    let filled = by_step known _ read (hex_staged hex [] known (EspErr.esp_ok, loaded) loaded_ok) in
    let asked = by_step loaded _ filled (preview_started true true loaded) in
    by_step _ matched asked (previewed (start_preview true true loaded).1 chip)

matched_starts : (start_flash true 1 true matched).0 ≡ EspErr.esp_ok
unfolding check_task start_task check_held check_answered finish enter_bootloader enter_by
    reset_into_bootloader get_sync sync_loop attempt on_reply settle read_boot_info read_flash
    command read_rest read_ok mcuid_of sync_info features_of evaluate evaluate_table
    leave_bootloader wait_for stage start_preview preview_task preview_read same_bootloader
    same_bytes rjmp_to_bootloader start_flash can_flash blocker blocker_of
matched_starts = refl

Reachable-IsValid_example : IsValid digest matched
Reachable-IsValid_example = Reachable-IsValid matched matched-Reachable

start_flash-CanFlash_example : CanFlash matched true 1
start_flash-CanFlash_example =
    start_flash-CanFlash matched true 1 true matched-Reachable matched_starts
