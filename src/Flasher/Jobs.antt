-- ===== src/Flasher/Jobs.antt =====
-- platform/esp32/main/svs_flasher.cpp: the tasks that check, preview and flash. Only the running task
-- changes the state while it runs: the calls of the interface refuse or do nothing then.
use svs_bridge.Base.{
  ℕ, zero, suc, ◌+◌, ◌-◌, ◌*◌, ◌/◌, ◌%◌, ◌^◌, Bool, true, false, not, List, [], ◌∷◌, ◌++◌, Option,
  none, some, ltb, ◌==◌, if◌then◌else◌, length, get_or, take, drop, replicate, same_bytes, bit_or,
}
use svs_bridge.Base.Int.{pos}
use svs_bridge.Vectors.{Patch, PatchError, patch_vectors, rjmp_to_bootloader}
use svs_bridge.Flasher.{
  is_ok, Port, Sync, BootInfo, no_boot, Device, no_device, State, FlashError, no_answer, not_same,
  does_not_fit, not_patched, write_failed, read_failed, differs_at, entering, reading_vector,
  writing, verifying, waiting, Report, not_available, check_unanswered, check_done,
  preview_unanswered, preview_changed, preview_unread, preview_compared, flash_failed, flashed,
  set_phase, finish, flash_size, page_size, flash_baud,
}
use svs_bridge.Flasher.Line.{
  enter_bootloader, leave_bootloader, read_flash, write_page, wait_for_banner,
}
use svs_bridge.Flasher.Boot.{read_boot_info, same_bootloader, evaluate}

abbrev is_empty : List ℕ → Bool
is_empty [] = true
is_empty (c ∷ cs) = false

abbrev pub has_error : Option FlashError → Bool
has_error none = false
has_error (some e) = true

-- Whole pages, the rest of the last one erased.
abbrev pub page_count : List ℕ → ℕ
page_count image = (length image + page_size - 1) / page_size

unfoldable pub padded : List ℕ → List ℕ
padded image = image ++ replicate (page_count image * page_size - length image) 0xFF

abbrev pub page_addr : ℕ → ℕ
page_addr i = i * page_size % 2 ^ 16

abbrev pub page_at : ℕ → List ℕ → List ℕ
page_at addr image = take page_size (drop addr image)

abbrev pub as_error : Option PatchError → Option FlashError
as_error none = none
as_error (some e) = some (not_patched e)

abbrev pub patch_error : Patch → Option FlashError
patch_error p = as_error p.error

-- The checks before anything is written: an error, or the image that is written.
unfoldable pub prepare : State → BootInfo → List ℕ → Option FlashError × List ℕ
prepare s bi image =
    let p = patch_vectors image s.device.app_space s.device.vector_num flash_size 0 (pos 0) in
    if not (same_bootloader bi s.checked_boot)
    then (some not_same, image)
    else if ltb s.device.app_space (length image)
    then (some does_not_fit, image)
    else if s.device.vector
    then (patch_error p, p.image)
    else (none, image)

-- The reset word on the chip against the rjmp that the bridge would write.
abbrev pub same_reset : List ℕ → ℕ → Bool
same_reset reset blstart =
    bit_or (get_or reset 0 0) (get_or reset 1 0 * 2 ^ 8) == rjmp_to_bootloader blstart flash_size

abbrev pub went_well : Report → Bool
went_well (preview_compared same) = same
went_well Report.no_report = false
went_well Report.not_available = false
went_well Report.could_not_start = false
went_well Report.check_unanswered = false
went_well (Report.check_done p b) = false
went_well Report.preview_unanswered = false
went_well Report.preview_changed = false
went_well Report.preview_unread = false
went_well (Report.flash_failed e b) = false
went_well (Report.flashed f) = false

module _ {W : Type 0} (port : Port W) where
  unfoldable pub check_answered : ℕ → ℕ → BootInfo → State → W → State × W
  check_answered before connection bi s w =
      let d = evaluate bi in
      let (firmware, w') = wait_for_banner port before w in
      (
        finish (check_done (if d.compatible then none else some d.problem) (is_empty firmware))
            d.compatible
            (set_phase waiting 0
              (record s { device = d; checked_boot = bi; checked_connection = connection })),
        w',
      )

  unfoldable pub check_held : ℕ → ℕ → State → W → State × W
  check_held before connection s w =
      let (answered, sync, w1) = enter_bootloader port s.sync w in
      let (bi, w2) = read_boot_info port sync no_boot.table w1 in
      if answered
      then check_answered before connection bi (record s { sync = sync })
          (port.raw_end (leave_bootloader port sync w2))
      else (
        finish check_unanswered false (record s { sync = sync; device = no_device }),
        port.raw_end w1,
      )

  unfoldable pub check_task : State → W → State × W
  check_task s w =
      let (e, w1) = port.raw_begin flash_baud w in
      if is_ok e
      then check_held (port.info w).boots_seen (port.info w).connections (set_phase entering 0 s) w1
      else (finish not_available false s, w1)

  unfoldable pub preview_read : Device → BootInfo → Sync → W → Report × W
  preview_read device checked sync w =
      let (bi, w1) = read_boot_info port sync no_boot.table w in
      let ((e, reset), w2) = read_flash port sync 0 (replicate 4 0) w1 in
      let w3 = (read_flash port sync (device.vector_num * 4) (replicate 4 0) w2).1 in
      if not (same_bootloader bi checked)
      then (preview_changed, leave_bootloader port sync w1)
      else if not (is_ok e)
      then (preview_unread, leave_bootloader port sync w2)
      else (preview_compared (same_reset reset device.app_space), leave_bootloader port sync w3)

  abbrev preview_held : Device → BootInfo → State → W → State × W
  preview_held device checked s w =
      let (answered, sync, w1) = enter_bootloader port s.sync w in
      let (result, w2) =
        if answered then preview_read device checked sync w1 else (preview_unanswered, w1) in
      (
        finish result (went_well result) (record s {
          sync = sync;
          device = record s.device { vector_verified = went_well result };
        }),
        port.raw_end w2,
      )

  unfoldable pub preview_task : State → W → State × W
  preview_task s w =
      let (e, w1) = port.raw_begin flash_baud w in
      if is_ok e
      then preview_held s.device s.checked_boot (set_phase reading_vector 0 s) w1
      else (finish not_available false s, w1)

  -- The pages from number `i` on, `left` of them, of `pages` in all.
  unfoldable pub write_pages : Sync → List ℕ → ℕ → ℕ → ℕ → State → W → Option FlashError × State × W
  write_pages sync image pages zero i s w = (none, s, w)
  write_pages sync image pages (suc left) i s w =
      let s' = set_phase writing (i * 50 / pages) s in
      let (e, w') = write_page port sync (page_addr i) (page_at (page_addr i) image) w in
      let rest = write_pages sync image pages left (suc i) s' w' in
      if is_ok e then rest else (some (write_failed (page_addr i)), s', w')

  unfoldable pub verify_pages :
      Sync → List ℕ → ℕ → ℕ → ℕ → State → W → Option FlashError × State × W
  verify_pages sync image pages zero i s w = (none, s, w)
  verify_pages sync image pages (suc left) i s w =
      let s' = set_phase verifying (50 + i * 50 / pages) s in
      let ((e, page), w') = read_flash port sync (page_addr i) (replicate page_size 0) w in
      let rest = verify_pages sync image pages left (suc i) s' w' in
      if not (is_ok e)
      then (some (read_failed (page_addr i)), s', w')
      else if same_bytes page (page_at (page_addr i) image)
      then rest
      else (some (differs_at (page_addr i)), s', w')

  abbrev pub verify_after :
      Sync → List ℕ → ℕ → Option FlashError → State → W → Option FlashError × State × W
  verify_after sync image pages none s w = verify_pages sync image pages pages 0 s w
  verify_after sync image pages (some e) s w = (some e, s, w)

  -- From the end of the flash on: `written` is whether a page was sent.
  unfoldable pub flash_end : Sync → ℕ → Bool → Option FlashError → State → W → State × W
  flash_end sync before written none s w =
      let (running, w') =
        wait_for_banner port before (port.raw_end (leave_bootloader port sync w)) in
      (finish (flashed running) true (set_phase waiting 100 s), w')
  flash_end sync before written (some e) s w =
      (finish (flash_failed e written) false s, port.raw_end w)

  -- The writing and verifying of an image that is ready.
  unfoldable pub flash_image : Sync → ℕ → ℕ → List ℕ → State → W → State × W
  flash_image sync before pages image s w =
      let (o, s', w') = write_pages sync image pages pages 0 s w in
      let (o', s'', w'') = verify_after sync image pages o s' w' in
      flash_end sync before (ltb 0 pages) o' s'' w''

  unfoldable pub flash_prepared : Sync → ℕ → ℕ → Option FlashError → List ℕ → State → W → State × W
  flash_prepared sync before pages none image s w = flash_image sync before pages image s w
  flash_prepared sync before pages (some e) image s w = flash_end sync before false (some e) s w

  unfoldable pub flash_held : ℕ → State → W → State × W
  flash_held before s w =
      let (answered, sync, w1) = enter_bootloader port s.sync w in
      let (bi, w2) = read_boot_info port sync no_boot.table w1 in
      let s' = record s { sync = sync } in
      let (o, image) = prepare s bi (padded s.image) in
      if answered
      then flash_prepared sync before (page_count s.image) o image s' w2
      else flash_end sync before false (some no_answer) s' w1

  unfoldable pub flash_task : State → W → State × W
  flash_task s w =
      let (e, w1) = port.raw_begin flash_baud w in
      if is_ok e
      then flash_held (port.info w).boots_seen (set_phase entering 0 s) w1
      else (finish not_available false s, w1)
