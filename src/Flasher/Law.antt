-- ===== src/Flasher/Law.antt =====
-- What svs_flasher.cpp relies on of a bootloader at the other end of the line, and which of its calls
-- leave the chip's flash as it is.
use svs_bridge.Base.{
  ℕ, zero, suc, ◌+◌, ◌-◌, ◌^◌, ◌≤◌, ◌<◌, ◌≡◌, ◌≢◌, ◌⊎◌, inl, inr, refl, ap, ◌∙◌, Bool, true, false,
  not, ◌&&◌, ◌||◌, List, [], ◌∷◌, arith, ltb, ◌==◌, if◌then◌else◌, Bool-cases, length, get_or,
}
use svs_bridge.Flasher.{
  EspErr, is_ok, Port, Sync, ResetTiming, cmd_timeout, sync_timeout, drain_quiet, eop, cmd_get_sync,
  max_sync_attempts, mcu_id, ur_prog_page_fl, flash_size, page_size, reset_timings,
}
use svs_bridge.Flasher.Line.{
  is_byte, read_ok, read_rest, command, read_request, after_attempt, read_flash, write_request,
  write_page, leave_bootloader, reset_into_bootloader, Attempt, failed, synced, again, on_reply,
  attempt, sync_loop, settle, get_sync, enter_with, enter_by, enter_bootloader, wait_for,
}
use svs_bridge.Flasher.Boot.{read_boot_info, is_stk500, mcuid_of, features_of, reads_flash}

-- `flash w` is what the chip's flash holds. Of urprotocol: only the command that programs a page
-- changes flash, and only that page; the bytes of an answered read are those in flash.
pub record IsUrboot {W : Type 0} (port : Port W) (flash : W → ℕ → ℕ) : Type 0 where
  pub begin_keeps : (baud : ℕ) (w : W) → flash (port.raw_begin baud w).1 ≡ flash w
  pub end_keeps : (w : W) → flash (port.raw_end w) ≡ flash w
  pub lines_keep : (d r : Bool) (w : W) → flash (port.raw_set_lines d r w).1 ≡ flash w
  pub read_keeps : (n t : ℕ) (w : W) → flash (port.raw_read n t w).1 ≡ flash w
  pub drain_keeps : (t : ℕ) (w : W) → flash (port.raw_drain t w) ≡ flash w
  pub delay_keeps : (t : ℕ) (w : W) → flash (port.delay t w) ≡ flash w
  pub other_keeps :
      (bytes : List ℕ) (w : W)
      → get_or bytes 0 0 ≢ ur_prog_page_fl
      → flash (port.raw_write bytes w).1 ≡ flash w
  pub page_keeps :
      (addr : ℕ) (page : List ℕ) (w : W) (a : ℕ)
      → addr < 2 ^ 16
      → length page ≡ page_size
      → (a < addr) ⊎ (addr + page_size ≤ a)
      → flash (port.raw_write (write_request addr page) w).1 a ≡ flash w a
  pub read_back :
      (sync : Sync) (addr : ℕ) (buf : List ℕ) (w : W)
      → addr + length buf ≤ flash_size
      → (read_flash port sync addr buf w).0.0 ≡ EspErr.esp_ok
      → (i : ℕ) → i < length buf
      → get_or (read_flash port sync addr buf w).0.1 i 0 ≡ flash w (addr + i)

module _ {W : Type 0} {port : Port W} {flash : W → ℕ → ℕ} (law : IsUrboot port flash) where
  read_ok_keeps :
      (sync : Sync) (resp : List ℕ) (w : W) → flash (read_ok port sync resp w).1 ≡ flash w
  unfolding read_ok
  read_ok_keeps sync resp w = law.read_keeps 1 cmd_timeout w

  read_rest_keeps :
      (sync : Sync) (resp : List ℕ) (w : W) → flash (read_rest port sync resp w).1 ≡ flash w
  unfolding read_rest
  read_rest_keeps sync resp w = elim (Bool-cases (ltb 0 (length resp))) [
    | inr f ↦ rw f (read_ok_keeps sync resp w)
    | inl t ↦
        elim (Bool-cases (length (port.raw_read (length resp) cmd_timeout w).0 == length resp)) [
          | inl e ↦ rw (t, e) (read_ok_keeps sync _ _ ∙ law.read_keeps (length resp) cmd_timeout w)
          | inr e ↦ rw (t, e) (law.read_keeps (length resp) cmd_timeout w)
        ]
  ]

  -- After a command the flash is what its request made it.
  pub command-flash :
      (sync : Sync) (cmd resp : List ℕ) (w : W)
      → flash (command port sync cmd resp w).1 ≡ flash (port.raw_write cmd w).1
  unfolding command
  command-flash sync cmd resp w = elim (Bool-cases (is_ok (port.raw_write cmd w).0)) [
    | inr f ↦ rw f refl
    | inl t ↦
        let w1 = (port.raw_write cmd w).1 in
        elim (Bool-cases (is_byte (port.raw_read 1 cmd_timeout w1).0 sync.insync)) [
          | inl e ↦ rw (t, e) (read_rest_keeps sync resp _ ∙ law.read_keeps 1 cmd_timeout w1)
          | inr e ↦ rw (t, e) (law.read_keeps 1 cmd_timeout w1)
        ]
  ]

  pub read_flash_keeps :
      (sync : Sync) (addr : ℕ) (buf : List ℕ) (w : W)
      → flash (read_flash port sync addr buf w).1 ≡ flash w
  unfolding read_flash
  read_flash_keeps sync addr buf w =
      command-flash sync (read_request addr (length buf)) buf w
      ∙ law.other_keeps (read_request addr (length buf)) w (λ e. omega arith)

  pub leave_bootloader_keeps :
      (sync : Sync) (w : W) → flash (leave_bootloader port sync w) ≡ flash w
  unfolding leave_bootloader
  leave_bootloader_keeps sync w = command-flash sync _ [] w ∙ law.other_keeps _ w (λ e. omega arith)

  pub write_page_keeps :
      (sync : Sync) (addr : ℕ) (page : List ℕ) (w : W) (a : ℕ)
      → addr < 2 ^ 16
      → length page ≡ page_size
      → (a < addr) ⊎ (addr + page_size ≤ a)
      → flash (write_page port sync addr page w).1 a ≡ flash w a
  unfolding write_page
  write_page_keeps sync addr page w a small full away =
      ap (λ (f : ℕ → ℕ). f a) (command-flash sync (write_request addr page) [] w)
      ∙ law.page_keeps addr page w a small full away

  reset_keeps : (t : ResetTiming) (w : W) → flash (reset_into_bootloader port t w).1 ≡ flash w
  unfolding reset_into_bootloader
  reset_keeps t w =
      let w1 = (port.raw_set_lines false false w).1 in
      let w2 = (port.raw_set_lines true true (port.delay 20 w1)).1 in
      let w3 = (port.raw_set_lines false false (port.delay t.pulse_ms w2)).1 in
      let k1 : flash w1 ≡ flash w = law.lines_keep false false w in
      let k2 : flash w2 ≡ flash w =
        law.lines_keep true true (port.delay 20 w1) ∙ law.delay_keeps 20 w1 ∙ k1 in
      let k3 : flash w3 ≡ flash w =
        law.lines_keep false false (port.delay t.pulse_ms w2)
        ∙ law.delay_keeps t.pulse_ms w2
        ∙ k2 in
      elim (Bool-cases (is_ok (port.raw_set_lines false false w).0)) [
        | inr a ↦ rw a k1
        | inl a ↦ elim (Bool-cases (is_ok (port.raw_set_lines true true (port.delay 20 w1)).0)) [
          | inr b ↦ rw (a, b) k2
          | inl b ↦
              elim (Bool-cases
                (is_ok (port.raw_set_lines false false (port.delay t.pulse_ms w2)).0)) [
                  | inr c ↦ rw (a, b, c) k3
                  | inl c ↦ rw (a, b, c) (law.delay_keeps t.wait_ms w3 ∙ k3)
                ]
        ]
      ]

  abbrev world : Attempt W → W
  world (failed w) = w
  world (synced w) = w
  world (again seen sync w) = w

  on_reply_keeps :
      (seen : Bool) (sync : Sync) (got : List ℕ) (w : W)
      → flash (world (on_reply port seen sync got w)) ≡ flash w
  unfolding on_reply
  on_reply_keeps seen sync [] w = refl
  on_reply_keeps seen sync (a ∷ []) w = refl
  on_reply_keeps seen sync (a ∷ b ∷ []) w =
      elim (Bool-cases (not seen || (not (a == sync.insync) || (not (b == sync.ok) || a == b)))) [
        | inl t ↦ rw t (law.drain_keeps drain_quiet w)
        | inr f ↦ rw f refl
      ]
  on_reply_keeps seen sync (a ∷ b ∷ c ∷ bs) w = refl

  attempt_keeps :
      (k : ℕ) (seen : Bool) (sync : Sync) (w : W)
      → flash (world (attempt port k seen sync w)) ≡ flash w
  unfolding attempt
  attempt_keeps k seen sync w =
      let req : List ℕ = (if k == 0 then cmd_get_sync else eop) ∷ eop ∷ [] in
      let w1 = (port.raw_write req w).1 in
      let sent : flash w1 ≡ flash w = law.other_keeps req w (λ e. ground arith) in
      elim (Bool-cases (is_ok (port.raw_write req w).0)) [
        | inl t ↦ rw t (
            on_reply_keeps seen sync (port.raw_read 2 sync_timeout w1).0 _
            ∙ law.read_keeps 2 sync_timeout w1
            ∙ sent)
        | inr f ↦ rw f sent
      ]

  after_keeps :
      (sync : Sync) (a : Attempt W) (next : Bool → Sync → W → Bool × Sync × W) (w : W)
      → flash (world a) ≡ flash w
      → ((seen : Bool) (sync : Sync) (w' : W) → flash (next seen sync w').2 ≡ flash w')
      → flash (after_attempt sync a next).2 ≡ flash w
  after_keeps sync (failed w') next w h rest = h
  after_keeps sync (synced w') next w h rest = h
  after_keeps sync (again seen' sync' w') next w h rest = rest seen' sync' w' ∙ h

  sync_loop_keeps :
      (left k : ℕ) (seen : Bool) (sync : Sync) (w : W)
      → flash (sync_loop port left k seen sync w).2 ≡ flash w
  unfolding sync_loop
  sync_loop_keeps zero k seen sync w = refl
  sync_loop_keeps (suc left) k seen sync w =
      after_keeps sync (attempt port k seen sync w) _ w (attempt_keeps k seen sync w)
        (λ seen' sync' w'. sync_loop_keeps left (suc k) seen' sync' w')

  settle_keeps : (w : W) → flash (settle port w) ≡ flash w
  unfolding settle
  settle_keeps w =
      let w1 = (port.raw_write (eop ∷ []) w).1 in
      let w2 = (port.raw_read 1 sync_timeout w1).1 in
      let k : flash w2 ≡ flash w =
        law.read_keeps 1 sync_timeout w1 ∙ law.other_keeps (eop ∷ []) w (λ e. omega arith) in
      elim (Bool-cases (length (port.raw_read 1 sync_timeout w1).0 == 0)) [
        | inl t ↦
            rw (t, settle)
              (law.drain_keeps drain_quiet _ ∙ law.other_keeps (eop ∷ []) w2 (λ e. omega arith) ∙ k)
        | inr f ↦ rw (f, settle) (law.drain_keeps drain_quiet w2 ∙ k)
      ]

  get_sync_keeps : (sync : Sync) (w : W) → flash (get_sync port sync w).2 ≡ flash w
  unfolding get_sync
  get_sync_keeps sync w =
      let k = sync_loop_keeps max_sync_attempts 0 false sync w in
      elim (Bool-cases (sync_loop port max_sync_attempts 0 false sync w).0) [
        | inl t ↦ rw t (settle_keeps _ ∙ k)
        | inr f ↦ rw f k
      ]

  enter_with_keeps :
      (t : ResetTiming) (sync : Sync) (w : W) → flash (enter_with port t sync w).2 ≡ flash w
  enter_with_keeps t sync w = elim (Bool-cases (reset_into_bootloader port t w).0) [
    | inl done ↦ rw done (get_sync_keeps sync _ ∙ reset_keeps t w)
    | inr lost ↦ rw lost (reset_keeps t w)
  ]

  enter_by_keeps :
      (ts : List ResetTiming) (sync : Sync) (w : W) → flash (enter_by port ts sync w).2 ≡ flash w
  unfolding enter_by
  enter_by_keeps [] sync w = refl
  enter_by_keeps (t ∷ ts) sync w =
      let k = enter_with_keeps t sync w in
      elim (Bool-cases (enter_with port t sync w).0) [
        | inl found ↦ rw found k
        | inr lost ↦ rw lost (enter_by_keeps ts _ _ ∙ law.drain_keeps drain_quiet _ ∙ k)
      ]

  pub enter_bootloader_keeps :
      (sync : Sync) (w : W) → flash (enter_bootloader port sync w).2 ≡ flash w
  unfolding enter_bootloader
  enter_bootloader_keeps = enter_by_keeps reset_timings

  pub read_boot_info_keeps :
      (sync : Sync) (table : List ℕ) (w : W) → flash (read_boot_info port sync table w).1 ≡ flash w
  unfolding read_boot_info
  read_boot_info_keeps sync table w = elim (Bool-cases (is_stk500 sync.insync sync.ok)) [
    | inl a ↦ rw a refl
    | inr a ↦
        elim (Bool-cases (
          mcuid_of sync.insync sync.ok == mcu_id
          && reads_flash (features_of sync.insync sync.ok))) [
            | inl b ↦ rw (a, b) (read_flash_keeps sync (flash_size - 6) table w)
            | inr b ↦ rw (a, b) refl
          ]
  ]

  pub wait_for_keeps : (left before : ℕ) (w : W) → flash (wait_for port left before w).1 ≡ flash w
  unfolding wait_for
  wait_for_keeps zero before w = refl
  wait_for_keeps (suc left) before w =
      let w' = port.delay 100 w in
      elim (Bool-cases ((port.info w').boots_seen == before)) [
        | inl t ↦ rw t (wait_for_keeps left before w' ∙ law.delay_keeps 100 w)
        | inr f ↦ rw f (law.delay_keeps 100 w)
      ]
