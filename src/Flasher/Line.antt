-- ===== src/Flasher/Line.antt =====
-- platform/esp32/main/svs_flasher.cpp: the urclock protocol over the serial line.
use svs_bridge.Base.{
  ℕ, zero, suc, ◌/◌, ◌%◌, ◌^◌, Bool, true, false, not, ◌||◌, List, [], ◌∷◌, ◌++◌, ltb, ◌==◌,
  if◌then◌else◌, length, drop,
}
use svs_bridge.Flasher.{
  EspErr, is_ok, Port, Sync, ResetTiming, reset_timings, cmd_timeout, sync_timeout, drain_quiet,
  max_sync_attempts, banner_wait_ms, eop, cmd_get_sync, cmd_leave_progmode, ur_prog_page_fl,
  ur_read_page_fl, page_size,
}

-- A buffer after bytes were read into its front.
abbrev pub overlay : List ℕ → List ℕ → List ℕ
overlay got buf = got ++ drop (length got) buf

abbrev pub is_byte : List ℕ → ℕ → Bool
is_byte (b ∷ []) want = b == want
is_byte [] want = false
is_byte (b ∷ c ∷ bs) want = false

abbrev pub read_request : ℕ → ℕ → List ℕ
read_request addr len = ur_read_page_fl ∷ (addr % 256) ∷ (addr / 2 ^ 8) ∷ (len % 256) ∷ eop ∷ []

abbrev pub write_request : ℕ → List ℕ → List ℕ
write_request addr page =
    ur_prog_page_fl ∷ (addr % 256) ∷ (addr / 2 ^ 8) ∷ page_size ∷ (page ++ (eop ∷ []))

-- How one attempt at a sync ends: the loop is left, or goes on.
pub data Attempt (W : Type 0) : Type 0 where
  failed : W → Attempt W
  synced : W → Attempt W
  again : Bool → Sync → W → Attempt W

-- What follows an attempt; `next` is the rest of the loop.
abbrev pub after_attempt :
    {W : Type 0} → Sync → Attempt W → (Bool → Sync → W → Bool × Sync × W) → Bool × Sync × W
after_attempt sync (failed w) next = (false, sync, w)
after_attempt sync (synced w) next = (true, sync, w)
after_attempt sync (again seen sync' w) next = next seen sync' w

module _ {W : Type 0} (port : Port W) where
  -- The closing OK of an answer.
  unfoldable pub read_ok : Sync → List ℕ → W → (EspErr × List ℕ) × W
  read_ok sync resp w =
      let (b, w') = port.raw_read 1 cmd_timeout w in
      ((if is_byte b sync.ok then EspErr.esp_ok else EspErr.invalid_response, resp), w')

  unfoldable pub read_rest : Sync → List ℕ → W → (EspErr × List ℕ) × W
  read_rest sync resp w =
      let (r, w') = port.raw_read (length resp) cmd_timeout w in
      if not (ltb 0 (length resp))
      then read_ok sync resp w
      else if length r == length resp
      then read_ok sync (overlay r resp) w'
      else ((EspErr.timed_out, overlay r resp), w')

  -- `command`: the buffer for the answer is given, and given back.
  unfoldable pub command : Sync → List ℕ → List ℕ → W → (EspErr × List ℕ) × W
  command sync cmd resp w =
      let (e, w1) = port.raw_write cmd w in
      let (b, w2) = port.raw_read 1 cmd_timeout w1 in
      if not (is_ok e)
      then ((e, resp), w1)
      else if is_byte b sync.insync
      then read_rest sync resp w2
      else ((EspErr.invalid_response, resp), w2)

  unfoldable pub read_flash : Sync → ℕ → List ℕ → W → (EspErr × List ℕ) × W
  read_flash sync addr buf = command sync (read_request addr (length buf)) buf

  unfoldable pub write_page : Sync → ℕ → List ℕ → W → EspErr × W
  write_page sync addr page w =
      let (r, w') = command sync (write_request addr page) [] w in (r.0, w')

  unfoldable pub leave_bootloader : Sync → W → W
  leave_bootloader sync w = (command sync (cmd_leave_progmode ∷ eop ∷ []) [] w).1

  unfoldable pub reset_into_bootloader : ResetTiming → W → Bool × W
  reset_into_bootloader t w =
      let (e1, w1) = port.raw_set_lines false false w in
      let (e2, w2) = port.raw_set_lines true true (port.delay 20 w1) in
      let (e3, w3) = port.raw_set_lines false false (port.delay t.pulse_ms w2) in
      if not (is_ok e1)
      then (false, w1)
      else if not (is_ok e2)
      then (false, w2)
      else if not (is_ok e3)
      then (false, w3)
      else (true, port.delay t.wait_ms w3)

  unfoldable pub on_reply : Bool → Sync → List ℕ → W → Attempt W
  on_reply seen sync [] w = again seen sync w
  on_reply seen sync (a ∷ []) w = again seen sync w
  on_reply seen sync (a ∷ b ∷ []) w =
      if not seen || (not (a == sync.insync) || (not (b == sync.ok) || a == b))
      then again true (record { insync = a; ok = b }) (port.raw_drain drain_quiet w)
      else synced w
  on_reply seen sync (a ∷ b ∷ c ∷ bs) w = again seen sync w

  unfoldable pub attempt : ℕ → Bool → Sync → W → Attempt W
  attempt k seen sync w =
      let (e, w1) = port.raw_write ((if k == 0 then cmd_get_sync else eop) ∷ eop ∷ []) w in
      let (got, w2) = port.raw_read 2 sync_timeout w1 in
      if is_ok e then on_reply seen sync got w2 else failed w1

  -- The loop of `get_sync`, `left` attempts from number `k` on.
  unfoldable pub sync_loop : ℕ → ℕ → Bool → Sync → W → Bool × Sync × W
  sync_loop zero k seen sync w = (false, sync, w)
  sync_loop (suc left) k seen sync w =
      after_attempt sync (attempt k seen sync w)
        (λ seen' sync' w'. sync_loop left (suc k) seen' sync' w')

  -- One byte out of step: an extra EOP, and a second one if the first got no reply.
  unfoldable pub settle : W → W
  settle w =
      let (e, w1) = port.raw_write (eop ∷ []) w in
      let (got, w2) = port.raw_read 1 sync_timeout w1 in
      let w3 = if length got == 0 then (port.raw_write (eop ∷ []) w2).1 else w2 in
      port.raw_drain drain_quiet w3

  unfoldable pub get_sync : Sync → W → Bool × Sync × W
  get_sync sync w =
      let (found, sync', w') = sync_loop max_sync_attempts 0 false sync w in
      (found, sync', if found then settle w' else w')

  abbrev pub enter_with : ResetTiming → Sync → W → Bool × Sync × W
  enter_with t sync w =
      let (reset, w1) = reset_into_bootloader t w in
      if reset then get_sync sync w1 else (false, sync, w1)

  -- `enter_bootloader`, over the timings that are left to try.
  unfoldable pub enter_by : List ResetTiming → Sync → W → Bool × Sync × W
  enter_by [] sync w = (false, sync, w)
  enter_by (t ∷ ts) sync w =
      let (found, sync', w') = enter_with t sync w in
      let rest = enter_by ts sync' (port.raw_drain drain_quiet w') in
      if found then (true, sync', w') else rest

  unfoldable pub enter_bootloader : Sync → W → Bool × Sync × W
  enter_bootloader = enter_by reset_timings

  -- `wait_for_banner`, for `left` more tenths of a second: the firmware, empty if none is seen.
  unfoldable pub wait_for : ℕ → ℕ → W → List ℕ × W
  wait_for zero before w = ([], w)
  wait_for (suc left) before w =
      let w' = port.delay 100 w in
      let rest = wait_for left before w' in
      if (port.info w').boots_seen == before then rest else ((port.info w').firmware, w')

  abbrev pub wait_for_banner : ℕ → W → List ℕ × W
  wait_for_banner = wait_for (banner_wait_ms / 100)
