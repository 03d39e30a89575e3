-- ===== src/Flasher/Outcomes.antt =====
-- platform/esp32/main/svs_flasher.cpp: what a flash leaves on the chip.
use svs_bridge.Base.{
  ℕ, ◌*◌, ◌/◌, ◌≤◌, ◌<◌, ◌≡◌, inl, inr, refl, ap, sym, fun_ext, ◌∙◌, Bool, true, false, List,
  Option, none, some, arith, ltb, if◌then◌else◌, Bool-cases, length, get_or,
}
use svs_bridge.Flasher.{
  is_ok, Port, Sync, State, no_boot, Report, flash_failed, flashed, FlashError, no_answer, finish,
  set_phase, entering, flash_size, flash_baud, banner_wait_ms,
}
use svs_bridge.Flasher.Line.{enter_bootloader, leave_bootloader}
use svs_bridge.Flasher.Boot.{read_boot_info}
use svs_bridge.Flasher.Jobs.{
  padded, page_count, write_pages, verify_after, flash_end, flash_image, prepare, flash_prepared,
  flash_held, flash_task,
}
use svs_bridge.Flasher.Law.{
  IsUrboot, enter_bootloader_keeps, read_boot_info_keeps, wait_for_keeps, leave_bootloader_keeps,
}
use svs_bridge.Flasher.Pages.{write_pages_keeps, verify_pages_keeps, verify_pages-flash}
use svs_bridge.Flasher.Sent.{patch_of, sent, length-sent, IsReady, prepare-sent}

module _ {W : Type 0} {port : Port W} {flash : W → ℕ → ℕ} (law : IsUrboot port flash) where
  flash_end_keeps :
      (sync : Sync) (before : ℕ) (written : Bool) (o : Option FlashError) (s : State) (w : W)
      → flash (flash_end port sync before written o s w).1 ≡ flash w
  unfolding flash_end
  flash_end_keeps sync before written none s w =
      wait_for_keeps law (banner_wait_ms / 100) before _
      ∙ law.end_keeps (leave_bootloader port sync w)
      ∙ leave_bootloader_keeps law sync w
  flash_end_keeps sync before written (some e) s w = law.end_keeps w

  flash_end_ok :
      (sync : Sync) (before : ℕ) (written : Bool) (o : Option FlashError) (s : State) (w : W)
      → (flash_end port sync before written o s w).0.result_ok ≡ true
      → o ≡ none
  unfolding flash_end finish
  flash_end_ok sync before written none s w h = refl
  flash_end_ok sync before written (some e) s w h = absurd (ground (arith, h))

  flash_end_failed :
      (sync : Sync) (before : ℕ) (written : Bool) (e : FlashError) (s : State) (w : W)
      → (flash_end port sync before written (some e) s w).0.result_ok ≡ false
  unfolding flash_end finish
  flash_end_failed sync before written e s w = refl

  module _ (sync : Sync) (image : List ℕ) (pages : ℕ) (full : length image ≡ pages * 128)
      (few : pages ≤ 256) where
    verify_after_keeps :
        (o : Option FlashError) (s : State) (w : W)
        → flash (verify_after port sync image pages o s w).2 ≡ flash w
    verify_after_keeps none s w = verify_pages_keeps law sync image pages full few pages 0 s w
    verify_after_keeps (some e) s w = refl

    verify_after-flash :
        (o : Option FlashError) (s : State) (w : W) (a : ℕ)
        → (verify_after port sync image pages o s w).0 ≡ none
        → a < pages * 128
        → flash w a ≡ get_or image a 0
    verify_after-flash none s w a h low =
        verify_pages-flash law sync image pages full few pages 0 s w a (omega arith) (omega arith) h
          (omega arith) (omega arith)
    verify_after-flash (some e) s w a h low = absurd (ground (arith, h))

    flash_image_keeps :
        (before : ℕ) (s : State) (w : W) (a : ℕ)
        → pages * 128 ≤ a
        → flash (flash_image port sync before pages image s w).1 a ≡ flash w a
    unfolding flash_image
    flash_image_keeps before s w a far =
        let (o, s', w') = write_pages port sync image pages pages 0 s w in
        let (o', s'', w'') = verify_after port sync image pages o s' w' in
        ap (λ (f : ℕ → ℕ). f a)
          (flash_end_keeps sync before (ltb 0 pages) o' s'' w'' ∙ verify_after_keeps o s' w')
        ∙ write_pages_keeps law sync image pages full few pages 0 s w a (omega arith)
            (inr (omega arith))

    flash_image_verified :
        (before : ℕ) (s : State) (w : W) (a : ℕ)
        → (flash_image port sync before pages image s w).0.result_ok ≡ true
        → a < pages * 128
        → flash (flash_image port sync before pages image s w).1 a ≡ get_or image a 0
    unfolding flash_image
    flash_image_verified before s w a ok low =
        let (o, s', w') = write_pages port sync image pages pages 0 s w in
        let (o', s'', w'') = verify_after port sync image pages o s' w' in
        ap (λ (f : ℕ → ℕ). f a)
          (flash_end_keeps sync before (ltb 0 pages) o' s'' w'' ∙ verify_after_keeps o s' w')
        ∙ verify_after-flash o s' w' a (flash_end_ok sync before (ltb 0 pages) o' s'' w'' ok) low

-- Memory with the bytes of an image written from 0 on.
abbrev pub overwrite : List ℕ → (ℕ → ℕ) → ℕ → ℕ
overwrite image memory a = if ltb a (length image) then get_or image a 0 else memory a

overwrite_by :
    (image wanted : List ℕ) (before now : ℕ → ℕ)
    → image ≡ wanted
    → ((a : ℕ) → a < length image → now a ≡ get_or image a 0)
    → ((a : ℕ) → length image ≤ a → now a ≡ before a)
    → (a : ℕ) → now a ≡ overwrite wanted before a
overwrite_by image wanted before now same low high a =
    (elim (Bool-cases (ltb a (length image))) [
      | inl t ↦ low a (ground arith) ∙ sym (ap (λ b. if b then get_or image a 0 else before a) t)
      | inr f ↦ high a (ground arith) ∙ sym (ap (λ b. if b then get_or image a 0 else before a) f)
    ])
    ∙ ap (λ i. overwrite i before a) same

-- A report that nothing was written.
abbrev pub Unwritten : Report → Type 0
Unwritten (flash_failed e written) = written ≡ false
Unwritten (flashed firmware) = ⊥
Unwritten Report.no_report = Unit
Unwritten Report.not_available = Unit
Unwritten Report.could_not_start = Unit
Unwritten Report.check_unanswered = Unit
Unwritten (Report.check_done p b) = Unit
Unwritten Report.preview_unanswered = Unit
Unwritten Report.preview_changed = Unit
Unwritten Report.preview_unread = Unit
Unwritten (Report.preview_compared same) = Unit

module _ {W : Type 0} {port : Port W} {flash : W → ℕ → ℕ} (law : IsUrboot port flash) where
  -- What holds after a flash, on every outcome.
  abbrev Safe : State → W → State × W → Type 0
  Safe s w r =
      ((a : ℕ) → s.device.app_space ≤ a → flash r.1 a ≡ flash w a)
      × (Unwritten r.0.result → flash r.1 ≡ flash w)
      × (r.0.result_ok ≡ true → (flash r.1 ≡ overwrite (sent s) (flash w)) × IsReady s (sent s))

  Safe-moved :
      (s : State) (w0 w : W) (r : State × W) → flash w0 ≡ flash w → Safe s w0 r → Safe s w r
  Safe-moved s w0 w r same (kept, unwritten, done) = (
    λ a far. kept a far ∙ ap (λ (f : ℕ → ℕ). f a) same,
    λ u. unwritten u ∙ same,
    λ ok. let (held, ready) = done ok in (held ∙ ap (overwrite (sent s)) same, ready),
  )

  same-Safe :
      (s : State) (w : W) (r : State × W) → flash r.1 ≡ flash w → r.0.result_ok ≡ false → Safe s w r
  same-Safe s w r same failed =
      (λ a far. ap (λ (f : ℕ → ℕ). f a) same, λ u. same, λ ok. absurd (ground (arith, failed, ok)))

  flash_end-Unwritten :
      (sync : Sync) (before : ℕ) (written : Bool) (o : Option FlashError) (s : State) (w : W)
      → Unwritten (flash_end port sync before written o s w).0.result
      → written ≡ false
  unfolding flash_end finish
  flash_end-Unwritten sync before written none s w u = absurd u
  flash_end-Unwritten sync before written (some e) s w u = u

  flash_image-Unwritten :
      (sync : Sync) (before pages : ℕ) (image : List ℕ) (s : State) (w : W)
      → length image ≡ pages * 128
      → pages ≤ 256
      → Unwritten (flash_image port sync before pages image s w).0.result
      → flash (flash_image port sync before pages image s w).1 ≡ flash w
  unfolding flash_image
  flash_image-Unwritten sync before pages image s w full few u =
      let (o, s', w') = write_pages port sync image pages pages 0 s w in
      let (o', s'', w'') = verify_after port sync image pages o s' w' in
      let none_sent = flash_end-Unwritten sync before (ltb 0 pages) o' s'' w'' u in
      let no_pages : pages ≡ 0 = ground (arith, none_sent) in
      fun_ext (λ a. flash_image_keeps law sync image pages full few before s w a (omega arith))

  prepared-Safe :
      (sync : Sync) (before : ℕ) (o : Option FlashError) (image : List ℕ) (s s' : State) (w : W)
      → s.device.app_space ≤ flash_size
      → (o ≡ none → IsReady s image)
      → Safe s w (flash_prepared port sync before (page_count s.image) o image s' w)
  unfolding flash_prepared
  prepared-Safe sync before none image s s' w small ready =
      let (same, room, patch_ok) = ready refl in
      let pages : ℕ = page_count s.image in
      let full : length image ≡ pages * 128 = ap length same ∙ length-sent s in
      (
        λ a far.
            flash_image_keeps law sync image (page_count s.image) full (omega arith) before s' w a
              (omega arith),
        flash_image-Unwritten sync before (page_count s.image) image s' w full (omega arith),
        λ ok. (
          fun_ext (
              overwrite_by image (sent s) (flash w) _ same
                (λ a low.
                  flash_image_verified law sync image pages full (omega arith) before s' w a ok
                    (omega arith))
                (λ a far.
                  flash_image_keeps law sync image pages full (omega arith) before s' w a
                    (omega arith))),
          (refl, room, patch_ok),
        ),
      )
  prepared-Safe sync before (some e) image s s' w small ready =
      same-Safe s w (flash_end port sync before false (some e) s' w)
        (flash_end_keeps law sync before false (some e) s' w)
        (flash_end_failed law sync before false e s' w)

  held-Safe :
      (before : ℕ) (s : State) (w : W)
      → s.device.app_space ≤ flash_size
      → Safe s w (flash_held port before s w)
  unfolding flash_held
  held-Safe before s w small =
      let (answered, sync, w1) = enter_bootloader port s.sync w in
      let (bi, w2) = read_boot_info port sync no_boot.table w1 in
      let k1 : flash w1 ≡ flash w = enter_bootloader_keeps law s.sync w in
      let k2 : flash w2 ≡ flash w = read_boot_info_keeps law sync no_boot.table w1 ∙ k1 in
      let s' = record s { sync = sync } in
      elim (Bool-cases (enter_bootloader port s.sync w).0) [
        | inr f ↦ rw f (
            same-Safe s w (flash_end port sync before false (some no_answer) s' w1)
              (flash_end_keeps law sync before false (some no_answer) s' w1 ∙ k1)
              (flash_end_failed law sync before false no_answer s' w1))
        | inl t ↦ rw t (
            Safe-moved s w2 w
              (flash_prepared port sync before (page_count s.image)
                (prepare s bi (padded s.image)).0 (prepare s bi (padded s.image)).1 s' w2)
              k2
              (prepared-Safe sync before (prepare s bi (padded s.image)).0
                (prepare s bi (padded s.image)).1 s s' w2 small (prepare-sent s bi)))
      ]

finish_result : (s : State) → (finish Report.not_available false s).result_ok ≡ false
unfolding finish
finish_result s = refl

task-Safe :
    {W : Type 0} {port : Port W} {flash : W → ℕ → ℕ} (law : IsUrboot port flash) (s : State) (w : W)
    → s.device.app_space ≤ flash_size
    → Safe law s w (flash_task port s w)
unfolding flash_task
task-Safe {port = port} law s w small = elim (Bool-cases (is_ok (port.raw_begin flash_baud w).0)) [
  | inr f ↦ rw f (
      same-Safe law s w (finish Report.not_available false s, (port.raw_begin flash_baud w).1)
        (law.begin_keeps flash_baud w) (finish_result s))
  | inl t ↦ rw t (
      Safe-moved law s (port.raw_begin flash_baud w).1 w
        (flash_held port (port.info w).boots_seen (set_phase entering 0 s)
          (port.raw_begin flash_baud w).1)
        (law.begin_keeps flash_baud w)
        (held-Safe law (port.info w).boots_seen (set_phase entering 0 s)
          (port.raw_begin flash_baud w).1 small))
]

module _ {W : Type 0} {port : Port W} {flash : W → ℕ → ℕ} (law : IsUrboot port flash) (s : State)
    (w : W) (small : s.device.app_space ≤ flash_size) where
  -- Where a flash reports success, the chip holds the staged image, padded with 0xFF to whole pages and
  -- patched for a vector bootloader, which fits below the bootloader; every other byte of its
  -- flash is as it was.
  pub flash_task_verified :
      (flash_task port s w).0.result_ok ≡ true
      → (flash (flash_task port s w).1 ≡ overwrite (sent s) (flash w))
        × (length (sent s) ≤ s.device.app_space)
  flash_task_verified done =
      let (held, (same, room, patch_ok)) = (task-Safe law s w small).2 done in
      (held, omega (arith, length-sent s))

  pub flash_task_patched :
      (flash_task port s w).0.result_ok ≡ true → s.device.vector ≡ true → (patch_of s).error ≡ none
  flash_task_patched done vector =
      let (held, (same, room, patch_ok)) = (task-Safe law s w small).2 done in patch_ok vector

  -- Whatever comes of a flash, the bootloader, from `app_space` on, is as it was; and so is the whole
  -- flash where the report does not say that it is incomplete or written.
  pub flash_task_keeps_bootloader :
      (a : ℕ) → s.device.app_space ≤ a → flash (flash_task port s w).1 a ≡ flash w a
  flash_task_keeps_bootloader = (task-Safe law s w small).0

  -- Where the report of a flash is not that the firmware is incomplete or written, the flash is as it
  -- was.
  pub flash_task-Unwritten :
      Unwritten (flash_task port s w).0.result → flash (flash_task port s w).1 ≡ flash w
  flash_task-Unwritten = (task-Safe law s w small).1
