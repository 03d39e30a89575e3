-- ===== src/Flasher/Invariant.antt =====
-- platform/esp32/main/svs_flasher.cpp: what holds of the state whatever a task does.
use svs_bridge.Base.{
  ℕ, zero, suc, ◌+◌, ◌-◌, ◌*◌, ◌≤◌, ◌≡◌, ◌⊎◌, inl, inr, inl, inr, refl, ◌∙◌, Bool, true, false, not,
  ◌||◌, List, ◌/◌, ◌%◌, get_or, replicate, same_bytes, Option, none, some, arith, ltb, Bool-cases,
  length,
}
use svs_bridge.Flasher.{
  Problem, stk500, classic, unexpected_mcu, not_atmega, no_flash_read, cannot_read, no_page_erase,
  cannot_erase, no_information, unread, unrecognized, not_urboot, urboot, Phase, not_available,
  writing, verifying, page_size, Summary, is_ok, Port, Sync, State, Device, no_device, BootInfo,
  no_boot, FlashError, no_answer, Report, finish, set_phase, entering, flash_size, flash_baud,
}
use svs_bridge.Flasher.Line.{leave_bootloader, enter_bootloader, read_flash, write_page}
use svs_bridge.Flasher.Boot.{
  refused, accepted, read_boot_info, evaluate, evaluate_table, mcuid_of, is_urboot, is_vector,
  pages_of, vector_of, rjmp_of,
}
use svs_bridge.Flasher.Jobs.{
  check_answered, check_held, page_addr, page_at, padded, page_count, check_task, preview_task,
  flash_task, write_pages, verify_pages, verify_after, flash_end, flash_image, prepare,
  flash_prepared, flash_held,
}
use svs_bridge.Flasher.Recovery.{table_bounds}
use svs_bridge.Flasher.Api.{is_problem}

-- The bootloader begins on a page in the flash, and a bootloader that was refused has a problem.
pub record IsSound (d : Device) : Type 0 where
  pub fits : d.app_space ≤ flash_size
  pub whole : d.app_space % 128 ≡ 0
  pub explained : not d.checked || (d.compatible || is_problem d.problem) ≡ true

-- The staged image fits the chip, and its size and its SHA-256 are those that are described.
pub record IsValid (sha256 : List ℕ → List ℕ) (s : State) : Type 0 where
  pub sound : IsSound s.device
  pub image_fits : length s.image ≤ flash_size
  pub described : s.image_info.size ≡ length s.image
  pub hashed : (s.image_info.staged ≡ false) ⊎ (s.image_info.sha256 ≡ sha256 s.image)

-- What a task leaves alone.
pub record Same (s s' : State) : Type 0 where
  pub image : s'.image ≡ s.image
  pub image_info : s'.image_info ≡ s.image_info
  pub device : s'.device ≡ s.device

pub Same-IsValid :
    {sha256 : List ℕ → List ℕ} {s s' : State} → Same s s' → IsValid sha256 s → IsValid sha256 s'
Same-IsValid same v = record {
  sound = rw (same.device) v.sound;
  image_fits = rw (same.image) v.image_fits;
  described = rw (same.image, same.image_info) v.described;
  hashed = rw (same.image, same.image_info) v.hashed;
}

pub no_device-IsSound : IsSound no_device
no_device-IsSound = record { fits = omega arith; whole = refl; explained = refl }

refused-IsSound :
    (text : Summary) (why : Problem) → is_problem why ≡ true → IsSound (refused text why)
refused-IsSound text why h = record { fits = omega arith; whole = refl; explained = h }

accepted-IsSound :
    (vector : Bool) (number app_space : ℕ) (text : Summary)
    → app_space ≤ flash_size
    → app_space % 128 ≡ 0
    → IsSound (accepted vector number app_space text)
accepted-IsSound vector number app_space text fits whole = record {
  fits = fits;
  whole = whole;
  explained = refl;
}

evaluate_table-IsSound :
    (pages vector rjmp cap version : ℕ) → IsSound (evaluate_table pages vector rjmp cap version)
unfolding evaluate_table
evaluate_table-IsSound pages vector rjmp cap version =
    elim (Bool-cases (
      not (is_urboot version rjmp)
      || (ltb (pages * page_size) 64 || ltb 2048 (pages * page_size)))) [
        | inl t ↦ rw t (refused-IsSound unrecognized not_urboot refl)
        | inr f ↦
            let (low, high, whole) = table_bounds pages (is_urboot version rjmp) f in
            rw f (
              accepted-IsSound (is_vector vector version cap) vector
                (flash_size - pages * page_size)
                (urboot version (pages * page_size) (is_vector vector version cap)) (omega arith)
                whole)
      ]

evaluate-IsSound : (bi : BootInfo) → IsSound (evaluate bi)
unfolding evaluate
evaluate-IsSound bi = ground (
  arith,
  refused-IsSound stk500 classic refl,
  refused-IsSound (unexpected_mcu (mcuid_of bi.insync bi.ok)) not_atmega refl,
  refused-IsSound no_flash_read cannot_read refl,
  refused-IsSound no_page_erase cannot_erase refl,
  refused-IsSound no_information unread refl,
  evaluate_table-IsSound (pages_of bi.table) (vector_of bi.table) (rjmp_of bi.table)
      (get_or bi.table 4 0) (get_or bi.table 5 0),
)

pub finish-Same : {s s' : State} (r : Report) (good : Bool) → Same s s' → Same s (finish r good s')
unfolding finish
finish-Same r good same = record {
  image = same.image;
  image_info = same.image_info;
  device = same.device;
}

pub Same-self : (s : State) → Same s s
Same-self s = record { image = refl; image_info = refl; device = refl }

Same-chain : {s s' s'' : State} → Same s s' → Same s' s'' → Same s s''
Same-chain a b = record {
  image = b.image ∙ a.image;
  image_info = b.image_info ∙ a.image_info;
  device = b.device ∙ a.device;
}

phase-Same : (phase : Phase) (n : ℕ) (s : State) → Same s (set_phase phase n s)
phase-Same phase n s = record { image = refl; image_info = refl; device = refl }

module _ {W : Type 0} (port : Port W) where
  write_pages-Same :
      (sync : Sync) (image : List ℕ) (pages left i : ℕ) (s : State) (w : W)
      → Same s (write_pages port sync image pages left i s w).1
  unfolding write_pages
  write_pages-Same sync image pages zero i s w = Same-self s
  write_pages-Same sync image pages (suc left) i s w =
      let (e, w') = write_page port sync (page_addr i) (page_at (page_addr i) image) w in
      let s' = set_phase writing (i * 50 / pages) s in
      elim (Bool-cases
        (is_ok (write_page port sync (page_addr i) (page_at (page_addr i) image) w).0)) [
          | inl t ↦ rw t (
              Same-chain (phase-Same writing (i * 50 / pages) s)
                (write_pages-Same sync image pages left (suc i) s' w'))
          | inr f ↦ rw f (phase-Same writing (i * 50 / pages) s)
        ]

  verify_pages-Same :
      (sync : Sync) (image : List ℕ) (pages left i : ℕ) (s : State) (w : W)
      → Same s (verify_pages port sync image pages left i s w).1
  unfolding verify_pages
  verify_pages-Same sync image pages zero i s w = Same-self s
  verify_pages-Same sync image pages (suc left) i s w =
      let (r, w') = read_flash port sync (page_addr i) (replicate page_size 0) w in
      let s' = set_phase verifying (50 + i * 50 / pages) s in
      elim (Bool-cases
        (not (is_ok (read_flash port sync (page_addr i) (replicate page_size 0) w).0.0))) [
          | inl t ↦ rw t (phase-Same verifying (50 + i * 50 / pages) s)
          | inr f ↦
              elim (Bool-cases (
                same_bytes (read_flash port sync (page_addr i) (replicate page_size 0) w).0.1
                  (page_at (page_addr i) image))) [
                    | inl t ↦
                        rw (f, t)
                          (Same-chain (phase-Same verifying (50 + i * 50 / pages) s)
                            (verify_pages-Same sync image pages left (suc i) s' w'))
                    | inr u ↦ rw (f, u) (phase-Same verifying (50 + i * 50 / pages) s)
                  ]
        ]

  verify_after-Same :
      (sync : Sync) (image : List ℕ) (pages : ℕ) (o : Option FlashError) (s : State) (w : W)
      → Same s (verify_after port sync image pages o s w).1
  verify_after-Same sync image pages none s w = verify_pages-Same sync image pages pages 0 s w
  verify_after-Same sync image pages (some e) s w = Same-self s

  flash_end-Same :
      (sync : Sync) (before : ℕ) (written : Bool) (o : Option FlashError) (s : State) (w : W)
      → Same s (flash_end port sync before written o s w).0
  unfolding flash_end finish
  flash_end-Same sync before written none s w = record {
    image = refl;
    image_info = refl;
    device = refl;
  }
  flash_end-Same sync before written (some e) s w = record {
    image = refl;
    image_info = refl;
    device = refl;
  }

  flash_image-Same :
      (sync : Sync) (before pages : ℕ) (image : List ℕ) (s : State) (w : W)
      → Same s (flash_image port sync before pages image s w).0
  unfolding flash_image
  flash_image-Same sync before pages image s w =
      let (o, s', w') = write_pages port sync image pages pages 0 s w in
      let (o', s'', w'') = verify_after port sync image pages o s' w' in
      Same-chain (write_pages-Same sync image pages pages 0 s w) (
        Same-chain (verify_after-Same sync image pages o s' w')
          (flash_end-Same sync before (ltb 0 pages) o' s'' w''))

  flash_prepared-Same :
      (sync : Sync) (before pages : ℕ) (o : Option FlashError) (image : List ℕ) (s : State) (w : W)
      → Same s (flash_prepared port sync before pages o image s w).0
  unfolding flash_prepared
  flash_prepared-Same sync before pages none image s w =
      flash_image-Same sync before pages image s w
  flash_prepared-Same sync before pages (some e) image s w =
      flash_end-Same sync before false (some e) s w

  sync-Same : (sync : Sync) (s : State) → Same s (record s { sync = sync })
  sync-Same sync s = record { image = refl; image_info = refl; device = refl }

  flash_held-Same : (before : ℕ) (s : State) (w : W) → Same s (flash_held port before s w).0
  unfolding flash_held
  flash_held-Same before s w =
      let (answered, sync, w1) = enter_bootloader port s.sync w in
      let (bi, w2) = read_boot_info port sync no_boot.table w1 in
      let s' = record s { sync = sync } in
      let (o, image) = prepare s bi (padded s.image) in
      elim (Bool-cases (enter_bootloader port s.sync w).0) [
        | inl t ↦ rw t (
            Same-chain (sync-Same sync s)
              (flash_prepared-Same sync before (page_count s.image) o image s' w2))
        | inr f ↦ rw f (
            Same-chain (sync-Same sync s) (flash_end-Same sync before false (some no_answer) s' w1))
      ]

  pub flash_task-Same : (s : State) (w : W) → Same s (flash_task port s w).0
  unfolding flash_task
  flash_task-Same s w = elim (Bool-cases (is_ok (port.raw_begin flash_baud w).0)) [
    | inl t ↦ rw t (
        Same-chain (phase-Same entering 0 s) (
          flash_held-Same (port.info w).boots_seen (set_phase entering 0 s)
            (port.raw_begin flash_baud w).1))
    | inr f ↦ rw f (finish-Same not_available false (Same-self s))
  ]

Checked-IsValid :
    {sha256 : List ℕ → List ℕ} {s s' : State}
    → s'.image ≡ s.image
    → s'.image_info ≡ s.image_info
    → IsSound s'.device
    → IsValid sha256 s
    → IsValid sha256 s'
Checked-IsValid image info sound v = record {
  sound = sound;
  image_fits = rw image v.image_fits;
  described = rw (image, info) v.described;
  hashed = rw (image, info) v.hashed;
}

module _ {W : Type 0} (port : Port W) {sha256 : List ℕ → List ℕ} where
  check_answered-IsValid :
      (before connection : ℕ) (bi : BootInfo) (s : State) (w : W)
      → IsValid sha256 s
      → IsValid sha256 (check_answered port before connection bi s w).0
  unfolding check_answered finish
  check_answered-IsValid before connection bi s w v =
      Checked-IsValid refl refl (evaluate-IsSound bi) v

  check_held-IsValid :
      (before connection : ℕ) (s : State) (w : W)
      → IsValid sha256 s
      → IsValid sha256 (check_held port before connection s w).0
  unfolding check_held finish
  check_held-IsValid before connection s w v =
      let (answered, sync, w1) = enter_bootloader port s.sync w in
      let (bi, w2) = read_boot_info port sync no_boot.table w1 in
      elim (Bool-cases (enter_bootloader port s.sync w).0) [
        | inl t ↦ rw t (
            check_answered-IsValid before connection bi (record s { sync = sync })
              (port.raw_end (leave_bootloader port sync w2))
              (Same-IsValid (sync-Same port sync s) v))
        | inr f ↦ rw f (Checked-IsValid refl refl no_device-IsSound v)
      ]

  pub check_task-IsValid :
      (s : State) (w : W) → IsValid sha256 s → IsValid sha256 (check_task port s w).0
  unfolding check_task
  check_task-IsValid s w v = elim (Bool-cases (is_ok (port.raw_begin flash_baud w).0)) [
    | inl t ↦ rw t (
        check_held-IsValid (port.info w).boots_seen (port.info w).connections
          (set_phase entering 0 s) (port.raw_begin flash_baud w).1
          (Same-IsValid (phase-Same entering 0 s) v))
    | inr f ↦ rw f (Same-IsValid (finish-Same not_available false (Same-self s)) v)
  ]

  pub preview_task-IsValid :
      (s : State) (w : W) → IsValid sha256 s → IsValid sha256 (preview_task port s w).0
  unfolding preview_task finish
  preview_task-IsValid s w v = elim (Bool-cases (is_ok (port.raw_begin flash_baud w).0)) [
    | inl t ↦ rw t (
        Checked-IsValid refl refl
          (record { fits = v.sound.fits; whole = v.sound.whole; explained = v.sound.explained }) v)
    | inr f ↦ rw f (Same-IsValid (finish-Same not_available false (Same-self s)) v)
  ]
