-- ===== src/Flasher/Recovery.antt =====
-- platform/esp32/main/svs_flasher.cpp: which bootloaders are accepted, and that a flash keeps the way to them.
use svs_bridge.Base.{
  ℕ, ◌+◌, ◌-◌, ◌*◌, ◌/◌, ◌%◌, ◌^◌, ◌≤◌, ◌<◌, ◌≡◌, ◌≢◌, inl, inr, refl, ap, ap₂, ◌∙◌, Bool, true,
  false, not, ◌||◌, bit_or, List, none, arith, ltb, ◌==◌, if◌then◌else◌, Bool-cases, length, get_or,
}
use svs_bridge.Base.Int.{pos}
use svs_bridge.Vectors.{Patch, patch_vectors, rjmp_reset_target, reset_word}
use svs_bridge.Vectors.Relative.{IsBootStart}
use svs_bridge.Vectors.Patching.{IsRjmp, entry, patch_vectors-IsPatched}
use svs_bridge.Flasher.{Port, State, BootInfo, flash_size, page_size}
use svs_bridge.Flasher.Boot.{
  evaluate, evaluate_table, is_stk500, mcuid_of, features_of, reads_flash, ll_nor, is_urboot,
  pages_of, vector_of, rjmp_of,
}
use svs_bridge.Flasher.Jobs.{padded, flash_task}
use svs_bridge.Flasher.Law.{IsUrboot}
use svs_bridge.Flasher.Pages.{length-padded}
use svs_bridge.Flasher.Sent.{sent, length-sent, patch_of}
use svs_bridge.Flasher.Outcomes.{overwrite, flash_task_verified, flash_task_patched}

pub table_bounds :
    (pages : ℕ) (known : Bool)
    → not known || (ltb (pages * page_size) 64 || ltb 2048 (pages * page_size)) ≡ false
    → (0x7800 ≤ flash_size - pages * page_size)
      × (flash_size - pages * page_size < flash_size)
      × ((flash_size - pages * page_size) % 128 ≡ 0)
table_bounds pages known h =
    let small : pages * page_size ≤ 2048 = ground arith in
    let large : 64 ≤ pages * page_size = ground arith in (omega arith, omega arith, omega arith)

evaluate_table-compatible :
    (pages vector rjmp cap version : ℕ)
    → (evaluate_table pages vector rjmp cap version).compatible ≡ true
    → (0x7800 ≤ (evaluate_table pages vector rjmp cap version).app_space)
      × ((evaluate_table pages vector rjmp cap version).app_space < flash_size)
      × ((evaluate_table pages vector rjmp cap version).app_space % 128 ≡ 0)
unfolding evaluate_table
evaluate_table-compatible pages vector rjmp cap version ok =
    elim (Bool-cases (
      not (is_urboot version rjmp)
      || (ltb (pages * page_size) 64 || ltb 2048 (pages * page_size)))) [
        | inl t ↦ absurd (ground (arith, rw t at ok))
        | inr f ↦ rw f (table_bounds pages (is_urboot version rjmp) f)
      ]

-- A bootloader that `evaluate` accepts answered as an urboot on an ATmega328P that reads flash and erases
-- pages, its table was read, and it begins on a page of the last 2 KB of the flash.
pub evaluate-compatible :
    (bi : BootInfo)
    → (evaluate bi).compatible ≡ true
    → (is_stk500 bi.insync bi.ok ≡ false)
      × (mcuid_of bi.insync bi.ok ≡ 119)
      × (reads_flash (features_of bi.insync bi.ok) ≡ true)
      × (ll_nor (features_of bi.insync bi.ok) ≡ false)
      × (bi.table_read ≡ true)
      × (0x7800 ≤ (evaluate bi).app_space)
      × ((evaluate bi).app_space < flash_size)
      × ((evaluate bi).app_space % 128 ≡ 0)
unfolding evaluate
evaluate-compatible bi ok = elim (Bool-cases (is_stk500 bi.insync bi.ok)) [
  | inl a ↦ absurd (ground (arith, rw a at ok))
  | inr a ↦ elim (Bool-cases (mcuid_of bi.insync bi.ok == 119)) [
    | inr b ↦ absurd (ground (arith, rw (a, b) at ok))
    | inl b ↦ elim (Bool-cases (reads_flash (features_of bi.insync bi.ok))) [
      | inr c ↦ absurd (ground (arith, rw (a, b, c) at ok))
      | inl c ↦ elim (Bool-cases (ll_nor (features_of bi.insync bi.ok))) [
        | inl d ↦ absurd (ground (arith, rw (a, b, c, d) at ok))
        | inr d ↦ elim (Bool-cases bi.table_read) [
          | inr e ↦ absurd (ground (arith, rw (a, b, c, d, e) at ok))
          | inl e ↦
              let (low, high, whole) =
                evaluate_table-compatible (pages_of bi.table) (vector_of bi.table)
                  (rjmp_of bi.table) (get_or bi.table 4 0) (get_or bi.table 5 0)
                  (rw (a, b, c, d, e) at ok) in
              rw (a, b, c, d, e) (refl, ground arith, refl, refl, refl, low, high, whole)
        ]
      ]
    ]
  ]
]

patch_vectors-length :
    (image : List ℕ) (blstart number flashsize : ℕ)
    → Patch.error (patch_vectors image blstart number flashsize 0 (pos 0)) ≡ none
    → number * 4 + 4 ≤ length image
unfolding patch_vectors
patch_vectors-length image blstart number flashsize done =
    elim (Bool-cases (ltb (length image) (number * 4 + 4))) [
      | inl t ↦ absurd (ground (arith, rw t at done))
      | inr f ↦ ground arith
    ]

overwrite_below :
    (image : List ℕ) (memory : ℕ → ℕ) (a : ℕ)
    → a < length image
    → overwrite image memory a ≡ get_or image a 0
overwrite_below image memory a h =
    let inside : ltb a (length image) ≡ true = ground arith in rw inside refl

sent-vector : (s : State) → s.device.vector ≡ true → sent s ≡ (patch_of s).image
sent-vector s h = ap (λ b. if b then (patch_of s).image else padded s.image) h

-- The word that the chip starts from.
abbrev pub chip_word : (ℕ → ℕ) → ℕ
chip_word memory = bit_or (memory 0) (memory 1 * 2 ^ 8)

module _ {W : Type 0} {port : Port W} {flash : W → ℕ → ℕ} (law : IsUrboot port flash) (s : State)
    (w : W) where
  -- Where a flash of a vector bootloader reports success, with a bootloader that begins at an even
  -- address in the last 4 KB, a vector other than the reset and an image whose reset does not go to
  -- the bootloader, the chip's reset word is an rjmp to the bootloader.
  pub flash_task_reaches_bootloader :
      IsBootStart s.device.app_space
      → 0 < s.device.vector_num
      → s.device.vector ≡ true
      → entry (padded s.image) ≢ pos s.device.app_space
      → (flash_task port s w).0.result_ok ≡ true
      → IsRjmp (chip_word (flash (flash_task port s w).1))
        × (rjmp_reset_target (chip_word (flash (flash_task port s w).1)) flash_size
            ≡ pos s.device.app_space)
  flash_task_reaches_bootloader boot number vector fresh done =
      let small : s.device.app_space ≤ flash_size = omega (arith, boot.high) in
      let (held, room) = flash_task_verified law s w small done in
      let patch_ok = flash_task_patched law s w small done vector in
      let room : length (padded s.image) ≤ flash_size =
        omega (arith, length-sent s, length-padded s.image, room) in
      let long =
        patch_vectors-length (padded s.image) s.device.app_space s.device.vector_num flash_size
          patch_ok in
      let held0 : flash (flash_task port s w).1 0 ≡ get_or (sent s) 0 0 =
        ap (λ (f : ℕ → ℕ). f 0) held
        ∙ overwrite_below (sent s) (flash w) 0
            (omega (arith, length-sent s, length-padded s.image)) in
      let held1 : flash (flash_task port s w).1 1 ≡ get_or (sent s) 1 0 =
        ap (λ (f : ℕ → ℕ). f 1) held
        ∙ overwrite_below (sent s) (flash w) 1
            (omega (arith, length-sent s, length-padded s.image)) in
      elim (patch_vectors-IsPatched (padded s.image) s.device.app_space s.device.vector_num 0
        (pos 0) boot number room {p = patch_of s} refl patch_ok).2 [
          | inl (old, same) ↦ absurd (fresh old)
          | inr new ↦
              let word : chip_word (flash (flash_task port s w).1)
                  ≡ reset_word (Patch.image (patch_of s)) =
                ap₂ (λ x y. bit_or x (y * 2 ^ 8)) held0 held1
                ∙ ap reset_word (sent-vector s vector) in
              (
                ap (λ n. n / 4096) word ∙ new.is_rjmp_boot,
                ap (λ n. rjmp_reset_target n flash_size) word ∙ new.reaches_boot,
              )
        ]
