-- ===== src/Flasher/Sent.antt =====
-- platform/esp32/main/svs_flasher.cpp: what is sent to the chip, and what is checked before.
use svs_bridge.Base.{
  ℕ, ◌*◌, ◌≤◌, ◌≡◌, inl, inr, refl, ◌∙◌, true, List, Option, none, some, arith, ltb, if◌then◌else◌,
  Bool-cases, length, length-set,
}
use svs_bridge.Base.Int.{ℤ, pos, pos_part}
use svs_bridge.Vectors.{
  Patch, PatchError, patch_vectors, patch_at, patched, rjmp_reset_target, rjmp_to_bootloader,
  jmp_target, buf2u32, reset_word, jmp_opcode,
}
use svs_bridge.Vectors.Bytes.{length-u32tobuf}
use svs_bridge.Flasher.{State, BootInfo, flash_size}
use svs_bridge.Flasher.Boot.{same_bootloader}
use svs_bridge.Flasher.Jobs.{padded, page_count, as_error, prepare}
use svs_bridge.Flasher.Pages.{length-padded}

-- What is sent to the chip, if anything is.
abbrev pub patch_of : State → Patch
patch_of s =
    patch_vectors (padded s.image) s.device.app_space s.device.vector_num flash_size 0 (pos 0)

abbrev pub sent : State → List ℕ
sent s = if s.device.vector then (patch_of s).image else padded s.image

length-patched :
    (image : List ℕ) (rjmp loc app : ℕ) → length (patched image rjmp loc app) ≡ length image
unfolding patched
length-patched image rjmp loc app =
    length-u32tobuf _ loc (jmp_opcode app) ∙ length-set _ 1 _ ∙ length-set image 0 _

length-patch_at :
    (image : List ℕ) (blstart loc flashsize : ℕ) (app : ℤ) (rjmp : ℕ)
    → length (Patch.image (patch_at image blstart loc flashsize app rjmp)) ≡ length image
unfolding patch_at
length-patch_at image blstart loc flashsize app rjmp =
    ground (arith, length-patched image rjmp loc (pos_part app))

length-patch_vectors :
    (image : List ℕ) (blstart number flashsize rjmp : ℕ) (app : ℤ)
    → length (Patch.image (patch_vectors image blstart number flashsize rjmp app)) ≡ length image
unfolding patch_vectors
length-patch_vectors image blstart number flashsize rjmp app = ground (
  arith,
  length-patch_at image blstart (number * 4) flashsize (pos (jmp_target (buf2u32 image 0)))
      (rjmp_to_bootloader blstart flashsize),
  length-patch_at image blstart (number * 4) flashsize
      (rjmp_reset_target (reset_word image) flashsize) (rjmp_to_bootloader blstart flashsize),
)

pub length-sent : (s : State) → length (sent s) ≡ page_count s.image * 128
length-sent s = elim (Bool-cases s.device.vector) [
  | inl t ↦ rw t (
      length-patch_vectors (padded s.image) s.device.app_space s.device.vector_num flash_size 0
        (pos 0)
      ∙ length-padded s.image)
  | inr f ↦ rw f (length-padded s.image)
]

as_error-none : (o : Option PatchError) → as_error o ≡ none → o ≡ none
as_error-none none h = refl
as_error-none (some e) h = absurd (ground (arith, h))

-- The image that may be written: it fits below the bootloader and is patched if it has to be.
abbrev pub IsReady : State → List ℕ → Type 0
IsReady s image =
    (image ≡ sent s)
    × (page_count s.image * 128 ≤ s.device.app_space)
    × (s.device.vector ≡ true → (patch_of s).error ≡ none)

-- What is prepared, if nothing stands against it.
pub prepare-sent :
    (s : State) (bi : BootInfo)
    → (prepare s bi (padded s.image)).0 ≡ none
    → IsReady s (prepare s bi (padded s.image)).1
unfolding prepare
prepare-sent s bi none_wrong = elim (Bool-cases (same_bootloader bi s.checked_boot)) [
  | inr f ↦ absurd (ground (arith, rw f at none_wrong))
  | inl t ↦ elim (Bool-cases (ltb s.device.app_space (length (padded s.image)))) [
    | inl f ↦ absurd (ground (arith, rw (t, f) at none_wrong))
    | inr u ↦
        let room : page_count s.image * 128 ≤ s.device.app_space =
          ground (arith, length-padded s.image) in
        elim (Bool-cases s.device.vector) [
          | inl v ↦ rw (t, u, v) (refl, room, λ _. as_error-none _ (rw (t, u, v) at none_wrong))
          | inr v ↦ rw (t, u, v) (refl, room, λ x. absurd (ground (arith, x)))
        ]
  ]
]
