-- ===== src/Vectors/Tests.antt =====
-- The case confirmed on hardware, after tests/test_svs_vectors.cpp: a reset `jmp 0x1A6` and vector 25.
use svs_bridge.Base.{ℕ, ◌≡◌, ◌≢◌, ◌⊎◌, refl, List, ◌∷◌, none, some, arith, replicate}
use svs_bridge.Base.Int.{pos, minus_one, ◌+ℤ◌, ◌-ℤ◌, pos_part}
use svs_bridge.Vectors.{
  buf2u32, is_jmp, is_rjmp, jmp_target, rjmp_reset_target, rjmp_to_bootloader, Patch, no_jump,
  check_failed, patch_at, patch_vectors,
}
use svs_bridge.Vectors.Patching.{IsPatched, entry, patch_vectors-IsPatched, patch_vectors_refused}
use svs_bridge.Vectors.Relative.{IsBootStart, flash_size}

abbrev image : List ℕ
image = 0x0C ∷ 0x94 ∷ 0xD3 ∷ 0x00 ∷ replicate 500 0xFF

abbrev blank : List ℕ
blank = replicate 504 0

boot : IsBootStart 0x7F00
boot = omega arith

known_rjmp : rjmp_to_bootloader 0x7F00 flash_size ≡ 0xCF7F
unfolding rjmp_to_bootloader
known_rjmp = refl

abbrev run : Patch
run = patch_vectors image 0x7F00 25 flash_size 0 minus_one

run_ok : run.error ≡ none
unfolding patch_vectors patch_at is_jmp jmp_target buf2u32 rjmp_to_bootloader rjmp_reset_target ◌+ℤ◌
    ◌-ℤ◌
run_ok = refl

run_app : run.app_start ≡ pos 0x1A6
unfolding patch_vectors patch_at is_jmp jmp_target buf2u32 rjmp_to_bootloader rjmp_reset_target ◌+ℤ◌
    ◌-ℤ◌
run_app = refl

blank_fails : (patch_vectors blank 0x7F00 25 flash_size 0 minus_one).error ≡ some (no_jump 0)
unfolding patch_vectors is_jmp is_rjmp
blank_fails = refl

patch_vectors-IsPatched_example :
    (run.app_start ≡ entry image)
    × (run.reset_rjmp ≡ rjmp_to_bootloader 0x7F00 flash_size)
    × (((entry image ≡ pos 0x7F00) × (run.image ≡ image))
        ⊎ IsPatched image run.image 0x7F00 100 (pos_part (entry image)))
patch_vectors-IsPatched_example =
    patch_vectors-IsPatched image 0x7F00 25 0 minus_one boot (omega arith) (omega arith) refl run_ok

patch_vectors_refused_example :
    ((patch_vectors blank 0x7F00 25 flash_size 0 minus_one).image ≡ blank)
    × (no_jump 0 ≢ check_failed)
patch_vectors_refused_example =
    patch_vectors_refused blank 0x7F00 25 0 minus_one (no_jump 0) boot refl blank_fails
