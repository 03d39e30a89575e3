-- ===== src/Vectors.antt =====
-- core/svs_vectors.h: the arithmetic of AVR reset vectors and the patch of a flash image. A byte is a
-- number below 256, an opcode a number; `int` is ℤ where it can be negative.
pub mod Bytes
mod Jump
pub mod Relative
pub mod Patching
mod Tests
use svs_bridge.Base.{
  ℕ, zero, suc, Option, none, some, ◌+◌, ◌-◌, ◌*◌, ◌/◌, ◌%◌, ◌^◌, Bool, true, false, not, ◌||◌,
  List, [], ◌∷◌, ltb, leb, ◌==◌, if◌then◌else◌, length, get_or, set, bit_and, bit_or,
}
use svs_bridge.Base.Int.{ℤ, pos, negsuc, ◌+ℤ◌, ◌-ℤ◌, sub_ℕ, wrap, is_neg, pos_part, ltb_ℤ}

abbrev pub vec_sz : ℕ
vec_sz = 4

-- `buf2u32(b)`, for the bytes at `b`; past the end of the list a byte reads as 0.
unfoldable pub buf2u32 : List ℕ → ℕ → ℕ
buf2u32 image at =
    bit_or
      (bit_or (bit_or (get_or image at 0) (get_or image (at + 1) 0 * 2 ^ 8))
        (get_or image (at + 2) 0 * 2 ^ 16))
      (get_or image (at + 3) 0 * 2 ^ 24)

-- `u32tobuf(b, v)`: each assignment keeps the low byte.
unfoldable pub u32tobuf : List ℕ → ℕ → ℕ → List ℕ
u32tobuf image at v =
    set (set (set (set image at (v % 256)) (at + 1) (v / 2 ^ 8 % 256)) (at + 2) (v / 2 ^ 16 % 256))
      (at + 3) (v / 2 ^ 24 % 256)

unfoldable pub is_rjmp : ℕ → Bool
is_rjmp op = bit_and op 0xF000 == 0xC000

unfoldable pub is_jmp : ℕ → Bool
is_jmp op = bit_and op 0xFE0E == 0x940C

-- `(size & (size - 1)) == 0`.
abbrev power_of_two : ℕ → Bool
power_of_two size = bit_and size (size - 1) == 0

-- `dist &= size - 1` for a power of two keeps the residue, of a negative distance too.
unfoldable pub rjmp_dist_wrap : ℤ → ℕ → ℤ
rjmp_dist_wrap dist flashsize =
    let size = if ltb 8182 flashsize then 8192 else flashsize in
    if power_of_two size
    then (let low = wrap size dist in if leb (size / 2) low then pos low -ℤ pos size else pos low)
    else dist

-- `(int16_t)(dist << 4) >> 3` for the 12 bits `dist`: the sign extended, times 2.
abbrev pub rjmp_dist : ℕ → ℤ
rjmp_dist op =
    let dist = op % 4096 in if ltb dist 2048 then pos (dist * 2) else negsuc (8192 - dist * 2 - 1)

-- `while (addr < 0) addr += flashsize`, and `while (addr > flashsize) addr -= flashsize`. The rounds
-- are bounded by `fuel`: none is left out while the fuel lasts, see Vectors/Relative.antt.
unfoldable pub raise : ℕ → ℕ → ℤ → ℤ
raise zero flashsize addr = addr
raise (suc fuel) flashsize addr =
    let rest = raise fuel flashsize (addr +ℤ pos flashsize) in if is_neg addr then rest else addr

unfoldable pub lower : ℕ → ℕ → ℤ → ℤ
lower zero flashsize addr = addr
lower (suc fuel) flashsize addr =
    let rest = lower fuel flashsize (addr -ℤ pos flashsize) in
    if ltb flashsize (pos_part addr) then rest else addr

-- `rjmp_reset_target`; the distance lies between -4096 and 4096, so 4097 rounds are enough.
unfoldable pub rjmp_reset_target : ℕ → ℕ → ℤ
unfolding rjmp_dist_wrap raise lower
rjmp_reset_target op flashsize =
    lower 4097 flashsize (raise 4097 flashsize (rjmp_dist_wrap (rjmp_dist op +ℤ pos 2) flashsize))

-- `jmp_target(b)` on the 32 bits at `b`.
unfoldable pub jmp_target : ℕ → ℕ
jmp_target op =
    bit_or (bit_or (op / 2 ^ 16) (op % 2 * 2 ^ 16)) (op / 2 ^ 4 % 32 * 2 ^ 4 * 2 ^ 13) * 2

-- For an address that is not negative.
unfoldable pub jmp_opcode : ℕ → ℕ
jmp_opcode addr =
    bit_or (bit_or (bit_or (addr / 2 % 2 ^ 16 * 2 ^ 16) 0x940C) (addr / 2 ^ 18 % 32 * 2 ^ 4))
      (addr / 2 ^ 17 % 2)

-- `(blstart - flashsize - 2) / 2` rounds towards 0.
unfoldable pub half_toward_zero : ℤ → ℤ
half_toward_zero (pos n) = pos (n / 2)
half_toward_zero (negsuc n) = sub_ℕ 0 ((n + 1) / 2)

unfoldable pub rjmp_to_bootloader : ℕ → ℕ → ℕ
unfolding half_toward_zero
rjmp_to_bootloader blstart flashsize =
    bit_or 0xC000 (wrap (2 ^ 16) (half_toward_zero (sub_ℕ blstart (flashsize + 2))) % 4096)

pub data PatchError : Type 0 where
  too_small : PatchError
  no_jump : ℕ → PatchError
  out_of_range : ℤ → PatchError
  check_failed : PatchError

-- What `patch_vectors` leaves in its arguments; it returns true where there is no error.
pub record Patch : Type 0 where
  pub image : List ℕ
  pub reset_rjmp : ℕ
  pub app_start : ℤ
  pub error : Option PatchError

-- The first word of an image.
abbrev pub reset_word : List ℕ → ℕ
reset_word image = bit_or (get_or image 0 0) (get_or image 1 0 * 2 ^ 8)

-- The image with the reset word and the moved-away vector written.
unfoldable pub patched : List ℕ → ℕ → ℕ → ℕ → List ℕ
patched image rjmp app_vec_loc app_start =
    u32tobuf (set (set image 0 (rjmp % 256)) 1 (rjmp / 2 ^ 8)) app_vec_loc (jmp_opcode app_start)

abbrev pub same_ℤ : ℤ → ℕ → Bool
same_ℤ (pos n) m = n == m
same_ℤ (negsuc n) m = false

abbrev pub returns : List ℕ → ℕ → ℤ → Option PatchError → Patch
returns image rjmp app_start error = record {
  image = image;
  reset_rjmp = rjmp;
  app_start = app_start;
  error = error;
}

-- From `app_start == blstart` on; `rjmp` is the reset rjmp.
unfoldable pub patch_at : List ℕ → ℕ → ℕ → ℕ → ℤ → ℕ → Patch
patch_at image blstart app_vec_loc flashsize app_start rjmp =
    if same_ℤ app_start blstart
    then returns image rjmp app_start none
    else if ltb_ℤ app_start (pos app_vec_loc) || not (ltb_ℤ app_start (pos (length image)))
    then returns image rjmp app_start (some (out_of_range app_start))
    else if not (same_ℤ (rjmp_reset_target rjmp flashsize) blstart)
    then returns (patched image rjmp app_vec_loc (pos_part app_start)) rjmp app_start
        (some check_failed)
    else returns (patched image rjmp app_vec_loc (pos_part app_start)) rjmp app_start none

-- `patch_vectors`; `rjmp` and `app` are what its two out parameters held before.
unfoldable pub patch_vectors : List ℕ → ℕ → ℕ → ℕ → ℕ → ℤ → Patch
patch_vectors image blstart vector_num flashsize rjmp app =
    let app_vec_loc = vector_num * vec_sz in
    let reset_rjmp = rjmp_to_bootloader blstart flashsize in
    let op = reset_word image in
    if ltb (length image) (app_vec_loc + vec_sz)
    then record { image = image; reset_rjmp = rjmp; app_start = app; error = some too_small }
    else if is_jmp op
    then patch_at image blstart app_vec_loc flashsize (pos (jmp_target (buf2u32 image 0)))
        reset_rjmp
    else if is_rjmp op
    then patch_at image blstart app_vec_loc flashsize (rjmp_reset_target op flashsize) reset_rjmp
    else record { image = image; reset_rjmp = rjmp; app_start = app; error = some (no_jump op) }
