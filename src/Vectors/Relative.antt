-- ===== src/Vectors/Relative.antt =====
-- core/svs_vectors.h: the reset `rjmp` on the SVS's flash of 32768 bytes.
use svs_bridge.Base.{
  ℕ, ◌+◌, ◌-◌, ◌*◌, ◌/◌, ◌%◌, ◌≤◌, ◌<◌, ◌≡◌, refl, subst, Bool, true, ◌&&◌, arith, ltb, ◌==◌,
}
use svs_bridge.Base.Bits.{below_all, below_all-true}
use svs_bridge.Base.Int.{ℤ, pos, negsuc, ◌+ℤ◌, ◌-ℤ◌, pos_part}
use svs_bridge.Vectors.{rjmp_reset_target, rjmp_to_bootloader, same_ℤ}

abbrev pub flash_size : ℕ
flash_size = 32768

reaches : ℕ → Bool
reaches blstart =
    let rjmp = rjmp_to_bootloader blstart flash_size in
    same_ℤ (rjmp_reset_target rjmp flash_size) blstart && rjmp / 4096 == 12 && ltb rjmp 65536

reset_table : below_all 2048 (λ k. reaches (0x7000 + 2 * k)) ≡ true
unfolding below_all reaches rjmp_reset_target rjmp_to_bootloader ◌+ℤ◌ ◌-ℤ◌
reset_table = refl

-- An even address in the last 4 KB of the flash, where a 2-byte reset can reach.
pub record IsBootStart (blstart : ℕ) : Type 0 where
  pub low : 0x7000 ≤ blstart
  pub high : blstart < flash_size
  pub even : blstart % 2 ≡ 0

pub same_ℤ-eq : (a : ℤ) (n : ℕ) → same_ℤ a n ≡ true → a ≡ pos n
same_ℤ-eq (pos m) n h = ground arith
same_ℤ-eq (negsuc m) n h = cc

module _ (blstart : ℕ) (b : IsBootStart blstart) where
  row : reaches blstart ≡ true
  row =
      subst (λ z. reaches z ≡ true) (omega (arith, b.low, b.even))
        (below_all-true 2048 _ ((blstart - 0x7000) / 2) (omega (arith, b.low, b.high)) reset_table)

  -- The reset `rjmp` that the bridge computes decodes back to the bootloader.
  pub reset_reaches :
      rjmp_reset_target (rjmp_to_bootloader blstart flash_size) flash_size ≡ pos blstart
  unfolding reaches
  reset_reaches = same_ℤ-eq _ blstart (ground (arith, row))

  -- It is an `rjmp`: its upper four bits are 1100.
  pub reset_upper : rjmp_to_bootloader blstart flash_size / 4096 ≡ 12
  unfolding reaches
  reset_upper = ground (arith, row)

  pub reset_small : rjmp_to_bootloader blstart flash_size < 65536
  unfolding reaches
  reset_small = ground (arith, row)

-- Whatever an `rjmp` reset says, its target is even.
even_ℤ : ℤ → Bool
even_ℤ a = pos_part a % 2 == 0

even_table : below_all 4096 (λ op. even_ℤ (rjmp_reset_target op flash_size)) ≡ true
unfolding below_all even_ℤ rjmp_reset_target ◌+ℤ◌ ◌-ℤ◌
even_table = refl

rjmp_reset_target_low :
    (op : ℕ) → rjmp_reset_target op flash_size ≡ rjmp_reset_target (op % 4096) flash_size
unfolding rjmp_reset_target
rjmp_reset_target_low op = let e : op % 4096 % 4096 ≡ op % 4096 = omega arith in rw e

pub rjmp_reset_target_even : (op : ℕ) → pos_part (rjmp_reset_target op flash_size) % 2 ≡ 0
unfolding even_ℤ
rjmp_reset_target_even op = rw (rjmp_reset_target_low op) (
    ground (
      arith,
      below_all-true 4096 (λ op. even_ℤ (rjmp_reset_target op flash_size)) (op % 4096) (omega arith)
          even_table,
    ))
