-- ===== src/Vectors/Jump.antt =====
-- core/svs_vectors.h: `jmp` opcodes and their bytes.
use svs_bridge.Base.{
  ℕ, ◌+◌, ◌*◌, ◌/◌, ◌%◌, ◌^◌, ◌<◌, ◌≡◌, refl, ap, ◌∙◌, true, ◌&&◌, arith, ltb, ◌==◌, bit_or,
}
use svs_bridge.Base.Bits.{
  below_all, below_all-true, bit_or_above, bit_or_disjoint, bit_or_disjoint_left,
}
use svs_bridge.Vectors.{is_jmp, jmp_target, jmp_opcode}

-- The low word of a jmp opcode, for the 6 bits of the address above 16.
low_word_table :
    below_all 64 (λ k.
      bit_or (bit_or 0x940C (k / 2 * 2 ^ 4)) (k % 2) == 0x940C + k / 2 * 2 ^ 4 + k % 2
      && is_jmp (0x940C + k / 2 * 2 ^ 4 + k % 2))
    ≡ true
unfolding below_all is_jmp
low_word_table = refl

low_word :
    (m b : ℕ)
    → m < 32
    → b < 2
    → (bit_or (bit_or 0x940C (m * 2 ^ 4)) b ≡ 0x940C + m * 2 ^ 4 + b)
      × (is_jmp (0x940C + m * 2 ^ 4 + b) ≡ true)
low_word m b p q =
    let row = below_all-true 64 _ (m * 2 + b) (omega arith) low_word_table in
    let e : (m * 2 + b) / 2 ≡ m = omega arith in
    let d : (m * 2 + b) % 2 ≡ b = omega arith in ground (arith, rw (e, d) at row)

or_table : below_all 32 (λ m. ltb (bit_or 0x940C (m * 2 ^ 4)) (2 ^ 16)) ≡ true
unfolding below_all
or_table = refl

or_bounded : (m : ℕ) → m < 32 → bit_or 0x940C (m * 2 ^ 4) < 2 ^ 16
or_bounded m h =
    ground (arith, below_all-true 32 (λ m. ltb (bit_or 0x940C (m * 2 ^ 4)) (2 ^ 16)) m h or_table)

-- The fields of a jmp opcode: the address's bits 1 to 16, 18 to 22 and 17.
jmp_opcode_fields :
    (addr : ℕ)
    → jmp_opcode addr
      ≡ addr / 2 % 2 ^ 16 * 2 ^ 16 + (0x940C + addr / 2 ^ 18 % 32 * 2 ^ 4 + addr / 2 ^ 17 % 2)
unfolding jmp_opcode
jmp_opcode_fields addr =
    let h = addr / 2 % 2 ^ 16 in
    let m = addr / 2 ^ 18 % 32 in
    let b = addr / 2 ^ 17 % 2 in
    let low : (bit_or (bit_or 0x940C (m * 2 ^ 4)) b ≡ 0x940C + m * 2 ^ 4 + b)
        × (is_jmp (0x940C + m * 2 ^ 4 + b) ≡ true) =
      low_word m b (omega arith) (omega arith) in
    let bounded : bit_or 0x940C (m * 2 ^ 4) < 2 ^ 16 = or_bounded m (omega arith) in
    ap (λ (t : ℕ). bit_or (bit_or t (m * 2 ^ 4)) b) (bit_or_disjoint 16 h 0x940C (omega arith))
    ∙ ap (λ (t : ℕ). bit_or t b) (bit_or_above 16 h 0x940C (m * 2 ^ 4) (omega arith) (omega arith))
    ∙ bit_or_above 16 h (bit_or 0x940C (m * 2 ^ 4)) b bounded (omega arith)
    ∙ ap (λ (t : ℕ). h * 2 ^ 16 + t) low.0

-- Every even address of up to 23 bits survives `jmp_opcode` and `jmp_target`.
pub jmp_target-jmp_opcode :
    (addr : ℕ) → addr % 2 ≡ 0 → addr < 2 ^ 23 → jmp_target (jmp_opcode addr) ≡ addr
unfolding jmp_target
jmp_target-jmp_opcode addr even small = rw (jmp_opcode_fields addr) (
    let op =
      addr / 2 % 2 ^ 16 * 2 ^ 16 + (0x940C + addr / 2 ^ 18 % 32 * 2 ^ 4 + addr / 2 ^ 17 % 2) in
    let high : op / 2 ^ 16 ≡ addr / 2 % 2 ^ 16 = omega arith in
    let low : op % 2 ≡ addr / 2 ^ 17 % 2 = omega arith in
    let mid : op / 2 ^ 4 % 32 * 2 ^ 4 * 2 ^ 13 ≡ addr / 2 ^ 18 % 32 * 2 ^ 17 = omega arith in
    rw (high, low, mid)
      (rw (bit_or_disjoint_left 16 (addr / 2 ^ 17 % 2) (addr / 2 % 2 ^ 16) (omega arith)) (
        rw
          (bit_or_disjoint_left 17 (addr / 2 ^ 18 % 32)
            (addr / 2 ^ 17 % 2 * 2 ^ 16 + addr / 2 % 2 ^ 16) (omega arith))
          (omega arith))))

pub jmp_opcode-lt : (addr : ℕ) → jmp_opcode addr < 2 ^ 32
jmp_opcode-lt addr = rw (jmp_opcode_fields addr) (omega arith)

pub jmp_target_even : (op : ℕ) → jmp_target op % 2 ≡ 0
unfolding jmp_target
jmp_target_even op = omega arith

-- What the bridge writes into a vector is a `jmp`.
pub is_jmp-jmp_opcode : (addr : ℕ) → is_jmp (jmp_opcode addr % 2 ^ 16) ≡ true
is_jmp-jmp_opcode addr = rw (jmp_opcode_fields addr) (
    let m = addr / 2 ^ 18 % 32 in
    let b = addr / 2 ^ 17 % 2 in
    let e : (addr / 2 % 2 ^ 16 * 2 ^ 16 + (0x940C + m * 2 ^ 4 + b)) % 2 ^ 16
        ≡ 0x940C + m * 2 ^ 4 + b =
      omega arith in
    rw e (low_word m b (omega arith) (omega arith)).1)

-- It is the 1001 010k kkkk 110k of a `jmp`, whatever the bits k of the address are.
pub jmp_opcode_upper : (addr : ℕ) → jmp_opcode addr % 2 ^ 16 / 512 ≡ 0x4A
jmp_opcode_upper addr = rw (jmp_opcode_fields addr) (omega arith)

pub jmp_opcode_lower : (addr : ℕ) → jmp_opcode addr % 16 / 2 ≡ 6
jmp_opcode_lower addr = rw (jmp_opcode_fields addr) (omega arith)
