-- ===== src/Vectors/Bytes.antt =====
-- core/svs_vectors.h: 32-bit words in a list of bytes.
use svs_bridge.Base.{
  ℕ, ◌+◌, ◌*◌, ◌/◌, ◌%◌, ◌^◌, ◌≤◌, ◌<◌, ◌≡◌, ◌⊎◌, ◌∙◌, List, arith, length, get_or, set, length-set,
  get_or-set_self, get_or-set_ne, bit_or,
}
use svs_bridge.Base.Bits.{bit_or_disjoint_left}
use svs_bridge.Vectors.{buf2u32, u32tobuf}

join_bytes :
    (a b c d : ℕ)
    → a < 256
    → b < 256
    → c < 256
    → bit_or (bit_or (bit_or a (b * 2 ^ 8)) (c * 2 ^ 16)) (d * 2 ^ 24)
      ≡ d * 2 ^ 24 + (c * 2 ^ 16 + (b * 2 ^ 8 + a))
join_bytes a b c d p q r = rw (bit_or_disjoint_left 8 b a p) (
    rw (bit_or_disjoint_left 16 c (b * 2 ^ 8 + a) (omega arith))
      (bit_or_disjoint_left 24 d (c * 2 ^ 16 + (b * 2 ^ 8 + a)) (omega arith)))

-- The bytes that `u32tobuf` wrote, and the others.
module _ (image : List ℕ) (at v : ℕ) where
  pub length-u32tobuf : length (u32tobuf image at v) ≡ length image
  unfolding u32tobuf
  length-u32tobuf = simp length-set

  pub u32tobuf_other :
      (i : ℕ) → (i < at) ⊎ (at + 4 ≤ i) → get_or (u32tobuf image at v) i 0 ≡ get_or image i 0
  unfolding u32tobuf
  u32tobuf_other i away =
      get_or-set_ne _ (at + 3) i _ 0 (λ e. omega arith)
      ∙ get_or-set_ne _ (at + 2) i _ 0 (λ e. omega arith)
      ∙ get_or-set_ne _ (at + 1) i _ 0 (λ e. omega arith)
      ∙ get_or-set_ne image at i _ 0 (λ e. omega arith)

  module _ (fits : at + 4 ≤ length image) where
    byte_0 : get_or (u32tobuf image at v) at 0 ≡ v % 256
    unfolding u32tobuf
    byte_0 =
        get_or-set_ne _ (at + 3) at _ 0 (λ e. omega arith)
        ∙ get_or-set_ne _ (at + 2) at _ 0 (λ e. omega arith)
        ∙ get_or-set_ne _ (at + 1) at _ 0 (λ e. omega arith)
        ∙ get_or-set_self image at _ 0 (omega arith)

    byte_1 : get_or (u32tobuf image at v) (at + 1) 0 ≡ v / 2 ^ 8 % 256
    unfolding u32tobuf
    byte_1 =
        get_or-set_ne _ (at + 3) (at + 1) _ 0 (λ e. omega arith)
        ∙ get_or-set_ne _ (at + 2) (at + 1) _ 0 (λ e. omega arith)
        ∙ get_or-set_self (set image at (v % 256)) (at + 1) _ 0 (simp length-set (omega arith))

    byte_2 : get_or (u32tobuf image at v) (at + 2) 0 ≡ v / 2 ^ 16 % 256
    unfolding u32tobuf
    byte_2 =
        get_or-set_ne _ (at + 3) (at + 2) _ 0 (λ e. omega arith)
        ∙ get_or-set_self (set (set image at (v % 256)) (at + 1) (v / 2 ^ 8 % 256)) (at + 2) _ 0
            (simp length-set (omega arith))

    byte_3 : get_or (u32tobuf image at v) (at + 3) 0 ≡ v / 2 ^ 24 % 256
    unfolding u32tobuf
    byte_3 = get_or-set_self _ (at + 3) _ 0 (simp length-set (omega arith))

    -- A word that is written is read back.
    pub buf2u32-u32tobuf : v < 2 ^ 32 → buf2u32 (u32tobuf image at v) at ≡ v
    unfolding buf2u32
    buf2u32-u32tobuf small =
        rw (byte_0, byte_1, byte_2, byte_3)
          (join_bytes (v % 256) (v / 2 ^ 8 % 256) (v / 2 ^ 16 % 256) (v / 2 ^ 24 % 256)
              (omega arith) (omega arith) (omega arith)
            ∙ omega arith)
