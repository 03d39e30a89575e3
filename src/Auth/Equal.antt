-- ===== src/Auth/Equal.antt =====
-- platform/esp32/main/auth.cpp: the comparison in constant time, and the text of random bytes.
use svs_bridge.Base.{
  ℕ, ◌*◌, ◌≡◌, refl, ap, ap₂, ◌∙◌, true, List, [], ◌∷◌, arith, length, bit_or, bit_xor,
}
use svs_bridge.Base.Bits.{or_parts_zero, xor_zero, xor_self}
use svs_bridge.Auth.{diff_from, equal, random_hex}

diff_from-zero :
    (diff : ℕ) (as_ bs : List ℕ)
    → length as_ ≡ length bs
    → diff_from diff as_ bs ≡ 0
    → (diff ≡ 0) × (as_ ≡ bs)
unfolding diff_from
diff_from-zero diff [] [] e h = (h, refl)
diff_from-zero diff [] (b ∷ bs) e h = absurd (omega arith)
diff_from-zero diff (a ∷ as_) [] e h = absurd (omega arith)
diff_from-zero diff (a ∷ as_) (b ∷ bs) e h =
    let (both, rest) = diff_from-zero (bit_or diff (bit_xor a b)) as_ bs (omega arith) h in
    let (none_so_far, same) = or_parts_zero diff (bit_xor a b) both in
    (none_so_far, ap₂ (◌∷◌) (xor_zero a b same) rest)

diff_from_self : (bs : List ℕ) → diff_from 0 bs bs ≡ 0
unfolding diff_from
diff_from_self [] = refl
diff_from_self (b ∷ bs) = ap (λ x. diff_from (bit_or 0 x) bs bs) (xor_self b) ∙ diff_from_self bs

pub equal-eq : (a b : List ℕ) → length a ≡ length b → equal a b ≡ true → a ≡ b
unfolding equal
equal-eq a b e h =
    let zero_diff : diff_from 0 a b ≡ 0 = ground arith in (diff_from-zero 0 a b e zero_diff).1

pub equal_self : (a : List ℕ) → equal a a ≡ true
unfolding equal
equal_self a = ground (arith, diff_from_self a)

pub length-random_hex : (bytes : List ℕ) → length (random_hex bytes) ≡ length bytes * 2
length-random_hex [] = refl
length-random_hex (b ∷ bs) = omega (arith, length-random_hex bs)
