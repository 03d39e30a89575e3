-- ===== src/Base/Bits.antt =====
-- Facts about `bit_and` and `bit_or` at variables, and checking by evaluation over a small range.
use Prim.Native.Nat.{
  ℕ, zero, suc, ◌+◌, ◌*◌, ◌/◌, ◌%◌, ◌^◌, ◌≤◌, ◌<◌, min, max, bit_and, bit_or, bit_xor, digits,
  bitwise, bit_and-bitwise, bit_xor-bitwise, differ, bit_or-bitwise,
}
use mathlib.Core.Path.{◌≡◌, refl, sym, ap, subst, ◌∙◌}
use mathlib.Core.Bool.{Bool, true, ◌&&◌}
use native.Mathlib.Nat.{pow-suc}
use native.Mathlib.Omega.{arith}

-- Whether every number below a bound passes a test.
unfoldable pub below_all : ℕ → (ℕ → Bool) → Bool
below_all zero test = true
below_all (suc k) test = below_all k test && test k

pub below_all-true :
    (bound : ℕ) (test : ℕ → Bool) (k : ℕ) → k < bound → below_all bound test ≡ true → test k ≡ true
unfolding below_all
below_all-true zero test k small all = elim small [ ]
below_all-true (suc bound) test k small all = ground (arith, below_all-true bound test k)

-- An operation on digits: `end` is its result once the first number has run out.
module _ (end : ℕ → ℕ) (op : ℕ → ℕ → ℕ) where
  -- Any count of digits that is large enough gives the same.
  digits_count : (m n x y : ℕ) → x ≤ m → x ≤ n → digits end op m x y ≡ digits end op n x y
  digits_count zero zero x y p q = refl
  digits_count (suc m) zero zero y p q = refl
  digits_count zero (suc n) zero y p q = refl
  digits_count (suc m) (suc n) zero y p q = refl
  digits_count (suc m) (suc n) (suc x) y p q =
      ap (λ (t : ℕ). t * 2 + op (suc x % 2) (y % 2))
        (digits_count m n (suc x / 2) (y / 2) (omega arith) (omega arith))
  digits_count (suc m) zero (suc x) y p q = elim q [ ]
  digits_count zero n (suc x) y p q = elim p [ ]

  bitwise-suc :
      (x y : ℕ)
      → bitwise end op (suc x) y ≡ bitwise end op (suc x / 2) (y / 2) * 2 + op (suc x % 2) (y % 2)
  bitwise-suc x y =
      ap (λ (t : ℕ). t * 2 + op (suc x % 2) (y % 2))
        (digits_count x (suc x / 2) (suc x / 2) (y / 2) (omega arith) (omega arith))

-- The lowest digit of each operation.
pub or_low : (x y : ℕ) → bit_or x y ≡ bit_or (x / 2) (y / 2) * 2 + max (x % 2) (y % 2)
or_low zero y = omega (arith, bit_or-bitwise 0 y, bit_or-bitwise 0 (y / 2))
or_low (suc x) y = omega (
  arith,
  bit_or-bitwise (suc x) y,
  bitwise-suc (λ b. b) max x y,
  bit_or-bitwise (suc x / 2) (y / 2),
)

pub and_low : (x y : ℕ) → bit_and x y ≡ bit_and (x / 2) (y / 2) * 2 + min (x % 2) (y % 2)
and_low zero y = omega (arith, bit_and-bitwise 0 y, bit_and-bitwise 0 (y / 2))
and_low (suc x) y = omega (
  arith,
  bit_and-bitwise (suc x) y,
  bitwise-suc (λ b. zero) min x y,
  bit_and-bitwise (suc x / 2) (y / 2),
)

pub xor_low : (x y : ℕ) → bit_xor x y ≡ bit_xor (x / 2) (y / 2) * 2 + differ (x % 2) (y % 2)
xor_low zero y = omega (arith, bit_xor-bitwise 0 y, bit_xor-bitwise 0 (y / 2))
xor_low (suc x) y = omega (
  arith,
  bit_xor-bitwise (suc x) y,
  bitwise-suc (λ b. b) differ x y,
  bit_xor-bitwise (suc x / 2) (y / 2),
)

differ_zero : (x y : ℕ) → differ x y ≡ 0 → x ≡ y
differ_zero zero y h = sym h
differ_zero (suc x) zero h = h
differ_zero (suc x) (suc y) h = ap suc (differ_zero x y h)

differ_self : (x : ℕ) → differ x x ≡ 0
differ_self zero = refl
differ_self (suc x) = differ_self x

xor_zero_upto : (bound x y : ℕ) → x ≤ bound → bit_xor x y ≡ 0 → x ≡ y
xor_zero_upto zero x y small h =
    let e : x ≡ 0 = omega arith in omega (arith, e, bit_xor-bitwise 0 y, rw e at h)
xor_zero_upto (suc bound) x y small h =
    let low = xor_low x y in
    let halves : bit_xor (x / 2) (y / 2) ≡ 0 = omega arith in
    let digits_ : differ (x % 2) (y % 2) ≡ 0 = omega arith in
    omega (
      arith,
      xor_zero_upto bound (x / 2) (y / 2) (omega arith) halves,
      differ_zero (x % 2) (y % 2) digits_,
    )

pub xor_zero : (x y : ℕ) → bit_xor x y ≡ 0 → x ≡ y
xor_zero x y = xor_zero_upto x x y (omega arith)

or_parts_upto : (bound x y : ℕ) → x ≤ bound → bit_or x y ≡ 0 → (x ≡ 0) × (y ≡ 0)
or_parts_upto zero x y small h =
    let e : x ≡ 0 = omega arith in (e, omega (arith, e, bit_or-bitwise 0 y, rw e at h))
or_parts_upto (suc bound) x y small h =
    let halves : bit_or (x / 2) (y / 2) ≡ 0 = omega (arith, or_low x y) in
    let rest = or_parts_upto bound (x / 2) (y / 2) (omega arith) halves in
    (omega (arith, or_low x y, rest), omega (arith, or_low x y, rest))

-- An `or` is zero only of zeros.
pub or_parts_zero : (x y : ℕ) → bit_or x y ≡ 0 → (x ≡ 0) × (y ≡ 0)
or_parts_zero x y = or_parts_upto x x y (omega arith)

xor_self_upto : (bound x : ℕ) → x ≤ bound → bit_xor x x ≡ 0
xor_self_upto zero x small = let e : x ≡ 0 = omega arith in rw e (bit_xor-bitwise 0 0)
xor_self_upto (suc bound) x small =
    omega (arith, xor_low x x, xor_self_upto bound (x / 2) (omega arith), differ_self (x % 2))

pub xor_self : (x : ℕ) → bit_xor x x ≡ 0
xor_self x = xor_self_upto x x (omega arith)

or_zero_upto : (bound x : ℕ) → x ≤ bound → bit_or x 0 ≡ x
or_zero_upto zero x small =
    let e : x ≡ 0 = omega arith in subst (λ t. bit_or t 0 ≡ t) (sym e) (bit_or-bitwise 0 0)
or_zero_upto (suc bound) zero small = bit_or-bitwise 0 0
or_zero_upto (suc bound) (suc x) small =
    omega (arith, or_low (suc x) 0, or_zero_upto bound (suc x / 2) (omega arith))

or_comm_upto : (bound x y : ℕ) → x ≤ bound → y ≤ bound → bit_or x y ≡ bit_or y x
or_comm_upto zero x y p q = let e : x ≡ 0 = omega arith in let d : y ≡ 0 = omega arith in rw (e, d)
or_comm_upto (suc bound) zero y p q = bit_or-bitwise 0 y ∙ sym (or_zero_upto y y (omega arith))
or_comm_upto (suc bound) (suc x) zero p q =
    or_zero_upto (suc x) (suc x) (omega arith) ∙ sym (bit_or-bitwise 0 (suc x))
or_comm_upto (suc bound) (suc x) (suc y) p q = omega (
  arith,
  or_low (suc x) (suc y),
  or_low (suc y) (suc x),
  or_comm_upto bound (suc x / 2) (suc y / 2) (omega arith) (omega arith),
)

pub bit_or_comm : (x y : ℕ) → bit_or x y ≡ bit_or y x
bit_or_comm x y = or_comm_upto (x + y) x y (omega arith) (omega arith)

-- Digits above the second number stay as they are.
pub bit_or_above :
    (k high x y : ℕ)
    → x < 2 ^ k
    → y < 2 ^ k
    → bit_or (high * 2 ^ k + x) y ≡ high * 2 ^ k + bit_or x y
bit_or_above zero high x y p q =
    let e : x ≡ 0 = omega arith in
    let d : y ≡ 0 = omega arith in
    rw (e, d)
      (omega (arith, or_zero_upto (high * 1 + 0) (high * 1 + 0) (omega arith), bit_or-bitwise 0 0))
bit_or_above (suc k) high x y p q =
    let twice : 2 ^ suc k ≡ 2 ^ k * 2 = pow-suc 2 k in
    let split : high * 2 ^ suc k ≡ high * 2 ^ k * 2 =
      omega (arith, ap (λ (t : ℕ). high * t) twice) in
    let rest = bit_or_above k high (x / 2) (y / 2) (omega arith) (omega arith) in
    let half : (high * 2 ^ k * 2 + x) / 2 ≡ high * 2 ^ k + x / 2 = omega arith in
    rw split (or_low (high * 2 ^ k * 2 + x) y ∙ rw half (omega (arith, rest, or_low x y)))

-- Digits that do not overlap are added.
pub bit_or_disjoint :
    (k high low : ℕ) → low < 2 ^ k → bit_or (high * 2 ^ k) low ≡ high * 2 ^ k + low
bit_or_disjoint k high low small =
    let e : high * 2 ^ k + 0 ≡ high * 2 ^ k = omega arith in
    subst (λ t. bit_or t low ≡ high * 2 ^ k + low) e
      (bit_or_above k high 0 low (omega arith) small
        ∙ ap (λ (t : ℕ). high * 2 ^ k + t) (bit_or-bitwise 0 low))

pub bit_or_disjoint_left :
    (k high low : ℕ) → low < 2 ^ k → bit_or low (high * 2 ^ k) ≡ high * 2 ^ k + low
bit_or_disjoint_left k high low small =
    bit_or_comm low (high * 2 ^ k) ∙ bit_or_disjoint k high low small
