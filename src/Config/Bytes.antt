-- ===== src/Config/Bytes.antt =====
-- core/svs_config.h: the bytes of the EEPROM.
use svs_bridge.Base.{
  ℕ, zero, suc, ◌≤◌, ◌<◌, ◌≡◌, ◌≢◌, inl, inr, refl, sym, ap, ◌∙◌, List, [], ◌∷◌, Option, none, some,
  arith, ltb, ◌==◌, Bool-cases, length, length-set,
}
use svs_bridge.Config.{Eeprom, get_byte, set_byte}

abbrev pub size : Eeprom → ℕ
size e = length e.bytes

pub get_byte-set_byte : (e : Eeprom) (a v : ℕ) → a < size e → get_byte (set_byte e a v) a ≡ some v
unfolding get_byte set_byte
get_byte-set_byte e a v h = at e.bytes a h
  where
    at :
        (xs : List (Option ℕ)) (a : ℕ)
        → a < length xs
        → get_byte (set_byte (record { bytes = xs }) a v) a ≡ some v
    at [] a h = elim h [ ]
    at (x ∷ xs) zero h = refl
    at (x ∷ xs) (suc a) h = at xs a (omega arith)

pub get_byte-set_byte_ne :
    (e : Eeprom) (a b v : ℕ) → a ≢ b → get_byte (set_byte e a v) b ≡ get_byte e b
unfolding get_byte set_byte
get_byte-set_byte_ne e a b v h = at e.bytes a b h
  where
    at :
        (xs : List (Option ℕ)) (a b : ℕ)
        → a ≢ b
        → get_byte (set_byte (record { bytes = xs }) a v) b ≡ get_byte (record { bytes = xs }) b
    at [] a b h = refl
    at (x ∷ xs) zero zero h = absurd (h refl)
    at (x ∷ xs) zero (suc b) h = refl
    at (x ∷ xs) (suc a) zero h = refl
    at (x ∷ xs) (suc a) (suc b) h = at xs a b (λ e. h (ap suc e))

pub size-set_byte : (e : Eeprom) (a v : ℕ) → size (set_byte e a v) ≡ size e
unfolding set_byte
size-set_byte e a v = length-set e.bytes a (some v)

pub get_byte_known : (e : Eeprom) (a v : ℕ) → get_byte e a ≡ some v → a < size e
unfolding get_byte
get_byte_known e a v h = at e.bytes a h
  where
    at :
        (xs : List (Option ℕ)) (a : ℕ) → get_byte (record { bytes = xs }) a ≡ some v → a < length xs
    at [] a h = absurd (ground arith)
    at (x ∷ xs) zero h = omega arith
    at (x ∷ xs) (suc a) h = omega (arith, at xs a h)

-- Every byte that was read is a byte.
abbrev pub AreBytes : Eeprom → Type 0
AreBytes e = (a v : ℕ) → get_byte e a ≡ some v → v < 256

pub set_byte-AreBytes : (e : Eeprom) (a v : ℕ) → v < 256 → AreBytes e → AreBytes (set_byte e a v)
set_byte-AreBytes e a v small bytes b w h = elim (Bool-cases (a == b)) [
  | inl t ↦
      let same : a ≡ b = ground arith in
      let inside : b < size e =
        omega (arith, get_byte_known (set_byte e a v) b w h, size-set_byte e a v) in
      let got : some v ≡ some w = sym (get_byte-set_byte e b v inside) ∙ rw same at h in
      ground (arith, got)
  | inr f ↦ bytes b w (sym (get_byte-set_byte_ne e a b v (λ s. ground arith)) ∙ h)
]

-- No byte that was known has been forgotten.
abbrev pub NoLoss : Eeprom → Eeprom → Type 0
NoLoss e e' = (a : ℕ) → get_byte e' a ≡ none → get_byte e a ≡ none

get_byte_past : (e : Eeprom) (a : ℕ) → size e ≤ a → get_byte e a ≡ none
unfolding get_byte
get_byte_past e a h = at e.bytes a h
  where
    at : (xs : List (Option ℕ)) (a : ℕ) → length xs ≤ a → get_byte (record { bytes = xs }) a ≡ none
    at [] a h = refl
    at (x ∷ xs) zero h = absurd (omega arith)
    at (x ∷ xs) (suc a) h = at xs a (omega arith)

pub set_byte-NoLoss : (e : Eeprom) (a v : ℕ) → NoLoss e (set_byte e a v)
set_byte-NoLoss e a v b h = elim (Bool-cases (a == b)) [
  | inl t ↦
      let same : a ≡ b = ground arith in
      elim (Bool-cases (ltb b (size e))) [
        | inl i ↦
            let got = get_byte-set_byte e b v (ground arith) in
            absurd (ground (arith, got, rw same at h))
        | inr o ↦ get_byte_past e b (ground arith)
      ]
  | inr f ↦ sym (get_byte-set_byte_ne e a b v (λ s. ground arith)) ∙ h
]
