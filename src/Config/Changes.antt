-- ===== src/Config/Changes.antt =====
-- core/svs_config.h: what the writes of `plan_writes` make of the EEPROM that was read.
use svs_bridge.Base.{
  ℕ, zero, suc, ◌+◌, ◌%◌, ◌≤◌, ◌<◌, ◌≡◌, ◌≢◌, inl, inr, refl, sym, ap, subst, ◌∙◌, List, [], ◌∷◌,
  Option, none, some, arith, ◌==◌, if◌then◌else◌, Bool-cases, length,
}
use svs_bridge.Config.{Eeprom, get_byte, set_byte, differs, value, changes}
use svs_bridge.Config.Bytes.{
  size, get_byte-set_byte, get_byte-set_byte_ne, size-set_byte, AreBytes, NoLoss,
}

-- The EEPROM after the SVS has taken each write in order.
unfoldable pub write_all : List (ℕ × ℕ) → Eeprom → Eeprom
write_all [] e = e
write_all ((a, v) ∷ writes) e = write_all writes (set_byte e a v)

abbrev at : List (Option ℕ) → ℕ → Option ℕ
at xs i = get_byte (record { bytes = xs }) i

abbrev step : ℕ → Option ℕ → Option ℕ → Eeprom → Eeprom
step a o r e = if differs o r then set_byte e a (value o) else e

-- The writes, the first byte's before the others.
write_all-changes :
    (a : ℕ) (o r : Option ℕ) (out read : List (Option ℕ)) (e : Eeprom)
    → write_all (changes a (o ∷ out) (r ∷ read)) e
      ≡ write_all (changes (suc a) out read) (step a o r e)
unfolding write_all changes
write_all-changes a o r out read e = elim (Bool-cases (differs o r)) [
  | inl t ↦ rw t refl
  | inr f ↦ rw f refl
]

step_other :
    (a : ℕ) (o r : Option ℕ) (e : Eeprom) (b : ℕ) → a ≢ b → get_byte (step a o r e) b ≡ get_byte e b
step_other a o r e b away = elim (Bool-cases (differs o r)) [
  | inl t ↦ rw t (get_byte-set_byte_ne e a b (value o) away)
  | inr f ↦ rw f refl
]

size-step : (a : ℕ) (o r : Option ℕ) (e : Eeprom) → size (step a o r e) ≡ size e
size-step a o r e = elim (Bool-cases (differs o r)) [
  | inl t ↦ rw t (size-set_byte e a (value o))
  | inr f ↦ rw f refl
]

step_itself :
    (a : ℕ) (o r : Option ℕ) (e : Eeprom)
    → a < size e
    → get_byte e a ≡ r
    → (o ≡ none → r ≡ none)
    → ((v : ℕ) → o ≡ some v → v < 256)
    → get_byte (step a o r e) a ≡ o
step_itself a none r e inside held kept small = held ∙ kept refl
step_itself a (some v) none e inside held kept small =
    let byte : v % 256 ≡ v = omega (arith, small v refl) in
    get_byte-set_byte e a (v % 256) inside ∙ ap some byte
step_itself a (some v) (some w) e inside held kept small =
    let byte : v % 256 ≡ v = omega (arith, small v refl) in
    elim (Bool-cases (v == w)) [
      | inl t ↦ let same : w ≡ v = ground arith in rw t (held ∙ ap some same)
      | inr f ↦ rw f (get_byte-set_byte e a (v % 256) inside ∙ ap some byte)
    ]

changes_below :
    (a : ℕ) (out read : List (Option ℕ)) (e : Eeprom) (b : ℕ)
    → b < a
    → get_byte (write_all (changes a out read) e) b ≡ get_byte e b
unfolding write_all changes
changes_below a [] read e b h = refl
changes_below a (o ∷ out) [] e b h = refl
changes_below a (o ∷ out) (r ∷ read) e b h =
    ap (λ e. get_byte e b) (write_all-changes a o r out read e)
    ∙ changes_below (suc a) out read (step a o r e) b (omega arith)
    ∙ step_other a o r e b (λ s. omega arith)

changes_from :
    (a : ℕ) (out read : List (Option ℕ)) (e : Eeprom)
    → length read ≡ length out
    → a + length out ≤ size e
    → ((i s : ℕ) → s ≡ a + i → i < length out → get_byte e s ≡ at read i)
    → ((i : ℕ) → at out i ≡ none → at read i ≡ none)
    → ((i v : ℕ) → at out i ≡ some v → v < 256)
    → (i s : ℕ) → s ≡ a + i
    → i < length out
    → get_byte (write_all (changes a out read) e) s ≡ at out i
unfolding get_byte
changes_from a [] read e same fits held kept small i s t h = absurd (omega arith)
changes_from a (o ∷ out) [] e same fits held kept small i s t h = absurd (omega arith)
changes_from a (o ∷ out) (r ∷ read) e same fits held kept small zero s t h =
    let place : a ≡ s = omega arith in
    ap (λ e. get_byte e s) (write_all-changes a o r out read e)
    ∙ changes_below (suc a) out read (step a o r e) s (omega arith)
    ∙ subst (λ s. get_byte (step a o r e) s ≡ o) place
        (step_itself a o r e (omega arith) (held 0 a (omega arith) (omega arith)) (kept 0)
          (small 0))
changes_from a (o ∷ out) (r ∷ read) e same fits held kept small (suc i) s t h =
    ap (λ e. get_byte e s) (write_all-changes a o r out read e)
    ∙ changes_from (suc a) out read (step a o r e) (omega arith) (omega (arith, size-step a o r e))
        (λ j u q l.
          step_other a o r e u (λ x. omega arith) ∙ held (suc j) u (omega arith) (omega arith))
        (λ j. kept (suc j)) (λ j. small (suc j)) i s (omega arith) (omega arith)

-- The writes that the code collects make what was read into what it planned.
pub changes_all :
    (out read : Eeprom)
    → size out ≡ size read
    → NoLoss read out
    → AreBytes out
    → (b : ℕ) → b < size read
    → get_byte (write_all (changes 0 out.bytes read.bytes) read) b ≡ get_byte out b
changes_all out read same kept small b h =
    changes_from 0 out.bytes read.bytes read (sym same) (omega arith)
      (λ i s t l. ap (get_byte read) (omega arith)) kept small b b (omega arith) (omega arith)
