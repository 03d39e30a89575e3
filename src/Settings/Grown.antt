-- ===== src/Settings/Grown.antt =====
-- What the EEPROM that was read so far has of the SVS's.
use svs_bridge.Base.{
  ℕ, zero, suc, ◌<◌, ◌≡◌, ◌≢◌, ◌⊎◌, inl, inr, sym, ap, ◌∙◌, none, some, arith, ◌==◌, Bool-cases,
}
use svs_bridge.Config.{Eeprom, get_byte, set_byte, ir_address_addr, ir_command_addr, ir_empty}
use svs_bridge.Config.Bytes.{
  size, NoLoss, get_byte-set_byte, get_byte-set_byte_ne, size-set_byte, get_byte_known,
}
use svs_bridge.Settings.Law.{Agrees, known_cases}

pub set_byte-Agrees :
    (m : ℕ → ℕ) (e : Eeprom) (a u : ℕ) → Agrees m e → u ≡ m a → Agrees m (set_byte e a u)
set_byte-Agrees m e a u agrees true_byte = record {
  full = size-set_byte e a u ∙ agrees.full;
  agree = λ b v h. elim (Bool-cases (a == b)) [
    | inl t ↦
        let same : a ≡ b = ground arith in
        let inside : b < size e =
          omega (arith, get_byte_known (set_byte e a u) b v h, size-set_byte e a u) in
        let got : some u ≡ some v = sym (get_byte-set_byte e b u inside) ∙ rw same at h in
        let inj : u ≡ v = ground (arith, got) in sym inj ∙ true_byte ∙ ap m same
    | inr f ↦ agrees.agree b v (sym (get_byte-set_byte_ne e a b u (λ s. ground arith)) ∙ h)
  ];
}

-- The EEPROM after more bytes were read: true of `m`, with no byte forgotten.
pub record Grown (m : ℕ → ℕ) (e e' : Eeprom) : Type 0 where
  pub agrees : Agrees m e'
  pub no_loss : NoLoss e e'

pub Grown-refl : {m : ℕ → ℕ} {e : Eeprom} → Agrees m e → Grown m e e
Grown-refl agrees = record { agrees = agrees; no_loss = λ a h. h }

pub Grown-trans : {m : ℕ → ℕ} {e e' e'' : Eeprom} → Grown m e e' → Grown m e' e'' → Grown m e e''
Grown-trans g h = record { agrees = h.agrees; no_loss = λ a gone. g.no_loss a (h.no_loss a gone) }

-- Byte `a` was read.
abbrev pub IsKnown : Eeprom → ℕ → Type 0
IsKnown e a = get_byte e a ≢ none

-- The slots of input `n` from `k` on, `left` of them, up to the first empty one, were read.
abbrev pub SlotsRead : Eeprom → ℕ → ℕ → ℕ → ℕ → Type 0
SlotsRead e inputs n k zero = Unit
SlotsRead e inputs n k (suc left) =
    IsKnown e (ir_address_addr n k inputs)
    × IsKnown e (ir_command_addr n k inputs)
    × ((get_byte e (ir_address_addr n k inputs) ≡ some ir_empty)
        ⊎ SlotsRead e inputs n (suc k) left)

pub none-some : {v : ℕ} → none ≢ some v
none-some h = ground (arith, h)

pub Grown-known :
    {m : ℕ → ℕ} {e e' : Eeprom} (a : ℕ) {v : ℕ}
    → Agrees m e
    → Grown m e e'
    → get_byte e a ≡ some v
    → get_byte e' a ≡ some v
Grown-known {m} {e} {e'} a {v} agrees grown got = elim (known_cases (get_byte e' a)) [
  | inl gone ↦ absurd (none-some (sym (grown.no_loss a gone) ∙ got))
  | inr (u, h) ↦ h ∙ ap some (grown.agrees.agree a u h ∙ sym (agrees.agree a v got))
]

pub Grown-SlotsRead :
    {m : ℕ → ℕ} {e e' : Eeprom} (inputs n k left : ℕ)
    → Agrees m e
    → Grown m e e'
    → SlotsRead e inputs n k left
    → SlotsRead e' inputs n k left
Grown-SlotsRead inputs n k zero agrees grown slots = tt
Grown-SlotsRead inputs n k (suc left) agrees grown (a, c, inl last) = (
  λ gone. a (grown.no_loss _ gone),
  λ gone. c (grown.no_loss _ gone),
  inl (Grown-known _ agrees grown last),
)
Grown-SlotsRead inputs n k (suc left) agrees grown (a, c, inr slots) = (
  λ gone. a (grown.no_loss _ gone),
  λ gone. c (grown.no_loss _ gone),
  inr (Grown-SlotsRead inputs n (suc k) left agrees grown slots),
)
