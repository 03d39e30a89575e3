-- ===== src/Config/Flags.antt =====
-- core/svs_config.h: the flags of the inputs, a bit each in the EEPROM's bitmaps.
use svs_bridge.Base.{
  ℕ, ◌+◌, ◌-◌, ◌/◌, ◌%◌, ◌^◌, ◌≤◌, ◌<◌, ◌≡◌, ◌≢◌, ◌⊎◌, inl, inr, refl, sym, ap, subst, ◌∙◌, Bool,
  true, false, not, ◌&&◌, none, some, arith, ltb, ◌==◌, if◌then◌else◌, Bool-cases, Option-cases,
}
use svs_bridge.Base.Bits.{below_all, below_all-true}
use svs_bridge.Config.{
  Bit, bit_of, with_bit, Eeprom, get_byte, set_byte, get_bit, is_set, flip_if, ok, refused,
  not_read, put_bit, auto_profile_base, rgsb_base, sync_bypass_base, InputSettings,
}
use svs_bridge.Config.Bytes.{
  size, get_byte-set_byte, get_byte-set_byte_ne, size-set_byte, get_byte_known, AreBytes,
  set_byte-AreBytes, NoLoss, set_byte-NoLoss,
}

pub ok-inj : {a b : Eeprom} → ok a ≡ ok b → a ≡ b
ok-inj h = cc

-- A flag of the inputs: where its bitmap stands, and whether 0 means on.
pub data Flag : Type 0 where
  auto rgsb bypass : Flag

abbrev pub base : Flag → ℕ
base auto = auto_profile_base
base rgsb = rgsb_base
base bypass = sync_bypass_base

abbrev pub active_low : Flag → Bool
active_low auto = false
active_low rgsb = true
active_low bypass = false

abbrev pub wanted : Flag → InputSettings → Bool
wanted auto s = s.auto_profile
wanted rgsb s = s.rgsb
wanted bypass s = s.sync_bypass

abbrev same_bool : Bool → Bool → Bool
same_bool true b = b
same_bool false b = not b

same_bool-eq : (a b : Bool) → same_bool a b ≡ true → a ≡ b
same_bool-eq true b h = sym h
same_bool-eq false false h = refl
same_bool-eq false true h = h

&&-left : (a b : Bool) → a && b ≡ true → a ≡ true
&&-left true b h = refl
&&-left false b h = h

&&-right : (a b : Bool) → a && b ≡ true → b ≡ true
&&-right true b h = h
&&-right false b h = absurd (ground arith)

abbrev with_bit_test : Bool → ℕ → ℕ → ℕ → Bool
with_bit_test on v i j =
    ltb (with_bit v (2 ^ i) on) 256
    && same_bool (is_set (some (with_bit v (2 ^ i) on)) (2 ^ j))
        (if i == j then on else is_set (some v) (2 ^ j))

with_bit_table :
    (on : Bool)
    → below_all 256 (λ v. below_all 8 (λ i. below_all 8 (λ j. with_bit_test on v i j))) ≡ true
unfolding below_all with_bit
with_bit_table true = refl
with_bit_table false = refl

with_bit_tested : (on : Bool) (v i j : ℕ) → v < 256 → i < 8 → j < 8 → with_bit_test on v i j ≡ true
with_bit_tested on v i j p q r =
    below_all-true 8 (λ j. with_bit_test on v i j) j r
      (below_all-true 8 (λ i. below_all 8 (λ j. with_bit_test on v i j)) i q
        (below_all-true 256 (λ v. below_all 8 (λ i. below_all 8 (λ j. with_bit_test on v i j))) v p
          (with_bit_table on)))

with_bit-lt : (on : Bool) (v i : ℕ) → v < 256 → i < 8 → with_bit v (2 ^ i) on < 256
with_bit-lt on v i p q =
    let small = &&-left (ltb (with_bit v (2 ^ i) on) 256) _ (with_bit_tested on v i i p q q) in
    ground (arith, small)

-- Writing one flag of a byte sets that flag and no other.
is_set-with_bit :
    (on : Bool) (v i j : ℕ)
    → v < 256
    → i < 8
    → j < 8
    → is_set (some (with_bit v (2 ^ i) on)) (2 ^ j)
      ≡ (if i == j then on else is_set (some v) (2 ^ j))
is_set-with_bit on v i j p q r =
    same_bool-eq _ _ (&&-right (ltb (with_bit v (2 ^ i) on) 256) _ (with_bit_tested on v i j p q r))

abbrev pub flag : Eeprom → Flag → ℕ → Bool
flag e f n = get_bit e (base f) n (active_low f)

abbrev pub flag_addr : Flag → ℕ → ℕ
flag_addr f n = Bit.addr (bit_of (base f) n)

pub flag_ext :
    (e e' : Eeprom) (f : Flag) (n : ℕ)
    → get_byte e' (flag_addr f n) ≡ get_byte e (flag_addr f n)
    → flag e' f n ≡ flag e f n
unfolding get_bit
flag_ext e e' f n same = ap (λ b. flip_if (active_low f) (is_set b (2 ^ ((n - 1) % 8)))) same

abbrev index : ℕ → ℕ
index n = (n - 1) % 8

flip_if-flip_if : (low on : Bool) → flip_if low (flip_if low on) ≡ on
flip_if-flip_if true true = refl
flip_if-flip_if true false = refl
flip_if-flip_if false on = refl

within_bitmap :
    (start n m : ℕ)
    → 1 ≤ n
    → 1 ≤ m
    → n ≢ m
    → (start + (n - 1) / 8 ≢ start + (m - 1) / 8) ⊎ (index n ≢ index m)
within_bitmap start n m a c e = elim (Bool-cases (index n == index m)) [
  | inl s ↦ let same : index n ≡ index m = ground arith in inl (λ t. e (omega arith))
  | inr s ↦ inr (λ t. ground arith)
]

-- Two flags never share a bit: they stand in different bytes, or at different bits.
flags_apart :
    (f g : Flag) (n m : ℕ)
    → 1 ≤ n
    → n ≤ 32
    → 1 ≤ m
    → m ≤ 288
    → (f ≢ g) ⊎ (n ≢ m)
    → (flag_addr f n ≢ flag_addr g m) ⊎ (index n ≢ index m)
flags_apart auto auto n m a b c d (inl e) = absurd (e refl)
flags_apart rgsb rgsb n m a b c d (inl e) = absurd (e refl)
flags_apart bypass bypass n m a b c d (inl e) = absurd (e refl)
flags_apart auto rgsb n m a b c d e = inl (λ s. omega arith)
flags_apart auto bypass n m a b c d e = inl (λ s. omega arith)
flags_apart rgsb bypass n m a b c d e = inl (λ s. omega arith)
flags_apart rgsb auto n m a b c d e = inl (λ s. omega arith)
flags_apart bypass auto n m a b c d e = inl (λ s. omega arith)
flags_apart bypass rgsb n m a b c d e = inl (λ s. omega arith)
flags_apart auto auto n m a b c d (inr e) = within_bitmap auto_profile_base n m a c e
flags_apart rgsb rgsb n m a b c d (inr e) = within_bitmap rgsb_base n m a c e
flags_apart bypass bypass n m a b c d (inr e) = within_bitmap sync_bypass_base n m a c e

-- What a flag that was written changes.
pub record Flagged (e e' : Eeprom) (f : Flag) (n : ℕ) (on : Bool) : Type 0 where
  pub itself : flag e' f n ≡ on
  pub others : (a : ℕ) → flag_addr f n ≢ a → get_byte e' a ≡ get_byte e a
  pub flags : (g : Flag) (m : ℕ) → 1 ≤ m → m ≤ 288 → (f ≢ g) ⊎ (n ≢ m) → flag e' g m ≡ flag e g m
  pub bytes : AreBytes e'
  pub same_size : size e' ≡ size e
  pub no_loss : NoLoss e e'

module _ (e : Eeprom) (f : Flag) (n : ℕ) (on : Bool) (low : 1 ≤ n) (high : n ≤ 32)
    (bytes : AreBytes e) where
  put_bit-ok :
      (v : ℕ)
      → get_byte e (flag_addr f n) ≡ some v
      → put_bit e (base f) n on (active_low f)
        ≡ ok (
            set_byte e
              (flag_addr f n)
              (with_bit (v % 256) (2 ^ index n) (flip_if (active_low f) on)))
  unfolding put_bit
  put_bit-ok v h = rw h refl

  written :
      (v : ℕ)
      → get_byte e (flag_addr f n) ≡ some v
      → {e' : Eeprom}
      → set_byte e (flag_addr f n) (with_bit (v % 256) (2 ^ index n) (flip_if (active_low f) on))
        ≡ e'
      → Flagged e e' f n on
  unfolding get_bit
  written v h {e'} run =
      subst (λ e'. Flagged e e' f n on) run
        (record {
          itself =
              rw
                (
                  now,
                  is_set-with_bit (flip_if (active_low f) on) (v % 256) (index n) (index n)
                      (omega arith) (omega arith) (omega arith),
                  refl_test,
                )
                (flip_if-flip_if (active_low f) on);
          others = λ a away. get_byte-set_byte_ne e (flag_addr f n) a w away;
          flags = λ g m a b apart. flags_kept g m (flags_apart f g n m low high a b apart);
          bytes =
              set_byte-AreBytes e (flag_addr f n) w
                (with_bit-lt (flip_if (active_low f) on) (v % 256) (index n) (omega arith)
                  (omega arith))
                bytes;
          same_size = size-set_byte e (flag_addr f n) w;
          no_loss = set_byte-NoLoss e (flag_addr f n) w;
        })
    where
      w : ℕ
      w = with_bit (v % 256) (2 ^ index n) (flip_if (active_low f) on)

      now : get_byte (set_byte e (flag_addr f n) w) (flag_addr f n) ≡ some w
      now = get_byte-set_byte e (flag_addr f n) w (get_byte_known e (flag_addr f n) v h)

      elsewhere :
          (g : Flag) (m : ℕ)
          → flag_addr f n ≢ flag_addr g m
          → flag (set_byte e (flag_addr f n) w) g m ≡ flag e g m
      elsewhere g m away =
          ap (λ b. flip_if (active_low g) (is_set b (2 ^ index m)))
            (get_byte-set_byte_ne e (flag_addr f n) (flag_addr g m) w away)

      same_byte :
          (g : Flag) (m : ℕ)
          → index n ≢ index m
          → flag_addr f n ≡ flag_addr g m
          → is_set (get_byte (set_byte e (flag_addr f n) w) (flag_addr g m)) (2 ^ index m)
            ≡ is_set (get_byte e (flag_addr g m)) (2 ^ index m)
      same_byte g m differ same =
          let byte : v % 256 ≡ v = omega (arith, bytes (flag_addr f n) v h) in
          let test : (index n == index m) ≡ false = ground arith in
          let after : is_set (some w) (2 ^ index m) ≡ is_set (some v) (2 ^ index m) =
            subst (λ (u : ℕ). is_set (some w) (2 ^ index m) ≡ is_set (some u) (2 ^ index m)) byte
              (is_set-with_bit (flip_if (active_low f) on) (v % 256) (index n) (index m)
                  (omega arith) (omega arith) (omega arith)
                ∙ ap
                    (λ t.
                      if t
                      then flip_if (active_low f) on
                      else is_set (some (v % 256)) (2 ^ index m))
                    test) in
          subst
            (λ a.
              is_set (get_byte (set_byte e (flag_addr f n) w) a) (2 ^ index m)
              ≡ is_set (get_byte e a) (2 ^ index m))
            same
            (ap (λ b. is_set b (2 ^ index m)) now
              ∙ after
              ∙ sym (ap (λ b. is_set b (2 ^ index m)) h))

      flags_kept :
          (g : Flag) (m : ℕ)
          → (flag_addr f n ≢ flag_addr g m) ⊎ (index n ≢ index m)
          → flag (set_byte e (flag_addr f n) w) g m ≡ flag e g m
      flags_kept g m (inl away) = elsewhere g m away
      flags_kept g m (inr differ) = elim (Bool-cases (flag_addr f n == flag_addr g m)) [
        | inl t ↦ ap (flip_if (active_low g)) (same_byte g m differ (ground arith))
        | inr t ↦ elsewhere g m (λ s. ground arith)
      ]

      refl_test : (index n == index n) ≡ true
      refl_test = ground arith

  put_bit-missing :
      get_byte e (flag_addr f n) ≡ none → put_bit e (base f) n on (active_low f) ≡ refused not_read
  unfolding put_bit
  put_bit-missing h = rw h refl

  -- Writing a flag is refused only where its byte was not read.
  pub put_bit-Flagged :
      {e' : Eeprom} → put_bit e (base f) n on (active_low f) ≡ ok e' → Flagged e e' f n on
  put_bit-Flagged {e'} run = elim (Option-cases (get_byte e (flag_addr f n))) [
    | inl missing ↦ absurd (ground (arith, put_bit-missing missing, run))
    | inr (v, h) ↦ written v h (ok-inj (sym (put_bit-ok v h) ∙ run))
  ]

  -- Writing a flag of a byte that was read goes through.
  pub put_bit_known :
      get_byte e (flag_addr f n) ≢ none
      → (e' : Eeprom) × (put_bit e (base f) n on (active_low f) ≡ ok e')
  put_bit_known known = elim (Option-cases (get_byte e (flag_addr f n))) [
    | inl missing ↦ absurd (known missing)
    | inr (v, h) ↦ (_, put_bit-ok v h)
  ]
