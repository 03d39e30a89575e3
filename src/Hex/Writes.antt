-- ===== src/Hex/Writes.antt =====
-- core/svs_hex.h: what a data record writes, and the bounds of the image.
use svs_bridge.Base.{
  ℕ, zero, suc, max, ◌+◌, ◌%◌, ◌^◌, ◌≤◌, ◌<◌, ◌≡◌, ◌↔◌, ◌⊎◌, inl, inr, refl, subst, ◌∙◌, true,
  false, List, [], ◌∷◌, ◌++◌, arith, ltb, ◌==◌, if◌then◌else◌, Bool-cases, length, get_or, set,
  length-set, get_or-set_self, get_or-set_ne, length-take, length-replicate,
}
use svs_bridge.Hex.{
  Decoded, ok, err, fault, past_flash, ◌>>=◌, Rec, Flash, write, apply_data, apply, trim_end,
  parse_line, on_line, decode_from, finish, blank, decode_hex,
}

pub length-write :
    (flash : List ℕ) (start : ℕ) (bs : List ℕ) → length (write flash start bs) ≡ length flash
unfolding write
length-write flash start [] = refl
length-write flash start (b ∷ bs) =
    length-write (set flash start b) (suc start) bs ∙ length-set flash start b

write_before :
    (flash : List ℕ) (start : ℕ) (bs : List ℕ) (i : ℕ)
    → i < start
    → get_or (write flash start bs) i 0 ≡ get_or flash i 0
unfolding write
write_before flash start [] i h = refl
write_before flash start (b ∷ bs) i h =
    write_before (set flash start b) (suc start) bs i (omega arith)
    ∙ get_or-set_ne flash start i b 0 (λ e. omega arith)

write_after :
    (flash : List ℕ) (start : ℕ) (bs : List ℕ) (i : ℕ)
    → start + length bs ≤ i
    → get_or (write flash start bs) i 0 ≡ get_or flash i 0
unfolding write
write_after flash start [] i h = refl
write_after flash start (b ∷ bs) i h =
    write_after (set flash start b) (suc start) bs i (omega arith)
    ∙ get_or-set_ne flash start i b 0 (λ e. omega arith)

write_within :
    (flash : List ℕ) (start : ℕ) (bs : List ℕ) (i : ℕ)
    → start + length bs ≤ length flash
    → i < length bs
    → get_or (write flash start bs) (start + i) 0 ≡ get_or bs i 0
unfolding write
write_within flash start [] i room h = absurd (omega arith)
write_within flash start (b ∷ bs) zero room h =
    let e : start + 0 ≡ start = omega arith in
    rw e (
      write_before (set flash start b) (suc start) bs start (omega arith)
      ∙ get_or-set_self flash start b 0 (omega arith))
write_within flash start (b ∷ bs) (suc i) room h =
    let e : start + suc i ≡ suc start + i = omega arith in
    rw e (
      write_within (set flash start b) (suc start) bs i (omega (arith, length-set flash start b))
        (omega arith))

larger : (a b : ℕ) → (if ltb a b then b else a) ≡ max a b
larger a b = elim (Bool-cases (ltb a b)) [
  | inl l ↦ let h : a < b = ground arith in rw l (omega arith)
  | inr g ↦ let h : b ≤ a = ground arith in rw g (omega arith)
]

-- What a data record changes.
pub record Wrote (f f' : Flash) (r : Rec) : Type 0 where
  pub within : (i : ℕ) → i < r.count → get_or f'.flash (f.base + r.addr + i) 0 ≡ get_or r.bytes i 0
  pub before : (i : ℕ) → i < f.base + r.addr → get_or f'.flash i 0 ≡ get_or f.flash i 0
  pub after : (i : ℕ) → f.base + r.addr + r.count ≤ i → get_or f'.flash i 0 ≡ get_or f.flash i 0
  pub same_length : length f'.flash ≡ length f.flash
  pub top_larger : f'.top ≡ max f.top (f.base + r.addr + r.count)
  pub same_base : f'.base ≡ f.base
  pub same_eof : f'.eof ≡ f.eof

module _ (max_size line : ℕ) (f : Flash) (r : Rec) where
  abbrev end_addr : ℕ
  end_addr = f.base + r.addr + r.count

  -- A data record that ends below 4 GB is refused exactly where it ends past the flash, with the
  -- address where it ends. Where it is taken, its bytes stand at its address, every other byte is as it
  -- was, and `top` is the larger of what it was and the record's end. It never writes out of bounds.
  pub apply_data_writes :
      f.base + r.addr + r.count < 2 ^ 32
      → length r.bytes ≡ r.count
      → length f.flash ≡ max_size
      → ((max_size < f.base + r.addr + r.count)
          × (apply_data max_size line f r ≡ err (past_flash line (f.base + r.addr + r.count))))
        ⊎ ((f' : Flash) × (apply_data max_size line f r ≡ ok f') × Wrote f f' r)
  unfolding apply_data
  apply_data_writes low counted sized =
      let e : (f.base + r.addr) % 2 ^ 32 ≡ f.base + r.addr = omega arith in
      let d : (f.base + r.addr + r.count) % 2 ^ 32 ≡ f.base + r.addr + r.count = omega arith in
      rw (e, d)
        (elim (Bool-cases (ltb max_size (f.base + r.addr + r.count))) [
          | inl over ↦ inl (ground arith, rw over)
          | inr fits ↦ inr (
            f',
            rw fits,
            record {
              within = λ i h.
                  write_within f.flash (f.base + r.addr) r.bytes i (ground arith) (omega arith);
              before = λ i h. write_before f.flash (f.base + r.addr) r.bytes i h;
              after = λ i h. write_after f.flash (f.base + r.addr) r.bytes i (omega arith);
              same_length = length-write f.flash (f.base + r.addr) r.bytes;
              top_larger = larger f.top (f.base + r.addr + r.count);
              same_base = refl;
              same_eof = refl;
            },
          )
        ])
    where
      f' : Flash
      f' = record f {
        flash = write f.flash (f.base + r.addr) r.bytes;
        top = if ltb f.top (f.base + r.addr + r.count) then f.base + r.addr + r.count else f.top;
      }

  -- A data record copies out of bounds exactly where its end passes 4 GB and, wrapped to 32 bits, is
  -- within the flash.
  pub apply_data-fault :
      f.base < 2 ^ 32
      → r.addr < 2 ^ 16
      → f.base + r.addr < 2 ^ 32
      → r.count < 256
      → max_size < 2 ^ 31
      → (apply_data max_size line f r ≡ fault)
        ↔ ((2 ^ 32 ≤ f.base + r.addr + r.count) × (f.base + r.addr + r.count ≤ 2 ^ 32 + max_size))
  unfolding apply_data
  apply_data-fault b a low c m =
      let e : (f.base + r.addr) % 2 ^ 32 ≡ f.base + r.addr = omega arith in
      rw e ((λ h. (ground arith, ground arith)), λ h. ground arith)

-- The vector keeps its size, and `top` stays within it.
record IsFlash (max_size : ℕ) (f : Flash) : Type 0 where
  sized : length f.flash ≡ max_size
  top_fits : f.top ≤ max_size

-- Whatever is decoded satisfies `P`.
abbrev Holds : (Flash → Type 0) → Decoded Flash → Type 0
Holds P (ok f) = P f
Holds P (err e) = Unit
Holds P fault = Unit

apply_data-IsFlash :
    (max_size line : ℕ) (f : Flash) (r : Rec)
    → IsFlash max_size f
    → Holds (IsFlash max_size) (apply_data max_size line f r)
unfolding apply_data
apply_data-IsFlash max_size line f r v =
    ground (arith, length-write f.flash ((f.base + r.addr) % 2 ^ 32) r.bytes)

apply-IsFlash :
    (max_size line : ℕ) (f : Flash) (r : Rec)
    → IsFlash max_size f
    → Holds (IsFlash max_size) (apply max_size line f r)
unfolding apply
apply-IsFlash max_size line f r v = ground (arith, apply_data-IsFlash max_size line f r v)

>>=-Holds {ℓ} :
    {A : Type ℓ} (P : Flash → Type 0) (m : Decoded A) (k : A → Decoded Flash)
    → ((a : A) → m ≡ ok a → Holds P (k a))
    → Holds P (m >>= k)
>>=-Holds P (ok a) k h = h a refl
>>=-Holds P (err e) k h = tt
>>=-Holds P fault k h = tt

on_line-IsFlash :
    (max_size line : ℕ) (f : Flash) (text : List ℕ)
    → IsFlash max_size f
    → Holds (IsFlash max_size) (on_line max_size line f text)
unfolding on_line
on_line-IsFlash max_size line f text v = go (trim_end text)
  where
    go :
        (cs : List ℕ)
        → Holds (IsFlash max_size) (elim cs [
          | [] ↦ ok f
          | c ∷ cs ↦ (parse_line line (c ∷ cs) >>= λ r. apply max_size line f r)
        ])
    go [] = v
    go (c ∷ cs) =
        >>=-Holds (IsFlash max_size) (parse_line line (c ∷ cs)) (λ r. apply max_size line f r)
          λ r _. apply-IsFlash max_size line f r v

decode_from-IsFlash :
    (cs text : List ℕ) (max_size line : ℕ) (f : Flash)
    → IsFlash max_size f
    → Holds (IsFlash max_size) (decode_from max_size line f text cs)
unfolding decode_from
decode_from-IsFlash [] [] max_size line f v = v
decode_from-IsFlash [] (t ∷ text) max_size line f v = on_line-IsFlash max_size line f (t ∷ text) v
decode_from-IsFlash (c ∷ cs) text max_size line f v = elim (Bool-cases (c == b'\n')) [
  | inl e ↦ rw e (
      >>=-Holds (IsFlash max_size) (on_line max_size line f text) _ λ f' r.
        let v' : IsFlash max_size f' =
          subst (Holds (IsFlash max_size)) r (on_line-IsFlash max_size line f text v) in
        elim f'.eof
          as (λ t.
            Holds (IsFlash max_size)
              (elim t [ true ↦ ok f' | false ↦ decode_from max_size (suc line) f' [] cs ])) [
                | true ↦ v'
                | false ↦ decode_from-IsFlash cs [] max_size (suc line) f' v'
              ])
  | inr n ↦ rw n (decode_from-IsFlash cs (text ++ c ∷ []) max_size line f v)
]

finish-size :
    (max_size : ℕ) (f : Flash) (image : List ℕ)
    → IsFlash max_size f
    → finish f ≡ ok image
    → (0 < length image) × (length image ≤ max_size) × (length image ≡ f.top) × (f.eof ≡ true)
unfolding finish
finish-size max_size f image v e = ground (arith, length-take f.top f.flash)

-- Every image that a file decodes to has at least one byte and fits the flash.
pub decode_hex-size :
    (max_size : ℕ) (hex image : List ℕ)
    → decode_hex max_size hex ≡ ok image
    → (0 < length image) × (length image ≤ max_size)
unfolding decode_hex
decode_hex-size max_size hex image e =
    go (decode_from max_size 1 (blank max_size) [] hex)
      (decode_from-IsFlash hex [] max_size 1 (blank max_size) start) e
  where
    start : IsFlash max_size (blank max_size)
    start = record { sized = length-replicate max_size 0xFF; top_fits = omega arith }

    go :
        (m : Decoded Flash)
        → Holds (IsFlash max_size) m
        → (m >>= finish) ≡ ok image
        → (0 < length image) × (length image ≤ max_size)
    go (ok f) v r = let h = finish-size max_size f image v r in (h.0, h.1)
    go (err _) v r = cc
    go fault v r = cc
