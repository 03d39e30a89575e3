-- ===== src/Hex/Records.antt =====
-- core/svs_hex.h: Intel HEX files as their format has them, written and read back, and what a wrong
-- byte does to a record.
use svs_bridge.Base.{
  ℕ, zero, suc, ap₂, ◌+◌, ◌-◌, ◌*◌, ◌/◌, ◌%◌, ◌≤◌, ◌<◌, ◌≡◌, ◌≢◌, refl, ap, ◌∙◌, true, false, not,
  ◌&&◌, List, [], ◌∷◌, ◌++◌, none, some, arith, ltb, ◌==◌, if◌then◌else◌, length, length-append,
  get_or, set, take, All,
}
use svs_bridge.Base.Bits.{below_all}
use svs_bridge.Hex.{ok, hex_nibble, hex_bytes, sum, Rec, check_rec, parse_line, is_blank}

-- The digits of a byte.
abbrev pub digit : ℕ → ℕ
digit d = if ltb d 10 then b'0' + d else b'A' + d - 10

abbrev pub hex : List ℕ → List ℕ
hex [] = []
hex (b ∷ bs) = digit (b / 16) ∷ digit (b % 16) ∷ hex bs

-- The bytes of a record, the checksum last: it makes their sum 0 modulo 256.
abbrev pub body : Rec → List ℕ
body r = r.count ∷ (r.addr / 256) ∷ (r.addr % 256) ∷ r.type ∷ r.bytes

abbrev pub checksum : List ℕ → ℕ
checksum bs = (256 - sum bs % 256) % 256

-- A record as a line of a file, with no line end.
abbrev pub print_rec : Rec → List ℕ
print_rec r = b':' ∷ hex (body r ++ checksum (body r) ∷ [])

-- A record that the format has.
pub record IsRec (r : Rec) : Type 0 where
  pub counted : length r.bytes ≡ r.count
  pub count_byte : r.count < 256
  pub addr_word : r.addr < 65536
  pub type_byte : r.type < 256
  pub all_bytes : All (λ b. b < 256) r.bytes

digit_table :
    below_all 16 (λ d.
      (elim (hex_nibble (digit d)) [ some v ↦ v == d | none ↦ false ]) && not (is_blank (digit d)))
    ≡ true
unfolding below_all hex_nibble
digit_table = refl

hex_nibble-digit : (d : ℕ) → d < 16 → hex_nibble (digit d) ≡ some d
unfolding hex_nibble
hex_nibble-digit d h = ground arith

hex_bytes-hex : (bs : List ℕ) → All (λ b. b < 256) bs → hex_bytes (hex bs) ≡ some bs
unfolding hex_bytes
hex_bytes-hex [] a = refl
hex_bytes-hex (b ∷ bs) a =
    let e : b / 16 * 16 + b % 16 ≡ b = omega arith in
    rw
      (
        hex_nibble-digit (b / 16) (omega (arith, a.0)),
        hex_nibble-digit (b % 16) (omega arith),
        hex_bytes-hex bs a.1,
      )
      (rw e)

length-hex : (bs : List ℕ) → length (hex bs) ≡ 2 * length bs
length-hex [] = refl
length-hex (b ∷ bs) = omega (arith, length-hex bs)

sum-append : (xs ys : List ℕ) → sum (xs ++ ys) ≡ sum xs + sum ys
unfolding sum
sum-append [] ys = omega arith
sum-append (x ∷ xs) ys = omega (arith, sum-append xs ys)

sum-checksum : (bs : List ℕ) → sum (bs ++ checksum bs ∷ []) % 256 ≡ 0
unfolding sum
sum-checksum bs = rw (sum-append bs (checksum bs ∷ [])) (omega arith)

parse_line_digits :
    (line : ℕ) (digits rec : List ℕ)
    → 10 ≤ length digits
    → length digits % 2 ≡ 0
    → length digits ≤ 520
    → hex_bytes digits ≡ some rec
    → parse_line line (b':' ∷ digits) ≡ check_rec line rec
unfolding parse_line
parse_line_digits line digits rec long even short h =
    let n : suc (length digits) - 1 ≡ length digits = omega arith in rw (n, h) (ground arith)

check_rec_good :
    (line count hi lo type : ℕ) (rest : List ℕ)
    → length rest ≡ count + 1
    → sum (count ∷ hi ∷ lo ∷ type ∷ rest) % 256 ≡ 0
    → check_rec line (count ∷ hi ∷ lo ∷ type ∷ rest)
      ≡ ok (record { count = count; addr = hi * 256 + lo; type = type; bytes = take count rest })
unfolding check_rec
check_rec_good line count hi lo type rest sized whole = rw whole (ground arith)

take_front : (n : ℕ) (xs ys : List ℕ) → length xs ≡ n → take n (xs ++ ys) ≡ xs
take_front zero [] ys h = refl
take_front zero (x ∷ xs) ys h = absurd (omega arith)
take_front (suc n) [] ys h = absurd (omega arith)
take_front (suc n) (x ∷ xs) ys h = ap (◌∷◌ x) (take_front n xs ys (omega arith))

module _ (r : Rec) (v : IsRec r) where
  abbrev pub all_of : List ℕ
  all_of = body r ++ checksum (body r) ∷ []

  All-append :
      (xs ys : List ℕ)
      → All (λ b. b < 256) xs
      → All (λ b. b < 256) ys
      → All (λ b. b < 256) (xs ++ ys)
  All-append [] ys a b = b
  All-append (x ∷ xs) ys a b = (a.0, All-append xs ys a.1 b)

  pub All-all_of : All (λ b. b < 256) all_of
  All-all_of = (
    v.count_byte,
    (
      omega (arith, v.addr_word),
      (
        omega arith,
        (v.type_byte, All-append r.bytes (checksum (body r) ∷ []) v.all_bytes (omega arith, tt)),
      ),
    ),
  )

  length-all_of : length all_of ≡ r.count + 5
  length-all_of = omega (arith, v.counted, length-append r.bytes (checksum (body r) ∷ []))

  check_rec-all_of : (line : ℕ) → check_rec line all_of ≡ ok r
  check_rec-all_of line =
      let sized : length (r.bytes ++ checksum (body r) ∷ []) ≡ r.count + 1 =
        omega (arith, v.counted, length-append r.bytes (checksum (body r) ∷ [])) in
      let address : r.addr / 256 * 256 + r.addr % 256 ≡ r.addr = omega arith in
      let bytes = take_front r.count r.bytes (checksum (body r) ∷ []) v.counted in
      check_rec_good line r.count (r.addr / 256) (r.addr % 256) r.type
        (r.bytes ++ checksum (body r) ∷ []) sized (sum-checksum (body r))
      ∙ ap₂ (λ a b. ok (record r { addr = a; bytes = b })) address bytes

  -- A line that the format has is read back as its record.
  pub parse_line-print_rec : (line : ℕ) → parse_line line (print_rec r) ≡ ok r
  parse_line-print_rec line =
      let sized = length-hex all_of in
      let n = length-all_of in
      parse_line_digits line (hex all_of) all_of (omega (arith, sized, n)) (omega (arith, sized, n))
        (omega (arith, sized, n, v.count_byte)) (hex_bytes-hex all_of All-all_of)
      ∙ check_rec-all_of line

sum-set : (bs : List ℕ) (i v : ℕ) → i < length bs → sum (set bs i v) + get_or bs i 0 ≡ sum bs + v
unfolding sum
sum-set [] i v h = elim h [ ]
sum-set (b ∷ bs) zero v h = omega arith
sum-set (b ∷ bs) (suc i) v h = omega (arith, sum-set bs i v (omega arith))

check_rec-sum : (line : ℕ) (rec : List ℕ) {r : Rec} → check_rec line rec ≡ ok r → sum rec % 256 ≡ 0
unfolding check_rec
check_rec-sum line (count ∷ hi ∷ lo ∷ type ∷ rest) h = ground arith
check_rec-sum line [] h = cc
check_rec-sum line (a ∷ []) h = cc
check_rec-sum line (a ∷ b ∷ []) h = cc
check_rec-sum line (a ∷ b ∷ c ∷ []) h = cc

get_or-lt : (bs : List ℕ) (i : ℕ) → All (λ b. b < 256) bs → i < length bs → get_or bs i 0 < 256
get_or-lt [] i a h = elim h [ ]
get_or-lt (b ∷ bs) zero a h = a.0
get_or-lt (b ∷ bs) (suc i) a h = get_or-lt bs i a.1 (omega arith)

-- A record with one wrong byte, wherever it is, is not taken: of two records that differ in one byte,
-- at most one passes the checks.
pub check_rec_corrupted :
    (line : ℕ) (rec : List ℕ) (i v : ℕ) (r : Rec)
    → All (λ b. b < 256) rec
    → i < length rec
    → v < 256
    → v ≢ get_or rec i 0
    → check_rec line rec ≡ ok r
    → (r' : Rec) → check_rec line (set rec i v) ≢ ok r'
check_rec_corrupted line rec i v r a h small differs good r' bad = differs (
    omega (
      arith,
      sum-set rec i v h,
      check_rec-sum line rec good,
      check_rec-sum line (set rec i v) bad,
      get_or-lt rec i a h,
    ))
