-- ===== src/Hex.antt =====
-- core/svs_hex.h: decoding an Intel HEX file into a flash image. The file is a list of bytes; `flash`
-- is a list of `max_size` bytes, and a copy past its end, which C++ leaves undefined, is `fault`.
pub mod Writes
mod Records
mod Files
mod Tests
use svs_bridge.Base.{
  ℕ, suc, ◌+◌, ◌-◌, ◌*◌, ◌/◌, ◌%◌, ◌^◌, Bool, true, false, not, ◌&&◌, ◌||◌, List, [], ◌∷◌, ◌++◌,
  Option, none, some, ltb, leb, ◌==◌, if◌then◌else◌, length, set, take, drop, replicate, max,
}

pub data HexError : Type 0 where
  not_a_record too_long bad_characters wrong_length wrong_checksum malformed_address : ℕ → HexError
  past_flash unsupported : ℕ → ℕ → HexError
  no_end no_data : HexError

-- `decode_hex`: an image, an error with its line, or a copy out of bounds.
pub data Decoded {ℓ} (A : Type ℓ) : Type ℓ where
  ok : A → Decoded A
  err : HexError → Decoded A
  fault : Decoded A

infixl 5 ◌>>=◌
abbrev pub ◌>>=◌ {ℓ κ} : {A : Type ℓ} {B : Type κ} → Decoded A → (A → Decoded B) → Decoded B
ok a >>= f = f a
err e >>= f = err e
fault >>= f = fault

unfoldable pub hex_nibble : ℕ → Option ℕ
hex_nibble c =
    if leb b'0' c && leb c b'9'
    then some (c - b'0')
    else if leb b'A' c && leb c b'F'
    then some (c - b'A' + 10)
    else if leb b'a' c && leb c b'f'
    then some (c - b'a' + 10)
    else none

abbrev both : Option ℕ → Option ℕ → Option ℕ
both (some hi) (some lo) = some (hi * 16 + lo)
both _ _ = none

abbrev cons? : Option ℕ → Option (List ℕ) → Option (List ℕ)
cons? (some b) (some bs) = some (b ∷ bs)
cons? _ _ = none

-- The loop that fills `rec`; the number of digits is even.
unfoldable pub hex_bytes : List ℕ → Option (List ℕ)
unfolding hex_nibble
hex_bytes (hi ∷ lo ∷ rest) = cons? (both (hex_nibble hi) (hex_nibble lo)) (hex_bytes rest)
hex_bytes _ = some []

unfoldable pub sum : List ℕ → ℕ
sum [] = 0
sum (b ∷ bs) = b + sum bs

-- The count, the address, the type and the data of a record.
pub record Rec : Type 0 where
  pub count : ℕ
  pub addr : ℕ
  pub type : ℕ
  pub bytes : List ℕ

-- The checks of a record's length and checksum. `rec` has at least 5 bytes when this is called.
unfoldable pub check_rec : ℕ → List ℕ → Decoded Rec
unfolding sum
check_rec line (count ∷ hi ∷ lo ∷ type ∷ rest) =
    let rec = count ∷ hi ∷ lo ∷ type ∷ rest in
    if not (length rec == count + 5)
    then err (wrong_length line)
    else if not (sum rec % 256 == 0)
    then err (wrong_checksum line)
    else ok (record { count = count; addr = hi * 256 + lo; type = type; bytes = take count rest })
check_rec line _ = err (wrong_length line)

-- A line with its blanks cut off, `n` bytes long.
unfoldable pub parse_line : ℕ → List ℕ → Decoded Rec
unfolding check_rec
parse_line line [] = err (not_a_record line)
parse_line line (c ∷ digits) =
    let n = suc (length digits) in
    if not (c == b':') || ltb n 11 || not ((n - 1) % 2 == 0)
    then err (not_a_record line)
    else if ltb 260 ((n - 1) / 2)
    then err (too_long line)
    else (elim (hex_bytes digits) [
      | none ↦ err (bad_characters line)
      | some rec ↦ check_rec line rec
    ])

pub record Flash : Type 0 where
  pub flash : List ℕ
  pub top : ℕ
  pub base : ℕ
  pub eof : Bool

-- `memcpy(&flash[start], data, count)` within the vector.
unfoldable pub write : List ℕ → ℕ → List ℕ → List ℕ
write flash start [] = flash
write flash start (b ∷ bs) = write (set flash start b) (suc start) bs

-- A data record. `start + count` is computed in `uint32_t`.
unfoldable pub apply_data : ℕ → ℕ → Flash → Rec → Decoded Flash
unfolding write
apply_data max_size line f r =
    let start = (f.base + r.addr) % 2 ^ 32 in
    let end = (start + r.count) % 2 ^ 32 in
    if ltb max_size end
    then err (past_flash line end)
    else if ltb max_size (start + r.count)
    then fault
    else ok (record f {
      flash = write f.flash start r.bytes;
      top = if ltb f.top end then end else f.top;
    })

-- The 16 bits that an address record carries.
abbrev pub word : List ℕ → ℕ
word (hi ∷ lo ∷ _) = hi * 256 + lo
word _ = 0

-- The `switch` on the record's type, behind the check of address records.
unfoldable pub apply : ℕ → ℕ → Flash → Rec → Decoded Flash
unfolding apply_data
apply max_size line f r =
    if (r.type == 2 || r.type == 4) && not (r.count == 2)
    then err (malformed_address line)
    else if r.type == 0
    then apply_data max_size line f r
    else if r.type == 1
    then ok (record f { eof = true })
    else if r.type == 2
    then ok (record f { base = word r.bytes * 2 ^ 4 % 2 ^ 32 })
    else if r.type == 4
    then ok (record f { base = word r.bytes * 2 ^ 16 % 2 ^ 32 })
    else if r.type == 3 || r.type == 5
    then ok f
    else err (unsupported line r.type)

abbrev pub is_blank : ℕ → Bool
is_blank c = c == b'\r' || c == b' ' || c == b'\t'

-- The line without the blanks at its end.
unfoldable pub trim_end : List ℕ → List ℕ
trim_end [] = []
trim_end (c ∷ cs) = elim (trim_end cs) [
  | [] ↦ if is_blank c then [] else c ∷ []
  | d ∷ ds ↦ c ∷ d ∷ ds
]

-- One round of the loop, on the bytes before the newline.
unfoldable pub on_line : ℕ → ℕ → Flash → List ℕ → Decoded Flash
unfolding parse_line apply trim_end
on_line max_size line f text = elim (trim_end text) [
  | [] ↦ ok f
  | c ∷ cs ↦ do r ← parse_line line (c ∷ cs); apply max_size line f r
]

-- The loop over the file: `text` is the part of the current line that was read (the inner loop over
-- `end`). It stops at the end record or at the end of the file.
unfoldable pub decode_from : ℕ → ℕ → Flash → List ℕ → List ℕ → Decoded Flash
unfolding on_line
decode_from max_size line f [] [] = ok f
decode_from max_size line f text [] = on_line max_size line f text
decode_from max_size line f text (c ∷ cs) =
    let more = decode_from max_size line f (text ++ c ∷ []) cs in
    let next : Decoded Flash = on_line max_size line f text >>= λ f'. elim f'.eof [
      | true ↦ ok f'
      | false ↦ decode_from max_size (suc line) f' [] cs
    ] in
    if c == b'\n' then next else more

-- The checks behind the loop.
unfoldable pub finish : Flash → Decoded (List ℕ)
finish f =
    if not f.eof then err no_end else if f.top == 0 then err no_data else ok (take f.top f.flash)

abbrev pub blank : ℕ → Flash
blank max_size = record { flash = replicate max_size 0xFF; top = 0; base = 0; eof = false }

unfoldable pub decode_hex : ℕ → List ℕ → Decoded (List ℕ)
unfolding decode_from finish
decode_hex max_size hex = do f ← decode_from max_size 1 (blank max_size) [] hex; finish f
