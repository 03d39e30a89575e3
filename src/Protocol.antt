-- ===== src/Protocol.antt =====
-- core/svs_protocol.h: the SVS's status lines. A line is a list of bytes; an `atoi` past the largest
-- `int`, which C leaves undefined, is `undefined`.
mod Numbers
mod History
mod Tests
use svs_bridge.Base.{
  ℕ, zero, suc, ◌+◌, ◌-◌, ◌*◌, ◌^◌, Bool, true, false, not, ◌&&◌, List, [], ◌∷◌, Option, none, some,
  ltb, leb, ◌==◌, if◌then◌else◌, take, drop, same_bytes,
}
use svs_bridge.Base.Text.{codes}

pub data LineKind : Type 0 where
  other firmware input_change total_inputs : LineKind

pub data Number : Type 0 where
  absent undefined : Number
  number : ℕ → Number

pub record ParsedLine : Type 0 where
  pub kind : LineKind
  pub value : Number

unfoldable pub is_digit : ℕ → Bool
is_digit c = leb b'0' c && leb c b'9'

-- The last index at which a byte passes the test: `find_last_of` and `find_last_not_of`.
unfoldable pub find_last : (ℕ → Bool) → List ℕ → Option ℕ
find_last test [] = none
find_last test (c ∷ cs) = elim (find_last test cs) [
  | some i ↦ some (suc i)
  | none ↦ if test c then some 0 else none
]

unfoldable pub digits_value : ℕ → List ℕ → ℕ
digits_value n [] = n
digits_value n (c ∷ cs) = digits_value (n * 10 + (c - b'0')) cs

-- `atoi` of a text that is digits only.
unfoldable pub atoi : List ℕ → Number
atoi cs = let n = digits_value 0 cs in if ltb n (2 ^ 31) then number n else undefined

abbrev pub start_of : Option ℕ → ℕ
start_of none = 0
start_of (some i) = i + 1

abbrev pub number_to : List ℕ → Option ℕ → Number
number_to line none = absent
number_to line (some end) =
    let start = start_of (find_last (λ c. not (is_digit c)) (take (end + 1) line)) in
    atoi (take (end - start + 1) (drop start line))

unfoldable pub trailing_number : List ℕ → Number
trailing_number line = number_to line (find_last is_digit line)

-- `line.rfind(prefix, 0) == 0`.
unfoldable pub starts_with : List ℕ → List ℕ → Bool
starts_with [] line = true
starts_with (p ∷ ps) [] = false
starts_with (p ∷ ps) (c ∷ cs) = let rest = starts_with ps cs in p == c && rest

abbrev pub is_firmware : List ℕ → Bool
is_firmware line = starts_with (codes "SVS_FW_") line

abbrev pub is_current : List ℕ → Bool
is_current line = starts_with (codes "SVS CURRENT") line

abbrev pub is_new : List ℕ → Bool
is_new line = starts_with (codes "SVS NEW") line

abbrev pub is_total : List ℕ → Bool
is_total line = starts_with (codes "SVS TOTAL") line

unfoldable pub parse_svs_line : List ℕ → ParsedLine
parse_svs_line line =
    if is_firmware line
    then record { kind = firmware; value = absent }
    else if is_current line
    then record { kind = input_change; value = trailing_number line }
    else if is_new line
    then record { kind = input_change; value = trailing_number line }
    else if is_total line
    then record { kind = total_inputs; value = trailing_number line }
    else record { kind = other; value = absent }

unfoldable pub only_control_chars : List ℕ → Bool
only_control_chars [] = true
only_control_chars (c ∷ x ∷ y ∷ d ∷ line) =
    let rest = only_control_chars line in c == b'<' && (d == b'>' && rest)
only_control_chars (c ∷ x ∷ y ∷ []) = false
only_control_chars (c ∷ x ∷ []) = false
only_control_chars (c ∷ []) = false

pub record StatusFilter : Type 0 where
  pub last_total : List ℕ
  pub last_current : List ℕ

abbrev pub fresh_filter : StatusFilter
fresh_filter = record { last_total = []; last_current = [] }

unfoldable pub is_repeated : StatusFilter → List ℕ → Bool × StatusFilter
is_repeated f line =
    if is_firmware line
    then (false, record { last_total = []; last_current = [] })
    else if is_total line
    then (if same_bytes f.last_total line
        then (true, f)
        else (false, record f { last_total = line }))
    else if is_current line
    then (if same_bytes f.last_current line
        then (true, f)
        else (false, record f { last_current = line }))
    else (false, f)
