-- ===== src/ApiEvents.antt =====
-- core/api_events.h: which types of events a client of /api/v1/events asks for, and their names.
mod Queries
mod Tests
use svs_bridge.Base.{
  ℕ, zero, suc, ◌+◌, ◌-◌, ◌*◌, ◌/◌, ◌%◌, ◌^◌, Bool, true, false, not, ◌&&◌, ◌||◌, List, [], ◌∷◌,
  ◌++◌, ltb, leb, ◌==◌, if◌then◌else◌, same_bytes, bit_or,
}
use svs_bridge.Base.Text.{codes}

-- `NAMES`: the name of bit i is the i-th.
abbrev pub names : List (List ℕ)
names = codes "state" ∷ []

abbrev pub is_xdigit : ℕ → Bool
is_xdigit c = (leb 48 c && leb c 57) || ((leb 65 c && leb c 70) || (leb 97 c && leb c 102))

-- A digit as `strtol` takes it.
abbrev pub xdigit : ℕ → ℕ
xdigit c = if leb c 57 then c - 48 else if leb c 70 then c - 55 else c - 87

-- Whether an escape begins: a percent sign with two hexadecimal digits after it.
abbrev pub is_escape : ℕ → List ℕ → Bool
is_escape c [] = false
is_escape c (d ∷ []) = false
is_escape c (d ∷ e ∷ cs) = c == 37 && (is_xdigit d && is_xdigit e)

abbrev pub escaped : List ℕ → ℕ
escaped [] = 0
escaped (d ∷ []) = 0
escaped (d ∷ e ∷ cs) = xdigit d * 16 + xdigit e

-- The loop of `url_decode`; `skip` bytes belong to the escape before.
unfoldable pub url_decode_from : ℕ → List ℕ → List ℕ
url_decode_from skip [] = []
url_decode_from (suc skip) (c ∷ cs) = url_decode_from skip cs
url_decode_from zero (c ∷ cs) =
    let rest = url_decode_from (if is_escape c cs then 2 else 0) cs in
    (if c == 43 then 32 else if is_escape c cs then escaped cs else c) ∷ rest

abbrev pub url_decode : List ℕ → List ℕ
url_decode = url_decode_from 0

-- The parts of a list, at its commas: `cut` puts a character before the first of them.
abbrev pub cut : ℕ → List (List ℕ) → List (List ℕ)
cut c [] = (c ∷ []) ∷ []
cut c (part ∷ parts) = (c ∷ part) ∷ parts

unfoldable pub parts_of : List ℕ → List (List ℕ)
parts_of [] = [] ∷ []
parts_of (c ∷ cs) = let rest = parts_of cs in if c == 44 then [] ∷ rest else cut c rest

abbrev pub trim_start : List ℕ → List ℕ
trim_start [] = []
trim_start (c ∷ cs) = let rest = trim_start cs in if c == 32 then rest else c ∷ cs

abbrev pub before : ℕ → List ℕ → List ℕ
before c [] = if c == 32 then [] else c ∷ []
before c (d ∷ cs) = c ∷ d ∷ cs

abbrev pub trim_end : List ℕ → List ℕ
trim_end [] = []
trim_end (c ∷ cs) = before c (trim_end cs)

unfoldable pub trim : List ℕ → List ℕ
trim part = trim_end (trim_start part)

-- The bits of the names that are `name`, from bit `i` on. No name is empty.
unfoldable pub bits_named : List (List ℕ) → ℕ → List ℕ → ℕ
bits_named [] i name = 0
bits_named (n ∷ ns) i name =
    let rest = bits_named ns (i + 1) name in if same_bytes name n then bit_or (2 ^ i) rest else rest

abbrev pub types_of : List (List ℕ) → ℕ
types_of [] = 0
types_of (part ∷ parts) = bit_or (bits_named names 0 (trim part)) (types_of parts)

-- `parse`
unfoldable pub parse : List ℕ → ℕ
parse list = types_of (parts_of list)

-- `names_json`, the loop from bit `i` on; `first` is whether no name is written yet.
unfoldable pub names_from : List (List ℕ) → ℕ → Bool → ℕ → List ℕ
names_from [] i first types = codes "]"
names_from (n ∷ ns) i first types =
    let taken = not (types / 2 ^ i % 2 == 0) in
    let rest = names_from ns (i + 1) (first && not taken) types in
    if taken
    then (if first then codes "\"" else codes ",\"") ++ (n ++ (codes "\"" ++ rest))
    else rest

abbrev pub names_json : ℕ → List ℕ
names_json types = codes "[" ++ names_from names 0 true types
