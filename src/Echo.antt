-- ===== src/Echo.antt =====
-- core/rfc2217_proto.{h,c}: the filter that drops the input number the SVS puts before the value of
-- Y<n> / G<n> (`rfc2217_echo_t`). `input` is none where the source has -1, and `hold` is the first
-- `hold_len` bytes of the array.
mod Transparency
mod Tests
use svs_bridge.Base.{
  ℕ, ◌+◌, ◌-◌, ◌*◌, ◌≤◌, ◌<◌, Bool, true, false, ◌&&◌, ◌||◌, List, [], ◌∷◌, ◌++◌, Option, none,
  some, leb, ltb, ◌==◌, if◌then◌else◌, length, take, min,
}

abbrev pub hold_max : ℕ
hold_max = 40

pub record Echo : Type 0 where
  pub input : Option ℕ
  pub hold : List ℕ
  pub dropped : ℕ

pub init : Echo
init = record { input = none; hold = []; dropped = 0 }

pub expect : Echo → ℕ → Echo
expect e n = record e { input = some n; hold = [] }

pub pending : Echo → Bool
pending e = elim e.input [ none ↦ false | some _ ↦ true ]

abbrev pub is_digit : ℕ → Bool
is_digit c = leb b'0' c && leb c b'9'

-- The loop of `line_is_number`: `v` is the number read so far, none for -1. The second component of
-- the source's two ways to say no is none as well.
pub number_from : Option ℕ → List ℕ → Option (Option ℕ)
number_from v [] = some v
number_from v (c ∷ cs) =
    let value : ℕ = (elim v [ none ↦ 0 | some n ↦ n * 10 ]) + (c - b'0') in
    let next = number_from (if is_digit c then some value else v) cs in
    if is_digit c
    then (if ltb 1000 value then none else next)
    else if c == b' ' || c == b'\r' || c == b'\n'
    then next
    else none

-- `want` is at least 0, so a line with no digit is no match.
pub line_is_number : List ℕ → ℕ → Bool
unfolding number_from
line_is_number line want = elim (number_from none line) [ some (some v) ↦ v == want | _ ↦ false ]

-- `rfc2217_echo_release`, with `max` bytes of room: the filter, and the bytes written.
pub release : Echo → ℕ → Echo × List ℕ
release e max = (record e { input = none; hold = [] }, take (min (length e.hold) max) e.hold)

-- One byte of the loop of `rfc2217_echo_filter`, with `room` bytes left.
pub filter_byte : Echo → ℕ → ℕ → Echo × List ℕ
unfolding release
filter_byte e room b = elim e.input [
  | none ↦ (e, if ltb 0 room then b ∷ [] else [])
  | some want ↦
      let held = e.hold ++ b ∷ [] in
      if b == b'\n'
      then (if line_is_number held want
          then (record e { input = none; hold = []; dropped = e.dropped + 1 }, [])
          else (record e { hold = [] }, take (min (length held) room) held))
      else if length held == hold_max
      then release (record e { hold = held }) room
      else (record e { hold = held }, [])
]

pub filter : Echo → ℕ → List ℕ → Echo × List ℕ
filter e room [] = (e, [])
filter e room (b ∷ bs) =
    let (e', out) = filter_byte e room b in
    let (e'', rest) = filter e' (room - length out) bs in (e'', out ++ rest)
