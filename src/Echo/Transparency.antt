-- ===== src/Echo/Transparency.antt =====
-- core/rfc2217_proto.c: what `rfc2217_echo_filter` keeps of the SVS's bytes.
use svs_bridge.Base.{
  ℕ, suc, ◌⊎◌, ◌+◌, ◌-◌, ◌≤◌, ◌<◌, ◌≡◌, ◌≢◌, refl, ◌∙◌, true, List, [], ◌∷◌, ◌++◌, append-nil,
  append_assoc, none, some, arith, length, length-append, All,
}
use svs_bridge.Echo.{Echo, hold_max, line_is_number, filter_byte, filter, expect}

abbrev newline : ℕ
newline = b'\n'

-- Nothing, or bytes that end with a whole line.
abbrev pub IsLines : List ℕ → Type 0
IsLines before = (before ≡ []) ⊎ ((rest : List ℕ) × (before ≡ rest ++ newline ∷ []))

-- What the filter made of the bytes `t` (those it held, then those that came), while it waited for
-- the number `want` with `d` echoes dropped so far: `out` went to the client.
pub data Outcome (want d : ℕ) (t : List ℕ) (e : Echo) (out : List ℕ) : Type 0 where
  waiting : e.input ≡ some want → e.dropped ≡ d → out ++ e.hold ≡ t → Outcome want d t e out
  passed : e.input ≡ none → e.dropped ≡ d → e.hold ≡ [] → out ≡ t → Outcome want d t e out
  echo :
      (before line after : List ℕ)
      → e.input ≡ none
      → e.dropped ≡ d + 1
      → e.hold ≡ []
      → IsLines before
      → line_is_number (line ++ newline ∷ []) want ≡ true
      → t ≡ before ++ ((line ++ newline ∷ []) ++ after)
      → out ≡ before ++ after
      → Outcome want d t e out

filter_cons :
    (e : Echo) (room b : ℕ) (bs : List ℕ) (e' : Echo) (out : List ℕ)
    → filter_byte e room b ≡ (e', out)
    → filter e room (b ∷ bs)
      ≡ ((filter e' (room - length out) bs).0, out ++ (filter e' (room - length out) bs).1)
unfolding filter
filter_cons e room b bs e' out h = rw h

filter_byte_idle :
    (e : Echo) (room b : ℕ) → e.input ≡ none → 0 < room → filter_byte e room b ≡ (e, b ∷ [])
unfolding filter_byte
filter_byte_idle e room b i h = ground arith

-- Not waiting, the filter passes what fits.
filter_idle :
    (bs : List ℕ) (e : Echo) (room : ℕ)
    → e.input ≡ none
    → length bs ≤ room
    → filter e room bs ≡ (e, bs)
unfolding filter
filter_idle [] e room i h = refl
filter_idle (b ∷ bs) e room i h =
    filter_cons e room b bs e (b ∷ []) (filter_byte_idle e room b i (omega arith))
    ∙ rw (filter_idle bs e (room - 1) i (omega arith))

-- The ways of one byte while the filter waits.
data Byte (want : ℕ) (e : Echo) (b : ℕ) : Echo × List ℕ → Type 0 where
  is_echo :
      {r : Echo × List ℕ}
      → b ≡ newline
      → line_is_number (e.hold ++ b ∷ []) want ≡ true
      → r ≡ (record e { input = none; hold = []; dropped = e.dropped + 1 }, [])
      → Byte want e b r
  is_line :
      {r : Echo × List ℕ}
      → b ≡ newline
      → r ≡ (record e { hold = [] }, e.hold ++ b ∷ [])
      → Byte want e b r
  too_long :
      {r : Echo × List ℕ}
      → r ≡ (record e { input = none; hold = [] }, e.hold ++ b ∷ [])
      → Byte want e b r
  held :
      {r : Echo × List ℕ}
      → length (e.hold ++ b ∷ []) ≢ hold_max
      → r ≡ (record e { hold = e.hold ++ b ∷ [] }, [])
      → Byte want e b r

abbrev Filtered : ℕ → ℕ → List ℕ → Echo × List ℕ → Type 0
Filtered want d t r = Outcome want d t r.0 r.1

module _ (want : ℕ) (e : Echo) (room b : ℕ) (bs : List ℕ)
    (fits : length e.hold + suc (length bs) ≤ room) where
  abbrev after : Echo × List ℕ
  after = filter (record e { hold = [] }) (room - length (e.hold ++ b ∷ [])) bs

filter_byte_bounded :
    (e : Echo) (room b : ℕ)
    → length e.hold < hold_max
    → length (filter_byte e room b).0.hold < hold_max
unfolding filter_byte
filter_byte_bounded e room b h = ground (arith, length-append e.hold (b ∷ []))

-- The array of 40 bytes is never overrun: with room for one byte before a call there is room for one
-- before each byte of it, and after it.
pub filter_bounded :
    (bs : List ℕ) (e : Echo) (room : ℕ)
    → length e.hold < hold_max
    → length (filter e room bs).0.hold < hold_max
unfolding filter
filter_bounded [] e room h = h
filter_bounded (b ∷ bs) e room h =
    filter_bounded bs (filter_byte e room b).0 (room - length (filter_byte e room b).1)
      (filter_byte_bounded e room b h)

filter_byte_held :
    (e : Echo) (want room c : ℕ)
    → e.input ≡ some want
    → c ≢ newline
    → length e.hold + 1 < hold_max
    → filter_byte e room c ≡ (record e { hold = e.hold ++ c ∷ [] }, [])
unfolding filter_byte
filter_byte_held e want room c i n h = ground (arith, length-append e.hold (c ∷ []))

filter_byte_echo :
    (e : Echo) (want room : ℕ)
    → e.input ≡ some want
    → line_is_number (e.hold ++ newline ∷ []) want ≡ true
    → filter_byte e room newline
      ≡ (record e { input = none; hold = []; dropped = e.dropped + 1 }, [])
unfolding filter_byte
filter_byte_echo e want room i y = ground arith

-- Writing nothing leaves the room as it was.
filter_cons_held :
    (e : Echo) (room b : ℕ) (bs : List ℕ) (e' : Echo)
    → filter_byte e room b ≡ (e', [])
    → filter e room (b ∷ bs) ≡ filter e' room bs
filter_cons_held e room b bs e' h =
    let same : room - 0 ≡ room = omega arith in filter_cons e room b bs e' [] h ∙ rw same

-- A line with no newline in it that still fits is held, and comes to be judged whole at its newline.
filter_line :
    (line : List ℕ) (want : ℕ) (e : Echo) (room : ℕ) (rest : List ℕ)
    → e.input ≡ some want
    → All (λ c. c ≢ newline) line
    → length e.hold + length line < hold_max
    → filter e room (line ++ newline ∷ rest)
      ≡ filter (record e { hold = e.hold ++ line }) room (newline ∷ rest)
filter_line [] want e room rest i a h = rw append-nil
filter_line (c ∷ line) want e room rest i a h =
    filter_cons_held e room c (line ++ newline ∷ rest) (record e { hold = e.hold ++ c ∷ [] })
      (filter_byte_held e want room c i a.0 (omega arith))
    ∙ filter_line line want (record e { hold = e.hold ++ c ∷ [] }) room rest i a.1
        (omega (arith, length-append e.hold (c ∷ [])))
    ∙ rw append_assoc

-- An echo that comes first is cut out: after Y<n> or G<n>, a line of at most 39 bytes that is only
-- that number does not reach the client, is counted, and all that follows it passes, if there is
-- room for it.
pub filter_drops :
    (line rest : List ℕ) (want : ℕ) (e : Echo) (room : ℕ)
    → All (λ c. c ≢ newline) line
    → length line < hold_max
    → line_is_number (line ++ newline ∷ []) want ≡ true
    → length rest ≤ room
    → filter (expect e want) room (line ++ newline ∷ rest)
      ≡ (record e { input = none; hold = []; dropped = e.dropped + 1 }, rest)
unfolding expect
filter_drops line rest want e room a short y fits =
    filter_line line want waits room rest refl a (omega arith)
    ∙ filter_cons_held (record waits { hold = line }) room newline rest done
        (filter_byte_echo (record waits { hold = line }) want room refl y)
    ∙ filter_idle rest done room refl fits
  where
    waits : Echo
    waits = record e { input = some want; hold = [] }

    done : Echo
    done = record e { input = none; hold = []; dropped = e.dropped + 1 }
