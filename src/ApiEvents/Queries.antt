-- ===== src/ApiEvents/Queries.antt =====
-- core/api_events.h: escapes in a query, and lists of types.
use svs_bridge.Base.{
  ℕ, ◌+◌, ◌*◌, ◌/◌, ◌%◌, ◌<◌, ◌≡◌, ◌≢◌, ◌↔◌, ◌⊎◌, inl, inr, refl, ap, ap₂, sym, subst, ◌∙◌, Bool,
  true, false, List, [], ◌∷◌, ◌++◌, arith, ltb, ◌==◌, if◌then◌else◌, Bool-cases, All, same_bytes,
  same_bytes-eq, same_bytes_self, bit_or,
}
use svs_bridge.Base.Text.{codes}
use svs_bridge.ApiEvents.{
  is_xdigit, xdigit, is_escape, url_decode, url_decode_from, parts_of, cut, trim, bits_named,
  types_of, parse, names,
}

-- A hexadecimal digit, as a capital letter from ten on.
abbrev pub hex_char : ℕ → ℕ
hex_char n = if ltb n 10 then 48 + n else 55 + n

-- A text in a query: the characters that `plain` names stand for themselves, the others are escaped.
abbrev pub url_encode : (ℕ → Bool) → List ℕ → List ℕ
url_encode plain [] = []
url_encode plain (b ∷ bs) =
    if plain b
    then b ∷ url_encode plain bs
    else 37 ∷ hex_char (b / 16) ∷ hex_char (b % 16) ∷ url_encode plain bs

hex_char-is_xdigit : (n : ℕ) → n < 16 → is_xdigit (hex_char n) ≡ true
hex_char-is_xdigit n h = ground arith

xdigit-hex_char : (n : ℕ) → n < 16 → xdigit (hex_char n) ≡ n
xdigit-hex_char n h = ground arith

not_escape : (c : ℕ) (cs : List ℕ) → c ≢ 37 → is_escape c cs ≡ false
not_escape c [] h = refl
not_escape c (d ∷ []) h = refl
not_escape c (d ∷ e ∷ cs) h = ground (arith, h)

-- A text of bytes, escaped but for some characters that are neither a plus nor a percent sign, is decoded
-- to itself.
pub url_decode-url_encode :
    (plain : ℕ → Bool) (text : List ℕ)
    → plain 37 ≡ false
    → plain 43 ≡ false
    → All (λ b. b < 256) text
    → url_decode (url_encode plain text) ≡ text
unfolding url_decode_from
url_decode-url_encode plain [] percent plus bytes = refl
url_decode-url_encode plain (b ∷ bs) percent plus (byte, bytes) =
    let rest = url_decode-url_encode plain bs percent plus bytes in
    elim (Bool-cases (plain b)) [
      | inl t ↦
          let other : b ≢ 37 = λ e. absurd (ground (arith, ap plain e, t, percent)) in
          let no_plus : b == 43 ≡ false = elim (Bool-cases (b == 43)) [
            | inl p ↦ let e : b ≡ 43 = ground arith in absurd (ground (arith, ap plain e, t, plus))
            | inr p ↦ p
          ] in
          rw (t, not_escape b (url_encode plain bs) other, no_plus) (ap (◌∷◌ b) rest)
      | inr f ↦
          let high = hex_char-is_xdigit (b / 16) (omega arith) in
          let low = hex_char-is_xdigit (b % 16) (omega arith) in
          rw (f, high, low)
            (ap₂ (◌∷◌)
              (ap₂ (λ h l. h * 16 + l) (xdigit-hex_char (b / 16) (omega arith))
                  (xdigit-hex_char (b % 16) (omega arith))
                ∙ omega arith)
              rest)
    ]

-- A list that names the type at least once.
abbrev pub Names : List ℕ → List (List ℕ) → Type 0
Names name [] = ⊥
Names name (part ∷ parts) = (trim part ≡ name) ⊎ Names name parts

abbrev pub join : List ℕ → List (List ℕ) → List ℕ
join part [] = part
join part (next ∷ parts) = part ++ (44 ∷ join next parts)

-- A part holds no comma.
abbrev pub NoComma : List ℕ → Type 0
NoComma part = All (λ c. c ≢ 44) part

parts_of-append :
    (part rest : List ℕ) → NoComma part → parts_of (part ++ (44 ∷ rest)) ≡ part ∷ parts_of rest
unfolding parts_of
parts_of-append [] rest good = refl
parts_of-append (c ∷ cs) rest (other, good) =
    let no_comma : c == 44 ≡ false = ground (arith, other) in
    rw no_comma (ap (cut c) (parts_of-append cs rest good))

parts_of_one : (part : List ℕ) → NoComma part → parts_of part ≡ part ∷ []
unfolding parts_of
parts_of_one [] good = refl
parts_of_one (c ∷ cs) (other, good) =
    let no_comma : c == 44 ≡ false = ground (arith, other) in
    rw no_comma (ap (cut c) (parts_of_one cs good))

parts_of-join :
    (part : List ℕ) (parts : List (List ℕ))
    → All NoComma (part ∷ parts)
    → parts_of (join part parts) ≡ part ∷ parts
parts_of-join part [] (here, good) = parts_of_one part here
parts_of-join part (next ∷ parts) (here, good) =
    parts_of-append part (join next parts) here ∙ ap (◌∷◌ part) (parts_of-join next parts good)

state_bits :
    (name : List ℕ) → bits_named names 0 name ≡ (if same_bytes name (codes "state") then 1 else 0)
unfolding bits_named
state_bits name = refl

-- The types named by the parts, and whether the name is among them.
Found : List (List ℕ) → Type 0
Found parts =
    ((types_of parts ≡ 1) × Names (codes "state") parts)
    ⊎ ((types_of parts ≡ 0) × (Names (codes "state") parts → ⊥))

Found-here :
    (part : List ℕ) (parts : List (List ℕ))
    → same_bytes (trim part) (codes "state") ≡ true
    → Found parts
    → Found (part ∷ parts)
unfolding Found
Found-here part parts t (inl (one, there)) = inl (
  ap₂ bit_or (state_bits (trim part) ∙ ap (λ b. if b then 1 else 0) t) one,
  inl (same_bytes-eq (trim part) (codes "state") t),
)
Found-here part parts t (inr (zero_, nowhere)) = inl (
  ap₂ bit_or (state_bits (trim part) ∙ ap (λ b. if b then 1 else 0) t) zero_,
  inl (same_bytes-eq (trim part) (codes "state") t),
)

not_named :
    (part : List ℕ) (parts : List (List ℕ))
    → same_bytes (trim part) (codes "state") ≡ false
    → (Names (codes "state") parts → ⊥)
    → Names (codes "state") (part ∷ parts)
    → ⊥
not_named part parts f nowhere (inl e) =
    absurd
      (ground (arith, f, ap (λ n. same_bytes n (codes "state")) e, same_bytes_self (codes "state")))
not_named part parts f nowhere (inr there) = nowhere there

Found-past :
    (part : List ℕ) (parts : List (List ℕ))
    → same_bytes (trim part) (codes "state") ≡ false
    → Found parts
    → Found (part ∷ parts)
unfolding Found
Found-past part parts f (inl (one, there)) =
    inl (ap₂ bit_or (state_bits (trim part) ∙ ap (λ b. if b then 1 else 0) f) one, inr there)
Found-past part parts f (inr (zero_, nowhere)) = inr (
  ap₂ bit_or (state_bits (trim part) ∙ ap (λ b. if b then 1 else 0) f) zero_,
  not_named part parts f nowhere,
)

types_of-Found : (parts : List (List ℕ)) → Found parts
unfolding Found
types_of-Found [] = inr (refl, λ h. h)
types_of-Found (part ∷ parts) = elim (Bool-cases (same_bytes (trim part) (codes "state"))) [
  | inl t ↦ Found-here part parts t (types_of-Found parts)
  | inr f ↦ Found-past part parts f (types_of-Found parts)
]

state_iff :
    (parts : List (List ℕ)) → Found parts → (types_of parts ≡ 1) ↔ Names (codes "state") parts
unfolding Found
state_iff parts (inl (one, there)) = (λ e. there, λ n. one)
state_iff parts (inr (zero_, nowhere)) =
    (λ e. absurd (omega (arith, e, zero_)), λ n. absurd (nowhere n))

-- Of a list of parts without commas, joined by commas, the client gets the state's events exactly where one
-- of the parts is "state" but for spaces around it.
pub parse-join :
    (part : List ℕ) (parts : List (List ℕ))
    → All NoComma (part ∷ parts)
    → (parse (join part parts) ≡ 1) ↔ Names (codes "state") (part ∷ parts)
unfolding parse
parse-join part parts good =
    subst (λ l. (types_of l ≡ 1) ↔ Names (codes "state") (part ∷ parts))
      (sym (parts_of-join part parts good))
      (state_iff (part ∷ parts) (types_of-Found (part ∷ parts)))
