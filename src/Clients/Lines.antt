-- ===== src/Clients/Lines.antt =====
-- platform/esp32/main/rfc2217.cpp: the lines that a client types, which the log notes. `busy` is svs_settings::busy.
use svs_bridge.Base.{
  ℕ, suc, ◌+◌, ◌-◌, ◌*◌, ◌<◌, ◌≡◌, refl, ap, sym, ◌∙◌, append-nil, append_assoc, Bool, true, false,
  not, ◌&&◌, ◌||◌, List, [], ◌∷◌, ◌++◌, arith, ltb, ◌==◌, if◌then◌else◌, Bool-cases, inl, inr,
  length, length-append, All,
}
use svs_bridge.Echo.{Echo, expect, is_digit}

abbrev pub client_line_max : ℕ
client_line_max = 128

-- `client_t`, the fields that are used here.
pub record Client : Type 0 where
  pub commands : ℕ
  pub refused : ℕ
  pub line : List ℕ
  pub echo : Echo
  pub echo_ms : ℕ

abbrev pub is_end : ℕ → Bool
is_end c = c == 13 || c == 10

abbrev pub skip_ends : List ℕ → List ℕ
skip_ends [] = []
skip_ends (c ∷ cs) = let rest = skip_ends cs in if is_end c then rest else c ∷ cs

abbrev pub keep : ℕ → List ℕ → List ℕ
keep c [] = if is_end c then [] else c ∷ []
keep c (d ∷ ds) = c ∷ d ∷ ds

abbrev pub cut_ends : List ℕ → List ℕ
cut_ends [] = []
cut_ends (c ∷ cs) = keep c (cut_ends cs)

abbrev pub all_digits : List ℕ → Bool
all_digits [] = true
all_digits (c ∷ cs) = let rest = all_digits cs in is_digit c && rest

-- `atoi`, of digits.
abbrev pub number_from : ℕ → List ℕ → ℕ
number_from n [] = n
number_from n (c ∷ cs) = number_from (n * 10 + (c - 48)) cs

abbrev pub is_query : ℕ → List ℕ → Bool
is_query c digits =
    (c == 89 || c == 71) && (ltb 0 (length digits) && (ltb (length digits) 4 && all_digits digits))

-- The end of `log_line`, with the command and a line that is empty again.
abbrev pub on_command : ℕ → List ℕ → Client → Client
on_command now [] c = c
on_command now (first ∷ digits) c =
    let counted = record c { commands = suc c.commands } in
    if is_query first digits
    then record counted { echo = expect c.echo (number_from 0 digits); echo_ms = now }
    else counted

unfoldable pub log_line : ℕ → Client → Client
log_line now c = on_command now (cut_ends (skip_ends c.line)) (record c { line = [] })

abbrev pub stored_byte : ℕ → Client → Client
stored_byte b c = record c {
  line = if ltb (length c.line) client_line_max then c.line ++ (b ∷ []) else c.line;
}

unfoldable pub typed_byte : ℕ → ℕ → Client → Client
typed_byte now b c =
    let c' = stored_byte b c in
    if b == 10 || length c'.line == client_line_max then log_line now c' else c'

abbrev pub typed : ℕ → List ℕ → Client → Client
typed now [] c = c
typed now (b ∷ bs) c = typed now bs (typed_byte now b c)

-- `from_client`; `sent` is whether svs_usb::send_raw succeeded, which is called where the settings are not busy.
unfoldable pub from_client : Bool → Bool → ℕ → List ℕ → Client → Client
from_client busy sent now bytes c =
    if busy || not sent then record c { refused = suc c.refused; line = [] } else typed now bytes c

-- A line that a client typed is kept in less than its 128 bytes, whatever is typed.
abbrev pub Fits : Client → Type 0
Fits c = length c.line < client_line_max

on_command-Fits : (now : ℕ) (cmd : List ℕ) (c : Client) → Fits c → Fits (on_command now cmd c)
on_command-Fits now [] c h = h
on_command-Fits now (first ∷ digits) c h = ground (arith, h)

typed_byte-Fits : (now b : ℕ) (c : Client) → Fits c → Fits (typed_byte now b c)
unfolding typed_byte log_line
typed_byte-Fits now b c h =
    let grown : length (c.line ++ (b ∷ [])) ≡ suc (length c.line) =
      omega (arith, length-append c.line (b ∷ [])) in
    let room : ltb (length c.line) client_line_max ≡ true = ground arith in
    elim (Bool-cases (b == 10 || length (c.line ++ (b ∷ [])) == client_line_max)) [
      | inl t ↦
          rw (room, t)
            (on_command-Fits now (cut_ends (skip_ends (c.line ++ (b ∷ []))))
              (record c { line = [] }) (omega arith))
      | inr f ↦ rw (room, f) (ground arith)
    ]

typed-Fits : (now : ℕ) (bytes : List ℕ) (c : Client) → Fits c → Fits (typed now bytes c)
typed-Fits now [] c h = h
typed-Fits now (b ∷ bs) c h = typed-Fits now bs (typed_byte now b c) (typed_byte-Fits now b c h)

-- The buffer of 128 bytes for the line that a client types has room for one more byte after whatever it
-- sends, if it had before, whether or not the bytes could be sent to the SVS.
pub from_client-Fits :
    (busy sent : Bool) (now : ℕ) (bytes : List ℕ) (c : Client)
    → Fits c
    → Fits (from_client busy sent now bytes c)
unfolding from_client
from_client-Fits busy sent now bytes c h = elim (Bool-cases (busy || not sent)) [
  | inl t ↦ rw t (omega arith)
  | inr f ↦ rw f (typed-Fits now bytes c h)
]

abbrev AllPlain : List ℕ → Type 0
AllPlain = All (λ c. is_end c ≡ false)

typed_byte_plain :
    (now b : ℕ) (c : Client)
    → is_end b ≡ false
    → length c.line + 1 < client_line_max
    → typed_byte now b c ≡ record c { line = c.line ++ (b ∷ []) }
unfolding typed_byte
typed_byte_plain now b c not_end room =
    let fits : ltb (length c.line) client_line_max ≡ true = ground arith in
    let on : b == 10 || length (c.line ++ (b ∷ [])) == client_line_max ≡ false =
      ground (arith, length-append c.line (b ∷ [])) in
    rw (fits, on) refl

typed_plain :
    (now : ℕ) (bytes after : List ℕ) (c : Client)
    → AllPlain bytes
    → length c.line + length bytes < client_line_max
    → typed now (bytes ++ after) c ≡ typed now after (record c { line = c.line ++ bytes })
typed_plain now [] after c plain room =
    ap (λ l. typed now after (record c { line = l })) (sym (append-nil c.line))
typed_plain now (b ∷ bs) after c (not_end, plain) room =
    let next : Client = record c { line = c.line ++ (b ∷ []) } in
    ap (typed now (bs ++ after)) (typed_byte_plain now b c not_end (omega arith))
    ∙ typed_plain now bs after next plain (omega (arith, length-append c.line (b ∷ [])))
    ∙ ap (λ l. typed now after (record c { line = l })) (append_assoc c.line (b ∷ []) bs)

all_digits-AllPlain : (digits : List ℕ) → all_digits digits ≡ true → AllPlain digits
all_digits-AllPlain [] h = tt
all_digits-AllPlain (d ∷ ds) h = (ground arith, all_digits-AllPlain ds (ground arith))

cut_ends-line : (line : List ℕ) → AllPlain line → cut_ends (line ++ (10 ∷ [])) ≡ line
cut_ends-line [] plain = refl
cut_ends-line (c ∷ cs) (here, plain) = ap (keep c) (cut_ends-line cs plain) ∙ keep_plain c cs here
  where
    keep_plain : (c : ℕ) (cs : List ℕ) → is_end c ≡ false → keep c cs ≡ c ∷ cs
    keep_plain c [] h = rw h refl
    keep_plain c (d ∷ ds) h = refl

ended_line :
    (now first : ℕ) (digits : List ℕ) (c : Client)
    → c.line ≡ first ∷ digits
    → is_query first digits ≡ true
    → AllPlain (first ∷ digits)
    → ((typed_byte now 10 c).echo ≡ expect c.echo (number_from 0 digits))
      × ((typed_byte now 10 c).echo_ms ≡ now)
unfolding typed_byte log_line
ended_line now first digits c e query (plain, digits_plain) =
    let fits : ltb (length c.line) client_line_max ≡ true = ground (arith, ap length e) in
    let read : cut_ends (skip_ends (c.line ++ (10 ∷ []))) ≡ first ∷ digits =
      ap (λ l. cut_ends (skip_ends (l ++ (10 ∷ [])))) e
      ∙ ap
          (λ q.
            cut_ends (if q then skip_ends (digits ++ (10 ∷ [])) else first ∷ (digits ++ (10 ∷ []))))
          plain
      ∙ cut_ends-line (first ∷ digits) (plain, digits_plain) in
    rw (fits, read, query) (refl, refl)

-- The line of a Y or a G with a number of up to three digits makes the echo filter wait for that number,
-- from now on, where the client had typed nothing before on that line and its bytes could be sent.
pub from_client-expect :
    (now first : ℕ) (digits : List ℕ) (c : Client)
    → c.line ≡ []
    → is_query first digits ≡ true
    → ((from_client false true now (first ∷ (digits ++ (10 ∷ []))) c).echo
        ≡ expect c.echo (number_from 0 digits))
      × ((from_client false true now (first ∷ (digits ++ (10 ∷ []))) c).echo_ms ≡ now)
unfolding from_client
from_client-expect now first digits c empty query =
    let plain : is_end first ≡ false = ground arith in
    let digits_plain = all_digits-AllPlain digits (ground arith) in
    let line : List ℕ = first ∷ digits in
    let whole : typed now (line ++ (10 ∷ [])) c
        ≡ typed_byte now 10 (record c { line = c.line ++ line }) =
      typed_plain now line (10 ∷ []) c (plain, digits_plain) (ground (arith, ap length empty)) in
    let (waits, since) =
      ended_line now first digits (record c { line = c.line ++ line }) (ap (λ l. l ++ line) empty)
        query (plain, digits_plain) in
    (ap (λ (x : Client). x.echo) whole ∙ waits, ap (λ (x : Client). x.echo_ms) whole ∙ since)
