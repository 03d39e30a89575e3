-- ===== src/Rfc2217/Framing.antt =====
-- core/rfc2217_proto.c: Telnet framing. What `rfc2217_escape` doubles the parser of `rfc2217_input`
-- puts back, in the data stream and inside a subnegotiation.
use svs_bridge.Base.{
  ℕ, ◌+◌, ◌*◌, ◌≤◌, ◌<◌, ◌≡◌, refl, sym, ap, subst, ◌∙◌, true, false, List, [], ◌∷◌, ◌++◌,
  append-nil, append_assoc, arith, ◌==◌, if◌then◌else◌, length, length-append, take, drop,
  length-take, length-drop, take-append-drop,
}
use svs_bridge.Rfc2217.{st_data, st_sb, st_sb_iac, Session, Io, iac, sb_begin, sb_end, sb_max}
use svs_bridge.Rfc2217.Handlers.{step_in, input, on_subneg, escape}

-- Telnet's own rule: each 0xFF of the data is doubled.
abbrev pub doubled : List ℕ → List ℕ
doubled [] = []
doubled (b ∷ bs) = if b == iac then iac ∷ iac ∷ doubled bs else b ∷ doubled bs

-- IAC SB <body> IAC SE.
abbrev pub frame : List ℕ → List ℕ
frame body = iac ∷ sb_begin ∷ (doubled body ++ iac ∷ sb_end ∷ [])

pub input-append :
    (xs ys : List ℕ) (s : Session) (io : Io) (modem : ℕ)
    → input s io modem (xs ++ ys) ≡ (let (s', io') = input s io modem xs in input s' io' modem ys)
unfolding input
input-append [] ys s io modem = refl
input-append (x ∷ xs) ys s io modem =
    let (s', io') = step_in s.st s io modem x in input-append xs ys s' io' modem

-- One byte of data, doubled if it is 0xFF.
input_data_byte :
    (s : Session) (io : Io) (modem b : ℕ) (rest : List ℕ)
    → s.st ≡ st_data
    → length io.out < io.data_max
    → input s io modem (doubled (b ∷ []) ++ rest)
      ≡ input s (record io { out = io.out ++ b ∷ [] }) modem rest
unfolding input step_in
input_data_byte s io modem b rest e h = ground arith

doubled_cons :
    (b : ℕ) (bs rest : List ℕ) → doubled (b ∷ bs) ++ rest ≡ doubled (b ∷ []) ++ (doubled bs ++ rest)
doubled_cons b bs rest = ground arith

pub input-doubled :
    (bs : List ℕ) (s : Session) (io : Io) (modem : ℕ) (rest : List ℕ)
    → s.st ≡ st_data
    → length io.out + length bs ≤ io.data_max
    → input s io modem (doubled bs ++ rest) ≡ input s (record io { out = io.out ++ bs }) modem rest
input-doubled [] s io modem rest e h = rw append-nil
input-doubled (b ∷ bs) s io modem rest e h = rw (doubled_cons b bs rest) (
    input_data_byte s io modem b (doubled bs ++ rest) e (omega arith)
    ∙ input-doubled bs s (record io { out = io.out ++ b ∷ [] }) modem rest e
        (omega (arith, length-append io.out (b ∷ [])))
    ∙ rw append_assoc)

-- How many bytes of the doubled data fit: `escape` never cuts a doubled 0xFF.
pub escape-doubled :
    (o max : ℕ) (bs : List ℕ) → (escape o max bs).0 ≡ doubled (take (escape o max bs).1 bs)
unfolding escape
escape-doubled o max [] = refl
escape-doubled o max (b ∷ bs) =
    ground (arith, escape-doubled (o + 1) max bs, escape-doubled (o + 2) max bs)

pub length-escape-le : (o max : ℕ) (bs : List ℕ) → o ≤ max → o + length (escape o max bs).0 ≤ max
unfolding escape
length-escape-le o max [] h = omega arith
length-escape-le o max (b ∷ bs) h =
    ground (arith, length-escape-le (o + 1) max bs, length-escape-le (o + 2) max bs)

-- Text that `rfc2217_escape` writes for a peer, however little room it is given, is read back by
-- `rfc2217_input` as the bytes that `*used` counts, in order, with no reply and no change of
-- session, where the peer is in its data state and has room for them. What is written fits `max`.
pub input-escape :
    (max : ℕ) (bs : List ℕ) (s : Session) (io : Io) (modem : ℕ)
    → s.st ≡ st_data
    → length io.out + length bs ≤ io.data_max
    → (input s io modem (escape 0 max bs).0
        ≡ (s, record io { out = io.out ++ take (escape 0 max bs).1 bs }))
      × (length (escape 0 max bs).0 ≤ max)
unfolding input
input-escape max bs s io modem e h = (
  rw (escape-doubled 0 max bs) (
      subst (λ z. input s io modem z ≡ (s, record io { out = io.out ++ used }))
        (append-nil (doubled used))
        (input-doubled used s io modem [] e (omega (arith, length-take (escape 0 max bs).1 bs)))),
  omega (arith, length-escape-le 0 max bs (omega arith)),
)
  where
    used : List ℕ
    used = take (escape 0 max bs).1 bs

-- With room for every byte doubled, all is taken.
pub escape_all :
    (o max : ℕ) (bs : List ℕ) → o + 2 * length bs ≤ max → (escape o max bs).1 ≡ length bs
unfolding escape
escape_all o max [] h = refl
escape_all o max (b ∷ bs) h = ground (arith, escape_all (o + 1) max bs, escape_all (o + 2) max bs)

-- A byte of a subnegotiation that still fits.
input_sb_byte :
    (s : Session) (io : Io) (modem b : ℕ) (rest : List ℕ)
    → s.st ≡ st_sb
    → length s.sb < sb_max
    → input s io modem (doubled (b ∷ []) ++ rest)
      ≡ input (record s { sb = s.sb ++ b ∷ [] }) io modem rest
unfolding input step_in
input_sb_byte s io modem b rest e h = ground arith

input_sb-doubled :
    (bs : List ℕ) (s : Session) (io : Io) (modem : ℕ) (rest : List ℕ)
    → s.st ≡ st_sb
    → length s.sb + length bs ≤ sb_max
    → input s io modem (doubled bs ++ rest) ≡ input (record s { sb = s.sb ++ bs }) io modem rest
input_sb-doubled [] s io modem rest e h = rw append-nil
input_sb-doubled (b ∷ bs) s io modem rest e h = rw (doubled_cons b bs rest) (
    input_sb_byte s io modem b (doubled bs ++ rest) e (omega arith)
    ∙ input_sb-doubled bs (record s { sb = s.sb ++ b ∷ [] }) io modem rest e
        (omega (arith, length-append s.sb (b ∷ [])))
    ∙ rw append_assoc)

input-frame_open :
    (s : Session) (io : Io) (modem : ℕ) (rest : List ℕ)
    → s.st ≡ st_data
    → input s io modem (iac ∷ sb_begin ∷ rest)
      ≡ input (record s { sb = []; sb_overflow = false; st = st_sb }) io modem rest
unfolding input step_in
input-frame_open s io modem rest e = ground arith

input-frame_close :
    (s : Session) (io : Io) (modem : ℕ) (rest : List ℕ)
    → s.st ≡ st_sb
    → input s io modem (iac ∷ sb_end ∷ rest) ≡ (
        let (s', io') = on_subneg (record s { st = st_sb_iac }) io modem in
        input (record s' { st = st_data }) io' modem rest)
unfolding input step_in
input-frame_close s io modem rest e = ground arith

-- A framed body of at most 64 bytes reaches `on_subneg` whole, whatever bytes it holds, and the
-- parser is back in its data state for what follows.
pub input-frame :
    (body : List ℕ) (s : Session) (io : Io) (modem : ℕ) (rest : List ℕ)
    → s.st ≡ st_data
    → length body ≤ sb_max
    → input s io modem (frame body ++ rest) ≡ (
        let (s', io') =
          on_subneg (record s { sb = body; sb_overflow = false; st = st_sb_iac }) io modem in
        input (record s' { st = st_data }) io' modem rest)
input-frame body s io modem rest e h =
    input-frame_open s io modem ((doubled body ++ iac ∷ sb_end ∷ []) ++ rest) e
    ∙ rw append_assoc (
        input_sb-doubled body (record s { sb = []; sb_overflow = false; st = st_sb }) io modem
          (iac ∷ sb_end ∷ rest) refl (omega arith)
        ∙ input-frame_close (record s { sb = body; sb_overflow = false; st = st_sb }) io modem rest
            refl)

-- Once the buffer is full, a byte only sets the flag.
input_sb_over :
    (s : Session) (io : Io) (modem b : ℕ) (rest : List ℕ)
    → s.st ≡ st_sb
    → length s.sb ≡ sb_max
    → input s io modem (doubled (b ∷ []) ++ rest)
      ≡ input (record s { sb_overflow = true }) io modem rest
unfolding input step_in
input_sb_over s io modem b rest e h = ground arith

input_sb_full :
    (bs : List ℕ) (s : Session) (io : Io) (modem : ℕ) (rest : List ℕ)
    → s.st ≡ st_sb
    → length s.sb ≡ sb_max
    → input (record s { sb_overflow = true }) io modem (doubled bs ++ rest)
      ≡ input (record s { sb_overflow = true }) io modem rest
input_sb_full [] s io modem rest e h = refl
input_sb_full (b ∷ bs) s io modem rest e h = rw (doubled_cons b bs rest) (
    input_sb_over (record s { sb_overflow = true }) io modem b (doubled bs ++ rest) e h
    ∙ input_sb_full bs s io modem rest e h)

doubled-append : (xs ys : List ℕ) → doubled (xs ++ ys) ≡ doubled xs ++ doubled ys
doubled-append [] ys = refl
doubled-append (x ∷ xs) ys = ground (arith, doubled-append xs ys)

input_sb_past :
    (bs : List ℕ) (s : Session) (io : Io) (modem : ℕ) (rest : List ℕ)
    → s.st ≡ st_sb
    → length s.sb ≡ sb_max
    → 0 < length bs
    → input s io modem (doubled bs ++ rest) ≡ input (record s { sb_overflow = true }) io modem rest
input_sb_past [] s io modem rest e h n = absurd (omega arith)
input_sb_past (b ∷ bs) s io modem rest e h n =
    rw (doubled_cons b bs rest)
      (input_sb_over s io modem b (doubled bs ++ rest) e h ∙ input_sb_full bs s io modem rest e h)

on_subneg_overflow :
    (s : Session) (io : Io) (modem : ℕ) → s.sb_overflow ≡ true → on_subneg s io modem ≡ (s, io)
unfolding on_subneg
on_subneg_overflow s io modem o = ground arith

-- A framed body of more than 64 bytes is dropped whole: it is not answered, no byte of it reaches
-- the SVS, no setting changes, and the parser is back in its data state for what follows.
pub input-frame_oversized :
    (body : List ℕ) (s : Session) (io : Io) (modem : ℕ) (rest : List ℕ)
    → s.st ≡ st_data
    → sb_max < length body
    → input s io modem (frame body ++ rest)
      ≡ input (record s { sb = take sb_max body; sb_overflow = true; st = st_data }) io modem rest
input-frame_oversized body s io modem rest e h =
    input-frame_open s io modem ((doubled body ++ iac ∷ sb_end ∷ []) ++ rest) e
    ∙ rw append_assoc (
        rw split (
          rw append_assoc (
            input_sb-doubled head opened io modem (doubled tail ++ iac ∷ sb_end ∷ rest) refl fits
            ∙ input_sb_past tail (record opened { sb = head }) io modem (iac ∷ sb_end ∷ rest) refl
                (omega (arith, length-take sb_max body)) (omega (arith, length-drop sb_max body))
            ∙ input-frame_close (record full { st = st_sb }) io modem rest refl
            ∙ rw (on_subneg_overflow (record full { st = st_sb_iac }) io modem refl))))
  where
    head : List ℕ
    head = take sb_max body

    tail : List ℕ
    tail = drop sb_max body

    opened : Session
    opened = record s { sb = []; sb_overflow = false; st = st_sb }

    full : Session
    full = record s { sb = head; sb_overflow = true }

    fits : 0 + length head ≤ sb_max
    fits = omega (arith, length-take sb_max body)

    split : doubled body ≡ doubled head ++ doubled tail
    split = ap doubled (sym (take-append-drop sb_max body)) ∙ doubled-append head tail
