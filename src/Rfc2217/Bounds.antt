-- ===== src/Rfc2217/Bounds.antt =====
-- core/rfc2217_proto.c: no byte is written past a buffer.
use svs_bridge.Base.{
  ℕ, ◌≤◌, ◌≡◌, refl, ap, ◌∙◌, true, false, not, ◌||◌, List, [], ◌∷◌, arith, leb, ◌==◌,
  if◌then◌else◌, length, length-append,
}
use svs_bridge.Rfc2217.{
  St, st_verb, st_sb_iac, Session, Io, iac, sb_max, signature, put, put_cmd, put_payload, put_cpo,
  dont, do_it, wont, will, opt_com_port,
}
use svs_bridge.Rfc2217.Handlers.{
  After, be32, be32_bytes, asked, on_will, on_wont, on_do, on_dont, on_com_port, set_baudrate,
  set_field, set_control, acknowledge, on_signature, on_verb, on_command, on_body, on_subneg,
  step_in, input,
}

-- What a handler may do to the buffers: it adds replies, if they fit, and leaves the data alone.
pub record Replied (io io' : Io) : Type 0 where
  pub out_eq : io'.out ≡ io.out
  pub data_max_eq : io'.data_max ≡ io.data_max
  pub reply_max_eq : io'.reply_max ≡ io.reply_max
  pub fits : length io.reply ≤ io.reply_max → length io'.reply ≤ io.reply_max

Replied-refl : (io : Io) → Replied io io
Replied-refl io = ground arith

put-Replied : (io : Io) (b : ℕ) → Replied io (put io b)
unfolding put
put-Replied io b = ground (arith, length-append io.reply (b ∷ []))

Replied-trans : {a b c : Io} → Replied a b → Replied b c → Replied a c
Replied-trans p q = record {
  out_eq = q.out_eq ∙ p.out_eq;
  data_max_eq = q.data_max_eq ∙ p.data_max_eq;
  reply_max_eq = q.reply_max_eq ∙ p.reply_max_eq;
  fits = λ h. omega arith;
}

put_cmd-Replied : (io : Io) (verb opt : ℕ) → Replied io (put_cmd io verb opt)
unfolding put_cmd
put_cmd-Replied io verb opt =
    Replied-trans (put-Replied io iac)
      (Replied-trans (put-Replied (put io iac) verb) (put-Replied (put (put io iac) verb) opt))

put_payload-Replied : (io : Io) (bs : List ℕ) → Replied io (put_payload io bs)
unfolding put_payload
put_payload-Replied io [] = Replied-refl io
put_payload-Replied io (b ∷ bs) =
    Replied-trans byte (put_payload-Replied (if b == iac then put (put io b) iac else put io b) bs)
  where
    byte : Replied io (if b == iac then put (put io b) iac else put io b)
    byte = elim (b == iac) as (λ t. Replied io (if t then put (put io b) iac else put io b)) [
      | true ↦ Replied-trans (put-Replied io b) (put-Replied (put io b) iac)
      | false ↦ put-Replied io b
    ]

put_cpo-Replied : (io : Io) (cmd : ℕ) (bs : List ℕ) → Replied io (put_cpo io cmd bs)
unfolding put_cpo
put_cpo-Replied io cmd bs =
    Replied-trans
      (Replied-trans (put-Replied _ _)
        (Replied-trans (put-Replied _ _) (Replied-trans (put-Replied _ _) (put-Replied _ _))))
      (Replied-trans (put_payload-Replied _ bs) (Replied-trans (put-Replied _ _) (put-Replied _ _)))

-- A handler's result: the subnegotiation buffer as it was, and replies at most.
abbrev Handled : Session → Io → After → Type 0
Handled s io (s', io') = (s'.sb ≡ s.sb) × Replied io io'

on_verb-Handled : (s : Session) (verb opt : ℕ) (io : Io) → Handled s io (on_verb s verb opt io)
unfolding on_verb on_will on_wont on_do on_dont on_com_port
on_verb-Handled s verb opt io = ground (
  arith,
  put_cmd-Replied io will opt,
  put_cmd-Replied io wont opt,
  put_cmd-Replied io do_it opt,
  put_cmd-Replied io dont opt,
  put_cmd-Replied io wont opt_com_port,
  put_cmd-Replied io do_it opt_com_port,
)

set_baudrate-Handled :
    (s : Session) (io : Io) (cmd : ℕ) (arg : List ℕ) → Handled s io (set_baudrate s io cmd arg)
unfolding set_baudrate
set_baudrate-Handled s io cmd arg =
    elim (leb 4 (length arg)) as (λ t. Handled s io (if t then answered else (s, io))) [
      | true ↦ (refl, put_cpo-Replied io cmd (be32_bytes baud))
      | false ↦ (refl, Replied-refl io)
    ]
  where
    baud : ℕ
    baud = if be32 arg == 0 then s.baud else be32 arg

    answered : After
    answered = (record s { baud = baud }, put_cpo io cmd (be32_bytes baud))

set_field-Handled :
    (s : Session) (io : Io) (cmd : ℕ) (arg : List ℕ) → Handled s io (set_field s io cmd arg)
unfolding set_field
set_field-Handled s io cmd [] = (refl, Replied-refl io)
set_field-Handled s io cmd (v ∷ arg) = ground (
  arith,
  put_cpo-Replied io cmd (asked s.datasize v ∷ []),
  put_cpo-Replied io cmd (asked s.parity v ∷ []),
  put_cpo-Replied io cmd (asked s.stopsize v ∷ []),
)

set_control-Handled :
    (s : Session) (io : Io) (cmd : ℕ) (arg : List ℕ) → Handled s io (set_control s io cmd arg)
unfolding set_control
set_control-Handled s io cmd [] = (refl, Replied-refl io)
set_control-Handled s io cmd (v ∷ arg) = ground (
  arith,
  put_cpo-Replied io cmd (v ∷ []),
  put_cpo-Replied (record io { dtr_raised = io.dtr_raised || not s.dtr }) cmd (v ∷ []),
)

acknowledge-Replied : (io : Io) (cmd : ℕ) (arg : List ℕ) → Replied io (acknowledge io cmd arg)
unfolding acknowledge
acknowledge-Replied io cmd [] = Replied-refl io
acknowledge-Replied io cmd (v ∷ arg) = put_cpo-Replied io cmd (v ∷ [])

on_signature-Replied : (io : Io) (cmd : ℕ) (arg : List ℕ) → Replied io (on_signature io cmd arg)
unfolding on_signature
on_signature-Replied io cmd [] = put_cpo-Replied io cmd signature
on_signature-Replied io cmd (v ∷ arg) = Replied-refl io

on_command-Handled :
    (s : Session) (io : Io) (modem cmd : ℕ) (arg : List ℕ)
    → Handled s io (on_command s io modem cmd arg)
unfolding on_command
on_command-Handled s io modem cmd arg = ground (
  arith,
  on_signature-Replied io cmd arg,
  set_baudrate-Handled s io cmd arg,
  set_field-Handled s io cmd arg,
  put_cpo-Replied io cmd (modem ∷ []),
  put_cpo-Replied io cmd (0x60 ∷ []),
  set_control-Handled s io cmd arg,
  acknowledge-Replied io cmd arg,
)

on_body-Handled :
    (s : Session) (io : Io) (modem : ℕ) (body : List ℕ) → Handled s io (on_body s io modem body)
unfolding on_body
on_body-Handled s io modem (opt ∷ cmd ∷ arg) = ground (arith, on_command-Handled s io modem cmd arg)
on_body-Handled s io modem _ = (refl, Replied-refl io)

on_subneg-Handled : (s : Session) (io : Io) (modem : ℕ) → Handled s io (on_subneg s io modem)
unfolding on_subneg
on_subneg-Handled s io modem = ground (arith, on_body-Handled s io modem s.sb)

-- Each buffer holds at most its maximum.
pub record IsBounded (s : Session) (io : Io) : Type 0 where
  pub sb_fits : length s.sb ≤ sb_max
  pub out_fits : length io.out ≤ io.data_max
  pub reply_fits : length io.reply ≤ io.reply_max

-- The buffers that the caller gave are as large as before.
abbrev pub SameRoom : Io → Io → Type 0
SameRoom io io' = (io'.data_max ≡ io.data_max) × (io'.reply_max ≡ io.reply_max)

IsBounded-Handled :
    (s : Session) (io : Io) (r : After) → IsBounded s io → Handled s io r → IsBounded r.0 r.1
IsBounded-Handled s io r v h = ground (arith, ap length h.0, ap length h.1.out_eq)

step_in-IsBounded :
    (st : St) (s : Session) (io : Io) (modem b : ℕ)
    → IsBounded s io
    → IsBounded (step_in st s io modem b).0 (step_in st s io modem b).1
unfolding step_in
step_in-IsBounded st_verb s io modem b v =
    IsBounded-Handled s io _ v (on_verb-Handled s s.verb b io)
step_in-IsBounded st_sb_iac s io modem b v = ground (
  arith,
  length-append s.sb (iac ∷ []),
  on_subneg-Handled s io modem,
  IsBounded-Handled s io (on_subneg s io modem) v (on_subneg-Handled s io modem),
)
step_in-IsBounded _ s io modem b v = ground (
  arith,
  length-append s.sb (b ∷ []),
  length-append io.out (b ∷ []),
  length-append io.out (iac ∷ []),
)

step_in-SameRoom :
    (st : St) (s : Session) (io : Io) (modem b : ℕ) → SameRoom io (step_in st s io modem b).1
unfolding step_in
step_in-SameRoom st_verb s io modem b =
    let h = on_verb-Handled s s.verb b io in (h.1.data_max_eq, h.1.reply_max_eq)
step_in-SameRoom st_sb_iac s io modem b =
    let h = on_subneg-Handled s io modem in ground (arith, h.1.data_max_eq, h.1.reply_max_eq)
step_in-SameRoom _ s io modem b = ground arith

-- Whatever bytes arrive, in whatever state, no buffer is overrun: a subnegotiation stays within its
-- 64 bytes, the data and the replies within the buffers the caller gave, whose sizes do not change.
pub input-IsBounded :
    (bs : List ℕ) (s : Session) (io : Io) (modem : ℕ)
    → IsBounded s io
    → IsBounded (input s io modem bs).0 (input s io modem bs).1
      × SameRoom io (input s io modem bs).1
unfolding input
input-IsBounded [] s io modem v = (v, (refl, refl))
input-IsBounded (b ∷ bs) s io modem v =
    let (bounded, (room_d, room_r)) =
      input-IsBounded bs (step_in s.st s io modem b).0 (step_in s.st s io modem b).1 modem
        (step_in-IsBounded s.st s io modem b v) in
    let same = step_in-SameRoom s.st s io modem b in (bounded, (room_d ∙ same.0, room_r ∙ same.1))
