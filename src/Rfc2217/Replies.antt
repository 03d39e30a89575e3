-- ===== src/Rfc2217/Replies.antt =====
-- core/rfc2217_proto.c: the COM-PORT replies (`put_cpo`) and what `on_subneg` answers.
use svs_bridge.Base.{
  ℕ, ◌+◌, ◌*◌, ◌%◌, ◌^◌, ◌≤◌, ◌<◌, ◌≡◌, ◌≢◌, ◌↔◌, refl, sym, ap, subst, ◌∙◌, inl, inr, true, false,
  not, ◌&&◌, ◌||◌, List, [], ◌∷◌, ◌++◌, append-nil, append_assoc, arith, ◌==◌, ==_iff,
  if◌then◌else◌, Bool-cases, length, length-append,
}
use svs_bridge.Rfc2217.{
  Session, Io, st_data, st_sb_iac, iac, sb_begin, sb_end, opt_com_port, put, put_payload, put_cpo,
}
use svs_bridge.Rfc2217.Handlers.{
  be32, be32_bytes, input, set_baudrate, set_control, on_command, on_body, on_subneg,
}
use svs_bridge.Rfc2217.Framing.{doubled, frame, input-frame}

-- With room for all of it, a reply is added to what is there.
put_room :
    (io : Io) (b : ℕ)
    → length io.reply < io.reply_max
    → put io b ≡ record io { reply = io.reply ++ b ∷ [] }
unfolding put
put_room io b h = ground arith

put_twice_room :
    (io : Io) (b c : ℕ)
    → length io.reply + 2 ≤ io.reply_max
    → put (put io b) c ≡ record io { reply = io.reply ++ b ∷ c ∷ [] }
put_twice_room io b c h = rw (put_room io b (omega arith)) (
    put_room (record io { reply = io.reply ++ b ∷ [] }) c
      (omega (arith, length-append io.reply (b ∷ [])))
    ∙ rw append_assoc)

put_payload_room :
    (bs : List ℕ) (io : Io)
    → length io.reply + 2 * length bs ≤ io.reply_max
    → put_payload io bs ≡ record io { reply = io.reply ++ doubled bs }
unfolding put_payload
put_payload_room [] io h = rw append-nil
put_payload_room (b ∷ bs) io h = elim (Bool-cases (b == iac)) [
  | inl e ↦ rw e (
      rw ((==_iff b iac).0 e) (
        rw (put_twice_room io iac iac (omega arith)) (
          put_payload_room bs (record io { reply = io.reply ++ iac ∷ iac ∷ [] })
            (omega (arith, length-append io.reply (iac ∷ iac ∷ [])))
          ∙ rw append_assoc)))
  | inr n ↦ rw n (
      rw (put_room io b (omega arith)) (
        put_payload_room bs (record io { reply = io.reply ++ b ∷ [] })
          (omega (arith, length-append io.reply (b ∷ [])))
        ∙ rw append_assoc))
]

length-doubled-le : (bs : List ℕ) → length (doubled bs) ≤ 2 * length bs
length-doubled-le [] = omega arith
length-doubled-le (b ∷ bs) = ground (arith, length-doubled-le bs)

-- IAC SB 44 <cmd + 100> <payload, 0xFF doubled> IAC SE.
abbrev reply_bytes : ℕ → List ℕ → List ℕ
reply_bytes cmd payload =
    iac ∷ sb_begin ∷ opt_com_port ∷ ((cmd + 100) % 256) ∷ (doubled payload ++ iac ∷ sb_end ∷ [])

put_cpo_room :
    (io : Io) (cmd : ℕ) (payload : List ℕ)
    → length io.reply + 2 * length payload + 6 ≤ io.reply_max
    → put_cpo io cmd payload ≡ record io { reply = io.reply ++ reply_bytes cmd payload }
unfolding put_cpo
put_cpo_room io cmd payload h = rw (put_twice_room io iac sb_begin (omega arith)) (
    rw (put_twice_room opened opt_com_port ((cmd + 100) % 256) (omega (arith, l1))) (
      rw (put_payload_room payload headed (omega (arith, l1, l2))) (
        put_twice_room filled iac sb_end (omega (arith, l1, l2, l3, length-doubled-le payload))
        ∙ simp append_assoc)))
  where
    opened : Io
    opened = record io { reply = io.reply ++ iac ∷ sb_begin ∷ [] }

    headed : Io
    headed = record io {
      reply = (io.reply ++ iac ∷ sb_begin ∷ []) ++ opt_com_port ∷ ((cmd + 100) % 256) ∷ [];
    }

    filled : Io
    filled = record io { reply = headed.reply ++ doubled payload }

    l1 : length opened.reply ≡ length io.reply + 2
    l1 = length-append io.reply (iac ∷ sb_begin ∷ [])

    l2 : length headed.reply ≡ length opened.reply + 2
    l2 = length-append opened.reply (opt_com_port ∷ ((cmd + 100) % 256) ∷ [])

    l3 : length filled.reply ≡ length headed.reply + length (doubled payload)
    l3 = length-append headed.reply (doubled payload)

frame_cmd :
    (c : ℕ) (payload : List ℕ)
    → c ≢ iac
    → frame (opt_com_port ∷ c ∷ payload)
      ≡ iac ∷ sb_begin ∷ opt_com_port ∷ c ∷ (doubled payload ++ iac ∷ sb_end ∷ [])
frame_cmd c payload n = ground arith

-- The reply to a command is a well-formed frame, which a peer reads as COM-PORT, the command plus
-- 100 and the payload, exactly where the command is not 155: for that one the command byte of the
-- reply is 0xFF, and it is not doubled.
pub put_cpo-frame :
    (io : Io) (cmd : ℕ) (payload : List ℕ)
    → cmd < 256
    → length io.reply + 2 * length payload + 6 ≤ io.reply_max
    → ((put_cpo io cmd payload).reply
        ≡ io.reply ++ frame (opt_com_port ∷ ((cmd + 100) % 256) ∷ payload))
      ↔ (cmd ≢ 155)
put_cpo-frame io cmd payload small room = (broken, whole)
  where
    whole :
        cmd ≢ 155
        → (put_cpo io cmd payload).reply
          ≡ io.reply ++ frame (opt_com_port ∷ ((cmd + 100) % 256) ∷ payload)
    whole n = rw (put_cpo_room io cmd payload room) (
        ap (◌++◌ io.reply)
          (sym (frame_cmd ((cmd + 100) % 256) payload (λ e. absurd (omega arith)))))

    broken :
        (put_cpo io cmd payload).reply
          ≡ io.reply ++ frame (opt_com_port ∷ ((cmd + 100) % 256) ∷ payload)
        → cmd ≢ 155
    broken same e = absurd (
        omega (
          arith,
          ap length (
              subst (λ r. r.reply ≡ io.reply ++ frame (opt_com_port ∷ 255 ∷ payload))
                (put_cpo_room io 155 payload room)
                (subst
                  (λ c.
                    (put_cpo io c payload).reply
                    ≡ io.reply ++ frame (opt_com_port ∷ ((c + 100) % 256) ∷ payload))
                  e same)),
          length-append io.reply (reply_bytes 155 payload),
          length-append io.reply (frame (opt_com_port ∷ 255 ∷ payload)),
        ))

-- A session as `on_subneg` finds it, at the end of a frame.
abbrev pub read : Session → List ℕ → Session
read s body = record s { sb = body; sb_overflow = false; st = st_sb_iac }

input_command :
    (s : Session) (io : Io) (modem cmd : ℕ) (arg : List ℕ)
    → s.st ≡ st_data
    → length arg ≤ 62
    → input s io modem (frame (opt_com_port ∷ cmd ∷ arg)) ≡ (
        let (s', io') = on_command (read s (opt_com_port ∷ cmd ∷ arg)) io modem cmd arg in
        (record s' { st = st_data }, io'))
unfolding input on_subneg on_body
input_command s io modem cmd arg e h =
    subst
      (λ z. input s io modem z ≡ (
        let (s', io') = on_command (read s (opt_com_port ∷ cmd ∷ arg)) io modem cmd arg in
        (record s' { st = st_data }, io')))
      (append-nil (frame (opt_com_port ∷ cmd ∷ arg)))
      (input-frame (opt_com_port ∷ cmd ∷ arg) s io modem [] e (omega arith))

-- SET-BAUDRATE: a client that asks for a rate other than 0 finds it stored and echoed byte for byte;
-- asking for 0 changes nothing and is answered with the rate that holds. Nothing goes to the SVS.
pub input_baudrate :
    (s : Session) (io : Io) (modem v : ℕ)
    → s.st ≡ st_data
    → v < 2 ^ 32
    → length io.reply + 14 ≤ io.reply_max
    → let baud = if v == 0 then s.baud else v in
      let (s', io') = input s io modem (frame (opt_com_port ∷ 1 ∷ be32_bytes v)) in
      (s'.baud ≡ baud)
      × (s'.st ≡ st_data)
      × (io' ≡ record io { reply = io.reply ++ frame (opt_com_port ∷ 101 ∷ be32_bytes baud) })
unfolding on_command set_baudrate
input_baudrate s io modem v e small room =
    rw (input_command s io modem 1 (be32_bytes v) e (omega arith)) (
      let same : be32 (be32_bytes v) ≡ v = omega arith in
      rw same
        (refl, refl, put_cpo_room io 1 (be32_bytes (if v == 0 then s.baud else v)) (omega arith)))

-- SET-CONTROL: any value is acknowledged as asked. Only 8 and 9 are acted on: they turn DTR on and
-- off, and `dtr_raised` is set by the change from off to on alone, so a client that raises DTR while
-- it is up restarts nothing.
pub input_control :
    (s : Session) (io : Io) (modem v : ℕ)
    → s.st ≡ st_data
    → length io.reply + 8 ≤ io.reply_max
    → let (s', io') = input s io modem (frame (opt_com_port ∷ 5 ∷ v ∷ [])) in
      (s'.dtr ≡ (if v == 8 then true else if v == 9 then false else s.dtr))
      × (s'.st ≡ st_data)
      × (io' ≡ record io {
        reply = io.reply ++ frame (opt_com_port ∷ 105 ∷ v ∷ []);
        dtr_raised = io.dtr_raised || (v == 8 && not s.dtr);
      })
unfolding on_command set_control
input_control s io modem v e room =
    rw (input_command s io modem 5 (v ∷ []) e (omega arith)) (elim (Bool-cases (v == 8)) [
      | inl on ↦ rw on (
        refl,
        refl,
        put_cpo_room (record io { dtr_raised = io.dtr_raised || not s.dtr }) 5 (v ∷ [])
            (omega arith),
      )
      | inr not_on ↦ rw not_on (elim (Bool-cases (v == 9)) [
        | inl off ↦ rw off (refl, refl, quiet)
        | inr other ↦ rw other (refl, refl, quiet)
      ])
    ])
  where
    quiet : put_cpo io 5 (v ∷ []) ≡ record io {
      reply = io.reply ++ frame (opt_com_port ∷ 105 ∷ v ∷ []);
      dtr_raised = io.dtr_raised || false;
    }
    quiet = put_cpo_room io 5 (v ∷ []) (omega arith) ∙ ground arith
