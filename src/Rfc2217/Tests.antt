-- ===== src/Rfc2217/Tests.antt =====
-- Runs of the parser at concrete inputs, after tests/test_rfc2217.cpp, and the theorems at inputs
-- that meet their hypotheses.
use svs_bridge.Base.{
  ℕ, ◌≤◌, ◌≡◌, refl, inl, true, false, List, [], ◌∷◌, ◌++◌, arith, length, take, replicate,
}
use svs_bridge.Rfc2217.{
  Session, Io, st_data, sb_max, bit, we_accept, they_accept, put, put_cmd, put_payload, put_cpo,
  init, greeting,
}
use svs_bridge.Rfc2217.Handlers.{
  on_verb, on_will, on_do, on_com_port, on_command, on_body, on_subneg, step_in, input, escape,
  modemstate,
}
use svs_bridge.Rfc2217.Framing.{frame, input-escape, input-frame, input-frame_oversized}
use svs_bridge.Rfc2217.Bounds.{IsBounded, SameRoom, input-IsBounded}
use svs_bridge.Rfc2217.Options.{KnownOptions}
use svs_bridge.Rfc2217.Replies.{read}

abbrev io : Io
io = record { out = []; data_max = 256; reply = []; reply_max = 256; dtr_raised = false }

abbrev greeted : Session
unfolding greeting init bit
greeted = (greeting init 32).0

greeting_bytes :
    (greeting init 32).1
    ≡ 255 ∷ 251 ∷ 0 ∷ 255 ∷ 253 ∷ 0 ∷ 255 ∷ 251 ∷ 3 ∷ 255 ∷ 253 ∷ 3 ∷ 255 ∷ 253 ∷ 44 ∷ []
unfolding greeting put
greeting_bytes = refl

-- The client's matching answers are not answered again; only COM-PORT is confirmed.
no_loop :
    (input (greeting init 32).0 io 0 (255 ∷ 253 ∷ 0 ∷ 255 ∷ 251 ∷ 0 ∷ 255 ∷ 251 ∷ 44 ∷ [])).1.reply
    ≡ 255 ∷ 253 ∷ 44 ∷ []
unfolding greeting init bit input step_in on_verb on_com_port on_will put_cmd put they_accept on_do
no_loop = refl

notify :
    (input init io 0xb0 (255 ∷ 250 ∷ 44 ∷ 7 ∷ 0 ∷ 255 ∷ 240 ∷ [])).1.reply
    ≡ 255 ∷ 250 ∷ 44 ∷ 107 ∷ 0xb0 ∷ 255 ∷ 240 ∷ []
unfolding init input step_in on_subneg on_body on_command put_cpo put_payload put
notify = refl

modemstate_doubled : modemstate 255 16 ≡ 255 ∷ 250 ∷ 44 ∷ 107 ∷ 255 ∷ 255 ∷ 255 ∷ 240 ∷ []
unfolding modemstate put_cpo put_payload put
modemstate_doubled = refl

escape_cut : escape 0 2 (b'a' ∷ 255 ∷ b'b' ∷ []) ≡ (b'a' ∷ [], 1)
unfolding escape
escape_cut = refl

init_data : init.st ≡ st_data
unfolding init
init_data = refl

input-escape_example :
    (input init io 0 (escape 0 3 (b'a' ∷ 255 ∷ b'b' ∷ [])).0 ≡ (
      init,
      record io {
        out = [] ++ take (escape 0 3 (b'a' ∷ 255 ∷ b'b' ∷ [])).1 (b'a' ∷ 255 ∷ b'b' ∷ []);
      },
    ))
    × (length (escape 0 3 (b'a' ∷ 255 ∷ b'b' ∷ [])).0 ≤ 3)
input-escape_example = input-escape 3 (b'a' ∷ 255 ∷ b'b' ∷ []) init io 0 init_data (omega arith)

input-frame_example : input init io 0 (frame (44 ∷ 2 ∷ 255 ∷ []) ++ b'x' ∷ []) ≡ (
    let (s', io') = on_subneg (read init (44 ∷ 2 ∷ 255 ∷ [])) io 0 in
    input (record s' { st = st_data }) io' 0 (b'x' ∷ []))
input-frame_example = input-frame (44 ∷ 2 ∷ 255 ∷ []) init io 0 (b'x' ∷ []) init_data (omega arith)

abbrev big : List ℕ
big = replicate 70 b'x'

input-frame_oversized_example :
    input init io 0 (frame big ++ b'o' ∷ [])
    ≡ input
        (record init { sb = take sb_max big; sb_overflow = true; st = st_data })
        io
        0
        (b'o' ∷ [])
input-frame_oversized_example =
    input-frame_oversized big init io 0 (b'o' ∷ []) init_data (omega arith)

input-IsBounded_example :
    IsBounded (input init io 0 (255 ∷ 250 ∷ 44 ∷ [])).0 (input init io 0 (255 ∷ 250 ∷ 44 ∷ [])).1
    × SameRoom io (input init io 0 (255 ∷ 250 ∷ 44 ∷ [])).1
input-IsBounded_example = input-IsBounded (255 ∷ 250 ∷ 44 ∷ []) init io 0 start
  where
    start : IsBounded init io
    start =
        unfold init in
        record { sb_fits = omega arith; out_fits = omega arith; reply_fits = omega arith }

known : KnownOptions init
unfolding init
known = record { we = inl refl; they = inl refl }

accepted : we_accept 3 ≡ true
unfolding we_accept
accepted = refl
