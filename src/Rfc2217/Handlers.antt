-- ===== src/Rfc2217/Handlers.antt =====
-- core/rfc2217_proto.c: what the server does on an option verb, on a subnegotiation and on each byte.
use svs_bridge.Base.{
  ℕ, suc, ◌+◌, ◌*◌, ◌/◌, ◌%◌, true, false, ◌||◌, not, List, [], ◌∷◌, ◌++◌, ltb, leb, ◌==◌,
  if◌then◌else◌, length, get_or,
}
use svs_bridge.Rfc2217.{
  St, st_data, st_iac, st_verb, st_sb, st_sb_iac, Session, Io, iac, dont, do_it, wont, will,
  sb_begin, sb_end, opt_com_port, sb_max, signature, bit, has, with, without, we_accept,
  they_accept, put_data, put_cmd, put_cpo, reply_only,
}

-- A handler's result: the session and the buffers.
abbrev pub After : Type 0
After = Session × Io

-- The four cases of the `switch`, for an option other than COM-PORT.
unfoldable pub on_will : Session → ℕ → Io → After
unfolding they_accept bit
on_will s opt io =
    if they_accept opt
    then (
      record s { options_they = with s.options_they (bit opt) },
      if has s.options_they (bit opt) then io else put_cmd io do_it opt,
    )
    else (s, put_cmd io dont opt)

unfoldable pub on_wont : Session → ℕ → Io → After
unfolding bit
on_wont s opt io = (
  record s { options_they = without s.options_they (bit opt) },
  if has s.options_they (bit opt) then put_cmd io dont opt else io,
)

unfoldable pub on_do : Session → ℕ → Io → After
unfolding we_accept bit
on_do s opt io =
    if we_accept opt
    then (
      record s { options_we = with s.options_we (bit opt) },
      if has s.options_we (bit opt) then io else put_cmd io will opt,
    )
    else (s, put_cmd io wont opt)

unfoldable pub on_dont : Session → ℕ → Io → After
unfolding bit
on_dont s opt io = (
  record s { options_we = without s.options_we (bit opt) },
  if has s.options_we (bit opt) then put_cmd io wont opt else io,
)

unfoldable pub on_com_port : Session → ℕ → Io → After
on_com_port s verb io =
    if verb == will
    then (s, put_cmd io do_it opt_com_port)
    else if verb == do_it
    then (s, put_cmd io wont opt_com_port)
    else (s, io)

unfoldable pub on_verb : Session → ℕ → ℕ → Io → After
on_verb s verb opt io =
    if opt == opt_com_port
    then on_com_port s verb io
    else if verb == will
    then on_will s opt io
    else if verb == wont
    then on_wont s opt io
    else if verb == do_it
    then on_do s opt io
    else if verb == dont
    then on_dont s opt io
    else (s, io)

-- A big-endian `uint32_t`, and its bytes.
abbrev pub be32 : List ℕ → ℕ
be32 arg =
    get_or arg 0 0 * 16777216 + get_or arg 1 0 * 65536 + get_or arg 2 0 * 256 + get_or arg 3 0

abbrev pub be32_bytes : ℕ → List ℕ
be32_bytes v = (v / 16777216 % 256) ∷ (v / 65536 % 256) ∷ (v / 256 % 256) ∷ (v % 256) ∷ []

unfoldable pub set_baudrate : Session → Io → ℕ → List ℕ → After
set_baudrate s io cmd arg =
    if leb 4 (length arg)
    then (let baud = if be32 arg == 0 then s.baud else be32 arg in
        (record s { baud = baud }, put_cpo io cmd (be32_bytes baud)))
    else (s, io)

-- What SET-DATASIZE, SET-PARITY and SET-STOPSIZE leave in their field.
abbrev pub asked : ℕ → ℕ → ℕ
asked old v = if v == 0 then old else v

unfoldable pub set_field : Session → Io → ℕ → List ℕ → After
set_field s io cmd [] = (s, io)
set_field s io cmd (v ∷ _) =
    if cmd == 2
    then (record s { datasize = asked s.datasize v }, put_cpo io cmd (asked s.datasize v ∷ []))
    else if cmd == 3
    then (record s { parity = asked s.parity v }, put_cpo io cmd (asked s.parity v ∷ []))
    else (record s { stopsize = asked s.stopsize v }, put_cpo io cmd (asked s.stopsize v ∷ []))

unfoldable pub set_control : Session → Io → ℕ → List ℕ → After
set_control s io cmd [] = (s, io)
set_control s io cmd (v ∷ _) =
    if v == 8
    then (
      record s { dtr = true },
      put_cpo (record io { dtr_raised = io.dtr_raised || not s.dtr }) cmd (v ∷ []),
    )
    else if v == 9
    then (record s { dtr = false }, put_cpo io cmd (v ∷ []))
    else (s, put_cpo io cmd (v ∷ []))

-- "acknowledged as asked"
unfoldable pub acknowledge : Io → ℕ → List ℕ → Io
acknowledge io cmd [] = io
acknowledge io cmd (v ∷ _) = put_cpo io cmd (v ∷ [])

unfoldable pub on_signature : Io → ℕ → List ℕ → Io
on_signature io cmd [] = put_cpo io cmd signature
on_signature io cmd (_ ∷ _) = io

-- The `switch` of `on_subneg`.
unfoldable pub on_command : Session → Io → ℕ → ℕ → List ℕ → After
on_command s io modem cmd arg =
    if cmd == 0
    then (s, on_signature io cmd arg)
    else if cmd == 1
    then set_baudrate s io cmd arg
    else if cmd == 2 || cmd == 3 || cmd == 4
    then set_field s io cmd arg
    else if cmd == 7
    then (s, put_cpo io cmd (modem ∷ []))
    else if cmd == 6
    then (s, put_cpo io cmd (0x60 ∷ []))
    else if cmd == 8 || cmd == 9
    then (s, io)
    else if cmd == 5
    then set_control s io cmd arg
    else (s, acknowledge io cmd arg)

unfoldable pub on_body : Session → Io → ℕ → List ℕ → After
on_body s io modem (opt ∷ cmd ∷ arg) =
    if opt == opt_com_port then on_command s io modem cmd arg else (s, io)
on_body s io modem _ = (s, io)

unfoldable pub on_subneg : Session → Io → ℕ → After
on_subneg s io modem = if s.sb_overflow then (s, io) else on_body s io modem s.sb

-- A byte of a subnegotiation, if there is room.
unfoldable pub push_sb : Session → ℕ → Session
push_sb s b =
    if ltb (length s.sb) sb_max
    then record s { sb = s.sb ++ b ∷ [] }
    else record s { sb_overflow = true }

abbrev to_data : After → After
to_data (s, io) = (record s { st = st_data }, io)

-- One round of the loop of `rfc2217_input`, by the parser's state.
unfoldable pub step_in : St → Session → Io → ℕ → ℕ → After
unfolding push_sb put_data
step_in st_data s io modem b =
    if b == iac then (record s { st = st_iac }, io) else (s, put_data io b)
step_in st_iac s io modem b =
    if b == iac
    then (record s { st = st_data }, put_data io iac)
    else if leb will b
    then (record s { verb = b; st = st_verb }, io)
    else if b == sb_begin
    then (record s { sb = []; sb_overflow = false; st = st_sb }, io)
    else (record s { st = st_data }, io)
step_in st_verb s io modem b = to_data (on_verb s s.verb b io)
step_in st_sb s io modem b =
    if b == iac then (record s { st = st_sb_iac }, io) else (push_sb s b, io)
step_in st_sb_iac s io modem b =
    if b == iac
    then (record (push_sb s iac) { st = st_sb }, io)
    else if b == sb_end
    then to_data (on_subneg s io modem)
    else (record s { st = st_sb }, io)

unfoldable pub input : Session → Io → ℕ → List ℕ → After
input s io modem [] = (s, io)
input s io modem (b ∷ bs) = let (s', io') = step_in s.st s io modem b in input s' io' modem bs

-- `rfc2217_modemstate` into a buffer of `max` bytes.
unfoldable pub modemstate : ℕ → ℕ → List ℕ
modemstate modem max = (put_cpo (reply_only max) 7 (modem ∷ [])).reply

-- `rfc2217_escape` into a buffer of `max` bytes, of which `o` are taken: the bytes written after
-- those, and `*used`.
unfoldable pub escape : ℕ → ℕ → List ℕ → List ℕ × ℕ
escape o max [] = ([], 0)
escape o max (b ∷ bs) =
    let need : ℕ = if b == iac then 2 else 1 in
    let rest = escape (o + need) max bs in
    if ltb max (o + need)
    then ([], 0)
    else (if b == iac then (iac ∷ iac ∷ rest.0, suc rest.1) else (b ∷ rest.0, suc rest.1))
