-- ===== src/Rfc2217.antt =====
-- core/rfc2217_proto.{h,c}, the server side of RFC 2217 without its sockets: `rfc2217_t` is the
-- record `Session`, `rfc2217_io_t` is `Io`, and a byte is a number below 256.
-- A buffer with its length is the list of the bytes written so far, with its `max` beside it.
pub mod Handlers
mod Options
pub mod Framing
mod Replies
mod Bounds
mod Tests
use svs_bridge.Base.{
  ℕ, ◌+◌, ◌-◌, ◌*◌, ◌/◌, ◌%◌, ◌^◌, Bool, true, false, ◌&&◌, ◌||◌, not, List, [], ◌∷◌, ◌++◌, ltb,
  leb, ◌==◌, if◌then◌else◌, length, get_or, bit_and, bit_or,
}

abbrev pub iac : ℕ
iac = 255

abbrev pub dont : ℕ
dont = 254

-- `DO`
abbrev pub do_it : ℕ
do_it = 253

abbrev pub wont : ℕ
wont = 252

abbrev pub will : ℕ
will = 251

abbrev pub sb_begin : ℕ
sb_begin = 250

abbrev pub sb_end : ℕ
sb_end = 240

abbrev pub opt_binary : ℕ
opt_binary = 0

abbrev pub opt_sga : ℕ
opt_sga = 3

abbrev pub opt_com_port : ℕ
opt_com_port = 44

abbrev pub sb_max : ℕ
sb_max = 64

-- "SVS Bridge"
abbrev pub signature : List ℕ
signature = b'S' ∷ b'V' ∷ b'S' ∷ b' ' ∷ b'B' ∷ b'r' ∷ b'i' ∷ b'd' ∷ b'g' ∷ b'e' ∷ []

pub data St : Type 0 where
  st_data st_iac st_verb st_sb st_sb_iac : St

pub record Session : Type 0 where
  pub st : St
  pub verb : ℕ
  pub sb : List ℕ
  pub sb_overflow : Bool
  pub options_we : ℕ
  pub options_they : ℕ
  pub baud : ℕ
  pub datasize : ℕ
  pub parity : ℕ
  pub stopsize : ℕ
  pub dtr : Bool

pub record Io : Type 0 where
  pub out : List ℕ
  pub data_max : ℕ
  pub reply : List ℕ
  pub reply_max : ℕ
  pub dtr_raised : Bool

unfoldable pub we_accept : ℕ → Bool
we_accept opt = opt == opt_binary || opt == opt_sga

unfoldable pub they_accept : ℕ → Bool
they_accept opt = opt == opt_binary || opt == opt_sga || opt == opt_com_port

unfoldable pub bit : ℕ → ℕ
bit opt = if ltb opt 32 then 2 ^ opt else 0

-- `x & b` as a condition, `x |= b` and `x &= ~b` on a `uint32_t`.
abbrev pub has : ℕ → ℕ → Bool
has x b = not (bit_and x b == 0)

abbrev pub with : ℕ → ℕ → ℕ
with x b = bit_or x b

abbrev pub without : ℕ → ℕ → ℕ
without x b = bit_and x (2 ^ 32 - 1 - b)

-- A byte for the SVS, if there is room.
unfoldable pub put_data : Io → ℕ → Io
put_data io b = if ltb (length io.out) io.data_max then record io { out = io.out ++ b ∷ [] } else io

unfoldable pub put : Io → ℕ → Io
put io b =
    if ltb (length io.reply) io.reply_max then record io { reply = io.reply ++ b ∷ [] } else io

unfoldable pub put_cmd : Io → ℕ → ℕ → Io
put_cmd io verb opt = put (put (put io iac) verb) opt

-- The loop of `put_cpo`: the payload with 0xFF doubled.
unfoldable pub put_payload : Io → List ℕ → Io
put_payload io [] = io
put_payload io (b ∷ bs) = put_payload (if b == iac then put (put io b) iac else put io b) bs

unfoldable pub put_cpo : Io → ℕ → List ℕ → Io
put_cpo io cmd payload =
    let head = put (put (put (put io iac) sb_begin) opt_com_port) ((cmd + 100) % 256) in
    put (put (put_payload head payload) iac) sb_end

unfoldable pub init : Session
init = record {
  st = st_data;
  verb = 0;
  sb = [];
  sb_overflow = false;
  options_we = 0;
  options_they = 0;
  baud = 9600;
  datasize = 8;
  parity = 1;
  stopsize = 1;
  dtr = false;
}

-- `{.reply = out, .reply_max = max}`.
abbrev pub reply_only : ℕ → Io
reply_only max = record { out = []; data_max = 0; reply = []; reply_max = max; dtr_raised = false }

-- `rfc2217_greeting` into a buffer of `max` bytes: the session, and what was written.
unfoldable pub greeting : Session → ℕ → Session × List ℕ
unfolding bit put_cmd
greeting s max =
    let io = reply_only max in
    let offered =
      put_cmd
        (put_cmd (put_cmd (put_cmd (put_cmd io will opt_binary) do_it opt_binary) will opt_sga)
          do_it opt_sga)
        do_it opt_com_port in
    let both = bit_or (bit opt_binary) (bit opt_sga) in
    (
      record s { options_we = with s.options_we both; options_they = with s.options_they both },
      offered.reply,
    )
