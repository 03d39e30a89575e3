-- ===== src/Dns.antt =====
-- platform/esp32/main/dns_server.cpp: the captive DNS, which answers every query for an IPv4 address with the
-- bridge's own. A buffer is the list of its 512 bytes, beside the number of those that arrived.
mod Walk
mod Replies
mod Tests
use svs_bridge.Base.{
  ℕ, zero, suc, ◌+◌, ◌*◌, ◌/◌, ◌%◌, ◌^◌, Bool, true, false, not, ◌&&◌, ◌||◌, List, [], ◌∷◌, Option,
  none, some, ltb, ◌==◌, if◌then◌else◌, get_or, set,
}

abbrev pub header_len : ℕ
header_len = 12

abbrev pub max_len : ℕ
max_len = 512

abbrev pub qtype_a : ℕ
qtype_a = 1

abbrev pub qclass_in : ℕ
qclass_in = 1

abbrev pub answer_len : ℕ
answer_len = 16

abbrev pub read_u16 : List ℕ → ℕ → ℕ
read_u16 buf i = get_or buf i 0 * 2 ^ 8 + get_or buf (i + 1) 0

-- Bytes written one after another: `memcpy`.
abbrev pub put : List ℕ → ℕ → List ℕ → List ℕ
put buf i [] = buf
put buf i (b ∷ bs) = put (set buf i b) (i + 1) bs

abbrev pub two_bytes : ℕ → List ℕ
two_bytes v = (v / 2 ^ 8) ∷ (v % 256) ∷ []

unfoldable pub write_u16 : List ℕ → ℕ → ℕ → List ℕ
write_u16 buf i v = put buf i (two_bytes v)

-- The loop over the labels of the name, for `fuel` of them at most: where it ends, or that there is a
-- compression pointer.
unfoldable pub walk : ℕ → List ℕ → ℕ → ℕ → Option ℕ
walk zero buf len pos = some pos
walk (suc fuel) buf len pos =
    let b = get_or buf pos 0 in
    let rest = walk fuel buf len (pos + (b + 1)) in
    if not (ltb pos len && not (b == 0))
    then some pos
    else if not (b / 2 ^ 6 % 4 == 0)
    then none
    else rest

abbrev pub reply_header : Bool → List ℕ → List ℕ
reply_header answer buf =
    write_u16 (write_u16 (write_u16 (write_u16 buf 2 0x8180) 6 (if answer then 1 else 0)) 8 0) 10 0

unfoldable pub reply_answer : List ℕ → List ℕ → ℕ → List ℕ
reply_answer ip buf a =
    let buf1 = write_u16 buf a 0xC00C in
    let buf2 = write_u16 buf1 (a + 2) qtype_a in
    let buf3 = write_u16 buf2 (a + 4) qclass_in in
    let buf4 = write_u16 buf3 (a + 6) 0 in
    let buf5 = write_u16 buf4 (a + 8) 60 in
    let buf6 = write_u16 buf5 (a + 10) 4 in put buf6 (a + 12) ip

-- From the end of the name on.
unfoldable pub reply_from : List ℕ → List ℕ → ℕ → ℕ → List ℕ × ℕ
reply_from ip buf len pos =
    let answer = read_u16 buf pos == qtype_a && read_u16 buf (pos + 2) == qclass_in in
    let end = pos + 4 in
    if ltb len (pos + 4)
    then (buf, 0)
    else if answer && ltb max_len (end + answer_len)
    then (buf, 0)
    else if answer
    then (reply_answer ip (reply_header true buf) end, end + answer_len)
    else (reply_header false buf, end)

abbrev pub reply_named : List ℕ → List ℕ → ℕ → Option ℕ → List ℕ × ℕ
reply_named ip buf len none = (buf, 0)
reply_named ip buf len (some pos) = reply_from ip buf len (pos + 1)

-- `build_reply`: the buffer after it, and the number of bytes to send, 0 for none.
unfoldable pub build_reply : List ℕ → List ℕ → ℕ → List ℕ × ℕ
build_reply ip buf len =
    if ltb len header_len
    then (buf, 0)
    else if not (read_u16 buf 2 / 2 ^ 15 % 2 == 0) || not (read_u16 buf 4 == 1)
    then (buf, 0)
    else reply_named ip buf len (walk len buf len header_len)
