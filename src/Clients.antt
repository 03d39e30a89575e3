-- ===== src/Clients.antt =====
-- platform/esp32/main/rfc2217.cpp: the TCP clients of the RFC 2217 server. A socket's `send` is a parameter.
pub mod Lines
mod Sending
mod Slots
mod Room
mod Tests
use svs_bridge.Base.{
  ℕ, zero, suc, ◌+◌, ◌%◌, ◌^◌, Bool, true, false, List, [], ◌∷◌, ◌==◌, if◌then◌else◌, length, drop,
}
use svs_bridge.Rfc2217.Handlers.{escape}

-- `send` of lwIP: the number of the bytes that it took, 0 where it failed.
pub record Socket (W : Type 0) : Type 0 where
  pub send : ℕ → List ℕ → W → ℕ × W

abbrev pub text_max : ℕ
text_max = 128

module _ {W : Type 0} (socket : Socket W) (fd : ℕ) where
  -- `send_all`, with fuel for one round a byte.
  unfoldable pub send_from : ℕ → List ℕ → W → Bool × W
  send_from fuel [] w = (true, w)
  send_from zero (b ∷ bs) w = (false, w)
  send_from (suc fuel) (b ∷ bs) w =
      let (n, w') = socket.send fd (b ∷ bs) w in
      let rest = send_from fuel (drop n (b ∷ bs)) w' in if n == 0 then (false, w') else rest

  abbrev pub send_all : List ℕ → W → Bool × W
  send_all bytes w = send_from (length bytes) bytes w

  -- `send_to`: `tx` is the client's count of the bytes sent.
  abbrev pub send_to : ℕ → List ℕ → W → Bool × ℕ × W
  send_to tx bytes w = let (done, w') = send_all bytes w in (done, (tx + length bytes) % 2 ^ 32, w')

  -- `send_text`, with fuel for one round a byte.
  unfoldable pub text_from : ℕ → ℕ → List ℕ → W → Bool × ℕ × W
  text_from fuel tx [] w = (true, tx, w)
  text_from zero tx (b ∷ bs) w = (false, tx, w)
  text_from (suc fuel) tx (b ∷ bs) w =
      let (out, used) = escape 0 text_max (b ∷ bs) in
      let (done, tx', w') = send_to tx out w in
      let rest = text_from fuel tx' (drop used (b ∷ bs)) w' in
      if done then rest else (false, tx', w')

  abbrev pub send_text : ℕ → List ℕ → W → Bool × ℕ × W
  send_text tx text w = text_from (length text) tx text w
