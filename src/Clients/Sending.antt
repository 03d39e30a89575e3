-- ===== src/Clients/Sending.antt =====
-- platform/esp32/main/rfc2217.cpp: what a client is sent.
use svs_bridge.Base.{
  ℕ, zero, suc, ◌+◌, ◌≤◌, ◌<◌, ◌≡◌, inl, inr, refl, ap, sym, ◌∙◌, true, false, List, [], ◌∷◌, ◌++◌,
  append-nil, append_assoc, arith, ◌==◌, Bool-cases, length, length-drop, take, drop,
  take-append-drop,
}
use svs_bridge.Rfc2217.{Session, Io, st_data}
use svs_bridge.Rfc2217.Handlers.{escape, input}
use svs_bridge.Rfc2217.Framing.{doubled, escape-doubled, input-doubled}
use svs_bridge.Clients.{Socket, text_max, send_from, send_all, send_to, text_from, send_text}

-- `send` takes bytes from the front, and no more than there are; `wire` is what went out.
pub record IsWire {W : Type 0} (socket : Socket W) (fd : ℕ) (wire : W → List ℕ) : Type 0 where
  pub no_more : (bytes : List ℕ) (w : W) → (socket.send fd bytes w).0 ≤ length bytes
  pub in_order :
      (bytes : List ℕ) (w : W)
      → wire (socket.send fd bytes w).1 ≡ wire w ++ take (socket.send fd bytes w).0 bytes

doubled-append : (xs ys : List ℕ) → doubled (xs ++ ys) ≡ doubled xs ++ doubled ys
doubled-append [] ys = refl
doubled-append (x ∷ xs) ys = ground (arith, doubled-append xs ys)

input_end : (s : Session) (io : Io) (modem : ℕ) → input s io modem [] ≡ (s, io)
unfolding input
input_end s io modem = refl

escape_some : (b : ℕ) (bs : List ℕ) → 0 < (escape 0 text_max (b ∷ bs)).1
unfolding escape
escape_some b bs = ground arith

module _ {W : Type 0} {socket : Socket W} {fd : ℕ} {wire : W → List ℕ}
    (law : IsWire socket fd wire) where
  send_from_all :
      (fuel : ℕ) (bytes : List ℕ) (w : W)
      → (send_from socket fd fuel bytes w).0 ≡ true
      → wire (send_from socket fd fuel bytes w).1 ≡ wire w ++ bytes
  unfolding send_from
  send_from_all fuel [] w h = sym (append-nil (wire w))
  send_from_all zero (b ∷ bs) w h = absurd (ground (arith, h))
  send_from_all (suc fuel) (b ∷ bs) w h =
      let n = (socket.send fd (b ∷ bs) w).0 in
      let w' = (socket.send fd (b ∷ bs) w).1 in
      elim (Bool-cases ((socket.send fd (b ∷ bs) w).0 == 0)) [
        | inl t ↦ absurd (ground (arith, rw t at h))
        | inr f ↦ rw f (
            send_from_all fuel (drop n (b ∷ bs)) w' (rw f at h)
            ∙ ap (λ x. x ++ drop n (b ∷ bs)) (law.in_order (b ∷ bs) w)
            ∙ append_assoc (wire w) (take n (b ∷ bs)) (drop n (b ∷ bs))
            ∙ ap (λ x. wire w ++ x) (take-append-drop n (b ∷ bs)))
      ]

  text_from_all :
      (fuel tx : ℕ) (text : List ℕ) (w : W)
      → (text_from socket fd fuel tx text w).0 ≡ true
      → wire (text_from socket fd fuel tx text w).2 ≡ wire w ++ doubled text
  unfolding text_from
  text_from_all fuel tx [] w h = sym (append-nil (wire w))
  text_from_all zero tx (b ∷ bs) w h = absurd (ground (arith, h))
  text_from_all (suc fuel) tx (b ∷ bs) w h =
      let (out, used) = escape 0 text_max (b ∷ bs) in
      let (done, tx', w') = send_to socket fd tx out w in
      elim (Bool-cases (send_all socket fd (escape 0 text_max (b ∷ bs)).0 w).0) [
        | inr f ↦ absurd (ground (arith, rw f at h))
        | inl t ↦ rw t (
            text_from_all fuel tx' (drop used (b ∷ bs)) w' (rw t at h)
            ∙ ap (λ x. x ++ doubled (drop used (b ∷ bs))) (send_from_all (length out) out w t)
            ∙ append_assoc (wire w) out (doubled (drop used (b ∷ bs)))
            ∙ ap (λ x. wire w ++ (x ++ doubled (drop used (b ∷ bs))))
                (escape-doubled 0 text_max (b ∷ bs))
            ∙ ap (λ x. wire w ++ x)
                (sym (doubled-append (take used (b ∷ bs)) (drop used (b ∷ bs)))
                  ∙ ap doubled (take-append-drop used (b ∷ bs))))
      ]

  module _ (takes : (b : ℕ) (bs : List ℕ) (w : W) → 0 < (socket.send fd (b ∷ bs) w).0) where
    send_from_done :
        (fuel : ℕ) (bytes : List ℕ) (w : W)
        → length bytes ≤ fuel
        → (send_from socket fd fuel bytes w).0 ≡ true
    unfolding send_from
    send_from_done fuel [] w enough = refl
    send_from_done zero (b ∷ bs) w enough = absurd (omega arith)
    send_from_done (suc fuel) (b ∷ bs) w enough =
        let n = (socket.send fd (b ∷ bs) w).0 in
        let some_taken : (socket.send fd (b ∷ bs) w).0 == 0 ≡ false =
          ground (arith, takes b bs w) in
        rw some_taken (
          send_from_done fuel (drop n (b ∷ bs)) (socket.send fd (b ∷ bs) w).1
            (omega (arith, takes b bs w, length-drop n (b ∷ bs))))

    text_from_done :
        (fuel tx : ℕ) (text : List ℕ) (w : W)
        → length text ≤ fuel
        → (text_from socket fd fuel tx text w).0 ≡ true
    unfolding text_from
    text_from_done fuel tx [] w enough = refl
    text_from_done zero tx (b ∷ bs) w enough = absurd (omega arith)
    text_from_done (suc fuel) tx (b ∷ bs) w enough =
        let (out, used) = escape 0 text_max (b ∷ bs) in
        let (done, tx', w') = send_to socket fd tx out w in
        rw (send_from_done (length out) out w (omega arith)) (
          text_from_done fuel tx' (drop used (b ∷ bs)) w'
            (omega (arith, escape_some b bs, length-drop used (b ∷ bs))))

    -- Over a connection that takes some of the bytes it is given, in order, send_text sends the whole text,
    -- whatever its length, and what went out is read by a peer in its data state, with room for it, as that
    -- text.
    pub send_text-input :
        (tx : ℕ) (text : List ℕ) (w : W) (s : Session) (io : Io) (modem : ℕ)
        → wire w ≡ []
        → s.st ≡ st_data
        → length io.out + length text ≤ io.data_max
        → ((send_text socket fd tx text w).0 ≡ true)
          × (input s io modem (wire (send_text socket fd tx text w).2)
              ≡ (s, record io { out = io.out ++ text }))
    send_text-input tx text w s io modem quiet state room =
        let done = text_from_done (length text) tx text w (omega arith) in
        let sent : wire (send_text socket fd tx text w).2 ≡ doubled text ++ [] =
          text_from_all (length text) tx text w done
          ∙ ap (λ x. x ++ doubled text) quiet
          ∙ sym (append-nil (doubled text)) in
        (
          done,
          ap (input s io modem) sent
              ∙ input-doubled text s io modem [] state room
              ∙ input_end s (record io { out = io.out ++ text }) modem,
        )
