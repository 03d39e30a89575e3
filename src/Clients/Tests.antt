-- ===== src/Clients/Tests.antt =====
-- A socket that takes three bytes at a time, and the theorem on it.
use svs_bridge.Base.{
  ℕ, zero, suc, ◌≡◌, refl, ap, true, false, List, [], ◌∷◌, ◌++◌, arith, length, take, replicate,
  length-take, none,
}
use svs_bridge.Rfc2217.{Io, init, st_data}
use svs_bridge.Rfc2217.Handlers.{escape, input}
use svs_bridge.Clients.{Socket, send_from, text_from, send_text}
use svs_bridge.Clients.Lines.{Client}
use svs_bridge.Clients.Slots.{Slot, Peer, pick, add_client, restart_for_dtr}
use svs_bridge.Clients.Room.{
  IsPicked, is_greeted, Entered, add_client-IsPicked, Raise, restarts, AreApart, restarts-AreApart,
}
use svs_bridge.Base.{some, get_elem?, ◌≢◌, false}
use svs_bridge.Clients.Sending.{IsWire, send_text-input}

abbrev threes : Socket (List ℕ)
threes = record { send = λ fd bytes w. (length (take 3 bytes), w ++ take 3 bytes) }

take_self : (n : ℕ) (bytes : List ℕ) → take n bytes ≡ take (length (take n bytes)) bytes
take_self zero bytes = refl
take_self (suc n) [] = refl
take_self (suc n) (b ∷ bs) = ap (◌∷◌ b) (take_self n bs)

threes-IsWire : IsWire threes 5 (λ w. w)
threes-IsWire = record {
  no_more = λ bytes w. omega (arith, length-take 3 bytes);
  in_order = λ bytes w. ap (λ x. w ++ x) (take_self 3 bytes);
}

abbrev text : List ℕ
text = 65 ∷ 255 ∷ replicate 200 66

abbrev peer : Io
peer = record { out = []; data_max = 256; reply = []; reply_max = 256; dtr_raised = false }

-- A double 0xFF, sent in two pieces.
sent : send_text threes 5 0 (65 ∷ 66 ∷ 255 ∷ []) [] ≡ (true, 4, 65 ∷ 66 ∷ 255 ∷ 255 ∷ [])
unfolding send_from text_from escape
sent = refl

init_data : init.st ≡ st_data
unfolding init
init_data = refl

send_text-input_example :
    ((send_text threes 5 0 text []).0 ≡ true)
    × (input init peer 0 (send_text threes 5 0 text []).2 ≡ (init, record peer { out = text }))
send_text-input_example =
    send_text-input threes-IsWire (λ b bs w. omega arith) 0 text [] init peer 0 refl init_data
      (omega arith)

abbrev quiet : Client
quiet = record {
  commands = 0;
  refused = 0;
  line = [];
  echo = record { input = none; hold = []; dropped = 0 };
  echo_ms = 0;
}

abbrev slot : ℕ → Slot
slot since = record {
  fd = some 9;
  ip = [];
  port = 0;
  since_ms = since;
  last_rx_ms = since;
  rx = 0;
  tx = 0;
  client = quiet;
  proto = init;
  rx_pos = 0;
  modem_sent = none;
}

-- All three are taken; the second is the oldest.
abbrev full : List Slot
full = slot 30 ∷ slot 10 ∷ slot 20 ∷ []

second : pick full ≡ 1
unfolding pick
second = refl

abbrev newcomer : Peer
newcomer = record { fd = 4; ip = []; port = 50000 }

add_client-IsPicked_example :
    ((c : Slot) × (d : Slot) × IsPicked full c
      × (get_elem? (add_client threes (λ fd w. w) newcomer 40 0 full []).0 (pick full) ≡ some d)
      × Entered threes
          (λ fd w. w)
          newcomer
          40
          0
          (is_greeted threes (λ fd w. w) newcomer 40 0 c [])
          d)
    × (length (add_client threes (λ fd w. w) newcomer 40 0 full []).0 ≡ 3)
    × ((j : ℕ)
        → j ≢ pick full
        → get_elem? (add_client threes (λ fd w. w) newcomer 40 0 full []).0 j ≡ get_elem? full j)
add_client-IsPicked_example =
    add_client-IsPicked threes (λ fd w. w) newcomer 40 0 full [] (omega arith)

-- The second is too soon after the first.
abbrev raises : List Raise
raises =
    record { now = 5000; busy = false; can = true }
    ∷ record { now = 7000; busy = false; can = true }
    ∷ record { now = 9000; busy = false; can = true }
    ∷ []

two_restarts : restarts 0 raises ≡ 5000 ∷ 9000 ∷ []
unfolding restarts restart_for_dtr
two_restarts = refl

restarts-AreApart_example : AreApart 0 (restarts 0 raises)
restarts-AreApart_example = restarts-AreApart 0 raises
