-- ===== src/Clients/Slots.antt =====
-- platform/esp32/main/rfc2217.cpp: the slots of the clients, and the restart of the SVS that a client's DTR
-- asks for. Closing a socket is a parameter; the options that lwIP is given for it are left out.
use svs_bridge.Base.{
  ℕ, suc, ◌+◌, Bool, true, false, not, ◌||◌, List, [], ◌∷◌, Option, none, some, ltb, if◌then◌else◌,
  get_elem?, set,
}
use svs_bridge.Rfc2217.{Session, greeting}
use svs_bridge.Echo
use svs_bridge.Rfc2217
use svs_bridge.Clients.{Socket, send_to}
use svs_bridge.Clients.Lines.{Client}

abbrev pub max_clients : ℕ
max_clients = 3

abbrev pub restart_min_gap_ms : ℕ
restart_min_gap_ms = 4000

-- `client_t`; a slot whose `fd` is -1 is free, and its `fd` is `none` here.
pub record Slot : Type 0 where
  pub fd : Option ℕ
  pub ip : List ℕ
  pub port : ℕ
  pub since_ms : ℕ
  pub last_rx_ms : ℕ
  pub rx : ℕ
  pub tx : ℕ
  pub client : Client
  pub proto : Session
  pub rx_pos : ℕ
  pub modem_sent : Option ℕ

-- A connection that was accepted.
pub record Peer : Type 0 where
  pub fd : ℕ
  pub ip : List ℕ
  pub port : ℕ

abbrev pub is_none : Option ℕ → Bool
is_none none = true
is_none (some fd) = false

abbrev pub is_free : Slot → Bool
is_free c = is_none c.fd

abbrev pub connected_count : List Slot → ℕ
connected_count [] = 0
connected_count (c ∷ cs) = let rest = connected_count cs in if is_free c then rest else suc rest

abbrev pub first_free : ℕ → List Slot → Option ℕ
first_free i [] = none
first_free i (c ∷ cs) = let rest = first_free (suc i) cs in if is_free c then some i else rest

-- The oldest of the slot `best`, connected at `since`, and the slots from `i` on.
abbrev pub oldest_from : ℕ → ℕ → ℕ → List Slot → ℕ
oldest_from best since i [] = best
oldest_from best since i (c ∷ cs) =
    let other = oldest_from i c.since_ms (suc i) cs in
    let same = oldest_from best since (suc i) cs in if ltb c.since_ms since then other else same

abbrev pub oldest : List Slot → ℕ
oldest [] = 0
oldest (c ∷ cs) = oldest_from 0 c.since_ms 1 cs

-- The slot of a new client.
abbrev pub or_oldest : Option ℕ → List Slot → ℕ
or_oldest none cs = oldest cs
or_oldest (some i) cs = i

unfoldable pub pick : List Slot → ℕ
pick cs = or_oldest (first_free 0 cs) cs

-- `drop_client`; a free slot is left as it is.
abbrev pub dropped : Slot → Slot
dropped c = record c { fd = none; ip = []; client = record (Slot.client c) { line = [] } }

abbrev pub close_if : {W : Type 0} → (ℕ → W → W) → Option ℕ → W → W
close_if close none w = w
close_if close (some fd) w = close fd w

unfoldable pub drop_client : {W : Type 0} → (ℕ → W → W) → Slot → W → Slot × W
drop_client close c w = (if is_free c then c else dropped c, close_if close c.fd w)

-- The fields that a new connection sets.
abbrev pub fresh : Peer → ℕ → ℕ → Session → Slot → Slot
fresh peer now rx_head proto c = record c {
  fd = some peer.fd;
  ip = peer.ip;
  port = peer.port;
  since_ms = now;
  last_rx_ms = now;
  rx = 0;
  tx = 0;
  client = record (Slot.client c) { commands = 0; refused = 0; line = []; echo = Echo.init };
  proto = proto;
  rx_pos = rx_head;
  modem_sent = none;
}

-- The greeting is sent; where that fails, the client is dropped again.
unfoldable pub greet : {W : Type 0} → Socket W → (ℕ → W → W) → Peer → ℕ → ℕ → Slot → W → Slot × W
greet socket close peer now rx_head c w =
    let (proto, bytes) = greeting Rfc2217.init 128 in
    let c' = fresh peer now rx_head proto c in
    let (sent, tx, w') = send_to socket peer.fd c'.tx bytes w in
    if sent then (record c' { tx = tx }, w') else drop_client close (record c' { tx = tx }) w'

abbrev pub put : {W : Type 0} → ℕ → List Slot → Slot × W → List Slot × W
put i cs (c, w) = (set cs i c, w)

abbrev pub with_slot :
    {W : Type 0} → Option Slot → ℕ → List Slot → W → (Slot → W → Slot × W) → List Slot × W
with_slot none i cs w f = (cs, w)
with_slot (some c) i cs w f = put i cs (f c w)

unfoldable pub add_client :
    {W : Type 0} → Socket W → (ℕ → W → W) → Peer → ℕ → ℕ → List Slot → W → List Slot × W
add_client socket close peer now rx_head cs w =
    with_slot (get_elem? cs (pick cs)) (pick cs) cs w
      (λ c w1. let r = drop_client close c w1 in greet socket close peer now rx_head r.0 r.1)

-- `restart_for_dtr`, and whether it restarted the SVS. `ready` is last_ms + RESTART_MIN_GAP_MS, 0 at first;
-- `busy` is svs_settings::busy, `done` whether svs_usb::restart_svs succeeds.
unfoldable pub restart_for_dtr : ℕ → Bool → Bool → ℕ → Bool × ℕ
restart_for_dtr now busy done ready =
    if ltb now ready || (busy || not done) then (false, ready) else (true, now + restart_min_gap_ms)
