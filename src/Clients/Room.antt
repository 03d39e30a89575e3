-- ===== src/Clients/Room.antt =====
-- platform/esp32/main/rfc2217.cpp: a new client takes a free slot, or that of the oldest one; and how often a
-- client's DTR can restart the SVS.
use svs_bridge.Base.{
  ℕ, zero, suc, ◌+◌, ◌≤◌, ◌<◌, ◌≡◌, ◌≢◌, ◌⊎◌, inl, inr, refl, sym, ap, subst, ◌∙◌, Bool, true,
  false, not, ◌||◌, List, [], ◌∷◌, Option, none, some, arith, ltb, if◌then◌else◌, Bool-cases,
  length, get_elem?, set, length-set,
}
use svs_bridge.Rfc2217
use svs_bridge.Rfc2217.{greeting}
use svs_bridge.Clients.{Socket, send_to}
use svs_bridge.Clients.Slots.{
  Slot, Peer, is_free, first_free, oldest_from, oldest, or_oldest, pick, with_slot, drop_client,
  close_if, greet, add_client, restart_min_gap_ms, restart_for_dtr,
}

some-eq : {c d : Slot} → some c ≡ some d → c ≡ d
some-eq h = cc

get_elem?-set_ne :
    (cs : List Slot) (i j : ℕ) (c : Slot) → j ≢ i → get_elem? (set cs i c) j ≡ get_elem? cs j
get_elem?-set_ne [] i j c h = refl
get_elem?-set_ne (d ∷ cs) zero zero c h = absurd (h refl)
get_elem?-set_ne (d ∷ cs) zero (suc j) c h = refl
get_elem?-set_ne (d ∷ cs) (suc i) zero c h = refl
get_elem?-set_ne (d ∷ cs) (suc i) (suc j) c h = get_elem?-set_ne cs i j c (λ e. h (ap suc e))

get_elem?-set_self :
    (cs : List Slot) (i : ℕ) (c d : Slot)
    → get_elem? cs i ≡ some c
    → get_elem? (set cs i d) i ≡ some d
get_elem?-set_self [] i c d h = absurd (ground (arith, h))
get_elem?-set_self (c' ∷ cs) zero c d h = refl
get_elem?-set_self (c' ∷ cs) (suc i) c d h = get_elem?-set_self cs i c d h

-- Every slot is taken.
abbrev AllTaken : List Slot → Type 0
AllTaken cs = (j : ℕ) (d : Slot) → get_elem? cs j ≡ some d → is_free d ≡ false

first_free-cases :
    (i : ℕ) (cs : List Slot)
    → ((k : ℕ) × (c : Slot) × (first_free i cs ≡ some (i + k))
        × (get_elem? cs k ≡ some c)
        × (is_free c ≡ true))
      ⊎ ((first_free i cs ≡ none) × AllTaken cs)
first_free-cases i [] = inr (refl, λ j d h. absurd (ground (arith, h)))
first_free-cases i (c ∷ cs) = elim (Bool-cases (is_free c)) [
  | inl t ↦ inl (0, c, rw t (ap some (omega arith)), refl, t)
  | inr f ↦ elim (first_free-cases (suc i) cs) [
    | inl (k, d, found, at, free) ↦ inl (suc k, d, rw f (found ∙ ap some (omega arith)), at, free)
    | inr (gone, taken) ↦ inr (rw f gone, all_taken c cs f taken)
  ]
]
  where
    all_taken : (c : Slot) (cs : List Slot) → is_free c ≡ false → AllTaken cs → AllTaken (c ∷ cs)
    all_taken c cs f taken zero d h = ap is_free (sym (some-eq h)) ∙ f
    all_taken c cs f taken (suc j) d h = taken j d h

-- `since` is at most that of every slot.
abbrev IsBelow : ℕ → List Slot → Type 0
IsBelow since cs = (j : ℕ) (d : Slot) → get_elem? cs j ≡ some d → since ≤ d.since_ms

IsBelow-cons :
    (since : ℕ) (c : Slot) (cs : List Slot)
    → since ≤ c.since_ms
    → IsBelow since cs
    → IsBelow since (c ∷ cs)
IsBelow-cons since c cs low below zero d h =
    subst (λ (e : Slot). since ≤ e.since_ms) (some-eq h) low
IsBelow-cons since c cs low below (suc j) d h = below j d h

oldest_from-IsBelow :
    (best since i : ℕ) (cs : List Slot)
    → (s : ℕ) × (s ≤ since)
      × IsBelow s cs
      × (((oldest_from best since i cs ≡ best) × (s ≡ since))
          ⊎ ((k : ℕ) × (c : Slot) × (oldest_from best since i cs ≡ i + k)
              × (get_elem? cs k ≡ some c)
              × (c.since_ms ≡ s)))
oldest_from-IsBelow best since i [] =
    (since, omega arith, (λ j d h. absurd (ground (arith, h))), inl (refl, refl))
oldest_from-IsBelow best since i (c ∷ cs) = elim (Bool-cases (ltb c.since_ms since)) [
  | inl t ↦
      let (s, low, below, found) = oldest_from-IsBelow i c.since_ms (suc i) cs in
      (
        s,
        ground (arith, low, t),
        IsBelow-cons s c cs low below,
        elim found [
          | inl (same, eq) ↦ inr (0, c, rw t (same ∙ omega arith), refl, sym eq)
          | inr (k, d, at, got, eq) ↦ inr (suc k, d, rw t (at ∙ omega arith), got, eq)
        ],
      )
  | inr f ↦
      let (s, low, below, found) = oldest_from-IsBelow best since (suc i) cs in
      (
        s,
        low,
        IsBelow-cons s c cs (ground (arith, low, f)) below,
        elim found [
          | inl (same, eq) ↦ inl (rw f same, eq)
          | inr (k, d, at, got, eq) ↦ inr (suc k, d, rw f (at ∙ omega arith), got, eq)
        ],
      )
]

-- The slot that a new client takes: a free one, or, where all are taken, none is older.
pub record IsPicked (cs : List Slot) (c : Slot) : Type 0 where
  pub at : get_elem? cs (pick cs) ≡ some c
  pub free_or_oldest :
      (is_free c ≡ true)
      ⊎ ((j : ℕ) (d : Slot)
          → get_elem? cs j ≡ some d
          → (is_free d ≡ false) × (c.since_ms ≤ d.since_ms))

oldest-IsBelow :
    (c : Slot) (cs : List Slot)
    → (d : Slot) × (get_elem? (c ∷ cs) (oldest (c ∷ cs)) ≡ some d) × IsBelow d.since_ms (c ∷ cs)
oldest-IsBelow c cs =
    let (s, low, below, found) = oldest_from-IsBelow 0 c.since_ms 1 cs in
    elim found [
      | inl (same, eq) ↦ (
        c,
        ap (get_elem? (c ∷ cs)) same,
        subst (λ n. IsBelow n (c ∷ cs)) eq (IsBelow-cons s c cs low below),
      )
      | inr (k, d, at, got, eq) ↦
          let here : oldest (c ∷ cs) ≡ suc k = omega (arith, at) in
          (
            d,
            ap (get_elem? (c ∷ cs)) here ∙ got,
            subst (λ n. IsBelow n (c ∷ cs)) (sym eq) (IsBelow-cons s c cs low below),
          )
    ]

pick-IsPicked : (cs : List Slot) → 0 < length cs → (c : Slot) × IsPicked cs c
unfolding pick
pick-IsPicked [] some_slots = absurd (omega arith)
pick-IsPicked (c ∷ cs) some_slots = elim (first_free-cases 0 (c ∷ cs)) [
  | inl (k, d, found, at, free) ↦ (
    d,
    record {
      at =
          ap (λ o. get_elem? (c ∷ cs) (or_oldest o (c ∷ cs))) found
          ∙ ap (get_elem? (c ∷ cs)) (omega arith)
          ∙ at;
      free_or_oldest = inl free;
    },
  )
  | inr (gone, taken) ↦
      let (d, at, below) = oldest-IsBelow c cs in
      (
        d,
        record {
          at = ap (λ o. get_elem? (c ∷ cs) (or_oldest o (c ∷ cs))) gone ∙ at;
          free_or_oldest = inr (λ j e h. (taken j e h, below j e h));
        },
      )
]

-- What a slot says of the client that has come.
pub record IsClient (peer : Peer) (now rx_head : ℕ) (d : Slot) : Type 0 where
  pub fd : d.fd ≡ some peer.fd
  pub ip : d.ip ≡ peer.ip
  pub port : d.port ≡ peer.port
  pub since : d.since_ms ≡ now
  pub last_rx : d.last_rx_ms ≡ now
  pub received : d.rx ≡ 0
  pub rx_from : d.rx_pos ≡ rx_head
  pub no_line : d.client.line ≡ []
  pub no_counts : (d.client.commands ≡ 0) × (d.client.refused ≡ 0)
  pub no_modem : d.modem_sent ≡ none

module _ {W : Type 0} (socket : Socket W) (close : ℕ → W → W) (peer : Peer) (now rx_head : ℕ) where
  -- Whether the new client was sent the whole greeting, the one that had the slot being closed before.
  abbrev pub is_greeted : Slot → W → Bool
  is_greeted c w =
      (send_to socket peer.fd 0 (greeting Rfc2217.init 128).1 (close_if close c.fd w)).0

  -- What the new client's slot holds: the client that was greeted, or nobody.
  abbrev pub Entered : Bool → Slot → Type 0
  Entered greeted d =
      ((greeted ≡ true) × IsClient peer now rx_head d) ⊎ ((greeted ≡ false) × (d.fd ≡ none))

  greet-Entered :
      (c c' : Slot) (w : W)
      → Entered (is_greeted c w) (greet socket close peer now rx_head c' (close_if close c.fd w)).0
  unfolding greet drop_client
  greet-Entered c c' w = elim (Bool-cases (is_greeted c w)) [
    | inl t ↦ rw t (
        inl (
          refl,
          record {
            fd = refl;
            ip = refl;
            port = refl;
            since = refl;
            last_rx = refl;
            received = refl;
            rx_from = refl;
            no_line = refl;
            no_counts = (refl, refl);
            no_modem = refl;
          },
        ))
    | inr f ↦ rw f (inr (refl, refl))
  ]

  -- A new client takes a free slot or, where all are taken, that of a client that no other is older
  -- than, which is closed first. Where the greeting is then sent whole, the slot is the new client's,
  -- connected now and with nothing received; where it is not, the slot is free. Every other slot is
  -- as it was, and there are as many.
  pub add_client-IsPicked :
      (cs : List Slot) (w : W)
      → 0 < length cs
      → ((c : Slot) × (d : Slot) × IsPicked cs c
          × (get_elem? (add_client socket close peer now rx_head cs w).0 (pick cs) ≡ some d)
          × Entered (is_greeted c w) d)
        × (length (add_client socket close peer now rx_head cs w).0 ≡ length cs)
        × ((j : ℕ)
            → j ≢ pick cs
            → get_elem? (add_client socket close peer now rx_head cs w).0 j ≡ get_elem? cs j)
  unfolding add_client drop_client
  add_client-IsPicked cs w some_slots =
      let rest = kept (get_elem? cs (pick cs)) _ in
      let (c, picked) = pick-IsPicked cs some_slots in
      (
        (
          c,
          (greet socket close peer now rx_head (drop_client close c w).0 (close_if close c.fd w)).0,
          picked,
          rw picked.at (get_elem?-set_self cs (pick cs) c _ picked.at),
          greet-Entered c (drop_client close c w).0 w,
        ),
        rest.0,
        rest.1,
      )
    where
      kept :
          (o : Option Slot) (f : Slot → W → Slot × W)
          → (length (with_slot o (pick cs) cs w f).0 ≡ length cs)
            × ((j : ℕ)
                → j ≢ pick cs
                → get_elem? (with_slot o (pick cs) cs w f).0 j ≡ get_elem? cs j)
      kept none f = (refl, λ j h. refl)
      kept (some c) f =
          (length-set cs (pick cs) (f c w).0, λ j h. get_elem?-set_ne cs (pick cs) j (f c w).0 h)

-- A DTR that was raised: the time, whether the settings are busy, whether the SVS can be restarted.
pub record Raise : Type 0 where
  pub now : ℕ
  pub busy : Bool
  pub can : Bool

-- The times at which the SVS was restarted.
unfoldable pub restarts : ℕ → List Raise → List ℕ
restarts ready [] = []
restarts ready (e ∷ events) =
    let r = restart_for_dtr e.now e.busy e.can ready in
    let rest = restarts r.1 events in if r.0 then e.now ∷ rest else rest

-- The first is not before `ready`, and each at least the gap after the one before.
abbrev pub AreApart : ℕ → List ℕ → Type 0
AreApart ready [] = Unit
AreApart ready (t ∷ times) = (ready ≤ t) × AreApart (t + restart_min_gap_ms) times

-- However often clients raise DTR, and whatever the clock says, the SVS is restarted for it at times
-- that are each at least 4 seconds after the one before.
pub restarts-AreApart : (ready : ℕ) (events : List Raise) → AreApart ready (restarts ready events)
unfolding restarts restart_for_dtr
restarts-AreApart ready [] = tt
restarts-AreApart ready (e ∷ events) =
    elim (Bool-cases (ltb e.now ready || (e.busy || not e.can))) [
      | inl t ↦ rw t (restarts-AreApart ready events)
      | inr f ↦ rw f (ground (arith, f), restarts-AreApart (e.now + restart_min_gap_ms) events)
    ]
