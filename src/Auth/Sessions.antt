-- ===== src/Auth/Sessions.antt =====
-- platform/esp32/main/auth.cpp: the table of the sessions.
use svs_bridge.Base.{
  ℕ, zero, suc, ◌+◌, ◌≤◌, ◌<◌, ◌≡◌, ◌≢◌, ◌⊎◌, inl, inr, refl, ap, subst, ◌∙◌, true, false, ◌&&◌,
  List, [], ◌∷◌, arith, ltb, leb, ◌==◌, Bool-cases, length, get_or, set, All,
}
use svs_bridge.Auth.{
  Session, no_session, State, session_idle_us, equal, is_free, pick, create_session, touch,
  session_valid, random_hex,
}
use svs_bridge.Auth.Equal.{equal-eq, equal_self, length-random_hex}

-- What `create_session` says of the slot it takes.
abbrev pub IsSlot : ℕ → List Session → ℕ → Type 0
IsSlot now all p =
    (p < length all)
    × ((is_free now (get_or all p no_session) ≡ true)
        ⊎ ((j : ℕ)
            → j < length all
            → (is_free now (get_or all j no_session) ≡ false)
              × ((get_or all p no_session).last_used_us ≤ (get_or all j no_session).last_used_us)))

-- The slots before `i` are taken, and none was used before the one in hand.
abbrev Passed : ℕ → List Session → ℕ → ℕ → Type 0
Passed now all i slot =
    (j : ℕ)
    → j < i
    → (is_free now (get_or all j no_session) ≡ false)
      × ((get_or all slot no_session).last_used_us ≤ (get_or all j no_session).last_used_us)

Passed-step :
    (now : ℕ) (all : List Session) (i slot slot' : ℕ)
    → Passed now all i slot
    → is_free now (get_or all i no_session) ≡ false
    → (get_or all slot' no_session).last_used_us ≤ (get_or all slot no_session).last_used_us
    → (get_or all slot' no_session).last_used_us ≤ (get_or all i no_session).last_used_us
    → Passed now all (i + 1) slot'
Passed-step now all i slot slot' before taken lower lower_here j low = elim (Bool-cases (ltb j i)) [
  | inl t ↦ let (full, above) = before j (ground arith) in (full, omega (arith, above))
  | inr f ↦
      let e : i ≡ j = ground arith in
      subst
        (λ k.
          (is_free now (get_or all k no_session) ≡ false)
          × ((get_or all slot' no_session).last_used_us ≤ (get_or all k no_session).last_used_us))
        e (taken, lower_here)
]

pick_from :
    (now : ℕ) (all rest : List Session) (i slot : ℕ)
    → i + length rest ≡ length all
    → slot < length all
    → ((k : ℕ) → get_or all (i + k) no_session ≡ get_or rest k no_session)
    → Passed now all i slot
    → IsSlot now all (pick now all rest i slot)
unfolding pick
pick_from now all [] i slot counted inside same before =
    (inside, inr (λ j low. before j (omega arith)))
pick_from now all (s ∷ rest) i slot counted inside same before =
    let here : get_or all i no_session ≡ s =
      ap (λ k. get_or all k no_session) (omega arith) ∙ same 0 in
    let same' : (k : ℕ) → get_or all (i + 1 + k) no_session ≡ get_or rest k no_session =
      λ k. ap (λ j. get_or all j no_session) (omega arith) ∙ same (suc k) in
    let last : (get_or all i no_session).last_used_us ≡ s.last_used_us =
      ap (λ (x : Session). x.last_used_us) here in
    elim (Bool-cases (is_free now s)) [
      | inl t ↦ rw t (omega arith, inl (ap (is_free now) here ∙ t))
      | inr f ↦
          let taken = ap (is_free now) here ∙ f in
          elim (Bool-cases (ltb s.last_used_us (get_or all slot no_session).last_used_us)) [
            | inl t ↦
                rw (f, t)
                  (pick_from now all rest (i + 1) i (omega arith) (omega arith) same' (
                    Passed-step now all i slot i before taken (ground (arith, last)) (omega arith)))
            | inr u ↦
                rw (f, u)
                  (pick_from now all rest (i + 1) slot (omega arith) inside same' (
                    Passed-step now all i slot slot before taken (omega arith)
                      (ground (arith, last))))
          ]
    ]

-- The slot that a new session takes is empty or of a session that is over, if there is one; else it is
-- the one used least recently.
pub pick-IsSlot :
    (now : ℕ) (all : List Session) → 0 < length all → IsSlot now all (pick now all all 0 0)
pick-IsSlot now all some_slot =
    pick_from now all all 0 0 (omega arith) some_slot
      (λ k. ap (λ j. get_or all j no_session) (omega arith)) (λ j low. absurd (omega arith))

touch-set :
    (token : List ℕ) (now later : ℕ) (all : List Session) (slot : ℕ)
    → slot < length all
    → later ≤ now + session_idle_us
    → All (λ (x : Session). x.token ≢ token) all
    → (touch token later (set all slot (record { token = token; last_used_us = now }))).0 ≡ true
unfolding touch
touch-set token now later [] slot inside soon fresh = absurd (omega arith)
touch-set token now later (s ∷ rest) zero inside soon fresh =
    let same : length token == length token ≡ true = ground arith in
    let in_time : leb later (now + session_idle_us) ≡ true = ground arith in
    rw (same, equal_self token, in_time) refl
touch-set token now later (s ∷ rest) (suc slot) inside soon (other, fresh) =
    let found = touch-set token now later rest slot (omega arith) soon fresh in
    elim (Bool-cases (length s.token == length token && equal s.token token)) [
      | inl t ↦ absurd (other (equal-eq s.token token (ground arith) (ground arith)))
      | inr f ↦ rw f found
    ]

-- The token of a session that was just created, if no slot held it before, is valid for the 12 hours
-- that follow.
pub session_valid-create_session :
    (random : List ℕ) (now later : ℕ) (s : State)
    → length random ≡ 32
    → 0 < length s.sessions
    → All (λ (x : Session). x.token ≢ random_hex random) s.sessions
    → later ≤ now + session_idle_us
    → (session_valid (create_session random now s).0 later (create_session random now s).1).0 ≡ true
unfolding session_valid create_session
session_valid-create_session random now later s full some_slot fresh soon =
    let sized : length (random_hex random) == 64 ≡ true =
      ground (arith, length-random_hex random) in
    rw sized (
      touch-set (random_hex random) now later s.sessions (pick now s.sessions s.sessions 0 0)
        (pick-IsSlot now s.sessions some_slot).0 soon fresh)
