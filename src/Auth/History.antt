-- ===== src/Auth/History.antt =====
-- platform/esp32/main/auth.cpp: the table of the sessions against what was given out, used and ended.
use svs_bridge.Base.{
  ℕ, zero, suc, ◌+◌, ◌≤◌, ◌<◌, ◌≡◌, ◌⊎◌, inl, inr, refl, ap, sym, ◌∙◌, true, false, ◌&&◌, List, [],
  ◌∷◌, Option, none, some, arith, leb, ◌==◌, if◌then◌else◌, Bool-cases, length, set, All,
  same_bytes, same_bytes-eq, same_bytes_self,
}
use svs_bridge.Auth.{
  Session, State, initial, session_idle_us, equal, pick, create_session, touch, session_valid,
  cleared, end_session, end_all_sessions, random_hex,
}
use svs_bridge.Auth.Equal.{equal-eq}

-- What happened, the last first.
pub data Event : Type 0 where
  issued accepted : List ℕ → ℕ → Event
  ended : List ℕ → Event
  all_ended : Event

-- When a token was last given out or accepted, if it was not ended since.
abbrev pub last_use : List Event → List ℕ → Option ℕ
last_use [] token = none
last_use (issued t now ∷ h) token = if same_bytes t token then some now else last_use h token
last_use (accepted t now ∷ h) token = if same_bytes t token then some now else last_use h token
last_use (ended t ∷ h) token = if same_bytes t token then none else last_use h token
last_use (all_ended ∷ h) token = none

-- What a session's token and time say is true of the history.
abbrev Known : List Event → ℕ → Session → Type 0
Known h clock s =
    (s.token ≡ []) ⊎ ((u : ℕ) × (last_use h s.token ≡ some u) × (s.last_used_us ≤ u) × (u ≤ clock))

-- The states and histories that the calls lead to, with a clock that does not run backwards; the calls
-- about passwords and the API's token leave the sessions alone.
pub data Run : List Event → State → ℕ → Type 0 where
  at_start : Run [] initial 0
  waited : (h : List Event) (s : State) (t now : ℕ) → Run h s t → t ≤ now → Run h s now
  created :
      (h : List Event) (s : State) (now : ℕ) (random : List ℕ)
      → Run h s now
      → Run (issued (random_hex random) now ∷ h) (create_session random now s).1 now
  let_in :
      (h : List Event) (s : State) (now : ℕ) (token : List ℕ)
      → Run h s now
      → (session_valid token now s).0 ≡ true
      → Run (accepted token now ∷ h) (session_valid token now s).1 now
  turned_away :
      (h : List Event) (s : State) (now : ℕ) (token : List ℕ)
      → Run h s now
      → (session_valid token now s).0 ≡ false
      → Run h (session_valid token now s).1 now
  logged_out :
      (h : List Event) (s : State) (now : ℕ) (token : List ℕ)
      → Run h s now
      → Run (ended token ∷ h) (end_session token s) now
  others_called :
      (h : List Event) (s s' : State) (now : ℕ)
      → Run h s now
      → s'.sessions ≡ s.sessions
      → Run h s' now
  all_logged_out :
      (h : List Event) (s : State) (now : ℕ)
      → Run h s now
      → Run (all_ended ∷ h) (end_all_sessions s) now

later-Known : (h : List Event) (t now : ℕ) (s : Session) → t ≤ now → Known h t s → Known h now s
later-Known h t now s after (inl e) = inl e
later-Known h t now s after (inr (u, at, le, past)) = inr (u, at, le, omega arith)

-- A use of a token leaves what is known of the sessions true.
used-Known :
    (h : List Event) (e : Event) (token : List ℕ) (now : ℕ) (s : Session)
    → ((t : List ℕ) → last_use (e ∷ h) t ≡ (if same_bytes token t then some now else last_use h t))
    → Known h now s
    → Known (e ∷ h) now s
used-Known h e token now s uses (inl empty) = inl empty
used-Known h e token now s uses (inr (u, at, le, past)) =
    inr (elim (Bool-cases (same_bytes token s.token)) [
      | inl t ↦ (now, uses s.token ∙ rw t refl, omega arith, omega arith)
      | inr f ↦ (u, uses s.token ∙ rw f at, le, past)
    ])

All-mono :
    {A : Type 0} {P Q : A → Type 0} → ((x : A) → P x → Q x) → (xs : List A) → All P xs → All Q xs
All-mono f [] all = tt
All-mono f (x ∷ xs) (p, all) = (f x p, All-mono f xs all)

All-set :
    (P : Session → Type 0) (xs : List Session) (i : ℕ) (v : Session)
    → All P xs
    → P v
    → All P (set xs i v)
All-set P [] i v all p = tt
All-set P (x ∷ xs) zero v (here, all) p = (p, all)
All-set P (x ∷ xs) (suc i) v (here, all) p = (here, All-set P xs i v all p)

-- The slot that holds the token.
touch_accepted :
    (h : List Event) (token : List ℕ) (now : ℕ) (ss : List Session)
    → 0 < length token
    → All (Known h now) ss
    → (touch token now ss).0 ≡ true
    → (u : ℕ) × (last_use h token ≡ some u) × (now ≤ u + session_idle_us)
unfolding touch
touch_accepted h token now [] long known yes_ = absurd (ground (arith, yes_))
touch_accepted h token now (s ∷ rest) long (here, known) yes_ =
    elim (Bool-cases (length s.token == length token && equal s.token token)) [
      | inr f ↦ touch_accepted h token now rest long known (rw f at yes_)
      | inl t ↦ elim (Bool-cases (leb now (s.last_used_us + session_idle_us))) [
        | inr g ↦ absurd (ground (arith, rw (t, g) at yes_))
        | inl u ↦ in_time (equal-eq s.token token (ground arith) (ground arith)) (ground arith) here
      ]
    ]
  where
    in_time :
        s.token ≡ token
        → now ≤ s.last_used_us + session_idle_us
        → Known h now s
        → (u : ℕ) × (last_use h token ≡ some u) × (now ≤ u + session_idle_us)
    in_time same soon (inl empty) = absurd (omega (arith, ap length same, ap length empty))
    in_time same soon (inr (u, at, le, past)) = (u, ap (last_use h) (sym same) ∙ at, omega arith)

touch-Known_in :
    (h : List Event) (token : List ℕ) (now : ℕ) (ss : List Session)
    → All (Known h now) ss
    → All (Known (accepted token now ∷ h) now) (touch token now ss).1
unfolding touch
touch-Known_in h token now [] known = tt
touch-Known_in h token now (s ∷ rest) (here, known) =
    let others =
      All-mono (λ x. used-Known h (accepted token now) token now x (λ t. refl)) rest known in
    elim (Bool-cases (length s.token == length token && equal s.token token)) [
      | inr f ↦ rw f (
        used-Known h (accepted token now) token now s (λ t. refl) here,
        touch-Known_in h token now rest known,
      )
      | inl t ↦ elim (Bool-cases (leb now (s.last_used_us + session_idle_us))) [
        | inr g ↦ rw (t, g) (inl refl, others)
        | inl g ↦
            let same : s.token ≡ token = equal-eq s.token token (ground arith) (ground arith) in
            let again : same_bytes token s.token ≡ true =
              ap (same_bytes token) same ∙ same_bytes_self token in
            rw (t, g) (inr (now, rw again refl, omega arith, omega arith), others)
      ]
    ]

touch-Known_out :
    (h : List Event) (token : List ℕ) (now : ℕ) (ss : List Session)
    → All (Known h now) ss
    → (touch token now ss).0 ≡ false
    → All (Known h now) (touch token now ss).1
unfolding touch
touch-Known_out h token now [] known no_ = tt
touch-Known_out h token now (s ∷ rest) (here, known) no_ =
    elim (Bool-cases (length s.token == length token && equal s.token token)) [
      | inr f ↦ rw f (here, touch-Known_out h token now rest known (rw f at no_))
      | inl t ↦ elim (Bool-cases (leb now (s.last_used_us + session_idle_us))) [
        | inr g ↦ rw (t, g) (inl refl, known)
        | inl g ↦ absurd (ground (arith, rw (t, g) at no_))
      ]
    ]

same_bytes_other : (b c : List ℕ) → same_bytes b c ≡ false → same_bytes c b ≡ false
same_bytes_other b c f = elim (Bool-cases (same_bytes c b)) [
  | inl t ↦ absurd (ground (arith, f, ap (same_bytes b) (same_bytes-eq c b t) ∙ same_bytes_self b))
  | inr g ↦ g
]

kept-Known :
    (h : List Event) (token : List ℕ) (now : ℕ) (s : Session)
    → same_bytes s.token token ≡ false
    → Known h now s
    → Known (ended token ∷ h) now s
kept-Known h token now s f (inl empty) = inl empty
kept-Known h token now s f (inr (u, at, le, past)) =
    inr (u, rw (same_bytes_other s.token token f) at, le, past)

cleared-Known_ended :
    (h : List Event) (token : List ℕ) (now : ℕ) (ss : List Session)
    → All (Known h now) ss
    → All (Known (ended token ∷ h) now) (cleared (λ x. same_bytes x.token token) ss)
cleared-Known_ended h token now [] known = tt
cleared-Known_ended h token now (s ∷ rest) (here, known) =
    elim (Bool-cases (same_bytes s.token token)) [
      | inl t ↦ rw t (inl refl, cleared-Known_ended h token now rest known)
      | inr f ↦ rw f (kept-Known h token now s f here, cleared-Known_ended h token now rest known)
    ]

cleared-Known_every :
    (h : List Event) (now : ℕ) (ss : List Session) → All (Known h now) (cleared (λ x. true) ss)
cleared-Known_every h now [] = tt
cleared-Known_every h now (s ∷ rest) = (inl refl, cleared-Known_every h now rest)

Run-Known : (h : List Event) (s : State) (now : ℕ) → Run h s now → All (Known h now) s.sessions
unfolding create_session session_valid end_session end_all_sessions
Run-Known h s now at_start = (inl refl, (inl refl, (inl refl, (inl refl, tt))))
Run-Known h s now (waited h0 s0 t n r after) =
    All-mono (λ x. later-Known h t now x after) s.sessions (Run-Known h s t r)
Run-Known h s now (created h0 s0 n random r) =
    let token = random_hex random in
    All-set _ s0.sessions (pick now s0.sessions s0.sessions 0 0)
      (record { token = token; last_used_us = now })
      (All-mono (λ x. used-Known h0 (issued token now) token now x (λ t. refl)) s0.sessions
        (Run-Known h0 s0 now r))
      (inr (now, rw (same_bytes_self token) refl, omega arith, omega arith))
Run-Known h s now (let_in h0 s0 n token r yes_) = elim (Bool-cases (length token == 64)) [
  | inl t ↦ rw t (touch-Known_in h0 token now s0.sessions (Run-Known h0 s0 now r))
  | inr f ↦ absurd (ground (arith, rw f at yes_))
]
Run-Known h s now (turned_away h0 s0 n token r no_) = elim (Bool-cases (length token == 64)) [
  | inl t ↦ rw t (touch-Known_out h token now s0.sessions (Run-Known h s0 now r) (rw t at no_))
  | inr f ↦ rw f (Run-Known h s0 now r)
]
Run-Known h s now (logged_out h0 s0 n token r) =
    cleared-Known_ended h0 token now s0.sessions (Run-Known h0 s0 now r)
Run-Known h s now (others_called h0 s0 s1 n r same) = rw same (Run-Known h s0 now r)
Run-Known h s now (all_logged_out h0 s0 n r) = cleared-Known_every (all_ended ∷ h0) now s0.sessions

-- Whatever calls were made, a token that session_valid accepts was given out by create_session and not
-- ended since, and it was given out or last accepted at most 12 hours ago.
pub session_valid-last_use :
    (h : List Event) (s : State) (now : ℕ) (token : List ℕ)
    → Run h s now
    → (session_valid token now s).0 ≡ true
    → (u : ℕ) × (last_use h token ≡ some u) × (now ≤ u + session_idle_us)
unfolding session_valid
session_valid-last_use h s now token r yes_ = elim (Bool-cases (length token == 64)) [
  | inl t ↦
      touch_accepted h token now s.sessions (ground arith) (Run-Known h s now r) (rw t at yes_)
  | inr f ↦ absurd (ground (arith, rw f at yes_))
]
