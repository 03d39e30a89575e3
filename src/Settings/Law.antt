-- ===== src/Settings/Law.antt =====
-- What svs_settings.cpp relies on of the SVS at the other end of svs_usb, and how the proofs follow a
-- task: to its value, or to where it gave up.
use svs_bridge.Base.{
  ℕ, zero, suc, ◌+◌, ◌<◌, ◌≡◌, ◌≢◌, ◌⊎◌, inl, inr, refl, sym, ap, ◌∙◌, Bool, true, false, ◌==◌,
  if◌then◌else◌, List, [], ◌∷◌, Option, none, some, arith, get_or,
}
use svs_bridge.Config.{Eeprom, get_byte}
use svs_bridge.Config.Bytes.{size, get_byte_known}
use svs_bridge.Base.Text.{codes}
use svs_bridge.Config.Commands.{read_command, write_command, decimal}
use svs_bridge.Flasher.{is_ok}
use svs_bridge.Settings.{Port, Info, State, Phase, Ctx, Outcome, done, gave_up, ◌>>=◌, set_phase}
use svs_bridge.Settings.Asking.{answer_of}

-- What the SVS has: its EEPROM, and whether its transcoder from RGB (`true`) or from YPbPr (`false`) is on
-- for an input.
pub record Contents : Type 0 where
  pub eeprom : ℕ → ℕ
  pub transcoder : Bool → ℕ → Bool

-- The commands that set a transcoder for the input on screen.
abbrev pub tx_name : Bool → Bool → List ℕ
tx_name true true = codes "SVS_RGB_Comp_ON"
tx_name true false = codes "SVS_RGB_Comp_OFF"
tx_name false true = codes "SVS_Comp_RGB_ON"
tx_name false false = codes "SVS_Comp_RGB_OFF"

-- One transcoder set for one input.
abbrev pub switched : Bool → ℕ → Bool → (Bool → ℕ → Bool) → Bool → ℕ → Bool
switched true n on tx true k = if k == n then on else tx true k
switched true n on tx false k = tx false k
switched false n on tx true k = tx true k
switched false n on tx false k = if k == n then on else tx false k

-- `contents w` is what the SVS has in the world `w`. An answer to R<addr> that is a byte is the byte
-- there, and one to Y<n> or G<n> is 0 where that transcoder is on. Of the commands only W changes a
-- byte, at most the one it names; and only the four of `tx_name` a transcoder, that of the input on
-- screen.
pub record IsSvs {W : Type 0} (port : Port W) (contents : W → Contents) : Type 0 where
  pub are_bytes : (w : W) (a : ℕ) → Contents.eeprom (contents w) a < 256
  pub begin_keeps : (w : W) → contents (port.session_begin w) ≡ contents w
  pub end_keeps : (w : W) → contents (port.session_end w) ≡ contents w
  pub delay_keeps : (t : ℕ) (w : W) → contents (port.delay t w) ≡ contents w
  pub query_keeps :
      (cmd : List ℕ) (t : ℕ) (w : W)
      → get_or cmd 0 0 ≢ b'W'
      → contents (port.query cmd t w).1 ≡ contents w
  pub query_last_keeps :
      (cmd : List ℕ) (t settle : ℕ) (w : W)
      → get_or cmd 0 0 ≢ b'W'
      → contents (port.query_last cmd t settle w).1 ≡ contents w
  pub query_all_keeps :
      (cmd : List ℕ) (t : ℕ) (w : W)
      → get_or cmd 0 0 ≢ b'W'
      → contents (port.query_all cmd t w).1 ≡ contents w
  pub send_keeps :
      (cmd : List ℕ) (w : W)
      → get_or cmd 0 0 ≢ b'W'
      → ((rgb on : Bool) → cmd ≢ tx_name rgb on)
      → contents (port.send_quiet cmd w).1 ≡ contents w
  pub write_keeps :
      (addr v : ℕ) (w : W) (a : ℕ)
      → v < 256
      → a ≢ addr
      → Contents.eeprom (contents (port.send_quiet (write_command addr v) w).1) a
        ≡ Contents.eeprom (contents w) a
  pub write_keeps_tx :
      (addr v : ℕ) (w : W)
      → Contents.transcoder (contents (port.send_quiet (write_command addr v) w).1)
        ≡ Contents.transcoder (contents w)
  pub tx_keeps :
      (rgb on : Bool) (w : W)
      → Contents.eeprom (contents (port.send_quiet (tx_name rgb on) w).1)
        ≡ Contents.eeprom (contents w)
  pub tx_sets :
      (rgb on : Bool) (n : ℕ) (w : W)
      → Info.current_input (port.info w) ≡ some n
      → is_ok (port.send_quiet (tx_name rgb on) w).0 ≡ true
      → Contents.transcoder (contents (port.send_quiet (tx_name rgb on) w).1)
        ≡ switched rgb n on (Contents.transcoder (contents w))
  pub query_reads :
      (addr t : ℕ) (w : W) (v : ℕ)
      → answer_of (port.query (read_command addr) t w).0 ≡ some v
      → v ≡ Contents.eeprom (contents w) addr
  pub tx_reads :
      (rgb : Bool) (n t settle : ℕ) (w : W) (v : ℕ)
      → answer_of (port.query_last ((if rgb then b'Y' else b'G') ∷ decimal n) t settle w).0 ≡ some v
      → (v == 0) ≡ Contents.transcoder (contents w) rgb n

-- Where a part of a task ends with a value, `Q` holds of it; where it gives up, `E`.
abbrev pub Ends : {W A : Type 0} → (A → Ctx W → Type 0) → (Ctx W → Type 0) → Outcome W A → Type 0
Ends Q E (done a c) = Q a c
Ends Q E (gave_up r c) = E c

module _ {W : Type 0} where
  pub bind-Ends :
      {A B : Type 0} (Q : B → Ctx W → Type 0) (E : Ctx W → Type 0) (m : Outcome W A)
      (f : A → Ctx W → Outcome W B)
      → Ends (λ a c. Ends Q E (f a c)) E m
      → Ends Q E (m >>= f)
  bind-Ends Q E (done a c) f h = h
  bind-Ends Q E (gave_up r c) f h = h

  pub map-Ends :
      {A : Type 0} {Q Q' : A → Ctx W → Type 0} {E E' : Ctx W → Type 0} (m : Outcome W A)
      → ((a : A) (c : Ctx W) → Q a c → Q' a c)
      → ((c : Ctx W) → E c → E' c)
      → Ends Q E m
      → Ends Q' E' m
  map-Ends (done a c) f g h = f a c h
  map-Ends (gave_up r c) f g h = g c h

-- The variables are those of `s` but for what `set_phase` sets.
abbrev pub SameState : State → State → Type 0
SameState s s' = s' ≡ record s { phase = s'.phase; progress = s'.progress }

-- The context of a task that began with the variables `s` and, so far, left the SVS, or of it what is
-- looked at, as `m`.
pub record Quiet {W X : Type 0} (contents : W → X) (m : X) (s : State) (c : Ctx W) : Type 0 where
  pub same : contents c.world ≡ m
  pub state : SameState s c.state

pub set_phase-Quiet :
    {W X : Type 0} {contents : W → X} {m : X} {s : State} {c : Ctx W} (phase : Phase) (progress : ℕ)
    → Quiet contents m s c
    → Quiet contents m s (set_phase phase progress c)
unfolding set_phase
set_phase-Quiet phase progress quiet = record {
  same = quiet.same;
  state = ap (λ (t : State). record t { phase = phase; progress = progress }) quiet.state;
}

-- Every byte that is known is the one in `m`.
pub record Agrees (m : ℕ → ℕ) (e : Eeprom) : Type 0 where
  pub full : size e ≡ 1024
  pub agree : (a v : ℕ) → get_byte e a ≡ some v → v ≡ m a

abbrev pub cells : (ℕ → ℕ) → ℕ → ℕ → List (Option ℕ)
cells m a zero = []
cells m a (suc n) = some (m a) ∷ cells m (suc a) n

-- The whole EEPROM.
unfoldable pub dump : (ℕ → ℕ) → Eeprom
dump m = record { bytes = cells m 0 1024 }

get_byte-cells :
    (m : ℕ → ℕ) (base n i : ℕ)
    → i < n
    → get_byte (record { bytes = cells m base n }) i ≡ some (m (base + i))
unfolding get_byte
get_byte-cells m base zero i h = absurd (omega arith)
get_byte-cells m base (suc n) zero h = ap (λ a. some (m a)) (omega arith)
get_byte-cells m base (suc n) (suc i) h =
    get_byte-cells m (suc base) n i (omega arith) ∙ ap (λ a. some (m a)) (omega arith)

pub get_byte-dump : (m : ℕ → ℕ) (a : ℕ) → a < 1024 → get_byte (dump m) a ≡ some (m a)
unfolding dump
get_byte-dump m a h = get_byte-cells m 0 1024 a h ∙ ap (λ (b : ℕ). some (m b)) (omega arith)

pub known_cases : (o : Option ℕ) → (o ≡ none) ⊎ ((v : ℕ) × (o ≡ some v))
known_cases none = inl refl
known_cases (some v) = inr (v, refl)

-- A byte that is known is as in the dump.
pub Agrees-dump :
    (m : ℕ → ℕ) (e : Eeprom)
    → Agrees m e
    → (a : ℕ) → a < 1024
    → get_byte e a ≢ none
    → get_byte e a ≡ get_byte (dump m) a
Agrees-dump m e agrees a h known = elim (known_cases (get_byte e a)) [
  | inl gone ↦ absurd (known gone)
  | inr (v, got) ↦ got ∙ ap some (agrees.agree a v got) ∙ sym (get_byte-dump m a h)
]

pub dump-Agrees : (m : ℕ → ℕ) → Agrees m (dump m)
unfolding dump
dump-Agrees m = record {
  full = refl;
  agree = λ a v got.
      let low : a < 1024 = get_byte_known (dump m) a v got in
      let same : some (m a) ≡ some v = sym (get_byte-dump m a low) ∙ got in ground (arith, same);
}
