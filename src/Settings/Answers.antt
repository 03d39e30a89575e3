-- ===== src/Settings/Answers.antt =====
-- platform/esp32/main/svs_settings.cpp: that the answers are the bytes in the SVS's EEPROM, and that the
-- questions leave it as it is.
use svs_bridge.Base.{
  ℕ, zero, suc, ◌+◌, ◌-◌, ◌*◌, ◌/◌, ◌%◌, ◌<◌, ◌≡◌, ◌≢◌, inl, inr, refl, sym, ap, subst, ◌∙◌, Bool,
  true, false, ◌&&◌, ◌==◌, if◌then◌else◌, get_elem?, List, [], ◌∷◌, Option, none, some, arith,
  length, get_or, All,
}
use svs_bridge.Config.{Eeprom, Hardware, InputSettings, get_byte}
use svs_bridge.Config.Bytes.{get_byte-set_byte, set_byte-NoLoss}
use svs_bridge.Config.Commands.{read_command}
use svs_bridge.Config.Plans.{some-inj}
use svs_bridge.Flasher.{EspErr}
use svs_bridge.Settings.{
  Port, Phase, State, Ctx, done, set_phase, attempts, answer_timeout_ms, tx_settle_line_ms,
  tx_answer_window_ms,
}
use svs_bridge.Settings.Asking.{answer_of, or_again, ask_left, needed, need_byte, need_transcoder}
use svs_bridge.Settings.Reading.{
  read_byte, read_bytes, log_transcoder, log_transcoders, read_transcoder, read_input_tx,
  read_transcoders, tx_query, rgb_letter, ypbpr_letter,
}
use svs_bridge.Settings.Law.{
  Contents, IsSvs, Ends, bind-Ends, map-Ends, Quiet, set_phase-Quiet, Agrees, known_cases,
}
use svs_bridge.Settings.Grown.{set_byte-Agrees, Grown, Grown-refl, Grown-trans, IsKnown, none-some}

read_command_other : (addr : ℕ) → get_or (read_command addr) 0 0 ≢ b'W'
unfolding read_command
read_command_other addr e = omega (arith, e)

-- The letter of a question to a transcoder.
abbrev letter_of : Bool → ℕ
letter_of rgb = if rgb then rgb_letter else ypbpr_letter

letter_of_other : (rgb : Bool) → letter_of rgb ≢ b'W'
letter_of_other true e = omega (arith, e)
letter_of_other false e = omega (arith, e)

-- The flags of input `n` are what the fitted transcoders have, and off for one that is not fitted.
abbrev pub HasTx : Contents → Hardware → ℕ → InputSettings → Type 0
HasTx m hw n s =
    (s.rgb_to_ypbpr ≡ (hw.tx_rgb && m.transcoder true n))
    × (s.ypbpr_to_rgb ≡ (hw.tx_ypbpr && m.transcoder false n))

-- So are those of all inputs from `n` on.
abbrev pub AllHaveTx : Contents → Hardware → ℕ → List InputSettings → Type 0
AllHaveTx m hw n settings =
    (k : ℕ) (s : InputSettings) → get_elem? settings k ≡ some s → HasTx m hw (n + k) s

AllHaveTx-cons :
    (m : Contents) (hw : Hardware) (n : ℕ) (s : InputSettings) (settings : List InputSettings)
    → HasTx m hw n s
    → AllHaveTx m hw (suc n) settings
    → AllHaveTx m hw n (s ∷ settings)
AllHaveTx-cons m hw n s settings here later zero s' got =
    subst (HasTx m hw (n + 0)) (some-inj got) (subst (λ i. HasTx m hw i s) (omega arith) here)
AllHaveTx-cons m hw n s settings here later (suc k) s' got =
    subst (λ i. HasTx m hw i s') (omega arith) (later k s' got)

module _ {W : Type 0} {port : Port W} {contents : W → Contents} (law : IsSvs port contents) where
  ask_left_keeps :
      (ask : W → (EspErr × List ℕ) × W)
      → ((w : W) → contents (ask w).1 ≡ contents w)
      → (left : ℕ) (w : W) → contents (ask_left ask left w).1 ≡ contents w
  unfolding ask_left
  ask_left_keeps ask keeps zero w = refl
  ask_left_keeps ask keeps (suc left) w =
      after (answer_of (ask w).0) (keeps w) (ask_left_keeps ask keeps left (ask w).1)
    where
      after :
          (o : Option ℕ) {w' : W}
          → contents w' ≡ contents w
          → contents (ask_left ask left w').1 ≡ contents w'
          → contents (or_again o w' (ask_left ask left)).1 ≡ contents w
      after none k h = h ∙ k
      after (some v) k h = k

  -- What is true of every answer is true of the answer.
  ask_left_answer :
      (ask : W → (EspErr × List ℕ) × W) (P : ℕ → Type 0) (left : ℕ) (w : W)
      → ((w' : W) → contents w' ≡ contents w → (v : ℕ) → answer_of (ask w').0 ≡ some v → P v)
      → ((w' : W) → contents (ask w').1 ≡ contents w')
      → (v : ℕ) → (ask_left ask left w).0 ≡ some v
      → P v
  unfolding ask_left
  ask_left_answer ask P zero w truth keeps v h = absurd (ground (arith, h))
  ask_left_answer ask P (suc left) w truth keeps v h = elim (known_cases (answer_of (ask w).0)) [
    | inl gone ↦
        ask_left_answer ask P left (ask w).1 (λ w' k. truth w' (k ∙ keeps w)) keeps v (rw gone at h)
    | inr (u, got) ↦ truth w refl v (got ∙ rw got at h)
  ]

  module _ (m : Contents) (s : State) where
    abbrev Q : Ctx W → Type 0
    Q = Quiet contents m s

    pub ask_byte_truth :
        (addr : ℕ) (c : Ctx W)
        → Q c
        → Ends (λ v c'. Q c' × (v ≡ m.eeprom addr)) Q (need_byte port (read_command addr) c)
    unfolding need_byte
    ask_byte_truth addr c quiet = at (ask c.world) refl
      where
        ask : W → Option ℕ × W
        ask = ask_left (port.query (read_command addr) answer_timeout_ms) attempts

        keeps :
            (w : W) → contents (port.query (read_command addr) answer_timeout_ms w).1 ≡ contents w
        keeps w = law.query_keeps (read_command addr) answer_timeout_ms w (read_command_other addr)

        kept : contents (ask c.world).1 ≡ m
        kept = ask_left_keeps _ keeps attempts c.world ∙ quiet.same

        at :
            (r : Option ℕ × W)
            → ask c.world ≡ r
            → Ends (λ v c'. Q c' × (v ≡ m.eeprom addr)) Q (needed (read_command addr) r c)
        at (none, w) e = record {
          same = ap (λ r. contents r.1) (sym e) ∙ kept;
          state = quiet.state;
        }
        at (some v, w) e = (
          record { same = ap (λ r. contents r.1) (sym e) ∙ kept; state = quiet.state },
          ask_left_answer _ (λ u. u ≡ m.eeprom addr) attempts c.world
              (λ w' k u h.
                law.query_reads addr answer_timeout_ms w' u h
                ∙ ap (λ (x : Contents). x.eeprom addr) (k ∙ quiet.same))
              keeps v (ap (λ r. r.0) e),
        )

    pub read_byte_truth :
        (e : Eeprom) (addr : ℕ) (c : Ctx W)
        → Agrees m.eeprom e
        → Q c
        → Ends
            (λ r c'.
              Q c'
              × Grown m.eeprom e r.1
              × (r.0 ≡ m.eeprom addr)
              × (addr < 1024 → get_byte r.1 addr ≡ some (m.eeprom addr)))
            Q
            (read_byte port e addr c)
    unfolding read_byte
    read_byte_truth e addr c agrees quiet = bind-Ends _ Q (need_byte port (read_command addr) c) _ (
        map-Ends (need_byte port (read_command addr) c)
          (λ v c' (q, t).
            let u : v % 256 ≡ m.eeprom addr = omega (arith, t, small) in
            (
              q,
              record {
                agrees = set_byte-Agrees m.eeprom e addr (v % 256) agrees u;
                no_loss = set_byte-NoLoss e addr (v % 256);
              },
              t,
              λ low. get_byte-set_byte e addr (v % 256) (omega (arith, agrees.full)) ∙ ap some u,
            ))
          (λ c' q. q) (ask_byte_truth addr c quiet))
      where
        small : m.eeprom addr < 256
        small = rw (ap (λ (x : Contents). x.eeprom addr) quiet.same) at (law.are_bytes c.world addr)

    pub read_bytes_truth :
        (total i : ℕ) (addrs : List ℕ) (e : Eeprom) (c : Ctx W)
        → All (λ a. a < 1024) addrs
        → Agrees m.eeprom e
        → Q c
        → Ends
            (λ e' c'. Q c' × Grown m.eeprom e e' × All (IsKnown e') addrs)
            Q
            (read_bytes port total i addrs e c)
    unfolding read_bytes
    read_bytes_truth total i [] e c low agrees quiet = (quiet, Grown-refl agrees, tt)
    read_bytes_truth total i (addr ∷ addrs) e c (low, lows) agrees quiet =
        let c1 = set_phase Phase.reading_settings (40 * i / total) c in
        bind-Ends _ Q (read_byte port e addr c1) _ (
          map-Ends (read_byte port e addr c1)
            (λ r c' (q, grown, t, known).
              map-Ends (read_bytes port total (suc i) addrs r.1 c')
                (λ e' c'' (q', grown', rest). (
                  q',
                  Grown-trans grown grown',
                  (λ gone. none-some (sym (grown'.no_loss addr gone) ∙ known low), rest),
                ))
                (λ c'' q'. q') (read_bytes_truth total (suc i) addrs r.1 c' lows grown.agrees q))
            (λ c' q. q) (read_byte_truth e addr c1 agrees (set_phase-Quiet _ _ quiet)))

    -- The flag of a fitted transcoder is what the SVS has; that of one not fitted is off.
    read_transcoder_truth :
        (fitted rgb : Bool) (n : ℕ) (c : Ctx W)
        → Q c
        → Ends
            (λ r c'. Q c' × (r ≡ (fitted && m.transcoder rgb n)))
            Q
            (read_transcoder port fitted (letter_of rgb) n false c)
    unfolding read_transcoder need_transcoder
    read_transcoder_truth false rgb n c quiet = (quiet, refl)
    read_transcoder_truth true rgb n c quiet =
        bind-Ends _ Q (needed cmd (ask c.world) c) _ (at (ask c.world) refl)
      where
        cmd : List ℕ
        cmd = tx_query (letter_of rgb) n

        ask : W → Option ℕ × W
        ask = ask_left (port.query_last cmd answer_timeout_ms tx_settle_line_ms) attempts

        keeps :
            (w : W)
            → contents (port.query_last cmd answer_timeout_ms tx_settle_line_ms w).1 ≡ contents w
        keeps w =
            law.query_last_keeps cmd answer_timeout_ms tx_settle_line_ms w (letter_of_other rgb)

        kept : contents (ask c.world).1 ≡ m
        kept = ask_left_keeps _ keeps attempts c.world ∙ quiet.same

        at :
            (r : Option ℕ × W)
            → ask c.world ≡ r
            → Ends
                (λ v c'. Ends (λ on c''. Q c'' × (on ≡ m.transcoder rgb n)) Q (done (v == 0) c'))
                Q
                (needed cmd r c)
        at (none, w) e = record {
          same = ap (λ r. contents r.1) (sym e) ∙ kept;
          state = quiet.state;
        }
        at (some v, w) e = (
          record { same = ap (λ r. contents r.1) (sym e) ∙ kept; state = quiet.state },
          ask_left_answer _ (λ u. (u == 0) ≡ m.transcoder rgb n) attempts c.world
              (λ w' k u h.
                law.tx_reads rgb n answer_timeout_ms tx_settle_line_ms w' u h
                ∙ ap (λ (x : Contents). x.transcoder rgb n) (k ∙ quiet.same))
              keeps v (ap (λ r. r.0) e),
        )

    read_input_tx_truth :
        (hw : Hardware) (n : ℕ) (c : Ctx W)
        → Q c
        → Ends (λ s' c'. Q c' × HasTx m hw n s') Q (read_input_tx port hw n c)
    unfolding read_input_tx
    read_input_tx_truth hw n c quiet =
        bind-Ends _ Q (read_transcoder port hw.tx_rgb rgb_letter n false c) _ (
          map-Ends (read_transcoder port hw.tx_rgb rgb_letter n false c)
            (λ rgb c' (q, first).
              bind-Ends _ Q (read_transcoder port hw.tx_ypbpr ypbpr_letter n false c') _ (
                map-Ends (read_transcoder port hw.tx_ypbpr ypbpr_letter n false c')
                  (λ ypbpr c'' (q', second). (q', (first, second))) (λ c'' q'. q')
                  (read_transcoder_truth hw.tx_ypbpr false n c' q)))
            (λ c' q. q) (read_transcoder_truth hw.tx_rgb true n c quiet))

    pub read_transcoders_truth :
        (hw : Hardware) (inputs n left : ℕ) (c : Ctx W)
        → Q c
        → Ends
            (λ settings c'. Q c' × (length settings ≡ left) × AllHaveTx m hw n settings)
            Q
            (read_transcoders port hw inputs n left c)
    unfolding read_transcoders
    read_transcoders_truth hw inputs n zero c quiet =
        (quiet, refl, λ k s' got. absurd (ground (arith, got)))
    read_transcoders_truth hw inputs n (suc left) c quiet =
        let c1 = set_phase Phase.reading_transcoders (40 + 15 * (n - 1) / inputs) c in
        bind-Ends _ Q (read_input_tx port hw n c1) _ (
          map-Ends (read_input_tx port hw n c1)
            (λ s' c' (q, here). bind-Ends _ Q (read_transcoders port hw inputs (suc n) left c') _ (
              map-Ends (read_transcoders port hw inputs (suc n) left c')
                (λ rest c'' (q', count, later).
                  (q', omega (arith, count), AllHaveTx-cons m hw n s' rest here later))
                (λ c'' q'. q') (read_transcoders_truth hw inputs (suc n) left c' q)))
            (λ c' q. q) (read_input_tx_truth hw n c1 (set_phase-Quiet _ _ quiet)))

    log_quiet :
        (fitted : Bool) (letter : ℕ) (c : Ctx W)
        → letter ≢ b'W'
        → Q c
        → Q (log_transcoder port fitted letter c)
    unfolding log_transcoder
    log_quiet false letter c other quiet = quiet
    log_quiet true letter c other quiet = record {
      same = law.query_all_keeps (tx_query letter 1) tx_answer_window_ms c.world other ∙ quiet.same;
      state = quiet.state;
    }

    pub log_transcoders_quiet : (hw : Hardware) (c : Ctx W) → Q c → Q (log_transcoders port hw c)
    unfolding log_transcoders
    log_transcoders_quiet hw c quiet =
        log_quiet hw.tx_ypbpr ypbpr_letter _ (λ e. omega (arith, e))
          (log_quiet hw.tx_rgb rgb_letter c (λ e. omega (arith, e)) quiet)
