-- ===== src/Settings/Answered.antt =====
-- platform/esp32/main/svs_settings.cpp: a read succeeds where the SVS answers.
use svs_bridge.Base.{
  ℕ, zero, suc, ◌+◌, ◌-◌, ◌*◌, ◌/◌, ◌≡◌, ◌≢◌, ◌⊎◌, inl, inr, refl, ap, ◌∙◌, Bool, true, false, List,
  [], ◌∷◌, Option, none, some, arith, ◌==◌, Bool-cases, length,
}
use svs_bridge.Config.{
  Eeprom, Hardware, ir_slots, ir_address_addr, ir_command_addr, ir_empty, decode_hardware,
}
use svs_bridge.Config.Commands.{bitmap_addresses, read_command}
use svs_bridge.Flasher.{EspErr}
use svs_bridge.Settings.{
  Port, Info, Phase, Read, State, Ctx, Outcome, done, gave_up, ◌>>=◌, read_done, no_bytes,
  answer_timeout_ms, tx_settle_line_ms, set_phase, finish, settle, keep_read,
}
use svs_bridge.Settings.Asking.{
  answer_of, ask_left, ask_byte, ask_transcoder, needed, need_byte, need_transcoder,
}
use svs_bridge.Settings.Reading.{
  read_byte, read_bytes, log_transcoders, rgb_letter, ypbpr_letter, tx_query, read_transcoder,
  read_input_tx, read_transcoders, read_slots, read_codes, read_rest, read_settings, start_session,
  end_read, read_task,
}
use svs_bridge.Settings.Law.{Ends, known_cases}

-- Of two questions in a row with the same command, one is answered with a byte.
pub record IsAnswering {W : Type 0} (port : Port W) : Type 0 where
  pub one_of_two :
      (cmd : List ℕ) (t : ℕ) (w : W)
      → (answer_of (port.query cmd t w).0 ≢ none)
        ⊎ (answer_of (port.query cmd t (port.query cmd t w).1).0 ≢ none)
  pub last_one_of_two :
      (cmd : List ℕ) (t settle : ℕ) (w : W)
      → (answer_of (port.query_last cmd t settle w).0 ≢ none)
        ⊎ (answer_of (port.query_last cmd t settle (port.query_last cmd t settle w).1).0 ≢ none)

-- Two attempts are then enough.
ask_left-answered :
    {W : Type 0} (ask : W → (EspErr × List ℕ) × W) (w : W)
    → (answer_of (ask w).0 ≢ none) ⊎ (answer_of (ask (ask w).1).0 ≢ none)
    → (ask_left ask 2 w).0 ≢ none
unfolding ask_left
ask_left-answered ask w one = elim (known_cases (answer_of (ask w).0)) [
  | inr (v, got) ↦ λ gone. absurd (ground (arith, rw got at gone))
  | inl none_yet ↦ elim (known_cases (answer_of (ask (ask w).1).0)) [
    | inr (v, got) ↦ λ gone. absurd (ground (arith, rw (none_yet, got) at gone))
    | inl nothing ↦ λ gone. elim one [ inl first ↦ first none_yet | inr second ↦ second nothing ]
  ]
]

module _ {W : Type 0} {port : Port W} (answers : IsAnswering port) where
  abbrev Done : {A : Type 0} → Outcome W A → Type 0
  Done o = Ends (λ a c. Unit) (λ c. ⊥) o

  then-Ends :
      {A B : Type 0} (P : B → Ctx W → Type 0) (m : Outcome W A) (f : A → Ctx W → Outcome W B)
      → Done m
      → ((a : A) (c : Ctx W) → Ends P (λ c'. ⊥) (f a c))
      → Ends P (λ c'. ⊥) (m >>= f)
  then-Ends P (done a c) f h rest = rest a c
  then-Ends P (gave_up r c) f h rest = absurd h

  needed-Done : (cmd : List ℕ) (r : Option ℕ × W) (c : Ctx W) → r.0 ≢ none → Done (needed cmd r c)
  needed-Done cmd (none, w) c h = h refl
  needed-Done cmd (some v, w) c h = tt

  read_byte-Done : (e : Eeprom) (addr : ℕ) (c : Ctx W) → Done (read_byte port e addr c)
  unfolding read_byte need_byte
  read_byte-Done e addr c =
      then-Ends _ (needed (read_command addr) (ask_byte port (read_command addr) c.world) c) _
        (needed-Done _ (ask_byte port (read_command addr) c.world) c (
          ask_left-answered _ c.world
            (answers.one_of_two (read_command addr) answer_timeout_ms c.world)))
        (λ v c'. tt)

  read_bytes-Done :
      (total i : ℕ) (addrs : List ℕ) (e : Eeprom) (c : Ctx W)
      → Done (read_bytes port total i addrs e c)
  unfolding read_bytes
  read_bytes-Done total i [] e c = tt
  read_bytes-Done total i (addr ∷ addrs) e c =
      let c1 = set_phase Phase.reading_settings (40 * i / total) c in
      then-Ends _ (read_byte port e addr c1) _ (read_byte-Done e addr c1)
        (λ r c'. read_bytes-Done total (suc i) addrs r.1 c')

  read_transcoder-Done :
      (fitted : Bool) (letter n : ℕ) (on : Bool) (c : Ctx W)
      → Done (read_transcoder port fitted letter n on c)
  unfolding read_transcoder need_transcoder
  read_transcoder-Done false letter n on c = tt
  read_transcoder-Done true letter n on c =
      then-Ends _ (needed (tx_query letter n) (ask_transcoder port (tx_query letter n) c.world) c) _
        (needed-Done _ (ask_transcoder port (tx_query letter n) c.world) c (
          ask_left-answered _ c.world (
            answers.last_one_of_two (tx_query letter n) answer_timeout_ms tx_settle_line_ms
              c.world)))
        (λ v c'. tt)

  read_input_tx-Done : (hw : Hardware) (n : ℕ) (c : Ctx W) → Done (read_input_tx port hw n c)
  unfolding read_input_tx
  read_input_tx-Done hw n c =
      then-Ends _ (read_transcoder port hw.tx_rgb rgb_letter n false c) _
        (read_transcoder-Done hw.tx_rgb rgb_letter n false c)
        (λ rgb c'.
          then-Ends _ (read_transcoder port hw.tx_ypbpr ypbpr_letter n false c') _
            (read_transcoder-Done hw.tx_ypbpr ypbpr_letter n false c') (λ ypbpr c''. tt))

  read_transcoders-Done :
      (hw : Hardware) (inputs n left : ℕ) (c : Ctx W)
      → Done (read_transcoders port hw inputs n left c)
  unfolding read_transcoders
  read_transcoders-Done hw inputs n zero c = tt
  read_transcoders-Done hw inputs n (suc left) c =
      let c1 = set_phase Phase.reading_transcoders (40 + 15 * (n - 1) / inputs) c in
      then-Ends _ (read_input_tx port hw n c1) _ (read_input_tx-Done hw n c1) (λ s c'.
        then-Ends _ (read_transcoders port hw inputs (suc n) left c') _
          (read_transcoders-Done hw inputs (suc n) left c') (λ rest c''. tt))

  read_slots-Done :
      (inputs n k left : ℕ) (e : Eeprom) (c : Ctx W) → Done (read_slots port inputs n k left e c)
  unfolding read_slots
  read_slots-Done inputs n k zero e c = tt
  read_slots-Done inputs n k (suc left) e c =
      then-Ends _ (read_byte port e (ir_address_addr n k inputs) c) _
        (read_byte-Done e (ir_address_addr n k inputs) c)
        (λ a c1.
          then-Ends _ (read_byte port a.1 (ir_command_addr n k inputs) c1) _
            (read_byte-Done a.1 (ir_command_addr n k inputs) c1)
            (λ r c2. elim (Bool-cases (a.0 == ir_empty)) [
              | inl t ↦ rw t tt
              | inr f ↦ rw f (read_slots-Done inputs n (suc k) left r.1 c2)
            ]))

  read_codes-Done :
      (inputs n left : ℕ) (e : Eeprom) (c : Ctx W) → Done (read_codes port inputs n left e c)
  unfolding read_codes
  read_codes-Done inputs n zero e c = tt
  read_codes-Done inputs n (suc left) e c =
      let c1 = set_phase Phase.reading_codes (55 + 45 * (n - 1) / inputs) c in
      then-Ends _ (read_slots port inputs n 0 (ir_slots inputs) e c1) _
        (read_slots-Done inputs n 0 (ir_slots inputs) e c1)
        (λ e' c'. read_codes-Done inputs (suc n) left e' c')

  read_settings-Done :
      (i : Info) (n : ℕ) (c : Ctx W)
      → Ends (λ o c'. o ≢ none) (λ c'. ⊥) (read_settings port i (some n) c)
  unfolding read_settings read_rest
  read_settings-Done i n c =
      let addrs = bitmap_addresses n in
      then-Ends _ (read_bytes port (length addrs) 0 addrs no_bytes c) _
        (read_bytes-Done (length addrs) 0 addrs no_bytes c)
        (λ e c1.
          let hw = decode_hardware e n in
          let c1' = log_transcoders port hw c1 in
          then-Ends _ (read_transcoders port hw n 1 n c1') _ (read_transcoders-Done hw n 1 n c1')
            (λ settings c2.
              then-Ends _ (read_codes port n 1 n e c2) _ (read_codes-Done n 1 n e c2)
                (λ e' c3 gone. absurd (ground (arith, gone)))))

  -- Where the number of inputs is known and of each two questions in a row one is answered with a byte,
  -- a read comes to an end and succeeds.
  pub read_task_succeeds :
      (c : Ctx W) (n : ℕ)
      → Info.total_inputs (port.info c.world) ≡ some n
      → (c' : Ctx W) × (read_task port c ≡ some c') × (State.result_ok c'.state ≡ true)
  unfolding read_task finish
  read_task_succeeds c n known =
      let (c', run, good) =
        at (read_settings port (port.info c.world) (some n) (start_session port c))
          (read_settings-Done (port.info c.world) n (start_session port c)) in
      (
        c',
        ap (λ o. end_read port (read_settings port (port.info c.world) o (start_session port c)))
              known
            ∙ run,
        good,
      )
    where
      at :
          (o : Outcome W (Option Read))
          → Ends (λ r c'. r ≢ none) (λ c'. ⊥) o
          → (c' : Ctx W) × (end_read port o ≡ some c') × (State.result_ok c'.state ≡ true)
      at (done none c') h = absurd (h refl)
      at (done (some r) c') h =
          (settle port (done (read_done r.inputs, true) (keep_read port r c')), refl, refl)
      at (gave_up why c') h = absurd h
