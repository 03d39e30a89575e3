-- ===== src/Settings/Transcoders.antt =====
-- platform/esp32/main/svs_settings.cpp: what setting the transcoders makes of the snapshot's settings, and
-- that it leaves the EEPROM as it is.
use svs_bridge.Base.{
  ℕ, zero, suc, ◌+◌, ◌-◌, ◌*◌, ◌/◌, ◌≡◌, ◌≢◌, inl, inr, refl, sym, ap, ap₂, subst, ◌∙◌, Bool, true,
  false, List, [], ◌∷◌, ◌++◌, Option, none, some, arith, Bool-cases, length, get_elem?, get_or,
  append_assoc, length-append,
}
use svs_bridge.Config.{Eeprom, InputSettings, decode_input}
use svs_bridge.Config.Writes.{stored}
use svs_bridge.Flasher.{is_ok}
use svs_bridge.Settings.{
  Port, setting_transcoder, TxFailure, State, Ctx, set_phase, tx_settle_ms, tx_answer_window_ms,
}
use svs_bridge.Settings.Reading.{tx_query, with_tx, decode_inputs}
use svs_bridge.Settings.Writing.{
  TxChange, differ, tx_change, tx_changes, input_rounds, wait_for_input, change_input, is_input,
  tx_command, tx_letter, set_transcoder, put_tx, put_at, TxRun, go_on, set_transcoders,
  change_transcoders,
}
use svs_bridge.Settings.Law.{Contents, tx_name, IsSvs, SameState, Quiet, set_phase-Quiet}

-- What is sent for a transcoder is the command that sets it.
pub tx_command-tx_name : (t : TxChange) → tx_command t ≡ tx_name t.rgb t.on
tx_command-tx_name t = at t.rgb t.on
  where
    at : (rgb on : Bool) → tx_command (record { input = 0; rgb = rgb; on = on }) ≡ tx_name rgb on
    at true true = refl
    at true false = refl
    at false true = refl
    at false false = refl

-- The sixth letter of the command that changes the input is an h, theirs is a G or an o.
change_input_other : (n : ℕ) (rgb on : Bool) → change_input n ≢ tx_name rgb on
change_input_other n true true e = omega (arith, ap (λ c. get_or c 5 0) e)
change_input_other n true false e = omega (arith, ap (λ c. get_or c 5 0) e)
change_input_other n false true e = omega (arith, ap (λ c. get_or c 5 0) e)
change_input_other n false false e = omega (arith, ap (λ c. get_or c 5 0) e)

pub tx_letter_other : (t : TxChange) → tx_letter t ≢ b'W'
tx_letter_other t = at t.rgb
  where
    at : (rgb : Bool) → tx_letter (record { input = 0; rgb = rgb; on = true }) ≢ b'W'
    at true e = omega (arith, e)
    at false e = omega (arith, e)

pub same_bool : (a b : Bool) → differ a b ≡ false → a ≡ b
same_bool true true h = refl
same_bool true false h = h
same_bool false true h = sym h
same_bool false false h = refl

module _ {W : Type 0} {port : Port W} {contents : W → Contents} (law : IsSvs port contents) where
  -- The EEPROM in the world `w`.
  abbrev pub eeprom : W → ℕ → ℕ
  eeprom w = Contents.eeprom (contents w)

  pub change_input_keeps :
      (n : ℕ) (w : W) → contents (port.send_quiet (change_input n) w).1 ≡ contents w
  change_input_keeps n w =
      law.send_keeps (change_input n) w (λ e. omega (arith, e)) (change_input_other n)

  pub wait_for_input_keeps :
      (left n : ℕ) (w : W) → contents (wait_for_input port left n w).1 ≡ contents w
  unfolding wait_for_input
  wait_for_input_keeps zero n w = refl
  wait_for_input_keeps (suc left) n w = elim (Bool-cases (is_input (port.info w).current_input n)) [
    | inl t ↦ rw t refl
    | inr f ↦ rw f (wait_for_input_keeps left n (port.delay 50 w) ∙ law.delay_keeps 50 w)
  ]

  tx_command_keeps : (t : TxChange) (w : W) → eeprom (port.send_quiet (tx_command t) w).1 ≡ eeprom w
  tx_command_keeps t w =
      subst (λ cmd. eeprom (port.send_quiet cmd w).1 ≡ eeprom w) (sym (tx_command-tx_name t))
        (law.tx_keeps t.rgb t.on w)

  set_transcoder_keeps : (t : TxChange) (w : W) → eeprom (set_transcoder port t w).1 ≡ eeprom w
  unfolding set_transcoder
  set_transcoder_keeps t w =
      let w1 = (port.send_quiet (change_input t.input) w).1 in
      let w2 = (wait_for_input port input_rounds t.input w1).1 in
      let w3 = (port.send_quiet (tx_command t) w2).1 in
      let k1 : eeprom w1 ≡ eeprom w =
        ap (λ (x : Contents). x.eeprom) (change_input_keeps t.input w) in
      let k2 : eeprom w2 ≡ eeprom w =
        ap (λ (x : Contents). x.eeprom) (wait_for_input_keeps input_rounds t.input w1) ∙ k1 in
      let k3 : eeprom w3 ≡ eeprom w = tx_command_keeps t w2 ∙ k2 in
      elim (Bool-cases (is_ok (port.send_quiet (change_input t.input) w).0)) [
        | inr a ↦ rw a k1
        | inl a ↦ elim (Bool-cases (wait_for_input port input_rounds t.input w1).0) [
          | inr b ↦ rw (a, b) k2
          | inl b ↦ elim (Bool-cases (is_ok (port.send_quiet (tx_command t) w2).0)) [
            | inr d ↦ rw (a, b, d) k3
            | inl d ↦
                rw (a, b, d)
                  (ap (λ (x : Contents). x.eeprom)
                      (law.query_all_keeps (tx_query (tx_letter t) t.input) tx_answer_window_ms
                          (port.delay tx_settle_ms w3) (tx_letter_other t)
                        ∙ law.delay_keeps tx_settle_ms w3)
                    ∙ k3)
          ]
        ]
      ]

  module _ (m : ℕ → ℕ) (s : State) where
    abbrev Q : Ctx W → Type 0
    Q = Quiet eeprom m s

    go_on_quiet :
        (r : (Option TxFailure × Bool) × W) (t : TxChange) (run : TxRun) (c : Ctx W)
        (next : TxRun → Ctx W → TxRun × Ctx W)
        → eeprom r.1 ≡ m
        → SameState s c.state
        → ((run' : TxRun) (c' : Ctx W) → Q c' → Q (next run' c').1)
        → Q (go_on r t run c next).1
    go_on_quiet ((some f, confirmed), w) t run c next k same rest = record {
      same = k;
      state = same;
    }
    go_on_quiet ((none, confirmed), w) t run c next k same rest =
        rest _ _ (record { same = k; state = same })

    set_transcoders_quiet :
        (steps step : ℕ) (tx : List TxChange) (run : TxRun) (c : Ctx W)
        → Q c
        → Q (set_transcoders port steps step tx run c).1
    unfolding set_transcoders
    set_transcoders_quiet steps step [] run c quiet = quiet
    set_transcoders_quiet steps step (t ∷ tx) run c quiet =
        let c1 = set_phase (setting_transcoder t.input) (100 * step / steps) c in
        let q1 : Q c1 = set_phase-Quiet _ _ quiet in
        go_on_quiet (set_transcoder port t c1.world) t run c1 _
          (set_transcoder_keeps t c1.world ∙ q1.same) q1.state
          (λ run' c' q. set_transcoders_quiet steps (suc step) tx run' c' q)

    pub change_transcoders_quiet :
        (steps step : ℕ) (tx : List TxChange) (settings : List InputSettings) (c : Ctx W)
        → Q c
        → Q (change_transcoders port steps step tx settings c).1
    unfolding change_transcoders
    change_transcoders_quiet steps step [] settings c quiet = quiet
    change_transcoders_quiet steps step (t ∷ tx) settings c quiet =
        let q = set_transcoders_quiet steps step (t ∷ tx) _ c quiet in
        record {
          same = ap (λ (x : Contents). x.eeprom) (change_input_keeps _ _) ∙ q.same;
          state = q.state;
        }

-- The settings after all of the changes.
unfoldable put_all : List TxChange → List InputSettings → List InputSettings
put_all [] settings = settings
put_all (t ∷ tx) settings = put_all tx (put_at (t.input - 1) t settings)

-- The settings that were read, with the transcoders that are wanted.
unfoldable pub with_wanted : List InputSettings → List InputSettings → List InputSettings
with_wanted [] old = []
with_wanted (w ∷ want) [] = []
with_wanted (w ∷ want) (s ∷ old) = with_tx w.rgb_to_ypbpr w.ypbpr_to_rgb s ∷ with_wanted want old

put_all-append :
    (tx tx' : List TxChange) (settings : List InputSettings)
    → put_all (tx ++ tx') settings ≡ put_all tx' (put_all tx settings)
unfolding put_all
put_all-append [] tx' settings = refl
put_all-append (t ∷ tx) tx' settings = put_all-append tx tx' (put_at (t.input - 1) t settings)

put_at_here :
    (before : List InputSettings) (t : TxChange) (s : InputSettings) (rest : List InputSettings)
    → put_at (length before) t (before ++ (s ∷ rest)) ≡ before ++ (put_tx t s ∷ rest)
unfolding put_at
put_at_here [] t s rest = refl
put_at_here (b ∷ before) t s rest = ap (◌∷◌ b) (put_at_here before t s rest)

-- One change, where there is one: the transcoder is then as wanted.
put_all_rgb :
    (n : ℕ) (before : List InputSettings) (new : Bool) (s : InputSettings)
    (rest : List InputSettings)
    → n ≡ suc (length before)
    → put_all (tx_change n true new s.rgb_to_ypbpr) (before ++ (s ∷ rest))
      ≡ before ++ (record s { rgb_to_ypbpr = new } ∷ rest)
unfolding put_all
put_all_rgb n before new s rest here = elim (Bool-cases (differ new s.rgb_to_ypbpr)) [
  | inl t ↦
      rw (t, here)
        (ap
            (λ k.
              put_at k (record { input = suc (length before); rgb = true; on = new })
                (before ++ (s ∷ rest)))
            (omega arith)
          ∙ put_at_here before _ s rest)
  | inr f ↦ rw f (
      ap (λ b. before ++ (record s { rgb_to_ypbpr = b } ∷ rest))
        (sym (same_bool new s.rgb_to_ypbpr f)))
]

put_all_ypbpr :
    (n : ℕ) (before : List InputSettings) (new : Bool) (s : InputSettings)
    (rest : List InputSettings)
    → n ≡ suc (length before)
    → put_all (tx_change n false new s.ypbpr_to_rgb) (before ++ (s ∷ rest))
      ≡ before ++ (record s { ypbpr_to_rgb = new } ∷ rest)
unfolding put_all
put_all_ypbpr n before new s rest here = elim (Bool-cases (differ new s.ypbpr_to_rgb)) [
  | inl t ↦
      rw (t, here)
        (ap
            (λ k.
              put_at k (record { input = suc (length before); rgb = false; on = new })
                (before ++ (s ∷ rest)))
            (omega arith)
          ∙ put_at_here before _ s rest)
  | inr f ↦ rw f (
      ap (λ b. before ++ (record s { ypbpr_to_rgb = b } ∷ rest))
        (sym (same_bool new s.ypbpr_to_rgb f)))
]

put_all-tx_changes :
    (n : ℕ) (before want old : List InputSettings)
    → n ≡ suc (length before)
    → length want ≡ length old
    → put_all (tx_changes n want old) (before ++ old) ≡ before ++ with_wanted want old
unfolding tx_changes with_wanted put_all
put_all-tx_changes n before [] [] here count = refl
put_all-tx_changes n before [] (s ∷ old) here count = absurd (omega (arith, count))
put_all-tx_changes n before (w ∷ want) [] here count = absurd (omega (arith, count))
put_all-tx_changes n before (w ∷ want) (s ∷ old) here count =
    let s' = with_tx w.rgb_to_ypbpr w.ypbpr_to_rgb s in
    let s1 = record s { rgb_to_ypbpr = w.rgb_to_ypbpr } in
    let ypbpr = tx_change n false w.ypbpr_to_rgb s.ypbpr_to_rgb in
    let later = tx_changes (suc n) want old in
    put_all-append (tx_change n true w.rgb_to_ypbpr s.rgb_to_ypbpr) (ypbpr ++ later) _
    ∙ ap (put_all (ypbpr ++ later)) (put_all_rgb n before w.rgb_to_ypbpr s old here)
    ∙ put_all-append ypbpr later (before ++ (s1 ∷ old))
    ∙ ap (put_all later) (put_all_ypbpr n before w.ypbpr_to_rgb s1 old here)
    ∙ ap (put_all later) (sym (append_assoc before (s' ∷ []) old))
    ∙ put_all-tx_changes (suc n) (before ++ (s' ∷ [])) want old
        (omega (arith, here, length-append before (s' ∷ []))) (omega (arith, count))
    ∙ append_assoc before (s' ∷ []) (with_wanted want old)

-- A run that was not stopped has made all of the changes.
go_on-Passed :
    {W : Type 0} (r : (Option TxFailure × Bool) × W) (t : TxChange) (run : TxRun) (c : Ctx W)
    (tx : List TxChange) (next : TxRun → Ctx W → TxRun × Ctx W)
    → ((run' : TxRun) (c' : Ctx W)
        → TxRun.failed (next run' c').0 ≡ none
        → TxRun.settings (next run' c').0 ≡ put_all tx run'.settings)
    → TxRun.failed (go_on r t run c next).0 ≡ none
    → TxRun.settings (go_on r t run c next).0 ≡ put_all (t ∷ tx) run.settings
unfolding put_all
go_on-Passed ((some f, confirmed), w) t run c tx next rest h = absurd (ground (arith, h))
go_on-Passed ((none, confirmed), w) t run c tx next rest h = rest _ _ h

set_transcoders_settings :
    {W : Type 0} (port : Port W) (steps step : ℕ) (tx : List TxChange) (run : TxRun) (c : Ctx W)
    → TxRun.failed (set_transcoders port steps step tx run c).0 ≡ none
    → TxRun.settings (set_transcoders port steps step tx run c).0 ≡ put_all tx run.settings
unfolding set_transcoders put_all
set_transcoders_settings port steps step [] run c h = refl
set_transcoders_settings port steps step (t ∷ tx) run c h =
    let c1 = set_phase (setting_transcoder t.input) (100 * step / steps) c in
    go_on-Passed (set_transcoder port t c1.world) t run c1 tx _
      (λ run' c' h'. set_transcoders_settings port steps (suc step) tx run' c' h') h

-- Where no transcoder failed, the settings have each transcoder as it was wanted.
pub change_transcoders_settings :
    {W : Type 0} (port : Port W) (steps step : ℕ) (want settings : List InputSettings) (c : Ctx W)
    → length want ≡ length settings
    → let run = (change_transcoders port steps step (tx_changes 1 want settings) settings c).0 in
      run.failed ≡ none → run.settings ≡ with_wanted want settings
unfolding change_transcoders put_all
change_transcoders_settings port steps step want settings c count h =
    at (tx_changes 1 want settings) h ∙ put_all-tx_changes 1 [] want settings refl count
  where
    at :
        (tx : List TxChange)
        → TxRun.failed (change_transcoders port steps step tx settings c).0 ≡ none
        → TxRun.settings (change_transcoders port steps step tx settings c).0 ≡ put_all tx settings
    at [] h = refl
    at (t ∷ tx) h = set_transcoders_settings port steps step (t ∷ tx) _ c h

-- What `decode_input` leaves of settings that have the wanted transcoders.
pub decode_inputs-with_wanted :
    (e : Eeprom) (inputs n : ℕ) (want settings : List InputSettings)
    → length want ≡ length settings
    → ((i : ℕ) (s old : InputSettings)
        → get_elem? want i ≡ some s
        → decode_input e (n + i) inputs old ≡ stored s old)
    → decode_inputs e inputs n (with_wanted want settings) ≡ want
unfolding decode_inputs with_wanted
decode_inputs-with_wanted e inputs n [] settings count decoded = refl
decode_inputs-with_wanted e inputs n (w ∷ want) [] count decoded = absurd (omega (arith, count))
decode_inputs-with_wanted e inputs n (w ∷ want) (s ∷ settings) count decoded =
    let s' = with_tx w.rgb_to_ypbpr w.ypbpr_to_rgb s in
    let here : decode_input e n inputs s' ≡ w =
      ap (λ k. decode_input e k inputs s') (omega arith) ∙ decoded 0 w s' refl in
    ap₂ (◌∷◌) here (
      decode_inputs-with_wanted e inputs (suc n) want settings (omega (arith, count))
        (λ i t old got.
          ap (λ k. decode_input e k inputs old) (omega arith) ∙ decoded (suc i) t old got))
