-- ===== src/Settings/Switched.antt =====
-- platform/esp32/main/svs_settings.cpp: which transcoders of the SVS `write_task` sets, and to what.
use svs_bridge.Base.{
  ℕ, zero, suc, ◌*◌, ◌/◌, ◌≡◌, inl, inr, refl, sym, ap, subst, ◌∙◌, Bool, true, List, [], ◌∷◌,
  Option, none, some, arith, Bool-cases,
}
use svs_bridge.Config.{InputSettings}
use svs_bridge.Flasher.{is_ok}
use svs_bridge.Settings.{
  Port, Info, setting_transcoder, TxFailure, Ctx, set_phase, tx_settle_ms, tx_answer_window_ms,
}
use svs_bridge.Settings.Reading.{tx_query}
use svs_bridge.Settings.Writing.{
  TxChange, tx_changes, input_rounds, wait_for_input, change_input, is_input, tx_command, tx_letter,
  set_transcoder, TxRun, go_on, set_transcoders, change_transcoders,
}
use svs_bridge.Settings.Law.{Contents, switched, IsSvs}
use svs_bridge.Settings.Wanted.{Tx, AreSwitched, all_switched, all_switched-AreSwitched}
use svs_bridge.Settings.Transcoders.{
  tx_command-tx_name, tx_letter_other, change_input_keeps, wait_for_input_keeps,
}

is_input-some : (o : Option ℕ) (n : ℕ) → is_input o n ≡ true → o ≡ some n
is_input-some none n h = absurd (ground (arith, h))
is_input-some (some m) n h = ap some (ground (arith, h))

module _ {W : Type 0} {port : Port W} {contents : W → Contents} (law : IsSvs port contents) where
  abbrev tx_in : W → Tx
  tx_in w = Contents.transcoder (contents w)

  -- Where the wait ends well, the input is on screen.
  wait_for_input_shows :
      (left n : ℕ) (w : W)
      → (wait_for_input port left n w).0 ≡ true
      → Info.current_input (port.info (wait_for_input port left n w).1) ≡ some n
  unfolding wait_for_input
  wait_for_input_shows zero n w h = absurd (ground (arith, h))
  wait_for_input_shows (suc left) n w h =
      elim (Bool-cases (is_input (port.info w).current_input n)) [
        | inl t ↦ rw t (is_input-some _ n t)
        | inr f ↦ rw f (wait_for_input_shows left n (port.delay 50 w) (rw f at h))
      ]

  -- A transcoder that was set without a failure is as it was to be, and no other changed.
  set_transcoder_switches :
      (t : TxChange) (w : W)
      → (set_transcoder port t w).0.0 ≡ none
      → tx_in (set_transcoder port t w).1 ≡ switched t.rgb t.input t.on (tx_in w)
  unfolding set_transcoder
  set_transcoder_switches t w h =
      let w1 = (port.send_quiet (change_input t.input) w).1 in
      let w2 = (wait_for_input port input_rounds t.input w1).1 in
      let w3 = (port.send_quiet (tx_command t) w2).1 in
      let k2 : tx_in w2 ≡ tx_in w =
        ap (λ (x : Contents). x.transcoder)
          (wait_for_input_keeps law input_rounds t.input w1 ∙ change_input_keeps law t.input w) in
      elim (Bool-cases (is_ok (port.send_quiet (change_input t.input) w).0)) [
        | inr a ↦ absurd (ground (arith, rw a at h))
        | inl a ↦ elim (Bool-cases (wait_for_input port input_rounds t.input w1).0) [
          | inr b ↦ absurd (ground (arith, rw (a, b) at h))
          | inl b ↦ elim (Bool-cases (is_ok (port.send_quiet (tx_command t) w2).0)) [
            | inr d ↦ absurd (ground (arith, rw (a, b, d) at h))
            | inl d ↦
                rw (a, b, d)
                  (ap (λ (x : Contents). x.transcoder)
                      (law.query_all_keeps (tx_query (tx_letter t) t.input) tx_answer_window_ms
                          (port.delay tx_settle_ms w3) (tx_letter_other t)
                        ∙ law.delay_keeps tx_settle_ms w3)
                    ∙ sent t w2 (wait_for_input_shows input_rounds t.input w1 b) d
                    ∙ ap (switched t.rgb t.input t.on) k2)
          ]
        ]
      ]
    where
      sent :
          (t : TxChange) (w2 : W)
          → Info.current_input (port.info w2) ≡ some t.input
          → is_ok (port.send_quiet (tx_command t) w2).0 ≡ true
          → tx_in (port.send_quiet (tx_command t) w2).1 ≡ switched t.rgb t.input t.on (tx_in w2)
      sent t w2 shown took =
          let name = tx_command-tx_name t in
          ap (λ cmd. tx_in (port.send_quiet cmd w2).1) name
          ∙ law.tx_sets t.rgb t.on t.input w2 shown
              (ap (λ cmd. is_ok (port.send_quiet cmd w2).0) (sym name) ∙ took)

  go_on_switches :
      (r : (Option TxFailure × Bool) × W) (t : TxChange) (run : TxRun) (c : Ctx W)
      (changes : List TxChange) (next : TxRun → Ctx W → TxRun × Ctx W) (tx : Tx)
      → (r.0.0 ≡ none → tx_in r.1 ≡ switched t.rgb t.input t.on tx)
      → ((run' : TxRun) (c' : Ctx W)
          → TxRun.failed (next run' c').0 ≡ none
          → tx_in (next run' c').1.world ≡ all_switched changes (tx_in c'.world))
      → TxRun.failed (go_on r t run c next).0 ≡ none
      → tx_in (go_on r t run c next).1.world ≡ all_switched (t ∷ changes) tx
  unfolding all_switched
  go_on_switches ((some f, confirmed), w) t run c changes next tx set rest h =
      absurd (ground (arith, h))
  go_on_switches ((none, confirmed), w) t run c changes next tx set rest h =
      rest _ _ h ∙ ap (all_switched changes) (set refl)

  set_transcoders_switch :
      (steps step : ℕ) (changes : List TxChange) (run : TxRun) (c : Ctx W)
      → TxRun.failed (set_transcoders port steps step changes run c).0 ≡ none
      → tx_in (set_transcoders port steps step changes run c).1.world
        ≡ all_switched changes (tx_in c.world)
  unfolding set_transcoders all_switched set_phase
  set_transcoders_switch steps step [] run c h = refl
  set_transcoders_switch steps step (t ∷ changes) run c h =
      let c1 = set_phase (setting_transcoder t.input) (100 * step / steps) c in
      go_on_switches (set_transcoder port t c1.world) t run c1 changes _ (tx_in c.world)
        (set_transcoder_switches t c1.world)
        (λ run' c' h'. set_transcoders_switch steps (suc step) changes run' c' h') h

  -- Where no transcoder failed, all are as they were wanted.
  pub change_transcoders-AreSwitched :
      (steps step : ℕ) (want settings : List InputSettings) (c : Ctx W)
      → TxRun.failed (change_transcoders port steps step (tx_changes 1 want settings) settings c).0
        ≡ none
      → AreSwitched want settings (tx_in c.world) (
          tx_in
            (change_transcoders port steps step (tx_changes 1 want settings) settings c).1.world)
  unfolding change_transcoders all_switched
  change_transcoders-AreSwitched steps step want settings c h =
      subst (AreSwitched want settings (tx_in c.world)) (sym (at (tx_changes 1 want settings) h))
        (all_switched-AreSwitched want settings (tx_in c.world))
    where
      at :
          (changes : List TxChange)
          → TxRun.failed (change_transcoders port steps step changes settings c).0 ≡ none
          → tx_in (change_transcoders port steps step changes settings c).1.world
            ≡ all_switched changes (tx_in c.world)
      at [] h = refl
      at (t ∷ changes) h =
          ap (λ (x : Contents). x.transcoder) (change_input_keeps law _ _)
          ∙ set_transcoders_switch steps step (t ∷ changes) _ c h
