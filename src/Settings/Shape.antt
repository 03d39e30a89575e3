-- ===== src/Settings/Shape.antt =====
-- platform/esp32/main/svs_settings.cpp: the shape of the snapshot that `write_task` leaves, whatever is at
-- the other end.
use svs_bridge.Base.{
  ℕ, zero, suc, ◌+◌, ◌-◌, ◌*◌, ◌/◌, ◌≡◌, ◌⊎◌, inl, inr, refl, ap, ◌∙◌, Bool, List, [], ◌∷◌, Option,
  none, some, ◌==◌, if◌then◌else◌, Bool-cases, length,
}
use svs_bridge.Config.{Eeprom, InputSettings, Plan, ok, refused, plan_writes, set_byte}
use svs_bridge.Config.Changes.{write_all}
use svs_bridge.Config.Commands.{read_command, write_command}
use svs_bridge.Flasher.{is_ok}
use svs_bridge.Settings.{
  Port, Phase, setting_transcoder, Task, TxFailure, kept_other, Report, Read, State, Ctx, Outcome,
  done, gave_up, ◌>>=◌, set_phase, finish, settle, keep_read,
}
use svs_bridge.Settings.Asking.{ask_byte, needed, need_byte}
use svs_bridge.Settings.Reading.{start_session}
use svs_bridge.Settings.Writing.{
  TxChange, tx_changes, send_write, send_writes, check_write, check_writes, set_transcoder, put_at,
  TxRun, go_on, set_transcoders, change_transcoders, planned, write_rest, write_settings,
  write_task,
}
use svs_bridge.Settings.Law.{Ends, bind-Ends, map-Ends, SameState}
use svs_bridge.Settings.Decoded.{length-decode_inputs}

-- A snapshot after a write: the one before, or one with the bytes of the plan.
pub record IsRewritten (want : List InputSettings) (r r' : Read) : Type 0 where
  pub writes : List (ℕ × ℕ)
  pub planned : plan_writes r.eeprom want r.inputs ≡ ok writes
  pub eeprom : r'.eeprom ≡ write_all writes r.eeprom
  pub inputs : r'.inputs ≡ r.inputs
  pub hardware : r'.hardware ≡ r.hardware
  pub settings : length r'.settings ≡ length r.settings

length-put_at :
    (n : ℕ) (t : TxChange) (settings : List InputSettings)
    → length (put_at n t settings) ≡ length settings
unfolding put_at
length-put_at n t [] = refl
length-put_at zero t (s ∷ settings) = refl
length-put_at (suc n) t (s ∷ settings) = ap suc (length-put_at n t settings)

module _ {W : Type 0} (port : Port W) (s : State) where
  abbrev Q : Ctx W → Type 0
  Q c = SameState s c.state

  phase_same : (phase : Phase) (progress : ℕ) (c : Ctx W) → Q c → Q (set_phase phase progress c)
  unfolding set_phase
  phase_same phase progress c same =
      ap (λ (t : State). record t { phase = phase; progress = progress }) same

  needed_same :
      (cmd : List ℕ) (r : Option ℕ × W) (c : Ctx W) → Q c → Ends (λ v c'. Q c') Q (needed cmd r c)
  needed_same cmd (none, w) c same = same
  needed_same cmd (some v, w) c same = same

  send_write_same : (x : ℕ × ℕ) (c : Ctx W) → Q c → Ends (λ u c'. Q c') Q (send_write port x c)
  unfolding send_write
  send_write_same (addr, v) c same =
      elim (Bool-cases (is_ok (port.send_quiet (write_command addr v) c.world).0)) [
        | inl t ↦ rw t same
        | inr f ↦ rw f same
      ]

  send_writes_same :
      (steps step : ℕ) (writes : List (ℕ × ℕ)) (c : Ctx W)
      → Q c
      → Ends (λ u c'. Q c') Q (send_writes port steps step writes c)
  unfolding send_writes
  send_writes_same steps step [] c same = same
  send_writes_same steps step (x ∷ writes) c same =
      let c1 = set_phase Phase.saving (100 * step / steps) c in
      bind-Ends _ Q (send_write port x c1) _ (
        map-Ends (send_write port x c1) (λ u c' q. send_writes_same steps (suc step) writes c' q)
          (λ c' q. q) (send_write_same x c1 (phase_same _ _ c same)))

  check_write_same :
      (addr v : ℕ) (e : Eeprom) (c : Ctx W)
      → Q c
      → Ends (λ e' c'. Q c' × (e' ≡ set_byte e addr v)) Q (check_write port (addr, v) e c)
  unfolding check_write need_byte
  check_write_same addr v e c same =
      let asked = needed (read_command addr) (ask_byte port (read_command addr) c.world) c in
      bind-Ends _ Q asked _ (
        map-Ends asked (λ u c' q. at u c' q) (λ c' q. q)
          (needed_same (read_command addr) (ask_byte port (read_command addr) c.world) c same))
    where
      at :
          (u : ℕ) (c' : Ctx W)
          → Q c'
          → Ends
              (λ e' c''. Q c'' × (e' ≡ set_byte e addr v))
              Q
              (if u == v then done (set_byte e addr v) c' else gave_up (kept_other u addr v) c')
      at u c' q = elim (Bool-cases (u == v)) [ inl t ↦ rw t (q, refl) | inr f ↦ rw f q ]

  check_writes_same :
      (steps step : ℕ) (writes : List (ℕ × ℕ)) (e : Eeprom) (c : Ctx W)
      → Q c
      → Ends (λ e' c'. Q c' × (e' ≡ write_all writes e)) Q (check_writes port steps step writes e c)
  unfolding check_writes write_all
  check_writes_same steps step [] e c same = (same, refl)
  check_writes_same steps step ((addr, v) ∷ writes) e c same =
      let c1 = set_phase Phase.checking (100 * step / steps) c in
      bind-Ends _ Q (check_write port (addr, v) e c1) _ (
        map-Ends (check_write port (addr, v) e c1)
          (λ e1 c' (q, made).
            map-Ends (check_writes port steps (suc step) writes e1 c')
              (λ e2 c'' (q', all). (q', all ∙ ap (write_all writes) made)) (λ c'' q'. q')
              (check_writes_same steps (suc step) writes e1 c' q))
          (λ c' q. q) (check_write_same addr v e c1 (phase_same _ _ c same)))

  -- The settings keep their number, and the variables what they are.
  TxSame : ℕ → TxRun × Ctx W → Type 0
  TxSame n (run, c) = (length run.settings ≡ n) × Q c

  go_on_same :
      (r : (Option TxFailure × Bool) × W) (t : TxChange) (run : TxRun) (c : Ctx W) (n : ℕ)
      (next : TxRun → Ctx W → TxRun × Ctx W)
      → length run.settings ≡ n
      → Q c
      → ((run' : TxRun) (c' : Ctx W) → length run'.settings ≡ n → Q c' → TxSame n (next run' c'))
      → TxSame n (go_on r t run c next)
  unfolding TxSame
  go_on_same ((some f, confirmed), w) t run c n next count same rest = (count, same)
  go_on_same ((none, confirmed), w) t run c n next count same rest =
      rest _ _ (length-put_at (t.input - 1) t run.settings ∙ count) same

  set_transcoders_same :
      (steps step : ℕ) (tx : List TxChange) (run : TxRun) (c : Ctx W) (n : ℕ)
      → length run.settings ≡ n
      → Q c
      → TxSame n (set_transcoders port steps step tx run c)
  unfolding set_transcoders TxSame
  set_transcoders_same steps step [] run c n count same = (count, same)
  set_transcoders_same steps step (t ∷ tx) run c n count same =
      let c1 = set_phase (setting_transcoder t.input) (100 * step / steps) c in
      go_on_same (set_transcoder port t c1.world) t run c1 n _ count (phase_same _ _ c same)
        (λ run' c' count' q. set_transcoders_same steps (suc step) tx run' c' n count' q)

  change_transcoders_same :
      (steps step : ℕ) (tx : List TxChange) (settings : List InputSettings) (c : Ctx W)
      → Q c
      → TxSame (length settings) (change_transcoders port steps step tx settings c)
  unfolding change_transcoders TxSame
  change_transcoders_same steps step [] settings c same = (refl, same)
  change_transcoders_same steps step (t ∷ tx) settings c same =
      set_transcoders_same steps step (t ∷ tx) _ c (length settings) refl same

  -- The snapshot where the plan was carried out.
  abbrev Rewritten : List InputSettings → Read → Ctx W → Type 0
  Rewritten want r c = IsRewritten want r (State.last_read c.state) × (State.want c.state ≡ s.want)

  write_settings-IsRewritten :
      (r : Read) (want : List InputSettings) (c : Ctx W)
      → Q c
      → Ends (λ ending c'. Rewritten want r c') Q (write_settings port r want c)
  unfolding write_settings write_rest keep_read TxSame
  write_settings-IsRewritten r want c same = at (plan_writes r.eeprom want r.inputs) refl
    where
      rest :
          (writes : List (ℕ × ℕ))
          → plan_writes r.eeprom want r.inputs ≡ ok writes
          → (steps : ℕ) (e : Eeprom) (c' : Ctx W) → Q c' × (e ≡ write_all writes r.eeprom)
          → Ends
              (λ ending c''. Rewritten want r c'')
              Q
              (write_rest port steps r writes (tx_changes 1 want r.settings) e c')
      rest writes run steps e c' (q, made) =
          let tx = tx_changes 1 want r.settings in
          let (count, q') = change_transcoders_same steps (length writes * 2) tx r.settings c' q in
          (
            record {
              writes = writes;
              planned = run;
              eeprom = made;
              inputs = refl;
              hardware = refl;
              settings = length-decode_inputs e r.inputs 1 _ ∙ count;
            },
            ap State.want q',
          )

      at :
          (p : Plan (List (ℕ × ℕ)))
          → plan_writes r.eeprom want r.inputs ≡ p
          → Ends
              (λ ending c'. Rewritten want r c')
              Q
              (planned p c >>= (λ writes c1.
                let tx = tx_changes 1 want r.settings in
                let steps = length writes * 2 + length tx + 1 in
                send_writes port steps 0 writes c1
                >>= (λ u. check_writes port steps (length writes) writes r.eeprom)
                >>= write_rest port steps r writes tx))
      at (refused e) run = same
      at (ok writes) run =
          let tx = tx_changes 1 want r.settings in
          let steps = length writes * 2 + length tx + 1 in
          bind-Ends _ Q
            (send_writes port steps 0 writes c
              >>= (λ u. check_writes port steps (length writes) writes r.eeprom))
            _
            (bind-Ends _ Q (send_writes port steps 0 writes c) _ (
              map-Ends (send_writes port steps 0 writes c)
                (λ u c1 q.
                  map-Ends (check_writes port steps (length writes) writes r.eeprom c1)
                    (λ e c2 h. rest writes run steps e c2 h) (λ c2 q'. q')
                    (check_writes_same steps (length writes) writes r.eeprom c1 q))
                (λ c1 q. q) (send_writes_same steps 0 writes c same)))

-- A write task ends idle, with the snapshot as it was or with the bytes of its plan.
pub write_task-IsRewritten :
    {W : Type 0} (port : Port W) (c : Ctx W)
    → let s' = Ctx.state (write_task port c) in
      (s'.task ≡ Task.idle)
      × ((s'.last_read ≡ State.last_read c.state)
          ⊎ IsRewritten (State.want c.state) (State.last_read c.state) s'.last_read)
unfolding write_task finish
write_task-IsRewritten {W} port c =
    at (write_settings port (State.last_read c.state) (State.want c.state) (start_session port c)) (
      write_settings-IsRewritten port c.state (State.last_read c.state) (State.want c.state)
        (start_session port c) refl)
  where
    at :
        (o : Outcome W (Report × Bool))
        → Ends
            (λ ending c'. Rewritten port c.state (State.want c.state) (State.last_read c.state) c')
            (λ c'. SameState c.state c'.state)
            o
        → let s' = Ctx.state (settle port o) in
          (s'.task ≡ Task.idle)
          × ((s'.last_read ≡ State.last_read c.state)
              ⊎ IsRewritten (State.want c.state) (State.last_read c.state) s'.last_read)
    at (gave_up why c') same = (refl, inl (ap State.last_read same))
    at (done (ending, good) c') (rewritten, to_write) = (refl, inr rewritten)
