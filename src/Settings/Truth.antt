-- ===== src/Settings/Truth.antt =====
-- platform/esp32/main/svs_settings.cpp: what `read_task` leaves: a snapshot of the SVS's settings, or
-- the one before.
use svs_bridge.Base.{
  ℕ, zero, suc, ◌≤◌, ◌<◌, ◌≡◌, ◌≢◌, ◌⊎◌, inl, inr, refl, sym, ap, ◌∙◌, true, false, List, Option,
  none, some, arith, length, get_elem?, replicate, All, All-map,
}
use svs_bridge.Config.{Eeprom, InputSettings, get_byte, ir_slots, decode_hardware, decode_input}
use svs_bridge.Config.Addresses.{bitmap_addresses-IsRead, bitmap_addresses-lt}
use svs_bridge.Config.Commands.{bitmap_addresses}
use svs_bridge.Config.Plans.{some-inj}
use svs_bridge.Config.Success.{IsRead}
use svs_bridge.Settings.{
  Port, Info, Task, Read, State, Ctx, Outcome, done, gave_up, no_bytes, finish, settle, keep_read,
  read_done,
}
use svs_bridge.Settings.Reading.{
  read_bytes, read_transcoders, read_codes, log_transcoders, decode_inputs, read_of, read_rest,
  read_settings, start_session, end_read, read_task,
}
use svs_bridge.Config.Writes.{get_elem?-lt}
use svs_bridge.Settings.Law.{Contents, IsSvs, Ends, bind-Ends, map-Ends, Quiet, Agrees, dump}
use svs_bridge.Settings.Grown.{Grown, IsKnown, SlotsRead}
use svs_bridge.Settings.Answers.{
  AllHaveTx, read_bytes_truth, read_transcoders_truth, log_transcoders_quiet,
}
use svs_bridge.Settings.Codes.{read_codes_truth}
use svs_bridge.Settings.Decoded.{
  decode_hardware-dump, decode_input-dump, decode_input_idem, length-decode_inputs,
  get_elem?-decode_inputs,
}

-- What was read is true of the SVS: its bytes are in the EEPROM, the hardware and the settings are what
-- the whole EEPROM decodes to, and the flags of the transcoders are what these have.
pub record IsTrue (m : Contents) (r : Read) : Type 0 where
  pub agrees : Agrees m.eeprom r.eeprom
  pub known : IsRead r.eeprom r.inputs
  pub hardware : r.hardware ≡ decode_hardware (dump m.eeprom) r.inputs
  pub count : length r.settings ≡ r.inputs
  pub settings :
      (i : ℕ) (s : InputSettings)
      → get_elem? r.settings i ≡ some s
      → s ≡ decode_input (dump m.eeprom) (suc i) r.inputs s
  pub transcoders : AllHaveTx m r.hardware 1 r.settings

-- A snapshot of the SVS that `i` tells of, which has so many inputs.
pub record IsReadOf (m : Contents) (i : Info) (inputs : ℕ) (r : Read) : Type 0 where
  pub valid : r.valid ≡ true
  pub connection : r.connection ≡ i.connections
  pub firmware : r.firmware ≡ i.firmware
  pub same_inputs : r.inputs ≡ inputs
  pub contents : IsTrue m r

-- There is a read, and it is such a snapshot.
abbrev IsSome : Contents → Info → ℕ → Option Read → Type 0
IsSome m i n none = ⊥
IsSome m i n (some r) = IsReadOf m i n r

decode_rgb :
    (e : Eeprom) (n inputs : ℕ) (s : InputSettings)
    → InputSettings.rgb_to_ypbpr (decode_input e n inputs s) ≡ s.rgb_to_ypbpr
unfolding decode_input
decode_rgb e n inputs s = refl

decode_ypbpr :
    (e : Eeprom) (n inputs : ℕ) (s : InputSettings)
    → InputSettings.ypbpr_to_rgb (decode_input e n inputs s) ≡ s.ypbpr_to_rgb
unfolding decode_input
decode_ypbpr e n inputs s = refl

no_bytes-Agrees : (m : ℕ → ℕ) → Agrees m no_bytes
unfolding get_byte
no_bytes-Agrees m = record { full = refl; agree = λ a v h. absurd (unread 1024 a v h) }
  where
    unread : (n a v : ℕ) → get_byte (record { bytes = replicate n none }) a ≢ some v
    unread zero a v h = ground (arith, h)
    unread (suc n) zero v h = ground (arith, h)
    unread (suc n) (suc a) v h = unread n a v h

module _ {W : Type 0} {port : Port W} {contents : W → Contents} (law : IsSvs port contents) where
  module _ (m : Contents) (s : State) (i : Info) (n : ℕ) (few : n ≤ 32) where
    abbrev Q : Ctx W → Type 0
    Q = Quiet contents m s

    snapshot-IsTrue :
        (e e' : Eeprom) (settings : List InputSettings)
        → Agrees m.eeprom e
        → All (IsKnown e) (bitmap_addresses n)
        → length settings ≡ n
        → AllHaveTx m (decode_hardware e n) 1 settings
        → Grown m.eeprom e e'
        → ((k : ℕ) → 1 ≤ k → k ≤ n → SlotsRead e' n k 0 (ir_slots n))
        → IsTrue m (read_of i n (decode_hardware e n) e' (decode_inputs e' n 1 settings))
    snapshot-IsTrue e e' settings agrees known full tx grown slots = record {
      agrees = grown.agrees;
      known = bitmap_addresses-IsRead e' n known';
      hardware = decode_hardware-dump m.eeprom e n agrees few known;
      count = length-decode_inputs e' n 1 settings ∙ full;
      settings = λ k t got.
          let (old, before, same) = get_elem?-decode_inputs e' n 1 settings k t got in
          let inside : k < n = omega (arith, get_elem?-lt settings k before, full) in
          let whole : t ≡ decode_input (dump m.eeprom) (suc k) n old =
            same
            ∙ ap (λ j. decode_input e' j n old) (omega arith)
            ∙ decode_input-dump m.eeprom e' n grown.agrees (suc k) old (omega arith) inside few
                known' (slots (suc k) (omega arith) inside) in
          whole
          ∙ sym (decode_input_idem (dump m.eeprom) (suc k) n old)
          ∙ ap (decode_input (dump m.eeprom) (suc k) n) (sym whole);
      transcoders = λ k t got.
          let (old, before, same) = get_elem?-decode_inputs e' n 1 settings k t got in
          let (rgb, ypbpr) = tx k old before in
          (
            ap (λ (s' : InputSettings). s'.rgb_to_ypbpr) same ∙ decode_rgb e' _ n old ∙ rgb,
            ap (λ (s' : InputSettings). s'.ypbpr_to_rgb) same ∙ decode_ypbpr e' _ n old ∙ ypbpr,
          );
    }
      where
        known' : All (IsKnown e') (bitmap_addresses n)
        known' = All-map (bitmap_addresses n) (λ a h gone. h (grown.no_loss a gone)) known

    read_settings-IsReadOf :
        (c : Ctx W) → Q c → Ends (λ o c'. Q c' × IsSome m i n o) Q (read_settings port i (some n) c)
    unfolding read_settings read_rest
    read_settings-IsReadOf c quiet =
        let addrs = bitmap_addresses n in
        bind-Ends _ Q (read_bytes port (length addrs) 0 addrs no_bytes c) _ (
          map-Ends (read_bytes port (length addrs) 0 addrs no_bytes c)
            (λ e c1 (q1, g1, known).
              let hw = decode_hardware e n in
              let c1' = log_transcoders port hw c1 in
              bind-Ends _ Q (read_transcoders port hw n 1 n c1') _ (
                map-Ends (read_transcoders port hw n 1 n c1')
                  (λ settings c2 (q2, full, tx). bind-Ends _ Q (read_codes port n 1 n e c2) _ (
                    map-Ends (read_codes port n 1 n e c2)
                      (λ e' c3 (q3, g3, slots). (
                        q3,
                        record {
                          valid = refl;
                          connection = refl;
                          firmware = refl;
                          same_inputs = refl;
                          contents = snapshot-IsTrue e e' settings g1.agrees known full tx g3 slots;
                        },
                      ))
                      (λ c3 q. q) (read_codes_truth law m s n 1 n e c2 (omega arith) g1.agrees q2)))
                  (λ c2 q. q)
                  (read_transcoders_truth law m s hw n 1 n c1'
                    (log_transcoders_quiet law m s hw c1 q1))))
            (λ c1 q. q)
            (read_bytes_truth law m s (length addrs) 0 addrs no_bytes c (bitmap_addresses-lt n few)
              (no_bytes-Agrees m.eeprom) quiet))

  module _ (m : Contents) (s : State) (i : Info) where
    -- Where the number of inputs is not known there is no read, whether the device aborts or not.
    read_settings_unknown :
        (c : Ctx W)
        → Quiet contents m s c
        → Ends (λ o c'. o ≡ none) (Quiet contents m s) (read_settings port i none c)
    unfolding read_settings read_rest
    read_settings_unknown c quiet =
        let addrs = bitmap_addresses 0 in
        bind-Ends _ (Quiet contents m s) (read_bytes port (length addrs) 0 addrs no_bytes c) _ (
          map-Ends (read_bytes port (length addrs) 0 addrs no_bytes c) (λ e c1 h. refl) (λ c1 q. q)
            (read_bytes_truth law m s (length addrs) 0 addrs no_bytes c
              (bitmap_addresses-lt 0 (omega arith)) (no_bytes-Agrees m.eeprom) quiet))

  -- A read that comes to an end then leaves the snapshot as it was.
  pub read_task_unknown :
      (c c' : Ctx W)
      → Info.total_inputs (port.info c.world) ≡ none
      → read_task port c ≡ some c'
      → (State.task c'.state ≡ Task.idle) × (State.last_read c'.state ≡ State.last_read c.state)
  unfolding read_task finish
  read_task_unknown c c' unknown run =
      at (read_settings port (port.info c.world) none (start_session port c))
        (read_settings_unknown (contents c.world) c.state (port.info c.world) (start_session port c)
          (record { same = law.begin_keeps c.world; state = refl }))
        (ap (λ o. end_read port (read_settings port (port.info c.world) o (start_session port c)))
            (sym unknown)
          ∙ run)
    where
      at :
          (o : Outcome W (Option Read))
          → Ends (λ r c1. r ≡ none) (Quiet contents (contents c.world) c.state) o
          → end_read port o ≡ some c'
          → (State.task c'.state ≡ Task.idle) × (State.last_read c'.state ≡ State.last_read c.state)
      at (done none c1) h e = absurd (ground (arith, e))
      at (done (some r) c1) h e = absurd (ground (arith, h))
      at (gave_up why c1) q e =
          let there : settle port (gave_up why c1) ≡ c' = some-inj e in
          (
            ap (λ (x : Ctx W). x.state.task) (sym there),
            ap (λ (x : Ctx W). x.state.last_read) (sym there) ∙ ap State.last_read q.state,
          )

  -- How a read can end: with a new snapshot, or with the one before.
  abbrev pub ReadEnd : Ctx W → ℕ → Ctx W → Type 0
  ReadEnd c n c' =
      ((State.result_ok c'.state ≡ true)
        × IsReadOf (contents c.world) (port.info c.world) n (State.last_read c'.state))
      ⊎ ((State.result_ok c'.state ≡ false) × (State.last_read c'.state ≡ State.last_read c.state))

  -- With an SVS as in `IsSvs` whose number of inputs is known and at most 32, a read comes to an end and
  -- never changes the EEPROM or a transcoder. It either succeeds, and then the new snapshot is of that
  -- SVS and true: each byte it has is in the EEPROM, its hardware and settings are what the whole EEPROM
  -- decodes to, and its transcoders are on where those of the SVS are; or it fails, and the snapshot is
  -- the one before. No task runs then.
  pub read_task-IsReadOf :
      (c : Ctx W) (n : ℕ)
      → Info.total_inputs (port.info c.world) ≡ some n
      → n ≤ 32
      → (c' : Ctx W) × (read_task port c ≡ some c')
        × (contents c'.world ≡ contents c.world)
        × (State.task c'.state ≡ Task.idle)
        × ReadEnd c n c'
  unfolding read_task finish keep_read
  read_task-IsReadOf c n known few =
      let (c', run, same, idle, ended) =
        at (read_settings port (port.info c.world) (some n) (start_session port c)) (
          read_settings-IsReadOf (contents c.world) c.state (port.info c.world) n few
            (start_session port c) (record { same = law.begin_keeps c.world; state = refl })) in
      (
        c',
        ap (λ o. end_read port (read_settings port (port.info c.world) o (start_session port c)))
              known
            ∙ run,
        same,
        idle,
        ended,
      )
    where
      at :
          (o : Outcome W (Option Read))
          → Ends
              (λ r c'.
                Quiet contents (contents c.world) c.state c'
                × IsSome (contents c.world) (port.info c.world) n r)
              (Quiet contents (contents c.world) c.state)
              o
          → (c' : Ctx W) × (end_read port o ≡ some c')
            × (contents c'.world ≡ contents c.world)
            × (State.task c'.state ≡ Task.idle)
            × ReadEnd c n c'
      at (done none c') (q, h) = absurd h
      at (done (some r) c') (q, h) = (
        settle port (done (read_done r.inputs, true) (keep_read port r c')),
        refl,
        law.end_keeps c'.world ∙ q.same,
        refl,
        inl (
          refl,
          record {
            valid = h.valid;
            connection = h.connection;
            firmware = h.firmware;
            same_inputs = h.same_inputs;
            contents = record {
              agrees = h.contents.agrees;
              known = h.contents.known;
              hardware = h.contents.hardware;
              count = h.contents.count;
              settings = h.contents.settings;
              transcoders = h.contents.transcoders;
            };
          },
        ),
      )
      at (gave_up why c') q = (
        settle port (gave_up why c'),
        refl,
        law.end_keeps c'.world ∙ q.same,
        refl,
        inr (refl, ap State.last_read q.state),
      )
