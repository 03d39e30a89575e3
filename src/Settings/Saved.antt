-- ===== src/Settings/Saved.antt =====
-- platform/esp32/main/svs_settings.cpp: what `write_task` leaves in the SVS and in the snapshot.
use svs_bridge.Base.{ℕ, ◌<◌, ◌≡◌, ◌⊎◌, Bool, true, false, List, length}
use svs_bridge.Config.{InputSettings, ok, plan_writes}
use svs_bridge.Config.Changes.{write_all}
use svs_bridge.Config.Plans.{AreSettings}
use svs_bridge.Settings.{Port, Read, Report, State, Ctx}
use svs_bridge.Settings.Writing.{planned}
use svs_bridge.Settings.Law.{Contents, IsSvs, SameState, Agrees}
use svs_bridge.Settings.Sent.{Away, AreIn}
use svs_bridge.Settings.Wanted.{Tx, AreSwitched}

-- The plan of a write went through: its bytes are in the EEPROM and in the new snapshot `r'`, every byte of
-- which is in the EEPROM. The snapshot is of the same SVS as `r`, and has what the write leaves alone.
pub record IsWritten (m : Contents) (want : List InputSettings) (r r' : Read) : Type 0 where
  pub writes : List (ℕ × ℕ)
  pub planned : plan_writes r.eeprom want r.inputs ≡ ok writes
  pub saved : AreIn m.eeprom writes
  pub eeprom : r'.eeprom ≡ write_all writes r.eeprom
  pub agrees : Agrees m.eeprom r'.eeprom
  pub valid : r'.valid ≡ r.valid
  pub inputs : r'.inputs ≡ r.inputs
  pub connection : r'.connection ≡ r.connection
  pub firmware : r'.firmware ≡ r.firmware
  pub hardware : r'.hardware ≡ r.hardware

-- Address `a` is none that a plan writes.
abbrev pub IsSpared : Read → List InputSettings → ℕ → Type 0
IsSpared r want a =
    (writes : List (ℕ × ℕ)) → plan_writes r.eeprom want r.inputs ≡ ok writes → Away writes a

-- How the task can end: with all saved and the transcoders set, with all saved but a transcoder that
-- failed, or with the snapshot and the transcoders as they were, which were `before`.
abbrev pub WriteEnd : Contents → Tx → List InputSettings → Read → State → Type 0
WriteEnd m before want r s =
    ((s.result_ok ≡ true)
      × IsWritten m want r s.last_read
      × (Read.settings s.last_read ≡ want)
      × AreSwitched want r.settings before m.transcoder)
    ⊎ (((s.result_ok ≡ false) × IsWritten m want r s.last_read)
        ⊎ ((s.result_ok ≡ false) × (s.last_read ≡ r) × (m.transcoder ≡ before)))

module _ {W : Type 0} {port : Port W} {contents : W → Contents} (law : IsSvs port contents)
    (m : Contents) (s : State) (r : Read) (want : List InputSettings)
    (agrees : Agrees m.eeprom r.eeprom) (full : length r.settings ≡ r.inputs)
    (settings : AreSettings want) (bytes : (a : ℕ) → m.eeprom a < 256) where
  -- No byte changed but those of the plan.
  abbrev Spared : W → Type 0
  Spared w = (a : ℕ) → IsSpared r want a → Contents.eeprom (contents w) a ≡ m.eeprom a

  -- What holds where the task gives up, and of the variables then.
  abbrev Lost : Ctx W → Type 0
  Lost c =
      Spared c.world × (Contents.transcoder (contents c.world) ≡ m.transcoder) × SameState s c.state

  -- What holds where the plan was carried out.
  abbrev Held : Report × Bool → Ctx W → Type 0
  Held (ending, good) c =
      Spared c.world
      × (((good ≡ true)
            × IsWritten (contents c.world) want r (State.last_read c.state)
            × (Read.settings (State.last_read c.state) ≡ want)
            × AreSwitched want r.settings m.transcoder (Contents.transcoder (contents c.world)))
          ⊎ ((good ≡ false) × IsWritten (contents c.world) want r (State.last_read c.state)))
