-- ===== src/Settings/Reachable.antt =====
-- platform/esp32/main/svs_settings.cpp: the states that its calls and its tasks reach. A call is one step,
-- and so is a task's run; between them the world may become any other.
use svs_bridge.Base.{ℕ, ◌≤◌, ◌≡◌, ◌⊎◌, inl, inr, refl, sym, ap, subst, ◌∙◌, Bool, List, some, arith}
use svs_bridge.Config.{InputSettings, ok, plan_writes}
use svs_bridge.Config.Plans.{AreSettings, some-inj}
use svs_bridge.Config.Success.{plan_writes_succeeds}
use svs_bridge.Settings.{Port, Info, Task, Read, initial, Ctx}
use svs_bridge.Settings.Reading.{count, read_task}
use svs_bridge.Settings.Writing.{write_task}
use svs_bridge.Settings.Api.{start_read, start_write}
use svs_bridge.Settings.Law.{Contents, IsSvs, known_cases}
use svs_bridge.Settings.Truth.{read_task-IsReadOf, read_task_unknown}
use svs_bridge.Settings.Started.{start_write-IsStarted}
use svs_bridge.Settings.Shape.{write_task-IsRewritten}
use svs_bridge.Settings.Snapshots.{IsSnapshot, IsReadOf-IsSnapshot, IsRewritten-IsSnapshot}
use svs_bridge.Settings.Calls.{
  IsReady, IsCoherent, IsAside-IsCoherent, start_read-IsAside, start_write-cases,
  IsStarted-IsCoherent, idle-IsCoherent,
}

-- One step of the program.
pub data Step {W : Type 0} (port : Port W) : Ctx W → Ctx W → Type 0 where
  world_changes : {c : Ctx W} (w : W) → Step port c (record c { world = w })
  call_read :
      {c : Ctx W} (created : Bool)
      → Step port c (record c { state = (start_read port c.world created c.state).1 })
  call_write :
      {c : Ctx W} (created : Bool) (want : List InputSettings)
      → Step port c (record c { state = (start_write port c.world created want c.state).1 })
  run_read :
      {c c' : Ctx W} → c.state.task ≡ Task.reading → read_task port c ≡ some c' → Step port c c'
  run_write : {c : Ctx W} → c.state.task ≡ Task.writing → Step port c (write_task port c)

pub data Reachable {W : Type 0} (port : Port W) : Ctx W → Type 0 where
  start : (w : W) → Reachable port (record { state = initial; world = w })
  step : {c c' : Ctx W} → Reachable port c → Step port c c' → Reachable port c'

module _ {W : Type 0} {port : Port W} {contents : W → Contents} (law : IsSvs port contents)
    (few : (w : W) → count (Info.total_inputs (port.info w)) ≤ 32) where
  -- A read that comes to an end leaves a new snapshot or the one before.
  read_task-cases :
      (c c' : Ctx W)
      → read_task port c ≡ some c'
      → (c'.state.task ≡ Task.idle)
        × (IsSnapshot c'.state.last_read ⊎ (c'.state.last_read ≡ c.state.last_read))
  read_task-cases c c' run = elim (known_cases (Info.total_inputs (port.info c.world))) [
    | inl unknown ↦ let (idle, same) = read_task_unknown law c c' unknown run in (idle, inr same)
    | inr (n, known) ↦
        let (c1, run1, kept, idle, ended) =
          read_task-IsReadOf law c n known (subst (λ o. count o ≤ 32) known (few c.world)) in
        let there : c1 ≡ c' = some-inj (sym run1 ∙ run) in
        subst
          (λ (x : Ctx W).
            (x.state.task ≡ Task.idle)
            × (IsSnapshot x.state.last_read ⊎ (x.state.last_read ≡ c.state.last_read)))
          there
          (
            idle,
            elim ended [
              | inl (okay, h) ↦ inl (
                  IsReadOf-IsSnapshot (contents c.world) (port.info c.world) n _
                    (law.are_bytes c.world) h)
              | inr (bad, same) ↦ inr same
            ],
          )
  ]

  Step-IsCoherent : {c c' : Ctx W} → Step port c c' → IsCoherent c.state → IsCoherent c'.state
  Step-IsCoherent (world_changes w) good = good
  Step-IsCoherent {c} (call_read created) good =
      IsAside-IsCoherent c.state _ (start_read-IsAside port c.world created c.state) good
  Step-IsCoherent {c} (call_write created want) good =
      elim (start_write-cases port c.world created want c.state) [
        | inr side ↦ IsAside-IsCoherent c.state _ side good
        | inl begun ↦
            IsStarted-IsCoherent
              (start_write-IsStarted port c.world created want c.state
                (λ v. IsSnapshot.shaped (good.snapshot v)) begun)
              good
      ]
  Step-IsCoherent {c} {c'} (run_read task run) good =
      let (idle, ended) = read_task-cases c c' run in
      idle-IsCoherent _ idle (λ v. elim ended [
        | inl snap ↦ snap
        | inr same ↦ subst IsSnapshot (sym same) (good.snapshot (ap Read.valid (sym same) ∙ v))
      ])
  Step-IsCoherent {c} (run_write task) good =
      let (idle, ended) = write_task-IsRewritten port c in
      let snap = good.snapshot (IsReady.valid (good.ready task)) in
      idle-IsCoherent _ idle (λ v. elim ended [
        | inl same ↦ subst IsSnapshot (sym same) snap
        | inr h ↦ IsRewritten-IsSnapshot c.state.want c.state.last_read _ h snap
      ])

  -- In every state that the calls and the tasks reach, with an SVS as in `IsSvs` that never reports
  -- more than 32 inputs: a snapshot has all that a write needs of it, each byte of the flags of its
  -- inputs and one entry for each input; and where the write task is under way, the settings that it
  -- is to write are as many as the inputs, and the codes of each fit.
  pub Reachable-IsCoherent : (c : Ctx W) → Reachable port c → IsCoherent c.state
  Reachable-IsCoherent c (start w) = idle-IsCoherent initial refl (λ v. absurd (ground (arith, v)))
  Reachable-IsCoherent c (step path next) = Step-IsCoherent next (Reachable-IsCoherent _ path)

  -- In every such state where the write task is under way, for codes that are bytes and no marks of
  -- an empty slot, its plan goes through: `write_task` never fails before the first byte.
  pub Reachable-plan_writes :
      (c : Ctx W)
      → Reachable port c
      → c.state.task ≡ Task.writing
      → AreSettings c.state.want
      → (writes : List (ℕ × ℕ)) × (plan_writes
            (Read.eeprom c.state.last_read)
            c.state.want
            (Read.inputs c.state.last_read)
          ≡ ok writes)
  Reachable-plan_writes c path writing settings =
      let good = Reachable-IsCoherent c path in
      let ready = good.ready writing in
      let snap = good.snapshot ready.valid in
      plan_writes_succeeds (Read.eeprom c.state.last_read) c.state.want
        (Read.inputs c.state.last_read) snap.full snap.bytes settings ready.some_inputs ready.few
        ready.count ready.fit snap.known
