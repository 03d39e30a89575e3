-- ===== src/Settings/Calls.antt =====
-- platform/esp32/main/svs_settings.cpp: what the calls leave of a state that is coherent.
use svs_bridge.Base.{
  ◌≤◌, ◌≡◌, ◌⊎◌, inl, inr, refl, sym, ap, subst, ◌∙◌, Bool, true, List, arith, ◌==◌, ◌&&◌,
  Bool-cases, length,
}
use svs_bridge.Config.{InputSettings}
use svs_bridge.Config.Success.{Fit}
use svs_bridge.Flasher.{EspErr}
use svs_bridge.Settings.{Port, Info, Task, is_idle, Read, State}
use svs_bridge.Settings.Asking.{is_clear, read_blocker}
use svs_bridge.Settings.Api.{
  claim, start_task, start_read, start_write, begin_write, snapshot, Kept, fits, too_many,
  same_count,
}
use svs_bridge.Settings.Started.{IsStarted}
use svs_bridge.Settings.Snapshots.{IsSnapshot}

-- What the write task relies on.
pub record IsReady (s : State) : Type 0 where
  pub valid : Read.valid s.last_read ≡ true
  pub some_inputs : 1 ≤ Read.inputs s.last_read
  pub few : Read.inputs s.last_read ≤ 32
  pub count : length s.want ≡ Read.inputs s.last_read
  pub fit : Fit (Read.inputs s.last_read) s.want

pub record IsCoherent (s : State) : Type 0 where
  pub snapshot : Read.valid s.last_read ≡ true → IsSnapshot s.last_read
  pub ready : s.task ≡ Task.writing → IsReady s

-- A call that starts no write leaves the snapshot, and a write that is under way its settings.
pub record IsAside (s s' : State) : Type 0 where
  pub same_read : s'.last_read ≡ s.last_read
  pub aside : s'.task ≡ Task.writing → (s.task ≡ Task.writing) × (s'.want ≡ s.want)

IsAside-self : (s : State) → IsAside s s
IsAside-self s = record { same_read = refl; aside = λ h. (h, refl) }

pub IsAside-IsCoherent : (s s' : State) → IsAside s s' → IsCoherent s → IsCoherent s'
IsAside-IsCoherent s s' side good = record {
  snapshot = λ v.
      subst IsSnapshot (sym side.same_read)
        (good.snapshot (ap Read.valid (sym side.same_read) ∙ v));
  ready = λ h.
      let (was, same) = side.aside h in
      let r = good.ready was in
      let inputs : Read.inputs s'.last_read ≡ Read.inputs s.last_read =
        ap Read.inputs side.same_read in
      record {
        valid = ap Read.valid side.same_read ∙ r.valid;
        some_inputs = omega (arith, r.some_inputs, inputs);
        few = omega (arith, r.few, inputs);
        count = ap length same ∙ r.count ∙ sym inputs;
        fit =
            subst (λ n. Fit n s'.want) (sym inputs)
              (subst (Fit (Read.inputs s.last_read)) (sym same) r.fit);
      };
}

not_writing : {P : Type 0} → Task.idle ≡ Task.writing → P
not_writing h = absurd (ground (arith, h))

pub start_read-IsAside :
    {W : Type 0} (port : Port W) (w : W) (created : Bool) (s : State)
    → IsAside s (start_read port w created s).1
unfolding start_read claim start_task
start_read-IsAside port w created s = elim (Bool-cases (is_clear (read_blocker port w))) [
  | inr a ↦ rw a (IsAside-self s)
  | inl a ↦ elim (Bool-cases (is_idle s.task)) [
    | inr b ↦ rw (a, b) (IsAside-self s)
    | inl b ↦ elim (Bool-cases created) [
      | inl d ↦ rw (a, b, d) (record { same_read = refl; aside = λ h. absurd (ground (arith, h)) })
      | inr d ↦ rw (a, b, d) (record { same_read = refl; aside = not_writing })
    ]
  ]
]

begin_write-cases :
    (created : Bool) (k : Kept) (s : State)
    → ((begin_write created k s).0.0 ≡ EspErr.esp_ok) ⊎ IsAside s (begin_write created k s).1
unfolding begin_write claim start_task
begin_write-cases created (too_many n) s = inr (IsAside-self s)
begin_write-cases created (fits want) s = elim (Bool-cases (is_idle s.task)) [
  | inr a ↦ rw a (inr (IsAside-self s))
  | inl a ↦ elim (Bool-cases created) [
    | inl b ↦ rw (a, b) (inl refl)
    | inr b ↦ rw (a, b) (inr (record { same_read = refl; aside = not_writing }))
  ]
]

pub start_write-cases :
    {W : Type 0} (port : Port W) (w : W) (created : Bool) (want : List InputSettings) (s : State)
    → ((start_write port w created want s).0.0 ≡ EspErr.esp_ok)
      ⊎ IsAside s (start_write port w created want s).1
unfolding start_write
start_write-cases port w created want s =
    let sn = snapshot port w s.last_read in
    elim (Bool-cases (is_clear (read_blocker port w))) [
      | inr a ↦ rw a (inr (IsAside-self s))
      | inl a ↦ elim (Bool-cases sn.valid) [
        | inr b ↦ rw (a, b) (inr (IsAside-self s))
        | inl b ↦
            elim (Bool-cases (
              length want == sn.inputs && same_count (Info.total_inputs (port.info w)) sn.inputs)) [
                | inr d ↦ rw (a, b, d) (inr (IsAside-self s))
                | inl d ↦ rw (a, b, d) (begin_write-cases created _ s)
              ]
      ]
    ]

pub IsStarted-IsCoherent :
    {W : Type 0} {port : Port W} {w : W} {want : List InputSettings} {s s' : State}
    → IsStarted port w want s s'
    → IsCoherent s
    → IsCoherent s'
IsStarted-IsCoherent {W} {port} {w} {want} {s} {s'} h good =
    let same = h.same_read in
    let inputs : Read.inputs s'.last_read ≡ Read.inputs s.last_read = ap Read.inputs same in
    record {
      snapshot = λ v. subst IsSnapshot (sym same) (good.snapshot h.valid);
      ready = λ writing. record {
        valid = ap Read.valid same ∙ h.valid;
        some_inputs = omega (arith, h.some_inputs, inputs);
        few = omega (arith, h.few, inputs);
        count = h.count ∙ sym inputs;
        fit = subst (λ n. Fit n s'.want) (sym inputs) h.fit;
      };
    }

-- An idle state with a good snapshot, if with any.
pub idle-IsCoherent :
    (s : State)
    → s.task ≡ Task.idle
    → (Read.valid s.last_read ≡ true → IsSnapshot s.last_read)
    → IsCoherent s
idle-IsCoherent s idle snap = record { snapshot = snap; ready = λ h. not_writing (sym idle ∙ h) }
