-- ===== src/Settings/Started.antt =====
-- platform/esp32/main/svs_settings.cpp: when `start_write` starts the task, and what it is then to write.
use svs_bridge.Base.{
  ℕ, suc, ◌≤◌, ◌≡◌, inl, inr, refl, sym, ap, subst, ◌∙◌, Bool, true, not, ◌&&◌, List, [], ◌∷◌,
  Option, none, some, arith, ltb, ◌==◌, if◌then◌else◌, Bool-cases, length, All,
}
use svs_bridge.Config.{Hardware, InputSettings, ir_slots}
use svs_bridge.Config.Success.{Fit}
use svs_bridge.Flasher.{EspErr}
use svs_bridge.Settings.{Port, Info, Task, is_idle, Read, State}
use svs_bridge.Settings.Asking.{is_clear, in_range, read_blocker}
use svs_bridge.Settings.Api.{
  claim, start_task, is_current, snapshot, keep_input, Kept, fits, too_many, keep_first,
  keep_inputs, same_count, begin_write, start_write,
}

-- What an input is given of what is asked for it: all but what its hardware lacks.
pub record IsKept (hw : Hardware) (scart vga : Bool) (old w w' : InputSettings) : Type 0 where
  pub ir : w'.ir ≡ w.ir
  pub auto_profile : w'.auto_profile ≡ w.auto_profile
  pub rgsb : w'.rgsb ≡ (if not scart && not vga then old.rgsb else w.rgsb)
  pub sync_bypass : w'.sync_bypass ≡ (if scart then w.sync_bypass else old.sync_bypass)
  pub rgb_to_ypbpr : w'.rgb_to_ypbpr ≡ (if hw.tx_rgb then w.rgb_to_ypbpr else old.rgb_to_ypbpr)
  pub ypbpr_to_rgb : w'.ypbpr_to_rgb ≡ (if hw.tx_ypbpr then w.ypbpr_to_rgb else old.ypbpr_to_rgb)

-- One of these for each input.
abbrev pub AreKept :
    Hardware
    → List InputSettings
    → List InputSettings
    → List Bool
    → List Bool
    → List InputSettings
    → Type 0
AreKept hw (w ∷ want) (old ∷ settings) (scart ∷ scarts) (vga ∷ vgas) (w' ∷ want') =
    IsKept hw scart vga old w w' × AreKept hw want settings scarts vgas want'
AreKept hw [] [] [] [] [] = Unit
AreKept hw want settings scarts vgas want' = ⊥

-- The lists of a snapshot, one entry for each input.
pub record IsShaped (r : Read) : Type 0 where
  pub settings : length r.settings ≡ r.inputs
  pub scart : length (Hardware.scart_v3 r.hardware) ≡ r.inputs
  pub vga : length (Hardware.vga_v3 r.hardware) ≡ r.inputs

fits-inj : {a b : List InputSettings} → fits a ≡ fits b → a ≡ b
fits-inj h = cc

keep_first-fits :
    (w : InputSettings) (k : Kept) {want' : List InputSettings}
    → keep_first w k ≡ fits want'
    → (l : List InputSettings) × (k ≡ fits l) × (w ∷ l ≡ want')
keep_first-fits w (fits l) h = (l, refl, fits-inj h)
keep_first-fits w (too_many n) h = absurd (ground (arith, h))

keep_inputs-AreKept :
    (hw : Hardware) (slots n : ℕ) (want settings : List InputSettings) (scarts vgas : List Bool)
    {want' : List InputSettings}
    → length settings ≡ length want
    → length scarts ≡ length want
    → length vgas ≡ length want
    → keep_inputs hw slots n want settings scarts vgas ≡ fits want'
    → AreKept hw want settings scarts vgas want'
      × All (λ (s : InputSettings). length s.ir ≤ slots) want'
      × (length want' ≡ length want)
unfolding keep_inputs
keep_inputs-AreKept hw slots n [] [] [] [] a b c h =
    subst
      (λ l.
        AreKept hw [] [] [] [] l
        × All (λ (s : InputSettings). length s.ir ≤ slots) l
        × (length l ≡ 0))
      (fits-inj h) (tt, tt, refl)
keep_inputs-AreKept hw slots n [] [] [] (v ∷ vgas) a b c h = absurd (omega (arith, c))
keep_inputs-AreKept hw slots n [] [] (u ∷ scarts) vgas a b c h = absurd (omega (arith, b))
keep_inputs-AreKept hw slots n [] (o ∷ settings) scarts vgas a b c h = absurd (omega (arith, a))
keep_inputs-AreKept hw slots n (w ∷ want) [] scarts vgas a b c h = absurd (omega (arith, a))
keep_inputs-AreKept hw slots n (w ∷ want) (o ∷ settings) [] vgas a b c h = absurd (omega (arith, b))
keep_inputs-AreKept hw slots n (w ∷ want) (o ∷ settings) (u ∷ scarts) [] a b c h =
    absurd (omega (arith, c))
keep_inputs-AreKept hw slots n (w ∷ want) (o ∷ settings) (u ∷ scarts) (v ∷ vgas) {want'} a b c h =
    elim (Bool-cases (ltb slots (length w.ir))) [
      | inl t ↦ absurd (ground (arith, rw t at h))
      | inr f ↦
          let (l, run, made) =
            keep_first-fits (keep_input hw.tx_rgb hw.tx_ypbpr u v o w) _ (rw f at h) in
          let (kept, fit, count) =
            keep_inputs-AreKept hw slots (suc n) want settings scarts vgas (omega (arith, a))
              (omega (arith, b)) (omega (arith, c)) run in
          subst
            (λ l'.
              AreKept hw (w ∷ want) (o ∷ settings) (u ∷ scarts) (v ∷ vgas) l'
              × All (λ (s : InputSettings). length s.ir ≤ slots) l'
              × (length l' ≡ suc (length want)))
            made
            (
              (
                record {
                  ir = refl;
                  auto_profile = refl;
                  rgsb = refl;
                  sync_bypass = refl;
                  rgb_to_ypbpr = refl;
                  ypbpr_to_rgb = refl;
                },
                kept,
              ),
              (ground arith, fit),
              ap suc count,
            )
    ]

-- What holds where `start_write` has started the task.
pub record IsStarted {W : Type 0} (port : Port W) (w : W) (want : List InputSettings) (s s' : State)
    : Type 0 where
  pub was_idle : s.task ≡ Task.idle
  pub writing : s'.task ≡ Task.writing
  pub same_read : s'.last_read ≡ s.last_read
  pub connected : port.is_connected w ≡ true
  pub valid : Read.valid s.last_read ≡ true
  pub connection : Read.connection s.last_read ≡ Info.connections (port.info w)
  pub inputs : Info.total_inputs (port.info w) ≡ some (Read.inputs s.last_read)
  pub some_inputs : 1 ≤ Read.inputs s.last_read
  pub few : Read.inputs s.last_read ≤ 32
  pub count : length s'.want ≡ Read.inputs s.last_read
  pub fit : Fit (Read.inputs s.last_read) s'.want
  pub kept :
      let r = s.last_read in
      AreKept r.hardware want r.settings
        (Hardware.scart_v3 r.hardware)
        (Hardware.vga_v3 r.hardware)
        s'.want

is_idle-eq : (t : Task) → is_idle t ≡ true → t ≡ Task.idle
is_idle-eq Task.idle h = refl
is_idle-eq Task.reading h = absurd (ground (arith, h))
is_idle-eq Task.writing h = absurd (ground (arith, h))

-- Where nothing blocks a read, the SVS is connected and has from 1 to 32 inputs.
read_blocker-clear :
    {W : Type 0} (port : Port W) (w : W)
    → is_clear (read_blocker port w) ≡ true
    → (port.is_connected w ≡ true) × (in_range (Info.total_inputs (port.info w)) ≡ true)
unfolding read_blocker
read_blocker-clear port w h = ground (arith, h)

in_range-some :
    (o : Option ℕ) (n : ℕ)
    → in_range o ≡ true
    → same_count o n ≡ true
    → (o ≡ some n) × (1 ≤ n) × (n ≤ 32)
in_range-some none n h same = absurd (ground (arith, h))
in_range-some (some k) n h same =
    let eq : k ≡ n = ground arith in (ap some eq, ground arith, ground arith)

module _ {W : Type 0} (port : Port W) (w : W) (created : Bool) (want : List InputSettings)
    (s : State) where
  abbrev r : Read
  r = s.last_read

  begin_write-started :
      (k : Kept)
      → (begin_write created k s).0.0 ≡ EspErr.esp_ok
      → (l : List InputSettings) × (k ≡ fits l)
        × (s.task ≡ Task.idle)
        × (State.task (begin_write created k s).1 ≡ Task.writing)
        × (State.last_read (begin_write created k s).1 ≡ s.last_read)
        × (State.want (begin_write created k s).1 ≡ l)
  unfolding begin_write claim start_task
  begin_write-started (too_many n) h = absurd (ground (arith, h))
  begin_write-started (fits l) h = elim (Bool-cases (is_idle s.task)) [
    | inr a ↦ absurd (ground (arith, rw a at h))
    | inl a ↦ elim (Bool-cases created) [
      | inr b ↦ absurd (ground (arith, rw (a, b) at h))
      | inl b ↦ rw (a, b) (l, refl, is_idle-eq s.task a, refl, refl, refl)
    ]
  ]

  -- A write starts only if no task runs and the snapshot is of the SVS that is plugged in, which has
  -- the inputs of the snapshot, from 1 to 32, as many as are to be written; the codes of each fit, and
  -- what the hardware of an input lacks is to be written as it was read.
  pub start_write-IsStarted :
      (Read.valid s.last_read ≡ true → IsShaped s.last_read)
      → (start_write port w created want s).0.0 ≡ EspErr.esp_ok
      → IsStarted port w want s (start_write port w created want s).1
  unfolding start_write snapshot
  start_write-IsStarted shaped h = elim (Bool-cases (is_clear (read_blocker port w))) [
    | inr a ↦ absurd (ground (arith, rw a at h))
    | inl a ↦ elim (Bool-cases (is_current port w r)) [
      | inr b ↦ absurd (ground (arith, rw (a, b) at h))
      | inl b ↦
          elim (Bool-cases
            (length want == r.inputs && same_count (Info.total_inputs (port.info w)) r.inputs)) [
              | inr d ↦ absurd (ground (arith, rw (a, b, d) at h))
              | inl d ↦
                  let k =
                    keep_inputs r.hardware (ir_slots r.inputs) 1 want r.settings
                      (Hardware.scart_v3 r.hardware) (Hardware.vga_v3 r.hardware) in
                  let (connected, ranged) = read_blocker-clear port w a in
                  let valid : r.valid ≡ true = ground (arith, b) in
                  let (total, low, few) =
                    in_range-some (Info.total_inputs (port.info w)) r.inputs ranged
                      (ground (arith, d)) in
                  let shape = shaped valid in
                  let asked : length want ≡ r.inputs = ground (arith, d) in
                  let (l, run, free, writing, same, to_write) =
                    begin_write-started k (rw (a, b, d) at h) in
                  let (kept, fit, count) =
                    keep_inputs-AreKept r.hardware (ir_slots r.inputs) 1 want r.settings _ _
                      (shape.settings ∙ sym asked) (shape.scart ∙ sym asked) (shape.vga ∙ sym asked)
                      run in
                  rw (a, b, d)
                    (record {
                      was_idle = free;
                      writing = writing;
                      same_read = same;
                      connected = connected;
                      valid = valid;
                      connection = ground (arith, b);
                      inputs = total;
                      some_inputs = low;
                      few = few;
                      count = ap length to_write ∙ count ∙ asked;
                      fit = subst (Fit r.inputs) (sym to_write) fit;
                      kept = subst (AreKept r.hardware want r.settings _ _) (sym to_write) kept;
                    })
            ]
    ]
  ]
