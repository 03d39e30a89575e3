-- ===== src/Settings/Sent.antt =====
-- platform/esp32/main/svs_settings.cpp: the bytes that `write_task` sends, and those it reads back.
use svs_bridge.Base.{
  ℕ, suc, ◌*◌, ◌/◌, ◌<◌, ◌≡◌, ◌≢◌, inl, inr, refl, sym, ap, subst, ◌∙◌, List, [], ◌∷◌, Option, none,
  some, arith, ◌==◌, if◌then◌else◌, Bool-cases, All,
}
use svs_bridge.Config.{
  Eeprom, InputSettings, get_byte, set_byte, ok, plan_inputs, plan_writes, changes, differs, value,
}
use svs_bridge.Config.Bytes.{
  size, get_byte-set_byte, get_byte-set_byte_ne, size-set_byte, get_byte_known,
}
use svs_bridge.Config.Changes.{write_all}
use svs_bridge.Config.Commands.{read_command, write_command}
use svs_bridge.Config.Plans.{bind_ok}
use svs_bridge.Config.Writes.{checked}
use svs_bridge.Flasher.{is_ok}
use svs_bridge.Settings.{
  Port, Phase, State, Ctx, done, gave_up, set_phase, write_gap_ms, kept_other,
}
use svs_bridge.Settings.Asking.{need_byte}
use svs_bridge.Settings.Writing.{send_write, send_writes, check_write, check_writes}
use svs_bridge.Settings.Law.{
  Contents, IsSvs, Ends, bind-Ends, map-Ends, SameState, Quiet, set_phase-Quiet, Agrees,
}
use svs_bridge.Settings.Answers.{ask_byte_truth}

-- No write is to address `a`.
abbrev pub Away : List (ℕ × ℕ) → ℕ → Type 0
Away writes a = All (λ (w : ℕ × ℕ). a ≢ w.0) writes

abbrev pub AreSmall : List (ℕ × ℕ) → Type 0
AreSmall writes = All (λ (w : ℕ × ℕ). w.1 < 256) writes

-- Every byte that was to be written is in `m`.
abbrev pub AreIn : (ℕ → ℕ) → List (ℕ × ℕ) → Type 0
AreIn m writes = All (λ (w : ℕ × ℕ). w.1 ≡ m w.0) writes

value-lt : (o : Option ℕ) → value o < 256
value-lt none = omega arith
value-lt (some v) = omega arith

changes-AreSmall : (a : ℕ) (out read : List (Option ℕ)) → AreSmall (changes a out read)
unfolding changes
changes-AreSmall a [] read = tt
changes-AreSmall a (o ∷ out) [] = tt
changes-AreSmall a (o ∷ out) (r ∷ read) = elim (Bool-cases (differs o r)) [
  | inl t ↦ rw t (value-lt o, changes-AreSmall (suc a) out read)
  | inr f ↦ rw f (changes-AreSmall (suc a) out read)
]

ok-inj : {a b : List (ℕ × ℕ)} → ok a ≡ ok b → a ≡ b
ok-inj h = cc

pub plan_writes-AreSmall :
    (read : Eeprom) (want : List InputSettings) (inputs : ℕ) (writes : List (ℕ × ℕ))
    → plan_writes read want inputs ≡ ok writes
    → AreSmall writes
plan_writes-AreSmall read want inputs writes run =
    let (count, some_inputs, few, made) = checked inputs read want run in
    let (out, planned, collected) = bind_ok (plan_inputs read inputs 1 want read) _ made in
    subst AreSmall (ok-inj collected) (changes-AreSmall 0 out.bytes read.bytes)

-- What was read is true of `m`, but for the bytes that are still to be written.
record AgreesBut (m : ℕ → ℕ) (writes : List (ℕ × ℕ)) (e : Eeprom) : Type 0 where
  full : size e ≡ 1024
  agree : (a v : ℕ) → get_byte e a ≡ some v → Away writes a → v ≡ m a

step-AgreesBut :
    (m : ℕ → ℕ) (addr u : ℕ) (writes : List (ℕ × ℕ)) (e : Eeprom)
    → u ≡ m addr
    → AgreesBut m ((addr, u) ∷ writes) e
    → AgreesBut m writes (set_byte e addr u)
step-AgreesBut m addr u writes e there but = record {
  full = size-set_byte e addr u ∙ but.full;
  agree = λ a v got away. elim (Bool-cases (addr == a)) [
    | inl t ↦
        let same : addr ≡ a = ground arith in
        let inside : a < size e =
          omega (arith, get_byte_known (set_byte e addr u) a v got, size-set_byte e addr u) in
        let found : some u ≡ some v = sym (get_byte-set_byte e a u inside) ∙ rw same at got in
        let inj : u ≡ v = ground (arith, found) in sym inj ∙ there ∙ ap m same
    | inr f ↦
        but.agree a v (sym (get_byte-set_byte_ne e addr a u (λ s. ground arith)) ∙ got)
          ((λ s. ground arith), away)
  ];
}

write_all-Agrees :
    (m : ℕ → ℕ) (writes : List (ℕ × ℕ)) (e : Eeprom)
    → AreIn m writes
    → AgreesBut m writes e
    → Agrees m (write_all writes e)
unfolding write_all
write_all-Agrees m [] e all but = record {
  full = but.full;
  agree = λ a v got. but.agree a v got tt;
}
write_all-Agrees m ((addr, u) ∷ writes) e (there, all) but =
    write_all-Agrees m writes (set_byte e addr u) all (step-AgreesBut m addr u writes e there but)

-- What was read of an EEPROM is, with the writes, true of one that differs only in these.
pub write_all-Agrees_written :
    (m m' : ℕ → ℕ) (writes : List (ℕ × ℕ)) (e : Eeprom)
    → Agrees m e
    → AreIn m' writes
    → ((a : ℕ) → Away writes a → m' a ≡ m a)
    → Agrees m' (write_all writes e)
write_all-Agrees_written m m' writes e agrees all outside =
    write_all-Agrees m' writes e all (record {
      full = agrees.full;
      agree = λ a v got away. agrees.agree a v got ∙ sym (outside a away);
    })

-- The bytes outside `writes` and the transcoders are those of `m`.
pub record Outside {W : Type 0} (contents : W → Contents) (m : Contents) (writes : List (ℕ × ℕ))
    (s : State) (c : Ctx W) : Type 0 where
  pub same : (a : ℕ) → Away writes a → Contents.eeprom (contents c.world) a ≡ m.eeprom a
  pub tx : Contents.transcoder (contents c.world) ≡ m.transcoder
  pub state : SameState s c.state

set_phase-Outside :
    {W : Type 0} {contents : W → Contents} {m : Contents} {writes : List (ℕ × ℕ)} {s : State}
    {c : Ctx W} (phase : Phase) (progress : ℕ)
    → Outside contents m writes s c
    → Outside contents m writes s (set_phase phase progress c)
unfolding set_phase
set_phase-Outside phase progress out = record {
  same = out.same;
  tx = out.tx;
  state = ap (λ (t : State). record t { phase = phase; progress = progress }) out.state;
}

module _ {W : Type 0} {port : Port W} {contents : W → Contents} (law : IsSvs port contents) where
  module _ (m : Contents) (all : List (ℕ × ℕ)) (s : State) where
    abbrev O : Ctx W → Type 0
    O = Outside contents m all s

    send_write_outside :
        (addr v : ℕ) (c : Ctx W)
        → v < 256
        → ((a : ℕ) → Away all a → a ≢ addr)
        → O c
        → Ends (λ u c'. O c') O (send_write port (addr, v) c)
    unfolding send_write
    send_write_outside addr v c small away out =
        let r = port.send_quiet (write_command addr v) c.world in
        let kept : (a : ℕ) → Away all a → Contents.eeprom (contents r.1) a ≡ m.eeprom a =
          λ a h. law.write_keeps addr v c.world a small (away a h) ∙ out.same a h in
        let tx : Contents.transcoder (contents r.1) ≡ m.transcoder =
          law.write_keeps_tx addr v c.world ∙ out.tx in
        elim (Bool-cases (is_ok (port.send_quiet (write_command addr v) c.world).0)) [
          | inl t ↦ rw t (record {
            same = λ a h.
                ap (λ (x : Contents). x.eeprom a) (law.delay_keeps write_gap_ms r.1) ∙ kept a h;
            tx = ap (λ (x : Contents). x.transcoder) (law.delay_keeps write_gap_ms r.1) ∙ tx;
            state = out.state;
          })
          | inr f ↦ rw f (record { same = kept; tx = tx; state = out.state })
        ]

    pub send_writes_outside :
        (steps step : ℕ) (writes : List (ℕ × ℕ)) (c : Ctx W)
        → AreSmall writes
        → ((a : ℕ) → Away all a → Away writes a)
        → O c
        → Ends (λ u c'. O c') O (send_writes port steps step writes c)
    unfolding send_writes
    send_writes_outside steps step [] c small part out = out
    send_writes_outside steps step ((addr, v) ∷ writes) c (low, small) part out =
        let c1 = set_phase Phase.saving (100 * step / steps) c in
        bind-Ends _ O (send_write port (addr, v) c1) _ (
          map-Ends (send_write port (addr, v) c1)
            (λ u c' o. send_writes_outside steps (suc step) writes c' small (λ a h. (part a h).1) o)
            (λ c' o. o)
            (send_write_outside addr v c1 low (λ a h. (part a h).0) (set_phase-Outside _ _ out)))

  module _ (m : Contents) (s : State) where
    abbrev Q : Ctx W → Type 0
    Q = Quiet contents m s

    check_write_truth :
        (addr v : ℕ) (e : Eeprom) (c : Ctx W)
        → Q c
        → Ends
            (λ e' c'. Q c' × (e' ≡ set_byte e addr v) × (v ≡ m.eeprom addr))
            Q
            (check_write port (addr, v) e c)
    unfolding check_write
    check_write_truth addr v e c quiet = bind-Ends _ Q (need_byte port (read_command addr) c) _ (
        map-Ends (need_byte port (read_command addr) c) (λ u c' (q, there). at u c' q there)
          (λ c' q. q) (ask_byte_truth law m s addr c quiet))
      where
        at :
            (u : ℕ) (c' : Ctx W)
            → Q c'
            → u ≡ m.eeprom addr
            → Ends
                (λ e' c''. Q c'' × (e' ≡ set_byte e addr v) × (v ≡ m.eeprom addr))
                Q
                (if u == v then done (set_byte e addr v) c' else gave_up (kept_other u addr v) c')
        at u c' q there = elim (Bool-cases (u == v)) [
          | inl t ↦ let same : v ≡ u = ground arith in rw t (q, refl, same ∙ there)
          | inr f ↦ rw f q
        ]

    pub check_writes_truth :
        (steps step : ℕ) (writes : List (ℕ × ℕ)) (e : Eeprom) (c : Ctx W)
        → Q c
        → Ends
            (λ e' c'. Q c' × (e' ≡ write_all writes e) × AreIn m.eeprom writes)
            Q
            (check_writes port steps step writes e c)
    unfolding check_writes write_all
    check_writes_truth steps step [] e c quiet = (quiet, refl, tt)
    check_writes_truth steps step ((addr, v) ∷ writes) e c quiet =
        let c1 = set_phase Phase.checking (100 * step / steps) c in
        bind-Ends _ Q (check_write port (addr, v) e c1) _ (
          map-Ends (check_write port (addr, v) e c1)
            (λ e1 c' (q, made, there).
              map-Ends (check_writes port steps (suc step) writes e1 c')
                (λ e2 c'' (q', all, rest). (q', all ∙ ap (write_all writes) made, (there, rest)))
                (λ c'' q'. q') (check_writes_truth steps (suc step) writes e1 c' q))
            (λ c' q. q) (check_write_truth addr v e c1 (set_phase-Quiet _ _ quiet)))
