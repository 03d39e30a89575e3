-- ===== src/Settings/Codes.antt =====
-- platform/esp32/main/svs_settings.cpp: that the infrared codes that are read are in the SVS's EEPROM.
use svs_bridge.Base.{
  ℕ, zero, suc, ◌+◌, ◌-◌, ◌*◌, ◌/◌, ◌≤◌, ◌<◌, ◌≡◌, inl, inr, sym, ap, ◌∙◌, some, arith, ◌==◌,
  Bool-cases, if◌then◌else◌,
}
use svs_bridge.Config.{Eeprom, get_byte, ir_slots, ir_address_addr, ir_command_addr, ir_empty}
use svs_bridge.Config.Slots.{address-lt, command-lt}
use svs_bridge.Settings.{Port, Phase, State, Ctx, done, set_phase}
use svs_bridge.Settings.Reading.{read_byte, read_slots, read_codes}
use svs_bridge.Settings.Law.{
  Contents, IsSvs, Ends, bind-Ends, map-Ends, Quiet, set_phase-Quiet, Agrees,
}
use svs_bridge.Settings.Grown.{
  Grown, Grown-refl, Grown-trans, none-some, SlotsRead, Grown-known, Grown-SlotsRead,
}
use svs_bridge.Settings.Answers.{read_byte_truth}

module _ {W : Type 0} {port : Port W} {contents : W → Contents} (law : IsSvs port contents) where
  module _ (m : Contents) (s : State) where
    abbrev Q : Ctx W → Type 0
    Q = Quiet contents m s

    read_slots_truth :
        (inputs n k left : ℕ) (e : Eeprom) (c : Ctx W)
        → n ≤ inputs
        → k + left ≡ ir_slots inputs
        → Agrees m.eeprom e
        → Q c
        → Ends
            (λ e' c'. Q c' × Grown m.eeprom e e' × SlotsRead e' inputs n k left)
            Q
            (read_slots port inputs n k left e c)
    unfolding read_slots
    read_slots_truth inputs n k zero e c high count agrees quiet = (quiet, Grown-refl agrees, tt)
    read_slots_truth inputs n k (suc left) e c high count agrees quiet =
        let a : ℕ = ir_address_addr n k inputs in
        let b : ℕ = ir_command_addr n k inputs in
        let low : a < 1024 = omega (arith, address-lt inputs n k high (omega arith)) in
        let low' : b < 1024 = omega (arith, command-lt inputs n k high (omega arith)) in
        bind-Ends _ Q (read_byte port e a c) _ (
          map-Ends (read_byte port e a c)
            (λ r c1 (q1, g1, t1, known1). bind-Ends _ Q (read_byte port r.1 b c1) _ (
              map-Ends (read_byte port r.1 b c1)
                (λ r' c2 (q2, g2, t2, known2).
                  next
                    (λ e' c' g q.
                      read_slots_truth inputs n (suc k) left e' c' high (omega arith) g q)
                    r.0 r'.1 c2 q2 (Grown-trans g1 g2)
                    (Grown-known a g1.agrees g2 (known1 low) ∙ ap some (sym t1)) (known2 low'))
                (λ c2 q. q) (read_byte_truth law m s r.1 b c1 g1.agrees q1)))
            (λ c1 q. q) (read_byte_truth law m s e a c agrees quiet))
      where
        next :
            ((e' : Eeprom) (c' : Ctx W)
              → Agrees m.eeprom e'
              → Q c'
              → Ends
                  (λ e'' c''. Q c'' × Grown m.eeprom e' e'' × SlotsRead e'' inputs n (suc k) left)
                  Q
                  (read_slots port inputs n (suc k) left e' c'))
            → (v : ℕ) (e' : Eeprom) (c2 : Ctx W) → Q c2
            → Grown m.eeprom e e'
            → get_byte e' (ir_address_addr n k inputs) ≡ some v
            → get_byte e' (ir_command_addr n k inputs)
              ≡ some (m.eeprom (ir_command_addr n k inputs))
            → Ends
                (λ e'' c'. Q c' × Grown m.eeprom e e'' × SlotsRead e'' inputs n k (suc left))
                Q
                (if v == ir_empty then done e' c2 else read_slots port inputs n (suc k) left e' c2)
        next rest v e' c2 q g first second = elim (Bool-cases (v == ir_empty)) [
          | inl t ↦ rw t (
            q,
            g,
            (
              λ gone. none-some (sym gone ∙ first),
              λ gone. none-some (sym gone ∙ second),
              inl (first ∙ ap some (ground arith)),
            ),
          )
          | inr f ↦ rw f (
              map-Ends (read_slots port inputs n (suc k) left e' c2)
                (λ e'' c' (q', g', slots). (
                  q',
                  Grown-trans g g',
                  (
                    λ gone. none-some (sym (g'.no_loss _ gone) ∙ first),
                    λ gone. none-some (sym (g'.no_loss _ gone) ∙ second),
                    inr slots,
                  ),
                ))
                (λ c' q'. q') (rest e' c2 g.agrees q))
        ]

    pub read_codes_truth :
        (inputs n left : ℕ) (e : Eeprom) (c : Ctx W)
        → n + left ≡ suc inputs
        → Agrees m.eeprom e
        → Q c
        → Ends
            (λ e' c'.
              Q c'
              × Grown m.eeprom e e'
              × ((i : ℕ) → n ≤ i → i ≤ inputs → SlotsRead e' inputs i 0 (ir_slots inputs)))
            Q
            (read_codes port inputs n left e c)
    unfolding read_codes
    read_codes_truth inputs n zero e c count agrees quiet =
        (quiet, Grown-refl agrees, λ i a b. absurd (omega arith))
    read_codes_truth inputs n (suc left) e c count agrees quiet =
        let c1 = set_phase Phase.reading_codes (55 + 45 * (n - 1) / inputs) c in
        bind-Ends _ Q (read_slots port inputs n 0 (ir_slots inputs) e c1) _ (
          map-Ends (read_slots port inputs n 0 (ir_slots inputs) e c1)
            (λ e' c' (q, g, slots).
              map-Ends (read_codes port inputs (suc n) left e' c')
                (λ e'' c'' (q', g', rest). (
                  q',
                  Grown-trans g g',
                  λ i a b. elim (Bool-cases (n == i)) [
                    | inl t ↦
                        let same : n ≡ i = ground arith in
                        rw same at (Grown-SlotsRead inputs n 0 (ir_slots inputs) g.agrees g' slots)
                    | inr f ↦ rest i (ground arith) b
                  ],
                ))
                (λ c'' q'. q')
                (read_codes_truth inputs (suc n) left e' c' (omega arith) g.agrees q))
            (λ c' q. q)
            (read_slots_truth inputs n 0 (ir_slots inputs) e c1 (omega arith) (omega arith) agrees
              (set_phase-Quiet _ _ quiet)))
