-- ===== src/Rfc2217/Options.antt =====
-- core/rfc2217_proto.c: Telnet option negotiation (`on_verb`, `rfc2217_greeting`).
use svs_bridge.Base.{
  ℕ, ◌^◌, ◌≡◌, ◌≢◌, refl, ◌∙◌, ◌⊎◌, inl, inr, Bool, true, false, not, ◌&&◌, ◌||◌, List, [], ◌∷◌,
  arith, ltb, ◌==◌, ==_iff, Bool-cases,
}
use svs_bridge.Base.Bits.{below_all, below_all-true}
use svs_bridge.Rfc2217.{
  St, st_data, st_iac, st_verb, st_sb, st_sb_iac, Session, Io, dont, do_it, wont, will,
  opt_com_port, bit, has, with, without, we_accept, they_accept, init, greeting,
}
use svs_bridge.Rfc2217.Handlers.{
  After, on_will, on_wont, on_do, on_dont, on_com_port, on_verb, on_command, on_body, on_subneg,
  set_baudrate, set_field, set_control, step_in, input,
}

-- No option but BINARY (bit 0) and SUPPRESS-GO-AHEAD (bit 3) is on.
abbrev pub OnlyKnown : ℕ → Type 0
OnlyKnown x = (x ≡ 0) ⊎ (x ≡ 1) ⊎ (x ≡ 8) ⊎ (x ≡ 9)

only_known : ℕ → Bool
only_known x = x == 0 || x == 1 || x == 8 || x == 9

-- Turning an option off: it is off, and doing so again changes nothing.
record Off (x b : ℕ) : Type 0 where
  known : OnlyKnown (without x b)
  is_off : has (without x b) b ≡ false
  again : without (without x b) b ≡ without x b

off_test : ℕ → ℕ → Bool
unfolding only_known
off_test x b =
    only_known (without x b) && not (has (without x b) b) && without (without x b) b == without x b

off_test-Off : (x b : ℕ) → off_test x b ≡ true → Off x b
unfolding off_test
off_test-Off x b h = ground arith

off_table : ℕ → Bool
off_table x = below_all 32 (λ k. off_test x (2 ^ k)) && off_test x 0

off_table_lem : (x : ℕ) → OnlyKnown x → off_table x ≡ true
unfolding off_table off_test below_all
off_table_lem x (inl e) = rw e
off_table_lem x (inr (inl e)) = rw e
off_table_lem x (inr (inr (inl e))) = rw e
off_table_lem x (inr (inr (inr e))) = rw e

without-Off : (x opt : ℕ) → OnlyKnown x → Off x (bit opt)
unfolding bit off_table
without-Off x opt h = elim (Bool-cases (ltb opt 32)) [
  | inl small ↦ rw small (
      off_test-Off x (2 ^ opt) (
        below_all-true 32 (λ k. off_test x (2 ^ k)) opt (ground arith)
          (ground (arith, off_table_lem x h))))
  | inr big ↦ rw big (off_test-Off x 0 (ground (arith, off_table_lem x h)))
]

-- Turning a known option on: it is on, and doing so again changes nothing.
record On (x b : ℕ) : Type 0 where
  known : OnlyKnown (with x b)
  is_on : has (with x b) b ≡ true
  again : with (with x b) b ≡ with x b

on_test : ℕ → ℕ → Bool
unfolding only_known
on_test x b = only_known (with x b) && has (with x b) b && with (with x b) b == with x b

on_test-On : (x b : ℕ) → on_test x b ≡ true → On x b
unfolding on_test
on_test-On x b h = ground arith

on_table_lem : (x : ℕ) → OnlyKnown x → (on_test x 1 && on_test x 8) ≡ true
unfolding on_test
on_table_lem x (inl e) = rw e
on_table_lem x (inr (inl e)) = rw e
on_table_lem x (inr (inr (inl e))) = rw e
on_table_lem x (inr (inr (inr e))) = rw e

with-On : (x opt : ℕ) → OnlyKnown x → we_accept opt ≡ true → On x (bit opt)
unfolding we_accept bit
with-On x opt h a = elim (Bool-cases (opt == 0)) [
  | inl e ↦ rw ((==_iff opt 0).0 e) (on_test-On x 1 (ground (arith, on_table_lem x h)))
  | inr n ↦
      let e : opt ≡ 3 = ground arith in rw e (on_test-On x 8 (ground (arith, on_table_lem x h)))
]

they-we : (opt : ℕ) → opt ≢ opt_com_port → they_accept opt ≡ we_accept opt
unfolding they_accept we_accept
they-we opt n = ground arith

pub record KnownOptions (s : Session) : Type 0 where
  pub we : OnlyKnown s.options_we
  pub they : OnlyKnown s.options_they

-- What stays of the options where the session's other fields change.
abbrev SameOptions : Session → Session → Type 0
SameOptions s s' = (s'.options_we ≡ s.options_we) × (s'.options_they ≡ s.options_they)

SameOptions-KnownOptions : {s s' : Session} → SameOptions s s' → KnownOptions s → KnownOptions s'
SameOptions-KnownOptions e v = record { we = rw e.0 v.we; they = rw e.1 v.they }

will-known :
    (s : Session) (opt : ℕ) (io : Io)
    → opt ≢ opt_com_port
    → KnownOptions s
    → KnownOptions (on_will s opt io).0
unfolding on_will
will-known s opt io n v = elim (Bool-cases (they_accept opt)) [
  | inl a ↦
      rw (a, on_will)
        (record {
          we = v.we;
          they = (with-On s.options_they opt v.they (ground (arith, they-we opt n))).known;
        })
  | inr r ↦ rw (r, on_will) v
]

do-known : (s : Session) (opt : ℕ) (io : Io) → KnownOptions s → KnownOptions (on_do s opt io).0
unfolding on_do
do-known s opt io v = elim (Bool-cases (we_accept opt)) [
  | inl a ↦ rw (a, on_do) (record { we = (with-On s.options_we opt v.we a).known; they = v.they })
  | inr r ↦ rw (r, on_do) v
]

wont-known : (s : Session) (opt : ℕ) (io : Io) → KnownOptions s → KnownOptions (on_wont s opt io).0
unfolding on_wont
wont-known s opt io v = record { we = v.we; they = (without-Off s.options_they opt v.they).known }

dont-known : (s : Session) (opt : ℕ) (io : Io) → KnownOptions s → KnownOptions (on_dont s opt io).0
unfolding on_dont
dont-known s opt io v = record { we = (without-Off s.options_we opt v.we).known; they = v.they }

com_port_same : (s : Session) (verb : ℕ) (io : Io) → (on_com_port s verb io).0 ≡ s
unfolding on_com_port
com_port_same s verb io = ground arith

on_verb_cases :
    (P : After → Type 0) (s : Session) (verb opt : ℕ) (io : Io)
    → P (on_com_port s verb io)
    → (opt ≢ opt_com_port → P (on_will s opt io))
    → P (on_wont s opt io)
    → P (on_do s opt io)
    → P (on_dont s opt io)
    → P (s, io)
    → P (on_verb s verb opt io)
unfolding on_verb
on_verb_cases P s verb opt io port offered refused requested dropped none = ground arith

on_verb-KnownOptions :
    (s : Session) (verb opt : ℕ) (io : Io) → KnownOptions s → KnownOptions (on_verb s verb opt io).0
on_verb-KnownOptions s verb opt io v =
    on_verb_cases (λ r. KnownOptions r.0) s verb opt io (rw (com_port_same s verb io) v)
      (λ n. will-known s opt io n v) (wont-known s opt io v) (do-known s opt io v)
      (dont-known s opt io v) v

-- The same handler once more, on the session it left: nothing to say, and nothing to change.
Settled : (Session → Io → After) → Session → Io → Io → Type 0
Settled f s io io' = f (f s io).0 io' ≡ ((f s io).0, io')

will-Settled :
    (s : Session) (opt : ℕ) (io io' : Io)
    → OnlyKnown s.options_they
    → opt ≢ opt_com_port
    → we_accept opt ≡ true
    → Settled (λ s io. on_will s opt io) s io io'
unfolding Settled on_will
will-Settled s opt io io' v n a =
    let on = with-On s.options_they opt v a in rw (they-we opt n, a) (rw (on.again, on.is_on))

do-Settled :
    (s : Session) (opt : ℕ) (io io' : Io)
    → OnlyKnown s.options_we
    → we_accept opt ≡ true
    → Settled (λ s io. on_do s opt io) s io io'
unfolding Settled on_do
do-Settled s opt io io' v a =
    let on = with-On s.options_we opt v a in rw a (rw (on.again, on.is_on))

wont-Settled :
    (s : Session) (opt : ℕ) (io io' : Io)
    → OnlyKnown s.options_they
    → Settled (λ s io. on_wont s opt io) s io io'
unfolding Settled on_wont
wont-Settled s opt io io' v =
    let off = without-Off s.options_they opt v in rw (off.again, off.is_off)

dont-Settled :
    (s : Session) (opt : ℕ) (io io' : Io)
    → OnlyKnown s.options_we
    → Settled (λ s io. on_dont s opt io) s io io'
unfolding Settled on_dont
dont-Settled s opt io io' v = let off = without-Off s.options_we opt v in rw (off.again, off.is_off)

-- A verb that a `switch` case takes.
pub data IsVerb : ℕ → Type 0 where
  is_will : {v : ℕ} → v ≡ will → IsVerb v
  is_wont : {v : ℕ} → v ≡ wont → IsVerb v
  is_do : {v : ℕ} → v ≡ do_it → IsVerb v
  is_dont : {v : ℕ} → v ≡ dont → IsVerb v

-- The handler that `on_verb` calls for a verb.
handler : {v : ℕ} → IsVerb v → Session → ℕ → Io → After
handler (is_will _) = on_will
handler (is_wont _) = on_wont
handler (is_do _) = on_do
handler (is_dont _) = on_dont

on_verb-handler :
    (s : Session) (verb opt : ℕ) (io : Io) (w : IsVerb verb)
    → opt ≢ opt_com_port
    → on_verb s verb opt io ≡ handler w s opt io
unfolding on_verb handler
on_verb-handler s verb opt io (is_will e) n = ground arith
on_verb-handler s verb opt io (is_wont e) n = ground arith
on_verb-handler s verb opt io (is_do e) n = ground arith
on_verb-handler s verb opt io (is_dont e) n = ground arith

handler-Settled :
    (s : Session) (verb opt : ℕ) (io io' : Io) (w : IsVerb verb)
    → KnownOptions s
    → opt ≢ opt_com_port
    → ((verb ≡ will) ⊎ (verb ≡ do_it) → we_accept opt ≡ true)
    → Settled (λ s io. handler w s opt io) s io io'
unfolding handler
handler-Settled s verb opt io io' (is_will e) v n a = will-Settled s opt io io' v.they n (a (inl e))
handler-Settled s verb opt io io' (is_wont e) v n a = wont-Settled s opt io io' v.they
handler-Settled s verb opt io io' (is_do e) v n a = do-Settled s opt io io' v.we (a (inr e))
handler-Settled s verb opt io io' (is_dont e) v n a = dont-Settled s opt io io' v.we

-- Negotiation ends: after a verb about an option other than COM-PORT has been handled, the same verb
-- about it is met with silence and changes nothing. For an offer or a request (WILL, DO) this is
-- said of the options that the bridge takes; the others are refused each time.
pub on_verb_settles :
    (s : Session) (verb opt : ℕ) (io io' : Io)
    → KnownOptions s
    → IsVerb verb
    → opt ≢ opt_com_port
    → ((verb ≡ will) ⊎ (verb ≡ do_it) → we_accept opt ≡ true)
    → on_verb (on_verb s verb opt io).0 verb opt io' ≡ ((on_verb s verb opt io).0, io')
unfolding Settled
on_verb_settles s verb opt io io' v w n a = rw (on_verb-handler s verb opt io w n) (
    on_verb-handler (handler w s opt io).0 verb opt io' w n
    ∙ handler-Settled s verb opt io io' w v n a)

set_baudrate_same :
    (s : Session) (io : Io) (cmd : ℕ) (arg : List ℕ) → SameOptions s (set_baudrate s io cmd arg).0
unfolding set_baudrate
set_baudrate_same s io cmd arg = ground arith

set_field_same :
    (s : Session) (io : Io) (cmd : ℕ) (arg : List ℕ) → SameOptions s (set_field s io cmd arg).0
unfolding set_field
set_field_same s io cmd [] = (refl, refl)
set_field_same s io cmd (v ∷ arg) = ground arith

set_control_same :
    (s : Session) (io : Io) (cmd : ℕ) (arg : List ℕ) → SameOptions s (set_control s io cmd arg).0
unfolding set_control
set_control_same s io cmd [] = (refl, refl)
set_control_same s io cmd (v ∷ arg) = ground arith

on_command_same :
    (s : Session) (io : Io) (modem cmd : ℕ) (arg : List ℕ)
    → SameOptions s (on_command s io modem cmd arg).0
unfolding on_command
on_command_same s io modem cmd arg = ground (
  arith,
  set_baudrate_same s io cmd arg,
  set_field_same s io cmd arg,
  set_control_same s io cmd arg,
)

on_body_same :
    (s : Session) (io : Io) (modem : ℕ) (body : List ℕ) → SameOptions s (on_body s io modem body).0
unfolding on_body
on_body_same s io modem (opt ∷ cmd ∷ arg) = ground (arith, on_command_same s io modem cmd arg)
on_body_same s io modem _ = (refl, refl)

step_in_same :
    (st : St) (s : Session) (io : Io) (modem b : ℕ)
    → st ≢ st_verb
    → SameOptions s (step_in st s io modem b).0
unfolding step_in on_subneg
step_in_same st_verb s io modem b n = absurd (n refl)
step_in_same st_sb_iac s io modem b n = ground (arith, on_body_same s io modem s.sb)
step_in_same _ s io modem b n = ground arith

step_in-KnownOptions :
    (st : St) (s : Session) (io : Io) (modem b : ℕ)
    → KnownOptions s
    → KnownOptions (step_in st s io modem b).0
unfolding step_in
step_in-KnownOptions st_verb s io modem b v =
    SameOptions-KnownOptions {s = (on_verb s s.verb b io).0} (refl, refl)
      (on_verb-KnownOptions s s.verb b io v)
step_in-KnownOptions st_data s io modem b v =
    SameOptions-KnownOptions (step_in_same st_data s io modem b (λ e. cc)) v
step_in-KnownOptions st_iac s io modem b v =
    SameOptions-KnownOptions (step_in_same st_iac s io modem b (λ e. cc)) v
step_in-KnownOptions st_sb s io modem b v =
    SameOptions-KnownOptions (step_in_same st_sb s io modem b (λ e. cc)) v
step_in-KnownOptions st_sb_iac s io modem b v =
    SameOptions-KnownOptions (step_in_same st_sb_iac s io modem b (λ e. cc)) v

pub input-KnownOptions :
    (bs : List ℕ) (s : Session) (io : Io) (modem : ℕ)
    → KnownOptions s
    → KnownOptions (input s io modem bs).0
unfolding input
input-KnownOptions [] s io modem v = v
input-KnownOptions (b ∷ bs) s io modem v =
    input-KnownOptions bs (step_in s.st s io modem b).0 (step_in s.st s io modem b).1 modem
      (step_in-KnownOptions s.st s io modem b v)

-- From its greeting on, whatever a client sends, a session never holds an option other than BINARY
-- and SUPPRESS-GO-AHEAD to be on, for either side.
pub session-KnownOptions :
    (max : ℕ) (bs : List ℕ) (io : Io) (modem : ℕ)
    → KnownOptions (input (greeting init max).0 io modem bs).0
session-KnownOptions max bs io modem = input-KnownOptions bs (greeting init max).0 io modem greeted
  where
    greeted : KnownOptions (greeting init max).0
    greeted =
        unfold greeting init bit in
        record { we = inr (inr (inr refl)); they = inr (inr (inr refl)) }
