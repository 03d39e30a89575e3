-- ===== src/Settings/Svs.antt =====
-- An SVS that does what svs_settings.cpp relies on: two inputs, its EEPROM, the input on screen, and the
-- transcoders.
use svs_bridge.Base.{
  ℕ, ◌+◌, ◌%◌, ◌<◌, ◌≡◌, ◌≢◌, refl, sym, ap, ◌∙◌, inl, inr, Bool, true, false, List, [], ◌∷◌,
  Option, none, some, same_bytes, same_bytes-eq, arith, ◌==◌, if◌then◌else◌, get_or, take, drop,
}
use svs_bridge.Base.Bits.{below_all, below_all-true}
use svs_bridge.Base.Int.{pos}
use svs_bridge.Base.Text.{codes}
use svs_bridge.Protocol.{digits_value, starts_with, is_digit}
use svs_bridge.Config.Commands.{
  decimal, decimal_from, digits_value-decimal_from, parse_byte_reply, reply_from, read_command,
  write_command, write_command_fields,
}
use svs_bridge.Config.Plans.{some-inj}
use svs_bridge.Flasher.{EspErr}
use svs_bridge.Settings.{Port}
use svs_bridge.Settings.Asking.{answer_of}
use svs_bridge.Settings.Answered.{IsAnswering}
use svs_bridge.Settings.Law.{Contents, tx_name, switched, IsSvs}
use svs_bridge.Base.{Bool-cases, inl, inr}

pub record Svs : Type 0 where
  pub cells : ℕ → ℕ
  pub input : ℕ
  pub tx : Bool → ℕ → Bool

abbrev memory : Svs → ℕ → ℕ
memory w a = w.cells a % 256

abbrev pub contents : Svs → Contents
contents w = record { eeprom = memory w; transcoder = w.tx }

-- 0 where it is on.
abbrev tx_answer : Bool → List ℕ
tx_answer on = decimal (if on then 0 else 1)

abbrev answer : List ℕ → Svs → List ℕ
answer cmd w =
    if get_or cmd 0 0 == b'R'
    then decimal (memory w (digits_value 0 (drop 1 cmd)))
    else tx_answer (w.tx (get_or cmd 0 0 == b'Y') (digits_value 0 (drop 1 cmd)))

abbrev receive_tx : Bool → Bool → Svs → Svs
receive_tx rgb on w = record w { tx = switched rgb w.input on w.tx }

abbrev receive : List ℕ → Svs → Svs
receive cmd w =
    if get_or cmd 0 0 == b'W'
    then record w {
      cells = λ a.
          if a == digits_value 0 (drop 3 (drop 1 cmd))
          then digits_value 0 (take 3 (drop 1 cmd))
          else w.cells a;
    }
    else if starts_with (codes "SVS_Change_Input_") cmd
    then record w { input = digits_value 0 (drop 17 cmd) }
    else if same_bytes cmd (tx_name true true)
    then receive_tx true true w
    else if same_bytes cmd (tx_name true false)
    then receive_tx true false w
    else if same_bytes cmd (tx_name false true)
    then receive_tx false true w
    else if same_bytes cmd (tx_name false false)
    then receive_tx false false w
    else w

abbrev pub svs_port : Port Svs
svs_port = record {
  query = λ cmd t w. ((EspErr.esp_ok, answer cmd w), w);
  query_last = λ cmd t settle w. ((EspErr.esp_ok, answer cmd w), w);
  query_all = λ cmd t w. ((EspErr.esp_ok, answer cmd w ∷ []), w);
  send_quiet = λ cmd w. (EspErr.esp_ok, receive cmd w);
  session_begin = λ w. w;
  session_end = λ w. w;
  delay = λ t w. w;
  info = λ w. record {
    firmware = codes "SVS_FW_1.21";
    current_input = some w.input;
    total_inputs = some 2;
    connections = 1;
  };
  is_connected = λ w. true;
  flasher_busy = λ w. false;
  now_ms = λ w. 5000;
  scan_version = λ text. some (pos 1, b'.', pos 21);
}

abbrev is_some : Option ℕ → ℕ → Bool
is_some none v = false
is_some (some u) v = u == v

byte_table : below_all 256 (λ v. is_some (parse_byte_reply (decimal v)) v) ≡ true
unfolding below_all decimal_from parse_byte_reply reply_from starts_with is_digit
byte_table = refl

is_some-eq : (o : Option ℕ) (u v : ℕ) → is_some o u ≡ true → o ≡ some v → v ≡ u
is_some-eq none u v h e = absurd (ground (arith, e))
is_some-eq (some t) u v h e = ground (arith, e)

read_back : (u v : ℕ) → u < 256 → parse_byte_reply (decimal u) ≡ some v → v ≡ u
read_back u v small h =
    is_some-eq (parse_byte_reply (decimal u)) u v
      (below_all-true 256 (λ n. is_some (parse_byte_reply (decimal n)) n) u small byte_table) h

answer_read : (addr : ℕ) (w : Svs) → answer (read_command addr) w ≡ decimal (memory w addr)
unfolding read_command digits_value
answer_read addr w =
    ap (λ a. decimal (memory w a)) (digits_value-decimal_from (addr + 1) addr [] (omega arith))

not_same : (a b : List ℕ) → a ≢ b → same_bytes a b ≡ false
not_same a b away = elim (Bool-cases (same_bytes a b)) [
  | inl t ↦ absurd (away (same_bytes-eq a b t))
  | inr f ↦ f
]

receive_other :
    (cmd : List ℕ) (w : Svs)
    → get_or cmd 0 0 ≢ b'W'
    → ((rgb on : Bool) → cmd ≢ tx_name rgb on)
    → contents (receive cmd w) ≡ contents w
receive_other cmd w other away =
    let a = not_same cmd (tx_name true true) (away true true) in
    let b = not_same cmd (tx_name true false) (away true false) in
    let c = not_same cmd (tx_name false true) (away false true) in
    let d = not_same cmd (tx_name false false) (away false false) in
    let first : (get_or cmd 0 0 == b'W') ≡ false = ground (arith, other) in
    rw (first, a, b, c, d)
      (elim (Bool-cases (starts_with (codes "SVS_Change_Input_") cmd)) [
        | inl t ↦ rw t refl
        | inr f ↦ rw f refl
      ])

receive_tx_name : (rgb on : Bool) (w : Svs) → receive (tx_name rgb on) w ≡ receive_tx rgb on w
unfolding starts_with same_bytes
receive_tx_name true true w = refl
receive_tx_name true false w = refl
receive_tx_name false true w = refl
receive_tx_name false false w = refl

receive_switches :
    (rgb on : Bool) (n : ℕ) (w : Svs)
    → some w.input ≡ some n
    → Svs.tx (receive (tx_name rgb on) w) ≡ switched rgb n on w.tx
receive_switches rgb on n w shown =
    ap Svs.tx (receive_tx_name rgb on w) ∙ ap (λ k. switched rgb k on w.tx) (some-inj shown)

receive_write_tx : (addr v : ℕ) (w : Svs) → Svs.tx (receive (write_command addr v) w) ≡ w.tx
unfolding write_command
receive_write_tx addr v w = refl

tx_answer_value : (on : Bool) (v : ℕ) → parse_byte_reply (tx_answer on) ≡ some v → (v == 0) ≡ on
tx_answer_value true v h = let e : v ≡ 0 = read_back 0 v (omega arith) h in ground (arith, e)
tx_answer_value false v h = let e : v ≡ 1 = read_back 1 v (omega arith) h in ground (arith, e)

answer_tx :
    (rgb : Bool) (n : ℕ) (w : Svs)
    → answer ((if rgb then b'Y' else b'G') ∷ decimal n) w ≡ tx_answer (w.tx rgb n)
unfolding digits_value
answer_tx true n w =
    ap (λ k. tx_answer (w.tx true k)) (digits_value-decimal_from (n + 1) n [] (omega arith))
answer_tx false n w =
    ap (λ k. tx_answer (w.tx false k)) (digits_value-decimal_from (n + 1) n [] (omega arith))

receive_write :
    (addr v : ℕ) (w : Svs) (a : ℕ)
    → v < 256
    → a ≢ addr
    → memory (receive (write_command addr v) w) a ≡ memory w a
unfolding write_command
receive_write addr v w a small away =
    let (first, value, address) = write_command_fields addr v small in
    let miss : (a == digits_value 0 (drop 3 (drop 1 (write_command addr v)))) ≡ false =
      ground (arith, away, address) in
    rw miss refl

pub svs_port-IsSvs : IsSvs svs_port contents
svs_port-IsSvs = record {
  are_bytes = λ w a. omega arith;
  begin_keeps = λ w. refl;
  end_keeps = λ w. refl;
  delay_keeps = λ t w. refl;
  query_keeps = λ cmd t w other. refl;
  query_last_keeps = λ cmd t settle w other. refl;
  query_all_keeps = λ cmd t w other. refl;
  send_keeps = λ cmd w other away. receive_other cmd w other away;
  write_keeps = λ addr v w a small away. receive_write addr v w a small away;
  write_keeps_tx = λ addr v w. receive_write_tx addr v w;
  tx_keeps = λ rgb on w. ap memory (receive_tx_name rgb on w);
  tx_sets = λ rgb on n w shown took. receive_switches rgb on n w shown;
  tx_reads = λ rgb n t settle w v h.
      tx_answer_value (w.tx rgb n) v (ap parse_byte_reply (sym (answer_tx rgb n w)) ∙ h);
  query_reads = λ addr t w v h.
      read_back (memory w addr) v (omega arith)
        (ap parse_byte_reply (sym (answer_read addr w)) ∙ h);
}

is_some_same : (o : Option ℕ) (u : ℕ) → is_some o u ≡ true → o ≡ some u
is_some_same none u h = absurd (ground (arith, h))
is_some_same (some t) u h = ap some (ground (arith, h))

parse_byte_reply-decimal : (u : ℕ) → u < 256 → parse_byte_reply (decimal u) ≡ some u
parse_byte_reply-decimal u small =
    is_some_same (parse_byte_reply (decimal u)) u
      (below_all-true 256 (λ n. is_some (parse_byte_reply (decimal n)) n) u small byte_table)

parse_byte_reply-tx_answer : (on : Bool) → (u : ℕ) × (parse_byte_reply (tx_answer on) ≡ some u)
parse_byte_reply-tx_answer true = (0, parse_byte_reply-decimal 0 (omega arith))
parse_byte_reply-tx_answer false = (1, parse_byte_reply-decimal 1 (omega arith))

-- Whatever is asked, the answer is a byte.
answer_byte : (cmd : List ℕ) (w : Svs) → (u : ℕ) × (parse_byte_reply (answer cmd w) ≡ some u)
answer_byte cmd w = elim (Bool-cases (get_or cmd 0 0 == b'R')) [
  | inl t ↦
      let u = memory w (digits_value 0 (drop 1 cmd)) in
      (u, rw t (parse_byte_reply-decimal u (omega arith)))
  | inr f ↦
      rw f
        (parse_byte_reply-tx_answer (w.tx (get_or cmd 0 0 == b'Y') (digits_value 0 (drop 1 cmd))))
]

answered : (cmd : List ℕ) (w : Svs) → answer_of (EspErr.esp_ok, answer cmd w) ≢ none
answered cmd w gone = let (u, h) = answer_byte cmd w in absurd (ground (arith, sym h ∙ gone))

pub svs_port-IsAnswering : IsAnswering svs_port
svs_port-IsAnswering = record {
  one_of_two = λ cmd t w. inl (answered cmd w);
  last_one_of_two = λ cmd t settle w. inl (answered cmd w);
}
