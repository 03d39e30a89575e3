-- ===== src/Flasher/Chip.antt =====
-- A chip with a bootloader that does what svs_flasher.cpp relies on: its flash, the bytes it has not yet been
-- asked for, and how often its application has started.
use svs_bridge.Base.{
  ℕ, zero, suc, ◌+◌, ◌-◌, ◌*◌, ◌/◌, ◌%◌, ◌^◌, ◌≤◌, ◌<◌, ◌≡◌, ◌≢◌, ◌⊎◌, inl, inr, refl, ap, sym, ◌∙◌,
  true, List, [], ◌∷◌, ◌++◌, arith, ltb, ◌==◌, if◌then◌else◌, Bool-cases, length, get_or, take,
  drop, get_or-take, length-take,
}
use svs_bridge.Flasher.{EspErr, Port, Sync, ur_prog_page_fl, ur_read_page_fl, flash_size, page_size}
use svs_bridge.Flasher.Line.{read_ok, read_rest, command, read_request, read_flash, write_request}
use svs_bridge.Flasher.Law.{IsUrboot}

pub record Chip : Type 0 where
  pub memory : ℕ → ℕ
  pub pending : List ℕ
  pub boots : ℕ

-- The sync bytes of an ATmega328P's bootloader that reads flash and erases pages.
abbrev pub chip_sync : Sync
chip_sync = record { insync = 32; ok = 120 }

abbrev pub cells : (ℕ → ℕ) → ℕ → ℕ → List ℕ
cells memory addr zero = []
cells memory addr (suc n) = memory addr ∷ cells memory (suc addr) n

abbrev pub address : List ℕ → ℕ
address bytes = get_or bytes 1 0 + get_or bytes 2 0 * 256

abbrev pub program : List ℕ → (ℕ → ℕ) → ℕ → ℕ
program bytes memory a =
    if ltb a (address bytes)
    then memory a
    else if ltb a (address bytes + get_or bytes 3 0)
    then get_or (drop 4 bytes) (a - address bytes) 0
    else memory a

abbrev pub receive : List ℕ → Chip → Chip
receive bytes w =
    if get_or bytes 0 0 == ur_prog_page_fl
    then record w { memory = program bytes w.memory; pending = 32 ∷ 120 ∷ [] }
    else if get_or bytes 0 0 == ur_read_page_fl
    then record w {
      pending = 32 ∷ (cells w.memory (address bytes) (get_or bytes 3 0) ++ (120 ∷ []));
    }
    else record w { pending = 32 ∷ 120 ∷ [] }

abbrev pub chip_port : Port Chip
chip_port = record {
  raw_begin = λ baud w. (EspErr.esp_ok, w);
  raw_end = λ w. record w { boots = suc w.boots };
  raw_set_lines = λ dtr rts w. (EspErr.esp_ok, w);
  raw_write = λ bytes w. (EspErr.esp_ok, receive bytes w);
  raw_read = λ n t w. (take n w.pending, record w { pending = drop n w.pending });
  raw_drain = λ t w. record w { pending = [] };
  delay = λ t w. w;
  info = λ w. record { boots_seen = w.boots; connections = 1; firmware = 50 ∷ [] };
  is_connected = λ w. true;
}

receive_keeps :
    (bytes : List ℕ) (w : Chip)
    → get_or bytes 0 0 ≢ ur_prog_page_fl
    → (receive bytes w).memory ≡ w.memory
receive_keeps bytes w other = ground (arith, other)

program_keeps :
    (addr : ℕ) (page : List ℕ) (w : Chip) (a : ℕ)
    → addr < 2 ^ 16
    → length page ≡ page_size
    → (a < addr) ⊎ (addr + page_size ≤ a)
    → (receive (write_request addr page) w).memory a ≡ w.memory a
program_keeps addr page w a low full outside = ground arith

length-cells :
    (memory : ℕ → ℕ) (addr n : ℕ) (xs : List ℕ) → length (cells memory addr n ++ xs) ≡ n + length xs
length-cells memory addr zero xs = omega arith
length-cells memory addr (suc n) xs = omega (arith, length-cells memory (suc addr) n xs)

get_or-cells :
    (memory : ℕ → ℕ) (addr n : ℕ) (xs : List ℕ) (i : ℕ)
    → i < n
    → get_or (cells memory addr n ++ xs) i 0 ≡ memory (addr + i)
get_or-cells memory addr zero xs i h = absurd (omega arith)
get_or-cells memory addr (suc n) xs zero h = ap memory (omega arith)
get_or-cells memory addr (suc n) xs (suc i) h =
    get_or-cells memory (suc addr) n xs i (omega arith) ∙ ap memory (omega arith)

get_or-append : (xs ys : List ℕ) (i : ℕ) → i < length xs → get_or (xs ++ ys) i 0 ≡ get_or xs i 0
get_or-append [] ys i h = absurd (omega arith)
get_or-append (x ∷ xs) ys zero h = refl
get_or-append (x ∷ xs) ys (suc i) h = get_or-append xs ys i (omega arith)

-- The number of the bytes that are read is the number wanted only where it fits the request.
read_full :
    (memory : ℕ → ℕ) (addr n : ℕ)
    → length (take n (cells memory addr (n % 256) ++ (120 ∷ []))) ≡ n
    → n % 256 ≡ n
read_full memory addr n full = omega (
  arith,
  length-take n (cells memory addr (n % 256) ++ (120 ∷ [])),
  length-cells memory addr (n % 256) (120 ∷ []),
)

chip_read_rest :
    (sync : Sync) (addr : ℕ) (buf : List ℕ) (w : Chip)
    → w.pending ≡ cells w.memory addr (length buf % 256) ++ (120 ∷ [])
    → (read_rest chip_port sync buf w).0.0 ≡ EspErr.esp_ok
    → (i : ℕ) → i < length buf
    → get_or (read_rest chip_port sync buf w).0.1 i 0 ≡ w.memory (addr + i)
unfolding read_rest read_ok
chip_read_rest sync addr buf w answer h i low =
    let got = take (length buf) w.pending in
    let some_left : ltb 0 (length buf) ≡ true = ground arith in
    elim (Bool-cases (length (take (length buf) w.pending) == length buf)) [
      | inr f ↦ absurd (ground (arith, rw (some_left, f) at h))
      | inl t ↦
          let full : length got ≡ length buf = ground arith in
          let fits : length buf % 256 ≡ length buf =
            read_full w.memory addr (length buf)
              (ap (λ p. length (take (length buf) p)) (sym answer) ∙ full) in
          rw (some_left, t)
            (get_or-append got (drop (length got) buf) i (omega arith)
              ∙ get_or-take (length buf) w.pending i 0 low
              ∙ ap (λ p. get_or p i 0) answer
              ∙ get_or-cells w.memory addr (length buf % 256) (120 ∷ []) i (omega arith))
    ]

chip_read_flash :
    (sync : Sync) (addr : ℕ) (buf : List ℕ) (w : Chip)
    → addr + length buf ≤ flash_size
    → (read_flash chip_port sync addr buf w).0.0 ≡ EspErr.esp_ok
    → (i : ℕ) → i < length buf
    → get_or (read_flash chip_port sync addr buf w).0.1 i 0 ≡ w.memory (addr + i)
unfolding read_flash command
chip_read_flash sync addr buf w fits h i low =
    let place : addr % 256 + addr / 2 ^ 8 * 256 ≡ addr = omega arith in
    elim (Bool-cases (32 == sync.insync)) [
      | inr f ↦ absurd (ground (arith, rw (f) at h))
      | inl t ↦
          let asked : Chip = record w {
            pending =
                cells w.memory (address (read_request addr (length buf))) (length buf % 256)
                ++ (120 ∷ []);
          } in
          rw t (
            chip_read_rest sync (address (read_request addr (length buf))) buf asked refl
              (rw t at h) i low
            ∙ ap (λ a. w.memory (a + i)) place)
    ]

pub chip-IsUrboot : IsUrboot chip_port Chip.memory
chip-IsUrboot = record {
  begin_keeps = λ baud w. refl;
  end_keeps = λ w. refl;
  lines_keep = λ d r w. refl;
  read_keeps = λ n t w. refl;
  drain_keeps = λ t w. refl;
  delay_keeps = λ t w. refl;
  other_keeps = receive_keeps;
  page_keeps = program_keeps;
  read_back = chip_read_flash;
}
