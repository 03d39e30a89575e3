-- ===== src/Hex/Tests.antt =====
-- Intel HEX files, after tests/test_svs_hex.cpp, and the theorems at inputs that meet their hypotheses.
use svs_bridge.Base.{ℕ, ◌+◌, ◌≤◌, ◌<◌, ◌≡◌, ◌↔◌, ◌⊎◌, refl, false, List, [], ◌∷◌, arith, ◌^◌}
use svs_bridge.Base.Text.{codes}
use svs_bridge.Hex.{
  ok, err, fault, past_flash, wrong_checksum, no_end, ◌>>=◌, hex_bytes, check_rec, parse_line,
  apply_data, apply, trim_end, finish, Rec, Flash, blank, decode_hex,
}
use svs_bridge.Hex.Files.{print_file, run_recs, decode_hex-print_file}
use svs_bridge.Hex.Records.{IsRec}
use svs_bridge.Hex.Writes.{Wrote, apply_data_writes, apply_data-fault}

abbrev two : Rec
two = record { count = 2; addr = 1; type = 0; bytes = 0xAB ∷ 0xCD ∷ [] }

abbrev last : Rec
last = record { count = 0; addr = 0; type = 1; bytes = [] }

abbrev file : List ℕ
file = codes ":02000100ABCD85\r\n:00000001FF\r\n"

abbrev image : List ℕ
image = 0xFF ∷ 0xAB ∷ 0xCD ∷ []

decode-file : decode_hex 8 file ≡ ok image
unfolding decode_hex parse_line check_rec hex_bytes trim_end apply
decode-file = refl

decode-cut : decode_hex 8 (codes ":02000100ABCD85\n") ≡ err no_end
unfolding decode_hex parse_line check_rec hex_bytes trim_end apply
decode-cut = refl

decode-corrupted : decode_hex 8 (codes ":02000100ABCE85\n") ≡ err (wrong_checksum 1)
unfolding decode_hex parse_line check_rec hex_bytes trim_end apply
decode-corrupted = refl

-- 16 bytes at 0xFFFFFFF8, behind an extended linear address: the end wraps to 8.
decode_wrapped :
    decode_hex 32768
      (codes ":02000004FFFFFC\n:10FFF80000000000000000000000000000000000F9\n:00000001FF\n")
    ≡ fault
unfolding decode_hex parse_line check_rec hex_bytes trim_end apply
decode_wrapped = refl

abbrev high : Flash
high = record { flash = []; top = 0; base = 0xFFFF0000; eof = false }

apply_data-fault_example :
    (apply_data 32768 1 high (record { count = 16; addr = 0xFFF8; type = 0; bytes = [] }) ≡ fault)
    ↔ ((2 ^ 32 ≤ 0xFFFF0000 + 0xFFF8 + 16) × (0xFFFF0000 + 0xFFF8 + 16 ≤ 2 ^ 32 + 32768))
apply_data-fault_example =
    apply_data-fault 32768 1 high (record { count = 16; addr = 0xFFF8; type = 0; bytes = [] })
      (omega arith) (omega arith) (omega arith) (omega arith) (omega arith)

apply_data_writes_example :
    ((8 < 0 + 1 + 2) × (apply_data 8 1 (blank 8) two ≡ err (past_flash 1 (0 + 1 + 2))))
    ⊎ ((f' : Flash) × (apply_data 8 1 (blank 8) two ≡ ok f') × Wrote (blank 8) f' two)
apply_data_writes_example = apply_data_writes 8 1 (blank 8) two (omega arith) refl refl

two-IsRec : IsRec two
two-IsRec = omega arith

last-IsRec : IsRec last
last-IsRec = omega arith

decode_hex-print_file_example :
    decode_hex 8 (print_file (b'\r' ∷ []) (two ∷ last ∷ []))
    ≡ (run_recs 8 1 (blank 8) (two ∷ last ∷ []) >>= finish)
decode_hex-print_file_example =
    decode_hex-print_file (two ∷ last ∷ []) 8 (b'\r' ∷ []) (two-IsRec, (last-IsRec, tt)) (refl, tt)

abbrev bytes : List ℕ
bytes = 2 ∷ 0 ∷ 1 ∷ 0 ∷ 0xAB ∷ 0xCD ∷ 0x85 ∷ []

bytes_good : check_rec 1 bytes ≡ ok two
unfolding check_rec
bytes_good = refl
