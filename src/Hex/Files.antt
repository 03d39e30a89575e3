-- ===== src/Hex/Files.antt =====
-- core/svs_hex.h: whole files, written line by line and decoded.
use svs_bridge.Base.{
  ℕ, suc, ◌/◌, ◌%◌, ◌<◌, ◌≡◌, ◌≢◌, refl, fun_ext, ap, ◌∙◌, true, false, List, [], ◌∷◌, ◌++◌,
  append-nil, append_assoc, arith, ◌==◌, All,
}
use svs_bridge.Hex.{
  Decoded, ok, ◌>>=◌, Rec, Flash, apply, trim_end, on_line, decode_from, is_blank, finish, blank,
  decode_hex,
}
use svs_bridge.Hex.Records.{
  digit, hex, body, checksum, print_rec, IsRec, parse_line-print_rec, All-all_of,
}

-- A byte that is neither blank nor a newline.
abbrev IsPlain : ℕ → Type 0
IsPlain c = (is_blank c ≡ false) × (c ≢ b'\n')

digit-IsPlain : (d : ℕ) → d < 16 → IsPlain (digit d)
digit-IsPlain d h = ground arith

hex-IsPlain : (bs : List ℕ) → All (λ b. b < 256) bs → All IsPlain (hex bs)
hex-IsPlain [] a = tt
hex-IsPlain (b ∷ bs) a = (
  digit-IsPlain (b / 16) (omega (arith, a.0)),
  (digit-IsPlain (b % 16) (omega arith), hex-IsPlain bs a.1),
)

-- Blanks at the end are cut off, and nothing else is.
trim_end_plain :
    (xs blanks : List ℕ) → All IsPlain xs → trim_end blanks ≡ [] → trim_end (xs ++ blanks) ≡ xs
unfolding trim_end
trim_end_plain [] blanks a h = h
trim_end_plain (x ∷ []) blanks a h = rw h (rw a.0.0)
trim_end_plain (x ∷ y ∷ xs) blanks a h = rw (trim_end_plain (y ∷ xs) blanks a.1 h)

-- A line is read up to its newline.
decode_from_line :
    (xs text : List ℕ) (max_size line : ℕ) (f : Flash) (rest : List ℕ)
    → All (λ c. c ≢ b'\n') xs
    → decode_from max_size line f text (xs ++ b'\n' ∷ rest) ≡ (
        on_line max_size line f (text ++ xs) >>= λ f'. elim f'.eof [
          | true ↦ ok f'
          | false ↦ decode_from max_size (suc line) f' [] rest
        ])
unfolding decode_from
decode_from_line [] text max_size line f rest a = rw append-nil
decode_from_line (x ∷ xs) text max_size line f rest a =
    let n : (x == b'\n') ≡ false = ground arith in
    rw n (decode_from_line xs (text ++ x ∷ []) max_size line f rest a.1 ∙ rw append_assoc)

abbrev IsEol : List ℕ → Type 0
IsEol blanks = All (λ c. is_blank c ≡ true) blanks

trim_end_blanks : (blanks : List ℕ) → IsEol blanks → trim_end blanks ≡ []
unfolding trim_end
trim_end_blanks [] a = refl
trim_end_blanks (c ∷ cs) a = rw (trim_end_blanks cs a.1) (rw a.0)

blank_inline : (blanks : List ℕ) → IsEol blanks → All (λ c. c ≢ b'\n') blanks
blank_inline [] a = tt
blank_inline (c ∷ cs) a = ((λ e. ground arith), blank_inline cs a.1)

plain_inline : (xs : List ℕ) → All IsPlain xs → All (λ c. c ≢ b'\n') xs
plain_inline [] a = tt
plain_inline (x ∷ xs) a = (a.0.1, plain_inline xs a.1)

inline-append :
    (xs ys : List ℕ)
    → All (λ c. c ≢ b'\n') xs
    → All (λ c. c ≢ b'\n') ys
    → All (λ c. c ≢ b'\n') (xs ++ ys)
inline-append [] ys a b = b
inline-append (x ∷ xs) ys a b = (a.0, inline-append xs ys a.1 b)

print_rec-IsPlain : (r : Rec) → IsRec r → All IsPlain (print_rec r)
print_rec-IsPlain r v =
    ((refl, λ e. ground arith), hex-IsPlain (body r ++ checksum (body r) ∷ []) (All-all_of r v))

on_line-print_rec :
    (max_size line : ℕ) (f : Flash) (r : Rec) (blanks : List ℕ)
    → IsRec r
    → IsEol blanks
    → on_line max_size line f (print_rec r ++ blanks) ≡ apply max_size line f r
unfolding on_line
on_line-print_rec max_size line f r blanks v e =
    rw (trim_end_plain (print_rec r) blanks (print_rec-IsPlain r v) (trim_end_blanks blanks e))
      (rw (parse_line-print_rec r v line))

-- A file: each record on a line of its own, with blanks (such as a carriage return) before the
-- newline.
abbrev pub print_file : List ℕ → List Rec → List ℕ
print_file blanks [] = []
print_file blanks (r ∷ rs) = (print_rec r ++ blanks) ++ b'\n' ∷ print_file blanks rs

-- What a file of such records means: each is applied in turn, up to the end record.
abbrev pub run_recs : ℕ → ℕ → Flash → List Rec → Decoded Flash
run_recs max_size line f [] = ok f
run_recs max_size line f (r ∷ rs) = apply max_size line f r >>= λ f'. elim f'.eof [
  | true ↦ ok f'
  | false ↦ run_recs max_size (suc line) f' rs
]

decode_from-print_file :
    (rs : List Rec) (max_size line : ℕ) (f : Flash) (blanks : List ℕ)
    → All IsRec rs
    → IsEol blanks
    → decode_from max_size line f [] (print_file blanks rs) ≡ run_recs max_size line f rs
decode_from-print_file [] max_size line f blanks v e = unfold decode_from in refl
decode_from-print_file (r ∷ rs) max_size line f blanks v e =
    decode_from_line (print_rec r ++ blanks) [] max_size line f (print_file blanks rs) (
      inline-append (print_rec r) blanks (plain_inline (print_rec r) (print_rec-IsPlain r v.0))
        (blank_inline blanks e))
    ∙ rw (on_line-print_rec max_size line f r blanks v.0 e) (
        ap (λ k. apply max_size line f r >>= k)
          (fun_ext λ f'.
            elim f'.eof
              as (λ t.
                ◌≡◌ {A = Decoded Flash}
                  (elim t [
                    | true ↦ ok f'
                    | false ↦ decode_from max_size (suc line) f' [] (print_file blanks rs)
                  ])
                  (elim t [ true ↦ ok f' | false ↦ run_recs max_size (suc line) f' rs ])) [
                    | true ↦ refl
                    | false ↦ decode_from-print_file rs max_size (suc line) f' blanks v.1 e
                  ]))

-- A file written as the format says decodes to what its records mean: they are applied in order up to
-- the end record, and then the image is cut at the highest byte written. The carriage returns, spaces
-- or tabs before a newline make no difference.
pub decode_hex-print_file :
    (rs : List Rec) (max_size : ℕ) (blanks : List ℕ)
    → All IsRec rs
    → IsEol blanks
    → decode_hex max_size (print_file blanks rs)
      ≡ (run_recs max_size 1 (blank max_size) rs >>= finish)
unfolding decode_hex
decode_hex-print_file rs max_size blanks v e =
    rw (decode_from-print_file rs max_size 1 (blank max_size) blanks v e)
