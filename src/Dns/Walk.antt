-- ===== src/Dns/Walk.antt =====
-- platform/esp32/main/dns_server.cpp: the loop over the labels of a name.
use svs_bridge.Base.{
  ℕ, zero, suc, ◌+◌, ◌-◌, ◌%◌, ◌/◌, ◌^◌, ◌≤◌, ◌<◌, ◌≡◌, refl, ap, ap₂, sym, ◌∙◌, true, false, not,
  ◌&&◌, List, [], ◌∷◌, ◌++◌, some, arith, append_assoc, ltb, ◌==◌, length, length-append, get_or,
  All,
}
use svs_bridge.Dns.{walk}

-- A label, and a name of them.
abbrev pub IsLabel : List ℕ → Type 0
IsLabel label = (0 < length label) × (length label < 64)

abbrev pub print_name : List (List ℕ) → List ℕ
print_name [] = 0 ∷ []
print_name (label ∷ labels) = length label ∷ (label ++ print_name labels)

get_or-past : (xs ys : List ℕ) (x : ℕ) → get_or (xs ++ (x ∷ ys)) (length xs) 0 ≡ x
get_or-past [] ys x = refl
get_or-past (y ∷ xs) ys x = get_or-past xs ys x

pub walk-print_name :
    (fuel : ℕ) (before after : List ℕ) (labels : List (List ℕ)) (len : ℕ)
    → All IsLabel labels
    → length before + length (print_name labels) ≤ len
    → length (print_name labels) ≤ fuel
    → walk fuel (before ++ (print_name labels ++ after)) len (length before)
      ≡ some (length before + length (print_name labels) - 1)
unfolding walk
walk-print_name zero before after [] len good fits enough = absurd (omega arith)
walk-print_name zero before after (label ∷ labels) len good fits enough = absurd (omega arith)
walk-print_name (suc fuel) before after [] len good fits enough =
    rw (get_or-past before after 0) (ground arith)
walk-print_name (suc fuel) before after (label ∷ labels) len (here, good) fits enough =
    let n = length label in
    let head = before ++ (n ∷ label) in
    let whole = before ++ ((n ∷ (label ++ print_name labels)) ++ after) in
    let split : head ++ (print_name labels ++ after) ≡ whole =
      append_assoc before (n ∷ label) (print_name labels ++ after)
      ∙ ap (λ r. before ++ (n ∷ r)) (sym (append_assoc label (print_name labels) after)) in
    let at : get_or whole (length before) 0 ≡ n =
      get_or-past before ((label ++ print_name labels) ++ after) n in
    let size : length head ≡ length before + (n + 1) =
      omega (arith, length-append before (n ∷ label)) in
    let total : length (print_name (label ∷ labels)) ≡ n + 1 + length (print_name labels) =
      omega (arith, length-append label (print_name labels)) in
    let later : walk fuel whole len (length before + (n + 1))
        ≡ some (length before + length (print_name (label ∷ labels)) - 1) =
      ap₂ (λ b p. walk fuel b len p) (sym split) (sym size)
      ∙ walk-print_name fuel head after labels len good (omega (arith, size, total))
          (omega (arith, total))
      ∙ ap some (omega (arith, size, total)) in
    let inside : ltb (length before) len && not (n == 0) ≡ true = ground arith in
    let short : not (n / 2 ^ 6 % 4 == 0) ≡ false = ground arith in rw (at, inside, short) later
