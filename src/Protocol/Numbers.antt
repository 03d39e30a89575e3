-- ===== src/Protocol/Numbers.antt =====
-- core/svs_protocol.h: the number at the end of a line, and lines of control characters.
use svs_bridge.Base.{
  ℕ, zero, suc, ◌+◌, ◌-◌, ◌≡◌, ◌↔◌, refl, sym, ap, ap₂, subst, ◌∙◌, Bool, true, false, not, List,
  [], ◌∷◌, ◌++◌, append_assoc, none, some, arith, length, take, drop, length-append, All,
}
use svs_bridge.Base.Text.{codes}
use svs_bridge.Protocol.{
  is_digit, find_last, atoi, start_of, trailing_number, starts_with, input_change, total_inputs,
  parse_svs_line, only_control_chars,
}

find_last-none :
    (test : ℕ → Bool) (cs : List ℕ) → All (λ c. test c ≡ false) cs → find_last test cs ≡ none
unfolding find_last
find_last-none test [] away = refl
find_last-none test (c ∷ cs) (fails, away) = rw (find_last-none test cs away, fails) refl

find_last-append :
    (test : ℕ → Bool) (bs cs : List ℕ)
    → All (λ c. test c ≡ false) cs
    → find_last test (bs ++ cs) ≡ find_last test bs
unfolding find_last
find_last-append test [] cs away = find_last-none test cs away
find_last-append test (b ∷ bs) cs away = rw (find_last-append test bs cs away) refl

find_last_end :
    (test : ℕ → Bool) (bs : List ℕ) (c : ℕ)
    → test c ≡ true
    → find_last test (bs ++ c ∷ []) ≡ some (length bs)
unfolding find_last
find_last_end test [] c holds = rw holds refl
find_last_end test (b ∷ bs) c holds = rw (find_last_end test bs c holds) refl

take-length : (n : ℕ) (bs cs : List ℕ) → n ≡ length bs → take n (bs ++ cs) ≡ bs
take-length zero [] cs e = refl
take-length zero (b ∷ bs) cs e = absurd (omega arith)
take-length (suc n) [] cs e = absurd (omega arith)
take-length (suc n) (b ∷ bs) cs e = ap (◌∷◌ b) (take-length n bs cs (omega arith))

drop-length : (n : ℕ) (bs cs : List ℕ) → n ≡ length bs → drop n (bs ++ cs) ≡ cs
drop-length zero [] cs e = refl
drop-length zero (b ∷ bs) cs e = absurd (omega arith)
drop-length (suc n) [] cs e = absurd (omega arith)
drop-length (suc n) (b ∷ bs) cs e = drop-length n bs cs (omega arith)

abbrev pub AreDigits : List ℕ → Type 0
AreDigits ds = All (λ d. is_digit d ≡ true) ds

abbrev pub AreNoDigits : List ℕ → Type 0
AreNoDigits cs = All (λ c. is_digit c ≡ false) cs

All-append : (P : ℕ → Type 0) (bs cs : List ℕ) → All P bs → All P cs → All P (bs ++ cs)
All-append P [] cs held all = all
All-append P (b ∷ bs) cs (h, held) all = (h, All-append P bs cs held all)

AreDigits-not : (ds : List ℕ) → AreDigits ds → All (λ c. not (is_digit c) ≡ false) ds
AreDigits-not [] all = tt
AreDigits-not (d ∷ ds) (holds, all) = (ap not holds, AreDigits-not ds all)

-- Where a run of digits starts after `before`: at its end, if that is no digit.
start_after :
    (before ds : List ℕ) (c : ℕ)
    → is_digit c ≡ false
    → AreDigits ds
    → start_of (find_last (λ c. not (is_digit c)) ((before ++ c ∷ []) ++ ds))
      ≡ length (before ++ c ∷ [])
start_after before ds c fails all =
    ap start_of (
      find_last-append (λ c. not (is_digit c)) (before ++ c ∷ []) ds (AreDigits-not ds all)
      ∙ find_last_end (λ c. not (is_digit c)) before c (ap not fails))
    ∙ omega (arith, length-append before (c ∷ []))

module _ (before : List ℕ) (c : ℕ) (ds : List ℕ) (d : ℕ) (post : List ℕ)
    (fails : is_digit c ≡ false) (all : AreDigits ds) (holds : is_digit d ≡ true)
    (rest : AreNoDigits post) where
  abbrev head : List ℕ
  head = before ++ c ∷ []

  abbrev run : List ℕ
  run = ds ++ d ∷ []

  last_digit : find_last is_digit ((head ++ run) ++ post) ≡ some (length (head ++ ds))
  last_digit =
      find_last-append is_digit (head ++ run) post rest
      ∙ ap (find_last is_digit) (sym (append_assoc head ds (d ∷ [])))
      ∙ find_last_end is_digit (head ++ ds) d holds

  -- `trailing_number` reads the last run of digits of a line, whole, where a byte that is not a digit
  -- stands before it: the digits before it and what follows it do not count.
  pub trailing_number_last_run : trailing_number ((head ++ run) ++ post) ≡ atoi run
  unfolding trailing_number
  trailing_number_last_run =
      let end : length (head ++ ds) + 1 ≡ length (head ++ run) =
        omega (arith, length-append head ds, length-append head run, length-append ds (d ∷ [])) in
      let start =
        ap (λ t. start_of (find_last (λ c. not (is_digit c)) t))
          (take-length (length (head ++ ds) + 1) (head ++ run) post end)
        ∙ start_after before run c fails
            (All-append (λ d. is_digit d ≡ true) ds (d ∷ []) all (holds, tt)) in
      let count : length (head ++ ds) - length head + 1 ≡ length run =
        omega (arith, length-append head ds, length-append ds (d ∷ [])) in
      rw (last_digit, start)
        (ap atoi (
          ap (take (length (head ++ ds) - length head + 1)) (
            ap (drop (length head)) (append_assoc head run post)
            ∙ drop-length (length head) head (run ++ post) refl)
          ∙ take-length (length (head ++ ds) - length head + 1) run post count))

-- The line that the SVS prints for a text before `=` and a number.
abbrev pub status_line : List ℕ → List ℕ → ℕ → List ℕ → List ℕ
status_line text ds d post = ((text ++ b'=' ∷ []) ++ (ds ++ d ∷ [])) ++ post

-- The SVS's NEW, CURRENT and TOTAL lines are of the kinds they announce, with the number after `=`
-- as their value, whatever that is not a digit follows it.
pub parse_svs_line_status :
    (ds : List ℕ) (d : ℕ) (post : List ℕ)
    → AreDigits ds
    → is_digit d ≡ true
    → AreNoDigits post
    → (parse_svs_line (status_line (codes "SVS NEW INPUT") ds d post)
        ≡ record { kind = input_change; value = atoi (ds ++ d ∷ []) })
      × (parse_svs_line (status_line (codes "SVS CURRENT INPUT") ds d post)
          ≡ record { kind = input_change; value = atoi (ds ++ d ∷ []) })
      × (parse_svs_line (status_line (codes "SVS TOTAL INPUTS") ds d post)
          ≡ record { kind = total_inputs; value = atoi (ds ++ d ∷ []) })
unfolding parse_svs_line starts_with is_digit
parse_svs_line_status ds d post all holds rest = (
  ap (λ v. record { kind = input_change; value = v })
      (trailing_number_last_run (codes "SVS NEW INPUT") b'=' ds d post equals_sign all holds rest),
  ap (λ v. record { kind = input_change; value = v })
      (trailing_number_last_run (codes "SVS CURRENT INPUT") b'=' ds d post equals_sign all holds
        rest),
  ap (λ v. record { kind = total_inputs; value = v })
      (trailing_number_last_run (codes "SVS TOTAL INPUTS") b'=' ds d post equals_sign all holds
        rest),
)
  where
    equals_sign : is_digit b'=' ≡ false
    equals_sign = refl

-- Control characters as the log shows them: two characters each between `<` and `>`.
abbrev pub shown : List (ℕ × ℕ) → List ℕ
shown [] = []
shown ((x, y) ∷ groups) = b'<' ∷ x ∷ y ∷ b'>' ∷ shown groups

shown_passes : (groups : List (ℕ × ℕ)) → only_control_chars (shown groups) ≡ true
unfolding only_control_chars
shown_passes [] = refl
shown_passes ((x, y) ∷ groups) = shown_passes groups

groups_of :
    (line : List ℕ)
    → only_control_chars line ≡ true
    → (groups : List (ℕ × ℕ)) × (line ≡ shown groups)
unfolding only_control_chars
groups_of [] h = ([], refl)
groups_of (c ∷ []) h = absurd (ground (arith, h))
groups_of (c ∷ x ∷ []) h = absurd (ground (arith, h))
groups_of (c ∷ x ∷ y ∷ []) h = absurd (ground (arith, h))
groups_of (c ∷ x ∷ y ∷ d ∷ line) h =
    let left : c ≡ b'<' = ground arith in
    let right : d ≡ b'>' = ground arith in
    let rest : only_control_chars line ≡ true = ground arith in
    let (groups, e) = groups_of line rest in
    ((x, y) ∷ groups, ap₂ (λ c t. c ∷ x ∷ y ∷ t) left (ap₂ (◌∷◌) right e))

-- `only_control_chars` is true exactly of the lines that are such groups, one after the other.
pub only_control_chars_iff :
    (line : List ℕ)
    → (only_control_chars line ≡ true) ↔ ((groups : List (ℕ × ℕ)) × (line ≡ shown groups))
only_control_chars_iff line = (
  groups_of line,
  λ (groups, e). subst (λ l. only_control_chars l ≡ true) (sym e) (shown_passes groups),
)
