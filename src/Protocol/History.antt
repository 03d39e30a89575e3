-- ===== src/Protocol/History.antt =====
-- core/svs_protocol.h: `is_repeated` against the history of the lines.
use svs_bridge.Base.{
  same_bytes, same_bytes-eq, same_bytes_self, ℕ, ◌≡◌, ◌↔◌, ◌⊎◌, inl, inr, refl, sym, subst, ◌∙◌,
  Bool, true, false, List, [], ◌∷◌, arith, if◌then◌else◌, Bool-cases,
}
use svs_bridge.Protocol.{
  starts_with, is_firmware, is_total, is_current, StatusFilter, fresh_filter, is_repeated,
}

-- The most recent line of a history, its latest line first, that passes a test and that no banner
-- has followed: the empty text if there is none.
abbrev pub recent : (List ℕ → Bool) → List (List ℕ) → List ℕ
recent test [] = []
recent test (line ∷ older) =
    let rest = recent test older in
    if is_firmware line then [] else if test line then line else rest

-- The filter after a history.
abbrev pub after : List (List ℕ) → StatusFilter
after [] = fresh_filter
after (line ∷ older) = (is_repeated (after older) line).1

-- A line is of one kind only.
total_alone : (line : List ℕ) → is_total line ≡ true → is_current line ≡ false
unfolding starts_with
total_alone [] h = absurd (ground (arith, h))
total_alone (a ∷ []) h = ground arith
total_alone (a ∷ b ∷ []) h = ground arith
total_alone (a ∷ b ∷ c ∷ []) h = ground arith
total_alone (a ∷ b ∷ c ∷ d ∷ []) h = ground arith
total_alone (a ∷ b ∷ c ∷ d ∷ e ∷ line) h = ground arith

current_alone : (line : List ℕ) → is_current line ≡ true → is_total line ≡ false
current_alone line h = elim (Bool-cases (is_total line)) [
  | inl t ↦ absurd (ground (arith, h, total_alone line t))
  | inr f ↦ f
]

-- The filter holds the most recent line of each kind.
after-recent :
    (history : List (List ℕ))
    → (StatusFilter.last_total (after history) ≡ recent is_total history)
      × (StatusFilter.last_current (after history) ≡ recent is_current history)
unfolding is_repeated starts_with
after-recent [] = (refl, refl)
after-recent (line ∷ older) =
    let (total, current) = after-recent older in
    elim (Bool-cases (is_firmware line)) [
      | inl f ↦ rw f (refl, refl)
      | inr f ↦ elim (Bool-cases (is_total line)) [
        | inl t ↦ elim (Bool-cases (same_bytes (StatusFilter.last_total (after older)) line)) [
          | inl s ↦ rw (f, t, s, total_alone line t) (same_bytes-eq _ line s, current)
          | inr s ↦ rw (f, t, s, total_alone line t) (refl, current)
        ]
        | inr t ↦ elim (Bool-cases (is_current line)) [
          | inl c ↦ elim (Bool-cases (same_bytes (StatusFilter.last_current (after older)) line)) [
            | inl s ↦ rw (f, t, c, s) (total, same_bytes-eq _ line s)
            | inr s ↦ rw (f, t, c, s) (total, refl)
          ]
          | inr c ↦ rw (f, t, c) (total, current)
        ]
      ]
    ]

module _ (f : StatusFilter) (line : List ℕ) (plain : is_firmware line ≡ false) where
  repeated_total : is_total line ≡ true → (is_repeated f line).0 ≡ same_bytes f.last_total line
  unfolding is_repeated starts_with
  repeated_total t = elim (Bool-cases (same_bytes f.last_total line)) [
    | inl s ↦ rw (plain, t, s) refl
    | inr s ↦ rw (plain, t, s) refl
  ]

  repeated_current :
      is_total line ≡ false
      → is_current line ≡ true
      → (is_repeated f line).0 ≡ same_bytes f.last_current line
  unfolding is_repeated starts_with
  repeated_current t c = elim (Bool-cases (same_bytes f.last_current line)) [
    | inl s ↦ rw (plain, t, c, s) refl
    | inr s ↦ rw (plain, t, c, s) refl
  ]

  repeated_other : is_total line ≡ false → is_current line ≡ false → (is_repeated f line).0 ≡ false
  unfolding is_repeated starts_with
  repeated_other t c = rw (plain, t, c) refl

repeated_firmware :
    (f : StatusFilter) (line : List ℕ) → is_firmware line ≡ true → (is_repeated f line).0 ≡ false
unfolding is_repeated starts_with
repeated_firmware f line h = rw h refl

differ : {A : Type 0} {b : Bool} → b ≡ true → b ≡ false → A
differ h e = absurd (ground (arith, h, e))

-- A line says again what the most recent line of its kind said.
abbrev pub Repeats : List (List ℕ) → List ℕ → Type 0
Repeats older line =
    (is_firmware line ≡ false)
    × (((is_total line ≡ true) × (recent is_total older ≡ line))
        ⊎ ((is_current line ≡ true) × (recent is_current older ≡ line)))

-- `is_repeated` is true of a line exactly where it is a TOTAL or a CURRENT line and the same as the
-- most recent line of its kind since the last firmware banner, whatever came between.
pub is_repeated_iff :
    (older : List (List ℕ)) (line : List ℕ)
    → ((is_repeated (after older) line).0 ≡ true) ↔ Repeats older line
is_repeated_iff older line =
    let (total, current) = after-recent older in
    elim (Bool-cases (is_firmware line)) [
      | inl f ↦ (λ h. differ h (repeated_firmware (after older) line f), λ (e, r). differ f e)
      | inr f ↦ elim (Bool-cases (is_total line)) [
        | inl t ↦
            let same = repeated_total (after older) line f t in
            (
              λ h. (f, inl (t, sym total ∙ same_bytes-eq _ line (sym same ∙ h))),
              λ (e, r). elim r [
                | inl (x, held) ↦
                    same
                    ∙ subst (λ l. same_bytes l line ≡ true) (sym (total ∙ held))
                        (same_bytes_self line)
                | inr (c, held) ↦ differ c (total_alone line t)
              ],
            )
        | inr t ↦ elim (Bool-cases (is_current line)) [
          | inl c ↦
              let same = repeated_current (after older) line f t c in
              (
                λ h. (f, inr (c, sym current ∙ same_bytes-eq _ line (sym same ∙ h))),
                λ (e, r). elim r [
                  | inl (x, held) ↦ differ x t
                  | inr (x, held) ↦
                      same
                      ∙ subst (λ l. same_bytes l line ≡ true) (sym (current ∙ held))
                          (same_bytes_self line)
                ],
              )
          | inr c ↦ (
            λ h. differ h (repeated_other (after older) line f t c),
            λ (e, r). elim r [ inl (x, held) ↦ differ x t | inr (x, held) ↦ differ x c ],
          )
        ]
      ]
    ]
