-- ===== src/Settings/Wanted.antt =====
-- platform/esp32/main/svs_settings.cpp: what the transcoders are after the changes that `write_task`
-- lists.
use svs_bridge.Base.{
  ℕ, zero, suc, ◌+◌, ◌<◌, ◌≤◌, ◌≡◌, ◌≢◌, ◌⊎◌, inl, inr, refl, sym, ap, ◌∙◌, Bool, true, false, List,
  [], ◌∷◌, ◌++◌, some, arith, Bool-cases, length, get_elem?,
}
use svs_bridge.Config.{InputSettings}
use svs_bridge.Config.Plans.{some-inj}
use svs_bridge.Settings.Writing.{TxChange, differ, tx_change, tx_changes}
use svs_bridge.Settings.Law.{switched}
use svs_bridge.Settings.Transcoders.{same_bool}

-- Whether a transcoder is on, for each of the two and each input.
abbrev pub Tx : Type 0
Tx = Bool → ℕ → Bool

-- What an input's settings say of the transcoder.
abbrev pub flag_of : Bool → InputSettings → Bool
flag_of true s = s.rgb_to_ypbpr
flag_of false s = s.ypbpr_to_rgb

-- Each transcoder of an input with settings is as it was wanted or, where the settings that were read
-- say the same, as it was; those of other inputs are as they were.
pub record AreSwitched (want old : List InputSettings) (before after : Tx) : Type 0 where
  pub as_wanted :
      (i : ℕ) (t s : InputSettings) (rgb : Bool)
      → get_elem? want i ≡ some t
      → get_elem? old i ≡ some s
      → (after rgb (suc i) ≡ flag_of rgb t)
        ⊎ ((flag_of rgb t ≡ flag_of rgb s) × (after rgb (suc i) ≡ before rgb (suc i)))
  pub others : (k : ℕ) (rgb : Bool) → (k ≡ 0) ⊎ (length want < k) → after rgb k ≡ before rgb k

unfoldable pub all_switched : List TxChange → Tx → Tx
all_switched [] tx = tx
all_switched (t ∷ changes) tx = all_switched changes (switched t.rgb t.input t.on tx)

all_switched-append :
    (a b : List TxChange) (tx : Tx) → all_switched (a ++ b) tx ≡ all_switched b (all_switched a tx)
unfolding all_switched
all_switched-append [] b tx = refl
all_switched-append (t ∷ a) b tx = all_switched-append a b (switched t.rgb t.input t.on tx)

switched_here : (rgb on : Bool) (n : ℕ) (tx : Tx) → switched rgb n on tx rgb n ≡ on
switched_here true on n tx = ground arith
switched_here false on n tx = ground arith

switched_other :
    (rgb on rgb' : Bool) (n k : ℕ) (tx : Tx)
    → (k ≢ n) ⊎ (rgb ≢ rgb')
    → switched rgb n on tx rgb' k ≡ tx rgb' k
switched_other true on true n k tx (inl away) = ground (arith, away)
switched_other true on true n k tx (inr away) = absurd (away refl)
switched_other true on false n k tx away = refl
switched_other false on true n k tx away = refl
switched_other false on false n k tx (inl away) = ground (arith, away)
switched_other false on false n k tx (inr away) = absurd (away refl)

tx_change_here :
    (n : ℕ) (rgb new old : Bool) (tx : Tx)
    → (all_switched (tx_change n rgb new old) tx rgb n ≡ new)
      ⊎ ((new ≡ old) × (all_switched (tx_change n rgb new old) tx rgb n ≡ tx rgb n))
unfolding all_switched
tx_change_here n rgb new old tx = elim (Bool-cases (differ new old)) [
  | inl t ↦ rw t (inl (switched_here rgb new n tx))
  | inr f ↦ rw f (inr (same_bool new old f, refl))
]

tx_change_other :
    (n : ℕ) (rgb new old rgb' : Bool) (k : ℕ) (tx : Tx)
    → (k ≢ n) ⊎ (rgb ≢ rgb')
    → all_switched (tx_change n rgb new old) tx rgb' k ≡ tx rgb' k
unfolding all_switched
tx_change_other n rgb new old rgb' k tx away = elim (Bool-cases (differ new old)) [
  | inl t ↦ rw t (switched_other rgb new rgb' n k tx away)
  | inr f ↦ rw f refl
]

-- The transcoders after the changes of one input.
one_input : ℕ → InputSettings → InputSettings → Tx → Tx
one_input n w s tx =
    all_switched (tx_change n false w.ypbpr_to_rgb s.ypbpr_to_rgb)
      (all_switched (tx_change n true w.rgb_to_ypbpr s.rgb_to_ypbpr) tx)

one_input_here :
    (n : ℕ) (w s : InputSettings) (tx : Tx) (rgb : Bool)
    → (one_input n w s tx rgb n ≡ flag_of rgb w)
      ⊎ ((flag_of rgb w ≡ flag_of rgb s) × (one_input n w s tx rgb n ≡ tx rgb n))
unfolding one_input
one_input_here n w s tx true =
    let rest =
      tx_change_other n false w.ypbpr_to_rgb s.ypbpr_to_rgb true n
        (all_switched (tx_change n true w.rgb_to_ypbpr s.rgb_to_ypbpr) tx) (inr (λ e. cc)) in
    elim (tx_change_here n true w.rgb_to_ypbpr s.rgb_to_ypbpr tx) [
      | inl set ↦ inl (rest ∙ set)
      | inr (same, kept) ↦ inr (same, rest ∙ kept)
    ]
one_input_here n w s tx false =
    let first = tx_change_other n true w.rgb_to_ypbpr s.rgb_to_ypbpr false n tx (inr (λ e. cc)) in
    elim (tx_change_here n false w.ypbpr_to_rgb s.ypbpr_to_rgb
      (all_switched (tx_change n true w.rgb_to_ypbpr s.rgb_to_ypbpr) tx)) [
        | inl set ↦ inl set
        | inr (same, kept) ↦ inr (same, kept ∙ first)
      ]

one_input_other :
    (n : ℕ) (w s : InputSettings) (tx : Tx) (rgb : Bool) (k : ℕ)
    → k ≢ n
    → one_input n w s tx rgb k ≡ tx rgb k
unfolding one_input
one_input_other n w s tx rgb k away =
    tx_change_other n false w.ypbpr_to_rgb s.ypbpr_to_rgb rgb k _ (inl away)
    ∙ tx_change_other n true w.rgb_to_ypbpr s.rgb_to_ypbpr rgb k tx (inl away)

tx_changes_cons :
    (n : ℕ) (w s : InputSettings) (want old : List InputSettings) (tx : Tx)
    → all_switched (tx_changes n (w ∷ want) (s ∷ old)) tx
      ≡ all_switched (tx_changes (suc n) want old) (one_input n w s tx)
unfolding tx_changes one_input
tx_changes_cons n w s want old tx =
    all_switched-append (tx_change n true w.rgb_to_ypbpr s.rgb_to_ypbpr) _ tx
    ∙ all_switched-append (tx_change n false w.ypbpr_to_rgb s.ypbpr_to_rgb) _ _

-- The inputs before the `n`th, and those past the list, keep theirs.
tx_changes_others :
    (n : ℕ) (want old : List InputSettings) (tx : Tx) (rgb : Bool) (k : ℕ)
    → (k < n) ⊎ (n + length want ≤ k)
    → all_switched (tx_changes n want old) tx rgb k ≡ tx rgb k
unfolding tx_changes all_switched
tx_changes_others n [] old tx rgb k away = refl
tx_changes_others n (w ∷ want) [] tx rgb k away = refl
tx_changes_others n (w ∷ want) (s ∷ old) tx rgb k away =
    ap (λ (f : Tx). f rgb k) (tx_changes_cons n w s want old tx)
    ∙ tx_changes_others (suc n) want old (one_input n w s tx) rgb k
        (elim away [ inl low ↦ inl (omega arith) | inr high ↦ inr (omega arith) ])
    ∙ one_input_other n w s tx rgb k
        (λ e. elim away [ inl low ↦ omega arith | inr high ↦ omega arith ])

tx_changes_as_wanted :
    (n : ℕ) (want old : List InputSettings) (tx : Tx) (i : ℕ) (t s : InputSettings) (rgb : Bool)
    → get_elem? want i ≡ some t
    → get_elem? old i ≡ some s
    → (all_switched (tx_changes n want old) tx rgb (n + i) ≡ flag_of rgb t)
      ⊎ ((flag_of rgb t ≡ flag_of rgb s)
          × (all_switched (tx_changes n want old) tx rgb (n + i) ≡ tx rgb (n + i)))
tx_changes_as_wanted n [] old tx i t s rgb got got' = absurd (ground (arith, got))
tx_changes_as_wanted n (w ∷ want) [] tx i t s rgb got got' = absurd (ground (arith, got'))
tx_changes_as_wanted n (w ∷ want) (u ∷ old) tx zero t s rgb got got' =
    let here : n + 0 ≡ n = omega arith in
    let at : all_switched (tx_changes n (w ∷ want) (u ∷ old)) tx rgb n ≡ one_input n w u tx rgb n =
      ap (λ (f : Tx). f rgb n) (tx_changes_cons n w u want old tx)
      ∙ tx_changes_others (suc n) want old (one_input n w u tx) rgb n (inl (omega arith)) in
    rw here (elim (one_input_here n w u tx rgb) [
      | inl set ↦ inl (at ∙ set ∙ ap (flag_of rgb) (some-inj got))
      | inr (same, kept) ↦ inr (
        sym (ap (flag_of rgb) (some-inj got)) ∙ same ∙ ap (flag_of rgb) (some-inj got'),
        at ∙ kept,
      )
    ])
tx_changes_as_wanted n (w ∷ want) (u ∷ old) tx (suc i) t s rgb got got' =
    let here : n + suc i ≡ suc n + i = omega arith in
    let at : all_switched (tx_changes n (w ∷ want) (u ∷ old)) tx rgb (suc n + i)
        ≡ all_switched (tx_changes (suc n) want old) (one_input n w u tx) rgb (suc n + i) =
      ap (λ (f : Tx). f rgb (suc n + i)) (tx_changes_cons n w u want old tx) in
    rw here (elim (tx_changes_as_wanted (suc n) want old (one_input n w u tx) i t s rgb got got') [
      | inl set ↦ inl (at ∙ set)
      | inr (same, kept) ↦
          inr (same, at ∙ kept ∙ one_input_other n w u tx rgb (suc n + i) (λ e. omega arith))
    ])

-- The changes that `tx_changes` lists do so.
pub all_switched-AreSwitched :
    (want old : List InputSettings) (tx : Tx)
    → AreSwitched want old tx (all_switched (tx_changes 1 want old) tx)
all_switched-AreSwitched want old tx = record {
  as_wanted = λ i t s rgb got got'.
      let here : suc i ≡ 1 + i = omega arith in
      rw here (tx_changes_as_wanted 1 want old tx i t s rgb got got');
  others = λ k rgb away.
      tx_changes_others 1 want old tx rgb k
        (elim away [ inl low ↦ inl (omega arith) | inr high ↦ inr (omega arith) ]);
}
