-- ===== src/Settings/Restart.antt =====
-- platform/esp32/main/svs_settings.cpp: the layout that was saved is the layout after a restart.
use svs_bridge.Base.{
  ℕ, suc, ◌+◌, ◌≤◌, ◌≡◌, ◌⊎◌, inl, inr, refl, sym, ap, subst, ◌∙◌, Bool, true, false, ◌&&◌, List,
  [], ◌∷◌, Option, some, arith, ltb, if◌then◌else◌, Bool-cases, length,
}
use svs_bridge.Config.{max_inputs}
use svs_bridge.Flasher.{EspErr, is_ok}
use svs_bridge.Settings.Layout.{
  max_layout, max_name, max_outputs, Entry, Doc, Layout, no_layout, LayoutError, Checked, accepted,
  rejected, ◌>>=◌, valid_kind, valid_device, Seen, none_seen, is_tx, is_rgb, place_tx, place,
  check_entry, check_entries, check_list, check_doc, decoded, normalize, load_layout, saved,
  set_layout_json,
}

accepted-inj : {A : Type 0} {a b : A} → accepted a ≡ accepted b → a ≡ b
accepted-inj h = cc

no_accept : {A : Type 0} {e : LayoutError} {a : A} {P : Type 0} → rejected e ≡ accepted a → P
no_accept h = absurd (ground (arith, h))

bind_accepted :
    {A B : Type 0} (m : Checked A) (f : A → Checked B) {b : B}
    → m >>= f ≡ accepted b
    → (a : A) × (m ≡ accepted a) × (f a ≡ accepted b)
bind_accepted (accepted a) f h = (a, refl, h)
bind_accepted (rejected e) f h = no_accept h

-- What is made of an entry: the same again where it is checked again.
record IsPlaced (output : Bool) (seen : Seen) (e : Entry) (r : Entry × Seen) : Type 0 where
  again : place output seen (r.0) ≡ accepted r
  kind : Entry.kind r.0 ≡ e.kind
  name : (Entry.name r.0 ≡ e.name) ⊎ (Entry.name r.0 ≡ [])
  device : (Entry.device r.0 ≡ e.device) ⊎ (Entry.device r.0 ≡ [])

abbrev bare : Entry → Entry
bare e = record e { name = []; device = [] }

place_tx-bare :
    (seen : Seen) (e : Entry) (r : Entry × Seen)
    → place_tx seen e ≡ accepted r
    → (r.0 ≡ bare e) × (place_tx seen (bare e) ≡ accepted r)
unfolding place_tx
place_tx-bare seen e r h = elim (Bool-cases (is_rgb e.kind)) [
  | inl a ↦ elim (Bool-cases seen.rgb) [
    | inl b ↦ no_accept (rw (a, b) at h)
    | inr b ↦ let made = rw (a, b) at h in (ap (λ p. p.0) (sym (accepted-inj made)), rw (a, b) made)
  ]
  | inr a ↦ elim (Bool-cases seen.ypbpr) [
    | inl b ↦ no_accept (rw (a, b) at h)
    | inr b ↦ let made = rw (a, b) at h in (ap (λ p. p.0) (sym (accepted-inj made)), rw (a, b) made)
  ]
]

place-IsPlaced :
    (output : Bool) (seen : Seen) (e : Entry) (r : Entry × Seen)
    → place output seen e ≡ accepted r
    → IsPlaced output seen e r
unfolding place
place-IsPlaced output seen e r h = elim (Bool-cases (output && is_tx e.kind)) [
  | inl a ↦
      let (same, made) = place_tx-bare seen e r (rw a at h) in
      record {
        again = ap (place output seen) same ∙ rw a made;
        kind = ap Entry.kind same;
        name = inr (ap Entry.name same);
        device = inr (ap Entry.device same);
      }
  | inr a ↦ elim (Bool-cases (output && ltb max_outputs (seen.outputs + 1))) [
    | inl b ↦ no_accept (rw (a, b) at h)
    | inr b ↦
        let same = sym (ap (λ p. p.0) (accepted-inj (rw (a, b) at h))) in
        record {
          again = ap (place output seen) same ∙ h;
          kind = ap Entry.kind same;
          name = inl (ap Entry.name same);
          device = inl (ap Entry.device same);
        }
  ]
]

empty-valid_device :
    (id old : List ℕ) → (id ≡ old) ⊎ (id ≡ []) → valid_device old ≡ true → valid_device id ≡ true
unfolding valid_device
empty-valid_device id old (inl same) h = ap valid_device same ∙ h
empty-valid_device id old (inr gone) h = ap valid_device gone

not_long :
    (name old : List ℕ)
    → (name ≡ old) ⊎ (name ≡ [])
    → ltb max_name (length old) ≡ false
    → ltb max_name (length name) ≡ false
not_long name old (inl same) h = ap (λ (n : List ℕ). ltb max_name (length n)) same ∙ h
not_long name old (inr gone) h = ap (λ (n : List ℕ). ltb max_name (length n)) gone

check_entry-again :
    (output : Bool) (seen : Seen) (e : Entry) (r : Entry × Seen)
    → check_entry output seen e ≡ accepted r
    → check_entry output seen (r.0) ≡ accepted r
unfolding check_entry
check_entry-again output seen e r h = elim (Bool-cases (valid_device e.device)) [
  | inr a ↦ no_accept (rw a at h)
  | inl a ↦ elim (Bool-cases (valid_kind e.kind output)) [
    | inr b ↦ no_accept (rw (a, b) at h)
    | inl b ↦ elim (Bool-cases (ltb max_name (length e.name))) [
      | inl d ↦ no_accept (rw (a, b, d) at h)
      | inr d ↦
          let p = place-IsPlaced output seen e r (rw (a, b, d) at h) in
          rw
            (
              empty-valid_device _ e.device p.device a,
              ap (λ k. valid_kind k output) p.kind ∙ b,
              not_long _ e.name p.name d,
            )
            p.again
    ]
  ]
]

check_entries-again :
    (output : Bool) (seen : Seen) (entries checked : List Entry)
    → check_entries output seen entries ≡ accepted checked
    → (check_entries output seen checked ≡ accepted checked) × (length checked ≡ length entries)
unfolding check_entries
check_entries-again output seen [] checked h =
    let same = accepted-inj h in
    (subst (λ l. check_entries output seen l ≡ accepted l) same refl, ap length (sym same))
check_entries-again output seen (e ∷ entries) checked h =
    let (r, first, h1) = bind_accepted (check_entry output seen e) _ h in
    let (rest, others, h2) = bind_accepted (check_entries output (r.1) entries) _ h1 in
    let (again, count) = check_entries-again output (r.1) entries rest others in
    let same : r.0 ∷ rest ≡ checked = accepted-inj h2 in
    (
      subst (λ l. check_entries output seen l ≡ accepted l) same
          (rw (check_entry-again output seen e r first, again) refl),
      ap length (sym same) ∙ ap suc count,
    )

check_list-again :
    (output : Bool) (entries checked : List Entry)
    → check_list output entries ≡ accepted checked
    → check_list output checked ≡ accepted checked
unfolding check_list
check_list-again output entries checked h =
    elim (Bool-cases (ltb (if output then max_outputs + 2 else max_inputs) (length entries))) [
      | inl a ↦ no_accept (rw a at h)
      | inr a ↦
          let (again, count) = check_entries-again output none_seen entries checked (rw a at h) in
          let few : ltb (if output then max_outputs + 2 else max_inputs) (length checked) ≡ false =
            ap (ltb (if output then max_outputs + 2 else max_inputs)) count ∙ a in
          rw few again
    ]

check_doc-again : (d d' : Doc) → check_doc d ≡ accepted d' → check_doc d' ≡ accepted d'
unfolding check_doc
check_doc-again d d' h =
    let (inputs, first, h1) = bind_accepted (check_list false d.inputs) _ h in
    let (outputs, second, h2) = bind_accepted (check_list true d.outputs) _ h1 in
    subst (λ k. check_doc k ≡ accepted k) (accepted-inj h2)
      (rw
        (
          check_list-again false d.inputs inputs first,
          check_list-again true d.outputs outputs second,
        )
        refl)

module _ (decode : List ℕ → Option Doc) (encode : Doc → List ℕ)
    (reads_back : (d : Doc) → decode (encode d) ≡ some d) where
  -- What was normalized is normalized to itself.
  normalize-again :
      (json : List ℕ) (l : Layout)
      → normalize decode encode json ≡ accepted l
      → length l.text ≤ max_layout
      → normalize decode encode l.text ≡ accepted l
  unfolding normalize
  normalize-again json l h small = elim (Bool-cases (ltb max_layout (length json))) [
    | inl a ↦ no_accept (rw a at h)
    | inr a ↦
        let (d', first, h1) = bind_accepted (decoded (decode json) >>= check_doc) _ (rw a at h) in
        let (d, read, h2) = bind_accepted (decoded (decode json)) check_doc first in
        let same = accepted-inj h1 in
        let fits : ltb max_layout (length l.text) ≡ false = ground (arith, small) in
        rw (fits, ap decode (sym (ap Layout.text same)) ∙ reads_back d', check_doc-again d d' h2) h1
  ]

  loaded :
      (l : Layout)
      → normalize decode encode l.text ≡ accepted l
      → length l.text ≤ max_layout
      → load_layout decode encode (some l.text) no_layout ≡ l
  unfolding load_layout
  loaded l again small =
      let fits : ltb max_layout (length l.text) ≡ false = ground (arith, small) in
      rw (fits, again) refl

  -- Where JSON that is written reads back as what it was, and a write to NVS that succeeds is what
  -- NVS then has: a layout that `set_layout_json` took, whose text is not too long to be loaded, is
  -- the layout after a restart, with the same names and devices.
  pub load_layout-set_layout_json :
      (save : List ℕ → Option (List ℕ) → EspErr × Option (List ℕ))
      → ((text : List ℕ) (nvs : Option (List ℕ))
          → is_ok (save text nvs).0 ≡ true
          → (save text nvs).1 ≡ some text)
      → (json : List ℕ) (nvs : Option (List ℕ)) (before : Layout)
      → is_ok (set_layout_json decode encode save json nvs before).0.0 ≡ true
      → length (Layout.text (set_layout_json decode encode save json nvs before).2) ≤ max_layout
      → load_layout decode encode (set_layout_json decode encode save json nvs before).1 no_layout
        ≡ (set_layout_json decode encode save json nvs before).2
  unfolding set_layout_json
  load_layout-set_layout_json save keeps json nvs before h small =
      at (normalize decode encode json) refl h small
    where
      at :
          (c : Checked Layout)
          → normalize decode encode json ≡ c
          → is_ok (saved decode encode save c nvs before).0.0 ≡ true
          → length (Layout.text (saved decode encode save c nvs before).2) ≤ max_layout
          → load_layout decode encode (saved decode encode save c nvs before).1 no_layout
            ≡ (saved decode encode save c nvs before).2
      at (rejected e) run h small = absurd (ground (arith, h))
      at (accepted l) run h small =
          let small' : length l.text ≤ max_layout = rw h at small in
          rw (h, keeps l.text nvs h) (loaded l (normalize-again json l run small') small')
