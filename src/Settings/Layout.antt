-- ===== src/Settings/Layout.antt =====
-- platform/esp32/main/svs_settings.cpp: the layout of the switch. ArduinoJson and the storage NVS are
-- parameters: JSON is what `decode` finds in a text and `encode` makes of it.
use svs_bridge.Base.{
  ℕ, ◌+◌, ◌-◌, Bool, true, false, not, ◌&&◌, ◌||◌, List, [], ◌∷◌, Option, none, some, ltb, leb,
  ◌==◌, if◌then◌else◌, length, get_elem?, same_bytes,
}
use svs_bridge.Base.Text.{codes}
use svs_bridge.Protocol.{starts_with}
use svs_bridge.Config.{max_inputs}
use svs_bridge.Flasher.{EspErr, is_ok}

abbrev pub max_layout : ℕ
max_layout = 3900

abbrev pub max_name : ℕ
max_name = 32

abbrev pub max_device : ℕ
max_device = 16

abbrev pub max_outputs : ℕ
max_outputs = 6

-- One module of a list; a key that is missing, or is no text, is the empty text.
pub record Entry : Type 0 where
  pub kind : List ℕ
  pub name : List ℕ
  pub device : List ℕ

-- The lists "inputs" and "outputs"; one that is missing is empty.
pub record Doc : Type 0 where
  pub inputs : List Entry
  pub outputs : List Entry

pub record Label : Type 0 where
  pub name : List ℕ
  pub device : List ℕ

-- `s_layout` and `s_labels`.
pub record Layout : Type 0 where
  pub text : List ℕ
  pub labels : List Label

abbrev pub no_layout : Layout
no_layout = record { text = codes "{}"; labels = [] }

pub data LayoutError : Type 0 where
  invalid_layout too_many_outputs too_many_inputs long_name placed_twice : LayoutError
  unknown_device : List ℕ → LayoutError
  unknown_module : List ℕ → LayoutError

pub data Checked (A : Type 0) : Type 0 where
  accepted : A → Checked A
  rejected : LayoutError → Checked A

infixl 5 ◌>>=◌
abbrev pub ◌>>=◌ : {A B : Type 0} → Checked A → (A → Checked B) → Checked B
accepted a >>= f = f a
rejected e >>= f = rejected e

unfoldable pub is_one_of : List ℕ → List (List ℕ) → Bool
is_one_of kind [] = false
is_one_of kind (k ∷ kinds) = same_bytes kind k || is_one_of kind kinds

abbrev pub in_kinds : List (List ℕ)
in_kinds =
    [] ∷ codes "scart" ∷ codes "component" ∷ codes "vga" ∷ codes "svideo" ∷ codes "dterm" ∷ []

abbrev pub out_kinds : List (List ℕ)
out_kinds =
    codes "scart"
    ∷ codes "component"
    ∷ codes "vga"
    ∷ codes "svideo"
    ∷ codes "bnc"
    ∷ codes "tx_rgb_to_ypbpr"
    ∷ codes "tx_ypbpr_to_rgb"
    ∷ []

unfoldable pub valid_kind : List ℕ → Bool → Bool
valid_kind kind output = is_one_of kind (if output then out_kinds else in_kinds)

abbrev pub is_device_char : ℕ → Bool
is_device_char c =
    (leb b'a' c && leb c b'z') || ((leb b'0' c && leb c b'9') || (c == b'-' || c == b'_'))

abbrev pub all_device_chars : List ℕ → Bool
all_device_chars [] = true
all_device_chars (c ∷ cs) = is_device_char c && all_device_chars cs

unfoldable pub valid_device : List ℕ → Bool
valid_device id = not (ltb max_device (length id)) && all_device_chars id

-- The outputs so far, and which transcoders were among them.
pub record Seen : Type 0 where
  pub outputs : ℕ
  pub rgb : Bool
  pub ypbpr : Bool

abbrev pub none_seen : Seen
none_seen = record { outputs = 0; rgb = false; ypbpr = false }

abbrev pub is_tx : List ℕ → Bool
is_tx kind = starts_with (codes "tx_") kind

abbrev pub is_rgb : List ℕ → Bool
is_rgb kind = same_bytes kind (codes "tx_rgb_to_ypbpr")

-- A transcoder, which is placed once and has no name.
unfoldable pub place_tx : Seen → Entry → Checked (Entry × Seen)
place_tx seen e =
    if is_rgb e.kind
    then if seen.rgb
      then rejected placed_twice
      else accepted (record e { name = []; device = [] }, record seen { rgb = true })
    else if seen.ypbpr
    then rejected placed_twice
    else accepted (record e { name = []; device = [] }, record seen { ypbpr = true })

unfoldable pub place : Bool → Seen → Entry → Checked (Entry × Seen)
place output seen e =
    if output && is_tx e.kind
    then place_tx seen e
    else if output && ltb max_outputs (seen.outputs + 1)
    then rejected too_many_outputs
    else accepted (e, (if output then record seen { outputs = seen.outputs + 1 } else seen))

unfoldable pub check_entry : Bool → Seen → Entry → Checked (Entry × Seen)
check_entry output seen e =
    if not (valid_device e.device)
    then rejected (unknown_device e.device)
    else if not (valid_kind e.kind output)
    then rejected (unknown_module e.kind)
    else if ltb max_name (length e.name)
    then rejected long_name
    else place output seen e

unfoldable pub check_entries : Bool → Seen → List Entry → Checked (List Entry)
check_entries output seen [] = accepted []
check_entries output seen (e ∷ entries) =
    check_entry output seen e
    >>= (λ (e', seen'). check_entries output seen' entries >>= (λ rest. accepted (e' ∷ rest)))

unfoldable pub check_list : Bool → List Entry → Checked (List Entry)
check_list output entries =
    if ltb (if output then max_outputs + 2 else max_inputs) (length entries)
    then rejected (if output then too_many_outputs else too_many_inputs)
    else check_entries output none_seen entries

unfoldable pub check_doc : Doc → Checked Doc
check_doc d = check_list false d.inputs >>= (λ inputs.
    check_list true d.outputs
    >>= (λ outputs. accepted (record { inputs = inputs; outputs = outputs })))

abbrev pub labels_of : List Entry → List Label
labels_of [] = []
labels_of (e ∷ entries) = record { name = e.name; device = e.device } ∷ labels_of entries

abbrev pub decoded : Option Doc → Checked Doc
decoded none = rejected invalid_layout
decoded (some d) = accepted d

module _ (decode : List ℕ → Option Doc) (encode : Doc → List ℕ) where
  unfoldable pub normalize : List ℕ → Checked Layout
  normalize json =
      if ltb max_layout (length json)
      then rejected invalid_layout
      else decoded (decode json)
        >>= check_doc
        >>= (λ d. accepted (record { text = encode d; labels = labels_of d.inputs }))

  abbrev pub or_before : Checked Layout → Layout → Layout
  or_before (accepted l) before = l
  or_before (rejected e) before = before

  -- What NVS has, if it can be read.
  unfoldable pub load_layout : Option (List ℕ) → Layout → Layout
  load_layout none before = before
  load_layout (some json) before =
      if ltb max_layout (length json) then before else or_before (normalize json) before

  -- `save` is the write to NVS and its commit: the result, and what NVS then has.
  abbrev pub saved :
      (List ℕ → Option (List ℕ) → EspErr × Option (List ℕ))
      → Checked Layout
      → Option (List ℕ)
      → Layout
      → (EspErr × Option LayoutError) × Option (List ℕ) × Layout
  saved save (rejected e) nvs before = ((EspErr.invalid_arg, some e), nvs, before)
  saved save (accepted l) nvs before =
      let r = save l.text nvs in ((r.0, none), r.1, (if is_ok r.0 then l else before))

  unfoldable pub set_layout_json :
      (List ℕ → Option (List ℕ) → EspErr × Option (List ℕ))
      → List ℕ
      → Option (List ℕ)
      → Layout
      → (EspErr × Option LayoutError) × Option (List ℕ) × Layout
  set_layout_json save json nvs before = saved save (normalize json) nvs before

abbrev pub name_or_empty : Option Label → List ℕ
name_or_empty none = []
name_or_empty (some l) = l.name

abbrev pub device_or_empty : Option Label → List ℕ
device_or_empty none = []
device_or_empty (some l) = l.device

unfoldable pub input_name : ℕ → Layout → List ℕ
input_name input l = if leb 1 input then name_or_empty (get_elem? l.labels (input - 1)) else []

unfoldable pub input_device : ℕ → Layout → List ℕ
input_device input l = if leb 1 input then device_or_empty (get_elem? l.labels (input - 1)) else []
