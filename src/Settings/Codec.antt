-- ===== src/Settings/Codec.antt =====
-- A text form of a layout that reads back, in place of JSON's: each text after its length.
use svs_bridge.Base.{
  ℕ, zero, suc, ◌≡◌, refl, ap, List, [], ◌∷◌, ◌++◌, Option, some, length, take, drop,
}
use svs_bridge.Settings.Layout.{Entry, Doc}

abbrev put_text : List ℕ → List ℕ → List ℕ
put_text text rest = length text ∷ text ++ rest

abbrev get_text : List ℕ → List ℕ × List ℕ
get_text [] = ([], [])
get_text (n ∷ rest) = (take n rest, drop n rest)

abbrev put_entries : List Entry → List ℕ → List ℕ
put_entries [] rest = rest
put_entries (e ∷ entries) rest =
    put_text e.kind (put_text e.name (put_text e.device (put_entries entries rest)))

abbrev get_entry : List ℕ → Entry × List ℕ
get_entry text =
    let (kind, text1) = get_text text in
    let (name, text2) = get_text text1 in
    let (device, text3) = get_text text2 in
    (record { kind = kind; name = name; device = device }, text3)

abbrev get_entries : ℕ → List ℕ → List Entry × List ℕ
get_entries zero text = ([], text)
get_entries (suc n) text =
    let r = get_entries n (get_entry text).1 in ((get_entry text).0 ∷ r.0, r.1)

abbrev put_list : List Entry → List ℕ → List ℕ
put_list entries rest = length entries ∷ put_entries entries rest

abbrev get_list : List ℕ → List Entry × List ℕ
get_list [] = ([], [])
get_list (n ∷ text) = get_entries n text

abbrev pub encode : Doc → List ℕ
encode d = put_list d.inputs (put_list d.outputs [])

abbrev pub decode : List ℕ → Option Doc
decode text = let r = get_list text in some (record { inputs = r.0; outputs = (get_list r.1).0 })

take_text : (text rest : List ℕ) → take (length text) (text ++ rest) ≡ text
take_text [] rest = refl
take_text (c ∷ text) rest = ap (◌∷◌ c) (take_text text rest)

drop_text : (text rest : List ℕ) → drop (length text) (text ++ rest) ≡ rest
drop_text [] rest = refl
drop_text (c ∷ text) rest = drop_text text rest

get_entries-put_entries :
    (entries : List Entry) (rest : List ℕ)
    → get_entries (length entries) (put_entries entries rest) ≡ (entries, rest)
get_entries-put_entries [] rest = refl
get_entries-put_entries (e ∷ entries) rest =
    let after = put_entries entries rest in
    let t2 = put_text e.device after in
    let t1 = put_text e.name t2 in
    rw
      (
        take_text e.kind t1,
        drop_text e.kind t1,
        take_text e.name t2,
        drop_text e.name t2,
        take_text e.device after,
        drop_text e.device after,
        get_entries-put_entries entries rest,
      )
      refl

pub reads_back : (d : Doc) → decode (encode d) ≡ some d
reads_back d =
    rw
      (
        get_entries-put_entries d.inputs (put_list d.outputs []),
        get_entries-put_entries d.outputs [],
      )
      refl
