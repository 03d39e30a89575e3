-- ===== src/ApiEvents/Tests.antt =====
-- The queries of tests/test_api_events.cpp, and the theorems at inputs that meet their hypotheses.
use svs_bridge.Base.{same_bytes, ℕ, ◌≡◌, refl, Bool, arith, leb, ◌&&◌}
use svs_bridge.Base.Text.{codes}
use svs_bridge.ApiEvents.{
  url_decode, url_decode_from, parse, parts_of, trim, bits_named, names_json, names_from,
}
use svs_bridge.ApiEvents.Queries.{url_encode, url_decode-url_encode}

decoded_comma : url_decode (codes "state%2Clater") ≡ codes "state,later"
unfolding url_decode_from
decoded_comma = refl

decoded_cut : url_decode (codes "a+b%4") ≡ codes "a b%4"
unfolding url_decode_from
decoded_cut = refl

parsed : parse (codes "later, state ") ≡ 1
unfolding parse parts_of trim bits_named same_bytes
parsed = refl

parsed_none : parse (codes "states,,") ≡ 0
unfolding parse parts_of trim bits_named same_bytes
parsed_none = refl

json : names_json 1 ≡ codes "[\"state\"]"
unfolding names_from
json = refl

abbrev is_letter : ℕ → Bool
is_letter c = leb 97 c && leb c 122

url_decode-url_encode_example : url_decode (url_encode is_letter (codes "a, b%")) ≡ codes "a, b%"
url_decode-url_encode_example =
    url_decode-url_encode is_letter (codes "a, b%") refl refl (omega arith)
