-- ===== src/Dns/Tests.antt =====
-- The captive DNS, asked for `a.bc`, and the theorems at inputs that meet their hypotheses.
use svs_bridge.Base.{ℕ, ◌≤◌, ◌≡◌, refl, List, [], ◌∷◌, ◌++◌, none, arith, replicate}
use svs_bridge.Dns.{walk, build_reply}
use svs_bridge.Dns.Replies.{
  Counts, question, query, reply, answer, packet, build_reply_bounded, build_reply_address,
}

abbrev labels : List (List ℕ)
labels = (97 ∷ []) ∷ (98 ∷ 99 ∷ []) ∷ []

abbrev ip : List ℕ
ip = 192 ∷ 168 ∷ 4 ∷ 1 ∷ []

abbrev no_counts : Counts
no_counts = record { c1 = 0; c2 = 0; c3 = 0; c4 = 0; c5 = 0; c6 = 0 }

abbrev room : List ℕ
room = replicate 490 7

abbrev asked : List ℕ
asked = query 1 2 1 0 no_counts (question labels 0 1 0 1 ++ room)

-- A compression pointer in the question.
pointer : walk 20 (12 ∷ 0xC0 ∷ []) 2 1 ≡ none
unfolding walk
pointer = refl

build_reply_bounded_example : (build_reply ip asked 22).1 ≤ 512
build_reply_bounded_example = build_reply_bounded ip asked 22 (omega arith)

build_reply_address_example :
    packet (build_reply ip asked 22) ≡ reply 1 2 1 (question labels 0 1 0 1 ++ answer ip)
build_reply_address_example =
    build_reply_address 1 2 1 0 no_counts labels 22 (omega arith) (omega arith) (omega arith)
      (omega arith) ip room (omega arith) (omega arith) refl
