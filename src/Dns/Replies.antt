-- ===== src/Dns/Replies.antt =====
-- platform/esp32/main/dns_server.cpp: the replies to queries with one question.
use svs_bridge.Base.{
  ℕ, zero, suc, ◌+◌, ◌-◌, ◌*◌, ◌/◌, ◌%◌, ◌^◌, ◌≤◌, ◌<◌, ◌≡◌, refl, ap, ap₂, sym, ◌∙◌, Bool, false,
  not, ◌&&◌, List, [], ◌∷◌, ◌++◌, append_assoc, Option, none, some, arith, ltb, ◌==◌, length,
  length-append, get_or, set, take, drop, All,
}
use svs_bridge.Dns.{
  put, two_bytes, read_u16, write_u16, walk, reply_answer, reply_from, reply_named, build_reply,
  max_len,
}
use svs_bridge.Dns.Walk.{IsLabel, print_name, walk-print_name}

get_or-after :
    (xs ys : List ℕ) (i k : ℕ) → i ≡ length xs + k → get_or (xs ++ ys) i 0 ≡ get_or ys k 0
get_or-after [] ys i k e = ap (λ j. get_or ys j 0) (omega arith)
get_or-after (x ∷ xs) ys zero k e = absurd (omega arith)
get_or-after (x ∷ xs) ys (suc i) k e = get_or-after xs ys i k (omega arith)

set-append :
    (xs ys : List ℕ) (i k v : ℕ) → i ≡ length xs + k → set (xs ++ ys) i v ≡ xs ++ set ys k v
set-append [] ys i k v e = ap (λ j. set ys j v) (omega arith)
set-append (x ∷ xs) ys zero k v e = absurd (omega arith)
set-append (x ∷ xs) ys (suc i) k v e = ap (◌∷◌ x) (set-append xs ys i k v (omega arith))

put-put :
    (buf : List ℕ) (i j : ℕ) (first bs : List ℕ)
    → j ≡ i + length first
    → put (put buf i first) j bs ≡ put buf i (first ++ bs)
put-put buf i j [] bs e = ap (λ k. put buf k bs) (omega arith)
put-put buf i j (a ∷ first) bs e = put-put (set buf i a) (i + 1) j first bs (omega arith)

put-append :
    (xs ys bs : List ℕ) (i k : ℕ) → i ≡ length xs + k → put (xs ++ ys) i bs ≡ xs ++ put ys k bs
put-append xs ys [] i k e = refl
put-append xs ys (b ∷ bs) i k e =
    ap (λ buf. put buf (i + 1) bs) (set-append xs ys i k b e)
    ∙ put-append xs (set ys k b) bs (i + 1) (k + 1) (omega arith)

put_front : (ys bs : List ℕ) → length bs ≤ length ys → put ys 0 bs ≡ bs ++ drop (length bs) ys
put_front ys [] h = refl
put_front [] (b ∷ bs) h = absurd (omega arith)
put_front (y ∷ ys) (b ∷ bs) h =
    put-append (b ∷ []) ys bs 1 0 (omega arith) ∙ ap (◌∷◌ b) (put_front ys bs (omega arith))

-- The answer: the name by a pointer to the question's, type A, class IN, 60 seconds, the address.
abbrev pub answer : List ℕ → List ℕ
answer ip = 0xC0 ∷ 0x0C ∷ 0 ∷ 1 ∷ 0 ∷ 1 ∷ 0 ∷ 0 ∷ 0 ∷ 60 ∷ 0 ∷ 4 ∷ ip

write_next :
    (buf : List ℕ) (i j : ℕ) (first bs out : List ℕ)
    → j ≡ i + length first
    → out ≡ put buf i first
    → put out j bs ≡ put buf i (first ++ bs)
write_next buf i j first bs out e so_far = ap (λ b. put b j bs) so_far ∙ put-put buf i j first bs e

reply_answer-put : (ip buf : List ℕ) (a : ℕ) → reply_answer ip buf a ≡ put buf a (answer ip)
unfolding reply_answer write_u16
reply_answer-put ip buf a = write_next buf a _ (answer []) ip _ (omega arith) (
    write_next buf a _ (take 10 (answer [])) (two_bytes 4) _ (omega arith) (
      write_next buf a _ (take 8 (answer [])) (two_bytes 60) _ (omega arith) (
        write_next buf a _ (take 6 (answer [])) (two_bytes 0) _ (omega arith) (
          write_next buf a _ (take 4 (answer [])) (two_bytes 1) _ (omega arith)
            (write_next buf a _ (take 2 (answer [])) (two_bytes 1) _ (omega arith) refl)))))

-- The bytes that are sent.
abbrev pub packet : List ℕ × ℕ → List ℕ
packet r = take r.1 r.0

reply_named_bounded :
    (ip buf : List ℕ) (len : ℕ)
    → len ≤ max_len
    → (o : Option ℕ) → (reply_named ip buf len o).1 ≤ max_len
unfolding reply_from
reply_named_bounded ip buf len h none = omega arith
reply_named_bounded ip buf len h (some pos) = ground arith

-- Whatever arrives, a reply stays within the buffer of 512 bytes.
pub build_reply_bounded :
    (ip buf : List ℕ) (len : ℕ) → len ≤ max_len → (build_reply ip buf len).1 ≤ max_len
unfolding build_reply
build_reply_bounded ip buf len h =
    ground (arith, reply_named_bounded ip buf len h (walk len buf len 12))

take_front : (xs ys : List ℕ) (n : ℕ) → n ≡ length xs → take n (xs ++ ys) ≡ xs
take_front [] ys n e = ap (λ k. take k ys) e
take_front (x ∷ xs) ys zero e = absurd (omega arith)
take_front (x ∷ xs) ys (suc n) e = ap (◌∷◌ x) (take_front xs ys n (omega arith))

-- The header of a reply with the rest of its bytes.
abbrev pub reply : ℕ → ℕ → ℕ → List ℕ → List ℕ
reply id1 id2 answers tail = id1 ∷ id2 ∷ 0x81 ∷ 0x80 ∷ 0 ∷ 1 ∷ 0 ∷ answers ∷ 0 ∷ 0 ∷ 0 ∷ 0 ∷ tail

-- A question: its name, and its type and its class.
abbrev pub question : List (List ℕ) → ℕ → ℕ → ℕ → ℕ → List ℕ
question labels t1 t2 k1 k2 = print_name labels ++ (t1 ∷ t2 ∷ k1 ∷ k2 ∷ [])

answer-append :
    (ip ws rest : List ℕ) (pos : ℕ)
    → pos ≡ length ws
    → 16 ≤ length rest
    → length ip ≡ 4
    → packet (reply_answer ip (ws ++ rest) pos, pos + 16) ≡ ws ++ answer ip
answer-append ip ws rest pos e space four =
    ap (take (pos + 16)) (
      reply_answer-put ip (ws ++ rest) pos
      ∙ put-append ws rest (answer ip) pos 0 (omega arith)
      ∙ ap (λ r. ws ++ r) (put_front rest (answer ip) (omega arith))
      ∙ sym (append_assoc ws (answer ip) (drop (length (answer ip)) rest)))
    ∙ take_front (ws ++ answer ip) (drop (length (answer ip)) rest) (pos + 16)
        (omega (arith, length-append ws (answer ip)))

-- Type A and class IN, of two bytes each.
abbrev pub is_address : ℕ → ℕ → ℕ → ℕ → Bool
is_address t1 t2 k1 k2 = t1 * 2 ^ 8 + t2 == 1 && k1 * 2 ^ 8 + k2 == 1

-- A query's six bytes after its number of questions.
pub record Counts : Type 0 where
  pub c1 : ℕ
  pub c2 : ℕ
  pub c3 : ℕ
  pub c4 : ℕ
  pub c5 : ℕ
  pub c6 : ℕ

-- The header of a message with one question, with the rest of its bytes.
abbrev pub query : ℕ → ℕ → ℕ → ℕ → Counts → List ℕ → List ℕ
query id1 id2 f1 f2 c tail =
    id1 ∷ id2 ∷ f1 ∷ f2 ∷ 0 ∷ 1 ∷ c.c1 ∷ c.c2 ∷ c.c3 ∷ c.c4 ∷ c.c5 ∷ c.c6 ∷ tail

module _ (id1 id2 f1 f2 : ℕ) (c : Counts) (labels : List (List ℕ)) (len : ℕ)
    (good : All IsLabel labels) (is_query : f1 < 128) (low : f2 < 256)
    (fits : 16 + length (print_name labels) ≤ len) where
  walked :
      (after : List ℕ)
      → walk len (query id1 id2 f1 f2 c (print_name labels ++ after)) len 12
        ≡ some (12 + length (print_name labels) - 1)
  walked after =
      walk-print_name len (query id1 id2 f1 f2 c []) after labels len good (omega arith)
        (omega arith)

  named :
      (ip after : List ℕ)
      → build_reply ip (query id1 id2 f1 f2 c (print_name labels ++ after)) len
        ≡ reply_from ip
            (query id1 id2 f1 f2 c (print_name labels ++ after))
            len
            (12 + length (print_name labels))
  unfolding build_reply
  named ip after =
      let long : ltb len 12 ≡ false = ground arith in
      let asks : not ((f1 * 2 ^ 8 + f2) / 2 ^ 15 % 2 == 0) ≡ false = ground arith in
      rw (long, asks, walked after) (ap (reply_from ip _ len) (omega arith))

  read_kind :
      (t1 t2 : ℕ) (before after : List ℕ) (pos : ℕ)
      → pos ≡ 12 + length (print_name labels) + length before
      → read_u16 (query id1 id2 f1 f2 c (print_name labels ++ (before ++ (t1 ∷ t2 ∷ after)))) pos
        ≡ t1 * 2 ^ 8 + t2
  read_kind t1 t2 before after pos e =
      let xs = query id1 id2 f1 f2 c (print_name labels) in
      ap₂ (λ a b. a * 2 ^ 8 + b)
        (get_or-after xs (before ++ (t1 ∷ t2 ∷ after)) pos (length before) (omega arith)
          ∙ get_or-after before (t1 ∷ t2 ∷ after) (length before) 0 (omega arith))
        (get_or-after xs (before ++ (t1 ∷ t2 ∷ after)) (pos + 1) (length before + 1) (omega arith)
          ∙ get_or-after before (t1 ∷ t2 ∷ after) (length before + 1) 1 (omega arith))

  from_address :
      (ip rest : List ℕ)
      → 32 + length (print_name labels) ≤ max_len
      → 16 ≤ length rest
      → length ip ≡ 4
      → packet (
          reply_from ip
            (query id1 id2 f1 f2 c (print_name labels ++ (0 ∷ 1 ∷ 0 ∷ 1 ∷ rest)))
            len
            (12 + length (print_name labels)))
        ≡ reply id1 id2 1 ((print_name labels ++ (0 ∷ 1 ∷ 0 ∷ 1 ∷ [])) ++ answer ip)
  unfolding reply_from write_u16
  from_address ip rest room space four =
      let pos = 12 + length (print_name labels) in
      let long : ltb len (pos + 4) ≡ false = ground arith in
      let roomy : ltb max_len (pos + 4 + 16) ≡ false = ground arith in
      rw
        (
          read_kind 0 1 [] (0 ∷ 1 ∷ rest) (12 + length (print_name labels)) (omega arith),
          read_kind 0 1 (0 ∷ 1 ∷ []) rest (12 + length (print_name labels) + 2) (omega arith),
          long,
          roomy,
        )
        (ap (λ tail. take (pos + 4 + 16) (reply_answer ip (reply id1 id2 1 tail) (pos + 4)))
            (sym (append_assoc (print_name labels) (0 ∷ 1 ∷ 0 ∷ 1 ∷ []) rest))
          ∙ answer-append ip (reply id1 id2 1 (print_name labels ++ (0 ∷ 1 ∷ 0 ∷ 1 ∷ []))) rest
              (pos + 4) (omega (arith, length-append (print_name labels) (0 ∷ 1 ∷ 0 ∷ 1 ∷ [])))
              space four)

  from_other :
      (ip rest : List ℕ) (t1 t2 k1 k2 : ℕ)
      → is_address t1 t2 k1 k2 ≡ false
      → packet (
          reply_from ip
            (query id1 id2 f1 f2 c (print_name labels ++ (t1 ∷ t2 ∷ k1 ∷ k2 ∷ rest)))
            len
            (12 + length (print_name labels)))
        ≡ reply id1 id2 0 (question labels t1 t2 k1 k2)
  unfolding reply_from write_u16
  from_other ip rest t1 t2 k1 k2 another =
      let pos = 12 + length (print_name labels) in
      let long : ltb len (pos + 4) ≡ false = ground arith in
      rw
        (
          read_kind t1 t2 [] (k1 ∷ k2 ∷ rest) (12 + length (print_name labels)) (omega arith),
          read_kind k1 k2 (t1 ∷ t2 ∷ []) rest (12 + length (print_name labels) + 2) (omega arith),
          long,
          another,
        )
        (ap (λ tail. take (pos + 4) (reply id1 id2 0 tail))
            (sym (append_assoc (print_name labels) (t1 ∷ t2 ∷ k1 ∷ k2 ∷ []) rest))
          ∙ take_front (reply id1 id2 0 (question labels t1 t2 k1 k2)) rest (pos + 4)
              (omega (arith, length-append (print_name labels) (t1 ∷ t2 ∷ k1 ∷ k2 ∷ []))))

  -- A query with one question for an IPv4 address, whose name is of labels of 1 to 63 bytes and whose
  -- reply has room in the buffer, is answered with its id, the question and the bridge's address,
  -- whatever the buffer holds after the question.
  pub build_reply_address :
      (ip rest : List ℕ)
      → 32 + length (print_name labels) ≤ max_len
      → 16 ≤ length rest
      → length ip ≡ 4
      → packet (build_reply ip (query id1 id2 f1 f2 c (question labels 0 1 0 1 ++ rest)) len)
        ≡ reply id1 id2 1 (question labels 0 1 0 1 ++ answer ip)
  build_reply_address ip rest room space four =
      ap (λ tail. packet (build_reply ip (query id1 id2 f1 f2 c tail) len))
        (append_assoc (print_name labels) (0 ∷ 1 ∷ 0 ∷ 1 ∷ []) rest)
      ∙ ap packet (named ip (0 ∷ 1 ∷ 0 ∷ 1 ∷ rest))
      ∙ from_address ip rest room space four

  -- A query with one question of another type or class is answered with its id and the question, and
  -- without an answer.
  pub build_reply_other :
      (ip rest : List ℕ) (t1 t2 k1 k2 : ℕ)
      → is_address t1 t2 k1 k2 ≡ false
      → packet (build_reply ip (query id1 id2 f1 f2 c (question labels t1 t2 k1 k2 ++ rest)) len)
        ≡ reply id1 id2 0 (question labels t1 t2 k1 k2)
  build_reply_other ip rest t1 t2 k1 k2 another =
      ap (λ tail. packet (build_reply ip (query id1 id2 f1 f2 c tail) len))
        (append_assoc (print_name labels) (t1 ∷ t2 ∷ k1 ∷ k2 ∷ []) rest)
      ∙ ap packet (named ip (t1 ∷ t2 ∷ k1 ∷ k2 ∷ rest))
      ∙ from_other ip rest t1 t2 k1 k2 another
