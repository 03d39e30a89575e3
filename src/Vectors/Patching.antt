-- ===== src/Vectors/Patching.antt =====
-- core/svs_vectors.h: `patch_vectors`.
use svs_bridge.Base.{
  ℕ, ◌+◌, ◌*◌, ◌/◌, ◌%◌, ◌^◌, ◌≤◌, ◌<◌, ◌≡◌, ◌≢◌, ◌⊎◌, inl, inr, refl, ap, subst, ◌∙◌, Bool, true,
  false, not, ◌||◌, List, none, some, arith, ltb, if◌then◌else◌, Bool-cases, length, get_or, set,
  length-set, get_or-set_self, get_or-set_ne,
}
use svs_bridge.Base.Int.{ℤ, pos, negsuc, ltb_ℤ, pos_part}
use svs_bridge.Base.Bits.{bit_or_disjoint_left}
use svs_bridge.Vectors.{
  buf2u32, is_jmp, is_rjmp, jmp_target, jmp_opcode, rjmp_reset_target, rjmp_to_bootloader, Patch,
  PatchError, too_small, no_jump, out_of_range, check_failed, reset_word, patched, same_ℤ, returns,
  patch_at, patch_vectors,
}
use svs_bridge.Vectors.Bytes.{length-u32tobuf, u32tobuf_other, buf2u32-u32tobuf}
use svs_bridge.Vectors.Jump.{
  jmp_target-jmp_opcode, jmp_opcode-lt, jmp_target_even, jmp_opcode_upper, jmp_opcode_lower,
}
use svs_bridge.Vectors.Relative.{
  flash_size, IsBootStart, reset_reaches, reset_small, reset_upper, same_ℤ-eq,
  rjmp_reset_target_even,
}

-- A word that the processor runs as an `rjmp`: 1100 and 12 bits of distance.
abbrev pub IsRjmp : ℕ → Type 0
IsRjmp word = word / 4096 ≡ 12

-- Four bytes whose first word is 1001 010k kkkk 110k, which the processor runs as a `jmp`.
abbrev pub IsJmp : ℕ → Type 0
IsJmp op = (op % 2 ^ 16 / 512 ≡ 0x4A) × (op % 16 / 2 ≡ 6)

-- What the image holds after a patch that went through: the reset is an `rjmp` to the bootloader, the
-- moved vector is a `jmp` to the application, and every other byte is as it was.
pub record IsPatched (image image' : List ℕ) (blstart app_vec_loc app : ℕ) : Type 0 where
  pub is_rjmp_boot : IsRjmp (reset_word image')
  pub reaches_boot : rjmp_reset_target (reset_word image') flash_size ≡ pos blstart
  pub is_jmp_app : IsJmp (buf2u32 image' app_vec_loc)
  pub reaches_app : jmp_target (buf2u32 image' app_vec_loc) ≡ app
  pub same_length : length image' ≡ length image
  pub same_rest :
      (i : ℕ)
      → 2 ≤ i
      → (i < app_vec_loc) ⊎ (app_vec_loc + 4 ≤ i)
      → get_or image' i 0 ≡ get_or image i 0

module _ (image : List ℕ) (rjmp loc app : ℕ) (small : rjmp < 65536) (far : 4 ≤ loc)
    (fits : loc + 4 ≤ length image) where
  word : List ℕ
  word = set (set image 0 (rjmp % 256)) 1 (rjmp / 2 ^ 8)

  length-word : length word ≡ length image
  unfolding word
  length-word = simp length-set

  patched_word : reset_word (patched image rjmp loc app) ≡ rjmp
  unfolding patched word
  patched_word =
      let b0 : get_or (patched image rjmp loc app) 0 0 ≡ rjmp % 256 =
        u32tobuf_other word loc (jmp_opcode app) 0 (inl (omega arith))
        ∙ get_or-set_ne (set image 0 (rjmp % 256)) 1 0 (rjmp / 2 ^ 8) 0 (λ e. omega arith)
        ∙ get_or-set_self image 0 (rjmp % 256) 0 (omega arith) in
      let b1 : get_or (patched image rjmp loc app) 1 0 ≡ rjmp / 2 ^ 8 =
        u32tobuf_other word loc (jmp_opcode app) 1 (inl (omega arith))
        ∙ get_or-set_self (set image 0 (rjmp % 256)) 1 (rjmp / 2 ^ 8) 0
            (simp length-set (omega arith)) in
      rw (b0, b1) (bit_or_disjoint_left 8 (rjmp / 2 ^ 8) (rjmp % 256) (omega arith) ∙ omega arith)

  moved : buf2u32 (patched image rjmp loc app) loc ≡ jmp_opcode app
  unfolding patched word
  moved =
      buf2u32-u32tobuf word loc (jmp_opcode app) (omega (arith, length-word)) (jmp_opcode-lt app)

  patched-IsPatched :
      (blstart : ℕ)
      → rjmp_reset_target rjmp flash_size ≡ pos blstart
      → IsRjmp rjmp
      → app % 2 ≡ 0
      → app < 2 ^ 23
      → IsPatched image (patched image rjmp loc app) blstart loc app
  unfolding patched word
  patched-IsPatched blstart r u even low = record {
    is_rjmp_boot = rw patched_word u;
    is_jmp_app = rw moved (jmp_opcode_upper app, jmp_opcode_lower app);
    reaches_boot = rw patched_word r;
    reaches_app = rw moved (jmp_target-jmp_opcode app even low);
    same_length = length-u32tobuf word loc (jmp_opcode app) ∙ length-word;
    same_rest = λ i past away.
        u32tobuf_other word loc (jmp_opcode app) i away
        ∙ get_or-set_ne (set image 0 (rjmp % 256)) 1 i (rjmp / 2 ^ 8) 0 (λ e. omega arith)
        ∙ get_or-set_ne image 0 i (rjmp % 256) 0 (λ e. omega arith);
  }

-- The application's entry, as the reset word gives it.
abbrev pub entry : List ℕ → ℤ
entry image =
    if is_jmp (reset_word image)
    then pos (jmp_target (buf2u32 image 0))
    else rjmp_reset_target (reset_word image) flash_size

entry_even : (image : List ℕ) → pos_part (entry image) % 2 ≡ 0
entry_even image =
    elim (is_jmp (reset_word image))
      as (λ t.
        pos_part (
            if t
            then pos (jmp_target (buf2u32 image 0))
            else rjmp_reset_target (reset_word image) flash_size)
          % 2
        ≡ 0) [
          | true ↦ jmp_target_even (buf2u32 image 0)
          | false ↦ rjmp_reset_target_even (reset_word image)
        ]

-- The ways `patch_at` ends where the patched reset decodes back to the bootloader.
data Ends (image : List ℕ) (blstart loc rjmp : ℕ) (app : ℤ) (p : Patch) : Type 0 where
  already : app ≡ pos blstart → p ≡ returns image rjmp app none → Ends image blstart loc rjmp app p
  refused : p ≡ returns image rjmp app (some (out_of_range app)) → Ends image blstart loc rjmp app p
  done :
      p ≡ returns (patched image rjmp loc (pos_part app)) rjmp app none
      → app ≡ pos (pos_part app)
      → loc ≤ pos_part app
      → pos_part app < length image
      → Ends image blstart loc rjmp app p

abbrev outside : ℤ → ℕ → List ℕ → Bool
outside app loc image = ltb_ℤ app (pos loc) || not (ltb_ℤ app (pos (length image)))

inside :
    (app : ℤ) (loc : ℕ) (image : List ℕ)
    → outside app loc image ≡ false
    → (app ≡ pos (pos_part app)) × (loc ≤ pos_part app) × (pos_part app < length image)
inside (pos n) loc image h = ground arith
inside (negsuc n) loc image h = absurd (ground arith)

patch_at-Ends :
    (image : List ℕ) (blstart loc rjmp : ℕ) (app : ℤ)
    → rjmp_reset_target rjmp flash_size ≡ pos blstart
    → Ends image blstart loc rjmp app (patch_at image blstart loc flash_size app rjmp)
unfolding patch_at
patch_at-Ends image blstart loc rjmp app r = elim (Bool-cases (same_ℤ app blstart)) [
  | inl e ↦ already (same_ℤ-eq app blstart e) (rw e)
  | inr e ↦ elim (Bool-cases (outside app loc image)) [
    | inl o ↦ refused (rw (e, o))
    | inr i ↦
        let (sign, low, high) = inside app loc image i in
        let back : same_ℤ (rjmp_reset_target rjmp flash_size) blstart ≡ true =
          rw r (ground arith) in
        done (rw (e, i, back)) sign low high
  ]
]

-- What `patch_vectors` makes of an image: the size and the opcode are checked first.
data Outcome (image : List ℕ) (blstart loc rjmp : ℕ) (p : Patch) : Type 0 where
  small : p.error ≡ some too_small → p.image ≡ image → Outcome image blstart loc rjmp p
  unknown :
      p.error ≡ some (no_jump (reset_word image))
      → p.image ≡ image
      → Outcome image blstart loc rjmp p
  judged :
      loc + 4 ≤ length image
      → Ends image blstart loc rjmp (entry image) p
      → Outcome image blstart loc rjmp p

patch_vectors-Outcome :
    (image : List ℕ) (blstart vector_num before : ℕ) (app : ℤ)
    → IsBootStart blstart
    → Outcome image blstart
        (vector_num * 4)
        (rjmp_to_bootloader blstart flash_size)
        (patch_vectors image blstart vector_num flash_size before app)
unfolding patch_vectors
patch_vectors-Outcome image blstart vector_num before app b =
    elim (Bool-cases (ltb (length image) (loc + 4))) [
      | inl s ↦ rw s (small refl refl)
      | inr f ↦ rw f (elim (Bool-cases (is_jmp (reset_word image))) [
        | inl j ↦ rw j (
            judged (ground arith) (
              rw j
                (patch_at-Ends image blstart loc rjmp (pos (jmp_target (buf2u32 image 0))) back)))
        | inr n ↦ rw n (elim (Bool-cases (is_rjmp (reset_word image))) [
          | inl j ↦ rw j (
              judged (ground arith) (
                rw n (
                  patch_at-Ends image blstart loc rjmp
                    (rjmp_reset_target (reset_word image) flash_size) back)))
          | inr m ↦ rw m (unknown refl refl)
        ])
      ])
    ]
  where
    loc : ℕ
    loc = vector_num * 4

    rjmp : ℕ
    rjmp = rjmp_to_bootloader blstart flash_size

    back : rjmp_reset_target rjmp flash_size ≡ pos blstart
    back = reset_reaches blstart b

-- Where `patch_vectors` succeeds on an image for the SVS's flash, with a bootloader in its last 4 KB and
-- a vector other than the reset: the reset is an rjmp to the bootloader, the moved vector is a jmp to
-- where the reset went before, the length and every other byte are as they were, and `app_start` and
-- `reset_rjmp` say so. An image whose reset already goes to the bootloader is left as it is.
pub patch_vectors-IsPatched :
    (image : List ℕ) (blstart vector_num before : ℕ) (app : ℤ)
    → IsBootStart blstart
    → 0 < vector_num
    → length image ≤ flash_size
    → {p : Patch} → patch_vectors image blstart vector_num flash_size before app ≡ p
    → p.error ≡ none
    → (p.app_start ≡ entry image)
      × (p.reset_rjmp ≡ rjmp_to_bootloader blstart flash_size)
      × (((entry image ≡ pos blstart) × (p.image ≡ image))
          ⊎ IsPatched image p.image blstart (vector_num * 4) (pos_part (entry image)))
patch_vectors-IsPatched image blstart vector_num before app b n fits {p} run ok = after (
    subst (Outcome image blstart (vector_num * 4) rjmp) run
      (patch_vectors-Outcome image blstart vector_num before app b))
  where
    rjmp : ℕ
    rjmp = rjmp_to_bootloader blstart flash_size

    after :
        Outcome image blstart (vector_num * 4) rjmp p
        → (p.app_start ≡ entry image)
          × (p.reset_rjmp ≡ rjmp)
          × (((entry image ≡ pos blstart) × (p.image ≡ image))
              ⊎ IsPatched image p.image blstart (vector_num * 4) (pos_part (entry image)))
    after (small e _) = cc
    after (unknown e _) = cc
    after (judged room (already e r)) = rw r (refl, refl, inl (e, refl))
    after (judged room (refused r)) = absurd (cc (ap (λ (q : Patch). q.error) r))
    after (judged room (done r sign low high)) = rw r (
      refl,
      refl,
      inr (
          patched-IsPatched image rjmp (vector_num * 4) (pos_part (entry image))
            (reset_small blstart b) (omega arith) room blstart (reset_reaches blstart b)
            (reset_upper blstart b) (entry_even image) (omega arith)),
    )

-- Where `patch_vectors` fails there, the image is as it was, and its own check of the patched reset is
-- never what failed.
pub patch_vectors_refused :
    (image : List ℕ) (blstart vector_num before : ℕ) (app : ℤ) (e : PatchError)
    → IsBootStart blstart
    → {p : Patch} → patch_vectors image blstart vector_num flash_size before app ≡ p
    → p.error ≡ some e
    → (p.image ≡ image) × (e ≢ check_failed)
patch_vectors_refused image blstart vector_num before app e b {p} run failed = after (
    subst (Outcome image blstart (vector_num * 4) (rjmp_to_bootloader blstart flash_size)) run
      (patch_vectors-Outcome image blstart vector_num before app b))
  where
    after :
        Outcome image blstart (vector_num * 4) (rjmp_to_bootloader blstart flash_size) p
        → (p.image ≡ image) × (e ≢ check_failed)
    after (small r same) = (same, λ x. cc)
    after (unknown r same) = (same, λ x. cc)
    after (judged room (already _ r)) = cc (ap (λ (q : Patch). q.error) r)
    after (judged room (refused r)) =
        (ap (λ (q : Patch). q.image) r, λ x. cc (ap (λ (q : Patch). q.error) r))
    after (judged room (done r _ _ _)) = cc (ap (λ (q : Patch). q.error) r)
