-- ===== src/Flasher/Pages.antt =====
-- platform/esp32/main/svs_flasher.cpp: what writing and verifying pages do to the chip's flash.
use svs_bridge.Base.{
  ℕ, zero, suc, ◌+◌, ◌-◌, ◌*◌, ◌≤◌, ◌<◌, ◌≡◌, ◌⊎◌, inl, inr, refl, ap, sym, ◌∙◌, true, List, none,
  arith, ltb, Bool-cases, length, get_or, drop, replicate, length-append, length-replicate,
  length-take, length-drop, get_or-take, get_or-drop, same_bytes, same_bytes-eq,
}
use svs_bridge.Flasher.{EspErr, is_ok, Port, Sync, State, page_size, flash_size}
use svs_bridge.Flasher.Line.{read_flash, write_page}
use svs_bridge.Flasher.Jobs.{padded, page_count, page_addr, page_at, write_pages, verify_pages}
use svs_bridge.Flasher.Law.{IsUrboot, read_flash_keeps, write_page_keeps}

pub length-padded : (image : List ℕ) → length (padded image) ≡ page_count image * 128
unfolding padded
length-padded image = omega (
  arith,
  length-append image (replicate (page_count image * page_size - length image) 0xFF),
  length-replicate {A = ℕ} (page_count image * page_size - length image) 0xFF,
)

length-page_at :
    (image : List ℕ) (addr : ℕ)
    → addr + 128 ≤ length image
    → length (page_at addr image) ≡ page_size
length-page_at image addr h =
    omega (arith, length-take page_size (drop addr image), length-drop addr image)

pub get_or-page_at :
    (image : List ℕ) (addr i j : ℕ)
    → i < 128
    → j ≡ addr + i
    → get_or (page_at addr image) i 0 ≡ get_or image j 0
get_or-page_at image addr i j h e =
    get_or-take page_size (drop addr image) i 0 h ∙ get_or-drop addr image i j 0 e

is_ok-esp_ok : (e : EspErr) → is_ok e ≡ true → e ≡ EspErr.esp_ok
is_ok-esp_ok EspErr.esp_ok h = refl
is_ok-esp_ok EspErr.invalid_arg h = absurd (ground (arith, h))
is_ok-esp_ok EspErr.invalid_state h = absurd (ground (arith, h))
is_ok-esp_ok EspErr.invalid_response h = absurd (ground (arith, h))
is_ok-esp_ok EspErr.timed_out h = absurd (ground (arith, h))
is_ok-esp_ok EspErr.no_mem h = absurd (ground (arith, h))
is_ok-esp_ok EspErr.other h = absurd (ground (arith, h))

first_page :
    (i left a : ℕ)
    → i ≤ 256
    → (a < i * 128) ⊎ ((i + suc left) * 128 ≤ a)
    → (a < page_addr i) ⊎ (page_addr i + page_size ≤ a)
first_page i left a few (inl h) = inl (omega arith)
first_page i left a few (inr h) = inr (omega arith)

other_pages :
    (i left a : ℕ)
    → (a < i * 128) ⊎ ((i + suc left) * 128 ≤ a)
    → (a < suc i * 128) ⊎ ((suc i + left) * 128 ≤ a)
other_pages i left a (inl h) = inl (omega arith)
other_pages i left a (inr h) = inr (omega arith)

module _ {W : Type 0} {port : Port W} {flash : W → ℕ → ℕ} (law : IsUrboot port flash) (sync : Sync)
    (image : List ℕ) (pages : ℕ) (full : length image ≡ pages * 128) (few : pages ≤ 256) where
  -- Whatever comes of it, writing changes no byte outside the pages that are written.
  pub write_pages_keeps :
      (left i : ℕ) (s : State) (w : W) (a : ℕ)
      → i + left ≤ pages
      → (a < i * 128) ⊎ ((i + left) * 128 ≤ a)
      → flash (write_pages port sync image pages left i s w).2 a ≡ flash w a
  unfolding write_pages
  write_pages_keeps zero i s w a fits away = refl
  write_pages_keeps (suc left) i s w a fits away =
      let place : page_addr i ≡ i * 128 = omega arith in
      let here : flash (write_page port sync (page_addr i) (page_at (page_addr i) image) w).1 a
          ≡ flash w a =
        write_page_keeps law sync (page_addr i) (page_at (page_addr i) image) w a (omega arith)
          (length-page_at image (page_addr i) (omega arith))
          (first_page i left a (omega arith) away) in
      elim (Bool-cases
        (is_ok (write_page port sync (page_addr i) (page_at (page_addr i) image) w).0)) [
          | inr f ↦ rw f here
          | inl t ↦ rw t (
              write_pages_keeps left (suc i) _ _ a (omega arith) (other_pages i left a away) ∙ here)
        ]

  pub verify_pages_keeps :
      (left i : ℕ) (s : State) (w : W)
      → flash (verify_pages port sync image pages left i s w).2 ≡ flash w
  unfolding verify_pages
  verify_pages_keeps zero i s w = refl
  verify_pages_keeps (suc left) i s w =
      let r = read_flash port sync (page_addr i) (replicate page_size 0) w in
      let here : flash r.1 ≡ flash w =
        read_flash_keeps law sync (page_addr i) (replicate page_size 0) w in
      elim (Bool-cases (is_ok r.0.0)) [
        | inr f ↦ rw f here
        | inl t ↦ elim (Bool-cases (same_bytes r.0.1 (page_at (page_addr i) image))) [
          | inl e ↦ rw (t, e) (verify_pages_keeps left (suc i) _ r.1 ∙ here)
          | inr e ↦ rw (t, e) here
        ]
      ]

  -- Where no page differs, flash holds the image.
  pub verify_pages-flash :
      (left i : ℕ) (s : State) (w : W) (a : ℕ)
      → pages * 128 ≤ flash_size
      → i + left ≤ pages
      → (verify_pages port sync image pages left i s w).0 ≡ none
      → i * 128 ≤ a
      → a < (i + left) * 128
      → flash w a ≡ get_or image a 0
  unfolding verify_pages
  verify_pages-flash zero i s w a small fits done low high = absurd (omega arith)
  verify_pages-flash (suc left) i s w a small fits done low high =
      let place : page_addr i ≡ i * 128 = omega arith in
      let r = read_flash port sync (page_addr i) (replicate page_size 0) w in
      elim (Bool-cases (is_ok r.0.0)) [
        | inr f ↦ absurd (ground (arith, rw f at done))
        | inl t ↦ elim (Bool-cases (same_bytes r.0.1 (page_at (page_addr i) image))) [
          | inr e ↦ absurd (ground (arith, rw (t, e) at done))
          | inl e ↦ elim (Bool-cases (ltb a (suc i * 128))) [
            | inl here ↦
                let below : a < suc i * 128 = ground arith in
                let j : ℕ = a - i * 128 in
                sym (
                  law.read_back sync (page_addr i) (replicate page_size 0) w (omega arith)
                    (is_ok-esp_ok _ t) j (omega arith)
                  ∙ ap (flash w) (omega arith))
                ∙ ap (λ p. get_or p j 0) (same_bytes-eq _ _ e)
                ∙ get_or-page_at image (page_addr i) j a (omega arith) (omega arith)
            | inr later ↦
                ap (λ (f : ℕ → ℕ). f a)
                  (sym (read_flash_keeps law sync (page_addr i) (replicate page_size 0) w))
                ∙ verify_pages-flash left (suc i) _ r.1 a small (omega arith) (rw (t, e) at done)
                    (ground arith) (omega arith)
          ]
        ]
      ]
