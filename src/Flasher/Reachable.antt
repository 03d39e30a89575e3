-- ===== src/Flasher/Reachable.antt =====
-- platform/esp32/main/svs_flasher.cpp: what the calls and the tasks lead to, and when a flash starts.
use svs_bridge.Base.{
  ℕ, ◌*◌, ◌≤◌, ◌≡◌, inl, inr, refl, ap, sym, subst, ◌∙◌, Bool, true, not, ◌&&◌, ◌||◌, List, arith,
  ◌==◌, Bool-cases, length,
}
use svs_bridge.Hex.{Decoded, ok, err, fault, decode_hex}
use svs_bridge.Hex.Writes.{decode_hex-size}
use svs_bridge.Flasher.{
  initial, EspErr, Port, State, Device, Image, Task, is_idle, finish, flash_size,
}
use svs_bridge.Flasher.Jobs.{page_count, check_task, preview_task, flash_task}
use svs_bridge.Flasher.Api.{
  blocker_of, is_clear, blocker, can_flash, device_now, start_task, start_check, start_probe,
  start_flash, start_preview, clear, stage, staged, stage_hex,
}
use svs_bridge.Flasher.Invariant.{
  IsSound, IsValid, Same, Same-self, Same-IsValid, flash_task-Same, check_task-IsValid,
  preview_task-IsValid, no_device-IsSound,
}

start_task-Same :
    (task : Task) (connected created : Bool) (s : State)
    → Same s (start_task task connected created s).1
unfolding start_task finish
start_task-Same task connected created s = elim (Bool-cases (not (is_idle s.task && connected))) [
  | inl t ↦ rw t (Same-self s)
  | inr f ↦ elim (Bool-cases created) [
    | inl t ↦ rw (f, t) (record { image = refl; image_info = refl; device = refl })
    | inr u ↦ rw (f, u) (record { image = refl; image_info = refl; device = refl })
  ]
]

start_flash-Same :
    (connected : Bool) (connections : ℕ) (created : Bool) (s : State)
    → Same s (start_flash connected connections created s).1
unfolding start_flash
start_flash-Same connected connections created s =
    elim (Bool-cases (can_flash s connected connections)) [
      | inl t ↦ rw t (start_task-Same Task.flashing connected created s)
      | inr f ↦ rw f (Same-self s)
    ]

start_preview-Same :
    (connected created : Bool) (s : State) → Same s (start_preview connected created s).1
unfolding start_preview
start_preview-Same connected created s =
    elim (Bool-cases (is_idle s.task && (s.device.checked && s.device.vector))) [
      | inl t ↦ rw t (start_task-Same Task.previewing connected created s)
      | inr f ↦ rw f (Same-self s)
    ]

clear-IsValid : (sha256 : List ℕ → List ℕ) (s : State) → IsValid sha256 s → IsValid sha256 (clear s)
unfolding clear
clear-IsValid sha256 s v = elim (Bool-cases (is_idle s.task)) [
  | inl t ↦
      rw t
        (record { sound = v.sound; image_fits = omega arith; described = refl; hashed = inl refl })
  | inr f ↦ rw f v
]

state_of : Decoded (EspErr × State) → State → State
state_of (ok (e, s)) s' = s
state_of (err e) s' = s'
state_of fault s' = s'

staged-IsValid :
    (sha256 : List ℕ → List ℕ) (source : List ℕ) (d : Decoded (List ℕ)) (s : State)
    (r : EspErr × State)
    → ((image : List ℕ) → d ≡ ok image → length image ≤ flash_size)
    → IsValid sha256 s
    → staged sha256 source d s ≡ ok r
    → IsValid sha256 r.1
unfolding stage state_of
staged-IsValid sha256 source (ok image) s r fits v h =
    subst (IsValid sha256) (ap (λ (d : Decoded (EspErr × State)). state_of d s) h) (record {
      sound = v.sound;
      image_fits = fits image refl;
      described = refl;
      hashed = inr refl;
    })
staged-IsValid sha256 source (err e) s r fits v h =
    subst (IsValid sha256) (ap (λ (d : Decoded (EspErr × State)). state_of d s) h)
      (clear-IsValid sha256 s v)
staged-IsValid sha256 source fault s r fits v h = absurd (ground (arith, h))

stage_hex-IsValid :
    (sha256 : List ℕ → List ℕ) (hex source : List ℕ) (s : State) (r : EspErr × State)
    → IsValid sha256 s
    → stage_hex sha256 hex source s ≡ ok r
    → IsValid sha256 r.1
unfolding stage_hex state_of
stage_hex-IsValid sha256 hex source s r v h = elim (Bool-cases (is_idle s.task)) [
  | inl t ↦
      staged-IsValid sha256 source (decode_hex flash_size hex) s r
        (λ image e. (decode_hex-size flash_size hex image e).1) v (rw t at h)
  | inr f ↦ staged-IsValid_refused (rw f at h)
]
  where
    staged-IsValid_refused : ok (EspErr.invalid_state, s) ≡ ok r → IsValid sha256 r.1
    staged-IsValid_refused e =
        subst (IsValid sha256) (ap (λ (d : Decoded (EspErr × State)). state_of d s) e) v

-- A call of the interface, or a task that runs to its end.
pub data Step {W : Type 0} (port : Port W) (sha256 : List ℕ → List ℕ) : State → State → Type 0 where
  checked : (s : State) (w : W) → Step port sha256 s (check_task port s w).0
  previewed : (s : State) (w : W) → Step port sha256 s (preview_task port s w).0
  flashed : (s : State) (w : W) → Step port sha256 s (flash_task port s w).0
  check_started :
      (connected created : Bool) (s : State)
      → Step port sha256 s (start_check connected created s).1
  probe_started :
      (connected created : Bool) (s : State)
      → Step port sha256 s (start_probe connected created s).1
  preview_started :
      (connected created : Bool) (s : State)
      → Step port sha256 s (start_preview connected created s).1
  flash_started :
      (connected : Bool) (connections : ℕ) (created : Bool) (s : State)
      → Step port sha256 s (start_flash connected connections created s).1
  cleared : (s : State) → Step port sha256 s (clear s)
  hex_staged :
      (hex source : List ℕ) (s : State) (r : EspErr × State)
      → stage_hex sha256 hex source s ≡ ok r
      → Step port sha256 s r.1

-- What the bridge's state can be, from its start on.
pub data Reachable {W : Type 0} (port : Port W) (sha256 : List ℕ → List ℕ) : State → Type 0 where
  at_start : Reachable port sha256 initial
  by_step :
      (s s' : State) → Reachable port sha256 s → Step port sha256 s s' → Reachable port sha256 s'

Step-IsValid :
    {W : Type 0} {port : Port W} {sha256 : List ℕ → List ℕ} {s s' : State}
    → Step port sha256 s s'
    → IsValid sha256 s
    → IsValid sha256 s'
Step-IsValid {port = port} (checked s w) v = check_task-IsValid port s w v
Step-IsValid {port = port} (previewed s w) v = preview_task-IsValid port s w v
Step-IsValid {port = port} (flashed s w) v = Same-IsValid (flash_task-Same port s w) v
Step-IsValid (check_started connected created s) v =
    Same-IsValid (start_task-Same Task.checking connected created s) v
Step-IsValid (probe_started connected created s) v =
    Same-IsValid (start_task-Same Task.probing connected created s) v
Step-IsValid (preview_started connected created s) v =
    Same-IsValid (start_preview-Same connected created s) v
Step-IsValid (flash_started connected connections created s) v =
    Same-IsValid (start_flash-Same connected connections created s) v
Step-IsValid (cleared s) v = clear-IsValid _ s v
Step-IsValid (hex_staged hex source s r h) v = stage_hex-IsValid _ hex source s r v h

-- In every state that the calls of the interface and the tasks lead to, the staged image fits the chip,
-- its size and its SHA-256 are those that are described, and the bootloader begins within the flash.
pub Reachable-IsValid :
    {W : Type 0} {port : Port W} {sha256 : List ℕ → List ℕ} (s : State)
    → Reachable port sha256 s
    → IsValid sha256 s
Reachable-IsValid s at_start = record {
  sound = no_device-IsSound;
  image_fits = omega arith;
  described = refl;
  hashed = inl refl;
}
Reachable-IsValid s (by_step s0 s1 r step) = Step-IsValid step (Reachable-IsValid s0 r)

-- All that a flash needs.
pub record CanFlash (s : State) (connected : Bool) (connections : ℕ) : Type 0 where
  pub free : is_idle s.task ≡ true
  pub plugged_in : connected ≡ true
  pub same_svs : connections ≡ s.checked_connection
  pub checked : s.device.checked ≡ true
  pub compatible : s.device.compatible ≡ true
  pub image_staged : s.image_info.staged ≡ true
  pub image_fits : page_count s.image * 128 ≤ s.device.app_space
  pub previewed : not s.device.vector || s.device.vector_verified ≡ true

-- `can_flash` of a device that is as it stands.
clear_of :
    (idle connected : Bool) (d : Device) (image : Image)
    → is_clear (blocker_of idle connected d image) ≡ true
    → IsSound d
    → (idle ≡ true)
      × (connected ≡ true)
      × (d.checked ≡ true)
      × (d.compatible ≡ true)
      × (image.staged ≡ true)
      × (image.size ≤ d.app_space)
      × (not d.vector || d.vector_verified ≡ true)
unfolding blocker_of
clear_of idle connected d image h sound = ground (arith, sound.explained)

device_now-IsSound :
    (s : State) (connected : Bool) (connections : ℕ)
    → IsSound s.device
    → IsSound (device_now s connected connections)
device_now-IsSound s connected connections sound =
    elim (Bool-cases
      (s.device.checked && (not connected || not (connections == s.checked_connection)))) [
        | inl t ↦ rw t no_device-IsSound
        | inr f ↦ rw f sound
      ]

device_now-kept :
    (s : State) (connected : Bool) (connections : ℕ)
    → connected ≡ true
    → (device_now s connected connections).checked ≡ true
    → (connections ≡ s.checked_connection) × (device_now s connected connections ≡ s.device)
device_now-kept s connected connections here known =
    elim (Bool-cases
      (s.device.checked && (not connected || not (connections == s.checked_connection)))) [
        | inl t ↦ absurd (ground (arith, rw t at known))
        | inr f ↦ rw f (ground (arith, rw f at known), refl)
      ]

can_flash-CanFlash :
    {sha256 : List ℕ → List ℕ} (s : State) (connected : Bool) (connections : ℕ)
    → IsValid sha256 s
    → can_flash s connected connections ≡ true
    → CanFlash s connected connections
unfolding can_flash blocker
can_flash-CanFlash s connected connections v h =
    let now = device_now s connected connections in
    let now_sound : IsSound now = device_now-IsSound s connected connections v.sound in
    let (free, here, known, compatible, staged_, fits, matched) =
      clear_of (is_idle s.task) connected now s.image_info h now_sound in
    let (same, kept) = device_now-kept s connected connections here known in
    record {
      free = free;
      plugged_in = here;
      same_svs = same;
      checked = ap (λ (d : Device). d.checked) (sym kept) ∙ known;
      compatible = ap (λ (d : Device). d.compatible) (sym kept) ∙ compatible;
      image_staged = staged_;
      image_fits =
          let space : now.app_space ≡ s.device.app_space = ap (λ (d : Device). d.app_space) kept in
          omega (arith, v.described, v.sound.whole);
      previewed = ap (λ (d : Device). not d.vector || d.vector_verified) (sym kept) ∙ matched;
    }

module _ {W : Type 0} {port : Port W} {sha256 : List ℕ → List ℕ} (s : State) (connected : Bool)
    (connections : ℕ) (created : Bool) where
  -- In every state that the calls and the tasks lead to, a flash starts only if no task runs, the SVS is
  -- connected and the one that was checked, its bootloader is compatible, an image is staged, the
  -- image's pages fit below the bootloader, and the preview of a vector bootloader matched.
  pub start_flash-CanFlash :
      Reachable port sha256 s
      → (start_flash connected connections created s).0 ≡ EspErr.esp_ok
      → CanFlash s connected connections
  unfolding start_flash
  start_flash-CanFlash reach h = elim (Bool-cases (can_flash s connected connections)) [
    | inl t ↦ can_flash-CanFlash s connected connections (Reachable-IsValid s reach) t
    | inr f ↦ absurd (ground (arith, rw f at h))
  ]
