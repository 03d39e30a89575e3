-- ===== src/Auth/Password.antt =====
-- platform/esp32/main/auth.cpp: what a login proves, and the lock after failed ones.
use svs_bridge.Base.{
  ℕ, zero, suc, ◌+◌, ◌-◌, ◌*◌, ◌/◌, ◌^◌, ◌≤◌, ◌<◌, ◌≡◌, ◌≢◌, inl, inr, refl, ap, sym, ◌∙◌, true,
  false, ◌||◌, List, Option, none, some, arith, ltb, leb, Bool-cases, length, min, subst,
}
use native.Mathlib.Nat.{pow-suc}
use svs_bridge.Auth.{
  State, EspErr, is_ok, Nvs, Kdf, login_ok, locked, matches, is_password, lock_seconds, login_end,
  check_password, set_password, keep_password, stored, pbkdf2_iterations, max_password_len,
  min_password_len,
}
use svs_bridge.Auth.Equal.{equal-eq, equal_self}

pow_large : (k : ℕ) → 32 ≤ 2 ^ (k + 5)
pow_large zero = omega arith
pow_large (suc k) =
    let e : suc k + 5 ≡ suc (k + 5) = omega arith in
    rw e (omega (arith, pow-suc 2 (k + 5), pow_large k))

pow_small : (k : ℕ) → k < 5 → 30 * 2 ^ k ≤ 480
pow_small zero h = omega arith
pow_small (suc zero) h = omega arith
pow_small (suc (suc zero)) h = omega arith
pow_small (suc (suc (suc zero))) h = omega arith
pow_small (suc (suc (suc (suc zero)))) h = omega arith
pow_small (suc (suc (suc (suc (suc k))))) h = absurd (omega arith)

-- From the fifth failure in a row on logins are locked for 30 s, and for twice as long after each further
-- one, up to 15 minutes.
pub lock_seconds_doubles :
    (failures : ℕ) → 5 ≤ failures → lock_seconds failures ≡ min 900 (30 * 2 ^ (failures - 5))
unfolding lock_seconds
lock_seconds_doubles failures h = elim (Bool-cases (leb 5 (failures - 5))) [
  | inl t ↦
      let n : ℕ = failures - 5 - 5 in
      let e : n + 5 ≡ failures - 5 = ground arith in
      let large : 32 ≤ 2 ^ (failures - 5) = subst (λ m. 32 ≤ 2 ^ m) e (pow_large n) in
      rw t (omega (arith, large))
  | inr f ↦
      let small = pow_small (failures - 5) (ground arith) in
      let under : ltb 900 (30 * 2 ^ (failures - 5)) ≡ false = ground arith in
      rw (f, under) (omega (arith, small))
]

some_eq :
    (kdf : Kdf) (o : Option (List ℕ)) (expected : List ℕ)
    → length expected ≡ 32
    → ((hash : List ℕ) → o ≡ some hash → length hash ≡ 32)
    → matches o expected ≡ true
    → o ≡ some expected
some_eq kdf none expected e full h = absurd (ground (arith, h))
some_eq kdf (some hash) expected e full h =
    ap some (equal-eq hash expected (full hash refl ∙ sym e) h)

not_login_ok : (later : ℕ) (s : State) → (login_end false later s).0 ≢ login_ok
unfolding login_end
not_login_ok later s h = ground (arith, h)

-- A login that succeeds met no lock, and the password is one of at most 64 bytes whose hash, with the
-- salt and the iterations stored, is the hash stored; a hash being 32 bytes.
pub check_password-login_ok :
    (kdf : Kdf) (password : List ℕ) (now later : ℕ) (s : State)
    → ((p salt hash : List ℕ) (n : ℕ) → kdf p salt n ≡ some hash → length hash ≡ 32)
    → length s.hash ≡ 32
    → (check_password kdf password now later s).0 ≡ login_ok
    → (s.locked_until_us ≤ now)
      × (s.password_set ≡ true)
      × (length password ≤ 64)
      × (kdf password s.salt s.iterations ≡ some s.hash)
unfolding check_password is_password
check_password-login_ok kdf password now later s full sized h =
    elim (Bool-cases (ltb now s.locked_until_us)) [
      | inl t ↦ absurd (ground (arith, rw t at h))
      | inr f ↦ elim (Bool-cases (is_password kdf password s)) [
        | inr g ↦ absurd (not_login_ok later s (rw (f, g) at h))
        | inl g ↦ (
          ground arith,
          ground arith,
          ground arith,
          some_eq kdf (kdf password s.salt s.iterations) s.hash sized
              (λ hash. full password s.salt hash s.iterations) (ground arith),
        )
      ]
    ]

-- A wrong password after four failures or more locks all logins: until the lock is over the next one is
-- refused whatever its password, without a look at it, and nothing changes.
pub check_password_locks :
    (kdf : Kdf) (password next : List ℕ) (now later then_ end : ℕ) (s : State)
    → s.locked_until_us ≤ now
    → is_password kdf password s ≡ false
    → 4 ≤ s.failures
    → then_ < later + lock_seconds (suc s.failures) * 1000000
    → ((check_password kdf password now later s).0 ≡ locked (lock_seconds (suc s.failures)))
      × ((check_password kdf next then_ end (check_password kdf password now later s).1) ≡ (
        locked ((later + lock_seconds (suc s.failures) * 1000000 - then_) / 1000000 + 1),
        (check_password kdf password now later s).1,
      ))
unfolding check_password login_end
check_password_locks kdf password next now later then_ end s free wrong many soon =
    let open_ : ltb now s.locked_until_us ≡ false = ground arith in
    let fifth : leb 5 (suc s.failures) ≡ true = ground arith in
    let shut : ltb then_ (later + lock_seconds (suc s.failures) * 1000000) ≡ true = ground arith in
    rw (open_, wrong, fifth, shut) (refl, refl)

not_ok : (e : EspErr) → is_ok e ≡ false → e ≢ EspErr.esp_ok
not_ok e f h = ground (arith, f, h)

module _ {W : Type 0} (nvs : Nvs W) where
  keep_password_ok :
      (salt : List ℕ) (o : Option (List ℕ)) (s : State) (w : W)
      → (keep_password nvs salt o s w).0 ≡ EspErr.esp_ok
      → ((keep_password nvs salt o s w).1.password_set ≡ true)
        × ((keep_password nvs salt o s w).1.salt ≡ salt)
        × ((keep_password nvs salt o s w).1.iterations ≡ pbkdf2_iterations)
        × (matches o (keep_password nvs salt o s w).1.hash ≡ true)
        × ((keep_password nvs salt o s w).1.locked_until_us ≡ s.locked_until_us)
  keep_password_ok salt none s w h = absurd (ground (arith, h))
  keep_password_ok salt (some hash) s w h =
      let (e, w1) = nvs.open_ns true w in
      elim (Bool-cases (is_ok (nvs.open_ns true w).0)) [
        | inr f ↦ absurd (not_ok (nvs.open_ns true w).0 f (rw f at h))
        | inl t ↦ elim (Bool-cases (is_ok (stored nvs salt hash (nvs.open_ns true w).1).0)) [
          | inr g ↦
              absurd (not_ok (stored nvs salt hash (nvs.open_ns true w).1).0 g (rw (t, g) at h))
          | inl u ↦ rw (t, u) (refl, refl, refl, equal_self hash, refl)
        ]
      ]

  -- A password that set_password stored is let in by check_password, where logins are not locked.
  pub check_password-set_password :
      (kdf : Kdf) (salt password : List ℕ) (now later : ℕ) (s : State) (w : W)
      → s.locked_until_us ≤ now
      → (set_password nvs kdf salt password s w).0 ≡ EspErr.esp_ok
      → (check_password kdf password now later (set_password nvs kdf salt password s w).1).0
        ≡ login_ok
  unfolding set_password check_password is_password login_end
  check_password-set_password kdf salt password now later s w free h =
      elim (Bool-cases
        (ltb (length password) min_password_len || ltb max_password_len (length password))) [
          | inl t ↦ absurd (ground (arith, rw t at h))
          | inr f ↦
              let (is_set, salted, counted, hashed, unlocked) =
                keep_password_ok salt (kdf password salt pbkdf2_iterations) s w (rw f at h) in
              let short : leb (length password) max_password_len ≡ true = ground arith in
              let open_ : ltb now s.locked_until_us ≡ false = ground arith in
              rw (f, unlocked, open_, is_set, short, salted, counted, hashed) refl
        ]
