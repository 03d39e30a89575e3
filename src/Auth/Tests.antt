-- ===== src/Auth/Tests.antt =====
-- Logins and sessions on concrete inputs: a hash that is the password cut to 32 bytes, and a storage that keeps
-- nothing but the API's token.
use svs_bridge.Base.{
  ℕ, ◌+◌, ◌-◌, ◌*◌, ◌/◌, ◌≤◌, ◌≡◌, ◌≢◌, refl, ap, true, false, List, [], ◌∷◌, ◌++◌, Option, none,
  some, arith, length, take, replicate, length-take, length-append, length-replicate,
}
use svs_bridge.Auth.{
  State, initial, EspErr, Nvs, Kdf, login_ok, locked, lock_seconds, is_password, equal, diff_from,
  login_end, check_password, set_password, pick, create_session, touch, session_valid, random_hex,
  stored, session_idle_us,
}
use svs_bridge.Auth.Password.{
  check_password-login_ok, check_password_locks, check_password-set_password,
}
use svs_bridge.Auth.Sessions.{session_valid-create_session}
use svs_bridge.Auth.History.{at_start, waited, created, issued, last_use, session_valid-last_use}

abbrev cut : Kdf
cut password salt n = some (take 32 (password ++ replicate 32 0))

abbrev size_of : Option (List ℕ) → ℕ
size_of none = 0
size_of (some bytes) = length bytes

cut_full : (p salt hash : List ℕ) (n : ℕ) → cut p salt n ≡ some hash → length hash ≡ 32
cut_full p salt hash n h = omega (
  arith,
  ap size_of h,
  length-take 32 (p ++ replicate 32 0),
  length-append p (replicate 32 0),
  length-replicate {A = ℕ} 32 0,
)

abbrev no_nvs : Nvs ℕ
no_nvs = record {
  open_ns = λ write w. (EspErr.esp_ok, w);
  close = λ w. w;
  set_blob = λ k bytes w. (EspErr.esp_ok, w + 1);
  set_u32 = λ k n w. (EspErr.esp_ok, w + 1);
  set_str = λ k text w. (EspErr.esp_ok, w + 1);
  commit = λ w. (EspErr.esp_ok, w + 1);
  get_blob = λ k w. none;
  get_u32 = λ k w. none;
  get_str = λ k w. none;
}

abbrev secret : List ℕ
secret = replicate 10 97

abbrev salt : List ℕ
salt = replicate 16 5

abbrev stored_run : EspErr × State × ℕ
stored_run = set_password no_nvs cut salt secret initial 0

stored_ok : (stored_run.0 ≡ EspErr.esp_ok) × (stored_run.2 ≡ 4)
unfolding set_password stored
stored_ok = (refl, refl)

too_short : (set_password no_nvs cut salt (replicate 7 97) initial 0).0 ≡ EspErr.invalid_arg
unfolding set_password
too_short = refl

check_password-set_password_example : (check_password cut secret 1 2 stored_run.1).0 ≡ login_ok
check_password-set_password_example =
    check_password-set_password no_nvs cut salt secret 1 2 initial 0 (omega arith) stored_ok.0

let_in_ok : (check_password cut secret 1 2 stored_run.1).0 ≡ login_ok
unfolding set_password stored check_password is_password equal diff_from login_end
let_in_ok = refl

hash_full : length stored_run.1.hash ≡ 32
unfolding set_password stored
hash_full = refl

check_password-login_ok_example :
    (stored_run.1.locked_until_us ≤ 1)
    × (stored_run.1.password_set ≡ true)
    × (length secret ≤ 64)
    × (cut secret stored_run.1.salt stored_run.1.iterations ≡ some stored_run.1.hash)
check_password-login_ok_example =
    check_password-login_ok cut secret 1 2 stored_run.1 cut_full hash_full let_in_ok

abbrev worn : State
worn = record initial { failures = 4 }

worn_wrong : is_password cut secret worn ≡ false
unfolding is_password
worn_wrong = refl

check_password_locks_example :
    ((check_password cut secret 0 0 worn).0 ≡ locked (lock_seconds 5))
    × ((check_password cut secret 1000 2000 (check_password cut secret 0 0 worn).1) ≡ (
      locked ((0 + lock_seconds 5 * 1000000 - 1000) / 1000000 + 1),
      (check_password cut secret 0 0 worn).1,
    ))
unfolding lock_seconds
check_password_locks_example =
    check_password_locks cut secret secret 0 0 1000 2000 worn (omega arith) worn_wrong (omega arith)
      (omega arith)

abbrev random : List ℕ
random = replicate 32 171

abbrev logged_in : State
logged_in = (create_session random 5 initial).1

none_yet : [] ≢ random_hex random
none_yet e = absurd (omega (arith, ap length e))

session_valid-create_session_example :
    (session_valid (create_session random 5 initial).0 7 (create_session random 5 initial).1).0
    ≡ true
session_valid-create_session_example =
    session_valid-create_session random 5 7 initial refl (omega arith)
      (none_yet, (none_yet, (none_yet, (none_yet, tt)))) (omega arith)

abbrev token : List ℕ
token = random_hex random

valid : (session_valid token 7 logged_in).0 ≡ true
unfolding session_valid touch create_session pick equal diff_from
valid = refl

session_valid-last_use_example :
    (u : ℕ) × (last_use (issued token 5 ∷ []) token ≡ some u) × (7 ≤ u + session_idle_us)
session_valid-last_use_example =
    session_valid-last_use (issued token 5 ∷ []) logged_in 7 token
      (waited (issued token 5 ∷ []) logged_in 5 7
        (created [] initial 5 random (waited [] initial 0 5 at_start (omega arith))) (omega arith))
      valid
