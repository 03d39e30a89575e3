-- ===== src/Auth.antt =====
-- platform/esp32/main/auth.cpp: the admin password, the sessions of the web interface and the token of the API.
-- Its static variables are the record `State`. The clock's microseconds, the random bytes, PBKDF2 and the flash
-- storage (NVS) are parameters.
mod Equal
mod Password
mod Sessions
mod History
mod Tokens
mod Tests
use svs_bridge.Base.{
  ℕ, zero, suc, ◌+◌, ◌-◌, ◌*◌, ◌/◌, ◌%◌, ◌^◌, Bool, true, false, not, ◌&&◌, ◌||◌, List, [], ◌∷◌,
  ◌++◌, Option, none, some, ltb, leb, ◌==◌, if◌then◌else◌, length, set, get_or, replicate,
  same_bytes, bit_or, bit_xor, drop,
}

abbrev pub min_password_len : ℕ
min_password_len = 8

abbrev pub max_password_len : ℕ
max_password_len = 64

abbrev pub api_token_bytes : ℕ
api_token_bytes = 32

abbrev pub salt_len : ℕ
salt_len = 16

abbrev pub hash_len : ℕ
hash_len = 32

abbrev pub pbkdf2_iterations : ℕ
pbkdf2_iterations = 10000

abbrev pub max_sessions : ℕ
max_sessions = 4

abbrev pub token_bytes : ℕ
token_bytes = 32

abbrev pub session_idle_us : ℕ
session_idle_us = 12 * 3600 * 1000 * 1000

abbrev pub free_attempts : ℕ
free_attempts = 5

abbrev pub lock_base_s : ℕ
lock_base_s = 30

abbrev pub lock_max_s : ℕ
lock_max_s = 15 * 60

pub record Session : Type 0 where
  pub token : List ℕ
  pub last_used_us : ℕ

abbrev pub no_session : Session
no_session = record { token = []; last_used_us = 0 }

pub record State : Type 0 where
  pub password_set : Bool
  pub salt : List ℕ
  pub hash : List ℕ
  pub iterations : ℕ
  pub sessions : List Session
  pub failures : ℕ
  pub locked_until_us : ℕ
  pub api_token : List ℕ

abbrev pub initial : State
initial = record {
  password_set = false;
  salt = replicate salt_len 0;
  hash = replicate hash_len 0;
  iterations = pbkdf2_iterations;
  sessions = replicate max_sessions no_session;
  failures = 0;
  locked_until_us = 0;
  api_token = [];
}

-- `esp_err_t`
pub data EspErr : Type 0 where
  esp_ok invalid_arg failed : EspErr

abbrev pub is_ok : EspErr → Bool
is_ok EspErr.esp_ok = true
is_ok EspErr.invalid_arg = false
is_ok EspErr.failed = false

pub data Key : Type 0 where
  salt_key hash_key iterations_key api_token_key : Key

-- The calls of NVS, on the namespace "auth". A value that is read is its length or its text.
pub record Nvs (W : Type 0) : Type 0 where
  pub open_ns : Bool → W → EspErr × W
  pub close : W → W
  pub set_blob : Key → List ℕ → W → EspErr × W
  pub set_u32 : Key → ℕ → W → EspErr × W
  pub set_str : Key → List ℕ → W → EspErr × W
  pub commit : W → EspErr × W
  pub get_blob : Key → W → Option (List ℕ)
  pub get_u32 : Key → W → Option ℕ
  pub get_str : Key → W → Option (List ℕ)

-- `equal`: every pair of bytes is looked at.
unfoldable pub diff_from : ℕ → List ℕ → List ℕ → ℕ
diff_from diff [] bs = diff
diff_from diff (a ∷ as_) [] = diff
diff_from diff (a ∷ as_) (b ∷ bs) = diff_from (bit_or diff (bit_xor a b)) as_ bs

unfoldable pub equal : List ℕ → List ℕ → Bool
equal a b = diff_from 0 a b == 0

-- A digit of `%02x`.
abbrev pub hex_digit : ℕ → ℕ
hex_digit n = if ltb n 10 then 48 + n else 87 + n

-- `random_hex`, of the random bytes.
abbrev pub random_hex : List ℕ → List ℕ
random_hex [] = []
random_hex (b ∷ bs) = hex_digit (b / 16 % 16) ∷ hex_digit (b % 16) ∷ random_hex bs

abbrev pub is_empty : List ℕ → Bool
is_empty [] = true
is_empty (c ∷ cs) = false

-- `nvs_get_blob` into an array, and whether the blob is as long: a longer one is an error and leaves it.
abbrev pub read_blob : List ℕ → Option (List ℕ) → Bool × List ℕ
read_blob array none = (false, array)
read_blob array (some bytes) =
    if ltb (length array) (length bytes)
    then (false, array)
    else (length bytes == length array, bytes ++ drop (length bytes) array)

abbrev pub with_iterations : Option ℕ → State → State
with_iterations none s = record s { password_set = false }
with_iterations (some n) s = record s { iterations = n; password_set = true }

-- The three values, of which the next is read only where the ones before are good.
abbrev pub loaded : Option (List ℕ) → Option (List ℕ) → Option ℕ → State → State
loaded salt hash iterations s =
    let (salt_ok, salt') = read_blob s.salt salt in
    let (hash_ok, hash') = read_blob s.hash hash in
    if not salt_ok
    then record s { salt = salt'; password_set = false }
    else if not hash_ok
    then record s { salt = salt'; hash = hash'; password_set = false }
    else with_iterations iterations (record s { salt = salt'; hash = hash' })

-- `pbkdf2`: password, salt and iterations to a hash, if PSA gives one.
abbrev pub Kdf : Type 0
Kdf = List ℕ → List ℕ → ℕ → Option (List ℕ)

abbrev pub matches : Option (List ℕ) → List ℕ → Bool
matches none expected = false
matches (some hash) expected = equal hash expected

-- `LoginResult`, with the seconds to wait where logins are locked.
pub data LoginResult : Type 0 where
  login_ok wrong_password : LoginResult
  locked : ℕ → LoginResult

unfoldable pub lock_seconds : ℕ → ℕ
lock_seconds failures =
    let shift = failures - free_attempts in
    let lock_s = if leb 5 shift then lock_max_s else lock_base_s * 2 ^ shift in
    if ltb lock_max_s lock_s then lock_max_s else lock_s

-- The end of `check_password`, from what the hashes say.
unfoldable pub login_end : Bool → ℕ → State → LoginResult × State
login_end good now s =
    let failures = suc s.failures in
    if good
    then (login_ok, record s { failures = 0 })
    else if leb free_attempts failures
    then (
      locked (lock_seconds failures),
      record s { failures = failures; locked_until_us = now + lock_seconds failures * 1000000 },
    )
    else (wrong_password, record s { failures = failures })

unfoldable pub is_password : Kdf → List ℕ → State → Bool
is_password kdf password s =
    s.password_set
    && (leb (length password) max_password_len && matches (kdf password s.salt s.iterations) s.hash)

-- `check_password`, begun at `now` and with the hash computed at `later`, with no other call between.
unfoldable pub check_password : Kdf → List ℕ → ℕ → ℕ → State → LoginResult × State
check_password kdf password now later s =
    if ltb now s.locked_until_us
    then (locked ((s.locked_until_us - now) / 1000000 + 1), s)
    else login_end (is_password kdf password s) later s

-- A slot that is empty, or whose session is over.
abbrev pub is_free : ℕ → Session → Bool
is_free now s = is_empty s.token || ltb (s.last_used_us + session_idle_us) now

-- The loop of `create_session`, from slot `i` on.
unfoldable pub pick : ℕ → List Session → List Session → ℕ → ℕ → ℕ
pick now all [] i slot = slot
pick now all (s ∷ rest) i slot =
    let older = ltb s.last_used_us (get_or all slot no_session).last_used_us in
    let next = pick now all rest (i + 1) (if older then i else slot) in
    if is_free now s then i else next

unfoldable pub create_session : List ℕ → ℕ → State → List ℕ × State
create_session random now s =
    let token = random_hex random in
    let slot = pick now s.sessions s.sessions 0 0 in
    (
      token,
      record s { sessions = set s.sessions slot (record { token = token; last_used_us = now }) },
    )

-- The loop of `session_valid`.
unfoldable pub touch : List ℕ → ℕ → List Session → Bool × List Session
touch token now [] = (false, [])
touch token now (s ∷ rest) =
    let (found, rest') = touch token now rest in
    if not (length s.token == length token && equal s.token token)
    then (found, s ∷ rest')
    else if leb now (s.last_used_us + session_idle_us)
    then (true, record s { last_used_us = now } ∷ rest)
    else (false, record s { token = [] } ∷ rest)

unfoldable pub session_valid : List ℕ → ℕ → State → Bool × State
session_valid token now s =
    let (found, sessions) = touch token now s.sessions in
    if length token == token_bytes * 2
    then (found, record s { sessions = sessions })
    else (false, s)

abbrev pub cleared : (Session → Bool) → List Session → List Session
cleared ends [] = []
cleared ends (s ∷ rest) = (if ends s then record s { token = [] } else s) ∷ cleared ends rest

unfoldable pub end_session : List ℕ → State → State
end_session token s = record s { sessions = cleared (λ x. same_bytes x.token token) s.sessions }

unfoldable pub end_all_sessions : State → State
end_all_sessions s = record s { sessions = cleared (λ x. true) s.sessions }

module _ {W : Type 0} (nvs : Nvs W) where
  -- `load`. The namespace is closed again where it could be opened.
  unfoldable pub load : State → W → State × W
  load s w =
      let (e, w1) = nvs.open_ns false w in
      if is_ok e
      then (
        loaded (nvs.get_blob salt_key w1) (nvs.get_blob hash_key w1) (nvs.get_u32 iterations_key w1)
            s,
        nvs.close w1,
      )
      else (record s { password_set = false }, w1)

  -- A write that is left out after one that failed.
  abbrev pub and_then : EspErr × W → (W → EspErr × W) → EspErr × W
  and_then r next = if is_ok r.0 then next r.1 else r

  unfoldable pub stored : List ℕ → List ℕ → W → EspErr × W
  stored salt hash w =
      and_then
        (and_then (and_then (nvs.set_blob salt_key salt w) (nvs.set_blob hash_key hash))
          (nvs.set_u32 iterations_key pbkdf2_iterations))
        nvs.commit

  abbrev pub keep_password : List ℕ → Option (List ℕ) → State → W → EspErr × State × W
  keep_password salt none s w = (EspErr.failed, s, w)
  keep_password salt (some hash) s w =
      let (e, w1) = nvs.open_ns true w in
      let (e', w2) = stored salt hash w1 in
      if not (is_ok e) then (e, s, w1) else if not (is_ok e') then (e', s, nvs.close w2) else (
        EspErr.esp_ok,
        record s { salt = salt; hash = hash; iterations = pbkdf2_iterations; password_set = true },
        nvs.close w2,
      )

  -- `set_password`, with the random salt.
  unfoldable pub set_password : Kdf → List ℕ → List ℕ → State → W → EspErr × State × W
  set_password kdf salt password s w =
      if ltb (length password) min_password_len || ltb max_password_len (length password)
      then (EspErr.invalid_arg, s, w)
      else keep_password salt (kdf password salt pbkdf2_iterations) s w

  unfoldable pub store_api_token : List ℕ → W → EspErr × W
  store_api_token token w =
      let (e, w1) = nvs.open_ns true w in
      let (e', w2) = and_then (nvs.set_str api_token_key token w1) nvs.commit in
      if is_ok e then (e', nvs.close w2) else (e, w1)

  -- The token that NVS holds, empty if there is none of the length of one.
  abbrev pub known_token : Option (List ℕ) → List ℕ
  known_token none = []
  known_token (some token) = if length token == api_token_bytes * 2 then token else []

  unfoldable pub stored_token : W → List ℕ × W
  stored_token w =
      let (e, w1) = nvs.open_ns false w in
      if is_ok e then (known_token (nvs.get_str api_token_key w1), nvs.close w1) else ([], w1)

  -- `api_token`, with the random bytes of a new one. It is used even where it could not be stored.
  unfoldable pub api_token : List ℕ → State → W → List ℕ × State × W
  api_token random s w =
      let (token, w1) = stored_token w in
      let fresh = random_hex random in
      if not (is_empty s.api_token)
      then (s.api_token, s, w)
      else if not (is_empty token)
      then (token, record s { api_token = token }, w1)
      else (fresh, record s { api_token = fresh }, (store_api_token fresh w1).1)

  unfoldable pub regenerate_api_token : List ℕ → State → W → List ℕ × State × W
  regenerate_api_token random s w =
      let token = random_hex random in
      let (e, w1) = store_api_token token w in
      if is_ok e then (token, record s { api_token = token }, w1) else (s.api_token, s, w1)

  unfoldable pub api_token_valid : List ℕ → List ℕ → State → W → Bool × State × W
  api_token_valid random candidate s w =
      let (token, s', w') = api_token random s w in
      if not (length candidate == api_token_bytes * 2)
      then (false, s, w)
      else if not (length token == length candidate)
      then (false, s', w')
      else (equal token candidate, s', w')
