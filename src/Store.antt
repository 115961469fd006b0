-- ===== src/Store.antt =====
-- internal/store/store.go: the watchdog's view of Redis. The client of the go-redis library is a
-- record of the commands that the store sends; the answer to a missing key is none.
pub mod Sanitized
pub mod Throttle
pub mod Entries
pub mod Fake
use mailcow_watchdog.Prelude.{
  ℕ, zero, suc, ◌+◌, Bool, true, false, String, List, [], ◌∷◌, Option, none, some, Result, ok, err,
  ◌==◌, any, if◌then◌else◌,
}
use Prim.Native.Char.{code}
use mailcow_watchdog.Prelude.Int.{ℤ, pos, negsuc, pos_part}
use mailcow_watchdog.Prelude.Json.{marshal}
use mailcow_watchdog.Prelude.Text.{Text, codes, char_at}
use mailcow_watchdog.Prelude.Format.{str, concat, itoa, sprintf}
use mailcow_watchdog.Health.{Snapshot}

pub record Client (World : Type 0) : Type 0 where
  pub ping : World → Option String × World
  pub get : String → World → Result String (Option String) × World
  pub set_value : String → String → World → Option String × World
  pub hkeys : String → World → Result String (List String) × World
  pub lrange : String → ℕ → ℕ → World → Result String (List String) × World
  pub lpush : String → Text → World → Option String × World
  pub set_nx : String → String → ℕ → World → Result String Bool × World
  pub ttl : String → World → Result String ℤ × World

abbrev pub log_key : String
log_key = "WATCHDOG_LOG"

abbrev pub throttle_prefix : String
throttle_prefix = "THROTTLE_"

-- The characters that `Sanitize` replaces.
abbrev pub sanitized : Text
sanitized = codes "\r\n%&;$\"_[]{}-"

unfoldable pub is_sanitized : ℕ → Bool
is_sanitized c = any (λ d. d == c) sanitized

-- `Sanitize`, rune by rune; the replacement is a space.
unfoldable pub sanitize : String → String
sanitize String.[] = String.[]
sanitize (String.◌∷◌ c s) =
    String.◌∷◌ (if is_sanitized (code c) then char_at " " 0 c else c) (sanitize s)

-- `strconv.Itoa` of an integer.
unfoldable pub itoa_ℤ : ℤ → String
itoa_ℤ (pos n) = itoa n
itoa_ℤ (negsuc n) = concat ("-" ∷ itoa (n + 1) ∷ [])

-- `messageEntry` and `progressEntry`, as `EncodeMessage` and `EncodeProgress` fill them.
unfoldable pub message_entry : String → ℕ → List (String × String)
message_entry message unix = ("time", itoa unix) ∷ ("message", sanitize message) ∷ []

unfoldable pub progress_entry : Snapshot → ℕ → List (String × String)
progress_entry s unix =
    ("time", itoa unix)
    ∷ ("service", s.service)
    ∷ ("lvl", itoa s.percent)
    ∷ ("hpnow", itoa s.remaining)
    ∷ ("hptotal", itoa s.threshold)
    ∷ ("hpdiff", itoa_ℤ s.trend)
    ∷ []

abbrev wrapped {ℓ} : {A : Type ℓ} → String → String → Result String A → Result String A
wrapped command key (ok a) = ok a
wrapped command key (err e) = err (concat (command ∷ " " ∷ key ∷ ": " ∷ e ∷ []))

-- The rest of `Reserve` when the slot is taken: how long it stays so, not below zero.
abbrev time_left : Result String ℤ → ℕ
time_left (err e) = 0
time_left (ok left) = pos_part left

-- The `if`s of `Reserve` on the answer to SET NX and on the one to TTL.
abbrev pub settle_reserve :
    {World : Type 0}
    → String
    → Result String Bool
    → Result String ℤ
    → World
    → World
    → Result String (Bool × ℕ) × World
settle_reserve full (err e) left w w' = (err (sprintf "SET NX %s: %w" (str full ∷ str e ∷ [])), w)
settle_reserve full (ok true) left w w' = (ok (true, 0), w)
settle_reserve full (ok false) left w w' = (ok (false, time_left left), w')

module _ {World : Type 0} (redis : Client World) where
  -- `Get`: a missing key is no error.
  unfoldable pub get : String → World → Result String (String × Bool) × World
  get key w =
      let (answer, w') = redis.get key w in
      (
        elim answer [
          | ok none ↦ ok ("", false)
          | ok (some value) ↦ ok (value, true)
          | err e ↦ wrapped "GET" key (err e)
        ],
        w',
      )

  -- `Ping` and `Set`.
  unfoldable pub ping : World → Option String × World
  ping = redis.ping

  unfoldable pub set_value : String → String → World → Option String × World
  set_value key value w =
      let (answer, w') = redis.set_value key value w in
      (
        elim answer [ none ↦ none | some e ↦ some (sprintf "SET %s: %w" (str key ∷ str e ∷ [])) ],
        w',
      )

  -- `HKeys` and `LRange`.
  unfoldable pub hkeys : String → World → Result String (List String) × World
  hkeys key w = let (answer, w') = redis.hkeys key w in (wrapped "HKEYS" key answer, w')

  unfoldable pub lrange : String → ℕ → ℕ → World → Result String (List String) × World
  lrange key start stop w =
      let (answer, w') = redis.lrange key start stop w in (wrapped "LRANGE" key answer, w')

  -- `push`, with `encode`.
  unfoldable pub push : List (String × String) → World → Option String × World
  push fields w =
      let (answer, w') = redis.lpush log_key (marshal fields) w in
      (
        elim answer [
          | none ↦ none
          | some e ↦ some (sprintf "LPUSH %s: %w" (str log_key ∷ str e ∷ []))
        ],
        w',
      )

  -- `LogMessage` and `LogProgress`; the time of the record is read by the caller.
  unfoldable pub log_message : String → ℕ → World → Option String × World
  log_message message unix = push (message_entry message unix)

  unfoldable pub log_progress : Snapshot → ℕ → World → Option String × World
  log_progress s unix = push (progress_entry s unix)

  -- `Reserve`.
  unfoldable pub reserve : String → ℕ → World → Result String (Bool × ℕ) × World
  reserve key ttl w =
      let full = concat (throttle_prefix ∷ key ∷ []) in
      let (answer, w') = redis.set_nx full "1" ttl w in
      let (left, w'') = redis.ttl full w' in settle_reserve full answer left w' w''
