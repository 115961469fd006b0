-- ===== src/Store/Fake.antt =====
-- internal/store/storetest/fake.go: the store that the tests of the repository use. A map is an
-- association list whose first entry for a key counts, an entry of the log is the list of its
-- fields, and the clock is read by the caller; each method holds the mutex and so is one step.
pub mod Reservations
use mailcow_watchdog.Prelude.{
  ℕ, ◌+◌, ◌-◌, Bool, true, false, not, ◌||◌, String, List, [], ◌∷◌, Option, none, some, Result, ok,
  err, ltb, leb, length, drop, str_eq, if◌then◌else◌,
}
use mailcow_watchdog.Prelude.Int.{ℤ, pos, negsuc}
use mailcow_watchdog.Prelude.Text.{codes, contains}
use mailcow_watchdog.Prelude.Format.{concat}
use mailcow_watchdog.Health.{Snapshot}
use mailcow_watchdog.Store.{message_entry, progress_entry}

module _ {ℓ} {V : Type ℓ} where
  abbrev pub lookup : String → List (String × V) → Option V
  lookup key [] = none
  lookup key ((k, v) ∷ m) = if str_eq k key then some v else lookup key m

  abbrev pub put : String → V → List (String × V) → List (String × V)
  put key v m = (key, v) ∷ m

abbrev pub Entry : Type 0
Entry = List (String × String)

pub record Fake : Type 0 where
  pub strings : List (String × String)
  pub hashes : List (String × List String)
  pub lists : List (String × List String)
  pub reservations : List (String × ℕ)
  pub log : List Entry
  pub error : Option String
  pub ping_error : Option String

-- `New`.
unfoldable pub new_fake : Fake
new_fake = record {
  strings = [];
  hashes = [];
  lists = [];
  reservations = [];
  log = [];
  error = none;
  ping_error = none;
}

-- `Ping`.
abbrev pub ping : Fake → Option String
ping f = f.ping_error

abbrev pub or_else {ℓ} : {A : Type ℓ} → A → Option A → A
or_else d none = d
or_else d (some a) = a

abbrev pub value_and_found : Option String → String × Bool
value_and_found none = ("", false)
value_and_found (some v) = (v, true)

-- A read fails if the test wants it to.
abbrev unless {ℓ} : {A : Type ℓ} → Option String → A → Result String A
unless none a = ok a
unless (some e) a = err e

-- `Get`.
unfoldable pub get : String → Fake → Result String (String × Bool)
get key f = unless f.error (value_and_found (lookup key f.strings))

-- `Set`.
unfoldable pub set_value : String → String → Fake → Fake
set_value key value f = record f { strings = put key value f.strings }

-- `HKeys`.
unfoldable pub hkeys : String → Fake → Result String (List String)
hkeys key f = unless f.error (or_else [] (lookup key f.hashes))

-- `list[start:end]`: none is the panic of a slice that ends before it starts.
abbrev take {ℓ} : {A : Type ℓ} → ℕ → List A → List A
take n [] = []
take n (x ∷ xs) = if leb n 0 then [] else x ∷ take (n - 1) xs

abbrev slice : ℕ → ℕ → List String → Option (List String)
slice start end xs = if ltb end start then none else some (take (end - start) (drop start xs))

-- The last line of `LRange`; one past the stop is negative only below -1.
abbrev pub range_of : ℤ → ℤ → List String → Option (List String)
range_of (negsuc n) stop xs = some []
range_of (pos start) (pos stop) xs =
    if leb (length xs) start
    then some []
    else slice start (if ltb (length xs) (stop + 1) then length xs else stop + 1) xs
range_of (pos start) (negsuc n) xs =
    if leb (length xs) start then some [] else if ltb 0 n then none else slice start 0 xs

-- `LRange`.
unfoldable pub lrange : String → ℤ → ℤ → Fake → Result String (Option (List String))
lrange key start stop f = unless f.error (range_of start stop (or_else [] (lookup key f.lists)))

-- `push`.
unfoldable pub push : Entry → Fake → Fake
push entry f = record f { log = entry ∷ f.log }

-- `LogMessage` and `LogProgress`.
unfoldable pub log_message : String → ℕ → Fake → Fake
log_message message unix = push (message_entry message unix)

unfoldable pub log_progress : Snapshot → ℕ → Fake → Fake
log_progress s unix = push (progress_entry s unix)

-- Whether a reservation still runs, and how long.
abbrev pub running_until : ℕ → Option ℕ → Option ℕ
running_until now none = none
running_until now (some until) = if ltb now until then some (until - now) else none

abbrev pub settle_reservation : String → ℕ → ℕ → Fake → Option ℕ → (Bool × ℕ) × Fake
settle_reservation key ttl now f (some left) = ((false, left), f)
settle_reservation key ttl now f none =
    ((true, 0), record f { reservations = put key (now + ttl) f.reservations })

-- `Reserve`.
unfoldable pub reserve : String → ℕ → ℕ → Fake → (Bool × ℕ) × Fake
reserve key ttl now f =
    settle_reservation key ttl now f (running_until now (lookup key f.reservations))

-- `SetString`, `SetHash` and `SetList`.
unfoldable pub set_string : String → String → Fake → Fake
set_string key value f = record f { strings = put key value f.strings }

unfoldable pub set_hash : String → List String → Fake → Fake
set_hash key fields f = record f { hashes = put key fields f.hashes }

unfoldable pub set_list : String → List String → Fake → Fake
set_list key values f = record f { lists = put key values f.lists }

-- The loop of `FindEntry`; the text of an entry is its JSON form, a parameter.
unfoldable pub find_entry : (Entry → String) → String → List Entry → Result String String
find_entry json want [] = err (concat ("no log entry contains " ∷ want ∷ []))
find_entry json want (e ∷ es) =
    if contains (codes (json e)) (codes want) then ok (json e) else find_entry json want es
