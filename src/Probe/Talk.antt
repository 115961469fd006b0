-- ===== src/Probe/Talk.antt =====
-- internal/probe/probe.go, for the probes that hold a conversation: the resolution of the target, and
-- the steps of a conversation, each of which may end the probe with a verdict. A run of `none` is a
-- reading loop that used up its number of reads, which Probe.Tcp.Reading excludes. Deadlines are
-- part of the world.
pub mod Deciding
use mailcow_watchdog.Prelude.{
  ℕ, Bool, true, false, String, List, [], ◌∷◌, Option, none, some, Result, ok, err, if◌then◌else◌,
}
use mailcow_watchdog.Prelude.Format.{Arg, str}
use mailcow_watchdog.Probe

abbrev pub Verdict : Type 0
Verdict = Probe.Result

abbrev pub Talk : Type 0 → Type 0 → Type 0
Talk World A = World → Option (Result Verdict A × World)

-- What a step left behind: its result and the world.
abbrev pub Left : Type 0 → Type 0 → Type 0
Left World A = Option (Result Verdict A × World)

abbrev pub go_on : {World A B : Type 0} → (A → Talk World B) → Left World A → Left World B
go_on f none = none
go_on f (some (err v, w)) = some (err v, w)
go_on f (some (ok a, w)) = f a w

infixl 5 ◌>>=◌ ◌>>◌
abbrev pub ◌>>=◌ : {World A B : Type 0} → Talk World A → (A → Talk World B) → Talk World B
◌>>=◌ m f w = go_on f (m w)

abbrev pub ◌>>◌ : {World A B : Type 0} → Talk World A → Talk World B → Talk World B
m >> k = m >>= λ _. k

abbrev pub pure : {World A : Type 0} → A → Talk World A
pure a w = some (ok a, w)

-- A test that must hold for the conversation to go on.
abbrev pub demand : {World : Type 0} → Bool → Verdict → Talk World (Unit {0})
demand true v w = some (ok tt, w)
demand false v w = some (err v, w)

-- A call of the library that may fail, with the verdict on its error.
abbrev pub judge :
    {World : Type 0} → (String → Verdict) → Option String → World → Left World (Unit {0})
judge verdict none w = some (ok tt, w)
judge verdict (some e) w = some (err (verdict e), w)

abbrev pub call :
    {World : Type 0} → (World → Option String × World) → (String → Verdict) → Talk World (Unit {0})
call f verdict w = let (failed, w') = f w in judge verdict failed w'

-- The same for a call that also returns a value.
abbrev pub judge_value :
    {World A : Type 0} → (String → Verdict) → Result String A → World → Left World A
judge_value verdict (ok a) w = some (ok a, w)
judge_value verdict (err e) w = some (err (verdict e), w)

abbrev pub fetch :
    {World A : Type 0} → (World → Result String A × World) → (String → Verdict) → Talk World A
fetch f verdict w = let (answer, w') = f w in judge_value verdict answer w'

-- A call whose error is ignored.
abbrev pub attempt : {World : Type 0} → (World → Option String × World) → Talk World (Unit {0})
attempt f w = let (failed, w') = f w in some (ok tt, w')

-- A call that cannot fail.
abbrev pub observe : {World A : Type 0} → (World → A × World) → Talk World A
observe f w = let (a, w') = f w in some (ok a, w')

-- A deferred call.
abbrev pub closed_by : {World A : Type 0} → (World → World) → Left World A → Left World A
closed_by close none = none
closed_by close (some (r, w)) = some (r, close w)

abbrev pub finally : {World A : Type 0} → (World → World) → Talk World A → Talk World A
finally close m w = closed_by close (m w)

-- The verdict of a whole conversation.
abbrev pub verdict_of : {World : Type 0} → Left World Verdict → Option (Verdict × World)
verdict_of none = none
verdict_of (some (err v, w)) = some (v, w)
verdict_of (some (ok v, w)) = some (v, w)

abbrev pub conclude : {World : Type 0} → Talk World Verdict → World → Option (Verdict × World)
conclude m w = verdict_of (m w)

-- `Addr`.
abbrev pub Addr : Type 0 → Type 0
Addr World = World → Result String String × World

-- `Static`.
unfoldable pub static_addr : {World : Type 0} → String → Addr World
static_addr host w = (ok host, w)

-- `resolve`.
unfoldable pub resolve : {World : Type 0} → Addr World → String → Talk World String
resolve addr name =
    fetch addr (λ e. Probe.unknown "%s: cannot resolve target: %v" (str name ∷ str e ∷ []))
