-- ===== src/Check.antt =====
-- internal/check/check.go: one monitored service. Durations are counted in nanoseconds. What the
-- Go closures of a check reach (the probes' shared state) is part of the world. The mutex makes
-- each method one step.
pub mod Transcript
pub mod Cadence
pub mod Resolver
use mailcow_watchdog.Prelude.{
  ℕ, ◌+◌, ◌-◌, ◌*◌, ◌%◌, Bool, not, ◌&&◌, String, List, [], ◌∷◌, ◌++◌, Option, none, some, ltb, leb,
  length, drop, select, str_eq, if◌then◌else◌,
}
use mailcow_watchdog.Prelude.Text.{codes, has_suffix}
use mailcow_watchdog.Prelude.Format.{concat}
use mailcow_watchdog.Probe.{Probe}

abbrev pub second : ℕ
second = 1000000000

abbrev pub minute : ℕ
minute = 60 * second

abbrev pub transcript_lines : ℕ
transcript_lines = 50

pub record Interval : Type 0 where
  pub min : ℕ
  pub max : ℕ

-- `Pick`. The drawn number stands for the random source; `rand.N(n)` is below n.
unfoldable pub pick : Interval → ℕ → ℕ
pick i drawn = if leb i.max i.min then i.min else i.min + drawn % (i.max - i.min + 1)

-- `Fixed`.
abbrev pub fixed : ℕ → Interval
fixed d = record { min = d; max = d }

pub record Check (World : Type 0) : Type 0 where
  pub name : String
  pub service : String
  pub event : String
  pub threshold : ℕ
  pub probes : List (Probe World)
  pub interval : Interval
  pub dead_delay : ℕ
  pub bans : Option (World → List String)
  pub details : Option (World → String × World)
  pub transcript : List String

-- The two loops of `Record` over the transcript: append the lines that are not empty, then keep the
-- last fifty.
abbrev pub is_line : String → Bool
is_line line = not (str_eq line "")

unfoldable pub append_lines : List String → List String → List String
append_lines transcript lines =
    let all = transcript ++ select is_line lines in
    if ltb 0 (length all - transcript_lines) then drop (length all - transcript_lines) all else all

-- `Record`.
unfoldable pub record_lines : {World : Type 0} → Check World → List String → Check World
unfolding append_lines
record_lines c lines = record c { transcript = append_lines c.transcript lines }

-- `strings.Join`.
unfoldable pub join : String → List String → String
join sep [] = ""
join sep (s ∷ []) = s
join sep (s ∷ t ∷ r) = concat (s ∷ sep ∷ join sep (t ∷ r) ∷ [])

-- `Details`.
unfoldable pub details_of : {World : Type 0} → Check World → World → String × World
details_of c w = elim c.details [ some details ↦ details w | none ↦ (join "\n" c.transcript, w) ]

-- `RestartsContainer`.
unfoldable pub restarts_container : String → Bool
restarts_container event =
    has_suffix (codes event) (codes "-mailcow") && not (str_eq event "acme-mailcow")
