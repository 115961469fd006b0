-- ===== src/Check/Cadence.antt =====
-- internal/check/registry.go: the sleep windows that the checks use.
use native.Mathlib.Nat.{mod-lt}
use mailcow_watchdog.Prelude.{ℕ, ◌+◌, ◌-◌, ◌*◌, ◌≤◌, ◌<◌, ◌≡◌, arith, max, if◌then◌else◌}
use mailcow_watchdog.Prelude.Int.{ℤ, pos, pos_part, ltb_ℤ}
use mailcow_watchdog.Check.{second, minute, Interval, pick, fixed}

abbrev pub original_interval : ℕ
original_interval = 20 * second

abbrev pub standard_jitter : ℕ
standard_jitter = 59 * second

abbrev pub clamd_jitter : ℕ
clamd_jitter = 119 * second

abbrev pub original_external : ℕ
original_external = 30 * minute

abbrev pub external_jitter : ℕ
external_jitter = 19 * second

abbrev pub original_cert : ℕ
original_cert = 5 * minute

pub record Windows : Type 0 where
  pub standard : Interval
  pub clamd : Interval
  pub external : Interval
  pub cert : Interval

-- The guard of `Intervals` against a base that is not positive.
abbrev pub effective_base : ℤ → ℕ
effective_base base = if ltb_ℤ (pos 0) base then pos_part base else original_interval

unfoldable pub intervals : ℤ → Windows
intervals base =
    let b = effective_base base in
    record {
      standard = record { min = b; max = b + standard_jitter };
      clamd = record { min = b; max = b + clamd_jitter };
      external = record {
        min = max b original_external;
        max = max b original_external + external_jitter;
      };
      cert = fixed (max b original_cert);
    }

-- The duration that is slept lies in the window, both ends included.
pub record IsWithin (i : Interval) (d : ℕ) : Type 0 where
  pub above : i.min ≤ d
  pub below : d ≤ i.max

pub pick-IsWithin : (i : Interval) (drawn : ℕ) → i.min ≤ i.max → IsWithin i (pick i drawn)
unfolding pick
pick-IsWithin i drawn h = ground (arith, mod-lt drawn {m = i.max - i.min + 1})

pick-fixed : (d drawn : ℕ) → pick (fixed d) drawn ≡ d
unfolding pick
pick-fixed d drawn = ground arith

-- Every check sleeps at least the configured bound, and at least its own original cadence where
-- that is longer, at most the jitter more, and never zero: for every configured duration, one that
-- is not positive included, and whatever is drawn.
intervals_calm :
    (base : ℤ) (drawn : ℕ)
    → let b = effective_base base in
      let w = intervals base in
      (0 < b)
      × (b ≤ pick w.standard drawn)
      × (pick w.standard drawn ≤ b + standard_jitter)
      × (b ≤ pick w.clamd drawn)
      × (pick w.clamd drawn ≤ b + clamd_jitter)
      × (max b original_external ≤ pick w.external drawn)
      × (pick w.external drawn ≤ max b original_external + external_jitter)
      × (pick w.cert drawn ≡ max b original_cert)
unfolding intervals
intervals_calm base drawn =
    let w = intervals base in
    let s = pick-IsWithin w.standard drawn (omega arith) in
    let c = pick-IsWithin w.clamd drawn (omega arith) in
    let e = pick-IsWithin w.external drawn (omega arith) in
    (ground arith, s.above, s.below, c.above, c.below, e.above, e.below, pick-fixed _ drawn)
