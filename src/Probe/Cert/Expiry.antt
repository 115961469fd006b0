-- ===== src/Probe/Cert/Expiry.antt =====
-- When a certificate passes.
use mailcow_watchdog.Prelude.{
  ℕ, ◌+◌, ◌-◌, ◌*◌, ◌/◌, ◌≤◌, ◌<◌, ◌≡◌, refl, String, List, [], ◌∷◌, arith,
}
use mailcow_watchdog.Health.{Status}
use mailcow_watchdog.Probe.{result}
use mailcow_watchdog.Probe.Cert.{Certificate, cert_expiry, time_left}

abbrev pub hour : ℕ
hour = 3600000000000

-- What floating point promises of `int(left.Hours() / 24)`: whole hours are counted exactly, as far as
-- a duration goes, and rounding keeps the order.
pub record CountsDays (days : ℕ → ℕ) : Type 0 where
  pub exact : (h : ℕ) → h ≤ 2562047 → days (h * hour) ≡ h / 24
  pub ordered : (a b : ℕ) → a ≤ b → days a ≤ days b

module _ (days : ℕ → ℕ) (counts : CountsDays days) (min_days : ℕ) where
  enough_days : (left : ℕ) → min_days ≤ 106751 → 24 * min_days * hour ≤ left → min_days ≤ days left
  enough_days left m h = omega (
    arith,
    counts.ordered (24 * min_days * hour) left h,
    counts.exact (24 * min_days) (omega arith),
  )

  few_days :
      (left : ℕ)
      → 0 < min_days
      → min_days ≤ 106751
      → left + hour ≤ 24 * min_days * hour
      → days left < min_days
  few_days left p m h = omega (
    arith,
    counts.ordered left ((24 * min_days - 1) * hour) (omega arith),
    counts.exact (24 * min_days - 1) (omega arith),
  )

-- A certificate check passes a leaf that is valid by now and for the configured number of days at
-- least, and is CRITICAL if the server presents none, if the leaf is not valid yet, and if it falls
-- short of the days by an hour or more; the hour is what the floating-point count of days may
-- round away.
pub cert_expiry_lem :
    (days : ℕ → ℕ)
    → CountsDays days
    → (rfc3339 : ℕ → String) (now min_days : ℕ) (leaf : Certificate) (chain : List Certificate)
      (label : String)
    → 0 < min_days
    → min_days ≤ 106751
    → let verdict = cert_expiry rfc3339 days now (leaf ∷ chain) min_days label in
      (leaf.not_before ≤ now
        → now + 24 * min_days * hour ≤ leaf.not_after
        → verdict.status ≡ Status.ok)
      × (now < leaf.not_before → verdict.status ≡ Status.critical)
      × (leaf.not_after + hour ≤ now + 24 * min_days * hour → verdict.status ≡ Status.critical)
      × ((cert_expiry rfc3339 days now [] min_days label).status ≡ Status.critical)
unfolding cert_expiry result
cert_expiry_lem days counts rfc3339 now min_days leaf chain label p m =
    let left = time_left leaf.not_after now in
    (
      λ b a. ground (arith, enough_days days counts min_days left m (omega arith)),
      λ b. ground arith,
      λ a. ground (arith, few_days days counts min_days left p m (omega arith)),
      refl,
    )
