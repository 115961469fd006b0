-- ===== src/Probe/Cert.antt =====
-- internal/probe/probe.go: the verdict on a certificate's dates. Instants count nanoseconds; their
-- RFC 3339 form and the number of days in a duration, which Go computes in floating point, are
-- parameters.
pub mod Expiry
use mailcow_watchdog.Prelude.{
  ℕ, ◌+◌, ◌-◌, ◌*◌, ◌^◌, min, Bool, true, false, String, List, [], ◌∷◌, ltb, leb, str_eq,
  if◌then◌else◌,
}
use mailcow_watchdog.Prelude.Format.{str, int, sprintf}
use mailcow_watchdog.Probe
use mailcow_watchdog.Probe.Talk.{Verdict}

pub record Certificate : Type 0 where
  pub not_before : ℕ
  pub not_after : ℕ
  pub subject : String
  pub issuer : String

-- `describe`.
unfoldable pub describe : Certificate → String
describe leaf =
    if str_eq leaf.issuer leaf.subject
    then sprintf "subject %q, self-signed" (str leaf.subject ∷ [])
    else sprintf "subject %q, issuer %q" (str leaf.subject ∷ str leaf.issuer ∷ [])

-- `time.Time.Sub`, for a later time: the largest duration is 2^63 - 1.
abbrev pub time_left : ℕ → ℕ → ℕ
time_left until now = min (until - now) (2 ^ 63 - 1)

-- `certExpiry`. An expired certificate has no time left.
unfoldable pub cert_expiry : (ℕ → String) → (ℕ → ℕ) → ℕ → List Certificate → ℕ → String → Verdict
cert_expiry rfc3339 days now [] min_days label =
    Probe.critical "%s: server presented no certificate" (str label ∷ [])
cert_expiry rfc3339 days now (leaf ∷ chain) min_days label =
    let who = describe leaf in
    let left = time_left leaf.not_after now in
    if ltb now leaf.not_before
    then Probe.critical "%s: certificate is not valid before %s, %s"
        (str label ∷ str (rfc3339 leaf.not_before) ∷ str who ∷ [])
    else if leb left 0
    then Probe.critical "%s: certificate expired on %s, %s"
        (str label ∷ str (rfc3339 leaf.not_after) ∷ str who ∷ [])
    else if ltb (days left) min_days
    then Probe.critical "%s: certificate expires in %d days (%s), minimum is %d, %s"
        (str label ∷ int (days left) ∷ str (rfc3339 leaf.not_after) ∷ int min_days ∷ str who ∷ [])
    else Probe.ok "%s: certificate valid for %d more days (until %s), %s"
        (str label ∷ int (days left) ∷ str (rfc3339 leaf.not_after) ∷ str who ∷ [])
