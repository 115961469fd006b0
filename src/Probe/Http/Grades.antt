-- ===== src/Probe/Http/Grades.antt =====
-- What the relay test makes of an answer.
use mailcow_watchdog.Prelude.{
  ◌≡◌, ◌≢◌, ◌↔◌, refl, Bool-cases, inl, inr, String, Result, ok, err, ◌>>=◌, str_eq, eq_iff, arith,
}
use mailcow_watchdog.Health.{Status}
use mailcow_watchdog.Probe.{result}
use mailcow_watchdog.Probe.Http.{
  Response, Report, External, report_verdict, decoded_verdict, content_verdict, relay_verdict,
}

-- The report that the endpoint gave, if it was reached and its answer could be read and decoded.
abbrev pub report_of :
    (String → Result String Report) → Result String Response → Result String Report
report_of decode answer = (answer >>= λ response. response.content) >>= decode

module _ (p : External) where
  -- The severity of the verdict and the probe after it, for a report.
  abbrev pub Judged : Result String Report → Status → External → Type 0
  Judged found status p' =
      ((status ≡ Status.critical)
        ↔ ((reply : Report) × (found ≡ ok reply) × (reply.response ≡ "critical")))
      × ((reply : Report)
          → found ≡ ok reply
          → reply.response ≡ "critical"
          → p' ≡ record p { details = reply.out })
      × (status ≢ Status.critical → (status ≡ Status.ok) × (p' ≡ p))

  nothing-Judged : (e : String) → Judged (err e) Status.ok p
  nothing-Judged e = (
    ((λ c. absurd (ground (arith, c))), (λ (reply, f, c). absurd (ground (arith, f)))),
    λ reply f c. absurd (ground (arith, f)),
    λ n. (refl, refl),
  )

  report-Judged : (r : Report) → let (v, p') = report_verdict p r in Judged (ok r) v.status p'
  unfolding report_verdict result
  report-Judged r = elim (Bool-cases (str_eq r.response "critical")) [
    | inl e ↦
        let critical : r.response ≡ "critical" = (eq_iff r.response "critical").0 e in
        rw e (
          ((λ h. (r, refl, critical)), (λ p. refl)),
          λ reply f c. ground (arith, f),
          λ n. absurd (n refl),
        )
    | inr e ↦ rw e (
      (
        (λ h. absurd (ground (arith, h))),
        (λ (reply, f, c). absurd (ground (arith, f, c, e, eq_iff r.response "critical"))),
      ),
      λ reply f c. absurd (ground (arith, f, c, e, eq_iff r.response "critical")),
      λ n. (refl, refl),
    )
  ]

  decoded-Judged :
      (found : Result String Report)
      → let (v, p') = decoded_verdict p found in Judged found v.status p'
  unfolding result
  decoded-Judged (ok r) = report-Judged r
  decoded-Judged (err e) = nothing-Judged e

  module _ (decode : String → Result String Report) where
    content-Judged :
        (c : Result String String)
        → let (v, p') = content_verdict decode p c in Judged (c >>= decode) v.status p'
    unfolding result
    content-Judged (ok body) = decoded-Judged (decode body)
    content-Judged (err e) = nothing-Judged e

    -- This installation is reported as an open relay exactly if the endpoint was reached, its answer
    -- could be read and decoded, and the report says critical; the probe then keeps the text of the
    -- report. In every other case, an endpoint that does not answer included, the probe is OK and
    -- keeps the last report that it had.
    relay_verdict_lem :
        (answer : Result String Response)
        → let (v, p') = relay_verdict decode p answer in
          Judged (report_of decode answer) v.status p'
    unfolding relay_verdict result
    relay_verdict_lem (ok response) = content-Judged response.content
    relay_verdict_lem (err e) = nothing-Judged e
