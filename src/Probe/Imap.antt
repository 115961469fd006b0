-- ===== src/Probe/Imap.antt =====
-- internal/probe/imap.go: the IMAP probe.
pub mod Session
use mailcow_watchdog.Prelude.{
  ℕ, Bool, true, false, not, String, [], ◌∷◌, Option, none, some, Result, ok, err, ltb, str_eq,
  if◌then◌else◌,
}
use mailcow_watchdog.Prelude.Text.{Text}
use mailcow_watchdog.Prelude.Format.{str, int, sprintf}
use mailcow_watchdog.Probe
use mailcow_watchdog.Probe.Talk.{
  Verdict, Talk, ◌>>=◌, ◌>>◌, pure, call, attempt, observe, finally, conclude, Addr, resolve,
}
use mailcow_watchdog.Probe.Cert.{cert_expiry}
use mailcow_watchdog.Probe.Peer.{Peer, trim}
use mailcow_watchdog.Probe.Tcp.Exchange.{hear}

-- `IMAPOptions`.
pub record ImapOptions : Type 0 where
  pub tls : Bool
  pub expect : String
  pub min_cert_days : ℕ

-- `NewIMAP`.
unfoldable pub new_imap_options : ImapOptions → ImapOptions
new_imap_options opts = record opts {
  expect = if str_eq opts.expect "" then "* OK" else opts.expect;
}

module _ {World : Type 0} (peer : Peer World) (name : String) (opts : ImapOptions) where
  -- The verdict of a certificate check. Without TLS there is no certificate to look at.
  abbrev pub certificate : String → (ℕ → String) → (ℕ → ℕ) → Talk World Verdict
  certificate location rfc3339 days = do
    now ← observe (λ w. (peer.now w, w))
    chain ← observe (λ w. (peer.certificates w, w))
    pure (
        if not opts.tls
        then Probe.unknown "%s: certificate check needs an implicit TLS connection" (str name ∷ [])
        else cert_expiry rfc3339 days now chain opts.min_cert_days
            (sprintf "%s: %s" (str name ∷ str location ∷ [])))

  abbrev pub await_greeting : String → Talk World Verdict
  await_greeting location = do
    greeting ←
        hear peer opts.expect
          (λ e got.
            Probe.critical "%s: reading the greeting from %s failed: %v (got %q)"
              (str name ∷ str location ∷ str e ∷ str (trim (peer.as_string got)) ∷ []))
          (λ got.
            Probe.critical "%s: %s greeted with %q, want it to contain %q"
              (str name ∷ str location ∷ str (trim (peer.as_string got)) ∷ str opts.expect ∷ []))
    attempt (peer.write "a1 LOGOUT\r\n")
    pure (
        Probe.ok "%s: %s greeted with %q"
          (str name ∷ str location ∷ str (trim (peer.as_string greeting)) ∷ []))

  -- `Run` on an open connection.
  unfoldable pub login : String → String → (ℕ → String) → (ℕ → ℕ) → Talk World Verdict
  login host location rfc3339 days = do
    if not opts.tls
        then pure tt
        else call (peer.handshake host) λ e.
          Probe.critical "%s: TLS handshake with %s failed: %v"
            (str name ∷ str location ∷ str e ∷ [])
    if ltb 0 opts.min_cert_days then certificate location rfc3339 days else await_greeting location

  -- `Run`.
  unfoldable pub run_imap :
      (ℕ → String) → (ℕ → ℕ) → ℕ → Addr World → World → Option (Verdict × World)
  run_imap rfc3339 days port addr = conclude (do
    host ← resolve addr name
    call (peer.dial host port) λ e.
        Probe.critical "%s: cannot connect to %s: %v"
          (str name ∷ str (sprintf "%s:%d" (str host ∷ int port ∷ [])) ∷ str e ∷ [])
    finally peer.close (login host (sprintf "%s:%d" (str host ∷ int port ∷ [])) rfc3339 days))
