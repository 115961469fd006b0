-- ===== src/Probe/Smtp.antt =====
-- internal/probe/smtp.go: the SMTP and LMTP probe, a scripted conversation with a mail server.
pub mod Session
use mailcow_watchdog.Prelude.{
  ℕ, ◌+◌, Bool, true, false, not, ◌||◌, String, List, [], ◌∷◌, Option, none, some, Result, ok, err,
  ltb, ◌==◌, str_eq, if◌then◌else◌,
}
use mailcow_watchdog.Prelude.Text.{codes, contains}
use mailcow_watchdog.Prelude.Format.{str, int, sprintf}
use mailcow_watchdog.Probe
use mailcow_watchdog.Probe.Talk.{
  Verdict, Talk, ◌>>=◌, ◌>>◌, pure, demand, call, fetch, attempt, observe, finally, conclude, Addr,
  resolve,
}
use mailcow_watchdog.Probe.Cert.{Certificate, cert_expiry}
use mailcow_watchdog.Probe.Peer.{Peer, trim}

-- `Command` and `SMTPOptions`.
pub record Command : Type 0 where
  pub send : String
  pub expect : String

pub record SmtpOptions : Type 0 where
  pub lmtp : Bool
  pub helo : String
  pub from : String
  pub commands : List Command
  pub start_tls : Bool
  pub min_cert_days : ℕ

-- `NewSMTP`.
unfoldable pub new_options : SmtpOptions → SmtpOptions
new_options opts = record opts { helo = if str_eq opts.helo "" then "localhost" else opts.helo }

abbrev pub verb : SmtpOptions → String
verb opts = if opts.lmtp then "LHLO" else "EHLO"

-- `protocol`.
abbrev pub protocol : SmtpOptions → String
protocol opts = if opts.lmtp then "LMTP" else "SMTP"

-- The lines of `greet` and `mailFrom`.
abbrev pub hello : SmtpOptions → String
hello opts = sprintf "%s %s" (str (verb opts) ∷ str opts.helo ∷ [])

abbrev pub helo : SmtpOptions → String
helo opts = sprintf "HELO %s" (str opts.helo ∷ [])

abbrev pub sender : SmtpOptions → String
sender opts = sprintf "MAIL FROM:<%s>" (str opts.from ∷ [])

-- The text that is searched for the expected one.
abbrev pub full_reply : ℕ × String → String
full_reply (code, line) = sprintf "%d %s" (int code ∷ str line ∷ [])

abbrev pub is_expected : Command → ℕ × String → Bool
is_expected c reply = str_eq c.expect "" || contains (codes (full_reply reply)) (codes c.expect)

module _ {World : Type 0} (peer : Peer World) where
  -- `smtpSession.cmd`.
  unfoldable pub command : String → World → Result String (ℕ × String) × World
  command line w =
      let (unsent, w₁) = peer.send_line line w in
      let (reply, w₂) = peer.read_reply w₁ in
      elim unsent [ some e ↦ (err e, w₁) | none ↦ (reply, w₂) ]

  module _ (name : String) (opts : SmtpOptions) (location : String) where
    -- `greet`: only SMTP falls back to HELO.
    abbrev pub fall_back : Talk World (Unit {0})
    fall_back = do
      reply ← fetch (command (helo opts)) λ e.
          Probe.critical "%s: %s did not answer HELO: %v" (str name ∷ str location ∷ str e ∷ [])
      demand (reply.0 == 250) (
          Probe.critical "%s: %s rejected HELO: %q"
            (str name ∷ str location ∷ str (trim reply.1) ∷ []))

    abbrev pub greeted : ℕ × String → Talk World (Unit {0})
    greeted reply =
        if reply.0 == 250
        then pure tt
        else demand (not opts.lmtp) (
            Probe.critical "%s: %s rejected LHLO: %q"
              (str name ∷ str location ∷ str (trim reply.1) ∷ []))
          >> fall_back

    unfoldable pub greet : Talk World (Unit {0})
    greet = do
      reply ← fetch (command (hello opts)) λ e.
          Probe.critical "%s: %s did not answer %s: %v"
            (str name ∷ str location ∷ str (verb opts) ∷ str e ∷ [])
      greeted reply

    -- `startTLS`; the peer goes on over the encrypted connection.
    unfoldable pub start_tls : String → Talk World (Unit {0})
    start_tls host = do
      reply ← fetch (command "STARTTLS") λ e.
          Probe.critical "%s: %s did not answer STARTTLS: %v" (str name ∷ str location ∷ str e ∷ [])
      demand (reply.0 == 220) (
          Probe.critical "%s: %s refused STARTTLS: %q"
            (str name ∷ str location ∷ str (trim reply.1) ∷ []))
      call (peer.handshake host) λ e.
          Probe.critical "%s: TLS handshake with %s failed: %v"
            (str name ∷ str location ∷ str e ∷ [])
      greet

    -- `mailFrom`.
    abbrev pub send_from : Talk World (Unit {0})
    send_from = do
      reply ← fetch (command (sender opts)) λ e.
          Probe.critical "%s: %s did not answer MAIL FROM: %v"
            (str name ∷ str location ∷ str e ∷ [])
      demand (reply.0 == 250) (
          Probe.warning "%s: %s answered MAIL FROM with %q, want 250"
            (str name ∷ str location ∷ str (trim reply.1) ∷ []))

    unfoldable pub mail_from : Talk World (Unit {0})
    mail_from = if str_eq opts.from "" then pure tt else send_from

    -- `runCommands`.
    unfoldable pub run_commands : List Command → Talk World (Unit {0})
    run_commands [] = pure tt
    run_commands (c ∷ cs) =
        fetch (command c.send) (λ e.
          Probe.critical "%s: %s did not answer %q: %v"
            (str name ∷ str location ∷ str c.send ∷ str e ∷ []))
        >>= λ reply.
            demand (is_expected c reply) (
              Probe.warning "%s: %s answered %q with %q, want it to contain %q" (
                str name
                ∷ str location
                ∷ str c.send
                ∷ str (trim (full_reply reply))
                ∷ str c.expect
                ∷ []))
            >> run_commands cs

    -- The end of `Run`.
    abbrev pub mail_flow : Talk World Verdict
    mail_flow = do
      mail_from
      run_commands opts.commands
      attempt (peer.send_line "QUIT")
      pure (
          Probe.ok "%s: %s completed the %s conversation"
            (str name ∷ str location ∷ str (protocol opts) ∷ []))

    -- The end of `Run` for a certificate check.
    abbrev pub certificate : (ℕ → String) → (ℕ → ℕ) → Talk World Verdict
    certificate rfc3339 days = do
      chain ← observe (λ w. (peer.certificates w, w))
      attempt (peer.send_line "QUIT")
      now ← observe (λ w. (peer.now w, w))
      pure (
          cert_expiry rfc3339 days now chain opts.min_cert_days
            (sprintf "%s: %s" (str name ∷ str location ∷ [])))

    -- `Run` on an open connection.
    unfoldable pub converse : (ℕ → String) → (ℕ → ℕ) → String → Talk World Verdict
    converse rfc3339 days host = do
      greeting ←
          fetch peer.read_reply
            λ e. Probe.critical "%s: %s sent no greeting: %v" (str name ∷ str location ∷ str e ∷ [])
      demand (greeting.0 == 220) (
          Probe.critical "%s: %s greeted with %q, want 220"
            (str name ∷ str location ∷ str (trim greeting.1) ∷ []))
      greet
      if not opts.start_tls
          then mail_flow
          else start_tls host
            >> (if ltb 0 opts.min_cert_days then certificate rfc3339 days else mail_flow)

  -- `Run`.
  unfoldable pub run_smtp :
      (ℕ → String)
      → (ℕ → ℕ)
      → String
      → ℕ
      → SmtpOptions
      → Addr World
      → World
      → Option (Verdict × World)
  run_smtp rfc3339 days name port opts addr = conclude (do
    host ← resolve addr name
    call (peer.dial host port) λ e.
        Probe.critical "%s: cannot connect to %s:%d: %v"
          (str name ∷ str host ∷ int port ∷ str e ∷ [])
    finally peer.close
        (converse name opts (sprintf "%s:%d" (str host ∷ int port ∷ [])) rfc3339 days host))
