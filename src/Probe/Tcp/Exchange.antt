-- ===== src/Probe/Tcp/Exchange.antt =====
-- internal/probe/tcp.go: the TCP probe and the milter probe.
use mailcow_watchdog.Prelude.{
  ℕ, ◌*◌, Bool, false, not, String, [], ◌∷◌, Option, none, some, ok, err, str_eq, if◌then◌else◌,
}
use mailcow_watchdog.Prelude.Int.{ℤ, pos, pos_part, ltb_ℤ}
use mailcow_watchdog.Prelude.Text.{Text, codes, contains}
use mailcow_watchdog.Prelude.Format.{str, int}
use mailcow_watchdog.Probe
use mailcow_watchdog.Probe.Talk.{
  Verdict, Talk, Left, ◌>>=◌, ◌>>◌, pure, call, attempt, observe, finally, conclude, Addr, resolve,
}
use mailcow_watchdog.Probe.Peer.{Peer, trim}
use mailcow_watchdog.Probe.Tcp.{read_limit, Reading, read_until}

-- `TCPOptions`.
pub record TcpOptions : Type 0 where
  pub send : String
  pub expect : String
  pub quit : String
  pub tls : Bool
  pub server_name : String

-- `NewClamd`.
unfoldable pub clamd_port : ℕ
clamd_port = 3310

unfoldable pub clamd_options : TcpOptions
clamd_options = record {
  send = "PING\n";
  expect = "PONG";
  quit = "";
  tls = false;
  server_name = "";
}

-- The two tests on what `readUntil` returned; the read may have failed although the text is there.
abbrev pub judge_reading :
    {World : Type 0}
    → String
    → (String → Text → Verdict)
    → (Text → Verdict)
    → Option (Reading × World)
    → Left World Text
judge_reading want broken silent none = none
judge_reading want broken silent (some ((got, some e), w)) =
    if not (contains got (codes want)) then some (err (broken e got), w) else some (ok got, w)
judge_reading want broken silent (some ((got, none), w)) =
    if not (contains got (codes want)) then some (err (silent got), w) else some (ok got, w)

abbrev pub hear :
    {World : Type 0}
    → Peer World
    → String
    → (String → Text → Verdict)
    → (Text → Verdict)
    → Talk World Text
hear peer want broken silent w =
    judge_reading want broken silent (read_until peer.read (codes want) read_limit [] w)

module _ {World : Type 0} (peer : Peer World) (name : String) (port : ℕ) where
  -- `connect` closes the connection itself if the handshake fails.
  abbrev pub on_failure : Option String → (World → World) → World → World
  on_failure none close w = w
  on_failure (some e) close w = close w

  unfoldable pub connect : TcpOptions → String → World → Option String × World
  connect opts host w =
      let (refused, w₁) = peer.dial host port w in
      let (untrusted, w₂) =
        peer.handshake (if str_eq opts.server_name "" then host else opts.server_name) w₁ in
      let secured : Option String × World = (untrusted, on_failure untrusted peer.close w₂) in
      elim refused [ some e ↦ (some e, w₁) | none ↦ if not opts.tls then (none, w₁) else secured ]

  -- `TCP.Run` on an open connection, once the request is sent.
  abbrev pub await_answer : TcpOptions → String → Talk World Verdict
  await_answer opts host = do
    if str_eq opts.expect ""
        then pure []
        else hear peer opts.expect
            (λ e got.
              Probe.critical "%s: reading from %s:%d failed: %v (got %q)"
                (str name ∷ str host ∷ int port ∷ str e ∷ str (trim (peer.as_string got)) ∷ []))
            (λ got. Probe.critical "%s: %s:%d did not answer with %q, got %q" (
              str name
              ∷ str host
              ∷ int port
              ∷ str opts.expect
              ∷ str (trim (peer.as_string got))
              ∷ []))
    if str_eq opts.quit "" then pure tt else attempt (peer.write opts.quit)
    pure (
        if str_eq opts.expect ""
        then Probe.ok "%s: %s:%d accepted a connection, nothing was read back"
            (str name ∷ str host ∷ int port ∷ [])
        else Probe.ok "%s: %s:%d answered with %q as expected"
            (str name ∷ str host ∷ int port ∷ str opts.expect ∷ []))

  -- `TCP.Run` on an open connection.
  unfoldable pub exchange : TcpOptions → String → Talk World Verdict
  exchange opts host = do
    if str_eq opts.send ""
        then pure tt
        else call (peer.write opts.send) λ e.
          Probe.critical "%s: cannot send to %s:%d: %v"
            (str name ∷ str host ∷ int port ∷ str e ∷ [])
    await_answer opts host

  -- `TCP.Run`.
  unfoldable pub run_tcp : Addr World → TcpOptions → World → Option (Verdict × World)
  run_tcp addr opts = conclude (do
    host ← resolve addr name
    call (connect opts host) λ e.
        Probe.critical "%s: cannot connect to %s:%d: %v"
          (str name ∷ str host ∷ int port ∷ str e ∷ [])
    finally peer.close (exchange opts host))

-- How the one read of the milter probe ended.
pub data MilterRead : Type 0 where
  got_bytes end_of_file : MilterRead
  timed_out broken_off : String → MilterRead

-- `NewMilter`.
unfoldable pub milter_timeout : ℤ → ℕ
milter_timeout timeout = if ltb_ℤ (pos 0) timeout then pos_part timeout else 10 * 1000000000

-- The switch of `Milter.Run`. The text of a duration is a parameter.
unfoldable pub milter_verdict : (ℕ → String) → String → String → ℕ → ℕ → MilterRead → Verdict
milter_verdict duration name host port timeout got_bytes =
    Probe.ok "%s: milter %s:%d answered" (str name ∷ str host ∷ int port ∷ [])
milter_verdict duration name host port timeout end_of_file =
    Probe.ok "%s: milter %s:%d answered" (str name ∷ str host ∷ int port ∷ [])
milter_verdict duration name host port timeout (timed_out e) =
    Probe.critical "%s: milter %s:%d did not answer within %s"
      (str name ∷ str host ∷ int port ∷ str (duration timeout) ∷ [])
milter_verdict duration name host port timeout (broken_off e) =
    Probe.ok "%s: milter %s:%d closed the connection (%v)"
      (str name ∷ str host ∷ int port ∷ str e ∷ [])

-- `Milter.Run`.
unfoldable pub run_milter :
    {World : Type 0}
    → Peer World
    → (World → MilterRead × World)
    → (ℕ → String)
    → String
    → ℕ
    → Addr World
    → ℕ
    → World
    → Option (Verdict × World)
run_milter peer read_once duration name port addr timeout = conclude (do
  host ← resolve addr name
  call (peer.dial host port) λ e.
      Probe.critical "%s: cannot connect to milter %s:%d: %v"
        (str name ∷ str host ∷ int port ∷ str e ∷ [])
  finally peer.close (do
    attempt (peer.write "GET / HTTP/1.0\r\n\r\n")
    read ← observe read_once
    pure (milter_verdict duration name host port timeout read)))
