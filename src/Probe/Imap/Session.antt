-- ===== src/Probe/Imap/Session.antt =====
-- When the IMAP probe passes.
use mailcow_watchdog.Prelude.{
  ℕ, ◌≡◌, ◌↔◌, refl, Bool, true, false, not, String, [], ◌∷◌, none, some, ok, ltb, if◌then◌else◌,
  arith,
}
use mailcow_watchdog.Prelude.Format.{str, int, sprintf}
use mailcow_watchdog.Health.{Status}
use mailcow_watchdog.Probe.{result}
use mailcow_watchdog.Probe.Talk.{Verdict, call, Addr, resolve}
use mailcow_watchdog.Probe.Talk.Deciding.{
  Decides, call-Decides, fetch-Decides, skip-Decides, branch-Decides, closed_by-Decides,
  verdict_of-Decides,
}
use mailcow_watchdog.Probe.Cert.{cert_expiry}
use mailcow_watchdog.Probe.Peer.{Peer}
use mailcow_watchdog.Probe.Tcp.Reading.{IsReader}
use mailcow_watchdog.Probe.Tcp.Verdict.{Hears, hear-Decides}
use mailcow_watchdog.Probe.Imap.{ImapOptions, certificate, await_greeting, login, run_imap}

module _ {World : Type 0} (peer : Peer World) (name : String) (opts : ImapOptions) where
  -- The certificate passes; without TLS there is none.
  abbrev pub Certified : (ℕ → String) → (ℕ → ℕ) → String → World → Type 0
  Certified rfc3339 days label w =
      (opts.tls ≡ true)
      × ((cert_expiry rfc3339 days (peer.now w) (peer.certificates w) opts.min_cert_days
            label).status
          ≡ Status.ok)

  -- What is asked of the peer once it is connected and, if wanted, encrypted.
  abbrev pub Presented : (ℕ → String) → (ℕ → ℕ) → String → World → Type 0
  Presented rfc3339 days label w =
      if ltb 0 opts.min_cert_days then Certified rfc3339 days label w else Hears peer opts.expect w

  abbrev pub Welcomed : (ℕ → String) → (ℕ → ℕ) → String → String → World → Type 0
  Welcomed rfc3339 days label host w =
      let (untrusted, w') = peer.handshake host w in
      if not opts.tls
      then Presented rfc3339 days label w
      else (untrusted ≡ none) × Presented rfc3339 days label w'

  Certified-Decides :
      (tls : Bool) (u v : Verdict)
      → u.status ≡ Status.unknown
      → ((if not tls then u else v).status ≡ Status.ok) ↔ ((tls ≡ true) × (v.status ≡ Status.ok))
  Certified-Decides true u v h = ((λ e. (refl, e)), (λ p. p.1))
  Certified-Decides false u v h =
      ((λ e. absurd (ground (arith, e, h))), (λ p. absurd (ground (arith, p.0))))

  Presented-Decides :
      (location : String) (rfc3339 : ℕ → String) (days : ℕ → ℕ) (w : World)
      → IsReader peer.read
      → Decides (Presented rfc3339 days (sprintf "%s: %s" (str name ∷ str location ∷ [])) w) (
          (if ltb 0 opts.min_cert_days
              then certificate peer name opts location rfc3339 days
              else await_greeting peer name opts location)
            w)
  unfolding result
  Presented-Decides location rfc3339 days w reader =
      branch-Decides (ltb 0 opts.min_cert_days) (certificate peer name opts location rfc3339 days)
        (await_greeting peer name opts location) w _ _ (Certified-Decides opts.tls _ _ refl)
        (hear-Decides peer opts.expect _ _ w _ reader (λ e got q. ground (arith, q))
          (λ got q. ground (arith, q)) (λ got w'. ((λ e. tt), (λ t. refl))))

  -- From a peer whose reads are as `io.Reader` promises, the IMAP probe always comes to a verdict. It
  -- is OK exactly if the target is resolved, connected and, if TLS is wanted, encrypted, and then,
  -- for a certificate check, TLS is in use and the certificate passes, and otherwise the expected
  -- text comes up in the greeting while that is below 8,192 bytes and no read has failed.
  pub run_imap_lem :
      (rfc3339 : ℕ → String) (days : ℕ → ℕ) (port : ℕ) (addr : Addr World) (w : World)
      → IsReader peer.read
      → (v : Verdict) × (w' : World) × (run_imap peer name opts rfc3339 days port addr w
          ≡ some (v, w'))
        × ((v.status ≡ Status.ok) ↔ (
            let (target, w₁) = addr w in
            (host : String) × (target ≡ ok host)
            × (let (refused, w₂) = peer.dial host port w₁ in
                let place = sprintf "%s:%d" (str host ∷ int port ∷ []) in
                (refused ≡ none)
                × Welcomed rfc3339 days (sprintf "%s: %s" (str name ∷ str place ∷ [])) host w₂)))
  unfolding run_imap login resolve result
  run_imap_lem rfc3339 days port addr w reader = verdict_of-Decides _ _ (
      fetch-Decides addr _ w _ _ (λ e q. ground (arith, q))
        (λ host.
          let place = sprintf "%s:%d" (str host ∷ int port ∷ []) in
          call-Decides (peer.dial host port) _ _ _ _ (λ e q. ground (arith, q))
            (let w₂ = (peer.dial host port (addr w).1).1 in
              closed_by-Decides peer.close (login peer name opts host place rfc3339 days w₂) _ (
                skip-Decides (not opts.tls) tt (call (peer.handshake host) _) w₂ _ _ _
                  (Presented-Decides place rfc3339 days w₂ reader)
                  (call-Decides (peer.handshake host) _ w₂ _ _ (λ e q. ground (arith, q))
                    (Presented-Decides place rfc3339 days (peer.handshake host w₂).1 reader))))))
