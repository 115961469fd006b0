-- ===== src/Probe/Smtp/Session.antt =====
-- When the SMTP and LMTP probe passes.
use mailcow_watchdog.Prelude.{
  ℕ, ◌≡◌, ◌↔◌, refl, true, not, String, List, [], ◌∷◌, none, some, ok, ltb, ◌==◌, str_eq,
  if◌then◌else◌, arith,
}
use mailcow_watchdog.Prelude.Format.{str, int, sprintf}
use mailcow_watchdog.Health.{Status}
use mailcow_watchdog.Probe.{result}
use mailcow_watchdog.Probe.Talk.{Verdict, Talk, go_on, Addr, resolve}
use mailcow_watchdog.Probe.Talk.Deciding.{
  Decides, call-Decides, fetch-Decides, equal-Decides, skip-Decides, branch-Decides,
  closed_by-Decides, part_fetch-Decides, part_call-Decides, part_demand-Decides, part_equal-Decides,
  verdict_of-Decides,
}
use mailcow_watchdog.Probe.Cert.{cert_expiry}
use mailcow_watchdog.Probe.Peer.{Peer}
use mailcow_watchdog.Probe.Smtp.{
  Command, SmtpOptions, hello, helo, sender, is_expected, command, greeted, greet, start_tls,
  send_from, mail_from, run_commands, mail_flow, certificate, converse, run_smtp,
}

module _ {World : Type 0} (peer : Peer World) where
  -- The peer answers the line, and P holds of the code and the text and of the world after it.
  abbrev pub Answers : String → World → (ℕ × String → World → Type 0) → Type 0
  Answers line w P =
      let (answer, w') = command peer line w in
      (reply : ℕ × String) × (answer ≡ ok reply) × P reply w'

  module _ (opts : SmtpOptions) where
    -- The peer accepts the greeting: the extended one, or for SMTP the old one after it has refused the
    -- extended one.
    abbrev pub Greeted : World → (World → Type 0) → Type 0
    Greeted w K = Answers (hello opts) w (λ reply w'.
        if reply.0 == 250
        then K w'
        else (not opts.lmtp ≡ true) × Answers (helo opts) w' (λ old w''. (old.0 ≡ 250) × K w''))

    -- The peer goes over to TLS and accepts a second greeting.
    abbrev pub Encrypted : String → World → (World → Type 0) → Type 0
    Encrypted host w K = Answers "STARTTLS" w (λ reply w'.
        let (untrusted, w'') = peer.handshake host w' in
        (reply.0 ≡ 220) × ((untrusted ≡ none) × Greeted w'' K))

    -- The sender, if there is one, is accepted.
    abbrev pub Admitted : World → (World → Type 0) → Type 0
    Admitted w K =
        if str_eq opts.from ""
        then K w
        else Answers (sender opts) w (λ reply w'. (reply.0 ≡ 250) × K w')

    -- Every command is answered, and as expected where something is expected.
    abbrev pub Scripted : List Command → World → (World → Type 0) → Type 0
    Scripted [] w K = K w
    Scripted (c ∷ cs) w K =
        Answers c.send w (λ reply w'. (is_expected c reply ≡ true) × Scripted cs w' K)

    -- What is asked of the peer behind the greetings: the mail transaction, or of a server that shows
    -- a certificate that the certificate passes.
    abbrev pub Transacted : World → Type 0
    Transacted w = Admitted w (λ w'. Scripted opts.commands w' (λ w''. Unit {0}))

    abbrev pub Certified : (ℕ → String) → (ℕ → ℕ) → String → World → Type 0
    Certified rfc3339 days label w =
        let w' = (peer.send_line "QUIT" w).1 in
        (cert_expiry rfc3339 days (peer.now w') (peer.certificates w) opts.min_cert_days
          label).status
        ≡ Status.ok

    -- The whole conversation on an open connection.
    abbrev pub Conversed : (ℕ → String) → (ℕ → ℕ) → String → String → World → Type 0
    Conversed rfc3339 days label host w =
        let (answer, w') = peer.read_reply w in
        (greeting : ℕ × String) × (answer ≡ ok greeting)
        × ((greeting.0 ≡ 220)
            × Greeted w' (λ w₁.
              if not opts.start_tls
              then Transacted w₁
              else Encrypted host w₁ (λ w₂.
                if ltb 0 opts.min_cert_days
                then Certified rfc3339 days label w₂
                else Transacted w₂)))

    module _ (name location : String) where
      greet-Decides :
          (w : World) (k : Unit {0} → Talk World Verdict) (K : World → Type 0)
          → ((w' : World) → Decides (K w') (k tt w'))
          → Decides (Greeted w K) (go_on k (greet peer name opts location w))
      unfolding greet result
      greet-Decides w k K d =
          part_fetch-Decides (command peer (hello opts)) _ w (greeted peer name opts location) k _
            (λ e q. ground (arith, q))
            (λ reply.
              let w₁ = (command peer (hello opts) w).1 in
              skip-Decides (reply.0 == 250) tt _ w₁ k (K w₁) _ (d w₁) (
                part_demand-Decides (not opts.lmtp) _ w₁ _ k _ (λ q. ground (arith, q))
                  (part_fetch-Decides (command peer (helo opts)) _ w₁ _ k _
                    (λ e q. ground (arith, q))
                    (λ old. equal-Decides old.0 250 _ _ k _ (λ q. ground (arith, q)) (d _)))))

      start_tls-Decides :
          (host : String) (w : World) (k : Unit {0} → Talk World Verdict) (K : World → Type 0)
          → ((w' : World) → Decides (K w') (k tt w'))
          → Decides (Encrypted host w K) (go_on k (start_tls peer name opts location host w))
      unfolding start_tls result
      start_tls-Decides host w k K d =
          part_fetch-Decides (command peer "STARTTLS") _ w _ k _ (λ e q. ground (arith, q))
            (λ reply.
              part_equal-Decides reply.0 220 _ _ _ k _ (λ q. ground (arith, q))
                (part_call-Decides (peer.handshake host) _ _ _ k _ (λ e q. ground (arith, q))
                  (greet-Decides _ k K d)))

      mail_from-Decides :
          (w : World) (k : Unit {0} → Talk World Verdict) (K : World → Type 0)
          → ((w' : World) → Decides (K w') (k tt w'))
          → Decides (Admitted w K) (go_on k (mail_from peer name opts location w))
      unfolding mail_from result
      mail_from-Decides w k K d =
          skip-Decides (str_eq opts.from "") tt (send_from peer name opts location) w k (K w) _
            (d w)
            (part_fetch-Decides (command peer (sender opts)) _ w _ k _ (λ e q. ground (arith, q))
              (λ reply. equal-Decides reply.0 250 _ _ k _ (λ q. ground (arith, q)) (d _)))

      run_commands-Decides :
          (cs : List Command) (w : World) (k : Unit {0} → Talk World Verdict) (K : World → Type 0)
          → ((w' : World) → Decides (K w') (k tt w'))
          → Decides (Scripted cs w K) (go_on k (run_commands peer name opts location cs w))
      unfolding run_commands result
      run_commands-Decides [] w k K d = d w
      run_commands-Decides (c ∷ cs) w k K d =
          part_fetch-Decides (command peer c.send) _ w _ k _ (λ e q. ground (arith, q))
            (λ reply.
              part_demand-Decides (is_expected c reply) _ _ _ k _ (λ q. ground (arith, q))
                (run_commands-Decides cs _ k K d))

      mail_flow-Decides : (w : World) → Decides (Transacted w) (mail_flow peer name opts location w)
      unfolding result
      mail_flow-Decides w =
          mail_from-Decides w _ _
            (λ w'. run_commands-Decides opts.commands w' _ _ (λ w''. ((λ e. tt), (λ t. refl))))

      converse-Decides :
          (rfc3339 : ℕ → String) (days : ℕ → ℕ) (host : String) (w : World)
          → Decides
              (Conversed rfc3339 days (sprintf "%s: %s" (str name ∷ str location ∷ [])) host w)
              (converse peer name opts location rfc3339 days host w)
      unfolding converse result
      converse-Decides rfc3339 days host w =
          fetch-Decides peer.read_reply _ w _ _ (λ e q. ground (arith, q))
            (λ greeting.
              equal-Decides greeting.0 220 _ _ _ _ (λ q. ground (arith, q))
                (greet-Decides _ _ _ (λ w₁.
                  branch-Decides (not opts.start_tls) (mail_flow peer name opts location) _ w₁ _ _
                    (mail_flow-Decides w₁)
                    (start_tls-Decides host w₁ _ _ (λ w₂.
                      branch-Decides (ltb 0 opts.min_cert_days)
                        (certificate peer name opts location rfc3339 days)
                        (mail_flow peer name opts location) w₂ _ _ ((λ e. e), (λ e. e))
                        (mail_flow-Decides w₂))))))

  -- The SMTP and LMTP probe always comes to a verdict. It is OK exactly if the target is resolved and
  -- connected, greets with 220 and accepts the client's greeting, where only SMTP may fall back
  -- to the old one; if TLS is wanted, goes over to it and accepts a second greeting; and then, for a
  -- certificate check, presents a certificate that passes, and otherwise accepts the sender, if one
  -- is given, and answers every command, each that has an expected text with that text.
  pub run_smtp_lem :
      (rfc3339 : ℕ → String) (days : ℕ → ℕ) (name : String) (port : ℕ) (opts : SmtpOptions)
      (addr : Addr World) (w : World)
      → (v : Verdict) × (w' : World) × (run_smtp peer rfc3339 days name port opts addr w
          ≡ some (v, w'))
        × ((v.status ≡ Status.ok) ↔ (
            let (target, w₁) = addr w in
            (host : String) × (target ≡ ok host)
            × (let (refused, w₂) = peer.dial host port w₁ in
                let place = sprintf "%s:%d" (str host ∷ int port ∷ []) in
                (refused ≡ none)
                × Conversed opts rfc3339 days
                    (sprintf "%s: %s" (str name ∷ str place ∷ []))
                    host
                    w₂)))
  unfolding run_smtp resolve result
  run_smtp_lem rfc3339 days name port opts addr w = verdict_of-Decides _ _ (
      fetch-Decides addr _ w _ _ (λ e q. ground (arith, q))
        (λ host.
          let place = sprintf "%s:%d" (str host ∷ int port ∷ []) in
          call-Decides (peer.dial host port) _ _ _ _ (λ e q. ground (arith, q))
            (let w₂ = (peer.dial host port (addr w).1).1 in
              closed_by-Decides peer.close (converse peer name opts place rfc3339 days host w₂) _
                (converse-Decides opts name place rfc3339 days host w₂))))
