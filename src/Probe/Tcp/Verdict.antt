-- ===== src/Probe/Tcp/Verdict.antt =====
-- When the TCP probe passes.
use mailcow_watchdog.Prelude.{
  ℕ, ◌≡◌, ◌↔◌, refl, sym, subst, Bool, true, false, not, String, [], Option, none, some, ok, str_eq,
  if◌then◌else◌, arith,
}
use mailcow_watchdog.Prelude.Text.{Text, codes, contains}
use mailcow_watchdog.Health.{Status}
use mailcow_watchdog.Probe.{result}
use mailcow_watchdog.Probe.Talk.{Verdict, Talk, go_on, pure, call, attempt, Addr, resolve}
use mailcow_watchdog.Probe.Talk.Deciding.{
  IsBad, Decides, Decides-iff, call-Decides, check-Decides, fetch-Decides, skip-Decides,
  closed_by-Decides, verdict_of-Decides,
}
use mailcow_watchdog.Probe.Peer.{Peer}
use mailcow_watchdog.Probe.Tcp.{Reading}
use mailcow_watchdog.Probe.Tcp.Hearing.{Says, Holds, Holds-iff}
use mailcow_watchdog.Probe.Tcp.Reading.{IsReader, read_until_lem}
use mailcow_watchdog.Probe.Tcp.Exchange.{
  TcpOptions, judge_reading, hear, on_failure, connect, await_answer, exchange, run_tcp,
}

module _ {World : Type 0} (peer : Peer World) where
  -- The peer says the wanted text.
  abbrev pub Hears : String → World → Type 0
  Hears want w = Says peer.read (codes want) [] w

  judge_reading-Decides :
      (want : String) (broken : String → Text → Verdict) (silent : Text → Verdict) (r : Reading)
      (w : World) (k : Text → Talk World Verdict)
      → ((e : String) (got : Text) → IsBad (broken e got))
      → ((got : Text) → IsBad (silent got))
      → Decides (Unit {0}) (k r.0 w)
      → Decides
          (contains r.0 (codes want) ≡ true)
          (go_on k (judge_reading want broken silent (some (r, w))))
  judge_reading-Decides want broken silent (got, none) w k b s d =
      check-Decides (contains got (codes want)) (silent got) got w k (s got) d
  judge_reading-Decides want broken silent (got, some e) w k b s d =
      check-Decides (contains got (codes want)) (broken e got) got w k (b e got) d

  pub hear-Decides :
      (want : String) (broken : String → Text → Verdict) (silent : Text → Verdict) (w : World)
      (k : Text → Talk World Verdict)
      → IsReader peer.read
      → ((e : String) (got : Text) → IsBad (broken e got))
      → ((got : Text) → IsBad (silent got))
      → ((got : Text) (w' : World) → Decides (Unit {0}) (k got w'))
      → Decides (Hears want w) (go_on k (hear peer want broken silent w))
  hear-Decides want broken silent w k reader b s d =
      let (r, w', e, ended, size) = read_until_lem peer.read reader (codes want) w in
      let said : Holds peer.read (codes want) (some (r, w')) ↔ Hears want w =
        subst (λ o. Holds peer.read (codes want) o ↔ Hears want w) e
          (Holds-iff peer.read (codes want) reader w) in
      subst (λ o. Decides (Hears want w) (go_on k (judge_reading want broken silent o))) (sym e)
        (Decides-iff (go_on k (judge_reading want broken silent (some (r, w')))) said
          (judge_reading-Decides want broken silent r w' k b s (d r.0 w')))

  module _ (name : String) (port : ℕ) (opts : TcpOptions) where
    -- The answer is asked for only if there is an expected text.
    abbrev pub Heard : World → Type 0
    Heard w = if str_eq opts.expect "" then Unit {0} else Hears opts.expect w

    -- The request is sent if there is one.
    abbrev pub Asked : World → Type 0
    Asked w =
        let (unsent, w') = peer.write opts.send w in
        if str_eq opts.send "" then Heard w else (unsent ≡ none) × Heard w'

    -- The peer is dialled, if TLS is wanted the handshake is made under the configured name, or that of
    -- the host, and R holds then.
    abbrev pub Connects : String → (World → Type 0) → World → Type 0
    Connects host R w =
        let (refused, w₁) = peer.dial host port w in
        let (untrusted, w₂) =
          peer.handshake (if str_eq opts.server_name "" then host else opts.server_name) w₁ in
        (refused ≡ none) × (if opts.tls then (untrusted ≡ none) × R w₂ else R w₁)

    abbrev pub Served : Addr World → World → Type 0
    Served addr w =
        let (target, w₁) = addr w in (host : String) × (target ≡ ok host) × Connects host Asked w₁

    connect_iff :
        (refused : Option String) (tls : Bool) (untrusted : Option String) (w₁ w₂ : World)
        (R : World → Type 0)
        → let (failed, w) : Option String × World = elim refused [
          | some e ↦ (some e, w₁)
          | none ↦
              if not tls
              then (none, w₁)
              else (untrusted, on_failure peer name port untrusted peer.close w₂)
        ] in
          ((failed ≡ none) × R w)
          ↔ ((refused ≡ none) × (if tls then (untrusted ≡ none) × R w₂ else R w₁))
    connect_iff (some e) tls u w₁ w₂ R =
        ((λ p. absurd (ground (arith, p.0))), (λ p. absurd (ground (arith, p.0))))
    connect_iff none false u w₁ w₂ R = ((λ p. p), (λ p. p))
    connect_iff none true none w₁ w₂ R = ((λ p. (refl, p)), (λ p. p.1))
    connect_iff none true (some e) w₁ w₂ R =
        ((λ p. absurd (ground (arith, p.0))), (λ p. absurd (ground (arith, p.1.0))))

    connect-Connects :
        (host : String) (R : World → Type 0) (w : World)
        → let (failed, w') = connect peer name port opts host w in
          ((failed ≡ none) × R w') ↔ Connects host R w
    unfolding connect
    connect-Connects host R w =
        let (refused, w₁) = peer.dial host port w in
        let (untrusted, w₂) =
          peer.handshake (if str_eq opts.server_name "" then host else opts.server_name) w₁ in
        connect_iff refused opts.tls untrusted w₁ w₂ R

    last-Decides :
        (b c : Bool) (f : World → Option String × World) (u v : Verdict) (w : World)
        → u.status ≡ Status.ok
        → v.status ≡ Status.ok
        → Decides
            (Unit {0})
            (go_on (λ _. pure (if c then u else v)) ((if b then pure tt else attempt f) w))
    last-Decides true true f u v w h k = ((λ e. tt), (λ t. h))
    last-Decides true false f u v w h k = ((λ e. tt), (λ t. k))
    last-Decides false true f u v w h k = ((λ e. tt), (λ t. h))
    last-Decides false false f u v w h k = ((λ e. tt), (λ t. k))

    await_answer-Decides :
        (host : String) (w : World)
        → IsReader peer.read
        → Decides (Heard w) (await_answer peer name port opts host w)
    unfolding result
    await_answer-Decides host w reader =
        let last =
          last-Decides (str_eq opts.quit "") (str_eq opts.expect "") (peer.write opts.quit) in
        skip-Decides (str_eq opts.expect "") [] (hear peer opts.expect _ _) w _ (Unit {0})
          (Hears opts.expect w) (last _ _ w refl refl)
          (hear-Decides opts.expect _ _ w _ reader (λ e got q. ground (arith, q))
            (λ got q. ground (arith, q)) (λ got w'. last _ _ w' refl refl))

    exchange-Decides :
        (host : String) (w : World)
        → IsReader peer.read
        → Decides (Asked w) (exchange peer name port opts host w)
    unfolding exchange result
    exchange-Decides host w reader =
        let (unsent, w') = peer.write opts.send w in
        skip-Decides (str_eq opts.send "") tt (call (peer.write opts.send) _) w _ (Heard w)
          ((unsent ≡ none) × Heard w') (await_answer-Decides host w reader)
          (call-Decides (peer.write opts.send) _ w _ (Heard w') (λ e q. ground (arith, q))
            (await_answer-Decides host w' reader))

    -- From a peer whose reads are as `io.Reader` promises, the TCP probe always comes to a verdict. It
    -- is OK exactly if the target is resolved, the peer dialled, the handshake made if TLS is wanted,
    -- the request sent if there is one, and the expected text, if there is one, comes up in what the
    -- peer says: in one read after another while the text is below 8,192 bytes and no read has failed.
    pub run_tcp_lem :
        (addr : Addr World) (w : World)
        → IsReader peer.read
        → (v : Verdict) × (w' : World) × (run_tcp peer name port addr opts w ≡ some (v, w'))
          × ((v.status ≡ Status.ok) ↔ Served addr w)
    unfolding run_tcp resolve result
    run_tcp_lem addr w reader = verdict_of-Decides (Served addr w) _ (
        fetch-Decides addr _ w _ _ (λ e q. ground (arith, q))
          (λ host.
            let w₁ = (addr w).1 in
            let w₂ = (connect peer name port opts host w₁).1 in
            Decides-iff _ (connect-Connects host Asked w₁) (
              call-Decides (connect peer name port opts host) _ w₁ _ (Asked w₂)
                (λ e q. ground (arith, q))
                (closed_by-Decides peer.close (exchange peer name port opts host w₂) _
                  (exchange-Decides host w₂ reader)))))
