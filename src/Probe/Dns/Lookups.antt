-- ===== src/Probe/Dns/Lookups.antt =====
-- When the probes of the resolver pass.
use mailcow_watchdog.Prelude.{
  ℕ, ◌≡◌, ◌≢◌, ◌↔◌, refl, sym, ap, subst, true, not, String, List, [], ◌∷◌, some, Result, ok, err,
  Bool-cases, inl, inr, if◌then◌else◌, arith,
}
use mailcow_watchdog.Prelude.Net.{join_host_port}
use mailcow_watchdog.Health.{Status}
use mailcow_watchdog.Probe.{result}
use mailcow_watchdog.Probe.Talk.{Verdict, Addr, resolve, go_on, fetch, Talk}
use mailcow_watchdog.Probe.Talk.Deciding.{
  IsBad, Decides, Decides-iff, fetch-Decides, last_demand-Decides, equal-Decides,
  verdict_of-Decides,
}
use mailcow_watchdog.Probe.Dns.{
  Reply, DnsClient, QueryType, a_records, soa_dnssec, addresses_of, is_empty, retried, settled,
  exchange, run_dns, run_dnssec,
}

module _ {World : Type 0} (client : DnsClient World) where
  -- The server gives the reply: over UDP, or over TCP if the one over UDP is truncated.
  abbrev pub Replies : QueryType → String → String → ℕ → World → Reply → Type 0
  Replies query name server port w reply =
      let addr = join_host_port server port in
      let (answer, w') = client.udp query name addr w in
      (first : Reply) × (answer ≡ ok first)
      × (if not first.truncated
          then first ≡ reply
          else (client.tcp query name addr w').0 ≡ ok reply)

  retried_iff :
      (answer : Result String Reply) (reply : Reply)
      → (retried client answer ≡ ok reply) ↔ (answer ≡ ok reply)
  retried_iff (ok r) reply = ((λ h. h), (λ h. h))
  retried_iff (err e) reply = ((λ h. absurd (ground (arith, h))), (λ h. absurd (ground (arith, h))))

  abbrev Settled : QueryType → String → String → World → Reply → Result String Reply → Type 0
  Settled query name addr w reply (err e) = ⊥
  Settled query name addr w reply (ok first) =
      if not first.truncated then first ≡ reply else (client.tcp query name addr w).0 ≡ ok reply

  settled_iff :
      (query : QueryType) (name addr : String) (answer : Result String Reply) (w : World)
      (reply : Reply)
      → ((settled client query name addr answer w).0 ≡ ok reply) ↔ (
          (first : Reply) × (answer ≡ ok first)
          × (if not first.truncated
              then first ≡ reply
              else (client.tcp query name addr w).0 ≡ ok reply))
  settled_iff query name addr (err e) w reply =
      ((λ h. absurd (ground (arith, h))), (λ (f, h, r). absurd (ground (arith, h))))
  settled_iff query name addr (ok first) w reply =
      let (answer, w') = client.tcp query name addr w in
      elim (Bool-cases first.truncated) [
        | inl t ↦ (
          λ h. (first, refl, rw t ((retried_iff answer reply).0 (rw (t, settled) at h))),
          λ (f, h, r). rw t (
              (retried_iff answer reply).1 (
                let same : Settled query name addr w reply (ok first) =
                  subst (Settled query name addr w reply) (sym h) r in
                rw t at same)),
        )
        | inr t ↦ (
          λ h. (first, refl, rw t (ground (arith, h, t))),
          λ (f, h, r). rw t (
              ap ok (
                let same : Settled query name addr w reply (ok first) =
                  subst (Settled query name addr w reply) (sym h) r in
                rw t at same)),
        )
      ]

  exchange-Replies :
      (query : QueryType) (name server : String) (port : ℕ) (w : World) (reply : Reply)
      → ((exchange client query name server port w).0 ≡ ok reply)
        ↔ Replies query name server port w reply
  unfolding exchange
  exchange-Replies query name server port w reply =
      let addr = join_host_port server port in
      let (answer, w') = client.udp query name addr w in settled_iff query name addr answer w' reply

  -- A part of the conversation that asks the server.
  asked-Decides :
      (query : QueryType) (name server : String) (port : ℕ) (w : World) (verdict : String → Verdict)
      (k : Reply → Talk World Verdict) (R : Reply → Type 0)
      → ((e : String) → IsBad (verdict e))
      → (let w' = (exchange client query name server port w).1 in
          (reply : Reply) → Decides (R reply) (k reply w'))
      → Decides
          ((reply : Reply) × Replies query name server port w reply × R reply)
          (go_on k (fetch (exchange client query name server port) verdict w))
  asked-Decides query name server port w verdict k R h d =
      let replies = λ (reply : Reply). exchange-Replies query name server port w reply in
      Decides-iff (go_on k (fetch (exchange client query name server port) verdict w))
        (
          (λ (reply, e, r). (reply, (replies reply).0 e, r)),
          (λ (reply, e, r). (reply, (replies reply).1 e, r)),
        )
        (fetch-Decides (exchange client query name server port) verdict w k R h d)

  found_iff : (found : List String) → (not (is_empty found) ≡ true) ↔ (found ≢ [])
  found_iff [] = ((λ h. absurd (ground (arith, h))), (λ h. absurd (h refl)))
  found_iff (a ∷ found) = ((λ h e. ground (arith, e)), (λ h. refl))

  module _ (name : String) (port : ℕ) (resolver : Addr World) (w : World) where
    -- The look-up always comes to a verdict. It is OK exactly if the resolver's address is found and the
    -- resolver gives a reply, over UDP or, if that one is truncated, over TCP, which reports
    -- success and holds an address.
    pub run_dns_lem :
        (query : String)
        → (v : Verdict) × (w' : World) × (run_dns client name port query resolver w ≡ some (v, w'))
          × ((v.status ≡ Status.ok) ↔ (
              let (target, w₁) = resolver w in
              (server : String) × (target ≡ ok server)
              × ((reply : Reply) × Replies a_records (client.fqdn query) server port w₁ reply
                  × ((reply.rcode ≡ 0) × (addresses_of reply.answer ≢ [])))))
    unfolding run_dns resolve result
    run_dns_lem query = verdict_of-Decides _ _ (
        fetch-Decides resolver _ w _ _ (λ e q. ground (arith, q))
          (λ server.
            asked-Decides a_records (client.fqdn query) server port (resolver w).1 _ _ _
              (λ e q. ground (arith, q))
              (λ reply.
                equal-Decides reply.rcode 0 _ _ _ _ (λ q. ground (arith, q))
                  (Decides-iff _ (found_iff (addresses_of reply.answer)) (
                    last_demand-Decides (not (is_empty (addresses_of reply.answer))) _ _ _
                      (λ q. ground (arith, q)) ((λ e. tt), (λ t. refl)))))))

    -- The DNSSEC probe always comes to a verdict. It is OK exactly if the resolver's address is found
    -- and the resolver gives a reply, over UDP or, if that one is truncated, over TCP, which it has
    -- authenticated.
    pub run_dnssec_lem :
        (zone : String)
        → (v : Verdict) × (w' : World) × (run_dnssec client name port zone resolver w
            ≡ some (v, w'))
          × ((v.status ≡ Status.ok) ↔ (
              let (target, w₁) = resolver w in
              (server : String) × (target ≡ ok server)
              × ((reply : Reply) × Replies soa_dnssec (client.fqdn zone) server port w₁ reply
                  × (reply.authenticated_data ≡ true))))
    unfolding run_dnssec resolve result
    run_dnssec_lem zone = verdict_of-Decides _ _ (
        fetch-Decides resolver _ w _ _ (λ e q. ground (arith, q))
          (λ server.
            asked-Decides soa_dnssec (client.fqdn zone) server port (resolver w).1 _ _ _
              (λ e q. ground (arith, q))
              (λ reply.
                last_demand-Decides reply.authenticated_data _ _ _ (λ q. ground (arith, q))
                  ((λ e. tt), (λ t. refl)))))
