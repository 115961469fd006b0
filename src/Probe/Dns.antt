-- ===== src/Probe/Dns.antt =====
-- internal/probe/dns.go: the probes of the resolver. A query and its reply are what the DNS library
-- makes of them; the timeouts are part of the world.
pub mod Lookups
use mailcow_watchdog.Prelude.{
  ℕ, Bool, true, false, not, String, List, [], ◌∷◌, Option, none, some, Result, ok, err, ◌==◌,
  if◌then◌else◌,
}
use mailcow_watchdog.Prelude.Format.{str, sprintf}
use mailcow_watchdog.Prelude.Net.{join_host_port}
use mailcow_watchdog.Check.{join}
use mailcow_watchdog.Probe
use mailcow_watchdog.Probe.Talk.{
  Verdict, Talk, ◌>>=◌, ◌>>◌, pure, demand, fetch, observe, conclude, Addr, resolve,
}

abbrev pub dns_port : ℕ
dns_port = 53

pub data Record : Type 0 where
  address : String → Record
  another : Record

pub record Reply : Type 0 where
  pub rcode : ℕ
  pub truncated : Bool
  pub authenticated_data : Bool
  pub answer : List Record

-- What is asked: a name, the type of the records, and whether DNSSEC data is wanted.
pub data QueryType : Type 0 where
  a_records soa_dnssec : QueryType

-- The library's exchange over UDP and over TCP, its names for the codes, and its `Fqdn`. `seconds` is
-- the time between two worlds with three decimals.
pub record DnsClient (World : Type 0) : Type 0 where
  pub udp : QueryType → String → String → World → Result String Reply × World
  pub tcp : QueryType → String → String → World → Result String Reply × World
  pub rcode_to_string : ℕ → String
  pub fqdn : String → String
  pub seconds : World → World → String

-- The loop of `DNS.Run` over the answer.
unfoldable pub addresses_of : List Record → List String
addresses_of [] = []
addresses_of (address a ∷ records) = a ∷ addresses_of records
addresses_of (another ∷ records) = addresses_of records

abbrev pub is_empty : List String → Bool
is_empty [] = true
is_empty (_ ∷ _) = false

module _ {World : Type 0} (client : DnsClient World) where
  -- `exchange`: a truncated answer is asked for again over TCP.
  abbrev pub retried : Result String Reply → Result String Reply
  retried (err e) = err (sprintf "retrying truncated answer over TCP: %w" (str e ∷ []))
  retried (ok reply) = ok reply

  abbrev pub settled :
      QueryType → String → String → Result String Reply → World → Result String Reply × World
  settled query name addr (err e) w = (err e, w)
  settled query name addr (ok reply) w =
      let (answer, w') = client.tcp query name addr w in
      if not reply.truncated then (ok reply, w) else (retried answer, w')

  unfoldable pub exchange : QueryType → String → String → ℕ → World → Result String Reply × World
  exchange query name server port w =
      let addr = join_host_port server port in
      let (answer, w') = client.udp query name addr w in settled query name addr answer w'

  module _ (name : String) (port : ℕ) where
    -- `DNS.Run`.
    unfoldable pub run_dns : String → Addr World → World → Option (Verdict × World)
    run_dns query resolver = conclude (do
      server ← resolve resolver name
      start ← observe (λ w. (w, w))
      reply ← fetch (exchange a_records (client.fqdn query) server port) λ e.
          Probe.critical "%s: %s was not answered by %s: %v"
            (str name ∷ str (client.fqdn query) ∷ str server ∷ str e ∷ [])
      end ← observe (λ w. (w, w))
      demand (reply.rcode == 0) (
          Probe.critical "%s: %s was answered by %s with %s" (
            str name
            ∷ str (client.fqdn query)
            ∷ str server
            ∷ str (client.rcode_to_string reply.rcode)
            ∷ []))
      demand (not (is_empty (addresses_of reply.answer))) (
          Probe.critical "%s: %s returned no address from %s"
            (str name ∷ str (client.fqdn query) ∷ str server ∷ []))
      pure (
          Probe.ok "%s: %s seconds response time, %s returns %s" (
            str name
            ∷ str (client.seconds start end)
            ∷ str (client.fqdn query)
            ∷ str (join "," (addresses_of reply.answer))
            ∷ [])))

    -- `DNSSEC.Run`.
    unfoldable pub run_dnssec : String → Addr World → World → Option (Verdict × World)
    run_dnssec zone resolver = conclude (do
      server ← resolve resolver name
      reply ← fetch (exchange soa_dnssec (client.fqdn zone) server port) λ e.
          Probe.critical "%s: DNSSEC query for %s failed: %v"
            (str name ∷ str (client.fqdn zone) ∷ str e ∷ [])
      demand reply.authenticated_data (
          Probe.critical "%s: %s answered %s without the authenticated-data flag"
            (str name ∷ str server ∷ str (client.fqdn zone) ∷ []))
      pure (Probe.ok "%s: %s validated %s" (str name ∷ str server ∷ str (client.fqdn zone) ∷ [])))
