-- ===== src/Tests/Conversations.antt =====
-- Concrete peers for the probes that hold a conversation.
use mailcow_watchdog.Prelude.{
  ℕ, ◌+◌, ◌*◌, ◌/◌, ◌≡◌, ◌↔◌, refl, true, false, String, [], ◌∷◌, some, none, ok, err, ltb, arith,
  if◌then◌else◌, eq_iff,
}
use mailcow_watchdog.Prelude.Text.{codes, trim_string, trim_of}
use mailcow_watchdog.Health.{Status}
use mailcow_watchdog.Probe.Talk.{Verdict, Addr, static_addr}
use mailcow_watchdog.Probe.Cert.{Certificate, cert_expiry}
use mailcow_watchdog.Probe.Cert.Expiry.{hour, CountsDays, cert_expiry_lem}
use mailcow_watchdog.Probe.Peer.{Peer}
use mailcow_watchdog.Probe.Tcp.{Connection}
use mailcow_watchdog.Probe.Tcp.Reading.{IsReader}
use mailcow_watchdog.Probe.Tcp.Exchange.{clamd_options, run_tcp}
use mailcow_watchdog.Probe.Tcp.Verdict.{Served, run_tcp_lem}
use mailcow_watchdog.Probe.Imap.{ImapOptions, run_imap}
use mailcow_watchdog.Probe.Imap.Session.{Welcomed, run_imap_lem}
use mailcow_watchdog.Prelude.Format.{str, int, sprintf}
use mailcow_watchdog.Probe.Smtp.{SmtpOptions, run_smtp}
use mailcow_watchdog.Probe.Smtp.Session.{run_smtp_lem}
use mailcow_watchdog.Probe.Dns.{Reply, Record, DnsClient, run_dns}
use mailcow_watchdog.Probe.Dns.Lookups.{run_dns_lem}
use mailcow_watchdog.Probe.Ipv6.{Reflectors, ask, ask_one, address}
use mailcow_watchdog.Probe.Ipv6.Attempts.{hit, miss, address_lem}

abbrev answers : Connection ℕ
answers w = ((codes "PONG\n", if ltb w 9 then none else some "EOF"), w + 1)

answers-IsReader : IsReader answers
answers-IsReader = record { fits = λ w. omega arith; moves = λ w h. omega arith }

abbrev leaf : Certificate
leaf = record { not_before = 0; not_after = 1000 * hour; subject = "CN=mail"; issuer = "CN=ca" }

abbrev peer : Peer ℕ
peer = record {
  dial = λ host port w. (none, w + 1);
  handshake = λ name w. (none, w + 1);
  certificates = λ w. leaf ∷ [];
  write = λ s w. (none, w + 1);
  read = answers;
  as_string = λ t. "PONG";
  send_line = λ s w. (none, w);
  read_reply = λ w. (ok (if ltb w 2 then 220 else 250, "ready"), w + 1);
  close = λ w. w + 1;
  now = λ w. w;
}

abbrev target : Addr ℕ
target = static_addr "192.0.2.10"

run_tcp_lem_example :
    (v : Verdict) × (w' : ℕ) × (run_tcp peer "clamd" 3310 target clamd_options 0 ≡ some (v, w'))
    × ((v.status ≡ Status.ok) ↔ Served peer "clamd" 3310 clamd_options target 0)
run_tcp_lem_example = run_tcp_lem peer "clamd" 3310 clamd_options target 0 answers-IsReader

abbrev imaps : ImapOptions
imaps = record { tls = true; expect = "PONG"; min_cert_days = 0 }

run_imap_lem_example :
    (v : Verdict) × (w' : ℕ) × (run_imap peer "imap" imaps
        (λ t. "2026-01-01T00:00:00Z")
        (λ d. d)
        993
        target
        0
      ≡ some (v, w'))
    × ((v.status ≡ Status.ok) ↔ (
        let (found, w₁) = target 0 in
        (host : String) × (found ≡ ok host)
        × (let (refused, w₂) = peer.dial host 993 w₁ in
            let place = sprintf "%s:%d" (str host ∷ int 993 ∷ []) in
            (refused ≡ none)
            × Welcomed peer "imap" imaps
                (λ t. "2026-01-01T00:00:00Z")
                (λ d. d)
                (sprintf "%s: %s" (str "imap" ∷ str place ∷ []))
                host
                w₂)))
run_imap_lem_example =
    run_imap_lem peer "imap" imaps (λ t. "2026-01-01T00:00:00Z") (λ d. d) 993 target 0
      answers-IsReader

abbrev smtp : SmtpOptions
smtp = record {
  lmtp = false;
  helo = "localhost";
  from = "watchdog@example.org";
  commands = record { send = "RCPT TO:<null@localhost>"; expect = "250" } ∷ [];
  start_tls = false;
  min_cert_days = 0;
}

abbrev dates : ℕ → String
dates t = "2026-01-01T00:00:00Z"

abbrev days : ℕ → ℕ
days t = t / (24 * hour)

run_smtp_lem_example :
    (v : Verdict) × (w' : ℕ) × (run_smtp peer dates days "postfix" 588 smtp target 0 ≡ some (v, w'))
run_smtp_lem_example =
    let (v, w', e, _) = run_smtp_lem peer dates days "postfix" 588 smtp target 0 in (v, w', e)

days-CountsDays : CountsDays days
days-CountsDays = record { exact = λ h le. omega arith; ordered = λ a b le. omega arith }

cert_expiry_lem_example : (cert_expiry dates days 5 (leaf ∷ []) 7 "imap").status ≡ Status.ok
cert_expiry_lem_example =
    (cert_expiry_lem days days-CountsDays dates 5 7 leaf [] "imap" (omega arith) (omega arith)).0
      (omega arith) (omega arith)

abbrev reply : Reply
reply = record {
  rcode = 0;
  truncated = true;
  authenticated_data = true;
  answer = Record.address "192.0.2.1" ∷ [];
}

abbrev resolver : DnsClient ℕ
resolver = record {
  udp = λ query name addr w. (ok reply, w + 1);
  tcp = λ query name addr w. (ok (record reply { truncated = false }), w + 1);
  rcode_to_string = λ code. "NOERROR";
  fqdn = λ name. name;
  seconds = λ a b. "0.001";
}

run_dns_lem_example :
    (v : Verdict) × (w' : ℕ) × (run_dns resolver "unbound" 53 "example.org" target 0 ≡ some (v, w'))
run_dns_lem_example =
    let (v, w', e, _) = run_dns_lem resolver "unbound" 53 target 0 "example.org" in (v, w', e)

-- The second source answers.
abbrev pub reflectors : Reflectors ℕ
reflectors = record {
  get = λ source w. (if ltb w 1 then err "timeout" else ok "2001:db8::1", w + 1);
  sleep = λ w. (none, w);
  choose = λ w. ("https://ip6.mailcow.email", w);
  is_ipv6 = λ s. true;
}

first_source : ask_one reflectors 0 ≡ ("", 1)
unfolding ask_one ask
first_source = refl

second_source : ask_one reflectors 1 ≡ ("2001:db8::1", 2)
unfolding ask_one ask trim_string trim_of
second_source = refl

address_lem_example : address reflectors 0 ≡ ("2001:db8::1", 2)
address_lem_example =
    (address_lem reflectors 0 "2001:db8::1" 2
        (λ e. ground (arith, (eq_iff "2001:db8::1" "").1 e))).1
      (1, miss first_source refl (hit second_source), omega arith)
