-- ===== src/Probe/Http.antt =====
-- The probes that ask over HTTP: internal/probe/http.go, internal/probe/rspamd.go and
-- internal/probe/external.go. The client of net/http is a record of the calls made of it, and what
-- the JSON decoder makes of a body is a parameter.
pub mod Grades
use mailcow_watchdog.Prelude.{
  ℕ, ◌+◌, Bool, true, false, not, String, List, [], ◌∷◌, Option, none, some, Result, ok, err, leb,
  ◌==◌, str_eq, if◌then◌else◌,
}
use mailcow_watchdog.Prelude.Int.{ℤ, pos, negsuc}
use mailcow_watchdog.Prelude.Format.{str, int, sprintf}
use mailcow_watchdog.Store.{itoa_ℤ}
use mailcow_watchdog.Probe
use mailcow_watchdog.Probe.Mysql.{or_na}
use mailcow_watchdog.Probe.Talk.{Verdict, Talk, ◌>>=◌, pure, fetch, conclude, Addr, resolve}

-- A response: its code, the line with its text, and its body or the error of reading it.
pub record Response : Type 0 where
  pub code : ℕ
  pub status : String
  pub content : Result String String

-- `build` is `NewRequestWithContext` for a method, a URL and a body; `exchange` is `Do`; `http_url` is
-- the text of a URL with a host, a port and a path; `form` is `url.Values.Encode` of one pair.
pub record Browser (World : Type 0) : Type 1 where
  pub Request : Type 0
  pub build : String → String → String → Result String Request
  pub exchange : Request → World → Result String Response × World
  pub http_url : String → ℕ → String → String
  pub form : String → String → String

-- The last switch of `HTTP.Run`.
unfoldable pub http_verdict : String → String → Response → Verdict
http_verdict name target response =
    if leb 500 response.code
    then Probe.critical "%s: GET %s returned %s" (str name ∷ str target ∷ str response.status ∷ [])
    else if leb 400 response.code
    then Probe.warning "%s: GET %s returned %s" (str name ∷ str target ∷ str response.status ∷ [])
    else Probe.ok "%s: GET %s returned %s" (str name ∷ str target ∷ str response.status ∷ [])

abbrev pub settings_score : ℕ
settings_score = 9999

abbrev pub probe_message : String
probe_message = "To: null@localhost\r\nFrom: watchdog@localhost\r\n\r\nEmpty\r\n"

-- The end of `Rspamd.Run` on the required score with its decimals cut off.
unfoldable pub score_verdict : String → ℤ → Verdict
score_verdict name (pos n) =
    if not (n == settings_score)
    then Probe.critical "%s: settings check failed, score returned: %d (want %d)"
        (str name ∷ int n ∷ int settings_score ∷ [])
    else Probe.ok "%s: settings check succeeded, score returned: %d"
        (str name ∷ int settings_score ∷ [])
score_verdict name (negsuc n) =
    Probe.critical "%s: settings check failed, score returned: %s (want %d)"
      (str name ∷ str (itoa_ℤ (negsuc n)) ∷ int settings_score ∷ [])

-- `Rspamd.Run` after the exchange.
unfoldable pub scan_verdict : (String → Result String ℤ) → String → Response → Verdict
scan_verdict decode name response = elim response.content [
  | err e ↦ Probe.critical "%s: cannot read the scan result: %v" (str name ∷ str e ∷ [])
  | ok body ↦
      if not (response.code == 200)
      then Probe.critical "%s: rspamd answered the scan with %s"
          (str name ∷ str response.status ∷ [])
      else elim (decode body) [
        | err e ↦ Probe.critical "%s: cannot parse the scan result: %v" (str name ∷ str e ∷ [])
        | ok score ↦ score_verdict name score
      ]
]

-- The answer of the relay test.
pub record Report : Type 0 where
  pub response : String
  pub out : String

-- `External`, without the client.
pub record External : Type 0 where
  pub name : String
  pub network : String
  pub url : String
  pub details : String

-- `NewExternal`.
unfoldable pub new_external : String → String → String → External
new_external name network endpoint = record {
  name = name;
  network = network;
  url = endpoint;
  details = "";
}

-- `External.Run` on the decoded report: a failing one is kept for the details.
unfoldable pub report_verdict : External → Report → Verdict × External
report_verdict p reply =
    if str_eq reply.response "critical"
    then (
      Probe.critical "%s: %s reports this installation as an open relay over %s"
          (str p.name ∷ str p.url ∷ str p.network ∷ []),
      record p { details = reply.out },
    )
    else (
      Probe.ok "%s: %s reports %q over %s"
          (str p.name ∷ str p.url ∷ str (or_na reply.response) ∷ str p.network ∷ []),
      p,
    )

-- `External.Run` after the exchange: an endpoint that cannot be asked is no error.
abbrev pub decoded_verdict : External → Result String Report → Verdict × External
decoded_verdict p (ok reply) = report_verdict p reply
decoded_verdict p (err e) = (
  Probe.ok "%s: %s returned an unparsable answer over %s"
      (str p.name ∷ str p.url ∷ str p.network ∷ []),
  p,
)

abbrev pub content_verdict :
    (String → Result String Report) → External → Result String String → Verdict × External
content_verdict decode p (ok body) = decoded_verdict p (decode body)
content_verdict decode p (err e) = (
  Probe.ok "%s: could not read the response over %s: %v" (str p.name ∷ str p.network ∷ str e ∷ []),
  p,
)

unfoldable pub relay_verdict :
    (String → Result String Report) → External → Result String Response → Verdict × External
relay_verdict decode p (ok response) = content_verdict decode p response.content
relay_verdict decode p (err e) = (
  Probe.ok "%s: %s is not reachable over %s: %v"
      (str p.name ∷ str p.url ∷ str p.network ∷ str e ∷ []),
  p,
)

module _ {World : Type 0} (browser : Browser World) where
  -- `HTTP.Run`.
  unfoldable pub run_http : String → ℕ → String → Addr World → World → Option (Verdict × World)
  run_http name port path addr = conclude (do
    host ← resolve addr name
    request ←
        fetch (λ w. (browser.build "GET" (browser.http_url host port path) "", w))
          λ e.
            Probe.unknown "%s: cannot build request for %s: %v"
              (str name ∷ str (browser.http_url host port path) ∷ str e ∷ [])
    response ← fetch (browser.exchange request) λ e.
        Probe.critical "%s: GET %s failed: %v"
          (str name ∷ str (browser.http_url host port path) ∷ str e ∷ [])
    pure (http_verdict name (browser.http_url host port path) response))

  -- `Rspamd.Run`; the client dials the socket.
  unfoldable pub run_rspamd :
      (String → Result String ℤ) → String → String → World → Option (Verdict × World)
  run_rspamd decode name socket = conclude (do
    request ←
        fetch (λ w. (browser.build "POST" "http://rspamd/scan" probe_message, w))
          λ e. Probe.unknown "%s: cannot build the scan request: %v" (str name ∷ str e ∷ [])
    response ←
        fetch (browser.exchange request)
          λ e. Probe.critical "%s: scan through %s failed: %v" (str name ∷ str socket ∷ str e ∷ [])
    pure (scan_verdict decode name response))

  -- `External.Run`; `guid` asks the database.
  unfoldable pub run_external :
      (String → Result String Report)
      → (World → Result String String × World)
      → External
      → World
      → (Verdict × External) × World
  run_external decode guid p w =
      let (id, w₁) = guid w in
      elim id [
        | err e ↦ (
          (Probe.unknown "%s: cannot read the mailcow GUID: %v" (str p.name ∷ str e ∷ []), p),
          w₁,
        )
        | ok id ↦ elim (browser.build "POST" p.url (browser.form "guid" id)) [
          | err e ↦
              ((Probe.unknown "%s: cannot build the request: %v" (str p.name ∷ str e ∷ []), p), w₁)
          | ok request ↦
              let (answer, w₂) = browser.exchange request w₁ in (relay_verdict decode p answer, w₂)
        ]
      ]
