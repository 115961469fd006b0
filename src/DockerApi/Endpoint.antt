-- ===== src/DockerApi/Endpoint.antt =====
-- internal/dockerapi/dockerapi.go: how `New` makes a client of its options. What `url.Parse` makes of the
-- URL is a parameter; the HTTP transport and the dialers are described by what they dial.
use mailcow_watchdog.Prelude.{Bool, ◌||◌, String, [], ◌∷◌, Result, ok, err, str_eq, if◌then◌else◌}
use mailcow_watchdog.Prelude.Text.{lower_string}
use mailcow_watchdog.Prelude.Format.{str, sprintf}
use mailcow_watchdog.Prelude.Net.{join_host_with, trim_suffix}
use mailcow_watchdog.DockerApi.{Client}
use mailcow_watchdog.DockerApi.Dialects.{Dialect, mailcow, engine, effective_dialect}

abbrev pub unix_authority : String
unix_authority = "http://docker"

pub record Options : Type 0 where
  pub base_url : String
  pub project : String
  pub ipv4_network : String
  pub dialect : Dialect

-- A parsed URL, with its `Hostname()` and `Port()`.
pub record ParsedUrl : Type 0 where
  pub scheme : String
  pub host : String
  pub hostname : String
  pub port : String
  pub path : String
  pub opaque : String

-- What the client dials for a request and for its reachability probe: a socket, or an address, with a
-- TLS handshake if it is secure.
pub data Dialed : Type 0 where
  unix_socket : String → Dialed
  tcp : String → Bool → Dialed

pub record Endpoint : Type 0 where
  pub base_url : String
  pub dialed : Dialed
  pub implied : Dialect

-- `reachPort`.
unfoldable pub reach_port : ParsedUrl → String
reach_port url =
    if str_eq url.port "" then (if str_eq url.scheme "http" then "80" else "443") else url.port

-- The two cases of the switch of `New` that succeed.
abbrev pub socket_of : ParsedUrl → String
socket_of url = if str_eq url.path "" then url.opaque else url.path

abbrev pub unix_endpoint : Options → ParsedUrl → Result String Endpoint
unix_endpoint opts url =
    if str_eq (socket_of url) ""
    then err (sprintf "the docker API URL %q names no socket path" (str opts.base_url ∷ []))
    else ok (record {
      base_url = unix_authority;
      dialed = unix_socket (socket_of url);
      implied = engine;
    })

abbrev pub tcp_endpoint : Options → ParsedUrl → Result String Endpoint
tcp_endpoint opts url =
    if str_eq url.host ""
    then err (sprintf "the docker API URL %q has no host" (str opts.base_url ∷ []))
    else ok (record {
      base_url = trim_suffix url.path (trim_suffix "/" opts.base_url);
      dialed = tcp (join_host_with url.hostname (reach_port url)) (str_eq url.scheme "https");
      implied = mailcow;
    })

-- The switch of `New` over the scheme.
unfoldable pub endpoint_of : Options → ParsedUrl → Result String Endpoint
endpoint_of opts url =
    if str_eq url.scheme "unix"
    then unix_endpoint opts url
    else if str_eq url.scheme "https" || str_eq url.scheme "http"
    then tcp_endpoint opts url
    else if str_eq url.scheme ""
    then err (
        sprintf "the docker API URL %q has no scheme, want https:// or unix://"
          (str opts.base_url ∷ []))
    else err
        (sprintf "unsupported docker API scheme %q, want https:// or unix://" (str url.scheme ∷ []))

abbrev pub client_of : Options → Endpoint → Client
client_of opts endpoint = record {
  dialect = effective_dialect opts.dialect endpoint.implied;
  project = lower_string opts.project;
  ipv4_network = opts.ipv4_network;
}

-- `New`.
unfoldable pub new_client :
    (String → Result String ParsedUrl) → Options → Result String (Client × Endpoint)
new_client parse opts = elim (parse opts.base_url) [
  | err e ↦ err (sprintf "parsing the docker API URL %q: %w" (str opts.base_url ∷ str e ∷ []))
  | ok url ↦ elim (endpoint_of opts url) [
    | err e ↦ err e
    | ok endpoint ↦ ok (client_of opts endpoint, endpoint)
  ]
]
