-- ===== src/Tests/Published.antt =====
-- Concrete inputs for the addresses of containers and for the metrics.
use mailcow_watchdog.Prelude.{ℕ, ◌+◌, ◌≡◌, refl, true, List, [], ◌∷◌, none, ok, err, Some, str_eq}
use mailcow_watchdog.Health.{Status}
use mailcow_watchdog.DockerApi.{
  Container, Client, InspectRecord, Transport, field_of, addresses, normalise_inspect, pick_address,
  first_address, list, ip,
}
use mailcow_watchdog.DockerApi.Dialects.{mailcow}
use mailcow_watchdog.DockerApi.Addressing.{HasNetworkPrefix, ip_lem}
use mailcow_watchdog.Metrics.{Build, probe_total}
use mailcow_watchdog.Metrics.History
use mailcow_watchdog.Metrics.History.{published, published_lem}

abbrev ours : Client
ours = record { dialect = mailcow; project = "mailcow"; ipv4_network = "172.22.1" }

abbrev attached : InspectRecord
attached = record {
  id = "4f2a";
  labels =
      ("com.docker.compose.service", "nginx-mailcow")
      ∷ ("com.docker.compose.project", "mailcow")
      ∷ [];
  networks = ("other", "10.0.0.4") ∷ ("mailcow", "172.22.1.9") ∷ [];
  started_at = "2026-01-01T00:00:00Z";
}

abbrev daemon : Transport ℕ
daemon = record {
  list_summaries = λ w. (ok [], w);
  list_inspects = λ w. (ok (attached ∷ []), w + 1);
  inspect_one = λ id w. (err "not found", w + 1);
  restart_one = λ id w. (none, w + 1);
  top = λ d id w. (ok [], w + 1);
}

daemon-addresses : (ip daemon (λ ks. ks) ours "nginx-mailcow" 0).0 ≡ ok "172.22.1.9"
unfolding ip list normalise_inspect field_of addresses pick_address first_address
daemon-addresses = refl

ip_lem_example :
    (ks : List Container) × ((list daemon ours 0).0 ≡ ok ks)
    × Some
        (λ k.
          (str_eq k.service "nginx-mailcow" ≡ true)
          × Some (HasNetworkPrefix ours "172.22.1.9") k.networks)
        ks
ip_lem_example =
    ip_lem ours daemon (λ ks. ks) "nginx-mailcow" 0 "172.22.1.9" (λ P ks h. h) daemon-addresses

abbrev build : Build
build = record { version = "1.0"; date = "2026-01-01" }

abbrev reports : List (History.Call ℕ)
reports =
    History.death "nginx"
    ∷ History.probe "nginx" "http" Status.critical 2
    ∷ History.probe "nginx" "http" Status.critical 1
    ∷ History.check "nginx" 5
    ∷ []

published_lem_example :
    (published build reports).value (probe_total, "nginx" ∷ "http" ∷ "CRITICAL" ∷ []) ≡ 2
published_lem_example =
    (published_lem build reports "nginx" "http" Status.critical "nginx-mailcow" "done").0
