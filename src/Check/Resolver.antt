-- ===== src/Check/Resolver.antt =====
-- internal/check/resolver.go: how a check finds the address of a service.
use mailcow_watchdog.Prelude.{String, List}
use mailcow_watchdog.DockerApi.{Container, Transport, Client, ip}
use mailcow_watchdog.Probe.Talk.{Addr, static_addr}

-- `DNSResolver.Addr`: the name goes to the dialer as it is.
unfoldable pub dns_addr : {World : Type 0} → String → Addr World
dns_addr = static_addr

-- `APIResolver.Addr`: every round asks again.
unfoldable pub api_addr :
    {World : Type 0}
    → Transport World
    → (List Container → List Container)
    → Client
    → String
    → Addr World
api_addr = ip
