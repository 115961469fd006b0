-- ===== src/Probe/Ipv6.antt =====
-- internal/probe/ipv6.go: the IPv6 address of the installation, asked for once at startup. The HTTP
-- client, the timer, the random source and the address types of package net are parameters.
pub mod Attempts
use mailcow_watchdog.Prelude.{
  ℕ, zero, suc, ◌-◌, Bool, true, false, not, ◌&&◌, String, List, [], ◌∷◌, Option, none, some,
  Result, ok, err, str_eq, any, if◌then◌else◌,
}
use mailcow_watchdog.Prelude.Text.{trim_string}
use mailcow_watchdog.Prelude.Format.{str, sprintf}

abbrev pub ipv6_sources : List String
ipv6_sources = "https://ip6.mailcow.email" ∷ "https://ip6.nevondo.com" ∷ []

abbrev pub ipv6_attempts : ℕ
ipv6_attempts = 10

-- `get` is the request of `ask` up to the body that was read, with any error; `sleep` says whether the
-- context was cancelled; `choose` draws a source; `is_ipv6` is `net.ParseIP` with `To4`.
pub record Reflectors (World : Type 0) : Type 0 where
  pub get : String → World → Result String String × World
  pub sleep : World → Option String × World
  pub choose : World → String × World
  pub is_ipv6 : String → Bool

module _ {World : Type 0} (net : Reflectors World) where
  -- `ask`: what is not an IPv6 address is no answer.
  abbrev pub candidate : Result String String → String
  candidate (err e) = ""
  candidate (ok body) = if net.is_ipv6 (trim_string body) then trim_string body else ""

  unfoldable pub ask : String → World → String × World
  ask source w = let (answer, w') = net.get source w in (candidate answer, w')

  -- One round of `Address`: a source and its answer.
  unfoldable pub ask_one : World → String × World
  ask_one w = let (source, w₁) = net.choose w in ask source w₁

  -- The loop of `Address` after its first attempt, for so many more attempts.
  unfoldable pub ask_again : ℕ → String → World → String × World
  ask_again zero addr w = (addr, w)
  ask_again (suc n) addr w =
      let (cancelled, w₁) = net.sleep w in
      let (next, w₂) = ask_one w₁ in
      let rest = ask_again n next w₂ in
      let more : String × World = elim cancelled [ some e ↦ ("", w₁) | none ↦ rest ] in
      if str_eq addr "" then more else (addr, w)

  -- `Address`.
  unfoldable pub address : World → String × World
  address w = let (first, w₁) = ask_one w in ask_again (ipv6_attempts - 1) first w₁

-- The addresses of an interface: one of the two types that carry an IP, or another type.
pub data LocalAddr : Type 0 where
  with_ip : String → LocalAddr
  without_ip : LocalAddr

-- `addrIP`.
unfoldable pub addr_ip : LocalAddr → Option String
addr_ip (with_ip ip) = some ip
addr_ip without_ip = none

-- What package net says of networks and addresses.
pub record Networks : Type 1 where
  pub Prefix : Type 0
  pub parse_cidr : String → Result String Prefix
  pub holds : Prefix → String → Bool
  pub is_ipv4 : String → Bool

module _ (net : Networks) where
  open net use {Prefix, parse_cidr, holds, is_ipv4}

  abbrev pub is_inside : Prefix → LocalAddr → Bool
  is_inside prefix addr = elim (addr_ip addr) [
    | none ↦ false
    | some ip ↦ if is_ipv4 ip then false else holds prefix ip
  ]

  -- `IPv6Configured`.
  unfoldable pub ipv6_configured : String → Result String (List LocalAddr) → Result String Bool
  ipv6_configured network addrs =
      if str_eq (trim_string network) ""
      then ok false
      else elim (parse_cidr (trim_string network)) [
        | err e ↦
            err (
              sprintf "IPV6_NETWORK %q is not a network in CIDR form: %w"
                (str network ∷ str e ∷ []))
        | ok prefix ↦ elim addrs [
          | err e ↦ err (sprintf "reading the local interface addresses: %w" (str e ∷ []))
          | ok local ↦ ok (any (is_inside prefix) local)
        ]
      ]
