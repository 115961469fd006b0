-- ===== src/Probe/Peer.antt =====
-- The connection that a probe holds its conversation over: the dialer, the TLS handshake and the line
-- protocol of net/textproto, as a record of the calls made of them. Also `trim` of
-- internal/probe/tcp.go, by which an answer is shown in a message.
use mailcow_watchdog.Prelude.{
  ℕ, zero, suc, ◌||◌, String, List, [], ◌∷◌, Option, Result, ltb, ◌==◌, length, if◌then◌else◌,
}
use Prim.Native.Char.{Char, code}
use mailcow_watchdog.Prelude.Text.{Text, codes, char_at, trim_string}
use mailcow_watchdog.Prelude.Format.{concat}
use mailcow_watchdog.Probe.Tcp.{Connection}
use mailcow_watchdog.Probe.Cert.{Certificate}

-- `as_string` is the text of a buffer, `certificates` the peer's chain after a handshake, `read_reply`
-- is `ReadResponse(0)`, and `send_line` is `PrintfLine`.
pub record Peer (World : Type 0) : Type 0 where
  pub dial : String → ℕ → World → Option String × World
  pub handshake : String → World → Option String × World
  pub certificates : World → List Certificate
  pub write : String → World → Option String × World
  pub read : Connection World
  pub as_string : Text → String
  pub send_line : String → World → Option String × World
  pub read_reply : World → Result String (ℕ × String) × World
  pub close : World → World
  pub now : World → ℕ

abbrev flat : Char → Char
flat c = if code c == 10 || code c == 13 then char_at " " 0 c else c

abbrev flattened : String → String
flattened String.[] = String.[]
flattened (String.◌∷◌ c s) = String.◌∷◌ (flat c) (flattened s)

abbrev front : ℕ → String → String
front zero s = String.[]
front (suc n) String.[] = String.[]
front (suc n) (String.◌∷◌ c s) = String.◌∷◌ c (front n s)

-- `trim`; the bytes that Go counts are taken as code points.
unfoldable pub trim : String → String
trim s =
    let t = trim_string (flattened s) in
    if ltb 120 (length (codes t)) then concat (front 120 t ∷ "…" ∷ []) else t
