-- ===== src/Whois.antt =====
-- internal/whois/whois.go: who owns an address. The network is a record of one connection's calls; its
-- deadline is part of the world. The scanner's limit on the length of a line is left out: the answer
-- is capped at the same length.
pub mod Answers
use mailcow_watchdog.Prelude.{
  ℕ, Bool, true, false, not, ◌&&◌, ◌||◌, String, List, [], ◌∷◌, Option, none, some, Result, ok, err,
  str_eq, if◌then◌else◌,
}
use mailcow_watchdog.Prelude.Text.{
  codes, has_prefix, trim_string, lower_string, split_at_char, cut_front,
}
use mailcow_watchdog.Prelude.Format.{str, concat, sprintf}

-- A dial, a write, and a read to the end, which may have got something before it failed.
pub record Network (World : Type 0) : Type 0 where
  pub dial : String → World → Option String × World
  pub write : String → World → Option String × World
  pub read_all : World → (String × Option String) × World

abbrev pub port : String
port = "43"

abbrev pub root_server : String
root_server = "whois.iana.org"

-- What the line says if it is a referral; the empty text otherwise.
abbrev pub referral_of : String → String
referral_of raw =
    let line = trim_string raw in
    if has_prefix (codes (lower_string line)) (codes "refer:")
    then trim_string (cut_front 6 line)
    else ""

-- The loop of `referral` over the lines.
unfoldable pub first_referral : List String → String
first_referral [] = ""
first_referral (line ∷ lines) =
    if str_eq (referral_of line) "" then first_referral lines else referral_of line

-- `referral`.
unfoldable pub referral : String → String
referral answer = first_referral (split_at_char 10 answer)

-- The verdict of `ask` on what was read.
abbrev pub answered : String × Option String → Result String String
answered (body, none) = ok body
answered (body, some e) =
    if str_eq body "" then err (sprintf "reading the answer: %w" (str e ∷ [])) else ok body

-- A partial record beats none.
abbrev pub better : String → Result String String → Result String String
better root (ok detailed) = ok detailed
better root (err e) = ok root

module _ {World : Type 0} (net : Network World) where
  -- `ask`.
  unfoldable pub ask : String → String → World → Result String String × World
  ask server query w =
      let (refused, w₁) = net.dial (concat (server ∷ ":" ∷ port ∷ [])) w in
      let (unsent, w₂) = net.write (concat (query ∷ "\r\n" ∷ [])) w₁ in
      let (got, w₃) = net.read_all w₂ in
      elim refused [
        | some e ↦ (err e, w₁)
        | none ↦ elim unsent [
          | some e ↦ (err (sprintf "sending the query: %w" (str e ∷ [])), w₂)
          | none ↦ (answered got, w₃)
        ]
      ]

  -- What `Lookup` does after the first answer.
  unfoldable pub follow :
      String → String → Result String String → World → Result String String × World
  follow server query (err e) w = (err (sprintf "querying %s: %w" (str server ∷ str e ∷ [])), w)
  follow server query (ok root) w =
      let (second, w') = ask (referral root) query w in
      if str_eq (referral root) "" || str_eq (referral root) server
      then (ok root, w)
      else (better root second, w')

  -- `Lookup`.
  unfoldable pub lookup : String → String → World → Result String String × World
  lookup server query w = let (first, w') = ask server query w in follow server query first w'
