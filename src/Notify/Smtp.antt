-- ===== src/Notify/Smtp.antt =====
-- internal/notify/smtp.go: delivering an alert to the mail exchangers of each recipient. The resolver,
-- the connection and the client of net/smtp are a record of the calls made of them; an error is
-- its text. Deadlines are part of the world, and a message is the list of its code points.
pub mod Exchangers
pub mod Newlines
use mailcow_watchdog.Prelude.{
  ℕ, ◌+◌, Bool, true, false, ◌&&◌, String, List, [], ◌∷◌, ◌++◌, Option, none, some, Result, ok, err,
  map, ltb, ◌==◌, str_eq, any, if◌then◌else◌,
}
use Prim.Native.Char.{code}
use mailcow_watchdog.Prelude.Text.{Text, codes, has_suffix}
use mailcow_watchdog.Prelude.Format.{concat, str, int, sprintf}
use mailcow_watchdog.Prelude.Net.{join_host_port, after_at}
use mailcow_watchdog.Notify.{Message, failure, join_errors}

abbrev pub smtp_port : ℕ
smtp_port = 25

-- A call that may fail.
abbrev pub Call : Type 0 → Type 0
Call World = World → Option String × World

-- `start` is `smtp.NewClient`, which reads the greeting; `offers_tls` is what `Extension` says of
-- STARTTLS; `begin_data`, `write` and `end_data` are `Data` and the two calls of its writer.
-- `q_encode` is `mime.QEncoding.Encode`.
pub record Mailer (World : Type 0) : Type 0 where
  pub lookup_mx : String → World → Result String (List String) × World
  pub dial : String → Call World
  pub start : String → Call World
  pub hello : String → Call World
  pub offers_tls : World → Bool
  pub start_tls : String → Call World
  pub mail : String → Call World
  pub rcpt : String → Call World
  pub begin_data : Call World
  pub write : Text → Call World
  pub end_data : Call World
  pub quit : Call World
  pub close_client : World → World
  pub close_conn : World → World
  pub date : World → String
  pub unix_nano : World → ℕ
  pub q_encode : String → String

-- `SMTPSender` and `SMTPOptions`, without the functions, which the mailer holds.
pub record Sender : Type 0 where
  pub from : String
  pub helo : String
  pub recipients : List String
  pub port : ℕ

-- `NewSMTP`: no sender without a recipient.
unfoldable pub new_smtp : Sender → Option Sender
new_smtp opts = elim opts.recipients [
  | [] ↦ none
  | _ ∷ _ ↦ some (record opts { port = if opts.port == 0 then smtp_port else opts.port })
]

-- `DefaultMXLookup` on the records of the resolver: sorted by preference, in a stable way, and
-- without the final dot of the host.
abbrev pub insert_mx : ℕ × String → List (ℕ × String) → List (ℕ × String)
insert_mx r [] = r ∷ []
insert_mx r (q ∷ qs) = if ltb q.0 r.0 then q ∷ insert_mx r qs else r ∷ q ∷ qs

unfoldable pub sort_mx : List (ℕ × String) → List (ℕ × String)
sort_mx [] = []
sort_mx (r ∷ rs) = insert_mx r (sort_mx rs)

-- `strings.TrimSuffix(host, ".")`.
abbrev trim_dot : String → String
trim_dot String.[] = String.[]
trim_dot (String.◌∷◌ c String.[]) = if code c == b'.' then String.[] else String.◌∷◌ c String.[]
trim_dot (String.◌∷◌ c (String.◌∷◌ d s)) = String.◌∷◌ c (trim_dot (String.◌∷◌ d s))

unfoldable pub default_mx_lookup : Result String (List (ℕ × String)) → Result String (List String)
default_mx_lookup (err e) = err e
default_mx_lookup (ok records) = ok (map (λ r. trim_dot r.1) (sort_mx records))

-- `strings.ReplaceAll(body, "\r\n", "\n")`: a carriage return goes if a line feed follows.
abbrev pub starts_line : Text → Bool
starts_line [] = false
starts_line (c ∷ s) = c == 10

unfoldable pub to_lf : Text → Text
to_lf [] = []
to_lf (c ∷ s) = if c == 13 && starts_line s then to_lf s else c ∷ to_lf s

-- `strings.ReplaceAll(body, "\n", "\r\n")`.
unfoldable pub to_crlf : Text → Text
to_crlf [] = []
to_crlf (c ∷ s) = if c == 10 then 13 ∷ 10 ∷ to_crlf s else c ∷ to_crlf s

abbrev pub crlf : Text
crlf = 13 ∷ 10 ∷ []

-- `normaliseNewlines`.
unfoldable pub normalise_newlines : Text → Text
normalise_newlines body =
    let text = to_crlf (to_lf body) in if has_suffix text crlf then text else text ++ crlf

-- `encodeHeader`: a text with a byte above 127 has a code point above 127.
unfoldable pub encode_header : (String → String) → String → String
encode_header q_encode value = if any (λ c. ltb 127 c) (codes value) then q_encode value else value

-- `s >> t` runs t if s succeeded.
infixr 5 ◌>>◌
abbrev pub ◌>>◌ : {World : Type 0} → Call World → Call World → Call World
◌>>◌ s t w =
    let (failed, w') = s w in
    let next = t w' in elim failed [ some why ↦ (some why, w') | none ↦ next ]

abbrev labelled : {World : Type 0} → String → Call World → Call World
labelled what step w =
    let (failed, w') = step w in
    (elim failed [ some why ↦ some (concat (what ∷ ": " ∷ why ∷ [])) | none ↦ none ], w')

-- One more error in front, if the rest failed too.
abbrev pub and_error : String → Option (List String) → Option (List String)
and_error e none = none
and_error e (some errs) = some (e ∷ errs)

module _ {World : Type 0} (m : Mailer World) (s : Sender) where
  -- `compose`.
  unfoldable pub compose : String → Message → World → Text
  compose rcpt msg w =
      codes (
        concat (
          sprintf "Date: %s\r\n" (str (m.date w) ∷ [])
          ∷ sprintf "From: %s\r\n" (str s.from ∷ [])
          ∷ sprintf "To: %s\r\n" (str rcpt ∷ [])
          ∷ sprintf "Subject: %s\r\n" (str (encode_header m.q_encode msg.subject) ∷ [])
          ∷ sprintf "Message-ID: <%d.%s>\r\n" (int (m.unix_nano w) ∷ str s.from ∷ [])
          ∷ "X-Priority: 1\r\n"
          ∷ "MIME-Version: 1.0\r\n"
          ∷ "Content-Type: text/plain; charset=UTF-8\r\n"
          ∷ "Content-Transfer-Encoding: 8bit\r\n"
          ∷ "\r\n"
          ∷ []))
      ++ normalise_newlines (codes msg.body)

  -- The opportunistic encryption of `deliverTo`.
  abbrev pub secure : String → Call World
  secure host w =
      let encrypted = labelled "STARTTLS" (m.start_tls host) w in
      if m.offers_tls w then encrypted else (none, w)

  -- `deliverTo` from EHLO to the end of the data.
  unfoldable pub submit : String → String → Text → Call World
  submit host rcpt body =
      labelled "EHLO" (m.hello s.helo)
      >> secure host
      >> labelled "MAIL FROM" (m.mail s.from)
      >> labelled "RCPT TO" (m.rcpt rcpt)
      >> labelled "DATA" m.begin_data
      >> labelled "writing the message" (m.write body)
      >> labelled "finishing the message" m.end_data

  -- `deliverTo`, with the deferred `Close` of the client and of the connection.
  unfoldable pub deliver_to : String → String → Text → Call World
  deliver_to host rcpt body w =
      let (refused, w₁) = m.dial (join_host_port host s.port) w in
      let (silent, w₂) = labelled "starting the SMTP session" (m.start host) w₁ in
      let (failed, w₃) = (submit host rcpt body >> m.quit) w₂ in
      elim refused [
        | some e ↦ (some e, w₁)
        | none ↦ elim silent [
          | some e ↦ (some e, m.close_conn w₂)
          | none ↦ (failed, m.close_conn (m.close_client w₃))
        ]
      ]

  -- The loop of `deliver` over the exchangers: none once one of them has succeeded, else the errors
  -- of all.
  unfoldable pub try_each : List String → String → Text → World → Option (List String) × World
  try_each [] rcpt body w = (some [], w)
  try_each (host ∷ hosts) rcpt body w =
      let (failed, w₁) = deliver_to host rcpt body w in
      let (rest, w₂) = try_each hosts rcpt body w₁ in
      elim failed [
        | none ↦ (none, w₁)
        | some e ↦ (and_error (concat (host ∷ ": " ∷ e ∷ [])) rest, w₂)
      ]

  -- What `deliver` does with the answer to its look-up.
  unfoldable pub deliver_via : Result String (List String) → String → String → Message → Call World
  deliver_via (err e) domain rcpt msg w =
      (some (sprintf "looking up the MX for %s: %w" (str domain ∷ str e ∷ [])), w)
  deliver_via (ok []) domain rcpt msg w =
      (some (sprintf "%s has no MX record" (str domain ∷ [])), w)
  deliver_via (ok (host ∷ hosts)) domain rcpt msg w =
      let (failed, w') = try_each (host ∷ hosts) rcpt (compose rcpt msg w) w in
      (elim failed [ none ↦ none | some errs ↦ join_errors errs ], w')

  -- `deliver`.
  unfoldable pub deliver : String → Message → Call World
  deliver rcpt msg w = elim (after_at rcpt) [
    | none ↦ (some (sprintf "%q is not an address" (str rcpt ∷ [])), w)
    | some domain ↦ let (hosts, w') = m.lookup_mx domain w in deliver_via hosts domain rcpt msg w'
  ]

  -- The loop of `Send` over the recipients.
  unfoldable pub deliver_each : List String → Message → World → List String × World
  deliver_each [] msg w = ([], w)
  deliver_each (rcpt ∷ rcpts) msg w =
      let (failed, w₁) = deliver rcpt msg w in
      let (errs, w₂) = deliver_each rcpts msg w₁ in
      (
        elim failed [
          | none ↦ errs
          | some e ↦ sprintf "delivering to %s: %w" (str rcpt ∷ str e ∷ []) ∷ errs
        ],
        w₂,
      )

  -- `Send`.
  unfoldable pub send : Message → Call World
  send msg w = let (errs, w') = deliver_each s.recipients msg w in (join_errors errs, w')
