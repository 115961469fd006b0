-- ===== src/Tests/Channels.antt =====
-- Concrete alerts through the notification channels.
use mailcow_watchdog.Prelude.{
  ℕ, ◌+◌, ◌≡◌, refl, true, false, String, List, [], ◌∷◌, some, none, ok, str_eq, if◌then◌else◌,
}
use mailcow_watchdog.Prelude.Text.{codes, has_suffix}
use mailcow_watchdog.Prelude.Format.{itoa}
use mailcow_watchdog.Prelude.Net.{join_host_port, join_host_with, after_at}
use mailcow_watchdog.Notify.{Message}
use mailcow_watchdog.Notify.Smtp.{
  Mailer, Sender, crlf, normalise_newlines, compose, submit, deliver_to, try_each, deliver_via,
  deliver,
}
use mailcow_watchdog.Notify.Smtp.Exchangers.{Taken, deliver_lem, try_each-repeats}
use mailcow_watchdog.Notify.Smtp.Newlines.{normalise_newlines_lem}
use mailcow_watchdog.Notify.Webhook.{the_subject, the_body}
use mailcow_watchdog.Notify.Webhook.Expansion.{Piece, chars, braced, bare}

abbrev alert : Message
alert = record { service = "Nginx"; subject = "Watchdog: \"Nginx\""; body = "down\nagain" }

abbrev sender : Sender
sender = record {
  from = "watchdog@example.org";
  helo = "mail.example.org";
  recipients = "admin@example.org" ∷ "nobody" ∷ [];
  port = 25;
}

-- The first exchanger refuses the connection.
abbrev pub mailer : Mailer ℕ
mailer = record {
  lookup_mx = λ domain w. (ok ("mx1" ∷ "mx2" ∷ []), w);
  dial = λ address w. (if str_eq address "mx1:25" then some "refused" else none, w + 1);
  start = λ host w. (none, w);
  hello = λ name w. (none, w);
  offers_tls = λ w. false;
  start_tls = λ host w. (none, w);
  mail = λ from w. (none, w);
  rcpt = λ to w. (none, w);
  begin_data = λ w. (none, w);
  write = λ body w. (none, w);
  end_data = λ w. (none, w + 1);
  quit = λ w. (none, w);
  close_client = λ w. w;
  close_conn = λ w. w;
  date = λ w. "today";
  unix_nano = λ w. w;
  q_encode = λ s. s;
}

mailer-delivers : deliver mailer sender "admin@example.org" alert 0 ≡ (none, 3)
unfolding deliver deliver_via try_each deliver_to submit join_host_port join_host_with itoa after_at
mailer-delivers = refl

deliver_lem_example :
    (domain : String) × (hosts : List String) × (after_at "admin@example.org" ≡ some domain)
    × ((mailer.lookup_mx domain 0).0 ≡ ok hosts)
    × Taken mailer sender "admin@example.org"
        (compose mailer sender "admin@example.org" alert 0)
        hosts
        0
        3
deliver_lem_example = (deliver_lem mailer sender "admin@example.org" alert 0 3).0 mailer-delivers

-- A peer that closes the connection in place of an answer to QUIT.
abbrev hasty : Mailer ℕ
hasty = record mailer { quit = λ w. (some "EOF", w) }

try_each-repeats_example :
    (try_each hasty sender ("mx2" ∷ "mx3" ∷ []) "admin@example.org" [] 0).1
    ≡ (try_each hasty sender ("mx3" ∷ []) "admin@example.org" [] 2).1
unfolding submit join_host_port join_host_with itoa
try_each-repeats_example =
    (try_each-repeats hasty sender "mx2" "admin@example.org" ("mx3" ∷ []) [] 0 "EOF" refl refl refl
      refl).0

normalise_newlines_lem_example : has_suffix (normalise_newlines (codes "down\nagain")) crlf ≡ true
normalise_newlines_lem_example = (normalise_newlines_lem (codes "down\nagain")).0

abbrev pieces : List Piece
pieces = braced the_subject ∷ chars (codes ": ") ∷ bare the_body ∷ []
