-- ===== src/Notify/Rendering.antt =====
-- What the subject and the body of an alert hold.
use mailcow_watchdog.Prelude.{◌≡◌, ◌≢◌, String, [], ◌∷◌, arith, str_eq, eq_iff, if◌then◌else◌}
use mailcow_watchdog.Prelude.Format.{concat, str, sprintf}
use mailcow_watchdog.Notify.{Alert, render, fail2ban_service, fail2ban_body, default_body}

-- The text that tells what happened.
abbrev pub headline_text : Alert → String → String
headline_text alert stamp =
    if str_eq alert.message ""
    then sprintf default_body (str stamp ∷ [])
    else concat (stamp ∷ " - " ∷ alert.message ∷ [])

-- The service is passed on unchanged. A transcript, if there is one, is the body of every alert.
-- For a ban the text goes into the subject, and without a transcript the body is the fixed hint;
-- any other alert has the prefix and the service as its subject, and without a transcript the text
-- is the body.
pub render_lem :
    (alert : Alert) (prefix stamp : String)
    → let m = render alert prefix stamp in
      (m.service ≡ alert.service)
      × (alert.details ≢ "" → m.body ≡ alert.details)
      × (alert.service ≡ fail2ban_service
          → (m.subject ≡ headline_text alert stamp) × (alert.details ≡ "" → m.body ≡ fail2ban_body))
      × (alert.service ≢ fail2ban_service
          → (m.subject ≡ concat (prefix ∷ ": " ∷ alert.service ∷ []))
            × (alert.details ≡ "" → m.body ≡ headline_text alert stamp))
unfolding render
render_lem alert prefix stamp =
    ground (arith, eq_iff alert.details "", eq_iff alert.service fail2ban_service)
