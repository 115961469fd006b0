-- ===== src/Notify.antt =====
-- internal/notify/notify.go: rendering an alert, the throttle, and the fan-out to the channels. A
-- channel acts on the world outside; an error is its text. A time is its `time.UnixDate` form.
pub mod Delivery
pub mod Rendering
pub mod Smtp
pub mod Webhook
use mailcow_watchdog.Prelude.{
  ℕ, ◌+◌, Bool, true, false, String, List, [], ◌∷◌, Option, none, some, Result, ok, err, ltb,
  str_eq, if◌then◌else◌, not,
}
use mailcow_watchdog.Prelude.Format.{concat, str, sprintf}

abbrev pub fail2ban_service : String
fail2ban_service = "fail2ban"

abbrev pub default_body : String
default_body = "Service was restarted on %s, please check your mailcow installation."

abbrev pub fail2ban_body : String
fail2ban_body = "Please see netfilter-mailcow for more details and triggered rules."

-- The throttle is a duration; zero delivers every alert.
pub record Alert : Type 0 where
  pub service : String
  pub message : String
  pub details : String
  pub throttle : ℕ

pub record Message : Type 0 where
  pub service : String
  pub subject : String
  pub body : String

-- `Render`.
unfoldable pub render : Alert → String → String → Message
render alert subject_prefix stamp =
    let text =
      if str_eq alert.message ""
      then sprintf default_body (str stamp ∷ [])
      else concat (stamp ∷ " - " ∷ alert.message ∷ []) in
    let headline = concat (subject_prefix ∷ ": " ∷ alert.service ∷ []) in
    let is_ban = str_eq alert.service fail2ban_service in
    let subject = if is_ban then text else headline in
    let body = if is_ban then fail2ban_body else text in
    record {
      service = alert.service;
      subject = subject;
      body = if str_eq alert.details "" then body else alert.details;
    }

-- A `Notifier`: it may fail.
abbrev pub Notifier : Type 0 → Type 0
Notifier World = Message → World → Option String × World

-- `NewMulti` skips the nil entries.
unfoldable pub new_multi : {World : Type 0} → List (Option (Notifier World)) → List (Notifier World)
new_multi [] = []
new_multi (none ∷ channels) = new_multi channels
new_multi (some channel ∷ channels) = channel ∷ new_multi channels

-- `Enabled`.
unfoldable pub enabled : {World : Type 0} → List (Notifier World) → Bool
enabled [] = false
enabled (_ ∷ _) = true

abbrev pub failure : Option String → List String → List String
failure none errs = errs
failure (some e) errs = e ∷ errs

-- The loop of `Multi.Send`: the errors of the channels, in order.
unfoldable pub send_each :
    {World : Type 0} → List (Notifier World) → Message → World → List String × World
send_each [] msg w = ([], w)
send_each (channel ∷ channels) msg w =
    let (failed, w') = channel msg w in
    let (errs, w'') = send_each channels msg w' in (failure failed errs, w'')

-- `errors.Join`: nil if there is no error; the texts otherwise, one to a line.
unfoldable pub join_errors : List String → Option String
join_errors [] = none
join_errors (e ∷ []) = some e
join_errors (e ∷ f ∷ errs) = elim (join_errors (f ∷ errs)) [
  | none ↦ some e
  | some rest ↦ some (concat (e ∷ "\n" ∷ rest ∷ []))
]

-- `Multi.Send`.
unfoldable pub send_all : {World : Type 0} → List (Notifier World) → Notifier World
send_all channels msg w = let (errs, w') = send_each channels msg w in (join_errors errs, w')

-- `Reserver`: whether the caller may go on, and how long it has to wait if not.
abbrev pub Reserver : Type 0 → Type 0
Reserver World = String → ℕ → World → Result String (Bool × ℕ) × World

pub record Dispatcher (World : Type 0) : Type 0 where
  pub notifier : Option (Notifier World)
  pub reserver : Option (Reserver World)
  pub subject_prefix : String
  pub now : World → String

-- The verdict of the throttle: a failed reservation fails open.
abbrev pub allows : Result String (Bool × ℕ) → Bool
allows (err _) = true
allows (ok (allowed, _)) = allowed

-- The throttle of `Dispatch`: asked only for a positive throttle and if there is a reserver.
unfoldable pub admit : {World : Type 0} → Option (Reserver World) → Alert → World → Bool × World
admit none alert w = (true, w)
admit (some reserve) alert w =
    let (answer, w') = reserve alert.service alert.throttle w in
    if ltb 0 alert.throttle then (allows answer, w') else (true, w)

-- The last step of `Dispatch`.
abbrev pub deliver :
    {World : Type 0} → Dispatcher World → Notifier World → Alert → World → Option String × World
deliver d send alert w = send (render alert d.subject_prefix (d.now w)) w

-- `Dispatch`.
unfoldable pub dispatch :
    {World : Type 0} → Dispatcher World → Alert → World → Option String × World
dispatch d alert w = elim d.notifier [
  | none ↦ (none, w)
  | some send ↦
      let (allowed, w') = admit d.reserver alert w in
      if allowed then deliver d send alert w' else (none, w')
]
