-- ===== src/Notify/Webhook.antt =====
-- internal/notify/webhook.go: posting an alert to an HTTP endpoint. The body is the operator's JSON
-- template with the alert put in; a text is the list of its code points, so that the replacement
-- of invalid UTF-8 does not arise. The HTTP client is a parameter.
pub mod Escaping
pub mod Expansion
use mailcow_watchdog.Prelude.{
  ℕ, zero, suc, ◌+◌, ◌-◌, ◌/◌, ◌%◌, Bool, true, false, ◌&&◌, ◌||◌, String, List, [], ◌∷◌, ◌++◌,
  Option, none, some, Result, ok, err, ltb, leb, ◌==◌, str_eq, if◌then◌else◌,
}
use mathlib.Core.List.{reverse}
use mailcow_watchdog.Prelude.Json.{escape_all}
use mailcow_watchdog.Prelude.Text.{Text, codes, has_prefix, trim_left}
use mailcow_watchdog.Prelude.Format.{str, sprintf}
use mailcow_watchdog.Notify.{Message}

-- `Encode` of a string, with the line feed that it adds.
abbrev pub encode : Text → Text
encode value = b'"' ∷ (escape_all value ++ (b'"' ∷ 10 ∷ []))

abbrev is_lf : ℕ → Bool
is_lf c = c == 10

-- `strings.TrimRight(s, "\n")`, and `strings.TrimPrefix` and `strings.TrimSuffix` of a quote.
abbrev pub trim_lf : Text → Text
trim_lf s = reverse (trim_left is_lf (reverse s))

abbrev pub cut_quote : Text → Text
cut_quote [] = []
cut_quote (c ∷ s) = if c == b'"' then s else c ∷ s

abbrev pub cut_last_quote : Text → Text
cut_last_quote s = reverse (cut_quote (reverse s))

-- `jsonEscape`.
unfoldable pub json_escape : Text → Text
json_escape value = cut_last_quote (cut_quote (trim_lf (encode value)))

-- The placeholders in the order in which the replacer tries them, each with its length.
pub data Name : Type 0 where
  the_subject the_body : Name

abbrev pub value_of : Name → Text → Text → Text
value_of the_subject s b = json_escape s
value_of the_body s b = json_escape b

unfoldable pub placeholder : Text → Option (Name × ℕ)
placeholder s =
    if has_prefix s (codes "${SUBJECT}")
    then some (the_subject, 10)
    else if has_prefix s (codes "$SUBJECT")
    then some (the_subject, 8)
    else if has_prefix s (codes "${BODY}")
    then some (the_body, 7)
    else if has_prefix s (codes "$BODY")
    then some (the_body, 5)
    else none

-- One step of `Replacer.Replace`: what is written, and how many code points after this one are
-- passed over.
abbrev pub replace_at : Text → Text → ℕ → Option (Name × ℕ) → Text × ℕ
replace_at s b c none = (c ∷ [], 0)
replace_at s b c (some (name, n)) = (value_of name s b, n - 1)

-- `Replace`; the number counts the code points of a placeholder that are still to be passed over.
unfoldable pub replace : Text → Text → ℕ → Text → Text
replace s b passed [] = []
replace s b zero (c ∷ template) =
    let (written, passed) = replace_at s b c (placeholder (c ∷ template)) in
    written ++ replace s b passed template
replace s b (suc passed) (c ∷ template) = replace s b passed template

-- `Expand`.
unfoldable pub expand : Text → Message → Text
expand template msg = replace (codes msg.subject) (codes msg.body) 0 template

pub record Webhook : Type 0 where
  pub url : String
  pub template : Text

-- `NewWebhook`.
unfoldable pub new_webhook : String → Text → Option Webhook
new_webhook url template = elim template [
  | [] ↦ none
  | c ∷ rest ↦ if str_eq url "" then none else some (record { url = url; template = c ∷ rest })
]

-- What the HTTP client says of a POST: the request could not be built, the exchange failed, or a
-- status code with its text.
pub data Answer : Type 0 where
  unbuilt : String → Answer
  unanswered : String → Answer
  answered : ℕ → String → Answer

-- The verdict of `Send`: the codes 200 to 299 are a success.
unfoldable pub post_verdict : Answer → Option String
post_verdict (unbuilt e) = some (sprintf "building the webhook request: %w" (str e ∷ []))
post_verdict (unanswered e) = some (sprintf "posting to the webhook: %w" (str e ∷ []))
post_verdict (answered code text) =
    if ltb code 200 || leb 300 code
    then some (sprintf "the webhook answered %s" (str text ∷ []))
    else none

-- `Send`.
unfoldable pub post :
    {World : Type 0}
    → (String → Text → World → Answer × World)
    → Webhook
    → Message
    → World
    → Option String × World
post client hook msg w =
    let (answer, w') = client hook.url (expand hook.template msg) w in (post_verdict answer, w')
