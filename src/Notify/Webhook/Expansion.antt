-- ===== src/Notify/Webhook/Expansion.antt =====
-- What an expanded template says.
use mailcow_watchdog.Prelude.{ℕ, ◌<◌, ◌≢◌, List, [], ◌∷◌, ◌++◌, All}
use mailcow_watchdog.Prelude.Text.{Text, codes}
use mailcow_watchdog.Notify.{Message}
use mailcow_watchdog.Notify.Webhook.{Name, the_subject, the_body, replace}

-- A piece of a template: a text, or a placeholder with or without braces.
pub data Piece : Type 0 where
  chars : Text → Piece
  braced bare : Name → Piece

abbrev pub written : Piece → Text
written (chars t) = t
written (braced the_subject) = codes "${SUBJECT}"
written (braced the_body) = codes "${BODY}"
written (bare the_subject) = codes "$SUBJECT"
written (bare the_body) = codes "$BODY"

abbrev pub template_of : List Piece → Text → Text
template_of [] rest = rest
template_of (p ∷ ps) rest = written p ++ template_of ps rest

abbrev field : Name → Message → Text
field the_subject msg = codes msg.subject
field the_body msg = codes msg.body

-- What a piece stands for.
abbrev pub meaning : Message → Piece → Text
meaning msg (chars t) = t
meaning msg (braced n) = field n msg
meaning msg (bare n) = field n msg

abbrev pub meanings : Message → List Piece → Text
meanings msg [] = []
meanings msg (p ∷ ps) = meaning msg p ++ meanings msg ps

abbrev pub NoDollar : ℕ → Type 0
NoDollar c = c ≢ b'$'

-- What may stand for itself in a literal of a template.
abbrev pub IsOrdinary : ℕ → Type 0
IsOrdinary c = (c ≢ b'$') × (c ≢ b'"') × (c ≢ b'\\') × (0x1f < c)

abbrev pub IsOrdinaryPiece : Piece → Type 0
IsOrdinaryPiece (chars t) = All IsOrdinary t
IsOrdinaryPiece _ = Unit {0}

module _ (msg : Message) where
  expanded : Text → Text
  expanded t = replace (codes msg.subject) (codes msg.body) 0 t
