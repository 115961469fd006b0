-- ===== src/Store/Sanitized.antt =====
-- What `Sanitize` promises of a message.
use Prim.Native.Char.{Char, code}
use mailcow_watchdog.Prelude.{
  ℕ, ◌≡◌, refl, ap, ◌∙◌, Bool, true, false, String, Bool-cases, inl, inr, [], ◌∷◌, any,
  if◌then◌else◌, arith, map,
}
use mailcow_watchdog.Prelude.Text.{Text, codes, char_at}
use mailcow_watchdog.Store.{is_sanitized, sanitize}

-- What becomes of one code point.
abbrev pub replaced : ℕ → ℕ
replaced c = if is_sanitized c then b' ' else c

code-if :
    (b : Bool) (c : Char) → code (if b then char_at " " 0 c else c) ≡ (if b then b' ' else code c)
code-if true c = refl
code-if false c = refl

sanitize-codes : (s : String) → codes (sanitize s) ≡ map replaced (codes s)
unfolding sanitize
sanitize-codes String.[] = refl
sanitize-codes (String.◌∷◌ c s) =
    ap (λ x. x ∷ codes (sanitize s)) (code-if (is_sanitized (code c)) c)
    ∙ ap (λ l. replaced (code c) ∷ l) (sanitize-codes s)

replaced-allowed : (c : ℕ) → is_sanitized (replaced c) ≡ false
unfolding is_sanitized
replaced-allowed c = elim (Bool-cases (is_sanitized c)) [
  | inl e ↦ ap is_sanitized (ap (λ b. if b then b' ' else c) e)
  | inr e ↦ ap is_sanitized (ap (λ b. if b then b' ' else c) e) ∙ e
]

all_allowed : (s : Text) → any is_sanitized (map replaced s) ≡ false
all_allowed [] = refl
all_allowed (c ∷ s) = ground (arith, replaced-allowed c, all_allowed s)

-- A sanitized message is the message with each forbidden rune, and no other, turned into a space: no
-- forbidden rune is left.
pub sanitize_lem :
    (s : String)
    → (codes (sanitize s) ≡ map replaced (codes s))
      × (any is_sanitized (codes (sanitize s)) ≡ false)
sanitize_lem s =
    (sanitize-codes s, ap (any is_sanitized) (sanitize-codes s) ∙ all_allowed (codes s))
