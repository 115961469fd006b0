-- ===== src/Notify/Webhook/Escaping.antt =====
-- What the trimming of an encoded value leaves.
use mailcow_watchdog.Prelude.{ℕ, ◌≡◌, sym, ap, ◌∙◌, [], ◌∷◌, ◌++◌, append_assoc}
use mathlib.Core.List.{reverse, reverse-append, reverse-reverse}
use mailcow_watchdog.Prelude.Text.{Text}
use mailcow_watchdog.Prelude.Json.{escape_all}
use mailcow_watchdog.Notify.Webhook.{encode, trim_lf, cut_quote, cut_last_quote, json_escape}

reverse-snoc : (xs : Text) (a : ℕ) → reverse (xs ++ a ∷ []) ≡ a ∷ reverse xs
reverse-snoc xs a = reverse-append xs (a ∷ [])

trim_lf-snoc : (xs : Text) → trim_lf ((xs ++ b'"' ∷ []) ++ 10 ∷ []) ≡ xs ++ b'"' ∷ []
trim_lf-snoc xs = rw (reverse-snoc (xs ++ b'"' ∷ []) 10) (
    rw (reverse-snoc xs b'"')
      (ap reverse (sym (reverse-snoc xs b'"')) ∙ reverse-reverse (xs ++ b'"' ∷ [])))

cut_last_quote-snoc : (xs : Text) → cut_last_quote (xs ++ b'"' ∷ []) ≡ xs
cut_last_quote-snoc xs = rw (reverse-snoc xs b'"') (reverse-reverse xs)

pub json_escape-escape_all : (value : Text) → json_escape value ≡ escape_all value
unfolding json_escape
json_escape-escape_all value =
    let quoted = b'"' ∷ escape_all value in
    let e : encode value ≡ (quoted ++ b'"' ∷ []) ++ 10 ∷ [] =
      ap (λ t. b'"' ∷ t) (sym (append_assoc (escape_all value) (b'"' ∷ []) (10 ∷ []))) in
    ap (λ t. cut_last_quote (cut_quote (trim_lf t))) e
    ∙ ap (λ t. cut_last_quote (cut_quote t)) (trim_lf-snoc quoted)
    ∙ cut_last_quote-snoc (escape_all value)
