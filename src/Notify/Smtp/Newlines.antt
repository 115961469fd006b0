-- ===== src/Notify/Smtp/Newlines.antt =====
-- The line ends of a message.
use mailcow_watchdog.Prelude.{
  ℕ, ◌-◌, ◌≡◌, ◌⊎◌, inl, inr, refl, true, false, [], ◌∷◌, ◌++◌, ◌==◌, length, drop, length-append,
  Bool-cases, arith,
}
use mailcow_watchdog.Prelude.Text.{Text, has_suffix, text_eq_refl}
use mailcow_watchdog.Notify.Smtp.{to_lf, to_crlf, starts_line, crlf, normalise_newlines}

-- Every line feed of the text follows a carriage return; the number is the code point before it.
abbrev pub NoBareLf : ℕ → Text → Type 0
NoBareLf before [] = Unit
NoBareLf before (c ∷ s) = (c ≡ 10 → before ≡ 13) × NoBareLf c s

to_crlf-starts_line : (s : Text) → starts_line (to_crlf s) ≡ false
unfolding to_crlf
to_crlf-starts_line [] = refl
to_crlf-starts_line (c ∷ s) = ground arith

to_lf-to_crlf : (s : Text) → to_lf (to_crlf s) ≡ s
unfolding to_crlf to_lf
to_lf-to_crlf [] = refl
to_lf-to_crlf (c ∷ s) = ground (arith, to_lf-to_crlf s, to_crlf-starts_line s)

to_crlf-append_lf : (s : Text) → to_crlf (s ++ 10 ∷ []) ≡ to_crlf s ++ crlf
unfolding to_crlf
to_crlf-append_lf [] = refl
to_crlf-append_lf (c ∷ s) = ground (arith, to_crlf-append_lf s)

to_crlf-NoBareLf : (before : ℕ) (s : Text) → NoBareLf before (to_crlf s)
unfolding to_crlf
to_crlf-NoBareLf before [] = tt
to_crlf-NoBareLf before (c ∷ s) = elim (Bool-cases (c == 10)) [
  | inl e ↦ rw e ((λ h. absurd (omega arith)), ((λ h. refl), to_crlf-NoBareLf 10 s))
  | inr e ↦ rw e ((λ h. absurd (ground arith)), to_crlf-NoBareLf c s)
]

drop-length : (s t : Text) → drop (length s) (s ++ t) ≡ t
drop-length [] t = refl
drop-length (c ∷ s) t = drop-length s t

has_suffix-append : (s t : Text) → has_suffix (s ++ t) t ≡ true
has_suffix-append s t =
    let n : length (s ++ t) - length t ≡ length s = omega (arith, length-append s t) in
    rw (n, drop-length s t, text_eq_refl t) (ground (arith, length-append s t))

-- The normalised body is a text whose line feeds were all turned into CRLF: the given one, or that one
-- with a last line end.
normalise_newlines-to_crlf :
    (body : Text)
    → (u : Text) × (normalise_newlines body ≡ to_crlf u)
      × ((u ≡ to_lf body) ⊎ (u ≡ to_lf body ++ 10 ∷ []))
      × (has_suffix (to_crlf u) crlf ≡ true)
unfolding normalise_newlines
normalise_newlines-to_crlf body = elim (Bool-cases (has_suffix (to_crlf (to_lf body)) crlf)) [
  | inl e ↦ (to_lf body, rw e, inl refl, e)
  | inr e ↦ (
    to_lf body ++ 10 ∷ [],
    rw (e, to_crlf-append_lf (to_lf body)),
    inr refl,
    rw (to_crlf-append_lf (to_lf body)) (has_suffix-append (to_crlf (to_lf body)) crlf),
  )
]

normalise_newlines-fixed :
    (u : Text) → has_suffix (to_crlf u) crlf ≡ true → normalise_newlines (to_crlf u) ≡ to_crlf u
unfolding normalise_newlines
normalise_newlines-fixed u h = rw (to_lf-to_crlf u, h)

-- The body that is sent ends in CRLF and has no line feed without a carriage return before it.
-- Turned back to line feeds it is the given body, read in the same way, with at most one line end
-- added; and normalising it again changes nothing.
pub normalise_newlines_lem :
    (body : Text)
    → let sent = normalise_newlines body in
      (has_suffix sent crlf ≡ true)
      × NoBareLf 0 sent
      × ((to_lf sent ≡ to_lf body) ⊎ (to_lf sent ≡ to_lf body ++ 10 ∷ []))
      × (normalise_newlines sent ≡ sent)
normalise_newlines_lem body =
    let (u, e, same, ends) = normalise_newlines-to_crlf body in
    rw e (rw (to_lf-to_crlf u) (ends, to_crlf-NoBareLf 0 u, same, normalise_newlines-fixed u ends))
