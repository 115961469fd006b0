-- ===== src/Check/Transcript.antt =====
-- The transcript of check.go against the list of everything ever recorded.
use mailcow_watchdog.Prelude.{
  ℕ, zero, suc, ◌+◌, ◌-◌, ◌≤◌, ◌≡◌, refl, sym, ap, ◌∙◌, String, List, [], ◌∷◌, ◌++◌, append_assoc,
  append-nil, length, length-append, length-drop, drop, drop-append, drop-drop, select,
  select-append, arith, ltb, subst, if◌then◌else◌,
}
use mailcow_watchdog.Check.{transcript_lines, append_lines, is_line}

-- The last n elements.
abbrev pub last {ℓ} : {A : Type ℓ} → ℕ → List A → List A
last n xs = drop (length xs - n) xs

drop-guarded {ℓ} :
    {A : Type ℓ} (k : ℕ) (xs : List A) → (if ltb 0 k then drop k xs else xs) ≡ drop k xs
drop-guarded zero xs = refl
drop-guarded (suc k) xs = ground arith

append_lines-last :
    (ts lines : List String)
    → append_lines ts lines ≡ last transcript_lines (ts ++ select is_line lines)
unfolding append_lines
append_lines-last ts lines =
    let all = ts ++ select is_line lines in drop-guarded (length all - transcript_lines) all

module _ {ℓ} {A : Type ℓ} (n : ℕ) (xs ys : List A) where
  last_start :
      length xs - n + (length (drop (length xs - n) (xs ++ ys)) - n) ≡ length (xs ++ ys) - n
  last_start = omega (arith, length-append xs ys, length-drop (length xs - n) (xs ++ ys))

  -- Cutting to the last n before more is appended does not show after the next cut.
  last-append : last n (last n xs ++ ys) ≡ last n (xs ++ ys)
  last-append =
      ap (last n) (sym (drop-append (length xs - n) xs ys (omega arith)))
      ∙ drop-drop _ (length xs - n) (xs ++ ys)
      ∙ ap (λ k. drop k (xs ++ ys)) last_start

-- The transcript after a row of calls of `Record`, one list of lines to a call.
unfoldable pub record_all : List String → List (List String) → List String
record_all ts [] = ts
record_all ts (lines ∷ calls) = record_all (append_lines ts lines) calls

-- Everything that the calls were given.
abbrev pub said : List (List String) → List String
said [] = []
said (lines ∷ calls) = lines ++ said calls

record_all-from :
    (ts : List String) (calls : List (List String))
    → record_all (last transcript_lines ts) calls
      ≡ last transcript_lines (ts ++ select is_line (said calls))
unfolding record_all
record_all-from ts [] = ap (last transcript_lines) (sym (append-nil ts))
record_all-from ts (lines ∷ calls) =
    ap (λ s. record_all s calls)
      (append_lines-last (last transcript_lines ts) lines
        ∙ last-append transcript_lines ts (select is_line lines))
    ∙ record_all-from (ts ++ select is_line lines) calls
    ∙ ap (last transcript_lines) (
        append_assoc ts (select is_line lines) (select is_line (said calls))
        ∙ ap (λ r. ts ++ r) (sym (select-append is_line lines (said calls))))

-- However the output was split over calls of `Record`, the transcript holds the last fifty of all
-- the lines that are not empty, in order.
pub record_all-last :
    (calls : List (List String))
    → record_all [] calls ≡ last transcript_lines (select is_line (said calls))
record_all-last calls = record_all-from [] calls

pub length-last {ℓ} : {A : Type ℓ} (n : ℕ) (xs : List A) → length (last n xs) ≤ n
length-last n xs = omega (arith, length-drop (length xs - n) xs)

pub length-append_lines :
    (ts lines : List String) → length (append_lines ts lines) ≤ transcript_lines
length-append_lines ts lines =
    subst (λ r. length r ≤ transcript_lines) (sym (append_lines-last ts lines))
      (length-last transcript_lines (ts ++ select is_line lines))
