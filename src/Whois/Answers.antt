-- ===== src/Whois/Answers.antt =====
-- Which answer a look-up returns.
use mailcow_watchdog.Prelude.{
  ◌≡◌, ◌≢◌, refl, sym, subst, ◌∙◌, true, false, String, List, [], ◌∷◌, All, Result, ok, err, str_eq,
  eq_iff, Bool-cases, ◌⊎◌, inl, inr, arith,
}
use mailcow_watchdog.Prelude.Text.{
  codes, has_prefix, trim_string, lower_string, split_at_char, cut_front,
}
use mailcow_watchdog.Prelude.Format.{str, sprintf}
use mailcow_watchdog.Whois.{
  Network, referral_of, first_referral, referral, ask, better, follow, lookup,
}

-- The trimmed line starts with "refer:" in any case, and what follows, trimmed, is the server.
abbrev pub Names : String → String → Type 0
Names line server =
    (has_prefix (codes (lower_string (trim_string line))) (codes "refer:") ≡ true)
    × (trim_string (cut_front 6 (trim_string line)) ≡ server)

-- The line names no server, or an empty one.
abbrev pub IsSilent : String → Type 0
IsSilent line = (server : String) → Names line server → server ≡ ""

-- The first line that names a server names this one.
pub data Refers : List String → String → Type 0 where
  here :
      {line server : String} {lines : List String}
      → Names line server
      → server ≢ ""
      → Refers (line ∷ lines) server
  there :
      {line server : String} {lines : List String}
      → IsSilent line
      → Refers lines server
      → Refers (line ∷ lines) server

referral_of-Names :
    (line : String)
    → (IsSilent line × (referral_of line ≡ ""))
      ⊎ (Names line (referral_of line) × (referral_of line ≢ ""))
referral_of-Names line =
    let starts = has_prefix (codes (lower_string (trim_string line))) (codes "refer:") in
    let server = trim_string (cut_front 6 (trim_string line)) in
    elim (Bool-cases starts) [
      | inr e ↦ inl ((λ s n. absurd (ground (arith, e, n.0))), rw e refl)
      | inl e ↦ elim (Bool-cases (str_eq server "")) [
        | inl z ↦
            inl ((λ s n. sym n.1 ∙ (eq_iff server "").0 z), (rw e refl) ∙ (eq_iff server "").0 z)
        | inr z ↦
            let same : referral_of line ≡ server = rw e refl in
            inr ((e, sym same), (λ q. ground (arith, z, (eq_iff server "").1 (sym same ∙ q))))
      ]
    ]

unset : (s : String) → s ≢ "" → str_eq s "" ≡ false
unset s h = elim (Bool-cases (str_eq s "")) [ inl e ↦ absurd (h ((eq_iff s "").0 e)) | inr e ↦ e ]

first_referral-Refers :
    (lines : List String)
    → (All IsSilent lines × (first_referral lines ≡ ""))
      ⊎ (Refers lines (first_referral lines) × (first_referral lines ≢ ""))
unfolding first_referral
first_referral-Refers [] = inl (tt, refl)
first_referral-Refers (line ∷ lines) = elim (referral_of-Names line) [
  | inr (names, full) ↦
      let e : str_eq (referral_of line) "" ≡ false = unset _ full in
      inr (rw e (here names full, full))
  | inl (silent, blank) ↦ elim (Bool-cases (str_eq (referral_of line) "")) [
    | inl e ↦ rw e (elim (first_referral-Refers lines) [
      | inl (none_named, z) ↦ inl ((silent, none_named), z)
      | inr (refers, full) ↦ inr (there silent refers, full)
    ])
    | inr e ↦ absurd (ground (arith, e, (eq_iff (referral_of line) "").1 blank))
  ]
]

module _ {World : Type 0} (net : Network World) where
  -- What the second query, to the server that the first answer names, adds: its answer is returned if it
  -- has one, and the first answer otherwise.
  abbrev pub Follows : String → String → String → World → Result String String × World → Type 0
  Follows query root next w (answer, w') =
      let (second, w₂) = ask net next query w in
      (w' ≡ w₂)
      × (((detailed : String) × (second ≡ ok detailed) × (answer ≡ ok detailed))
          ⊎ ((e : String) × (second ≡ err e) × (answer ≡ ok root)))

  -- The look-up after its first answer.
  abbrev pub Answers :
      String → String → Result String String → World → Result String String × World → Type 0
  Answers server query first w (answer, w') =
      ((e : String) × (first ≡ err e)
        × (answer ≡ err (sprintf "querying %s: %w" (str server ∷ str e ∷ [])))
        × (w' ≡ w))
      ⊎ ((root : String) × (first ≡ ok root)
          × (All IsSilent (split_at_char 10 root) ⊎ Refers (split_at_char 10 root) server)
          × (answer ≡ ok root)
          × (w' ≡ w))
      ⊎ ((root next : String) × (first ≡ ok root)
          × Refers (split_at_char 10 root) next
          × (next ≢ server)
          × Follows query root next w (answer, w'))

  better-Follows :
      (root : String) (second : Result String String)
      → ((detailed : String) × (second ≡ ok detailed) × (better root second ≡ ok detailed))
        ⊎ ((e : String) × (second ≡ err e) × (better root second ≡ ok root))
  better-Follows root (ok detailed) = inl (detailed, refl, refl)
  better-Follows root (err e) = inr (e, refl, refl)

  follow-Answers :
      (server query : String) (first : Result String String) (w : World)
      → Answers server query first w (follow net server query first w)
  unfolding follow referral
  follow-Answers server query (err e) w = inl (e, refl, refl, refl)
  follow-Answers server query (ok root) w =
      let next = first_referral (split_at_char 10 root) in
      let second = (ask net next query w).0 in
      inr (elim (first_referral-Refers (split_at_char 10 root)) [
        | inl (silent, z) ↦
            let e : str_eq next "" ≡ true = (eq_iff next "").1 z in
            rw e (inl (root, refl, inl silent, refl, refl))
        | inr (refers, full) ↦
            let e : str_eq next "" ≡ false = unset next full in
            elim (Bool-cases (str_eq next server)) [
              | inl same ↦
                  rw (e, same)
                    (inl (
                      root,
                      refl,
                      inr (
                          subst (Refers (split_at_char 10 root)) ((eq_iff next server).0 same)
                            refers),
                      refl,
                      refl,
                    ))
              | inr other ↦
                  rw (e, other)
                    (inr (
                      root,
                      next,
                      refl,
                      refers,
                      (λ q. ground (arith, other, (eq_iff next server).1 q)),
                      (refl, better-Follows root second),
                    ))
            ]
      ])

  -- A look-up fails exactly if its first query does. If no line of the first answer names a server, or
  -- the first that does names the one just asked, the first answer is returned and nothing more is
  -- asked. Otherwise the server named there is asked once, and its answer is returned, or the first
  -- answer if that query fails.
  pub lookup_lem :
      (server query : String) (w : World)
      → let (first, w') = ask net server query w in
        Answers server query first w' (lookup net server query w)
  unfolding lookup
  lookup_lem server query w =
      let (first, w') = ask net server query w in follow-Answers server query first w'
