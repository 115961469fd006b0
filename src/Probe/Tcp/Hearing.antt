-- ===== src/Probe/Tcp/Hearing.antt =====
-- What a peer says, without the loop that reads it.
use mailcow_watchdog.Prelude.{
  ℕ, zero, suc, ◌+◌, ◌≤◌, ◌<◌, ◌≡◌, ◌↔◌, refl, sym, subst, true, false, not, ◌&&◌, [], ◌++◌, Option,
  none, some, String, ltb, length, length-append, by_test, arith,
}
use mailcow_watchdog.Prelude.Text.{Text, contains}
use mailcow_watchdog.Probe.Tcp.{read_limit, Connection, Reading, read_until}
use mailcow_watchdog.Probe.Tcp.Reading.{IsReader, by_failure, found}

module _ {World : Type 0} (conn : Connection World) (want : Text) where
  -- After some text of fewer than 8,192 bytes, the next read completes the wanted text, whatever error
  -- comes with it; or it does not fail, and the wanted text comes later.
  pub data Says : Text → World → Type 0 where
    now :
        {heard chunk : Text} {failure : Option String} {w w' : World}
        → length heard < 8192
        → conn w ≡ ((chunk, failure), w')
        → contains (heard ++ chunk) want ≡ true
        → Says heard w
    later :
        {heard chunk : Text} {w w' : World}
        → length heard < 8192
        → conn w ≡ ((chunk, none), w')
        → Says (heard ++ chunk) w'
        → Says heard w

  -- A run of the loop that has ended has read the wanted text.
  abbrev pub Holds : Option (Reading × World) → Type 0
  Holds none = ⊥
  Holds (some (r, w)) = contains r.0 want ≡ true

  module _ (reader : IsReader conn) where
    Holds-Says :
        (n : ℕ) (heard : Text) (w : World)
        → (8192 ≤ length heard → contains heard want ≡ false)
        → Holds (read_until conn want n heard w)
        → Says heard w
    unfolding read_until
    Holds-Says zero heard w p =
        by_test (λ o. Holds o → Says heard w) (ltb (length heard) read_limit) (λ e h. absurd h)
          (λ e h. absurd (ground (arith, e, h, p)))
    Holds-Says (suc n) heard w p =
        let ((chunk, failure), w') = conn w in
        let P : Option (Reading × World) → Type 0 = λ o. Holds o → Says heard w in
        by_test P (not (ltb (length heard) read_limit)) (λ e h. absurd (ground (arith, e, h, p)))
          (λ e.
            by_test P (ltb 0 (length chunk) && contains (heard ++ chunk) want)
              (λ f h. now (ground (arith, e)) refl h)
              (λ f.
                by_failure P failure _ _ (λ why broke h. now (ground (arith, e)) refl h)
                  (λ quiet h.
                    let moved = reader.moves w quiet in
                    later (ground (arith, e)) (ground (arith, quiet))
                      (Holds-Says n (heard ++ chunk) w' (λ l. ground (arith, f, moved)) h))))

    Says-Holds :
        (n : ℕ) (heard : Text) (w : World)
        → 8192 ≤ length heard + n
        → Says heard w
        → Holds (read_until conn want n heard w)
    unfolding read_until
    Says-Holds zero heard w l (now b c t) = absurd (omega arith)
    Says-Holds zero heard w l (later b c s) = absurd (omega arith)
    Says-Holds (suc n) heard w l (now b c t) =
        let ((chunk, failure), w') = conn w in
        let got : contains (heard ++ chunk) want ≡ true =
          subst (λ x. contains (heard ++ x.0.0) want ≡ true) (sym c) t in
        by_test Holds (not (ltb (length heard) read_limit)) (λ e. absurd (ground (arith, e, b)))
          (λ e.
            by_test Holds (ltb 0 (length chunk) && contains (heard ++ chunk) want) (λ f. got)
              (λ f.
                by_failure Holds failure _ _ (λ why broke. got)
                  (λ quiet. absurd (ground (arith, f, got, reader.moves w quiet)))))
    Says-Holds (suc n) heard w l (later {chunk = part} b c s) =
        let ((chunk, failure), w') = conn w in
        let calm : failure ≡ none = ground (arith, c) in
        let rest : Says (heard ++ chunk) w' = subst (λ x. Says (heard ++ x.0.0) x.1) (sym c) s in
        by_test Holds (not (ltb (length heard) read_limit)) (λ e. absurd (ground (arith, e, b)))
          (λ e.
            by_test Holds (ltb 0 (length chunk) && contains (heard ++ chunk) want)
              (λ f. found _ _ f)
              (λ f.
                by_failure Holds failure _ _ (λ why broke. absurd (ground (arith, broke, calm)))
                  (λ quiet.
                    Says-Holds n (heard ++ chunk) w'
                      (omega (arith, l, length-append heard chunk, reader.moves w quiet)) rest)))

    pub Holds-iff : (w : World) → Holds (read_until conn want read_limit [] w) ↔ Says [] w
    Holds-iff w = (
      Holds-Says read_limit [] w (λ l. absurd (omega arith)),
      Says-Holds read_limit [] w (omega arith),
    )
