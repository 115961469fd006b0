-- ===== src/Probe/Tcp/Reading.antt =====
-- The loop that reads a banner.
use mailcow_watchdog.Prelude.{
  ℕ, zero, suc, ◌+◌, ◌≤◌, ◌<◌, ◌≡◌, ◌≢◌, refl, Bool, true, not, ◌&&◌, [], ◌++◌, Option, none, some,
  String, ltb, length, length-append, by_test, ◌⊎◌, inl, inr, arith,
}
use mailcow_watchdog.Prelude.Text.{Text, contains}
use mailcow_watchdog.Probe.Tcp.{read_limit, Connection, Reading, read_until}

-- What `io.Reader` promises of a connection with a buffer of 1,024 bytes that never returns zero bytes
-- without an error.
pub record IsReader {World : Type 0} (conn : Connection World) : Type 0 where
  pub fits : (w : World) → length (conn w).0.0 ≤ 1024
  pub moves : (w : World) → (conn w).0.1 ≡ none → 1 ≤ length (conn w).0.0

-- How a reading ended: with the wanted text, with an error, or because the limit was reached.
abbrev pub Ended : Text → Reading → Type 0
Ended want (got, failure) =
    (contains got want ≡ true) ⊎ (failure ≢ none) ⊎ (read_limit ≤ length got)

-- The loop came to an end, by one of the three ways and within the bound.
abbrev Ends : {World : Type 0} → Text → Option (Reading × World) → Type 0
Ends {World} want out =
    (r : Reading) × (w : World) × (out ≡ some (r, w))
    × Ended want r
    × (length r.0 < read_limit + 1024)

pub by_failure :
    {A : Type 0} (P : A → Type 0) (o : Option String) (x : String → A) (y : A)
    → ((e : String) → o ≡ some e → P (x e))
    → (o ≡ none → P y)
    → P (elim o [ some e ↦ x e | none ↦ y ])
by_failure P none x y f g = g refl
by_failure P (some e) x y f g = f e refl

pub found : (a b : Bool) → a && b ≡ true → b ≡ true
found a b h = ground (arith, h)

module _ {World : Type 0} (conn : Connection World) (reader : IsReader conn) (want : Text) where
  read_until-Ends :
      (n : ℕ) (buf : Text) (w : World)
      → read_limit ≤ length buf + n
      → length buf < read_limit + 1024
      → Ends want (read_until conn want n buf w)
  unfolding read_until
  read_until-Ends zero buf w h l = ((buf, none), w, ground arith, inr (inr (omega arith)), l)
  read_until-Ends (suc n) buf w h l =
      let ((chunk, failure), w') = conn w in
      let size = length-append buf chunk in
      by_test (Ends want) (not (ltb (length buf) read_limit))
        (λ e. ((buf, none), w, refl, inr (inr (ground (arith, e))), l))
        (λ e.
          by_test (Ends want) (ltb 0 (length chunk) && contains (buf ++ chunk) want)
            (λ f. (
              (buf ++ chunk, none),
              w',
              refl,
              inl (found _ _ f),
              ground (arith, e, size, reader.fits w),
            ))
            (λ f.
              by_failure (Ends want) failure _ _
                (λ why broke. (
                  (buf ++ chunk, some why),
                  w',
                  refl,
                  inr (inl (λ c. ground (arith, c))),
                  ground (arith, e, size, reader.fits w),
                ))
                (λ quiet.
                  read_until-Ends n (buf ++ chunk) w'
                    (ground (arith, h, size, reader.moves w quiet))
                    (ground (arith, e, size, reader.fits w)))))

  -- From a connection that answers each read with at most 1,024 bytes, and with none only if it also
  -- reports an error, a banner is read in at most 8,192 reads: the loop ends with the wanted text in what it read,
  -- with the connection's error, or with the limit reached; and it never holds more than 9,215 bytes.
  pub read_until_lem :
      (w : World)
      → (r : Reading) × (w' : World) × (read_until conn want read_limit [] w ≡ some (r, w'))
        × Ended want r
        × (length r.0 < read_limit + 1024)
  read_until_lem w = read_until-Ends read_limit [] w (omega arith) (omega arith)
