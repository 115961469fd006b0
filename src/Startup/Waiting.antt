-- ===== src/Startup/Waiting.antt =====
-- How the wait for a dependency ends.
use mailcow_watchdog.Prelude.{
  ℕ, zero, suc, ◌<◌, ◌≡◌, ◌↔◌, Option, none, some, Option-cases, inl, inr, String, arith,
}
use mailcow_watchdog.Startup.{Host, dependency_poll, wait_for}

module _ {World : Type 0} (host : Host World) (probe : World → Option String × World) where
  -- So many attempts fail, with an undisturbed pause after each; then one succeeds, or one fails and the
  -- context has ended by then or ends in the pause.
  pub data Ends (outcome : Option String) (end : World) : ℕ → World → Type 0 where
    answered : {w : World} → probe w ≡ (none, end) → outcome ≡ none → Ends outcome end 0 w
    was_over :
        {w : World} {e why : String}
        → probe w ≡ (some e, end)
        → host.cancelled end ≡ some why
        → outcome ≡ some why
        → Ends outcome end 0 w
    interrupted :
        {w w₁ : World} {e why : String}
        → probe w ≡ (some e, w₁)
        → host.cancelled w₁ ≡ none
        → host.pause dependency_poll w₁ ≡ (some why, end)
        → outcome ≡ some why
        → Ends outcome end 0 w
    again :
        {n : ℕ} {w w₁ w₂ : World} {e : String}
        → probe w ≡ (some e, w₁)
        → host.cancelled w₁ ≡ none
        → host.pause dependency_poll w₁ ≡ (none, w₂)
        → Ends outcome end n w₂
        → Ends outcome end (suc n) w

  wait_for-Ends :
      (attempts : ℕ) (w : World) (outcome : Option String) (end : World)
      → wait_for host attempts probe w ≡ some (outcome, end)
      → (n : ℕ) × Ends outcome end n w × (n < attempts)
  unfolding wait_for
  wait_for-Ends zero w outcome end h = absurd (ground (arith, h))
  wait_for-Ends (suc k) w outcome end h =
      let w₁ = (probe w).1 in
      let w₂ = (host.pause dependency_poll w₁).1 in
      elim (Option-cases (probe w).0) [
        | inl p ↦ (0, answered (ground (arith, h, p)) (ground (arith, h, p)), omega arith)
        | inr (e, p) ↦ elim (Option-cases (host.cancelled w₁)) [
          | inr (why, c) ↦ (
            0,
            was_over {e = e} {why = why} (ground (arith, h, p, c)) (ground (arith, h, p, c))
                (ground (arith, h, p, c)),
            omega arith,
          )
          | inl c ↦ elim (Option-cases (host.pause dependency_poll w₁).0) [
            | inr (why, i) ↦ (
              0,
              interrupted {w₁ = w₁} {e = e} {why = why} (ground (arith, p)) c
                  (ground (arith, h, p, c, i)) (ground (arith, h, p, c, i)),
              omega arith,
            )
            | inl i ↦
                let (n, ends, le) = wait_for-Ends k w₂ outcome end (ground (arith, h, p, c, i)) in
                (
                  suc n,
                  again {w₁ = w₁} {w₂ = w₂} {e = e} (ground (arith, p)) c (ground (arith, i)) ends,
                  omega (arith, le),
                )
          ]
        ]
      ]

  Ends-wait_for :
      (attempts : ℕ) {outcome : Option String} {end : World} {n : ℕ} {w : World}
      → Ends outcome end n w
      → n < attempts
      → wait_for host attempts probe w ≡ some (outcome, end)
  unfolding wait_for
  Ends-wait_for zero ends le = absurd (omega arith)
  Ends-wait_for (suc k) (answered p o) le = ground (arith, p, o)
  Ends-wait_for (suc k) (was_over p c o) le = ground (arith, p, c, o)
  Ends-wait_for (suc k) (interrupted p c i o) le = ground (arith, p, c, i, o)
  Ends-wait_for (suc k) (again p c i ends) le =
      ground (arith, p, c, i, Ends-wait_for k ends (omega arith))

  -- The wait for a dependency ends within a number of attempts exactly if, after fewer failures than
  -- that, each followed by an undisturbed pause of two seconds, the dependency answers or the context
  -- ends; it reports success in the first case and the error of the context in the second.
  pub wait_for_lem :
      (attempts : ℕ) (w : World) (outcome : Option String) (end : World)
      → (wait_for host attempts probe w ≡ some (outcome, end))
        ↔ ((n : ℕ) × Ends outcome end n w × (n < attempts))
  wait_for_lem attempts w outcome end =
      (wait_for-Ends attempts w outcome end, λ (n, ends, le). Ends-wait_for attempts ends le)
