-- ===== src/Health/Percent.antt =====
-- The percentage arithmetic of health.go.
use native.Mathlib.Nat.{
  div-div-eq-div-mul, mul-div-mul_left, div-add-mod, mod-lt, mul_comm, mul_assoc, mul-add,
}
use mailcow_watchdog.Prelude.{ℕ, ◌+◌, ◌*◌, ◌/◌, ◌%◌, ◌≤◌, ◌<◌, ◌≡◌, ◌∙◌, ap, ◌⊎◌, inl, inr, arith}
use mailcow_watchdog.Prelude.Int.{pos}
use mailcow_watchdog.Health.{percent}

-- The doubled quotient halves to the quotient.
halve : (c t : ℕ) → 200 * c / t / 2 ≡ 100 * c / t
halve c t =
    div-div-eq-div-mul (200 * c) t 2
    ∙ ap (λ n. n / (t * 2)) (mul_assoc 2 100 c)
    ∙ ap (λ d. 2 * (100 * c) / d) (mul_comm t 2)
    ∙ mul-div-mul_left (100 * c) t (omega arith)

parity : (q : ℕ) → (q % 2 ≡ 0) ⊎ (q % 2 ≡ 1)
parity q = omega arith

percent-eq : (c t : ℕ) → 0 < t → percent (pos c) (pos t) ≡ (200 * c / t) % 2 + 200 * c / t / 2
unfolding percent
percent-eq c t h = ground (arith, halve c t)

module _ (c t : ℕ) (h : 0 < t) where
  -- A quotient q = 200 c / t, its parity m, and p = m + q / 2: then 2 p = q + m.
  doubled : 2 * percent (pos c) (pos t) ≡ 200 * c / t + (200 * c / t) % 2
  doubled = omega (arith, percent-eq c t h)

  scaled : 2 * (t * percent (pos c) (pos t)) ≡ t * (200 * c / t) + t * ((200 * c / t) % 2)
  scaled = omega (arith, ap (λ n. t * n) doubled, mul-add t (200 * c / t) ((200 * c / t) % 2))

  -- `Percent` of c out of a positive t rounds half up: the result is the number p with
  -- 2 t p ≤ 200 c + t < 2 t p + 2 t.
  pub percent_rounds :
      (2 * (t * percent (pos c) (pos t)) ≤ 200 * c + t)
      × (200 * c + t < 2 * (t * percent (pos c) (pos t)) + 2 * t)
  percent_rounds = elim (parity (200 * c / t)) [
    | inl e ↦ omega (arith, scaled, ap (λ n. t * n) e, div-add-mod (200 * c) t, mod-lt (200 * c) h)
    | inr e ↦ omega (arith, scaled, ap (λ n. t * n) e, div-add-mod (200 * c) t, mod-lt (200 * c) h)
  ]
