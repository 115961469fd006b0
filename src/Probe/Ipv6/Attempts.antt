-- ===== src/Probe/Ipv6/Attempts.antt =====
-- How the IPv6 address is found.
use mailcow_watchdog.Prelude.{
  ℕ, zero, suc, ◌+◌, ◌≤◌, ◌≡◌, ◌≢◌, ◌↔◌, String, none, Option-cases, Bool-cases, inl, inr, str_eq,
  eq_iff, arith,
}
use mailcow_watchdog.Probe.Ipv6.{Reflectors, ipv6_attempts, ask_one, ask_again, address}

module _ {World : Type 0} (net : Reflectors World) where
  -- So many sources give no answer, with an undisturbed pause after each, and the next one gives the
  -- address.
  pub data Found (addr : String) (end : World) : ℕ → World → Type 0 where
    hit : {w : World} → ask_one net w ≡ (addr, end) → Found addr end 0 w
    miss :
        {n : ℕ} {w w₁ w₂ : World}
        → ask_one net w ≡ ("", w₁)
        → net.sleep w₁ ≡ (none, w₂)
        → Found addr end n w₂
        → Found addr end (suc n) w

  ask_again-Found :
      (k : ℕ) (w : World) (addr : String) (end : World)
      → addr ≢ ""
      → (let (first, w₁) = ask_one net w in ask_again net k first w₁ ≡ (addr, end))
      → (n : ℕ) × Found addr end n w × (n ≤ k)
  unfolding ask_again
  ask_again-Found zero w addr end ne h = (0, hit h, omega arith)
  ask_again-Found (suc k) w addr end ne h =
      let (first, w₁) = ask_one net w in
      elim (Bool-cases (str_eq first "")) [
        | inr e ↦ (0, hit (ground (arith, h, e)), omega arith)
        | inl e ↦ elim (Option-cases (net.sleep w₁).0) [
          | inr (why, c) ↦ absurd (ne (ground (arith, h, e, c)))
          | inl c ↦
              let w₂ = (net.sleep w₁).1 in
              let (n, found, le) = ask_again-Found k w₂ addr end ne (ground (arith, h, e, c)) in
              (
                suc n,
                miss {w₁ = w₁} {w₂ = w₂} (ground (arith, e, eq_iff first "")) (ground (arith, c))
                    found,
                omega (arith, le),
              )
        ]
      ]

  Found-ask_again :
      (k : ℕ) (addr : String) (end : World) {n : ℕ} {w : World}
      → addr ≢ ""
      → Found addr end n w
      → n ≤ k
      → (let (first, w₁) = ask_one net w in ask_again net k first w₁ ≡ (addr, end))
  unfolding ask_again
  Found-ask_again zero addr end ne (hit e) le = e
  Found-ask_again (suc k) addr end ne (hit e) le = ground (arith, e, eq_iff addr "")
  Found-ask_again zero addr end ne (miss e s f) le = absurd (omega arith)
  Found-ask_again (suc k) addr end ne (miss {w = w} e s f) le =
      ground
        (arith, e, s, eq_iff (ask_one net w).0 "", Found-ask_again k addr end ne f (omega arith))

  -- The startup check finds an address exactly if one of at most ten sources, asked one after the
  -- other with an undisturbed pause in between, gives it after those before gave none.
  pub address_lem :
      (w : World) (addr : String) (end : World)
      → addr ≢ ""
      → (address net w ≡ (addr, end)) ↔ ((n : ℕ) × Found addr end n w × (n + 1 ≤ ipv6_attempts))
  unfolding address
  address_lem w addr end ne = (
    λ h. let (n, f, le) = ask_again-Found 9 w addr end ne h in (n, f, omega (arith, le)),
    λ (n, f, le). Found-ask_again 9 addr end ne f (omega arith),
  )
