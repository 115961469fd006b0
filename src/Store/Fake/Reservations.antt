-- ===== src/Store/Fake/Reservations.antt =====
-- The throttle slots of the fake.
use mailcow_watchdog.Prelude.{
  ℕ, ◌+◌, ◌-◌, ◌≤◌, ◌<◌, ◌≡◌, inl, inr, refl, true, false, String, List, [], ◌∷◌, Option, some,
  Option-cases, Bool-cases, All, str_eq, eq_iff, arith,
}
use mailcow_watchdog.Store.Fake.{Fake, lookup, running_until, reserve}

-- A call of `Reserve` at a time.
pub record Call : Type 0 where
  pub key : String
  pub ttl : ℕ
  pub now : ℕ

unfoldable pub after : List Call → Fake → Fake
after [] f = f
after (c ∷ cs) f = after cs (reserve c.key c.ttl c.now f).1

-- The slot of the key runs until the given time at least.
abbrev pub RunsUntil : String → ℕ → Fake → Type 0
RunsUntil key until f = (u : ℕ) × (lookup key f.reservations ≡ some u) × (until ≤ u)

running :
    (until now : ℕ) (slot : Option ℕ)
    → (u : ℕ) → slot ≡ some u
    → now < until
    → until ≤ u
    → running_until now slot ≡ some (u - now)
running until now slot u e early le = rw e (ground arith)

reserve-RunsUntil :
    (key : String) (until : ℕ) (c : Call) (f : Fake)
    → c.now < until
    → RunsUntil key until f
    → RunsUntil key until (reserve c.key c.ttl c.now f).1
unfolding reserve
reserve-RunsUntil key until c f early (u, e, le) =
    elim (Option-cases (running_until c.now (lookup c.key f.reservations))) [
      | inr (left, r) ↦ (u, rw r e, le)
      | inl r ↦ elim (Bool-cases (str_eq c.key key)) [
        | inl same ↦
            let slot : lookup c.key f.reservations ≡ some u = rw ((eq_iff c.key key).0 same) e in
            absurd
              (ground (arith, r, running until c.now (lookup c.key f.reservations) u slot early le))
        | inr other ↦ (u, rw r (rw other e), le)
      ]
    ]

after-RunsUntil :
    (key : String) (until : ℕ) (cs : List Call) (f : Fake)
    → All (λ (c : Call). c.now < until) cs
    → RunsUntil key until f
    → RunsUntil key until (after cs f)
unfolding after
after-RunsUntil key until [] f early h = h
after-RunsUntil key until (c ∷ cs) f early h =
    after-RunsUntil key until cs (reserve c.key c.ttl c.now f).1 early.1
      (reserve-RunsUntil key until c f early.0 h)

granted-RunsUntil :
    (key : String) (ttl now : ℕ) (f : Fake)
    → (reserve key ttl now f).0.0 ≡ true
    → RunsUntil key (now + ttl) (reserve key ttl now f).1
unfolding reserve
granted-RunsUntil key ttl now f h =
    elim (Option-cases (running_until now (lookup key f.reservations))) [
      | inr (left, r) ↦ absurd (ground (arith, h, r))
      | inl r ↦ (now + ttl, rw r (rw ((eq_iff key key).1 refl) refl), omega arith)
    ]

-- Once a slot is granted, no call for the same key is granted before its time has run out, whatever
-- else is reserved in the meantime: it is told to wait at least until then, and changes nothing.
reserve-exclusive :
    (key : String) (ttl start : ℕ) (f : Fake) (cs : List Call) (ttl' now : ℕ)
    → (reserve key ttl start f).0.0 ≡ true
    → All (λ (c : Call). c.now < start + ttl) cs
    → now < start + ttl
    → let f' = after cs (reserve key ttl start f).1 in
      let ((granted, left), f'') = reserve key ttl' now f' in
      (granted ≡ false) × (start + ttl ≤ now + left) × (f'' ≡ f')
unfolding reserve
reserve-exclusive key ttl start f cs ttl' now h early soon =
    let f' = after cs (reserve key ttl start f).1 in
    let (u, e, le) =
      after-RunsUntil key (start + ttl) cs _ early (granted-RunsUntil key ttl start f h) in
    let r = running (start + ttl) now (lookup key f'.reservations) u e soon le in
    rw r (refl, omega arith, refl)
