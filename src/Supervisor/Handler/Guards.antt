-- ===== src/Supervisor/Handler/Guards.antt =====
-- When `restartOne` leaves a container alone.
use mailcow_watchdog.Prelude.{
  ◌-◌, ◌*◌, ◌≤◌, ◌<◌, ◌≡◌, ◌≢◌, ◌↔◌, ◌⊎◌, inl, inr, refl, ◌∙◌, Bool, true, false, String, [], ◌∷◌,
  ◌++◌, append-nil, Bool-cases, Result-cases, Result, ok, err, str_eq, eq_iff, arith,
}
use mailcow_watchdog.Check.{Check}
use mailcow_watchdog.DockerApi.{Container, Stamp, started}
use mailcow_watchdog.Supervisor.Actions.{Docker, Env, State}
use mailcow_watchdog.Supervisor.Handler.{is_young, ask_busy, answers_yes, restart_one}
use mailcow_watchdog.Supervisor.Handler.Restarts.{ids, restart_one-ids}

module _ {World : Type 0} (env : Env World) (docker : Docker World) (container : String) where
  -- The start time is known, is not Go's zero time, and lies less than 360 seconds back.
  abbrev pub IsYoung : Container → World → Type 0
  IsYoung target w =
      (t : Stamp) × (target.started_at ≢ "")
      × (env.parse_time target.started_at ≡ ok t)
      × (2 ≤ t.year)
      × (env.now w - t.at < 360 * 1000000000)

  -- The target is php-fpm, and the process that migrates the database runs in it.
  abbrev pub IsMigrating : Container → World → Type 0
  IsMigrating target w =
      (container ≡ "php-fpm-mailcow")
      × ((docker.running target.id "php -c /usr/local/etc/php -f /web/inc/init_db.inc.php" w).0
          ≡ ok true)

  is_young-IsYoung :
      (target : Container) (w : World) → (is_young env target w ≡ true) ↔ IsYoung target w
  unfolding is_young started
  is_young-IsYoung target w = elim (Bool-cases (str_eq target.started_at "")) [
    | inl e ↦ (
      λ h. absurd (ground (arith, h, e)),
      λ (t, ne, p, y, l). absurd (ne ((eq_iff target.started_at "").0 e)),
    )
    | inr e ↦ elim (Result-cases (env.parse_time target.started_at)) [
      | inl (why, p) ↦ (
        λ h. absurd (ground (arith, h, e, p)),
        λ (t, ne, p', y, l). absurd (ground (arith, p, p')),
      )
      | inr (t, p) ↦ (
        λ h. (
          t,
          (λ same. ground (arith, e, (eq_iff target.started_at "").1 same)),
          p,
          ground (arith, h, e, p),
          ground (arith, h, e, p),
        ),
        λ (t', ne, p', y, l). ground (arith, e, p, p', y, l),
      )
    ]
  ]

  answers_yes_iff : (r : Result String Bool) → (answers_yes r ≡ true) ↔ (r ≡ ok true)
  answers_yes_iff (ok true) = ((λ h. refl), (λ h. refl))
  answers_yes_iff (ok false) =
      ((λ h. absurd (ground (arith, h))), (λ h. absurd (ground (arith, h))))
  answers_yes_iff (err e) = ((λ h. absurd (ground (arith, h))), (λ h. absurd (ground (arith, h))))

  ask_busy-IsMigrating :
      (target : Container) (s : State World)
      → ((ask_busy env docker container target s).0 ≡ true) ↔ IsMigrating target s.world
  unfolding ask_busy
  ask_busy-IsMigrating target s =
      let yes =
        answers_yes_iff
          (docker.running target.id "php -c /usr/local/etc/php -f /web/inc/init_db.inc.php"
            s.world).0 in
      elim (Bool-cases (str_eq container "php-fpm-mailcow")) [
        | inl e ↦
            rw e ((λ h. ((eq_iff container "php-fpm-mailcow").0 e, yes.0 h)), (λ p. yes.1 p.1))
        | inr e ↦ rw e (
          (λ h. absurd (ground (arith, h))),
          (λ p. absurd (ground (arith, e, (eq_iff container "php-fpm-mailcow").1 p.0))),
        )
      ]

  -- The target was left alone for one of the two reasons, or neither holds and its restart was asked for.
  abbrev pub IsGuarded : Container → State World → State World → Type 0
  IsGuarded target s s' =
      ((IsYoung target s.world ⊎ IsMigrating target s.world) × (ids s' ≡ ids s))
      ⊎ ((¬ IsYoung target s.world)
          × (¬ IsMigrating target s.world)
          × (ids s' ≡ ids s ++ target.id ∷ []))

  -- One target is left alone exactly if it started less than 360 seconds ago, or is php-fpm and answers
  -- that it is migrating the database; otherwise its restart is asked for once, by its own id, and
  -- that of no other container.
  pub restart_one-guards :
      (target : Container) (c : Check World) (s : State World)
      → IsGuarded target s (restart_one env docker container target c s)
  restart_one-guards target c s =
      let e = restart_one-ids env docker container target c s in
      let young = is_young-IsYoung target s.world in
      let busy = ask_busy-IsMigrating target s in
      elim (Bool-cases (is_young env target s.world)) [
        | inl y ↦ inl (inl (young.0 y), (rw y at e) ∙ append-nil (ids s))
        | inr n ↦ elim (Bool-cases (ask_busy env docker container target s).0) [
          | inl b ↦ inl (inr (busy.0 b), (rw (n, b) at e) ∙ append-nil (ids s))
          | inr m ↦ inr (
            (λ p. ground (arith, n, young.1 p)),
            (λ p. ground (arith, m, busy.1 p)),
            rw (n, m) at e,
          )
        ]
      ]
