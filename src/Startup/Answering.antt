-- ===== src/Startup/Answering.antt =====
-- What an available dependency has answered.
use mailcow_watchdog.Prelude.{
  ℕ, ◌≡◌, refl, sym, subst, Bool, true, false, String, List, [], ◌∷◌, Option, none, some,
  Option-cases, inl, inr, Result, ok, err, str_eq, if◌then◌else◌, arith,
}
use mailcow_watchdog.Config.{Config, app_dsn, root_dsn}
use mailcow_watchdog.Startup.{
  Handle, app_db, root_db, redis, local_redis, Action, ready_set, supervised, Host, State, start,
  open_handle, Dependencies, Stage, go_on, pure, lift, wait_for, waited, await, opened_db, open_sql,
  open_store, make_docker, make_dispatcher, connect, settle,
}
use mailcow_watchdog.Startup.Run.{wait_for_obs, connected, run_configured}
use mailcow_watchdog.Startup.Cleanup.{run_configured-connected}
use mailcow_watchdog.Startup.Waiting.{Ends, answered, was_over, interrupted, again, wait_for_lem}

-- The readiness was reported or the supervisor started.
abbrev pub is_launched : List Action → Bool
is_launched [] = false
is_launched (ready_set ∷ t) = true
is_launched (supervised checks ∷ t) = true
is_launched (_ ∷ t) = is_launched t

module _ {World : Type 0} where
  -- Nothing is launched yet, and P holds if the stage has succeeded.
  abbrev Gives : {A : Type 0} → Type 0 → Option (Result String A × State World) → Type 0
  Gives P none = Unit
  Gives P (some (err e, s)) = is_launched s.trace ≡ false
  Gives P (some (ok a, s)) = (is_launched s.trace ≡ false) × P

  go_on-Gives :
      {A B : Type 0} (P Q : Type 0) (f : A → Stage World B)
      (o : Option (Result String A × State World))
      → Gives P o
      → ((a : A) (s : State World) → is_launched s.trace ≡ false → P → Gives Q (f a s))
      → Gives Q (go_on f o)
  go_on-Gives P Q f none g n = tt
  go_on-Gives P Q f (some (err e, s)) g n = g
  go_on-Gives P Q f (some (ok a, s)) g n = n a s g.0 g.1

  opened_db-Gives :
      (format : String) (h : Handle) (o : Option String) (s : State World)
      → is_launched s.trace ≡ false
      → Gives (Unit {0}) (opened_db format h o s)
  opened_db-Gives format h none s l = (l, tt)
  opened_db-Gives format h (some e) s l = l

  unless-Gives :
      (b : Bool) (m : Stage World (Unit {0})) (s : State World)
      → is_launched s.trace ≡ false
      → Gives (Unit {0}) (m s)
      → Gives (Unit {0}) ((if b then m else pure tt) s)
  unless-Gives true m s l g = g
  unless-Gives false m s l g = (l, tt)

  when-Gives :
      (b : Bool) (m : Stage World (Unit {0})) (s : State World)
      → is_launched s.trace ≡ false
      → Gives (Unit {0}) (m s)
      → Gives (Unit {0}) ((if b then pure tt else m) s)
  when-Gives true m s l g = (l, tt)
  when-Gives false m s l g = g

  built-Gives :
      {A B P : Type 0} (r : Result String A) (f : A → B) (s : State World)
      → is_launched s.trace ≡ false
      → P
      → Gives P (go_on (λ a. pure (f a)) (lift r s))
  built-Gives (err e) f s l p = l
  built-Gives (ok a) f s l p = (l, p)

module _ {World : Type 0} (host : Host World) where
  -- At some moment a test of the connection has succeeded.
  abbrev pub Answers : Handle → Type 0
  Answers h = (w w' : World) × (host.ping h w ≡ (none, w'))

  Ends-Answers :
      (h : Handle) {end w : World} {n : ℕ} → Ends host (host.ping h) none end n w → Answers h
  Ends-Answers h (answered {w} p o) = (w, _, p)
  Ends-Answers h (was_over p c o) = absurd (ground (arith, o))
  Ends-Answers h (interrupted p c i o) = absurd (ground (arith, o))
  Ends-Answers h (again p c i ends) = Ends-Answers h ends

  waited-Gives :
      (attempts : ℕ) (what : String) (h : Handle) (s : State World)
      (o : Option (Option String × World))
      → wait_for host attempts (host.ping h) s.world ≡ o
      → is_launched s.trace ≡ false
      → Gives (Answers h) (waited what o s)
  waited-Gives attempts what h s none e l = tt
  waited-Gives attempts what h s (some (some why, w)) e l = l
  waited-Gives attempts what h s (some (none, w)) e l =
      let (n, ends, le) = (wait_for_lem host (host.ping h) attempts s.world none w).0 e in
      (l, Ends-Answers h ends)

  abbrev pub BothAnswer : Type 0
  BothAnswer = Answers app_db × Answers redis

  connect-Gives :
      (attempts : ℕ) (cfg : Config) (w : World)
      → Gives BothAnswer (connect host attempts cfg (start w))
  unfolding connect await open_sql
  connect-Gives attempts cfg w =
      let U = Unit {0} in
      go_on-Gives U _ _ _
        (opened_db-Gives "opening the mailcow database: %w" app_db
          (host.open_db (app_dsn cfg.db) w).0 _ refl)
        (λ _ s l t.
          go_on-Gives U _ _ _
            (unless-Gives cfg.checks.mysql_repl.enabled _ s l (
              opened_db-Gives "opening the database as root: %w" root_db
                (host.open_db (root_dsn cfg.db) s.world).0 _ l))
            (λ _ s l t.
              go_on-Gives U _ _ _
                (when-Gives (str_eq cfg.redis.addr cfg.redis.local_addr) (open_store local_redis)
                  (open_handle redis s) l (l, tt))
                (λ _ s l t.
                  go_on-Gives (Answers app_db) _ _ _ (waited-Gives attempts "SQL" app_db s _ refl l)
                    (λ _ s l sql.
                      go_on-Gives (Answers redis) _ _ _
                        (waited-Gives attempts "Redis" redis s _ refl l)
                        (λ _ s l answer.
                          built-Gives (make_docker host cfg)
                            (λ docker. record {
                              docker = docker;
                              dispatcher = make_dispatcher host cfg;
                            })
                            s l (sql, answer))))))

  module _ (attempts : ℕ) (cfg : Config) (w : World) where
    -- What is known of a start that has ended or still waits.
    abbrev pub IsCovered : Option (Option String × State World) → Type 0
    IsCovered none =
        let w' = (settle host cfg.settle_delay w).1 in connect host attempts cfg (start w') ≡ none
    IsCovered (some (outcome, end)) = is_launched end.trace ≡ true → BothAnswer

    connected-IsCovered :
        (o : Option (Result String (Dependencies World) × State World))
        → connect host attempts cfg (start (settle host cfg.settle_delay w).1) ≡ o
        → Gives BothAnswer o
        → IsCovered (connected host cfg o)
    unfolding connected
    connected-IsCovered none e g = e
    connected-IsCovered (some (err why, s)) e g = λ h. absurd (ground (arith, h, g))
    connected-IsCovered (some (ok deps, s)) e g = λ h. g.1

    pub run_configured-IsCovered :
        cfg.enabled ≡ true → IsCovered (run_configured host attempts cfg w)
    unfolding run_configured wait_for_obs
    run_configured-IsCovered on =
        let w' = (settle host cfg.settle_delay w).1 in
        elim (Option-cases (settle host cfg.settle_delay w).0) [
          | inl calm ↦
              subst IsCovered (sym (run_configured-connected host attempts cfg w on calm)) (
                connected-IsCovered (connect host attempts cfg (start w')) refl
                  (connect-Gives attempts cfg w'))
          | inr (why, broken) ↦
              let same : run_configured host attempts cfg w ≡ some (wait_for_obs host (start w')) =
                ground (arith, on, broken) in
              subst IsCovered (sym same) (λ h. absurd (ground (arith, h)))
        ]
