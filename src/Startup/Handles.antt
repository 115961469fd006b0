-- ===== src/Startup/Handles.antt =====
-- What the start has opened, what it closes, and when it reports ready.
use mailcow_watchdog.Prelude.{
  ℕ, ◌≡◌, refl, sym, ap, ◌∙◌, subst, Bool, true, false, String, List, [], ◌∷◌, ◌++◌, Option, none,
  some, inl, inr, Result, ok, err, Some, str_eq, if◌then◌else◌,
}
use mailcow_watchdog.Config.{Config, app_dsn, root_dsn}
use mailcow_watchdog.Startup.{
  Handle, app_db, root_db, redis, local_redis, Action, opened, closed, available, ready_set,
  supervised, Host, State, start, open_handle, Stage, go_on, pure, lift, wait_for, waited, await,
  opened_db, open_sql, open_store, make_docker, make_dispatcher, connect,
}

-- The handles that a trace opens, the last first, and those that it closes, the first first.
abbrev pub opened_in : List Action → List Handle
opened_in [] = []
opened_in (opened h ∷ t) = h ∷ opened_in t
opened_in (_ ∷ t) = opened_in t

abbrev pub closed_in : List Action → List Handle
closed_in [] = []
closed_in (closed h ∷ t) = closed_in t ++ h ∷ []
closed_in (_ ∷ t) = closed_in t

abbrev pub Reached : String → List Action → Type 0
Reached what = Some (λ a. a ≡ available what)

-- Before the readiness is reported and the supervisor started, SQL and Redis have answered.
abbrev pub IsGuarded : List Action → Type 0
IsGuarded [] = Unit
IsGuarded (ready_set ∷ t) = Reached "SQL" t × Reached "Redis" t × IsGuarded t
IsGuarded (supervised checks ∷ t) = Reached "SQL" t × Reached "Redis" t × IsGuarded t
IsGuarded (_ ∷ t) = IsGuarded t

module _ {World : Type 0} where
  -- Every opened handle has its closer, and nothing is closed yet.
  pub record IsTidy (s : State World) : Type 0 where
    pub opens : opened_in s.trace ≡ s.closers
    pub closes : closed_in s.trace ≡ []
    pub guarded : IsGuarded s.trace

  -- The second state has all that the first had, and neither opened nor closed anything.
  pub record Keeps (s s' : State World) : Type 0 where
    pub opens : opened_in s'.trace ≡ opened_in s.trace
    pub closes : closed_in s'.trace ≡ closed_in s.trace
    pub reached : (what : String) → Reached what s.trace → Reached what s'.trace
    pub guarded : IsGuarded s.trace → IsGuarded s'.trace

  pub Keeps-refl : (s s' : State World) → s'.trace ≡ s.trace → Keeps s s'
  Keeps-refl s s' e = record {
    opens = ap opened_in e;
    closes = ap closed_in e;
    reached = λ what. subst (Reached what) (sym e);
    guarded = subst IsGuarded (sym e);
  }

  pub Keeps-trans : (s s' s'' : State World) → Keeps s s' → Keeps s' s'' → Keeps s s''
  Keeps-trans s s' s'' k l = record {
    opens = l.opens ∙ k.opens;
    closes = l.closes ∙ k.closes;
    reached = λ what r. l.reached what (k.reached what r);
    guarded = λ g. l.guarded (k.guarded g);
  }

  -- A stage leaves a tidy state when it fails, and Q when it succeeds.
  abbrev pub Meets :
      {A : Type 0} → (A → State World → Type 0) → Option (Result String A × State World) → Type 0
  Meets Q none = Unit
  Meets Q (some (err e, s)) = IsTidy s
  Meets Q (some (ok a, s)) = Q a s

  go_on-Meets :
      {A B : Type 0} (R : A → State World → Type 0) (Q : B → State World → Type 0)
      (f : A → Stage World B) (o : Option (Result String A × State World))
      → Meets R o
      → ((a : A) (s : State World) → R a s → Meets Q (f a s))
      → Meets Q (go_on f o)
  go_on-Meets R Q f none m n = tt
  go_on-Meets R Q f (some (err e, s)) m n = m
  go_on-Meets R Q f (some (ok a, s)) m n = n a s m

  open_handle-IsTidy : (h : Handle) (s : State World) → IsTidy s → IsTidy (open_handle h s)
  open_handle-IsTidy h s t = record {
    opens = ap (λ hs. h ∷ hs) t.opens;
    closes = t.closes;
    guarded = t.guarded;
  }

  opened_db-Meets :
      (format : String) (h : Handle) (o : Option String) (s : State World)
      → IsTidy s
      → Meets (λ _. IsTidy) (opened_db format h o s)
  opened_db-Meets format h none s t = open_handle-IsTidy h s t
  opened_db-Meets format h (some e) s t = t

  -- The dependency is available and nothing else has happened.
  abbrev Answered : String → List Action → Unit {0} → State World → Type 0
  Answered what t _ s = IsTidy s × (s.trace ≡ available what ∷ t)

  waited-Meets :
      (what : String) (o : Option (Option String × World)) (s : State World)
      → IsTidy s
      → Meets (Answered what s.trace) (waited what o s)
  waited-Meets what none s t = tt
  waited-Meets what (some (none, w)) s t =
      (record { opens = t.opens; closes = t.closes; guarded = t.guarded }, refl)
  waited-Meets what (some (some e, w)) s t = record {
    opens = t.opens;
    closes = t.closes;
    guarded = t.guarded;
  }

module _ {World : Type 0} (host : Host World) where
  open_sql-Meets :
      (dsn : String) (h : Handle) (format : String) (s : State World)
      → IsTidy s
      → Meets (λ _. IsTidy) (open_sql host dsn h format s)
  unfolding open_sql
  open_sql-Meets dsn h format s t =
      opened_db-Meets format h (host.open_db dsn s.world).0 _
        (record { opens = t.opens; closes = t.closes; guarded = t.guarded })

  -- What a stage that is left out leaves.
  unless-Meets :
      (b : Bool) (m : Stage World (Unit {0})) (s : State World)
      → IsTidy s
      → Meets (λ _. IsTidy) (m s)
      → Meets (λ _. IsTidy) ((if b then m else pure tt) s)
  unless-Meets true m s t d = d
  unless-Meets false m s t d = t

  when-Meets :
      (b : Bool) (m : Stage World (Unit {0})) (s : State World)
      → IsTidy s
      → Meets (λ _. IsTidy) (m s)
      → Meets (λ _. IsTidy) ((if b then pure tt else m) s)
  when-Meets true m s t d = t
  when-Meets false m s t d = d

  -- What `connect` leaves when it succeeds.
  abbrev pub HasBoth : State World → Type 0
  HasBoth s = IsTidy s × Reached "SQL" s.trace × Reached "Redis" s.trace

  built-Meets :
      {A B : Type 0} (r : Result String A) (f : A → B) (s : State World)
      → HasBoth s
      → Meets (λ _. HasBoth) (go_on (λ a. pure (f a)) (lift r s))
  built-Meets (err e) f s h = h.0
  built-Meets (ok a) f s h = h

  pub connect-Meets :
      (attempts : ℕ) (cfg : Config) (w : World)
      → Meets (λ _. HasBoth) (connect host attempts cfg (start w))
  unfolding connect await
  connect-Meets attempts cfg w =
      let begun : IsTidy (start w) = record { opens = refl; closes = refl; guarded = tt } in
      go_on-Meets (λ _. IsTidy) _ _ _
        (open_sql-Meets (app_dsn cfg.db) app_db "opening the mailcow database: %w" (start w) begun)
        (λ _ s t.
          go_on-Meets (λ _. IsTidy) _ _ _
            (unless-Meets cfg.checks.mysql_repl.enabled _ s t
              (open_sql-Meets (root_dsn cfg.db) root_db "opening the database as root: %w" s t))
            (λ _ s t.
              go_on-Meets (λ _. IsTidy) _ _ _
                (when-Meets (str_eq cfg.redis.addr cfg.redis.local_addr) (open_store local_redis) _
                  (open_handle-IsTidy redis s t)
                  (open_handle-IsTidy local_redis _ (open_handle-IsTidy redis s t)))
                (λ _ s t.
                  go_on-Meets (Answered "SQL" s.trace) _ _ _
                    (waited-Meets "SQL" (wait_for host attempts (host.ping app_db) s.world) s t)
                    (λ _ s h.
                      go_on-Meets (Answered "Redis" s.trace) _ _ _
                        (waited-Meets "Redis" (wait_for host attempts (host.ping redis) s.world) s
                          h.0)
                        (λ _ s' k.
                          built-Meets (make_docker host cfg)
                            (λ docker. record {
                              docker = docker;
                              dispatcher = make_dispatcher host cfg;
                            })
                            s'
                            (
                              k.0,
                              subst (Reached "SQL") (sym k.1)
                                  (inr (subst (Reached "SQL") (sym h.1) (inl refl))),
                              subst (Reached "Redis") (sym k.1) (inl refl),
                            ))))))
