-- ===== src/Supervisor/Handler/Known.antt =====
-- The events about which the supervisor does something.
use mailcow_watchdog.Prelude.{
  ℕ, ◌≡◌, ◌⊎◌, inl, inr, refl, sym, subst, Bool, true, false, ◌||◌, String, [], ◌∷◌, Bool-cases,
  str_eq, by_test, arith,
}
use mailcow_watchdog.Check.{Check, restarts_container}
use mailcow_watchdog.Config.Validation.{one_of}
use mailcow_watchdog.Supervisor.Actions.{Env, State, alert_details}
use mailcow_watchdog.Supervisor.Handler.{restart, handle_bans, handle}
use mailcow_watchdog.Supervisor.Handler.Branches.{handle-restarts}

-- The event has a branch of its own, or names a container to restart.
abbrev pub is_named : String → Bool
is_named event =
    one_of event (
      "ratelimit" ∷ "mail_queue_status" ∷ "external_checks" ∷ "mysql_repl_checks"
      ∷ "dovecot_repl_checks" ∷ "certcheck" ∷ "acme-mailcow" ∷ "fail2ban" ∷ [])
    || restarts_container event

module _ {World : Type 0} (env : Env World) where
  -- The outcome is that of a restart, of the announcement of the bans, or of an alert with the details of
  -- the check.
  abbrev pub IsActedOn : Check World → State World → State World → Type 0
  IsActedOn c s s' =
      (s' ≡ restart env c s)
      ⊎ (s' ≡ handle_bans env c s)
      ⊎ ((message : String) × (throttle : ℕ) × (s' ≡ alert_details env c message throttle s))

  -- Whichever check raises the event, and in whatever state, the supervisor acts on it.
  abbrev pub IsKnown : String → Type 0
  IsKnown event =
      (c : Check World) (s : State World) → c.event ≡ event → IsActedOn c s (handle env c s)

  alerts :
      (c : Check World) (s : State World) (message : String) (throttle : ℕ)
      → IsActedOn c s (alert_details env c message throttle s)
  alerts c s message throttle = inr (inr (message, throttle, refl))

  handle-IsActedOn :
      (c : Check World) (s : State World)
      → is_named c.event ≡ true
      → restarts_container c.event ≡ false
      → IsActedOn c s (handle env c s)
  unfolding handle
  handle-IsActedOn c s h r =
      let P = IsActedOn c s in
      by_test P (str_eq c.event "ratelimit") (λ e. alerts c s _ _)
        (λ a.
          by_test P (str_eq c.event "mail_queue_status") (λ e. alerts c s _ _)
            (λ b.
              by_test P (str_eq c.event "external_checks") (λ e. alerts c s _ _)
                (λ d.
                  by_test P (str_eq c.event "mysql_repl_checks") (λ e. alerts c s _ _)
                    (λ f.
                      by_test P (str_eq c.event "dovecot_repl_checks") (λ e. alerts c s _ _)
                        (λ g.
                          by_test P (str_eq c.event "certcheck") (λ e. alerts c s _ _)
                            (λ i.
                              by_test P (str_eq c.event "acme-mailcow") (λ e. alerts c s _ _)
                                (λ j.
                                  by_test P (str_eq c.event "fail2ban") (λ e. inr (inl refl))
                                    (λ k.
                                      absurd (ground (arith, h, a, b, d, f, g, i, j, k, r))))))))))

  pub named-IsKnown : (event : String) → is_named event ≡ true → IsKnown event
  named-IsKnown event h c s e =
      let h' : is_named c.event ≡ true = subst (λ x. is_named x ≡ true) (sym e) h in
      elim (Bool-cases (restarts_container c.event)) [
        | inl r ↦ inl (handle-restarts env c s r)
        | inr r ↦ handle-IsActedOn c s h' r
      ]
