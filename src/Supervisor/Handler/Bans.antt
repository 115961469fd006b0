-- ===== src/Supervisor/Handler/Bans.antt =====
-- The notifications about banned addresses.
use mailcow_watchdog.Prelude.{
  ℕ, ◌≡◌, refl, sym, ap, ◌∙◌, Bool, true, false, not, String, List, [], ◌∷◌, ◌++◌, append_assoc,
  append-nil, map, map-append, none, some, Option-cases, inl, inr, if◌then◌else◌, arith,
}
use mailcow_watchdog.Prelude.Format.{concat}
use mailcow_watchdog.Check.{Check}
use mailcow_watchdog.Notify.{Alert, Dispatcher}
use mailcow_watchdog.Supervisor.Actions.{
  Env, State, Action, emit, alert, SendOutcome, dispatched, looked_up, event_observed,
  notification_observed,
}
use mailcow_watchdog.Supervisor.Handler.{look_up, handle_ban, handle_each, handle_bans}

-- The alerts that a trace holds, in order.
abbrev pub alerts : List Action → List Alert
alerts [] = []
alerts (dispatched a ∷ acts) = a ∷ alerts acts
alerts (_ ∷ acts) = alerts acts

alerts-append : (xs ys : List Action) → alerts (xs ++ ys) ≡ alerts xs ++ alerts ys
alerts-append [] ys = refl
alerts-append (dispatched a ∷ xs) ys = ap (λ l. a ∷ l) (alerts-append xs ys)
alerts-append (Action.gate_paused ∷ xs) ys = alerts-append xs ys
alerts-append (_ ∷ xs) ys = alerts-append xs ys

alerts-sent :
    (a : Alert) (o : SendOutcome) (t : List Action)
    → alerts ((t ++ dispatched a ∷ []) ++ notification_observed o ∷ []) ≡ alerts t ++ a ∷ []
alerts-sent a o t =
    alerts-append (t ++ dispatched a ∷ []) (notification_observed o ∷ [])
    ∙ append-nil (alerts (t ++ dispatched a ∷ []))
    ∙ alerts-append t (dispatched a ∷ [])

unless_true {ℓ} : {A : Type ℓ} → (b : Bool) (x y : A) → b ≡ true → (if not b then x else y) ≡ y
unless_true true x y e = refl
unless_true false x y e = absurd (ground arith)

-- What a ban notification says, apart from the registry record.
abbrev pub headline : Alert → String × String × ℕ
headline a = (a.service, a.message, a.throttle)

abbrev pub ban_headline : String → String → String × String × ℕ
ban_headline event host = (event, concat ("IP ban: " ∷ host ∷ []), 0)

module _ {World : Type 0} (env : Env World) where
  abbrev pub headlines : State World → List (String × String × ℕ)
  headlines s = map headline (alerts s.trace)

  look_up-alerts :
      (host : String) (s : State World) → alerts (look_up env host s).1.trace ≡ alerts s.trace
  unfolding look_up
  look_up-alerts host s = elim (Option-cases env.whois) [
    | inl e ↦ rw (e, look_up)
    | inr (whois, e) ↦
        rw (e, look_up) (alerts-append s.trace (looked_up host ∷ []) ∙ append-nil (alerts s.trace))
  ]

  alert-alerts :
      (d : Dispatcher World) (a : Alert) (s : State World)
      → env.dispatcher ≡ some d
      → alerts (alert env a s).trace ≡ alerts s.trace ++ a ∷ []
  unfolding alert
  alert-alerts d a s e = rw (e, alert) (alerts-sent a _ s.trace)

  handle_ban-headlines :
      (d : Dispatcher World) (c : Check World) (host : String) (s : State World)
      → env.dispatcher ≡ some d
      → env.notify_bans ≡ true
      → headlines (handle_ban env c host s) ≡ headlines s ++ ban_headline c.event host ∷ []
  unfolding handle_ban
  handle_ban-headlines d c host s e n =
      let (details, s') = look_up env host s in
      let a : Alert = record {
        service = c.event;
        message = concat ("IP ban: " ∷ host ∷ []);
        details = details;
        throttle = 0;
      } in
      ap headlines (unless_true env.notify_bans s' (alert env a s') n)
      ∙ ap (map headline) (alert-alerts d a s' e)
      ∙ ap (λ l. map headline (l ++ a ∷ [])) (look_up-alerts host s)
      ∙ map-append headline (alerts s.trace) (a ∷ [])

  handle_each-headlines :
      (d : Dispatcher World) (c : Check World) (hosts : List String) (s : State World)
      → env.dispatcher ≡ some d
      → env.notify_bans ≡ true
      → headlines (handle_each env c hosts s) ≡ headlines s ++ map (ban_headline c.event) hosts
  unfolding handle_each
  handle_each-headlines d c [] s e n = sym (append-nil (headlines s))
  handle_each-headlines d c (host ∷ hosts) s e n =
      handle_each-headlines d c hosts (handle_ban env c host s) e n
      ∙ ap (λ l. l ++ map (ban_headline c.event) hosts) (handle_ban-headlines d c host s e n)
      ∙ append_assoc (headlines s) (ban_headline c.event host ∷ [])
          (map (ban_headline c.event) hosts)

  -- With bans to be notified and a dispatcher, every address that the check reports is announced
  -- once, in order and unthrottled, whether or not its registry record could be found.
  pub handle_bans-headlines :
      (d : Dispatcher World) (c : Check World) (bans : World → List String) (s : State World)
      → env.dispatcher ≡ some d
      → env.notify_bans ≡ true
      → c.bans ≡ some bans
      → headlines (handle_bans env c s) ≡ headlines s ++ map (ban_headline c.event) (bans s.world)
  unfolding handle_bans
  handle_bans-headlines d c bans s e n b =
      let s' = emit (event_observed c.event "notify") s in
      ap (λ o. headlines (handle_each env c (elim o [ none ↦ [] | some f ↦ f s.world ]) s')) b
      ∙ handle_each-headlines d c (bans s.world) s' e n
      ∙ ap (λ l. map headline l ++ map (ban_headline c.event) (bans s.world))
          (alerts-append s.trace (event_observed c.event "notify" ∷ [])
            ∙ append-nil (alerts s.trace))
