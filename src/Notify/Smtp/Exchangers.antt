-- ===== src/Notify/Smtp/Exchangers.antt =====
-- Which exchanger gets a message, and what the sender reports.
use mailcow_watchdog.Prelude.{
  ◌≡◌, ◌≢◌, ◌↔◌, refl, sym, ap, ◌∙◌, String, List, [], ◌∷◌, Option, none, some, Option-cases, inl,
  inr, Result, ok, err, All, map, arith,
}
use mailcow_watchdog.Prelude.Text.{Text}
use mailcow_watchdog.Prelude.Format.{concat}
use mailcow_watchdog.Prelude.Net.{join_host_port, after_at}
use mailcow_watchdog.Notify.{Message, join_errors}
use mailcow_watchdog.Notify.Delivery.{
  answers, join_errors-ne-none, join_errors-eq-none, join_errors-nil,
}
use mailcow_watchdog.Notify.Smtp.{
  Mailer, Sender, and_error, compose, submit, deliver_to, try_each, deliver_via, deliver,
  deliver_each, send,
}

and_error-none :
    (e : String) (rest : Option (List String)) → (and_error e rest ≡ none) ↔ (rest ≡ none)
and_error-none e none = ((λ h. h), (λ h. h))
and_error-none e (some errs) = ((λ h. cc), (λ h. cc))

module _ {World : Type 0} (m : Mailer World) (s : Sender) where
  -- The exchangers fail one after the other until one of them takes the message, from a first world
  -- to a last.
  pub data Taken (rcpt : String) (body : Text) : List String → World → World → Type 0 where
    here :
        {host : String} {hosts : List String} {w w' : World}
        → deliver_to m s host rcpt body w ≡ (none, w')
        → Taken rcpt body (host ∷ hosts) w w'
    later :
        {host : String} {hosts : List String} {w w₁ w' : World} {e : String}
        → deliver_to m s host rcpt body w ≡ (some e, w₁)
        → Taken rcpt body hosts w₁ w'
        → Taken rcpt body (host ∷ hosts) w w'

  try_each-Taken :
      (hosts : List String) (rcpt : String) (body : Text) (w w' : World)
      → try_each m s hosts rcpt body w ≡ (none, w')
      → Taken rcpt body hosts w w'
  unfolding try_each
  try_each-Taken [] rcpt body w w' h = cc
  try_each-Taken (host ∷ hosts) rcpt body w w' h =
      elim (Option-cases (deliver_to m s host rcpt body w).0) [
        | inl taken ↦ here (ground (arith, taken))
        | inr (e, failed) ↦
            let w₁ = (deliver_to m s host rcpt body w).1 in
            later {w₁ = w₁} {e = e} (ground (arith, failed))
              (try_each-Taken hosts rcpt body w₁ w' (ground (arith, failed)))
      ]

  Taken-try_each :
      (rcpt : String) (body : Text) {hosts : List String} {w w' : World}
      → Taken rcpt body hosts w w'
      → try_each m s hosts rcpt body w ≡ (none, w')
  unfolding try_each
  Taken-try_each rcpt body (here e) = ground (arith, e)
  Taken-try_each rcpt body (later e t) = ground (arith, e, Taken-try_each rcpt body t)

  -- A failed row of attempts has an error for each exchanger.
  try_each-ne-nil :
      (host : String) (hosts : List String) (rcpt : String) (body : Text) (w : World)
      → (try_each m s (host ∷ hosts) rcpt body w).0 ≢ some []
  unfolding try_each
  try_each-ne-nil host hosts rcpt body w h = ground arith

  joined-ne-none : (errs : List String) → errs ≢ [] → join_errors errs ≢ none
  joined-ne-none [] ne h = absurd (ne refl)
  joined-ne-none (e ∷ errs) ne h = join_errors-ne-none e errs h

  deliver_via-Taken :
      (answer : Result String (List String)) (domain rcpt : String) (msg : Message) (w w' : World)
      → deliver_via m s answer domain rcpt msg w ≡ (none, w')
      → (hosts : List String) × (answer ≡ ok hosts) × Taken rcpt (compose m s rcpt msg w) hosts w w'
  unfolding deliver_via
  deliver_via-Taken (err e) domain rcpt msg w w' h = absurd (ground arith)
  deliver_via-Taken (ok []) domain rcpt msg w w' h = absurd (ground arith)
  deliver_via-Taken (ok (host ∷ hosts)) domain rcpt msg w w' h =
      let body = compose m s rcpt msg w in
      elim (Option-cases (try_each m s (host ∷ hosts) rcpt body w).0) [
        | inl taken ↦ (
          host ∷ hosts,
          refl,
          try_each-Taken (host ∷ hosts) rcpt body w w' (ground (arith, taken)),
        )
        | inr (errs, failed) ↦
            let ne : errs ≢ [] = λ e. try_each-ne-nil host hosts rcpt body w (failed ∙ ap some e) in
            absurd (ground (arith, failed, joined-ne-none errs ne))
      ]

  Taken-deliver_via :
      (hosts : List String) (domain rcpt : String) (msg : Message) (w w' : World)
      → Taken rcpt (compose m s rcpt msg w) hosts w w'
      → deliver_via m s (ok hosts) domain rcpt msg w ≡ (none, w')
  unfolding deliver_via
  Taken-deliver_via [] domain rcpt msg w w' t = elim t [ ]
  Taken-deliver_via (host ∷ hosts) domain rcpt msg w w' t =
      ground (arith, Taken-try_each rcpt (compose m s rcpt msg w) t)

  -- A message is delivered to a recipient exactly if the recipient has a domain, the look-up names
  -- exchangers, and one of them takes the message after those before it have failed, each tried
  -- once and in the order of the look-up.
  pub deliver_lem :
      (rcpt : String) (msg : Message) (w w' : World)
      → (deliver m s rcpt msg w ≡ (none, w')) ↔ (
          (domain : String) × (hosts : List String) × (after_at rcpt ≡ some domain)
          × ((m.lookup_mx domain w).0 ≡ ok hosts)
          × (let w₁ = (m.lookup_mx domain w).1 in Taken rcpt (compose m s rcpt msg w₁) hosts w₁ w'))
  unfolding deliver
  deliver_lem rcpt msg w w' = (
    λ h. elim (Option-cases (after_at rcpt)) [
      | inl e ↦ absurd (ground (arith, e))
      | inr (domain, e) ↦
          let (answer, w₁) = m.lookup_mx domain w in
          let (hosts, found, t) =
            deliver_via-Taken answer domain rcpt msg w₁ w' (ground (arith, e)) in
          (domain, hosts, e, found, t)
    ],
    λ (domain, hosts, e, found, t).
        ground
          (arith, e, found, Taken-deliver_via hosts domain rcpt msg (m.lookup_mx domain w).1 w' t),
  )

  deliver_to-unclean :
      (host rcpt : String) (body : Text) (w : World) (e : String)
      → let (refused, w₁) = m.dial (join_host_port host s.port) w in
        let (silent, w₂) = m.start host w₁ in
        let (unsent, w₃) = submit m s host rcpt body w₂ in
        let (unclean, w₄) = m.quit w₃ in
        refused ≡ none
        → silent ≡ none
        → unsent ≡ none
        → unclean ≡ some e
        → deliver_to m s host rcpt body w ≡ (some e, m.close_conn (m.close_client w₄))
  unfolding deliver_to
  deliver_to-unclean host rcpt body w e h₁ h₂ h₃ h₄ = ground (arith, h₁, h₂, h₃, h₄)

  try_each-failed :
      (host rcpt : String) (hosts : List String) (body : Text) (w w₁ : World) (e : String)
      → deliver_to m s host rcpt body w ≡ (some e, w₁)
      → let (rest, end) = try_each m s hosts rcpt body w₁ in
        try_each m s (host ∷ hosts) rcpt body w
        ≡ (and_error (concat (host ∷ ": " ∷ e ∷ [])) rest, end)
  unfolding try_each
  try_each-failed host rcpt hosts body w w₁ e h = ground (arith, h)

  -- If an exchanger has taken the message to the end of its data but its QUIT fails, the attempt
  -- counts as failed: the message is submitted to the next exchanger as well, and the delivery
  -- succeeds only if one of those takes it again.
  pub try_each-repeats :
      (host rcpt : String) (hosts : List String) (body : Text) (w : World) (e : String)
      → let (refused, w₁) = m.dial (join_host_port host s.port) w in
        let (silent, w₂) = m.start host w₁ in
        let (unsent, w₃) = submit m s host rcpt body w₂ in
        let (unclean, w₄) = m.quit w₃ in
        let next = try_each m s hosts rcpt body (m.close_conn (m.close_client w₄)) in
        refused ≡ none
        → silent ≡ none
        → unsent ≡ none
        → unclean ≡ some e
        → let (outcome, w') = try_each m s (host ∷ hosts) rcpt body w in
          (w' ≡ next.1) × ((outcome ≡ none) ↔ (next.0 ≡ none))
  try_each-repeats host rcpt hosts body w e h₁ h₂ h₃ h₄ =
      let w₂ = (m.start host (m.dial (join_host_port host s.port) w).1).1 in
      let w₁ = m.close_conn (m.close_client (m.quit (submit m s host rcpt body w₂).1).1) in
      let failed = deliver_to-unclean host rcpt body w e h₁ h₂ h₃ h₄ in
      rw (try_each-failed host rcpt hosts body w w₁ e failed)
        (refl, and_error-none (concat (host ∷ ": " ∷ e ∷ [])) (try_each m s hosts rcpt body w₁).0)

  deliver_each-answers :
      (rcpts : List String) (msg : Message) (w : World)
      → let (errs, w') = deliver_each m s rcpts msg w in
        let (outs, end) = answers (map (deliver m s) rcpts) msg w in
        (w' ≡ end) × ((errs ≡ []) ↔ All (λ a. a ≡ none) outs)
  unfolding deliver_each answers
  deliver_each-answers [] msg w = (refl, ((λ h. tt), (λ h. refl)))
  deliver_each-answers (rcpt ∷ rcpts) msg w =
      let (failed, w₁) = deliver m s rcpt msg w in
      let (same, iff) = deliver_each-answers rcpts msg w₁ in
      let all = (deliver_each m s (rcpt ∷ rcpts) msg w).0 in
      elim (Option-cases failed) [
        | inl sent ↦
            let e : all ≡ (deliver_each m s rcpts msg w₁).0 = ground (arith, sent) in
            (same, ((λ h. (sent, iff.0 (sym e ∙ h))), (λ h. e ∙ iff.1 h.1)))
        | inr (e, unsent) ↦ (
          same,
          ((λ h. absurd (ground (arith, h, unsent))), (λ h. absurd (ground (arith, h.0, unsent)))),
        )
      ]

  -- An unreachable domain stops no other: the delivery to each recipient is attempted once and in
  -- order, and the call reports success exactly if every one of them succeeded.
  send_lem :
      (msg : Message) (w : World)
      → let (outs, end) = answers (map (deliver m s) s.recipients) msg w in
        ((send m s msg w).1 ≡ end) × (((send m s msg w).0 ≡ none) ↔ All (λ a. a ≡ none) outs)
  unfolding send
  send_lem msg w =
      let (same, iff) = deliver_each-answers s.recipients msg w in
      let errs = (deliver_each m s s.recipients msg w).0 in
      (
        same,
        (λ h. iff.0 (join_errors-eq-none errs h), λ h. ap join_errors (iff.1 h) ∙ join_errors-nil),
      )
