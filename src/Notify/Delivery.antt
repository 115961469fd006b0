-- ===== src/Notify/Delivery.antt =====
-- The fan-out of an alert to the channels, and the throttle in front of it.
use mailcow_watchdog.Prelude.{
  ℕ, ◌<◌, ◌≡◌, ◌≢◌, ◌↔◌, refl, true, false, String, List, [], ◌∷◌, Option, none, some, ok, err, All,
  arith,
}
use mailcow_watchdog.Notify.{
  Alert, Message, Notifier, Reserver, Dispatcher, failure, send_each, join_errors, send_all, admit,
  deliver, dispatch,
}

module _ {World : Type 0} where
  -- What the channels answer, each called once with the message, one after the other.
  unfoldable pub answers : List (Notifier World) → Message → World → List (Option String) × World
  answers [] msg w = ([], w)
  answers (channel ∷ channels) msg w =
      let (a, w') = channel msg w in let (rest, w'') = answers channels msg w' in (a ∷ rest, w'')

abbrev pub failures : List (Option String) → List String
failures [] = []
failures (a ∷ rest) = failure a (failures rest)

send_each-answers :
    {World : Type 0} (channels : List (Notifier World)) (msg : Message) (w : World)
    → send_each channels msg w ≡ (failures (answers channels msg w).0, (answers channels msg w).1)
unfolding send_each answers
send_each-answers [] msg w = refl
send_each-answers (channel ∷ channels) msg w =
    let (a, w') = channel msg w in rw (send_each-answers channels msg w')

pub join_errors-ne-none : (e : String) (errs : List String) → join_errors (e ∷ errs) ≢ none
unfolding join_errors
join_errors-ne-none e [] h = cc
join_errors-ne-none e (f ∷ errs) h = ground arith

pub join_errors-eq-none : (errs : List String) → join_errors errs ≡ none → errs ≡ []
join_errors-eq-none [] h = refl
join_errors-eq-none (e ∷ errs) h = absurd (join_errors-ne-none e errs h)

failures-eq-nil : (outs : List (Option String)) → failures outs ≡ [] → All (λ a. a ≡ none) outs
failures-eq-nil [] h = tt
failures-eq-nil (none ∷ outs) h = (refl, failures-eq-nil outs h)
failures-eq-nil (some e ∷ outs) h = cc

failures_of_none : (outs : List (Option String)) → All (λ a. a ≡ none) outs → failures outs ≡ []
failures_of_none [] h = refl
failures_of_none (none ∷ outs) h = failures_of_none outs h.1
failures_of_none (some e ∷ outs) h = cc h.0

pub join_errors-nil : join_errors [] ≡ none
unfolding join_errors
join_errors-nil = refl

-- A failing channel stops no other: a message goes once to every channel, in order, and the call
-- reports success exactly if every one of them succeeded.
send_all_lem :
    {World : Type 0} (channels : List (Notifier World)) (msg : Message) (w : World)
    → ((send_all channels msg w).1 ≡ (answers channels msg w).1)
      × (((send_all channels msg w).0 ≡ none) ↔ All (λ a. a ≡ none) (answers channels msg w).0)
unfolding send_all
send_all_lem channels msg w =
    let outs = (answers channels msg w).0 in
    rw (send_each-answers channels msg w) (
      refl,
      (
        λ e. failures-eq-nil outs (join_errors-eq-none (failures outs) e),
        λ h. rw (failures_of_none outs h) join_errors-nil,
      ),
    )

-- A throttled alert by the answer of its reservation: a granted slot and an unknown one deliver the
-- rendered alert, a taken one delivers nothing and is no error. Without a throttle no slot is asked
-- for, and without a channel nothing at all happens.
pub dispatch_lem :
    {World : Type 0} (d : Dispatcher World) (send : Notifier World) (reserve : Reserver World)
    (alert : Alert) (w : World) (wait : ℕ) (why : String)
    → d.notifier ≡ some send
    → d.reserver ≡ some reserve
    → let (answer, w') = reserve alert.service alert.throttle w in
      (0 < alert.throttle → answer ≡ ok (true, wait) → dispatch d alert w ≡ deliver d send alert w')
      × (0 < alert.throttle → answer ≡ err why → dispatch d alert w ≡ deliver d send alert w')
      × (0 < alert.throttle → answer ≡ ok (false, wait) → dispatch d alert w ≡ (none, w'))
      × (alert.throttle ≡ 0 → dispatch d alert w ≡ deliver d send alert w)
      × (dispatch (record d { notifier = none }) alert w ≡ (none, w))
unfolding dispatch admit
dispatch_lem d send reserve alert w wait why hn hr = ground arith
