-- ===== src/Supervisor/System/Order.antt =====
-- No event is lost, repeated or overtaken.
use mailcow_watchdog.Prelude.{
  ℕ, ◌≤◌, ◌≡◌, refl, sym, ap, ◌∙◌, Bool, List, [], ◌∷◌, ◌++◌, append_assoc, append-nil, Option,
  none, some, length, length-append, arith,
}
use mailcow_watchdog.Supervisor.System.{
  System, initial, Step, begins, goes_on, gives_up, raises, takes, pauses, finishes, api_lost,
  api_back, Reachable, start, next,
}

-- The events that were taken from the channel and are not handled yet.
abbrev pub in_hand : Option ℕ → List ℕ
in_hand none = []
in_hand (some i) = i ∷ []

module _ (checks : ℕ) (restarts : ℕ → Bool) (watched : Bool) where
  pub record IsOrdered (s : System) : Type 0 where
    pub order : s.raised ≡ s.handled ++ in_hand s.handling ++ s.queue
    pub room : length s.queue ≤ checks

  Step-IsOrdered : {s s' : System} → IsOrdered s → Step checks restarts watched s s' → IsOrdered s'
  Step-IsOrdered o (begins l p g) = record { order = o.order; room = o.room }
  Step-IsOrdered o (goes_on l p) = record { order = o.order; room = o.room }
  Step-IsOrdered o (gives_up l p) = record { order = o.order; room = o.room }
  Step-IsOrdered {s = s} o (raises {i = i} l p r) = record {
    order =
        ap (λ xs. xs ++ i ∷ []) o.order
        ∙ append_assoc (s.handled ++ in_hand s.handling) s.queue (i ∷ []);
    room = omega (arith, length-append s.queue (i ∷ []));
  }
  Step-IsOrdered {s = s} o (takes {i = i} {queue = queue} h q) = record {
    order =
        (rw (h, q, append-nil s.handled) at o.order) ∙ sym (append_assoc s.handled (i ∷ []) queue);
    room = omega (arith, rw q at o.room);
  }
  Step-IsOrdered o (pauses h r p) = record { order = o.order; room = o.room }
  Step-IsOrdered {s = s} o (finishes {i = i} h p) = record {
    order = (rw h at o.order) ∙ sym (ap (λ xs. xs ++ s.queue) (append-nil (s.handled ++ i ∷ [])));
    room = o.room;
  }
  Step-IsOrdered o (api_lost d h) = record { order = o.order; room = o.room }
  Step-IsOrdered o (api_back h) = record { order = o.order; room = o.room }

  -- However the runners, the handler and the watcher are interleaved: the events that were raised are
  -- those handled, the one in hand and those in the channel, in this order, and the channel holds at
  -- most as many as there are checks.
  pub reachable-IsOrdered : {s : System} → Reachable checks restarts watched s → IsOrdered s
  unfolding initial
  reachable-IsOrdered start = record { order = refl; room = omega arith }
  reachable-IsOrdered (next r e) = Step-IsOrdered (reachable-IsOrdered r) e
