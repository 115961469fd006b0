-- ===== src/Supervisor/System/Progress.antt =====
-- The goroutines can always get an event of any check handled.
use mailcow_watchdog.Prelude.{
  ℕ, ◌<◌, ◌≡◌, ◌⊎◌, inl, inr, refl, sym, ap, ◌∙◌, Bool, true, false, List, [], ◌∷◌, ◌++◌,
  append-nil, none, some, Option-cases, Bool-cases, arith,
}
use mailcow_watchdog.Supervisor.System.{
  Phase, waiting, probing, raising, System, initial, Step, begins, goes_on, gives_up, raises, takes,
  pauses, finishes, api_lost, api_back, Reachable, start, next, Steps, stay, then_next, Steps-trans,
  Reachable-Steps,
}
use mailcow_watchdog.Supervisor.System.Order.{reachable-IsOrdered}

module _ (checks : ℕ) (restarts : ℕ → Bool) (watched : Bool) where
  -- The handler has paused the gate only for an event that restarts, and the gate is closed only by the
  -- handler or the watcher.
  record IsAccounted (s : System) : Type 0 where
    pauser : s.paused ≡ true → (i : ℕ) × (s.handling ≡ some i) × (restarts i ≡ true)
    closer : s.is_open ≡ false → (s.held ≡ true) ⊎ (s.paused ≡ true)

  Step-IsAccounted :
      {s s' : System} → IsAccounted s → Step checks restarts watched s s' → IsAccounted s'
  Step-IsAccounted a (begins l p g) = record { pauser = a.pauser; closer = a.closer }
  Step-IsAccounted a (goes_on l p) = record { pauser = a.pauser; closer = a.closer }
  Step-IsAccounted a (gives_up l p) = record { pauser = a.pauser; closer = a.closer }
  Step-IsAccounted a (raises l p r) = record { pauser = a.pauser; closer = a.closer }
  Step-IsAccounted a (takes n q) = record {
    pauser = λ h. let (i, busy, r) = a.pauser h in absurd (ground (arith, n, busy));
    closer = a.closer;
  }
  Step-IsAccounted a (pauses {i} h r p) = record { pauser = λ e. (i, h, r); closer = λ e. inr refl }
  Step-IsAccounted {s = s} a (finishes {i} h p) = record {
    pauser = λ e. absurd (ground (arith, e));
    closer = λ e. elim (Bool-cases (restarts i)) [
      | inl r ↦ absurd (ground (arith, e, r))
      | inr r ↦ elim (a.closer (rw r at e)) [
        | inl held ↦ inl held
        | inr paused ↦ absurd (ground (arith, p, paused, r))
      ]
    ];
  }
  Step-IsAccounted a (api_lost d h) = record { pauser = a.pauser; closer = λ e. inl refl }
  Step-IsAccounted a (api_back h) = record {
    pauser = a.pauser;
    closer = λ e. absurd (ground (arith, e));
  }

  reachable-IsAccounted : {s : System} → Reachable checks restarts watched s → IsAccounted s
  unfolding initial
  reachable-IsAccounted start = record {
    pauser = λ e. absurd (ground (arith, e));
    closer = λ e. absurd (ground (arith, e));
  }
  reachable-IsAccounted (next r e) = Step-IsAccounted (reachable-IsAccounted r) e

  -- A state that some steps lead to, in which nothing is in hand.
  abbrev Frees : System → List ℕ → List ℕ → Type 0
  Frees s raised queue =
      (s' : System) × Steps checks restarts watched s s'
      × (s'.handling ≡ none)
      × (s'.raised ≡ raised)
      × (s'.queue ≡ queue)

  -- The event in hand is handled to its end.
  finish :
      (s : System) (i : ℕ)
      → Reachable checks restarts watched s
      → s.handling ≡ some i
      → Frees s s.raised s.queue
  finish s i r h = elim (Bool-cases (restarts i)) [
    | inl e ↦ elim (Bool-cases s.paused) [
      | inl p ↦ (_, then_next stay (finishes h (p ∙ sym e)), refl, refl, refl)
      | inr p ↦
          (_, then_next (then_next stay (pauses h e p)) (finishes h (sym e)), refl, refl, refl)
    ]
    | inr e ↦ elim (Bool-cases s.paused) [
      | inl p ↦
          let (j, busy, e') = (reachable-IsAccounted r).pauser p in
          absurd (ground (arith, h, busy, e, e'))
      | inr p ↦ (_, then_next stay (finishes h (p ∙ sym e)), refl, refl, refl)
    ]
  ]

  -- The events in the channel are taken and handled one after the other.
  drain :
      (queue : List ℕ) (s : System)
      → Reachable checks restarts watched s
      → s.handling ≡ none
      → s.queue ≡ queue
      → Frees s s.raised []
  drain [] s r h q = (s, stay, h, refl, q)
  drain (i ∷ queue) s r h q =
      let s₁ : System = record s { handling = some i; queue = queue } in
      let taken : Steps checks restarts watched s s₁ = then_next stay (takes h q) in
      let (s₂, steps, h₂, e₂, q₂) = finish s₁ i (Reachable-Steps _ _ _ r taken) refl in
      let there = Steps-trans _ _ _ taken steps in
      let (s₃, more, h₃, e₃, q₃) = drain queue s₂ (Reachable-Steps _ _ _ r there) h₂ q₂ in
      (s₃, Steps-trans _ _ _ there more, h₃, e₃ ∙ e₂, q₃)

  -- Everything that was raised is handled.
  settles : (s : System) → Reachable checks restarts watched s → Frees s s.raised []
  settles s r = elim (Option-cases s.handling) [
    | inl h ↦ drain s.queue s r h refl
    | inr (i, h) ↦
        let (s₁, steps, h₁, e₁, q₁) = finish s i r h in
        let (s₂, more, h₂, e₂, q₂) = drain s₁.queue s₁ (Reachable-Steps _ _ _ r steps) h₁ refl in
        (s₂, Steps-trans _ _ _ steps more, h₂, e₂ ∙ e₁, q₂)
  ]

  -- The runner of check i comes to the select that sends its event, through the open gate.
  to_raise :
      (s : System) (i : ℕ) (p : Phase)
      → i < checks
      → s.phases i ≡ p
      → s.is_open ≡ true
      → (phases : ℕ → Phase) × Steps checks restarts watched s (record s { phases = phases })
        × (phases i ≡ raising)
  to_raise s i waiting l e g =
      (_, then_next (then_next stay (begins l e g)) (gives_up l (ground arith)), ground arith)
  to_raise s i probing l e g = (_, then_next stay (gives_up l e), ground arith)
  to_raise s i raising l e g = (s.phases, stay, e)

  -- From a state in which the gate is open and the channel empty, the runner of check i raises its event,
  -- and it is handled.
  raise_one :
      (s : System) (i : ℕ)
      → i < checks
      → Reachable checks restarts watched s
      → s.is_open ≡ true
      → s.queue ≡ []
      → Frees s (s.raised ++ i ∷ []) []
  raise_one s i l r g q =
      let (phases, steps, e) = to_raise s i (s.phases i) l refl g in
      let there = then_next steps (raises l e (ground (arith, q))) in
      let (s', more, h, e', q') = settles _ (Reachable-Steps _ _ _ r there) in
      (s', Steps-trans _ _ _ there more, h, e', q')

  -- The watcher lets the checks go if it holds them.
  opens :
      (s : System)
      → Reachable checks restarts watched s
      → s.handling ≡ none
      → (s' : System) × Steps checks restarts watched s s'
        × (s'.is_open ≡ true)
        × (s'.raised ≡ s.raised)
        × (s'.queue ≡ s.queue)
  opens s r h = elim (Bool-cases s.is_open) [
    | inl g ↦ (s, stay, g, refl, refl)
    | inr g ↦ elim ((reachable-IsAccounted r).closer g) [
      | inl held ↦ (_, then_next stay (api_back held), refl, refl, refl)
      | inr p ↦
          let (i, busy, e) = (reachable-IsAccounted r).pauser p in absurd (ground (arith, h, busy))
    ]
  ]

  all_handled :
      (s : System)
      → Reachable checks restarts watched s
      → s.handling ≡ none
      → s.queue ≡ []
      → s.handled ≡ s.raised
  all_handled s r h q =
      let o = (reachable-IsOrdered checks restarts watched r).order in
      let o' = rw (h, q) at o in sym (o' ∙ append-nil (s.handled ++ []) ∙ append-nil s.handled)

  -- From every reachable state, whoever holds the gate and wherever its runner stands, an event of any
  -- of the checks can still be handled: some steps of the goroutines lead to a state in which all
  -- that was raised before has been handled, in order, then one more event of the check, and
  -- nothing is left in hand or in the channel.
  pub reachable-handles :
      {s : System} (i : ℕ)
      → i < checks
      → Reachable checks restarts watched s
      → (s' : System) × Steps checks restarts watched s s'
        × (s'.handled ≡ s.raised ++ i ∷ [])
        × (s'.handling ≡ none)
        × (s'.queue ≡ [])
  reachable-handles {s = s} i l r =
      let (s₁, steps, h, e, q) = settles s r in
      let r₁ = Reachable-Steps _ _ _ r steps in
      let (s₂, back, g, e₂, q₂) = opens s₁ r₁ h in
      let there = Steps-trans _ _ _ steps back in
      let r₂ = Reachable-Steps _ _ _ r there in
      let (s₃, more, h₃, e₃, q₃) = raise_one s₂ i l r₂ g (q₂ ∙ q) in
      let all = Steps-trans _ _ _ there more in
      let done = all_handled s₃ (Reachable-Steps _ _ _ r all) h₃ q₃ in
      (s₃, all, done ∙ e₃ ∙ ap (λ xs. xs ++ i ∷ []) (e₂ ∙ e), h₃, q₃)
