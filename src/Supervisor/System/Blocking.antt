-- ===== src/Supervisor/System/Blocking.antt =====
-- What the size of the event channel does not prevent.
use mailcow_watchdog.Prelude.{
  ℕ, zero, suc, ◌≤◌, ◌<◌, ◌≡◌, ◌≢◌, refl, ap, ◌∙◌, Bool, true, [], ◌∷◌, ◌++◌, none, some, length,
  length-append, replicate, ◌⊎◌, inl, inr, arith,
}
use mailcow_watchdog.Supervisor.System.{
  Phase, waiting, probing, raising, System, set, initial, Step, begins, goes_on, gives_up, raises,
  takes, pauses, finishes, api_lost, api_back, Reachable, start, next, Steps, stay, then_next,
}

replicate-snoc : (n i : ℕ) → replicate n i ++ i ∷ [] ≡ replicate (suc n) i
replicate-snoc zero i = refl
replicate-snoc (suc n) i = ap (λ xs. i ∷ xs) (replicate-snoc n i)

length-replicate : (n i : ℕ) → length (replicate n i) ≡ n
length-replicate zero i = refl
length-replicate (suc n) i = ap suc (length-replicate n i)

module _ (checks : ℕ) (restarts : ℕ → Bool) (watched : Bool) where
  -- All runners wait at the open gate while an event of check i is being handled and so many more of its
  -- events are in the channel.
  record IsFilled (i n : ℕ) (s : System) : Type 0 where
    is_open : s.is_open ≡ true
    handling : s.handling ≡ some i
    queue : s.queue ≡ replicate n i
    phases : (j : ℕ) → s.phases j ≡ waiting

  -- The three steps by which a runner comes to raise its event.
  comes_to_raise :
      (s : System) (i : ℕ)
      → i < checks
      → s.phases i ≡ waiting
      → s.is_open ≡ true
      → Reachable checks restarts watched s
      → Reachable checks restarts watched
          (record s { phases = set i raising (set i probing s.phases) })
  comes_to_raise s i l w o r = next (next r (begins l w o)) (gives_up l (ground arith))

  settled :
      (phases : ℕ → Phase) (i : ℕ)
      → ((j : ℕ) → phases j ≡ waiting)
      → (j : ℕ) → set i waiting (set i raising (set i probing phases)) j ≡ waiting
  settled phases i w j = ground (arith, w j)

  raises_again :
      (i n : ℕ) (s : System)
      → i < checks
      → n < checks
      → Reachable checks restarts watched s
      → IsFilled i n s
      → (s' : System) × Reachable checks restarts watched s' × IsFilled i (suc n) s'
  raises_again i n s l m r f =
      let r' = comes_to_raise s i l (f.phases i) f.is_open r in
      (
        _,
        next r' (raises l (ground arith) (ground (arith, f.queue, length-replicate n i))),
        record {
          is_open = f.is_open;
          handling = f.handling;
          queue = ap (λ xs. xs ++ i ∷ []) f.queue ∙ replicate-snoc n i;
          phases = settled s.phases i f.phases;
        },
      )

  first_taken :
      (i : ℕ) → i < checks → (s : System) × Reachable checks restarts watched s × IsFilled i 0 s
  unfolding initial
  first_taken i l =
      let r = comes_to_raise initial i l refl refl start in
      (
        _,
        next (next r (raises l (ground arith) (omega arith))) (takes refl refl),
        record {
          is_open = refl;
          handling = refl;
          queue = refl;
          phases = settled (λ j. waiting) i (λ j. refl);
        },
      )

  filled :
      (i n : ℕ)
      → i < checks
      → n ≤ checks
      → (s : System) × Reachable checks restarts watched s × IsFilled i n s
  filled i zero l m = first_taken i l
  filled i (suc n) l m =
      let (s, r, f) = filled i n l (omega arith) in raises_again i n s l (omega arith) r f

  -- An event is in hand, the channel is full, and a runner has an event to raise.
  record IsStuck (j : ℕ) (s : System) : Type 0 where
    full : length s.queue ≡ checks
    busy : s.handling ≢ none
    raises : s.phases j ≡ raising

  -- A step leaves the runner stuck, unless it ends the handling of the event.
  Step-IsStuck :
      (j : ℕ) (s s' : System)
      → IsStuck j s
      → Step checks restarts watched s s'
      → IsStuck j s' ⊎ (length s.handled < length s'.handled)
  Step-IsStuck j s s' k (begins l w o) =
      inl (record { full = k.full; busy = k.busy; raises = ground (arith, k.raises, w) })
  Step-IsStuck j s s' k (goes_on l w) =
      inl (record { full = k.full; busy = k.busy; raises = ground (arith, k.raises, w) })
  Step-IsStuck j s s' k (gives_up l w) =
      inl (record { full = k.full; busy = k.busy; raises = ground (arith, k.raises, w) })
  Step-IsStuck j s s' k (raises l w room) = absurd (omega (arith, k.full))
  Step-IsStuck j s s' k (takes h q) = absurd (k.busy h)
  Step-IsStuck j s s' k (pauses h r p) =
      inl (record { full = k.full; busy = k.busy; raises = k.raises })
  Step-IsStuck j s s' k (finishes {i} h p) = inr (omega (arith, length-append s.handled (i ∷ [])))
  Step-IsStuck j s s' k (api_lost d h) =
      inl (record { full = k.full; busy = k.busy; raises = k.raises })
  Step-IsStuck j s s' k (api_back h) =
      inl (record { full = k.full; busy = k.busy; raises = k.raises })

  Step-handled :
      (s s' : System) → Step checks restarts watched s s' → length s.handled ≤ length s'.handled
  Step-handled s s' (begins l w o) = omega arith
  Step-handled s s' (goes_on l w) = omega arith
  Step-handled s s' (gives_up l w) = omega arith
  Step-handled s s' (raises l w room) = omega arith
  Step-handled s s' (takes h q) = omega arith
  Step-handled s s' (pauses h r p) = omega arith
  Step-handled s s' (finishes {i} h p) = omega (arith, length-append s.handled (i ∷ []))
  Step-handled s s' (api_lost d h) = omega arith
  Step-handled s s' (api_back h) = omega arith

  Steps-handled :
      (s s' : System) → Steps checks restarts watched s s' → length s.handled ≤ length s'.handled
  Steps-handled s s' stay = omega arith
  Steps-handled s s' (then_next {t} steps step) =
      omega (arith, Steps-handled s t steps, Step-handled t s' step)

  Steps-IsStuck :
      (j : ℕ) (s s' : System)
      → IsStuck j s
      → Steps checks restarts watched s s'
      → IsStuck j s' ⊎ (length s.handled < length s'.handled)
  Steps-IsStuck j s s' k stay = inl k
  Steps-IsStuck j s s' k (then_next {t} steps step) = elim (Steps-IsStuck j s t k steps) [
    | inl k' ↦ elim (Step-IsStuck j t s' k' step) [
      | inl k'' ↦ inl k''
      | inr more ↦ inr (omega (arith, Steps-handled s t steps, more))
    ]
    | inr more ↦ inr (omega (arith, more, Step-handled t s' step))
  ]

  -- One slot for each check does not keep a check from blocking on a busy supervisor: while an event of
  -- one check is being handled and the gate is open, that check can fill all the slots with further
  -- events of its own. Any other check that then has an event to raise cannot do so, whatever steps
  -- follow, until the supervisor is through with the event in hand.
  pub reachable-blocks :
      (i j : ℕ)
      → i < checks
      → j < checks
      → j ≢ i
      → (s : System) × Reachable checks restarts watched s
        × (s.handling ≡ some i)
        × (s.is_open ≡ true)
        × (s.queue ≡ replicate checks i)
        × (s.phases j ≡ raising)
        × ((s' : System)
            → Steps checks restarts watched s s'
            → s'.handled ≡ s.handled
            → s'.phases j ≡ raising)
  reachable-blocks i j l m ne =
      let (s, r, f) = filled i checks l (omega arith) in
      let s' = record s { phases = set j raising (set j probing s.phases) } in
      let p : s'.phases j ≡ raising = ground arith in
      let k : IsStuck j s' = record {
        full = ap length f.queue ∙ length-replicate checks i;
        busy = λ h. ground (arith, h, f.handling);
        raises = p;
      } in
      (
        s',
        comes_to_raise s j m (f.phases j) f.is_open r,
        f.handling,
        f.is_open,
        f.queue,
        p,
        λ s'' steps same. elim (Steps-IsStuck j s' s'' k steps) [
          | inl k' ↦ k'.raises
          | inr more ↦ absurd (omega (arith, more, ap length same))
        ],
      )
