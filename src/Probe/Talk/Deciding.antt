-- ===== src/Probe/Talk/Deciding.antt =====
-- How the verdict of a conversation follows from its steps.
use mailcow_watchdog.Prelude.{
  ℕ, ◌==◌, ==_iff, ◌≡◌, ◌≢◌, ◌↔◌, refl, sym, subst, Bool, true, false, not, String, Option, none,
  some, Result, ok, err, if◌then◌else◌, arith,
}
use mailcow_watchdog.Health.{Status}
use mailcow_watchdog.Probe.Talk.{
  Verdict, Talk, Left, go_on, pure, demand, judge, call, judge_value, fetch, closed_by, verdict_of,
}

-- A verdict that is not OK.
abbrev pub IsBad : Verdict → Type 0
IsBad v = v.status ≢ Status.ok

abbrev Yields : {A : Type 0} → (A → Type 0) → Result String A → Type 0
Yields R (ok a) = R a
Yields R (err e) = Unit {0}

module _ {World : Type 0} where
  -- A conversation comes to a verdict, which is OK exactly if R holds.
  abbrev pub Decides : Type 0 → Left World Verdict → Type 0
  Decides R none = ⊥
  Decides R (some (err v, w)) = (v.status ≡ Status.ok) ↔ R
  Decides R (some (ok v, w)) = (v.status ≡ Status.ok) ↔ R

  -- Another description of the same case.
  pub Decides-iff : {P Q : Type 0} (o : Left World Verdict) → P ↔ Q → Decides P o → Decides Q o
  Decides-iff none e d = d
  Decides-iff (some (err v, w)) e d = ((λ h. e.0 (d.0 h)), (λ q. d.1 (e.1 q)))
  Decides-iff (some (ok v, w)) e d = ((λ h. e.0 (d.0 h)), (λ q. d.1 (e.1 q)))

  -- The rules of the steps: what is decided is that the step succeeds and what follows succeeds.
  judge-Decides :
      (verdict : String → Verdict) (failed : Option String) (w : World)
      (k : Unit {0} → Talk World Verdict) (R : Type 0)
      → ((e : String) → IsBad (verdict e))
      → Decides R (k tt w)
      → Decides ((failed ≡ none) × R) (go_on k (judge verdict failed w))
  judge-Decides verdict none w k R h d = Decides-iff (k tt w) ((λ r. (refl, r)), (λ p. p.1)) d
  judge-Decides verdict (some e) w k R h d =
      ((λ p. absurd (h e p)), (λ p. absurd (ground (arith, p.0))))

  pub call-Decides :
      (f : World → Option String × World) (verdict : String → Verdict) (w : World)
      (k : Unit {0} → Talk World Verdict) (R : Type 0)
      → ((e : String) → IsBad (verdict e))
      → (let w' = (f w).1 in Decides R (k tt w'))
      → Decides (((f w).0 ≡ none) × R) (go_on k (call f verdict w))
  call-Decides f verdict w k R h d =
      let (failed, w') = f w in judge-Decides verdict failed w' k R h d

  judge_value-Decides :
      {A : Type 0} (verdict : String → Verdict) (answer : Result String A) (w : World)
      (k : A → Talk World Verdict) (R : A → Type 0)
      → ((e : String) → IsBad (verdict e))
      → ((a : A) → Decides (R a) (k a w))
      → Decides ((a : A) × (answer ≡ ok a) × R a) (go_on k (judge_value verdict answer w))
  judge_value-Decides verdict (ok a) w k R h d =
      Decides-iff (k a w) ((λ r. (a, refl, r)), (λ (b, e, r). subst (Yields R) (sym e) r)) (d a)
  judge_value-Decides verdict (err e) w k R h d =
      ((λ p. absurd (h e p)), (λ (a, q, r). absurd (ground (arith, q))))

  pub fetch-Decides :
      {A : Type 0} (f : World → Result String A × World) (verdict : String → Verdict) (w : World)
      (k : A → Talk World Verdict) (R : A → Type 0)
      → ((e : String) → IsBad (verdict e))
      → (let w' = (f w).1 in (a : A) → Decides (R a) (k a w'))
      → Decides ((a : A) × ((f w).0 ≡ ok a) × R a) (go_on k (fetch f verdict w))
  fetch-Decides f verdict w k R h d =
      let (answer, w') = f w in judge_value-Decides verdict answer w' k R h d

  pub demand-Decides :
      (b : Bool) (v : Verdict) (w : World) (k : Unit {0} → Talk World Verdict) (R : Type 0)
      → IsBad v
      → Decides R (k tt w)
      → Decides ((b ≡ true) × R) (go_on k (demand b v w))
  demand-Decides true v w k R h d = Decides-iff (k tt w) ((λ r. (refl, r)), (λ p. p.1)) d
  demand-Decides false v w k R h d = ((λ p. absurd (h p)), (λ p. absurd (ground (arith, p.0))))

  -- The same for the last test of a conversation.
  pub last_demand-Decides :
      (b : Bool) (v : Verdict) (w : World) (k : Unit {0} → Talk World Verdict)
      → IsBad v
      → Decides (Unit {0}) (k tt w)
      → Decides (b ≡ true) (go_on k (demand b v w))
  last_demand-Decides true v w k h d = Decides-iff (k tt w) ((λ r. refl), (λ p. tt)) d
  last_demand-Decides false v w k h d = ((λ p. absurd (h p)), (λ p. absurd (ground (arith, p))))

  pub equal-Decides :
      (a b : ℕ) (v : Verdict) (w : World) (k : Unit {0} → Talk World Verdict) (R : Type 0)
      → IsBad v
      → Decides R (k tt w)
      → Decides ((a ≡ b) × R) (go_on k (demand (a == b) v w))
  equal-Decides a b v w k R h d =
      let e = ==_iff a b in
      Decides-iff (go_on k (demand (a == b) v w)) ((λ p. (e.0 p.0, p.1)), (λ p. (e.1 p.0, p.1)))
        (demand-Decides (a == b) v w k R h d)

  -- A step that consists of two steps.
  go_on_assoc :
      {A B C : Type 0} (o : Left World A) (f : A → Talk World B) (k : B → Talk World C)
      → go_on k (go_on f o) ≡ go_on (λ a w. go_on k (f a w)) o
  go_on_assoc none f k = refl
  go_on_assoc (some (err v, w)) f k = refl
  go_on_assoc (some (ok a, w)) f k = refl

  steps-Decides :
      {A B : Type 0} (R : Type 0) (o : Left World A) (f : A → Talk World B)
      (k : B → Talk World Verdict)
      → Decides R (go_on (λ a w. go_on k (f a w)) o)
      → Decides R (go_on k (go_on f o))
  steps-Decides R o f k d = subst (Decides R) (sym (go_on_assoc o f k)) d

  -- The rules for a step at the head of a part of the conversation.
  pub part_fetch-Decides :
      {A B : Type 0} (f : World → Result String A × World) (verdict : String → Verdict) (w : World)
      (g : A → Talk World B) (k : B → Talk World Verdict) (R : A → Type 0)
      → ((e : String) → IsBad (verdict e))
      → (let w' = (f w).1 in (a : A) → Decides (R a) (go_on k (g a w')))
      → Decides ((a : A) × ((f w).0 ≡ ok a) × R a) (go_on k (go_on g (fetch f verdict w)))
  part_fetch-Decides f verdict w g k R h d =
      steps-Decides _ (fetch f verdict w) g k
        (fetch-Decides f verdict w (λ a w. go_on k (g a w)) R h d)

  pub part_call-Decides :
      {B : Type 0} (f : World → Option String × World) (verdict : String → Verdict) (w : World)
      (g : Unit {0} → Talk World B) (k : B → Talk World Verdict) (R : Type 0)
      → ((e : String) → IsBad (verdict e))
      → (let w' = (f w).1 in Decides R (go_on k (g tt w')))
      → Decides (((f w).0 ≡ none) × R) (go_on k (go_on g (call f verdict w)))
  part_call-Decides f verdict w g k R h d =
      steps-Decides _ (call f verdict w) g k
        (call-Decides f verdict w (λ a w. go_on k (g a w)) R h d)

  pub part_demand-Decides :
      {B : Type 0} (b : Bool) (v : Verdict) (w : World) (g : Unit {0} → Talk World B)
      (k : B → Talk World Verdict) (R : Type 0)
      → IsBad v
      → Decides R (go_on k (g tt w))
      → Decides ((b ≡ true) × R) (go_on k (go_on g (demand b v w)))
  part_demand-Decides b v w g k R h d =
      steps-Decides _ (demand b v w) g k (demand-Decides b v w (λ a w. go_on k (g a w)) R h d)

  pub part_equal-Decides :
      {B : Type 0} (a b : ℕ) (v : Verdict) (w : World) (g : Unit {0} → Talk World B)
      (k : B → Talk World Verdict) (R : Type 0)
      → IsBad v
      → Decides R (go_on k (g tt w))
      → Decides ((a ≡ b) × R) (go_on k (go_on g (demand (a == b) v w)))
  part_equal-Decides a b v w g k R h d =
      steps-Decides _ (demand (a == b) v w) g k
        (equal-Decides a b v w (λ a w. go_on k (g a w)) R h d)

  -- The same test as an `if` with an early return.
  pub check-Decides :
      {A : Type 0} (b : Bool) (v : Verdict) (a : A) (w : World) (k : A → Talk World Verdict)
      → IsBad v
      → Decides (Unit {0}) (k a w)
      → Decides (b ≡ true) (go_on k (if not b then some (err v, w) else some (ok a, w)))
  check-Decides true v a w k h d = Decides-iff (k a w) ((λ r. refl), (λ p. tt)) d
  check-Decides false v a w k h d = ((λ p. absurd (h p)), (λ p. absurd (ground (arith, p))))

  -- A step that is left out under a condition.
  pub skip-Decides :
      {A : Type 0} (b : Bool) (a : A) (m : Talk World A) (w : World) (k : A → Talk World Verdict)
      (P Q : Type 0)
      → Decides P (k a w)
      → Decides Q (go_on k (m w))
      → Decides (if b then P else Q) (go_on k ((if b then pure a else m) w))
  skip-Decides true a m w k P Q d e = d
  skip-Decides false a m w k P Q d e = e

  pub branch-Decides :
      (b : Bool) (m n : Talk World Verdict) (w : World) (P Q : Type 0)
      → Decides P (m w)
      → Decides Q (n w)
      → Decides (if b then P else Q) ((if b then m else n) w)
  branch-Decides true m n w P Q d e = d
  branch-Decides false m n w P Q d e = e

  pub closed_by-Decides :
      (close : World → World) (o : Left World Verdict) (R : Type 0)
      → Decides R o
      → Decides R (closed_by close o)
  closed_by-Decides close none R d = d
  closed_by-Decides close (some (err v, w)) R d = d
  closed_by-Decides close (some (ok v, w)) R d = d

  -- A conversation that is decided comes to a verdict, which says what was decided.
  pub verdict_of-Decides :
      (R : Type 0) (o : Left World Verdict)
      → Decides R o
      → (v : Verdict) × (w : World) × (verdict_of o ≡ some (v, w)) × ((v.status ≡ Status.ok) ↔ R)
  verdict_of-Decides R none d = absurd d
  verdict_of-Decides R (some (err v, w)) d = (v, w, refl, d)
  verdict_of-Decides R (some (ok v, w)) d = (v, w, refl, d)
