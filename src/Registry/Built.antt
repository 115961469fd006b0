-- ===== src/Registry/Built.antt =====
-- What `Build` returns.
use mailcow_watchdog.Prelude.{
  ℕ, ◌≤◌, ◌≡◌, refl, Bool, true, false, ◌&&◌, String, List, [], ◌∷◌, Option, none, some, Result, ok,
  err, ◌>>=◌, select, every, All, if◌then◌else◌, Bool-cases, ◌⊎◌, inl, inr, arith,
}
use mailcow_watchdog.Prelude.Format.{str, sprintf}
use mailcow_watchdog.Prelude.Int.{pos}
use mailcow_watchdog.Health
use mailcow_watchdog.Check.{restarts_container}
use mailcow_watchdog.Config.{Config, CheckSpec, all, spec_of}
use mailcow_watchdog.Config.Validated.{IsConfig, ◌also◌}
use mailcow_watchdog.Supervisor.Actions.{Env}
use mailcow_watchdog.Supervisor.Handler.Known.{is_named, IsKnown, named-IsKnown}
use mailcow_watchdog.Registry.{Plan, ProbePlan, table, attach_all, keep_enabled, build}

abbrev pub is_enabled : List (String × CheckSpec) → String → Bool
is_enabled enabled name = elim (spec_of name enabled) [ none ↦ false | some spec ↦ spec.enabled ]

-- The checks that the configuration asks for, in the order of the table.
abbrev pub wanted : Config → List Plan
wanted c = select (λ p. is_enabled (all c.checks) p.name) (attach_all (table c))

abbrev has_probes : List ProbePlan → Bool
has_probes [] = false
has_probes (_ ∷ _) = true

abbrev is_known : Option CheckSpec → Bool
is_known none = false
is_known (some _) = true

abbrev is_complete : List (String × CheckSpec) → Plan → Bool
is_complete enabled p = is_known (spec_of p.name enabled) && has_probes p.probes

and_parts : (a b : Bool) → a && b ≡ true → (a ≡ true) × (b ≡ true)
and_parts a b h = ground (arith, h)

keep_one :
    (o : Option CheckSpec) (p : Plan) {rest : Result String (List Plan)} {live : List Plan}
    → (is_known o && has_probes p.probes) ≡ true
    → rest ≡ ok live
    → elim o [
      | none ↦ err (sprintf "check %q has no configuration entry" (str p.name ∷ []))
      | some spec ↦
          if spec.enabled
          then elim p.probes [
            | [] ↦ err (sprintf "check %q is enabled but has no probes" (str p.name ∷ []))
            | _ ∷ _ ↦ rest >>= λ more. ok (p ∷ more)
          ]
          else rest
    ]
      ≡ ok (if elim o [ none ↦ false | some spec ↦ spec.enabled ] then p ∷ live else live)
keep_one none p h e = absurd (ground (arith, h))
keep_one (some spec) p h e = ground (arith, h, e)

keep_enabled-select :
    (enabled : List (String × CheckSpec)) (ps : List Plan)
    → every (is_complete enabled) ps ≡ true
    → keep_enabled enabled ps ≡ ok (select (λ p. is_enabled enabled p.name) ps)
unfolding keep_enabled
keep_enabled-select enabled [] h = refl
keep_enabled-select enabled (p ∷ ps) h =
    let (here, there) = and_parts _ _ h in
    keep_one (spec_of p.name enabled) p here (keep_enabled-select enabled ps there)

table_complete : (c : Config) → every (is_complete (all c.checks)) (attach_all (table c)) ≡ true
table_complete c = refl

select-All {ℓ} :
    {A : Type ℓ} (P : A → Type 0) (p : A → Bool) (xs : List A)
    → All (λ x. p x ≡ true → P x) xs
    → All P (select p xs)
select-All P p [] h = tt
select-All P p (x ∷ xs) h = elim (Bool-cases (p x)) [
  | inl e ↦ rw (e) (h.0 e, select-All P p xs h.1)
  | inr e ↦ rw (e) (select-All P p xs h.1)
]

table-handled : (c : Config) → every (λ p. is_named p.event) (attach_all (table c)) ≡ true
unfolding restarts_container
table-handled c = refl

enough : {enabled : Bool} {n : ℕ} → (enabled ≡ false) ⊎ (1 ≤ n) → enabled ≡ true → 1 ≤ n
enough (inl off) on = absurd (ground (arith, off, on))
enough (inr h) on = h

table-thresholds :
    (c : Config)
    → IsConfig c
    → All (λ p. is_enabled (all c.checks) p.name ≡ true → 1 ≤ p.threshold) (attach_all (table c))
table-thresholds c v =
    enough v.checks.1.0
    also enough v.checks.0
    also enough v.checks.1.1.1.1.1.0
    also enough v.checks.1.1.1.1.0
    also enough v.checks.1.1.1.0
    also enough v.checks.1.1.1.1.1.1.1.1.1.1.1.1.1.0
    also enough v.checks.1.1.1.1.1.1.0
    also enough v.checks.1.1.0
    also enough v.checks.1.1.1.1.1.1.1.1.1.0
    also enough v.checks.1.1.1.1.1.1.1.0
    also enough v.checks.1.1.1.1.1.1.1.1.1.1.1.1.1.1.1.0
    also enough v.checks.1.1.1.1.1.1.1.1.0
    also enough v.checks.1.1.1.1.1.1.1.1.1.1.0
    also enough v.checks.1.1.1.1.1.1.1.1.1.1.1.0
    also enough v.checks.1.1.1.1.1.1.1.1.1.1.1.1.1.1.1.1.1.1.0
    also enough v.checks.1.1.1.1.1.1.1.1.1.1.1.1.1.1.0
    also enough v.checks.1.1.1.1.1.1.1.1.1.1.1.1.1.1.1.1.0
    also (λ e. omega arith)
    also enough v.checks.1.1.1.1.1.1.1.1.1.1.1.1.1.1.1.1.1.1.1.0
    also enough v.checks.1.1.1.1.1.1.1.1.1.1.1.1.1.1.1.1.1.0
    also tt

enabled_plans-All :
    (P : Plan → Type 0) (c : Config)
    → All (λ p. is_enabled (all c.checks) p.name ≡ true → P p) (attach_all (table c))
    → All P (wanted c)
enabled_plans-All P c h =
    select-All P (λ p. is_enabled (all c.checks) p.name) (attach_all (table c)) h

kept : (service : String) (n : ℕ) → 1 ≤ n → (Health.new service (pos n)).threshold ≡ n
unfolding Health.new
kept service n h = ground (arith, h)

kept-All :
    (r : Plan → Bool) (ps : List Plan)
    → All (λ p. r p ≡ true → 1 ≤ p.threshold) ps
    → All (λ p. r p ≡ true → (Health.new p.service (pos p.threshold)).threshold ≡ p.threshold) ps
kept-All r [] h = tt
kept-All r (p ∷ ps) h = ((λ e. kept p.service p.threshold (h.0 e)), kept-All r ps h.1)

always-All :
    (q : Plan → Bool) (r : Plan → Bool) (ps : List Plan)
    → every q ps ≡ true
    → All (λ p. r p ≡ true → q p ≡ true) ps
always-All q r [] h = tt
always-All q r (p ∷ ps) h =
    let (here, there) = and_parts _ _ h in ((λ e. here), always-All q r ps there)

IsKnown-All :
    {World : Type 0} (env : Env World) (ps : List Plan)
    → All (λ p. is_named p.event ≡ true) ps
    → All (λ p. IsKnown env p.event) ps
IsKnown-All env [] h = tt
IsKnown-All env (p ∷ ps) h = (named-IsKnown env p.event h.0, IsKnown-All env ps h.1)

-- `Build` never fails on the program's own table: it returns the enabled checks in the order of the
-- table. Whatever the supervisor is connected to, each of them raises an event on which `handle` acts:
-- by a restart, by announcing the bans, or by an alert with the details of the check.
pub build-wanted :
    {World : Type 0} (env : Env World) (c : Config)
    → (build c ≡ ok (wanted c)) × All (λ p. IsKnown env p.event) (wanted c)
unfolding build
build-wanted env c = (
  keep_enabled-select (all c.checks) (attach_all (table c)) (table_complete c),
  IsKnown-All env (wanted c) (
      enabled_plans-All (λ p. is_named p.event ≡ true) c
        (always-All (λ p. is_named p.event) (λ p. is_enabled (all c.checks) p.name)
          (attach_all (table c)) (table-handled c))),
)

-- From a valid configuration `Build` returns checks whose trackers keep the threshold that was
-- configured: none of them is raised to one.
build-thresholds :
    (c : Config)
    → IsConfig c
    → (live : List Plan) × (build c ≡ ok live)
      × All (λ p. (Health.new p.service (pos p.threshold)).threshold ≡ p.threshold) live
unfolding build
build-thresholds c v = (
  wanted c,
  keep_enabled-select (all c.checks) (attach_all (table c)) (table_complete c),
  enabled_plans-All (λ p. (Health.new p.service (pos p.threshold)).threshold ≡ p.threshold) c
      (kept-All (λ p. is_enabled (all c.checks) p.name) (attach_all (table c))
        (table-thresholds c v)),
)
