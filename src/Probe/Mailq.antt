-- ===== src/Probe/Mailq.antt =====
-- internal/probe/mailq.go: the size of the deferred queue. The walk through the spool is the list of
-- its visits: the file system is a parameter.
use mailcow_watchdog.Prelude.{
  ℕ, suc, ◌+◌, ◌≡◌, refl, ap, ◌∙◌, Bool, true, false, String, List, [], ◌∷◌, leb, if◌then◌else◌,
  arith, Bool-cases, inl, inr,
}
use mailcow_watchdog.Prelude.Format.{str, int, sprintf}
use mailcow_watchdog.Health.{Status}
use mailcow_watchdog.Probe
use mailcow_watchdog.Probe.{result}

-- One call of the function that `filepath.WalkDir` is given: a regular file, another entry, an
-- unreadable directory or entry, or a visit after the context was cancelled.
pub data Visit : Type 0 where
  regular other unreadable : Visit
  cancelled : String → Visit

-- What `countFiles` answers: the spool may be missing.
pub data Count : Type 0 where
  missing : Count
  failed : String → Count
  counted : ℕ → Count

-- The walk of `countFiles`.
unfoldable pub walk : String → List Visit → ℕ → Count
walk dir [] count = counted count
walk dir (regular ∷ visits) count = walk dir visits (suc count)
walk dir (other ∷ visits) count = walk dir visits count
walk dir (unreadable ∷ visits) count = walk dir visits count
walk dir (cancelled e ∷ visits) count = failed (sprintf "walking %s: %w" (str dir ∷ str e ∷ []))

-- `Mailq.Run` after the count.
unfoldable pub queue_verdict : String → String → ℕ → Count → Probe.Result
queue_verdict name dir critical (failed e) =
    Probe.unknown "%s: cannot read the deferred queue at %s: %v" (str name ∷ str dir ∷ str e ∷ [])
queue_verdict name dir critical missing =
    if leb critical 0
    then Probe.critical "%s: mail queue contains %d items (critical limit is %d)"
        (str name ∷ int 0 ∷ int critical ∷ [])
    else Probe.ok "%s: mail queue contains %d items (critical limit is %d)"
        (str name ∷ int 0 ∷ int critical ∷ [])
queue_verdict name dir critical (counted count) =
    if leb critical count
    then Probe.critical "%s: mail queue contains %d items (critical limit is %d)"
        (str name ∷ int count ∷ int critical ∷ [])
    else Probe.ok "%s: mail queue contains %d items (critical limit is %d)"
        (str name ∷ int count ∷ int critical ∷ [])

-- The regular files that a walk visits, and whether it comes to its end.
abbrev pub regulars : List Visit → ℕ
regulars [] = 0
regulars (regular ∷ visits) = suc (regulars visits)
regulars (_ ∷ visits) = regulars visits

abbrev pub completes : List Visit → Bool
completes [] = true
completes (cancelled e ∷ visits) = false
completes (_ ∷ visits) = completes visits

walk-counted :
    (dir : String) (visits : List Visit) (n : ℕ)
    → completes visits ≡ true
    → walk dir visits n ≡ counted (n + regulars visits)
unfolding walk
walk-counted dir [] n h = ap counted (omega arith)
walk-counted dir (regular ∷ visits) n h =
    walk-counted dir visits (suc n) h ∙ ap counted (omega arith)
walk-counted dir (other ∷ visits) n h = walk-counted dir visits n h
walk-counted dir (unreadable ∷ visits) n h = walk-counted dir visits n h
walk-counted dir (cancelled e ∷ visits) n h = absurd (ground (arith, h))

walk-failed :
    (dir : String) (visits : List Visit) (n : ℕ)
    → completes visits ≡ false
    → (e : String) × (walk dir visits n ≡ failed e)
unfolding walk
walk-failed dir [] n h = absurd (ground (arith, h))
walk-failed dir (regular ∷ visits) n h = walk-failed dir visits (suc n) h
walk-failed dir (other ∷ visits) n h = walk-failed dir visits n h
walk-failed dir (unreadable ∷ visits) n h = walk-failed dir visits n h
walk-failed dir (cancelled e ∷ visits) n h = (sprintf "walking %s: %w" (str dir ∷ str e ∷ []), refl)

abbrev pub alarmed : Bool → Status
alarmed true = Status.critical
alarmed false = Status.ok

-- A walk that completes makes the check CRITICAL exactly if it met at least as many regular files
-- as the limit allows, whatever else it met, and OK otherwise; a cancelled walk is UNKNOWN; and a
-- missing spool counts as an empty one.
queue_verdict_lem :
    (name dir : String) (critical : ℕ) (visits : List Visit)
    → let answer = (queue_verdict name dir critical (walk dir visits 0)).status in
      (answer
        ≡ (if completes visits then alarmed (leb critical (regulars visits)) else Status.unknown))
      × ((queue_verdict name dir critical missing).status
          ≡ (queue_verdict name dir critical (walk dir [] 0)).status)
unfolding queue_verdict result walk
queue_verdict_lem name dir critical visits = elim (Bool-cases (completes visits)) [
  | inl h ↦ rw (h) (
    ap (λ c. (queue_verdict name dir critical c).status) (walk-counted dir visits 0 h)
        ∙ ground arith,
    ground arith,
  )
  | inr h ↦
      let (e, f) = walk-failed dir visits 0 h in
      rw (h) (ap (λ c. (queue_verdict name dir critical c).status) f, ground arith)
]
