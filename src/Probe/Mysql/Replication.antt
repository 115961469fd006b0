-- ===== src/Probe/Mysql/Replication.antt =====
-- When a replica counts as healthy.
use mailcow_watchdog.Prelude.{
  ◌≡◌, refl, ap, ◌∙◌, subst, ◌↔◌, Bool, true, false, ◌&&◌, ◌||◌, String, none, some, ok, err,
  str_eq, eq_iff, if◌then◌else◌, Bool-cases, inl, inr, arith,
}
use mailcow_watchdog.Prelude.Text.{text_eq, eq_of_text_eq}
use mailcow_watchdog.Health.{Status}
use mailcow_watchdog.DockerApi.{Fields, field_of}
use mailcow_watchdog.Probe.{Result, result}
use mailcow_watchdog.Probe.Mysql.{folded, equal_fold, evaluate, replication_verdict}

-- A text that folds to one word folds to no other.
apart :
    (s t u : String)
    → equal_fold s t ≡ true
    → text_eq (folded t) (folded u) ≡ false
    → equal_fold s u ≡ false
apart s t u h ne = ap (λ x. text_eq x (folded u)) (eq_of_text_eq (folded s) (folded t) h) ∙ ne

not_empty : (s : String) → equal_fold s "Yes" ≡ true → str_eq s "" ≡ false
not_empty s h = elim (Bool-cases (str_eq s "")) [
  | inl e ↦ absurd (
      let bad : equal_fold "" "Yes" ≡ true =
        subst (λ t. equal_fold t "Yes" ≡ true) ((eq_iff s "").0 e) h in
      ground (arith, bad))
  | inr e ↦ e
]

-- Both threads run.
abbrev pub runs : Fields → Bool
runs status =
    equal_fold (field_of "Slave_SQL_Running" status) "Yes"
    && equal_fold (field_of "Slave_IO_Running" status) "Yes"

both : (a b : Bool) → a && b ≡ true → (a ≡ true) × (b ≡ true)
both a b h = ground (arith, h)

-- The row of verdicts of `evaluate`, by its tests.
choose :
    {A : Type 0} (empty null no stopped connecting yes : Bool) (a b c d e f : A)
    → empty ≡ false
    → null ≡ false
    → no ≡ false
    → stopped ≡ false
    → connecting ≡ false
    → yes ≡ true
    → (if empty || null
        then a
        else if no
        then b
        else if stopped
        then c
        else if connecting
        then d
        else if yes
        then e
        else f)
      ≡ e
choose false false false false false true a b c d e f _ _ _ _ _ _ = refl
choose _ _ _ _ _ _ a b c d e f h₁ h₂ h₃ h₄ h₅ h₆ = ground arith

evaluate-ok :
    (name : String) (status : Fields)
    → runs status ≡ true
    → (evaluate name (some status)).status ≡ Status.ok
unfolding evaluate result
evaluate-ok name status h =
    let sql = field_of "Slave_SQL_Running" status in
    let io = field_of "Slave_IO_Running" status in
    let (y, z) = both (equal_fold sql "Yes") (equal_fold io "Yes") h in
    ap (λ (r : Result). r.status)
      (choose (str_eq sql "") (equal_fold sql "NULL") (equal_fold sql "No") (equal_fold io "No")
        (equal_fold io "Connecting") (runs status) _ _ _ _ _ _ (not_empty sql y)
        (apart sql "Yes" "NULL" y refl) (apart sql "Yes" "No" y refl) (apart io "Yes" "No" z refl)
        (apart io "Yes" "Connecting" z refl) h)

evaluate-runs :
    (name : String) (status : Fields)
    → (evaluate name (some status)).status ≡ Status.ok
    → runs status ≡ true
unfolding evaluate result
evaluate-runs name status h = ground (arith, h)

-- Replication is reported healthy exactly if the server has a status row in which both threads say
-- "Yes", in whatever case; a failed query and a missing row are CRITICAL.
replication_verdict_lem :
    (name e : String) (status : Fields)
    → (((replication_verdict name (ok (some status))).status ≡ Status.ok) ↔ (runs status ≡ true))
      × ((replication_verdict name (ok none)).status ≡ Status.critical)
      × ((replication_verdict name (err e)).status ≡ Status.critical)
unfolding replication_verdict evaluate result
replication_verdict_lem name e status =
    ((λ h. evaluate-runs name status h, λ h. evaluate-ok name status h), refl, refl)
