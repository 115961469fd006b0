-- ===== src/Supervisor/Gate/Wakeups.antt =====
-- What the runners that wait at the gate can rely on.
use mailcow_watchdog.Prelude.{
  ℕ, ◌≤◌, ◌<◌, ◌≡◌, ◌≢◌, refl, ◌∙◌, subst, true, false, List, [], ◌∷◌, ◌++◌, some, All, arith,
  if◌then◌else◌,
}
use mailcow_watchdog.Supervisor.Gate.{
  Gate, update, new_gate, pause, resume, paused, ticket, passes, Op, pauses, resumes, apply, run,
}

-- Of the channels made so far only the gate's own can be open.
pub record IsGate (g : Gate) : Type 0 where
  pub made : g.open_chan < g.next
  pub others : (i : ℕ) → i < g.next → i ≢ g.open_chan → g.closed i ≡ true

-- The gate g' comes later than g: it has no fewer channels, and what was closed is closed.
pub record Later (g g' : Gate) : Type 0 where
  pub grown : g.next ≤ g'.next
  pub kept : (i : ℕ) → i < g.next → g.closed i ≡ true → g'.closed i ≡ true

new_gate-IsGate : IsGate new_gate
unfolding new_gate
new_gate-IsGate = record { made = ground arith; others = λ i h ne. ground arith }

pause-IsGate : (g : Gate) → IsGate g → IsGate (pause g)
unfolding pause
pause-IsGate g v = record {
  made = ground (arith, v.made);
  others = λ i h ne. ground (arith, v.others i);
}

pause-Later : (g : Gate) → IsGate g → Later g (pause g)
unfolding pause
pause-Later g v = record { grown = ground arith; kept = λ i h c. ground (arith, v.made) }

Later-refl : (g : Gate) → Later g g
Later-refl g = record { grown = omega arith; kept = λ i h c. c }

Later-trans : {f g h : Gate} → Later f g → Later g h → Later f h
Later-trans p q = record {
  grown = omega (arith, p.grown, q.grown);
  kept = λ i lt c. q.kept i (omega (arith, p.grown)) (p.kept i lt c);
}

-- After a resume every channel made so far is closed.
abbrev AllClosed : Gate → Gate → Type 0
AllClosed g g' = (i : ℕ) → i < g.next → g'.closed i ≡ true

opened : Gate → Gate
opened g =
    if g.closed g.open_chan then g else record g { closed = update g.closed g.open_chan true }

resume-eq-some : (g : Gate) → resume g ≡ some (opened g)
unfolding resume opened
resume-eq-some g = ground arith

opened-AllClosed : (g : Gate) → IsGate g → AllClosed g (opened g)
unfolding opened
opened-AllClosed g v i h = ground (arith, v.others i, v.made)

opened-next : (g : Gate) → ((opened g).next ≡ g.next) × ((opened g).open_chan ≡ g.open_chan)
unfolding opened
opened-next g = ground arith

opened-IsGate : (g : Gate) → IsGate g → IsGate (opened g)
opened-IsGate g v = record {
  made = ground (arith, v.made, opened-next g);
  others = λ i h ne. opened-AllClosed g v i (omega (arith, opened-next g));
}

opened-Later : (g : Gate) → IsGate g → Later g (opened g)
opened-Later g v = record {
  grown = omega (arith, opened-next g);
  kept = λ i h c. opened-AllClosed g v i h;
}

after : Gate → Op → Gate
after g pauses = pause g
after g resumes = opened g

apply-eq-some : (g : Gate) (op : Op) → apply g op ≡ some (after g op)
unfolding after
apply-eq-some g pauses = refl
apply-eq-some g resumes = resume-eq-some g

after-IsGate : (g : Gate) (op : Op) → IsGate g → IsGate (after g op)
unfolding after
after-IsGate g pauses v = pause-IsGate g v
after-IsGate g resumes v = opened-IsGate g v

after-Later : (g : Gate) (op : Op) → IsGate g → Later g (after g op)
unfolding after
after-Later g pauses v = pause-Later g v
after-Later g resumes v = opened-Later g v

-- What a run of calls comes to: it ends without a panic, in a proper gate that comes later.
abbrev Runs : Gate → List Op → Type 0
Runs g ops = (g' : Gate) × (run g ops ≡ some g') × IsGate g' × Later g g'

run_total : (g : Gate) (ops : List Op) → IsGate g → Runs g ops
unfolding run
run_total g [] v = (g, refl, v, Later-refl g)
run_total g (op ∷ ops) v =
    let (g', e, v', l) = run_total (after g op) ops (after-IsGate g op v) in
    (g', rw (apply-eq-some g op, run) e, v', Later-trans (after-Later g op v) l)

run-append :
    (g : Gate) (ops more : List Op) {g' : Gate}
    → run g ops ≡ some g'
    → run g (ops ++ more) ≡ run g' more
unfolding run
run-append g [] more e = ground arith
run-append g (op ∷ ops) more e =
    rw (apply-eq-some g op, run)
      (run-append (after g op) ops more (rw (apply-eq-some g op, run) at e))

run-IsGate : (ops : List Op) {g : Gate} → run new_gate ops ≡ some g → IsGate g
run-IsGate ops {g} e =
    let (g₀, e₀, v₀, _) = run_total new_gate ops new_gate-IsGate in
    let same : g₀ ≡ g = cc in subst IsGate same v₀

-- No pauses and resumes of the supervisor's gate, in any order, close a closed channel: a gate that
-- started as `NewGate` never panics.
run-never_panics : (ops : List Op) → (g : Gate) × (run new_gate ops ≡ some g)
run-never_panics ops = let (g, e, _, _) = run_total new_gate ops new_gate-IsGate in (g, e)

-- No lost wakeup: a runner that took its ticket at the gate after any calls is let through after
-- any later row of calls that contains a resume, also if the gate has been paused again since.
pub wait-wakes :
    (before between later : List Op) {g : Gate}
    → run new_gate before ≡ some g
    → (g' : Gate) × (run new_gate (before ++ (between ++ (resumes ∷ later))) ≡ some g')
      × (passes g' (ticket g) ≡ true)
unfolding run after
wait-wakes before between later {g} e =
    let v : IsGate g = run-IsGate before e in
    let (g₁, e₁, v₁, l₁) = run_total g between v in
    let (g₂, e₂, v₂, l₂) = run_total (opened g₁) later (opened-IsGate g₁ v₁) in
    let old : ticket g < g₁.next = omega (arith, l₁.grown, v.made) in
    (
      g₂,
      run-append new_gate before _ e
          ∙ run-append g between _ e₁
          ∙ rw (apply-eq-some g₁ resumes, run) e₂,
      l₂.kept (ticket g) (omega (arith, opened-next g₁)) (opened-AllClosed g₁ v₁ (ticket g) old),
    )

pause_idle : (g : Gate) → paused g ≡ true → pause g ≡ g
unfolding paused pause
pause_idle g p = ground arith

-- No early start: the ticket that a runner takes at a paused gate does not let it through as long
-- as nobody resumes.
wait-holds :
    (g : Gate) (ops : List Op)
    → paused g ≡ true
    → All (λ op. op ≡ pauses) ops
    → (run g ops ≡ some g) × (passes g (ticket g) ≡ false)
unfolding run paused
wait-holds g [] p a = ground arith
wait-holds g (pauses ∷ ops) p a = rw (pause_idle g p) (wait-holds g ops p a.1)
wait-holds g (resumes ∷ ops) p a = absurd (ground (arith, a.0))
