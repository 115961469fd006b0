-- ===== src/Supervisor/Gate.antt =====
-- internal/supervisor/gate.go. A channel is a number; `closed` says which channels are closed, and
-- `next` is the number of the next `make(chan struct{})`. The mutex makes each method one step,
-- except `Wait`, which takes the channel under the mutex and then waits on it without: so it is two
-- steps here, the ticket and the test whether a select on that ticket would pass.
pub mod Wakeups
use mailcow_watchdog.Prelude.{
  ℕ, suc, ◌+◌, Bool, true, false, not, List, [], ◌∷◌, Option, none, some, ◌==◌, if◌then◌else◌,
}

pub record Gate : Type 0 where
  pub open_chan : ℕ
  pub next : ℕ
  pub closed : ℕ → Bool

abbrev pub update : (ℕ → Bool) → ℕ → Bool → ℕ → Bool
update f i b j = if j == i then b else f j

abbrev pub make_chan : Gate → Gate
make_chan g = record {
  open_chan = g.next;
  next = g.next + 1;
  closed = update g.closed g.next false;
}

-- `close(g.open)`: closing a closed channel panics.
abbrev pub close : Gate → Option Gate
close g =
    if g.closed g.open_chan
    then none
    else some (record g { closed = update g.closed g.open_chan true })

-- `NewGate`: one fresh channel, closed at once.
unfoldable pub new_gate : Gate
new_gate = record { open_chan = 0; next = 1; closed = update (λ _. false) 0 true }

-- `Pause`.
unfoldable pub pause : Gate → Gate
pause g = if g.closed g.open_chan then make_chan g else g

-- `Resume`.
unfoldable pub resume : Gate → Option Gate
resume g = if g.closed g.open_chan then some g else close g

-- `Paused`.
unfoldable pub paused : Gate → Bool
paused g = not (g.closed g.open_chan)

-- The first half of `Wait`.
abbrev pub ticket : Gate → ℕ
ticket g = g.open_chan

-- The second half: the receive on the ticket goes through.
abbrev pub passes : Gate → ℕ → Bool
passes g t = g.closed t

pub data Op : Type 0 where
  pauses resumes : Op

abbrev pub apply : Gate → Op → Option Gate
apply g pauses = some (pause g)
apply g resumes = resume g

-- Pauses and resumes in the order in which the mutex lets them in; `none` is a panic.
unfoldable pub run : Gate → List Op → Option Gate
run g [] = some g
run g (op ∷ ops) = elim (apply g op) [ none ↦ none | some g' ↦ run g' ops ]
