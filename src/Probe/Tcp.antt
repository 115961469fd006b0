-- ===== src/Probe/Tcp.antt =====
-- internal/probe/tcp.go: the reading loop of the TCP probe. A connection answers a read with the bytes that
-- it got, at most the 1,024 of the buffer, and an error or none.
pub mod Reading
pub mod Hearing
pub mod Exchange
pub mod Verdict
use mailcow_watchdog.Prelude.{
  ℕ, zero, suc, ◌+◌, Bool, true, false, not, ◌&&◌, String, List, [], ◌∷◌, ◌++◌, Option, none, some,
  ltb, length, if◌then◌else◌,
}
use mailcow_watchdog.Prelude.Text.{Text, contains}

abbrev pub read_limit : ℕ
read_limit = 8192

abbrev pub Connection : Type 0 → Type 0
Connection World = World → (Text × Option String) × World

-- What a loop leaves: the text that was read and the error of the last read.
abbrev pub Reading : Type 0
Reading = Text × Option String

-- The loop of `readUntil`, for a number of reads; none says that they did not suffice.
unfoldable pub read_until :
    {World : Type 0} → Connection World → Text → ℕ → Text → World → Option (Reading × World)
read_until conn want zero buf w =
    if ltb (length buf) read_limit then none else some ((buf, none), w)
read_until conn want (suc n) buf w =
    let ((chunk, failure), w') = conn w in
    let buf' = buf ++ chunk in
    let again = read_until conn want n buf' w' in
    if not (ltb (length buf) read_limit)
    then some ((buf, none), w)
    else if ltb 0 (length chunk) && contains buf' want
    then some ((buf', none), w')
    else elim failure [ some e ↦ some ((buf', some e), w') | none ↦ again ]
