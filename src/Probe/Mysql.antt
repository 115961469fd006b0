-- ===== src/Probe/Mysql.antt =====
-- internal/probe/mysql.go: the verdicts on the database and on its replication. The driver's answers
-- are parameters; a row of the status is an association list of its columns.
pub mod Replication
use mailcow_watchdog.Prelude.{
  ℕ, ◌+◌, Bool, true, false, ◌&&◌, ◌||◌, String, List, [], ◌∷◌, Option, none, some, Result, ok, err,
  leb, ◌==◌, str_eq, map, if◌then◌else◌,
}
use mailcow_watchdog.Prelude.Text.{Text, codes, text_eq}
use mailcow_watchdog.Prelude.Format.{str, sprintf}
use mailcow_watchdog.Probe
use mailcow_watchdog.DockerApi.{Fields, field_of}

abbrev pub Verdict : Type 0
Verdict = Probe.Result

-- `MySQL.Run` with the answers of the driver: the ping, and the query unless it found no row.
unfoldable pub database_verdict : String → String → Option String → Option String → Verdict
database_verdict name query (some e) answer =
    Probe.critical "%s: cannot reach the database: %v" (str name ∷ str e ∷ [])
database_verdict name query none answer =
    if str_eq query "" then Probe.ok "%s: database is reachable" (str name ∷ []) else elim answer [
      | none ↦ Probe.ok "%s: query succeeded" (str name ∷ [])
      | some e ↦ Probe.critical "%s: query failed: %v" (str name ∷ str e ∷ [])
    ]

-- `strings.EqualFold` against a text of ASCII letters: the simple folding of a code point that
-- folds to one of them.
abbrev pub fold : ℕ → ℕ
fold c =
    if leb b'A' c && leb c b'Z'
    then c + 32
    else if c == 0x17f
    then b's'
    else if c == 0x212a
    then b'k'
    else c

abbrev pub folded : String → Text
folded s = map fold (codes s)

abbrev pub equal_fold : String → String → Bool
equal_fold s t = text_eq (folded s) (folded t)

-- `orNA`.
abbrev pub or_na : String → String
or_na v = if str_eq v "" then "N/A" else v

-- `evaluate`; no row is the nil map.
unfoldable pub evaluate : String → Option Fields → Verdict
evaluate name none =
    Probe.critical "%s: the server reports no replication status at all" (str name ∷ [])
evaluate name (some status) =
    let sql_running = field_of "Slave_SQL_Running" status in
    let io_running = field_of "Slave_IO_Running" status in
    let primary = field_of "Master_Host" status in
    let delay = field_of "Seconds_Behind_Master" status in
    if str_eq sql_running "" || equal_fold sql_running "NULL"
    then Probe.critical "%s: the replica's SQL thread reports NULL (%s)"
        (str name ∷ str "Slave_SQL_Running" ∷ [])
    else if equal_fold sql_running "No"
    then Probe.critical "%s: the replica's SQL thread is not running" (str name ∷ [])
    else if equal_fold io_running "No"
    then Probe.critical "%s: the replica's I/O thread is not running" (str name ∷ [])
    else if equal_fold io_running "Connecting"
    then Probe.critical "%s: the replica's I/O thread cannot reach the primary" (str name ∷ [])
    else if equal_fold sql_running "Yes" && equal_fold io_running "Yes"
    then Probe.ok "%s: replicating from primary %s, %s seconds behind"
        (str name ∷ str (or_na primary) ∷ str (or_na delay) ∷ [])
    else Probe.unknown "%s: unexpected replication state (SQL thread %q, I/O thread %q)"
        (str name ∷ str sql_running ∷ str io_running ∷ [])

-- `MySQLReplication.Run` after `replicationStatus`.
unfoldable pub replication_verdict : String → Result String (Option Fields) → Verdict
replication_verdict name (err e) =
    Probe.critical "%s: cannot read the replication status: %v" (str name ∷ str e ∷ [])
replication_verdict name (ok status) = evaluate name status

-- The loop of `replicationStatus` over the columns: an SQL NULL becomes the text "NULL". Go writes the
-- cells into a map, where a later column replaces an earlier one of the same name.
unfoldable pub status_row : List (String × Option String) → Fields → Fields
status_row [] fields = fields
status_row ((name, some cell) ∷ cells) fields = status_row cells ((name, cell) ∷ fields)
status_row ((name, none) ∷ cells) fields = status_row cells ((name, "NULL") ∷ fields)

-- `GUID`, on what the driver makes of the query.
unfoldable pub guid : Result String String → Result String String
guid (ok id) = ok id
guid (err e) = err (sprintf "reading the mailcow GUID: %w" (str e ∷ []))
