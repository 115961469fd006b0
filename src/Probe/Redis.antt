-- ===== src/Probe/Redis.antt =====
-- internal/probe/redis.go: the probes that read mailcow's keys in Redis. The client is a record of the
-- calls that the probes make of it, and the JSON decoder is a parameter. A probe that remembers
-- something between two rounds is a function of its memory; the mutex makes a round one step.
pub mod Changes
pub mod Bans
use mailcow_watchdog.Prelude.{
  ℕ, ◌+◌, Bool, true, false, not, ◌&&◌, String, List, [], ◌∷◌, Option, none, some, Result, ok, err,
  str_eq, length, any, select, if◌then◌else◌,
}
use mailcow_watchdog.Prelude.Text.{trim_string, sort}
use mailcow_watchdog.Prelude.Format.{str, int, concat, sprintf}
use mailcow_watchdog.Check.{join}
use mailcow_watchdog.Probe

abbrev pub Verdict : Type 0
Verdict = Probe.Result

-- `RedisPinger` and `RedisReader`.
pub record Reader (World : Type 0) : Type 0 where
  pub ping : World → Option String × World
  pub get : String → World → Result String (String × Bool) × World
  pub hkeys : String → World → Result String (List String) × World
  pub lrange : String → ℕ → ℕ → World → Result String (List String) × World

-- What `Run` of a RedisPing says to the client's answer.
unfoldable pub ping_verdict : String → Option String → Verdict
ping_verdict name none = Probe.ok "%s: Redis answered PONG" (str name ∷ [])
ping_verdict name (some e) =
    Probe.critical "%s: Redis did not answer PING: %v" (str name ∷ str e ∷ [])

unfoldable pub flag_verdict : String → String → String → Result String (String × Bool) → Verdict
flag_verdict name key want (err e) =
    Probe.unknown "%s: cannot read %s: %v" (str name ∷ str key ∷ str e ∷ [])
flag_verdict name key want (ok (got, _)) =
    if not (str_eq got want)
    then Probe.critical "%s: %s is %q, want %q" (str name ∷ str key ∷ str got ∷ str want ∷ [])
    else Probe.ok "%s: %s is %q" (str name ∷ str key ∷ str got ∷ [])

-- The memory of a RedisChange.
pub record Change : Type 0 where
  pub seeded : Bool
  pub last : String

abbrev pub new_change : Change
new_change = record { seeded = false; last = "" }

-- `RedisChange.Run` after the read.
unfoldable pub change_round :
    String → String → Change → Result String (String × Bool) → Verdict × Change
change_round name key p (err e) =
    (Probe.unknown "%s: cannot read %s: %v" (str name ∷ str key ∷ str e ∷ []), p)
change_round name key p (ok (current, _)) =
    let p' : Change = record { seeded = true; last = current } in
    if not p.seeded
    then (Probe.ok "%s: watching %s, now at %q" (str name ∷ str key ∷ str current ∷ []), p')
    else if not (str_eq p.last current)
    then (
      Probe.critical "%s: %s changed from %q to %q"
          (str name ∷ str key ∷ str p.last ∷ str current ∷ []),
      p',
    )
    else (Probe.ok "%s: %s unchanged at %q" (str name ∷ str key ∷ str current ∷ []), p')

-- `queueID`; the decoder gives the field `qid` of a record that parses.
unfoldable pub queue_id : (String → Option String) → String → String
queue_id decode entry = elim (decode entry) [ none ↦ trim_string entry | some qid ↦ qid ]

-- `Ratelimit.Run` after the read; its memory has the shape of a RedisChange's.
unfoldable pub ratelimit_round :
    String → (String → Option String) → Change → Result String (List String) → Verdict × Change
ratelimit_round name decode p (err e) =
    (Probe.unknown "%s: cannot read RL_LOG: %v" (str name ∷ str e ∷ []), p)
ratelimit_round name decode p (ok []) =
    (Probe.ok "%s: no rate limits recorded" (str name ∷ []), record { seeded = true; last = "" })
ratelimit_round name decode p (ok (entry ∷ _)) =
    let current = queue_id decode entry in
    let p' : Change = record { seeded = true; last = current } in
    if not p.seeded
    then (Probe.ok "%s: watching RL_LOG" (str name ∷ []), p')
    else if str_eq p.last current
    then (Probe.ok "%s: no new rate limits applied" (str name ∷ []), p')
    else (
      Probe.critical "%s: a new rate limit was applied (queue id %s)" (str name ∷ str current ∷ []),
      p',
    )

-- The loop of `Details` over the entries, with `indentJSON`.
abbrev pub indent_json : (String → Option String) → String → String
indent_json indent raw = elim (indent raw) [ none ↦ raw | some out ↦ out ]

unfoldable pub report : (String → Option String) → List String → String
report indent [] = ""
report indent (entry ∷ entries) =
    concat (indent_json indent entry ∷ "\n" ∷ report indent entries ∷ [])

-- `Ratelimit.Details` after its read of RL_LOG from 0 to 10.
unfoldable pub ratelimit_details : (String → Option String) → Result String (List String) → String
ratelimit_details indent (err e) = sprintf "Could not read RL_LOG: %v" (str e ∷ [])
ratelimit_details indent (ok entries) = concat (
    "Last 10 applied ratelimits (may overlap with previous reports).\n"
    ∷ "Full ratelimit buckets can be emptied by deleting the ratelimit hash "
    ∷ "from within the mailcow UI (see /debug -> Protocols -> Ratelimit):\n\n"
    ∷ report indent entries
    ∷ [])

-- The memory of a Fail2ban; the map `known` is the list of its keys.
pub record Fail2ban : Type 0 where
  pub seeded : Bool
  pub known : List String
  pub fresh : List String

abbrev pub new_fail2ban : Fail2ban
new_fail2ban = record { seeded = false; known = []; fresh = [] }

abbrev pub has : List String → String → Bool
has xs x = any (str_eq x) xs

-- The loop over the bans: those that were not known, once the probe is seeded.
abbrev pub added_bans : Fail2ban → List String → List String
added_bans p bans = sort (select (λ ban. not (has p.known ban) && p.seeded) bans)

-- `Fail2ban.Run` after the read.
unfoldable pub fail2ban_round : String → Fail2ban → Result String (List String) → Verdict × Fail2ban
fail2ban_round name p (err e) =
    (Probe.unknown "%s: cannot read F2B_ACTIVE_BANS: %v" (str name ∷ str e ∷ []), p)
fail2ban_round name p (ok bans) =
    let added = added_bans p bans in
    let p' : Fail2ban = record { seeded = true; known = bans; fresh = added } in
    if not p.seeded
    then (Probe.ok "%s: watching %d active bans" (str name ∷ int (length bans) ∷ []), p')
    else elim added [
      | [] ↦ (Probe.ok "%s: no new bans" (str name ∷ []), p')
      | ban ∷ more ↦ (
        Probe.critical "%s: %d new ban(s): %s"
            (str name ∷ int (length (ban ∷ more)) ∷ str (join " " (ban ∷ more)) ∷ []),
        p',
      )
    ]

module _ {World : Type 0} (redis : Reader World) where
  -- The `Run` methods: one read, and what follows it.
  unfoldable pub run_ping : String → World → Verdict × World
  run_ping name w = let (answer, w') = redis.ping w in (ping_verdict name answer, w')

  unfoldable pub run_flag : String → String → String → World → Verdict × World
  run_flag name key want w =
      let (answer, w') = redis.get key w in (flag_verdict name key want answer, w')

  unfoldable pub run_change : String → String → Change → World → (Verdict × Change) × World
  run_change name key p w =
      let (answer, w') = redis.get key w in (change_round name key p answer, w')

  unfoldable pub run_ratelimit :
      String → (String → Option String) → Change → World → (Verdict × Change) × World
  run_ratelimit name decode p w =
      let (answer, w') = redis.lrange "RL_LOG" 0 0 w in (ratelimit_round name decode p answer, w')

  unfoldable pub details_ratelimit : (String → Option String) → World → String × World
  details_ratelimit indent w =
      let (answer, w') = redis.lrange "RL_LOG" 0 10 w in (ratelimit_details indent answer, w')

  unfoldable pub run_fail2ban : String → Fail2ban → World → (Verdict × Fail2ban) × World
  run_fail2ban name p w =
      let (answer, w') = redis.hkeys "F2B_ACTIVE_BANS" w in (fail2ban_round name p answer, w')
