-- ===== src/Probe/Redis/Changes.antt =====
-- When the probes that watch a value report a change.
use mailcow_watchdog.Prelude.{
  ◌≡◌, refl, ap, ◌∙◌, Bool, true, String, List, [], ◌∷◌, Option, none, some, Result, ok, err,
  str_eq, if◌then◌else◌, arith,
}
use mailcow_watchdog.Health.{Status}
use mailcow_watchdog.Probe.{result}
use mailcow_watchdog.Probe.Redis.{Change, new_change, change_round, queue_id, ratelimit_round}

-- What the probe remembers when the last value that it could read is the given one.
abbrev remembers : Option String → Change
remembers none = new_change
remembers (some v) = record { seeded = true; last = v }

-- The verdict on a value, given the last one.
abbrev pub compared : Option String → String → Status
compared none v = Status.ok
compared (some u) v = if str_eq u v then Status.ok else Status.critical

-- The memory after a history of answers, and the last value that was read in it.
abbrev pub change_after : String → String → Change → List (Result String (String × Bool)) → Change
change_after name key p [] = p
change_after name key p (r ∷ rs) = change_after name key (change_round name key p r).1 rs

abbrev pub last_read : Option String → List (Result String (String × Bool)) → Option String
last_read seen [] = seen
last_read seen (err e ∷ rs) = last_read seen rs
last_read seen (ok (v, _) ∷ rs) = last_read (some v) rs

abbrev pub change_verdict : Option String → Result String (String × Bool) → Status
change_verdict seen (err e) = Status.unknown
change_verdict seen (ok (v, _)) = compared seen v

change_round-memory :
    (name key : String) (seen : Option String) (r : Result String (String × Bool))
    → (change_round name key (remembers seen) r).1 ≡ remembers (last_read seen (r ∷ []))
unfolding change_round
change_round-memory name key seen (err e) = refl
change_round-memory name key none (ok (v, b)) = refl
change_round-memory name key (some u) (ok (v, b)) = ground arith

change_after-memory :
    (name key : String) (seen : Option String) (rs : List (Result String (String × Bool)))
    → change_after name key (remembers seen) rs ≡ remembers (last_read seen rs)
change_after-memory name key seen [] = refl
change_after-memory name key seen (err e ∷ rs) =
    ap (λ p. change_after name key p rs) (change_round-memory name key seen (err e))
    ∙ change_after-memory name key seen rs
change_after-memory name key seen (ok (v, b) ∷ rs) =
    ap (λ p. change_after name key p rs) (change_round-memory name key seen (ok (v, b)))
    ∙ change_after-memory name key (some v) rs

change_round-status :
    (name key : String) (seen : Option String) (r : Result String (String × Bool))
    → (change_round name key (remembers seen) r).0.status ≡ change_verdict seen r
unfolding change_round result
change_round-status name key seen (err e) = refl
change_round-status name key none (ok (v, b)) = refl
change_round-status name key (some u) (ok (v, b)) = ground arith

-- A RedisChange that has run through any history of answers, failed reads included, compares the
-- next value with the last one that it could read: CRITICAL if they differ, OK if they agree or
-- nothing was read before; a read that fails is UNKNOWN.
change-detects :
    (name key : String) (history : List (Result String (String × Bool)))
    (r : Result String (String × Bool))
    → (change_round name key (change_after name key new_change history) r).0.status
      ≡ change_verdict (last_read none history) r
change-detects name key history r =
    ap (λ p. (change_round name key p r).0.status) (change_after-memory name key none history)
    ∙ change_round-status name key (last_read none history) r

module _ (name : String) (decode : String → Option String) where
  abbrev pub ratelimit_after : Change → List (Result String (List String)) → Change
  ratelimit_after p [] = p
  ratelimit_after p (r ∷ rs) = ratelimit_after (ratelimit_round name decode p r).1 rs

module _ (decode : String → Option String) where
  -- The identifier that an answer shows: of the newest entry, or the empty one of an empty log.
  abbrev pub shown : List String → String
  shown [] = ""
  shown (entry ∷ _) = queue_id decode entry

  abbrev pub last_id : Option String → List (Result String (List String)) → Option String
  last_id seen [] = seen
  last_id seen (err e ∷ rs) = last_id seen rs
  last_id seen (ok entries ∷ rs) = last_id (some (shown entries)) rs

  abbrev pub ratelimit_verdict : Option String → Result String (List String) → Status
  ratelimit_verdict seen (err e) = Status.unknown
  ratelimit_verdict seen (ok []) = Status.ok
  ratelimit_verdict seen (ok (entry ∷ _)) = compared seen (queue_id decode entry)

module _ (name : String) (decode : String → Option String) where
  ratelimit_round-memory :
      (seen : Option String) (r : Result String (List String))
      → (ratelimit_round name decode (remembers seen) r).1
        ≡ remembers (last_id decode seen (r ∷ []))
  unfolding ratelimit_round
  ratelimit_round-memory seen (err e) = refl
  ratelimit_round-memory seen (ok []) = refl
  ratelimit_round-memory none (ok (x ∷ xs)) = refl
  ratelimit_round-memory (some u) (ok (x ∷ xs)) = ground arith

  ratelimit_after-memory :
      (seen : Option String) (rs : List (Result String (List String)))
      → ratelimit_after name decode (remembers seen) rs ≡ remembers (last_id decode seen rs)
  ratelimit_after-memory seen [] = refl
  ratelimit_after-memory seen (err e ∷ rs) =
      ap (λ p. ratelimit_after name decode p rs) (ratelimit_round-memory seen (err e))
      ∙ ratelimit_after-memory seen rs
  ratelimit_after-memory seen (ok entries ∷ rs) =
      ap (λ p. ratelimit_after name decode p rs) (ratelimit_round-memory seen (ok entries))
      ∙ ratelimit_after-memory (some (shown decode entries)) rs

  ratelimit_round-status :
      (seen : Option String) (r : Result String (List String))
      → (ratelimit_round name decode (remembers seen) r).0.status ≡ ratelimit_verdict decode seen r
  unfolding ratelimit_round result
  ratelimit_round-status seen (err e) = refl
  ratelimit_round-status seen (ok []) = refl
  ratelimit_round-status none (ok (x ∷ xs)) = refl
  ratelimit_round-status (some u) (ok (x ∷ xs)) = ground arith

  -- A Ratelimit probe that has run through any history of answers reports CRITICAL exactly when
  -- the log is not empty, it was read before, and the queue id of its newest entry is not the one
  -- that the last successful read showed; an empty log is OK and shows the empty id, and a failed read is UNKNOWN.
  ratelimit-detects :
      (history : List (Result String (List String))) (r : Result String (List String))
      → (ratelimit_round name decode (ratelimit_after name decode new_change history) r).0.status
        ≡ ratelimit_verdict decode (last_id decode none history) r
  ratelimit-detects history r =
      ap (λ p. (ratelimit_round name decode p r).0.status) (ratelimit_after-memory none history)
      ∙ ratelimit_round-status (last_id decode none history) r
