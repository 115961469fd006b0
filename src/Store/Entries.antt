-- ===== src/Store/Entries.antt =====
-- What a reader of the log gets.
use mailcow_watchdog.Prelude.{ℕ, ◌≡◌, ap, ◌∙◌, String, [], ◌∷◌, some, map}
use mailcow_watchdog.Prelude.Text.{codes}
use mailcow_watchdog.Prelude.Format.{itoa}
use mailcow_watchdog.Prelude.Json.{marshal}
use mailcow_watchdog.Prelude.Json.Objects.{read_object, read_object-marshal}
use mailcow_watchdog.Health.{Snapshot}
use mailcow_watchdog.Store.{itoa_ℤ, sanitize, message_entry, progress_entry}
use mailcow_watchdog.Store.Sanitized.{replaced, sanitize_lem}

-- A reader of the log that knows JSON strings gets from an entry its fields by their names, the numbers
-- in decimals; the message it gets is the given one with each forbidden character turned into a
-- space, whatever else the message holds.
pub read_object-entries :
    (message : String) (s : Snapshot) (unix : ℕ)
    → (read_object 2 (marshal (message_entry message unix))
        ≡ some (
            (codes "time", codes (itoa unix))
            ∷ (codes "message", map replaced (codes message))
            ∷ []))
      × (read_object 6 (marshal (progress_entry s unix))
          ≡ some (
              (codes "time", codes (itoa unix))
              ∷ (codes "service", codes s.service)
              ∷ (codes "lvl", codes (itoa s.percent))
              ∷ (codes "hpnow", codes (itoa s.remaining))
              ∷ (codes "hptotal", codes (itoa s.threshold))
              ∷ (codes "hpdiff", codes (itoa_ℤ s.trend))
              ∷ []))
unfolding message_entry progress_entry
read_object-entries message s unix = (
  read_object-marshal "time" (itoa unix) (("message", sanitize message) ∷ [])
      ∙ ap (λ t. some ((codes "time", codes (itoa unix)) ∷ (codes "message", t) ∷ []))
          (sanitize_lem message).0,
  read_object-marshal "time" (itoa unix) (
      ("service", s.service)
      ∷ ("lvl", itoa s.percent)
      ∷ ("hpnow", itoa s.remaining)
      ∷ ("hptotal", itoa s.threshold)
      ∷ ("hpdiff", itoa_ℤ s.trend)
      ∷ []),
)
