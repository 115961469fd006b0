-- ===== src/Prelude/Net.antt =====
-- `net.JoinHostPort` with a port as a text or as a number, `strings.TrimSuffix`, and the domain of an address.
use mathlib.Core.Option.{Option, none, some}
use mathlib.Core.List.{[], ◌∷◌}
use Prim.Native.Nat.{ℕ}
use Prim.Native.Char.{code}
use Prim.Native.String.{String}
use text.Mathlib.Text.{◌==◌ as str_eq}
use mailcow_watchdog.Prelude.Tests.{◌==◌, if◌then◌else◌}
use mailcow_watchdog.Prelude.Lists.{any}
use mailcow_watchdog.Prelude.Text.{codes}
use mailcow_watchdog.Prelude.Format.{concat, itoa}

-- A host with a colon in it is an IPv6 address and gets brackets.
unfoldable pub join_host_with : String → String → String
join_host_with host port =
    if any (λ c. c == b':') (codes host)
    then concat ("[" ∷ host ∷ "]:" ∷ port ∷ [])
    else concat (host ∷ ":" ∷ port ∷ [])

unfoldable pub join_host_port : String → ℕ → String
join_host_port host port = join_host_with host (itoa port)

-- What follows the last `@`.
unfoldable pub after_at : String → Option String
after_at String.[] = none
after_at (String.◌∷◌ c s) = elim (after_at s) [
  | some domain ↦ some domain
  | none ↦ if code c == b'@' then some s else none
]

-- `strings.TrimSuffix`: the text up to the place where only the suffix is left.
unfoldable pub trim_suffix : String → String → String
trim_suffix suffix String.[] = String.[]
trim_suffix suffix (String.◌∷◌ c s) =
    if str_eq (String.◌∷◌ c s) suffix then "" else String.◌∷◌ c (trim_suffix suffix s)
