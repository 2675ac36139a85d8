-- ===== src/Console/Ui.antt =====
-- What apps/web/src/lib/ui.tsx shows of a status, a severity and a time.
pub mod Age
use xoom_agent_control.Prelude.{
  ℕ, ◌+◌, ◌-◌, ◌/◌, String, Bool, ◌==◌, Option, none, some, List, [], ◌∷◌, ltb, find, template,
  decimal, if◌then◌else◌,
}

-- `map[key] ?? "gray"`
abbrev class_of : Option (String × String) → String
class_of none = "gray"
class_of (some (key, class)) = class

unfoldable pub class_in : List (String × String) → String → String
unfolding find
class_in classes key = class_of (find (λ c. c.0 == key) classes)

-- The map of `StatusBadge`
abbrev pub status_classes : List (String × String)
status_classes =
    ("active", "green")
    ∷ ("online", "green")
    ∷ ("succeeded", "green")
    ∷ ("provisioning", "blue")
    ∷ ("claimed", "blue")
    ∷ ("running", "blue")
    ∷ ("pending", "yellow")
    ∷ ("queued", "yellow")
    ∷ ("draining", "yellow")
    ∷ ("maintenance", "yellow")
    ∷ ("suspended", "gray")
    ∷ ("offline", "gray")
    ∷ ("cancelled", "gray")
    ∷ ("deleted", "gray")
    ∷ ("failed", "red")
    ∷ ("error", "red")
    ∷ ("critical", "red")
    ∷ []

-- The map of `SeverityBadge`
abbrev pub severity_classes : List (String × String)
severity_classes =
    ("info", "blue")
    ∷ ("debug", "gray")
    ∷ ("warning", "yellow")
    ∷ ("error", "red")
    ∷ ("critical", "red")
    ∷ []

pub data TimeUnit : Type 0 where
  seconds minutes hours days : TimeUnit

-- The number and the unit that `fmtRelative` shows of an age in seconds; `Math.round` rounds a half up.
unfoldable pub age : ℕ → ℕ × TimeUnit
age s =
    if ltb s 60
    then (s, seconds)
    else if ltb s 3600
    then ((s + 30) / 60, minutes)
    else if ltb s 86400
    then ((s + 1800) / 3600, hours)
    else ((s + 43200) / 86400, days)

abbrev letter : TimeUnit → String
letter seconds = "s"
letter minutes = "m"
letter hours = "h"
letter days = "d"

abbrev shown : ℕ × TimeUnit → String
shown (n, unit) = template (decimal n ∷ letter unit ∷ " ago" ∷ [])

-- A time that lies ahead is shown in seconds, with a sign unless it rounds to none.
abbrev ahead : ℕ → String
ahead n = template ((if ltb n 1 then "" else "-") ∷ decimal n ∷ "s ago" ∷ [])

-- `fmtRelative` of a time in milliseconds
unfoldable pub fmt_relative : ℕ → Option ℕ → String
unfolding age template decimal
fmt_relative now none = "never"
fmt_relative now (some t) =
    if ltb now t then ahead ((t - now + 499) / 1000) else shown (age ((now - t + 500) / 1000))
