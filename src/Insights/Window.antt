-- ===== src/Insights/Window.antt =====
-- apps/insights-api/insights_api/services/window.py
use inferspect.Prelude.{ℕ, zero, suc, ◌-◌, ◌*◌, String, Option, none, some, str_eq, if◌then◌else◌}

-- `str.strip`, the groups of the pattern, `int` of its digits and `str.lower`.
pub record WindowText : Type 0 where
  pub strip : String → String
  pub groups : String → Option (String × String)
  pub to_int : String → ℕ
  pub lower : String → String

-- `_UNIT_TO_SECONDS`, of a letter that the pattern has matched.
abbrev pub unit_to_seconds : String → ℕ
unit_to_seconds unit =
    if str_eq unit "s"
    then 1
    else if str_eq unit "m"
    then 60
    else if str_eq unit "h"
    then 3600
    else 86400

abbrev pub seconds_of : ℕ → String → Option ℕ
seconds_of zero unit = none
seconds_of (suc n) unit = some (suc n * unit_to_seconds unit)

abbrev pub matched_window : WindowText → Option (String × String) → Option ℕ
matched_window py none = none
matched_window py (some (digits, unit)) = seconds_of (py.to_int digits) (py.lower unit)

-- Seconds; `none` is the `ValueError`.
unfoldable pub parse_window : WindowText → String → Option ℕ
parse_window py window =
    if str_eq window "" then none else matched_window py (py.groups (py.strip window))

abbrev pub before_now : ℕ → Option ℕ → Option ℕ
before_now now none = none
before_now now (some delta) = some (now - delta)

-- `since_for`, in seconds since the epoch.
unfoldable pub since_for : WindowText → ℕ → String → Option ℕ
since_for py now window = before_now now (parse_window py window)
