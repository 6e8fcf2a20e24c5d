-- ===== src/BusyActions.antt =====
-- shared/busy-actions.ts: how many times each action is under way. The record is the list of its own
-- entries; a key that an object inherits, such as `constructor`, is no action.
pub mod Counts
mod Tests
use lucky_tag.Common.{ℕ, ◌+◌, ◌-◌, Bool, true, false, not, List, [], ◌∷◌, ltb, ◌==◌, if◌then◌else◌}
use lucky_tag.Text.{Text, text_eq}

abbrev pub BusyActionCounts : Type 0
BusyActionCounts = List (Text × ℕ)

-- `current[action] || 0`
unfoldable pub count_of : Text → BusyActionCounts → ℕ
count_of action [] = 0
count_of action ((key, n) ∷ entries) = if text_eq key action then n else count_of action entries

-- `{ ...current, [action]: n }`
unfoldable pub with_count : Text → ℕ → BusyActionCounts → BusyActionCounts
with_count action n [] = (action, n) ∷ []
with_count action n ((key, m) ∷ entries) =
    if text_eq key action then (key, n) ∷ entries else (key, m) ∷ with_count action n entries

-- `delete next[action]`
unfoldable pub without : Text → BusyActionCounts → BusyActionCounts
without action [] = []
without action ((key, m) ∷ entries) =
    let rest = without action entries in if text_eq key action then rest else (key, m) ∷ rest

unfoldable pub add_busy_action : BusyActionCounts → Text → BusyActionCounts
add_busy_action current action = with_count action (count_of action current + 1) current

unfoldable pub remove_busy_action : BusyActionCounts → Text → BusyActionCounts
remove_busy_action current action =
    if ltb 1 (count_of action current)
    then with_count action (count_of action current - 1) current
    else (if count_of action current == 0 then current else without action current)

unfoldable pub has_busy_action : BusyActionCounts → Text → Bool
has_busy_action current action = not (count_of action current == 0)
