-- ===== src/BusyActions/Tests.antt =====
-- Actions that start and finish.
use lucky_tag.BusyActions.{BusyActionCounts, add_busy_action, remove_busy_action, has_busy_action}
use lucky_tag.BusyActions.Counts.{busy_while_running}
use lucky_tag.Common.{◌≡◌, true, [], ◌∷◌}

abbrev syncing : BusyActionCounts
syncing = (115 ∷ [], 2) ∷ []

busy_while_running_example :
    (has_busy_action (add_busy_action syncing (116 ∷ [])) (116 ∷ []) ≡ true)
    × (has_busy_action
          (remove_busy_action (add_busy_action syncing (116 ∷ [])) (116 ∷ []))
          (115 ∷ [])
        ≡ has_busy_action syncing (115 ∷ []))
busy_while_running_example = busy_while_running syncing (116 ∷ []) (115 ∷ [])
