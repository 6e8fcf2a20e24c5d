-- ===== src/Worker/Sends/Whole.antt =====
-- worker.ts: the messages that a whole run sends.
use lucky_tag.Common.{ℕ, ◌≡◌, Bool, List, [], ◌∷◌, ◌++◌, All, if◌then◌else◌}
use lucky_tag.Contracts.{AppConfig, AllowlistedGroup, DemoMessageMessage}
use lucky_tag.Worker.Effects.{World, SendEvent, M, Options, pure}
use lucky_tag.Worker.Effects.Rules.{
  Keeps, pure-Keeps, of_result-Keeps, bind-Keeps, catch-Keeps, if-Keeps,
}
use lucky_tag.Worker.Run.{
  first_scan, later_scan, scan_group, guarded_scan, scan_groups, scan_all, guarded_scan_all,
  execute_run,
}
use lucky_tag.Worker.Sends.Passes.{
  Adds, Adds-IsOrder, Adds-of_Quiet, Allowed, handle_messages-Adds, recover-Adds, follow-Adds,
}
use lucky_tag.Worker.Sends.Quiet.{
  Quiet, Quiet-IsOrder, read_state-Quiet, now-Quiet, get_config-Quiet, quiet_rules,
}
use lucky_tag.Worker.Sends.Silent.{
  bump-Quiet, add_note-Quiet, begin_counting-Quiet, set_allowlisted-Quiet, count_outcomes-Quiet,
  mark_initial-Quiet, mark_group_initialized-Quiet, is_running-Quiet, update_runtime-Quiet,
  fetch_mentions-Quiet, initialize-Quiet, finish_run-Quiet,
}

module _ (o : Options) where
  module _ (config : AppConfig) (group : AllowlistedGroup) where
    first_scan-Quiet : (ms : List DemoMessageMessage) → Keeps Quiet (first_scan o config group ms)
    unfolding first_scan
    first_scan-Quiet ms =
        search (quiet_rules, mark_initial-Quiet, bump-Quiet, mark_group_initialized-Quiet) depth 12

    later_scan-Adds :
        (first : Bool) (ms : List DemoMessageMessage)
        → Keeps (Adds o) (later_scan o config group first ms)
    unfolding later_scan
    later_scan-Adds first ms =
        bind-Keeps (Adds-IsOrder o)
          (Adds-of_Quiet o (
            if-Keeps Quiet-IsOrder first (mark_group_initialized-Quiet o group.id)
              (pure-Keeps Quiet-IsOrder tt)))
          (λ u. bind-Keeps (Adds-IsOrder o) (recover-Adds o group config) (λ found.
            bind-Keeps (Adds-IsOrder o) (Adds-of_Quiet o (count_outcomes-Quiet found)) (λ v.
              bind-Keeps (Adds-IsOrder o) (handle_messages-Adds o config group ms) (λ w.
                bind-Keeps (Adds-IsOrder o) (follow-Adds o group config)
                  (λ followed. Adds-of_Quiet o (count_outcomes-Quiet followed))))))

    scan_group-Adds : (finish : ℕ) → Keeps (Adds o) (scan_group o config group finish)
    unfolding scan_group
    scan_group-Adds finish =
        bind-Keeps (Adds-IsOrder o) (of_result-Keeps (Adds-IsOrder o) _) (λ start.
          bind-Keeps (Adds-IsOrder o) (Adds-of_Quiet o (fetch_mentions-Quiet o _ _ _)) (λ ms.
            bind-Keeps (Adds-IsOrder o) (Adds-of_Quiet o (read_state-Quiet o)) (λ s.
              if-Keeps (Adds-IsOrder o) _ (Adds-of_Quiet o (first_scan-Quiet ms))
                (later_scan-Adds _ ms))))

    guarded_scan-Adds : (finish : ℕ) → Keeps (Adds o) (guarded_scan o config group finish)
    unfolding guarded_scan
    guarded_scan-Adds finish =
        catch-Keeps (Adds-IsOrder o) (scan_group-Adds finish)
          (λ e. Adds-of_Quiet o (search (quiet_rules, bump-Quiet, add_note-Quiet)))

  scan_groups-Adds :
      (config : AppConfig) (finish : ℕ) (gs : List AllowlistedGroup)
      → Keeps (Adds o) (scan_groups o config finish gs)
  unfolding scan_groups
  scan_groups-Adds config finish [] = pure-Keeps (Adds-IsOrder o) tt
  scan_groups-Adds config finish (g ∷ gs) =
      bind-Keeps (Adds-IsOrder o) (guarded_scan-Adds config g finish)
        (λ u. scan_groups-Adds config finish gs)

  optional_note-Quiet :
      (b : Bool) (note : M (Unit {0}))
      → Keeps Quiet note
      → Keeps Quiet (if b then note else pure tt)
  optional_note-Quiet b note h = if-Keeps Quiet-IsOrder b h (pure-Keeps Quiet-IsOrder tt)

  scan_all-Adds : Keeps (Adds o) (scan_all o)
  unfolding scan_all
  scan_all-Adds = bind-Keeps (Adds-IsOrder o) (Adds-of_Quiet o (get_config-Quiet o)) (λ config.
      bind-Keeps (Adds-IsOrder o) (Adds-of_Quiet o (set_allowlisted-Quiet _)) (λ u.
        bind-Keeps (Adds-IsOrder o)
          (Adds-of_Quiet o
            (if-Keeps Quiet-IsOrder _ (pure-Keeps Quiet-IsOrder tt) (add_note-Quiet _)))
          (λ v.
            bind-Keeps (Adds-IsOrder o)
              (Adds-of_Quiet o
                (if-Keeps Quiet-IsOrder _ (add_note-Quiet _) (pure-Keeps Quiet-IsOrder tt)))
              (λ w.
                bind-Keeps (Adds-IsOrder o) (Adds-of_Quiet o (now-Quiet o))
                  (λ finish. scan_groups-Adds config finish _)))))

  execute_run-Adds : Keeps (Adds o) (execute_run o)
  unfolding execute_run guarded_scan_all
  execute_run-Adds = bind-Keeps (Adds-IsOrder o) (Adds-of_Quiet o (initialize-Quiet o)) (λ a.
      bind-Keeps (Adds-IsOrder o) (Adds-of_Quiet o (now-Quiet o)) (λ started.
        bind-Keeps (Adds-IsOrder o) (Adds-of_Quiet o begin_counting-Quiet) (λ b.
          bind-Keeps (Adds-IsOrder o) (Adds-of_Quiet o (is_running-Quiet o)) (λ running.
            bind-Keeps (Adds-IsOrder o) (Adds-of_Quiet o (update_runtime-Quiet o _)) (λ c.
              bind-Keeps (Adds-IsOrder o)
                (catch-Keeps (Adds-IsOrder o) scan_all-Adds
                  (λ e. Adds-of_Quiet o (search (quiet_rules, bump-Quiet, add_note-Quiet))))
                (λ d.
                  bind-Keeps (Adds-IsOrder o) (Adds-of_Quiet o (now-Quiet o))
                    (λ finished. Adds-of_Quiet o (finish_run-Quiet o finished _))))))))

-- However a run ends, what it has sent is a list of messages in front of those sent before, and each of
-- them was authorised by a record of a group at the moment it was sent.
pub execute_run_sends-Allowed :
    (o : Options) (w : World)
    → (es : List SendEvent) × ((execute_run o w).1.sends ≡ es ++ w.sends) × All (Allowed o) es
execute_run_sends-Allowed o w = (execute_run-Adds o).run w
