-- ===== src/Worker/Run.antt =====
-- worker.ts: `executeRun` and the passes over the records of one group.
pub mod Passes
use lucky_tag.Common.{
  ℕ, suc, ◌+◌, ◌-◌, ◌*◌, Bool, true, false, not, ◌&&◌, ◌||◌, Option, none, some, List, [], ◌∷◌,
  ◌++◌, map, ltb, if◌then◌else◌,
}
use lucky_tag.Contracts.{
  AppConfig, AllowlistedGroup, DemoMessageMessage, RunSummary, ReplyStatus, sent, dry_run, ignored,
  needs_manual, recalled, failed, ReplyRecord,
}
use lucky_tag.Text.{Text, lit, text_eq, member, join}
use lucky_tag.Worker.Effects.{
  Result, ok, err, World, Counters, M, Options, pure, ◌>>=◌, ◌>>◌, catch, of_result, now,
  get_config, read_state,
}
use lucky_tag.Worker.Fetch.{fetch_mentions}
use lucky_tag.Worker.Lifecycle.{
  initialize, enabled_groups, has_no_group, simple_input, read_runtime,
}
use lucky_tag.Worker.Process.{process_record}
use lucky_tag.Worker.Process.Guards.{iso_before, attempt}
use lucky_tag.Worker.Run.Passes.{
  bump, count_outcome, count_outcomes, add_note, process_recoverable_records,
  process_open_follow_ups,
}
use lucky_tag.Worker.Store.{
  ensure_pending_record, mark_initial_messages_ignored, mark_group_initialized, is_running,
  update_runtime, LastError, absent, null, message, RuntimeInput,
}

abbrev zero_counters : Counters
zero_counters = record {
  discovered = 0;
  sent = 0;
  previews = 0;
  ignored = 0;
  needs_manual = 0;
  recalled = 0;
  failed = 0;
}

unfoldable pub begin_counting : M (Unit {0})
begin_counting w = (ok tt, record w { counters = zero_counters; notes = [] })

unfoldable pub read_counters : M (Counters × List Text)
read_counters w = (ok (w.counters, w.notes), w)

-- `this.demoMessage.setAllowlistedGroups(ids)`
unfoldable pub set_allowlisted_groups : List Text → M (Unit {0})
set_allowlisted_groups ids w = (ok tt, record w { allowlist = ids })

abbrev add_discovered : ℕ → Counters → Counters
add_discovered n c = record c { discovered = c.discovered + n }

abbrev add_ignored_count : ℕ → Counters → Counters
add_ignored_count n c = record c { ignored = c.ignored + n }

abbrev add_failed : Counters → Counters
add_failed c = record c { failed = c.failed + 1 }

module _ (o : Options) where
  module _ (config : AppConfig) (group : AllowlistedGroup) where
    -- The first scan of a group, where the policy is to leave its messages alone.
    unfoldable pub first_scan : List DemoMessageMessage → M (Unit {0})
    first_scan messages = do
      added ← mark_initial_messages_ignored o messages group
      bump (add_discovered added)
      bump (add_ignored_count added)
      mark_group_initialized o group.id

    unfoldable pub handle_message : DemoMessageMessage → M (Unit {0})
    handle_message m = if not (text_eq m.group_id group.id) then bump (add_ignored_count 1) else do
      (is_new, r) ← ensure_pending_record o m group
      bump (add_discovered (if is_new then 1 else 0))
      outcome ← process_record o group r m config
      count_outcome outcome

    unfoldable pub handle_messages : List DemoMessageMessage → M (Unit {0})
    handle_messages [] = pure tt
    handle_messages (m ∷ ms) = do handle_message m; handle_messages ms

    unfoldable pub later_scan : Bool → List DemoMessageMessage → M (Unit {0})
    later_scan is_first messages = do
      if is_first then mark_group_initialized o group.id else pure tt
      recovered ← process_recoverable_records o group config
      count_outcomes recovered
      handle_messages messages
      followed ← process_open_follow_ups o group config
      count_outcomes followed

    abbrev pub scan_by : Bool → List DemoMessageMessage → M (Unit {0})
    scan_by is_first messages =
        if is_first && config.reply_policy.mark_existing_ignored
        then first_scan messages
        else later_scan is_first messages

    -- The body of the `try` for one group.
    unfoldable pub scan_group : ℕ → M (Unit {0})
    scan_group finish = do
      start ←
          of_result (iso_before o.host (config.reply_policy.lookback_minutes * 60000) (some finish))
      messages ← fetch_mentions o group.id start (o.host.to_iso finish)
      state ← read_state o
      scan_by (not (member group.id state.initialized_groups)) messages

    unfoldable pub guarded_scan : ℕ → M (Unit {0})
    guarded_scan finish =
        catch (scan_group finish) (λ e. do bump add_failed; add_note (group.label ++ lit "：" ++ e))

  unfoldable pub scan_groups : AppConfig → ℕ → List AllowlistedGroup → M (Unit {0})
  scan_groups config finish [] = pure tt
  scan_groups config finish (g ∷ gs) = do guarded_scan config g finish; scan_groups config finish gs

  unfoldable pub active_groups : AppConfig → List AllowlistedGroup
  active_groups config = if config.reply_policy.enabled then enabled_groups config else []

  -- The body of the outer `try`.
  unfoldable pub scan_all : M (Unit {0})
  scan_all = do
    config ← get_config o
    set_allowlisted_groups (map (λ g. g.id) (active_groups config))
    if config.reply_policy.enabled then pure tt else add_note (lit "自动回复总开关已关闭，本轮未读取或发送任何消息")
    if config.reply_policy.enabled && has_no_group (active_groups config)
        then add_note (lit "群白名单为空，未读取或发送任何消息")
        else pure tt
    finish ← now o
    scan_groups config finish (active_groups config)

  unfoldable pub guarded_scan_all : M (Unit {0})
  guarded_scan_all = catch scan_all (λ e. do bump add_failed; add_note e)

  abbrev joined_notes : List Text → Option Text
  joined_notes [] = none
  joined_notes (n ∷ ns) = some (join (lit "；") (n ∷ ns))

  abbrev note_error : Option Text → LastError
  note_error none = null
  note_error (some t) = message t

  -- `(config?.replyPolicy.pollIntervalSeconds ?? 300) * 1000`
  abbrev next_interval : Result AppConfig → ℕ
  next_interval (ok config) = config.reply_policy.poll_interval_seconds * 1000
  next_interval (err e) = 300000

  abbrev pub next_run : Bool → ℕ → M (Option Text)
  next_run false interval = pure none
  next_run true interval = do at ← now o; pure (some (o.host.to_iso (at + interval)))

  unfoldable pub finish_run : ℕ → Text → M RunSummary
  finish_run finished started_at = do
    running ← is_running o
    config ← attempt (get_config o)
    next_run_at ← next_run running (next_interval config)
    (counters, notes) ← read_counters
    update_runtime o (record {
      running = running;
      processing = false;
      last_run_at = some (o.host.to_iso finished);
      next_run_at = next_run_at;
      last_error = note_error (joined_notes notes);
    })
    pure (record {
      started_at = started_at;
      finished_at = o.host.to_iso finished;
      discovered = counters.discovered;
      sent = counters.sent;
      previews = counters.previews;
      ignored = counters.ignored;
      needs_manual = counters.needs_manual;
      recalled = counters.recalled;
      failed = counters.failed;
      note = joined_notes notes;
    })

  unfoldable pub execute_run : M RunSummary
  execute_run = do
    initialize o
    started ← now o
    begin_counting
    was_running ← is_running o
    update_runtime o (simple_input was_running true absent)
    guarded_scan_all
    finished ← now o
    finish_run finished (o.host.to_iso started)
