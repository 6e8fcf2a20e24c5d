-- ===== src/Worker/Lifecycle.antt =====
-- worker.ts: initialisation, the timer, and the persisted intent to run. A call that waits for the
-- active run stands where no run is active.
use lucky_tag.Common.{
  ℕ, suc, ◌+◌, ◌*◌, Bool, true, false, not, ◌&&◌, ◌||◌, Option, none, some, List, [], ◌∷◌, ◌++◌,
  filter, take, max, if◌then◌else◌,
}
use lucky_tag.Common.Sort.{sort}
use lucky_tag.Contracts.{AppConfig, AllowlistedGroup, RuntimeStatus, ReplyRecord}
use lucky_tag.Text.{Text, lit, trim, truthy, is_empty}
use lucky_tag.Worker.Effects.{
  ok, M, Options, pure, throw, ◌>>=◌, ◌>>◌, catch, notify, now, get_config, read_state,
  update_state,
}
use lucky_tag.Worker.Store.{LastError, RuntimeInput, update_runtime, absent, null, message}
use lucky_tag.Worker.Trim.{newest_first}

-- `enabledGroups`
unfoldable pub enabled_groups : AppConfig → List AllowlistedGroup
enabled_groups config =
    filter (λ group. group.enabled && not (is_empty (trim group.id))) config.groups

abbrev pub has_no_group : List AllowlistedGroup → Bool
has_no_group [] = true
has_no_group (g ∷ gs) = false

abbrev pub simple_input : Bool → Bool → LastError → RuntimeInput
simple_input running processing last_error = record {
  running = running;
  processing = processing;
  last_run_at = none;
  next_run_at = none;
  last_error = last_error;
}

unfoldable pub set_timer : Option ℕ → M (Unit {0})
set_timer timer w = (ok tt, record w { timer = timer })

unfoldable pub set_initialized : M (Unit {0})
set_initialized w = (ok tt, record w { initialized = true })

-- `void this.runOnce()`
unfoldable pub spawn_run : M (Unit {0})
spawn_run w = (ok tt, record w { spawned = suc w.spawned })

-- `if (this.timer)`, `if (this.initialized)`
unfoldable pub timer_set : M Bool
timer_set w = elim w.timer [ none ↦ (ok false, w) | some interval ↦ (ok true, w) ]

unfoldable pub is_initialized : M Bool
is_initialized w = (ok w.initialized, w)

module _ (o : Options) where
  unfoldable pub read_runtime : M RuntimeStatus
  read_runtime = do state ← read_state o; pure state.runtime

  abbrev pub poll_interval_ms : AppConfig → ℕ
  poll_interval_ms config = config.reply_policy.poll_interval_seconds * 1000

  unfoldable pub schedule : AppConfig → Bool → M (Unit {0})
  schedule config processing = do
    at ← now o
    update_runtime o (record {
      running = true;
      processing = processing;
      last_run_at = none;
      next_run_at = some (o.host.to_iso (at + poll_interval_ms config));
      last_error = absent;
    })

  -- The body of `start` once the engine is initialised and has no timer.
  unfoldable pub start_scheduler : AppConfig → M RuntimeStatus
  start_scheduler config =
      if not config.reply_policy.enabled
      then throw (lit "请先启用自动回复开关")
      else (if has_no_group (enabled_groups config) then throw (lit "至少需要启用一个群白名单") else do
        schedule config false
        set_timer (some (poll_interval_ms config))
        spawn_run
        read_runtime)

  unfoldable pub start_initialized : M RuntimeStatus
  start_initialized = do
    ticking ← timer_set
    if ticking then read_runtime else (do config ← get_config o; start_scheduler config)

  unfoldable pub quiet_runtime : RuntimeStatus → RuntimeStatus
  quiet_runtime old = record {
    running = false;
    processing = false;
    last_run_at = truthy old.last_run_at;
    next_run_at = none;
    last_error = truthy old.last_error;
    instance_id = o.instance_id;
  }

  -- `initialize` resumes a worker that was running when the process ended.
  unfoldable pub resume : Bool → M (Unit {0})
  resume false = pure tt
  resume true =
      catch (start_initialized >> pure tt)
        (λ e. update_runtime o (simple_input false false (message (lit "Daemon 恢复自动运行失败：" ++ e))))

  unfoldable pub initialize_once : M (Unit {0})
  initialize_once = do
    was_running ← update_state {0} o (λ state.
        pure (record state { runtime = quiet_runtime state.runtime }, state.runtime.running))
    set_initialized
    notify
    resume was_running

  unfoldable pub initialize : M (Unit {0})
  initialize = do initialized ← is_initialized; if initialized then pure tt else initialize_once

  unfoldable pub get_runtime_status : M RuntimeStatus
  get_runtime_status = do initialize; read_runtime

  unfoldable pub get_recent_replies : ℕ → M (List ReplyRecord)
  get_recent_replies limit = do
    initialize
    state ← read_state o
    pure (take (max 1 limit) (sort (newest_first o.host) state.replies))

  unfoldable pub start : M RuntimeStatus
  start = do initialize; start_initialized

  unfoldable pub stop : M RuntimeStatus
  stop = do
    set_timer none
    initialize
    update_runtime o (simple_input false false absent)
    get_runtime_status

  abbrev pub kept_error : Option Text → LastError
  kept_error none = null
  kept_error (some e) = message e

  unfoldable pub suspend_for_shutdown : M (Unit {0})
  suspend_for_shutdown = do
    initialize
    set_timer none
    runtime ← get_runtime_status
    update_runtime o (record {
      running = runtime.running;
      processing = false;
      last_run_at = truthy runtime.last_run_at;
      next_run_at = none;
      last_error = kept_error runtime.last_error;
    })

  -- The body of `reschedule` where a timer is set.
  unfoldable pub reschedule_with : AppConfig → M RuntimeStatus
  reschedule_with config =
      if not config.reply_policy.enabled || has_no_group (enabled_groups config)
      then (do
        set_timer none
        update_runtime o (simple_input false false absent)
        get_runtime_status)
      else do
        current ← get_runtime_status
        set_timer none
        set_timer (some (poll_interval_ms config))
        schedule config current.processing
        get_runtime_status

  unfoldable pub reschedule : M RuntimeStatus
  reschedule = do
    initialize
    ticking ← timer_set
    if ticking then (do config ← get_config o; reschedule_with config) else get_runtime_status
