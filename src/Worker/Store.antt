-- ===== src/Worker/Store.antt =====
-- worker.ts: the operations of the engine on the stored state.
pub mod Success
use lucky_tag.Common.{
  ℕ, suc, ◌+◌, Bool, true, false, not, ◌&&◌, ◌||◌, ltb, Option, none, some, List, [], ◌∷◌, ◌++◌,
  map, find, any, filter, length, if◌then◌else◌,
}
use lucky_tag.Contracts.{
  ReplyStatus, ignored, ReplyRecord, CoreStateFile, RuntimeStatus, AllowlistedGroup,
  DemoMessageMessage,
}
use lucky_tag.Text.{Text, lit, text_eq, truthy, member, distinct, distinct_from}
use lucky_tag.Worker.Effects.{
  Result, ok, err, World, M, Options, pure, throw, ◌>>=◌, ◌>>◌, of_result, notify, when, now,
  read_state, update_state,
}
use lucky_tag.Worker.Records.{Patch, record_key, create_reply_record, set_each, or_else}
use lucky_tag.Worker.Trim.{trim_replies, reserves_hourly_reply_capacity}

abbrev pub required {ℓ} : {A : Type ℓ} → Text → Option A → M A
required message (some a) = pure a
required message none = throw message

unfoldable pub not_found : Text → Text
not_found record_id = lit "找不到回复状态记录：" ++ record_id

module _ (o : Options) where
  -- The mutator of `setStatus`.
  unfoldable pub set_status_in :
      Text → ReplyStatus → Patch → CoreStateFile → M (CoreStateFile × Option ReplyRecord)
  set_status_in record_id status patch state = do
    updated_at ← now o
    (replies, selected) ←
        of_result (set_each record_id status patch (o.host.to_iso updated_at) state.replies)
    pure (record state { replies = trim_replies o.host replies updated_at }, selected)

  unfoldable pub set_status : Text → ReplyStatus → Patch → M ReplyRecord
  set_status record_id status patch = do
    selected ← update_state o (set_status_in record_id status patch)
    chosen ← required (not_found record_id) selected
    notify
    pure chosen

  abbrev is_record_of : AllowlistedGroup → DemoMessageMessage → ReplyRecord → Bool
  is_record_of group message reply =
      text_eq reply.group_id group.id && text_eq reply.message_id message.id

  abbrev pub known_or_new :
      DemoMessageMessage
      → AllowlistedGroup
      → CoreStateFile
      → Option ReplyRecord
      → M (CoreStateFile × (Bool × ReplyRecord))
  known_or_new message group state (some known) = pure (state, (false, known))
  known_or_new message group state none = do
    created ← now o
    trimmed ← now o
    let fresh = create_reply_record o.host message group created
    pure (
      record state { replies = trim_replies o.host (state.replies ++ fresh ∷ []) trimmed },
      (true, fresh),
    )

  unfoldable pub ensure_pending_record :
      DemoMessageMessage → AllowlistedGroup → M (Bool × ReplyRecord)
  ensure_pending_record message group = do
    (is_new, chosen) ← update_state o (λ state.
        known_or_new message group state (find (is_record_of group message) state.replies))
    when is_new notify
    pure (is_new, chosen)

  abbrev pub closed : Text → ReplyRecord → M ReplyRecord
  closed reason r = do
    closed_at ← now o
    pure (record r {
      follow_up_closed_at = some (o.host.to_iso closed_at);
      follow_up_close_reason = some reason;
    })

  unfoldable pub close_each : Text → Text → List ReplyRecord → M (List ReplyRecord)
  close_each record_id reason [] = pure []
  close_each record_id reason (r ∷ rs) = do
    r' ← if text_eq r.id record_id then closed reason r else pure r
    rs' ← close_each record_id reason rs
    pure (r' ∷ rs')

  unfoldable pub close_in : Text → Text → CoreStateFile → M (CoreStateFile × Unit {0})
  close_in record_id reason state = do
    replies ← close_each record_id reason state.replies
    pure (record state { replies = replies }, tt)

  unfoldable pub close_follow_up_window : Text → Text → M (Unit {0})
  close_follow_up_window record_id reason = do update_state o (close_in record_id reason); notify

  abbrev pub first_run_reason : Text
  first_run_reason = lit "首次运行安全策略：仅记录已有消息，不自动回复"

  abbrev ignored_record : DemoMessageMessage → AllowlistedGroup → ℕ → ℕ → ReplyRecord
  ignored_record message group created updated =
      record (create_reply_record o.host message group created) {
        status = ignored;
        reason = some first_run_reason;
        updated_at = o.host.to_iso updated;
      }

  -- The loop of `markInitialMessagesIgnored`: the keys known so far, the records, how many are new.
  unfoldable pub add_ignored :
      AllowlistedGroup
      → List Text
      → List ReplyRecord
      → ℕ
      → List DemoMessageMessage
      → M (List ReplyRecord × ℕ)
  add_ignored group known replies added [] = pure (replies, added)
  add_ignored group known replies added (message ∷ messages) =
      if member (record_key group.id message.id) known || not (text_eq message.group_id group.id)
      then add_ignored group known replies added messages
      else do
        created ← now o
        updated ← now o
        add_ignored group (record_key group.id message.id ∷ known)
            (replies ++ ignored_record message group created updated ∷ []) (added + 1) messages

  unfoldable pub mark_initial_in :
      List DemoMessageMessage → AllowlistedGroup → CoreStateFile → M (CoreStateFile × ℕ)
  mark_initial_in messages group state = do
    (replies, added) ←
        add_ignored group (map (λ r. record_key r.group_id r.message_id) state.replies)
          state.replies 0 messages
    trimmed ← now o
    pure (record state { replies = trim_replies o.host replies trimmed }, added)

  unfoldable pub mark_initial_messages_ignored : List DemoMessageMessage → AllowlistedGroup → M ℕ
  mark_initial_messages_ignored messages group = do
    added ← update_state o (mark_initial_in messages group)
    when (ltb 0 added) notify
    pure added

  unfoldable pub mark_group_initialized : Text → M (Unit {0})
  mark_group_initialized group_id = do
    update_state {0} o (λ state. pure (
      record state { initialized_groups = distinct (state.initialized_groups ++ group_id ∷ []) },
      tt,
    ))
    notify

  abbrev is_reserved_other : ℕ → Text → ReplyRecord → Bool
  is_reserved_other at exclude_record_id reply =
      not (text_eq reply.id exclude_record_id) && reserves_hourly_reply_capacity o.host at reply

  -- The records other than one that hold hourly capacity at an instant.
  unfoldable pub reserved_in : ℕ → Text → CoreStateFile → ℕ
  reserved_in at exclude_record_id state =
      length (filter (is_reserved_other at exclude_record_id) state.replies)

  -- `countReservedInLastHour`
  unfoldable pub count_reserved_in_last_hour : Text → M ℕ
  count_reserved_in_last_hour exclude_record_id = do
    at ← now o
    state ← read_state o
    pure (reserved_in at exclude_record_id state)

  unfoldable pub is_running : M Bool
  is_running = do state ← read_state o; pure state.runtime.running

-- The argument of `updateRuntime`: `last_error` is absent, null, or a text.
pub data LastError : Type 0 where
  absent null : LastError
  message : Text → LastError

pub record RuntimeInput : Type 0 where
  pub running : Bool
  pub processing : Bool
  pub last_run_at : Option Text
  pub next_run_at : Option Text
  pub last_error : LastError

abbrev chosen_error : LastError → Option Text → Option Text
chosen_error absent old = truthy old
chosen_error null old = none
chosen_error (message m) old = truthy (some m)

unfoldable pub next_runtime : Text → RuntimeInput → RuntimeStatus → RuntimeStatus
next_runtime instance_id input old = record {
  running = input.running;
  processing = input.processing;
  last_run_at = truthy (or_else input.last_run_at old.last_run_at);
  next_run_at = truthy input.next_run_at;
  last_error = chosen_error input.last_error old.last_error;
  instance_id = instance_id;
}

unfoldable pub update_runtime : Options → RuntimeInput → M (Unit {0})
update_runtime o input = do
  update_state {0} o (λ state.
      pure (record state { runtime = next_runtime o.instance_id input state.runtime }, tt))
  notify
