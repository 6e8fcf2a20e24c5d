-- ===== src/Worker/Records.antt =====
-- worker.ts: new reply records, their keys, and the update of one record's status.
pub mod Transitions
use lucky_tag.Common.{
  ℕ, zero, suc, ◌+◌, ◌-◌, ◌*◌, ◌/◌, ◌%◌, Bool, true, false, ◌&&◌, Option, none, some, List, [], ◌∷◌,
  ◌++◌, ltb, take, drop, set, get_or, if◌then◌else◌,
}
use lucky_tag.Contracts.{
  ReplyStatus, pending, sending, ReplyRecord, ReplyEvidence, AllowlistedGroup, DemoMessageMessage,
}
use lucky_tag.Host.{Host}
use lucky_tag.Text.{Text, lit, text_eq, truthy, is_empty, join}
use lucky_tag.Worker.Effects.{Result, ok, err}
use lucky_tag.Worker.Status.{may_become, status_eq, status_name}

-- `${group.id}\0${message.id}`
abbrev pub record_key : Text → Text → Text
record_key group_id message_id = group_id ++ 0 ∷ message_id

abbrev hex_digit : ℕ → ℕ
hex_digit n = if ltb n 10 then 48 + n else 87 + n

-- `bytes.toString('hex')`
unfoldable pub hex : List ℕ → Text
hex [] = []
hex (b ∷ bs) = hex_digit (b / 16) ∷ hex_digit (b % 16) ∷ hex bs

abbrev slice : ℕ → ℕ → Text → Text
slice from to t = take (to - from) (drop from t)

-- `(byte & 0x0f) | 0x50` and `(byte & 0x3f) | 0x80`, on bytes 6 and 8 of the digest.
abbrev uuid_bytes : List ℕ → List ℕ
uuid_bytes bytes = set (set bytes 6 (get_or bytes 6 0 % 16 + 0x50)) 8 (get_or bytes 8 0 % 64 + 0x80)

unfoldable pub uuid_text : Text → Text
unfolding lit join
uuid_text t =
    join (lit "-") (slice 0 8 t ∷ slice 8 12 t ∷ slice 12 16 t ∷ slice 16 20 t ∷ drop 20 t ∷ [])

module _ (h : Host) where
  unfoldable pub stable_uuid : Text → Text
  unfolding hex uuid_text
  stable_uuid value = uuid_text (hex (uuid_bytes (take 16 (h.sha256 value))))

  unfoldable pub record_id : Text → Text → Text
  unfolding hex
  record_id group_id message_id = take 32 (hex (h.sha256 (record_key group_id message_id)))

  unfoldable pub create_reply_record : DemoMessageMessage → AllowlistedGroup → ℕ → ReplyRecord
  unfolding stable_uuid record_id
  create_reply_record message group now = record {
    id = record_id group.id message.id;
    message_id = message.id;
    group_id = group.id;
    group_label = group.label;
    sender_label = truthy message.sender_label;
    question = message.text;
    reply = none;
    status = pending;
    reason = none;
    created_at = if is_empty message.created_at then h.to_iso now else message.created_at;
    updated_at = h.to_iso now;
    evidence = [];
    lease_expires_at = none;
    platform_task_id = none;
    attempt_count = 0;
    idempotency_uuid = stable_uuid (record_key group.id message.id);
    sender_id = truthy message.sender_id;
    follow_up_closed_at = none;
    follow_up_close_reason = none;
  }

-- The `Partial<PersistedReplyRecord>` values that the engine passes to `setStatus`.
pub record Patch : Type 0 where
  pub reason : Option Text
  pub reply : Option Text
  pub evidence : Option (List ReplyEvidence)
  pub lease_expires_at : Option Text
  pub platform_task_id : Option Text
  pub attempt_count : Option ℕ

abbrev pub or_else {ℓ} : {A : Type ℓ} → Option A → Option A → Option A
or_else (some a) o = some a
or_else none o = o

abbrev pub or_keep {ℓ} : {A : Type ℓ} → Option A → A → A
or_keep (some a) b = a
or_keep none b = b

-- The new version of a record: the lease is dropped unless the status is `sending`.
unfoldable pub patched : ReplyStatus → Patch → Text → ReplyRecord → ReplyRecord
patched status patch updated_at r = record r {
  reply = or_else patch.reply r.reply;
  status = status;
  reason = or_else patch.reason r.reason;
  updated_at = updated_at;
  evidence = or_keep patch.evidence r.evidence;
  lease_expires_at =
      or_else patch.lease_expires_at
        (if status_eq status sending then r.lease_expires_at else none);
  platform_task_id = or_else patch.platform_task_id r.platform_task_id;
  attempt_count = or_keep patch.attempt_count r.attempt_count;
}

unfoldable pub illegal_transition : ReplyStatus → ReplyStatus → Text
unfolding lit status_name
illegal_transition from to = lit "非法回复状态迁移：" ++ status_name from ++ lit " -> " ++ status_name to

abbrev pub onto :
    ReplyRecord
    → Result (List ReplyRecord × Option ReplyRecord)
    → Result (List ReplyRecord × Option ReplyRecord)
onto r (ok (rs, selected)) = ok (r ∷ rs, selected)
onto r (err e) = err e

abbrev pub onto_selected :
    ReplyRecord
    → Result (List ReplyRecord × Option ReplyRecord)
    → Result (List ReplyRecord × Option ReplyRecord)
onto_selected r (ok (rs, selected)) = ok (r ∷ rs, or_else selected (some r))
onto_selected r (err e) = err e

-- The `map` of `setStatus`: every record with the id is moved, and the last of them is selected.
unfoldable pub set_each :
    Text
    → ReplyStatus
    → Patch
    → Text
    → List ReplyRecord
    → Result (List ReplyRecord × Option ReplyRecord)
unfolding text_eq may_become patched illegal_transition
set_each record_id status patch updated_at [] = ok ([], none)
set_each record_id status patch updated_at (r ∷ rs) =
    let rest = set_each record_id status patch updated_at rs in
    if text_eq r.id record_id
    then (if may_become r.status status
        then onto_selected (patched status patch updated_at r) rest
        else err (illegal_transition r.status status))
    else onto r rest
