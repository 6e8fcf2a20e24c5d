-- ===== src/Worker/Process.antt =====
-- worker.ts: `processRecord`; its stages are in the children.
pub mod Guards
pub mod Send
pub mod Final
pub mod First
use lucky_tag.Common.{
  ℕ, zero, suc, ◌+◌, ◌-◌, ◌*◌, Bool, true, false, not, ◌&&◌, ◌||◌, Option, none, some, List, [],
  ◌∷◌, ◌++◌, head?, find, any, ltb, leb, if◌then◌else◌,
}
use lucky_tag.Contracts.{
  ReplyStatus, sending, sent, ignored, needs_manual, recalled, dry_run, failed, ReplyRecord,
  ReplyEvidence, ReplyPolicy, AppConfig, AllowlistedGroup, DemoMessageMessage,
  DemoMessageSendResult,
}
use lucky_tag.Host.{Host, epoch}
use lucky_tag.Retrieval.{compose_knowledge_reply}
use lucky_tag.Text.{Text, lit, text_eq, trim, truthy, decimal, is_empty}
use lucky_tag.Worker.Effects.{
  Result, ok, err, M, Options, SendInput, pure, throw, ◌>>=◌, ◌>>◌, catch, observe, of_result, now,
  get_config, search_index, list_conversation_messages, send_message,
}
use lucky_tag.Worker.Records.{Patch}
use lucky_tag.Worker.Status.{is_terminal, status_eq}
use lucky_tag.Worker.Store.{set_status, count_reserved_in_last_hour}
use lucky_tag.Worker.Process.Guards.{
  group_allowed, best_score, too_weak, later_than, because, with_evidence, with_reply, iso_before,
  Verdict, stop, done, history_of, is_interrupted, find_message, uncertain_reason, score_reason,
  attempt,
}
use lucky_tag.Worker.Process.Send.{finish, stop_without_retry, stop_now, claim_and_send}
use lucky_tag.Worker.Process.Final.{final_history}
use lucky_tag.Worker.Process.First.{check_mention}

module _ (o : Options) (group : AllowlistedGroup) where
  -- The instant to which a claimed record is leased; without a lease the epoch, `none` for NaN.
  abbrev pub lease_end : ReplyRecord → Option ℕ
  lease_end rec = elim (truthy rec.lease_expires_at) [
    | none ↦ some epoch
    | some text ↦ o.host.parse_date text
  ]

  abbrev pub is_leased : Option ℕ → ℕ → Bool
  is_leased none at = false
  is_leased (some t) at = ltb at t

  -- `record.status === 'sending'` is tested before the clock is read.
  unfoldable pub lease_holds : ReplyRecord → M Bool
  lease_holds rec =
      if status_eq rec.status sending
      then (do at ← now o; pure (is_leased (lease_end rec) at))
      else pure false

  abbrev pub had_uncertain_send : ReplyRecord → Bool
  had_uncertain_send rec = status_eq rec.status sending && ltb 0 rec.attempt_count

  abbrev pub unless_leased :
      ReplyRecord → DemoMessageMessage → AppConfig → Bool → M (Option ReplyStatus)
  unless_leased rec mention config true = pure none
  unless_leased rec mention config false = do
    outcome ← check_mention o group rec (had_uncertain_send rec) mention config
    pure (some outcome)

  unfoldable pub process_record :
      ReplyRecord → DemoMessageMessage → AppConfig → M (Option ReplyStatus)
  process_record rec mention config =
      if is_terminal rec.status
      then pure none
      else do leased ← lease_holds rec; unless_leased rec mention config leased
