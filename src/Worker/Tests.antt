-- ===== src/Worker/Tests.antt =====
-- Runs of the engine at concrete inputs.
use lucky_tag.Common.{
  ℕ, zero, suc, ◌+◌, ◌≡◌, refl, sym, ap, Bool, true, false, Option, none, some, List, [], ◌∷◌, ◌++◌,
  All, length, arith, inl, inr, ◌⊎◌, ◌≤◌, max, count,
}
use lucky_tag.Contracts.{ReplyRecord, pending, sending, sent, ignored, DemoMessageMessage}
use lucky_tag.Worker.Effects.{Result, ok, err, World, Options, SendEvent}
use lucky_tag.Worker.Process.{process_record}
use lucky_tag.Worker.Run.{execute_run}
use lucky_tag.Worker.Sample.{
  options, group, mention, config, pending_record, world_of, host, host-IsHost, start_time,
}
use lucky_tag.Worker.Sends.Passes.{Allowed}
use lucky_tag.Worker.Fetch.{fetch_mentions, oldest_first}
use lucky_tag.Worker.Fetch.Pages.{fetch_mentions_bounded}
use lucky_tag.Worker.Process.Guards.{because}
use lucky_tag.Worker.Records.{Patch, patched}
use lucky_tag.Worker.Status.{is_terminal}
use lucky_tag.Worker.Status.Paths.{Moves, Moves-discipline}
use lucky_tag.Worker.Store.{set_status}
use lucky_tag.Worker.Trim.{
  trim_replies, is_protected, is_evictable, newest_first, terminal_reply_retention,
  reserves_hourly_reply_capacity,
}
use lucky_tag.Worker.Trim.Laws.{IsKept}
use lucky_tag.Worker.Trim.Retention.{trim_keeps, trim_bounds, trim_drops_oldest, count-trim_kept}
use mathlib.Core.List.{Memᴰ}
use lucky_tag.Common.Sort.{IsSorted}
use lucky_tag.Worker.Sends.Whole.{execute_run_sends-Allowed}

engine : Unit {0}
unfolding process_record lucky_tag.Common.Sort.sort lucky_tag.Common.Sort.insert
    lucky_tag.Common.filter lucky_tag.Common.find lucky_tag.Common.any lucky_tag.Text.distinct_from
    lucky_tag.Text.member lucky_tag.Text.join lucky_tag.Text.trim_start lucky_tag.Text.trim_end
    lucky_tag.Text.is_space lucky_tag.Retrieval.compose_unique lucky_tag.Retrieval.unique_from
    lucky_tag.Retrieval.fit lucky_tag.Retrieval.reply_lines lucky_tag.Retrieval.numbered_from
    lucky_tag.Retrieval.heading_rest lucky_tag.Worker.Process.lease_holds
    lucky_tag.Worker.Process.First.check_mention lucky_tag.Worker.Process.First.check_age
    lucky_tag.Worker.Process.First.first_original lucky_tag.Worker.Process.First.first_evidence
    lucky_tag.Worker.Process.First.first_reply lucky_tag.Worker.Process.First.latest_policy
    lucky_tag.Worker.Process.First.latest_reply lucky_tag.Worker.Process.Final.final_history
    lucky_tag.Worker.Process.Final.final_original lucky_tag.Worker.Process.Final.final_policy
    lucky_tag.Worker.Process.Final.final_evidence lucky_tag.Worker.Process.Final.final_quota
    lucky_tag.Worker.Process.Send.claim_and_send lucky_tag.Worker.Process.Send.try_send
    lucky_tag.Worker.Process.Send.guard_and_deliver lucky_tag.Worker.Process.Send.guard_evidence
    lucky_tag.Worker.Process.Send.deliver lucky_tag.Worker.Process.Send.after_send_error
    lucky_tag.Worker.Process.Send.finish lucky_tag.Worker.Process.Send.stop_without_retry
    lucky_tag.Worker.Process.Guards.attempt lucky_tag.Worker.Process.Guards.history_of
    lucky_tag.Worker.Process.Guards.iso_before lucky_tag.Worker.Process.Guards.find_message
    lucky_tag.Worker.Process.Guards.is_interrupted lucky_tag.Worker.Process.Guards.group_allowed
    lucky_tag.Worker.Store.set_status lucky_tag.Worker.Store.set_status_in
    lucky_tag.Worker.Store.not_found lucky_tag.Worker.Store.count_reserved_in_last_hour
    lucky_tag.Worker.Store.reserved_in lucky_tag.Worker.Records.set_each
    lucky_tag.Worker.Records.create_reply_record lucky_tag.Worker.Records.patched
    lucky_tag.Worker.Status.is_terminal lucky_tag.Worker.Status.may_become
    lucky_tag.Worker.Trim.trim_replies lucky_tag.Worker.Trim.reserves_hourly_reply_capacity
    lucky_tag.Worker.Effects.◌>>=◌ lucky_tag.Worker.Effects.catch lucky_tag.Worker.Effects.now
    lucky_tag.Worker.Effects.observe lucky_tag.Worker.Effects.ask
    lucky_tag.Worker.Effects.get_config lucky_tag.Worker.Effects.search_index
    lucky_tag.Worker.Effects.list_conversation_messages lucky_tag.Worker.Effects.send_message
    lucky_tag.Worker.Effects.read_state lucky_tag.Worker.Effects.update_state
    lucky_tag.Worker.Effects.notify lucky_tag.Text.text_eq lucky_tag.Text.trim
    lucky_tag.Retrieval.compose_knowledge_reply
engine = tt

-- A pending record leads to one message, and ends as sent.
pending_run :
    ((process_record options group pending_record mention config (world_of (pending_record ∷ []))).0
      ≡ ok (some sent))
    × (length
          (process_record options group pending_record mention config
            (world_of (pending_record ∷ []))).1.sends
        ≡ 1)
unfolding engine
pending_run = (refl, refl)

execute_run_sends-Allowed_example :
    (es : List SendEvent) × ((execute_run options (world_of [])).1.sends ≡ es ++ [])
    × All (Allowed options) es
execute_run_sends-Allowed_example = execute_run_sends-Allowed options (world_of [])

abbrev sent_record : ReplyRecord
sent_record = record pending_record { status = sent; id = 120 ∷ [] }

abbrev claim_patch : Patch
claim_patch = record (because []) { attempt_count = some 1; lease_expires_at = some (7 ∷ []) }

abbrev both : List ReplyRecord
both = sent_record ∷ pending_record ∷ []

abbrev claimed : Result ReplyRecord × World
claimed = set_status options pending_record.id sending claim_patch (world_of both)

abbrev claimed_record : ReplyRecord
claimed_record = patched sending claim_patch ((start_time + 1) ∷ []) pending_record

trim_keeps_example :
    (Memᴰ sent_record both
      → IsKept host start_time sent_record
      → Memᴰ sent_record (trim_replies host both start_time))
    × (Memᴰ sent_record (trim_replies host both start_time) → Memᴰ sent_record both)
trim_keeps_example = trim_keeps host start_time both sent_record

trim_bounds_example :
    count (λ r. is_terminal r.status) (trim_replies host both start_time)
    ≤ max terminal_reply_retention (count (is_protected host start_time) both)
trim_bounds_example = trim_bounds host start_time both

abbrev old_record : ReplyRecord
old_record = record sent_record { status = ignored }

trim_drops_oldest_example :
    Memᴰ old_record (trim_replies host (old_record ∷ both) start_time)
    ⊎ (((r' : ReplyRecord)
          → Memᴰ r' (trim_replies host (old_record ∷ both) start_time)
          → is_evictable host start_time r' ≡ true
          → newest_first host r' old_record ≡ true)
        × (terminal_reply_retention
            ≤ count (λ q. is_terminal q.status) (trim_replies host (old_record ∷ both) start_time)))
unfolding engine
trim_drops_oldest_example =
    trim_drops_oldest host host-IsHost start_time (old_record ∷ both) old_record (Memᴰ.head refl)
      refl

count-trim_kept_example :
    count (reserves_hourly_reply_capacity host start_time) (trim_replies host both start_time)
    ≡ count (reserves_hourly_reply_capacity host start_time) both
count-trim_kept_example =
    count-trim_kept host start_time (reserves_hourly_reply_capacity host start_time) (λ r e. inr e)
      both

Moves-discipline_example :
    (is_terminal pending ≡ true → pending ≡ sent)
    × (sent ≡ sent → (pending ≡ sent) ⊎ Moves pending sending)
unfolding engine
Moves-discipline_example =
    Moves-discipline
      (Moves.move {s = pending} {t = sending} refl (Moves.move {t = sent} refl (Moves.stay sent)))

abbrev fetched : Result (List DemoMessageMessage) × World
fetched = fetch_mentions options group.id [] [] (world_of [])

fetch_mentions_bounded_example :
    (fetched.1.tick ≤ 10)
    × (fetched.1.state ≡ (world_of []).state)
    × (fetched.1.sends ≡ [])
    × ((ms : List DemoMessageMessage) → fetched.0 ≡ ok ms → IsSorted (oldest_first host) ms)
fetch_mentions_bounded_example =
    fetch_mentions_bounded options group.id [] [] host-IsHost (world_of []) fetched.1 fetched.0 refl
