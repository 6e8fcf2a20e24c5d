-- ===== src/Worker/Sends/Silent.antt =====
-- worker.ts: what a run does outside `processRecord`; none of it sends.
use lucky_tag.Common.{ℕ, zero, suc, ◌≡◌, refl, Bool, true, false, Option, none, some, List, [], ◌∷◌}
use lucky_tag.Contracts.{
  AppConfig, AllowlistedGroup, ReplyRecord, DemoMessageMessage, DemoMessageMentionPage,
  CoreStateFile,
}
use lucky_tag.Text.{Text, text_eq, member}
use lucky_tag.Worker.Effects.{
  Result, ok, World, Counters, Options, pure, list_mentions, list_conversation_messages,
  ConversationInput,
}
use lucky_tag.Worker.Effects.Rules.{Keeps, pure-Keeps, bind-Keeps, if-Keeps, ask-Keeps, catch-Keeps}
use lucky_tag.Worker.Fetch.{fetch_pages, fetch_mentions, page_input, next_page, set_messages}
use lucky_tag.Worker.Lifecycle.{
  initialize, initialize_once, resume, start_initialized, start_scheduler, schedule, read_runtime,
  set_timer, set_initialized, spawn_run, timer_set, is_initialized,
}
use lucky_tag.Worker.Run.{
  begin_counting, read_counters, set_allowlisted_groups, finish_run, next_run,
}
use lucky_tag.Worker.Run.Passes.{bump, add_note, count_outcome, count_outcomes}
use lucky_tag.Worker.Sends.Quiet.{
  Quiet, Quiet-IsOrder, now-Quiet, get_config-Quiet, quiet_steps, quiet_rules,
}
use lucky_tag.Worker.Store.{
  ensure_pending_record, known_or_new, closed, close_each, close_in, close_follow_up_window,
  add_ignored, mark_initial_in, mark_initial_messages_ignored, mark_group_initialized, is_running,
  RuntimeInput, update_runtime,
}
use lucky_tag.Contracts.{ReplyStatus}

pub bump-Quiet : (f : Counters → Counters) → Keeps Quiet (bump f)
unfolding bump
bump-Quiet f = record { run = λ w. refl }

pub add_note-Quiet : (note : Text) → Keeps Quiet (add_note note)
unfolding add_note
add_note-Quiet note = record { run = λ w. refl }

pub begin_counting-Quiet : Keeps Quiet begin_counting
unfolding begin_counting
begin_counting-Quiet = record { run = λ w. refl }

pub set_allowlisted-Quiet : (ids : List Text) → Keeps Quiet (set_allowlisted_groups ids)
unfolding set_allowlisted_groups
set_allowlisted-Quiet ids = record { run = λ w. refl }

read_counters-Quiet : Keeps Quiet read_counters
unfolding read_counters
read_counters-Quiet = record { run = λ w. refl }

pub count_outcome-Quiet : (outcome : Option ReplyStatus) → Keeps Quiet (count_outcome outcome)
unfolding count_outcome
count_outcome-Quiet outcome = bump-Quiet _

pub count_outcomes-Quiet :
    (outcomes : List (Option ReplyStatus)) → Keeps Quiet (count_outcomes outcomes)
unfolding count_outcomes
count_outcomes-Quiet [] = search quiet_rules
count_outcomes-Quiet (r ∷ rs) =
    bind-Keeps Quiet-IsOrder (count_outcome-Quiet r) (λ u. count_outcomes-Quiet rs)

module _ (o : Options) where
  known_or_new-Quiet :
      (m : DemoMessageMessage) (group : AllowlistedGroup) (s : CoreStateFile)
      (known : Option ReplyRecord)
      → Keeps Quiet (known_or_new o m group s known)
  known_or_new-Quiet m group s none = search quiet_rules
  known_or_new-Quiet m group s (some r) = search quiet_rules

  pub ensure_pending_record-Quiet :
      (m : DemoMessageMessage) (group : AllowlistedGroup)
      → Keeps Quiet (ensure_pending_record o m group)
  unfolding ensure_pending_record
  ensure_pending_record-Quiet m group = search (quiet_rules, known_or_new-Quiet)

  close_each-Quiet :
      (id reason : Text) (rs : List ReplyRecord) → Keeps Quiet (close_each o id reason rs)
  unfolding close_each
  close_each-Quiet id reason [] = search quiet_rules
  close_each-Quiet id reason (r ∷ rs) =
      bind-Keeps Quiet-IsOrder
        (if-Keeps Quiet-IsOrder (text_eq r.id id) {m = closed o reason r} {k = pure r}
          (search quiet_rules) (search quiet_rules))
        (λ r'. bind-Keeps Quiet-IsOrder (close_each-Quiet id reason rs) (λ rs'. search quiet_rules))

  pub close_follow_up_window-Quiet :
      (id reason : Text) → Keeps Quiet (close_follow_up_window o id reason)
  unfolding close_follow_up_window close_in
  close_follow_up_window-Quiet id reason = search (quiet_rules, close_each-Quiet) depth 12

  add_ignored-Quiet :
      (group : AllowlistedGroup) (ms : List DemoMessageMessage) (known : List Text)
      (rs : List ReplyRecord) (n : ℕ)
      → Keeps Quiet (add_ignored o group known rs n ms)
  unfolding add_ignored
  add_ignored-Quiet group [] known rs n = search quiet_rules
  add_ignored-Quiet group (m ∷ ms) known rs n =
      if-Keeps Quiet-IsOrder _ (add_ignored-Quiet group ms known rs n) (
        bind-Keeps Quiet-IsOrder (now-Quiet o) (λ created.
          bind-Keeps Quiet-IsOrder (now-Quiet o) (λ updated. add_ignored-Quiet group ms _ _ _)))

  pub mark_initial-Quiet :
      (ms : List DemoMessageMessage) (group : AllowlistedGroup)
      → Keeps Quiet (mark_initial_messages_ignored o ms group)
  unfolding mark_initial_messages_ignored mark_initial_in
  mark_initial-Quiet ms group = search (quiet_rules, add_ignored-Quiet) depth 12

  pub mark_group_initialized-Quiet : (id : Text) → Keeps Quiet (mark_group_initialized o id)
  unfolding mark_group_initialized
  mark_group_initialized-Quiet id = search quiet_rules

  pub is_running-Quiet : Keeps Quiet (is_running o)
  unfolding is_running
  is_running-Quiet = search quiet_rules

  pub update_runtime-Quiet : (input : RuntimeInput) → Keeps Quiet (update_runtime o input)
  unfolding update_runtime
  update_runtime-Quiet input = search quiet_rules

  fetch_pages-Quiet :
      (group_id start finish : Text) (pages : ℕ) (visited : List Text) (cursor : Text)
      (ms : List DemoMessageMessage)
      → Keeps Quiet (fetch_pages o group_id start finish pages visited cursor ms)
  unfolding fetch_pages list_mentions
  fetch_pages-Quiet group_id start finish zero visited cursor ms = search quiet_rules
  fetch_pages-Quiet group_id start finish (suc pages) visited cursor ms =
      if-Keeps Quiet-IsOrder (member cursor visited) (pure-Keeps Quiet-IsOrder ms) (
        bind-Keeps Quiet-IsOrder
          (ask-Keeps Quiet-IsOrder
            (λ k. o.list_mentions k (page_input o group_id start finish cursor)))
          (λ page. further page (next_page page) (λ t.
            fetch_pages-Quiet group_id start finish pages (cursor ∷ visited) t
              (set_messages page.messages ms))))
    where
      further :
          (page : DemoMessageMentionPage) (next : Option Text)
          → ((t : Text)
              → Keeps Quiet (
                  fetch_pages o group_id start finish pages
                    (cursor ∷ visited)
                    t
                    (set_messages page.messages ms)))
          → Keeps {0} Quiet (elim next [
            | none ↦ pure (set_messages page.messages ms)
            | some t ↦
                fetch_pages o group_id start finish pages
                  (cursor ∷ visited)
                  t
                  (set_messages page.messages ms)
          ])
      further page none h = search quiet_rules
      further page (some t) h = h t

  pub fetch_mentions-Quiet :
      (group_id start finish : Text) → Keeps Quiet (fetch_mentions o group_id start finish)
  unfolding fetch_mentions
  fetch_mentions-Quiet group_id start finish = search (quiet_rules, fetch_pages-Quiet)

  pub list_conversation-Quiet :
      (input : ConversationInput) → Keeps Quiet (list_conversation_messages o input)
  unfolding list_conversation_messages
  list_conversation-Quiet input = ask-Keeps Quiet-IsOrder _

  set_timer-Quiet : (timer : Option ℕ) → Keeps Quiet (set_timer timer)
  unfolding set_timer
  set_timer-Quiet timer = record { run = λ w. refl }

  spawn_run-Quiet : Keeps Quiet spawn_run
  unfolding spawn_run
  spawn_run-Quiet = record { run = λ w. refl }

  read_runtime-Quiet : Keeps Quiet (read_runtime o)
  unfolding read_runtime
  read_runtime-Quiet = search quiet_rules

  schedule-Quiet :
      (config : AppConfig) (processing : Bool) → Keeps Quiet (schedule o config processing)
  unfolding schedule
  schedule-Quiet config processing = search (quiet_rules, update_runtime-Quiet)

  start_scheduler-Quiet : (config : AppConfig) → Keeps Quiet (start_scheduler o config)
  unfolding start_scheduler
  start_scheduler-Quiet config =
      search (quiet_rules, schedule-Quiet, set_timer-Quiet, spawn_run-Quiet, read_runtime-Quiet)
        depth 12

  start_initialized-Quiet : Keeps Quiet (start_initialized o)
  unfolding start_initialized timer_set
  start_initialized-Quiet =
      bind-Keeps Quiet-IsOrder (record { run = λ w. quiet_timer w w.timer })
        (λ ticking.
          search (quiet_rules, get_config-Quiet, start_scheduler-Quiet, read_runtime-Quiet) depth
            12)
    where
      quiet_timer :
          (w : World) (t : Option ℕ)
          → (elim t as (λ t'. Result Bool × World) [
            | none ↦ (ok false, w)
            | some interval ↦ (ok true, w)
          ]).1.sends
            ≡ w.sends
      quiet_timer w none = refl
      quiet_timer w (some t) = refl

  resume-Quiet : (running : Bool) → Keeps Quiet (resume o running)
  unfolding resume
  resume-Quiet true =
      search (quiet_rules, catch-Keeps, start_initialized-Quiet, update_runtime-Quiet) depth 12
  resume-Quiet false = search quiet_rules

  pub initialize-Quiet : Keeps Quiet (initialize o)
  unfolding initialize initialize_once is_initialized set_initialized
  initialize-Quiet =
      bind-Keeps Quiet-IsOrder (record { run = λ w. refl })
        (λ ready. if-Keeps Quiet-IsOrder ready (search quiet_rules) (
          bind-Keeps Quiet-IsOrder (search quiet_rules) (λ running.
            bind-Keeps Quiet-IsOrder (record { run = λ w. refl })
              (λ set. search (quiet_rules, resume-Quiet)))))

  next_run-Quiet : (running : Bool) (interval : ℕ) → Keeps Quiet (next_run o running interval)
  next_run-Quiet true interval = search quiet_rules
  next_run-Quiet false interval = search quiet_rules

  pub finish_run-Quiet :
      (finished : ℕ) (started_at : Text) → Keeps Quiet (finish_run o finished started_at)
  unfolding finish_run
  finish_run-Quiet finished started_at =
      search
        (quiet_steps, is_running-Quiet, next_run-Quiet, read_counters-Quiet, update_runtime-Quiet)
        depth 16
