-- ===== src/Worker/Sends/Quiet.antt =====
-- Everything but the delivery itself sends nothing.
use lucky_tag.Common.{ℕ, ◌≡◌, refl, ◌∙◌, Bool, Option, none, some}
use lucky_tag.Contracts.{
  ReplyStatus, ReplyRecord, CoreStateFile, AllowlistedGroup, DemoMessageMessage,
}
use lucky_tag.Text.{Text}
use lucky_tag.Worker.Effects.{
  Result, ok, err, World, M, Options, update_state, commit, now, read_state, get_config,
  search_index, list_conversation_messages,
}
use lucky_tag.Worker.Effects.Rules.{
  IsOrder, Keeps, pure-Keeps, throw-Keeps, of_result-Keeps, bind-Keeps, catch-Keeps, if-Keeps,
  when-Keeps, ask-Keeps, observe-Keeps, notify-Keeps, read_state-Keeps, update_state-Keeps,
}
use lucky_tag.Worker.Process.Guards.{attempt, history_of}
use lucky_tag.Worker.Process.Send.{finish, stop_without_retry, hand_over, after_send_error}
use lucky_tag.Worker.Records.{Patch}
use lucky_tag.Worker.Store.{set_status_in, set_status, required, count_reserved_in_last_hour}

abbrev pub Quiet : World → World → Type 0
Quiet u v = v.sends ≡ u.sends

pub Quiet-IsOrder : IsOrder Quiet
Quiet-IsOrder = record {
  same = λ w. refl;
  chain = λ p q. q ∙ p;
  ticks = λ w k. refl;
  updates = λ w k. refl;
}

commit_quiet {ℓ} :
    {A : Type ℓ} (o : Options) (r : Result (CoreStateFile × A)) (w : World)
    → (commit o r w).1.sends ≡ w.sends
commit_quiet o (ok (s, a)) w = refl
commit_quiet o (err e) w = refl

module _ (o : Options) where
  pub update-Quiet {ℓ} :
      {A : Type ℓ} (f : CoreStateFile → M (CoreStateFile × A))
      → ((s : CoreStateFile) → Keeps Quiet (f s))
      → Keeps Quiet (update_state o f)
  update-Quiet f h =
      update_state-Keeps Quiet-IsOrder o (λ w. refl) f
        (λ w. commit_quiet o (f w.state w).0 (f w.state w).1 ∙ (h w.state).run w)

  pub now-Quiet : Keeps Quiet (now o)
  unfolding now
  now-Quiet = observe-Keeps Quiet-IsOrder o.now

  pub read_state-Quiet : Keeps Quiet (read_state o)
  read_state-Quiet = read_state-Keeps Quiet-IsOrder o (λ w. refl)

  pub required-Quiet {ℓ} : {A : Type ℓ} (e : Text) (a : Option A) → Keeps Quiet (required e a)
  required-Quiet e none = throw-Keeps Quiet-IsOrder e
  required-Quiet e (some a) = pure-Keeps Quiet-IsOrder a

pub ruleset quiet_rules = (
  Quiet-IsOrder, pure-Keeps, throw-Keeps, of_result-Keeps, bind-Keeps, notify-Keeps,
  read_state-Quiet, when-Keeps, now-Quiet, required-Quiet, update-Quiet, if-Keeps,
)

module _ (o : Options) where
  set_status_in-Quiet :
      (id : Text) (status : ReplyStatus) (patch : Patch) (s : CoreStateFile)
      → Keeps Quiet (set_status_in o id status patch s)
  unfolding set_status_in
  set_status_in-Quiet id status patch s = search (quiet_rules) depth 12

  pub set_status-Quiet :
      (id : Text) (status : ReplyStatus) (patch : Patch)
      → Keeps Quiet (set_status o id status patch)
  unfolding set_status
  set_status-Quiet id status patch = search (quiet_rules, set_status_in-Quiet)

  pub count_reserved-Quiet : (id : Text) → Keeps Quiet (count_reserved_in_last_hour o id)
  unfolding count_reserved_in_last_hour
  count_reserved-Quiet id = search quiet_rules

  pub get_config-Quiet : Keeps Quiet (get_config o)
  unfolding get_config
  get_config-Quiet = ask-Keeps Quiet-IsOrder o.get_config

  pub search_index-Quiet : (q : Text) (n : ℕ) → Keeps Quiet (search_index o q n)
  unfolding search_index
  search_index-Quiet q n = observe-Keeps Quiet-IsOrder (λ k. o.search k q n)

  pub history_of-Quiet :
      (group : AllowlistedGroup) (mention : DemoMessageMessage)
      → Keeps Quiet (history_of o group mention)
  unfolding history_of list_conversation_messages
  history_of-Quiet group mention =
      bind-Keeps Quiet-IsOrder (of_result-Keeps Quiet-IsOrder _)
        (λ time. ask-Keeps Quiet-IsOrder (λ k. o.list_conversation_messages k _))

  pub finish-Quiet :
      (id : Text) (status : ReplyStatus) (patch : Patch) → Keeps Quiet (finish o id status patch)
  unfolding finish
  finish-Quiet id status patch = search (quiet_rules, set_status-Quiet)

  pub stop_without_retry-Quiet :
      (id : Text) (uncertain : Bool) (fallback : ReplyStatus) (reason : Text) (patch : Patch)
      → Keeps Quiet (stop_without_retry o id uncertain fallback reason patch)
  unfolding stop_without_retry
  stop_without_retry-Quiet id uncertain fallback reason patch = search (quiet_rules, finish-Quiet)

  pub hand_over-Quiet : (id : Text) (patch : Patch) → Keeps Quiet (hand_over o id patch)
  hand_over-Quiet id patch = search (quiet_rules, set_status-Quiet)

  pub after_send_error-Quiet :
      (rec : ReplyRecord) (lease message : Text)
      → Keeps Quiet (after_send_error o rec lease message)
  unfolding after_send_error
  after_send_error-Quiet rec lease message = search (quiet_rules, set_status-Quiet)

pub attempt-Keeps {ℓ} :
    {R : World → World → Type 0} {A : Type ℓ} {m : M A} → Keeps R m → Keeps R (attempt m)
unfolding attempt
attempt-Keeps h = record { run = λ w. h.run w }

pub ruleset quiet_steps = (
  quiet_rules, set_status-Quiet, count_reserved-Quiet, get_config-Quiet, search_index-Quiet,
  history_of-Quiet, finish-Quiet, stop_without_retry-Quiet, hand_over-Quiet, after_send_error-Quiet,
  attempt-Keeps,
)
