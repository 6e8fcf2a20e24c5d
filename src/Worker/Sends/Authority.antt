-- ===== src/Worker/Sends/Authority.antt =====
-- What allows `processRecord` to send.
use lucky_tag.Common.{◌≡◌, refl, Bool, true, false, none}
use lucky_tag.Contracts.{AppConfig, AllowlistedGroup, ReplyRecord, DemoMessageMessage, sending}
use lucky_tag.Worker.Effects.{ok, World, Options, ◌>>=◌, observe, now}
use lucky_tag.Worker.Effects.Rules.{Keeps, pure-Keeps, bind-Keeps, if-Keeps}
use lucky_tag.Worker.Process.{
  lease_end, is_leased, lease_holds, unless_leased, had_uncertain_send, process_record,
}
use lucky_tag.Worker.Sends.Authorised.{IsAuthorised}
use lucky_tag.Worker.Sends.Gate.{Sends, Quiet-Sends, bind-Sends, then-Sends, if-Sends}
use lucky_tag.Worker.Sends.Quiet.{Quiet, Quiet-IsOrder, now-Quiet}
use lucky_tag.Worker.Sends.Stages.{check_mention-Sends}
use lucky_tag.Worker.Status.{is_terminal, status_eq}

module _ (o : Options) (group : AllowlistedGroup) where
  lease_holds-Quiet : (rec : ReplyRecord) → Keeps Quiet (lease_holds o group rec)
  unfolding lease_holds
  lease_holds-Quiet rec =
      if-Keeps Quiet-IsOrder (status_eq rec.status sending)
        (bind-Keeps Quiet-IsOrder (now-Quiet o) (λ at. pure-Keeps Quiet-IsOrder _))
        (pure-Keeps Quiet-IsOrder _)

  unless_leased-Sends :
      (rec : ReplyRecord) (mention : DemoMessageMessage) (config : AppConfig) (leased : Bool)
      (w : World)
      → Sends (IsAuthorised o group rec) (unless_leased o group rec mention config leased) w
  unless_leased-Sends rec mention config true w =
      Quiet-Sends (IsAuthorised o group rec) w (pure-Keeps Quiet-IsOrder _)
  unless_leased-Sends rec mention config false w =
      then-Sends (IsAuthorised o group rec) w
        (check_mention-Sends o group rec (had_uncertain_send o group rec) mention config w)
        (λ outcome. pure-Keeps Quiet-IsOrder _)

  pub process_record-Sends :
      (rec : ReplyRecord) (mention : DemoMessageMessage) (config : AppConfig) (w : World)
      → Sends (IsAuthorised o group rec) (process_record o group rec mention config) w
  unfolding process_record
  process_record-Sends rec mention config w =
      if-Sends (IsAuthorised o group rec) (is_terminal rec.status) w
        (λ over. Quiet-Sends (IsAuthorised o group rec) w (pure-Keeps Quiet-IsOrder _))
        (λ unfinished.
          bind-Sends (IsAuthorised o group rec) w (lease_holds-Quiet rec)
            λ leased v e. unless_leased-Sends rec mention config leased v)

-- A record in a terminal status is left alone: nothing is read, stored or sent.
pub process_record-terminal :
    (o : Options) (group : AllowlistedGroup) (rec : ReplyRecord) (mention : DemoMessageMessage)
    (config : AppConfig) (w : World)
    → is_terminal rec.status ≡ true
    → process_record o group rec mention config w ≡ (ok none, w)
unfolding process_record
process_record-terminal o group rec mention config w h = rw h refl

-- A record in `sending` whose lease has not ended is left alone too: only the clock is read.
pub process_record-leased :
    (o : Options) (group : AllowlistedGroup) (rec : ReplyRecord) (mention : DemoMessageMessage)
    (config : AppConfig) (w : World)
    → rec.status ≡ sending
    → is_leased o group (lease_end o group rec) (o.now w.tick) ≡ true
    → process_record o group rec mention config w ≡ (ok none, (now o w).1)
unfolding process_record is_terminal lease_holds now observe ◌>>=◌
process_record-leased o group rec mention config w s h = rw (s, h) refl
