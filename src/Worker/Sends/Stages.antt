-- ===== src/Worker/Sends/Stages.antt =====
-- The stages of `processRecord` in front of the claim: each sends nothing by itself.
use lucky_tag.Common.{Bool, Option, none, some, List, ltb}
use lucky_tag.Contracts.{
  AppConfig, AllowlistedGroup, ReplyRecord, ReplyEvidence, DemoMessageMessage,
}
use lucky_tag.Retrieval.{compose_knowledge_reply}
use lucky_tag.Text.{Text, trim, is_empty}
use lucky_tag.Worker.Effects.{Result, ok, err, World, Options}
use lucky_tag.Worker.Process.First.{
  latest_reply, latest_policy, first_reply, first_evidence, first_original, first_look, is_too_old,
  check_age, check_mention,
}
use lucky_tag.Worker.Process.Guards.{too_weak, best_score, is_interrupted, is_withdrawn}
use lucky_tag.Worker.Sends.Authorised.{IsAuthorised}
use lucky_tag.Worker.Sends.Gate.{Sends, Quiet-Sends, bind-Sends, if-Sends}
use lucky_tag.Worker.Sends.Quiet.{
  finish-Quiet, stop_without_retry-Quiet, now-Quiet, search_index-Quiet, get_config-Quiet,
  history_of-Quiet, attempt-Keeps,
}
use lucky_tag.Worker.Sends.Final.{final_history-Sends}

module _ (o : Options) (group : AllowlistedGroup) (rec : ReplyRecord) (uncertain : Bool) where
  latest_policy-Sends :
      (mention : DemoMessageMessage) (question reply : Text) (evidence : List ReplyEvidence)
      (config : AppConfig) (w : World)
      → Sends
          (IsAuthorised o group rec)
          (latest_policy o group rec uncertain mention question reply evidence config)
          w
  unfolding latest_policy latest_reply
  latest_policy-Sends mention question reply evidence config w =
      if-Sends (IsAuthorised o group rec) (is_withdrawn config group) w
        (λ off. Quiet-Sends (IsAuthorised o group rec) w (stop_without_retry-Quiet o _ _ _ _ _))
        (λ on.
          if-Sends (IsAuthorised o group rec)
            (ltb (best_score evidence) config.reply_policy.confidence_threshold) w
            (λ weak. Quiet-Sends (IsAuthorised o group rec) w (finish-Quiet o _ _ _))
            (λ strong.
              if-Sends (IsAuthorised o group rec)
                (is_empty (compose_knowledge_reply evidence config.reply_policy.max_reply_length)) w
                (λ blank. Quiet-Sends (IsAuthorised o group rec) w (finish-Quiet o _ _ _))
                (λ full.
                  if-Sends (IsAuthorised o group rec) config.reply_policy.dry_run w
                    (λ dry.
                      Quiet-Sends (IsAuthorised o group rec) w
                        (stop_without_retry-Quiet o _ _ _ _ _))
                    (λ live.
                      final_history-Sends o group rec uncertain mention question _ evidence w))))

  first_evidence-Sends :
      (mention : DemoMessageMessage) (config : AppConfig) (question : Text)
      (evidence : List ReplyEvidence) (w : World)
      → Sends
          (IsAuthorised o group rec)
          (first_evidence o group rec uncertain mention config question evidence)
          w
  unfolding first_evidence first_reply
  first_evidence-Sends mention config question evidence w =
      if-Sends (IsAuthorised o group rec)
        (too_weak evidence config.reply_policy.confidence_threshold) w
        (λ weak. Quiet-Sends (IsAuthorised o group rec) w (finish-Quiet o _ _ _))
        (λ strong.
          if-Sends (IsAuthorised o group rec)
            (is_empty (compose_knowledge_reply evidence config.reply_policy.max_reply_length)) w
            (λ blank. Quiet-Sends (IsAuthorised o group rec) w (finish-Quiet o _ _ _))
            (λ full.
              if-Sends (IsAuthorised o group rec) config.reply_policy.dry_run w
                (λ dry.
                  Quiet-Sends (IsAuthorised o group rec) w (stop_without_retry-Quiet o _ _ _ _ _))
                (λ live.
                  bind-Sends (IsAuthorised o group rec) w (get_config-Quiet o)
                    λ latest v e. latest_policy-Sends mention question _ evidence latest v)))

  first_original-Sends :
      (mention : DemoMessageMessage) (config : AppConfig) (history : List DemoMessageMessage)
      (original : Option DemoMessageMessage) (w : World)
      → Sends
          (IsAuthorised o group rec)
          (first_original o group rec uncertain mention config history original)
          w
  unfolding first_original
  first_original-Sends mention config history none w =
      Quiet-Sends (IsAuthorised o group rec) w (stop_without_retry-Quiet o _ _ _ _ _)
  first_original-Sends mention config history (some original) w =
      if-Sends (IsAuthorised o group rec) original.recalled w
        (λ gone. Quiet-Sends (IsAuthorised o group rec) w (stop_without_retry-Quiet o _ _ _ _ _))
        (λ there.
          if-Sends (IsAuthorised o group rec) original.is_self w
            (λ own. Quiet-Sends (IsAuthorised o group rec) w (stop_without_retry-Quiet o _ _ _ _ _))
            (λ other.
              if-Sends (IsAuthorised o group rec) (is_interrupted o.host original history) w
                (λ spoken. Quiet-Sends (IsAuthorised o group rec) w (finish-Quiet o _ _ _))
                (λ quiet.
                  bind-Sends (IsAuthorised o group rec) w (search_index-Quiet o _ 5)
                    λ evidence v e. first_evidence-Sends mention config _ evidence v)))

  pub check_mention-Sends :
      (mention : DemoMessageMessage) (config : AppConfig) (w : World)
      → Sends (IsAuthorised o group rec) (check_mention o group rec uncertain mention config) w
  unfolding check_mention check_age
  check_mention-Sends mention config w =
      if-Sends (IsAuthorised o group rec) mention.recalled w
        (λ gone. Quiet-Sends (IsAuthorised o group rec) w (stop_without_retry-Quiet o _ _ _ _ _))
        (λ there.
          if-Sends (IsAuthorised o group rec) mention.is_self w
            (λ own. Quiet-Sends (IsAuthorised o group rec) w (stop_without_retry-Quiet o _ _ _ _ _))
            (λ other.
              if-Sends (IsAuthorised o group rec) (is_empty (trim mention.text)) w
                (λ blank. Quiet-Sends (IsAuthorised o group rec) w (finish-Quiet o _ _ _))
                (λ full. bind-Sends (IsAuthorised o group rec) w (now-Quiet o) λ at v e.
                  if-Sends (IsAuthorised o group rec)
                    (is_too_old o group at (o.host.parse_date mention.created_at) config) v
                    (λ old.
                      Quiet-Sends (IsAuthorised o group rec) v
                        (stop_without_retry-Quiet o _ _ _ _ _))
                    (λ young.
                      bind-Sends (IsAuthorised o group rec) v
                        (attempt-Keeps (history_of-Quiet o group mention))
                        λ looked u e'. look looked u))))
    where
      look :
          (looked : Result (List DemoMessageMessage)) (u : World)
          → Sends
              (IsAuthorised o group rec)
              (first_look o group rec uncertain mention config looked)
              u
      look (ok history) u = first_original-Sends mention config history _ u
      look (err message) u = Quiet-Sends (IsAuthorised o group rec) u (finish-Quiet o _ _ _)
