-- ===== src/Worker/Sends/Final.antt =====
-- The last stages of `processRecord` in front of the claim: each sends nothing by itself.
use lucky_tag.Common.{leb, ℕ, suc, ◌∙◌, ◌≡◌, sym, ap, Bool, false, Option, none, some, List, arith}
use lucky_tag.Contracts.{
  AppConfig, AllowlistedGroup, ReplyRecord, ReplyEvidence, CoreStateFile, DemoMessageMessage,
}
use lucky_tag.Retrieval.{compose_knowledge_reply}
use lucky_tag.Text.{Text}
use lucky_tag.Worker.Effects.{
  Result, ok, err, World, Options, read_state, read_reached, reached, observe, ask, get_config,
  search_index, now,
}
use lucky_tag.Worker.Effects.Inversion.{>>=-eq-ok}
use lucky_tag.Worker.Process.Final.{
  final_quota, final_evidence, final_policy, final_original, final_look, final_history,
  within_quota,
}
use lucky_tag.Worker.Process.Guards.{too_weak, is_interrupted, is_withdrawn}
use lucky_tag.Worker.Sends.Authorised.{IsAuthorised}
use lucky_tag.Worker.Sends.Delivery.{now-eq-ok, claim_and_send-Sends}
use lucky_tag.Worker.Sends.Gate.{Sends, Quiet-Sends, bind-Sends, if-Sends}
use lucky_tag.Worker.Sends.Quiet.{
  finish-Quiet, stop_without_retry-Quiet, count_reserved-Quiet, search_index-Quiet,
  get_config-Quiet, history_of-Quiet, attempt-Keeps,
}
use lucky_tag.Worker.Store.{count_reserved_in_last_hour, reserved_in}

read_state-eq-ok :
    (o : Options) (w : World) {s : CoreStateFile} {v : World}
    → read_state o w ≡ (ok s, v)
    → (s ≡ v.state) × (v.tick ≡ suc w.tick)
unfolding read_state
read_state-eq-ok o w e = by_fault (o.store_fault w.tick) e
  where
    by_fault :
        (fault : Option Text) {s : CoreStateFile} {v : World}
        → read_reached o fault (reached o w) ≡ (ok s, v)
        → (s ≡ v.state) × (v.tick ≡ suc w.tick)
    by_fault none e = (cc, ap (λ t. t.1.tick) (sym e))
    by_fault (some m) e = absurd (cc e)

count_reserved-eq-ok :
    (o : Options) (id : Text) (w : World) {n : ℕ} {v : World}
    → count_reserved_in_last_hour o id w ≡ (ok n, v)
    → (n ≡ reserved_in o (o.now w.tick) id v.state) × (v.tick ≡ suc (suc w.tick))
unfolding count_reserved_in_last_hour
count_reserved-eq-ok o id w {n} {v} e =
    let (at, w1, clock, rest) = >>=-eq-ok (now o) _ w e in
    let (s, w2, read, last) = >>=-eq-ok (read_state o) _ w1 rest in
    let (at_is, w1_is) = now-eq-ok o w clock in
    let (s_is, ticks) = read_state-eq-ok o w1 read in
    let same : w2 ≡ v = ap (λ t. t.1) last in
    let n_is : reserved_in o at id s ≡ n = cc last in
    (
      sym n_is
          ∙ ap (λ t. reserved_in o t id s) at_is
          ∙ ap (reserved_in o (o.now w.tick) id) s_is
          ∙ ap (λ (x : World). reserved_in o (o.now w.tick) id x.state) same,
      ap (λ (x : World). x.tick) (sym same) ∙ ticks ∙ ap (λ (x : World). suc x.tick) w1_is,
    )

pub search_index-eq-ok :
    (o : Options) (q : Text) (n : ℕ) (w : World) {es : List ReplyEvidence} {v : World}
    → search_index o q n w ≡ (ok es, v)
    → (es ≡ o.search w.tick q n) × (v.tick ≡ suc w.tick)
unfolding search_index observe
search_index-eq-ok o q n w e = (cc, ap (λ t. t.1.tick) (sym e))

pub get_config-eq-ok :
    (o : Options) (w : World) {c : AppConfig} {v : World}
    → get_config o w ≡ (ok c, v)
    → (o.get_config w.tick ≡ ok c) × (v.tick ≡ suc w.tick)
unfolding get_config ask
get_config-eq-ok o w e = (ap (λ t. t.0) e, ap (λ t. t.1.tick) (sym e))

module _ (o : Options) (group : AllowlistedGroup) (rec : ReplyRecord) (uncertain : Bool) where
  final_quota-Sends :
      (question reply : Text) (evidence : List ReplyEvidence) (config : AppConfig) (k j : ℕ)
      (w : World)
      → o.get_config k ≡ ok config
      → w.tick ≡ suc (suc k)
      → w.tick ≡ suc j
      → is_withdrawn config group ≡ false
      → config.reply_policy.dry_run ≡ false
      → too_weak (o.search j question 5) config.reply_policy.confidence_threshold ≡ false
      → reply ≡ compose_knowledge_reply (o.search j question 5) config.reply_policy.max_reply_length
      → Sends
          (IsAuthorised o group rec)
          (final_quota o group rec uncertain question reply evidence config)
          w
  unfolding final_quota
  final_quota-Sends question reply evidence config k j w read later searched on live strong
        composed =
      bind-Sends (IsAuthorised o group rec) w (count_reserved-Quiet o rec.id)
        λ n v e. let (counted, ticks) = count_reserved-eq-ok o rec.id w e in quota n v counted ticks
    where
      quota :
          (n : ℕ) (v : World)
          → n ≡ reserved_in o (o.now w.tick) rec.id v.state
          → v.tick ≡ suc (suc w.tick)
          → Sends
              (IsAuthorised o group rec)
              (within_quota o group rec uncertain question reply evidence config n)
              v
      quota n v counted ticks =
          if-Sends (IsAuthorised o group rec) (leb config.reply_policy.max_replies_per_hour n) v
            (λ full. Quiet-Sends (IsAuthorised o group rec) v (finish-Quiet o _ _ _))
            (λ room.
              claim_and_send-Sends o group rec uncertain question reply evidence w.tick n v
                (omega (arith, ticks)) counted
                (λ no_view. (
                  config,
                  k,
                  read,
                  omega (arith, ticks, later),
                  ground (arith, room),
                  record {
                    enabled = ground (arith, on);
                    listed = ground (arith, on);
                    live = live;
                    question = question;
                    found_at = j;
                    grounded = strong;
                    composed = composed;
                  },
                  omega (arith, ticks, searched),
                )))

  final_policy-Sends :
      (question reply : Text) (evidence : List ReplyEvidence) (config : AppConfig) (k : ℕ)
      (w : World)
      → o.get_config k ≡ ok config
      → w.tick ≡ suc k
      → Sends
          (IsAuthorised o group rec)
          (final_policy o group rec uncertain question reply evidence config)
          w
  unfolding final_policy
  final_policy-Sends question reply evidence config k w read later =
      if-Sends (IsAuthorised o group rec) (is_withdrawn config group) w
        (λ off. Quiet-Sends (IsAuthorised o group rec) w (stop_without_retry-Quiet o _ _ _ _ _))
        (λ on.
          if-Sends (IsAuthorised o group rec) config.reply_policy.dry_run w
            (λ dry. Quiet-Sends (IsAuthorised o group rec) w (stop_without_retry-Quiet o _ _ _ _ _))
            (λ live.
              bind-Sends (IsAuthorised o group rec) w (search_index-Quiet o question 5)
                λ current v e.
                  let (found, ticks) = search_index-eq-ok o question 5 w e in
                  weighed on live current v found ticks))
    where
      weighed :
          is_withdrawn config group ≡ false
          → config.reply_policy.dry_run ≡ false
          → (current : List ReplyEvidence) (v : World) → current ≡ o.search w.tick question 5
          → v.tick ≡ suc w.tick
          → Sends
              (IsAuthorised o group rec)
              (final_evidence o group rec uncertain question config current)
              v
      weighed on live current v found ticks =
          unfold final_evidence in
          if-Sends (IsAuthorised o group rec)
            (too_weak current config.reply_policy.confidence_threshold) v
            (λ weak. Quiet-Sends (IsAuthorised o group rec) v (finish-Quiet o _ _ _))
            (λ strong.
              final_quota-Sends question _ current config k w.tick v read
                (omega (arith, ticks, later)) ticks on live (rw (← found) strong)
                (ap (λ t. compose_knowledge_reply t config.reply_policy.max_reply_length) found))

  final_original-Sends :
      (question reply : Text) (evidence : List ReplyEvidence) (history : List DemoMessageMessage)
      (original : Option DemoMessageMessage) (w : World)
      → Sends
          (IsAuthorised o group rec)
          (final_original o group rec uncertain question reply evidence history original)
          w
  unfolding final_original
  final_original-Sends question reply evidence history none w =
      Quiet-Sends (IsAuthorised o group rec) w (stop_without_retry-Quiet o _ _ _ _ _)
  final_original-Sends question reply evidence history (some original) w =
      if-Sends (IsAuthorised o group rec) original.recalled w
        (λ gone. Quiet-Sends (IsAuthorised o group rec) w (stop_without_retry-Quiet o _ _ _ _ _))
        (λ there.
          if-Sends (IsAuthorised o group rec) (is_interrupted o.host original history) w
            (λ spoken. Quiet-Sends (IsAuthorised o group rec) w (finish-Quiet o _ _ _))
            (λ quiet. bind-Sends (IsAuthorised o group rec) w (get_config-Quiet o) λ config v e.
              let (read, ticks) = get_config-eq-ok o w e in
              final_policy-Sends question reply evidence config w.tick v read ticks))

  pub final_history-Sends :
      (mention : DemoMessageMessage) (question reply : Text) (evidence : List ReplyEvidence)
      (w : World)
      → Sends
          (IsAuthorised o group rec)
          (final_history o group rec uncertain mention question reply evidence)
          w
  unfolding final_history
  final_history-Sends mention question reply evidence w =
      bind-Sends (IsAuthorised o group rec) w (attempt-Keeps (history_of-Quiet o group mention))
        λ looked v e. look looked v
    where
      look :
          (looked : Result (List DemoMessageMessage)) (v : World)
          → Sends
              (IsAuthorised o group rec)
              (final_look o group rec uncertain mention question reply evidence looked)
              v
      look (ok history) v = final_original-Sends question reply evidence history _ v
      look (err message) v = Quiet-Sends (IsAuthorised o group rec) v (finish-Quiet o _ _ _)
