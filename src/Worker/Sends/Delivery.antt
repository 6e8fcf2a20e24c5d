-- ===== src/Worker/Sends/Delivery.antt =====
-- From the claim of the record to the call of `sendMessage`.
use lucky_tag.Common.{
  leb, ℕ, suc, ◌+◌, ◌≡◌, inr, refl, sym, ap, ◌∙◌, subst, Bool, true, false, not, ◌&&◌, Option, none,
  some, List, ◌∷◌, arith, ◌<◌, length-filter,
}
use lucky_tag.Contracts.{sending, AppConfig, AllowlistedGroup, ReplyRecord, ReplyEvidence}
use lucky_tag.Text.{Text, lit, text_eq_iff}
use lucky_tag.Worker.Effects.{
  ok, World, Options, SendEvent, SendInput, send_message, observe, search_index, now, ◌>>=◌,
}
use lucky_tag.Worker.Effects.Rules.{Keeps, pure-Keeps, bind-Keeps}
use lucky_tag.Worker.Process.Guards.{group_allowed, with_reply, Verdict, stop, done}
use lucky_tag.Worker.Process.Send.{
  deliver, guard_evidence, guard_and_deliver, try_send, try_send_by, claim_and_send, settle,
  is_stale,
}
use lucky_tag.Worker.Records.{Patch, patched}
use lucky_tag.Worker.Sends.Gate.{Sends, Quiet-Sends, bind-Sends, then-Sends, catch-Sends, if-Sends}
use lucky_tag.Worker.Sends.Quiet.{
  Quiet, Quiet-IsOrder, set_status-Quiet, hand_over-Quiet, stop_without_retry-Quiet,
  after_send_error-Quiet, now-Quiet,
}
use lucky_tag.Worker.Status.{is_terminal}
use lucky_tag.Worker.Store.{set_status, reserved_in}
use lucky_tag.Worker.Store.Success.{IsStatusSet, set_status-eq-ok, set_status-tick}
use lucky_tag.Worker.Sends.Authorised.{InForce, IsPermitted, IsClaimed, IsCounted, IsAuthorised}

module _ (o : Options) (group : AllowlistedGroup) (rec claim : ReplyRecord) where
  abbrev Goal : SendEvent → Type 0
  Goal = IsAuthorised o group rec

  abbrev input_of : Text → SendInput
  input_of reply = record { group_id = group.id; text = reply; uuid = claim.idempotency_uuid }

  abbrev event_of : Text → World → SendEvent
  event_of reply w = record { input = input_of reply; tick = w.tick; stored = w.state }

  deliver-Sends :
      (reply : Text) (w : World)
      → Goal (event_of reply w)
      → Sends Goal (deliver o group claim reply) w
  unfolding deliver
  deliver-Sends reply w good = then-Sends Goal w sent_once (λ result.
      bind-Keeps Quiet-IsOrder (set_status-Quiet o _ _ _) (λ r. pure-Keeps Quiet-IsOrder _))
    where
      sent_once : Sends Goal (send_message o (input_of reply)) w
      sent_once = record { run = inr (event_of reply w, once, good) }
        where
          once : (send_message o (input_of reply) w).1.sends ≡ event_of reply w ∷ w.sends
          once = unfold send_message in refl

  -- The guards just before the call, with the configuration read at tick `k`.
  module _ (reply question : Text) (counted_at reserved : ℕ) where
    guard_evidence-Sends :
        (read : ℕ → AppConfig) (k : ℕ) (w : World)
        → o.get_current_config ≡ some read
        → (read k).reply_policy.enabled ≡ true
        → group_allowed (read k) group ≡ true
        → (read k).reply_policy.dry_run ≡ false
        → w.tick ≡ suc (suc k)
        → k ≡ 5 + counted_at
        → IsClaimed o rec claim w.state
        → IsCounted o rec claim w.state counted_at reserved
        → Sends Goal
            (guard_evidence o group claim reply reserved (read k) (o.search (suc k) question 5))
            w
    unfolding guard_evidence
    guard_evidence-Sends read k w view enabled listed live at since claimed counted =
        if-Sends Goal (is_stale o group (o.search (suc k) question 5) (read k) reply) w
          (λ stale. Quiet-Sends Goal w (hand_over-Quiet o _ _))
          (λ fresh.
            if-Sends Goal (leb (read k).reply_policy.max_replies_per_hour reserved) w
              (λ full. Quiet-Sends Goal w (hand_over-Quiet o _ _))
              (λ room. deliver-Sends reply w (record {
                config = read k;
                in_force = InForce.current read k view refl at;
                permitted = record {
                  enabled = enabled;
                  listed = listed;
                  live = live;
                  question = question;
                  found_at = suc k;
                  grounded = ground (arith, fresh);
                  composed = sym ((text_eq_iff _ reply).0 (ground (arith, fresh)));
                };
                fresh = omega (arith, at);
                claim = claim;
                claimed = claimed;
                counted_at = counted_at;
                reserved = reserved;
                counted = counted;
                recent = omega (arith, at, since);
                within_limit = ground (arith, room);
                address = refl;
                key = refl;
              })))

    guard_and_deliver-Sends :
        (read : ℕ → AppConfig) (k : ℕ) (w : World)
        → o.get_current_config ≡ some read
        → w.tick ≡ suc k
        → k ≡ 5 + counted_at
        → IsClaimed o rec claim w.state
        → IsCounted o rec claim w.state counted_at reserved
        → Sends Goal (guard_and_deliver o group claim question reply reserved (read k)) w
    unfolding guard_and_deliver
    guard_and_deliver-Sends read k w view at since claimed counted =
        if-Sends Goal (not ((read k).reply_policy.enabled && group_allowed (read k) group)) w
          (λ off. Quiet-Sends Goal w (pure-Keeps Quiet-IsOrder _))
          (λ on.
            if-Sends Goal _ w (λ dry. Quiet-Sends Goal w (pure-Keeps Quiet-IsOrder _))
              (λ live. search_first w (
                subst
                  (λ t.
                    Sends Goal
                      (guard_evidence o group claim reply reserved (read k) (o.search t question 5))
                      (record w { tick = suc w.tick }))
                  (sym at)
                  (guard_evidence-Sends read k (record w { tick = suc w.tick }) view
                    (ground (arith, on)) (ground (arith, on)) live (ap suc at) since claimed
                    counted))))
      where
        search_first :
            (w : World)
            → Sends Goal
                (guard_evidence o group claim reply reserved (read k) (o.search w.tick question 5))
                (record w { tick = suc w.tick })
            → Sends Goal
                (search_index o question 5 >>= guard_evidence o group claim reply reserved (read k))
                w
        search_first w s = unfold search_index observe ◌>>=◌ in record { run = s.run }

    try_send-Sends :
        (w : World)
        → w.tick ≡ 5 + counted_at
        → IsClaimed o rec claim w.state
        → IsCounted o rec claim w.state counted_at reserved
        → (o.get_current_config ≡ none → Goal (event_of reply w))
        → Sends Goal (try_send o group claim question reply reserved) w
    unfolding try_send
    try_send-Sends w since claimed counted otherwise = by_view o.get_current_config refl
      where
        by_view :
            (view : Option (ℕ → AppConfig))
            → o.get_current_config ≡ view
            → Sends Goal (try_send_by o group view claim question reply reserved) w
        by_view none e = deliver-Sends reply w (otherwise e)
        by_view (some read) e = observed (
            guard_and_deliver-Sends read w.tick (record w { tick = suc w.tick }) e refl since
              claimed counted)
          where
            observed :
                Sends Goal
                  (guard_and_deliver o group claim question reply reserved (read w.tick))
                  (record w { tick = suc w.tick })
                → Sends Goal
                    (observe read >>= guard_and_deliver o group claim question reply reserved)
                    w
            observed s = unfold observe ◌>>=◌ in record { run = s.run }

settle-Quiet :
    (o : Options) (id : Text) (uncertain : Bool) (v : Verdict)
    → Keeps Quiet (settle o id uncertain v)
settle-Quiet o id uncertain (done outcome) = pure-Keeps Quiet-IsOrder outcome
settle-Quiet o id uncertain (stop fallback reason) = stop_without_retry-Quiet o _ _ _ _ _

pub now-eq-ok :
    (o : Options) (w : World) {at : ℕ} {v : World}
    → now o w ≡ (ok at, v)
    → (at ≡ o.now w.tick) × (v ≡ record w { tick = suc w.tick })
unfolding now observe
now-eq-ok o w e = (cc, cc)

claimed_of_set :
    (o : Options) (rec claim : ReplyRecord) (patch : Patch) (w v : World) (at k : ℕ)
    → at ≡ o.now k
    → IsStatusSet o rec.id sending
        (record patch {
          lease_expires_at = some (o.host.to_iso (at + 120000));
          attempt_count = some (rec.attempt_count + 1);
        })
        w
        claim
        v
    → IsClaimed o rec claim v.state
unfolding patched is_terminal
claimed_of_set o rec claim patch w v at k clock c = record {
  stored = c.stored refl;
  status = ap (λ r. r.status) c.after;
  named = ap (λ r. r.id) c.after ∙ c.named;
  attempts = ap (λ r. r.attempt_count) c.after;
  leased_at = k;
  lease = ap (λ r. r.lease_expires_at) c.after ∙ ap (λ t. some (o.host.to_iso (t + 120000))) clock;
}

-- From the claim on: the send, if there is one, goes out under the claim that was stored first. The hourly
-- capacity was counted before, and the stored configuration read before that.
module _ (o : Options) (group : AllowlistedGroup) (rec : ReplyRecord) (uncertain : Bool)
    (question reply : Text) (evidence : List ReplyEvidence) (counted_at reserved : ℕ) where
  abbrev patch_at : ℕ → Patch
  patch_at at = record (with_reply (lit "正在通过 DEMO_MESSAGE 幂等发送") reply evidence) {
    lease_expires_at = some (o.host.to_iso (at + 120000));
    attempt_count = some (rec.attempt_count + 1);
  }

  after_claim-Sends :
      (w w2 : World) (at : ℕ) (claim : ReplyRecord)
      → at ≡ o.now w.tick
      → w.tick ≡ 2 + counted_at
      → reserved ≡ reserved_in o (o.now counted_at) rec.id w.state
      → set_status o rec.id sending (patch_at at) (record w { tick = suc w.tick }) ≡ (ok claim, w2)
      → (o.get_current_config ≡ none
          → (config : AppConfig) × (k : ℕ) × (o.get_config k ≡ ok config)
            × (w.tick ≡ 4 + k)
            × (reserved < config.reply_policy.max_replies_per_hour)
            × (permitted : IsPermitted o group rec.id reply config) × (w.tick
                ≡ 3 + permitted.found_at))
      → Sends (IsAuthorised o group rec) (try_send o group claim question reply reserved) w2
  unfolding reserved_in
  after_claim-Sends w w2 at claim clock since counted e2 policy =
      let w1 : World = record w { tick = suc w.tick } in
      let ticks : w2.tick ≡ suc (suc (suc w.tick)) = set_status-tick o _ _ _ w1 claim w2 e2 in
      let claimed : IsClaimed o rec claim w2.state =
        claimed_of_set o rec claim (with_reply (lit "正在通过 DEMO_MESSAGE 幂等发送") reply evidence) w1 w2
          at w.tick clock (set_status-eq-ok o _ _ _ w1 claim w2 e2) in
      let count_is : IsCounted o rec claim w2.state counted_at reserved = record {
        patch = patch_at at;
        before = w1;
        after = w2;
        claimed = e2;
        kept = refl;
        counted = counted ∙ length-filter _ w.state.replies;
      } in
      try_send-Sends o group rec claim reply question counted_at reserved w2
        (omega (arith, ticks, since)) claimed count_is
        (λ no_view.
          let (config, k, read, later, room, permitted, found) = policy no_view in
          record {
            config = config;
            in_force = InForce.stored k no_view read (omega (arith, ticks, later));
            permitted = permitted;
            fresh = omega (arith, ticks, found);
            claim = claim;
            claimed = claimed;
            counted_at = counted_at;
            reserved = reserved;
            counted = count_is;
            recent = omega (arith, ticks, since);
            within_limit = room;
            address = refl;
            key = refl;
          })

  pub claim_and_send-Sends :
      (w : World)
      → w.tick ≡ 2 + counted_at
      → reserved ≡ reserved_in o (o.now counted_at) rec.id w.state
      → (o.get_current_config ≡ none
          → (config : AppConfig) × (k : ℕ) × (o.get_config k ≡ ok config)
            × (w.tick ≡ 4 + k)
            × (reserved < config.reply_policy.max_replies_per_hour)
            × (permitted : IsPermitted o group rec.id reply config) × (w.tick
                ≡ 3 + permitted.found_at))
      → Sends
          (IsAuthorised o group rec)
          (claim_and_send o group rec uncertain question reply evidence reserved)
          w
  unfolding claim_and_send
  claim_and_send-Sends w since counted policy =
      bind-Sends (IsAuthorised o group rec) w (now-Quiet o) λ at w1 e1.
        bind-Sends (IsAuthorised o group rec) w1 (set_status-Quiet o _ _ _) λ claim w2 e2.
          let (clock, next) = now-eq-ok o w e1 in
          then-Sends (IsAuthorised o group rec) w2
            (catch-Sends (IsAuthorised o group rec) w2
              (after_claim-Sends w w2 at claim clock since counted (rw (← next) e2) policy)
              (λ message. after_send_error-Quiet o _ _ _))
            (λ verdict. settle-Quiet o rec.id uncertain verdict)
