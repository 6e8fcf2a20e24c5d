-- ===== src/Worker/Sends/Passes.antt =====
-- worker.ts: the messages that the passes over one group send.
use lucky_tag.Common.{ℕ, ◌≡◌, inl, inr, refl, ap, ◌∙◌, Option, none, some, List, [], ◌∷◌, ◌++◌, All}
use lucky_tag.Contracts.{AppConfig, AllowlistedGroup, ReplyRecord, DemoMessageMessage}
use lucky_tag.Worker.Effects.{World, M, Options, SendEvent}
use lucky_tag.Worker.Effects.Rules.{IsOrder, Keeps, pure-Keeps, bind-Keeps, if-Keeps}
use lucky_tag.Worker.Process.{process_record}
use lucky_tag.Worker.Run.{handle_message, handle_messages}
use lucky_tag.Worker.Run.Passes.{
  recover_one, recover_each, process_recoverable_records, follow_message, follow_found, follow_each,
  process_open_follow_ups,
}
use lucky_tag.Worker.Sends.Authority.{process_record-Sends}
use lucky_tag.Worker.Sends.Authorised.{IsAuthorised}
use lucky_tag.Worker.Sends.Gate.{OneSend}
use lucky_tag.Worker.Sends.Quiet.{Quiet, set_status-Quiet, read_state-Quiet, now-Quiet}
use lucky_tag.Worker.Sends.Silent.{
  bump-Quiet, count_outcome-Quiet, ensure_pending_record-Quiet, close_follow_up_window-Quiet,
  list_conversation-Quiet,
}

-- The messages sent between two worlds, each allowed by a record of a group.
pub record Allowed (o : Options) (e : SendEvent) : Type 0 where
  pub group : AllowlistedGroup
  pub rec : ReplyRecord
  pub authorised : IsAuthorised o group rec e

abbrev pub Adds : Options → World → World → Type 0
Adds o u v = (es : List SendEvent) × (v.sends ≡ es ++ u.sends) × All (Allowed o) es

All-append {ℓ κ} :
    {A : Type ℓ} (P : A → Type κ) (xs ys : List A) → All P xs → All P ys → All P (xs ++ ys)
All-append P [] ys h k = k
All-append P (x ∷ xs) ys h k = (h.0, All-append P xs ys h.1 k)

append_assoc {ℓ} : {A : Type ℓ} (xs ys zs : List A) → xs ++ (ys ++ zs) ≡ (xs ++ ys) ++ zs
append_assoc [] ys zs = refl
append_assoc (x ∷ xs) ys zs = ap (λ t. x ∷ t) (append_assoc xs ys zs)

pub Adds-IsOrder : (o : Options) → IsOrder (Adds o)
Adds-IsOrder o = record {
  same = λ w. ([], refl, tt);
  chain = λ {u} {v} {w} (es, e, all) (fs, f, both). (
    fs ++ es,
    f ∙ ap (λ t. fs ++ t) e ∙ append_assoc fs es u.sends,
    All-append (Allowed o) fs es both all,
  );
  ticks = λ w k. ([], refl, tt);
  updates = λ w k. ([], refl, tt);
}

pub Adds-of_Quiet {ℓ} : (o : Options) {A : Type ℓ} {m : M A} → Keeps Quiet m → Keeps (Adds o) m
Adds-of_Quiet o h = record { run = λ w. ([], h.run w, tt) }

Adds-of_one :
    (o : Options) (group : AllowlistedGroup) (rec : ReplyRecord) (u v : World)
    → OneSend (IsAuthorised o group rec) u v
    → Adds o u v
Adds-of_one o group rec u v (inl e) = ([], e, tt)
Adds-of_one o group rec u v (inr (e, p, good)) =
    (e ∷ [], p, (record { group = group; rec = rec; authorised = good }, tt))

process_record-Adds :
    (o : Options) (group : AllowlistedGroup) (rec : ReplyRecord) (m : DemoMessageMessage)
    (config : AppConfig)
    → Keeps (Adds o) (process_record o group rec m config)
process_record-Adds o group rec m config = record {
  run = λ w.
      Adds-of_one o group rec w (process_record o group rec m config w).1
        (process_record-Sends o group rec m config w).run;
}

module _ (o : Options) where
  handle_message-Adds :
      (config : AppConfig) (group : AllowlistedGroup) (m : DemoMessageMessage)
      → Keeps (Adds o) (handle_message o config group m)
  unfolding handle_message
  handle_message-Adds config group m =
      if-Keeps (Adds-IsOrder o) _ (Adds-of_Quiet o (bump-Quiet _)) (
        bind-Keeps (Adds-IsOrder o) (Adds-of_Quiet o (ensure_pending_record-Quiet o m group))
          (λ found. bind-Keeps (Adds-IsOrder o) (Adds-of_Quiet o (bump-Quiet _)) (λ u.
            bind-Keeps (Adds-IsOrder o) (process_record-Adds o group _ m config)
              (λ outcome. Adds-of_Quiet o (count_outcome-Quiet outcome)))))

  pub handle_messages-Adds :
      (config : AppConfig) (group : AllowlistedGroup) (ms : List DemoMessageMessage)
      → Keeps (Adds o) (handle_messages o config group ms)
  unfolding handle_messages
  handle_messages-Adds config group [] = pure-Keeps (Adds-IsOrder o) tt
  handle_messages-Adds config group (m ∷ ms) =
      bind-Keeps (Adds-IsOrder o) (handle_message-Adds config group m)
        (λ u. handle_messages-Adds config group ms)

  module _ (group : AllowlistedGroup) (config : AppConfig) where
    recover_one-Adds : (at : ℕ) (r : ReplyRecord) → Keeps (Adds o) (recover_one o group config at r)
    unfolding recover_one
    recover_one-Adds at r =
        if-Keeps (Adds-IsOrder o) _
          (bind-Keeps (Adds-IsOrder o) (Adds-of_Quiet o (set_status-Quiet o _ _ _))
            (λ u. pure-Keeps (Adds-IsOrder o) _))
          (process_record-Adds o group r _ config)

    recover_each-Adds :
        (at : ℕ) (rs : List ReplyRecord) → Keeps (Adds o) (recover_each o group config at rs)
    unfolding recover_each
    recover_each-Adds at [] = pure-Keeps (Adds-IsOrder o) _
    recover_each-Adds at (r ∷ rs) = bind-Keeps (Adds-IsOrder o) (recover_one-Adds at r) (λ a.
        bind-Keeps (Adds-IsOrder o) (recover_each-Adds at rs) (λ bs. pure-Keeps (Adds-IsOrder o) _))

    pub recover-Adds : Keeps (Adds o) (process_recoverable_records o group config)
    unfolding process_recoverable_records
    recover-Adds = bind-Keeps (Adds-IsOrder o) (Adds-of_Quiet o (read_state-Quiet o)) (λ s.
        bind-Keeps (Adds-IsOrder o) (Adds-of_Quiet o (now-Quiet o)) (λ at. recover_each-Adds at _))

    follow_message-Adds :
        (window : ReplyRecord) (m : DemoMessageMessage)
        → Keeps (Adds o) (follow_message o group config window m)
    unfolding follow_message
    follow_message-Adds window m =
        if-Keeps (Adds-IsOrder o) _
          (bind-Keeps (Adds-IsOrder o) (Adds-of_Quiet o (close_follow_up_window-Quiet o _ _)) (λ u.
            bind-Keeps (Adds-IsOrder o) (Adds-of_Quiet o (ensure_pending_record-Quiet o m group))
              (λ found.
                bind-Keeps (Adds-IsOrder o) (process_record-Adds o group _ m config)
                  (λ outcome. pure-Keeps (Adds-IsOrder o) _))))
          (bind-Keeps (Adds-IsOrder o) (Adds-of_Quiet o (close_follow_up_window-Quiet o _ _))
            (λ u. pure-Keeps (Adds-IsOrder o) _))

    follow_found-Adds :
        (window : ReplyRecord) (m : Option DemoMessageMessage)
        → Keeps (Adds o) (follow_found o group config window m)
    follow_found-Adds window none = pure-Keeps (Adds-IsOrder o) _
    follow_found-Adds window (some m) = follow_message-Adds window m

    follow_each-Adds :
        (windows : List ReplyRecord) → Keeps (Adds o) (follow_each o group config windows)
    unfolding follow_each
    follow_each-Adds [] = pure-Keeps (Adds-IsOrder o) _
    follow_each-Adds (window ∷ windows) =
        bind-Keeps (Adds-IsOrder o) (Adds-of_Quiet o (list_conversation-Quiet o _)) (λ history.
          bind-Keeps (Adds-IsOrder o) (follow_found-Adds window _) (λ here.
            bind-Keeps (Adds-IsOrder o) (follow_each-Adds windows)
              (λ rest. pure-Keeps (Adds-IsOrder o) _)))

    pub follow-Adds : Keeps (Adds o) (process_open_follow_ups o group config)
    unfolding process_open_follow_ups
    follow-Adds = bind-Keeps (Adds-IsOrder o) (Adds-of_Quiet o (read_state-Quiet o)) (λ s.
        bind-Keeps (Adds-IsOrder o) (Adds-of_Quiet o (now-Quiet o)) (λ at. follow_each-Adds _))
