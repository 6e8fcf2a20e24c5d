-- ===== src/Worker/Store/Success.antt =====
-- What a successful `setStatus` has done.
use lucky_tag.Common.{suc, ◌≡◌, sym, ap, ◌∙◌, inl, true, false, Option, none, some, List}
use lucky_tag.Contracts.{ReplyStatus, ReplyRecord, CoreStateFile}
use lucky_tag.Text.{Text}
use lucky_tag.Worker.Effects.{
  Result, ok, World, pure, ◌>>=◌, Options, update_state, reached, of_result, observe, now, notify,
  ◌>>◌,
}
use lucky_tag.Worker.Effects.Inversion.{continue-eq-ok, >>=-eq-ok, update_state-eq-ok}
use lucky_tag.Worker.Records.{Patch, patched, set_each}
use lucky_tag.Worker.Records.Transitions.{set_each-Outcome}
use lucky_tag.Worker.Status.{is_terminal, may_become}
use lucky_tag.Worker.Store.{set_status_in, set_status, required, not_found}
use lucky_tag.Worker.Trim.{trim_replies}
use lucky_tag.Worker.Trim.Laws.{trim-mem}
use mathlib.Core.List.{Memᴰ}

module _ (o : Options) (id : Text) (status : ReplyStatus) (patch : Patch) where
  -- The record that is returned is a legal new version of a stored one, and is stored itself unless
  -- its new status is terminal, where the retention may have dropped it.
  pub record IsStatusSet (w : World) (r : ReplyRecord) (v : World) : Type 0 where
    pub before : ReplyRecord
    pub found : Memᴰ before (o.interfere w.tick w.state).replies
    pub named : before.id ≡ id
    pub legal : may_become before.status status ≡ true
    pub after : r ≡ patched status patch (o.host.to_iso (o.now (suc w.tick))) before
    pub stored : is_terminal status ≡ false → Memᴰ r v.state.replies

  of_result-eq-ok {ℓ} :
      {A : Type ℓ} (r : Result A) (w : World) {a : A} {v : World}
      → of_result r w ≡ (ok a, v)
      → (r ≡ ok a) × (v ≡ w)
  of_result-eq-ok r w e = (ap (λ t. t.0) e, sym (ap (λ t. t.1) e))

  required-eq-ok {ℓ} :
      {A : Type ℓ} (message : Text) (a : Option A) (w : World) {b : A} {v : World}
      → required message a w ≡ (ok b, v)
      → (a ≡ some b) × (v ≡ w)
  required-eq-ok message none w e = absurd (cc)
  required-eq-ok message (some a) w e = (cc, cc)

  set_status_in-eq-ok :
      (s : CoreStateFile) (w : World) {next : CoreStateFile} {sel : Option ReplyRecord} {v : World}
      → set_status_in o id status patch s w ≡ (ok (next, sel), v)
      → (rs : List ReplyRecord) × (set_each id status patch (o.host.to_iso (o.now w.tick)) s.replies
          ≡ ok (rs, sel))
        × (next.replies ≡ trim_replies o.host rs (o.now w.tick))
  unfolding set_status_in now observe ◌>>=◌
  set_status_in-eq-ok s w {next} {sel} e =
      let (pair, moved, last) =
        continue-eq-ok (set_each id status patch (o.host.to_iso (o.now w.tick)) s.replies) _ _ e in
      let written : record s { replies = trim_replies o.host pair.0 (o.now w.tick) } ≡ next = cc in
      let chosen : pair.1 ≡ sel = cc in
      (pair.0, rw (← chosen) moved, ap (λ t. t.replies) (sym written))

  -- The update, where it selected a record.
  update_status-eq-ok :
      (w : World) (sel : Option ReplyRecord) (r : ReplyRecord) (v : World)
      → update_state o (set_status_in o id status patch) w ≡ (ok sel, v)
      → sel ≡ some r
      → IsStatusSet w r v
  unfolding patched
  update_status-eq-ok w sel r v e chosen =
      let (next, u, ran, written) = update_state-eq-ok o (set_status_in o id status patch) w e in
      let (rs, moved, trimmed) = set_status_in-eq-ok (reached o w).state (reached o w) ran in
      let c =
        (set_each-Outcome id status patch (o.host.to_iso (o.now (suc w.tick)))
            (reached o w).state.replies rs sel moved).1
          r chosen in
      record {
        before = c.before;
        found = c.found;
        named = c.named;
        legal = c.legal;
        after = c.after;
        stored = λ open_status.
            rw (written, trimmed)
              (trim-mem o.host (o.now (suc w.tick)) rs r c.stored
                (inl (rw c.after (patched_open c.before open_status))));
      }
    where
      patched_open :
          (b : ReplyRecord)
          → is_terminal status ≡ false
          → is_terminal (patched status patch (o.host.to_iso (o.now (suc w.tick))) b).status ≡ false
      patched_open b open_status = open_status

  notify-pure :
      (w : World) (chosen r : ReplyRecord) (v : World)
      → (notify >> pure chosen) w ≡ (ok r, v)
      → (chosen ≡ r) × (v.state ≡ w.state)
  unfolding notify ◌>>=◌
  notify-pure w chosen r v e = (cc, ap (λ t. t.1.state) (sym e))

  pub set_status-eq-ok :
      (w : World) (r : ReplyRecord) (v : World)
      → set_status o id status patch w ≡ (ok r, v)
      → IsStatusSet w r v
  unfolding set_status
  set_status-eq-ok w r v e =
      let (sel, w1, updated, rest) =
        >>=-eq-ok (update_state o (set_status_in o id status patch)) _ w e in
      let (chosen, w2, found, rest') = >>=-eq-ok (required (not_found id) sel) _ w1 rest in
      let (is_found, same) = required-eq-ok (not_found id) sel w1 found in
      let (named, kept) = notify-pure w2 chosen r v rest' in
      moved_on w r v w1 (sym (kept ∙ ap (λ t. t.state) same))
        (update_status-eq-ok w sel r w1 updated (is_found ∙ ap some named))
    where
      moved_on :
          (w : World) (r : ReplyRecord) (v w1 : World)
          → w1.state ≡ v.state
          → IsStatusSet w r w1
          → IsStatusSet w r v
      moved_on w r v w1 same c = record {
        before = c.before;
        found = c.found;
        named = c.named;
        legal = c.legal;
        after = c.after;
        stored = λ open_status. rw (← same) (c.stored open_status);
      }

  notify-tick :
      (w : World) (chosen r : ReplyRecord) (v : World)
      → (notify >> pure chosen) w ≡ (ok r, v)
      → v.tick ≡ w.tick
  unfolding notify ◌>>=◌
  notify-tick w chosen r v e = ap (λ t. t.1.tick) (sym e)

  set_status_in-tick :
      (s : CoreStateFile) (w : World) {next : CoreStateFile} {sel : Option ReplyRecord} {v : World}
      → set_status_in o id status patch s w ≡ (ok (next, sel), v)
      → v.tick ≡ suc w.tick
  unfolding set_status_in now observe ◌>>=◌
  set_status_in-tick s w e =
      let (pair, moved, last) =
        continue-eq-ok (set_each id status patch (o.host.to_iso (o.now w.tick)) s.replies) _ _ e in
      ap (λ t. t.1.tick) (sym last)

  -- The clock of the calls after a `setStatus` that succeeds: the store was reached, then the clock read.
  pub set_status-tick :
      (w : World) (r : ReplyRecord) (v : World)
      → set_status o id status patch w ≡ (ok r, v)
      → v.tick ≡ suc (suc w.tick)
  unfolding set_status
  set_status-tick w r v e =
      let (sel, w1, updated, rest) =
        >>=-eq-ok (update_state o (set_status_in o id status patch)) _ w e in
      let (chosen, w2, found, rest') = >>=-eq-ok (required (not_found id) sel) _ w1 rest in
      let (is_found, same) = required-eq-ok (not_found id) sel w1 found in
      let (next, u, ran, written) =
        update_state-eq-ok o (set_status_in o id status patch) w updated in
      notify-tick w2 chosen r v rest'
      ∙ ap (λ (x : World). x.tick) same
      ∙ ap (λ (x : World). x.tick) written
      ∙ set_status_in-tick (reached o w).state (reached o w) ran
