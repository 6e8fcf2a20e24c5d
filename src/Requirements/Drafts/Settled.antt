-- ===== src/Requirements/Drafts/Settled.antt =====
-- After the gateway's answer: a success is given to all who ask, and a failure can be tried again.
use lucky_tag.Common.{
  ℕ, ◌≡◌, refl, sym, ap, ◌∙◌, and→both, Bool, true, false, not, ◌&&◌, ◌==◌, ==_iff, Option, none,
  some, List, [], ◌∷◌, map, arith, filter, find, Bool-cases, inl, inr,
}
use lucky_tag.Host.{Host}
use lucky_tag.Requirements.{
  CreatedRecord, RequirementPreview, RequirementCreateInput, RequirementResult,
}
use lucky_tag.Requirements.Drafts.{
  Call, Workflow, Reply, id_of, is_expired, is_past, is_under_way, remove_expired_drafts, go_on,
  create_requirement, start_call, landed, settle_call, settle, result_of,
}
use lucky_tag.Requirements.Preview.{Draft}
use lucky_tag.Text.{Text, text_eq}
use lucky_tag.Text.Keyed.{find_key}
use lucky_tag.Worker.Effects.{Result, ok, err}

find_key-map :
    (f : Draft → Draft) (id : Text) (ds : List Draft) {d : Draft}
    → ((d : Draft) → id_of (f d) ≡ id_of d)
    → find_key id_of id ds ≡ some d
    → find_key id_of id (map f ds) ≡ some (f d)
unfolding find_key
find_key-map f id [] keeps e = cc
find_key-map f id (x ∷ ds) {d} keeps e = elim (Bool-cases (text_eq (id_of x) id)) [
  | inl same ↦
      let found : x ≡ d = ground (arith, e, same) in
      let named : text_eq (id_of (f x)) id ≡ true = ap (λ t. text_eq t id) (keeps x) ∙ same in
      rw named (ap (λ y. some (f y)) found)
  | inr other ↦
      let named : text_eq (id_of (f x)) id ≡ false = ap (λ t. text_eq t id) (keeps x) ∙ other in
      rw named (find_key-map f id ds keeps (rw other at e))
]

find_key-filter :
    (keep : Draft → Bool) (id : Text) (ds : List Draft) {d : Draft}
    → find_key id_of id ds ≡ some d
    → keep d ≡ true
    → find_key id_of id (filter keep ds) ≡ some d
unfolding find_key filter
find_key-filter keep id [] e k = e
find_key-filter keep id (x ∷ ds) {d} e k = elim (Bool-cases (text_eq (id_of x) id)) [
  | inl same ↦
      let found : x ≡ d = ground (arith, e, same) in
      let kept : keep x ≡ true = ap keep found ∙ k in rw kept (rw same (ap some found))
  | inr other ↦
      let rest = find_key-filter keep id ds (rw other at e) k in
      elim (Bool-cases (keep x)) [ inl kept ↦ rw kept (rw other rest) | inr gone ↦ rw gone rest ]
]

preview-landed :
    (n : ℕ) (result : Option RequirementResult) (d : Draft)
    → (landed n result d).preview ≡ d.preview
preview-landed n none d = ground arith
preview-landed n (some r) d = ground arith

landed-own :
    (n : ℕ) (result : Option RequirementResult) (d : Draft)
    → d.in_flight ≡ some n
    → d.result ≡ none
    → ((landed n result d).in_flight ≡ none) × ((landed n result d).result ≡ result)
landed-own n none d flying unknown = ground (arith, ==_iff n n)
landed-own n (some r) d flying unknown = ground (arith, ==_iff n n)

number-find :
    (n : ℕ) (calls : List Call) {call : Call}
    → find (λ c. c.number == n && is_under_way c.state) calls ≡ some call
    → call.number ≡ n
unfolding find
number-find n [] e = cc
number-find n (c ∷ calls) {call} e = elim (Bool-cases (c.number == n && is_under_way c.state)) [
  | inl here ↦
      let same : c ≡ call = ground (arith, e, here) in
      ap (λ (x : Call). x.number) (sym same)
      ∙ (==_iff c.number n).0 (and→both (c.number == n) (is_under_way c.state) here).0
  | inr later ↦ number-find n calls (rw later at e)
]

go_on-known :
    (input : RequirementCreateInput) (d : Draft) (w : Workflow) {r : RequirementResult}
    → d.result ≡ some r
    → go_on input (some d) w ≡ (w, Reply.known r)
go_on-known input d w e = rw e refl

go_on-idle :
    (input : RequirementCreateInput) (d : Draft) (w : Workflow)
    → d.result ≡ none
    → d.in_flight ≡ none
    → (go_on input (some d) w).1 ≡ Reply.called w.next
unfolding start_call
go_on-idle input d w e f = simp (e, f)

module _ (h : Host) (n : ℕ) (at now : ℕ) (w : Workflow) (input : RequirementCreateInput) (d : Draft)
    (call : Call) (found : find_key id_of input.draft_id w.drafts ≡ some d)
    (flying : d.in_flight ≡ some n) (unknown : d.result ≡ none)
    (answers : find (λ c. c.number == n && is_under_way c.state) w.calls ≡ some call)
    (lives : is_past (h.parse_date d.preview.expires_at) now ≡ false) where
  settle-call :
      (answer : Result CreatedRecord)
      → settle h n answer at w ≡ settle_call h (some call) answer at w
  unfolding settle
  settle-call answer = ap (λ c. settle_call h c answer at w) answers

  -- The draft is found as the answer left it.
  find-landed :
      (result : Option RequirementResult)
      → find_key id_of input.draft_id (
          filter (λ draft. not (is_expired h now draft)) (map (landed call.number result) w.drafts))
        ≡ some (landed call.number result d)
  find-landed result =
      let lasts : is_past (h.parse_date (landed call.number result d).preview.expires_at) now
          ≡ false =
        ap (λ (x : RequirementPreview). is_past (h.parse_date x.expires_at) now)
          (preview-landed call.number result d)
        ∙ lives in
      find_key-filter (λ draft. not (is_expired h now draft)) input.draft_id
        (map (landed call.number result) w.drafts)
        (find_key-map (landed call.number result) input.draft_id w.drafts
          (λ x. ap (λ (y : RequirementPreview). y.draft_id) (preview-landed call.number result x))
          found)
        (rw lasts refl)

  own :
      (result : Option RequirementResult)
      → ((landed call.number result d).in_flight ≡ none)
        × ((landed call.number result d).result ≡ result)
  own result =
      landed-own call.number result d (flying ∙ ap some (sym (number-find n w.calls answers)))
        unknown

  create-found :
      (v : Workflow) {x : Draft}
      → find_key id_of input.draft_id (remove_expired_drafts h now v).drafts ≡ some x
      → create_requirement h input now v ≡ go_on input (some x) (remove_expired_drafts h now v)
  unfolding create_requirement
  create-found v e = ap (λ f. go_on input f (remove_expired_drafts h now v)) e

  after_success :
      (answer : CreatedRecord)
      → let v = settle_call h (some call) (ok answer) at w in
        create_requirement h input now v
        ≡ (remove_expired_drafts h now v, Reply.known (result_of h call.request answer at))
  unfolding settle_call remove_expired_drafts
  after_success answer =
      let r = result_of h call.request answer at in
      let v = settle_call h (some call) (ok answer) at w in
      create-found v (find-landed (some r))
      ∙ go_on-known input (landed call.number (some r) d) (remove_expired_drafts h now v)
          (own (some r)).1

  after_failure :
      (e : Text)
      → (create_requirement h input now (settle_call h (some call) (err e) at w)).1
        ≡ Reply.called w.next
  unfolding settle_call remove_expired_drafts
  after_failure e =
      let v = settle_call h (some call) (err e) at w in
      ap (λ (t : Workflow × Reply). t.1) (create-found v (find-landed none))
      ∙ go_on-idle input (landed call.number none d) (remove_expired_drafts h now v) (own none).1
          (own none).0

  -- Once the gateway has answered the call of a draft, `createRequirement` before the draft expires does
  -- not wait for that call: after a success it gives the result, with the title, the project and the cycle that
  -- the call was made with and the record and address of the answer, and makes no call; after a failure it makes a new call.
  pub create_requirement-settle :
      ((answer : CreatedRecord)
        → ((create_requirement h input now (settle h n (ok answer) at w)).1
            ≡ Reply.known (record {
              record_id = answer.record_id;
              title = call.request.title;
              url = answer.url;
              project_id = call.request.project_id;
              cycle_id = call.request.cycle_id;
              created_at = h.to_iso at;
            }))
          × ((create_requirement h input now (settle h n (ok answer) at w)).0.next ≡ w.next))
      × ((e : Text)
          → (create_requirement h input now (settle h n (err e) at w)).1 ≡ Reply.called w.next)
  unfolding remove_expired_drafts settle_call result_of
  create_requirement-settle = (
    λ answer.
        let done =
          ap (create_requirement h input now) (settle-call (ok answer)) ∙ after_success answer in
        (ap (λ (t : Workflow × Reply). t.1) done, ap (λ (t : Workflow × Reply). t.0.next) done),
    λ e. ap (λ v. (create_requirement h input now v).1) (settle-call (err e)) ∙ after_failure e,
  )
