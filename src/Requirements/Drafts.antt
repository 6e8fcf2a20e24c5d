-- ===== src/Requirements/Drafts.antt =====
-- main/core/demoWorkflow-requirement.ts: the drafts that wait to be created, `removeExpiredDrafts` and
-- `createRequirement`. What runs between two waits is one event.
pub mod Once
pub mod Settled
use lucky_tag.Common.{
  ℕ, suc, ◌≤◌, ◌≡◌, Bool, true, false, not, ◌&&◌, ◌||◌, ◌==◌, Option, none, some, List, [], ◌∷◌,
  map, leb, if◌then◌else◌, filter, find,
}
use lucky_tag.Host.{Host}
use lucky_tag.Requirements.{
  Platform, Template, Cycle, CreateRequest, CreatedRecord, RequirementInput, RequirementPreview,
  RequirementCreateInput, RequirementResult,
}
use lucky_tag.Requirements.Preview.{Gateway, Draft, preview_requirement}
use lucky_tag.Text.{Text, lit, text_eq}
use lucky_tag.Text.Keyed.{find_key, put_entry}
use lucky_tag.Worker.Effects.{Result, ok, err}

pub data CallState : Type 0 where
  under_way created failed : CallState

-- A call of the gateway's `createRequirement`, for a draft.
pub record Call : Type 0 where
  pub number : ℕ
  pub draft_id : Text
  pub request : CreateRequest
  pub state : CallState

-- `drafts`, and the calls so far, newest first.
pub record Workflow : Type 0 where
  pub drafts : List Draft
  pub calls : List Call
  pub next : ℕ

-- How `createRequirement` goes on: with an error, a result, another's call or a call of its own.
pub data Reply : Type 0 where
  refused : Text → Reply
  known : RequirementResult → Reply
  joined : ℕ → Reply
  called : ℕ → Reply

abbrev pub id_of : Draft → Text
id_of draft = draft.preview.draft_id

abbrev pub is_under_way : CallState → Bool
is_under_way CallState.under_way = true
is_under_way _ = false

-- `new Date(expiresAt).getTime() <= now`, false where the date is not valid
abbrev pub is_past : Option ℕ → ℕ → Bool
is_past none now = false
is_past (some at) now = leb at now

abbrev is_idle : Option ℕ → Bool
is_idle none = true
is_idle (some n) = false

abbrev pub is_expired : Host → ℕ → Draft → Bool
is_expired h now draft =
    is_past (h.parse_date draft.preview.expires_at) now && is_idle draft.in_flight

unfoldable pub remove_expired_drafts : Host → ℕ → Workflow → Workflow
unfolding filter
remove_expired_drafts h now w = record w {
  drafts = filter (λ draft. not (is_expired h now draft)) w.drafts;
}

unfoldable pub create_request : RequirementCreateInput → Draft → CreateRequest
create_request input pending = record {
  title = input.title;
  description = input.description;
  project_id = pending.preview.project_id;
  record_type_id = pending.template.record_type_id;
  priority_id = pending.template.priority_id;
  processor = elim pending.template.processor [ none ↦ none | some user ↦ some user.value ];
  members = map (λ member. member.value) pending.template.members;
  verifiers = map (λ verifier. verifier.value) pending.template.verifiers;
  tags = pending.template.tags;
  cycle_id = elim pending.cycle [ none ↦ none | some cycle ↦ some cycle.id ];
}

-- `pending.inFlight = createPromise`
abbrev pub busy_with : ℕ → Text → Draft → Draft
busy_with n id draft =
    if text_eq (id_of draft) id then record draft { in_flight = some n } else draft

unfoldable pub start_call : RequirementCreateInput → Draft → Workflow → Workflow
unfolding create_request text_eq
start_call input pending w = record {
  drafts = map (busy_with w.next (id_of pending)) w.drafts;
  calls =
      record {
        number = w.next;
        draft_id = id_of pending;
        request = create_request input pending;
        state = CallState.under_way;
      }
      ∷ w.calls;
  next = suc w.next;
}

abbrev unless_busy : RequirementCreateInput → Draft → Option ℕ → Workflow → Workflow × Reply
unless_busy input pending (some n) w = (w, Reply.joined n)
unless_busy input pending none w = (start_call input pending w, Reply.called w.next)

abbrev unless_known :
    RequirementCreateInput → Draft → Option RequirementResult → Workflow → Workflow × Reply
unless_known input pending (some result) w = (w, Reply.known result)
unless_known input pending none w = unless_busy input pending pending.in_flight w

abbrev pub go_on : RequirementCreateInput → Option Draft → Workflow → Workflow × Reply
go_on input none w = (w, Reply.refused (lit "需求草稿不存在或已过期，请重新分析群聊"))
go_on input (some pending) w = unless_known input pending pending.result w

-- `createRequirement`, up to its first wait
unfoldable pub create_requirement : Host → RequirementCreateInput → ℕ → Workflow → Workflow × Reply
unfolding remove_expired_drafts start_call find_key lit
create_requirement h input now w =
    let swept = remove_expired_drafts h now w in
    go_on input (find_key id_of input.draft_id swept.drafts) swept

-- The result of a call that the gateway answers at an instant.
unfoldable pub result_of : Host → CreateRequest → CreatedRecord → ℕ → RequirementResult
result_of h request answer at = record {
  record_id = answer.record_id;
  title = request.title;
  url = answer.url;
  project_id = request.project_id;
  cycle_id = request.cycle_id;
  created_at = h.to_iso at;
}

abbrev pub marked : ℕ → CallState → Call → Call
marked n state call =
    if call.number == n && is_under_way call.state then record call { state = state } else call

abbrev pub is_flight : ℕ → Option ℕ → Bool
is_flight n none = false
is_flight n (some m) = m == n

-- `pending.result = structuredClone(result)` where there is one, and `delete pending.inFlight`
abbrev pub landed : ℕ → Option RequirementResult → Draft → Draft
landed n (some result) draft =
    if is_flight n draft.in_flight
    then record draft { result = some result; in_flight = none }
    else draft
landed n none draft =
    if is_flight n draft.in_flight then record draft { in_flight = none } else draft

unfoldable pub settle_call : Host → Option Call → Result CreatedRecord → ℕ → Workflow → Workflow
unfolding result_of
settle_call h none reply at w = w
settle_call h (some call) (ok answer) at w = record w {
  drafts = map (landed call.number (some (result_of h call.request answer at))) w.drafts;
  calls = map (marked call.number CallState.created) w.calls;
}
settle_call h (some call) (err e) at w = record w {
  drafts = map (landed call.number none) w.drafts;
  calls = map (marked call.number CallState.failed) w.calls;
}

-- `createRequirement` after its wait: the gateway answers a call that is under way.
unfoldable pub settle : Host → ℕ → Result CreatedRecord → ℕ → Workflow → Workflow
unfolding settle_call find
settle h n answer at w =
    settle_call h (find (λ c. c.number == n && is_under_way c.state) w.calls) answer at w

abbrev pub store_draft : Result Draft → Workflow → Workflow
store_draft (err e) w = w
store_draft (ok draft) w = record w { drafts = put_entry id_of draft w.drafts }

pub data Event : Type 0 where
  preview_started : (now : ℕ) → Event
  previewed : (g : Gateway) (input : RequirementInput) (now : ℕ) (draft_id : Text) → Event
  create : (input : RequirementCreateInput) (now : ℕ) → Event
  settled : (number : ℕ) (answer : Result CreatedRecord) (at : ℕ) → Event

module _ (p : Platform) (h : Host) where
  unfoldable pub step : Event → Workflow → Workflow
  unfolding remove_expired_drafts preview_requirement create_requirement settle put_entry
  step (Event.preview_started now) w = remove_expired_drafts h now w
  step (Event.previewed g input now draft_id) w =
      store_draft (preview_requirement p h g input now draft_id) w
  step (Event.create input now) w = (create_requirement h input now w).0
  step (Event.settled number answer at) w = settle h number answer at w

  unfoldable pub steps : List Event → Workflow → Workflow
  unfolding step
  steps [] w = w
  steps (e ∷ es) w = steps es (step e w)

abbrev pub no_drafts : Workflow
no_drafts = record { drafts = []; calls = []; next = 0 }
