-- ===== src/Requirements/Preview.antt =====
-- main/core/demoWorkflow-requirement.ts: `previewRequirement`, up to where it stores the draft, and
-- `extractTemplateRecordId` of main/core/demoWorkflow-adapter.ts. The gateway and the reader of the chat are
-- interfaces of the source.
pub mod New
use lucky_tag.Common.{
  ℕ, ◌+◌, ◌-◌, ◌*◌, Bool, true, false, not, ◌&&◌, ◌||◌, Option, none, some, List, [], ◌∷◌, ◌++◌,
  map, leb, if◌then◌else◌, length, every,
}
use lucky_tag.Act.{and_then}
use lucky_tag.Contracts.{DemoMessageMessage}
use lucky_tag.Host.{Host}
use lucky_tag.Requirements.{
  Platform, ChatWindow, Template, Cycle, RequirementInput, RequirementPreview, RequirementResult,
  hour_ms, day_ms,
}
use lucky_tag.Requirements.Generate.{Generated, generate_requirement_draft}
use lucky_tag.Text.{Text, lit, text_eq, is_empty}
use lucky_tag.Worker.Effects.{Result, ok, err}

-- What the source reads of `new URL(value)`; `query` is `url.searchParams.get`.
pub record TemplateUrl : Type 0 where
  pub protocol : Text
  pub hostname : Text
  pub query : Text → Option Text

pub record Named : Type 0 where
  pub id : Text
  pub name : Text

-- `RequirementChatReader` and `DemoWorkflowGateway`, with what they answer to one preview. Of two calls made
-- at once that both fail, `earlier` gives the error that comes first.
pub record Gateway : Type 0 where
  pub parse_url : Text → Option TemplateUrl
  pub find_group_by_name : Text → Result Named
  pub get_template : Text → Result Template
  pub resolve_space : Text → Result Named
  pub read_messages : Text → ℕ → ℕ → Result (List DemoMessageMessage)
  pub resolve_cycle : Text → Text → Result Cycle
  pub earlier : Text → Text → Text

-- `PendingDraft`; a call under way is known by its number.
pub record Draft : Type 0 where
  pub preview : RequirementPreview
  pub template : Template
  pub cycle : Option Cycle
  pub result : Option RequirementResult
  pub in_flight : Option ℕ

-- `await Promise.all([left, right])`
abbrev pub all_of : {A B : Type 0} → (Text → Text → Text) → Result A → Result B → Result (A × B)
all_of earlier (ok a) (ok b) = ok (a, b)
all_of earlier (ok a) (err f) = err f
all_of earlier (err e) (ok b) = err e
all_of earlier (err e) (err f) = err (earlier e f)

abbrev pub draft_ttl_ms : ℕ
draft_ttl_ms = 30 * 60 * 1000

unfoldable pub window_milliseconds : ChatWindow → ℕ
window_milliseconds ChatWindow.one_day = 24 * hour_ms
window_milliseconds ChatWindow.three_days = 3 * day_ms
window_milliseconds ChatWindow.seven_days = 7 * day_ms

-- `RECORD_ID_PATTERN`, /^\d{10,32}$/
unfoldable pub is_record_id : Text → Bool
unfolding every
is_record_id id = leb 10 (length id) && leb (length id) 32 && every (λ c. leb 48 c && leb c 57) id

abbrev first_of : Option Text → Option Text → Text
first_of (some id) other = id
first_of none (some id) = id
first_of none none = []

abbrev record_id_of : Option TemplateUrl → Result Text
record_id_of none = err (lit "DemoWorkflow 需求模板链接不合法")
record_id_of (some url) =
    let id = first_of (url.query (lit "templateRecordId")) (url.query (lit "recordId")) in
    if not (text_eq url.protocol (lit "https:"))
      || not (text_eq url.hostname (lit "workflow.example.invalid"))
      || not (is_record_id id)
    then err (lit "DemoWorkflow 需求模板链接缺少有效的 templateRecordId")
    else ok id

unfoldable pub extract_template_record_id : Gateway → Text → Result Text
unfolding is_record_id text_eq lit
extract_template_record_id g value = record_id_of (g.parse_url value)

abbrev pub cycle_of : Gateway → Text → Text → Result (Option Cycle)
cycle_of g project_id [] = ok none
cycle_of g project_id (c ∷ iteration) =
    and_then (g.resolve_cycle project_id (c ∷ iteration)) λ cycle. ok (some cycle)

abbrev no_messages : Text → Text
no_messages title = lit "群聊「" ++ (title ++ lit "」在所选周期内没有可分析的文本消息")

abbrev space_mismatch : Template → Named → Text
space_mismatch template space =
    lit "DemoWorkflow 模板属于空间 "
    ++ (template.project_name
        ++ (lit "（" ++ (template.project_id ++ (lit "），与目标空间 " ++ (space.id ++ lit " 不一致")))))

module _ (p : Platform) (h : Host) (g : Gateway) where
  -- The draft over what was generated.
  unfoldable pub draft_with :
      Text → ℕ → ℕ → Named → Template → Named → Option Cycle → ℕ → Generated → Draft
  unfolding text_eq
  draft_with draft_id now window_start group template space cycle message_count generated = record {
    preview = record {
      draft_id = draft_id;
      title = generated.title;
      description = generated.description;
      group_name = group.name;
      window_start = h.to_iso window_start;
      window_end = h.to_iso now;
      message_count = message_count;
      evidence = generated.evidence;
      project_id = space.id;
      project_name = if text_eq space.name space.id then template.project_name else space.name;
      template_record_id = template.record_id;
      template_title = template.title;
      processor = elim template.processor [ none ↦ none | some user ↦ some user.label ];
      members = map (λ member. member.label) template.members;
      cycle_id = elim cycle [ none ↦ none | some c ↦ some c.id ];
      cycle_name = elim cycle [ none ↦ none | some c ↦ some c.name ];
      expires_at = h.to_iso (now + draft_ttl_ms);
    };
    template = template;
    cycle = cycle;
    result = none;
    in_flight = none;
  }

  unfoldable pub draft_over :
      Text
      → ℕ
      → ℕ
      → Named
      → Template
      → Named
      → Option Cycle
      → List DemoMessageMessage
      → Result Draft
  unfolding generate_requirement_draft draft_with lit
  draft_over draft_id now window_start group template space cycle [] = err (no_messages group.name)
  draft_over draft_id now window_start group template space cycle (m ∷ messages) =
      and_then (generate_requirement_draft p h group.name window_start now (m ∷ messages))
        λ generated. ok (
          draft_with draft_id now window_start group template space cycle (length (m ∷ messages))
            generated)

  -- The messages and the cycle, once the group, the template and the space are known.
  unfoldable pub read_chat : RequirementInput → ℕ → Text → Named → Template → Named → Result Draft
  unfolding draft_over window_milliseconds text_eq lit
  read_chat input now draft_id group template space =
      let window_start : ℕ = now - window_milliseconds input.chat_window in
      if not (text_eq template.project_id space.id)
      then err (space_mismatch template space)
      else and_then
          (all_of g.earlier (g.read_messages group.id window_start now)
            (cycle_of g space.id input.iteration))
          λ read. draft_over draft_id now window_start group template space read.1 read.0

  unfoldable pub look_up : RequirementInput → ℕ → Text → Text → Result Draft
  unfolding read_chat
  look_up input now draft_id template_record_id =
      and_then
        (all_of g.earlier
          (all_of g.earlier (g.find_group_by_name input.group_name)
            (g.get_template template_record_id))
          (g.resolve_space input.demo_project))
        λ found. read_chat input now draft_id found.0.0 found.0.1 found.1

  -- `previewRequirement` after `removeExpiredDrafts`, up to `this.drafts.set`
  unfoldable pub preview_requirement : RequirementInput → ℕ → Text → Result Draft
  unfolding extract_template_record_id look_up
  preview_requirement input now draft_id =
      and_then (extract_template_record_id g input.template_url) (look_up input now draft_id)
