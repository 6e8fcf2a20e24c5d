-- ===== src/Requirements.antt =====
-- main/core/demoWorkflow-requirement.ts: requirements from a chat, with the types that it takes from
-- main/core/demoWorkflow-adapter.ts and shared/contracts.ts.
pub mod Generate
pub mod Preview
pub mod Drafts
mod Tests
use lucky_tag.Common.{ℕ, ◌*◌, Bool, Option, List}
use lucky_tag.Text.{Text}

-- The regular expressions of the source.
pub data Pattern : Type 0 where
  mention_tag link markup blanks : Pattern
  statement_end bullet request_prefix label_prefix trailing_marks white : Pattern
  subagent span_words token_words parent_span_id cron trigger_user attribution release : Pattern
  explicit_record action title_action problem technical_signal : Pattern

-- What JavaScript's regular expressions, `toLowerCase`, `Intl` and floating point give. A title's score is
-- a number of points less `excess / 30`.
pub record Platform : Type 0 where
  -- `pattern.test(text)`
  pub test : Pattern → Text → Bool
  -- `text.replace(pattern, substitute)`
  pub replace : Pattern → Text → Text → Text
  -- `text.split(pattern)`
  pub split : Pattern → Text → List Text
  pub to_lower_case : Text → Text
  -- `formatTime(instant)`
  pub format_time : ℕ → Text
  -- `right.score - left.score <= 0`, at the points and the excess of the left one and of the right one
  pub title_before : ℕ → ℕ → ℕ → ℕ → Bool

pub data ChatWindow : Type 0 where
  one_day three_days seven_days : ChatWindow

pub record TemplateUser : Type 0 where
  pub value : Text
  pub label : Text

pub record Template : Type 0 where
  pub record_id : Text
  pub title : Text
  pub project_id : Text
  pub project_name : Text
  pub record_type_id : Text
  pub priority_id : Option Text
  pub processor : Option TemplateUser
  pub members : List TemplateUser
  pub verifiers : List TemplateUser
  pub tags : List Text

pub record Cycle : Type 0 where
  pub id : Text
  pub name : Text
  pub project_id : Text

pub record CreateRequest : Type 0 where
  pub title : Text
  pub description : Text
  pub project_id : Text
  pub record_type_id : Text
  pub priority_id : Option Text
  pub processor : Option Text
  pub members : List Text
  pub verifiers : List Text
  pub tags : List Text
  pub cycle_id : Option Text

pub record CreatedRecord : Type 0 where
  pub record_id : Text
  pub url : Text

-- `DemoWorkflowRequirementInput`
pub record RequirementInput : Type 0 where
  pub group_name : Text
  pub chat_window : ChatWindow
  pub demo_project : Text
  pub iteration : Text
  pub template_url : Text

pub record RequirementEvidence : Type 0 where
  pub sent_at : Text
  pub sender : Text
  pub text : Text

pub record RequirementPreview : Type 0 where
  pub draft_id : Text
  pub title : Text
  pub description : Text
  pub group_name : Text
  pub window_start : Text
  pub window_end : Text
  pub message_count : ℕ
  pub evidence : List RequirementEvidence
  pub project_id : Text
  pub project_name : Text
  pub template_record_id : Text
  pub template_title : Text
  pub processor : Option Text
  pub members : List Text
  pub cycle_id : Option Text
  pub cycle_name : Option Text
  pub expires_at : Text

pub record RequirementCreateInput : Type 0 where
  pub draft_id : Text
  pub title : Text
  pub description : Text

pub record RequirementResult : Type 0 where
  pub record_id : Text
  pub title : Text
  pub url : Text
  pub project_id : Text
  pub cycle_id : Option Text
  pub created_at : Text

abbrev pub hour_ms : ℕ
hour_ms = 60 * 60 * 1000

abbrev pub day_ms : ℕ
day_ms = 24 * hour_ms
