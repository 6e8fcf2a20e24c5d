-- ===== src/Contracts.antt =====
-- shared/contracts.ts and main/core/types.ts: the configuration, the reply records and the state
-- file, field by field.
use lucky_tag.Common.{ℕ, Bool, Option, List}
use lucky_tag.Text.{Text}

pub data ReplyStatus : Type 0 where
  pending sending sent ignored needs_manual recalled dry_run failed : ReplyStatus

pub ReplyStatus-discrete : Discrete ReplyStatus
ReplyStatus-discrete = hlevel

pub record AllowlistedGroup : Type 0 where
  pub id : Text
  pub label : Text
  pub enabled : Bool

pub data KnowledgeSource : Type 0 where
  local_directory : (id label path : Text) (enabled : Bool) → KnowledgeSource
  sample_library_doc : (id label route_or_url : Text) (enabled : Bool) → KnowledgeSource
  sample_library_book : (id label namespace : Text) (enabled : Bool) → KnowledgeSource

-- `confidenceThreshold` and every score are finite floats that are at least 0; the number here
-- counts units of 2^-1074, of which each such float is a whole multiple.
pub record ReplyPolicy : Type 0 where
  pub enabled : Bool
  pub dry_run : Bool
  pub poll_interval_seconds : ℕ
  pub lookback_minutes : ℕ
  pub confidence_threshold : ℕ
  pub max_reply_length : ℕ
  pub max_replies_per_hour : ℕ
  pub follow_up_hours : ℕ
  pub mark_existing_ignored : Bool

pub data AgentRuntimeKind : Type 0 where
  codex claude_code : AgentRuntimeKind

pub data AgentConfigurationMode : Type 0 where
  runtime_default custom_model : AgentConfigurationMode

pub data AgentModelProtocol : Type 0 where
  openai_responses anthropic_messages : AgentModelProtocol

pub data AgentProviderId : Type 0 where
  openai anthropic sample_cloud openrouter azure_openai aws_bedrock ollama custom : AgentProviderId

-- `unauthenticated` is spelled 'none' in the source.
pub data AgentAuthenticationKind : Type 0 where
  api_key unauthenticated : AgentAuthenticationKind

pub record AgentModelConfiguration : Type 0 where
  pub provider : AgentProviderId
  pub protocol : AgentModelProtocol
  pub authentication : AgentAuthenticationKind
  pub name : Text
  pub base_url : Text
  pub api_key_configured : Bool

pub record AgentConfiguration : Type 0 where
  pub enabled : Bool
  pub runtime : AgentRuntimeKind
  pub mode : AgentConfigurationMode
  pub model : AgentModelConfiguration

pub record AppConfig : Type 0 where
  pub onboarding_complete : Bool
  pub groups : List AllowlistedGroup
  pub knowledge_sources : List KnowledgeSource
  pub reply_policy : ReplyPolicy
  pub agent : AgentConfiguration

pub record ReplyEvidence : Type 0 where
  pub document_id : Text
  pub title : Text
  pub source_label : Text
  pub excerpt : Text
  pub score : ℕ

-- `PersistedReplyRecord`, with the fields of the `ReplyRecord` that it extends.
pub record ReplyRecord : Type 0 where
  pub id : Text
  pub message_id : Text
  pub group_id : Text
  pub group_label : Text
  pub sender_label : Option Text
  pub question : Text
  pub reply : Option Text
  pub status : ReplyStatus
  pub reason : Option Text
  pub created_at : Text
  pub updated_at : Text
  pub evidence : List ReplyEvidence
  pub lease_expires_at : Option Text
  pub platform_task_id : Option Text
  pub attempt_count : ℕ
  pub idempotency_uuid : Text
  pub sender_id : Option Text
  pub follow_up_closed_at : Option Text
  pub follow_up_close_reason : Option Text

pub record RuntimeStatus : Type 0 where
  pub running : Bool
  pub processing : Bool
  pub last_run_at : Option Text
  pub next_run_at : Option Text
  pub last_error : Option Text
  pub instance_id : Text

pub record CoreStateFile : Type 0 where
  pub initialized_groups : List Text
  pub replies : List ReplyRecord
  pub runtime : RuntimeStatus

pub record RunSummary : Type 0 where
  pub started_at : Text
  pub finished_at : Text
  pub discovered : ℕ
  pub sent : ℕ
  pub previews : ℕ
  pub ignored : ℕ
  pub needs_manual : ℕ
  pub recalled : ℕ
  pub failed : ℕ
  pub note : Option Text

pub record DemoMessageMessage : Type 0 where
  pub id : Text
  pub group_id : Text
  pub text : Text
  pub created_at : Text
  pub recalled : Bool
  pub is_self : Bool
  pub sender_id : Option Text
  pub sender_label : Option Text

pub record DemoMessageMentionPage : Type 0 where
  pub messages : List DemoMessageMessage
  pub has_more : Bool
  pub next_cursor : Option Text

pub record DemoMessageSendResult : Type 0 where
  pub platform_task_id : Option Text
  pub message_id : Option Text
  pub deduplicated : Bool
