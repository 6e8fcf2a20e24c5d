-- ===== src/Worker/Sample.antt =====
-- A concrete platform and environment, for the tests: instant `t` is written as the one unit `t`, and
-- every call leaves the clock one millisecond later.
use lucky_tag.Common.{
  ℕ, ◌+◌, ◌≡◌, refl, true, false, Option, none, some, List, [], ◌∷◌, Ordering, ltb, leb,
  if◌then◌else◌, arith,
}
use lucky_tag.Contracts.{
  AllowlistedGroup, AppConfig, ReplyPolicy, AgentConfiguration, codex, runtime_default, openai,
  openai_responses, api_key, ReplyEvidence, ReplyRecord, RuntimeStatus, DemoMessageMessage,
}
use lucky_tag.Host.{Host, IsHost, locale_le, epoch}
use lucky_tag.Text.{Text}
use lucky_tag.Worker.Effects.{ok, Options, World}
use lucky_tag.Worker.Records.{create_reply_record}

abbrev parse_one : Text → Option ℕ
parse_one (t ∷ []) = some t
parse_one _ = none

abbrev rank : Text → ℕ
rank [] = 0
rank (c ∷ s) = c

abbrev compare_ranks : ℕ → ℕ → Ordering
compare_ranks m n = if ltb m n then Ordering.lt else (if ltb n m then Ordering.gt else Ordering.eq)

abbrev pub host : Host
host = record {
  parse_date = parse_one;
  to_iso = λ t. t ∷ [];
  locale_compare = λ s t. compare_ranks (rank s) (rank t);
  to_fixed3 = λ score. score ∷ [];
  sha256 = λ text. 1 ∷ 2 ∷ 3 ∷ 4 ∷ 5 ∷ 6 ∷ 7 ∷ 8 ∷ 9 ∷ 10 ∷ 11 ∷ 12 ∷ 13 ∷ 14 ∷ 15 ∷ 16 ∷ text;
}

locale_le-leb : (s t : Text) → locale_le host s t ≡ leb (rank s) (rank t)
locale_le-leb s t = ground arith

pub host-IsHost : IsHost host
host-IsHost = record {
  parse-iso = λ t. refl;
  locale_total = λ s t. ground (arith, locale_le-leb s t, locale_le-leb t s);
  locale_trans =
      λ s t u a b. ground (arith, locale_le-leb s t, locale_le-leb t u, locale_le-leb s u, a, b);
}

abbrev pub group : AllowlistedGroup
group = record { id = 103 ∷ []; label = 71 ∷ []; enabled = true }

abbrev pub policy : ReplyPolicy
policy = record {
  enabled = true;
  dry_run = false;
  poll_interval_seconds = 300;
  lookback_minutes = 60;
  confidence_threshold = 5;
  max_reply_length = 400;
  max_replies_per_hour = 10;
  follow_up_hours = 24;
  mark_existing_ignored = false;
}

abbrev agent : AgentConfiguration
agent = record {
  enabled = false;
  runtime = codex;
  mode = runtime_default;
  model = record {
    provider = openai;
    protocol = openai_responses;
    authentication = api_key;
    name = [];
    base_url = [];
    api_key_configured = false;
  };
}

abbrev pub config : AppConfig
config = record {
  onboarding_complete = true;
  groups = group ∷ [];
  knowledge_sources = [];
  reply_policy = policy;
  agent = agent;
}

abbrev pub start_time : ℕ
start_time = epoch + 100000000

abbrev pub mention : DemoMessageMessage
mention = record {
  id = 109 ∷ [];
  group_id = group.id;
  text = 113 ∷ 63 ∷ [];
  created_at = start_time ∷ [];
  recalled = false;
  is_self = false;
  sender_id = some (115 ∷ []);
  sender_label = none;
}

abbrev evidence : List ReplyEvidence
evidence =
    record {
      document_id = 100 ∷ [];
      title = 116 ∷ [];
      source_label = 108 ∷ [];
      excerpt = 97 ∷ 98 ∷ [];
      score = 9;
    }
    ∷ []

-- Every call succeeds and nothing interferes.
abbrev pub options : Options
options = record {
  host = host;
  get_config = λ k. ok config;
  get_current_config = some (λ k. config);
  search = λ k question limit. evidence;
  now = λ k. start_time + k;
  instance_id = 105 ∷ [];
  interfere = λ k state. state;
  store_fault = λ k. none;
  list_mentions =
      λ k input. ok (record { messages = mention ∷ []; has_more = false; next_cursor = none });
  list_conversation_messages = λ k input. ok (mention ∷ []);
  send_message =
      λ k input. ok (record { deduplicated = false; platform_task_id = none; message_id = none });
}

abbrev pub runtime : RuntimeStatus
runtime = record {
  running = false;
  processing = false;
  last_run_at = none;
  next_run_at = none;
  last_error = none;
  instance_id = 105 ∷ [];
}

abbrev pub world_of : List ReplyRecord → World
world_of replies = record {
  state = record { initialized_groups = []; replies = replies; runtime = runtime };
  tick = 0;
  sends = [];
  allowlist = [];
  updates = 0;
  timer = none;
  initialized = false;
  spawned = 0;
  counters = record {
    discovered = 0;
    sent = 0;
    previews = 0;
    ignored = 0;
    needs_manual = 0;
    recalled = 0;
    failed = 0;
  };
  notes = [];
}

abbrev pub pending_record : ReplyRecord
pending_record = create_reply_record host mention group start_time
