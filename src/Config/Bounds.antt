-- ===== src/Config/Bounds.antt =====
-- What an accepted configuration is.
use lucky_tag.Common.{ℕ, ◌≤◌, ◌≡◌, refl, Bool, true, arith, length}
use lucky_tag.Config.App.{
  is_app_config, is_reply_policy, is_list_of, all_distinct, ids_of, is_group,
}
use lucky_tag.Config.Value.{Value, Values, Number, Url, get, is_integer_within, is_knowledge_source}
use lucky_tag.Common.{Option}
use lucky_tag.Text.{Text, distinct}

-- A whole number within bounds.
pub record IsWithin (low high : ℕ) (v : Value) : Type 0 where
  pub size : ℕ
  pub is_whole : v ≡ Value.number (Number.whole size)
  pub at_least : low ≤ size
  pub at_most : size ≤ high

-- The entries of an array, at most 100, with distinct ids.
pub record IsShortList (v : Value) : Type 0 where
  pub entries : Values
  pub is_array : v ≡ Value.array entries
  pub few : length (ids_of entries) ≤ 100
  pub distinct_ids : length (distinct (ids_of entries)) ≡ length (ids_of entries)

pub record IsBounded (v : Value) : Type 0 where
  pub groups : IsShortList (get "groups" v)
  pub knowledge_sources : IsShortList (get "knowledgeSources" v)
  pub poll : IsWithin 60 3600 (get "pollIntervalSeconds" (get "replyPolicy" v))
  pub lookback : IsWithin 1 1440 (get "lookbackMinutes" (get "replyPolicy" v))
  pub reply_length : IsWithin 100 4000 (get "maxReplyLength" (get "replyPolicy" v))
  pub replies : IsWithin 1 100 (get "maxRepliesPerHour" (get "replyPolicy" v))
  pub follow_up : IsWithin 1 24 (get "followUpHours" (get "replyPolicy" v))

IsWithin-of : (low high : ℕ) (v : Value) → is_integer_within low high v ≡ true → IsWithin low high v
unfolding is_integer_within
IsWithin-of low high (Value.number (Number.whole n)) h = record {
  size = n;
  is_whole = refl;
  at_least = ground (arith, h);
  at_most = ground (arith, h);
}
IsWithin-of low high v h = absurd (ground arith)

IsShortList-of : (test : Value → Bool) (v : Value) → is_list_of test v ≡ true → IsShortList v
unfolding is_list_of all_distinct
IsShortList-of test (Value.array vs) h = record {
  entries = vs;
  is_array = refl;
  few = ground (arith, h);
  distinct_ids = ground (arith, h);
}
IsShortList-of test v h = absurd (ground arith)

-- A value that `isAppConfig` accepts has at most 100 groups and at most 100 knowledge sources, each with
-- distinct ids, and the five whole numbers of its policy lie within their bounds.
pub is_app_config-IsBounded :
    (parse_url : Text → Option Url) (v : Value) → is_app_config parse_url v ≡ true → IsBounded v
unfolding is_app_config is_reply_policy
is_app_config-IsBounded parse_url v h = record {
  groups = IsShortList-of is_group _ (ground (arith, h));
  knowledge_sources = IsShortList-of (is_knowledge_source parse_url) _ (ground (arith, h));
  poll = IsWithin-of 60 3600 _ (ground (arith, h));
  lookback = IsWithin-of 1 1440 _ (ground (arith, h));
  reply_length = IsWithin-of 100 4000 _ (ground (arith, h));
  replies = IsWithin-of 1 100 _ (ground (arith, h));
  follow_up = IsWithin-of 1 24 _ (ground (arith, h));
}
