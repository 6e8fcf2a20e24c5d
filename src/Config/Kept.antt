-- ===== src/Config/Kept.antt =====
-- What a migration keeps.
use lucky_tag.Common.{
  ◌≡◌, refl, subst, sym, ap, ◌∙◌, true, false, ◌&&◌, Option, none, some, Bool-cases, inl, inr,
  arith,
}
use Prim.Native.String.{String}
use lucky_tag.Config.App.{is_app_config}
use lucky_tag.Config.Canonical.{IsCanonical, canonical_app_config-IsCanonical}
use lucky_tag.Config.Migrate.{
  is_version, set_field, with_field, canonical_app_config, if_valid, migrate_legacy_v1_config,
  with_runtime, migrate_legacy_v2_config, first_migrated, migrate_app_config,
}
use lucky_tag.Config.Value.{Value, Fields, Url, lookup, get, is_record}
use lucky_tag.Contracts.{AgentRuntimeKind}
use lucky_tag.Text.{Text, lit, text_eq, text_eq_iff}
use lucky_tag.Worker.Effects.{ok, err}

lookup-set_field :
    (key other : Text) (u : Value) (fields : Fields)
    → text_eq other key ≡ false
    → lookup key (set_field other u fields) ≡ lookup key fields
unfolding lookup set_field
lookup-set_field key other u Fields.empty apart = rw apart refl
lookup-set_field key other u (Fields.field k v fields) apart = elim (Bool-cases (text_eq k other)) [
  | inl e ↦ let same = (text_eq_iff k other).0 e in ground (arith, apart, same, e)
  | inr e ↦ ground (arith, e, lookup-set_field key other u fields apart)
]

get-with_field :
    (key other : String) (u v : Value)
    → text_eq (lit other) (lit key) ≡ false
    → get key (with_field other u v) ≡ get key v
unfolding get with_field
get-with_field key other u (Value.object fields) apart =
    lookup-set_field (lit key) (lit other) u fields apart
get-with_field key other u Value.undefined apart = refl
get-with_field key other u Value.null apart = refl
get-with_field key other u (Value.boolean b) apart = refl
get-with_field key other u (Value.number n) apart = refl
get-with_field key other u (Value.string t) apart = refl
get-with_field key other u (Value.array vs) apart = refl

-- `migrated` is accepted, and has the policy, the groups and the sources of `v`; `c` keeps what it holds.
pub record IsMigrated (parse_url : Text → Option Url) (v c : Value) : Type 0 where
  pub migrated : Value
  pub accepted : is_app_config parse_url migrated ≡ true
  pub canonical : IsCanonical migrated c
  pub policy : get "replyPolicy" migrated ≡ get "replyPolicy" v
  pub groups : get "groups" migrated ≡ get "groups" v
  pub knowledge_sources : get "knowledgeSources" migrated ≡ get "knowledgeSources" v

equal_form-IsCanonical : (m : Value) {c : Value} → c ≡ canonical_app_config m → IsCanonical m c
equal_form-IsCanonical m e = subst (IsCanonical m) (sym e) (canonical_app_config-IsCanonical m)

valid_of :
    (parse_url : Text → Option Url) (m n : Value)
    → if_valid parse_url n ≡ some m
    → (is_app_config parse_url n ≡ true) × (m ≡ n)
valid_of parse_url m n e = elim (Bool-cases (is_app_config parse_url n)) [
  | inl good ↦ (good, ground (arith, e, good))
  | inr bad ↦ absurd (ground (arith, e, bad))
]

ok_injective : {x y : Value} → ok x ≡ ok y → x ≡ y
ok_injective h = cc

not_ok : {message : Text} {x : Value} → err message ≡ ok x → ⊥
not_ok h = cc

module _ (parse_url : Text → Option Url) (v c : Value) where
  renewed-IsMigrated :
      (agent version m : Value)
      → if_valid parse_url (with_field "agent" agent (with_field "version" version v)) ≡ some m
      → c ≡ canonical_app_config m
      → IsMigrated parse_url v c
  unfolding text_eq lit
  renewed-IsMigrated agent version m e canonical =
      let (good, same) = valid_of parse_url m _ e in
      record {
        migrated = with_field "agent" agent (with_field "version" version v);
        accepted = good;
        canonical = equal_form-IsCanonical _ (canonical ∙ ap canonical_app_config same);
        policy =
            get-with_field "replyPolicy" "agent" _ _ refl
            ∙ get-with_field "replyPolicy" "version" _ _ refl;
        groups =
            get-with_field "groups" "agent" _ _ refl ∙ get-with_field "groups" "version" _ _ refl;
        knowledge_sources =
            get-with_field "knowledgeSources" "agent" _ _ refl
            ∙ get-with_field "knowledgeSources" "version" _ _ refl;
      }

  version_1-IsMigrated :
      (m : Value)
      → migrate_legacy_v1_config parse_url v ≡ some m
      → c ≡ canonical_app_config m
      → IsMigrated parse_url v c
  unfolding migrate_legacy_v1_config
  version_1-IsMigrated m e canonical =
      elim (Bool-cases (is_record v && is_version 1 (get "version" v))) [
        | inl fits ↦ renewed-IsMigrated _ _ m (rw fits at e) canonical
        | inr other ↦ absurd (ground (arith, e, other))
      ]

  known_runtime-IsMigrated :
      (runtime : Option AgentRuntimeKind) (m : Value)
      → with_runtime parse_url v runtime ≡ some m
      → c ≡ canonical_app_config m
      → IsMigrated parse_url v c
  known_runtime-IsMigrated none m e canonical = absurd (cc)
  known_runtime-IsMigrated (some runtime) m e canonical = renewed-IsMigrated _ _ m e canonical

  version_2-IsMigrated :
      (m : Value)
      → migrate_legacy_v2_config parse_url v ≡ some m
      → c ≡ canonical_app_config m
      → IsMigrated parse_url v c
  unfolding migrate_legacy_v2_config
  version_2-IsMigrated m e canonical =
      elim (Bool-cases (
        is_record v
        && is_version 2 (get "version" v)
        && is_record (get "agent" v)
        && is_record (get "model" (get "agent" v)))) [
          | inl fits ↦ known_runtime-IsMigrated _ m (rw fits at e) canonical
          | inr other ↦ absurd (ground (arith, e, other))
        ]

  first_migrated-IsMigrated :
      (first second : Option Value)
      → migrate_legacy_v1_config parse_url v ≡ first
      → migrate_legacy_v2_config parse_url v ≡ second
      → first_migrated parse_url first second ≡ ok c
      → IsMigrated parse_url v c
  first_migrated-IsMigrated (some m) second first_is second_is e =
      version_1-IsMigrated m first_is (sym (ok_injective e))
  first_migrated-IsMigrated none (some m) first_is second_is e =
      version_2-IsMigrated m second_is (sym (ok_injective e))
  first_migrated-IsMigrated none none first_is second_is e = absurd (not_ok e)

-- What `migrateAppConfig` returns is of version 3, and has every field of the reply policy, of each group and of each
-- knowledge source, in their order, as the value it was given has it, and the fields of the agent as they
-- are in an accepted configuration with that policy, those groups and those sources.
pub migrate_app_config-IsMigrated :
    (parse_url : Text → Option Url) (v c : Value)
    → migrate_app_config parse_url v ≡ ok c
    → IsMigrated parse_url v c
unfolding migrate_app_config
migrate_app_config-IsMigrated parse_url v c e = elim (Bool-cases (is_app_config parse_url v)) [
  | inl good ↦ record {
    migrated = v;
    accepted = good;
    canonical = equal_form-IsCanonical v (sym (ok_injective (rw good at e)));
    policy = refl;
    groups = refl;
    knowledge_sources = refl;
  }
  | inr bad ↦ first_migrated-IsMigrated parse_url v c _ _ refl refl (rw bad at e)
]
