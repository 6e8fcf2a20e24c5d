-- ===== src/Config/Canonical.antt =====
-- What `canonicalAppConfig` keeps.
use lucky_tag.Common.{◌≡◌, refl, true, false, List, [], ◌∷◌, All, Bool-cases, inl, inr}
use Prim.Native.String.{String}
use lucky_tag.Config.Migrate.{
  pick, map_items, canonical_source, canonical_group, canonical_policy, canonical_model,
  canonical_agent, canonical_app_config,
}
use lucky_tag.Config.Value.{Value, Values, Number, get, lookup, is_literal}
use lucky_tag.Text.{lit, text_eq}

-- Two values agree under each of some keys.
abbrev pub Agree : List String → Value → Value → Type 0
Agree keys u v = All (λ key. get key v ≡ get key u) keys

-- Two lists of one length, with related items
unfoldable pub Pairwise : (Value → Value → Type 0) → Values → Values → Type 0
Pairwise R Values.nil Values.nil = Unit {0}
Pairwise R (Values.cons u us) (Values.cons v vs) = R u v × Pairwise R us vs
Pairwise R _ _ = ⊥

unfoldable pub EachItem : (Value → Value → Type 0) → Value → Value → Type 0
unfolding Pairwise
EachItem R (Value.array us) (Value.array vs) = Pairwise R us vs
EachItem R u v = v ≡ u

-- A source is kept with what its type asks for.
pub record SameSource (u v : Value) : Type 0 where
  pub common : Agree ("id" ∷ "type" ∷ "label" ∷ "enabled" ∷ []) u v
  pub path : is_literal "local-directory" (get "type" u) ≡ true → get "path" v ≡ get "path" u
  pub route :
      is_literal "local-directory" (get "type" u) ≡ false
      → is_literal "sampleLibrary-doc" (get "type" u) ≡ true
      → get "routeOrUrl" v ≡ get "routeOrUrl" u
  pub namespace :
      is_literal "local-directory" (get "type" u) ≡ false
      → is_literal "sampleLibrary-doc" (get "type" u) ≡ false
      → get "namespace" v ≡ get "namespace" u

-- A configuration of version 3 with all that the application reads of another one.
pub record IsCanonical (u v : Value) : Type 0 where
  pub version : get "version" v ≡ Value.number (Number.whole 3)
  pub onboarding : get "onboardingComplete" v ≡ get "onboardingComplete" u
  pub groups : EachItem (Agree ("id" ∷ "label" ∷ "enabled" ∷ [])) (get "groups" u) (get "groups" v)
  pub sources : EachItem SameSource (get "knowledgeSources" u) (get "knowledgeSources" v)
  pub policy :
      Agree
        ("enabled" ∷ "dryRun" ∷ "pollIntervalSeconds" ∷ "lookbackMinutes" ∷ "confidenceThreshold"
          ∷ "maxReplyLength" ∷ "maxRepliesPerHour" ∷ "followUpHours" ∷ "markExistingIgnored" ∷ [])
        (get "replyPolicy" u)
        (get "replyPolicy" v)
  pub agent : Agree ("enabled" ∷ "runtime" ∷ "mode" ∷ []) (get "agent" u) (get "agent" v)
  pub model :
      Agree
        ("provider" ∷ "protocol" ∷ "authentication" ∷ "name" ∷ "baseUrl" ∷ "apiKeyConfigured" ∷ [])
        (get "model" (get "agent" u))
        (get "model" (get "agent" v))

module _ (R : Value → Value → Type 0) (f : Value → Value) (each : (u : Value) → R u (f u)) where
  array-EachItem : (us : Values) → EachItem R (Value.array us) (map_items f (Value.array us))
  unfolding EachItem map_items
  array-EachItem Values.nil = tt
  array-EachItem (Values.cons u us) = (each u, array-EachItem us)

  map_items-EachItem : (u : Value) → EachItem R u (map_items f u)
  unfolding EachItem map_items
  map_items-EachItem (Value.array us) = array-EachItem us
  map_items-EachItem Value.undefined = refl
  map_items-EachItem Value.null = refl
  map_items-EachItem (Value.boolean b) = refl
  map_items-EachItem (Value.number n) = refl
  map_items-EachItem (Value.string t) = refl
  map_items-EachItem (Value.object fs) = refl

canonical_group-Agree : (u : Value) → Agree ("id" ∷ "label" ∷ "enabled" ∷ []) u (canonical_group u)
unfolding canonical_group pick get lookup text_eq lit
canonical_group-Agree u = (refl, (refl, (refl, tt)))

canonical_source-SameSource : (u : Value) → SameSource u (canonical_source u)
unfolding canonical_source pick get lookup text_eq lit
canonical_source-SameSource u = elim (Bool-cases (is_literal "local-directory" (get "type" u))) [
  | inl local ↦ rw local (record {
    common = (refl, (refl, (refl, (refl, tt))));
    path = λ _. refl;
    route = λ other. absurd (cc (local, other));
    namespace = λ other. absurd (cc (local, other));
  })
  | inr remote ↦ elim (Bool-cases (is_literal "sampleLibrary-doc" (get "type" u))) [
    | inl doc ↦
        rw (remote, doc)
          (record {
            common = (refl, (refl, (refl, (refl, tt))));
            path = λ local. absurd (cc (remote, local));
            route = λ _ _. refl;
            namespace = λ _ other. absurd (cc (doc, other));
          })
    | inr book ↦
        rw (remote, book)
          (record {
            common = (refl, (refl, (refl, (refl, tt))));
            path = λ local. absurd (cc (remote, local));
            route = λ _ doc. absurd (cc (book, doc));
            namespace = λ _ _. refl;
          })
  ]
]

pub canonical_app_config-IsCanonical : (u : Value) → IsCanonical u (canonical_app_config u)
unfolding canonical_app_config canonical_policy canonical_agent canonical_model pick get lookup
    text_eq lit
canonical_app_config-IsCanonical u = record {
  version = refl;
  onboarding = refl;
  groups = map_items-EachItem _ canonical_group canonical_group-Agree (get "groups" u);
  sources =
      map_items-EachItem SameSource canonical_source canonical_source-SameSource
        (get "knowledgeSources" u);
  policy = (refl, (refl, (refl, (refl, (refl, (refl, (refl, (refl, (refl, tt)))))))));
  agent = (refl, (refl, (refl, tt)));
  model = (refl, (refl, (refl, (refl, (refl, (refl, tt))))));
}
