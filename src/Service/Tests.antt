-- ===== src/Service/Tests.antt =====
-- A snapshot with a source that is no longer allowed, a reset of one group, and a late answer.
use lucky_tag.Common.{
  ℕ, zero, suc, ◌≡◌, refl, sym, ap, ◌∙◌, ◌↔◌, Bool, false, ◌==◌, none, some, List, [], ◌∷◌, count,
  map, if◌then◌else◌, All,
}
use lucky_tag.Contracts.{KnowledgeSource, CoreStateFile}
use lucky_tag.Knowledge.{KnowledgeSnapshotFile, empty_knowledge_snapshot}
use lucky_tag.Knowledge.Sync.{SyncClient}
use lucky_tag.Service.Connections.{
  ConnectionKind, ConnectionState, ConnectionStatus, Connections, Event, initial_connections,
  kind_eq, step, steps,
}
use lucky_tag.Service.Connections.Stale.{generation, begins, answered-steps}
use lucky_tag.Service.Reset.{reset_groups}
use lucky_tag.Service.Reset.Safe.{IsFinishedIn, reset_groups-Versions}
use lucky_tag.Service.Save
use lucky_tag.Service.Save.{SaveOptions, save_config, sync_knowledge}
use lucky_tag.Service.Save.Synced.{sync_knowledge-IsSafe}
use lucky_tag.Service.Save.Views.{IsSafe, save_config-IsSafe}
use lucky_tag.Service.Selection.{select_knowledge_sources, is_pruned}
use lucky_tag.Service.Selection.Allowed.{IsAllowed, is_pruned-select_knowledge_sources}
use lucky_tag.Storage.Sample.{flag}
use lucky_tag.Storage.Sample.Encoding.{Codec, number, text, list, via, ◌⊗◌}
use lucky_tag.Text.{Text, member}
use lucky_tag.Worker.Effects.{ok, err}
use lucky_tag.Worker.Records.Transitions.{Versions}
use lucky_tag.Worker.Sample.{host, pending_record, config}
use mathlib.Core.List.{Memᴰ}

abbrev snapshot : KnowledgeSnapshotFile
snapshot = record empty_knowledge_snapshot {
  documents =
      record {
        id = 1 ∷ [];
        source_id = 2 ∷ [];
        source_label = [];
        title = [];
        origin = [];
        body = [];
        hash = [];
        updated_at = none;
      }
      ∷ [];
}

is_pruned-select_knowledge_sources_example :
    ((is_pruned snapshot (select_knowledge_sources snapshot ((3 ∷ []) ∷ [])) ≡ false)
      ↔ (select_knowledge_sources snapshot ((3 ∷ []) ∷ []) ≡ snapshot))
    × IsAllowed ((3 ∷ []) ∷ []) (select_knowledge_sources snapshot ((3 ∷ []) ∷ []))
is_pruned-select_knowledge_sources_example =
    is_pruned-select_knowledge_sources snapshot ((3 ∷ []) ∷ [])

abbrev state : CoreStateFile
state = record {
  initialized_groups = (103 ∷ []) ∷ [];
  replies = pending_record ∷ [];
  runtime = record {
    running = false;
    processing = false;
    last_run_at = none;
    next_run_at = none;
    last_error = none;
    instance_id = [];
  };
}

abbrev groups : List Text
groups = (103 ∷ []) ∷ []

abbrev clock : ℕ → Text
clock n = n ∷ []

reset_groups-Versions_example :
    Versions state.replies (reset_groups groups clock state).replies
    × All (IsFinishedIn groups) (reset_groups groups clock state).replies
    × ((id : Text)
        → Memᴰ id (reset_groups groups clock state).initialized_groups
          ↔ (Memᴰ id state.initialized_groups × (member id groups ≡ false)))
reset_groups-Versions_example = reset_groups-Versions groups clock state

abbrev answer : ConnectionStatus
answer = record {
  kind = ConnectionKind.sampleauth;
  state = ConnectionState.connected;
  label = [];
  detail = [];
  checked_at = none;
  version = none;
}

abbrev connections : Connections
unfolding initial_connections
connections = record {
  statuses = initial_connections;
  generations = record { sample_messaging = 0; sample_library = 0; sampleauth = 1 };
}

answered-steps_example :
    step
      (Event.answered (generation ConnectionKind.sampleauth connections) answer)
      (steps (Event.probe_started [] ∷ []) connections)
    ≡ (if count (begins ConnectionKind.sampleauth) (Event.probe_started [] ∷ []) == 0
        then record (steps (Event.probe_started [] ∷ []) connections) {
          statuses =
              map
                (λ c. if kind_eq c.kind answer.kind then answer else c)
                (steps (Event.probe_started [] ∷ []) connections).statuses;
        }
        else steps (Event.probe_started [] ∷ []) connections)
answered-steps_example = answered-steps answer (Event.probe_started [] ∷ []) connections refl

abbrev SourceParts : Type 0
SourceParts = ℕ × (Text × (Text × (Text × Bool)))

abbrev source_to : KnowledgeSource → SourceParts
source_to (KnowledgeSource.local_directory id label path enabled) =
    (0, (id, (label, (path, enabled))))
source_to (KnowledgeSource.sample_library_doc id label route enabled) =
    (1, (id, (label, (route, enabled))))
source_to (KnowledgeSource.sample_library_book id label name enabled) =
    (2, (id, (label, (name, enabled))))

abbrev source_from : SourceParts → KnowledgeSource
source_from (zero, (id, (label, (path, enabled)))) =
    KnowledgeSource.local_directory id label path enabled
source_from (suc zero, (id, (label, (route, enabled)))) =
    KnowledgeSource.sample_library_doc id label route enabled
source_from (suc (suc n), (id, (label, (name, enabled)))) =
    KnowledgeSource.sample_library_book id label name enabled

source_back : (s : KnowledgeSource) → source_from (source_to s) ≡ s
source_back (KnowledgeSource.local_directory id label path enabled) = refl
source_back (KnowledgeSource.sample_library_doc id label route enabled) = refl
source_back (KnowledgeSource.sample_library_book id label name enabled) = refl

abbrev sources : Codec (List KnowledgeSource)
sources = list (via source_to source_from source_back (number ⊗ (text ⊗ (text ⊗ (text ⊗ flag)))))

encode_sources-injective :
    (xs ys : List KnowledgeSource) → sources.encode xs [] ≡ sources.encode ys [] → xs ≡ ys
encode_sources-injective xs ys e =
    let read =
      sym (sources.decode-encode xs [])
      ∙ ap (λ t. sources.decode t) e
      ∙ sources.decode-encode ys [] in
    cc (read)

abbrev save_options : SaveOptions
save_options = record {
  others = λ n w. w;
  fault = λ n. if n == 2 then some (9 ∷ []) else none;
  time_at = λ n k. k ∷ [];
  stringify_sources = λ xs. sources.encode xs [];
}

abbrev world : Save.World
world = record {
  config = config;
  state = state;
  knowledge = snapshot;
  view = record { current_config = config; index = empty_knowledge_snapshot };
  allowlist = [];
  stops = 0;
  reschedules = 0;
  views = [];
  tick = 0;
}

world-IsSafe : IsSafe world
world-IsSafe = (
  tt,
  record {
    documents = λ d m. elim m [ ];
    chunks = λ d m. elim m [ ];
    source_errors = λ e m. elim m [ ];
  },
)

save_config-IsSafe_example : IsSafe (save_config save_options (ok config) world).1
save_config-IsSafe_example =
    save_config-IsSafe save_options (λ n w. (refl, refl, refl)) encode_sources-injective (ok config)
      world world-IsSafe refl

abbrev client : SyncClient
client = record {
  host = host;
  resolve = λ n input. err (7 ∷ []);
  list_documents = λ n namespace. err (8 ∷ []);
  show_document = λ n calls route. err (9 ∷ []);
  read_local_directory = λ n id label path. ok snapshot.documents;
}

sync_knowledge-IsSafe_example : IsSafe (sync_knowledge save_options client (λ n. n ∷ []) world).1
sync_knowledge-IsSafe_example =
    sync_knowledge-IsSafe save_options (λ n w. (refl, refl, refl)) client (λ n. n ∷ []) world
      world-IsSafe refl
