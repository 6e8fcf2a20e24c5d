-- ===== src/Lib.antt =====
-- LuckyTag answers mentions in allowlisted chat groups from a local knowledge base. This library
-- models the parts that decide what is sent, stored and allowed. Paths are from the repository's root.
--
-- The reply engine, src/main/core/worker.ts, polls the enabled groups. For each mention it stores a
-- record, and `processRecord` takes a record from `pending` over `sending` to a terminal status. The
-- engine reads the configuration, the knowledge index and the conversation through callbacks, keeps its
-- records in a JSON store that src/main/core/sqlite-storage.ts implements, and hands a message to the
-- chat system under a key that stays the same over retries.
--
-- Common: Boolean tests, list lemmas, a stable sort (`Array.prototype.sort`).
-- Text: JavaScript strings as lists of UTF-16 code units; `trim`, `join`, equality, `Set` of texts.
-- Host: dates, collation, `toFixed` and SHA-256, given by the platform. An instant counts the
--   milliseconds since the earliest `Date`. IsHost states their documented laws: an ISO text parses to
--   its instant, and collation is a total preorder.
-- Contracts: the types of src/shared/contracts.ts and src/main/core/types.ts. Scores and the threshold
--   count units of 2^-1074, so that each finite float from 0 up is a natural number.
-- Retrieval: `composeKnowledgeReply` of src/main/core/retrieval.ts.
-- Worker.Effects: `WorkerEngineOptions` and the fields of `WorkerEngine` as a state monad with errors.
--   Each call that leaves the engine takes one tick, and what it returns may depend on the tick, so the
--   environment may answer every call differently; `interfere` is what others do to the stored state
--   between two accesses, `store_fault` an access that rejects. A send is recorded as an event.
-- Worker.Status: `isTerminal` and `assertTransition`. Worker.Trim: `trimReplies` and
--   `reservesHourlyReplyCapacity`, with a retention of 5000 finished records and a window of one hour.
-- Worker.Records: `createReplyRecord`, `stableUuid` and the map of `setStatus`. Worker.Store: the
--   operations on the stored state. Worker.Process: `processRecord`, in stages that end where the source
--   returns: Guards (its tests), First (up to the second look at the conversation), Final (up to the
--   claim) and Send (the claim, the last guards, the call and its `catch`).
-- Worker.Lifecycle: `initialize`, `start`, `stop`, `suspendForShutdown`, `reschedule`. Worker.Fetch:
--   `fetchMentions`. Worker.Run: `executeRun`; Worker.Run.Passes: `processRecoverableRecords` and
--   `processOpenFollowUps`.
-- Worker.Sends: which messages are sent: Quiet and Silent (what sends nothing), Gate (at most one
--   send), Authorised (what a message satisfies, with the tick of each reading), Delivery, Final, Stages and
--   Authority (`processRecord`), Passes and Whole (a run).
-- Act: errors as values and state passing with errors, for what follows.
-- Storage: src/main/core/sqlite-storage.ts: Merge and Conflict (`mergeReplyRecords`), Table (the rows of
--   `outbox` and their statements), Outbox (`syncOutboxUnlocked`, `readOutboxUnlocked`), Database
--   (transactions, documents, events), State (`SqliteCoreStateStore`, without the `migrate` that the
--   service does not give), Deliveries (`SqliteOutbox`). `JSON.stringify` and `JSON.parse` at the stored types, the order of rows, the
--   clock and the failures of BEGIN and COMMIT are given; IsJson states that a written text parses back.
-- Knowledge: src/main/core/knowledge-sync.ts: Clean (`normalizeText`), Chunks (`chunkDocument`), Documents
--   (`deduplicateDocuments`), Sync (`performSync`); reading a directory and the library's client are given.
-- Service: src/main/core/service.ts: Selection (what knowledge is active), Reset (what `saveConfig` does to
--   the stored state), Save (`saveConfig` and `syncKnowledge`, with what the engine sees at each wait), Connections
--   (generations of operations).
-- Requirements: src/main/core/demoWorkflow-requirement.ts: Generate (`generateRequirementDraft`), Preview
--   (`previewRequirement`, with `extractTemplateRecordId` of demoWorkflow-adapter.ts), Drafts (the drafts and
--   `createRequirement`; what runs between two waits is one event). Regular expressions are given.
-- Daemon: src/daemon/index.ts: Save (`saveAgentConfiguration`, `saveApplicationConfiguration`), over a keychain
--   and a service whose calls may fail before or after they take effect; one change runs at a time. Save/Live has
--   a sequence of such changes.
-- Agent: src/daemon/agent-runtime.ts: Specification (`executionSpecification`, `prepareRuntimeConfiguration`),
--   Trust (`validateTrustedClaudeCli`, `resolveTrustedClaudeCli`), Runtime (`runtimeInvocation`);
--   `process.env`, the file system, SHA-256 and `JSON.parse` are given.
-- Config: the checks of src/shared/validation.ts on values of any shape: Value (the values and texts),
--   Agent (providers and addresses), App (`isAppConfig`), Input (`assertAgentConfigurationInput`),
--   Migrate (`migrateAppConfig`, `canonicalAppConfig`), Defaults (`DEFAULT_CONFIG`).
--   `new URL` is given.
-- Security: src/main/security-policy.ts. BusyActions: src/shared/busy-actions.ts.
--
-- Loops are structural. The loop of `fetchMentions` runs on the ten pages that the source allows, a
-- recovery takes 50 records and the follow-ups take 10 windows, as in the source. `chunkDocument` has the
-- body's length as fuel, since its cursor grows in each round.
--
-- Not modelled: the scores of the knowledge index, which come from floating point arithmetic; SQLite
-- itself, with its pragmas and its schema; the adapters of other programs, the daemon's sockets and processes, Electron and the views,
-- all of which are input and output. Nor is an engine whose lifecycle operations overlap with a run, or a
-- `saveConfig` that overlaps with another one or with `syncKnowledge`.
pub mod Common
pub mod Text
pub mod Contracts
pub mod Host
pub mod Knowledge
pub mod Retrieval
pub mod Worker
pub mod Security
pub mod Service
pub mod Act
pub mod BusyActions
pub mod Storage
pub mod Config
pub mod Agent
pub mod Daemon
pub mod Requirements
