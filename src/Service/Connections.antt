-- ===== src/Service/Connections.antt =====
-- main/core/service.ts: the connections and the generations of the operations on them.
pub mod Stale
use lucky_tag.Common.{
  ℕ, suc, Bool, true, false, ◌==◌, Option, none, some, List, [], ◌∷◌, map, ◌++◌, if◌then◌else◌,
}
use lucky_tag.Text.{Text, lit, truthy}

pub data ConnectionKind : Type 0 where
  sample_messaging sample_library sampleauth sample_device : ConnectionKind

pub data ConnectionState : Type 0 where
  connected disconnected checking unavailable : ConnectionState

pub record ConnectionStatus : Type 0 where
  pub kind : ConnectionKind
  pub state : ConnectionState
  pub label : Text
  pub detail : Text
  pub checked_at : Option Text
  pub version : Option Text

abbrev pub kind_eq : ConnectionKind → ConnectionKind → Bool
kind_eq ConnectionKind.sample_messaging ConnectionKind.sample_messaging = true
kind_eq ConnectionKind.sample_library ConnectionKind.sample_library = true
kind_eq ConnectionKind.sampleauth ConnectionKind.sampleauth = true
kind_eq ConnectionKind.sample_device ConnectionKind.sample_device = true
kind_eq _ _ = false

-- `connectionGenerations`, one counter for each kind that is probed
pub record Generations : Type 0 where
  pub sample_messaging : ℕ
  pub sample_library : ℕ
  pub sampleauth : ℕ

-- A device has no counter.
abbrev pub generation_of : ConnectionKind → Generations → Option ℕ
generation_of ConnectionKind.sample_messaging g = some g.sample_messaging
generation_of ConnectionKind.sample_library g = some g.sample_library
generation_of ConnectionKind.sampleauth g = some g.sampleauth
generation_of ConnectionKind.sample_device g = none

pub record Connections : Type 0 where
  pub statuses : List ConnectionStatus
  pub generations : Generations

unfoldable pub message_label : Text
message_label = lit "示例消息 DEMO_MESSAGE"

unfoldable pub library_label : Text
library_label = lit "示例知识库 CLI"

unfoldable pub initial_connections : List ConnectionStatus
unfolding message_label library_label
initial_connections =
    record {
      kind = ConnectionKind.sample_messaging;
      state = ConnectionState.disconnected;
      label = message_label;
      detail = lit "尚未检查认证状态";
      checked_at = none;
      version = none;
    }
    ∷ record {
      kind = ConnectionKind.sample_library;
      state = ConnectionState.disconnected;
      label = library_label;
      detail = lit "尚未检查认证状态";
      checked_at = none;
      version = none;
    }
    ∷ record {
      kind = ConnectionKind.sampleauth;
      state = ConnectionState.disconnected;
      label = lit "SampleAuth";
      detail = lit "尚未检查统一身份状态";
      checked_at = none;
      version = none;
    }
    ∷ record {
      kind = ConnectionKind.sample_device;
      state = ConnectionState.unavailable;
      label = lit "示例设备";
      detail = lit "一期预留，尚未启用";
      checked_at = none;
      version = none;
    }
    ∷ []

-- `replaceConnection`
unfoldable pub replace_each : ConnectionStatus → List ConnectionStatus → List ConnectionStatus
replace_each status [] = []
replace_each status (c ∷ cs) =
    (if kind_eq c.kind status.kind then status else c) ∷ replace_each status cs

unfoldable pub replace_connection : ConnectionStatus → Connections → Connections
unfolding replace_each
replace_connection status s = record s { statuses = replace_each status s.statuses }

abbrev pub raised : ConnectionKind → Generations → Generations
raised ConnectionKind.sample_messaging g = record g { sample_messaging = suc g.sample_messaging }
raised ConnectionKind.sample_library g = record g { sample_library = suc g.sample_library }
raised ConnectionKind.sampleauth g = record g { sampleauth = suc g.sampleauth }
raised ConnectionKind.sample_device g = g

-- `beginConnectionOperation`; the generation is what `generation_of` gives afterwards.
unfoldable pub begin_connection_operation : ConnectionKind → Connections → Connections
begin_connection_operation kind s = record s { generations = raised kind s.generations }

abbrev pub is_generation : Option ℕ → ℕ → Bool
is_generation none generation = false
is_generation (some current) generation = current == generation

-- `replaceConnectionIfCurrent`
unfoldable pub replace_connection_if_current : ConnectionStatus → ℕ → Connections → Connections
unfolding replace_connection
replace_connection_if_current status generation s =
    if is_generation (generation_of status.kind s.generations) generation
    then replace_connection status s
    else s

-- `connectionFor`, without the error of a missing kind
unfoldable pub connection_for : ConnectionKind → List ConnectionStatus → Option ConnectionStatus
connection_for kind [] = none
connection_for kind (c ∷ cs) = if kind_eq c.kind kind then some c else connection_for kind cs

-- `{ ...connection, state: 'checking', … }` in `probeConnections`
unfoldable pub checking_each : Text → List ConnectionStatus → List ConnectionStatus
checking_each at [] = []
checking_each at (c ∷ cs) =
    (if kind_eq c.kind ConnectionKind.sample_device then c else record c {
      state = ConnectionState.checking;
      detail = lit "正在检查本地 CLI…";
      checked_at = some at;
    })
    ∷ checking_each at cs

-- `SampleLibraryAuthStatus`
pub record AuthStatus : Type 0 where
  pub authenticated : Bool
  pub detail : Text
  pub version : Option Text

abbrev label_of : ConnectionKind → Text
label_of ConnectionKind.sample_messaging = message_label
label_of _ = library_label

-- `authConnection`
unfoldable pub auth_connection : ConnectionKind → AuthStatus → Text → ConnectionStatus
auth_connection kind status checked_at = record {
  kind = kind;
  state = if status.authenticated then ConnectionState.connected else ConnectionState.disconnected;
  label = label_of kind;
  detail = status.detail;
  checked_at = some checked_at;
  version = truthy status.version;
}

-- What happens to the connections: the first half of `authenticate`, of `disconnectSampleAuth` and, for
-- each kind, of `probeConnections`, and the second half, when the answer comes.
pub data Event : Type 0 where
  started : (kind : ConnectionKind) (shown : ConnectionStatus) → Event
  answered : (generation : ℕ) (status : ConnectionStatus) → Event
  probe_started : (at : Text) → Event

unfoldable pub step : Event → Connections → Connections
unfolding begin_connection_operation replace_connection replace_connection_if_current checking_each
step (Event.started kind shown) s = replace_connection shown (begin_connection_operation kind s)
step (Event.answered generation status) s = replace_connection_if_current status generation s
step (Event.probe_started at) s =
    let raised_all = begin_connection_operation ConnectionKind.sampleauth (
      begin_connection_operation ConnectionKind.sample_library
        (begin_connection_operation ConnectionKind.sample_messaging s)) in
    record raised_all { statuses = checking_each at raised_all.statuses }

unfoldable pub steps : List Event → Connections → Connections
unfolding step
steps [] s = s
steps (e ∷ es) s = steps es (step e s)
