-- ===== src/Api/Engine.antt =====
-- What the API routes (server/src/api/routes) call: the engine of server/src/engine/index.ts as an
-- interface, on a store of any type. An answer that a route passes on unread is of the type `J`.
use mcp_zeromem.Common.{ℕ, String, Bool, Option, List}
use mcp_zeromem.Memory.{StoredTurn, TurnInput, IngestReport}
use mcp_zeromem.Curator.{CuratorConfig}
use mcp_zeromem.Metrics.{HealthSnapshot}

-- An error of the engine: its `errorMessage`, and its `errorChainMessage`.
pub record Failure : Type 0 where
  pub message : String
  pub chain : String

pub data Called (A : Type 0) : Type 0 where
  returned : A → Called A
  rejected : Failure → Called A

pub record PageQuery : Type 0 where
  pub limit : Option ℕ
  pub offset : Option ℕ

pub record SessionsQuery : Type 0 where
  pub page : PageQuery
  pub scope : Option String

pub record CurationActionsQuery : Type 0 where
  pub page : PageQuery
  pub run_id : Option String

-- One action or a whole run, as the schema has made sure.
pub data UndoRequest : Type 0 where
  action_id : ℕ → UndoRequest
  run_id : String → UndoRequest

pub data ClearScope : Type 0 where
  embeddings memory : ClearScope

pub record ClearReport : Type 0 where
  pub turns_removed : ℕ
  pub sessions_removed : ℕ
  pub vectors_removed : ℕ
  pub turns_to_embed : ℕ

-- Of a run, when its last action was recorded.
pub record CurationRuns : Type 0 where
  pub ended_at : List ℕ
  pub cursor : ℕ

-- `spec` is left as `J`.
pub record EmbedderChangeRequest (J : Type 0) : Type 0 where
  pub spec : J
  pub keep_stored_key : Bool

pub record RecallRequest (J : Type 0) : Type 0 where
  pub query : String
  pub options : J

-- Every call gives its answer and the store it leaves, also where it fails: a read may refresh the
-- index as well.
pub record Engine (S J : Type 0) : Type 0 where
  pub stats : S → Called J × S
  pub list_sessions : SessionsQuery → S → Called J × S
  pub session_turns : String → PageQuery → S → Called (List StoredTurn) × S
  pub query : RecallRequest J → S → Called J × S
  pub query_trace : RecallRequest J → S → Called J × S
  pub brief : String → S → Called J × S
  pub curation_runs : PageQuery → S → Called CurationRuns × S
  pub curation_actions : CurationActionsQuery → S → Called J × S
  pub curation_aliases : S → Called J × S
  pub embedder_settings : S → Called J × S
  pub probe_embedder : EmbedderChangeRequest J → S → Called J × S
  pub curator_config : S → Called CuratorConfig × S
  pub discovery_config : S → Called Bool × S
  pub graph_snapshot : J → S → Called J × S
  pub hierarchy : J → S → Called J × S
  pub turns_with_entities : String → PageQuery → S → Called (List J) × S
  pub projection : J → S → Called J × S
  pub growth : J → S → Called J × S
  pub health : S → HealthSnapshot × S
  pub ingest_many : List TurnInput → S → Called IngestReport × S
  pub delete_session : String → S → Called ℕ × S
  pub curate_undo : UndoRequest → String → S → Called J × S
  pub set_embedder : EmbedderChangeRequest J → S → Called J × S
  pub reembed : S → Called J × S
  pub clear_embeddings : S → Called ClearReport × S
  pub clear_memory : S → Called ClearReport × S
  pub set_curator_config : CuratorConfig → S → Called CuratorConfig × S
  pub set_discovery_config : Bool → S → Called Bool × S

-- The calls that only read keep `P`; `health` is `metrics.snapshot()`.
pub record ReadsKeep {S J : Type 0} (P : S → Type 0) (e : Engine S J) : Type 0 where
  pub stats : (s : S) → P s → P (e.stats s).1
  pub list_sessions : (q : SessionsQuery) (s : S) → P s → P (e.list_sessions q s).1
  pub session_turns : (id : String) (q : PageQuery) (s : S) → P s → P (e.session_turns id q s).1
  pub query : (r : RecallRequest J) (s : S) → P s → P (e.query r s).1
  pub query_trace : (r : RecallRequest J) (s : S) → P s → P (e.query_trace r s).1
  pub brief : (scope : String) (s : S) → P s → P (e.brief scope s).1
  pub curation_runs : (q : PageQuery) (s : S) → P s → P (e.curation_runs q s).1
  pub curation_actions : (q : CurationActionsQuery) (s : S) → P s → P (e.curation_actions q s).1
  pub curation_aliases : (s : S) → P s → P (e.curation_aliases s).1
  pub embedder_settings : (s : S) → P s → P (e.embedder_settings s).1
  pub probe_embedder : (r : EmbedderChangeRequest J) (s : S) → P s → P (e.probe_embedder r s).1
  pub curator_config : (s : S) → P s → P (e.curator_config s).1
  pub discovery_config : (s : S) → P s → P (e.discovery_config s).1
  pub graph_snapshot : (o : J) (s : S) → P s → P (e.graph_snapshot o s).1
  pub hierarchy : (o : J) (s : S) → P s → P (e.hierarchy o s).1
  pub turns_with_entities :
      (id : String) (q : PageQuery) (s : S) → P s → P (e.turns_with_entities id q s).1
  pub projection : (o : J) (s : S) → P s → P (e.projection o s).1
  pub growth : (o : J) (s : S) → P s → P (e.growth o s).1
  pub health : (s : S) → P s → P (e.health s).1
