-- ===== src/Facade.antt =====
-- server/src/engine/index.ts: the class ZeroMemEngine, which checks what the native engine returns and
-- counts recalls and writes. The native engine and the schemas' verdicts are parameters; `S` is the store
-- with all else that lies outside, the clock too.
pub mod Others
pub mod Calls
pub mod Health
mod Examples
use Prim.Native.String.{◌++◌}
use mcp_zeromem.Common.{ℕ, String, Bool, Option, none, some, List, map}
use mcp_zeromem.Common.Text.{truthy, trim}
use mcp_zeromem.Memory.{StoredTurn, TurnInput, IngestReport}
use mcp_zeromem.Curator.{CuratorConfig}
use mcp_zeromem.Metrics as Metrics
use mcp_zeromem.Metrics.{Metrics, record_open, record_recall, record_error, record_ingest, snapshot}
use mcp_zeromem.Api.Engine.{
  Failure, Called, returned, rejected, PageQuery, SessionsQuery, CurationActionsQuery, UndoRequest,
  ClearReport, CurationRuns, EmbedderChangeRequest, RecallRequest, Engine,
}

-- What `safeParse` makes of a value: the data, or the error's message.
pub data Parsed (A : Type 0) : Type 0 where
  success : A → Parsed A
  error : String → Parsed A

-- Native results are of the type `R`.
pub record Native (S R J : Type 0) : Type 0 where
  pub stats : S → Called R × S
  pub list_sessions : PageQuery → Option String → S → Called R × S
  pub session_turns : String → PageQuery → S → Called R × S
  pub query : String → J → S → Called R × S
  pub query_trace : String → J → S → Called R × S
  pub brief : String → S → Called R × S
  pub curation_runs : PageQuery → S → Called R × S
  pub curation_actions : Option String → PageQuery → S → Called R × S
  pub curation_aliases : S → Called R × S
  pub embedder_settings : S → Called R × S
  pub probe_embedder : J → Bool → S → Called R × S
  pub curator_config : S → Called R × S
  pub discovery_config : S → Called R × S
  pub graph_snapshot : J → S → Called R × S
  pub hierarchy : J → S → Called R × S
  pub turns_with_entities : String → PageQuery → S → Called R × S
  pub projection : J → S → Called R × S
  pub growth : J → S → Called R × S
  pub ingest_many : List TurnInput → S → Called R × S
  pub delete_session : String → S → Called ℕ × S
  pub curate_undo : UndoRequest → String → S → Called R × S
  pub set_embedder : J → Bool → S → Called R × S
  pub reembed : S → Called R × S
  pub clear_embeddings : S → Called R × S
  pub clear_memory : S → Called R × S
  pub set_curator_config : CuratorConfig → S → Called R × S
  pub set_discovery_config : Bool → S → Called R × S

pub record Schemas (R J : Type 0) : Type 0 where
  pub stats : R → Parsed J
  pub sessions : R → Parsed J
  pub stored_turns : R → Parsed (List StoredTurn)
  pub query_result : R → Parsed J
  pub query_trace : R → Parsed J
  pub brief : R → Parsed J
  pub curation_runs : R → Parsed CurationRuns
  pub curation_actions : R → Parsed J
  pub curation_aliases : R → Parsed J
  pub embedder_settings : R → Parsed J
  pub embedder_probe : R → Parsed J
  pub curator_config : R → Parsed CuratorConfig
  pub discovery_config : R → Parsed Bool
  pub graph_snapshot : R → Parsed J
  pub hierarchy : R → Parsed J
  pub turns_with_entities : R → Parsed (List J)
  pub projection : R → Parsed J
  pub growth : R → Parsed J
  pub ingest_report : R → Parsed IngestReport
  pub undo_report : R → Parsed J
  pub embedder_switch : R → Parsed J
  pub clear_report : R → Parsed ClearReport

-- `Date.now()`, the duration measured and the random slot, as they are when a call ends.
pub record Reading : Type 0 where
  pub now : ℕ
  pub ms : ℕ
  pub slot : ℕ

pub record ZeroMemEngine (S : Type 0) : Type 0 where
  pub store : S
  pub metrics : Metrics

-- The constructor, once the native engine is open.
unfoldable pub opened : {S : Type 0} → ℕ → ℕ → S → ZeroMemEngine S
opened now open_ms s = record { store = s; metrics = record_open open_ms (Metrics.create now) }

abbrev pub unexpected : String → Failure
unexpected message =
    let text = "native engine returned an unexpected shape: " ++ message in
    record { message = text; chain = text }

abbrev pub verdict : {A : Type 0} → Parsed A → Called A
verdict (success a) = returned a
verdict (error message) = rejected (unexpected message)

unfoldable pub check : {R A : Type 0} → (R → Parsed A) → Called R → Called A
check schema (returned value) = verdict (schema value)
check schema (rejected f) = rejected f

module _ {S : Type 0} where
  -- A call that is not counted.
  abbrev pub passed : {B : Type 0} → Metrics → Called B × S → Called B × ZeroMemEngine S
  passed m (c, s) = (c, record { store = s; metrics = m })

  abbrev pub checked :
      {R A : Type 0} → (R → Parsed A) → Metrics → Called R × S → Called A × ZeroMemEngine S
  checked schema m (c, s) = (check schema c, record { store = s; metrics = m })

abbrev pub timed : {A : Type 0} → Metrics → Called A → Reading → Metrics
timed m (returned a) r = record_recall r.now r.ms r.slot m
timed m (rejected f) r = record_error r.now m

abbrev pub counted : Metrics → Called IngestReport → Reading → Metrics
counted m (returned report) r = record_ingest r.now report.indexed m
counted m (rejected f) r = m

-- `scope?.trim() || undefined`
abbrev pub trimmed : Option String → Option String
unfolding trim
trimmed none = none
trimmed (some scope) = truthy (some (trim scope))

module _ {S : Type 0} (reading : S → Reading) where
  -- `timeRecall(() => check(schema, …))`
  unfoldable pub time_recall :
      {R A : Type 0} → (R → Parsed A) → Metrics → Called R × S → Called A × ZeroMemEngine S
  time_recall schema m (c, s) =
      (check schema c, record { store = s; metrics = timed m (check schema c) (reading s) })

  unfoldable pub count_report :
      {R : Type 0}
      → (R → Parsed IngestReport)
      → Metrics
      → Called R × S
      → Called IngestReport × ZeroMemEngine S
  count_report schema m (c, s) =
      (check schema c, record { store = s; metrics = counted m (check schema c) (reading s) })

  -- The class as the engine that the routes call.
  unfoldable pub served : {R J : Type 0} → Native S R J → Schemas R J → Engine (ZeroMemEngine S) J
  unfolding check time_recall count_report trimmed snapshot
  served n c = record {
    stats = λ e. checked c.stats e.metrics (n.stats e.store);
    list_sessions =
        λ q e. checked c.sessions e.metrics (n.list_sessions q.page (trimmed q.scope) e.store);
    session_turns = λ id page e. checked c.stored_turns e.metrics (n.session_turns id page e.store);
    query = λ r e. time_recall c.query_result e.metrics (n.query r.query r.options e.store);
    query_trace =
        λ r e. time_recall c.query_trace e.metrics (n.query_trace r.query r.options e.store);
    brief = λ scope e. checked c.brief e.metrics (n.brief scope e.store);
    curation_runs = λ page e. checked c.curation_runs e.metrics (n.curation_runs page e.store);
    curation_actions =
        λ q e. checked c.curation_actions e.metrics (n.curation_actions q.run_id q.page e.store);
    curation_aliases = λ e. checked c.curation_aliases e.metrics (n.curation_aliases e.store);
    embedder_settings = λ e. checked c.embedder_settings e.metrics (n.embedder_settings e.store);
    probe_embedder = λ r e.
        checked c.embedder_probe e.metrics (n.probe_embedder r.spec r.keep_stored_key e.store);
    curator_config = λ e. checked c.curator_config e.metrics (n.curator_config e.store);
    discovery_config = λ e. checked c.discovery_config e.metrics (n.discovery_config e.store);
    graph_snapshot = λ o e. checked c.graph_snapshot e.metrics (n.graph_snapshot o e.store);
    hierarchy = λ o e. checked c.hierarchy e.metrics (n.hierarchy o e.store);
    turns_with_entities = λ id page e.
        checked c.turns_with_entities e.metrics (n.turns_with_entities id page e.store);
    projection = λ o e. checked c.projection e.metrics (n.projection o e.store);
    growth = λ o e. checked c.growth e.metrics (n.growth o e.store);
    health = λ e.
        let shown = snapshot (reading e.store).now e.metrics in
        (shown.0, record e { metrics = shown.1 });
    ingest_many = λ turns e. count_report c.ingest_report e.metrics (n.ingest_many turns e.store);
    delete_session = λ id e. passed e.metrics (n.delete_session id e.store);
    curate_undo =
        λ target actor e. checked c.undo_report e.metrics (n.curate_undo target actor e.store);
    set_embedder = λ r e.
        checked c.embedder_switch e.metrics (n.set_embedder r.spec r.keep_stored_key e.store);
    reembed = λ e. checked c.embedder_switch e.metrics (n.reembed e.store);
    clear_embeddings = λ e. checked c.clear_report e.metrics (n.clear_embeddings e.store);
    clear_memory = λ e. checked c.clear_report e.metrics (n.clear_memory e.store);
    set_curator_config =
        λ config e. checked c.curator_config e.metrics (n.set_curator_config config e.store);
    set_discovery_config =
        λ on e. checked c.discovery_config e.metrics (n.set_discovery_config on e.store);
  }
