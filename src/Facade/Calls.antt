-- ===== src/Facade/Calls.antt =====
-- Sequences of calls of the engine (server/src/engine/index.ts), as its clients make them, with what the
-- clients are told.
use mcp_zeromem.Common.{ℕ, String, Bool, Option, List, [], ◌∷◌, ◌++◌}
use mcp_zeromem.Memory.{TurnInput, IngestReport}
use mcp_zeromem.Curator.{CuratorConfig}
use mcp_zeromem.Metrics.Series.{Event, recalled, failed, ingested}
use mcp_zeromem.Api.Engine.{
  Called, returned, rejected, PageQuery, SessionsQuery, CurationActionsQuery, UndoRequest,
  EmbedderChangeRequest, RecallRequest, Engine,
}
use mcp_zeromem.Gateway.{WindowOptions}
use mcp_zeromem.Gateway.Tools.{CandidateKind, CandidateOptions, TurnSelector}
use mcp_zeromem.Facade.{Native, Schemas, Reading, ZeroMemEngine, served}
use mcp_zeromem.Facade.Others as Others
use mcp_zeromem.Facade.Others.{NativeOthers, OtherSchemas, IngestOutcome, newly}

pub data EngineCall (J : Type 0) : Type 0 where
  stats embedder_settings curation_aliases curator_config discovery_config : EngineCall J
  reembed clear_embeddings clear_memory : EngineCall J
  list_sessions : SessionsQuery → EngineCall J
  session_turns : String → PageQuery → EngineCall J
  query query_trace : RecallRequest J → EngineCall J
  brief : String → EngineCall J
  curation_runs : PageQuery → EngineCall J
  curation_actions : CurationActionsQuery → EngineCall J
  probe_embedder set_embedder : EmbedderChangeRequest J → EngineCall J
  ingest_many : List TurnInput → EngineCall J
  delete_session : String → EngineCall J
  curate_undo : UndoRequest → String → EngineCall J
  set_curator_config : CuratorConfig → EngineCall J
  set_discovery_config : Bool → EngineCall J

pub data AnyCall (A J : Type 0) : Type 0 where
  routed : EngineCall J → AnyCall A J
  ingest_turn : TurnInput → AnyCall A J
  session_window : WindowOptions → AnyCall A J
  refresh rebuild embedding_backlog : AnyCall A J
  embed_backlog : Option ℕ → AnyCall A J
  curate_apply : String → String → List A → Bool → AnyCall A J
  curate_candidates : CandidateKind → CandidateOptions → AnyCall A J
  curation_turns : TurnSelector → Option ℕ → AnyCall A J

-- What the caller learns of a call that bears on the counters.
pub data Told : Type 0 where
  recall_answered recall_failed no_news : Told
  turns_indexed : ℕ → Told

abbrev pub told_recall : {A : Type 0} → Called A → Told
told_recall (returned a) = recall_answered
told_recall (rejected f) = recall_failed

module _ {A X : Type 0} where
  abbrev pub quiet : Called A × X → Told × X
  quiet (c, s) = (no_news, s)

  abbrev pub recalling : Called A × X → Told × X
  recalling (c, s) = (told_recall c, s)

abbrev pub told_ingest : Called IngestReport → Told
told_ingest (returned report) = turns_indexed report.indexed
told_ingest (rejected f) = no_news

abbrev pub ingesting : {X : Type 0} → Called IngestReport × X → Told × X
ingesting (c, s) = (told_ingest c, s)

abbrev pub told_turn : Called IngestOutcome → Told
told_turn (returned outcome) = turns_indexed (newly outcome)
told_turn (rejected f) = no_news

abbrev pub storing : {X : Type 0} → Called IngestOutcome × X → Told × X
storing (c, s) = (told_turn c, s)

unfoldable pub perform : {X J : Type 0} → Engine X J → EngineCall J → X → Told × X
perform e stats x = quiet (e.stats x)
perform e embedder_settings x = quiet (e.embedder_settings x)
perform e curation_aliases x = quiet (e.curation_aliases x)
perform e curator_config x = quiet (e.curator_config x)
perform e discovery_config x = quiet (e.discovery_config x)
perform e reembed x = quiet (e.reembed x)
perform e clear_embeddings x = quiet (e.clear_embeddings x)
perform e clear_memory x = quiet (e.clear_memory x)
perform e (list_sessions q) x = quiet (e.list_sessions q x)
perform e (session_turns id q) x = quiet (e.session_turns id q x)
perform e (query r) x = recalling (e.query r x)
perform e (query_trace r) x = recalling (e.query_trace r x)
perform e (brief scope) x = quiet (e.brief scope x)
perform e (curation_runs q) x = quiet (e.curation_runs q x)
perform e (curation_actions q) x = quiet (e.curation_actions q x)
perform e (probe_embedder r) x = quiet (e.probe_embedder r x)
perform e (set_embedder r) x = quiet (e.set_embedder r x)
perform e (ingest_many turns) x = ingesting (e.ingest_many turns x)
perform e (delete_session id) x = quiet (e.delete_session id x)
perform e (curate_undo target actor) x = quiet (e.curate_undo target actor x)
perform e (set_curator_config c) x = quiet (e.set_curator_config c x)
perform e (set_discovery_config on) x = quiet (e.set_discovery_config on x)

-- The event that the caller was told of, at the end of its call.
abbrev pub event_of : Reading → Told → List (ℕ × Event)
event_of r recall_answered = (r.now, recalled r.ms r.slot) ∷ []
event_of r recall_failed = (r.now, failed) ∷ []
event_of r (turns_indexed n) = (r.now, ingested n) ∷ []
event_of r no_news = []

module _ {S R A J : Type 0} (reading : S → Reading) where
  -- Any call of the class.
  unfoldable pub perform_any :
      Native S R J
      → Schemas R J
      → NativeOthers S R A
      → OtherSchemas R J
      → AnyCall A J
      → ZeroMemEngine S
      → Told × ZeroMemEngine S
  unfolding perform
  perform_any n c m d (routed call) x = perform (served reading n c) call x
  perform_any n c m d (ingest_turn turn) x = storing (Others.ingest_turn reading m d turn x)
  perform_any n c m d (session_window options) x =
      quiet (Others.session_window reading m d options x)
  perform_any n c m d refresh x = quiet (Others.refresh reading m d x)
  perform_any n c m d rebuild x = quiet (Others.rebuild reading m d x)
  perform_any n c m d embedding_backlog x = quiet (Others.embedding_backlog reading m d x)
  perform_any n c m d (embed_backlog limit) x = quiet (Others.embed_backlog reading m d limit x)
  perform_any n c m d (curate_apply id actor actions dry_run) x =
      quiet (Others.curate_apply reading m d id actor actions dry_run x)
  perform_any n c m d (curate_candidates kind options) x =
      quiet (Others.curate_candidates reading m d kind options x)
  perform_any n c m d (curation_turns selector limit) x =
      quiet (Others.curation_turns reading m d selector limit x)

-- The events of the calls, in order, and the engine after them.
unfoldable pub perform_all :
    {S C : Type 0}
    → (S → Reading)
    → (C → ZeroMemEngine S → Told × ZeroMemEngine S)
    → List C
    → ZeroMemEngine S
    → List (ℕ × Event) × ZeroMemEngine S
perform_all reading step [] x = ([], x)
perform_all reading step (c ∷ cs) x =
    let after = step c x in
    let rest = perform_all reading step cs after.1 in
    (event_of (reading after.1.store) after.0 ++ rest.0, rest.1)
