-- ===== src/Api/App/Mounts.antt =====
-- Under which methods and paths the routes are mounted (`buildApp` of server/src/app.ts, and the routers of
-- server/src/api/routes). A segment of a path is a text or one that the route reads as `:id`. What a schema
-- makes of a query or of a body is a parameter.
use mcp_zeromem.Common.{String, Bool, Option, List, [], ◌∷◌, ◌++◌}
use mcp_zeromem.Curator.{CuratorSettingsUpdate}
use mcp_zeromem.Api.Engine.{
  PageQuery, SessionsQuery, CurationActionsQuery, UndoRequest, ClearScope, EmbedderChangeRequest,
  RecallRequest,
}
use mcp_zeromem.Api.Reply.{Checked}
use mcp_zeromem.Api.Routes.{IngestRequest}
use mcp_zeromem.Api.Viz
use mcp_zeromem.Api.Viz.{FileRead}
use mcp_zeromem.Api.App.{
  Request, get_status, get_sessions, get_turns, delete, post_recall, post_trace, post_ingest,
  get_brief, get_runs, get_actions, get_aliases, post_undo, get_embedder, probe, change_embedder,
  post_reembed, post_clear, get_curator, change_curator, post_token, get_discovery,
  change_discovery, viz,
}
use mcp_zeromem.Client.Request as Client
use mcp_zeromem.Client.Request.{Method}

pub data Segment : Type 0 where
  word : String → Segment
  id : Segment

-- The query of a request, as its text is read: the value of each key.
abbrev pub Query : Type 0
Query = String → Option String

-- The schemas by which the routes check a query or a body, and what the route of the history is made with.
pub record Schemas (J K : Type 0) : Type 0 where
  pub sessions_query : Query → Checked SessionsQuery
  pub page_query : Query → Checked PageQuery
  pub brief_query : Query → Checked (Option String)
  pub actions_query : Query → Checked CurationActionsQuery
  pub graph_options : Query → Checked J
  pub hierarchy_options : Query → Checked J
  pub projection_options : Query → Checked J
  pub growth_options : Query → Checked J
  pub recall_request : Option K → Checked (RecallRequest J)
  pub ingest_request : Option K → Checked IngestRequest
  pub undo_request : Option K → Checked UndoRequest
  pub embedder_change : Option K → Checked (EmbedderChangeRequest J)
  pub clear_request : Option K → Checked ClearScope
  pub curator_update : Option K → Checked CuratorSettingsUpdate
  pub discovery_update : Option K → Checked Bool
  pub history_path : String
  pub history_file : FileRead
  pub history_run : String → Option J

-- A route: what it makes of its id, the query and the body.
pub record Mounted (J K : Type 0) : Type 0 where
  pub method : Method
  pub path : List Segment
  pub make : String → Query → Option K → Request J

module _ {J K : Type 0} (schemas : Schemas J K) where
  abbrev at : Method → List Segment → (String → Query → Option K → Request J) → Mounted J K
  at method path make = record { method = method; path = path; make = make }

  unfoldable pub session_routes : List (Mounted J K)
  session_routes =
      at Client.get (word "status" ∷ []) (λ i q b. get_status)
      ∷ at Client.get (word "sessions" ∷ []) (λ i q b. get_sessions (schemas.sessions_query q))
      ∷ at Client.get (word "sessions" ∷ id ∷ word "turns" ∷ [])
          (λ i q b. get_turns i (schemas.page_query q))
      ∷ at Client.delete (word "sessions" ∷ id ∷ []) (λ i q b. delete i)
      ∷ at Client.post (word "recall" ∷ []) (λ i q b. post_recall (schemas.recall_request b))
      ∷ at Client.post (word "recall" ∷ word "trace" ∷ [])
          (λ i q b. post_trace (schemas.recall_request b))
      ∷ at Client.post (word "ingest" ∷ []) (λ i q b. post_ingest (schemas.ingest_request b))
      ∷ []

  abbrev in_viz : List Segment → (String → Query → Viz.VizRequest J) → Mounted J K
  in_viz path make = at Client.get (word "viz" ∷ path) (λ i q b. viz (make i q))

  unfoldable pub viz_routes : List (Mounted J K)
  viz_routes =
      in_viz (word "graph" ∷ []) (λ i q. Viz.get_graph (schemas.graph_options q))
      ∷ in_viz (word "hierarchy" ∷ []) (λ i q. Viz.get_hierarchy (schemas.hierarchy_options q))
      ∷ in_viz (word "sessions" ∷ id ∷ word "turns" ∷ [])
          (λ i q. Viz.get_session_turns i (schemas.page_query q))
      ∷ in_viz (word "projection" ∷ []) (λ i q. Viz.get_projection (schemas.projection_options q))
      ∷ in_viz (word "growth" ∷ []) (λ i q. Viz.get_growth (schemas.growth_options q))
      ∷ in_viz (word "health" ∷ []) (λ i q. Viz.get_health)
      ∷ in_viz (word "eval" ∷ [])
          (λ i q. Viz.get_eval schemas.history_path schemas.history_file schemas.history_run)
      ∷ []

  unfoldable pub brief_routes : List (Mounted J K)
  brief_routes = at Client.get (word "brief" ∷ []) (λ i q b. get_brief (schemas.brief_query q)) ∷ []

  unfoldable pub curation_routes : List (Mounted J K)
  curation_routes =
      at Client.get (word "curation" ∷ word "runs" ∷ []) (λ i q b. get_runs (schemas.page_query q))
      ∷ at Client.get (word "curation" ∷ word "actions" ∷ [])
          (λ i q b. get_actions (schemas.actions_query q))
      ∷ at Client.get (word "curation" ∷ word "aliases" ∷ []) (λ i q b. get_aliases)
      ∷ at Client.post (word "curation" ∷ word "undo" ∷ [])
          (λ i q b. post_undo (schemas.undo_request b))
      ∷ []

  abbrev in_settings : Method → List Segment → (Option K → Request J) → Mounted J K
  in_settings method path make = at method (word "settings" ∷ path) (λ i q b. make b)

  unfoldable pub settings_routes : List (Mounted J K)
  settings_routes =
      in_settings Client.get (word "embedder" ∷ []) (λ b. get_embedder)
      ∷ in_settings Client.post (word "embedder" ∷ word "test" ∷ [])
          (λ b. probe (schemas.embedder_change b))
      ∷ in_settings Client.put (word "embedder" ∷ [])
          (λ b. change_embedder (schemas.embedder_change b))
      ∷ in_settings Client.post (word "embedder" ∷ word "reembed" ∷ []) (λ b. post_reembed)
      ∷ in_settings Client.post (word "clear" ∷ []) (λ b. post_clear (schemas.clear_request b))
      ∷ in_settings Client.get (word "curator" ∷ []) (λ b. get_curator)
      ∷ in_settings Client.put (word "curator" ∷ [])
          (λ b. change_curator (schemas.curator_update b))
      ∷ in_settings Client.get (word "discovery" ∷ []) (λ b. get_discovery)
      ∷ in_settings Client.put (word "discovery" ∷ [])
          (λ b. change_discovery (schemas.discovery_update b))
      ∷ in_settings Client.post (word "curator" ∷ word "token" ∷ []) (λ b. post_token)
      ∷ []

  unfoldable pub mounts : List (Mounted J K)
  unfolding session_routes viz_routes brief_routes curation_routes settings_routes
  mounts = session_routes ++ viz_routes ++ brief_routes ++ curation_routes ++ settings_routes
