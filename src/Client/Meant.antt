-- ===== src/Client/Meant.antt =====
-- The request to the server's routes (server/src/app.ts, server/src/api/routes) that each call of the API
-- (app/src/lib/api.ts) stands for.
use mcp_zeromem.Common.{String, true, false, Option, ◌≡◌, some, [], ◌∷◌}
use mcp_zeromem.Api.App as App
use mcp_zeromem.Api.App.{Request}
use mcp_zeromem.Api.App.Mounts.{Schemas, Query}
use mcp_zeromem.Api.Viz as Viz
use mcp_zeromem.Client.Target.{is_segment}
use mcp_zeromem.Client.Query.{value_of, HasDistinctKeys}
use mcp_zeromem.Common.Text.{truthy, is_empty}
use mcp_zeromem.Client.Calls.{
  Call, get_status, get_health, get_eval_history, list_sessions, get_session_turns,
  get_session_turns_with_entities, forget_session, recall, recall_trace, ingest, undo_curation,
  get_graph, get_hierarchy, get_projection, get_growth, get_embedder_settings, reembed,
  get_curator_settings, generate_curator_token, get_discovery_settings, get_curation_aliases,
  test_embedder, set_embedder, update_curator_settings, update_discovery_settings, clear_store,
  get_curation_runs, get_curation_actions, get_brief, Fields,
}

-- The id of a session can be a segment of a path, the fields of an object have distinct keys, and a brief is asked for
-- a scope that is not the empty text.
abbrev pub IsReachable : {K : Type 0} → Call K → Type 0
IsReachable (get_session_turns session _ _) = is_segment session ≡ true
IsReachable (get_session_turns_with_entities session page) =
    (is_segment session ≡ true) × HasDistinctKeys page
IsReachable (forget_session session) = is_segment session ≡ true
IsReachable (get_graph options) = HasDistinctKeys options
IsReachable (get_hierarchy options) = HasDistinctKeys options
IsReachable (get_projection options) = HasDistinctKeys options
IsReachable (get_growth options) = HasDistinctKeys options
IsReachable (get_curation_runs page) = HasDistinctKeys page
IsReachable (get_curation_actions query) = HasDistinctKeys query
IsReachable (get_brief scope) = is_empty scope ≡ false
IsReachable _ = Unit

-- What an options object asks for: the value of each field that is neither undefined nor empty.
abbrev pub asked_for : Fields → Query
asked_for fields k = truthy (value_of k fields)

-- A page, whose fields are numbers.
abbrev pub page_of : Option String → Option String → Query
page_of limit offset k = value_of k (("limit", limit) ∷ ("offset", offset) ∷ [])

abbrev pub sessions_of : Option String → Option String → Option String → Query
sessions_of scope limit offset k =
    value_of k (("scope", truthy scope) ∷ ("limit", limit) ∷ ("offset", offset) ∷ [])

-- The scope that is named, the empty text being that of the unscoped store.
abbrev pub scope_of : String → Query
scope_of scope k = value_of k (("scope", some scope) ∷ [])

module _ {J K : Type 0} (schemas : Schemas J K) (scoped : String → K) where
  -- The request that a call stands for: what it is given, by the schema of its route.
  unfoldable pub request_of : Call K → Request J
  request_of get_status = App.get_status
  request_of (list_sessions scope limit offset) =
      App.get_sessions (schemas.sessions_query (sessions_of scope limit offset))
  request_of (get_session_turns session limit offset) =
      App.get_turns session (schemas.page_query (page_of limit offset))
  request_of (forget_session session) = App.delete session
  request_of (recall body) = App.post_recall (schemas.recall_request (some body))
  request_of (recall_trace body) = App.post_trace (schemas.recall_request (some body))
  request_of (ingest body) = App.post_ingest (schemas.ingest_request (some body))
  request_of (get_graph options) =
      App.viz (Viz.get_graph (schemas.graph_options (asked_for options)))
  request_of (get_hierarchy options) =
      App.viz (Viz.get_hierarchy (schemas.hierarchy_options (asked_for options)))
  request_of (get_session_turns_with_entities session page) =
      App.viz (Viz.get_session_turns session (schemas.page_query (asked_for page)))
  request_of (get_projection options) =
      App.viz (Viz.get_projection (schemas.projection_options (asked_for options)))
  request_of (get_growth options) =
      App.viz (Viz.get_growth (schemas.growth_options (asked_for options)))
  request_of get_health = App.viz Viz.get_health
  request_of get_eval_history =
      App.viz (Viz.get_eval schemas.history_path schemas.history_file schemas.history_run)
  request_of get_embedder_settings = App.get_embedder
  request_of (test_embedder body) = App.probe (schemas.embedder_change (some body))
  request_of (set_embedder body) = App.change_embedder (schemas.embedder_change (some body))
  request_of reembed = App.post_reembed
  request_of (clear_store scope) = App.post_clear (schemas.clear_request (some (scoped scope)))
  request_of get_curator_settings = App.get_curator
  request_of (update_curator_settings body) =
      App.change_curator (schemas.curator_update (some body))
  request_of generate_curator_token = App.post_token
  request_of get_discovery_settings = App.get_discovery
  request_of (update_discovery_settings body) =
      App.change_discovery (schemas.discovery_update (some body))
  request_of (get_curation_runs page) = App.get_runs (schemas.page_query (asked_for page))
  request_of (get_curation_actions query) =
      App.get_actions (schemas.actions_query (asked_for query))
  request_of get_curation_aliases = App.get_aliases
  request_of (get_brief scope) = App.get_brief (schemas.brief_query (scope_of scope))
  request_of (undo_curation body) = App.post_undo (schemas.undo_request (some body))
