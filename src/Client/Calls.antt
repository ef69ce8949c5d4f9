-- ===== src/Client/Calls.antt =====
-- The calls of the API (app/src/lib/api.ts) and the addresses that they are made at. The fields of an
-- options object are given as texts, as `String` makes them. encodeURIComponent and the text that
-- URLSearchParams writes are parameters, and a body is a value of JSON: `scoped` is that of `{ scope }`.
use Prim.Native.String.{◌++◌}
use mathlib.Core.List as List
use mcp_zeromem.Common.{String, Option, none, some, List, [], ◌∷◌, if◌then◌else◌}
use mcp_zeromem.Common.Text.{is_empty}
use mcp_zeromem.Client.Request.{Method, post, put, delete, RequestOptions}

abbrev pub Fields : Type 0
Fields = List (String × Option String)

pub data Call (K : Type 0) : Type 0 where
  get_status get_health get_eval_history : Call K
  list_sessions : Option String → Option String → Option String → Call K  -- scope, limit, offset
  get_session_turns : String → Option String → Option String → Call K  -- session, limit, offset
  get_session_turns_with_entities : String → Fields → Call K
  forget_session : String → Call K
  recall recall_trace ingest undo_curation : K → Call K
  get_graph get_hierarchy get_projection get_growth : Fields → Call K
  get_embedder_settings reembed get_curator_settings generate_curator_token : Call K
  get_discovery_settings get_curation_aliases : Call K
  test_embedder set_embedder update_curator_settings update_discovery_settings : K → Call K
  clear_store : String → Call K
  get_curation_runs get_curation_actions : Fields → Call K
  get_brief : String → Call K

-- The fields that `queryString` keeps.
abbrev pub kept : Fields → List (String × String)
kept [] = []
kept ((key, none) ∷ fields) = kept fields
kept ((key, some value) ∷ fields) =
    if is_empty value then kept fields else (key, value) ∷ kept fields

-- The parameters that are set where a field is not undefined.
abbrev pub given : Fields → List (String × String)
given [] = []
given ((key, none) ∷ fields) = given fields
given ((key, some value) ∷ fields) = (key, value) ∷ given fields

abbrev pub page_params : Option String → Option String → List (String × String)
page_params limit offset = given (("limit", limit) ∷ ("offset", offset) ∷ [])

abbrev pub sessions_params : Option String → Option String → Option String → List (String × String)
sessions_params scope limit offset =
    List.◌++◌ (kept (("scope", scope) ∷ [])) (page_params limit offset)

-- `params.size > 0 ? `?${params}` : ''`
unfoldable pub suffix : (List (String × String) → String) → List (String × String) → String
suffix params [] = ""
suffix params (p ∷ ps) = "?" ++ params (p ∷ ps)

module _ {K : Type 0} (encode : String → String) (params : List (String × String) → String)
    (scoped : String → K) where
  abbrev pub getting : String → String × RequestOptions K
  getting path = (path, record { method = none; body = none })

  abbrev pub posting : String → String × RequestOptions K
  posting path = (path, record { method = some post; body = none })

  abbrev pub sending : Method → String → K → String × RequestOptions K
  sending method path body = (path, record { method = some method; body = some body })

  -- The path, with what `request` is given besides.
  unfoldable pub address : Call K → String × RequestOptions K
  unfolding suffix
  address get_status = getting "/api/status"
  address (list_sessions scope limit offset) =
      getting ("/api/sessions" ++ suffix params (sessions_params scope limit offset))
  address (get_session_turns id limit offset) =
      getting
        ("/api/sessions/" ++ (encode id ++ ("/turns" ++ suffix params (page_params limit offset))))
  address (forget_session id) =
      ("/api/sessions/" ++ encode id, record { method = some delete; body = none })
  address (recall body) = sending post "/api/recall" body
  address (recall_trace body) = sending post "/api/recall/trace" body
  address (ingest body) = sending post "/api/ingest" body
  address (get_graph options) = getting ("/api/viz/graph" ++ suffix params (kept options))
  address (get_hierarchy options) = getting ("/api/viz/hierarchy" ++ suffix params (kept options))
  address (get_session_turns_with_entities id page) =
      getting ("/api/viz/sessions/" ++ (encode id ++ ("/turns" ++ suffix params (kept page))))
  address (get_projection options) = getting ("/api/viz/projection" ++ suffix params (kept options))
  address (get_growth options) = getting ("/api/viz/growth" ++ suffix params (kept options))
  address get_health = getting "/api/viz/health"
  address get_eval_history = getting "/api/viz/eval"
  address get_embedder_settings = getting "/api/settings/embedder"
  address (test_embedder body) = sending post "/api/settings/embedder/test" body
  address (set_embedder body) = sending put "/api/settings/embedder" body
  address reembed = posting "/api/settings/embedder/reembed"
  address (clear_store scope) = sending post "/api/settings/clear" (scoped scope)
  address get_curator_settings = getting "/api/settings/curator"
  address (update_curator_settings body) = sending put "/api/settings/curator" body
  address generate_curator_token = posting "/api/settings/curator/token"
  address get_discovery_settings = getting "/api/settings/discovery"
  address (update_discovery_settings body) = sending put "/api/settings/discovery" body
  address (get_curation_runs page) = getting ("/api/curation/runs" ++ suffix params (kept page))
  address (get_curation_actions query) =
      getting ("/api/curation/actions" ++ suffix params (kept query))
  address get_curation_aliases = getting "/api/curation/aliases"
  address (get_brief scope) =
      getting ("/api/brief" ++ suffix params (kept (("scope", some scope) ∷ [])))
  address (undo_curation body) = sending post "/api/curation/undo" body
