-- ===== src/Client/Addressed.antt =====
-- What the server's routes (server/src/app.ts, server/src/api/routes) make of the requests that the client's
-- calls send (app/src/lib/api.ts).
pub mod Examples
use Prim.Native.String.{◌++◌}
use mcp_zeromem.Common.{String, true, ◌≡◌, refl, ◌∙◌, ap, Option, none, some, List, [], ◌∷◌, arith}
use mcp_zeromem.Common.Text.{all_chars}
use mcp_zeromem.Api.App as App
use mcp_zeromem.Api.App.{Request}
use mcp_zeromem.Api.App.Mounts.{Schemas, Query, mounts}
use mcp_zeromem.Api.Viz as Viz
use mcp_zeromem.Client.{AuthState}
use mcp_zeromem.Client.Request.{sent, get, delete}
use mcp_zeromem.Client.Scan.{
  is_plain, is_no_hash, query_text, in_path, scan, Reads, scan_asked, scan_segment, scan_last,
  parts_of, query_of, close,
}
use mcp_zeromem.Client.Target.{is_segment, requests_for, requests_at, requests_at_lem}
use mcp_zeromem.Client.Query.{
  HasDistinctKeys, lookup, Asks, kept-Asks, page_params-Asks, sessions_params-Asks, scope_of-Asks,
}
use mcp_zeromem.Client.Meant.{IsReachable, request_of}
use mcp_zeromem.Client.Calls.{
  Call, list_sessions, get_session_turns, get_session_turns_with_entities, forget_session,
  get_graph, get_hierarchy, get_projection, get_growth, get_curation_runs, get_curation_actions,
  get_brief, kept, page_params, sessions_params, suffix, address,
}

-- encodeURIComponent and decodeURIComponent, and the text of URLSearchParams, which the server reads back key by key.
pub record IsEncoding (encode : String → String) (decode : String → Option String)
    (params : List (String × String) → String) (parse : Option String → Query) : Type 0 where
  pub read_back : (s : String) → decode (encode s) ≡ some s
  pub plain : (s : String) → all_chars is_plain (encode s) ≡ true
  pub named : (s : String) → is_segment s ≡ true → is_segment (encode s) ≡ true
  pub no_hash : (ps : List (String × String)) → all_chars is_no_hash (params ps) ≡ true
  pub no_query : (k : String) → parse none k ≡ none
  pub read_query :
      (ps : List (String × String)) (k : String)
      → HasDistinctKeys ps
      → parse (some (params ps)) k ≡ lookup k ps

module _ {J K : Type 0} (schemas : Schemas J K) (params : List (String × String) → String)
    (scoped : String → K) where
  module _ (encode : String → String) (decode : String → Option String)
      (parse : Option String → Query) where
    -- The requests that the routes make of a call.
    abbrev pub requests_by : Call K → AuthState → List (Request J)
    requests_by c st =
        requests_at decode parse (mounts schemas)
          (sent (address encode params scoped c).0 (address encode params scoped c).1 st)

    module _ (coding : IsEncoding encode decode params parse) where
      parsed :
          (ps : List (String × String)) (q : Query) → Asks ps q → parse (query_text params ps) ≡ q
      parsed [] q (d, h) = λ i k. (coding.no_query k ∙ h k) i
      parsed (p ∷ ps) q (d, h) = λ i k. (coding.read_query (p ∷ ps) k d ∙ h k) i

      asked :
          (path : String) (parts : List String) (current : String) (ps : List (String × String))
          (st : AuthState) (made : Query → List (Request J)) (q : Query)
          → scan (in_path [] "") path ≡ in_path parts current
          → requests_for decode parse
              (mounts schemas)
              get
              (close parts current)
              (query_text params ps)
              none
            ≡ made (parse (query_text params ps))
          → Asks ps q
          → requests_at decode parse
              (mounts schemas)
              (sent (path ++ suffix params ps) (record { method = none; body = none }) st)
            ≡ made q
      unfolding sent
      asked path parts current ps st made q e same h =
          requests_at_lem decode parse (mounts schemas) _ _ _
            (scan_asked params coding.no_hash (in_path [] "") path parts current ps e)
          ∙ same
          ∙ ap made (parsed ps q h)

      -- The segments of the turns of a session.
      turns_read :
          (path : String) (parts : List String) (session : String) (ps : List (String × String))
          → scan (in_path [] "") path ≡ in_path parts ""
          → Reads
              (in_path [] "")
              (path ++ (encode session ++ ("/turns" ++ suffix params ps)))
              (close (close parts (encode session)) "turns")
              (query_text params ps)
      unfolding scan
      turns_read path parts session ps e =
          let whole =
            scan_segment (in_path [] "") path (encode session) ("/turns" ++ suffix params ps) parts
              e (coding.plain session) in
          let (named, read) =
            scan_asked params coding.no_hash (in_path parts (encode session)) "/turns"
              (close parts (encode session)) "turns" ps refl in
          (ap parts_of whole ∙ named, ap query_of whole ∙ read)

      asked_turns :
          (path : String) (parts : List String) (session : String) (ps : List (String × String))
          (st : AuthState) (made : Query → List (Request J)) (q : Query)
          → scan (in_path [] "") path ≡ in_path parts ""
          → requests_for decode parse
              (mounts schemas)
              get
              (close (close parts (encode session)) "turns")
              (query_text params ps)
              none
            ≡ made (parse (query_text params ps))
          → Asks ps q
          → requests_at decode parse (mounts schemas) (
              sent
                (path ++ (encode session ++ ("/turns" ++ suffix params ps)))
                (record { method = none; body = none })
                st)
            ≡ made q
      unfolding sent
      asked_turns path parts session ps st made q e same h =
          requests_at_lem decode parse (mounts schemas) _ _ _ (turns_read path parts session ps e)
          ∙ same
          ∙ ap made (parsed ps q h)

      turns_for :
          (session : String) (query : Option String)
          → is_segment session ≡ true
          → requests_for decode parse
              (mounts schemas)
              get
              ("" ∷ "api" ∷ "sessions" ∷ encode session ∷ "turns" ∷ [])
              query
              none
            ≡ App.get_turns session (schemas.page_query (parse query)) ∷ []
      unfolding requests_for mounts
      turns_for session query h =
          let named = coding.named session h in let read = coding.read_back session in ground arith

      viz_turns_for :
          (session : String) (query : Option String)
          → is_segment session ≡ true
          → requests_for decode parse
              (mounts schemas)
              get
              ("" ∷ "api" ∷ "viz" ∷ "sessions" ∷ encode session ∷ "turns" ∷ [])
              query
              none
            ≡ App.viz (Viz.get_session_turns session (schemas.page_query (parse query))) ∷ []
      unfolding requests_for mounts
      viz_turns_for session query h =
          let named = coding.named session h in let read = coding.read_back session in ground arith

      delete_for :
          (session : String)
          → is_segment session ≡ true
          → requests_for decode parse
              (mounts schemas)
              delete
              ("" ∷ "api" ∷ "sessions" ∷ encode session ∷ [])
              none
              none
            ≡ App.delete session ∷ []
      unfolding requests_for mounts
      delete_for session h =
          let named = coding.named session h in let read = coding.read_back session in ground arith

      -- Let ids be written so that each is read back and stands in a path as one segment, and parameters with
      -- distinct keys so that their text has no `#` and the server reads each key's value back. For every call
      -- of the API but one for the brief of the empty scope, whose session's id, if it names one, is neither empty
      -- nor `.` nor `..`, and whose options have distinct keys: of the mounted routes exactly one has the method
      -- and the path of what the client sends for it, whatever the client holds, and what this route makes of it
      -- is the request that the call stands for: with the id, the body, and as its query the options that
      -- are neither undefined nor empty.
      pub requests_by-request_of :
          (c : Call K) (st : AuthState)
          → IsReachable c
          → requests_by c st ≡ request_of schemas scoped c ∷ []
      unfolding requests_at requests_for mounts address sent request_of scan
      requests_by-request_of (list_sessions scope limit offset) st h =
          asked "/api/sessions" ("" ∷ "api" ∷ []) "sessions" (sessions_params scope limit offset) st
            (λ q. App.get_sessions (schemas.sessions_query q) ∷ []) _ refl refl
            (sessions_params-Asks scope limit offset)
      requests_by-request_of (get_session_turns session limit offset) st h =
          asked_turns "/api/sessions/" ("" ∷ "api" ∷ "sessions" ∷ []) session
            (page_params limit offset) st (λ q. App.get_turns session (schemas.page_query q) ∷ []) _
            refl (turns_for session _ h) (page_params-Asks limit offset)
      requests_by-request_of (get_session_turns_with_entities session page) st (h, d) =
          asked_turns "/api/viz/sessions/" ("" ∷ "api" ∷ "viz" ∷ "sessions" ∷ []) session
            (kept page) st
            (λ q. App.viz (Viz.get_session_turns session (schemas.page_query q)) ∷ []) _ refl
            (viz_turns_for session _ h) (kept-Asks page d)
      requests_by-request_of (forget_session session) st h =
          requests_at_lem decode parse (mounts schemas)
            (sent ("/api/sessions/" ++ encode session)
              (record { method = some delete; body = none }) st)
            _ _
            (scan_last (in_path [] "") "/api/sessions/" (encode session)
              ("" ∷ "api" ∷ "sessions" ∷ []) refl (coding.plain session))
          ∙ delete_for session h
      requests_by-request_of (get_graph options) st h =
          asked "/api/viz/graph" ("" ∷ "api" ∷ "viz" ∷ []) "graph" (kept options) st
            (λ q. App.viz (Viz.get_graph (schemas.graph_options q)) ∷ []) _ refl refl
            (kept-Asks options h)
      requests_by-request_of (get_hierarchy options) st h =
          asked "/api/viz/hierarchy" ("" ∷ "api" ∷ "viz" ∷ []) "hierarchy" (kept options) st
            (λ q. App.viz (Viz.get_hierarchy (schemas.hierarchy_options q)) ∷ []) _ refl refl
            (kept-Asks options h)
      requests_by-request_of (get_projection options) st h =
          asked "/api/viz/projection" ("" ∷ "api" ∷ "viz" ∷ []) "projection" (kept options) st
            (λ q. App.viz (Viz.get_projection (schemas.projection_options q)) ∷ []) _ refl refl
            (kept-Asks options h)
      requests_by-request_of (get_growth options) st h =
          asked "/api/viz/growth" ("" ∷ "api" ∷ "viz" ∷ []) "growth" (kept options) st
            (λ q. App.viz (Viz.get_growth (schemas.growth_options q)) ∷ []) _ refl refl
            (kept-Asks options h)
      requests_by-request_of (get_curation_runs page) st h =
          asked "/api/curation/runs" ("" ∷ "api" ∷ "curation" ∷ []) "runs" (kept page) st
            (λ q. App.get_runs (schemas.page_query q) ∷ []) _ refl refl (kept-Asks page h)
      requests_by-request_of (get_curation_actions query) st h =
          asked "/api/curation/actions" ("" ∷ "api" ∷ "curation" ∷ []) "actions" (kept query) st
            (λ q. App.get_actions (schemas.actions_query q) ∷ []) _ refl refl (kept-Asks query h)
      requests_by-request_of (get_brief scope) st h =
          asked "/api/brief" ("" ∷ "api" ∷ []) "brief" (kept (("scope", some scope) ∷ [])) st
            (λ q. App.get_brief (schemas.brief_query q) ∷ []) _ refl refl (scope_of-Asks scope h)
      requests_by-request_of c st h = refl
