-- ===== src/Api/App.antt =====
-- The application that mounts the routes behind its authentication (server/src/app.ts).
pub mod Gates
pub mod Keeps
pub mod Untouched
pub mod Wakes
pub mod Guarded
pub mod Mounts
pub mod Examples
use mcp_zeromem.Common.{ℕ, String, Bool, true, false, Option, none, some, if◌then◌else◌}
use mcp_zeromem.Ingest.{Reading}
use mcp_zeromem.Config.{Config}
use mcp_zeromem.Auth.{AuthConfig, Decision, granted, unauthorized, errored, auth_middleware}
use mcp_zeromem.Curator.{CuratorSettingsUpdate}
use mcp_zeromem.Api.{World, Ending, done, thrown}
use mcp_zeromem.Api.Engine.{
  Failure, Engine, PageQuery, SessionsQuery, CurationActionsQuery, UndoRequest, ClearScope,
  EmbedderChangeRequest, RecallRequest,
}
use mcp_zeromem.Api.Reply.{Checked, Body, HttpReply, error, error_middleware}
use mcp_zeromem.Api.Curator.{Clock}
use mcp_zeromem.Api.Routes.{
  IngestRequest, show_status, list_sessions, read_turns, forget_session, recall, trace,
  ingest_route, read_brief, list_runs, list_actions, list_aliases, undo,
}
use mcp_zeromem.Api.Settings.{
  show_embedder, test_embedder, switch_embedder, reembed, clear_store, show_curator, put_curator,
  mint_token, show_discovery, put_discovery,
}
use mcp_zeromem.Api.Viz.{VizRequest, view}

-- A request to one of the routes, with what its schema makes of it.
pub data Request (J : Type 0) : Type 0 where
  get_status : Request J
  get_sessions : Checked SessionsQuery → Request J
  get_turns : String → Checked PageQuery → Request J
  delete : String → Request J
  post_recall : Checked (RecallRequest J) → Request J
  post_trace : Checked (RecallRequest J) → Request J
  post_ingest : Checked IngestRequest → Request J
  get_brief : Checked (Option String) → Request J
  get_runs : Checked PageQuery → Request J
  get_actions : Checked CurationActionsQuery → Request J
  get_aliases : Request J
  post_undo : Checked UndoRequest → Request J
  get_embedder : Request J
  probe : Checked (EmbedderChangeRequest J) → Request J
  change_embedder : Checked (EmbedderChangeRequest J) → Request J
  post_reembed : Request J
  post_clear : Checked ClearScope → Request J
  get_curator : Request J
  change_curator : Checked CuratorSettingsUpdate → Request J
  post_token : Request J
  get_discovery : Request J
  change_discovery : Checked Bool → Request J
  viz : VizRequest J → Request J

-- What `buildApp` makes of the configuration for the authentication.
abbrev pub auth_config : Config → AuthConfig
auth_config config = record {
  enabled = elim config.auth_token [ none ↦ false | some t ↦ true ];
  token = config.auth_token;
}

-- What a request meets that is not the state of the server: the milliseconds since it was started, the
-- clock, a token minted for it, and what a line of JSONL is read as.
pub record Circumstances : Type 0 where
  pub uptime : ℕ
  pub clock : Clock
  pub minted : String
  pub read : String → Reading

abbrev pub is_public : {J : Type 0} → Request J → Bool
is_public get_status = true
is_public _ = false

module _ {S J : Type 0} (e : Engine S J) (config : Config) where
  -- The route that a request comes to.
  unfoldable pub handle : Circumstances → Request J → World S → Ending (Body J) × World S
  handle c get_status = show_status e config c.uptime
  handle c (get_sessions query) = list_sessions e query
  handle c (get_turns id query) = read_turns e id query
  handle c (delete id) = forget_session e config id
  handle c (post_recall body) = recall e body
  handle c (post_trace body) = trace e body
  handle c (post_ingest body) = ingest_route e config c.read body
  handle c (get_brief query) = read_brief e config query
  handle c (get_runs query) = list_runs e query
  handle c (get_actions query) = list_actions e query
  handle c get_aliases = list_aliases e
  handle c (post_undo body) = undo e config body
  handle c get_embedder = show_embedder e
  handle c (probe body) = test_embedder e body
  handle c (change_embedder body) = switch_embedder e config.read_only body
  handle c post_reembed = reembed e config.read_only
  handle c (post_clear body) = clear_store e config.read_only body
  handle c get_curator = show_curator e c.clock
  handle c (change_curator body) = put_curator e config.read_only c.clock body
  handle c post_token = mint_token e config.read_only c.clock c.minted
  handle c get_discovery = show_discovery e
  handle c (change_discovery body) = put_discovery e config.read_only body
  handle c (viz r) = view e r

  -- `res.json(body)`, or `next(err)` and the error middleware.
  abbrev pub render : Ending (Body J) × World S → HttpReply J × World S
  render (done body, w) = (record { status = 200; body = body }, w)
  render (thrown t, w) = (error_middleware t, w)

  -- What follows the authentication of a request.
  abbrev authorized : Decision → (World S → HttpReply J × World S) → World S → HttpReply J × World S
  authorized (granted scope) k w = k w
  authorized (unauthorized message) k w = (record { status = 401; body = error message none }, w)
  authorized errored k w = (record { status = 500; body = error "Internal server error" none }, w)

  -- A request with its Authorization header; `/api/status` is mounted ahead of the authentication.
  unfoldable pub request :
      (String → String)
      → Circumstances
      → Option String
      → Request J
      → World S
      → HttpReply J × World S
  unfolding handle
  request digest c header r w =
      if is_public r
      then render (handle c r w)
      else authorized (auth_middleware digest (auth_config config) header)
          (λ v. render (handle c r v)) w
