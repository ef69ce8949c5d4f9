-- ===== src/Gateway/Server.antt =====
-- The MCP server that a request to /mcp and a stdio process are answered by (server/src/gateway/server.ts,
-- routes.ts, server/src/stdio.ts): its instructions, the tools as they are announced, its prompts, and the
-- resource that a brief is read as. The date of a time and decodeURIComponent are parameters, and so are
-- the engine's calls.
pub mod Announced
mod Examples
use Prim.Native.String.{◌++◌}
use mcp_zeromem.Common.{
  ℕ, String, Bool, true, false, ◌||◌, Option, none, some, or_else, List, [], ◌∷◌, map, str_eq,
  if◌then◌else◌,
}
use mcp_zeromem.Common.Text.{truthy, join}
use mcp_zeromem.Memory.{StoredTurn}
use mcp_zeromem.Config.{Config}
use mcp_zeromem.Auth
use mcp_zeromem.Auth.{Decision, granted, unauthorized, errored}
use mcp_zeromem.Api.Engine.{Called, returned, rejected}
use mcp_zeromem.Gateway.{ToolDefinition, is_read, all_tools}
use mcp_zeromem.Gateway.Prompts.{CuratorPrompt, served_prompts}

abbrev pub unscoped_brief : String
unscoped_brief = "_"

pub record Annotations : Type 0 where
  pub read_only_hint : Bool
  pub destructive_hint : Bool
  pub idempotent_hint : Bool
  pub open_world_hint : Bool

-- What a client is told of a tool, less its texts and its schema.
pub record RegisteredTool : Type 0 where
  pub name : String
  pub annotations : Annotations

pub record McpServer : Type 0 where
  pub instructions : Option String
  pub tools : List RegisteredTool
  pub prompts : List CuratorPrompt

-- The annotations that `registerTool` is given.
unfoldable pub registered : ToolDefinition → RegisteredTool
registered t = record {
  name = t.name;
  annotations = record {
    read_only_hint = is_read t.kind;
    destructive_hint = t.destructive;
    idempotent_hint = true;
    open_world_hint = false;
  };
}

abbrev place_of : Option String → String
place_of none = "this memory"
place_of (some scope) = "scope " ++ scope

unfoldable pub brief_instructions : (ℕ → String) → StoredTurn → String
unfolding join
brief_instructions day brief = join "\n" (
    ("Standing brief for "
      ++ place_of (truthy brief.scope)
      ++ ", written by the memory's curator on "
      ++ day brief.ts
      ++ ". It summarises what earlier")
    ∷ "conversations established; zeromem_recall has the turns behind it and whatever it leaves out or that"
    ∷ "came later."
    ∷ ""
    ∷ brief.text
    ∷ [])

abbrev pub instructions_of : (ℕ → String) → Option StoredTurn → Option String
unfolding brief_instructions
instructions_of day none = none
instructions_of day (some brief) = some (brief_instructions day brief)

unfoldable pub create_gateway_server : (ℕ → String) → Bool → Bool → Option StoredTurn → McpServer
unfolding registered instructions_of all_tools served_prompts
create_gateway_server day curator read_only brief = record {
  instructions = instructions_of day brief;
  tools = map registered (all_tools curator read_only);
  prompts = served_prompts curator;
}

-- The scope that a URI of the resource names, `given` being its variable, for a URI that can be decoded.
unfoldable pub resource_scope : (String → String) → String → String
resource_scope decode given =
    let scope = decode given in if str_eq scope unscoped_brief then "" else scope

abbrev pub resource_text : Called (Option StoredTurn) → Called String
resource_text (returned none) = returned ""
resource_text (returned (some brief)) = returned brief.text
resource_text (rejected f) = rejected f

module _ {S : Type 0} (brief : String → S → Called (Option StoredTurn) × S) where
  -- The text of the resource `zeromem_brief`.
  unfoldable pub read_resource : (String → String) → String → S → Called String × S
  unfolding resource_scope
  read_resource decode given s =
      let found = brief (resource_scope decode given) s in (resource_text found.0, found.1)

  abbrev pub with_brief :
      (Option StoredTurn → McpServer) → Called (Option StoredTurn) × S → Called McpServer × S
  with_brief make (returned found, s) = (returned (make found), s)
  with_brief make (rejected f, s) = (rejected f, s)

  -- `brief` of the route: only `initialize` has it read.
  abbrev pub route_brief : Bool → Option String → S → Called (Option StoredTurn) × S
  route_brief true scope s = brief (or_else scope "") s
  route_brief false scope s = (returned none, s)

  module _ (day : ℕ → String) (config : Config) (expose_to_all : S → Called Bool × S) where
    abbrev make_server : Bool → Bool → S → Called McpServer × S
    make_server curator initialize s =
        with_brief (create_gateway_server day curator config.read_only)
          (route_brief initialize config.scope s)

    abbrev exposed_server : Bool → Called Bool × S → Called McpServer × S
    exposed_server initialize (returned exposed, s) = make_server exposed initialize s
    exposed_server initialize (rejected f, s) = (rejected f, s)

    -- The server that answers a request to /mcp, if the request comes so far.
    unfoldable pub route_server : Decision → Bool → S → Option (Called McpServer × S)
    route_server (granted Auth.curator) initialize s = some (make_server true initialize s)
    route_server (granted Auth.default) initialize s =
        some (exposed_server initialize (expose_to_all s))
    route_server (unauthorized message) initialize s = none
    route_server errored initialize s = none

    -- The server of a stdio process; its brief is read at the start.
    unfoldable pub stdio_server : S → Called McpServer × S
    stdio_server s =
        if config.curator then make_server true true s else exposed_server true (expose_to_all s)
