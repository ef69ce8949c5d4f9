-- ===== src/Config/Load.antt =====
-- `loadConfig` of server/src/config.ts. Parameters are `path.resolve`, `Number` (`none` where it is no
-- natural number), and whether zod takes a text for a URL.
use mcp_zeromem.Common.{
  ℕ, String, Bool, true, false, not, ◌&&◌, ◌||◌, Option, none, some, List, [], ◌∷◌, map,
  if◌then◌else◌, or_else, str_eq,
}
use mcp_zeromem.Common.Text.{truthy}
use mcp_zeromem.Auth.{auth_disabled_by_env}
use mcp_zeromem.Config.{Config, EmbedderChoice, openai}
use mcp_zeromem.Config.Env.{Env, env_value, env_boolean, trimmed, env_key_for}
use mcp_zeromem.Config.Schema.{RawRemote, RawConfig, is_given, issues, parsed_config}

pub data ConfigError : Type 0 where
  invalid : List String → ConfigError  -- the variables at fault
  no_endpoint : ConfigError
  home_differs : String → String → ConfigError
  no_token : ConfigError

pub data Loaded : Type 0 where
  loaded : Config → Loaded
  refused : ConfigError → Loaded

pub data Transport : Type 0 where
  http stdio : Transport

abbrev pub is_openai : EmbedderChoice → Bool
is_openai openai = true
is_openai _ = false

-- `assertAuthConfigured`, for a server that listens.
unfoldable pub assert_auth_configured : Env → Transport → Config → Loaded
unfolding auth_disabled_by_env
assert_auth_configured env stdio c = loaded c
assert_auth_configured env http c =
    if is_given (truthy c.auth_token) || auth_disabled_by_env (env "SECURE_LOCAL_NET")
    then loaded c
    else refused no_token

module _ (resolve : String → String) (number : String → Option ℕ) (is_url : String → Bool) where
  abbrev number_or : Option String → ℕ → Option ℕ
  number_or none n = some n
  number_or (some text) n = number text

  abbrev raw_timeout : Option String → Option (Option ℕ)
  raw_timeout none = none
  raw_timeout (some text) = some (number text)

  -- `none` stands for null.
  unfoldable pub remote_embedder_from_env : Env → Option RawRemote
  unfolding env_value
  remote_embedder_from_env env =
      let url = env_value env "ZEROMEM_EMBEDDING_URL" in
      let model = env_value env "ZEROMEM_EMBEDDING_MODEL" in
      if is_given url || is_given model
      then some (record {
        url = url;
        model = model;
        query_prefix = or_else (env "ZEROMEM_EMBEDDING_QUERY_PREFIX") "";
        document_prefix = or_else (env "ZEROMEM_EMBEDDING_DOCUMENT_PREFIX") "";
        timeout_ms = raw_timeout (env_value env "ZEROMEM_EMBEDDING_TIMEOUT_MS");
      })
      else none

  unfoldable pub raw_config : Env → RawConfig
  unfolding env_value env_boolean remote_embedder_from_env
  raw_config env = record {
    data_dir = resolve (or_else (env_value env "DATA_DIR") "./data");
    port = number_or (env_value env "PORT") 3000;
    keep_alive_timeout_ms = number_or (env_value env "HTTP_KEEP_ALIVE_TIMEOUT_MS") 75000;
    auth_token = env_value env "MCP_ZEROMEM_TOKEN";
    read_only = env_boolean env "ZEROMEM_READ_ONLY" false;
    recall_text_limit = number_or (env_value env "ZEROMEM_RECALL_TEXT_LIMIT") 2000;
    embedder = or_else (env_value env "ZEROMEM_EMBEDDER") "auto";
    allow_embedder_switch = env_boolean env "ZEROMEM_ALLOW_EMBEDDER_SWITCH" false;
    remote_embedder = remote_embedder_from_env env;
    embedding_api_key = env_value env "ZEROMEM_EMBEDDING_API_KEY";
    session_id = env_value env "ZEROMEM_SESSION_ID";
    scope = trimmed (env_value env "ZEROMEM_SCOPE");
    curator_token = env_value env "MCP_ZEROMEM_CURATOR_TOKEN";
    curator = env_boolean env "ZEROMEM_CURATOR" false;
  }

  abbrev pub check_home : Option String → Config → Loaded → Loaded
  check_home none c next = next
  check_home (some home) c next =
      if str_eq (resolve home) c.data_dir
      then next
      else refused (home_differs (resolve home) c.data_dir)

  -- `assertHomeMatches`, and what comes after it.
  unfoldable pub assert_home_matches : Env → Config → Loaded → Loaded
  unfolding env_value
  assert_home_matches env c next = check_home (env_value env "ZEROMEM_HOME") c next

  unfoldable pub finish : Env → Transport → Config → Loaded
  unfolding assert_auth_configured assert_home_matches
  finish env transport c =
      if is_openai c.embedder && not (is_given c.remote_embedder)
      then refused no_endpoint
      else assert_home_matches env c (assert_auth_configured env transport c)

  unfoldable pub checked : Env → Transport → Config → List (List String) → Loaded
  unfolding finish env_key_for
  checked env transport c [] = finish env transport c
  checked env transport c (i ∷ is) = refused (invalid (map env_key_for (i ∷ is)))

  unfoldable pub load_config : Env → Transport → Loaded
  unfolding raw_config issues parsed_config checked
  load_config env transport =
      checked env transport (parsed_config (raw_config env)) (issues is_url (raw_config env))
