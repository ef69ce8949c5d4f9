-- ===== src/Config/Env.antt =====
-- How server/src/config.ts reads the environment. An environment gives the text of a variable, or none.
use mcp_zeromem.Common.{
  String, Bool, true, false, Option, none, some, List, [], ◌∷◌, if◌then◌else◌, or_else, str_eq,
}
use mcp_zeromem.Common.Text.{trim, truthy, is_one_of, join}

abbrev pub Env : Type 0
Env = String → Option String

abbrev pub trimmed : Option String → Option String
trimmed none = none
trimmed (some raw) = truthy (some (trim raw))

unfoldable pub env_value : Env → String → Option String
unfolding trim
env_value env key = trimmed (env key)

abbrev pub truthy_words : List String
truthy_words = "1" ∷ "true" ∷ "yes" ∷ "on" ∷ []

abbrev pub falsy_words : List String
falsy_words = "0" ∷ "false" ∷ "no" ∷ "off" ∷ []

unfoldable pub read_boolean : Bool → Option String → Option Bool
unfolding is_one_of
read_boolean fallback none = some fallback
read_boolean fallback (some raw) =
    if is_one_of truthy_words raw
    then some true
    else if is_one_of falsy_words raw
    then some false
    else none

-- `none` where the value is not recognized.
unfoldable pub env_boolean : Env → String → Bool → Option Bool
unfolding env_value read_boolean
env_boolean env key fallback = read_boolean fallback (env_value env key)

-- `ENV_KEYS`
abbrev pub env_keys : List (String × String)
env_keys =
    ("dataDir", "DATA_DIR")
    ∷ ("port", "PORT")
    ∷ ("keepAliveTimeoutMs", "HTTP_KEEP_ALIVE_TIMEOUT_MS")
    ∷ ("authToken", "MCP_ZEROMEM_TOKEN")
    ∷ ("readOnly", "ZEROMEM_READ_ONLY")
    ∷ ("recallTextLimit", "ZEROMEM_RECALL_TEXT_LIMIT")
    ∷ ("embedder", "ZEROMEM_EMBEDDER")
    ∷ ("allowEmbedderSwitch", "ZEROMEM_ALLOW_EMBEDDER_SWITCH")
    ∷ ("remoteEmbedder", "ZEROMEM_EMBEDDING_URL")
    ∷ ("embeddingApiKey", "ZEROMEM_EMBEDDING_API_KEY")
    ∷ ("sessionId", "ZEROMEM_SESSION_ID")
    ∷ ("scope", "ZEROMEM_SCOPE")
    ∷ ("curatorToken", "MCP_ZEROMEM_CURATOR_TOKEN")
    ∷ ("curator", "ZEROMEM_CURATOR")
    ∷ []

-- `REMOTE_ENV`
abbrev pub remote_env : List (String × String)
remote_env =
    ("url", "ZEROMEM_EMBEDDING_URL")
    ∷ ("model", "ZEROMEM_EMBEDDING_MODEL")
    ∷ ("query_prefix", "ZEROMEM_EMBEDDING_QUERY_PREFIX")
    ∷ ("document_prefix", "ZEROMEM_EMBEDDING_DOCUMENT_PREFIX")
    ∷ ("timeout_ms", "ZEROMEM_EMBEDDING_TIMEOUT_MS")
    ∷ []

abbrev pub look_up : List (String × String) → String → Option String
look_up [] key = none
look_up ((k, v) ∷ rest) key = if str_eq k key then some v else look_up rest key

abbrev field_key : String → List String → String
field_key field path = or_else (look_up env_keys field) (join "." path)

unfoldable pub env_key_for : List String → String
unfolding join
env_key_for [] = or_else (look_up env_keys "") ""
env_key_for (field ∷ []) = field_key field (field ∷ [])
env_key_for (field ∷ sub ∷ rest) =
    if str_eq field "remoteEmbedder"
    then or_else (look_up remote_env sub) (field_key field (field ∷ sub ∷ rest))
    else field_key field (field ∷ sub ∷ rest)
