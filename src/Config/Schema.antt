-- ===== src/Config/Schema.antt =====
-- The schema of server/src/config.ts, on what is read from the environment. Whether zod takes a text for a
-- URL is a parameter. Of an issue, its path is kept.
use mcp_zeromem.Common.{
  ℕ, String, Bool, true, false, ◌&&◌, Option, none, some, List, [], ◌∷◌, ◌++◌, leb, ltb,
  if◌then◌else◌, or_else, str_eq,
}
use mcp_zeromem.Common.Text.{utf16_length}
use mcp_zeromem.Memory.{non_empty, optional}
use mcp_zeromem.Config.{
  Config, RemoteEmbedder, EmbedderChoice, auto, onnx, hash, openai, no_embedder,
}

-- The endpoint before it is checked; `timeout_ms` is absent, or what `Number` makes of it.
pub record RawRemote : Type 0 where
  pub url : Option String
  pub model : Option String
  pub query_prefix : String
  pub document_prefix : String
  pub timeout_ms : Option (Option ℕ)

-- What is handed to the schema.
pub record RawConfig : Type 0 where
  pub data_dir : String
  pub port : Option ℕ
  pub keep_alive_timeout_ms : Option ℕ
  pub auth_token : Option String
  pub read_only : Option Bool
  pub recall_text_limit : Option ℕ
  pub embedder : String
  pub allow_embedder_switch : Option Bool
  pub remote_embedder : Option RawRemote
  pub embedding_api_key : Option String
  pub session_id : Option String
  pub scope : Option String
  pub curator_token : Option String
  pub curator : Option Bool

abbrev pub choice : String → Option EmbedderChoice
choice name =
    if str_eq name "auto"
    then some auto
    else if str_eq name "onnx"
    then some onnx
    else if str_eq name "hash"
    then some hash
    else if str_eq name "openai"
    then some openai
    else if str_eq name "none"
    then some no_embedder
    else none

abbrev pub holds {ℓ} : {A : Type ℓ} → (A → Bool) → Option A → Bool
holds p none = false
holds p (some a) = p a

abbrev pub is_given {ℓ} : {A : Type ℓ} → Option A → Bool
is_given o = holds (λ a. true) o

-- The paths of the checks that fail.
abbrev pub failing : List (Bool × List String) → List (List String)
failing [] = []
failing ((true, path) ∷ checks) = failing checks
failing ((false, path) ∷ checks) = path ∷ failing checks

abbrev pub in_limit : ℕ → Bool
in_limit n = leb 100 n && leb n 20000

abbrev pub long_enough : String → Bool
long_enough s = leb 16 (utf16_length s)

abbrev pub timeout_holds : Option (Option ℕ) → Bool
timeout_holds none = true
timeout_holds (some n) = holds (ltb 0) n

abbrev timeout_of : Option (Option ℕ) → ℕ
timeout_of none = 5000
timeout_of (some n) = or_else n 0

module _ (is_url : String → Bool) where
  -- The checks of `remoteEmbedderSpecSchema`.
  abbrev pub remote_checks : Option RawRemote → List (Bool × List String)
  remote_checks none = []
  remote_checks (some r) =
      (holds is_url r.url, "remoteEmbedder" ∷ "url" ∷ [])
      ∷ (holds non_empty r.model, "remoteEmbedder" ∷ "model" ∷ [])
      ∷ (timeout_holds r.timeout_ms, "remoteEmbedder" ∷ "timeout_ms" ∷ [])
      ∷ []

  abbrev pub rest_checks : RawConfig → List (Bool × List String)
  rest_checks r =
      (optional non_empty r.embedding_api_key, "embeddingApiKey" ∷ [])
      ∷ (optional non_empty r.session_id, "sessionId" ∷ [])
      ∷ (optional non_empty r.scope, "scope" ∷ [])
      ∷ (optional long_enough r.curator_token, "curatorToken" ∷ [])
      ∷ (is_given r.curator, "curator" ∷ [])
      ∷ []

  -- Those of `configSchema`, in the order of its fields.
  abbrev pub checks : RawConfig → List (Bool × List String)
  checks r =
      (non_empty r.data_dir, "dataDir" ∷ [])
      ∷ (holds (ltb 0) r.port, "port" ∷ [])
      ∷ (is_given r.keep_alive_timeout_ms, "keepAliveTimeoutMs" ∷ [])
      ∷ (optional non_empty r.auth_token, "authToken" ∷ [])
      ∷ (is_given r.read_only, "readOnly" ∷ [])
      ∷ (holds in_limit r.recall_text_limit, "recallTextLimit" ∷ [])
      ∷ (is_given (choice r.embedder), "embedder" ∷ [])
      ∷ (is_given r.allow_embedder_switch, "allowEmbedderSwitch" ∷ [])
      ∷ (remote_checks r.remote_embedder ++ rest_checks r)

  unfoldable pub issues : RawConfig → List (List String)
  issues r = failing (checks r)

abbrev remote_of : Option RawRemote → Option RemoteEmbedder
remote_of none = none
remote_of (some r) = some (record {
  url = or_else r.url "";
  model = or_else r.model "";
  query_prefix = r.query_prefix;
  document_prefix = r.document_prefix;
  timeout_ms = timeout_of r.timeout_ms;
})

-- The value that the schema gives where it finds no issue; no default of `or_else` is used then.
unfoldable pub parsed_config : RawConfig → Config
parsed_config r = record {
  data_dir = r.data_dir;
  port = or_else r.port 0;
  keep_alive_timeout_ms = or_else r.keep_alive_timeout_ms 0;
  auth_token = r.auth_token;
  read_only = or_else r.read_only false;
  recall_text_limit = or_else r.recall_text_limit 0;
  embedder = or_else (choice r.embedder) auto;
  allow_embedder_switch = or_else r.allow_embedder_switch false;
  remote_embedder = remote_of r.remote_embedder;
  embedding_api_key = r.embedding_api_key;
  session_id = r.session_id;
  scope = r.scope;
  curator_token = r.curator_token;
  curator = or_else r.curator false;
}
