-- ===== src/Cli/Settings.antt =====
-- server/src/curator-agent/config.ts: what the curator's run reads from the environment.
use mcp_zeromem.Common.{ℕ, String, Bool, ◌&&◌, Option, none, some, List, [], ◌∷◌, map, leb, or_else}
use mcp_zeromem.Common.Text.{join}
use mcp_zeromem.Memory.{non_empty, optional}
use mcp_zeromem.Config.Env.{Env, env_value, look_up}
use mcp_zeromem.Config.Schema.{holds, failing}

-- `LlmConfig`, less `maxTokens`, which a run of the curator leaves unset.
pub record LlmConfig : Type 0 where
  pub url : String
  pub model : String
  pub api_key : Option String
  pub timeout_ms : ℕ

pub record AgentConfig : Type 0 where
  pub llm : LlmConfig
  pub mcp_url : Option String
  pub max_steps : ℕ

-- What is handed to the schema; `none` is what `Number` makes of no natural number.
pub record RawAgent : Type 0 where
  pub url : String
  pub model : String
  pub api_key : Option String
  pub timeout_ms : Option ℕ
  pub mcp_url : Option String
  pub max_steps : Option ℕ

-- `ENV_KEYS`
abbrev pub agent_env_keys : List (String × String)
agent_env_keys =
    ("llm.url", "ZEROMEM_CURATOR_LLM_URL")
    ∷ ("llm.model", "ZEROMEM_CURATOR_LLM_MODEL")
    ∷ ("llm.apiKey", "ZEROMEM_CURATOR_LLM_API_KEY")
    ∷ ("llm.timeoutMs", "ZEROMEM_CURATOR_LLM_TIMEOUT_MS")
    ∷ ("mcpUrl", "ZEROMEM_CURATOR_MCP_URL")
    ∷ ("maxSteps", "ZEROMEM_CURATOR_MAX_STEPS")
    ∷ []

unfoldable pub agent_key : List String → String
unfolding join
agent_key path = or_else (look_up agent_env_keys (join "." path)) (join "." path)

pub data LoadedAgent : Type 0 where
  loaded : AgentConfig → LoadedAgent
  invalid : List String → LoadedAgent

module _ (number : String → Option ℕ) (is_url : String → Bool) where
  abbrev number_or : Option String → ℕ → Option ℕ
  number_or none n = some n
  number_or (some text) n = number text

  unfoldable pub raw_agent : Env → RawAgent
  unfolding env_value
  raw_agent env = record {
    url = or_else (env_value env "ZEROMEM_CURATOR_LLM_URL") "";
    model = or_else (env_value env "ZEROMEM_CURATOR_LLM_MODEL") "";
    api_key = env_value env "ZEROMEM_CURATOR_LLM_API_KEY";
    timeout_ms = number_or (env_value env "ZEROMEM_CURATOR_LLM_TIMEOUT_MS") 600000;
    mcp_url = env_value env "ZEROMEM_CURATOR_MCP_URL";
    max_steps = number_or (env_value env "ZEROMEM_CURATOR_MAX_STEPS") 40;
  }

  -- The checks of `agentConfigSchema`, in the order of its fields.
  abbrev pub agent_checks : RawAgent → List (Bool × List String)
  agent_checks r =
      (is_url r.url, "llm" ∷ "url" ∷ [])
      ∷ (non_empty r.model, "llm" ∷ "model" ∷ [])
      ∷ (holds (leb 1000) r.timeout_ms, "llm" ∷ "timeoutMs" ∷ [])
      ∷ (optional is_url r.mcp_url, "mcpUrl" ∷ [])
      ∷ (holds (λ n. leb 1 n && leb n 500) r.max_steps, "maxSteps" ∷ [])
      ∷ []

  -- The value that the schema gives where it finds no issue; no default of `or_else` is used then.
  abbrev pub parsed_agent : RawAgent → AgentConfig
  parsed_agent r = record {
    llm = record {
      url = r.url;
      model = r.model;
      api_key = r.api_key;
      timeout_ms = or_else r.timeout_ms 0;
    };
    mcp_url = r.mcp_url;
    max_steps = or_else r.max_steps 0;
  }

  abbrev pub settle : RawAgent → List (List String) → LoadedAgent
  settle r [] = loaded (parsed_agent r)
  settle r (i ∷ is) = invalid (map agent_key (i ∷ is))

  unfoldable pub load_agent_config : Env → LoadedAgent
  unfolding raw_agent agent_key
  load_agent_config env = let r = raw_agent env in settle r (failing (agent_checks r))
