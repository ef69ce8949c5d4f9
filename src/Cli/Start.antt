-- ===== src/Cli/Start.antt =====
-- `main` of server/src/curate.ts.
use mcp_zeromem.Common.{
  ℕ, String, Bool, ◌||◌, Option, none, some, List, [], ◌∷◌, ltb, leb, length, if◌then◌else◌,
}
use mcp_zeromem.Config.{Config}
use mcp_zeromem.Config.Env.{Env, env_value}
use mcp_zeromem.Config.Load.{ConfigError, Loaded, stdio, load_config}
use mcp_zeromem.Agent.{RunResult, reported, not_curator, request_failed}
use mcp_zeromem.Cli.{Values, Looked, look_up_job, args_of, lacks_session}
use mcp_zeromem.Cli.Settings.{LlmConfig, AgentConfig, LoadedAgent, load_agent_config}

-- The server that is curated: one over HTTP with a token, or the store that is opened here.
pub data Target : Type 0 where
  remote : String → String → Target
  opened_here : Config → Target

pub record Plan : Type 0 where
  pub prompt : Looked
  pub args : List (String × String)
  pub llm : LlmConfig
  pub max_steps : ℕ
  pub target : Target

pub data CliError : Type 0 where
  unknown_job : List String → CliError
  session_missing : CliError
  bad_agent : List String → CliError
  bad_steps : CliError
  dry_run_remote : CliError
  token_missing : CliError
  bad_config : ConfigError → CliError

pub data Start : Type 0 where
  usage : Start
  refused : CliError → Start
  go : Plan → Start

abbrev pub first_job : List String → String
first_job [] = "sweep"
first_job (job ∷ rest) = job

module _ (resolve : String → String) (number : String → Option ℕ) (is_url : String → Bool)
    (is_inherited : String → Bool) (env : Env) (values : Values) where
  abbrev pub steps_of : Option String → ℕ → Option ℕ
  steps_of none configured = some configured
  steps_of (some text) configured = number text

  -- `{ ...loaded, readOnly: loaded.readOnly || values['dry-run'] }`
  abbrev pub served_config : Config → Config
  served_config c = record c { read_only = c.read_only || values.dry_run }

  abbrev pub opened_store : (Target → Plan) → Loaded → Start
  opened_store plan (Loaded.loaded c) = go (plan (opened_here (served_config c)))
  opened_store plan (Loaded.refused e) = refused (bad_config e)

  abbrev pub with_token : (Target → Plan) → String → Option String → Start
  with_token plan url none = refused token_missing
  with_token plan url (some token) = go (plan (remote url token))

  abbrev pub connect : (Target → Plan) → Option String → Start
  connect plan none = opened_store plan (load_config resolve number is_url env stdio)
  connect plan (some url) =
      if values.dry_run
      then refused dry_run_remote
      else with_token plan url (env_value env "MCP_ZEROMEM_CURATOR_TOKEN")

  abbrev pub with_steps : Looked → String → AgentConfig → Option ℕ → Start
  with_steps prompt job agent none = refused bad_steps
  with_steps prompt job agent (some n) =
      if leb 1 n
      then connect
          (λ (t : Target). record {
            prompt = prompt;
            args = args_of job values;
            llm = agent.llm;
            max_steps = n;
            target = t;
          })
          agent.mcp_url
      else refused bad_steps

  abbrev pub with_agent : Looked → String → LoadedAgent → Start
  with_agent prompt job (LoadedAgent.invalid keys) = refused (bad_agent keys)
  with_agent prompt job (LoadedAgent.loaded agent) =
      with_steps prompt job agent (steps_of values.max_steps agent.max_steps)

  abbrev pub with_prompt : List String → String → Option Looked → Start
  with_prompt positionals job none = refused (unknown_job positionals)
  with_prompt positionals job (some prompt) =
      if ltb 1 (length positionals)
      then refused (unknown_job positionals)
      else if lacks_session job values
      then refused session_missing
      else with_agent prompt job (load_agent_config number is_url env)

  unfoldable pub start : List String → Start
  unfolding look_up_job
  start positionals =
      if values.help
      then usage
      else with_prompt positionals (first_job positionals)
          (look_up_job is_inherited (first_job positionals))

-- How the run ends: its report, or an exception of the connection or of `runCurator`.
pub data Session : Type 0 where
  connect_failed : Session
  ran : RunResult → Session

abbrev pub code_of : Session → ℕ
code_of connect_failed = 1
code_of (ran (reported report)) = if report.finished then 0 else 1
code_of (ran not_curator) = 1
code_of (ran request_failed) = 1

-- The exit code, `session` being the run of the plan.
unfoldable pub exit_code : (Plan → Session) → Start → ℕ
exit_code session usage = 0
exit_code session (refused e) = 1
exit_code session (go plan) = code_of (session plan)
