-- ===== src/Cli/Examples.antt =====
-- Calls of the command of server/src/curate.ts.
use mcp_zeromem.Common.{
  ℕ, ◌≤◌, ◌≡◌, ◌⊎◌, refl, arith, All, String, Bool, true, false, Option, none, some, List, [], ◌∷◌,
  str_eq, if◌then◌else◌,
}
use mcp_zeromem.Common.Text.{is_space, utf16_length, join}
use mcp_zeromem.Config.{Config}
use mcp_zeromem.Config.Env.{Env}
use mcp_zeromem.Config.Schema.{issues, parsed_config}
use mcp_zeromem.Config.Load.{load_config, raw_config, checked, finish}
use mcp_zeromem.Gateway.Prompts.{CuratorPrompt, find_prompt, served_prompts}
use mcp_zeromem.Gateway.Tools.Calls.{Call, forget_session}
use mcp_zeromem.Gateway.Tools.Examples.{
  small, laws, frozen, day, fixed, read_line, read_file, stringify,
}
use mcp_zeromem.Cli.{Values, jobs, own, inherited, look_up_job, args_of}
use mcp_zeromem.Cli.Settings.{load_agent_config, raw_agent}
use mcp_zeromem.Cli.Start.{Plan, go, refused, unknown_job, start, opened_here}
use mcp_zeromem.Cli.DryRun.{call_all, dry_run_keeps}
use mcp_zeromem.Cli.Jobs.{job_prompts}

abbrev number : String → Option ℕ
number text = if str_eq text "7" then some 7 else none

abbrev any_url : String → Bool
any_url text = true

abbrev same : String → String
same path = path

abbrev is_inherited : String → Bool
is_inherited name = str_eq name "toString"

abbrev env : Env
env key =
    if str_eq key "ZEROMEM_CURATOR_LLM_URL"
    then some "http://localhost/v1"
    else if str_eq key "ZEROMEM_CURATOR_LLM_MODEL"
    then some "qwen"
    else none

abbrev values : Values
values = record {
  focus = none;
  session = some "s1";
  entity = none;
  scope = none;
  max_steps = some "7";
  dry_run = true;
  help = false;
}

abbrev served : Config
served = record frozen { data_dir = "./data" }

abbrev plan : Plan
plan = record {
  prompt = own "zeromem_curate_session";
  args = ("session_id", "s1") ∷ [];
  llm = record {
    url = "http://localhost/v1";
    model = "qwen";
    api_key = none;
    timeout_ms = 600_000;
  };
  max_steps = 7;
  target = opened_here served;
}

planned : start same number any_url is_inherited env values ("session" ∷ []) ≡ go plan
unfolding start look_up_job jobs args_of load_agent_config raw_agent load_config raw_config issues
    checked finish parsed_config utf16_length is_space join
planned = refl

misspelt :
    start same number any_url is_inherited env values ("sessions" ∷ [])
    ≡ refused (unknown_job ("sessions" ∷ []))
unfolding start look_up_job jobs
misspelt = refl

-- A name that every object has is not refused.
not_misspelt : look_up_job is_inherited "toString" ≡ some (inherited "toString")
unfolding look_up_job jobs
not_misspelt = refl

abbrev calls : List (Call ℕ ℕ)
calls = forget_session "s1" ∷ forget_session "s2" ∷ []

dry_run_keeps_example :
    (c : Config) × (plan.target ≡ opened_here c)
    × (2 ≤ call_all small day fixed read_line read_file stringify c calls 2)
dry_run_keeps_example =
    dry_run_keeps small day fixed read_line read_file stringify (λ s. 2 ≤ s) laws same number
      any_url is_inherited env values ("session" ∷ []) plan calls 2 planned refl (omega arith)

job_prompts_example :
    (p : CuratorPrompt) × (find_prompt (served_prompts true) "zeromem_curate_session" ≡ some p)
    × All (λ (a : String × String). a.0 ≡ p.argument) plan.args
    × ((p.required ≡ false) ⊎ ((text : String) × (plan.args ≡ (p.argument, text) ∷ [])))
job_prompts_example =
    job_prompts same number any_url is_inherited env values ("session" ∷ []) plan
      "zeromem_curate_session" planned refl
