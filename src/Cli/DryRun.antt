-- ===== src/Cli/DryRun.antt =====
-- That `--dry-run` of server/src/curate.ts leaves the store as it is.
use mcp_zeromem.Common.{ℕ, String, Bool, true, false, ◌||◌, ◌≡◌, refl, Option, List, [], ◌∷◌}
use mcp_zeromem.Ingest.{Reading}
use mcp_zeromem.Config.{Config}
use mcp_zeromem.Config.Env.{Env}
use mcp_zeromem.Api.Engine.{Called}
use mcp_zeromem.Gateway.Tools.{ToolEngine, ToolReadsKeep}
use mcp_zeromem.Gateway.Tools.Calls.{Call, Output}
use mcp_zeromem.Gateway.Tools.Runs.{call_tool}
use mcp_zeromem.Gateway.Tools.ReadOnly.{call_tool_read_only}
use mcp_zeromem.Cli.{Values}
use mcp_zeromem.Cli.Start.{Plan, Target, remote, opened_here, go, start}
use mcp_zeromem.Cli.Plans.{IsReached, start-IsPlanned}

module _ {S J A O N : Type 0} (e : ToolEngine S J A O N) (day : ℕ → String) (fixed : N → String)
    (read_line : String → Reading) (read_file : List String → Called String)
    (stringify : Output J N → String) where
  -- The store after the calls of a run, on a server for the curator.
  abbrev pub call_all : Config → List (Call A O) → S → S
  call_all config [] s = s
  call_all config (c ∷ cs) s =
      call_all config cs (call_tool e day fixed config read_line read_file stringify true c s).1

  module _ (P : S → Type 0) (laws : ToolReadsKeep P e) where
    call_all_keeps :
        (config : Config) (calls : List (Call A O)) (s : S)
        → config.read_only ≡ true
        → P s
        → P (call_all config calls s)
    call_all_keeps config [] s on p = p
    call_all_keeps config (c ∷ cs) s on p =
        call_all_keeps config cs _ on
          (call_tool_read_only e day fixed config read_line read_file P laws stringify on true c s
            p).0

    -- A run with --dry-run is given the store that is opened here, and whatever tools the model calls, in whatever order
    -- and however often, what the engine's calls that only read keep of the store is kept.
    pub dry_run_keeps :
        (resolve : String → String) (number : String → Option ℕ) (is_url : String → Bool)
        (is_inherited : String → Bool) (env : Env) (values : Values) (positionals : List String)
        (plan : Plan) (calls : List (Call A O)) (s : S)
        → start resolve number is_url is_inherited env values positionals ≡ go plan
        → values.dry_run ≡ true
        → P s
        → (c : Config) × (plan.target ≡ opened_here c) × P (call_all c calls s)
    dry_run_keeps resolve number is_url is_inherited env values positionals plan calls s started dry
          p =
        reached plan.target
          (start-IsPlanned resolve number is_url is_inherited env values positionals plan
            started).target
      where
        reached :
            (t : Target)
            → IsReached resolve number is_url is_inherited env values t
            → (c : Config) × (t ≡ opened_here c) × P (call_all c calls s)
        reached (remote url token) (off, held) = absurd (cc)
        reached (opened_here c) (l, loaded, made) =
            (c, refl, call_all_keeps c calls s (rw (made, dry) (or_true l.read_only)) p)
          where
            or_true : (b : Bool) → (b || true) ≡ true
            or_true true = refl
            or_true false = refl
